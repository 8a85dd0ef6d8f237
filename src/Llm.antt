-- ===== src/Llm.antt =====
-- infrastructure/llm/openai_client.py: the chunks of a streamed completion, and the response that
-- is put together of them. The stream of the client library is the argument.
pub mod Deltas
pub mod Complete
use mathlib.Core.List.{foldl}
use bank_rag_bot.Prelude.{
  ℕ, String, Bool, true, false, ◌==◌, Option, none, some, List, [], ◌∷◌, ◌++◌, if◌then◌else◌, eqb,
}
use bank_rag_bot.Prelude.Text.{◌<>◌}
use bank_rag_bot.Prelude.Exec.{Result, ok, raised, type_error, json_decode_error, bind_result}
use bank_rag_bot.Domain.{Json, Fields, obj, Arguments}
use bank_rag_bot.Ports.{ToolCall, LlmResponse, LlmStreamChunk, or_empty}
use bank_rag_bot.Conversations.{arguments_of, as_object}

pub record ToolCallDelta : Type 0 where
  pub index : ℕ
  pub id : Option String
  pub name : Option String
  pub arguments : Option String

pub record Delta : Type 0 where
  pub content : Option String
  pub tool_calls : List ToolCallDelta
  pub finish_reason : Option String

pub record Fragment : Type 0 where
  pub index : ℕ
  pub id : String
  pub name : String
  pub arguments : String

-- `if value: target = value`
abbrev pub or_keep : Option String → String → String
or_keep none old = old
or_keep (some s) old = if s == "" then old else s

abbrev pub extend : Fragment → ToolCallDelta → Fragment
extend f d = record {
  index = f.index;
  id = or_keep d.id f.id;
  name = or_keep d.name f.name;
  arguments = f.arguments <> or_empty d.arguments;
}

-- `tool_call_fragments.setdefault(index, …)`, in the order of the first fragments
unfoldable pub add_fragment : List Fragment → ToolCallDelta → List Fragment
add_fragment [] d = extend (record { index = d.index; id = ""; name = ""; arguments = "" }) d ∷ []
add_fragment (f ∷ fs) d = if eqb f.index d.index then extend f d ∷ fs else f ∷ add_fragment fs d

-- the local variables of the loop, `content_parts` already joined
pub record Collected : Type 0 where
  pub content : String
  pub fragments : List Fragment
  pub finish_reason : String

abbrev pub nothing_collected : Collected
nothing_collected = record { content = ""; fragments = []; finish_reason = "stop" }

unfoldable pub collect : Collected → Delta → Collected
unfolding add_fragment
collect c d = record {
  content = c.content <> or_empty d.content;
  fragments = foldl add_fragment c.fragments d.tool_calls;
  finish_reason = or_keep d.finish_reason c.finish_reason;
}

-- `if delta.content: yield …`
unfoldable pub delta_chunks : Delta → List LlmStreamChunk
delta_chunks d =
    if or_empty d.content == ""
    then []
    else (record { content_delta = or_empty d.content; is_final = false; response = none }) ∷ []

unfoldable pub stream_chunks : List Delta → List LlmStreamChunk
unfolding delta_chunks
stream_chunks [] = []
stream_chunks (d ∷ ds) = delta_chunks d ++ stream_chunks ds

abbrev pub parsed_arguments : Option Json → Result Arguments
parsed_arguments none = raised json_decode_error
parsed_arguments (some j) = bind_result (as_object j) (λ fields. ok (arguments_of fields))

-- A text that is JSON but no object fails later, when the tool is called with it.
unfoldable pub tool_call_of : (String → Option Json) → Fragment → Result ToolCall
tool_call_of loads f =
    bind_result (if f.arguments == "" then ok [] else parsed_arguments (loads f.arguments))
      (λ arguments. ok (record { id = f.id; name = f.name; arguments = arguments }))

unfoldable pub tool_calls_of : (String → Option Json) → List Fragment → Result (List ToolCall)
unfolding tool_call_of
tool_calls_of loads [] = ok []
tool_calls_of loads (f ∷ fs) =
    bind_result (tool_call_of loads f)
      (λ c. bind_result (tool_calls_of loads fs) (λ cs. ok (c ∷ cs)))

unfoldable pub response_of : Collected → List ToolCall → LlmResponse
response_of c calls = record {
  content = if c.content == "" then none else some c.content;
  tool_calls = calls;
  finish_reason = c.finish_reason;
}

-- the chunk that ends the stream
unfoldable pub final_response : (String → Option Json) → Collected → Result LlmResponse
unfolding tool_calls_of response_of
final_response loads c =
    bind_result (tool_calls_of loads c.fragments) (λ calls. ok (response_of c calls))

unfoldable pub stream_complete :
    (String → Option Json) → List Delta → List LlmStreamChunk × Result LlmResponse
unfolding stream_chunks collect final_response
stream_complete loads deltas =
    (stream_chunks deltas, final_response loads (foldl collect nothing_collected deltas))
