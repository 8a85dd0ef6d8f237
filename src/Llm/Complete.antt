-- ===== src/Llm/Complete.antt =====
-- infrastructure/llm/openai_client.py, `complete`, and both methods as the port has them. The calls
-- of the client library are arguments: the choices of a completion, and the pieces of a stream with
-- the exception that ends it, if one does.
use bank_rag_bot.Prelude.{
  String, ◌==◌, true, Option, none, some, List, [], ◌∷◌, ◌++◌, if◌then◌else◌,
}
use bank_rag_bot.Prelude.Exec.{
  Exec, Result, ok, raised, Error, index_error, bind_result, lift, ◌>>=◌,
}
use bank_rag_bot.Domain.{Json, Message}
use bank_rag_bot.Ports.{ToolCall, LlmResponse, LlmStreamChunk, LlmStream, SystemPrompt, ToolSchema}
use bank_rag_bot.Llm.{Delta, parsed_arguments, stream_complete, stream_chunks}

pub record CompletedCall : Type 0 where
  pub id : String
  pub name : String
  pub arguments : String

-- A message with `tool_calls = None` has none of them.
pub record Choice : Type 0 where
  pub content : Option String
  pub tool_calls : List CompletedCall
  pub finish_reason : Option String

unfoldable pub completed_calls :
    (String → Option Json) → List CompletedCall → Result (List ToolCall)
completed_calls loads [] = ok []
completed_calls loads (c ∷ cs) = bind_result (parsed_arguments (loads c.arguments)) (λ arguments.
    bind_result (completed_calls loads cs)
      (λ rest. ok ((record { id = c.id; name = c.name; arguments = arguments }) ∷ rest)))

-- `choice.finish_reason or "stop"`
unfoldable pub or_stop : Option String → String
or_stop none = "stop"
or_stop (some s) = if s == "" then "stop" else s

unfoldable pub completion : (String → Option Json) → List Choice → Result LlmResponse
unfolding completed_calls or_stop
completion loads [] = raised index_error
completion loads (choice ∷ more) = bind_result (completed_calls loads choice.tool_calls) (λ calls.
    ok (record {
      content = choice.content;
      tool_calls = calls;
      finish_reason = or_stop choice.finish_reason;
    }))

unfoldable pub complete :
    {W : Type 0}
    → (String → Option Json)
    → (SystemPrompt → List Message → Exec W (List Choice))
    → SystemPrompt
    → List Message
    → Exec W LlmResponse
unfolding completion
complete loads create prompt messages = do
  choices ← create prompt messages
  lift (completion loads choices)

abbrev pub last_chunk : LlmResponse → LlmStreamChunk
last_chunk r = record { content_delta = ""; is_final = true; response = some r }

-- The final chunk comes after the pieces, if its tool calls can be read.
unfoldable pub ended : List LlmStreamChunk → Result LlmResponse → LlmStream
ended chunks (ok r) = record { chunks = chunks ++ last_chunk r ∷ []; failure = none }
ended chunks (raised e) = record { chunks = chunks; failure = some e }

unfoldable pub stream_of : (String → Option Json) → List Delta → Option Error → LlmStream
unfolding ended stream_chunks stream_complete
stream_of loads deltas none = let r = stream_complete loads deltas in ended r.0 r.1
stream_of loads deltas (some e) = record { chunks = stream_chunks deltas; failure = some e }

unfoldable pub streamed :
    {W : Type 0}
    → (String → Option Json)
    → (SystemPrompt → List Message → List ToolSchema → W → (List Delta × Option Error) × W)
    → SystemPrompt
    → List Message
    → List ToolSchema
    → W
    → LlmStream × W
unfolding stream_of
streamed loads create prompt messages tools w =
    let r = create prompt messages tools w in (stream_of loads r.0.0 r.0.1, r.1)
