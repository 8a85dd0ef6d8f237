-- ===== src/Agents/Router.antt =====
-- agents/orchestrator.py: `RouterAgent`. `handle_streaming` is a bounded loop over the model's
-- replies; it hands each event to `emit`, the body of its consumer's `async for`.
pub mod Texts
pub mod Produced
pub mod Bounded
use mathlib.Core.List.{map, ◌++◌}
use bank_rag_bot.Prelude.{
  ℕ, zero, suc, String, Bool, true, false, not, ◌&&◌, ◌||◌, ◌==◌, if◌then◌else◌, is_empty, List, [],
  ◌∷◌, Option, none, some, is_none,
}
use bank_rag_bot.Prelude.Text.{◌<>◌}
use bank_rag_bot.Prelude.Exec.{
  Exec, Result, ok, raised, Error, assertion_error, pure, raise, lift, gets, ◌>>=◌, ◌>>◌, modify,
}
use bank_rag_bot.Domain.{
  Json, str, obj, end, field, Message, Answer, Cited, Conversation, PendingAction,
  history_as_messages, product_info, smalltalk, human_handoff,
}
use bank_rag_bot.Python.{Python}
use bank_rag_bot.Ports.{
  Services, LlmResponse, LlmStreamChunk, LlmStream, ToolCall, ToolSchema, or_empty, router,
}
use bank_rag_bot.Agents.Tool.{Tool, to_openai_schema}
use bank_rag_bot.Agents.Registry.{for_conversation, get}
use bank_rag_bot.Agents.Turn.{
  Turn, StreamEvent, tool_run, external, draw, log_call, delta_event, done_event,
}
use bank_rag_bot.Agents.Router.Texts.{
  fallback_text, build_confirmation_text, extract_citations, is_smalltalk,
}

-- The local variables of the loop.
pub record Progress : Type 0 where
  pub messages : List Message
  pub used_tool : Bool
  pub last_citations : List Cited

abbrev pub role_message : String → String → Message
role_message role content = record { role = role; content = content }

-- `messages[-1] = {"role": "user", "content": resolved_question}` if the last role is "user"
unfoldable pub override_last : String → List Message → List Message
override_last question [] = []
override_last question (m ∷ []) =
    (if m.role == "user" then role_message "user" question else m) ∷ []
override_last question (m ∷ n ∷ ms) = m ∷ override_last question (n ∷ ms)

-- `resolved_question and …`: `None` and the empty question change nothing
unfoldable pub initial_messages : Conversation → Option String → List Message
unfolding override_last
initial_messages c none = history_as_messages c
initial_messages c (some q) =
    if q == "" then history_as_messages c else override_last q (history_as_messages c)

unfoldable pub answer_text : Bool → LlmResponse → String
answer_text grounded response =
    if not grounded || or_empty response.content == ""
    then fallback_text
    else or_empty response.content

module _ {W : Type 0} (py : Python) (sv : Services W)
    (emit : StreamEvent → Exec (Turn W) Unit) where
  unfoldable pub emit_if : Bool → StreamEvent → Exec (Turn W) Unit
  emit_if true e = emit e
  emit_if false e = pure tt

  -- One round of `async for chunk in stream_complete(…)`.
  unfoldable pub take_chunk :
      Bool → Option LlmResponse → LlmStreamChunk → Exec (Turn W) (Option LlmResponse)
  take_chunk live response chunk = if chunk.is_final then pure chunk.response else do
    emit_if (live && not (chunk.content_delta == "")) (delta_event chunk.content_delta)
    pure response

  unfoldable pub take_chunks :
      Bool → Option LlmResponse → List LlmStreamChunk → Exec (Turn W) (Option LlmResponse)
  take_chunks live response [] = pure response
  take_chunks live response (chunk ∷ chunks) = do
    response' ← take_chunk live response chunk
    take_chunks live response' chunks

  -- An exception of the stream passes through; no final chunk fails the `assert`.
  unfoldable pub finish_stream : Option Error → Option LlmResponse → Exec (Turn W) LlmResponse
  finish_stream (some e) response = raise e
  finish_stream none none = raise assertion_error
  finish_stream none (some r) = pure r

  unfoldable pub model_reply : List ToolSchema → Progress → Exec (Turn W) LlmResponse
  unfolding take_chunks finish_stream take_chunk emit_if
  model_reply schemas p = do
    stream ← draw (sv.stream_complete router p.messages schemas)
    response ← take_chunks p.used_tool none stream.chunks
    finish_stream stream.failure response

  -- The reply calls no tool: it is the answer, if a tool or the smalltalk whitelist grounds it.
  unfoldable pub final_answer_of : Progress → LlmResponse → Answer
  final_answer_of p response =
      let grounded = p.used_tool || is_smalltalk py (or_empty response.content) in
      record {
        text = answer_text grounded response;
        citations = p.last_citations;
        intent = if p.used_tool then product_info else smalltalk;
        grounded = grounded;
        pending_action = none;
      }

  unfoldable pub finish : Progress → LlmResponse → Exec (Turn W) Unit
  unfolding emit_if
  finish p response =
      let answer = final_answer_of p response in
      do emit_if (not p.used_tool) (delta_event answer.text); emit (done_event answer)

  -- The reply calls a tool that needs confirmation: the call is proposed, and the loop stops.
  unfoldable pub proposal : Progress → Tool W → ToolCall → Answer
  proposal p tool call =
      let text = build_confirmation_text py tool call.arguments in
      record {
        text = text;
        citations = p.last_citations;
        intent = product_info;
        grounded = true;
        pending_action = some (record {
          tool_name = tool.name;
          arguments = call.arguments;
          confirmation_prompt = text;
        });
      }

  unfoldable pub tool_message : Progress → String → Progress
  tool_message p result = record p { messages = p.messages ++ role_message "tool" result ∷ [] }

  unfoldable pub unknown_tool : String → String
  unknown_tool name = py.dumps (obj (field "error" (str ("unknown_tool: " <> name)) end))

  unfoldable pub new_citations : Tool W → String → Progress → Result (List Cited)
  new_citations tool result p =
      if tool.name == "search_knowledge_base"
      then extract_citations py result
      else ok p.last_citations

  unfoldable pub run_tool : Tool W → ToolCall → Progress → Exec (Turn W) (Option Progress)
  run_tool tool call p = do
    log_call (tool_run tool.name call.arguments)
    result ← external (tool.run call.arguments)
    citations ← lift (new_citations tool result p)
    pure (some (tool_message (record p { used_tool = true; last_citations = citations }) result))

  -- One tool call; `none` is the early `return`.
  unfoldable pub take_call : List (Tool W) → ToolCall → Progress → Exec (Turn W) (Option Progress)
  unfolding run_tool
  take_call tools call p = elim (get tools call.name) [
    | none ↦ pure (some (tool_message p (unknown_tool call.name)))
    | some tool ↦
        if tool.requires_confirmation
        then (do emit (done_event (proposal p tool call)); pure none)
        else run_tool tool call p
  ]

  unfoldable pub take_calls :
      List (Tool W) → List ToolCall → Progress → Exec (Turn W) (Option Progress)
  take_calls tools [] p = pure (some p)
  take_calls tools (call ∷ calls) p = do
    next ← take_call tools call p
    elim next [ none ↦ pure none | some p' ↦ take_calls tools calls p' ]

  unfoldable pub exhausted : Progress → Answer
  exhausted p = record {
    text = fallback_text;
    citations = p.last_citations;
    intent = human_handoff;
    grounded = false;
    pending_action = none;
  }

  -- `for _ in range(self._max_iterations)`
  unfoldable pub iterate : ℕ → List (Tool W) → List ToolSchema → Progress → Exec (Turn W) Unit
  iterate zero tools schemas p = emit (done_event (exhausted p))
  iterate (suc n) tools schemas p = do
    response ← model_reply schemas p
    if is_empty response.tool_calls then finish p response else do
      next ← take_calls tools response.tool_calls (record p {
        messages = p.messages ++ role_message "assistant" (or_empty response.content) ∷ [];
      })
      elim next [ none ↦ pure tt | some p' ↦ iterate n tools schemas p' ]

  unfoldable pub handle_streaming : ℕ → List (Tool W) → Option String → Exec (Turn W) Unit
  unfolding iterate
  handle_streaming max_iterations tools resolved_question t =
      let c = t.conversation in
      iterate max_iterations tools
        (map to_openai_schema (for_conversation tools c.is_authenticated))
        (record {
          messages = initial_messages c resolved_question;
          used_tool = false;
          last_citations = [];
        })
        t
