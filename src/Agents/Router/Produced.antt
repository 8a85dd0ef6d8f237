-- ===== src/Agents/Router/Produced.antt =====
-- What the router can yield. `IsProduced` says of an answer what its text, its flags and its
-- proposal have to do with the tools; the theorem is one rule about `handle_streaming` for any
-- consumer, from which the properties of the use case follow.
use bank_rag_bot.Prelude.{
  ℕ, zero, suc, String, Bool, true, false, not, ◌==◌, List, [], ◌∷◌, Option, none, some, is_none,
  is_empty, ◌≡◌, refl, ◌⊎◌, inl, inr, arith, Bool-cases, Option-cases, ◌++◌,
}
use bank_rag_bot.Prelude.Exec.{Exec, Error, Result, ok, raised, pure}
use bank_rag_bot.Prelude.Triple.{
  Triple, Triple-pure, Triple-raise, Triple-lift, Triple-if, Triple-bind, Outcome,
}
use bank_rag_bot.Domain.{Answer, Arguments, PendingAction}
use bank_rag_bot.Python.{Python}
use bank_rag_bot.Ports.{
  Services, LlmStream, router, LlmResponse, LlmStreamChunk, ToolCall, ToolSchema, or_empty,
}
use bank_rag_bot.Agents.Tool.{Tool}
use bank_rag_bot.Agents.Registry.{get}
use bank_rag_bot.Agents.Turn.{
  Turn, StreamEvent, tool_run, external, draw, log_call, delta_event, done_event,
}
use bank_rag_bot.Agents.Router.Texts.{fallback_text, is_smalltalk}
use bank_rag_bot.Agents.Router.{
  Progress, answer_text, emit_if, take_chunk, take_chunks, finish_stream, model_reply,
  final_answer_of, finish, proposal, tool_message, unknown_tool, new_citations, run_tool, take_call,
  take_calls, exhausted, iterate, handle_streaming,
}

-- A text that may be shown though no tool has run.
abbrev pub IsSupported : Python → String → Type 0
IsSupported py text = (text ≡ fallback_text) ⊎ (is_smalltalk py text ≡ true)

module _ {W : Type 0} (py : Python) (tools : List (Tool W)) where
  -- `used` says whether a tool has run in this turn.
  pub record IsProduced (used : Bool) (a : Answer) : Type 0 where
    pub ungrounded : a.grounded ≡ false → a.text ≡ fallback_text
    pub supported : used ≡ false → is_none a.pending_action ≡ true → IsSupported py a.text
    pub proposes :
        (p : PendingAction)
        → a.pending_action ≡ some p
        → (tool : Tool W) × (name : String) × (get tools name ≡ some tool)
          × (tool.requires_confirmation ≡ true)
          × (p.tool_name ≡ tool.name)
          × (a.grounded ≡ true)

-- What a consumer must provide: `Open used` before the done event, `Closed` after it, `Failed` when
-- an exception passes through.
pub record Consumer {W : Type 0} (py : Python) (tools : List (Tool W))
    (emit : StreamEvent → Exec (Turn W) Unit) (Open : Bool → Turn W → Type 0)
    (Closed Failed : Turn W → Type 0) : Type 0 where
  pub on_delta :
      (used : Bool) (text : String)
      → ((used ≡ true) ⊎ IsSupported py text)
      → Triple (Open used) (emit (delta_event text)) (λ _. Open used) Failed
  pub on_done :
      (used : Bool) (a : Answer)
      → IsProduced py tools used a
      → Triple (Open used) (emit (done_event a)) (λ _. Closed) Failed
  pub on_world :
      (used : Bool) (t : Turn W) (w : W) → Open used t → Open used (record t { world = w })
  pub on_run :
      (used : Bool) (t : Turn W) (name : String) (tool : Tool W) (arguments : Arguments)
      → get tools name ≡ some tool
      → tool.requires_confirmation ≡ false
      → Open used t
      → Open true (record t { calls = t.calls ++ tool_run tool.name arguments ∷ [] })
  pub on_failure : (used : Bool) (t : Turn W) → Open used t → Failed t

module _ {W : Type 0} (py : Python) (sv : Services W) (tools : List (Tool W))
    (emit : StreamEvent → Exec (Turn W) Unit) (Open : Bool → Turn W → Type 0)
    (Closed Failed : Turn W → Type 0) (consumer : Consumer py tools emit Open Closed Failed) where
  emit_if-Triple :
      (b used : Bool) (text : String)
      → (b ≡ true → (used ≡ true) ⊎ IsSupported py text)
      → Triple (Open used) (emit_if py sv emit b (delta_event text)) (λ _. Open used) Failed
  unfolding emit_if
  emit_if-Triple true used text h = consumer.on_delta used text (h refl)
  emit_if-Triple false used text h = Triple-pure tt (λ s o. o)

  take_chunk-Triple :
      (used : Bool) (found : Option LlmResponse) (chunk : LlmStreamChunk)
      → Triple (Open used) (take_chunk py sv emit used found chunk) (λ _. Open used) Failed
  unfolding take_chunk
  take_chunk-Triple used found chunk =
      Triple-if chunk.is_final _ _ (λ _. Triple-pure chunk.response (λ s o. o))
        (λ _.
          Triple-bind _ _ (emit_if-Triple _ used chunk.content_delta (λ h. inl (ground arith)))
            (λ _. Triple-pure found (λ s o. o)))

  take_chunks-Triple :
      (used : Bool) (found : Option LlmResponse) (chunks : List LlmStreamChunk)
      → Triple (Open used) (take_chunks py sv emit used found chunks) (λ _. Open used) Failed
  unfolding take_chunks
  take_chunks-Triple used found [] = Triple-pure found (λ s o. o)
  take_chunks-Triple used found (chunk ∷ chunks) =
      Triple-bind _ _ (take_chunk-Triple used found chunk) (λ r. take_chunks-Triple used r chunks)

  finish_stream-Triple :
      (used : Bool) (failure : Option Error) (found : Option LlmResponse)
      → Triple (Open used) (finish_stream py sv emit failure found) (λ _. Open used) Failed
  unfolding finish_stream
  finish_stream-Triple used (some e) found = Triple-raise e (consumer.on_failure used)
  finish_stream-Triple used none none = Triple-raise _ (consumer.on_failure used)
  finish_stream-Triple used none (some r) = Triple-pure r (λ s o. o)

  external-Outcome :
      {A : Type 0} (used : Bool) (r : Result A) (t : Turn W)
      → Open used t
      → Outcome (λ _. Open used) Failed r t
  external-Outcome used (ok a) t o = o
  external-Outcome used (raised e) t o = consumer.on_failure used t o

  external-Triple :
      {A : Type 0} (used : Bool) (m : Exec W A)
      → Triple (Open used) (external m) (λ _. Open used) Failed
  unfolding external
  external-Triple used m = record {
    at = λ t o.
        external-Outcome used (m t.world).0 (record t { world = (m t.world).1 })
          (consumer.on_world used t (m t.world).1 o);
  }

  draw-Triple :
      {A : Type 0} (used : Bool) (m : W → A × W)
      → Triple (Open used) (draw m) (λ _. Open used) Failed
  unfolding draw
  draw-Triple used m = record { at = λ t o. consumer.on_world used t (m t.world).1 o }

  model_reply-Triple :
      (schemas : List ToolSchema) (p : Progress)
      → Triple (Open p.used_tool) (model_reply py sv emit schemas p) (λ _. Open p.used_tool) Failed
  unfolding model_reply
  model_reply-Triple schemas p =
      Triple-bind _ _ (draw-Triple p.used_tool (sv.stream_complete router p.messages schemas))
        (λ (stream : LlmStream).
          Triple-bind _ _ (take_chunks-Triple p.used_tool none stream.chunks)
            (λ found. finish_stream-Triple p.used_tool stream.failure found))

  answer_text-IsSupported :
      (r : LlmResponse) → IsSupported py (answer_text (is_smalltalk py (or_empty r.content)) r)
  unfolding answer_text
  answer_text-IsSupported r = elim (Bool-cases (is_smalltalk py (or_empty r.content))) [
    | inl greets ↦ elim (Bool-cases (or_empty r.content == "")) [
      | inl silent ↦ inl (ground arith)
      | inr worded ↦ inr (rw (greets, worded) greets)
    ]
    | inr other ↦ inl (rw other)
  ]

  final_answer_of-IsProduced :
      (p : Progress) (r : LlmResponse)
      → IsProduced py tools p.used_tool (final_answer_of py sv emit p r)
  unfolding final_answer_of
  final_answer_of-IsProduced p r = record {
    ungrounded = λ h. unfold answer_text in rw h;
    supported = λ h k. rw h (answer_text-IsSupported r);
    proposes = λ q h. absurd (ground arith);
  }

  finish-Triple :
      (p : Progress) (r : LlmResponse)
      → Triple (Open p.used_tool) (finish py sv emit p r) (λ _. Closed) Failed
  unfolding finish
  finish-Triple p r =
      let made = final_answer_of-IsProduced p r in
      Triple-bind _ _
        (emit_if-Triple (not p.used_tool) p.used_tool _
          (λ h. inr (made.supported (ground arith) (unfold final_answer_of in refl))))
        (λ _. consumer.on_done p.used_tool _ made)

  proposal-IsProduced :
      (used : Bool) (p : Progress) (tool : Tool W) (call : ToolCall)
      → get tools call.name ≡ some tool
      → tool.requires_confirmation ≡ true
      → IsProduced py tools used (proposal py sv emit p tool call)
  unfolding proposal
  proposal-IsProduced used p tool call found asks = record {
    ungrounded = λ h. absurd (ground arith);
    supported = λ h k. absurd (ground arith);
    proposes = λ q h. (tool, call.name, found, asks, ground arith, refl);
  }

  exhausted-IsProduced :
      (used : Bool) (p : Progress) → IsProduced py tools used (exhausted py sv emit p)
  unfolding exhausted
  exhausted-IsProduced used p = record {
    ungrounded = λ h. refl;
    supported = λ h k. inl refl;
    proposes = λ q h. absurd (ground arith);
  }

  -- after a call: the loop goes on with the flag of the new progress, or has ended
  abbrev Went : Option Progress → Turn W → Type 0
  Went none t = Closed t
  Went (some p) t = Open p.used_tool t

  run_tool-Triple :
      (tool : Tool W) (call : ToolCall) (p : Progress)
      → get tools call.name ≡ some tool
      → tool.requires_confirmation ≡ false
      → Triple (Open p.used_tool) (run_tool py sv emit tool call p) Went Failed
  unfolding run_tool tool_message log_call
  run_tool-Triple tool call p found free =
      Triple-bind {Q = λ _. Open true} _ _
        (record {
          at = λ t o. consumer.on_run p.used_tool t call.name tool call.arguments found free o;
        })
        (λ _. Triple-bind _ _ (external-Triple true (tool.run call.arguments)) (λ result.
          Triple-bind {Q = λ _. Open true} _ _
            (Triple-lift (new_citations py sv emit tool result p) (λ _ t _ o. o)
              (consumer.on_failure true))
            (λ citations.
              Triple-pure
                (some (
                  tool_message py sv emit
                    (record p { used_tool = true; last_citations = citations }) result))
                (λ t o. o))))

  take_call-Triple :
      (call : ToolCall) (p : Progress)
      → Triple (Open p.used_tool) (take_call py sv emit tools call p) Went Failed
  unfolding take_call tool_message
  take_call-Triple call p = elim (Option-cases (get tools call.name)) [
    | inl missing ↦
        rw (missing, take_call)
          (Triple-pure (some (tool_message py sv emit p (unknown_tool py sv emit call.name)))
            (λ t o. o))
    | inr (tool, found) ↦
        rw (found, take_call)
          (Triple-if tool.requires_confirmation _ _
            (λ asks.
              Triple-bind _ _
                (consumer.on_done p.used_tool _
                  (proposal-IsProduced p.used_tool p tool call found asks))
                (λ _. Triple-pure none (λ t c. c)))
            (λ free. run_tool-Triple tool call p found free))
  ]

  next-Triple :
      {B : Type 0} {Q : B → Turn W → Type 0} (stop : Exec (Turn W) B)
      (go : Progress → Exec (Turn W) B)
      → Triple Closed stop Q Failed
      → ((p : Progress) → Triple (Open p.used_tool) (go p) Q Failed)
      → (next : Option Progress)
      → Triple (Went next) (elim next [ none ↦ stop | some p ↦ go p ]) Q Failed
  next-Triple stop go h k none = h
  next-Triple stop go h k (some p) = k p

  take_calls-Triple :
      (calls : List ToolCall) (p : Progress)
      → Triple (Open p.used_tool) (take_calls py sv emit tools calls p) Went Failed
  unfolding take_calls
  take_calls-Triple [] p = Triple-pure (some p) (λ t o. o)
  take_calls-Triple (call ∷ calls) p =
      let rest = take_calls-Triple calls in
      Triple-bind _ _ (take_call-Triple call p) (
        next-Triple (pure none) (take_calls py sv emit tools calls) (Triple-pure none (λ t c. c))
          rest)

  iterate-Triple :
      (n : ℕ) (schemas : List ToolSchema) (p : Progress)
      → Triple (Open p.used_tool) (iterate py sv emit n tools schemas p) (λ _. Closed) Failed
  unfolding iterate
  iterate-Triple zero schemas p =
      consumer.on_done p.used_tool _ (exhausted-IsProduced p.used_tool p)
  iterate-Triple (suc n) schemas p =
      let rest = iterate-Triple n schemas in
      Triple-bind _ _ (model_reply-Triple schemas p) (λ (response : LlmResponse).
        Triple-if (is_empty response.tool_calls) _ _ (λ _. finish-Triple p response)
          (λ _. Triple-bind _ _ (take_calls-Triple response.tool_calls _) (
            next-Triple (pure tt) (iterate py sv emit n tools schemas) (Triple-pure tt (λ t c. c))
              rest)))

  -- From `Open false` the router ends in `Closed`, or an exception leaves it in `Failed`.
  pub handle_streaming-Triple :
      (max_iterations : ℕ) (resolved_question : Option String)
      → Triple
          (Open false)
          (handle_streaming py sv emit max_iterations tools resolved_question)
          (λ _. Closed)
          Failed
  unfolding handle_streaming
  handle_streaming-Triple max_iterations resolved_question = record {
    at = λ t o. (iterate-Triple max_iterations _ _).at t o;
  }
