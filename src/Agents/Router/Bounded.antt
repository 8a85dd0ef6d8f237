-- ===== src/Agents/Router/Bounded.antt =====
-- How often the router asks the model.
use bank_rag_bot.Prelude.{
  ℕ, zero, suc, ◌+◌, ◌≤◌, String, Bool, true, false, List, [], ◌∷◌, Option, none, some, is_empty,
  ◌≡◌, inl, inr, arith, Option-cases,
}
use bank_rag_bot.Prelude.Exec.{Exec, Error, pure}
use bank_rag_bot.Prelude.Triple.{
  Triple, Triple-pure, Triple-raise, Triple-lift, Triple-if, Triple-bind, Triple-kept, Triple-after,
  Triple-modify, Outcome-state,
}
use bank_rag_bot.Domain.{Arguments, Message}
use bank_rag_bot.Python.{Python}
use bank_rag_bot.Ports.{
  Services, LlmStream, router, LlmResponse, LlmStreamChunk, ToolCall, ToolSchema, SystemPrompt,
}
use bank_rag_bot.Agents.Tool.{Tool}
use bank_rag_bot.Agents.Registry.{get}
use bank_rag_bot.Agents.Turn.{Turn, StreamEvent, external, draw, log_call, delta_event}
use bank_rag_bot.Agents.Router.{
  Progress, emit_if, take_chunk, take_chunks, finish_stream, model_reply, finish, new_citations,
  run_tool, take_call, take_calls, iterate, handle_streaming,
}

-- A count of the streamed completions: a call of the model adds one, and neither a tool of the
-- registry nor the consumer of the events changes it.
pub record IsCount {W : Type 0} (sv : Services W) (tools : List (Tool W))
    (emit : StreamEvent → Exec (Turn W) Unit) (count : W → ℕ) : Type 0 where
  pub after_stream :
      (prompt : SystemPrompt) (messages : List Message) (schemas : List ToolSchema) (w : W)
      → count (sv.stream_complete prompt messages schemas w).1 ≡ suc (count w)
  pub after_run :
      (name : String) (tool : Tool W) (arguments : Arguments) (w : W)
      → get tools name ≡ some tool
      → count (tool.run arguments w).1 ≡ count w
  pub after_emit : (event : StreamEvent) (t : Turn W) → count (emit event t).1.world ≡ count t.world

module _ {W : Type 0} (py : Python) (sv : Services W) (tools : List (Tool W))
    (emit : StreamEvent → Exec (Turn W) Unit) (count : W → ℕ)
    (law : IsCount sv tools emit count) where
  -- at most `k` calls
  abbrev Within : ℕ → Turn W → Type 0
  Within k t = count t.world ≤ k

  -- no call of the model
  abbrev IsFree : ℕ → {A : Type 0} → Exec (Turn W) A → Type 0
  IsFree k m = Triple (Within k) m (λ _. Within k) (Within k)

  module _ (k : ℕ) where
    emit-IsFree : (event : StreamEvent) → IsFree k (emit event)
    emit-IsFree event = Triple-kept (Within k) _ (λ t h. omega (arith, h, law.after_emit event t))

    emit_if-IsFree : (b : Bool) (event : StreamEvent) → IsFree k (emit_if py sv emit b event)
    unfolding emit_if
    emit_if-IsFree true event = emit-IsFree event
    emit_if-IsFree false event = Triple-pure tt (λ t h. h)

    take_chunk-IsFree :
        (live : Bool) (found : Option LlmResponse) (chunk : LlmStreamChunk)
        → IsFree k (take_chunk py sv emit live found chunk)
    unfolding take_chunk
    take_chunk-IsFree live found chunk =
        Triple-if chunk.is_final _ _ (λ _. Triple-pure chunk.response (λ t h. h))
          (λ _.
            Triple-bind {Q = λ _. Within k} _ _ (emit_if-IsFree _ (delta_event chunk.content_delta))
              (λ _. Triple-pure found (λ t h. h)))

    take_chunks-IsFree :
        (live : Bool) (found : Option LlmResponse) (chunks : List LlmStreamChunk)
        → IsFree k (take_chunks py sv emit live found chunks)
    unfolding take_chunks
    take_chunks-IsFree live found [] = Triple-pure found (λ t h. h)
    take_chunks-IsFree live found (chunk ∷ chunks) =
        Triple-bind {Q = λ _. Within k} _ _ (take_chunk-IsFree live found chunk)
          (λ r. take_chunks-IsFree live r chunks)

    finish_stream-IsFree :
        (failure : Option Error) (found : Option LlmResponse)
        → IsFree k (finish_stream py sv emit failure found)
    unfolding finish_stream
    finish_stream-IsFree (some e) found = Triple-raise e (λ t h. h)
    finish_stream-IsFree none none = Triple-raise _ (λ t h. h)
    finish_stream-IsFree none (some r) = Triple-pure r (λ t h. h)

    finish-IsFree : (p : Progress) (r : LlmResponse) → IsFree k (finish py sv emit p r)
    unfolding finish
    finish-IsFree p r =
        Triple-bind {Q = λ _. Within k} _ _ (emit_if-IsFree _ _) (λ _. emit-IsFree _)

    run_tool-IsFree :
        (tool : Tool W) (call : ToolCall) (p : Progress)
        → get tools call.name ≡ some tool
        → IsFree k (run_tool py sv emit tool call p)
    unfolding run_tool log_call external
    run_tool-IsFree tool call p found =
        Triple-bind {Q = λ _. Within k} _ _ (Triple-modify _ (λ t h. h)) (λ _.
          Triple-bind {Q = λ _. Within k} _ _
            (Triple-kept (Within k) _
              (λ t h. omega (arith, h, law.after_run call.name tool call.arguments t.world found)))
            (λ result.
              Triple-bind {Q = λ _. Within k} _ _
                (Triple-lift (new_citations py sv emit tool result p) (λ _ t _ h. h) (λ t h. h))
                (λ citations. Triple-pure _ (λ t h. h))))

    take_call-IsFree :
        (call : ToolCall) (p : Progress) → IsFree k (take_call py sv emit tools call p)
    unfolding take_call
    take_call-IsFree call p = elim (Option-cases (get tools call.name)) [
      | inl missing ↦ rw (missing, take_call) (Triple-pure _ (λ t h. h))
      | inr (tool, found) ↦
          rw (found, take_call)
            (Triple-if tool.requires_confirmation _ _
              (λ asks.
                Triple-bind {Q = λ _. Within k} _ _ (emit-IsFree _)
                  (λ _. Triple-pure none (λ t h. h)))
              (λ free. run_tool-IsFree tool call p found))
    ]

    next-IsFree :
        {B : Type 0} {F : Turn W → Type 0} (stop : Exec (Turn W) B)
        (go : Progress → Exec (Turn W) B)
        → Triple (Within k) stop (λ _. F) F
        → ((p : Progress) → Triple (Within k) (go p) (λ _. F) F)
        → (next : Option Progress)
        → Triple (Within k) (elim next [ none ↦ stop | some p ↦ go p ]) (λ _. F) F
    next-IsFree stop go h g none = h
    next-IsFree stop go h g (some p) = g p

    take_calls-IsFree :
        (calls : List ToolCall) (p : Progress) → IsFree k (take_calls py sv emit tools calls p)
    unfolding take_calls
    take_calls-IsFree [] p = Triple-pure (some p) (λ t h. h)
    take_calls-IsFree (call ∷ calls) p =
        let rest = take_calls-IsFree calls in
        Triple-bind {Q = λ _. Within k} _ _ (take_call-IsFree call p) (
          next-IsFree (pure none) (take_calls py sv emit tools calls) (Triple-pure none (λ t h. h))
            rest)

  -- one call of the model
  model_reply-Triple :
      (k : ℕ) (schemas : List ToolSchema) (p : Progress)
      → Triple (Within k) (model_reply py sv emit schemas p) (λ _. Within (suc k)) (Within (suc k))
  unfolding model_reply draw
  model_reply-Triple k schemas p =
      Triple-bind {Q = λ _. Within (suc k)} _ _
        (record {
          at = λ t h. omega (arith, h, law.after_stream router p.messages schemas t.world);
        })
        (λ (stream : LlmStream).
          Triple-bind {Q = λ _. Within (suc k)} _ _
            (take_chunks-IsFree (suc k) p.used_tool none stream.chunks)
            (λ found. finish_stream-IsFree (suc k) stream.failure found))

  -- what is within `k` is within any more
  relax :
      {A : Type 0} (k m : ℕ) (c : Exec (Turn W) A)
      → k ≤ m
      → IsFree k c
      → Triple (Within k) c (λ _. Within m) (Within m)
  relax k m c h free =
      Triple-after _ _ c (λ a t q. omega (arith, h, q)) (λ t q. omega (arith, h, q)) free

  iterate-Triple :
      (n k m : ℕ) (schemas : List ToolSchema) (p : Progress)
      → n + k ≤ m
      → Triple (Within k) (iterate py sv emit n tools schemas p) (λ _. Within m) (Within m)
  unfolding iterate
  iterate-Triple zero k m schemas p h = relax k m _ (omega (arith, h)) (emit-IsFree k _)
  iterate-Triple (suc n) k m schemas p h =
      let more : suc k ≤ m = omega (arith, h) in
      let rest = λ (q : Progress). iterate-Triple n (suc k) m schemas q (omega (arith, h)) in
      Triple-bind {Q = λ _. Within (suc k)} _ _
        (Triple-after _ _ _ (λ a t q. q) (λ t q. omega (arith, more, q))
          (model_reply-Triple k schemas p))
        (λ (response : LlmResponse).
          Triple-if (is_empty response.tool_calls) _ _
            (λ _. relax (suc k) m _ more (finish-IsFree (suc k) p response))
            (λ _.
              Triple-bind {Q = λ _. Within (suc k)} _ _
                (Triple-after _ _ _ (λ a t q. q) (λ t q. omega (arith, more, q))
                  (take_calls-IsFree (suc k) response.tool_calls _))
                (next-IsFree (suc k) (pure tt) (iterate py sv emit n tools schemas)
                  (Triple-pure tt (λ t q. omega (arith, more, q))) rest)))

  -- A message that the router answers takes at most `max_iterations` calls of the model, whatever
  -- the model replies and however the loop ends, if no tool of the registry and no consumer of the
  -- events calls the model.
  pub handle_streaming-Within :
      (max_iterations : ℕ) (resolved_question : Option String) (t : Turn W)
      → count (handle_streaming py sv emit max_iterations tools resolved_question t).1.world
        ≤ max_iterations + count t.world
  unfolding handle_streaming
  handle_streaming-Within max_iterations resolved_question t =
      Outcome-state (Within (max_iterations + count t.world)) _ _ (
        (iterate-Triple max_iterations (count t.world) (max_iterations + count t.world) _ _
            (omega arith)).at
          t (omega arith))
