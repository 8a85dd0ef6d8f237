-- ===== src/AnswerQuestion/Events.antt =====
-- What `execute_streaming` yields: pieces of text, and then one done event. One rule for any
-- consumer of the events, from which both are read off.
pub mod Done
use mathlib.Core.List.{◌++◌}
use bank_rag_bot.Prelude.{
  ℕ, String, Bool, true, false, not, ◌&&◌, List, [], ◌∷◌, Option, none, some, is_none, ◌≡◌, refl,
  if◌then◌else◌,
}
use bank_rag_bot.Prelude.Exec.{Exec, Result, ok, raised, pure, lift, gets, modify}
use bank_rag_bot.Prelude.Triple.{
  Triple, Triple-pure, Triple-lift, Triple-gets, Triple-if, Triple-bind, Outcome,
}
use bank_rag_bot.Domain.{Answer, Conversation, PendingAction, Message, add}
use bank_rag_bot.Python.{Python}
use bank_rag_bot.Ports.{Services}
use bank_rag_bot.Agents.Tool.{Tool}
use bank_rag_bot.Agents.Registry.{for_conversation, get}
use bank_rag_bot.Agents.Guardrails.{
  is_confirmed, is_verified, is_in_scope, needs_escalation, rewrite,
}
use bank_rag_bot.Agents.Turn.{
  Turn, StreamEvent, Call, external, draw, log_call, delta_event, tool_run,
}
use bank_rag_bot.Agents.Router.Produced.{Consumer, handle_streaming-Triple}
use bank_rag_bot.AnswerQuestion.{
  cache_key, is_cacheable, add_turn, record_audit, conclude, run_pending, resolve_cleared,
  resolve_pending_action, check_numbers, store, store_if_cacheable, take_answer, take_event,
  replay_cached, ask_router, answer_resolved, answer_fresh, answer_pending, execute_streaming,
  document_ids, read_cached, describe_tool_result,
}

-- The event that ends a stream.
abbrev pub done_with : String → Answer → StreamEvent
done_with text a = record { delta = text; done = true; answer = some a }

-- A consumer of the events: `Open` before the done event and `Closed` after it. Neither looks at
-- the conversation, the calls or the world.
pub record Reader {W : Type 0} (emit : StreamEvent → Exec (Turn W) Unit)
    (Open Closed Failed : Turn W → Type 0) : Type 0 where
  pub on_delta : (text : String) → Triple Open (emit (delta_event text)) (λ _. Open) Failed
  pub on_done :
      (text : String) (a : Answer) → Triple Open (emit (done_with text a)) (λ _. Closed) Failed
  pub moved :
      (t : Turn W) (c : Conversation) (calls : List Call) (w : W)
      → Open t
      → Open (record t { conversation = c; calls = calls; world = w })
  pub on_failure : (t : Turn W) → Open t → Failed t

module _ {W : Type 0} (py : Python) (sv : Services W) (tools : List (Tool W)) (max_iterations : ℕ)
    (emit : StreamEvent → Exec (Turn W) Unit) (Open Closed Failed : Turn W → Type 0)
    (reader : Reader emit Open Closed Failed) where
  -- yields nothing
  abbrev Steady : {A : Type 0} → Exec (Turn W) A → Type 0
  Steady m = Triple Open m (λ _. Open) Failed

  -- yields the rest of the stream
  abbrev Ends : Exec (Turn W) Unit → Type 0
  Ends m = Triple Open m (λ _. Closed) Failed

  outcome : {A : Type 0} (r : Result A) (t : Turn W) → Open t → Outcome (λ _. Open) Failed r t
  outcome (ok a) t o = o
  outcome (raised e) t o = reader.on_failure t o

  Steady-external : {A : Type 0} (m : Exec W A) → Steady (external m)
  unfolding external
  Steady-external m = record {
    at = λ t o.
        outcome (m t.world).0 (record t { world = (m t.world).1 })
          (reader.moved t t.conversation t.calls (m t.world).1 o);
  }

  Steady-draw : {A : Type 0} (m : W → A × W) → Steady (draw m)
  unfolding draw
  Steady-draw m = record { at = λ t o. reader.moved t t.conversation t.calls (m t.world).1 o }

  Steady-pure : {A : Type 0} (a : A) → Steady (pure a)
  Steady-pure a = Triple-pure a (λ t o. o)

  Steady-lift : {A : Type 0} (r : Result A) → Steady (lift r)
  Steady-lift r = Triple-lift r (λ a t e o. o) (λ t o. reader.on_failure t o)

  Steady-conversation : Steady (gets (λ (t : Turn W). t.conversation))
  Steady-conversation = Triple-gets _ (λ t o. o)

  Steady-log_call : (call : Call) → Steady (log_call call)
  unfolding log_call modify
  Steady-log_call call = record {
    at = λ t o. reader.moved t t.conversation (t.calls ++ call ∷ []) t.world o;
  }

  Steady-set :
      (f : Conversation → Conversation)
      → Steady (modify (λ (t : Turn W). record t { conversation = f t.conversation }))
  unfolding modify
  Steady-set f = record { at = λ t o. reader.moved t (f t.conversation) t.calls t.world o }

  Steady-add_turn :
      (role content : String) → Steady (add_turn py sv tools max_iterations emit role content)
  unfolding add_turn
  Steady-add_turn role content = Triple-bind _ _ (Steady-draw sv.now) (λ timestamp.
      Steady-set (add (record { role = role; content = content; timestamp = timestamp })))

  Steady-record_audit :
      (question resolved_question : String) (answer : Answer)
      → Steady (record_audit py sv tools max_iterations emit question resolved_question answer)
  unfolding record_audit
  Steady-record_audit question resolved_question answer =
      Triple-bind _ _ (Steady-draw sv.uuid4) (λ id. Triple-bind _ _ Steady-conversation (λ c.
        Triple-bind _ _ (Steady-lift (document_ids answer.citations)) (λ ids.
          Triple-bind _ _ (Steady-draw sv.now)
            (λ created_at. Triple-bind _ _ (Steady-log_call _) (λ _. Steady-external _)))))

  Ends-conclude :
      (question : String) (answer : Answer)
      → Ends (conclude py sv tools max_iterations emit question answer)
  unfolding conclude
  Ends-conclude question answer = Triple-bind _ _ (Steady-add_turn "assistant" answer.text) (λ _.
      Triple-bind _ _ (Steady-record_audit question question answer)
        (λ _. reader.on_done answer.text answer))

  Steady-run_pending :
      (tool : Tool W) (p : PendingAction) (reply : String)
      → Steady (run_pending py sv tools max_iterations emit tool p reply)
  unfolding run_pending
  Steady-run_pending tool p reply =
      Triple-bind _ _ (Steady-external (is_confirmed py sv reply)) (λ (confirmed : Bool).
        Triple-if (not confirmed) _ _ (λ _. Steady-pure _)
          (λ _. Triple-bind _ _ (Steady-log_call (tool_run tool.name p.arguments)) (λ _.
            Triple-bind _ _ (Steady-external (tool.run p.arguments)) (λ raw.
              Triple-bind _ _ (Steady-lift (describe_tool_result py raw))
                (λ text. Steady-pure _)))))

  Steady-found :
      (found : Option (Tool W)) (absent : Answer) (present : Tool W → Exec (Turn W) Answer)
      → ((tool : Tool W) → Steady (present tool))
      → Steady (elim found [ none ↦ pure absent | some tool ↦ present tool ])
  Steady-found none absent present h = Steady-pure absent
  Steady-found (some tool) absent present h = h tool

  Steady-resolve_pending_action :
      (p : PendingAction) (reply : String)
      → Steady (resolve_pending_action py sv tools max_iterations emit p reply)
  unfolding resolve_pending_action resolve_cleared
  Steady-resolve_pending_action p reply =
      Triple-bind _ _ (Steady-set (λ c. record c { pending_action = none })) (λ _.
        Triple-bind _ _ Steady-conversation (λ (c : Conversation).
          Steady-found (get (for_conversation tools c.is_authenticated) p.tool_name) _
            (λ tool. run_pending py sv tools max_iterations emit tool p reply)
            (λ tool. Steady-run_pending tool p reply)))

  Steady-check_numbers : (a : Answer) → Steady (check_numbers py sv tools max_iterations emit a)
  unfolding check_numbers
  Steady-check_numbers a =
      Triple-if (not (a.grounded && is_none a.pending_action)) _ _ (λ _. Steady-pure a)
        (λ _.
          Triple-bind _ _ (Steady-external (is_verified py sv a.text a.citations))
            (λ verified. Steady-pure _))

  Steady-store_if_cacheable :
      (key : String) (a : Answer)
      → Steady (store_if_cacheable py sv tools max_iterations emit key a)
  unfolding store_if_cacheable store
  Steady-store_if_cacheable key a = Triple-bind _ _ Steady-conversation (λ (c : Conversation).
      Triple-if (is_cacheable c a) _ _
        (λ _. Triple-bind _ _ (Steady-log_call _) (λ _. Steady-external _)) (λ _. Steady-pure tt))

  Ends-take_answer :
      (key question resolved_question : String) (a : Answer)
      → Ends (take_answer py sv tools max_iterations emit key question resolved_question a)
  unfolding take_answer
  Ends-take_answer key question resolved_question a =
      Triple-bind _ _ (Steady-check_numbers a) (λ (b : Answer).
        Triple-bind _ _ (Steady-add_turn "assistant" b.text) (λ _.
          Triple-bind _ _ (Steady-set (λ c. record c { pending_action = b.pending_action })) (λ _.
            Triple-bind _ _ (Steady-store_if_cacheable key b) (λ _.
              Triple-bind _ _ (Steady-record_audit question resolved_question b)
                (λ _. reader.on_done "" b)))))

  router_consumer :
      (key question resolved_question : String)
      → Consumer py tools
          (take_event py sv tools max_iterations emit key question resolved_question)
          (λ _. Open)
          Closed
          Failed
  unfolding take_event
  router_consumer key question resolved_question = record {
    on_delta = λ used text h. reader.on_delta text;
    on_done = λ used a made. Ends-take_answer key question resolved_question a;
    on_world = λ used t w o. reader.moved t t.conversation t.calls w o;
    on_run = λ used t name tool arguments found free o.
        reader.moved t t.conversation (t.calls ++ tool_run tool.name arguments ∷ []) t.world o;
    on_failure = λ used t o. reader.on_failure t o;
  }

  Ends-ask_router :
      (key question resolved_question : String)
      → Ends (ask_router py sv tools max_iterations emit key question resolved_question)
  unfolding ask_router
  Ends-ask_router key question resolved_question =
      handle_streaming-Triple py sv tools _ (λ _. Open) Closed Failed
        (router_consumer key question resolved_question) max_iterations (some resolved_question)

  Ends-cached :
      (key question resolved_question : String) (cached : Option String)
      → Ends (elim cached [
        | none ↦ ask_router py sv tools max_iterations emit key question resolved_question
        | some text ↦ replay_cached py sv tools max_iterations emit text
      ])
  unfolding replay_cached
  Ends-cached key question resolved_question none = Ends-ask_router key question resolved_question
  Ends-cached key question resolved_question (some text) =
      Triple-bind _ _ (Steady-lift (read_cached py text)) (λ (a : Answer). reader.on_done a.text a)

  Ends-answer_resolved :
      (question resolved_question : String)
      → Ends (answer_resolved py sv tools max_iterations emit question resolved_question)
  unfolding answer_resolved
  Ends-answer_resolved question resolved_question =
      Triple-bind _ _ Steady-conversation (λ (c : Conversation).
        Triple-if c.is_authenticated _ _ (λ _. Ends-ask_router _ question resolved_question)
          (λ _.
            Triple-bind _ _ (Steady-external (sv.cache_get (cache_key py c resolved_question)))
              (Ends-cached (cache_key py c resolved_question) question resolved_question)))

  Ends-answer_fresh :
      (history_before : List Message) (question : String)
      → Ends (answer_fresh py sv tools max_iterations emit history_before question)
  unfolding answer_fresh
  Ends-answer_fresh history_before question =
      Triple-bind _ _ (Steady-external (is_in_scope py sv question)) (λ (in_scope : Bool).
        Triple-if (not in_scope) _ _ (λ _. Ends-conclude question _)
          (λ _.
            Triple-bind _ _ (Steady-external (needs_escalation py sv question))
              (λ (escalate : Bool).
                Triple-if escalate _ _ (λ _. Ends-conclude question _)
                  (λ _.
                    Triple-bind _ _ (Steady-external (rewrite py sv history_before question))
                      (λ resolved_question. Ends-answer_resolved question resolved_question)))))

  Ends-answer :
      (history_before : List Message) (question : String) (pending : Option PendingAction)
      → Ends (elim pending [
        | none ↦ answer_fresh py sv tools max_iterations emit history_before question
        | some p ↦ answer_pending py sv tools max_iterations emit p question
      ])
  unfolding answer_pending
  Ends-answer history_before question none = Ends-answer_fresh history_before question
  Ends-answer history_before question (some p) =
      Triple-bind _ _ (Steady-resolve_pending_action p question) (λ a. Ends-conclude question a)

  pub execute_streaming-Triple :
      (question : String) → Ends (execute_streaming py sv tools max_iterations emit question)
  unfolding execute_streaming
  execute_streaming-Triple question =
      Triple-bind {Q = λ _. Open} _ _ (Triple-gets _ (λ t o. o)) (λ history.
        Triple-bind _ _ (Steady-add_turn "user" (sv.mask question)) (λ _.
          Triple-bind _ _ Steady-conversation
            (λ (c : Conversation). Ends-answer history (sv.mask question) c.pending_action)))
