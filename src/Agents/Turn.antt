-- ===== src/Agents/Turn.antt =====
-- One customer turn: the conversation, which the agents share and the use case mutates, the
-- events yielded to the client, the calls made on the ports with effects, and the world behind
-- them. A generator `yield e` is a call of the consumer's loop body on `e`, so the effects of
-- producer and consumer interleave as they do in Python.
use bank_rag_bot.Prelude.{ℕ, String, Bool, false, true, Option, none, some, List, [], ◌∷◌, ◌++◌}
use bank_rag_bot.Prelude.Exec.{Exec, ok, modify}
use bank_rag_bot.Domain.{Answer, Arguments, AuditEntry, Conversation}

-- `class StreamEvent` of agents/orchestrator.py
pub record StreamEvent : Type 0 where
  pub delta : String
  pub done : Bool
  pub answer : Option Answer

-- The calls of ports that other parties can see: a tool's `run`, and writes to the shared stores.
pub data Call : Type 0 where
  tool_run : String → Arguments → Call
  cache_write : String → String → ℕ → Call
  audit_record : AuditEntry → Call

-- `final_answer` is the local variable of the callers that drain the stream.
pub record Turn (W : Type 0) : Type 0 where
  pub conversation : Conversation
  pub sent : List StreamEvent
  pub calls : List Call
  pub final_answer : Option Answer
  pub world : W

module _ {W : Type 0} where
  unfoldable pub external : {A : Type 0} → Exec W A → Exec (Turn W) A
  external m t = ((m t.world).0, record t { world = (m t.world).1 })

  unfoldable pub log_call : Call → Exec (Turn W) Unit
  unfolding modify
  log_call c = modify (λ t. record t { calls = t.calls ++ c ∷ [] })

  unfoldable pub draw : {A : Type 0} → (W → A × W) → Exec (Turn W) A
  draw m t = (ok (m t.world).0, record t { world = (m t.world).1 })

abbrev pub delta_event : String → StreamEvent
delta_event text = record { delta = text; done = false; answer = none }

abbrev pub done_event : Answer → StreamEvent
done_event a = record { delta = ""; done = true; answer = some a }
