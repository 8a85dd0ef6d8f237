-- ===== src/AnswerQuestion/Own.antt =====
-- What holds of a turn throughout `execute_streaming`: whose it is, which calls it has made, and
-- what it has left pending.
use mathlib.Core.List.{◌++◌}
use bank_rag_bot.Prelude.{
  ℕ, String, true, false, [], ◌∷◌, Option, some, is_none, ◌≡◌, All, All-concat,
}
use bank_rag_bot.Prelude.Exec.{ok}
use bank_rag_bot.Domain.{Answer, Arguments, Conversation, PendingAction}
use bank_rag_bot.Python.{Python}
use bank_rag_bot.Ports.{Services}
use bank_rag_bot.Agents.Guardrails.{is_verified}
use bank_rag_bot.Agents.Turn.{Turn, Call, tool_run, cache_write}
use bank_rag_bot.AnswerQuestion.{cache_value, cacheable_ttl_seconds}

-- A tool may run in a turn as `Runs` says; only an anonymous conversation writes the cache, and
-- only an answer that is grounded, proposes nothing and has passed the numeric guardrail; an audit
-- record names the conversation and its customer.
module _ {W : Type 0} (py : Python) (sv : Services W) (c : Conversation)
    (Runs : String → Arguments → Type 0) where
  pub record IsSharable (value : String) (ttl : ℕ) : Type 0 where
    pub answer : Answer
    pub value_eq : value ≡ cache_value py answer
    pub ttl_eq : ttl ≡ cacheable_ttl_seconds
    pub anonymous : c.is_authenticated ≡ false
    pub grounded : answer.grounded ≡ true
    pub proposes_nothing : is_none answer.pending_action ≡ true
    pub checked_in : W
    pub verified : (is_verified py sv answer.text answer.citations checked_in).0 ≡ ok true

  abbrev pub IsAllowed : Call → Type 0
  IsAllowed (tool_run name arguments) = Runs name arguments
  IsAllowed (cache_write key value ttl) = IsSharable value ttl
  IsAllowed (Call.audit_record entry) =
      (entry.conversation_id ≡ c.id) × (entry.customer_id ≡ c.customer_id)

  -- The conversation keeps its identity, every call is allowed, and what is pending is `Proposed`.
  pub record IsOwn (Proposed : PendingAction → Type 0) (t : Turn W) : Type 0 where
    pub id : t.conversation.id ≡ c.id
    pub customer : t.conversation.customer_id ≡ c.customer_id
    pub authenticated : t.conversation.is_authenticated ≡ c.is_authenticated
    pub allowed : All IsAllowed t.calls
    pub pending : (p : PendingAction) → t.conversation.pending_action ≡ some p → Proposed p

  module _ {Proposed : PendingAction → Type 0} where
    pub in_world : (t : Turn W) (w : W) → IsOwn Proposed t → IsOwn Proposed (record t { world = w })
    in_world t w o = record {
      id = o.id;
      customer = o.customer;
      authenticated = o.authenticated;
      allowed = o.allowed;
      pending = o.pending;
    }

    pub with_call :
        (t : Turn W) (call : Call)
        → IsAllowed call
        → IsOwn Proposed t
        → IsOwn Proposed (record t { calls = t.calls ++ call ∷ [] })
    with_call t call h o = record {
      id = o.id;
      customer = o.customer;
      authenticated = o.authenticated;
      allowed = All-concat IsAllowed t.calls call o.allowed h;
      pending = o.pending;
    }

    -- a write of `pending_action` sets what is proposed
    pub with_pending :
        (Proposed' : PendingAction → Type 0) (t : Turn W) (found : Option PendingAction)
        → ((p : PendingAction) → found ≡ some p → Proposed' p)
        → IsOwn Proposed t
        → IsOwn Proposed'
            (record t { conversation = record t.conversation { pending_action = found } })
    with_pending Proposed' t found h o = record {
      id = o.id;
      customer = o.customer;
      authenticated = o.authenticated;
      allowed = o.allowed;
      pending = h;
    }
