-- ===== src/AnswerQuestion/Safety.antt =====
-- What one customer message can make `execute` do: which tools run, what enters the shared cache,
-- whom the audit records name, and what stays pending.
mod Tests
use bank_rag_bot.Prelude.{
  ℕ, String, Bool, true, false, List, [], ◌∷◌, Option, none, some, is_none, ◌≡◌, refl, sym, ◌⊎◌,
  inl, inr, arith, Option-cases, All, All-at, All-weaken, Elem, if◌then◌else◌,
}
use bank_rag_bot.Prelude.Exec.{Exec, Result, ok, raised, gets, modify, pure, raise, ◌>>=◌}
use bank_rag_bot.Prelude.Triple.{
  Triple, Triple-pure, Triple-raise, Triple-gets, Triple-bind, Triple-modify, Triple-after, Outcome,
  Outcome-state, Outcome-ok, Outcome-either,
}
use bank_rag_bot.Domain.{
  Answer, Arguments, Conversation, PendingAction, AuditEntry, Message, add, history_as_messages,
}
use bank_rag_bot.Python.{Python}
use bank_rag_bot.Ports.{Services}
use bank_rag_bot.Agents.Tool.{Tool}
use bank_rag_bot.Agents.Registry.{for_conversation, get}
use bank_rag_bot.Agents.Guardrails.{is_confirmed}
use bank_rag_bot.Agents.Turn.{Turn, StreamEvent, Call, tool_run, cache_write, draw}
use bank_rag_bot.AnswerQuestion.{
  add_turn, answer_fresh, answer_pending, resolve_pending_action, resolve_cleared,
  execute_streaming, drain, asserted, execute,
}
use bank_rag_bot.AnswerQuestion.Own.{IsSharable, IsAllowed, IsOwn, with_pending}
use bank_rag_bot.AnswerQuestion.Calls.{
  Keeps-add_turn, Keeps-conclude, Keeps-resolve_cleared, Keeps-answer_fresh,
}

-- A request's turn, before `execute`.
abbrev pub start : {W : Type 0} → Conversation → W → Turn W
start c w = record { conversation = c; sent = []; calls = []; final_answer = none; world = w }

module _ {W : Type 0} (py : Python) (sv : Services W) (tools : List (Tool W)) (max_iterations : ℕ)
    (c : Conversation) where
  module _ (Runs : String → Arguments → Type 0) where
    Own : (PendingAction → Type 0) → Turn W → Type 0
    Own Proposed = IsOwn py sv c Runs Proposed

    Own-start :
        (Proposed : PendingAction → Type 0) (w : W)
        → ((p : PendingAction) → c.pending_action ≡ some p → Proposed p)
        → Own Proposed (start c w)
    unfolding Own
    Own-start Proposed w h = record {
      id = refl;
      customer = refl;
      authenticated = refl;
      allowed = tt;
      pending = h;
    }

    drains :
        (Proposed : PendingAction → Type 0) (e : StreamEvent)
        → Triple
            (IsOwn py sv c Runs Proposed)
            (drain py sv tools max_iterations e)
            (λ _. IsOwn py sv c Runs Proposed)
            (IsOwn py sv c Runs Proposed)
    unfolding drain
    drains Proposed e = Triple-modify _ (λ t o. record {
      id = o.id;
      customer = o.customer;
      authenticated = o.authenticated;
      allowed = o.allowed;
      pending = o.pending;
    })

    settle :
        (Proposed : PendingAction → Type 0) (t : Turn W)
        → Own Proposed t
        → Own Proposed (record t { final_answer = none })
    unfolding Own
    settle Proposed t o = record {
      id = o.id;
      customer = o.customer;
      authenticated = o.authenticated;
      allowed = o.allowed;
      pending = o.pending;
    }

    forget : (t : Turn W) → IsOwn py sv c Runs (λ p. ⊥) t → IsOwn py sv c Runs (λ p. Unit) t
    forget t o = record {
      id = o.id;
      customer = o.customer;
      authenticated = o.authenticated;
      allowed = o.allowed;
      pending = λ p e. tt;
    }

    -- `execute` around `execute_streaming`
    execute-Triple :
        (P Q E : Turn W → Type 0) (question : String)
        → ((t : Turn W) → P t → P (record t { final_answer = none }))
        → ((t : Turn W) → Q t → E t)
        → Triple P
            (execute_streaming py sv tools max_iterations
              (drain py sv tools max_iterations)
              question)
            (λ _. Q)
            E
        → Triple P (execute py sv tools max_iterations question) (λ _. Q) E
    unfolding execute
    execute-Triple P Q E question h k body =
        Triple-bind {Q = λ _. P} _ _ (Triple-modify _ (λ t o. h t o)) (λ _.
          Triple-bind _ _ body (λ _.
            Triple-bind {Q = λ _. Q} _ _ (Triple-gets _ (λ t o. o))
              (λ found. record { at = λ t o. lower found t o })))
      where
        lower :
            (found : Option Answer) (t : Turn W)
            → Q t
            → Outcome
                (λ _. Q)
                E
                (asserted py sv tools max_iterations found t).0
                (asserted py sv tools max_iterations found t).1
        lower none t o = unfold raise in k t o
        lower (some a) t o = unfold pure in o

    -- The conversation has `found` pending.
    Waits : (PendingAction → Type 0) → Option PendingAction → Turn W → Type 0
    Waits Proposed found t = Own Proposed t × (t.conversation.pending_action ≡ found)

    Waits-add_turn :
        (Proposed : PendingAction → Type 0) (found : Option PendingAction) (role content : String)
        → Triple
            (Waits Proposed found)
            (add_turn py sv tools max_iterations (drain py sv tools max_iterations) role content)
            (λ _. Waits Proposed found)
            (IsOwn py sv c Runs Proposed)
    unfolding Waits Own add_turn ◌>>=◌ draw add
    Waits-add_turn Proposed found role content = record {
      at = λ t o. (
        (Keeps-add_turn py sv tools max_iterations (drain py sv tools max_iterations) c Runs
              Proposed (drains Proposed) role content).at
            t o.0,
        o.1,
      );
    }

    -- What follows the customer's turn, by what is pending.
    Branch : List Message → String → Option PendingAction → Exec (Turn W) Unit
    Branch history_before question found = elim found [
      | none ↦
          answer_fresh py sv tools max_iterations (drain py sv tools max_iterations) history_before
            question
      | some pending ↦
          answer_pending py sv tools max_iterations (drain py sv tools max_iterations) pending
            question
    ]

    streaming-Triple :
        (Proposed : PendingAction → Type 0) (Q E : Turn W → Type 0) (found : Option PendingAction)
        (question : String)
        → ((t : Turn W) → Own Proposed t → E t)
        → ((history_before : List Message)
            → Triple (Own Proposed) (Branch history_before (sv.mask question) found) (λ _. Q) E)
        → Triple
            (Waits Proposed found)
            (execute_streaming py sv tools max_iterations
              (drain py sv tools max_iterations)
              question)
            (λ _. Q)
            E
    unfolding execute_streaming Waits Branch
    streaming-Triple Proposed Q E found question k branch =
        Triple-bind {Q = λ _. Waits Proposed found} _ _ (Triple-gets _ (λ t o. o))
          (λ history_before.
            Triple-bind {Q = λ _. Waits Proposed found} _ _
              (record {
                at = λ t o.
                    weaken t _ _ ((Waits-add_turn Proposed found "user" (sv.mask question)).at t o);
              })
              (λ _.
                Triple-bind
                  {Q = λ (d : Conversation) t. Own Proposed t × (d.pending_action ≡ found)} _ _
                  (Triple-gets _ (λ t o. o))
                  (λ (d : Conversation). record {
                    at = λ t o. rw o.1 ((branch history_before).at t o.0);
                  })))
      where
        weaken :
            (t : Turn W) (r : Result (Unit {0})) (t' : Turn W)
            → Outcome (λ _. Waits Proposed found) (IsOwn py sv c Runs Proposed) r t'
            → Outcome (λ _. Waits Proposed found) E r t'
        weaken t (ok u) t' o = o
        weaken t (raised e) t' o = unfold Own in k t' o

  -- A tool of the registry that needs no confirmation, at any arguments.
  abbrev pub RunsFree : String → Arguments → Type 0
  RunsFree name arguments =
      (tool : Tool W) × (key : String) × (get tools key ≡ some tool)
      × (tool.name ≡ name)
      × (tool.requires_confirmation ≡ false)

  -- An action of a tool of the registry that needs confirmation.
  abbrev pub Asks : PendingAction → Type 0
  Asks p =
      (tool : Tool W) × (key : String) × (get tools key ≡ some tool)
      × (tool.name ≡ p.tool_name)
      × (tool.requires_confirmation ≡ true)

  -- The pending call itself, of a tool offered to the conversation, on a clear confirmation.
  abbrev pub RunsConfirmed : PendingAction → String → String → Arguments → Type 0
  RunsConfirmed p reply name arguments =
      (tool : Tool W) × (w : W) × (get (for_conversation tools c.is_authenticated) p.tool_name
        ≡ some tool)
      × (tool.name ≡ name)
      × (arguments ≡ p.arguments)
      × ((is_confirmed py sv reply w).0 ≡ ok true)

  keeps_fresh :
      (history_before : List Message) (question : String)
      → Triple
          (Own RunsFree Asks)
          (Branch RunsFree history_before question none)
          (λ _. Own RunsFree Asks)
          (Own RunsFree Asks)
  unfolding Branch Own
  keeps_fresh history_before question =
      Keeps-answer_fresh py sv tools max_iterations _ c RunsFree Asks (drains RunsFree Asks)
        (λ tool name found p asks same. (tool, name, found, sym same, asks))
        (λ tool name arguments found free. (tool, name, found, refl, free)) history_before question

  -- With nothing pending, `execute` ends in an owned turn, returned or not.
  fresh-Own :
      (w : W) (question : String)
      → c.pending_action ≡ none
      → Own RunsFree Asks (execute py sv tools max_iterations question (start c w)).1
  unfolding Own Waits
  fresh-Own w question idle = Outcome-state (Own RunsFree Asks) _ _ (
      (execute-Triple RunsFree (Waits RunsFree Asks none) (Own RunsFree Asks) (Own RunsFree Asks)
          question (λ t o. (settle RunsFree Asks t o.0, o.1)) (λ t o. o)
          (streaming-Triple RunsFree Asks (Own RunsFree Asks) (Own RunsFree Asks) none question
            (λ t o. o) (λ h. keeps_fresh h (sv.mask question)))).at
        (start c w) (Own-start RunsFree Asks w (λ p e. absurd (ground arith)), idle))

  module _ (p : PendingAction) (reply : String) where
    Runs : String → Arguments → Type 0
    Runs = RunsConfirmed p reply

    keeps_pending :
        (history_before : List Message)
        → Triple
            (Own Runs (λ q. Unit))
            (Branch Runs history_before reply (some p))
            (λ _. Own Runs (λ q. ⊥))
            (Own Runs (λ q. Unit))
    unfolding Branch Own answer_pending resolve_pending_action Runs
    keeps_pending history_before =
        Triple-bind _ _
          (Triple-bind {Q = λ _. Own Runs (λ q. ⊥)} _ _
            (Triple-modify _
              (λ t o. with_pending py sv c Runs (λ q. ⊥) t none (λ q e. absurd (ground arith)) o))
            (λ _.
              Triple-after _ _ _ (λ a t o. o) (forget Runs)
                (Keeps-resolve_cleared py sv tools max_iterations _ c Runs (λ q. ⊥)
                  (drains Runs (λ q. ⊥)) p reply
                  (λ tool w found agreed. (tool, w, found, refl, refl, agreed)))))
          (λ answer.
            Triple-after _ _ _ (λ a t o. o) (forget Runs)
              (Keeps-conclude py sv tools max_iterations _ c Runs (λ q. ⊥) (drains Runs (λ q. ⊥))
                reply answer))

    -- With `p` pending, `execute` ends in an owned turn; if it returns, nothing is pending.
    pending-Outcome :
        (w : W) (question : String)
        → c.pending_action ≡ some p
        → reply ≡ sv.mask question
        → Outcome
            (λ _. Own Runs (λ q. ⊥))
            (Own Runs (λ q. Unit))
            (execute py sv tools max_iterations question (start c w)).0
            (execute py sv tools max_iterations question (start c w)).1
    unfolding Own Waits
    pending-Outcome w question waiting same =
        (execute-Triple Runs (Waits Runs (λ q. Unit) (some p)) (Own Runs (λ q. ⊥))
            (Own Runs (λ q. Unit)) question (λ t o. (settle Runs (λ q. Unit) t o.0, o.1))
            (forget Runs)
            (streaming-Triple Runs (λ q. Unit) (Own Runs (λ q. ⊥)) (Own Runs (λ q. Unit)) (some p)
              question (λ t o. o) (λ h. rw (← same) (keeps_pending h)))).at
          (start c w) (Own-start Runs (λ q. Unit) w (λ q e. tt), waiting)

    pending-Own :
        (w : W) (question : String)
        → c.pending_action ≡ some p
        → reply ≡ sv.mask question
        → Own Runs (λ q. Unit) (execute py sv tools max_iterations question (start c w)).1
    unfolding Own
    pending-Own w question waiting same =
        let end = execute py sv tools max_iterations question (start c w) in
        Outcome-either (Own Runs (λ q. ⊥)) (Own Runs (λ q. Unit)) (forget Runs) end.0 end.1
          (pending-Outcome w question waiting same)

  abbrev pub RunsAny : String → Arguments → Type 0
  RunsAny name arguments = Unit

  forget_runs :
      (Runs : String → Arguments → Type 0) (call : Call)
      → IsAllowed py sv c Runs call
      → IsAllowed py sv c RunsAny call
  forget_runs Runs (tool_run name arguments) h = tt
  forget_runs Runs (cache_write key value ttl) h = record {
    answer = h.answer;
    value_eq = h.value_eq;
    ttl_eq = h.ttl_eq;
    anonymous = h.anonymous;
    grounded = h.grounded;
    proposes_nothing = h.proposes_nothing;
    checked_in = h.checked_in;
    verified = h.verified;
  }
  forget_runs Runs (Call.audit_record entry) h = h

  -- Whatever is pending, the calls of the turn are allowed.
  any-IsAllowed :
      (w : W) (question : String)
      → All
          (IsAllowed py sv c RunsAny)
          (execute py sv tools max_iterations question (start c w)).1.calls
  unfolding Own
  any-IsAllowed w question = elim (Option-cases c.pending_action) [
    | inl idle ↦ All-weaken _ _ (forget_runs RunsFree) _ (fresh-Own w question idle).allowed
    | inr (p, waiting) ↦
        All-weaken _ _ (forget_runs (RunsConfirmed p (sv.mask question))) _
          (unfold Runs in (pending-Own p (sv.mask question) w question waiting refl).allowed)
  ]

  -- A message that answers no pending action runs only tools of the registry that need no
  -- confirmation, whatever the model asks for.
  pub execute-RunsFree :
      (w : W) (question name : String) (arguments : Arguments)
      → c.pending_action ≡ none
      → Elem
          (tool_run name arguments)
          (execute py sv tools max_iterations question (start c w)).1.calls
      → RunsFree name arguments
  unfolding Own
  execute-RunsFree w question name arguments idle ran =
      All-at (IsAllowed py sv c RunsFree) _ _ (fresh-Own w question idle).allowed ran

  -- A message that answers the pending action `p` runs no tool but the one that `p` names, with
  -- the arguments of `p`; that tool is offered to the conversation as it is authenticated, and the
  -- confirmation classifier said yes to the masked message.
  pub execute-RunsConfirmed :
      (w : W) (question name : String) (arguments : Arguments) (p : PendingAction)
      → c.pending_action ≡ some p
      → Elem
          (tool_run name arguments)
          (execute py sv tools max_iterations question (start c w)).1.calls
      → RunsConfirmed p (sv.mask question) name arguments
  unfolding Own Runs
  execute-RunsConfirmed w question name arguments p waiting ran =
      All-at (IsAllowed py sv c (Runs p (sv.mask question))) _ _
        (pending-Own p (sv.mask question) w question waiting refl).allowed ran

  -- If a message that answers a pending action returns, no action is pending any more.
  pub execute-clears_pending :
      (w : W) (question : String) (p : PendingAction) (a : Answer)
      → c.pending_action ≡ some p
      → (execute py sv tools max_iterations question (start c w)).0 ≡ ok a
      → (execute py sv tools max_iterations question (start c w)).1.conversation.pending_action
        ≡ none
  unfolding Own
  execute-clears_pending w question p a waiting returned =
      elim (Option-cases
        (execute py sv tools max_iterations question (start c w)).1.conversation.pending_action) [
          | inl cleared ↦ cleared
          | inr (q, left) ↦ absurd (
              (Outcome-ok _ _ _ _ a returned
                  (pending-Outcome p (sv.mask question) w question waiting refl)).pending
                q left)
        ]

  -- After a message with nothing pending, an action that waits for confirmation is one of a tool
  -- of the registry that needs it.
  pub execute-Asks :
      (w : W) (question : String) (p : PendingAction)
      → c.pending_action ≡ none
      → (execute py sv tools max_iterations question (start c w)).1.conversation.pending_action
        ≡ some p
      → Asks p
  unfolding Own
  execute-Asks w question p idle waiting = (fresh-Own w question idle).pending p waiting

  -- Every value that `execute` writes to the shared cache is the JSON of an answer that is grounded,
  -- proposes no action and has passed the numeric guardrail; it is kept for an hour, and the
  -- conversation is anonymous.
  pub execute-IsSharable :
      (w : W) (question key value : String) (ttl : ℕ)
      → Elem
          (cache_write key value ttl)
          (execute py sv tools max_iterations question (start c w)).1.calls
      → IsSharable py sv c RunsAny value ttl
  unfolding Own
  execute-IsSharable w question key value ttl written =
      All-at (IsAllowed py sv c RunsAny) _ _ (any-IsAllowed w question) written

  -- Every audit record names the conversation and its customer, whichever branch wrote it.
  pub execute-audits_own :
      (w : W) (question : String) (entry : AuditEntry)
      → Elem
          (Call.audit_record entry)
          (execute py sv tools max_iterations question (start c w)).1.calls
      → (entry.conversation_id ≡ c.id) × (entry.customer_id ≡ c.customer_id)
  unfolding Own
  execute-audits_own w question entry written =
      All-at (IsAllowed py sv c RunsAny) _ _ (any-IsAllowed w question) written
