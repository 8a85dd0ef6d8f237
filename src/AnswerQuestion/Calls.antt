-- ===== src/AnswerQuestion/Calls.antt =====
-- Which calls a turn can make, and what it can leave pending: one invariant through every branch
-- of `execute_streaming`. The claims for `execute` are in `Safety`.
use bank_rag_bot.Prelude.{
  ℕ, String, Bool, true, false, not, ◌&&◌, List, Option, none, some, is_none, ◌≡◌, refl, arith,
  if◌then◌else◌,
}
use bank_rag_bot.Prelude.Exec.{Exec, Result, ok, raised, pure, lift, gets, modify}
use bank_rag_bot.Prelude.Triple.{
  Triple, Triple-pure, Triple-lift, Triple-gets, Triple-if, Triple-bind, Outcome,
}
use bank_rag_bot.Domain.{Answer, Arguments, Conversation, PendingAction, Message, add}
use bank_rag_bot.Python.{Python}
use bank_rag_bot.Ports.{Services}
use bank_rag_bot.Agents.Tool.{Tool}
use bank_rag_bot.Agents.Registry.{for_conversation, get}
use bank_rag_bot.Agents.Guardrails.{
  is_confirmed, is_verified, is_in_scope, needs_escalation, rewrite,
}
use bank_rag_bot.Agents.Turn.{Turn, StreamEvent, Call, tool_run, external, draw, log_call}
use bank_rag_bot.Agents.Router.Produced.{Consumer, handle_streaming-Triple}
use bank_rag_bot.AnswerQuestion.Own.{
  IsSharable, IsAllowed, IsOwn, in_world, with_call, with_pending,
}
use bank_rag_bot.AnswerQuestion.{
  cache_value, cache_key, is_cacheable, cacheable_ttl_seconds, add_turn, record_audit, conclude,
  run_pending, resolve_cleared, unverified, check_numbers, store, store_if_cacheable, take_answer,
  take_event, replay_cached, ask_router, answer_resolved, answer_fresh, document_ids, audit_entry,
  read_cached, describe_tool_result,
}

module _ {W : Type 0} (py : Python) (sv : Services W) (tools : List (Tool W)) (max_iterations : ℕ)
    (emit : StreamEvent → Exec (Turn W) Unit) (c : Conversation)
    (Runs : String → Arguments → Type 0) (Proposed : PendingAction → Type 0)
    (emits : (e : StreamEvent)
      → Triple
          (IsOwn py sv c Runs Proposed)
          (emit e)
          (λ _. IsOwn py sv c Runs Proposed)
          (IsOwn py sv c Runs Proposed)) where
  abbrev pub Own : Turn W → Type 0
  Own = IsOwn py sv c Runs Proposed

  abbrev pub Keeps : {A : Type 0} → Exec (Turn W) A → Type 0
  Keeps m = Triple Own m (λ _. Own) Own

  outcome : {A : Type 0} (r : Result A) (t : Turn W) → Own t → Outcome (λ _. Own) Own r t
  outcome (ok a) t o = o
  outcome (raised e) t o = o

  Keeps-external : {A : Type 0} (m : Exec W A) → Keeps (external m)
  unfolding external
  Keeps-external m = record {
    at = λ t o.
        outcome (m t.world).0 (record t { world = (m t.world).1 })
          (in_world py sv c Runs t (m t.world).1 o);
  }

  Keeps-draw : {A : Type 0} (m : W → A × W) → Keeps (draw m)
  unfolding draw
  Keeps-draw m = record { at = λ t o. in_world py sv c Runs t (m t.world).1 o }

  Keeps-lift : {A : Type 0} (r : Result A) → Keeps (lift r)
  Keeps-lift r = Triple-lift r (λ a t e o. o) (λ t o. o)

  Keeps-pure : {A : Type 0} (a : A) → Keeps (pure a)
  Keeps-pure a = Triple-pure a (λ t o. o)

  Keeps-call : (call : Call) → IsAllowed py sv c Runs call → Keeps (log_call call)
  unfolding log_call
  Keeps-call call h = record { at = λ t o. with_call py sv c Runs t call h o }

  pub Keeps-add_turn :
      (role content : String) → Keeps (add_turn py sv tools max_iterations emit role content)
  unfolding add_turn add modify
  Keeps-add_turn role content = Triple-bind _ _ (Keeps-draw sv.now) (λ timestamp. record {
    at = λ t o. record {
      id = o.id;
      customer = o.customer;
      authenticated = o.authenticated;
      allowed = o.allowed;
      pending = o.pending;
    };
  })

  -- A read of the conversation, with what is known of it.
  Read : Conversation → Turn W → Type 0
  Read d t =
      Own t
      × (d.id ≡ c.id)
      × (d.customer_id ≡ c.customer_id)
      × (d.is_authenticated ≡ c.is_authenticated)

  Read-conversation : Triple Own (gets (λ t. t.conversation)) Read Own
  unfolding Read
  Read-conversation = Triple-gets _ (λ t o. (o, o.id, o.customer, o.authenticated))

  Keeps-record_audit :
      (question resolved_question : String) (answer : Answer)
      → Keeps (record_audit py sv tools max_iterations emit question resolved_question answer)
  unfolding record_audit Read audit_entry log_call draw
  Keeps-record_audit question resolved_question answer =
      Triple-bind _ _ (Keeps-draw sv.uuid4) (λ id. Triple-bind _ _ Read-conversation (λ d.
        Triple-bind {Q = λ _. Read d} _ _
          (Triple-lift (document_ids answer.citations) (λ ids t e r. r) (λ t r. r.0))
          (λ ids.
            Triple-bind {Q = λ _. Read d} _ _
              (record {
                at = λ t r. (in_world py sv c Runs t (sv.now t.world).1 r.0, r.1, r.2, r.3);
              })
              (λ created_at.
                Triple-bind {Q = λ _. Own} _ _
                  (record {
                    at = λ t r.
                        with_call py sv c Runs t
                          (Call.audit_record
                            (audit_entry id d question resolved_question ids answer created_at))
                          (r.1, r.2) r.0;
                  })
                  (λ _. Keeps-external _)))))

  pub Keeps-conclude :
      (question : String) (answer : Answer)
      → Keeps (conclude py sv tools max_iterations emit question answer)
  unfolding conclude
  Keeps-conclude question answer =
      Triple-bind _ _ (Keeps-add_turn "assistant" answer.text)
        (λ _. Triple-bind _ _ (Keeps-record_audit question question answer) (λ _. emits _))

  -- An answer that may pass the gate of the cache has passed the numeric guardrail.
  record IsChecked (a : Answer) : Type 0 where
    pending : (p : PendingAction) → a.pending_action ≡ some p → Proposed p
    verified :
        a.grounded ≡ true
        → is_none a.pending_action ≡ true
        → (w : W) × ((is_verified py sv a.text a.citations w).0 ≡ ok true)

  Checked : Answer → Turn W → Type 0
  Checked a t = Own t × IsChecked a

  unverified-IsChecked : (a : Answer) → IsChecked (unverified py sv tools max_iterations emit a)
  unfolding unverified
  unverified-IsChecked a = record {
    pending = λ p h. absurd (ground arith);
    verified = λ h k. absurd (ground arith);
  }

  unasked-IsChecked :
      (a : Answer)
      → ((p : PendingAction) → a.pending_action ≡ some p → Proposed p)
      → not (a.grounded && is_none a.pending_action) ≡ true
      → IsChecked a
  unasked-IsChecked a h skip = record { pending = h; verified = λ g k. absurd (ground arith) }

  judged-IsChecked :
      (a : Answer) (verified : Bool) (w : W)
      → ((p : PendingAction) → a.pending_action ≡ some p → Proposed p)
      → (is_verified py sv a.text a.citations w).0 ≡ ok verified
      → IsChecked (if verified then a else unverified py sv tools max_iterations emit a)
  judged-IsChecked a true w h e = record { pending = h; verified = λ _ _. (w, e) }
  judged-IsChecked a false w h e = unverified-IsChecked a

  -- What the guardrail said, and in which world.
  Said : Answer → Bool → Turn W → Type 0
  Said a verified t = Own t × ((w : W) × ((is_verified py sv a.text a.citations w).0 ≡ ok verified))

  said :
      (a : Answer) (w : W) (t : Turn W) (r : Result Bool)
      → Own t
      → (is_verified py sv a.text a.citations w).0 ≡ r
      → Outcome (Said a) Own r t
  unfolding Said
  said a w t (ok verified) o e = (o, (w, e))
  said a w t (raised x) o e = o

  ask_verified-Triple :
      (a : Answer) → Triple Own (external (is_verified py sv a.text a.citations)) (Said a) Own
  unfolding external
  ask_verified-Triple a = record {
    at = λ t o.
        let r = is_verified py sv a.text a.citations t.world in
        said a t.world (record t { world = r.1 }) r.0 (in_world py sv c Runs t r.1 o) refl;
  }

  check_numbers-Triple :
      (a : Answer)
      → ((p : PendingAction) → a.pending_action ≡ some p → Proposed p)
      → Triple Own (check_numbers py sv tools max_iterations emit a) Checked Own
  unfolding check_numbers Checked Said
  check_numbers-Triple a h =
      Triple-if (not (a.grounded && is_none a.pending_action)) _ _
        (λ skip. Triple-pure a (λ t o. (o, unasked-IsChecked a h skip)))
        (λ _.
          Triple-bind _ _ (ask_verified-Triple a)
            (λ verified. Triple-pure _ (λ t q. (q.0, judged-IsChecked a verified q.1.0 h q.1.1))))

  sharable :
      (a : Answer) (d : Conversation)
      → IsChecked a
      → d.is_authenticated ≡ c.is_authenticated
      → is_cacheable d a ≡ true
      → IsSharable py sv c Runs (cache_value py a) cacheable_ttl_seconds
  unfolding is_cacheable
  sharable a d checked same gate =
      let (w, verified) = checked.verified (ground arith) (ground arith) in
      record {
        answer = a;
        value_eq = refl;
        ttl_eq = refl;
        anonymous = ground arith;
        grounded = ground arith;
        proposes_nothing = ground arith;
        checked_in = w;
        verified = verified;
      }

  Keeps-store_if_cacheable :
      (key : String) (a : Answer)
      → IsChecked a
      → Keeps (store_if_cacheable py sv tools max_iterations emit key a)
  unfolding store_if_cacheable store Read
  Keeps-store_if_cacheable key a checked = Triple-bind _ _ Read-conversation (λ d.
      Triple-if (is_cacheable d a) _ _
        (λ gate.
          Triple-bind {Q = λ _. Own} _ _
            (record { at = λ t r. (Keeps-call _ (sharable a d checked r.3 gate)).at t r.0 })
            (λ _. Keeps-external _))
        (λ _. Triple-pure tt (λ t r. r.0)))

  Keeps-take_answer :
      (key question resolved_question : String) (a : Answer)
      → ((p : PendingAction) → a.pending_action ≡ some p → Proposed p)
      → Keeps (take_answer py sv tools max_iterations emit key question resolved_question a)
  unfolding take_answer Checked modify
  Keeps-take_answer key question resolved_question a h =
      Triple-bind _ _ (check_numbers-Triple a h) (λ b.
        Triple-bind {Q = λ _. Checked b} _ _
          (record {
            at = λ t k. with_checked b k.1 _ _ ((Keeps-add_turn "assistant" b.text).at t k.0);
          })
          (λ _.
            Triple-bind {Q = λ _. Checked b} _ _
              (record {
                at = λ t k.
                    (with_pending py sv c Runs Proposed t b.pending_action k.1.pending k.0, k.1);
              })
              (λ _.
                Triple-bind {Q = λ _. Own} _ _
                  (record { at = λ t k. (Keeps-store_if_cacheable key b k.1).at t k.0 })
                  (λ _.
                    Triple-bind _ _ (Keeps-record_audit question resolved_question b)
                      (λ _. emits _)))))
    where
      with_checked :
          (b : Answer)
          → IsChecked b
          → (r : Result (Unit {0})) (t : Turn W) → Outcome (λ _. Own) Own r t
          → Outcome (λ _. Checked b) Own r t
      with_checked b k (ok u) t o = (o, k)
      with_checked b k (raised e) t o = o

  -- What the confirmation classifier said, and in which world.
  Confirmed : String → Bool → Turn W → Type 0
  Confirmed reply verdict t = Own t × ((w : W) × ((is_confirmed py sv reply w).0 ≡ ok verdict))

  confirmed :
      (reply : String) (w : W) (t : Turn W) (r : Result Bool)
      → Own t
      → (is_confirmed py sv reply w).0 ≡ r
      → Outcome (Confirmed reply) Own r t
  unfolding Confirmed
  confirmed reply w t (ok verdict) o e = (o, (w, e))
  confirmed reply w t (raised x) o e = o

  ask-Confirmed-Triple :
      (reply : String) → Triple Own (external (is_confirmed py sv reply)) (Confirmed reply) Own
  unfolding external
  ask-Confirmed-Triple reply = record {
    at = λ t o.
        let r = is_confirmed py sv reply t.world in
        confirmed reply t.world (record t { world = r.1 }) r.0 (in_world py sv c Runs t r.1 o) refl;
  }

  not-false : (b : Bool) → not b ≡ false → b ≡ true
  not-false b h = ground arith

  Keeps-run_pending :
      (p : PendingAction) (reply : String) (tool : Tool W)
      → ((w : W) → (is_confirmed py sv reply w).0 ≡ ok true → Runs tool.name p.arguments)
      → Keeps (run_pending py sv tools max_iterations emit tool p reply)
  unfolding run_pending Confirmed
  Keeps-run_pending p reply tool runs = Triple-bind _ _ (ask-Confirmed-Triple reply) (λ answer.
      Triple-if (not answer) _ _ (λ _. Triple-pure _ (λ t q. q.0))
        (λ agreed.
          Triple-bind {Q = λ _. Own} _ _
            (record {
              at = λ t q.
                  (Keeps-call (tool_run tool.name p.arguments)
                      (runs q.1.0 (rw (← not-false answer agreed) q.1.1))).at
                    t q.0;
            })
            (λ _. Triple-bind _ _ (Keeps-external (tool.run p.arguments)) (λ raw.
              Triple-bind _ _ (Keeps-lift (describe_tool_result py raw)) (λ text. Keeps-pure _)))))

  Keeps-found :
      (found : Option (Tool W)) (absent : Answer) (present : Tool W → Exec (Turn W) Answer)
      → ((tool : Tool W) → found ≡ some tool → Keeps (present tool))
      → Keeps (elim found [ none ↦ pure absent | some tool ↦ present tool ])
  Keeps-found none absent present h = Keeps-pure absent
  Keeps-found (some tool) absent present h = h tool refl

  pub Keeps-resolve_cleared :
      (p : PendingAction) (reply : String)
      → ((tool : Tool W) (w : W)
          → get (for_conversation tools c.is_authenticated) p.tool_name ≡ some tool
          → (is_confirmed py sv reply w).0 ≡ ok true
          → Runs tool.name p.arguments)
      → Keeps (resolve_cleared py sv tools max_iterations emit p reply)
  unfolding resolve_cleared Read
  Keeps-resolve_cleared p reply runs = Triple-bind _ _ Read-conversation (λ d. record {
    at = λ t r.
        (Keeps-found (get (for_conversation tools d.is_authenticated) p.tool_name) _
            (λ tool. run_pending py sv tools max_iterations emit tool p reply)
            (λ tool e. Keeps-run_pending p reply tool (λ w. runs tool w (rw (← r.3) e)))).at
          t r.0;
  })

  -- The router's events, as `take_event` consumes them.
  router_consumer :
      (key question resolved_question : String)
      → ((tool : Tool W) (name : String)
          → get tools name ≡ some tool
          → (p : PendingAction) → tool.requires_confirmation ≡ true
          → p.tool_name ≡ tool.name
          → Proposed p)
      → ((tool : Tool W) (name : String) (arguments : Arguments)
          → get tools name ≡ some tool
          → tool.requires_confirmation ≡ false
          → Runs tool.name arguments)
      → Consumer py tools
          (take_event py sv tools max_iterations emit key question resolved_question)
          (λ _. Own)
          Own
          Own
  unfolding take_event
  router_consumer key question resolved_question proposes runs = record {
    on_delta = λ used text h. emits _;
    on_done = λ used a made. Keeps-take_answer key question resolved_question a (λ p e.
        let (tool, name, found, asks, same, _) = made.proposes p e in
        proposes tool name found p asks same);
    on_world = λ used t w o. in_world py sv c Runs t w o;
    on_run = λ used t name tool arguments found free o.
        with_call py sv c Runs t (tool_run tool.name arguments)
          (runs tool name arguments found free) o;
    on_failure = λ used t o. o;
  }

  -- The two ways into a turn: nothing pending, where the router may run what needs no
  -- confirmation, and a pending action, where only its confirmed tool may run.
  module _
      (proposes : (tool : Tool W) (name : String)
        → get tools name ≡ some tool
        → (p : PendingAction) → tool.requires_confirmation ≡ true
        → p.tool_name ≡ tool.name
        → Proposed p)
      (runs : (tool : Tool W) (name : String) (arguments : Arguments)
        → get tools name ≡ some tool
        → tool.requires_confirmation ≡ false
        → Runs tool.name arguments) where
    Keeps-ask_router :
        (key question resolved_question : String)
        → Keeps (ask_router py sv tools max_iterations emit key question resolved_question)
    unfolding ask_router
    Keeps-ask_router key question resolved_question =
        handle_streaming-Triple py sv tools _ (λ _. Own) Own Own
          (router_consumer key question resolved_question proposes runs) max_iterations
          (some resolved_question)

    Keeps-cached :
        (key question resolved_question : String) (cached : Option String)
        → Keeps (elim cached [
          | none ↦ ask_router py sv tools max_iterations emit key question resolved_question
          | some text ↦ replay_cached py sv tools max_iterations emit text
        ])
    unfolding replay_cached
    Keeps-cached key question resolved_question none =
        Keeps-ask_router key question resolved_question
    Keeps-cached key question resolved_question (some text) =
        Triple-bind _ _ (Keeps-lift (read_cached py text)) (λ a. emits _)

    Keeps-answer_resolved :
        (question resolved_question : String)
        → Keeps (answer_resolved py sv tools max_iterations emit question resolved_question)
    unfolding answer_resolved
    Keeps-answer_resolved question resolved_question =
        Triple-bind {Q = λ _. Own} _ _ (Triple-gets _ (λ t o. o)) (λ (d : Conversation).
          Triple-if d.is_authenticated _ _ (λ _. Keeps-ask_router _ question resolved_question)
            (λ _.
              Triple-bind _ _ (Keeps-external (sv.cache_get (cache_key py d resolved_question)))
                (Keeps-cached (cache_key py d resolved_question) question resolved_question)))

    pub Keeps-answer_fresh :
        (history_before : List Message) (question : String)
        → Keeps (answer_fresh py sv tools max_iterations emit history_before question)
    unfolding answer_fresh
    Keeps-answer_fresh history_before question =
        Triple-bind _ _ (Keeps-external (is_in_scope py sv question)) (λ (in_scope : Bool).
          Triple-if (not in_scope) _ _ (λ _. Keeps-conclude question _)
            (λ _.
              Triple-bind _ _ (Keeps-external (needs_escalation py sv question))
                (λ (escalate : Bool).
                  Triple-if escalate _ _ (λ _. Keeps-conclude question _)
                    (λ _.
                      Triple-bind _ _ (Keeps-external (rewrite py sv history_before question))
                        (λ resolved_question. Keeps-answer_resolved question resolved_question)))))
