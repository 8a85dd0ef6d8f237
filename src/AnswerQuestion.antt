-- ===== src/AnswerQuestion.antt =====
-- application/use_cases/answer_question.py: one customer message, from the mask to the audit
-- record. The child `Cached` has the JSON forms of an answer.
pub mod Cached
pub mod Own
pub mod Calls
pub mod Events
pub mod Safety
use mathlib.Core.List.{map, ◌++◌}
use bank_rag_bot.Prelude.{
  ℕ, String, Bool, true, false, not, ◌&&◌, ◌||◌, ◌==◌, if◌then◌else◌, List, [], ◌∷◌, Option, none,
  some, is_none, length, eqb, code,
}
use bank_rag_bot.Prelude.Text.{◌<>◌, strip, show, contains}
use bank_rag_bot.Prelude.Exec.{
  Exec, Result, ok, raised, assertion_error, attribute_error, type_error, json_decode_error, pure,
  raise, lift, gets, ◌>>=◌, ◌>>◌, modify, bind_result,
}
use bank_rag_bot.Domain.{
  Json, null, bool, str, number, arr, obj, Items, nil, cons, Fields, end, field, Intent, Message,
  Answer, Cited, citation, plain, Conversation, PendingAction, AuditEntry, add, history_as_messages,
  unknown, human_handoff, account_balance,
}
use bank_rag_bot.Python.{Python}
use bank_rag_bot.Ports.{Services}
use bank_rag_bot.Agents.Tool.{Tool}
use bank_rag_bot.Agents.Registry.{for_conversation, get}
use bank_rag_bot.Agents.Guardrails.{
  is_confirmed, is_in_scope, needs_escalation, is_verified, rewrite,
}
use bank_rag_bot.Agents.Turn.{
  Turn, StreamEvent, Call, tool_run, cache_write, audit_record, external, log_call, draw,
  done_event,
}
use bank_rag_bot.Agents.Router.{handle_streaming}
use bank_rag_bot.Agents.Router.Texts.{get_field}
use bank_rag_bot.AnswerQuestion.Cached.{answer_to_json, answer_of_json}

abbrev pub cacheable_ttl_seconds : ℕ
cacheable_ttl_seconds = 3600

abbrev pub action_unavailable_message : String
action_unavailable_message = "Questa azione non è più disponibile. Come posso aiutarti?"

abbrev pub action_declined_message : String
action_declined_message = "Ok, non ho eseguito l'azione. Come posso aiutarti?"

abbrev pub action_failed_message : String
action_failed_message =
    "Non sono riuscito a completare l'operazione. Ti metto in contatto con un operatore."

abbrev pub out_of_scope_message : String
out_of_scope_message =
    "Posso aiutarti solo con domande sui servizi e prodotti della banca. "
    <> "Per altre richieste, contatta il supporto generale del sito."

abbrev pub escalation_message : String
escalation_message = "Capisco la tua frustrazione. Ti metto subito in contatto con un operatore."

abbrev pub numeric_unverified_message : String
numeric_unverified_message =
    "Non riesco a confermare con certezza questo dato numerico sui documenti "
    <> "disponibili. Ti metto in contatto con un operatore per il valore esatto."

-- The answers that no model writes.
abbrev pub fixed_answer : String → Intent → Answer
fixed_answer text intent = record {
  text = text;
  citations = [];
  intent = intent;
  grounded = true;
  pending_action = none;
}

-- Python's truth of a number: a literal with no digit but 0 before its exponent is false.
is_zero_literal : String → Bool
is_zero_literal String.[] = true
is_zero_literal (String.◌∷◌ c s) =
    eqb (code c) b'e'
    || eqb (code c) b'E'
    || (eqb (code c) b'0' || eqb (code c) b'.' || eqb (code c) b'-') && is_zero_literal s

-- Python's truth of `data.get("locked")`
unfoldable pub is_true : Option Json → Bool
unfolding is_zero_literal
is_true none = false
is_true (some null) = false
is_true (some (bool b)) = b
is_true (some (str s)) = not (s == "")
is_true (some (number n)) = not (is_zero_literal n)
is_true (some (arr nil)) = false
is_true (some (arr (cons v vs))) = true
is_true (some (obj end)) = false
is_true (some (obj (field k v fs))) = true

abbrev card_text : Python → Option Json → String
card_text py none = ""
card_text py (some v) = py.format v

locked_text : Python → Fields → String
unfolding is_true
locked_text py fields =
    if is_true (get_field "locked" fields)
    then "Fatto — la carta " <> card_text py (get_field "card_id" fields) <> " è stata bloccata."
    else "Operazione completata."

has_error_item : Items → Bool
has_error_item nil = false
has_error_item (cons (str s) vs) = s == "error" || has_error_item vs
has_error_item (cons v vs) = has_error_item vs

-- `"error" in data`, and then `data.get`, which only an object has
describe : Python → Option Json → Result String
unfolding locked_text has_error_item
describe py none = ok action_failed_message
describe py (some (obj fields)) = ok (
    if not (is_none (get_field "error" fields))
    then action_failed_message
    else locked_text py fields)
describe py (some (str s)) =
    if contains "error" s then ok action_failed_message else raised attribute_error
describe py (some (arr items)) =
    if has_error_item items then ok action_failed_message else raised attribute_error
describe py (some v) = raised type_error

unfoldable pub describe_tool_result : Python → String → Result String
unfolding describe
describe_tool_result py raw_result = describe py (py.loads raw_result)

-- the key under which the resolved question's answer is shared between conversations
unfoldable pub cache_key : Python → Conversation → String → String
cache_key py c resolved_question =
    py.sha256_hexdigest (show (length c.turns) <> "::" <> py.lower (strip resolved_question))

-- `json.dumps(answer.__dict__, default=str)`
unfoldable pub cache_value : Python → Answer → String
unfolding answer_to_json
cache_value py answer = py.dumps (answer_to_json py answer)

-- `Answer(**json.loads(cached))`
parse_cached : Option Json → Result Answer
parse_cached none = raised json_decode_error
parse_cached (some v) = answer_of_json v

unfoldable pub read_cached : Python → String → Result Answer
unfolding parse_cached
read_cached py cached = parse_cached (py.loads cached)

-- `[c.document_id for c in answer.citations]`
unfoldable pub document_ids : List Cited → Result (List String)
document_ids [] = ok []
document_ids (citation c ∷ cs) = bind_result (document_ids cs) (λ rest. ok (c.document_id ∷ rest))
document_ids (plain v ∷ cs) = raised attribute_error

-- the fields of an audit record
unfoldable pub audit_entry :
    String → Conversation → String → String → List String → Answer → ℕ → AuditEntry
audit_entry id c question resolved_question ids answer created_at = record {
  id = id;
  conversation_id = c.id;
  customer_id = c.customer_id;
  question = question;
  resolved_question = resolved_question;
  retrieved_document_ids = ids;
  answer_text = answer.text;
  intent = answer.intent;
  grounded = answer.grounded;
  created_at = created_at;
}

-- The gate of `cache.set`.
unfoldable pub is_cacheable : Conversation → Answer → Bool
is_cacheable c answer = not c.is_authenticated && answer.grounded && is_none answer.pending_action

module _ {W : Type 0} (py : Python) (sv : Services W) (tools : List (Tool W)) (max_iterations : ℕ)
    (emit : StreamEvent → Exec (Turn W) Unit) where
  unfoldable pub add_turn : String → String → Exec (Turn W) Unit
  add_turn role content = do
    timestamp ← draw sv.now
    modify (λ t. record t {
      conversation =
          add (record { role = role; content = content; timestamp = timestamp }) t.conversation;
    })

  unfoldable pub record_audit : String → String → Answer → Exec (Turn W) Unit
  record_audit question resolved_question answer = do
    id ← draw sv.uuid4
    c ← gets (λ t. t.conversation)
    ids ← lift (document_ids answer.citations)
    created_at ← draw sv.now
    let entry = audit_entry id c question resolved_question ids answer created_at
    log_call (Call.audit_record entry)
    external (sv.record_audit entry)

  -- The tail that three branches share: transcript, audit record, one done event.
  unfoldable pub conclude : String → Answer → Exec (Turn W) Unit
  unfolding add_turn record_audit
  conclude question answer = do
    add_turn "assistant" answer.text
    record_audit question question answer
    emit (record { delta = answer.text; done = true; answer = some answer })

  unfoldable pub run_pending : Tool W → PendingAction → String → Exec (Turn W) Answer
  run_pending tool pending reply = do
    confirmed ← external (is_confirmed py sv reply)
    if not confirmed then pure (fixed_answer action_declined_message unknown) else do
      log_call (tool_run tool.name pending.arguments)
      raw_result ← external (tool.run pending.arguments)
      text ← lift (describe_tool_result py raw_result)
      pure (fixed_answer text account_balance)

  -- `allowed_tools.get(…)` on the dict of the offered tools
  unfoldable pub resolve_cleared : PendingAction → String → Exec (Turn W) Answer
  unfolding run_pending
  resolve_cleared pending reply = do
    c ← gets (λ t. t.conversation)
    elim (get (for_conversation tools c.is_authenticated) pending.tool_name) [
      | none ↦ pure (fixed_answer action_unavailable_message unknown)
      | some tool ↦ run_pending tool pending reply
    ]

  unfoldable pub resolve_pending_action : PendingAction → String → Exec (Turn W) Answer
  unfolding resolve_cleared
  resolve_pending_action pending reply = do
    modify (λ t. record t { conversation = record t.conversation { pending_action = none } })
    resolve_cleared pending reply

  unfoldable pub unverified : Answer → Answer
  unverified answer = record {
    text = numeric_unverified_message;
    citations = answer.citations;
    intent = answer.intent;
    grounded = false;
    pending_action = none;
  }

  -- The checked event: the router's own, or a new one with the corrected answer.
  unfoldable pub check_numbers : Answer → Exec (Turn W) Answer
  unfolding unverified
  check_numbers answer =
      if not (answer.grounded && is_none answer.pending_action) then pure answer else do
        verified ← external (is_verified py sv answer.text answer.citations)
        pure (if verified then answer else unverified answer)

  unfoldable pub store : String → Answer → Exec (Turn W) Unit
  store key answer = do
    log_call (cache_write key (cache_value py answer) cacheable_ttl_seconds)
    external (sv.cache_set key (cache_value py answer) cacheable_ttl_seconds)

  unfoldable pub store_if_cacheable : String → Answer → Exec (Turn W) Unit
  unfolding store
  store_if_cacheable key answer = do
    c ← gets (λ t. t.conversation)
    if is_cacheable c answer then store key answer else pure tt

  -- What the loop over the router's events does with the done event.
  unfoldable pub take_answer : String → String → String → Answer → Exec (Turn W) Unit
  unfolding check_numbers store_if_cacheable add_turn record_audit
  take_answer key question resolved_question answer = do
    checked ← check_numbers answer
    add_turn "assistant" checked.text
    modify (λ t. record t {
      conversation = record t.conversation { pending_action = checked.pending_action };
    })
    store_if_cacheable key checked
    record_audit question resolved_question checked
    emit (done_event checked)

  -- The body of `async for event in self._router_agent.handle_streaming(…)`.
  unfoldable pub take_event : String → String → String → StreamEvent → Exec (Turn W) Unit
  unfolding take_answer
  take_event key question resolved_question event =
      if not event.done then emit event else elim event.answer [
        | none ↦ raise attribute_error
        | some answer ↦ take_answer key question resolved_question answer
      ]

  unfoldable pub replay_cached : String → Exec (Turn W) Unit
  replay_cached cached = do
    answer ← lift (read_cached py cached)
    emit (record { delta = answer.text; done = true; answer = some answer })

  unfoldable pub ask_router : String → String → String → Exec (Turn W) Unit
  unfolding take_event
  ask_router key question resolved_question =
      handle_streaming py sv (take_event key question resolved_question) max_iterations tools
        (some resolved_question)

  -- From the cache look-up on; an authenticated conversation never reads the cache.
  unfoldable pub answer_resolved : String → String → Exec (Turn W) Unit
  unfolding replay_cached ask_router
  answer_resolved question resolved_question = do
    c ← gets (λ t. t.conversation)
    let key = cache_key py c resolved_question
    if c.is_authenticated then ask_router key question resolved_question else do
      cached ← external (sv.cache_get key)
      elim cached [
        | none ↦ ask_router key question resolved_question
        | some text ↦ replay_cached text
      ]

  unfoldable pub answer_fresh : List Message → String → Exec (Turn W) Unit
  unfolding conclude answer_resolved
  answer_fresh history_before question = do
    in_scope ← external (is_in_scope py sv question)
    if not in_scope then conclude question (fixed_answer out_of_scope_message unknown) else do
      escalate ← external (needs_escalation py sv question)
      if escalate then conclude question (fixed_answer escalation_message human_handoff) else do
        resolved_question ← external (rewrite py sv history_before question)
        answer_resolved question resolved_question

  unfoldable pub answer_pending : PendingAction → String → Exec (Turn W) Unit
  unfolding resolve_pending_action conclude
  answer_pending pending question = do
    answer ← resolve_pending_action pending question
    conclude question answer

  unfoldable pub execute_streaming : String → Exec (Turn W) Unit
  unfolding answer_fresh answer_pending add_turn
  execute_streaming question = do
    let safe_question = sv.mask question
    history_before ← gets (λ t. history_as_messages t.conversation)
    add_turn "user" safe_question
    c ← gets (λ t. t.conversation)
    elim c.pending_action [
      | none ↦ answer_fresh history_before safe_question
      | some pending ↦ answer_pending pending safe_question
    ]

module _ {W : Type 0} (py : Python) (sv : Services W) (tools : List (Tool W))
    (max_iterations : ℕ) where
  -- The body of `execute`'s loop.
  unfoldable pub drain : StreamEvent → Exec (Turn W) Unit
  drain event =
      modify (λ t. record t { final_answer = if event.done then event.answer else t.final_answer })

  unfoldable pub asserted : Option Answer → Exec (Turn W) Answer
  asserted none = raise assertion_error
  asserted (some a) = pure a

  unfoldable pub execute : String → Exec (Turn W) Answer
  unfolding drain asserted
  execute question = do
    modify (λ t. record t { final_answer = none })
    execute_streaming py sv tools max_iterations drain question
    answer ← gets (λ t. t.final_answer)
    asserted answer
