-- ===== src/AnswerQuestion/Safety/Tests.antt =====
-- Runs of `execute` with a scripted language model, and each claim at one of them.
use mathlib.Core.List.{flat_map}
use bank_rag_bot.Prelude.{
  String, Bool, true, false, List, [], ◌∷◌, Option, none, some, ◌≡◌, refl, inl, inr,
}
use bank_rag_bot.Prelude.Text.{strip, join, show}
use bank_rag_bot.Prelude.Exec.{Result, ok, raised, service, ◌>>=◌}
use bank_rag_bot.Domain.{
  Arguments, Conversation, PendingAction, obj, end, str, add, history_as_messages, turn_message,
  account_balance,
}
use bank_rag_bot.Python.{Python}
use bank_rag_bot.Ports.{Services, LlmResponse, LlmStream}
use bank_rag_bot.Agents.Tool.{Tool, to_openai_schema}
use bank_rag_bot.Agents.Registry.{for_conversation, get}
use bank_rag_bot.Agents.Guardrails.{
  is_confirmed, is_in_scope, needs_escalation, is_verified, rewrite, verdict, has_figure,
}
use bank_rag_bot.Agents.Turn.{external, log_call, draw}
use bank_rag_bot.Agents.Router.{
  handle_streaming, iterate, model_reply, take_chunks, take_chunk, emit_if, finish_stream, finish,
  final_answer_of, answer_text, initial_messages, take_calls, take_call, run_tool, new_citations,
  tool_message, unknown_tool, proposal, exhausted,
}
use bank_rag_bot.Agents.Router.Texts.{build_confirmation_text, is_smalltalk, extract_citations}
use bank_rag_bot.AnswerQuestion.{
  execute, execute_streaming, describe_tool_result, document_ids, read_cached, cache_value,
  cache_key, is_cacheable, audit_entry,
}
use bank_rag_bot.AnswerQuestion.Own.{IsSharable}
use bank_rag_bot.AnswerQuestion.Safety.{
  start, RunsFree, RunsConfirmed, Asks, execute-RunsFree, execute-RunsConfirmed,
  execute-clears_pending, execute-Asks, execute-IsSharable, execute-audits_own,
}

abbrev python : Python
python = record {
  lower = λ s. s;
  is_alnum = λ c. false;
  is_decimal = λ c. false;
  loads = λ s. some (obj end);
  dumps = λ v. "{}";
  format = λ v. "";
  repr_citation = λ c. "";
  repr_pending = λ p. "";
  sha256_hexdigest = λ s. s;
}

-- The world is the list of the model's replies to come.
abbrev reply : String → LlmResponse
reply text = record { content = some text; tool_calls = []; finish_reason = "stop" }

abbrev next_reply : List LlmResponse → Result LlmResponse × List LlmResponse
next_reply [] = (raised (service "no reply"), [])
next_reply (r ∷ rs) = (ok r, rs)

abbrev next_stream : List LlmResponse → LlmStream × List LlmResponse
next_stream [] = (record { chunks = []; failure = some (service "no reply") }, [])
next_stream (r ∷ rs) = (
  record {
    chunks = (record { content_delta = ""; is_final = true; response = some r }) ∷ [];
    failure = none;
  },
  rs,
)

abbrev services : Services (List LlmResponse)
services = record {
  complete = λ prompt messages w. next_reply w;
  stream_complete = λ prompt messages schemas w. next_stream w;
  mask = λ s. s;
  cache_get = λ key w. (ok none, w);
  cache_set = λ key value ttl w. (ok tt, w);
  record_audit = λ entry w. (ok tt, w);
  uuid4 = λ w. ("id", w);
  now = λ w. (0, w);
}

abbrev lock_card : Tool (List LlmResponse)
lock_card = record {
  name = "lock_card";
  description = "Proposes locking. More.";
  requires_authentication = true;
  requires_confirmation = true;
  run = λ arguments w. (ok "{}", w);
}

abbrev find_branches : Tool (List LlmResponse)
find_branches = record {
  name = "find_branches";
  description = "Finds branches.";
  requires_authentication = false;
  requires_confirmation = false;
  run = λ arguments w. (ok "{}", w);
}

abbrev tools : List (Tool (List LlmResponse))
tools = find_branches ∷ lock_card ∷ []

abbrev card : Arguments
card = ("card_id", str "c1") ∷ []

abbrev pending_lock : PendingAction
pending_lock = record { tool_name = "lock_card"; arguments = card; confirmation_prompt = "?" }

abbrev idle : Bool → Conversation
idle authenticated = record {
  id = "k1";
  customer_id = some "u1";
  is_authenticated = authenticated;
  turns = [];
  pending_action = none;
}

abbrev waiting : Conversation
waiting = record (idle true) { pending_action = some pending_lock }

abbrev calls_tool : String → Arguments → LlmResponse
calls_tool name arguments = record {
  content = none;
  tool_calls = (record { id = "1"; name = name; arguments = arguments }) ∷ [];
  finish_reason = "tool_calls";
}

abbrev script : List LlmResponse
script = reply "true" ∷ reply "false" ∷ calls_tool "find_branches" [] ∷ reply "ok" ∷ []

abbrev script_lock : List LlmResponse
script_lock = reply "true" ∷ reply "false" ∷ calls_tool "lock_card" card ∷ []

program : Unit {0}
unfolding execute execute_streaming describe_tool_result document_ids read_cached cache_value
    cache_key is_cacheable audit_entry handle_streaming iterate model_reply take_chunks take_chunk
    emit_if finish_stream finish final_answer_of answer_text initial_messages take_calls take_call
    run_tool new_citations tool_message unknown_tool proposal exhausted build_confirmation_text
    is_smalltalk extract_citations is_confirmed is_in_scope needs_escalation is_verified rewrite
    verdict has_figure external log_call draw ◌>>=◌ get for_conversation add history_as_messages
    turn_message to_openai_schema strip join show flat_map
program = tt

execute-RunsFree_example : RunsFree python services tools 4 (idle false) "find_branches" []
unfolding program
execute-RunsFree_example =
    execute-RunsFree python services tools 4 (idle false) script "dove?" "find_branches" [] refl
      (inl refl)

execute-RunsConfirmed_example :
    RunsConfirmed python services tools 4 waiting pending_lock "sì" "lock_card" card
unfolding program
execute-RunsConfirmed_example =
    execute-RunsConfirmed python services tools 4 waiting (reply "true" ∷ []) "sì" "lock_card" card
      pending_lock refl (inl refl)

abbrev proposed_lock : PendingAction
proposed_lock = record {
  tool_name = "lock_card";
  arguments = card;
  confirmation_prompt =
      "Prima di procedere confermo: Proposes locking (card_id: ). Rispondi 'sì' per confermare, oppure scrivi altro per annullare.";
}

execute-clears_pending_example :
    (execute python services tools 4 "sì"
      (start waiting (reply "true" ∷ []))).1.conversation.pending_action
    ≡ none
unfolding program
execute-clears_pending_example =
    execute-clears_pending python services tools 4 waiting (reply "true" ∷ []) "sì" pending_lock _
      refl refl

execute-Asks_example : Asks python services tools 4 (idle true) proposed_lock
unfolding program
execute-Asks_example =
    execute-Asks python services tools 4 (idle true) script_lock "blocca" proposed_lock refl refl

execute-IsSharable_example :
    IsSharable python services (idle false) (λ name arguments. Unit) "{}" 3600
unfolding program
execute-IsSharable_example =
    execute-IsSharable python services tools 4 (idle false) script "dove?" "1::dove?" "{}" 3600
      (inr (inl refl))

execute-audits_own_example :
    ◌≡◌ {A = String} "k1" "k1" × ◌≡◌ {A = Option String} (some "u1") (some "u1")
unfolding program
execute-audits_own_example =
    execute-audits_own python services tools 4 waiting (reply "true" ∷ []) "sì"
      (record {
        id = "id";
        conversation_id = "k1";
        customer_id = some "u1";
        question = "sì";
        resolved_question = "sì";
        retrieved_document_ids = [];
        answer_text = "Operazione completata.";
        intent = account_balance;
        grounded = true;
        created_at = 0;
      })
      (inr (inl refl))
