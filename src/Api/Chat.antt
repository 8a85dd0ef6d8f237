-- ===== src/Api/Chat.antt =====
-- interface/api/routers/chat.py: a customer's message, answered at once or as server-sent events.
-- `send` is what the server does with a text that the stream yields.
pub mod Saved
pub mod Uncited
use bank_rag_bot.Prelude.{ℕ, String, Bool, not, Option, none, some, List, [], ◌∷◌, if◌then◌else◌}
use bank_rag_bot.Prelude.Text.{◌<>◌}
use bank_rag_bot.Prelude.Exec.{
  Exec, Result, ok, raised, attribute_error, bind_result, pure, lift, raise, gets, calling, ◌>>=◌,
  ◌>>◌,
}
use bank_rag_bot.Domain.{
  Json, str, bool, arr, obj, Items, nil, cons, end, field, Answer, Audience, Cited, citation, plain,
  Citation, Conversation,
}
use bank_rag_bot.Python.{Python}
use bank_rag_bot.Ports.{Services}
use bank_rag_bot.Redis.{Redis}
use bank_rag_bot.Settings.{Settings}
use bank_rag_bot.Access.{RequestIdentity}
use bank_rag_bot.Agents.Tool.{Tool}
use bank_rag_bot.Agents.Turn.{Turn, StreamEvent, external}
use bank_rag_bot.AccountTools.{Branch, BankApi, build_tools}
use bank_rag_bot.AnswerQuestion.{execute, execute_streaming}
use bank_rag_bot.Conversations.Store.{get_conversation, save_conversation}
use bank_rag_bot.Retrieval.Tool.{citation_json}
use bank_rag_bot.Api.{Gate, Caller, limited, validated, has_length}

pub record ChatRequest : Type 0 where
  pub conversation_id : Option String
  pub message : String

pub record ChatResponse : Type 0 where
  pub conversation_id : String
  pub answer : String
  pub citations : List Citation
  pub grounded : Bool

pub record Backend (Score W : Type 0) : Type 0 where
  pub py : Python
  pub isoformat : ℕ → String
  pub fromisoformat : String → Option ℕ
  pub gate : Gate W
  pub redis : Redis W
  pub services : Services W
  pub search_tool : List Audience → Tool W
  pub branches : List Branch
  pub bank : BankApi W
  pub settings : Settings Score

-- `c.__dict__`, which a value that came out of the cache does not have
unfoldable pub citation_fields : List Cited → Result (List Citation)
citation_fields [] = ok []
citation_fields (citation c ∷ cs) = bind_result (citation_fields cs) (λ rest. ok (c ∷ rest))
citation_fields (plain v ∷ cs) = raised attribute_error

unfoldable pub chat_response : Conversation → Answer → Result ChatResponse
unfolding citation_fields
chat_response c answer = bind_result (citation_fields answer.citations) (λ citations. ok (record {
  conversation_id = c.id;
  answer = answer.text;
  citations = citations;
  grounded = answer.grounded;
}))

unfoldable pub citation_items : List Citation → Items
unfolding citation_json
citation_items [] = nil
citation_items (c ∷ cs) = cons (citation_json c) (citation_items cs)

unfoldable pub delta_json : String → Json
delta_json text = obj (field "type" (str "delta") (field "text" (str text) end))

unfoldable pub done_json : ChatResponse → Json
unfolding citation_items
done_json r = obj (
    field "type" (str "done") (
      field "conversation_id" (str r.conversation_id) (
        field "answer" (str r.answer) (
          field "citations" (arr (citation_items r.citations))
            (field "grounded" (bool r.grounded) end)))))

unfoldable pub sse_text : Python → Json → String
sse_text py v = "data: " <> py.dumps v <> "\n\n"

-- The use case changes the conversation that the router holds.
abbrev pub opened : {W : Type 0} → Conversation → W → Turn W
opened c w = record { conversation = c; sent = []; calls = []; final_answer = none; world = w }

abbrev pub beside : {A : Type 0} → Result A → Conversation → Result (A × Conversation)
beside (ok a) c = ok (a, c)
beside (raised e) c = raised e

unfoldable pub in_turn : {W A : Type 0} → Conversation → Exec (Turn W) A → Exec W (A × Conversation)
in_turn c m w = let r = m (opened c w) in (beside r.0 r.1.conversation, r.1.world)

module _ {Score W : Type 0} (b : Backend Score W) where
  unfoldable pub stored : Option String → Exec W (Option Conversation)
  unfolding get_conversation
  stored none = pure none
  stored (some id) = get_conversation b.redis b.py b.isoformat b.fromisoformat id

  unfoldable pub or_new : RequestIdentity → Option Conversation → Exec W Conversation
  or_new identity (some c) = pure c
  or_new identity none = do
    id ← calling b.services.uuid4
    pure (record {
      id = id;
      customer_id = identity.customer_id;
      is_authenticated = identity.is_authenticated;
      turns = [];
      pending_action = none;
    })

  unfoldable pub current_conversation : ChatRequest → RequestIdentity → Exec W Conversation
  unfolding stored or_new
  current_conversation request identity = do
    found ← stored request.conversation_id
    or_new identity found

  unfoldable pub save : Conversation → Exec W Unit
  unfolding save_conversation
  save c =
      save_conversation b.redis b.py b.isoformat b.fromisoformat b.settings.conversation_ttl_seconds
        c

  -- `get_answer_question_use_case(identity)`
  unfoldable pub tools_for : RequestIdentity → List (Tool W)
  unfolding build_tools
  tools_for identity =
      build_tools b.py b.gate.explain b.search_tool b.branches b.bank identity.is_authenticated
        identity.customer_id

  -- the answer, and the conversation as the use case leaves it
  unfoldable pub answered : ChatRequest → RequestIdentity → Exec W (Answer × Conversation)
  unfolding current_conversation tools_for in_turn
  answered request identity = do
    conversation ← current_conversation request identity
    in_turn conversation (
        execute b.py b.services (tools_for identity) b.settings.router_max_iterations
          request.message)

  unfoldable pub send_message : ChatRequest → RequestIdentity → Exec W ChatResponse
  unfolding answered save chat_response
  send_message request identity = do
    turn ← answered request identity
    _ ← save turn.1
    lift (chat_response turn.1 turn.0)

  -- the whole route
  unfoldable pub chat : Caller → ChatRequest → Exec W ChatResponse
  unfolding limited validated has_length send_message
  chat caller request = do
    identity ← limited b.gate b.settings.rate_limit_chat_per_minute caller
    validated (has_length 1 2000 request.message) (send_message request identity)

  module _ (send : String → Exec W Unit) where
    unfoldable pub yield_done : Option Answer → Exec (Turn W) Unit
    unfolding chat_response done_json sse_text
    yield_done none = raise attribute_error
    yield_done (some answer) = do
      c ← gets (λ t. t.conversation)
      response ← lift (chat_response c answer)
      external (send (sse_text b.py (done_json response)))

    -- the body of the loop of `event_stream`
    unfoldable pub yield_event : StreamEvent → Exec (Turn W) Unit
    unfolding delta_json sse_text save yield_done
    yield_event event =
        if not event.done
        then external (send (sse_text b.py (delta_json event.delta)))
        else do c ← gets (λ t. t.conversation); _ ← external (save c); yield_done event.answer

    unfoldable pub send_message_streaming : ChatRequest → RequestIdentity → Exec W Unit
    unfolding current_conversation tools_for in_turn yield_event
    send_message_streaming request identity = do
      conversation ← current_conversation request identity
      _ ← in_turn conversation (
          execute_streaming b.py b.services (tools_for identity) b.settings.router_max_iterations
            yield_event request.message)
      pure tt

    unfoldable pub chat_stream : Caller → ChatRequest → Exec W Unit
    unfolding limited validated has_length send_message_streaming
    chat_stream caller request = do
      identity ← limited b.gate b.settings.rate_limit_chat_per_minute caller
      validated (has_length 1 2000 request.message) (send_message_streaming request identity)
