-- ===== src/Tests/Chat.antt =====
-- The chat routes at concrete inputs.
use bank_rag_bot.Prelude.{ℕ, String, true, false, ◌≡◌, refl, Option, none, some, [], ◌∷◌, All}
use bank_rag_bot.Prelude.Exec.{ok, raised, service, attribute_error, ◌>>=◌, calling}
use bank_rag_bot.Prelude.Triple.{Outcome}
use bank_rag_bot.Prelude.Text.{strip}
use bank_rag_bot.Domain
use bank_rag_bot.Domain.{
  Answer, Conversation, ConversationTurn, Citation, Cited, citation, unknown, product_info, add,
  Json, obj, end, history_as_messages,
}
use bank_rag_bot.Python.{Python}
use bank_rag_bot.Ports.{Services}
use bank_rag_bot.Redis.{Redis}
use bank_rag_bot.Settings.{default_settings}
use bank_rag_bot.Access.{anonymous}
use bank_rag_bot.Agents.Tool.{Tool}
use bank_rag_bot.Agents.Turn.{draw, external, log_call}
use bank_rag_bot.Agents.Guardrails.{is_in_scope, verdict}
use bank_rag_bot.AnswerQuestion.{
  execute_streaming, execute, fixed_answer, out_of_scope_message, read_cached, cache_value,
  document_ids,
}
use bank_rag_bot.AnswerQuestion.Events.Done.{
  keep_event, IsDelta, IsWhole, execute_streaming-IsWhole,
}
use bank_rag_bot.AnswerQuestion.Cached.{answer_to_json}
use bank_rag_bot.Conversations.{serialize}
use bank_rag_bot.Conversations.Store.{get_conversation}
use bank_rag_bot.Api.Chat.{
  Backend, ChatRequest, ChatResponse, answered, send_message, chat_response, opened,
}
use bank_rag_bot.Api.Chat.Saved.{RedisStores, send_message-stored}
use bank_rag_bot.Api.Chat.Uncited.{cacheable, reread, read_cached-fails}

-- The world is what Redis holds at the one key that is used.
abbrev Shelf : Type 0
Shelf = Option String

abbrev shelf : Redis Shelf
shelf = record { get = λ k s. (ok s, s); set = λ k v ttl s. (ok tt, some v) }

shelf-RedisStores : RedisStores shelf
shelf-RedisStores = record { value = λ s k. s; got = λ k s. refl; was_set = λ k v ttl s e. refl }

-- every guardrail hears `false`, so that every question is out of scope
abbrev refusing : Services Shelf
refusing = record {
  complete = λ prompt messages s.
      (ok (record { content = some "false"; tool_calls = []; finish_reason = "stop" }), s);
  stream_complete =
      λ prompt messages schemas s. (record { chunks = []; failure = some (service "no reply") }, s);
  mask = λ t. t;
  cache_get = λ key s. (ok none, s);
  cache_set = λ key value ttl s. (ok tt, s);
  record_audit = λ entry s. (ok tt, s);
  uuid4 = λ s. ("c", s);
  now = λ s. (5, s);
}

abbrev left : Conversation
left = record {
  id = "c";
  customer_id = none;
  is_authenticated = false;
  turns =
      (record { role = "user"; content = "Che tempo fa?"; timestamp = 5 })
      ∷ (record { role = "assistant"; content = out_of_scope_message; timestamp = 5 })
      ∷ [];
  pending_action = none;
}

abbrev py : Python
py = record {
  lower = λ s. s;
  is_alnum = λ c. false;
  is_decimal = λ c. false;
  loads = λ s. some (serialize (λ t. "t") (λ s. some 5) left);
  dumps = λ v. "{…}";
  format = λ v. "";
  repr_citation = λ c. "";
  repr_pending = λ p. "";
  sha256_hexdigest = λ s. s;
}

abbrev locator : Tool Shelf
locator = record {
  name = "search_knowledge_base";
  description = "";
  requires_authentication = false;
  requires_confirmation = false;
  run = λ arguments s. (ok "{}", s);
}

abbrev chat : Backend ℕ Shelf
chat = record {
  py = py;
  isoformat = λ t. "t";
  fromisoformat = λ s. some 5;
  gate = record {
    counters = record { incr = λ k s. (ok 1, s); expire = λ k seconds s. (ok tt, s) };
    jwt_decode = λ token. raised (service "bad");
    explain = λ e. "";
  };
  redis = shelf;
  services = refusing;
  search_tool = λ allowed. locator;
  branches = [];
  bank = record {
    get_account_balance = λ customer account s. (ok Domain.null, s);
    lock_card = λ customer card s. (ok Domain.null, s);
  };
  settings = default_settings "sk-1" "https://core" "service" "secret";
}

abbrev request : ChatRequest
request = record { conversation_id = none; message = "Che tempo fa?" }

abbrev response : ChatResponse
response = record {
  conversation_id = "c";
  answer = out_of_scope_message;
  citations = [];
  grounded = true;
}

send_message-stored_example :
    (out_of_scope_message ≡ out_of_scope_message)
    × ((get_conversation shelf py
          (λ t. "t")
          (λ s. some 5)
          "c"
          (send_message chat request anonymous none).1).0
        ≡ ok (some left))
unfolding answered send_message execute execute_streaming is_in_scope strip add ◌>>=◌ calling draw
    external verdict document_ids log_call
send_message-stored_example =
    send_message-stored chat shelf-RedisStores request anonymous none response
      (fixed_answer out_of_scope_message unknown) left refl (refl, (refl, tt)) refl refl

execute_streaming-IsWhole_example :
    let r = execute_streaming py refusing (locator ∷ []) 4 keep_event "Ciao" (opened left none) in
    Outcome (λ _ u. IsWhole u.sent) (λ u. All IsDelta u.sent) r.0 r.1
execute_streaming-IsWhole_example =
    execute_streaming-IsWhole py refusing (locator ∷ []) 4 "Ciao" (opened left none) refl

abbrev cited : Cited
cited = citation (record { document_id = "a.txt"; title = "A"; snippet = "2%"; score = "1.0" })

abbrev cache_python : Python
cache_python = record py {
  loads = λ s. some (answer_to_json py (cacheable "Il tasso." (cited ∷ []) product_info true));
}

read_cached-fails_example :
    (read_cached cache_python
        (cache_value cache_python (cacheable "Il tasso." (cited ∷ []) product_info true))
      ≡ ok (reread cache_python "Il tasso." (cited ∷ []) product_info true))
    × (chat_response left (reread cache_python "Il tasso." (cited ∷ []) product_info true)
        ≡ raised attribute_error)
unfolding answer_to_json
read_cached-fails_example =
    read_cached-fails cache_python left "Il tasso." cited [] product_info true refl
