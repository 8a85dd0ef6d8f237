-- ===== src/Api/Chat/Uncited.antt =====
-- What becomes of an answer with citations that was read from the cache.
use bank_rag_bot.Prelude.{String, Bool, ◌≡◌, refl, none, some, List, ◌∷◌}
use bank_rag_bot.Prelude.Exec.{ok, raised, attribute_error}
use bank_rag_bot.Domain.{
  Answer, Cited, citation, plain, Conversation, Intent, account_balance, product_info,
  product_comparison, smalltalk, human_handoff, unknown,
}
use bank_rag_bot.Python.{Python}
use bank_rag_bot.AnswerQuestion.{cache_value, read_cached}
use bank_rag_bot.AnswerQuestion.Cached.{
  answer_to_json, answer_of_json, cited_json, plain_items, intent_of, intent_value,
}
use bank_rag_bot.Api.Chat.{chat_response, citation_fields}

intent_of-intent_value : (i : Intent) → intent_of (intent_value i) ≡ some i
unfolding intent_of
intent_of-intent_value account_balance = refl
intent_of-intent_value product_info = refl
intent_of-intent_value product_comparison = refl
intent_of-intent_value smalltalk = refl
intent_of-intent_value human_handoff = refl
intent_of-intent_value unknown = refl

abbrev pub cacheable : String → List Cited → Intent → Bool → Answer
cacheable text citations intent grounded = record {
  text = text;
  citations = citations;
  intent = intent;
  grounded = grounded;
  pending_action = none;
}

-- the answer that is read back
abbrev pub reread : Python → String → List Cited → Intent → Bool → Answer
reread py text citations intent grounded =
    cacheable text (plain_items (cited_json py citations)) intent grounded

chat_response-plain :
    (py : Python) (c : Conversation) (text : String) (first : Cited) (rest : List Cited)
    (intent : Intent) (grounded : Bool)
    → chat_response c (reread py text (first ∷ rest) intent grounded) ≡ raised attribute_error
unfolding chat_response citation_fields plain_items cited_json
chat_response-plain py c text (citation d) rest intent grounded = refl
chat_response-plain py c text (plain v) rest intent grounded = refl

-- An answer that proposes nothing is read back from the cache with its text, intent and flag, and
-- every citation of it a plain value; if it had a citation, the chat route then fails on it with an
-- `AttributeError`. The JSON codec gives back what was written.
pub read_cached-fails :
    (py : Python) (c : Conversation) (text : String) (first : Cited) (rest : List Cited)
    (intent : Intent) (grounded : Bool)
    → py.loads (py.dumps (answer_to_json py (cacheable text (first ∷ rest) intent grounded)))
      ≡ some (answer_to_json py (cacheable text (first ∷ rest) intent grounded))
    → (read_cached py (cache_value py (cacheable text (first ∷ rest) intent grounded))
        ≡ ok (reread py text (first ∷ rest) intent grounded))
      × (chat_response c (reread py text (first ∷ rest) intent grounded) ≡ raised attribute_error)
unfolding read_cached cache_value answer_to_json answer_of_json
read_cached-fails py c text first rest intent grounded json = (
  rw (json, intent_of-intent_value intent) refl,
  chat_response-plain py c text first rest intent grounded,
)
