-- ===== src/Api/Chat/Saved.antt =====
-- What a message leaves in the store of conversations.
use mathlib.Core.Path.{subst}
use bank_rag_bot.Prelude.{ℕ, String, ◌≡◌, refl, sym, ap, ◌∙◌, Option, some, All}
use bank_rag_bot.Prelude.Exec.{Result, ok, raised, bind_result-ok, ok-inj, ◌>>=◌, lift}
use bank_rag_bot.Prelude.Triple.{
  Triple, Triple-returned, Triple-lift, Triple-bind, Outcome, Outcome-ok,
}
use bank_rag_bot.Domain.{Answer, Conversation, ConversationTurn}
use bank_rag_bot.Redis.{Redis}
use bank_rag_bot.Access.{RequestIdentity}
use bank_rag_bot.Conversations.{key, save_text, serialize}
use bank_rag_bot.Conversations.RoundTrip.{load_text-save_text}
use bank_rag_bot.Conversations.Store.{get_conversation, save_conversation, read_stored}
use bank_rag_bot.Api.Chat.{
  Backend, ChatRequest, ChatResponse, send_message, answered, save, chat_response, citation_fields,
}

-- What Redis promises: `get` gives what is stored, and after a `set` that returns the value is.
pub record RedisStores {W : Type 0} (redis : Redis W) : Type 0 where
  pub value : W → String → Option String
  pub got : (k : String) (s : W) → (redis.get k s).0 ≡ ok (value s k)
  pub was_set :
      (k v : String) (ttl_seconds : ℕ) (s : W)
      → (redis.set k v ttl_seconds s).0 ≡ ok tt
      → value (redis.set k v ttl_seconds s).1 k ≡ some v

chat_response-id :
    (c : Conversation) (answer : Answer) (response : ChatResponse)
    → chat_response c answer ≡ ok response
    → (c.id ≡ response.conversation_id) × (answer.text ≡ response.answer)
unfolding chat_response
chat_response-id c answer response h =
    let (citations, read, made) = bind_result-ok (citation_fields answer.citations) _ response h in
    (ap (λ r. r.conversation_id) (ok-inj _ _ made), ap (λ r. r.answer) (ok-inj _ _ made))

module _ {Score W : Type 0} (b : Backend Score W) (law : RedisStores b.redis) where
  text_of : Conversation → String
  text_of c = save_text b.isoformat b.fromisoformat b.py c

  -- the conversation's text is stored under its id
  IsStored : Conversation → W → Type 0
  IsStored c s = law.value s (key c.id) ≡ some (text_of c)

  Triple-save :
      (c : Conversation)
      → Triple (λ (s : W). Unit {0}) (save b c) (λ _. IsStored c) (λ (s : W). Unit {0})
  unfolding save save_conversation IsStored text_of
  Triple-save c = Triple-returned _ (λ s a p e. law.was_set _ _ _ s e)

  -- what `send_message` returns and leaves, from what the use case answered and left
  Left : Result (Answer × Conversation) → ChatResponse → W → Type 0
  Left r response s =
      (a : Answer) × (c : Conversation) × (r ≡ ok (a, c))
      × (c.id ≡ response.conversation_id)
      × (a.text ≡ response.answer)
      × IsStored c s

  Triple-send_message :
      (request : ChatRequest) (identity : RequestIdentity) (s : W)
      → Triple
          (λ t. t ≡ s)
          (send_message b request identity)
          (Left (answered b request identity s).0)
          (λ (t : W). Unit {0})
  unfolding send_message Left
  Triple-send_message request identity s =
      Triple-bind {Q = λ turn _. (answered b request identity s).0 ≡ ok turn} _ _
        (Triple-returned _
          (λ t turn same e. ap (λ u. (answered b request identity u).0) (sym same) ∙ e))
        (λ turn.
          Triple-bind {Q = λ _ t. ((answered b request identity s).0 ≡ ok turn) × IsStored turn.1 t}
            _ _ (record { at = λ t e. kept turn e _ _ ((Triple-save turn.1).at t tt) })
            (λ _.
              Triple-lift _
                (λ response t e q.
                  let (named, told) = chat_response-id turn.1 turn.0 response e in
                  (turn.0, turn.1, q.0, named, told, q.1))
                (λ t q. tt)))
    where
      kept :
          (turn : Answer × Conversation)
          → (answered b request identity s).0 ≡ ok turn
          → (r : Result (Unit {0})) (t : W)
          → Outcome (λ _. IsStored turn.1) (λ (u : W). Unit {0}) r t
          → Outcome
              (λ _ u. ((answered b request identity s).0 ≡ ok turn) × IsStored turn.1 u)
              (λ (u : W). Unit {0})
              r
              t
      kept turn e (ok u) t q = (e, q)
      kept turn e (raised x) t q = tt

  read-IsStored :
      (c : Conversation) (s : W)
      → b.py.loads (b.py.dumps (serialize b.isoformat b.fromisoformat c))
        ≡ some (serialize b.isoformat b.fromisoformat c)
      → All
          (λ (t : ConversationTurn). b.fromisoformat (b.isoformat t.timestamp) ≡ some t.timestamp)
          c.turns
      → IsStored c s
      → (get_conversation b.redis b.py b.isoformat b.fromisoformat c.id s).0 ≡ ok (some c)
  unfolding get_conversation read_stored IsStored text_of ◌>>=◌ lift
  read-IsStored c s json dates stored =
      rw
        (
          law.got (key c.id) s,
          stored,
          load_text-save_text b.isoformat b.fromisoformat b.py c json dates,
        )
        refl

  -- If the use case answers `a` and leaves the conversation `c`, and the request is responded to,
  -- then the response has the text of `a`, and the next request with the id of the response finds
  -- `c`, its pending action included. Redis gives back what was stored, the JSON codec the text of
  -- `c`, and ISO 8601 the times of its turns.
  pub send_message-stored :
      (request : ChatRequest) (identity : RequestIdentity) (s : W) (response : ChatResponse)
      (a : Answer) (c : Conversation)
      → b.py.loads (b.py.dumps (serialize b.isoformat b.fromisoformat c))
        ≡ some (serialize b.isoformat b.fromisoformat c)
      → All
          (λ (t : ConversationTurn). b.fromisoformat (b.isoformat t.timestamp) ≡ some t.timestamp)
          c.turns
      → (answered b request identity s).0 ≡ ok (a, c)
      → (send_message b request identity s).0 ≡ ok response
      → (a.text ≡ response.answer)
        × ((get_conversation b.redis b.py b.isoformat b.fromisoformat response.conversation_id
              (send_message b request identity s).1).0
            ≡ ok (some c))
  unfolding Left
  send_message-stored request identity s response a c json dates turn h =
      let (a', c', turn', named, told, stored) =
        Outcome-ok (Left (answered b request identity s).0) (λ (t : W). Unit {0}) _ _ response h
          ((Triple-send_message request identity s).at s refl) in
      let same = ok-inj (a', c') (a, c) (sym turn' ∙ turn) in
      let mine : c' ≡ c = ap (λ x. x.1) same in
      (
        ap (λ x. x.0.text) (sym same) ∙ told,
        subst
            (λ id.
              (get_conversation b.redis b.py b.isoformat b.fromisoformat id
                (send_message b request identity s).1).0
              ≡ ok (some c))
            (ap (λ d. d.id) (sym mine) ∙ named)
            (read-IsStored c _ json dates
              (subst (λ d. IsStored d (send_message b request identity s).1) mine stored)),
      )
