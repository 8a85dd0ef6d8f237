-- ===== src/Conversations/RoundTrip.antt =====
-- A conversation is read back as it was written, its pending action included.
use bank_rag_bot.Prelude.{ℕ, String, Bool, ◌≡◌, refl, ap, Option, none, some, List, [], ◌∷◌, All}
use bank_rag_bot.Prelude.Exec.{ok}
use bank_rag_bot.Domain.{Arguments, Conversation, ConversationTurn, PendingAction}
use bank_rag_bot.Python.{Python}
use bank_rag_bot.Conversations.{
  arguments_json, arguments_of, pending_json, pending_of, read_pending, turns_json, turns_of,
  turn_json, read_turn, serialize, deserialize, save_text, load_text, load_parsed, item,
  item_or_null, optional_text, as_optional_text,
}

arguments_of-arguments_json : (a : Arguments) → arguments_of (arguments_json a) ≡ a
unfolding arguments_of arguments_json
arguments_of-arguments_json [] = refl
arguments_of-arguments_json (x ∷ xs) = ap (◌∷◌ x) (arguments_of-arguments_json xs)

pending_of-pending_json : (p : Option PendingAction) → pending_of (pending_json p) ≡ ok p
unfolding pending_json read_pending item
pending_of-pending_json none = refl
pending_of-pending_json (some p) =
    ap
      (λ a. ok (
        some (record {
          tool_name = p.tool_name;
          arguments = a;
          confirmation_prompt = p.confirmation_prompt;
        })))
      (arguments_of-arguments_json p.arguments)

optional_text-read : (o : Option String) → as_optional_text (optional_text o) ≡ ok o
unfolding optional_text
optional_text-read none = refl
optional_text-read (some s) = refl

module _ (isoformat : ℕ → String) (fromisoformat : String → Option ℕ) where
  -- The turn's time is written so that it is read back.
  abbrev IsDated : ConversationTurn → Type 0
  IsDated t = fromisoformat (isoformat t.timestamp) ≡ some t.timestamp

  turns_of-turns_json :
      (ts : List ConversationTurn)
      → All IsDated ts
      → turns_of isoformat fromisoformat (turns_json isoformat fromisoformat ts) ≡ ok ts
  unfolding turns_of turns_json turn_json read_turn item
  turns_of-turns_json [] h = refl
  turns_of-turns_json (t ∷ ts) (h, hs) = rw (h, turns_of-turns_json ts hs) refl

  deserialize-serialize :
      (id : String) (customer_id : Option String) (is_authenticated : Bool)
      (turns : List ConversationTurn) (pending_action : Option PendingAction)
      → All IsDated turns
      → let c : Conversation = record {
        id = id;
        customer_id = customer_id;
        is_authenticated = is_authenticated;
        turns = turns;
        pending_action = pending_action;
      } in
        deserialize isoformat fromisoformat (serialize isoformat fromisoformat c) ≡ ok c
  unfolding deserialize serialize item item_or_null optional_text pending_json read_pending
  deserialize-serialize id none b turns none h = rw (turns_of-turns_json turns h) refl
  deserialize-serialize id (some c) b turns none h = rw (turns_of-turns_json turns h) refl
  deserialize-serialize id none b turns (some p) h =
      rw (turns_of-turns_json turns h, arguments_of-arguments_json p.arguments) refl
  deserialize-serialize id (some c) b turns (some p) h =
      rw (turns_of-turns_json turns h, arguments_of-arguments_json p.arguments) refl

  -- If the JSON codec gives back what `serialize` made, and ISO 8601 the time of each turn, then
  -- the text saved of a conversation is read back as that conversation, with its turns in order
  -- and the action that waits for a confirmation.
  pub load_text-save_text :
      (py : Python) (c : Conversation)
      → py.loads (py.dumps (serialize isoformat fromisoformat c))
        ≡ some (serialize isoformat fromisoformat c)
      → All IsDated c.turns
      → load_text isoformat fromisoformat py (save_text isoformat fromisoformat py c) ≡ ok c
  unfolding load_text save_text load_parsed
  load_text-save_text py c json h =
      rw
        (
          json,
          deserialize-serialize c.id c.customer_id c.is_authenticated c.turns c.pending_action h,
        )
        refl
