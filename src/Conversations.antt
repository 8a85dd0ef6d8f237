-- ===== src/Conversations.antt =====
-- infrastructure/persistence/redis_conversation_repository.py: a conversation as the JSON text in
-- Redis, and back. `isoformat` and `fromisoformat` are arguments; a text of another shape than
-- `serialize` writes is refused with the exception that Python raises, or a `TypeError`.
pub mod RoundTrip
pub mod Store
use bank_rag_bot.Prelude.{ℕ, String, Bool, Option, none, some, List, [], ◌∷◌, ◌==◌, if◌then◌else◌}
use bank_rag_bot.Prelude.Text.{◌<>◌}
use bank_rag_bot.Prelude.Exec.{
  Result, ok, raised, bind_result, key_error, type_error, attribute_error, value_error,
  json_decode_error,
}
use bank_rag_bot.Domain.{
  Json, null, bool, str, arr, obj, Items, nil, cons, Fields, end, field, Arguments, Conversation,
  ConversationTurn, PendingAction,
}
use bank_rag_bot.Python.{Python}

unfoldable pub key : String → String
key id = "conversation:" <> id

unfoldable pub optional_text : Option String → Json
optional_text none = null
optional_text (some s) = str s

unfoldable pub arguments_json : Arguments → Fields
arguments_json [] = end
arguments_json (a ∷ rest) = field a.0 a.1 (arguments_json rest)

unfoldable pub pending_json : Option PendingAction → Json
unfolding arguments_json
pending_json none = null
pending_json (some p) = obj (
    field "tool_name" (str p.tool_name) (
      field "arguments" (obj (arguments_json p.arguments))
        (field "confirmation_prompt" (str p.confirmation_prompt) end)))

unfoldable pub arguments_of : Fields → Arguments
arguments_of end = []
arguments_of (field name v rest) = (name, v) ∷ arguments_of rest

-- `d[name]`
unfoldable pub item : String → Fields → Result Json
item name end = raised key_error
item name (field n v rest) = if n == name then ok v else item name rest

-- `d.get(name)`, where `None` and `null` are one
unfoldable pub item_or_null : String → Fields → Json
item_or_null name end = null
item_or_null name (field n v rest) = if n == name then v else item_or_null name rest

-- what `payload.get` is called on
abbrev pub as_payload : Json → Result Fields
as_payload (obj fields) = ok fields
as_payload null = raised attribute_error
as_payload (bool b) = raised attribute_error
as_payload (Json.number n) = raised attribute_error
as_payload (arr items) = raised attribute_error
as_payload (str s) = raised attribute_error

abbrev pub as_text : Json → Result String
as_text (str s) = ok s
as_text null = raised type_error
as_text (bool b) = raised type_error
as_text (Json.number n) = raised type_error
as_text (arr items) = raised type_error
as_text (obj fields) = raised type_error

abbrev pub as_object : Json → Result Fields
as_object (obj fields) = ok fields
as_object null = raised type_error
as_object (bool b) = raised type_error
as_object (Json.number n) = raised type_error
as_object (arr items) = raised type_error
as_object (str s) = raised type_error

abbrev pub as_bool : Json → Result Bool
as_bool (bool b) = ok b
as_bool null = raised type_error
as_bool (obj fields) = raised type_error
as_bool (Json.number n) = raised type_error
as_bool (arr items) = raised type_error
as_bool (str s) = raised type_error

abbrev pub as_items : Json → Result Items
as_items (arr items) = ok items
as_items null = raised type_error
as_items (bool b) = raised type_error
as_items (Json.number n) = raised type_error
as_items (obj fields) = raised type_error
as_items (str s) = raised type_error

abbrev pub as_optional_text : Json → Result (Option String)
as_optional_text null = ok none
as_optional_text (str s) = ok (some s)
as_optional_text (bool b) = raised type_error
as_optional_text (Json.number n) = raised type_error
as_optional_text (arr items) = raised type_error
as_optional_text (obj fields) = raised type_error

unfoldable pub read_pending : Fields → Result (Option PendingAction)
unfolding item arguments_of
read_pending fields = bind_result (bind_result (item "tool_name" fields) as_text) (λ tool_name.
    bind_result (bind_result (item "arguments" fields) as_object) (λ arguments.
      bind_result (bind_result (item "confirmation_prompt" fields) as_text) (λ prompt. ok (
        some (record {
          tool_name = tool_name;
          arguments = arguments_of arguments;
          confirmation_prompt = prompt;
        })))))

abbrev pub pending_of : Json → Result (Option PendingAction)
pending_of null = ok none
pending_of (obj fields) = read_pending fields
pending_of (bool b) = raised type_error
pending_of (Json.number n) = raised type_error
pending_of (arr items) = raised type_error
pending_of (str s) = raised type_error

module _ (isoformat : ℕ → String) (fromisoformat : String → Option ℕ) where
  unfoldable pub turn_json : ConversationTurn → Json
  turn_json t = obj (
      field "role" (str t.role)
        (field "content" (str t.content) (field "timestamp" (str (isoformat t.timestamp)) end)))

  unfoldable pub turns_json : List ConversationTurn → Items
  unfolding turn_json
  turns_json [] = nil
  turns_json (t ∷ ts) = cons (turn_json t) (turns_json ts)

  -- the dict that `_serialize` dumps
  unfoldable pub serialize : Conversation → Json
  unfolding turns_json optional_text pending_json
  serialize c = obj (
      field "id" (str c.id) (
        field "customer_id" (optional_text c.customer_id) (
          field "is_authenticated" (bool c.is_authenticated) (
            field "turns" (arr (turns_json c.turns))
              (field "pending_action" (pending_json c.pending_action) end)))))

  abbrev parsed_timestamp : String → Option ℕ → Result ℕ
  parsed_timestamp s none = raised (value_error s)
  parsed_timestamp s (some t) = ok t

  abbrev timestamp_of : String → Result ℕ
  timestamp_of s = parsed_timestamp s (fromisoformat s)

  unfoldable pub read_turn : Fields → Result ConversationTurn
  unfolding item
  read_turn fields = bind_result (bind_result (item "role" fields) as_text) (λ role.
      bind_result (bind_result (item "content" fields) as_text) (λ content.
        bind_result (bind_result (bind_result (item "timestamp" fields) as_text) timestamp_of)
          (λ timestamp. ok (record { role = role; content = content; timestamp = timestamp }))))

  unfoldable pub turns_of : Items → Result (List ConversationTurn)
  unfolding read_turn
  turns_of nil = ok []
  turns_of (cons j rest) =
      bind_result (bind_result (as_object j) read_turn)
        (λ t. bind_result (turns_of rest) (λ ts. ok (t ∷ ts)))

  unfoldable pub deserialize : Json → Result Conversation
  unfolding turns_of item item_or_null read_pending
  deserialize j = bind_result (as_payload j) (λ payload.
      bind_result (bind_result (item "id" payload) as_text) (λ id.
        bind_result (bind_result (item "customer_id" payload) as_optional_text) (λ customer_id.
          bind_result (bind_result (item "is_authenticated" payload) as_bool) (λ is_authenticated.
            bind_result (pending_of (item_or_null "pending_action" payload)) (λ pending_action.
              bind_result (bind_result (bind_result (item "turns" payload) as_items) turns_of)
                (λ turns. ok (record {
                  id = id;
                  customer_id = customer_id;
                  is_authenticated = is_authenticated;
                  turns = turns;
                  pending_action = pending_action;
                })))))))

  unfoldable pub save_text : Python → Conversation → String
  unfolding serialize
  save_text py c = py.dumps (serialize c)

  unfoldable pub load_parsed : Option Json → Result Conversation
  unfolding deserialize
  load_parsed none = raised json_decode_error
  load_parsed (some j) = deserialize j

  unfoldable pub load_text : Python → String → Result Conversation
  unfolding load_parsed
  load_text py raw = load_parsed (py.loads raw)
