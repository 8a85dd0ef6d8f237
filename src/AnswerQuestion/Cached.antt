-- ===== src/AnswerQuestion/Cached.antt =====
-- The JSON forms of an `Answer` in `execute_streaming` of answer_question.py: `answer.__dict__`
-- under `json.dumps(…, default=str)`, and `Answer(**json.loads(…))`. A `Citation` object is no
-- JSON, so `default=str` writes its text; what is read back are plain strings.
use bank_rag_bot.Prelude.{
  ℕ, String, Bool, ◌==◌, if◌then◌else◌, eqb, List, [], ◌∷◌, Option, none, some,
}
use bank_rag_bot.Prelude.Exec.{Result, ok, raised, type_error}
use bank_rag_bot.Domain.{
  Json, null, bool, str, arr, obj, Items, nil, cons, end, field, Intent, account_balance,
  product_info, product_comparison, smalltalk, human_handoff, unknown, Answer, Cited, citation,
  plain, PendingAction,
}
use bank_rag_bot.Python.{Python}
use bank_rag_bot.Agents.Router.Texts.{get_field, count_fields}

-- `Intent` is a `str`, so `json.dumps` writes its value.
abbrev pub intent_value : Intent → String
intent_value account_balance = "account_balance"
intent_value product_info = "product_info"
intent_value product_comparison = "product_comparison"
intent_value smalltalk = "smalltalk"
intent_value human_handoff = "human_handoff"
intent_value unknown = "unknown"

unfoldable pub intent_of : String → Option Intent
intent_of s =
    if s == "account_balance"
    then some account_balance
    else if s == "product_info"
    then some product_info
    else if s == "product_comparison"
    then some product_comparison
    else if s == "smalltalk"
    then some smalltalk
    else if s == "human_handoff"
    then some human_handoff
    else if s == "unknown"
    then some unknown
    else none

unfoldable pub cited_json : Python → List Cited → Items
cited_json py [] = nil
cited_json py (citation c ∷ cs) = cons (str (py.repr_citation c)) (cited_json py cs)
cited_json py (plain v ∷ cs) = cons v (cited_json py cs)

abbrev pending_json : Python → Option PendingAction → Json
pending_json py none = null
pending_json py (some p) = str (py.repr_pending p)

unfoldable pub answer_to_json : Python → Answer → Json
unfolding cited_json
answer_to_json py a = obj (
    field "text" (str a.text) (
      field "citations" (arr (cited_json py a.citations)) (
        field "intent" (str (intent_value a.intent)) (
          field "grounded" (bool a.grounded)
            (field "pending_action" (pending_json py a.pending_action) end)))))

unfoldable pub plain_items : Items → List Cited
plain_items nil = []
plain_items (cons v vs) = plain v ∷ plain_items vs

build : String → Items → Bool → Option Intent → Result Answer
unfolding plain_items
build text items grounded none = raised type_error
build text items grounded (some intent) = ok (record {
  text = text;
  citations = plain_items items;
  intent = intent;
  grounded = grounded;
  pending_action = none;
})

-- The constructor's keywords, by value. Python checks no types here; a value of another type than
-- `answer_to_json` writes is taken as a `TypeError`.
from_values : Option Json → Option Json → Option Json → Option Json → Option Json → Result Answer
unfolding build intent_of
from_values (some (str text)) (some (arr items)) (some (str intent)) (some (bool grounded)) none =
    build text items grounded (intent_of intent)
from_values (some (str text)) (some (arr items)) (some (str intent)) (some (bool grounded))
      (some null) =
    build text items grounded (intent_of intent)
from_values _ _ _ _ _ = raised type_error

-- four keywords, and `pending_action`, which has a default
abbrev expected_fields : Option Json → ℕ
expected_fields none = 4
expected_fields (some v) = 5

unfoldable pub answer_of_json : Json → Result Answer
unfolding from_values get_field
answer_of_json (obj fs) =
    if eqb (count_fields fs) (expected_fields (get_field "pending_action" fs))
    then from_values (get_field "text" fs) (get_field "citations" fs) (get_field "intent" fs)
        (get_field "grounded" fs) (get_field "pending_action" fs)
    else raised type_error
answer_of_json v = raised type_error
