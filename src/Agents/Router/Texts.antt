-- ===== src/Agents/Router/Texts.antt =====
-- The static methods of `RouterAgent`: the smalltalk pattern, the confirmation prompt, and the
-- citations in a search result.
use bank_rag_bot.Prelude.{
  ℕ, zero, suc, String, Bool, false, ◌==◌, if◌then◌else◌, List, [], ◌∷◌, Option, none, some,
  is_none, code, eqb, map,
}
use bank_rag_bot.Prelude.Text.{◌<>◌, join}
use bank_rag_bot.Prelude.Exec.{Result, ok, raised, type_error, attribute_error, bind_result}
use bank_rag_bot.Domain.{
  Json, str, number, arr, obj, Items, nil, cons, Fields, end, field, Arguments, Cited, citation,
}
use bank_rag_bot.Python.{Python}
use bank_rag_bot.Python.Regex.{Regex, alt, seq, assert, spaces, caseless, word_boundary, matches}
use bank_rag_bot.Agents.Tool.{Tool}

abbrev pub fallback_text : String
fallback_text = "Non ho questa informazione, ti metto in contatto con un operatore."

abbrev any_of : List Regex → Regex
any_of [] = assert (λ before next. false)
any_of (r ∷ rs) = alt r (any_of rs)

-- `_SMALLTALK_PATTERN`
unfoldable pub smalltalk_pattern : Python → Regex
smalltalk_pattern py =
    let day = any_of (caseless "giorno" ∷ caseless "asera" ∷ caseless "anotte" ∷ []) in
    let verb = any_of (caseless "posso" ∷ caseless "ti" ∷ []) in
    let help = any_of (
      seq (caseless "aiutart") (any_of (caseless "i" ∷ caseless "e" ∷ []))
      ∷ caseless "aiutare"
      ∷ []) in
    let opening = any_of (
      caseless "ciao"
      ∷ caseless "salve"
      ∷ seq (caseless "buon") day
      ∷ caseless "grazie"
      ∷ caseless "prego"
      ∷ caseless "arrivederci"
      ∷ seq (caseless "come ") (seq verb (seq (caseless " ") help))
      ∷ []) in
    seq (assert (λ before next. is_none before))
      (seq spaces (seq opening (word_boundary py.is_alnum)))

unfoldable pub is_smalltalk : Python → String → Bool
unfolding smalltalk_pattern matches
is_smalltalk py text = matches (smalltalk_pattern py) text

-- `text.split('.')[0]`, which holds no dot, so the `rstrip('.')` after it changes nothing
unfoldable pub before_dot : String → String
before_dot String.[] = ""
before_dot (String.◌∷◌ c s) =
    let rest = before_dot s in if eqb (code c) b'.' then "" else String.◌∷◌ c rest

unfoldable pub build_confirmation_text : {W : Type 0} → Python → Tool W → Arguments → String
unfolding before_dot
build_confirmation_text py tool arguments =
    let details = join ", " (map (λ kv. kv.0 <> ": " <> py.format kv.1) arguments) in
    "Prima di procedere confermo: "
    <> before_dot tool.description
    <> " ("
    <> details
    <> "). Rispondi 'sì' per confermare, oppure scrivi altro per annullare."

-- `payload.get(key)`: an object is a dict, so its keys are distinct
unfoldable pub get_field : String → Fields → Option Json
get_field key end = none
get_field key (field k v fs) = if k == key then some v else get_field key fs

abbrev pub count_fields : Fields → ℕ
count_fields end = zero
count_fields (field k v fs) = suc (count_fields fs)

abbrev text_value : Option Json → Option String
text_value (some (str s)) = some s
text_value _ = none

abbrev number_value : Option Json → Option String
number_value (some (number n)) = some n
number_value _ = none

abbrev citation_from : Option String → Option String → Option String → Option String → Result Cited
citation_from (some d) (some t) (some s) (some n) =
    ok (citation (record { document_id = d; title = t; snippet = s; score = n }))
citation_from _ _ _ _ = raised type_error

-- `Citation(**r)`: exactly the four keywords, in any order. A value that is not of the annotated
-- type, which Python would let through, is taken as a `TypeError` too.
unfoldable pub citation_of : Json → Result Cited
unfolding get_field
citation_of (obj fs) =
    if eqb (count_fields fs) 4
    then citation_from (text_value (get_field "document_id" fs)) (text_value (get_field "title" fs))
        (text_value (get_field "snippet" fs)) (number_value (get_field "score" fs))
    else raised type_error
citation_of _ = raised type_error

unfoldable pub citations_of : Items → Result (List Cited)
unfolding citation_of
citations_of nil = ok []
citations_of (cons r rs) =
    bind_result (citation_of r) (λ c. bind_result (citations_of rs) (λ cs. ok (c ∷ cs)))

-- `[Citation(**r) for r in payload.get("results", [])]`
unfoldable pub results_of : Option Json → Result (List Cited)
unfolding citations_of
results_of none = ok []
results_of (some (arr items)) = citations_of items
results_of (some (obj end)) = ok []
results_of (some (str s)) = if s == "" then ok [] else raised type_error
results_of (some v) = raised type_error

unfoldable pub payload_citations : Option Json → Result (List Cited)
unfolding results_of get_field
payload_citations none = ok []
payload_citations (some (obj fields)) = results_of (get_field "results" fields)
payload_citations (some v) = raised attribute_error

unfoldable pub extract_citations : Python → String → Result (List Cited)
unfolding payload_citations
extract_citations py tool_result_json = payload_citations (py.loads tool_result_json)
