-- ===== src/Agents/Guardrails.antt =====
-- agents/*_guardrail.py and infrastructure/llm/llm_query_rewriter.py: one call of the language
-- model each, and a verdict read from its text.
use mathlib.Core.List.{[], ◌∷◌, ◌++◌, List}
use bank_rag_bot.Prelude.{String, Bool, true, false, not, ◌||◌, ◌==◌, if◌then◌else◌, is_empty, eqb}
use bank_rag_bot.Prelude.Text.{strip, join, ◌<>◌}
use bank_rag_bot.Prelude.Exec.{
  Exec, Result, ok, raised, attribute_error, pure, lift, ◌>>=◌, bind_result,
}
use bank_rag_bot.Domain.{Message, Cited, citation, plain}
use bank_rag_bot.Python.{Python}
use bank_rag_bot.Python.Regex.{
  Regex, alt, seq, char_class, literal, plus, spaces, word_boundary, search_in,
}
use bank_rag_bot.Ports.{
  Services, LlmResponse, or_empty, confirmation, sentiment, topic, numeric_validator, query_rewrite,
}

-- `_HAS_FIGURE`
unfoldable pub figure_pattern : Python → Regex
figure_pattern py =
    let digits = plus (char_class py.is_decimal) in
    let mark = char_class (λ c. eqb c b'.' || eqb c b',') in
    let percent = seq spaces (literal "%") in
    let word = λ (w : String).
      seq (word_boundary py.is_alnum) (seq (literal w) (word_boundary py.is_alnum)) in
    let decimal = seq digits (seq mark digits) in
    alt (seq decimal percent) (
      alt (seq digits percent) (
        alt (word "TAN") (
          alt (word "TAEG") (
            alt (seq (literal "€") (seq spaces (char_class py.is_decimal)))
              (seq decimal (seq spaces (literal "€")))))))

unfoldable pub has_figure : Python → String → Bool
unfolding figure_pattern search_in
has_figure py text = search_in (figure_pattern py) text

-- `(response.content or "").strip().lower()`
unfoldable pub verdict : Python → LlmResponse → String
unfolding strip
verdict py response = py.lower (strip (or_empty response.content))

abbrev user_message : String → List Message
user_message text = (record { role = "user"; content = text }) ∷ []

-- `c.snippet for c in citations`: a plain value has no attribute `snippet`
unfoldable pub snippets : List Cited → Result (List String)
snippets [] = ok []
snippets (citation c ∷ cs) = bind_result (snippets cs) (λ rest. ok (c.snippet ∷ rest))
snippets (plain v ∷ cs) = raised attribute_error

module _ {W : Type 0} (py : Python) (sv : Services W) where
  unfoldable pub is_confirmed : String → Exec W Bool
  is_confirmed message = do
    response ← sv.complete confirmation (user_message message)
    pure (verdict py response == "true")

  unfoldable pub is_in_scope : String → Exec W Bool
  is_in_scope question = do
    response ← sv.complete topic (user_message question)
    pure (not (verdict py response == "false"))

  unfoldable pub needs_escalation : String → Exec W Bool
  needs_escalation question = do
    response ← sv.complete sentiment (user_message question)
    pure (not (verdict py response == "false"))

  ask_validator : String → List Cited → Exec W Bool
  ask_validator answer_text citations = do
    texts ← lift (snippets citations)
    response ← sv.complete numeric_validator (
        user_message (
          "TESTO DI RISPOSTA:\n"
          <> answer_text
          <> "\n\nESTRATTI SORGENTE:\n"
          <> join "\n---\n" texts))
    pure (verdict py response == "true")

  unfoldable pub is_verified : String → List Cited → Exec W Bool
  unfolding ask_validator
  is_verified answer_text citations =
      if not (has_figure py answer_text)
      then pure true
      else if is_empty citations
      then pure false
      else ask_validator answer_text citations

  -- `rewritten or question`
  unfoldable pub rewrite : List Message → String → Exec W String
  rewrite [] question = pure question
  rewrite (m ∷ ms) question = do
    response ← sv.complete query_rewrite ((m ∷ ms) ++ user_message question)
    let rewritten = strip (or_empty response.content)
    pure (if rewritten == "" then question else rewritten)
