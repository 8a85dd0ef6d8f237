-- ===== src/Masking.antt =====
-- infrastructure/security/pii_filter_regex.py and prompt_injection_sanitizer.py: tables of patterns
-- whose matches are replaced, one pattern after the other.
use bank_rag_bot.Prelude.{ℕ, String, Bool, ◌&&◌, ◌||◌, List, [], ◌∷◌, leb, eqb}
use bank_rag_bot.Python.{Python}
use bank_rag_bot.Python.Regex.{
  Regex, seq, alt, char_class, literal, caseless, same_letter, spaces, plus, optional, times,
  between, word_boundary, is_word, sub,
}
use bank_rag_bot.Prelude.Text.{is_space}
use bank_rag_bot.Ingestion.Markdown.{line_start}

abbrev is_upper : ℕ → Bool
is_upper c = leb b'A' c && leb c b'Z'

abbrev is_digit : ℕ → Bool
is_digit c = leb b'0' c && leb c b'9'

-- `[A-EHLMPRST]`
abbrev is_month_letter : ℕ → Bool
is_month_letter c =
    (leb b'A' c && leb c b'E')
    || eqb c b'H'
    || eqb c b'L'
    || eqb c b'M'
    || eqb c b'P'
    || (leb b'R' c && leb c b'T')

module _ (py : Python) where
  abbrev boundary : Regex
  boundary = word_boundary py.is_alnum

  -- `\d`
  abbrev decimal : Regex
  decimal = char_class py.is_decimal

  unfoldable pub iban_pattern : Regex
  iban_pattern = seq boundary (
      seq (times 2 (char_class is_upper)) (
        seq (times 2 decimal)
          (seq (between 11 19 (char_class (λ c. is_upper c || is_digit c))) boundary)))

  unfoldable pub card_number_pattern : Regex
  card_number_pattern = seq boundary (
      seq (between 13 6 (seq decimal (optional (char_class (λ c. eqb c b' ' || eqb c b'-')))))
        boundary)

  unfoldable pub codice_fiscale_pattern : Regex
  codice_fiscale_pattern = seq boundary (
      seq (times 6 (char_class is_upper)) (
        seq (times 2 decimal) (
          seq (char_class is_month_letter) (
            seq (times 2 decimal) (
              seq (char_class is_upper)
                (seq (times 3 decimal) (seq (char_class is_upper) boundary)))))))

  unfoldable pub email_pattern : Regex
  email_pattern =
      let dash_word = λ (c : ℕ). is_word py.is_alnum c || eqb c b'-' in
      seq boundary (
        seq (plus (char_class (λ c. dash_word c || eqb c b'.' || eqb c b'+'))) (
          seq (literal "@") (
            seq (plus (char_class dash_word)) (
              seq (literal ".")
                (seq (plus (char_class (λ c. dash_word c || eqb c b'.'))) boundary)))))

  -- `_PATTERNS`, each with its replacement
  unfoldable pub pii_patterns : List (Regex × String)
  unfolding iban_pattern card_number_pattern codice_fiscale_pattern email_pattern
  pii_patterns =
      (iban_pattern, "[REDACTED_IBAN]")
      ∷ (card_number_pattern, "[REDACTED_CARD_NUMBER]")
      ∷ (codice_fiscale_pattern, "[REDACTED_CODICE_FISCALE]")
      ∷ (email_pattern, "[REDACTED_EMAIL]")
      ∷ []

-- the loop of both classes
unfoldable pub replace_all : List (Regex × String) → String → String
unfolding sub
replace_all [] text = text
replace_all (p ∷ ps) text = replace_all ps (sub p.0 p.1 text)

unfoldable pub mask : Python → String → String
unfolding replace_all pii_patterns
mask py text = replace_all (pii_patterns py) text

abbrev pub redaction : String
redaction = "[CONTENUTO RIMOSSO: possibile tentativo di prompt injection]"

-- `\s+`
abbrev gap : Regex
gap = plus (char_class is_space)

-- two letters of a class under `IGNORECASE`
abbrev either_letter : ℕ → ℕ → Regex
either_letter a b = char_class (λ c. same_letter a c || same_letter b c)

-- `(word\s+)?`
abbrev maybe_word : String → Regex
maybe_word w = optional (seq (caseless w) gap)

unfoldable pub injection_patterns : Python → List Regex
injection_patterns py =
    seq (caseless "ignor") (
      seq (either_letter b'a' b'e') (
        seq gap (
          seq (maybe_word "le") (
            seq (caseless "istruzion") (
              seq (either_letter b'e' b'i') (
                seq gap (
                  alt (seq (caseless "precedent") (either_letter b'e' b'i'))
                    (seq (caseless "di") (seq gap (caseless "sistema"))))))))))
    ∷ seq (caseless "ignore") (
        seq gap (
          seq (maybe_word "all") (
            seq (alt (caseless "previous") (alt (caseless "prior") (caseless "above")))
              (seq gap (caseless "instructions")))))
    ∷ seq (caseless "disregard")
        (seq gap (seq (maybe_word "the") (seq (maybe_word "system") (caseless "prompt"))))
    ∷ seq (caseless "you") (
        seq gap (
          seq (caseless "are") (
            seq gap (
              seq (caseless "now") (
                seq gap (
                  seq (alt (caseless "a") (caseless "an"))
                    (seq gap (plus (char_class (is_word py.is_alnum))))))))))
    ∷ seq line_start (seq spaces (seq (caseless "system") (seq spaces (literal ":"))))
    ∷ seq (word_boundary py.is_alnum)
        (seq (caseless "dan") (seq gap (seq (caseless "mode") (word_boundary py.is_alnum))))
    ∷ seq (caseless "reveal")
        (seq gap (seq (maybe_word "your") (seq (maybe_word "system") (caseless "prompt"))))
    ∷ []

-- each pattern with the one replacement
unfoldable pub redacting : List Regex → List (Regex × String)
redacting [] = []
redacting (r ∷ rs) = (r, redaction) ∷ redacting rs

unfoldable pub sanitize : Python → String → String
unfolding replace_all redacting injection_patterns
sanitize py text = replace_all (redacting (injection_patterns py)) text
