-- ===== src/NoIndex/Glob/Literal.antt =====
-- A pattern without a wildcard matches itself alone, and `*` every text.
use text.Mathlib.TextEquality.{Char-path}
use bank_rag_bot.Prelude.{
  ℕ, String, Bool, true, not, ◌||◌, ◌≡◌, refl, ap, ◌∙◌, arith, List, [], ◌∷◌, ◌↔◌, code, eqb,
}
use bank_rag_bot.Prelude.Text.{size}
use bank_rag_bot.NoIndex.Glob.{
  Token, exact, compile, tokens, match_tokens, fnmatch, match_one, some_suffix, accepts,
  match_empty,
}

abbrev pub is_plain : ℕ → Bool
is_plain c = not (eqb c b'*' || eqb c b'?' || eqb c b'[')

-- No character of the pattern is special.
abbrev pub IsLiteral : String → Type 0
IsLiteral String.[] = Unit
IsLiteral (String.◌∷◌ c s) = (is_plain (code c) ≡ true) × IsLiteral s

codes : String → List Token
codes String.[] = []
codes (String.◌∷◌ c s) = exact (code c) ∷ codes s

compile-codes : (s : String) → IsLiteral s → compile (size s) s ≡ codes s
unfolding compile codes
compile-codes String.[] h = refl
compile-codes (String.◌∷◌ c s) (h, hs) = ground (arith, compile-codes s hs)

match_tokens-codes : (s : String) → match_tokens (codes s) s ≡ true
unfolding match_tokens codes match_one accepts match_empty
match_tokens-codes String.[] = refl
match_tokens-codes (String.◌∷◌ c s) = ground (arith, match_tokens-codes s)

codes-match_tokens : (s name : String) → match_tokens (codes s) name ≡ true → name ≡ s
unfolding match_tokens codes match_one accepts match_empty
codes-match_tokens String.[] String.[] h = refl
codes-match_tokens String.[] (String.◌∷◌ d t) h = absurd (ground arith)
codes-match_tokens (String.◌∷◌ c s) String.[] h = absurd (ground arith)
codes-match_tokens (String.◌∷◌ c s) (String.◌∷◌ d t) h =
    let rest = codes-match_tokens s t (ground arith) in
    let same : code d ≡ code c = ground arith in
    ap (λ x. String.◌∷◌ x t) (Char-path d c same) ∙ ap (String.◌∷◌ c) rest

-- A pattern without `*`, `?` and `[` matches exactly the text that it is, whatever its length.
pub fnmatch-IsLiteral :
    (name pattern : String) → IsLiteral pattern → (fnmatch name pattern ≡ true) ↔ (name ≡ pattern)
unfolding fnmatch tokens
fnmatch-IsLiteral name pattern h =
    let same = compile-codes pattern h in
    (
      λ matched. codes-match_tokens pattern name (rw (← same) matched),
      λ e. rw (e, same) (match_tokens-codes pattern),
    )

match_tokens-star : (s : String) → some_suffix (match_tokens []) s ≡ true
unfolding some_suffix match_tokens match_empty
match_tokens-star String.[] = refl
match_tokens-star (String.◌∷◌ c s) = ground (arith, match_tokens-star s)

pub fnmatch-star : (name : String) → fnmatch name "*" ≡ true
unfolding fnmatch tokens compile match_tokens
fnmatch-star name = match_tokens-star name
