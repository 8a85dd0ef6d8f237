-- ===== src/Python/Regex.antt =====
-- The part of Python's `re` that the program's patterns use: a backtracking matcher that gives
-- the ends of the matches at a position in the engine's order of preference, so the first is the
-- match. A position is the code point before it, if there is one, and the text after it.
use mathlib.Core.List.{flat_map, head?}
use bank_rag_bot.Prelude.{
  ℕ, zero, suc, ◌-◌, String, Bool, false, not, ◌&&◌, ◌||◌, Option, none, some, List, [], ◌∷◌, ◌++◌,
  code, leb, eqb, ltb, if◌then◌else◌, is_none,
}
use bank_rag_bot.Prelude.Text.{size, ◌<>◌, is_space}

pub record Position : Type 0 where
  pub before : Option ℕ
  pub after : String

-- `assert` is `^`, `\b` and the one-character lookbehinds: a test of the neighbours.
pub data Regex : Type 0 where
  empty : Regex
  char_class : (ℕ → Bool) → Regex
  assert : (Option ℕ → Option ℕ → Bool) → Regex
  seq alt : Regex → Regex → Regex
  star : Regex → Regex

abbrev pub next_code : String → Option ℕ
next_code String.[] = none
next_code (String.◌∷◌ c s) = some (code c)

step_class : (ℕ → Bool) → String → List Position
step_class p String.[] = []
step_class p (String.◌∷◌ c s) =
    if p (code c) then (record { before = some (code c); after = s }) ∷ [] else []

shorter : Position → Position → Bool
shorter from to = ltb (size to.after) (size from.after)

-- Greedy repetition: a round that consumes nothing ends it, so the fuel is the text's length.
repeat : ℕ → (Position → List Position) → Position → List Position
repeat zero step at = at ∷ []
repeat (suc fuel) step at =
    flat_map (λ to. let rest = repeat fuel step to in if shorter at to then rest else []) (step at)
    ++ at ∷ []

ends : Regex → Position → List Position
unfolding step_class repeat shorter
ends empty at = at ∷ []
ends (char_class p) at = step_class p at.after
ends (assert test) at = if test at.before (next_code at.after) then at ∷ [] else []
ends (seq r s) at = flat_map (ends s) (ends r at)
ends (alt r s) at = ends r at ++ ends s at
ends (star r) at = repeat (size at.after) (ends r) at

-- `pattern.match` at a position
unfoldable pub match_at : Regex → Position → Option Position
unfolding ends
match_at r at = head? (ends r at)

-- `bool(pattern.match(text))`
unfoldable pub matches : Regex → String → Bool
unfolding match_at
matches r text = not (is_none (match_at r (record { before = none; after = text })))

search_from : Regex → Option ℕ → String → Bool
search_from r before String.[] = not (is_none (match_at r (record { before = before; after = "" })))
search_from r before (String.◌∷◌ c s) =
    not (is_none (match_at r (record { before = before; after = String.◌∷◌ c s })))
    || search_from r (some (code c)) s

-- `bool(pattern.search(text))`
unfoldable pub search_in : Regex → String → Bool
unfolding search_from match_at
search_in r text = search_from r none text

-- `pattern.sub(replacement, text)` for a pattern that matches no empty text: after a match the
-- scan goes on at its end.
sub_from : ℕ → Regex → String → Option ℕ → String → String
sub_from zero r replacement before text = text
sub_from (suc fuel) r replacement before String.[] = ""
sub_from (suc fuel) r replacement before (String.◌∷◌ c s) =
    elim (match_at r (record { before = before; after = String.◌∷◌ c s })) [
      | some to ↦ replacement <> sub_from fuel r replacement to.before to.after
      | none ↦ String.◌∷◌ c (sub_from fuel r replacement (some (code c)) s)
    ]

unfoldable pub sub : Regex → String → String → String
unfolding sub_from match_at
sub r replacement text = sub_from (size text) r replacement none text

-- Ways to write patterns.
abbrev pub times : ℕ → Regex → Regex
times zero r = empty
times (suc n) r = seq r (times n r)

-- at most so many, as many as it can
abbrev pub up_to : ℕ → Regex → Regex
up_to zero r = empty
up_to (suc n) r = alt (seq r (up_to n r)) empty

-- `{lo,lo + more}`
abbrev pub between : ℕ → ℕ → Regex → Regex
between lo more r = seq (times lo r) (up_to more r)

abbrev pub literal : String → Regex
literal String.[] = empty
literal (String.◌∷◌ c s) = seq (char_class (eqb (code c))) (literal s)

abbrev pub optional : Regex → Regex
optional r = alt r empty

abbrev pub plus : Regex → Regex
plus r = seq r (star r)

abbrev pub spaces : Regex
spaces = star (char_class is_space)

-- A letter of a pattern under `IGNORECASE`, written in lower case: the ASCII pair, and the four
-- other letters that fold to `i`, `k` and `s`.
abbrev pub same_letter : ℕ → ℕ → Bool
same_letter l c =
    eqb l c
    || (leb b'a' l && leb l b'z' && eqb (l - 32) c)
    || (eqb l b'i' && (eqb c 304 || eqb c 305))
    || (eqb l b'k' && eqb c 8490)
    || (eqb l b's' && eqb c 383)

abbrev pub caseless : String → Regex
caseless String.[] = empty
caseless (String.◌∷◌ c s) = seq (char_class (same_letter (code c))) (caseless s)

-- Letters or digits by the Unicode database, or an underscore.
abbrev pub is_word : (ℕ → Bool) → ℕ → Bool
is_word is_alnum c = is_alnum c || eqb c b'_'

abbrev pub is_word_at : (ℕ → Bool) → Option ℕ → Bool
is_word_at is_alnum none = false
is_word_at is_alnum (some c) = is_word is_alnum c

-- `\b`
abbrev pub word_boundary : (ℕ → Bool) → Regex
word_boundary is_alnum = assert λ before next.
    if is_word_at is_alnum before then not (is_word_at is_alnum next) else is_word_at is_alnum next
