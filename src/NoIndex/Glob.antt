-- ===== src/NoIndex/Glob.antt =====
-- `fnmatch.fnmatch` on a system whose file names keep their case: `*`, `?`, `[…]`, `[!…]`. The
-- pattern is compiled to tokens, as `fnmatch.translate` does, and matched against the whole text.
pub mod Fuel
pub mod Literal
use bank_rag_bot.Prelude.{
  ℕ, zero, suc, String, Bool, true, false, not, ◌&&◌, ◌||◌, Option, none, some, List, [], ◌∷◌, code,
  eqb, leb, if◌then◌else◌, ◌≡◌, refl,
}
use bank_rag_bot.Prelude.Text.{size}

pub data Token : Type 0 where
  any_run any_char : Token
  exact : ℕ → Token
  -- a set of ranges, and whether it is negated
  one_of : Bool → List (ℕ × ℕ) → Token

-- `c-d` is a range unless the `-` stands first or last in the set.
ranges : String → List (ℕ × ℕ)
ranges String.[] = []
ranges (String.◌∷◌ c String.[]) = (code c, code c) ∷ []
ranges (String.◌∷◌ c (String.◌∷◌ d String.[])) = (code c, code c) ∷ (code d, code d) ∷ []
ranges (String.◌∷◌ c (String.◌∷◌ d (String.◌∷◌ e s))) =
    let range = (code c, code e) ∷ ranges s in
    let single = (code c, code c) ∷ ranges (String.◌∷◌ d (String.◌∷◌ e s)) in
    if eqb (code d) b'-' then range else single

-- The text before the first `]` after `skip` characters, and the text behind it.
close_from : ℕ → String → Option (String × String)
close_from skip String.[] = none
close_from (suc skip) (String.◌∷◌ c s) = elim (close_from skip s) [
  | none ↦ none
  | some (a, b) ↦ some (String.◌∷◌ c a, b)
]
close_from zero (String.◌∷◌ c s) =
    let more : Option (String × String) = elim (close_from zero s) [
      | none ↦ none
      | some (a, b) ↦ some (String.◌∷◌ c a, b)
    ] in
    if eqb (code c) b']' then some ("", s) else more

abbrev first_is : ℕ → String → Bool
first_is k String.[] = false
first_is k (String.◌∷◌ c s) = eqb (code c) k

abbrev rest_of : String → String
rest_of String.[] = ""
rest_of (String.◌∷◌ c s) = s

-- A `]` that stands first in the set, after `!` or not, is a member.
set_skip : String → ℕ
set_skip s =
    if first_is b'!' s
    then if first_is b']' (rest_of s) then 2 else 1
    else if first_is b']' s
    then 1
    else 0

set_token : String → Token
unfolding ranges
set_token s = if first_is b'!' s then one_of true (ranges (rest_of s)) else one_of false (ranges s)

unfoldable pub compile : ℕ → String → List Token
unfolding set_token close_from set_skip
compile zero pattern = []
compile (suc fuel) String.[] = []
compile (suc fuel) (String.◌∷◌ c s) =
    let rest = compile fuel s in
    let set : List Token = elim (close_from (set_skip s) s) [
      | none ↦ exact b'[' ∷ rest
      | some (inside, behind) ↦ set_token inside ∷ compile fuel behind
    ] in
    if eqb (code c) b'*'
    then any_run ∷ rest
    else if eqb (code c) b'?'
    then any_char ∷ rest
    else if eqb (code c) b'['
    then set
    else exact (code c) ∷ rest

-- Each round takes a character of the pattern, so its length is fuel enough.
unfoldable pub tokens : String → List Token
unfolding compile
tokens pattern = compile (size pattern) pattern

in_ranges : ℕ → List (ℕ × ℕ) → Bool
in_ranges c [] = false
in_ranges c ((lo, hi) ∷ rs) = (leb lo c && leb c hi) || in_ranges c rs

unfoldable pub accepts : Token → ℕ → Bool
unfolding in_ranges
accepts any_run c = true
accepts any_char c = true
accepts (exact k) c = eqb k c
accepts (one_of true rs) c = not (in_ranges c rs)
accepts (one_of false rs) c = in_ranges c rs

-- Some end of `s` matches the tokens behind a `*`.
some_suffix : (String → Bool) → String → Bool
some_suffix rest String.[] = rest ""
some_suffix rest (String.◌∷◌ c s) = rest (String.◌∷◌ c s) || some_suffix rest s

match_one : Token → (String → Bool) → String → Bool
match_one token rest String.[] = false
match_one token rest (String.◌∷◌ c s) = accepts token (code c) && rest s

match_empty : String → Bool
match_empty String.[] = true
match_empty (String.◌∷◌ c s) = false

unfoldable pub match_tokens : List Token → String → Bool
unfolding some_suffix match_one match_empty accepts
match_tokens [] s = match_empty s
match_tokens (any_run ∷ ts) s = some_suffix (match_tokens ts) s
match_tokens (any_char ∷ ts) s = match_one any_char (match_tokens ts) s
match_tokens (exact k ∷ ts) s = match_one (exact k) (match_tokens ts) s
match_tokens (one_of negated rs ∷ ts) s = match_one (one_of negated rs) (match_tokens ts) s

unfoldable pub fnmatch : String → String → Bool
unfolding tokens match_tokens
fnmatch name pattern = match_tokens (tokens pattern) name

fnmatch_tests :
    (fnmatch "https://x/promo/a" "https://x/promo/*" ≡ true)
    × (fnmatch "Tassi!2-51" "Tassi!*" ≡ true)
    × (fnmatch "b7" "[!a-a]?" ≡ true)
    × (fnmatch "a7" "[!a-a]?" ≡ false)
    × (fnmatch "[x" "[x" ≡ true)
    × (fnmatch "]" "[]-]" ≡ true)
unfolding fnmatch
fnmatch_tests = (refl, refl, refl, refl, refl, refl)
