-- ===== src/Prelude/Text.antt =====
-- What the program uses of Python's `str`, over code points: strip, join, len, slices, join of
-- lines and decimal printing. `String` has its own `[]` and `∷`.
use Prim.Native.Nat.{ℕ, zero, suc, ◌+◌, ◌-◌, ◌/◌, ◌%◌, ◌≤◌}
use Prim.Native.Char.{code}
use Prim.Native.String
use Prim.Native.String.{String}
use mathlib.Core.Path.{◌≡◌, refl}
use mathlib.Core.Bool.{Bool, true, false, ◌&&◌, ◌||◌}
use mathlib.Core.List.{List, [], ◌∷◌}
use native.Mathlib.Omega.{arith}
use text.Mathlib.Text.{◌==◌}
use text.Mathlib.TextLemmas.{nil-append, cons-append}
use bank_rag_bot.Prelude.Tests.{if◌then◌else◌, leb, eqb, ltb}

infixr 65 ◌<>◌
abbrev pub ◌<>◌ : String → String → String
s <> t = String.◌++◌ s t

-- `str.isspace` of one code point, which `strip`, `split` and `\s` share.
unfoldable pub is_space : ℕ → Bool
is_space c =
    (leb 9 c && leb c 13)
    || (leb 28 c && leb c 32)
    || eqb c 133
    || eqb c 160
    || eqb c 5760
    || (leb 8192 c && leb c 8202)
    || eqb c 8232
    || eqb c 8233
    || eqb c 8239
    || eqb c 8287
    || eqb c 12288

unfoldable pub lstrip : String → String
lstrip String.[] = ""
lstrip (String.◌∷◌ c s) = let rest = lstrip s in if is_space (code c) then rest else String.◌∷◌ c s

unfoldable pub rstrip : String → String
rstrip String.[] = ""
rstrip (String.◌∷◌ c s) =
    let rest = rstrip s in if rest == "" && is_space (code c) then "" else String.◌∷◌ c rest

unfoldable pub strip : String → String
unfolding lstrip rstrip is_space
strip s = rstrip (lstrip s)

-- `len(s)`
abbrev pub size : String → ℕ
size String.[] = 0
size (String.◌∷◌ c s) = suc (size s)

-- `s[:n]` and `s[n:]`
unfoldable pub slice_to : ℕ → String → String
slice_to zero s = ""
slice_to (suc n) String.[] = ""
slice_to (suc n) (String.◌∷◌ c s) = String.◌∷◌ c (slice_to n s)

unfoldable pub slice_from : ℕ → String → String
slice_from zero s = s
slice_from (suc n) String.[] = ""
slice_from (suc n) (String.◌∷◌ c s) = slice_from n s

-- `sep.join(parts)`
unfoldable pub join : String → List String → String
join sep [] = ""
join sep (x ∷ []) = x
join sep (x ∷ y ∷ ys) = x <> sep <> join sep (y ∷ ys)

-- `needle in s`
unfoldable pub starts : String → String → Bool
starts String.[] s = true
starts (String.◌∷◌ c t) String.[] = false
starts (String.◌∷◌ c t) (String.◌∷◌ d s) = eqb (code c) (code d) && starts t s

unfoldable pub contains : String → String → Bool
unfolding starts
contains t String.[] = starts t ""
contains t (String.◌∷◌ c s) = starts t (String.◌∷◌ c s) || contains t s

abbrev digit : ℕ → String
digit n =
    if eqb n 0
    then "0"
    else if eqb n 1
    then "1"
    else if eqb n 2
    then "2"
    else if eqb n 3
    then "3"
    else if eqb n 4
    then "4"
    else if eqb n 5
    then "5"
    else if eqb n 6
    then "6"
    else if eqb n 7
    then "7"
    else if eqb n 8
    then "8"
    else "9"

show_from : ℕ → ℕ → String → String
show_from zero n acc = acc
show_from (suc fuel) n acc =
    let more = show_from fuel (n / 10) (digit (n % 10) <> acc) in
    if ltb n 10 then digit n <> acc else more

-- `str(n)` of an int that is not negative; `n + 1` rounds are enough for its digits.
unfoldable pub show : ℕ → String
unfolding show_from
show n = show_from (n + 1) n ""

pub size-append : (s t : String) → size (s <> t) ≡ size s + size t
size-append String.[] t = simp nil-append (omega arith)
size-append (String.◌∷◌ c s) t = simp cons-append (omega (arith, size-append s t))

pub size-slice_to-le : (n : ℕ) (s : String) → size (slice_to n s) ≤ n
unfolding slice_to
size-slice_to-le zero s = omega arith
size-slice_to-le (suc n) String.[] = omega arith
size-slice_to-le (suc n) (String.◌∷◌ c s) = omega (arith, size-slice_to-le n s)

pub size-slice_from : (n : ℕ) (s : String) → size (slice_from n s) ≡ size s - n
unfolding slice_from
size-slice_from zero s = omega arith
size-slice_from (suc n) String.[] = omega arith
size-slice_from (suc n) (String.◌∷◌ c s) = omega (arith, size-slice_from n s)

pub size-lstrip-le : (s : String) → size (lstrip s) ≤ size s
unfolding lstrip
size-lstrip-le String.[] = omega arith
size-lstrip-le (String.◌∷◌ c s) = ground (arith, size-lstrip-le s)

size-if-le :
    (b : Bool) (s t : String) (n : ℕ) → size s ≤ n → size t ≤ n → size (if b then s else t) ≤ n
size-if-le true s t n h k = h
size-if-le false s t n h k = k

pub size-rstrip-le : (s : String) → size (rstrip s) ≤ size s
unfolding rstrip
size-rstrip-le String.[] = omega arith
size-rstrip-le (String.◌∷◌ c s) =
    size-if-le _ "" (String.◌∷◌ c (rstrip s)) _ (omega arith) (omega (arith, size-rstrip-le s))

pub size-strip-le : (s : String) → size (strip s) ≤ size s
unfolding strip
size-strip-le s = omega (arith, size-rstrip-le (lstrip s), size-lstrip-le s)

strip_test : (strip "  a b \n" ≡ "a b") × (show 1207 ≡ "1207") × (contains "b c" "a b c" ≡ true)
unfolding strip show contains
strip_test = (refl, refl, refl)
