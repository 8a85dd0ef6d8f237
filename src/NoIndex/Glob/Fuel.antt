-- ===== src/NoIndex/Glob/Fuel.antt =====
-- The compilation of a pattern takes as much fuel as the pattern is long.

use bank_rag_bot.Prelude.{ℕ, zero, suc, ◌≤◌, String, ◌≡◌, refl, arith, some, Option-cases, inl, inr}
use bank_rag_bot.Prelude.Text.{size}
use bank_rag_bot.NoIndex.Glob.{compile, close_from, set_skip, tokens}

-- what stands behind the set is no longer than the text
size-close_from-le :
    (skip : ℕ) (s inside behind : String)
    → close_from skip s ≡ some (inside, behind)
    → size behind ≤ size s
unfolding close_from
size-close_from-le skip String.[] inside behind h = absurd (ground arith)
size-close_from-le (suc skip) (String.◌∷◌ c s) inside behind h =
    elim (Option-cases (close_from skip s)) [
      | inl open_set ↦ absurd (ground arith)
      | inr ((a, b), closed) ↦ let shorter = size-close_from-le skip s a b closed in ground arith
    ]
size-close_from-le zero (String.◌∷◌ c s) inside behind h = elim (Option-cases (close_from zero s)) [
  | inl open_set ↦ ground arith
  | inr ((a, b), closed) ↦ let shorter = size-close_from-le zero s a b closed in ground arith
]

-- Fuel beyond the pattern's length changes nothing.
compile_fuel :
    (f g : ℕ) (pattern : String)
    → size pattern ≤ f
    → size pattern ≤ g
    → compile f pattern ≡ compile g pattern
unfolding compile
compile_fuel zero zero pattern h k = refl
compile_fuel zero (suc g) String.[] h k = refl
compile_fuel (suc f) zero String.[] h k = refl
compile_fuel (suc f) (suc g) String.[] h k = refl
compile_fuel zero (suc g) (String.◌∷◌ c s) h k = absurd (omega (arith, h))
compile_fuel (suc f) zero (String.◌∷◌ c s) h k = absurd (omega (arith, k))
compile_fuel (suc f) (suc g) (String.◌∷◌ c s) h k =
    let same = compile_fuel f g s (omega (arith, h)) (omega (arith, k)) in
    elim (Option-cases (close_from (set_skip s) s)) [
      | inl open_set ↦ ground (arith, same)
      | inr ((inside, behind), closed) ↦
          let shorter = size-close_from-le (set_skip s) s inside behind closed in
          let after =
            compile_fuel f g behind (omega (arith, h, shorter)) (omega (arith, k, shorter)) in
          ground (arith, same, after)
    ]

-- The tokens of a pattern do not depend on the fuel of their compilation, if it is at least the
-- pattern's length, which is what the matching gives.
pub compile-tokens :
    (fuel : ℕ) (pattern : String) → size pattern ≤ fuel → compile fuel pattern ≡ tokens pattern
unfolding tokens
compile-tokens fuel pattern h = compile_fuel fuel (size pattern) pattern h (omega arith)
