-- ===== src/Ingestion/Segments/Ranges.antt =====
-- The batches of rows or lines: they are the input again, in order, and each starts where its
-- number says.
use mathlib.Core.List.{flat_map}
use bank_rag_bot.Prelude.{
  ℕ, zero, suc, ◌+◌, ◌≤◌, ◌<◌, ◌≡◌, refl, sym, ap, ◌∙◌, List, [], ◌∷◌, ◌++◌, take, drop, length,
  arith, All, length-drop, length-take-le, take-append-drop,
}
use bank_rag_bot.Ingestion.Segments.{batches, batches_from}

module _ {A : Type 0} (n : ℕ) where
  abbrev rows_of : ℕ × List A → List A
  rows_of b = b.1

  -- With as much fuel as there are rows, nothing is lost.
  flat_map-batches_from :
      (fuel start : ℕ) (rows : List A)
      → 0 < n
      → length rows ≤ fuel
      → flat_map rows_of (batches_from fuel n start rows) ≡ rows
  unfolding batches_from flat_map
  flat_map-batches_from zero start [] h k = refl
  flat_map-batches_from zero start (r ∷ rs) h k = absurd (omega arith)
  flat_map-batches_from (suc fuel) start [] h k = refl
  flat_map-batches_from (suc fuel) start (r ∷ rs) h k =
      ap (λ xs. take n (r ∷ rs) ++ xs)
        (flat_map-batches_from fuel (start + n) (drop n (r ∷ rs)) h
          (omega (arith, length-drop n (r ∷ rs))))
      ∙ take-append-drop n (r ∷ rs)

  length-take-pos : (m : ℕ) (r : A) (rs : List A) → 0 < m → 0 < length (take m (r ∷ rs))
  length-take-pos zero r rs h = absurd (omega arith)
  length-take-pos (suc m) r rs h = omega arith

  drop-nil : (m : ℕ) → drop {A = A} m [] ≡ []
  drop-nil zero = refl
  drop-nil (suc m) = refl

  drop-drop : (m k : ℕ) (xs : List A) → drop (m + k) xs ≡ drop k (drop m xs)
  drop-drop zero k xs = ap (λ i. drop i xs) (omega arith)
  drop-drop (suc m) k [] = drop-nil (suc m + k) ∙ sym (drop-nil k)
  drop-drop (suc m) k (x ∷ xs) =
      let next : suc m + k ≡ suc (m + k) = omega arith in
      ap (λ i. drop i (x ∷ xs)) next ∙ drop-drop m k xs

  batches_from-slices :
      (fuel start : ℕ) (rows whole : List A)
      → rows ≡ drop start whole
      → All (λ (b : ℕ × List A). b.1 ≡ take n (drop b.0 whole)) (batches_from fuel n start rows)
  unfolding batches_from
  batches_from-slices zero start rows whole e = tt
  batches_from-slices (suc fuel) start [] whole e = tt
  batches_from-slices (suc fuel) start (r ∷ rs) whole e = (
    ap (take n) e,
    batches_from-slices fuel (start + n) (drop n (r ∷ rs)) whole
        (ap (drop n) e ∙ sym (drop-drop start n whole)),
  )

  batches_from-sizes :
      (fuel start : ℕ) (rows : List A)
      → 0 < n
      → All
          (λ (b : ℕ × List A). (0 < length b.1) × (length b.1 ≤ n))
          (batches_from fuel n start rows)
  unfolding batches_from
  batches_from-sizes zero start rows h = tt
  batches_from-sizes (suc fuel) start [] h = tt
  batches_from-sizes (suc fuel) start (r ∷ rs) h = (
    (length-take-pos n r rs h, length-take-le n (r ∷ rs)),
    batches_from-sizes fuel (start + n) (drop n (r ∷ rs)) h,
  )

  -- For a batch size over 0, the batches put together are the rows again, in their order; each
  -- has at least one row and at most that many, and is the slice at the number it has.
  pub batches-partition :
      (rows : List A)
      → 0 < n
      → (flat_map (λ (b : ℕ × List A). b.1) (batches n rows) ≡ rows)
        × All (λ (b : ℕ × List A). (0 < length b.1) × (length b.1 ≤ n)) (batches n rows)
        × All (λ (b : ℕ × List A). b.1 ≡ take n (drop b.0 rows)) (batches n rows)
  unfolding batches
  batches-partition rows h = (
    flat_map-batches_from (length rows) 0 rows h (omega arith),
    batches_from-sizes (length rows) 0 rows h,
    batches_from-slices (length rows) 0 rows rows refl,
  )
