-- ===== src/Prelude/Sorting.antt =====
-- Python's `sorted(…, key=…, reverse=True)`: a stable sort, largest key first.
pub mod Descending
use mathlib.Core.Bool.{Bool}
use mathlib.Core.List.{List, [], ◌∷◌}
use mathlib.Core.Logic.{◌⊎◌, inl, inr}
use native.Mathlib.Omega.{arith}
use bank_rag_bot.Prelude.Tests.{if◌then◌else◌}
use bank_rag_bot.Prelude.Lists.{Elem}

module _ {A Key : Type 0} (less : Key → Key → Bool) (key : A → Key) where
  -- An element goes before the first that is less; the equal ones stay ahead of it.
  unfoldable pub insert_desc : A → List A → List A
  insert_desc x [] = x ∷ []
  insert_desc x (y ∷ ys) = if less (key y) (key x) then x ∷ y ∷ ys else y ∷ insert_desc x ys

  unfoldable pub sort_onto : List A → List A → List A
  sort_onto acc [] = acc
  sort_onto acc (x ∷ xs) = sort_onto (insert_desc x acc) xs

  unfoldable pub sort_desc : List A → List A
  unfolding sort_onto insert_desc
  sort_desc xs = sort_onto [] xs

  pub Elem-insert_desc : (a x : A) (ys : List A) → Elem a (insert_desc x ys) → Elem a (x ∷ ys)
  unfolding insert_desc
  Elem-insert_desc a x [] m = m
  Elem-insert_desc a x (y ∷ ys) m = ground (arith, Elem-insert_desc a x ys)

  Elem-sort_onto : (a : A) (xs acc : List A) → Elem a (sort_onto acc xs) → Elem a acc ⊎ Elem a xs
  unfolding sort_onto
  Elem-sort_onto a [] acc m = inl m
  Elem-sort_onto a (x ∷ xs) acc m = elim (Elem-sort_onto a xs (insert_desc x acc) m) [
    | inl early ↦ elim (Elem-insert_desc a x acc early) [ inl e ↦ inr (inl e) | inr k ↦ inl k ]
    | inr late ↦ inr (inr late)
  ]

  pub Elem-sort_desc : (a : A) (xs : List A) → Elem a (sort_desc xs) → Elem a xs
  unfolding sort_desc
  Elem-sort_desc a xs m = elim (Elem-sort_onto a xs [] m) [
    | inl none_yet ↦ absurd none_yet
    | inr k ↦ k
  ]
