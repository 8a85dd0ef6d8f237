-- ===== src/Prelude/Sorting/Descending.antt =====
-- A sort by numbers is in descending order, and has all that was there.
use bank_rag_bot.Prelude.Lists.{length, Elem, All, All-weaken, Elem-All, All-at}
use bank_rag_bot.Prelude.Sorting.{insert_desc, sort_onto, sort_desc, Elem-insert_desc}
use bank_rag_bot.Prelude.Tests.{ltb, if◌then◌else◌}
use Prim.Native.Nat.{ℕ, suc, ◌+◌, ◌≤◌}
use mathlib.Core.Path.{◌≡◌, refl, subst, sym}
use mathlib.Core.Bool.{Bool, true, false}
use mathlib.Core.List.{List, [], ◌∷◌}
use mathlib.Core.Logic.{◌⊎◌, inl, inr}
use native.Mathlib.Omega.{arith}

-- Each element is at least as large as all behind it.
abbrev pub IsDescending : {A : Type 0} → (A → ℕ) → List A → Type 0
IsDescending key [] = Unit
IsDescending key (x ∷ xs) = All (λ y. key y ≤ key x) xs × IsDescending key xs

module _ {A : Type 0} (key : A → ℕ) where
  All-insert_desc :
      (P : A → Type 0) (x : A) (ys : List A) → P x → All P ys → All P (insert_desc ltb key x ys)
  All-insert_desc P x ys p ps = Elem-All P _ (λ a m. elim (Elem-insert_desc ltb key a x ys m) [
    | inl same ↦ subst P (sym same) p
    | inr inside ↦ All-at P ys a ps inside
  ])

  placed :
      (x y : A) (ys : List A) (b : Bool)
      → ltb (key y) (key x) ≡ b
      → All (λ z. key z ≤ key y) ys
      → IsDescending key ys
      → IsDescending key (insert_desc ltb key x ys)
      → IsDescending key (if b then x ∷ y ∷ ys else y ∷ insert_desc ltb key x ys)
  placed x y ys true less h hs rest =
      let below : key y ≤ key x = ground arith in
      ((below, All-weaken (λ z. key z ≤ key y) _ (λ z k. omega (arith, k, below)) ys h), (h, hs))
  placed x y ys false more h hs rest =
      (All-insert_desc (λ z. key z ≤ key y) x ys (ground arith) h, rest)

  insert_desc-IsDescending :
      (x : A) (ys : List A) → IsDescending key ys → IsDescending key (insert_desc ltb key x ys)
  unfolding insert_desc
  insert_desc-IsDescending x [] h = (tt, tt)
  insert_desc-IsDescending x (y ∷ ys) (h, hs) =
      placed x y ys (ltb (key y) (key x)) refl h hs (insert_desc-IsDescending x ys hs)

  length-insert_desc : (x : A) (ys : List A) → length (insert_desc ltb key x ys) ≡ suc (length ys)
  unfolding insert_desc
  length-insert_desc x [] = refl
  length-insert_desc x (y ∷ ys) = ground (arith, length-insert_desc x ys)

  insert_desc-Elem :
      (a x : A) (ys : List A) → (a ≡ x) ⊎ Elem a ys → Elem a (insert_desc ltb key x ys)
  unfolding insert_desc
  insert_desc-Elem a x [] h = h
  insert_desc-Elem a x (y ∷ ys) h = ground (arith, insert_desc-Elem a x ys)

  -- the three together, along the insertions
  sort_onto-IsDescending :
      (acc xs : List A)
      → IsDescending key acc
      → IsDescending key (sort_onto ltb key acc xs)
        × (length (sort_onto ltb key acc xs) ≡ length acc + length xs)
        × ((a : A) → Elem a acc ⊎ Elem a xs → Elem a (sort_onto ltb key acc xs))
  unfolding sort_onto
  sort_onto-IsDescending acc [] h =
      (h, omega arith, λ a m. elim m [ inl early ↦ early | inr late ↦ absurd late ])
  sort_onto-IsDescending acc (x ∷ xs) h =
      let (sorted, long, whole) =
        sort_onto-IsDescending (insert_desc ltb key x acc) xs (insert_desc-IsDescending x acc h) in
      (
        sorted,
        omega (arith, long, length-insert_desc x acc),
        λ a m. whole a (elim m [
          | inl early ↦ inl (insert_desc-Elem a x acc (inr early))
          | inr (inl same) ↦ inl (insert_desc-Elem a x acc (inl same))
          | inr (inr late) ↦ inr late
        ]),
      )

  pub sort_desc-IsDescending :
      (xs : List A)
      → IsDescending key (sort_desc ltb key xs)
        × (length (sort_desc ltb key xs) ≡ length xs)
        × ((a : A) → Elem a xs → Elem a (sort_desc ltb key xs))
  unfolding sort_desc
  sort_desc-IsDescending xs =
      let (sorted, long, whole) = sort_onto-IsDescending [] xs tt in
      (sorted, omega (arith, long), λ a m. whole a (inr m))
