-- ===== src/Prelude/Lists.antt =====
-- Lists measured by native numbers, Boolean searches, and predicates by recursion.
use Prim.Native.Nat.{ℕ, zero, suc, ◌+◌, ◌-◌, ◌≤◌}
use mathlib.Core.Path.{◌≡◌, refl, ap, sym, subst}
use mathlib.Core.Bool.{Bool, true, false, ◌&&◌, ◌||◌}
use mathlib.Core.List.{List, [], ◌∷◌, ◌++◌, map}
use mathlib.Core.Logic.{◌⊎◌, inl, inr}
use native.Mathlib.Omega.{arith}
use bank_rag_bot.Prelude.Tests.{if◌then◌else◌}

module _ {ℓ} {A : Type ℓ} where
  abbrev pub length : List A → ℕ
  length [] = 0
  length (x ∷ xs) = suc (length xs)

  abbrev pub take : ℕ → List A → List A
  take zero xs = []
  take (suc n) [] = []
  take (suc n) (x ∷ xs) = x ∷ take n xs

  abbrev pub drop : ℕ → List A → List A
  drop zero xs = xs
  drop (suc n) [] = []
  drop (suc n) (x ∷ xs) = drop n xs

  -- `l[-n:]` for a positive `n`
  abbrev pub take_last : ℕ → List A → List A
  take_last n xs = drop (length xs - n) xs

  -- the comprehension `[x for x in l if p(x)]`
  abbrev pub keep : (A → Bool) → List A → List A
  keep p [] = []
  keep p (x ∷ xs) = let rest = keep p xs in if p x then x ∷ rest else rest

  abbrev pub any : (A → Bool) → List A → Bool
  any p [] = false
  any p (x ∷ xs) = p x || any p xs

  abbrev pub all : (A → Bool) → List A → Bool
  all p [] = true
  all p (x ∷ xs) = p x && all p xs

  abbrev pub is_empty : List A → Bool
  is_empty [] = true
  is_empty (x ∷ xs) = false

  pub length-append : (xs ys : List A) → length (xs ++ ys) ≡ length xs + length ys
  length-append [] ys = omega arith
  length-append (x ∷ xs) ys = omega (arith, length-append xs ys)

  pub length-take-le : (n : ℕ) (xs : List A) → length (take n xs) ≤ n
  length-take-le zero xs = omega arith
  length-take-le (suc n) [] = omega arith
  length-take-le (suc n) (x ∷ xs) = omega (arith, length-take-le n xs)

  pub length-drop : (n : ℕ) (xs : List A) → length (drop n xs) ≡ length xs - n
  length-drop zero xs = omega arith
  length-drop (suc n) [] = omega arith
  length-drop (suc n) (x ∷ xs) = omega (arith, length-drop n xs)

  pub take-append-drop : (n : ℕ) (xs : List A) → take n xs ++ drop n xs ≡ xs
  take-append-drop zero xs = refl
  take-append-drop (suc n) [] = refl
  take-append-drop (suc n) (x ∷ xs) = ap (◌∷◌ x) (take-append-drop n xs)

-- Membership as a choice of position, which the tactics read.
abbrev pub Elem : {A : Type 0} → A → List A → Type 0
Elem a [] = ⊥
Elem a (x ∷ xs) = (a ≡ x) ⊎ Elem a xs

module _ {A : Type 0} where
  pub Elem-append_left : (a : A) (xs ys : List A) → Elem a xs → Elem a (xs ++ ys)
  Elem-append_left a [] ys m = absurd m
  Elem-append_left a (x ∷ xs) ys (inl e) = inl e
  Elem-append_left a (x ∷ xs) ys (inr m) = inr (Elem-append_left a xs ys m)

  pub Elem-append_right : (a : A) (xs ys : List A) → Elem a ys → Elem a (xs ++ ys)
  Elem-append_right a [] ys m = m
  Elem-append_right a (x ∷ xs) ys m = inr (Elem-append_right a xs ys m)

  pub Elem-append-cases : (a : A) (xs ys : List A) → Elem a (xs ++ ys) → Elem a xs ⊎ Elem a ys
  Elem-append-cases a [] ys m = inr m
  Elem-append-cases a (x ∷ xs) ys (inl e) = inl (inl e)
  Elem-append-cases a (x ∷ xs) ys (inr m) = elim (Elem-append-cases a xs ys m) [
    | inl l ↦ inl (inr l)
    | inr r ↦ inr r
  ]

  pub Elem-keep :
      (p : A → Bool) (a : A) (xs : List A) → Elem a (keep p xs) → Elem a xs × (p a ≡ true)
  Elem-keep p a (x ∷ xs) m = ground (arith, Elem-keep p a xs)
  Elem-keep p a [] m = absurd m

  pub keep-Elem : (p : A → Bool) (a : A) (xs : List A) → Elem a xs → p a ≡ true → Elem a (keep p xs)
  keep-Elem p a (x ∷ xs) m h = ground (arith, keep-Elem p a xs)
  keep-Elem p a [] m h = absurd m

  pub Elem-take : (n : ℕ) (a : A) (xs : List A) → Elem a (take n xs) → Elem a xs
  Elem-take (suc n) a (x ∷ xs) (inl e) = inl e
  Elem-take (suc n) a (x ∷ xs) (inr m) = inr (Elem-take n a xs m)
  Elem-take (suc n) a [] m = absurd m
  Elem-take zero a xs m = absurd (m)

module _ {A B : Type 0} (f : A → B) where
  pub Elem-map : (b : B) (xs : List A) → Elem b (map f xs) → (a : A) × Elem a xs × (b ≡ f a)
  Elem-map b [] m = absurd m
  Elem-map b (x ∷ xs) (inl e) = (x, inl refl, e)
  Elem-map b (x ∷ xs) (inr m) = let (a, inside, e) = Elem-map b xs m in (a, inr inside, e)

  pub map-Elem : (a : A) (xs : List A) → Elem a xs → Elem (f a) (map f xs)
  map-Elem a [] m = absurd m
  map-Elem a (x ∷ xs) (inl e) = inl (ap f e)
  map-Elem a (x ∷ xs) (inr m) = inr (map-Elem a xs m)

  pub map-keep : (p : B → Bool) (xs : List A) → map f (keep (λ x. p (f x)) xs) ≡ keep p (map f xs)
  map-keep p [] = refl
  map-keep p (x ∷ xs) = ground (arith, map-keep p xs)

-- A predicate by recursion computes to tuples, which the tactics read and build.
abbrev pub All : {A : Type 0} → (A → Type 0) → List A → Type 0
All P [] = Unit
All P (x ∷ xs) = P x × All P xs

module _ {A : Type 0} (P : A → Type 0) where
  pub All-append : (xs ys : List A) → All P xs → All P ys → All P (xs ++ ys)
  All-append [] ys hx hy = hy
  All-append (x ∷ xs) ys (p, hx) hy = (p, All-append xs ys hx hy)

  pub All-concat : (xs : List A) (x : A) → All P xs → P x → All P (xs ++ x ∷ [])
  All-concat xs x h p = All-append xs (x ∷ []) h (p, tt)

  pub All-weaken : (Q : A → Type 0) → ((x : A) → P x → Q x) → (xs : List A) → All P xs → All Q xs
  All-weaken Q h [] ps = tt
  All-weaken Q h (x ∷ xs) (p, ps) = (h x p, All-weaken Q h xs ps)

  pub All-both : (Q : A → Type 0) (xs : List A) → All P xs → All Q xs → All (λ x. P x × Q x) xs
  All-both Q [] ps qs = tt
  All-both Q (x ∷ xs) (p, ps) (q, qs) = ((p, q), All-both Q xs ps qs)

  pub All-at : (xs : List A) (x : A) → All P xs → Elem x xs → P x
  All-at (y ∷ xs) x (p, ps) (inl e) = subst P (sym e) p
  All-at (y ∷ xs) x (p, ps) (inr m) = All-at xs x ps m
  All-at [] x ps m = absurd m

  pub Elem-All : (xs : List A) → ((x : A) → Elem x xs → P x) → All P xs
  Elem-All [] h = tt
  Elem-All (x ∷ xs) h = (h x (inl refl), Elem-All xs (λ y m. h y (inr m)))
