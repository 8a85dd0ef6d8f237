-- ===== src/Prelude/Triple.antt =====
-- Total pre- and postconditions of a coroutine: `Q` if it returns, `E` if it raises. There is one
-- rule for each way to build a coroutine.
use bank_rag_bot.Prelude.Exec.{
  Exec, Result, ok, raised, Error, pure, raise, lift, gets, modify, proceed, ◌>>=◌, attempt,
}
use bank_rag_bot.Prelude.Tests.{if◌then◌else◌}
use mathlib.Core.Path.{◌≡◌, refl, subst}
use native.Mathlib.Omega.{arith}
use mathlib.Core.Bool.{Bool, true, false}

module _ {S A : Type 0} where
  abbrev pub Outcome : (A → S → Type 0) → (S → Type 0) → Result A → S → Type 0
  Outcome Q E (ok a) s = Q a s
  Outcome Q E (raised e) s = E s

  pub record Triple (P : S → Type 0) (m : Exec S A) (Q : A → S → Type 0) (E : S → Type 0)
      : Type 0 where
    pub at : (s : S) → P s → Outcome Q E (m s).0 (m s).1

module _ {S A : Type 0} {Q : A → S → Type 0} {E : S → Type 0} where
  Outcome-after :
      (Q' : A → S → Type 0) (E' : S → Type 0)
      → ((a : A) (s : S) → Q a s → Q' a s)
      → ((s : S) → E s → E' s)
      → (r : Result A) (s : S) → Outcome Q E r s
      → Outcome Q' E' r s
  Outcome-after Q' E' h k (ok a) s q = h a s q
  Outcome-after Q' E' h k (raised e) s q = k s q

module _ {S A : Type 0} {P : S → Type 0} {Q : A → S → Type 0} {E : S → Type 0} where
  pub Triple-pure : (a : A) → ((s : S) → P s → Q a s) → Triple P (pure a) Q E
  unfolding pure
  Triple-pure a h = record { at = h }

  pub Triple-raise : (e : Error) → ((s : S) → P s → E s) → Triple P (raise e) Q E
  unfolding raise
  Triple-raise e h = record { at = h }

  pub Triple-lift :
      (r : Result A)
      → ((a : A) (s : S) → r ≡ ok a → P s → Q a s)
      → ((s : S) → P s → E s)
      → Triple P (lift r) Q E
  unfolding lift
  Triple-lift (ok a) h k = record { at = λ s p. h a s refl p }
  Triple-lift (raised e) h k = record { at = k }

  pub Triple-gets : (f : S → A) → ((s : S) → P s → Q (f s) s) → Triple P (gets f) Q E
  unfolding gets
  Triple-gets f h = record { at = h }

  pub Triple-if :
      (b : Bool) (m n : Exec S A)
      → (b ≡ true → Triple P m Q E)
      → (b ≡ false → Triple P n Q E)
      → Triple P (if b then m else n) Q E
  Triple-if true m n h k = h refl
  Triple-if false m n h k = k refl

  pub Triple-after :
      (Q' : A → S → Type 0) (E' : S → Type 0) (m : Exec S A)
      → ((a : A) (s : S) → Q a s → Q' a s)
      → ((s : S) → E s → E' s)
      → Triple P m Q E
      → Triple P m Q' E'
  Triple-after Q' E' m h k t = record {
    at = λ s p. Outcome-after Q' E' h k (m s).0 (m s).1 (t.at s p);
  }

  pub Triple-before :
      (P' : S → Type 0) (m : Exec S A) → ((s : S) → P' s → P s) → Triple P m Q E → Triple P' m Q E
  Triple-before P' m h t = record { at = λ s p. t.at s (h s p) }

module _ {S : Type 0} {P : S → Type 0} {Q : Unit {0} → S → Type 0} {E : S → Type 0} where
  pub Triple-modify : (f : S → S) → ((s : S) → P s → Q tt (f s)) → Triple P (modify f) Q E
  unfolding modify
  Triple-modify f h = record { at = h }

module _ {S A B : Type 0} {Q : A → S → Type 0} {R : B → S → Type 0} {E : S → Type 0} where
  proceed_lem :
      (r : Result A) (s : S) (f : A → Exec S B)
      → Outcome Q E r s
      → ((a : A) → Triple (Q a) (f a) R E)
      → Outcome R E (proceed r f s).0 (proceed r f s).1
  proceed_lem (ok a) s f q k = (k a).at s q
  proceed_lem (raised e) s f q k = q

  pub Triple-bind :
      {P : S → Type 0} (m : Exec S A) (f : A → Exec S B)
      → Triple P m Q E
      → ((a : A) → Triple (Q a) (f a) R E)
      → Triple P (m >>= f) R E
  unfolding ◌>>=◌
  Triple-bind m f h k = record { at = λ s p. proceed_lem (m s).0 (m s).1 f (h.at s p) k }

module _ {S A : Type 0} (P : S → Type 0) where
  -- what holds either way holds of the state in the end
  pub Outcome-state : (r : Result A) (s : S) → Outcome (λ _. P) P r s → P s
  Outcome-state (ok a) s p = p
  Outcome-state (raised e) s p = p

module _ {S A : Type 0} (Q : A → S → Type 0) (E : S → Type 0) where
  -- what holds on return holds if it returned
  pub Outcome-ok : (r : Result A) (s : S) (a : A) → r ≡ ok a → Outcome Q E r s → Q a s
  Outcome-ok (ok b) s a e q = let same : b ≡ a = ground arith in subst (λ x. Q x s) same q
  Outcome-ok (raised x) s a e q = absurd (ground arith)

module _ {S A : Type 0} (Q E : S → Type 0) where
  pub Outcome-either : ((s : S) → Q s → E s) → (r : Result A) (s : S) → Outcome (λ _. Q) E r s → E s
  Outcome-either h (ok a) s q = h s q
  Outcome-either h (raised x) s q = q

module _ {S A : Type 0} (Q : A → S → Type 0) where
  Outcome-returned :
      (r : Result A) (s : S) → ((a : A) → r ≡ ok a → Q a s) → Outcome Q (λ (x : S). Unit {0}) r s
  Outcome-returned (ok a) s h = h a refl
  Outcome-returned (raised e) s h = tt

module _ {S A : Type 0} {P : S → Type 0} {Q : A → S → Type 0} where
  -- a call of which only what it does on return is known
  pub Triple-returned :
      (m : Exec S A)
      → ((s : S) (a : A) → P s → (m s).0 ≡ ok a → Q a (m s).1)
      → Triple P m Q (λ (x : S). Unit {0})
  Triple-returned m h = record { at = λ s p. Outcome-returned Q (m s).0 (m s).1 (λ a e. h s a p e) }

module _ {S A : Type 0} (P : S → Type 0) where
  Outcome-same : (r : Result A) (s : S) → P s → Outcome (λ _. P) P r s
  Outcome-same (ok a) s p = p
  Outcome-same (raised e) s p = p

  -- a call that keeps `P` however it ends
  pub Triple-kept : (m : Exec S A) → ((s : S) → P s → P (m s).1) → Triple P m (λ _. P) P
  Triple-kept m h = record { at = λ s p. Outcome-same (m s).0 (m s).1 (h s p) }

module _ {S A B : Type 0} {Q : A → S → Type 0} {R : B → S → Type 0} {E F : S → Type 0} where
  attempted :
      (handler : Result A → Exec S B)
      → ((a : A) → Triple (Q a) (handler (ok a)) R F)
      → ((e : Error) → Triple E (handler (raised e)) R F)
      → (r : Result A) (s : S) → Outcome Q E r s
      → Outcome R F (handler r s).0 (handler r s).1
  attempted handler h k (ok a) s q = (h a).at s q
  attempted handler h k (raised e) s q = (k e).at s q

  pub Triple-attempt :
      {P : S → Type 0} (m : Exec S A) (handler : Result A → Exec S B)
      → Triple P m Q E
      → ((a : A) → Triple (Q a) (handler (ok a)) R F)
      → ((e : Error) → Triple E (handler (raised e)) R F)
      → Triple P (attempt m handler) R F
  unfolding attempt
  Triple-attempt m handler t h k = record {
    at = λ s p. attempted handler h k (m s).0 (m s).1 (t.at s p);
  }
