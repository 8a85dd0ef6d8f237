-- ===== src/Prelude/Exec.antt =====
-- Python exceptions as values, and coroutines as state passing. What was written before a raise
-- stays written, so the state comes back beside the error too.
use Prim.Native.Nat.{ℕ}
use Prim.Native.String.{String}
use mathlib.Core.Path.{◌≡◌, refl}
use native.Mathlib.Omega.{arith}

-- The exception classes that the program raises or meets. `service` is what a client library or
-- a remote service raises, and `http` is FastAPI's `HTTPException`.
pub data Error : Type 0 where
  service document_excluded unsupported_file_type invalid_token value_error : String → Error
  json_decode_error type_error attribute_error assertion_error key_error index_error : Error
  http : ℕ → Error

pub data Result {ℓ} (A : Type ℓ) : Type ℓ where
  ok : A → Result A
  raised : Error → Result A

abbrev pub Exec {ℓ} : Type ℓ → Type ℓ → Type ℓ
Exec S A = S → Result A × S

module _ {ℓ} {S A : Type ℓ} where
  unfoldable pub pure : A → Exec S A
  pure a s = (ok a, s)

  unfoldable pub raise : Error → Exec S A
  raise e s = (raised e, s)

  unfoldable pub lift : Result A → Exec S A
  lift r s = (r, s)

  unfoldable pub gets : (S → A) → Exec S A
  gets f s = (ok (f s), s)

-- a call that cannot raise
unfoldable pub calling : {S A : Type 0} → (S → A × S) → Exec S A
calling f s = (ok (f s).0, (f s).1)

unfoldable pub modify : {S : Type 0} → (S → S) → Exec S Unit
modify f s = (ok tt, f s)

abbrev pub proceed {ℓ} : {S A B : Type ℓ} → Result A → (A → Exec S B) → Exec S B
proceed (ok a) f s = f a s
proceed (raised e) f s = (raised e, s)

infixl 5 ◌>>=◌ ◌>>◌
-- Opening this opens the other ways to build a coroutine too.
unfoldable pub ◌>>=◌ {ℓ} : {S A B : Type ℓ} → Exec S A → (A → Exec S B) → Exec S B
unfolding pure raise lift gets modify
◌>>=◌ m f s = proceed (m s).0 f (m s).1

abbrev pub ◌>>◌ {ℓ} : {S A B : Type ℓ} → Exec S A → Exec S B → Exec S B
m >> k = m >>= λ _. k

-- A chain of pure fallible steps.
abbrev pub bind_result {ℓ κ} : {A : Type ℓ} {B : Type κ} → Result A → (A → Result B) → Result B
bind_result (ok a) f = f a
bind_result (raised e) f = raised e

pub bind_result-ok {ℓ κ} :
    {A : Type ℓ} {B : Type κ} (r : Result A) (f : A → Result B) (b : B)
    → bind_result r f ≡ ok b
    → (a : A) × (r ≡ ok a) × (f a ≡ ok b)
bind_result-ok (ok a) f b h = (a, refl, h)
bind_result-ok (raised e) f b h = absurd (ground arith)

pub ok-inj {ℓ} : {A : Type ℓ} (a b : A) → ok a ≡ ok b → a ≡ b
ok-inj a b h = ground arith

-- `try: … except Exception`: the handler is given the outcome, in the state that is left.
unfoldable pub attempt : {S A B : Type 0} → Exec S A → (Result A → Exec S B) → Exec S B
attempt m handler s = handler (m s).0 (m s).1
