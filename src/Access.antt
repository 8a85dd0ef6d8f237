-- ===== src/Access.antt =====
-- infrastructure/security/jwt_auth.py, infrastructure/security/redis_rate_limiter.py and
-- interface/api/dependencies.py: who calls, and whether they may.
pub mod Gates
pub mod Window
use bank_rag_bot.Prelude.{
  ℕ, suc, String, Bool, true, false, not, ◌==◌, ◌||◌, Option, none, some, List, if◌then◌else◌, eqb,
  leb,
}
use bank_rag_bot.Prelude.Text.{◌<>◌, strip, starts, slice_from, show}
use bank_rag_bot.Prelude.Exec.{
  Exec, Result, ok, raised, Error, invalid_token, http, pure, raise, ◌>>=◌, ◌>>◌,
}

-- What `jwt.decode` gives for a token that it accepts: the required claims `sub` and `role`.
pub record JwtPayload : Type 0 where
  pub sub : String
  pub role : String

pub record TokenClaims : Type 0 where
  pub subject : String
  pub is_employee : Bool

-- the check of the role
unfoldable pub claims_of : JwtPayload → Result TokenClaims
claims_of payload =
    if payload.role == "customer" || payload.role == "employee"
    then ok (record { subject = payload.sub; is_employee = payload.role == "employee" })
    else raised (invalid_token ("unexpected role claim: '" <> payload.role <> "'"))

-- An `InvalidTokenError` becomes an `InvalidToken` with the same text.
unfoldable pub checked_claims : (Error → String) → Result JwtPayload → Result TokenClaims
unfolding claims_of
checked_claims explain (ok payload) = claims_of payload
checked_claims explain (raised e) = raised (invalid_token (explain e))

-- `jwt.decode`, with the secret, the algorithm, the audience and the required claims, is the
-- first argument.
unfoldable pub decode_token :
    (String → Result JwtPayload) → (Error → String) → String → Result TokenClaims
unfolding checked_claims
decode_token jwt_decode explain token = checked_claims explain (jwt_decode token)

pub record RequestIdentity : Type 0 where
  pub customer_id : Option String
  pub is_authenticated : Bool
  pub is_employee : Bool

abbrev pub anonymous : RequestIdentity
anonymous = record { customer_id = none; is_authenticated = false; is_employee = false }

-- `authorization.removeprefix("Bearer ").strip()`
unfoldable pub bearer_token : String → String
unfolding starts slice_from strip
bearer_token authorization =
    strip (if starts "Bearer " authorization then slice_from 7 authorization else authorization)

-- an `InvalidToken` is a 401
unfoldable pub identity_of : Result TokenClaims → Result RequestIdentity
identity_of (ok claims) = ok (record {
  customer_id = some claims.subject;
  is_authenticated = true;
  is_employee = claims.is_employee;
})
identity_of (raised e) = raised (http 401)

unfoldable pub get_identity : (String → Result TokenClaims) → Option String → Result RequestIdentity
unfolding identity_of bearer_token
get_identity decode none = ok anonymous
get_identity decode (some authorization) = identity_of (decode (bearer_token authorization))

-- The commands of Redis that the limiter uses.
pub record Counters (S : Type 0) : Type 0 where
  pub incr : String → Exec S ℕ
  pub expire : String → ℕ → Exec S Unit

unfoldable pub limit_key : String → ℕ → String
unfolding show
limit_key key window_seconds = "ratelimit:" <> key <> ":" <> show window_seconds

module _ {S : Type 0} (counters : Counters S) where
  -- `if count == 1`
  unfoldable pub start_window : String → ℕ → ℕ → Exec S Unit
  start_window full_key window_seconds count =
      if eqb count 1 then counters.expire full_key window_seconds else pure tt

  unfoldable pub is_allowed : String → ℕ → ℕ → Exec S Bool
  unfolding start_window limit_key
  is_allowed key limit window_seconds = do
    count ← counters.incr (limit_key key window_seconds)
    _ ← start_window (limit_key key window_seconds) window_seconds count
    pure (leb count limit)

  -- `identity.customer_id or (request.client.host if request.client else "anonymous")`
  abbrev pub client_key : Option String → String
  client_key none = "anonymous"
  client_key (some host) = host

  abbrev pub request_key : RequestIdentity → Option String → String
  request_key identity client = elim identity.customer_id [
    | none ↦ client_key client
    | some id ↦ if id == "" then client_key client else id
  ]

  unfoldable pub rate_limit : ℕ → ℕ → RequestIdentity → Option String → Exec S Unit
  unfolding is_allowed
  rate_limit limit window_seconds identity client = do
    allowed ← is_allowed (request_key identity client) limit window_seconds
    if allowed then pure tt else raise (http 429)

-- `if not identity.is_employee: raise HTTPException(403)` before a handler's own work
unfoldable pub require_employee : {S A : Type 0} → RequestIdentity → Exec S A → Exec S A
require_employee identity work = if identity.is_employee then work else raise (http 403)
