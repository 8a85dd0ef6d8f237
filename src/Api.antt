-- ===== src/Api.antt =====
-- interface/api/: what stands between a request and the use cases. FastAPI solves the dependencies
-- of a route before it validates the fields of the body, so the order of the refusals is 401, 429,
-- 422, and then those of the handler.
pub mod Chat
pub mod Admin
use bank_rag_bot.Prelude.{ℕ, String, Bool, ◌&&◌, Option, none, some, ◌==◌, if◌then◌else◌, leb}
use bank_rag_bot.Prelude.Text.{size}
use bank_rag_bot.Prelude.Exec.{Exec, Result, Error, pure, lift, raise, http, ◌>>=◌, ◌>>◌}
use bank_rag_bot.Access.{
  Counters, JwtPayload, RequestIdentity, get_identity, decode_token, rate_limit,
}

-- What the edge needs: Redis' counters, `jwt.decode` and `str(exc)`.
pub record Gate (S : Type 0) : Type 0 where
  pub counters : Counters S
  pub jwt_decode : String → Result JwtPayload
  pub explain : Error → String

-- The headers that the dependencies read: `Authorization`, and the client's address.
pub record Caller : Type 0 where
  pub authorization : Option String
  pub client : Option String

-- `Field(min_length=…, max_length=…)`
unfoldable pub has_length : ℕ → ℕ → String → Bool
has_length least most s = leb least (size s) && leb (size s) most

-- `identity.customer_id or "unknown"`, and the like
unfoldable pub text_or : String → Option String → String
text_or other none = other
text_or other (some s) = if s == "" then other else s

module _ {S : Type 0} (gate : Gate S) where
  -- `Depends(get_identity)`
  unfoldable pub identified : Caller → Exec S RequestIdentity
  unfolding get_identity decode_token
  identified caller =
      lift (get_identity (decode_token gate.jwt_decode gate.explain) caller.authorization)

  -- with `Depends(rate_limit(limit, 60))` before it
  unfoldable pub limited : ℕ → Caller → Exec S RequestIdentity
  unfolding identified rate_limit
  limited limit caller = do
    identity ← identified caller
    _ ← rate_limit gate.counters limit 60 identity caller.client
    pure identity

-- the fields of the body, and then the handler
unfoldable pub validated : {S A : Type 0} → Bool → Exec S A → Exec S A
validated valid handler = if valid then handler else raise (http 422)
