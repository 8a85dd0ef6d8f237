-- ===== src/Access/Gates.antt =====
-- Who passes as an employee.
use bank_rag_bot.Prelude.{
  String, true, ◌≡◌, refl, sym, ap, ◌∙◌, ◌==◌, Option, none, some, arith, eq_iff,
}
use bank_rag_bot.Prelude.Exec.{Result, ok, raised, Error, ok-inj}
use bank_rag_bot.Access.{
  JwtPayload, TokenClaims, RequestIdentity, claims_of, decode_token, get_identity, identity_of,
  bearer_token, anonymous, checked_claims,
}

claims_of-employee :
    (p : JwtPayload) (c : TokenClaims)
    → claims_of p ≡ ok c
    → (c.subject ≡ p.sub) × (c.is_employee ≡ (p.role == "employee"))
unfolding claims_of
claims_of-employee p c h = ground (arith, eq_iff p.role "employee")

checked_claims_sound :
    (explain : Error → String) (r : Result JwtPayload) (c : TokenClaims)
    → checked_claims explain r ≡ ok c
    → (p : JwtPayload) × (r ≡ ok p) × (c.subject ≡ p.sub) × (c.is_employee ≡ (p.role == "employee"))
unfolding checked_claims
checked_claims_sound explain (ok p) c h =
    let (subject, role) = claims_of-employee p c h in (p, refl, subject, role)
checked_claims_sound explain (raised e) c h = absurd (ground arith)

identity_of_sound :
    (r : Result TokenClaims) (i : RequestIdentity)
    → identity_of r ≡ ok i
    → (c : TokenClaims) × (r ≡ ok c)
      × (i.customer_id ≡ some c.subject)
      × (i.is_employee ≡ c.is_employee)
unfolding identity_of
identity_of_sound (ok c) i h = (
  c,
  refl,
  ap (λ x. x.customer_id) (sym (ok-inj _ _ h)),
  ap (λ x. x.is_employee) (sym (ok-inj _ _ h)),
)
identity_of_sound (raised e) i h = absurd (ground arith)

-- A request passes as an employee's only if it has an authorization header whose token the JWT
-- library accepts with the role `employee`; the customer id is then the token's subject.
pub get_identity-employee :
    (jwt_decode : String → Result JwtPayload) (explain : Error → String)
    (authorization : Option String) (i : RequestIdentity)
    → get_identity (decode_token jwt_decode explain) authorization ≡ ok i
    → i.is_employee ≡ true
    → (header : String) × (p : JwtPayload) × (authorization ≡ some header)
      × (jwt_decode (bearer_token header) ≡ ok p)
      × (p.role ≡ "employee")
      × (i.customer_id ≡ some p.sub)
unfolding get_identity decode_token
get_identity-employee jwt_decode explain none i h e =
    absurd (ground (arith, ap (λ x. x.is_employee) (ok-inj anonymous i h)))
get_identity-employee jwt_decode explain (some header) i h e =
    let (c, decoded, named, employee) = identity_of_sound _ i h in
    let (p, accepted, subject, role) = checked_claims_sound explain _ c decoded in
    (header, p, refl, accepted, ground (arith, eq_iff p.role "employee"), named ∙ ap some subject)
