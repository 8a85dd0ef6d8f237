-- ===== src/Api/Admin/Refused.antt =====
-- What a caller who is not an employee gets from the routes for employees.
use bank_rag_bot.Prelude.{ℕ, String, Bool, false, ◌≡◌, Option, arith, eqb}
use bank_rag_bot.Prelude.Exec.{Exec, ok, raise, http}
use bank_rag_bot.Prelude.Triple.{
  Triple, Triple-pure, Triple-raise, Triple-lift, Triple-bind, Triple-if, Outcome,
}
use bank_rag_bot.Access.{
  Counters, RequestIdentity, get_identity, decode_token, rate_limit, is_allowed, start_window,
  require_employee,
}
use bank_rag_bot.NoIndex.Manage.{Archive}
use bank_rag_bot.Api.{Gate, Caller, identified, limited, validated}
use bank_rag_bot.Api.Admin.{
  Backend, Form, IngestUrlRequest, NoIndexRuleRequest, upload_document, list_documents, ingest_url,
  exclude, include, list_rules,
}

-- The call raises, and `P` holds of what it leaves.
abbrev pub IsRefused : {S A : Type 0} → (S → Type 0) → Exec S A → S → Type 0
IsRefused P m s = Outcome (λ _ _. ⊥) P (m s).0 (m s).1

-- The counters of the rate limit keep `P`.
pub record KeepsCounters {S : Type 0} (P : S → Type 0) (counters : Counters S) : Type 0 where
  pub incr : (key : String) → Triple P (counters.incr key) (λ _. P) P
  pub expire : (key : String) (seconds : ℕ) → Triple P (counters.expire key seconds) (λ _. P) P

-- No identity that the header gives is an employee's.
abbrev pub IsOutsider : {S : Type 0} → Gate S → Caller → Type 0
IsOutsider gate caller =
    (i : RequestIdentity)
    → get_identity (decode_token gate.jwt_decode gate.explain) caller.authorization ≡ ok i
    → i.is_employee ≡ false

module _ {S : Type 0} (P : S → Type 0) where
  Triple-rate_limit :
      (counters : Counters S)
      → KeepsCounters P counters
      → (limit window : ℕ) (i : RequestIdentity) (client : Option String)
      → Triple P (rate_limit counters limit window i client) (λ _. P) P
  unfolding rate_limit is_allowed start_window
  Triple-rate_limit counters keep limit window i client =
      Triple-bind {Q = λ _. P} _ _
        (Triple-bind _ _ (keep.incr _) (λ count.
          Triple-bind {Q = λ _. P} _ _
            (Triple-if (eqb count 1) _ _ (λ first. keep.expire _ window)
              (λ later. Triple-pure tt (λ s p. p)))
            (λ _. Triple-pure _ (λ s p. p))))
        (λ allowed.
          Triple-if allowed _ _ (λ yes. Triple-pure tt (λ s p. p))
            (λ no. Triple-raise (http 429) (λ s p. p)))

  module _ (gate : Gate S) (caller : Caller) (outsider : IsOutsider gate caller) where
    abbrev Outsider : RequestIdentity → S → Type 0
    Outsider i s = (i.is_employee ≡ false) × P s

    Triple-identified : Triple P (identified gate caller) Outsider P
    unfolding identified
    Triple-identified = Triple-lift _ (λ i s e p. (outsider i e, p)) (λ s p. p)

    Triple-limited :
        KeepsCounters P gate.counters
        → (limit : ℕ) → Triple P (limited gate limit caller) Outsider P
    unfolding limited
    Triple-limited keep limit = Triple-bind _ _ Triple-identified (λ i. record {
      at = λ s p.
          (Triple-bind {Q = λ _. P} {R = Outsider} {P = P} _ _
              (Triple-rate_limit gate.counters keep limit 60 i caller.client)
              (λ _. Triple-pure i (λ t q. (p.0, q)))).at
            s p.1;
    })

  module _ {A : Type 0} where
    Triple-require_employee :
        (i : RequestIdentity) (work : Exec S A)
        → Triple (λ s. (i.is_employee ≡ false) × P s) (require_employee i work) (λ _ _. ⊥) P
    unfolding require_employee
    Triple-require_employee i work = record {
      at = λ s p.
          (Triple-if {P = P} {Q = λ _ _. ⊥} {E = P} i.is_employee work (raise (http 403))
              (λ yes. absurd (ground (arith, p.0))) (λ no. Triple-raise (http 403) (λ t q. q))).at
            s p.1;
    }

    Triple-validated :
        (i : RequestIdentity) (valid : Bool) (work : Exec S A)
        → Triple
            (λ s. (i.is_employee ≡ false) × P s)
            (validated valid (require_employee i work))
            (λ _ _. ⊥)
            P
    unfolding validated
    Triple-validated i valid work =
        Triple-if valid _ _ (λ yes. Triple-require_employee i work)
          (λ no. Triple-raise (http 422) (λ s q. q.1))

module _ {Bytes F Score Vector I : Type 0} (b : Backend Bytes F Score Vector I) where
  -- Every route for employees raises when the caller's header gives no employee, and changes
  -- nothing: what held of the rules, the documents and the indexes before holds after it, if the
  -- counters of the rate limit keep it.
  pub admin-IsRefused :
      (P : Archive I → Type 0) (caller : Caller)
      → IsOutsider b.gate caller
      → KeepsCounters P b.gate.counters
      → (s : Archive I) → P s
      → ((form : Form Bytes) → IsRefused P (upload_document b caller form) s)
        × ((request : IngestUrlRequest) → IsRefused P (ingest_url b caller request) s)
        × ((request : NoIndexRuleRequest) → IsRefused P (exclude b caller request) s)
        × ((pattern : String) → IsRefused P (include b caller pattern) s)
        × IsRefused P (list_documents b caller) s
        × IsRefused P (list_rules b caller) s
  unfolding upload_document ingest_url exclude include list_documents list_rules
  admin-IsRefused P caller outsider keep s p = (
    λ form.
        (Triple-bind _ _ (Triple-limited P b.gate caller outsider keep _)
            (λ i. Triple-require_employee P i _)).at
          s p,
    λ request.
        (Triple-bind _ _ (Triple-limited P b.gate caller outsider keep _)
            (λ i. Triple-validated P i _ _)).at
          s p,
    λ request.
        (Triple-bind _ _ (Triple-identified P b.gate caller outsider)
            (λ i. Triple-validated P i _ _)).at
          s p,
    λ pattern.
        (Triple-bind _ _ (Triple-identified P b.gate caller outsider)
            (λ i. Triple-require_employee P i _)).at
          s p,
    (Triple-bind _ _ (Triple-identified P b.gate caller outsider)
          (λ i. Triple-require_employee P i _)).at
        s p,
    (Triple-bind _ _ (Triple-identified P b.gate caller outsider)
          (λ i. Triple-require_employee P i _)).at
        s p,
  )
