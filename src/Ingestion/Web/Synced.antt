-- ===== src/Ingestion/Web/Synced.antt =====
-- The scheduled sync: no page that cannot be had or ingested stops it, but a failure to read the
-- rules does.
use mathlib.Core.Path.{subst}
use bank_rag_bot.Prelude.{
  String, Bool, true, false, not, ◌≡◌, refl, sym, none, List, [], ◌∷◌, All, ◌⊎◌, inl, inr,
}
use bank_rag_bot.Prelude.Text.{contains, ◌<>◌}
use bank_rag_bot.Prelude.Exec.{Exec, Error, Result, ok, raised, raise, value_error, pure, ◌>>=◌}
use bank_rag_bot.Prelude.Triple.{
  Triple, Triple-pure, Triple-raise, Triple-gets, Triple-bind, Triple-if, Triple-kept,
  Triple-attempt, Triple-after, Outcome, Outcome-state,
}
use bank_rag_bot.Domain.{NoIndexRule}
use bank_rag_bot.Indexes.{AddsOnlyGiven}
use bank_rag_bot.NoIndex.Registry.{is_excluded}
use bank_rag_bot.NoIndex.Manage.{Archive}
use bank_rag_bot.NoIndex.Manage.Frame.{Triple-in_indexes}
use bank_rag_bot.Ingestion.{Ports}
use bank_rag_bot.Ingestion.Quiet.{IsQuiet, Holds}
use bank_rag_bot.Ingestion.Permitted.{IsPermitted, IsClean, Triple-execute}
use bank_rag_bot.Ingestion.Web.Requests.{IsLog, IsAllowed, HasAsked, HasAsked-sync_urls}
use bank_rag_bot.Ingestion.Web.{
  Page, ScrapedPage, scraped_page, fetch, ingest_page, forget, sync_unless, sync_url, sync_urls,
}

-- Some read of the rules fails.
abbrev pub Failed : {I : Type 0} → Exec I Unit → Type 0
Failed {I = I} read_rules = (s : I) × (e : Error) × ((read_rules s).0 ≡ raised e)

Failed-read :
    {I : Type 0} (read_rules : Exec I Unit) (s : I) (r : Result Unit) (t : I) (P : I → Type 0)
    → (read_rules s).0 ≡ r
    → P t
    → Outcome (λ _. P) (λ x. P x × Failed read_rules) r t
Failed-read read_rules s (ok a) t P h p = p
Failed-read read_rules s (raised e) t P h p = (p, (s, e, h))

module _ {S : Type 0} (P : S → Type 0) (F : Type 0) where
  -- what returns or fails, and keeps `P` either way
  returned :
      (r : Result (Unit {0})) (s : S)
      → Outcome (λ _. P) (λ t. P t × F) r s
      → ((r ≡ ok tt) ⊎ F) × P s
  returned (ok a) s p = (inl refl, p)
  returned (raised e) s p = (inr p.1, p.0)

module _ {Vector I : Type 0} (ports : Ports Vector I) (law : AddsOnlyGiven ports.vectors)
    (quiet : IsQuiet ports) (get_page : String → Exec I Page)
    (reads : (url : String) (s : I)
      → ports.vectors.contents (get_page url s).1 ≡ ports.vectors.contents s)
    (allowed_domain : String) (read_rules : Exec I Unit)
    (rules_apart : (s : I) → ports.vectors.contents (read_rules s).1 ≡ ports.vectors.contents s)
    (requests : I → List String) (log : IsLog ports get_page read_rules requests) where
  module _ (rules : List NoIndexRule) where
    Triple-fetch :
        (url : String)
        → Triple
            (Holds ports (IsPermitted rules))
            (fetch get_page allowed_domain url)
            (λ _. Holds ports (IsPermitted rules))
            (Holds ports (IsPermitted rules))
    unfolding fetch
    Triple-fetch url =
        Triple-if (not (contains allowed_domain url))
          (raise (value_error ("refusing to scrape outside allowed domain: " <> url)))
          (get_page url >>= λ page. pure (scraped_page url page))
          (λ foreign. Triple-raise _ (λ s h. h))
          (λ own.
            Triple-bind {Q = λ _. Holds ports (IsPermitted rules)} _ _
              (Triple-kept (Holds ports (IsPermitted rules)) _
                (λ s h. subst (All (IsPermitted rules)) (sym (reads url s)) h))
              (λ page. Triple-pure _ (λ s h. h)))

    Triple-ingest_page :
        (url : String) (r : Result ScrapedPage)
        → Triple
            (IsClean ports rules)
            (ingest_page ports get_page allowed_domain url r)
            (λ _. IsClean ports rules)
            (λ _. ⊥)
    unfolding ingest_page forget
    Triple-ingest_page url (raised e) = Triple-pure tt (λ t h. h)
    Triple-ingest_page url (ok page) =
        Triple-attempt _ _ (Triple-execute ports law quiet rules _) (λ n. Triple-pure tt (λ t h. h))
          (λ e. Triple-pure tt (λ t h. h))

    Triple-sync_unless :
        (b : Bool) (url : String)
        → Triple
            (IsClean ports rules)
            (sync_unless ports get_page allowed_domain b url)
            (λ _. IsClean ports rules)
            (λ _. ⊥)
    unfolding sync_unless
    Triple-sync_unless true url = Triple-pure tt (λ t h. h)
    Triple-sync_unless false url =
        Triple-attempt _ _
          (Triple-in_indexes (λ r d. r ≡ rules) (λ _. Holds ports (IsPermitted rules))
            (Holds ports (IsPermitted rules)) _ (Triple-fetch url))
          (λ page. Triple-ingest_page url (ok page)) (λ e. Triple-ingest_page url (raised e))

    -- no chunk in the index is excluded, but a read of the rules fails
    abbrev IsCut : Archive I → Type 0
    IsCut t = IsClean ports rules t × Failed read_rules

    Triple-read :
        Triple
          (Holds ports (IsPermitted rules))
          read_rules
          (λ _. Holds ports (IsPermitted rules))
          (λ s. Holds ports (IsPermitted rules) s × Failed read_rules)
    Triple-read = record {
      at = λ s h.
          Failed-read read_rules s _ _ (Holds ports (IsPermitted rules)) refl
            (subst (All (IsPermitted rules)) (sym (rules_apart s)) h);
    }

    Triple-sync_url :
        (url : String)
        → Triple
            (IsClean ports rules)
            (sync_url ports get_page allowed_domain read_rules url)
            (λ _. IsClean ports rules)
            IsCut
    unfolding sync_url
    Triple-sync_url url =
        Triple-bind {Q = λ _. IsClean ports rules} _ _
          (Triple-after _ _ _ (λ a t q. q) (λ t q. ((q.0, q.1.0), q.1.1))
            (Triple-in_indexes (λ r d. r ≡ rules) (λ _. Holds ports (IsPermitted rules))
              (λ s. Holds ports (IsPermitted rules) s × Failed read_rules) _ Triple-read))
          (λ _. Triple-bind {Q = λ _. IsClean ports rules} _ _ (Triple-gets _ (λ t h. h)) (λ read.
            Triple-after _ _ _ (λ a t q. q) (λ t q. absurd q)
              (Triple-sync_unless (is_excluded read url none) url)))

    Triple-sync_urls :
        (urls : List String)
        → Triple
            (IsClean ports rules)
            (sync_urls ports get_page allowed_domain read_rules urls)
            (λ _. IsClean ports rules)
            IsCut
    unfolding sync_urls
    Triple-sync_urls [] = Triple-pure tt (λ t h. h)
    Triple-sync_urls (url ∷ urls) =
        Triple-bind {Q = λ _. IsClean ports rules} _ _ (Triple-sync_url url)
          (λ _. Triple-sync_urls urls)

  -- A sync of any URLs either returns or ends because a read of the rules failed, whatever else
  -- fails on the way. Either way it leaves the rules as they were; if no chunk in the vector index
  -- was excluded by a rule before it, then none is after it; and if every page asked for before it
  -- was of a URL that contains the allowed domain and that no rule excludes, then so is every page
  -- asked for after it. Whatever a call of a store does, it adds only chunks that it was given;
  -- neither another port nor a read of the rules or of a page changes what is in the vector index,
  -- and a read of a page is the only call that asks for one.
  pub sync_urls-IsPermitted :
      (urls : List String) (s : Archive I)
      → All (IsPermitted s.rules) (ports.vectors.contents s.indexes)
      → All (IsAllowed s.rules allowed_domain) (requests s.indexes)
      → let r = sync_urls ports get_page allowed_domain read_rules urls s in
        ((r.0 ≡ ok tt) ⊎ Failed read_rules)
        × (r.1.rules ≡ s.rules)
        × All (IsPermitted s.rules) (ports.vectors.contents r.1.indexes)
        × All (IsAllowed s.rules allowed_domain) (requests r.1.indexes)
  sync_urls-IsPermitted urls s h asked =
      let (done, clean) =
        returned (IsClean ports s.rules) (Failed read_rules) _ _
          ((Triple-sync_urls s.rules urls).at s (refl, h)) in
      let only =
        Outcome-state (HasAsked ports get_page allowed_domain read_rules requests log s.rules) _ _ (
          (HasAsked-sync_urls ports get_page allowed_domain read_rules requests log s.rules urls).at
            s (refl, asked)) in
      (done, clean.0, clean.1, only.1)
