-- ===== src/Ingestion/Web/Requests.antt =====
-- Which pages a sync asks for.
use mathlib.Core.Path.{subst}
use bank_rag_bot.Prelude.{
  String, Bool, true, false, not, ◌≡◌, refl, sym, arith, none, List, [], ◌∷◌, All,
}
use bank_rag_bot.Prelude.Text.{contains, ◌<>◌}
use bank_rag_bot.Prelude.Exec.{Exec, Result, ok, raised, raise, value_error, pure, ◌>>=◌}
use bank_rag_bot.Prelude.Triple.{
  Triple, Triple-pure, Triple-raise, Triple-gets, Triple-bind, Triple-if, Triple-kept,
  Triple-attempt, Outcome,
}
use bank_rag_bot.Domain.{NoIndexRule}
use bank_rag_bot.NoIndex.Registry.{is_excluded}
use bank_rag_bot.NoIndex.Manage.{Archive}
use bank_rag_bot.NoIndex.Manage.Frame.{Triple-in_indexes}
use bank_rag_bot.Ingestion.{Ports}
use bank_rag_bot.Ingestion.Frame.{KeptByPorts, Framed-execute}
use bank_rag_bot.Ingestion.Web.{
  Page, ScrapedPage, scraped_page, fetch, ingest_page, forget, sync_unless, sync_url, sync_urls,
}

-- What has been asked for: a request adds its URL, and nothing else changes it.
pub record IsLog {Vector I : Type 0} (ports : Ports Vector I) (get_page : String → Exec I Page)
    (read_rules : Exec I Unit) (requests : I → List String) : Type 0 where
  pub after_get_page : (url : String) (s : I) → requests (get_page url s).1 ≡ url ∷ requests s
  pub after_read_rules : (s : I) → requests (read_rules s).1 ≡ requests s
  pub after_ports : (urls : List String) → KeptByPorts (λ s. requests s ≡ urls) ports

-- what is never changed keeps every property
kept_log :
    {Vector I : Type 0} (ports : Ports Vector I) (requests : I → List String)
    (P : List String → Type 0)
    → ((urls : List String) → KeptByPorts (λ s. requests s ≡ urls) ports)
    → KeptByPorts (λ s. P (requests s)) ports
kept_log ports requests P same = record {
  vectors_insert = λ chunks s. subst P (sym ((same (requests s)).vectors_insert chunks s refl));
  vectors_delete = λ document s. subst P (sym ((same (requests s)).vectors_delete document s refl));
  keywords_insert = λ chunks s. subst P (sym ((same (requests s)).keywords_insert chunks s refl));
  keywords_delete =
      λ document s. subst P (sym ((same (requests s)).keywords_delete document s refl));
  embedding = λ texts s. subst P (sym ((same (requests s)).embedding texts s refl));
  clock = λ s. subst P (sym ((same (requests s)).clock s refl));
  fresh_id = λ s. subst P (sym ((same (requests s)).fresh_id s refl));
}

-- A URL that lies in the domain and that no rule excludes.
abbrev pub IsAllowed : List NoIndexRule → String → String → Type 0
IsAllowed rules domain url = (contains domain url ≡ true) × (is_excluded rules url none ≡ false)

module _ {Vector I : Type 0} (ports : Ports Vector I) (get_page : String → Exec I Page)
    (allowed_domain : String) (read_rules : Exec I Unit) (requests : I → List String)
    (log : IsLog ports get_page read_rules requests) (rules : List NoIndexRule) where
  abbrev Asked : I → Type 0
  Asked s = All (IsAllowed rules allowed_domain) (requests s)

  abbrev pub HasAsked : Archive I → Type 0
  HasAsked t = (t.rules ≡ rules) × Asked t.indexes

  Asked-fetch :
      (url : String)
      → is_excluded rules url none ≡ false
      → Triple Asked (fetch get_page allowed_domain url) (λ _. Asked) Asked
  unfolding fetch
  Asked-fetch url free =
      Triple-if (not (contains allowed_domain url))
        (raise (value_error ("refusing to scrape outside allowed domain: " <> url)))
        (get_page url >>= λ page. pure (scraped_page url page))
        (λ foreign. Triple-raise _ (λ s h. h))
        (λ own.
          Triple-bind {Q = λ _. Asked} _ _
            (Triple-kept Asked _ (λ s h.
              subst (All (IsAllowed rules allowed_domain)) (sym (log.after_get_page url s))
                ((ground arith, free), h)))
            (λ page. Triple-pure _ (λ s h. h)))

  HasAsked-ingest_page :
      (url : String) (r : Result ScrapedPage)
      → Triple HasAsked (ingest_page ports get_page allowed_domain url r) (λ _. HasAsked) HasAsked
  unfolding ingest_page forget
  HasAsked-ingest_page url (raised e) = Triple-pure tt (λ t h. h)
  HasAsked-ingest_page url (ok page) =
      Triple-attempt _ _
        (Framed-execute ports Asked
          (kept_log ports requests (All (IsAllowed rules allowed_domain)) log.after_ports) rules _)
        (λ n. Triple-pure tt (λ t h. h)) (λ e. Triple-pure tt (λ t h. h))

  HasAsked-sync_unless :
      (b : Bool) (url : String)
      → is_excluded rules url none ≡ b
      → Triple HasAsked (sync_unless ports get_page allowed_domain b url) (λ _. HasAsked) HasAsked
  unfolding sync_unless
  HasAsked-sync_unless true url h = Triple-pure tt (λ t q. q)
  HasAsked-sync_unless false url h =
      Triple-attempt _ _
        (Triple-in_indexes (λ r d. r ≡ rules) (λ _. Asked) Asked _ (Asked-fetch url h))
        (λ page. HasAsked-ingest_page url (ok page)) (λ e. HasAsked-ingest_page url (raised e))

  HasAsked-sync_url :
      (url : String)
      → Triple HasAsked
          (sync_url ports get_page allowed_domain read_rules url)
          (λ _. HasAsked)
          HasAsked
  unfolding sync_url
  HasAsked-sync_url url =
      Triple-bind {Q = λ _. HasAsked} _ _
        (Triple-in_indexes (λ r d. r ≡ rules) (λ _. Asked) Asked _
          (Triple-kept Asked _
            (λ s h. subst (All (IsAllowed rules allowed_domain)) (sym (log.after_read_rules s)) h)))
        (λ _.
          Triple-bind _ _ (Triple-gets {Q = λ r t. (r ≡ rules) × HasAsked t} _ (λ t q. (q.0, q)))
            (λ read. record {
              at = λ t q.
                  subst
                    (λ r.
                      Outcome (λ _. HasAsked) HasAsked
                        (sync_unless ports get_page allowed_domain (is_excluded r url none) url t).0
                        (sync_unless ports get_page allowed_domain (is_excluded r url none) url
                          t).1)
                    (sym q.0) ((HasAsked-sync_unless _ url refl).at t q.1);
            }))

  pub HasAsked-sync_urls :
      (urls : List String)
      → Triple HasAsked
          (sync_urls ports get_page allowed_domain read_rules urls)
          (λ _. HasAsked)
          HasAsked
  unfolding sync_urls
  HasAsked-sync_urls [] = Triple-pure tt (λ t h. h)
  HasAsked-sync_urls (url ∷ urls) =
      Triple-bind {Q = λ _. HasAsked} _ _ (HasAsked-sync_url url) (λ _. HasAsked-sync_urls urls)
