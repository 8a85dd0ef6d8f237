-- ===== src/Tests/Synced.antt =====
-- A sync at concrete inputs: an excluded page, one outside the domain, one that cannot be had and
-- one that is ingested.
use bank_rag_bot.Prelude.{
  ℕ, String, ◌≡◌, refl, ◌⊎◌, some, List, [], ◌∷◌, ◌++◌, ◌==◌, if◌then◌else◌, map, keep, All,
  Elem-keep, Elem-append-cases,
}
use bank_rag_bot.Prelude.Exec.{Exec, ok, raised, service, attempt, ◌>>=◌}
use bank_rag_bot.Indexes.{Index, AddsOnlyGiven, is_elsewhere}
use bank_rag_bot.NoIndex.Glob.{fnmatch}
use bank_rag_bot.NoIndex.Registry.{is_excluded}
use bank_rag_bot.NoIndex.Manage.{Archive}
use bank_rag_bot.Retrieval.Payload.{Payload, payload_of}
use bank_rag_bot.Ingestion.{Ports, execute}
use bank_rag_bot.Ingestion.Chunker.{split_segments}
use mathlib.Core.List.{flat_map}
use bank_rag_bot.Ingestion.Quiet.{IsQuiet}
use bank_rag_bot.Ingestion.Permitted.{IsPermitted}
use bank_rag_bot.Ingestion.Web.{Page, sync_urls}
use bank_rag_bot.Ingestion.Web.Requests.{IsLog, IsAllowed}
use bank_rag_bot.Ingestion.Web.Synced.{Failed, sync_urls-IsPermitted}
use bank_rag_bot.Tests.Fixtures.{promo_rule, ports, archive}

-- what has been asked for, and the payloads
abbrev Network : Type 0
Network = List String × List Payload

abbrev networked : Index ℕ Network
networked = record {
  contents = λ s. s.1;
  insert = λ chunks s. (ok tt, (s.0, map payload_of chunks ++ s.1));
  delete_by_document = λ document s. (ok tt, (s.0, keep (is_elsewhere document) s.1));
  delete_by_locator = λ document kind pattern s. (ok 0, s);
}

networked-AddsOnlyGiven : AddsOnlyGiven networked
networked-AddsOnlyGiven = record {
  inserted = λ chunks s p m. Elem-append-cases p (map payload_of chunks) s.1 m;
  deleted = λ document s p m. (Elem-keep (is_elsewhere document) p s.1 m).0;
}

abbrev unheard : Index ℕ Network
unheard = record {
  contents = λ s. [];
  insert = λ chunks s. (ok tt, s);
  delete_by_document = λ document s. (ok tt, s);
  delete_by_locator = λ document kind pattern s. (ok 0, s);
}

abbrev web_ports : Ports ℕ Network
web_ports = record {
  chunker = ports.chunker;
  vectors = networked;
  keywords = unheard;
  embed_documents = λ texts s. (ok (map (λ t. 1) texts), s);
  sanitize = λ text. text;
  now = λ s. (9, s);
  uuid4 = λ s. ("id", s);
}

web_ports-IsQuiet : IsQuiet web_ports
web_ports-IsQuiet = record {
  after_keywords_insert = λ chunks s. refl;
  after_keywords_delete = λ document s. refl;
  after_embed = λ texts s. refl;
  after_now = λ s. refl;
  after_uuid4 = λ s. refl;
}

-- one page that can be had, and others that cannot
abbrev page_at : String → Exec Network Page
page_at url s = (
  if url == "https://x/conti"
      then ok (record { title = some "Conti"; soup = record { headings = []; text = "Tasso 3%." } })
      else raised (service "404"),
  (url ∷ s.0, s.1),
)

abbrev read_rules : Exec Network Unit
read_rules s = (ok tt, s)

web_ports-IsLog : IsLog web_ports page_at read_rules (λ s. s.0)
web_ports-IsLog = record {
  after_get_page = λ url s. refl;
  after_read_rules = λ s. refl;
  after_ports = λ urls. record {
    vectors_insert = λ chunks s h. h;
    vectors_delete = λ document s h. h;
    keywords_insert = λ chunks s h. h;
    keywords_delete = λ document s h. h;
    embedding = λ texts s h. h;
    clock = λ s h. h;
    fresh_id = λ s h. h;
  };
}

abbrev site : List String
site = "https://x/promo/a" ∷ "https://y/conti" ∷ "https://x/faq" ∷ "https://x/conti" ∷ []

abbrev web_archive : Archive Network
web_archive = record {
  rules = promo_rule ∷ [];
  documents = archive.documents;
  indexes = ([], archive.indexes);
}

asked_test :
    (sync_urls web_ports page_at "x" read_rules site web_archive).1.indexes.0
    ≡ "https://x/conti" ∷ "https://x/faq" ∷ []
unfolding sync_urls ◌>>=◌ is_excluded fnmatch attempt execute split_segments flat_map
asked_test = refl

sync_urls-IsPermitted_example :
    let r = sync_urls web_ports page_at "x" read_rules site web_archive in
    ((r.0 ≡ ok tt) ⊎ Failed read_rules)
    × (r.1.rules ≡ web_archive.rules)
    × All (IsPermitted web_archive.rules) r.1.indexes.1
    × All (IsAllowed web_archive.rules "x") r.1.indexes.0
unfolding is_excluded fnmatch
sync_urls-IsPermitted_example =
    sync_urls-IsPermitted web_ports networked-AddsOnlyGiven web_ports-IsQuiet page_at
      (λ url s. refl) "x" read_rules (λ s. refl) (λ s. s.0) web_ports-IsLog site web_archive
      ((refl, refl), tt) tt
