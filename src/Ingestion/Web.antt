-- ===== src/Ingestion/Web.antt =====
-- ingestion/loaders/web_scraper.py and the loop of ingestion/pipeline.py. The HTTP client and the
-- HTML parser are one argument: the page of a URL, or what the request raises. The loop reads the
-- rules outside its `try`, so what Postgres does then is an argument too, and may raise.
pub mod Requests
pub mod Synced
use bank_rag_bot.Prelude.{
  ℕ, String, Bool, true, false, not, ◌==◌, Option, none, some, List, [], ◌∷◌, if◌then◌else◌,
}
use bank_rag_bot.Prelude.Text.{◌<>◌, contains, strip}
use bank_rag_bot.Prelude.Exec.{
  Exec, Result, ok, raised, Error, value_error, pure, raise, gets, attempt, ◌>>=◌, ◌>>◌,
}
use bank_rag_bot.Domain.{Audience, public, DocumentSegment}
use bank_rag_bot.NoIndex.Registry.{is_excluded}
use bank_rag_bot.NoIndex.Manage.{Archive, in_indexes}
use bank_rag_bot.Ingestion.{Ports, Upload, execute}
use bank_rag_bot.Ingestion.Html.{Soup, segment_html}

-- The parsed page: `soup.title.string`, if there is one, and the soup without `script`, `style`,
-- `nav` and `footer`.
pub record Page : Type 0 where
  pub title : Option String
  pub soup : Soup

pub record ScrapedPage : Type 0 where
  pub url : String
  pub title : String
  pub segments : List DocumentSegment

-- `soup.title.string.strip() if soup.title and soup.title.string else url`
unfoldable pub page_title : String → Option String → String
unfolding strip
page_title url none = url
page_title url (some title) = if title == "" then url else strip title

unfoldable pub scraped_page : String → Page → ScrapedPage
unfolding page_title segment_html
scraped_page url page = record {
  url = url;
  title = page_title url page.title;
  segments = segment_html page.soup;
}

module _ {I : Type 0} (get_page : String → Exec I Page) (allowed_domain : String) where
  unfoldable pub fetch : String → Exec I ScrapedPage
  unfolding scraped_page contains
  fetch url =
      if not (contains allowed_domain url)
      then raise (value_error ("refusing to scrape outside allowed domain: " <> url))
      else do page ← get_page url; pure (scraped_page url page)

module _ {Vector I : Type 0} (ports : Ports Vector I) (get_page : String → Exec I Page)
    (allowed_domain : String) where
  unfoldable pub page_upload : String → ScrapedPage → Upload
  page_upload url page = record {
    source_id = url;
    title = page.title;
    segments = page.segments;
    audience = public;
    uploaded_by = "web-scraper";
    valid_until = none;
  }

  -- `except Exception`: logged, and the loop goes on
  unfoldable pub forget : {A : Type 0} → Result A → Exec (Archive I) Unit
  forget r = pure tt

  unfoldable pub ingest_page : String → Result ScrapedPage → Exec (Archive I) Unit
  unfolding page_upload forget
  ingest_page url (raised e) = pure tt
  ingest_page url (ok page) = attempt (execute ports (page_upload url page)) forget

  unfoldable pub sync_unless : Bool → String → Exec (Archive I) Unit
  unfolding fetch ingest_page
  sync_unless true url = pure tt
  sync_unless false url = attempt (in_indexes (fetch get_page allowed_domain url)) (ingest_page url)

  module _ (read_rules : Exec I Unit) where
    -- one round of the loop
    unfoldable pub sync_url : String → Exec (Archive I) Unit
    unfolding sync_unless in_indexes
    sync_url url = do
      _ ← in_indexes read_rules
      rules ← gets (λ s. s.rules)
      sync_unless (is_excluded rules url none) url

    unfoldable pub sync_urls : List String → Exec (Archive I) Unit
    unfolding sync_url
    sync_urls [] = pure tt
    sync_urls (url ∷ urls) = do _ ← sync_url url; sync_urls urls
