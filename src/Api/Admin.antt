-- ===== src/Api/Admin.antt =====
-- interface/api/routers/admin_ingestion.py, admin_urls.py and admin_noindex.py: the routes for
-- employees, over the two tables and the indexes.
pub mod Refused
pub mod Uploads
pub mod Listed
use bank_rag_bot.Prelude.{
  ℕ, String, Bool, true, false, ◌&&◌, ltb, Option, none, some, List, map, ◌==◌, if◌then◌else◌,
}
use bank_rag_bot.Prelude.Exec.{
  Exec, Result, ok, raised, Error, service, document_excluded, unsupported_file_type, invalid_token,
  value_error, json_decode_error, type_error, attribute_error, assertion_error, key_error, http,
  pure, lift, raise, gets, attempt, calling, ◌>>=◌, ◌>>◌,
}
use bank_rag_bot.Prelude.Sorting.{sort_desc}
use bank_rag_bot.Domain.{Audience, DocumentMetadata, NoIndexRule, NoIndexRuleType}
use bank_rag_bot.Access.{RequestIdentity, require_employee}
use bank_rag_bot.Documents.{list_all}
use bank_rag_bot.NoIndex.Manage
use bank_rag_bot.NoIndex.Manage.{Archive, in_indexes}
use bank_rag_bot.Ingestion.{Ports, Upload, execute}
use bank_rag_bot.Ingestion.Loader.{Parsers, load}
use bank_rag_bot.Ingestion.Web.{Page, fetch}
use bank_rag_bot.Settings.{Settings}
use bank_rag_bot.Api.{Gate, Caller, identified, limited, validated, has_length, text_or}

pub record Form (Bytes : Type 0) : Type 0 where
  pub title : String
  pub audience : Audience
  pub valid_until : Option ℕ
  pub filename : Option String
  pub content : Bytes

pub record IngestResponse : Type 0 where
  pub source_id : String
  pub chunks_indexed : ℕ

pub record IngestUrlRequest : Type 0 where
  pub url : String
  pub title : Option String
  pub audience : Audience

pub record DocumentResponse : Type 0 where
  pub source_id : String
  pub title : String
  pub audience : Audience
  pub uploaded_by : Option String
  pub version : ℕ
  pub updated_at : ℕ

pub record NoIndexRuleRequest : Type 0 where
  pub pattern : String
  pub rule_type : NoIndexRuleType
  pub reason : String
  pub locator_kind : Option String
  pub locator_pattern : Option String

-- The dict that `exclude` returns: the pattern, and the count under the name of what it counts.
pub record Purged : Type 0 where
  pub pattern : String
  pub granularity : String
  pub purged : ℕ

pub record NoIndexRuleResponse : Type 0 where
  pub pattern : String
  pub rule_type : NoIndexRuleType
  pub reason : String
  pub created_by : String
  pub locator_kind : Option String
  pub locator_pattern : Option String
  pub created_at : ℕ

-- `except … as exc: raise HTTPException(…)`
unfoldable pub translated : {A : Type 0} → (Error → Error) → Result A → Result A
translated f (ok a) = ok a
translated f (raised e) = raised (f e)

unfoldable pub translating : {S A : Type 0} → (Error → Error) → Exec S A → Exec S A
unfolding translated
translating f m = attempt m (λ r. lift (translated f r))

unfoldable pub unsupported_is_422 : Error → Error
unsupported_is_422 (unsupported_file_type s) = http 422
unsupported_is_422 e = e

unfoldable pub excluded_is_409 : Error → Error
excluded_is_409 (document_excluded s) = http 409
excluded_is_409 e = e

-- a `json.JSONDecodeError` is a `ValueError` too
unfoldable pub value_error_is_422 : Error → Error
value_error_is_422 (value_error s) = http 422
value_error_is_422 json_decode_error = http 422
value_error_is_422 e = e

unfoldable pub document_response : DocumentMetadata → DocumentResponse
document_response d = record {
  source_id = d.source_id;
  title = d.title;
  audience = d.audience;
  uploaded_by = d.uploaded_by;
  version = d.version;
  updated_at = d.updated_at;
}

unfoldable pub rule_response : NoIndexRule → NoIndexRuleResponse
rule_response r = record {
  pattern = r.pattern;
  rule_type = r.rule_type;
  reason = r.reason;
  created_by = r.created_by;
  locator_kind = r.locator_kind;
  locator_pattern = r.locator_pattern;
  created_at = r.created_at;
}

unfoldable pub is_given : Option String → Bool
is_given none = false
is_given (some s) = if s == "" then false else true

pub record Backend (Bytes F Score Vector I : Type 0) : Type 0 where
  pub gate : Gate (Archive I)
  pub parsers : Parsers Bytes F
  pub ports : Ports Vector I
  pub get_page : String → Exec I Page
  pub settings : Settings Score

module _ {Bytes F Score Vector I : Type 0} (b : Backend Bytes F Score Vector I) where
  -- what both uploads do with the use case
  unfoldable pub ingested : Upload → Exec (Archive I) IngestResponse
  unfolding translating excluded_is_409 execute
  ingested u = do
    n ← translating excluded_is_409 (execute b.ports u)
    pure (record { source_id = u.source_id; chunks_indexed = n })

  unfoldable pub form_upload : Form Bytes → RequestIdentity → Exec (Archive I) IngestResponse
  unfolding translated unsupported_is_422 text_or load ingested
  form_upload form identity = do
    segments ←
        lift
          (translated unsupported_is_422 (load b.parsers (text_or "" form.filename) form.content))
    ingested (record {
      source_id = text_or form.title form.filename;
      title = form.title;
      segments = segments;
      audience = form.audience;
      uploaded_by = text_or "unknown" identity.customer_id;
      valid_until = form.valid_until;
    })

  unfoldable pub upload_document : Caller → Form Bytes → Exec (Archive I) IngestResponse
  unfolding limited form_upload require_employee
  upload_document caller form = do
    identity ← limited b.gate b.settings.rate_limit_admin_per_minute caller
    require_employee identity (form_upload form identity)

  unfoldable pub all_documents : Exec (Archive I) (List DocumentResponse)
  unfolding document_response list_all
  all_documents =
      gets (λ s. map document_response (sort_desc ltb (λ d. d.updated_at) (list_all s.documents)))

  unfoldable pub list_documents : Caller → Exec (Archive I) (List DocumentResponse)
  unfolding identified all_documents require_employee
  list_documents caller = do
    identity ← identified b.gate caller
    require_employee identity all_documents

  unfoldable pub page_ingest : IngestUrlRequest → RequestIdentity → Exec (Archive I) IngestResponse
  unfolding translating value_error_is_422 text_or ingested fetch in_indexes
  page_ingest request identity = do
    page ←
        translating value_error_is_422
          (in_indexes (fetch b.get_page b.settings.allowed_scrape_domain request.url))
    ingested (record {
      source_id = request.url;
      title = text_or page.title request.title;
      segments = page.segments;
      audience = request.audience;
      uploaded_by = text_or "unknown" identity.customer_id;
      valid_until = none;
    })

  unfoldable pub ingest_url : Caller → IngestUrlRequest → Exec (Archive I) IngestResponse
  unfolding limited page_ingest require_employee validated
  ingest_url caller request = do
    identity ← limited b.gate b.settings.rate_limit_admin_per_minute caller
    validated (if request.url == "" then false else true)
        (require_employee identity (page_ingest request identity))

  unfoldable pub add_exclusion : NoIndexRuleRequest → RequestIdentity → Exec (Archive I) Purged
  unfolding text_or is_given in_indexes
  add_exclusion request identity = do
    now ← in_indexes (calling b.ports.now)
    n ← Manage.exclude b.ports.vectors b.ports.keywords (record {
      pattern = request.pattern;
      rule_type = request.rule_type;
      reason = request.reason;
      created_by = text_or "unknown" identity.customer_id;
      locator_kind = request.locator_kind;
      locator_pattern = request.locator_pattern;
      created_at = now;
    })
    pure (record {
      pattern = request.pattern;
      granularity = if is_given request.locator_kind then "chunks_purged" else "documents_purged";
      purged = n;
    })

  unfoldable pub exclude : Caller → NoIndexRuleRequest → Exec (Archive I) Purged
  unfolding identified add_exclusion require_employee validated has_length
  exclude caller request = do
    identity ← identified b.gate caller
    validated ((if request.pattern == "" then false else true) && has_length 1 500 request.reason)
        (require_employee identity (add_exclusion request identity))

  unfoldable pub include : Caller → String → Exec (Archive I) String
  unfolding identified require_employee
  include caller pattern = do
    identity ← identified b.gate caller
    require_employee identity (do _ ← Manage.include pattern; pure pattern)

  unfoldable pub list_rules : Caller → Exec (Archive I) (List NoIndexRuleResponse)
  unfolding identified require_employee rule_response
  list_rules caller = do
    identity ← identified b.gate caller
    require_employee identity (do rules ← Manage.list_rules; pure (map rule_response rules))
