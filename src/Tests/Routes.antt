-- ===== src/Tests/Routes.antt =====
-- The routes for employees at concrete inputs.
use bank_rag_bot.Prelude.{
  ℕ, suc, String, Bool, true, false, ◌≡◌, refl, sym, ap, arith, eq_iff, none, some, List, [],
  length, Elem,
}
use bank_rag_bot.Prelude.Exec.{◌>>=◌, ok, raised, http, service, ok-inj}
use bank_rag_bot.Prelude.Sorting.Descending.{IsDescending}
use bank_rag_bot.Domain
use bank_rag_bot.Domain.{Json, DocumentSegment}
use bank_rag_bot.Settings.{default_settings}
use bank_rag_bot.Access.{Counters, RequestIdentity, get_identity, anonymous}
use bank_rag_bot.Access.Window.{CountsUp, after_requests, is_allowed-window}
use bank_rag_bot.Access
use bank_rag_bot.Documents.{DocumentMetadataRow, to_metadata}
use bank_rag_bot.NoIndex.Manage.{Archive}
use bank_rag_bot.Retrieval.Payload.{Payload}
use bank_rag_bot.Ingestion.Loader.{Parsers, extension_of}
use bank_rag_bot.Ingestion.Pdf.{whole_numbers}
use bank_rag_bot.Adapters.Collection.{Admin, ensure_collection}
use bank_rag_bot.Adapters.Collection.Ensured.{AdminKeeps, ensure_collection-again}
use bank_rag_bot.Api.{Caller, text_or}
use bank_rag_bot.Api.Admin.{
  Backend, Form, IngestUrlRequest, NoIndexRuleRequest, upload_document, list_documents, ingest_url,
  exclude, include, list_rules, form_upload, all_documents, document_response, DocumentResponse,
}
use bank_rag_bot.Api.Admin.Refused.{IsRefused, KeepsCounters, IsOutsider, admin-IsRefused}
use bank_rag_bot.Api.Admin.Uploads.{form_upload-unsupported}
use bank_rag_bot.Api.Admin.Listed.{all_documents-IsDescending}
use bank_rag_bot.Tests.Fixtures.{accept, employee, ports, archive}

-- counters that are left alone
abbrev idle_counters : Counters (Archive (List Payload))
idle_counters = record { incr = λ k s. (ok 1, s); expire = λ k seconds s. (ok tt, s) }

abbrev parsers : Parsers String ℕ
parsers = record {
  decode = λ s. s;
  geometry = whole_numbers;
  pdf_pages = λ s. raised (service "no PDF");
  docx_paragraphs = λ s. raised (service "no DOCX");
  csv_rows = λ s. ok [];
  xlsx_sheets = λ s. ok [];
  json_value = λ s. ok Domain.null;
  json_text = λ v. "null";
  xml_root = λ s. raised (service "no XML");
  lower = λ s. s;
}

abbrev admin : Backend String ℕ ℕ ℕ (List Payload)
admin = record {
  gate = record { counters = idle_counters; jwt_decode = accept; explain = λ e. "" };
  parsers = parsers;
  ports = ports;
  get_page = λ url s. (raised (service "404"), s);
  settings = default_settings "sk-1" "https://core" "service" "secret";
}

abbrev nobody : Caller
nobody = record { authorization = none; client = some "10.0.0.1" }

-- nothing of the archive has changed
abbrev IsSame : Archive (List Payload) → Type 0
IsSame s = s ≡ archive

nobody-IsOutsider : IsOutsider admin.gate nobody
unfolding get_identity
nobody-IsOutsider i e = ap (λ x. x.is_employee) (sym (ok-inj _ _ e))

idle_counters-KeepsCounters : KeepsCounters IsSame idle_counters
idle_counters-KeepsCounters = record {
  incr = λ k. record { at = λ s p. p };
  expire = λ k seconds. record { at = λ s p. p };
}

admin-IsRefused_example :
    ((form : Form String) → IsRefused IsSame (upload_document admin nobody form) archive)
    × ((request : IngestUrlRequest) → IsRefused IsSame (ingest_url admin nobody request) archive)
    × ((request : NoIndexRuleRequest) → IsRefused IsSame (exclude admin nobody request) archive)
    × ((pattern : String) → IsRefused IsSame (include admin nobody pattern) archive)
    × IsRefused IsSame (list_documents admin nobody) archive
    × IsRefused IsSame (list_rules admin nobody) archive
admin-IsRefused_example =
    admin-IsRefused admin IsSame nobody nobody-IsOutsider idle_counters-KeepsCounters archive refl

abbrev form : String → Form String
form filename = record {
  title = "A";
  audience = Domain.public;
  valid_until = none;
  filename = some filename;
  content = "Tasso 3%.";
}

form_upload-unsupported_example :
    form_upload admin (form "a.exe") employee archive ≡ (raised (http 422), archive)
unfolding extension_of text_or
form_upload-unsupported_example =
    form_upload-unsupported admin (form "a.exe") employee archive (λ m. ground (
      arith,
      eq_iff "exe" "csv",
      eq_iff "exe" "docx",
      eq_iff "exe" "json",
      eq_iff "exe" "markdown",
      eq_iff "exe" "md",
      eq_iff "exe" "pdf",
      eq_iff "exe" "txt",
      eq_iff "exe" "xlsm",
      eq_iff "exe" "xlsx",
      eq_iff "exe" "xml",
    ))

all_documents-IsDescending_example :
    (ds : List DocumentResponse) × (all_documents admin archive ≡ (ok ds, archive))
    × IsDescending (λ d. d.updated_at) ds
    × (length ds ≡ 1)
    × ((r : DocumentMetadataRow)
        → Elem r archive.documents
        → Elem (document_response (to_metadata r)) ds)
all_documents-IsDescending_example = all_documents-IsDescending admin archive

-- one counter for every key
abbrev tally : Counters ℕ
tally = record { incr = λ k s. (ok (suc s), suc s); expire = λ k seconds s. (ok tt, s) }

abbrev tally-CountsUp : CountsUp tally
tally-CountsUp = record {
  count = λ s k. s;
  incr_returns = λ k s. refl;
  incr_adds = λ k s. refl;
  expire_returns = λ k seconds s. refl;
  expire_keeps = λ k seconds s. refl;
}

is_allowed-window_example :
    (Access.is_allowed tally "anna" 20 60 (after_requests tally tally-CountsUp "anna" 20 60 20 0)).0
    ≡ ok false
is_allowed-window_example = is_allowed-window tally tally-CountsUp "anna" 20 60 20 0 refl

-- whether the collection is there
abbrev collection : Admin Bool
collection = record {
  collection_exists = λ s. (ok s, s);
  create_collection = λ size s. (ok tt, true);
  create_payload_index = λ name schema s. (ok tt, s);
}

collection-AdminKeeps : AdminKeeps collection
collection-AdminKeeps = record {
  exists = λ s. s;
  asked = λ s. refl;
  created = λ size s e. refl;
  indexed = λ name schema s e. e;
}

ensure_collection-again_example :
    let t = (ensure_collection collection false).1 in ensure_collection collection t ≡ (ok tt, t)
unfolding ensure_collection ◌>>=◌
ensure_collection-again_example =
    ensure_collection-again collection collection-AdminKeeps false refl
