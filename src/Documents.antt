-- ===== src/Documents.antt =====
-- infrastructure/persistence/document_repository_sql.py: the table `document_metadata`, whose
-- primary key is the source id, as the list of its rows. The column `valid_until` does not exist,
-- so it is read back as none. A failure of the database itself is not modelled.
use bank_rag_bot.Prelude.{
  ℕ, String, ◌==◌, Option, none, some, List, [], ◌∷◌, ◌≡◌, ◌≢◌, map, keep, if◌then◌else◌, arith,
  eq_iff, eq_refl,
}
use bank_rag_bot.Domain.{Audience, public, internal, DocumentMetadata}

-- `Audience(value)` and `audience.value`
abbrev pub audience_value : Audience → String
audience_value public = "public"
audience_value internal = "internal"

abbrev pub audience_of : String → Option Audience
audience_of s =
    if s == "public" then some public else if s == "internal" then some internal else none

pub record DocumentMetadataRow : Type 0 where
  pub source_id : String
  pub title : String
  pub audience : Audience
  pub uploaded_by : Option String
  pub version : ℕ
  pub updated_at : ℕ

abbrev to_row : DocumentMetadata → DocumentMetadataRow
to_row m = record {
  source_id = m.source_id;
  title = m.title;
  audience = m.audience;
  uploaded_by = m.uploaded_by;
  version = m.version;
  updated_at = m.updated_at;
}

-- `updated_at` is never null in a row that was saved.
unfoldable pub to_metadata : DocumentMetadataRow → DocumentMetadata
to_metadata r = record {
  source_id = r.source_id;
  title = r.title;
  audience = r.audience;
  uploaded_by = r.uploaded_by;
  version = r.version;
  updated_at = r.updated_at;
  valid_until = none;
}

unfoldable pub save_metadata :
    DocumentMetadata → List DocumentMetadataRow → List DocumentMetadataRow
save_metadata m [] = to_row m ∷ []
save_metadata m (r ∷ rs) =
    if r.source_id == m.source_id then to_row m ∷ rs else r ∷ save_metadata m rs

unfoldable pub get_latest_version : String → List DocumentMetadataRow → ℕ
get_latest_version source_id [] = 0
get_latest_version source_id (r ∷ rs) =
    if r.source_id == source_id then r.version else get_latest_version source_id rs

unfoldable pub list_all : List DocumentMetadataRow → List DocumentMetadata
unfolding to_metadata
list_all rows = map to_metadata rows

unfoldable pub list_by_audience : String → List DocumentMetadataRow → List DocumentMetadata
unfolding to_metadata
list_by_audience audience rows =
    map to_metadata (keep (λ r. audience_value r.audience == audience) rows)

pub get_latest_version-save_metadata :
    (m : DocumentMetadata) (rows : List DocumentMetadataRow)
    → get_latest_version m.source_id (save_metadata m rows) ≡ m.version
unfolding get_latest_version save_metadata
get_latest_version-save_metadata m [] = ground (arith, eq_refl m.source_id)
get_latest_version-save_metadata m (r ∷ rs) =
    ground (arith, eq_refl m.source_id, get_latest_version-save_metadata m rs)

pub get_latest_version-save_metadata_other :
    (m : DocumentMetadata) (source_id : String) (rows : List DocumentMetadataRow)
    → source_id ≢ m.source_id
    → get_latest_version source_id (save_metadata m rows) ≡ get_latest_version source_id rows
unfolding get_latest_version save_metadata
get_latest_version-save_metadata_other m source_id [] h =
    ground (arith, eq_iff m.source_id source_id)
get_latest_version-save_metadata_other m source_id (r ∷ rs) h = ground (
  arith,
  eq_iff m.source_id source_id,
  eq_iff r.source_id source_id,
  eq_iff r.source_id m.source_id,
  get_latest_version-save_metadata_other m source_id rs h,
)
