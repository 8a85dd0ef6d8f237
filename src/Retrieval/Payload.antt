-- ===== src/Retrieval/Payload.antt =====
-- The payload of a point in Qdrant, which is the body of a document in OpenSearch too, and the
-- chunk that is read from it. The two files have the same code here.
use bank_rag_bot.Prelude.{
  ℕ, String, ◌*◌, ◌/◌, ◌≡◌, ◌≢◌, refl, Option, none, some, if◌then◌else◌, eqb, arith,
}
use bank_rag_bot.Domain.{Audience, public, internal, Chunk, ChunkLocator}
use bank_rag_bot.Documents.{audience_value, audience_of}

-- the days from 0001-01-01 to 9999-12-31
abbrev pub last_day : ℕ
last_day = 3652058

-- `int(datetime(y, m, d, tzinfo=UTC).timestamp())`: the seconds up to the day's midnight, counted
-- from 0001-01-01 like every time here, where Unix counts from 1970.
abbrev pub timestamp : ℕ → ℕ
timestamp day = day * 86400

abbrev pub no_expiry_sentinel : ℕ
no_expiry_sentinel = timestamp last_day

unfoldable pub valid_until_ts : Option ℕ → ℕ
valid_until_ts none = no_expiry_sentinel
valid_until_ts (some day) = timestamp day

pub record Payload : Type 0 where
  pub document_id : String
  pub text : String
  pub audience : String
  pub title : String
  pub version : ℕ
  pub locator_kind : String
  pub locator_value : String
  pub valid_until_ts : ℕ

-- A point of the collection: the payload beside the id and the vector.
pub record Point (Vector : Type 0) : Type 0 where
  pub id : String
  pub vector : Option Vector
  pub payload : Payload

unfoldable pub payload_of : {Vector : Type 0} → Chunk Vector → Payload
unfolding valid_until_ts
payload_of c = record {
  document_id = c.document_id;
  text = c.text;
  audience = audience_value c.metadata.audience;
  title = c.metadata.title;
  version = c.metadata.version;
  locator_kind = c.locator.kind;
  locator_value = c.locator.value;
  valid_until_ts = valid_until_ts c.metadata.valid_until;
}

unfoldable pub to_point : {Vector : Type 0} → Chunk Vector → Point Vector
unfolding payload_of
to_point c = record { id = c.id; vector = c.embedding; payload = payload_of c }

abbrev pub locator_of : Payload → ChunkLocator
locator_of p = record { kind = p.locator_kind; value = p.locator_value }

-- `datetime.fromtimestamp(ts, tz=UTC).date()`
unfoldable pub expiry_of : ℕ → Option ℕ
expiry_of ts = if eqb ts no_expiry_sentinel then none else some (ts / 86400)

-- `Audience(…)` raises on another text, which nothing writes. The vector is not asked for.
unfoldable pub to_chunk : {Vector : Type 0} → ℕ → Audience → Point Vector → Chunk Vector
unfolding expiry_of
to_chunk now audience p = record {
  id = p.id;
  document_id = p.payload.document_id;
  text = p.payload.text;
  metadata = record {
    source_id = p.payload.document_id;
    title = p.payload.title;
    audience = audience;
    uploaded_by = none;
    version = p.payload.version;
    updated_at = now;
    valid_until = expiry_of p.payload.valid_until_ts;
  };
  locator = locator_of p.payload;
  embedding = none;
}

pub audience_of-audience_value : (a : Audience) → audience_of (audience_value a) ≡ some a
audience_of-audience_value public = refl
audience_of-audience_value internal = refl

-- A last day of validity is read back as it was stored, unless it is 9999-12-31.
pub expiry_of-valid_until_ts :
    (day : ℕ) → day ≢ last_day → expiry_of (valid_until_ts (some day)) ≡ some day
unfolding expiry_of valid_until_ts
expiry_of-valid_until_ts day not_last = ground arith

-- The one day that is not: 9999-12-31 is read back as no expiry.
expiry_of-last_day : expiry_of (valid_until_ts (some last_day)) ≡ none
unfolding expiry_of valid_until_ts
expiry_of-last_day = refl
