-- ===== src/Tests/Fixtures.antt =====
-- Small inputs that the tests share: rules, a store in memory, clients that answer as they
-- promise, a conversation, tools.
use mathlib.Core.Path.{subst}
use bank_rag_bot.Prelude.{
  ℕ, ◌+◌, ◌-◌, if◌then◌else◌, String, true, false, ◌≤◌, ◌≡◌, ◌==◌, refl, Option, none, some, List,
  [], ◌∷◌, ◌++◌, map, take, keep, length, ltb, All, Elem-All, Elem-take, Elem-keep,
  Elem-append-cases, length-take-le,
}
use bank_rag_bot.Prelude.Exec.{Result, ok, raised, invalid_token, ok-inj}
use bank_rag_bot.Domain.{
  NoIndexRule, ChunkLocator, DocumentMetadata, Chunk, Citation, Conversation, Audience, url, obj,
  end, str,
}
use bank_rag_bot.Domain
use bank_rag_bot.Python.{Python}
use bank_rag_bot.Indexes.{Index, IsIndex, is_elsewhere}
use bank_rag_bot.NoIndex.Manage.{Archive}
use bank_rag_bot.Ingestion.{Upload, Ports}
use bank_rag_bot.Ingestion.Quiet.{IsQuiet}
use bank_rag_bot.Ingestion.Chunker.{SemanticChunker}
use bank_rag_bot.Retrieval.Payload.{Payload, Point, payload_of, to_chunk}
use bank_rag_bot.Retrieval.Filters.{Condition, satisfies_all}
use bank_rag_bot.Retrieval.Qdrant
use bank_rag_bot.Retrieval.OpenSearch
use bank_rag_bot.Retrieval.Audiences.{QdrantAnswers, OpenSearchAnswers}
use bank_rag_bot.Retrieval.Tool
use bank_rag_bot.Conversations.{serialize}
use bank_rag_bot.Agents.Tool as AgentTool
use bank_rag_bot.AccountTools.{BankApi}
use bank_rag_bot.Access.{JwtPayload, RequestIdentity}

abbrev pub promo_rule : NoIndexRule
promo_rule = record {
  pattern = "https://x/promo/*";
  rule_type = url;
  reason = "expired";
  created_by = "anna";
  locator_kind = none;
  locator_pattern = none;
  created_at = 5;
}

abbrev pub chunker : SemanticChunker
chunker = record { max_chars = 12; overlap_chars = 3 }

-- a store in memory: the payloads
abbrev pub memory : Index ℕ (List Payload)
memory = record {
  contents = λ s. s;
  insert = λ chunks s. (ok tt, map payload_of chunks ++ s);
  delete_by_document = λ document s. (ok tt, keep (is_elsewhere document) s);
  delete_by_locator = λ document kind pattern s. (ok 0, s);
}

pub memory-IsIndex : IsIndex memory
memory-IsIndex = record {
  inserted = λ chunks s p e m. Elem-append-cases p (map payload_of chunks) s m;
  deleted = λ document s e. refl;
}

abbrev pub silent : Index ℕ (List Payload)
silent = record {
  contents = λ s. [];
  insert = λ chunks s. (ok tt, s);
  delete_by_document = λ document s. (ok tt, s);
  delete_by_locator = λ document kind pattern s. (ok 0, s);
}

abbrev pub ports : Ports ℕ (List Payload)
ports = record {
  chunker = chunker;
  vectors = memory;
  keywords = silent;
  embed_documents = λ texts s. (ok (map (λ t. 1) texts), s);
  sanitize = λ text. text;
  now = λ s. (9, s);
  uuid4 = λ s. ("id", s);
}

pub ports-IsQuiet : IsQuiet ports
ports-IsQuiet = record {
  after_keywords_insert = λ chunks s. refl;
  after_keywords_delete = λ document s. refl;
  after_embed = λ texts s. refl;
  after_now = λ s. refl;
  after_uuid4 = λ s. refl;
}

abbrev pub old_metadata : DocumentMetadata
old_metadata = record {
  source_id = "a.txt";
  title = "A";
  audience = Domain.public;
  uploaded_by = none;
  version = 1;
  updated_at = 2;
  valid_until = none;
}

abbrev pub old_payload : Payload
old_payload = record {
  document_id = "a.txt";
  text = "Tasso 2%.";
  audience = "public";
  title = "A";
  version = 1;
  locator_kind = "line_range";
  locator_value = "1-40";
  valid_until_ts = 7;
}

abbrev pub archive : Archive (List Payload)
archive = record {
  rules = promo_rule ∷ [];
  documents =
      (record {
        source_id = "a.txt";
        title = "A";
        audience = Domain.public;
        uploaded_by = none;
        version = 1;
        updated_at = 2;
      })
      ∷ [];
  indexes = old_payload ∷ [];
}

abbrev pub upload : Upload
upload = record {
  source_id = "a.txt";
  title = "A";
  segments =
      (record { text = "Tasso 3%."; locator = record { kind = "line_range"; value = "1-40" } })
      ∷ [];
  audience = Domain.public;
  uploaded_by = "anna";
  valid_until = none;
}

-- a store that answers a query as promised, from the points it holds
abbrev pub points : List (Point ℕ)
points = (record { id = "p"; vector = some 1; payload = old_payload }) ∷ []

abbrev pub answer : ℕ → List Condition → List (Point ℕ)
answer limit conditions = take limit (keep (λ p. satisfies_all conditions p.payload) points)

pub answer-satisfies :
    (limit : ℕ) (conditions : List Condition) (ps : List (Point ℕ))
    → ◌≡◌ {A = Result (List (Point ℕ))} (ok (answer limit conditions)) (ok ps)
    → All (λ p. satisfies_all conditions p.payload ≡ true) ps × (length ps ≤ limit)
answer-satisfies limit conditions ps h =
    subst
      (λ x. All (λ (p : Point ℕ). satisfies_all conditions p.payload ≡ true) x × (length x ≤ limit))
      (ok-inj _ _ h)
      (
        Elem-All _ (answer limit conditions) (λ p m.
            (Elem-keep (λ (q : Point ℕ). satisfies_all conditions q.payload) p points
              (Elem-take limit p _ m)).1),
        length-take-le limit _,
      )

abbrev pub qdrant : Qdrant.Client ℕ ℕ (Unit {0})
qdrant = record {
  points = λ s. points;
  upsert = λ ps s. (ok tt, s);
  delete_where = λ conditions s. (ok tt, s);
  delete_ids = λ ids s. (ok tt, s);
  scroll = λ conditions limit s. (ok (answer limit conditions), s);
  query_points = λ query limit threshold conditions s. (ok (answer limit conditions), s);
  now = λ s. 6000000;
}

abbrev pub opensearch : OpenSearch.Client ℕ (Unit {0})
opensearch = record {
  hits = λ s. points;
  index = λ id payload s. (ok tt, s);
  delete_by_query = λ conditions s. (ok tt, s);
  delete = λ id s. (ok tt, s);
  search = λ text conditions size s. (ok (answer size conditions), s);
  now = λ s. 6000000;
}

pub qdrant-QdrantAnswers : QdrantAnswers qdrant
qdrant-QdrantAnswers = record {
  answers = λ query limit threshold conditions s ps h. answer-satisfies limit conditions ps h;
}

pub opensearch-OpenSearchAnswers : OpenSearchAnswers opensearch
opensearch-OpenSearchAnswers = record {
  answers = λ text conditions size s ps h. answer-satisfies size conditions ps h;
}

abbrev pub found_chunk : Chunk ℕ
found_chunk =
    to_chunk 6000000 Domain.public (record { id = "p"; vector = some 1; payload = old_payload })

abbrev pub search_ports : Tool.Ports ℕ ℕ (Unit {0})
search_ports = record {
  embed_query = λ query s. (ok 1, s);
  qdrant = qdrant;
  opensearch = opensearch;
  predict = λ query text. 1;
  floats = record { zero_score = 0; plus_score = ◌+◌; reciprocal = λ n. 100 - n; less = ltb };
  explain = λ e. "";
}

abbrev pub search_tool : Tool.RagSearchTool ℕ
search_tool = record {
  allowed_audiences = Domain.public ∷ [];
  top_k = 5;
  candidate_pool = 15;
  score_threshold = none;
}

abbrev pub conversation : Conversation
conversation = record {
  id = "c";
  customer_id = some "anna";
  is_authenticated = true;
  turns = (record { role = "user"; content = "blocca la carta"; timestamp = 5 }) ∷ [];
  pending_action = some (record {
    tool_name = "lock_card";
    arguments = ("card_id", str "7") ∷ [];
    confirmation_prompt = "Confermi?";
  });
}

abbrev pub write_time : ℕ → String
write_time t = "0001-01-01T00:00:00.000005+00:00"

abbrev pub read_time : String → Option ℕ
read_time text = some 5

abbrev pub python : Python
python = record {
  lower = λ s. s;
  is_alnum = λ c. false;
  is_decimal = λ c. false;
  loads = λ s. some (serialize write_time read_time conversation);
  dumps = λ v. "{…}";
  format = λ v. "";
  repr_citation = λ c. "";
  repr_pending = λ p. "";
  sha256_hexdigest = λ s. s;
}

abbrev pub accept : String → Result JwtPayload
accept token =
    if token == "t"
    then ok (record { sub = "anna"; role = "employee" })
    else raised (invalid_token "bad")

abbrev pub employee : RequestIdentity
employee = record { customer_id = some "anna"; is_authenticated = true; is_employee = true }

abbrev pub lock_card : AgentTool.Tool (Unit {0})
lock_card = record {
  name = "lock_card";
  description = "";
  requires_authentication = true;
  requires_confirmation = true;
  run = λ arguments s. (ok "{}", s);
}

abbrev pub bank_api : BankApi (Unit {0})
bank_api = record {
  get_account_balance = λ customer account s. (ok Domain.null, s);
  lock_card = λ customer card s. (ok (Domain.bool true), s);
}

abbrev pub find_branches : AgentTool.Tool (Unit {0})
find_branches = record {
  name = "find_branches";
  description = "";
  requires_authentication = false;
  requires_confirmation = false;
  run = λ arguments s. (ok "{}", s);
}

abbrev pub text_rule : NoIndexRule
text_rule = record promo_rule { pattern = "*.txt" }
