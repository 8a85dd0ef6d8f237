-- ===== src/Tests/Composed.antt =====
-- The composed program at a concrete input: Qdrant in memory, and services that leave it alone.
use mathlib.Core.List.{flat_map}
use bank_rag_bot.Prelude.{
  ℕ, suc, ◌+◌, ◌-◌, ltb, false, ◌≡◌, refl, arith, none, some, List, [], ◌∷◌, map, All,
}
use bank_rag_bot.Prelude.Text.{is_space}
use bank_rag_bot.Prelude.Exec.{ok, ◌>>=◌}
use bank_rag_bot.Domain
use bank_rag_bot.Documents.{get_latest_version}
use bank_rag_bot.NoIndex.Manage.{Archive}
use bank_rag_bot.NoIndex.Glob.{fnmatch}
use bank_rag_bot.NoIndex.Registry.{is_excluded}
use bank_rag_bot.Retrieval.Payload.{Point, locator_of}
use bank_rag_bot.Retrieval.OpenSearch
use bank_rag_bot.Ingestion.{execute}
use bank_rag_bot.Ingestion.Current.{IsCurrent}
use bank_rag_bot.Ingestion.Chunker.{split_segments}
use bank_rag_bot.Composition.{Clients, ingest_ports}
use bank_rag_bot.Composition.Ingests.{IsApart, stored, execute-ingest_ports}
use bank_rag_bot.Tests.Fixtures.{archive, upload, old_payload, python, accept}
use bank_rag_bot.Tests.Stores.{point_store, point_store-QdrantWrites}

abbrev World : Type 0
World = List (Point ℕ)

-- an OpenSearch that keeps nothing
abbrev forgetful : OpenSearch.Client ℕ World
forgetful = record {
  hits = λ s. [];
  index = λ id payload s. (ok tt, s);
  delete_by_query = λ conditions s. (ok tt, s);
  delete = λ id s. (ok tt, s);
  search = λ text conditions size s. (ok [], s);
  now = λ s. 6000000;
}

abbrev clients : Clients (Unit {0}) ℕ ℕ World
clients = record {
  py = python;
  isoformat = λ t. "";
  fromisoformat = λ s. none;
  explain = λ e. "";
  jwt_decode = accept;
  create_completion = λ prompt messages s. (ok [], s);
  create_stream = λ prompt messages tools s. (([], none), s);
  create_embeddings = λ texts s. (ok (map (λ t. 1) texts), s);
  qdrant = point_store;
  opensearch = forgetful;
  redis = record { get = λ k s. (ok none, s); set = λ k v ttl s. (ok tt, s) };
  counters = record { incr = λ k s. (ok 1, s); expire = λ k seconds s. (ok tt, s) };
  insert_audit = λ row s. (ok tt, s);
  http = record {
    get = λ path s. (ok tt, s);
    post = λ path s. (ok tt, s);
    raise_for_status = λ response. ok tt;
    json = λ response. ok Domain.null;
    to_float = λ v. ok v;
  };
  predict = λ query text. 1;
  floats = record { zero_score = 0; plus_score = ◌+◌; reciprocal = λ n. 100 - n; less = ltb };
  branches = [];
  uuid4 = λ s. ("id", s);
  now = λ s. (9, s);
}

clients-IsApart : IsApart clients
clients-IsApart = record {
  indexed = λ id payload s. refl;
  deleted = λ conditions s. refl;
  embedded = λ texts s. refl;
  clock = λ s. refl;
  ids = λ s. refl;
}

abbrev before : Archive World
before = record {
  rules = archive.rules;
  documents = archive.documents;
  indexes = (record { id = "p"; vector = some 1; payload = old_payload }) ∷ [];
}

execute-ingest_ports_example :
    let t = (execute (ingest_ports clients) upload before).1 in
    (get_latest_version "a.txt" t.documents ≡ suc (get_latest_version "a.txt" before.documents))
    × IsCurrent t.documents (stored clients clients-IsApart t.indexes)
    × All
        (λ c.
          c.document_id ≡ "a.txt" → is_excluded before.rules "a.txt" (some (locator_of c)) ≡ false)
        (stored clients clients-IsApart t.indexes)
unfolding execute get_latest_version ◌>>=◌ split_segments fnmatch flat_map is_space ingest_ports
execute-ingest_ports_example =
    execute-ingest_ports clients clients-IsApart point_store-QdrantWrites upload before 1
      ((refl, omega arith), tt) refl
