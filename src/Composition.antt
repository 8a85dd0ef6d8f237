-- ===== src/Composition.antt =====
-- di_container.py: which adapter stands behind which port, over one world that has every remote
-- service. The clients of the libraries are the record `Clients`.
pub mod Ingests
use bank_rag_bot.Prelude.{ℕ, String, Option, List}
use bank_rag_bot.Prelude.Text.{◌<>◌}
use bank_rag_bot.Prelude.Exec.{Exec, Result, Error}
use bank_rag_bot.Domain.{Audience, Message}
use bank_rag_bot.Python.{Python}
use bank_rag_bot.Ports.{Services, SystemPrompt, ToolSchema}
use bank_rag_bot.Redis.{Redis, cache_get, cache_set}
use bank_rag_bot.Settings.{Settings}
use bank_rag_bot.Access.{Counters, JwtPayload}
use bank_rag_bot.Agents.Tool.{Tool}
use bank_rag_bot.AccountTools.{Branch}
use bank_rag_bot.Adapters.Audit.{AuditLogRow, record_entry}
use bank_rag_bot.Adapters.Bank.{Http, bank_api}
use bank_rag_bot.Adapters.Embedder.{embed_documents, embed_query}
use bank_rag_bot.Llm.{Delta}
use bank_rag_bot.Llm.Complete.{Choice, complete, streamed}
use bank_rag_bot.Masking.{mask, sanitize}
use bank_rag_bot.Retrieval.Fusion.{Floats}
use bank_rag_bot.Retrieval.Qdrant
use bank_rag_bot.Retrieval.OpenSearch
use bank_rag_bot.Retrieval.Tool.{RagSearchTool, rag_search_tool}
use bank_rag_bot.Retrieval.Tool
use bank_rag_bot.Ingestion
use bank_rag_bot.Ingestion.Chunker.{SemanticChunker}
use bank_rag_bot.Api.{Gate}
use bank_rag_bot.Api.Chat

pub record Clients (Response Vector Score W : Type 0) : Type 0 where
  pub py : Python
  pub isoformat : ℕ → String
  pub fromisoformat : String → Option ℕ
  pub explain : Error → String
  pub jwt_decode : String → Result JwtPayload
  pub create_completion : SystemPrompt → List Message → Exec W (List Choice)
  pub create_stream :
      SystemPrompt → List Message → List ToolSchema → W → (List Delta × Option Error) × W
  pub create_embeddings : List String → Exec W (List Vector)
  pub qdrant : Qdrant.Client Vector Score W
  pub opensearch : OpenSearch.Client Vector W
  pub redis : Redis W
  pub counters : Counters W
  pub insert_audit : AuditLogRow → Exec W Unit
  pub http : Http Response W
  pub predict : String → String → Score
  pub floats : Floats Score
  pub branches : List Branch
  pub uuid4 : W → String × W
  pub now : W → ℕ × W

-- the defaults of `SemanticChunker` and of `RagSearchTool`
abbrev pub default_chunker : SemanticChunker
default_chunker = record { max_chars = 800; overlap_chars = 150 }

abbrev pub default_candidate_pool : ℕ
default_candidate_pool = 15

abbrev pub search_description : String
search_description =
    "Searches the bank's indexed public FAQs, product sheets and internal "
    <> "employee-uploaded documents. Use this whenever the customer asks about "
    <> "products, rates, procedures or policies."

module _ {Response Vector Score W : Type 0} (clients : Clients Response Vector Score W) where
  -- what `AnswerQuestion` and its agents are given
  unfoldable pub services : Services W
  unfolding complete streamed mask cache_get cache_set record_entry
  services = record {
    complete = complete clients.py.loads clients.create_completion;
    stream_complete = streamed clients.py.loads clients.create_stream;
    mask = mask clients.py;
    cache_get = cache_get clients.redis;
    cache_set = cache_set clients.redis;
    record_audit = record_entry clients.py clients.insert_audit;
    uuid4 = clients.uuid4;
    now = clients.now;
  }

  unfoldable pub search_tool : Settings Score → List Audience → Tool W
  unfolding rag_search_tool embed_query
  search_tool settings allowed_audiences =
      rag_search_tool {Vector = Vector}
        (record {
          embed_query = embed_query clients.create_embeddings;
          qdrant = clients.qdrant;
          opensearch = clients.opensearch;
          predict = clients.predict;
          floats = clients.floats;
          explain = clients.explain;
        })
        (record {
          allowed_audiences = allowed_audiences;
          top_k = settings.retrieval_top_k;
          candidate_pool = default_candidate_pool;
          score_threshold = settings.retrieval_score_threshold;
        })
        clients.py search_description

  -- `build_answer_question_use_case`, with the stores of the chat routes
  unfoldable pub chat_backend : Settings Score → Chat.Backend Score W
  unfolding services search_tool bank_api
  chat_backend settings = record {
    py = clients.py;
    isoformat = clients.isoformat;
    fromisoformat = clients.fromisoformat;
    gate = record {
      counters = clients.counters;
      jwt_decode = clients.jwt_decode;
      explain = clients.explain;
    };
    redis = clients.redis;
    services = services;
    search_tool = search_tool settings;
    branches = clients.branches;
    bank = bank_api clients.http clients.py;
    settings = settings;
  }

  -- `build_ingest_document_use_case`
  unfoldable pub ingest_ports : Ingestion.Ports Vector W
  unfolding Qdrant.vector_store OpenSearch.keyword_index embed_documents sanitize
  ingest_ports = record {
    chunker = default_chunker;
    vectors = Qdrant.vector_store clients.qdrant;
    keywords = OpenSearch.keyword_index clients.opensearch;
    embed_documents = embed_documents clients.create_embeddings;
    sanitize = sanitize clients.py;
    now = clients.now;
    uuid4 = clients.uuid4;
  }
