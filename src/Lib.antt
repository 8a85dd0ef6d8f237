-- ===== src/Lib.antt =====
-- Verification library of bank-rag-bot, a banking assistant: a customer's message goes through
-- guardrails and a router agent that calls tools, one of them a search of the bank's documents,
-- and employees upload documents and exclude parts of them from the index.
--
-- Below, a path is relative to src/bank_rag of the repository.
--
-- How the parts interact. `AnswerQuestion.execute` (application/use_cases/answer_question.py) takes
-- a conversation and a message. It resolves an action that waits for confirmation, or passes the
-- guardrails, looks in the shared cache and runs the router's loop (agents/orchestrator.py), which
-- calls tools of the registry (agents/tool_registry.py). The search tool asks both indexes and
-- cites what they return. `Ingestion.execute` (application/use_cases/ingest_document.py) writes
-- both indexes and the document table, under the no-index rules. The routes (Api) identify the
-- caller, count the request, load and save the conversation and call the use cases, which
-- Composition builds from the services.
--
-- Which file models which part:
--   Prelude         exceptions and coroutines (Exec: a state, and a result or an exception), rules
--                   for total pre- and postconditions (Triple), lists, text, sorting
--   Domain          domain/entities.py, field by field
--   Python          what the code takes of Python as tables and codecs, and the regex engine
--   Ports           application/ports/llm_client.py, and the services as a record of operations
--   Agents          agents/: Tool, Registry, Guardrails, Router (each step of handle_streaming is
--                   a function of the same order of calls), Turn (the state of one message: the
--                   conversation, the events sent, the calls made, the outside world)
--   AnswerQuestion  both entry points, `execute` and `execute_streaming`, each branch a function;
--                   Cached is the JSON of a cached answer, Own, Calls, Safety and Events the proofs
--   NoIndex         infrastructure/persistence/sql_noindex_registry.py, fnmatch in Glob, and
--                   application/use_cases/manage_noindex_rules.py in Manage
--   Documents       infrastructure/persistence/document_repository_sql.py
--   Indexes         the interface of both indexes, its laws taken as hypotheses
--   Ingestion       the use case, Chunker (ingestion/chunking/semantic_chunker.py), Segments,
--                   Lines, Markdown, Html and Pdf (ingestion/segmentation/), Loader
--                   (ingestion/loaders/), Web (ingestion/pipeline.py)
--   Retrieval       infrastructure/vector_stores/qdrant_store.py, infrastructure/keyword_index/
--                   opensearch_index.py, agents/tools/rag_search_tool.py and the reranker
--   Conversations   infrastructure/persistence/redis_conversation_repository.py
--   Llm             infrastructure/llm/openai_client.py, `complete` and its streamed completion
--   Redis           infrastructure/cache/redis_cache.py
--   Adapters        the embedder, the bank's HTTP client, the audit log table, and the bootstrap
--                   of the Qdrant collection
--   Masking         infrastructure/security/pii_filter_regex.py and
--                   infrastructure/security/prompt_injection_sanitizer.py
--   AccountTools    the tools of agents/tools/ but the search, infrastructure/branch_directory/,
--                   and the choice of tools in di_container.py
--   Access          infrastructure/security/jwt_auth.py, redis_rate_limiter.py,
--                   interface/api/dependencies.py
--   Settings        config/settings.py
--   Composition     di_container.py: the services handed to the use cases
--   Api             interface/api/routers/: Chat and Admin, each route with its gates
--   Tests           the theorems at concrete inputs, Fixtures their data
--
-- State. A coroutine is a function from a state to a result and a state; what it wrote before an
-- exception stays. Everything outside the process is one state `W` that each call of a service may
-- change. One request is one sequence of steps: two requests at once are not interleaved here.
--
-- Numbers. A datetime is a count of microseconds and a date a count of days since 0001-01-01, so
-- every date of Python is a natural number. Floats (scores) are an argument with the operations that
-- the code uses.
--
-- Fuel and bounds. The router's loop runs max_iterations rounds by recursion on that number, as the
-- code does. `batches` has the number of rows as fuel, and `show` its argument plus one; a batch or
-- a digit takes at least one of either. The glob compiler's fuel is the pattern's size, and each
-- token takes at least one character. Replacing and splitting take the text's size as fuel. The
-- regex engine repeats at most as often as the text has characters.
--
-- Arguments of the model, since their code is not in the repository: the language model, Redis,
-- Postgres, Qdrant, OpenSearch, httpx, the JWT library, the JSON codec, the Unicode tables, SHA-256,
-- the embedder and the cross-encoder, pdfplumber and BeautifulSoup, and what FastAPI reads of a
-- request.
--
-- Not modelled: the start of the application, its static pages and CORS; requests that FastAPI
-- refuses before a handler runs (a missing field, malformed JSON); tracing and evaluation; failures
-- of Postgres, but for the read of the rules in the synchronisation of a web site; what OpenSearch
-- deletes, which depends on a mapping that the repository does not make; two requests at once.
pub mod Prelude
pub mod Domain
pub mod Python
pub mod Ports
pub mod Agents
pub mod AnswerQuestion
pub mod NoIndex
pub mod Indexes
pub mod Documents
pub mod Masking
pub mod AccountTools
pub mod Llm
pub mod Tests
pub mod Access
pub mod Conversations
pub mod Retrieval
pub mod Ingestion
pub mod Redis
pub mod Settings
pub mod Api
pub mod Adapters
pub mod Composition
