-- ===== src/Retrieval.antt =====
-- infrastructure/vector_stores/qdrant_store.py, infrastructure/keyword_index/opensearch_index.py
-- and agents/tools/rag_search_tool.py: what is stored of a chunk, what a search may return, and
-- how two rankings become one.
pub mod Payload
pub mod Filters
pub mod Qdrant
pub mod Stores
pub mod OpenSearch
pub mod Fusion
pub mod Tool
pub mod Audiences
