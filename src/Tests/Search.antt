-- ===== src/Tests/Search.antt =====
-- The two stores and the search at concrete inputs.
use bank_rag_bot.Prelude.{◌≤◌, refl, none, [], ◌∷◌, All}
use bank_rag_bot.Prelude.Text.{slice_to}
use bank_rag_bot.Prelude.Exec.{◌>>=◌}
use bank_rag_bot.Prelude.Sorting.{sort_desc}
use bank_rag_bot.Domain.{
  NoIndexRule, ChunkLocator, DocumentMetadata, Chunk, Citation, Conversation, Audience, url, obj,
  end, str,
}
use bank_rag_bot.Domain
use bank_rag_bot.Retrieval.Filters.{satisfies_all, search_filter}
use bank_rag_bot.Retrieval.Qdrant
use bank_rag_bot.Retrieval.OpenSearch
use bank_rag_bot.Retrieval.Audiences.{IsServable, qdrant-IsServable, opensearch-IsServable}
use bank_rag_bot.Retrieval.Tool
use bank_rag_bot.Retrieval.Tool.Allowed.{IsAllowedCitation, search-IsAllowedCitation}
use bank_rag_bot.Tests.Fixtures.{
  qdrant, opensearch, qdrant-QdrantAnswers, opensearch-OpenSearchAnswers, found_chunk, search_ports,
  search_tool,
}

qdrant-IsServable_example :
    All (IsServable (Domain.public ∷ []) 6000000) (found_chunk ∷ []) × (1 ≤ 5)
unfolding Qdrant.search satisfies_all search_filter ◌>>=◌
qdrant-IsServable_example =
    qdrant-IsServable qdrant qdrant-QdrantAnswers 1 5 (Domain.public ∷ []) none tt
      (found_chunk ∷ []) refl

opensearch-IsServable_example :
    All (IsServable (Domain.public ∷ []) 6000000) (found_chunk ∷ []) × (1 ≤ 5)
unfolding OpenSearch.search satisfies_all search_filter ◌>>=◌
opensearch-IsServable_example =
    opensearch-IsServable opensearch opensearch-OpenSearchAnswers "tasso" 5 (Domain.public ∷ []) tt
      (found_chunk ∷ []) refl

abbrev found_citation : Citation
found_citation = record { document_id = "a.txt"; title = "A"; snippet = "Tasso 2%."; score = "1.0" }

search-IsAllowedCitation_example :
    All (IsAllowedCitation search_ports search_tool) (found_citation ∷ []) × (1 ≤ 5)
unfolding Tool.search Qdrant.search OpenSearch.search satisfies_all search_filter ◌>>=◌ slice_to
    sort_desc
search-IsAllowedCitation_example =
    search-IsAllowedCitation search_ports search_tool qdrant-QdrantAnswers
      opensearch-OpenSearchAnswers "tasso" tt (found_citation ∷ []) refl
