-- ===== src/Retrieval/Filters.antt =====
-- The conditions that the two stores put in their queries, and which payloads satisfy them.
use bank_rag_bot.Prelude.{ℕ, String, Bool, ◌==◌, List, [], ◌∷◌, any, map, leb, all}
use bank_rag_bot.Domain.{Audience}
use bank_rag_bot.Documents.{audience_value}
use bank_rag_bot.Retrieval.Payload.{Payload}

pub data Condition : Type 0 where
  document_id_is locator_kind_is : String → Condition
  audience_in : List String → Condition
  valid_from : ℕ → Condition

unfoldable pub satisfies : Payload → Condition → Bool
satisfies p (document_id_is d) = p.document_id == d
satisfies p (locator_kind_is k) = p.locator_kind == k
satisfies p (audience_in values) = any (λ v. p.audience == v) values
satisfies p (valid_from now) = leb now p.valid_until_ts

-- `must`: all of them
unfoldable pub satisfies_all : List Condition → Payload → Bool
unfolding satisfies
satisfies_all conditions p = all (satisfies p) conditions

-- the filter of `search` in both stores
unfoldable pub search_filter : List Audience → ℕ → List Condition
search_filter allowed now_ts = audience_in (map audience_value allowed) ∷ valid_from now_ts ∷ []

-- the filter of `delete_by_locator` in both stores
unfoldable pub locator_filter : String → String → List Condition
locator_filter document kind = document_id_is document ∷ locator_kind_is kind ∷ []
