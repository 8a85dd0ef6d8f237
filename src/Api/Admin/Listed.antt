-- ===== src/Api/Admin/Listed.antt =====
-- The list of documents that an employee sees.
use bank_rag_bot.Prelude.{
  ℕ, ltb, ◌≤◌, ◌≡◌, refl, ◌∙◌, arith, List, [], ◌∷◌, map, length, All, Elem, map-Elem,
}
use bank_rag_bot.Prelude.Exec.{ok, gets}
use bank_rag_bot.Prelude.Sorting.{sort_desc}
use bank_rag_bot.Prelude.Sorting.Descending.{IsDescending, sort_desc-IsDescending}
use bank_rag_bot.Domain.{DocumentMetadata}
use bank_rag_bot.Documents.{DocumentMetadataRow, list_all, to_metadata}
use bank_rag_bot.NoIndex.Manage.{Archive}
use bank_rag_bot.Api.Admin.{Backend, DocumentResponse, all_documents, document_response}

length-map : {A B : Type 0} (f : A → B) (xs : List A) → length (map f xs) ≡ length xs
length-map f [] = refl
length-map f (x ∷ xs) = omega (arith, length-map f xs)

All-responses :
    (n : ℕ) (ds : List DocumentMetadata)
    → All (λ d. d.updated_at ≤ n) ds
    → All (λ r. r.updated_at ≤ n) (map document_response ds)
unfolding document_response
All-responses n [] h = tt
All-responses n (d ∷ ds) (h, hs) = (h, All-responses n ds hs)

responses-IsDescending :
    (ds : List DocumentMetadata)
    → IsDescending (λ d. d.updated_at) ds
    → IsDescending (λ r. r.updated_at) (map document_response ds)
unfolding document_response
responses-IsDescending [] h = tt
responses-IsDescending (d ∷ ds) (h, hs) =
    (All-responses d.updated_at ds h, responses-IsDescending ds hs)

module _ {Bytes F Score Vector I : Type 0} (b : Backend Bytes F Score Vector I) where
  -- The documents are listed from the newest to the oldest, one for each row of the table, and the
  -- table is not changed.
  pub all_documents-IsDescending :
      (s : Archive I)
      → (ds : List DocumentResponse) × (all_documents b s ≡ (ok ds, s))
        × IsDescending (λ d. d.updated_at) ds
        × (length ds ≡ length s.documents)
        × ((r : DocumentMetadataRow)
            → Elem r s.documents
            → Elem (document_response (to_metadata r)) ds)
  unfolding all_documents gets list_all
  all_documents-IsDescending s =
      let (sorted, long, whole) =
        sort_desc-IsDescending (λ (d : DocumentMetadata). d.updated_at) (list_all s.documents) in
      let sorted_documents =
        sort_desc ltb (λ (d : DocumentMetadata). d.updated_at) (list_all s.documents) in
      (
        map document_response sorted_documents,
        refl,
        responses-IsDescending sorted_documents sorted,
        length-map document_response sorted_documents ∙ long ∙ length-map to_metadata s.documents,
        λ r m.
            map-Elem document_response (to_metadata r) sorted_documents
              (whole (to_metadata r) (map-Elem to_metadata r s.documents m)),
      )
