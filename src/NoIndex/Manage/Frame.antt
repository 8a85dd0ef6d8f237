-- ===== src/NoIndex/Manage/Frame.antt =====
-- What a step of the indexes, a purge and an exclusion do to the two tables.
use bank_rag_bot.Prelude.{String, ◌≡◌, refl, Option, none, some, List, [], ◌∷◌}
use bank_rag_bot.Prelude.Exec.{Exec, Result, ok, raised, modify, gets, ◌>>=◌}
use bank_rag_bot.Prelude.Triple.{
  Triple, Triple-pure, Triple-bind, Triple-if, Triple-kept, Outcome, Outcome-state,
}
use bank_rag_bot.Domain.{DocumentMetadata, NoIndexRule}
use bank_rag_bot.Documents.{DocumentMetadataRow, list_all}
use bank_rag_bot.Indexes.{Index}
use bank_rag_bot.NoIndex.Glob.{fnmatch}
use bank_rag_bot.NoIndex.Registry.{add_rule}
use bank_rag_bot.NoIndex.Manage.{Archive, in_indexes, purge, purge_document, exclude, scoped}

-- a step of the indexes leaves the tables alone
module _ {I A : Type 0} (F : List NoIndexRule → List DocumentMetadataRow → Type 0)
    (Q : A → I → Type 0) (E : I → Type 0) where
  Outcome-in_indexes :
      (s : Archive I) (r : Result A) (i : I)
      → F s.rules s.documents
      → Outcome Q E r i
      → Outcome
          (λ a (t : Archive I). F t.rules t.documents × Q a t.indexes)
          (λ (t : Archive I). F t.rules t.documents × E t.indexes)
          r
          (record s { indexes = i })
  Outcome-in_indexes s (ok a) i f q = (f, q)
  Outcome-in_indexes s (raised x) i f q = (f, q)

  pub Triple-in_indexes :
      {P : I → Type 0} (m : Exec I A)
      → Triple P m Q E
      → Triple
          (λ (t : Archive I). F t.rules t.documents × P t.indexes)
          (in_indexes m)
          (λ a t. F t.rules t.documents × Q a t.indexes)
          (λ t. F t.rules t.documents × E t.indexes)
  unfolding in_indexes
  Triple-in_indexes m h = record {
    at = λ s p. Outcome-in_indexes s (m s.indexes).0 (m s.indexes).1 p.0 (h.at s.indexes p.1);
  }

module _ {Vector I : Type 0} (vectors keywords : Index Vector I) (rules : List NoIndexRule)
    (rows : List DocumentMetadataRow) where
  abbrev pub HasTables : Archive I → Type 0
  HasTables t = (t.rules ≡ rules) × (t.documents ≡ rows)

  step : {A : Type 0} (m : Exec I A) → Triple HasTables (in_indexes m) (λ _. HasTables) HasTables
  unfolding in_indexes
  step m = Triple-kept HasTables _ (λ t h. h)

  Triple-purge_document :
      (scope : Option (String × String)) (source_id : String)
      → Triple HasTables
          (purge_document vectors keywords scope source_id)
          (λ _. HasTables)
          HasTables
  unfolding purge_document
  Triple-purge_document none source_id =
      Triple-bind {Q = λ _. HasTables} _ _ (step _)
        (λ _. Triple-bind {Q = λ _. HasTables} _ _ (step _) (λ _. Triple-pure 1 (λ t h. h)))
  Triple-purge_document (some (kind, pattern)) source_id =
      Triple-bind {Q = λ _. HasTables} _ _ (step _)
        (λ n. Triple-bind {Q = λ _. HasTables} _ _ (step _) (λ _. Triple-pure n (λ t h. h)))

  Triple-purge :
      (pattern : String) (scope : Option (String × String)) (docs : List DocumentMetadata)
      → Triple HasTables (purge vectors keywords pattern scope docs) (λ _. HasTables) HasTables
  unfolding purge
  Triple-purge pattern scope [] = Triple-pure 0 (λ t h. h)
  Triple-purge pattern scope (doc ∷ docs) =
      Triple-bind {Q = λ _. HasTables} _ _
        (Triple-if (fnmatch doc.source_id pattern) _ _
          (λ matched. Triple-purge_document scope doc.source_id)
          (λ other. Triple-pure 0 (λ t h. h)))
        (λ n.
          Triple-bind {Q = λ _. HasTables} _ _ (Triple-purge pattern scope docs)
            (λ m. Triple-pure _ (λ t h. h)))

-- An exclusion adds its rule, however it ends, and leaves the table of documents.
pub exclude-HasTables :
    {Vector I : Type 0} (vectors keywords : Index Vector I) (rule : NoIndexRule) (s : Archive I)
    → HasTables vectors keywords
        (add_rule rule s.rules)
        s.documents
        (exclude vectors keywords rule s).1
unfolding exclude ◌>>=◌ gets modify
exclude-HasTables vectors keywords rule s =
    let tables = HasTables vectors keywords (add_rule rule s.rules) s.documents in
    let done =
      (Triple-purge vectors keywords (add_rule rule s.rules) s.documents rule.pattern
          (scoped rule.locator_kind rule.locator_pattern) (list_all s.documents)).at
        (record s { rules = add_rule rule s.rules }) (refl, refl) in
    Outcome-state tables _ _ done
