-- ===== src/NoIndex/Manage.antt =====
-- application/use_cases/manage_noindex_rules.py
pub mod Frame
pub mod Purges
use bank_rag_bot.Prelude.{ℕ, String, ◌==◌, ◌+◌, Option, none, some, List, [], ◌∷◌, if◌then◌else◌}
use bank_rag_bot.Prelude.Exec.{Exec, pure, gets, modify, ◌>>=◌}
use bank_rag_bot.Domain.{NoIndexRule, DocumentMetadata}
use bank_rag_bot.Documents.{DocumentMetadataRow, list_all}
use bank_rag_bot.Indexes.{Index}
use bank_rag_bot.NoIndex.Glob.{fnmatch}
use bank_rag_bot.NoIndex.Registry.{add_rule, remove_rule}

-- The two tables, and the state `I` of the two indexes.
pub record Archive (I : Type 0) : Type 0 where
  pub rules : List NoIndexRule
  pub documents : List DocumentMetadataRow
  pub indexes : I

-- a step of the indexes, in the archive
unfoldable pub in_indexes : {I A : Type 0} → Exec I A → Exec (Archive I) A
in_indexes m s = let r = m s.indexes in (r.0, record s { indexes = r.1 })

-- `locator_kind and locator_pattern`: both given, and neither empty
abbrev pub scoped : Option String → Option String → Option (String × String)
scoped none pattern = none
scoped (some kind) none = none
scoped (some kind) (some p) = if kind == "" then none else if p == "" then none else some (kind, p)

module _ {Vector I : Type 0} (vectors keywords : Index Vector I) where
  -- the body of the loop of `exclude`, for a document that matches
  unfoldable pub purge_document : Option (String × String) → String → Exec (Archive I) ℕ
  unfolding in_indexes
  purge_document none source_id = do
    _ ← in_indexes (vectors.delete_by_document source_id)
    _ ← in_indexes (keywords.delete_by_document source_id)
    pure 1
  purge_document (some (kind, pattern)) source_id = do
    n ← in_indexes (vectors.delete_by_locator source_id kind pattern)
    _ ← in_indexes (keywords.delete_by_locator source_id kind pattern)
    pure n

  unfoldable pub purge :
      String → Option (String × String) → List DocumentMetadata → Exec (Archive I) ℕ
  unfolding purge_document
  purge pattern scope [] = pure 0
  purge pattern scope (doc ∷ docs) = do
    n ← if fnmatch doc.source_id pattern then purge_document scope doc.source_id else pure 0
    m ← purge pattern scope docs
    pure (n + m)

  -- The rule has the moment of the call; the arguments of `exclude` are its fields.
  unfoldable pub exclude : NoIndexRule → Exec (Archive I) ℕ
  unfolding purge
  exclude rule = do
    _ ← modify {S = Archive I} (λ s. record s { rules = add_rule rule s.rules })
    docs ← gets (λ s. list_all s.documents)
    purge rule.pattern (scoped rule.locator_kind rule.locator_pattern) docs

unfoldable pub include : {I : Type 0} → String → Exec (Archive I) Unit
include {I = I} pattern =
    modify {S = Archive I} (λ s. record s { rules = remove_rule pattern s.rules })

unfoldable pub list_rules : {I : Type 0} → Exec (Archive I) (List NoIndexRule)
list_rules = gets (λ s. s.rules)
