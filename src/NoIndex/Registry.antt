-- ===== src/NoIndex/Registry.antt =====
-- infrastructure/persistence/sql_noindex_registry.py: the table `noindex_rules`, whose primary key
-- is the pattern, as the list of its rows. A failure of the database itself is not modelled.
pub mod Scopes
use mathlib.Core.List.{◌++◌}
use bank_rag_bot.Prelude.{
  String, Bool, true, false, not, ◌&&◌, ◌||◌, ◌==◌, Option, none, some, List, [], ◌∷◌, keep,
  if◌then◌else◌,
}
use bank_rag_bot.Domain.{ChunkLocator, NoIndexRule}
use bank_rag_bot.NoIndex.Glob.{fnmatch}

-- The row of the pattern is overwritten, if there is one.
unfoldable pub add_rule : NoIndexRule → List NoIndexRule → List NoIndexRule
add_rule rule [] = rule ∷ []
add_rule rule (r ∷ rs) = if r.pattern == rule.pattern then rule ∷ rs else r ∷ add_rule rule rs

unfoldable pub remove_rule : String → List NoIndexRule → List NoIndexRule
remove_rule pattern rules = keep (λ r. not (r.pattern == pattern)) rules

-- `rule.locator_pattern or "*"`
unfoldable pub pattern_or_star : Option String → String
pattern_or_star none = "*"
pattern_or_star (some p) = if p == "" then "*" else p

-- A rule with a kind matches a locator of that kind by its pattern.
unfoldable pub locator_matches : String → Option String → Option ChunkLocator → Bool
unfolding pattern_or_star
locator_matches kind pattern none = false
locator_matches kind pattern (some l) = l.kind == kind && fnmatch l.value (pattern_or_star pattern)

-- No kind: the rule is of the whole document.
unfoldable pub scope_matches : Option String → Option String → Option ChunkLocator → Bool
unfolding locator_matches
scope_matches none pattern locator = true
scope_matches (some kind) pattern locator = locator_matches kind pattern locator

-- the loop of `is_excluded`
unfoldable pub is_excluded : List NoIndexRule → String → Option ChunkLocator → Bool
unfolding scope_matches
is_excluded [] identifier locator = false
is_excluded (r ∷ rs) identifier locator =
    (fnmatch identifier r.pattern && scope_matches r.locator_kind r.locator_pattern locator)
    || is_excluded rs identifier locator
