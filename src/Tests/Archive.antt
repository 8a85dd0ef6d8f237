-- ===== src/Tests/Archive.antt =====
-- The rules and the archive at concrete inputs.
use mathlib.Core.List.{flat_map}
use bank_rag_bot.Prelude.{
  suc, true, false, ◌≡◌, ◌≢◌, refl, ◌⊎◌, ◌↔◌, none, some, [], ◌∷◌, arith, All, Elem,
}
use bank_rag_bot.Prelude.Exec.{◌>>=◌}
use bank_rag_bot.Domain.{NoIndexRule}
use bank_rag_bot.Documents.{get_latest_version, save_metadata}
use bank_rag_bot.NoIndex.Registry.{is_excluded, add_rule, remove_rule}
use bank_rag_bot.NoIndex.Registry.Scopes.{
  Applies, IsKeyed, IsOther, is_excluded_iff, is_excluded-add_rule, is_excluded-remove_rule,
}
use bank_rag_bot.NoIndex.Glob.{fnmatch}
use bank_rag_bot.NoIndex.Manage.Purges.{exclude-purges}
use bank_rag_bot.Documents.{list_all}
use bank_rag_bot.NoIndex.Manage.{exclude}
use bank_rag_bot.Ingestion.{execute}
use bank_rag_bot.Ingestion.Current.{IsCurrent, execute-Uploaded}
use bank_rag_bot.Ingestion.Chunker.{split_segments}
use bank_rag_bot.Retrieval.Payload.{locator_of}
use bank_rag_bot.Prelude.{List, map, Elem-append-cases, Elem-keep}
use bank_rag_bot.Indexes.{AddsOnlyGiven, is_elsewhere}
use bank_rag_bot.NoIndex.Manage.{Archive}
use bank_rag_bot.Retrieval.Payload.{Payload, payload_of}
use bank_rag_bot.Ingestion.Permitted.{IsPermitted, execute-IsPermitted}
use bank_rag_bot.Ingestion.Reachable.{
  Reachable, here, after, uploaded, excluded, IsSound, Reachable-IsSound,
}
use bank_rag_bot.Tests.Fixtures.{
  promo_rule, text_rule, memory, memory-IsIndex, silent, ports, ports-IsQuiet, archive, upload,
}

is_excluded_iff_example :
    (is_excluded (promo_rule ∷ []) "https://x/promo/a" none ≡ true)
    ↔ ((r : NoIndexRule) × Elem r (promo_rule ∷ []) × Applies r "https://x/promo/a" none)
is_excluded_iff_example = is_excluded_iff (promo_rule ∷ []) "https://x/promo/a" none

is_excluded-add_rule_example :
    IsKeyed (add_rule text_rule (promo_rule ∷ []))
    × ((is_excluded (add_rule text_rule (promo_rule ∷ [])) "a.txt" none ≡ true) ↔ (
        Applies text_rule "a.txt" none
        ⊎ ((r : NoIndexRule) × IsOther text_rule.pattern (promo_rule ∷ []) r
            × Applies r "a.txt" none)))
is_excluded-add_rule_example =
    is_excluded-add_rule (promo_rule ∷ []) "a.txt" none text_rule (tt, tt)

is_excluded-remove_rule_example :
    IsKeyed (remove_rule "*.txt" (promo_rule ∷ []))
    × ((is_excluded (remove_rule "*.txt" (promo_rule ∷ [])) "https://x/promo/a" none ≡ true) ↔ (
        (r : NoIndexRule) × IsOther "*.txt" (promo_rule ∷ []) r
        × Applies r "https://x/promo/a" none))
is_excluded-remove_rule_example =
    is_excluded-remove_rule "*.txt" (promo_rule ∷ []) "https://x/promo/a" none (tt, tt)

execute-Uploaded_example :
    let t = (execute ports upload archive).1 in
    (get_latest_version "a.txt" t.documents ≡ suc (get_latest_version "a.txt" archive.documents))
    × IsCurrent t.documents t.indexes
    × All
        (λ c.
          c.document_id ≡ "a.txt" → is_excluded archive.rules "a.txt" (some (locator_of c)) ≡ false)
        t.indexes
unfolding execute get_latest_version ◌>>=◌ split_segments fnmatch flat_map
execute-Uploaded_example =
    execute-Uploaded ports memory-IsIndex ports-IsQuiet upload archive 1 ((refl, omega arith), tt)
      refl

exclude-purges_example :
    All
      (λ p.
        All
          (λ doc. fnmatch doc.source_id "*.txt" ≡ true → p.document_id ≢ doc.source_id)
          (list_all archive.documents))
      (exclude memory silent text_rule archive).1.indexes
unfolding exclude ◌>>=◌ fnmatch list_all
exclude-purges_example =
    exclude-purges memory silent memory-IsIndex (λ document s. refl) text_rule archive 1 refl refl

memory-AddsOnlyGiven : AddsOnlyGiven memory
memory-AddsOnlyGiven = record {
  inserted = λ chunks s p m. Elem-append-cases p (map payload_of chunks) s m;
  deleted = λ document s p m. (Elem-keep (is_elsewhere document) p s m).0;
}

execute-IsPermitted_example :
    let t = (execute ports upload archive).1 in
    (t.rules ≡ archive.rules) × All (IsPermitted archive.rules) t.indexes
unfolding is_excluded fnmatch
execute-IsPermitted_example =
    execute-IsPermitted ports memory-AddsOnlyGiven ports-IsQuiet upload archive ((refl, refl), tt)

-- an upload, and then an exclusion of what was uploaded
abbrev uploaded_archive : Archive (List Payload)
uploaded_archive = (execute ports upload archive).1

abbrev excluded_archive : Archive (List Payload)
excluded_archive = (exclude memory silent text_rule uploaded_archive).1

a_run : Reachable ports archive excluded_archive
unfolding execute get_latest_version split_segments exclude ◌>>=◌ fnmatch list_all flat_map
    save_metadata
a_run =
    after uploaded_archive excluded_archive
      (after archive uploaded_archive here (uploaded upload archive 1 refl))
      (excluded text_rule uploaded_archive 1 refl refl)

Reachable-IsSound_example : IsSound ports excluded_archive
unfolding is_excluded fnmatch get_latest_version
Reachable-IsSound_example =
    Reachable-IsSound ports memory-IsIndex memory-AddsOnlyGiven ports-IsQuiet archive
      excluded_archive a_run (((refl, omega arith), tt), ((refl, refl), tt))
