-- ===== src/Ingestion/Chunker/Sizes.antt =====
-- How long the chunks are.
use bank_rag_bot.Prelude.{
  ℕ, String, not, ◌==◌, ◌+◌, ◌-◌, ◌≤◌, ◌<◌, ◌≢◌, List, [], ◌∷◌, arith, eq_iff, All, All-concat,
  All-at, Elem, Elem-keep,
}
use bank_rag_bot.Prelude.Text.{◌<>◌, strip, size, size-append, size-strip-le, size-slice_from}
use bank_rag_bot.Ingestion.Chunker.{
  SemanticChunker, overlap_tail, slice_last, flush, opening, gather, split, sentences,
}

size-overlap_tail-le :
    (ch : SemanticChunker) (text : String)
    → 0 < ch.overlap_chars
    → size (overlap_tail ch text) ≤ ch.overlap_chars
unfolding overlap_tail slice_last
size-overlap_tail-le ch text h = ground (arith, size-slice_from (size text - ch.overlap_chars) text)

module _ (ch : SemanticChunker) (longest bound : ℕ) where
  abbrev Fits : String → Type 0
  Fits c = size c ≤ bound

  flush-Fits :
      (chunks : List String) (current : String)
      → All Fits chunks
      → Fits current
      → All Fits (flush chunks current)
  unfolding flush
  flush-Fits chunks current hs h = ground (arith, All-concat Fits chunks current hs h)

  size-opening-le :
      (chunks : List String) (current sentence : String)
      → 0 < ch.overlap_chars
      → ch.overlap_chars + 1 + longest ≤ bound
      → size sentence ≤ longest
      → size (opening ch chunks current sentence) ≤ bound
  unfolding opening
  size-opening-le [] current sentence o b s = omega (arith, size-strip-le sentence)
  size-opening-le (x ∷ xs) current sentence o b s = omega (
    arith,
    size-strip-le (overlap_tail ch current <> " " <> sentence),
    size-append (overlap_tail ch current) (" " <> sentence),
    size-append " " sentence,
    size-overlap_tail-le ch current o,
  )

  size-joined-le :
      (current sentence : String)
      → size current + size sentence + 1 ≤ bound
      → size (strip (current <> " " <> sentence)) ≤ bound
  size-joined-le current sentence h = omega (
    arith,
    size-strip-le (current <> " " <> sentence),
    size-append current (" " <> sentence),
    size-append " " sentence,
  )

  gather-Fits :
      (rest chunks : List String) (current : String)
      → 0 < ch.overlap_chars
      → ch.max_chars ≤ bound
      → ch.overlap_chars + 1 + longest ≤ bound
      → All (λ s. size s ≤ longest) rest
      → All Fits chunks
      → Fits current
      → All Fits (gather ch chunks current rest)
  unfolding gather
  gather-Fits [] chunks current o m b hs cs c = flush-Fits chunks current cs c
  gather-Fits (s ∷ rest) chunks current o m b (hs, hr) cs c =
      gather-Fits rest _ _ o m b hr (ground (arith, flush-Fits chunks current cs c)) (
        ground (
          arith,
          size-joined-le current s,
          size-opening-le (flush chunks current) current s o b hs,
        ))

-- No chunk is empty, and none is longer than the larger of `max_chars` and an overlap, a space and
-- the longest sentence: a sentence is never cut, so only a long sentence makes a long chunk. The
-- overlap must not be 0.
pub split-bounds :
    (ch : SemanticChunker) (text : String) (longest bound : ℕ)
    → 0 < ch.overlap_chars
    → ch.max_chars ≤ bound
    → ch.overlap_chars + 1 + longest ≤ bound
    → All (λ s. size s ≤ longest) (sentences text)
    → (c : String) → Elem c (split ch text)
    → (c ≢ "") × (size c ≤ bound)
unfolding split
split-bounds ch text longest bound o m b h c e =
    let (inside, kept) = Elem-keep (λ c. not (c == "")) c (gather ch [] "" (sentences text)) e in
    (
      λ same. ground (arith, eq_iff c ""),
      All-at (Fits ch longest bound) _ c
          (gather-Fits ch longest bound (sentences text) [] "" o m b h tt (omega arith)) inside,
    )
