-- ===== src/Ingestion/Chunker.antt =====
-- ingestion/chunking/semantic_chunker.py: sentences gathered in chunks that overlap.
pub mod Sizes
use Prim.Native.Char.{code}
use Prim.Native.String
use mathlib.Core.List.{flat_map}
use bank_rag_bot.Prelude.{
  ℕ, String, Bool, true, false, not, ◌&&◌, ◌||◌, ◌==◌, ◌+◌, ◌-◌, ◌≡◌, refl, List, [], ◌∷◌, ◌++◌,
  keep, map, if◌then◌else◌, leb, eqb, is_empty,
}
use bank_rag_bot.Prelude.Text.{◌<>◌, strip, size, slice_from, is_space}
use bank_rag_bot.Domain.{ChunkLocator, DocumentSegment}

-- Where the scan of `re.split(r"(?<=[.!?])\s+", …)` stands.
pub data Scan : Type 0 where
  ordinary after_stop in_gap : Scan

abbrev may_cut : Scan → Bool
may_cut ordinary = false
may_cut after_stop = true
may_cut in_gap = true

abbrev is_stop : ℕ → Bool
is_stop c = eqb c b'.' || eqb c b'!' || eqb c b'?'

unfoldable pub next_scan : Scan → ℕ → Scan
next_scan st c =
    if may_cut st && is_space c then in_gap else if is_stop c then after_stop else ordinary

-- `sentences` has at least one part, so the empty list is not met.
abbrev pub add_first : String → List String → List String
add_first t [] = t ∷ []
add_first t (x ∷ xs) = (t <> x) ∷ xs

-- A gap's first space ends a sentence, and the others are dropped with it.
unfoldable pub place : Scan → ℕ → String → List String → List String
place in_gap c t rest = if is_space c then rest else add_first t rest
place after_stop c t rest = if is_space c then "" ∷ rest else add_first t rest
place ordinary c t rest = add_first t rest

unfoldable pub sentences_from : Scan → String → List String
unfolding next_scan place
sentences_from st String.[] = "" ∷ []
sentences_from st (String.◌∷◌ c s) =
    place st (code c) (String.◌∷◌ c "") (sentences_from (next_scan st (code c)) s)

unfoldable pub sentences : String → List String
unfolding sentences_from strip
sentences text = sentences_from ordinary (strip text)

-- `text[-n:]`, which is the whole text for an `n` of 0
unfoldable pub slice_last : ℕ → String → String
slice_last n s = if eqb n 0 then s else slice_from (size s - n) s

pub record SemanticChunker : Type 0 where
  pub max_chars : ℕ
  pub overlap_chars : ℕ

unfoldable pub overlap_tail : SemanticChunker → String → String
unfolding slice_last
overlap_tail ch text =
    if leb (size text) ch.overlap_chars then text else slice_last ch.overlap_chars text

-- `if current: chunks.append(current)`
unfoldable pub flush : List String → String → List String
flush chunks current = if current == "" then chunks else chunks ++ current ∷ []

-- the sentence that opens the next chunk, behind the tail of the last one
unfoldable pub opening : SemanticChunker → List String → String → String → String
unfolding overlap_tail
opening ch chunks current sentence =
    strip (if is_empty chunks then sentence else overlap_tail ch current <> " " <> sentence)

-- the loop over the sentences
unfoldable pub gather : SemanticChunker → List String → String → List String → List String
unfolding flush opening
gather ch chunks current [] = flush chunks current
gather ch chunks current (sentence ∷ rest) =
    let chunks' = flush chunks current in
    let fits = leb (size current + size sentence + 1) ch.max_chars in
    gather ch (if fits then chunks else chunks')
      (if fits then strip (current <> " " <> sentence) else opening ch chunks' current sentence)
      rest

unfoldable pub split : SemanticChunker → String → List String
unfolding sentences gather
split ch text = keep (λ c. not (c == "")) (gather ch [] "" (sentences text))

unfoldable pub with_context : String → String → ChunkLocator → String
with_context chunk_text title locator =
    let location =
      if locator.kind == "whole" then "" else " | " <> locator.kind <> ": " <> locator.value in
    if title == "" then chunk_text else "[Documento: " <> title <> location <> "] " <> chunk_text

abbrev pub tag : SemanticChunker → String → DocumentSegment → List (String × ChunkLocator)
tag ch title segment =
    map (λ text. (with_context text title segment.locator, segment.locator)) (split ch segment.text)

unfoldable pub split_segments :
    SemanticChunker → List DocumentSegment → String → List (String × ChunkLocator)
unfolding split with_context
split_segments ch segments title = flat_map (tag ch title) segments

split_tests :
    (sentences "A b. C?  d" ≡ "A b." ∷ "C?" ∷ "d" ∷ [])
    × (split (record { max_chars = 12; overlap_chars = 3 }) "Uno due. Tre quattro. Sei."
        ≡ "Uno due." ∷ "ue. Tre quattro." ∷ "ro. Sei." ∷ [])
unfolding sentences split slice_from
split_tests = (refl, refl)
