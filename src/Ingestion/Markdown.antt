-- ===== src/Ingestion/Markdown.antt =====
-- ingestion/segmentation/markdown_segmenter.py: sections by heading. The content is given as the
-- decoded text.
use Prim.Native.Char.{code}
use mathlib.Core.List.{flat_map}
use bank_rag_bot.Prelude.{
  ℕ, zero, suc, String, Bool, true, not, ◌-◌, ◌≡◌, refl, Option, none, some, List, [], ◌∷◌, ◌++◌,
  if◌then◌else◌, eqb,
}
use bank_rag_bot.Prelude.Text.{strip, size, slice_to, slice_from, is_space}
use bank_rag_bot.Python.Regex.{Regex, seq, char_class, assert, plus, between, match_at}
use bank_rag_bot.Domain.{DocumentSegment}
use bank_rag_bot.Ingestion.Lines.{splitlines}
use bank_rag_bot.Ingestion.Segments.{
  segment, unless_empty, segment_plain_text, push_heading, heading_path,
}

-- `^` and `$` under `MULTILINE`
abbrev pub at_line_edge : Option ℕ → Bool
at_line_edge none = true
at_line_edge (some c) = eqb c 10

abbrev pub line_start : Regex
line_start = assert (λ before next. at_line_edge before)

abbrev line_end : Regex
line_end = assert (λ before next. at_line_edge next)

abbrev hash : Regex
hash = char_class (eqb b'#')

-- `_HEADING_PATTERN`
unfoldable pub heading_pattern : Regex
heading_pattern = seq line_start (
    seq (between 1 5 hash)
      (seq (plus (char_class is_space)) (seq (plus (char_class (λ c. not (eqb c 10)))) line_end)))

-- The text before the first match of a pattern that matches no empty text, and each match with
-- the text up to the next one: what `finditer` gives.
unfoldable pub parts_from : ℕ → Regex → Option ℕ → String → String × List (String × String)
unfolding match_at
parts_from zero r before text = (text, [])
parts_from (suc fuel) r before String.[] = ("", [])
parts_from (suc fuel) r before (String.◌∷◌ c s) =
    elim (match_at r (record { before = before; after = String.◌∷◌ c s })) [
      | some to ↦
          let rest = parts_from fuel r to.before to.after in
          ("", (slice_to (size (String.◌∷◌ c s) - size to.after) (String.◌∷◌ c s), rest.0) ∷ rest.1)
      | none ↦ let rest = parts_from fuel r (some (code c)) s in (String.◌∷◌ c rest.0, rest.1)
    ]

-- `len(match.group(1))`: no `#` follows the group
unfoldable pub count_hashes : String → ℕ
count_hashes String.[] = 0
count_hashes (String.◌∷◌ c s) = if eqb (code c) b'#' then suc (count_hashes s) else 0

-- `match.group(2).strip()`: between the two groups there are only spaces
unfoldable pub heading_title : String → String
unfolding count_hashes slice_from strip
heading_title matched = strip (slice_from (count_hashes matched) matched)

-- the loop over the headings, each with the text behind it
unfoldable pub markdown_sections : List (ℕ × String) → List (String × String) → List DocumentSegment
unfolding heading_title push_heading heading_path unless_empty
markdown_sections stack [] = []
markdown_sections stack (h ∷ hs) =
    let stack' = push_heading (count_hashes h.0) (heading_title h.0) stack in
    unless_empty (strip h.1) "section" (heading_path stack') ++ markdown_sections stack' hs

unfoldable pub by_headings : String → List (String × String) → List DocumentSegment
unfolding markdown_sections segment_plain_text splitlines
by_headings text [] = segment_plain_text (splitlines text)
by_headings text (h ∷ hs) = markdown_sections [] (h ∷ hs)

unfoldable pub segment_markdown : String → List DocumentSegment
unfolding by_headings parts_from heading_pattern
segment_markdown text = by_headings text (parts_from (size text) heading_pattern none text).1

markdown_test :
    segment_markdown "intro\n# Conti\nuno\n## Base\ndue\n####### no\n# Carte \n tre"
    ≡ segment "uno" "section" "Conti"
      ∷ segment "due\n####### no" "section" "Conti > Base"
      ∷ segment "tre" "section" "Carte"
      ∷ []
unfolding segment_markdown slice_to flat_map
markdown_test = refl
