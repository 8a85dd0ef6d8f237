-- ===== src/Ingestion/Html.antt =====
-- ingestion/segmentation/html_segmenter.py. The parsed page is the argument: the headings `h1` to
-- `h3` in document order, each with the siblings that follow it.
use bank_rag_bot.Prelude.{ℕ, String, Bool, not, ◌==◌, List, [], ◌∷◌, ◌++◌, keep, if◌then◌else◌}
use bank_rag_bot.Prelude.Text.{strip, join}
use bank_rag_bot.Domain.{DocumentSegment}
use bank_rag_bot.Ingestion.Lines.{words}
use bank_rag_bot.Ingestion.Segments.{unless_empty, push_heading, heading_path}

-- whether its tag is one of `h1`, `h2`, `h3`, and its text
pub record Sibling : Type 0 where
  pub is_heading : Bool
  pub text : String

pub record Heading : Type 0 where
  pub level : ℕ
  pub title : String
  pub siblings : List Sibling

pub record Soup : Type 0 where
  pub headings : List Heading
  -- `soup.get_text(separator=" ")`
  pub text : String

-- up to the `break` at the next heading
unfoldable pub body_parts : List Sibling → List String
body_parts [] = []
body_parts (s ∷ ss) = let rest = body_parts ss in if s.is_heading then [] else s.text ∷ rest

unfoldable pub section_body : List Sibling → String
unfolding body_parts join strip
section_body siblings = strip (join " " (keep (λ part. not (part == "")) (body_parts siblings)))

unfoldable pub html_sections : List (ℕ × String) → List Heading → List DocumentSegment
unfolding section_body push_heading heading_path unless_empty
html_sections stack [] = []
html_sections stack (h ∷ hs) =
    let stack' = push_heading h.level h.title stack in
    unless_empty (section_body h.siblings) "section" (heading_path stack')
    ++ html_sections stack' hs

-- a page with no heading is one segment
unfoldable pub page_or_sections : String → List Heading → List DocumentSegment
unfolding html_sections words join unless_empty
page_or_sections text [] = unless_empty (join " " (words text)) "whole" "page"
page_or_sections text (h ∷ hs) = html_sections [] (h ∷ hs)

unfoldable pub segment_html : Soup → List DocumentSegment
unfolding page_or_sections
segment_html soup = page_or_sections soup.text soup.headings
