-- ===== src/Ingestion/Pdf.antt =====
-- ingestion/segmentation/pdf_segmenter.py, from what pdfplumber gives of each page on. The
-- coordinates are floats, an argument with the operations that the code uses.
pub mod Paragraphs
use Prim.Native.Char.{code}
use Prim.Native.String
use mathlib.Core.List.{flat_map}
use bank_rag_bot.Prelude.{
  ℕ, suc, String, Bool, true, false, not, ◌&&◌, ◌==◌, ◌≡◌, refl, Option, none, some, List, [], ◌∷◌,
  ◌++◌, map, keep, any, if◌then◌else◌, eqb, is_empty, ◌+◌, ◌-◌, ◌*◌, ◌/◌, leb, ltb,
}
use bank_rag_bot.Prelude.Text.{◌<>◌, strip, join, show}
use bank_rag_bot.Ports.{or_empty}
use bank_rag_bot.Domain.{DocumentSegment}
use bank_rag_bot.Ingestion.Segments.{unless_empty}

pub record Geometry (F : Type 0) : Type 0 where
  pub plus : F → F → F
  pub minus : F → F → F
  pub times : F → F → F
  pub half : F → F
  pub le : F → F → Bool
  pub lt : F → F → Bool
  -- `statistics.median` of a list that is not empty
  pub median : List F → F
  pub paragraph_gap_multiplier : F
  pub default_line_height : F

pub record Line (F : Type 0) : Type 0 where
  pub text : Option String
  pub top : F
  pub bottom : F
  pub x0 : F
  pub x1 : F

pub record Table (F : Type 0) : Type 0 where
  pub rows : List (List (Option String))
  pub x0 : F
  pub top : F
  pub x1 : F
  pub bottom : F

pub record Page (F : Type 0) : Type 0 where
  pub tables : List (Table F)
  pub lines : List (Line F)

-- `.replace("\n", " ")`
unfoldable pub replace_newlines : String → String
replace_newlines String.[] = ""
replace_newlines (String.◌∷◌ c s) =
    (if eqb (code c) 10 then " " else String.◌∷◌ c "") <> replace_newlines s

unfoldable pub clean_cell : Option String → String
unfolding replace_newlines strip
clean_cell cell = replace_newlines (strip (or_empty cell))

-- `[… for row in rows if any(row)]`
unfoldable pub clean_rows : List (List (Option String)) → List (List String)
unfolding clean_cell
clean_rows rows = map (map clean_cell) (keep (any (λ cell. not (or_empty cell == ""))) rows)

abbrev table_line : List String → String
table_line cells = "| " <> join " | " cells <> " |"

unfoldable pub markdown_table : List (List String) → String
unfolding join
markdown_table [] = ""
markdown_table (header ∷ body) =
    join "\n" (table_line header ∷ table_line (map (λ c. "---") header) ∷ map table_line body)

unfoldable pub table_to_markdown : List (List (Option String)) → String
unfolding clean_rows markdown_table
table_to_markdown rows = markdown_table (clean_rows rows)

-- `enumerate(…, start=…)` with the empty texts left out and their numbers kept
unfoldable pub numbered : String → String → ℕ → List String → List DocumentSegment
unfolding unless_empty show
numbered kind page index [] = []
numbered kind page index (text ∷ texts) =
    unless_empty text kind (page <> ":" <> show index) ++ numbered kind page (suc index) texts

module _ {F : Type 0} (g : Geometry F) where
  -- midpoint containment
  unfoldable pub line_inside : Line F → Table F → Bool
  line_inside line t =
      let mid_y = g.half (g.plus line.top line.bottom) in
      let mid_x = g.half (g.plus line.x0 line.x1) in
      g.le t.x0 mid_x && g.le mid_x t.x1 && g.le t.top mid_y && g.le mid_y t.bottom

  unfoldable pub line_inside_any : Line F → List (Table F) → Bool
  unfolding line_inside
  line_inside_any line tables = any (line_inside line) tables

  abbrev heights : List (Line F) → List F
  heights lines =
      map (λ line. g.minus line.bottom line.top) (keep (λ line. g.lt line.top line.bottom) lines)

  unfoldable pub gap_threshold : List (Line F) → F
  gap_threshold lines =
      let median_height =
        if is_empty (heights lines) then g.default_line_height else g.median (heights lines) in
      g.times median_height g.paragraph_gap_multiplier

  -- `previous_bottom is not None and (line["top"] - previous_bottom) > gap_threshold`
  abbrev is_far : F → Option F → F → Bool
  is_far threshold none top = false
  is_far threshold (some previous_bottom) top = g.lt threshold (g.minus top previous_bottom)

  -- the loop over the lines, with the last paragraph so far
  unfoldable pub group_from : F → Option F → List String → List (Line F) → List (List String)
  unfolding strip
  group_from threshold previous current [] = current ∷ []
  group_from threshold previous current (line ∷ lines) =
      let text = strip (or_empty line.text) in
      let blank = text == "" in
      let breaks = not blank && is_far threshold previous line.top in
      let rest =
        group_from threshold (if blank then previous else some line.bottom)
          (if blank then current else if breaks then text ∷ [] else current ++ text ∷ []) lines in
      if breaks then current ∷ rest else rest

  unfoldable pub group_into_paragraphs : List (Line F) → List String
  unfolding group_from gap_threshold join strip
  group_into_paragraphs lines =
      if is_empty lines
      then []
      else map (λ p. strip (join " " p))
          (keep (λ p. not (is_empty p)) (group_from (gap_threshold lines) none [] lines))

  unfoldable pub page_segments : ℕ → Page F → List DocumentSegment
  unfolding numbered table_to_markdown group_into_paragraphs line_inside_any show
  page_segments index page =
      numbered "page_table" (show index) 1 (map (λ t. table_to_markdown t.rows) page.tables)
      ++ numbered "page_paragraph" (show index) 1
          (group_into_paragraphs (keep (λ line. not (line_inside_any line page.tables)) page.lines))

  unfoldable pub pages_from : ℕ → List (Page F) → List DocumentSegment
  unfolding page_segments
  pages_from index [] = []
  pages_from index (page ∷ pages) = page_segments index page ++ pages_from (suc index) pages

  unfoldable pub segment_pdf : List (Page F) → List DocumentSegment
  unfolding pages_from
  segment_pdf pages = pages_from 1 pages

abbrev pub whole_numbers : Geometry ℕ
whole_numbers = record {
  plus = ◌+◌;
  minus = ◌-◌;
  times = λ a b. a * b / 10;
  half = λ a. a / 2;
  le = leb;
  lt = ltb;
  median = λ hs. 10;
  paragraph_gap_multiplier = 16;
  default_line_height = 12;
}

abbrev pub line_at : ℕ → String → Line ℕ
line_at y text = record { text = some text; top = y; bottom = y + 10; x0 = 0; x1 = 100 }

abbrev rates : Table ℕ
rates = record {
  rows =
      (some "Durata" ∷ some "Tasso\nfisso" ∷ [])
      ∷ (none ∷ some "" ∷ [])
      ∷ (some "30" ∷ none ∷ [])
      ∷ [];
  x0 = 0;
  top = 200;
  x1 = 100;
  bottom = 300;
}

pdf_test :
    map {B = String × String}
      (λ s. (s.text, s.locator.value))
      (segment_pdf whole_numbers (
        record {
          tables = rates ∷ [];
          lines =
              line_at 0 "Conto" ∷ line_at 12 "base." ∷ line_at 60 "Costi." ∷ line_at 210 "30" ∷ [];
        }
        ∷ []))
    ≡ ("| Durata | Tasso fisso |\n| --- | --- |\n| 30 |  |", "1:1")
      ∷ ("Conto base.", "1:1")
      ∷ ("Costi.", "1:2")
      ∷ []
unfolding segment_pdf
pdf_test = refl
