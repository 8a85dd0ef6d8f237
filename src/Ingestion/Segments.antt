-- ===== src/Ingestion/Segments.antt =====
-- ingestion/segmentation/csv_segmenter.py, xlsx_segmenter.py, markdown_segmenter.py (its plain-text
-- part), json_segmenter.py, xml_segmenter.py and docx_segmenter.py, and the dispatch of
-- ingestion/loaders/file_loader.py. What a file format's parser gives is the argument here: the
-- rows, the lines, the value, the children, the paragraphs.
pub mod Ranges
use mathlib.Core.List.{flat_map}
use bank_rag_bot.Prelude.{
  ℕ, zero, suc, String, Bool, true, false, not, ◌+◌, ◌==◌, ◌&&◌, Option, none, some, List, [], ◌∷◌,
  ◌++◌, map, take, drop, length, keep, if◌then◌else◌, ltb, eqb,
}
use bank_rag_bot.Prelude.Text.{◌<>◌, strip, join, show}
use bank_rag_bot.Prelude.Exec.{Result, ok, raised, unsupported_file_type}
use bank_rag_bot.Domain.{
  Json, null, bool, number, str, arr, obj, Items, nil, cons, Fields, end, field, DocumentSegment,
}

-- `for start in range(0, len(rows), n)`, with the slice of each round; there are at most as many
-- rounds as rows.
unfoldable pub batches_from {ℓ} : {A : Type ℓ} → ℕ → ℕ → ℕ → List A → List (ℕ × List A)
batches_from zero n start rows = []
batches_from (suc fuel) n start [] = []
batches_from (suc fuel) n start (r ∷ rs) =
    (start, take n (r ∷ rs)) ∷ batches_from fuel n (start + n) (drop n (r ∷ rs))

unfoldable pub batches {ℓ} : {A : Type ℓ} → ℕ → List A → List (ℕ × List A)
unfolding batches_from
batches n rows = batches_from (length rows) n 0 rows

abbrev pub segment : String → String → String → DocumentSegment
segment text kind value = record { text = text; locator = record { kind = kind; value = value } }

-- `f"{first}-{last}"`
unfoldable pub range_text : ℕ → ℕ → String
unfolding show
range_text first last = show first <> "-" <> show last

-- The rows of a table in batches of 50, each under the header. Row 1 is the header.
unfoldable pub table_segment : String → List String → ℕ × List (List String) → DocumentSegment
unfolding range_text join
table_segment prefix header b =
    segment (join "\n" (join ", " header ∷ map (join ", ") b.1)) "row_range"
      (prefix <> range_text (b.0 + 2) (b.0 + 1 + length b.1))

unfoldable pub segment_table : String → List (List String) → List DocumentSegment
unfolding table_segment batches
segment_table prefix [] = []
segment_table prefix (header ∷ data_rows) = map (table_segment prefix header) (batches 50 data_rows)

unfoldable pub segment_csv : List (List String) → List DocumentSegment
unfolding segment_table
segment_csv rows = segment_table "" rows

-- a sheet is its title and its rows, with `""` for an empty cell
unfoldable pub segment_xlsx : List (String × List (List String)) → List DocumentSegment
unfolding segment_table
segment_xlsx sheets = flat_map (λ sheet. segment_table (sheet.0 <> "!") sheet.1) sheets

-- `if body:`
unfoldable pub unless_empty : String → String → String → List DocumentSegment
unless_empty text kind value = if text == "" then [] else segment text kind value ∷ []

unfoldable pub line_segments : ℕ × List String → List DocumentSegment
unfolding unless_empty range_text strip join
line_segments b =
    unless_empty (strip (join "\n" b.1)) "line_range" (range_text (b.0 + 1) (b.0 + length b.1))

unfoldable pub segment_plain_text : List String → List DocumentSegment
unfolding line_segments batches
segment_plain_text lines = flat_map line_segments (batches 40 lines)

-- `json.dumps(v, ensure_ascii=False, indent=2)` is the argument; for a value that is no list or
-- object the indentation changes nothing.
unfoldable pub item_segments : (Json → String) → ℕ → Items → List DocumentSegment
unfolding show
item_segments dumps index nil = []
item_segments dumps index (cons v rest) =
    segment (dumps v) "json_path" ("$[" <> show index <> "]") ∷ item_segments dumps (suc index) rest

unfoldable pub field_segments : (Json → String) → Fields → List DocumentSegment
field_segments dumps end = []
field_segments dumps (field key v rest) =
    segment (dumps (obj (field key v end))) "json_path" ("$." <> key) ∷ field_segments dumps rest

unfoldable pub segment_json : (Json → String) → Json → List DocumentSegment
unfolding item_segments field_segments
segment_json dumps (obj fields) = field_segments dumps fields
segment_json dumps (arr items) = item_segments dumps 0 items
segment_json dumps null = segment (dumps null) "json_path" "$" ∷ []
segment_json dumps (bool b) = segment (dumps (bool b)) "json_path" "$" ∷ []
segment_json dumps (number n) = segment (dumps (number n)) "json_path" "$" ∷ []
segment_json dumps (str s) = segment (dumps (str s)) "json_path" "$" ∷ []

-- `tag_counts.get(tag, 0) + 1` of the children before this one
unfoldable pub tag_index : String → List String → ℕ
tag_index tag before = suc (length (keep (λ t. t == tag) before))

-- the loop over the root's children, each a tag and its text
unfoldable pub xml_segments : String → List String → List (String × String) → List DocumentSegment
unfolding tag_index unless_empty strip show
xml_segments root before [] = []
xml_segments root before (c ∷ cs) =
    unless_empty (strip c.1) "xpath"
      ("/" <> root <> "/" <> c.0 <> "[" <> show (tag_index c.0 before) <> "]")
    ++ xml_segments root (c.0 ∷ before) cs

unfoldable pub segment_xml : String → List (String × String) → List DocumentSegment
unfolding xml_segments
segment_xml root children = xml_segments root [] children

-- `[h for h in heading_stack if h[0] < level] + [(level, title)]`
unfoldable pub push_heading : ℕ → String → List (ℕ × String) → List (ℕ × String)
push_heading level title stack = keep (λ h. ltb h.0 level) stack ++ (level, title) ∷ []

unfoldable pub heading_path : List (ℕ × String) → String
unfolding join
heading_path stack = join " > " (map (λ h. h.1) stack)

-- the inner `flush` of `segment_docx`
unfoldable pub flush_section : List (ℕ × String) → List String → List DocumentSegment
unfolding heading_path unless_empty strip
flush_section stack buffer =
    let path = heading_path stack in
    unless_empty (strip (join "\n" buffer)) "section" (if path == "" then "documento" else path)

-- the loop over the paragraphs: the level of a heading's style, 0 for any other, and the text
unfoldable pub docx_segments :
    List (ℕ × String) → List String → List (ℕ × String) → List DocumentSegment
unfolding flush_section push_heading strip
docx_segments stack buffer [] = flush_section stack buffer
docx_segments stack buffer (p ∷ ps) =
    let title = strip p.1 in
    let heading = not (eqb p.0 0) && not (title == "") in
    let flushed = if heading then flush_section stack buffer else [] in
    let buffer' = if heading then [] else if title == "" then buffer else buffer ++ p.1 ∷ [] in
    flushed ++ docx_segments (if heading then push_heading p.0 title stack else stack) buffer' ps

unfoldable pub segment_docx : List (ℕ × String) → List DocumentSegment
unfolding docx_segments
segment_docx paragraphs = docx_segments [] [] paragraphs
