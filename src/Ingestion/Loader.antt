-- ===== src/Ingestion/Loader.antt =====
-- ingestion/loaders/file_loader.py: the segmenter of a file by its extension. What each parser
-- makes of the bytes is an argument, and may raise.
use Prim.Native.Char.{code}
use bank_rag_bot.Prelude.{
  ℕ, String, ◌==◌, ◌≡◌, refl, Option, none, some, List, [], ◌∷◌, if◌then◌else◌, eqb,
}
use bank_rag_bot.Prelude.Text.{◌<>◌, join}
use bank_rag_bot.Prelude.Exec.{Result, ok, raised, unsupported_file_type, bind_result}
use bank_rag_bot.Domain.{Json, DocumentSegment}
use bank_rag_bot.Ingestion.Lines.{splitlines}
use bank_rag_bot.Ingestion.Segments.{
  segment_csv, segment_xlsx, segment_plain_text, segment_json, segment_xml, segment_docx,
}
use bank_rag_bot.Ingestion.Markdown.{segment_markdown}
use bank_rag_bot.Ingestion.Pdf.{Geometry, Page, segment_pdf}

-- the values of `_SEGMENTERS`
pub data Format : Type 0 where
  pdf docx markdown plain_text csv xlsx json xml : Format

unfoldable pub format_of : String → Option Format
format_of extension =
    if extension == "pdf"
    then some pdf
    else if extension == "docx"
    then some docx
    else if extension == "md"
    then some markdown
    else if extension == "markdown"
    then some markdown
    else if extension == "txt"
    then some plain_text
    else if extension == "csv"
    then some csv
    else if extension == "xlsx"
    then some xlsx
    else if extension == "xlsm"
    then some xlsx
    else if extension == "json"
    then some json
    else if extension == "xml"
    then some xml
    else none

pub record Parsers (Bytes F : Type 0) : Type 0 where
  -- `content.decode("utf-8", errors="replace")`
  pub decode : Bytes → String
  pub geometry : Geometry F
  pub pdf_pages : Bytes → Result (List (Page F))
  -- a heading's level by its style, 0 for any other, and the text
  pub docx_paragraphs : Bytes → Result (List (ℕ × String))
  pub csv_rows : String → Result (List (List String))
  pub xlsx_sheets : Bytes → Result (List (String × List (List String)))
  pub json_value : Bytes → Result Json
  pub json_text : Json → String
  -- the root's tag, and the tag and text of each child
  pub xml_root : Bytes → Result (String × List (String × String))
  pub lower : String → String

-- what follows the last dot, if there is one
unfoldable pub after_last_dot : String → Option String
after_last_dot String.[] = none
after_last_dot (String.◌∷◌ c s) = elim (after_last_dot s) [
  | some rest ↦ some rest
  | none ↦ if eqb (code c) b'.' then some s else none
]

-- `filename.lower().rsplit(".", 1)[-1] if "." in filename else ""`
unfoldable pub extension_of : (String → String) → String → String
unfolding after_last_dot
extension_of lower filename = elim (after_last_dot (lower filename)) [
  | none ↦ ""
  | some rest ↦ rest
]

-- `sorted(_SEGMENTERS)`
abbrev pub supported_extensions : List String
supported_extensions =
    "csv" ∷ "docx" ∷ "json" ∷ "markdown" ∷ "md" ∷ "pdf" ∷ "txt" ∷ "xlsm" ∷ "xlsx" ∷ "xml" ∷ []

unfoldable pub unsupported_message : String → String
unfolding join
unsupported_message filename =
    "unsupported file type: "
    <> filename
    <> " (supported: "
    <> join ", " supported_extensions
    <> ")"

module _ {Bytes F : Type 0} (parsers : Parsers Bytes F) where
  unfoldable pub segment_as : Format → Bytes → Result (List DocumentSegment)
  unfolding segment_pdf segment_docx segment_markdown segment_plain_text segment_csv segment_xlsx
      segment_json segment_xml splitlines
  segment_as pdf content =
      bind_result (parsers.pdf_pages content) (λ pages. ok (segment_pdf parsers.geometry pages))
  segment_as docx content =
      bind_result (parsers.docx_paragraphs content) (λ paragraphs. ok (segment_docx paragraphs))
  segment_as markdown content = ok (segment_markdown (parsers.decode content))
  segment_as plain_text content = ok (segment_plain_text (splitlines (parsers.decode content)))
  segment_as csv content =
      bind_result (parsers.csv_rows (parsers.decode content)) (λ rows. ok (segment_csv rows))
  segment_as xlsx content =
      bind_result (parsers.xlsx_sheets content) (λ sheets. ok (segment_xlsx sheets))
  segment_as json content =
      bind_result (parsers.json_value content) (λ v. ok (segment_json parsers.json_text v))
  segment_as xml content =
      bind_result (parsers.xml_root content) (λ root. ok (segment_xml root.0 root.1))

  unfoldable pub load_as : Option Format → String → Bytes → Result (List DocumentSegment)
  unfolding segment_as unsupported_message
  load_as none filename content = raised (unsupported_file_type (unsupported_message filename))
  load_as (some format) filename content = segment_as format content

  unfoldable pub load : String → Bytes → Result (List DocumentSegment)
  unfolding load_as format_of extension_of
  load filename content = load_as (format_of (extension_of parsers.lower filename)) filename content

extension_tests :
    (extension_of (λ s. s) "a.tar.md" ≡ "md")
    × (extension_of (λ s. s) "readme" ≡ "")
    × (format_of "xlsm" ≡ some xlsx)
unfolding extension_of format_of
extension_tests = (refl, refl, refl)
