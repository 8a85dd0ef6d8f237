-- ===== src/Ingestion/Pdf/Paragraphs.antt =====
-- The paragraphs of a page put together are its lines.
use mathlib.Core.List.{append_assoc}
use bank_rag_bot.Prelude.{
  String, false, not, ◌==◌, ◌≡◌, refl, ap, ◌∙◌, arith, Option, none, some, List, [], ◌∷◌, ◌++◌, map,
  keep, is_empty, All, Elem-All, Elem-keep, Bool-cases, inl, inr,
}
use bank_rag_bot.Prelude.Text.{strip, join}
use bank_rag_bot.Ports.{or_empty}
use bank_rag_bot.Ingestion.Pdf.{
  Geometry, Line, group_from, group_into_paragraphs, gap_threshold, is_far,
}

abbrev pub concat : {A : Type 0} → List (List A) → List A
concat [] = []
concat (xs ∷ xss) = xs ++ concat xss

concat-keep :
    {A : Type 0} (xss : List (List A)) → concat (keep (λ xs. not (is_empty xs)) xss) ≡ concat xss
concat-keep [] = refl
concat-keep ([] ∷ xss) = concat-keep xss
concat-keep ((x ∷ xs) ∷ xss) = ap (λ ys. x ∷ xs ++ ys) (concat-keep xss)

module _ {F : Type 0} where
  abbrev text_of : Line F → String
  text_of line = strip (or_empty line.text)

  -- the texts of the lines that are not blank
  abbrev pub line_texts : List (Line F) → List String
  line_texts lines = keep (λ t. not (t == "")) (map text_of lines)

  module _ (g : Geometry F) (threshold : F) where
    concat-group_from :
        (previous : Option F) (current : List String) (lines : List (Line F))
        → concat (group_from g threshold previous current lines) ≡ current ++ line_texts lines
    unfolding group_from
    concat-group_from previous current [] = refl
    concat-group_from previous current (line ∷ lines) = elim (Bool-cases (text_of line == "")) [
      | inl blank ↦ rw (blank) (concat-group_from previous current lines)
      | inr worded ↦ elim (Bool-cases (is_far g threshold previous line.top)) [
        | inl far ↦
            rw (worded, far)
              (ap (λ ys. current ++ ys)
                (concat-group_from (some line.bottom) (text_of line ∷ []) lines))
        | inr near ↦
            rw (worded, near)
              (concat-group_from (some line.bottom) (current ++ text_of line ∷ []) lines
                ∙ append_assoc current (text_of line ∷ []) (line_texts lines))
      ]
    ]

  -- The paragraphs of a page are the joined texts of groups that are not empty, and the groups put
  -- together are the texts of the lines that are not blank: none is lost, repeated or moved.
  pub group_into_paragraphs-partition :
      (g : Geometry F) (lines : List (Line F))
      → (groups : List (List String)) × (group_into_paragraphs g lines
          ≡ map (λ p. strip (join " " p)) groups)
        × All (λ p. is_empty p ≡ false) groups
        × (concat groups ≡ line_texts lines)
  unfolding group_into_paragraphs
  group_into_paragraphs-partition g [] = ([], refl, tt, refl)
  group_into_paragraphs-partition g (line ∷ lines) =
      let found = group_from g (gap_threshold g (line ∷ lines)) none [] (line ∷ lines) in
      (
        keep (λ p. not (is_empty p)) found,
        refl,
        Elem-All _ _ (λ p m.
            let (inside, kept) = Elem-keep (λ (q : List String). not (is_empty q)) p found m in
            ground arith),
        concat-keep found
            ∙ concat-group_from g (gap_threshold g (line ∷ lines)) none [] (line ∷ lines),
      )
