-- ===== src/Llm/Deltas.antt =====
-- What is shown while the text streams is the text of the response in the end.
use mathlib.Core.List.{foldl}
use bank_rag_bot.Prelude.{
  String, ◌==◌, ◌≡◌, refl, sym, ap, ◌∙◌, Option, none, some, List, [], ◌∷◌, ◌++◌, arith, eq_iff,
  Bool-cases, if◌then◌else◌, inl, inr,
}
use text.Mathlib.TextLemmas.{nil-append, append_assoc, append-nil}
use bank_rag_bot.Prelude.Text.{◌<>◌}
use bank_rag_bot.Prelude.Exec.{ok, bind_result-ok, ok-inj}
use bank_rag_bot.Domain.{Json}
use bank_rag_bot.Ports.{LlmResponse, LlmStreamChunk, or_empty}
use bank_rag_bot.Llm.{
  Delta, Collected, collect, delta_chunks, stream_chunks, stream_complete, final_response,
  tool_calls_of, response_of, nothing_collected,
}

-- the texts of the chunks, joined
abbrev pub shown : List LlmStreamChunk → String
shown [] = ""
shown (c ∷ cs) = c.content_delta <> shown cs

shown-append : (xs ys : List LlmStreamChunk) → shown (xs ++ ys) ≡ shown xs <> shown ys
shown-append [] ys = sym (nil-append (shown ys))
shown-append (x ∷ xs) ys =
    ap (◌<>◌ x.content_delta) (shown-append xs ys)
    ∙ sym (append_assoc x.content_delta (shown xs) (shown ys))

shown-delta_chunks : (d : Delta) → shown (delta_chunks d) ≡ or_empty d.content
unfolding delta_chunks
shown-delta_chunks d = elim (Bool-cases (or_empty d.content == "")) [
  | inl empty ↦ rw (empty) (sym (ground (arith, eq_iff (or_empty d.content) "")))
  | inr full ↦ rw (full) (append-nil (or_empty d.content))
]

content-foldl :
    (ds : List Delta) (c : Collected)
    → (foldl collect c ds).content ≡ c.content <> shown (stream_chunks ds)
unfolding stream_chunks collect
content-foldl [] c = sym (append-nil c.content)
content-foldl (d ∷ ds) c =
    content-foldl ds (collect c d)
    ∙ append_assoc c.content (or_empty d.content) (shown (stream_chunks ds))
    ∙ ap (◌<>◌ c.content) (
        ap (λ s. s <> shown (stream_chunks ds)) (sym (shown-delta_chunks d))
        ∙ sym (shown-append (delta_chunks d) (stream_chunks ds)))

or_empty-if : (s : String) → or_empty (if s == "" then none else some s) ≡ s
or_empty-if s = elim (Bool-cases (s == "")) [
  | inl empty ↦ rw (empty) (sym (ground (arith, eq_iff s "")))
  | inr full ↦ rw (full) refl
]

content-final_response :
    (loads : String → Option Json) (c : Collected) (r : LlmResponse)
    → final_response loads c ≡ ok r
    → or_empty r.content ≡ c.content
unfolding final_response response_of
content-final_response loads c r h =
    let (calls, read, built) =
      bind_result-ok (tool_calls_of loads c.fragments) (λ x. ok (response_of c x)) r h in
    ap (λ x. or_empty x.content) (sym (ok-inj (response_of c calls) r built))
    ∙ or_empty-if c.content

-- If a streamed completion ends with a response, then its text is that of the pieces shown, joined
-- in their order.
pub shown-stream_complete :
    (loads : String → Option Json) (deltas : List Delta) (r : LlmResponse)
    → (stream_complete loads deltas).1 ≡ ok r
    → shown (stream_complete loads deltas).0 ≡ or_empty r.content
unfolding stream_complete
shown-stream_complete loads deltas r h = sym (
    content-final_response loads (foldl collect nothing_collected deltas) r h
    ∙ content-foldl deltas nothing_collected
    ∙ nil-append (shown (stream_chunks deltas)))
