-- ===== src/AnswerQuestion/Events/Done.antt =====
-- The stream of a message, and the answer of `execute`.
use mathlib.Core.List.{◌++◌}
use bank_rag_bot.Prelude.{ℕ, String, false, List, [], ◌∷◌, none, ◌≡◌, refl, All, All-concat}
use bank_rag_bot.Prelude.Exec.{Exec, modify}
use bank_rag_bot.Prelude.Triple.{Outcome}
use bank_rag_bot.Domain.{Answer}
use bank_rag_bot.Python.{Python}
use bank_rag_bot.Ports.{Services}
use bank_rag_bot.Agents.Tool.{Tool}
use bank_rag_bot.Agents.Turn.{Turn, StreamEvent}
use bank_rag_bot.AnswerQuestion.{execute_streaming}
use bank_rag_bot.AnswerQuestion.Events.{Reader, done_with, execute_streaming-Triple}

-- A consumer that keeps every event.
unfoldable pub keep_event : {W : Type 0} → StreamEvent → Exec (Turn W) Unit
keep_event e = modify (λ t. record t { sent = t.sent ++ e ∷ [] })

abbrev pub IsDelta : StreamEvent → Type 0
IsDelta e = (e.done ≡ false) × (e.answer ≡ none)

-- Pieces of text, and then one done event with an answer.
abbrev pub IsWhole : List StreamEvent → Type 0
IsWhole events =
    (ds : List StreamEvent) × (text : String) × (a : Answer) × (events
      ≡ ds ++ done_with text a ∷ [])
    × All IsDelta ds

module _ {W : Type 0} where
  keeps :
      Reader {W = W} keep_event
        (λ t. All IsDelta t.sent)
        (λ t. IsWhole t.sent)
        (λ t. All IsDelta t.sent)
  unfolding keep_event modify
  keeps = record {
    on_delta = λ text. record { at = λ t h. All-concat IsDelta t.sent _ h (refl, refl) };
    on_done = λ text a. record { at = λ t h. (t.sent, text, a, refl, h) };
    moved = λ t c calls w h. h;
    on_failure = λ t h. h;
  }

  -- A message that is answered yields pieces of text and then exactly one done event, which has an
  -- answer and is the last. One that ends in an exception yields pieces of text only.
  pub execute_streaming-IsWhole :
      (py : Python) (sv : Services W) (tools : List (Tool W)) (max_iterations : ℕ)
      (question : String) (t : Turn W)
      → t.sent ≡ []
      → let r = execute_streaming py sv tools max_iterations keep_event question t in
        Outcome (λ _ u. IsWhole u.sent) (λ u. All IsDelta u.sent) r.0 r.1
  execute_streaming-IsWhole py sv tools max_iterations question t h =
      (execute_streaming-Triple py sv tools max_iterations keep_event _ _ _ keeps question).at t
        (rw h tt)
