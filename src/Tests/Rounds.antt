-- ===== src/Tests/Rounds.antt =====
-- The router's loop with a model that calls a tool in every reply.
use bank_rag_bot.Prelude.{
  ap, arith, ℕ, suc, ◌+◌, ◌≤◌, ◌≡◌, refl, true, false, none, some, [], ◌∷◌, String,
}
use bank_rag_bot.Prelude.Exec.{Exec, ok}
use bank_rag_bot.Ports.{Services}
use bank_rag_bot.Agents.Tool.{Tool}
use bank_rag_bot.Agents.Turn.{Turn, StreamEvent}
use bank_rag_bot.Agents.Registry.{get}
use bank_rag_bot.Agents.Router.{handle_streaming}
use bank_rag_bot.Agents.Router.Bounded.{IsCount, handle_streaming-Within}
use bank_rag_bot.Tests.Fixtures.{python, conversation}

-- the outside world is the number of streamed completions
abbrev insistent : Services ℕ
insistent = record {
  complete = λ prompt messages w.
      (ok (record { content = none; tool_calls = []; finish_reason = "stop" }), w);
  stream_complete = λ prompt messages schemas w. (
    record {
      chunks =
          (record {
            content_delta = "";
            is_final = true;
            response = some (record {
              content = none;
              tool_calls = (record { id = "1"; name = "find_branches"; arguments = [] }) ∷ [];
              finish_reason = "tool_calls";
            });
          })
          ∷ [];
      failure = none;
    },
    suc w,
  );
  mask = λ s. s;
  cache_get = λ key w. (ok none, w);
  cache_set = λ key value ttl w. (ok tt, w);
  record_audit = λ entry w. (ok tt, w);
  uuid4 = λ w. ("id", w);
  now = λ w. (0, w);
}

abbrev branches : Tool ℕ
branches = record {
  name = "find_branches";
  description = "Finds branches.";
  requires_authentication = false;
  requires_confirmation = false;
  run = λ arguments w. (ok "{}", w);
}

abbrev drop_event : StreamEvent → Exec (Turn ℕ) Unit
drop_event event t = (ok tt, t)

get-IsBranches :
    (name : String) (tool : Tool ℕ) → get (branches ∷ []) name ≡ some tool → tool ≡ branches
unfolding get
get-IsBranches name tool h = ground arith

insistent-IsCount : IsCount insistent (branches ∷ []) drop_event (λ w. w)
insistent-IsCount = record {
  after_stream = λ prompt messages schemas w. refl;
  after_run = λ name tool arguments w found.
      ap (λ (x : Tool ℕ). (x.run arguments w).1) (get-IsBranches name tool found);
  after_emit = λ event t. refl;
}

abbrev turn : Turn ℕ
turn = record { conversation = conversation; sent = []; calls = []; final_answer = none; world = 0 }

handle_streaming-Within_example :
    (handle_streaming python insistent drop_event 4 (branches ∷ []) none turn).1.world ≤ 4 + 0
handle_streaming-Within_example =
    handle_streaming-Within python insistent (branches ∷ []) drop_event (λ w. w) insistent-IsCount 4
      none turn
