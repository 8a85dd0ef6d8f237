-- ===== src/Tests/Offers.antt =====
-- What is offered to whom, at concrete inputs.
use bank_rag_bot.Prelude.{String, true, ◌≡◌, ◌≢◌, refl, inl, inr, Option, some, []}
use bank_rag_bot.AccountTools.{build_tools, lock_card_tool}
use bank_rag_bot.AccountTools.Wiring.{build_tools-authenticated}
use bank_rag_bot.Tests.Fixtures.{python, bank_api, find_branches}

build_tools-authenticated_example :
    (true ≡ true) × ((c : String) × (◌≡◌ {A = Option String} (some "anna") (some c)) × (c ≢ ""))
unfolding build_tools
build_tools-authenticated_example =
    build_tools-authenticated python (λ e. "") (λ allowed. find_branches) [] bank_api true
      (some "anna") (lock_card_tool python (λ e. "") bank_api "anna") (λ allowed. refl)
      (inr (inr (inr (inl refl)))) refl
