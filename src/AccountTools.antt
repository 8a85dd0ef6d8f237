-- ===== src/AccountTools.antt =====
-- agents/tools/account_balance_tool.py, lock_card_tool.py and branch_locator_tool.py, with
-- infrastructure/branch_directory/static_branch_directory.py, and the choice of tools and
-- audiences of di_container.py. The bank's API is an argument.
pub mod Wiring
use bank_rag_bot.Prelude.{
  ℕ, String, Bool, true, false, ◌&&◌, ◌||◌, ◌==◌, Option, none, some, List, [], ◌∷◌, ◌++◌, keep,
  take, map, if◌then◌else◌,
}
use bank_rag_bot.Prelude.Text.{◌<>◌, strip, contains}
use bank_rag_bot.Prelude.Exec.{
  Exec, Result, ok, raised, Error, type_error, pure, raise, attempt, ◌>>=◌, ◌>>◌,
}
use bank_rag_bot.Domain.{
  Json, null, bool, number, str, arr, obj, Items, nil, cons, end, field, Audience, public, internal,
}
use bank_rag_bot.Python.{Python}
use bank_rag_bot.Agents.Tool.{Tool}
use bank_rag_bot.Retrieval.Tool.{one_argument, error_json}

pub record BankApi (W : Type 0) : Type 0 where
  -- a balance is a JSON value
  pub get_account_balance : String → Json → Exec W Json
  pub lock_card : String → Json → Exec W Json

pub record Branch : Type 0 where
  pub name : String
  pub address : String
  pub city : String
  pub postal_code : String
  pub phone : String
  pub opening_hours : String

unfoldable pub branch_matches : (String → String) → String → Branch → Bool
branch_matches lower normalized b =
    contains normalized (lower b.city)
    || contains normalized (lower b.postal_code)
    || contains normalized (lower b.address)
    || contains normalized (lower b.name)

-- `StaticBranchDirectory.search`
unfoldable pub search_branches : (String → String) → List Branch → String → List Branch
unfolding branch_matches strip
search_branches lower branches query =
    let normalized = lower (strip query) in
    if normalized == "" then branches else keep (branch_matches lower normalized) branches

unfoldable pub branch_json : Branch → Json
branch_json b = obj (
    field "name" (str b.name) (
      field "address" (str b.address) (
        field "city" (str b.city) (
          field "postal_code" (str b.postal_code)
            (field "phone" (str b.phone) (field "opening_hours" (str b.opening_hours) end))))))

unfoldable pub branch_items : List Branch → Items
unfolding branch_json
branch_items [] = nil
branch_items (b ∷ bs) = cons (branch_json b) (branch_items bs)

unfoldable pub branches_json : ℕ → List Branch → Json
unfolding branch_items
branches_json max_results [] =
    obj (field "results" (arr nil) (field "note" (str "no branches found for this query") end))
branches_json max_results (b ∷ bs) =
    obj (field "results" (arr (branch_items (take max_results (b ∷ bs)))) end)

module _ {W : Type 0} (py : Python) (explain : Error → String) where
  -- the JSON of a call that returned, or of its exception
  unfoldable pub report_call : String → String → String → Json → Result Json → Exec W String
  unfolding error_json
  report_call failure name value argument (ok v) =
      pure (py.dumps (obj (field name argument (field value v end))))
  report_call failure name value argument (raised e) =
      pure (py.dumps (error_json (failure <> ": " <> explain e)))

  unfoldable pub account_balance_run : BankApi W → String → Option Json → Exec W String
  unfolding report_call
  account_balance_run api customer_id none = raise type_error
  account_balance_run api customer_id (some account_id) =
      attempt (api.get_account_balance customer_id account_id)
        (report_call "balance_lookup_failed" "account_id" "balance" account_id)

  unfoldable pub lock_card_run : BankApi W → String → Option Json → Exec W String
  unfolding report_call
  lock_card_run api customer_id none = raise type_error
  lock_card_run api customer_id (some card_id) =
      attempt (api.lock_card customer_id card_id)
        (report_call "card_lock_failed" "card_id" "locked" card_id)

  -- A query that is no text has no `strip`.
  unfoldable pub branch_locator_run : List Branch → Option Json → Exec W String
  unfolding branches_json search_branches
  branch_locator_run branches (some (str query)) =
      pure (py.dumps (branches_json 5 (search_branches py.lower branches query)))
  branch_locator_run branches (some other) = raise Error.attribute_error
  branch_locator_run branches none = raise type_error

  unfoldable pub account_balance_tool : BankApi W → String → Tool W
  unfolding account_balance_run one_argument
  account_balance_tool api customer_id = record {
    name = "get_account_balance";
    description = "Returns the authenticated customer's balance for a given account id.";
    requires_authentication = true;
    requires_confirmation = false;
    run = λ arguments. account_balance_run api customer_id (one_argument "account_id" arguments);
  }

  unfoldable pub lock_card_tool : BankApi W → String → Tool W
  unfolding lock_card_run one_argument
  lock_card_tool api customer_id = record {
    name = "lock_card";
    description =
        "Proposes locking (freezing) one of the authenticated customer's cards. "
        <> "Use this when the customer reports a lost/stolen card or suspicious activity. "
        <> "This only proposes the action — it is executed after the customer confirms.";
    requires_authentication = true;
    requires_confirmation = true;
    run = λ arguments. lock_card_run api customer_id (one_argument "card_id" arguments);
  }

  unfoldable pub branch_locator_tool : List Branch → Tool W
  unfolding branch_locator_run one_argument
  branch_locator_tool branches = record {
    name = "find_branches";
    description =
        "Finds the bank's physical branches near a city, postal code, or address the customer mentions. "
        <> "Use this when the customer asks where a branch is, or wants to visit one in person.";
    requires_authentication = false;
    requires_confirmation = false;
    run = λ arguments. branch_locator_run branches (one_argument "query" arguments);
  }

  -- `if is_authenticated and customer_id:`
  unfoldable pub account_tools : BankApi W → Bool → Option String → List (Tool W)
  unfolding account_balance_tool lock_card_tool
  account_tools api is_authenticated none = []
  account_tools api is_authenticated (some customer_id) =
      if is_authenticated && (if customer_id == "" then false else true)
      then account_balance_tool api customer_id ∷ lock_card_tool api customer_id ∷ []
      else []

  -- the list of tools of `build_answer_question_use_case`; the search tool is built for the
  -- audiences
  unfoldable pub build_tools :
      (List Audience → Tool W) → List Branch → BankApi W → Bool → Option String → List (Tool W)
  unfolding account_tools branch_locator_tool
  build_tools search_tool branches api is_authenticated customer_id =
      let allowed = if is_authenticated then public ∷ internal ∷ [] else public ∷ [] in
      (search_tool allowed ∷ branch_locator_tool branches ∷ [])
      ++ account_tools api is_authenticated customer_id
