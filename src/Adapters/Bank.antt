-- ===== src/Adapters/Bank.antt =====
-- infrastructure/bank_api/core_banking_client.py. `httpx` is the argument `Http`: the two methods
-- on a path, the check of the status, and the JSON of a response.
use bank_rag_bot.Prelude.{String, true, Option, none, some}
use bank_rag_bot.Prelude.Text.{◌<>◌}
use bank_rag_bot.Prelude.Exec.{Exec, Result, ok, raised, attribute_error, bind_result, lift, ◌>>=◌}
use bank_rag_bot.Domain.{Json, null, bool, number, str, arr, obj}
use bank_rag_bot.Python.{Python}
use bank_rag_bot.Agents.Router.Texts.{get_field}
use bank_rag_bot.Conversations.{item, as_object}
use bank_rag_bot.AccountTools.{BankApi}
use bank_rag_bot.AnswerQuestion.{is_true}

pub record Http (Response W : Type 0) : Type 0 where
  pub get : String → Exec W Response
  pub post : String → Exec W Response
  pub raise_for_status : Response → Result (Unit {0})
  pub json : Response → Result Json
  -- `float(…)` of a JSON value, as the number it is
  pub to_float : Json → Result Json

-- `response.json()[name]`
unfoldable pub subscript : String → Json → Result Json
unfolding item
subscript name v = bind_result (as_object v) (item name)

-- `dict.get(name, True)`
abbrev given_or_true : Option Json → Json
given_or_true none = bool true
given_or_true (some v) = v

-- `bool(response.json().get("locked", True))`
unfoldable pub locked_of : Json → Result Json
unfolding is_true
locked_of (obj fields) = ok (bool (is_true (some (given_or_true (get_field "locked" fields)))))
locked_of null = raised attribute_error
locked_of (bool b) = raised attribute_error
locked_of (number n) = raised attribute_error
locked_of (str s) = raised attribute_error
locked_of (arr items) = raised attribute_error

-- The customer and the account or card are written into the path as they are.
unfoldable pub balance_path : String → String → String
balance_path customer_id account_id =
    "/customers/" <> customer_id <> "/accounts/" <> account_id <> "/balance"

unfoldable pub lock_path : String → String → String
lock_path customer_id card_id = "/customers/" <> customer_id <> "/cards/" <> card_id <> "/lock"

unfoldable pub accounts_path : String → String
accounts_path customer_id = "/customers/" <> customer_id <> "/accounts"

module _ {Response W : Type 0} (http : Http Response W) (py : Python) where
  unfoldable pub checked_json : Response → Result Json
  checked_json response = bind_result (http.raise_for_status response) (λ done. http.json response)

  unfoldable pub get_account_balance : String → Json → Exec W Json
  unfolding checked_json subscript balance_path
  get_account_balance customer_id account_id = do
    response ← http.get (balance_path customer_id (py.format account_id))
    lift (
        bind_result (checked_json response)
          (λ v. bind_result (subscript "balance" v) http.to_float))

  unfoldable pub list_accounts : String → Exec W Json
  unfolding checked_json subscript accounts_path
  list_accounts customer_id = do
    response ← http.get (accounts_path customer_id)
    lift (bind_result (checked_json response) (subscript "accounts"))

  unfoldable pub lock_card : String → Json → Exec W Json
  unfolding checked_json locked_of lock_path
  lock_card customer_id card_id = do
    response ← http.post (lock_path customer_id (py.format card_id))
    lift (bind_result (checked_json response) locked_of)

  -- the client as the tools take it
  unfoldable pub bank_api : BankApi W
  unfolding get_account_balance lock_card
  bank_api = record { get_account_balance = get_account_balance; lock_card = lock_card }
