-- ===== src/Tests/Brokers.antt =====
-- The theorems on the two brokers at concrete inputs.
use sharpearena.Prelude.{ℕ, suc, ◌≡◌, ◌⊎◌, refl, String, true, false, none, some, []}
use sharpearena.Prelude.Dict.{lookup, insert, get_or}
use sharpearena.Python.Json.{null, Fields}
use sharpearena.Python.Errors.{Error, Result, ok, err, paper_trading_error}
use sharpearena.Python.Runtime.{max}
use sharpearena.Paper.Account.{PaperAccount}
use sharpearena.Paper.Risk.{PaperRiskConfig, assess, refusal, prices_valid, projected_gross}
use sharpearena.Paper.Broker.Local
use sharpearena.Paper.Broker.Local.{
  LocalBook, submit_new, fill_order, filled_account, submit_idempotent, submit_refused,
}
use sharpearena.Paper.Broker.Remote
use sharpearena.Paper.Broker.Remote.{
  Answer, Transport, http_error, body, payload, order_url, query_answer, submit_answer,
  find_order_absent, submit_settled, submit_guarded, IsSpoken, sent,
}
use sharpearena.Tests.Sample.{whole, config, buy_three, account, prices}

abbrev pad8 : ℕ → String
pad8 n = "00000001"

abbrev book : LocalBook ℕ
book = record { sequence = 0; by_client_order_id = [] }

abbrev value_of : Result (Fields ℕ) → Fields ℕ
value_of (ok fs) = fs
value_of (err e) = Fields.end

abbrev first : Result (Fields ℕ) × (PaperAccount ℕ × LocalBook ℕ)
first = Local.submit config pad8 buy_three prices (account, book)

first_filled :
    Local.submit config pad8 buy_three prices (account, book) ≡ (ok (value_of first.0), first.1)
unfolding Local.submit submit_new fill_order assess refusal prices_valid projected_gross lookup
    insert get_or filled_account max
first_filled = refl

submit_idempotent_example :
    (Local.submit config pad8 buy_three [] first.1 ≡ (ok (value_of first.0), first.1))
    × (Local.find_order "a" first.1.1 ≡ (ok (some (value_of first.0)), first.1.1))
submit_idempotent_example =
    submit_idempotent config pad8 buy_three "a" prices [] (account, book) first.1 (value_of first.0)
      refl refl first_filled

abbrev halted : PaperRiskConfig ℕ
halted = record config { kill_switch = true }

abbrev refused : Error
refused = record { kind = paper_trading_error; message = "paper order refused: kill-switch-active" }

halted_refuses :
    Local.submit halted pad8 buy_three prices (account, book) ≡ (err refused, (account, book))
unfolding Local.submit submit_new assess refusal lookup
halted_refuses = refl

abbrev start : PaperAccount ℕ × LocalBook ℕ
start = (account, book)

-- A network that answers every request alike, and counts them.
abbrev answering : Answer ℕ → Transport ℕ ℕ
answering answer = record {
  request = λ verb url load n. (answer, suc n);
  format_12g = λ x. "3";
  quoted = λ s. s;
}

absent_found : Remote.find_order (answering (http_error 404)) "a" 0 ≡ (ok none, 1)
unfolding Remote.find_order query_answer
absent_found = refl

find_order_absent_example :
    (((answering (http_error 404)).request "GET"
        (order_url (answering (http_error 404)) "a")
        none
        0).0
      ≡ http_error 404)
    ⊎ (((answering (http_error 404)).request "GET"
          (order_url (answering (http_error 404)) "a")
          none
          0).0
        ≡ body null)
find_order_absent_example = find_order_absent (answering (http_error 404)) "a" 0 1 absent_found

abbrev rejected : Error
rejected = record {
  kind = paper_trading_error;
  message = "the paper broker rejected the order with HTTP 0";
}

three_allowed : (assess config buy_three account prices).allowed ≡ true
unfolding assess refusal prices_valid projected_gross lookup insert get_or
three_allowed = refl

three_rejected :
    (Remote.submit config (answering (http_error 422)) buy_three prices (account, 0)).0
    ≡ err rejected
unfolding Remote.submit submit_answer assess refusal prices_valid projected_gross lookup insert
    get_or
three_rejected = refl

halted_disallows : (assess halted buy_three account prices).allowed ≡ false
unfolding assess refusal
halted_disallows = refl
