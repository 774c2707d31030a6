-- ===== src/Tests/Risks.antt =====
-- The theorems on the guard, the account and orders at concrete inputs.
use sharpearena.Prelude.{ℕ, ◌≡◌, ◌↔◌, refl, true, false, none, some, [], ◌∷◌, arith, All, ltb}
use sharpearena.Prelude.Dict.{lookup, insert, get_or, contains}
use sharpearena.Python.Errors.{Error, ok, err, key_error, value_error}
use sharpearena.Python.Runtime.{max}
use sharpearena.Counterfactual.Ghost.{Side}
use sharpearena.Paper.Order.{is_symbol, checked_symbol, paper_order, order_post_init}
use sharpearena.Paper.Account.{
  PaperAccount, AccountSnapshot, Reconciliation, paper_account, reconcile_account, held, quantities,
  position_drift, insert_sorted,
}
use sharpearena.Paper.Account.Reconcile.{Nonzero, reconcile_account_done}
use sharpearena.Paper.Risk.{
  RiskVerdict, assess, assess_batch, batch_loop, shadow_fill, marks, refusal, prices_valid,
  projected_gross,
}
use sharpearena.Paper.Risk.Permit.{IsPermitted, assess-IsPermitted}
use sharpearena.Paper.Risk.Batch.{Verdicts, assess_batch-Verdicts, assess_batch_unpriced}
use sharpearena.Tests.Sample.{whole, config, buy_three, account, prices}

assess-IsPermitted_example :
    ((assess config buy_three account prices).allowed ≡ true)
    ↔ IsPermitted config buy_three account prices
assess-IsPermitted_example = assess-IsPermitted config buy_three account prices

abbrev allowed_three : RiskVerdict ℕ
allowed_three = record {
  allowed = true;
  reason = "allowed";
  projected_gross_exposure = 0;
  order_notional = 30;
}

batch_of_one : assess_batch config (buy_three ∷ []) account prices ≡ ok (allowed_three ∷ [])
unfolding assess_batch batch_loop shadow_fill marks assess refusal prices_valid projected_gross
    paper_account lookup insert get_or max
batch_of_one = refl

assess_batch-Verdicts_example : Verdicts config prices account (buy_three ∷ []) (allowed_three ∷ [])
assess_batch-Verdicts_example =
    assess_batch-Verdicts config prices (buy_three ∷ []) account (allowed_three ∷ []) batch_of_one

-- An account that still lists a symbol of which nothing is held.
abbrev emptied : PaperAccount ℕ
emptied = record account { positions = ("ETH", 0) ∷ [] }

emptied_valid : paper_account emptied ≡ ok emptied
unfolding paper_account
emptied_valid = refl

emptied_allowed : (assess config buy_three emptied prices).allowed ≡ true
unfolding assess refusal prices_valid projected_gross lookup insert get_or
emptied_allowed = refl

emptied_held : lookup "ETH" emptied.positions ≡ some 0
unfolding lookup
emptied_held = refl

emptied_unpriced : lookup "ETH" prices ≡ none
unfolding lookup
emptied_unpriced = refl

assess_batch_unpriced_example :
    (e : Error) × (assess_batch config (buy_three ∷ []) emptied prices ≡ err e)
    × (e.kind ≡ key_error)
assess_batch_unpriced_example =
    assess_batch_unpriced config prices buy_three [] emptied "ETH" 0 emptied_valid emptied_allowed
      emptied_held emptied_unpriced

abbrev broker_book : AccountSnapshot ℕ
broker_book = record {
  cash = 40;
  equity = 120;
  positions = ("BTC", 8) ∷ ("ETH", 0) ∷ [];
  source = "broker";
}

abbrev rebooked : PaperAccount ℕ
rebooked = record account {
  cash = 40;
  equity = 120;
  peak_equity = 120;
  positions = ("BTC", 8) ∷ [];
}

abbrev drift : Reconciliation ℕ
drift = record {
  source = "broker";
  cash_before = 100;
  cash_after = 40;
  equity_before = 100;
  equity_after = 120;
  equity_drift = 20;
  position_drift = ("BTC", 8) ∷ [];
  positions_after = ("BTC", 8) ∷ [];
  session_start_equity_preserved = 100;
  peak_equity_after = 120;
}

rebooking : reconcile_account broker_book account ≡ (ok drift, rebooked)
unfolding reconcile_account held checked_symbol is_symbol insert max position_drift insert_sorted
    lookup get_or contains
rebooking = refl

less_irrefl : (x : ℕ) → ltb x x ≡ false
less_irrefl x = ground arith

less_asym : (x y : ℕ) → ltb x y ≡ true → ltb y x ≡ false
less_asym x y h = ground arith

reconcile_account_done_example :
    (rebooked.cash ≡ broker_book.cash)
    × (rebooked.equity ≡ broker_book.equity)
    × (held broker_book.positions [] ≡ ok rebooked.positions)
    × All Nonzero (quantities rebooked.positions)
    × (rebooked.session_start_equity ≡ account.session_start_equity)
    × (ltb rebooked.peak_equity account.peak_equity ≡ false)
    × (ltb rebooked.peak_equity rebooked.equity ≡ false)
reconcile_account_done_example =
    reconcile_account_done less_irrefl less_asym broker_book account rebooked drift rebooking

abbrev unnamed_book : AccountSnapshot ℕ
unnamed_book = record broker_book { positions = ("b!", 8) ∷ [] }

abbrev bad_symbol : Error
bad_symbol = record { kind = value_error; message = "symbol contains unsupported characters" }

unnamed_raises : reconcile_account unnamed_book account ≡ (err bad_symbol, account)
unfolding reconcile_account held checked_symbol is_symbol
unnamed_raises = refl

three_constructed : paper_order "BTC" Side.buy 3 (some "a") ≡ ok buy_three
unfolding paper_order order_post_init checked_symbol is_symbol
three_constructed = refl
