-- ===== src/Tests/Sample.antt =====
-- A runtime whose floats are natural numbers, and sample data over it.
use Prim.Native.Nat.{◌/◌}
use sharpearena.Prelude.{
  ℕ, zero, suc, ◌+◌, ◌-◌, ◌*◌, true, false, none, some, List, [], ◌∷◌, ltb, leb, ◌==◌, str_eq,
  if◌then◌else◌,
}
use sharpearena.Prelude.Int.{ℤ, pos, negsuc}
use sharpearena.Prelude.Dict.{Dict}
use sharpearena.Python.Json.{str, num, Fields, fields}
use sharpearena.Python.Runtime.{Runtime}
use sharpearena.Counterfactual.Ghost.{GhostOrder, Side, Disposition}
use sharpearena.Paper.Lifecycle.{OrderLifecycle, LifecycleTransition}
use sharpearena.Paper.Lifecycle.States.{State}
use sharpearena.Paper.Order.{PaperOrder}
use sharpearena.Paper.Account.{PaperAccount}
use sharpearena.Paper.Risk.{PaperRiskConfig}

abbrev over : ℕ → ℕ → ℕ
over a zero = 0
over a (suc b) = a / suc b

abbrev total : List ℕ → ℕ
total [] = 0
total (x ∷ xs) = x + total xs

abbrev of_int : ℤ → ℕ
of_int (pos n) = n
of_int (negsuc n) = 0

instance abbrev pub whole : Runtime ℕ
whole = record {
  zero = 0;
  one = 1;
  tiny = 0;
  infinity = 1000000;
  plus = λ a b. a + b;
  minus = λ a b. a - b;
  times = λ a b. a * b;
  over = over;
  negate = λ a. 0;
  absolute = λ a. a;
  less = λ a b. ltb a b;
  at_most = λ a b. leb a b;
  same = λ a b. a == b;
  is_integer = λ a. true;
  truncate = λ a. a;
  is_finite = λ a. ltb a 1000000;
  strip = λ s. if str_eq s " a" then "a" else s;
  lower = λ s. s;
  upper = λ s. s;
  parse_float = λ s. none;
  show = λ n. "0";
  padded = λ n. "0000";
  of_int = of_int;
  sum = total;
  fsum = λ xs. some (total xs);
  dumps = λ j. "json";
  dumps_strict = λ j. some "json";
  loads = λ s. some (str s);
  sha256 = λ s. "0123456789abcdef0123456789abcdef0123456789abcdef0123456789abcdef";
}

abbrev pub ghost : GhostOrder ℕ
ghost = record {
  symbol = "BTC";
  side = Side.buy;
  intended_quantity = 3;
  executed_quantity = 0;
  reference_price = 10;
  disposition = Disposition.not_submitted;
  reason = "planned";
  execution_complete = false;
  client_order_id = some "a";
  receipt_sha256 = none;
}

abbrev pub account : PaperAccount ℕ
account = record {
  cash = 100;
  equity = 100;
  session_start_equity = 100;
  peak_equity = 100;
  positions = [];
}

abbrev pub prices : Dict ℕ
prices = ("BTC", 10) ∷ []

abbrev pub config : PaperRiskConfig ℕ
config = record {
  allowed_symbols = "BTC" ∷ [];
  max_order_notional = 50;
  max_gross_exposure = 5;
  max_daily_loss = 0;
  max_drawdown = 0;
  allow_shorting = false;
  kill_switch = false;
}

abbrev pub buy_three : PaperOrder ℕ
buy_three = record {
  symbol = "BTC";
  side = Side.buy;
  quantity = 3;
  order_type = "market";
  time_in_force = "day";
  client_order_id = some "a";
}

-- A broker's answer: the order is filled.
abbrev pub filled_view : Fields ℕ
filled_view = fields (("status", str "filled") ∷ ("filled_qty", num 3) ∷ [])

abbrev pub accepted_view : Fields ℕ
accepted_view = fields (("status", str "accepted") ∷ [])

abbrev pub lifecycle : State → List LifecycleTransition → OrderLifecycle ℕ
lifecycle state transitions = record {
  client_order_id = "a";
  state = state;
  filled_quantity = 0;
  submitted_at_unix_ns = none;
  acknowledged_at_unix_ns = none;
  ack_latency_ns = none;
  replaced_by = none;
  transitions = transitions;
  execution_evidence = none;
}
