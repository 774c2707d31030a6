-- ===== src/Paper/Risk.antt =====
-- `PaperRiskConfig` and `PaperRiskGuard` of paper_trading.py.
pub mod Permit
pub mod Batch
use sharpearena.Prelude.{
  String, Bool, true, false, not, ◌&&◌, ◌||◌, Option, none, some, List, [], ◌∷◌, ◌++◌, map, all,
  any, str_eq, if◌then◌else◌,
}
use sharpearena.Prelude.Dict.{Dict, lookup, insert, get_or, contains}
use sharpearena.Python.Errors.{Result, ok, fail, raise_if, value_error, key_error, ◌>>=◌, ◌>>◌}
use sharpearena.Python.Runtime.{Runtime, max}
use sharpearena.Counterfactual.Ghost.{Side, by_side}
use sharpearena.Paper.Order.{PaperOrder, checked_symbol}
use sharpearena.Paper.Account.{PaperAccount, paper_account, quantities}

pub record PaperRiskConfig (F : Type 0) : Type 0 where
  pub allowed_symbols : List String
  pub max_order_notional : F
  pub max_gross_exposure : F
  pub max_daily_loss : F
  pub max_drawdown : F
  pub allow_shorting : Bool
  pub kill_switch : Bool

pub record RiskVerdict (F : Type 0) : Type 0 where
  pub allowed : Bool
  pub reason : String
  pub projected_gross_exposure : F
  pub order_notional : F

abbrev pub member : String → List String → Bool
member s ss = any (λ t. str_eq t s) ss

abbrev pub has_duplicate : List String → Bool
has_duplicate [] = false
has_duplicate (s ∷ ss) = member s ss || has_duplicate ss

abbrev pub is_empty_list : List String → Bool
is_empty_list [] = true
is_empty_list (s ∷ ss) = false

-- The loop over the allowlist.
unfoldable pub check_symbols : (String → String) → List String → Result (Unit {0})
check_symbols upper [] = ok tt
check_symbols upper (s ∷ ss) = do
  canonical ← checked_symbol upper s
  raise_if (not (str_eq canonical s)) value_error
      "risk symbols must use canonical uppercase spelling"
  check_symbols upper ss

module _ {F : Type 0} ⦃r : Runtime F⦄ where
  -- `PaperRiskConfig(...)`
  unfoldable pub risk_config : PaperRiskConfig F → Result (PaperRiskConfig F)
  risk_config c = do
    raise_if (is_empty_list c.allowed_symbols) value_error
        "risk config requires an explicit symbol allowlist"
    raise_if (has_duplicate c.allowed_symbols) value_error
        "risk symbol allowlist must not contain duplicates"
    check_symbols r.upper c.allowed_symbols
    raise_if
        (not (r.is_finite c.max_order_notional)
          || not (r.is_finite c.max_gross_exposure)
          || r.at_most c.max_order_notional r.zero
          || r.at_most c.max_gross_exposure r.zero)
        value_error "notional and exposure limits must be positive"
    raise_if
        (not (r.at_most r.zero c.max_daily_loss && r.less c.max_daily_loss r.one)
          || not (r.at_most r.zero c.max_drawdown && r.less c.max_drawdown r.one))
        value_error "loss limits must lie in [0, 1)"
    ok c

  abbrev pub delta_of : PaperOrder F → F
  delta_of o = by_side o.side o.quantity

  -- `prices.get(symbol, 0.0)`, and the same for positions
  abbrev pub or_zero : String → Dict F → F
  or_zero s d = get_or r.zero (lookup s d)

  -- `symbol in prices and math.isfinite(...) and ... > 0.0`
  abbrev pub is_priced : Option F → Bool
  is_priced none = false
  is_priced (some p) = r.is_finite p && r.less r.zero p

  -- `_account_prices_are_valid`
  unfoldable pub prices_valid : Dict F → Dict F → Bool
  prices_valid [] prices = true
  prices_valid ((s, q) ∷ d) prices =
      (r.same q r.zero || is_priced (lookup s prices)) && prices_valid d prices

  abbrev exposures : Dict F → Dict F → List F
  exposures [] prices = []
  exposures ((s, q) ∷ d) prices = r.absolute (r.times q (or_zero s prices)) ∷ exposures d prices

  -- `_projected_gross`
  unfoldable pub projected_gross : PaperOrder F → PaperAccount F → Dict F → F
  projected_gross o a prices =
      if r.at_most a.equity r.zero
      then r.infinity
      else r.over
          (r.sum (
            exposures
              (insert o.symbol (r.plus (or_zero o.symbol a.positions) (delta_of o)) a.positions)
              prices))
          a.equity

  abbrev pub loss_from : F → F → F
  loss_from equity anchor = r.minus r.one (r.over equity anchor)

  -- The ladder of refusals; none is an approval.
  unfoldable pub refusal :
      PaperRiskConfig F → PaperOrder F → PaperAccount F → Dict F → F → F → F → Option String
  refusal c o a prices price notional gross =
      if c.kill_switch
      then some "kill-switch-active"
      else if not (member o.symbol c.allowed_symbols)
      then some "symbol-not-allowlisted"
      else if not (r.is_finite price) || r.at_most price r.zero
      then some "missing-or-invalid-price"
      else if not (prices_valid a.positions prices)
      then some "missing-existing-position-price"
      else if r.less c.max_daily_loss (loss_from a.equity a.session_start_equity)
      then some "daily-loss-limit"
      else if r.less c.max_drawdown (loss_from a.equity a.peak_equity)
      then some "drawdown-limit"
      else if r.less c.max_order_notional notional
      then some "order-notional-limit"
      else if r.less c.max_gross_exposure gross
      then some "gross-exposure-limit"
      else if r.less (r.plus (or_zero o.symbol a.positions) (delta_of o)) (r.negate r.tiny)
          && not c.allow_shorting
      then some "shorting-disabled"
      else none

  abbrev verdict_of : Option String → F → F → RiskVerdict F
  verdict_of none gross notional = record {
    allowed = true;
    reason = "allowed";
    projected_gross_exposure = gross;
    order_notional = notional;
  }
  verdict_of (some why) gross notional = record {
    allowed = false;
    reason = why;
    projected_gross_exposure = gross;
    order_notional = notional;
  }

  abbrev pub gross_of : PaperOrder F → PaperAccount F → Dict F → F → F
  gross_of o a prices price =
      if r.less r.zero price && prices_valid a.positions prices
      then projected_gross o a prices
      else r.infinity

  -- `assess`
  unfoldable pub assess : PaperRiskConfig F → PaperOrder F → PaperAccount F → Dict F → RiskVerdict F
  assess c o a prices =
      let price = or_zero o.symbol prices in
      let notional = r.times o.quantity price in
      let gross = gross_of o a prices price in
      verdict_of (refusal c o a prices price notional gross) gross notional

  -- `prices[symbol]`
  abbrev pub price_at : String → Option F → Result F
  price_at s none = fail key_error s
  price_at s (some p) = ok p

  -- `quantity * float(prices[symbol])` for every position
  unfoldable pub marks : Dict F → Dict F → Result (List F)
  marks [] prices = ok []
  marks ((s, q) ∷ d) prices = do
    p ← price_at s (lookup s prices)
    rest ← marks d prices
    ok (r.times q p ∷ rest)

  -- What the shadow account becomes after an allowed order.
  unfoldable pub shadow_fill : PaperOrder F → PaperAccount F → Dict F → Result (PaperAccount F)
  shadow_fill o a prices = do
    price ← price_at o.symbol (lookup o.symbol prices)
    let positions = insert o.symbol (r.plus (or_zero o.symbol a.positions) (delta_of o)) a.positions
    let cash = r.minus a.cash (r.times (delta_of o) price)
    values ← marks positions prices
    let equity = r.plus cash (r.sum values)
    ok (record a {
      cash = cash;
      equity = equity;
      peak_equity = max a.peak_equity equity;
      positions = positions;
    })

  -- The loop of `assess_batch`.
  unfoldable pub batch_loop :
      PaperRiskConfig F
      → List (PaperOrder F)
      → PaperAccount F
      → Dict F
      → Result (List (RiskVerdict F))
  batch_loop c [] shadow prices = ok []
  batch_loop c (o ∷ os) shadow prices =
      let verdict = assess c o shadow prices in
      elim verdict.allowed [
        | false ↦ ok (verdict ∷ [])
        | true ↦ (do
          shadow' ← shadow_fill o shadow prices
          rest ← batch_loop c os shadow' prices
          ok (verdict ∷ rest))
      ]

  -- `assess_batch`
  unfoldable pub assess_batch :
      PaperRiskConfig F
      → List (PaperOrder F)
      → PaperAccount F
      → Dict F
      → Result (List (RiskVerdict F))
  assess_batch c orders account prices = do
    shadow ← paper_account account
    batch_loop c orders shadow prices
