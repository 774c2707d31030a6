-- ===== src/Counterfactual/Preflight.antt =====
-- `ghost_orders_from_preflight` of counterfactual.py: an unsubmitted batch. Its two arguments are
-- dicts in the source, `asdict` of an order and of a verdict; here they are records.
pub mod Laws
use sharpearena.Prelude.{String, Bool, true, Option, none, some, List, [], ◌∷◌, if◌then◌else◌}
use sharpearena.Prelude.Dict.{Dict, lookup}
use sharpearena.Python.Errors.{Result, ok, fail, key_error, ◌>>=◌}
use sharpearena.Python.Runtime.{Runtime}
use sharpearena.Counterfactual.Ghost.{
  Side, GhostOrder, Disposition, not_submitted, risk_refused, construct,
}

-- The keys of `asdict(order)` and of `asdict(verdict)` that are read.
pub record Intent (F : Type 0) : Type 0 where
  pub symbol : String
  pub side : Side
  pub quantity : F

pub record Verdict : Type 0 where
  pub allowed : Bool
  pub reason : String

abbrev pub fate : Option Verdict → Disposition × String
fate none = (not_submitted, "batch halted by an earlier refusal")
fate (some v) =
    if v.allowed
    then (not_submitted, "preflight approval is not a fill")
    else (risk_refused, v.reason)

-- `verdicts[index] if index < len(verdicts) else None`, and the rest of the list.
abbrev pub first_verdict : List (Option Verdict) → Option Verdict
first_verdict [] = none
first_verdict (v ∷ vs) = v

abbrev pub rest_verdicts : List (Option Verdict) → List (Option Verdict)
rest_verdicts [] = []
rest_verdicts (v ∷ vs) = vs

module _ {F : Type 0} ⦃r : Runtime F⦄ where
  -- `prices[symbol]`
  unfoldable pub price_of : String → Dict F → Result F
  price_of symbol prices = elim (lookup symbol prices) [
    | none ↦ fail key_error symbol
    | some p ↦ ok p
  ]

  unfoldable pub ghost : Intent F → Option Verdict → F → Result (GhostOrder F)
  ghost order verdict price =
      let (disposition, reason) = fate verdict in
      construct (record {
        symbol = order.symbol;
        side = order.side;
        intended_quantity = order.quantity;
        executed_quantity = r.zero;
        reference_price = price;
        disposition = disposition;
        reason = reason;
        execution_complete = true;
        client_order_id = none;
        receipt_sha256 = none;
      })

  unfoldable pub ghost_orders_from_preflight :
      List (Intent F) → List (Option Verdict) → Dict F → Result (List (GhostOrder F))
  ghost_orders_from_preflight [] verdicts prices = ok []
  ghost_orders_from_preflight (order ∷ orders) verdicts prices = do
    price ← price_of order.symbol prices
    g ← ghost order (first_verdict verdicts) price
    gs ← ghost_orders_from_preflight orders (rest_verdicts verdicts) prices
    ok (g ∷ gs)
