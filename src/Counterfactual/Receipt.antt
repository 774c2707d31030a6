-- ===== src/Counterfactual/Receipt.antt =====
-- `ghost_order_from_receipt` of counterfactual.py: a broker's answer against a bound intended order.
-- A receipt is the field list of a JSON object; `isinstance(receipt, Mapping)` is that type.
pub mod Laws
use sharpearena.Prelude.{
  String, concat, Bool, true, false, not, ◌&&◌, Option, none, some, str_eq, is_some, if◌then◌else◌,
}
use sharpearena.Python.Json.{Json, null, bool, int, num, str, arr, obj, Fields, get}
use sharpearena.Python.Errors.{Result, ok, fail, raise_if, counterfactual_error, ◌>>=◌, ◌>>◌}
use sharpearena.Python.Runtime.{Runtime, strict_digest}
use sharpearena.Counterfactual.Ghost.{
  GhostOrder, Disposition, executed, partially_filled, acknowledged, broker_rejected,
  broker_canceled, broker_expired, side_name, finite, construct,
}

module _ {F : Type 0} where
  -- `receipt[field] == expected`, where `expected` is a text or None
  abbrev pub equals : Json F → Option String → Bool
  equals null none = true
  equals (str s) (some t) = str_eq s t
  equals _ _ = false

  abbrev differs : Option (Json F) → Option String → Bool
  differs none t = false
  differs (some j) t = not (equals j t)

  -- `field in receipt and receipt[field] != expected`
  unfoldable pub contradicts : String → Fields F → Option String → Bool
  contradicts field receipt expected = differs (get field receipt) expected

-- The table `terminal`.
unfoldable pub terminal : String → Option Disposition
terminal status =
    if str_eq status "filled"
    then some executed
    else if str_eq status "rejected"
    then some broker_rejected
    else if str_eq status "canceled"
    then some broker_canceled
    else if str_eq status "cancelled"
    then some broker_canceled
    else if str_eq status "expired"
    then some broker_expired
    else none

module _ {F : Type 0} ⦃r : Runtime F⦄ where
  -- `receipt.get("filled_qty")`, with None for a missing or null value
  abbrev present : Option (Json F) → Option (Json F)
  present none = none
  present (some null) = none
  present (some j) = some j

  unfoldable pub raw_quantity : Fields F → Option (Json F)
  raw_quantity receipt = present (get "filled_qty" receipt)

  abbrev parsed : Option F → Result F
  parsed none = fail counterfactual_error "filled_qty must be a finite quantity"
  parsed (some x) =
      if r.is_finite x
      then ok x
      else fail counterfactual_error "filled_qty must be a finite quantity"

  -- The `try` block, with its handlers: each of them raises the same error.
  unfoldable pub cumulative : GhostOrder F → Option (Json F) → Result F
  cumulative g none = ok g.executed_quantity
  cumulative g (some (bool b)) =
      fail counterfactual_error "filled_qty must be a finite quantity, not boolean"
  cumulative g (some (int n)) = parsed (some (r.of_int n))
  cumulative g (some (num x)) = parsed (some x)
  cumulative g (some (str s)) = parsed (r.parse_float s)
  cumulative g (some _) = parsed none

  abbrev status_text : Option (Json F) → Result String
  status_text (some (str s)) = ok (r.lower s)
  status_text _ = fail counterfactual_error "broker receipt status must be a string"

  -- `"partially_filled" if quantity else "acknowledged"`
  abbrev pending : F → Disposition
  pending quantity = if r.same quantity r.zero then acknowledged else partially_filled

  -- `disposition` after its three assignments
  abbrev disposition_of : String → Bool → F → F → Disposition
  disposition_of status complete quantity intended =
      if complete && r.same quantity intended then executed else elim (terminal status) [
        | some d ↦ if complete then d else pending quantity
        | none ↦ pending quantity
      ]

  unfoldable pub ghost_order_from_receipt : GhostOrder F → Fields F → Result (GhostOrder F)
  ghost_order_from_receipt g receipt = do
    raise_if (contradicts "client_order_id" receipt g.client_order_id) counterfactual_error
        "broker receipt client_order_id does not match the intended order"
    raise_if (contradicts "symbol" receipt (some g.symbol)) counterfactual_error
        "broker receipt symbol does not match the intended order"
    raise_if (contradicts "side" receipt (some (side_name g.side))) counterfactual_error
        "broker receipt side does not match the intended order"
    quantity ← cumulative g (raw_quantity receipt)
    raise_if
        (not (r.at_most g.executed_quantity quantity && r.at_most quantity g.intended_quantity))
        counterfactual_error "cumulative filled_qty must not decrease or exceed intended quantity"
    status ← status_text (get "status" receipt)
    let complete = is_some (terminal status) && is_some (raw_quantity receipt)
    raise_if (str_eq status "filled" && complete && not (r.same quantity g.intended_quantity))
        counterfactual_error "filled receipt must confirm the full intended quantity"
    receipt_sha256 ← strict_digest (obj receipt)
    construct (record g {
      executed_quantity = quantity;
      execution_complete = complete;
      disposition = disposition_of status complete quantity g.intended_quantity;
      reason = concat "broker status: " status;
      receipt_sha256 = some receipt_sha256;
    })
