-- ===== src/Counterfactual/Snapshot.antt =====
-- `CounterfactualRecord` of counterfactual.py: one revision of one decision, with its marks.
pub mod Acted
use sharpearena.Prelude.{
  ℕ, String, Bool, true, false, not, ◌&&◌, Option, none, some, List, [], ◌∷◌, map, all, any,
  if◌then◌else◌,
}
use sharpearena.Prelude.Dict.{Dict, lookup}
use sharpearena.Prelude.Int.{pos}
use sharpearena.Python.Json.{Json, bool, int, num, str, arr, obj, items, fields, optional}
use sharpearena.Python.Errors.{Result, ok, fail, raise_if, counterfactual_error, ◌>>=◌, ◌>>◌}
use sharpearena.Python.Runtime.{Runtime}
use sharpearena.Counterfactual.Ghost.{
  GhostOrder, finite, signed_intended_quantity, signed_executed_quantity, intended_notional,
  confirmed_notional, executed_notional, foregone_notional, disposition_name, side_name,
}

-- Three values: True, False and None.
unfoldable pub same_acted : Option Bool → Option Bool → Bool
same_acted none none = true
same_acted (some true) (some b) = b
same_acted (some false) (some b) = not b
same_acted _ _ = false

pub record Snapshot (F : Type 0) : Type 0 where
  pub sequence : ℕ
  pub decision_sha256 : String
  pub observation_sha256 : String
  pub orders : List (GhostOrder F)
  pub settlement_prices : Dict F
  pub acted : Option Bool
  pub decision_key : Option String

module _ {F : Type 0} ⦃r : Runtime F⦄ where
  abbrev pub filled : GhostOrder F → Bool
  filled g = r.less r.zero g.executed_quantity

  -- `_acted`
  unfoldable pub acted : List (GhostOrder F) → Option Bool
  acted orders =
      if any filled orders
      then some true
      else if all (λ g. g.execution_complete) orders
      then some false
      else none

  -- The loop over `settlement_prices` of `__post_init__`.
  unfoldable pub check_prices : Dict F → Result (Unit {0})
  check_prices [] = ok tt
  check_prices ((s, price) ∷ d) = do
    x ← finite price "settlement_prices"
    raise_if (r.at_most x r.zero) counterfactual_error "settlement prices must be positive"
    check_prices d

  -- `CounterfactualRecord(...)`
  unfoldable pub snapshot : Snapshot F → Result (Snapshot F)
  snapshot entry = do
    check_prices entry.settlement_prices
    raise_if (not (same_acted entry.acted (acted entry.orders))) counterfactual_error
        "acted must agree with confirmed fills and execution availability"
    ok entry

  -- One round of the loop in `_pnl`: the new total, or none for its `return None`.
  unfoldable pub mark : (GhostOrder F → F) → Bool → Dict F → GhostOrder F → F → Option F
  mark signed executed_arm prices g total =
      if executed_arm && not g.execution_complete
      then none
      else if r.same (signed g) r.zero
      then some total
      else elim (lookup g.symbol prices) [
        | none ↦ none
        | some settlement ↦
            some (r.plus total (r.times (signed g) (r.minus settlement g.reference_price)))
      ]

  unfoldable pub pnl_loop : (GhostOrder F → F) → Bool → Dict F → List (GhostOrder F) → F → Option F
  pnl_loop signed executed_arm prices [] total = some total
  pnl_loop signed executed_arm prices (g ∷ gs) total =
      elim (mark signed executed_arm prices g total) [
        | none ↦ none
        | some t ↦ pnl_loop signed executed_arm prices gs t
      ]

  abbrev finite_or_none : String → Option F → Result (Option F)
  finite_or_none name none = ok none
  finite_or_none name (some x) = do y ← finite x name; ok (some y)

  -- `_pnl`; the flag says that the quantity is `signed_executed_quantity`.
  unfoldable pub pnl : (GhostOrder F → F) → Bool → Snapshot F → Result (Option F)
  pnl signed executed_arm entry =
      finite_or_none "reference-price P&L"
        (pnl_loop signed executed_arm entry.settlement_prices entry.orders r.zero)

  unfoldable pub intended_pnl : Snapshot F → Result (Option F)
  intended_pnl entry = pnl signed_intended_quantity false entry

  unfoldable pub executed_pnl : Snapshot F → Result (Option F)
  executed_pnl entry = pnl signed_executed_quantity true entry

  abbrev difference : Option F → Option F → Result (Option F)
  difference (some a) (some b) = finite_or_none "foregone_pnl" (some (r.minus a b))
  difference _ _ = ok none

  unfoldable pub foregone_pnl : Snapshot F → Result (Option F)
  foregone_pnl entry = do
    intended ← intended_pnl entry
    executed ← executed_pnl entry
    difference intended executed

  -- `list(values)` with None found or not
  unfoldable pub collect : List (Option F) → Option (List F)
  collect [] = some []
  collect (none ∷ xs) = none
  collect (some x ∷ xs) = elim (collect xs) [ none ↦ none | some ys ↦ some (x ∷ ys) ]

  abbrev aggregate : Option F → Result (Option F)
  aggregate none = fail counterfactual_error "aggregate must be finite"
  aggregate (some x) = finite_or_none "aggregate" (some x)

  -- `_sum_available`
  unfoldable pub sum_available : List (Option F) → Result (Option F)
  sum_available values = elim (collect values) [ none ↦ ok none | some xs ↦ aggregate (r.fsum xs) ]

  unfoldable pub order_record : GhostOrder F → Json F
  order_record g = obj (
      fields (
        ("symbol", str g.symbol)
        ∷ ("side", str (side_name g.side))
        ∷ ("intended_quantity", num g.intended_quantity)
        ∷ ("executed_quantity", num g.executed_quantity)
        ∷ ("reference_price", num g.reference_price)
        ∷ ("disposition", str (disposition_name g.disposition))
        ∷ ("reason", str g.reason)
        ∷ ("execution_complete", bool g.execution_complete)
        ∷ ("client_order_id", optional str g.client_order_id)
        ∷ ("receipt_sha256", optional str g.receipt_sha256)
        ∷ ("confirmed_notional", num (confirmed_notional g))
        ∷ ("intended_notional", num (intended_notional g))
        ∷ ("executed_notional", optional num (executed_notional g))
        ∷ ("foregone_notional", optional num (foregone_notional g))
        ∷ []))

  abbrev price_field : String × F → String × Json F
  price_field (s, price) = (s, num price)

  -- `CounterfactualRecord.as_record`: it raises where a derived number is not finite.
  unfoldable pub as_record : Snapshot F → Result (Json F)
  as_record entry = do
    confirmed ← sum_available (map (λ g. some (confirmed_notional g)) entry.orders)
    intended ← sum_available (map (λ g. some (intended_notional g)) entry.orders)
    executed ← sum_available (map executed_notional entry.orders)
    intended_mark ← intended_pnl entry
    executed_mark ← executed_pnl entry
    foregone_mark ← foregone_pnl entry
    ok (
        obj (
          fields (
            ("schema_version", int (pos 2))
            ∷ ("evidence_class", str "counterfactual_decision_ledger")
            ∷ ("valuation", str "reference_price_mark")
            ∷ ("sequence", int (pos entry.sequence))
            ∷ ("decision_sha256", str entry.decision_sha256)
            ∷ ("observation_sha256", str entry.observation_sha256)
            ∷ ("acted", optional bool entry.acted)
            ∷ ("decision_key", optional str entry.decision_key)
            ∷ ("confirmed_notional", optional num confirmed)
            ∷ ("orders", arr (items (map order_record entry.orders)))
            ∷ ("settlement_prices", obj (fields (map price_field entry.settlement_prices)))
            ∷ ("intended_notional", optional num intended)
            ∷ ("executed_notional", optional num executed)
            ∷ ("intended_pnl", optional num intended_mark)
            ∷ ("executed_pnl", optional num executed_mark)
            ∷ ("foregone_pnl", optional num foregone_mark)
            ∷ [])))
