-- ===== src/Counterfactual/Receipt/Laws.antt =====
-- What an accepted receipt establishes (`ghost_order_from_receipt` of counterfactual.py).
use sharpearena.Prelude.{◌≡◌, true, false, none, some, arith, String, is_some}
use sharpearena.Python.Json.{Fields, get, str}
use sharpearena.Python.Errors.{ok}
use sharpearena.Python.Runtime.{Runtime, strict_digest}
use sharpearena.Counterfactual.Ghost.{GhostOrder, construct}
use sharpearena.Counterfactual.Ghost.Sound.{IsSound, IsSound-construct}
use sharpearena.Counterfactual.Receipt.{
  raw_quantity, cumulative, terminal, ghost_order_from_receipt,
}

module _ {F : Type 0} ⦃r : Runtime F⦄ (g : GhostOrder F) (receipt : Fields F)
    (g' : GhostOrder F) where
  pub record Advances : Type 0 where
    pub symbol : g'.symbol ≡ g.symbol
    pub side : g'.side ≡ g.side
    pub intended : g'.intended_quantity ≡ g.intended_quantity
    pub price : g'.reference_price ≡ g.reference_price
    pub client : g'.client_order_id ≡ g.client_order_id
    pub grew : r.at_most g.executed_quantity g'.executed_quantity ≡ true
    pub capped : r.at_most g'.executed_quantity g.intended_quantity ≡ true
    pub stated : cumulative g (raw_quantity receipt) ≡ ok g'.executed_quantity
    pub final :
        g'.execution_complete ≡ true
        → (s : String) × (get "status" receipt ≡ some (str s))
          × (is_some (terminal (r.lower s)) ≡ true)
          × (is_some (raw_quantity receipt) ≡ true)

  -- What an accepted receipt changes and keeps: symbol, side, intended quantity, price and id stay;
  -- the executed quantity is the one that the receipt states, has not shrunk and is at most the
  -- intended one; and complete means that the receipt has a terminal status and a quantity.
  pub receipt-Advances : ghost_order_from_receipt g receipt ≡ ok g' → Advances
  unfolding ghost_order_from_receipt construct strict_digest
  receipt-Advances h = ground arith

  receipt_constructed : ghost_order_from_receipt g receipt ≡ ok g' → construct g' ≡ ok g'
  unfolding ghost_order_from_receipt construct strict_digest
  receipt_constructed h = ground arith

  -- The order that an accepted receipt gives is sound.
  pub receipt-IsSound : ghost_order_from_receipt g receipt ≡ ok g' → IsSound g'
  receipt-IsSound h = IsSound-construct g' (receipt_constructed h)

  -- A receipt without a quantity moves no fill and settles nothing.
  pub receipt_silent :
      raw_quantity receipt ≡ none
      → ghost_order_from_receipt g receipt ≡ ok g'
      → (g'.executed_quantity ≡ g.executed_quantity) × (g'.execution_complete ≡ false)
  unfolding ghost_order_from_receipt construct cumulative strict_digest
  receipt_silent e h = ground arith
