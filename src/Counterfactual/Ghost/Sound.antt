-- ===== src/Counterfactual/Ghost/Sound.antt =====
-- What a constructed `GhostOrder` guarantees (`GhostOrder.__post_init__` of counterfactual.py).
use sharpearena.Prelude.{◌≡◌, true, false, arith, str_eq}
use sharpearena.Python.Errors.{ok}
use sharpearena.Python.Runtime.{Runtime}
use sharpearena.Counterfactual.Ghost.{
  GhostOrder, is_pending, is_executed, is_unsubmitted, may_be_full, is_empty, bad_receipt,
  post_init, construct,
}

module _ {F : Type 0} ⦃r : Runtime F⦄ where
  -- The facts in the words of the data, not of the tests.
  pub record IsSound (g : GhostOrder F) : Type 0 where
    pub named : str_eq g.symbol "" ≡ false
    pub pending_open : is_pending g.disposition ≡ true → g.execution_complete ≡ false
    pub executed_complete : is_executed g.disposition ≡ true → g.execution_complete ≡ true
    pub bound : is_empty g.client_order_id ≡ false
    pub receipt : bad_receipt g.receipt_sha256 ≡ false
    pub finite_intended : r.is_finite g.intended_quantity ≡ true
    pub finite_executed : r.is_finite g.executed_quantity ≡ true
    pub finite_price : r.is_finite g.reference_price ≡ true
    pub finite_notional : r.is_finite (r.times g.intended_quantity g.reference_price) ≡ true
    pub wanted : r.at_most g.intended_quantity r.zero ≡ false
    pub priced : r.at_most g.reference_price r.zero ≡ false
    pub nonnegative : r.less g.executed_quantity r.zero ≡ false
    pub no_overfill : r.less g.intended_quantity g.executed_quantity ≡ false
    pub unsubmitted_empty :
        is_unsubmitted g.disposition ≡ true → r.same g.executed_quantity r.zero ≡ true
    pub executed_full :
        is_executed g.disposition ≡ true → r.same g.executed_quantity g.intended_quantity ≡ true
    pub full_named :
        r.same g.executed_quantity g.intended_quantity ≡ true → may_be_full g.disposition ≡ true

  pub IsSound-construct : (g : GhostOrder F) → construct g ≡ ok g → IsSound g
  unfolding construct post_init
  IsSound-construct g h = ground arith

  pub construct-IsSound : (g : GhostOrder F) → IsSound g → construct g ≡ ok g
  unfolding construct post_init
  construct-IsSound g h = ground arith
