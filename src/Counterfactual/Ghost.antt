-- ===== src/Counterfactual/Ghost.antt =====
-- `GhostOrder` of counterfactual.py: one intended order and what became of it. The texts `side`
-- and `disposition` are enumerations, so the two membership tests of `__post_init__` are their types.
pub mod Sound
use Prim.Native.Char.{code}
use sharpearena.Prelude.{
  ℕ, suc, String, concat, Bool, true, false, not, ◌&&◌, ◌||◌, Option, none, some, str_eq, leb, ◌==◌,
  if◌then◌else◌,
}
use sharpearena.Python.Errors.{Result, ok, fail, raise_if, counterfactual_error, ◌>>◌}
use sharpearena.Python.Runtime.{Runtime}

pub data Side : Type 0 where
  buy sell : Side

unfoldable pub side_name : Side → String
side_name buy = "buy"
side_name sell = "sell"

-- DISPOSITIONS
pub data Disposition : Type 0 where
  executed risk_refused below_min_notional not_submitted resized acknowledged : Disposition
  partially_filled submission_unknown broker_rejected broker_canceled broker_expired : Disposition

unfoldable pub disposition_name : Disposition → String
disposition_name executed = "executed"
disposition_name risk_refused = "risk_refused"
disposition_name below_min_notional = "below_min_notional"
disposition_name not_submitted = "not_submitted"
disposition_name resized = "resized"
disposition_name acknowledged = "acknowledged"
disposition_name partially_filled = "partially_filled"
disposition_name submission_unknown = "submission_unknown"
disposition_name broker_rejected = "broker_rejected"
disposition_name broker_canceled = "broker_canceled"
disposition_name broker_expired = "broker_expired"

pub record GhostOrder (F : Type 0) : Type 0 where
  pub symbol : String
  pub side : Side
  pub intended_quantity : F
  pub executed_quantity : F
  pub reference_price : F
  pub disposition : Disposition
  pub reason : String
  pub execution_complete : Bool
  pub client_order_id : Option String
  pub receipt_sha256 : Option String

-- {"acknowledged", "partially_filled", "submission_unknown"}
abbrev pub is_pending : Disposition → Bool
is_pending acknowledged = true
is_pending partially_filled = true
is_pending submission_unknown = true
is_pending _ = false

abbrev pub is_executed : Disposition → Bool
is_executed executed = true
is_executed _ = false

-- {"risk_refused", "below_min_notional", "not_submitted"}
abbrev pub is_unsubmitted : Disposition → Bool
is_unsubmitted risk_refused = true
is_unsubmitted below_min_notional = true
is_unsubmitted not_submitted = true
is_unsubmitted _ = false

-- {"executed", "submission_unknown"}
abbrev pub may_be_full : Disposition → Bool
may_be_full executed = true
may_be_full submission_unknown = true
may_be_full _ = false

abbrev is_hex : ℕ → Bool
is_hex c = (leb b'0' c && leb c b'9') || (leb b'a' c && leb c b'f')

abbrev count_chars : String → ℕ
count_chars String.[] = 0
count_chars (String.◌∷◌ c s) = suc (count_chars s)

abbrev all_hex : String → Bool
all_hex String.[] = true
all_hex (String.◌∷◌ c s) = is_hex (code c) && all_hex s

-- 64 characters, each in "0123456789abcdef"
unfoldable pub is_sha256 : String → Bool
is_sha256 s = (count_chars s == 64) && all_hex s

unfoldable pub bad_receipt : Option String → Bool
bad_receipt none = false
bad_receipt (some s) = not (is_sha256 s)

abbrev pub is_empty : Option String → Bool
is_empty none = false
is_empty (some s) = str_eq s ""

module _ {F : Type 0} ⦃r : Runtime F⦄ where
  -- `_finite` of a float
  unfoldable pub finite : F → String → Result F
  finite x name =
      if r.is_finite x then ok x else fail counterfactual_error (concat name " must be finite")

  -- `GhostOrder.__post_init__`
  unfoldable pub post_init : GhostOrder F → Result (Unit {0})
  unfolding finite
  post_init g = do
    raise_if (str_eq g.symbol "") counterfactual_error "symbol must be nonempty"
    raise_if (is_pending g.disposition && g.execution_complete) counterfactual_error
        "pending or unknown execution cannot be complete"
    raise_if (is_executed g.disposition && not g.execution_complete) counterfactual_error
        "executed disposition requires complete execution"
    raise_if (is_empty g.client_order_id) counterfactual_error "client_order_id must be nonempty"
    raise_if (bad_receipt g.receipt_sha256) counterfactual_error
        "receipt_sha256 must be a lowercase SHA-256 digest"
    finite g.intended_quantity "intended_quantity"
    finite g.executed_quantity "executed_quantity"
    finite g.reference_price "reference_price"
    raise_if (r.at_most g.intended_quantity r.zero) counterfactual_error
        "intended_quantity must be positive"
    raise_if (r.less g.executed_quantity r.zero) counterfactual_error
        "executed_quantity must not be negative"
    raise_if (r.less g.intended_quantity g.executed_quantity) counterfactual_error
        "executed_quantity cannot exceed intended_quantity"
    raise_if (r.at_most g.reference_price r.zero) counterfactual_error
        "reference_price must be positive"
    finite (r.times g.intended_quantity g.reference_price) "intended_notional"
    raise_if (is_unsubmitted g.disposition && not (r.same g.executed_quantity r.zero))
        counterfactual_error
        "unsubmitted disposition claims a difference that is not there: Nonzero fill"
    raise_if (is_executed g.disposition && not (r.same g.executed_quantity g.intended_quantity))
        counterfactual_error "disposition 'executed' requires the full intended quantity"
    raise_if (not (may_be_full g.disposition) && r.same g.executed_quantity g.intended_quantity)
        counterfactual_error "disposition claims a difference that is not there"

  -- `GhostOrder(...)`, and `replace(order, ...)`, which constructs anew.
  unfoldable pub construct : GhostOrder F → Result (GhostOrder F)
  construct g = do post_init g; ok g

  abbrev pub by_side : Side → F → F
  by_side buy q = q
  by_side sell q = r.negate q

  unfoldable pub signed_executed_quantity : GhostOrder F → F
  signed_executed_quantity g = by_side g.side g.executed_quantity

  unfoldable pub signed_intended_quantity : GhostOrder F → F
  signed_intended_quantity g = by_side g.side g.intended_quantity

  unfoldable pub intended_notional : GhostOrder F → F
  intended_notional g = r.times g.intended_quantity g.reference_price

  unfoldable pub confirmed_notional : GhostOrder F → F
  confirmed_notional g = r.times g.executed_quantity g.reference_price

  unfoldable pub executed_notional : GhostOrder F → Option F
  executed_notional g = if g.execution_complete then some (confirmed_notional g) else none

  unfoldable pub foregone_notional : GhostOrder F → Option F
  foregone_notional g =
      if g.execution_complete
      then some (r.minus (intended_notional g) (confirmed_notional g))
      else none
