-- ===== src/Deferred.antt =====
-- deferred.py: claims with their checks, and the checks of a prediction against its kind.
pub mod Desk
pub mod Score
pub mod Series
pub mod Resolve
use sharpearena.Prelude.{
  ℕ, String, Bool, true, false, not, ◌&&◌, ◌||◌, Option, none, some, List, [], ◌∷◌, all, any,
  length, ◌==◌, str_eq, if◌then◌else◌,
}
use sharpearena.Prelude.Int.{ℤ, pos, leb_ℤ}
use sharpearena.Python.Errors.{Result, ok, fail, raise_if, claim_rejected, ◌>>=◌, ◌>>◌}
use sharpearena.Python.Runtime.{Runtime}
use sharpearena.Forecast.{ForecastContract, kinds, member}

-- A number, an array of numbers, or what `float` refuses.
pub data Prediction (F : Type 0) : Type 0 where
  scalar : F → Prediction F
  values : List F → Prediction F
  other : Prediction F

pub record Claim (F : Type 0) : Type 0 where
  pub claim_id : String
  pub contract : ForecastContract F
  pub prediction : List F
  pub committed_at : ℤ
  pub confidence : F
  pub rationale : String

abbrev pub reject {ℓ} : {A : Type ℓ} → String → Result A
reject m = fail claim_rejected m

abbrev pub reject_if : Bool → String → Result (Unit {0})
reject_if b m = raise_if b claim_rejected m

abbrev payload_of : {F : Type 0} → Prediction F → Result (List F)
payload_of (scalar x) = ok (x ∷ [])
payload_of (values xs) = ok xs
payload_of other = reject "prediction must be numeric or an array of numbers"

module _ {F : Type 0} ⦃r : Runtime F⦄ where
  -- `0.0 <= x <= 1.0` and `0.0 < x < 1.0`
  abbrev in_unit : F → Bool
  in_unit x = r.at_most r.zero x && r.at_most x r.one

  abbrev inside_unit : F → Bool
  inside_unit x = r.less r.zero x && r.less x r.one

  -- `math.isclose(x, 1.0, rel_tol=0.0, abs_tol=1e-12)` of a finite x
  abbrev is_one : F → Bool
  is_one x = r.same x r.one || r.at_most (r.absolute (r.minus x r.one)) r.tiny

  abbrev check_interval : List F → Result (Unit {0})
  check_interval (lo ∷ (hi ∷ [])) = reject_if (r.less hi lo) "an interval claim needs lo <= hi"
  check_interval _ = reject "an interval claim is (lo, hi)"

  abbrev check_categorical : ForecastContract F → List F → Result (Unit {0})
  check_categorical contract payload = do
    reject_if (not (length payload == length contract.categories))
        "a categorical claim takes exactly one value for each category"
    reject_if (any (λ x. r.less x r.zero || r.less r.one x) payload)
        "categorical probabilities must lie in [0, 1]"
    reject_if (not (is_one (r.sum payload))) "categorical probabilities must sum to 1"
    reject_if
        (str_eq contract.scoring_rule "categorical_log" && any (λ x. r.at_most x r.zero) payload)
        "categorical_log requires every reported probability to be positive"

  abbrev check_normal : List F → Result (Unit {0})
  check_normal (mean ∷ (sigma ∷ [])) =
      reject_if (r.at_most sigma r.zero) "a normal forecast requires a positive standard deviation"
  check_normal _ = reject "a normal claim takes exactly 2 values"

  abbrev check_single : ForecastContract F → List F → Result (Unit {0})
  check_single contract (x ∷ []) = do
    reject_if (str_eq contract.kind "probability" && not (in_unit x))
        "a probability claim must lie in [0, 1]"
    reject_if
        (str_eq contract.kind "probability"
          && (str_eq contract.scoring_rule "binary_log" && not (inside_unit x)))
        "binary_log requires probability strictly inside (0, 1)"
    reject_if
        (str_eq contract.kind "direction" && not (r.same x (r.negate r.one) || r.same x r.one))
        "a direction claim must be -1 or +1"
  check_single contract _ = reject "the claim takes exactly one value"

  unfoldable pub check_payload : ForecastContract F → List F → Result (Unit {0})
  check_payload contract payload =
      if str_eq contract.kind "interval"
      then check_interval payload
      else if str_eq contract.kind "categorical"
      then check_categorical contract payload
      else if str_eq contract.kind "normal"
      then check_normal payload
      else check_single contract payload

  -- `_validate`
  unfoldable pub validate : ForecastContract F → Prediction F → Result (List F)
  validate contract prediction = do
    reject_if (not (member contract.kind kinds)) "unknown claim kind"
    payload ← payload_of prediction
    reject_if (not (all r.is_finite payload)) "a prediction must be finite"
    check_payload contract payload
    ok payload

  -- `contract.opens_at <= bar <= contract.deadline`
  abbrev pub is_open : ForecastContract F → ℤ → Bool
  is_open contract bar = leb_ℤ contract.opens_at bar && leb_ℤ bar contract.deadline

  -- `Claim.__post_init__`: what a construction gives
  unfoldable pub claim_post_init : Claim F → Result (Claim F)
  claim_post_init c = do
    reject_if (str_eq (r.strip c.claim_id) "") "claim_id must be a non-empty string"
    reject_if (not (is_open c.contract c.committed_at)) "committed_at lies outside contract window"
    reject_if (not (r.is_finite c.confidence && in_unit c.confidence))
        "confidence must be finite and lie in [0, 1]"
    prediction ← validate c.contract (values c.prediction)
    ok (record c { prediction = prediction; claim_id = r.strip c.claim_id })
