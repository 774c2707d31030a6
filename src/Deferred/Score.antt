-- ===== src/Deferred/Score.antt =====
-- `score_claim` of deferred.py, over the functions of `math` as a parameter.
use sharpearena.Prelude.{
  ℕ, suc, String, not, ◌&&◌, ◌||◌, Option, none, some, List, [], ◌∷◌, get_elem?, ◌==◌, str_eq,
  if◌then◌else◌,
}
use sharpearena.Prelude.Dict.{Dict}
use sharpearena.Python.Json.{Json, bool, num, str}
use sharpearena.Python.Errors.{
  Result, ok, fail, index_error, value_error, assertion_error, ◌>>=◌, ◌>>◌,
}
use sharpearena.Python.Runtime.{Runtime}
use sharpearena.Forecast.{member}
use sharpearena.Deferred.{Claim, reject, reject_if}

-- The functions of the module `math`, and the literals 0.5 and 2.0.
pub record Math (F : Type 0) : Type 0 where
  pub exp : F → F
  pub log : F → F
  pub sqrt : F → F
  pub erf : F → F
  pub copysign : F → F → F
  pub pi : F
  pub half : F
  pub two : F

-- `float | str`
pub data Value (F : Type 0) : Type 0 where
  number : F → Value F
  category : String → Value F

abbrev pub Score : Type 0 → Type 0
Score F = Dict (Json F)

-- `categories.index(outcome)` of a category that is there
unfoldable pub index_of : String → List String → ℕ
index_of s [] = 0
index_of s (t ∷ ts) = let rest = index_of s ts in if str_eq t s then 0 else suc rest

abbrev at_index : {F : Type 0} → Option F → Result F
at_index none = fail index_error "tuple index out of range"
at_index (some x) = ok x

abbrev pair_of : {F : Type 0} → List F → Result (F × F)
pair_of (x ∷ (y ∷ [])) = ok (x, y)
pair_of _ = fail value_error "expected 2 values to unpack"

module _ {F : Type 0} ⦃r : Runtime F⦄ where
  -- `_numeric_outcome`
  unfoldable pub numeric_outcome : Value F → Result F
  numeric_outcome (category s) = reject "the outcome must be numeric"
  numeric_outcome (number x) = if r.is_finite x then ok x else reject "outcome must be finite"

  -- `(p - (1.0 if index == outcome_index else 0.0)) ** 2` for each p, from an index on
  unfoldable pub brier_terms : ℕ → ℕ → List F → List F
  brier_terms outcome_index index [] = []
  brier_terms outcome_index index (p ∷ ps) =
      let d = r.minus p (if index == outcome_index then r.one else r.zero) in
      r.times d d ∷ brier_terms outcome_index (suc index) ps

module _ {F : Type 0} ⦃r : Runtime F⦄ ⦃m : Math F⦄ where
  abbrev score_point : Claim F → F → Result (Score F)
  score_point claim value = do
    predicted ← at_index (get_elem? claim.prediction 0)
    (let error = r.minus value predicted in
        ok (
          ("error", num error)
          ∷ ("abs_error", num (r.absolute error))
          ∷ ("squared_error", num (r.times error error))
          ∷ []))

  abbrev score_probability : Claim F → F → Result (Score F)
  score_probability claim value = do
    reject_if (not (r.same value r.zero || r.same value r.one))
        "a probability claim resolves to 0 or 1"
    predicted ← at_index (get_elem? claim.prediction 0)
    (let residual = r.minus predicted value in
        let probability = if r.same value r.one then predicted else r.minus r.one predicted in
        if str_eq claim.contract.scoring_rule "binary_brier"
        then ok (("brier", num (r.times residual residual)) ∷ ("realized", num value) ∷ [])
        else ok (("log_loss", num (r.negate (m.log probability))) ∷ ("realized", num value) ∷ []))

  abbrev score_categorical : Claim F → Value F → Result (Score F)
  score_categorical claim (number x) = reject "categorical outcome must be one of the categories"
  score_categorical claim (category s) = do
    reject_if (not (member s claim.contract.categories))
        "categorical outcome must be one of the categories"
    (let i = index_of s claim.contract.categories in
        if str_eq claim.contract.scoring_rule "categorical_brier"
        then ok
            (("brier", num (r.sum (brier_terms i 0 claim.prediction))) ∷ ("realized", str s) ∷ [])
        else (at_index (get_elem? claim.prediction i) >>= λ p.
            ok (("log_loss", num (r.negate (m.log p))) ∷ ("realized", str s) ∷ [])))

  abbrev score_normal : Claim F → F → Result (Score F)
  score_normal claim value = do
    parts ← pair_of claim.prediction
    (let z = r.over (r.minus value parts.0) parts.1 in
        let phi =
          r.over (m.exp (r.times (r.times (r.negate m.half) z) z)) (m.sqrt (r.times m.two m.pi)) in
        let cdf = r.times m.half (r.plus r.one (m.erf (r.over z (m.sqrt m.two)))) in
        let crps = r.times parts.1 (
          r.minus (r.plus (r.times z (r.minus (r.times m.two cdf) r.one)) (r.times m.two phi))
            (r.over r.one (m.sqrt m.pi))) in
        ok (("crps", num crps) ∷ ("z", num z) ∷ ("realized", num value) ∷ []))

  abbrev score_direction : Claim F → F → Result (Score F)
  score_direction claim value = do
    predicted ← at_index (get_elem? claim.prediction 0)
    (let realized =
          if r.at_most (r.absolute value) claim.contract.neutral_threshold
          then r.zero
          else m.copysign r.one value in
        ok (
          ("correct", bool (not (r.same realized r.zero) && r.same realized predicted))
          ∷ ("realized_direction", num realized)
          ∷ ("magnitude", num (r.absolute value))
          ∷ []))

  abbrev alpha_of : Option F → Result F
  alpha_of none = fail assertion_error ""
  alpha_of (some a) = ok a

  abbrev score_interval : Claim F → F → Result (Score F)
  score_interval claim value = do
    parts ← pair_of claim.prediction
    alpha ← alpha_of claim.contract.interval_alpha
    (let lo = parts.0 in
        let hi = parts.1 in
        let penalty =
          if r.less value lo
          then r.over (r.times m.two (r.minus lo value)) alpha
          else if r.less hi value
          then r.over (r.times m.two (r.minus value hi)) alpha
          else r.zero in
        ok (
          ("covered", bool (r.at_most lo value && r.at_most value hi))
          ∷ ("width", num (r.minus hi lo))
          ∷ ("interval_score", num (r.plus (r.minus hi lo) penalty))
          ∷ ("realized", num value)
          ∷ []))

  -- `score_claim`
  unfoldable pub score_claim : Claim F → Value F → Result (Score F)
  score_claim claim outcome =
      let numeric = λ (score : Claim F → F → Result (Score F)).
        numeric_outcome outcome >>= λ value. score claim value in
      if str_eq claim.contract.kind "point"
      then numeric score_point
      else if str_eq claim.contract.kind "probability"
      then numeric score_probability
      else if str_eq claim.contract.kind "categorical"
      then score_categorical claim outcome
      else if str_eq claim.contract.kind "normal"
      then numeric score_normal
      else if str_eq claim.contract.kind "direction"
      then numeric score_direction
      else if str_eq claim.contract.kind "interval"
      then numeric score_interval
      else reject "unknown claim kind"
