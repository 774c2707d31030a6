-- ===== src/Forecast.antt =====
-- `ForecastContract` of forecast_contract.py: its checks, its dict, and the way back from one. A dict
-- that is read is the field list of a JSON object; contract digests are computed elsewhere.
pub mod Valid
pub mod Again
pub mod Dicts
use sharpearena.Prelude.{
  ℕ, suc, String, Bool, true, false, not, ◌&&◌, ◌||◌, Option, none, some, List, [], ◌∷◌, map, all,
  any, length, ltb, str_eq, is_some, if◌then◌else◌,
}
use sharpearena.Prelude.Int.{ℤ, pos, leb_ℤ, ltb_ℤ, ◌+ℤ◌}
use sharpearena.Prelude.Dict.{Dict, lookup}
use sharpearena.Python.Json.{
  Json, null, bool, int, num, str, arr, obj, Items, nil, cons, Fields, end, field, get, items,
  fields, optional,
}
use sharpearena.Python.Errors.{
  Result, ok, fail, raise_if, forecast_contract_error, key_error, ◌>>=◌, ◌>>◌,
}
use sharpearena.Python.Runtime.{Runtime}

abbrev pub schema : String
schema = "sharpearena.forecast-contract.v1"

abbrev pub rules_by_kind : Dict (List String)
rules_by_kind =
    ("point", "point_errors" ∷ [])
    ∷ ("probability", "binary_brier" ∷ "binary_log" ∷ [])
    ∷ ("categorical", "categorical_brier" ∷ "categorical_log" ∷ [])
    ∷ ("normal", "normal_crps" ∷ [])
    ∷ ("direction", "direction_accuracy" ∷ [])
    ∷ ("interval", "interval_score" ∷ [])
    ∷ []

abbrev pub kinds : List String
kinds = "point" ∷ "probability" ∷ "categorical" ∷ "normal" ∷ "direction" ∷ "interval" ∷ []

-- `x in xs`
abbrev pub member : String → List String → Bool
member s ts = any (λ t. str_eq s t) ts

-- `len(set(xs)) != len(xs)` is its negation.
unfoldable pub unique : List String → Bool
unique [] = true
unique (t ∷ ts) = not (member t ts) && unique ts

pub record ForecastContract (F : Type 0) : Type 0 where
  pub contract_id : String
  pub question : String
  pub instrument : String
  pub target : String
  pub kind : String
  pub opens_at : ℤ
  pub deadline : ℤ
  pub resolves_at : ℤ
  pub observation_source : String
  pub open_definition : String
  pub close_definition : String
  pub unit : String
  pub scoring_rule : String
  pub neutral_threshold : F
  pub boundary_ownership : String
  pub missing_data_policy : String
  pub fallback_policy : String
  pub categories : List String
  pub interval_alpha : Option F
  pub schema_version : String

abbrev refuse {ℓ} : {A : Type ℓ} → String → Result A
refuse m = fail forecast_contract_error m

abbrev refuse_if : Bool → String → Result (Unit {0})
refuse_if b m = raise_if b forecast_contract_error m

module _ (strip : String → String) where
  -- `_nonempty` of a text
  unfoldable pub nonempty : String → Result String
  nonempty s = let t = strip s in if str_eq t "" then refuse "must be a non-empty string" else ok t

  unfoldable pub nonempties : List String → Result (List String)
  nonempties [] = ok []
  nonempties (s ∷ ss) = do t ← nonempty s; ts ← nonempties ss; ok (t ∷ ts)

abbrev pub rules_of : Option (List String) → List String
rules_of none = []
rules_of (some rules) = rules

abbrev default_rule : Option (List String) → Result String
default_rule (some (rule ∷ _)) = ok rule
default_rule _ = fail key_error "kind"

-- `scoring_rule or DEFAULT_SCORING_RULE[kind]`
abbrev rule_or_default : Option String → Option (List String) → Result String
rule_or_default none rules = default_rule rules
rule_or_default (some rule) rules = if str_eq rule "" then default_rule rules else ok rule

abbrev check_count : Bool → List String → Result (Unit {0})
check_count true categories =
    refuse_if (ltb (length categories) 2) "a categorical contract needs at least two categories"
check_count false [] = ok tt
check_count false (t ∷ ts) = refuse "categories are only valid for categorical contracts"

module _ {F : Type 0} ⦃r : Runtime F⦄ where
  -- The loop over the text fields.
  unfoldable pub stripped : ForecastContract F → Result (ForecastContract F)
  stripped c = do
    contract_id ← nonempty r.strip c.contract_id
    question ← nonempty r.strip c.question
    instrument ← nonempty r.strip c.instrument
    target ← nonempty r.strip c.target
    observation_source ← nonempty r.strip c.observation_source
    open_definition ← nonempty r.strip c.open_definition
    close_definition ← nonempty r.strip c.close_definition
    unit ← nonempty r.strip c.unit
    boundary_ownership ← nonempty r.strip c.boundary_ownership
    missing_data_policy ← nonempty r.strip c.missing_data_policy
    fallback_policy ← nonempty r.strip c.fallback_policy
    ok (record c {
      contract_id = contract_id;
      question = question;
      instrument = instrument;
      target = target;
      observation_source = observation_source;
      open_definition = open_definition;
      close_definition = close_definition;
      unit = unit;
      boundary_ownership = boundary_ownership;
      missing_data_policy = missing_data_policy;
      fallback_policy = fallback_policy;
    })

  unfoldable pub check_rule : ForecastContract F → Result (Unit {0})
  check_rule c = do
    refuse_if (not (str_eq c.schema_version schema)) "unsupported contract schema_version"
    refuse_if (not (member c.kind kinds)) "unknown forecast kind"
    refuse_if (not (member c.scoring_rule (rules_of (lookup c.kind rules_by_kind))))
        "scoring_rule is not valid for the kind"

  -- `opens_at < 0 or not opens_at <= deadline < resolves_at`
  unfoldable pub clock_broken : ForecastContract F → Bool
  clock_broken c =
      ltb_ℤ c.opens_at (pos 0)
      || not (leb_ℤ c.opens_at c.deadline && ltb_ℤ c.deadline c.resolves_at)

  -- `_finite_number` of a float
  unfoldable pub finite_number : F → Result F
  finite_number x = if r.is_finite x then ok x else refuse "must be finite"

  unfoldable pub check_clock : ForecastContract F → Result (Unit {0})
  check_clock c = do
    refuse_if (clock_broken c) "contract clock must satisfy 0 <= opens_at <= deadline < resolves_at"
    threshold ← finite_number c.neutral_threshold
    refuse_if (r.less threshold r.zero) "neutral_threshold must be finite and non-negative"

  unfoldable pub checked_categories : ForecastContract F → Result (List String)
  checked_categories c = do
    categories ← nonempties r.strip c.categories
    refuse_if (not (unique categories)) "categories must be unique"
    check_count (str_eq c.kind "categorical") categories
    ok categories

  unfoldable pub check_alpha : Bool → Option F → Result (Unit {0})
  check_alpha true none = refuse "an interval contract requires interval_alpha"
  check_alpha true (some alpha) = do
    a ← finite_number alpha
    refuse_if (not (r.less r.zero a && r.less a r.one))
        "interval_alpha must lie strictly inside (0, 1)"
  check_alpha false none = ok tt
  check_alpha false (some alpha) = refuse "interval_alpha is only valid for interval contracts"

  -- `__post_init__`: what a construction gives
  unfoldable pub post_init : ForecastContract F → Result (ForecastContract F)
  post_init given = do
    c ← stripped given
    check_rule c
    check_clock c
    categories ← checked_categories c
    check_alpha (str_eq c.kind "interval") c.interval_alpha
    ok (record c { categories = categories })

  abbrev default_alpha : Bool → Option F → F → Option F
  default_alpha true none tenth = some tenth
  default_alpha _ alpha tenth = alpha

  -- `ForecastContract.legacy`; `tenth` is the literal 0.1.
  unfoldable pub legacy :
      F
      → String
      → String
      → String
      → ℤ
      → ℤ
      → List String
      → Option F
      → Option String
      → Result (ForecastContract F)
  legacy tenth contract_id question kind committed_at horizon categories alpha rule = do
    refuse_if (leb_ℤ horizon (pos 0)) "horizon must be positive"
    scoring_rule ← rule_or_default rule (lookup kind rules_by_kind)
    post_init (record {
      contract_id = contract_id;
      question = question;
      instrument = "unspecified";
      target = question;
      kind = kind;
      opens_at = committed_at;
      deadline = committed_at;
      resolves_at = committed_at +ℤ horizon;
      observation_source = "provided-series";
      open_definition = "series[committed_at]";
      close_definition = "series[resolves_at]";
      unit = "unspecified";
      scoring_rule = scoring_rule;
      neutral_threshold = r.zero;
      boundary_ownership = "neutral";
      missing_data_policy = "cancel";
      fallback_policy = "cancel";
      categories = categories;
      interval_alpha = default_alpha (str_eq kind "interval") alpha tenth;
      schema_version = schema;
    })
