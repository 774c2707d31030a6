-- ===== src/Forecast/Dicts.antt =====
-- `ForecastContract.to_dict` and `from_dict`: a contract as a JSON object, and the way back.
pub mod Roundtrip
use sharpearena.Prelude.{
  String, Bool, true, false, not, ◌&&◌, Option, none, some, List, [], ◌∷◌, map, all, is_some,
}
use sharpearena.Prelude.Int.{ℤ}
use sharpearena.Python.Json.{
  Json, null, bool, int, num, str, arr, obj, Items, nil, cons, Fields, end, field, get, items,
  fields, optional,
}
use sharpearena.Python.Errors.{Result, ok, fail, raise_if, forecast_contract_error, ◌>>=◌, ◌>>◌}
use sharpearena.Python.Runtime.{Runtime}
use sharpearena.Forecast.{
  ForecastContract, member, refuse, refuse_if, nonempty, nonempties, finite_number, post_init,
}

unfoldable pub to_dict : {F : Type 0} → ForecastContract F → Json F
to_dict c = obj (
    fields (
      ("schema_version", str c.schema_version)
      ∷ ("contract_id", str c.contract_id)
      ∷ ("question", str c.question)
      ∷ ("instrument", str c.instrument)
      ∷ ("target", str c.target)
      ∷ ("kind", str c.kind)
      ∷ ("opens_at", int c.opens_at)
      ∷ ("deadline", int c.deadline)
      ∷ ("resolves_at", int c.resolves_at)
      ∷ ("observation_source", str c.observation_source)
      ∷ ("open_definition", str c.open_definition)
      ∷ ("close_definition", str c.close_definition)
      ∷ ("unit", str c.unit)
      ∷ ("scoring_rule", str c.scoring_rule)
      ∷ ("neutral_threshold", num c.neutral_threshold)
      ∷ ("boundary_ownership", str c.boundary_ownership)
      ∷ ("missing_data_policy", str c.missing_data_policy)
      ∷ ("fallback_policy", str c.fallback_policy)
      ∷ ("categories", arr (items (map str c.categories)))
      ∷ ("interval_alpha", optional num c.interval_alpha)
      ∷ []))

-- `_CONTRACT_FIELDS`
abbrev pub contract_fields : List String
contract_fields =
    "schema_version" ∷ "contract_id" ∷ "question" ∷ "instrument" ∷ "target" ∷ "kind" ∷ "opens_at"
    ∷ "deadline" ∷ "resolves_at" ∷ "observation_source" ∷ "open_definition" ∷ "close_definition"
    ∷ "unit" ∷ "scoring_rule" ∷ "neutral_threshold" ∷ "boundary_ownership" ∷ "missing_data_policy"
    ∷ "fallback_policy" ∷ "categories" ∷ "interval_alpha" ∷ []

module _ {F : Type 0} where
  unfoldable pub keys : Fields F → List String
  keys end = []
  keys (field k j fs) = k ∷ keys fs

  -- `set(raw) == expected`
  unfoldable pub same_keys : Fields F → List String → Bool
  same_keys raw expected =
      all (λ k. member k expected) (keys raw) && all (λ k. is_some (get k raw)) expected

  -- `raw[key]`, of a key that is there
  abbrev pub value : Option (Json F) → Json F
  value none = null
  value (some j) = j

  abbrev pub texts : Items F → Result (List String)
  texts nil = ok []
  texts (cons (str s) js) = texts js >>= λ ss. ok (s ∷ ss)
  texts (cons _ js) = refuse "categories must be an array of strings"

  abbrev pub text_list : Json F → Result (List String)
  text_list (arr js) = texts js
  text_list _ = refuse "categories must be an array of strings"

  -- `_plain_int`
  abbrev pub plain_int : Json F → Result ℤ
  plain_int (int n) = ok n
  plain_int _ = refuse "must be an integer"

module _ {F : Type 0} ⦃r : Runtime F⦄ where
  -- `_nonempty` and `_finite_number` of a value
  abbrev pub plain_text : Json F → Result String
  plain_text (str s) = nonempty r.strip s
  plain_text _ = refuse "must be a non-empty string"

  abbrev pub plain_number : Json F → Result F
  plain_number (int n) = finite_number (r.of_int n)
  plain_number (num x) = finite_number x
  plain_number _ = refuse "must be numeric"

  abbrev pub plain_alpha : Json F → Result (Option F)
  plain_alpha null = ok none
  plain_alpha j = plain_number j >>= λ a. ok (some a)

  unfoldable pub of_fields : Fields F → Result (ForecastContract F)
  of_fields raw = do
    categories ← text_list (value (get "categories" raw))
    schema_version ← plain_text (value (get "schema_version" raw))
    contract_id ← plain_text (value (get "contract_id" raw))
    question ← plain_text (value (get "question" raw))
    instrument ← plain_text (value (get "instrument" raw))
    target ← plain_text (value (get "target" raw))
    kind ← plain_text (value (get "kind" raw))
    opens_at ← plain_int (value (get "opens_at" raw))
    deadline ← plain_int (value (get "deadline" raw))
    resolves_at ← plain_int (value (get "resolves_at" raw))
    observation_source ← plain_text (value (get "observation_source" raw))
    open_definition ← plain_text (value (get "open_definition" raw))
    close_definition ← plain_text (value (get "close_definition" raw))
    unit ← plain_text (value (get "unit" raw))
    scoring_rule ← plain_text (value (get "scoring_rule" raw))
    neutral_threshold ← plain_number (value (get "neutral_threshold" raw))
    boundary_ownership ← plain_text (value (get "boundary_ownership" raw))
    missing_data_policy ← plain_text (value (get "missing_data_policy" raw))
    fallback_policy ← plain_text (value (get "fallback_policy" raw))
    interval_alpha ← plain_alpha (value (get "interval_alpha" raw))
    post_init (record {
      contract_id = contract_id;
      question = question;
      instrument = instrument;
      target = target;
      kind = kind;
      opens_at = opens_at;
      deadline = deadline;
      resolves_at = resolves_at;
      observation_source = observation_source;
      open_definition = open_definition;
      close_definition = close_definition;
      unit = unit;
      scoring_rule = scoring_rule;
      neutral_threshold = neutral_threshold;
      boundary_ownership = boundary_ownership;
      missing_data_policy = missing_data_policy;
      fallback_policy = fallback_policy;
      categories = categories;
      interval_alpha = interval_alpha;
      schema_version = schema_version;
    })

  unfoldable pub from_dict : Json F → Result (ForecastContract F)
  from_dict (obj raw) =
      refuse_if (not (same_keys raw contract_fields)) "contract fields do not match v1"
      >> of_fields raw
  from_dict _ = refuse "contract must be an object"
