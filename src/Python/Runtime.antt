-- ===== src/Python/Runtime.antt =====
-- Floats, text and hashing as the interpreter and its standard library give them: a parameter of
-- the model. Nothing is assumed of them here; a theorem that needs a law states it.
use sharpearena.Prelude.{ℕ, Bool, String, List, Option, none, some, if◌then◌else◌}
use sharpearena.Prelude.Int.{ℤ}
use sharpearena.Python.Json.{Json}
use sharpearena.Python.Errors.{Result, ok, fail, value_error}

pub record Runtime (F : Type 0) : Type 0 where
  pub zero : F
  pub one : F
  -- the literal 1e-12
  pub tiny : F
  pub infinity : F
  pub plus : F → F → F
  pub minus : F → F → F
  pub times : F → F → F
  pub over : F → F → F
  pub negate : F → F
  pub absolute : F → F
  -- `<`, `<=`, `==`
  pub less : F → F → Bool
  pub at_most : F → F → Bool
  pub same : F → F → Bool
  -- `x.is_integer()`, and `int(x)` of an x that is not negative
  pub is_integer : F → Bool
  pub truncate : F → ℕ
  -- `math.isfinite`
  pub is_finite : F → Bool
  -- `str.strip`, `str.lower` and `str.upper`
  pub strip : String → String
  pub lower : String → String
  pub upper : String → String
  -- `float(text)`; none is a ValueError
  pub parse_float : String → Option F
  -- `str(n)` and `f"{n:04d}"`
  pub show : ℕ → String
  pub padded : ℕ → String
  -- `float(n)` of an int; an overflow is an infinity here, which every caller refuses
  pub of_int : ℤ → F
  -- the builtin `sum` of floats
  pub sum : List F → F
  -- `math.fsum`; none is its OverflowError
  pub fsum : List F → Option F
  -- `json.dumps(value, sort_keys=True, separators=(",", ":"), ensure_ascii=False)`
  pub dumps : Json F → String
  -- the same with `allow_nan=False`; none is its ValueError
  pub dumps_strict : Json F → Option String
  -- `json.loads`; none is its ValueError
  pub loads : String → Option (Json F)
  -- `sha256(text.encode("utf-8")).hexdigest()`
  pub sha256 : String → String

abbrev pub hashed : (String → String) → Option String → Result String
hashed sha256 none = fail value_error "Out of range float values are not JSON compliant"
hashed sha256 (some text) = ok (sha256 text)

module _ {F : Type 0} ⦃r : Runtime F⦄ where
  -- Python's `max(a, b)` keeps the first unless the second is greater.
  unfoldable pub max : F → F → F
  max a b = if r.less a b then b else a

  -- `_digest` of paper_trading.py
  unfoldable pub digest : Json F → String
  digest value = r.sha256 (r.dumps value)

  -- `_digest` of counterfactual.py
  unfoldable pub strict_digest : Json F → Result String
  strict_digest value = hashed r.sha256 (r.dumps_strict value)
