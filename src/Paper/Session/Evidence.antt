-- ===== src/Paper/Session/Evidence.antt =====
-- The JSON of a journal row and the reading of a broker's fill quantity.
use sharpearena.Prelude.{String, false, Option, none, some, List, [], ◌∷◌, ◌++◌, if◌then◌else◌}
use sharpearena.Python.Json.{Json, null, bool, int, num, str, obj, fields}
use sharpearena.Python.Errors.{Result, ok, fail, value_error, type_error}
use sharpearena.Python.Runtime.{Runtime}
use sharpearena.Paper.Lifecycle.Persist.{natural}

module _ {F : Type 0} ⦃r : Runtime F⦄ where
  abbrev number : Option F → Result F
  number none = fail value_error "could not convert string to float"
  number (some x) = ok x

  -- `0.0 if quantity is None else float(quantity)`
  unfoldable pub float_of : Option (Json F) → Result F
  float_of none = ok r.zero
  float_of (some null) = ok r.zero
  float_of (some (bool b)) = ok (if b then r.one else r.zero)
  float_of (some (int n)) = ok (r.of_int n)
  float_of (some (num x)) = ok x
  float_of (some (str s)) = number (r.parse_float s)
  float_of (some _) = fail type_error "float() argument must be a string or a real number"

abbrev stamp : {F : Type 0} → Option (Json F) → List (String × Json F)
stamp none = []
stamp (some w) = ("forward_window", w) ∷ []

-- The row that `ForwardEvidenceJournal.append` writes, after `_append` has stamped the window.
unfoldable pub journal_row : {F : Type 0} → Option (Json F) → List (String × Json F) → Json F
journal_row window entries = obj (
    fields (
      (("schema_version", natural 1)
        ∷ ("evidence_class", str "forward_paper_trading")
        ∷ ("deterministic", bool false)
        ∷ ("replay_guarantee", str "none-live-market-and-paper-broker-state")
        ∷ [])
      ++ entries
      ++ stamp window))
