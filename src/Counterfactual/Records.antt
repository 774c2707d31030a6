-- ===== src/Counterfactual/Records.antt =====
-- The state of `CounterfactualLedger` of counterfactual.py, and what reads or extends it in memory.
-- The log file is the list of its lines, none where the ledger has no path.
use sharpearena.Prelude.{
  ℕ, String, Bool, true, false, Option, none, some, List, [], ◌∷◌, ◌++◌, ◌==◌, str_eq,
  if◌then◌else◌,
}
use sharpearena.Prelude.Dict.{Dict, insert}
use sharpearena.Python.Files.{Line}
use sharpearena.Counterfactual.Ghost.{Side, buy, sell}
use sharpearena.Counterfactual.Snapshot.{Snapshot}

pub record Ledger (F : Type 0) : Type 0 where
  pub records : List (Snapshot F)
  pub latest : Dict (Snapshot F)
  pub write_failed : Bool
  pub file : Option (List (Line F))

-- `CounterfactualLedger(path)` where the log does not exist yet.
unfoldable pub fresh : {F : Type 0} → Bool → Ledger F
fresh durable = record {
  records = [];
  latest = [];
  write_failed = false;
  file = if durable then some [] else none;
}

abbrev pub same_side : Side → Side → Bool
same_side buy buy = true
same_side sell sell = true
same_side _ _ = false

abbrev pub same_optional : Option String → Option String → Bool
same_optional none none = true
same_optional (some a) (some b) = str_eq a b
same_optional _ _ = false

-- The keys of the dict in `decision_records`.
pub data RecordKey : Type 0 where
  by_key : String → RecordKey
  by_sequence : ℕ → RecordKey

abbrev pub same_key : RecordKey → RecordKey → Bool
same_key (by_key a) (by_key b) = str_eq a b
same_key (by_sequence m) (by_sequence n) = m == n
same_key _ _ = false

abbrev key_of_option : Option String → ℕ → RecordKey
key_of_option none n = by_sequence n
key_of_option (some k) n = by_key k

module _ {F : Type 0} where
  abbrev pub record_key : Snapshot F → RecordKey
  record_key entry = key_of_option entry.decision_key entry.sequence

  -- `latest[key] = entry`
  unfoldable pub upsert : Snapshot F → List (Snapshot F) → List (Snapshot F)
  upsert entry [] = entry ∷ []
  upsert entry (e ∷ es) =
      if same_key (record_key e) (record_key entry) then entry ∷ es else e ∷ upsert entry es

  unfoldable pub latest_of : List (Snapshot F) → List (Snapshot F) → List (Snapshot F)
  latest_of acc [] = acc
  latest_of acc (e ∷ es) = latest_of (upsert e acc) es

  -- the property `decision_records`
  unfoldable pub decision_records : Ledger F → List (Snapshot F)
  decision_records l = latest_of [] l.records

  abbrev pub index : Option String → Snapshot F → Dict (Snapshot F) → Dict (Snapshot F)
  index none entry d = d
  index (some k) entry d = insert k entry d

  -- `_remember`
  unfoldable pub remember : Snapshot F → Ledger F → Ledger F
  remember entry l = record l {
    records = l.records ++ (entry ∷ []);
    latest = index entry.decision_key entry l.latest;
  }
