-- ===== src/Counterfactual/Gap.antt =====
-- `SelectionGap` and `CounterfactualLedger.selection_gap` of counterfactual.py.
pub mod Buckets
pub mod Counts
use sharpearena.Prelude.{
  ℕ, ◌+◌, String, Bool, true, false, not, Option, none, some, List, [], ◌∷◌, map, length, str_eq,
  if◌then◌else◌,
}
use sharpearena.Prelude.Dict.{Dict}
use sharpearena.Python.Errors.{Result, ok, fail, key_error, ◌>>=◌, ◌>>◌}
use sharpearena.Python.Runtime.{Runtime}
use sharpearena.Counterfactual.Ghost
use sharpearena.Counterfactual.Ghost.{GhostOrder, Disposition, disposition_name, confirmed_notional}
use sharpearena.Counterfactual.Snapshot.{
  Snapshot, same_acted, sum_available, intended_pnl, executed_pnl, foregone_pnl,
}
use sharpearena.Counterfactual.Records.{Ledger, decision_records}

pub record SelectionGap (F : Type 0) : Type 0 where
  pub decisions : ℕ
  pub acted_decisions : ℕ
  pub unacted_decisions : ℕ
  pub unknown_decisions : ℕ
  pub snapshots : ℕ
  pub intended_notional : Option F
  pub confirmed_notional : Option F
  pub executed_notional : Option F
  pub intended_pnl : Option F
  pub executed_pnl : Option F
  pub foregone_pnl : Option F
  pub dispositions : Dict ℕ

-- `{name: 0 for name in sorted(DISPOSITIONS)}`
abbrev pub no_dispositions : Dict ℕ
no_dispositions =
    ("acknowledged", 0)
    ∷ ("below_min_notional", 0)
    ∷ ("broker_canceled", 0)
    ∷ ("broker_expired", 0)
    ∷ ("broker_rejected", 0)
    ∷ ("executed", 0)
    ∷ ("not_submitted", 0)
    ∷ ("partially_filled", 0)
    ∷ ("resized", 0)
    ∷ ("risk_refused", 0)
    ∷ ("submission_unknown", 0)
    ∷ []

-- `dispositions[name] += 1`
unfoldable pub bump : String → Dict ℕ → Result (Dict ℕ)
bump name [] = fail key_error name
bump name ((k, n) ∷ d) =
    let rest = bump name d in
    if str_eq k name then ok ((k, n + 1) ∷ d) else (rest >>= (λ d'. ok ((k, n) ∷ d')))

-- A list comprehension whose element may raise.
unfoldable pub each : {A B : Type 0} → (A → Result B) → List A → Result (List B)
each f [] = ok []
each f (x ∷ xs) = do y ← f x; ys ← each f xs; ok (y ∷ ys)

-- `sum(entry.acted is value for entry in entries)`
unfoldable pub count_acted : {F : Type 0} → Option Bool → List (Snapshot F) → ℕ
count_acted value [] = 0
count_acted value (e ∷ es) = (if same_acted e.acted value then 1 else 0) + count_acted value es

module _ {F : Type 0} where
  unfoldable pub count_orders : List (GhostOrder F) → Dict ℕ → Result (Dict ℕ)
  count_orders [] d = ok d
  count_orders (g ∷ gs) d = bump (disposition_name g.disposition) d >>= (λ d'. count_orders gs d')

  unfoldable pub count_entries : List (Snapshot F) → Dict ℕ → Result (Dict ℕ)
  count_entries [] d = ok d
  count_entries (e ∷ es) d = count_orders e.orders d >>= (λ d'. count_entries es d')

module _ {F : Type 0} ⦃r : Runtime F⦄ where
  -- A number of the snapshots, summed over the decisions.
  unfoldable pub sum_of : (Snapshot F → Result (Option F)) → List (Snapshot F) → Result (Option F)
  sum_of value entries = do values ← each value entries; sum_available values

  -- `CounterfactualRecord.intended_notional`, `confirmed_notional` and `executed_notional`
  unfoldable pub intended_notional : Snapshot F → Result (Option F)
  intended_notional entry = sum_available (map (λ g. some (Ghost.intended_notional g)) entry.orders)

  unfoldable pub confirmed_of : Snapshot F → Result (Option F)
  confirmed_of entry = sum_available (map (λ g. some (confirmed_notional g)) entry.orders)

  unfoldable pub executed_notional : Snapshot F → Result (Option F)
  executed_notional entry = sum_available (map Ghost.executed_notional entry.orders)

  unfoldable pub selection_gap : Ledger F → Result (SelectionGap F)
  selection_gap l = do
    let entries = decision_records l
    dispositions ← count_entries entries no_dispositions
    intended ← sum_of intended_notional entries
    confirmed ← sum_of confirmed_of entries
    executed ← sum_of executed_notional entries
    intended_mark ← sum_of intended_pnl entries
    executed_mark ← sum_of executed_pnl entries
    foregone_mark ← sum_of foregone_pnl entries
    ok (record {
      decisions = length entries;
      acted_decisions = count_acted (some true) entries;
      unacted_decisions = count_acted (some false) entries;
      unknown_decisions = count_acted none entries;
      snapshots = length l.records;
      intended_notional = intended;
      confirmed_notional = confirmed;
      executed_notional = executed;
      intended_pnl = intended_mark;
      executed_pnl = executed_mark;
      foregone_pnl = foregone_mark;
      dispositions = dispositions;
    })

  -- `execution_ratio`; the intended notional is never None.
  unfoldable pub execution_ratio : SelectionGap F → Option F
  execution_ratio g = elim g.intended_notional [
    | none ↦ none
    | some intended ↦ if r.same intended r.zero then some r.one else elim g.executed_notional [
      | none ↦ none
      | some executed ↦ some (r.over executed intended)
    ]
  ]
