-- ===== src/Paper/Store.antt =====
-- `LifecycleStore` of paper_trading.py. The file is the list `lifecycles` of the JSON value last saved, none
-- where the store has no path; a file that does not exist yet is the empty list. The text of a JSON value
-- stands for the value.
pub mod Resolve
pub mod Saved
use sharpearena.Prelude.{
  ℕ, zero, suc, ◌+◌, String, Bool, true, false, ◌||◌, Option, none, some, List, [], ◌∷◌, map,
  length, str_eq, if◌then◌else◌,
}
use sharpearena.Prelude.Dict.{Dict, lookup, insert}
use sharpearena.Python.Json.{Json}
use sharpearena.Python.Errors.{Result, ok, err, fail, lifecycle_error, ◌>>=◌}
use sharpearena.Python.Runtime.{Runtime}
use sharpearena.Paper.Lifecycle.{OrderLifecycle, create, awaiting_reconciliation}
use sharpearena.Paper.Lifecycle.Persist.{as_record, from_record}

pub record LifecycleStore (F : Type 0) : Type 0 where
  pub entries : Dict (OrderLifecycle F)
  pub file : Option (List (Json F))

abbrev pub mem : String → List String → Bool
mem s [] = false
mem s (t ∷ ts) = str_eq t s || mem s ts

module _ {F : Type 0} where
  -- `self._entries.values()`
  unfoldable pub values : Dict (OrderLifecycle F) → List (OrderLifecycle F)
  values [] = []
  values ((k, l) ∷ d) = l ∷ values d

  unfoldable pub get : String → LifecycleStore F → Option (OrderLifecycle F)
  get id store = lookup id store.entries

  -- A write to the object that the store holds under this id.
  unfoldable pub put : String → OrderLifecycle F → LifecycleStore F → LifecycleStore F
  put id l store = record store { entries = insert id l store.entries }

  -- `all`
  unfoldable pub all_lifecycles : LifecycleStore F → List (OrderLifecycle F)
  all_lifecycles store = values store.entries

  unfoldable pub keep_awaiting : List (OrderLifecycle F) → List (OrderLifecycle F)
  keep_awaiting [] = []
  keep_awaiting (l ∷ ls) =
      let rest = keep_awaiting ls in if awaiting_reconciliation l then l ∷ rest else rest

  unfoldable pub unresolved : LifecycleStore F → List (OrderLifecycle F)
  unresolved store = keep_awaiting (values store.entries)

module _ {F : Type 0} ⦃r : Runtime F⦄ where
  abbrev saved : List (OrderLifecycle F) → Option (List (Json F)) → Option (List (Json F))
  saved ls none = none
  saved ls (some old) = some (map as_record ls)

  -- `save`: nothing without a path, else the whole table replaces the file.
  unfoldable pub save : LifecycleStore F → LifecycleStore F
  save store = record store { file = saved (values store.entries) store.file }

module _ {F : Type 0} where
  -- The loop of `resolve`; the outer none means that the fuel ran out.
  unfoldable pub resolve_loop :
      ℕ
      → List String
      → Option (OrderLifecycle F)
      → Dict (OrderLifecycle F)
      → Option (Result (Option (OrderLifecycle F)))
  resolve_loop zero seen current d = none
  resolve_loop (suc fuel) seen none d = some (ok none)
  resolve_loop (suc fuel) seen (some l) d = elim l.replaced_by [
    | none ↦ some (ok (some l))
    | some next ↦ elim (mem l.client_order_id seen) [
      | true ↦ some (fail lifecycle_error "cyclic replacement chain")
      | false ↦ elim (lookup next d) [
        | none ↦ some (fail lifecycle_error "replacement chain points to a missing lifecycle")
        | some l' ↦ resolve_loop fuel (l.client_order_id ∷ seen) (some l') d
      ]
    ]
  ]

  abbrev pub or_fuel :
      Option (Result (Option (OrderLifecycle F))) → Result (Option (OrderLifecycle F))
  or_fuel none = fail lifecycle_error "out of fuel"
  or_fuel (some r) = r

  -- `resolve`: one round more than there are entries is enough.
  unfoldable pub resolve : String → LifecycleStore F → Result (Option (OrderLifecycle F))
  resolve id store =
      or_fuel (resolve_loop (suc (suc (length store.entries))) [] (get id store) store.entries)

module _ {F : Type 0} ⦃r : Runtime F⦄ where
  -- `open_or_create`
  unfoldable pub open_or_create :
      String → LifecycleStore F → Result (OrderLifecycle F × LifecycleStore F)
  open_or_create id store = elim (get id store) [
    | some existing ↦ ok (existing, store)
    | none ↦ (do l ← create id; ok (l, put id l store))
  ]

  unfoldable pub load_entries :
      List (Json F) → Dict (OrderLifecycle F) → Result (Dict (OrderLifecycle F))
  load_entries [] d = ok d
  load_entries (rec ∷ recs) d = do
    l ← from_record rec
    load_entries recs (insert l.client_order_id l d)

  abbrev rows_of : Option (List (Json F)) → List (Json F)
  rows_of none = []
  rows_of (some rows) = rows

  -- `LifecycleStore(path)`
  unfoldable pub load : Option (List (Json F)) → Result (LifecycleStore F)
  load file = do
    entries ← load_entries (rows_of file) []
    ok (record { entries = entries; file = file })
