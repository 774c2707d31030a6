-- ===== src/Paper/Store/Resolve.antt =====
-- `resolve` ends: each round sees one more entry of the table. What it returns is the end of a chain.
use sharpearena.Prelude.{
  ℕ, zero, suc, ◌+◌, ◌≤◌, ◌<◌, String, ◌≡◌, ◌≢◌, refl, false, Option, none, some, List, [], ◌∷◌,
  arith, length, eq_refl, if◌then◌else◌, Bool-cases, Option-cases, inl, inr,
}
use sharpearena.Prelude.Dict.{Dict, lookup}
use sharpearena.Python.Errors.{Result, ok}
use sharpearena.Paper.Lifecycle.{OrderLifecycle}
use sharpearena.Paper.Store.{LifecycleStore, get, mem, resolve_loop, or_fuel, resolve}

module _ {F : Type 0} where
  -- The entries whose lifecycle the loop has not seen.
  abbrev unseen : List String → Dict (OrderLifecycle F) → ℕ
  unseen seen [] = 0
  unseen seen ((k, l) ∷ d) = (if mem l.client_order_id seen then 0 else 1) + unseen seen d

  unseen-le-length : (seen : List String) (d : Dict (OrderLifecycle F)) → unseen seen d ≤ length d
  unseen-le-length seen [] = omega arith
  unseen-le-length seen ((k, l) ∷ d) = ground (arith, unseen-le-length seen d)

  unseen-cons :
      (x : String) (seen : List String) (d : Dict (OrderLifecycle F))
      → unseen (x ∷ seen) d ≤ unseen seen d
  unseen-cons x seen [] = omega arith
  unseen-cons x seen ((k, l) ∷ d) = ground (arith, unseen-cons x seen d)

  unseen_drops :
      (k : String) (l : OrderLifecycle F) (seen : List String) (d : Dict (OrderLifecycle F))
      → lookup k d ≡ some l
      → mem l.client_order_id seen ≡ false
      → unseen (l.client_order_id ∷ seen) d < unseen seen d
  unfolding lookup
  unseen_drops k l seen [] h m = cc
  unseen_drops k l seen ((j, x) ∷ d) h m = ground (
    arith,
    unseen_drops k l seen d,
    unseen-cons l.client_order_id seen d,
    eq_refl l.client_order_id,
  )

  loop_ends :
      (fuel : ℕ) (seen : List String) (k : String) (current : Option (OrderLifecycle F))
      (d : Dict (OrderLifecycle F))
      → lookup k d ≡ current
      → unseen seen d < fuel
      → resolve_loop fuel seen current d ≢ none
  unfolding resolve_loop
  loop_ends zero seen k current d h n = absurd (omega arith)
  loop_ends (suc fuel) seen k none d h n = λ e. cc
  loop_ends (suc fuel) seen k (some l) d h n = elim (Option-cases l.replaced_by) [
    | inl e ↦ ground arith
    | inr (next, e) ↦ elim (Bool-cases (mem l.client_order_id seen)) [
      | inl m ↦ ground arith
      | inr m ↦ ground (
        arith,
        unseen_drops k l seen d h m,
        loop_ends fuel (l.client_order_id ∷ seen) next (lookup next d) d refl,
      )
    ]
  ]

  -- The loop needs no more rounds than `resolve` gives it, whatever the table holds.
  pub resolve_ends :
      (id : String) (store : LifecycleStore F)
      → resolve_loop (suc (suc (length store.entries))) [] (get id store) store.entries ≢ none
  unfolding get
  resolve_ends id store =
      loop_ends (suc (suc (length store.entries))) [] id (lookup id store.entries) store.entries
        refl (omega (arith, unseen-le-length [] store.entries))

  loop_finds :
      (fuel : ℕ) (seen : List String) (k : String) (current : Option (OrderLifecycle F))
      (d : Dict (OrderLifecycle F)) (l : OrderLifecycle F)
      → lookup k d ≡ current
      → resolve_loop fuel seen current d ≡ some (ok (some l))
      → (l.replaced_by ≡ none) × ((j : String) × (lookup j d ≡ some l))
  unfolding resolve_loop
  loop_finds zero seen k current d l h e = cc
  loop_finds (suc fuel) seen k none d l h e = absurd cc
  loop_finds (suc fuel) seen k (some x) d l h e = elim (Option-cases x.replaced_by) [
    | inl z ↦ (ground arith, (k, ground arith))
    | inr (next, z) ↦ elim (Option-cases (lookup next d)) [
      | inl missing ↦ absurd (ground arith)
      | inr (y, p) ↦ loop_finds fuel (x.client_order_id ∷ seen) next (some y) d l p (ground arith)
    ]
  ]

  of_fuel :
      (o : Option (Result (Option (OrderLifecycle F)))) (l : OrderLifecycle F)
      → or_fuel o ≡ ok (some l)
      → o ≡ some (ok (some l))
  of_fuel o l h = ground arith

  -- What `resolve` returns stands in the table and has not been replaced.
  pub resolve_found :
      (id : String) (store : LifecycleStore F) (l : OrderLifecycle F)
      → resolve id store ≡ ok (some l)
      → (l.replaced_by ≡ none) × ((j : String) × (get j store ≡ some l))
  unfolding resolve get
  resolve_found id store l h =
      loop_finds (suc (suc (length store.entries))) [] id (lookup id store.entries) store.entries l
        refl (of_fuel _ l h)
