-- ===== src/Tests/Lifecycles.antt =====
-- The theorems on lifecycles and their store at concrete inputs.
use sharpearena.Prelude.{
  ℕ, ◌≤◌, ◌≡◌, ◌≢◌, refl, true, false, none, some, List, [], ◌∷◌, All, any, suc, length,
}
use mathlib.Core.Path.{subst}
use sharpearena.Counterfactual.Ghost.{
  GhostOrder, construct, post_init, finite, is_sha256, bad_receipt,
}
use sharpearena.Tests.Ledgers.{filled_ghost}
use sharpearena.Python.Errors.{ok}
use sharpearena.Paper.Lifecycle.{
  OrderLifecycle, create, may_submit_replacement, mark_submitted, mark_submission_unknown,
  mark_reconciled_absent, transition, moved, revise_evidence,
}
use sharpearena.Paper.Lifecycle.States.{
  State, is_allowed, allowed_transitions, same_state, state_name, is_final,
}
use sharpearena.Paper.Lifecycle.Trace.{Event, run, perform, IsLegal}
use sharpearena.Paper.Lifecycle.Legal.{run-IsLegal}
use sharpearena.Paper.Lifecycle.Safety.{
  Refuses, count, is_submission, is_absence, submitted_once, replacement_confirmed, final_stays,
}
use sharpearena.Paper.Lifecycle.Persist.Roundtrip.{IsPersistable}
use sharpearena.Paper.Store.{LifecycleStore, resolve_loop, get, save, load}
use sharpearena.Paper.Store.Resolve.{resolve_ends}
use sharpearena.Paper.Store.Saved.{IsKeyed, load-save}
use sharpearena.Tests.Sample.{whole, lifecycle}

abbrev calls : List (Event ℕ)
calls =
    Event.submitted 5
    ∷ Event.submission_unknown "lost" 7
    ∷ Event.submitted 8
    ∷ Event.reconciled_absent 9
    ∷ []

abbrev fresh_one : OrderLifecycle ℕ
fresh_one = lifecycle State.prepared []

fresh_one_created : create ⦃r = whole⦄ "a" ≡ ok fresh_one
unfolding create
fresh_one_created = refl

calls_replaceable : may_submit_replacement (run ⦃r = whole⦄ calls fresh_one) ≡ true
unfolding run perform mark_submitted mark_submission_unknown mark_reconciled_absent transition moved
    revise_evidence may_submit_replacement is_allowed allowed_transitions same_state state_name
calls_replaceable = refl

submitted_once_example : count is_submission (run ⦃r = whole⦄ calls fresh_one).transitions ≤ 1
submitted_once_example = submitted_once ⦃r = whole⦄ "a" fresh_one calls fresh_one_created

replacement_confirmed_example :
    (any is_absence (run ⦃r = whole⦄ calls fresh_one).transitions ≡ true)
    × (whole.less whole.zero (run ⦃r = whole⦄ calls fresh_one).filled_quantity ≡ false)
    × ((run ⦃r = whole⦄ calls fresh_one).replaced_by ≡ none)
replacement_confirmed_example =
    replacement_confirmed ⦃r = whole⦄ "a" fresh_one calls fresh_one_created calls_replaceable

abbrev settled : OrderLifecycle ℕ
settled = lifecycle State.filled []

settled_final : is_final State.filled ≡ true
unfolding is_final same_state state_name
settled_final = refl

final_stays_example :
    (run ⦃r = whole⦄ calls settled ≡ settled) × All (Refuses ⦃r = whole⦄ settled) calls
final_stays_example = final_stays ⦃r = whole⦄ calls settled settled_final

run-IsLegal_example : IsLegal ⦃r = whole⦄ (run ⦃r = whole⦄ calls fresh_one)
run-IsLegal_example = run-IsLegal ⦃r = whole⦄ "a" fresh_one calls fresh_one_created

abbrev store : LifecycleStore ℕ
store = record { entries = ("a", fresh_one) ∷ []; file = some [] }

resolve_ends_example :
    resolve_loop (suc (suc (length store.entries))) [] (get "a" store) store.entries ≢ none
resolve_ends_example = resolve_ends "a" store

-- A filled order with its transitions and its receipt.
abbrev sold : OrderLifecycle ℕ
sold = record fresh_one {
  state = State.filled;
  filled_quantity = 3;
  transitions =
      record {
        from_state = "prepared";
        to_state = "submitted";
        at_unix_ns = 5;
        reason = none;
        broker_ack_sha256 = none;
      }
      ∷ [];
  execution_evidence = some filled_ghost;
}

filled_ghost_sound : construct ⦃r = whole⦄ filled_ghost ≡ ok filled_ghost
unfolding construct post_init finite is_sha256 bad_receipt
filled_ghost_sound = refl

sold-IsPersistable : IsPersistable ⦃r = whole⦄ sold
sold-IsPersistable = record { named = refl; bound = λ g e. bound_by g (of_some e) }
  where
    of_some : {x y : GhostOrder ℕ} → some x ≡ some y → x ≡ y
    of_some e = cc

    bound_by :
        (g : GhostOrder ℕ)
        → filled_ghost ≡ g
        → (construct ⦃r = whole⦄ g ≡ ok g) × (g.client_order_id ≡ some "a")
    bound_by g e =
        subst (λ z. (construct ⦃r = whole⦄ z ≡ ok z) × (z.client_order_id ≡ some "a")) e
          (filled_ghost_sound, refl)

abbrev sold_store : LifecycleStore ℕ
sold_store = record { entries = ("a", sold) ∷ []; file = some [] }

sold_store-IsKeyed : IsKeyed ⦃r = whole⦄ sold_store.entries
sold_store-IsKeyed = (refl, tt, sold-IsPersistable, tt)

load-save_example :
    load ⦃r = whole⦄ (save ⦃r = whole⦄ sold_store).file ≡ ok (save ⦃r = whole⦄ sold_store)
load-save_example = load-save ⦃r = whole⦄ sold_store [] refl sold_store-IsKeyed
