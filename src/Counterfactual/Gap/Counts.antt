-- ===== src/Counterfactual/Gap/Counts.antt =====
-- The counts of `selection_gap`: they sort the decisions, and every order of one, exactly once.
use mathlib.Core.Path.{subst}
use sharpearena.Prelude.{
  ap, ◌∙◌, Bool-cases, inl, inr, sym, ℕ, ◌+◌, ◌≤◌, ◌≡◌, refl, sym, inl, inr, String, Bool, true,
  false, Bool-cases, Option, none, some, List, [], ◌∷◌, length, str_eq, if◌then◌else◌, arith,
}
use sharpearena.Prelude.Dict.{Dict, lookup}
use sharpearena.Python.Errors.{ok, >>=-eq-ok, ok-injective}
use sharpearena.Python.Runtime.{Runtime}
use sharpearena.Counterfactual.Ghost.{GhostOrder, Disposition, disposition_name}
use sharpearena.Counterfactual.Snapshot.{
  Snapshot, same_acted, intended_pnl, executed_pnl, foregone_pnl,
}
use sharpearena.Counterfactual.Records.{
  Ledger, decision_records, latest_of, upsert, same_key, record_key,
}
use sharpearena.Counterfactual.Gap
use sharpearena.Counterfactual.Gap.Buckets.{total, total-bump, lookup-bump, unbumped}
use sharpearena.Counterfactual.Gap.{
  SelectionGap, sum_of, confirmed_of, no_dispositions, bump, count_acted, count_orders,
  count_entries, selection_gap,
}

abbrev pub acts : Option Bool → ℕ
acts none = 0
acts (some true) = 1
acts (some false) = 0

abbrev pub rests : Option Bool → ℕ
rests none = 0
rests (some true) = 0
rests (some false) = 1

abbrev pub unclear : Option Bool → ℕ
unclear none = 1
unclear (some b) = 0

acting_one : (o : Option Bool) → (if same_acted o (some true) then 1 else 0) ≡ acts o
unfolding same_acted
acting_one none = refl
acting_one (some true) = refl
acting_one (some false) = refl

idle_one : (o : Option Bool) → (if same_acted o (some false) then 1 else 0) ≡ rests o
unfolding same_acted
idle_one none = refl
idle_one (some true) = refl
idle_one (some false) = refl

undecided_one : (o : Option Bool) → (if same_acted o none then 1 else 0) ≡ unclear o
unfolding same_acted
undecided_one none = refl
undecided_one (some true) = refl
undecided_one (some false) = refl

length-upsert :
    {F : Type 0} (e : Snapshot F) (es : List (Snapshot F)) → length (upsert e es) ≤ length es + 1
unfolding upsert
length-upsert e [] = omega arith
length-upsert e (x ∷ es) = elim (Bool-cases (same_key (record_key x) (record_key e))) [
  | inl s ↦ rw s (omega arith)
  | inr s ↦ rw s (omega (arith, length-upsert e es))
]

length-latest_of :
    {F : Type 0} (acc es : List (Snapshot F)) → length (latest_of acc es) ≤ length acc + length es
unfolding latest_of
length-latest_of acc [] = omega arith
length-latest_of acc (e ∷ es) =
    omega (arith, length-latest_of (upsert e acc) es, length-upsert e acc)

acted_once :
    (value : Option Bool)
    → (if same_acted value (some true) then 1 else 0)
        + (if same_acted value (some false) then 1 else 0)
        + (if same_acted value none then 1 else 0)
      ≡ 1
unfolding same_acted
acted_once none = refl
acted_once (some true) = refl
acted_once (some false) = refl

acted_sorted :
    {F : Type 0} (es : List (Snapshot F))
    → count_acted (some true) es + count_acted (some false) es + count_acted none es ≡ length es
unfolding count_acted
acted_sorted [] = omega arith
acted_sorted (e ∷ es) = omega (arith, acted_once e.acted, acted_sorted es)

-- The orders of all the decisions.
abbrev pub orders_of : {F : Type 0} → List (Snapshot F) → ℕ
orders_of [] = 0
orders_of (e ∷ es) = length e.orders + orders_of es

module _ {F : Type 0} where
  total-count_orders :
      (gs : List (GhostOrder F)) (d d' : Dict ℕ)
      → count_orders gs d ≡ ok d'
      → total d' ≡ total d + length gs
  unfolding count_orders
  total-count_orders [] d d' h = rw (sym (ok-injective h)) (omega arith)
  total-count_orders (g ∷ gs) d d' h =
      let (d1, h1, h2) = >>=-eq-ok (bump (disposition_name g.disposition) d) _ h in
      omega
        (arith, total-bump (disposition_name g.disposition) d d1 h1, total-count_orders gs d1 d' h2)

  total-count_entries :
      (es : List (Snapshot F)) (d d' : Dict ℕ)
      → count_entries es d ≡ ok d'
      → total d' ≡ total d + orders_of es
  unfolding count_entries
  total-count_entries [] d d' h = rw (sym (ok-injective h)) (omega arith)
  total-count_entries (e ∷ es) d d' h =
      let (d1, h1, h2) = >>=-eq-ok (count_orders e.orders d) _ h in
      omega (arith, total-count_orders e.orders d d1 h1, total-count_entries es d1 d' h2)

  dispositions_total :
      (es : List (Snapshot F)) (d : Dict ℕ)
      → count_entries es no_dispositions ≡ ok d
      → total d ≡ orders_of es
  dispositions_total es d h = omega (arith, total-count_entries es no_dispositions d h)

  length-decision_records : (l : Ledger F) → length (decision_records l) ≤ length l.records
  unfolding decision_records
  length-decision_records l = omega (arith, length-latest_of [] l.records)

  -- How many orders of the decisions have the disposition with this name, and how many decisions acted
  -- as given.
  abbrev pub disposed_as : String → List (GhostOrder F) → ℕ
  disposed_as k [] = 0
  disposed_as k (g ∷ gs) =
      (if str_eq (disposition_name g.disposition) k then 1 else 0) + disposed_as k gs

  abbrev pub all_disposed_as : String → List (Snapshot F) → ℕ
  all_disposed_as k [] = 0
  all_disposed_as k (e ∷ es) = disposed_as k e.orders + all_disposed_as k es

  counted-orders :
      (k : String) (gs : List (GhostOrder F)) (d d' : Dict ℕ)
      → count_orders gs d ≡ ok d'
      → (n : ℕ) → lookup k d ≡ some n
      → lookup k d' ≡ some (n + disposed_as k gs)
  unfolding count_orders
  counted-orders k [] d d' h n e = rw (sym (ok-injective h), e) (ap some (omega arith))
  counted-orders k (g ∷ gs) d d' h n e =
      let (d1, h1, h2) = >>=-eq-ok (bump (disposition_name g.disposition) d) _ h in
      let one = if str_eq (disposition_name g.disposition) k then 1 else 0 in
      counted-orders k gs d1 d' h2 (n + one)
        (lookup-bump (disposition_name g.disposition) k d d1 h1 n e)
      ∙ ap some (omega arith)

  counted-entries :
      (k : String) (es : List (Snapshot F)) (d d' : Dict ℕ)
      → count_entries es d ≡ ok d'
      → (n : ℕ) → lookup k d ≡ some n
      → lookup k d' ≡ some (n + all_disposed_as k es)
  unfolding count_entries
  counted-entries k [] d d' h n e = rw (sym (ok-injective h), e) (ap some (omega arith))
  counted-entries k (x ∷ es) d d' h n e =
      let (d1, h1, h2) = >>=-eq-ok (count_orders x.orders d) _ h in
      counted-entries k es d1 d' h2 (n + disposed_as k x.orders)
        (counted-orders k x.orders d d1 h1 n e)
      ∙ ap some (omega arith)

  disposed_total :
      (x : Disposition) (es : List (Snapshot F)) (d : Dict ℕ)
      → count_entries es no_dispositions ≡ ok d
      → lookup (disposition_name x) d ≡ some (all_disposed_as (disposition_name x) es)
  disposed_total x es d h =
      counted-entries (disposition_name x) es no_dispositions d h 0 (unbumped x)
      ∙ ap some (omega arith)

  -- The decisions that acted, did not act, and of which it is unknown.
  abbrev pub acting : List (Snapshot F) → ℕ
  acting [] = 0
  acting (e ∷ es) = acts e.acted + acting es

  abbrev pub idle : List (Snapshot F) → ℕ
  idle [] = 0
  idle (e ∷ es) = rests e.acted + idle es

  abbrev pub undecided : List (Snapshot F) → ℕ
  undecided [] = 0
  undecided (e ∷ es) = unclear e.acted + undecided es

  acting-count : (es : List (Snapshot F)) → count_acted (some true) es ≡ acting es
  unfolding count_acted
  acting-count [] = refl
  acting-count (e ∷ es) = omega (arith, acting_one e.acted, acting-count es)

  idle-count : (es : List (Snapshot F)) → count_acted (some false) es ≡ idle es
  unfolding count_acted
  idle-count [] = refl
  idle-count (e ∷ es) = omega (arith, idle_one e.acted, idle-count es)

  undecided-count : (es : List (Snapshot F)) → count_acted none es ≡ undecided es
  unfolding count_acted
  undecided-count [] = refl
  undecided-count (e ∷ es) = omega (arith, undecided_one e.acted, undecided-count es)

  -- The counts of a gap over the decisions of a ledger, which are the last snapshots of their keys.
  pub record IsBalanced (l : Ledger F) (g : SelectionGap F) : Type 0 where
    pub counted : g.decisions ≡ length (decision_records l)
    pub acted : g.acted_decisions ≡ acting (decision_records l)
    pub unacted : g.unacted_decisions ≡ idle (decision_records l)
    pub unknown : g.unknown_decisions ≡ undecided (decision_records l)
    pub sorted : g.acted_decisions + g.unacted_decisions + g.unknown_decisions ≡ g.decisions
    pub disposed :
        (x : Disposition)
        → lookup (disposition_name x) g.dispositions
          ≡ some (all_disposed_as (disposition_name x) (decision_records l))
    pub total_disposed : total g.dispositions ≡ orders_of (decision_records l)
    pub revised : g.decisions ≤ length l.records

module _ {F : Type 0} ⦃r : Runtime F⦄ where
  -- A gap that `selection_gap` returns counts the decisions that acted, that did not, and of which it is
  -- unknown, each decision once; under each disposition it counts the orders of the decisions that have
  -- it, each order once; there are at most as many decisions as snapshots.
  pub selection_gap-IsBalanced :
      (l : Ledger F) (g : SelectionGap F) → selection_gap l ≡ ok g → IsBalanced l g
  unfolding selection_gap
  selection_gap-IsBalanced l g h =
      let (d, h0, h1) = >>=-eq-ok (count_entries (decision_records l) no_dispositions) _ h in
      let (_, _, h2) = >>=-eq-ok (sum_of Gap.intended_notional (decision_records l)) _ h1 in
      let (_, _, h3) = >>=-eq-ok (sum_of confirmed_of (decision_records l)) _ h2 in
      let (_, _, h4) = >>=-eq-ok (sum_of Gap.executed_notional (decision_records l)) _ h3 in
      let (_, _, h5) = >>=-eq-ok (sum_of intended_pnl (decision_records l)) _ h4 in
      let (_, _, h6) = >>=-eq-ok (sum_of executed_pnl (decision_records l)) _ h5 in
      let (_, _, h7) = >>=-eq-ok (sum_of foregone_pnl (decision_records l)) _ h6 in
      subst (λ z. IsBalanced l z) (ok-injective h7)
        (record {
          counted = refl;
          sorted = acted_sorted (decision_records l);
          acted = acting-count (decision_records l);
          unacted = idle-count (decision_records l);
          unknown = undecided-count (decision_records l);
          disposed = λ x. disposed_total x (decision_records l) d h0;
          total_disposed = dispositions_total (decision_records l) d h0;
          revised = length-decision_records l;
        })
