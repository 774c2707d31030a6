-- ===== src/Paper/Lifecycle/Legal.antt =====
-- Every method of a lifecycle keeps it legal, and so does every sequence of calls.
use mathlib.Core.Bool.{false≢true}
use sharpearena.Prelude.{
  ℕ, String, ◌≡◌, ◌≢◌, refl, Option, none, some, List, [], ◌∷◌, arith, Bool-cases, inl, inr,
}
use sharpearena.Python.Json.{Fields}
use sharpearena.Python.Errors.{ok}
use sharpearena.Python.Methods.{modify, ◌>>◌}
use sharpearena.Python.Runtime.{Runtime}
use sharpearena.Counterfactual.Ghost.{GhostOrder}
use sharpearena.Paper.Lifecycle.Trace.{
  Event, perform, run, IsLegal, absence, may_submit_replacement-absent, advance-IsLegal,
  stamped_before, plain-IsLegal,
}
use sharpearena.Paper.Lifecycle.States.{State, is_allowed}
use sharpearena.Paper.Lifecycle.{
  OrderLifecycle, create, moved, transition, revise_evidence, mark_submitted, fill, acknowledge,
  without_receipt, confirmed_absent, mark_acknowledged, mark_partially_filled, mark_filled,
  mark_rejected, mark_submission_unknown, mark_reconciled_accepted, mark_reconciled_absent,
  mark_replaced, may_submit_replacement,
}

module _ {F : Type 0} ⦃r : Runtime F⦄ where
  -- A transition alone, and one with writes after it.
  transition-IsLegal :
      (to : State) (t : ℕ) (why : Option String) (ack : Option (Fields F)) (l : OrderLifecycle F)
      → to ≢ State.submitted
      → to ≢ State.reconciled_absent
      → IsLegal l
      → IsLegal (transition to t why ack l).1
  unfolding transition
  transition-IsLegal to t why ack l n m h = elim (Bool-cases (is_allowed l.state to)) [
    | inl e ↦ rw e (plain-IsLegal to t why ack (λ x. x) l (λ x. (refl, refl, refl, refl)) n m h e)
    | inr e ↦ rw e h
  ]

  writes-IsLegal :
      (to : State) (t : ℕ) (why : Option String) (ack : Option (Fields F))
      (f : OrderLifecycle F → OrderLifecycle F) (l : OrderLifecycle F)
      → ((x : OrderLifecycle F)
          → ((f x).state ≡ x.state)
            × ((f x).transitions ≡ x.transitions)
            × ((f x).replaced_by ≡ x.replaced_by)
            × ((f x).submitted_at_unix_ns ≡ x.submitted_at_unix_ns))
      → to ≢ State.submitted
      → to ≢ State.reconciled_absent
      → IsLegal l
      → IsLegal ((transition to t why ack >> modify f) l).1
  unfolding transition
  writes-IsLegal to t why ack f l keeps n m h = elim (Bool-cases (is_allowed l.state to)) [
    | inl e ↦ rw e (plain-IsLegal to t why ack f l keeps n m h e)
    | inr e ↦ rw e h
  ]

  revise_evidence-fields :
      (f : GhostOrder F → GhostOrder F) (l : OrderLifecycle F)
      → let l' = (revise_evidence f l).1 in
        (l'.state ≡ l.state)
        × (l'.transitions ≡ l.transitions)
        × (l'.replaced_by ≡ l.replaced_by)
        × (l'.filled_quantity ≡ l.filled_quantity)
        × (l'.submitted_at_unix_ns ≡ l.submitted_at_unix_ns)
  unfolding revise_evidence
  revise_evidence-fields f l = ground arith

  revise_evidence-IsLegal :
      (f : GhostOrder F → GhostOrder F) (l : OrderLifecycle F)
      → IsLegal l
      → IsLegal (revise_evidence f l).1
  revise_evidence-IsLegal f l h =
      let k = revise_evidence-fields f l in
      record {
        trace = rw (k.0, k.1) h.trace;
        replaced_absent = rw (k.0, k.2) h.replaced_absent;
        absent_unfilled = rw (k.0, k.3) h.absent_unfilled;
        stamped = rw (k.0, k.4) h.stamped;
      }

  submitted-IsLegal : (t : ℕ) (l : OrderLifecycle F) → IsLegal l → IsLegal (mark_submitted t l).1
  unfolding mark_submitted transition
  submitted-IsLegal t l h = elim (Bool-cases (is_allowed l.state State.submitted)) [
    | inl e ↦ rw e (
        revise_evidence-IsLegal without_receipt
          (record (moved State.submitted t none none l) { submitted_at_unix_ns = some t })
          (unfold moved in
            advance-IsLegal l
              (record (moved State.submitted t none none l) { submitted_at_unix_ns = some t })
              State.submitted t none none h e refl refl refl (λ p. cc) refl))
    | inr e ↦ rw e h
  ]

  absent-IsLegal :
      (t : ℕ) (l : OrderLifecycle F) → IsLegal l → IsLegal (mark_reconciled_absent t l).1
  unfolding mark_reconciled_absent transition
  absent-IsLegal t l h = elim (Bool-cases (r.less r.zero l.filled_quantity)) [
    | inl e ↦ rw e h
    | inr u ↦ elim (Bool-cases (is_allowed l.state State.reconciled_absent)) [
      | inl e ↦
          rw (u, e)
            (revise_evidence-IsLegal confirmed_absent _ (
              unfold moved in
              advance-IsLegal l (moved State.reconciled_absent t absence none l)
                State.reconciled_absent t absence none h e refl refl refl (λ _. u)
                (stamped_before l State.reconciled_absent h e (λ p. cc))))
      | inr e ↦ rw (u, e) h
    ]
  ]

  replaced-IsLegal :
      (id : String) (l : OrderLifecycle F) → IsLegal l → IsLegal (mark_replaced id l).1
  unfolding mark_replaced
  replaced-IsLegal id l h = elim (Bool-cases (may_submit_replacement l)) [
    | inl e ↦ rw e (record {
      trace = h.trace;
      replaced_absent = λ _. may_submit_replacement-absent l e;
      absent_unfilled = h.absent_unfilled;
      stamped = h.stamped;
    })
    | inr e ↦ rw e h
  ]

  pub perform-IsLegal : (e : Event F) (l : OrderLifecycle F) → IsLegal l → IsLegal (perform e l).1
  unfolding perform mark_acknowledged mark_partially_filled mark_filled mark_rejected
      mark_submission_unknown mark_reconciled_accepted
  perform-IsLegal (Event.submitted t) l h = submitted-IsLegal t l h
  perform-IsLegal (Event.acknowledged ack t) l h =
      writes-IsLegal State.acknowledged t none (some ack) (acknowledge t) l
        (λ x. (refl, refl, refl, refl)) (λ p. cc) (λ p. cc) h
  perform-IsLegal (Event.partially_filled q ack t) l h =
      writes-IsLegal State.partially_filled t none ack (fill q) l (λ x. (refl, refl, refl, refl))
        (λ p. cc) (λ p. cc) h
  perform-IsLegal (Event.filled q ack t) l h =
      writes-IsLegal State.filled t none ack (fill q) l (λ x. (refl, refl, refl, refl)) (λ p. cc)
        (λ p. cc) h
  perform-IsLegal (Event.rejected why ack t) l h =
      transition-IsLegal State.rejected t (some why) ack l (λ p. cc) (λ p. cc) h
  perform-IsLegal (Event.submission_unknown why t) l h =
      transition-IsLegal State.submission_unknown t (some why) none l (λ p. cc) (λ p. cc) h
  perform-IsLegal (Event.reconciled_accepted ack t) l h =
      transition-IsLegal State.reconciled_accepted t none (some ack) l (λ p. cc) (λ p. cc) h
  perform-IsLegal (Event.reconciled_absent t) l h = absent-IsLegal t l h
  perform-IsLegal (Event.replaced id) l h = replaced-IsLegal id l h

  run_from-IsLegal : (es : List (Event F)) (l : OrderLifecycle F) → IsLegal l → IsLegal (run es l)
  unfolding run
  run_from-IsLegal [] l h = h
  run_from-IsLegal (e ∷ es) l h = run_from-IsLegal es (perform e l).1 (perform-IsLegal e l h)

  create-fields :
      (id : String) (l : OrderLifecycle F)
      → create id ≡ ok l
      → (l.state ≡ State.prepared) × (l.transitions ≡ []) × (l.replaced_by ≡ none)
  unfolding create
  create-fields id l h = ground arith

  pub create-IsLegal : (id : String) (l : OrderLifecycle F) → create id ≡ ok l → IsLegal l
  create-IsLegal id l h =
      let (st, tr, rep) = create-fields id l h in
      record {
        trace = rw (st, tr);
        replaced_absent = λ p. absurd (false≢true (rw rep at p));
        absent_unfilled = λ p. cc;
        stamped = λ n. absurd (n st);
      }

  -- However the methods are called on a new lifecycle, and whatever they raise, it stays legal.
  pub run-IsLegal :
      (id : String) (l : OrderLifecycle F) (es : List (Event F))
      → create id ≡ ok l
      → IsLegal (run es l)
  run-IsLegal id l es h = run_from-IsLegal es l (create-IsLegal id l h)
