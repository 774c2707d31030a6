-- ===== src/Paper/Lifecycle/Safety.antt =====
-- What a caller of `OrderLifecycle` may rely on: one submission, no move out of a settled state, and
-- a replacement only after the broker's absence has been recorded.
use mathlib.Core.Path.{subst}
use sharpearena.Prelude.{
  ℕ, ◌+◌, ◌≤◌, String, ◌≡◌, ◌≢◌, refl, ◌∙◌, ap, Bool, true, false, ◌&&◌, none, List, [], ◌∷◌, All,
  arith, any, str_eq, Bool-cases, inl, inr, if◌then◌else◌,
}
use sharpearena.Python.Errors.{Error, Result, ok, err}
use sharpearena.Python.Runtime.{Runtime}
use sharpearena.Paper.Lifecycle.States.{
  State, state_name, is_allowed, same_state, same_state-eq, same_state_ne, is_final,
}
use sharpearena.Paper.Lifecycle.{
  LifecycleTransition, OrderLifecycle, create, transition, mark_submitted, mark_acknowledged,
  mark_partially_filled, mark_filled, mark_rejected, mark_submission_unknown,
  mark_reconciled_accepted, mark_reconciled_absent, mark_replaced, may_submit_replacement,
}
use sharpearena.Paper.Lifecycle.Trace.{Trace, Event, perform, run, may_submit_replacement-absent}
use sharpearena.Paper.Lifecycle.Legal.{run-IsLegal}

abbrev pub is_submission : LifecycleTransition → Bool
is_submission t = str_eq t.to_state "submitted"

-- The transition that `mark_reconciled_absent` records.
abbrev pub is_absence : LifecycleTransition → Bool
is_absence t = str_eq t.from_state "submission_unknown" && str_eq t.to_state "reconciled_absent"

abbrev pub count : (LifecycleTransition → Bool) → List LifecycleTransition → ℕ
count p [] = 0
count p (t ∷ ts) = (if p t then 1 else 0) + count p ts

only_from_prepared : (a : State) → is_allowed a State.submitted ≡ true → a ≡ State.prepared
unfolding is_allowed same_state
only_from_prepared State.prepared h = refl
only_from_prepared _ h = cc

never_to_prepared : (a : State) → is_allowed a State.prepared ≡ true → ⊥
unfolding is_allowed same_state
never_to_prepared State.prepared h = cc
never_to_prepared _ h = cc

only_from_unknown :
    (a : State) → is_allowed a State.reconciled_absent ≡ true → a ≡ State.submission_unknown
unfolding is_allowed same_state
only_from_unknown State.submission_unknown h = refl
only_from_unknown _ h = cc

never_from_final : (a b : State) → is_final a ≡ true → is_allowed a b ≡ false
unfolding is_final is_allowed same_state
never_from_final State.filled b h = refl
never_from_final State.rejected b h = refl
never_from_final _ b h = cc

named_submitted : (s : State) → s ≢ State.submitted → str_eq (state_name s) "submitted" ≡ false
unfolding state_name
named_submitted State.submitted n = absurd (n refl)
named_submitted _ n = refl

final_not_absent : (a : State) → is_final a ≡ true → same_state a State.reconciled_absent ≡ false
unfolding is_final same_state
final_not_absent State.filled h = refl
final_not_absent State.rejected h = refl
final_not_absent _ h = cc

-- Past `prepared` no transition is a submission.
no_submission_after :
    (a b : State) (ts : List LifecycleTransition)
    → a ≢ State.prepared
    → Trace a ts b
    → count is_submission ts ≡ 0
no_submission_after a b [] n h = refl
no_submission_after a b (t ∷ ts) n (s, p, q, k, h) =
    let differs : s ≢ State.submitted =
      λ e. n (only_from_prepared a (subst (λ x. is_allowed a x ≡ true) e k)) in
    let later : s ≢ State.prepared =
      λ e. never_to_prepared a (subst (λ x. is_allowed a x ≡ true) e k) in
    rw (q, named_submitted s differs) (omega (arith, no_submission_after s b ts later h))

submissions_le_one :
    (b : State) (ts : List LifecycleTransition)
    → Trace State.prepared ts b
    → count is_submission ts ≤ 1
submissions_le_one b [] h = omega arith
submissions_le_one b (t ∷ ts) (s, p, q, k, h) =
    let later : s ≢ State.prepared =
      λ e. never_to_prepared State.prepared (subst (λ x. is_allowed State.prepared x ≡ true) e k) in
    ground (arith, no_submission_after s b ts later h)

-- A trace that ends in a confirmed absence records it.
absence_recorded :
    (a b : State) (ts : List LifecycleTransition)
    → a ≢ State.reconciled_absent
    → b ≡ State.reconciled_absent
    → Trace a ts b
    → any is_absence ts ≡ true
unfolding state_name
absence_recorded a b [] n e h = absurd (n (h ∙ e))
absence_recorded a b (t ∷ ts) n e (s, p, q, k, h) =
    elim (Bool-cases (same_state s State.reconciled_absent)) [
      | inl y ↦
          let now : s ≡ State.reconciled_absent = same_state-eq s State.reconciled_absent y in
          let before : a ≡ State.submission_unknown =
            only_from_unknown a (subst (λ x. is_allowed a x ≡ true) now k) in
          rw (p ∙ ap state_name before, q ∙ ap state_name now) refl
      | inr m ↦
          ground (arith, absence_recorded s b ts (same_state_ne s State.reconciled_absent m) e h)
    ]

module _ {F : Type 0} ⦃r : Runtime F⦄ where
  -- Whatever is called on a new lifecycle, it records at most one submission.
  pub submitted_once :
      (id : String) (l : OrderLifecycle F) (es : List (Event F))
      → create id ≡ ok l
      → count is_submission (run es l).transitions ≤ 1
  submitted_once id l es h =
      let legal = run-IsLegal id l es h in
      submissions_le_one (run es l).state (run es l).transitions legal.trace

  may_submit_replacement-none :
      (l : OrderLifecycle F) → may_submit_replacement l ≡ true → l.replaced_by ≡ none
  unfolding may_submit_replacement
  may_submit_replacement-none l h = ground arith

  -- Whenever a replacement is authorized, the broker's absence stands in the record as the step
  -- from an unknown submission, no fill is confirmed, and nothing replaces the order yet.
  pub replacement_confirmed :
      (id : String) (l : OrderLifecycle F) (es : List (Event F))
      → create id ≡ ok l
      → may_submit_replacement (run es l) ≡ true
      → (any is_absence (run es l).transitions ≡ true)
        × (r.less r.zero (run es l).filled_quantity ≡ false)
        × ((run es l).replaced_by ≡ none)
  replacement_confirmed id l es h m =
      let legal = run-IsLegal id l es h in
      let absent = may_submit_replacement-absent (run es l) m in
      (
        absence_recorded State.prepared (run es l).state (run es l).transitions (λ p. cc) absent
            legal.trace,
        legal.absent_unfilled absent,
        may_submit_replacement-none (run es l) m,
      )

  -- The call raises and leaves the lifecycle as it is.
  abbrev pub Refuses : OrderLifecycle F → Event F → Type 0
  Refuses l e = (x : Error) × (perform e l ≡ (err x, l))

  abbrev Refused : Result (Unit {0}) × OrderLifecycle F → OrderLifecycle F → Type 0
  Refused (ok _, l') l = ⊥
  Refused (err _, l') l = l' ≡ l

  Refused-Refuses :
      (l : OrderLifecycle F) (e : Event F) (res : Result (Unit {0})) (l' : OrderLifecycle F)
      → perform e l ≡ (res, l')
      → Refused (res, l') l
      → Refuses l e
  Refused-Refuses l e (ok _) l' same h = absurd h
  Refused-Refuses l e (err x) l' same h = (x, same ∙ ap (λ z. (err x, z)) h)

  final_refuses :
      (e : Event F) (l : OrderLifecycle F) → is_final l.state ≡ true → Refused (perform e l) l
  unfolding perform mark_submitted mark_acknowledged mark_partially_filled mark_filled mark_rejected
      mark_submission_unknown mark_reconciled_accepted mark_reconciled_absent mark_replaced
      transition may_submit_replacement
  final_refuses (Event.submitted t) l h = ground (arith, never_from_final l.state State.submitted)
  final_refuses (Event.acknowledged ack t) l h =
      ground (arith, never_from_final l.state State.acknowledged)
  final_refuses (Event.partially_filled q ack t) l h =
      ground (arith, never_from_final l.state State.partially_filled)
  final_refuses (Event.filled q ack t) l h = ground (arith, never_from_final l.state State.filled)
  final_refuses (Event.rejected why ack t) l h =
      ground (arith, never_from_final l.state State.rejected)
  final_refuses (Event.submission_unknown why t) l h =
      ground (arith, never_from_final l.state State.submission_unknown)
  final_refuses (Event.reconciled_accepted ack t) l h =
      ground (arith, never_from_final l.state State.reconciled_accepted)
  final_refuses (Event.reconciled_absent t) l h =
      ground (arith, never_from_final l.state State.reconciled_absent)
  final_refuses (Event.replaced id) l h = ground (arith, final_not_absent l.state)

  final-Refuses : (e : Event F) (l : OrderLifecycle F) → is_final l.state ≡ true → Refuses l e
  final-Refuses e l h =
      Refused-Refuses l e (perform e l).0 (perform e l).1 refl (final_refuses e l h)

  -- A filled or rejected order never changes again: every call on it raises, and it is the same after
  -- any run of calls.
  pub final_stays :
      (es : List (Event F)) (l : OrderLifecycle F)
      → is_final l.state ≡ true
      → (run es l ≡ l) × All (Refuses l) es
  unfolding run
  final_stays [] l h = (refl, tt)
  final_stays (e ∷ es) l h =
      let (x, same) = final-Refuses e l h in
      let (stays, others) = final_stays es l h in (rw same stays, ((x, same), others))
