-- ===== src/Paper/Lifecycle/Trace.antt =====
-- What every lifecycle that its own methods have moved satisfies, whatever was called and raised.
use mathlib.Core.Path.{subst}
use sharpearena.Prelude.{
  sym, ◌∙◌, ℕ, String, ◌≡◌, ◌≢◌, refl, true, false, Option, some, List, [], ◌∷◌, ◌++◌, arith,
  is_some,
}
use sharpearena.Python.Json.{Fields}
use sharpearena.Python.Methods.{Method}
use sharpearena.Python.Runtime.{Runtime}
use sharpearena.Paper.Lifecycle.States.{State, state_name, is_allowed, same_state-eq}
use sharpearena.Paper.Lifecycle.{
  LifecycleTransition, OrderLifecycle, moved, mark_submitted, mark_acknowledged,
  mark_partially_filled, mark_filled, mark_rejected, mark_submission_unknown,
  mark_reconciled_accepted, mark_reconciled_absent, mark_replaced, may_submit_replacement,
}

-- The recorded transitions lead from one state to the other by edges of the table.
abbrev pub Trace : State → List LifecycleTransition → State → Type 0
Trace a [] b = a ≡ b
Trace a (t ∷ ts) b =
    (s : State) × (t.from_state ≡ state_name a)
    × (t.to_state ≡ state_name s)
    × (is_allowed a s ≡ true)
    × Trace s ts b

Trace-append :
    (a b c : State) (ts : List LifecycleTransition) (t : LifecycleTransition)
    → Trace a ts b
    → t.from_state ≡ state_name b
    → t.to_state ≡ state_name c
    → is_allowed b c ≡ true
    → Trace a (ts ++ (t ∷ [])) c
Trace-append a b c [] t h f g e = (c, ground arith, g, ground arith, refl)
Trace-append a b c (x ∷ ts) t (s, p, q, k, h) f g e = (s, p, q, k, Trace-append s b c ts t h f g e)

-- A call of one of the methods that change a lifecycle.
pub data Event (F : Type 0) : Type 0 where
  submitted : ℕ → Event F
  acknowledged : Fields F → ℕ → Event F
  partially_filled filled : F → Option (Fields F) → ℕ → Event F
  rejected : String → Option (Fields F) → ℕ → Event F
  submission_unknown : String → ℕ → Event F
  reconciled_accepted : Fields F → ℕ → Event F
  reconciled_absent : ℕ → Event F
  replaced : String → Event F

abbrev pub absence : Option String
absence = some "broker reported no order with this client order id"

not-allowed-absent : (a b : State) → is_allowed a b ≡ true → a ≢ State.reconciled_absent
unfolding is_allowed
not-allowed-absent a b h e = ground arith

pub allowed-prepared :
    (a b : State) → is_allowed a b ≡ true → a ≡ State.prepared → b ≡ State.submitted
unfolding is_allowed
allowed-prepared a b h e = ground (arith, same_state-eq b State.submitted)

module _ {F : Type 0} ⦃r : Runtime F⦄ where
  unfoldable pub perform : Event F → Method (OrderLifecycle F) (Unit {0})
  perform (Event.submitted t) = mark_submitted t
  perform (Event.acknowledged ack t) = mark_acknowledged ack t
  perform (Event.partially_filled q ack t) = mark_partially_filled q ack t
  perform (Event.filled q ack t) = mark_filled q ack t
  perform (Event.rejected why ack t) = mark_rejected why ack t
  perform (Event.submission_unknown why t) = mark_submission_unknown why t
  perform (Event.reconciled_accepted ack t) = mark_reconciled_accepted ack t
  perform (Event.reconciled_absent t) = mark_reconciled_absent t
  perform (Event.replaced id) = mark_replaced id

  -- The calls one after the other; a raise ends only its own call.
  unfoldable pub run : List (Event F) → OrderLifecycle F → OrderLifecycle F
  run [] l = l
  run (e ∷ es) l = run es (perform e l).1

  pub record IsLegal (l : OrderLifecycle F) : Type 0 where
    pub trace : Trace State.prepared l.transitions l.state
    pub replaced_absent : is_some l.replaced_by ≡ true → l.state ≡ State.reconciled_absent
    pub absent_unfilled :
        l.state ≡ State.reconciled_absent → r.less r.zero l.filled_quantity ≡ false
    pub stamped : l.state ≢ State.prepared → is_some l.submitted_at_unix_ns ≡ true

  pub moved-Trace :
      (l : OrderLifecycle F) (to : State) (t : ℕ) (why : Option String) (ack : Option (Fields F))
      → Trace State.prepared l.transitions l.state
      → is_allowed l.state to ≡ true
      → Trace State.prepared (moved to t why ack l).transitions to
  unfolding moved
  moved-Trace l to t why ack h e =
      Trace-append State.prepared l.state to l.transitions _ h refl refl e

  pub may_submit_replacement-absent :
      (l : OrderLifecycle F) → may_submit_replacement l ≡ true → l.state ≡ State.reconciled_absent
  unfolding may_submit_replacement
  may_submit_replacement-absent l h = same_state-eq l.state State.reconciled_absent (ground arith)

  -- The state after a transition and the writes that follow it.
  pub advance-IsLegal :
      (l l' : OrderLifecycle F) (to : State) (t : ℕ) (why : Option String) (ack : Option (Fields F))
      → IsLegal l
      → is_allowed l.state to ≡ true
      → l'.state ≡ to
      → l'.transitions ≡ (moved to t why ack l).transitions
      → l'.replaced_by ≡ l.replaced_by
      → (to ≡ State.reconciled_absent → r.less r.zero l'.filled_quantity ≡ false)
      → is_some l'.submitted_at_unix_ns ≡ true
      → IsLegal l'
  advance-IsLegal l l' to t why ack h e st tr rep unfilled stamp = record {
    trace = rw (st, tr) (moved-Trace l to t why ack h.trace e);
    replaced_absent = λ some_id. absurd (
        not-allowed-absent l.state to e
          (h.replaced_absent (subst (λ o. is_some o ≡ true) rep some_id)));
    absent_unfilled = λ absent. unfilled (sym st ∙ absent);
    stamped = λ _. stamp;
  }

  -- Only `submitted` follows `prepared`.
  pub stamped_before :
      (l : OrderLifecycle F) (to : State)
      → IsLegal l
      → is_allowed l.state to ≡ true
      → to ≢ State.submitted
      → is_some l.submitted_at_unix_ns ≡ true
  stamped_before l to h e n = h.stamped (λ p. n (allowed-prepared l.state to e p))

  -- A transition that is neither a submission nor a confirmed absence, and writes after it.
  pub plain-IsLegal :
      (to : State) (t : ℕ) (why : Option String) (ack : Option (Fields F))
      (f : OrderLifecycle F → OrderLifecycle F) (l : OrderLifecycle F)
      → ((x : OrderLifecycle F)
          → ((f x).state ≡ x.state)
            × ((f x).transitions ≡ x.transitions)
            × ((f x).replaced_by ≡ x.replaced_by)
            × ((f x).submitted_at_unix_ns ≡ x.submitted_at_unix_ns))
      → to ≢ State.submitted
      → to ≢ State.reconciled_absent
      → IsLegal l
      → is_allowed l.state to ≡ true
      → IsLegal (f (moved to t why ack l))
  unfolding moved
  plain-IsLegal to t why ack f l keeps n m h e =
      let k = keeps (moved to t why ack l) in
      advance-IsLegal l (f (moved to t why ack l)) to t why ack h e k.0 k.1 k.2 (λ p. absurd (m p))
        (rw k.3 (stamped_before l to h e n))
