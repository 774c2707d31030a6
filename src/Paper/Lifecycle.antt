-- ===== src/Paper/Lifecycle.antt =====
-- `OrderLifecycle` of paper_trading.py. A `moment` argument is the clock reading that the source
-- takes where `at_unix_ns` is None, or `int(at_unix_ns)`.
pub mod States
pub mod Trace
pub mod Legal
pub mod Safety
pub mod Persist
use sharpearena.Prelude.{
  ℕ, String, concat, Bool, true, false, not, ◌&&◌, Option, none, some, List, [], ◌∷◌, ◌++◌, map,
  str_eq, is_none, if◌then◌else◌,
}
use sharpearena.Prelude.Int.{ℤ, sub_ℕ}
use sharpearena.Python.Json.{Fields, obj}
use sharpearena.Python.Errors.{Result, ok, err, fail, raise_if, value_error, lifecycle_error}
use sharpearena.Python.Methods.{Method, pure, lift, gets, modify, ◌>>=◌, ◌>>◌}
use sharpearena.Python.Runtime.{Runtime, digest}
use sharpearena.Counterfactual.Ghost.{
  GhostOrder, Disposition, submission_unknown, not_submitted, construct,
}
use sharpearena.Paper.Lifecycle.States
use sharpearena.Paper.Lifecycle.States.{State, state_name, is_allowed, same_state}

pub record LifecycleTransition : Type 0 where
  pub from_state : String
  pub to_state : String
  pub at_unix_ns : ℕ
  pub reason : Option String
  pub broker_ack_sha256 : Option String

pub record OrderLifecycle (F : Type 0) : Type 0 where
  pub client_order_id : String
  pub state : State
  pub filled_quantity : F
  pub submitted_at_unix_ns : Option ℕ
  pub acknowledged_at_unix_ns : Option ℕ
  pub ack_latency_ns : Option ℤ
  pub replaced_by : Option String
  pub transitions : List LifecycleTransition
  pub execution_evidence : Option (GhostOrder F)

module _ {F : Type 0} where
  unfoldable pub is_terminal : OrderLifecycle F → Bool
  is_terminal l = States.is_final l.state

  unfoldable pub awaiting_reconciliation : OrderLifecycle F → Bool
  awaiting_reconciliation l = States.is_awaiting l.state

  unfoldable pub may_submit_replacement : OrderLifecycle F → Bool
  may_submit_replacement l = same_state l.state State.reconciled_absent && is_none l.replaced_by

  unfoldable pub is_submittable : OrderLifecycle F → Bool
  is_submittable l = same_state l.state State.prepared

abbrev latency : ℕ → Option ℕ → Option ℤ → Option ℤ
latency moment none old = old
latency moment (some submitted) old = some (sub_ℕ moment submitted)

module _ {F : Type 0} ⦃r : Runtime F⦄ where
  -- `OrderLifecycle(client_order_id)`
  unfoldable pub create : String → Result (OrderLifecycle F)
  create client_order_id =
      if str_eq client_order_id ""
      then fail value_error "an order lifecycle requires a client order id"
      else ok (record {
        client_order_id = client_order_id;
        state = State.prepared;
        filled_quantity = r.zero;
        submitted_at_unix_ns = none;
        acknowledged_at_unix_ns = none;
        ack_latency_ns = none;
        replaced_by = none;
        transitions = [];
        execution_evidence = none;
      })

  abbrev ack_digest : Option (Fields F) → Option String
  ack_digest none = none
  ack_digest (some ack) = some (digest (obj ack))

  -- The state after `_transition`, where it is allowed.
  unfoldable pub moved :
      State → ℕ → Option String → Option (Fields F) → OrderLifecycle F → OrderLifecycle F
  moved to moment reason ack l = record l {
    state = to;
    transitions =
        l.transitions
        ++ (record {
          from_state = state_name l.state;
          to_state = state_name to;
          at_unix_ns = moment;
          reason = reason;
          broker_ack_sha256 = ack_digest ack;
        }
            ∷ []);
  }

  -- `_transition`
  unfoldable pub transition :
      State → ℕ → Option String → Option (Fields F) → Method (OrderLifecycle F) (Unit {0})
  transition to moment reason ack l =
      if is_allowed l.state to then (ok tt, moved to moment reason ack l) else (
        fail lifecycle_error (
            concat "illegal order lifecycle transition "
              (concat (state_name l.state) (concat " -> " (state_name to)))),
        l,
      )

  abbrev replaced : Result (GhostOrder F) → Method (OrderLifecycle F) (Unit {0})
  replaced (ok g) l = (ok tt, record l { execution_evidence = some g })
  replaced (err e) l = (err e, l)

  abbrev revise_some :
      (GhostOrder F → GhostOrder F) → Option (GhostOrder F) → Method (OrderLifecycle F) (Unit {0})
  revise_some f none = pure tt
  revise_some f (some g) = replaced (construct (f g))

  -- `if self.execution_evidence is not None: self.execution_evidence = replace(...)`
  unfoldable pub revise_evidence :
      (GhostOrder F → GhostOrder F) → Method (OrderLifecycle F) (Unit {0})
  revise_evidence f l = revise_some f l.execution_evidence l

  abbrev pub without_receipt : GhostOrder F → GhostOrder F
  without_receipt g = record g {
    execution_complete = false;
    disposition = submission_unknown;
    reason = "submitted without a receipt";
  }

  unfoldable pub mark_submitted : ℕ → Method (OrderLifecycle F) (Unit {0})
  mark_submitted moment = do
    transition State.submitted moment none none
    modify (λ l. record l { submitted_at_unix_ns = some moment })
    revise_evidence without_receipt

  abbrev pub acknowledge : ℕ → OrderLifecycle F → OrderLifecycle F
  acknowledge moment l = record l {
    acknowledged_at_unix_ns = some moment;
    ack_latency_ns = latency moment l.submitted_at_unix_ns l.ack_latency_ns;
  }

  unfoldable pub mark_acknowledged : Fields F → ℕ → Method (OrderLifecycle F) (Unit {0})
  mark_acknowledged broker_ack moment = do
    transition State.acknowledged moment none (some broker_ack)
    modify (acknowledge moment)

  abbrev pub fill : F → OrderLifecycle F → OrderLifecycle F
  fill quantity l = record l { filled_quantity = quantity }

  unfoldable pub mark_partially_filled :
      F → Option (Fields F) → ℕ → Method (OrderLifecycle F) (Unit {0})
  mark_partially_filled filled_quantity broker_ack moment = do
    transition State.partially_filled moment none broker_ack
    modify (fill filled_quantity)

  unfoldable pub mark_filled : F → Option (Fields F) → ℕ → Method (OrderLifecycle F) (Unit {0})
  mark_filled filled_quantity broker_ack moment = do
    transition State.filled moment none broker_ack
    modify (fill filled_quantity)

  unfoldable pub mark_rejected :
      String → Option (Fields F) → ℕ → Method (OrderLifecycle F) (Unit {0})
  mark_rejected reason broker_ack moment = transition State.rejected moment (some reason) broker_ack

  unfoldable pub mark_submission_unknown : String → ℕ → Method (OrderLifecycle F) (Unit {0})
  mark_submission_unknown reason moment =
      transition State.submission_unknown moment (some reason) none

  unfoldable pub mark_reconciled_accepted : Fields F → ℕ → Method (OrderLifecycle F) (Unit {0})
  mark_reconciled_accepted broker_ack moment =
      transition State.reconciled_accepted moment none (some broker_ack)

  abbrev pub confirmed_absent : GhostOrder F → GhostOrder F
  confirmed_absent g = record g {
    execution_complete = true;
    disposition = not_submitted;
    reason = "broker confirmed absence";
  }

  unfoldable pub mark_reconciled_absent : ℕ → Method (OrderLifecycle F) (Unit {0})
  mark_reconciled_absent moment = do
    filled ← gets (λ l. l.filled_quantity)
    lift (
        raise_if (r.less r.zero filled) lifecycle_error
          "broker absence contradicts previously confirmed fills")
    transition State.reconciled_absent moment
        (some "broker reported no order with this client order id") none
    revise_evidence confirmed_absent

  unfoldable pub mark_replaced : String → Method (OrderLifecycle F) (Unit {0})
  mark_replaced replacement l =
      if may_submit_replacement l then (ok tt, record l { replaced_by = some replacement }) else (
        fail lifecycle_error (
            concat l.client_order_id
              (concat " in " (concat (state_name l.state) " authorizes no replacement"))),
        l,
      )
