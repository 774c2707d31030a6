-- ===== src/Paper/Session.antt =====
-- `PaperTradingSession` of paper_trading.py: what it holds, and its steps on one lifecycle. A
-- lifecycle is named by the id under which the store holds the object.
pub mod Evidence
pub mod Reconcile
pub mod Avoids
pub mod Present
pub mod Absence
pub mod Record
pub mod Submit
pub mod Crossing
pub mod Once
use sharpearena.Prelude.{
  ℕ, suc, String, concat, Bool, true, false, not, ◌&&◌, ◌||◌, Option, none, some, List, [], ◌∷◌,
  ◌++◌, str_eq, is_some, if◌then◌else◌,
}
use sharpearena.Prelude.Dict.{get_or}
use sharpearena.Python.Json.{Json, null, str, obj, Fields, get, optional}
use sharpearena.Python.Files.{Line, Outcome, written, added}
use sharpearena.Python.Errors.{
  Result, ok, err, fail, raise_if, key_error, os_error, paper_trading_error, lifecycle_error,
}
use sharpearena.Python.Methods.{Method, lift, gets, modify, pure, ◌>>=◌, ◌>>◌}
use sharpearena.Python.Runtime.{Runtime, digest}
use sharpearena.Counterfactual.Ghost.{GhostOrder}
use sharpearena.Counterfactual.Receipt.{ghost_order_from_receipt, raw_quantity}
use sharpearena.Counterfactual.Records.{Ledger}
use sharpearena.Counterfactual.Ledger.{refresh_receipt}
use sharpearena.Paper.Account.{PaperAccount}
use sharpearena.Paper.Broker.{PaperBroker}
use sharpearena.Paper.Lifecycle.States.{State, state_name, same_state}
use sharpearena.Paper.Lifecycle.{
  OrderLifecycle, awaiting_reconciliation, fill, mark_filled, mark_partially_filled, mark_rejected,
  mark_submission_unknown, mark_reconciled_absent, mark_reconciled_accepted,
}
use sharpearena.Paper.Lifecycle.Persist.{as_record}
use sharpearena.Paper.Store
use sharpearena.Paper.Store.{LifecycleStore, save}
use sharpearena.Paper.Session.Evidence.{float_of, journal_row}
use sharpearena.Paper.Lifecycle.Persist.{natural}

-- What the session's methods change: its lifecycles, the rows of its journal, its counterfactual
-- ledger, the account, the broker's own state, and how often the clock was read.
pub record World (F B : Type 0) : Type 0 where
  pub lifecycles : LifecycleStore F
  pub journal : List (Line F)
  pub ledger : Option (Ledger F)
  pub account : PaperAccount F
  pub book : B
  pub ticks : ℕ

-- What they do not change. `text` is `str` on a value that is no string; the two `writes` say how
-- an append of one more row to a file ends.
pub record Session (F B : Type 0) : Type 0 where
  pub broker : PaperBroker F B
  pub agent_id : String
  pub model_digest : String
  pub window : Option (Json F)
  pub clock : ℕ → ℕ
  pub text : Json F → String
  pub journal_writes : List (Line F) → Json F → Outcome
  pub ledger_writes : List (Line F) → Json F → Outcome

module _ {F : Type 0} ⦃r : Runtime F⦄ where
  -- The three branches on the status.
  unfoldable pub follow_status : String → F → Fields F → ℕ → Method (OrderLifecycle F) (Unit {0})
  follow_status status filled view moment =
      let stated = is_some (raw_quantity view) in
      if str_eq status "filled" && stated
      then mark_filled filled (some view) moment
      else if (str_eq status "partially_filled" || str_eq status "partial_fill")
          && r.less r.zero filled
      then mark_partially_filled filled (some view) moment
      else if (str_eq status "rejected"
            || str_eq status "canceled"
            || str_eq status "cancelled"
            || str_eq status "expired")
          && stated
      then (do mark_rejected status (some view) moment; modify (fill filled))
      else pure tt

  abbrev pub settle : Option (GhostOrder F) → OrderLifecycle F → OrderLifecycle F
  settle none l = l
  settle (some g) l = record l {
    execution_evidence = some g;
    filled_quantity = g.executed_quantity;
  }

  abbrev evidence_of : Option (GhostOrder F) → Fields F → Result (Option (GhostOrder F))
  evidence_of none view = ok none
  evidence_of (some g) view = elim (ghost_order_from_receipt g view) [
    | ok g' ↦ ok (some g')
    | err e ↦ err e
  ]

module _ {F : Type 0} ⦃r : Runtime F⦄ (text : Json F → String) where
  abbrev status_text : Option (Json F) → String
  status_text none = ""
  status_text (some (str s)) = s
  status_text (some j) = text j

  -- `str(view.get("status", "")).lower()`
  abbrev pub status_of : Fields F → String
  status_of view = r.lower (status_text (get "status" view))

  -- `_apply_broker_view`
  unfoldable pub apply_broker_view : Fields F → ℕ → Method (OrderLifecycle F) (Unit {0})
  apply_broker_view view moment = do
    bound ← gets (λ l. l.execution_evidence)
    evidence ← lift (evidence_of bound view)
    filled ← lift (float_of (get "filled_qty" view))
    follow_status (status_of view) filled view moment
    modify (settle evidence)

module _ {F B : Type 0} ⦃r : Runtime F⦄ (session : Session F B) where
  -- `time.time_ns()`
  unfoldable pub now : Method (World F B) ℕ
  now w = (ok (session.clock w.ticks), record w { ticks = suc w.ticks })

  -- `_envelope`
  unfoldable pub envelope : String → Method (World F B) (List (String × Json F))
  envelope record_type = do
    moment ← now
    pure (
        ("record_type", str record_type)
        ∷ ("recorded_at_unix_ns", natural moment)
        ∷ ("agent_id", str session.agent_id)
        ∷ ("model_digest", str session.model_digest)
        ∷ ("broker", str session.broker.broker_id)
        ∷ [])

  abbrev pub appended : Outcome → Result (Unit {0})
  appended written = ok tt
  appended _ = fail os_error "write failed"

  -- `_append`
  unfoldable pub append : List (String × Json F) → Method (World F B) (Unit {0})
  append entries w =
      let row = journal_row session.window entries in
      let outcome = session.journal_writes w.journal row in
      (appended outcome, record w { journal = w.journal ++ added row outcome })

  abbrev pub put_back :
      {A : Type 0} → String → World F B → Result A × OrderLifecycle F → Result A × World F B
  put_back id w (res, l) = (res, record w { lifecycles = Store.put id l w.lifecycles })

  -- A method of the lifecycle object that the store holds under this id.
  unfoldable pub on_lifecycle :
      {A : Type 0} → String → Method (OrderLifecycle F) A → Method (World F B) A
  on_lifecycle id m w = elim (Store.get id w.lifecycles) [
    | none ↦ (fail key_error id, w)
    | some l ↦ put_back id w (m l)
  ]

  -- `self.lifecycles.save()`
  unfoldable pub save_lifecycles : Method (World F B) (Unit {0})
  save_lifecycles = modify (λ w. record w { lifecycles = save w.lifecycles })
