-- ===== src/Paper/Session/Submit.antt =====
-- `_submit_preflighted` of `PaperTradingSession`: the orders of a batch, one after the other.
use sharpearena.Prelude.{
  String, concat, Bool, true, false, Option, none, some, List, [], ◌∷◌, ◌++◌, if◌then◌else◌,
}
use sharpearena.Python.Json.{Json, num, str, obj, Fields, fields, optional}
use sharpearena.Python.Errors.{
  Kind, Error, Result, ok, err, fail, paper_trading_error, submission_unknown, value_error,
  type_error, counterfactual_error, key_error, lifecycle_error, os_error, index_error,
  runtime_error, assertion_error, forecast_contract_error, deferred_error, leaked_resolution,
  unresolved_claim, claim_rejected,
}
use sharpearena.Python.Methods.{Method, lift, gets, modify, pure, ◌>>=◌, ◌>>◌}
use sharpearena.Python.Runtime.{Runtime, digest}
use sharpearena.Counterfactual.Ghost
use sharpearena.Counterfactual.Ghost.{GhostOrder, side_name, construct}
use sharpearena.Paper.Lifecycle.{
  OrderLifecycle, awaiting_reconciliation, may_submit_replacement, is_submittable, mark_submitted,
  mark_replaced, mark_submission_unknown, mark_acknowledged, revise_evidence,
}
use sharpearena.Paper.Lifecycle.Persist.{as_record}
use sharpearena.Paper.Order.{PaperOrder, paper_order}
use sharpearena.Paper.Risk.{RiskVerdict}
use sharpearena.Paper.Store.{LifecycleStore, resolve, open_or_create}
use sharpearena.Paper.Broker.Local.{verdict_record}
use sharpearena.Paper.Session.{
  Session, World, now, envelope, append, on_lifecycle, save_lifecycles, apply_broker_view,
}
use sharpearena.Paper.Session.Reconcile.{reconcile}
use sharpearena.Paper.Session.Record.{Planned, Plan, record_execution}

-- `type(error).__name__`
unfoldable pub kind_name : Kind → String
kind_name value_error = "ValueError"
kind_name type_error = "TypeError"
kind_name key_error = "KeyError"
kind_name counterfactual_error = "CounterfactualError"
kind_name paper_trading_error = "PaperTradingError"
kind_name submission_unknown = "SubmissionUnknown"
kind_name lifecycle_error = "LifecycleError"
kind_name os_error = "OSError"
kind_name index_error = "IndexError"
kind_name runtime_error = "RuntimeError"
kind_name assertion_error = "AssertionError"
kind_name forecast_contract_error = "ForecastContractError"
kind_name deferred_error = "DeferredError"
kind_name leaked_resolution = "LeakedResolution"
kind_name unresolved_claim = "UnresolvedClaim"
kind_name claim_rejected = "ClaimRejected"

-- The classes that `except (TypeError, ValueError)` catches.
abbrev pub is_receipt_error : Kind → Bool
is_receipt_error value_error = true
is_receipt_error type_error = true
is_receipt_error counterfactual_error = true
is_receipt_error forecast_contract_error = true
is_receipt_error _ = false

abbrev pub is_unknown : Kind → Bool
is_unknown submission_unknown = true
is_unknown _ = false

-- `asdict(order)`
unfoldable pub order_json : {F : Type 0} → PaperOrder F → Json F
order_json o = obj (
    fields (
      ("symbol", str o.symbol)
      ∷ ("side", str (side_name o.side))
      ∷ ("quantity", num o.quantity)
      ∷ ("order_type", str o.order_type)
      ∷ ("time_in_force", str o.time_in_force)
      ∷ ("client_order_id", optional str o.client_order_id)
      ∷ []))

-- The outcome of a method as a value: its `try`.
abbrev pub attempt : {S A : Type 0} → Method S A → Method S (Result A)
attempt m s = let (res, s') = m s in (ok res, s')

-- An order that was made ready for the broker, with the start of its journal record.
pub record Ready (F : Type 0) : Type 0 where
  pub order : PaperOrder F
  pub entries : List (String × Json F)

abbrev approved : {F : Type 0} → Option (RiskVerdict F) → Result (RiskVerdict F)
approved none = fail paper_trading_error "order has no approved preflight verdict"
approved (some v) =
    if v.allowed then ok v else fail paper_trading_error "order has no approved preflight verdict"

module _ {F B : Type 0} ⦃r : Runtime F⦄ (session : Session F B) where
  abbrev opened : Result (OrderLifecycle F × LifecycleStore F) → Method (World F B) String
  opened (ok (l, store)) w = (ok l.client_order_id, record w { lifecycles = store })
  opened (err e) w = (err e, w)

  -- `self.lifecycles.open_or_create(id)`
  unfoldable pub open_lifecycle : String → Method (World F B) String
  open_lifecycle id w = opened (open_or_create id w.lifecycles) w

  abbrev or_open : String → Option (OrderLifecycle F) → Method (World F B) String
  or_open stable none = open_lifecycle stable
  or_open stable (some l) = pure l.client_order_id

  -- `self.lifecycles.resolve(stable) or self.lifecycles.open_or_create(stable)`
  unfoldable pub current : String → Method (World F B) String
  current stable = do found ← λ w. (resolve stable w.lifecycles, w); or_open stable found

  -- An unknown submission is asked about before anything else is sent.
  unfoldable pub ask_first : String → Method (World F B) (Unit {0})
  ask_first id = do
    l ← on_lifecycle session id (gets (λ l. l))
    (if awaiting_reconciliation l then (do reconcile session id; pure tt) else pure tt)

  unfoldable pub replacement : String → Method (World F B) String
  replacement id = do
    other ← open_lifecycle (concat id "-r1")
    on_lifecycle session id (mark_replaced other)
    pure other

  -- The replacement of an order whose absence was confirmed.
  unfoldable pub replacing : String → Method (World F B) String
  replacing id = do
    l ← on_lifecycle session id (gets (λ l. l))
    (if may_submit_replacement l then replacement id else pure id)

  module _ (plan : Plan F) where
    -- The submission is written down before the broker is called.
    unfoldable pub seal : Ready F → String → Method (World F B) (Ready F)
    seal ready id = do
      moment ← now session
      on_lifecycle session id (mark_submitted moment)
      save_lifecycles session
      record_execution session plan
      pure ready

    -- What is done before the broker is called.
    unfoldable pub prepare : Planned F → String → Method (World F B) (Ready F)
    prepare p id = do
      verdict ← lift (approved p.verdict)
      order ← lift (paper_order p.order.symbol p.order.side p.order.quantity (some id))
      head ← envelope session "order-submission"
      let entries =
          head
          ++ (("market_snapshot_sha256", str (digest plan.market_snapshot))
              ∷ ("decision_sha256", str (digest plan.decision))
              ∷ ("order", order_json order)
              ∷ ("batch_preflight", verdict_record verdict)
              ∷ [])
      evidence ← lift (construct (record p.ghost { client_order_id = some id }))
      on_lifecycle session id (modify (λ l. record l { execution_evidence = some evidence }))
      seal (record { order = order; entries = entries }) id

    -- `self.broker.submit(order, account=account, prices=prices)`
    unfoldable pub call_broker : PaperOrder F → Method (World F B) (Fields F)
    call_broker order w =
        let (res, (account, book)) = session.broker.submit order plan.prices (w.account, w.book) in
        (res, record w { account = account; book = book })

    -- The end of a failed submission: its record, and the error again.
    unfoldable pub failed_with : Ready F → String → String → Error → Method (World F B) (Fields F)
    failed_with ready id status e = do
      state ← on_lifecycle session id (gets as_record)
      append session (
          ready.entries
          ++ (("submission_status", str status)
              ∷ ("error_type", str (kind_name e.kind))
              ∷ ("error", str e.message)
              ∷ ("lifecycle", state)
              ∷ []))
      lift (err e)

    -- The two handlers of the call.
    unfoldable pub lost : Ready F → String → Error → Method (World F B) (Fields F)
    lost ready id e =
        if is_unknown e.kind
        then (do
          moment ← now session
          on_lifecycle session id (mark_submission_unknown e.message moment)
          save_lifecycles session
          reconcile session id
          failed_with ready id "submission-unknown-then-reconciled" e)
        else (do
          moment ← now session
          on_lifecycle session id
              (mark_submission_unknown (concat (kind_name e.kind) (concat ": " e.message)) moment)
          save_lifecycles session
          failed_with ready id "failed" e)

    abbrev invalid : Error → GhostOrder F → GhostOrder F
    invalid e g = record g {
      execution_complete = false;
      disposition = Ghost.submission_unknown;
      reason =
          concat "invalid broker receipt: " (concat (kind_name e.kind) (concat ": " e.message));
    }

    unfoldable pub misread : Ready F → String → Error → Method (World F B) (Fields F)
    misread ready id e =
        if is_receipt_error e.kind
        then (do
          on_lifecycle session id (revise_evidence (invalid e))
          save_lifecycles session
          failed_with ready id "invalid-broker-receipt" e)
        else lift (err e)

    unfoldable pub judged :
        Ready F → String → Fields F → Result (Unit {0}) → Method (World F B) (Fields F)
    judged ready id response (err e) = misread ready id e
    judged ready id response (ok u) = do
      save_lifecycles session
      state ← on_lifecycle session id (gets as_record)
      append session (
          ready.entries
          ++ (("submission_status", str "accepted-by-paper-broker")
              ∷ ("paper_response", obj response)
              ∷ ("lifecycle", state)
              ∷ []))
      pure response

    -- The broker's response on the lifecycle.
    unfoldable pub accept : Ready F → String → Fields F → Method (World F B) (Fields F)
    accept ready id response = do
      res ← attempt (do
        moment ← now session
        on_lifecycle session id (mark_acknowledged response moment)
        later ← now session
        on_lifecycle session id (apply_broker_view session.text response later))
      judged ready id response res

    unfoldable pub heard : Ready F → String → Result (Fields F) → Method (World F B) (Fields F)
    heard ready id (ok response) = accept ready id response
    heard ready id (err e) = lost ready id e

    -- The call of the broker, and what follows it.
    unfoldable pub cross : String → Ready F → Method (World F B) (Fields F)
    cross id ready = do res ← attempt (call_broker ready.order); heard ready id res

    unfoldable pub send : Planned F → String → Method (World F B) (List (Fields F))
    send p id = do ready ← prepare p id; response ← cross id ready; pure (response ∷ [])

    -- One round of the loop, with its `continue`.
    unfoldable pub submit_one : Planned F → Method (World F B) (List (Fields F))
    submit_one p = do
      stable ← current p.stable
      ask_first stable
      id ← replacing stable
      l ← on_lifecycle session id (gets (λ l. l))
      (if is_submittable l then send p id else (do save_lifecycles session; pure []))

    unfoldable pub submit_all : List (Planned F) → Method (World F B) (List (Fields F))
    submit_all [] = pure []
    submit_all (p ∷ ps) = do sent ← submit_one p; rest ← submit_all ps; pure (sent ++ rest)

    -- `_submit_preflighted`
    unfoldable pub submit_preflighted : Method (World F B) (List (Fields F))
    submit_preflighted = submit_all plan.batch
