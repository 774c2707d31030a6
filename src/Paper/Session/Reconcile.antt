-- ===== src/Paper/Session/Reconcile.antt =====
-- The queries of `PaperTradingSession`: no method here sends an order.
use sharpearena.Prelude.{
  String, concat, Bool, not, ◌||◌, Option, none, some, List, [], ◌∷◌, ◌++◌, if◌then◌else◌,
}
use sharpearena.Python.Json.{Json, str, obj, Fields, fields, optional}
use sharpearena.Python.Errors.{Result, ok, fail, raise_if, paper_trading_error, lifecycle_error}
use sharpearena.Python.Methods.{Method, lift, gets, pure, ◌>>=◌, ◌>>◌}
use sharpearena.Python.Runtime.{Runtime, digest}
use sharpearena.Counterfactual.Ghost.{GhostOrder}
use sharpearena.Counterfactual.Records.{Ledger}
use sharpearena.Counterfactual.Ledger.{refresh_receipt}
use sharpearena.Paper.Lifecycle.States.{State, state_name, same_state}
use sharpearena.Paper.Lifecycle.{
  OrderLifecycle, awaiting_reconciliation, mark_submission_unknown, mark_reconciled_absent,
  mark_reconciled_accepted,
}
use sharpearena.Paper.Lifecycle.Persist.{as_record}
use sharpearena.Paper.Store.{all_lifecycles, unresolved}
use sharpearena.Paper.Session.{
  Session, World, now, envelope, append, on_lifecycle, save_lifecycles, apply_broker_view,
}

abbrev pub ids : {F : Type 0} → List (OrderLifecycle F) → List String
ids [] = []
ids (l ∷ ls) = l.client_order_id ∷ ids ls

module _ {F B : Type 0} ⦃r : Runtime F⦄ (session : Session F B) where
  abbrev asked :
      Option (String → Method B (Option (Fields F)))
      → String
      → Method (World F B) (Option (Fields F))
  asked none id w = (
    fail paper_trading_error (
        concat session.broker.broker_id (
          concat " cannot be queried by client order id, so the fate of "
            (concat id " can never be established"))),
    w,
  )
  asked (some query) id w = let (found, book) = query id w.book in (found, record w { book = book })

  -- `_find_order`
  unfoldable pub find_order : String → Method (World F B) (Option (Fields F))
  find_order id = asked session.broker.find_order id

  abbrev refreshed :
      World F B → Option (Ledger F) → Option (GhostOrder F) → Result (Unit {0}) × World F B
  refreshed w (some ledger) (some g) =
      let (res, ledger') = refresh_receipt session.ledger_writes g ledger in
      (res, record w { ledger = some ledger' })
  refreshed w _ _ = (ok tt, w)

  unfoldable pub refresh_ledger : Option (GhostOrder F) → Method (World F B) (Unit {0})
  refresh_ledger evidence w = refreshed w w.ledger evidence

  -- `self.counterfactual.refresh_receipt(lifecycle.execution_evidence)`, where both are there
  unfoldable pub refresh_evidence : String → Method (World F B) (Unit {0})
  refresh_evidence id = do
    evidence ← on_lifecycle session id (gets (λ l. l.execution_evidence))
    refresh_ledger evidence

  -- The mark of a submission that was resumed.
  unfoldable pub resume : String → State → Method (World F B) (Unit {0})
  resume id state =
      if same_state state State.submitted
      then (do
        moment ← now session
        on_lifecycle session id
            (mark_submission_unknown "resumed submission has no recorded verdict" moment)
        save_lifecycles session)
      else pure tt

  -- The marks of the broker's answer.
  unfoldable pub conclude : String → Option (Fields F) → Method (World F B) (Unit {0})
  conclude id none = do
    moment ← now session
    on_lifecycle session id (mark_reconciled_absent moment)
  conclude id (some found) = do
    moment ← now session
    on_lifecycle session id (mark_reconciled_accepted found moment)
    later ← now session
    on_lifecycle session id (apply_broker_view session.text found later)

  abbrev presence : Option (Fields F) → String
  presence none = "absent"
  presence (some found) = "present"

  -- The evidence of a reconciliation, written after the lifecycle was saved.
  unfoldable pub report : String → Option (Fields F) → Method (World F B) (Json F)
  report id found = do
    save_lifecycles session
    head ← envelope session "order-reconciliation"
    state ← on_lifecycle session id (gets as_record)
    let entries =
        head
        ++ (("client_order_id", str id)
            ∷ ("queried_by", str "client_order_id")
            ∷ ("broker_answer", str (presence found))
            ∷ ("broker_answer_sha256", str (digest (optional obj found)))
            ∷ ("lifecycle", state)
            ∷ [])
    append session entries
    refresh_evidence id
    pure (obj (fields entries))

  -- The query of `reconcile`, and what follows it.
  unfoldable pub ask : String → Method (World F B) (Json F)
  ask id = do found ← find_order id; conclude id found; report id found

  -- `reconcile`
  unfoldable pub reconcile : String → Method (World F B) (Json F)
  reconcile id = do
    l ← on_lifecycle session id (gets (λ l. l))
    lift (
        raise_if (not (awaiting_reconciliation l)) lifecycle_error
          (concat id (concat " in state " (concat (state_name l.state) " needs no query"))))
    resume id l.state
    ask id

  unfoldable pub each :
      (String → Method (World F B) (Json F)) → List String → Method (World F B) (List (Json F))
  each step [] = pure []
  each step (id ∷ rest) = do rec ← step id; recs ← each step rest; pure (rec ∷ recs)

  -- `reconcile_all`
  unfoldable pub reconcile_all : Method (World F B) (List (Json F))
  reconcile_all = do waiting ← gets (λ w. ids (unresolved w.lifecycles)); each reconcile waiting

  abbrev outstanding : State → Bool
  outstanding s =
      same_state s State.acknowledged
      || same_state s State.partially_filled
      || same_state s State.reconciled_accepted

  abbrev held : Option (Fields F) → Result (Fields F)
  held none =
      fail paper_trading_error "accepted order is absent from query; execution remains unresolved"
  held (some view) = ok view

  -- One round of `refresh_execution` on an outstanding order.
  unfoldable pub refresh_order : String → Method (World F B) (Json F)
  refresh_order id = do
    found ← find_order id
    view ← lift (held found)
    moment ← now session
    on_lifecycle session id (apply_broker_view session.text view moment)
    save_lifecycles session
    head ← envelope session "execution-refresh"
    state ← on_lifecycle session id (gets as_record)
    let entries =
        head
        ++ (("client_order_id", str id)
            ∷ ("broker_answer_sha256", str (digest (obj view)))
            ∷ ("lifecycle", state)
            ∷ [])
    append session entries
    refresh_evidence id
    pure (obj (fields entries))

  -- One round of `refresh_execution`, with its `continue`.
  unfoldable pub refresh_one : String → Method (World F B) (List (Json F))
  refresh_one id = do
    state ← on_lifecycle session id (gets (λ l. l.state))
    (if outstanding state then (do rec ← refresh_order id; pure (rec ∷ [])) else pure [])

  unfoldable pub refresh_loop : List String → Method (World F B) (List (Json F))
  refresh_loop [] = pure []
  refresh_loop (id ∷ rest) = do
    recs ← refresh_one id
    later ← refresh_loop rest
    pure (recs ++ later)

  -- `refresh_execution`
  unfoldable pub refresh_execution : Method (World F B) (List (Json F))
  refresh_execution = do every ← gets (λ w. ids (all_lifecycles w.lifecycles)); refresh_loop every
