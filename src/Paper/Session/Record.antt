-- ===== src/Paper/Session/Record.antt =====
-- What `execute_decision` hands to `_submit_preflighted`, and its closure `record_execution`.
use sharpearena.Prelude.{String, false, Option, none, some, List, [], ◌∷◌, if◌then◌else◌}
use sharpearena.Prelude.Dict.{Dict}
use sharpearena.Python.Json.{Json}
use sharpearena.Python.Errors.{Result, ok, err}
use sharpearena.Python.Errors
use sharpearena.Python.Methods.{Method, lift, ◌>>=◌}
use sharpearena.Python.Runtime.{Runtime}
use sharpearena.Counterfactual.Ghost.{GhostOrder, submission_unknown, construct}
use sharpearena.Counterfactual.Records.{Ledger}
use sharpearena.Counterfactual.Ledger.{record_decision}
use sharpearena.Paper.Lifecycle.States.{State, same_state}
use sharpearena.Paper.Lifecycle.{OrderLifecycle}
use sharpearena.Paper.Order.{PaperOrder}
use sharpearena.Paper.Risk.{RiskVerdict}
use sharpearena.Paper.Store.{LifecycleStore, resolve}
use sharpearena.Paper.Session.{Session, World}

-- One order of the batch: `orders[i]`, `preflight[i]`, `stable_ids[i]` and `ghosts[i]`.
pub record Planned (F : Type 0) : Type 0 where
  pub order : PaperOrder F
  pub verdict : Option (RiskVerdict F)
  pub stable : String
  pub ghost : GhostOrder F

pub record Plan (F : Type 0) : Type 0 where
  pub batch : List (Planned F)
  pub decision : Json F
  pub market_snapshot : Json F
  pub decision_key : String
  pub settlement_prices : Dict F
  pub prices : Dict F

module _ {F : Type 0} ⦃r : Runtime F⦄ where
  abbrev unbound : GhostOrder F → String → GhostOrder F
  unbound g stable = record g {
    client_order_id = some stable;
    disposition = submission_unknown;
    execution_complete = false;
    reason = "lifecycle has no validated V2 receipt";
  }

  abbrev evidence_or : GhostOrder F → String → Option (GhostOrder F) → Result (GhostOrder F)
  evidence_or g stable none = construct (unbound g stable)
  evidence_or g stable (some e) = ok e

  -- What is recorded of an order whose lifecycle is this.
  unfoldable pub observe : GhostOrder F → String → Option (OrderLifecycle F) → Result (GhostOrder F)
  observe g stable none = construct (record g { client_order_id = some stable })
  observe g stable (some l) =
      if same_state l.state State.prepared
      then construct (record g { client_order_id = some stable })
      else evidence_or g stable l.execution_evidence

  unfoldable pub observed : LifecycleStore F → List (Planned F) → Result (List (GhostOrder F))
  observed store [] = ok []
  observed store (p ∷ ps) = Errors.◌>>=◌ (resolve p.stable store) λ l.
      Errors.◌>>=◌ (observe p.ghost p.stable l)
        λ g. Errors.◌>>=◌ (observed store ps) λ rest. ok (g ∷ rest)

module _ {F B : Type 0} ⦃r : Runtime F⦄ (session : Session F B) (plan : Plan F) where
  abbrev recorded : List (GhostOrder F) → Option (Ledger F) → Method (World F B) (Unit {0})
  recorded orders none w = (ok tt, w)
  recorded orders (some ledger) w =
      let (res, ledger') =
        record_decision session.ledger_writes plan.decision plan.market_snapshot orders
          plan.settlement_prices (some plan.decision_key) ledger in
      (Errors.◌>>=◌ res (λ e. ok tt), record w { ledger = some ledger' })

  abbrev record_on : Option (Ledger F) → Method (World F B) (Unit {0})
  record_on none w = (ok tt, w)
  record_on (some ledger) w =
      (do orders ← lift (observed w.lifecycles plan.batch); recorded orders (some ledger)) w

  -- `record_execution`
  unfoldable pub record_execution : Method (World F B) (Unit {0})
  record_execution w = record_on w.ledger w
