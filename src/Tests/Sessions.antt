-- ===== src/Tests/Sessions.antt =====
-- The theorems on the session at concrete inputs.
use sharpearena.Prelude.{ℕ, ◌≡◌, refl, String, false, Option, none, some, [], ◌∷◌}
use sharpearena.Prelude.Dict.{Dict, lookup, insert, get_or}
use sharpearena.Python.Json.{str, Fields}
use sharpearena.Python.Files.{written}
use sharpearena.Python.Errors.{Result, ok, err, submission_unknown}
use sharpearena.Python.Methods.{Method}
use sharpearena.Paper.Account.{PaperAccount}
use sharpearena.Paper.Broker.{PaperBroker}
use sharpearena.Paper.Lifecycle.{
  OrderLifecycle, is_submittable, may_submit_replacement, mark_submitted, transition, moved,
  revise_evidence,
}
use sharpearena.Paper.Lifecycle.States.{
  State, is_allowed, allowed_transitions, same_state, state_name,
}
use sharpearena.Paper.Order.{PaperOrder, paper_order, order_post_init, checked_symbol, is_symbol}
use sharpearena.Paper.Risk.{assess, refusal, prices_valid, projected_gross}
use sharpearena.Paper.Store
use sharpearena.Paper.Store.{save}
use sharpearena.Counterfactual.Ghost.{construct, post_init, bad_receipt, finite}
use sharpearena.Paper.Session.{Session, World, envelope, now, on_lifecycle, save_lifecycles}
use sharpearena.Paper.Session.Reconcile.{reconcile}
use sharpearena.Paper.Session.Absence.{reconcile_authorizes}
use sharpearena.Paper.Session.Record.{Planned, Plan, record_execution}
use sharpearena.Paper.Session.Submit.{Ready, prepare, seal, send}
use sharpearena.Paper.Session.Crossing.{prepare_saved}
use sharpearena.Paper.Session.Once.{send_once}
use sharpearena.Tests.Sample.{
  whole, config, buy_three, account, prices, ghost, lifecycle, accepted_view,
}

-- A broker that never answers a submission, and counts the queries that it answers.
abbrev lossy_submit : PaperOrder ℕ → Dict ℕ → Method (PaperAccount ℕ × ℕ) (Fields ℕ)
lossy_submit o d s = (err (record { kind = submission_unknown; message = "timeout" }), s)

abbrev known_query : String → Method ℕ (Option (Fields ℕ))
known_query id n = (ok (some accepted_view), ℕ.suc n)

abbrev lossy : PaperBroker ℕ ℕ
lossy = record {
  risk = config;
  broker_id = "lossy";
  submit = lossy_submit;
  find_order = some known_query;
}

abbrev session : Session ℕ ℕ
session = record {
  broker = lossy;
  agent_id = "agent";
  model_digest = "model";
  window = none;
  clock = λ n. n;
  text = λ j. "None";
  journal_writes = λ rows row. written;
  ledger_writes = λ rows row. written;
}

abbrev world : State → World ℕ ℕ
world state = record {
  lifecycles = record { entries = ("a", lifecycle state []) ∷ []; file = some [] };
  journal = [];
  ledger = none;
  account = account;
  book = 0;
  ticks = 0;
}

waiting_found :
    Store.get "a" (world State.submitted).lifecycles ≡ some (lifecycle State.submitted [])
unfolding Store.get lookup
waiting_found = refl

reconcile_authorizes_example :
    (l' : OrderLifecycle ℕ) × (Store.get "a"
        (reconcile session "a" (world State.submitted)).1.lifecycles
      ≡ some l')
    × (may_submit_replacement l' ≡ false)
reconcile_authorizes_example =
    reconcile_authorizes session "a" known_query (world State.submitted)
      (lifecycle State.submitted []) refl (λ e. cc) waiting_found (λ e. cc)

abbrev planned : Planned ℕ
planned = record {
  order = buy_three;
  verdict = some (assess config buy_three account prices);
  stable = "a";
  ghost = ghost;
}

abbrev plan : Plan ℕ
plan = record {
  batch = planned ∷ [];
  decision = str "buy";
  market_snapshot = str "bars";
  decision_key = "k";
  settlement_prices = [];
  prices = prices;
}

abbrev ready_of : Result (Ready ℕ) → Ready ℕ
ready_of (ok x) = x
ready_of (err e) = record { order = buy_three; entries = [] }

abbrev prepared : Result (Ready ℕ) × World ℕ ℕ
prepared = prepare session plan planned "a" (world State.prepared)

three_prepared :
    prepare session plan planned "a" (world State.prepared) ≡ (ok (ready_of prepared.0), prepared.1)
unfolding prepare assess refusal get_or lookup prices_valid projected_gross insert paper_order
    order_post_init checked_symbol is_symbol envelope now construct post_init bad_receipt finite
    on_lifecycle mark_submitted transition moved revise_evidence is_allowed allowed_transitions
    same_state state_name seal save_lifecycles save Store.get Store.put Store.values
    record_execution
three_prepared = refl

prepare_saved_example :
    (l : OrderLifecycle ℕ) × (Store.get "a" prepared.1.lifecycles ≡ some l)
    × (l.state ≡ State.submitted)
    × (save prepared.1.lifecycles ≡ prepared.1.lifecycles)
prepare_saved_example =
    prepare_saved session "a" plan planned (world State.prepared) prepared.1 (ready_of prepared.0)
      three_prepared

send_once_example :
    (l : OrderLifecycle ℕ) × (Store.get "a"
        (send session plan planned "a" (world State.prepared)).1.lifecycles
      ≡ some l)
    × (is_submittable l ≡ false)
send_once_example =
    send_once session "a" plan planned (world State.prepared) prepared.1 (ready_of prepared.0)
      three_prepared
