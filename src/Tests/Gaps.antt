-- ===== src/Tests/Gaps.antt =====
-- The gap of a ledger with two snapshots of one decision.
use sharpearena.Prelude.{ℕ, ◌≡◌, refl, true, false, none, some, [], ◌∷◌}
use sharpearena.Prelude.Dict.{lookup}
use sharpearena.Python.Errors.{ok}
use sharpearena.Counterfactual.Ghost.{
  disposition_name, finite, confirmed_notional, intended_notional, executed_notional,
  signed_intended_quantity, signed_executed_quantity,
}
use sharpearena.Counterfactual.Snapshot.{
  same_acted, sum_available, collect, intended_pnl, pnl, pnl_loop, executed_pnl, foregone_pnl, mark,
}
use sharpearena.Counterfactual.Gap
use sharpearena.Counterfactual.Gap.{
  SelectionGap, selection_gap, bump, each, count_acted, count_orders, count_entries, sum_of,
  confirmed_of,
}
use sharpearena.Counterfactual.Gap.Counts.{IsBalanced, selection_gap-IsBalanced}
use sharpearena.Counterfactual.Records.{Ledger, decision_records, latest_of, upsert}
use sharpearena.Tests.Ledgers.{filled_ghost}
use sharpearena.Tests.Sample.{whole, ghost}

abbrev revised : Ledger ℕ
revised = record {
  records =
      record {
        sequence = 0;
        decision_sha256 = "d";
        observation_sha256 = "o";
        orders = ghost ∷ [];
        settlement_prices = ("BTC", 11) ∷ [];
        acted = none;
        decision_key = some "k";
      }
      ∷ record {
        sequence = 1;
        decision_sha256 = "d";
        observation_sha256 = "o";
        orders = filled_ghost ∷ [];
        settlement_prices = ("BTC", 11) ∷ [];
        acted = some true;
        decision_key = some "k";
      }
      ∷ [];
  latest = [];
  write_failed = false;
  file = none;
}

abbrev gap : SelectionGap ℕ
gap = record {
  decisions = 1;
  acted_decisions = 1;
  unacted_decisions = 0;
  unknown_decisions = 0;
  snapshots = 2;
  intended_notional = some 30;
  confirmed_notional = some 30;
  executed_notional = some 30;
  intended_pnl = some 3;
  executed_pnl = some 3;
  foregone_pnl = some 0;
  dispositions =
      ("acknowledged", 0)
      ∷ ("below_min_notional", 0)
      ∷ ("broker_canceled", 0)
      ∷ ("broker_expired", 0)
      ∷ ("broker_rejected", 0)
      ∷ ("executed", 1)
      ∷ ("not_submitted", 0)
      ∷ ("partially_filled", 0)
      ∷ ("resized", 0)
      ∷ ("risk_refused", 0)
      ∷ ("submission_unknown", 0)
      ∷ [];
}

gap_made : selection_gap revised ≡ ok gap
unfolding selection_gap decision_records latest_of upsert bump each count_acted count_orders
    count_entries sum_of Gap.intended_notional confirmed_of Gap.executed_notional disposition_name
    finite same_acted sum_available collect confirmed_notional intended_notional executed_notional
    intended_pnl pnl pnl_loop signed_intended_quantity signed_executed_quantity executed_pnl
    foregone_pnl mark lookup
gap_made = refl

selection_gap-IsBalanced_example : IsBalanced revised gap
selection_gap-IsBalanced_example = selection_gap-IsBalanced revised gap gap_made
