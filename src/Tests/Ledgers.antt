-- ===== src/Tests/Ledgers.antt =====
-- The theorems on receipts and the counterfactual ledger at concrete inputs.
use sharpearena.Prelude.{
  ℕ, ◌≡◌, refl, String, true, false, Option, none, some, List, [], ◌∷◌, ◌++◌, length,
}
use sharpearena.Prelude.Dict.{lookup}
use sharpearena.Python.Json.{Json, str, fields, get}
use sharpearena.Python.Files.{Line, row, Outcome, written, unsynced}
use sharpearena.Python.Errors.{Error, Result, ok, err, os_error}
use sharpearena.Python.Runtime.{strict_digest}
use sharpearena.Counterfactual.Ghost.{
  GhostOrder, Side, Disposition, construct, post_init, finite, is_sha256, bad_receipt,
  confirmed_notional, intended_notional, executed_notional, foregone_notional,
  signed_intended_quantity, signed_executed_quantity,
}
use sharpearena.Counterfactual.Receipt.{
  ghost_order_from_receipt, contradicts, terminal, raw_quantity, cumulative,
}
use sharpearena.Counterfactual.Receipt.Laws.{Advances, receipt-Advances}
use sharpearena.Counterfactual.Preflight
use sharpearena.Counterfactual.Preflight.{Intent, Verdict, price_of, ghost_orders_from_preflight}
use sharpearena.Counterfactual.Preflight.Laws.{Describes, preflight-IsUnsent}
use sharpearena.Counterfactual.Snapshot.{
  Snapshot, acted, snapshot, check_prices, as_record, same_acted, sum_available, collect,
  intended_pnl, pnl, pnl_loop, executed_pnl, foregone_pnl, mark, order_record,
}
use sharpearena.Counterfactual.Records.{Ledger, fresh}
use sharpearena.Counterfactual.Ledger.{
  record_decision, refresh_receipt, commit, append, validate_revision, payload, stable_digest,
  finite_prices, check_against,
}
use sharpearena.Counterfactual.Ledger.Revisions.{IsConsistent}
use sharpearena.Counterfactual.Snapshot.Acted.{IsActed}
use sharpearena.Counterfactual.Ledger.Methods.{
  fresh-IsConsistent, record_decision-IsConsistent, refresh_receipt-IsConsistent, Leaves,
  record_decision_atomic, record_decision-IsActed,
}
use sharpearena.Tests.Sample.{whole, ghost, filled_view, accepted_view}

abbrev sha : String
sha = "0123456789abcdef0123456789abcdef0123456789abcdef0123456789abcdef"

abbrev pub filled_ghost : GhostOrder ℕ
filled_ghost = record ghost {
  executed_quantity = 3;
  execution_complete = true;
  disposition = Disposition.executed;
  reason = "broker status: filled";
  receipt_sha256 = some sha;
}

filling : ghost_order_from_receipt ghost filled_view ≡ ok filled_ghost
unfolding ghost_order_from_receipt contradicts terminal raw_quantity cumulative get fields
    strict_digest construct post_init finite is_sha256 bad_receipt
filling = refl

receipt-Advances_example : Advances ghost filled_view filled_ghost
receipt-Advances_example = receipt-Advances ghost filled_view filled_ghost filling

abbrev accepted_ghost : GhostOrder ℕ
accepted_ghost = record ghost {
  disposition = Disposition.acknowledged;
  reason = "broker status: accepted";
  receipt_sha256 = some sha;
}

accepting : ghost_order_from_receipt ghost accepted_view ≡ ok accepted_ghost
unfolding ghost_order_from_receipt contradicts terminal raw_quantity cumulative get fields
    strict_digest construct post_init finite is_sha256 bad_receipt
accepting = refl

silent : raw_quantity accepted_view ≡ none
unfolding raw_quantity get fields
silent = refl

abbrev writes : List (Line ℕ) → Json ℕ → Outcome
writes lines j = written

-- The row is written, and `fsync` raises.
abbrev full_disk : List (Line ℕ) → Json ℕ → Outcome
full_disk lines j = unsynced

abbrev empty : Ledger ℕ
empty = fresh true

record_decision-IsConsistent_example :
    IsConsistent
      (record_decision writes
        (str "buy")
        (str "bars")
        (ghost ∷ [])
        (("BTC", 10) ∷ [])
        (some "k")
        empty).1
record_decision-IsConsistent_example =
    record_decision-IsConsistent writes (str "buy") (str "bars") (ghost ∷ []) (("BTC", 10) ∷ [])
      (some "k") empty (fresh-IsConsistent true)

abbrev recorded : Ledger ℕ
recorded =
    (record_decision writes (str "buy") (str "bars") (ghost ∷ []) (("BTC", 10) ∷ []) (some "k")
      empty).1

refresh_receipt-IsConsistent_example : IsConsistent (refresh_receipt writes filled_ghost recorded).1
refresh_receipt-IsConsistent_example =
    refresh_receipt-IsConsistent writes filled_ghost recorded record_decision-IsConsistent_kept
  where
    record_decision-IsConsistent_kept : IsConsistent recorded
    record_decision-IsConsistent_kept =
        record_decision-IsConsistent writes (str "buy") (str "bars") (ghost ∷ []) (("BTC", 10) ∷ [])
          (some "k") empty (fresh-IsConsistent true)

abbrev entry : Snapshot ℕ
entry = record {
  sequence = 0;
  decision_sha256 = sha;
  observation_sha256 = sha;
  orders = ghost ∷ [];
  settlement_prices = ("BTC", 10) ∷ [];
  acted = none;
  decision_key = some "k";
}

abbrev row_of : Result (Json ℕ) → Json ℕ
row_of (ok j) = j
row_of (err e) = str ""

abbrev broken : Ledger ℕ
broken = record empty { write_failed = true; file = some (row (row_of (payload entry)) ∷ []) }

abbrev disk_error : Error
disk_error = record { kind = os_error; message = "write failed" }

breaking :
    record_decision full_disk
      (str "buy")
      (str "bars")
      (ghost ∷ [])
      (("BTC", 10) ∷ [])
      (some "k")
      empty
    ≡ (err disk_error, broken)
unfolding record_decision commit append validate_revision payload stable_digest finite_prices
    snapshot check_prices acted as_record fresh lookup finite strict_digest same_acted check_against
    sum_available collect confirmed_notional intended_notional executed_notional intended_pnl pnl
    pnl_loop signed_intended_quantity signed_executed_quantity executed_pnl foregone_pnl
    foregone_notional mark order_record
breaking = refl

record_decision_atomic_example : Leaves full_disk empty broken
record_decision_atomic_example =
    record_decision_atomic full_disk (str "buy") (str "bars") (ghost ∷ []) (("BTC", 10) ∷ [])
      (some "k") empty broken disk_error breaking

recording :
    record_decision writes (str "buy") (str "bars") (ghost ∷ []) (("BTC", 10) ∷ []) (some "k") empty
    ≡ (ok entry, recorded)
unfolding record_decision commit append validate_revision payload stable_digest finite_prices
    snapshot check_prices acted as_record fresh lookup finite strict_digest same_acted check_against
    sum_available collect confirmed_notional intended_notional executed_notional intended_pnl pnl
    pnl_loop signed_intended_quantity signed_executed_quantity executed_pnl foregone_pnl
    foregone_notional mark order_record
recording = refl

record_decision-IsActed_example :
    (recorded.records ≡ empty.records ++ (entry ∷ []))
    × (entry.orders ≡ ghost ∷ [])
    × (entry.decision_key ≡ some "k")
    × (entry.sequence ≡ length empty.records)
    × IsActed (ghost ∷ []) entry.acted
record_decision-IsActed_example =
    record_decision-IsActed writes (str "buy") (str "bars") (ghost ∷ []) (("BTC", 10) ∷ [])
      (some "k") empty recorded entry recording

abbrev intents : List (Intent ℕ)
intents =
    record { symbol = "BTC"; side = Side.buy; quantity = 3 }
    ∷ record { symbol = "BTC"; side = Side.sell; quantity = 1 }
    ∷ []

abbrev verdicts : List (Option Verdict)
verdicts = some (record { allowed = false; reason = "gross-exposure-limit" }) ∷ []

abbrev value_of : Result (List (GhostOrder ℕ)) → List (GhostOrder ℕ)
value_of (ok gs) = gs
value_of (err e) = []

abbrev described : List (GhostOrder ℕ)
described = value_of (ghost_orders_from_preflight intents verdicts (("BTC", 10) ∷ []))

describing : ghost_orders_from_preflight intents verdicts (("BTC", 10) ∷ []) ≡ ok described
unfolding ghost_orders_from_preflight price_of Preflight.ghost lookup construct post_init finite
    bad_receipt
describing = refl

preflight-IsUnsent_example :
    (length described ≡ length intents) × Describes (("BTC", 10) ∷ []) verdicts intents described
preflight-IsUnsent_example =
    preflight-IsUnsent intents verdicts (("BTC", 10) ∷ []) described describing
