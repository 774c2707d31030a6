-- ===== src/Counterfactual/Ledger.antt =====
-- The methods of `CounterfactualLedger` of counterfactual.py that validate, write and remember.
pub mod Revisions
pub mod Methods
use sharpearena.Prelude.{
  ℕ, suc, String, Bool, true, false, not, ◌&&◌, ◌||◌, Option, none, some, List, [], ◌∷◌, ◌++◌, map,
  any, length, ◌==◌, str_eq, is_none, if◌then◌else◌,
}
use sharpearena.Prelude.Dict.{Dict, lookup, insert}
use sharpearena.Python.Json.{Json}
use sharpearena.Python.Files.{Line, Outcome, written, added}
use sharpearena.Python.Errors
use sharpearena.Python.Errors.{
  Result, ok, err, fail, raise_if, value_error, counterfactual_error, os_error,
}
use sharpearena.Python.Methods.{Method, pure, lift, gets, modify, ◌>>=◌, ◌>>◌}
use sharpearena.Python.Runtime.{Runtime, strict_digest}
use sharpearena.Counterfactual.Ghost.{GhostOrder, finite}
use sharpearena.Counterfactual.Records.{
  Ledger, same_side, same_optional, decision_records, remember,
}
use sharpearena.Counterfactual.Snapshot.{Snapshot, acted, snapshot, as_record}

module _ {F : Type 0} ⦃r : Runtime F⦄ where
  -- The tuples `intent` of two orders.
  unfoldable pub same_intent : GhostOrder F → GhostOrder F → Bool
  same_intent a b =
      str_eq a.symbol b.symbol
      && same_side a.side b.side
      && r.same a.intended_quantity b.intended_quantity
      && r.same a.reference_price b.reference_price

  unfoldable pub same_intents : List (GhostOrder F) → List (GhostOrder F) → Bool
  same_intents [] [] = true
  same_intents (a ∷ as') (b ∷ bs) = same_intent a b && same_intents as' bs
  same_intents _ _ = false

  -- The loop over `zip(previous.orders, entry.orders)`.
  unfoldable pub any_decrease : List (GhostOrder F) → List (GhostOrder F) → Bool
  any_decrease (before ∷ bs) (after ∷ as') =
      r.less after.executed_quantity before.executed_quantity || any_decrease bs as'
  any_decrease _ _ = false

  unfoldable pub check_against : Snapshot F → Option (Snapshot F) → Result (Unit {0})
  check_against entry none = ok tt
  check_against entry (some previous) =
      Errors.◌>>◌
        (raise_if
          (not (str_eq entry.decision_sha256 previous.decision_sha256)
            || not (str_eq entry.observation_sha256 previous.observation_sha256)
            || not (same_intents entry.orders previous.orders))
          counterfactual_error "a decision revision cannot replace its frozen intent")
        (raise_if (any_decrease previous.orders entry.orders) counterfactual_error
          "confirmed cumulative fills cannot decrease")

  abbrev pub check_key : Snapshot F → Option String → Dict (Snapshot F) → Result (Unit {0})
  check_key entry none latest = ok tt
  check_key entry (some k) latest =
      if str_eq k ""
      then fail counterfactual_error "decision_key must be nonempty"
      else check_against entry (lookup k latest)

  -- `_validate_revision`
  unfoldable pub validate_revision : Snapshot F → Ledger F → Result (Unit {0})
  validate_revision entry l =
      if entry.sequence == length l.records
      then check_key entry entry.decision_key l.latest
      else fail counterfactual_error "snapshot sequence must be contiguous"

  abbrev dumped : Json F → Option String → Result (Json F)
  dumped row none = fail value_error "Out of range float values are not JSON compliant"
  dumped row (some text) = ok row

  -- The row whose canonical bytes are the payload.
  unfoldable pub payload : Snapshot F → Result (Json F)
  payload entry = Errors.◌>>=◌ (as_record entry) (λ row. dumped row (r.dumps_strict row))

  abbrev loaded : Option (Json F) → Result String
  loaded none = fail value_error "invalid JSON"
  loaded (some value) = strict_digest value

  abbrev reloaded : (String → Option (Json F)) → Option String → Result String
  reloaded loads none = fail value_error "Out of range float values are not JSON compliant"
  reloaded loads (some text) = loaded (loads text)

  -- `_digest(json.loads(_canonical_bytes(value)))`
  unfoldable pub stable_digest : Json F → Result String
  stable_digest value = reloaded r.loads (r.dumps_strict value)

  unfoldable pub finite_prices : Dict F → Result (Dict F)
  finite_prices [] = ok []
  finite_prices ((s, price) ∷ d) =
      Errors.◌>>=◌ (finite price "settlement price")
        λ x. Errors.◌>>=◌ (finite_prices d) λ rest. ok ((s, x) ∷ rest)

  -- How an append of one more row to a file with these lines ends: the file system's say.
  module _ (writes : List (Line F) → Json F → Outcome) where
    abbrev ended : Outcome → Result (Unit {0})
    ended written = ok tt
    ended _ = fail os_error "write failed"

    abbrev is_written : Outcome → Bool
    is_written written = true
    is_written _ = false

    -- The `try` of `_append`, and its handler.
    abbrev pub write_with : Outcome → Json F → List (Line F) → Method (Ledger F) (Unit {0})
    write_with outcome row lines l = (
      ended outcome,
      record l {
        file = some (lines ++ added row outcome);
        write_failed = l.write_failed || not (is_written outcome);
      },
    )

    abbrev pub write : Json F → Option (List (Line F)) → Method (Ledger F) (Unit {0})
    write row none l = (ok tt, l)
    write row (some lines) l = write_with (writes lines row) row lines l

    -- `_append`
    unfoldable pub append : Snapshot F → Method (Ledger F) (Unit {0})
    append entry = do
      failed ← gets (λ l. l.write_failed)
      lift (
          raise_if failed counterfactual_error
            "ledger write failed previously; reopen and validate the log before continuing")
      row ← lift (payload entry)
      file ← gets (λ l. l.file)
      write row file

    -- The last three steps of `record` and of each round of `refresh_receipt`.
    unfoldable pub commit : Snapshot F → Method (Ledger F) (Unit {0})
    commit entry l = (do lift (validate_revision entry l); append entry; modify (remember entry)) l

    -- `record`
    unfoldable pub record_decision :
        Json F
        → Json F
        → List (GhostOrder F)
        → Dict F
        → Option String
        → Method (Ledger F) (Snapshot F)
    record_decision decision observation orders settlement_prices decision_key = do
      sequence ← gets (λ l. length l.records)
      decision_sha256 ← lift (stable_digest decision)
      observation_sha256 ← lift (stable_digest observation)
      prices ← lift (finite_prices settlement_prices)
      entry ← lift (
          snapshot (record {
            sequence = sequence;
            decision_sha256 = decision_sha256;
            observation_sha256 = observation_sha256;
            orders = orders;
            settlement_prices = prices;
            acted = acted orders;
            decision_key = decision_key;
          }))
      commit entry
      pure entry

    abbrev pub concerns : GhostOrder F → Snapshot F → Bool
    concerns evidence entry =
        not (is_none entry.decision_key)
        && any (λ g. same_optional g.client_order_id evidence.client_order_id) entry.orders

    abbrev pub substitute : GhostOrder F → GhostOrder F → GhostOrder F
    substitute evidence g =
        if same_optional g.client_order_id evidence.client_order_id then evidence else g

    abbrev pub revision_of : GhostOrder F → Snapshot F → ℕ → Snapshot F
    revision_of evidence entry sequence =
        let orders = map (substitute evidence) entry.orders in
        record entry { sequence = sequence; orders = orders; acted = acted orders }

    unfoldable pub revise : GhostOrder F → Snapshot F → Method (Ledger F) (Unit {0})
    revise evidence entry = do
      sequence ← gets (λ l. length l.records)
      revision ← lift (snapshot (revision_of evidence entry sequence))
      commit revision

    -- One round of the loop of `refresh_receipt`, with its `continue`.
    unfoldable pub refresh_entry : GhostOrder F → Snapshot F → Method (Ledger F) (Unit {0})
    refresh_entry evidence entry =
        if concerns evidence entry then revise evidence entry else pure tt

    unfoldable pub refresh_loop : GhostOrder F → List (Snapshot F) → Method (Ledger F) (Unit {0})
    refresh_loop evidence [] = pure tt
    refresh_loop evidence (e ∷ es) = do refresh_entry evidence e; refresh_loop evidence es

    -- `refresh_receipt`
    unfoldable pub refresh_receipt : GhostOrder F → Method (Ledger F) (Unit {0})
    refresh_receipt evidence = do
      lift (
          raise_if (is_none evidence.client_order_id) counterfactual_error
            "refresh requires a client order id")
      entries ← gets decision_records
      refresh_loop evidence entries
