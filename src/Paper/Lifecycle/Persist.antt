-- ===== src/Paper/Lifecycle/Persist.antt =====
-- `as_record` and `from_record` of `OrderLifecycle`, with those of its transitions and its receipt, as JSON
-- values. An entry of a type that `as_record` never writes there, which the source would keep as it is, is
-- an error here.
pub mod Roundtrip
use sharpearena.Prelude.{
  ℕ, String, concat, Bool, true, false, not, Option, none, some, List, [], ◌∷◌, map, if◌then◌else◌,
}
use sharpearena.Prelude.Dict.{Dict, lookup}
use sharpearena.Prelude.Int.{ℤ, pos}
use sharpearena.Python.Json.{
  Json, null, bool, int, num, str, arr, obj, Items, nil, cons, items, fields, get, optional,
}
use sharpearena.Python.Errors.{
  Result, ok, fail, raise_if, lifecycle_error, counterfactual_error, key_error, type_error,
  value_error, ◌>>=◌, ◌>>◌,
}
use sharpearena.Python.Runtime.{Runtime}
use sharpearena.Counterfactual.Ghost.{Side, Disposition, GhostOrder, construct}
use sharpearena.Counterfactual.Snapshot.{order_record}
use sharpearena.Counterfactual.Records.{same_optional}
use sharpearena.Paper.Lifecycle.States.{State, state_name, state_of_name}
use sharpearena.Paper.Lifecycle.{LifecycleTransition, OrderLifecycle, create}

module _ {F : Type 0} where
  abbrev pub natural : ℕ → Json F
  natural n = int (pos n)

  -- `LifecycleTransition.as_record`
  unfoldable pub transition_json : LifecycleTransition → Json F
  transition_json t = obj (
      fields (
        ("from_state", str t.from_state)
        ∷ ("to_state", str t.to_state)
        ∷ ("at_unix_ns", natural t.at_unix_ns)
        ∷ ("reason", optional str t.reason)
        ∷ ("broker_ack_sha256", optional str t.broker_ack_sha256)
        ∷ []))

  -- `record[key]`
  abbrev pub found : String → Option (Json F) → Result (Json F)
  found key none = fail key_error key
  found key (some j) = ok j

  unfoldable pub entry : String → Json F → Result (Json F)
  entry key (obj fs) = found key (get key fs)
  entry key _ = fail type_error "indices must be integers"

  unfoldable pub text_of : Json F → Result String
  text_of (str s) = ok s
  text_of _ = fail type_error "not a text"

  unfoldable pub natural_of : Json F → Result ℕ
  natural_of (int (pos n)) = ok n
  natural_of _ = fail type_error "not a time"

  unfoldable pub int_of : Json F → Result ℤ
  int_of (int n) = ok n
  int_of _ = fail type_error "not an integer"

  unfoldable pub bool_of : Json F → Result Bool
  bool_of (bool b) = ok b
  bool_of _ = fail counterfactual_error "execution_complete must be boolean"

  unfoldable pub optional_of : {A : Type 0} → (Json F → Result A) → Json F → Result (Option A)
  optional_of f null = ok none
  optional_of f j = (do a ← f j; ok (some a))

  -- `LifecycleTransition(...)` from the entries of one item
  unfoldable pub read_transition : Json F → Result LifecycleTransition
  read_transition item = do
    from_state ← entry "from_state" item >>= text_of
    to_state ← entry "to_state" item >>= text_of
    at_unix_ns ← entry "at_unix_ns" item >>= natural_of
    reason ← entry "reason" item >>= optional_of text_of
    broker_ack_sha256 ← entry "broker_ack_sha256" item >>= optional_of text_of
    ok (record {
      from_state = from_state;
      to_state = to_state;
      at_unix_ns = at_unix_ns;
      reason = reason;
      broker_ack_sha256 = broker_ack_sha256;
    })

  unfoldable pub read_items : Items F → Result (List LifecycleTransition)
  read_items nil = ok []
  read_items (cons j js) = do t ← read_transition j; ts ← read_items js; ok (t ∷ ts)

  unfoldable pub read_transitions : Json F → Result (List LifecycleTransition)
  read_transitions (arr js) = read_items js
  read_transitions _ = fail type_error "not a list"

abbrev pub sides : Dict Side
sides = ("buy", Side.buy) ∷ ("sell", Side.sell) ∷ []

abbrev pub dispositions : Dict Disposition
dispositions =
    ("executed", Disposition.executed)
    ∷ ("risk_refused", Disposition.risk_refused)
    ∷ ("below_min_notional", Disposition.below_min_notional)
    ∷ ("not_submitted", Disposition.not_submitted)
    ∷ ("resized", Disposition.resized)
    ∷ ("acknowledged", Disposition.acknowledged)
    ∷ ("partially_filled", Disposition.partially_filled)
    ∷ ("submission_unknown", Disposition.submission_unknown)
    ∷ ("broker_rejected", Disposition.broker_rejected)
    ∷ ("broker_canceled", Disposition.broker_canceled)
    ∷ ("broker_expired", Disposition.broker_expired)
    ∷ []

-- A text that must be one of these.
abbrev pub among : {A : Type 0} → String → Option A → Result A
among message none = fail counterfactual_error message
among message (some a) = ok a

abbrev pub known : String → Option State → Result State
known name none = fail lifecycle_error (concat "unknown persisted lifecycle state " name)
known name (some s) = ok s

module _ {F : Type 0} ⦃r : Runtime F⦄ where
  -- A number that `_finite` accepts as one.
  unfoldable pub number_of : Json F → Result F
  number_of (num x) = ok x
  number_of (int n) = ok (r.of_int n)
  number_of _ = fail counterfactual_error "must be a number"

  abbrev parsed : Option F → Result F
  parsed none = fail value_error "could not convert string to float"
  parsed (some x) = ok x

  -- `float(...)`
  unfoldable pub float_from : Json F → Result F
  float_from (num x) = ok x
  float_from (int n) = ok (r.of_int n)
  float_from (bool b) = ok (if b then r.one else r.zero)
  float_from (str s) = parsed (r.parse_float s)
  float_from _ = fail type_error "float() argument must be a string or a real number"

  -- `GhostOrder(**{key: evidence[key] for key in GhostOrder.__dataclass_fields__})`
  unfoldable pub read_order : Json F → Result (GhostOrder F)
  read_order evidence = do
    symbol ← entry "symbol" evidence >>= text_of
    side_text ← entry "side" evidence >>= text_of
    intended_quantity ← entry "intended_quantity" evidence >>= number_of
    executed_quantity ← entry "executed_quantity" evidence >>= number_of
    reference_price ← entry "reference_price" evidence >>= number_of
    disposition_text ← entry "disposition" evidence >>= text_of
    reason ← entry "reason" evidence >>= text_of
    execution_complete ← entry "execution_complete" evidence >>= bool_of
    client_order_id ← entry "client_order_id" evidence >>= optional_of text_of
    receipt_sha256 ← entry "receipt_sha256" evidence >>= optional_of text_of
    side ← among "side must be buy or sell" (lookup side_text sides)
    disposition ← among "unknown disposition" (lookup disposition_text dispositions)
    construct (record {
      symbol = symbol;
      side = side;
      intended_quantity = intended_quantity;
      executed_quantity = executed_quantity;
      reference_price = reference_price;
      disposition = disposition;
      reason = reason;
      execution_complete = execution_complete;
      client_order_id = client_order_id;
      receipt_sha256 = receipt_sha256;
    })

  -- `as_record`
  unfoldable pub as_record : OrderLifecycle F → Json F
  as_record l = obj (
      fields (
        ("client_order_id", str l.client_order_id)
        ∷ ("state", str (state_name l.state))
        ∷ ("filled_quantity", num l.filled_quantity)
        ∷ ("submitted_at_unix_ns", optional natural l.submitted_at_unix_ns)
        ∷ ("acknowledged_at_unix_ns", optional natural l.acknowledged_at_unix_ns)
        ∷ ("ack_latency_ns", optional int l.ack_latency_ns)
        ∷ ("replaced_by", optional str l.replaced_by)
        ∷ ("transitions", arr (items (map transition_json l.transitions)))
        ∷ ("execution_evidence", optional order_record l.execution_evidence)
        ∷ []))

  -- `record.get("execution_evidence")`
  abbrev pub evidence_entry : Json F → Option (Json F)
  evidence_entry (obj fs) = get "execution_evidence" fs
  evidence_entry _ = none

  unfoldable pub bound_evidence : String → Json F → Result (Option (GhostOrder F))
  bound_evidence id j = do
    evidence ← read_order j
    raise_if (not (same_optional evidence.client_order_id (some id))) lifecycle_error
        "persisted receipt belongs to a different client order id"
    ok (some evidence)

  unfoldable pub checked_evidence : String → Option (Json F) → Result (Option (GhostOrder F))
  checked_evidence id none = ok none
  checked_evidence id (some null) = ok none
  checked_evidence id (some j) = bound_evidence id j

  -- `from_record`
  unfoldable pub from_record : Json F → Result (OrderLifecycle F)
  from_record rec = do
    client_order_id ← entry "client_order_id" rec >>= text_of
    lifecycle ← create client_order_id
    state_text ← entry "state" rec >>= text_of
    filled_quantity ← entry "filled_quantity" rec >>= float_from
    submitted_at_unix_ns ← entry "submitted_at_unix_ns" rec >>= optional_of natural_of
    acknowledged_at_unix_ns ← entry "acknowledged_at_unix_ns" rec >>= optional_of natural_of
    ack_latency_ns ← entry "ack_latency_ns" rec >>= optional_of int_of
    replaced_by ← entry "replaced_by" rec >>= optional_of text_of
    evidence ← checked_evidence client_order_id (evidence_entry rec)
    transitions ← entry "transitions" rec >>= read_transitions
    state ← known state_text (state_of_name state_text)
    ok (record lifecycle {
      state = state;
      filled_quantity = filled_quantity;
      submitted_at_unix_ns = submitted_at_unix_ns;
      acknowledged_at_unix_ns = acknowledged_at_unix_ns;
      ack_latency_ns = ack_latency_ns;
      replaced_by = replaced_by;
      transitions = transitions;
      execution_evidence = evidence;
    })
