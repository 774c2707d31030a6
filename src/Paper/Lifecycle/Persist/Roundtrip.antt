-- ===== src/Paper/Lifecycle/Persist/Roundtrip.antt =====
-- A lifecycle is read back from its record as it was.
use sharpearena.Prelude.{
  ℕ, String, ◌≡◌, refl, false, Option, none, some, List, [], ◌∷◌, map, str_eq, eq_refl,
}
use sharpearena.Prelude.Dict.{lookup}
use sharpearena.Prelude.Int.{ℤ}
use sharpearena.Python.Json.{int, str, items, fields, get, optional}
use sharpearena.Python.Errors.{ok}
use sharpearena.Python.Runtime.{Runtime}
use sharpearena.Counterfactual.Ghost.{
  Side, Disposition, GhostOrder, construct, side_name, disposition_name,
}
use sharpearena.Counterfactual.Snapshot.{order_record}
use sharpearena.Paper.Lifecycle.States.{state_of_name-state_name}
use sharpearena.Paper.Lifecycle.{LifecycleTransition, OrderLifecycle, create}
use sharpearena.Paper.Lifecycle.Persist.{
  natural, transition_json, entry, text_of, natural_of, int_of, bool_of, optional_of,
  read_transition, read_items, read_transitions, sides, dispositions, number_of, float_from,
  read_order, as_record, bound_evidence, checked_evidence, from_record,
}

module _ (F : Type 0) where
  text_back : (o : Option String) → optional_of text_of (optional {F = F} str o) ≡ ok o
  unfolding optional_of optional text_of
  text_back none = refl
  text_back (some s) = refl

  time_back : (o : Option ℕ) → optional_of natural_of (optional {F = F} natural o) ≡ ok o
  unfolding optional_of optional natural_of
  time_back none = refl
  time_back (some n) = refl

  int_back : (o : Option ℤ) → optional_of int_of (optional {F = F} int o) ≡ ok o
  unfolding optional_of optional int_of
  int_back none = refl
  int_back (some n) = refl

  read_transition-transition_json :
      (t : LifecycleTransition) → read_transition (transition_json {F = F} t) ≡ ok t
  unfolding read_transition transition_json entry get fields text_of natural_of
  read_transition-transition_json t = rw (text_back t.reason, text_back t.broker_ack_sha256) refl

  read_items-items :
      (ts : List LifecycleTransition)
      → read_items (items (map (transition_json {F = F}) ts)) ≡ ok ts
  unfolding read_items items
  read_items-items [] = refl
  read_items-items (t ∷ ts) = rw (read_transition-transition_json t, read_items-items ts) refl

side_back : (s : Side) → lookup (side_name s) sides ≡ some s
unfolding lookup side_name
side_back Side.buy = refl
side_back Side.sell = refl

disposition_back : (d : Disposition) → lookup (disposition_name d) dispositions ≡ some d
unfolding lookup disposition_name
disposition_back Disposition.executed = refl
disposition_back Disposition.risk_refused = refl
disposition_back Disposition.below_min_notional = refl
disposition_back Disposition.not_submitted = refl
disposition_back Disposition.resized = refl
disposition_back Disposition.acknowledged = refl
disposition_back Disposition.partially_filled = refl
disposition_back Disposition.submission_unknown = refl
disposition_back Disposition.broker_rejected = refl
disposition_back Disposition.broker_canceled = refl
disposition_back Disposition.broker_expired = refl

module _ {F : Type 0} ⦃r : Runtime F⦄ where
  -- What a lifecycle must satisfy to be read back: its id, and a sound receipt bound to it.
  pub record IsPersistable (l : OrderLifecycle F) : Type 0 where
    pub named : str_eq l.client_order_id "" ≡ false
    pub bound :
        (g : GhostOrder F)
        → l.execution_evidence ≡ some g
        → (construct g ≡ ok g) × (g.client_order_id ≡ some l.client_order_id)

  -- A written receipt is constructed anew.
  read_order-order_record : (g : GhostOrder F) → read_order (order_record g) ≡ construct g
  unfolding read_order order_record entry get fields text_of number_of bool_of
  read_order-order_record g =
      rw
        (
          text_back F g.client_order_id,
          text_back F g.receipt_sha256,
          side_back g.side,
          disposition_back g.disposition,
        )
        refl

  bound_back :
      (id : String) (g : GhostOrder F)
      → construct g ≡ ok g
      → g.client_order_id ≡ some id
      → bound_evidence id (order_record g) ≡ ok (some g)
  unfolding bound_evidence
  bound_back id g sound named = rw (read_order-order_record g, sound, named, eq_refl id) refl

  evidence_back :
      (id : String) (o : Option (GhostOrder F))
      → ((g : GhostOrder F) → o ≡ some g → (construct g ≡ ok g) × (g.client_order_id ≡ some id))
      → checked_evidence id (some (optional order_record o)) ≡ ok o
  unfolding checked_evidence optional order_record
  evidence_back id none h = refl
  evidence_back id (some g) h = let (sound, named) = h g refl in bound_back id g sound named

  -- A persistable lifecycle is read back from its record as it was.
  pub from_record-as_record :
      (l : OrderLifecycle F) → IsPersistable l → from_record (as_record l) ≡ ok l
  unfolding from_record as_record create entry get fields text_of float_from read_transitions
  from_record-as_record l h =
      rw
        (
          h.named,
          time_back F l.submitted_at_unix_ns,
          time_back F l.acknowledged_at_unix_ns,
          int_back F l.ack_latency_ns,
          text_back F l.replaced_by,
          evidence_back l.client_order_id l.execution_evidence h.bound,
          read_items-items F l.transitions,
          state_of_name-state_name l.state,
        )
        refl
