-- ===== src/Paper/Session/Avoids.antt =====
-- What the session's queries leave alone: a state into which none of their marks leads.
use sharpearena.Prelude.{ℕ, String, ◌≢◌, Option, none, some, Bool-cases, inl, inr}
use sharpearena.Python.Json.{Json, Fields}
use sharpearena.Python.Methods.{
  Keeps, pure-Keeps, lift-Keeps, gets-Keeps, bind-Keeps, if-Keeps, modify,
}
use sharpearena.Python.Runtime.{Runtime}
use sharpearena.Counterfactual.Ghost.{GhostOrder}
use sharpearena.Paper.Lifecycle.States.{State, is_allowed}
use sharpearena.Paper.Lifecycle.{
  OrderLifecycle, transition, moved, fill, mark_filled, mark_partially_filled, mark_rejected,
}
use sharpearena.Paper.Session.{follow_status, settle, apply_broker_view}

abbrev pub Avoids : {F : Type 0} → State → OrderLifecycle F → Type 0
Avoids s l = l.state ≢ s

module _ {F : Type 0} ⦃r : Runtime F⦄ (s : State) where
  pub transition-Avoids :
      (to : State) (t : ℕ) (why : Option String) (ack : Option (Fields F))
      → to ≢ s
      → Keeps (Avoids s) (transition to t why ack)
  unfolding transition moved Keeps
  transition-Avoids to t why ack n l h = elim (Bool-cases (is_allowed l.state to)) [
    | inl e ↦ rw e n
    | inr e ↦ rw e h
  ]

  settle-Avoids : (e : Option (GhostOrder F)) → Keeps (Avoids s) (modify (settle e))
  unfolding Keeps
  settle-Avoids none l h = h
  settle-Avoids (some g) l h = h

  fill-Avoids : (q : F) → Keeps (Avoids s) (modify (fill q))
  unfolding Keeps
  fill-Avoids q l h = h

  module _ (nf : State.filled ≢ s) (np : State.partially_filled ≢ s) (nr : State.rejected ≢ s) where
    follow_status-Avoids :
        (status : String) (filled : F) (view : Fields F) (t : ℕ)
        → Keeps (Avoids s) (follow_status status filled view t)
    unfolding follow_status mark_filled mark_partially_filled mark_rejected
    follow_status-Avoids status filled view t = search (
      if-Keeps (Avoids s),
      bind-Keeps (Avoids s),
      transition-Avoids,
      fill-Avoids,
      pure-Keeps (Avoids s),
      nf,
      np,
      nr,
    )

    pub apply_broker_view-Avoids :
        (text : Json F → String) (view : Fields F) (t : ℕ)
        → Keeps (Avoids s) (apply_broker_view text view t)
    unfolding apply_broker_view
    apply_broker_view-Avoids text view t = search (
      bind-Keeps (Avoids s),
      lift-Keeps (Avoids s),
      gets-Keeps (Avoids s),
      follow_status-Avoids,
      settle-Avoids,
    )
