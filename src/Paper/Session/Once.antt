-- ===== src/Paper/Session/Once.antt =====
-- An order that was sent is never ready to be sent again, however its sending ended.
use mathlib.Core.Path.{subst}
use sharpearena.Prelude.{
  ℕ, String, ◌≡◌, ◌≢◌, refl, sym, ◌∙◌, false, Option, none, some, ◌∷◌, [], arith,
}
use sharpearena.Python.Json.{Json, Fields}
use sharpearena.Python.Errors.{Error, Result, ok, err}
use sharpearena.Python.Methods.{
  Method, Keeps, bind-Keeps, if-Keeps, pure-Keeps, lift-Keeps, gets-Keeps, modify, pure, ◌>>=◌,
  kept, continue,
}
use sharpearena.Python.Runtime.{Runtime}
use sharpearena.Counterfactual.Ghost.{GhostOrder}
use sharpearena.Paper.Lifecycle.States.{State, same_state-eq}
use sharpearena.Paper.Lifecycle.{
  OrderLifecycle, revise_evidence, is_submittable, mark_reconciled_absent, mark_acknowledged,
  transition, acknowledge,
}
use sharpearena.Paper.Store
use sharpearena.Paper.Store.{save}
use sharpearena.Paper.Session.{Session, World, on_lifecycle, apply_broker_view}
use sharpearena.Paper.Session.Avoids.{Avoids, transition-Avoids, apply_broker_view-Avoids}
use sharpearena.Paper.Session.Present.{
  Present, on_lifecycle-Present, find_order-Present, report-Present, resume-Present, now-Present,
  append-Present, save_lifecycles-Present, conclude_found-Present, unknown-Avoids, store-Present,
}
use sharpearena.Paper.Session.Reconcile.{conclude, ask, reconcile}
use sharpearena.Paper.Session.Record.{Planned, Plan}
use sharpearena.Paper.Session.Submit.{
  Ready, attempt, prepare, call_broker, failed_with, lost, misread, judged, accept, heard, cross,
  send,
}
use sharpearena.Paper.Session.Crossing.{revise_evidence_state, prepare_saved}

abbrev Unsendable : {F : Type 0} → OrderLifecycle F → Type 0
Unsendable = Avoids State.prepared

module _ {F : Type 0} ⦃r : Runtime F⦄ where
  to-Unsendable :
      (to : State) (t : ℕ) (why : Option String) (ack : Option (Fields F))
      → to ≢ State.prepared
      → Keeps Unsendable (transition to t why ack)
  to-Unsendable = transition-Avoids State.prepared

  revise-Unsendable : (f : GhostOrder F → GhostOrder F) → Keeps Unsendable (revise_evidence f)
  unfolding Keeps
  revise-Unsendable f l h e = h (sym (revise_evidence_state f l) ∙ e)

module _ (F : Type 0) ⦃r : Runtime F⦄ where
  absent-Unsendable : (t : ℕ) → Keeps {S = OrderLifecycle F} Unsendable (mark_reconciled_absent t)
  unfolding mark_reconciled_absent
  absent-Unsendable t =
      let n : State.reconciled_absent ≢ State.prepared = λ e. cc in
      search (
        bind-Keeps {S = OrderLifecycle F} Unsendable,
        gets-Keeps {S = OrderLifecycle F} Unsendable,
        lift-Keeps {S = OrderLifecycle F} Unsendable,
        to-Unsendable,
        revise-Unsendable,
        n,
      )

  stamp-Unsendable : (t : ℕ) → Keeps {S = OrderLifecycle F} Unsendable (modify (acknowledge t))
  unfolding Keeps
  stamp-Unsendable t l h = h

module _ {F : Type 0} ⦃r : Runtime F⦄ where
  acknowledged-Unsendable : (ack : Fields F) (t : ℕ) → Keeps Unsendable (mark_acknowledged ack t)
  unfolding mark_acknowledged
  acknowledged-Unsendable ack t =
      let n : State.acknowledged ≢ State.prepared = λ e. cc in
      search (bind-Keeps Unsendable, to-Unsendable, stamp-Unsendable F, n)

  view-Unsendable :
      (text : Json F → String) (view : Fields F) (t : ℕ)
      → Keeps Unsendable (apply_broker_view text view t)
  view-Unsendable = apply_broker_view-Avoids State.prepared (λ e. cc) (λ e. cc) (λ e. cc)

attempt-Keeps : {S A : Type 0} (P : S → Type 0) (m : Method S A) → Keeps P m → Keeps P (attempt m)
unfolding Keeps
attempt-Keeps P m k = k

module _ {F B : Type 0} ⦃r : Runtime F⦄ (session : Session F B) (id : String) where
  abbrev Sent : World F B → Type 0
  Sent = Present id State.prepared

  on-Sent :
      {A : Type 0} (m : Method (OrderLifecycle F) A)
      → Keeps (Avoids State.prepared) m
      → Keeps Sent (on_lifecycle session id m)
  on-Sent = on_lifecycle-Present session id State.prepared

  conclude-Sent : (found : Option (Fields F)) → Keeps Sent (conclude session id found)
  unfolding conclude
  conclude-Sent none =
      search (bind-Keeps Sent, now-Present session id State.prepared, on-Sent, absent-Unsendable F)
  conclude-Sent (some found) =
      conclude_found-Present session id State.prepared (λ e. cc) (λ e. cc) (λ e. cc) (λ e. cc) found

  ask-Sent : Keeps Sent (ask session id)
  unfolding ask
  ask-Sent = search (
    bind-Keeps Sent,
    find_order-Present session id State.prepared,
    conclude-Sent,
    report-Present session id State.prepared,
  )

  reconcile-Sent : Keeps Sent (reconcile session id)
  unfolding reconcile
  reconcile-Sent =
      let n : State.submission_unknown ≢ State.prepared = λ e. cc in
      search
        (
          bind-Keeps Sent,
          lift-Keeps Sent,
          on-Sent,
          gets-Keeps Unsendable,
          resume-Present session id State.prepared,
          ask-Sent,
          n,
        )
        depth 12

  module _ (plan : Plan F) where
    call_broker_store :
        (o : _) (w : World F B) → (call_broker session plan o w).1.lifecycles ≡ w.lifecycles
    unfolding call_broker
    call_broker_store o w = refl

    call_broker-Sent : (o : _) → Keeps Sent (call_broker session plan o)
    call_broker-Sent o =
        store-Present session id State.prepared (call_broker session plan o) (call_broker_store o)

    failed_with-Sent :
        (ready : Ready F) (status : String) (e : Error)
        → Keeps Sent (failed_with session plan ready id status e)
    unfolding failed_with
    failed_with-Sent ready status e = search (
      bind-Keeps Sent,
      lift-Keeps Sent,
      on-Sent,
      gets-Keeps Unsendable,
      append-Present session id State.prepared,
    )

    lost-Sent : (ready : Ready F) (e : Error) → Keeps Sent (lost session plan ready id e)
    unfolding lost
    lost-Sent ready e =
        let n : State.submission_unknown ≢ State.prepared = λ e. cc in
        search
          (
            if-Keeps Sent,
            bind-Keeps Sent,
            now-Present session id State.prepared,
            on-Sent,
            unknown-Avoids session id State.prepared,
            save_lifecycles-Present session id State.prepared,
            reconcile-Sent,
            failed_with-Sent,
            n,
          )
          depth 20

    misread-Sent : (ready : Ready F) (e : Error) → Keeps Sent (misread session plan ready id e)
    unfolding misread
    misread-Sent ready e =
        search
          (
            if-Keeps Sent,
            bind-Keeps Sent,
            lift-Keeps Sent,
            on-Sent,
            revise-Unsendable,
            save_lifecycles-Present session id State.prepared,
            failed_with-Sent,
          )
          depth 20

    judged-Sent :
        (ready : Ready F) (response : Fields F) (res : Result (Unit {0}))
        → Keeps Sent (judged session plan ready id response res)
    unfolding judged
    judged-Sent ready response (err e) = misread-Sent ready e
    judged-Sent ready response (ok u) = search (
      bind-Keeps Sent,
      pure-Keeps Sent,
      on-Sent,
      gets-Keeps Unsendable,
      save_lifecycles-Present session id State.prepared,
      append-Present session id State.prepared,
    )

    accept-Sent :
        (ready : Ready F) (response : Fields F) → Keeps Sent (accept session plan ready id response)
    unfolding accept
    accept-Sent ready response =
        search
          (
            bind-Keeps Sent,
            attempt-Keeps Sent,
            now-Present session id State.prepared,
            on-Sent,
            acknowledged-Unsendable,
            view-Unsendable,
            judged-Sent,
          )
          depth 20

    heard-Sent :
        (ready : Ready F) (res : Result (Fields F)) → Keeps Sent (heard session plan ready id res)
    unfolding heard
    heard-Sent ready (ok response) = accept-Sent ready response
    heard-Sent ready (err e) = lost-Sent ready e

    cross-Sent : (ready : Ready F) → Keeps Sent (cross session plan id ready)
    unfolding cross
    cross-Sent ready = search (bind-Keeps Sent, attempt-Keeps Sent, call_broker-Sent, heard-Sent)

    rest-Sent :
        (ready : Ready F)
        → Keeps Sent (cross session plan id ready >>= λ response. pure (response ∷ []))
    rest-Sent ready = search (bind-Keeps Sent, cross-Sent, pure-Keeps Sent)

    not_prepared : (l : OrderLifecycle F) → Avoids State.prepared l → is_submittable l ≡ false
    unfolding is_submittable
    not_prepared l h = grind (arith, same_state-eq l.state State.prepared)

    not_ready :
        (w : World F B) (l : OrderLifecycle F) → l.state ≡ State.submitted → Avoids State.prepared l
    not_ready w l e = λ k. ground arith

    -- Once an order was made ready to be sent, however its sending ends: the store holds its
    -- lifecycle, and that is not submittable.
    pub send_once :
        (p : Planned F) (w w' : World F B) (ready : Ready F)
        → prepare session plan p id w ≡ (ok ready, w')
        → (l : OrderLifecycle F) × (Store.get id (send session plan p id w).1.lifecycles ≡ some l)
          × (is_submittable l ≡ false)
    unfolding send
    send_once p w w' ready h =
        let (l, e, k, f) = prepare_saved session id plan p w w' ready h in
        let sent =
          kept Sent (cross session plan id ready >>= λ response. pure (response ∷ []))
            (rest-Sent ready) w' (l, e, not_ready w l k) in
        let (l', e', k') =
          subst
            (λ z.
              Sent
                (continue z.0 (λ x. cross session plan id x >>= λ response. pure (response ∷ []))
                  z.1).1)
            (sym h) sent in
        (l', e', not_prepared l' k')
