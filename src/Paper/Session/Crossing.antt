-- ===== src/Paper/Session/Crossing.antt =====
-- What holds when the session calls its broker.
use mathlib.Core.Path.{subst}
use sharpearena.Prelude.{
  if◌then◌else◌, ℕ, String, ◌≡◌, ◌≢◌, sym, ◌∙◌, ap, none, some, arith, eq_refl, Option-cases, inl,
  inr,
}
use sharpearena.Prelude.Dict.{lookup, lookup-insert}
use sharpearena.Python.Errors.{ok}
use sharpearena.Python.Methods.{
  Method, Keeps, pure-Keeps, pure, ◌>>=◌, Ensures, bind-Ensures, Keeps-Ensures, Ensures-any,
}
use sharpearena.Python.Runtime.{Runtime}
use sharpearena.Paper.Lifecycle.States.{State}
use sharpearena.Paper.Lifecycle.{OrderLifecycle, transition, moved, mark_submitted, revise_evidence}
use sharpearena.Paper.Store
use sharpearena.Paper.Store.{save}
use sharpearena.Paper.Session.{Session, World, on_lifecycle, now, save_lifecycles}
use sharpearena.Paper.Session.Present.{on_lifecycle-found}
use sharpearena.Paper.Session.Record.{Planned, Plan, record_execution}
use sharpearena.Paper.Session.Submit.{Ready, seal, prepare}

module _ {F B : Type 0} (id : String) where
  -- The store holds the order as submitted.
  abbrev pub Submitted : World F B → Type 0
  Submitted w =
      (l : OrderLifecycle F) × (Store.get id w.lifecycles ≡ some l) × (l.state ≡ State.submitted)

module _ {F B : Type 0} ⦃r : Runtime F⦄ (id : String) where
  -- So does the file, which is the whole store.
  abbrev pub Saved : World F B → Type 0
  Saved w = Submitted id w × (save w.lifecycles ≡ w.lifecycles)

module _ {F : Type 0} ⦃r : Runtime F⦄ where
  abbrev IsSubmitted : OrderLifecycle F → Type 0
  IsSubmitted l = l.state ≡ State.submitted

  pub revise_evidence_state :
      (f : _) (l : OrderLifecycle F) → (revise_evidence f l).1.state ≡ l.state
  unfolding revise_evidence
  revise_evidence_state f l = ground arith

  mark_submitted_state :
      (t : ℕ) (l : OrderLifecycle F)
      → (mark_submitted t l).0 ≡ ok tt
      → (mark_submitted t l).1.state ≡ State.submitted
  unfolding mark_submitted transition moved revise_evidence
  mark_submitted_state t l h = ground arith

module _ {F B : Type 0} ⦃r : Runtime F⦄ (session : Session F B) (id : String) where
  get-put :
      (l : OrderLifecycle F) (store : Store.LifecycleStore F)
      → Store.get id (Store.put id l store) ≡ some l
  unfolding Store.get Store.put
  get-put l store =
      lookup-insert id id l store.entries
      ∙ ap (λ b. if b then some l else lookup id store.entries) (eq_refl id)

  on_lifecycle_missing :
      {A : Type 0} (m : Method (OrderLifecycle F) A) (w : World F B) (a : A)
      → Store.get id w.lifecycles ≡ none
      → (on_lifecycle session id m w).0 ≢ ok a
  unfolding on_lifecycle
  on_lifecycle_missing m w a e h = ground arith

  Submitted-Ensures :
      (t : ℕ) → Ensures (λ _. Unit {0}) (Submitted id) (on_lifecycle session id (mark_submitted t))
  unfolding Ensures
  Submitted-Ensures t w _ a h = elim (Option-cases (Store.get id w.lifecycles)) [
    | inl e ↦ absurd (on_lifecycle_missing (mark_submitted t) w a e h)
    | inr (l, e) ↦
        let found = on_lifecycle-found session id State.prepared (mark_submitted t) w l e in
        subst (λ z. Submitted id z.1) (sym found)
          (
            (mark_submitted t l).1,
            get-put (mark_submitted t l).1 w.lifecycles,
            mark_submitted_state t l (sym (ap (λ z. z.0) found) ∙ h),
          )
  ]

  saving-Ensures : Ensures (Submitted id) (Saved id) (save_lifecycles session)
  unfolding save_lifecycles save Ensures Store.get
  saving-Ensures w h a e = (h, ground arith)

  module _ (plan : Plan F) where
    record_execution_store :
        (w : World F B) → (record_execution session plan w).1.lifecycles ≡ w.lifecycles
    unfolding record_execution
    record_execution_store w = ground arith

    record_execution-Saved : Keeps (Saved id) (record_execution session plan)
    unfolding Keeps
    record_execution-Saved w h =
        subst
          (λ z.
            ((l : OrderLifecycle F) × (Store.get id z ≡ some l) × (l.state ≡ State.submitted))
            × (save z ≡ z))
          (sym (record_execution_store w)) h

    abbrev Top : World F B → Type 0
    Top w = Unit

    skip :
        {A C : Type 0} (m : Method (World F B) A) (f : A → Method (World F B) C)
        → ((a : A) → Ensures Top (Saved id) (f a))
        → Ensures Top (Saved id) (m >>= f)
    skip m f k = bind-Ensures Top Top (Saved id) m f (Ensures-any Top Top m (λ _. tt)) k

    seal-Ensures : (ready : Ready F) → Ensures Top (Saved id) (seal session plan ready id)
    unfolding seal
    seal-Ensures ready = skip (now session) _ λ moment.
        bind-Ensures Top (Submitted id) (Saved id) (on_lifecycle session id (mark_submitted moment))
          _ (Submitted-Ensures moment)
          λ _.
            bind-Ensures (Submitted id) (Saved id) (Saved id) (save_lifecycles session) _
              saving-Ensures
              λ _.
                bind-Ensures (Saved id) (Saved id) (Saved id) (record_execution session plan) _
                  (Keeps-Ensures (Saved id) (Saved id) (record_execution session plan)
                    record_execution-Saved)
                  λ _.
                    Keeps-Ensures (Saved id) (Saved id) (pure ready) (pure-Keeps (Saved id) ready)

    prepare-Ensures : (p : Planned F) → Ensures Top (Saved id) (prepare session plan p id)
    unfolding prepare
    prepare-Ensures p = search (skip, seal-Ensures) depth 20

    -- An order that was made ready to be sent is submitted in the store, and the file of the store
    -- is what `save` writes of it.
    pub prepare_saved :
        (p : Planned F) (w w' : World F B) (ready : Ready F)
        → prepare session plan p id w ≡ (ok ready, w')
        → (l : OrderLifecycle F) × (Store.get id w'.lifecycles ≡ some l)
          × (l.state ≡ State.submitted)
          × (save w'.lifecycles ≡ w'.lifecycles)
    unfolding Ensures
    prepare_saved p w w' ready h =
        let ((l, e, k), f) =
          subst (Saved id) (ap (λ z. z.1) h) (prepare-Ensures p w tt ready (ap (λ z. z.0) h)) in
        (l, e, k, f)
