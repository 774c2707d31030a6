-- ===== src/Paper/Session/Present.antt =====
-- A lifecycle that the store holds outside a state stays so under the session's queries.
use mathlib.Core.Path.{subst}
use sharpearena.Prelude.{
  if◌then◌else◌, ℕ, String, ◌≡◌, ◌≢◌, sym, ◌∙◌, ap, Option, none, some, List, arith, eq_refl,
}
use sharpearena.Prelude.Dict.{lookup, lookup-insert}
use sharpearena.Python.Json.{Json, Fields}
use sharpearena.Python.Errors.{Result}
use sharpearena.Python.Methods.{Method, Keeps, bind-Keeps, if-Keeps, pure-Keeps, gets-Keeps}
use sharpearena.Python.Runtime.{Runtime}
use sharpearena.Counterfactual.Ghost.{GhostOrder}
use sharpearena.Paper.Lifecycle.States.{State}
use sharpearena.Paper.Lifecycle.{OrderLifecycle, mark_submission_unknown, mark_reconciled_accepted}
use sharpearena.Paper.Store
use sharpearena.Paper.Store.{save}
use sharpearena.Paper.Session.{
  Session, World, put_back, on_lifecycle, now, envelope, append, save_lifecycles,
}
use sharpearena.Paper.Session.Avoids.{Avoids, transition-Avoids, apply_broker_view-Avoids}
use sharpearena.Paper.Session.Reconcile.{
  find_order, refresh_ledger, refresh_evidence, resume, conclude, report,
}

module _ {F B : Type 0} (id : String) (s : State) where
  -- The store holds a lifecycle under this id that is not in this state.
  abbrev pub Present : World F B → Type 0
  Present w = (l : OrderLifecycle F) × (Store.get id w.lifecycles ≡ some l) × Avoids s l

module _ {F B : Type 0} ⦃r : Runtime F⦄ (session : Session F B) (id : String) (s : State) where
  pub on_lifecycle-found :
      {A : Type 0} (m : Method (OrderLifecycle F) A) (w : World F B) (l : OrderLifecycle F)
      → Store.get id w.lifecycles ≡ some l
      → on_lifecycle session id m w ≡ put_back session id w (m l)
  unfolding on_lifecycle
  on_lifecycle-found m w l e = ground arith

  put_back-Present :
      {A : Type 0} (w : World F B) (p : Result A × OrderLifecycle F)
      → Avoids s p.1
      → Present id s (put_back session id w p).1
  unfolding Store.get Store.put
  put_back-Present w (a, l) h = (
    l,
    lookup-insert id id l w.lifecycles.entries
        ∙ ap (λ b. if b then some l else lookup id w.lifecycles.entries) (eq_refl id),
    h,
  )

  pub on_lifecycle-Present :
      {A : Type 0} (m : Method (OrderLifecycle F) A)
      → Keeps (Avoids s) m
      → Keeps (Present id s) (on_lifecycle session id m)
  unfolding Keeps
  on_lifecycle-Present m k w (l, e, h) =
      subst (λ z. Present id s z.1) (sym (on_lifecycle-found m w l e))
        (put_back-Present w (m l) (k l h))

  pub store-Present :
      {A : Type 0} (m : Method (World F B) A)
      → ((w : World F B) → (m w).1.lifecycles ≡ w.lifecycles)
      → Keeps (Present id s) m
  unfolding Keeps
  store-Present m e w (l, f, h) = (l, ap (Store.get id) (e w) ∙ f, h)

  pub now-Present : Keeps (Present id s) (now session)
  unfolding now Keeps
  now-Present w h = h

  pub save_lifecycles-Present : Keeps (Present id s) (save_lifecycles session)
  unfolding save_lifecycles save Keeps Store.get
  save_lifecycles-Present w h = h

  append_store :
      (entries : List (String × Json F)) (w : World F B)
      → (append session entries w).1.lifecycles ≡ w.lifecycles
  unfolding append
  append_store entries w = ground arith

  pub append-Present :
      (entries : List (String × Json F)) → Keeps (Present id s) (append session entries)
  append-Present entries = store-Present (append session entries) (append_store entries)

  pub envelope-Present : (t : String) → Keeps (Present id s) (envelope session t)
  unfolding envelope
  envelope-Present t = search (bind-Keeps (Present id s), now-Present, pure-Keeps (Present id s))

  find_order_store :
      (i : String) (w : World F B) → (find_order session i w).1.lifecycles ≡ w.lifecycles
  unfolding find_order
  find_order_store i w = ground arith

  pub find_order-Present : (i : String) → Keeps (Present id s) (find_order session i)
  find_order-Present i = store-Present (find_order session i) (find_order_store i)

  refresh_ledger_store :
      (e : Option (GhostOrder F)) (w : World F B)
      → (refresh_ledger session e w).1.lifecycles ≡ w.lifecycles
  unfolding refresh_ledger
  refresh_ledger_store e w = ground arith

  pub refresh_ledger-Present :
      (e : Option (GhostOrder F)) → Keeps (Present id s) (refresh_ledger session e)
  refresh_ledger-Present e = store-Present (refresh_ledger session e) (refresh_ledger_store e)

  pub refresh_evidence-Present : Keeps (Present id s) (refresh_evidence session id)
  unfolding refresh_evidence
  refresh_evidence-Present = search (
    bind-Keeps (Present id s),
    on_lifecycle-Present,
    gets-Keeps (Avoids s),
    refresh_ledger-Present,
  )

  pub report-Present : (found : Option (Fields F)) → Keeps (Present id s) (report session id found)
  unfolding report
  report-Present found =
      search
        (
          bind-Keeps (Present id s),
          pure-Keeps (Present id s),
          save_lifecycles-Present,
          envelope-Present,
          append-Present,
          refresh_evidence-Present,
          on_lifecycle-Present,
          gets-Keeps (Avoids s),
        )
        depth 20

  pub unknown-Avoids :
      (why : String) (t : ℕ)
      → State.submission_unknown ≢ s
      → Keeps (Avoids {F = F} s) (mark_submission_unknown why t)
  unfolding mark_submission_unknown
  unknown-Avoids why t n = transition-Avoids s State.submission_unknown t (some why) none n

  pub resume-Present :
      (state : State)
      → State.submission_unknown ≢ s
      → Keeps (Present id s) (resume session id state)
  unfolding resume
  resume-Present state n = search (
    if-Keeps (Present id s),
    bind-Keeps (Present id s),
    pure-Keeps (Present id s),
    now-Present,
    save_lifecycles-Present,
    on_lifecycle-Present,
    unknown-Avoids,
    n,
  )

  pub accepted-Avoids :
      (found : Fields F) (t : ℕ)
      → State.reconciled_accepted ≢ s
      → Keeps (Avoids s) (mark_reconciled_accepted found t)
  unfolding mark_reconciled_accepted
  accepted-Avoids found t n = transition-Avoids s State.reconciled_accepted t none (some found) n

  module _ (na : State.reconciled_accepted ≢ s) (nf : State.filled ≢ s) where
    pub conclude_found-Present :
        (np : State.partially_filled ≢ s) (nr : State.rejected ≢ s) (found : Fields F)
        → Keeps (Present id s) (conclude session id (some found))
    unfolding conclude
    conclude_found-Present np nr found = search (
      bind-Keeps (Present id s),
      now-Present,
      on_lifecycle-Present,
      accepted-Avoids,
      apply_broker_view-Avoids s nf np nr,
      na,
    )
