-- ===== src/Paper/Session/Absence.antt =====
-- Reconciliation authorizes no replacement that the broker did not authorize.
use sharpearena.Prelude.{String, ◌≡◌, ◌≢◌, refl, sym, ◌∙◌, ap, false, Option, none, some, arith}
use sharpearena.Python.Json.{Fields}
use sharpearena.Python.Errors.{ok}
use sharpearena.Python.Methods.{
  Method, Keeps, bind-Keeps, lift-Keeps, gets-Keeps, lift, gets, ◌>>=◌, kept, bind-at, Leads,
  bind-Leads,
}
use sharpearena.Python.Runtime.{Runtime}
use sharpearena.Paper.Lifecycle.States.{State, same_state-eq}
use sharpearena.Paper.Lifecycle.{OrderLifecycle, may_submit_replacement}
use sharpearena.Paper.Store
use sharpearena.Paper.Store.{save}
use sharpearena.Paper.Session.{Session, World, on_lifecycle, now, save_lifecycles}
use sharpearena.Paper.Session.Avoids.{Avoids}
use sharpearena.Paper.Session.Present.{
  Present, on_lifecycle-Present, find_order-Present, report-Present, resume-Present,
  conclude_found-Present,
}
use sharpearena.Paper.Session.Reconcile.{find_order, resume, conclude, report, ask, reconcile}

module _ {F B : Type 0} ⦃r : Runtime F⦄ (session : Session F B) (id : String) where
  abbrev pub Unauthorized : World F B → Type 0
  Unauthorized = Present id State.reconciled_absent

  resume_book : (state : State) (w : World F B) → (resume session id state w).1.book ≡ w.book
  unfolding resume now on_lifecycle save_lifecycles
  resume_book state w = ground arith

  on_lifecycle_book :
      {A : Type 0} (m : Method (OrderLifecycle F) A) (w : World F B)
      → (on_lifecycle session id m w).1.book ≡ w.book
  unfolding on_lifecycle
  on_lifecycle_book m w = ground arith

  -- After a query that did not report an absence.
  answered-Unauthorized :
      (found : Option (Fields F))
      → found ≢ none
      → Keeps Unauthorized (conclude session id found >>= λ _. report session id found)
  answered-Unauthorized none n = absurd (n refl)
  answered-Unauthorized (some found) n =
      bind-Keeps Unauthorized (conclude session id (some found))
        (λ _. report session id (some found))
        (conclude_found-Present session id State.reconciled_absent (λ e. cc) (λ e. cc) (λ e. cc)
          (λ e. cc) found)
        (λ _. report-Present session id State.reconciled_absent (some found))

  ask-Unauthorized :
      (w : World F B)
      → (find_order session id w).0 ≢ ok none
      → Unauthorized w
      → Unauthorized (ask session id w).1
  unfolding ask
  ask-Unauthorized w n h =
      let after =
        kept Unauthorized (find_order session id)
          (find_order-Present session id State.reconciled_absent id) w h in
      bind-at Unauthorized (find_order session id)
        (λ found. conclude session id found >>= λ _. report session id found) w
        (λ found e.
          kept Unauthorized (conclude session id found >>= λ _. report session id found)
            (answered-Unauthorized found (λ k. n (e ∙ ap ok k))) (find_order session id w).1 after)
        after

  module _ (query : String → Method B (Option (Fields F))) where
    -- The broker would not report an absence.
    abbrev pub Silent : World F B → Type 0
    Silent w = Unauthorized w × ((query id w.book).0 ≢ ok none)

    Silent-Keeps :
        {A : Type 0} (m : Method (World F B) A)
        → ((w : World F B) → (m w).1.book ≡ w.book)
        → Keeps Unauthorized m
        → Keeps Silent m
    unfolding Keeps
    Silent-Keeps m b k w (h, n) = (k w h, λ e. n (ap (λ z. (query id z).0) (sym (b w)) ∙ e))

    asked_query :
        session.broker.find_order ≡ some query
        → (w : World F B) → (find_order session id w).0 ≡ (query id w.book).0
    unfolding find_order
    asked_query q w = ground arith

    ask-Silent : session.broker.find_order ≡ some query → Leads Silent Unauthorized (ask session id)
    unfolding Leads
    ask-Silent q w (h, n) = ask-Unauthorized w (λ e. n (sym (asked_query q w) ∙ e)) h

    reconcile-Silent :
        session.broker.find_order ≡ some query → Leads Silent Unauthorized (reconcile session id)
    unfolding reconcile
    reconcile-Silent q =
        bind-Leads Silent Unauthorized (on_lifecycle session id (gets (λ l. l))) _
          (Silent-Keeps (on_lifecycle session id (gets (λ l. l)))
            (on_lifecycle_book (gets (λ l. l)))
            (on_lifecycle-Present session id State.reconciled_absent (gets (λ l. l))
              (gets-Keeps (Avoids State.reconciled_absent) (λ l. l))))
          (λ w h. h.0)
          λ l.
            bind-Leads Silent Unauthorized (lift _) _ (lift-Keeps Silent _) (λ w h. h.0)
              λ _.
                bind-Leads Silent Unauthorized (resume session id l.state) _
                  (Silent-Keeps (resume session id l.state) (resume_book l.state)
                    (resume-Present session id State.reconciled_absent l.state (λ e. cc)))
                  (λ w h. h.0) λ _. ask-Silent q

    Silent-start :
        session.broker.find_order ≡ some query
        → (w : World F B) → Silent w
        → Unauthorized (reconcile session id w).1
    unfolding Leads
    Silent-start q w h = reconcile-Silent q w h

    not_absent :
        (l : OrderLifecycle F) → Avoids State.reconciled_absent l → may_submit_replacement l ≡ false
    unfolding may_submit_replacement
    not_absent l h = grind (arith, same_state-eq l.state State.reconciled_absent)

    -- However `reconcile` ends: where the broker's query does not report that it holds no such order,
    -- and the lifecycle is not already in the state of a confirmed absence, the store still holds a
    -- lifecycle under the id, and that authorizes no replacement.
    pub reconcile_authorizes :
        (w : World F B) (l : OrderLifecycle F)
        → session.broker.find_order ≡ some query
        → (query id w.book).0 ≢ ok none
        → Store.get id w.lifecycles ≡ some l
        → l.state ≢ State.reconciled_absent
        → (l' : OrderLifecycle F) × (Store.get id (reconcile session id w).1.lifecycles ≡ some l')
          × (may_submit_replacement l' ≡ false)
    reconcile_authorizes w l q n e h =
        let (l', f, k) = Silent-start q w ((l, e, h), n) in (l', f, not_absent l' k)
