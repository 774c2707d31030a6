-- ===== src/Counterfactual/Ledger/Methods.antt =====
-- `record` and `refresh_receipt` of the ledger, on every way they can end.
use mathlib.Core.Path.{subst}
use sharpearena.Prelude.{
  inl, inr, ◌⊎◌, false, String, ◌≡◌, refl, Bool, true, false, Option, List, [], ◌∷◌, ◌++◌, arith,
  length,
}
use sharpearena.Prelude.Dict.{Dict, lookup}
use sharpearena.Python.Json.{Json}
use sharpearena.Python.Files.{Line, Outcome}
use sharpearena.Python.Errors.{Error, Result, ok, err}
use sharpearena.Python.Methods.{
  RaisesIn, continue-RaisesIn, then-pure-RaisesIn, Keeps, pure, bind-Keeps, if-Keeps,
}
use sharpearena.Python.Runtime.{Runtime}
use sharpearena.Counterfactual.Ghost.{GhostOrder}
use sharpearena.Counterfactual.Snapshot.{Snapshot, snapshot, acted}
use sharpearena.Counterfactual.Snapshot.Acted.{IsActed, acted-IsActed}
use sharpearena.Counterfactual.Records.{Ledger, fresh, remember}
use sharpearena.Counterfactual.Ledger.{
  stable_digest, finite_prices, concerns, commit, append, record_decision, revise, refresh_entry,
  refresh_loop, refresh_receipt,
}
use sharpearena.Counterfactual.Ledger.Revisions.{
  IsConsistent, start, stored, answer, Committed, commit-Committed, commit-IsConsistent,
}

module _ {F : Type 0} ⦃r : Runtime F⦄ where
  pub fresh-IsConsistent : (durable : Bool) → IsConsistent (fresh {F = F} durable)
  unfolding fresh lookup
  fresh-IsConsistent true = record {
    history = start;
    indexed = λ k. refl;
    mirrored = ([], refl, tt);
  }
  fresh-IsConsistent false = record { history = start; indexed = λ k. refl; mirrored = tt }

  module _ (writes : List (Line F) → Json F → Outcome) where
    -- `record` on a consistent ledger leaves it consistent, however it ends: each snapshot continues the
    -- last one of its key, the index finds that one, and the log holds the rows of the snapshots in
    -- memory, after which at most one line more may stand once a write has failed.
    pub record_decision-IsConsistent :
        (decision observation : Json F) (orders : List (GhostOrder F)) (prices : Dict F)
        (key : Option String) (l : Ledger F)
        → IsConsistent l
        → IsConsistent (record_decision writes decision observation orders prices key l).1
    unfolding record_decision
    record_decision-IsConsistent decision observation orders prices key l c =
        grind (arith, commit-IsConsistent)

    revise-IsConsistent :
        (evidence : GhostOrder F) (e : Snapshot F) (l : Ledger F)
        → IsConsistent l
        → IsConsistent (revise writes evidence e l).1
    unfolding revise
    revise-IsConsistent evidence e l c = grind (arith, commit-IsConsistent)

    refresh_entry-IsConsistent :
        (evidence : GhostOrder F) (e : Snapshot F) (l : Ledger F)
        → IsConsistent l
        → IsConsistent (refresh_entry writes evidence e l).1
    unfolding refresh_entry Keeps
    refresh_entry-IsConsistent evidence e l c =
        if-Keeps IsConsistent (concerns writes evidence e) (revise writes evidence e) (pure tt)
          (revise-IsConsistent evidence e) (λ _ k. k) l c

    refresh_loop-IsConsistent :
        (evidence : GhostOrder F) (es : List (Snapshot F)) (l : Ledger F)
        → IsConsistent l
        → IsConsistent (refresh_loop writes evidence es l).1
    unfolding refresh_loop Keeps
    refresh_loop-IsConsistent evidence [] l c = c
    refresh_loop-IsConsistent evidence (e ∷ es) l c =
        bind-Keeps IsConsistent (refresh_entry writes evidence e)
          (λ _. refresh_loop writes evidence es) (refresh_entry-IsConsistent evidence e)
          (λ _. refresh_loop-IsConsistent evidence es) l c

    -- `refresh_receipt` on a consistent ledger leaves it consistent, however it ends, also where it raises
    -- in the middle of its revisions; after a failed write the log may hold one line that memory lacks.
    pub refresh_receipt-IsConsistent :
        (evidence : GhostOrder F) (l : Ledger F)
        → IsConsistent l
        → IsConsistent (refresh_receipt writes evidence l).1
    unfolding refresh_receipt
    refresh_receipt-IsConsistent evidence l c = grind (arith, refresh_loop-IsConsistent)

    -- What a raise leaves of a ledger: memory as it was, and the file too unless the append raised.
    abbrev pub Leaves : Ledger F → Ledger F → Type 0
    Leaves l l' =
        (l'.records ≡ l.records)
        × (l'.latest ≡ l.latest)
        × (((l'.file ≡ l.file) × (l'.write_failed ≡ l.write_failed))
            ⊎ ((l.write_failed ≡ false)
                × (l'.write_failed ≡ true)
                × ((j : Json F) × (l'.file ≡ stored j (answer writes j l.file) l.file))))

    commit-Leaves : (e : Snapshot F) (l : Ledger F) → RaisesIn (Leaves l) (commit writes e l)
    commit-Leaves e l =
        of_end (commit writes e l).0 (commit writes e l).1 (commit-Committed writes e l)
      where
        of_end :
            (res : Result (Unit {0})) (l' : Ledger F)
            → Committed writes e l (res, l')
            → RaisesIn (Leaves l) (res, l')
        of_end (ok _) l' h = tt
        of_end (err _) l' (a, b, inl same) = (a, b, inl same)
        of_end (err _) l' (a, b, inr (down, up, (j, p, f))) = (a, b, inr (down, up, (j, f)))

    record_decision-Leaves :
        (decision observation : Json F) (orders : List (GhostOrder F)) (prices : Dict F)
        (key : Option String) (l : Ledger F)
        → RaisesIn (Leaves l) (record_decision writes decision observation orders prices key l)
    unfolding record_decision
    record_decision-Leaves decision observation orders prices key l =
        continue-RaisesIn (Leaves l) (stable_digest decision) _ l unchanged λ d.
          continue-RaisesIn (Leaves l) (stable_digest observation) _ l unchanged λ o.
            continue-RaisesIn (Leaves l) (finite_prices prices) _ l unchanged λ ps.
              continue-RaisesIn (Leaves l) (snapshot _) _ l unchanged λ e.
                then-pure-RaisesIn (Leaves l) (commit writes e l).0 e (commit writes e l).1
                  (commit-Leaves e l)
      where
        unchanged : Leaves l l
        unchanged = (refl, refl, inl (refl, refl))

    -- A `record` that raises has changed neither the records nor the index. It has left the file and the
    -- failure flag too, unless it was the append that raised: then the flag, which was down, is up, and
    -- the file has what the failed append of one row added to it.
    pub record_decision_atomic :
        (decision observation : Json F) (orders : List (GhostOrder F)) (prices : Dict F)
        (key : Option String) (l l' : Ledger F) (e : Error)
        → record_decision writes decision observation orders prices key l ≡ (err e, l')
        → Leaves l l'
    record_decision_atomic decision observation orders prices key l l' e h =
        subst (λ z. RaisesIn (Leaves l) z) h
          (record_decision-Leaves decision observation orders prices key l)

    -- A `record` that returns has added the snapshot that it returns at the end, with the orders and
    -- the key of its arguments, the `acted` of the orders, and the next sequence number.
    pub record_decision_done :
        (decision observation : Json F) (orders : List (GhostOrder F)) (prices : Dict F)
        (key : Option String) (l l' : Ledger F) (e : Snapshot F)
        → record_decision writes decision observation orders prices key l ≡ (ok e, l')
        → (l'.records ≡ l.records ++ (e ∷ []))
          × (e.orders ≡ orders)
          × (e.decision_key ≡ key)
          × (e.acted ≡ acted orders)
          × (e.sequence ≡ length l.records)
    unfolding record_decision commit append remember snapshot
    record_decision_done decision observation orders prices key l l' e h = ground arith

    -- A `record` that returns has added the snapshot that it returns at the end. Its orders, key and
    -- sequence number are as given, and its `acted` is True exactly where an order is filled, False where
    -- none is and every order's execution is complete, and None where neither holds.
    pub record_decision-IsActed :
        (decision observation : Json F) (orders : List (GhostOrder F)) (prices : Dict F)
        (key : Option String) (l l' : Ledger F) (e : Snapshot F)
        → record_decision writes decision observation orders prices key l ≡ (ok e, l')
        → (l'.records ≡ l.records ++ (e ∷ []))
          × (e.orders ≡ orders)
          × (e.decision_key ≡ key)
          × (e.sequence ≡ length l.records)
          × IsActed orders e.acted
    record_decision-IsActed decision observation orders prices key l l' e h =
        let (a, b, c, d, s) =
          record_decision_done decision observation orders prices key l l' e h in
        (a, b, c, s, rw d (acted-IsActed orders))

    -- Once a write has failed, `record` changes nothing.
    pub record_decision_failed :
        (decision observation : Json F) (orders : List (GhostOrder F)) (prices : Dict F)
        (key : Option String) (l : Ledger F)
        → l.write_failed ≡ true
        → (record_decision writes decision observation orders prices key l).1 ≡ l
    unfolding record_decision commit append
    record_decision_failed decision observation orders prices key l h = ground arith
