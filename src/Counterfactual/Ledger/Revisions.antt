-- ===== src/Counterfactual/Ledger/Revisions.antt =====
-- The ledger as a history: every snapshot in it continues the last one of its key, the index finds
-- that one, and the log file holds the rows of the snapshots in memory, followed after a failed write
-- by at most one line more.
use mathlib.Core.Path.{subst}
use sharpearena.Prelude.{
  ◌⊎◌, inl, inr, sym, String, ◌≡◌, refl, Bool, true, false, Option, none, some, List, [], ◌∷◌, ◌++◌,
  arith, length, str_eq, eq_iff, if◌then◌else◌,
}
use sharpearena.Prelude.Dict.{lookup, lookup-insert}
use sharpearena.Python.Json.{Json}
use sharpearena.Python.Files.{Line, row, torn, Outcome, written, unwritten, unsynced, cut, added}
use sharpearena.Python.Errors.{Result, ok, err}
use sharpearena.Python.Runtime.{Runtime}
use sharpearena.Counterfactual.Snapshot.{Snapshot}
use sharpearena.Counterfactual.Records.{Ledger, remember, index}
use sharpearena.Counterfactual.Ledger.{
  same_intents, any_decrease, check_against, check_key, validate_revision, payload, append, commit,
}

abbrev pub has_key : String → Option String → Bool
has_key k none = false
has_key k (some j) = str_eq j k

module _ {F : Type 0} where
  -- The file after an append that ended so.
  abbrev pub stored : Json F → Outcome → Option (List (Line F)) → Option (List (Line F))
  stored j outcome none = none
  stored j outcome (some lines) = some (lines ++ added j outcome)

  -- The last snapshot with this key.
  abbrev pub last_of : String → List (Snapshot F) → Option (Snapshot F)
  last_of k [] = none
  last_of k (e ∷ es) = elim (last_of k es) [
    | none ↦ if has_key k e.decision_key then some e else none
    | some x ↦ some x
  ]

  last_of-append :
      (k : String) (es : List (Snapshot F)) (e : Snapshot F)
      → last_of k (es ++ (e ∷ [])) ≡ (if has_key k e.decision_key then some e else last_of k es)
  last_of-append k [] e = ground arith
  last_of-append k (x ∷ es) e = ground (arith, last_of-append k es e)

module _ {F : Type 0} ⦃r : Runtime F⦄ where
  -- The snapshot keeps the intent of the one before it, and no fill of it has shrunk.
  pub record Revises (e previous : Snapshot F) : Type 0 where
    pub decision : e.decision_sha256 ≡ previous.decision_sha256
    pub observation : e.observation_sha256 ≡ previous.observation_sha256
    pub intent : same_intents e.orders previous.orders ≡ true
    pub fills : any_decrease previous.orders e.orders ≡ false

  abbrev pub Continues : Snapshot F → Option (Snapshot F) → Type 0
  Continues e none = Unit
  Continues e (some previous) = Revises e previous

  abbrev pub Extends : Snapshot F → Option String → List (Snapshot F) → Type 0
  Extends e none es = Unit
  Extends e (some k) es = (str_eq k "" ≡ false) × Continues e (last_of k es)

  pub data History : List (Snapshot F) → Type 0 where
    start : History []
    next :
        {es es' : List (Snapshot F)} (e : Snapshot F)
        → History es
        → e.sequence ≡ length es
        → Extends e e.decision_key es
        → es' ≡ es ++ (e ∷ [])
        → History es'

  -- The lines of these snapshots, in order, and then `rest`.
  abbrev pub Rows : List (Snapshot F) → List (Line F) → List (Line F) → Type 0
  Rows [] rest lines = lines ≡ rest
  Rows (e ∷ es) rest (row j ∷ lines) = (payload e ≡ ok j) × Rows es rest lines
  Rows _ _ _ = ⊥

  -- What may follow the lines of the snapshots: nothing, and after a failed write one line at most.
  abbrev pub Tail : Bool → List (Line F) → Type 0
  Tail _ [] = Unit
  Tail failed (line ∷ []) = failed ≡ true
  Tail _ _ = ⊥

  abbrev pub Mirrors : List (Snapshot F) → Bool → Option (List (Line F)) → Type 0
  Mirrors es failed none = Unit
  Mirrors es failed (some lines) = (rest : List (Line F)) × Rows es rest lines × Tail failed rest

  pub record IsConsistent (l : Ledger F) : Type 0 where
    pub history : History l.records
    pub indexed : (k : String) → lookup k l.latest ≡ last_of k l.records
    pub mirrored : Mirrors l.records l.write_failed l.file

  Rows-append :
      (es : List (Snapshot F)) (lines : List (Line F)) (e : Snapshot F) (j : Json F)
      → Rows es [] lines
      → payload e ≡ ok j
      → Rows (es ++ (e ∷ [])) [] (lines ++ (row j ∷ []))
  Rows-append [] [] e j h p = (p, refl)
  Rows-append [] (x ∷ lines) e j h p = absurd cc
  Rows-append (x ∷ es) [] e j h p = absurd h
  Rows-append (x ∷ es) (row y ∷ lines) e j h p = (h.0, Rows-append es lines e j h.1 p)
  Rows-append (x ∷ es) (torn y ∷ lines) e j h p = absurd h

  Rows-rest :
      (es : List (Snapshot F)) (lines rest : List (Line F))
      → Rows es [] lines
      → Rows es rest (lines ++ rest)
  Rows-rest [] [] rest h = refl
  Rows-rest [] (x ∷ lines) rest h = absurd cc
  Rows-rest (x ∷ es) [] rest h = absurd h
  Rows-rest (x ∷ es) (row y ∷ lines) rest h = (h.0, Rows-rest es lines rest h.1)
  Rows-rest (x ∷ es) (torn y ∷ lines) rest h = absurd h

  Tail-added : (j : Json F) (outcome : Outcome) → Tail true (added j outcome)
  Tail-added j written = refl
  Tail-added j unwritten = tt
  Tail-added j unsynced = refl
  Tail-added j (cut text) = refl

  whole_file :
      (es : List (Snapshot F)) (lines : List (Line F))
      → Mirrors es false (some lines)
      → Rows es [] lines
  whole_file es lines ([], h, t) = h
  whole_file es lines (x ∷ [], h, t) = absurd cc
  whole_file es lines (x ∷ y ∷ rest, h, t) = absurd t

  -- After an append that was not written.
  failed-Mirrors :
      (es : List (Snapshot F)) (file : Option (List (Line F))) (j : Json F) (outcome : Outcome)
      → Mirrors es false file
      → Mirrors es true (stored j outcome file)
  failed-Mirrors es none j outcome h = tt
  failed-Mirrors es (some lines) j outcome h = (
    added j outcome,
    Rows-rest es lines (added j outcome) (whole_file es lines h),
    Tail-added j outcome,
  )

  check_against-Continues :
      (e : Snapshot F) (p : Option (Snapshot F)) → check_against e p ≡ ok tt → Continues e p
  unfolding check_against
  check_against-Continues e none h = tt
  check_against-Continues e (some p) h = ground (
    arith,
    eq_iff e.decision_sha256 p.decision_sha256,
    eq_iff e.observation_sha256 p.observation_sha256,
  )

  validate_revision-sequence :
      (e : Snapshot F) (l : Ledger F)
      → validate_revision e l ≡ ok tt
      → e.sequence ≡ length l.records
  unfolding validate_revision
  validate_revision-sequence e l h = ground arith

  module _ (writes : List (Line F) → Json F → Outcome) where
    -- How the append of this row to this file ends.
    abbrev pub answer : Json F → Option (List (Line F)) → Outcome
    answer j none = written
    answer j (some lines) = writes lines j

    -- How a commit ended: a raise has left memory and index alone, and the file too unless it was the
    -- write that raised.
    abbrev pub Committed : Snapshot F → Ledger F → Result (Unit {0}) × Ledger F → Type 0
    Committed e l (ok _, l') =
        (validate_revision e l ≡ ok tt)
        × (l.write_failed ≡ false)
        × ((j : Json F) × (payload e ≡ ok j)
            × (l' ≡ remember e (record l { file = stored j written l.file; write_failed = false })))
    Committed e l (err _, l') =
        (l'.records ≡ l.records)
        × (l'.latest ≡ l.latest)
        × (((l'.file ≡ l.file) × (l'.write_failed ≡ l.write_failed))
            ⊎ ((l.write_failed ≡ false)
                × (l'.write_failed ≡ true)
                × ((j : Json F) × (payload e ≡ ok j)
                    × (l'.file ≡ stored j (answer j l.file) l.file))))

    pub commit-Committed : (e : Snapshot F) (l : Ledger F) → Committed e l (commit writes e l)
    unfolding commit append
    commit-Committed e l = ground arith

    appended-Mirrors :
        (e : Snapshot F) (j : Json F) (es : List (Snapshot F)) (file : Option (List (Line F)))
        → Mirrors es false file
        → payload e ≡ ok j
        → Mirrors (es ++ (e ∷ [])) false (stored j written file)
    appended-Mirrors e j es none h p = tt
    appended-Mirrors e j es (some lines) h p =
        ([], Rows-append es lines e j (whole_file es lines h) p, tt)

    index-append :
        (e : Snapshot F) (l : Ledger F) (k : String)
        → lookup k l.latest ≡ last_of k l.records
        → lookup k (remember e l).latest ≡ last_of k (l.records ++ (e ∷ []))
    unfolding remember
    index-append e l k h = rw last_of-append (indexing e.decision_key)
      where
        indexing :
            (o : Option String)
            → lookup k (index o e l.latest) ≡ (if has_key k o then some e else last_of k l.records)
        indexing none = h
        indexing (some j) = rw lookup-insert (rw h)

    key-Extends :
        (e : Snapshot F) (o : Option String) (l : Ledger F)
        → IsConsistent l
        → check_key e o l.latest ≡ ok tt
        → Extends e o l.records
    key-Extends e none l c h = tt
    key-Extends e (some k) l c h = (
      ground arith,
      rw (← c.indexed k) (check_against-Continues e (lookup k l.latest) (ground arith)),
    )

    validate_revision-Extends :
        (e : Snapshot F) (l : Ledger F)
        → IsConsistent l
        → validate_revision e l ≡ ok tt
        → Extends e e.decision_key l.records
    unfolding validate_revision
    validate_revision-Extends e l c h = key-Extends e e.decision_key l c (ground arith)

    Committed-IsConsistent :
        (e : Snapshot F) (l : Ledger F) (r' : Result (Unit {0})) (l' : Ledger F)
        → IsConsistent l
        → Committed e l (r', l')
        → IsConsistent l'
    unfolding remember
    Committed-IsConsistent e l (ok _) l' c (valid, sound, (j, p, eq)) =
        subst IsConsistent (sym eq) (record {
          history =
              next e c.history (validate_revision-sequence e l valid)
                (validate_revision-Extends e l c valid) refl;
          indexed = λ k. index-append e l k (c.indexed k);
          mirrored =
              appended-Mirrors e j l.records l.file
                (subst (λ b. Mirrors l.records b l.file) sound c.mirrored) p;
        })
    Committed-IsConsistent e l (err _) l' c (a, b, inl (f, w)) = record {
      history = subst History (sym a) c.history;
      indexed = λ k. rw (a, b) (c.indexed k);
      mirrored = rw (a, f, w) c.mirrored;
    }
    Committed-IsConsistent e l (err _) l' c (a, b, inr (sound, w, (j, p, f))) = record {
      history = subst History (sym a) c.history;
      indexed = λ k. rw (a, b) (c.indexed k);
      mirrored =
          rw (a, f, w)
            (failed-Mirrors l.records l.file j (answer j l.file)
              (subst (λ b. Mirrors l.records b l.file) sound c.mirrored));
    }

    pub commit-IsConsistent :
        (e : Snapshot F) (l : Ledger F) → IsConsistent l → IsConsistent (commit writes e l).1
    commit-IsConsistent e l c =
        Committed-IsConsistent e l (commit writes e l).0 (commit writes e l).1 c
          (commit-Committed e l)
