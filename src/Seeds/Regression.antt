-- ===== src/Seeds/Regression.antt =====
-- `assert_no_regression` of eval_seeds.py: a snapshot of scores against the committed one.
use mathlib.Core.List.{Memᴰ}
use sharpearena.Prelude.{
  List, Bool-cases, eq_iff, eq_refl, &&-eq-true, String, ◌≡◌, ◌↔◌, Option-cases, refl, sym, inl,
  inr, Bool, true, false, not, ◌&&◌, Option, none, some, [], ◌∷◌, all, str_eq, is_some, All,
  not-eq-false,
}
use sharpearena.Prelude.Dict.{Dict, lookup}
use sharpearena.Python.Errors.{
  Result, ok, fail, raise_if, assertion_error, ◌>>◌, checked, unraised, >>=-eq-ok,
}
use sharpearena.Python.Runtime.{Runtime}
use sharpearena.Seeds.{names_of}

-- A score, or the recorded reason why there is none.
pub data Metric (F : Type 0) : Type 0 where
  score : F → Metric F
  unavailable : String → Metric F

pub record Entry (F : Type 0) : Type 0 where
  pub deflated_sharpe : Metric F
  pub mean_return : Metric F
  pub passed_k : Bool

abbrev same_bool : Bool → Bool → Bool
same_bool true b = b
same_bool false b = not b

module _ {F : Type 0} ⦃r : Runtime F⦄ where
  -- Does a metric drift? A reason matches the same reason alone.
  unfoldable pub drifts : F → Metric F → Metric F → Bool
  drifts tol (score x) (score y) = r.less tol (r.absolute (r.minus x y))
  drifts tol (score x) (unavailable t) = true
  drifts tol (unavailable s) (score y) = true
  drifts tol (unavailable s) (unavailable t) = not (str_eq s t)

  unfoldable pub check_entry : F → Entry F → Option (Entry F) → Result (Unit {0})
  check_entry tol reference none = fail assertion_error "eval-seed set changed"
  check_entry tol reference (some current) =
      raise_if (drifts tol reference.deflated_sharpe current.deflated_sharpe) assertion_error
        "regression at deflated_sharpe"
      >> (raise_if (drifts tol reference.mean_return current.mean_return) assertion_error
            "regression at mean_return"
          >> raise_if (not (same_bool reference.passed_k current.passed_k)) assertion_error
              "regression at passed_k")

  unfoldable pub check_entries : F → Dict (Entry F) → Dict (Entry F) → Result (Unit {0})
  check_entries tol [] current = ok tt
  check_entries tol ((name, entry) ∷ reference) current =
      check_entry tol entry (lookup name current) >> check_entries tol reference current

  -- `set(reference) == set(current)`
  unfoldable pub same_names : Dict (Entry F) → Dict (Entry F) → Bool
  same_names reference current =
      all (λ n. is_some (lookup n current)) (names_of reference)
      && all (λ n. is_some (lookup n reference)) (names_of current)

  unfoldable pub assert_no_regression : F → Dict (Entry F) → Dict (Entry F) → Result (Unit {0})
  assert_no_regression tol reference current =
      raise_if (not (same_names reference current)) assertion_error "eval-seed set changed"
      >> check_entries tol reference current

same_bool-eq : (a b : Bool) → same_bool a b ≡ true → a ≡ b
same_bool-eq true b h = sym h
same_bool-eq false true h = cc
same_bool-eq false false h = refl

same_bool_refl : (a b : Bool) → a ≡ b → same_bool a b ≡ true
same_bool_refl true b h = sym h
same_bool_refl false b h = rw (sym h) refl

module _ {F : Type 0} where
  -- A name stands in both snapshots or in neither.
  abbrev pub HaveSameNames : Dict (Entry F) → Dict (Entry F) → Type 0
  HaveSameNames reference current =
      All (λ n. Memᴰ n (names_of current)) (names_of reference)
      × All (λ n. Memᴰ n (names_of reference)) (names_of current)

  is_some-names :
      (n : String) (d : Dict (Entry F)) → is_some (lookup n d) ≡ true → Memᴰ n (names_of d)
  unfolding lookup
  is_some-names n [] h = absurd cc
  is_some-names n ((k, e) ∷ d) h = elim (Bool-cases (str_eq k n)) [
    | inl same ↦ Memᴰ.head (sym ((eq_iff k n).0 same))
    | inr other ↦ Memᴰ.tail (is_some-names n d (rw other at h))
  ]

  names-is_some :
      (n : String) (d : Dict (Entry F)) → Memᴰ n (names_of d) → is_some (lookup n d) ≡ true
  unfolding lookup
  names-is_some n [] m = elim m [ ]
  names-is_some n ((k, e) ∷ d) (Memᴰ.head same) = rw (sym same, eq_refl n) refl
  names-is_some n ((k, e) ∷ d) (Memᴰ.tail m) = elim (Bool-cases (str_eq k n)) [
    | inl same ↦ rw same refl
    | inr other ↦ rw other (names-is_some n d m)
  ]

  all-names :
      (d : Dict (Entry F)) (ns : List String)
      → all (λ n. is_some (lookup n d)) ns ≡ true
      → All (λ n. Memᴰ n (names_of d)) ns
  all-names d [] h = tt
  all-names d (n ∷ ns) h =
      let (here, rest) = &&-eq-true (is_some (lookup n d)) _ h in
      (is_some-names n d here, all-names d ns rest)

  names-all :
      (d : Dict (Entry F)) (ns : List String)
      → All (λ n. Memᴰ n (names_of d)) ns
      → all (λ n. is_some (lookup n d)) ns ≡ true
  names-all d [] h = refl
  names-all d (n ∷ ns) (here, rest) = rw (names-is_some n d here) (names-all d ns rest)

module _ {F : Type 0} ⦃r : Runtime F⦄ (tol : F) where
  -- Two scores are not further apart than the tolerance, in the order of floats, in which a NaN is not
  -- further than anything; two reasons are the same text.
  pub data Agrees : Metric F → Metric F → Type 0 where
    near : {x y : F} → r.less tol (r.absolute (r.minus x y)) ≡ false → Agrees (score x) (score y)
    same_reason : {s t : String} → s ≡ t → Agrees (unavailable s) (unavailable t)

  drifts-Agrees : (m n : Metric F) → drifts tol m n ≡ false → Agrees m n
  unfolding drifts
  drifts-Agrees (score x) (score y) h = near h
  drifts-Agrees (score x) (unavailable t) h = absurd cc
  drifts-Agrees (unavailable s) (score y) h = absurd cc
  drifts-Agrees (unavailable s) (unavailable t) h = same_reason ((eq_iff s t).0 (not-eq-false _ h))

  Agrees-drifts : (m n : Metric F) → Agrees m n → drifts tol m n ≡ false
  unfolding drifts
  Agrees-drifts (score x) (score y) (near h) = h
  Agrees-drifts (score x) (unavailable t) a = elim a [ ]
  Agrees-drifts (unavailable s) (score y) a = elim a [ ]
  Agrees-drifts (unavailable s) (unavailable t) (same_reason e) = rw (e, eq_refl t) refl

  -- An entry of the snapshot stands in the current one, with the same gate and no drift.
  abbrev pub IsKept : Dict (Entry F) → String × Entry F → Type 0
  IsKept current (name, e) =
      (c : Entry F) × (lookup name current ≡ some c)
      × Agrees e.deflated_sharpe c.deflated_sharpe
      × Agrees e.mean_return c.mean_return
      × (e.passed_k ≡ c.passed_k)

  entry-IsKept :
      (current : Dict (Entry F)) (name : String) (e : Entry F)
      → check_entry tol e (lookup name current) ≡ ok tt
      → IsKept current (name, e)
  unfolding check_entry
  entry-IsKept current name e h = elim (Option-cases (lookup name current)) [
    | inl missing ↦ absurd (no_entry (rw missing at h))
    | inr (c, found) ↦
        let (a, h1) =
          checked (drifts tol e.deflated_sharpe c.deflated_sharpe) _ _ _ (rw found at h) in
        let (b, h2) = checked (drifts tol e.mean_return c.mean_return) _ _ _ h1 in
        (
          c,
          found,
          drifts-Agrees e.deflated_sharpe c.deflated_sharpe a,
          drifts-Agrees e.mean_return c.mean_return b,
          same_bool-eq e.passed_k c.passed_k (not-eq-false _ (unraised _ _ _ h2)),
        )
  ]
    where
      no_entry : fail assertion_error "eval-seed set changed" ≡ ok (tt {0}) → ⊥
      no_entry k = cc

  IsKept-entry :
      (current : Dict (Entry F)) (name : String) (e : Entry F)
      → IsKept current (name, e)
      → check_entry tol e (lookup name current) ≡ ok tt
  unfolding check_entry
  IsKept-entry current name e (c, found, a, b, k) =
      rw
        (
          found,
          Agrees-drifts e.deflated_sharpe c.deflated_sharpe a,
          Agrees-drifts e.mean_return c.mean_return b,
          same_bool_refl e.passed_k c.passed_k k,
        )
        refl

  entries-IsKept :
      (reference current : Dict (Entry F))
      → check_entries tol reference current ≡ ok tt
      → All (IsKept current) reference
  unfolding check_entries
  entries-IsKept [] current h = tt
  entries-IsKept ((name, e) ∷ reference) current h =
      let (_, here, rest) = >>=-eq-ok (check_entry tol e (lookup name current)) _ h in
      (entry-IsKept current name e here, entries-IsKept reference current rest)

  IsKept-entries :
      (reference current : Dict (Entry F))
      → All (IsKept current) reference
      → check_entries tol reference current ≡ ok tt
  unfolding check_entries
  IsKept-entries [] current h = refl
  IsKept-entries ((name, e) ∷ reference) current (here, rest) =
      rw (IsKept-entry current name e here) (IsKept-entries reference current rest)

  -- The gate passes exactly where the same names stand in both snapshots and, at each name of the
  -- committed one, the pass gates are equal and each metric agrees: two scores whose distance is not
  -- greater than the tolerance as floats compare, so that a NaN passes, or twice the same reason.
  pub assert_no_regression-IsKept :
      (reference current : Dict (Entry F))
      → (assert_no_regression tol reference current ≡ ok tt)
        ↔ (HaveSameNames reference current × All (IsKept current) reference)
  unfolding assert_no_regression same_names
  assert_no_regression-IsKept reference current = (passes, kept)
    where
      passes :
          assert_no_regression tol reference current ≡ ok tt
          → HaveSameNames reference current × All (IsKept current) reference
      passes h =
          let (names, h1) = checked (not (same_names reference current)) _ _ _ h in
          let (there, back) =
            &&-eq-true (all (λ n. is_some (lookup n current)) (names_of reference)) _
              (not-eq-false _ names) in
          (
            (
              all-names current (names_of reference) there,
              all-names reference (names_of current) back,
            ),
            entries-IsKept reference current h1,
          )

      kept :
          HaveSameNames reference current × All (IsKept current) reference
          → assert_no_regression tol reference current ≡ ok tt
      kept ((there, back), h) =
          rw
            (
              names-all current (names_of reference) there,
              names-all reference (names_of current) back,
              IsKept-entries reference current h,
            )
            refl
