-- ===== src/Curriculum/Selection.antt =====
-- `select_next`: it returns a level of the schedule that no other level outweighs.
use mathlib.Core.List.{Memᴰ}
use sharpearena.Prelude.{
  ℕ, ◌≡◌, refl, ap, ◌∙◌, inl, inr, true, false, Bool-cases, some, List, [], ◌∷◌, ◌++◌, ◌⊎◌, ◌==◌,
  All, arith,
}
use sharpearena.Python.Errors.{ok}
use sharpearena.Python.Runtime.{Runtime}
use sharpearena.Curriculum.{
  Tally, AdaptiveScheduler, levels_of, find, rate_of, success_rate, success_rate_of, variance,
  weight, scan, select_from, select_next,
}

find_level :
    (ts : List Tally) (level : ℕ)
    → Memᴰ level (levels_of ts)
    → (t : Tally) × (find level ts ≡ some t)
unfolding find
find_level [] level m = elim m [ ]
find_level (t ∷ ts) level (Memᴰ.head e) = (t, ground (arith, e))
find_level (t ∷ ts) level (Memᴰ.tail m) = elim (Bool-cases (t.level == level)) [
  | inl e ↦ (t, rw e refl)
  | inr e ↦ rw e (find_level ts level m)
]

-- What the scan relies on of the order of floats: it is transitive, and a finite number stands on one
-- side of any two that it separates, which a NaN does not.
pub record IsOrder (F : Type 0) ⦃r : Runtime F⦄ : Type 0 where
  pub transitive : (a b c : F) → r.less a b ≡ true → r.less b c ≡ true → r.less a c ≡ true
  pub between :
      (a b c : F)
      → r.is_finite b ≡ true
      → r.less a c ≡ true
      → (r.less a b ≡ true) ⊎ (r.less b c ≡ true)

module _ {F : Type 0} ⦃r : Runtime F⦄ (s : AdaptiveScheduler F) where
  weighed : (level : ℕ) → Memᴰ level (levels_of s.tallies) → (w : F) × (weight s level ≡ ok w)
  unfolding weight success_rate success_rate_of
  weighed level m =
      let (t, e) = find_level s.tallies level m in (variance (rate_of s.prior t), rw e refl)

  -- Every level of the list weighs less than w.
  abbrev pub Lighter : F → List ℕ → Type 0
  Lighter w lvs = All (λ lv. (v : F) × (weight s lv ≡ ok v) × (r.less v w ≡ true)) lvs

  -- No level of the list weighs more than w.
  abbrev pub Unbeaten : F → List ℕ → Type 0
  Unbeaten w lvs = All (λ lv. (v : F) × (weight s lv ≡ ok v) × (r.less w v ≡ false)) lvs

  -- The result is the first of the heaviest levels.
  abbrev pub IsFirst : List ℕ → ℕ → F → Type 0
  IsFirst lvs best w =
      (before : List ℕ) × (after : List ℕ) × (lvs ≡ before ++ best ∷ after)
      × (weight s best ≡ ok w)
      × Lighter w before
      × Unbeaten w after

  abbrev pub AreFinite : Type 0
  AreFinite = (level : ℕ) (w : F) → weight s level ≡ ok w → r.is_finite w ≡ true

  -- The scan keeps its best level, or it returns a heavier one of the rest.
  Scanned : ℕ → F → List ℕ → Type 0
  Scanned best best_w lvs =
      ((scan s best best_w lvs ≡ ok best) × Unbeaten best_w lvs)
      ⊎ ((b : ℕ) × (w : F) × (scan s best best_w lvs ≡ ok b)
          × (r.less best_w w ≡ true)
          × IsFirst lvs b w)

  module _ (best : ℕ) (best_w : F) (lv : ℕ) (v : F) (lvs : List ℕ) (e : weight s lv ≡ ok v) where
    scan_light : r.less best_w v ≡ false → scan s best best_w (lv ∷ lvs) ≡ scan s best best_w lvs
    unfolding scan
    scan_light light = rw (e, light) refl

    scan_heavy : r.less best_w v ≡ true → scan s best best_w (lv ∷ lvs) ≡ scan s lv v lvs
    unfolding scan
    scan_heavy heavy = rw (e, heavy) refl

  scan_kept :
      AreFinite
      → IsOrder F
      → (best : ℕ) (best_w : F) (lv : ℕ) (v : F) (lvs : List ℕ) → weight s lv ≡ ok v
      → r.less best_w v ≡ false
      → Scanned best best_w lvs
      → Scanned best best_w (lv ∷ lvs)
  unfolding Scanned
  scan_kept finite order best best_w lv v lvs e light (inl (same, u)) =
      inl (scan_light best best_w lv v lvs e light ∙ same, ((v, e, light), u))
  scan_kept finite order best best_w lv v lvs e light
        (inr (b, w, same, heavy, (before, after, split, e2, l, u))) =
      inr (
        b,
        w,
        scan_light best best_w lv v lvs e light ∙ same,
        heavy,
        (lv ∷ before, after, ap (λ z. lv ∷ z) split, e2, ((v, e, lighter), l), u),
      )
    where
      settle : (r.less best_w v ≡ true) ⊎ (r.less v w ≡ true) → r.less v w ≡ true
      settle (inl wrong) = cc
      settle (inr right) = right

      lighter : r.less v w ≡ true
      lighter = settle (order.between best_w v w (finite lv v e) heavy)

  scan_moved :
      IsOrder F
      → (best : ℕ) (best_w : F) (lv : ℕ) (v : F) (lvs : List ℕ) → weight s lv ≡ ok v
      → r.less best_w v ≡ true
      → Scanned lv v lvs
      → Scanned best best_w (lv ∷ lvs)
  unfolding Scanned
  scan_moved order best best_w lv v lvs e heavy (inl (same, u)) =
      inr (lv, v, scan_heavy best best_w lv v lvs e heavy ∙ same, heavy, ([], lvs, refl, e, tt, u))
  scan_moved order best best_w lv v lvs e heavy
        (inr (b, w, same, more, (before, after, split, e2, l, u))) =
      inr (
        b,
        w,
        scan_heavy best best_w lv v lvs e heavy ∙ same,
        order.transitive best_w v w heavy more,
        (lv ∷ before, after, ap (λ z. lv ∷ z) split, e2, ((v, e, more), l), u),
      )

  scanned :
      AreFinite
      → IsOrder F
      → (best : ℕ) (best_w : F) (lvs : List ℕ)
      → ((lv : ℕ) → Memᴰ lv lvs → (w : F) × (weight s lv ≡ ok w))
      → Scanned best best_w lvs
  unfolding Scanned scan
  scanned finite order best best_w [] known = inl (refl, tt)
  scanned finite order best best_w (lv ∷ lvs) known =
      let (v, e) = known lv (Memᴰ.head refl) in
      let rest = λ (lv' : ℕ) (m : Memᴰ lv' lvs). known lv' (Memᴰ.tail m) in
      elim (Bool-cases (r.less best_w v)) [
        | inl heavy ↦
            scan_moved order best best_w lv v lvs e heavy (scanned finite order lv v lvs rest)
        | inr light ↦
            scan_kept finite order best best_w lv v lvs e light
              (scanned finite order best best_w lvs rest)
      ]

  selected :
      (first : ℕ) (w0 : F) (rest : List ℕ)
      → weight s first ≡ ok w0
      → Scanned first w0 rest
      → (best : ℕ) × (w : F) × (scan s first w0 rest ≡ ok best) × IsFirst (first ∷ rest) best w
  unfolding Scanned
  selected first w0 rest e (inl (same, u)) = (first, w0, same, ([], rest, refl, e, tt, u))
  selected first w0 rest e (inr (b, w, same, more, (before, after, split, e2, l, u))) =
      (b, w, same, (first ∷ before, after, ap (λ z. first ∷ z) split, e2, ((w0, e, more), l), u))

  select_from-IsFirst :
      (first : ℕ) (rest : List ℕ)
      → AreFinite
      → IsOrder F
      → ((lv : ℕ) → Memᴰ lv (first ∷ rest) → (w : F) × (weight s lv ≡ ok w))
      → (best : ℕ) × (w : F) × (select_from s (first ∷ rest) ≡ ok best)
        × IsFirst (first ∷ rest) best w
  select_from-IsFirst first rest finite order known =
      let (w0, e) = known first (Memᴰ.head refl) in
      let (best, w, same, found) =
        selected first w0 rest e
          (scanned finite order first w0 rest (λ lv m. known lv (Memᴰ.tail m))) in
      (best, w, started w0 best e same, found)
    where
      started :
          (w0 : F) (best : ℕ)
          → weight s first ≡ ok w0
          → scan s first w0 rest ≡ ok best
          → select_from s (first ∷ rest) ≡ ok best
      started w0 best e same = rw e same

-- On a schedule with a level, whose weights are finite, `select_next` returns the first of its
-- heaviest levels: every level before it weighs less, and none after it weighs more.
pub select_next-IsFirst :
    {F : Type 0} ⦃r : Runtime F⦄ (s : AdaptiveScheduler F) (first : ℕ) (rest : List ℕ)
    → levels_of s.tallies ≡ first ∷ rest
    → AreFinite s
    → IsOrder F
    → (best : ℕ) × (w : F) × (select_next s ≡ ok best) × IsFirst s (levels_of s.tallies) best w
unfolding select_next
select_next-IsFirst s first rest shape finite order =
    rw shape (select_from-IsFirst s first rest finite order (λ lv m. weighed s lv (rw shape m)))
