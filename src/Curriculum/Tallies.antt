-- ===== src/Curriculum/Tallies.antt =====
-- The tallies of a scheduler: no level has more solves than attempts, and no outcome moves a level.
use mathlib.Core.List.{Memᴰ}
use sharpearena.Prelude.{
  AreDistinct, ◌↔◌, ℕ, ◌+◌, ◌≤◌, ◌≡◌, refl, sym, ap, ◌∙◌, inl, inr, Bool, true, false, Bool-cases,
  not, ◌&&◌, ◌||◌, List, [], ◌∷◌, map, length, ltb, ◌==◌, is_some, if◌then◌else◌, All, arith,
}
use sharpearena.Python.Errors.{ok, checked, ok-injective}
use sharpearena.Python.Runtime.{Runtime}
use sharpearena.Curriculum.Dedupe.{dedupe-AreDistinct, dedupe-Memᴰ}
use sharpearena.Curriculum.{
  Tally, AdaptiveScheduler, levels_of, dedupe, find, tallied, new_scheduler, record_outcome,
}

abbrev pub IsTally : Tally → Type 0
IsTally t = t.solves ≤ t.attempts

tallied-IsTally :
    (level : ℕ) (solved : Bool) (ts : List Tally)
    → All IsTally ts
    → All IsTally (tallied level solved ts)
unfolding tallied
tallied-IsTally level solved [] h = tt
tallied-IsTally level solved (t ∷ ts) (here, h) = elim (Bool-cases (t.level == level)) [
  | inl e ↦ rw e (one_more solved, h)
  | inr e ↦ rw e (here, tallied-IsTally level solved ts h)
]
  where
    one_more : (b : Bool) → t.solves + (if b then 1 else 0) ≤ t.attempts + 1
    one_more true = omega (arith, here)
    one_more false = omega (arith, here)

levels_of-tallied :
    (level : ℕ) (solved : Bool) (ts : List Tally)
    → levels_of (tallied level solved ts) ≡ levels_of ts
unfolding tallied
levels_of-tallied level solved [] = refl
levels_of-tallied level solved (t ∷ ts) = elim (Bool-cases (t.level == level)) [
  | inl e ↦ rw e refl
  | inr e ↦ rw e (ap (λ ls. t.level ∷ ls) (levels_of-tallied level solved ts))
]

module _ {F : Type 0} where
  -- What the outcomes of a schedule keep.
  abbrev pub HasLevels : List ℕ → AdaptiveScheduler F → Type 0
  HasLevels levels s = (levels_of s.tallies ≡ levels) × All IsTally s.tallies

  record_outcome-HasLevels :
      (levels : List ℕ) (level : ℕ) (solved : Bool) (s : AdaptiveScheduler F)
      → HasLevels levels s
      → HasLevels levels (record_outcome level solved s).1
  unfolding record_outcome
  record_outcome-HasLevels levels level solved s (same, h) =
      elim (Bool-cases (is_some (find level s.tallies))) [
        | inl known ↦ rw known (
          levels_of-tallied level solved s.tallies ∙ same,
          tallied-IsTally level solved s.tallies h,
        )
        | inr unknown ↦ rw unknown (same, h)
      ]

  -- A run of outcomes; one of a level off the schedule raises and changes nothing.
  unfoldable pub record_all : List (ℕ × Bool) → AdaptiveScheduler F → AdaptiveScheduler F
  record_all [] s = s
  record_all ((level, solved) ∷ os) s = record_all os (record_outcome level solved s).1

  record_all-HasLevels :
      (levels : List ℕ) (os : List (ℕ × Bool)) (s : AdaptiveScheduler F)
      → HasLevels levels s
      → HasLevels levels (record_all os s)
  unfolding record_all
  record_all-HasLevels levels [] s h = h
  record_all-HasLevels levels ((level, solved) ∷ os) s h =
      record_all-HasLevels levels os _ (record_outcome-HasLevels levels level solved s h)

fresh : List ℕ → List Tally
fresh xs = map (λ x. record { level = x; solves = 0; attempts = 0 }) xs

fresh-HasLevels : (xs : List ℕ) → (levels_of (fresh xs) ≡ xs) × All IsTally (fresh xs)
unfolding fresh
fresh-HasLevels [] = (refl, tt)
fresh-HasLevels (x ∷ xs) =
    let (same, h) = fresh-HasLevels xs in (ap (λ ls. x ∷ ls) same, (omega arith, h))

module _ {F : Type 0} ⦃r : Runtime F⦄ where
  new-HasLevels :
      (levels : List ℕ) (prior : F) (s : AdaptiveScheduler F)
      → new_scheduler levels prior ≡ ok s
      → HasLevels (dedupe [] levels) s
  unfolding new_scheduler fresh
  new-HasLevels levels prior s h =
      let refused =
        not (r.is_finite prior) || not (r.at_most r.zero prior && r.at_most prior r.one) in
      let (_, h1) = checked refused _ _ _ h in
      let (_, h2) = checked (ltb (length (dedupe [] levels)) 1) _ _ _ h1 in
      started s (ok-injective h2) (fresh-HasLevels (dedupe [] levels))
    where
      started :
          (z : AdaptiveScheduler F)
          → record { tallies = fresh (dedupe [] levels); prior = prior } ≡ z
          → HasLevels
              (dedupe [] levels)
              (record { tallies = fresh (dedupe [] levels); prior = prior })
          → HasLevels (dedupe [] levels) z
      started z e h = rw (sym e) h

  -- Whatever outcomes are recorded on a new scheduler, its levels are those that were given, each
  -- once, and no level has more solves than attempts.
  pub record_all-IsTally :
      (levels : List ℕ) (prior : F) (s : AdaptiveScheduler F) (os : List (ℕ × Bool))
      → new_scheduler levels prior ≡ ok s
      → AreDistinct (levels_of (record_all os s).tallies)
        × ((level : ℕ) → Memᴰ level (levels_of (record_all os s).tallies) ↔ Memᴰ level levels)
        × All IsTally (record_all os s).tallies
  record_all-IsTally levels prior s os h =
      let (same, tallied) =
        record_all-HasLevels (dedupe [] levels) os s (new-HasLevels levels prior s h) in
      (
        rw same (dedupe-AreDistinct [] levels tt),
        λ level. rw same (dedupe-Memᴰ level levels),
        tallied,
      )
