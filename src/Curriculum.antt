-- ===== src/Curriculum.antt =====
-- `AdaptiveScheduler` of curriculum.py. Levels are seeds, natural numbers here, and the parallel lists and
-- dicts of the scheduler are one list of tallies; the environments that a reset builds are left out.
pub mod Dedupe
pub mod Tallies
pub mod Selection
use Prim.Native.Nat.{◌%◌}
use sharpearena.Prelude.{
  ℕ, zero, suc, ◌+◌, ◌-◌, ◌*◌, String, Bool, true, false, not, ◌&&◌, ◌||◌, Option, none, some, List,
  [], ◌∷◌, ◌++◌, map, any, length, get_elem?, range, ltb, ◌==◌, str_eq, is_none, is_some,
  if◌then◌else◌,
}
use sharpearena.Prelude.Int.{pos}
use sharpearena.Python.Errors
use sharpearena.Python.Errors.{Result, ok, fail, raise_if, value_error, key_error, index_error}
use sharpearena.Python.Methods.{Method, lift, gets, modify, pure, ◌>>=◌, ◌>>◌}
use sharpearena.Python.Runtime.{Runtime}

-- One level with its entries in the dicts `_solves` and `_attempts`, which have the levels as keys.
pub record Tally : Type 0 where
  pub level : ℕ
  pub solves : ℕ
  pub attempts : ℕ

pub record AdaptiveScheduler (F : Type 0) : Type 0 where
  pub tallies : List Tally
  pub prior : F

abbrev pub levels_of : List Tally → List ℕ
levels_of ts = map (λ (t : Tally). t.level) ts

-- `if xi not in deduped: deduped.append(xi)`, for each level
unfoldable pub dedupe : List ℕ → List ℕ → List ℕ
dedupe kept [] = kept
dedupe kept (x ∷ xs) = dedupe (if any (λ k. k == x) kept then kept else kept ++ (x ∷ [])) xs

unfoldable pub find : ℕ → List Tally → Option Tally
find level [] = none
find level (t ∷ ts) = if t.level == level then some t else find level ts

-- Both dicts after an outcome.
unfoldable pub tallied : ℕ → Bool → List Tally → List Tally
tallied level solved [] = []
tallied level solved (t ∷ ts) =
    let rest = tallied level solved ts in
    if t.level == level
    then record t { solves = t.solves + (if solved then 1 else 0); attempts = t.attempts + 1 } ∷ ts
    else t ∷ rest

module _ {F : Type 0} ⦃r : Runtime F⦄ where
  -- `AdaptiveScheduler.__init__`
  unfoldable pub new_scheduler : List ℕ → F → Result (AdaptiveScheduler F)
  new_scheduler levels prior =
      let deduped = dedupe [] levels in
      Errors.◌>>◌
        (raise_if (not (r.is_finite prior) || not (r.at_most r.zero prior && r.at_most prior r.one))
          value_error "prior must be a finite rate in [0, 1]")
        (Errors.◌>>◌ (raise_if (ltb (length deduped) 1) value_error "levels must be non-empty") (
          ok (record {
            tallies = map (λ x. record { level = x; solves = 0; attempts = 0 }) deduped;
            prior = prior;
          })))

  unfoldable pub rate_of : F → Tally → F
  rate_of prior t =
      if t.attempts == 0
      then prior
      else r.over (r.of_int (pos t.solves)) (r.of_int (pos t.attempts))

  unfoldable pub success_rate_of : F → Option Tally → Result F
  success_rate_of prior none = fail key_error "level is off-schedule"
  success_rate_of prior (some t) = ok (rate_of prior t)

  unfoldable pub success_rate : AdaptiveScheduler F → ℕ → Result F
  success_rate s level = success_rate_of s.prior (find level s.tallies)

  -- `p * (1.0 - p)`
  abbrev pub variance : F → F
  variance p = r.times p (r.minus r.one p)

  unfoldable pub weight : AdaptiveScheduler F → ℕ → Result F
  weight s level = Errors.◌>>=◌ (success_rate s level) (λ p. ok (variance p))

  -- The loop of `select_next`, with the best level so far and its weight.
  unfoldable pub scan : AdaptiveScheduler F → ℕ → F → List ℕ → Result ℕ
  scan s best best_w [] = ok best
  scan s best best_w (lv ∷ lvs) = Errors.◌>>=◌ (weight s lv) (λ w.
      let heavier = r.less best_w w in
      scan s (if heavier then lv else best) (if heavier then w else best_w) lvs)

  abbrev pub select_from : AdaptiveScheduler F → List ℕ → Result ℕ
  select_from s [] = fail index_error "list index out of range"
  select_from s (best ∷ lvs) = Errors.◌>>=◌ (weight s best) (λ best_w. scan s best best_w lvs)

  unfoldable pub select_next : AdaptiveScheduler F → Result ℕ
  select_next s = select_from s (levels_of s.tallies)

-- `record`
unfoldable pub record_outcome : {F : Type 0} → ℕ → Bool → Method (AdaptiveScheduler F) (Unit {0})
record_outcome level solved = do
  known ← gets (λ s. is_some (find level s.tallies))
  lift (raise_if (not known) key_error "level is off-schedule")
  modify (λ s. record s { tallies = tallied level solved s.tallies })
