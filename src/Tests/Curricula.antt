-- ===== src/Tests/Curricula.antt =====
-- The adaptive schedule of curriculum.py at concrete levels.
use mathlib.Core.List.{Memᴰ}
use sharpearena.Prelude.{
  AreDistinct, ◌↔◌, ℕ, ◌*◌, ◌≡◌, refl, Bool, true, false, List, [], ◌∷◌, ◌⊎◌, ltb, All, arith,
}
use sharpearena.Python.Errors.{ok}
use sharpearena.Python.Runtime.{Runtime}
use sharpearena.Curriculum.{
  AdaptiveScheduler, levels_of, dedupe, find, new_scheduler, success_rate, success_rate_of, rate_of,
  weight, scan, select_next,
}
use sharpearena.Curriculum.Tallies.{IsTally, record_all, record_all-IsTally}
use sharpearena.Curriculum.Selection.{IsOrder, IsFirst, select_next-IsFirst}
use sharpearena.Tests.Sample.{whole}

-- Rates in percent.
abbrev percents : Runtime ℕ
percents = record whole { one = 100; over = λ a b. whole.over (100 * a) b; is_finite = λ a. true }

percents-IsOrder : IsOrder ℕ ⦃r = percents⦄
percents-IsOrder = record {
  transitive = λ a b c h k. ground (arith, h, k);
  between = λ a b c finite h. beside a b c h;
}
  where
    beside : (a b c : ℕ) → ltb a c ≡ true → (ltb a b ≡ true) ⊎ (ltb b c ≡ true)
    beside a b c h = ground (arith, h)

-- Level 7 is always solved, 8 and 9 every other time.
abbrev mixed : AdaptiveScheduler ℕ
mixed = record {
  tallies =
      record { level = 7; solves = 3; attempts = 3 }
      ∷ record { level = 8; solves = 1; attempts = 2 }
      ∷ record { level = 9; solves = 2; attempts = 4 }
      ∷ [];
  prior = 50;
}

mixed_selected : select_next ⦃r = percents⦄ mixed ≡ ok 8
unfolding select_next scan weight success_rate success_rate_of rate_of find
mixed_selected = refl

select_next-IsFirst_example :
    (best : ℕ) × (w : ℕ) × (select_next ⦃r = percents⦄ mixed ≡ ok best)
    × IsFirst ⦃r = percents⦄ mixed (levels_of mixed.tallies) best w
select_next-IsFirst_example =
    select_next-IsFirst ⦃r = percents⦄ mixed 7 (8 ∷ 9 ∷ []) refl (λ level w e. refl)
      percents-IsOrder

abbrev outcomes : List (ℕ × Bool)
outcomes = (7, true) ∷ (8, false) ∷ (5, true) ∷ (8, true) ∷ []

abbrev new_mixed : AdaptiveScheduler ℕ
new_mixed = record {
  tallies =
      record { level = 7; solves = 0; attempts = 0 }
      ∷ record { level = 8; solves = 0; attempts = 0 }
      ∷ [];
  prior = 50;
}

new_mixed_made : new_scheduler ⦃r = percents⦄ (7 ∷ 8 ∷ 7 ∷ []) 50 ≡ ok new_mixed
unfolding new_scheduler dedupe
new_mixed_made = refl

record_all-IsTally_example :
    AreDistinct (levels_of (record_all outcomes new_mixed).tallies)
    × ((level : ℕ)
        → Memᴰ level (levels_of (record_all outcomes new_mixed).tallies)
          ↔ Memᴰ level (7 ∷ 8 ∷ 7 ∷ []))
    × All IsTally (record_all outcomes new_mixed).tallies
record_all-IsTally_example =
    record_all-IsTally ⦃r = percents⦄ (7 ∷ 8 ∷ 7 ∷ []) 50 new_mixed outcomes new_mixed_made
