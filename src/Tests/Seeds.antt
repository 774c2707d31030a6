-- ===== src/Tests/Seeds.antt =====
-- The theorems on named seeds at concrete inputs.
use sharpearena.Prelude.{
  AreDistinct, ℕ, ◌+◌, ◌≤◌, ◌≡◌, ◌↔◌, String, refl, true, false, some, List, [], ◌∷◌, All, Option,
}
use sharpearena.Prelude.Dict.{Dict}
use sharpearena.Python.Errors.{ok}
use sharpearena.Seeds.{
  eval_seed_base, eval_seeds, distinct, distinct_names, require_held_out_band, derive,
  sealed_eval_seeds, names_of, seeds_of, slots_of,
}
use sharpearena.Seeds.Band.{sealed_eval_seeds_held_out}
use sharpearena.Seeds.Regression.{
  Entry, score, unavailable, assert_no_regression, HaveSameNames, IsKept,
  assert_no_regression-IsKept,
}
use sharpearena.Tests.Sample.{whole}

-- The committed seeds pass the guard.
committed : require_held_out_band eval_seeds ≡ ok tt
unfolding require_held_out_band distinct
committed = refl

abbrev shifted : List ℕ → ℕ → ℕ
shifted salt i = eval_seed_base + i

abbrev two : Option (List String)
two = some ("a" ∷ "b" ∷ [])

abbrev two_seeds : Dict ℕ
two_seeds = ("a", 1_000_000) ∷ ("b", 1_000_001) ∷ []

sealed : sealed_eval_seeds 2 shifted (1 ∷ 2 ∷ []) two ≡ ok two_seeds
unfolding sealed_eval_seeds derive distinct distinct_names
sealed = refl

sealed_eval_seeds_held_out_example :
    (2 ≤ 2)
    × (names_of two_seeds ≡ slots_of two)
    × All (λ n. eval_seed_base ≤ n) (seeds_of two_seeds)
    × AreDistinct (seeds_of two_seeds)
sealed_eval_seeds_held_out_example =
    sealed_eval_seeds_held_out 2 shifted (1 ∷ 2 ∷ []) two two_seeds sealed

abbrev snapshot : Dict (Entry ℕ)
snapshot =
    ("a", record { deflated_sharpe = score 2; mean_return = score 1; passed_k = true })
    ∷ (
      "b",
      record { deflated_sharpe = unavailable "none"; mean_return = score 0; passed_k = false },
    )
    ∷ []

assert_no_regression-IsKept_example :
    (assert_no_regression 0 snapshot snapshot ≡ ok tt)
    ↔ (HaveSameNames snapshot snapshot × All (IsKept 0 snapshot) snapshot)
assert_no_regression-IsKept_example = assert_no_regression-IsKept 0 snapshot snapshot
