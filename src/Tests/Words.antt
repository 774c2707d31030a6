-- ===== src/Tests/Words.antt =====
-- The theorems on the finalizer and its inverse at concrete inputs.
use Prim.Native.Nat.{◌/◌, ◌^◌}
use mathlib.Core.List.{Memᴰ}
use sharpearena.Prelude.{ℕ, ◌<◌, ◌≡◌, ◌↔◌, refl, List, length, arith}
use sharpearena.Python.Errors.{ok}
use sharpearena.Splitmix.{xor_right, mix64, unmix64, next_word, candidate_states_from_unit}
use sharpearena.Splitmix.Inversion.{mix64_bijective}
use sharpearena.Splitmix.Candidates.{candidate_states_exact}
use sharpearena.Tests.Sample.{whole}

-- The first word of the generator at state 0, as published.
first_word : (next_word 0).1 ≡ 0xE220_A839_7B1D_CDAF
unfolding next_word mix64 xor_right
first_word = refl

mix64_bijective_example : (unmix64 (mix64 7) ≡ 7) × (mix64 (unmix64 7) ≡ 7)
mix64_bijective_example = mix64_bijective 7 (omega arith)

candidate_states_exact_example :
    (states : List ℕ) × (candidate_states_from_unit {F = ℕ} 0 ≡ ok states)
    × (length states ≡ 2 ^ 11)
    × ((s : ℕ) → Memᴰ s states ↔ ((s < 2 ^ 64) × (mix64 s / 2 ^ 11 ≡ 0)))
candidate_states_exact_example = candidate_states_exact 0 0 refl refl refl (omega arith)
