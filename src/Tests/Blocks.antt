-- ===== src/Tests/Blocks.antt =====
-- The theorems on continuous blocks at concrete inputs.
use Prim.Native.Nat.{◌%◌}
use mathlib.Core.List.{Memᴰ}
use sharpearena.Prelude.{ℕ, ◌<◌, ◌≡◌, ◌↔◌, refl, none, some, List, [], ◌∷◌, map, length, arith}
use sharpearena.Prelude.Int.{ℤ, pos}
use sharpearena.Python.Errors.{ok}
use sharpearena.Blocks.{
  Timestamp, Numerics, Block, Window, number, to_ordinal, ordinals, blocks_loop, blocks_of,
  windows_in, windows_loop, choose, find_continuous_blocks, block_windows, sample_block_window,
  env_window, gap_of,
}
use sharpearena.Blocks.Segments.{Tiles, jump, find_continuous_blocks-Tiles}
use sharpearena.Blocks.Windows.{Fits, block_windows-Memᴰ}
use sharpearena.Blocks.Sample.{IsContinuous, env_window-IsContinuous, sample_block_window_found}
use sharpearena.Tests.Sample.{whole}

instance abbrev plain : Numerics ℕ
plain = record { date_ordinal = λ s. none; datetime_timestamp = λ s. none; median = λ xs. 1 }

-- Three days, a gap, and four days.
abbrev days : List (Timestamp ℕ)
days = map number (1 ∷ 2 ∷ 3 ∷ 7 ∷ 8 ∷ 9 ∷ 10 ∷ [])

abbrev two_blocks : List Block
two_blocks = (0, 3) ∷ (3, 7) ∷ []

two_blocks_found : find_continuous_blocks days 1 ≡ ok two_blocks
unfolding find_continuous_blocks ordinals to_ordinal blocks_of blocks_loop
two_blocks_found = refl

find_continuous_blocks-Tiles_example :
    (ords : List ℕ) × (ordinals days ≡ ok ords) × Tiles (jump 1 ords) 0 (length ords) two_blocks
find_continuous_blocks-Tiles_example =
    find_continuous_blocks-Tiles days 1 two_blocks two_blocks_found

abbrev at_three : Window
at_three = record { window_start = 3; window_end = 6 }

abbrev at_four : Window
at_four = record { window_start = 4; window_end = 7 }

abbrev first_three : Window
first_three = record { window_start = 0; window_end = 3 }

three_windows :
    block_windows two_blocks (pos 2) (pos 0) ≡ ok (first_three ∷ at_three ∷ at_four ∷ [])
unfolding block_windows windows_loop windows_in
three_windows = refl

block_windows-Memᴰ_example :
    Memᴰ at_three (first_three ∷ at_three ∷ at_four ∷ [])
    ↔ ((block : Block) × Memᴰ block two_blocks × Fits 3 block at_three)
block_windows-Memᴰ_example =
    block_windows-Memᴰ two_blocks (pos 2) (pos 0) (first_three ∷ at_three ∷ at_four ∷ [])
      three_windows at_three

abbrev one_of : ℤ → ℕ → ℕ
one_of seed n = 1 % n

sampled : env_window one_of days (pos 2) (pos 0) (pos 5) (some 1) 1 ≡ ok at_three
unfolding env_window sample_block_window choose find_continuous_blocks ordinals to_ordinal blocks_of
    blocks_loop block_windows windows_loop windows_in
sampled = refl

env_window-IsContinuous_example :
    (gap : ℕ) × (ords : List ℕ) × (gap_of days (some 1) 1 ≡ ok gap)
    × (ordinals days ≡ ok ords)
    × IsContinuous (jump gap ords) (length ords) 3 at_three
env_window-IsContinuous_example =
    env_window-IsContinuous one_of days (pos 2) (pos 0) (pos 5) (some 1) 1 at_three sampled

one_of_bound : (n : ℕ) → 0 < n → one_of (pos 5) n < n
one_of_bound n h = omega arith

sample_block_window_found_example :
    (w : Window) × (sample_block_window one_of two_blocks (pos 2) (pos 0) (pos 5) ≡ ok w)
    × ((block : Block) × Memᴰ block two_blocks × Fits 3 block w)
sample_block_window_found_example =
    sample_block_window_found one_of two_blocks (pos 2) (pos 0) (pos 5) at_three one_of_bound refl
      refl ((3, 7), Memᴰ.tail (Memᴰ.head refl), (omega arith, refl, omega arith))
