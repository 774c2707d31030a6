-- ===== src/Blocks/Sample.antt =====
-- `sample_block_window` and the window of `make_block_env`: never over a gap, and found where one fits.
use mathlib.Core.List.{Memᴰ}
use sharpearena.Prelude.{
  ℕ, zero, suc, ◌+◌, ◌≤◌, ◌<◌, ◌≡◌, refl, ap, Bool, false, Option, none, some, List, [], ◌∷◌,
  length, get_elem?, arith,
}
use sharpearena.Prelude.Int.{ℤ, to_ℕ}
use sharpearena.Python.Errors.{ok, >>=-eq-ok}
use sharpearena.Python.Runtime.{Runtime}
use sharpearena.Blocks.{
  Timestamp, Numerics, Block, Window, below_one, negative, gap_of, ordinals, windows_loop, indexed,
  choose, find_continuous_blocks, block_windows, sample_block_window, env_window,
}
use sharpearena.Blocks.Segments.{Tiles, jump, find_continuous_blocks-Tiles}
use sharpearena.Blocks.Windows.{FitsSome, windows_loop-Memᴰ, block_windows-Memᴰ}

-- The window is long enough, ends on the axis and holds no step larger than the gap.
abbrev pub IsContinuous : (ℕ → Bool) → ℕ → ℕ → Window → Type 0
IsContinuous jumps n len w =
    (w.window_end ≡ w.window_start + len)
    × (w.window_end ≤ n)
    × ((i : ℕ) → w.window_start < i → i < w.window_end → jumps i ≡ false)

-- A window inside one of the blocks that tile the axis.
tile_window :
    (jumps : ℕ → Bool) (start n len : ℕ) (blocks : List Block) (w : Window)
    → Tiles jumps start n blocks
    → FitsSome len blocks w
    → IsContinuous jumps n len w
unfolding Tiles
tile_window jumps start n len [] w t (block, m, fits) = elim m [ ]
tile_window jumps start n len ((a, b) ∷ blocks) w (_, _, fit, smooth, _, _)
      (block, Memᴰ.head e, (lo, long, hi)) =
    let ea = ap (λ p. p.0) e in
    let eb = ap (λ p. p.1) e in
    (long, omega arith, λ i above below. smooth i (omega arith) (omega arith))
tile_window jumps start n len ((a, b) ∷ blocks) w (_, _, _, _, _, t) (block, Memᴰ.tail m, fits) =
    tile_window jumps b n len blocks w t (block, m, fits)

get_elem?-Memᴰ : (ws : List Window) (i : ℕ) (w : Window) → get_elem? ws i ≡ some w → Memᴰ w ws
get_elem?-Memᴰ [] i w h = cc
get_elem?-Memᴰ (x ∷ ws) zero w h = Memᴰ.head (cc)
get_elem?-Memᴰ (x ∷ ws) (suc i) w h = Memᴰ.tail (get_elem?-Memᴰ ws i w h)

indexed-eq-ok : (o : Option Window) (w : Window) → indexed o ≡ ok w → o ≡ some w
indexed-eq-ok none w h = cc
indexed-eq-ok (some v) w h = cc

choose-Memᴰ : (f : ℕ → ℕ) (ws : List Window) (w : Window) → choose f ws ≡ ok w → Memᴰ w ws
unfolding choose
choose-Memᴰ f [] w h = cc
choose-Memᴰ f (v ∷ ws) w h = get_elem?-Memᴰ (v ∷ ws) (f (length (v ∷ ws))) w (indexed-eq-ok _ w h)

module _ {F : Type 0} ⦃r : Runtime F⦄ ⦃np : Numerics F⦄ where
  -- A window that is handed to the environment has horizon + warmup + 1 bars, ends on the date axis,
  -- and none of the steps inside it is larger than the gap in use.
  pub env_window-IsContinuous :
      (integers : ℤ → ℕ → ℕ) (dates : List (Timestamp F)) (horizon warmup seed : ℤ)
      (max_gap : Option F) (tolerance : F) (w : Window)
      → env_window integers dates horizon warmup seed max_gap tolerance ≡ ok w
      → (gap : F) × (ords : List F) × (gap_of dates max_gap tolerance ≡ ok gap)
        × (ordinals dates ≡ ok ords)
        × IsContinuous (jump gap ords) (length ords) (to_ℕ horizon + to_ℕ warmup + 1) w
  unfolding env_window sample_block_window
  env_window-IsContinuous integers dates horizon warmup seed max_gap tolerance w h =
      let (gap, eg, h1) = >>=-eq-ok (gap_of dates max_gap tolerance) _ h in
      let (blocks, eb, h2) = >>=-eq-ok (find_continuous_blocks dates gap) _ h1 in
      let (windows, ew, h3) = >>=-eq-ok (block_windows blocks horizon warmup) _ h2 in
      let (ords, eo, t) = find_continuous_blocks-Tiles dates gap blocks eb in
      (
        gap,
        ords,
        eg,
        eo,
        tile_window (jump gap ords) 0 (length ords) _ blocks w t (
            (block_windows-Memᴰ blocks horizon warmup windows ew w).0
              (choose-Memᴰ (integers seed) windows w h3)),
      )

get_elem?_found :
    (ws : List Window) (i : ℕ) → i < length ws → (w : Window) × (get_elem? ws i ≡ some w)
get_elem?_found [] i h = absurd (omega arith)
get_elem?_found (x ∷ ws) zero h = (x, refl)
get_elem?_found (x ∷ ws) (suc i) h = get_elem?_found ws i (omega arith)

choose_found :
    (f : ℕ → ℕ) (ws : List Window) (v : Window)
    → ((n : ℕ) → 0 < n → f n < n)
    → Memᴰ v ws
    → (w : Window) × (choose f ws ≡ ok w)
unfolding choose
choose_found f [] v bound m = elim m [ ]
choose_found f (x ∷ ws) v bound m =
    let (w, e) = get_elem?_found (x ∷ ws) (f (suc (length ws))) (bound _ (omega arith)) in
    (w, ap indexed e)

-- Where the generator draws below the count that it is given, the horizon is at least 1, the warmup
-- is not negative and some window of horizon + warmup + 1 bars lies inside a block, a window is
-- returned, and it lies inside a block.
pub sample_block_window_found :
    (integers : ℤ → ℕ → ℕ) (blocks : List Block) (horizon warmup seed : ℤ) (v : Window)
    → ((n : ℕ) → 0 < n → integers seed n < n)
    → below_one horizon ≡ false
    → negative warmup ≡ false
    → FitsSome (to_ℕ horizon + to_ℕ warmup + 1) blocks v
    → (w : Window) × (sample_block_window integers blocks horizon warmup seed ≡ ok w)
      × FitsSome (to_ℕ horizon + to_ℕ warmup + 1) blocks w
unfolding sample_block_window block_windows
sample_block_window_found integers blocks horizon warmup seed v bound positive whole fits =
    let len = to_ℕ horizon + to_ℕ warmup + 1 in
    let all = windows_loop len blocks in
    let (w, e) =
      choose_found (integers seed) all v bound ((windows_loop-Memᴰ len blocks v).1 fits) in
    (
      w,
      rw (positive, whole) e,
      (windows_loop-Memᴰ len blocks w).0 (choose-Memᴰ (integers seed) all w e),
    )
