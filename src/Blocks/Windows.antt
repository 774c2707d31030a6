-- ===== src/Blocks/Windows.antt =====
-- `block_windows`: its windows are exactly those of the asked length that lie inside one block.
use mathlib.Core.List.{Memᴰ}
use mathlib.Core.List.Memᴰ
use sharpearena.Prelude.{
  ℕ, suc, ◌+◌, ◌-◌, ◌≤◌, ◌≡◌, ◌↔◌, refl, sym, ap, inl, inr, false, Bool-cases, List, [], ◌∷◌, ◌++◌,
  map, range, ltb, arith, mem-map-range, mem-map-range_inv,
}
use sharpearena.Prelude.Int.{ℤ, to_ℕ}
use sharpearena.Python.Errors.{ok, raise_if, value_error, ◌>>◌, >>=-eq-ok, ok-injective}
use sharpearena.Blocks.{Block, Window, below_one, negative, windows_in, windows_loop, block_windows}

-- A window of the length inside the block.
abbrev pub Fits : ℕ → Block → Window → Type 0
Fits len (a, b) w =
    (a ≤ w.window_start) × (w.window_end ≡ w.window_start + len) × (w.window_end ≤ b)

abbrev at_start : ℕ → ℕ → Window
at_start len s = record { window_start = s; window_end = s + len }

windows_in_long :
    (len a b : ℕ) (w : Window)
    → ltb (b - a) len ≡ false
    → Memᴰ w (map (at_start len) (range a (suc (b - len) - a))) ↔ (Fits len (a, b) w)
windows_in_long len a b w long = (sound, complete)
  where
    sound : Memᴰ w (map (at_start len) (range a (suc (b - len) - a))) → Fits len (a, b) w
    sound m =
        let (s, lo, hi, e) = mem-map-range_inv (at_start len) a (suc (b - len) - a) w m in
        rw e (lo, refl, ground arith)

    complete : Fits len (a, b) w → Memᴰ w (map (at_start len) (range a (suc (b - len) - a)))
    complete (lo, e, hi) =
        Memᴰ.cast (the_window e)
          (mem-map-range (at_start len) a (suc (b - len) - a) w.window_start lo (ground arith))
      where
        the_window : w.window_end ≡ w.window_start + len → w ≡ at_start len w.window_start
        the_window e = ap (λ n. record { window_start = w.window_start; window_end = n }) e

windows_in-Memᴰ :
    (len : ℕ) (block : Block) (w : Window) → Memᴰ w (windows_in len block) ↔ (Fits len block w)
unfolding windows_in
windows_in-Memᴰ len (a, b) w = elim (Bool-cases (ltb (b - a) len)) [
  | inl short ↦ rw short (λ m. elim m [ ], λ (lo, e, hi). absurd (ground arith))
  | inr long ↦ rw long (windows_in_long len a b w long)
]

abbrev pub FitsSome : ℕ → List Block → Window → Type 0
FitsSome len blocks w = (block : Block) × Memᴰ block blocks × Fits len block w

module _ (len : ℕ) (block : Block) (blocks : List Block) (w : Window) where
  in_first_or_rest :
      (Memᴰ w (windows_loop len blocks) → FitsSome len blocks w)
      → Memᴰ w (windows_in len block ++ windows_loop len blocks)
      → FitsSome len (block ∷ blocks) w
  in_first_or_rest rest m = elim (Memᴰ.append_cases (windows_in len block) m) [
    | inl here ↦ (block, Memᴰ.head refl, (windows_in-Memᴰ len block w).0 here)
    | inr there ↦ let (b, mb, f) = rest there in (b, Memᴰ.tail mb, f)
  ]

  from_first_or_rest :
      (FitsSome len blocks w → Memᴰ w (windows_loop len blocks))
      → FitsSome len (block ∷ blocks) w
      → Memᴰ w (windows_in len block ++ windows_loop len blocks)
  from_first_or_rest rest (b, Memᴰ.head e, f) =
      Memᴰ.append_left (windows_loop len blocks) ((windows_in-Memᴰ len block w).1 (rw (sym e) f))
  from_first_or_rest rest (b, Memᴰ.tail mb, f) =
      Memᴰ.append_right (windows_in len block) (rest (b, mb, f))

pub windows_loop-Memᴰ :
    (len : ℕ) (blocks : List Block) (w : Window)
    → Memᴰ w (windows_loop len blocks) ↔ FitsSome len blocks w
unfolding windows_loop
windows_loop-Memᴰ len [] w = (λ m. elim m [ ], λ (b, m, f). elim m [ ])
windows_loop-Memᴰ len (block ∷ blocks) w =
    let rest = windows_loop-Memᴰ len blocks w in
    (in_first_or_rest len block blocks w rest.0, from_first_or_rest len block blocks w rest.1)

-- Windows that are returned are those of horizon + warmup + 1 bars inside one of the blocks: each of
-- them, and no other.
pub block_windows-Memᴰ :
    (blocks : List Block) (horizon warmup : ℤ) (windows : List Window)
    → block_windows blocks horizon warmup ≡ ok windows
    → (w : Window)
    → Memᴰ w windows
      ↔ ((block : Block) × Memᴰ block blocks × Fits (to_ℕ horizon + to_ℕ warmup + 1) block w)
unfolding block_windows
block_windows-Memᴰ blocks horizon warmup windows h w =
    let (_, _, second) =
      >>=-eq-ok
        (raise_if (below_one horizon) value_error "horizon must be >= 1"
          >> raise_if (negative warmup) value_error "warmup must be >= 0")
        (λ _. ok (windows_loop (to_ℕ horizon + to_ℕ warmup + 1) blocks)) h in
    rw (sym (ok-injective second)) (windows_loop-Memᴰ (to_ℕ horizon + to_ℕ warmup + 1) blocks w)
