-- ===== src/Blocks/Segments.antt =====
-- `find_continuous_blocks`: the blocks tile the index axis, and break exactly at the jumps.
use sharpearena.Prelude.{
  ℕ, zero, suc, ◌+◌, ◌≤◌, ◌<◌, ◌≡◌, refl, sym, ap, ◌∙◌, ◌⊎◌, inl, inr, Bool, true, false,
  Bool-cases, List, [], ◌∷◌, length, arith,
}
use native.Mathlib.Decide.{ℕ_discrete}
use sharpearena.Python.Errors.{ok, ◌>>=◌, checked, ok-injective, >>=-eq-ok}
use sharpearena.Python.Runtime.{Runtime}
use sharpearena.Blocks.{
  Timestamp, Numerics, Block, ordinals, blocks_loop, blocks_of, find_continuous_blocks,
}

module _ {F : Type 0} ⦃r : Runtime F⦄ where
  -- Is the step to index i from the one before it larger than the gap?
  abbrev jump_after : F → F → List F → ℕ → Bool
  jump_after gap previous [] i = false
  jump_after gap previous (x ∷ xs) zero = r.less gap (r.minus x previous)
  jump_after gap previous (x ∷ xs) (suc i) = jump_after gap x xs i

  abbrev pub jump : F → List F → ℕ → Bool
  jump gap [] i = false
  jump gap (x ∷ xs) zero = false
  jump gap (x ∷ xs) (suc i) = jump_after gap x xs i

-- The blocks are consecutive and not empty, from start to n; no index inside a block jumps, and
-- every block but the last ends at a jump.
unfoldable pub Tiles : (ℕ → Bool) → ℕ → ℕ → List Block → Type 0
Tiles jumps start n [] = start ≡ n
Tiles jumps start n ((a, b) ∷ blocks) =
    (a ≡ start)
    × (a < b)
    × (b ≤ n)
    × ((i : ℕ) → a < i → i < b → jumps i ≡ false)
    × ((b ≡ n) ⊎ (jumps b ≡ true))
    × Tiles jumps b n blocks

module _ {F : Type 0} ⦃r : Runtime F⦄ (gap : F) (jumps : ℕ → Bool) where
  -- The open block is free of jumps up to i, and `jumps` goes on as the list does.
  blocks_loop-Tiles :
      (xs : List F) (start i : ℕ) (previous : F)
      → start < i
      → ((k : ℕ) → start < k → k < i → jumps k ≡ false)
      → ((k : ℕ) → jumps (i + k) ≡ jump_after gap previous xs k)
      → Tiles jumps start (i + length xs) (blocks_loop gap start i previous xs)
  unfolding blocks_loop Tiles
  blocks_loop-Tiles [] start i previous lies smooth same =
      (refl, lies, omega arith, smooth, inl (omega arith), omega arith)
  blocks_loop-Tiles (x ∷ xs) start i previous lies smooth same =
      elim (Bool-cases (r.less gap (r.minus x previous))) [
        | inl breaks ↦ rw breaks (
          refl,
          lies,
          omega arith,
          smooth,
          inr (here true breaks),
          moved _ _ (
              blocks_loop-Tiles xs i (suc i) x (omega arith) (λ k lo hi. absurd (omega arith))
                rest),
        )
        | inr stays ↦
            rw stays
              (moved _ _ (blocks_loop-Tiles xs start (suc i) x (omega arith) (longer stays) rest))
      ]
    where
      here : (b : Bool) → r.less gap (r.minus x previous) ≡ b → jumps i ≡ b
      here b e = ap jumps {x = i} {y = i + 0} (omega arith) ∙ same 0 ∙ e

      longer :
          r.less gap (r.minus x previous) ≡ false
          → (k : ℕ) → start < k
          → k < suc i
          → jumps k ≡ false
      longer e k lo hi = elim (ℕ_discrete k i) [
        | yes eq ↦ ap jumps eq ∙ here false e
        | no ne ↦ smooth k lo (omega arith)
      ]

      rest : (k : ℕ) → jumps (suc i + k) ≡ jump_after gap x xs k
      rest k = ap jumps {x = suc i + k} {y = i + suc k} (omega arith) ∙ same (suc k)

      moved :
          (s : ℕ) (bs : List Block)
          → Tiles jumps s (suc i + length xs) bs
          → Tiles jumps s (i + suc (length xs)) bs
      moved s bs t = let e : i + suc (length xs) ≡ suc i + length xs = omega arith in rw e t

module _ {F : Type 0} ⦃r : Runtime F⦄ (gap : F) where
  blocks_of-Tiles : (ords : List F) → Tiles (jump gap ords) 0 (length ords) (blocks_of gap ords)
  unfolding blocks_of Tiles
  blocks_of-Tiles [] = refl
  blocks_of-Tiles (x ∷ xs) =
      let e : suc (length xs) ≡ 1 + length xs = omega arith in
      rw e (
        blocks_loop-Tiles gap (jump gap (x ∷ xs)) xs 0 1 x (omega arith)
          (λ k lo hi. absurd (omega arith))
          (λ k. ap (jump gap (x ∷ xs)) {x = 1 + k} {y = suc k} (omega arith)))

module _ {F : Type 0} ⦃r : Runtime F⦄ ⦃np : Numerics F⦄ where
  -- Blocks that are found are consecutive, not empty and cover the axis; no step inside a block is
  -- larger than the gap, and the step at which a block ends is.
  pub find_continuous_blocks-Tiles :
      (timestamps : List (Timestamp F)) (gap : F) (blocks : List Block)
      → find_continuous_blocks timestamps gap ≡ ok blocks
      → (ords : List F) × (ordinals timestamps ≡ ok ords)
        × Tiles (jump gap ords) 0 (length ords) blocks
  unfolding find_continuous_blocks
  find_continuous_blocks-Tiles timestamps gap blocks h =
      let (_, found) =
        checked (r.at_most gap r.zero) _ _ (ordinals timestamps >>= λ ords. ok (blocks_of gap ords))
          h in
      let (ords, e, same) = >>=-eq-ok (ordinals timestamps) _ found in
      (ords, e, rw (sym (ok-injective same)) (blocks_of-Tiles gap ords))
