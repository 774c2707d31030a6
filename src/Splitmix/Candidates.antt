-- ===== src/Splitmix/Candidates.antt =====
-- The states that one published unit leaves open: `candidate_states_from_unit`.
use Prim.Native.Nat.{◌/◌, ◌%◌, ◌^◌, bit_or, max, bit_or-bitwise}
use native.Mathlib.Nat.{mul_assoc}
use mathlib.Core.List.{Memᴰ}
use sharpearena.Prelude.{
  ℕ, zero, suc, ◌+◌, ◌*◌, ◌≤◌, ◌<◌, ◌≡◌, ◌↔◌, refl, sym, ap, ◌∙◌, arith, true, ◌&&◌, List, length,
  mem-map-range, mem-map-range_inv, length-map-range,
}
use sharpearena.Prelude.Int.{pos}
use sharpearena.Python.Errors.{ok}
use sharpearena.Python.Runtime.{Runtime}
use sharpearena.Splitmix.Xor.{enough_digits}
use sharpearena.Splitmix.{mix64, unmix64, completions, candidate_states_from_unit}
use sharpearena.Splitmix.Inversion.{unmix64-mix64, mix64-unmix64, unmix64_lt}

-- The lowest digit and the others.
or_step : (a b : ℕ) → bit_or a b ≡ bit_or (a / 2) (b / 2) * 2 + max (a % 2) (b % 2)
or_step zero b = simp bit_or-bitwise (omega arith)
or_step (suc a) b = simp bit_or-bitwise (
    omega (
      arith,
      enough_digits (λ y. y) max a (suc a / 2) (suc a / 2) (b / 2) (omega arith) (omega arith),
    ))

or-double : (q b : ℕ) → bit_or (q * 2) b ≡ bit_or q (b / 2) * 2 + b % 2
or-double q b =
    omega
      (arith, or_step (q * 2) b, ap (λ u. bit_or u (b / 2)) {x = q * 2 / 2} {y = q} (omega arith))

or-zero_below : (n a : ℕ) → a ≤ n → bit_or a 0 ≡ a
or-zero_below zero a h = let e : a ≡ 0 = omega arith in rw e refl
or-zero_below (suc n) a h = omega (arith, or_step a 0, or-zero_below n (a / 2) (omega arith))

or-zero : (a b : ℕ) → b ≡ 0 → bit_or a b ≡ a
or-zero a b h = ap (bit_or a) h ∙ or-zero_below a a (omega arith)

-- A word from its upper digits and its lower ones.
or-add : (k a b : ℕ) → b < 2 ^ k → bit_or (a * 2 ^ k) b ≡ a * 2 ^ k + b
or-add zero a b h = or-zero (a * 2 ^ 0) b (omega arith) ∙ omega arith
or-add (suc k) a b h =
    ap (λ u. bit_or u b) double
    ∙ or-double (a * 2 ^ k) b
    ∙ omega (arith, double, or-add k a (b / 2) (omega arith))
  where
    double : a * 2 ^ suc k ≡ a * 2 ^ k * 2
    double = ap (λ u. a * u) {x = 2 ^ suc k} (omega arith) ∙ sym (mul_assoc a (2 ^ k) 2)

-- The words with the upper bits `top`: what a completion of them is.
abbrev pub word : ℕ → ℕ → ℕ
word top low = bit_or (top * 2 ^ 11) low

completion :
    (top s : ℕ) → s < 2 ^ 64 → mix64 s / 2 ^ 11 ≡ top → s ≡ unmix64 (word top (mix64 s % 2 ^ 11))
completion top s h e =
    sym (unmix64-mix64 s h)
    ∙ ap unmix64 (omega (arith, or-add 11 top (mix64 s % 2 ^ 11) (omega arith)))

pub completions-Memᴰ :
    (top s : ℕ)
    → top < 2 ^ 53
    → Memᴰ s (completions top) ↔ ((s < 2 ^ 64) × (mix64 s / 2 ^ 11 ≡ top))
unfolding completions
completions-Memᴰ top s h = (sound, complete)
  where
    sound : Memᴰ s (completions top) → (s < 2 ^ 64) × (mix64 s / 2 ^ 11 ≡ top)
    sound m =
        let (low, lo, hi, e) = mem-map-range_inv (λ low. unmix64 (word top low)) 0 (2 ^ 11) s m in
        let shape = or-add 11 top low hi in
        (
          rw e (unmix64_lt (word top low)),
          rw e (rw (mix64-unmix64 (word top low) (omega arith)) (omega arith)),
        )

    complete : (s < 2 ^ 64) × (mix64 s / 2 ^ 11 ≡ top) → Memᴰ s (completions top)
    complete (lt, e) = rw (completion top s lt e) (
        mem-map-range (λ low. unmix64 (word top low)) 0 (2 ^ 11) (mix64 s % 2 ^ 11) (omega arith)
          (omega arith))

module _ {F : Type 0} ⦃r : Runtime F⦄ where
  -- A published unit in [0, 1) with a whole numerator below 2 ^ 53 gives 2 ^ 11 candidates, and a
  -- state is among them exactly where it is a 64-bit word whose finalized word has that numerator
  -- as its upper 53 bits.
  pub candidate_states_exact :
      (unit : F) (top : ℕ)
      → (r.at_most r.zero unit && r.less unit r.one) ≡ true
      → r.is_integer (r.times unit (r.of_int (pos (2 ^ 53)))) ≡ true
      → r.truncate (r.times unit (r.of_int (pos (2 ^ 53)))) ≡ top
      → top < 2 ^ 53
      → (states : List ℕ) × (candidate_states_from_unit unit ≡ ok states)
        × (length states ≡ 2 ^ 11)
        × ((s : ℕ) → Memᴰ s states ↔ ((s < 2 ^ 64) × (mix64 s / 2 ^ 11 ≡ top)))
  unfolding candidate_states_from_unit completions
  candidate_states_exact unit top inside whole e h = (
    completions top,
    rw (inside, whole, e) refl,
    length-map-range (λ low. unmix64 (word top low)) 0 (2 ^ 11),
    λ s. completions-Memᴰ top s h,
  )
