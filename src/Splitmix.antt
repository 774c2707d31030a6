-- ===== src/Splitmix.antt =====
-- splitmix_inversion.py: the SplitMix64 finalizer on 64-bit words, its inverse, and the states that
-- one published unit leaves open. Words are natural numbers; `& MASK64` is `% 2 ^ 64`, `>>` is `/`.
pub mod Xor
pub mod Inversion
pub mod Candidates
use Prim.Native.Nat.{◌/◌, ◌%◌, ◌^◌, bit_xor, bit_or}
use sharpearena.Prelude.{
  ℕ, zero, suc, ◌+◌, ◌-◌, ◌*◌, not, ◌&&◌, List, [], ◌∷◌, map, if◌then◌else◌, range,
}
use sharpearena.Prelude.Int.{pos}
use sharpearena.Python.Errors.{Result, ok, raise_if, value_error, ◌>>◌}
use sharpearena.Python.Runtime.{Runtime}

abbrev pub gamma : ℕ
gamma = 0x9E37_79B9_7F4A_7C15

abbrev pub mul1 : ℕ
mul1 = 0xBF58_476D_1CE4_E5B9

abbrev pub mul2 : ℕ
mul2 = 0x94D0_49BB_1331_11EB

-- The values of `pow(MUL1, -1, 1 << 64)` and `pow(MUL2, -1, 1 << 64)`.
abbrev pub mul1_inv : ℕ
mul1_inv = 0x96DE_1B17_3F11_9089

abbrev pub mul2_inv : ℕ
mul2_inv = 0x3196_42B2_D24D_8EC3

-- `(value ^ (value >> shift))`
unfoldable pub xor_right : ℕ → ℕ → ℕ
xor_right value shift = bit_xor value (value / 2 ^ shift)

unfoldable pub mix64 : ℕ → ℕ
mix64 word =
    let a = word % 2 ^ 64 in
    let b = xor_right a 30 * mul1 % 2 ^ 64 in
    let c = xor_right b 27 * mul2 % 2 ^ 64 in xor_right c 31 % 2 ^ 64

-- The loop of `_undo_xor_right`, n rounds of it.
unfoldable pub undo_loop : ℕ → ℕ → ℕ → ℕ → ℕ
undo_loop value shift zero out = out
undo_loop value shift (suc n) out = undo_loop value shift n (bit_xor value (out / 2 ^ shift))

-- `_undo_xor_right`
unfoldable pub undo_xor_right : ℕ → ℕ → ℕ
undo_xor_right value shift =
    undo_loop value shift ((64 + shift - 1) / shift) (value % 2 ^ 64) % 2 ^ 64

unfoldable pub unmix64 : ℕ → ℕ
unmix64 output =
    let a = undo_xor_right output 31 * mul2_inv % 2 ^ 64 in
    let b = undo_xor_right a 27 * mul1_inv % 2 ^ 64 in undo_xor_right b 30

unfoldable pub next_word : ℕ → ℕ × ℕ
next_word state = let new_state = (state + gamma) % 2 ^ 64 in (new_state, mix64 new_state)

-- The states behind the words whose upper 53 bits are top53.
unfoldable pub completions : ℕ → List ℕ
completions top53 = map (λ low. unmix64 (bit_or (top53 * 2 ^ 11) low)) (range 0 (2 ^ 11))

module _ {F : Type 0} ⦃r : Runtime F⦄ where
  unfoldable pub candidate_states_from_unit : F → Result (List ℕ)
  candidate_states_from_unit unit =
      let scaled = r.times unit (r.of_int (pos (2 ^ 53))) in
      raise_if (not (r.at_most r.zero unit && r.less unit r.one)) value_error
        "unit must lie in [0, 1)"
      >> raise_if (not (r.is_integer scaled)) value_error
          "unit is not a representable SplitMix64 next_unit value"
      >> ok (completions (r.truncate scaled))
