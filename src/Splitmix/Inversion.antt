-- ===== src/Splitmix/Inversion.antt =====
-- The inverse of the finalizer: the loop of `_undo_xor_right`, `unmix64`, and what one unit leaves open.
use Prim.Native.Nat.{◌/◌, ◌%◌, ◌^◌, bit_xor}
use native.Mathlib.Nat.{div-le_self}
use sharpearena.Prelude.{◌-◌, ℕ, zero, suc, ◌+◌, ◌*◌, ◌<◌, ◌≡◌, refl, sym, ap, ◌∙◌, arith}
use sharpearena.Splitmix.Xor.{xor-zero, xor_cancel, xor_comm, xor_eq_zero, xor_shift, xor_lt}
use sharpearena.Splitmix.{
  next_word, gamma, mul1, mul2, mul1_inv, mul2_inv, xor_right, mix64, undo_loop, undo_xor_right,
  unmix64,
}

abbrev pub shifted : ℕ → ℕ → ℕ → ℕ
shifted shift zero e = e
shifted shift (suc n) e = shifted shift n (e / 2 ^ shift)

-- From a guess that differs from x in the digits of e, each round shifts the difference out.
undo_loop-shifted :
    (n shift x e : ℕ)
    → undo_loop (xor_right x shift) shift n (bit_xor x e) ≡ bit_xor x (shifted shift n e)
unfolding undo_loop xor_right
undo_loop-shifted zero shift x e = refl
undo_loop-shifted (suc n) shift x e =
    rw (xor_shift shift x e, xor_cancel x (x / 2 ^ shift) (e / 2 ^ shift))
      (undo_loop-shifted n shift x (e / 2 ^ shift))

quotient_lt : (x s : ℕ) → x < 2 ^ 64 → x / 2 ^ s < 2 ^ 64
quotient_lt x s h = omega (arith, div-le_self x (2 ^ s))

xor_right_lt : (x s : ℕ) → x < 2 ^ 64 → xor_right x s < 2 ^ 64
unfolding xor_right
xor_right_lt x s h = xor_lt 64 x (x / 2 ^ s) h (quotient_lt x s h)

undo_loop_lt : (n v s out : ℕ) → v < 2 ^ 64 → out < 2 ^ 64 → undo_loop v s n out < 2 ^ 64
unfolding undo_loop
undo_loop_lt zero v s out hv h = h
undo_loop_lt (suc n) v s out hv h =
    undo_loop_lt n v s _ hv (xor_lt 64 v (out / 2 ^ s) hv (quotient_lt out s h))

-- A shift of which the rounds of the loop shift out every word.
abbrev Covers : ℕ → Type 0
Covers s = (e : ℕ) → e < 2 ^ 64 → shifted s ((64 + s - 1) / s) e ≡ 0

undo_xor_right-xor_right :
    (s : ℕ) → Covers s → (x : ℕ) → x < 2 ^ 64 → undo_xor_right (xor_right x s) s ≡ x
unfolding undo_xor_right
undo_xor_right-xor_right s covers x h = rw (small, loop) (omega arith)
  where
    small : xor_right x s % 2 ^ 64 ≡ xor_right x s
    small = omega (arith, xor_right_lt x s h)

    loop : undo_loop (xor_right x s) s ((64 + s - 1) / s) (xor_right x s) ≡ x
    loop =
        unfold xor_right in
        undo_loop-shifted ((64 + s - 1) / s) s x (x / 2 ^ s)
        ∙ ap (bit_xor x) (covers (x / 2 ^ s) (quotient_lt x s h))
        ∙ xor-zero x

-- How far a guess is from one more round.
abbrev gap : ℕ → ℕ → ℕ → ℕ
gap v s out = bit_xor out (bit_xor v (out / 2 ^ s))

xor_cancel_left : (v p q : ℕ) → bit_xor (bit_xor v p) (bit_xor v q) ≡ bit_xor p q
xor_cancel_left v p q = rw (xor_comm v p) (xor_cancel p v q)

gap-undo_loop : (n v s out : ℕ) → gap v s (undo_loop v s n out) ≡ shifted s n (gap v s out)
unfolding undo_loop
gap-undo_loop zero v s out = refl
gap-undo_loop (suc n) v s out =
    gap-undo_loop n v s (bit_xor v (out / 2 ^ s))
    ∙ ap (shifted s n) (
        xor_cancel_left v (out / 2 ^ s) (bit_xor v (out / 2 ^ s) / 2 ^ s)
        ∙ sym (xor_shift s out (bit_xor v (out / 2 ^ s))))

settled : (v q out : ℕ) → out ≡ bit_xor v q → bit_xor out q ≡ v
settled v q out e =
    ap (λ o. bit_xor o q) e
    ∙ ap (bit_xor (bit_xor v q)) (sym (xor-zero q))
    ∙ xor_cancel v q 0
    ∙ xor-zero v

xor_right-undo_xor_right :
    (s : ℕ) → Covers s → (v : ℕ) → v < 2 ^ 64 → xor_right (undo_xor_right v s) s ≡ v
unfolding undo_xor_right
xor_right-undo_xor_right s covers v h = rw (small, stays) fixed
  where
    small : v % 2 ^ 64 ≡ v
    small = omega arith

    stays : undo_loop v s ((64 + s - 1) / s) v % 2 ^ 64 ≡ undo_loop v s ((64 + s - 1) / s) v
    stays = omega (arith, undo_loop_lt ((64 + s - 1) / s) v s v h h)

    no_gap : gap v s (undo_loop v s ((64 + s - 1) / s) v) ≡ 0
    no_gap =
        gap-undo_loop ((64 + s - 1) / s) v s v
        ∙ covers (gap v s v) (xor_lt 64 v _ h (xor_lt 64 v (v / 2 ^ s) h (quotient_lt v s h)))

    fixed : xor_right (undo_loop v s ((64 + s - 1) / s) v) s ≡ v
    fixed = unfold xor_right in settled v _ _ (xor_eq_zero _ _ no_gap)

Covers-27 : Covers 27
Covers-27 e h = omega arith

Covers-30 : Covers 30
Covers-30 e h = omega arith

Covers-31 : Covers 31
Covers-31 e h = omega arith

undo_xor_right_lt : (v s : ℕ) → undo_xor_right v s < 2 ^ 64
unfolding undo_xor_right
undo_xor_right_lt v s = omega arith

small : (w : ℕ) → w < 2 ^ 64 → w % 2 ^ 64 ≡ w
small w h = omega arith

-- An odd factor and its inverse, on words.
abbrev IsInverse : ℕ → ℕ → Type 0
IsInverse m i = (w : ℕ) → w < 2 ^ 64 → w * m % 2 ^ 64 * i % 2 ^ 64 ≡ w

IsInverse-1 : IsInverse mul1 mul1_inv
IsInverse-1 w h = omega arith

IsInverse-1-sym : IsInverse mul1_inv mul1
IsInverse-1-sym w h = omega arith

IsInverse-2 : IsInverse mul2 mul2_inv
IsInverse-2 w h = omega arith

IsInverse-2-sym : IsInverse mul2_inv mul2
IsInverse-2-sym w h = omega arith

module _ (s m i : ℕ) (covers : Covers s) where
  -- One stage of the finalizer, undone.
  undone :
      IsInverse m i
      → (x : ℕ) → x < 2 ^ 64
      → undo_xor_right (xor_right x s * m % 2 ^ 64 * i % 2 ^ 64) s ≡ x
  undone inv x h =
      ap (λ v. undo_xor_right v s) (inv (xor_right x s) (xor_right_lt x s h))
      ∙ undo_xor_right-xor_right s covers x h

  -- One stage of the inverse, undone.
  redone :
      IsInverse i m
      → (v : ℕ) → v < 2 ^ 64
      → xor_right (undo_xor_right (v * i % 2 ^ 64) s) s * m % 2 ^ 64 ≡ v
  redone inv v h =
      ap (λ x. x * m % 2 ^ 64) (xor_right-undo_xor_right s covers (v * i % 2 ^ 64) (omega arith))
      ∙ inv v h

pub unmix64-mix64 : (w : ℕ) → w < 2 ^ 64 → unmix64 (mix64 w) ≡ w
unfolding unmix64 mix64
unmix64-mix64 w h =
    ap unmix64 (small _ (xor_right_lt _ 31 (omega arith)))
    ∙ ap (λ c. undo_xor_right (undo_xor_right (c * mul2_inv % 2 ^ 64) 27 * mul1_inv % 2 ^ 64) 30)
        (undo_xor_right-xor_right 31 Covers-31 _ (omega arith))
    ∙ ap (λ b. undo_xor_right (b * mul1_inv % 2 ^ 64) 30)
        (undone 27 mul2 mul2_inv Covers-27 IsInverse-2 _ (omega arith))
    ∙ undone 30 mul1 mul1_inv Covers-30 IsInverse-1 _ (omega arith)
    ∙ small w h

pub mix64-unmix64 : (w : ℕ) → w < 2 ^ 64 → mix64 (unmix64 w) ≡ w
unfolding unmix64 mix64
mix64-unmix64 w h =
    ap (λ a. xor_right (xor_right (xor_right a 30 * mul1 % 2 ^ 64) 27 * mul2 % 2 ^ 64) 31 % 2 ^ 64)
      (small _ (undo_xor_right_lt _ 30))
    ∙ ap (λ b. xor_right (xor_right b 27 * mul2 % 2 ^ 64) 31 % 2 ^ 64)
        (redone 30 mul1 mul1_inv Covers-30 IsInverse-1-sym _ (undo_xor_right_lt _ 27))
    ∙ ap (λ c. xor_right c 31 % 2 ^ 64)
        (redone 27 mul2 mul2_inv Covers-27 IsInverse-2-sym _ (undo_xor_right_lt w 31))
    ∙ ap (λ v. v % 2 ^ 64) (xor_right-undo_xor_right 31 Covers-31 w h)
    ∙ small w h

pub unmix64_lt : (w : ℕ) → unmix64 w < 2 ^ 64
unfolding unmix64
unmix64_lt w = undo_xor_right_lt _ 30

pub mix64_lt : (w : ℕ) → mix64 w < 2 ^ 64
unfolding mix64
mix64_lt w = omega arith

-- From any state, a step gives a 64-bit state and a 64-bit word, and the word gives the state back.
pub next_word_recovered :
    (s : ℕ)
    → ((next_word s).0 < 2 ^ 64)
      × ((next_word s).1 < 2 ^ 64)
      × (unmix64 (next_word s).1 ≡ (next_word s).0)
unfolding next_word
next_word_recovered s =
    (omega arith, mix64_lt _, unmix64-mix64 ((s + gamma) % 2 ^ 64) (omega arith))

-- On 64-bit words `unmix64` is the inverse of `mix64` from both sides.
pub mix64_bijective : (w : ℕ) → w < 2 ^ 64 → (unmix64 (mix64 w) ≡ w) × (mix64 (unmix64 w) ≡ w)
mix64_bijective w h = (unmix64-mix64 w h, mix64-unmix64 w h)
