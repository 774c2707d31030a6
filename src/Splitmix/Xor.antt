-- ===== src/Splitmix/Xor.antt =====
-- Exclusive or of the binary digits: its laws, and how it meets a shift and a bound.
use Prim.Native.Nat.{◌/◌, ◌%◌, ◌^◌, bit_xor, digits, differ, bit_xor-bitwise}
use native.Mathlib.Nat.{div-div-eq-div-mul}
use sharpearena.Prelude.{ℕ, zero, suc, ◌+◌, ◌*◌, ◌≤◌, ◌<◌, ◌≡◌, refl, sym, ap, ◌∙◌, arith}

module _ (z : ℕ → ℕ) (f : ℕ → ℕ → ℕ) where
  digits-zero : (k b : ℕ) → digits z f k 0 b ≡ z b
  digits-zero zero b = refl
  digits-zero (suc k) b = refl

  -- The count of digits does not matter once it covers the first number.
  pub enough_digits : (n m a b : ℕ) → a ≤ n → a ≤ m → digits z f n a b ≡ digits z f m a b
  enough_digits n m zero b p q = digits-zero n b ∙ sym (digits-zero m b)
  enough_digits zero m (suc a) b p q = absurd (omega arith)
  enough_digits (suc n) zero (suc a) b p q = absurd (omega arith)
  enough_digits (suc n) (suc m) (suc a) b p q =
      ap (λ d. d * 2 + f (suc a % 2) (b % 2))
        (enough_digits n m (suc a / 2) (b / 2) (omega arith) (omega arith))

differ-mod : (x y : ℕ) → x < 2 → y < 2 → differ x y ≡ (x + y) % 2
differ-mod zero y hx hy = omega arith
differ-mod (suc zero) zero hx hy = refl
differ-mod (suc zero) (suc zero) hx hy = refl
differ-mod (suc zero) (suc (suc y)) hx hy = absurd (omega arith)
differ-mod (suc (suc x)) y hx hy = absurd (omega arith)

-- The lowest digit and the others.
pub xor_step : (a b : ℕ) → bit_xor a b ≡ bit_xor (a / 2) (b / 2) * 2 + (a + b) % 2
xor_step zero b = simp bit_xor-bitwise (omega arith)
xor_step (suc a) b = simp bit_xor-bitwise (
    omega (
      arith,
      enough_digits (λ y. y) differ a (suc a / 2) (suc a / 2) (b / 2) (omega arith) (omega arith),
      differ-mod (suc a % 2) (b % 2) (omega arith) (omega arith),
    ))

xor_half : (a b : ℕ) → bit_xor a b / 2 ≡ bit_xor (a / 2) (b / 2)
xor_half a b = omega (arith, xor_step a b)

xor_low : (a b : ℕ) → bit_xor a b % 2 ≡ (a + b) % 2
xor_low a b = omega (arith, xor_step a b)

-- Numbers with the same digits are the same.
by_digits : (a b : ℕ) → a / 2 ≡ b / 2 → a % 2 ≡ b % 2 → a ≡ b
by_digits a b h l = omega arith

xor-zero_below : (n a : ℕ) → a ≤ n → bit_xor a 0 ≡ a
xor-zero_below zero a h = let ea : a ≡ 0 = omega arith in rw ea refl
xor-zero_below (suc n) a h =
    by_digits _ _ (simp xor_half (xor-zero_below n (a / 2) (omega arith)))
      (omega (arith, xor_low a 0))

pub xor-zero : (a : ℕ) → bit_xor a 0 ≡ a
xor-zero a = xor-zero_below a a (omega arith)

-- What stands between two terms cancels.
xor_cancel_below :
    (n a b c : ℕ) → a ≤ n → b ≤ n → c ≤ n → bit_xor (bit_xor a b) (bit_xor b c) ≡ bit_xor a c
xor_cancel_below zero a b c ha hb hc =
    let ea : a ≡ 0 = omega arith in
    let eb : b ≡ 0 = omega arith in let ec : c ≡ 0 = omega arith in rw (ea, eb, ec) refl
xor_cancel_below (suc n) a b c ha hb hc =
    by_digits _ _
      (simp xor_half
        (xor_cancel_below n (a / 2) (b / 2) (c / 2) (omega arith) (omega arith) (omega arith)))
      (omega (arith, xor_low (bit_xor a b) (bit_xor b c), xor_low a b, xor_low b c, xor_low a c))

pub xor_cancel : (a b c : ℕ) → bit_xor (bit_xor a b) (bit_xor b c) ≡ bit_xor a c
xor_cancel a b c = xor_cancel_below (a + b + c) a b c (omega arith) (omega arith) (omega arith)

xor_comm_below : (n a b : ℕ) → a ≤ n → b ≤ n → bit_xor a b ≡ bit_xor b a
xor_comm_below zero a b ha hb =
    let ea : a ≡ 0 = omega arith in let eb : b ≡ 0 = omega arith in rw (ea, eb) refl
xor_comm_below (suc n) a b ha hb =
    by_digits _ _ (simp xor_half (xor_comm_below n (a / 2) (b / 2) (omega arith) (omega arith)))
      (omega (arith, xor_low a b, xor_low b a))

pub xor_comm : (a b : ℕ) → bit_xor a b ≡ bit_xor b a
xor_comm a b = xor_comm_below (a + b) a b (omega arith) (omega arith)

-- Numbers that differ in no digit are the same.
xor_eq_zero_below : (n a b : ℕ) → a ≤ n → b ≤ n → bit_xor a b ≡ 0 → a ≡ b
xor_eq_zero_below zero a b ha hb h = omega arith
xor_eq_zero_below (suc n) a b ha hb h =
    by_digits _ _
      (xor_eq_zero_below n (a / 2) (b / 2) (omega arith) (omega arith)
        (omega (arith, xor_step a b)))
      (omega (arith, xor_step a b))

pub xor_eq_zero : (a b : ℕ) → bit_xor a b ≡ 0 → a ≡ b
xor_eq_zero a b = xor_eq_zero_below (a + b) a b (omega arith) (omega arith)

half-shift : (a k : ℕ) → a / 2 / 2 ^ k ≡ a / 2 ^ suc k
half-shift a k = div-div-eq-div-mul a 2 (2 ^ k) ∙ ap (λ d. a / d) {x = 2 * 2 ^ k} (omega arith)

pub xor_shift : (k a b : ℕ) → bit_xor a b / 2 ^ k ≡ bit_xor (a / 2 ^ k) (b / 2 ^ k)
xor_shift zero a b =
    let ea : a / 2 ^ 0 ≡ a = omega arith in
    let eb : b / 2 ^ 0 ≡ b = omega arith in rw (ea, eb) (omega arith)
xor_shift (suc k) a b =
    simp
      (
        sym (half-shift (bit_xor a b) k),
        sym (half-shift a k),
        sym (half-shift b k),
        xor_half,
        xor_shift k (a / 2) (b / 2),
      )
      refl

-- The words of a width are closed under exclusive or.
pub xor_lt : (k a b : ℕ) → a < 2 ^ k → b < 2 ^ k → bit_xor a b < 2 ^ k
xor_lt zero a b ha hb =
    let ea : a ≡ 0 = omega arith in let eb : b ≡ 0 = omega arith in rw (ea, eb) (omega arith)
xor_lt (suc k) a b ha hb =
    omega (arith, xor_step a b, xor_lt k (a / 2) (b / 2) (omega arith) (omega arith))
