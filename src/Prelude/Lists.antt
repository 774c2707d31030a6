-- ===== src/Prelude/Lists.antt =====
-- Lists over the native numbers, under the library's names, and predicates on lists.
use Prim.Native.Nat.{ℕ, zero, suc, ◌+◌, ◌≤◌, ◌<◌}
use mathlib.Core.Path.{◌≡◌, ap}
use mathlib.Core.Logic.{◌≢◌}
use native.Mathlib.Decide.{ℕ_discrete}
use mathlib.Core.List.{List, [], ◌∷◌, ◌++◌, map, Memᴰ}
use mathlib.Core.Bool.{Bool, true, false, ◌&&◌, ◌||◌}
use mathlib.Core.Option.{Option, none, some}
use native.Mathlib.Omega.{arith}

module _ {ℓ} {A : Type ℓ} where
  abbrev pub length : List A → ℕ
  length [] = 0
  length (x ∷ xs) = suc (length xs)

  abbrev pub get_elem? : List A → ℕ → Option A
  get_elem? [] i = none
  get_elem? (x ∷ xs) zero = some x
  get_elem? (x ∷ xs) (suc i) = get_elem? xs i

  abbrev pub set : List A → ℕ → A → List A
  set [] i v = []
  set (x ∷ xs) zero v = v ∷ xs
  set (x ∷ xs) (suc i) v = x ∷ set xs i v

  abbrev pub replicate : ℕ → A → List A
  replicate zero a = []
  replicate (suc n) a = a ∷ replicate n a

  -- Python's `all` and `any` over a generator.
  abbrev pub all : (A → Bool) → List A → Bool
  all p [] = true
  all p (x ∷ xs) = p x && all p xs

  abbrev pub any : (A → Bool) → List A → Bool
  any p [] = false
  any p (x ∷ xs) = p x || any p xs

  pub length-append : (xs ys : List A) → length (xs ++ ys) ≡ length xs + length ys
  length-append [] ys = omega arith
  length-append (x ∷ xs) ys = omega (arith, length-append xs ys)

abbrev pub All {ℓ κ} : {A : Type ℓ} → (A → Type κ) → List A → Type κ
All P [] = Unit
All P (x ∷ xs) = P x × All P xs

-- Each number is different from those after it.
abbrev pub AreDistinct : List ℕ → Type 0
AreDistinct [] = Unit
AreDistinct (n ∷ ns) = All (λ m. n ≢ m) ns × AreDistinct ns

-- Python's `range(start, start + n)`.
abbrev pub range : ℕ → ℕ → List ℕ
range start zero = []
range start (suc n) = start ∷ range (suc start) n

pub length-range : (start n : ℕ) → length (range start n) ≡ n
length-range start zero = omega arith
length-range start (suc n) = omega (arith, length-range (suc start) n)

module _ {ℓ} {A : Type ℓ} (f : ℕ → A) where
  pub length-map-range : (start n : ℕ) → length (map f (range start n)) ≡ n
  length-map-range start zero = omega arith
  length-map-range start (suc n) = omega (arith, length-map-range (suc start) n)

  -- What stands in a list computed over a range, and what does not.
  pub mem-map-range :
      (start n i : ℕ) → start ≤ i → i < start + n → Memᴰ (f i) (map f (range start n))
  mem-map-range start zero i lo hi = absurd (omega arith)
  mem-map-range start (suc n) i lo hi = elim (ℕ_discrete i start) [
    | yes e ↦ Memᴰ.head (ap f e)
    | no e ↦ Memᴰ.tail (mem-map-range (suc start) n i (omega arith) (omega arith))
  ]

  pub mem-map-range_inv :
      (start n : ℕ) (x : A)
      → Memᴰ x (map f (range start n))
      → (i : ℕ) × (start ≤ i) × (i < start + n) × (x ≡ f i)
  mem-map-range_inv start zero x m = elim m [ ]
  mem-map-range_inv start (suc n) x (Memᴰ.head e) = (start, omega arith, omega arith, e)
  mem-map-range_inv start (suc n) x (Memᴰ.tail m) =
      let (i, lo, hi, e) = mem-map-range_inv (suc start) n x m in (i, omega arith, omega arith, e)
