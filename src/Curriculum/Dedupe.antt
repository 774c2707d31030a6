-- ===== src/Curriculum/Dedupe.antt =====
-- What the loop of `AdaptiveScheduler.__init__` keeps of the given levels: each of them, once.
use mathlib.Core.List.{Memᴰ}
use sharpearena.Prelude.{
  ℕ, ◌≡◌, ◌≢◌, ◌↔◌, ◌⊎◌, inl, inr, true, false, Bool-cases, List, [], ◌∷◌, ◌++◌, any, ◌==◌,
  ||-eq-false, All, AreDistinct, arith,
}
use sharpearena.Curriculum.{dedupe}

none_same : (x : ℕ) (ks : List ℕ) → any (λ k. k == x) ks ≡ false → All (λ k. k ≢ x) ks
none_same x [] h = tt
none_same x (k ∷ ks) h =
    let (here, rest) = ||-eq-false (k == x) _ h in (λ e. differs e here, none_same x ks rest)
  where
    differs : k ≡ x → (k == x) ≡ false → ⊥
    differs e d = ground arith

some_same : (x : ℕ) (ks : List ℕ) → any (λ k. k == x) ks ≡ true → Memᴰ x ks
some_same x [] h = absurd cc
some_same x (k ∷ ks) h = elim (Bool-cases (k == x)) [
  | inl e ↦ Memᴰ.head ground arith
  | inr e ↦ Memᴰ.tail (some_same x ks (rw e at h))
]

All-append-≢ :
    (n x : ℕ) (ks : List ℕ) → All (λ m. n ≢ m) ks → n ≢ x → All (λ m. n ≢ m) (ks ++ (x ∷ []))
All-append-≢ n x [] h d = (d, tt)
All-append-≢ n x (k ∷ ks) (a, h) d = (a, All-append-≢ n x ks h d)

append-AreDistinct :
    (x : ℕ) (ks : List ℕ) → AreDistinct ks → All (λ k. k ≢ x) ks → AreDistinct (ks ++ (x ∷ []))
append-AreDistinct x [] h d = (tt, tt)
append-AreDistinct x (k ∷ ks) (a, h) (b, d) = (All-append-≢ k x ks a b, append-AreDistinct x ks h d)

pub dedupe-AreDistinct : (kept xs : List ℕ) → AreDistinct kept → AreDistinct (dedupe kept xs)
unfolding dedupe
dedupe-AreDistinct kept [] h = h
dedupe-AreDistinct kept (x ∷ xs) h = elim (Bool-cases (any (λ k. k == x) kept)) [
  | inl e ↦ rw e (dedupe-AreDistinct kept xs h)
  | inr e ↦
      rw e (
        dedupe-AreDistinct (kept ++ (x ∷ [])) xs (append-AreDistinct x kept h (none_same x kept e)))
]

into_append : (y x : ℕ) (ks : List ℕ) → Memᴰ y ks ⊎ (y ≡ x) → Memᴰ y (ks ++ (x ∷ []))
into_append y x [] (inl m) = elim m [ ]
into_append y x [] (inr e) = Memᴰ.head e
into_append y x (k ∷ ks) (inl (Memᴰ.head e)) = Memᴰ.head e
into_append y x (k ∷ ks) (inl (Memᴰ.tail m)) = Memᴰ.tail (into_append y x ks (inl m))
into_append y x (k ∷ ks) (inr e) = Memᴰ.tail (into_append y x ks (inr e))

from_append : (y x : ℕ) (ks : List ℕ) → Memᴰ y (ks ++ (x ∷ [])) → Memᴰ y ks ⊎ (y ≡ x)
from_append y x [] (Memᴰ.head e) = inr e
from_append y x [] (Memᴰ.tail m) = elim m [ ]
from_append y x (k ∷ ks) (Memᴰ.head e) = inl (Memᴰ.head e)
from_append y x (k ∷ ks) (Memᴰ.tail m) = deeper (from_append y x ks m)
  where
    deeper : Memᴰ y ks ⊎ (y ≡ x) → Memᴰ y (k ∷ ks) ⊎ (y ≡ x)
    deeper (inl n) = inl (Memᴰ.tail n)
    deeper (inr e) = inr e

kept-dedupe : (y : ℕ) (kept xs : List ℕ) → Memᴰ y kept ⊎ Memᴰ y xs → Memᴰ y (dedupe kept xs)
unfolding dedupe
kept-dedupe y kept [] (inl m) = m
kept-dedupe y kept [] (inr m) = elim m [ ]
kept-dedupe y kept (x ∷ xs) h = elim (Bool-cases (any (λ k. k == x) kept)) [
  | inl e ↦ rw e (kept-dedupe y kept xs (known e h))
  | inr e ↦ rw e (kept-dedupe y (kept ++ (x ∷ [])) xs (moved h))
]
  where
    known : any (λ k. k == x) kept ≡ true → Memᴰ y kept ⊎ Memᴰ y (x ∷ xs) → Memᴰ y kept ⊎ Memᴰ y xs
    known e (inl m) = inl m
    known e (inr (Memᴰ.head s)) = inl (rw s (some_same x kept e))
    known e (inr (Memᴰ.tail m)) = inr m

    moved : Memᴰ y kept ⊎ Memᴰ y (x ∷ xs) → Memᴰ y (kept ++ (x ∷ [])) ⊎ Memᴰ y xs
    moved (inl m) = inl (into_append y x kept (inl m))
    moved (inr (Memᴰ.head s)) = inl (into_append y x kept (inr s))
    moved (inr (Memᴰ.tail m)) = inr m

given-dedupe : (y : ℕ) (kept xs : List ℕ) → Memᴰ y (dedupe kept xs) → Memᴰ y kept ⊎ Memᴰ y xs
unfolding dedupe
given-dedupe y kept [] m = inl m
given-dedupe y kept (x ∷ xs) m = elim (Bool-cases (any (λ k. k == x) kept)) [
  | inl e ↦ later (given-dedupe y kept xs (rw e at m))
  | inr e ↦ added (given-dedupe y (kept ++ (x ∷ [])) xs (rw e at m))
]
  where
    later : Memᴰ y kept ⊎ Memᴰ y xs → Memᴰ y kept ⊎ Memᴰ y (x ∷ xs)
    later (inl n) = inl n
    later (inr n) = inr (Memᴰ.tail n)

    placed : Memᴰ y kept ⊎ (y ≡ x) → Memᴰ y kept ⊎ Memᴰ y (x ∷ xs)
    placed (inl n) = inl n
    placed (inr e) = inr (Memᴰ.head e)

    added : Memᴰ y (kept ++ (x ∷ [])) ⊎ Memᴰ y xs → Memᴰ y kept ⊎ Memᴰ y (x ∷ xs)
    added (inl n) = placed (from_append y x kept n)
    added (inr n) = inr (Memᴰ.tail n)

-- The levels of the loop are those that were given.
pub dedupe-Memᴰ : (y : ℕ) (xs : List ℕ) → Memᴰ y (dedupe [] xs) ↔ Memᴰ y xs
dedupe-Memᴰ y xs = (λ m. right (given-dedupe y [] xs m), λ m. kept-dedupe y [] xs (inr m))
  where
    right : Memᴰ y [] ⊎ Memᴰ y xs → Memᴰ y xs
    right (inl m) = elim m [ ]
    right (inr m) = m
