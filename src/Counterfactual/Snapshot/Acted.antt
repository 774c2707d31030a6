-- ===== src/Counterfactual/Snapshot/Acted.antt =====
-- What the three values of `acted` say of the orders of a decision.
use mathlib.Core.List.{Memᴰ}
use sharpearena.Prelude.{
  ◌≡◌, refl, Bool, true, false, Bool-cases, inl, inr, Option, none, some, List, [], ◌∷◌, any, all,
  All,
}
use sharpearena.Python.Runtime.{Runtime}
use sharpearena.Counterfactual.Ghost.{GhostOrder}
use sharpearena.Counterfactual.Snapshot.{acted, filled}

module _ {A : Type 0} (p : A → Bool) where
  any-witness : (xs : List A) → any p xs ≡ true → (x : A) × Memᴰ x xs × (p x ≡ true)
  any-witness [] h = absurd cc
  any-witness (x ∷ xs) h = elim (Bool-cases (p x)) [
    | inl e ↦ (x, Memᴰ.head refl, e)
    | inr e ↦ let (y, m, q) = any-witness xs (rw e at h) in (y, Memᴰ.tail m, q)
  ]

  any-none : (xs : List A) → any p xs ≡ false → All (λ x. p x ≡ false) xs
  any-none [] h = tt
  any-none (x ∷ xs) h = elim (Bool-cases (p x)) [
    | inl e ↦ absurd (clash (rw e at h))
    | inr e ↦ (e, any-none xs (rw e at h))
  ]
    where
      clash : true ≡ false → ⊥
      clash k = cc

  all-every : (xs : List A) → all p xs ≡ true → All (λ x. p x ≡ true) xs
  all-every [] h = tt
  all-every (x ∷ xs) h = elim (Bool-cases (p x)) [
    | inl e ↦ (e, all-every xs (rw e at h))
    | inr e ↦ absurd (clash (rw e at h))
  ]
    where
      clash : false ≡ true → ⊥
      clash k = cc

  all-exception : (xs : List A) → all p xs ≡ false → (x : A) × Memᴰ x xs × (p x ≡ false)
  all-exception [] h = absurd cc
  all-exception (x ∷ xs) h = elim (Bool-cases (p x)) [
    | inl e ↦ let (y, m, q) = all-exception xs (rw e at h) in (y, Memᴰ.tail m, q)
    | inr e ↦ (x, Memᴰ.head refl, e)
  ]

module _ {F : Type 0} ⦃r : Runtime F⦄ where
  -- No order has a confirmed fill.
  abbrev pub AreUnfilled : List (GhostOrder F) → Type 0
  AreUnfilled orders = All (λ g. r.less r.zero g.executed_quantity ≡ false) orders

  -- True: an order is filled. False: none is, and the execution of each is complete. None: none is
  -- filled, and the execution of one is not complete.
  abbrev pub IsActed : List (GhostOrder F) → Option Bool → Type 0
  IsActed orders (some true) =
      (g : GhostOrder F) × Memᴰ g orders × (r.less r.zero g.executed_quantity ≡ true)
  IsActed orders (some false) = AreUnfilled orders × All (λ g. g.execution_complete ≡ true) orders
  IsActed orders none =
      AreUnfilled orders × ((g : GhostOrder F) × Memᴰ g orders × (g.execution_complete ≡ false))

  pub acted-IsActed : (orders : List (GhostOrder F)) → IsActed orders (acted orders)
  unfolding acted
  acted-IsActed orders = elim (Bool-cases (any filled orders)) [
    | inl e ↦ rw e (any-witness filled orders e)
    | inr e ↦ elim (Bool-cases (all (λ g. g.execution_complete) orders)) [
      | inl c ↦ rw (e, c) (any-none filled orders e, all-every (λ g. g.execution_complete) orders c)
      | inr c ↦
          rw (e, c) (any-none filled orders e, all-exception (λ g. g.execution_complete) orders c)
    ]
  ]
