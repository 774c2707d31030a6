-- ===== src/Seeds/Band.antt =====
-- Sealed seeds: one for each slot, in the held-out band, and pairwise different.
use sharpearena.Prelude.{
  ℕ, suc, ◌≤◌, String, ◌≡◌, ◌≢◌, refl, sym, ap, true, false, not, Option, List, [], ◌∷◌, any,
  length, AreDistinct, ltb, ◌==◌, All, arith, not-eq-true, not-eq-false, ||-eq-false, &&-eq-true,
}
use sharpearena.Prelude.Dict.{Dict}
use sharpearena.Python.Errors.{ok, checked, ok-injective}
use sharpearena.Seeds.{
  eval_seed_base, distinct, distinct_names, names_of, seeds_of, leaves_band, derive, slots_of,
  sealed_eval_seeds,
}

none_equal : (n : ℕ) (ns : List ℕ) → any (λ m. n == m) ns ≡ false → All (λ m. n ≢ m) ns
none_equal n [] h = tt
none_equal n (m ∷ ns) h =
    let (here, rest) = ||-eq-false (n == m) _ h in (λ e. differs e here, none_equal n ns rest)
  where
    differs : n ≡ m → (n == m) ≡ false → ⊥
    differs e d = ground arith

distinct-AreDistinct : (ns : List ℕ) → distinct ns ≡ true → AreDistinct ns
unfolding distinct
distinct-AreDistinct [] h = tt
distinct-AreDistinct (n ∷ ns) h =
    let (a, b) = &&-eq-true (not (any (λ m. n == m) ns)) (distinct ns) h in
    (none_equal n ns (not-eq-true _ a), distinct-AreDistinct ns b)

in_band : (d : Dict ℕ) → leaves_band d ≡ false → All (λ n. eval_seed_base ≤ n) (seeds_of d)
in_band [] h = tt
in_band ((s, n) ∷ d) h =
    let (here, rest) = ||-eq-false (ltb n eval_seed_base) _ h in (above here, in_band d rest)
  where
    above : ltb n eval_seed_base ≡ false → eval_seed_base ≤ n
    above e = ground arith

names-derive : (f : ℕ → ℕ) (i : ℕ) (ss : List String) → names_of (derive f i ss) ≡ ss
unfolding derive
names-derive f i [] = refl
names-derive f i (s ∷ ss) = ap (λ ts. s ∷ ts) (names-derive f (suc i) ss)

-- Where sealed seeds are returned, the salt has at least the least number of bytes, the seeds have
-- the names of the slots in their order, each is at least the base of the held-out band, and no two
-- are the same.
pub sealed_eval_seeds_held_out :
    (min_salt_bytes : ℕ) (sealed_seed : List ℕ → ℕ → ℕ) (salt : List ℕ)
    (names : Option (List String)) (out : Dict ℕ)
    → sealed_eval_seeds min_salt_bytes sealed_seed salt names ≡ ok out
    → (min_salt_bytes ≤ length salt)
      × (names_of out ≡ slots_of names)
      × All (λ n. eval_seed_base ≤ n) (seeds_of out)
      × AreDistinct (seeds_of out)
unfolding sealed_eval_seeds
sealed_eval_seeds_held_out min_salt_bytes sealed_seed salt names out h =
    let slots = slots_of names in
    let derived = derive (sealed_seed salt) 0 slots in
    let (long, h1) = checked (ltb (length salt) min_salt_bytes) _ _ _ h in
    let (_, h2) = checked (not (distinct_names slots)) _ _ _ h1 in
    let (inside, h3) = checked (leaves_band derived) _ _ _ h2 in
    let (apart, h4) = checked (not (distinct (seeds_of derived))) _ _ (ok derived) h3 in
    rw (sym (ok-injective h4)) (
      long_enough long,
      names-derive (sealed_seed salt) 0 slots,
      in_band derived inside,
      distinct-AreDistinct (seeds_of derived) (not-eq-false _ apart),
    )
  where
    long_enough : ltb (length salt) min_salt_bytes ≡ false → min_salt_bytes ≤ length salt
    long_enough e = ground arith
