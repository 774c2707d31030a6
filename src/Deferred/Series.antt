-- ===== src/Deferred/Series.antt =====
-- `outcomes_from_series` of deferred.py, and that its outcomes are never refused for their bars.
use mathlib.Core.List.{Memᴰ}
use sharpearena.Prelude.{
  String, ◌≡◌, refl, sym, ap, inl, inr, Bool, true, false, Bool-cases, not, ◌||◌, Option, none,
  some, List, [], ◌∷◌, All, length, get_elem?, str_eq, if◌then◌else◌,
}
use sharpearena.Prelude.Int.{ℤ, pos, leb_ℤ, ltb_ℤ, leb_ℤ_trans, leb_ℤ_refl, to_ℕ}
use sharpearena.Python.Errors.{
  Result, ok, fail, value_error, index_error, ◌>>=◌, ◌>>◌, checked, >>=-eq-ok, ok-injective,
}
use sharpearena.Python.Runtime.{Runtime}
use sharpearena.Deferred.{Claim}
use sharpearena.Deferred.Score.{number}
use sharpearena.Deferred.Resolve.{Outcome, settles, judge_bars, check_value, outcome_post_init}

module _ {F : Type 0} where
  -- `values[i]` of an index that is not negative
  abbrev item : List F → ℤ → Result F
  item values i = at_index (get_elem? values (to_ℕ i))
    where
      at_index : Option F → Result F
      at_index none = fail index_error "list index out of range"
      at_index (some x) = ok x

  -- `end >= len(values) or claim.committed_at >= len(values)`
  abbrev beyond : List F → Claim F → Bool
  beyond values c =
      leb_ℤ (pos (length values)) c.contract.resolves_at
      || leb_ℤ (pos (length values)) c.committed_at

module _ {F : Type 0} ⦃r : Runtime F⦄ where
  unfoldable pub resolving_value : String → List F → Claim F → Result F
  resolving_value reference values c =
      if str_eq reference "level"
      then item values c.contract.resolves_at
      else if str_eq reference "change"
      then (item values c.contract.resolves_at >>= λ last.
          item values c.committed_at >>= λ base. ok (r.minus last base))
      else if str_eq reference "return"
      then (item values c.committed_at >>= λ base. item values c.contract.resolves_at >>= λ last.
          ok (if r.same base r.zero then r.zero else r.minus (r.over last base) r.one))
      else fail value_error "reference must be 'level', 'change', or 'return'"

  unfoldable pub series_outcome : String → List F → Claim F → Result (Outcome F)
  series_outcome reference values c = resolving_value reference values c >>= λ x.
      outcome_post_init
        (record { claim_id = c.claim_id; value = number x; available_at = c.contract.resolves_at })

  unfoldable pub outcomes_from_series : List (Claim F) → List F → String → Result (List (Outcome F))
  outcomes_from_series [] values reference = ok []
  outcomes_from_series (c ∷ cs) values reference =
      let rest = outcomes_from_series cs values reference in
      if beyond values c
      then rest
      else (series_outcome reference values c >>= λ o. rest >>= λ os. ok (o ∷ os))

  outcome_post_init-same : (o o' : Outcome F) → outcome_post_init o ≡ ok o' → o ≡ o'
  unfolding outcome_post_init
  outcome_post_init-same o o' h =
      let (_, h1) = checked (str_eq (r.strip o.claim_id) "") _ _ (check_value o.value >> ok o) h in
      let (_, _, h2) = >>=-eq-ok (check_value o.value) (λ _. ok o) h1 in ok-injective h2

  -- An outcome of a claim, at its bar of resolution, which no check on the bars refuses.
  abbrev pub Answers : List (Claim F) → Outcome F → Type 0
  Answers cs o =
      (c : Claim F) × Memᴰ c cs
      × (o.claim_id ≡ c.claim_id)
      × (o.available_at ≡ c.contract.resolves_at)
      × (judge_bars o c ≡ settles c)

  -- The bars of a claim in the order that its contract and the desk keep.
  abbrev pub InOrder : Claim F → Type 0
  InOrder c =
      (leb_ℤ c.committed_at c.contract.deadline ≡ true)
      × (ltb_ℤ c.contract.deadline c.contract.resolves_at ≡ true)

  resolves_later : (c : Claim F) → InOrder c → leb_ℤ c.contract.resolves_at c.committed_at ≡ false
  resolves_later c (before, far) = elim (Bool-cases (leb_ℤ c.contract.resolves_at c.committed_at)) [
    | inl e ↦ absurd (
        no_loop (leb_ℤ_trans c.contract.resolves_at c.committed_at c.contract.deadline e before)
          far)
    | inr e ↦ e
  ]
    where
      no_loop : {b : Bool} → b ≡ true → not b ≡ true → ⊥
      no_loop e n = cc

  judged_at_bar :
      (o : Outcome F) (c : Claim F)
      → InOrder c
      → o.available_at ≡ c.contract.resolves_at
      → judge_bars o c ≡ settles c
  judged_at_bar o c order at =
      rw (at, resolves_later c order, leb_ℤ_refl c.contract.resolves_at) refl

  series_outcome-Answers :
      (reference : String) (values : List F) (c : Claim F) (cs : List (Claim F)) (o : Outcome F)
      → InOrder c
      → series_outcome reference values c ≡ ok o
      → Answers (c ∷ cs) o
  unfolding series_outcome
  series_outcome-Answers reference values c cs o order h =
      let (x, _, h1) = >>=-eq-ok (resolving_value reference values c) _ h in
      let same = outcome_post_init-same _ o h1 in
      let at = ap (λ p. p.available_at) (sym same) in
      (c, Memᴰ.head refl, ap (λ p. p.claim_id) (sym same), at, judged_at_bar o c order at)

  more_claims :
      (c : Claim F) (cs : List (Claim F)) (os : List (Outcome F))
      → All (Answers cs) os
      → All (Answers (c ∷ cs)) os
  more_claims c cs [] h = tt
  more_claims c cs (o ∷ os) ((d, m, a, b, e), h) =
      ((d, Memᴰ.tail m, a, b, e), more_claims c cs os h)

  -- Where every claim was committed by the deadline of its contract and the deadline is before the bar
  -- of resolution, each outcome built from a series is that of one of the claims at its bar of
  -- resolution, and it is refused neither as leaked nor as early.
  pub outcomes_from_series-Answers :
      (cs : List (Claim F)) (values : List F) (reference : String) (os : List (Outcome F))
      → All InOrder cs
      → outcomes_from_series cs values reference ≡ ok os
      → All (Answers cs) os
  unfolding outcomes_from_series
  outcomes_from_series-Answers [] values reference os order h = rw (sym (ok-injective h)) tt
  outcomes_from_series-Answers (c ∷ cs) values reference os (first, order) h =
      elim (Bool-cases (beyond values c)) [
        | inl skipped ↦
            more_claims c cs os
              (outcomes_from_series-Answers cs values reference os order (rw skipped at h))
        | inr within ↦
            let (o, eo, h1) = >>=-eq-ok (series_outcome reference values c) _ (rw within at h) in
            let (rest, er, h2) = >>=-eq-ok (outcomes_from_series cs values reference) _ h1 in
            rw (sym (ok-injective h2)) (
              series_outcome-Answers reference values c cs o first eo,
              more_claims c cs rest
                  (outcomes_from_series-Answers cs values reference rest order er),
            )
      ]
