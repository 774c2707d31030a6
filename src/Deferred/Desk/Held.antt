-- ===== src/Deferred/Desk/Held.antt =====
-- What every claim on a desk satisfies, whatever is called on the desk.
use sharpearena.Prelude.{
  String, ◌≡◌, refl, sym, ◌⊎◌, inl, inr, true, false, Bool-cases, not, ◌&&◌, Option, some, List, [],
  ◌∷◌, ◌++◌, any, str_eq, All, not-eq-false, &&-eq-true,
}
use sharpearena.Prelude.Int.{ℤ, pos, leb_ℤ, ltb_ℤ, ◌-ℤ◌, leb_ℤ_trans, leb_ℤ_refl}
use sharpearena.Python.Errors.{
  Error, ok, err, Result-cases, >>=-eq-ok, checked, unraised, ok-injective, claim_rejected,
}
use sharpearena.Python.Runtime.{Runtime}
use sharpearena.Forecast.{ForecastContract}
use sharpearena.Deferred.{
  Claim, Prediction, values, in_unit, reject_if, validate, is_open, claim_post_init,
}
use sharpearena.Deferred.Desk.{
  DeferredDesk, tick, is_full, admits, stamped, name_of, commit_contract, accepts, contract_of,
  commit,
}

module _ {F : Type 0} ⦃r : Runtime F⦄ where
  -- A call that refuses leaves the desk as it was; one that returns has appended the claim it returns.
  pub commit_contract-cases :
      (contract : ForecastContract F) (prediction : Prediction F) (confidence : F)
      (rationale : String) (claim_id : Option String) (d : DeferredDesk F)
      → ((e : Error) × (commit_contract contract prediction confidence rationale claim_id d
            ≡ (err e, d)))
        ⊎ ((claim : Claim F) × (admits contract d ≡ ok tt)
            × (any (λ c. str_eq c.claim_id (name_of claim_id d)) d.claims ≡ false)
            × (stamped contract prediction confidence rationale (name_of claim_id d) d ≡ ok claim)
            × (commit_contract contract prediction confidence rationale claim_id d
                ≡ (ok claim, record d { claims = d.claims ++ (claim ∷ []) })))
  unfolding commit_contract
  commit_contract-cases contract prediction confidence rationale claim_id d =
      elim (Result-cases (admits contract d)) [
        | inl (e, refused) ↦ inl (e, rw refused refl)
        | inr (_, admitted) ↦
            elim (Bool-cases (any (λ c. str_eq c.claim_id (name_of claim_id d)) d.claims)) [
              | inl taken ↦ inl (
                record { kind = claim_rejected; message = "duplicate claim_id" },
                rw (admitted, taken) refl,
              )
              | inr free ↦
                  elim (Result-cases
                    (stamped contract prediction confidence rationale (name_of claim_id d) d)) [
                      | inl (e, refused) ↦ inl (e, rw (admitted, free, refused) refl)
                      | inr (claim, made) ↦
                          inr (claim, admitted, free, made, rw (admitted, free, made) refl)
                    ]
            ]
      ]

  claim_post_init-eq-ok :
      (c c' : Claim F)
      → claim_post_init c ≡ ok c'
      → (c'.contract ≡ c.contract)
        × (c'.committed_at ≡ c.committed_at)
        × (c'.claim_id ≡ r.strip c.claim_id)
  unfolding claim_post_init
  claim_post_init-eq-ok c c' h =
      let (_, _, h1) = >>=-eq-ok (reject_if (str_eq (r.strip c.claim_id) "") _) _ h in
      let (_, _, h2) = >>=-eq-ok (reject_if (not (is_open c.contract c.committed_at)) _) _ h1 in
      let (_, _, h3) =
        >>=-eq-ok (reject_if (not (r.is_finite c.confidence && in_unit c.confidence)) _) _ h2 in
      let (_, _, h4) = >>=-eq-ok (validate c.contract (values c.prediction)) _ h3 in
      rw (sym (ok-injective h4)) (refl, refl, refl)

  -- A claim is stamped with the clock of the desk, under the contract that was given.
  pub stamped-eq-ok :
      (contract : ForecastContract F) (prediction : Prediction F) (confidence : F)
      (rationale identifier : String) (d : DeferredDesk F) (claim : Claim F)
      → stamped contract prediction confidence rationale identifier d ≡ ok claim
      → (claim.contract ≡ contract)
        × (claim.committed_at ≡ d.now)
        × (claim.claim_id ≡ r.strip identifier)
  unfolding stamped
  stamped-eq-ok contract prediction confidence rationale identifier d claim h =
      let (payload, _, h1) = >>=-eq-ok (validate contract prediction) _ h in
      claim_post_init-eq-ok _ claim h1

  -- What the checks at the head of `commit_contract` let through.
  pub admits-eq-ok :
      (contract : ForecastContract F) (d : DeferredDesk F)
      → admits contract d ≡ ok tt
      → (ltb_ℤ d.now (pos 0) ≡ false)
        × (is_open contract d.now ≡ true)
        × (ltb_ℤ (contract.resolves_at -ℤ d.now) d.min_horizon ≡ false)
        × (is_full d ≡ false)
  unfolding admits
  admits-eq-ok contract d h =
      let (started, h1) = checked (ltb_ℤ d.now (pos 0)) _ _ _ h in
      let (inside, h2) = checked (not (is_open contract d.now)) _ _ _ h1 in
      let (far, h3) =
        checked (ltb_ℤ (contract.resolves_at -ℤ d.now) d.min_horizon) _ _
          (reject_if (is_full d) "the desk already holds its open claims") h2 in
      (started, not-eq-false _ inside, far, unraised _ _ _ h3)

-- A claim that was committed while its contract was open, no later than now, and early enough.
unfoldable pub IsHeld : {F : Type 0} → ℤ → ℤ → Claim F → Type 0
IsHeld now min_horizon c =
    (leb_ℤ (pos 0) c.committed_at ≡ true)
    × (leb_ℤ c.committed_at now ≡ true)
    × (leb_ℤ c.contract.opens_at c.committed_at ≡ true)
    × (leb_ℤ c.committed_at c.contract.deadline ≡ true)
    × (leb_ℤ min_horizon (c.contract.resolves_at -ℤ c.committed_at) ≡ true)

abbrev pub IsDesk : {F : Type 0} → DeferredDesk F → Type 0
IsDesk d = All (IsHeld d.now d.min_horizon) d.claims

module _ {F : Type 0} where
  later :
      (now bar min_horizon : ℤ) (cs : List (Claim F))
      → leb_ℤ now bar ≡ true
      → All (IsHeld now min_horizon) cs
      → All (IsHeld bar min_horizon) cs
  unfolding IsHeld
  later now bar m [] h held = held
  later now bar m (c ∷ cs) h ((a, b, x, y, z), held) =
      ((a, leb_ℤ_trans c.committed_at now bar b h, x, y, z), later now bar m cs h held)

  All-snoc :
      (P : Claim F → Type 0) (cs : List (Claim F)) (c : Claim F)
      → All P cs
      → P c
      → All P (cs ++ (c ∷ []))
  All-snoc P [] c h p = (p, tt)
  All-snoc P (x ∷ xs) c (px, h) p = (px, All-snoc P xs c h p)

  pub tick-IsDesk : (bar : ℤ) (d : DeferredDesk F) → IsDesk d → IsDesk (tick bar d).1
  unfolding tick
  tick-IsDesk bar d held = elim (Bool-cases (leb_ℤ d.now bar)) [
    | inl forward ↦ rw forward (later d.now bar d.min_horizon d.claims forward held)
    | inr back ↦ rw back held
  ]

module _ {F : Type 0} ⦃r : Runtime F⦄ where
  stamped-IsHeld :
      (contract : ForecastContract F) (d : DeferredDesk F) (claim : Claim F)
      → admits contract d ≡ ok tt
      → (claim.contract ≡ contract) × (claim.committed_at ≡ d.now)
      → IsHeld d.now d.min_horizon claim
  unfolding IsHeld
  stamped-IsHeld contract d claim admitted (under, at) =
      let (started, inside, far, _) = admits-eq-ok contract d admitted in
      let (above, below) = &&-eq-true (leb_ℤ contract.opens_at d.now) _ inside in
      rw (under, at) (not-eq-false _ started, leb_ℤ_refl d.now, above, below, not-eq-false _ far)

  pub commit_contract-IsDesk :
      (contract : ForecastContract F) (prediction : Prediction F) (confidence : F)
      (rationale : String) (claim_id : Option String) (d : DeferredDesk F)
      → IsDesk d
      → IsDesk (commit_contract contract prediction confidence rationale claim_id d).1
  commit_contract-IsDesk contract prediction confidence rationale claim_id d held =
      elim (commit_contract-cases contract prediction confidence rationale claim_id d) [
        | inl (e, same) ↦ rw same held
        | inr (claim, admitted, _, made, after) ↦
            let (under, at, _) =
              stamped-eq-ok contract prediction confidence rationale _ d claim made in
            rw after (
              All-snoc (IsHeld d.now d.min_horizon) d.claims claim held
                (stamped-IsHeld contract d claim admitted (under, at)))
      ]

  -- What `commit_contract` keeps, `commit` keeps.
  pub commit-keeps :
      (P : DeferredDesk F → Type 0)
      → ((contract : ForecastContract F) (prediction : Prediction F) (confidence : F)
            (rationale : String) (claim_id : Option String) (d : DeferredDesk F)
          → P d
          → P (commit_contract contract prediction confidence rationale claim_id d).1)
      → (tenth : F) (question kind : String) (prediction : Prediction F) (horizon : ℤ)
        (confidence : F) (rationale : String) (claim_id : Option String) (d : DeferredDesk F)
      → P d
      → P (commit tenth question kind prediction horizon confidence rationale claim_id d).1
  unfolding commit
  commit-keeps P keeps tenth question kind prediction horizon confidence rationale claim_id d h =
      elim (Result-cases (accepts horizon d)) [
        | inl (e, refused) ↦ rw refused h
        | inr (_, accepted) ↦
            elim (Result-cases (contract_of tenth question kind horizon claim_id d)) [
              | inl (e, refused) ↦ rw (accepted, refused) h
              | inr (contract, made) ↦
                  rw (accepted, made)
                    (keeps contract prediction confidence rationale (some (name_of claim_id d)) d h)
            ]
      ]
