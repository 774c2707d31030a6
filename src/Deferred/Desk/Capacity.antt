-- ===== src/Deferred/Desk/Capacity.antt =====
-- The number of open claims on a desk, and runs of calls on a desk.
use sharpearena.Prelude.{
  ℕ, suc, ◌≤◌, ◌<◌, String, ◌≡◌, sym, inl, inr, true, false, Bool-cases, Option, some, List, [],
  ◌∷◌, ◌++◌, length, arith,
}
use sharpearena.Prelude.Int.{ℤ, pos, negsuc, leb_ℤ, ltb_ℤ, leb_ℤ_trans, to_ℕ}
use sharpearena.Python.Errors.{ok, ok-injective}
use sharpearena.Python.Runtime.{Runtime}
use sharpearena.Forecast.{ForecastContract}
use sharpearena.Deferred.{Claim, Prediction}
use sharpearena.Deferred.Desk.{
  DeferredDesk, new_desk, tick, open_at, open_claims, reaches, is_full, commit_contract, commit,
}
use sharpearena.Deferred.Desk.Held.{
  IsDesk, commit_contract-cases, admits-eq-ok, tick-IsDesk, commit_contract-IsDesk, commit-keeps,
}

-- No more claims are open than the desk may hold.
unfoldable pub HasRoom : {F : Type 0} → DeferredDesk F → Type 0
HasRoom d = (m : ℤ) → d.max_open ≡ some m → length (open_at d.now d.claims) ≤ to_ℕ m

module _ {F : Type 0} where
  fewer_later :
      (now bar : ℤ) (cs : List (Claim F))
      → leb_ℤ now bar ≡ true
      → length (open_at bar cs) ≤ length (open_at now cs)
  unfolding open_at
  fewer_later now bar [] h = omega arith
  fewer_later now bar (c ∷ cs) h = elim (Bool-cases (leb_ℤ c.contract.resolves_at now)) [
    | inl past ↦
        rw (past, leb_ℤ_trans c.contract.resolves_at now bar past h) (fewer_later now bar cs h)
    | inr open_now ↦ elim (Bool-cases (leb_ℤ c.contract.resolves_at bar)) [
      | inl past ↦ rw (open_now, past) (omega (arith, fewer_later now bar cs h))
      | inr still ↦ rw (open_now, still) (omega (arith, fewer_later now bar cs h))
    ]
  ]

  one_more :
      (now : ℤ) (cs : List (Claim F)) (c : Claim F)
      → length (open_at now (cs ++ (c ∷ []))) ≤ suc (length (open_at now cs))
  unfolding open_at
  one_more now [] c = elim (Bool-cases (leb_ℤ c.contract.resolves_at now)) [
    | inl past ↦ rw past (omega arith)
    | inr still ↦ rw still (omega arith)
  ]
  one_more now (x ∷ xs) c = elim (Bool-cases (leb_ℤ x.contract.resolves_at now)) [
    | inl past ↦ rw past (one_more now xs c)
    | inr still ↦ rw still (omega (arith, one_more now xs c))
  ]

  tick-HasRoom : (bar : ℤ) (d : DeferredDesk F) → HasRoom d → HasRoom (tick bar d).1
  unfolding tick HasRoom
  tick-HasRoom bar d room = elim (Bool-cases (leb_ℤ d.now bar)) [
    | inl forward ↦
        rw forward (λ m e. omega (arith, fewer_later d.now bar d.claims forward, room m e))
    | inr back ↦ rw back room
  ]

below_capacity : (m : ℤ) (n : ℕ) → reaches (some m) n ≡ false → n < to_ℕ m
below_capacity (pos k) n h = ground arith
below_capacity (negsuc k) n h = cc

module _ {F : Type 0} where
  still_room :
      (d : DeferredDesk F) (claim : Claim F)
      → is_full d ≡ false
      → HasRoom (record d { claims = d.claims ++ (claim ∷ []) })
  unfolding HasRoom is_full open_claims
  still_room d claim free m e =
      let below = below_capacity m (length (open_at d.now d.claims)) (rw e at free) in
      omega (arith, one_more d.now d.claims claim, below)

module _ {F : Type 0} ⦃r : Runtime F⦄ where
  commit_contract-HasRoom :
      (contract : ForecastContract F) (prediction : Prediction F) (confidence : F)
      (rationale : String) (claim_id : Option String) (d : DeferredDesk F)
      → HasRoom d
      → HasRoom (commit_contract contract prediction confidence rationale claim_id d).1
  commit_contract-HasRoom contract prediction confidence rationale claim_id d room =
      elim (commit_contract-cases contract prediction confidence rationale claim_id d) [
        | inl (e, same) ↦ rw same room
        | inr (claim, admitted, _, made, after) ↦
            rw after (still_room d claim (admits-eq-ok contract d admitted).3)
      ]

-- What the harness and the agent may call on a desk.
pub data Call (F : Type 0) : Type 0 where
  ticks : ℤ → Call F
  commits :
      (question kind : String) (prediction : Prediction F) (horizon : ℤ) (confidence : F)
      (rationale : String) (claim_id : Option String)
      → Call F
  contracts :
      (contract : ForecastContract F) (prediction : Prediction F) (confidence : F)
      (rationale : String) (claim_id : Option String)
      → Call F

module _ {F : Type 0} ⦃r : Runtime F⦄ where
  unfoldable pub perform : F → Call F → DeferredDesk F → DeferredDesk F
  perform tenth (ticks bar) d = (tick bar d).1
  perform tenth (commits question kind prediction horizon confidence rationale claim_id) d =
      (commit tenth question kind prediction horizon confidence rationale claim_id d).1
  perform tenth (contracts contract prediction confidence rationale claim_id) d =
      (commit_contract contract prediction confidence rationale claim_id d).1

  unfoldable pub run : F → List (Call F) → DeferredDesk F → DeferredDesk F
  run tenth [] d = d
  run tenth (call ∷ calls) d = run tenth calls (perform tenth call d)

  contract_keeps :
      (contract : ForecastContract F) (prediction : Prediction F) (confidence : F)
      (rationale : String) (claim_id : Option String) (d : DeferredDesk F)
      → IsDesk d × HasRoom d
      → IsDesk (commit_contract contract prediction confidence rationale claim_id d).1
        × HasRoom (commit_contract contract prediction confidence rationale claim_id d).1
  contract_keeps contract prediction confidence rationale claim_id d (held, room) = (
    commit_contract-IsDesk contract prediction confidence rationale claim_id d held,
    commit_contract-HasRoom contract prediction confidence rationale claim_id d room,
  )

  perform-keeps :
      (tenth : F) (call : Call F) (d : DeferredDesk F)
      → IsDesk d × HasRoom d
      → IsDesk (perform tenth call d) × HasRoom (perform tenth call d)
  unfolding perform
  perform-keeps tenth (ticks bar) d (held, room) = (tick-IsDesk bar d held, tick-HasRoom bar d room)
  perform-keeps tenth (commits question kind prediction horizon confidence rationale claim_id) d
        both =
      commit-keeps (λ d'. IsDesk d' × HasRoom d') contract_keeps tenth question kind prediction
        horizon confidence rationale claim_id d both
  perform-keeps tenth (contracts contract prediction confidence rationale claim_id) d both =
      contract_keeps contract prediction confidence rationale claim_id d both

  run-keeps :
      (tenth : F) (calls : List (Call F)) (d : DeferredDesk F)
      → IsDesk d × HasRoom d
      → IsDesk (run tenth calls d) × HasRoom (run tenth calls d)
  unfolding run
  run-keeps tenth [] d both = both
  run-keeps tenth (call ∷ calls) d both =
      run-keeps tenth calls (perform tenth call d) (perform-keeps tenth call d both)

  new_desk-keeps :
      (min_horizon : ℤ) (max_open : Option ℤ) (d : DeferredDesk F)
      → new_desk min_horizon max_open ≡ ok d
      → IsDesk d × HasRoom d
  unfolding new_desk HasRoom open_at
  new_desk-keeps min_horizon max_open d h = elim (Bool-cases (ltb_ℤ min_horizon (pos 1))) [
    | inl short ↦ absurd (ground arith)
    | inr long ↦ rw (sym (ok-injective (rw long at h))) (tt, λ m e. omega arith)
  ]

  -- Whatever is called on a new desk, every claim on it was stamped at a bar from 0 to now at which
  -- its contract was open, at least the desk's minimum horizon before it resolves.
  pub run-IsDesk :
      (tenth : F) (min_horizon : ℤ) (max_open : Option ℤ) (d : DeferredDesk F)
      (calls : List (Call F))
      → new_desk min_horizon max_open ≡ ok d
      → IsDesk (run tenth calls d)
  run-IsDesk tenth min_horizon max_open d calls h =
      (run-keeps tenth calls d (new_desk-keeps min_horizon max_open d h)).0

  -- Whatever is called on a new desk with a maximum of open claims, no more than that are open.
  pub run-HasRoom :
      (tenth : F) (min_horizon : ℤ) (max_open : Option ℤ) (d : DeferredDesk F)
      (calls : List (Call F))
      → new_desk min_horizon max_open ≡ ok d
      → HasRoom (run tenth calls d)
  run-HasRoom tenth min_horizon max_open d calls h =
      (run-keeps tenth calls d (new_desk-keeps min_horizon max_open d h)).1
