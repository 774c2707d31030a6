-- ===== src/Deferred/Resolve/Duplicates.antt =====
-- A desk compares a new id before the space around it is stripped; `resolve_claims` sees it after.
use mathlib.Core.List.{Memᴰ}
use sharpearena.Prelude.{
  suc, ◌+◌, ◌≤◌, String, ◌≡◌, refl, sym, ap, ◌∙◌, inl, inr, Bool, true, false, Bool-cases, Option,
  List, [], ◌∷◌, ◌++◌, str_eq, eq_iff, length, length-append, ◌==◌, arith, is_some,
}
use sharpearena.Prelude.Dict.{Dict, lookup, insert, lookup-insert}
use sharpearena.Python.Errors.{Error, ok, err, claim_rejected}
use sharpearena.Python.Runtime.{Runtime}
use sharpearena.Forecast.{ForecastContract}
use sharpearena.Deferred.{Claim, Prediction}
use sharpearena.Deferred.Score.{Math}
use sharpearena.Deferred.Desk.{DeferredDesk, name_of, commit_contract}
use sharpearena.Deferred.Desk.Held.{commit_contract-cases, stamped-eq-ok}
use sharpearena.Deferred.Resolve.{Outcome, add_all, resolve_claims}

module _ {F : Type 0} where
  length-insert_le :
      (k : String) (c : Claim F) (d : Dict (Claim F)) → length (insert k c d) ≤ suc (length d)
  unfolding insert
  length-insert_le k c [] = omega arith
  length-insert_le k c ((j, x) ∷ d) = elim (Bool-cases (str_eq j k)) [
    | inl e ↦ rw e (omega arith)
    | inr e ↦ rw e (omega (arith, length-insert_le k c d))
  ]

  length-insert_old :
      (k : String) (c : Claim F) (d : Dict (Claim F))
      → is_some (lookup k d) ≡ true
      → length (insert k c d) ≡ length d
  unfolding insert lookup
  length-insert_old k c [] h = cc
  length-insert_old k c ((j, x) ∷ d) h = elim (Bool-cases (str_eq j k)) [
    | inl e ↦ rw e refl
    | inr e ↦ rw e (omega (arith, length-insert_old k c d (rw e at h)))
  ]

  length-add_all :
      (d : Dict (Claim F)) (cs : List (Claim F)) → length (add_all d cs) ≤ length d + length cs
  unfolding add_all
  length-add_all d [] = omega arith
  length-add_all d (c ∷ cs) =
      omega (arith, length-add_all (insert c.claim_id c d) cs, length-insert_le c.claim_id c d)

  add_all-snoc :
      (d : Dict (Claim F)) (cs : List (Claim F)) (c : Claim F)
      → add_all d (cs ++ (c ∷ [])) ≡ insert c.claim_id c (add_all d cs)
  unfolding add_all
  add_all-snoc d [] c = refl
  add_all-snoc d (x ∷ xs) c = add_all-snoc (insert x.claim_id x d) xs c

  still_there :
      (k : String) (d : Dict (Claim F)) (cs : List (Claim F))
      → is_some (lookup k d) ≡ true
      → is_some (lookup k (add_all d cs)) ≡ true
  unfolding add_all
  still_there k d [] h = h
  still_there k d (c ∷ cs) h =
      still_there k (insert c.claim_id c d) cs (rw (lookup-insert c.claim_id k c d) (ground arith))

  is_there :
      (x : Claim F) (d : Dict (Claim F)) (cs : List (Claim F))
      → Memᴰ x cs
      → is_some (lookup x.claim_id (add_all d cs)) ≡ true
  unfolding add_all
  is_there x d [] m = elim m [ ]
  is_there x d (c ∷ cs) (Memᴰ.head e) =
      still_there x.claim_id (insert c.claim_id c d) cs (
        rw (e, lookup-insert c.claim_id c.claim_id c d, (eq_iff c.claim_id c.claim_id).1 refl) refl)
  is_there x d (c ∷ cs) (Memᴰ.tail m) = is_there x (insert c.claim_id c d) cs m

  shared_id_is_lost :
      (x c : Claim F) (cs : List (Claim F))
      → Memᴰ x cs
      → c.claim_id ≡ x.claim_id
      → (length (add_all [] (cs ++ (c ∷ []))) == length (cs ++ (c ∷ []))) ≡ false
  shared_id_is_lost x c cs m e = ground (arith, shorter, longer)
    where
      shorter : length (add_all [] (cs ++ (c ∷ []))) ≤ length cs
      shorter =
          rw
            (
              add_all-snoc [] cs c,
              length-insert_old c.claim_id c (add_all [] cs) (rw e (is_there x [] cs m)),
            )
            (omega (arith, length-add_all [] cs))

      longer : length (cs ++ (c ∷ [])) ≡ length cs + 1
      longer = length-append cs (c ∷ [])

-- What `resolve_claims` raises on claims that share an id.
abbrev pub duplicates : Error
duplicates = record { kind = claim_rejected; message = "claims contain duplicate claim_id values" }

module _ {F : Type 0} ⦃r : Runtime F⦄ ⦃m : Math F⦄ where
  -- When a desk accepts a claim under an id that is, once stripped, the id of a claim that it holds,
  -- no outcome of its claims can be settled any more: `resolve_claims` raises in either mode.
  pub commit_contract_ambiguous :
      (contract : ForecastContract F) (prediction : Prediction F) (confidence : F)
      (rationale : String) (claim_id : Option String) (d d' : DeferredDesk F) (claim x : Claim F)
      (strict : Bool) (outcomes : List (Outcome F))
      → commit_contract contract prediction confidence rationale claim_id d ≡ (ok claim, d')
      → Memᴰ x d.claims
      → x.claim_id ≡ r.strip (name_of claim_id d)
      → resolve_claims strict d'.claims outcomes ≡ err duplicates
  unfolding resolve_claims
  commit_contract_ambiguous contract prediction confidence rationale claim_id d d' claim x strict
        outcomes h held same =
      elim (commit_contract-cases contract prediction confidence rationale claim_id d) [
        | inl (e, refused) ↦ absurd (refuses e (ap (λ p. p.0) (sym refused ∙ h)))
        | inr (made, _, _, stamp, after) ↦
            let (_, _, named) =
              stamped-eq-ok contract prediction confidence rationale _ d made stamp in
            let grown = ap (λ p. p.1.claims) (sym h ∙ after) in
            rw (grown, shared_id_is_lost x made d.claims held (named ∙ sym same)) refl
      ]
    where
      refuses : (e : Error) → err e ≡ ok claim → ⊥
      refuses e p = cc
