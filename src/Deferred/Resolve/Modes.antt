-- ===== src/Deferred/Resolve/Modes.antt =====
-- The strict and the lenient mode of `resolve_claims`.
use sharpearena.Prelude.{
  String, ◌≡◌, ◌↔◌, refl, sym, ap, ◌∙◌, Bool, true, false, List, [], ◌∷◌, not, length, ◌==◌,
}
use sharpearena.Prelude.Dict.{Dict}
use sharpearena.Python.Errors.{Result, ok, >>=-eq-ok, ok-injective, checked}
use sharpearena.Python.Runtime.{Runtime}
use sharpearena.Deferred.{Claim}
use sharpearena.Deferred.Score.{Math, score_claim}
use sharpearena.Deferred.Resolve.{
  Outcome, Rejection, Settlement, Judgement, Settled, settles, refuses, add_all, judge, seen_with,
  settle, resolve_loop, resolve_claims,
}

not_empty : (y : Rejection) (ys : List Rejection) → y ∷ ys ≡ [] → ⊥
not_empty y ys h = cc

module _ {F : Type 0} ⦃r : Runtime F⦄ ⦃m : Math F⦄ where
  -- What strict mode returns, lenient mode returns, and nothing is rejected in it.
  strict_lenient :
      (o : Outcome F) (j : Judgement F) (rest rest' : Result (Settled F)) (s : Settled F)
      → ((s' : Settled F) → rest ≡ ok s' → (rest' ≡ ok s') × (s'.1 ≡ []))
      → settle true o j rest ≡ ok s
      → (settle false o j rest' ≡ ok s) × (s.1 ≡ [])
  unfolding settle
  strict_lenient o (refuses k reason) rest rest' s before h = cc
  strict_lenient o (settles c) rest rest' s before h =
      let (score, es, h1) = >>=-eq-ok (score_claim c o.value) _ h in
      let (s', e, h2) = >>=-eq-ok rest _ h1 in
      let (e', none_rejected) = before s' e in
      (rw (es, e') h2, rw (sym (ok-injective h2)) none_rejected)

  lenient_strict :
      (o : Outcome F) (j : Judgement F) (rest rest' : Result (Settled F)) (s : Settled F)
      → ((s' : Settled F) → rest ≡ ok s' → s'.1 ≡ [] → rest' ≡ ok s')
      → settle false o j rest ≡ ok s
      → s.1 ≡ []
      → settle true o j rest' ≡ ok s
  unfolding settle
  lenient_strict o (refuses k reason) rest rest' s before h empty =
      let (s', e, h1) = >>=-eq-ok rest _ h in
      absurd (not_empty _ s'.1 (ap (λ p. p.1) (ok-injective h1) ∙ empty))
  lenient_strict o (settles c) rest rest' s before h empty =
      let (score, es, h1) = >>=-eq-ok (score_claim c o.value) _ h in
      let (s', e, h2) = >>=-eq-ok rest _ h1 in
      let e' = before s' e (ap (λ p. p.1) (ok-injective h2) ∙ empty) in rw (es, e') h2

  module _ (by_id : Dict (Claim F)) where
    loop_strict_lenient :
        (seen : List String) (os : List (Outcome F)) (s : Settled F)
        → resolve_loop true by_id seen os ≡ ok s
        → (resolve_loop false by_id seen os ≡ ok s) × (s.1 ≡ [])
    unfolding resolve_loop
    loop_strict_lenient seen [] s h = (h, rw (sym (ok-injective h)) refl)
    loop_strict_lenient seen (o ∷ os) s h =
        strict_lenient o (judge by_id seen o)
          (resolve_loop true by_id (seen_with o.claim_id seen) os)
          (resolve_loop false by_id (seen_with o.claim_id seen) os) s
          (λ s' e. loop_strict_lenient (seen_with o.claim_id seen) os s' e) h

    loop_lenient_strict :
        (seen : List String) (os : List (Outcome F)) (s : Settled F)
        → resolve_loop false by_id seen os ≡ ok s
        → s.1 ≡ []
        → resolve_loop true by_id seen os ≡ ok s
    unfolding resolve_loop
    loop_lenient_strict seen [] s h empty = h
    loop_lenient_strict seen (o ∷ os) s h empty =
        lenient_strict o (judge by_id seen o)
          (resolve_loop false by_id (seen_with o.claim_id seen) os)
          (resolve_loop true by_id (seen_with o.claim_id seen) os) s
          (λ s' e n. loop_lenient_strict (seen_with o.claim_id seen) os s' e n) h empty

  -- Strict mode returns a settlement exactly where lenient mode returns it and has rejected nothing.
  pub resolve_claims_modes :
      (claims : List (Claim F)) (outcomes : List (Outcome F)) (s : Settlement F)
      → (resolve_claims true claims outcomes ≡ ok s)
        ↔ ((resolve_claims false claims outcomes ≡ ok s) × (s.rejected ≡ []))
  unfolding resolve_claims
  resolve_claims_modes claims outcomes s = (to_lenient, to_strict)
    where
      by_id : Dict (Claim F)
      by_id = add_all [] claims

      bad : Bool
      bad = not (length by_id == length claims)

      to_lenient :
          resolve_claims true claims outcomes ≡ ok s
          → (resolve_claims false claims outcomes ≡ ok s) × (s.rejected ≡ [])
      to_lenient h =
          let (fine, h1) = checked bad _ _ _ h in
          let (p, e, h2) = >>=-eq-ok (resolve_loop true by_id [] outcomes) _ h1 in
          let (e', none_rejected) = loop_strict_lenient by_id [] outcomes p e in
          (rw (fine, e') h2, rw (sym (ok-injective h2)) none_rejected)

      to_strict :
          (resolve_claims false claims outcomes ≡ ok s) × (s.rejected ≡ [])
          → resolve_claims true claims outcomes ≡ ok s
      to_strict (h, empty) =
          let (fine, h1) = checked bad _ _ _ h in
          let (p, e, h2) = >>=-eq-ok (resolve_loop false by_id [] outcomes) _ h1 in
          let e' =
            loop_lenient_strict by_id [] outcomes p e
              (ap (λ t. t.rejected) (ok-injective h2) ∙ empty) in
          rw (fine, e') h2
