-- ===== src/Deferred/Resolve/Settled.antt =====
-- Every score rests on a claim that was asked about, and on an outcome that came late enough.
use mathlib.Core.List.{Memᴰ}
use mathlib.Core.Option.{some-injective}
use sharpearena.Prelude.{
  String, ◌≡◌, refl, sym, ap, ◌∙◌, inl, inr, Bool, true, false, Bool-cases, Option, none, some,
  List, [], ◌∷◌, All, not, if◌then◌else◌, str_eq, eq_iff, ◌⊎◌, length, ◌==◌,
}
use sharpearena.Prelude.Dict.{Dict, lookup, insert, lookup-insert}
use sharpearena.Prelude.Int.{leb_ℤ, ltb_ℤ}
use sharpearena.Python.Errors.{Kind, Result, ok, fail, >>=-eq-ok, ok-injective, checked}
use sharpearena.Python.Runtime.{Runtime}
use sharpearena.Forecast.{member}
use sharpearena.Deferred.{Claim}
use sharpearena.Deferred.Score.{Math, Score, score_claim}
use sharpearena.Deferred.Resolve.{
  Outcome, Resolution, Settlement, Judgement, Settled, settles, refuses, add_all, judge, judge_bars,
  judge_found, seen_with, settle, resolve_loop, resolve_claims,
}

module _ {F : Type 0} where
  not_settled : (k : Kind) (m : String) (c : Claim F) → refuses k m ≡ settles c → ⊥
  not_settled k m c h = cc

  settles-injective : (c c' : Claim F) → settles c ≡ settles c' → c ≡ c'
  settles-injective c c' h = cc

  -- What a settling judgement has found.
  abbrev IsTimely : Outcome F → Claim F → Type 0
  IsTimely o c =
      (leb_ℤ o.available_at c.committed_at ≡ false)
      × (ltb_ℤ o.available_at c.contract.resolves_at ≡ false)

  judge_bars-settles :
      (o : Outcome F) (c c' : Claim F) → judge_bars o c ≡ settles c' → (c ≡ c') × IsTimely o c
  judge_bars-settles o c c' h = elim (Bool-cases (leb_ℤ o.available_at c.committed_at)) [
    | inl leaks ↦ absurd (not_settled _ _ c' (rw leaks at h))
    | inr after ↦ elim (Bool-cases (ltb_ℤ o.available_at c.contract.resolves_at)) [
      | inl early ↦ absurd (not_settled _ _ c' (rw (after, early) at h))
      | inr due ↦ (settles-injective c c' (rw (after, due) at h), (after, due))
    ]
  ]

  judge_found-settles :
      (o : Outcome F) (found : Option (Claim F)) (c : Claim F)
      → judge_found o found ≡ settles c
      → (found ≡ some c) × IsTimely o c
  judge_found-settles o none c h = absurd (not_settled _ _ c h)
  judge_found-settles o (some c') c h =
      let (same, timely) = judge_bars-settles o c' c h in (ap some same, rw same at timely)

  pub judge-settles :
      (by_id : Dict (Claim F)) (seen : List String) (o : Outcome F) (c : Claim F)
      → judge by_id seen o ≡ settles c
      → (lookup o.claim_id by_id ≡ some c) × IsTimely o c
  unfolding judge
  judge-settles by_id seen o c h = elim (Bool-cases (member o.claim_id seen)) [
    | inl again ↦ absurd (not_settled _ _ c (rw again at h))
    | inr first ↦ judge_found-settles o (lookup o.claim_id by_id) c (rw first at h)
  ]

  lookup-nil : (k : String) (c : Claim F) → lookup k [] ≡ some c → ⊥
  unfolding lookup
  lookup-nil k c e = cc

  lookup-add_all :
      (d : Dict (Claim F)) (cs : List (Claim F)) (k : String) (c : Claim F)
      → lookup k (add_all d cs) ≡ some c
      → (Memᴰ c cs × (c.claim_id ≡ k)) ⊎ (lookup k d ≡ some c)
  unfolding add_all
  lookup-add_all d [] k c h = inr h
  lookup-add_all d (x ∷ xs) k c h = elim (lookup-add_all (insert x.claim_id x d) xs k c h) [
    | inl (m, e) ↦ inl (Memᴰ.tail m, e)
    | inr before ↦
        last (Bool-cases (str_eq x.claim_id k)) (sym (lookup-insert x.claim_id k x d) ∙ before)
  ]
    where
      last :
          (str_eq x.claim_id k ≡ true) ⊎ (str_eq x.claim_id k ≡ false)
          → (if str_eq x.claim_id k then some x else lookup k d) ≡ some c
          → (Memᴰ c (x ∷ xs) × (c.claim_id ≡ k)) ⊎ (lookup k d ≡ some c)
      last (inl e) here =
          let same : x ≡ c = some-injective x c (rw e at here) in
          inl (Memᴰ.head (sym same), ap (λ y. y.claim_id) (sym same) ∙ (eq_iff x.claim_id k).0 e)
      last (inr e) here = inr (rw e at here)

module _ {F : Type 0} ⦃r : Runtime F⦄ ⦃m : Math F⦄ where
  -- The score of a known claim by one of the outcomes, which came late enough for both bars.
  unfoldable pub RestsOn : (Outcome F → Claim F → Type 0) → List (Outcome F) → Resolution F → Type 0
  RestsOn Known outcomes x =
      (o : Outcome F) × Memᴰ o outcomes
      × Known o x.claim
      × (score_claim x.claim o.value ≡ ok x.score)
      × (o.value ≡ x.outcome)
      × (o.available_at ≡ x.available_at)
      × (leb_ℤ o.available_at x.claim.committed_at ≡ false)
      × (ltb_ℤ o.available_at x.claim.contract.resolves_at ≡ false)

  weaken :
      (P Q : Outcome F → Claim F → Type 0) (os os' : List (Outcome F)) (xs : List (Resolution F))
      → ((o : Outcome F) (c : Claim F) → P o c → Q o c)
      → ((o : Outcome F) → Memᴰ o os → Memᴰ o os')
      → All (RestsOn P os) xs
      → All (RestsOn Q os') xs
  unfolding RestsOn
  weaken P Q os os' [] pq mm h = tt
  weaken P Q os os' (x ∷ xs) pq mm ((o, mem, known, a, b, c, d, e), h) =
      ((o, mm o mem, pq o x.claim known, a, b, c, d, e), weaken P Q os os' xs pq mm h)

  module _ (Known : Outcome F → Claim F → Type 0) (o : Outcome F) (os : List (Outcome F)) where
    here :
        (c : Claim F) (score : Score F)
        → Known o c
        → score_claim c o.value ≡ ok score
        → IsTimely o c
        → RestsOn Known
            (o ∷ os)
            (record { claim = c; outcome = o.value; available_at = o.available_at; score = score })
    unfolding RestsOn
    here c score known es (after, due) = (o, Memᴰ.head refl, known, es, refl, refl, after, due)

    settle-RestsOn :
        (strict : Bool) (j : Judgement F) (rest : Result (Settled F)) (s : Settled F)
        → ((c : Claim F) → j ≡ settles c → Known o c × IsTimely o c)
        → ((s' : Settled F) → rest ≡ ok s' → All (RestsOn Known os) s'.0)
        → settle strict o j rest ≡ ok s
        → All (RestsOn Known (o ∷ os)) s.0
    unfolding settle
    settle-RestsOn true (refuses k reason) rest s judged before h = absurd (not_ok h)
      where
        not_ok : fail k reason ≡ ok s → ⊥
        not_ok e = cc
    settle-RestsOn false (refuses k reason) rest s judged before h =
        let (s', e, h1) = >>=-eq-ok rest _ h in
        rw (sym (ok-injective h1))
          (weaken Known Known os (o ∷ os) s'.0 (λ o c p. p) (λ x m. Memᴰ.tail m) (before s' e))
    settle-RestsOn strict (settles c) rest s judged before h =
        let (score, es, h1) = >>=-eq-ok (score_claim c o.value) _ h in
        let (s', e, h2) = >>=-eq-ok rest _ h1 in
        let (known, timely) = judged c refl in
        rw (sym (ok-injective h2)) (
          here c score known es timely,
          weaken Known Known os (o ∷ os) s'.0 (λ o c p. p) (λ x m. Memᴰ.tail m) (before s' e),
        )

  module _ (strict : Bool) (by_id : Dict (Claim F)) where
    abbrev InDict : Outcome F → Claim F → Type 0
    InDict o c = lookup o.claim_id by_id ≡ some c

    resolve_loop-RestsOn :
        (seen : List String) (os : List (Outcome F)) (s : Settled F)
        → resolve_loop strict by_id seen os ≡ ok s
        → All (RestsOn InDict os) s.0
    unfolding resolve_loop
    resolve_loop-RestsOn seen [] s h = rw (sym (ok-injective h)) tt
    resolve_loop-RestsOn seen (o ∷ os) s h =
        settle-RestsOn InDict o os strict (judge by_id seen o)
          (resolve_loop strict by_id (seen_with o.claim_id seen) os) s
          (λ c e. judge-settles by_id seen o c e)
          (λ s' e. resolve_loop-RestsOn (seen_with o.claim_id seen) os s' e) h

  -- Whatever the mode, each score that is returned is that of one of the claims, by an outcome with
  -- its id that became available after the commit bar and not before the bar of resolution.
  pub resolve_claims-RestsOn :
      (strict : Bool) (claims : List (Claim F)) (outcomes : List (Outcome F)) (s : Settlement F)
      → resolve_claims strict claims outcomes ≡ ok s
      → All (RestsOn (λ o c. Memᴰ c claims × (c.claim_id ≡ o.claim_id)) outcomes) s.resolved
  unfolding resolve_claims
  resolve_claims-RestsOn strict claims outcomes s h =
      let (_, h1) = checked (not (length (add_all [] claims) == length claims)) _ _ _ h in
      let (p, e, h2) = >>=-eq-ok (resolve_loop strict (add_all [] claims) [] outcomes) _ h1 in
      rw (sym (ok-injective h2)) (
        weaken (InDict strict (add_all [] claims)) _ outcomes outcomes p.0
          (λ o c known. elim (lookup-add_all [] claims o.claim_id c known) [
            | inl found ↦ found
            | inr none_before ↦ absurd (lookup-nil o.claim_id c none_before)
          ])
          (λ o m. m) (resolve_loop-RestsOn strict (add_all [] claims) [] outcomes p e))
