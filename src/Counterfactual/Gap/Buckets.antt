-- ===== src/Counterfactual/Gap/Buckets.antt =====
-- `dispositions[name] += 1` of `selection_gap`: it raises the count of the name by one, and no other.
use sharpearena.Prelude.{
  eq_iff, ap, ◌∙◌, Bool-cases, inl, inr, sym, ℕ, ◌+◌, ◌≡◌, refl, sym, inl, inr, String, Bool, true,
  false, Bool-cases, some, [], ◌∷◌, str_eq, if◌then◌else◌, arith,
}
use sharpearena.Prelude.Dict.{Dict, lookup}
use sharpearena.Python.Errors.{ok, ◌>>=◌, >>=-eq-ok, ok-injective}
use sharpearena.Counterfactual.Ghost.{Disposition, disposition_name}
use sharpearena.Counterfactual.Gap.{no_dispositions, bump}

abbrev pub total : Dict ℕ → ℕ
total [] = 0
total ((k, n) ∷ d) = n + total d

bumped :
    (name k : String) (n : ℕ) (d d' : Dict ℕ) (b : Bool)
    → ((rest : Dict ℕ) → bump name d ≡ ok rest → total rest ≡ total d + 1)
    → (if b then ok ((k, n + 1) ∷ d) else (bump name d >>= (λ rest. ok ((k, n) ∷ rest)))) ≡ ok d'
    → total d' ≡ n + total d + 1
bumped name k n d d' true counts h = rw (sym (ok-injective h)) (omega arith)
bumped name k n d d' false counts h =
    let (rest, h1, h2) = >>=-eq-ok (bump name d) _ h in
    rw (sym (ok-injective h2)) (omega (arith, counts rest h1))

pub total-bump : (name : String) (d d' : Dict ℕ) → bump name d ≡ ok d' → total d' ≡ total d + 1
unfolding bump
total-bump name [] d' h = cc
total-bump name ((k, n) ∷ d) d' h =
    bumped name k n d d' (str_eq k name) (λ rest h1. total-bump name d rest h1) h

lookup_bumped :
    (name j k : String) (m : ℕ) (d d' : Dict ℕ) (n : ℕ) (b : Bool)
    → str_eq k name ≡ b
    → ((rest : Dict ℕ)
        → bump name d ≡ ok rest
        → lookup j d ≡ some n
        → lookup j rest ≡ some (n + (if str_eq name j then 1 else 0)))
    → (if b then ok ((k, m + 1) ∷ d) else (bump name d >>= (λ rest. ok ((k, m) ∷ rest)))) ≡ ok d'
    → lookup j ((k, m) ∷ d) ≡ some n
    → lookup j d' ≡ some (n + (if str_eq name j then 1 else 0))
unfolding lookup
lookup_bumped name j k m d d' n true same counts h e =
    rw (sym (ok-injective h), sym ((eq_iff k name).0 same)) (placed (str_eq k j) e)
  where
    placed :
        (c : Bool)
        → (if c then some m else lookup j d) ≡ some n
        → (if c then some (m + 1) else lookup j d) ≡ some (n + (if c then 1 else 0))
    placed true p = ground (arith, p)
    placed false p = p ∙ ap some (omega arith)
lookup_bumped name j k m d d' n false differs counts h e =
    let (rest, h1, h2) = >>=-eq-ok (bump name d) _ h in
    rw (sym (ok-injective h2)) (elim (Bool-cases (str_eq k j)) [
      | inl here ↦ ground (arith, eq_iff k j, eq_iff k name, eq_iff name j)
      | inr away ↦ rw away (counts rest h1 (rw away at e))
    ])

pub lookup-bump :
    (name j : String) (d d' : Dict ℕ)
    → bump name d ≡ ok d'
    → (n : ℕ) → lookup j d ≡ some n
    → lookup j d' ≡ some (n + (if str_eq name j then 1 else 0))
unfolding bump
lookup-bump name j [] d' h n e = cc
lookup-bump name j ((k, m) ∷ d) d' h n e =
    lookup_bumped name j k m d d' n (str_eq k name) refl
      (λ rest h1 e1. lookup-bump name j d rest h1 n e1) h e

pub unbumped : (x : Disposition) → lookup (disposition_name x) no_dispositions ≡ some 0
unfolding disposition_name lookup
unbumped Disposition.executed = refl
unbumped Disposition.risk_refused = refl
unbumped Disposition.below_min_notional = refl
unbumped Disposition.not_submitted = refl
unbumped Disposition.resized = refl
unbumped Disposition.acknowledged = refl
unbumped Disposition.partially_filled = refl
unbumped Disposition.submission_unknown = refl
unbumped Disposition.broker_rejected = refl
unbumped Disposition.broker_canceled = refl
unbumped Disposition.broker_expired = refl
