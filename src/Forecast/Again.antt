-- ===== src/Forecast/Again.antt =====
-- The constructor of `ForecastContract` leaves as it is what it made.
use mathlib.Core.Path.{subst}
use sharpearena.Prelude.{String, ◌≡◌, refl, inl, inr, Bool-cases, not, List, [], ◌∷◌, str_eq}
use sharpearena.Python.Errors.{ok, >>=-eq-ok, ok-injective}
use sharpearena.Python.Runtime.{Runtime}
use sharpearena.Forecast.{
  ForecastContract, nonempty, nonempties, stripped, check_rule, check_clock, clock_broken,
  checked_categories, check_count, post_init, refuse, refuse_if, unique,
}
use sharpearena.Forecast.Valid.{IsStripped, post_init-eq-ok}

-- `str.strip` of a stripped text changes nothing.
abbrev pub IsIdempotent : (String → String) → Type 0
IsIdempotent strip = (s : String) → strip (strip s) ≡ strip s

module _ (strip : String → String) (idem : IsIdempotent strip) where
  nonempty_again : (s t : String) → nonempty strip s ≡ ok t → nonempty strip t ≡ ok t
  unfolding nonempty
  nonempty_again s t h = elim (Bool-cases (str_eq (strip s) "")) [
    | inl e ↦ absurd (refused (rw e at h))
    | inr e ↦
        let same : strip s ≡ t = ok-injective (rw e at h) in
        subst (λ z. nonempty strip z ≡ ok z) same (rw (idem s, e) refl)
  ]
    where
      refused : refuse "must be a non-empty string" ≡ ok t → ⊥
      refused k = cc

  nonempties_again :
      (ss ts : List String) → nonempties strip ss ≡ ok ts → nonempties strip ts ≡ ok ts
  unfolding nonempties
  nonempties_again [] ts h = subst (λ z. nonempties strip z ≡ ok z) (ok-injective h) refl
  nonempties_again (s ∷ ss) ts h =
      let (t, e, h1) = >>=-eq-ok (nonempty strip s) _ h in
      let (rest, others, h2) = >>=-eq-ok (nonempties strip ss) _ h1 in
      subst (λ z. nonempties strip z ≡ ok z) (ok-injective h2)
        (rw (nonempty_again s t e, nonempties_again ss rest others) refl)

module _ {F : Type 0} ⦃r : Runtime F⦄ (idem : IsIdempotent r.strip) where
  stripped_again :
      (c c1 : ForecastContract F) (k : List String)
      → IsStripped c c1
      → stripped (record c1 { categories = k }) ≡ ok (record c1 { categories = k })
  unfolding stripped
  stripped_again c c1 k (e0, e1, e2, e3, e4, e5, e6, e7, e8, e9, e10, _, _, _, _, _, _, _, _, _) =
      rw
        (
          nonempty_again r.strip idem c.contract_id c1.contract_id e0,
          nonempty_again r.strip idem c.question c1.question e1,
          nonempty_again r.strip idem c.instrument c1.instrument e2,
          nonempty_again r.strip idem c.target c1.target e3,
          nonempty_again r.strip idem c.observation_source c1.observation_source e4,
          nonempty_again r.strip idem c.open_definition c1.open_definition e5,
          nonempty_again r.strip idem c.close_definition c1.close_definition e6,
          nonempty_again r.strip idem c.unit c1.unit e7,
          nonempty_again r.strip idem c.boundary_ownership c1.boundary_ownership e8,
          nonempty_again r.strip idem c.missing_data_policy c1.missing_data_policy e9,
          nonempty_again r.strip idem c.fallback_policy c1.fallback_policy e10,
        )
        refl

  rule_again :
      (c1 : ForecastContract F) (k : List String)
      → check_rule c1 ≡ ok tt
      → check_rule (record c1 { categories = k }) ≡ ok tt
  unfolding check_rule
  rule_again c1 k h = h

  clock_again :
      (c1 : ForecastContract F) (k : List String)
      → check_clock c1 ≡ ok tt
      → check_clock (record c1 { categories = k }) ≡ ok tt
  unfolding check_clock clock_broken
  clock_again c1 k h = h

  categories_again :
      (c1 : ForecastContract F) (k : List String)
      → checked_categories c1 ≡ ok k
      → checked_categories (record c1 { categories = k }) ≡ ok k
  unfolding checked_categories
  categories_again c1 k h =
      let (ts, e, h1) = >>=-eq-ok (nonempties r.strip c1.categories) _ h in
      let (tt, differ, h2) =
        >>=-eq-ok (refuse_if (not (unique ts)) "categories must be unique") _ h1 in
      let (tt, counted, h3) = >>=-eq-ok (check_count (str_eq c1.kind "categorical") ts) _ h2 in
      let same : ts ≡ k = ok-injective h3 in
      subst (λ z. checked_categories (record c1 { categories = z }) ≡ ok z) same
        (rw (nonempties_again r.strip idem c1.categories ts e, differ, counted) refl)

  -- Where `strip` is idempotent, a constructed contract is its own construction.
  pub post_init_again : (given c : ForecastContract F) → post_init given ≡ ok c → post_init c ≡ ok c
  unfolding post_init
  post_init_again given c h =
      let (c1, texts, rule, clock, cats, alpha, same) = post_init-eq-ok given c h in
      subst (λ z. post_init z ≡ ok z) same
        (rw
          (
            stripped_again given c1 c.categories texts,
            rule_again c1 c.categories rule,
            clock_again c1 c.categories clock,
            categories_again c1 c.categories cats,
            alpha,
          )
          refl)
