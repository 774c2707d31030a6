-- ===== src/Forecast/Valid.antt =====
-- What a constructed contract satisfies.
use sharpearena.Prelude.{
  ◌≡◌, refl, sym, ap, ◌∙◌, true, false, Bool-cases, not, str_eq, eq_iff, not-eq-false, inl, inr,
  arith,
}
use sharpearena.Prelude.Int.{pos, leb_ℤ, ltb_ℤ}
use sharpearena.Prelude.Dict.{lookup}
use sharpearena.Python.Errors.{ok, ◌>>=◌, ◌>>◌, >>=-eq-ok, ok-injective, checked, unraised}
use sharpearena.Python.Runtime.{Runtime}
use sharpearena.Forecast.{
  ForecastContract, schema, kinds, rules_by_kind, rules_of, member, nonempty, finite_number,
  stripped, check_rule, check_clock, clock_broken, checked_categories, check_alpha, post_init,
  refuse_if,
}

module _ {F : Type 0} ⦃r : Runtime F⦄ where
  -- The text fields of c' are those of c without the space around them; the others are the same.
  abbrev pub IsStripped : ForecastContract F → ForecastContract F → Type 0
  IsStripped c c' =
      (nonempty r.strip c.contract_id ≡ ok c'.contract_id)
      × (nonempty r.strip c.question ≡ ok c'.question)
      × (nonempty r.strip c.instrument ≡ ok c'.instrument)
      × (nonempty r.strip c.target ≡ ok c'.target)
      × (nonempty r.strip c.observation_source ≡ ok c'.observation_source)
      × (nonempty r.strip c.open_definition ≡ ok c'.open_definition)
      × (nonempty r.strip c.close_definition ≡ ok c'.close_definition)
      × (nonempty r.strip c.unit ≡ ok c'.unit)
      × (nonempty r.strip c.boundary_ownership ≡ ok c'.boundary_ownership)
      × (nonempty r.strip c.missing_data_policy ≡ ok c'.missing_data_policy)
      × (nonempty r.strip c.fallback_policy ≡ ok c'.fallback_policy)
      × (c'.kind ≡ c.kind)
      × (c'.opens_at ≡ c.opens_at)
      × (c'.deadline ≡ c.deadline)
      × (c'.resolves_at ≡ c.resolves_at)
      × (c'.scoring_rule ≡ c.scoring_rule)
      × (c'.neutral_threshold ≡ c.neutral_threshold)
      × (c'.categories ≡ c.categories)
      × (c'.interval_alpha ≡ c.interval_alpha)
      × (c'.schema_version ≡ c.schema_version)

  stripped-IsStripped : (c c' : ForecastContract F) → stripped c ≡ ok c' → IsStripped c c'
  unfolding stripped
  stripped-IsStripped c c' h =
      let (x0, e0, h0) = >>=-eq-ok (nonempty r.strip c.contract_id) _ h in
      let (x1, e1, h1) = >>=-eq-ok (nonempty r.strip c.question) _ h0 in
      let (x2, e2, h2) = >>=-eq-ok (nonempty r.strip c.instrument) _ h1 in
      let (x3, e3, h3) = >>=-eq-ok (nonempty r.strip c.target) _ h2 in
      let (x4, e4, h4) = >>=-eq-ok (nonempty r.strip c.observation_source) _ h3 in
      let (x5, e5, h5) = >>=-eq-ok (nonempty r.strip c.open_definition) _ h4 in
      let (x6, e6, h6) = >>=-eq-ok (nonempty r.strip c.close_definition) _ h5 in
      let (x7, e7, h7) = >>=-eq-ok (nonempty r.strip c.unit) _ h6 in
      let (x8, e8, h8) = >>=-eq-ok (nonempty r.strip c.boundary_ownership) _ h7 in
      let (x9, e9, h9) = >>=-eq-ok (nonempty r.strip c.missing_data_policy) _ h8 in
      let (x10, e10, h10) = >>=-eq-ok (nonempty r.strip c.fallback_policy) _ h9 in
      let same = ok-injective h10 in
      rw (sym same) (
        e0, e1, e2, e3, e4, e5, e6, e7, e8, e9, e10, refl, refl, refl, refl, refl, refl, refl, refl,
        refl,
      )

  -- The parts of a construction, and what each returned.
  pub post_init-eq-ok :
      (given c : ForecastContract F)
      → post_init given ≡ ok c
      → (c1 : ForecastContract F) × IsStripped given c1
        × (check_rule c1 ≡ ok tt)
        × (check_clock c1 ≡ ok tt)
        × (checked_categories c1 ≡ ok c.categories)
        × (check_alpha (str_eq c1.kind "interval") c1.interval_alpha ≡ ok tt)
        × (record c1 { categories = c.categories } ≡ c)
  unfolding post_init
  post_init-eq-ok given c h =
      let (c1, e1, h1) = >>=-eq-ok (stripped given) _ h in
      let (tt, e2, h2) = >>=-eq-ok (check_rule c1) _ h1 in
      let (tt, e3, h3) = >>=-eq-ok (check_clock c1) _ h2 in
      let (cats, e4, h4) = >>=-eq-ok (checked_categories c1) _ h3 in
      let (tt, e5, h5) =
        >>=-eq-ok (check_alpha (str_eq c1.kind "interval") c1.interval_alpha) _ h4 in
      let same = ok-injective h5 in
      let cats_same = ap (λ d. d.categories) same in
      (
        c1,
        stripped-IsStripped given c1 e1,
        e2,
        e3,
        e4 ∙ ap ok cats_same,
        e5,
        ap (λ k. record c1 { categories = k }) (sym cats_same) ∙ same,
      )

  pub finite_number-same : (x y : F) → finite_number x ≡ ok y → finite_number x ≡ ok x
  unfolding finite_number
  finite_number-same x y h = elim (Bool-cases (r.is_finite x)) [
    | inl e ↦ rw e refl
    | inr e ↦ absurd (ground arith)
  ]

  pub check_clock-eq-ok :
      (c : ForecastContract F)
      → check_clock c ≡ ok tt
      → (clock_broken c ≡ false) × (finite_number c.neutral_threshold ≡ ok c.neutral_threshold)
  unfolding check_clock
  check_clock-eq-ok c h =
      let (sound, h1) =
        checked (clock_broken c) _ _
          (finite_number c.neutral_threshold >>= λ threshold.
            refuse_if (r.less threshold r.zero) "neutral_threshold must be finite and non-negative")
          h in
      let (t, e, _) = >>=-eq-ok (finite_number c.neutral_threshold) _ h1 in
      (sound, finite_number-same c.neutral_threshold t e)

  clock_in_order :
      (c : ForecastContract F)
      → clock_broken c ≡ false
      → (leb_ℤ (pos 0) c.opens_at ≡ true)
        × (leb_ℤ c.opens_at c.deadline ≡ true)
        × (ltb_ℤ c.deadline c.resolves_at ≡ true)
  unfolding clock_broken
  clock_in_order c h = ground arith

  check_rule-eq-ok :
      (c : ForecastContract F)
      → check_rule c ≡ ok tt
      → (c.schema_version ≡ schema)
        × (member c.kind kinds ≡ true)
        × (member c.scoring_rule (rules_of (lookup c.kind rules_by_kind)) ≡ true)
  unfolding check_rule
  check_rule-eq-ok c h =
      let (a, h1) =
        checked (not (str_eq c.schema_version schema)) _ _
          (refuse_if (not (member c.kind kinds)) "unknown forecast kind"
            >> refuse_if (not (member c.scoring_rule (rules_of (lookup c.kind rules_by_kind))))
                "scoring_rule is not valid for the kind")
          h in
      let (b, h2) =
        checked (not (member c.kind kinds)) _ _
          (refuse_if (not (member c.scoring_rule (rules_of (lookup c.kind rules_by_kind))))
            "scoring_rule is not valid for the kind")
          h1 in
      (
        (eq_iff c.schema_version schema).0 (not-eq-false _ a),
        not-eq-false _ b,
        not-eq-false _ (unraised _ _ _ h2),
      )

  -- A constructed contract has the schema of this version, a known kind and a scoring rule of that
  -- kind, and its clock satisfies 0 <= opens_at <= deadline < resolves_at.
  pub post_init_sound :
      (given c : ForecastContract F)
      → post_init given ≡ ok c
      → (c.schema_version ≡ schema)
        × (member c.kind kinds ≡ true)
        × (member c.scoring_rule (rules_of (lookup c.kind rules_by_kind)) ≡ true)
        × (leb_ℤ (pos 0) c.opens_at ≡ true)
        × (leb_ℤ c.opens_at c.deadline ≡ true)
        × (ltb_ℤ c.deadline c.resolves_at ≡ true)
  post_init_sound given c h =
      let (c1, _, rule, clock, _, _, same) = post_init-eq-ok given c h in
      let (a, b, d) = check_rule-eq-ok c1 rule in
      let (e, f, g) = clock_in_order c1 (check_clock-eq-ok c1 clock).0 in
      rw (sym same) (a, b, d, e, f, g)
