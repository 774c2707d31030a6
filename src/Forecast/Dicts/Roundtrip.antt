-- ===== src/Forecast/Dicts/Roundtrip.antt =====
-- `from_dict` reads back what `to_dict` writes.
use sharpearena.Prelude.{
  String, ◌≡◌, refl, ap, ◌∙◌, Bool, true, false, Bool-cases, ◌||◌, Option, none, some, List, [],
  ◌∷◌, ◌++◌, map, str_eq, eq_iff, inl, inr,
}
use sharpearena.Prelude.Dict.{Dict, lookup}
use sharpearena.Python.Json.{str, num, items, fields, get, optional}
use sharpearena.Python.Errors.{ok, >>=-eq-ok}
use sharpearena.Python.Runtime.{Runtime}
use sharpearena.Forecast.{
  ForecastContract, schema, kinds, rules_by_kind, rules_of, member, nonempty, finite_number,
  post_init, check_alpha,
}
use sharpearena.Forecast.Valid.{
  post_init-eq-ok, post_init_sound, check_clock-eq-ok, finite_number-same,
}
use sharpearena.Forecast.Again.{IsIdempotent, post_init_again}
use sharpearena.Forecast.Dicts.{to_dict, from_dict, of_fields, keys, same_keys, texts, plain_alpha}

abbrev rules_in : Dict (List String) → List String
rules_in [] = []
rules_in ((kind, rules) ∷ d) = rules ++ rules_in d

-- The words that the code itself compares with.
abbrev pub words : List String
words = schema ∷ (kinds ++ rules_in rules_by_kind)

member-append :
    (s : String) (xs ys : List String)
    → (member s xs || member s ys) ≡ true
    → member s (xs ++ ys) ≡ true
member-append s [] ys h = h
member-append s (x ∷ xs) ys h = elim (Bool-cases (str_eq s x)) [
  | inl e ↦ rw e refl
  | inr e ↦ rw e (member-append s xs ys (rw e at h))
]

or-left : (a b : Bool) → a ≡ true → (a || b) ≡ true
or-left a b h = rw h refl

or-right : (a b : Bool) → b ≡ true → (a || b) ≡ true
or-right true b h = refl
or-right false b h = h

rule_is_word :
    (kind rule : String) (d : Dict (List String))
    → member rule (rules_of (lookup kind d)) ≡ true
    → member rule (rules_in d) ≡ true
unfolding lookup
rule_is_word kind rule [] h = h
rule_is_word kind rule ((k, rules) ∷ d) h = elim (Bool-cases (str_eq k kind)) [
  | inl e ↦ member-append rule rules (rules_in d) (or-left _ _ (rw e at h))
  | inr e ↦
      member-append rule rules (rules_in d)
        (or-right (member rule rules) _ (rule_is_word kind rule d (rw e at h)))
]

text_list-items : (F : Type 0) (ts : List String) → texts (items {F = F} (map str ts)) ≡ ok ts
unfolding items
text_list-items F [] = refl
text_list-items F (t ∷ ts) = rw (text_list-items F ts) refl

-- `strip` leaves the words of the code as they are.
abbrev pub KeepsWords : (String → String) → Type 0
KeepsWords strip = (s : String) → member s words ≡ true → strip s ≡ s

word_stays :
    (strip : String → String)
    → KeepsWords strip
    → (s : String) → member s words ≡ true
    → nonempty strip s ≡ ok s
unfolding nonempty
word_stays strip fixed s m = elim (Bool-cases (str_eq s "")) [
  | inl e ↦ absurd (empty_is_no_word (rw ((eq_iff s "").0 e) at m))
  | inr e ↦ rw (fixed s m, e) refl
]
  where
    empty_is_no_word : member "" words ≡ true → ⊥
    empty_is_no_word h = cc

module _ {F : Type 0} ⦃r : Runtime F⦄ where
  -- A constructed contract is its own construction, field by field.
  abbrev IsSettled : ForecastContract F → Type 0
  IsSettled c =
      (nonempty r.strip c.contract_id ≡ ok c.contract_id)
      × (nonempty r.strip c.question ≡ ok c.question)
      × (nonempty r.strip c.instrument ≡ ok c.instrument)
      × (nonempty r.strip c.target ≡ ok c.target)
      × (nonempty r.strip c.observation_source ≡ ok c.observation_source)
      × (nonempty r.strip c.open_definition ≡ ok c.open_definition)
      × (nonempty r.strip c.close_definition ≡ ok c.close_definition)
      × (nonempty r.strip c.unit ≡ ok c.unit)
      × (nonempty r.strip c.boundary_ownership ≡ ok c.boundary_ownership)
      × (nonempty r.strip c.missing_data_policy ≡ ok c.missing_data_policy)
      × (nonempty r.strip c.fallback_policy ≡ ok c.fallback_policy)
      × (nonempty r.strip c.schema_version ≡ ok c.schema_version)
      × (nonempty r.strip c.kind ≡ ok c.kind)
      × (nonempty r.strip c.scoring_rule ≡ ok c.scoring_rule)
      × (finite_number c.neutral_threshold ≡ ok c.neutral_threshold)
      × (plain_alpha (optional num c.interval_alpha) ≡ ok c.interval_alpha)

  check_alpha-settled :
      (b : Bool) (alpha : Option F)
      → check_alpha b alpha ≡ ok tt
      → plain_alpha (optional num alpha) ≡ ok alpha
  unfolding check_alpha optional
  check_alpha-settled b none h = refl
  check_alpha-settled true (some a) h =
      let (t, e, _) = >>=-eq-ok (finite_number a) _ h in rw (finite_number-same a t e) refl
  check_alpha-settled false (some a) h = cc

  post_init-IsSettled :
      (c : ForecastContract F) → KeepsWords r.strip → post_init c ≡ ok c → IsSettled c
  post_init-IsSettled c fixed h =
      let (
        c1,
        (e0, e1, e2, e3, e4, e5, e6, e7, e8, e9, e10, _, _, _, _, _, _, _, _, _),
        rule,
        clock,
        _,
        alpha,
        same,
      ) =
        post_init-eq-ok c c h in
      let (schema_known, kind_known, rule_known, _, _, _) = post_init_sound c c h in
      let (_, finite) = check_clock-eq-ok c1 clock in
      (
        e0 ∙ ap (λ d. ok d.contract_id) same,
        e1 ∙ ap (λ d. ok d.question) same,
        e2 ∙ ap (λ d. ok d.instrument) same,
        e3 ∙ ap (λ d. ok d.target) same,
        e4 ∙ ap (λ d. ok d.observation_source) same,
        e5 ∙ ap (λ d. ok d.open_definition) same,
        e6 ∙ ap (λ d. ok d.close_definition) same,
        e7 ∙ ap (λ d. ok d.unit) same,
        e8 ∙ ap (λ d. ok d.boundary_ownership) same,
        e9 ∙ ap (λ d. ok d.missing_data_policy) same,
        e10 ∙ ap (λ d. ok d.fallback_policy) same,
        word_stays r.strip fixed c.schema_version (rw schema_known refl),
        word_stays r.strip fixed c.kind (
            or-right (str_eq c.kind schema) _
              (member-append c.kind kinds (rules_in rules_by_kind) (or-left _ _ kind_known))),
        word_stays r.strip fixed c.scoring_rule (
            or-right (str_eq c.scoring_rule schema) _ (
              member-append c.scoring_rule kinds (rules_in rules_by_kind) (
                or-right (member c.scoring_rule kinds) _
                  (rule_is_word c.kind c.scoring_rule rules_by_kind rule_known)))),
        rw (ap (λ d. d.neutral_threshold) same) at finite,
        rw (ap (λ d. d.interval_alpha) same) at
            (check_alpha-settled (str_eq c1.kind "interval") c1.interval_alpha alpha),
      )

  of_fields-IsSettled : (c : ForecastContract F) → IsSettled c → from_dict (to_dict c) ≡ post_init c
  unfolding from_dict to_dict of_fields same_keys keys fields get optional
  of_fields-IsSettled c s =
      let (e0, e1, e2, e3, e4, e5, e6, e7, e8, e9, e10, e11, e12, e13, e14, e15) = s in
      rw
        (
          text_list-items F c.categories,
          e0,
          e1,
          e2,
          e3,
          e4,
          e5,
          e6,
          e7,
          e8,
          e9,
          e10,
          e11,
          e12,
          e13,
          e14,
          e15,
        )
        refl

  -- Where `strip` keeps the words of the code and changes no stripped text, every contract that the
  -- constructor made is read back from its dict as it was.
  pub from_dict-to_dict :
      (given c : ForecastContract F)
      → KeepsWords r.strip
      → IsIdempotent r.strip
      → post_init given ≡ ok c
      → from_dict (to_dict c) ≡ ok c
  from_dict-to_dict given c fixed idem made =
      let h = post_init_again idem given c made in
      of_fields-IsSettled c (post_init-IsSettled c fixed h) ∙ h
