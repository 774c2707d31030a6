-- ===== src/Paper/Risk/Batch.antt =====
-- `assess_batch`: only the last verdict of a batch can be a refusal, and each is taken against the
-- shadow account that the orders before it leave.
use mathlib.Core.Path.{subst}
use sharpearena.Prelude.{
  Option, sym, eq_refl, String, str_eq, eq_iff, ap, ◌∙◌, Option-cases, ◌≡◌, refl, Bool, true, false,
  ◌&&◌, none, some, List, [], ◌∷◌, arith, length, Bool-cases, inl, inr,
}
use sharpearena.Prelude.Dict.{Dict, get_or, lookup, insert, lookup-insert}
use sharpearena.Python.Errors.{Error, ok, err, key_error, ok-injective, >>=-eq-ok}
use sharpearena.Python.Runtime.{Runtime, max}
use sharpearena.Counterfactual.Ghost.{Side, by_side}
use sharpearena.Paper.Risk.Permit.{IsPermitted, assess-IsPermitted}
use sharpearena.Paper.Order.{PaperOrder}
use sharpearena.Paper.Account.{PaperAccount, paper_account}
use sharpearena.Paper.Risk.{
  PaperRiskConfig, RiskVerdict, or_zero, delta_of, assess, price_at, shadow_fill, marks, batch_loop,
  assess_batch,
}

-- What an order adds to a position.
abbrev pub signed : {F : Type 0} ⦃r : Runtime F⦄ → Side → F → F
signed ⦃r⦄ Side.buy q = q
signed ⦃r⦄ Side.sell q = r.negate q

price_at-lookup :
    {F : Type 0} ⦃r : Runtime F⦄ (s : String) (o : Option F) (p : F)
    → price_at s o ≡ ok p
    → o ≡ some p
price_at-lookup s none p h = cc
price_at-lookup s (some q) p h = ap some (ok-injective h)

module _ {F : Type 0} ⦃r : Runtime F⦄ (prices : Dict F) where
  -- The values of the positions, each at the price of its symbol.
  pub data Valued : Dict F → List F → Type 0 where
    none_held : Valued [] []
    held :
        {d : Dict F} {vs : List F} (s : String) (q p : F)
        → lookup s prices ≡ some p
        → Valued d vs
        → Valued ((s, q) ∷ d) (r.times q p ∷ vs)

  -- The account after the order has been filled in full at the price of its symbol.
  pub record IsFilled (o : PaperOrder F) (a a' : PaperAccount F) : Type 0 where
    pub price : F
    pub priced : lookup o.symbol prices ≡ some price
    pub cash : a'.cash ≡ r.minus a.cash (r.times (signed o.side o.quantity) price)
    pub moved :
        lookup o.symbol a'.positions
        ≡ some (r.plus (get_or r.zero (lookup o.symbol a.positions)) (signed o.side o.quantity))
    pub others :
        (s : String) → str_eq o.symbol s ≡ false → lookup s a'.positions ≡ lookup s a.positions
    pub marked :
        (values : List F) × Valued a'.positions values × (a'.equity ≡ r.plus a'.cash (r.sum values))
    pub peak : a'.peak_equity ≡ max a.peak_equity a'.equity
    pub session_start : a'.session_start_equity ≡ a.session_start_equity

  marks-Valued : (d : Dict F) (vs : List F) → marks d prices ≡ ok vs → Valued d vs
  unfolding marks
  marks-Valued [] vs h = subst (λ z. Valued [] z) (ok-injective h) none_held
  marks-Valued ((s, q) ∷ d) vs h =
      let (p, priced, h1) = >>=-eq-ok (price_at s (lookup s prices)) _ h in
      let (rest, others, h2) = >>=-eq-ok (marks d prices) _ h1 in
      subst (λ z. Valued ((s, q) ∷ d) z) (ok-injective h2)
        (held s q p (price_at-lookup s (lookup s prices) p priced) (marks-Valued d rest others))

  signed-delta_of : (o : PaperOrder F) → delta_of o ≡ signed o.side o.quantity
  signed-delta_of o = of_side o.side
    where
      of_side : (side : Side) → by_side side o.quantity ≡ signed side o.quantity
      of_side Side.buy = refl
      of_side Side.sell = refl

  shadow_fill-IsFilled :
      (o : PaperOrder F) (a a' : PaperAccount F) → shadow_fill o a prices ≡ ok a' → IsFilled o a a'
  unfolding shadow_fill
  shadow_fill-IsFilled o a a' h =
      let (p, priced, h1) = >>=-eq-ok (price_at o.symbol (lookup o.symbol prices)) _ h in
      let x = r.plus (or_zero o.symbol a.positions) (delta_of o) in
      let (vs, valued, h2) = >>=-eq-ok (marks (insert o.symbol x a.positions) prices) _ h1 in
      subst (λ z. IsFilled o a z) (ok-injective h2)
        (record {
          price = p;
          priced = price_at-lookup o.symbol (lookup o.symbol prices) p priced;
          cash = rw (sym (signed-delta_of o)) refl;
          moved =
              rw
                (
                  lookup-insert o.symbol o.symbol x a.positions,
                  eq_refl o.symbol,
                  sym (signed-delta_of o),
                )
                refl;
          others = λ s away. rw (lookup-insert o.symbol s x a.positions, away) refl;
          marked = (vs, marks-Valued (insert o.symbol x a.positions) vs valued, refl);
          peak = refl;
          session_start = refl;
        })

module _ {F : Type 0} ⦃r : Runtime F⦄ (c : PaperRiskConfig F) (prices : Dict F) where
  -- The verdicts that the guard owes for these orders from this account.
  pub data Verdicts : PaperAccount F → List (PaperOrder F) → List (RiskVerdict F) → Type 0 where
    done : {a : PaperAccount F} → Verdicts a [] []
    refused :
        {a : PaperAccount F} {os : List (PaperOrder F)} (o : PaperOrder F)
        → ¬ IsPermitted c o a prices
        → (assess c o a prices).allowed ≡ false
        → Verdicts a (o ∷ os) (assess c o a prices ∷ [])
    approved :
        {a a' : PaperAccount F} {os : List (PaperOrder F)} {vs : List (RiskVerdict F)}
        (o : PaperOrder F)
        → IsPermitted c o a prices
        → (assess c o a prices).allowed ≡ true
        → IsFilled prices o a a'
        → Verdicts a' os vs
        → Verdicts a (o ∷ os) (assess c o a prices ∷ vs)

  unpermitted :
      (o : PaperOrder F) (a : PaperAccount F)
      → (assess c o a prices).allowed ≡ false
      → ¬ IsPermitted c o a prices
  unpermitted o a n m = clash ((assess-IsPermitted c o a prices).1 m) n
    where
      clash : {b : Bool} → b ≡ true → b ≡ false → ⊥
      clash p q = cc

  batch_loop-Verdicts :
      (os : List (PaperOrder F)) (a : PaperAccount F) (vs : List (RiskVerdict F))
      → batch_loop c os a prices ≡ ok vs
      → Verdicts a os vs
  unfolding batch_loop
  batch_loop-Verdicts [] a vs h = subst (Verdicts a []) (ok-injective h) done
  batch_loop-Verdicts (o ∷ os) a vs h = elim (Bool-cases (assess c o a prices).allowed) [
    | inr n ↦
        subst (Verdicts a (o ∷ os)) (ok-injective (rw (n, batch_loop) at h))
          (refused o (unpermitted o a n) n)
    | inl y ↦
        let (a', filled, more) = >>=-eq-ok (shadow_fill o a prices) _ (rw (y, batch_loop) at h) in
        let (rest, looped, all_of) = >>=-eq-ok (batch_loop c os a' prices) _ more in
        subst (Verdicts a (o ∷ os)) (ok-injective all_of) (
          approved o ((assess-IsPermitted c o a prices).0 y) y
            (shadow_fill-IsFilled prices o a a' filled) (batch_loop-Verdicts os a' rest looped))
  ]

  -- A batch that is assessed gets the verdicts of `assess`, each against the account in which the orders
  -- before it have been filled in full at their prices, an approval for each order that is permitted
  -- there, and nothing after the first refusal, which is of an order that is not permitted there.
  pub assess_batch-Verdicts :
      (os : List (PaperOrder F)) (a : PaperAccount F) (vs : List (RiskVerdict F))
      → assess_batch c os a prices ≡ ok vs
      → Verdicts a os vs
  unfolding assess_batch paper_account
  assess_batch-Verdicts os a vs h = batch_loop-Verdicts os a vs (ground arith)

  abbrev pub all_allowed : List (RiskVerdict F) → Bool
  all_allowed [] = true
  all_allowed (v ∷ vs) = v.allowed && all_allowed vs

  -- Verdicts without a refusal cover the whole batch.
  pub Verdicts-length :
      {a : PaperAccount F} {os : List (PaperOrder F)} {vs : List (RiskVerdict F)}
      → Verdicts a os vs
      → all_allowed vs ≡ true
      → length vs ≡ length os
  Verdicts-length done h = refl
  Verdicts-length (refused o u n) h = absurd (ground arith)
  Verdicts-length (approved o m y f v) h = ground (arith, Verdicts-length v)

  marks_missing :
      (s : String) (q : F) (d : Dict F)
      → lookup s d ≡ some q
      → lookup s prices ≡ none
      → (e : Error) × (marks d prices ≡ err e) × (e.kind ≡ key_error)
  unfolding marks lookup
  marks_missing s q [] h n = absurd cc
  marks_missing s q ((t, x) ∷ d) h n = elim (Bool-cases (str_eq t s)) [
    | inl e ↦
        let t_is_s : t ≡ s = (eq_iff t s).0 e in
        (record { kind = key_error; message = t }, rw (ap (λ z. lookup z prices) t_is_s ∙ n), refl)
    | inr e ↦ elim (Option-cases (lookup t prices)) [
      | inl m ↦ (record { kind = key_error; message = t }, rw m, refl)
      | inr (p, m) ↦ let (er, k, kk) = marks_missing s q d (rw e at h) n in (er, rw (m, k), kk)
    ]
  ]

  shadow_fill_missing :
      (o : PaperOrder F) (a : PaperAccount F) (s : String) (q : F)
      → lookup s a.positions ≡ some q
      → lookup s prices ≡ none
      → (e : Error) × (shadow_fill o a prices ≡ err e) × (e.kind ≡ key_error)
  unfolding shadow_fill
  shadow_fill_missing o a s q h n = elim (Option-cases (lookup o.symbol prices)) [
    | inl m ↦ (record { kind = key_error; message = o.symbol }, rw m, refl)
    | inr (p, m) ↦
        let x = r.plus (or_zero o.symbol a.positions) (delta_of o) in
        let held : lookup s (insert o.symbol x a.positions) ≡ some q =
          ground (arith, lookup-insert o.symbol s x a.positions, eq_iff o.symbol s) in
        let (e, failed, kind) = marks_missing s q (insert o.symbol x a.positions) held n in
        (e, rw (m, failed), kind)
  ]

  batch_loop_raises :
      (o : PaperOrder F) (os : List (PaperOrder F)) (a : PaperAccount F) (e : Error)
      → (assess c o a prices).allowed ≡ true
      → shadow_fill o a prices ≡ err e
      → batch_loop c (o ∷ os) a prices ≡ err e
  unfolding batch_loop
  batch_loop_raises o os a e y failed = rw (y, batch_loop) (rw failed)

  -- A held symbol without a price makes the whole batch raise KeyError once its first order is
  -- approved, also where the held quantity is zero and the guard had approved the order.
  pub assess_batch_unpriced :
      (o : PaperOrder F) (os : List (PaperOrder F)) (a : PaperAccount F) (s : String) (q : F)
      → paper_account a ≡ ok a
      → (assess c o a prices).allowed ≡ true
      → lookup s a.positions ≡ some q
      → lookup s prices ≡ none
      → (e : Error) × (assess_batch c (o ∷ os) a prices ≡ err e) × (e.kind ≡ key_error)
  assess_batch_unpriced o os a s q valid y h n =
      let (e, failed, kind) = shadow_fill_missing o a s q h n in
      (e, unfold assess_batch in rw (valid, batch_loop_raises o os a e y failed), kind)
