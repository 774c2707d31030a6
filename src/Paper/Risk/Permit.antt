-- ===== src/Paper/Risk/Permit.antt =====
-- `assess` approves an order exactly where every gate of the guard is open.
use sharpearena.Prelude.{
  String, refl, Bool-cases, inl, inr, ◌⊎◌, ◌||◌, Option, none, some, [], ◌∷◌, All, &&-eq-true, ◌≡◌,
  ◌↔◌, true, false, arith,
}
use sharpearena.Prelude.Dict.{Dict, lookup}
use sharpearena.Python.Runtime.{Runtime}
use sharpearena.Paper.Order.{PaperOrder}
use sharpearena.Paper.Account.{PaperAccount}
use sharpearena.Paper.Risk.{
  PaperRiskConfig, member, or_zero, delta_of, prices_valid, is_priced, loss_from, gross_of, refusal,
  assess,
}

module _ {F : Type 0} ⦃r : Runtime F⦄ where
  -- Nothing of the symbol is held, or it has a finite and positive price.
  abbrev pub HasPrice : Dict F → String × F → Type 0
  HasPrice prices (s, q) =
      (r.same q r.zero ≡ true)
      ⊎ ((p : F) × (lookup s prices ≡ some p) × (r.is_finite p ≡ true) × (r.less r.zero p ≡ true))

  priced_or_flat :
      (s : String) (q : F) (prices : Dict F)
      → (r.same q r.zero || is_priced (lookup s prices)) ≡ true
      → HasPrice prices (s, q)
  priced_or_flat s q prices h = elim (Bool-cases (r.same q r.zero)) [
    | inl e ↦ inl e
    | inr e ↦ inr (quoted (lookup s prices) (rw e at h))
  ]
    where
      quoted :
          (o : Option F)
          → is_priced o ≡ true
          → (p : F) × (o ≡ some p) × (r.is_finite p ≡ true) × (r.less r.zero p ≡ true)
      quoted none h = absurd cc
      quoted (some p) h =
          let (finite, positive) = &&-eq-true (r.is_finite p) (r.less r.zero p) h in
          (p, refl, finite, positive)

  flat_or_priced :
      (s : String) (q : F) (prices : Dict F)
      → HasPrice prices (s, q)
      → (r.same q r.zero || is_priced (lookup s prices)) ≡ true
  flat_or_priced s q prices (inl e) = rw e refl
  flat_or_priced s q prices (inr (p, e, finite, positive)) = elim (Bool-cases (r.same q r.zero)) [
    | inl same ↦ rw same refl
    | inr differs ↦ rw (differs, e, finite, positive) refl
  ]

  prices_valid-HasPrice :
      (d prices : Dict F) → prices_valid d prices ≡ true → All (HasPrice prices) d
  unfolding prices_valid
  prices_valid-HasPrice [] prices h = tt
  prices_valid-HasPrice ((s, q) ∷ d) prices h =
      let (here, rest) =
        &&-eq-true (r.same q r.zero || is_priced (lookup s prices)) (prices_valid d prices) h in
      (priced_or_flat s q prices here, prices_valid-HasPrice d prices rest)

  HasPrice-prices_valid :
      (d prices : Dict F) → All (HasPrice prices) d → prices_valid d prices ≡ true
  unfolding prices_valid
  HasPrice-prices_valid [] prices h = refl
  HasPrice-prices_valid ((s, q) ∷ d) prices (here, rest) =
      rw (flat_or_priced s q prices here, HasPrice-prices_valid d prices rest) refl

  -- The gates as the ladder asks for them.
  record Gates (c : PaperRiskConfig F) (o : PaperOrder F) (a : PaperAccount F) (prices : Dict F)
      : Type 0 where
    running : c.kill_switch ≡ false
    listed : member o.symbol c.allowed_symbols ≡ true
    finite_price : r.is_finite (or_zero o.symbol prices) ≡ true
    positive_price : r.at_most (or_zero o.symbol prices) r.zero ≡ false
    book_priced : prices_valid a.positions prices ≡ true
    daily_loss : r.less c.max_daily_loss (loss_from a.equity a.session_start_equity) ≡ false
    drawdown : r.less c.max_drawdown (loss_from a.equity a.peak_equity) ≡ false
    notional : r.less c.max_order_notional (r.times o.quantity (or_zero o.symbol prices)) ≡ false
    gross : r.less c.max_gross_exposure (gross_of o a prices (or_zero o.symbol prices)) ≡ false
    short :
        r.less (r.plus (or_zero o.symbol a.positions) (delta_of o)) (r.negate r.tiny) ≡ true
        → c.allow_shorting ≡ true

  pub record IsPermitted (c : PaperRiskConfig F) (o : PaperOrder F) (a : PaperAccount F)
      (prices : Dict F) : Type 0 where
    pub running : c.kill_switch ≡ false
    pub listed : member o.symbol c.allowed_symbols ≡ true
    pub finite_price : r.is_finite (or_zero o.symbol prices) ≡ true
    pub positive_price : r.at_most (or_zero o.symbol prices) r.zero ≡ false
    pub book_priced : All (HasPrice prices) a.positions
    pub daily_loss : r.less c.max_daily_loss (loss_from a.equity a.session_start_equity) ≡ false
    pub drawdown : r.less c.max_drawdown (loss_from a.equity a.peak_equity) ≡ false
    pub notional :
        r.less c.max_order_notional (r.times o.quantity (or_zero o.symbol prices)) ≡ false
    pub gross : r.less c.max_gross_exposure (gross_of o a prices (or_zero o.symbol prices)) ≡ false
    pub short :
        r.less (r.plus (or_zero o.symbol a.positions) (delta_of o)) (r.negate r.tiny) ≡ true
        → c.allow_shorting ≡ true

  assess-Gates :
      (c : PaperRiskConfig F) (o : PaperOrder F) (a : PaperAccount F) (prices : Dict F)
      → ((assess c o a prices).allowed ≡ true) ↔ Gates c o a prices
  unfolding assess refusal
  assess-Gates c o a prices = (λ h. ground arith, λ h. ground arith)

  -- The guard allows an order exactly where the session is running, the symbol is listed, its price
  -- is finite and positive, every held position has a finite and positive price, and no limit is crossed: daily loss,
  -- drawdown, order notional, gross exposure, and a short position only where shorting is allowed.
  pub assess-IsPermitted :
      (c : PaperRiskConfig F) (o : PaperOrder F) (a : PaperAccount F) (prices : Dict F)
      → ((assess c o a prices).allowed ≡ true) ↔ IsPermitted c o a prices
  assess-IsPermitted c o a prices = (
    λ h. permitted ((assess-Gates c o a prices).0 h),
    λ p. (assess-Gates c o a prices).1 (gates p),
  )
    where
      permitted : Gates c o a prices → IsPermitted c o a prices
      permitted g = record {
        running = g.running;
        listed = g.listed;
        finite_price = g.finite_price;
        positive_price = g.positive_price;
        book_priced = prices_valid-HasPrice a.positions prices g.book_priced;
        daily_loss = g.daily_loss;
        drawdown = g.drawdown;
        notional = g.notional;
        gross = g.gross;
        short = g.short;
      }

      gates : IsPermitted c o a prices → Gates c o a prices
      gates p = record {
        running = p.running;
        listed = p.listed;
        finite_price = p.finite_price;
        positive_price = p.positive_price;
        book_priced = HasPrice-prices_valid a.positions prices p.book_priced;
        daily_loss = p.daily_loss;
        drawdown = p.drawdown;
        notional = p.notional;
        gross = p.gross;
        short = p.short;
      }
