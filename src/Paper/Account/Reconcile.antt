-- ===== src/Paper/Account/Reconcile.antt =====
-- `reconcile_account`: the broker's book replaces the local one, and the session anchors stay.
use mathlib.Core.Path.{subst}
use sharpearena.Prelude.{
  String, ◌≡◌, true, false, [], ◌∷◌, arith, All, str_eq, Bool-cases, inl, inr,
}
use sharpearena.Prelude.Dict.{Dict, insert}
use sharpearena.Python.Errors.{Error, ok, err, ok-injective}
use sharpearena.Python.Runtime.{Runtime, max}
use sharpearena.Paper.Order.{is_symbol, checked_symbol}
use sharpearena.Paper.Account.{
  PaperAccount, AccountSnapshot, Reconciliation, held, reconcile_account, quantities,
}

module _ {F : Type 0} ⦃r : Runtime F⦄ where
  abbrev pub Nonzero : F → Type 0
  Nonzero q = r.same q r.zero ≡ false

  insert-Nonzero :
      (s : String) (q : F) (d : Dict F)
      → Nonzero q
      → All Nonzero (quantities d)
      → All Nonzero (quantities (insert s q d))
  unfolding insert
  insert-Nonzero s q [] n h = (n, tt)
  insert-Nonzero s q ((t, x) ∷ d) n h = elim (Bool-cases (str_eq t s)) [
    | inl e ↦ rw e (n, h.1)
    | inr e ↦ rw e (h.0, insert-Nonzero s q d n h.1)
  ]

  held-Nonzero :
      (ps acc d : Dict F)
      → held ps acc ≡ ok d
      → All Nonzero (quantities acc)
      → All Nonzero (quantities d)
  unfolding held checked_symbol
  held-Nonzero [] acc d h a = subst (λ x. All Nonzero (quantities x)) (ok-injective h) a
  held-Nonzero ((s, q) ∷ ps) acc d h a = elim (Bool-cases (r.same q r.zero)) [
    | inl z ↦ held-Nonzero ps acc d (ground arith) a
    | inr z ↦ elim (Bool-cases (is_symbol (r.upper s))) [
      | inl y ↦
          held-Nonzero ps (insert (r.upper s) q acc) d (ground arith)
            (insert-Nonzero (r.upper s) q acc z a)
      | inr n ↦ absurd (ground arith)
    ]
  ]

  -- A reconciliation that goes through: cash, equity and positions are the broker's, without zero
  -- positions, the session's start stays, and the high-water mark is below neither equity.
  pub reconcile_account_done :
      ((x : F) → r.less x x ≡ false)
      → ((x y : F) → r.less x y ≡ true → r.less y x ≡ false)
      → (snapshot : AccountSnapshot F) (a a' : PaperAccount F) (report : Reconciliation F)
      → reconcile_account snapshot a ≡ (ok report, a')
      → (a'.cash ≡ snapshot.cash)
        × (a'.equity ≡ snapshot.equity)
        × (held snapshot.positions [] ≡ ok a'.positions)
        × All Nonzero (quantities a'.positions)
        × (a'.session_start_equity ≡ a.session_start_equity)
        × (r.less a'.peak_equity a.peak_equity ≡ false)
        × (r.less a'.peak_equity a'.equity ≡ false)
  unfolding reconcile_account max
  reconcile_account_done irrefl asym snapshot a a' report h =
      let taken : held snapshot.positions [] ≡ ok a'.positions = ground arith in
      (
        ground arith,
        ground arith,
        taken,
        held-Nonzero snapshot.positions [] a'.positions taken tt,
        ground arith,
        ground (arith, irrefl a.peak_equity, asym a.peak_equity snapshot.equity),
        ground (arith, irrefl snapshot.equity),
      )

  -- One that raises, on a symbol that is none, has changed nothing.
  pub reconcile_account_raised :
      (snapshot : AccountSnapshot F) (a a' : PaperAccount F) (e : Error)
      → reconcile_account snapshot a ≡ (err e, a')
      → a' ≡ a
  unfolding reconcile_account
  reconcile_account_raised snapshot a a' e h = ground arith
