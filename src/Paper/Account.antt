-- ===== src/Paper/Account.antt =====
-- `PaperAccount`, `AccountSnapshot` and `reconcile_account` of paper_trading.py.
pub mod Reconcile
use Prim.Native.Nat.{Ordering}
use Prim.Native.String
use sharpearena.Prelude.{
  String, Bool, true, false, not, ◌&&◌, ◌||◌, Option, none, some, List, [], ◌∷◌, ◌++◌, map, all,
  str_eq, if◌then◌else◌,
}
use sharpearena.Prelude.Dict.{Dict, lookup, insert, get_or, contains}
use sharpearena.Python.Errors
use sharpearena.Python.Errors.{Result, ok, err, fail, raise_if, value_error}
use sharpearena.Python.Methods.{Method, lift, gets, modify, pure, ◌>>=◌, ◌>>◌}
use sharpearena.Python.Runtime.{Runtime, max}
use sharpearena.Paper.Order.{checked_symbol}

pub record PaperAccount (F : Type 0) : Type 0 where
  pub cash : F
  pub equity : F
  pub session_start_equity : F
  pub peak_equity : F
  pub positions : Dict F

pub record AccountSnapshot (F : Type 0) : Type 0 where
  pub cash : F
  pub equity : F
  pub positions : Dict F
  pub source : String

pub record Reconciliation (F : Type 0) : Type 0 where
  pub source : String
  pub cash_before : F
  pub cash_after : F
  pub equity_before : F
  pub equity_after : F
  pub equity_drift : F
  pub position_drift : Dict F
  pub positions_after : Dict F
  pub session_start_equity_preserved : F
  pub peak_equity_after : F

abbrev pub quantities : {F : Type 0} → Dict F → List F
quantities [] = []
quantities ((s, q) ∷ d) = q ∷ quantities d

abbrev pub symbols_of : {F : Type 0} → Dict F → List String
symbols_of [] = []
symbols_of ((s, q) ∷ d) = s ∷ symbols_of d

-- `set(a) | set(b)`: the keys of b, and those of a that b lacks
abbrev pub union_keys : {F : Type 0} → Dict F → Dict F → List String
union_keys [] b = symbols_of b
union_keys ((s, q) ∷ a) b = let rest = union_keys a b in if contains s b then rest else s ∷ rest

abbrev before : String → String → Bool
before a b = elim (String.compare a b) [ Ordering.gt ↦ false | _ ↦ true ]

unfoldable pub insert_sorted : {F : Type 0} → String → F → Dict F → Dict F
insert_sorted s x [] = (s, x) ∷ []
insert_sorted s x ((t, y) ∷ d) =
    if before s t then (s, x) ∷ (t, y) ∷ d else (t, y) ∷ insert_sorted s x d

module _ {F : Type 0} ⦃r : Runtime F⦄ where
  -- `PaperAccount(...)`
  unfoldable pub paper_account : PaperAccount F → Result (PaperAccount F)
  paper_account a =
      Errors.◌>>◌
        (raise_if
          (not (all r.is_finite (a.cash ∷ a.equity ∷ a.session_start_equity ∷ a.peak_equity ∷ [])))
          value_error "paper account values must be finite")
        (Errors.◌>>◌
          (raise_if
            (r.at_most a.equity r.zero
              || r.at_most a.session_start_equity r.zero
              || r.at_most a.peak_equity r.zero)
            value_error "paper account equity anchors must be positive")
          (Errors.◌>>◌
            (raise_if (not (all r.is_finite (quantities a.positions))) value_error
              "paper position quantities must be finite")
            (ok a)))

  -- `AccountSnapshot(...)`
  unfoldable pub account_snapshot : AccountSnapshot F → Result (AccountSnapshot F)
  account_snapshot a =
      Errors.◌>>◌
        (raise_if (not (r.is_finite a.cash) || not (r.is_finite a.equity)) value_error
          "account snapshot cash and equity must be finite")
        (Errors.◌>>◌
          (raise_if (r.at_most a.equity r.zero) value_error
            "account snapshot equity must be positive")
          (Errors.◌>>◌
            (raise_if (not (all r.is_finite (quantities a.positions))) value_error
              "account snapshot positions must be finite")
            (Errors.◌>>◌
              (raise_if (str_eq a.source "") value_error "account snapshot requires a source")
              (ok a))))

  -- The comprehension `positions_after`, on the entries still to come.
  unfoldable pub held : Dict F → Dict F → Result (Dict F)
  held [] acc = ok acc
  held ((symbol, quantity) ∷ d) acc = elim (r.same quantity r.zero) [
    | true ↦ held d acc
    | false ↦ Errors.◌>>=◌ (checked_symbol r.upper symbol) (λ s. held d (insert s quantity acc))
  ]

  abbrev drift_of : Dict F → Dict F → String → F
  drift_of after before' s =
      r.minus (get_or r.zero (lookup s after)) (get_or r.zero (lookup s before'))

  -- `{symbol: value for symbol, value in sorted(drift.items()) if value != 0.0}`
  unfoldable pub position_drift : Dict F → Dict F → List String → Dict F
  position_drift after before' [] = []
  position_drift after before' (s ∷ ss) =
      let rest = position_drift after before' ss in
      if r.same (drift_of after before' s) r.zero
      then rest
      else insert_sorted s (drift_of after before' s) rest

  abbrev rebook : AccountSnapshot F → Dict F → PaperAccount F → PaperAccount F
  rebook snapshot positions_after a = record a {
    cash = snapshot.cash;
    equity = snapshot.equity;
    positions = positions_after;
    peak_equity = max a.peak_equity snapshot.equity;
  }

  abbrev report : AccountSnapshot F → PaperAccount F → PaperAccount F → Reconciliation F
  report snapshot old new = record {
    source = snapshot.source;
    cash_before = old.cash;
    cash_after = new.cash;
    equity_before = old.equity;
    equity_after = new.equity;
    equity_drift = r.minus new.equity old.equity;
    position_drift =
        position_drift new.positions old.positions (union_keys new.positions old.positions);
    positions_after = new.positions;
    session_start_equity_preserved = new.session_start_equity;
    peak_equity_after = new.peak_equity;
  }

  -- `reconcile_account`
  unfoldable pub reconcile_account : AccountSnapshot F → Method (PaperAccount F) (Reconciliation F)
  reconcile_account snapshot = do
    old ← gets (λ a. a)
    positions_after ← lift (held snapshot.positions [])
    modify (rebook snapshot positions_after)
    gets (report snapshot old)
