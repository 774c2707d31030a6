-- ===== src/Paper/Broker/Local.antt =====
-- `InMemoryPaperBroker` of paper_trading.py.
use sharpearena.Prelude.{
  ℕ, ◌+◌, String, concat, ◌≡◌, false, not, Option, none, some, List, [], ◌∷◌, arith, str_eq,
  eq_refl, Option-cases, inl, inr, ap, sym, ◌∙◌, if◌then◌else◌,
}
use sharpearena.Prelude.Dict.{Dict, lookup, insert, lookup-insert}
use sharpearena.Python.Json.{Json, bool, num, str, obj, Fields, fields, optional}
use sharpearena.Python.Errors.{Error, ok, err, raise_if, paper_trading_error, ok-injective}
use sharpearena.Python.Methods.{Method, lift, gets, ◌>>=◌, ◌>>◌, >>=-eq-ok}
use sharpearena.Python.Runtime.{Runtime, max}
use sharpearena.Counterfactual.Ghost.{side_name}
use sharpearena.Paper.Order.{PaperOrder}
use sharpearena.Paper.Account.{PaperAccount}
use sharpearena.Paper.Risk.{PaperRiskConfig, RiskVerdict, assess, or_zero, delta_of, price_at}
use sharpearena.Paper.Broker.{PaperBroker}

pub record LocalBook (F : Type 0) : Type 0 where
  pub sequence : ℕ
  pub by_client_order_id : Dict (Fields F)

abbrev State : Type 0 → Type 0
State F = PaperAccount F × LocalBook F

module _ {F : Type 0} ⦃r : Runtime F⦄ where
  -- `quantity * float(prices.get(symbol, 0.0))` for every position
  abbrev pub values : Dict F → Dict F → List F
  values [] prices = []
  values ((s, q) ∷ d) prices = r.times q (or_zero s prices) ∷ values d prices

  -- The account after the fill.
  unfoldable pub filled_account : PaperOrder F → F → Dict F → PaperAccount F → PaperAccount F
  filled_account o price prices a =
      let positions =
        insert o.symbol (r.plus (or_zero o.symbol a.positions) (delta_of o)) a.positions in
      let cash = r.minus a.cash (r.times (delta_of o) price) in
      let equity = r.plus cash (r.sum (values positions prices)) in
      record a {
        positions = positions;
        cash = cash;
        equity = equity;
        peak_equity = max a.peak_equity equity;
      }

  abbrev pub verdict_record : RiskVerdict F → Json F
  verdict_record v = obj (
      fields (
        ("allowed", bool v.allowed)
        ∷ ("reason", str v.reason)
        ∷ ("projected_gross_exposure", num v.projected_gross_exposure)
        ∷ ("order_notional", num v.order_notional)
        ∷ []))

  -- The response; `pad8` is the format `08d`.
  abbrev response : (ℕ → String) → PaperOrder F → F → RiskVerdict F → ℕ → Fields F
  response pad8 o price v n = fields (
      ("id", str (concat "local-paper-" (pad8 n)))
      ∷ ("status", str "filled")
      ∷ ("symbol", str o.symbol)
      ∷ ("side", str (side_name o.side))
      ∷ ("filled_qty", num o.quantity)
      ∷ ("filled_avg_price", num price)
      ∷ ("client_order_id", optional str o.client_order_id)
      ∷ ("risk", verdict_record v)
      ∷ [])

  abbrev pub known : Option String → LocalBook F → Option (Fields F)
  known none book = none
  known (some id) book = if str_eq id "" then none else lookup id book.by_client_order_id

  abbrev remember : Option String → Fields F → LocalBook F → LocalBook F
  remember none answer book = book
  remember (some id) answer book =
      if str_eq id ""
      then book
      else record book { by_client_order_id = insert id answer book.by_client_order_id }

  -- The part of `submit` behind the approval.
  unfoldable pub fill_order :
      (ℕ → String) → PaperOrder F → Dict F → RiskVerdict F → F → Method (State F) (Fields F)
  fill_order pad8 o prices v price (a, book) =
      let n = book.sequence + 1 in
      let answer = response pad8 o price v n in
      (
        ok answer,
        (
          filled_account o price prices a,
          remember o.client_order_id answer (record book { sequence = n }),
        ),
      )

  unfoldable pub submit_new :
      PaperRiskConfig F → (ℕ → String) → PaperOrder F → Dict F → Method (State F) (Fields F)
  submit_new risk pad8 o prices = do
    verdict ← gets (λ s. assess risk o s.0 prices)
    lift (
        raise_if (not verdict.allowed) paper_trading_error
          (concat "paper order refused: " verdict.reason))
    price ← lift (price_at o.symbol (lookup o.symbol prices))
    fill_order pad8 o prices verdict price

  -- `submit`
  unfoldable pub submit :
      PaperRiskConfig F → (ℕ → String) → PaperOrder F → Dict F → Method (State F) (Fields F)
  submit risk pad8 o prices s = elim (known o.client_order_id s.1) [
    | some answer ↦ (ok answer, s)
    | none ↦ submit_new risk pad8 o prices s
  ]

  -- `find_order`
  unfoldable pub find_order : String → Method (LocalBook F) (Option (Fields F))
  find_order id book = (ok (lookup id book.by_client_order_id), book)

  -- `InMemoryPaperBroker(risk)`, as the session uses it
  unfoldable pub in_memory_broker : PaperRiskConfig F → (ℕ → String) → PaperBroker F (LocalBook F)
  in_memory_broker risk pad8 = record {
    risk = risk;
    broker_id = "in-memory-paper-v1";
    submit = submit risk pad8;
    find_order = some find_order;
  }

  -- What a remembered answer looks like to the next call.
  known-remember :
      (id : String) (answer : Fields F) (book : LocalBook F)
      → str_eq id "" ≡ false
      → lookup id (remember (some id) answer book).by_client_order_id ≡ some answer
  known-remember id answer book given =
      ground (arith, lookup-insert id id answer book.by_client_order_id, eq_refl id)

  fill_order-known :
      (pad8 : ℕ → String) (o : PaperOrder F) (id : String) (prices : Dict F) (v : RiskVerdict F)
      (price : F) (a : PaperAccount F) (book : LocalBook F) (s' : State F) (answer : Fields F)
      → o.client_order_id ≡ some id
      → str_eq id "" ≡ false
      → fill_order pad8 o prices v price (a, book) ≡ (ok answer, s')
      → lookup id s'.1.by_client_order_id ≡ some answer
  unfolding fill_order
  fill_order-known pad8 o id prices v price a book s' answer named given h =
      let n = book.sequence + 1 in
      let made = response pad8 o price v n in
      let after : LocalBook F = record book { sequence = n } in
      ap (λ z. lookup id z.1.1.by_client_order_id) (sym h)
      ∙ ap (λ z. lookup id (remember z made after).by_client_order_id) named
      ∙ known-remember id made after given
      ∙ ap some (ok-injective (ap (λ z. z.0) h))

  submit_new-known :
      (risk : PaperRiskConfig F) (pad8 : ℕ → String) (o : PaperOrder F) (id : String)
      (prices : Dict F) (s s' : State F) (answer : Fields F)
      → o.client_order_id ≡ some id
      → str_eq id "" ≡ false
      → submit_new risk pad8 o prices s ≡ (ok answer, s')
      → lookup id s'.1.by_client_order_id ≡ some answer
  unfolding submit_new fill_order
  submit_new-known risk pad8 o id prices (a, book) s' answer named given h =
      let v = assess risk o a prices in
      let (u, ok1, h1) =
        >>=-eq-ok
          (lift (
            raise_if (not v.allowed) paper_trading_error (concat "paper order refused: " v.reason)))
          (λ _. lift (price_at o.symbol (lookup o.symbol prices)) >>= fill_order pad8 o prices v)
          (a, book) s' answer h in
      let (price, ok2, h2) =
        >>=-eq-ok (lift (price_at o.symbol (lookup o.symbol prices))) (fill_order pad8 o prices v)
          (a, book) s' answer h1 in
      fill_order-known pad8 o id prices v price a book s' answer named given h2

  known-named :
      (o : PaperOrder F) (id : String) (book : LocalBook F)
      → o.client_order_id ≡ some id
      → str_eq id "" ≡ false
      → known o.client_order_id book ≡ lookup id book.by_client_order_id
  known-named o id book named given = ap (λ z. known z book) named ∙ known_lookup
    where
      known_lookup : known (some id) book ≡ lookup id book.by_client_order_id
      known_lookup = ap (λ b. if b then none else lookup id book.by_client_order_id) given

  submit-known :
      (risk : PaperRiskConfig F) (pad8 : ℕ → String) (o : PaperOrder F) (prices : Dict F)
      (s : State F) (answer : Fields F)
      → known o.client_order_id s.1 ≡ some answer
      → submit risk pad8 o prices s ≡ (ok answer, s)
  unfolding submit
  submit-known risk pad8 o prices s answer e = ground arith

  submit-lookup :
      (risk : PaperRiskConfig F) (pad8 : ℕ → String) (o : PaperOrder F) (id : String)
      (prices : Dict F) (s s' : State F) (answer : Fields F)
      → o.client_order_id ≡ some id
      → str_eq id "" ≡ false
      → submit risk pad8 o prices s ≡ (ok answer, s')
      → lookup id s'.1.by_client_order_id ≡ some answer
  unfolding submit
  submit-lookup risk pad8 o id prices s s' answer named given h =
      elim (Option-cases (known o.client_order_id s.1)) [
        | inl e ↦ submit_new-known risk pad8 o id prices s s' answer named given ground arith
        | inr (old, e) ↦ ground (arith, known-named o id s.1 named given)
      ]

  -- A named order that was submitted once, and returned, is answered the same way by the next
  -- submission, at whatever prices, which changes nothing; and a query by its id finds the answer.
  pub submit_idempotent :
      (risk : PaperRiskConfig F) (pad8 : ℕ → String) (o : PaperOrder F) (id : String)
      (prices prices' : Dict F) (s s' : State F) (answer : Fields F)
      → o.client_order_id ≡ some id
      → str_eq id "" ≡ false
      → submit risk pad8 o prices s ≡ (ok answer, s')
      → (submit risk pad8 o prices' s' ≡ (ok answer, s'))
        × (find_order id s'.1 ≡ (ok (some answer), s'.1))
  unfolding find_order
  submit_idempotent risk pad8 o id prices prices' s s' answer named given h =
      let found = submit-lookup risk pad8 o id prices s s' answer named given h in
      (
        submit-known risk pad8 o prices' s' answer (known-named o id s'.1 named given ∙ found),
        ap (λ z. (ok z, s'.1)) found,
      )

  -- A submission that raises moves neither the account nor the book.
  pub submit_refused :
      (risk : PaperRiskConfig F) (pad8 : ℕ → String) (o : PaperOrder F) (prices : Dict F)
      (s s' : State F) (e : Error)
      → submit risk pad8 o prices s ≡ (err e, s')
      → s' ≡ s
  unfolding submit submit_new fill_order
  submit_refused risk pad8 o prices s s' e h = ground arith
