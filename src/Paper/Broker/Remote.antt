-- ===== src/Paper/Broker/Remote.antt =====
-- `AlpacaPaperBroker` of paper_trading.py, over the HTTP transport, whose state is the network.
use sharpearena.Prelude.{
  ℕ, String, concat, ◌≡◌, refl, true, false, not, Option, none, some, List, [], ◌∷◌, ◌++◌, arith,
  str_eq, ltb, leb, ◌&&◌, ◌==◌, if◌then◌else◌, inr, ◌⊎◌, ◌≤◌, ◌<◌,
}
use sharpearena.Prelude.Dict.{Dict, get_or}
use sharpearena.Python.Json.{Json, null, str, obj, Fields, fields, optional, get}
use sharpearena.Python.Errors.{
  Error, Result, ok, err, fail, raise_if, value_error, paper_trading_error, submission_unknown,
}
use sharpearena.Python.Methods.{Method, lift, gets, ◌>>=◌, ◌>>◌}
use sharpearena.Python.Runtime.{Runtime}
use sharpearena.Counterfactual.Ghost.{side_name}
use sharpearena.Paper.Order.{PaperOrder}
use sharpearena.Paper.Account.{PaperAccount}
use sharpearena.Paper.Risk.{PaperRiskConfig, RiskVerdict, assess}
use sharpearena.Paper.Broker.{PaperBroker}
use sharpearena.Paper.Broker.Local.{verdict_record}

-- What `transport.request` does: it returns a value, or raises `HTTPError` with a code, or one of
-- `URLError`, `TimeoutError` and `OSError`, of which the name is kept, or the `ValueError` of a body
-- that is no JSON text, which no caller catches.
pub data Answer (F : Type 0) : Type 0 where
  body : Json F → Answer F
  http_error : ℕ → Answer F
  unreachable : String → Answer F
  unreadable : String → Answer F

-- The transport and the text functions of the standard library: `format(x, ".12g")` and the quoting
-- of a URL's query.
pub record Transport (F N : Type 0) : Type 0 where
  pub request : String → String → Option (Fields F) → N → Answer F × N
  pub format_12g : F → String
  pub quoted : String → String

-- The broker answered, and the answer was not a failure of its own.
abbrev pub IsSpoken : {F : Type 0} → Answer F → Type 0
IsSpoken (body j) = Unit
IsSpoken (http_error code) = (400 ≤ code) × (code < 500)
IsSpoken (unreachable name) = ⊥
IsSpoken (unreadable why) = ⊥

abbrev or_null : {F : Type 0} → String → Fields F → Json F
or_null k response = get_or null (get k response)

abbrev named : {F : Type 0} → Option String → List (String × Json F)
named none = []
named (some id) = if str_eq id "" then [] else ("client_order_id", str id) ∷ []

module _ {F N : Type 0} where
  -- `transport.request`, its exceptions as values
  abbrev request_on :
      Transport F N → String → String → Option (Fields F) → Method (PaperAccount F × N) (Answer F)
  request_on t verb url payload (a, n) =
      let (answer, n') = t.request verb url payload n in (ok answer, (a, n'))

  -- `payload`
  unfoldable pub payload : Transport F N → PaperOrder F → Fields F
  payload t o = fields (
      (("symbol", str o.symbol)
        ∷ ("qty", str (t.format_12g o.quantity))
        ∷ ("side", str (side_name o.side))
        ∷ ("type", str o.order_type)
        ∷ ("time_in_force", str o.time_in_force)
        ∷ [])
      ++ named o.client_order_id)

module _ {F : Type 0} ⦃r : Runtime F⦄ where
  -- The handlers and the checks of `find_order`.
  unfoldable pub query_answer : Answer F → Result (Option (Fields F))
  query_answer (body null) = ok none
  query_answer (body (obj response)) = ok (some response)
  query_answer (body _) = fail submission_unknown "order query returned a non-object response"
  query_answer (http_error code) =
      if code == 404
      then ok none
      else fail submission_unknown (concat "order query failed with HTTP " (r.show code))
  query_answer (unreachable name) = fail submission_unknown (concat "order query failed: " name)
  query_answer (unreadable why) = fail value_error why

  -- Of the answers to a query, 404 and null alone mean an absence.
  query_absent :
      (answer : Answer F)
      → query_answer answer ≡ ok none
      → (answer ≡ http_error 404) ⊎ (answer ≡ body null)
  unfolding query_answer
  query_absent (body null) h = inr refl
  query_absent (body (obj response)) h = cc
  query_absent (body _) h = cc
  query_absent (http_error code) h = ground arith
  query_absent (unreachable name) h = cc
  query_absent (unreadable why) h = cc

module _ {F N : Type 0} ⦃r : Runtime F⦄ where
  -- What `submit` returns.
  unfoldable pub accepted : Transport F N → PaperOrder F → RiskVerdict F → Fields F → Fields F
  accepted t o v response = fields (
      ("id", or_null "id" response)
      ∷ ("status", or_null "status" response)
      ∷ ("symbol", get_or (str o.symbol) (get "symbol" response))
      ∷ ("side", get_or (str (side_name o.side)) (get "side" response))
      ∷ ("submitted_qty", get_or (str (t.format_12g o.quantity)) (get "qty" response))
      ∷ ("filled_qty", or_null "filled_qty" response)
      ∷ (
        "client_order_id",
        get_or (optional str o.client_order_id) (get "client_order_id" response),
      )
      ∷ ("risk", verdict_record v)
      ∷ [])

  -- The two handlers and the check of `submit`.
  unfoldable pub submit_answer :
      Transport F N → PaperOrder F → RiskVerdict F → Answer F → Result (Fields F)
  submit_answer t o v (body (obj response)) = ok (accepted t o v response)
  submit_answer t o v (body _) =
      fail paper_trading_error "Alpaca paper order returned a non-object response"
  submit_answer t o v (http_error code) =
      if leb 400 code && ltb code 500
      then fail paper_trading_error
          (concat "the paper broker rejected the order with HTTP " (r.show code))
      else fail submission_unknown (concat "no response from the paper broker: HTTP " (r.show code))
  submit_answer t o v (unreachable name) =
      fail submission_unknown (concat "no response from the paper broker: " name)
  submit_answer t o v (unreadable why) = fail value_error why

  -- `submit`
  unfoldable pub submit :
      PaperRiskConfig F
      → Transport F N
      → PaperOrder F
      → Dict F
      → Method (PaperAccount F × N) (Fields F)
  submit risk t o prices = do
    verdict ← gets (λ s. assess risk o s.0 prices)
    lift (
        raise_if (not verdict.allowed) paper_trading_error
          (concat "paper order refused: " verdict.reason))
    answer ← request_on t "POST" "https://paper-api.alpaca.markets/v2/orders" (some (payload t o))
    lift (submit_answer t o verdict answer)

  abbrev pub order_url : Transport F N → String → String
  order_url t id =
      concat "https://paper-api.alpaca.markets/v2/orders:by_client_order_id?client_order_id="
        (t.quoted id)

  abbrev answered : Answer F × N → Result (Option (Fields F)) × N
  answered (answer, n) = (query_answer answer, n)

  -- `find_order`
  unfoldable pub find_order : Transport F N → String → Method N (Option (Fields F))
  find_order t id n =
      if str_eq id ""
      then (fail value_error "a reconciliation query requires a client order id", n)
      else answered (t.request "GET" (order_url t id) none n)

  -- `AlpacaPaperBroker(...)`, as the session uses it
  unfoldable pub alpaca_broker : PaperRiskConfig F → Transport F N → PaperBroker F N
  alpaca_broker risk t = record {
    risk = risk;
    broker_id = "alpaca-paper-v2";
    submit = submit risk t;
    find_order = some (find_order t);
  }

  -- An order that the risk guard refuses is not sent: the network and the account stay.
  pub submit_guarded :
      (risk : PaperRiskConfig F) (t : Transport F N) (o : PaperOrder F) (prices : Dict F)
      (a : PaperAccount F) (n : N)
      → (assess risk o a prices).allowed ≡ false
      → (submit risk t o prices (a, n)).1 ≡ (a, n)
  unfolding submit
  submit_guarded risk t o prices a n h = ground arith

  -- An order is reported absent only on the answers 404 and null to its own query.
  pub find_order_absent :
      (t : Transport F N) (id : String) (n n' : N)
      → find_order t id n ≡ (ok none, n')
      → ((t.request "GET" (order_url t id) none n).0 ≡ http_error 404)
        ⊎ ((t.request "GET" (order_url t id) none n).0 ≡ body null)
  unfolding find_order
  find_order_absent t id n n' h =
      query_absent (t.request "GET" (order_url t id) none n).0 ground arith

  abbrev pub sent : Transport F N → PaperOrder F → N → Answer F
  sent t o n =
      (t.request "POST" "https://paper-api.alpaca.markets/v2/orders" (some (payload t o)) n).0

  answer-IsSpoken :
      (t : Transport F N) (o : PaperOrder F) (v : RiskVerdict F) (answer : Answer F) (e : Error)
      → submit_answer t o v answer ≡ err e
      → e.kind ≡ paper_trading_error
      → IsSpoken answer
  unfolding submit_answer
  answer-IsSpoken t o v (body j) e h k = tt
  answer-IsSpoken t o v (http_error code) e h k = ground arith
  answer-IsSpoken t o v (unreachable name) e h k = ground arith
  answer-IsSpoken t o v (unreadable why) e h k = ground arith

  -- A permitted order that fails with PaperTradingError itself was answered by the broker: with a
  -- value, or with an HTTP status from 400 to 499.
  pub submit_settled :
      (risk : PaperRiskConfig F) (t : Transport F N) (o : PaperOrder F) (prices : Dict F)
      (a : PaperAccount F) (n : N) (e : Error)
      → (assess risk o a prices).allowed ≡ true
      → (submit risk t o prices (a, n)).0 ≡ err e
      → e.kind ≡ paper_trading_error
      → IsSpoken (sent t o n)
  unfolding submit
  submit_settled risk t o prices a n e h f k =
      answer-IsSpoken t o (assess risk o a prices) (sent t o n) e ground arith k
