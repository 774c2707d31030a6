-- ===== src/Deferred/Desk.antt =====
-- `DeferredDesk` of deferred.py: the clock that only the harness moves, and the claims it stamps.
pub mod Held
pub mod Capacity
use sharpearena.Prelude.{
  ℕ, String, concat, Bool, true, false, not, ◌&&◌, Option, none, some, List, [], ◌∷◌, ◌++◌, any,
  length, str_eq, if◌then◌else◌,
}
use sharpearena.Prelude.Int.{ℤ, pos, negsuc, leb_ℤ, ltb_ℤ, ◌-ℤ◌}
use sharpearena.Python.Errors
use sharpearena.Python.Errors.{
  Result, ok, err, Error, Kind, fail, raise_if, value_error, key_error, forecast_contract_error,
  claim_rejected,
}
use sharpearena.Python.Methods.{Method, pure, lift, gets, modify, ◌>>=◌, ◌>>◌}
use sharpearena.Python.Runtime.{Runtime}
use sharpearena.Forecast.{ForecastContract, legacy}
use sharpearena.Deferred.{Claim, Prediction, values, reject_if, validate, is_open, claim_post_init}

pub record DeferredDesk (F : Type 0) : Type 0 where
  pub min_horizon : ℤ
  pub max_open : Option ℤ
  pub now : ℤ
  pub claims : List (Claim F)

-- `DeferredDesk.__init__`
unfoldable pub new_desk : {F : Type 0} → ℤ → Option ℤ → Result (DeferredDesk F)
new_desk min_horizon max_open =
    if ltb_ℤ min_horizon (pos 1)
    then fail value_error "min_horizon must be >= 1"
    else ok (record { min_horizon = min_horizon; max_open = max_open; now = negsuc 0; claims = [] })

unfoldable pub tick : {F : Type 0} → ℤ → Method (DeferredDesk F) (Unit {0})
tick bar = do
  now ← gets (λ d. d.now)
  lift (raise_if (ltb_ℤ bar now) value_error "the desk clock cannot move backwards")
  modify (λ d. record d { now = bar })

-- The claims of a list that are open at a bar.
unfoldable pub open_at : {F : Type 0} → ℤ → List (Claim F) → List (Claim F)
open_at when [] = []
open_at when (c ∷ cs) =
    let rest = open_at when cs in if ltb_ℤ when c.contract.resolves_at then c ∷ rest else rest

unfoldable pub open_claims : {F : Type 0} → Option ℤ → DeferredDesk F → List (Claim F)
open_claims none d = open_at d.now d.claims
open_claims (some at) d = open_at at d.claims

-- `self._max_open is not None and len(self.open_claims()) >= self._max_open`
abbrev pub reaches : Option ℤ → ℕ → Bool
reaches none n = false
reaches (some m) n = leb_ℤ m (pos n)

unfoldable pub is_full : {F : Type 0} → DeferredDesk F → Bool
is_full d = reaches d.max_open (length (open_claims none d))

-- `claim_id or default`
abbrev pub or_default : Option String → String → String
or_default none default = default
or_default (some s) default = if str_eq s "" then default else s

abbrev is_contract_error : Kind → Bool
is_contract_error key_error = true
is_contract_error value_error = true
is_contract_error forecast_contract_error = true
is_contract_error _ = false

-- `except (KeyError, ForecastContractError, ValueError)`
abbrev rejected : {A : Type 0} → Result A → Result A
rejected (ok a) = ok a
rejected (err e) = if is_contract_error e.kind then fail claim_rejected e.message else err e

module _ {F : Type 0} ⦃r : Runtime F⦄ where
  -- The checks at the head of `commit_contract`.
  unfoldable pub admits : ForecastContract F → DeferredDesk F → Result (Unit {0})
  admits contract d =
      Errors.◌>>◌ (reject_if (ltb_ℤ d.now (pos 0)) "the desk clock has not been started") (
        Errors.◌>>◌ (reject_if (not (is_open contract d.now)) "the contract is not open") (
          Errors.◌>>◌
            (reject_if (ltb_ℤ (contract.resolves_at -ℤ d.now) d.min_horizon)
              "contract resolves too soon for the desk minimum")
            (reject_if (is_full d) "the desk already holds its open claims")))

  -- The claim that is written, stamped with the desk's clock.
  unfoldable pub stamped :
      ForecastContract F → Prediction F → F → String → String → DeferredDesk F → Result (Claim F)
  stamped contract prediction confidence rationale identifier d =
      Errors.◌>>=◌ (validate contract prediction) (λ payload. claim_post_init (record {
        claim_id = identifier;
        contract = contract;
        prediction = payload;
        committed_at = d.now;
        confidence = confidence;
        rationale = rationale;
      }))

  abbrev pub name_of : Option String → DeferredDesk F → String
  name_of claim_id d = or_default claim_id (concat "claim-" (r.padded (length d.claims)))

  unfoldable pub commit_contract :
      ForecastContract F
      → Prediction F
      → F
      → String
      → Option String
      → Method (DeferredDesk F) (Claim F)
  commit_contract contract prediction confidence rationale claim_id = do
    admitted ← gets (admits contract)
    lift admitted
    identifier ← gets (name_of claim_id)
    taken ← gets (λ d. any (λ c. str_eq c.claim_id identifier) d.claims)
    lift (reject_if taken "duplicate claim_id")
    made ← gets (stamped contract prediction confidence rationale identifier)
    claim ← lift made
    modify (λ d. record d { claims = d.claims ++ (claim ∷ []) })
    pure claim

  -- The checks at the head of `commit`.
  unfoldable pub accepts : ℤ → DeferredDesk F → Result (Unit {0})
  accepts horizon d =
      Errors.◌>>◌ (reject_if (ltb_ℤ d.now (pos 0)) "the desk clock has not been started") (
        Errors.◌>>◌
          (reject_if (ltb_ℤ horizon d.min_horizon) "horizon is shorter than the desk minimum")
          (reject_if (is_full d) "the desk already holds its open claims"))

  -- The contract behind the shorthand; `tenth` is the literal 0.1.
  unfoldable pub contract_of :
      F → String → String → ℤ → Option String → DeferredDesk F → Result (ForecastContract F)
  contract_of tenth question kind horizon claim_id d = rejected (
      legacy tenth (concat (name_of claim_id d) "-contract") question kind d.now horizon [] none
        none)

  unfoldable pub commit :
      F
      → String
      → String
      → Prediction F
      → ℤ
      → F
      → String
      → Option String
      → Method (DeferredDesk F) (Claim F)
  commit tenth question kind prediction horizon confidence rationale claim_id = do
    accepted ← gets (accepts horizon)
    lift accepted
    made ← gets (contract_of tenth question kind horizon claim_id)
    contract ← lift made
    identifier ← gets (name_of claim_id)
    commit_contract contract prediction confidence rationale (some identifier)
