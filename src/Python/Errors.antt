-- ===== src/Python/Errors.antt =====
-- Exceptions. A function that may raise and changes nothing returns a `Result`.
use sharpearena.Prelude.{◌≡◌, refl, ◌⊎◌, inl, inr, Bool, true, false, String}

-- The exception classes that the modelled code raises or catches.
pub data Kind : Type 0 where
  value_error type_error key_error : Kind
  -- `CounterfactualError(ValueError)`
  counterfactual_error : Kind
  -- `PaperTradingError(RuntimeError)` and its two subclasses
  paper_trading_error submission_unknown lifecycle_error : Kind
  os_error index_error assertion_error runtime_error : Kind
  -- `ForecastContractError(ValueError)`
  forecast_contract_error : Kind
  -- `DeferredError(RuntimeError)` and its three subclasses
  deferred_error leaked_resolution unresolved_claim claim_rejected : Kind

pub record Error : Type 0 where
  pub kind : Kind
  pub message : String

pub data Result {ℓ} (A : Type ℓ) : Type ℓ where
  ok : (value : A) → Result A
  err : (raised : Error) → Result A

abbrev pub fail {ℓ} : {A : Type ℓ} → Kind → String → Result A
fail k m = err (record { kind = k; message = m })

-- `if test: raise kind(message)`
abbrev pub raise_if : Bool → Kind → String → Result (Unit {0})
raise_if true k m = fail k m
raise_if false k m = ok tt

pub ok-injective {ℓ} : {A : Type ℓ} {x y : A} → ok x ≡ ok y → x ≡ y
ok-injective h = cc

module _ {ℓ κ} {A : Type ℓ} {B : Type κ} where
  infixl 5 ◌>>=◌ ◌>>◌
  -- One statement and what follows it: a raise ends both.
  abbrev pub ◌>>=◌ : Result A → (A → Result B) → Result B
  ◌>>=◌ (err raised) next = err raised
  ◌>>=◌ (ok value) next = next value

  abbrev pub ◌>>◌ : Result A → Result B → Result B
  first >> second = first >>= λ _. second

  -- What returned has returned in both parts.
  pub >>=-eq-ok :
      (first : Result A) (next : A → Result B) {y : B}
      → (first >>= next) ≡ ok y
      → (x : A) × (first ≡ ok x) × (next x ≡ ok y)
  >>=-eq-ok (err raised) next h = cc
  >>=-eq-ok (ok value) next h = (value, refl, h)

-- What returned after a check has passed it.
pub checked {ℓ} :
    {B : Type ℓ} (b : Bool) (k : Kind) (m : String) (next : Result B) {y : B}
    → (raise_if b k m >> next) ≡ ok y
    → (b ≡ false) × (next ≡ ok y)
checked true k m next h = cc
checked false k m next h = (refl, h)

pub unraised : (b : Bool) (k : Kind) (m : String) → raise_if b k m ≡ ok tt → b ≡ false
unraised true k m h = cc
unraised false k m h = refl

pub Result-cases {ℓ} :
    {A : Type ℓ} (c : Result A) → ((e : Error) × (c ≡ err e)) ⊎ ((a : A) × (c ≡ ok a))
Result-cases (ok a) = inr (a, refl)
Result-cases (err e) = inl (e, refl)
