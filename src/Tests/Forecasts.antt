-- ===== src/Tests/Forecasts.antt =====
-- The theorems on forecast contracts, the desk and the resolution at concrete inputs.
use mathlib.Core.List.{Memᴰ}
use sharpearena.Prelude.{
  ℕ, ◌≡◌, ◌↔◌, refl, inl, inr, true, false, Bool-cases, none, some, List, [], ◌∷◌, str_eq, eq_iff,
  length, All,
}
use sharpearena.Prelude.Dict.{lookup, insert}
use sharpearena.Prelude.Int.{pos, negsuc}
use sharpearena.Python.Errors.{ok, err}
use sharpearena.Python.Json.{num}
use sharpearena.Forecast.{
  ForecastContract, schema, member, unique, nonempty, nonempties, stripped, check_rule,
  clock_broken, finite_number, check_clock, checked_categories, check_alpha, post_init, legacy,
}
use sharpearena.Forecast.Again.{IsIdempotent}
use sharpearena.Forecast.Dicts.{to_dict, from_dict}
use sharpearena.Forecast.Dicts.Roundtrip.{KeepsWords, words, from_dict-to_dict}
use sharpearena.Deferred.{Claim, scalar, check_payload, validate, claim_post_init}
use sharpearena.Deferred.Desk.{
  DeferredDesk, new_desk, tick, open_at, open_claims, is_full, admits, stamped, commit_contract,
  accepts, contract_of, commit,
}
use sharpearena.Deferred.Desk.Held.{IsDesk}
use sharpearena.Deferred.Desk.Capacity.{
  Call, ticks, commits, HasRoom, perform, run, run-IsDesk, run-HasRoom,
}
use sharpearena.Deferred.Score.{Math, number, numeric_outcome, score_claim}
use sharpearena.Deferred.Series.{
  resolving_value, series_outcome, outcomes_from_series, Answers, outcomes_from_series-Answers,
}
use sharpearena.Deferred.Resolve.{
  check_value, outcome_post_init, Outcome, Settlement, add_all, judge, settle, resolve_loop,
  pending_of, resolve_claims,
}
use sharpearena.Deferred.Resolve.Settled.{RestsOn, resolve_claims-RestsOn}
use sharpearena.Deferred.Resolve.Modes.{resolve_claims_modes}
use sharpearena.Deferred.Resolve.Duplicates.{duplicates, commit_contract_ambiguous}
use sharpearena.Tests.Sample.{whole}

instance abbrev plain : Math ℕ
plain = record {
  exp = λ x. x;
  log = λ x. x;
  sqrt = λ x. x;
  erf = λ x. x;
  copysign = λ x y. x;
  pi = 3;
  half = 0;
  two = 2;
}

-- How high a point is three bars later.
abbrev question : ForecastContract ℕ
question = record {
  contract_id = "c";
  question = "how high";
  instrument = "BTC";
  target = "close";
  kind = "point";
  opens_at = pos 0;
  deadline = pos 2;
  resolves_at = pos 5;
  observation_source = "series";
  open_definition = "open";
  close_definition = "close";
  unit = "usd";
  scoring_rule = "point_errors";
  neutral_threshold = 0;
  boundary_ownership = "neutral";
  missing_data_policy = "cancel";
  fallback_policy = "cancel";
  categories = [];
  interval_alpha = none;
  schema_version = schema;
}

whole-KeepsWords : KeepsWords whole.strip
whole-KeepsWords s m = elim (Bool-cases (str_eq s " a")) [
  | inl e ↦ absurd (no_word (rw ((eq_iff s " a").0 e) at m))
  | inr e ↦ rw e refl
]
  where
    no_word : member " a" words ≡ true → ⊥
    no_word h = cc

question_made : post_init question ≡ ok question
unfolding post_init stripped nonempty check_rule lookup check_clock clock_broken finite_number
    checked_categories nonempties unique check_alpha
question_made = refl

whole-IsIdempotent : IsIdempotent whole.strip
whole-IsIdempotent s = elim (Bool-cases (str_eq s " a")) [
  | inl e ↦ rw e refl
  | inr e ↦ rw (e, e) refl
]

-- The unit is given with a space before it, which the constructor strips.
abbrev spaced : ForecastContract ℕ
spaced = record question { unit = " a" }

abbrev spaced_made : ForecastContract ℕ
spaced_made = record question { unit = "a" }

spaced_constructed : post_init spaced ≡ ok spaced_made
unfolding post_init stripped nonempty check_rule lookup check_clock clock_broken finite_number
    checked_categories nonempties unique check_alpha
spaced_constructed = refl

from_dict-to_dict_example : from_dict (to_dict spaced_made) ≡ ok spaced_made
from_dict-to_dict_example =
    from_dict-to_dict spaced spaced_made whole-KeepsWords whole-IsIdempotent spaced_constructed

abbrev desk : DeferredDesk ℕ
desk = record { min_horizon = pos 1; max_open = some (pos 2); now = negsuc 0; claims = [] }

desk_made : new_desk (pos 1) (some (pos 2)) ≡ ok desk
unfolding new_desk
desk_made = refl

abbrev one_claim : List (Call ℕ)
one_claim =
    ticks (pos 0) ∷ commits "q" "point" (scalar 7) (pos 3) 1 "" (some "a") ∷ ticks (pos 1) ∷ []

one_held : length (run 0 one_claim desk).claims ≡ 1
unfolding run perform tick commit accepts contract_of legacy post_init stripped nonempty check_rule
    lookup check_clock clock_broken finite_number checked_categories nonempties unique check_alpha
    commit_contract admits is_full open_claims open_at stamped validate check_payload
    claim_post_init
one_held = refl

run-IsDesk_example : IsDesk (run 0 one_claim desk)
run-IsDesk_example = run-IsDesk 0 (pos 1) (some (pos 2)) desk one_claim desk_made

run-HasRoom_example : HasRoom (run 0 one_claim desk)
run-HasRoom_example = run-HasRoom 0 (pos 1) (some (pos 2)) desk one_claim desk_made

abbrev claim_a : Claim ℕ
claim_a = record {
  claim_id = "a";
  contract = question;
  prediction = 7 ∷ [];
  committed_at = pos 1;
  confidence = 1;
  rationale = "";
}

abbrev outcome_a : Outcome ℕ
outcome_a = record { claim_id = "a"; value = number 9; available_at = pos 5 }

abbrev settled : Settlement ℕ
settled = record {
  resolved =
      record {
        claim = claim_a;
        outcome = number 9;
        available_at = pos 5;
        score = ("error", num 2) ∷ ("abs_error", num 2) ∷ ("squared_error", num 4) ∷ [];
      }
      ∷ [];
  pending = [];
  rejected = [];
}

settled_strictly : resolve_claims true (claim_a ∷ []) (outcome_a ∷ []) ≡ ok settled
unfolding resolve_claims add_all insert resolve_loop judge lookup settle score_claim numeric_outcome
    pending_of
settled_strictly = refl

resolve_claims-RestsOn_example :
    All
      (RestsOn (λ o c. Memᴰ c (claim_a ∷ []) × (c.claim_id ≡ o.claim_id)) (outcome_a ∷ []))
      settled.resolved
resolve_claims-RestsOn_example =
    resolve_claims-RestsOn true (claim_a ∷ []) (outcome_a ∷ []) settled settled_strictly

resolve_claims_modes_example :
    (resolve_claims true (claim_a ∷ []) (outcome_a ∷ []) ≡ ok settled) ↔ (
      (resolve_claims false (claim_a ∷ []) (outcome_a ∷ []) ≡ ok settled) × (settled.rejected ≡ []))
resolve_claims_modes_example = resolve_claims_modes (claim_a ∷ []) (outcome_a ∷ []) settled

-- The desk holds "a" and is offered " a".
abbrev holding_a : DeferredDesk ℕ
holding_a = record desk { now = pos 1; claims = claim_a ∷ [] }

abbrev holding_two : DeferredDesk ℕ
holding_two = record holding_a { claims = claim_a ∷ claim_a ∷ [] }

taken_twice :
    commit_contract question (scalar 7) 1 "" (some " a") holding_a ≡ (ok claim_a, holding_two)
unfolding commit_contract admits is_full open_claims open_at stamped validate check_payload
    claim_post_init
taken_twice = refl

commit_contract_ambiguous_example :
    resolve_claims true holding_two.claims (outcome_a ∷ []) ≡ err duplicates
commit_contract_ambiguous_example =
    commit_contract_ambiguous question (scalar 7) 1 "" (some " a") holding_a holding_two claim_a
      claim_a true (outcome_a ∷ []) taken_twice (Memᴰ.head refl) refl

from_series :
    outcomes_from_series (claim_a ∷ []) (0 ∷ 1 ∷ 2 ∷ 3 ∷ 4 ∷ 9 ∷ []) "level" ≡ ok (outcome_a ∷ [])
unfolding outcomes_from_series series_outcome resolving_value outcome_post_init check_value
from_series = refl

outcomes_from_series-Answers_example : All (Answers (claim_a ∷ [])) (outcome_a ∷ [])
outcomes_from_series-Answers_example =
    outcomes_from_series-Answers (claim_a ∷ []) (0 ∷ 1 ∷ 2 ∷ 3 ∷ 4 ∷ 9 ∷ []) "level"
      (outcome_a ∷ []) ((refl, refl), tt) from_series
