-- ===== src/Deferred/Resolve.antt =====
-- `Outcome` and `resolve_claims` of deferred.py: claims against the outcomes that settle them. The
-- summary of the scores is left out.
pub mod Settled
pub mod Modes
pub mod Duplicates
use sharpearena.Prelude.{
  ℕ, String, Bool, true, false, not, ◌&&◌, ◌||◌, Option, none, some, List, [], ◌∷◌, map, length,
  ltb, leb, ◌==◌, get_elem?, str_eq, if◌then◌else◌,
}
use sharpearena.Prelude.Dict.{Dict, lookup, insert}
use sharpearena.Prelude.Int.{ℤ, pos, negsuc, leb_ℤ, ltb_ℤ}
use sharpearena.Python.Errors.{
  Kind, Result, ok, fail, raise_if, value_error, index_error, claim_rejected, deferred_error,
  leaked_resolution, unresolved_claim, ◌>>=◌, ◌>>◌,
}
use sharpearena.Python.Runtime.{Runtime}
use sharpearena.Forecast.{member}
use sharpearena.Deferred.{Claim, reject_if}
use sharpearena.Deferred.Score.{Math, Value, number, category, Score, score_claim}

pub record Outcome (F : Type 0) : Type 0 where
  pub claim_id : String
  pub value : Value F
  pub available_at : ℤ

module _ {F : Type 0} ⦃r : Runtime F⦄ where
  unfoldable pub check_value : Value F → Result (Unit {0})
  check_value (number x) = reject_if (not (r.is_finite x)) "outcome value must be finite"
  check_value (category s) =
      reject_if (str_eq (r.strip s) "")
        "outcome value must be a finite number or non-empty category"

  -- `Outcome.__post_init__`; a text that is empty but for space is no category.
  unfoldable pub outcome_post_init : Outcome F → Result (Outcome F)
  outcome_post_init o =
      reject_if (str_eq (r.strip o.claim_id) "") "outcome claim_id must be a non-empty string"
      >> (check_value o.value >> ok o)

-- A record of `resolved`: the claim, and what settled it.
pub record Resolution (F : Type 0) : Type 0 where
  pub claim : Claim F
  pub outcome : Value F
  pub available_at : ℤ
  pub score : Score F

-- A record of `rejected`.
pub record Rejection : Type 0 where
  pub claim_id : String
  pub reason : String

pub record Settlement (F : Type 0) : Type 0 where
  pub resolved : List (Resolution F)
  pub pending : List (Claim F)
  pub rejected : List Rejection

-- What the checks on an outcome say: the claim to settle, or the exception and its reason.
pub data Judgement (F : Type 0) : Type 0 where
  settles : Claim F → Judgement F
  refuses : Kind → String → Judgement F

module _ {F : Type 0} where
  -- `{c.claim_id: c for c in claim_list}`
  unfoldable pub add_all : Dict (Claim F) → List (Claim F) → Dict (Claim F)
  add_all d [] = d
  add_all d (c ∷ cs) = add_all (insert c.claim_id c d) cs

  abbrev pub judge_bars : Outcome F → Claim F → Judgement F
  judge_bars o c =
      if leb_ℤ o.available_at c.committed_at
      then refuses leaked_resolution "the resolving datum was available at or before the commit bar"
      else if ltb_ℤ o.available_at c.contract.resolves_at
      then refuses unresolved_claim "the resolving datum is from before the claim's horizon bar"
      else settles c

  abbrev pub judge_found : Outcome F → Option (Claim F) → Judgement F
  judge_found o none = refuses deferred_error "no such claim"
  judge_found o (some c) = judge_bars o c

  -- The checks of the loop, against the ids of the outcomes before.
  unfoldable pub judge : Dict (Claim F) → List String → Outcome F → Judgement F
  judge by_id seen o =
      if member o.claim_id seen
      then refuses deferred_error "duplicate outcome for claim"
      else judge_found o (lookup o.claim_id by_id)

-- `seen_outcomes.add(outcome.claim_id)`
abbrev pub seen_with : String → List String → List String
seen_with s seen = if member s seen then seen else s ∷ seen

abbrev pub Settled : Type 0 → Type 0
Settled F = List (Resolution F) × List Rejection

abbrev pub with_resolution : {F : Type 0} → Resolution F → Settled F → Settled F
with_resolution x (xs, ys) = (x ∷ xs, ys)

abbrev pub with_rejection : {F : Type 0} → Rejection → Settled F → Settled F
with_rejection y (xs, ys) = (xs, y ∷ ys)

module _ {F : Type 0} ⦃r : Runtime F⦄ ⦃m : Math F⦄ where
  -- One round, before what the rounds after it give.
  unfoldable pub settle : Bool → Outcome F → Judgement F → Result (Settled F) → Result (Settled F)
  settle strict o (refuses kind reason) rest =
      if strict
      then fail kind reason
      else (rest >>= λ s. ok (with_rejection (record { claim_id = o.claim_id; reason = reason }) s))
  settle strict o (settles c) rest = score_claim c o.value >>= λ score. rest >>= λ s. ok (
      with_resolution
        (record { claim = c; outcome = o.value; available_at = o.available_at; score = score }) s)

  unfoldable pub resolve_loop :
      Bool → Dict (Claim F) → List String → List (Outcome F) → Result (Settled F)
  resolve_loop strict by_id seen [] = ok ([], [])
  resolve_loop strict by_id seen (o ∷ os) =
      settle strict o (judge by_id seen o)
        (resolve_loop strict by_id (seen_with o.claim_id seen) os)

  -- The claims of the dict that nothing settled.
  unfoldable pub pending_of : List String → Dict (Claim F) → List (Claim F)
  pending_of seen [] = []
  pending_of seen ((k, c) ∷ d) =
      let rest = pending_of seen d in if member c.claim_id seen then rest else c ∷ rest

  unfoldable pub resolve_claims : Bool → List (Claim F) → List (Outcome F) → Result (Settlement F)
  resolve_claims strict claims outcomes =
      let by_id = add_all [] claims in
      reject_if (not (length by_id == length claims)) "claims contain duplicate claim_id values"
      >> (resolve_loop strict by_id [] outcomes >>= λ s. ok (record {
        resolved = s.0;
        pending = pending_of (map (λ (x : Resolution F). x.claim.claim_id) s.0) by_id;
        rejected = s.1;
      }))
