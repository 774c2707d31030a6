-- ===== src/Paper/Lifecycle/States.antt =====
-- The lifecycle states of paper_trading.py and the table `_ALLOWED_TRANSITIONS`.
use mathlib.Core.Bool.{false≢true}
use sharpearena.Prelude.{
  ◌≢◌, sym, ◌∙◌, eq_refl, String, ◌≡◌, refl, ap, eq_iff, Bool, true, false, Option, none, some,
  List, [], ◌∷◌, any, str_eq, if◌then◌else◌,
}

pub data State : Type 0 where
  prepared submitted acknowledged partially_filled filled rejected : State
  submission_unknown reconciled_accepted reconciled_absent : State

unfoldable pub state_name : State → String
state_name prepared = "prepared"
state_name submitted = "submitted"
state_name acknowledged = "acknowledged"
state_name partially_filled = "partially_filled"
state_name filled = "filled"
state_name rejected = "rejected"
state_name submission_unknown = "submission_unknown"
state_name reconciled_accepted = "reconciled_accepted"
state_name reconciled_absent = "reconciled_absent"

-- LIFECYCLE_STATES
abbrev pub lifecycle_states : List State
lifecycle_states =
    prepared ∷ submitted ∷ acknowledged ∷ partially_filled ∷ filled ∷ rejected ∷ submission_unknown
    ∷ reconciled_accepted ∷ reconciled_absent ∷ []

-- The states are texts in the source, and are compared as such.
unfoldable pub same_state : State → State → Bool
unfolding state_name
same_state a b = str_eq (state_name a) (state_name b)

abbrev find_state : String → List State → Option State
find_state name [] = none
find_state name (s ∷ ss) = if str_eq (state_name s) name then some s else find_state name ss

-- The key of `_ALLOWED_TRANSITIONS` that is this text, if there is one.
unfoldable pub state_of_name : String → Option State
state_of_name name = find_state name lifecycle_states

-- `_ALLOWED_TRANSITIONS`
unfoldable pub allowed_transitions : State → List State
allowed_transitions prepared = submitted ∷ []
allowed_transitions submitted = acknowledged ∷ submission_unknown ∷ rejected ∷ []
allowed_transitions acknowledged = partially_filled ∷ filled ∷ rejected ∷ []
allowed_transitions partially_filled = partially_filled ∷ filled ∷ rejected ∷ []
allowed_transitions submission_unknown = reconciled_accepted ∷ reconciled_absent ∷ []
allowed_transitions reconciled_accepted = acknowledged ∷ partially_filled ∷ filled ∷ rejected ∷ []
allowed_transitions reconciled_absent = []
allowed_transitions filled = []
allowed_transitions rejected = []

-- `to_state in _ALLOWED_TRANSITIONS[state]`
unfoldable pub is_allowed : State → State → Bool
unfolding allowed_transitions
is_allowed from to = any (same_state to) (allowed_transitions from)

-- `state in _TERMINAL_STATES`
unfoldable pub is_final : State → Bool
is_final s = any (same_state s) (filled ∷ rejected ∷ [])

-- `state in {STATE_SUBMITTED, STATE_SUBMISSION_UNKNOWN}`
unfoldable pub is_awaiting : State → Bool
is_awaiting s = any (same_state s) (submitted ∷ submission_unknown ∷ [])

-- A name read back is the state that it names.
pub state_of_name-state_name : (s : State) → state_of_name (state_name s) ≡ some s
unfolding state_of_name state_name
state_of_name-state_name prepared = refl
state_of_name-state_name _ = refl

-- States are told apart by their names.
pub same_state-eq : (a b : State) → same_state a b ≡ true → a ≡ b
unfolding same_state
same_state-eq a b h = cc (
  state_of_name-state_name a,
  state_of_name-state_name b,
  ap state_of_name ((eq_iff (state_name a) (state_name b)).0 h),
)

pub same_state_ne : (a b : State) → same_state a b ≡ false → a ≢ b
unfolding same_state
same_state_ne a b h e = absurd (false≢true (sym (rw e at h) ∙ eq_refl (state_name b)))
