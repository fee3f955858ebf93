-- ===== src/TaskState.antt =====
-- The task state machine, src/hermes_a2a/task_state_machine.py. The proofs are in the children.
pub mod Lifecycle
use hermes_a2a_v.Prelude.{
  String, Bool, true, false, ◌||◌, Option, none, some, List, [], ◌∷◌, str_eq, if◌then◌else◌, Result,
  ok, raise,
}

-- The `TaskState` constants that the source names.
pub data TaskState : Type 0 where
  unspecified submitted working completed failed canceled input_required rejected auth_required :
      TaskState

-- `InvalidStateTransitionError`
pub record InvalidStateTransitionError : Type 0 where
  pub from_state : TaskState
  pub to_state : TaskState

pub state_discrete : Discrete TaskState
state_discrete = hlevel

-- `x == y` on the constants
unfoldable pub state_eq : TaskState → TaskState → Bool
state_eq unspecified unspecified = true
state_eq submitted submitted = true
state_eq working working = true
state_eq completed completed = true
state_eq failed failed = true
state_eq canceled canceled = true
state_eq input_required input_required = true
state_eq rejected rejected = true
state_eq auth_required auth_required = true
state_eq _ _ = false

-- `x in xs`
unfoldable pub is_in : TaskState → List TaskState → Bool
is_in x [] = false
is_in x (y ∷ ys) = state_eq x y || is_in x ys

-- `_VALID_TRANSITIONS.get`
unfoldable pub valid_transitions : TaskState → Option (List TaskState)
valid_transitions submitted = some (working ∷ failed ∷ canceled ∷ [])
valid_transitions working = some (completed ∷ failed ∷ canceled ∷ input_required ∷ [])
valid_transitions input_required = some (working ∷ canceled ∷ [])
valid_transitions _ = none

unfoldable pub terminal_states : List TaskState
terminal_states = completed ∷ failed ∷ canceled ∷ []

unfoldable pub cancelable_states : List TaskState
cancelable_states = submitted ∷ working ∷ input_required ∷ []

is_allowed : TaskState → Option (List TaskState) → Bool
unfolding is_in state_eq
is_allowed to none = false
is_allowed to (some allowed) = is_in to allowed

unfoldable pub validate_transition :
    TaskState → TaskState → Result InvalidStateTransitionError (Unit {0})
unfolding is_allowed valid_transitions
validate_transition from to =
    if is_allowed to (valid_transitions from)
    then ok tt
    else raise (record { from_state = from; to_state = to })

unfoldable pub can_cancel : TaskState → Bool
unfolding is_in state_eq cancelable_states
can_cancel current_state = is_in current_state cancelable_states

unfoldable pub is_terminal : TaskState → Bool
unfolding is_in state_eq terminal_states
is_terminal state = is_in state terminal_states

-- `_STATE_STR_MAP`, in the order of the source
unfoldable pub state_str_map : List (String × TaskState)
state_str_map =
    ("unspecified", unspecified)
    ∷ ("submitted", submitted)
    ∷ ("working", working)
    ∷ ("completed", completed)
    ∷ ("failed", failed)
    ∷ ("canceled", canceled)
    ∷ ("input_required", input_required)
    ∷ ("rejected", rejected)
    ∷ ("auth_required", auth_required)
    ∷ []

-- `d.get(key, default)`
unfoldable pub get_state_or : List (String × TaskState) → String → TaskState → TaskState
get_state_or [] key default = default
get_state_or ((k, v) ∷ d) key default =
    let rest = get_state_or d key default in if str_eq k key then v else rest

unfoldable pub state_from_str : String → TaskState
unfolding get_state_or state_str_map
state_from_str state_str = get_state_or state_str_map state_str unspecified
