-- ===== src/TaskState/Lifecycle.antt =====
-- What the transition table allows over whole runs of a task.
use hermes_a2a_v.Prelude.{
  ◌≡◌, refl, ◌≢◌, ◌↔◌, inl, inr, true, String, List, [], ◌∷◌, arith, ok, Bool-cases, sym, subst,
  false≢true, ◌∙◌, eq_iff,
}
use hermes_a2a_v.TaskState.{
  TaskState, unspecified, submitted, working, completed, failed, canceled, input_required, rejected,
  auth_required, validate_transition, can_cancel, is_terminal, state_from_str, is_in, state_eq,
}

-- A run of validated transitions from one state to another, with the states it passes.
pub data Run : TaskState → List TaskState → TaskState → Type 0 where
  stay : {s : TaskState} → Run s [] s
  move :
      {s t u : TaskState} {passed : List TaskState}
      → validate_transition s t ≡ ok tt
      → Run t passed u
      → Run s (t ∷ passed) u

no_exit : (s t : TaskState) → is_terminal s ≡ true → validate_transition s t ≢ ok tt
unfolding is_terminal validate_transition
no_exit s t h e = ground arith

-- No validated transition leaves a terminal state: a run that starts there is empty.
pub terminal_absorbs :
    {s u : TaskState} {passed : List TaskState}
    → is_terminal s ≡ true
    → Run s passed u
    → (passed ≡ []) × (u ≡ s)
terminal_absorbs h stay = (refl, refl)
terminal_absorbs {s} h (move {t = t} e r) = absurd (no_exit s t h e)

-- `can_cancel` accepts a state exactly when the table has a transition from it to canceled.
pub can_cancel_iff :
    (s : TaskState) → (can_cancel s ≡ true) ↔ (validate_transition s canceled ≡ ok tt)
unfolding can_cancel validate_transition
can_cancel_iff s = ground arith

by_name : (s t : TaskState) → (state_eq s t ≡ true) ↔ (s ≡ t)
unfolding state_eq
by_name s t = ground arith

enters_completed : (s : TaskState) → validate_transition s completed ≡ ok tt → s ≡ working
unfolding validate_transition
enters_completed s h = ground arith

-- A validated run from a state other than working and completed that ends in completed has passed
-- through working.
pub completed_via_working :
    {s u : TaskState} {passed : List TaskState}
    → s ≢ working
    → s ≢ completed
    → u ≡ completed
    → Run s passed u
    → is_in working passed ≡ true
unfolding is_in
completed_via_working w c e stay = absurd (c e)
completed_via_working {s} w c e (move {t = t} step r) = elim (Bool-cases (state_eq working t)) [
  | inl at_working ↦ rw at_working refl
  | inr elsewhere ↦ rw elsewhere (
      completed_via_working (λ p. false≢true (sym elsewhere ∙ (by_name working t).1 (sym p)))
        (λ p. w (enters_completed s (subst (λ x. validate_transition s x ≡ ok tt) p step))) e r)
]

-- The text under which `_STATE_STR_MAP` holds a state.
unfoldable pub state_name : TaskState → String
state_name unspecified = "unspecified"
state_name submitted = "submitted"
state_name working = "working"
state_name completed = "completed"
state_name failed = "failed"
state_name canceled = "canceled"
state_name input_required = "input_required"
state_name rejected = "rejected"
state_name auth_required = "auth_required"

-- Reading back the name of any state gives that state.
pub state_from_str-name : (s : TaskState) → state_from_str (state_name s) ≡ s
unfolding state_from_str state_name
state_from_str-name unspecified = refl
state_from_str-name submitted = refl
state_from_str-name working = refl
state_from_str-name completed = refl
state_from_str-name failed = refl
state_from_str-name canceled = refl
state_from_str-name input_required = refl
state_from_str-name rejected = refl
state_from_str-name auth_required = refl

-- A text that is the name of no state reads as unspecified.
pub state_from_str-unknown :
    (t : String) → ((s : TaskState) → t ≢ state_name s) → state_from_str t ≡ unspecified
unfolding state_from_str state_name
state_from_str-unknown t h = ground (
  arith,
  h unspecified,
  h submitted,
  h working,
  h completed,
  h failed,
  h canceled,
  h input_required,
  h rejected,
  h auth_required,
  eq_iff "unspecified" t,
  eq_iff "submitted" t,
  eq_iff "working" t,
  eq_iff "completed" t,
  eq_iff "failed" t,
  eq_iff "canceled" t,
  eq_iff "input_required" t,
  eq_iff "rejected" t,
  eq_iff "auth_required" t,
)
