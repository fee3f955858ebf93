-- ===== src/PeerManager/Breaker.antt =====
-- The circuit breaker of each peer against a specification that knows only the failures in a row
-- and the time of the last one.
use hermes_a2a_v.Prelude.{
  ℕ, ◌+◌, ◌≡◌, String, Bool, false, ◌&&◌, Option, none, some, List, [], ◌∷◌, arith, str_eq, eq_iff,
  leb, ltb, if◌then◌else◌,
}
use hermes_a2a_v.Dict.{get, get-put, get-pop, string_eq}
use hermes_a2a_v.PeerManager.{
  CbEntry, PeerManager, cooldown, failure_threshold, count_failure, entry_or_new, cb_record_success,
  cb_record_failure, is_peer_down,
}

-- What happens to the breakers: a send that worked, one that failed, or a look at the breaker.
pub data Event : Type 0 where
  sent : String → Event
  failed : String → ℕ → Event
  checked : String → ℕ → Event

unfoldable pub step : Event → PeerManager → PeerManager
step (sent name) pm = cb_record_success name pm
step (failed name now) pm = cb_record_failure name now pm
step (checked name now) pm = (is_peer_down name now pm).0

unfoldable pub run : List Event → PeerManager → PeerManager
run [] pm = pm
run (e ∷ es) pm = run es (step e pm)

-- The specification of one breaker: `closed`, or the failures in a row and the time of the last.
pub data Spec : Type 0 where
  closed : Spec
  failing : ℕ → ℕ → Spec

unfoldable pub spec_down : ℕ → Spec → Bool
spec_down now closed = false
spec_down now (failing n last) = leb failure_threshold n && ltb now (last + cooldown)

spec_fail : ℕ → Spec → Spec
spec_fail now closed = failing 1 now
spec_fail now (failing n last) = failing (n + 1) now

spec_check : ℕ → Spec → Spec
spec_check now closed = closed
spec_check now (failing n last) =
    if leb failure_threshold n && leb (last + cooldown) now then closed else failing n last

unfoldable pub spec_step : String → Event → Spec → Spec
unfolding spec_fail spec_check
spec_step j (sent name) s = if str_eq name j then closed else s
spec_step j (failed name now) s = if str_eq name j then spec_fail now s else s
spec_step j (checked name now) s = if str_eq name j then spec_check now s else s

unfoldable pub spec_run : String → List Event → Spec → Spec
spec_run j [] s = s
spec_run j (e ∷ es) s = spec_run j es (spec_step j e s)

-- The entry of `_cb_state` that stands for a state of the specification.
unfoldable pub entry_of : Spec → Option CbEntry
entry_of closed = none
entry_of (failing n last) = some (record {
  failures = n;
  down_until = if leb failure_threshold n then some (last + cooldown) else none;
})

module _ (j : String) where
  step-refines :
      (e : Event) (pm : PeerManager) (s : Spec)
      → get j pm.cb_state ≡ entry_of s
      → get j (step e pm).cb_state ≡ entry_of (spec_step j e s)
  unfolding step spec_step entry_of cb_record_success cb_record_failure is_peer_down
  step-refines (sent name) pm s h = ground (arith, get-pop name j pm.cb_state, eq_iff name j)
  step-refines (failed name now) pm closed h = ground (
    arith,
    eq_iff name j,
    get-put name j (count_failure now (entry_or_new (get name pm.cb_state))) pm.cb_state,
  )
  step-refines (failed name now) pm (failing n last) h = ground (
    arith,
    eq_iff name j,
    get-put name j (count_failure now (entry_or_new (get name pm.cb_state))) pm.cb_state,
  )
  step-refines (checked name now) pm closed h =
      ground (arith, get-pop name j pm.cb_state, eq_iff name j)
  step-refines (checked name now) pm (failing n last) h =
      ground (arith, get-pop name j pm.cb_state, eq_iff name j)

  -- The answer of the test is that of the specification.
  down-refines :
      (now : ℕ) (pm : PeerManager) (s : Spec)
      → get j pm.cb_state ≡ entry_of s
      → (is_peer_down j now pm).1 ≡ spec_down now s
  unfolding entry_of is_peer_down spec_down
  down-refines now pm closed h = ground arith
  down-refines now pm (failing n last) h = ground arith

  run-refines :
      (es : List Event) (pm : PeerManager) (s : Spec)
      → get j pm.cb_state ≡ entry_of s
      → get j (run es pm).cb_state ≡ entry_of (spec_run j es s)
  unfolding run spec_run
  run-refines [] pm s h = h
  run-refines (e ∷ es) pm s h = run-refines es (step e pm) (spec_step j e s) (step-refines e pm s h)

-- After any events on any peers, from a manager that holds no entry for peer `j`, the peer is
-- reported down at a time exactly when its specification says so: it has failed at least three times
-- since it last worked or was reset, and sixty seconds have not passed since the last failure.
pub breaker_refines :
    (j : String) (es : List Event) (pm : PeerManager) (now : ℕ)
    → get j pm.cb_state ≡ none
    → (is_peer_down j now (run es pm)).1 ≡ spec_down now (spec_run j es closed)
breaker_refines j es pm now h =
    down-refines j now (run es pm) (spec_run j es closed)
      (run-refines j es pm closed (unfold entry_of in h))
