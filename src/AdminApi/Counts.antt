-- ===== src/AdminApi/Counts.antt =====
-- The counts of GET /admin/metrics, and the number of events of its stream.
use hermes_a2a_v.Prelude.{
  ℕ, ◌+◌, ◌-◌, ◌≡◌, refl, ◌∙◌, String, Bool, Option, none, some, List, [], ◌∷◌, str_eq, eq_iff,
  if◌then◌else◌, arith, length, count_p, min,
}
use Prim.Native.Nat.{max}
use hermes_a2a_v.A2aHandler.{count_or_zero}
use hermes_a2a_v.Prelude.Int.{ℤ, pos, negsuc}
use hermes_a2a_v.Dict.{Dict, get, put, string_eq, get-put}
use hermes_a2a_v.TaskStore.{TaskDict}
use hermes_a2a_v.AdminApi.Tasks.{status_text}
use hermes_a2a_v.Broadcaster.Metrics.{GatewayState}
use hermes_a2a_v.AdminApi.Metrics.{
  count_states, Turn, event_generator, reached, collect_stream_metrics,
}

-- The task is counted under that state.
abbrev pub counts_as : String → TaskDict → Bool
counts_as state t = str_eq (status_text "unknown" t.status) state

count_states-get :
    (state : String) (tasks : List TaskDict) (d : Dict String ℕ)
    → count_or_zero (get state (count_states tasks d))
      ≡ count_or_zero (get state d) + count_p (counts_as state) tasks
unfolding count_states count_or_zero
count_states-get state [] d = omega arith
count_states-get state (t ∷ tasks) d =
    let key = status_text "unknown" t.status in
    let found = count_or_zero (get key d) + 1 in
    count_states-get state tasks (put key found d)
    ∙ rw (get-put key state found d) (ground (arith, eq_iff key state))

-- The sum of a dict's values
unfoldable pub sum_counts : Dict String ℕ → ℕ
sum_counts [] = 0
sum_counts ((k, n) ∷ d) = n + sum_counts d

sum_counts-put :
    (key : String) (n : ℕ) (d : Dict String ℕ)
    → sum_counts (put key (count_or_zero (get key d) + n) d) ≡ sum_counts d + n
unfolding sum_counts put get count_or_zero
sum_counts-put key n [] = omega arith
sum_counts-put key n ((k, m) ∷ d) = ground (arith, sum_counts-put key n d)

count_states-sum :
    (tasks : List TaskDict) (d : Dict String ℕ)
    → sum_counts (count_states tasks d) ≡ sum_counts d + length tasks
unfolding count_states
count_states-sum [] d = omega arith
count_states-sum (t ∷ tasks) d =
    let key = status_text "unknown" t.status in
    omega (
      arith,
      count_states-sum tasks (put key (count_or_zero (get key d) + 1) d),
      sum_counts-put key 1 d,
    )

-- The counts by state give for every state the number of tasks in it, and together the number of all
-- tasks.
pub count_states_exact :
    (tasks : List TaskDict)
    → ((state : String)
        → count_or_zero (get state (count_states tasks [])) ≡ count_p (counts_as state) tasks)
      × (sum_counts (count_states tasks []) ≡ length tasks)
unfolding get count_or_zero sum_counts
count_states_exact tasks = (
  λ state. count_states-get state tasks [] ∙ omega arith,
  count_states-sum tasks [] ∙ omega arith,
)

-- The events that a limit allows: `int` of 0 or less allows one all the same.
unfoldable pub allowed : Option ℤ → ℕ → ℕ
allowed none n = n
allowed (some (pos m)) n = min n (max 1 m)
allowed (some (negsuc m)) n = min n 1

-- The turns before the client is gone
unfoldable pub connected_turns : List Turn → ℕ
connected_turns [] = 0
connected_turns (t ∷ ts) =
    let rest = connected_turns ts in if t.is_disconnected then 0 else rest + 1

event_generator-length :
    (m count : ℕ) (turns : List Turn) (gw : GatewayState)
    → length (event_generator (some (pos m)) turns count gw).1
      ≡ min (connected_turns turns) (max 1 (m - count))
unfolding event_generator connected_turns reached
event_generator-length m count [] gw = omega arith
event_generator-length m count (t ∷ ts) gw =
    ground (arith, event_generator-length m (count + 1) ts (collect_stream_metrics t.clock gw).0)

event_generator-unlimited :
    (count : ℕ) (turns : List Turn) (gw : GatewayState)
    → length (event_generator none turns count gw).1 ≡ connected_turns turns
unfolding event_generator connected_turns reached
event_generator-unlimited count [] gw = refl
event_generator-unlimited count (t ∷ ts) gw =
    ground (arith, event_generator-unlimited (count + 1) ts (collect_stream_metrics t.clock gw).0)

event_generator-negative :
    (n count : ℕ) (turns : List Turn) (gw : GatewayState)
    → length (event_generator (some (negsuc n)) turns count gw).1 ≡ min (connected_turns turns) 1
unfolding event_generator connected_turns reached
event_generator-negative n count [] gw = omega arith
event_generator-negative n count (t ∷ ts) gw = ground arith

-- The stream sends one event for each turn before the client is gone; with a limit, no more than that
-- many, and one all the same when the limit is 0 or less.
pub event_generator_count :
    (max_events : Option ℤ) (turns : List Turn) (gw : GatewayState)
    → length (event_generator max_events turns 0 gw).1 ≡ allowed max_events (connected_turns turns)
unfolding allowed
event_generator_count none turns gw = event_generator-unlimited 0 turns gw
event_generator_count (some (pos m)) turns gw = event_generator-length m 0 turns gw ∙ omega arith
event_generator_count (some (negsuc n)) turns gw = event_generator-negative n 0 turns gw
