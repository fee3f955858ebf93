-- ===== src/Scenarios/Limits.antt =====
-- Runs of the rate limiter, and a vote.
use hermes_a2a_v.Dict.{get}
use hermes_a2a_v.Prelude.{
  arith, ℕ, ◌+◌, ◌-◌, ◌*◌, ◌≤◌, ◌≡◌, refl, String, none, some, List, [], ◌∷◌, length,
}
use hermes_a2a_v.Orchestrator.{SubTaskStatus, SubTaskResult}
use hermes_a2a_v.RateLimiter.{init, new_bucket, one_token, TokenBucket}
use hermes_a2a_v.RateLimiter.Bounds.{consume_all, admitted}
use hermes_a2a_v.RateLimiter.Isolation.{
  Arrival, serve_all, answers, times_of, first_made, clients_isolated,
}
use hermes_a2a_v.RateLimiter.Limit.{end_of, limiter_bound}
use hermes_a2a_v.ResultAggregator.{completed_results, vote, verdict}
use hermes_a2a_v.ResultAggregator.Votes.{occurrences, vote_winner}

abbrev from_host : String → ℕ → Arrival
from_host host t = record {
  request = record { forwarded = none; client = some host };
  made = t;
  now = t;
}

abbrev arrivals : List Arrival
arrivals = from_host "a" 10 ∷ from_host "b" 20 ∷ from_host "a" 30 ∷ []

limiter_bound_example :
    admitted (answers "a" (serve_all arrivals (init 60 1)).1) * one_token
    ≤ 1 * one_token + (end_of 0 arrivals - 0) * 60
limiter_bound_example =
    limiter_bound "a" 60 1 0 arrivals
      (omega arith, omega arith, (omega arith, omega arith, (omega arith, omega arith, tt)))

clients_isolated_example :
    answers "a" (serve_all arrivals (init 60 1)).1
    ≡ (consume_all
        (times_of "a" arrivals)
        (new_bucket (1 * one_token) 60 (first_made "a" arrivals))).1
unfolding init get
clients_isolated_example = clients_isolated "a" arrivals (init 60 1) refl

abbrev two_tokens : TokenBucket
two_tokens = record { tokens = 120000; max_tokens = 120000; refill_rate = 60; last_refill = 0 }

abbrev said : String → SubTaskResult
said t = record {
  subtask_id = "s";
  peer_name = "p";
  status = SubTaskStatus.completed;
  result = some t;
  error = none;
}

vote_winner_example :
    (winner : String) × (vote (said "no" ∷ said "yes" ∷ said "yes" ∷ [])
      ≡ verdict
          (winner, occurrences winner ("no" ∷ "yes" ∷ "yes" ∷ []))
          (length {A = String} ("no" ∷ "yes" ∷ "yes" ∷ [])))
    × (1 ≤ occurrences winner ("no" ∷ "yes" ∷ "yes" ∷ []))
    × ((s : String)
        → occurrences s ("no" ∷ "yes" ∷ "yes" ∷ [])
          ≤ occurrences winner ("no" ∷ "yes" ∷ "yes" ∷ []))
unfolding completed_results
vote_winner_example =
    vote_winner (said "no" ∷ said "yes" ∷ said "yes" ∷ []) "no" ("yes" ∷ "yes" ∷ []) refl
