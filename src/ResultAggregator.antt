-- ===== src/ResultAggregator.antt =====
-- src/hermes_a2a/result_aggregator.py: the strategies that merge subtask results into one text. How
-- Python formats a status is an argument. The proofs are in the child.
pub mod Votes
use hermes_a2a_v.Prelude.{
  ℕ, zero, ◌+◌, String, Bool, true, false, not, ◌||◌, Option, none, some, List, [], ◌∷◌, ◌++◌, ltb,
  ◌==◌, str_eq, truthy, str_or, if◌then◌else◌, length, select, Result, ok, raise, map,
}
use hermes_a2a_v.Text.{◌⧺◌, str_nat, join}
use hermes_a2a_v.Dict.{Dict, get, put, string_eq}
use hermes_a2a_v.Orchestrator.{SubTaskStatus, SubTaskResult, is_completed, is_failed, is_timed_out}

-- `r.error or default`
error_or : Option String → String → String
error_or none default = default
error_or (some e) default = str_or e default

-- One turn of the loop of `_concatenate`
part_of : SubTaskStatus → Option String → SubTaskResult → String
unfolding error_or
part_of SubTaskStatus.completed (some text) r = text
part_of SubTaskStatus.timed_out _ r = "[TIMEOUT] Subtask " ⧺ r.subtask_id ⧺ ": timed out"
part_of SubTaskStatus.failed _ r =
    "[ERROR] Subtask " ⧺ r.subtask_id ⧺ ": " ⧺ error_or r.error "unknown error"
part_of _ _ r = "[PENDING] Subtask " ⧺ r.subtask_id ⧺ ": no result yet"

unfoldable pub concatenate : String → List SubTaskResult → String
unfolding part_of join
concatenate separator results = join separator (map (λ r. part_of r.status r.result r) results)

result_line : Option String → List String
result_line none = []
result_line (some t) = if truthy t then t ∷ [] else []

completed_lines : List SubTaskResult → List String
unfolding result_line
completed_lines [] = []
completed_lines (r ∷ rs) =
    ("### Peer: " ⧺ str_or r.peer_name "unknown" ⧺ " (subtask " ⧺ r.subtask_id ⧺ ")")
      ∷ result_line r.result
    ++ "" ∷ completed_lines rs

failed_lines : List SubTaskResult → List String
unfolding error_or
failed_lines [] = []
failed_lines (r ∷ rs) =
    ("- Subtask "
      ⧺ r.subtask_id
      ⧺ " ("
      ⧺ r.peer_name
      ⧺ "): "
      ⧺ (if is_timed_out r.status then "Timed Out" else "Failed")
      ⧺ " — "
      ⧺ error_or r.error "unknown error")
    ∷ failed_lines rs

pending_lines : (SubTaskStatus → String) → List SubTaskResult → List String
pending_lines str_status [] = []
pending_lines str_status (r ∷ rs) =
    ("- Subtask " ⧺ r.subtask_id ⧺ " (" ⧺ r.peer_name ⧺ "): " ⧺ str_status r.status)
    ∷ pending_lines str_status rs

-- `if rs: lines.append(header), ...`
section_of : String → List SubTaskResult → List String → List String
section_of header [] lines = []
section_of header (r ∷ rs) lines = header ∷ lines

unfoldable pub summarize : (SubTaskStatus → String) → List SubTaskResult → String
unfolding completed_lines failed_lines pending_lines section_of join
summarize str_status results =
    let completed = select (λ r. is_completed r.status) results in
    let failed = select (λ r. is_failed r.status) results in
    let pending = select (λ r. not (is_completed r.status || is_failed r.status)) results in
    join "\n" (
      ("# Summary ("
          ⧺ str_nat (length completed)
          ⧺ " completed, "
          ⧺ str_nat (length failed)
          ⧺ " failed, "
          ⧺ str_nat (length pending)
          ⧺ " pending)")
        ∷ ""
        ∷ section_of "## Results" completed (completed_lines completed)
      ++ section_of "## Errors" failed (failed_lines failed ++ "" ∷ [])
      ++ section_of "## Pending" pending (pending_lines str_status pending))

answer_of : SubTaskStatus → Option String → List String
answer_of SubTaskStatus.completed (some text) = text ∷ []
answer_of _ _ = []

-- The results that are voted on
unfoldable pub completed_results : List SubTaskResult → List String
unfolding answer_of
completed_results [] = []
completed_results (r ∷ rs) = answer_of r.status r.result ++ completed_results rs

-- `d[key]` of a Counter
abbrev pub count_or_zero : Option ℕ → ℕ
count_or_zero none = 0
count_or_zero (some n) = n

-- `Counter(xs)`, counted into `d`
unfoldable pub counter : List String → Dict String ℕ → Dict String ℕ
counter [] d = d
counter (x ∷ xs) d = counter xs (put x (count_or_zero (get x d) + 1) d)

-- The first of the entries with the highest count
unfoldable pub best_of : String × ℕ → Dict String ℕ → String × ℕ
best_of best [] = best
best_of best (e ∷ d) =
    let same = best_of best d in let new = best_of e d in if ltb best.1 e.1 then new else same

-- `most_common(1)[0]`, of a counter that is not empty
unfoldable pub most_common : Dict String ℕ → String × ℕ
unfolding best_of
most_common [] = ("", 0)
most_common (e ∷ d) = best_of e d

unfoldable pub verdict : String × ℕ → ℕ → String
verdict (winner, count) total =
    if count == total
    then "Unanimous (" ⧺ str_nat total ⧺ "/" ⧺ str_nat total ⧺ "): " ⧺ winner
    else "Majority (" ⧺ str_nat count ⧺ "/" ⧺ str_nat total ⧺ "): " ⧺ winner

no_votes : List SubTaskResult → String
unfolding error_or join
no_votes [] = "No completed results to vote on."
no_votes (r ∷ rs) =
    "No completed results to vote on. Errors: "
    ⧺ join "; " (map (λ x. error_or x.error "unknown") (r ∷ rs))

vote_on : List String → List SubTaskResult → String
unfolding counter most_common verdict no_votes
vote_on [] results = no_votes (select (λ r. is_failed r.status) results)
vote_on (x ∷ xs) results = verdict (most_common (counter (x ∷ xs) [])) (length (x ∷ xs))

unfoldable pub vote : List SubTaskResult → String
unfolding vote_on completed_results
vote results = vote_on (completed_results results) results

custom : Option (List SubTaskResult → String) → List SubTaskResult → Result String String
custom none results = raise "custom_fn must be provided for 'custom' strategy"
custom (some custom_fn) results = ok (custom_fn results)

-- `aggregate`; the raised texts are those of its ValueErrors
unfoldable pub aggregate :
    (SubTaskStatus → String)
    → List SubTaskResult
    → String
    → String
    → Option (List SubTaskResult → String)
    → Result String String
unfolding concatenate summarize vote custom
aggregate str_status [] strategy separator custom_fn = ok ""
aggregate str_status (r ∷ rs) strategy separator custom_fn =
    if str_eq strategy "concatenate"
    then ok (concatenate separator (r ∷ rs))
    else if str_eq strategy "summarize"
    then ok (summarize str_status (r ∷ rs))
    else if str_eq strategy "vote"
    then ok (vote (r ∷ rs))
    else if str_eq strategy "custom"
    then custom custom_fn (r ∷ rs)
    else raise ("Unknown aggregation strategy: " ⧺ strategy)
