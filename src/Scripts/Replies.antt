-- ===== src/Scripts/Replies.antt =====
-- What the two scripts make of the same answer of the gateway.
use hermes_a2a_v.Prelude.{
  ◌>>=◌, Bool, true, ℕ, String, false, Option, none, some, List, [], ◌∷◌, Result, ok, raise, str_eq,
  ◌≡◌, refl, inl, inr, if◌then◌else◌, Result-cases,
}
use mathlib.Core.Option
use hermes_a2a_v.Prelude.Int.{ℤ}
use hermes_a2a_v.Text.{take_chars, str_nat, ◌⧺◌}
use hermes_a2a_v.Scripts.{
  Json, null, boolean, number, text, list, dict, Fields, Crash, find, get_or, task_of, read_status,
  returned, exited,
}
use hermes_a2a_v.Scripts.Notify.{Line, log_notification, parsed, notify}
use hermes_a2a_v.Scripts.Ping.{answered, answer_of, error_in, ping, ping_timeout, response_of}

-- What the log holds as received
unfoldable pub received : List Line → Option String
received [] = none
received (line ∷ more) = if str_eq line.direction "RECV" then some line.content else received more

-- A line of the log, less its time stamp
abbrev pub line_of : String → String → String → Line
line_of direction content task_id = record {
  direction = direction;
  task_id = task_id;
  content = take_chars 100 content;
}

second : Result Crash (String × String) → Result Crash String
second (raise crash) = raise crash
second (ok (task_id, reply)) = ok reply

module _ (str : Json → String) where
  response-parsed : (answer : Json) → response_of answer ≡ second (parsed str answer)
  unfolding response_of parsed second
  response-parsed answer = elim (Result-cases (task_of answer)) [
    | inl (crash, e) ↦ rw e refl
    | inr (task, e) ↦ rw e (of_task task)
  ]
    where
      of_task :
          (task : Json)
          → (do
            (state, reply) ← read_status task
            _ ← get_or "id" (text "N/A") task
            _ ← get_or "contextId" (text "N/A") task
            ok reply)
            ≡ second (do
              task_id ← get_or "id" (text "N/A") task
              (state, reply) ← read_status task
              ok (str task_id, reply))
      of_task null = refl
      of_task (boolean b) = refl
      of_task (number n) = refl
      of_task (text s) = refl
      of_task (list items) = refl
      of_task (dict more) = elim (Result-cases (read_status (dict more))) [
        | inl (crash, e) ↦ rw e refl
        | inr ((state, reply), e) ↦ rw e refl
      ]

  -- On an answer that is a JSON object without an "error", with a timeout that is a number and a message
  -- that is not empty, and where the notifier can open its log file: both scripts end the same way,
  -- crashes included, and what the notifier logs as received is what the other script returns, cut to
  -- 100 characters.
  pub scripts_agree :
      (opens : ℕ → Bool) (more : Fields) (args : List String) (message gateway target : String)
      (seconds timeout : ℤ) (now later : ℕ)
      → opens 0 ≡ true
      → opens 1 ≡ true
      → find "error" more ≡ none
      → ping_timeout args ≡ some seconds
      → str_eq message "" ≡ false
      → let noted = notify str opens (λ post. ok (dict more)) gateway timeout now later message in
        let pinged = ping (λ post. answered (dict more)) target args in
        (noted.ended ≡ pinged.ended)
        × (received noted.log ≡ Option.map (take_chars 100) pinged.response)
  unfolding notify ping received log_notification answer_of second error_in
  scripts_agree opens more args message gateway target seconds timeout now later first next no_error
        number_ given =
      rw (given, number_, no_error, response-parsed (dict more))
        (elim (Result-cases (parsed str (dict more))) [
          | inl (crash, e) ↦ rw e (refl, refl)
          | inr ((task_id, reply), e) ↦ rw (e, first, next) (refl, refl)
        ])

  -- An answer with an "error" and without a "result", as JSON-RPC answers a request that it refuses, ends
  -- the ping with exit code 1, but the notifier, where it can open its log file, ends normally and logs
  -- the answer as sent and received like a reply, with an empty text and "N/A" for the task.
  pub error_logged_as_sent :
      (opens : ℕ → Bool) (more : Fields) (error : Json) (args : List String)
      (message gateway target : String) (seconds timeout : ℤ) (now later : ℕ)
      → opens 0 ≡ true
      → opens 1 ≡ true
      → find "error" more ≡ some error
      → find "result" more ≡ none
      → ping_timeout args ≡ some seconds
      → str_eq message "" ≡ false
      → let noted = notify str opens (λ post. ok (dict more)) gateway timeout now later message in
        let pinged = ping (λ post. answered (dict more)) target args in
        (pinged.ended ≡ exited 1)
        × (pinged.response ≡ none)
        × (noted.ended ≡ returned)
        × (noted.log
            ≡ line_of "SENT" message (str (text "N/A")) ∷ line_of "RECV" "" (str (text "N/A")) ∷ [])
  unfolding notify parsed task_of read_status find ping answer_of error_in log_notification
      hermes_a2a_v.Text.join
  error_logged_as_sent opens more error args message gateway target seconds timeout now later first
        next is_error no_result number_ given =
      rw (given, number_, is_error, no_result, first, next) (refl, refl, refl, refl)
