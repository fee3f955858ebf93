-- ===== src/Scripts/Notify.antt =====
-- scripts/a2a_notify.py. What a call of the gateway raised is the text of the exception; a line of the
-- log is without its time stamp.
use hermes_a2a_v.Prelude.{
  ◌>>=◌, Bool, true, false, ◌++◌, ℕ, String, Option, none, some, List, [], ◌∷◌, Result, ok, raise,
  str_eq, if◌then◌else◌,
}
use hermes_a2a_v.Prelude.Int.{ℤ, pos}
use hermes_a2a_v.Text.{◌⧺◌, join, strip, take_chars, str_nat}
use hermes_a2a_v.Scripts.{
  Json, text, Crash, os_error, Ended, returned, exited, crashed, get_or, task_of, read_status, Post,
  post_of,
}

-- A line of NOTIFY_LOG
pub record Line : Type 0 where
  pub direction : String
  pub task_id : String
  pub content : String

-- `log_notification`, where the log file can be opened or not
unfoldable pub log_notification : Bool → String → String → String → Result Crash Line
log_notification false direction content task_id = raise os_error
log_notification true direction content task_id =
    ok (record { direction = direction; task_id = task_id; content = take_chars 100 content })

-- What a run of `main` sends and logs, and how it ends
pub record Notified : Type 0 where
  pub posted : Option Post
  pub log : List Line
  pub ended : Ended

-- The text of the message, of the arguments, the standard input and the time of day
unfoldable pub message_text : List String → String → String → String
unfolding strip
message_text [] stdin stamp = "ThinkStation 定期心跳检测 — " ⧺ stamp
message_text (arg ∷ args) stdin stamp =
    if str_eq arg "-" then strip stdin else join " " (arg ∷ args)

module _ (str : Json → String) where
  -- The task id, and the text of the reply
  unfoldable pub parsed : Json → Result Crash (String × String)
  unfolding task_of get_or read_status
  parsed answer = do
    task ← task_of answer
    task_id ← get_or "id" (text "N/A") task
    (state, reply) ← read_status task
    ok (str task_id, reply)

  -- A run that has sent its message
  done : Post → List Line → Ended → Notified
  done post log ended = record { posted = some post; log = log; ended = ended }

  -- The last line, after those before it
  last_line : Post → List Line → Ended → Result Crash Line → Notified
  unfolding done
  last_line post log ended (raise crash) = done post log (crashed crash)
  last_line post log ended (ok line) = done post (log ++ line ∷ []) ended

  log_both : Post → Result Crash Line → Result Crash Line → Notified
  unfolding last_line
  log_both post (raise crash) received = done post [] (crashed crash)
  log_both post (ok line) received = last_line post (line ∷ []) returned received

  after_parse : (ℕ → Bool) → Post → String → Result Crash (String × String) → Notified
  unfolding log_notification done log_both
  after_parse opens post message (raise crash) = done post [] (crashed crash)
  after_parse opens post message (ok (task_id, reply)) =
      log_both post (log_notification (opens 0) "SENT" message task_id)
        (log_notification (opens 1) "RECV" reply task_id)

  after_send : (ℕ → Bool) → Post → String → Result String Json → Notified
  unfolding log_notification parsed after_parse last_line
  after_send opens post message (raise e) =
      last_line post [] (exited 1) (log_notification (opens 0) "FAIL" e "")
  after_send opens post message (ok answer) = after_parse opens post message (parsed answer)

  -- `main`, for a message text, with the two readings of the clock; `opens` says which attempts to open
  -- the log file succeed.
  unfoldable pub notify :
      (ℕ → Bool) → (Post → Result String Json) → String → ℤ → ℕ → ℕ → String → Notified
  unfolding after_send post_of
  notify opens urlopen gateway timeout now later message =
      let post = post_of gateway timeout (pos now) message ("notify-" ⧺ str_nat later) in
      if str_eq message ""
      then record { posted = none; log = []; ended = exited 1 }
      else after_send opens post message (urlopen post)
