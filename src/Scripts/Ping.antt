-- ===== src/Scripts/Ping.antt =====
-- scripts/a2a_ping.py.
use hermes_a2a_v.Prelude.{
  ◌>>=◌, ℕ, String, Bool, true, false, Option, none, some, List, [], ◌∷◌, Result, ok, raise, str_eq,
  is_some, ◌||◌,
}
use hermes_a2a_v.Prelude.Int.{ℤ, pos, neg}
use hermes_a2a_v.Text.{join}
use hermes_a2a_v.SkillRouter.Keywords.{contains}
use hermes_a2a_v.TaskStore.{int_of}
use hermes_a2a_v.Scripts.{
  Json, null, boolean, number, text, list, dict, Items, no_items, item, no_fields, field, Crash,
  Ended, returned, exited, crashed, type_error, value_error, find, get_or, task_of, read_status,
  Post, post_of,
}

-- What an attempt to send ends with: an HTTPError with its code and body, another exception, or a reply
pub data Attempt : Type 0 where
  http_error : ℕ → String → Attempt
  failed : String → Attempt
  answered : Json → Attempt

error_of : ℤ → String → Json
error_of code message = dict (
    field "error" (dict (field "code" (number code) (field "message" (text message) no_fields)))
      no_fields)

-- `send_a2a_message`
unfoldable pub answer_of : Attempt → Json
unfolding error_of
answer_of (http_error code body) = error_of (pos code) body
answer_of (failed e) = error_of (neg 1) e
answer_of (answered result) = result

is_error_text : Json → Bool
is_error_text (text s) = str_eq s "error"
is_error_text null = false
is_error_text (boolean b) = false
is_error_text (number n) = false
is_error_text (list items) = false
is_error_text (dict more) = false

has_error : Items → Bool
unfolding is_error_text
has_error no_items = false
has_error (item j more) = is_error_text j || has_error more

-- `"error" in result`
unfoldable pub error_in : Json → Result Crash Bool
unfolding has_error
error_in (dict more) = ok (is_some (find "error" more))
error_in (list items) = ok (has_error items)
error_in (text s) = ok (contains s "error")
error_in null = raise type_error
error_in (boolean b) = raise type_error
error_in (number n) = raise type_error

-- `result['error']` of a result that has it
error_shown : Json → Ended
error_shown (dict more) = exited 1
error_shown (list items) = crashed type_error
error_shown (text s) = crashed type_error
error_shown null = crashed type_error
error_shown (boolean b) = crashed type_error
error_shown (number n) = crashed type_error

-- What a run of `main` sends and returns, and how it ends
pub record Pinged : Type 0 where
  pub posted : Option Post
  pub response : Option String
  pub ended : Ended

-- The reply of a task; its state and ids are only printed.
unfoldable pub response_of : Json → Result Crash String
unfolding task_of read_status get_or
response_of answer = do
  task ← task_of answer
  (state, reply) ← read_status task
  _ ← get_or "id" (text "N/A") task
  _ ← get_or "contextId" (text "N/A") task
  ok reply

after_response : Post → Result Crash String → Pinged
after_response post (raise crash) = record {
  posted = some post;
  response = none;
  ended = crashed crash;
}
after_response post (ok reply) = record {
  posted = some post;
  response = some reply;
  ended = returned;
}

after_check : Post → Json → Result Crash Bool → Pinged
unfolding error_shown after_response response_of
after_check post answer (raise crash) = record {
  posted = some post;
  response = none;
  ended = crashed crash;
}
after_check post answer (ok true) = record {
  posted = some post;
  response = none;
  ended = error_shown answer;
}
after_check post answer (ok false) = after_response post (response_of answer)

-- The text of the message
unfoldable pub ping_text : List String → String
ping_text [] = "这是一条来自 ThinkStation 的主动 A2A 通讯测试。请确认收到。"
ping_text (arg ∷ args) = join " " (arg ∷ args)

-- The timeout; a text that is no number is a ValueError.
unfoldable pub ping_timeout : List String → Option ℤ
ping_timeout [] = some (pos 300)
ping_timeout (arg ∷ []) = some (pos 300)
ping_timeout (arg ∷ seconds ∷ args) = int_of seconds

-- `main`, of the arguments
unfoldable pub ping : (Post → Attempt) → String → List String → Pinged
unfolding ping_text ping_timeout after_check error_in answer_of post_of
ping urlopen target args = go (ping_timeout args)
  where
    sent_with : ℤ → Post
    sent_with seconds = post_of target seconds (pos 1) (ping_text args) "msg-ping-from-thinkstation"

    go : Option ℤ → Pinged
    go none = record { posted = none; response = none; ended = crashed value_error }
    go (some seconds) =
        let answer = answer_of (urlopen (sent_with seconds)) in
        after_check (sent_with seconds) answer (error_in answer)
