-- ===== src/Scenarios/Commands.antt =====
-- Runs of the two scripts.
use hermes_a2a_v.Prelude.{ℕ, Bool, true, ◌≡◌, refl, String, none, some, List, [], ◌∷◌, ok}
use mathlib.Core.Option
use hermes_a2a_v.Prelude.Int.{pos, neg}
use hermes_a2a_v.Text.{take_chars}
use hermes_a2a_v.Scripts.{
  Json, null, boolean, number, text, list, dict, no_items, item, Fields, no_fields, field, returned,
  exited, crashed, value_error,
}
use hermes_a2a_v.Scripts.Notify.{message_text, notify}
use hermes_a2a_v.Scripts.Ping.{answered, ping}
use hermes_a2a_v.Scripts.Replies.{line_of, received, scripts_agree, error_logged_as_sent}

abbrev str : Json → String
str null = "None"
str (boolean b) = "True"
str (number n) = "1"
str (text s) = s
str (list items) = "[]"
str (dict more) = "{}"

abbrev message : Json
message = dict (
    field "parts"
      (list (
        item (dict (field "text" (text "all ") no_fields))
          (item (dict (field "text" (text "done") no_fields)) no_items)))
      no_fields)

abbrev task : Json
task = dict (
    field "id" (text "t1") (
      field "status" (dict (field "state" (text "completed") (field "message" message no_fields)))
        no_fields))

abbrev answered_with : Fields
answered_with = field "result" (dict (field "task" task no_fields)) no_fields

abbrev answer : Json
answer = dict answered_with

-- A log file that can be opened
abbrev writable : ℕ → Bool
writable n = true

abbrev arguments : List String
arguments = "hello" ∷ "60" ∷ []

scripts_agree_example :
    let noted = notify str writable (λ post. ok answer) "http://mac" (pos 300) 7 8 "hello" in
    let pinged = ping (λ post. answered answer) "http://mac" arguments in
    (noted.ended ≡ pinged.ended)
    × (received noted.log ≡ Option.map (take_chars 100) pinged.response)
unfolding hermes_a2a_v.Scripts.Ping.error_in hermes_a2a_v.Scripts.find
    hermes_a2a_v.Scripts.Ping.ping_timeout hermes_a2a_v.TaskStore.int_of
scripts_agree_example =
    scripts_agree str writable answered_with arguments "hello" "http://mac" "http://mac" (pos 60)
      (pos 300) 7 8 refl refl refl refl refl

reply_test : (ping (λ post. answered answer) "http://mac" arguments).response ≡ some "all done"
unfolding ping hermes_a2a_v.TaskStore.int_of hermes_a2a_v.Scripts.find hermes_a2a_v.Text.join
reply_test = refl

-- A message of two words has no timeout that is a number.
two_words_test :
    (ping (λ post. answered answer) "http://mac" ("hello" ∷ "there" ∷ [])).ended
    ≡ crashed value_error
unfolding ping hermes_a2a_v.TaskStore.int_of
two_words_test = refl

message_text_test : message_text ("-" ∷ "ignored" ∷ []) " from a pipe " "" ≡ "from a pipe"
unfolding message_text
message_text_test = refl

abbrev refusal : Fields
refusal = field "error" (dict (field "code" (number (neg 32601)) no_fields)) no_fields

error_logged_as_sent_example :
    let noted =
      notify str writable (λ post. ok (dict refusal)) "http://mac" (pos 300) 7 8 "hello" in
    let pinged = ping (λ post. answered (dict refusal)) "http://mac" [] in
    (pinged.ended ≡ exited 1)
    × (pinged.response ≡ none)
    × (noted.ended ≡ returned)
    × (noted.log
        ≡ line_of "SENT" "hello" (str (text "N/A")) ∷ line_of "RECV" "" (str (text "N/A")) ∷ [])
unfolding hermes_a2a_v.Scripts.find hermes_a2a_v.Scripts.Ping.ping_timeout
error_logged_as_sent_example =
    error_logged_as_sent str writable refusal (dict (field "code" (number (neg 32601)) no_fields))
      [] "hello" "http://mac" "http://mac" (pos 300) (pos 300) 7 8 refl refl refl refl refl refl
