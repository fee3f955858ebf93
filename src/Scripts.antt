-- ===== src/Scripts.antt =====
-- scripts/a2a_notify.py and scripts/a2a_ping.py: what both share, the JSON that they read, the request
-- that they send and the reply that they take out of an answer. What the scripts print is left out.
pub mod Notify
pub mod Ping
pub mod Replies
use hermes_a2a_v.Prelude.{
  ◌>>=◌, ℕ, String, Bool, Option, none, some, List, [], ◌∷◌, Result, ok, raise, str_eq,
  if◌then◌else◌, is_empty,
}
use hermes_a2a_v.Prelude.Int.{ℤ}
use hermes_a2a_v.Text.{◌⧺◌, join}

-- A decoded JSON value
mutual
  pub data Json : Type 0 where
    null : Json
    boolean : Bool → Json
    number : ℤ → Json
    text : String → Json
    list : Items → Json
    dict : Fields → Json

  pub data Items : Type 0 where
    no_items : Items
    item : Json → Items → Items

  pub data Fields : Type 0 where
    no_fields : Fields
    field : String → Json → Fields → Fields

-- The exceptions that leave a script
pub data Crash : Type 0 where
  attribute_error type_error value_error : Crash
  os_error : Crash

-- How a script ends: `main` returns, `sys.exit`, or an exception
pub data Ended : Type 0 where
  returned : Ended
  exited : ℕ → Ended
  crashed : Crash → Ended

unfoldable pub find : String → Fields → Option Json
find key no_fields = none
find key (field name value more) = if str_eq name key then some value else find key more

or_default : Option Json → Json → Json
or_default none default = default
or_default (some value) default = value

-- `value.get(key, default)`
unfoldable pub get_or : String → Json → Json → Result Crash Json
unfolding or_default
get_or key default (dict more) = ok (or_default (find key more) default)
get_or key default null = raise attribute_error
get_or key default (boolean b) = raise attribute_error
get_or key default (number n) = raise attribute_error
get_or key default (text s) = raise attribute_error
get_or key default (list items) = raise attribute_error

-- What `for p in parts` of the reply runs over, for parts that are no list
strings_of : Bool → Result Crash Items
strings_of empty = if empty then ok no_items else raise attribute_error

no_field : Fields → Bool
no_field no_fields = Bool.true
no_field (field name value more) = Bool.false

items_of : Json → Result Crash Items
unfolding strings_of no_field
items_of (list items) = ok items
items_of (text s) = strings_of (str_eq s "")
items_of (dict more) = strings_of (no_field more)
items_of null = raise type_error
items_of (boolean b) = raise type_error
items_of (number n) = raise type_error

-- `p.get("text", "")` of each part
texts : Items → Result Crash (List Json)
unfolding get_or
texts no_items = ok []
texts (item p more) = do t ← get_or "text" (text "") p; rest ← texts more; ok (t ∷ rest)

string_of : Json → Result Crash String
string_of (text s) = ok s
string_of null = raise type_error
string_of (boolean b) = raise type_error
string_of (number n) = raise type_error
string_of (list items) = raise type_error
string_of (dict more) = raise type_error

strings : List Json → Result Crash (List String)
unfolding string_of
strings [] = ok []
strings (j ∷ more) = do s ← string_of j; rest ← strings more; ok (s ∷ rest)

-- `"".join(p.get("text", "") for p in parts)`
joined : Json → Result Crash String
unfolding items_of texts strings
joined parts = do
  items ← items_of parts
  found ← texts items
  pieces ← strings found
  ok (join "" pieces)

-- `result.get("result", {}).get("task", {})`
unfoldable pub task_of : Json → Result Crash Json
unfolding get_or
task_of answer = do
  result ← get_or "result" (dict no_fields) answer
  get_or "task" (dict no_fields) result

-- The state of a task and the text of its message
unfoldable pub read_status : Json → Result Crash (Json × String)
unfolding get_or joined
read_status task = do
  status ← get_or "status" (dict no_fields) task
  state ← get_or "state" (text "") status
  message ← get_or "message" (dict no_fields) status
  parts ← get_or "parts" (list no_items) message
  reply ← joined parts
  ok (state, reply)

-- A request of `urllib.request`
pub record Post : Type 0 where
  pub url : String
  pub headers : List (String × String)
  pub body : Json
  pub timeout : ℤ

one_part : String → Json
one_part message = list (item (dict (field "text" (text message) no_fields)) no_items)

params : String → String → Json
unfolding one_part
params message message_id = dict (
    field "message"
      (dict (
        field "role" (text "ROLE_USER")
          (field "parts" (one_part message) (field "messageId" (text message_id) no_fields))))
      no_fields)

payload : ℤ → String → String → Json
unfolding params
payload id message message_id = dict (
    field "jsonrpc" (text "2.0") (
      field "method" (text "SendMessage")
        (field "id" (number id) (field "params" (params message message_id) no_fields))))

-- The request for a message
unfoldable pub post_of : String → ℤ → ℤ → String → String → Post
unfolding payload
post_of gateway timeout id message message_id = record {
  url = gateway ⧺ "/";
  headers = ("Content-Type", "application/json") ∷ ("A2A-Version", "1.0") ∷ [];
  body = payload id message message_id;
  timeout = timeout;
}
