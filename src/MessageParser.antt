-- ===== src/MessageParser.antt =====
-- src/hermes_a2a/message_parser.py: the text that a multi-part message becomes. A number, struct or
-- list value is held by the text that `str` makes of it.
use hermes_a2a_v.Prelude.{ℕ, String, Bool, true, false, List, [], ◌∷◌, ◌++◌, ◌≡◌, refl, str_or}
use hermes_a2a_v.Text.{◌⧺◌, str_nat, join}

-- `part.data.WhichOneof("kind")` with its value
pub data Value : Type 0 where
  string_value number_value struct_value list_value : String → Value
  bool_value : Bool → Value
  null_value no_kind : Value

-- `part.WhichOneof("content")` with its value; of raw bytes the length
pub data Content : Type 0 where
  text url : String → Content
  value : Value → Content
  raw : ℕ → Content
  unset : Content

pub record Part : Type 0 where
  pub content : Content
  pub filename : String
  pub media_type : String

str_bool : Bool → String
str_bool true = "True"
str_bool false = "False"

data_str : Value → String
unfolding str_bool
data_str (string_value s) = s
data_str (number_value s) = s
data_str (bool_value b) = str_bool b
data_str (struct_value s) = s
data_str (list_value s) = s
data_str null_value = "<null>"
data_str no_kind = ""

-- What one turn of the loop appends to `text_segments`
segment : Content → Part → List String
unfolding data_str
segment (text t) part = t ∷ []
segment (url u) part =
    ("[FILE: "
      ⧺ str_or part.filename "unknown"
      ⧺ " ("
      ⧺ str_or part.media_type "unknown"
      ⧺ ") - "
      ⧺ u
      ⧺ "]")
    ∷ []
segment (value v) part =
    ("[DATA: " ⧺ str_or part.media_type "binary" ⧺ " - " ⧺ data_str v ⧺ "]") ∷ []
segment (raw n) part = ("[RAW: " ⧺ str_nat n ⧺ " bytes]") ∷ []
segment unset part = []

segments : List Part → List String
unfolding segment
segments [] = []
segments (p ∷ ps) = segment p.content p ++ segments ps

-- `extract_text_for_hermes`, of the message's parts
unfoldable pub extract_text : List Part → String
unfolding segments join
extract_text parts = join "" (segments parts)

extract_text_test :
    extract_text (
      record { content = text "see "; filename = ""; media_type = "" }
      ∷ record { content = url "http://a/b"; filename = "b.png"; media_type = "" }
      ∷ record { content = unset; filename = ""; media_type = "" }
      ∷ record { content = value (bool_value true); filename = ""; media_type = "" }
      ∷ record { content = raw 12; filename = ""; media_type = "" }
      ∷ [])
    ≡ "see [FILE: b.png (unknown) - http://a/b][DATA: binary - True][RAW: 12 bytes]"
unfolding extract_text str_nat
extract_text_test = refl
