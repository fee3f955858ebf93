-- ===== src/AuditLogger.antt =====
-- src/hermes_a2a/audit_logger.py: the audit log of JSON lines, its queries and the webhook. The file
-- system with its rotating handler, json, and what a POST meets are arguments. The proofs are in the
-- children.
pub mod Matching
pub mod Reading
pub mod Queries
use hermes_a2a_v.Prelude.{
  ◌>>=◌, ℕ, zero, suc, ◌+◌, String, Bool, true, false, not, ◌&&◌, Option, none, some, List, [], ◌∷◌,
  ◌++◌, str_eq, truthy, if◌then◌else◌, is_some, is_empty, Result, ok, raise, length,
}
use hermes_a2a_v.Prelude.Int.{ℤ, pos, int_leb, int_eq}
use hermes_a2a_v.Dict.{Dict, get, put, string_eq}
use hermes_a2a_v.Text.{strip, str_nat, ◌⧺◌}
use hermes_a2a_v.Text.Order.{str_leb}
use hermes_a2a_v.Sorting.{sort_by}

-- A value of an entry or a filter: None, a text, an int (or a Boolean, which compares as 1 or 0), or a
-- dict, by its text. Floats and lists are not modelled.
pub data Field : Type 0 where
  null : Field
  text : String → Field
  number : ℤ → Field
  other : String → Field

abbrev pub Entry : Type 0
Entry = Dict String Field

-- `log`: the entry at the time whose ISO text is `timestamp`; an empty or missing `metadata` is left out.
unfoldable pub log_entry : String → String → String → String → String → Option String → Entry
log_entry timestamp actor action target result metadata =
    let entry : Entry =
      ("timestamp", text timestamp)
      ∷ ("actor", text actor)
      ∷ ("action", text action)
      ∷ ("target", text target)
      ∷ ("result", text result)
      ∷ [] in
    elim metadata [ none ↦ entry | some m ↦ put "metadata" (other m) entry ]

-- What Python's own operations raise
pub data PythonError : Type 0 where
  type_error attribute_error : PythonError

-- A file of the log: not there, or the lines that are read and whether an OSError follows
pub data File : Type 0 where
  no_file : File
  lines : List String → Bool → File

-- The current file is number 0, the backups follow.
abbrev pub Files : Type 0
Files = ℕ → File

-- `log`: the files after the rotating handler has written the line; `dumps` and `emit` are json's and
-- the handler's.
unfoldable pub log : (Entry → String) → (String → Files → Files) → Entry → Files → Files
log dumps emit e files = emit (dumps e) files

exists : File → Bool
exists no_file = false
exists (lines ls broken) = true

-- The backups from number `i` on, `count` of them
backups : ℕ → ℕ → Files → List ℕ
unfolding exists
backups zero i files = []
backups (suc count) i files =
    let rest = backups count (i + 1) files in if exists (files i) then i ∷ rest else rest

-- `_get_log_files`
unfoldable pub get_log_files : ℕ → Files → List ℕ
unfolding backups exists
get_log_files max_backups files =
    let rest = backups max_backups 1 files in if exists (files 0) then 0 ∷ rest else rest

-- What `json.loads` makes of a line
pub data Loaded : Type 0 where
  invalid no_dict : Loaded
  entry : Entry → Loaded

-- `a < b`, of two values: two texts or two numbers compare
unfoldable pub less : Field → Field → Result PythonError Bool
less (text a) (text b) = ok (not (str_leb b a))
less (number a) (number b) = ok (not (int_leb b a))
less _ _ = raise type_error

field_eq : Field → Field → Bool
field_eq null null = true
field_eq (text a) (text b) = str_eq a b
field_eq (number a) (number b) = int_eq a b
field_eq (other a) (other b) = str_eq a b
field_eq _ _ = false

same_field : Option Field → Field → Bool
unfolding field_eq
same_field none value = field_eq null value
same_field (some f) value = field_eq f value

-- `entry.get("timestamp", "")`
unfoldable pub timestamp_of : Entry → Field
timestamp_of e = elim (get "timestamp" e) [ none ↦ text "" | some f ↦ f ]

-- Whether an entry passes one filter
passes : Entry → String → Field → Result PythonError Bool
unfolding less same_field timestamp_of
passes e key value =
    if str_eq key "start_time"
    then (less (timestamp_of e) value >>= λ early. ok (not early))
    else if str_eq key "end_time"
    then (less value (timestamp_of e) >>= λ late. ok (not late))
    else ok (same_field (get key e) value)

-- `_matches`
unfoldable pub matches : Entry → Dict String Field → Result PythonError Bool
unfolding passes
matches e [] = ok true
matches e ((key, value) ∷ filters) = do
  let rest = matches e filters
  passed ← passes e key value
  if passed then rest else ok false

module _ (loads : String → Loaded) (filters : Dict String Field) where
  -- One line of a file, stripped and not empty
  read_entry : Loaded → Result PythonError (List Entry) → Result PythonError (List Entry)
  unfolding matches
  read_entry invalid rest = rest
  read_entry no_dict rest = raise attribute_error
  read_entry (entry e) rest = do
    found ← matches e filters
    others ← rest
    ok (if found then e ∷ others else others)

  read_lines : List String → Result PythonError (List Entry)
  unfolding read_entry strip
  read_lines [] = ok []
  read_lines (line ∷ more) =
      let rest = read_lines more in
      if truthy (strip line) then read_entry (loads (strip line)) rest else rest

  read_file : File → Result PythonError (List Entry)
  unfolding read_lines
  read_file no_file = ok []
  read_file (lines ls broken) = read_lines ls

  -- The loop over the files
  pub read_files : List ℕ → Files → Result PythonError (List Entry)
  unfolding read_file
  read_files [] files = ok []
  read_files (i ∷ more) files = do
    let rest = read_files more files
    found ← read_file (files i)
    others ← rest
    ok (found ++ others)

unfoldable pub is_text : Field → Bool
is_text (text t) = true
is_text _ = false

-- All keys of the sort are texts.
all_texts : List Entry → Bool
unfolding timestamp_of is_text
all_texts [] = true
all_texts (e ∷ es) = is_text (timestamp_of e) && all_texts es

is_number : Field → Bool
is_number (number n) = true
is_number _ = false

all_numbers : List Entry → Bool
unfolding timestamp_of is_number
all_numbers [] = true
all_numbers (e ∷ es) = is_number (timestamp_of e) && all_numbers es

-- The text of a field that is one
unfoldable pub text_of : Field → String
text_of (text t) = t
text_of _ = ""

-- The order of `sort(key=..., reverse=True)` on keys that are texts: newest first, equal ones as they
-- stood
unfoldable pub is_newer : Entry → Entry → Bool
unfolding timestamp_of text_of
is_newer a b = str_leb (text_of (timestamp_of b)) (text_of (timestamp_of a))

number_of : Field → ℤ
number_of (number n) = n
number_of _ = pos 0

-- The same order on keys that are numbers
is_greater : Entry → Entry → Bool
unfolding timestamp_of number_of
is_greater a b = int_leb (number_of (timestamp_of b)) (number_of (timestamp_of a))

-- Two or more entries are compared, so keys that are neither all texts nor all numbers raise.
unfoldable pub sort_entries : List Entry → Result PythonError (List Entry)
unfolding all_texts all_numbers is_newer is_greater
sort_entries [] = ok []
sort_entries (e ∷ []) = ok (e ∷ [])
sort_entries (e ∷ f ∷ es) =
    if all_texts (e ∷ f ∷ es)
    then ok (sort_by is_newer (e ∷ f ∷ es))
    else if all_numbers (e ∷ f ∷ es)
    then ok (sort_by is_greater (e ∷ f ∷ es))
    else raise type_error

-- `query`
unfoldable pub query :
    (String → Loaded) → ℕ → Dict String Field → Files → Result PythonError (List Entry)
unfolding read_files get_log_files sort_entries
query loads max_backups filters files = do
  results ← read_files loads filters (get_log_files max_backups files) files
  sort_entries results

-- What `urlopen` meets: an answer, an HTTPError, a URLError, or another exception
pub data Posted : Type 0 where
  answered : ℕ → String → Posted
  http_error : ℕ → String → Posted
  url_error other_error : String → Posted

-- The dict that `webhook_deliver` returns: status and body, or an error
pub data Delivery : Type 0 where
  delivered : ℕ → String → Delivery
  refused : String → Delivery

unfoldable pub webhook_deliver : Posted → Delivery
webhook_deliver (answered status body) = delivered status body
webhook_deliver (http_error code reason) = refused ("HTTP " ⧺ str_nat code ⧺ ": " ⧺ reason)
webhook_deliver (url_error reason) = refused ("URL error: " ⧺ reason)
webhook_deliver (other_error exc) = refused exc
