-- ===== src/Orchestrator/Decompose.antt =====
-- `decompose` of src/hermes_a2a/orchestrator.py, with the splits of its regular expressions. Which
-- characters `\d` takes, and the fresh ids, are arguments.
use Prim.Native.Char.{Char, code}
use hermes_a2a_v.Prelude.{
  ℕ, zero, suc, ◌+◌, String, Bool, true, false, ◌&&◌, ◌||◌, none, List, [], ◌∷◌, map, ◌==◌, ltb,
  truthy, str_eq, if◌then◌else◌, length, select,
}
use hermes_a2a_v.Text.{◌⧺◌, strip, is_space}
use hermes_a2a_v.Orchestrator.{SubTask, SubTaskStatus}

-- A text of one character
abbrev pub one : Char → String
one c = String.◌∷◌ c String.[]

-- The splits of `(?<=[...])\s+`: `after` is whether the character before is of the class, `skipping`
-- whether a run of spaces is being dropped.
unfoldable pub split_after : (ℕ → Bool) → Bool → Bool → String → String → List String
unfolding is_space
split_after class after skipping cur String.[] = cur ∷ []
split_after class after skipping cur (String.◌∷◌ c s) =
    let skipped = split_after class (class (code c)) true cur s in
    let broken = split_after class (class (code c)) true "" s in
    let longer = split_after class (class (code c)) false (cur ⧺ one c) s in
    if is_space (code c)
    then if skipping then skipped else if after then cur ∷ broken else longer
    else longer

-- `[.!?]`
unfoldable pub ends_sentence : ℕ → Bool
ends_sentence n = n == b'.' || n == b'!' || n == b'?'

-- `[.!?\n]`
unfoldable pub ends_line : ℕ → Bool
unfolding ends_sentence
ends_line n = ends_sentence n || n == 10

-- How many characters there are up to the last newline in the leading spaces; 0 if there is none
unfoldable pub newline_run : String → ℕ
unfolding is_space
newline_run String.[] = 0
newline_run (String.◌∷◌ c s) =
    let rest = newline_run s in
    if is_space (code c) then if ltb 0 rest then rest + 1 else if code c == 10 then 1 else 0 else 0

-- The splits of `\n\s*\n`; `skip` characters of a match are still to be dropped.
unfoldable pub split_sections : ℕ → String → String → List String
unfolding newline_run
split_sections skip cur String.[] = cur ∷ []
split_sections (suc skip) cur (String.◌∷◌ c s) = split_sections skip cur s
split_sections zero cur (String.◌∷◌ c s) =
    let broken = split_sections (newline_run s) "" s in
    let longer = split_sections zero (cur ⧺ one c) s in
    if code c == 10 && ltb 0 (newline_run s) then cur ∷ broken else longer

module _ (is_decimal : ℕ → Bool) where
  -- `\.\s`, after digits that were there
  item_end : String → Bool
  unfolding is_space
  item_end (String.◌∷◌ c (String.◌∷◌ d s)) = code c == b'.' && is_space (code d)
  item_end _ = false

  -- `\d+\.\s`; `some_digit` is whether one was read
  item_number : Bool → String → Bool
  unfolding item_end
  item_number some_digit String.[] = false
  item_number some_digit (String.◌∷◌ c s) =
      let more = item_number true s in
      if is_decimal (code c) then more else some_digit && item_end (String.◌∷◌ c s)

  -- `\s*\d+\.\s`
  starts_item : String → Bool
  unfolding item_number is_space
  starts_item String.[] = false
  starts_item (String.◌∷◌ c s) =
      let more = starts_item s in
      if is_space (code c) then more else item_number false (String.◌∷◌ c s)

  -- Whether the lookahead matches before a character, which may be the first one
  unfoldable pub starts_part : Bool → Char → String → Bool
  unfolding starts_item
  starts_part at_start c s =
      at_start && starts_item (String.◌∷◌ c s) || code c == 10 && starts_item s

  -- The splits of `(?=(?:^|\n)\s*\d+\.\s)`, which take no character away
  unfoldable pub split_numbered : Bool → String → String → List String
  unfolding starts_part
  split_numbered at_start cur String.[] = cur ∷ []
  split_numbered at_start cur (String.◌∷◌ c s) =
      let broken = split_numbered false (one c) s in
      let longer = split_numbered false (cur ⧺ one c) s in
      if starts_part at_start c s then cur ∷ broken else longer

  -- `[p.strip() for p in parts if p.strip()]`
  unfoldable pub stripped : List String → List String
  unfolding strip
  stripped parts = select truthy (map strip parts)

  -- `if not parts: parts = [text.strip()]`
  unfoldable pub or_whole : String → List String → List String
  unfolding strip
  or_whole text [] = strip text ∷ []
  or_whole text (p ∷ parts) = p ∷ parts

  -- The parts of `_decompose_sentences`
  unfoldable pub sentences : String → List String
  unfolding split_numbered split_after stripped or_whole ends_line
  sentences text =
      let numbered = split_numbered true "" (strip text) in
      let by_line = split_after ends_line false false "" (strip text) in
      or_whole text (stripped (if ltb 1 (length numbered) then numbered else by_line))

  -- The parts of `_decompose_map_reduce`
  unfoldable pub sections : String → List String
  unfolding split_sections split_after stripped or_whole ends_sentence
  sections text =
      let paragraphs = split_sections 0 "" (strip text) in
      let by_sentence = split_after ends_sentence false false "" (strip text) in
      or_whole text (stripped (if ltb 1 (length paragraphs) then paragraphs else by_sentence))

  -- One subtask for each part, with fresh ids
  unfoldable pub subtasks_of : (ℕ → String) → ℕ → List String → List SubTask
  subtasks_of fresh i [] = []
  subtasks_of fresh i (part ∷ parts) =
      record {
        id = fresh i;
        description = part;
        assigned_peer = none;
        status = SubTaskStatus.pending;
        result = none;
        error = none;
      }
      ∷ subtasks_of fresh (i + 1) parts

  unfoldable pub decompose : (ℕ → String) → String → String → List SubTask
  unfolding sentences sections subtasks_of
  decompose fresh task_description strategy = subtasks_of fresh 0 (
      if str_eq strategy "map_reduce"
      then sections task_description
      else sentences task_description)
