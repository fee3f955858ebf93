-- ===== src/SkillRouter/Keywords.antt =====
-- The words of a task, and when two words are related.
use Prim.Native.Char.{code}
use hermes_a2a_v.Prelude.{
  ℕ, ◌+◌, ◌≡◌, refl, String, Bool, false, not, ◌&&◌, ◌||◌, List, [], ◌∷◌, str_eq, eq_iff, ltb, leb,
  ◌==◌, if◌then◌else◌, min, truthy, select, arith,
}
use hermes_a2a_v.Dict.{string_eq}
use hermes_a2a_v.Distinct.{is_in}
use hermes_a2a_v.Text.{str_len, starts_with, ◌⧺◌}

-- `part in s`
unfoldable pub contains : String → String → Bool
unfolding starts_with
contains String.[] part = starts_with String.[] part
contains (String.◌∷◌ c s) part = starts_with (String.◌∷◌ c s) part || contains s part

-- The loop over the common prefix
unfoldable pub common_prefix : String → String → ℕ
common_prefix String.[] b = 0
common_prefix (String.◌∷◌ c a) String.[] = 0
common_prefix (String.◌∷◌ c a) (String.◌∷◌ d b) =
    let rest = common_prefix a b in if code c == code d then rest + 1 else 0

-- `_fuzzy_match`
unfoldable pub fuzzy_match : String → String → Bool
unfolding contains common_prefix
fuzzy_match a b =
    let min_len = min (str_len a) (str_len b) in
    str_eq a b
    || (contains b a || contains a b)
    || (if ltb min_len 4 then false else leb (min min_len 5) (common_prefix a b))

abbrev pub stop_words : List String
stop_words =
    "a" ∷ "an" ∷ "the" ∷ "and" ∷ "or" ∷ "but" ∷ "is" ∷ "are" ∷ "was" ∷ "were" ∷ "be" ∷ "been"
    ∷ "being" ∷ "have" ∷ "has" ∷ "had" ∷ "do" ∷ "does" ∷ "did" ∷ "will" ∷ "would" ∷ "could"
    ∷ "should" ∷ "may" ∷ "might" ∷ "shall" ∷ "can" ∷ "to" ∷ "of" ∷ "in" ∷ "for" ∷ "on" ∷ "with"
    ∷ "at" ∷ "by" ∷ "from" ∷ "as" ∷ "into" ∷ "through" ∷ "during" ∷ "before" ∷ "after" ∷ "above"
    ∷ "below" ∷ "between" ∷ "out" ∷ "off" ∷ "over" ∷ "under" ∷ "again" ∷ "further" ∷ "then" ∷ "once"
    ∷ "here" ∷ "there" ∷ "when" ∷ "where" ∷ "why" ∷ "how" ∷ "all" ∷ "each" ∷ "every" ∷ "both"
    ∷ "few" ∷ "more" ∷ "most" ∷ "other" ∷ "some" ∷ "such" ∷ "no" ∷ "not" ∷ "only" ∷ "own" ∷ "same"
    ∷ "so" ∷ "than" ∷ "too" ∷ "very" ∷ "just" ∷ "because" ∷ "if" ∷ "about" ∷ "up" ∷ "this" ∷ "that"
    ∷ "these" ∷ "those" ∷ "it" ∷ "its" ∷ "i" ∷ "me" ∷ "my" ∷ "we" ∷ "our" ∷ "you" ∷ "your" ∷ "he"
    ∷ "him" ∷ "his" ∷ "she" ∷ "her" ∷ "they" ∷ "them" ∷ "their" ∷ "what" ∷ "which" ∷ "who" ∷ []

-- `[a-zA-Z0-9]`
is_word_char : ℕ → Bool
is_word_char n =
    (leb b'a' n && leb n b'z') || (leb b'A' n && leb n b'Z') || (leb b'0' n && leb n b'9')

-- `re.split(r"[^a-zA-Z0-9]+", s)`, less the empty tokens; `cur` is the token that is read.
tokens_from : String → String → List String
unfolding is_word_char
tokens_from cur String.[] = if truthy cur then cur ∷ [] else []
tokens_from cur (String.◌∷◌ c s) =
    let longer = tokens_from (cur ⧺ String.◌∷◌ c String.[]) s in
    let next = tokens_from "" s in
    if is_word_char (code c) then longer else if truthy cur then cur ∷ next else next

-- `_extract_keywords`
unfoldable pub extract_keywords : (String → String) → String → List String
unfolding tokens_from is_in
extract_keywords lower task =
    select (λ t. not (is_in t stop_words) && ltb 1 (str_len t)) (tokens_from "" (lower task))

extract_keywords_test :
    extract_keywords (λ s. s) "review the python-code, a b" ≡ "review" ∷ "python" ∷ "code" ∷ []
unfolding extract_keywords
extract_keywords_test = refl

common_prefix_sym : (a b : String) → common_prefix a b ≡ common_prefix b a
unfolding common_prefix
common_prefix_sym String.[] String.[] = refl
common_prefix_sym String.[] (String.◌∷◌ d b) = refl
common_prefix_sym (String.◌∷◌ c a) String.[] = refl
common_prefix_sym (String.◌∷◌ c a) (String.◌∷◌ d b) = ground (arith, common_prefix_sym a b)

-- Whether two words are related does not depend on their order.
pub fuzzy_match_sym : (a b : String) → fuzzy_match a b ≡ fuzzy_match b a
unfolding fuzzy_match
fuzzy_match_sym a b = ground (arith, common_prefix_sym a b, eq_iff a b, eq_iff b a)
