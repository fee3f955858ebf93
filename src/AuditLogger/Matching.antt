-- ===== src/AuditLogger/Matching.antt =====
-- What it means that an entry satisfies filters, and that `_matches` decides it.
use hermes_a2a_v.Prelude.{
  ◌>>=◌, ◌≡◌, refl, String, Bool, true, not, ◌&&◌, [], ◌∷◌, str_eq, if◌then◌else◌, arith, All, ok,
}
use hermes_a2a_v.Dict.{Dict, get, string_eq}
use hermes_a2a_v.Text.Order.{str_leb}
use hermes_a2a_v.AuditLogger.{
  Field, null, text, number, other, Entry, less, same_field, timestamp_of, passes, matches, is_text,
  text_of,
}

-- The ISO text of an entry's time
unfoldable pub time_of : Entry → String
unfolding text_of timestamp_of
time_of e = text_of (timestamp_of e)

-- An entry has the value that a filter asks for; times are bounds, both inclusive.
unfoldable pub satisfies_one : Entry → String → Field → Bool
unfolding time_of text_of same_field
satisfies_one e key value =
    if str_eq key "start_time"
    then str_leb (text_of value) (time_of e)
    else if str_eq key "end_time"
    then str_leb (time_of e) (text_of value)
    else same_field (get key e) value

unfoldable pub satisfies : Dict String Field → Entry → Bool
unfolding satisfies_one
satisfies [] e = true
satisfies ((key, value) ∷ filters) e = satisfies_one e key value && satisfies filters e

-- The values of the filters are texts.
abbrev pub AreTexts : Dict String Field → Type 0
AreTexts = All (λ f. is_text f.1 ≡ true)

-- The entry's time is a text.
abbrev pub IsTimed : Entry → Type 0
IsTimed e = is_text (timestamp_of e) ≡ true

passes-satisfies_one :
    (e : Entry) (key : String) (value : Field)
    → IsTimed e
    → is_text value ≡ true
    → passes e key value ≡ ok (satisfies_one e key value)
unfolding passes satisfies_one is_text time_of text_of less
passes-satisfies_one e key value timed valued = go (timestamp_of e) timed value valued
  where
    go :
        (ts : Field)
        → is_text ts ≡ true
        → (v : Field) → is_text v ≡ true
        → (if str_eq key "start_time"
            then (less ts v >>= λ early. ok (not early))
            else if str_eq key "end_time"
            then (less v ts >>= λ late. ok (not late))
            else ok (same_field (get key e) v))
          ≡ ok (
              if str_eq key "start_time"
              then str_leb (text_of v) (text_of ts)
              else if str_eq key "end_time"
              then str_leb (text_of ts) (text_of v)
              else same_field (get key e) v)
    go (text t) h (text v) k = ground arith
    go (text t) h null k = absurd (ground arith)
    go (text t) h (other v) k = absurd (ground arith)
    go (text t) h (number v) k = absurd (ground arith)
    go null h v k = absurd (ground arith)
    go (other t) h v k = absurd (ground arith)
    go (number t) h v k = absurd (ground arith)

pub matches-satisfies :
    (e : Entry) (filters : Dict String Field)
    → IsTimed e
    → AreTexts filters
    → matches e filters ≡ ok (satisfies filters e)
unfolding matches satisfies
matches-satisfies e [] timed texts = refl
matches-satisfies e ((key, value) ∷ filters) timed texts =
    rw (passes-satisfies_one e key value timed texts.0, matches-satisfies e filters timed texts.1)
      (ground arith)
