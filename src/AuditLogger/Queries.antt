-- ===== src/AuditLogger/Queries.antt =====
-- What a query of the audit log returns, against all entries of its files.
use mathlib.Core.List.{Perm, Mem, mem-append_right, mem-cons_self}
use mathlib.Core.List.Perm
use hermes_a2a_v.Prelude.{
  ◌||◌, false, not, ◌&&◌, ◌==◌, ◌∙◌, eq_iff, ℕ, suc, ◌≡◌, refl, inl, inr, String, Bool, true, List,
  [], ◌∷◌, ◌++◌, str_eq, truthy, select, All, select-append, Bool-cases, ok, append_assoc,
}
use hermes_a2a_v.Dict.{Dict, string_eq}
use Prim.Native.Char.{code}
use hermes_a2a_v.Text.{strip, ◌⧺◌}
use hermes_a2a_v.Text.Strip.{strip-newline}
use hermes_a2a_v.Text.Order.{str_leb_refl, str_leb_total, str_leb_trans}
use hermes_a2a_v.Sorting.{sort_by, IsSorted, sort_by-Perm, sort_by-IsSorted, select-sort_by}
use hermes_a2a_v.AuditLogger.{
  log, Field, Entry, Files, Loaded, entry, all_texts, is_newer, sort_entries, query,
}
use hermes_a2a_v.AuditLogger.Matching.{time_of, satisfies, AreTexts, IsTimed}
use hermes_a2a_v.AuditLogger.Reading.{
  lines_of, log_lines, entries_in, AreReadable, entries_in-append, found_lem, entries_in-IsTimed,
}

select-All : (p : Entry → Bool) (es : List Entry) → All IsTimed es → All IsTimed (select p es)
select-All p [] h = tt
select-All p (e ∷ es) h = elim (Bool-cases (p e)) [
  | inl q ↦ rw q (h.0, select-All p es h.1)
  | inr q ↦ rw q (select-All p es h.1)
]

all_texts-IsTimed : (es : List Entry) → All IsTimed es → all_texts es ≡ true
unfolding all_texts
all_texts-IsTimed [] h = refl
all_texts-IsTimed (e ∷ es) h = rw (h.0, all_texts-IsTimed es h.1) refl

sort_entries-IsTimed :
    (es : List Entry) → All IsTimed es → sort_entries es ≡ ok (sort_by is_newer es)
unfolding sort_entries sort_by
sort_entries-IsTimed [] h = refl
sort_entries-IsTimed (e ∷ []) h = refl
sort_entries-IsTimed (e ∷ f ∷ es) h = rw (all_texts-IsTimed (e ∷ f ∷ es) h) refl

-- The entry was made at that time.
abbrev pub is_at : String → Entry → Bool
is_at t e = str_eq (time_of e) t

at_once : (t : String) (x y : Entry) → is_at t x ≡ true → is_at t y ≡ true → is_newer x y ≡ true
unfolding is_newer time_of
at_once t x y h k = rw ((eq_iff (time_of x) t).0 h, (eq_iff (time_of y) t).0 k) (str_leb_refl t)

-- On files whose lines are JSON objects with texts for times, or no JSON, and for filters whose values
-- are texts, a query returns the entries of all files, the current one first, that satisfy every
-- filter, each as often as it is logged; the newest come first, and entries of one time in the order
-- of the files.
pub query_exact :
    (loads : String → Loaded) (max_backups : ℕ) (filters : Dict String Field) (files : Files)
    → AreReadable loads (log_lines (suc max_backups) 0 files)
    → AreTexts filters
    → let found =
        select (satisfies filters) (entries_in loads (log_lines (suc max_backups) 0 files)) in
      (results : List Entry) × (query loads max_backups filters files ≡ ok results)
      × Perm results found
      × IsSorted is_newer results
      × ((t : String) → select (is_at t) results ≡ select (is_at t) found)
unfolding query is_newer time_of
query_exact loads max_backups filters files readable texts =
    let found =
      select (satisfies filters) (entries_in loads (log_lines (suc max_backups) 0 files)) in
    (
      sort_by is_newer found,
      rw (found_lem loads max_backups filters files readable texts) (
          sort_entries-IsTimed found (
            select-All (satisfies filters) _
              (entries_in-IsTimed loads (log_lines (suc max_backups) 0 files) readable))),
      sort_by-Perm is_newer found,
      sort_by-IsSorted is_newer (λ x y h. str_leb_total (time_of y) (time_of x) h)
          (λ x y z h k. str_leb_trans (time_of z) (time_of y) (time_of x) k h) found,
      λ t. select-sort_by is_newer (is_at t) (at_once t) found,
    )

mem-select :
    (loads : String → Loaded) (p : Entry → Bool) (e : Entry) (line : String)
    (ls later : List String)
    → entries_in loads (line ∷ []) ≡ e ∷ []
    → p e ≡ true
    → Mem e (select p (entries_in loads ((ls ++ line ∷ []) ++ later)))
mem-select loads p e line ls later one passed =
    rw
      (
        append_assoc ls (line ∷ []) later,
        entries_in-append loads ls (line ∷ later),
        entries_in-append loads (line ∷ []) later,
        one,
        select-append p (entries_in loads ls) (e ∷ entries_in loads later),
        passed,
      )
      (mem-append_right (select p (entries_in loads ls)) mem-cons_self)

-- The text has no line break that reading a file looks for: neither a newline nor a carriage return.
unfoldable pub is_one_line : String → Bool
is_one_line String.[] = true
is_one_line (String.◌∷◌ c s) = not (code c == b'\n' || code c == 13) && is_one_line s

-- The text ends with a newline.
unfoldable pub is_ended : String → Bool
is_ended String.[] = false
is_ended (String.◌∷◌ c String.[]) = code c == b'\n'
is_ended (String.◌∷◌ c (String.◌∷◌ d s)) = is_ended (String.◌∷◌ d s)

-- What is documented of the log's rotating handler, where its writes succeed: it writes a text and a
-- newline at the end of the current file, which it may have begun anew. So a text of one line, on
-- files whose lines are ended, is the last line that is read.
abbrev pub Appends : (String → Files → Files) → Type 0
Appends emit =
    (line : String) (files : Files)
    → is_one_line line ≡ true
    → All (λ l. is_ended l ≡ true) (lines_of (files 0))
    → (ls : List String) × (lines_of (emit line files 0) ≡ ls ++ (line ⧺ "\n") ∷ [])

-- When an entry is logged, a query whose filters it satisfies finds it, if the handler appends, the
-- lines of the current file are ended, the JSON text of the entry is one line without space around it
-- that json reads back, and all lines of the files are JSON objects with texts for times, or no JSON.
pub logged_found :
    (loads : String → Loaded) (dumps : Entry → String) (emit : String → Files → Files)
    (max_backups : ℕ) (filters : Dict String Field) (e : Entry) (files : Files)
    → Appends emit
    → All (λ l. is_ended l ≡ true) (lines_of (files 0))
    → is_one_line (dumps e) ≡ true
    → strip (dumps e) ≡ dumps e
    → truthy (dumps e) ≡ true
    → loads (dumps e) ≡ entry e
    → satisfies filters e ≡ true
    → AreReadable loads (log_lines (suc max_backups) 0 (log dumps emit e files))
    → AreTexts filters
    → (results : List Entry) × (query loads max_backups filters (log dumps emit e files)
        ≡ ok results)
      × Mem e results
unfolding log log_lines entries_in
logged_found loads dumps emit max_backups filters e files appends ended one_line stripped some_text
      parsed sat readable texts =
    let (results, answer, perm, sorted, stable) =
      query_exact loads max_backups filters (log dumps emit e files) readable texts in
    let (ls, written) = appends (dumps e) files one_line ended in
    let read = strip-newline (dumps e) ∙ stripped in
    (
      results,
      answer,
      (Perm.mem_iff perm).1 (
          rw written (
            mem-select loads (satisfies filters) e (dumps e ⧺ "\n") ls _
              (rw (read, some_text, parsed) refl) sat)),
    )
