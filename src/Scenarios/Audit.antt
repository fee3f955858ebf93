-- ===== src/Scenarios/Audit.antt =====
-- Runs of the audit log.
use mathlib.Core.List.{Perm, Mem}
use hermes_a2a_v.Prelude.{
  zero, suc, ◌≡◌, refl, String, false, List, [], ◌∷◌, ◌++◌, ok, select, str_eq, if◌then◌else◌,
}
use hermes_a2a_v.Dict.{Dict, get, string_eq}
use hermes_a2a_v.Text.{strip, ◌⧺◌}
use hermes_a2a_v.Text.Order.{str_leb}
use hermes_a2a_v.Sorting.{IsSorted}
use hermes_a2a_v.AuditLogger.{
  Field, text, Entry, no_file, lines, Files, Loaded, invalid, entry, log, query, is_newer,
  timestamp_of, is_text,
}
use hermes_a2a_v.AuditLogger.Matching.{satisfies, satisfies_one}
use hermes_a2a_v.AuditLogger.Reading.{lines_of, log_lines, entries_in, AreReadable}
use hermes_a2a_v.AuditLogger.Queries.{
  is_ended, is_one_line, is_at, Appends, query_exact, logged_found,
}

abbrev first_entry : Entry
first_entry = ("timestamp", text "2026-01-01") ∷ ("actor", text "ann") ∷ []

abbrev second_entry : Entry
second_entry = ("timestamp", text "2026-01-02") ∷ ("actor", text "ann") ∷ []

-- Two JSON lines, by their names
abbrev loads : String → Loaded
loads s =
    if str_eq s "one"
    then entry first_entry
    else if str_eq s "two"
    then entry second_entry
    else invalid

abbrev files : Files
files zero = lines ("one\n" ∷ "garbage\n" ∷ []) false
files (suc zero) = lines ("two\n" ∷ []) false
files (suc (suc n)) = no_file

abbrev filters : Dict String Field
filters = ("actor", text "ann") ∷ ("start_time", text "2026-01-01") ∷ []

query_exact_example :
    (results : List Entry) × (query loads 5 filters files ≡ ok results)
    × Perm results (select (satisfies filters) (entries_in loads (log_lines 6 0 files)))
    × IsSorted is_newer results
    × ((t : String)
        → select (is_at t) results
          ≡ select (is_at t) (select (satisfies filters) (entries_in loads (log_lines 6 0 files))))
unfolding AreReadable log_lines lines_of strip timestamp_of is_text get
query_exact_example = query_exact loads 5 filters files (refl, (tt, (refl, tt))) (refl, (refl, tt))

-- A handler that never rotates, and json on one entry
abbrev emit : String → Files → Files
emit line fs zero = lines (lines_of (fs 0) ++ (line ⧺ "\n") ∷ []) false
emit line fs (suc n) = fs (suc n)

emit-Appends : Appends emit
unfolding lines_of
emit-Appends line fs one_line ended = (lines_of (fs 0), refl)

abbrev dumps : Entry → String
dumps e = "two"

logged_found_example :
    (results : List Entry) × (query loads 5 filters (log dumps emit second_entry files)
      ≡ ok results)
    × Mem second_entry results
unfolding AreReadable log_lines lines_of strip timestamp_of is_text get log satisfies satisfies_one
    str_leb is_ended is_one_line
logged_found_example =
    logged_found loads dumps emit 5 filters second_entry files emit-Appends (refl, (refl, tt)) refl
      refl refl refl refl (refl, (tt, (refl, (refl, tt)))) (refl, (refl, tt))
