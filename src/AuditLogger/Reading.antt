-- ===== src/AuditLogger/Reading.antt =====
-- The entries in the files of the log, and that the loops of a query find those that match.
use hermes_a2a_v.Prelude.{
  sym, ℕ, zero, suc, ◌+◌, ◌≡◌, refl, inl, inr, String, List, [], ◌∷◌, ◌++◌, truthy, if◌then◌else◌,
  arith, select, All, All-split, select-append, Bool-cases, ok, append_assoc,
}
use hermes_a2a_v.Dict.{Dict, string_eq}
use hermes_a2a_v.Text.{strip}
use hermes_a2a_v.AuditLogger.{
  Field, Entry, File, no_file, lines, Files, exists, backups, get_log_files, Loaded, invalid,
  no_dict, entry, read_entry, read_lines, read_file, read_files,
}
use hermes_a2a_v.AuditLogger.Matching.{satisfies, AreTexts, IsTimed, matches-satisfies}

unfoldable pub lines_of : File → List String
lines_of no_file = []
lines_of (lines ls broken) = ls

-- The lines of `count` files from number `i` on
unfoldable pub log_lines : ℕ → ℕ → Files → List String
unfolding lines_of
log_lines zero i files = []
log_lines (suc count) i files = lines_of (files i) ++ log_lines count (i + 1) files

module _ (loads : String → Loaded) where
  entry_of : Loaded → List Entry
  entry_of (entry e) = e ∷ []
  entry_of _ = []

  -- The entries of lines, in their order
  unfoldable pub entries_in : List String → List Entry
  unfolding entry_of strip
  entries_in [] = []
  entries_in (line ∷ more) =
      let rest = entries_in more in
      if truthy (strip line) then entry_of (loads (strip line)) ++ rest else rest

  -- No line is a JSON value other than an object whose time, if it has one, is a text.
  abbrev pub IsReadable : Loaded → Type 0
  IsReadable no_dict = ⊥
  IsReadable invalid = Unit
  IsReadable (entry e) = IsTimed e

  unfoldable pub AreReadable : List String → Type 0
  AreReadable = All (λ line. IsReadable (loads (strip line)))

  read_entry-entry_of :
      (filters : Dict String Field) (r : Loaded) (rest : List Entry)
      → IsReadable r
      → AreTexts filters
      → read_entry loads filters r (ok (select (satisfies filters) rest))
        ≡ ok (select (satisfies filters) (entry_of r ++ rest))
  unfolding read_entry entry_of
  read_entry-entry_of filters invalid rest readable texts = refl
  read_entry-entry_of filters no_dict rest readable texts = absurd readable
  read_entry-entry_of filters (entry e) rest readable texts =
      rw (matches-satisfies e filters readable texts) (ground arith)

  read_lines-entries_in :
      (filters : Dict String Field) (ls : List String)
      → AreReadable ls
      → AreTexts filters
      → read_lines loads filters ls ≡ ok (select (satisfies filters) (entries_in ls))
  unfolding read_lines entries_in AreReadable
  read_lines-entries_in filters [] readable texts = refl
  read_lines-entries_in filters (line ∷ more) readable texts =
      let rest = read_lines-entries_in filters more readable.1 texts in
      elim (Bool-cases (truthy (strip line))) [
        | inl e ↦ rw (e, rest) (read_entry-entry_of filters _ (entries_in more) readable.0 texts)
        | inr e ↦ rw e rest
      ]

  pub entries_in-append :
      (ks ls : List String) → entries_in (ks ++ ls) ≡ entries_in ks ++ entries_in ls
  unfolding entries_in
  entries_in-append [] ls = refl
  entries_in-append (line ∷ more) ls = elim (Bool-cases (truthy (strip line))) [
    | inl e ↦
        rw (e, entries_in-append more ls)
          (sym (append_assoc (entry_of (loads (strip line))) (entries_in more) (entries_in ls)))
    | inr e ↦ rw e (entries_in-append more ls)
  ]

  read_file-lines_of :
      (filters : Dict String Field) (f : File)
      → AreReadable (lines_of f)
      → AreTexts filters
      → read_file loads filters f ≡ ok (select (satisfies filters) (entries_in (lines_of f)))
  unfolding read_file lines_of entries_in
  read_file-lines_of filters no_file readable texts = refl
  read_file-lines_of filters (lines ls broken) readable texts =
      read_lines-entries_in filters ls readable texts

  -- One more file before those that are read
  read_one :
      (filters : Dict String Field) (i : ℕ) (bs : List ℕ) (later : List String) (files : Files)
      (f : File)
      → files i ≡ f
      → AreReadable (lines_of f)
      → AreTexts filters
      → read_files loads filters bs files ≡ ok (select (satisfies filters) (entries_in later))
      → read_files loads filters (if exists (files i) then i ∷ bs else bs) files
        ≡ ok (select (satisfies filters) (entries_in (lines_of f ++ later)))
  unfolding read_files exists lines_of
  read_one filters i bs later files no_file e readable texts rest = rw e rest
  read_one filters i bs later files (lines ls broken) e readable texts rest =
      rw
        (
          e,
          e,
          read_file-lines_of filters (lines ls broken) readable texts,
          rest,
          entries_in-append ls later,
          select-append (satisfies filters) (entries_in ls) (entries_in later),
        )
        refl

  read_backups :
      (filters : Dict String Field) (count i : ℕ) (files : Files)
      → AreReadable (log_lines count i files)
      → AreTexts filters
      → read_files loads filters (backups count i files) files
        ≡ ok (select (satisfies filters) (entries_in (log_lines count i files)))
  unfolding read_files backups exists log_lines entries_in AreReadable
  read_backups filters zero i files readable texts = refl
  read_backups filters (suc count) i files readable texts =
      let both =
        All-split (λ line. IsReadable (loads (strip line))) (lines_of (files i))
          (log_lines count (i + 1) files) readable in
      read_one filters i _ _ files (files i) refl both.0 texts
        (read_backups filters count (i + 1) files both.1 texts)

  pub entries_in-IsTimed : (ls : List String) → AreReadable ls → All IsTimed (entries_in ls)
  unfolding entries_in AreReadable
  entries_in-IsTimed [] readable = tt
  entries_in-IsTimed (line ∷ more) readable = elim (Bool-cases (truthy (strip line))) [
    | inl e ↦ rw e (go (loads (strip line)) readable.0 (entries_in-IsTimed more readable.1))
    | inr e ↦ rw e (entries_in-IsTimed more readable.1)
  ]
    where
      go :
          (r : Loaded)
          → IsReadable r
          → All IsTimed (entries_in more)
          → All IsTimed (entry_of r ++ entries_in more)
      go invalid h rest = rest
      go no_dict h rest = absurd h
      go (entry e) h rest = (h, rest)

pub found_lem :
    (loads : String → Loaded) (max_backups : ℕ) (filters : Dict String Field) (files : Files)
    → AreReadable loads (log_lines (suc max_backups) 0 files)
    → AreTexts filters
    → read_files loads filters (get_log_files max_backups files) files
      ≡ ok (select (satisfies filters) (entries_in loads (log_lines (suc max_backups) 0 files)))
unfolding get_log_files log_lines AreReadable
found_lem loads max_backups filters files readable texts =
    let both =
      All-split (λ line. IsReadable loads (loads (strip line))) (lines_of (files 0))
        (log_lines max_backups 1 files) readable in
    read_one loads filters 0 _ _ files (files 0) refl both.0 texts
      (read_backups loads filters max_backups 1 files both.1 texts)
