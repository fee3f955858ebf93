-- ===== src/Orchestrator/Lossless.antt =====
-- What `decompose` keeps of a text.
use hermes_a2a_v.Orchestrator.{SubTask}
use hermes_a2a_v.Orchestrator.Visible.{visible, visible_all, visible-append, visible-strip}
use Prim.Native.Char.{Char, code}
use text.Mathlib.TextLemmas.{nil-append, cons-append, append-nil, append_assoc}
use hermes_a2a_v.Prelude.{
  map, length, str_eq, truthy, ◌==◌, ◌+◌, ltb, ℕ, ◌≡◌, refl, ap, ◌∙◌, inl, inr, String, Bool, true,
  false, List, [], ◌∷◌, arith, Bool-cases, sym,
}
use hermes_a2a_v.Text.{drop_chars, ◌⧺◌, strip, is_space}
use hermes_a2a_v.Orchestrator.Decompose.{
  ends_sentence, ends_line, decompose, subtasks_of, sections, sentences, or_whole, starts_part,
  stripped, split_numbered, split_sections, newline_run, one, split_after,
}

-- A character more at the end of a part
visible-one :
    (cur : String) (c : Char) (s : String)
    → visible (cur ⧺ one c) ⧺ visible s ≡ visible cur ⧺ visible (String.◌∷◌ c s)
unfolding visible
visible-one cur c s = elim (Bool-cases (is_space (code c))) [
  | inl e ↦ rw (visible-append cur (one c), e, append-nil (visible cur)) refl
  | inr e ↦
      rw
        (
          visible-append cur (one c),
          e,
          append_assoc (visible cur) (one c) (visible s),
          cons-append c String.[] (visible s),
          nil-append (visible s),
        )
        refl
]

split_after-visible :
    (class : ℕ → Bool) (after skipping : Bool) (cur s : String)
    → visible_all (split_after class after skipping cur s) ≡ visible cur ⧺ visible s
unfolding split_after visible_all visible
split_after-visible class after skipping cur String.[] = refl
split_after-visible class after skipping cur (String.◌∷◌ c s) =
    let grows =
      split_after-visible class (class (code c)) false (cur ⧺ one c) s ∙ visible-one cur c s in
    let skips = split_after-visible class (class (code c)) true cur s in
    let breaks = split_after-visible class (class (code c)) true "" s ∙ nil-append (visible s) in
    elim (Bool-cases (is_space (code c))) [
      | inl e ↦ elim (Bool-cases skipping) [
        | inl e' ↦ rw (e, e') skips
        | inr e' ↦ elim (Bool-cases after) [
          | inl e'' ↦ rw (e, e', e'') (ap (λ t. visible cur ⧺ t) breaks)
          | inr e'' ↦ rw (e, e', e'') (grows ∙ rw (e) refl)
        ]
      ]
      | inr e ↦ rw e (grows ∙ rw (e) refl)
    ]

add_one : (n : ℕ) → n + 1 ≡ ℕ.suc n
add_one n = omega arith

-- A match of `\n\s*\n` after its first newline is spaces.
visible-drop : (s : String) → visible (drop_chars (newline_run s) s) ≡ visible s
unfolding visible newline_run
visible-drop String.[] = refl
visible-drop (String.◌∷◌ c s) = elim (Bool-cases (is_space (code c))) [
  | inl e ↦ elim (Bool-cases (ltb 0 (newline_run s))) [
    | inl e' ↦ rw (e, e', add_one (newline_run s)) (visible-drop s)
    | inr e' ↦ elim (Bool-cases (code c == 10)) [
      | inl e'' ↦ rw (e, e', e'') refl
      | inr e'' ↦ rw (e, e', e'') (rw e refl)
    ]
  ]
  | inr e ↦ rw e (rw e refl)
]

visible-newline :
    (c : Char) (s : String) → (code c == 10) ≡ true → visible s ≡ visible (String.◌∷◌ c s)
unfolding visible is_space
visible-newline c s e = ground arith

split_sections-visible :
    (skip : ℕ) (cur s : String)
    → visible_all (split_sections skip cur s) ≡ visible cur ⧺ visible (drop_chars skip s)
unfolding split_sections visible_all
split_sections-visible ℕ.zero cur String.[] = refl
split_sections-visible (ℕ.suc skip) cur String.[] = refl
split_sections-visible (ℕ.suc skip) cur (String.◌∷◌ c s) = split_sections-visible skip cur s
split_sections-visible ℕ.zero cur (String.◌∷◌ c s) =
    let grows = split_sections-visible 0 (cur ⧺ one c) s ∙ visible-one cur c s in
    let breaks = split_sections-visible (newline_run s) "" s ∙ nil-append _ ∙ visible-drop s in
    elim (Bool-cases (code c == 10)) [
      | inl e ↦ elim (Bool-cases (ltb 0 (newline_run s))) [
        | inl e' ↦ rw (e, e') (ap (λ t. visible cur ⧺ t) (breaks ∙ visible-newline c s e))
        | inr e' ↦ rw (e, e') grows
      ]
      | inr e ↦ rw e grows
    ]

split_numbered-visible :
    (is_decimal : ℕ → Bool) (at_start : Bool) (cur s : String)
    → visible_all (split_numbered is_decimal at_start cur s) ≡ visible cur ⧺ visible s
unfolding split_numbered visible_all
split_numbered-visible is_decimal at_start cur String.[] = refl
split_numbered-visible is_decimal at_start cur (String.◌∷◌ c s) =
    let grows = split_numbered-visible is_decimal false (cur ⧺ one c) s ∙ visible-one cur c s in
    let starts =
      split_numbered-visible is_decimal false (one c) s ∙ sym (visible-append (one c) s) in
    elim (Bool-cases (starts_part is_decimal at_start c s)) [
      | inl e ↦ rw e (
          ap (λ t. visible cur ⧺ t)
            (starts ∙ ap visible (cons-append c String.[] s ∙ ap (String.◌∷◌ c) (nil-append s))))
      | inr e ↦ rw e grows
    ]

empty_visible : (t : String) → truthy t ≡ false → "" ≡ visible t
unfolding visible
empty_visible String.[] h = refl
empty_visible (String.◌∷◌ c s) h = absurd (ground arith)

nothing_visible : (p : String) → truthy (strip p) ≡ false → "" ≡ visible p
nothing_visible p h = empty_visible (strip p) h ∙ visible-strip p

stripped-visible :
    (is_decimal : ℕ → Bool) (parts : List String)
    → visible_all (stripped is_decimal parts) ≡ visible_all parts
unfolding stripped visible_all
stripped-visible is_decimal [] = refl
stripped-visible is_decimal (p ∷ parts) = elim (Bool-cases (truthy (strip p))) [
  | inl e ↦ rw (e, visible-strip p) (ap (λ t. visible p ⧺ t) (stripped-visible is_decimal parts))
  | inr e ↦ rw e (
      stripped-visible is_decimal parts
      ∙ sym (nil-append (visible_all parts))
      ∙ ap (λ t. t ⧺ visible_all parts) (nothing_visible p e))
]

or_whole-visible :
    (is_decimal : ℕ → Bool) (text : String) (parts : List String)
    → visible_all parts ≡ visible text
    → visible_all (or_whole is_decimal text parts) ≡ visible text
unfolding or_whole visible_all
or_whole-visible is_decimal text [] h = append-nil (visible (strip text)) ∙ visible-strip text
or_whole-visible is_decimal text (p ∷ parts) h = h

-- Parts that keep what is visible of the stripped text
parts-visible :
    (is_decimal : ℕ → Bool) (text : String) (parts : List String)
    → visible_all parts ≡ "" ⧺ visible (strip text)
    → visible_all (or_whole is_decimal text (stripped is_decimal parts)) ≡ visible text
parts-visible is_decimal text parts h =
    or_whole-visible is_decimal text (stripped is_decimal parts) (
      stripped-visible is_decimal parts
      ∙ h
      ∙ nil-append (visible (strip text))
      ∙ visible-strip text)

sentences-visible :
    (is_decimal : ℕ → Bool) (text : String) → visible_all (sentences is_decimal text) ≡ visible text
unfolding sentences visible
sentences-visible is_decimal text =
    elim (Bool-cases (ltb 1 (length (split_numbered is_decimal true "" (strip text))))) [
      | inl e ↦
          rw e (
            parts-visible is_decimal text _
              (split_numbered-visible is_decimal true "" (strip text)))
      | inr e ↦ rw e (
          parts-visible is_decimal text _
            (split_after-visible ends_line false false "" (strip text)))
    ]

sections-visible :
    (is_decimal : ℕ → Bool) (text : String) → visible_all (sections is_decimal text) ≡ visible text
unfolding sections visible
sections-visible is_decimal text =
    elim (Bool-cases (ltb 1 (length (split_sections 0 "" (strip text))))) [
      | inl e ↦ rw e (parts-visible is_decimal text _ (split_sections-visible 0 "" (strip text)))
      | inr e ↦ rw e (
          parts-visible is_decimal text _
            (split_after-visible ends_sentence false false "" (strip text)))
    ]

descriptions : List SubTask → List String
descriptions = map (λ t. t.description)

descriptions-subtasks_of :
    (is_decimal : ℕ → Bool) (fresh : ℕ → String) (i : ℕ) (parts : List String)
    → descriptions (subtasks_of is_decimal fresh i parts) ≡ parts
unfolding subtasks_of descriptions
descriptions-subtasks_of is_decimal fresh i [] = refl
descriptions-subtasks_of is_decimal fresh i (p ∷ parts) =
    ap (◌∷◌ p) (descriptions-subtasks_of is_decimal fresh (i + 1) parts)

-- Under every strategy, the descriptions of the subtasks, one after the other, are the task's text up
-- to spaces: decomposing loses, repeats and reorders nothing that is visible.
pub decompose_lossless :
    (is_decimal : ℕ → Bool) (fresh : ℕ → String) (task_description strategy : String)
    → visible_all (map (λ t. t.description) (decompose is_decimal fresh task_description strategy))
      ≡ visible task_description
unfolding decompose descriptions
decompose_lossless is_decimal fresh task_description strategy =
    elim (Bool-cases (str_eq strategy "map_reduce")) [
      | inl e ↦
          rw (e, descriptions-subtasks_of is_decimal fresh 0)
            (sections-visible is_decimal task_description)
      | inr e ↦
          rw (e, descriptions-subtasks_of is_decimal fresh 0)
            (sentences-visible is_decimal task_description)
    ]
