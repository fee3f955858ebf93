-- ===== src/Orchestrator/Visible.antt =====
-- A text without its spaces, as `decompose` is compared with.
use hermes_a2a_v.Orchestrator.Decompose.{one}
use Prim.Native.Char.{code}
use text.Mathlib.TextLemmas.{nil-append, cons-append}
use hermes_a2a_v.Prelude.{
  ◌≡◌, refl, ap, ◌∙◌, inl, inr, String, List, [], ◌∷◌, if◌then◌else◌, arith, Bool-cases, sym,
}
use hermes_a2a_v.Text.{◌⧺◌, strip, lstrip, rstrip, is_space}

-- A text without its spaces
unfoldable pub visible : String → String
visible String.[] = String.[]
visible (String.◌∷◌ c s) =
    let rest = visible s in if is_space (code c) then rest else String.◌∷◌ c rest

-- What is visible of texts, one after the other
unfoldable pub visible_all : List String → String
unfolding visible
visible_all [] = ""
visible_all (p ∷ parts) = visible p ⧺ visible_all parts

pub visible-append : (a b : String) → visible (a ⧺ b) ≡ visible a ⧺ visible b
unfolding visible
visible-append String.[] b = rw (nil-append b) (sym (nil-append (visible b)))
visible-append (String.◌∷◌ c a) b = elim (Bool-cases (is_space (code c))) [
  | inl e ↦ rw (cons-append c a b, e) (visible-append a b)
  | inr e ↦
      rw (cons-append c a b, e, cons-append c (visible a) (visible b))
        (ap (String.◌∷◌ c) (visible-append a b))
]

pub visible-lstrip : (s : String) → visible (lstrip s) ≡ visible s
unfolding visible lstrip
visible-lstrip String.[] = refl
visible-lstrip (String.◌∷◌ c s) = ground (arith, visible-lstrip s)

visible-rstrip : (s : String) → visible (rstrip s) ≡ visible s
unfolding visible rstrip
visible-rstrip String.[] = refl
visible-rstrip (String.◌∷◌ c s) = go (rstrip s) (visible-rstrip s)
  where
    go :
        (r : String)
        → visible r ≡ visible s
        → visible (elim r [
          | String.[] ↦ if is_space (code c) then String.[] else one c
          | String.◌∷◌ d t ↦ String.◌∷◌ c (String.◌∷◌ d t)
        ])
          ≡ (if is_space (code c) then visible s else String.◌∷◌ c (visible s))
    go String.[] h = elim (Bool-cases (is_space (code c))) [
      | inl e ↦ rw e h
      | inr e ↦ rw (e, e) (ap (String.◌∷◌ c) h)
    ]
    go (String.◌∷◌ d t) h = elim (Bool-cases (is_space (code c))) [
      | inl e ↦ rw e h
      | inr e ↦ rw e (ap (String.◌∷◌ c) h)
    ]

pub visible-strip : (s : String) → visible (strip s) ≡ visible s
unfolding strip
visible-strip s = visible-rstrip (lstrip s) ∙ visible-lstrip s
