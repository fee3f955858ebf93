-- ===== src/Text/Strip.antt =====
-- `str.strip` on a text and a newline.
use text.Mathlib.TextLemmas.{cons-append}
use Prim.Native.Char.{code}
use hermes_a2a_v.Prelude.{◌≡◌, refl, sym, ap, ◌∙◌, inl, inr, String, Bool-cases}
use hermes_a2a_v.Text.{◌⧺◌, strip, lstrip, rstrip, is_space}

rstrip-newline : (s : String) → rstrip (s ⧺ "\n") ≡ rstrip s
unfolding rstrip
rstrip-newline String.[] = refl
rstrip-newline (String.◌∷◌ c s) = rw (cons-append c s "\n", rstrip) (rw (rstrip-newline s) refl)

lstrip-newline : (s : String) → rstrip (lstrip (s ⧺ "\n")) ≡ rstrip (lstrip s)
unfolding lstrip
lstrip-newline String.[] = refl
lstrip-newline (String.◌∷◌ c s) = elim (Bool-cases (is_space (code c))) [
  | inl e ↦ rw (cons-append c s "\n", e) (lstrip-newline s)
  | inr e ↦
      rw (cons-append c s "\n", e)
        (ap rstrip (sym (cons-append c s "\n")) ∙ rstrip-newline (String.◌∷◌ c s))
]

-- A newline at the end is dropped.
pub strip-newline : (s : String) → strip (s ⧺ "\n") ≡ strip s
unfolding strip
strip-newline s = lstrip-newline s
