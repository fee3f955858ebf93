-- ===== src/Text/Prefix.antt =====
-- `str.startswith` against prefixes.
use text.Mathlib.TextEquality.{Char-path}
use text.Mathlib.TextLemmas.{nil-append, cons-append}
use hermes_a2a_v.Prelude.{◌≡◌, ◌↔◌, refl, sym, ap, ◌∙◌, String, true, arith}
use hermes_a2a_v.Text.{◌⧺◌, starts_with}

-- The text begins with `prefix`.
abbrev pub HasPrefix : String → String → Type 0
HasPrefix prefix s = (rest : String) × (s ≡ prefix ⧺ rest)

pub starts_with-append : (a s : String) → starts_with (a ⧺ s) a ≡ true
unfolding starts_with
starts_with-append String.[] s = starts_with-nil (String.[] ⧺ s)
  where
    starts_with-nil : (t : String) → starts_with t String.[] ≡ true
    starts_with-nil String.[] = refl
    starts_with-nil (String.◌∷◌ c t) = refl
starts_with-append (String.◌∷◌ c a) s =
    rw (cons-append c a s, starts_with-append a s) (ground arith)

starts_with-HasPrefix : (s prefix : String) → starts_with s prefix ≡ true → HasPrefix prefix s
unfolding starts_with
starts_with-HasPrefix s String.[] h = (s, sym (nil-append s))
starts_with-HasPrefix String.[] (String.◌∷◌ p ps) h = absurd (ground arith)
starts_with-HasPrefix (String.◌∷◌ c s) (String.◌∷◌ p ps) h =
    let (rest, e) = starts_with-HasPrefix s ps (ground arith) in
    (rest, (λ i. String.◌∷◌ (Char-path c p (ground arith) i) (e i)) ∙ sym (cons-append p ps rest))

-- The test decides whether the text has the prefix.
pub starts_with_iff : (s prefix : String) → (starts_with s prefix ≡ true) ↔ HasPrefix prefix s
starts_with_iff s prefix = (
  starts_with-HasPrefix s prefix,
  λ h. ap (λ t. starts_with t prefix) h.1 ∙ starts_with-append prefix h.0,
)
