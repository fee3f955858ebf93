-- ===== src/Auth/Tokens.antt =====
-- The text of a token: its three fields hold no dot, and padding is restored as it was.
use Prim.Native.Char.{code}
use hermes_a2a_v.Prelude.{
  ℕ, zero, suc, ◌+◌, ◌-◌, ◌%◌, ◌≤◌, ◌≡◌, refl, ◌∙◌, ap, sym, String, Bool, true, false, not, ◌&&◌,
  [], ◌∷◌, arith, ltb, ◌==◌, Bool-cases, inl, inr,
}
use text.Mathlib.TextLemmas.{nil-append, cons-append, append-nil, append_assoc}
use hermes_a2a_v.Text.{◌⧺◌, str_len}
use hermes_a2a_v.Auth.Encoding.{
  rstrip_padding, unpadded, padding, pad, split_dots, in_first, is_ascii,
}

-- ASCII texts without `=` and `.`
unfoldable pub is_plain : String → Bool
is_plain String.[] = true
is_plain (String.◌∷◌ c s) =
    (ltb (code c) 128 && not (code c == b'=') && not (code c == b'.')) && is_plain s

rstrip-padding : (n : ℕ) → rstrip_padding (padding n) ≡ ""
unfolding rstrip_padding padding
rstrip-padding zero = refl
rstrip-padding (suc n) = ap (unpadded "=") (rstrip-padding n) ∙ unfold unpadded in refl

pub rstrip-plain : (s : String) (n : ℕ) → is_plain s ≡ true → rstrip_padding (s ⧺ padding n) ≡ s
unfolding rstrip_padding is_plain
rstrip-plain String.[] n h = rw nil-append (rstrip-padding n)
rstrip-plain (String.◌∷◌ c s) n h =
    let rest : is_plain s ≡ true = ground (arith, h) in
    rw cons-append (ap (unpadded c) (rstrip-plain s n rest) ∙ kept s)
  where
    kept : (t : String) → unpadded c t ≡ String.◌∷◌ c t
    kept String.[] = unfold unpadded in ground (arith, h)
    kept (String.◌∷◌ d t) = unfold unpadded in refl

pub pad-restores : (s : String) (n : ℕ) → n ≤ 2 → (str_len s + n) % 4 ≡ 0 → pad s ≡ s ⧺ padding n
unfolding pad padding
pad-restores s n few aligned = elim (Bool-cases (4 - str_len s % 4 == 4)) [
  | inl whole ↦
      let none_left : n ≡ 0 = ground (arith, whole, aligned, few) in
      rw whole (rw none_left (sym (append-nil s)))
  | inr part ↦
      let same : 4 - str_len s % 4 ≡ n = ground (arith, part, aligned, few) in
      rw part (rw same refl)
]

pub split-plain : (s : String) → is_plain s ≡ true → split_dots s ≡ s ∷ []
unfolding split_dots is_plain
split-plain String.[] h = refl
split-plain (String.◌∷◌ c s) h =
    let rest : is_plain s ≡ true = ground (arith, h) in
    let other : (code c == b'.') ≡ false = ground (arith, h) in
    rw other (rw (split-plain s rest) (unfold in_first in refl))

dot : (t : String) → "." ⧺ t ≡ String.◌∷◌ "." t
dot t = cons-append "." "" t ∙ ap (String.◌∷◌ ".") (nil-append t)

pub split-field : (s t : String) → is_plain s ≡ true → split_dots (s ⧺ "." ⧺ t) ≡ s ∷ split_dots t
unfolding split_dots is_plain
split-field String.[] t h = rw nil-append (rw (dot t) refl)
split-field (String.◌∷◌ c s) t h =
    let rest : is_plain s ≡ true = ground (arith, h) in
    let other : (code c == b'.') ≡ false = ground (arith, h) in
    rw cons-append (rw other (rw (split-field s t rest) (unfold in_first in refl)))

pub is_ascii-plain : (s : String) → is_plain s ≡ true → is_ascii s ≡ true
unfolding is_ascii is_plain
is_ascii-plain String.[] h = refl
is_ascii-plain (String.◌∷◌ c s) h = ground (arith, h, is_ascii-plain s)

-- A token's three fields are what it was made of.
pub three_fields :
    (a b c : String)
    → is_plain a ≡ true
    → is_plain b ≡ true
    → is_plain c ≡ true
    → split_dots ((a ⧺ "." ⧺ b) ⧺ "." ⧺ c) ≡ a ∷ b ∷ c ∷ []
three_fields a b c ha hb hc =
    ap split_dots
      (append_assoc a ("." ⧺ b) ("." ⧺ c) ∙ ap (λ t. a ⧺ t) (append_assoc "." b ("." ⧺ c)))
    ∙ split-field a (b ⧺ "." ⧺ c) ha
    ∙ ap (◌∷◌ a) (split-field b c hb ∙ ap (◌∷◌ b) (split-plain c hc))
