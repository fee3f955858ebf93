-- ===== src/Auth/Encoding.antt =====
-- The texts of auth.py: base64 padding, the fields of a token, and the comparison of signatures.
use Prim.Native.Char.{Char, code}
use hermes_a2a_v.Prelude.{
  ℕ, zero, suc, ◌-◌, ◌%◌, String, Bool, true, ◌&&◌, Option, none, some, List, [], ◌∷◌, ltb, ◌==◌,
  str_eq, if◌then◌else◌, Result, ok, raise,
}
use hermes_a2a_v.Text.{◌⧺◌, str_len}

unfoldable pub unpadded : Char → String → String
unpadded c String.[] = if code c == b'=' then String.[] else String.◌∷◌ c String.[]
unpadded c (String.◌∷◌ d r) = String.◌∷◌ c (String.◌∷◌ d r)

-- `s.rstrip("=")`
unfoldable pub rstrip_padding : String → String
unfolding unpadded
rstrip_padding String.[] = String.[]
rstrip_padding (String.◌∷◌ c s) = unpadded c (rstrip_padding s)

-- `"=" * n`
unfoldable pub padding : ℕ → String
padding zero = ""
padding (suc n) = String.◌∷◌ "=" (padding n)

unfoldable pub pad : String → String
unfolding padding
pad s = let n = 4 - str_len s % 4 in if n == 4 then s else s ⧺ padding n

-- The first field gets another character in front.
unfoldable pub in_first : Char → List String → List String
in_first c [] = String.◌∷◌ c String.[] ∷ []
in_first c (x ∷ xs) = String.◌∷◌ c x ∷ xs

-- `s.split(".")`
unfoldable pub split_dots : String → List String
unfolding in_first
split_dots String.[] = "" ∷ []
split_dots (String.◌∷◌ c s) =
    let rest = split_dots s in if code c == b'.' then "" ∷ rest else in_first c rest

unfoldable pub is_ascii : String → Bool
is_ascii String.[] = true
is_ascii (String.◌∷◌ c s) = ltb (code c) 128 && is_ascii s

-- `hmac.compare_digest` on texts
unfoldable pub compare_digest : String → String → Result String Bool
unfolding is_ascii
compare_digest a b =
    if is_ascii a && is_ascii b
    then ok (str_eq a b)
    else raise "comparing strings with non-ASCII characters is not supported"

-- `parts`, if there are three
unfoldable pub three_parts : List String → Option (String × String × String)
three_parts (a ∷ b ∷ c ∷ []) = some (a, b, c)
three_parts _ = none
