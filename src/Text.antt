-- ===== src/Text.antt =====
-- The methods of Python's `str` that the gateway calls, over the characters of a native text.
pub mod Order
pub mod Prefix
pub mod Strip
use Prim.Native.Char.{Char, code}
pub use Prim.Native.String.{◌++◌ as ◌⧺◌}
use hermes_a2a_v.Prelude.{
  ℕ, zero, suc, ◌-◌, ◌/◌, ◌%◌, ◌≡◌, refl, Bool, true, false, ◌&&◌, ◌||◌, List, [], ◌∷◌, String, leb,
  ◌==◌, if◌then◌else◌,
}

-- `len(s)`
abbrev pub str_len : String → ℕ
str_len String.[] = 0
str_len (String.◌∷◌ c s) = suc (str_len s)

-- `s[n:]`
abbrev pub drop_chars : ℕ → String → String
drop_chars zero s = s
drop_chars (suc n) String.[] = String.[]
drop_chars (suc n) (String.◌∷◌ c s) = drop_chars n s

-- `s[:n]`
abbrev pub take_chars : ℕ → String → String
take_chars zero s = String.[]
take_chars (suc n) String.[] = String.[]
take_chars (suc n) (String.◌∷◌ c s) = String.◌∷◌ c (take_chars n s)

-- `s.startswith(prefix)`
unfoldable pub starts_with : String → String → Bool
starts_with s String.[] = true
starts_with String.[] (String.◌∷◌ p ps) = false
starts_with (String.◌∷◌ c s) (String.◌∷◌ p ps) = (code c == code p) && starts_with s ps

-- `skip` characters of an occurrence are still to be dropped
remove_from : ℕ → String → String → String
unfolding starts_with
remove_from skip old String.[] = String.[]
remove_from (suc skip) old (String.◌∷◌ c s) = remove_from skip old s
remove_from zero old (String.◌∷◌ c s) =
    let inside = remove_from (str_len old - 1) old s in
    let outside = String.◌∷◌ c (remove_from zero old s) in
    if starts_with (String.◌∷◌ c s) old then inside else outside

-- `s.replace(old, "")`, for `old` not empty
unfoldable pub remove_all : String → String → String
unfolding remove_from
remove_all old s = remove_from zero old s

-- The characters that `str.strip` drops, by code point.
unfoldable pub is_space : ℕ → Bool
is_space c =
    (leb 9 c && leb c 13)
    || (leb 28 c && leb c 32)
    || c == 0x85
    || c == 0xa0
    || c == 0x1680
    || (leb 0x2000 c && leb c 0x200a)
    || c == 0x2028
    || c == 0x2029
    || c == 0x202f
    || c == 0x205f
    || c == 0x3000

-- `s.lstrip()`
unfoldable pub lstrip : String → String
unfolding is_space
lstrip String.[] = String.[]
lstrip (String.◌∷◌ c s) = let rest = lstrip s in if is_space (code c) then rest else String.◌∷◌ c s

-- `s.rstrip()`
unfoldable pub rstrip : String → String
unfolding is_space
rstrip String.[] = String.[]
rstrip (String.◌∷◌ c s) = keep c (rstrip s)
  where
    keep : Char → String → String
    keep c String.[] = if is_space (code c) then String.[] else String.◌∷◌ c String.[]
    keep c (String.◌∷◌ d r) = String.◌∷◌ c (String.◌∷◌ d r)

-- `s.strip()`
unfoldable pub strip : String → String
unfolding lstrip rstrip
strip s = rstrip (lstrip s)

-- `s.split(sep)[0]`, for a separator of one character
unfoldable pub first_field : ℕ → String → String
first_field sep String.[] = String.[]
first_field sep (String.◌∷◌ c s) =
    let rest = first_field sep s in if code c == sep then String.[] else String.◌∷◌ c rest

-- `sep.join(parts)`
unfoldable pub join : String → List String → String
join sep [] = ""
join sep (x ∷ []) = x
join sep (x ∷ y ∷ l) = x ⧺ sep ⧺ join sep (y ∷ l)

digit : ℕ → String
digit zero = "0"
digit (suc zero) = "1"
digit (suc (suc zero)) = "2"
digit (suc (suc (suc zero))) = "3"
digit (suc (suc (suc (suc zero)))) = "4"
digit (suc (suc (suc (suc (suc zero))))) = "5"
digit (suc (suc (suc (suc (suc (suc zero)))))) = "6"
digit (suc (suc (suc (suc (suc (suc (suc zero))))))) = "7"
digit (suc (suc (suc (suc (suc (suc (suc (suc zero)))))))) = "8"
digit _ = "9"

-- A number below 10 ^ fuel
decimal : ℕ → ℕ → String
unfolding digit
decimal zero n = ""
decimal (suc fuel) n =
    let higher = decimal fuel (n / 10) ⧺ digit (n % 10) in if leb n 9 then digit n else higher

-- `str(n)`, for a natural number; the fuel is more than the digits
unfoldable pub str_nat : ℕ → String
unfolding decimal
str_nat n = decimal (suc n) n

str_nat_test : str_nat 503 ≡ "503"
unfolding str_nat
str_nat_test = refl

remove_all_test : remove_all "/x" "http://a/x/b/x" ≡ "http://a/b"
unfolding remove_all
remove_all_test = refl

strip_test : strip " 10.0.0.1 \t" ≡ "10.0.0.1"
unfolding strip
strip_test = refl
