-- ===== src/Config/Text.antt =====
-- The functions of the standard library on texts that src/config/resolve.rs calls.
use Prim.Native.Char.{code}
use Prim.Native.String.{String, slice, ◌++◌ as append}
use kiss_tnc_bridge.Prelude.{
  ℕ, zero, suc, ◌+◌, ◌-◌, ◌*◌, ◌/◌, ◌%◌, Bool, true, false, ◌&&◌, ◌||◌, ◌==◌, List, [], ◌∷◌, Option,
  none, some, leb, ltb, if◌then◌else◌,
}

-- A character is given by its number.
unfoldable pub is_digit : ℕ → Bool
is_digit c = leb 48 c && leb c 57

unfoldable pub is_lowercase : ℕ → Bool
is_lowercase c = leb 97 c && leb c 122

-- `char::is_whitespace`, the Unicode property White_Space.
unfoldable pub is_whitespace : ℕ → Bool
is_whitespace c =
    (leb 9 c && leb c 13)
    || c == 32
    || c == 0x85
    || c == 0xA0
    || c == 0x1680
    || (leb 0x2000 c && leb c 0x200A)
    || c == 0x2028
    || c == 0x2029
    || c == 0x202F
    || c == 0x205F
    || c == 0x3000

unfoldable pub is_empty : String → Bool
is_empty String.[] = true
is_empty (String.◌∷◌ c s) = false

unfoldable pub all_chars : (ℕ → Bool) → String → Bool
all_chars p String.[] = true
all_chars p (String.◌∷◌ c s) = p (code c) && all_chars p s

-- `contains(c)`
unfoldable pub has_char : ℕ → String → Bool
has_char k String.[] = false
has_char k (String.◌∷◌ c s) = code c == k || has_char k s

unfoldable pub trim_start : String → String
unfolding is_whitespace
trim_start String.[] = String.[]
trim_start (String.◌∷◌ c s) =
    let rest = trim_start s in if is_whitespace (code c) then rest else String.◌∷◌ c s

unfoldable pub trim_end : String → String
unfolding is_whitespace is_empty
trim_end String.[] = String.[]
trim_end (String.◌∷◌ c s) =
    let rest = trim_end s in
    if is_whitespace (code c) && is_empty rest then String.[] else String.◌∷◌ c rest

unfoldable pub trim : String → String
unfolding trim_start trim_end
trim s = trim_end (trim_start s)

-- `split(c)`: one part more than there are separators.
abbrev pub in_front : String → List String → List String
in_front s [] = s ∷ []
in_front s (p ∷ ps) = append s p ∷ ps

unfoldable pub split : ℕ → String → List String
split k String.[] = "" ∷ []
split k (String.◌∷◌ c s) =
    let rest = split k s in
    if code c == k then "" ∷ rest else in_front (String.◌∷◌ c String.[]) rest

-- `rsplit_once(c)`
unfoldable pub rsplit_once : ℕ → String → Option (String × String)
rsplit_once k String.[] = none
rsplit_once k (String.◌∷◌ c s) = elim (rsplit_once k s) [
  | some (a, b) ↦ some (String.◌∷◌ c a, b)
  | none ↦ if code c == k then some ("", s) else none
]

-- `split_at` the first character that is not a digit.
unfoldable pub split_digits : String → String × String
unfolding is_digit
split_digits String.[] = ("", "")
split_digits (String.◌∷◌ c s) =
    let rest = split_digits s in
    if is_digit (code c) then (String.◌∷◌ c rest.0, rest.1) else ("", String.◌∷◌ c s)

-- `char::to_digit`, for radix 10 and 16.
unfoldable pub digit_value : ℕ → ℕ → Option ℕ
unfolding is_digit is_lowercase
digit_value radix c =
    let value =
      if is_digit c
      then c - 48
      else if is_lowercase c
      then c - 87
      else if leb 65 c && leb c 90
      then c - 55
      else radix in
    if ltb value radix then some value else none

unfoldable pub digits_value : ℕ → ℕ → String → Option ℕ
unfolding digit_value
digits_value radix sofar String.[] = some sofar
digits_value radix sofar (String.◌∷◌ c s) = elim (digit_value radix (code c)) [
  | some d ↦ digits_value radix (sofar * radix + d) s
  | none ↦ none
]

-- The digits behind a sign, at least one.
unfoldable pub unsigned : ℕ → String → Option ℕ
unfolding digits_value
unsigned radix String.[] = none
unsigned radix (String.◌∷◌ c s) = digits_value radix 0 (String.◌∷◌ c s)

unfoldable pub unsign : String → String
unsign String.[] = String.[]
unsign (String.◌∷◌ c s) = if code c == 43 then s else String.◌∷◌ c s

-- `from_str_radix` and, with radix 10, `parse`, of an unsigned integer below `limit`: a leading plus
-- is accepted.
unfoldable pub parse_unsigned : ℕ → ℕ → String → Option ℕ
unfolding unsigned unsign
parse_unsigned radix limit s = elim (unsigned radix (unsign s)) [
  | some n ↦ if ltb n limit then some n else none
  | none ↦ none
]

-- The digit of a number below 16.
unfoldable pub hex_digit : ℕ → String
hex_digit d = slice "0123456789ABCDEF" d (d + 1)

-- `{:02X}`, of a byte.
unfoldable pub show_byte : ℕ → String
unfolding hex_digit
show_byte b = append (hex_digit (b / 16)) (hex_digit (b % 16))

-- Decimal digits; the fuel is at least their number.
unfoldable pub show_digits : ℕ → ℕ → String
unfolding hex_digit
show_digits zero n = ""
show_digits (suc fuel) n =
    let more = show_digits fuel (n / 10) in
    append (if ltb n 10 then "" else more) (hex_digit (n % 10))

unfoldable pub show_number : ℕ → String
unfolding show_digits
show_number n = show_digits (n + 1) n
