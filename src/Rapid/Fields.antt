-- ===== src/Rapid/Fields.antt =====
-- rapidyenc/decoder.go: extractInt and extractCRC, which read the fields of a yEnc header line.
use nzbre_x.Prelude.{
  ℕ, zero, suc, ◌+◌, ◌-◌, ◌*◌, ◌^◌, Bool, true, false, [], ◌∷◌, Option, none, some, if◌then◌else◌,
  ◌&&◌, ◌||◌, ◌==◌, leb, length, drop, min,
}
use nzbre_x.Nntp.{Line, has_prefix}

-- An int64 with its sign.
pub data ℤ : Type 0 where
  pos negsuc : ℕ → ℤ

unfoldable pub eq_int : ℤ → ℤ → Bool
eq_int (pos m) (pos n) = m == n
eq_int (negsuc m) (negsuc n) = m == n
eq_int _ _ = false

-- The data behind the first occurrence of a text.
unfoldable pub behind : Line → Line → Option Line
behind [] sub = if has_prefix [] sub then some [] else none
behind (c ∷ data') sub =
    let later = behind data' sub in
    if has_prefix (c ∷ data') sub then some (drop (length sub) (c ∷ data')) else later

-- The data up to a NUL, a space, CR or LF.
unfoldable pub field_value : Line → Line
field_value [] = []
field_value (c ∷ data') =
    let later = field_value data' in
    if c == 0 || c == 32 || c == 13 || c == 10 then [] else c ∷ later

abbrev pub max_uint64 : ℕ
max_uint64 = 2 ^ 64 - 1

-- strconv.ParseUint: the value of decimal digits, or none if there is another byte. What no longer fits into
-- 64 bits is out of range, whatever follows.
unfoldable pub digits : ℕ → Line → Option ℕ
digits n [] = some n
digits n (c ∷ text) =
    let next = n * 10 + (c - 48) in
    let more = digits next text in
    if leb 48 c && leb c 57 then (if leb next max_uint64 then more else some next) else none

abbrev pub max_int64 : ℕ
max_int64 = 2 ^ 63 - 1

-- strconv.ParseInt(s, 10, 64): the value, which is the nearest one if it is out of range and 0 for a
-- syntax error, and whether there is an error.
unfoldable pub parse_digits : Bool → Line → ℤ × Bool
unfolding digits
parse_digits negative [] = (pos 0, true)
parse_digits negative (c ∷ text) = elim (digits 0 (c ∷ text)) [
  | none ↦ (pos 0, true)
  | some zero ↦ (pos 0, false)
  | some (suc n) ↦
      if negative
      then (if leb n max_int64 then (negsuc n, false) else (negsuc max_int64, true))
      else if leb (suc n) max_int64
      then (pos (suc n), false)
      else (pos max_int64, true)
]

unfoldable pub parse_int : Line → ℤ × Bool
unfolding parse_digits
parse_int [] = (pos 0, true)
parse_int (c ∷ text) =
    if c == b'-'
    then parse_digits true text
    else if c == b'+'
    then parse_digits false text
    else parse_digits false (c ∷ text)

unfoldable pub extract_int : Line → Line → ℤ × Bool
unfolding behind field_value parse_int
extract_int line sub = elim (behind line sub) [
  | none ↦ (pos 0, true)
  | some rest ↦ parse_int (field_value rest)
]

abbrev pub hex_digit : ℕ → Option ℕ
hex_digit c =
    if leb 48 c && leb c 57
    then some (c - 48)
    else if leb 97 c && leb c 102
    then some (c - 87)
    else if leb 65 c && leb c 70
    then some (c - 55)
    else none

unfoldable pub hex_value : ℕ → Line → Option ℕ
hex_value n [] = some n
hex_value n (c ∷ text) = elim (hex_digit c) [ none ↦ none | some d ↦ hex_value (n * 16 + d) text ]

-- The last eight bytes of the value; fewer are padded with '0' on the left, which leaves the number
-- as it is. `none` is an error, after which the caller sets nothing.
unfoldable pub extract_crc : Line → Line → Option ℕ
unfolding behind field_value hex_value
extract_crc line sub = elim (behind line sub) [
  | none ↦ none
  | some rest ↦
      let value = field_value rest in hex_value 0 (drop (length value - min 8 (length value)) value)
]
