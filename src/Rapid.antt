-- ===== src/Rapid.antt =====
-- rapidyenc/uuencode.go and rapidyenc/decoder.go: UUencoded lines, the detection of the format, and
-- what is read from a yEnc header line. A byte is a number below 256; the operands of each `|` of the
-- source have no bit in common, so it is a sum.
pub mod Lines
pub mod Files
pub mod Fields
pub mod Decoder
pub mod Trailers
pub mod Written
pub mod Verdicts
pub mod Ends
use nzbre_x.Prelude.{
  ℕ, zero, suc, ◌+◌, ◌-◌, ◌*◌, ◌/◌, ◌%◌, Bool, true, false, List, [], ◌∷◌, ◌++◌, Option, none, some,
  if◌then◌else◌, ◌&&◌, ◌||◌, not, ◌==◌, ltb, leb, length, take, drop, get_or,
}
use nzbre_x.Nntp.{Line, codes, cr, lf, has_prefix}

-- A group of three bytes as four characters.
unfoldable pub uu_group : ℕ → ℕ → ℕ → List ℕ
uu_group a b c =
    (a / 4 % 64 + 32)
    ∷ ((a * 16 % 256 + b / 16 % 16) % 64 + 32)
    ∷ ((b * 4 % 256 + c / 64 % 4) % 64 + 32)
    ∷ (c % 64 + 32)
    ∷ []

-- The loop over a chunk; missing bytes of the last group are 0.
unfoldable pub uu_groups : List ℕ → List ℕ
unfolding uu_group
uu_groups [] = []
uu_groups (a ∷ []) = uu_group a 0 0
uu_groups (a ∷ b ∷ []) = uu_group a b 0
uu_groups (a ∷ b ∷ c ∷ chunk) = uu_group a b c ++ uu_groups chunk

-- The line of a chunk, with its CRLF.
unfoldable pub uu_line : List ℕ → Line
unfolding uu_groups
uu_line chunk = (length chunk + 32) % 256 ∷ (uu_groups chunk ++ cr ∷ lf ∷ [])

-- The lines of UUEncode between its header and its footer; each chunk takes a byte at least, so the
-- number of bytes is enough fuel.
unfoldable pub uu_lines_on_fuel : ℕ → List ℕ → List Line
uu_lines_on_fuel zero src = []
uu_lines_on_fuel (suc n) [] = []
uu_lines_on_fuel (suc n) (b ∷ src) =
    uu_line (take 45 (b ∷ src)) ∷ uu_lines_on_fuel n (drop 45 (b ∷ src))

unfoldable pub uu_lines : List ℕ → List Line
unfolding uu_lines_on_fuel
uu_lines src = uu_lines_on_fuel (length src) src

-- The bytes without a CRLF at the end.
unfoldable pub strip_crlf : Line → Line
strip_crlf [] = []
strip_crlf (c ∷ []) = c ∷ []
strip_crlf (c ∷ d ∷ []) = if c == cr && d == lf then [] else c ∷ d ∷ []
strip_crlf (c ∷ d ∷ e ∷ line) = c ∷ strip_crlf (d ∷ e ∷ line)

-- `(c - 0x20) & 0x3F` on a uint8.
abbrev pub six_bits : ℕ → ℕ
six_bits c = (c + 256 - 32) % 256 % 64

-- The bytes of four characters, appended.
unfoldable pub uu_bytes : ℕ → ℕ → ℕ → ℕ → List ℕ
uu_bytes c d e f =
    (six_bits c * 4 % 256 + six_bits d / 16)
    ∷ (six_bits d * 16 % 256 + six_bits e / 4)
    ∷ (six_bits e * 64 % 256 + six_bits f)
    ∷ []

-- The loop of UUdecode over the characters that are left: encLen, and what is decoded so far. Where
-- encLen falls below 0 the loop ends, and as many bytes are cut off.
unfoldable pub uu_loop : ℕ → List ℕ → List ℕ → List ℕ
unfolding uu_bytes
uu_loop enc_len (c ∷ d ∷ e ∷ f ∷ line) decoded =
    let decoded' = decoded ++ uu_bytes c d e f in
    let more = uu_loop (enc_len - 3) line decoded' in
    if enc_len == 0
    then decoded
    else if leb 3 enc_len
    then more
    else take (length decoded' - (3 - enc_len)) decoded'
uu_loop enc_len _ decoded = decoded

-- UUdecode, which never fails; nil is the empty slice to its caller.
unfoldable pub uu_decode : Line → List ℕ
unfolding uu_loop
uu_decode line = elim (strip_crlf line) [ [] ↦ [] | c ∷ rest ↦ uu_loop (six_bits c) rest [] ]

pub data Format : Type 0 where
  format_unknown format_yenc format_uu : Format

abbrev pub is_eol : ℕ → Bool
is_eol c = c == lf || c == cr

abbrev pub is_octal : ℕ → Bool
is_octal c = leb b'0' c && leb c b'7'

unfoldable pub detect_format : Line → Format
detect_format line =
    let n = length line in
    if has_prefix line (codes "=ybegin ")
    then format_yenc
    else if leb 1 n
        && get_or line 0 0 == b'M'
        && (n == 63 && is_eol (get_or line 62 0) || n == 62 && is_eol (get_or line 61 0))
    then format_uu
    else if has_prefix line (codes "begin ")
        && leb 9 n
        && (is_octal (get_or line 6 0) && is_octal (get_or line 7 0) && is_octal (get_or line 8 0))
        && (leb 10 n && get_or line 9 0 == 32)
    then format_uu
    else format_unknown
