-- ===== src/Yenc.antt =====
-- yenc/yenc.go: the line decoders of the pure Go yEnc decoder. A byte is a number below 256, and a
-- line is a list of bytes; a slice that is written in place is a list with `set` at an index.
pub mod Lists
pub mod Stream
pub mod Blocks
pub mod InPlace
pub mod RoundTrip
use nzbre_x.Prelude.{
  ℕ, zero, suc, ◌+◌, ◌-◌, ◌%◌, Bool, true, false, List, [], ◌∷◌, ◌++◌, Option, none, some,
  if◌then◌else◌, ltb, leb, ◌&&◌, ◌==◌, length, get_or, take,
}

-- `(b - 42) & 255` and `(b - 42 - 64) & 255` on a uint8.
abbrev pub sub42 : ℕ → ℕ
sub42 b = (b + 256 - 42) % 256

abbrev pub sub106 : ℕ → ℕ
sub106 b = (sub42 b + 256 - 64) % 256

abbrev pub esc : ℕ
esc = b'='

abbrev pub set {ℓ} : {A : Type ℓ} → List A → ℕ → A → List A
set [] i v = []
set (x ∷ xs) zero v = v ∷ xs
set (x ∷ xs) (suc i) v = x ∷ set xs i v

-- DecodeLineNew: the loop over the bytes that are left, with what is decoded so far. A lone escape
-- at the end returns nil, which is the empty slice to its caller.
decode_line_new_loop : List ℕ → List ℕ → List ℕ
decode_line_new_loop decoded [] = decoded
decode_line_new_loop decoded (c ∷ []) = if c == esc then [] else decoded ++ sub42 c ∷ []
decode_line_new_loop decoded (c ∷ d ∷ line) = elim (c == esc) [
  | true ↦ decode_line_new_loop (decoded ++ sub106 d ∷ []) line
  | false ↦ decode_line_new_loop (decoded ++ sub42 c ∷ []) (d ∷ line)
]

unfoldable pub decode_line_new : List ℕ → List ℕ
unfolding decode_line_new_loop
decode_line_new line = decode_line_new_loop [] line

-- DecodeLine: `awaiting` is d.awaitingSpecial, `i` and `j` the read and the write index, `n` the
-- bytes that are left. It decodes in place and returns the slice of the first `j` bytes.
decode_line_loop : ℕ → Bool → List ℕ → ℕ → ℕ → Bool × List ℕ
decode_line_loop zero awaiting line i j = (awaiting, take (length line - (i - j)) line)
decode_line_loop (suc n) awaiting line i j =
    let c = get_or line i 0 in
    elim awaiting [
      | true ↦ decode_line_loop n false (set line j (sub106 c)) (suc i) (suc j)
      | false ↦ elim (c == esc) [
        | true ↦ decode_line_loop n true line (suc i) j
        | false ↦ decode_line_loop n false (set line j (sub42 c)) (suc i) (suc j)
      ]
    ]

unfoldable pub decode_line : Bool → List ℕ → Bool × List ℕ
unfolding decode_line_loop
decode_line awaiting line = decode_line_loop (length line) awaiting line 0 0

-- The bytes up to the next escape, and the rest: the inner loop of the block decoders.
unfoldable pub block : List ℕ → List ℕ
block [] = []
block (c ∷ line) = if c == esc then [] else c ∷ block line

unfoldable pub after_block : List ℕ → List ℕ
after_block [] = []
after_block (c ∷ line) = if c == esc then c ∷ line else after_block line

pub sub42_all : List ℕ → List ℕ
sub42_all [] = []
sub42_all (c ∷ line) = sub42 c ∷ sub42_all line

-- DecodeLineSIMD1; `none` is the result `nil, false` of a lone escape at the end. The fuel is a
-- bound on the rounds of the outer loop, each of which reads at least one byte.
simd1_loop : ℕ → List ℕ → List ℕ → Option (List ℕ)
unfolding sub42_all
simd1_loop zero decoded line = none
simd1_loop (suc n) decoded [] = some decoded
simd1_loop (suc n) decoded (c ∷ line) =
    let decoded' = decoded ++ sub42_all (block (c ∷ line)) in
    elim (after_block (c ∷ line)) [
      | [] ↦ simd1_loop n decoded' []
      | _ ∷ [] ↦ none
      | _ ∷ d ∷ rest ↦ simd1_loop n (decoded' ++ sub106 d ∷ []) rest
    ]

unfoldable pub decode_line_simd1 : List ℕ → Option (List ℕ)
unfolding simd1_loop block after_block
decode_line_simd1 line = simd1_loop (suc (length line)) [] line

-- Sub42Bulk on two slices of one line: `dst` and `src` are the indices of the next byte written and
-- read, `n` the bytes that are left.
sub42_bulk : ℕ → ℕ → ℕ → List ℕ → List ℕ
sub42_bulk zero dst src line = line
sub42_bulk (suc n) dst src line =
    sub42_bulk n (suc dst) (suc src) (set line dst (sub42 (get_or line src 0)))

-- The inner loop of DecodeLineSIMD2: from `read`, with `n` bytes left, to the next escape.
next_esc : ℕ → ℕ → List ℕ → ℕ
next_esc zero read line = read
next_esc (suc n) read line = if get_or line read 0 == esc then read else next_esc n (suc read) line

-- DecodeLineSIMD2, which decodes in place; the fuel and `none` are as in DecodeLineSIMD1.
simd2_loop : ℕ → ℕ → ℕ → List ℕ → Option (List ℕ)
unfolding sub42_bulk next_esc
simd2_loop zero read write line = none
simd2_loop (suc n) read write line =
    let stop = next_esc (length line - read) read line in
    let moved = sub42_bulk (stop - read) write read line in
    let write' = write + (stop - read) in
    let escaped =
      simd2_loop n (suc (suc stop)) (suc write')
        (set moved write' (sub106 (get_or moved (suc stop) 0))) in
    let plain = simd2_loop n stop write' moved in
    if ltb read (length line)
    then (if ltb stop (length moved) && get_or moved stop 0 == esc
        then (if leb (length moved) (suc stop) then none else escaped)
        else plain)
    else some (take write line)

unfoldable pub decode_line_simd2 : List ℕ → Option (List ℕ)
unfolding simd2_loop
decode_line_simd2 line = simd2_loop (suc (length line)) 0 0 line
