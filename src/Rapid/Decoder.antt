-- ===== src/Rapid/Decoder.antt =====
-- rapidyenc/decoder.go: processYenc and Transform. The decoder of the yEnc data (the C library or
-- go-yenc-simd) is an argument, and so is the CRC-32 of the bytes that were written to the hash. The
-- fields Begin, End and Name of the metadata are left out, which Transform does not read.
use nzbre_x.Prelude.{
  ℕ, zero, suc, ◌+◌, ◌-◌, Bool, true, false, List, [], ◌∷◌, ◌++◌, Option, none, some, if◌then◌else◌,
  ◌&&◌, ◌||◌, not, ◌==◌, length, take, drop,
}
use nzbre_x.Nntp.{Line, codes, cr, lf, dot, has_prefix}
use nzbre_x.Rapid.{Format, format_unknown, format_yenc, format_uu, detect_format, uu_decode}
use nzbre_x.Rapid.Fields.{ℤ, pos, eq_int, extract_int, extract_crc}

pub record Decoder : Type 0 where
  pub body : Bool
  pub begun : Bool  -- d.begin
  pub part : Bool
  pub ended : Bool  -- d.end
  pub crc : Bool
  pub format : Format
  pub state : ℕ
  pub size : ℤ
  pub end_size : ℤ
  pub actual_size : ℕ
  pub expected_crc : ℕ
  pub hashed : List ℕ

unfoldable pub reset : Decoder
reset = record {
  body = false;
  begun = false;
  part = false;
  ended = false;
  crc = false;
  format = format_unknown;
  state = 0;
  size = pos 0;
  end_size = pos 0;
  actual_size = 0;
  expected_crc = 0;
  hashed = [];
}

-- The CRC of a trailer, if it has one.
unfoldable pub with_crc : Option ℕ → Decoder → Decoder
with_crc none d = d
with_crc (some c) d = record d { expected_crc = c; crc = true }

-- The line "end" with CRLF or LF.
unfoldable pub is_end : Line → Bool
unfolding has_prefix
is_end line =
    length line == 5 && has_prefix line (codes "end" ++ cr ∷ lf ∷ [])
    || length line == 4 && has_prefix line (codes "end" ++ lf ∷ [])

-- processYenc by the format.
unfoldable pub process_as : Format → Line → Decoder → Decoder
unfolding with_crc extract_int extract_crc has_prefix is_end
process_as format_unknown line d = d
process_as format_yenc line d =
    let key = if d.part then codes " pcrc32=" else codes " crc32=" in
    if has_prefix line (codes "=ybegin ")
    then record d {
      begun = true;
      size = (extract_int line (codes " size=")).0;
      body = if (extract_int line (codes " part=")).1 then true else d.body;
    }
    else if has_prefix line (codes "=ypart ")
    then record d { part = true; body = true }
    else if has_prefix line (codes "=yend ")
    then with_crc (extract_crc line key)
        (record d { ended = true; end_size = (extract_int line (codes " size=")).0 })
    else d
process_as format_uu line d =
    if has_prefix line (codes "begin ")
    then record d { begun = true; body = true }
    else if is_end line
    then record d { ended = true; body = false }
    else d

unfoldable pub process_yenc : Line → Decoder → Decoder
unfolding process_as
process_yenc line d = process_as d.format line d

-- What the decoder of the yEnc data returns: the bytes, how many it read, which end it saw (EndNone,
-- EndControl, EndArticle), and its state.
pub data End : Type 0 where
  end_none end_control end_article : End

pub record Decoded : Type 0 where
  pub bytes : List ℕ
  pub read : ℕ
  pub end_seen : End
  pub state_after : ℕ

-- The errors of Transform.
pub data Outcome : Type 0 where
  eof short_src data_missing data_corruption crc_mismatch : Outcome

abbrev pub is_yenc : Format → Bool
is_yenc format_yenc = true
is_yenc _ = false

abbrev pub is_uu : Format → Bool
is_uu format_uu = true
is_uu _ = false

-- At the final dot.
unfoldable pub verdict : (List ℕ → ℕ) → Decoder → Outcome
verdict crc32 d =
    if not d.begun
    then data_missing
    else if not d.ended
    then (if is_uu d.format then data_corruption else data_missing)
    else if is_yenc d.format
        && ((not d.part && not (eq_int d.size d.end_size))
            || not (eq_int d.end_size (pos d.actual_size)))
    then data_corruption
    else if is_yenc d.format && d.crc && not (d.expected_crc == crc32 d.hashed)
    then crc_mismatch
    else eof

-- At the end of the source without a further line.
unfoldable pub at_end : Bool → Decoder → Outcome
at_end at_eof d =
    if at_eof
    then (if not d.begun || not d.ended
        then (if is_uu d.format && d.begun then data_corruption else data_missing)
        else eof)
    else short_src

-- Where Transform stands: at the label `loop` or in the loop over lines, the decoder, what is written to
-- dst, and nSrc. A difference below 0 is 0, as nSrc is set before it is used.
pub record Place : Type 0 where
  pub at_loop : Bool
  pub decoder : Decoder
  pub out : List ℕ
  pub n_src : ℕ

pub data Turn : Type 0 where
  stop : Outcome → Place → Turn
  again : Place → Turn

-- bytes.Index of CRLF.
unfoldable pub line_end : List ℕ → Option ℕ
line_end [] = none
line_end (c ∷ []) = none
line_end (c ∷ d ∷ src) =
    let later = line_end (d ∷ src) in
    if c == cr && d == lf then some 0 else elim later [ none ↦ none | some n ↦ some (suc n) ]

-- Bytes that are decoded: they are counted and written to the hash.
abbrev pub add_bytes : List ℕ → Decoder → Decoder
add_bytes bytes d = record d {
  actual_size = d.actual_size + length bytes;
  hashed = d.hashed ++ bytes;
}

-- Behind the yEnc data, by the end that was seen: `d` and `out` are the decoder and dst with the bytes,
-- `n` is nSrc + ns. StateCRLF is 0, StateCRLFEQ 6.
unfoldable pub behind_data : End → Decoder → List ℕ → ℕ → Turn
behind_data end_control d out n =
    again
      (record { at_loop = false; decoder = record d { body = false }; out = out; n_src = n - 2 })
behind_data end_article d out n =
    again
      (record { at_loop = false; decoder = record d { body = false }; out = out; n_src = n - 3 })
behind_data end_none d out n =
    if d.state == 6
    then stop short_src
        (record { at_loop = false; decoder = record d { state = 0 }; out = out; n_src = n - 1 })
    else stop short_src (record { at_loop = false; decoder = d; out = out; n_src = n })

-- The yEnc data at the label `loop`.
unfoldable pub data_turn : Decoded → Place → Turn
unfolding behind_data
data_turn r p =
    behind_data r.end_seen (record (add_bytes r.bytes p.decoder) { state = r.state_after })
      (p.out ++ r.bytes) (p.n_src + r.read)

-- The format behind a line, which shows it if it was not known.
unfoldable pub known_format : Format → Line → Format
known_format format_unknown line = detect_format line
known_format format_yenc line = format_yenc
known_format format_uu line = format_uu

-- Behind a header or data line, which is UUencoded data or not.
unfoldable pub behind_line : Bool → ℕ → Line → Place → Turn
behind_line false room line p = again p
behind_line true room line p = again (record p {
  decoder = add_bytes (uu_decode line) p.decoder;
  out = p.out ++ take (room - length p.out) (uu_decode line);
})

-- A line of the loop; `room` is len(dst).
unfoldable pub line_turn : ℕ → Line → Place → Turn
unfolding process_yenc known_format behind_line
line_turn room line p =
    let known = known_format p.decoder.format line in
    let d = process_yenc line (record (p.decoder) { format = known }) in
    let is_data =
      is_uu known
      && (d.body
          && not (has_prefix line (codes "begin "))
          && not (has_prefix line (codes "end"))) in
    behind_line is_data room line
      (record p { decoder = d; n_src = p.n_src + length line; at_loop = is_yenc known })

unfoldable pub transform_turn :
    (ℕ → List ℕ → ℕ → Decoded) → (List ℕ → ℕ) → ℕ → List ℕ → Bool → Place → Turn
unfolding verdict at_end line_end data_turn line_turn
transform_turn incremental crc32 room src at_eof p =
    let rest = drop p.n_src src in
    if p.at_loop && p.decoder.body && is_yenc p.decoder.format
    then data_turn (incremental (room - length p.out) rest p.decoder.state) p
    else if has_prefix rest (dot ∷ cr ∷ lf ∷ [])
    then stop (verdict crc32 p.decoder) (record p { n_src = p.n_src + 3 })
    else elim (line_end rest) [
      | none ↦ stop (at_end at_eof p.decoder) p
      | some n ↦ line_turn room (take (n + 2) rest) p
    ]

-- Transform; `none` is that the fuel, a bound on the turns, ran out.
unfoldable pub transform_loop :
    (ℕ → List ℕ → ℕ → Decoded)
    → (List ℕ → ℕ)
    → ℕ
    → List ℕ
    → Bool
    → ℕ
    → Place
    → Option (Outcome × Place)
unfolding transform_turn
transform_loop incremental crc32 room src at_eof zero p = none
transform_loop incremental crc32 room src at_eof (suc n) p =
    elim (transform_turn incremental crc32 room src at_eof p) [
      | stop o q ↦ some (o, q)
      | again q ↦ transform_loop incremental crc32 room src at_eof n q
    ]

abbrev pub begin_transform : Decoder → Place
begin_transform d = record { at_loop = true; decoder = d; out = []; n_src = 0 }
