-- ===== src/Examples/Rapid.antt =====
-- rapidyenc at concrete inputs.
use nzbre_x.Prelude.{
  ℕ, ◌+◌, ◌-◌, ◌≡◌, refl, true, false, List, [], ◌∷◌, ◌++◌, some, arith, length, ◌==◌, ◌||◌, not,
}
use nzbre_x.Nntp.{codes, cr, lf, has_prefix}
use nzbre_x.Rapid.{uu_line, uu_lines, detect_format, format_yenc, format_uu}
use nzbre_x.Rapid.Files.{uu_decode_all, uu_decode-lines}
use nzbre_x.Rapid.Fields.{pos, negsuc, eq_int, extract_int, extract_crc}
use nzbre_x.Rapid.Decoder.{
  reset, Decoded, end_control, end_none, Outcome, eof, short_src, Place, begin_transform,
  transform_loop,
}
use nzbre_x.Rapid.Ends.{transform_ends}
use nzbre_x.Rapid.Trailers.{header_lines}
use nzbre_x.Rapid.Verdicts.{fresh, called, FitsTrailer, transform_accepts}

uu_line_test : uu_line (codes "Cat") ≡ codes "#0V%T" ++ cr ∷ lf ∷ []
unfolding uu_line
uu_line_test = refl

uu_decode-lines_example :
    (uu_decode_all (uu_lines (codes "Cats")) ≡ codes "Cats")
    × ((chunk : List ℕ) → length chunk ≡ 45 → detect_format (uu_line chunk) ≡ format_uu)
uu_decode-lines_example = uu_decode-lines (codes "Cats") (omega arith)

extract_test :
    (extract_int (codes "=ypart begin=1 end=-20") (codes " end=") ≡ (negsuc 19, false))
    × (extract_crc (codes "=yend size=1 crc32=Ff") (codes " crc32=") ≡ some 255)
unfolding extract_int extract_crc has_prefix
extract_test = (refl, refl)

-- A decoder that takes one byte of data and the start of the trailer behind it.
abbrev one_byte : ℕ → List ℕ → ℕ → Decoded
one_byte room [] state = record { bytes = []; read = 0; end_seen = end_none; state_after = 0 }
one_byte room (c ∷ src) state = record {
  bytes = (c - 42) ∷ [];
  read = 5;
  end_seen = end_control;
  state_after = 0;
}

abbrev crlf : List ℕ
crlf = cr ∷ lf ∷ []

abbrev source : List ℕ
source =
    codes "=ybegin line=128 size=1 name=a"
    ++ crlf
    ++ codes "k"
    ++ crlf
    ++ codes "=yend size=1 crc32=00000001"
    ++ crlf
    ++ codes "."
    ++ crlf

-- The length stands in for the CRC.
abbrev place : Place
place = record {
  at_loop = true;
  decoder = record {
    body = false;
    begun = true;
    part = false;
    ended = true;
    crc = true;
    format = format_yenc;
    state = 0;
    size = pos 1;
    end_size = pos 1;
    actual_size = 1;
    expected_crc = 1;
    hashed = 65 ∷ [];
  };
  out = 65 ∷ [];
  n_src = 67;
}

transform_test :
    transform_loop one_byte length 99 source false 9 (begin_transform reset) ≡ some (eof, place)
unfolding transform_loop reset has_prefix detect_format eq_int
transform_test = refl

-- An article of a part in two calls: the first gets its first line.
abbrev first_line : List ℕ
first_line = codes "=ybegin part=1 line=128 size=9 name=a" ++ crlf

abbrev later_lines : List ℕ
later_lines =
    codes "=ypart begin=1 end=1"
    ++ crlf
    ++ codes "k"
    ++ crlf
    ++ codes "=yend size=1 pcrc32=00000001"
    ++ crlf
    ++ codes "."
    ++ crlf

abbrev first_place : Place
first_place = record {
  at_loop = true;
  decoder = record reset { begun = true; format = format_yenc; size = pos 9 };
  out = [];
  n_src = 39;
}

abbrev later_place : Place
later_place = record {
  at_loop = true;
  decoder = record (place.decoder) { part = true; size = pos 9 };
  out = 65 ∷ [];
  n_src = 58;
}

transform_accepts_example :
    (true ≡ true)
    × (true ≡ true)
    × (eq_int (pos 1) (pos 1) ≡ true)
    × ((true || eq_int (pos 9) (pos 1)) ≡ true)
    × ((not true || 1 == length later_place.out) ≡ true)
    × FitsTrailer length later_place.out (
        header_lines one_byte length 99 first_line 9 (begin_transform reset)
        ++ header_lines one_byte length 99 later_lines 9 (begin_transform first_place.decoder))
unfolding transform_loop reset has_prefix detect_format eq_int
transform_accepts_example =
    transform_accepts one_byte length 99 later_lines 9 later_place first_place.decoder [] _
      (called 99 first_line 9 short_src first_place reset [] [] fresh refl) refl refl

transform_ends_example :
    (r : Outcome × Place) × (transform_loop one_byte length 99 source true
        (length source + 5)
        (begin_transform reset)
      ≡ some r)
transform_ends_example = transform_ends one_byte length 99 source true reset
