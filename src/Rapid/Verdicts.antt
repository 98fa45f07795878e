-- ===== src/Rapid/Verdicts.antt =====
-- rapidyenc/decoder.go: what it means that Transform ends without an error.
use mathlib.Core.List.{append-nil}
use mathlib.Core.Path.{subst}
use nzbre_x.Prelude.{
  ℕ, Bool, true, false, List, [], ◌∷◌, ◌++◌, some, ◌≡◌, refl, sym, ap, ◌∙◌, ◌||◌, not, ◌==◌, length,
  arith, Option-cases, inl, inr,
}
use nzbre_x.Nntp.{Line, codes}
use nzbre_x.Rapid.Fields.{pos, eq_int, extract_int}
use nzbre_x.Rapid.Decoder.{
  Decoder, reset, Decoded, Outcome, eof, is_yenc, is_uu, Place, transform_loop, begin_transform,
}
use nzbre_x.Rapid.Trailers.{
  header_lines, Heads, no_heads, see, seen, trailer_crc, TrailerFields, has_trailer, Traced,
  loop-Traced,
}
use nzbre_x.Rapid.Written.{Inv, accepted, is_eof, not_uu, transform_loop-accepted}

-- The decoder after any calls of Transform from Reset on, each on a source that could go on, the bytes that
-- they wrote to dst, and the header lines that they read.
pub data Reached (incremental : ℕ → List ℕ → ℕ → Decoded) (crc32 : List ℕ → ℕ)
    : Decoder → List ℕ → List Line → Type 0 where
  fresh : Reached incremental crc32 reset [] []
  called :
      (room : ℕ) (src : List ℕ) (n : ℕ) (o : Outcome) (q : Place) (d : Decoder) (out : List ℕ)
      (lines : List Line)
      → Reached incremental crc32 d out lines
      → transform_loop incremental crc32 room src false n (begin_transform d) ≡ some (o, q)
      → Reached incremental crc32 q.decoder
          (out ++ q.out)
          (lines ++ header_lines incremental crc32 room src n (begin_transform d))

-- The data has the size of the last trailer among the lines, and its CRC if it has one.
abbrev pub FitsTrailer : (List ℕ → ℕ) → List ℕ → List Line → Type 0
FitsTrailer crc32 out lines =
    (part : Bool) × (t : Line) × ((seen no_heads lines).trailer ≡ some (part, t))
    × (eq_int (extract_int t (codes " size=")).0 (pos (length out)) ≡ true)
    × ((c : ℕ) → trailer_crc part t ≡ some c → c ≡ crc32 out)

-- What the decoder checked was that of the trailer.
trailer_fits :
    (crc32 : List ℕ → ℕ) (out : List ℕ) (lines : List Line) (d : Decoder)
    → Traced (seen no_heads lines) d
    → is_uu d.format ≡ false
    → d.ended ≡ true
    → eq_int d.end_size (pos (length out)) ≡ true
    → (not d.crc || d.expected_crc == crc32 out) ≡ true
    → FitsTrailer crc32 out lines
trailer_fits crc32 out lines d v u ended size crc =
    let (part, has, fields) = v.1 u in
    elim (Option-cases (seen no_heads lines).trailer) [
      | inl e ↦ absurd (cc (has, ended, ap has_trailer e))
      | inr ((with_part, t), e) ↦
          let (same_size, same_crc) =
            subst (λ t'. TrailerFields t' d.end_size d.crc d.expected_crc) e fields in
          (
            with_part,
            t,
            e,
            ap (λ z. eq_int z (pos (length out))) (sym same_size) ∙ size,
            λ c k.
                let (set, same) = same_crc c k in
                let checked : (not true || c == crc32 out) ≡ true =
                  ap (λ b. not b || c == crc32 out) (sym set)
                  ∙ ap (λ x. not d.crc || x == crc32 out) (sym same)
                  ∙ crc in
                ground (arith, checked),
          )
    ]

seen-append : (h : Heads) (xs ys : List Line) → seen h (xs ++ ys) ≡ seen (seen h xs) ys
seen-append h [] ys = refl
seen-append h (x ∷ xs) ys = seen-append (see x h) xs ys

-- What the calls keep.
abbrev Kept : Decoder → List ℕ → List Line → Type 0
Kept d out lines = Inv out (begin_transform d) × Traced (seen no_heads lines) d

called-Kept :
    (incremental : ℕ → List ℕ → ℕ → Decoded) (crc32 : List ℕ → ℕ) (room : ℕ) (src : List ℕ) (n : ℕ)
    (o : Outcome) (q : Place) (d : Decoder) (out : List ℕ) (lines : List Line)
    → Kept d out lines
    → transform_loop incremental crc32 room src false n (begin_transform d) ≡ some (o, q)
    → Kept q.decoder
        (out ++ q.out)
        (lines ++ header_lines incremental crc32 room src n (begin_transform d))
      × (is_eof o ≡ true → accepted crc32 q.decoder ≡ true)
called-Kept incremental crc32 room src n o q d out lines (v, w) e =
    let now = header_lines incremental crc32 room src n (begin_transform d) in
    let (u, a) =
      transform_loop-accepted incremental crc32 out room src n (begin_transform d) o q v e in
    let traced =
      loop-Traced incremental crc32 room src n (seen no_heads lines) (begin_transform d) o q w e in
    (
      (
        record { counted = u.counted; written = λ k. append-nil (out ++ q.out) ∙ u.written k },
        subst (λ h. Traced h q.decoder) (sym (seen-append no_heads lines now)) traced,
      ),
      a,
    )

Reached-Kept :
    (incremental : ℕ → List ℕ → ℕ → Decoded) (crc32 : List ℕ → ℕ) (d : Decoder) (out : List ℕ)
    (lines : List Line)
    → Reached incremental crc32 d out lines
    → Kept d out lines
unfolding reset
Reached-Kept incremental crc32 d out lines fresh =
    (record { counted = refl; written = λ u. refl }, (refl, λ u. (refl, refl, tt)))
Reached-Kept incremental crc32 d out lines (called room src n o q d' out' lines' r e) =
    (called-Kept incremental crc32 room src n o q d' out' lines'
      (Reached-Kept incremental crc32 d' out' lines' r) e).0

-- If Transform ends without an error on a source that could go on, that is at the final dot, after any such
-- calls from Reset on, and the data was yEnc, then whatever the decoder of the data does: the header and the
-- trailer were there, and from the header for a single part the size of the trailer. Among the header lines
-- that the calls read there is a trailer "=yend", and the last one gives in size= the number of the bytes
-- that the calls wrote to dst; if it has a CRC, in pcrc32= behind a line "=ypart", else in crc32=, that is
-- the CRC of these bytes, and so is a CRC that the decoder has from an earlier trailer.
pub transform_accepts :
    (incremental : ℕ → List ℕ → ℕ → Decoded) (crc32 : List ℕ → ℕ) (room : ℕ) (src : List ℕ) (n : ℕ)
    (q : Place) (d : Decoder) (before : List ℕ) (lines : List Line)
    → Reached incremental crc32 d before lines
    → transform_loop incremental crc32 room src false n (begin_transform d) ≡ some (eof, q)
    → is_yenc q.decoder.format ≡ true
    → (q.decoder.begun ≡ true)
      × (q.decoder.ended ≡ true)
      × (eq_int q.decoder.end_size (pos (length (before ++ q.out))) ≡ true)
      × ((q.decoder.part || eq_int q.decoder.size q.decoder.end_size) ≡ true)
      × ((not q.decoder.crc || q.decoder.expected_crc == crc32 (before ++ q.out)) ≡ true)
      × FitsTrailer crc32
          (before ++ q.out)
          (lines ++ header_lines incremental crc32 room src n (begin_transform d))
transform_accepts incremental crc32 room src n q d before lines r e y =
    let ((v, w), accept) =
      called-Kept incremental crc32 room src n eof q d before lines
        (Reached-Kept incremental crc32 d before lines r) e in
    let a = accept refl in
    let out = before ++ q.out in
    let all = lines ++ header_lines incremental crc32 room src n (begin_transform d) in
    let same : out ≡ q.decoder.hashed =
      sym (append-nil out) ∙ v.written (not_uu q.decoder.format y) in
    let count : q.decoder.actual_size ≡ length out = v.counted ∙ ap length (sym same) in
    let crc : (not q.decoder.crc || q.decoder.expected_crc == crc32 out) ≡ true =
      rw same (ground (arith, a, y)) in
    let size : eq_int q.decoder.end_size (pos (length out)) ≡ true =
      rw (sym count) (ground (arith, a, y)) in
    let ended : q.decoder.ended ≡ true = ground (arith, a, y) in
    (
      ground (arith, a, y),
      ended,
      size,
      ground (arith, a, y),
      crc,
      trailer_fits crc32 out all q.decoder w (not_uu q.decoder.format y) ended size crc,
    )
