-- ===== src/Yenc/RoundTrip.antt =====
-- yenc/yenc.go: the four line decoders beside one another, at line ends, and beside an encoder.
use nzbre_x.Prelude.{
  ℕ, ◌+◌, ◌%◌, ◌<◌, Bool, true, false, ◌||◌, ◌≡◌, refl, sym, ap, ◌∙◌, List, [], ◌∷◌, ◌++◌, none,
  some, if◌then◌else◌, ◌==◌, All, arith, Bool-cases, inl, inr,
}
use nzbre_x.Yenc.{esc, decode_line, decode_line_new, decode_line_simd1, decode_line_simd2}
use nzbre_x.Yenc.Stream.{
  stream, stream-append, stream-nil, stream-awaited, stream-escape, stream-plain, complete,
  or_empty, decode_line_new-stream,
}
use nzbre_x.Yenc.Blocks.{decode_line_simd1-stream}
use nzbre_x.Yenc.InPlace.{decode_line-stream, decode_line_simd2-stream}

complete-if : (r : Bool × List ℕ) → complete [] r ≡ (if r.0 then none else some r.1)
complete-if (true, out) = refl
complete-if (false, out) = refl

-- On every line, DecodeLineSIMD2 (in place) returns what DecodeLineSIMD1 returns, DecodeLineNew the
-- same but for nil in place of the failure at a lone escape, and DecodeLine, when no escape is
-- awaited, decodes to the same bytes and reports the lone escape as awaited.
pub decoders_agree :
    (line : List ℕ)
    → (decode_line_simd2 line ≡ decode_line_simd1 line)
      × (decode_line_new line ≡ or_empty (decode_line_simd1 line))
      × (decode_line_simd1 line
          ≡ (if (decode_line false line).0 then none else some (decode_line false line).1))
decoders_agree line = (
  decode_line_simd2-stream line ∙ sym (decode_line_simd1-stream line),
  decode_line_new-stream line ∙ ap or_empty (sym (decode_line_simd1-stream line)),
  rw (decode_line-stream false line)
      (decode_line_simd1-stream line ∙ complete-if (stream false line)),
)

-- DecodeLine decodes a text cut at any place, between an escape and its byte too, as it decodes
-- the whole: the state after the first piece is all that the second needs.
decode_line-append :
    (a : Bool) (xs ys : List ℕ)
    → decode_line a (xs ++ ys) ≡ (
      (decode_line (decode_line a xs).0 ys).0,
      (decode_line a xs).1 ++ (decode_line (decode_line a xs).0 ys).1,
    )
decode_line-append a xs ys =
    rw (decode_line-stream a xs, decode_line-stream _ ys, decode_line-stream a (xs ++ ys))
      (stream-append a xs ys)

-- The yEnc encoding of the format's definition: each byte is shifted by 42, and an escape byte or
-- any other byte that an encoder holds to be critical is written as an escape and the byte shifted
-- by 64 more.
unfoldable pub encode : (ℕ → Bool) → List ℕ → List ℕ
encode critical [] = []
encode critical (b ∷ bs) =
    let o = (b + 42) % 256 in
    let rest = encode critical bs in
    if critical o || o == esc then esc ∷ (o + 64) % 256 ∷ rest else o ∷ rest

stream-encode :
    (critical : ℕ → Bool) (bs : List ℕ)
    → All (λ b. b < 256) bs
    → stream false (encode critical bs) ≡ (false, bs)
unfolding encode
stream-encode critical [] h = stream-nil false
stream-encode critical (b ∷ bs) h =
    let o = (b + 42) % 256 in
    elim (Bool-cases (critical o || o == esc)) [
      | inl e ↦
          rw
            (
              e,
              stream-escape esc ((o + 64) % 256 ∷ encode critical bs) refl,
              stream-awaited,
              stream-encode critical bs h.1,
            )
            (ap (λ c. (false, c ∷ bs)) (omega arith))
      | inr e ↦
          rw
            (
              e,
              stream-plain o (encode critical bs) (ground (arith, e)),
              stream-encode critical bs h.1,
            )
            (ap (λ c. (false, c ∷ bs)) (omega arith))
    ]

-- Whatever bytes an encoder escapes besides the escape itself, each decoder gets the encoded bytes
-- back.
pub decode-encode :
    (critical : ℕ → Bool) (bs : List ℕ)
    → All (λ b. b < 256) bs
    → (decode_line false (encode critical bs) ≡ (false, bs))
      × (decode_line_new (encode critical bs) ≡ bs)
      × (decode_line_simd1 (encode critical bs) ≡ some bs)
      × (decode_line_simd2 (encode critical bs) ≡ some bs)
decode-encode critical bs h =
    let e = stream-encode critical bs h in
    (
      decode_line-stream false _ ∙ e,
      decode_line_new-stream _ ∙ ap (λ r. or_empty (complete [] r)) e,
      decode_line_simd1-stream _ ∙ ap (complete []) e,
      decode_line_simd2-stream _ ∙ ap (complete []) e,
    )
