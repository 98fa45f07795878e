-- ===== src/Examples/Yenc.antt =====
-- yenc/yenc.go at concrete inputs.
use nzbre_x.Prelude.{ℕ, ◌≡◌, refl, Bool, false, ◌||◌, List, [], ◌∷◌, some, none, arith, ◌==◌}
use nzbre_x.Yenc.{decode_line, decode_line_new, decode_line_simd1, decode_line_simd2}
use nzbre_x.Yenc.RoundTrip.{decoders_agree, encode, decode-encode}

-- NUL, LF and CR, which a yEnc encoder escapes.
abbrev critical : ℕ → Bool
critical b = b == 0 || b == 10 || b == 13

abbrev body : List ℕ
body = 19 ∷ 214 ∷ 0 ∷ 65 ∷ 224 ∷ 255 ∷ []

encode_test : encode critical body ≡ 61 ∷ 125 ∷ 61 ∷ 64 ∷ 42 ∷ 107 ∷ 61 ∷ 74 ∷ 41 ∷ []
unfolding encode
encode_test = refl

simd2_test : decode_line_simd2 (61 ∷ 125 ∷ 61 ∷ 64 ∷ 42 ∷ 107 ∷ []) ≡ some (19 ∷ 214 ∷ 0 ∷ 65 ∷ [])
unfolding decode_line_simd2
simd2_test = refl

lone_escape_test : (decode_line_simd1 (42 ∷ 61 ∷ []) ≡ none) × (decode_line_new (42 ∷ 61 ∷ []) ≡ [])
unfolding decode_line_simd1 decode_line_new
lone_escape_test = (refl, refl)

decoders_agree_example :
    decode_line_simd2 (42 ∷ 61 ∷ 74 ∷ []) ≡ decode_line_simd1 (42 ∷ 61 ∷ 74 ∷ [])
decoders_agree_example = (decoders_agree (42 ∷ 61 ∷ 74 ∷ [])).0

decode-encode_example :
    (decode_line false (encode critical body) ≡ (false, body))
    × (decode_line_new (encode critical body) ≡ body)
    × (decode_line_simd1 (encode critical body) ≡ some body)
    × (decode_line_simd2 (encode critical body) ≡ some body)
decode-encode_example = decode-encode critical body (omega arith)
