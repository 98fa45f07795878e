-- ===== src/Rapid/Lines.antt =====
-- rapidyenc: UUdecode of the lines that UUEncode writes.
use nzbre_x.Prelude.{
  ℕ, ◌+◌, ◌-◌, ◌*◌, ◌/◌, ◌%◌, ◌<◌, true, false, List, [], ◌∷◌, ◌++◌, ◌≡◌, refl, sym, ap, ◌∙◌, ◌==◌,
  leb, length, take, All, arith, length-append,
}
use mathlib.Core.List.{append_assoc, append-nil}
use nzbre_x.Nntp.{cr, lf}
use nzbre_x.Rapid.{uu_group, uu_groups, uu_line, strip_crlf, six_bits, uu_bytes, uu_loop, uu_decode}

six_bits-char : (x : ℕ) → x < 64 → six_bits (x + 32) ≡ x
six_bits-char x h = omega arith

uu_bytes-group :
    (a b c : ℕ)
    → a < 256
    → b < 256
    → c < 256
    → uu_bytes
        (a / 4 % 64 + 32)
        ((a * 16 % 256 + b / 16 % 16) % 64 + 32)
        ((b * 4 % 256 + c / 64 % 4) % 64 + 32)
        (c % 64 + 32)
      ≡ a ∷ b ∷ c ∷ []
unfolding uu_bytes
uu_bytes-group a b c h k l =
    let p = (a * 16 % 256 + b / 16 % 16) % 64 in
    let q = (b * 4 % 256 + c / 64 % 4) % 64 in
    let first : a / 4 % 64 * 4 % 256 + p / 16 ≡ a = omega arith in
    let second : p * 16 % 256 + q / 4 ≡ b = omega arith in
    let third : q * 64 % 256 + c % 64 ≡ c = omega arith in
    rw
      (
        six_bits-char (a / 4 % 64) (omega arith),
        six_bits-char ((a * 16 % 256 + b / 16 % 16) % 64) (omega arith),
        six_bits-char ((b * 4 % 256 + c / 64 % 4) % 64) (omega arith),
        six_bits-char (c % 64) (omega arith),
      )
      (cc (first, second, third))

take-append : (xs ys : List ℕ) → take (length xs) (xs ++ ys) ≡ xs
take-append [] ys = refl
take-append (x ∷ xs) ys = ap (◌∷◌ x) (take-append xs ys)

cut_off :
    (xs kept lost : List ℕ)
    → take (length (xs ++ (kept ++ lost)) - length lost) (xs ++ (kept ++ lost)) ≡ xs ++ kept
cut_off xs kept lost =
    let bytes : length ((xs ++ kept) ++ lost) - length lost ≡ length (xs ++ kept) =
      omega (arith, length-append (xs ++ kept) lost) in
    rw (sym (append_assoc xs kept lost), bytes) (take-append (xs ++ kept) lost)

-- The loop over the groups of a chunk, with the chunk's length as encLen.
uu_loop-groups :
    (chunk decoded : List ℕ)
    → All (λ b. b < 256) chunk
    → uu_loop (length chunk) (uu_groups chunk) decoded ≡ decoded ++ chunk
unfolding uu_loop uu_groups uu_group
uu_loop-groups [] decoded h = sym (append-nil decoded)
uu_loop-groups (a ∷ []) decoded h =
    rw (uu_bytes-group a 0 0 h.0 (omega arith) (omega arith))
      (cut_off decoded (a ∷ []) (0 ∷ 0 ∷ []))
uu_loop-groups (a ∷ b ∷ []) decoded h =
    rw (uu_bytes-group a b 0 h.0 h.1.0 (omega arith)) (cut_off decoded (a ∷ b ∷ []) (0 ∷ []))
uu_loop-groups (a ∷ b ∷ c ∷ chunk) decoded h =
    let some_left : (length (a ∷ b ∷ c ∷ chunk) == 0) ≡ false = ground arith in
    let enough : leb 3 (length (a ∷ b ∷ c ∷ chunk)) ≡ true = ground arith in
    let less : length (a ∷ b ∷ c ∷ chunk) - 3 ≡ length chunk = omega arith in
    rw (some_left, enough, less, uu_bytes-group a b c h.0 h.1.0 h.1.1.0)
      (uu_loop-groups chunk (decoded ++ a ∷ b ∷ c ∷ []) h.1.1.1
        ∙ append_assoc decoded (a ∷ b ∷ c ∷ []) chunk)

strip_crlf-plain : (c : ℕ) (line : List ℕ) → strip_crlf (c ∷ (line ++ cr ∷ lf ∷ [])) ≡ c ∷ line
unfolding strip_crlf
strip_crlf-plain c [] = refl
strip_crlf-plain c (d ∷ []) = refl
strip_crlf-plain c (d ∷ e ∷ line) = ap (◌∷◌ c) (strip_crlf-plain d (e ∷ line))

-- UUdecode gets back the bytes of each line that UUEncode writes: of a chunk of at most 63 bytes, while
-- UUEncode takes at most 45.
pub uu_decode-line :
    (chunk : List ℕ)
    → All (λ b. b < 256) chunk
    → length chunk < 64
    → uu_decode (uu_line chunk) ≡ chunk
unfolding uu_decode uu_line
uu_decode-line chunk h k =
    let first : (length chunk + 32) % 256 ≡ length chunk + 32 = omega (arith, k) in
    rw
      (
        strip_crlf-plain ((length chunk + 32) % 256) (uu_groups chunk),
        uu_decode,
        first,
        six_bits-char (length chunk) k,
      )
      (uu_loop-groups chunk [] h)
