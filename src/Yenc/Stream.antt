-- ===== src/Yenc/Stream.antt =====
-- The yEnc decoding rule, byte by byte, against which the decoders of yenc/yenc.go are measured.
use nzbre_x.Prelude.{
  ℕ, Bool, true, false, ◌≡◌, refl, ap, List, [], ◌∷◌, ◌++◌, Option, none, some, ◌==◌, arith,
  Bool-cases, inl, inr,
}
use mathlib.Core.List.{append_assoc, append-nil}
use nzbre_x.Yenc.{sub42, sub106, esc, decode_line_new, decode_line_new_loop}

-- An escape announces a byte that is shifted by 64 more. The first component tells whether the
-- text ended in an escape whose byte is still to come.
abbrev pub cons_to : ℕ → Bool × List ℕ → Bool × List ℕ
cons_to b (a, out) = (a, b ∷ out)

unfoldable pub stream : Bool → List ℕ → Bool × List ℕ
stream a [] = (a, [])
stream true (c ∷ line) = cons_to (sub106 c) (stream false line)
stream false (c ∷ line) = elim (c == esc) [
  | true ↦ stream true line
  | false ↦ cons_to (sub42 c) (stream false line)
]

-- One byte of the rule, for proofs that keep `stream` shut.
pub stream-nil : (a : Bool) → stream a [] ≡ (a, [])
unfolding stream
stream-nil a = refl

pub stream-awaited :
    (c : ℕ) (line : List ℕ) → stream true (c ∷ line) ≡ cons_to (sub106 c) (stream false line)
unfolding stream
stream-awaited c line = refl

pub stream-escape :
    (c : ℕ) (line : List ℕ) → (c == esc) ≡ true → stream false (c ∷ line) ≡ stream true line
unfolding stream
stream-escape c line e = rw (e, stream) refl

pub stream-plain :
    (c : ℕ) (line : List ℕ)
    → (c == esc) ≡ false
    → stream false (c ∷ line) ≡ cons_to (sub42 c) (stream false line)
unfolding stream
stream-plain c line e = rw (e, stream) refl

pub stream-append :
    (a : Bool) (xs ys : List ℕ)
    → let (b, out) = stream a xs in
      let (e, out') = stream b ys in stream a (xs ++ ys) ≡ (e, out ++ out')
unfolding stream
stream-append a [] ys = refl
stream-append true (c ∷ xs) ys = ap (cons_to (sub106 c)) (stream-append false xs ys)
stream-append false (c ∷ xs) ys = elim (Bool-cases (c == esc)) [
  | inl e ↦ rw (e, stream) (stream-append true xs ys)
  | inr e ↦ rw (e, stream) (ap (cons_to (sub42 c)) (stream-append false xs ys))
]

-- What a decoder that refuses a trailing escape makes of the rule.
abbrev pub complete : List ℕ → Bool × List ℕ → Option (List ℕ)
complete decoded (true, out) = none
complete decoded (false, out) = some (decoded ++ out)

abbrev pub or_empty : Option (List ℕ) → List ℕ
or_empty none = []
or_empty (some out) = out

pub complete-cons_to :
    (decoded : List ℕ) (b : ℕ) (r : Bool × List ℕ)
    → complete decoded (cons_to b r) ≡ complete (decoded ++ b ∷ []) r
complete-cons_to decoded b (true, out) = refl
complete-cons_to decoded b (false, out) = rw append_assoc

decode_line_new_loop-stream :
    (decoded line : List ℕ)
    → decode_line_new_loop decoded line ≡ or_empty (complete decoded (stream false line))
unfolding decode_line_new_loop stream
decode_line_new_loop-stream decoded [] = rw append-nil
decode_line_new_loop-stream decoded (c ∷ []) = ground arith
decode_line_new_loop-stream decoded (c ∷ d ∷ line) = elim (Bool-cases (c == esc)) [
  | inl e ↦
      rw (e, decode_line_new_loop)
        (rw (e, stream)
          (rw complete-cons_to (decode_line_new_loop-stream (decoded ++ sub106 d ∷ []) line)))
  | inr e ↦
      rw (e, decode_line_new_loop)
        (rw (e, stream)
          (rw complete-cons_to (decode_line_new_loop-stream (decoded ++ sub42 c ∷ []) (d ∷ line))))
]

pub decode_line_new-stream :
    (line : List ℕ) → decode_line_new line ≡ or_empty (complete [] (stream false line))
unfolding decode_line_new
decode_line_new-stream line = decode_line_new_loop-stream [] line
