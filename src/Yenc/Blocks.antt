-- ===== src/Yenc/Blocks.antt =====
-- yenc/yenc.go: DecodeLineSIMD1, which decodes block by block, beside the byte rule.
use nzbre_x.Prelude.{
  ℕ, zero, suc, ◌<◌, Bool, true, false, ◌≡◌, refl, sym, ap, ◌∙◌, List, [], ◌∷◌, ◌++◌, ◌==◌, length,
  arith, Bool-cases, inl, inr, ◌⊎◌,
}
use mathlib.Core.List.{append_assoc, append-nil}
use nzbre_x.Yenc.{sub42, sub106, esc, block, after_block, sub42_all, simd1_loop, decode_line_simd1}
use nzbre_x.Yenc.Stream.{
  stream, cons_to, complete, complete-cons_to, stream-nil, stream-awaited, stream-escape,
  stream-plain,
}

-- A text read up to its first escape.
abbrev pub prepend : List ℕ → Bool × List ℕ → Bool × List ℕ
prepend xs (a, out) = (a, xs ++ out)

pub block_escape :
    (c : ℕ) (line : List ℕ)
    → (c == esc) ≡ true
    → (block (c ∷ line) ≡ []) × (after_block (c ∷ line) ≡ c ∷ line)
unfolding block after_block
block_escape c line e = (rw e, rw e)

pub block_plain :
    (c : ℕ) (line : List ℕ)
    → (c == esc) ≡ false
    → (block (c ∷ line) ≡ c ∷ block line) × (after_block (c ∷ line) ≡ after_block line)
unfolding block after_block
block_plain c line e = (rw e, rw e)

pub stream-block :
    (line : List ℕ)
    → stream false line ≡ prepend (sub42_all (block line)) (stream false (after_block line))
unfolding sub42_all block after_block
stream-block [] = refl
stream-block (c ∷ line) = elim (Bool-cases (c == esc)) [
  | inl e ↦ rw ((block_escape c line e).0, (block_escape c line e).1) refl
  | inr e ↦
      rw ((block_plain c line e).0, (block_plain c line e).1)
        (stream-plain c line e ∙ ap (cons_to (sub42 c)) (stream-block line))
]

pub complete-prepend :
    (decoded xs : List ℕ) (r : Bool × List ℕ)
    → complete decoded (prepend xs r) ≡ complete (decoded ++ xs) r
complete-prepend decoded xs (true, out) = refl
complete-prepend decoded xs (false, out) = rw append_assoc

-- After a block the text is at its end or at an escape.
pub after_block-cases :
    (line : List ℕ)
    → (after_block line ≡ [])
      ⊎ ((rest : List ℕ) × (after_block line ≡ esc ∷ rest) × (length rest < length line))
unfolding after_block
after_block-cases [] = inl refl
after_block-cases (c ∷ line) = elim (Bool-cases (c == esc)) [
  | inl e ↦ inr (line, rw (e, after_block) (ground arith), omega arith)
  | inr e ↦ elim (after_block-cases line) [
    | inl done ↦ inl (rw (e, after_block) done)
    | inr (rest, at, short) ↦ inr (rest, rw (e, after_block) at, omega arith)
  ]
]

simd1_loop-stream :
    (n : ℕ) (decoded line : List ℕ)
    → length line < n
    → simd1_loop n decoded line ≡ complete decoded (stream false line)
unfolding simd1_loop
simd1_loop-stream zero decoded line h = elim h [ ]
simd1_loop-stream (suc n) decoded [] h = rw (stream-nil false, append-nil)
simd1_loop-stream (suc n) decoded (c ∷ line) h = elim (after_block-cases (c ∷ line)) [
  | inl done ↦
      rw (done, simd1_loop)
        (rw (stream-block (c ∷ line), done, complete-prepend)
          (simd1_loop-stream n (decoded ++ sub42_all (block (c ∷ line))) [] (omega arith)))
  | inr ([], at, short) ↦
      rw (at, simd1_loop)
        (rw (
          stream-block (c ∷ line),
          at,
          complete-prepend,
          stream-escape esc [] refl,
          stream-nil true,
        ))
  | inr (d ∷ rest, at, short) ↦
      rw (at, simd1_loop)
        (rw
          (
            stream-block (c ∷ line),
            at,
            complete-prepend,
            stream-escape esc (d ∷ rest) refl,
            stream-awaited,
          )
          (simd1_loop-stream n (decoded ++ sub42_all (block (c ∷ line)) ++ sub106 d ∷ []) rest
              (omega arith)
            ∙ sym (complete-cons_to _ (sub106 d) (stream false rest))))
]

pub decode_line_simd1-stream :
    (line : List ℕ) → decode_line_simd1 line ≡ complete [] (stream false line)
unfolding decode_line_simd1
decode_line_simd1-stream line = simd1_loop-stream (suc (length line)) [] line (omega arith)
