-- ===== src/Yenc/InPlace.antt =====
-- yenc/yenc.go: the decoders that write into the line that they read, DecodeLine and
-- DecodeLineSIMD2, beside the byte rule.
use nzbre_x.Prelude.{
  ℕ, zero, suc, ◌+◌, ◌-◌, ◌≤◌, ◌<◌, Bool, true, false, ◌≡◌, refl, sym, ap, ◌∙◌, List, [], ◌∷◌, ◌++◌,
  Option, none, if◌then◌else◌, ltb, lt→ltb, leb, leb→le, ◌==◌, length, get_or, take, drop, arith,
  Bool-cases, inl, inr,
}
use mathlib.Core.List.{append_assoc, append-nil}
use nzbre_x.Yenc.{
  set, sub42, sub106, esc, block, after_block, sub42_all, sub42_bulk, next_esc, simd2_loop,
  decode_line_simd2, decode_line_loop, decode_line,
}
use nzbre_x.Yenc.Lists.{length-set, drop-set, take-set, drop-get_or, drop_all, length-drop}
use nzbre_x.Yenc.Stream.{
  stream, cons_to, complete, complete-cons_to, stream-nil, stream-awaited, stream-escape,
  stream-plain,
}
use nzbre_x.Yenc.Blocks.{
  prepend, stream-block, block_escape, block_plain, complete-prepend, after_block-cases,
}

prepend-cons_to :
    (out : List ℕ) (b : ℕ) (r : Bool × List ℕ)
    → prepend out (cons_to b r) ≡ prepend (out ++ b ∷ []) r
prepend-cons_to out b r = rw append_assoc

-- A byte written at or before the read index: what stands before it and after it.
write_step :
    (line : List ℕ) (i j v : ℕ) (a : Bool)
    → j ≤ i
    → i < length line
    → prepend (take (suc j) (set line j v)) (stream a (drop (suc i) (set line j v)))
      ≡ prepend (take j line) (cons_to v (stream a (drop (suc i) line)))
write_step line i j v a le lt =
    rw (take-set line j v (omega arith), drop-set line j (suc i) v (omega arith))
      (sym (prepend-cons_to (take j line) v _))

decode_line_loop-stream :
    (n : ℕ) (a : Bool) (line : List ℕ) (i j : ℕ)
    → j ≤ i
    → i + n ≡ length line
    → decode_line_loop n a line i j ≡ prepend (take j line) (stream a (drop i line))
unfolding decode_line_loop
decode_line_loop-stream zero a line i j le e =
    rw (drop_all line i (omega arith))
      (rw (stream-nil a, append-nil) (ap (λ k. (a, take k line)) (omega arith)))
decode_line_loop-stream (suc n) true line i j le e =
    decode_line_loop-stream n false (set line j (sub106 (get_or line i 0))) (suc i) (suc j)
      (omega arith) (omega (arith, length-set line j (sub106 (get_or line i 0))))
    ∙ write_step line i j _ false le (omega arith)
    ∙ rw (drop-get_or line i 0 (omega arith), stream-awaited) refl
decode_line_loop-stream (suc n) false line i j le e = elim (Bool-cases (get_or line i 0 == esc)) [
  | inl special ↦
      rw (special, decode_line_loop)
        (decode_line_loop-stream n true line (suc i) j (omega arith) (omega arith)
          ∙ rw (drop-get_or line i 0 (omega arith), stream-escape _ (drop (suc i) line) special)
              refl)
  | inr normal ↦
      rw (normal, decode_line_loop)
        (decode_line_loop-stream n false (set line j (sub42 (get_or line i 0))) (suc i) (suc j)
            (omega arith) (omega (arith, length-set line j (sub42 (get_or line i 0))))
          ∙ write_step line i j _ false le (omega arith)
          ∙ rw (drop-get_or line i 0 (omega arith), stream-plain _ (drop (suc i) line) normal) refl)
]

pub decode_line-stream : (a : Bool) (line : List ℕ) → decode_line a line ≡ stream a line
unfolding decode_line
decode_line-stream a line =
    decode_line_loop-stream (length line) a line 0 0 (omega arith) (omega arith)

-- Sub42Bulk over overlapping slices of one line, written at or before where it reads.
length-sub42_bulk :
    (n dst src : ℕ) (line : List ℕ) → length (sub42_bulk n dst src line) ≡ length line
unfolding sub42_bulk
length-sub42_bulk zero dst src line = refl
length-sub42_bulk (suc n) dst src line =
    length-sub42_bulk n (suc dst) (suc src) (set line dst (sub42 (get_or line src 0)))
    ∙ length-set line dst (sub42 (get_or line src 0))

drop-sub42_bulk :
    (n dst src r : ℕ) (line : List ℕ)
    → dst + n ≤ r
    → drop r (sub42_bulk n dst src line) ≡ drop r line
unfolding sub42_bulk
drop-sub42_bulk zero dst src r line h = refl
drop-sub42_bulk (suc n) dst src r line h =
    drop-sub42_bulk n (suc dst) (suc src) r (set line dst (sub42 (get_or line src 0))) (omega arith)
    ∙ drop-set line dst r _ (omega arith)

take-sub42_bulk :
    (n dst src : ℕ) (line : List ℕ)
    → dst ≤ src
    → src + n ≤ length line
    → take (dst + n) (sub42_bulk n dst src line)
      ≡ take dst line ++ sub42_all (take n (drop src line))
unfolding sub42_bulk sub42_all
take-sub42_bulk zero dst src line le h = rw append-nil (ap (λ k. take k line) (omega arith))
take-sub42_bulk (suc n) dst src line le h =
    let line' = set line dst (sub42 (get_or line src 0)) in
    ap (λ k. take k (sub42_bulk n (suc dst) (suc src) line')) (omega arith)
    ∙ take-sub42_bulk n (suc dst) (suc src) line' (omega arith)
        (omega (arith, length-set line dst (sub42 (get_or line src 0))))
    ∙ rw
        (
          take-set line dst (sub42 (get_or line src 0)) (omega arith),
          drop-set line dst (suc src) (sub42 (get_or line src 0)) (omega arith),
          drop-get_or line src 0 (omega arith),
        )
        (append_assoc (take dst line) (sub42 (get_or line src 0) ∷ []) _)

-- What the inner loop of DecodeLineSIMD2 finds: the end of the block.
next_esc_lem :
    (n read : ℕ) (line : List ℕ)
    → read + n ≡ length line
    → (next_esc n read line ≡ read + length (block (drop read line)))
      × (take (length (block (drop read line))) (drop read line) ≡ block (drop read line))
      × (drop (next_esc n read line) line ≡ after_block (drop read line))
      × (next_esc n read line ≤ length line)
unfolding next_esc
next_esc_lem zero read line h =
    rw (drop_all line read (omega arith))
      (unfold block after_block in (omega arith, refl, refl, omega arith))
next_esc_lem (suc n) read line h = elim (Bool-cases (get_or line read 0 == esc)) [
  | inl e ↦
      let (none_before, stays) = block_escape (get_or line read 0) (drop (suc read) line) e in
      rw e (
        rw (drop-get_or line read 0 (omega arith), none_before, stays)
          (omega arith, refl, refl, omega arith))
  | inr e ↦
      let (one_more, goes_on) = block_plain (get_or line read 0) (drop (suc read) line) e in
      let (at, all, rest, fits) = next_esc_lem n (suc read) line (omega arith) in
      rw e (
        rw (drop-get_or line read 0 (omega arith), one_more, goes_on)
          (omega (arith, at), ap (◌∷◌ (get_or line read 0)) all, rest, fits))
]

-- A round of DecodeLineSIMD2 up to the end of the block: what stands before the write index is
-- what was there and the decoded block, and what is still to be read is as it was.
block_moved :
    (read write : ℕ) (line : List ℕ)
    → write ≤ read
    → read ≤ length line
    → let stop = next_esc (length line - read) read line in
      let moved = sub42_bulk (stop - read) write read line in
      (take (write + (stop - read)) moved ≡ take write line ++ sub42_all (block (drop read line)))
      × (drop stop moved ≡ after_block (drop read line))
      × (length moved ≡ length line)
      × (read ≤ stop)
      × (stop ≤ length line)
block_moved read write line le fits =
    let stop = next_esc (length line - read) read line in
    let (at, all, rest, inside) = next_esc_lem (length line - read) read line (omega arith) in
    let count : stop - read ≡ length (block (drop read line)) = omega (arith, at) in
    (
      take-sub42_bulk (stop - read) write read line le (omega (arith, at, inside))
          ∙ ap (λ k. take write line ++ sub42_all (take k (drop read line))) count
          ∙ ap (λ xs. take write line ++ sub42_all xs) all,
      drop-sub42_bulk (stop - read) write read stop line (omega (arith, at)) ∙ rest,
      length-sub42_bulk (stop - read) write read line,
      omega (arith, at),
      inside,
    )

-- A round that ends at an escape.
simd2_escape :
    (stop write : ℕ) (moved : List ℕ) (next : Option (List ℕ))
    → write ≤ stop
    → stop < length moved
    → (get_or moved stop 0 == esc) ≡ true
    → (suc (suc stop) ≤ length moved
        → let b = sub106 (get_or moved (suc stop) 0) in
          next
          ≡ complete
              (take (suc write) (set moved write b))
              (stream false (drop (suc (suc stop)) (set moved write b))))
    → (if leb (length moved) (suc stop) then none else next)
      ≡ complete (take write moved) (stream false (drop stop moved))
simd2_escape stop write moved next le lt e go =
    rw (drop-get_or moved stop 0 lt, stream-escape _ (drop (suc stop) moved) e)
      (elim (Bool-cases (leb (length moved) (suc stop))) [
        | inl last ↦ rw (last, drop_all moved (suc stop) (leb→le _ _ last), stream-nil true) refl
        | inr more ↦
            let b = sub106 (get_or moved (suc stop) 0) in
            let lt' : suc stop < length moved = ground (arith, more) in
            rw (more, drop-get_or moved (suc stop) 0 lt', stream-awaited, complete-cons_to)
              (go lt'
                ∙ rw
                    (
                      take-set moved write b (omega arith),
                      drop-set moved write (suc (suc stop)) b (omega arith),
                    )
                    refl)
      ])

not_ltb : (a b : ℕ) → b ≤ a → ltb a b ≡ false
not_ltb a b h = ground arith

-- Whether the scan stopped at the end of the line or at an escape.
at_end : (stop : ℕ) (moved : List ℕ) → drop stop moved ≡ [] → length moved ≤ stop
at_end stop moved e = omega (arith, length-drop moved stop, ap length e)

at_escape :
    (stop : ℕ) (moved rest : List ℕ)
    → drop stop moved ≡ esc ∷ rest
    → (stop < length moved) × ((get_or moved stop 0 == esc) ≡ true)
at_escape stop moved rest e =
    let lt : stop < length moved = omega (arith, length-drop moved stop, ap length e) in
    (lt, ground (arith, e, drop-get_or moved stop 0 lt))

simd2_loop-stream :
    (n read write : ℕ) (line : List ℕ)
    → write ≤ read
    → read ≤ length line
    → length line - read < n
    → simd2_loop n read write line ≡ complete (take write line) (stream false (drop read line))
unfolding simd2_loop
simd2_loop-stream zero read write line le fits h = elim h [ ]
simd2_loop-stream (suc n) read write line le fits h = elim (Bool-cases (ltb read (length line))) [
  | inr done ↦
      rw done (rw (drop_all line read (ground (arith, done)), stream-nil false, append-nil) refl)
  | inl more ↦
      let stop = next_esc (length line - read) read line in
      let moved = sub42_bulk (stop - read) write read line in
      let write' = write + (stop - read) in
      let b = sub106 (get_or moved (suc stop) 0) in
      let (out, rest, same, forth, inside) = block_moved read write line le fits in
      rw (more, stream-block (drop read line), complete-prepend, ← out, ← rest)
        (elim (after_block-cases (drop read line)) [
          | inl end ↦
              let over = at_end stop moved (rest ∙ end) in
              rw (not_ltb stop (length moved) over) (
                simd2_loop-stream n stop write' moved (omega arith) (omega (arith, same))
                  (ground (arith, more, over, h)))
          | inr (rest', at, short) ↦
              let (lt, here) = at_escape stop moved rest' (rest ∙ at) in
              rw (lt→ltb _ _ lt, here)
                (simd2_escape stop write' moved _ (omega arith) lt here λ room.
                  simd2_loop-stream n (suc (suc stop)) (suc write') (set moved write' b)
                    (omega arith) (omega (arith, length-set moved write' b))
                    (omega (arith, length-set moved write' b, same)))
        ])
]

pub decode_line_simd2-stream :
    (line : List ℕ) → decode_line_simd2 line ≡ complete [] (stream false line)
unfolding decode_line_simd2
decode_line_simd2-stream line =
    simd2_loop-stream (suc (length line)) 0 0 line (omega arith) (omega arith) (omega arith)
