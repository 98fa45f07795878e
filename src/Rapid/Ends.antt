-- ===== src/Rapid/Ends.antt =====
-- rapidyenc/decoder.go: Transform ends.
use nzbre_x.Prelude.{
  ℕ, ◌⊎◌, zero, suc, ◌+◌, ◌-◌, ◌*◌, ◌≤◌, ◌<◌, Bool, true, false, List, [], ◌∷◌, Option, none, some,
  ◌≡◌, refl, if◌then◌else◌, ◌&&◌, ◌==◌, length, take, drop, arith, Bool-cases, Option-cases, inl,
  inr,
}
use mathlib.Core.Path.{subst}
use nzbre_x.Rapid.{Format, format_unknown, format_yenc, format_uu}
use nzbre_x.Nntp.{Line, codes, cr, lf, dot, has_prefix}
use nzbre_x.Rapid.Decoder.{
  Decoder, End, end_none, end_control, end_article, Decoded, Outcome, is_yenc, Place, Turn, stop,
  again, line_end, behind_data, data_turn, behind_line, line_turn, transform_turn, transform_loop,
  begin_transform, with_crc, process_as, is_end, known_format, process_yenc,
}
use nzbre_x.Yenc.Lists.{length-drop, length-take}

abbrev one_if : Bool → ℕ
one_if b = if b then 1 else 0

-- The bytes that are left; data, which ends at most three bytes before where it began, comes at most once before the
-- next header line of more than four bytes.
abbrev measure : ℕ → Place → ℕ
measure size p = (size - p.n_src) + 4 * one_if p.decoder.body

abbrev Closer : ℕ → ℕ → Turn → Type 0
Closer size m (stop o q) = Unit
Closer size m (again q) = measure size q < m

abbrev Fits : ℕ → Option ℕ → Type 0
Fits size none = Unit
Fits size (some n) = n + 2 ≤ size

Fits-behind :
    (size : ℕ) (o : Option ℕ)
    → Fits size o
    → Fits (suc size) (elim o as (λ _. Option ℕ) [ none ↦ none | some n ↦ some (suc n) ])
Fits-behind size none h = tt
Fits-behind size (some n) h = omega (arith, h)

line_end-Fits : (src : List ℕ) → Fits (length src) (line_end src)
unfolding line_end
line_end-Fits [] = tt
line_end-Fits (c ∷ []) = tt
line_end-Fits (c ∷ d ∷ src) = elim (Bool-cases (c == cr && d == lf)) [
  | inl e ↦ rw (e, line_end) (omega arith)
  | inr e ↦
      rw (e, line_end)
        (Fits-behind (length (d ∷ src)) (line_end (d ∷ src)) (line_end-Fits (d ∷ src)))
]

behind_data-Closer :
    (size m : ℕ) (e : End) (d : Decoder) (out : List ℕ) (n k : ℕ)
    → k ≤ n
    → (size - k) + 4 ≤ m
    → Closer size m (behind_data e d out n)
unfolding behind_data
behind_data-Closer size m end_control d out n k r h = omega (arith, r, h)
behind_data-Closer size m end_article d out n k r h = omega (arith, r, h)
behind_data-Closer size m end_none d out n k r h = elim (Bool-cases (d.state == 6)) [
  | inl e ↦ rw (e, behind_data) tt
  | inr e ↦ rw (e, behind_data) tt
]

behind_line-Closer :
    (size m : ℕ) (b : Bool) (room : ℕ) (line : Line) (p : Place)
    → measure size p < m
    → Closer size m (behind_line b room line p)
unfolding behind_line
behind_line-Closer size m true room line p h = h
behind_line-Closer size m false room line p h = h

has_prefix-length : (line key : Line) → has_prefix line key ≡ true → length key ≤ length line
unfolding has_prefix
has_prefix-length line [] h = omega arith
has_prefix-length [] (k ∷ key) h = absurd (cc h)
has_prefix-length (c ∷ line) (k ∷ key) h =
    omega (arith, has_prefix-length line key (ground (arith, h)))

with_crc-body : (o : Option ℕ) (d : Decoder) → (with_crc o d).body ≡ d.body
unfolding with_crc
with_crc-body none d = refl
with_crc-body (some c) d = refl

-- Only a line of more than four bytes opens the body.
abbrev Opens : Line → Decoder → Decoder → Type 0
Opens line d d' = one_if d'.body ≤ one_if d.body ⊎ 4 < length line

process_as-Opens : (f : Format) (line : Line) (d : Decoder) → Opens line d (process_as f line d)
unfolding process_as
process_as-Opens format_unknown line d = inl (omega arith)
process_as-Opens format_yenc line d = elim (Bool-cases (has_prefix line (codes "=ybegin "))) [
  | inl e ↦ inr (omega (arith, has_prefix-length line (codes "=ybegin ") e))
  | inr e ↦ elim (Bool-cases (has_prefix line (codes "=ypart "))) [
    | inl k ↦ inr (omega (arith, has_prefix-length line (codes "=ypart ") k))
    | inr k ↦ elim (Bool-cases (has_prefix line (codes "=yend "))) [
      | inl l ↦ inl (rw (e, k, l, process_as) (rw (with_crc-body _ _) (omega arith)))
      | inr l ↦ inl (rw (e, k, l, process_as) (omega arith))
    ]
  ]
]
process_as-Opens format_uu line d = elim (Bool-cases (has_prefix line (codes "begin "))) [
  | inl e ↦ inr (omega (arith, has_prefix-length line (codes "begin ") e))
  | inr e ↦ elim (Bool-cases (is_end line)) [
    | inl k ↦ inl (rw (e, k, process_as) (omega arith))
    | inr k ↦ inl (rw (e, k, process_as) (omega arith))
  ]
]

closer_by :
    (size n l m : ℕ) (b c : Bool)
    → one_if c ≤ one_if b ⊎ 4 < l
    → 2 ≤ l
    → l ≤ size - n
    → (size - n) + 4 * one_if b ≤ m
    → (size - (n + l)) + 4 * one_if c < m
closer_by size n l m b c (inl o) h k r = omega (arith, o, h, k, r)
closer_by size n l m b true (inr o) h k r = omega (arith, o, h, k, r)
closer_by size n l m b false (inr o) h k r = omega (arith, o, h, k, r)

line_turn-Closer :
    (size room : ℕ) (line : Line) (p : Place)
    → 2 ≤ length line
    → length line ≤ size - p.n_src
    → Closer size (measure size p) (line_turn room line p)
unfolding line_turn process_yenc
line_turn-Closer size room line p h k =
    let known = known_format p.decoder.format line in
    let from = record (p.decoder) { format = known } in
    behind_line-Closer size _ _ room line _ (
      closer_by size p.n_src (length line) _ from.body (process_as known line from).body
        (process_as-Opens known line from) h k (omega arith))

module _ (incremental : ℕ → List ℕ → ℕ → Decoded) (crc32 : List ℕ → ℕ) (room : ℕ) (src : List ℕ)
    (at_eof : Bool) where
  turn-Closer :
      (p : Place)
      → Closer
          (length src)
          (measure (length src) p)
          (transform_turn incremental crc32 room src at_eof p)
  unfolding transform_turn data_turn
  turn-Closer p =
      let rest = drop p.n_src src in
      let r = incremental (room - length p.out) rest p.decoder.state in
      elim (Bool-cases (p.at_loop && p.decoder.body && is_yenc p.decoder.format)) [
        | inl y ↦
            let opened : p.decoder.body ≡ true = ground (arith, y) in
            rw (y, transform_turn)
              (behind_data-Closer (length src) _ r.end_seen _ _ (p.n_src + r.read) p.n_src
                (omega arith) (ground (arith, opened)))
        | inr y ↦ elim (Bool-cases (has_prefix rest (dot ∷ cr ∷ lf ∷ []))) [
          | inl e ↦ rw (y, e, transform_turn) tt
          | inr e ↦ elim (Option-cases (line_end rest)) [
            | inl l ↦ rw (y, e, l, transform_turn) tt
            | inr (n, l) ↦
                let fits : n + 2 ≤ length rest =
                  subst (Fits (length rest)) l (line_end-Fits rest) in
                let line = take (n + 2) rest in
                let long : length line ≡ n + 2 = length-take rest (n + 2) fits in
                let left : length rest ≡ length src - p.n_src = length-drop src p.n_src in
                rw (y, e, l, transform_turn)
                  (line_turn-Closer (length src) room line p (omega (arith, long))
                    (omega (arith, long, fits, left)))
          ]
        ]
      ]

  loop_ends :
      (n : ℕ) (p : Place)
      → measure (length src) p < n
      → (r : Outcome × Place) × (transform_loop incremental crc32 room src at_eof n p ≡ some r)
  unfolding transform_loop
  loop_ends zero p h = absurd (omega (arith, h))
  loop_ends (suc n) p h =
      result (transform_turn incremental crc32 room src at_eof p) (turn-Closer p)
        (λ q k. loop_ends n q (omega (arith, h, k)))
    where
      result :
          (t : Turn)
          → Closer (length src) (measure (length src) p) t
          → ((q : Place)
              → measure (length src) q < measure (length src) p
              → (r : Outcome × Place) × (transform_loop incremental crc32 room src at_eof n q
                  ≡ some r))
          → (r : Outcome × Place) × ((elim t as (λ _. Option (Outcome × Place)) [
            | stop o q ↦ some (o, q)
            | again q ↦ transform_loop incremental crc32 room src at_eof n q
          ])
              ≡ some r)
      result (stop o q) c more = ((o, q), refl)
      result (again q) c more = more q c

bound : (n : ℕ) (b : Bool) → (n - 0) + 4 * one_if b < n + 5
bound n true = omega arith
bound n false = omega arith

-- Whatever the decoder of the yEnc data reads and reports, also an end behind fewer bytes than show it, and whatever
-- state an earlier call left: Transform ends after at most one turn for each byte of the source and five more.
pub transform_ends :
    (incremental : ℕ → List ℕ → ℕ → Decoded) (crc32 : List ℕ → ℕ) (room : ℕ) (src : List ℕ)
    (at_eof : Bool) (d : Decoder)
    → (r : Outcome × Place) × (transform_loop incremental crc32 room src at_eof
          (length src + 5)
          (begin_transform d)
        ≡ some r)
transform_ends incremental crc32 room src at_eof d =
    loop_ends incremental crc32 room src at_eof (length src + 5) (begin_transform d)
      (bound (length src) d.body)
