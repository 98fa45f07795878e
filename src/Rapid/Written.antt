-- ===== src/Rapid/Written.antt =====
-- rapidyenc/decoder.go: what the turns of Transform keep, and what they have seen at the final dot.
use mathlib.Core.List.{append_assoc}
use nzbre_x.Prelude.{
  ℕ, zero, suc, ◌+◌, ◌-◌, Bool, true, false, List, [], ◌∷◌, ◌++◌, Option, none, some, ◌≡◌, refl,
  sym, ap, ◌∙◌, ◌&&◌, ◌||◌, not, ◌==◌, length, take, drop, arith, length-append, Bool-cases,
  Option-cases, inl, inr,
}
use nzbre_x.Nntp.{Line, codes, cr, lf, dot, has_prefix}
use nzbre_x.Rapid.{Format, format_unknown, format_yenc, format_uu, uu_decode}
use nzbre_x.Rapid.Fields.{pos, eq_int}
use nzbre_x.Rapid.Decoder.{
  Decoder, with_crc, process_as, process_yenc, is_end, End, end_none, end_control, end_article,
  Decoded, Outcome, eof, is_yenc, is_uu, verdict, at_end, Place, Turn, stop, again, line_end,
  behind_data, data_turn, known_format, behind_line, line_turn, transform_turn, transform_loop,
}

-- A decoder's count and hash, its format aside.
abbrev pub SameBytes : Decoder → Decoder → Type 0
SameBytes d e = (d.hashed ≡ e.hashed) × (d.actual_size ≡ e.actual_size) × (d.format ≡ e.format)

with_crc-SameBytes : (o : Option ℕ) (d : Decoder) → SameBytes (with_crc o d) d
unfolding with_crc
with_crc-SameBytes none d = (refl, refl, refl)
with_crc-SameBytes (some c) d = (refl, refl, refl)

-- The header lines change neither.
process_as-SameBytes : (f : Format) (line : Line) (d : Decoder) → SameBytes (process_as f line d) d
unfolding process_as
process_as-SameBytes format_unknown line d = (refl, refl, refl)
process_as-SameBytes format_yenc line d = elim (Bool-cases (has_prefix line (codes "=ybegin "))) [
  | inl e ↦ rw (e, process_as) (refl, refl, refl)
  | inr e ↦ elim (Bool-cases (has_prefix line (codes "=ypart "))) [
    | inl k ↦ rw (e, k, process_as) (refl, refl, refl)
    | inr k ↦ elim (Bool-cases (has_prefix line (codes "=yend "))) [
      | inl l ↦ rw (e, k, l, process_as) (with_crc-SameBytes _ _)
      | inr l ↦ rw (e, k, l, process_as) (refl, refl, refl)
    ]
  ]
]
process_as-SameBytes format_uu line d = elim (Bool-cases (has_prefix line (codes "begin "))) [
  | inl e ↦ rw (e, process_as) (refl, refl, refl)
  | inr e ↦ elim (Bool-cases (is_end line)) [
    | inl k ↦ rw (e, k, process_as) (refl, refl, refl)
    | inr k ↦ rw (e, k, process_as) (refl, refl, refl)
  ]
]

-- What is written, after what earlier calls wrote, is what is hashed and counted, but for UUencoded data,
-- which dst may cut off.
pub record Inv (before : List ℕ) (p : Place) : Type 0 where
  pub counted : p.decoder.actual_size ≡ length p.decoder.hashed
  pub written : is_uu p.decoder.format ≡ false → before ++ p.out ≡ p.decoder.hashed

-- What Transform has seen when it ends without an error at the final dot.
abbrev pub accepted : (List ℕ → ℕ) → Decoder → Bool
accepted crc32 d =
    d.begun
    && d.ended
    && (not (is_yenc d.format)
        || ((d.part || eq_int d.size d.end_size)
            && eq_int d.end_size (pos d.actual_size)
            && (not d.crc || d.expected_crc == crc32 d.hashed)))

abbrev pub is_eof : Outcome → Bool
is_eof eof = true
is_eof _ = false

verdict-accepted : (crc32 : List ℕ → ℕ) (d : Decoder) → is_eof (verdict crc32 d) ≡ accepted crc32 d
unfolding verdict
verdict-accepted crc32 d = ground arith

abbrev Holds : (List ℕ → ℕ) → List ℕ → Turn → Type 0
Holds crc32 before (stop o q) = Inv before q × (is_eof o ≡ true → accepted crc32 q.decoder ≡ true)
Holds crc32 before (again q) = Inv before q

behind_data-Holds :
    (crc32 : List ℕ → ℕ) (before : List ℕ) (e : End) (d : Decoder) (out : List ℕ) (n : ℕ)
    → d.actual_size ≡ length d.hashed
    → before ++ out ≡ d.hashed
    → Holds crc32 before (behind_data e d out n)
unfolding behind_data
behind_data-Holds crc32 before end_control d out n c w = record { counted = c; written = λ u. w }
behind_data-Holds crc32 before end_article d out n c w = record { counted = c; written = λ u. w }
behind_data-Holds crc32 before end_none d out n c w = elim (Bool-cases (d.state == 6)) [
  | inl e ↦ rw (e, behind_data) (record { counted = c; written = λ u. w }, λ s. absurd (cc s))
  | inr e ↦ rw (e, behind_data) (record { counted = c; written = λ u. w }, λ s. absurd (cc s))
]

pub not_uu : (f : Format) → is_yenc f ≡ true → is_uu f ≡ false
not_uu format_unknown h = refl
not_uu format_yenc h = refl
not_uu format_uu h = absurd (cc h)

data_turn-Holds :
    (crc32 : List ℕ → ℕ) (before : List ℕ) (r : Decoded) (p : Place)
    → Inv before p
    → is_yenc p.decoder.format ≡ true
    → Holds crc32 before (data_turn r p)
unfolding data_turn
data_turn-Holds crc32 before r p v y =
    behind_data-Holds crc32 before r.end_seen _ _ _
      (omega (arith, v.counted, length-append p.decoder.hashed r.bytes))
      (sym (append_assoc before p.out r.bytes)
        ∙ ap (λ l. l ++ r.bytes) (v.written (not_uu p.decoder.format y)))

was_not_uu : (f : Format) (line : Line) → is_uu (known_format f line) ≡ false → is_uu f ≡ false
unfolding known_format
was_not_uu format_unknown line h = refl
was_not_uu format_yenc line h = refl
was_not_uu format_uu line h = h

behind_line-Holds :
    (crc32 : List ℕ → ℕ) (before : List ℕ) (b : Bool) (room : ℕ) (line : Line) (p : Place)
    → (b && not (is_uu p.decoder.format)) ≡ false
    → Inv before p
    → Holds crc32 before (behind_line b room line p)
unfolding behind_line
behind_line-Holds crc32 before false room line p h v = v
behind_line-Holds crc32 before true room line p h v = record {
  counted = omega (arith, v.counted, length-append p.decoder.hashed (uu_decode line));
  written = λ u. absurd (cc (h, u));
}

data_is_uu : (f g : Format) (b : Bool) → f ≡ g → ((is_uu g && b) && not (is_uu f)) ≡ false
data_is_uu f format_unknown b h = refl
data_is_uu f format_yenc b h = refl
data_is_uu f format_uu b h = let uu : is_uu f ≡ true = ap is_uu h in ground (arith, uu)

line_turn-Holds :
    (crc32 : List ℕ → ℕ) (before : List ℕ) (room : ℕ) (line : Line) (p : Place)
    → Inv before p
    → Holds crc32 before (line_turn room line p)
unfolding line_turn process_yenc
line_turn-Holds crc32 before room line p v =
    let known = known_format p.decoder.format line in
    let d = process_as known line (record (p.decoder) { format = known }) in
    let same : SameBytes d (record (p.decoder) { format = known }) =
      process_as-SameBytes known line (record (p.decoder) { format = known }) in
    behind_line-Holds crc32 before _ room line _
      (data_is_uu d.format known
        (d.body && not (has_prefix line (codes "begin ")) && not (has_prefix line (codes "end")))
        same.2)
      (record {
        counted = same.1 ∙ v.counted ∙ ap length (sym same.0);
        written = λ u.
            v.written (was_not_uu p.decoder.format line (ap is_uu (sym same.2) ∙ u)) ∙ sym same.0;
      })

-- A turn that ends without an error does so at the final dot, if the source can still go on.
transform_turn-Holds :
    (incremental : ℕ → List ℕ → ℕ → Decoded) (crc32 : List ℕ → ℕ) (before : List ℕ) (room : ℕ)
    (src : List ℕ) (p : Place)
    → Inv before p
    → Holds crc32 before (transform_turn incremental crc32 room src false p)
unfolding transform_turn at_end
transform_turn-Holds incremental crc32 before room src p v =
    let rest = drop p.n_src src in
    elim (Bool-cases (p.at_loop && p.decoder.body && is_yenc p.decoder.format)) [
      | inl y ↦
          let yenc : is_yenc p.decoder.format ≡ true = ground (arith, y) in
          rw (y, transform_turn)
            (data_turn-Holds crc32 before (incremental (room - length p.out) rest p.decoder.state) p
              v yenc)
      | inr y ↦ elim (Bool-cases (has_prefix rest (dot ∷ cr ∷ lf ∷ []))) [
        | inl e ↦
            rw (y, e, transform_turn)
              (
                record { counted = v.counted; written = v.written },
                λ s. sym (verdict-accepted crc32 p.decoder) ∙ s,
              )
        | inr e ↦ elim (Option-cases (line_end rest)) [
          | inl l ↦ rw (y, e, l, transform_turn) (v, λ s. absurd (cc s))
          | inr (n, l) ↦
              rw (y, e, l, transform_turn)
                (line_turn-Holds crc32 before room (take (n + 2) rest) p v)
        ]
      ]
    ]

-- The end of the loop, by what its next turn is.
ends_accepted :
    (crc32 : List ℕ → ℕ) (before : List ℕ) (o : Outcome) (q : Place)
    (more : Place → Option (Outcome × Place)) (t : Turn)
    → ((r : Place)
        → Inv before r
        → more r ≡ some (o, q)
        → Inv before q × (is_eof o ≡ true → accepted crc32 q.decoder ≡ true))
    → Holds crc32 before t
    → (elim t as (λ _. Option (Outcome × Place)) [ stop o' r ↦ some (o', r) | again r ↦ more r ])
      ≡ some (o, q)
    → Inv before q × (is_eof o ≡ true → accepted crc32 q.decoder ≡ true)
ends_accepted crc32 before o q more (stop o' r) later h k =
    let same_end : o ≡ o' = cc k in
    let same_place : q ≡ r = cc k in rw same_place (h.0, λ s. h.1 (ap is_eof (sym same_end) ∙ s))
ends_accepted crc32 before o q more (again r) later h k = later r h k

pub transform_loop-accepted :
    (incremental : ℕ → List ℕ → ℕ → Decoded) (crc32 : List ℕ → ℕ) (before : List ℕ) (room : ℕ)
    (src : List ℕ) (n : ℕ) (p : Place) (o : Outcome) (q : Place)
    → Inv before p
    → transform_loop incremental crc32 room src false n p ≡ some (o, q)
    → Inv before q × (is_eof o ≡ true → accepted crc32 q.decoder ≡ true)
unfolding transform_loop
transform_loop-accepted incremental crc32 before room src zero p o q v e = absurd (cc e)
transform_loop-accepted incremental crc32 before room src (suc n) p o q v e =
    ends_accepted crc32 before o q (transform_loop incremental crc32 room src false n)
      (transform_turn incremental crc32 room src false p)
      (λ r w k. transform_loop-accepted incremental crc32 before room src n r o q w k)
      (transform_turn-Holds incremental crc32 before room src p v) e
