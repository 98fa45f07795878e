-- ===== src/Rapid/Trailers.antt =====
-- rapidyenc/decoder.go: what the header lines that Transform reads say of the data.
use nzbre_x.Prelude.{
  ℕ, zero, suc, ◌+◌, ◌-◌, Bool, true, false, List, [], ◌∷◌, Option, none, some, ◌≡◌, refl, sym, ap,
  ◌∙◌, ◌&&◌, ◌==◌, if◌then◌else◌, length, take, drop, arith, Bool-cases, Option-cases, inl, inr,
}
use nzbre_x.Nntp.{Line, codes, cr, lf, dot, has_prefix}
use nzbre_x.Rapid.{Format, format_unknown, format_yenc, format_uu}
use nzbre_x.Rapid.Fields.{ℤ, extract_int, extract_crc}
use nzbre_x.Rapid.Decoder.{
  Decoder, with_crc, process_as, process_yenc, End, end_none, end_control, end_article, Decoded,
  Outcome, is_yenc, is_uu, Place, Turn, stop, again, line_end, behind_data, data_turn, known_format,
  behind_line, line_turn, transform_turn, transform_loop,
}

-- The line that the next turn reads, if it reads one.
abbrev pub next_line : List ℕ → Place → Option Line
next_line src p =
    if p.at_loop && p.decoder.body && is_yenc p.decoder.format
    then none
    else if has_prefix (drop p.n_src src) (dot ∷ cr ∷ lf ∷ [])
    then none
    else elim (line_end (drop p.n_src src)) [
      | none ↦ none
      | some n ↦ some (take (n + 2) (drop p.n_src src))
    ]

abbrev pub with_line : Option Line → List Line → List Line
with_line none lines = lines
with_line (some line) lines = line ∷ lines

-- The lines that the turns read.
abbrev pub header_lines :
    (ℕ → List ℕ → ℕ → Decoded) → (List ℕ → ℕ) → ℕ → List ℕ → ℕ → Place → List Line
header_lines incremental crc32 room src zero p = []
header_lines incremental crc32 room src (suc n) p =
    elim (transform_turn incremental crc32 room src false p) [
      | stop o q ↦ []
      | again q ↦ with_line (next_line src p) (header_lines incremental crc32 room src n q)
    ]

-- What the lines show: the format, whether a line "=ypart" came, and the last trailer with whether one had come
-- before it.
pub record Heads : Type 0 where
  pub format : Format
  pub part : Bool
  pub trailer : Option (Bool × Line)

abbrev pub no_heads : Heads
no_heads = record { format = format_unknown; part = false; trailer = none }

abbrev pub see_yenc : Line → Heads → Heads
see_yenc line h =
    if has_prefix line (codes "=ybegin ")
    then h
    else if has_prefix line (codes "=ypart ")
    then record h { part = true }
    else if has_prefix line (codes "=yend ")
    then record h { trailer = some (h.part, line) }
    else h

abbrev pub see_as : Format → Line → Heads → Heads
see_as f line h =
    if is_yenc f then see_yenc line (record h { format = f }) else record h { format = f }

abbrev pub see : Line → Heads → Heads
see line h = see_as (known_format h.format line) line h

abbrev pub seen : Heads → List Line → Heads
seen h [] = h
seen h (line ∷ lines) = seen (see line h) lines

-- The CRC of a trailer: that of the part, if there are parts.
abbrev pub trailer_crc : Bool → Line → Option ℕ
trailer_crc part line = extract_crc line (if part then codes " pcrc32=" else codes " crc32=")

abbrev pub TrailerFields : Option (Bool × Line) → ℤ → Bool → ℕ → Type 0
TrailerFields none end_size crc expected = Unit
TrailerFields (some (part, line)) end_size crc expected =
    (end_size ≡ (extract_int line (codes " size=")).0)
    × ((c : ℕ) → trailer_crc part line ≡ some c → (crc ≡ true) × (expected ≡ c))

abbrev pub has_trailer : Option (Bool × Line) → Bool
has_trailer none = false
has_trailer (some t) = true

-- The decoder has what the lines show, but for UUencoded data.
abbrev pub Fields : Heads → Decoder → Type 0
Fields h d =
    (d.part ≡ h.part)
    × (d.ended ≡ has_trailer h.trailer)
    × TrailerFields h.trailer d.end_size d.crc d.expected_crc

abbrev pub Traced : Heads → Decoder → Type 0
Traced h d = (h.format ≡ d.format) × (is_uu d.format ≡ false → Fields h d)

crc_set :
    (o : Option ℕ) (d : Decoder) (c : ℕ)
    → o ≡ some c
    → ((with_crc o d).crc ≡ true) × ((with_crc o d).expected_crc ≡ c)
unfolding with_crc
crc_set none d c h = absurd (cc h)
crc_set (some b) d c h = (refl, cc h)

with_crc-rest :
    (o : Option ℕ) (d : Decoder)
    → ((with_crc o d).part ≡ d.part)
      × ((with_crc o d).ended ≡ d.ended)
      × ((with_crc o d).end_size ≡ d.end_size)
      × ((with_crc o d).format ≡ d.format)
unfolding with_crc
with_crc-rest none d = (refl, refl, refl, refl)
with_crc-rest (some c) d = (refl, refl, refl, refl)

trailer-Traced :
    (line : Line) (h : Heads) (d : Decoder) (part : Bool)
    → part ≡ h.part
    → d.part ≡ h.part
    → d.format ≡ format_yenc
    → d.ended ≡ true
    → d.end_size ≡ (extract_int line (codes " size=")).0
    → Traced
        (record h { format = format_yenc; trailer = some (h.part, line) })
        (with_crc (trailer_crc part line) d)
trailer-Traced line h d part same p f e s =
    let (rest_part, rest_ended, rest_size, rest_format) = with_crc-rest (trailer_crc part line) d in
    (
      sym (rest_format ∙ f),
      λ u. (
        rest_part ∙ p,
        rest_ended ∙ e,
        (
          rest_size ∙ s,
          λ c k. crc_set (trailer_crc part line) d c (ap (λ b. trailer_crc b line) same ∙ k),
        ),
      ),
    )

uu_format : (line : Line) (d : Decoder) → (process_as format_uu line d).format ≡ d.format
unfolding process_as
uu_format line d = ground arith

see_as-Traced :
    (f : Format) (line : Line) (h : Heads) (d : Decoder)
    → (is_uu f ≡ false → Fields h d)
    → Traced (see_as f line h) (process_as f line (record d { format = f }))
unfolding process_as
see_as-Traced format_unknown line h d v = (refl, v)
see_as-Traced format_uu line h d v =
    let same = uu_format line (record d { format = format_uu }) in
    (sym same, λ u. absurd (cc (ap is_uu same, u)))
see_as-Traced format_yenc line h d v =
    let (part, ended, trailer) = v refl in
    elim (Bool-cases (has_prefix line (codes "=ybegin "))) [
      | inl e ↦ rw (e, process_as) (refl, λ u. (part, ended, trailer))
      | inr e ↦ elim (Bool-cases (has_prefix line (codes "=ypart "))) [
        | inl k ↦ rw (e, k, process_as) (refl, λ u. (refl, ended, trailer))
        | inr k ↦ elim (Bool-cases (has_prefix line (codes "=yend "))) [
          | inl l ↦
              rw (e, k, l, process_as) (trailer-Traced line h _ d.part part part refl refl refl)
          | inr l ↦ rw (e, k, l, process_as) (refl, λ u. (part, ended, trailer))
        ]
      ]
    ]

was_not_uu : (f : Format) (line : Line) → is_uu (known_format f line) ≡ false → is_uu f ≡ false
unfolding known_format
was_not_uu format_unknown line h = refl
was_not_uu format_yenc line h = refl
was_not_uu format_uu line h = h

see-Traced :
    (line : Line) (h : Heads) (d : Decoder)
    → Traced h d
    → Traced (see line h) (
        process_as
          (known_format d.format line)
          line
          (record d { format = known_format d.format line }))
see-Traced line h d v =
    rw v.0
      (see_as-Traced (known_format d.format line) line h d (λ u. v.1 (was_not_uu d.format line u)))

-- What a turn leaves, by the line that it read.
abbrev TurnTraced : Heads → Option Line → Turn → Type 0
TurnTraced h line (stop o q) = Traced h q.decoder
TurnTraced h none (again q) = Traced h q.decoder
TurnTraced h (some line) (again q) = Traced (see line h) q.decoder

behind_data-Traced :
    (h : Heads) (e : End) (d : Decoder) (out : List ℕ) (n : ℕ)
    → Traced h d
    → TurnTraced h none (behind_data e d out n)
unfolding behind_data
behind_data-Traced h end_control d out n v = v
behind_data-Traced h end_article d out n v = v
behind_data-Traced h end_none d out n v = elim (Bool-cases (d.state == 6)) [
  | inl e ↦ rw (e, behind_data) v
  | inr e ↦ rw (e, behind_data) v
]

data_turn-Traced :
    (h : Heads) (r : Decoded) (p : Place) → Traced h p.decoder → TurnTraced h none (data_turn r p)
unfolding data_turn
data_turn-Traced h r p v = behind_data-Traced h r.end_seen _ _ _ v

behind_line-Traced :
    (h : Heads) (line : Line) (b : Bool) (room : ℕ) (p : Place)
    → Traced (see line h) p.decoder
    → TurnTraced h (some line) (behind_line b room line p)
unfolding behind_line
behind_line-Traced h line true room p v = v
behind_line-Traced h line false room p v = v

turn-Traced :
    (incremental : ℕ → List ℕ → ℕ → Decoded) (crc32 : List ℕ → ℕ) (room : ℕ) (src : List ℕ)
    (h : Heads) (p : Place)
    → Traced h p.decoder
    → TurnTraced h (next_line src p) (transform_turn incremental crc32 room src false p)
unfolding transform_turn line_turn process_yenc
turn-Traced incremental crc32 room src h p v =
    let rest = drop p.n_src src in
    elim (Bool-cases (p.at_loop && p.decoder.body && is_yenc p.decoder.format)) [
      | inl y ↦
          rw (y, transform_turn)
            (data_turn-Traced h (incremental (room - length p.out) rest p.decoder.state) p v)
      | inr y ↦ elim (Bool-cases (has_prefix rest (dot ∷ cr ∷ lf ∷ []))) [
        | inl e ↦ rw (y, e, transform_turn) v
        | inr e ↦ elim (Option-cases (line_end rest)) [
          | inl l ↦ rw (y, e, l, transform_turn) v
          | inr (n, l) ↦
              rw (y, e, l, transform_turn)
                (behind_line-Traced h (take (n + 2) rest) _ room _
                  (see-Traced (take (n + 2) rest) h p.decoder v))
        ]
      ]
    ]

ends-Traced :
    (h : Heads) (line : Option Line) (t : Turn) (lines : Place → List Line)
    (more : Place → Option (Outcome × Place)) (o : Outcome) (q : Place)
    → TurnTraced h line t
    → ((k : Heads) (r : Place)
        → Traced k r.decoder
        → more r ≡ some (o, q)
        → Traced (seen k (lines r)) q.decoder)
    → (elim t as (λ _. Option (Outcome × Place)) [ stop o' r ↦ some (o', r) | again r ↦ more r ])
      ≡ some (o, q)
    → Traced
        (seen h
          (elim t as (λ _. List Line) [ stop o' r ↦ [] | again r ↦ with_line line (lines r) ]))
        q.decoder
ends-Traced h line (stop o' r) lines more o q v later e = let same : q ≡ r = cc e in rw same v
ends-Traced h none (again r) lines more o q v later e = later h r v e
ends-Traced h (some line) (again r) lines more o q v later e = later (see line h) r v e

-- At the end the decoder has what the lines that were read show.
pub loop-Traced :
    (incremental : ℕ → List ℕ → ℕ → Decoded) (crc32 : List ℕ → ℕ) (room : ℕ) (src : List ℕ) (n : ℕ)
    (h : Heads) (p : Place) (o : Outcome) (q : Place)
    → Traced h p.decoder
    → transform_loop incremental crc32 room src false n p ≡ some (o, q)
    → Traced (seen h (header_lines incremental crc32 room src n p)) q.decoder
unfolding transform_loop
loop-Traced incremental crc32 room src zero h p o q v e = absurd (cc e)
loop-Traced incremental crc32 room src (suc n) h p o q v e =
    ends-Traced h (next_line src p) (transform_turn incremental crc32 room src false p)
      (header_lines incremental crc32 room src n)
      (transform_loop incremental crc32 room src false n) o q
      (turn-Traced incremental crc32 room src h p v)
      (λ k r w f. loop-Traced incremental crc32 room src n k r o q w f) e
