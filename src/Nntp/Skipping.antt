-- ===== src/Nntp/Skipping.antt =====
-- NetConn.go: readDotLines on the header of an article: fields, continued lines and what is left out.
use nzbre_x.Prelude.{
  ℕ, ◌+◌, ◌≤◌, Bool, true, false, List, [], ◌∷◌, ◌++◌, ◌≡◌, refl, ap, ◌∙◌, if◌then◌else◌, ◌&&◌,
  ◌||◌, not, length, arith, Bool-cases, inl, inr,
}
use mathlib.Core.List.{append_assoc, append-nil}
use nzbre_x.Nntp.{Line, has_prefix}
use nzbre_x.Nntp.Wire.{size_of, size_of-append}
use nzbre_x.Nntp.Reader.{
  Fetch, Options, Reading, is_dot, is_empty, is_head, has_any_prefix, is_spaced_line, header_line,
  end_header, one_line, read_loop,
}
use nzbre_x.Nntp.Articles.{reading, read_loop-line}
use nzbre_x.Nntp.Headers.{
  Field, field_lines, all_spaced, is_field, are_fields, are_keys, left_out, kept_fields,
}

has_any_prefix-spaced :
    (line : Line) (keys : List Line)
    → is_spaced_line line ≡ true
    → are_keys keys ≡ true
    → has_any_prefix line keys ≡ false
unfolding are_keys has_any_prefix is_spaced_line has_prefix
has_any_prefix-spaced line [] h k = refl
has_any_prefix-spaced line ([] ∷ keys) h k = absurd (cc k)
has_any_prefix-spaced [] ((d ∷ key) ∷ keys) h k = absurd (cc h)
has_any_prefix-spaced (c ∷ line) ((d ∷ key) ∷ keys) h k =
    let others : are_keys keys ≡ true = ground (arith, k) in
    ground (arith, h, k, has_any_prefix-spaced (c ∷ line) keys h others)

spaced_no_dot :
    (line : Line) → is_spaced_line line ≡ true → (is_dot line ≡ false) × (is_empty line ≡ false)
unfolding is_spaced_line is_dot
spaced_no_dot [] h = absurd (cc h)
spaced_no_dot (c ∷ []) h = ground (arith, h)
spaced_no_dot (c ∷ d ∷ line) h = (refl, refl)

both_off : (p q : Bool) → ((p && false) || (q && false)) ≡ false
both_off p q = ground arith

end_header-inside :
    (o : Options) (command : Fetch) (line : Line) (r : Reading)
    → is_dot line ≡ false
    → is_empty line ≡ false
    → end_header o command line r ≡ r
unfolding end_header
end_header-inside o command line r d e =
    rw (end_header, e, d, both_off r.parse_header (is_head command)) refl

-- A turn of the loop on a header line.
header_turn :
    (o : Options) (command : Fetch) (line : Line) (lines : List Line) (ignoring : Bool) (rxb : ℕ)
    (content : List Line)
    → is_dot line ≡ false
    → is_empty line ≡ false
    → rxb + length line ≤ o.max_art_size
    → read_loop o command (line ∷ lines) (reading true ignoring rxb content)
      ≡ read_loop o command lines
          (header_line o line (reading true ignoring (rxb + length line) content))
unfolding one_line
header_turn o command line lines ignoring rxb content d e h =
    read_loop-line o command line lines (reading true ignoring rxb content) d h
    ∙ ap (λ r. read_loop o command lines (one_line o command line r))
        (end_header-inside o command line (reading true ignoring (rxb + length line) content) d e)

header_line-skipped :
    (o : Options) (line : Line) (rxb : ℕ) (content : List Line)
    → is_spaced_line line ≡ true
    → header_line o line (reading true true rxb content) ≡ reading true true rxb content
unfolding header_line
header_line-skipped o line rxb content h = rw (header_line, h) refl

header_line-continued :
    (o : Options) (line : Line) (rxb : ℕ) (content : List Line)
    → are_keys o.clean_header ≡ true
    → is_spaced_line line ≡ true
    → header_line o line (reading true false rxb content)
      ≡ reading true false rxb (content ++ line ∷ [])
unfolding header_line
header_line-continued o line rxb content k h =
    let unlisted : (o.clean_headers && not o.proxy && has_any_prefix line o.clean_header) ≡ false =
      ground (arith, has_any_prefix-spaced line o.clean_header h k) in
    rw (header_line, h, unlisted) refl

header_line-first :
    (o : Options) (f : Field) (ignoring : Bool) (rxb : ℕ) (content : List Line)
    → is_spaced_line f.first ≡ false
    → header_line o f.first (reading true ignoring rxb content) ≡ (
        if left_out o f
        then reading true true rxb content
        else reading true false rxb (content ++ f.first ∷ []))
unfolding header_line left_out
header_line-first o f true rxb content h = rw (header_line, left_out, h) refl
header_line-first o f false rxb content h = rw (header_line, left_out, h) refl

-- The continued lines behind a field that is left out, and behind one that stays.
continued_turns :
    (o : Options) (command : Fetch) (conts lines : List Line) (ignoring : Bool) (rxb : ℕ)
    (content : List Line)
    → are_keys o.clean_header ≡ true
    → all_spaced conts ≡ true
    → rxb + size_of conts ≤ o.max_art_size
    → read_loop o command (conts ++ lines) (reading true ignoring rxb content)
      ≡ read_loop o command lines (
          reading true ignoring
            (rxb + size_of conts)
            (if ignoring then content else content ++ conts))
unfolding all_spaced size_of
continued_turns o command [] lines true rxb content k h l =
    let bytes : rxb ≡ rxb + 0 = omega arith in cc bytes
continued_turns o command [] lines false rxb content k h l =
    let bytes : rxb ≡ rxb + 0 = omega arith in cc (bytes, append-nil content)
continued_turns o command (line ∷ conts) lines true rxb content k h l =
    let spaced : is_spaced_line line ≡ true = ground (arith, h) in
    let others : all_spaced conts ≡ true = ground (arith, h) in
    let bytes : rxb + length line + size_of conts ≡ rxb + (length line + size_of conts) =
      omega arith in
    let plain = spaced_no_dot line spaced in
    header_turn o command line (conts ++ lines) true rxb content plain.0 plain.1 (omega (arith, l))
    ∙ ap (read_loop o command (conts ++ lines))
        (header_line-skipped o line (rxb + length line) content spaced)
    ∙ continued_turns o command conts lines true (rxb + length line) content k others
        (omega (arith, l))
    ∙ cc bytes
continued_turns o command (line ∷ conts) lines false rxb content k h l =
    let spaced : is_spaced_line line ≡ true = ground (arith, h) in
    let others : all_spaced conts ≡ true = ground (arith, h) in
    let bytes : rxb + length line + size_of conts ≡ rxb + (length line + size_of conts) =
      omega arith in
    let plain = spaced_no_dot line spaced in
    header_turn o command line (conts ++ lines) false rxb content plain.0 plain.1 (omega (arith, l))
    ∙ ap (read_loop o command (conts ++ lines))
        (header_line-continued o line (rxb + length line) content k spaced)
    ∙ continued_turns o command conts lines false (rxb + length line) (content ++ line ∷ []) k
        others (omega (arith, l))
    ∙ cc (bytes, append_assoc content (line ∷ []) conts)

-- A whole field.
field_turns :
    (o : Options) (command : Fetch) (f : Field) (lines : List Line) (ignoring : Bool) (rxb : ℕ)
    (content : List Line)
    → are_keys o.clean_header ≡ true
    → is_field f ≡ true
    → rxb + (length f.first + size_of f.continued) ≤ o.max_art_size
    → read_loop o command (f.first ∷ (f.continued ++ lines)) (reading true ignoring rxb content)
      ≡ read_loop o command lines (
          reading true
            (left_out o f)
            (rxb + (length f.first + size_of f.continued))
            (if left_out o f then content else content ++ f.first ∷ f.continued))
unfolding is_field
field_turns o command f lines ignoring rxb content k h l =
    let now = rxb + length f.first in
    let d : is_dot f.first ≡ false = ground (arith, h) in
    let e : is_empty f.first ≡ false = ground (arith, h) in
    let s : is_spaced_line f.first ≡ false = ground (arith, h) in
    let c : all_spaced f.continued ≡ true = ground (arith, h) in
    let bytes : now + size_of f.continued ≡ rxb + (length f.first + size_of f.continued) =
      omega arith in
    header_turn o command f.first (f.continued ++ lines) ignoring rxb content d e (omega (arith, l))
    ∙ ap (read_loop o command (f.continued ++ lines)) (header_line-first o f ignoring now content s)
    ∙ elim (Bool-cases (left_out o f)) [
      | inl out ↦ rw out (
          continued_turns o command f.continued lines true now content k c (omega (arith, l))
          ∙ cc bytes)
      | inr out ↦ rw out (
          continued_turns o command f.continued lines false now (content ++ f.first ∷ []) k c
            (omega (arith, l))
          ∙ cc (bytes, append_assoc content (f.first ∷ []) f.continued))
    ]

-- ignoreNextContinuedLine behind the last field.
unfoldable pub ignoring_after : Options → Bool → List Field → Bool
unfolding left_out
ignoring_after o ignoring [] = ignoring
ignoring_after o ignoring (f ∷ fs) = ignoring_after o (left_out o f) fs

-- All fields of a header.
pub fields_turns :
    (o : Options) (command : Fetch) (fs : List Field) (lines : List Line) (ignoring : Bool)
    (rxb : ℕ) (content : List Line)
    → are_keys o.clean_header ≡ true
    → are_fields fs ≡ true
    → rxb + size_of (field_lines fs) ≤ o.max_art_size
    → read_loop o command (field_lines fs ++ lines) (reading true ignoring rxb content)
      ≡ read_loop o command lines (
          reading true
            (ignoring_after o ignoring fs)
            (rxb + size_of (field_lines fs))
            (content ++ field_lines (kept_fields o fs)))
unfolding are_fields field_lines kept_fields ignoring_after size_of
fields_turns o command [] lines ignoring rxb content k h l =
    let bytes : rxb ≡ rxb + 0 = omega arith in cc (bytes, append-nil content)
fields_turns o command (f ∷ fs) lines ignoring rxb content k h l =
    let one : is_field f ≡ true = ground (arith, h) in
    let others : are_fields fs ≡ true = ground (arith, h) in
    let own = length f.first + size_of f.continued in
    let size : size_of (f.continued ++ field_lines fs)
        ≡ size_of f.continued + size_of (field_lines fs) =
      size_of-append f.continued (field_lines fs) in
    let bytes : rxb + own + size_of (field_lines fs)
        ≡ rxb + (length f.first + size_of (f.continued ++ field_lines fs)) =
      omega (arith, size) in
    let flat : f.continued ++ field_lines fs ++ lines ≡ f.continued ++ (field_lines fs ++ lines) =
      append_assoc f.continued (field_lines fs) lines in
    ap (λ ls. read_loop o command (f.first ∷ ls) (reading true ignoring rxb content)) flat
    ∙ field_turns o command f (field_lines fs ++ lines) ignoring rxb content k one
        (omega (arith, l, size))
    ∙ fields_turns o command fs lines (left_out o f) (rxb + own)
        (if left_out o f then content else content ++ f.first ∷ f.continued) k others
        (omega (arith, l, size))
    ∙ elim (Bool-cases (left_out o f)) [
      | inl out ↦ rw out (cc bytes)
      | inr out ↦ rw out (
          cc (bytes, append_assoc content (f.first ∷ f.continued) (field_lines (kept_fields o fs))))
    ]
