-- ===== src/Nntp/Articles.antt =====
-- NetConn.go: articles from the send loop of CMD_IHAVE and CMD_POST, over the wire, to readDotLines.
use nzbre_x.Prelude.{
  ℕ, ◌+◌, ◌≤◌, Bool, true, false, List, [], ◌∷◌, ◌++◌, map, ◌≡◌, refl, sym, ap, ◌∙◌, ◌&&◌, not,
  ◌==◌, ltb, length, arith, Bool-cases, inl, inr,
}
use mathlib.Core.List.{append_assoc, append-nil}
use nzbre_x.Nntp.{Line, dot, dot_stuff, has_prefix}
use nzbre_x.Nntp.Wire.{dot_line, size_of}
use nzbre_x.Nntp.Reader.{
  Fetch, article, head, body, other, Options, is_dot, is_item_command, dot_unstuff, body_line,
  end_header, one_line, Reading, read_loop, final_dot,
}

pub dot_unstuff-stuff : (line : Line) → dot_unstuff (dot_stuff line) ≡ line
unfolding dot_unstuff dot_stuff has_prefix
dot_unstuff-stuff [] = refl
dot_unstuff-stuff (c ∷ line) = elim (Bool-cases (c == dot)) [
  | inl e ↦ rw e (rw e refl)
  | inr e ↦ rw e (rw e refl)
]

pub is_dot-dot_stuff : (line : Line) → is_dot (dot_stuff line) ≡ false
unfolding is_dot dot_stuff has_prefix
is_dot-dot_stuff [] = refl
is_dot-dot_stuff (c ∷ []) = elim (Bool-cases (c == dot)) [
  | inl e ↦ rw e refl
  | inr e ↦ rw e (rw e refl)
]
is_dot-dot_stuff (c ∷ d ∷ line) = elim (Bool-cases (c == dot)) [
  | inl e ↦ rw e refl
  | inr e ↦ rw e refl
]

-- Lines that no dot begins.
unfoldable pub plain_lines : List Line → Bool
unfolding has_prefix
plain_lines [] = true
plain_lines (line ∷ lines) = not (has_prefix line (dot ∷ [])) && plain_lines lines

pub map-dot_stuff-plain :
    (lines others : List Line)
    → plain_lines lines ≡ true
    → map dot_stuff (lines ++ others) ≡ lines ++ map dot_stuff others
unfolding plain_lines dot_stuff
map-dot_stuff-plain [] others h = refl
map-dot_stuff-plain (line ∷ lines) others h =
    let undotted : has_prefix line (dot ∷ []) ≡ false = ground (arith, h) in
    let rest : plain_lines lines ≡ true = ground (arith, h) in
    rw (undotted, map-dot_stuff-plain lines others rest) refl

-- The commands whose body lines lose a dot.
unfoldable pub has_body : Fetch → Bool
has_body article = true
has_body body = true
has_body _ = false

abbrev pub reading : Bool → Bool → ℕ → List Line → Reading
reading parse ignoring rxb content = record {
  parse_header = parse;
  ignoring = ignoring;
  rxb = rxb;
  content = content;
}

step_body :
    (o : Options) (command : Fetch) (line : Line) (ignoring : Bool) (rxb : ℕ) (content : List Line)
    → has_body command ≡ true
    → one_line o command line (end_header o command line (reading false ignoring rxb content))
      ≡ reading false ignoring rxb (content ++ dot_unstuff line ∷ [])
unfolding has_body one_line end_header body_line
step_body o article line ignoring rxb content h = refl
step_body o body line ignoring rxb content h = refl
step_body o head line ignoring rxb content h = absurd (cc h)
step_body o other line ignoring rxb content h = absurd (cc h)

abbrev pub counted : Line → Reading → Reading
counted line r = record r { rxb = r.rxb + length line }

small_enough :
    (o : Options) (command : Fetch) (n : ℕ)
    → n ≤ o.max_art_size
    → (is_item_command command && ltb o.max_art_size n) ≡ false
small_enough o command n h = ground (arith, h)

-- A turn of the loop within the size limit.
pub read_loop-line :
    (o : Options) (command : Fetch) (line : Line) (lines : List Line) (r : Reading)
    → is_dot line ≡ false
    → r.rxb + length line ≤ o.max_art_size
    → read_loop o command (line ∷ lines) r
      ≡ read_loop o command lines
          (one_line o command line (end_header o command line (counted line r)))
unfolding read_loop
read_loop-line o command line lines r d h =
    rw (read_loop, small_enough o command (r.rxb + length line) h, d) refl

pub read_loop-dot :
    (o : Options) (command : Fetch) (lines : List Line) (r : Reading)
    → r.rxb + 1 ≤ o.max_art_size
    → read_loop o command (dot_line ∷ lines) r
      ≡ (final_dot, end_header o command dot_line (counted dot_line r), lines)
unfolding read_loop dot_line is_dot
read_loop-dot o command lines r h = rw (read_loop, small_enough o command (r.rxb + 1) h) refl

end_header-body :
    (o : Options) (command : Fetch) (line : Line) (ignoring : Bool) (rxb : ℕ) (content : List Line)
    → has_body command ≡ true
    → end_header o command line (reading false ignoring rxb content)
      ≡ reading false ignoring rxb content
unfolding has_body end_header
end_header-body o article line ignoring rxb content h = refl
end_header-body o body line ignoring rxb content h = refl
end_header-body o head line ignoring rxb content h = absurd (cc h)
end_header-body o other line ignoring rxb content h = absurd (cc h)

-- The loop over dot-stuffed body lines up to the final dot, within the size limit.
pub read_body :
    (o : Options) (command : Fetch) (lines rest : List Line) (ignoring : Bool) (rxb : ℕ)
    (content : List Line)
    → has_body command ≡ true
    → rxb + size_of (map dot_stuff lines) + 1 ≤ o.max_art_size
    → read_loop o command
        ((map dot_stuff lines ++ dot_line ∷ []) ++ rest)
        (reading false ignoring rxb content)
      ≡ (
        final_dot,
        reading false ignoring (rxb + size_of (map dot_stuff lines) + 1) (content ++ lines),
        rest,
      )
unfolding size_of dot_line
read_body o command [] rest ignoring rxb content b h =
    let bytes : rxb + 1 ≡ rxb + 0 + 1 = omega arith in
    read_loop-dot o command rest (reading false ignoring rxb content) (omega (arith, h))
    ∙ ap (λ r. (final_dot, r, rest))
        (end_header-body o command dot_line ignoring (rxb + 1) content b)
    ∙ cc (bytes, sym (append-nil content))
read_body o command (line ∷ lines) rest ignoring rxb content b h =
    let now = rxb + length (dot_stuff line) in
    let left = size_of (map dot_stuff lines) in
    let bytes : now + left + 1 ≡ rxb + (length (dot_stuff line) + left) + 1 = omega arith in
    read_loop-line o command (dot_stuff line) ((map dot_stuff lines ++ dot_line ∷ []) ++ rest)
      (reading false ignoring rxb content) (is_dot-dot_stuff line) (omega (arith, h))
    ∙ ap (read_loop o command ((map dot_stuff lines ++ dot_line ∷ []) ++ rest)) (
        step_body o command (dot_stuff line) ignoring now content b
        ∙ ap (λ l. reading false ignoring now (content ++ l ∷ [])) (dot_unstuff-stuff line))
    ∙ read_body o command lines rest ignoring now (content ++ line ∷ []) b (omega (arith, h))
    ∙ cc (bytes, append_assoc content (line ∷ []) lines)
