-- ===== src/Nntp/Wire.antt =====
-- NetConn.go: what the send loop of CMD_IHAVE and CMD_POST puts on the wire, and what ReadLine makes of it.
use nzbre_x.Prelude.{
  ℕ, zero, suc, ◌+◌, ◌-◌, ◌≤◌, Bool, true, false, List, [], ◌∷◌, ◌++◌, map, some, ◌≡◌, refl, sym,
  ap, ◌∙◌, ◌&&◌, not, ◌==◌, length, drop, arith, Bool-cases, inl, inr, length-append,
}
use mathlib.Core.List.{append_assoc}
use nzbre_x.Nntp.{
  Line, cr, lf, dot, dot_stuff, send_loop, send_article, starts_lf, cut_line, read_line,
  lines_on_fuel, wire_lines, has_prefix,
}

-- No LF within a line, which would end it on the wire.
unfoldable pub is_line : Line → Bool
is_line [] = true
is_line (c ∷ line) = not (c == lf) && is_line line

unfoldable pub are_lines : List Line → Bool
unfolding is_line
are_lines [] = true
are_lines (line ∷ lines) = is_line line && are_lines lines

-- Lines as bytes, each with its CRLF.
unfoldable pub crlf_all : List Line → List ℕ
crlf_all [] = []
crlf_all (line ∷ lines) = line ++ cr ∷ lf ∷ crlf_all lines

-- The bytes of the lines without the CRLFs, as readDotLines counts them.
unfoldable pub size_of : List Line → ℕ
size_of [] = 0
size_of (line ∷ lines) = length line + size_of lines

pub size_of-append : (xs ys : List Line) → size_of (xs ++ ys) ≡ size_of xs + size_of ys
unfolding size_of
size_of-append [] ys = omega arith
size_of-append (x ∷ xs) ys = omega (arith, size_of-append xs ys)

unfoldable pub dot_line : Line
dot_line = dot ∷ []

starts_lf-line : (line w : List ℕ) → is_line line ≡ true → starts_lf (line ++ cr ∷ lf ∷ w) ≡ false
unfolding is_line
starts_lf-line [] w h = refl
starts_lf-line (c ∷ line) w h = ground (arith, h)

pub cut_line-crlf :
    (line w : List ℕ) → is_line line ≡ true → cut_line (line ++ cr ∷ lf ∷ w) ≡ (line, w)
unfolding is_line cut_line
cut_line-crlf [] w h = refl
cut_line-crlf (c ∷ line) w h =
    let inner : is_line line ≡ true = ground (arith, h) in
    let outer : (c == lf) ≡ false = ground (arith, h) in
    let no_end : (c == cr && starts_lf (line ++ cr ∷ lf ∷ w)) ≡ false =
      ground (arith, starts_lf-line line w inner) in
    rw (outer, no_end, cut_line-crlf line w inner) refl

read_line-crlf :
    (line w : List ℕ) → is_line line ≡ true → read_line (line ++ cr ∷ lf ∷ w) ≡ some (line, w)
unfolding read_line
read_line-crlf [] w h = ap some (cut_line-crlf [] w h)
read_line-crlf (c ∷ line) w h = ap some (cut_line-crlf (c ∷ line) w h)

pub lines_on_fuel-crlf_all :
    (n : ℕ) (lines : List Line) (rest : List ℕ)
    → are_lines lines ≡ true
    → length lines ≤ n
    → lines_on_fuel n (crlf_all lines ++ rest) ≡ lines ++ lines_on_fuel (n - length lines) rest
unfolding are_lines crlf_all lines_on_fuel
lines_on_fuel-crlf_all n [] rest h k = ap (λ m. lines_on_fuel m rest) (omega arith)
lines_on_fuel-crlf_all zero (line ∷ lines) rest h k = elim k [ ]
lines_on_fuel-crlf_all (suc n) (line ∷ lines) rest h k =
    let first : is_line line ≡ true = ground (arith, h) in
    let others : are_lines lines ≡ true = ground (arith, h) in
    let flat : line ++ cr ∷ lf ∷ crlf_all lines ++ rest
        ≡ line ++ cr ∷ lf ∷ (crlf_all lines ++ rest) =
      append_assoc line (cr ∷ lf ∷ crlf_all lines) rest in
    rw
      (
        flat,
        lines_on_fuel,
        read_line-crlf line (crlf_all lines ++ rest) first,
        lines_on_fuel-crlf_all n lines rest others (omega arith),
      )
      (ap (λ m. line ∷ (lines ++ lines_on_fuel m rest)) (omega arith))

length-crlf_all : (lines : List Line) → length lines ≤ length (crlf_all lines)
unfolding crlf_all
length-crlf_all [] = omega arith
length-crlf_all (line ∷ lines) =
    omega (arith, length-crlf_all lines, length-append line (cr ∷ lf ∷ crlf_all lines))

-- With enough writes left the loop writes the lines and the final dot.
pub send_loop-wire :
    (room txb : ℕ) (out : List ℕ) (lines : List Line)
    → length lines + 2 ≤ room
    → send_loop room (record { ok = true; txb = txb; wire = out }) lines ≡ record {
      ok = true;
      txb = txb + length (crlf_all (map dot_stuff lines));
      wire = out ++ crlf_all (map dot_stuff lines ++ dot_line ∷ []);
    }
unfolding send_loop crlf_all dot_line
send_loop-wire zero txb out lines h = absurd (omega (arith, h))
send_loop-wire (suc zero) txb out lines h = absurd (omega (arith, h))
send_loop-wire (suc (suc room)) txb out [] h =
    ap (λ m. record { ok = true; txb = m; wire = out ++ dot ∷ cr ∷ lf ∷ [] }) (omega arith)
send_loop-wire (suc (suc room)) txb out (line ∷ lines) h =
    let now = dot_stuff line ++ cr ∷ lf ∷ [] in
    let later = crlf_all (map dot_stuff lines) in
    let whole = crlf_all (map dot_stuff lines ++ dot_line ∷ []) in
    let flat : (w : List ℕ) → dot_stuff line ++ cr ∷ lf ∷ w ≡ now ++ w =
      λ w. sym (append_assoc (dot_stuff line) (cr ∷ lf ∷ []) w) in
    let bytes : txb + length now + length later ≡ txb + length (dot_stuff line ++ cr ∷ lf ∷ later) =
      omega (arith, length-append now later, ap length (flat later)) in
    let text : out ++ now ++ whole ≡ out ++ (dot_stuff line ++ cr ∷ lf ∷ whole) =
      append_assoc out now whole ∙ ap (◌++◌ out) (sym (flat whole)) in
    send_loop-wire (suc room) (txb + length now) (out ++ now) lines (omega (arith, h))
    ∙ cc (bytes, text)

drop_first : (w : List ℕ) → length (drop 1 w) ≤ length w
drop_first [] = omega arith
drop_first (c ∷ w) = omega arith

cut_line_shrinks : (c : ℕ) (w : List ℕ) → length (cut_line (c ∷ w)).1 ≤ length w
unfolding cut_line
cut_line_shrinks c [] = ground arith
cut_line_shrinks c (d ∷ w) = elim (Bool-cases (c == lf)) [
  | inl e ↦ rw (e, cut_line) (omega arith)
  | inr e ↦ elim (Bool-cases (c == cr && d == lf)) [
    | inl k ↦ rw (e, k, cut_line) (omega arith)
    | inr k ↦ rw (e, k, cut_line) (omega (arith, cut_line_shrinks d w))
  ]
]

-- More fuel than bytes changes nothing.
pub lines_on_fuel_enough :
    (n m : ℕ) (w : List ℕ) → length w ≤ n → length w ≤ m → lines_on_fuel n w ≡ lines_on_fuel m w
unfolding lines_on_fuel read_line
lines_on_fuel_enough zero zero w h k = refl
lines_on_fuel_enough zero (suc m) [] h k = refl
lines_on_fuel_enough zero (suc m) (c ∷ w) h k = absurd (omega (arith, h))
lines_on_fuel_enough (suc n) zero [] h k = refl
lines_on_fuel_enough (suc n) zero (c ∷ w) h k = absurd (omega (arith, k))
lines_on_fuel_enough (suc n) (suc m) [] h k = refl
lines_on_fuel_enough (suc n) (suc m) (c ∷ w) h k = ap (◌∷◌ (cut_line (c ∷ w)).0) (
    lines_on_fuel_enough n m (cut_line (c ∷ w)).1 (omega (arith, h, cut_line_shrinks c w))
      (omega (arith, k, cut_line_shrinks c w)))

is_line-dot_stuff : (line : Line) → is_line line ≡ true → is_line (dot_stuff line) ≡ true
unfolding is_line dot_stuff has_prefix
is_line-dot_stuff [] h = refl
is_line-dot_stuff (c ∷ line) h = ground (arith, h)

are_lines-dot_stuff :
    (lines : List Line)
    → are_lines lines ≡ true
    → are_lines (map dot_stuff lines ++ dot_line ∷ []) ≡ true
unfolding are_lines dot_line is_line
are_lines-dot_stuff [] h = refl
are_lines-dot_stuff (line ∷ lines) h =
    let first : is_line line ≡ true = ground (arith, h) in
    let others : are_lines lines ≡ true = ground (arith, h) in
    ground (arith, is_line-dot_stuff line first, are_lines-dot_stuff lines others)

-- ReadLine gets the dot-stuffed lines back, then the final dot, then what is behind it.
pub wire_lines-sent :
    (room : ℕ) (lines : List Line) (rest : List ℕ)
    → are_lines lines ≡ true
    → length lines + 2 ≤ room
    → wire_lines ((send_article room lines).wire ++ rest)
      ≡ (map dot_stuff lines ++ dot_line ∷ []) ++ wire_lines rest
unfolding wire_lines send_article
wire_lines-sent room lines rest h k =
    let stuffed = map dot_stuff lines ++ dot_line ∷ [] in
    let whole = crlf_all stuffed ++ rest in
    let fits : length whole ≡ length (crlf_all stuffed) + length rest =
      length-append (crlf_all stuffed) rest in
    ap (λ s. wire_lines (s.wire ++ rest)) (send_loop-wire room 0 [] lines k)
    ∙ lines_on_fuel-crlf_all (length whole) stuffed rest (are_lines-dot_stuff lines h)
        (omega (arith, fits, length-crlf_all stuffed))
    ∙ ap (◌++◌ stuffed) (
        lines_on_fuel_enough (length whole - length stuffed) (length rest) rest
          (omega (arith, fits, length-crlf_all stuffed)) (omega arith))
