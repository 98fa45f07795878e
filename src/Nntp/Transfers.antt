-- ===== src/Nntp/Transfers.antt =====
-- NetConn.go: an article from the send loop to what readDotLines stores of it.
use nzbre_x.Prelude.{
  ℕ, ◌+◌, ◌≤◌, Bool, true, false, List, [], ◌∷◌, ◌++◌, map, ◌≡◌, refl, sym, ap, ◌∙◌, if◌then◌else◌,
  ◌&&◌, length, arith,
}
use mathlib.Core.List.{append_assoc, append-nil}
use nzbre_x.Nntp.{Line, dot_stuff, has_prefix, send_article, wire_lines}
use nzbre_x.Nntp.Wire.{are_lines, dot_line, size_of, wire_lines-sent}
use nzbre_x.Nntp.Reader.{
  article, body, Options, end_header, one_line, body_line, dot_unstuff, reading_from, read_loop,
  final_dot, read_dot_lines, end_reading, ReadResult, bad_crc, stored, checks_yenc, not_for_mail,
}
use nzbre_x.Nntp.Articles.{
  read_body, reading, read_loop-line, has_body, plain_lines, map-dot_stuff-plain,
}
use nzbre_x.Nntp.Skipping.{fields_turns, ignoring_after}
use nzbre_x.Nntp.Headers.{Field, field_lines, are_fields, are_keys, kept_fields, left_out}

-- The lines that an upload's header gets at its end.
abbrev pub added_lines : Options → List Line
added_lines o = if o.proxy then [] else o.date ∷ not_for_mail ∷ []

-- What becomes of an article that was read up to its final dot.
abbrev pub checked : (List Line → Bool) → Bool → ℕ → List Line → ReadResult
checked broken crc n lines = if crc && broken lines then bad_crc n else stored n lines

added-append :
    (p : Bool) (content : List Line) (d n : Line)
    → (if p then content else (content ++ d ∷ []) ++ n ∷ [])
      ≡ content ++ (if p then [] else d ∷ n ∷ [])
added-append true content d n = sym (append-nil content)
added-append false content d n = append_assoc content (d ∷ []) (n ∷ [])

empty_turn :
    (o : Options) (lines : List Line) (ignoring : Bool) (rxb : ℕ) (content : List Line)
    → rxb ≤ o.max_art_size
    → read_loop o article ([] ∷ lines) (reading true ignoring rxb content)
      ≡ read_loop o article lines
          (reading false ignoring (rxb + 0) ((content ++ added_lines o) ++ [] ∷ []))
unfolding end_header one_line body_line dot_unstuff
empty_turn o lines ignoring rxb content h =
    read_loop-line o article [] lines (reading true ignoring rxb content) refl (omega (arith, h))
    ∙ ap (λ c. read_loop o article lines (reading false ignoring (rxb + 0) (c ++ [] ∷ [])))
        (added-append o.proxy content o.date not_for_mail)

pub article_loop :
    (o : Options) (fs : List Field) (bd rest : List Line)
    → are_keys o.clean_header ≡ true
    → are_fields fs ≡ true
    → size_of (field_lines fs) + size_of (map dot_stuff bd) + 1 ≤ o.max_art_size
    → read_loop o article
        (field_lines fs ++ [] ∷ ((map dot_stuff bd ++ dot_line ∷ []) ++ rest))
        (reading_from article)
      ≡ (
        final_dot,
        reading false
            (ignoring_after o false fs)
            (size_of (field_lines fs) + size_of (map dot_stuff bd) + 1)
            (field_lines (kept_fields o fs) ++ added_lines o ++ [] ∷ bd),
        rest,
      )
unfolding has_body
article_loop o fs bd rest k h l =
    let head_size = 0 + size_of (field_lines fs) in
    let after = ignoring_after o false fs in
    let kept = field_lines (kept_fields o fs) in
    let bytes : head_size + 0 + size_of (map dot_stuff bd) + 1
        ≡ size_of (field_lines fs) + size_of (map dot_stuff bd) + 1 =
      omega arith in
    fields_turns o article fs ([] ∷ ((map dot_stuff bd ++ dot_line ∷ []) ++ rest)) false 0 [] k h
      (omega (arith, l))
    ∙ empty_turn o ((map dot_stuff bd ++ dot_line ∷ []) ++ rest) after head_size kept
        (omega (arith, l))
    ∙ read_body o article bd rest after (head_size + 0) ((kept ++ added_lines o) ++ [] ∷ []) refl
        (omega (arith, l))
    ∙ cc (bytes, append_assoc (kept ++ added_lines o) ([] ∷ []) bd)

stuffed_article :
    (head bd rest : List Line)
    → plain_lines head ≡ true
    → (map dot_stuff (head ++ [] ∷ bd) ++ dot_line ∷ []) ++ rest
      ≡ head ++ [] ∷ ((map dot_stuff bd ++ dot_line ∷ []) ++ rest)
unfolding dot_stuff has_prefix
stuffed_article head bd rest p =
    ap (λ ls. (ls ++ dot_line ∷ []) ++ rest) (map-dot_stuff-plain head ([] ∷ bd) p)
    ∙ append_assoc (head ++ [] ∷ map dot_stuff bd) (dot_line ∷ []) rest
    ∙ append_assoc head ([] ∷ map dot_stuff bd) (dot_line ∷ rest)
    ∙ ap (λ ls. head ++ [] ∷ ls) (sym (append_assoc (map dot_stuff bd) (dot_line ∷ []) rest))

kept_fields-proxy : (o : Options) (fs : List Field) → o.proxy ≡ true → kept_fields o fs ≡ fs
unfolding kept_fields left_out
kept_fields-proxy o [] x = refl
kept_fields-proxy o (f ∷ fs) x =
    let stays : left_out o f ≡ false = ground (arith, x) in
    rw (kept_fields, stays) (ap (◌∷◌ f) (kept_fields-proxy o fs x))

proxy_header :
    (o : Options) (fs : List Field)
    → o.proxy ≡ true
    → field_lines (kept_fields o fs) ++ added_lines o ≡ field_lines fs
proxy_header o fs x =
    ap (λ p. field_lines (kept_fields o fs) ++ (if p then [] else o.date ∷ not_for_mail ∷ [])) x
    ∙ append-nil (field_lines (kept_fields o fs))
    ∙ ap field_lines (kept_fields-proxy o fs x)

-- An article of header fields, an empty line and a body goes through CMD_IHAVE or CMD_POST with
-- room for its writes, and is read with ARTICLE from the bytes written, within the size limit.
-- Neither the keys to leave out nor a header line begin with what would be read otherwise (a space in
-- a key, a dot in a header line). Then readDotLines has the body as it was, the fields that are not
-- left out in their order, and behind them, but for the proxy, the new Date and Path lines; the bytes
-- behind the final dot stay on the connection, and the yEnc check alone can make it a bad one.
pub article_transferred :
    (broken : List Line → Bool) (o : Options) (room : ℕ) (fs : List Field) (bd : List Line)
    (more : List ℕ)
    → are_keys o.clean_header ≡ true
    → are_fields fs ≡ true
    → plain_lines (field_lines fs) ≡ true
    → are_lines (field_lines fs ++ [] ∷ bd) ≡ true
    → length (field_lines fs ++ [] ∷ bd) + 2 ≤ room
    → size_of (field_lines fs) + size_of (map dot_stuff bd) + 1 ≤ o.max_art_size
    → read_dot_lines broken o article
        (wire_lines ((send_article room (field_lines fs ++ [] ∷ bd)).wire ++ more))
      ≡ (
        checked broken o.yenc_crc
            (size_of (field_lines fs) + size_of (map dot_stuff bd) + 1)
            (field_lines (kept_fields o fs) ++ added_lines o ++ [] ∷ bd),
        wire_lines more,
      )
unfolding read_dot_lines end_reading checks_yenc
article_transferred broken o room fs bd more k h p l r size =
    ap (read_dot_lines broken o article) (
      wire_lines-sent room (field_lines fs ++ [] ∷ bd) more l r
      ∙ stuffed_article (field_lines fs) bd (wire_lines more) p)
    ∙ ap (end_reading broken o article) (article_loop o fs bd (wire_lines more) k h size)

-- The same for the proxy, which passes the article on as it is.
proxy_relays_unchanged :
    (broken : List Line → Bool) (o : Options) (room : ℕ) (fs : List Field) (bd : List Line)
    (more : List ℕ)
    → o.proxy ≡ true
    → are_keys o.clean_header ≡ true
    → are_fields fs ≡ true
    → plain_lines (field_lines fs) ≡ true
    → are_lines (field_lines fs ++ [] ∷ bd) ≡ true
    → length (field_lines fs ++ [] ∷ bd) + 2 ≤ room
    → size_of (field_lines fs) + size_of (map dot_stuff bd) + 1 ≤ o.max_art_size
    → read_dot_lines broken o article
        (wire_lines ((send_article room (field_lines fs ++ [] ∷ bd)).wire ++ more))
      ≡ (
        checked broken o.yenc_crc
            (size_of (field_lines fs) + size_of (map dot_stuff bd) + 1)
            (field_lines fs ++ [] ∷ bd),
        wire_lines more,
      )
proxy_relays_unchanged broken o room fs bd more x k h p l r size =
    article_transferred broken o room fs bd more k h p l r size
    ∙ ap
        (λ c. (
          checked broken o.yenc_crc (size_of (field_lines fs) + size_of (map dot_stuff bd) + 1)
              (c ++ [] ∷ bd),
          wire_lines more,
        ))
        (proxy_header o fs x)

-- A body of lines without LF that no header stands before, sent in the same way with room for its writes
-- and read with BODY within the size limit: its lines, their first dots included, arrive as they were.
body_transferred :
    (broken : List Line → Bool) (o : Options) (room : ℕ) (bd : List Line) (more : List ℕ)
    → are_lines bd ≡ true
    → length bd + 2 ≤ room
    → size_of (map dot_stuff bd) + 1 ≤ o.max_art_size
    → read_dot_lines broken o body (wire_lines ((send_article room bd).wire ++ more))
      ≡ (checked broken o.yenc_crc (size_of (map dot_stuff bd) + 1) bd, wire_lines more)
unfolding read_dot_lines end_reading checks_yenc has_body
body_transferred broken o room bd more l r size =
    let bytes : 0 + size_of (map dot_stuff bd) + 1 ≡ size_of (map dot_stuff bd) + 1 = omega arith in
    ap (read_dot_lines broken o body) (wire_lines-sent room bd more l r)
    ∙ ap (end_reading broken o body)
        (read_body o body bd (wire_lines more) false 0 [] refl (omega (arith, size)))
    ∙ ap (λ n. (checked broken o.yenc_crc n bd, wire_lines more)) bytes
