-- ===== src/Nntp/Limits.antt =====
-- NetConn.go: the bytes that readDotLines reads, and its limit.
use nzbre_x.Prelude.{
  ℕ, ap, ◌*◌, ◌++◌, if◌then◌else◌, ◌+◌, ◌≤◌, ◌<◌, Bool, true, false, List, [], ◌∷◌, ◌≡◌, refl, ◌&&◌,
  ltb, length, arith, Bool-cases, inl, inr,
}
use nzbre_x.Nntp.{Line}
use nzbre_x.Nntp.Articles.{counted, read_loop-line}
use nzbre_x.Nntp.Reader.{
  Fetch, article, head, body, other, Options, Reading, end_header, header_line, body_line, one_line,
  is_item_command, is_dot, Ended, read_error, too_large, final_dot, read_loop, ReadResult, failed,
  bad_crc, stored, end_reading, read_dot_lines, checks_yenc, reading_from, not_for_mail,
  dot_unstuff, header_line,
}

end_header-rxb :
    (o : Options) (command : Fetch) (line : Line) (r : Reading)
    → (end_header o command line r).rxb ≡ r.rxb
unfolding end_header
end_header-rxb o command line r = ground arith

one_line-rxb :
    (o : Options) (command : Fetch) (line : Line) (r : Reading)
    → (one_line o command line r).rxb ≡ r.rxb
unfolding one_line header_line body_line
one_line-rxb o article line r = ground arith
one_line-rxb o head line r = ground arith
one_line-rxb o body line r = ground arith
one_line-rxb o other line r = ground arith

-- The bytes read against the limit, by how the loop ends.
abbrev Within : ℕ → Ended × Reading × List Line → Type 0
Within most (too_large, r, rest) = most < r.rxb
Within most (final_dot, r, rest) = r.rxb ≤ most
Within most (read_error, r, rest) = r.rxb ≤ most

read_loop-none :
    (o : Options) (command : Fetch) (r : Reading) → read_loop o command [] r ≡ (read_error, r, [])
unfolding read_loop
read_loop-none o command r = refl

read_loop-large :
    (o : Options) (command : Fetch) (line : Line) (lines : List Line) (r : Reading)
    → is_item_command command ≡ true
    → ltb o.max_art_size (r.rxb + length line) ≡ true
    → read_loop o command (line ∷ lines) r ≡ (too_large, counted line r, lines)
unfolding read_loop
read_loop-large o command line lines r i e = rw (read_loop, i, e) refl

read_loop-final :
    (o : Options) (command : Fetch) (line : Line) (lines : List Line) (r : Reading)
    → ltb o.max_art_size (r.rxb + length line) ≡ false
    → is_dot line ≡ true
    → read_loop o command (line ∷ lines) r
      ≡ (final_dot, end_header o command line (counted line r), lines)
unfolding read_loop
read_loop-final o command line lines r e d =
    let small : (is_item_command command && ltb o.max_art_size (r.rxb + length line)) ≡ false =
      ground (arith, e) in
    rw (read_loop, small, d) refl

read_loop-Within :
    (o : Options) (command : Fetch) (lines : List Line) (r : Reading)
    → is_item_command command ≡ true
    → r.rxb ≤ o.max_art_size
    → Within o.max_art_size (read_loop o command lines r)
read_loop-Within o command [] r i h = rw (read_loop-none o command r) h
read_loop-Within o command (line ∷ lines) r i h =
    let ended = end_header o command line (counted line r) in
    let next = one_line o command line ended in
    let bytes : ended.rxb ≡ r.rxb + length line = end_header-rxb o command line (counted line r) in
    let same : next.rxb ≡ ended.rxb = one_line-rxb o command line ended in
    elim (Bool-cases (ltb o.max_art_size (r.rxb + length line))) [
      | inl e ↦ rw (read_loop-large o command line lines r i e) (ground (arith, e))
      | inr e ↦
          let small : r.rxb + length line ≤ o.max_art_size = ground (arith, e) in
          elim (Bool-cases (is_dot line)) [
            | inl d ↦ rw (read_loop-final o command line lines r e d) (omega (arith, bytes, small))
            | inr d ↦
                rw (read_loop-line o command line lines r d small)
                  (read_loop-Within o command lines next i (omega (arith, bytes, same, small)))
          ]
    ]

-- The bytes read against the limit, by the result of the call.
abbrev pub WithinLimit : ℕ → ReadResult → Type 0
WithinLimit most (failed true n) = most < n
WithinLimit most (failed false n) = n ≤ most
WithinLimit most (bad_crc n) = n ≤ most
WithinLimit most (stored n lines) = n ≤ most

end_reading-WithinLimit :
    (broken : List Line → Bool) (o : Options) (command : Fetch) (e : Ended × Reading × List Line)
    → Within o.max_art_size e
    → WithinLimit o.max_art_size (end_reading broken o command e).0
unfolding end_reading
end_reading-WithinLimit broken o command (read_error, r, rest) h = h
end_reading-WithinLimit broken o command (too_large, r, rest) h = h
end_reading-WithinLimit broken o command (final_dot, r, rest) h =
    elim (Bool-cases (checks_yenc o command && broken r.content)) [
      | inl e ↦ rw e h
      | inr e ↦ rw e h
    ]

-- The bytes of lines, without their ends.
abbrev pub total : List Line → ℕ
total [] = 0
total (line ∷ lines) = length line + total lines

total-concat :
    (lines : List Line) (line : Line) → total (lines ++ line ∷ []) ≡ total lines + length line
total-concat [] line = omega arith
total-concat (l ∷ lines) line = omega (arith, total-concat lines line)

-- The Date and Path lines that are added behind a header.
abbrev pub added : Options → ℕ
added o = length o.date + length not_for_mail

-- What is stored so far, and what the end of the header will add, against the bytes read; `k` of these are of the
-- line at hand.
abbrev Slack : ℕ → Options → Reading → Type 0
Slack k o r = total r.content + (if r.parse_header then added o else 0) + k ≤ r.rxb + added o

end_header-Slack :
    (o : Options) (command : Fetch) (line : Line) (r : Reading)
    → is_dot line ≡ false
    → Slack (length line) o r
    → Slack (length line) o (end_header o command line r)
unfolding end_header
end_header-Slack o command line r d h = ground (
  arith,
  d,
  h,
  total-concat r.content o.date,
  total-concat (r.content ++ o.date ∷ []) not_for_mail,
)

end_header-final :
    (o : Options) (command : Fetch) (line : Line) (r : Reading)
    → Slack (length line) o r
    → total (end_header o command line r).content ≤ r.rxb + 2 * added o
unfolding end_header
end_header-final o command line r h =
    ground (
      arith,
      h,
      total-concat r.content o.date,
      total-concat (r.content ++ o.date ∷ []) not_for_mail,
    )

length-dot_unstuff : (line : Line) → length (dot_unstuff line) ≤ length line
unfolding dot_unstuff
length-dot_unstuff [] = ground arith
length-dot_unstuff (c ∷ line) = ground arith

one_line-Slack :
    (o : Options) (command : Fetch) (line : Line) (r : Reading)
    → Slack (length line) o r
    → Slack 0 o (one_line o command line r)
unfolding one_line header_line body_line
one_line-Slack o article line r h = ground (
  arith,
  h,
  total-concat r.content line,
  total-concat r.content (dot_unstuff line),
  length-dot_unstuff line,
)
one_line-Slack o head line r h = ground (arith, h, total-concat r.content line)
one_line-Slack o body line r h = ground (
  arith,
  h,
  total-concat r.content line,
  total-concat r.content (dot_unstuff line),
  length-dot_unstuff line,
)
one_line-Slack o other line r h = ground (arith, h, total-concat r.content line)

-- The lines that the loop read, the bytes of them, and what is stored at the final dot.
abbrev stored_at : Ended → Reading → ℕ
stored_at final_dot r = total r.content
stored_at read_error r = 0
stored_at too_large r = 0

record Took (o : Options) (lines : List Line) (n : ℕ) (e : Ended × Reading × List Line)
    : Type 0 where
  taken : List Line
  read : lines ≡ taken ++ e.2
  bytes : e.1.rxb ≡ n + total taken
  kept : stored_at e.0 e.1 ≤ e.1.rxb + 2 * added o

read_loop-Took :
    (o : Options) (command : Fetch) (lines : List Line) (r : Reading)
    → is_item_command command ≡ true
    → Slack 0 o r
    → Took o lines r.rxb (read_loop o command lines r)
read_loop-Took o command [] r i h =
    rw (read_loop-none o command r)
      (record { taken = []; read = refl; bytes = omega arith; kept = omega arith })
read_loop-Took o command (line ∷ lines) r i h =
    let now = counted line r in
    let ended = end_header o command line now in
    let next = one_line o command line ended in
    let slack : Slack (length line) o now = omega (arith, h) in
    let bytes' : ended.rxb ≡ r.rxb + length line = end_header-rxb o command line now in
    let same : next.rxb ≡ ended.rxb = one_line-rxb o command line ended in
    elim (Bool-cases (ltb o.max_art_size (r.rxb + length line))) [
      | inl e ↦
          rw (read_loop-large o command line lines r i e)
            (record { taken = line ∷ []; read = refl; bytes = omega arith; kept = omega arith })
      | inr e ↦ elim (Bool-cases (is_dot line)) [
        | inl d ↦ rw (read_loop-final o command line lines r e d) (record {
          taken = line ∷ [];
          read = refl;
          bytes = omega (arith, bytes');
          kept = omega (arith, bytes', end_header-final o command line now slack);
        })
        | inr d ↦
            let more =
              read_loop-Took o command lines next i (
                one_line-Slack o command line ended
                  (end_header-Slack o command line now d slack)) in
            rw (read_loop-line o command line lines r d (ground (arith, e))) (record {
              taken = line ∷ more.taken;
              read = ap (λ l. line ∷ l) more.read;
              bytes = omega (arith, more.bytes, bytes', same);
              kept = more.kept;
            })
      ]
    ]

-- The bytes that the result reports, and those of the lines that it stores.
abbrev pub reported : ReadResult → ℕ
reported (failed closed n) = n
reported (bad_crc n) = n
reported (stored n lines) = n

abbrev pub kept_bytes : ReadResult → ℕ
kept_bytes (failed closed n) = 0
kept_bytes (bad_crc n) = 0
kept_bytes (stored n lines) = total lines

-- What the call took off the connection, against its result.
abbrev pub Reads : Options → List Line → ReadResult × List Line → Type 0
Reads o lines (result, rest) =
    (taken : List Line) × (lines ≡ taken ++ rest)
    × (reported result ≡ total taken)
    × (kept_bytes result ≤ reported result + 2 * added o)

end_reading-Reads :
    (broken : List Line → Bool) (o : Options) (command : Fetch) (lines : List Line)
    (e : Ended × Reading × List Line)
    → Took o lines 0 e
    → Reads o lines (end_reading broken o command e)
unfolding end_reading
end_reading-Reads broken o command lines (read_error, r, rest) t =
    (t.taken, t.read, omega (arith, t.bytes), omega arith)
end_reading-Reads broken o command lines (too_large, r, rest) t =
    (t.taken, t.read, omega (arith, t.bytes), omega arith)
end_reading-Reads broken o command lines (final_dot, r, rest) t =
    elim (Bool-cases (checks_yenc o command && broken r.content)) [
      | inl e ↦ rw e (t.taken, t.read, omega (arith, t.bytes), omega arith)
      | inr e ↦ rw e (t.taken, t.read, omega (arith, t.bytes), omega (arith, t.kept))
    ]

-- Whatever a server sends to ARTICLE, HEAD or BODY: the bytes that readDotLines reports are those of the lines that it
-- took off the connection, without their ends. They are no more than MaxArtSize, unless it closes the connection, and
-- more if it does. What it stores has no more bytes than that, but for the Date and Path lines, which it adds at
-- most twice.
pub read_dot_lines-WithinLimit :
    (broken : List Line → Bool) (o : Options) (command : Fetch) (lines : List Line)
    → is_item_command command ≡ true
    → WithinLimit o.max_art_size (read_dot_lines broken o command lines).0
      × Reads o lines (read_dot_lines broken o command lines)
unfolding read_dot_lines
read_dot_lines-WithinLimit broken o command lines i =
    let start = reading_from command in
    (
      end_reading-WithinLimit broken o command (read_loop o command lines start)
          (read_loop-Within o command lines start i (omega arith)),
      end_reading-Reads broken o command lines (read_loop o command lines start)
          (read_loop-Took o command lines start i (ground arith)),
    )
