-- ===== src/Nntp/Reader.antt =====
-- NetConn.go: readDotLines. The checks of the yEnc body (-yenctest) are an argument: the lines as
-- they are stored, to whether the article is broken or its checksum wrong.
use nzbre_x.Prelude.{
  ℕ, ◌+◌, Bool, true, false, List, [], ◌∷◌, ◌++◌, if◌then◌else◌, ◌&&◌, ◌||◌, not, ltb, ◌==◌, length,
  drop,
}
use nzbre_x.Nntp.{Line, codes, dot, has_prefix}

-- The item commands, and those of otherReadLineCommands.
pub data Fetch : Type 0 where
  article head body other : Fetch

unfoldable pub is_item_command : Fetch → Bool
is_item_command other = false
is_item_command _ = true

unfoldable pub is_head : Fetch → Bool
is_head head = true
is_head _ = false

-- The settings and globals that the function reads; `date` is the header line of the current time.
pub record Options : Type 0 where
  pub max_art_size : ℕ
  pub clean_headers : Bool
  pub proxy : Bool
  pub clean_header : List Line
  pub yenc_crc : Bool
  pub date : Line

unfoldable pub has_any_prefix : Line → List Line → Bool
unfolding has_prefix
has_any_prefix line [] = false
has_any_prefix line (key ∷ keys) = has_prefix line key || has_any_prefix line keys

abbrev pub clean_keys : List Line
clean_keys =
    codes "X-"
    ∷ codes "Date:"
    ∷ codes "Nntp-"
    ∷ codes "Path:"
    ∷ codes "Xref:"
    ∷ codes "Cancel-"
    ∷ codes "Injection-"
    ∷ codes "User-Agent:"
    ∷ codes "Organization:"
    ∷ []

abbrev pub not_for_mail : Line
not_for_mail = codes "Path: not-for-mail"

unfoldable pub is_dot : Line → Bool
is_dot (c ∷ []) = c == dot
is_dot _ = false

unfoldable pub is_spaced_line : Line → Bool
is_spaced_line [] = false
is_spaced_line (c ∷ line) = c == 32 || c == 9

abbrev pub is_empty : Line → Bool
is_empty [] = true
is_empty _ = false

-- The variables of the loop: parseHeader, ignoreNextContinuedLine, rxb and content.
pub record Reading : Type 0 where
  pub parse_header : Bool
  pub ignoring : Bool
  pub rxb : ℕ
  pub content : List Line

-- The end of the header.
unfoldable pub end_header : Options → Fetch → Line → Reading → Reading
unfolding is_dot is_head
end_header o command line r =
    if (r.parse_header && is_empty line) || (is_head command && is_dot line)
    then record r {
      parse_header = false;
      content = if o.proxy then r.content else (r.content ++ o.date ∷ []) ++ not_for_mail ∷ [];
    }
    else r

-- A header line: kept, or skipped with the continued lines behind it.
unfoldable pub header_line : Options → Line → Reading → Reading
unfolding is_spaced_line has_any_prefix
header_line o line r =
    let ignoring = r.ignoring && is_spaced_line line in
    if is_spaced_line line && ignoring
    then r
    else if o.clean_headers && not o.proxy && has_any_prefix line o.clean_header
    then record r { ignoring = true }
    else record r { ignoring = ignoring; content = r.content ++ line ∷ [] }

-- A dot less where a received line begins with two.
unfoldable pub dot_unstuff : Line → Line
unfolding has_prefix
dot_unstuff line = if has_prefix line (dot ∷ dot ∷ []) then drop 1 line else line

unfoldable pub body_line : Fetch → Line → Reading → Reading
unfolding dot_unstuff
body_line head line r = r
body_line other line r = record r { content = r.content ++ line ∷ [] }
body_line article line r = record r { content = r.content ++ dot_unstuff line ∷ [] }
body_line body line r = record r { content = r.content ++ dot_unstuff line ∷ [] }

-- A line behind the size check, which is not the final dot.
unfoldable pub one_line : Options → Fetch → Line → Reading → Reading
unfolding header_line body_line
one_line o command line r =
    if r.parse_header then header_line o line r else body_line command line r

-- How the loop over the lines ends.
pub data Ended : Type 0 where
  read_error too_large final_dot : Ended

-- The loop: how it ends, the variables, and the lines that are left on the connection.
unfoldable pub read_loop : Options → Fetch → List Line → Reading → Ended × Reading × List Line
unfolding end_header one_line is_item_command is_dot
read_loop o command [] r = (read_error, r, [])
read_loop o command (line ∷ lines) r =
    let r' : Reading = record r { rxb = r.rxb + length line } in
    let r'' = end_header o command line r' in
    let more = read_loop o command lines (one_line o command line r'') in
    if is_item_command command && ltb o.max_art_size r'.rxb
    then (too_large, r', lines)
    else if is_dot line
    then (final_dot, r'', lines)
    else more

-- What the call stores in the item (article, head or body with its size; nothing if no line is
-- stored, since the slice is nil then) or, for the other commands,
-- returns, with the codes 0, 1 and 99932 of the function. `closed` is that it closed the connection.
pub data ReadResult : Type 0 where
  failed : (closed : Bool) → ℕ → ReadResult
  bad_crc : ℕ → ReadResult
  stored : ℕ → List Line → ReadResult

abbrev pub reading_from : Fetch → Reading
reading_from command = record {
  parse_header = elim command [ article ↦ true | head ↦ true | _ ↦ false ];
  ignoring = false;
  rxb = 0;
  content = [];
}

unfoldable pub checks_yenc : Options → Fetch → Bool
checks_yenc o article = o.yenc_crc
checks_yenc o body = o.yenc_crc
checks_yenc o _ = false

unfoldable pub end_reading :
    (List Line → Bool) → Options → Fetch → Ended × Reading × List Line → ReadResult × List Line
unfolding checks_yenc
end_reading broken o command (read_error, r, rest) = (failed false r.rxb, rest)
end_reading broken o command (too_large, r, rest) = (failed true r.rxb, rest)
end_reading broken o command (final_dot, r, rest) = (
  if checks_yenc o command && broken r.content then bad_crc r.rxb else stored r.rxb r.content,
  rest,
)

unfoldable pub read_dot_lines :
    (List Line → Bool) → Options → Fetch → List Line → ReadResult × List Line
unfolding read_loop end_reading
read_dot_lines broken o command lines =
    end_reading broken o command (read_loop o command lines (reading_from command))
