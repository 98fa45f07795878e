-- ===== src/Nntp.antt =====
-- NetConn.go: articles on the wire. A line is a list of bytes without its CRLF; a connection is the
-- bytes that are written to it or are still to be read. `read_line` is net/textproto's ReadLine.
pub mod Wire
pub mod Reader
pub mod Headers
pub mod Skipping
pub mod Articles
pub mod Transfers
pub mod Commands
pub mod Replies
pub mod Limits
pub mod Capabilities
use Prim.Native.Char.{code}
use Prim.Native.String.{String}
use nzbre_x.Prelude.{
  ℕ, zero, suc, ◌+◌, ◌-◌, Bool, true, false, List, [], ◌∷◌, ◌++◌, Option, none, some, if◌then◌else◌,
  ◌&&◌, ◌||◌, not, ◌==◌, length, drop,
}

abbrev pub Line : Type 0
Line = List ℕ

-- The bytes of an ASCII text.
abbrev pub codes : String → Line
codes String.[] = []
codes (String.◌∷◌ c s) = code c ∷ codes s

abbrev pub cr : ℕ
cr = 13

abbrev pub lf : ℕ
lf = 10

abbrev pub dot : ℕ
dot = b'.'

-- strings.HasPrefix with the line first, as in Go.
unfoldable pub has_prefix : Line → Line → Bool
has_prefix line [] = true
has_prefix [] (k ∷ key) = false
has_prefix (c ∷ line) (k ∷ key) = c == k && has_prefix line key

-- The line as the loops of CMD_IHAVE and CMD_POST write it: a dot before a first dot, then CRLF.
unfoldable pub dot_stuff : Line → Line
unfolding has_prefix
dot_stuff line = if has_prefix line (dot ∷ []) then dot ∷ line else line

-- `ok` is that no write failed, `txb` the bytes of the article's lines, `wire` what was written.
pub record Sent : Type 0 where
  pub ok : Bool
  pub txb : ℕ
  pub wire : List ℕ

-- The loop over item.article with the final dot and the flush. `room` is the number of writes that
-- succeed before one fails, the flush being the last.
unfoldable pub send_loop : ℕ → Sent → List Line → Sent
unfolding dot_stuff
send_loop zero s lines = record s { ok = false }
send_loop (suc zero) s [] = record s { ok = false; wire = s.wire ++ dot ∷ cr ∷ lf ∷ [] }
send_loop (suc (suc room)) s [] = record s { ok = true; wire = s.wire ++ dot ∷ cr ∷ lf ∷ [] }
send_loop (suc room) s (line ∷ lines) =
    let sent = dot_stuff line ++ cr ∷ lf ∷ [] in
    send_loop room (record s { txb = s.txb + length sent; wire = s.wire ++ sent }) lines

unfoldable pub send_article : ℕ → List Line → Sent
unfolding send_loop
send_article room lines = send_loop room (record { ok = true; txb = 0; wire = [] }) lines

abbrev pub starts_lf : List ℕ → Bool
starts_lf [] = false
starts_lf (c ∷ w) = c == lf

-- A line up to LF, CRLF or the end of the input, and the bytes behind it.
unfoldable pub cut_line : List ℕ → Line × List ℕ
cut_line [] = ([], [])
cut_line (c ∷ w) =
    let r = cut_line w in
    if c == lf then ([], w) else if c == cr && starts_lf w then ([], drop 1 w) else (c ∷ r.0, r.1)

-- ReadLine; `none` is the error at the end of the input.
unfoldable pub read_line : List ℕ → Option (Line × List ℕ)
unfolding cut_line
read_line [] = none
read_line (c ∷ w) = some (cut_line (c ∷ w))

-- The lines that successive calls of ReadLine return; each call reads a byte at least, so the
-- number of bytes is enough fuel.
unfoldable pub lines_on_fuel : ℕ → List ℕ → List Line
unfolding read_line
lines_on_fuel zero wire = []
lines_on_fuel (suc n) wire = elim (read_line wire) [
  | none ↦ []
  | some (line, rest) ↦ line ∷ lines_on_fuel n rest
]

unfoldable pub wire_lines : List ℕ → List Line
unfolding lines_on_fuel
wire_lines wire = lines_on_fuel (length wire) wire
