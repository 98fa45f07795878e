-- ===== src/Nntp/Replies.antt =====
-- NetConn.go and Routines.go: what the commands return for a server's answers, and what GoReupsRoutine
-- makes of it.
use nzbre_x.Prelude.{
  ℕ, zero, suc, ◌+◌, ◌<◌, Bool, true, false, List, [], ◌∷◌, Option, none, some, ◌≡◌, refl, sym, ap,
  ◌∙◌, if◌then◌else◌, ◌&&◌, ◌||◌, not, leb, ◌==◌, length, arith, Bool-cases, inl, inr,
}
use nzbre_x.Nntp.{Line, Sent, send_loop, send_article}
use nzbre_x.Nntp.Wire.{send_loop-wire}
use nzbre_x.Nntp.Commands.{Answer, Sending, sending, read_code_line, end_ihave, cmd_ihave, cmd_post}
use nzbre_x.Items.Replies.{
  Command, posts, ihaves, Upload, uploaded, unwanted, retry, upload_outcome,
}

-- GoReupsRoutine behind the command: `none` is the connection problem after which the item is flagged
-- with an error and the connection closed; else the outcome, and whether an error goes with it.
unfoldable pub reups_outcome : Command → Sending → Option (Upload × Bool)
unfolding upload_outcome
reups_outcome c s = if s.code == 0 && s.err then none else some (upload_outcome c s.code s.err)

send_loop-short :
    (room : ℕ) (s : Sent) (lines : List Line)
    → room < length lines + 2
    → (send_loop room s lines).ok ≡ false
unfolding send_loop
send_loop-short zero s lines h = refl
send_loop-short (suc zero) s [] h = refl
send_loop-short (suc (suc room)) s [] h = absurd (omega (arith, h))
send_loop-short (suc zero) s (line ∷ lines) h = refl
send_loop-short (suc (suc room)) s (line ∷ lines) h =
    send_loop-short (suc room) _ lines (omega (arith, h))

-- The article is on its way exactly if there is room for a write of each line, the dot and the flush.
send_article-ok :
    (room : ℕ) (lines : List Line) → (send_article room lines).ok ≡ leb (length lines + 2) room
unfolding send_article
send_article-ok room lines = elim (Bool-cases (leb (length lines + 2) room)) [
  | inl e ↦ ap (λ s. s.ok) (send_loop-wire room 0 [] lines (ground (arith, e))) ∙ sym e
  | inr e ↦ send_loop-short room _ lines (ground (arith, e)) ∙ sym e
]

abbrev pub is_uploaded : Option (Upload × Bool) → Bool
is_uploaded none = false
is_uploaded (some (uploaded, _)) = true
is_uploaded (some (unwanted, _)) = false
is_uploaded (some (retry, _)) = false

-- Uploaded without an error, so that the connection is kept.
abbrev pub is_clean : Option (Upload × Bool) → Bool
is_clean none = false
is_clean (some (uploaded, err)) = not err
is_clean (some (unwanted, err)) = false
is_clean (some (retry, err)) = false

-- The code, and no further lines announced.
abbrev pub is_only : ℕ → Option Answer → Bool
is_only code none = false
is_only code (some a) = a.code == code && not a.continued

abbrev pub has_code : ℕ → Option Answer → Bool
has_code code none = false
has_code code (some a) = a.code == code

abbrev pub has_lines : List Line → Bool
has_lines [] = false
has_lines (_ ∷ _) = true

abbrev pub done_code : Command → ℕ
done_code ihaves = 235
done_code posts = 240

is_uploaded-code :
    (c : Command) (s : Sending) → is_uploaded (reups_outcome c s) ≡ (s.code == done_code c)
unfolding reups_outcome upload_outcome
is_uploaded-code ihaves s = ground arith
is_uploaded-code posts s = ground arith

is_clean-code :
    (c : Command) (s : Sending)
    → is_clean (reups_outcome c s) ≡ (s.code == done_code c && not s.err)
unfolding reups_outcome upload_outcome
is_clean-code ihaves s = ground arith
is_clean-code posts s = ground arith

-- By IHAVE.
ihave-confirmed :
    (cmd_sent : Bool) (first : Option Answer) (room : ℕ) (second : Option Answer)
    (lines : List Line)
    → is_uploaded (reups_outcome ihaves (cmd_ihave cmd_sent first room second lines)) ≡ (
        cmd_sent
        && (has_code 235 first
            || has_code 335 first
              && has_lines lines
              && leb (length lines + 2) room
              && has_code 235 second))
unfolding cmd_ihave read_code_line end_ihave
ihave-confirmed false first room second lines = is_uploaded-code ihaves (sending 0 true 0)
ihave-confirmed true none room second lines = is_uploaded-code ihaves (sending 0 true 0)
ihave-confirmed true (some a) room second [] =
    is_uploaded-code ihaves (cmd_ihave true (some a) room second [])
    ∙ ground (arith, send_article-ok room [])
ihave-confirmed true (some a) room none (line ∷ lines) =
    is_uploaded-code ihaves (cmd_ihave true (some a) room none (line ∷ lines))
    ∙ ground (arith, send_article-ok room (line ∷ lines))
ihave-confirmed true (some a) room (some b) (line ∷ lines) =
    is_uploaded-code ihaves (cmd_ihave true (some a) room (some b) (line ∷ lines))
    ∙ ground (arith, send_article-ok room (line ∷ lines))

-- By POST.
post-confirmed :
    (cmd_sent : Bool) (first : Option Answer) (room : ℕ) (second : Option Answer)
    (lines : List Line)
    → is_uploaded (reups_outcome posts (cmd_post cmd_sent first room second lines)) ≡ (
        cmd_sent
        && (has_code 240 first
            || has_code 340 first && leb (length lines + 2) room && has_code 240 second))
unfolding cmd_post read_code_line
post-confirmed false first room second lines = is_uploaded-code posts (sending 0 true 0)
post-confirmed true none room second lines = is_uploaded-code posts (sending 0 true 0)
post-confirmed true (some a) room none lines =
    is_uploaded-code posts (cmd_post true (some a) room none lines)
    ∙ ground (arith, send_article-ok room lines)
post-confirmed true (some a) room (some b) lines =
    is_uploaded-code posts (cmd_post true (some a) room (some b) lines)
    ∙ ground (arith, send_article-ok room lines)

ihave-clean :
    (cmd_sent : Bool) (first : Option Answer) (room : ℕ) (second : Option Answer)
    (lines : List Line)
    → is_clean (reups_outcome ihaves (cmd_ihave cmd_sent first room second lines)) ≡ (
        cmd_sent
        && has_code 335 first
        && has_lines lines
        && leb (length lines + 2) room
        && is_only 235 second)
unfolding cmd_ihave read_code_line end_ihave
ihave-clean false first room second lines = is_clean-code ihaves (sending 0 true 0)
ihave-clean true none room second lines = is_clean-code ihaves (sending 0 true 0)
ihave-clean true (some a) room second [] =
    is_clean-code ihaves (cmd_ihave true (some a) room second [])
    ∙ ground (arith, send_article-ok room [])
ihave-clean true (some a) room none (line ∷ lines) =
    is_clean-code ihaves (cmd_ihave true (some a) room none (line ∷ lines))
    ∙ ground (arith, send_article-ok room (line ∷ lines))
ihave-clean true (some a) room (some b) (line ∷ lines) =
    is_clean-code ihaves (cmd_ihave true (some a) room (some b) (line ∷ lines))
    ∙ ground (arith, send_article-ok room (line ∷ lines))

post-clean :
    (cmd_sent : Bool) (first : Option Answer) (room : ℕ) (second : Option Answer)
    (lines : List Line)
    → is_clean (reups_outcome posts (cmd_post cmd_sent first room second lines))
      ≡ (cmd_sent && has_code 340 first && leb (length lines + 2) room && has_code 240 second)
unfolding cmd_post read_code_line
post-clean false first room second lines = is_clean-code posts (sending 0 true 0)
post-clean true none room second lines = is_clean-code posts (sending 0 true 0)
post-clean true (some a) room none lines =
    is_clean-code posts (cmd_post true (some a) room none lines)
    ∙ ground (arith, send_article-ok room lines)
post-clean true (some a) room (some b) lines =
    is_clean-code posts (cmd_post true (some a) room (some b) lines)
    ∙ ground (arith, send_article-ok room lines)

-- GoReupsRoutine takes an article for uploaded by IHAVE exactly if the command was written and the
-- server answered it with 335, the article has a line, every line, the final dot and the flush went
-- out and the server answered 235; or if it answered 235 to the command itself, before any line. By
-- POST the answers are 340 and 240, and the article may be empty. It does so without an error, and keeps the
-- connection, exactly if the answer did not come before the article and, by IHAVE, announces no further line.
pub upload_confirmed :
    (cmd_sent : Bool) (first : Option Answer) (room : ℕ) (second : Option Answer)
    (lines : List Line)
    → let by_ihave = reups_outcome ihaves (cmd_ihave cmd_sent first room second lines) in
      let by_post = reups_outcome posts (cmd_post cmd_sent first room second lines) in
      let all_sent = leb (length lines + 2) room in
      (is_uploaded by_ihave ≡ (
        cmd_sent
        && (has_code 235 first
            || has_code 335 first && has_lines lines && all_sent && has_code 235 second)))
      × (is_clean by_ihave
          ≡ (cmd_sent && has_code 335 first && has_lines lines && all_sent && is_only 235 second))
      × (is_uploaded by_post ≡ (
          cmd_sent
          && (has_code 240 first || has_code 340 first && all_sent && has_code 240 second)))
      × (is_clean by_post ≡ (cmd_sent && has_code 340 first && all_sent && has_code 240 second))
upload_confirmed cmd_sent first room second lines = (
  ihave-confirmed cmd_sent first room second lines,
  ihave-clean cmd_sent first room second lines,
  post-confirmed cmd_sent first room second lines,
  post-clean cmd_sent first room second lines,
)
