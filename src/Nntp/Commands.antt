-- ===== src/Nntp/Commands.antt =====
-- NetConn.go: CMD_STAT, CMD, CMD_IHAVE, CMD_POST and checkCapabilities, on connections that are there
-- (connitem and its parts not nil). What the server answers and how many writes succeed are
-- arguments.
use nzbre_x.Prelude.{
  ℕ, ◌+◌, Bool, true, false, List, [], ◌∷◌, map, Option, none, some, if◌then◌else◌, ◌&&◌, ◌||◌, not,
  ltb, leb, ◌==◌,
}
use nzbre_x.Nntp.{Line, codes, send_article}
use nzbre_x.Nntp.Reader.{
  Fetch, article, head, body, Options, ReadResult, failed, bad_crc, stored, read_dot_lines,
}

-- A line of the server as net/textproto's readCodeLine parses it; `continued` is a '-' behind the code.
pub record Answer : Type 0 where
  pub code : ℕ
  pub continued : Bool

-- ReadCodeLine with a three-digit code expected: the code, and whether there is an error. `none` is a
-- read error or a line without a code.
unfoldable pub read_code_line : ℕ → Option Answer → ℕ × Bool
read_code_line expected none = (0, true)
read_code_line expected (some a) = (a.code, not (a.code == expected) || a.continued)

-- `cmd_sent` is that srvtp.Cmd could write the command.
unfoldable pub cmd_stat : (cmd_sent : Bool) → Option Answer → ℕ × Bool
unfolding read_code_line
cmd_stat false answer = (0, true)
cmd_stat true answer =
    let code = (read_code_line 223 answer).0 in
    (code, not (code == 223 || code == 430 || code == 451))

unfoldable pub expected_code : Fetch → ℕ
expected_code article = 220
expected_code head = 221
expected_code body = 222
expected_code _ = 0

-- What CMD returns, what was read, and the lines that are left on the connection.
pub record Fetched : Type 0 where
  pub code : ℕ
  pub err : Bool
  pub rxb : ℕ
  pub result : Option ReadResult
  pub rest : List Line

unfoldable pub fetched : ℕ → ReadResult × List Line → Fetched
fetched code (failed closed n, rest) = record {
  code = code;
  err = true;
  rxb = n;
  result = some (failed closed n);
  rest = rest;
}
fetched code (bad_crc n, rest) = record {
  code = 99932;
  err = false;
  rxb = n;
  result = some (bad_crc n);
  rest = rest;
}
fetched code (stored n lines, rest) = record {
  code = code;
  err = false;
  rxb = n;
  result = some (stored n lines);
  rest = rest;
}

unfoldable pub cmd :
    (List Line → Bool) → Options → Fetch → (cmd_sent : Bool) → Option Answer → List Line → Fetched
unfolding read_code_line expected_code fetched
cmd broken o command false answer lines = record {
  code = 0;
  err = true;
  rxb = 0;
  result = none;
  rest = lines;
}
cmd broken o command true answer lines =
    let code = (read_code_line (expected_code command) answer).0 in
    if code == 220 || code == 221 || code == 222
    then fetched code (read_dot_lines broken o command lines)
    else record {
      code = code;
      err = not (code == 430 || code == 451);
      rxb = 0;
      result = none;
      rest = lines;
    }

-- What CMD_IHAVE and CMD_POST return: the code, whether there is an error, and txb.
pub record Sending : Type 0 where
  pub code : ℕ
  pub err : Bool
  pub txb : ℕ

abbrev pub sending : ℕ → Bool → ℕ → Sending
sending code err txb = record { code = code; err = err; txb = txb }

-- CMD_IHAVE behind the article, with the last answer.
unfoldable pub end_ihave : ℕ × Bool → ℕ → Sending
end_ihave (code, err) txb =
    if err
    then sending code true txb
    else sending code (not (code == 235 || code == 436 || code == 437)) txb

unfoldable pub cmd_ihave :
    (cmd_sent : Bool) → Option Answer → ℕ → Option Answer → List Line → Sending
unfolding read_code_line end_ihave
cmd_ihave false first room second lines = sending 0 true 0
cmd_ihave true first room second lines =
    let (code, err) = read_code_line 335 first in
    let sent = send_article room lines in
    let empty : Bool = elim lines [ [] ↦ true | _ ∷ _ ↦ false ] in
    if err && code == 0
    then sending code true 0
    else if code == 335
    then (if empty
        then sending 0 true 0
        else if sent.ok
        then end_ihave (read_code_line 235 second) sent.txb
        else sending 0 true sent.txb)
    else if code == 435
    then sending code false 0
    else if code == 436
    then sending code false 0
    else sending code true 0

unfoldable pub cmd_post :
    (cmd_sent : Bool) → Option Answer → ℕ → Option Answer → List Line → Sending
unfolding read_code_line
cmd_post false first room second lines = sending 0 true 0
cmd_post true first room second lines =
    let (code, err) = read_code_line 340 first in
    let sent = send_article room lines in
    let last = (read_code_line 240 second).0 in
    if code == 340
    then (if sent.ok
        then sending last (not (last == 240 || last == 441)) sent.txb
        else sending 0 true sent.txb)
    else if code == 440
    then sending code false 0
    else sending code err 0

-- strings.ToLower of an ASCII line.
unfoldable pub to_lower : ℕ → ℕ
to_lower c = if leb b'A' c && leb c b'Z' then c + 32 else c

unfoldable pub same_line : Line → Line → Bool
same_line [] [] = true
same_line (c ∷ l) (d ∷ m) = c == d && same_line l m
same_line _ _ = false

unfoldable pub is_capability : Line → Line → Bool
unfolding to_lower same_line
is_capability name line = same_line (map to_lower line) name

-- The variables of the loop over the server's capabilities.
pub record Capas : Type 0 where
  pub check : Bool
  pub ihave : Bool
  pub post : Bool
  pub stream : Bool
  pub post_providers : ℕ

unfoldable pub read_capability : Line → Capas → Capas
unfolding is_capability
read_capability line c =
    if is_capability (codes "check") line
    then record c { check = true }
    else if is_capability (codes "ihave") line
    then record c { ihave = true; post_providers = c.post_providers + 1 }
    else if is_capability (codes "post") line
    then record c { post = true; post_providers = c.post_providers + 1 }
    else if is_capability (codes "takethis") line
    then record c { stream = true; post_providers = c.post_providers + 1 }
    else if is_capability (codes "streaming") line
    then record c { stream = true; post_providers = c.post_providers + 1 }
    else c

unfoldable pub read_capabilities : List Line → Capas → Capas
unfolding read_capability
read_capabilities [] c = c
read_capabilities (line ∷ lines) c = read_capabilities lines (read_capability line c)

-- The provider's capabilities and NoUpload, with the count "postProviders" of the program.
pub record Uploader : Type 0 where
  pub check : Bool
  pub ihave : Bool
  pub post : Bool
  pub stream : Bool
  pub no_upload : Bool
  pub post_providers : ℕ

-- checkCapabilities: whether there is an error, and the provider. `sent` and `quit` are that the two
-- commands could be written, `lines` what ReadDotLines reads.
unfoldable pub check_capabilities :
    (check_only sent : Bool)
    → Option Answer
    → Option (List Line)
    → (quit : Bool) → Uploader
    → Bool × Uploader
unfolding read_code_line read_capabilities
check_capabilities true sent answer lines quit p = (false, p)
check_capabilities false false answer lines quit p = (true, p)
check_capabilities false true answer none quit p = (true, p)
check_capabilities false true answer (some lines) quit p =
    let start : Capas = record {
      check = false;
      ihave = false;
      post = false;
      stream = false;
      post_providers = 0;
    } in
    let c = read_capabilities lines start in
    if not ((read_code_line 101 answer).0 == 101) || not quit then (true, p) else (
      false,
      record p {
        check = c.check;
        ihave = c.ihave;
        post = c.post;
        stream = c.stream;
        no_upload = not c.ihave && not c.post && not c.stream;
        post_providers = if ltb 0 c.post_providers then p.post_providers + 1 else p.post_providers;
      },
    )
