-- ===== src/Proxy/ClientLines.antt =====
-- Server.go: readCommandLine, and the fields of a line.
use nzbre_x.Prelude.{
  ℕ, ◌-◌, List, [], ◌∷◌, ◌++◌, Option, none, some, if◌then◌else◌, ◌&&◌, ◌||◌, not, ◌==◌, ltb, leb,
  length, nat_eq, list_eq,
}
use nzbre_x.Nntp.{Line, cr, lf}
use nzbre_x.Passwd.{is_space}

abbrev pub proxy_max_line_len : ℕ
proxy_max_line_len = 512

-- The bytes up to the first LF and with it.
unfoldable pub cut_lf : List ℕ → Option (Line × List ℕ)
cut_lf [] = none
cut_lf (c ∷ wire) =
    let later : Option (Line × List ℕ) = elim (cut_lf wire) [
      | none ↦ none
      | some (line, rest) ↦ some (c ∷ line, rest)
    ] in
    if c == lf then some (c ∷ [], wire) else later

-- strings.TrimRight(line, "\r\n").
unfoldable pub trim_eol : Line → Line
trim_eol [] = []
trim_eol (c ∷ line) =
    let rest = trim_eol line in if length rest == 0 && (c == cr || c == lf) then [] else c ∷ rest

pub data ClientCommand : Type 0 where
  line_of : Line → ClientCommand
  line_too_long read_error : ClientCommand

-- readCommandLine: the line and the bytes behind it.
unfoldable pub read_command_line : List ℕ → ClientCommand × List ℕ
unfolding cut_lf trim_eol
read_command_line wire = elim (cut_lf wire) [
  | none ↦ (read_error, [])
  | some (line, rest) ↦ (
    if ltb proxy_max_line_len (length line) then line_too_long else line_of (trim_eol line),
    rest,
  )
]

-- strings.Fields on ASCII: `word` is what the current field has so far.
unfoldable pub fields_from : Line → Line → List Line
unfolding is_space
fields_from word [] = if length word == 0 then [] else word ∷ []
fields_from word (c ∷ text) =
    let more = fields_from (if is_space c then [] else word ++ c ∷ []) text in
    if is_space c && not (length word == 0) then word ∷ more else more

abbrev pub fields : Line → List Line
fields text = fields_from [] text

unfoldable pub to_upper : ℕ → ℕ
to_upper c = if leb b'a' c && leb c b'z' then c - 32 else c
