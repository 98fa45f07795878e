-- ===== src/Passwd.antt =====
-- passwd.go: files of users with the hashes of their passwords. A file is its bytes, ASCII; what bcrypt
-- makes of a password and what it says of a hash and a password are arguments. A time is in Unix seconds.
pub mod Entries
pub mod Decimals
pub mod Parts
pub mod Files
pub mod RoundTrip
use nzbre_x.Prelude.{
  ℕ, zero, suc, ◌+◌, ◌-◌, ◌/◌, ◌%◌, Bool, true, false, List, [], ◌∷◌, ◌++◌, map, Option, none, some,
  if◌then◌else◌, ◌&&◌, ◌||◌, not, ◌==◌, ltb, leb, length, take, contains, nat_eq, list_eq,
}
use nzbre_x.Prelude.Map.{Map, get, put, delete}
use nzbre_x.Nntp.{Line, codes, has_prefix, cr, lf}
use nzbre_x.Nntp.Commands.{to_lower}
use nzbre_x.Rapid.Fields.{ℤ, pos, negsuc, parse_int}

-- The hash stands in for the password where the record was read from a file.
pub record UserData : Type 0 where
  pub username : Line
  pub password : Line
  pub max_conns : ℤ
  pub expire_at : ℤ
  pub posting : Bool

abbrev pub bar : ℕ
bar = b'|'

abbrev pub min_username_len : ℕ
min_username_len = 10

unfoldable pub is_space : ℕ → Bool
is_space c = c == 32 || leb 9 c && leb c 13

-- strings.TrimSpace, from the left and from the right.
unfoldable pub trim_left : Line → Line
unfolding is_space
trim_left [] = []
trim_left (c ∷ line) = let rest = trim_left line in if is_space c then rest else c ∷ line

unfoldable pub trim_right : Line → Line
unfolding is_space
trim_right [] = []
trim_right (c ∷ line) =
    let rest = trim_right line in if length rest == 0 && is_space c then [] else c ∷ rest

unfoldable pub trim_space : Line → Line
unfolding trim_left trim_right
trim_space line = trim_right (trim_left line)

-- What stands before and behind the first bar.
unfoldable pub cut_bar : Line → Option (Line × Line)
cut_bar [] = none
cut_bar (c ∷ line) =
    let later : Option (Line × Line) = elim (cut_bar line) [
      | none ↦ none
      | some (part, rest) ↦ some (c ∷ part, rest)
    ] in
    if c == bar then some ([], line) else later

-- strings.SplitN(line, "|", n).
unfoldable pub split_n : ℕ → Line → List Line
unfolding cut_bar
split_n zero line = []
split_n (suc zero) line = line ∷ []
split_n (suc (suc n)) line = elim (cut_bar line) [
  | none ↦ line ∷ []
  | some (part, rest) ↦ part ∷ split_n (suc n) rest
]

abbrev pub lt_int : ℤ → ℕ → Bool
lt_int (pos n) now = ltb n now
lt_int (negsuc n) now = true

abbrev pub is_zero : ℤ → Bool
is_zero (pos n) = n == 0
is_zero (negsuc n) = false

-- strconv.Atoi and strconv.ParseInt; `none` is an error.
unfoldable pub number : Line → Option ℤ
unfolding parse_int
number text = let (n, bad) = parse_int text in if bad then none else some n

-- The checks of a line with five parts.
unfoldable pub check_parts : Bool → ℕ → List Line → Option UserData
unfolding trim_space number to_lower has_prefix
check_parts never_expires now (name ∷ hash ∷ conns ∷ expire ∷ post ∷ []) =
    let username = trim_space name in
    elim (number conns) [
      | none ↦ none
      | some max_conns ↦ elim (number expire) [
        | none ↦ none
        | some expire_at ↦
            if not (is_zero expire_at && never_expires) && lt_int expire_at now
            then none
            else if ltb (length username) min_username_len
            then none
            else if ltb (length hash) 60
            then none
            else some (record {
              username = username;
              password = hash;
              max_conns = max_conns;
              expire_at = expire_at;
              posting = has_prefix (map to_lower post) (codes "post");
            })
      ]
    ]
check_parts never_expires now _ = none

-- A line up to the test for duplicates: `none` is a line that is skipped.
unfoldable pub parse_entry : Bool → ℕ → Line → Option UserData
unfolding trim_space split_n check_parts has_prefix
parse_entry never_expires now text =
    let line = trim_space text in
    if length line == 0 || has_prefix line (b'#' ∷ [])
    then none
    else check_parts never_expires now (split_n 5 line)

-- bufio.ScanLines: the lines of a file; `word` is what the current line has so far. A last line need not end.
unfoldable pub drop_cr : Line → Line
drop_cr [] = []
drop_cr (c ∷ []) = if c == cr then [] else c ∷ []
drop_cr (c ∷ d ∷ line) = c ∷ drop_cr (d ∷ line)

unfoldable pub scan_from : Line → List ℕ → List Line
unfolding drop_cr
scan_from word [] = if length word == 0 then [] else drop_cr word ∷ []
scan_from word (c ∷ bytes) =
    let rest = scan_from (if c == lf then [] else word ++ c ∷ []) bytes in
    if c == lf then drop_cr word ∷ rest else rest

abbrev pub scan_lines : List ℕ → List Line
scan_lines bytes = scan_from [] bytes

-- The two maps of the loop; a name is in `dupes` if its value is true.
pub record Loading : Type 0 where
  pub users : Map Line UserData
  pub dupes : List Line

unfoldable pub add_entry : UserData → Loading → Loading
add_entry u l = if contains u.username l.dupes then l else elim (get u.username l.users) [
  | some _ ↦ record { users = delete u.username l.users; dupes = u.username ∷ l.dupes }
  | none ↦ record l { users = put u.username u l.users }
]

unfoldable pub parse_lines : Bool → ℕ → Loading → List Line → Loading
unfolding parse_entry add_entry
parse_lines never_expires now l [] = l
parse_lines never_expires now l (line ∷ lines) =
    parse_lines never_expires now
      (elim (parse_entry never_expires now line) [ none ↦ l | some u ↦ add_entry u l ]) lines

-- `none` is a file that cannot be opened, the flag an error while it is read.
unfoldable pub parse_passwd_file : Bool → ℕ → Option (List Line × Bool) → Option (Map Line UserData)
unfolding parse_lines
parse_passwd_file never_expires now none = none
parse_passwd_file never_expires now (some (lines, bad)) =
    if bad
    then none
    else some (parse_lines never_expires now (record { users = []; dupes = [] }) lines).users

-- loadPasswdFile of ProxyHelper.go behind the parser: the users that are kept, and whether it reports no error.
unfoldable pub load_passwd_file :
    Option (Map Line UserData) → Map Line UserData → Map Line UserData × Bool
load_passwd_file none old = (old, false)
load_passwd_file (some users) old = if length users == 0 then (old, true) else (users, true)

-- `dummy` is the hash that is compared where the user is unknown.
unfoldable pub verify_user :
    (compare : Line → Line → Bool) (dummy : Line) (now : ℕ)
    → Map Line UserData
    → Line
    → Line
    → Option UserData
verify_user compare dummy now users user plain_password =
    let found = get user users in
    let hash : Line = elim found [ none ↦ dummy | some u ↦ u.password ] in
    let matches = compare hash plain_password in
    elim found [
      | none ↦ none
      | some u ↦
          if not matches
          then none
          else if not (is_zero u.expire_at) && lt_int u.expire_at now
          then none
          else some u
    ]

-- A number in decimal; the number itself and one more is enough fuel.
unfoldable pub decimal_on_fuel : ℕ → ℕ → Line
decimal_on_fuel zero n = []
decimal_on_fuel (suc fuel) n =
    let tens = decimal_on_fuel fuel (n / 10) in
    if ltb n 10 then (n + 48) ∷ [] else tens ++ (n % 10 + 48) ∷ []

unfoldable pub decimal : ℤ → Line
unfolding decimal_on_fuel
decimal (pos n) = decimal_on_fuel (suc n) n
decimal (negsuc n) = b'-' ∷ decimal_on_fuel (suc (suc n)) (suc n)

-- The line that appendPasswdUser writes, without its LF.
unfoldable pub passwd_line : Line → UserData → Line
unfolding decimal
passwd_line hashed u =
    u.username
    ++ (bar
        ∷ (hashed
            ++ (bar
                ∷ (decimal u.max_conns
                    ++ (bar
                        ∷ (decimal u.expire_at
                            ++ (bar ∷ codes (if u.posting then "post" else "nopost"))))))))

-- What opening the file and writing to it come to: a write that fails may have written some bytes.
pub data Append : Type 0 where
  open_failed appended : Append
  append_failed : ℕ → Append

-- appendPasswdUser on the bytes of a file, and whether there is an error: `hash` is what bcrypt makes of the password,
-- `none` its error. The line goes behind the last byte, whatever that is.
unfoldable pub append_passwd_user : Option Line → Append → UserData → List ℕ → List ℕ × Bool
unfolding passwd_line
append_passwd_user hash outcome u bytes =
    if length u.password == 0 then (bytes, true) else elim hash [
      | none ↦ (bytes, true)
      | some hashed ↦
          let line = passwd_line hashed u ++ lf ∷ [] in
          elim outcome [
            | open_failed ↦ (bytes, true)
            | append_failed n ↦ (bytes ++ take n line, true)
            | appended ↦ (bytes ++ line, false)
          ]
    ]
