-- ===== src/Passwd/RoundTrip.antt =====
-- passwd.go: a user that appendPasswdUser adds is read back by parsePasswdFile.
use mathlib.Core.List.{append-nil}
use nzbre_x.Prelude.{
  ℕ, ◌≤◌, ◌<◌, Bool, true, false, List, [], ◌∷◌, ◌++◌, map, ◌≡◌, refl, ap, sym, ◌∙◌, inl, inr,
  arith, some, if◌then◌else◌, not, ◌&&◌, ◌||◌, ◌==◌, length, ◌=?◌, =?_refl, nat_eq, list_eq,
  Bool-cases, Option-cases,
}
use nzbre_x.Nntp.{Line, codes, lf, has_prefix}
use nzbre_x.Nntp.Commands.{to_lower}
use nzbre_x.Passwd.{
  UserData, bar, is_space, trim_right, trim_space, split_n, decimal, check_parts, parse_entry,
  parse_passwd_file, verify_user, passwd_line, append_passwd_user, appended, scan_lines, is_zero,
  lt_int,
}
use nzbre_x.Passwd.Decimals.{IsInt64, number-decimal}
use nzbre_x.Passwd.Entries.{entries, named, login_accepted}
use nzbre_x.Prelude.Map.{Map}
use nzbre_x.Passwd.Files.{NoEol, EndsLine, scan_from-added, passwd_line-NoEol}
use nzbre_x.Passwd.Parts.{
  NoBar, IsPlain, split_n-append, NoBar-plain, NoBar-decimal, trim_right-append, trim_right-plain,
  trim_space-plain,
}

-- A user as the file has it, who can be written and read: the name is at least ten bytes, none of them a space or
-- a bar, and no comment; bcrypt's hash has 60 bytes or more, no bar and no end of a line; the numbers fit an int64.
pub record CanBeListed (hashed : Line) (u : UserData) : Type 0 where
  pub name : IsPlain u.username
  pub long : 10 ≤ length u.username
  pub no_comment : has_prefix u.username (b'#' ∷ []) ≡ false
  pub hash_long : 60 ≤ length hashed
  pub hash_no_bar : NoBar hashed
  pub hash_no_eol : NoEol hashed
  pub conns : IsInt64 u.max_conns
  pub expire : IsInt64 u.expire_at

abbrev post_word : UserData → Line
post_word u = codes (if u.posting then "post" else "nopost")

split_n-passwd_line :
    (hashed : Line) (u : UserData)
    → CanBeListed hashed u
    → split_n 5 (passwd_line hashed u)
      ≡ u.username ∷ hashed ∷ decimal u.max_conns ∷ decimal u.expire_at ∷ post_word u ∷ []
unfolding passwd_line
split_n-passwd_line hashed u v =
    split_n-append 3 u.username _ (NoBar-plain u.username v.name)
    ∙ ap (λ xs. u.username ∷ xs)
        (split_n-append 2 hashed _ v.hash_no_bar
          ∙ ap (λ xs. hashed ∷ xs)
              (split_n-append 1 (decimal u.max_conns) _ (NoBar-decimal u.max_conns)
                ∙ ap (λ xs. decimal u.max_conns ∷ xs)
                    (split_n-append 0 (decimal u.expire_at) _ (NoBar-decimal u.expire_at)
                      ∙ (unfold split_n in refl))))

post_read :
    (posting : Bool)
    → has_prefix (map to_lower (codes (if posting then "post" else "nopost"))) (codes "post")
      ≡ posting
unfolding has_prefix to_lower
post_read true = refl
post_read false = refl

post_end :
    (posting : Bool)
    → trim_right (bar ∷ codes (if posting then "post" else "nopost"))
      ≡ bar ∷ codes (if posting then "post" else "nopost")
unfolding trim_right is_space
post_end true = refl
post_end false = refl

trim_space-passwd_line :
    (hashed : Line) (u : UserData)
    → CanBeListed hashed u
    → trim_space (passwd_line hashed u) ≡ passwd_line hashed u
unfolding passwd_line
trim_space-passwd_line hashed u v =
    let post = bar ∷ post_word u in
    let three = bar ∷ (decimal u.expire_at ++ post) in
    let two = bar ∷ (decimal u.max_conns ++ three) in
    let one = bar ∷ (hashed ++ two) in
    let some_post : 0 < length post = omega arith in
    let end3 = trim_right-append (bar ∷ decimal u.expire_at) post some_post (post_end u.posting) in
    let end2 = trim_right-append (bar ∷ decimal u.max_conns) three (omega arith) end3 in
    let end1 = trim_right-append (bar ∷ hashed) two (omega arith) end2 in
    trim_space-plain u.username one (omega (arith, v.long)) v.name
      (trim_right-append u.username one (omega arith) end1)

-- The record as it is read back.
abbrev pub as_listed : Line → UserData → UserData
as_listed hashed u = record u { password = hashed }

check_parts-listed :
    (never_expires : Bool) (now : ℕ) (hashed : Line) (u : UserData)
    → CanBeListed hashed u
    → (not (is_zero u.expire_at && never_expires) && lt_int u.expire_at now) ≡ false
    → check_parts never_expires now
        (u.username ∷ hashed ∷ decimal u.max_conns ∷ decimal u.expire_at ∷ post_word u ∷ [])
      ≡ some (as_listed hashed u)
unfolding check_parts
check_parts-listed never_expires now hashed u v alive =
    let untrimmed : trim_right (u.username ++ []) ≡ u.username ++ [] =
      rw append-nil (trim_right-plain u.username v.name) in
    let padded = trim_space-plain u.username [] (omega (arith, v.long)) v.name untrimmed in
    let name : trim_space u.username ≡ u.username = rw append-nil at padded in
    let conns = number-decimal u.max_conns v.conns in
    let expire = number-decimal u.expire_at v.expire in
    ground (arith, name, conns, expire, alive, v.long, v.hash_long, post_read u.posting)

starts_entry :
    (text rest : Line)
    → 0 < length text
    → has_prefix text (b'#' ∷ []) ≡ false
    → ((length (text ++ rest) == 0) || has_prefix (text ++ rest) (b'#' ∷ [])) ≡ false
unfolding has_prefix
starts_entry [] rest ne h = absurd (omega arith)
starts_entry (c ∷ text) rest ne h = ground arith

parse_entry-passwd_line :
    (never_expires : Bool) (now : ℕ) (hashed : Line) (u : UserData)
    → CanBeListed hashed u
    → (not (is_zero u.expire_at && never_expires) && lt_int u.expire_at now) ≡ false
    → parse_entry never_expires now (passwd_line hashed u) ≡ some (as_listed hashed u)
unfolding parse_entry
parse_entry-passwd_line never_expires now hashed u v alive =
    let trimmed = trim_space-passwd_line hashed u v in
    let parts = split_n-passwd_line hashed u v in
    let checked = check_parts-listed never_expires now hashed u v alive in
    let start : ((length (passwd_line hashed u) == 0)
          || has_prefix (passwd_line hashed u) (b'#' ∷ []))
        ≡ false =
      unfold passwd_line in starts_entry u.username _ (omega (arith, v.long)) v.no_comment in
    rw (trimmed, start, parts) checked

entries-concat :
    (never_expires : Bool) (now : ℕ) (line : Line) (u : UserData) (lines : List Line)
    → parse_entry never_expires now line ≡ some u
    → entries never_expires now (lines ++ line ∷ []) ≡ entries never_expires now lines ++ u ∷ []
unfolding entries
entries-concat never_expires now line u [] h = rw (h, entries) refl
entries-concat never_expires now line u (l ∷ lines) h =
    elim (Option-cases (parse_entry never_expires now l)) [
      | inl skipped ↦ rw (skipped, entries) (entries-concat never_expires now line u lines h)
      | inr (v, read) ↦
          rw (read, entries) (ap (λ xs. v ∷ xs) (entries-concat never_expires now line u lines h))
    ]

written_bytes :
    (hashed : Line) (u : UserData) (bytes bytes' : List ℕ)
    → append_passwd_user (some hashed) appended u bytes ≡ (bytes', false)
    → bytes' ≡ bytes ++ (passwd_line hashed u ++ lf ∷ [])
unfolding append_passwd_user
written_bytes hashed u bytes bytes' added = elim (Bool-cases (length u.password == 0)) [
  | inl e ↦ absurd (cc (ap (λ r. r.1) (rw e at added)))
  | inr e ↦ sym (ap (λ r. r.0) (rw e at added))
]

-- What appendPasswdUser adds to a file that is empty or ends with an LF, for a user that can be listed and is not past
-- the expiry when the file is read, is one more entry behind those of the file.
entries-append_passwd_user :
    (never_expires : Bool) (now : ℕ) (hashed : Line) (u : UserData) (bytes bytes' : List ℕ)
    → append_passwd_user (some hashed) appended u bytes ≡ (bytes', false)
    → EndsLine bytes
    → CanBeListed hashed u
    → (not (is_zero u.expire_at && never_expires) && lt_int u.expire_at now) ≡ false
    → entries never_expires now (scan_lines bytes')
      ≡ entries never_expires now (scan_lines bytes) ++ as_listed hashed u ∷ []
unfolding append_passwd_user
entries-append_passwd_user never_expires now hashed u bytes bytes' added ends v alive =
    let e : bytes' ≡ bytes ++ (passwd_line hashed u ++ lf ∷ []) =
      written_bytes hashed u bytes bytes' added in
    let read = parse_entry-passwd_line never_expires now hashed u v alive in
    let line = passwd_line-NoEol hashed u v.name v.hash_no_eol in
    rw (e, scan_from-added bytes (passwd_line hashed u) ends line)
      (entries-concat never_expires now (passwd_line hashed u) (as_listed hashed u)
        (scan_lines bytes) read)

named-concat :
    (name : Line) (u : UserData) (us : List UserData)
    → u.username ≡ name
    → named name us ≡ []
    → named name (us ++ u ∷ []) ≡ u ∷ []
named-concat name u [] e h = rw (e, =?_refl name) refl
named-concat name u (v ∷ us) e h = elim (Bool-cases (v.username =? name)) [
  | inl t ↦ absurd (cc (rw t at h))
  | inr t ↦ rw t (named-concat name u us e (rw t at h))
]

-- A user that appendPasswdUser adds to a file that is empty or ends with an LF, that has no entry of that name, and who
-- can be listed, logs in with every password that fits the hash, from when the file is read until the expiry; an
-- expiry of 0 is none only where the file is read with neverExpires.
pub added_user_logs_in :
    (compare : Line → Line → Bool) (dummy : Line) (never_expires : Bool) (loaded now : ℕ)
    (hashed : Line) (u : UserData) (bytes bytes' : List ℕ) (users : Map Line UserData)
    (plain_password : Line)
    → append_passwd_user (some hashed) appended u bytes ≡ (bytes', false)
    → EndsLine bytes
    → CanBeListed hashed u
    → named u.username (entries never_expires loaded (scan_lines bytes)) ≡ []
    → (not (is_zero u.expire_at && never_expires) && lt_int u.expire_at loaded) ≡ false
    → parse_passwd_file never_expires loaded (some (scan_lines bytes', false)) ≡ some users
    → (not (is_zero u.expire_at) && lt_int u.expire_at now) ≡ false
    → compare hashed plain_password ≡ true
    → verify_user compare dummy now users u.username plain_password ≡ some (as_listed hashed u)
added_user_logs_in compare dummy never_expires loaded now hashed u bytes bytes' users pw written
      ends v new alive parsed later fits =
    let read =
      entries-append_passwd_user never_expires loaded hashed u bytes bytes' written ends v alive in
    let one : named u.username (entries never_expires loaded (scan_lines bytes'))
        ≡ as_listed hashed u ∷ [] =
      rw read (named-concat u.username (as_listed hashed u) _ refl new) in
    (login_accepted compare dummy never_expires loaded now (scan_lines bytes') users u.username pw
        (as_listed hashed u) parsed).1
      (one, fits, later)
