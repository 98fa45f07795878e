-- ===== src/Examples/Passwd.antt =====
-- passwd.go at concrete inputs.
use nzbre_x.Prelude.{
  ℕ, suc, zero, ◌≡◌, ◌↔◌, refl, Bool, true, false, List, [], ◌∷◌, ◌++◌, some, arith, inr, ◌&&◌, not,
  ◌=?◌, nat_eq, list_eq, same_list, contains, length, ◌==◌,
}
use nzbre_x.Prelude.Map.{Map, get, put, delete}
use nzbre_x.Nntp.{Line, codes, lf, has_prefix}
use nzbre_x.Rapid.Fields.{pos}
use nzbre_x.Passwd.{
  UserData, is_zero, lt_int, is_space, parse_entry, passwd_line, append_passwd_user, appended,
  scan_from, scan_lines, parse_lines, parse_passwd_file, verify_user,
}
use nzbre_x.Passwd.Files.{NoEol}
use nzbre_x.Passwd.Entries.{entries, named, login_accepted}
use nzbre_x.Passwd.RoundTrip.{CanBeListed, as_listed, added_user_logs_in}
use nzbre_x.Passwd.Parts.{NoBar, IsPlain}

-- A text of one letter, as long as a hash.
abbrev letters : ℕ → Line
letters zero = []
letters (suc n) = b'x' ∷ letters n

letters-NoBar : (n : ℕ) → NoBar (letters n)
letters-NoBar zero = tt
letters-NoBar (suc n) = (refl, letters-NoBar n)

letters-NoEol : (n : ℕ) → NoEol (letters n)
letters-NoEol zero = tt
letters-NoEol (suc n) = (refl, letters-NoEol n)

abbrev compare : Line → Line → Bool
compare hash password = (length hash == 60) && (password =? codes "secret")

abbrev hello : UserData
hello = record {
  username = codes "HelloWorld";
  password = codes "secret";
  max_conns = pos 5;
  expire_at = pos 2000;
  posting = true;
}

abbrev file : List Line
file = codes "# users" ∷ passwd_line (letters 60) hello ∷ codes "short|x|1|0|post" ∷ []

passwd_line_test : passwd_line (codes "h") hello ≡ codes "HelloWorld|h|5|2000|post"
unfolding passwd_line
passwd_line_test = refl

-- A name that is listed three times is in no map.
dupes_test :
    length (parse_lines false 100 (record { users = []; dupes = [] }) (file ++ file ++ file)).users
    ≡ 0
unfolding parse_lines passwd_line same_list contains get put delete
dupes_test = refl

login_accepted_example :
    (verify_user compare [] 500
        (parse_lines false 100 (record { users = []; dupes = [] }) file).users
        (codes "HelloWorld")
        (codes "secret")
      ≡ some (as_listed (letters 60) hello))
    ↔ ((named (codes "HelloWorld") (entries false 100 file) ≡ as_listed (letters 60) hello ∷ [])
        × (compare (letters 60) (codes "secret") ≡ true)
        × ((not (is_zero (pos 2000)) && lt_int (pos 2000) 500) ≡ false))
unfolding parse_passwd_file
login_accepted_example =
    login_accepted compare [] false 100 500 file
      (parse_lines false 100 (record { users = []; dupes = [] }) file).users (codes "HelloWorld")
      (codes "secret") (as_listed (letters 60) hello) refl

hello-IsPlain : IsPlain hello.username
unfolding is_space
hello-IsPlain = (refl, (refl, (refl, (refl, (refl, (refl, (refl, (refl, (refl, (refl, tt))))))))))

hello-CanBeListed : CanBeListed (letters 60) hello
unfolding has_prefix
hello-CanBeListed = record {
  name = hello-IsPlain;
  long = omega arith;
  no_comment = refl;
  hash_long = omega arith;
  hash_no_bar = letters-NoBar 60;
  hash_no_eol = letters-NoEol 60;
  conns = omega arith;
  expire = omega arith;
}

abbrev before : List ℕ
before = codes "# users" ++ lf ∷ []

abbrev after : List ℕ
after = before ++ (passwd_line (letters 60) hello ++ lf ∷ [])

abbrev loaded_users : Map Line UserData
loaded_users = (parse_lines false 100 (record { users = []; dupes = [] }) (scan_lines after)).users

added_user_logs_in_example :
    verify_user compare [] 2000 loaded_users (codes "HelloWorld") (codes "secret")
    ≡ some (as_listed (letters 60) hello)
unfolding append_passwd_user entries parse_entry parse_passwd_file same_list scan_from
added_user_logs_in_example =
    added_user_logs_in compare [] false 100 2000 (letters 60) hello before after loaded_users
      (codes "secret") refl (inr (codes "# users", refl)) hello-CanBeListed refl refl refl refl refl

-- A file whose last line does not end: the user is glued to it, and lost.
glued_test :
    (parse_lines false 100
      (record { users = []; dupes = [] })
      (scan_lines
        (append_passwd_user (some (letters 60)) appended hello (codes "# users")).0)).users
    ≡ []
unfolding append_passwd_user parse_lines passwd_line same_list scan_from has_prefix
glued_test = refl
