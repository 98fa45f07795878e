-- ===== src/Passwd/Entries.antt =====
-- passwd.go: which users a file has, and whom it lets in.
use mathlib.Core.List.{append-nil, append_assoc}
use mathlib.Core.Path.{subst}
use nzbre_x.Prelude.{
  ℕ, Bool, true, false, List, [], ◌∷◌, ◌++◌, ◌≡◌, ◌↔◌, refl, ap, sym, ◌∙◌, inl, inr, arith, Option,
  none, some, not, ◌&&◌, leb, length, keep, Bool-cases, Option-cases, contains, nat_eq, list_eq,
  ◌=?◌, same_list_iff, =?_refl,
}
use nzbre_x.Prelude.Map.{Map, get, get-put, get-delete}
use nzbre_x.Nntp.{Line}
use nzbre_x.Passwd.{
  UserData, Loading, parse_entry, add_entry, parse_lines, parse_passwd_file, verify_user, is_zero,
  lt_int,
}

-- The entries of the lines that are not skipped.
unfoldable pub entries : Bool → ℕ → List Line → List UserData
entries never_expires now [] = []
entries never_expires now (line ∷ lines) = elim (parse_entry never_expires now line) [
  | none ↦ entries never_expires now lines
  | some u ↦ u ∷ entries never_expires now lines
]

abbrev pub named : Line → List UserData → List UserData
named name us = keep (λ u. u.username =? name) us

abbrev pub only {ℓ} : {A : Type ℓ} → List A → Option A
only [] = none
only (x ∷ []) = some x
only (x ∷ y ∷ xs) = none

-- What the loop has of a name after some entries.
record Fits (name : Line) (us : List UserData) (l : Loading) : Type 0 where
  found : get name l.users ≡ only us
  twice : contains name l.dupes ≡ leb 2 (length us)

add_entry-same :
    (u : UserData) (k : List UserData) (l : Loading)
    → Fits u.username k l
    → Fits u.username (k ++ u ∷ []) (add_entry u l)
unfolding add_entry contains
add_entry-same u [] l f =
    let self = =?_refl u.username in
    let new = get-put u.username u.username u l.users in
    record {
      found = ground (arith, f.found, f.twice, self, new);
      twice = ground (arith, f.found, f.twice);
    }
add_entry-same u (x ∷ []) l f =
    let self = =?_refl u.username in
    let gone = get-delete u.username u.username l.users in
    record {
      found = ground (arith, f.found, f.twice, self, gone);
      twice = ground (arith, f.found, f.twice, self);
    }
add_entry-same u (x ∷ y ∷ k) l f = record {
  found = ground (arith, f.found, f.twice);
  twice = ground (arith, f.found, f.twice);
}

add_entry-other :
    (u : UserData) (name : Line) (k : List UserData) (l : Loading)
    → (u.username =? name) ≡ false
    → Fits name k l
    → Fits name k (add_entry u l)
unfolding add_entry contains
add_entry-other u name k l other f =
    let put' = get-put u.username name u l.users in
    let gone = get-delete u.username name l.users in
    record { found = ground (arith, f.found, put', gone); twice = ground (arith, f.twice) }

add_entry-Fits :
    (u : UserData) (name : Line) (k : List UserData) (l : Loading)
    → Fits name k l
    → Fits name (k ++ named name (u ∷ [])) (add_entry u l)
add_entry-Fits u name k l f = elim (Bool-cases (u.username =? name)) [
  | inl t ↦
      let e : u.username ≡ name = (same_list_iff u.username name).0 t in
      rw t (rw (← e) (add_entry-same u k l (rw e f)))
  | inr t ↦ rw (t, append-nil) (add_entry-other u name k l t f)
]

keep-append {ℓ} :
    {A : Type ℓ} (p : A → Bool) (x : A) (xs : List A)
    → keep p (x ∷ xs) ≡ keep p (x ∷ []) ++ keep p xs
keep-append p x xs = ground arith

parse_lines-Fits :
    (never_expires : Bool) (now : ℕ) (name : Line) (lines : List Line) (k : List UserData)
    (l : Loading)
    → Fits name k l
    → Fits name
        (k ++ named name (entries never_expires now lines))
        (parse_lines never_expires now l lines)
unfolding entries parse_lines
parse_lines-Fits never_expires now name [] k l f = rw append-nil f
parse_lines-Fits never_expires now name (line ∷ lines) k l f =
    elim (Option-cases (parse_entry never_expires now line)) [
      | inl skipped ↦
          rw (skipped, entries, parse_lines) (parse_lines-Fits never_expires now name lines k l f)
      | inr (u, read) ↦
          let rest = entries never_expires now lines in
          let step = add_entry-Fits u name k l f in
          let all = parse_lines-Fits never_expires now name lines _ _ step in
          let e =
            append_assoc k (named name (u ∷ [])) (named name rest)
            ∙ ap (λ xs. k ++ xs) (sym (keep-append (λ v. v.username =? name) u rest)) in
          rw (read, entries, parse_lines)
            (subst (λ xs. Fits name xs (parse_lines never_expires now (add_entry u l) lines)) e all)
    ]

-- A user is in the map exactly if one line alone that is not skipped has the name.
parse_lines-users :
    (never_expires : Bool) (now : ℕ) (name : Line) (lines : List Line)
    → get name (parse_lines never_expires now (record { users = []; dupes = [] }) lines).users
      ≡ only (named name (entries never_expires now lines))
unfolding get contains
parse_lines-users never_expires now name lines =
    (parse_lines-Fits never_expires now name lines [] (record { users = []; dupes = [] })
      (record { found = refl; twice = refl })).found

only_iff {ℓ} : {A : Type ℓ} (xs : List A) (u : A) → (only xs ≡ some u) ↔ (xs ≡ u ∷ [])
only_iff [] u = ground arith
only_iff (x ∷ []) u = ground arith
only_iff (x ∷ y ∷ xs) u = ground arith

verify_user_iff :
    (compare : Line → Line → Bool) (dummy : Line) (now : ℕ) (users : Map Line UserData)
    (user plain_password : Line) (u : UserData)
    → (verify_user compare dummy now users user plain_password ≡ some u) ↔ (
        (get user users ≡ some u)
        × (compare u.password plain_password ≡ true)
        × ((not (is_zero u.expire_at) && lt_int u.expire_at now) ≡ false))
unfolding verify_user
verify_user_iff compare dummy now users user plain_password u = ground arith

-- Of a file that could be read, verifyUser lets a user in exactly if one line alone, of those that parsePasswdFile
-- does not skip, has the name, its hash fits the password, and it has no expiry or is not past it; and
-- then it returns what the line says.
pub login_accepted :
    (compare : Line → Line → Bool) (dummy : Line) (never_expires : Bool) (loaded now : ℕ)
    (lines : List Line) (users : Map Line UserData) (user plain_password : Line) (u : UserData)
    → parse_passwd_file never_expires loaded (some (lines, false)) ≡ some users
    → (verify_user compare dummy now users user plain_password ≡ some u) ↔ (
        (named user (entries never_expires loaded lines) ≡ u ∷ [])
        × (compare u.password plain_password ≡ true)
        × ((not (is_zero u.expire_at) && lt_int u.expire_at now) ≡ false))
unfolding parse_passwd_file
login_accepted compare dummy never_expires loaded now lines users user plain_password u parsed =
    let listed = parse_lines-users never_expires loaded user lines in
    let one = only_iff (named user (entries never_expires loaded lines)) u in
    let verified = verify_user_iff compare dummy now users user plain_password u in
    ground (arith, listed, one, verified, parsed)
