-- ===== src/NzbDir/Scans.antt =====
-- nzbdir.go: which files a scan returns, and in what order.
use mathlib.Core.List.{Perm, append-nil, append_assoc}
use mathlib.Core.List.Perm
use mathlib.Core.Path.{subst}
use nzbre_x.Prelude.{
  ◌<◌, ◌⊎◌, ◌==◌, not, sym, if◌then◌else◌, Bool, true, false, List, [], ◌∷◌, ◌++◌, map, ◌≡◌, refl,
  ◌∙◌, ap, inl, inr, arith, Option, none, some, ◌&&◌, ◌||◌, ◌=?◌, contains, nat_eq, list_eq,
  Bool-cases, Option-cases,
}
use nzbre_x.Prelude.Map.{Map, get, put}
use nzbre_x.Nntp.{Line, codes}
use nzbre_x.NzbDir.{
  DirFile, Entry, Watcher, is_watched, unchanged, Ready, name_of, seen_now, scan_entries, less_name,
  has_suffix, is_before, insert_ready, sort_ready, scan,
}

-- The scan sees an entry as the scan before it saw a file of that name.
abbrev pub info_ready : Watcher → Line → Option DirFile → Bool
info_ready w name none = false
info_ready w name (some now) = unchanged (get name w.pending) now

abbrev pub is_ready : Watcher → Entry → Bool
is_ready w e = is_watched w e && info_ready w e.name e.info

-- Some entry of that name is.
unfoldable pub any_ready : Watcher → Line → List Entry → Bool
any_ready w name [] = false
any_ready w name (e ∷ es) = (e.name =? name) && is_ready w e || any_ready w name es

-- The name is not behind the other one in the order of bytes.
abbrev pub NameUpTo : Line → Line → Type 0
NameUpTo [] b = Unit
NameUpTo (x ∷ a) [] = ⊥
NameUpTo (x ∷ a) (y ∷ b) = (x < y) ⊎ ((x ≡ y) × NameUpTo a b)

-- Older, or of the same age and not behind by name.
abbrev pub UpTo : Ready → Ready → Type 0
UpTo s r = (s.mtime < r.mtime) ⊎ ((s.mtime ≡ r.mtime) × NameUpTo s.name r.name)

abbrev pub Above : Ready → List Ready → Type 0
Above s [] = Unit
Above s (r ∷ l) = UpTo s r

-- Each file but the last is older than the next one, or of the same age and not behind it by name.
abbrev pub IsSorted : List Ready → Type 0
IsSorted [] = Unit
IsSorted (s ∷ l) = Above s l × IsSorted l

less_name-NameUpTo : (a b : Line) → less_name b a ≡ false → NameUpTo a b
unfolding less_name
less_name-NameUpTo [] b h = tt
less_name-NameUpTo (x ∷ a) [] h = absurd (cc h)
less_name-NameUpTo (x ∷ a) (y ∷ b) h = elim (Bool-cases (y == x)) [
  | inl e ↦ inr (ground (arith, e), less_name-NameUpTo a b (ground (arith, h, e)))
  | inr e ↦ inl (ground (arith, h, e))
]

is_before-UpTo : (s r : Ready) → is_before r s ≡ false → UpTo s r
unfolding is_before
is_before-UpTo s r h = elim (Bool-cases (r.mtime == s.mtime)) [
  | inl e ↦ inr (ground (arith, e), less_name-NameUpTo s.name r.name (ground (arith, h, e)))
  | inr e ↦ inl (ground (arith, h, e))
]

less_name-asym : (a b : Line) → less_name a b ≡ true → less_name b a ≡ false
unfolding less_name
less_name-asym [] [] h = refl
less_name-asym [] (y ∷ b) h = refl
less_name-asym (x ∷ a) [] h = absurd (cc h)
less_name-asym (x ∷ a) (y ∷ b) h = ground (arith, less_name-asym a b)

is_before-asym : (a b : Ready) → is_before a b ≡ true → is_before b a ≡ false
unfolding is_before
is_before-asym a b h = ground (arith, less_name-asym a.name b.name)

insert_ready-Above :
    (s r : Ready) (l : List Ready) → UpTo s r → Above s l → Above s (insert_ready r l)
unfolding insert_ready
insert_ready-Above s r [] h k = h
insert_ready-Above s r (t ∷ l) h k = elim (Bool-cases (is_before t r)) [
  | inl e ↦ rw (e, insert_ready) k
  | inr e ↦ rw (e, insert_ready) h
]

insert_ready-IsSorted : (r : Ready) (l : List Ready) → IsSorted l → IsSorted (insert_ready r l)
unfolding insert_ready
insert_ready-IsSorted r [] h = (tt, tt)
insert_ready-IsSorted r (s ∷ l) h = elim (Bool-cases (is_before s r)) [
  | inl e ↦
      rw (e, insert_ready)
        (
          insert_ready-Above s r l (is_before-UpTo s r (is_before-asym s r e)) h.0,
          insert_ready-IsSorted r l h.1,
        )
  | inr e ↦ rw (e, insert_ready) (is_before-UpTo r s e, h)
]

sort_ready-IsSorted : (l : List Ready) → IsSorted (sort_ready l)
unfolding sort_ready
sort_ready-IsSorted [] = tt
sort_ready-IsSorted (r ∷ l) = insert_ready-IsSorted r (sort_ready l) (sort_ready-IsSorted l)

abbrev pub has_name : Line → List Ready → Bool
has_name name l = contains name (map name_of l)

has_name-insert_ready :
    (name : Line) (r : Ready) (l : List Ready)
    → has_name name (insert_ready r l) ≡ ((r.name =? name) || has_name name l)
unfolding insert_ready contains
has_name-insert_ready name r [] = refl
has_name-insert_ready name r (s ∷ l) = elim (Bool-cases (is_before s r)) [
  | inl e ↦ rw (e, insert_ready) (ground (arith, has_name-insert_ready name r l))
  | inr e ↦ rw (e, insert_ready) refl
]

has_name-sort_ready :
    (name : Line) (l : List Ready) → has_name name (sort_ready l) ≡ has_name name l
unfolding sort_ready contains
has_name-sort_ready name [] = refl
has_name-sort_ready name (r ∷ l) =
    has_name-insert_ready name r (sort_ready l)
    ∙ ap (λ b. (r.name =? name) || b) (has_name-sort_ready name l)

has_name-concat :
    (name : Line) (l : List Ready) (r : Ready)
    → has_name name (l ++ r ∷ []) ≡ (has_name name l || (r.name =? name))
unfolding contains
has_name-concat name [] r = ground arith
has_name-concat name (s ∷ l) r = ground (arith, has_name-concat name l r)

is_ready-seen_now : (w : Watcher) (e : Entry) → is_ready w e ≡ info_ready w e.name (seen_now w e)
unfolding seen_now
is_ready-seen_now w e = elim (Bool-cases (is_watched w e)) [ inl t ↦ rw t refl | inr t ↦ rw t refl ]

scan_entries-has_name :
    (w : Watcher) (name : Line) (es : List Entry) (seen : Map Line DirFile) (out : List Ready)
    → has_name name (scan_entries w es seen out).1 ≡ (has_name name out || any_ready w name es)
unfolding scan_entries any_ready
scan_entries-has_name w name [] seen out = ground arith
scan_entries-has_name w name (e ∷ es) seen out = elim (Option-cases (seen_now w e)) [
  | inl t ↦
      let r = is_ready-seen_now w e in
      rw (t, scan_entries) (scan_entries-has_name w name es seen out ∙ ground (arith, rw t at r))
  | inr (now, t) ↦
      let r = rw t at (is_ready-seen_now w e) in
      let next = λ (l : List Ready). scan_entries-has_name w name es (put e.name now seen) l in
      let ready : Ready = record { name = e.name; mtime = now.mtime } in
      elim (Bool-cases (unchanged (get e.name w.pending) now)) [
        | inl u ↦
            rw (t, scan_entries)
              (rw u
                (next (out ++ ready ∷ []) ∙ ground (arith, r, u, has_name-concat name out ready)))
        | inr u ↦ rw (t, scan_entries) (rw u (next out ∙ ground (arith, r, u)))
      ]
]

pub scan_names :
    (w : Watcher) (es : List Entry) (name : Line)
    → contains name (scan w (some es)).1 ≡ any_ready w name es
unfolding scan contains
scan_names w es name =
    has_name-sort_ready name (scan_entries w es [] []).1 ∙ scan_entries-has_name w name es [] []

-- The file of a regular entry that is not skipped, is named .nzb or .nzb.gz, and had the same size and time in the scan
-- before; and these files in the order of the entries.
abbrev pub was_same : Option DirFile → DirFile → Bool
was_same none now = false
was_same (some before) now = before.size == now.size && before.mtime == now.mtime

abbrev pub ready_at : Watcher → Entry → Option DirFile → List Ready
ready_at w e none = []
ready_at w e (some now) =
    if e.is_regular
      && not (contains e.name w.skip)
      && (has_suffix e.name (codes ".nzb") || has_suffix e.name (codes ".nzb.gz"))
      && was_same (get e.name w.pending) now
    then record { name = e.name; mtime = now.mtime } ∷ []
    else []

abbrev pub ready_of : Watcher → List Entry → List Ready
ready_of w [] = []
ready_of w (e ∷ es) = ready_at w e e.info ++ ready_of w es

same_test :
    (w : Watcher) (e : Entry) (now : DirFile)
    → (e.is_regular
        && not (contains e.name w.skip)
        && (has_suffix e.name (codes ".nzb") || has_suffix e.name (codes ".nzb.gz"))
        && was_same (get e.name w.pending) now)
      ≡ (is_watched w e && unchanged (get e.name w.pending) now)
unfolding is_watched
same_test w e now = elim (Option-cases (get e.name w.pending)) [
  | inl n ↦ rw n (ground arith)
  | inr (before, n) ↦ rw n (ground arith)
]

ready_at-watched :
    (w : Watcher) (e : Entry) (now : DirFile)
    → ready_at w e (some now) ≡ (
        if is_watched w e && unchanged (get e.name w.pending) now
        then record { name = e.name; mtime = now.mtime } ∷ []
        else [])
ready_at-watched w e now = rw (same_test w e now) refl

ready_at_unwatched :
    (w : Watcher) (e : Entry) (info : Option DirFile)
    → is_watched w e ≡ false
    → ready_at w e info ≡ []
ready_at_unwatched w e none t = refl
ready_at_unwatched w e (some now) t = ready_at-watched w e now ∙ rw t refl

ready_at-seen_now : (w : Watcher) (e : Entry) → ready_at w e e.info ≡ ready_at w e (seen_now w e)
unfolding seen_now
ready_at-seen_now w e = elim (Bool-cases (is_watched w e)) [
  | inl t ↦ rw t refl
  | inr t ↦ ready_at_unwatched w e e.info t ∙ rw t refl
]

seen_now-watched :
    (w : Watcher) (e : Entry) (now : DirFile) → seen_now w e ≡ some now → is_watched w e ≡ true
unfolding seen_now
seen_now-watched w e now h = ground (arith, h)

scan_entries-ready_of :
    (w : Watcher) (es : List Entry) (seen : Map Line DirFile) (out : List Ready)
    → (scan_entries w es seen out).1 ≡ out ++ ready_of w es
unfolding scan_entries
scan_entries-ready_of w [] seen out = sym (append-nil out)
scan_entries-ready_of w (e ∷ es) seen out = elim (Option-cases (seen_now w e)) [
  | inl t ↦
      let nothing = rw t at (ready_at-seen_now w e) in
      rw (t, scan_entries, nothing) (scan_entries-ready_of w es seen out)
  | inr (now, t) ↦
      let seen' : ready_at w e e.info ≡ ready_at w e (some now) = rw t at (ready_at-seen_now w e) in
      let test = rw (seen_now-watched w e now t) at (ready_at-watched w e now) in
      let found = seen' ∙ test in
      let next = λ (l : List Ready). scan_entries-ready_of w es (put e.name now seen) l in
      let ready : List Ready = record { name = e.name; mtime = now.mtime } ∷ [] in
      elim (Bool-cases (unchanged (get e.name w.pending) now)) [
        | inl u ↦
            rw (t, scan_entries, found)
              (rw u (next (out ++ ready) ∙ append_assoc out ready (ready_of w es)))
        | inr u ↦ rw (t, scan_entries, found) (rw u (next out))
      ]
]

insert_ready-Perm : (r : Ready) (l : List Ready) → Perm (insert_ready r l) (r ∷ l)
unfolding insert_ready
insert_ready-Perm r [] = Perm.refl (r ∷ [])
insert_ready-Perm r (s ∷ l) = elim (Bool-cases (is_before s r)) [
  | inl e ↦
      rw (e, insert_ready) (Perm.trans (Perm.cons s (insert_ready-Perm r l)) (Perm.swap r s l))
  | inr e ↦ rw (e, insert_ready) (Perm.refl (r ∷ s ∷ l))
]

sort_ready-Perm : (l : List Ready) → Perm (sort_ready l) l
unfolding sort_ready
sort_ready-Perm [] = Perm.refl []
sort_ready-Perm (r ∷ l) =
    Perm.trans (insert_ready-Perm r (sort_ready l)) (Perm.cons r (sort_ready-Perm l))

-- A scan of a directory that can be read returns the names of the regular .nzb and .nzb.gz files that are not skipped
-- and that the scan before saw with the same size and modification time, of all of them and of no other, oldest
-- first, and by name where two are of the same age.
pub scan_ready :
    (w : Watcher) (es : List Entry)
    → (l : List Ready) × ((scan w (some es)).1 ≡ map name_of l)
      × IsSorted l
      × Perm l (ready_of w es)
unfolding scan
scan_ready w es =
    let out = (scan_entries w es [] []).1 in
    let same : out ≡ ready_of w es = scan_entries-ready_of w es [] [] in
    (
      sort_ready out,
      refl,
      sort_ready-IsSorted out,
      subst (λ k. Perm (sort_ready out) k) same (sort_ready-Perm out),
    )
