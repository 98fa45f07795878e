-- ===== src/Proxy/Replies.antt =====
-- Proxy.go: GROUP, LIST, XOVER, XHDR, NEXT and LAST answer the client once, with no connection held.
use nzbre_x.Prelude.{
  ℕ, Bool, true, false, List, [], ◌∷◌, ◌++◌, inl, inr, Option, if◌then◌else◌, ◌==◌, not, ◌||◌, ltb,
  length, Bool-cases, Option-cases,
}
use nzbre_x.Nntp.{Line, codes, has_prefix}
use nzbre_x.Rapid.Fields.{ℤ}
use nzbre_x.Passwd.{decimal}
use nzbre_x.Proxy.{
  Event, taken, lost, parked, closed, replied, StatusLine, Upstream, Session, upstream_cmd,
  reader_providers, select_group, Selecting, selected, handled, Tried, next_one, answered,
  try_provider, try_each,
}
use nzbre_x.Proxy.Commands.{
  is_positive, no_line, find_group, handle_group, handle_list, relay, split_dash, is_range,
  xover_range, handle_xover, hdr_code, handle_xhdr, moved_to, stat_and_move, try_move, move_each,
  handle_next_or_last,
}
use nzbre_x.Proxy.Order.{free, held, Leads, Leads-next, Leads-taken, TriedWell}
use nzbre_x.Proxy.Handled.{
  Leads-parked, Leads-lost, Leads-replied, Leads-answered, Leads-nothing, SelectedWell,
  select_group-SelectedWell, try_provider-TriedWell, try_each-Leads, replies_of,
}

-- One reply, with the connections handled in order.
abbrev pub AnswersOnce : List Event → Type 0
AnswersOnce events = Leads free events free 1

pub AnswersOnce-if {ℓ} :
    {A : Type ℓ} (b : Bool) (x y : A × List Event)
    → AnswersOnce x.1
    → AnswersOnce y.1
    → AnswersOnce (if b then x else y).1
AnswersOnce-if true x y h k = h
AnswersOnce-if false x y h k = k

pub Leads-then_reply :
    (events : List Event) (code : ℕ)
    → Leads free events free 0
    → AnswersOnce (events ++ replied code ∷ [])
Leads-then_reply events code h = Leads-next events (replied code ∷ []) h (Leads-replied code)

Leads-lost_before :
    (id : ℕ) (rest : List Event)
    → Leads free rest free 0
    → Leads free (taken id ∷ lost id ∷ closed id ∷ rest) free 0
Leads-lost_before id rest h =
    Leads-next (taken id ∷ lost id ∷ closed id ∷ []) rest (Leads-taken id 0 _ (Leads-lost id)) h

Leads-parked_before :
    (id : ℕ) (rest : List Event)
    → Leads free rest free 0
    → Leads free (taken id ∷ parked id ∷ rest) free 0
Leads-parked_before id rest h =
    Leads-next (taken id ∷ parked id ∷ []) rest (Leads-taken id 0 _ (Leads-parked id)) h

find_group-Leads : (us : List Upstream) → Leads free (find_group us).1 free 0
unfolding find_group
find_group-Leads [] = Leads-nothing free
find_group-Leads (u ∷ us) =
    let rest = find_group-Leads us in
    elim (Bool-cases ((u.no_download || not u.newsreader) || not u.connects)) [
      | inl t ↦ rw (t, find_group) rest
      | inr t ↦ elim (Option-cases (upstream_cmd u.answers).0) [
        | inl e ↦ rw (t, e, find_group) (Leads-lost_before u.id (find_group us).1 rest)
        | inr (s, e) ↦ elim (Bool-cases (not (s.code == 211) || ltb (length s.fields) 4)) [
          | inl b ↦ rw (t, e, find_group) (rw b (Leads-parked_before u.id (find_group us).1 rest))
          | inr b ↦ rw (t, e, find_group) (rw b (Leads-parked_before u.id [] (Leads-nothing free)))
        ]
      ]
    ]

pub handle_group-AnswersOnce :
    (us : List Upstream) (args : List Line) (s : Session) → AnswersOnce (handle_group us args s).1
unfolding handle_group
handle_group-AnswersOnce us [] s = Leads-replied 501
handle_group-AnswersOnce us (name ∷ []) s = elim (Option-cases (find_group us).0) [
  | inl e ↦ rw (e, handle_group) (Leads-then_reply (find_group us).1 411 (find_group-Leads us))
  | inr (g, e) ↦ rw (e, handle_group) (Leads-then_reply (find_group us).1 211 (find_group-Leads us))
]
handle_group-AnswersOnce us (name ∷ arg ∷ args) s = Leads-replied 501

pub handle_list-AnswersOnce : (us : List Upstream) (s : Session) → AnswersOnce (handle_list us s).1
unfolding handle_list
handle_list-AnswersOnce us s =
    let all =
      try_each-Leads (try_provider false 215) (reader_providers s us)
        (try_provider-TriedWell false 215) in
    elim (Option-cases (try_each (try_provider false 215) (reader_providers s us)).0) [
      | inl e ↦ rw (e, handle_list) (Leads-then_reply _ 503 (rw e at all))
      | inr (u, e) ↦ rw (e, handle_list) (rw e at all)
    ]

relay-AnswersOnce :
    (in_group : Bool) (ok_code : ℕ) (us : List Upstream) (s : Session)
    → AnswersOnce (relay in_group ok_code us s).1
unfolding relay
relay-AnswersOnce in_group ok_code us s =
    let try = try_provider in_group ok_code in
    let all =
      try_each-Leads try (reader_providers s us) (try_provider-TriedWell in_group ok_code) in
    elim (Option-cases (try_each try (reader_providers s us)).0) [
      | inl e ↦ rw (e, relay) (Leads-then_reply _ 503 (rw e at all))
      | inr (u, e) ↦ rw (e, relay) (rw e at all)
    ]

xover_range-AnswersOnce :
    (range : Line) (us : List Upstream) (s : Session) → AnswersOnce (xover_range range us s).1
unfolding xover_range
xover_range-AnswersOnce range us s =
    AnswersOnce-if (is_range (split_dash range)) (relay true 224 us s) (s, replied 501 ∷ [])
      (relay-AnswersOnce true 224 us s) (Leads-replied 501)

-- A command that wants a group, and one that wants a current article too.
with_group :
    (s : Session) (y : Session × List Event)
    → AnswersOnce y.1
    → AnswersOnce (if no_line s.group then (s, replied 412 ∷ []) else y).1
with_group s y h = AnswersOnce-if (no_line s.group) (s, replied 412 ∷ []) y (Leads-replied 412) h

with_article :
    (s : Session) (y : Session × List Event)
    → AnswersOnce y.1
    → AnswersOnce
        (if no_line s.group
          then (s, replied 412 ∷ [])
          else if not (is_positive s.msg_num)
          then (s, replied 420 ∷ [])
          else y).1
with_article s y h =
    with_group s (if not (is_positive s.msg_num) then (s, replied 420 ∷ []) else y)
      (AnswersOnce-if (not (is_positive s.msg_num)) (s, replied 420 ∷ []) y (Leads-replied 420) h)

pub handle_xover-AnswersOnce :
    (us : List Upstream) (args : List Line) (s : Session) → AnswersOnce (handle_xover us args s).1
unfolding handle_xover
handle_xover-AnswersOnce us [] s =
    with_article s (xover_range (decimal s.msg_num) us s)
      (xover_range-AnswersOnce (decimal s.msg_num) us s)
handle_xover-AnswersOnce us (range ∷ []) s =
    with_group s (xover_range range us s) (xover_range-AnswersOnce range us s)
handle_xover-AnswersOnce us (a ∷ b ∷ args) s =
    with_group s (s, replied 501 ∷ []) (Leads-replied 501)

pub handle_xhdr-AnswersOnce :
    (is_xhdr : Bool) (us : List Upstream) (args : List Line) (s : Session)
    → AnswersOnce (handle_xhdr is_xhdr us args s).1
unfolding handle_xhdr
handle_xhdr-AnswersOnce is_xhdr us [] s = Leads-replied 501
handle_xhdr-AnswersOnce is_xhdr us (header ∷ []) s =
    with_article s (relay true (hdr_code is_xhdr) us s)
      (relay-AnswersOnce true (hdr_code is_xhdr) us s)
handle_xhdr-AnswersOnce is_xhdr us (header ∷ arg ∷ []) s =
    AnswersOnce-if (has_prefix arg (codes "<")) (relay false (hdr_code is_xhdr) us s) _
      (relay-AnswersOnce false (hdr_code is_xhdr) us s)
      (with_group s (relay true (hdr_code is_xhdr) us s)
        (relay-AnswersOnce true (hdr_code is_xhdr) us s))
handle_xhdr-AnswersOnce is_xhdr us (header ∷ arg ∷ more ∷ args) s = Leads-replied 501

stat_and_move-TriedWell :
    (id : ℕ) (answers : List (Option StatusLine)) (n : ℤ)
    → TriedWell (held id) (stat_and_move id answers n).0
unfolding stat_and_move
stat_and_move-TriedWell id answers n = elim (Option-cases (upstream_cmd answers).0) [
  | inl e ↦ rw (e, stat_and_move) (Leads-lost id)
  | inr (a, e) ↦ elim (Bool-cases (a.code == 223)) [
    | inr t ↦ rw (e, stat_and_move) (rw t (Leads-answered id a.code))
    | inl t ↦ elim (Option-cases (upstream_cmd (upstream_cmd answers).1).0) [
      | inl f ↦ rw (e, stat_and_move) (rw (t, f) (Leads-lost id))
      | inr (b, f) ↦ rw (e, stat_and_move) (rw (t, f) (Leads-answered id (moved_to b n).1))
    ]
  ]
]

-- The loop's body behind selectGroup.
selected_move :
    (id : ℕ) (sel : Selecting) (n : ℤ)
    → SelectedWell id sel
    → TriedWell free
        (elim sel as (λ _. Tried × ℤ) [
          | handled true events ↦ (answered (taken id ∷ events), n)
          | handled false events ↦ (next_one (taken id ∷ events), n)
          | selected answers ↦
              let (t, m) = stat_and_move id answers n in
              (record t { events = taken id ∷ t.events }, m)
        ]).0
selected_move id (handled true events) n s = Leads-taken id 1 events s
selected_move id (handled false events) n s = Leads-taken id 0 events s
selected_move id (selected answers) n s =
    Leads-taken id _ (stat_and_move id answers n).0.events (stat_and_move-TriedWell id answers n)

try_move-TriedWell : (u : Upstream) (n : ℤ) → TriedWell free (try_move u n).0
unfolding try_move
try_move-TriedWell u n = elim (Bool-cases u.connects) [
  | inl t ↦ simp t (
      selected_move u.id (select_group u.id u.answers) n (select_group-SelectedWell u.id u.answers))
  | inr t ↦ simp t (Leads-nothing free)
]

move_each-Leads :
    (us : List Upstream) (n : ℤ)
    → Leads free (move_each us n).1 free (replies_of (move_each us n).0)
unfolding move_each
move_each-Leads [] n = Leads-nothing free
move_each-Leads (u ∷ us) n = elim (Bool-cases (try_move u n).0.done) [
  | inl t ↦ rw (t, move_each) (rw t at (try_move-TriedWell u n))
  | inr t ↦
      rw (t, move_each)
        (Leads-next (try_move u n).0.events (move_each us n).1 (rw t at (try_move-TriedWell u n))
          (move_each-Leads us n))
]

pub handle_next_or_last-AnswersOnce :
    (us : List Upstream) (s : Session) → AnswersOnce (handle_next_or_last us s).1
unfolding handle_next_or_last
handle_next_or_last-AnswersOnce us s =
    let all = move_each-Leads (reader_providers s us) s.msg_num in
    with_article s _ (elim (Option-cases (move_each (reader_providers s us) s.msg_num).0) [
      | inl e ↦ rw e (Leads-then_reply _ 503 (rw e at all))
      | inr (n, e) ↦ rw e (rw e at all)
    ])
