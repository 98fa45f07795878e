-- ===== src/Proxy/Handled.antt =====
-- Proxy.go: each command but for the articles keeps to the order of events, and answers the client once.
use nzbre_x.Prelude.{
  ℕ, Bool, true, false, List, [], ◌∷◌, refl, inl, inr, arith, Option, none, some, if◌then◌else◌,
  ◌==◌, Bool-cases, Option-cases,
}
use nzbre_x.Proxy.{
  taken, lost, parked, closed, replied, StatusLine, Block, Upstream, upstream_cmd, upstream_block,
  Selecting, selected, handled, select_group, Tried, next_one, answered, try_block, try_connected,
  try_provider, try_each,
}
use nzbre_x.Proxy.Order.{
  Holding, free, held, after_all, replies, Leads, Leads-append, Leads-next, Leads-taken, TriedWell,
}

pub Leads-parked : (id : ℕ) → Leads (held id) (parked id ∷ []) free 0
unfolding after_all replies
Leads-parked id = ground arith

pub Leads-lost : (id : ℕ) → Leads (held id) (lost id ∷ closed id ∷ []) free 0
unfolding after_all replies
Leads-lost id = ground arith

pub Leads-replied : (code : ℕ) → Leads free (replied code ∷ []) free 1
unfolding after_all replies
Leads-replied code = ground arith

pub Leads-answered : (id code : ℕ) → Leads (held id) (parked id ∷ replied code ∷ []) free 1
Leads-answered id code =
    Leads-append (parked id ∷ []) (replied code ∷ []) (Leads-parked id) (Leads-replied code)

upstream_block-Leads :
    (id ok_code : ℕ) (block : Block) (answers : List (Option StatusLine))
    → Leads (held id) (upstream_block id ok_code block answers).1 free 0
unfolding upstream_block after_all replies
upstream_block-Leads id ok_code block answers = ground arith

try_block-TriedWell :
    (ok_code : ℕ) (u : Upstream) (answers : List (Option StatusLine))
    → TriedWell (held u.id) (try_block ok_code u answers)
unfolding try_block
try_block-TriedWell ok_code u answers =
    let block = upstream_block-Leads u.id ok_code u.block answers in
    elim (Option-cases (upstream_block u.id ok_code u.block answers).0) [
      | inl e ↦ rw (e, try_block) block
      | inr (c, e) ↦
          rw (e, try_block)
            (Leads-append (upstream_block u.id ok_code u.block answers).1 _ block (Leads-replied c))
    ]

abbrev pub SelectedWell : ℕ → Selecting → Type 0
SelectedWell id (selected answers) = Unit
SelectedWell id (handled by_client events) =
    Leads (held id) events free (if by_client then 1 else 0)

pub select_group-SelectedWell :
    (id : ℕ) (answers : List (Option StatusLine)) → SelectedWell id (select_group id answers)
unfolding select_group
select_group-SelectedWell id answers = elim (Option-cases (upstream_cmd answers).0) [
  | inl e ↦ rw (e, select_group) (Leads-lost id)
  | inr (s, e) ↦ elim (Bool-cases (s.code == 211)) [
    | inl t ↦ rw (e, select_group) (rw t tt)
    | inr t ↦ rw (e, select_group) (rw t (Leads-answered id s.code))
  ]
]

-- selectGroup and what follows, from taking the connection on.
pub after_select :
    (id : ℕ) (sel : Selecting) (go : List (Option StatusLine) → Tried)
    → SelectedWell id sel
    → ((answers : List (Option StatusLine)) → TriedWell (held id) (go answers))
    → TriedWell free (elim sel [
      | handled true events ↦ answered (taken id ∷ events)
      | handled false events ↦ next_one (taken id ∷ events)
      | selected answers ↦ let t = go answers in record t { events = taken id ∷ t.events }
    ])
after_select id (handled true events) go s g = Leads-taken id 1 events s
after_select id (handled false events) go s g = Leads-taken id 0 events s
after_select id (selected answers) go s g = Leads-taken id _ (go answers).events (g answers)

pub Leads-nothing : (h : Holding) → Leads h [] h 0
unfolding after_all replies
Leads-nothing h = record { in_order = refl; count = refl }

pub TriedWell-if :
    (b : Bool) (x y : Tried)
    → TriedWell free x
    → TriedWell free y
    → TriedWell free (if b then x else y)
TriedWell-if true x y h k = h
TriedWell-if false x y h k = k

pub next_one-TriedWell : TriedWell free (next_one [])
next_one-TriedWell = Leads-nothing free

try_connected-TriedWell :
    (in_group : Bool) (ok_code : ℕ) (u : Upstream)
    → TriedWell free (try_connected in_group ok_code u)
unfolding try_connected
try_connected-TriedWell false ok_code u =
    Leads-taken u.id _ (try_block ok_code u u.answers).events
      (try_block-TriedWell ok_code u u.answers)
try_connected-TriedWell true ok_code u =
    after_select u.id (select_group u.id u.answers) (try_block ok_code u)
      (select_group-SelectedWell u.id u.answers) (try_block-TriedWell ok_code u)

pub try_provider-TriedWell :
    (in_group : Bool) (ok_code : ℕ) (u : Upstream)
    → TriedWell free (try_provider in_group ok_code u)
unfolding try_provider
try_provider-TriedWell in_group ok_code u =
    TriedWell-if u.connects (try_connected in_group ok_code u) (next_one [])
      (try_connected-TriedWell in_group ok_code u) next_one-TriedWell

-- The loop ends with the reply of one provider, or with none.
abbrev pub replies_of {ℓ} : {A : Type ℓ} → Option A → ℕ
replies_of none = 0
replies_of (some a) = 1

pub try_each-Leads :
    (try : Upstream → Tried) (us : List Upstream)
    → ((u : Upstream) → TriedWell free (try u))
    → Leads free (try_each try us).1 free (replies_of (try_each try us).0)
unfolding try_each
try_each-Leads try [] h = Leads-nothing free
try_each-Leads try (u ∷ us) h = elim (Bool-cases (try u).done) [
  | inl t ↦ rw (t, try_each) (rw t at (h u))
  | inr t ↦
      rw (t, try_each)
        (Leads-next (try u).events (try_each try us).1 (rw t at (h u)) (try_each-Leads try us h))
]
