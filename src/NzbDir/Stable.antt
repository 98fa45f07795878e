-- ===== src/NzbDir/Stable.antt =====
-- nzbdir.go: a file is run only if two scans in a row saw it alike.
use mathlib.Core.Path.{subst}
use nzbre_x.Prelude.{
  true, false, List, [], ◌∷◌, ◌≡◌, refl, ◌∙◌, ◌⊎◌, inl, inr, arith, Option, none, some, ◌&&◌, ◌=?◌,
  contains, same_list_iff, nat_eq, list_eq, Bool-cases, Option-cases,
}
use nzbre_x.Prelude.Map.{Map, get, put, get-put}
use nzbre_x.Nntp.{Line}
use nzbre_x.NzbDir.Turns.{process_each-contains, process_each-pending, process_each-gone}
use nzbre_x.NzbDir.{
  DirFile, Entry, Watcher, same_file, unchanged, Ready, seen_now, scan_entries, scan, was_stopped,
  ScanRound, loop_round,
}
use nzbre_x.NzbDir.Scans.{scan_names, any_ready, is_ready, info_ready}

-- An entry of that name with that size and time.
abbrev pub Saw : Line → DirFile → List Entry → Type 0
Saw name info [] = ⊥
Saw name info (e ∷ es) = ((e.name ≡ name) × (e.info ≡ some info)) ⊎ Saw name info es

seen_now-info :
    (w : Watcher) (e : Entry) (info : DirFile) → seen_now w e ≡ some info → e.info ≡ some info
unfolding seen_now
seen_now-info w e info h = ground (arith, h)

-- What a scan leaves pending it has seen.
scan_entries-seen :
    (w : Watcher) (name : Line) (info : DirFile) (es : List Entry) (seen : Map Line DirFile)
    (out : List Ready)
    → get name (scan_entries w es seen out).0 ≡ some info
    → (Saw name info es) ⊎ (get name seen ≡ some info)
unfolding scan_entries
scan_entries-seen w name info [] seen out h = inr h
scan_entries-seen w name info (e ∷ es) seen out h = elim (Option-cases (seen_now w e)) [
  | inl t ↦ elim (scan_entries-seen w name info es seen out (rw (t, scan_entries) at h)) [
    | inl later ↦ inl (inr later)
    | inr before ↦ inr before
  ]
  | inr (now, t) ↦
      elim (scan_entries-seen w name info es (put e.name now seen) _ (rw (t, scan_entries) at h)) [
        | inl later ↦ inl (inr later)
        | inr before ↦ elim (Bool-cases (e.name =? name)) [
          | inl same ↦
              let new : some now ≡ some info =
                ground (arith, before, same, get-put e.name name now seen) in
              inl (inl ((same_list_iff e.name name).0 same, seen_now-info w e info (t ∙ new)))
          | inr other ↦ inr (ground (arith, before, other, get-put e.name name now seen))
        ]
      ]
]

ready_info :
    (w : Watcher) (name : Line) (i : Option DirFile)
    → info_ready w name i ≡ true
    → (info : DirFile) × (i ≡ some info) × (unchanged (get name w.pending) info ≡ true)
ready_info w name none h = absurd (cc h)
ready_info w name (some info) h = (info, refl, h)

any_ready-Saw :
    (w : Watcher) (name : Line) (es : List Entry)
    → any_ready w name es ≡ true
    → (info : DirFile) × (Saw name info es) × (unchanged (get name w.pending) info ≡ true)
unfolding any_ready
any_ready-Saw w name [] h = absurd (cc h)
any_ready-Saw w name (e ∷ es) h = elim (Bool-cases (e.name =? name && is_ready w e)) [
  | inr t ↦
      let (info, saw, same) = any_ready-Saw w name es (ground (arith, h, t)) in
      (info, inr saw, same)
  | inl t ↦
      let same : e.name ≡ name = (same_list_iff e.name name).0 (ground (arith, t)) in
      let ready : info_ready w e.name e.info ≡ true = ground (arith, t) in
      let (info, f, u) = ready_info w e.name e.info ready in
      (info, inl (same, f), subst (λ n. unchanged (get n w.pending) info ≡ true) same u)
]

same_file_eq : (a b : DirFile) → same_file a b ≡ true → a ≡ b
same_file_eq a b h = ground (arith, h)

was_pending :
    (w : Watcher) (name : Line) (info : DirFile)
    → unchanged (get name w.pending) info ≡ true
    → (before : DirFile) × (get name w.pending ≡ some before) × (same_file before info ≡ true)
was_pending w name info h = elim (Option-cases (get name w.pending)) [
  | inl e ↦ absurd (cc (rw e at h))
  | inr (before, e) ↦ (before, e, rw e at h)
]

round_ready :
    (name : Line) (r : ScanRound) (es : List Entry) (w : Watcher)
    → r.entries ≡ some es
    → contains name (loop_round r w).1 ≡ true
    → any_ready w name es ≡ true
unfolding loop_round
round_ready name r es w e h = elim (Bool-cases (any_ready w name es)) [
  | inl t ↦ t
  | inr t ↦
      let names = (scan w (some es)).1 in
      let absent =
        process_each-contains r.outcome name names (scan w (some es)).0
          (scan_names w es name ∙ t) in
      absurd (cc (rw e at h, absent))
]

round-Saw :
    (name : Line) (r : ScanRound) (es : List Entry) (w : Watcher) (info : DirFile)
    → r.entries ≡ some es
    → get name (loop_round r w).0.pending ≡ some info
    → Saw name info es
unfolding loop_round scan get
round-Saw name r es w info e h =
    let names = (scan w (some es)).1 in
    let seen = process_each-pending r.outcome name names (scan w (some es)).0 info (rw e at h) in
    elim (scan_entries-seen w name info es [] [] seen) [
      | inl saw ↦ saw
      | inr empty ↦ absurd (cc empty)
    ]

not_ran :
    (name : Line) (r : ScanRound) (w : Watcher) (info : DirFile)
    → (loop_round r w).0.stopped ≡ false
    → was_stopped (r.outcome name).ran ≡ false
    → get name (loop_round r w).0.pending ≡ some info
    → contains name (loop_round r w).1 ≡ false
unfolding loop_round
not_ran name r w info live finished pending = elim (Bool-cases (contains name (loop_round r w).1)) [
  | inr t ↦ t
  | inl t ↦
      let names = (scan w r.entries).1 in
      let gone = process_each-gone r.outcome name names (scan w r.entries).0 finished live t in
      absurd (cc (gone, pending))
]

-- Of a file that the watcher runs in a turn, where it could read the directory in this turn and in the one before
-- and was not stopped: both scans saw it with the same size and modification time, and it was not run in
-- the turn before, unless that run reported that it was stopped.
pub run_was_stable :
    (name : Line) (r₁ r₂ : ScanRound) (es₁ es₂ : List Entry) (w : Watcher)
    → r₁.entries ≡ some es₁
    → r₂.entries ≡ some es₂
    → (loop_round r₁ w).0.stopped ≡ false
    → was_stopped (r₁.outcome name).ran ≡ false
    → contains name (loop_round r₂ (loop_round r₁ w).0).1 ≡ true
    → ((info : DirFile) × (Saw name info es₁) × (Saw name info es₂))
      × (contains name (loop_round r₁ w).1 ≡ false)
run_was_stable name r₁ r₂ es₁ es₂ w e₁ e₂ live finished ran =
    let w' = (loop_round r₁ w).0 in
    let ready = round_ready name r₂ es₂ w' e₂ ran in
    let (info, saw₂, same) = any_ready-Saw w' name es₂ ready in
    let (before, pending, equal) = was_pending w' name info same in
    let saw₁ = round-Saw name r₁ es₁ w before e₁ pending in
    (
      (info, subst (λ i. Saw name i es₁) (same_file_eq before info equal) saw₁, saw₂),
      not_ran name r₁ w before live finished pending,
    )
