-- ===== src/NzbDir/Runs.antt =====
-- nzbdir.go: which files the watcher runs, over many scans.

use nzbre_x.Prelude.{
  true, false, List, [], ◌∷◌, ◌++◌, ◌≡◌, refl, ◌∙◌, inl, inr, arith, some, ◌||◌, ◌=?◌, contains,
  same_list_iff, =?_refl, nat_eq, list_eq, Bool-cases, Option-cases,
}
use nzbre_x.Nntp.{Line}
use nzbre_x.NzbDir.{
  Entry, Watcher, is_watched, scan, RunOutcome, was_stopped, process_one, process_each, ScanRound,
  loop_round, loop,
}
use nzbre_x.NzbDir.Scans.{scan_names, any_ready}
use nzbre_x.NzbDir.Turns.{process_each-contains, process_each-skip}

not_watched :
    (w : Watcher) (e : Entry) (name : Line)
    → contains name w.skip ≡ true
    → (e.name =? name) ≡ true
    → is_watched w e ≡ false
unfolding is_watched
not_watched w e name h same =
    let found : contains e.name w.skip ≡ true = rw ((same_list_iff e.name name).0 same) h in
    ground (arith, found)

skipped-not_ready :
    (w : Watcher) (name : Line) (es : List Entry)
    → contains name w.skip ≡ true
    → any_ready w name es ≡ false
unfolding any_ready
skipped-not_ready w name [] h = refl
skipped-not_ready w name (e ∷ es) h = elim (Bool-cases (e.name =? name)) [
  | inl t ↦ rw (t, any_ready) (rw (not_watched w e name h t) (skipped-not_ready w name es h))
  | inr t ↦ rw (t, any_ready) (skipped-not_ready w name es h)
]

loop_round-skipped :
    (name : Line) (r : ScanRound) (w : Watcher)
    → contains name w.skip ≡ true
    → (contains name (loop_round r w).1 ≡ false) × (contains name (loop_round r w).0.skip ≡ true)
unfolding loop_round contains
loop_round-skipped name r w h = elim (Option-cases r.entries) [
  | inl e ↦ rw (e, scan) (process_each-contains r.outcome name [] w refl, h)
  | inr (es, e) ↦
      let names = (scan w (some es)).1 in
      let absent = scan_names w es name ∙ skipped-not_ready w name es h in
      rw e (
        process_each-contains r.outcome name names (scan w (some es)).0 absent,
        process_each-skip r.outcome name names (scan w (some es)).0 (unfold scan in h),
      )
]

contains-append :
    (name : Line) (xs ys : List Line)
    → contains name (xs ++ ys) ≡ (contains name xs || contains name ys)
unfolding contains
contains-append name [] ys = refl
contains-append name (x ∷ xs) ys = ground (arith, contains-append name xs ys)

skipped-no_runs :
    (name : Line) (rs : List ScanRound) (w : Watcher)
    → contains name w.skip ≡ true
    → contains name (loop rs w) ≡ false
unfolding loop contains
skipped-no_runs name [] w h = refl
skipped-no_runs name (r ∷ rs) w h =
    let (absent, still) = loop_round-skipped name r w h in
    let w' = (loop_round r w).0 in
    let names = (loop_round r w).1 in
    let later = skipped-no_runs name rs w' still in
    elim (Bool-cases w'.stopped) [
      | inl t ↦ rw (t, loop) absent
      | inr t ↦ rw (t, loop) (contains-append name names (loop rs w') ∙ rw (absent, later) refl)
    ]

-- A file whose run ended while the watcher was not stopped, and that could not be moved then, is run in no later turn,
-- whatever files are run behind it in this turn and whatever later scans find.
pub unmoved_runs_no_more :
    (name : Line) (o : RunOutcome) (outcome : Line → RunOutcome) (names : List Line)
    (rs : List ScanRound) (w : Watcher)
    → o.moved ≡ false
    → (was_stopped o.ran || (w.stopped || o.stop_called)) ≡ false
    → contains name (loop rs (process_each outcome names (process_one name o w)).0) ≡ false
unfolding process_one contains
unmoved_runs_no_more name o outcome names rs w h s =
    let skipped : contains name (process_one name o w).skip ≡ true =
      ground (arith, h, s, =?_refl name) in
    skipped-no_runs name rs (process_each outcome names (process_one name o w)).0
      (process_each-skip outcome name names (process_one name o w) skipped)
