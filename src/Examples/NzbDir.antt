-- ===== src/Examples/NzbDir.antt =====
-- nzbdir.go at concrete inputs.
use mathlib.Core.List.{Perm}
use nzbre_x.Prelude.{
  ℕ, ◌≡◌, refl, true, false, List, [], ◌∷◌, map, some, contains, same_list, nat_eq, list_eq,
}
use nzbre_x.Prelude.Map.{get, put}
use nzbre_x.Nntp.{Line, codes}
use nzbre_x.NzbDir.{
  DirFile, Entry, Watcher, new_dir_watcher, Ready, name_of, scan, RunOutcome, ran_well, run_failed,
  process_one, process_each, ScanRound, loop_round, loop,
}
use nzbre_x.NzbDir.Scans.{IsSorted, ready_of, scan_ready}
use nzbre_x.NzbDir.Runs.{unmoved_runs_no_more}
use nzbre_x.NzbDir.Stable.{Saw, run_was_stable}

abbrev file : Line → ℕ → ℕ → Entry
file name size mtime = record {
  name = name;
  is_regular = true;
  info = some (record { size = size; mtime = mtime });
}

-- "c.nzb" grows between the scans, and "d.txt" is no NZB.
abbrev first : List Entry
first = file (codes "a.nzb") 5 20 ∷ file (codes "b.nzb") 7 10 ∷ file (codes "c.nzb") 1 5 ∷ []

abbrev second : List Entry
second =
    file (codes "a.nzb") 5 20
    ∷ file (codes "b.nzb") 7 10
    ∷ file (codes "c.nzb") 2 6
    ∷ file (codes "d.txt") 2 1
    ∷ []

abbrev outcome : Line → RunOutcome
outcome name = record { ran = ran_well; stop_called = false; moved = true }

abbrev round_of : List Entry → ScanRound
round_of es = record { entries = some es; outcome = outcome }

abbrev seen_once : Watcher
seen_once = (loop_round (round_of first) new_dir_watcher).0

scan_test : (scan seen_once (some second)).1 ≡ codes "b.nzb" ∷ codes "a.nzb" ∷ []
unfolding scan loop_round same_list contains get put
scan_test = refl

scan_ready_example :
    (l : List Ready) × ((scan seen_once (some second)).1 ≡ map name_of l)
    × IsSorted l
    × Perm l (ready_of seen_once second)
scan_ready_example = scan_ready seen_once second

run_was_stable_example :
    ((info : DirFile) × (Saw (codes "a.nzb") info first) × (Saw (codes "a.nzb") info second))
    × (contains (codes "a.nzb") (loop_round (round_of first) new_dir_watcher).1 ≡ false)
unfolding loop_round scan same_list contains get put
run_was_stable_example =
    run_was_stable (codes "a.nzb") (round_of first) (round_of second) first second new_dir_watcher
      refl refl refl refl refl

abbrev unmoved : RunOutcome
unmoved = record { ran = run_failed; stop_called = false; moved = false }

unmoved_runs_no_more_example :
    contains (codes "a.nzb") (
      loop
        (round_of first ∷ round_of first ∷ round_of second ∷ [])
        (process_each outcome
          (codes "b.nzb" ∷ [])
          (process_one (codes "a.nzb") unmoved seen_once)).0)
    ≡ false
unfolding loop_round scan same_list contains get put
unmoved_runs_no_more_example =
    unmoved_runs_no_more (codes "a.nzb") unmoved outcome (codes "b.nzb" ∷ [])
      (round_of first ∷ round_of first ∷ round_of second ∷ []) seen_once refl refl
