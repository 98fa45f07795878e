-- ===== src/NzbDir.antt =====
-- nzbdir.go: the watcher of a directory. What a scan finds there, and what comes of running and moving a file, are
-- arguments. A name is its bytes; a time is a number of ticks.
pub mod Scans
pub mod Stable
pub mod Turns
pub mod Runs
use nzbre_x.Prelude.{
  ℕ, Bool, true, false, List, [], ◌∷◌, ◌++◌, map, Option, none, some, if◌then◌else◌, ◌&&◌, ◌||◌,
  not, ◌==◌, ltb, length, drop, ◌-◌, leb, ◌=?◌, contains, nat_eq, list_eq,
}
use nzbre_x.Prelude.Map.{Map, get, put, delete}
use nzbre_x.Nntp.{Line, codes}

pub record DirFile : Type 0 where
  pub size : ℕ
  pub mtime : ℕ

-- An entry of the directory; `none` is a file that is gone since ReadDir.
pub record Entry : Type 0 where
  pub name : Line
  pub is_regular : Bool
  pub info : Option DirFile

pub record Watcher : Type 0 where
  pub pending : Map Line DirFile
  pub skip : List Line
  pub stopped : Bool

abbrev pub new_dir_watcher : Watcher
new_dir_watcher = record { pending = []; skip = []; stopped = false }

unfoldable pub has_suffix : Line → Line → Bool
has_suffix name suffix =
    leb (length suffix) (length name) && (drop (length name - length suffix) name =? suffix)

abbrev pub is_nzb : Line → Bool
is_nzb name = has_suffix name (codes ".nzb") || has_suffix name (codes ".nzb.gz")

-- What the scan looks at.
unfoldable pub is_watched : Watcher → Entry → Bool
unfolding has_suffix
is_watched w e = not ((not e.is_regular || contains e.name w.skip) || not (is_nzb e.name))

abbrev pub same_file : DirFile → DirFile → Bool
same_file a b = a.size == b.size && a.mtime == b.mtime

abbrev pub unchanged : Option DirFile → DirFile → Bool
unchanged none now = false
unchanged (some before) now = same_file before now

-- A file that is ready, with its modification time.
pub record Ready : Type 0 where
  pub name : Line
  pub mtime : ℕ

-- What the scan sees of an entry, if anything.
unfoldable pub seen_now : Watcher → Entry → Option DirFile
unfolding is_watched
seen_now w e = if is_watched w e then e.info else none

-- The loop over the entries: `seen` and `out`.
unfoldable pub scan_entries :
    Watcher → List Entry → Map Line DirFile → List Ready → Map Line DirFile × List Ready
unfolding seen_now
scan_entries w [] seen out = (seen, out)
scan_entries w (e ∷ es) seen out = elim (seen_now w e) [
  | none ↦ scan_entries w es seen out
  | some now ↦ scan_entries w es (put e.name now seen) (
      if unchanged (get e.name w.pending) now
      then out ++ record { name = e.name; mtime = now.mtime } ∷ []
      else out)
]

unfoldable pub less_name : Line → Line → Bool
less_name [] [] = false
less_name [] (b ∷ bs) = true
less_name (a ∷ name) [] = false
less_name (a ∷ name) (b ∷ bs) = if a == b then less_name name bs else ltb a b

-- The order of sort.Slice: oldest first, then by name. Names differ, so the order is strict.
unfoldable pub is_before : Ready → Ready → Bool
unfolding less_name
is_before a b = if not (a.mtime == b.mtime) then ltb a.mtime b.mtime else less_name a.name b.name

unfoldable pub insert_ready : Ready → List Ready → List Ready
unfolding is_before
insert_ready r [] = r ∷ []
insert_ready r (s ∷ ready) = if is_before s r then s ∷ insert_ready r ready else r ∷ s ∷ ready

unfoldable pub sort_ready : List Ready → List Ready
unfolding insert_ready
sort_ready [] = []
sort_ready (r ∷ ready) = insert_ready r (sort_ready ready)

abbrev pub name_of : Ready → Line
name_of r = r.name

-- `none` is an error of ReadDir.
unfoldable pub scan : Watcher → Option (List Entry) → Watcher × List Line
unfolding scan_entries sort_ready
scan w none = (w, [])
scan w (some es) =
    let (seen, out) = scan_entries w es [] [] in
    (record w { pending = seen }, map name_of (sort_ready out))

-- What a run comes to; whether Stop was called by the time it ends; whether the file could be moved.
pub data Ran : Type 0 where
  ran_well run_failed run_stopped : Ran

pub record RunOutcome : Type 0 where
  pub ran : Ran
  pub stop_called : Bool
  pub moved : Bool

abbrev pub was_stopped : Ran → Bool
was_stopped run_stopped = true
was_stopped _ = false

unfoldable pub process_one : Line → RunOutcome → Watcher → Watcher
process_one name o w =
    let now : Watcher = record w { stopped = w.stopped || o.stop_called } in
    if was_stopped o.ran || now.stopped then now else record now {
      pending = delete name w.pending;
      skip = if o.moved then w.skip else name ∷ w.skip;
    }

-- The files of a scan, one after the other, and those that were run.
unfoldable pub process_each : (Line → RunOutcome) → List Line → Watcher → Watcher × List Line
unfolding process_one
process_each outcome [] w = (w, [])
process_each outcome (name ∷ names) w =
    let rest = process_each outcome names (process_one name (outcome name) w) in
    if w.stopped then (w, []) else (rest.0, name ∷ rest.1)

-- A turn of the loop, and the loop until Stop: the files that were run in each turn.
pub record ScanRound : Type 0 where
  pub entries : Option (List Entry)
  pub outcome : Line → RunOutcome

unfoldable pub loop_round : ScanRound → Watcher → Watcher × List Line
unfolding scan process_each
loop_round r w = let (w', names) = scan w r.entries in process_each r.outcome names w'

unfoldable pub loop : List ScanRound → Watcher → List Line
unfolding loop_round
loop [] w = []
loop (r ∷ rs) w =
    let (w', names) = loop_round r w in
    let rest = loop rs w' in if w'.stopped then names else names ++ rest
