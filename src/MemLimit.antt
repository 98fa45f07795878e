-- ===== src/MemLimit.antt =====
-- MemLimit.go: the limiter of articles held in memory. An item is named by its address, a number.
-- The methods are cut where they let go of the lock, so that a list of moves is an interleaving
-- of callers: `begin_wait`, `try_slot`, `take_slot`, `give_up` and `end_wait` are the parts of
-- MemLockWait, and `release` and `send_back` those of memReturn. The log lines and the GCounter
-- statistics are left out.
pub mod Slots
pub mod Conservation
pub mod Traces
use nzbre_x.Prelude.{
  ℕ, ◌+◌, ◌-◌, Bool, true, false, List, [], ◌∷◌, Option, none, some, if◌then◌else◌, ltb, ◌==◌,
  nat_eq,
}
use nzbre_x.Prelude.Map.{Map, get, put, delete}

abbrev pub mem : ℕ → List ℕ → Bool
mem i [] = false
mem i (j ∷ js) = if j == i then true else mem i js

abbrev pub remove : ℕ → List ℕ → List ℕ
remove i [] = []
remove i (j ∷ js) = if j == i then js else j ∷ remove i js

-- How far the one caller that waits for an item is: it has not looked at the channel, found it
-- empty, took a slot, or gave up because of stop.
pub data Phase : Type 0 where
  fresh blocked got quit : Phase

pub record Limiter : Type 0 where
  pub mem_max : ℕ
  pub memchan : ℕ  -- the free slots in the channel
  pub waiting : ℕ
  pub memdata : List ℕ  -- the items that own a slot
  pub pending : Map ℕ Phase  -- the items for which a caller waits, with how far it is
  pub memlocked : ℕ → Bool  -- item.memlocked, of each item
  pub returning : ℕ  -- callers of memReturn about to send their slot back

-- NewMemLimiter; a negative value is passed as 0.
unfoldable pub new_limiter : ℕ → Limiter
new_limiter value =
    let n = if value == 0 then 2 else value in
    record {
      mem_max = n;
      memchan = n;
      waiting = 0;
      memdata = [];
      pending = [];
      memlocked = λ _. false;
      returning = 0;
    }

unfoldable pub usage : Limiter → ℕ × ℕ
usage m = (m.mem_max - m.memchan, m.mem_max)

unfoldable pub mem_avail : Limiter → Bool
mem_avail m = ltb m.waiting m.mem_max

abbrev set_locked : ℕ → Bool → (ℕ → Bool) → ℕ → Bool
set_locked i b f j = if i == j then b else f j

-- The loop of MemLockWait up to `m.mux.Unlock`: the item has a slot already, another caller waits
-- for it (look again later), or this caller is now the one that waits.
pub data Begun : Type 0 where
  has_slot wait_for_other waits : Begun

unfoldable pub begin_wait : ℕ → Limiter → Limiter × Begun
begin_wait i m = if mem i m.memdata then (m, has_slot) else elim (get i m.pending) [
  | some _ ↦ (m, wait_for_other)
  | none ↦ (record m { pending = put i fresh m.pending; waiting = m.waiting + 1 }, waits)
]

-- `<-m.memchan`; blocked while the channel is empty.
unfoldable pub take_slot : ℕ → Limiter → Option Limiter
take_slot i m =
    if ltb 0 m.memchan
    then some (record m { memchan = m.memchan - 1; pending = put i got m.pending })
    else none

-- The outer select: a free slot is taken right away, whether or not stop is closed.
unfoldable pub try_slot : ℕ → Limiter → Limiter
unfolding take_slot
try_slot i m = elim (take_slot i m) [
  | some m' ↦ m'
  | none ↦ record m { pending = put i blocked m.pending }
]

-- `<-stop` of the inner select.
unfoldable pub give_up : ℕ → Limiter → Limiter
give_up i m = record m { pending = put i quit m.pending }

-- The second half of MemLockWait, under the lock again, with what it returns.
unfoldable pub end_wait : ℕ → Bool → Limiter → Limiter × Bool
end_wait i took m =
    let m' = record m { waiting = m.waiting - 1; pending = delete i m.pending } in
    if took
    then (record m' { memdata = i ∷ m.memdata; memlocked = set_locked i true m.memlocked }, true)
    else (m', false)

-- memReturn, the part under the lock; `false`: the item holds no slot, nothing to do.
unfoldable pub release : ℕ → Limiter → Limiter × Bool
release i m =
    if mem i m.memdata
    then (
      record m {
        memdata = remove i m.memdata;
        memlocked = set_locked i false m.memlocked;
        returning = m.returning + 1;
      },
      true,
    )
    else (m, false)

-- The send of the slot; `false` is the branch that logs the bug "slot chan is full".
unfoldable pub send_back : Limiter → Limiter × Bool
send_back m =
    let m' = record m { returning = m.returning - 1 } in
    if ltb m.memchan m.mem_max then (record m' { memchan = m.memchan + 1 }, true) else (m', false)

-- A call of MemLockWait or memReturn that no other caller interrupts. `stopped`: the stop channel
-- is closed. `none`: the call blocks.
unfoldable pub mem_lock_wait : ℕ → Bool → Limiter → Option (Limiter × Bool)
unfolding begin_wait try_slot end_wait give_up
mem_lock_wait i stopped m =
    let (m', begun) = begin_wait i m in
    elim begun [
      | has_slot ↦ some (m', true)
      | wait_for_other ↦ if stopped then some (m', false) else none
      | waits ↦
          if ltb 0 m'.memchan
          then some (end_wait i true (try_slot i m'))
          else if stopped
          then some (end_wait i false (give_up i (try_slot i m')))
          else none
    ]

unfoldable pub mem_return : ℕ → Limiter → Limiter
unfolding release send_back
mem_return i m = let (m', held) = release i m in if held then (send_back m').0 else m'

-- The moves of all callers. A move that its caller cannot make now leaves the state alone.
pub data Move : Type 0 where
  begins tries takes gives_up ends releases : ℕ → Move
  sends_back : Move

unfoldable pub move : Limiter → Move → Limiter
unfolding begin_wait take_slot try_slot give_up end_wait release send_back
move m (begins i) = (begin_wait i m).0
move m (tries i) = elim (get i m.pending) [ some fresh ↦ try_slot i m | _ ↦ m ]
move m (takes i) = elim (get i m.pending) [
  | some blocked ↦ elim (take_slot i m) [ some m' ↦ m' | none ↦ m ]
  | _ ↦ m
]
move m (gives_up i) = elim (get i m.pending) [ some blocked ↦ give_up i m | _ ↦ m ]
move m (ends i) = elim (get i m.pending) [
  | some got ↦ (end_wait i true m).0
  | some quit ↦ (end_wait i false m).0
  | _ ↦ m
]
move m (releases i) = (release i m).0
move m sends_back = if ltb 0 m.returning then (send_back m).0 else m

unfoldable pub run : Limiter → List Move → Limiter
run m [] = m
run m (v ∷ vs) = run (move m v) vs
