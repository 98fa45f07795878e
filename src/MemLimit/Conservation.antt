-- ===== src/MemLimit/Conservation.antt =====
-- MemLimit.go: where the slots are, step by step.
use nzbre_x.Prelude.{
  ℕ, ◌+◌, ◌-◌, ◌<◌, Bool, true, false, ◌≡◌, refl, none, some, inl, inr, if◌then◌else◌, ltb, ltb→lt,
  length, Bool-cases, Option-cases, nat_eq, arith,
}
use nzbre_x.Prelude.Map.{get, put, get-put, get-delete}
use nzbre_x.MemLimit.{
  Limiter, Phase, fresh, blocked, got, quit, Move, begins, tries, takes, gives_up, ends, releases,
  sends_back, mem, new_limiter, begin_wait, take_slot, try_slot, end_wait, release, send_back, move,
}
use nzbre_x.MemLimit.Slots.{
  Distinct, HasDistinctKeys, taken, slots_of, length-remove, mem-remove, remove-Distinct,
  put-HasDistinctKeys, delete-HasDistinctKeys, put_present, put_absent, delete_present,
}

pub record Inv (m : Limiter) : Type 0 where
  pub slots : m.memchan + length m.memdata + taken m.pending + m.returning ≡ m.mem_max
  pub waits : m.waiting ≡ length m.pending
  pub owners : Distinct m.memdata
  pub keys : HasDistinctKeys m.pending
  pub flags : (i : ℕ) → m.memlocked i ≡ mem i m.memdata
  pub apart : (i : ℕ) → mem i m.memdata ≡ true → get i m.pending ≡ none

pub new_limiter-Inv : (value : ℕ) → Inv (new_limiter value)
unfolding new_limiter get
new_limiter-Inv value = record {
  slots = ground arith;
  waits = refl;
  owners = tt;
  keys = tt;
  flags = λ i. refl;
  apart = λ i h. refl;
}

begin_wait-Inv : (i : ℕ) (m : Limiter) → Inv m → Inv (begin_wait i m).0
unfolding begin_wait
begin_wait-Inv i m v = elim (Bool-cases (mem i m.memdata)) [
  | inl owns ↦ rw owns v
  | inr free ↦ rw free (elim (Option-cases (get i m.pending)) [
    | inr (ph, e) ↦ rw e v
    | inl e ↦ rw e (record {
      slots = omega (arith, v.slots, put_absent i fresh m.pending e);
      waits = omega (arith, v.waits, put_absent i fresh m.pending e);
      owners = v.owners;
      keys = put-HasDistinctKeys i fresh m.pending v.keys;
      flags = v.flags;
      apart = λ j h. ground (arith, v.apart j h, get-put i j fresh m.pending, free, h);
    })
  ])
]

-- A waiting caller moves on: its phase changes, and with it the slots that callers hold.
phase-Inv :
    (i : ℕ) (ph old : Phase) (m : Limiter) (free : ℕ)
    → get i m.pending ≡ some old
    → free + slots_of ph ≡ m.memchan + slots_of old
    → Inv m
    → Inv (record m { memchan = free; pending = put i ph m.pending })
phase-Inv i ph old m free e same v = record {
  slots = omega (arith, v.slots, put_present i ph old m.pending e);
  waits = omega (arith, v.waits, put_present i ph old m.pending e);
  owners = v.owners;
  keys = put-HasDistinctKeys i ph m.pending v.keys;
  flags = v.flags;
  apart = λ j h. ground (arith, v.apart j h, get-put i j ph m.pending, e, h);
}

take_slot-Inv :
    (i : ℕ) (old : Phase) (m : Limiter)
    → get i m.pending ≡ some old
    → slots_of old ≡ 0
    → ltb 0 m.memchan ≡ true
    → Inv m
    → Inv (record m { memchan = m.memchan - 1; pending = put i got m.pending })
take_slot-Inv i old m e none_yet free v =
    phase-Inv i got old m (m.memchan - 1) e (ground (arith, none_yet, ltb→lt _ _ free)) v

try_slot-Inv : (i : ℕ) (m : Limiter) → get i m.pending ≡ some fresh → Inv m → Inv (try_slot i m)
unfolding try_slot take_slot
try_slot-Inv i m e v = elim (Bool-cases (ltb 0 m.memchan)) [
  | inl free ↦ rw (free, try_slot, take_slot) (take_slot-Inv i fresh m e refl free v)
  | inr empty ↦ rw (empty, try_slot, take_slot) (phase-Inv i blocked fresh m m.memchan e refl v)
]

end_wait-Inv :
    (i : ℕ) (took : Bool) (m : Limiter)
    → get i m.pending ≡ some (if took then got else quit)
    → Inv m
    → Inv (end_wait i took m).0
unfolding end_wait
end_wait-Inv i true m e v = record {
  slots = omega (arith, v.slots, delete_present i got m.pending v.keys e);
  waits = omega (arith, v.waits, delete_present i got m.pending v.keys e);
  owners = (ground (arith, v.apart i, e), v.owners);
  keys = delete-HasDistinctKeys i m.pending v.keys;
  flags = λ j. ground (arith, v.flags j);
  apart = λ j h. ground (arith, v.apart j, get-delete i j m.pending, h);
}
end_wait-Inv i false m e v = record {
  slots = omega (arith, v.slots, delete_present i quit m.pending v.keys e);
  waits = omega (arith, v.waits, delete_present i quit m.pending v.keys e);
  owners = v.owners;
  keys = delete-HasDistinctKeys i m.pending v.keys;
  flags = v.flags;
  apart = λ j h. ground (arith, v.apart j h, get-delete i j m.pending);
}

release-Inv : (i : ℕ) (m : Limiter) → Inv m → Inv (release i m).0
unfolding release
release-Inv i m v = elim (Bool-cases (mem i m.memdata)) [
  | inr free ↦ rw free v
  | inl owns ↦ rw owns (record {
    slots = omega (arith, v.slots, length-remove i m.memdata owns);
    waits = v.waits;
    owners = remove-Distinct i m.memdata v.owners;
    keys = v.keys;
    flags = λ j. ground (arith, v.flags j, mem-remove i j m.memdata v.owners);
    apart = λ j h. ground (arith, v.apart j, mem-remove i j m.memdata v.owners, h);
  })
]

-- With a slot on its way back the channel has room for it.
pub room : (m : Limiter) → Inv m → 0 < m.returning → ltb m.memchan m.mem_max ≡ true
room m v h = ground (arith, v.slots)

send_back-Inv : (m : Limiter) → Inv m → 0 < m.returning → Inv (send_back m).0
unfolding send_back
send_back-Inv m v h = rw (room m v h) (record {
  slots = omega (arith, v.slots);
  waits = v.waits;
  owners = v.owners;
  keys = v.keys;
  flags = v.flags;
  apart = v.apart;
})

-- Every move keeps the slots conserved, the wait count exact, each item at most one slot, each
-- item's memlocked flag in step with the table of owners, and no owner waiting for a second slot.
pub move-Inv : (m : Limiter) (v : Move) → Inv m → Inv (move m v)
unfolding move take_slot
move-Inv m (begins i) v = begin_wait-Inv i m v
move-Inv m (tries i) v = elim (Option-cases (get i m.pending)) [
  | inl e ↦ rw (e, move) v
  | inr (fresh, e) ↦ rw (e, move) (try_slot-Inv i m e v)
  | inr (blocked, e) ↦ rw (e, move) v
  | inr (got, e) ↦ rw (e, move) v
  | inr (quit, e) ↦ rw (e, move) v
]
move-Inv m (takes i) v = elim (Option-cases (get i m.pending)) [
  | inl e ↦ rw (e, move) v
  | inr (fresh, e) ↦ rw (e, move) v
  | inr (blocked, e) ↦ elim (Bool-cases (ltb 0 m.memchan)) [
    | inl free ↦ rw (e, move) (rw (free, take_slot) (take_slot-Inv i blocked m e refl free v))
    | inr empty ↦ rw (e, move) (rw (empty, take_slot) v)
  ]
  | inr (got, e) ↦ rw (e, move) v
  | inr (quit, e) ↦ rw (e, move) v
]
move-Inv m (gives_up i) v = elim (Option-cases (get i m.pending)) [
  | inl e ↦ rw (e, move) v
  | inr (fresh, e) ↦ rw (e, move) v
  | inr (blocked, e) ↦ rw (e, move) (phase-Inv i quit blocked m m.memchan e refl v)
  | inr (got, e) ↦ rw (e, move) v
  | inr (quit, e) ↦ rw (e, move) v
]
move-Inv m (ends i) v = elim (Option-cases (get i m.pending)) [
  | inl e ↦ rw (e, move) v
  | inr (fresh, e) ↦ rw (e, move) v
  | inr (blocked, e) ↦ rw (e, move) v
  | inr (got, e) ↦ rw (e, move) (end_wait-Inv i true m e v)
  | inr (quit, e) ↦ rw (e, move) (end_wait-Inv i false m e v)
]
move-Inv m (releases i) v = release-Inv i m v
move-Inv m sends_back v = elim (Bool-cases (ltb 0 m.returning)) [
  | inl some_left ↦ rw some_left (send_back-Inv m v (ltb→lt _ _ some_left))
  | inr none_left ↦ rw none_left v
]
