-- ===== src/MemLimit/Traces.antt =====
-- MemLimit.go: what holds after any interleaving of calls, and what one call does.
use nzbre_x.Prelude.{
  ℕ, ◌+◌, ◌≤◌, ◌<◌, Bool, true, false, ◌≡◌, refl, ◌∙◌, List, [], ◌∷◌, some, if◌then◌else◌, ◌==◌,
  length, nat_eq, arith,
}
use nzbre_x.Prelude.Map.{get}
use nzbre_x.MemLimit.{
  Limiter, got, quit, Move, begins, mem, new_limiter, begin_wait, take_slot, try_slot, give_up,
  end_wait, release, send_back, mem_lock_wait, mem_return, move, run,
}
use nzbre_x.MemLimit.Slots.{taken}
use nzbre_x.MemLimit.Conservation.{Inv, new_limiter-Inv, move-Inv, room}

run-Inv : (m : Limiter) (vs : List Move) → Inv m → Inv (run m vs)
unfolding run
run-Inv m [] v = v
run-Inv m (x ∷ vs) v = run-Inv (move m x) vs (move-Inv m x v)

-- The limiter that NewMemLimiter makes, after any interleaving of the callers' moves.
abbrev pub reached : ℕ → List Move → Limiter
reached value vs = run (new_limiter value) vs

mem_max-move : (m : Limiter) (x : Move) → (move m x).mem_max ≡ m.mem_max
unfolding move begin_wait try_slot take_slot give_up end_wait release send_back
mem_max-move m (begins i) = ground arith
mem_max-move m _ = ground arith

mem_max-run : (m : Limiter) (vs : List Move) → (run m vs).mem_max ≡ m.mem_max
unfolding run
mem_max-run m [] = refl
mem_max-run m (x ∷ vs) = mem_max-run (move m x) vs ∙ mem_max-move m x

mem_max-new_limiter : (value : ℕ) → (new_limiter value).mem_max ≡ (if value == 0 then 2 else value)
unfolding new_limiter
mem_max-new_limiter value = refl

-- After any interleaving at most `value` items (2, for a value of 0) own a slot, the free slots,
-- the slots of owners, those that waiting callers just took and those on their way back add up
-- to that number, and an item's memlocked flag is set exactly if it is among the owners.
pub slots_conserved :
    (value : ℕ) (vs : List Move)
    → let m = reached value vs in
      (m.memchan + length m.memdata + taken m.pending + m.returning
        ≡ (if value == 0 then 2 else value))
      × (length m.memdata ≤ (if value == 0 then 2 else value))
      × ((i : ℕ) → m.memlocked i ≡ mem i m.memdata)
slots_conserved value vs =
    let v = run-Inv (new_limiter value) vs (new_limiter-Inv value) in
    let e = mem_max-run (new_limiter value) vs ∙ mem_max-new_limiter value in
    (omega (arith, v.slots, e), omega (arith, v.slots, e), v.flags)

-- The branch of memReturn that finds the channel full is never taken: after any interleaving, a
-- slot that is on its way back goes into the channel.
pub send_back_never_full :
    (value : ℕ) (vs : List Move)
    → 0 < (reached value vs).returning
    → (send_back (reached value vs)).1 ≡ true
unfolding send_back
send_back_never_full value vs h = rw (room _ (run-Inv _ vs (new_limiter-Inv value)) h)

-- A caller whose MemLockWait is about to return true adds its item, which owned no slot, to the
-- owners, and one that is about to return false leaves the owners alone.
end_wait_result :
    (value : ℕ) (vs : List Move) (i : ℕ) (took : Bool)
    → get i (reached value vs).pending ≡ some (if took then got else quit)
    → ((end_wait i took (reached value vs)).1 ≡ took)
      × (mem i (reached value vs).memdata ≡ false)
      × ((end_wait i took (reached value vs)).0.memdata
          ≡ (if took then i ∷ (reached value vs).memdata else (reached value vs).memdata))
unfolding end_wait
end_wait_result value vs i took e =
    let v = run-Inv (new_limiter value) vs (new_limiter-Inv value) in ground (arith, v.apart i, e)

-- Uninterrupted, from any state that callers can reach: an item that gets a slot by MemLockWait
-- and returns it leaves every slot where it was, and returning it once more changes nothing.
lock-return :
    (i : ℕ) (stopped : Bool) (m m' : Limiter)
    → Inv m
    → mem i m.memdata ≡ false
    → mem_lock_wait i stopped m ≡ some (m', true)
    → (mem i m'.memdata ≡ true)
      × ((mem_return i m').memdata ≡ m.memdata)
      × ((mem_return i m').memchan ≡ m.memchan)
      × (mem_return i (mem_return i m') ≡ mem_return i m')
unfolding mem_lock_wait mem_return
lock-return i stopped m m' v free e = ground (arith, e, v.slots, v.owners, free)
