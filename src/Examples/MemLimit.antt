-- ===== src/Examples/MemLimit.antt =====
-- MemLimit.go at concrete inputs.
use nzbre_x.Prelude.{◌≤◌, ◌≡◌, refl, true, List, [], ◌∷◌, arith, length, nat_eq}
use nzbre_x.Prelude.Map.{get, put, delete}
use nzbre_x.MemLimit.{
  Limiter, Move, begins, tries, gives_up, ends, releases, new_limiter, begin_wait, try_slot,
  end_wait, send_back, run, move,
}
use nzbre_x.MemLimit.Traces.{reached, slots_conserved, send_back_never_full}

-- Two slots and three items: 1 and 2 get a slot, 3 waits and gives up, 1 is returned.
abbrev busy : List Move
busy =
    begins 1
    ∷ begins 2
    ∷ begins 3
    ∷ tries 1
    ∷ tries 2
    ∷ tries 3
    ∷ ends 1
    ∷ ends 2
    ∷ gives_up 3
    ∷ ends 3
    ∷ releases 1
    ∷ []

busy_test : ((reached 2 busy).memdata ≡ 2 ∷ []) × ((reached 2 busy).returning ≡ 1)
unfolding run move get put delete new_limiter
busy_test = (refl, refl)

slots_conserved_example : length (reached 2 busy).memdata ≤ 2
slots_conserved_example = (slots_conserved 2 busy).1

send_back_never_full_example : (send_back (reached 2 busy)).1 ≡ true
unfolding run move get put delete new_limiter
send_back_never_full_example = send_back_never_full 2 busy (omega arith)

abbrev half_way : List Move
half_way = begins 1 ∷ tries 1 ∷ []

locked : Limiter
unfolding new_limiter begin_wait try_slot end_wait put delete
locked = (end_wait 7 true (try_slot 7 (begin_wait 7 (new_limiter 2)).0)).0
