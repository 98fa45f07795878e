-- ===== src/Examples/Conns.antt =====
-- ConnPool.go at concrete inputs.
use nzbre_x.Prelude.{◌≡◌, refl, true, false, List, [], ◌∷◌, ◌++◌}
use nzbre_x.Conns.{
  Pool, new_conn_pool, drop_id, close_conn, park_conn, new_conn, end_dial, get_turn, Move, gets,
  enters, enter_new_conn, ends_dial, parks, closes, move, run_moves,
}
use nzbre_x.Conns.Owners.{Inv, new_conn_pool-Inv}
use nzbre_x.Conns.Traces.{conns_counted, park_conn_result}

-- Three routines find room, two dial, one dial fails; the connection is parked and, too old by then, closed at the next turn; a third dial succeeds.
abbrev calls : List Move
calls =
    gets 100 false
    ∷ gets 100 false
    ∷ gets 100 false
    ∷ enters
    ∷ enters
    ∷ enters
    ∷ ends_dial true
    ∷ ends_dial false
    ∷ parks 101 1
    ∷ gets 200 false
    ∷ closes 1
    ∷ gets 200 false
    ∷ enters
    ∷ ends_dial true
    ∷ []

in_hand : Pool
unfolding run_moves move get_turn enter_new_conn end_dial park_conn close_conn drop_id new_conn
    new_conn_pool
in_hand = run_moves (new_conn_pool 2) calls

in_hand_test : (in_hand.open_conns ≡ 1) × (in_hand.in_use ≡ 2 ∷ []) × (in_hand.idle ≡ [])
unfolding in_hand
in_hand_test = (refl, refl, refl)

in_hand-Inv : Inv in_hand
unfolding in_hand
in_hand-Inv = conns_counted (new_conn_pool 2) calls (new_conn_pool-Inv 2)

conns_counted_example : Inv (run_moves (new_conn_pool 2) calls)
conns_counted_example = conns_counted (new_conn_pool 2) calls (new_conn_pool-Inv 2)

park_conn_result_example :
    ((park_conn 300 2 in_hand).idle ≡ in_hand.idle ++ (2, 300) ∷ [])
    × ((park_conn 300 2 in_hand).open_conns ≡ in_hand.open_conns)
unfolding in_hand
park_conn_result_example = park_conn_result 300 2 in_hand in_hand-Inv refl
