-- ===== src/Conns/Traces.antt =====
-- ConnPool.go: runs of the routines on a pool.
use nzbre_x.Prelude.{
  ℕ, ◌+◌, ◌-◌, ◌≡◌, refl, ap, inl, inr, arith, Bool, true, false, List, [], ◌∷◌, ◌++◌,
  if◌then◌else◌, ltb, ◌==◌, ==_iff, length, tally, Bool-cases,
}
use nzbre_x.Conns.{
  Pool, conn_closer, conn_expire, holds, close_conn, park_conn, new_conn, end_dial, Turn, again,
  failed, waits, got, dial, get_turn, take_waiting, Move, gets, takes, enters, enter_new_conn,
  ends_dial, parks, closes, move, run_moves,
}
use nzbre_x.Conns.Owners.{Inv, close_conn-Inv, park_conn-Inv, room, holds-drop_id}

taken-Inv :
    (p : Pool) (c parked : ℕ) (rest : List (ℕ × ℕ))
    → p.idle ≡ (c, parked) ∷ rest
    → Inv p
    → Inv (record p { idle = rest; in_use = c ∷ p.in_use })
taken-Inv p c parked rest e v = record {
  counted = omega (arith, v.counted, ap length e);
  bounded = v.bounded;
  once = λ k. ground (arith, v.once k, ap (tally (λ x. x.0 == k)) e);
}

begun_dial-Inv :
    (p : Pool)
    → ltb p.open_conns p.max_conns ≡ true
    → Inv p
    → Inv (record p { open_conns = p.open_conns + 1; dialing = p.dialing + 1 })
begun_dial-Inv p less v = record {
  counted = omega (arith, v.counted);
  bounded = ground (arith, less);
  once = v.once;
}

dial-Inv : (p : Pool) → Inv p → Inv (dial p).0
dial-Inv p v = record { counted = v.counted; bounded = v.bounded; once = v.once }

enter_new_conn-Inv : (p : Pool) → Inv p → Inv (enter_new_conn p)
unfolding enter_new_conn new_conn
enter_new_conn-Inv p v =
    let q : Pool = record p { to_dial = p.to_dial - 1 } in
    let w : Inv q = record { counted = v.counted; bounded = v.bounded; once = v.once } in
    elim (Bool-cases (p.open_conns == p.max_conns)) [
      | inl full ↦ rw (full, enter_new_conn, new_conn) w
      | inr free ↦
          let less : ltb p.open_conns p.max_conns ≡ true = ground (arith, free, v.bounded) in
          rw (free, less, enter_new_conn, new_conn) (begun_dial-Inv q less w)
    ]

if-Inv : (b : Bool) (x y : Pool × Turn) → Inv x.0 → Inv y.0 → Inv (if b then x else y).0
if-Inv true x y v w = v
if-Inv false x y v w = w

turn-Inv :
    (now : ℕ) (stopped : Bool) (p : Pool) (idle : List (ℕ × ℕ))
    → p.idle ≡ idle
    → Inv p
    → Inv
        (elim idle as (λ _. Pool × Turn) [
          | [] ↦
              if ltb p.max_conns p.open_conns
              then (p, failed)
              else if p.open_conns == p.max_conns
              then (p, waits)
              else if stopped
              then (p, failed)
              else dial p
          | (c, parked) ∷ rest ↦
              let taken : Pool = record p { idle = rest; in_use = c ∷ p.in_use } in
              if parked == 0
              then (close_conn c taken, again)
              else if ltb (parked + conn_closer) now
              then (close_conn c taken, again)
              else if ltb (parked + conn_expire) now
              then dial (close_conn c taken)
              else (taken, got c)
        ]).0
turn-Inv now stopped p [] e v =
    let open_one : Pool × Turn = if stopped then (p, failed) else dial p in
    let wait_one : Pool × Turn = if p.open_conns == p.max_conns then (p, waits) else open_one in
    if-Inv (ltb p.max_conns p.open_conns) (p, failed) wait_one v
      (if-Inv (p.open_conns == p.max_conns) (p, waits) open_one v
        (if-Inv stopped (p, failed) (dial p) v (dial-Inv p v)))
turn-Inv now stopped p ((c, parked) ∷ rest) e v =
    let taken : Pool = record p { idle = rest; in_use = c ∷ p.in_use } in
    let w : Inv taken = taken-Inv p c parked rest e v in
    let x : Inv (close_conn c taken) = close_conn-Inv c taken w in
    let closed : Pool × Turn = (close_conn c taken, again) in
    let recent : Pool × Turn =
      if ltb (parked + conn_expire) now then dial (close_conn c taken) else (taken, got c) in
    let known : Pool × Turn = if ltb (parked + conn_closer) now then closed else recent in
    if-Inv (parked == 0) closed known x (
      if-Inv (ltb (parked + conn_closer) now) closed recent x (
        if-Inv (ltb (parked + conn_expire) now) (dial (close_conn c taken)) (taken, got c)
          (dial-Inv (close_conn c taken) x) w))

waiting-Inv :
    (p : Pool) (idle : List (ℕ × ℕ))
    → p.idle ≡ idle
    → Inv p
    → Inv (elim idle as (λ _. Pool) [
      | [] ↦ p
      | (c, parked) ∷ rest ↦ record p { idle = rest; in_use = c ∷ p.in_use }
    ])
waiting-Inv p [] e v = v
waiting-Inv p ((c, parked) ∷ rest) e v = taken-Inv p c parked rest e v

end_dial-Inv : (ok : Bool) (p : Pool) → (p.dialing == 0) ≡ false → Inv p → Inv (end_dial ok p)
unfolding end_dial
end_dial-Inv true p busy v = record {
  counted = ground (arith, v.counted, busy);
  bounded = v.bounded;
  once = λ k. ground (arith, v.once k, ==_iff (p.next_conn_id + 1) k);
}
end_dial-Inv false p busy v = record {
  counted = ground (arith, v.counted, busy);
  bounded = omega (arith, v.bounded);
  once = v.once;
}

move-Inv : (p : Pool) (m : Move) → Inv p → Inv (move p m)
unfolding move get_turn take_waiting
move-Inv p (gets now stopped) v = turn-Inv now stopped p p.idle refl v
move-Inv p takes v = waiting-Inv p p.idle refl v
move-Inv p enters v = elim (Bool-cases (p.to_dial == 0)) [
  | inl e ↦ rw (e, move) v
  | inr e ↦ rw (e, move) (enter_new_conn-Inv p v)
]
move-Inv p (ends_dial ok) v = elim (Bool-cases (p.dialing == 0)) [
  | inl e ↦ rw (e, move) v
  | inr e ↦ rw (e, move) (end_dial-Inv ok p e v)
]
move-Inv p (parks now c) v = elim (Bool-cases (holds c p.in_use == 0)) [
  | inl e ↦ rw (e, move) v
  | inr e ↦ rw (e, move) (park_conn-Inv now c p (ground (arith, e)) v)
]
move-Inv p (closes c) v = close_conn-Inv c p v

-- From a pool that satisfies the invariant, whatever the routines do in whatever order (turns of GetConn, waits,
-- NewConn entered by routines that all found room before, dials that succeed or fail, parks and closes, closes
-- of a closed connection among them), openConns is the number of idle connections, connections in use and running
-- dials, it stays within MaxConns, and no connection has two owners.
pub conns_counted : (p : Pool) (ms : List Move) → Inv p → Inv (run_moves p ms)
unfolding run_moves
conns_counted p [] v = v
conns_counted p (m ∷ ms) v = conns_counted (move p m) ms (move-Inv p m v)

-- In a pool that satisfies the invariant, ParkConn of a connection in use never finds the channel full: the connection is the
-- last idle one afterwards, and none is closed.
pub park_conn_result :
    (now c : ℕ) (p : Pool)
    → Inv p
    → ltb 0 (holds c p.in_use) ≡ true
    → ((park_conn now c p).idle ≡ p.idle ++ (c, now) ∷ [])
      × ((park_conn now c p).open_conns ≡ p.open_conns)
unfolding park_conn
park_conn_result now c p v e = rw (room c p v e, park_conn) (refl, refl)

close_conn_closed : (c : ℕ) (p : Pool) → ltb 0 (holds c p.in_use) ≡ false → close_conn c p ≡ p
unfolding close_conn
close_conn_closed c p e = rw (e, close_conn) refl

close_conn-gone : (c : ℕ) (p : Pool) → Inv p → ltb 0 (holds c (close_conn c p).in_use) ≡ false
unfolding close_conn
close_conn-gone c p v = elim (Bool-cases (ltb 0 (holds c p.in_use))) [
  | inr e ↦ rw (e, close_conn) e
  | inl e ↦ rw (e, close_conn) (ground (arith, v.once c, holds-drop_id c c p.in_use e, ==_iff c c))
]

-- In a pool that satisfies the invariant, closing a connection once more changes nothing: the count goes down once.
close_conn_twice : (c : ℕ) (p : Pool) → Inv p → close_conn c (close_conn c p) ≡ close_conn c p
close_conn_twice c p v = close_conn_closed c (close_conn c p) (close_conn-gone c p v)
