-- ===== src/Conns.antt =====
-- ConnPool.go: a provider's pool of connections. A connection is its ID; it is open while it is idle in the
-- pool's channel (with its parktime, in seconds) or in the hands of a routine, and its `conn` is nil afterwards. Each
-- critical section is one step; NewConn is two, since it dials without the lock. What a dial comes to is an argument.
pub mod Owners
pub mod Traces
use nzbre_x.Prelude.{
  ℕ, zero, suc, ◌+◌, ◌-◌, Bool, true, false, not, ◌&&◌, ◌||◌, List, [], ◌∷◌, ◌++◌, Option, none,
  some, if◌then◌else◌, ltb, leb, ◌==◌, length, tally,
}

pub record Pool : Type 0 where
  pub open_conns : ℕ
  pub max_conns : ℕ  -- provider.MaxConns, also the channel's capacity
  pub idle : List (ℕ × ℕ)
  pub in_use : List ℕ
  pub to_dial : ℕ  -- the calls of GetConn that have decided on NewConn and are not in it yet
  pub dialing : ℕ  -- the calls of NewConn between their two sections
  pub next_conn_id : ℕ

unfoldable pub new_conn_pool : ℕ → Pool
new_conn_pool max = record {
  open_conns = 0;
  max_conns = max;
  idle = [];
  in_use = [];
  to_dial = 0;
  dialing = 0;
  next_conn_id = 0;
}

abbrev pub conn_closer : ℕ
conn_closer = 30

abbrev pub conn_expire : ℕ
conn_expire = 20

unfoldable pub drop_id : ℕ → List ℕ → List ℕ
drop_id c [] = []
drop_id c (d ∷ ds) = if d == c then ds else d ∷ drop_id c ds

abbrev pub holds : ℕ → List ℕ → ℕ
holds c ds = tally (λ d. d == c) ds

-- closeConnOnce behind CloseConn's test that the connection is still open.
unfoldable pub close_conn : ℕ → Pool → Pool
unfolding drop_id
close_conn c p =
    if ltb 0 (holds c p.in_use)
    then record p { in_use = drop_id c p.in_use; open_conns = p.open_conns - 1 }
    else p

unfoldable pub park_conn : ℕ → ℕ → Pool → Pool
unfolding drop_id close_conn
park_conn now c p =
    if ltb (length p.idle) p.max_conns
    then record p { in_use = drop_id c p.in_use; idle = p.idle ++ (c, now) ∷ [] }
    else close_conn c p

-- NewConn up to the dial: `none` is its error.
unfoldable pub new_conn : Pool → Option Pool
new_conn p =
    if p.open_conns == p.max_conns
    then none
    else if ltb p.open_conns p.max_conns
    then some (record p { open_conns = p.open_conns + 1; dialing = p.dialing + 1 })
    else none

-- NewConn after the dial; a connection that was made has the next ID.
unfoldable pub end_dial : Bool → Pool → Pool
end_dial true p = record p {
  dialing = p.dialing - 1;
  next_conn_id = p.next_conn_id + 1;
  in_use = (p.next_conn_id + 1) ∷ p.in_use;
}
end_dial false p = record p { dialing = p.dialing - 1; open_conns = p.open_conns - 1 }

-- What one turn of GetConn's loop comes to.
pub data Turn : Type 0 where
  again failed waits dials : Turn
  got : ℕ → Turn

-- The routine goes on to NewConn, without the lock.
abbrev pub dial : Pool → Pool × Turn
dial p = (record p { to_dial = p.to_dial + 1 }, dials)

-- A routine that has decided so enters NewConn, which looks at openConns again; where that fails, the
-- routine is back in its loop.
unfoldable pub enter_new_conn : Pool → Pool
unfolding new_conn
enter_new_conn p =
    let q : Pool = record p { to_dial = p.to_dial - 1 } in
    elim (new_conn q) [ none ↦ q | some q' ↦ q' ]

-- GetConn's loop: an idle connection is handed out, or closed where it is old (then the next is tried) or
-- expired (then a new one is dialled, `UseReadDeadConn` being false); with none idle it waits or dials.
unfoldable pub get_turn : ℕ → Bool → Pool → Pool × Turn
unfolding close_conn
get_turn now stopped p = elim p.idle [
  | [] ↦
      if ltb p.max_conns p.open_conns
      then (p, failed)
      else if p.open_conns == p.max_conns
      then (p, waits)
      else if stopped
      then (p, failed)
      else dial p
  | (c, parked) ∷ rest ↦
      let taken : Pool = record p { idle = rest; in_use = c ∷ p.in_use } in
      if parked == 0
      then (close_conn c taken, again)
      else if ltb (parked + conn_closer) now
      then (close_conn c taken, again)
      else if ltb (parked + conn_expire) now
      then dial (close_conn c taken)
      else (taken, got c)
]

-- The wait for a connection that another routine parks: it is handed out whatever its age.
unfoldable pub take_waiting : Pool → Pool
take_waiting p = elim p.idle [
  | [] ↦ p
  | (c, parked) ∷ rest ↦ record p { idle = rest; in_use = c ∷ p.in_use }
]

-- What the routines of all workers do with the pool, one at a time: a routine parks or closes a connection that it
-- has; a second CloseConn of one that is closed already is a step too.
pub data Move : Type 0 where
  gets : ℕ → Bool → Move
  takes enters : Move
  ends_dial : Bool → Move
  parks : ℕ → ℕ → Move
  closes : ℕ → Move

unfoldable pub move : Pool → Move → Pool
unfolding get_turn take_waiting enter_new_conn end_dial park_conn close_conn
move p (gets now stopped) = (get_turn now stopped p).0
move p takes = take_waiting p
move p enters = if p.to_dial == 0 then p else enter_new_conn p
move p (ends_dial ok) = if p.dialing == 0 then p else end_dial ok p
move p (parks now c) = if holds c p.in_use == 0 then p else park_conn now c p
move p (closes c) = close_conn c p

unfoldable pub run_moves : Pool → List Move → Pool
unfolding move
run_moves p [] = p
run_moves p (m ∷ ms) = run_moves (move p m) ms
