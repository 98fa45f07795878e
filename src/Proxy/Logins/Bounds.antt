-- ===== src/Proxy/Logins/Bounds.antt =====
-- Server.go: no user has more connections than the files of users allow.
use nzbre_x.Prelude.{
  ℕ, ◌+◌, ◌-◌, ◌≤◌, ◌<◌, true, false, List, [], ◌∷◌, ◌≡◌, inl, inr, arith, Option, none, some, ◌==◌,
  ltb, length, tally, nat_eq, list_eq, ◌=?◌, same_list_iff, Bool-cases, Option-cases, All,
}
use nzbre_x.Prelude.Map.{Map, get}
use nzbre_x.Nntp.{Line}
use nzbre_x.Rapid.Fields.{ℤ, pos, negsuc}
use nzbre_x.Passwd.{UserData, verify_user}
use nzbre_x.Proxy.Logins.{
  Accounts, proxy_max_pre_auth, account_expired, too_many, count_of, LoginInput, reloaded, admit,
  login, client_at, accept, refuse, log_in, close_client, Move, accepts, refuses, logs_in, closes,
  move, run_moves,
}
use nzbre_x.Proxy.Logins.Counts.{is_user, IsCounted, run_moves-IsCounted, count_of-put}

-- A limit between 1 and `m`; 0 and negative numbers are no limit to the proxy.
abbrev pub IsLimit : ℕ → ℤ → Type 0
IsLimit m (pos k) = (0 < k) × (k ≤ m)
IsLimit m (negsuc k) = ⊥

-- The user is not listed, or has such a limit.
abbrev pub Limited : ℕ → Option UserData → Type 0
Limited m none = Unit
Limited m (some u) = IsLimit m u.max_conns

-- A file that is loaded with the step limits the user too.
abbrev pub LimitedFile : ℕ → Line → Option (Option (Map Line UserData)) → Type 0
LimitedFile m user none = Unit
LimitedFile m user (some none) = Unit
LimitedFile m user (some (some users)) = Limited m (get user users)

abbrev pub LimitedMove : ℕ → Line → Move → Type 0
LimitedMove m user (logs_in i c who password) = LimitedFile m user i.reload
LimitedMove m user _ = Unit

module _ (m : ℕ) (user : Line) where
  record Within (a : Accounts) : Type 0 where
    limited : Limited m (get user a.users)
    within : count_of user a.count_conns ≤ m

  reloaded-Limited :
      (file : Option (Option (Map Line UserData))) (users : Map Line UserData)
      → LimitedFile m user file
      → Limited m (get user users)
      → Limited m (get user (reloaded file users))
  unfolding reloaded
  reloaded-Limited none users f l = l
  reloaded-Limited (some none) users f l = l
  reloaded-Limited (some (some new)) users f l = elim (Bool-cases (length new == 0)) [
    | inl t ↦ rw (t, reloaded) l
    | inr t ↦ rw (t, reloaded) f
  ]

  room_left : (z : ℤ) (count : ℕ) → IsLimit m z → too_many z count ≡ false → count + 1 ≤ m
  room_left (pos k) count l h = ground arith
  room_left (negsuc k) count l h = absurd l

  admit-Within :
      (now : ℕ) (found : Option UserData) (who : Line) (counts : Map Line ℕ)
      → ((who =? user) ≡ true → Limited m found)
      → count_of user counts ≤ m
      → count_of user (admit now found who counts).0 ≤ m
  unfolding admit
  admit-Within now none who counts l h = h
  admit-Within now (some u) who counts l h = elim (Bool-cases (account_expired u.expire_at now)) [
    | inl t ↦ rw t h
    | inr t ↦ elim (Bool-cases (too_many u.max_conns (count_of who counts))) [
      | inl s ↦ rw (t, s) h
      | inr s ↦ elim (Bool-cases (who =? user)) [
        | inl same ↦
            rw (t, s)
              (rw (count_of-put who user (count_of who counts + 1) counts, same)
                (room_left u.max_conns (count_of who counts) (l same) s))
        | inr other ↦
            rw (t, s) (rw (count_of-put who user (count_of who counts + 1) counts, other) h)
      ]
    ]
  ]

  login-Within :
      (i : LoginInput) (who password : Line) (users : Map Line UserData) (counts : Map Line ℕ)
      → LimitedFile m user i.reload
      → Limited m (get user users)
      → count_of user counts ≤ m
      → Limited m (get user (login i who password users counts).0)
        × (count_of user (login i who password users counts).1.0 ≤ m)
  unfolding login
  login-Within i who password users counts f l h =
      elim (Option-cases (verify_user i.compare i.dummy i.now users who password)) [
        | inl e ↦ rw (e, login) (l, h)
        | inr (u, e) ↦
            let now' = reloaded i.reload users in
            let listed = reloaded-Limited i.reload users f l in
            let found : (who =? user) ≡ true → Limited m (get who now') =
              λ same. rw ((same_list_iff who user).0 same) listed in
            rw (e, login) (listed, admit-Within i.now (get who now') who counts found h)
      ]

  log_in-Within :
      (i : LoginInput) (c : ℕ) (who password : Line) (a : Accounts)
      → LimitedFile m user i.reload
      → Within a
      → Within (log_in i c who password a)
  unfolding log_in
  log_in-Within i c who password a f v =
      let (listed, counts) =
        login-Within i who password a.users a.count_conns f v.limited v.within in
      elim (Option-cases (login i who password a.users a.count_conns).1.2) [
        | inl e ↦ rw (e, log_in) (record { limited = listed; within = v.within })
        | inr (w, e) ↦ rw (e, log_in) (record { limited = listed; within = counts })
      ]

  close_client-Within :
      (c : ℕ) (x : Option Line) (a : Accounts) → Within a → Within (close_client c x a)
  unfolding close_client
  close_client-Within c none a v = record { limited = v.limited; within = v.within }
  close_client-Within c (some u) a v = elim (Bool-cases (ltb 0 (count_of u a.count_conns))) [
    | inl t ↦ rw t (record {
      limited = v.limited;
      within =
          rw (count_of-put u user (count_of u a.count_conns - 1) a.count_conns)
            (ground (arith, v.within, same_list_iff u user));
    })
    | inr t ↦ rw t (record { limited = v.limited; within = v.within })
  ]

  move-Within : (mv : Move) (a : Accounts) → LimitedMove m user mv → Within a → Within (move a mv)
  unfolding move accept refuse
  move-Within accepts a l v = elim (Bool-cases (ltb proxy_max_pre_auth (a.pre_auth_conns + 1))) [
    | inl t ↦ rw t (record { limited = v.limited; within = v.within })
    | inr t ↦ rw t (record { limited = v.limited; within = v.within })
  ]
  move-Within refuses a l v = elim (Bool-cases (a.refusing == 0)) [
    | inl t ↦ rw t v
    | inr t ↦ rw t (record { limited = v.limited; within = v.within })
  ]
  move-Within (logs_in i c who password) a l v = elim (Option-cases (client_at c a.clients)) [
    | inl e ↦ rw (e, move) v
    | inr (none, e) ↦ rw (e, move) (log_in-Within i c who password a l v)
    | inr (some u, e) ↦ rw (e, move) v
  ]
  move-Within (closes c) a l v = elim (Option-cases (client_at c a.clients)) [
    | inl e ↦ rw (e, move) v
    | inr (x, e) ↦ rw (e, move) (close_client-Within c x a v)
  ]

  run_moves-Within :
      (ms : List Move) (a : Accounts)
      → All (LimitedMove m user) ms
      → Within a
      → Within (run_moves a ms)
  unfolding run_moves
  run_moves-Within [] a l v = v
  run_moves-Within (mv ∷ ms) a l v = run_moves-Within ms (move a mv) l.1 (move-Within mv a l.0 v)

  -- If the users that are in force before and every file of users that is loaded give a user a limit between 1 and m, or
  -- do not list the user, then whatever clients connect, log in or leave, in whatever order, no more than m clients
  -- are logged in as the user afterwards, as it was before and with CountConns right before.
  pub user_connections_bounded :
      (ms : List Move) (a : Accounts)
      → All (LimitedMove m user) ms
      → Limited m (get user a.users)
      → IsCounted a
      → tally (is_user user) a.clients ≤ m
      → tally (is_user user) (run_moves a ms).clients ≤ m
  user_connections_bounded ms a l u v h =
      let start : Within a = record { limited = u; within = omega (arith, v.by_user user, h) } in
      let end' = (run_moves-Within ms a l start).within in
      omega (arith, (run_moves-IsCounted ms a v).by_user user, end')
