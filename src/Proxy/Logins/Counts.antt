-- ===== src/Proxy/Logins/Counts.antt =====
-- Server.go: CountConns and proxyPreAuthConns are what their names say, whatever the clients do.
use nzbre_x.Prelude.{
  ℕ, zero, suc, ◌+◌, ◌-◌, ◌≤◌, Bool, true, false, List, [], ◌∷◌, ◌≡◌, refl, sym, ◌∙◌, ◌⊎◌, inl, inr,
  arith, Option, none, some, if◌then◌else◌, ◌==◌, ltb, tally, tally-append, nat_eq, list_eq, ◌=?◌,
  same_list_iff, Bool-cases, Option-cases,
}
use nzbre_x.Prelude.Map.{Map, get, put, get-put}
use nzbre_x.Nntp.{Line}
use nzbre_x.Passwd.{UserData, verify_user}
use nzbre_x.Proxy.Logins.{
  Accounts, proxy_max_pre_auth, account_expired, too_many, count_of, LoginInput, reloaded, admit,
  login, client_at, remove_at, set_at, accept, refuse, log_in, close_client, Move, accepts, refuses,
  logs_in, closes, move, run_moves,
}

abbrev pub is_new : Option Line → Bool
is_new none = true
is_new (some u) = false

abbrev pub is_user : Line → Option Line → Bool
is_user user none = false
is_user user (some u) = u =? user

abbrev one_if : Bool → ℕ
one_if b = if b then 1 else 0

pub record IsCounted (a : Accounts) : Type 0 where
  pub new : a.pre_auth_conns ≡ tally is_new a.clients + a.refusing
  pub few : tally is_new a.clients ≤ proxy_max_pre_auth
  pub by_user : (user : Line) → count_of user a.count_conns ≡ tally (is_user user) a.clients

module _ (p : Option Line → Bool) where
  pub tally-set_at :
      (c : ℕ) (x d : Option Line) (cs : List (Option Line))
      → client_at c cs ≡ some x
      → tally p (set_at c d cs) + one_if (p x) ≡ tally p cs + one_if (p d)
  tally-set_at c x d [] h = absurd (cc h)
  tally-set_at zero x d (y ∷ cs) h = ground (arith, h)
  tally-set_at (suc c) x d (y ∷ cs) h = ground (arith, tally-set_at c x d cs h)

  pub tally-remove_at :
      (c : ℕ) (x : Option Line) (cs : List (Option Line))
      → client_at c cs ≡ some x
      → tally p (remove_at c cs) + one_if (p x) ≡ tally p cs
  tally-remove_at c x [] h = absurd (cc h)
  tally-remove_at zero x (y ∷ cs) h = ground (arith, h)
  tally-remove_at (suc c) x (y ∷ cs) h = ground (arith, tally-remove_at c x cs h)

pub count_of-put :
    (u user : Line) (n : ℕ) (counts : Map Line ℕ)
    → count_of user (put u n counts) ≡ (if u =? user then n else count_of user counts)
count_of-put u user n counts = ground (arith, get-put u user n counts)

accept-IsCounted : (a : Accounts) → IsCounted a → IsCounted (accept a)
unfolding accept
accept-IsCounted a v = elim (Bool-cases (ltb proxy_max_pre_auth (a.pre_auth_conns + 1))) [
  | inl t ↦ rw t (record { new = omega (arith, v.new); few = v.few; by_user = v.by_user })
  | inr t ↦
      let more = tally-append is_new a.clients (none ∷ []) in
      rw t (record {
        new = omega (arith, more, v.new);
        few = ground (arith, more, v.new, t);
        by_user = λ user.
            v.by_user user ∙ sym (tally-append (is_user user) a.clients (none ∷ []) ∙ omega arith);
      })
]

refuse-IsCounted : (a : Accounts) → IsCounted a → IsCounted (refuse a)
unfolding refuse
refuse-IsCounted a v = elim (Bool-cases (a.refusing == 0)) [
  | inl t ↦ rw t v
  | inr t ↦ rw t (record { new = ground (arith, v.new, t); few = v.few; by_user = v.by_user })
]

close_client-IsCounted :
    (c : ℕ) (x : Option Line) (a : Accounts)
    → client_at c a.clients ≡ some x
    → IsCounted a
    → IsCounted (close_client c x a)
unfolding close_client
close_client-IsCounted c none a h v =
    let new = tally-remove_at is_new c none a.clients h in
    record {
      new = omega (arith, new, v.new);
      few = omega (arith, new, v.few);
      by_user =
          λ user. omega (arith, tally-remove_at (is_user user) c none a.clients h, v.by_user user);
    }
close_client-IsCounted c (some u) a h v =
    let new = tally-remove_at is_new c (some u) a.clients h in
    let own = tally-remove_at (is_user u) c (some u) a.clients h in
    let self = (same_list_iff u u).1 refl in
    let held : ltb 0 (count_of u a.count_conns) ≡ true = ground (arith, own, v.by_user u, self) in
    record {
      new = omega (arith, new, v.new);
      few = omega (arith, new, v.few);
      by_user = λ user. rw held (
          count_of-put u user (count_of u a.count_conns - 1) a.count_conns
          ∙ ground (
            arith,
            tally-remove_at (is_user user) c (some u) a.clients h,
            v.by_user user,
            same_list_iff u user,
          ));
    }

admit-counts :
    (now : ℕ) (found : Option UserData) (user : Line) (counts : Map Line ℕ)
    → ((admit now found user counts).2 ≡ none)
      ⊎ ((u : UserData) × ((admit now found user counts).2 ≡ some u)
          × ((admit now found user counts).0 ≡ put user (count_of user counts + 1) counts))
unfolding admit
admit-counts now none user counts = inl refl
admit-counts now (some u) user counts = elim (Bool-cases (account_expired u.expire_at now)) [
  | inl t ↦ inl (rw t refl)
  | inr t ↦ elim (Bool-cases (too_many u.max_conns (count_of user counts))) [
    | inl s ↦ inl (rw (t, s) refl)
    | inr s ↦ inr (u, rw (t, s) refl, rw (t, s) refl)
  ]
]

login-counts :
    (i : LoginInput) (user password : Line) (users : Map Line UserData) (counts : Map Line ℕ)
    → ((login i user password users counts).1.2 ≡ none)
      ⊎ ((u : UserData) × ((login i user password users counts).1.2 ≡ some u)
          × ((login i user password users counts).1.0 ≡ put user (count_of user counts + 1) counts))
unfolding login
login-counts i user password users counts =
    elim (Option-cases (verify_user i.compare i.dummy i.now users user password)) [
      | inl e ↦ inl (rw (e, login) refl)
      | inr (u, e) ↦
          rw (e, login) (admit-counts i.now (get user (reloaded i.reload users)) user counts)
    ]

log_in-IsCounted :
    (i : LoginInput) (c : ℕ) (user password : Line) (a : Accounts)
    → client_at c a.clients ≡ some none
    → IsCounted a
    → IsCounted (log_in i c user password a)
unfolding log_in
log_in-IsCounted i c user password a h v =
    elim (login-counts i user password a.users a.count_conns) [
      | inl e ↦ rw (e, log_in) (record { new = v.new; few = v.few; by_user = v.by_user })
      | inr (u, e, f) ↦
          let new = tally-set_at is_new c none (some user) a.clients h in
          rw (e, f, log_in)
            (record {
              new = omega (arith, new, v.new);
              few = omega (arith, new, v.few);
              by_user = λ who.
                  count_of-put user who (count_of user a.count_conns + 1) a.count_conns
                  ∙ ground (
                    arith,
                    tally-set_at (is_user who) c none (some user) a.clients h,
                    v.by_user who,
                    v.by_user user,
                    same_list_iff user who,
                  );
            })
    ]

move-IsCounted : (m : Move) (a : Accounts) → IsCounted a → IsCounted (move a m)
unfolding move
move-IsCounted accepts a v = accept-IsCounted a v
move-IsCounted refuses a v = refuse-IsCounted a v
move-IsCounted (logs_in i c user password) a v = elim (Option-cases (client_at c a.clients)) [
  | inl e ↦ rw (e, move) v
  | inr (none, e) ↦ rw (e, move) (log_in-IsCounted i c user password a e v)
  | inr (some u, e) ↦ rw (e, move) v
]
move-IsCounted (closes c) a v = elim (Option-cases (client_at c a.clients)) [
  | inl e ↦ rw (e, move) v
  | inr (x, e) ↦ rw (e, move) (close_client-IsCounted c x a e v)
]

-- Whatever clients connect, log in, fail to or leave, in whatever order and with whatever files of users: if it was so
-- before, as with no clients, then CountConns has for each user the number of clients that are logged in as the user,
-- proxyPreAuthConns is the number of those that are not logged in and of the connections that are being refused, and
-- no more than proxyMaxPreAuth clients are served without being logged in.
pub run_moves-IsCounted : (ms : List Move) (a : Accounts) → IsCounted a → IsCounted (run_moves a ms)
unfolding run_moves
run_moves-IsCounted [] a v = v
run_moves-IsCounted (m ∷ ms) a v = run_moves-IsCounted ms (move a m) (move-IsCounted m a v)
