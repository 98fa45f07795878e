-- ===== src/Proxy/Logins.antt =====
-- Server.go: the accept loop's limit, login, and what a closed connection gives back. A client is its place among those
-- that are connected: the user that it logged in as, or none yet. Each step under proxyMutex, and each change of
-- proxyPreAuthConns, is atomic.
pub mod Counts
pub mod Bounds
use nzbre_x.Prelude.{
  ℕ, zero, suc, ◌+◌, ◌-◌, Bool, true, false, List, [], ◌∷◌, ◌++◌, Option, none, some, if◌then◌else◌,
  ◌&&◌, ◌||◌, not, ◌==◌, ltb, leb, nat_eq, list_eq,
}
use nzbre_x.Prelude.Map.{Map, get, put}
use nzbre_x.Nntp.{Line}
use nzbre_x.Rapid.Fields.{ℤ, pos, negsuc}
use nzbre_x.Passwd.{UserData, load_passwd_file, verify_user}

abbrev pub proxy_max_pre_auth : ℕ
proxy_max_pre_auth = 64

-- passwdMap, CountConns, proxyPreAuthConns, the clients, and the connections that are being refused.
pub record Accounts : Type 0 where
  pub users : Map Line UserData
  pub count_conns : Map Line ℕ
  pub pre_auth_conns : ℕ
  pub clients : List (Option Line)
  pub refusing : ℕ

-- CountConns[user], 0 for a missing key.
abbrev pub count_of : Line → Map Line ℕ → ℕ
count_of user counts = elim (get user counts) [ none ↦ 0 | some n ↦ n ]

-- userData.ExpireAt > 0 && now > userData.ExpireAt.
abbrev pub account_expired : ℤ → ℕ → Bool
account_expired (pos n) now = ltb 0 n && ltb n now
account_expired (negsuc n) now = false

-- userData.MaxConns > 0 && count >= userData.MaxConns.
abbrev pub too_many : ℤ → ℕ → Bool
too_many (pos m) count = ltb 0 m && leb m count
too_many (negsuc m) count = false

-- What a login reads: the password check, the clock, and the file where it is time to load it again, `none` being the
-- error.
pub record LoginInput : Type 0 where
  pub compare : Line → Line → Bool
  pub dummy : Line
  pub now : ℕ
  pub reload : Option (Option (Map Line UserData))

-- loadPasswdFile where it is time for it.
unfoldable pub reloaded :
    Option (Option (Map Line UserData)) → Map Line UserData → Map Line UserData
unfolding load_passwd_file
reloaded none users = users
reloaded (some file) users = (load_passwd_file file users).0

-- The second locked section of login, on the users that are in force now: the counts, and the reply with the
-- record of a user that is logged in.
unfoldable pub admit : ℕ → Option UserData → Line → Map Line ℕ → Map Line ℕ × ℕ × Option UserData
admit now none user counts = (counts, 481, none)
admit now (some u) user counts =
    if account_expired u.expire_at now
    then (counts, 481, none)
    else if too_many u.max_conns (count_of user counts)
    then (counts, 502, none)
    else (put user (count_of user counts + 1) counts, 281, some u)

unfoldable pub login :
    LoginInput
    → Line
    → Line
    → Map Line UserData
    → Map Line ℕ
    → Map Line UserData × (Map Line ℕ × ℕ × Option UserData)
unfolding admit reloaded
login i user password users counts =
    elim (verify_user i.compare i.dummy i.now users user password) [
      | none ↦ (users, (counts, 481, none))
      | some _ ↦
          (reloaded i.reload users, admit i.now (get user (reloaded i.reload users)) user counts)
    ]

abbrev pub client_at : ℕ → List (Option Line) → Option (Option Line)
client_at i [] = none
client_at zero (c ∷ cs) = some c
client_at (suc i) (c ∷ cs) = client_at i cs

abbrev pub remove_at : ℕ → List (Option Line) → List (Option Line)
remove_at i [] = []
remove_at zero (c ∷ cs) = cs
remove_at (suc i) (c ∷ cs) = c ∷ remove_at i cs

abbrev pub set_at : ℕ → Option Line → List (Option Line) → List (Option Line)
set_at i d [] = []
set_at zero d (c ∷ cs) = d ∷ cs
set_at (suc i) d (c ∷ cs) = c ∷ set_at i d cs

-- The accept loop: the connection is served, or refused where it is one too many.
unfoldable pub accept : Accounts → Accounts
accept a =
    let counted = a.pre_auth_conns + 1 in
    if ltb proxy_max_pre_auth counted
    then record a { pre_auth_conns = counted; refusing = a.refusing + 1 }
    else record a { pre_auth_conns = counted; clients = a.clients ++ none ∷ [] }

-- proxyPreAuthConns.Add(-1) of a connection that is refused.
unfoldable pub refuse : Accounts → Accounts
refuse a =
    if a.refusing == 0
    then a
    else record a { pre_auth_conns = a.pre_auth_conns - 1; refusing = a.refusing - 1 }

-- login, and what handleConnection does where it succeeds. A login that fails changes nothing here but the users.
-- A login is one step: CountConns++ under the lock and the decrement of proxyPreAuthConns behind it are not told apart.
unfoldable pub log_in : LoginInput → ℕ → Line → Line → Accounts → Accounts
unfolding login
log_in i c user password a =
    let r = login i user password a.users a.count_conns in
    let kept : Accounts = record a { users = r.0 } in
    elim r.1.2 [
      | none ↦ kept
      | some _ ↦ record kept {
        count_conns = r.1.0;
        pre_auth_conns = a.pre_auth_conns - 1;
        clients = set_at c (some user) a.clients;
      }
    ]

-- The deferred calls of handleConnection.
unfoldable pub close_client : ℕ → Option Line → Accounts → Accounts
close_client c none a = record a {
  pre_auth_conns = a.pre_auth_conns - 1;
  clients = remove_at c a.clients;
}
close_client c (some user) a = record a {
  count_conns =
      if ltb 0 (count_of user a.count_conns)
      then put user (count_of user a.count_conns - 1) a.count_conns
      else a.count_conns;
  clients = remove_at c a.clients;
}

-- What the accept loops and the connections do, one at a time. A client that is not there, or that is logged in
-- already, does not log in.
pub data Move : Type 0 where
  accepts refuses : Move
  logs_in : LoginInput → ℕ → Line → Line → Move
  closes : ℕ → Move

unfoldable pub move : Accounts → Move → Accounts
unfolding accept refuse log_in close_client
move a accepts = accept a
move a refuses = refuse a
move a (logs_in i c user password) = elim (client_at c a.clients) [
  | none ↦ a
  | some (some u) ↦ a
  | some none ↦ log_in i c user password a
]
move a (closes c) = elim (client_at c a.clients) [
  | none ↦ a
  | some client ↦ close_client c client a
]

unfoldable pub run_moves : Accounts → List Move → Accounts
unfolding move
run_moves a [] = a
run_moves a (m ∷ ms) = run_moves (move a m) ms
