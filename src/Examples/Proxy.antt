-- ===== src/Examples/Proxy.antt =====
-- The proxy at concrete inputs.
use nzbre_x.Prelude.{
  ℕ, ◌≤◌, ◌≡◌, refl, true, false, List, [], ◌∷◌, ◌++◌, Option, none, some, arith, tally, ◌=?◌,
  nat_eq, list_eq, same_list,
}
use nzbre_x.Prelude.Map.{Map, get, put}
use nzbre_x.Nntp.{Line, codes, lf}
use nzbre_x.Rapid.Fields.{pos}
use nzbre_x.NegCache.{no_entries}
use nzbre_x.Passwd.{UserData, verify_user}
use nzbre_x.Proxy.{taken, lost, parked, closed, replied, StatusLine, all_read, Upstream, Session}
use nzbre_x.Proxy.Articles.{stat}
use nzbre_x.Proxy.Logins.{Accounts, LoginInput, Move, accepts, logs_in, closes, run_moves}
use nzbre_x.Proxy.Server.{Client, Shared, Weather, handle_command, serve_turn, serve}
use nzbre_x.Proxy.ClientLines.{line_of, fields}
use nzbre_x.Proxy.BeforeLogin.{Proven, logged_out_line}
use nzbre_x.Proxy.Logins.Counts.{is_user, IsCounted, run_moves-IsCounted}
use nzbre_x.Proxy.Logins.Bounds.{user_connections_bounded}

abbrev hello : UserData
hello = record {
  username = codes "HelloWorld";
  password = codes "hash";
  max_conns = pos 1;
  expire_at = pos 900;
  posting = true;
}

abbrev users : Map Line UserData
users = (codes "HelloWorld", hello) ∷ []

abbrev login_input : LoginInput
login_input = record {
  compare = λ hash password. password =? codes "secret";
  dummy = codes "none";
  now = 500;
  reload = none;
}

abbrev line_with : ℕ → Option StatusLine
line_with code = some (record { code = code; continued = false; fields = [] })

-- Loses the connection after it took the group, and a second provider that answers.
abbrev upstreams : List Upstream
upstreams =
    record {
      id = 0;
      group = codes "A";
      no_download = false;
      newsreader = true;
      connects = true;
      answers = line_with 211 ∷ none ∷ [];
      block = all_read;
      lines = [];
    }
    ∷ record {
      id = 1;
      group = codes "B";
      no_download = false;
      newsreader = true;
      connects = true;
      answers = line_with 211 ∷ line_with 224 ∷ [];
      block = all_read;
      lines = [];
    }
    ∷ []

abbrev weather : Weather
weather = record {
  timed_out = false;
  upstreams = upstreams;
  request = record {
    wanted = stat;
    by_number = false;
    key = [];
    neg_cache_max = 10;
    neg_cache_ttl = 60;
    now = 500;
    broken = λ lines. false;
    options = record {
      max_art_size = 1000;
      clean_headers = false;
      proxy = true;
      clean_header = [];
      yenc_crc = false;
      date = [];
    };
    client_ok = true;
  };
  login_input = login_input;
  now = 500;
}

abbrev session : Session
session = record { group = codes "alt.test"; msg_num = pos 7; selected_provider = none }

abbrev shared : Shared
shared = record { users = users; count_conns = []; cache = no_entries }

abbrev reader : Client
reader = record {
  authed = true;
  username = codes "HelloWorld";
  expire_at = pos 900;
  current_user = codes "HelloWorld";
  session = session;
}

abbrev named : Client
named = record reader { authed = false; username = [] }

abbrev wire : List ℕ
wire = codes "xover 7-9" ++ lf ∷ []

logged_out_line_example :
    let t = handle_command weather (line_of (codes "AUTHINFO PASS secret")) named shared in
    ((code : ℕ) × (t.events ≡ replied code ∷ []))
    × (t.shared.cache ≡ shared.cache)
    × (t.client.authed ≡ true → Proven weather (fields (codes "AUTHINFO PASS secret")) named shared)
logged_out_line_example = logged_out_line weather (codes "AUTHINFO PASS secret") named shared refl

abbrev nobody : Accounts
nobody = record { users = users; count_conns = []; pre_auth_conns = 0; clients = []; refusing = 0 }

abbrev moves : List Move
moves =
    accepts
    ∷ accepts
    ∷ logs_in login_input 0 (codes "HelloWorld") (codes "secret")
    ∷ logs_in login_input 1 (codes "HelloWorld") (codes "secret")
    ∷ closes 1
    ∷ []

nobody-IsCounted : IsCounted nobody
unfolding get
nobody-IsCounted = record { new = refl; few = omega arith; by_user = λ user. refl }

run_moves-IsCounted_example : IsCounted (run_moves nobody moves)
run_moves-IsCounted_example = run_moves-IsCounted moves nobody nobody-IsCounted

user_connections_bounded_example :
    tally (is_user (codes "HelloWorld")) (run_moves nobody moves).clients ≤ 1
unfolding get same_list
user_connections_bounded_example =
    user_connections_bounded 1 (codes "HelloWorld") moves nobody (tt, (tt, (tt, (tt, (tt, tt)))))
      (omega arith, omega arith) nobody-IsCounted (omega arith)

-- The command at hand: the first provider is lost behind the group, the second one answers.
turn_test :
    (serve_turn weather reader shared wire).0.events
    ≡ taken 0 ∷ lost 0 ∷ closed 0 ∷ taken 1 ∷ parked 1 ∷ replied 224 ∷ []
unfolding serve_turn same_list
turn_test = refl

-- A login that goes on to the end of the connection.
serve_test :
    serve
      (weather ∷ weather ∷ weather ∷ [])
      (record named { current_user = [] })
      shared
      (codes "authinfo user HelloWorld"
        ++ lf ∷ codes "AUTHINFO PASS secret"
        ++ lf ∷ codes "quit"
        ++ lf ∷ [])
    ≡ (replied 381 ∷ []) ∷ (replied 281 ∷ []) ∷ (replied 205 ∷ []) ∷ []
unfolding serve same_list get put verify_user
serve_test = refl
