-- ===== src/Proxy/Server.antt =====
-- Server.go: handleConnection's loop and handleRequest. What a reply says besides its code, the statistics
-- and the random delays are left out.
use nzbre_x.Prelude.{
  ℕ, Bool, true, false, List, [], ◌∷◌, map, none, some, if◌then◌else◌, ◌&&◌, ◌||◌, not, ◌=?◌,
  nat_eq, list_eq,
}
use nzbre_x.Prelude.Map.{Map}
use nzbre_x.Nntp.{Line, codes}
use nzbre_x.Nntp.Reader.{article, head, body}
use nzbre_x.Rapid.Fields.{ℤ}
use nzbre_x.NegCache.{NegCache}
use nzbre_x.Passwd.{UserData, lt_int}
use nzbre_x.Proxy.{Event, replied, Upstream, Session}
use nzbre_x.Proxy.Commands.{
  no_line, handle_group, handle_list, handle_xover, handle_xhdr, handle_next_or_last,
}
use nzbre_x.Proxy.Articles.{Wanted, stat, fetch, Request, handle_article}
use nzbre_x.Proxy.Logins.{LoginInput, login}
use nzbre_x.Proxy.ClientLines.{
  ClientCommand, line_of, read_command_line, fields_from, fields, to_upper, line_too_long,
  read_error,
}

-- What a connection has: the ProxySession with currentUser, and what all connections share.
pub record Client : Type 0 where
  pub authed : Bool
  pub username : Line
  pub expire_at : ℤ
  pub current_user : Line
  pub session : Session

pub record Shared : Type 0 where
  pub users : Map Line UserData
  pub count_conns : Map Line ℕ
  pub cache : NegCache

-- What a turn meets: whether the read deadline passes first, the upstream servers, the settings and the clock, and
-- the password check. The request's `client_ok` is that the client takes the reply.
pub record Weather : Type 0 where
  pub timed_out : Bool
  pub upstreams : List Upstream
  pub request : Request
  pub login_input : LoginInput
  pub now : ℕ

-- What a turn comes to; `goes_on` is that the connection stays open.
pub record Served : Type 0 where
  pub goes_on : Bool
  pub client : Client
  pub shared : Shared
  pub events : List Event

abbrev pub reply_only : Bool → Client → Shared → ℕ → Served
reply_only goes_on c w code = record {
  goes_on = goes_on;
  client = c;
  shared = w;
  events = replied code ∷ [];
}

abbrev pub in_session : Client → Shared → Session × List Event → Served
in_session c w (s, events) = record {
  goes_on = true;
  client = record c { session = s };
  shared = w;
  events = events;
}

unfoldable pub relayed : Weather → Wanted → List Line → Client → Shared → Served
unfolding handle_article
relayed x wanted args c w =
    let r =
      handle_article (record x.request { wanted = wanted }) x.upstreams args c.session w.cache in
    record {
      goes_on = true;
      client = record c { session = r.0.0 };
      shared = record w { cache = r.0.1 };
      events = r.1;
    }

unfoldable pub mode_code : List Line → ℕ
unfolding to_upper
mode_code (arg ∷ []) = if map to_upper arg =? codes "READER" then 201 else 501
mode_code args = 501

-- The commands of handleRequest, by name.
pub data Known : Type 0 where
  k_article : Wanted → Known
  k_capabilities k_date k_list k_group k_move k_mode k_quit k_unknown : Known
  k_xover k_xhdr : Bool → Known

unfoldable pub known : Line → Known
known name =
    if name =? codes "STAT"
    then k_article stat
    else if name =? codes "ARTICLE"
    then k_article (fetch article)
    else if name =? codes "BODY"
    then k_article (fetch body)
    else if name =? codes "HEAD"
    then k_article (fetch head)
    else if name =? codes "CAPABILITIES"
    then k_capabilities
    else if name =? codes "DATE"
    then k_date
    else if name =? codes "LIST"
    then k_list
    else if name =? codes "XOVER"
    then k_xover true
    else if name =? codes "OVER"
    then k_xover false
    else if name =? codes "XHDR"
    then k_xhdr true
    else if name =? codes "HDR"
    then k_xhdr false
    else if name =? codes "GROUP"
    then k_group
    else if (name =? codes "NEXT") || (name =? codes "LAST")
    then k_move
    else if name =? codes "MODE"
    then k_mode
    else if name =? codes "QUIT"
    then k_quit
    else k_unknown

unfoldable pub perform : Known → Weather → List Line → Client → Shared → Served
unfolding relayed mode_code handle_group handle_list handle_xover handle_xhdr handle_next_or_last
perform (k_article wanted) x args c w = relayed x wanted args c w
perform k_capabilities x args c w = reply_only true c w 101
perform k_date x args c w = reply_only true c w 111
perform k_list x args c w = in_session c w (handle_list x.upstreams c.session)
perform (k_xover is_xover) x args c w = in_session c w (handle_xover x.upstreams args c.session)
perform (k_xhdr is_xhdr) x args c w =
    in_session c w (handle_xhdr is_xhdr x.upstreams args c.session)
perform k_group x args c w = in_session c w (handle_group x.upstreams args c.session)
perform k_move x args c w = in_session c w (handle_next_or_last x.upstreams c.session)
perform k_mode x args c w = reply_only true c w (mode_code args)
perform k_quit x args c w = reply_only false c w 205
perform k_unknown x args c w = reply_only true c w 500

unfoldable pub handle_request : Weather → Line → List Line → Client → Shared → Served
unfolding known perform
handle_request x name args c w =
    if not c.authed || no_line c.username || lt_int c.expire_at x.now
    then reply_only false c w 480
    else perform (known name) x args c w

-- ps.login: the users and counts are shared, and a failed login ends the connection.
unfoldable pub log_in_client : Weather → Line → Client → Shared → Served
unfolding login
log_in_client x password c w =
    let r = login x.login_input c.current_user password w.users w.count_conns in
    let w' = record w { users = r.0; count_conns = r.1.0 } in
    elim r.1.2 [
      | none ↦ reply_only false c w' r.1.1
      | some u ↦
          reply_only true
            (record c { authed = true; username = c.current_user; expire_at = u.expire_at }) w'
            r.1.1
    ]

unfoldable pub auth_user : List Line → Client → Shared → Served
auth_user (name ∷ []) c w = reply_only true (record c { current_user = name }) w 381
auth_user args c w = reply_only true c w 501

unfoldable pub auth_pass : Weather → List Line → Client → Shared → Served
unfolding log_in_client
auth_pass x (password ∷ []) c w =
    if no_line c.current_user then reply_only true c w 482 else log_in_client x password c w
auth_pass x args c w = reply_only true c w (if no_line c.current_user then 482 else 501)

unfoldable pub auth_info : Weather → List Line → Client → Shared → Served
unfolding auth_user auth_pass to_upper
auth_info x [] c w = reply_only true c w 501
auth_info x (sub ∷ args) c w =
    if map to_upper sub =? codes "USER"
    then auth_user args c w
    else if map to_upper sub =? codes "PASS"
    then auth_pass x args c w
    else reply_only true c w 501

-- A command of a client that is not logged in.
unfoldable pub before_login : Weather → Line → List Line → Client → Shared → Served
unfolding auth_info mode_code
before_login x name args c w =
    if name =? codes "CAPABILITIES"
    then reply_only true c w 101
    else if name =? codes "AUTHINFO"
    then auth_info x args c w
    else if name =? codes "MODE"
    then reply_only true c w (mode_code args)
    else if name =? codes "QUIT"
    then reply_only false c w 205
    else reply_only true c w 480

unfoldable pub handle_words : Weather → List Line → Client → Shared → Served
unfolding handle_request before_login to_upper
handle_words x [] c w = reply_only true c w 500
handle_words x (word ∷ args) c w =
    if c.authed
    then handle_request x (map to_upper word) args c w
    else before_login x (map to_upper word) args c w

-- One turn of the loop on what was read; a reply that cannot be written ends the connection.
unfoldable pub handle_command : Weather → ClientCommand → Client → Shared → Served
unfolding handle_words fields_from
handle_command x (line_of line) c w = handle_words x (fields line) c w
handle_command x line_too_long c w = reply_only true c w 501
handle_command x read_error c w =
    if x.timed_out
    then reply_only false c w 400
    else record { goes_on = false; client = c; shared = w; events = [] }

-- Where the deadline passes first, nothing is read.
unfoldable pub read_turn : Weather → List ℕ → ClientCommand × List ℕ
unfolding read_command_line
read_turn x wire = if x.timed_out then (read_error, wire) else read_command_line wire

unfoldable pub serve_turn : Weather → Client → Shared → List ℕ → Served × List ℕ
unfolding read_turn handle_command
serve_turn x c w wire =
    let r = read_turn x wire in
    let t = handle_command x r.0 c w in
    (record t { goes_on = t.goes_on && x.request.client_ok }, r.1)

-- The loop: what happens in each turn, for as many turns as there is weather for.
unfoldable pub serve : List Weather → Client → Shared → List ℕ → List (List Event)
unfolding serve_turn
serve [] c w wire = []
serve (x ∷ xs) c w wire =
    let (t, rest) = serve_turn x c w wire in
    let later = serve xs t.client t.shared rest in
    if t.goes_on then t.events ∷ later else t.events ∷ []
