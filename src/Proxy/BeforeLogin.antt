-- ===== src/Proxy/BeforeLogin.antt =====
-- Server.go: what a client can do that is not logged in.
use nzbre_x.Prelude.{
  ℕ, Bool, true, false, List, [], ◌∷◌, map, ◌≡◌, refl, inl, inr, some, if◌then◌else◌, ◌=?◌, nat_eq,
  list_eq, Option-cases,
}
use nzbre_x.Prelude.Map.{Map}
use nzbre_x.Nntp.{Line, codes}
use nzbre_x.Passwd.{UserData, verify_user}
use nzbre_x.Proxy.{replied}
use nzbre_x.Proxy.Commands.{no_line}
use nzbre_x.Proxy.Logins.{LoginInput, login}
use nzbre_x.Proxy.Server.{
  Client, Shared, Weather, Served, reply_only, mode_code, log_in_client, auth_user, auth_pass,
  auth_info, before_login, handle_words, handle_command,
}
use nzbre_x.Proxy.ClientLines.{line_of, fields, to_upper}

-- A property of turns, at both branches of a test.
pub if_turn : (P : Served → Type 0) (b : Bool) (x y : Served) → P x → P y → P (if b then x else y)
if_turn P true x y p q = p
if_turn P false x y p q = q

-- The words are a command, AUTHINFO's subcommand and a password that verifyUser takes for the user that was named before.
abbrev pub Proven : Weather → List Line → Client → Shared → Type 0
Proven x words c w =
    let i = x.login_input in
    (command : Line) × (sub : Line) × (password : Line) × (u : UserData) × (words
      ≡ command ∷ sub ∷ password ∷ [])
    × (verify_user i.compare i.dummy i.now w.users c.current_user password ≡ some u)

-- A client that is not logged in gets a reply and nothing else: no upstream is used and the cache stays; and it is logged in
-- afterwards only by the last of three words, which verifyUser takes as the password of the user that it named.
pub record LoggedOut (x : Weather) (words : List Line) (c : Client) (w : Shared) (t : Served)
    : Type 0 where
  pub reply : (code : ℕ) × (t.events ≡ replied code ∷ [])
  same_cache : t.shared.cache ≡ w.cache
  checked : t.client.authed ≡ true → Proven x words c w

reply_only-LoggedOut :
    {words : List Line} (x : Weather) (goes_on : Bool) (c c' : Client) (w : Shared) (code : ℕ)
    → c'.authed ≡ false
    → LoggedOut x words c w (reply_only goes_on c' w code)
reply_only-LoggedOut x goes_on c c' w code h = record {
  reply = (code, refl);
  same_cache = refl;
  checked = λ authed. absurd (cc (h, authed));
}

login_checked :
    (i : LoginInput) (user password : Line) (users : Map Line UserData) (counts : Map Line ℕ)
    (v : UserData)
    → (login i user password users counts).1.2 ≡ some v
    → (u : UserData) × (verify_user i.compare i.dummy i.now users user password ≡ some u)
unfolding login
login_checked i user password users counts v h =
    elim (Option-cases (verify_user i.compare i.dummy i.now users user password)) [
      | inl e ↦ absurd (cc (rw (e, login) at h))
      | inr (u, e) ↦ (u, e)
    ]

log_in_client-LoggedOut :
    (x : Weather) (command sub password : Line) (c : Client) (w : Shared)
    → c.authed ≡ false
    → LoggedOut x (command ∷ sub ∷ password ∷ []) c w (log_in_client x password c w)
unfolding log_in_client
log_in_client-LoggedOut x command sub password c w h =
    let r = login x.login_input c.current_user password w.users w.count_conns in
    elim (Option-cases r.1.2) [
      | inl e ↦
          rw (e, log_in_client)
            (record {
              reply = (r.1.1, refl);
              same_cache = refl;
              checked = λ authed. absurd (cc (h, authed));
            })
      | inr (v, e) ↦
          rw (e, log_in_client)
            (record {
              reply = (r.1.1, refl);
              same_cache = refl;
              checked = λ _.
                  let (u, known') =
                    login_checked x.login_input c.current_user password w.users w.count_conns v e in
                  (command, sub, password, u, refl, known');
            })
    ]

auth_user-LoggedOut :
    {words : List Line} (x : Weather) (args : List Line) (c : Client) (w : Shared)
    → c.authed ≡ false
    → LoggedOut x words c w (auth_user args c w)
unfolding auth_user
auth_user-LoggedOut x [] c w h = reply_only-LoggedOut x true c c w 501 h
auth_user-LoggedOut x (name ∷ []) c w h =
    reply_only-LoggedOut x true c (record c { current_user = name }) w 381 h
auth_user-LoggedOut x (name ∷ a ∷ args) c w h = reply_only-LoggedOut x true c c w 501 h

auth_pass-LoggedOut :
    (x : Weather) (command sub : Line) (args : List Line) (c : Client) (w : Shared)
    → c.authed ≡ false
    → LoggedOut x (command ∷ sub ∷ args) c w (auth_pass x args c w)
unfolding auth_pass
auth_pass-LoggedOut x command sub [] c w h = reply_only-LoggedOut x true c c w _ h
auth_pass-LoggedOut x command sub (password ∷ []) c w h =
    if_turn (LoggedOut x (command ∷ sub ∷ password ∷ []) c w) (no_line c.current_user)
      (reply_only true c w 482) (log_in_client x password c w)
      (reply_only-LoggedOut x true c c w 482 h)
      (log_in_client-LoggedOut x command sub password c w h)
auth_pass-LoggedOut x command sub (password ∷ a ∷ args) c w h =
    reply_only-LoggedOut x true c c w _ h

auth_info-LoggedOut :
    (x : Weather) (command : Line) (args : List Line) (c : Client) (w : Shared)
    → c.authed ≡ false
    → LoggedOut x (command ∷ args) c w (auth_info x args c w)
unfolding auth_info
auth_info-LoggedOut x command [] c w h = reply_only-LoggedOut x true c c w 501 h
auth_info-LoggedOut x command (sub ∷ args) c w h =
    let other = reply_only true c w 501 in
    let is_pass = map to_upper sub =? codes "PASS" in
    let pass = auth_pass x args c w in
    let may : Served → Type 0 = LoggedOut x (command ∷ sub ∷ args) c w in
    if_turn may (map to_upper sub =? codes "USER") (auth_user args c w)
      (if is_pass then pass else other) (auth_user-LoggedOut x args c w h)
      (if_turn may is_pass pass other (auth_pass-LoggedOut x command sub args c w h)
        (reply_only-LoggedOut x true c c w 501 h))

pub before_login-LoggedOut :
    (x : Weather) (command name : Line) (args : List Line) (c : Client) (w : Shared)
    → c.authed ≡ false
    → LoggedOut x (command ∷ args) c w (before_login x name args c w)
unfolding before_login
before_login-LoggedOut x command name args c w h =
    let say = λ (goes_on : Bool) (code : ℕ).
      reply_only-LoggedOut {words = command ∷ args} x goes_on c c w code h in
    let may : Served → Type 0 = LoggedOut x (command ∷ args) c w in
    let refused = reply_only true c w 480 in
    let quits = if name =? codes "QUIT" then reply_only false c w 205 else refused in
    let modes = if name =? codes "MODE" then reply_only true c w (mode_code args) else quits in
    let auths = if name =? codes "AUTHINFO" then auth_info x args c w else modes in
    if_turn may (name =? codes "CAPABILITIES") (reply_only true c w 101) auths (say true 101) (
      if_turn may (name =? codes "AUTHINFO") (auth_info x args c w) modes
        (auth_info-LoggedOut x command args c w h)
        (if_turn may (name =? codes "MODE") (reply_only true c w (mode_code args)) quits
          (say true (mode_code args))
          (if_turn may (name =? codes "QUIT") (reply_only false c w 205) refused (say false 205)
            (say true 480))))

handle_words-LoggedOut :
    (x : Weather) (words : List Line) (c : Client) (w : Shared)
    → c.authed ≡ false
    → LoggedOut x words c w (handle_words x words c w)
unfolding handle_words
handle_words-LoggedOut x [] c w h = reply_only-LoggedOut x true c c w 500 h
handle_words-LoggedOut x (word ∷ args) c w h =
    simp h (before_login-LoggedOut x word (map to_upper word) args c w h)

-- What a line of a client that is not logged in comes to: one reply and nothing else, so that no upstream connection is
-- used and the negative cache stays; and the client is logged in afterwards only if the line is three words, the
-- last of which verifyUser takes as the password of the user that was named before.
pub logged_out_line :
    (x : Weather) (line : Line) (c : Client) (w : Shared)
    → c.authed ≡ false
    → let t = handle_command x (line_of line) c w in
      ((code : ℕ) × (t.events ≡ replied code ∷ []))
      × (t.shared.cache ≡ w.cache)
      × (t.client.authed ≡ true → Proven x (fields line) c w)
unfolding handle_command
logged_out_line x line c w h =
    let out = handle_words-LoggedOut x (fields line) c w h in
    (out.reply, out.same_cache, out.checked)
