-- ===== src/WebAuth.antt =====
-- webauth.go: failed logins by client address, and the middleware that asks for a login. A time is the
-- number of ticks since Go's zero time, which is 0; ranging over a map is going over its list.
pub mod Passes
pub mod Table
pub mod Pruning
pub mod Blocking
use nzbre_x.Prelude.{
  ℕ, ◌+◌, ◌-◌, ◌/◌, Bool, true, false, List, [], ◌∷◌, Option, none, some, if◌then◌else◌, ◌&&◌, ◌||◌,
  not, ltb, leb, length, keep, String, string_eq, ◌*◌,
}
use nzbre_x.Prelude.Map.{Map, get, put, delete}

-- webLoginMaxFails, webLoginWindow, webLoginBlock and webLoginTrackMax.
pub record Limits : Type 0 where
  pub max_fails : ℕ
  pub window : ℕ
  pub block : ℕ
  pub track_max : ℕ

abbrev pub web_limits : ℕ → Limits
web_limits minute = record {
  max_fails = 10;
  window = 10 * minute;
  block = 10 * minute;
  track_max = 10000;
}

pub record LoginFails : Type 0 where
  pub count : ℕ
  pub first : ℕ
  pub blocked_until : ℕ

abbrev pub Fails : Type 0
Fails = Map String LoginFails

-- blockedFor; 0 is: not blocked.
unfoldable pub blocked_for : String → ℕ → Fails → ℕ
blocked_for ip now fails = elim (get ip fails) [
  | none ↦ 0
  | some f ↦ if ltb now f.blocked_until then f.blocked_until - now else 0
]

-- now.After(f.blockedUntil), and now.Sub(f.first) > webLoginWindow.
abbrev pub unblocked : ℕ → String × LoginFails → Bool
unblocked now (ip, f) = ltb f.blocked_until now

abbrev pub window_over : Limits → ℕ → LoginFails → Bool
window_over l now f = ltb (f.first + l.window) now

-- One pass of the loop over {true, false}; `n` is len(a.fails) at the turn. The flag says whether the
-- function returned within the pass.
unfoldable pub prune_pass : Bool → ℕ → ℕ → ℕ → Fails → Bool × Fails
prune_pass keep_blocked half now n [] = (false, [])
prune_pass keep_blocked half now n (e ∷ fails) =
    let dropped = prune_pass keep_blocked half now (n - 1) fails in
    let kept = prune_pass keep_blocked half now n fails in
    if ltb n half
    then (true, e ∷ fails)
    else if not keep_blocked || unblocked now e
    then dropped
    else (kept.0, e ∷ kept.1)

unfoldable pub prune_old : Limits → ℕ → Fails → Fails
prune_old l now fails = keep (λ (ip, f). not (unblocked now (ip, f) && window_over l now f)) fails

unfoldable pub prune_rest : ℕ → ℕ → Fails → Fails
unfolding prune_pass
prune_rest half now fails =
    let (done, once) = prune_pass true half now (length fails) fails in
    if done then once else (prune_pass false half now (length once) once).1

unfoldable pub prune_fails : Limits → ℕ → Fails → Fails
unfolding prune_old prune_rest
prune_fails l now fails = prune_rest (l.track_max / 2) now (prune_old l now fails)

-- loginFailed behind the lookup: the record that is counted in, and the table it goes to.
unfoldable pub count_fail : Limits → String → ℕ → LoginFails → Fails → Bool × Fails
count_fail l ip now f fails =
    if leb l.max_fails (f.count + 1)
    then (true, put ip (record { count = 0; first = now; blocked_until = now + l.block }) fails)
    else (false, put ip (record f { count = f.count + 1 }) fails)

abbrev pub new_fails : ℕ → LoginFails
new_fails now = record { count = 0; first = now; blocked_until = 0 }

unfoldable pub login_failed : Limits → String → ℕ → Fails → Bool × Fails
unfolding count_fail prune_fails
login_failed l ip now fails = elim (get ip fails) [
  | none ↦
      count_fail l ip now (new_fails now)
        (if leb l.track_max (length fails) then prune_fails l now fails else fails)
  | some f ↦ count_fail l ip now (if window_over l now f then new_fails now else f) fails
]

unfoldable pub login_ok : String → Fails → Fails
login_ok ip fails = delete ip fails

-- What a request gets, and the table after it. `auth` is that there are credentials, `cached` that
-- they passed a check before, `check` what a check of them says; only in the second, third and fourth
-- case is anything checked or counted.
pub data Response : Type 0 where
  served too_many_requests unauthorized : Response

unfoldable pub middleware :
    Limits → String → ℕ → (auth cached check : Bool) → Fails → Response × Fails
unfolding blocked_for login_failed login_ok
middleware l ip now auth cached check fails =
    if auth && cached
    then (served, fails)
    else if ltb 0 (blocked_for ip now fails)
    then (too_many_requests, fails)
    else if not auth || not check
    then (unauthorized, if auth then (login_failed l ip now fails).1 else fails)
    else (served, login_ok ip fails)
