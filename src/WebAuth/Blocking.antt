-- ===== src/WebAuth/Blocking.antt =====
-- webauth.go: a series of failed logins from one address.
use nzbre_x.Prelude.{
  ℕ, ◌+◌, ◌-◌, ◌≤◌, ◌<◌, Bool, true, false, List, [], ◌∷◌, none, some, ◌≡◌, refl, ap, ◌∙◌, ltb, leb,
  length, All, String, string_eq, =?_refl, arith, lt→ltb,
}
use nzbre_x.Prelude.Map.{get, put, get-put}
use nzbre_x.WebAuth.{
  Limits, LoginFails, Fails, window_over, count_fail, new_fails, login_failed, middleware,
  blocked_for, too_many_requests,
}

get-put_same : (ip : String) (f : LoginFails) (fails : Fails) → get ip (put ip f fails) ≡ some f
get-put_same ip f fails = get-put ip ip f fails ∙ rw (=?_refl ip) refl

-- The failures at the given times, one after another.
unfoldable pub fail_at : Limits → String → List ℕ → Fails → Fails
fail_at l ip [] fails = fails
fail_at l ip (t ∷ ts) fails = fail_at l ip ts (login_failed l ip t fails).1

abbrev pub last_of : ℕ → List ℕ → ℕ
last_of t [] = t
last_of t (u ∷ ts) = last_of u ts

abbrev blocking : Limits → ℕ → LoginFails
blocking l now = record { count = 0; first = now; blocked_until = now + l.block }

-- The record after a failure that is not yet, or is, the last one.
count_fail-more :
    (l : Limits) (ip : String) (now : ℕ) (f : LoginFails) (fails : Fails)
    → f.count + 1 < l.max_fails
    → get ip (count_fail l ip now f fails).1 ≡ some (record f { count = f.count + 1 })
unfolding count_fail
count_fail-more l ip now f fails h =
    let e : leb l.max_fails (f.count + 1) ≡ false = ground (arith, h) in
    rw (e, count_fail) (get-put_same ip (record f { count = f.count + 1 }) fails)

count_fail-last :
    (l : Limits) (ip : String) (now : ℕ) (f : LoginFails) (fails : Fails)
    → l.max_fails ≤ f.count + 1
    → get ip (count_fail l ip now f fails).1 ≡ some (blocking l now)
unfolding count_fail
count_fail-last l ip now f fails h =
    let e : leb l.max_fails (f.count + 1) ≡ true = ground (arith, h) in
    rw (e, count_fail) (get-put_same ip (blocking l now) fails)

login_failed-within :
    (l : Limits) (ip : String) (now : ℕ) (f : LoginFails) (fails : Fails)
    → get ip fails ≡ some f
    → now ≤ f.first + l.window
    → login_failed l ip now fails ≡ count_fail l ip now f fails
unfolding login_failed
login_failed-within l ip now f fails g h =
    let e : window_over l now f ≡ false = ground (arith, h) in rw (g, e, login_failed) refl

login_failed-new :
    (l : Limits) (ip : String) (now : ℕ) (fails : Fails)
    → get ip fails ≡ none
    → length fails < l.track_max
    → login_failed l ip now fails ≡ count_fail l ip now (new_fails now) fails
unfolding login_failed
login_failed-new l ip now fails g h =
    let e : leb l.track_max (length fails) ≡ false = ground (arith, h) in
    rw (g, e, login_failed) refl

series :
    (l : Limits) (ip : String) (t : ℕ) (ts : List ℕ) (f : LoginFails) (fails : Fails)
    → get ip fails ≡ some f
    → f.count + length (t ∷ ts) ≡ l.max_fails
    → All (λ u. u ≤ f.first + l.window) (t ∷ ts)
    → get ip (fail_at l ip (t ∷ ts) fails) ≡ some (blocking l (last_of t ts))
unfolding fail_at
series l ip t [] f fails g n h =
    ap (λ r. get ip r.1) (login_failed-within l ip t f fails g h.0)
    ∙ count_fail-last l ip t f fails (omega (arith, n))
series l ip t (u ∷ ts) f fails g n h =
    let one = login_failed-within l ip t f fails g h.0 in
    let next = count_fail-more l ip t f fails (omega (arith, n)) in
    series l ip u ts (record f { count = f.count + 1 }) (login_failed l ip t fails).1
      (ap (λ r. get ip r.1) one ∙ next) (omega (arith, n)) h.1

blocked_for-blocking :
    (l : Limits) (ip : String) (last now : ℕ) (fails : Fails)
    → get ip fails ≡ some (blocking l last)
    → now < last + l.block
    → blocked_for ip now fails ≡ last + l.block - now
unfolding blocked_for
blocked_for-blocking l ip last now fails g h =
    let e : ltb now (last + l.block) ≡ true = ground (arith, h) in rw (g, blocked_for, e) refl

middleware-waits :
    (l : Limits) (ip : String) (now : ℕ) (auth check : Bool) (fails : Fails)
    → 0 < blocked_for ip now fails
    → middleware l ip now auth false check fails ≡ (too_many_requests, fails)
unfolding middleware
middleware-waits l ip now true check fails h =
    rw (middleware, lt→ltb 0 (blocked_for ip now fails) h) refl
middleware-waits l ip now false check fails h =
    rw (middleware, lt→ltb 0 (blocked_for ip now fails) h) refl

-- An address without failures, in a table that has room, is blocked after webLoginMaxFails (two at
-- least) failed logins within webLoginWindow of the first one: for webLoginBlock after the last,
-- blockedFor gives the time that is left, and the middleware answers 429 to every login that is not
-- cached, right or wrong, without counting it.
pub max_fails_block :
    (l : Limits) (ip : String) (t u : ℕ) (ts : List ℕ) (now : ℕ) (auth check : Bool) (fails : Fails)
    → get ip fails ≡ none
    → length fails < l.track_max
    → length (t ∷ u ∷ ts) ≡ l.max_fails
    → All (λ v. v ≤ t + l.window) (u ∷ ts)
    → now < last_of u ts + l.block
    → (blocked_for ip now (fail_at l ip (t ∷ u ∷ ts) fails) ≡ last_of u ts + l.block - now)
      × (middleware l ip now auth false check (fail_at l ip (t ∷ u ∷ ts) fails)
          ≡ (too_many_requests, fail_at l ip (t ∷ u ∷ ts) fails))
unfolding fail_at
max_fails_block l ip t u ts now auth check fails g room n h k =
    let begun : get ip (login_failed l ip t fails).1 ≡ some (record (new_fails t) { count = 1 }) =
      ap (λ r. get ip r.1) (login_failed-new l ip t fails g room)
      ∙ count_fail-more l ip t (new_fails t) fails (omega (arith, n)) in
    let blocked =
      series l ip u ts (record (new_fails t) { count = 1 }) (login_failed l ip t fails).1 begun
        (omega (arith, n)) h in
    let wait =
      blocked_for-blocking l ip (last_of u ts) now (fail_at l ip (t ∷ u ∷ ts) fails) blocked k in
    (wait, middleware-waits l ip now auth check _ (omega (arith, wait, k)))
