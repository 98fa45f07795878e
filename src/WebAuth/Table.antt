-- ===== src/WebAuth/Table.antt =====
-- webauth.go: the table of failed logins over any sequence of requests.
use nzbre_x.Prelude.{
  ℕ, ◌+◌, ◌≤◌, ◌<◌, Bool, true, false, List, [], ◌∷◌, some, ◌≡◌, ltb, leb, length, String,
  string_eq, arith, Bool-cases, Option-cases, inl, inr,
}
use nzbre_x.Prelude.Map.{get}
use nzbre_x.Prelude.Map.Values.{
  AllValues, AllValues-get, AllValues-put, AllValues-delete, length-put_new, length-put_old,
  length-delete,
}
use nzbre_x.WebAuth.{
  Limits, LoginFails, Fails, window_over, prune_fails, count_fail, new_fails, Response,
  login_failed, login_ok, middleware, blocked_for,
}
use nzbre_x.WebAuth.Passes.{FewCounted, prune_fails-counts, prune_fails-room}

-- The table is no longer than it may be, and no record has the count that blocks.
pub record IsValid (l : Limits) (fails : Fails) : Type 0 where
  pub few : length fails ≤ l.track_max
  pub counts : AllValues (FewCounted l) fails

count_fail-counts :
    (l : Limits) (ip : String) (now : ℕ) (f : LoginFails) (fails : Fails)
    → FewCounted l f
    → AllValues (FewCounted l) fails
    → AllValues (FewCounted l) (count_fail l ip now f fails).1
unfolding count_fail
count_fail-counts l ip now f fails c h = elim (Bool-cases (leb l.max_fails (f.count + 1))) [
  | inl t ↦ rw (t, count_fail) (AllValues-put (FewCounted l) ip _ fails h (omega (arith, c)))
  | inr t ↦ rw (t, count_fail) (AllValues-put (FewCounted l) ip _ fails h (ground (arith, t)))
]

-- The record that is counted in is stored in any case.
count_fail-put :
    (l : Limits) (ip : String) (now : ℕ) (f : LoginFails) (fails : Fails)
    → (length (count_fail l ip now f fails).1 ≤ length fails + 1)
      × ((w : LoginFails)
          → get ip fails ≡ some w
          → length (count_fail l ip now f fails).1 ≡ length fails)
unfolding count_fail
count_fail-put l ip now f fails = elim (Bool-cases (leb l.max_fails (f.count + 1))) [
  | inl t ↦ rw (t, count_fail) (length-put_new ip _ fails, λ w g. length-put_old ip _ w fails g)
  | inr t ↦ rw (t, count_fail) (length-put_new ip _ fails, λ w g. length-put_old ip _ w fails g)
]

login_failed-IsValid :
    (l : Limits) (ip : String) (now : ℕ) (fails : Fails)
    → 0 < l.max_fails
    → 0 < l.track_max
    → IsValid l fails
    → IsValid l (login_failed l ip now fails).1
unfolding login_failed
login_failed-IsValid l ip now fails m x h = elim (Option-cases (get ip fails)) [
  | inl g ↦ elim (Bool-cases (leb l.track_max (length fails))) [
    | inl t ↦
        rw (g, t, login_failed)
          (record {
            few = omega (
              arith,
              (count_fail-put l ip now (new_fails now) (prune_fails l now fails)).0,
              prune_fails-room l now fails x,
            );
            counts =
                count_fail-counts l ip now (new_fails now) (prune_fails l now fails) m
                  (prune_fails-counts l now fails h.counts);
          })
    | inr t ↦
        rw (g, t, login_failed)
          (record {
            few = ground (arith, t, (count_fail-put l ip now (new_fails now) fails).0);
            counts = count_fail-counts l ip now (new_fails now) fails m h.counts;
          })
  ]
  | inr (f, g) ↦
      let old : FewCounted l f = AllValues-get (FewCounted l) ip f fails h.counts g in
      elim (Bool-cases (window_over l now f)) [
        | inl t ↦
            rw (g, t, login_failed)
              (record {
                few = omega (arith, (count_fail-put l ip now (new_fails now) fails).1 f g, h.few);
                counts = count_fail-counts l ip now (new_fails now) fails m h.counts;
              })
        | inr t ↦
            rw (g, t, login_failed)
              (record {
                few = omega (arith, (count_fail-put l ip now f fails).1 f g, h.few);
                counts = count_fail-counts l ip now f fails old h.counts;
              })
      ]
]

-- A request as the middleware sees it.
pub record Request : Type 0 where
  pub ip : String
  pub now : ℕ
  pub auth : Bool
  pub cached : Bool
  pub check : Bool

abbrev pub serve : Limits → Request → Fails → Response × Fails
serve l r fails = middleware l r.ip r.now r.auth r.cached r.check fails

unfoldable pub serve_all : Limits → List Request → Fails → Fails
serve_all l [] fails = fails
serve_all l (r ∷ rs) fails = serve_all l rs (serve l r fails).1

middleware-IsValid :
    (l : Limits) (ip : String) (now : ℕ) (auth cached check : Bool) (fails : Fails)
    → 0 < l.max_fails
    → 0 < l.track_max
    → IsValid l fails
    → IsValid l (middleware l ip now auth cached check fails).1
unfolding middleware login_ok
middleware-IsValid l ip now true true check fails m x h = h
middleware-IsValid l ip now true false true fails m x h =
    elim (Bool-cases (ltb 0 (blocked_for ip now fails))) [
      | inl b ↦ rw (b, middleware) h
      | inr b ↦
          rw (b, middleware)
            (record {
              few = omega (arith, length-delete ip fails, h.few);
              counts = AllValues-delete (FewCounted l) ip fails h.counts;
            })
    ]
middleware-IsValid l ip now true false false fails m x h =
    elim (Bool-cases (ltb 0 (blocked_for ip now fails))) [
      | inl b ↦ rw (b, middleware) h
      | inr b ↦ rw (b, middleware) (login_failed-IsValid l ip now fails m x h)
    ]
middleware-IsValid l ip now false cached check fails m x h =
    elim (Bool-cases (ltb 0 (blocked_for ip now fails))) [
      | inl b ↦ rw (b, middleware) h
      | inr b ↦ rw (b, middleware) h
    ]

-- Whatever requests come, from however many addresses, the table of failed logins never has more than
-- webLoginTrackMax addresses, and no address is left with webLoginMaxFails failures counted, if both
-- limits are not 0 and the table was so before (it starts empty).
pub serve_all-IsValid :
    (l : Limits) (rs : List Request) (fails : Fails)
    → 0 < l.max_fails
    → 0 < l.track_max
    → IsValid l fails
    → IsValid l (serve_all l rs fails)
unfolding serve_all
serve_all-IsValid l [] fails m x h = h
serve_all-IsValid l (r ∷ rs) fails m x h =
    serve_all-IsValid l rs (serve l r fails).1 m x
      (middleware-IsValid l r.ip r.now r.auth r.cached r.check fails m x h)
