-- ===== src/Examples/WebAuth.antt =====
-- webauth.go at concrete inputs.
use nzbre_x.Prelude.{ℕ, ◌≡◌, refl, true, false, List, [], ◌∷◌, arith, length, keep, String}
use nzbre_x.WebAuth.{
  Limits, LoginFails, Fails, blocked_for, middleware, prune_fails, too_many_requests,
}
use nzbre_x.Prelude.Map.{get, put}
use nzbre_x.WebAuth.Table.{Request, serve_all, IsValid, serve_all-IsValid}
use nzbre_x.WebAuth.Pruning.{blocked, prune_fails_keeps_blocked}
use nzbre_x.WebAuth.Blocking.{fail_at, max_fails_block}

abbrev small : Limits
small = record { max_fails = 3; window = 60; block = 60; track_max = 4 }

abbrev guess : String → ℕ → Request
guess ip now = record { ip = ip; now = now; auth = true; cached = false; check = false }

abbrev guesses : List Request
guesses =
    guess "10.0.0.1" 100
    ∷ guess "10.0.0.1" 101
    ∷ guess "10.0.0.2" 102
    ∷ guess "10.0.0.1" 103
    ∷ guess "10.0.0.1" 104
    ∷ guess "10.0.0.3" 300
    ∷ guess "10.0.0.4" 300
    ∷ guess "10.0.0.5" 301
    ∷ []

serve_all_test : length (serve_all small guesses []) ≡ 2
unfolding serve_all middleware get put
serve_all_test = refl

serve_all-IsValid_example : IsValid small (serve_all small guesses [])
serve_all-IsValid_example =
    serve_all-IsValid small guesses [] (omega arith) (omega arith)
      (record { few = omega arith; counts = tt })

abbrev record_of : ℕ → LoginFails
record_of until = record { count = 0; first = 0; blocked_until = until }

abbrev table : Fails
table =
    ("a", record_of 0)
    ∷ ("b", record_of 500)
    ∷ ("c", record { count = 1; first = 90; blocked_until = 0 })
    ∷ []

prune_fails_keeps_blocked_example :
    keep (blocked 100) (prune_fails small 100 table) ≡ ("b", record_of 500) ∷ []
prune_fails_keeps_blocked_example = prune_fails_keeps_blocked small 100 table (omega arith)

abbrev after_three : Fails
after_three = fail_at small "10.0.0.1" (100 ∷ 110 ∷ 120 ∷ []) []

max_fails_block_example :
    (blocked_for "10.0.0.1" 130 after_three ≡ 50)
    × (middleware small "10.0.0.1" 130 true false true after_three
        ≡ (too_many_requests, after_three))
unfolding fail_at get
max_fails_block_example =
    max_fails_block small "10.0.0.1" 100 110 (120 ∷ []) 130 true true [] refl (omega arith) refl
      (omega arith) (omega arith)
