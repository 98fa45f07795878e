-- ===== src/Examples/Counter.antt =====
-- Counter_uint64.go at concrete inputs.
use nzbre_x.Prelude.{ℕ, ◌≡◌, refl, String, [], ◌∷◌, some, string_eq, u64_mod}
use nzbre_x.Prelude.Map.{Map, get, put, delete}
use nzbre_x.Counter.{decrs, subs, get_value, step, perform}
use nzbre_x.Counter.Refinement.{live, Answers, spec, reply, is_some, refines}

abbrev queue : Map String ℕ
queue = ("dlQueueCnt", 2) ∷ ("upQueueCnt", 1) ∷ []

decr_test : step (live queue) (decrs "upQueueCnt") ≡ some (live (("dlQueueCnt", 2) ∷ []))
unfolding step get put delete u64_mod
decr_test = refl

refines_example :
    Answers
      (perform (live queue) (decrs "upQueueCnt"))
      (spec (decrs "upQueueCnt") (λ k. get_value k (live queue)))
      (reply (decrs "upQueueCnt") (λ k. is_some (get k queue)) (λ k. get_value k (live queue)))
refines_example = refines queue (decrs "upQueueCnt")

sub_test :
    step (live queue) (subs "upQueueCnt" 3)
    ≡ some (live (("dlQueueCnt", 2) ∷ ("upQueueCnt", 18446744073709551614) ∷ []))
unfolding step get put delete u64_mod
sub_test = refl
