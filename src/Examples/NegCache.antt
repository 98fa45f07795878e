-- ===== src/Examples/NegCache.antt =====
-- ProxyHelper.go at concrete inputs.
use nzbre_x.Prelude.{same_list, ◌≡◌, refl, List, [], ◌∷◌, arith}
use nzbre_x.Prelude.Map.{get, put}
use nzbre_x.NegCache.{
  NegCache, no_entries, is_article_not_found, purge_neg_cache, Call, set, purge, run_calls,
}
use nzbre_x.NegCache.Bound.{IsValid, total, run_calls-IsValid}
use nzbre_x.NegCache.Purging.{NoTwice, AllNoTwice, purge-lookup}

abbrev calls : List Call
calls =
    set 10 (b'a' ∷ []) (b'g' ∷ [])
    ∷ set 20 (b'b' ∷ []) (b'g' ∷ [])
    ∷ set 30 (b'c' ∷ []) (b'h' ∷ [])
    ∷ purge 75
    ∷ set 80 (b'c' ∷ []) (b'h' ∷ [])
    ∷ []

abbrev cached : NegCache
cached = record {
  groups =
      ((b'g' ∷ []), ((b'b' ∷ []), 80) ∷ ((b'a' ∷ []), 70) ∷ [])
      ∷ ((b'h' ∷ []), ((b'c' ∷ []), 60) ∷ [])
      ∷ [];
  n = 3;
}

run_calls_test : run_calls 2 60 calls no_entries ≡ record {
  groups = ((b'g' ∷ []), ((b'b' ∷ []), 80) ∷ []) ∷ ((b'h' ∷ []), ((b'c' ∷ []), 140) ∷ []) ∷ [];
  n = 2;
}
unfolding run_calls no_entries get put same_list
run_calls_test = refl

run_calls-IsValid_example : IsValid 2 (run_calls 2 60 calls no_entries)
unfolding no_entries total
run_calls-IsValid_example =
    run_calls-IsValid 2 60 calls no_entries (record { counted = refl; limited = omega arith })

purge-lookup_example :
    is_article_not_found 76 (b'a' ∷ []) (b'g' ∷ []) (purge_neg_cache 75 cached)
    ≡ is_article_not_found 76 (b'a' ∷ []) (b'g' ∷ []) cached
unfolding NoTwice AllNoTwice get same_list
purge-lookup_example =
    purge-lookup 75 76 (b'a' ∷ []) (b'g' ∷ []) cached (refl, (refl, tt))
      ((refl, (refl, tt)), ((refl, tt), tt)) (omega arith)
