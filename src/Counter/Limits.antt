-- ===== src/Counter/Limits.antt =====
-- Counter_uint64.go: inverse calls, the bound of `IncrMax`, underflow in `Sub`, the killed counter.
use nzbre_x.Prelude.{
  ℕ, zero, suc, ◌+◌, ◌-◌, ◌≤◌, ◌<◌, min, String, ◌≡◌, refl, ap, false, Option, none, some, arith,
  if◌then◌else◌, ltb, lt→ltb, ltb→lt, leb, add64, u64_mod, ◌=?◌, string_eq, eq_iff, Bool-cases, inl,
  inr,
}
use nzbre_x.Prelude.Map.{Map, put}
use nzbre_x.Counter.{
  Counter, inits, resets, incrs, decrs, get_resets, deletes, incrs_max, adds, subs, sets, clears,
  get_value, step, incr_max, counted, at_max, kill_counter, ◌>>=◌,
}
use nzbre_x.Counter.Refinement.{live, Yields, step-Yields, value-put, override}

-- `Incr` and then `Decr` of a key below 2^64 - 1 leaves every value as it was.
incr-decr :
    (k : String) (t : Map String ℕ)
    → get_value k (live t) + 1 < u64_mod
    → Yields (step (live t) (incrs k) >>= λ c. step c (decrs k)) (λ j. get_value j (live t))
unfolding u64_mod
incr-decr k t small =
    let (t1, e1, v1) = step-Yields t (incrs k) in
    let (t2, e2, v2) = step-Yields t1 (decrs k) in
    (t2, rw e1 e2, λ j. ground (arith, v1 k, v1 j, v2 j, eq_iff k k, eq_iff k j))

-- `Sub` on a key that is not 0: subtracting at most the value is exact, subtracting more wraps the
-- value round below 2^64 instead of stopping at 0; the other keys keep their values.
sub_exact_or_wraps :
    (k : String) (v : ℕ) (t : Map String ℕ)
    → 0 < get_value k (live t)
    → get_value k (live t) < u64_mod
    → v < u64_mod
    → Yields (step (live t) (subs k v)) (
        override k
          (if leb v (get_value k (live t))
            then get_value k (live t) - v
            else get_value k (live t) + u64_mod - v)
          (λ j. get_value j (live t)))
unfolding u64_mod
sub_exact_or_wraps k v t pos small fits =
    let (t1, e1, v1) = step-Yields t (subs k v) in (t1, e1, λ j. ground (arith, v1 j, eq_iff k j))

no_wrap : (a vmax : ℕ) → vmax < u64_mod → a < vmax → add64 a 1 ≡ a + 1
unfolding u64_mod
no_wrap a vmax fits below = omega arith

incr_max-full :
    (k : String) (vmax : ℕ) (t : Map String ℕ)
    → ltb (get_value k (live t)) vmax ≡ false
    → incr_max k vmax (live t) ≡ some (live t, at_max)
unfolding incr_max
incr_max-full k vmax t full = rw full

-- One call of `IncrMax` below the maximum counts, and at the maximum changes nothing.
incr_max-below :
    (k : String) (vmax : ℕ) (t : Map String ℕ)
    → vmax < u64_mod
    → get_value k (live t) < vmax
    → (t' : Map String ℕ) × (incr_max k vmax (live t)
        ≡ some (live t', counted (get_value k (live t) + 1)))
      × ((j : String)
          → get_value j (live t')
            ≡ (if k =? j then get_value k (live t) + 1 else get_value j (live t)))
unfolding incr_max
incr_max-below k vmax t fits below =
    let v = add64 (get_value k (live t)) 1 in
    let e : v ≡ get_value k (live t) + 1 = no_wrap (get_value k (live t)) vmax fits below in
    (
      put k v t,
      rw (lt→ltb _ _ below) (
          ap (λ (n : ℕ). some (live (put k v t), counted n))
            (ground (arith, value-put k k v t, eq_iff k k, e))),
      λ j. ground (arith, value-put k j v t, e),
    )

-- `n` calls of `IncrMax`; how many of them counted.
unfoldable pub incr_max_times : ℕ → String → ℕ → Counter → Option (Counter × ℕ)
incr_max_times zero k vmax c = some (c, 0)
incr_max_times (suc n) k vmax c = do
  (c', r) ← incr_max k vmax c
  (c'', hits) ← incr_max_times n k vmax c'
  some (c'', elim r [ at_max ↦ hits | counted _ ↦ suc hits ])

-- From a value at or below the maximum, `n` calls of `IncrMax` never pass it: as many count as
-- there is room for, the value grows by that many, and the other keys keep their values.
incr_max_bound :
    (n : ℕ) (k : String) (vmax : ℕ) (t : Map String ℕ)
    → vmax < u64_mod
    → get_value k (live t) ≤ vmax
    → (c : Counter) × (hits : ℕ) × (incr_max_times n k vmax (live t) ≡ some (c, hits))
      × (hits ≡ min n (vmax - get_value k (live t)))
      × ((j : String)
          → get_value j c ≡ (if k =? j then get_value k (live t) + hits else get_value j (live t)))
unfolding incr_max_times
incr_max_bound zero k vmax t fits le =
    (live t, 0, refl, omega arith, λ j. ground (arith, eq_iff k j))
incr_max_bound (suc n) k vmax t fits le = elim (Bool-cases (ltb (get_value k (live t)) vmax)) [
  | inl below ↦
      let (t', e, v) = incr_max-below k vmax t fits (ltb→lt _ _ below) in
      let at : get_value k (live t') ≡ get_value k (live t) + 1 = ground (arith, v k, eq_iff k k) in
      let (c, hits, e', h, g) =
        incr_max_bound n k vmax t' fits (ground (arith, at, ltb→lt _ _ below)) in
      (
        c,
        suc hits,
        rw (e, ◌>>=◌) (rw (e', ◌>>=◌)),
        ground (arith, ltb→lt _ _ below),
        λ j. ground (arith, g j, v j, at, eq_iff k j),
      )
  | inr full ↦
      let (c, hits, e', h, g) = incr_max_bound n k vmax t fits le in
      (c, hits, rw (incr_max-full k vmax t full, e', ◌>>=◌), ground arith, g)
]

-- A killed counter reads 0 at every key, refuses nothing that only reads or deletes, and panics
-- on every call that stores.
killed_calls :
    (c : Counter) (k : String) (v : ℕ)
    → let dead = kill_counter c in
      (get_value k dead ≡ 0)
      × (step dead (deletes k) ≡ some dead)
      × (step dead (decrs k) ≡ some dead)
      × (step dead (subs k v) ≡ some dead)
      × (step dead clears ≡ some dead)
      × (step dead (incrs_max k 0) ≡ some dead)
      × (step dead (incrs_max k (suc v)) ≡ none)
      × (step dead (inits k) ≡ none)
      × (step dead (resets k) ≡ none)
      × (step dead (incrs k) ≡ none)
      × (step dead (get_resets k) ≡ none)
      × (step dead (adds k v) ≡ none)
      × (step dead (sets k v) ≡ none)
unfolding step kill_counter
killed_calls c k v =
    (refl, refl, refl, refl, refl, refl, ground arith, refl, refl, refl, refl, refl, refl)
