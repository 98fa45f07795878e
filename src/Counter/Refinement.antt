-- ===== src/Counter/Refinement.antt =====
-- Counter_uint64.go beside a function from keys to values.
use nzbre_x.Prelude.{
  ℕ, String, Bool, true, false, not, ◌≡◌, refl, ap, ◌∙◌, Option, none, some, arith, if◌then◌else◌,
  ltb, add64, sub64, ◌=?◌, string_eq, eq_iff, [], Bool-cases, Option-cases, ◌==◌, inl, inr,
}
use nzbre_x.Prelude.Map.{Map, get, put, delete, get-put, get-delete}
use nzbre_x.Counter.{
  Counter, Call, inits, resets, incrs, decrs, get_resets, deletes, incrs_max, adds, subs, sets,
  clears, gets, get_value, drop_zero, delete_key, decr, incr_max, sub, init, Reply, nothing,
  refused, value, flag, silent, step, first, with_reply, perform,
}

-- What a call does to the values: the key that it names, and its new value.
abbrev pub override : String → ℕ → (String → ℕ) → String → ℕ
override k v f j = if k =? j then v else f j

abbrev pub spec : Call → (String → ℕ) → String → ℕ
spec (inits k) f = f
spec (resets k) f = override k 0 f
spec (incrs k) f = override k (add64 (f k) 1) f
spec (decrs k) f = if ltb 0 (f k) then override k (sub64 (f k) 1) f else f
spec (get_resets k) f = override k 0 f
spec (gets k) f = f
spec (deletes k) f = override k 0 f
spec (incrs_max k v) f = if ltb (f k) v then override k (add64 (f k) 1) f else f
spec (adds k v) f = override k (add64 (f k) v) f
spec (subs k v) f = if ltb 0 (f k) then override k (sub64 (f k) v) f else f
spec (sets k v) f = override k v f
spec clears f = λ _. 0

-- What a call returns; `present` says which keys are there.
abbrev pub reply : Call → (String → Bool) → (String → ℕ) → Reply
reply (inits k) present f = flag (not (present k))
reply (incrs k) present f = value (add64 (f k) 1)
reply (decrs k) present f = value (if ltb 0 (f k) then sub64 (f k) 1 else 0)
reply (get_resets k) present f = value (f k)
reply (gets k) present f = value (f k)
reply (incrs_max k v) present f = if ltb (f k) v then value (add64 (f k) 1) else refused
reply call present f = nothing

abbrev pub is_some {ℓ} : {A : Type ℓ} → Option A → Bool
is_some none = false
is_some (some a) = true

-- A counter that has not been killed.
abbrev pub live : Map String ℕ → Counter
live t = record { m = some t }

pub value-put :
    (k j : String) (v : ℕ) (t : Map String ℕ)
    → get_value j (live (put k v t)) ≡ (if k =? j then v else get_value j (live t))
unfolding get_value
value-put k j v t = ground (arith, get-put k j v t)

value-delete :
    (k j : String) (t : Map String ℕ)
    → get_value j (live (delete k t)) ≡ (if k =? j then 0 else get_value j (live t))
unfolding get_value
value-delete k j t = ground (arith, get-delete k j t)

-- A call returned a live counter with these values.
abbrev pub Yields : Option Counter → (String → ℕ) → Type 0
Yields r f = (t : Map String ℕ) × (r ≡ some (live t)) × ((j : String) → get_value j (live t) ≡ f j)

-- With this reply.
abbrev pub Answers : Option (Counter × Reply) → (String → ℕ) → Reply → Type 0
Answers r f a =
    (t : Map String ℕ) × (r ≡ some (live t, a)) × ((j : String) → get_value j (live t) ≡ f j)

silent-Answers : (r : Option Counter) (f : String → ℕ) → Yields r f → Answers (silent r) f nothing
silent-Answers r f (t, e, h) = (t, ap silent e, h)

-- Deleting a key whose value is 0 changes no value.
drop_zero-Yields :
    (k : String) (v : ℕ) (t : Map String ℕ)
    → Yields (some (drop_zero k (live (put k v t)))) (override k v (λ j. get_value j (live t)))
unfolding drop_zero delete_key
drop_zero-Yields k v t = elim (Bool-cases (get_value k (live (put k v t)) == 0)) [
  | inl zero_left ↦ rw zero_left (
    delete k (put k v t),
    refl,
    λ j. ground (
      arith,
      value-delete k j (put k v t),
      value-put k j v t,
      value-put k k v t,
      eq_iff k j,
      eq_iff k k,
    ),
  )
  | inr more ↦ rw more (put k v t, refl, λ j. value-put k j v t)
]

init-Answers :
    (k : String) (t : Map String ℕ)
    → Answers
        (perform (live t) (inits k))
        (λ j. get_value j (live t))
        (flag (not (is_some (get k t))))
unfolding perform get_value
init-Answers k t = elim (Option-cases (get k t)) [
  | inl absent ↦
      rw (absent, with_reply, init)
        (put k 0 t, refl, λ j. ground (arith, get-put k j 0 t, eq_iff k j, absent))
  | inr (v, present) ↦ rw (present, with_reply, init) (t, refl, λ j. refl)
]

value_now : (k : String) (v : ℕ) (t : Map String ℕ) → get_value k (live (put k v t)) ≡ v
value_now k v t = ground (arith, value-put k k v t, eq_iff k k)

abbrev stamped : Reply → Option Counter → Option (Counter × Reply)
stamped a none = none
stamped a (some c) = some (c, a)

stored_value :
    (c : Counter) (k : String) (v : ℕ) (t : Map String ℕ)
    → stamped (value (get_value k (live (put k v t)))) (some c) ≡ stamped (value v) (some c)
stored_value c k v t = ap (λ n. stamped (value n) (some c)) (value_now k v t)

decr-Answers :
    (k : String) (t : Map String ℕ)
    → Answers
        (perform (live t) (decrs k))
        (spec (decrs k) (λ j. get_value j (live t)))
        (reply (decrs k) (λ _. true) (λ j. get_value j (live t)))
unfolding perform
decr-Answers k t = elim (Bool-cases (ltb 0 (get_value k (live t)))) [
  | inl some_left ↦
      let (t', e, h) = drop_zero-Yields k (sub64 (get_value k (live t)) 1) t in
      rw (some_left, with_reply, decr)
        (t', stored_value _ k _ t ∙ ap (stamped (value (sub64 (get_value k (live t)) 1))) e, h)
  | inr none_left ↦ rw (none_left, with_reply, decr) (t, refl, λ j. refl)
]

-- Every call on a counter that was not killed returns, and changes the values as the table of
-- calls says: only the key that it names, 0 for a missing key, wrapping at 2^64, with `Decr`,
-- `Sub` and `IncrMax` doing nothing at 0, at 0 and at the maximum. It returns what the second table says: `Incr`, `Decr`
-- and `IncrMax` the new value (0 or the error where they do nothing), `GetReset` the value before it is
-- reset, `Init` whether the key was missing.
pub refines :
    (t : Map String ℕ) (call : Call)
    → Answers
        (perform (live t) call)
        (spec call (λ k. get_value k (live t)))
        (reply call (λ k. is_some (get k t)) (λ k. get_value k (live t)))
unfolding perform get
refines t (inits k) = init-Answers k t
refines t (resets k) = (put k 0 t, refl, λ j. value-put k j 0 t)
refines t (incrs k) = (put k _ t, stored_value _ k _ t, λ j. value-put k j _ t)
refines t (decrs k) = decr-Answers k t
refines t (get_resets k) = (put k 0 t, refl, λ j. value-put k j _ t)
refines t (gets k) = (t, refl, λ j. refl)
refines t (deletes k) = (delete k t, refl, λ j. value-delete k j t)
refines t (incrs_max k v) = elim (Bool-cases (ltb (get_value k (live t)) v)) [
  | inl below ↦
      rw (below, with_reply, incr_max) (put k _ t, stored_value _ k _ t, λ j. value-put k j _ t)
  | inr full ↦ rw (full, with_reply, incr_max) (t, refl, λ j. refl)
]
refines t (adds k v) = (put k _ t, refl, λ j. value-put k j _ t)
refines t (subs k v) = elim (Bool-cases (ltb 0 (get_value k (live t)))) [
  | inl some_left ↦ rw (some_left, sub) (silent-Answers _ _ (drop_zero-Yields k _ t))
  | inr none_left ↦ rw (none_left, sub) (t, refl, λ j. refl)
]
refines t (sets k v) = (put k _ t, refl, λ j. value-put k j _ t)
refines t clears = ([], refl, λ j. refl)

-- What a call leaves behind.
pub step-Yields :
    (t : Map String ℕ) (call : Call)
    → Yields (step (live t) call) (spec call (λ k. get_value k (live t)))
unfolding step
step-Yields t call = let (t', e, h) = refines t call in (t', ap first e, h)
