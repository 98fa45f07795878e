-- ===== src/Counter.antt =====
-- Counter_uint64.go: the named uint64 counters behind one lock. Each method holds the lock for
-- its whole body, so it is one step here. A method that writes to the nil map of a killed counter
-- panics: `none`. A missing key reads as 0.
pub mod Refinement
pub mod Limits
use nzbre_x.Prelude.{
  ℕ, String, Bool, true, false, Option, none, some, [], if◌then◌else◌, ltb, ◌==◌, add64, sub64,
  string_eq,
}
use nzbre_x.Prelude.Map.{Map, get, put, delete}

-- The map; `none` is the nil map that `kill_counter` leaves.
pub record Counter : Type 0 where
  pub m : Option (Map String ℕ)

abbrev pub or_zero : Option ℕ → ℕ
or_zero none = 0
or_zero (some v) = v

unfoldable pub new_counter : Counter
new_counter = record { m = some [] }

unfoldable pub get_value : String → Counter → ℕ
get_value k c = elim c.m [ none ↦ 0 | some t ↦ or_zero (get k t) ]

has_key : String → Counter → Bool
has_key k c = elim c.m [ none ↦ false | some t ↦ elim (get k t) [ none ↦ false | some _ ↦ true ] ]

-- `c.m[k] = v`
store : String → ℕ → Counter → Option Counter
store k v c = elim c.m [ none ↦ none | some t ↦ some (record { m = some (put k v t) }) ]

unfoldable pub delete_key : String → Counter → Counter
delete_key k c = elim c.m [ none ↦ c | some t ↦ record { m = some (delete k t) } ]

unfoldable pub kill_counter : Counter → Counter
kill_counter c = record { m = none }

unfoldable pub clear_counter : Counter → Counter
clear_counter c = elim c.m [ none ↦ c | some t ↦ record { m = some [] } ]

infixl 5 ◌>>=◌
abbrev pub ◌>>=◌ {ℓ κ} : {A : Type ℓ} {B : Type κ} → Option A → (A → Option B) → Option B
none >>= f = none
some a >>= f = f a

unfoldable pub init : String → Counter → Option (Counter × Bool)
unfolding has_key store
init k c = if has_key k c then some (c, false) else (do c' ← store k 0 c; some (c', true))

unfoldable pub set_value : String → ℕ → Counter → Option Counter
unfolding store
set_value k v c = store k v c

unfoldable pub reset_key : String → Counter → Option Counter
unfolding store
reset_key k c = store k 0 c

unfoldable pub incr : String → Counter → Option (Counter × ℕ)
unfolding store get_value
incr k c = do c' ← store k (add64 (get_value k c) 1) c; some (c', get_value k c')

-- What `IncrMax` returns: the new value, or the error that the maximum is reached.
pub data Counted : Type 0 where
  counted : ℕ → Counted
  at_max : Counted

unfoldable pub incr_max : String → ℕ → Counter → Option (Counter × Counted)
unfolding store get_value
incr_max k vmax c =
    if ltb (get_value k c) vmax
    then (do c' ← store k (add64 (get_value k c) 1) c; some (c', counted (get_value k c')))
    else some (c, at_max)

-- A count that falls to 0 loses its key.
drop_zero : String → Counter → Counter
drop_zero k c = if get_value k c == 0 then delete_key k c else c

unfoldable pub decr : String → Counter → Option (Counter × ℕ)
unfolding store get_value drop_zero delete_key
decr k c =
    if ltb 0 (get_value k c)
    then (do c' ← store k (sub64 (get_value k c) 1) c; some (drop_zero k c', get_value k c'))
    else some (c, 0)

unfoldable pub add : String → ℕ → Counter → Option Counter
unfolding store get_value
add k v c = store k (add64 (get_value k c) v) c

unfoldable pub sub : String → ℕ → Counter → Option Counter
unfolding store get_value drop_zero delete_key
sub k v c =
    if ltb 0 (get_value k c)
    then (do c' ← store k (sub64 (get_value k c) v) c; some (drop_zero k c'))
    else some c

unfoldable pub get_reset : String → Counter → Option (Counter × ℕ)
unfolding store get_value
get_reset k c = do c' ← store k 0 c; some (c', get_value k c)

-- The calls on a counter, and what one returns: nothing, a number, a flag, or IncrMax's error.
pub data Call : Type 0 where
  inits resets incrs decrs get_resets deletes gets : String → Call
  incrs_max adds subs sets : String → ℕ → Call
  clears : Call

pub data Reply : Type 0 where
  nothing refused : Reply
  value : ℕ → Reply
  flag : Bool → Reply

abbrev pub with_reply {ℓ} :
    {A : Type ℓ} → (A → Reply) → Option (Counter × A) → Option (Counter × Reply)
with_reply f none = none
with_reply f (some (c, a)) = some (c, f a)

abbrev pub silent : Option Counter → Option (Counter × Reply)
silent none = none
silent (some c) = some (c, nothing)

abbrev pub counted_reply : Counted → Reply
counted_reply (counted n) = value n
counted_reply at_max = refused

unfoldable pub perform : Counter → Call → Option (Counter × Reply)
unfolding init reset_key incr decr get_reset incr_max add sub set_value delete_key clear_counter
    get_value
perform c (inits k) = with_reply flag (init k c)
perform c (resets k) = silent (reset_key k c)
perform c (incrs k) = with_reply value (incr k c)
perform c (decrs k) = with_reply value (decr k c)
perform c (get_resets k) = with_reply value (get_reset k c)
perform c (gets k) = some (c, value (get_value k c))
perform c (deletes k) = some (delete_key k c, nothing)
perform c (incrs_max k v) = with_reply counted_reply (incr_max k v c)
perform c (adds k v) = silent (add k v c)
perform c (subs k v) = silent (sub k v c)
perform c (sets k v) = silent (set_value k v c)
perform c clears = some (clear_counter c, nothing)

-- What a call leaves behind.
abbrev pub first {ℓ} : {A : Type ℓ} → Option (Counter × A) → Option Counter
first none = none
first (some (c, _)) = some c

unfoldable pub step : Counter → Call → Option Counter
unfolding perform
step c call = first (perform c call)
