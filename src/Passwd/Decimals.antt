-- ===== src/Passwd/Decimals.antt =====
-- passwd.go: a number that is written with %d is read back by strconv.

use nzbre_x.Prelude.{
  ℕ, zero, suc, ◌+◌, ◌-◌, ◌*◌, ◌/◌, ◌%◌, ◌≤◌, ◌<◌, true, false, [], ◌∷◌, ◌++◌, ◌≡◌, refl, ap, ◌∙◌,
  inl, inr, arith, some, ltb, length, length-append, Bool-cases, All, All-append,
}
use nzbre_x.Nntp.{Line}
use nzbre_x.Rapid.Fields.{ℤ, pos, negsuc, digits, parse_digits, parse_int, max_int64, max_uint64}
use nzbre_x.Passwd.{decimal_on_fuel, decimal, number}

abbrev pub IsDigit : ℕ → Type 0
IsDigit c = (48 ≤ c) × (c ≤ 57)

digits-concat :
    (c m n : ℕ) (text : Line)
    → IsDigit c
    → m ≤ max_uint64
    → digits n text ≡ some m
    → digits n (text ++ c ∷ []) ≡ some (m * 10 + (c - 48))
unfolding digits
digits-concat c m n [] h b e = ground arith
digits-concat c m n (d ∷ text) h b e =
    ground (arith, digits-concat c m (n * 10 + (d - 48)) text h b)

digits-decimal :
    (fuel n : ℕ) → n < fuel → n ≤ max_uint64 → digits 0 (decimal_on_fuel fuel n) ≡ some n
unfolding digits decimal_on_fuel
digits-decimal zero n h b = absurd (omega arith)
digits-decimal (suc fuel) n h b = elim (Bool-cases (ltb n 10)) [
  | inl t ↦ rw t (ground arith)
  | inr t ↦
      let tens = digits-decimal fuel (n / 10) (ground arith) (omega arith) in
      let all =
        digits-concat (n % 10 + 48) (n / 10) 0 (decimal_on_fuel fuel (n / 10)) (omega arith)
          (omega arith) tens in
      rw t (all ∙ ap some (omega arith))
]

pub decimal_on_fuel-IsDigit : (fuel n : ℕ) → All IsDigit (decimal_on_fuel fuel n)
unfolding decimal_on_fuel
decimal_on_fuel-IsDigit zero n = tt
decimal_on_fuel-IsDigit (suc fuel) n = elim (Bool-cases (ltb n 10)) [
  | inl t ↦ rw t (ground arith)
  | inr t ↦ rw t (
      All-append IsDigit (decimal_on_fuel fuel (n / 10)) ((n % 10 + 48) ∷ [])
        (decimal_on_fuel-IsDigit fuel (n / 10)) (omega arith))
]

parse_digits-value :
    (text : Line) (n : ℕ)
    → 0 < length text
    → digits 0 text ≡ some n
    → n ≤ max_int64
    → parse_digits false text ≡ (pos n, false)
unfolding parse_digits
parse_digits-value [] n ne e h = absurd (omega arith)
parse_digits-value (c ∷ text) n ne e h = ground arith

parse_digits-negative :
    (text : Line) (n : ℕ)
    → 0 < length text
    → digits 0 text ≡ some (suc n)
    → n ≤ max_int64
    → parse_digits true text ≡ (negsuc n, false)
unfolding parse_digits
parse_digits-negative [] n ne e h = absurd (omega arith)
parse_digits-negative (c ∷ text) n ne e h = ground arith

parse_int-digits :
    (text : Line) → 0 < length text → All IsDigit text → parse_int text ≡ parse_digits false text
unfolding parse_int
parse_int-digits [] ne h = absurd (omega arith)
parse_int-digits (c ∷ text) ne h = ground arith

length-decimal : (fuel n : ℕ) → 0 < length (decimal_on_fuel (suc fuel) n)
unfolding decimal_on_fuel
length-decimal fuel n =
    ground (arith, length-append (decimal_on_fuel fuel (n / 10)) ((n % 10 + 48) ∷ []))

abbrev pub IsInt64 : ℤ → Type 0
IsInt64 (pos n) = n ≤ max_int64
IsInt64 (negsuc n) = n ≤ max_int64

pub number-decimal : (z : ℤ) → IsInt64 z → number (decimal z) ≡ some z
unfolding number decimal
number-decimal (pos n) h =
    let text = decimal_on_fuel (suc n) n in
    let read = parse_int-digits text (length-decimal n n) (decimal_on_fuel-IsDigit (suc n) n) in
    let value = digits-decimal (suc n) n (omega arith) (omega arith) in
    ground (arith, read ∙ parse_digits-value text n (length-decimal n n) value h)
number-decimal (negsuc n) h =
    let text = decimal_on_fuel (suc (suc n)) (suc n) in
    let value = digits-decimal (suc (suc n)) (suc n) (omega arith) (omega arith) in
    let read = parse_digits-negative text n (length-decimal (suc n) (suc n)) value h in
    let signed : parse_int (b'-' ∷ text) ≡ parse_digits true text = unfold parse_int in refl in
    rw (signed ∙ read) refl
