-- ===== src/Passwd/Parts.antt =====
-- passwd.go: cutting a line into its parts.

use nzbre_x.Prelude.{
  ℕ, suc, ◌<◌, Bool, true, false, [], ◌∷◌, ◌++◌, ◌≡◌, refl, arith, some, not, ◌&&◌, ◌||◌, ◌==◌, leb,
  length, length-append, nat_eq, list_eq, All,
}
use nzbre_x.Nntp.{Line}
use nzbre_x.Rapid.Fields.{ℤ, pos, negsuc}
use nzbre_x.Passwd.{bar, is_space, trim_left, trim_right, trim_space, cut_bar, split_n, decimal}
use nzbre_x.Passwd.Decimals.{IsDigit, decimal_on_fuel-IsDigit}

abbrev pub NoBar : Line → Type 0
NoBar text = All (λ c. (c == bar) ≡ false) text

-- A byte of a username: neither a space nor a bar.
abbrev pub is_plain : ℕ → Bool
is_plain c = not (is_space c) && not (c == bar)

abbrev pub IsPlain : Line → Type 0
IsPlain text = All (λ c. is_plain c ≡ true) text

cut_bar-append :
    (text rest : Line) → NoBar text → cut_bar (text ++ (bar ∷ rest)) ≡ some (text, rest)
unfolding cut_bar
cut_bar-append [] rest h = refl
cut_bar-append (c ∷ text) rest h = rw (cut_bar-append text rest h.1, h.0) refl

pub split_n-append :
    (n : ℕ) (text rest : Line)
    → NoBar text
    → split_n (suc (suc n)) (text ++ (bar ∷ rest)) ≡ text ∷ split_n (suc n) rest
unfolding split_n
split_n-append n text rest h = rw (cut_bar-append text rest h, split_n) refl

NoBar-digits : (text : Line) → All IsDigit text → NoBar text
NoBar-digits [] h = tt
NoBar-digits (c ∷ text) h = (ground (arith, h.0), NoBar-digits text h.1)

pub NoBar-plain : (text : Line) → IsPlain text → NoBar text
unfolding is_space
NoBar-plain [] h = tt
NoBar-plain (c ∷ text) h = (ground (arith, h.0), NoBar-plain text h.1)

pub NoBar-decimal : (z : ℤ) → NoBar (decimal z)
unfolding decimal
NoBar-decimal (pos n) = NoBar-digits _ (decimal_on_fuel-IsDigit (suc n) n)
NoBar-decimal (negsuc n) = (refl, NoBar-digits _ (decimal_on_fuel-IsDigit (suc (suc n)) (suc n)))

pub trim_right-append :
    (text rest : Line)
    → 0 < length rest
    → trim_right rest ≡ rest
    → trim_right (text ++ rest) ≡ text ++ rest
unfolding trim_right
trim_right-append [] rest ne h = h
trim_right-append (c ∷ text) rest ne h =
    let some_left : (length (text ++ rest) == 0) ≡ false =
      ground (arith, length-append text rest) in
    rw (trim_right-append text rest ne h, some_left) refl

pub trim_right-plain : (text : Line) → IsPlain text → trim_right text ≡ text
unfolding trim_right is_space
trim_right-plain [] h = refl
trim_right-plain (c ∷ text) h = rw (trim_right-plain text h.1) (ground (arith, h.0))

pub trim_space-plain :
    (text rest : Line)
    → 0 < length text
    → IsPlain text
    → trim_right (text ++ rest) ≡ text ++ rest
    → trim_space (text ++ rest) ≡ text ++ rest
unfolding trim_space trim_left is_space
trim_space-plain [] rest ne h r = absurd (omega arith)
trim_space-plain (c ∷ text) rest ne h r =
    let first : (c == 32 || leb 9 c && leb c 13) ≡ false = ground (arith, h.0) in rw first r
