-- ===== src/Rapid/Files.antt =====
-- rapidyenc: the lines of a whole UUencoded file, and how its format is detected.
use nzbre_x.Prelude.{
  ℕ, zero, suc, ◌+◌, ◌-◌, ◌≤◌, ◌<◌, ◌%◌, List, [], ◌∷◌, ◌++◌, ◌≡◌, refl, ap, length, take, drop,
  get_or, All, arith, length-append,
}
use nzbre_x.Nntp.{Line, cr, lf, has_prefix}
use nzbre_x.Rapid.{
  uu_group, uu_groups, uu_line, uu_lines, uu_lines_on_fuel, uu_decode, detect_format, format_uu,
}
use nzbre_x.Rapid.Lines.{uu_decode-line}

-- The bytes of all lines.
unfoldable pub uu_decode_all : List Line → List ℕ
uu_decode_all [] = []
uu_decode_all (line ∷ lines) = uu_decode line ++ uu_decode_all lines

take-drop : (n : ℕ) (xs : List ℕ) → take n xs ++ drop n xs ≡ xs
take-drop zero xs = refl
take-drop (suc n) [] = refl
take-drop (suc n) (x ∷ xs) = ap (◌∷◌ x) (take-drop n xs)

length-take_le : (n : ℕ) (xs : List ℕ) → length (take n xs) ≤ n
length-take_le zero xs = omega arith
length-take_le (suc n) [] = omega arith
length-take_le (suc n) (x ∷ xs) = omega (arith, length-take_le n xs)

length-drop_le : (n : ℕ) (xs : List ℕ) → length (drop n xs) ≤ length xs
length-drop_le zero xs = omega arith
length-drop_le (suc n) [] = omega arith
length-drop_le (suc n) (x ∷ xs) = omega (arith, length-drop_le n xs)

module _ {κ} (P : ℕ → Type κ) where
  All-take : (n : ℕ) (xs : List ℕ) → All P xs → All P (take n xs)
  All-take zero xs h = tt
  All-take (suc n) [] h = tt
  All-take (suc n) (x ∷ xs) h = (h.0, All-take n xs h.1)

  All-drop : (n : ℕ) (xs : List ℕ) → All P xs → All P (drop n xs)
  All-drop zero xs h = h
  All-drop (suc n) [] h = tt
  All-drop (suc n) (x ∷ xs) h = All-drop n xs h.1

decode-on_fuel :
    (n : ℕ) (src : List ℕ)
    → All (λ b. b < 256) src
    → length src ≤ n
    → uu_decode_all (uu_lines_on_fuel n src) ≡ src
unfolding uu_decode_all uu_lines_on_fuel
decode-on_fuel zero [] h k = refl
decode-on_fuel zero (b ∷ src) h k = absurd (omega (arith, k))
decode-on_fuel (suc n) [] h k = refl
decode-on_fuel (suc n) (b ∷ src) h k =
    let chunk = take 45 (b ∷ src) in
    let rest = drop 45 (b ∷ src) in
    let shorter = length-drop_le 44 src in
    rw
      (
        uu_decode-line chunk (All-take (λ c. c < 256) 45 (b ∷ src) h)
            (omega (arith, length-take_le 45 (b ∷ src))),
        decode-on_fuel n rest (All-drop (λ c. c < 256) 45 (b ∷ src) h) (omega (arith, k, shorter)),
      )
      (take-drop 45 (b ∷ src))

length-uu_groups :
    (n : ℕ) (chunk : List ℕ) → length chunk ≡ n + n + n → length (uu_groups chunk) ≡ n + n + n + n
unfolding uu_groups uu_group
length-uu_groups n [] h = omega (arith, h)
length-uu_groups n (a ∷ []) h = absurd (omega (arith, h))
length-uu_groups n (a ∷ b ∷ []) h = absurd (omega (arith, h))
length-uu_groups n (a ∷ b ∷ c ∷ chunk) h =
    omega (arith, h, length-uu_groups (n - 1) chunk (omega (arith, h)))

get_or-behind :
    (xs ys : List ℕ) (i j d : ℕ) → j ≡ length xs + i → get_or (xs ++ ys) j d ≡ get_or ys i d
get_or-behind [] ys i j d h = ap (λ k. get_or ys k d) (omega (arith, h))
get_or-behind (x ∷ xs) ys i zero d h = absurd (omega (arith, h))
get_or-behind (x ∷ xs) ys i (suc j) d h = get_or-behind xs ys i j d (omega (arith, h))

-- 'M' and sixty characters.
detect_format-m :
    (chars : List ℕ)
    → length chars ≡ 60
    → detect_format (b'M' ∷ (chars ++ cr ∷ lf ∷ [])) ≡ format_uu
unfolding detect_format has_prefix
detect_format-m chars h =
    let size : length (chars ++ cr ∷ lf ∷ []) ≡ 62 =
      omega (arith, h, length-append chars (cr ∷ lf ∷ [])) in
    let last : get_or (chars ++ cr ∷ lf ∷ []) 61 0 ≡ lf =
      get_or-behind chars (cr ∷ lf ∷ []) 1 61 0 (omega (arith, h)) in
    rw (size, last) refl

detect_format-full :
    (chunk : List ℕ) → length chunk ≡ 45 → detect_format (uu_line chunk) ≡ format_uu
unfolding uu_line
detect_format-full chunk h =
    let first : (length chunk + 32) % 256 ≡ b'M' = omega (arith, h) in
    rw first (detect_format-m (uu_groups chunk) (length-uu_groups 15 chunk h))

-- UUencoded bytes, each below 256, come back line by line: what UUdecode makes of UUEncode's lines is, one after another,
-- what was encoded, and each full line is recognised as UUencoded.
pub uu_decode-lines :
    (src : List ℕ)
    → All (λ b. b < 256) src
    → (uu_decode_all (uu_lines src) ≡ src)
      × ((chunk : List ℕ) → length chunk ≡ 45 → detect_format (uu_line chunk) ≡ format_uu)
unfolding uu_lines
uu_decode-lines src h = (decode-on_fuel (length src) src h (omega arith), detect_format-full)
