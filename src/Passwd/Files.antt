-- ===== src/Passwd/Files.antt =====
-- passwd.go: the bytes of a file as the lines that the scanner reads.
use nzbre_x.Prelude.{
  ℕ, Bool, true, false, List, [], ◌∷◌, ◌++◌, suc, sym, ap, ◌∙◌, ◌≡◌, ◌⊎◌, inl, inr, refl, arith,
  ◌||◌, ◌==◌, if◌then◌else◌, All, Bool-cases, nat_eq, list_eq,
}
use mathlib.Core.List.{append-nil, append_assoc}
use nzbre_x.Nntp.{Line, codes, cr, lf}
use nzbre_x.Rapid.Fields.{ℤ, pos, negsuc}
use nzbre_x.Passwd.{UserData, is_space, drop_cr, scan_from, decimal, passwd_line}
use nzbre_x.Passwd.Decimals.{IsDigit, decimal_on_fuel-IsDigit}
use nzbre_x.Passwd.Parts.{IsPlain}

-- No byte that ends a line.
abbrev pub NoEol : Line → Type 0
NoEol text = All (λ c. (c == lf || c == cr) ≡ false) text

-- The file is empty, or its last byte is an LF.
abbrev pub EndsLine : List ℕ → Type 0
EndsLine bytes = (bytes ≡ []) ⊎ ((init : List ℕ) × (bytes ≡ init ++ lf ∷ []))

drop_cr-NoEol : (text : Line) → NoEol text → drop_cr text ≡ text
unfolding drop_cr
drop_cr-NoEol [] h = refl
drop_cr-NoEol (c ∷ []) h = let no_cr : (c == cr) ≡ false = ground (arith, h.0) in rw no_cr refl
drop_cr-NoEol (c ∷ d ∷ text) h = ap (λ l. c ∷ l) (drop_cr-NoEol (d ∷ text) h.1)

scan_from-line :
    (word text : Line) → NoEol text → scan_from word (text ++ lf ∷ []) ≡ drop_cr (word ++ text) ∷ []
unfolding scan_from
scan_from-line word [] h = ap (λ l. drop_cr l ∷ []) (sym (append-nil word))
scan_from-line word (c ∷ text) h =
    let no_lf : (c == lf) ≡ false = ground (arith, h.0) in
    rw no_lf (
      scan_from-line (word ++ c ∷ []) text h.1
      ∙ ap (λ l. drop_cr l ∷ []) (append_assoc word (c ∷ []) text))

scan_from-append :
    (word : Line) (init more : List ℕ)
    → scan_from word ((init ++ lf ∷ []) ++ more)
      ≡ scan_from word (init ++ lf ∷ []) ++ scan_from [] more
unfolding scan_from
scan_from-append word [] more = refl
scan_from-append word (c ∷ init) more = elim (Bool-cases (c == lf)) [
  | inl e ↦ rw e (ap (λ l. drop_cr word ∷ l) (scan_from-append [] init more))
  | inr e ↦ rw e (scan_from-append (word ++ c ∷ []) init more)
]

-- A line that is written behind the last LF is a line of its own.
pub scan_from-added :
    (bytes : List ℕ) (line : Line)
    → EndsLine bytes
    → NoEol line
    → scan_from [] (bytes ++ (line ++ lf ∷ [])) ≡ scan_from [] bytes ++ line ∷ []
scan_from-added bytes line (inl e) h =
    rw e (scan_from-line [] line h ∙ (unfold scan_from in ap (λ l. l ∷ []) (drop_cr-NoEol line h)))
scan_from-added bytes line (inr (init, e)) h = rw e (
    scan_from-append [] init (line ++ lf ∷ [])
    ∙ ap (λ l. scan_from [] (init ++ lf ∷ []) ++ l)
        (scan_from-line [] line h ∙ ap (λ l. l ∷ []) (drop_cr-NoEol line h)))

NoEol-append : (xs ys : Line) → NoEol xs → NoEol ys → NoEol (xs ++ ys)
NoEol-append [] ys h k = k
NoEol-append (x ∷ xs) ys h k = (h.0, NoEol-append xs ys h.1 k)

NoEol-plain : (text : Line) → IsPlain text → NoEol text
unfolding is_space
NoEol-plain [] h = tt
NoEol-plain (c ∷ text) h = (ground (arith, h.0), NoEol-plain text h.1)

NoEol-digits : (text : Line) → All IsDigit text → NoEol text
NoEol-digits [] h = tt
NoEol-digits (c ∷ text) h = (ground (arith, h.0), NoEol-digits text h.1)

NoEol-decimal : (z : ℤ) → NoEol (decimal z)
unfolding decimal
NoEol-decimal (pos n) = NoEol-digits _ (decimal_on_fuel-IsDigit (suc n) n)
NoEol-decimal (negsuc n) = (refl, NoEol-digits _ (decimal_on_fuel-IsDigit (suc (suc n)) (suc n)))

NoEol-post : (posting : Bool) → NoEol (codes (if posting then "post" else "nopost"))
NoEol-post true = (refl, (refl, (refl, (refl, tt))))
NoEol-post false = (refl, (refl, (refl, (refl, (refl, (refl, tt))))))

pub passwd_line-NoEol :
    (hashed : Line) (u : UserData)
    → IsPlain u.username
    → NoEol hashed
    → NoEol (passwd_line hashed u)
unfolding passwd_line
passwd_line-NoEol hashed u name hash = NoEol-append u.username _ (NoEol-plain u.username name) (
  refl,
  NoEol-append hashed _ hash (
    refl,
    NoEol-append (decimal u.max_conns) _ (NoEol-decimal u.max_conns) (
      refl,
      NoEol-append (decimal u.expire_at) _ (NoEol-decimal u.expire_at) (refl, NoEol-post u.posting),
    ),
  ),
)
