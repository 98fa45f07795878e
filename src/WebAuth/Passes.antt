-- ===== src/WebAuth/Passes.antt =====
-- webauth.go: the passes of pruneFails, and the room that they make.
use nzbre_x.Prelude.{
  ℕ, ◌+◌, ◌-◌, ◌/◌, ◌≤◌, ◌<◌, Bool, true, false, [], ◌∷◌, ◌≡◌, refl, ap, ◌∙◌, sym, ◌&&◌, ◌||◌, not,
  ltb, length, String, string_eq, arith, Bool-cases, inl, inr, ◌⊎◌,
}
use nzbre_x.Prelude.Map.Values.{AllValues, AllValues-keep}
use nzbre_x.WebAuth.{
  Limits, LoginFails, Fails, unblocked, window_over, prune_pass, prune_old, prune_rest, prune_fails,
}

abbrev pub FewCounted : Limits → LoginFails → Type 0
FewCounted l f = f.count < l.max_fails

-- The three turns of a pass.
module _ (kb : Bool) (half now n : ℕ) (e : String × LoginFails) (fails : Fails) where
  pub turn-stop : ltb n half ≡ true → prune_pass kb half now n (e ∷ fails) ≡ (true, e ∷ fails)
  unfolding prune_pass
  turn-stop t = rw (t, prune_pass) refl

  pub turn-drop :
      ltb n half ≡ false
      → (not kb || unblocked now e) ≡ true
      → prune_pass kb half now n (e ∷ fails) ≡ prune_pass kb half now (n - 1) fails
  unfolding prune_pass
  turn-drop t u = rw (t, u, prune_pass) refl

  pub turn-keep :
      ltb n half ≡ false
      → (not kb || unblocked now e) ≡ false
      → prune_pass kb half now n (e ∷ fails)
        ≡ ((prune_pass kb half now n fails).0, e ∷ (prune_pass kb half now n fails).1)
  unfolding prune_pass
  turn-keep t u = rw (t, u, prune_pass) refl

pub pass-none : (kb : Bool) (half now n : ℕ) → prune_pass kb half now n [] ≡ (false, [])
unfolding prune_pass
pass-none kb half now n = refl

module _ (half now : ℕ) where
  pass-counts :
      (l : Limits) (kb : Bool) (n : ℕ) (fails : Fails)
      → AllValues (FewCounted l) fails
      → AllValues (FewCounted l) (prune_pass kb half now n fails).1
  pass-counts l kb n [] h = rw (pass-none kb half now n) tt
  pass-counts l kb n (e ∷ fails) h = elim (Bool-cases (ltb n half)) [
    | inl t ↦ rw (turn-stop kb half now n e fails t) h
    | inr t ↦ elim (Bool-cases (not kb || unblocked now e)) [
      | inl u ↦ rw (turn-drop kb half now n e fails t u) (pass-counts l kb (n - 1) fails h.1)
      | inr u ↦ rw (turn-keep kb half now n e fails t u) (h.0, pass-counts l kb n fails h.1)
    ]
  ]

  -- The pass that spares blocked addresses stops only below the half.
  pass-stopped :
      (n : ℕ) (fails : Fails)
      → length fails ≤ n
      → (prune_pass true half now n fails).0 ≡ true
      → length (prune_pass true half now n fails).1 + (n - length fails) < half
  pass-stopped n [] h s = absurd (cc (pass-none true half now n, s))
  pass-stopped n (e ∷ fails) h s = elim (Bool-cases (ltb n half)) [
    | inl t ↦ rw (turn-stop true half now n e fails t) (ground (arith, t, h))
    | inr t ↦ elim (Bool-cases (unblocked now e)) [
      | inl u ↦
          let turn = turn-drop true half now n e fails t u in
          let more = pass-stopped (n - 1) fails (omega (arith, h)) (ap (λ r. r.0) (sym turn) ∙ s) in
          rw turn (omega (arith, h, more))
      | inr u ↦
          let turn = turn-keep true half now n e fails t u in
          let more = pass-stopped n fails (omega (arith, h)) (ap (λ r. r.0) (sym turn) ∙ s) in
          rw turn (omega (arith, h, more))
    ]
  ]

  -- The last pass leaves less than the half, or nothing.
  pass-empties :
      (n : ℕ) (fails : Fails)
      → n ≡ length fails
      → (length (prune_pass false half now n fails).1 < half)
        ⊎ (length (prune_pass false half now n fails).1 ≡ 0)
  pass-empties n [] h = rw (pass-none false half now n) (inr refl)
  pass-empties n (e ∷ fails) h = elim (Bool-cases (ltb n half)) [
    | inl t ↦ rw (turn-stop false half now n e fails t) (inl (ground (arith, t, h)))
    | inr t ↦
        rw (turn-drop false half now n e fails t refl)
          (pass-empties (n - 1) fails (omega (arith, h)))
  ]

prune_rest-length :
    (half now : ℕ) (fails : Fails)
    → (length (prune_rest half now fails) < half) ⊎ (length (prune_rest half now fails) ≡ 0)
unfolding prune_rest
prune_rest-length half now fails =
    let once = prune_pass true half now (length fails) fails in
    elim (Bool-cases once.0) [
      | inl s ↦
          let less = pass-stopped half now (length fails) fails (omega arith) s in
          rw (s, prune_rest) (inl (omega (arith, less)))
      | inr s ↦ rw (s, prune_rest) (pass-empties half now (length once.1) once.1 refl)
    ]

pub prune_fails-counts :
    (l : Limits) (now : ℕ) (fails : Fails)
    → AllValues (FewCounted l) fails
    → AllValues (FewCounted l) (prune_fails l now fails)
unfolding prune_fails prune_old prune_rest
prune_fails-counts l now fails h =
    let half = l.track_max / 2 in
    let old = prune_old l now fails in
    let young : AllValues (FewCounted l) old =
      AllValues-keep (FewCounted l) (λ (ip, f). not (unblocked now (ip, f) && window_over l now f))
        fails h in
    let once = pass-counts half now l true (length old) old young in
    elim (Bool-cases (prune_pass true half now (length old) old).0) [
      | inl s ↦ rw (s, prune_fails, prune_rest) once
      | inr s ↦ rw (s, prune_fails, prune_rest) (pass-counts half now l false _ _ once)
    ]

-- There is room for one more behind it.
pub prune_fails-room :
    (l : Limits) (now : ℕ) (fails : Fails)
    → 0 < l.track_max
    → length (prune_fails l now fails) < l.track_max
unfolding prune_fails
prune_fails-room l now fails h =
    elim (prune_rest-length (l.track_max / 2) now (prune_old l now fails)) [
      | inl less ↦ omega (arith, less)
      | inr none_left ↦ omega (arith, none_left, h)
    ]
