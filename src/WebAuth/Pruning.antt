-- ===== src/WebAuth/Pruning.antt =====
-- webauth.go: which addresses pruneFails drops.
use nzbre_x.Prelude.{
  ℕ, ◌-◌, ◌/◌, ◌<◌, Bool, true, false, [], ◌∷◌, ◌≡◌, refl, ap, ◌∙◌, not, ltb, length, keep, String,
  arith, Bool-cases, inl, inr,
}
use nzbre_x.WebAuth.{
  Limits, LoginFails, Fails, unblocked, window_over, prune_pass, prune_old, prune_rest, prune_fails,
}
use nzbre_x.WebAuth.Passes.{turn-stop, turn-drop, turn-keep, pass-none}

-- The records that still block their address.
abbrev pub blocked : ℕ → String × LoginFails → Bool
blocked now e = not (unblocked now e)

module _ (half now : ℕ) where
  -- The first pass drops no blocked address; if it does not stop, it leaves no other.
  pass-blocked :
      (n : ℕ) (fails : Fails)
      → (keep (blocked now) (prune_pass true half now n fails).1 ≡ keep (blocked now) fails)
        × ((prune_pass true half now n fails).0 ≡ false
            → (prune_pass true half now n fails).1 ≡ keep (blocked now) fails)
  pass-blocked n [] = rw (pass-none true half now n) (refl, λ s. refl)
  pass-blocked n (e ∷ fails) = elim (Bool-cases (ltb n half)) [
    | inl t ↦ rw (turn-stop true half now n e fails t) (refl, λ s. absurd (cc s))
    | inr t ↦ elim (Bool-cases (unblocked now e)) [
      | inl u ↦
          let later = pass-blocked (n - 1) fails in
          rw (turn-drop true half now n e fails t u, u) later
      | inr u ↦
          let later = pass-blocked n fails in
          rw (turn-keep true half now n e fails t u, u, later.0) (refl, λ s. ap (◌∷◌ e) (later.1 s))
    ]
  ]

  pass-idle :
      (kb : Bool) (fails : Fails)
      → length fails < half
      → (prune_pass kb half now (length fails) fails).1 ≡ fails
  pass-idle kb [] h = rw (pass-none kb half now 0) refl
  pass-idle kb (e ∷ fails) h =
      rw (turn-stop kb half now (length (e ∷ fails)) e fails (ground (arith, h))) refl

keep-keep :
    (l : Limits) (now : ℕ) (fails : Fails)
    → keep (blocked now) (prune_old l now fails) ≡ keep (blocked now) fails
unfolding prune_old
keep-keep l now [] = refl
keep-keep l now ((ip, f) ∷ fails) = elim (Bool-cases (unblocked now (ip, f))) [
  | inl u ↦ elim (Bool-cases (window_over l now f)) [
    | inl w ↦ rw (u, w) (keep-keep l now fails)
    | inr w ↦ rw (u, w, u) (keep-keep l now fails)
  ]
  | inr u ↦ rw (u, u) (ap (◌∷◌ (ip, f)) (keep-keep l now fails))
]

-- pruneFails keeps every address that is still blocked, in order, if these are fewer than half of the
-- table's limit.
pub prune_fails_keeps_blocked :
    (l : Limits) (now : ℕ) (fails : Fails)
    → length (keep (blocked now) fails) < l.track_max / 2
    → keep (blocked now) (prune_fails l now fails) ≡ keep (blocked now) fails
unfolding prune_fails prune_rest
prune_fails_keeps_blocked l now fails h =
    let half = l.track_max / 2 in
    let old = prune_old l now fails in
    let once = prune_pass true half now (length old) old in
    let first = pass-blocked half now (length old) old in
    elim (Bool-cases once.0) [
      | inl s ↦ rw (s, prune_fails, prune_rest) (first.0 ∙ keep-keep l now fails)
      | inr s ↦
          let left : once.1 ≡ keep (blocked now) fails = first.1 s ∙ keep-keep l now fails in
          let idle = pass-idle half now false once.1 (omega (arith, ap length left, h)) in
          rw (s, prune_fails, prune_rest, idle) (first.0 ∙ keep-keep l now fails)
    ]
