-- ===== src/NzbDir/Turns.antt =====
-- nzbdir.go: what a turn of the watcher does to a file.

use nzbre_x.Prelude.{
  Bool, true, false, List, [], ◌∷◌, ◌≡◌, refl, ◌⊎◌, inl, inr, arith, none, some, if◌then◌else◌,
  ◌=?◌, contains, same_list_iff, =?_refl, nat_eq, list_eq, Bool-cases, Option-cases,
}
use nzbre_x.Prelude.Map.{get, get-delete}
use nzbre_x.Nntp.{Line}
use nzbre_x.NzbDir.{DirFile, Watcher, RunOutcome, was_stopped, process_one, process_each}

-- A property of what a loop comes to, at both branches of a test.
if_run :
    (P : Watcher × List Line → Type 0) (b : Bool) (x y : Watcher × List Line)
    → P x
    → P y
    → P (if b then x else y)
if_run P true x y p q = p
if_run P false x y p q = q

process_one-skip :
    (name n : Line) (o : RunOutcome) (w : Watcher)
    → contains name w.skip ≡ true
    → contains name (process_one n o w).skip ≡ true
unfolding process_one contains
process_one-skip name n o w h = ground (arith, h)

process_one-pending :
    (name n : Line) (o : RunOutcome) (w : Watcher) (info : DirFile)
    → get name (process_one n o w).pending ≡ some info
    → get name w.pending ≡ some info
unfolding process_one
process_one-pending name n o w info h = ground (arith, h, get-delete n name w.pending)

process_one-stopped :
    (n : Line) (o : RunOutcome) (w : Watcher)
    → w.stopped ≡ true
    → (process_one n o w).stopped ≡ true
unfolding process_one
process_one-stopped n o w h = ground (arith, h)

-- A file that was run is out of `pending`, unless the watcher was stopped.
process_one-gone :
    (n : Line) (o : RunOutcome) (w : Watcher)
    → (process_one n o w).stopped ≡ false
    → (was_stopped o.ran ≡ true) ⊎ (get n (process_one n o w).pending ≡ none)
unfolding process_one
process_one-gone n o w h = elim (Bool-cases (was_stopped o.ran)) [
  | inl t ↦ inl t
  | inr t ↦ inr (ground (arith, h, t, get-delete n n w.pending, =?_refl n))
]

module _ (outcome : Line → RunOutcome) (name : Line) where
  pub process_each-contains :
      (names : List Line) (w : Watcher)
      → contains name names ≡ false
      → contains name (process_each outcome names w).1 ≡ false
  unfolding process_each contains
  process_each-contains [] w h = refl
  process_each-contains (n ∷ names) w h =
      let later = process_each-contains names (process_one n (outcome n) w) (ground (arith, h)) in
      let other : (n =? name) ≡ false = ground (arith, h) in
      if_run (λ r. contains name r.1 ≡ false) w.stopped (w, []) _ refl (rw (other, later) refl)

  pub process_each-skip :
      (names : List Line) (w : Watcher)
      → contains name w.skip ≡ true
      → contains name (process_each outcome names w).0.skip ≡ true
  unfolding process_each
  process_each-skip [] w h = h
  process_each-skip (n ∷ names) w h =
      if_run (λ r. contains name r.0.skip ≡ true) w.stopped (w, []) _ h
        (process_each-skip names (process_one n (outcome n) w)
          (process_one-skip name n (outcome n) w h))

  pub process_each-pending :
      (names : List Line) (w : Watcher) (info : DirFile)
      → get name (process_each outcome names w).0.pending ≡ some info
      → get name w.pending ≡ some info
  unfolding process_each
  process_each-pending [] w info h = h
  process_each-pending (n ∷ names) w info h =
      if_run (λ r. get name r.0.pending ≡ some info → get name w.pending ≡ some info) w.stopped
        (w, []) _ (λ k. k)
        (λ k.
          process_one-pending name n (outcome n) w info
            (process_each-pending names (process_one n (outcome n) w) info k))
        h

  process_each-stopped :
      (names : List Line) (w : Watcher)
      → w.stopped ≡ true
      → (process_each outcome names w).0.stopped ≡ true
  unfolding process_each
  process_each-stopped [] w h = h
  process_each-stopped (n ∷ names) w h =
      if_run (λ r. r.0.stopped ≡ true) w.stopped (w, []) _ h
        (process_each-stopped names (process_one n (outcome n) w)
          (process_one-stopped n (outcome n) w h))

  -- A file that was run is not pending at the end of the turn.
  pub process_each-gone :
      (names : List Line) (w : Watcher)
      → was_stopped (outcome name).ran ≡ false
      → (process_each outcome names w).0.stopped ≡ false
      → contains name (process_each outcome names w).1 ≡ true
      → get name (process_each outcome names w).0.pending ≡ none
  unfolding process_each contains
  process_each-gone [] w o s h = absurd (cc h)
  process_each-gone (n ∷ names) w o live_end ran =
      let w' = process_one n (outcome n) w in
      let rest = process_each outcome names w' in
      if_run (λ r. r.0.stopped ≡ false → contains name r.1 ≡ true → get name r.0.pending ≡ none)
        w.stopped (w, []) (rest.0, n ∷ rest.1) (λ s h. absurd (cc h))
        (λ s h. elim (Bool-cases (n =? name)) [
          | inr t ↦ process_each-gone names w' o s (ground (arith, h, t))
          | inl t ↦
              let same : n ≡ name = (same_list_iff n name).0 t in
              elim (Option-cases (get name rest.0.pending)) [
                | inl gone ↦ gone
                | inr (info, still) ↦
                    let before = process_each-pending names w' info still in
                    let live : w'.stopped ≡ false = elim (Bool-cases w'.stopped) [
                      | inl b ↦ absurd (cc (process_each-stopped names w' b, s))
                      | inr b ↦ b
                    ] in
                    elim (process_one-gone n (outcome n) w live) [
                      | inl bad ↦ absurd (cc (rw same at bad, o))
                      | inr none' ↦ absurd (cc (same, none', before))
                    ]
              ]
        ])
        live_end ran
