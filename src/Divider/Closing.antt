-- ===== src/Divider/Closing.antt =====
-- Workers.go, GoWorkDivider: how the rounds of a session come to an end.
use nzbre_x.Prelude.{
  ℕ, zero, suc, ◌+◌, ◌-◌, ◌≤◌, ◌≡◌, refl, arith, Bool, true, false, List, [], ◌∷◌, Option, none,
  some, ltb, leb, ◌==◌, length, All, Bool-cases, inl, inr,
}
use nzbre_x.Items.{Provider, Options, Item, is_segment_stupid}
use nzbre_x.Divider.{
  Counts, no_counts, in_flight, is_done, is_notarget, count_item, count_turn, count_items, Round,
  idle, close_case, end_round, end_rounds,
}

-- Checked, not in flight, and dead or done or without a target, but not dead and done at once.
abbrev pub settles : Bool → Bool → Bool → Bool → Option Bool → Bool
settles true false true false target = true
settles true false false true target = true
settles true false false false (some true) = true
settles _ _ _ _ _ = false

unfoldable pub settled : Options → Bool → List Provider → Item → Bool
unfolding is_segment_stupid is_done is_notarget
settled o allow_up providers item =
    settles (item.checked_on == length providers) (in_flight item)
      (is_segment_stupid (length providers) item) (is_done o providers item)
      (is_notarget o allow_up providers item)

-- What a count of settled articles adds up to.
abbrev pub Adds : ℕ → Counts → Option Counts → Type 0
Adds n c none = ⊥
Adds n c (some c') =
    (c'.checked ≡ c.checked + n)
    × (c'.dead + c'.done + c'.notarget ≡ c.dead + c.done + c.notarget + n)
    × (c'.indl ≡ c.indl)
    × (c'.inup ≡ c.inup)
    × (c'.inyenc ≡ c.inyenc)

count_turn-Adds :
    (chk flight stupid fin : Bool) (target : Option Bool) (item : Item) (c : Counts)
    → in_flight item ≡ flight
    → settles chk flight stupid fin target ≡ true
    → Adds 1 c (count_turn chk flight stupid fin target item c)
count_turn-Adds true false true false target item c free s = ground (arith, free)
count_turn-Adds true false false true target item c free s = ground (arith, free)
count_turn-Adds true false false false (some true) item c free s = ground (arith, free)
count_turn-Adds true false false false (some false) item c free s = absurd (cc)
count_turn-Adds true false false false none item c free s = absurd (cc)
count_turn-Adds true false true true target item c free s = absurd (cc)
count_turn-Adds true true stupid fin target item c free s = absurd (cc)
count_turn-Adds false flight stupid fin target item c free s = absurd (cc)

count_item-Adds :
    (o : Options) (allow_up : Bool) (providers : List Provider) (item : Item) (c : Counts)
    → settled o allow_up providers item ≡ true
    → Adds 1 c (count_item o allow_up providers item c)
unfolding count_item settled
count_item-Adds o allow_up providers item c s =
    count_turn-Adds (item.checked_on == length providers) (in_flight item)
      (is_segment_stupid (length providers) item) (is_done o providers item)
      (is_notarget o allow_up providers item) item c refl s

widen-Adds :
    (n : ℕ) (c c' : Counts) (x : Option Counts)
    → Adds 1 c (some c')
    → Adds n c' x
    → Adds (suc n) c x
widen-Adds n c c' none h k = k
widen-Adds n c c' (some x) h k = ground (arith, h, k)

next-Adds :
    (n : ℕ) (c : Counts) (r : Option Counts) (k : Counts → Option Counts)
    → Adds 1 c r
    → ((c' : Counts) → Adds n c' (k c'))
    → Adds (suc n) c (elim r [ none ↦ none | some c' ↦ k c' ])
next-Adds n c none k h rest = h
next-Adds n c (some c') k h rest = widen-Adds n c c' (k c') h (rest c')

count_items-Adds :
    (o : Options) (allow_up : Bool) (providers : List Provider) (items : List Item) (c : Counts)
    → All (λ item. settled o allow_up providers item ≡ true) items
    → Adds (length items) c (count_items o allow_up providers items c)
unfolding count_items
count_items-Adds o allow_up providers [] c s = ground arith
count_items-Adds o allow_up providers (item ∷ items) c (one, s) =
    next-Adds (length items) c (count_item o allow_up providers item c)
      (count_items o allow_up providers items) (count_item-Adds o allow_up providers item c one)
      (λ c'. count_items-Adds o allow_up providers items c' s)

closes :
    (r : Round) (c : Counts)
    → c.checked ≡ r.todo
    → c.dead + c.done + c.notarget ≡ r.todo
    → close_case r c ≡ true
unfolding close_case
closes r c all sum = elim (Bool-cases (ltb 0 c.notarget)) [
  | inl some_left ↦ ground (arith, sum, some_left)
  | inr none_left ↦ ground (arith, sum, none_left)
]

rounds_down :
    (n w : ℕ) (r : Round) (c : Counts)
    → w + 1 ≤ n
    → c.checked ≡ r.todo
    → idle r c ≡ true
    → close_case r c ≡ true
    → end_rounds n r c w ≡ none
unfolding end_rounds end_round
rounds_down zero w r c le all still closed = absurd (omega arith)
rounds_down (suc n) w r c le all still closed =
    let seen : (c.checked == r.todo) ≡ true = ground (arith, all) in
    elim (Bool-cases (w == 0)) [
      | inl e ↦ rw (seen, still, e, end_rounds, end_round) refl
      | inr e ↦
          rw (seen, still, e, closed, end_rounds, end_round)
            (rounds_down n (w - 1) r c (ground (arith, e)) all still closed)
    ]

ended :
    (r : Round) (x : Option Counts)
    → Adds r.todo no_counts x
    → idle r no_counts ≡ true
    → (c : Counts) × (x ≡ some c) × (end_rounds 2 r c 1 ≡ none)
unfolding no_counts
ended r none h still = absurd h
ended r (some c) (all, sum, dl, up, yenc) still =
    let all' : c.checked ≡ r.todo = omega (arith, all) in
    (
      c,
      refl,
      rounds_down 2 1 r c (omega arith) all' (ground (arith, dl, up, yenc, still))
          (closes r c all' (omega (arith, sum))),
    )

-- A session in which every article is checked, not in flight, and dead or on every provider (not both) or without
-- an upload target, with nothing queued or waiting for a retry, is over after two rounds of the divider.
pub settled_session_ends :
    (o : Options) (allow_up : Bool) (providers : List Provider) (items : List Item) (r : Round)
    → All (λ item. settled o allow_up providers item ≡ true) items
    → r.todo ≡ length items
    → idle r no_counts ≡ true
    → (c : Counts) × (count_items o allow_up providers items no_counts ≡ some c)
      × (end_rounds 2 r c 1 ≡ none)
settled_session_ends o allow_up providers items r s all still =
    ended r (count_items o allow_up providers items no_counts)
      (rw all (count_items-Adds o allow_up providers items no_counts s)) still

rounds_up :
    (n w : ℕ) (r : Round) (c : Counts)
    → 15 ≤ w + n
    → w ≤ 14
    → c.checked ≡ r.todo
    → idle r c ≡ true
    → close_case r c ≡ false
    → end_rounds n r c w ≡ none
unfolding end_rounds end_round
rounds_up zero w r c le lt all still opened = absurd (omega arith)
rounds_up (suc n) w r c le lt all still opened =
    let seen : (c.checked == r.todo) ≡ true = ground (arith, all) in
    elim (Bool-cases (w == 0)) [
      | inl e ↦ rw (seen, still, e, end_rounds, end_round) refl
      | inr e ↦ elim (Bool-cases (leb 15 (w + 1))) [
        | inl f ↦ rw (seen, still, e, opened, f, end_rounds, end_round) refl
        | inr f ↦
            rw (seen, still, e, opened, f, end_rounds, end_round)
              (rounds_up n (w + 1) r c (omega arith) (ground (arith, f)) all still opened)
      ]
    ]

-- From a closeWait of at most 14, the divider ends within 15 rounds that count the same articles, all of them checked,
-- with nothing in flight, queued or waiting for a retry, whether or not a close case holds.
idle_session_ends :
    (w : ℕ) (r : Round) (c : Counts)
    → w ≤ 14
    → c.checked ≡ r.todo
    → idle r c ≡ true
    → end_rounds 15 r c w ≡ none
idle_session_ends w r c lt all still = elim (Bool-cases (close_case r c)) [
  | inl closed ↦ rounds_down 15 w r c (omega arith) all still closed
  | inr opened ↦ rounds_up 15 w r c (omega arith) lt all still opened
]
