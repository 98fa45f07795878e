-- ===== src/Items/Checks.antt =====
-- Workers.go and Routines.go: how a check of an item counts in checkedOn, which the divider compares with the
-- number of providers.
use nzbre_x.Prelude.{
  ℕ, zero, suc, ◌+◌, ◌≡◌, refl, inl, inr, arith, Bool, true, false, ◌||◌, List, [], ◌∷◌,
  if◌then◌else◌, ◌==◌, length, nat_eq, string_eq, String, ◌=?◌, Bool-cases, tally,
}
use nzbre_x.Items.{Provider, Item, flag_error, mark_check_failed}
use nzbre_x.Items.Replies.{
  Attempt, no_conn, broken_get, broken_stat, replied, check_reply, check_item, check_attempts,
}
use nzbre_x.Prelude.{All}
use nzbre_x.Items.Groups.{for_group-count}

flag_error-checked_on :
    (now pid : ℕ) (item : Item) → (flag_error now pid item).checked_on ≡ item.checked_on
unfolding flag_error
flag_error-checked_on now pid item = refl

mark_check_failed-checked_on :
    (ps : List Provider) (g : String) (item : Item)
    → (mark_check_failed ps g item).checked_on ≡ item.checked_on + tally (λ p. p.group =? g) ps
unfolding mark_check_failed
mark_check_failed-checked_on ps g item = for_group-count g _ 0 ps item (λ k i. refl)

check_reply-checked_on :
    (ps : List Provider) (p : Provider) (code : ℕ) (item : Item)
    → (check_reply ps p code item).checked_on ≡ item.checked_on + tally (λ q. q.group =? p.group) ps
unfolding check_reply
check_reply-checked_on ps p code item = elim (Bool-cases (code == 223)) [
  | inl e ↦ rw (e, check_reply) (for_group-count p.group _ 0 ps item (λ k i. refl))
  | inr e ↦ elim (Bool-cases (code == 430)) [
    | inl f ↦ rw (e, f, check_reply) (for_group-count p.group _ 0 ps item (λ k i. refl))
    | inr f ↦ elim (Bool-cases (code == 451)) [
      | inl g ↦ rw (e, f, g, check_reply) (for_group-count p.group _ 0 ps item (λ k i. refl))
      | inr g ↦ rw (e, f, g, check_reply) (for_group-count p.group _ 0 ps item (λ k i. refl))
    ]
  ]
]

marked_item-checked_on :
    (a : Attempt) (now pid : ℕ) (item : Item)
    → (elim a as (λ _. Item) [ broken_stat ↦ flag_error now pid item | _ ↦ item ]).checked_on
      ≡ item.checked_on
marked_item-checked_on broken_stat now pid item = flag_error-checked_on now pid item
marked_item-checked_on broken_get now pid item = refl
marked_item-checked_on no_conn now pid item = refl
marked_item-checked_on (replied code) now pid item = refl

no_more : (again marked : Item) (n : ℕ) → true ≡ false → again.checked_on ≡ marked.checked_on + n
no_more again marked n h = cc

attempt-checked_on :
    (ps : List Provider) (p : Provider) (a : Attempt) (last : Bool) (marked again item : Item)
    → marked.checked_on ≡ item.checked_on
    → (last ≡ false → again.checked_on ≡ marked.checked_on + tally (λ q. q.group =? p.group) ps)
    → (elim a as (λ _. Item) [
      | replied code ↦ check_reply ps p code item
      | no_conn ↦ mark_check_failed ps p.group marked
      | _ ↦ if last then mark_check_failed ps p.group marked else again
    ]).checked_on
      ≡ item.checked_on + tally (λ q. q.group =? p.group) ps
attempt-checked_on ps p (replied code) last marked again item e later =
    check_reply-checked_on ps p code item
attempt-checked_on ps p no_conn last marked again item e later =
    omega (arith, e, mark_check_failed-checked_on ps p.group marked)
attempt-checked_on ps p broken_get true marked again item e later =
    omega (arith, e, mark_check_failed-checked_on ps p.group marked)
attempt-checked_on ps p broken_stat true marked again item e later =
    omega (arith, e, mark_check_failed-checked_on ps p.group marked)
attempt-checked_on ps p broken_get false marked again item e later = omega (arith, e, later refl)
attempt-checked_on ps p broken_stat false marked again item e later = omega (arith, e, later refl)

-- With at least one attempt, whatever the attempts meet (no connection, broken connections, any reply, a stopped
-- session), checkItem raises the item's checkedOn by the number of providers in the group.
check_item-checked_on :
    (ps : List Provider) (p : Provider) (pid left : ℕ) (meets : ℕ → (Attempt × ℕ × Bool))
    (item : Item)
    → (check_item ps p pid (suc left) meets item).checked_on
      ≡ item.checked_on + tally (λ q. q.group =? p.group) ps
unfolding check_item
check_item-checked_on ps p pid zero meets item =
    let (a, now, stopped) = meets 0 in
    let m : Item = elim a [ broken_stat ↦ flag_error now pid item | _ ↦ item ] in
    attempt-checked_on ps p a true m m item (marked_item-checked_on a now pid item) (no_more m m _)
check_item-checked_on ps p pid (suc left) meets item =
    let (a, now, stopped) = meets (suc left) in
    let m : Item = elim a [ broken_stat ↦ flag_error now pid item | _ ↦ item ] in
    attempt-checked_on ps p a (suc left == 0 || stopped) m (check_item ps p pid (suc left) meets m)
      item (marked_item-checked_on a now pid item)
      (λ h. check_item-checked_on ps p pid left meets m)

-- The checks of one item by the groups' check routines, one after the other: a provider of the group, its ID and
-- what the attempts meet.
abbrev pub Check : Type 0
Check = Provider × ℕ × (ℕ → (Attempt × ℕ × Bool))

unfoldable pub check_all : List Provider → List Check → Item → Item
unfolding check_item
check_all ps [] item = item
check_all ps ((p, pid, meets) ∷ checks) item =
    check_all ps checks (check_item ps p pid check_attempts meets item)

abbrev counted : List Provider → List Check → ℕ
counted ps [] = 0
counted ps (c ∷ checks) = tally (λ q. q.group =? c.0.group) ps + counted ps checks

check_all-counted :
    (ps : List Provider) (checks : List Check) (item : Item)
    → (check_all ps checks item).checked_on ≡ item.checked_on + counted ps checks
unfolding check_all
check_all-counted ps [] item = omega arith
check_all-counted ps ((p, pid, meets) ∷ checks) item = omega (
  arith,
  check_all-counted ps checks (check_item ps p pid check_attempts meets item),
  check_item-checked_on ps p pid 1 meets item,
)

counted-cons :
    (p : Provider) (ps : List Provider) (checks : List Check)
    → counted (p ∷ ps) checks ≡ tally (λ c. p.group =? c.0.group) checks + counted ps checks
counted-cons p ps [] = refl
counted-cons p ps (c ∷ checks) = ground (arith, counted-cons p ps checks)

counted-length :
    (ps : List Provider) (checks : List Check)
    → All (λ p. tally (λ c. p.group =? c.0.group) checks ≡ 1) ps
    → counted ps checks ≡ length ps
counted-length [] checks once = none_counted checks
  where
    none_counted : (checks : List Check) → counted [] checks ≡ 0
    none_counted [] = refl
    none_counted (c ∷ checks) = omega (arith, none_counted checks)
counted-length (p ∷ ps) checks (one, once) =
    omega (arith, counted-cons p ps checks, one, counted-length ps checks once)

-- Where an item that was not checked yet is checked once for the group of each provider, in whatever order and with
-- whatever outcome, its checkedOn is the number of providers, which is the divider's test for it.
pub every_group_checked :
    (ps : List Provider) (checks : List Check) (item : Item)
    → All (λ p. tally (λ c. p.group =? c.0.group) checks ≡ 1) ps
    → item.checked_on ≡ 0
    → (check_all ps checks item).checked_on ≡ length ps
every_group_checked ps checks item once fresh =
    omega (arith, check_all-counted ps checks item, counted-length ps checks once, fresh)
