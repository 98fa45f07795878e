-- ===== src/Proxy/Order.antt =====
-- Proxy.go: in what order a command may use connections and reply. At most one upstream connection is held at a time; it is
-- parked if all that was sent was answered to the end and closed if not, and the client is only written to
-- while none is held.
use nzbre_x.Prelude.{
  ℕ, ◌+◌, ◌≤◌, List, [], ◌∷◌, ◌++◌, ◌≡◌, ◌∙◌, arith, Option, none, some, if◌then◌else◌, ◌==◌,
  Option-cases, inl, inr, All,
}
use nzbre_x.Proxy.{Event, taken, lost, parked, closed, replied, StatusLine, Upstream, Tried}

-- The connection that a handler has: none, one of a provider, or one that is of no use any more.
pub data Holding : Type 0 where
  free : Holding
  held dead : ℕ → Holding

unfoldable pub after : Holding → Event → Option Holding
after free (taken id) = some (held id)
after free (replied code) = some free
after (held id) (lost j) = if j == id then some (dead id) else none
after (held id) (parked j) = if j == id then some free else none
after (dead id) (closed j) = if j == id then some free else none
after _ _ = none

-- `none` is an event out of order.
unfoldable pub after_all : Holding → List Event → Option Holding
unfolding after
after_all h [] = some h
after_all h (e ∷ events) = elim (after h e) [ none ↦ none | some h' ↦ after_all h' events ]

unfoldable pub replies : List Event → ℕ
replies [] = 0
replies (replied code ∷ events) = replies events + 1
replies (taken id ∷ events) = replies events
replies (lost id ∷ events) = replies events
replies (parked id ∷ events) = replies events
replies (closed id ∷ events) = replies events

-- The events are in order, lead from one state to the other, and have so many replies among them.
pub record Leads (h : Holding) (events : List Event) (h' : Holding) (n : ℕ) : Type 0 where
  pub in_order : after_all h events ≡ some h'
  pub count : replies events ≡ n

replies-append : (xs ys : List Event) → replies (xs ++ ys) ≡ replies xs + replies ys
unfolding replies
replies-append [] ys = omega arith
replies-append (replied code ∷ xs) ys = omega (arith, replies-append xs ys)
replies-append (taken id ∷ xs) ys = replies-append xs ys
replies-append (lost id ∷ xs) ys = replies-append xs ys
replies-append (parked id ∷ xs) ys = replies-append xs ys
replies-append (closed id ∷ xs) ys = replies-append xs ys

after_all-append :
    (xs ys : List Event) (h h' : Holding)
    → after_all h xs ≡ some h'
    → after_all h (xs ++ ys) ≡ after_all h' ys
unfolding after_all
after_all-append [] ys h h' e = ground (arith, e)
after_all-append (x ∷ xs) ys h h' e = elim (Option-cases (after h x)) [
  | inl n ↦ absurd (cc (rw (n, after_all) at e))
  | inr (k, s) ↦ rw (s, after_all) (after_all-append xs ys k h' (rw (s, after_all) at e))
]

pub Leads-append :
    {h h' h'' : Holding} {m n : ℕ} (xs ys : List Event)
    → Leads h xs h' m
    → Leads h' ys h'' n
    → Leads h (xs ++ ys) h'' (m + n)
Leads-append {h} {h'} xs ys p q = record {
  in_order = after_all-append xs ys h h' p.in_order ∙ q.in_order;
  count = omega (arith, replies-append xs ys, p.count, q.count);
}

pub Leads-next :
    {h h' h'' : Holding} {n : ℕ} (xs ys : List Event)
    → Leads h xs h' 0
    → Leads h' ys h'' n
    → Leads h (xs ++ ys) h'' n
Leads-next {h} {h'} xs ys p q = record {
  in_order = after_all-append xs ys h h' p.in_order ∙ q.in_order;
  count = omega (arith, replies-append xs ys, p.count, q.count);
}

-- From taking a connection on.
pub Leads-taken :
    (id n : ℕ) (events : List Event) {h : Holding}
    → Leads (held id) events h n
    → Leads free (taken id ∷ events) h n
unfolding after_all replies
Leads-taken id n events p = record { in_order = p.in_order; count = p.count }

-- What one provider comes to leaves no connection behind, and has a reply exactly if the client is done with.
abbrev pub TriedWell : Holding → Tried → Type 0
TriedWell h t = Leads h t.events free (if t.done then 1 else 0)

-- A status line has a code of three digits; net/textproto's readCodeLine refuses any other.
abbrev pub HasCode : Option StatusLine → Type 0
HasCode none = Unit
HasCode (some s) = 100 ≤ s.code

abbrev pub HaveCodes : List Upstream → Type 0
HaveCodes us = All (λ u. All HasCode u.answers) us
