-- ===== src/NegCache/Purging.antt =====
-- ProxyHelper.go: what is found in the cache after the janitor ran.
use nzbre_x.Prelude.{
  ℕ, ◌-◌, ◌≤◌, true, false, [], ◌∷◌, none, some, ◌≡◌, refl, sym, ap, ◌∙◌, not, ltb, ◌==◌, keep,
  tally, length, nat_eq, list_eq, ◌=?◌, arith, same_list_iff, Bool-cases, inl, inr,
}
use nzbre_x.Nntp.{Line}
use nzbre_x.Prelude.Map.{Map, get}
use nzbre_x.Prelude.Map.Values.{get_further}
use nzbre_x.NegCache.{
  NegCache, is_fresh, is_article_not_found, group_of, expires_after, purge_groups, purge_neg_cache,
}
use nzbre_x.NegCache.Lookups.{lookup_in_group}

-- No key stands twice in a Go map.
unfoldable pub NoTwice {ℓ} : {V : Type ℓ} → Map Line V → Type ℓ
NoTwice [] = Unit
NoTwice ((k, v) ∷ m) = (get k m ≡ none) × NoTwice m

get_here {ℓ} :
    {V : Type ℓ} (k j : Line) (w : V) (m : Map Line V)
    → (j =? k) ≡ true
    → get k ((j, w) ∷ m) ≡ some w
unfolding get
get_here k j w m e = rw (e, get) refl

absent_stays :
    (k : Line) (now : ℕ) (m : Map Line ℕ)
    → get k m ≡ none
    → get k (keep (expires_after now) m) ≡ none
absent_stays k now [] h = h
absent_stays k now ((j, w) ∷ m) h = elim (Bool-cases (j =? k)) [
  | inl e ↦ absurd (cc (get_here k j w m e, h))
  | inr e ↦
      let rest = absent_stays k now m (get_further k j w m e ∙ h) in
      elim (Bool-cases (ltb now w)) [
        | inl t ↦ rw t (sym (get_further k j w (keep (expires_after now) m) e) ∙ rest)
        | inr t ↦ rw t rest
      ]
]

stale : (later w : ℕ) → ltb later w ≡ false → is_fresh later none ≡ is_fresh later (some w)
unfolding is_fresh
stale later w h = sym h

-- The fresh entries of a group, looked up no earlier than they were kept.
is_fresh-keep :
    (k : Line) (now later : ℕ) (m : Map Line ℕ)
    → NoTwice m
    → now ≤ later
    → is_fresh later (get k (keep (expires_after now) m)) ≡ is_fresh later (get k m)
unfolding NoTwice
is_fresh-keep k now later [] d h = refl
is_fresh-keep k now later ((j, w) ∷ m) d h =
    let left = keep (expires_after now) m in
    elim (Bool-cases (j =? k)) [
      | inl e ↦ elim (Bool-cases (ltb now w)) [
        | inl t ↦ rw t (ap (is_fresh later) (get_here k j w left e ∙ sym (get_here k j w m e)))
        | inr t ↦
            let same : j ≡ k = (same_list_iff j k).0 e in
            let gone : get k left ≡ none =
              absent_stays k now m (ap (λ x. get x m) (sym same) ∙ d.0) in
            rw t (
              ap (is_fresh later) gone
              ∙ stale later w (ground (arith, t, h))
              ∙ ap (is_fresh later) (sym (get_here k j w m e)))
      ]
      | inr e ↦
          let rest = is_fresh-keep k now later m d.1 h in
          let behind = ap (is_fresh later) (get_further k j w m e) in
          elim (Bool-cases (ltb now w)) [
            | inl t ↦ rw t (ap (is_fresh later) (sym (get_further k j w left e)) ∙ rest ∙ behind)
            | inr t ↦ rw t (rest ∙ behind)
          ]
    ]

-- The maps of all groups.
unfoldable pub AllNoTwice : Map Line (Map Line ℕ) → Type 0
AllNoTwice [] = Unit
AllNoTwice ((g, m) ∷ groups) = NoTwice m × AllNoTwice groups

group_here :
    (group g : Line) (m : Map Line ℕ) (groups : Map Line (Map Line ℕ))
    → (g =? group) ≡ true
    → group_of group ((g, m) ∷ groups) ≡ m
group_here group g m groups e = rw (group_of, get_here group g m groups e) refl

group_further :
    (group g : Line) (m : Map Line ℕ) (groups : Map Line (Map Line ℕ))
    → (g =? group) ≡ false
    → group_of group ((g, m) ∷ groups) ≡ group_of group groups
group_further group g m groups e = rw (group_of, sym (get_further group g m groups e)) refl

group_missing :
    (group : Line) (groups : Map Line (Map Line ℕ))
    → get group groups ≡ none
    → group_of group groups ≡ []
group_missing group groups e = rw (group_of, e) refl

nothing_left : (m : Map Line ℕ) → (length m == 0) ≡ true → m ≡ []
nothing_left [] h = refl
nothing_left (x ∷ m) h = absurd (ground (arith, h))

purge-lookup_groups :
    (now later : ℕ) (key group : Line) (groups : Map Line (Map Line ℕ)) (n : ℕ)
    → NoTwice groups
    → AllNoTwice groups
    → now ≤ later
    → (get group groups ≡ none → get group (purge_groups now groups n).groups ≡ none)
      × (is_fresh later (get key (group_of group (purge_groups now groups n).groups))
          ≡ is_fresh later (get key (group_of group groups)))
unfolding purge_groups NoTwice AllNoTwice
purge-lookup_groups now later key group [] n d a h = (λ g. g, refl)
purge-lookup_groups now later key group ((g, m) ∷ groups) n d a h =
    let left = keep (expires_after now) m in
    let rest = purge_groups now groups (n - tally (λ e. not (expires_after now e)) m) in
    let later_groups =
      purge-lookup_groups now later key group groups (n - tally (λ e. not (expires_after now e)) m)
        d.1 a.1 h in
    let hit = λ (w : Map Line ℕ). is_fresh later (get key w) in
    let own : hit left ≡ hit m = is_fresh-keep key now later m a.0 h in
    elim (Bool-cases (g =? group)) [
      | inl e ↦
          let found = get_here group g m groups e in
          let here = group_here group g m groups e in
          elim (Bool-cases (length left == 0)) [
            | inl l ↦
                let same : g ≡ group = (same_list_iff g group).0 e in
                let gone : get group rest.groups ≡ none =
                  later_groups.0 (ap (λ x. get x groups) (sym same) ∙ d.0) in
                rw (l, purge_groups)
                  (
                    λ o. absurd (cc (found, o)),
                    ap hit (group_missing group rest.groups gone ∙ sym (nothing_left left l))
                        ∙ own
                        ∙ ap hit (sym here),
                  )
            | inr l ↦
                rw (l, purge_groups)
                  (
                    λ o. absurd (cc (found, o)),
                    ap hit (group_here group g left rest.groups e) ∙ own ∙ ap hit (sym here),
                  )
          ]
      | inr e ↦
          let behind = group_further group g m groups e in
          elim (Bool-cases (length left == 0)) [
            | inl l ↦
                rw (l, purge_groups)
                  (
                    λ o. later_groups.0 (get_further group g m groups e ∙ o),
                    later_groups.1 ∙ ap hit (sym behind),
                  )
            | inr l ↦
                rw (l, purge_groups)
                  (
                    λ o.
                        sym (get_further group g left rest.groups e)
                        ∙ later_groups.0 (get_further group g m groups e ∙ o),
                    ap hit (group_further group g left rest.groups e)
                        ∙ later_groups.1
                        ∙ ap hit (sym behind),
                  )
          ]
    ]

-- The janitor takes nothing away that could still be found: from then on each lookup says what it would
-- say without it, as no group and no article stands twice.
pub purge-lookup :
    (now later : ℕ) (key group : Line) (c : NegCache)
    → NoTwice c.groups
    → AllNoTwice c.groups
    → now ≤ later
    → is_article_not_found later key group (purge_neg_cache now c)
      ≡ is_article_not_found later key group c
unfolding purge_neg_cache
purge-lookup now later key group c d a h =
    lookup_in_group later key group (purge_neg_cache now c)
    ∙ (purge-lookup_groups now later key group c.groups c.n d a h).1
    ∙ sym (lookup_in_group later key group c)
