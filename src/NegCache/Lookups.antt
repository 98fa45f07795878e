-- ===== src/NegCache/Lookups.antt =====
-- ProxyHelper.go: what is found in the cache after a miss was cached.
use nzbre_x.Prelude.{
  ℕ, ◌+◌, ◌<◌, false, ◌≡◌, refl, sym, ap, ◌∙◌, if◌then◌else◌, ◌&&◌, ltb, leb, nat_eq, list_eq, ◌=?◌,
  arith, same_list_iff, Bool-cases, Option-cases, inl, inr,
}
use nzbre_x.Nntp.{Line}
use nzbre_x.Prelude.Map.{Map, get, put, get-put}
use nzbre_x.NegCache.{NegCache, is_fresh, is_article_not_found, group_of, set_article_not_found}

pub lookup_in_group :
    (now : ℕ) (key group : Line) (c : NegCache)
    → is_article_not_found now key group c ≡ is_fresh now (get key (group_of group c.groups))
unfolding is_article_not_found is_fresh get
lookup_in_group now key group c = elim (Option-cases (get group c.groups)) [
  | inl g ↦ rw (g, is_article_not_found, group_of) refl
  | inr (m, g) ↦ rw (g, is_article_not_found, group_of) refl
]

group_of-put :
    (g group : Line) (m : Map Line ℕ) (groups : Map Line (Map Line ℕ))
    → group_of g (put group m groups) ≡ (if group =? g then m else group_of g groups)
group_of-put g group m groups = elim (Bool-cases (group =? g)) [
  | inl e ↦ rw (group_of, get-put group g m groups, e) refl
  | inr e ↦ rw (group_of, get-put group g m groups, e) refl
]

stored_lookup :
    (key k : Line) (expires later : ℕ) (m : Map Line ℕ)
    → is_fresh later (get k (put key expires m))
      ≡ (if key =? k then ltb later expires else is_fresh later (get k m))
unfolding is_fresh
stored_lookup key k expires later m = elim (Bool-cases (key =? k)) [
  | inl e ↦ rw (get-put key k expires m, e) refl
  | inr e ↦ rw (get-put key k expires m, e) refl
]

-- The lookup in the maps with a miss stored.
store_lookup :
    (key group k g : Line) (expires later : ℕ) (groups : Map Line (Map Line ℕ))
    → is_fresh later
        (get k (group_of g (put group (put key expires (group_of group groups)) groups)))
      ≡ (if (group =? g) && (key =? k)
          then ltb later expires
          else is_fresh later (get k (group_of g groups)))
store_lookup key group k g expires later groups = elim (Bool-cases (group =? g)) [
  | inl e ↦
      let same : group ≡ g = (same_list_iff group g).0 e in
      let at_group : group_of g groups ≡ group_of group groups =
        ap (λ x. group_of x groups) (sym same) in
      rw (group_of-put g group (put key expires (group_of group groups)) groups, e, at_group)
        (stored_lookup key k expires later (group_of group groups))
  | inr e ↦ rw (group_of-put g group (put key expires (group_of group groups)) groups, e) refl
]

-- A miss that is cached while there is room is found for negCacheTTL, and no other lookup changes.
set-lookup :
    (most ttl now later : ℕ) (key group k g : Line) (c : NegCache)
    → c.n < most
    → is_article_not_found later k g (set_article_not_found most ttl now key group c) ≡ (
        if (group =? g) && (key =? k)
        then ltb later (now + ttl)
        else is_article_not_found later k g c)
unfolding set_article_not_found
set-lookup most ttl now later key group k g c room =
    let stored = store_lookup key group k g (now + ttl) later c.groups in
    let found : (n : ℕ)
        → is_article_not_found later k g (record {
          groups = put group (put key (now + ttl) (group_of group c.groups)) c.groups;
          n = n;
        })
          ≡ (if (group =? g) && (key =? k)
              then ltb later (now + ttl)
              else is_article_not_found later k g c) =
      λ n.
        lookup_in_group later k g _
        ∙ stored
        ∙ ap (λ b. if (group =? g) && (key =? k) then ltb later (now + ttl) else b)
            (sym (lookup_in_group later k g c)) in
    let full : leb most c.n ≡ false = ground (arith, room) in
    elim (Option-cases (get key (group_of group c.groups))) [
      | inl e ↦ rw (e, full, set_article_not_found) (found (c.n + 1))
      | inr (x, e) ↦ rw (e, set_article_not_found) (found c.n)
    ]
