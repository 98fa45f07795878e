-- ===== src/NegCache/Bound.antt =====
-- ProxyHelper.go: the count of the cache's entries, and its limit.
use nzbre_x.Prelude.{
  ℕ, ◌+◌, ◌-◌, ◌≤◌, Bool, List, [], ◌∷◌, none, some, ◌≡◌, refl, ◌∙◌, not, leb, ◌==◌, keep, tally,
  length, nat_eq, list_eq, ◌=?◌, arith, Bool-cases, Option-cases, inl, inr,
}
use nzbre_x.Nntp.{Line}
use nzbre_x.Prelude.Map.{Map, get, put}
use nzbre_x.Prelude.Map.Values.{length-put_old, get_further}
use nzbre_x.NegCache.{
  NegCache, group_of, set_article_not_found, expires_after, purge_groups, purge_neg_cache, Call,
  set, purge, run_calls,
}

-- The entries of all groups.
unfoldable pub total : Map Line (Map Line ℕ) → ℕ
total [] = 0
total ((group, m) ∷ groups) = length m + total groups

pub record IsValid (most : ℕ) (c : NegCache) : Type 0 where
  pub counted : c.n ≡ total c.groups
  pub limited : c.n ≤ most

-- Storing a group's map.
total-put :
    (group : Line) (m : Map Line ℕ) (groups : Map Line (Map Line ℕ))
    → total (put group m groups) + length (group_of group groups) ≡ total groups + length m
unfolding total put get
total-put group m [] = omega arith
total-put group m ((g, w) ∷ groups) = elim (Bool-cases (g =? group)) [
  | inl e ↦ rw (e, put, group_of, get) (omega arith)
  | inr e ↦ rw (e, put, group_of, get) (omega (arith, total-put group m groups))
]

length-put_absent :
    (k : Line) (v : ℕ) (m : Map Line ℕ) → get k m ≡ none → length (put k v m) ≡ length m + 1
unfolding put get
length-put_absent k v [] g = omega arith
length-put_absent k v ((j, w) ∷ m) g = elim (Bool-cases (j =? k)) [
  | inl e ↦ let found : get k ((j, w) ∷ m) ≡ some w = rw (e, get) refl in absurd (cc (found, g))
  | inr e ↦ rw (e, put) (omega (arith, length-put_absent k v m (get_further k j w m e ∙ g)))
]

tally-keep :
    (p : Line × ℕ → Bool) (m : Map Line ℕ) → length (keep p m) + tally (λ e. not (p e)) m ≡ length m
tally-keep p [] = omega arith
tally-keep p (x ∷ m) = ground (arith, tally-keep p m)

set-IsValid :
    (most ttl now : ℕ) (key group : Line) (c : NegCache)
    → IsValid most c
    → IsValid most (set_article_not_found most ttl now key group c)
unfolding set_article_not_found
set-IsValid most ttl now key group c v =
    let m = group_of group c.groups in
    let same = total-put group m c.groups in
    let stored = total-put group (put key (now + ttl) m) c.groups in
    elim (Option-cases (get key m)) [
      | inr (x, g) ↦
          rw (g, set_article_not_found)
            (record {
              counted = omega (arith, v.counted, stored, length-put_old key (now + ttl) x m g);
              limited = v.limited;
            })
      | inl g ↦ elim (Bool-cases (leb most c.n)) [
        | inl e ↦
            rw (g, e, set_article_not_found)
              (record { counted = omega (arith, v.counted, same); limited = v.limited })
        | inr e ↦
            rw (g, e, set_article_not_found)
              (record {
                counted = omega (arith, v.counted, stored, length-put_absent key (now + ttl) m g);
                limited = ground (arith, e);
              })
      ]
    ]

purge_groups-counted :
    (now : ℕ) (groups : Map Line (Map Line ℕ)) (n others : ℕ)
    → n ≡ others + total groups
    → ((purge_groups now groups n).n ≡ others + total (purge_groups now groups n).groups)
      × ((purge_groups now groups n).n ≤ n)
unfolding purge_groups total
purge_groups-counted now [] n others h = (h, omega arith)
purge_groups-counted now ((g, m) ∷ groups) n others h =
    let left = keep (expires_after now) m in
    let dropped = tally (λ e. not (expires_after now e)) m in
    let split = tally-keep (expires_after now) m in
    elim (Bool-cases (length left == 0)) [
      | inl e ↦
          let later =
            purge_groups-counted now groups (n - dropped) others (ground (arith, h, split, e)) in
          rw (e, purge_groups) (later.0, omega (arith, later.1))
      | inr e ↦
          let later =
            purge_groups-counted now groups (n - dropped) (others + length left)
              (omega (arith, h, split)) in
          rw (e, purge_groups) (omega (arith, later.0), omega (arith, later.1))
    ]

purge-IsValid :
    (most now : ℕ) (c : NegCache) → IsValid most c → IsValid most (purge_neg_cache now c)
unfolding purge_neg_cache
purge-IsValid most now c v =
    let counted = purge_groups-counted now c.groups c.n 0 (omega (arith, v.counted)) in
    record { counted = omega (arith, counted.0); limited = omega (arith, counted.1, v.limited) }

-- Starting from a cache whose counter n is the number of entries over all groups and at most negCacheMax,
-- as the empty one is, this stays so whatever misses are cached and whenever the janitor runs.
pub run_calls-IsValid :
    (most ttl : ℕ) (calls : List Call) (c : NegCache)
    → IsValid most c
    → IsValid most (run_calls most ttl calls c)
unfolding run_calls
run_calls-IsValid most ttl [] c v = v
run_calls-IsValid most ttl (set now key group ∷ calls) c v =
    run_calls-IsValid most ttl calls _ (set-IsValid most ttl now key group c v)
run_calls-IsValid most ttl (purge now ∷ calls) c v =
    run_calls-IsValid most ttl calls _ (purge-IsValid most now c v)
