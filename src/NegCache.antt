-- ===== src/NegCache.antt =====
-- ProxyHelper.go: the proxy's cache of articles that a provider group does not have. A time is a number of
-- ticks; the cache is a map by group of maps by article to the time when the entry expires.
pub mod Lookups
pub mod Purging
pub mod Bound
use nzbre_x.Prelude.{
  ℕ, ◌+◌, ◌-◌, Bool, true, false, List, [], ◌∷◌, Option, none, some, if◌then◌else◌, not, ltb, leb,
  ◌==◌, keep, tally, length, nat_eq, list_eq,
}
use nzbre_x.Nntp.{Line}
use nzbre_x.Prelude.Map.{Map, get, put}

-- articleNotFound: the map, and the number of its entries over all groups.
pub record NegCache : Type 0 where
  pub groups : Map Line (Map Line ℕ)
  pub n : ℕ

unfoldable pub no_entries : NegCache
no_entries = record { groups = []; n = 0 }

-- `exp, ok := m[key]; ok && time.Now().Before(exp)`, where the map may be nil.
unfoldable pub is_fresh : ℕ → Option ℕ → Bool
is_fresh now none = false
is_fresh now (some expires) = ltb now expires

unfoldable pub is_article_not_found : ℕ → Line → Line → NegCache → Bool
unfolding is_fresh
is_article_not_found now key group c = elim (get group c.groups) [
  | none ↦ false
  | some m ↦ is_fresh now (get key m)
]

-- The map of a group, empty if it has none.
abbrev pub group_of : Line → Map Line (Map Line ℕ) → Map Line ℕ
group_of group groups = elim (get group groups) [ none ↦ [] | some m ↦ m ]

-- SetArticleNotFoundAtProviderGroup; `most` is negCacheMax, `ttl` negCacheTTL. A group that is not
-- there yet gets its map before the cache is found to be full.
unfoldable pub set_article_not_found : (most ttl now : ℕ) → Line → Line → NegCache → NegCache
set_article_not_found most ttl now key group c =
    let m = group_of group c.groups in
    let known = record c { groups = put group m c.groups } in
    let stored = put group (put key (now + ttl) m) c.groups in
    elim (get key m) [
      | some _ ↦ record c { groups = stored }
      | none ↦ if leb most c.n then known else record { groups = stored; n = c.n + 1 }
    ]

abbrev pub expires_after : ℕ → Line × ℕ → Bool
expires_after now (key, expires) = ltb now expires

-- The loop of purgeNegCache over the groups, with n.
unfoldable pub purge_groups : ℕ → Map Line (Map Line ℕ) → ℕ → NegCache
purge_groups now [] n = record { groups = []; n = n }
purge_groups now ((group, m) ∷ groups) n =
    let left = keep (expires_after now) m in
    let rest = purge_groups now groups (n - tally (λ e. not (expires_after now e)) m) in
    if length left == 0 then rest else record rest { groups = (group, left) ∷ rest.groups }

unfoldable pub purge_neg_cache : ℕ → NegCache → NegCache
unfolding purge_groups
purge_neg_cache now c = purge_groups now c.groups c.n

pub data Call : Type 0 where
  set : (now : ℕ) → (key group : Line) → Call
  purge : (now : ℕ) → Call

unfoldable pub run_calls : (most ttl : ℕ) → List Call → NegCache → NegCache
unfolding set_article_not_found purge_neg_cache
run_calls most ttl [] c = c
run_calls most ttl (set now key group ∷ calls) c =
    run_calls most ttl calls (set_article_not_found most ttl now key group c)
run_calls most ttl (purge now ∷ calls) c = run_calls most ttl calls (purge_neg_cache now c)
