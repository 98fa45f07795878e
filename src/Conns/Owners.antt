-- ===== src/Conns/Owners.antt =====
-- ConnPool.go: the count of open connections, and who has each of them.
use nzbre_x.Prelude.{
  ℕ, ◌+◌, ◌≤◌, ◌≡◌, refl, inl, inr, arith, true, List, [], ◌∷◌, if◌then◌else◌, ltb, leb, ◌==◌,
  ==_iff, length, tally, tally-append, length-append, Bool-cases,
}
use nzbre_x.Conns.{Pool, new_conn_pool, drop_id, holds, close_conn, park_conn}

abbrev pub owners : ℕ → Pool → ℕ
owners c p = tally (λ e. e.0 == c) p.idle + holds c p.in_use

-- openConns counts the idle connections, those in use and the dials that run, and stays within MaxConns; a
-- connection is idle or in use at most once, and there is none beyond the last ID.
pub record Inv (p : Pool) : Type 0 where
  pub counted : p.open_conns ≡ length p.idle + length p.in_use + p.dialing
  pub bounded : p.open_conns ≤ p.max_conns
  pub once : (c : ℕ) → owners c p ≤ (if leb c p.next_conn_id then 1 else 0)

pub new_conn_pool-Inv : (max : ℕ) → Inv (new_conn_pool max)
unfolding new_conn_pool
new_conn_pool-Inv max = record { counted = refl; bounded = omega arith; once = λ c. ground arith }

length-drop_id :
    (c : ℕ) (ds : List ℕ) → ltb 0 (holds c ds) ≡ true → length (drop_id c ds) + 1 ≡ length ds
unfolding drop_id
length-drop_id c [] h = cc
length-drop_id c (d ∷ ds) h = ground (arith, length-drop_id c ds)

pub holds-drop_id :
    (c k : ℕ) (ds : List ℕ)
    → ltb 0 (holds c ds) ≡ true
    → holds k (drop_id c ds) + (if c == k then 1 else 0) ≡ holds k ds
unfolding drop_id
holds-drop_id c k [] h = cc
holds-drop_id c k (d ∷ ds) h =
    ground (arith, holds-drop_id c k ds, ==_iff d c, ==_iff c k, ==_iff d k)

pub close_conn-Inv : (c : ℕ) (p : Pool) → Inv p → Inv (close_conn c p)
unfolding close_conn
close_conn-Inv c p v = elim (Bool-cases (ltb 0 (holds c p.in_use))) [
  | inr e ↦ rw (e, close_conn) v
  | inl e ↦
      rw (e, close_conn)
        (record {
          counted = omega (arith, v.counted, length-drop_id c p.in_use e);
          bounded = omega (arith, v.bounded);
          once = λ k. ground (arith, v.once k, holds-drop_id c k p.in_use e);
        })
]

-- With a connection in hand, there is room for it in the pool.
pub room :
    (c : ℕ) (p : Pool)
    → Inv p
    → ltb 0 (holds c p.in_use) ≡ true
    → ltb (length p.idle) p.max_conns ≡ true
room c p v e = ground (arith, v.counted, v.bounded, length-drop_id c p.in_use e)

pub park_conn-Inv :
    (now c : ℕ) (p : Pool) → ltb 0 (holds c p.in_use) ≡ true → Inv p → Inv (park_conn now c p)
unfolding park_conn
park_conn-Inv now c p e v =
    rw (room c p v e, park_conn)
      (record {
        counted =
            omega
              (arith, v.counted, length-drop_id c p.in_use e, length-append p.idle ((c, now) ∷ []));
        bounded = v.bounded;
        once = λ k. ground (
          arith,
          v.once k,
          holds-drop_id c k p.in_use e,
          tally-append (λ x. x.0 == k) p.idle ((c, now) ∷ []),
        );
      })
