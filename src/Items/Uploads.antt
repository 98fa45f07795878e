-- ===== src/Items/Uploads.antt =====
-- Workers.go and Routines.go: where an upload target ends: after failures, after a refusal and after an upload.
use nzbre_x.Prelude.{
  ℕ, zero, suc, ◌≢◌, ltb, ◌+◌, ◌<◌, ◌≡◌, refl, ◌∙◌, inl, inr, arith, Bool, true, false, ◌&&◌, List,
  [], ◌∷◌, if◌then◌else◌, leb, ◌==◌, nat_eq, string_eq, String, ◌=?◌, Bool-cases,
}
use nzbre_x.Prelude.Map.{Map, put, delete, get-put, get-delete}
use nzbre_x.Items.{
  Provider, Item, on, match_this_dl, match_this_up, flag_error, max_item_fails, not_wanted_at,
}
use nzbre_x.Items.Replies.{more_provider, flag_unwanted, reups_reply, uploaded, unwanted, retry}
use nzbre_x.Items.Replies.{other_target}
use nzbre_x.Items.Groups.{in_group, for_group-on}

on-put : (k j : ℕ) (b : Bool) (m : Map ℕ Bool) → on j (put k b m) ≡ (if k == j then b else on j m)
on-put k j b m = ground (arith, get-put k j b m)

on-delete : (k j : ℕ) (m : Map ℕ Bool) → on j (delete k m) ≡ (if k == j then false else on j m)
on-delete k j m = ground (arith, get-delete k j m)

-- An item that is put into the upload queue of a provider again and fails there, so many times.
abbrev pub fail_again : ℕ → ℕ → ℕ → Item → Item
fail_again now pid zero item = item
fail_again now pid (suc n) item =
    flag_error now pid (record (fail_again now pid n item) { flagin_up = true })

-- The marks that FlagError leaves alone.
abbrev Same : ℕ → Item → Item → Type 0
Same j i k =
    (on j i.ignore_ul_on ≡ on j k.ignore_ul_on)
    × (on j i.uploaded_to ≡ on j k.uploaded_to)
    × (on j i.unwanted_on ≡ on j k.unwanted_on)
    × (on j i.dmca_on ≡ on j k.dmca_on)

fail_again-Same : (now pid n j : ℕ) (item : Item) → Same j (fail_again now pid n item) item
unfolding flag_error
fail_again-Same now pid zero j item = (refl, refl, refl, refl)
fail_again-Same now pid (suc n) j item = fail_again-Same now pid n j item

fail_again-fails :
    (now pid n : ℕ) (item : Item) → (fail_again now pid n item).fails ≡ item.fails + n
unfolding flag_error
fail_again-fails now pid zero item = omega arith
fail_again-fails now pid (suc n) item = omega (arith, fail_again-fails now pid n item)

fail_again-available :
    (now pid n j : ℕ) (item : Item)
    → on j (fail_again now pid n item).available_on
      ≡ (if pid == j && ltb 0 n then false else on j item.available_on)
unfolding flag_error
fail_again-available now pid zero j item = ground arith
fail_again-available now pid (suc n) j item = ground (
  arith,
  fail_again-available now pid n j item,
  on-delete pid j (fail_again now pid n item).available_on,
)

fail_again-error :
    (now pid n j : ℕ) (item : Item)
    → item.fails ≡ 0
    → on j (fail_again now pid n item).error_on
      ≡ (if pid == j && leb max_item_fails n then true else on j item.error_on)
unfolding flag_error
fail_again-error now pid zero j item h = ground arith
fail_again-error now pid (suc n) j item h = ground (
  arith,
  h,
  fail_again-error now pid n j item h,
  fail_again-fails now pid n item,
  on-put pid j true (fail_again now pid n item).error_on,
)

-- An item without failures that is wanted at a provider, and that fails there again and again in upload: the
-- provider takes no upload of it from the third failure on, and not before; at every other provider it is wanted as
-- it was.
pub third_failure_gives_up :
    (now pid n : ℕ) (item : Item)
    → item.fails ≡ 0
    → not_wanted_at pid item ≡ false
    → (not_wanted_at pid (fail_again now pid n item) ≡ leb 3 n)
      × ((j : ℕ) → j ≢ pid → not_wanted_at j (fail_again now pid n item) ≡ not_wanted_at j item)
third_failure_gives_up now pid n item h wanted =
    let same = fail_again-Same now pid n in
    (
      ground (
        arith,
        wanted,
        same pid item,
        fail_again-available now pid n pid item,
        fail_again-error now pid n pid item h,
      ),
      λ j other. ground (
        arith,
        other,
        same j item,
        fail_again-available now pid n j item,
        fail_again-error now pid n j item h,
      ),
    )

abbrev mark : ℕ → Item → Item
mark id item = record item { unwanted_on = put id true item.unwanted_on }

other_target-mark :
    (g : String) (id pid : ℕ) (p : Provider) (item : Item)
    → id < pid
    → other_target g pid p (mark id item) ≡ other_target g pid p item
unfolding other_target
other_target-mark g id pid p item past =
    let kept : on pid (put id true item.unwanted_on) ≡ on pid item.unwanted_on =
      ground (arith, on-put id pid true item.unwanted_on) in
    rw kept refl

own_group :
    (g : String) (id : ℕ) (p : Provider) (item : Item)
    → (p.group =? g) ≡ true
    → other_target g id p item ≡ false
unfolding other_target
own_group g id p item e = rw (e, other_target) refl

flag_unwanted_past :
    (g : String) (id k : ℕ) (ps : List Provider) (item : Item)
    → k < id
    → on k (flag_unwanted g id ps item).unwanted_on ≡ on k item.unwanted_on
unfolding flag_unwanted
flag_unwanted_past g id k [] item past = refl
flag_unwanted_past g id k (p ∷ ps) item past = elim (Bool-cases (other_target g id p item)) [
  | inl e ↦ rw (e, flag_unwanted) refl
  | inr e ↦ elim (Bool-cases (p.group =? g)) [
    | inl own ↦
        rw (e, own, flag_unwanted)
          (flag_unwanted_past g (id + 1) k ps (mark id item) (omega arith)
            ∙ ground (arith, on-put id k true item.unwanted_on))
    | inr else_ ↦
        rw (e, else_, flag_unwanted) (flag_unwanted_past g (id + 1) k ps item (omega arith))
  ]
]

-- The loop that marks an item as unwanted reaches a provider of the group at `k`.
abbrev pub reaches : String → ℕ → List Provider → Item → ℕ → Bool
reaches g id [] item k = false
reaches g id (p ∷ ps) item k =
    if other_target g id p item
    then false
    else if id == k
    then p.group =? g
    else reaches g (id + 1) ps item k

reaches-mark :
    (g : String) (id from k : ℕ) (ps : List Provider) (item : Item)
    → id < from
    → reaches g from ps (mark id item) k ≡ reaches g from ps item k
reaches-mark g id from k [] item past = refl
reaches-mark g id from k (p ∷ ps) item past =
    rw
      (
        other_target-mark g id from p item past,
        reaches-mark g id (from + 1) k ps item (omega arith),
      )
      refl

flag_unwanted_at :
    (g : String) (id k : ℕ) (ps : List Provider) (item : Item)
    → on k (flag_unwanted g id ps item).unwanted_on
      ≡ (if reaches g id ps item k then true else on k item.unwanted_on)
unfolding flag_unwanted
flag_unwanted_at g id k [] item = refl
flag_unwanted_at g id k (p ∷ ps) item = elim (Bool-cases (other_target g id p item)) [
  | inl e ↦ rw (e, flag_unwanted) refl
  | inr e ↦ elim (Bool-cases (p.group =? g)) [
    | inl own ↦
        rw (e, own, flag_unwanted)
          (ground (
            arith,
            flag_unwanted_at g (id + 1) k ps (mark id item),
            reaches-mark g id (id + 1) k ps item,
            flag_unwanted_past g (id + 1) k ps (mark id item),
            on-put id k true item.unwanted_on,
          ))
    | inr else_ ↦
        rw (e, else_, flag_unwanted)
          (ground
            (arith, flag_unwanted_at g (id + 1) k ps item, flag_unwanted_past g (id + 1) k ps item))
  ]
]

-- After a server refused an item without an error (437), the providers that are newly marked as unwanted are those of its group
-- that stand in the list before any provider of another group that could still take the item: the search for such a
-- provider ends the loop that marks, and a provider of the group behind it keeps its entry.
pub unwanted_reply :
    (now : ℕ) (ps : List Provider) (p : Provider) (pid k : ℕ) (item : Item)
    → on k (reups_reply now ps p pid (unwanted, false) item).unwanted_on
      ≡ (if reaches p.group 0 ps item k then true else on k item.unwanted_on)
unfolding reups_reply
unwanted_reply now ps p pid k item = elim (Bool-cases (more_provider p.group 0 ps item)) [
  | inl e ↦ rw (e, reups_reply) (flag_unwanted_at p.group 0 k ps item)
  | inr e ↦ rw (e, reups_reply) (flag_unwanted_at p.group 0 k ps item)
]

abbrev sent_to : ℕ → Item → Item
sent_to id i = record i {
  uploaded_to = put id true i.uploaded_to;
  missing_on = delete id i.missing_on;
}

-- After a successful upload, the providers of the group, and no others, have the item as uploaded and not as missing, it is out
-- of the upload queue with no failures, and its article is freed.
uploaded_reply :
    (now : ℕ) (ps : List Provider) (p : Provider) (pid k : ℕ) (item : Item)
    → (on k (reups_reply now ps p pid (uploaded, false) item).uploaded_to
        ≡ (if in_group p.group 0 ps k then true else on k item.uploaded_to))
      × (on k (reups_reply now ps p pid (uploaded, false) item).missing_on
          ≡ (if in_group p.group 0 ps k then false else on k item.missing_on))
      × (match_this_up (reups_reply now ps p pid (uploaded, false) item) ≡ false)
      × ((reups_reply now ps p pid (uploaded, false) item).fails ≡ 0)
unfolding reups_reply match_this_up
uploaded_reply now ps p pid k item = (
  for_group-on (λ i. on k i.uploaded_to) true p.group sent_to k 0 ps item
      (λ j i e. ground (arith, on-put j k true i.uploaded_to, e))
      (λ i. ground (arith, on-put k k true i.uploaded_to)),
  for_group-on (λ i. on k i.missing_on) false p.group sent_to k 0 ps item
      (λ j i e. ground (arith, on-delete j k i.missing_on, e))
      (λ i. ground (arith, on-delete k k i.missing_on)),
  refl,
  refl,
)

-- After a server asked to try an upload again later (436), a downloaded item is marked for a retry at the provider, but
-- its article is freed: it is then a candidate neither for an upload nor for a download, with the cache on or off.
pub retry_reply :
    (now : ℕ) (ps : List Provider) (p : Provider) (pid : ℕ) (cache_on : Bool) (item : Item)
    → item.flagis_dl ≡ true
    → (on pid (reups_reply now ps p pid (retry, false) item).retry_on ≡ true)
      × ((reups_reply now ps p pid (retry, false) item).retry_in ≡ now + 15)
      × (match_this_up (reups_reply now ps p pid (retry, false) item) ≡ false)
      × (match_this_dl cache_on (reups_reply now ps p pid (retry, false) item) ≡ false)
unfolding reups_reply match_this_up match_this_dl
retry_reply now ps p pid true item got =
    (ground (arith, on-put pid pid true item.retry_on), refl, refl, ground (arith, got))
retry_reply now ps p pid false item got =
    (ground (arith, on-put pid pid true item.retry_on), refl, refl, ground (arith, got))
