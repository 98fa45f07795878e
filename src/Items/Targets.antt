-- ===== src/Items/Targets.antt =====
-- Workers.go: hasUploadTarget beside pushUP, and the download and the upload queue.
use nzbre_x.Prelude.{
  ℕ, ◌+◌, ◌≡◌, inl, inr, arith, Bool, true, false, not, ◌&&◌, List, [], ◌∷◌, Option, none, some,
  if◌then◌else◌, ltb, nat_eq, string_eq, String, Bool-cases,
}
use nzbre_x.Prelude.Map.{Map, put}
use nzbre_x.Items.{
  Provider, Options, Item, match_this_dl, match_this_up, provider_at, has_upload_target,
}
use nzbre_x.Items.Pushes.{Pushed, dl_loop, push_dl, up_loop, push_up}
use nzbre_x.Prelude.{All}

-- The key of every entry is the index of a provider.
abbrev pub InRange : List Provider → Map ℕ Bool → Type 0
InRange providers visit = All (λ e. (p : Provider) × (provider_at e.0 providers ≡ some p)) visit

-- What pushUP comes to: the item went out, or some target only waits for its retry.
abbrev pub finds_target : Option Pushed → Option Bool
finds_target none = none
finds_target (some r) = some (elim r.sent [ none ↦ ltb 0 r.inretry | some _ ↦ true ])

up_loop_target :
    (providers : List Provider) (room : String → Bool) (now : ℕ) (visit : Map ℕ Bool)
    (noup inretry queue : ℕ) (item : Item)
    → ((g : String) → room g ≡ true)
    → InRange providers visit
    → finds_target (up_loop providers room now visit noup inretry queue item)
      ≡ (if ltb 0 inretry then some true else has_upload_target providers item visit)
unfolding up_loop has_upload_target
up_loop_target providers room now [] noup inretry queue item free within = ground arith
up_loop_target providers room now ((pid, miss) ∷ visit) noup inretry queue item free
      ((p, e), within) =
    rw (e, up_loop, has_upload_target)
      (ground (
        arith,
        free p.group,
        up_loop_target providers room now visit noup inretry queue item free within,
        up_loop_target providers room now visit (noup + 1) inretry queue item free within,
        up_loop_target providers room now visit noup (inretry + 1) queue item free within,
      ))

-- Where every channel has room, uploads are allowed, no check phase is waited for and the item is a candidate for
-- an upload, pushUP sends the item or counts a pending retry exactly if hasUploadTarget reports a target.
pub push_up_target :
    (o : Options) (providers : List Provider) (room : String → Bool) (done : Bool) (now : ℕ)
    (visit : Map ℕ Bool) (queue : ℕ) (item : Item)
    → ((g : String) → room g ≡ true)
    → InRange providers visit
    → (o.check_first && not done) ≡ false
    → match_this_up item ≡ true
    → finds_target (push_up o providers room done now true visit queue item)
      ≡ has_upload_target providers item visit
unfolding push_up
push_up_target o providers room done now visit queue item free within now_on ready =
    rw (now_on, ready, push_up) (up_loop_target providers room now visit 0 0 queue item free within)

abbrev pub in_both : Item → Bool
in_both item = item.flagin_dl && item.flagin_up

abbrev pub queued_once : Option Pushed → Bool
queued_once none = true
queued_once (some r) = not (in_both r.item)

dl_loop_once :
    (providers : List Provider) (room : String → Bool) (visit : Map ℕ Bool) (queue : ℕ)
    (item : Item)
    → item.flagin_up ≡ false
    → queued_once (dl_loop providers room visit queue item) ≡ true
unfolding dl_loop
dl_loop_once providers room [] queue item up = ground (arith, up)
dl_loop_once providers room ((pid, avail) ∷ visit) queue item up = ground (
  arith,
  up,
  dl_loop_once providers room visit queue item up,
  dl_loop_once providers room visit queue
      (record item { ignore_dl_on = put pid true item.ignore_dl_on }) up,
)

up_loop_once :
    (providers : List Provider) (room : String → Bool) (now : ℕ) (visit : Map ℕ Bool)
    (noup inretry queue : ℕ) (item : Item)
    → item.flagin_dl ≡ false
    → queued_once (up_loop providers room now visit noup inretry queue item) ≡ true
unfolding up_loop
up_loop_once providers room now [] noup inretry queue item dl = ground (arith, dl)
up_loop_once providers room now ((pid, miss) ∷ visit) noup inretry queue item dl = ground (
  arith,
  dl,
  up_loop_once providers room now visit noup inretry queue item dl,
  up_loop_once providers room now visit (noup + 1) inretry queue item dl,
  up_loop_once providers room now visit noup (inretry + 1) queue item dl,
)

match_this_dl-free :
    (cache_on : Bool) (item : Item) → match_this_dl cache_on item ≡ true → item.flagin_up ≡ false
unfolding match_this_dl
match_this_dl-free true item h = ground (arith, h)
match_this_dl-free false item h = ground (arith, h)

match_this_up-free : (item : Item) → match_this_up item ≡ true → item.flagin_dl ≡ false
unfolding match_this_up
match_this_up-free item h = ground (arith, h)

push_dl_once :
    (o : Options) (providers : List Provider) (room : String → Bool) (done mem allow : Bool)
    (visit : Map ℕ Bool) (queue : ℕ) (item : Item)
    → in_both item ≡ false
    → queued_once (push_dl o providers room done mem allow visit queue item) ≡ true
unfolding push_dl
push_dl_once o providers room done mem allow visit queue item apart =
    let i : Item = if o.check_first then record item { flagin_dlmem = false } else item in
    let kept : in_both i ≡ false = ground (arith, apart) in
    elim (Bool-cases (match_this_dl o.cache_on i)) [
      | inl ready ↦ ground (
        arith,
        apart,
        kept,
        dl_loop_once providers room visit queue i (match_this_dl-free o.cache_on i ready),
      )
      | inr busy ↦ ground (arith, apart, kept, busy)
    ]

push_up_once :
    (o : Options) (providers : List Provider) (room : String → Bool) (done : Bool) (now : ℕ)
    (allow : Bool) (visit : Map ℕ Bool) (queue : ℕ) (item : Item)
    → in_both item ≡ false
    → queued_once (push_up o providers room done now allow visit queue item) ≡ true
unfolding push_up
push_up_once o providers room done now allow visit queue item apart =
    elim (Bool-cases (match_this_up item)) [
      | inl ready ↦ ground (
        arith,
        apart,
        up_loop_once providers room now visit 0 0 queue item (match_this_up-free item ready),
      )
      | inr busy ↦ ground (arith, apart, busy)
    ]

-- An item that is not in the download and the upload queue at once is still not after pushDL or pushUP, whatever
-- the options, the channels and the providers.
pub one_queue :
    (o : Options) (providers : List Provider) (room : String → Bool) (done mem allow : Bool)
    (now : ℕ) (visit : Map ℕ Bool) (queue : ℕ) (item : Item)
    → in_both item ≡ false
    → (queued_once (push_dl o providers room done mem allow visit queue item) ≡ true)
      × (queued_once (push_up o providers room done now allow visit queue item) ≡ true)
one_queue o providers room done mem allow now visit queue item apart = (
  push_dl_once o providers room done mem allow visit queue item apart,
  push_up_once o providers room done now allow visit queue item apart,
)
