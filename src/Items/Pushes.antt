-- ===== src/Items/Pushes.antt =====
-- Workers.go: pushDL and pushUP, which put an item into the download or upload channel of one provider group.
-- A channel is whether it has room for one more; the queue count that goes up before the send and down again
-- where the channel is full is passed along.
use nzbre_x.Prelude.{
  ℕ, ◌+◌, ◌-◌, Bool, true, false, not, ◌&&◌, ◌||◌, List, [], ◌∷◌, Option, none, some, if◌then◌else◌,
  ltb, nat_eq, string_eq, String,
}
use nzbre_x.Prelude.Map.{Map, put, delete}
use nzbre_x.Items.{
  Provider, Options, Item, on, match_this_dl, match_this_up, provider_at, takes_no_upload,
  not_wanted_at,
}

pub record Pushed : Type 0 where
  pub item : Item
  pub sent : Option String  -- the group whose channel took the item
  pub refused : ℕ  -- nodl or noup
  pub inretry : ℕ
  pub failed : Bool  -- an error is returned
  pub queue : ℕ

-- The loop over `availableOn`, in the order in which `range` visits it; `none` is the panic of an index out of range.
unfoldable pub dl_loop : List Provider → (String → Bool) → Map ℕ Bool → ℕ → Item → Option Pushed
dl_loop providers room [] queue item =
    some
      (record { item = item; sent = none; refused = 1; inretry = 0; failed = false; queue = queue })
dl_loop providers room ((pid, avail) ∷ visit) queue item =
    let next = dl_loop providers room visit queue item in
    let next_ignored =
      dl_loop providers room visit queue
        (record item { ignore_dl_on = put pid true item.ignore_dl_on }) in
    if not avail || on pid item.ignore_dl_on || on pid item.missing_on || on pid item.error_on
    then next
    else elim (provider_at pid providers) [
      | none ↦ none
      | some p ↦
          if p.no_download || p.down
          then next_ignored
          else if room p.group
          then some (record {
            item = record item { flagin_dl = true; pushed_dl = item.pushed_dl + 1 };
            sent = some p.group;
            refused = 0;
            inretry = 0;
            failed = false;
            queue = queue + 1;
          })
          else some (record {
            item = item;
            sent = none;
            refused = 0;
            inretry = 0;
            failed = false;
            queue = queue + 1 - 1;
          })
    ]

unfoldable pub push_dl :
    Options
    → List Provider
    → (String → Bool)
    → Bool
    → Bool
    → Bool
    → Map ℕ Bool
    → ℕ
    → Item
    → Option Pushed
unfolding dl_loop match_this_dl
push_dl o providers room segcheckdone mem_avail allow_dl visit queue item =
    if not allow_dl
    then some (nothing item 0)
    else if o.check_first && not segcheckdone
    then some (nothing (record item { flagin_dlmem = true }) 1)
    else if not (match_this_dl o.cache_on released)
    then some (nothing released 1)
    else if not mem_avail
    then some (nothing released 1)
    else dl_loop providers room visit queue released
  where
    released : Item
    released = if o.check_first then record item { flagin_dlmem = false } else item

    nothing : Item → ℕ → Pushed
    nothing i nodl = record {
      item = i;
      sent = none;
      refused = nodl;
      inretry = 0;
      failed = false;
      queue = queue;
    }

-- The loop over `missingOn`; `now` is the time in seconds.
unfoldable pub up_loop :
    List Provider → (String → Bool) → ℕ → Map ℕ Bool → ℕ → ℕ → ℕ → Item → Option Pushed
up_loop providers room now [] noup inretry queue item = some (record {
  item = item;
  sent = none;
  refused = noup;
  inretry = inretry;
  failed = true;
  queue = queue;
})
up_loop providers room now ((pid, miss) ∷ visit) noup inretry queue item =
    let next = up_loop providers room now visit noup inretry queue item in
    let next_refused = up_loop providers room now visit (noup + 1) inretry queue item in
    let next_retry = up_loop providers room now visit noup (inretry + 1) queue item in
    if not miss then next else elim (provider_at pid providers) [
      | none ↦ none
      | some p ↦
          if takes_no_upload p || not_wanted_at pid item
          then next_refused
          else if on pid item.retry_on && ltb now item.retry_in
          then next_retry
          else if room p.group
          then some (record {
            item = record item {
              retry_on = if on pid item.retry_on then delete pid item.retry_on else item.retry_on;
              flagin_up = true;
              pushed_up = item.pushed_up + 1;
            };
            sent = some p.group;
            refused = 0;
            inretry = 0;
            failed = false;
            queue = queue + 1;
          })
          else some (record {
            item = record item {
              retry_on = if on pid item.retry_on then delete pid item.retry_on else item.retry_on;
            };
            sent = none;
            refused = noup + 1;
            inretry = inretry;
            failed = true;
            queue = queue + 1 - 1;
          })
    ]

unfoldable pub push_up :
    Options
    → List Provider
    → (String → Bool)
    → Bool
    → ℕ
    → Bool
    → Map ℕ Bool
    → ℕ
    → Item
    → Option Pushed
unfolding up_loop match_this_up
push_up o providers room segcheckdone now allow_up visit queue item =
    if not allow_up
    then some (nothing true)
    else if o.check_first && not segcheckdone
    then some (nothing false)
    else if not (match_this_up item)
    then some (nothing false)
    else up_loop providers room now visit 0 0 queue item
  where
    nothing : Bool → Pushed
    nothing error = record {
      item = item;
      sent = none;
      refused = 1;
      inretry = 0;
      failed = error;
      queue = queue;
    }
