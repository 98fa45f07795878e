-- ===== src/Items/Retired.antt =====
-- Workers.go: whoever comes first, the slot of a downloaded item is given back once.
use nzbre_x.Prelude.{
  ℕ, ◌+◌, ◌≤◌, Bool, true, false, List, [], ◌∷◌, ◌≡◌, refl, if◌then◌else◌, ◌&&◌, ◌||◌, not, ltb,
  ◌==◌, arith,
}
use nzbre_x.Items.{Item}
use nzbre_x.Items.Retire.{
  Setup, Held, Step, download_ends, written, write_ends, divider_retires, retires, returns,
  retire_step, retire_steps,
}

abbrev one_if : Bool → ℕ
one_if b = if b then 1 else 0

pub record Inv (s : Setup) (h : Held) : Type 0 where
  pub one_slot : h.returned + one_if h.held ≡ 1
  pub locked : ltb 0 h.item.memlocked ≡ h.held
  -- The worker that left the item to the cache writer did so before that looked.
  pub waits : (h.retire_when_cached && h.cache_done && h.item.flag_cache) ≡ false
  pub no_cache : (h.retire_when_cached && not s.cache_on) ≡ false
  -- An article is dropped only if it is on disk or nothing is to be.
  pub on_disk : (h.item.article == 0 && not (not s.cache_on || h.item.flag_cache)) ≡ false
  -- Once the worker is done and has found no target, somebody gives the slot back.
  pub somebody :
      (h.worker_done
        && not h.left_to_upload
        && h.held
        && not h.retire_when_cached
        && h.to_retire + h.to_return == 0)
      ≡ false

module _ (s : Setup) (h : Held) (v : Inv s h) where
  download-Inv : (target : Bool) → Inv s (retire_step s (download_ends target) h)
  unfolding retire_step
  download-Inv target = record {
    one_slot = ground (arith, v.one_slot);
    locked = ground (arith, v.locked);
    waits = ground (arith, v.waits);
    no_cache = ground (arith, v.no_cache);
    on_disk = ground (arith, v.on_disk);
    somebody = ground (arith, v.somebody);
  }

  written-Inv : Inv s (retire_step s written h)
  unfolding retire_step
  written-Inv = record {
    one_slot = ground (arith, v.one_slot);
    locked = ground (arith, v.locked);
    waits = ground (arith, v.waits);
    no_cache = ground (arith, v.no_cache);
    on_disk = ground (arith, v.on_disk);
    somebody = ground (arith, v.somebody);
  }

  write_ends-Inv : Inv s (retire_step s write_ends h)
  unfolding retire_step
  write_ends-Inv = record {
    one_slot = ground (arith, v.one_slot);
    locked = ground (arith, v.locked);
    waits = ground (arith, v.waits);
    no_cache = ground (arith, v.no_cache);
    on_disk = ground (arith, v.on_disk);
    somebody = ground (arith, v.somebody);
  }

  divider-Inv : Inv s (retire_step s divider_retires h)
  unfolding retire_step
  divider-Inv = record {
    one_slot = v.one_slot;
    locked = v.locked;
    waits = ground (arith, v.waits);
    no_cache = ground (arith, v.no_cache);
    on_disk = ground (arith, v.on_disk);
    somebody = ground (arith, v.somebody);
  }

  retires-Inv : Inv s (retire_step s retires h)
  unfolding retire_step
  retires-Inv = record {
    one_slot = ground (arith, v.one_slot);
    locked = ground (arith, v.locked);
    waits = ground (arith, v.waits);
    no_cache = ground (arith, v.no_cache);
    on_disk = ground (arith, v.on_disk);
    somebody = ground (arith, v.somebody, v.locked);
  }

  returns-Inv : Inv s (retire_step s returns h)
  unfolding retire_step
  returns-Inv = record {
    one_slot = ground (arith, v.one_slot);
    locked = ground (arith, v.locked);
    waits = ground (arith, v.waits);
    no_cache = ground (arith, v.no_cache);
    on_disk = ground (arith, v.on_disk);
    somebody = ground (arith, v.somebody);
  }

retire_step-Inv : (s : Setup) (m : Step) (h : Held) → Inv s h → Inv s (retire_step s m h)
retire_step-Inv s (download_ends target) h v = download-Inv s h v target
retire_step-Inv s written h v = written-Inv s h v
retire_step-Inv s write_ends h v = write_ends-Inv s h v
retire_step-Inv s divider_retires h v = divider-Inv s h v
retire_step-Inv s retires h v = retires-Inv s h v
retire_step-Inv s returns h v = returns-Inv s h v

retire_steps-Inv : (s : Setup) (ms : List Step) (h : Held) → Inv s h → Inv s (retire_steps s ms h)
unfolding retire_steps
retire_steps-Inv s [] h v = v
retire_steps-Inv s (m ∷ ms) h v =
    retire_steps-Inv s ms (retire_step s m h) (retire_step-Inv s m h v)

-- A downloaded item that owns a slot and that nobody has begun to retire.
unfoldable pub downloaded : Item → Held
downloaded item = record {
  item = item;
  retire_when_cached = false;
  held = true;
  to_retire = 0;
  to_return = 0;
  returned = 0;
  worker_done = false;
  left_to_upload = false;
  cache_done = false;
}

-- Of an item in memory that owns a slot, in whatever order the download worker, the cache writer and
-- the divider make their steps, and whether the write succeeds or not: its slot is given back at most once, and its
-- article is dropped only if it is on disk or the cache is off. Once the worker is through and found no upload target,
-- the writer, if there is a cache, is through and has the item on disk, and no call is outstanding, the slot
-- has been given back.
pub slot_given_back_once :
    (s : Setup) (ms : List Step) (item : Item)
    → ltb 0 item.memlocked ≡ true
    → (item.article == 0) ≡ false
    → ((retire_steps s ms (downloaded item)).returned ≤ 1)
      × (((retire_steps s ms (downloaded item)).item.article == 0
            && not (not s.cache_on || (retire_steps s ms (downloaded item)).item.flag_cache))
          ≡ false)
      × ((retire_steps s ms (downloaded item)).worker_done ≡ true
          → (retire_steps s ms (downloaded item)).left_to_upload ≡ false
          → (not s.cache_on
              || (retire_steps s ms (downloaded item)).cache_done
                && (retire_steps s ms (downloaded item)).item.flag_cache)
            ≡ true
          → (retire_steps s ms (downloaded item)).to_retire
              + (retire_steps s ms (downloaded item)).to_return
            ≡ 0
          → (retire_steps s ms (downloaded item)).returned ≡ 1)
unfolding downloaded
slot_given_back_once s ms item l a =
    let v = retire_steps-Inv s ms (downloaded item) (record {
      one_slot = omega arith;
      locked = l;
      waits = refl;
      no_cache = refl;
      on_disk = ground (arith, a);
      somebody = refl;
    }) in
    (
      ground (arith, v.one_slot),
      v.on_disk,
      λ done up cache idle.
          ground (arith, v.one_slot, v.waits, v.no_cache, v.somebody, done, up, cache, idle),
    )
