-- ===== src/Items/Retire.antt =====
-- Workers.go: retireItem, retireAfterDownload and afterCacheWrite, which race to give back the memory
-- slot of a downloaded item that nobody will upload. Each critical section is one step.
use nzbre_x.Prelude.{
  ℕ, ◌+◌, ◌-◌, Bool, true, false, List, [], ◌∷◌, if◌then◌else◌, ◌&&◌, ◌||◌, not, ltb, ◌==◌,
}
use nzbre_x.Items.{Item}

-- The settings that the three read.
pub record Setup : Type 0 where
  pub allow_up : Bool  -- not CheckOnly, and "postProviders" is not 0
  pub cache_on : Bool
  pub yenc_write : Bool

-- The item with retireWhenCached, whether the limiter has it among its owners (memdata), the calls of
-- retireItem and of MemReturnIfHeld that are decided and not yet made, the slots given back, and how far
-- the download worker and the cache writer have come; `left_to_upload` is that the worker found a target.
pub record Held : Type 0 where
  pub item : Item
  pub retire_when_cached : Bool
  pub held : Bool
  pub to_retire : ℕ
  pub to_return : ℕ
  pub returned : ℕ
  pub worker_done : Bool
  pub left_to_upload : Bool
  pub cache_done : Bool

-- retireAfterDownload up to the unlock; `target` is what hasUploadTarget says.
unfoldable pub retire_after_download : Setup → Bool → Held → Held
retire_after_download s target h =
    let now = not s.cache_on || h.item.flag_cache in
    if s.allow_up && target
    then record h { worker_done = true; left_to_upload = true }
    else if now
    then record h { worker_done = true; to_retire = h.to_retire + 1 }
    else record h { worker_done = true; retire_when_cached = true }

-- CacheWriter has the item on disk; where it fails, this does not happen.
unfoldable pub cache_written : Held → Held
cache_written h = record h { item = record (h.item) { flag_cache = true } }

-- afterCacheWrite up to the unlock.
unfoldable pub after_cache_write : Held → Held
after_cache_write h =
    if h.retire_when_cached && h.item.flag_cache
    then record h { cache_done = true; retire_when_cached = false; to_retire = h.to_retire + 1 }
    else record h { cache_done = true }

-- retireItem up to the unlock.
unfoldable pub retire_item : Setup → Held → Held
retire_item s h =
    let locked = ltb 0 h.item.memlocked in
    let free =
      locked
      && not s.yenc_write
      && not h.item.flagin_yenc
      && (not s.cache_on || h.item.flag_cache) in
    record h {
      item = if free then record (h.item) { article = 0 } else h.item;
      to_retire = h.to_retire - 1;
      to_return = if locked then h.to_return + 1 else h.to_return;
    }

-- MemReturnIfHeld: the part under the locks, with the slot that is sent back.
unfoldable pub mem_return_if_held : Held → Held
mem_return_if_held h =
    if h.held
    then record h {
      item = record (h.item) { memlocked = 0 };
      held = false;
      to_return = h.to_return - 1;
      returned = h.returned + 1;
    }
    else record h { to_return = h.to_return - 1 }

-- What can happen next. The worker and the cache writer make their step once, the writer behind CacheWriter, whether
-- that has the item on disk or not; the divider may decide to retire the item at any time.
pub data Step : Type 0 where
  download_ends : (target : Bool) → Step
  written write_ends divider_retires retires returns : Step

unfoldable pub retire_step : Setup → Step → Held → Held
unfolding retire_after_download cache_written after_cache_write retire_item mem_return_if_held
retire_step s (download_ends target) h =
    if h.worker_done then h else retire_after_download s target h
retire_step s written h = if h.cache_done then h else cache_written h
retire_step s write_ends h = if h.cache_done then h else after_cache_write h
retire_step s divider_retires h = record h { to_retire = h.to_retire + 1 }
retire_step s retires h = if h.to_retire == 0 then h else retire_item s h
retire_step s returns h = if h.to_return == 0 then h else mem_return_if_held h

unfoldable pub retire_steps : Setup → List Step → Held → Held
unfolding retire_step
retire_steps s [] h = h
retire_steps s (m ∷ ms) h = retire_steps s ms (retire_step s m h)
