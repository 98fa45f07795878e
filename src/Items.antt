-- ===== src/Items.antt =====
-- Workers.go, Routines.go and Config.go: an article (segmentChanItem) with its flags and the maps of the
-- providers where it is, is missing, failed and so on, the divider's tests on it and the workers' marks. The item's lock is held
-- for the whole of each of these steps. The article itself is its length, a provider's ID its index in the
-- provider list, and a mutex, a log line, a statistic and a sleep are left out.
pub mod Replies
pub mod Pushes
pub mod Groups
pub mod Checks
pub mod Targets
pub mod Uploads
pub mod Retire
pub mod Retired
use nzbre_x.Prelude.{
  ℕ, zero, suc, ◌+◌, Bool, true, false, not, ◌&&◌, ◌||◌, List, [], ◌∷◌, Option, none, some,
  if◌then◌else◌, ltb, leb, ◌==◌, length, nat_eq, string_eq, String, ◌=?◌,
}
use nzbre_x.Prelude.Map.{Map, get, put, delete}

-- `capabilities.ihave`, `capabilities.post` and `isDown()` are the fields of the same names.
pub record Provider : Type 0 where
  pub group : String
  pub no_download : Bool
  pub no_upload : Bool
  pub ihave : Bool
  pub post : Bool
  pub down : Bool
  pub prefer_ihave : Bool

-- The options and globals that these functions read.
pub record Options : Type 0 where
  pub cache_on : Bool
  pub check_first : Bool
  pub by_pass_stat : Bool
  pub dl_all : Bool
  pub dl_missing : Bool

pub record Item : Type 0 where
  pub missing_on : Map ℕ Bool
  pub available_on : Map ℕ Bool
  pub ignore_dl_on : Map ℕ Bool
  pub ignore_ul_on : Map ℕ Bool
  pub unwanted_on : Map ℕ Bool
  pub uploaded_to : Map ℕ Bool
  pub retry_on : Map ℕ Bool
  pub error_on : Map ℕ Bool
  pub dmca_on : Map ℕ Bool
  pub article : ℕ  -- len(item.article)
  pub flagin_dl : Bool
  pub flagis_dl : Bool
  pub flagin_up : Bool
  pub flagis_up : Bool
  pub flagin_dlmem : Bool
  pub flagin_yenc : Bool
  pub flagis_yenc : Bool
  pub flag_cache : Bool
  pub memlocked : ℕ
  pub checked_on : ℕ
  pub pushed_dl : ℕ
  pub pushed_up : ℕ
  pub fails : ℕ
  pub retry_in : ℕ

-- `m[pid]` of a map[int]bool: a missing key reads as false.
abbrev pub on : ℕ → Map ℕ Bool → Bool
on pid m = elim (get pid m) [ none ↦ false | some b ↦ b ]

unfoldable pub is_segment_stupid : ℕ → Item → Bool
is_segment_stupid providers item =
    length item.available_on == 0 && length item.missing_on == providers
    || length item.available_on == length item.ignore_dl_on
      && length item.missing_on + length item.ignore_dl_on == providers

unfoldable pub match_this_dl : Bool → Item → Bool
match_this_dl false item =
    item.article == 0
    && not item.flagin_dl
    && not item.flagis_dl
    && not item.flagin_up
    && not item.flagis_up
    && not item.flagin_dlmem
match_this_dl true item =
    if (ltb 0 item.article || item.flag_cache)
      && not item.flagis_up
      && not item.flagin_up
      && not item.flagin_dlmem
    then not item.flagin_dl && not item.flagis_dl
    else item.article == 0
      && not item.flagin_dl
      && not item.flagis_dl
      && not item.flagin_up
      && not item.flagis_up
      && not item.flagin_dlmem

unfoldable pub match_this_up : Item → Bool
match_this_up item =
    ltb 0 item.article
    && (item.flagis_dl || item.flag_cache)
    && not item.flagin_up
    && not item.flagis_up
    && not item.flagin_dlmem
    && not item.flagin_dl

abbrev pub max_item_fails : ℕ
max_item_fails = 3

-- `now` is the time in seconds.
unfoldable pub flag_error : ℕ → ℕ → Item → Item
flag_error now pid item =
    let gives_up = item.flagin_up && leb max_item_fails (item.fails + 1) in
    let retries = item.flagin_up && ltb (item.fails + 1) max_item_fails in
    record item {
      retry_in = if retries then now + 5 else item.retry_in;
      retry_on = if retries then put pid true item.retry_on else item.retry_on;
      flagin_up = false;
      flagin_dl = false;
      fails = item.fails + 1;
      error_on = if gives_up then put pid true item.error_on else item.error_on;
      available_on = delete pid item.available_on;
    }

-- `for id, prov := range s.providerList` with `if prov.Group != provider.Group { continue }`.
unfoldable pub for_group : String → (ℕ → Item → Item) → ℕ → List Provider → Item → Item
for_group g f id [] item = item
for_group g f id (p ∷ ps) item =
    for_group g f (id + 1) ps (if p.group =? g then f id item else item)

unfoldable pub flag_dl_failed : List Provider → String → Item → Item
unfolding for_group
flag_dl_failed providers g item =
    for_group g
      (λ id i. record i {
        ignore_dl_on = put id true i.ignore_dl_on;
        missing_on = put id true i.missing_on;
        error_on = put id true i.error_on;
        available_on = delete id i.available_on;
      })
      0 providers item

unfoldable pub want_download : Options → Item → Bool
want_download o item =
    if item.flagis_dl || item.flag_cache || item.flagin_dl
    then false
    else if o.dl_all
    then true
    else if o.dl_missing
    then ltb 0 (length item.missing_on)
    else false

-- The providers from the index `id` on.
unfoldable pub on_all_providers : ℕ → List Provider → Item → Bool
on_all_providers id [] item = true
on_all_providers id (p ∷ ps) item =
    let rest = on_all_providers (id + 1) ps item in
    if not (on id item.available_on) && not (on id item.uploaded_to) then false else rest

-- `s.providerList[pid]`; out of range, Go panics.
abbrev pub provider_at : ℕ → List Provider → Option Provider
provider_at pid [] = none
provider_at zero (p ∷ ps) = some p
provider_at (suc pid) (p ∷ ps) = provider_at pid ps

abbrev pub takes_no_upload : Provider → Bool
takes_no_upload p = p.no_upload || not p.ihave && not p.post || p.down

abbrev pub not_wanted_at : ℕ → Item → Bool
not_wanted_at pid item =
    on pid item.ignore_ul_on
    || on pid item.uploaded_to
    || on pid item.available_on
    || on pid item.unwanted_on
    || on pid item.dmca_on
    || on pid item.error_on

-- Over the entries of `missingOn`, in the order in which `range` visits them; `none` is the panic.
unfoldable pub has_upload_target : List Provider → Item → Map ℕ Bool → Option Bool
has_upload_target providers item [] = some false
has_upload_target providers item ((pid, miss) ∷ visit) =
    let rest = has_upload_target providers item visit in
    if not miss then rest else elim (provider_at pid providers) [
      | none ↦ none
      | some p ↦
          if takes_no_upload p then rest else if not_wanted_at pid item then rest else some true
    ]

unfoldable pub mark_check_failed : List Provider → String → Item → Item
unfolding for_group
mark_check_failed providers g item =
    for_group g
      (λ id i. record i {
        checked_on = i.checked_on + 1;
        error_on = put id true i.error_on;
        ignore_dl_on = put id true i.ignore_dl_on;
      })
      0 providers item
