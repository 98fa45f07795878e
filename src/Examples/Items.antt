-- ===== src/Examples/Items.antt =====
-- Workers.go and Routines.go at concrete inputs.
use nzbre_x.Prelude.{
  ◌≢◌, ℕ, ◌+◌, ◌≤◌, not, ◌&&◌, ◌≡◌, refl, Bool, true, false, List, [], ◌∷◌, some, String, ◌==◌,
  string_eq, nat_eq,
}
use nzbre_x.Prelude.Map.{get}
use nzbre_x.Items.Retire.{
  Setup, Step, download_ends, written, write_ends, divider_retires, retires, returns, retire_steps,
}
use nzbre_x.Items.Retired.{downloaded, slot_given_back_once}
use nzbre_x.Items.{
  Provider, Options, Item, on, match_this_dl, match_this_up, has_upload_target, not_wanted_at,
}
use nzbre_x.Items.Replies.{
  Attempt, no_conn, broken_stat, replied, reups_reply, other_target, unwanted, retry,
}
use nzbre_x.Items.Pushes.{push_dl, push_up}
use nzbre_x.Items.Checks.{Check, check_all, every_group_checked}
use nzbre_x.Items.Targets.{finds_target, queued_once, push_up_target, one_queue}
use nzbre_x.Items.Uploads.{fail_again, third_failure_gives_up, unwanted_reply, retry_reply}

abbrev pub provider : String → Provider
provider g = record {
  group = g;
  no_download = false;
  no_upload = false;
  ihave = true;
  post = true;
  down = false;
  prefer_ihave = true;
}

-- Two providers of one group and one of another.
abbrev pub providers : List Provider
providers = provider "a" ∷ provider "b" ∷ provider "b" ∷ []

abbrev pub options : Options
options = record {
  cache_on = false;
  check_first = true;
  by_pass_stat = false;
  dl_all = false;
  dl_missing = false;
}

abbrev pub fresh : Item
fresh = record {
  missing_on = [];
  available_on = [];
  ignore_dl_on = [];
  ignore_ul_on = [];
  unwanted_on = [];
  uploaded_to = [];
  retry_on = [];
  error_on = [];
  dmca_on = [];
  article = 0;
  flagin_dl = false;
  flagis_dl = false;
  flagin_up = false;
  flagis_up = false;
  flagin_dlmem = false;
  flagin_yenc = false;
  flagis_yenc = false;
  flag_cache = false;
  memlocked = 0;
  checked_on = 0;
  pushed_dl = 0;
  pushed_up = 0;
  fails = 0;
  retry_in = 0;
}

-- Missing on every provider and downloaded.
abbrev pub missing : Item
missing = record fresh {
  missing_on = (0, true) ∷ (1, true) ∷ (2, true) ∷ [];
  article = 9;
  flagis_dl = true;
  checked_on = 3;
}

abbrev uploading : Item
uploading = record missing { flagin_up = true; fails = 2 }

-- A connection that breaks, then a reply 430.
abbrev breaks_once : ℕ → (Attempt × ℕ × Bool)
breaks_once left = elim (left == 1) [
  | true ↦ (broken_stat, 50, false)
  | false ↦ (replied 430, 51, false)
]

abbrev checks : List Check
checks = (provider "b", 1, breaks_once) ∷ (provider "a", 0, λ left. (no_conn, 60, true)) ∷ []

every_group_checked_example : (check_all providers checks fresh).checked_on ≡ 3
every_group_checked_example =
    every_group_checked providers checks fresh (refl, (refl, (refl, tt))) refl

push_up_target_example :
    finds_target (push_up options providers (λ g. true) true 70 true missing.missing_on 0 missing)
    ≡ some true
unfolding has_upload_target get
push_up_target_example =
    push_up_target options providers (λ g. true) true 70 missing.missing_on 0 missing (λ g. refl)
      ((provider "a", refl), ((provider "b", refl), ((provider "b", refl), tt))) refl
      (unfold match_this_up in refl)

one_queue_example :
    (queued_once (push_dl options providers (λ g. true) true true true missing.missing_on 0 missing)
      ≡ true)
    × (queued_once (push_up options providers (λ g. true) true 70 true missing.missing_on 0 missing)
        ≡ true)
one_queue_example =
    one_queue options providers (λ g. true) true true true 70 missing.missing_on 0 missing refl

abbrev fresh_upload : Item
fresh_upload = record uploading { fails = 0 }

third_failure_gives_up_example :
    (not_wanted_at 1 (fail_again 80 1 3 fresh_upload) ≡ true)
    × ((j : ℕ)
        → j ≢ 1
        → not_wanted_at j (fail_again 80 1 3 fresh_upload) ≡ not_wanted_at j fresh_upload)
unfolding get
third_failure_gives_up_example = third_failure_gives_up 80 1 3 fresh_upload refl refl

-- The provider 1 refused the item, and it is not marked, since the provider 0 could still take it.
unwanted_reply_example :
    on 1 (reups_reply 90 providers (provider "b") 1 (unwanted, false) uploading).unwanted_on ≡ false
unfolding other_target get
unwanted_reply_example = unwanted_reply 90 providers (provider "b") 1 1 uploading

retry_reply_example :
    (on 1 (reups_reply 90 providers (provider "b") 1 (retry, false) uploading).retry_on ≡ true)
    × ((reups_reply 90 providers (provider "b") 1 (retry, false) uploading).retry_in ≡ 105)
    × (match_this_up (reups_reply 90 providers (provider "b") 1 (retry, false) uploading) ≡ false)
    × (match_this_dl false (reups_reply 90 providers (provider "b") 1 (retry, false) uploading)
        ≡ false)
retry_reply_example = retry_reply 90 providers (provider "b") 1 false uploading refl

abbrev setup : Setup
setup = record { allow_up = false; cache_on = true; yenc_write = false }

-- The writer is between the item on disk and its look at the flag when the worker ends.
abbrev racing : List Step
racing =
    written
    ∷ download_ends false
    ∷ divider_retires
    ∷ write_ends
    ∷ retires
    ∷ retires
    ∷ returns
    ∷ returns
    ∷ []

abbrev in_memory : Item
in_memory = record missing { memlocked = 1 }

racing_test :
    ((retire_steps setup racing (downloaded in_memory)).returned ≡ 1)
    × ((retire_steps setup racing (downloaded in_memory)).item.article ≡ 0)
unfolding retire_steps downloaded
racing_test = (refl, refl)

slot_given_back_once_example :
    ((retire_steps setup racing (downloaded in_memory)).returned ≤ 1)
    × (((retire_steps setup racing (downloaded in_memory)).item.article == 0
          && not (retire_steps setup racing (downloaded in_memory)).item.flag_cache)
        ≡ false)
    × ((retire_steps setup racing (downloaded in_memory)).worker_done ≡ true
        → (retire_steps setup racing (downloaded in_memory)).left_to_upload ≡ false
        → ((retire_steps setup racing (downloaded in_memory)).cache_done
            && (retire_steps setup racing (downloaded in_memory)).item.flag_cache)
          ≡ true
        → (retire_steps setup racing (downloaded in_memory)).to_retire
            + (retire_steps setup racing (downloaded in_memory)).to_return
          ≡ 0
        → (retire_steps setup racing (downloaded in_memory)).returned ≡ 1)
slot_given_back_once_example = slot_given_back_once setup racing in_memory refl refl
