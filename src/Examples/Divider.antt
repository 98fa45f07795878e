-- ===== src/Examples/Divider.antt =====
-- GoWorkDivider at concrete inputs.
use nzbre_x.Prelude.{◌≡◌, refl, true, false, List, [], ◌∷◌, none, some, nat_eq}
use nzbre_x.Prelude.Map.{get}
use nzbre_x.Items.{Item, is_segment_stupid, on_all_providers, want_download, has_upload_target}
use nzbre_x.Examples.Items.{fresh, providers, options}
use nzbre_x.Divider.{Counts, no_counts, is_done, is_notarget, count_items, Round, end_rounds}
use nzbre_x.Divider.Closing.{settled, settled_session_ends}

-- An article on every provider, one dead, and one that is missing where a provider already refused it.
abbrev items : List Item
items =
    record fresh { available_on = (0, true) ∷ (1, true) ∷ (2, true) ∷ []; checked_on = 3 }
    ∷ record fresh { missing_on = (0, true) ∷ (1, true) ∷ (2, true) ∷ []; checked_on = 3 }
    ∷ record fresh {
      available_on = (1, true) ∷ (2, true) ∷ [];
      missing_on = (0, true) ∷ [];
      unwanted_on = (0, true) ∷ [];
      checked_on = 3;
    }
    ∷ []

abbrev round : Round
round = record {
  todo = 3;
  check_only = false;
  cache_on = false;
  post_providers = 3;
  inretry = 0;
  dl_queue = 0;
  up_queue = 0;
  yenc_queue = 0;
  checkers_gone = true;
}

settled_session_ends_example :
    (c : Counts) × (count_items options true providers items no_counts ≡ some c)
    × (end_rounds 2 round c 1 ≡ none)
unfolding settled is_done is_notarget is_segment_stupid on_all_providers want_download
    has_upload_target get no_counts
settled_session_ends_example =
    settled_session_ends options true providers items round (refl, (refl, (refl, tt))) refl refl

-- Three articles that are checked, and none of them settled.
abbrev open_counts : Counts
open_counts = record {
  segm = 3;
  done = 0;
  fails = 0;
  dead = 0;
  isdl = 0;
  indl = 0;
  inup = 0;
  isup = 0;
  checked = 3;
  dmca = 0;
  cached = 0;
  inyenc = 0;
  isyenc = 0;
  notarget = 0;
  not_downloaded = 0;
}
