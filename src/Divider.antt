-- ===== src/Divider.antt =====
-- Workers.go, GoWorkDivider: what one round counts of the articles, and how the counts end the loop. What pushUP
-- and pushDL do in the round is in Items/Pushes; the sleeps, the printed statistics, the retiring of memory slots and the
-- exits on a stopped session, missing workers or no progress are left out.
pub mod Closing
use nzbre_x.Prelude.{
  ℕ, zero, suc, ◌+◌, ◌-◌, ◌≤◌, ◌≡◌, refl, ap, ◌∙◌, arith, Bool, true, false, not, ◌&&◌, ◌||◌, List,
  [], ◌∷◌, Option, none, some, if◌then◌else◌, ltb, leb, ◌==◌, ==_iff, length, All, Bool-cases,
  Option-cases, inl, inr,
}
use nzbre_x.Items.{
  Provider, Options, Item, is_segment_stupid, want_download, on_all_providers, has_upload_target,
}

pub record Counts : Type 0 where
  pub segm : ℕ
  pub done : ℕ
  pub fails : ℕ
  pub dead : ℕ
  pub isdl : ℕ
  pub indl : ℕ
  pub inup : ℕ
  pub isup : ℕ
  pub checked : ℕ
  pub dmca : ℕ
  pub cached : ℕ
  pub inyenc : ℕ
  pub isyenc : ℕ
  pub notarget : ℕ
  pub not_downloaded : ℕ

unfoldable pub no_counts : Counts
no_counts = record {
  segm = 0;
  done = 0;
  fails = 0;
  dead = 0;
  isdl = 0;
  indl = 0;
  inup = 0;
  isup = 0;
  checked = 0;
  dmca = 0;
  cached = 0;
  inyenc = 0;
  isyenc = 0;
  notarget = 0;
  not_downloaded = 0;
}

abbrev pub one_if : Bool → ℕ
one_if b = if b then 1 else 0

abbrev pub in_flight : Item → Bool
in_flight item = item.flagin_dl || item.flagin_yenc || item.flagin_up

unfoldable pub is_done : Options → List Provider → Item → Bool
unfolding on_all_providers want_download
is_done o providers item =
    length item.missing_on == 0 && on_all_providers 0 providers item && not (want_download o item)

-- Nothing takes an upload of the item and nothing wants it downloaded; `none` is the panic of hasUploadTarget.
unfoldable pub is_notarget : Options → Bool → List Provider → Item → Option Bool
unfolding has_upload_target want_download
is_notarget o allow_up providers item =
    if allow_up
    then elim (has_upload_target providers item item.missing_on) [
      | none ↦ none
      | some target ↦ some (not target && not (want_download o item))
    ]
    else some (not (want_download o item))

-- What a turn adds for an item that is checked on every provider, before the pushes.
abbrev pub seen_item : Bool → Bool → Item → Counts → Counts
seen_item stupid fin item c = record c {
  cached = c.cached + one_if item.flag_cache;
  checked = c.checked + 1;
  isdl = c.isdl + one_if item.flagis_dl;
  isyenc = c.isyenc + one_if item.flagis_yenc;
  isup = c.isup + one_if item.flagis_up;
  indl = c.indl + one_if item.flagin_dl;
  inyenc = c.inyenc + one_if item.flagin_yenc;
  inup = c.inup + one_if item.flagin_up;
  fails = c.fails + one_if (leb 3 item.fails);
  dmca = c.dmca + one_if (ltb 0 (length item.dmca_on));
  segm = c.segm + one_if (ltb 0 (length item.available_on));
  dead = c.dead + one_if stupid;
  done = c.done + one_if fin;
}

abbrev pub retired_item : Item → Counts → Counts
retired_item item c = record c {
  notarget = c.notarget + 1;
  not_downloaded = c.not_downloaded + one_if (not item.flagis_dl && not item.flag_cache);
}

-- One turn of the loop over the segment list, up to the pushes, by the tests that it makes: checked on every provider, in
-- flight, dead, done, without a target.
abbrev pub count_turn : Bool → Bool → Bool → Bool → Option Bool → Item → Counts → Option Counts
count_turn false flight stupid fin target item c =
    some (record c { cached = c.cached + one_if item.flag_cache })
count_turn true flight stupid fin target item c =
    if flight || stupid || fin then some (seen_item stupid fin item c) else elim target [
      | none ↦ none
      | some false ↦ some (seen_item stupid fin item c)
      | some true ↦ some (retired_item item (seen_item stupid fin item c))
    ]

unfoldable pub count_item : Options → Bool → List Provider → Item → Counts → Option Counts
unfolding is_segment_stupid is_done is_notarget
count_item o allow_up providers item c =
    count_turn (item.checked_on == length providers) (in_flight item)
      (is_segment_stupid (length providers) item) (is_done o providers item)
      (is_notarget o allow_up providers item) item c

unfoldable pub count_items : Options → Bool → List Provider → List Item → Counts → Option Counts
unfolding count_item
count_items o allow_up providers [] c = some c
count_items o allow_up providers (item ∷ items) c = elim (count_item o allow_up providers item c) [
  | none ↦ none
  | some c' ↦ count_items o allow_up providers items c'
]

-- What the end of a round reads besides the counts.
pub record Round : Type 0 where
  pub todo : ℕ
  pub check_only : Bool
  pub cache_on : Bool
  pub post_providers : ℕ
  pub inretry : ℕ
  pub dl_queue : ℕ
  pub up_queue : ℕ
  pub yenc_queue : ℕ
  pub checkers_gone : Bool

abbrev pub idle : Round → Counts → Bool
idle r c =
    c.inup == 0
    && c.indl == 0
    && r.inretry == 0
    && c.inyenc == 0
    && r.dl_queue == 0
    && r.up_queue == 0
    && r.yenc_queue == 0

-- The close cases 0 to 8; 7 is a placeholder for false.
unfoldable pub close_case : Round → Counts → Bool
close_case r c =
    (c.done == r.todo || c.fails == r.todo || c.fails + c.done == r.todo)
    || r.check_only
    || (r.cache_on && (r.post_providers == 0 && c.cached == r.todo))
    || (r.cache_on && (c.dead + c.cached == r.todo && c.dead + c.isup == r.todo))
    || c.isup == r.todo
    || (c.dead + c.isup == r.todo || c.dead + c.isup + c.fails == r.todo)
    || (c.dead + c.done == r.todo || c.dead + c.done + c.fails == r.todo)
    || (ltb 0 c.notarget
        && (c.dead + c.done + c.notarget == r.todo
            || c.dead + c.done + c.fails + c.notarget == r.todo))

-- The end of a round with closeWait: the next closeWait, or `none` where the loop ends.
unfoldable pub end_round : Round → Counts → ℕ → Option ℕ
unfolding close_case
end_round r c close_wait =
    if not (c.checked == r.todo) && r.checkers_gone && idle r c
    then none
    else if not (c.checked == r.todo) || not (idle r c)
    then some close_wait
    else if close_wait == 0
    then none
    else if close_case r c
    then some (close_wait - 1)
    else if leb 15 (close_wait + 1)
    then none
    else some (close_wait + 1)

-- Rounds that count the same, one after the other.
unfoldable pub end_rounds : ℕ → Round → Counts → ℕ → Option ℕ
unfolding end_round
end_rounds zero r c close_wait = some close_wait
end_rounds (suc n) r c close_wait = elim (end_round r c close_wait) [
  | none ↦ none
  | some w ↦ end_rounds n r c w
]
