-- ===== src/Items/Replies.antt =====
-- Routines.go and Workers.go: what the check, download and upload routines record in the item for a
-- server's reply, and the retries of a check. The reply is an argument.
use nzbre_x.Prelude.{
  ℕ, zero, suc, ◌+◌, Bool, true, false, not, ◌&&◌, ◌||◌, List, [], ◌∷◌, Option, none, some,
  if◌then◌else◌, ◌==◌, nat_eq, string_eq, String, ◌=?◌,
}
use nzbre_x.Prelude.Map.{put, delete}
use nzbre_x.Items.{Provider, Options, Item, on, flag_error, for_group, mark_check_failed}

-- GoCheckRoutine's attempt: no connection (`errNoConn`), another failure (code 0 and an error; the STAT on a
-- broken connection has marked the item), or the code of a reply.
pub data Attempt : Type 0 where
  no_conn broken_get broken_stat : Attempt
  replied : ℕ → Attempt

unfoldable pub check_reply : List Provider → Provider → ℕ → Item → Item
unfolding for_group
check_reply providers provider code item =
    if code == 223
    then for_group provider.group
        (λ pid i. record i {
          checked_on = i.checked_on + 1;
          available_on = put pid true i.available_on;
          missing_on = delete pid i.missing_on;
          ignore_dl_on =
              if provider.no_download then put pid true i.ignore_dl_on else i.ignore_dl_on;
          ignore_ul_on = if provider.no_upload then put pid true i.ignore_ul_on else i.ignore_ul_on;
        })
        0 providers item
    else if code == 430
    then for_group provider.group
        (λ pid i. record i {
          checked_on = i.checked_on + 1;
          missing_on = put pid true i.missing_on;
        })
        0 providers item
    else if code == 451
    then for_group provider.group
        (λ pid i. record i { checked_on = i.checked_on + 1; dmca_on = put pid true i.dmca_on }) 0
        providers item
    else for_group provider.group
        (λ pid i. record i {
          checked_on = i.checked_on + 1;
          ignore_dl_on = put pid true i.ignore_dl_on;
          missing_on = put pid true i.missing_on;
          error_on = put pid true i.error_on;
        })
        0 providers item

abbrev pub check_attempts : ℕ
check_attempts = 2

-- checkItem with `left` attempts left: what each attempt meets, the time of it and whether the session is
-- stopped after it is given by the attempts left behind it. The loop marks the item at its last attempt, so the
-- clause for none left is not reached from `check_attempts`.
unfoldable pub check_item :
    List Provider → Provider → ℕ → ℕ → (ℕ → (Attempt × ℕ × Bool)) → Item → Item
unfolding flag_error mark_check_failed check_reply
check_item providers provider pid zero meets item = item
check_item providers provider pid (suc left) meets item =
    let (a, now, stopped) = meets left in
    let marked : Item = elim a [ broken_stat ↦ flag_error now pid item | _ ↦ item ] in
    let again : Item = check_item providers provider pid left meets marked in
    elim a [
      | replied code ↦ check_reply providers provider code item
      | no_conn ↦ mark_check_failed providers provider.group marked
      | _ ↦
          if left == 0 || stopped then mark_check_failed providers provider.group marked else again
    ]

-- GoDownsRoutine's record of a reply; `rxb`, the counters and the cache are left out.
unfoldable pub downs_reply : Options → List Provider → Provider → ℕ → Item → Item
unfolding for_group
downs_reply o providers provider code item =
    if code == 220
    then (let i =
          for_group provider.group
            (λ pid i. record i {
              available_on = put pid true i.available_on;
              missing_on = delete pid i.missing_on;
            })
            0 providers item in
        record i {
          flagis_dl = true;
          flagin_dl = false;
          flagin_dlmem = false;
          checked_on = if o.by_pass_stat then i.checked_on + 1 else i.checked_on;
        })
    else (let i =
          for_group provider.group
            (λ pid i. record i {
              missing_on =
                  if code == 430 || code == 451 || code == 99932
                  then put pid true i.missing_on
                  else i.missing_on;
              dmca_on = if code == 451 then put pid true i.dmca_on else i.dmca_on;
              ignore_dl_on = if code == 430 then i.ignore_dl_on else put pid true i.ignore_dl_on;
              error_on = if code == 99932 then put pid true i.error_on else i.error_on;
              available_on = delete pid i.available_on;
            })
            0 providers item in
        record i { flagin_dl = false })

-- The command that GoReupsRoutine selects, and what the code of the reply means to it.
pub data Command : Type 0 where
  posts ihaves : Command

pub data Upload : Type 0 where
  uploaded unwanted retry : Upload

unfoldable pub select_command : Provider → Option Command
select_command p =
    if p.prefer_ihave && p.ihave
    then some ihaves
    else if p.post
    then some posts
    else if p.ihave
    then some ihaves
    else none

-- The outcome, and whether an error goes with it: the command's own error stays where it is taken for done.
unfoldable pub upload_outcome : Command → ℕ → Bool → Upload × Bool
upload_outcome posts code err = if code == 240 then (uploaded, err) else (unwanted, true)
upload_outcome ihaves code err =
    if code == 235
    then (uploaded, err)
    else if code == 436
    then (retry, false)
    else if code == 437
    then (unwanted, false)
    else (unwanted, true)

-- The provider is of another group that could still take the item: the loop breaks there.
unfoldable pub other_target : String → ℕ → Provider → Item → Bool
other_target g pid p item =
    not (p.group =? g)
    && (not p.no_upload && (p.post || p.ihave))
    && (on pid item.missing_on && not (on pid item.unwanted_on) && not (on pid item.uploaded_to))

unfoldable pub more_provider : String → ℕ → List Provider → Item → Bool
unfolding other_target
more_provider g pid [] item = false
more_provider g pid (p ∷ ps) item = other_target g pid p item || more_provider g (pid + 1) ps item

-- The loop marks the providers of the group that stand before the break.
unfoldable pub flag_unwanted : String → ℕ → List Provider → Item → Item
unfolding other_target
flag_unwanted g pid [] item = item
flag_unwanted g pid (p ∷ ps) item =
    if other_target g pid p item
    then item
    else flag_unwanted g (pid + 1) ps
        (if p.group =? g then record item { unwanted_on = put pid true item.unwanted_on } else item)

-- GoReupsRoutine's record of a finished upload command, with the freeing of the article and the mark of an error.
unfoldable pub reups_reply : ℕ → List Provider → Provider → ℕ → Upload × Bool → Item → Item
unfolding for_group more_provider flag_unwanted flag_error
reups_reply now providers provider pid (outcome, failed) item =
    let sent : Item =
      for_group provider.group
        (λ id i. record i {
          uploaded_to = put id true i.uploaded_to;
          missing_on = delete id i.missing_on;
        })
        0 providers item in
    let marked : Item = elim outcome [
      | uploaded ↦ record sent { flagin_up = false; flagis_up = true; fails = 0 }
      | unwanted ↦ record (flag_unwanted provider.group 0 providers item) { flagin_up = false }
      | retry ↦ record item {
        retry_in = now + 15;
        retry_on = put pid true item.retry_on;
        flagin_up = false;
      }
    ] in
    let keeps : Bool = elim outcome [
      | unwanted ↦ more_provider provider.group 0 providers item
      | _ ↦ false
    ] in
    let freed : Item = if keeps then marked else record marked { article = 0 } in
    if failed then flag_error now pid freed else freed
