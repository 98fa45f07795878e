-- ===== src/Examples/Nntp.antt =====
-- NetConn.go at concrete inputs.
use nzbre_x.Prelude.{
  ℕ, ◌+◌, ◌≡◌, refl, Bool, true, false, List, [], ◌∷◌, ◌++◌, some, arith, map, ◌||◌, not,
  if◌then◌else◌,
}
use nzbre_x.Nntp.{Line, codes, dot_stuff, send_article, wire_lines}
use nzbre_x.Nntp.Wire.{size_of, are_lines}
use nzbre_x.Nntp.Reader.{
  Options, article, body, is_item_command, clean_keys, read_dot_lines, failed, stored, not_for_mail,
}
use nzbre_x.Nntp.Articles.{plain_lines}
use nzbre_x.Nntp.Headers.{Field, field_lines, are_fields, are_keys, kept_fields}
use nzbre_x.Nntp.Transfers.{added_lines, checked, article_transferred}
use nzbre_x.Nntp.Limits.{WithinLimit, Reads, read_dot_lines-WithinLimit}
use nzbre_x.Nntp.Commands.{Answer, Uploader, cmd_ihave, cmd_post, check_capabilities}
use nzbre_x.Nntp.Capabilities.{lists, takes_uploads, check_capabilities_effect}
use nzbre_x.Nntp.Replies.{upload_confirmed, reups_outcome, is_uploaded, is_clean}
use nzbre_x.Items.Replies.{ihaves, posts}

abbrev settings : Bool → Options
settings proxy = record {
  max_art_size = 200;
  clean_headers = true;
  proxy = proxy;
  clean_header = clean_keys;
  yenc_crc = true;
  date = codes "Date: Thu, 26 Nov 2026 17:00:00 +0000";
}

-- A check of the body that finds nothing wrong.
abbrev sound : List Line → Bool
sound lines = false

abbrev fields : List Field
fields =
    record { first = codes "From: a@b.c"; continued = [] }
    ∷ record { first = codes "X-Trace: x"; continued = codes " y" ∷ [] }
    ∷ record { first = codes "Subject: s"; continued = codes " t" ∷ [] }
    ∷ []

abbrev text : List Line
text = codes "one" ∷ codes ".two" ∷ codes "." ∷ []

abbrev later : List ℕ
later = 50 ∷ 48 ∷ 48 ∷ 13 ∷ 10 ∷ []

abbrev next_line : List Line
next_line = codes "200" ∷ []

article_test :
    read_dot_lines sound
      (settings false)
      article
      (wire_lines ((send_article 11 (field_lines fields ++ [] ∷ text)).wire ++ later))
    ≡ (
      stored 46 (
          codes "From: a@b.c"
          ∷ codes "Subject: s"
          ∷ codes " t"
          ∷ codes "Date: Thu, 26 Nov 2026 17:00:00 +0000"
          ∷ not_for_mail
          ∷ []
          ∷ text),
      next_line,
    )
unfolding read_dot_lines wire_lines send_article field_lines
article_test = refl

large_test :
    (read_dot_lines sound (record (settings false) { max_art_size = 5 }) body text).0
    ≡ failed true 7
unfolding read_dot_lines
large_test = refl

article_transferred_example :
    read_dot_lines sound
      (settings false)
      article
      (wire_lines ((send_article 11 (field_lines fields ++ [] ∷ text)).wire ++ later))
    ≡ (
      checked sound true (size_of (field_lines fields) + size_of (map dot_stuff text) + 1) (
          field_lines (kept_fields (settings false) fields)
          ++ added_lines (settings false)
          ++ [] ∷ text),
      wire_lines later,
    )
unfolding are_keys are_fields plain_lines are_lines field_lines size_of dot_stuff
article_transferred_example =
    article_transferred sound (settings false) 11 fields text later refl refl refl refl
      (omega arith) (omega arith)

read_dot_lines-WithinLimit_example :
    WithinLimit 5 (read_dot_lines sound (record (settings false) { max_art_size = 5 }) body text).0
    × Reads
        (record (settings false) { max_art_size = 5 })
        text
        (read_dot_lines sound (record (settings false) { max_art_size = 5 }) body text)
unfolding is_item_command
read_dot_lines-WithinLimit_example =
    read_dot_lines-WithinLimit sound (record (settings false) { max_art_size = 5 }) body text refl

abbrev answer : ℕ → Answer
answer code = record { code = code; continued = false }

upload_confirmed_example :
    let by_ihave =
      reups_outcome ihaves (cmd_ihave true (some (answer 335)) 5 (some (answer 235)) text) in
    let by_post =
      reups_outcome posts (cmd_post true (some (answer 335)) 5 (some (answer 235)) text) in
    (is_uploaded by_ihave ≡ true)
    × (is_clean by_ihave ≡ true)
    × (is_uploaded by_post ≡ false)
    × (is_clean by_post ≡ false)
upload_confirmed_example = upload_confirmed true (some (answer 335)) 5 (some (answer 235)) text

abbrev unknown_provider : Uploader
unknown_provider = record {
  check = false;
  ihave = false;
  post = false;
  stream = false;
  no_upload = false;
  post_providers = 1;
}

abbrev capabilities : List Line
capabilities = codes "VERSION 2" ∷ codes "IHAVE" ∷ codes "Streaming" ∷ codes "POST" ∷ []

check_capabilities_test :
    (check_capabilities false true (some (answer 101)) (some capabilities) true unknown_provider)
    ≡ (
      false,
      record {
        check = false;
        ihave = true;
        post = true;
        stream = true;
        no_upload = false;
        post_providers = 2;
      },
    )
unfolding check_capabilities
check_capabilities_test = refl

check_capabilities_effect_example :
    check_capabilities false true (some (answer 101)) (some capabilities) true unknown_provider ≡ (
      false,
      record {
        check = lists (codes "check") capabilities;
        ihave = lists (codes "ihave") capabilities;
        post = lists (codes "post") capabilities;
        stream = lists (codes "takethis") capabilities || lists (codes "streaming") capabilities;
        no_upload = not (takes_uploads capabilities);
        post_providers = if takes_uploads capabilities then 2 else 1;
      },
    )
check_capabilities_effect_example =
    check_capabilities_effect (some (answer 101)) capabilities unknown_provider refl
