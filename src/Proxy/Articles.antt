-- ===== src/Proxy/Articles.antt =====
-- Server.go: handleArticleCommand, which relays ARTICLE, HEAD, BODY and STAT, and isValidMessageID of ProxyHelper.go.
use nzbre_x.Prelude.{
  ℕ, Bool, true, false, List, [], ◌∷◌, ◌++◌, Option, none, some, if◌then◌else◌, ◌&&◌, ◌||◌, not,
  ◌==◌, contains, nat_eq, list_eq,
}
use nzbre_x.Nntp.{Line, codes, has_prefix}
use nzbre_x.Nntp.Reader.{Fetch, Options, ReadResult, failed}
use nzbre_x.Nntp.Commands.{Answer, Fetched, cmd}
use nzbre_x.Rapid.Fields.{ℤ, pos, parse_int}
use nzbre_x.Passwd.{decimal}
use nzbre_x.NegCache.{NegCache, is_article_not_found, set_article_not_found}
use nzbre_x.Proxy.{
  Event, taken, lost, parked, closed, replied, StatusLine, Upstream, Session, next_answer,
  upstream_cmd,
}
use nzbre_x.Proxy.Commands.{is_positive, no_line}

pub data Wanted : Type 0 where
  stat : Wanted
  fetch : Fetch → Wanted

-- A request with what it reads besides: the limit, the lifetime and the clock of the negative cache, the yEnc check and
-- the settings of readDotLines, and whether the client takes the lines.
pub record Request : Type 0 where
  pub wanted : Wanted
  pub by_number : Bool
  pub key : Line
  pub neg_cache_max : ℕ
  pub neg_cache_ttl : ℕ
  pub now : ℕ
  pub broken : List Line → Bool
  pub options : Options
  pub client_ok : Bool

-- The variables of the loop: the code of `response`, checkedProviderGroups, and the negative cache.
pub record Asking : Type 0 where
  pub response : Option ℕ
  pub checked : List Line
  pub cache : NegCache

pub data Asked : Type 0 where
  go_on found : Asking → Asked

abbrev pub not_found : Request → ℕ
not_found r = if r.by_number then 423 else 430

-- A provider that is not asked.
abbrev pub passed_over : Request → Asking → Asking
passed_over r a = record a { response = some (not_found r) }

-- The group has no such article.
abbrev pub missing : Request → Upstream → ℕ → Asking → Asking
missing r u code a = record {
  response = some code;
  checked = u.group ∷ a.checked;
  cache = set_article_not_found r.neg_cache_max r.neg_cache_ttl r.now r.key u.group a.cache;
}

abbrev pub is_missing : ℕ → Bool
is_missing code = code == 423 || code == 430 || code == 451

unfoldable pub ask_stat :
    Request → Upstream → List (Option StatusLine) → Asking → Asked × List Event
unfolding upstream_cmd
ask_stat r u answers a = elim (upstream_cmd answers).0 [
  | none ↦ (go_on a, lost u.id ∷ closed u.id ∷ [])
  | some s ↦
      if s.code == 223
      then (found a, parked u.id ∷ replied 223 ∷ [])
      else if is_missing s.code
      then (go_on (missing r u s.code a), parked u.id ∷ [])
      else (go_on (record a { response = some s.code }), parked u.id ∷ [])
]

abbrev pub to_answer : Option StatusLine → Option Answer
to_answer none = none
to_answer (some s) = some (record { code = s.code; continued = s.continued })

abbrev pub failed_reading : Option ReadResult → Bool
failed_reading (some (failed was_closed n)) = true
failed_reading _ = false

-- The server's answer was lost, or the article could not be read to its end.
abbrev pub was_lost : Option StatusLine → Option ReadResult → Bool
was_lost none result = true
was_lost (some s) result = failed_reading result

abbrev pub is_article_code : ℕ → Bool
is_article_code code = code == 220 || code == 221 || code == 222

-- What follows CMD, with the answer that it read. Where readDotLines has closed the connection itself, CloseConn
-- does nothing more.
unfoldable pub judge_article :
    Request → Upstream → Asking → Option StatusLine → Fetched → Asked × List Event
judge_article r u a answer got =
    let before : List Event = if was_lost answer got.result then lost u.id ∷ [] else [] in
    if got.err && (got.code == 0 || is_article_code got.code)
    then (go_on a, before ++ closed u.id ∷ [])
    else if is_article_code got.code
    then (found a, before ++ parked u.id ∷ replied got.code ∷ [])
    else if got.code == 99932
    then (
      go_on (record a { response = some 430; checked = u.group ∷ a.checked }),
      before ++ parked u.id ∷ [],
    )
    else if is_missing got.code
    then (go_on (missing r u got.code a), before ++ parked u.id ∷ [])
    else (go_on (record a { response = some got.code }), before ++ parked u.id ∷ [])

unfoldable pub ask_article :
    Request → Fetch → Upstream → List (Option StatusLine) → Asking → Asked × List Event
unfolding next_answer cmd judge_article
ask_article r command u answers a =
    let answer = (next_answer answers).0 in
    judge_article r u a answer (cmd r.broken r.options command true (to_answer answer) u.lines)

unfoldable pub ask_wanted :
    Request → Upstream → List (Option StatusLine) → Asking → Asked × List Event
unfolding ask_stat ask_article
ask_wanted r u answers a = elim r.wanted [
  | stat ↦ ask_stat r u answers a
  | fetch command ↦ ask_article r command u answers a
]

-- The loop's body behind GetConn, with the answer to GROUP where it is sent.
unfoldable pub ask_connected : Request → Upstream → Asking → Asked × List Event
unfolding upstream_cmd ask_wanted
ask_connected r u a =
    if not r.by_number then ask_wanted r u u.answers a else elim (upstream_cmd u.answers).0 [
      | none ↦ (go_on a, lost u.id ∷ closed u.id ∷ [])
      | some s ↦
          if not (s.code == 211)
          then (go_on (record a { response = some s.code }), parked u.id ∷ [])
          else ask_wanted r u (upstream_cmd u.answers).1 a
    ]

unfoldable pub ask_provider : Request → Upstream → Asking → Asked × List Event
unfolding ask_connected
ask_provider r u a =
    if u.no_download || r.by_number && not u.newsreader
    then (go_on (passed_over r a), [])
    else if contains u.group a.checked || is_article_not_found r.now r.key u.group a.cache
    then (go_on (passed_over r a), [])
    else if not u.connects
    then (go_on a, [])
    else (let (asked, events) = ask_connected r u a in (asked, taken u.id ∷ events))

unfoldable pub ask_each : Request → List Upstream → Asking → Asked × List Event
unfolding ask_provider
ask_each r [] a = (go_on a, [])
ask_each r (u ∷ us) a =
    let (asked, events) = ask_provider r u a in
    elim asked [
      | found a' ↦ (found a', events)
      | go_on a' ↦ (let rest = ask_each r us a' in (rest.0, events ++ rest.1))
    ]

abbrev pub is_stat : Wanted → Bool
is_stat stat = true
is_stat (fetch command) = false

abbrev pub or_no_provider : Option ℕ → ℕ
or_no_provider none = 503
or_no_provider (some code) = code

-- Behind the arguments. The client's article number moves only if the article was found by number and, but for STAT, the
-- client took it.
unfoldable pub relay_article :
    Request → ℤ → List Upstream → Session → NegCache → (Session × NegCache) × List Event
unfolding ask_each
relay_article r num us s c =
    let (asked, events) = ask_each r us (record { response = none; checked = []; cache = c }) in
    elim asked [
      | found a ↦ (
        (
          if r.by_number && (r.client_ok || is_stat r.wanted)
              then record s { msg_num = num }
              else s,
          a.cache,
        ),
        events,
      )
      | go_on a ↦ ((s, a.cache), events ++ replied (or_no_provider a.response) ∷ [])
    ]

-- strings.HasSuffix(id, ">").
abbrev pub ends_id : Line → Bool
ends_id [] = false
ends_id (c ∷ []) = c == b'>'
ends_id (c ∷ d ∷ id) = ends_id (d ∷ id)

unfoldable pub is_valid_message_id : Line → Bool
unfolding has_prefix
is_valid_message_id id = has_prefix id (codes "<") && ends_id id

-- The number of isValidMessageID, 0 where it is none.
unfoldable pub article_number : Line → ℤ
unfolding parse_int
article_number id = let (n, bad) = parse_int id in if not bad && is_positive n then n else pos 0

-- A number only means something in its group.
unfoldable pub number_key : Session → ℤ → Line
unfolding decimal
number_key s num = s.group ++ (b':' ∷ decimal num)

abbrev pub asking_number : Request → Session → ℤ → Request
asking_number r s num = record r { by_number = true; key = number_key s num }

abbrev pub asking_id : Request → Line → Request
asking_id r id = record r { by_number = false; key = id }

unfoldable pub handle_article :
    Request → List Upstream → List Line → Session → NegCache → (Session × NegCache) × List Event
unfolding relay_article is_valid_message_id article_number
handle_article r us [] s c =
    if no_line s.group
    then ((s, c), replied 412 ∷ [])
    else if not (is_positive s.msg_num)
    then ((s, c), replied 420 ∷ [])
    else relay_article (asking_number r s s.msg_num) s.msg_num us s c
handle_article r us (id ∷ args) s c =
    let num = article_number id in
    if is_valid_message_id id
    then relay_article (asking_id r id) (pos 0) us s c
    else if not (is_positive num)
    then ((s, c), replied 501 ∷ [])
    else if no_line s.group
    then ((s, c), replied 412 ∷ [])
    else relay_article (asking_number r s num) num us s c
