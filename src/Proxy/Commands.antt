-- ===== src/Proxy/Commands.antt =====
-- Proxy.go: GROUP, LIST, XOVER and OVER, XHDR and HDR, NEXT and LAST.
use nzbre_x.Prelude.{
  ℕ, Bool, true, false, List, [], ◌∷◌, ◌++◌, Option, none, some, if◌then◌else◌, ◌&&◌, ◌||◌, not,
  ◌==◌, ltb, length, get_or,
}
use nzbre_x.Nntp.{Line, codes, has_prefix}
use nzbre_x.Rapid.Fields.{ℤ, pos, negsuc, parse_int}
use nzbre_x.Passwd.{decimal}
use nzbre_x.Proxy.{
  Event, taken, lost, parked, closed, replied, StatusLine, Upstream, Session, upstream_cmd,
  reader_providers, selected, handled, select_group, Tried, next_one, answered, try_provider,
  try_each,
}

abbrev pub is_positive : ℤ → Bool
is_positive (pos n) = ltb 0 n
is_positive (negsuc n) = false

abbrev pub no_line : Line → Bool
no_line line = length line == 0

-- The values of a GROUP answer; strconv's errors are ignored.
pub record GroupInfo : Type 0 where
  pub provider : ℕ
  pub count : ℤ
  pub low : ℤ

unfoldable pub group_info : ℕ → StatusLine → GroupInfo
unfolding parse_int
group_info id s = record {
  provider = id;
  count = (parse_int (get_or s.fields 0 [])).0;
  low = (parse_int (get_or s.fields 1 [])).0;
}

-- The loop of handleGroupCommand.
unfoldable pub find_group : List Upstream → Option GroupInfo × List Event
unfolding upstream_cmd group_info
find_group [] = (none, [])
find_group (u ∷ us) =
    let rest = find_group us in
    if (u.no_download || not u.newsreader) || not u.connects
    then rest
    else elim (upstream_cmd u.answers).0 [
      | none ↦ (rest.0, taken u.id ∷ lost u.id ∷ closed u.id ∷ rest.1)
      | some s ↦
          if not (s.code == 211) || ltb (length s.fields) 4
          then (rest.0, taken u.id ∷ parked u.id ∷ rest.1)
          else (some (group_info u.id s), taken u.id ∷ parked u.id ∷ [])
    ]

unfoldable pub handle_group : List Upstream → List Line → Session → Session × List Event
unfolding find_group
handle_group us (name ∷ []) s =
    let (group, events) = find_group us in
    elim group [
      | none ↦ (record s { selected_provider = none }, events ++ replied 411 ∷ [])
      | some g ↦ (
        record {
          group = name;
          msg_num = if is_positive g.count then g.low else pos 0;
          selected_provider = some g.provider;
        },
        events ++ replied 211 ∷ [],
      )
    ]
handle_group us args s = (s, replied 501 ∷ [])

-- What ends LIST, XOVER, XHDR, NEXT and LAST where no provider answered.
abbrev pub no_providers : Session → List Event → Session × List Event
no_providers s events = (record s { selected_provider = none }, events ++ replied 503 ∷ [])

abbrev pub or_first : Option ℕ → ℕ → Option ℕ
or_first none id = some id
or_first (some p) id = some p

unfoldable pub handle_list : List Upstream → Session → Session × List Event
unfolding try_provider try_each reader_providers
handle_list us s =
    let (by, events) = try_each (try_provider false 215) (reader_providers s us) in
    elim by [
      | none ↦ no_providers s events
      | some u ↦ (record s { selected_provider = or_first s.selected_provider u.id }, events)
    ]

-- The loop of XOVER and XHDR behind their arguments.
unfoldable pub relay : Bool → ℕ → List Upstream → Session → Session × List Event
unfolding try_provider try_each reader_providers
relay in_group ok_code us s =
    let (by, events) = try_each (try_provider in_group ok_code) (reader_providers s us) in
    elim by [ none ↦ no_providers s events | some _ ↦ (s, events) ]

-- The parts of a text between its dashes.
unfoldable pub split_dash : Line → List Line
split_dash [] = [] ∷ []
split_dash (c ∷ text) = elim (split_dash text) [
  | [] ↦ []
  | part ∷ parts ↦ if c == b'-' then [] ∷ part ∷ parts else (c ∷ part) ∷ parts
]

-- n, n- or n-m.
unfoldable pub is_range : List Line → Bool
unfolding parse_int
is_range (first ∷ []) = not (parse_int first).1
is_range (first ∷ last ∷ []) = not (parse_int first).1 && (no_line last || not (parse_int last).1)
is_range _ = false

unfoldable pub xover_range : Line → List Upstream → Session → Session × List Event
unfolding split_dash is_range relay
xover_range range us s =
    if is_range (split_dash range) then relay true 224 us s else (s, replied 501 ∷ [])

unfoldable pub handle_xover : List Upstream → List Line → Session → Session × List Event
unfolding xover_range decimal
handle_xover us [] s =
    if no_line s.group
    then (s, replied 412 ∷ [])
    else if not (is_positive s.msg_num)
    then (s, replied 420 ∷ [])
    else xover_range (decimal s.msg_num) us s
handle_xover us (range ∷ []) s =
    if no_line s.group then (s, replied 412 ∷ []) else xover_range range us s
handle_xover us (_ ∷ _ ∷ _) s =
    if no_line s.group then (s, replied 412 ∷ []) else (s, replied 501 ∷ [])

-- 221 for XHDR, 225 for HDR. Arguments are the fields of a line, none of them empty.
abbrev pub hdr_code : Bool → ℕ
hdr_code is_xhdr = if is_xhdr then 221 else 225

unfoldable pub handle_xhdr : Bool → List Upstream → List Line → Session → Session × List Event
unfolding relay has_prefix
handle_xhdr is_xhdr us [] s = (s, replied 501 ∷ [])
handle_xhdr is_xhdr us (header ∷ []) s =
    if no_line s.group
    then (s, replied 412 ∷ [])
    else if not (is_positive s.msg_num)
    then (s, replied 420 ∷ [])
    else relay true (hdr_code is_xhdr) us s
handle_xhdr is_xhdr us (header ∷ arg ∷ []) s =
    if has_prefix arg (codes "<")
    then relay false (hdr_code is_xhdr) us s
    else if no_line s.group
    then (s, replied 412 ∷ [])
    else relay true (hdr_code is_xhdr) us s
handle_xhdr is_xhdr us (header ∷ arg ∷ more ∷ args) s = (s, replied 501 ∷ [])

-- The answer to NEXT or LAST, behind ParkConn: the article number and the code for the client.
unfoldable pub moved_to : StatusLine → ℤ → ℤ × ℕ
unfolding parse_int
moved_to a n =
    let (m, bad) = parse_int (get_or a.fields 0 []) in
    if not (a.code == 223)
    then (n, a.code)
    else if ltb (length a.fields) 2
    then (n, 503)
    else (if bad then n else m, 223)

-- STAT of the current article and then NEXT or LAST, in the group.
unfoldable pub stat_and_move : ℕ → List (Option StatusLine) → ℤ → Tried × ℤ
unfolding upstream_cmd moved_to
stat_and_move id answers n = elim (upstream_cmd answers).0 [
  | none ↦ (next_one (lost id ∷ closed id ∷ []), n)
  | some a ↦
      if not (a.code == 223)
      then (answered (parked id ∷ replied a.code ∷ []), n)
      else elim (upstream_cmd (upstream_cmd answers).1).0 [
        | none ↦ (next_one (lost id ∷ closed id ∷ []), n)
        | some b ↦ (answered (parked id ∷ replied (moved_to b n).1 ∷ []), (moved_to b n).0)
      ]
]

-- The body of the loop of handleNextOrLastCommand, and the loop.
unfoldable pub try_move : Upstream → ℤ → Tried × ℤ
unfolding select_group stat_and_move
try_move u n = if not u.connects then (next_one [], n) else elim (select_group u.id u.answers) [
  | handled true events ↦ (answered (taken u.id ∷ events), n)
  | handled false events ↦ (next_one (taken u.id ∷ events), n)
  | selected answers ↦
      let (t, m) = stat_and_move u.id answers n in (record t { events = taken u.id ∷ t.events }, m)
]

unfoldable pub move_each : List Upstream → ℤ → Option ℤ × List Event
unfolding try_move
move_each [] n = (none, [])
move_each (u ∷ us) n =
    let (t, m) = try_move u n in
    let rest = move_each us n in if t.done then (some m, t.events) else (rest.0, t.events ++ rest.1)

unfoldable pub handle_next_or_last : List Upstream → Session → Session × List Event
unfolding move_each reader_providers
handle_next_or_last us s =
    let (m, events) = move_each (reader_providers s us) s.msg_num in
    if no_line s.group
    then (s, replied 412 ∷ [])
    else if not (is_positive s.msg_num)
    then (s, replied 420 ∷ [])
    else elim m [ none ↦ no_providers s events | some n ↦ (record s { msg_num = n }, events) ]
