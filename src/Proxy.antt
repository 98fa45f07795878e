-- ===== src/Proxy.antt =====
-- Proxy.go: the commands of a logged-in client. What happens on the upstream connections and towards the client is
-- a list of events, in their order; the text of a reply is left out but for its code. What the upstream servers
-- do is an argument.
pub mod Commands
pub mod Articles
pub mod ClientLines
pub mod Server
pub mod Logins
pub mod Order
pub mod Handled
pub mod Replies
pub mod Asked
pub mod Relayed
pub mod BeforeLogin
pub mod Sessions
use nzbre_x.Prelude.{
  ℕ, ◌+◌, Bool, true, false, List, [], ◌∷◌, ◌++◌, Option, none, some, if◌then◌else◌, ◌&&◌, ◌||◌,
  not, ◌==◌, leb, length, keep,
}
use nzbre_x.Nntp.{Line}
use nzbre_x.Rapid.Fields.{ℤ}

-- GetConn gave a connection of the provider; a command could not be written or its answer not be read to
-- the end; ParkConn or CloseConn was called; a reply with a code went to the client.
pub data Event : Type 0 where
  taken lost parked closed : ℕ → Event
  replied : ℕ → Event

-- A status line: its code, whether it is continued, and strings.Fields of the text behind it.
pub record StatusLine : Type 0 where
  pub code : ℕ
  pub continued : Bool
  pub fields : List Line

-- What reading a dot-terminated block comes to.
pub data Block : Type 0 where
  all_read too_large cut_off : Block

-- A provider during one command: whether GetConn has a connection, what the server answers to the commands that are
-- sent one after the other (`none` where the command or the answer is lost, as behind the last one), the block
-- behind an answer, and the lines behind the answer to ARTICLE, HEAD or BODY.
pub record Upstream : Type 0 where
  pub id : ℕ
  pub group : Line
  pub no_download : Bool
  pub newsreader : Bool
  pub connects : Bool
  pub answers : List (Option StatusLine)
  pub block : Block
  pub lines : List Line

-- What a command of a logged-in client reads and changes; an empty group is none.
pub record Session : Type 0 where
  pub group : Line
  pub msg_num : ℤ
  pub selected_provider : Option ℕ

unfoldable pub next_answer : List (Option StatusLine) → Option StatusLine × List (Option StatusLine)
next_answer [] = (none, [])
next_answer (a ∷ answers) = (a, answers)

-- ReadCodeLine(0): a line that says that more lines follow is an error.
unfoldable pub read_status : Option StatusLine → Option StatusLine
read_status none = none
read_status (some s) = if s.continued then none else some s

-- upstreamCmd; `none` is the code 0.
unfoldable pub upstream_cmd :
    List (Option StatusLine) → Option StatusLine × List (Option StatusLine)
unfolding next_answer read_status
upstream_cmd answers = (read_status (next_answer answers).0, (next_answer answers).1)

-- upstreamBlock with the connection of provider `id`: the code, `none` for 0, and what happens.
unfoldable pub upstream_block : ℕ → ℕ → Block → List (Option StatusLine) → Option ℕ × List Event
unfolding upstream_cmd
upstream_block id ok_code block answers = elim (upstream_cmd answers).0 [
  | none ↦ (none, lost id ∷ closed id ∷ [])
  | some s ↦ if not (s.code == ok_code) then (some s.code, parked id ∷ []) else elim block [
    | all_read ↦ (some s.code, parked id ∷ [])
    | too_large ↦ (some 503, lost id ∷ closed id ∷ [])
    | cut_off ↦ (none, lost id ∷ closed id ∷ [])
  ]
]

abbrev pub is_selected : Option ℕ → ℕ → Bool
is_selected none id = true
is_selected (some selected) id = id == selected

abbrev pub serves_readers : Session → Upstream → Bool
serves_readers s u = not (u.no_download || not u.newsreader) && is_selected s.selected_provider u.id

unfoldable pub reader_providers : Session → List Upstream → List Upstream
reader_providers s us = keep (serves_readers s) us

-- selectGroup: the connection goes on with the answers that are left, or it was handled, with the client
-- answered or not.
pub data Selecting : Type 0 where
  selected : List (Option StatusLine) → Selecting
  handled : (answered : Bool) → List Event → Selecting

unfoldable pub select_group : ℕ → List (Option StatusLine) → Selecting
unfolding upstream_cmd
select_group id answers = elim (upstream_cmd answers).0 [
  | none ↦ handled false (lost id ∷ closed id ∷ [])
  | some s ↦
      if not (s.code == 211)
      then handled true (parked id ∷ replied s.code ∷ [])
      else selected (upstream_cmd answers).1
]

-- What one provider comes to in the loop of a command: the client has its reply, or the next one is tried.
pub record Tried : Type 0 where
  pub done : Bool
  pub events : List Event

abbrev pub next_one : List Event → Tried
next_one events = record { done = false; events = events }

abbrev pub answered : List Event → Tried
answered events = record { done = true; events = events }

-- The block of LIST, XOVER or XHDR behind GetConn and selectGroup.
unfoldable pub try_block : ℕ → Upstream → List (Option StatusLine) → Tried
unfolding upstream_block
try_block ok_code u answers =
    let (code, events) = upstream_block u.id ok_code u.block answers in
    elim code [ none ↦ next_one events | some c ↦ answered (events ++ replied c ∷ []) ]

-- The body of the loops of LIST, XOVER and XHDR, behind GetConn and with it; `in_group` is that the group is
-- selected first.
unfoldable pub try_connected : Bool → ℕ → Upstream → Tried
unfolding select_group try_block
try_connected false ok_code u =
    let t = try_block ok_code u u.answers in record t { events = taken u.id ∷ t.events }
try_connected true ok_code u = elim (select_group u.id u.answers) [
  | handled true events ↦ answered (taken u.id ∷ events)
  | handled false events ↦ next_one (taken u.id ∷ events)
  | selected answers ↦
      let t = try_block ok_code u answers in record t { events = taken u.id ∷ t.events }
]

unfoldable pub try_provider : Bool → ℕ → Upstream → Tried
unfolding try_connected
try_provider in_group ok_code u =
    if u.connects then try_connected in_group ok_code u else next_one []

-- Such a loop: the provider that the client was answered from, if any, and what happens.
unfoldable pub try_each : (Upstream → Tried) → List Upstream → Option Upstream × List Event
try_each try [] = (none, [])
try_each try (u ∷ us) =
    let t = try u in
    let rest = try_each try us in
    if t.done then (some u, t.events) else (rest.0, t.events ++ rest.1)
