-- ===== src/Proxy/Asked.antt =====
-- Server.go: what one provider comes to in the loop of ARTICLE, HEAD, BODY and STAT.
use nzbre_x.Prelude.{
  ℕ, Bool, true, false, List, [], ◌∷◌, ◌≡◌, refl, ◌∙◌, inl, inr, arith, Option, none, some,
  if◌then◌else◌, ◌==◌, not, ◌||◌, ◌&&◌, contains, nat_eq, list_eq, All, Bool-cases, Option-cases,
}
use nzbre_x.Nntp.{Line}
use nzbre_x.Nntp.Reader.{Fetch, Options, ReadResult, failed, stored, bad_crc, read_dot_lines}
use nzbre_x.Nntp.Commands.{Fetched, fetched, read_code_line, cmd}
use nzbre_x.NegCache.{is_article_not_found}
use nzbre_x.Proxy.{upstream_cmd, Event, taken, StatusLine, Upstream, next_answer}
use nzbre_x.Proxy.Articles.{
  stat, fetch, Request, Asking, Asked, go_on, found, passed_over, is_missing, ask_stat, to_answer,
  was_lost, failed_reading, is_article_code, judge_article, ask_article, ask_wanted, ask_connected,
  ask_provider,
}
use nzbre_x.Proxy.Order.{Holding, free, held, Leads, Leads-taken, HasCode}
use nzbre_x.Proxy.Handled.{Leads-parked, Leads-lost, Leads-answered, Leads-nothing}

-- A provider that has the article replies to the client.
abbrev pub AskedWell : Holding → Asked × List Event → Type 0
AskedWell h (found a, events) = Leads h events free 1
AskedWell h (go_on a, events) = Leads h events free 0

AskedWell-if :
    (h : Holding) (b : Bool) (x y : Asked × List Event)
    → AskedWell h x
    → AskedWell h y
    → AskedWell h (if b then x else y)
AskedWell-if h true x y p q = p
AskedWell-if h false x y p q = q

AskedWell-taken :
    (id : ℕ) (asked : Asked) (events : List Event)
    → AskedWell (held id) (asked, events)
    → AskedWell free (asked, taken id ∷ events)
AskedWell-taken id (found a) events p = Leads-taken id 1 events p
AskedWell-taken id (go_on a) events p = Leads-taken id 0 events p

ask_stat-AskedWell :
    (r : Request) (u : Upstream) (answers : List (Option StatusLine)) (a : Asking)
    → AskedWell (held u.id) (ask_stat r u answers a)
unfolding ask_stat
ask_stat-AskedWell r u answers a = elim (Option-cases (upstream_cmd answers).0) [
  | inl e ↦ rw (e, ask_stat) (Leads-lost u.id)
  | inr (s, e) ↦
      rw (e, ask_stat)
        (AskedWell-if (held u.id) (s.code == 223) _ _ (Leads-answered u.id 223) (
          AskedWell-if (held u.id) (is_missing s.code) _ _ (Leads-parked u.id) (Leads-parked u.id)))
]

-- The proxy takes a connection for lost exactly if CMD had no answer or could not read the article to its end.
fetched-lost :
    (code : ℕ) (result : ReadResult × List Line)
    → is_article_code code ≡ true
    → failed_reading (fetched code result).result ≡ (
        (fetched code result).err
        && ((fetched code result).code == 0 || is_article_code (fetched code result).code))
unfolding fetched
fetched-lost code (failed was_closed n, rest) h = ground (arith, h)
fetched-lost code (bad_crc n, rest) h = refl
fetched-lost code (stored n lines, rest) h = refl

cmd-lost :
    (broken : List Line → Bool) (o : Options) (command : Fetch) (answer : Option StatusLine)
    (lines : List Line)
    → HasCode answer
    → let got = cmd broken o command true (to_answer answer) lines in
      was_lost answer got.result ≡ (got.err && (got.code == 0 || is_article_code got.code))
unfolding cmd read_code_line
cmd-lost broken o command none lines h = refl
cmd-lost broken o command (some s) lines h = elim (Bool-cases (is_article_code s.code)) [
  | inl t ↦ rw (t, cmd) (fetched-lost s.code (read_dot_lines broken o command lines) t)
  | inr t ↦ rw (t, cmd) (ground (arith, h, t))
]

judge_article-AskedWell :
    (r : Request) (u : Upstream) (a : Asking) (answer : Option StatusLine) (got : Fetched)
    → was_lost answer got.result ≡ (got.err && (got.code == 0 || is_article_code got.code))
    → AskedWell (held u.id) (judge_article r u a answer got)
unfolding judge_article
judge_article-AskedWell r u a answer got h =
    elim (Bool-cases (got.err && (got.code == 0 || is_article_code got.code))) [
      | inl t ↦ rw (h ∙ t, t) (Leads-lost u.id)
      | inr t ↦
          rw (h ∙ t, t)
            (AskedWell-if (held u.id) (is_article_code got.code) _ _ (Leads-answered u.id got.code)
              (AskedWell-if (held u.id) (got.code == 99932) _ _ (Leads-parked u.id) (
                AskedWell-if (held u.id) (is_missing got.code) _ _ (Leads-parked u.id)
                  (Leads-parked u.id))))
    ]

ask_wanted-AskedWell :
    (r : Request) (u : Upstream) (answers : List (Option StatusLine)) (a : Asking)
    → HasCode (next_answer answers).0
    → AskedWell (held u.id) (ask_wanted r u answers a)
unfolding ask_wanted ask_article
ask_wanted-AskedWell r u answers a h =
    elim r.wanted
      as (λ w. AskedWell (held u.id) (elim w [
        | stat ↦ ask_stat r u answers a
        | fetch command ↦ ask_article r command u answers a
      ])) [
        | stat ↦ ask_stat-AskedWell r u answers a
        | fetch command ↦
            judge_article-AskedWell r u a (next_answer answers).0
              (cmd r.broken r.options command true (to_answer (next_answer answers).0) u.lines)
              (cmd-lost r.broken r.options command (next_answer answers).0 u.lines h)
      ]

HasCode-next :
    (answers : List (Option StatusLine)) → All HasCode answers → HasCode (next_answer answers).0
unfolding next_answer
HasCode-next [] h = tt
HasCode-next (x ∷ answers) h = h.0

HasCode-rest :
    (answers : List (Option StatusLine)) → All HasCode answers → All HasCode (next_answer answers).1
unfolding next_answer
HasCode-rest [] h = tt
HasCode-rest (x ∷ answers) h = h.1

-- What upstreamCmd leaves has codes too.
cmd_rest :
    (answers : List (Option StatusLine))
    → All HasCode answers
    → All HasCode (upstream_cmd answers).1
unfolding upstream_cmd
cmd_rest answers h = HasCode-rest answers h

ask_connected-AskedWell :
    (r : Request) (u : Upstream) (a : Asking)
    → All HasCode u.answers
    → AskedWell (held u.id) (ask_connected r u a)
unfolding ask_connected
ask_connected-AskedWell r u a h = elim (Bool-cases r.by_number) [
  | inr t ↦ simp t (ask_wanted-AskedWell r u u.answers a (HasCode-next u.answers h))
  | inl t ↦ elim (Option-cases (upstream_cmd u.answers).0) [
    | inl e ↦ simp (t, e) (Leads-lost u.id)
    | inr (s, e) ↦
        simp (t, e)
          (AskedWell-if (held u.id) (not (s.code == 211)) _ _ (Leads-parked u.id) (
            ask_wanted-AskedWell r u (upstream_cmd u.answers).1 a
              (HasCode-next (upstream_cmd u.answers).1 (cmd_rest u.answers h))))
  ]
]

pub ask_provider-AskedWell :
    (r : Request) (u : Upstream) (a : Asking)
    → All HasCode u.answers
    → AskedWell free (ask_provider r u a)
unfolding ask_provider
ask_provider-AskedWell r u a h =
    let asked = ask_connected r u a in
    let over : Asked × List Event = (go_on (passed_over r a), []) in
    let fails : Asked × List Event = (go_on a, []) in
    let known = contains u.group a.checked || is_article_not_found r.now r.key u.group a.cache in
    let tries : Asked × List Event =
      if not u.connects then fails else (asked.0, taken u.id ∷ asked.1) in
    let nothing = Leads-nothing free in
    AskedWell-if free (u.no_download || r.by_number && not u.newsreader) over
      (if known then over else tries) nothing
      (AskedWell-if free known over tries nothing (
        AskedWell-if free (not u.connects) fails (asked.0, taken u.id ∷ asked.1) nothing
          (AskedWell-taken u.id asked.0 asked.1 (ask_connected-AskedWell r u a h))))
