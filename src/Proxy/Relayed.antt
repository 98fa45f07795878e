-- ===== src/Proxy/Relayed.antt =====
-- Server.go: ARTICLE, HEAD, BODY and STAT answer the client once, with no connection held.
use nzbre_x.Prelude.{List, [], ◌∷◌, ◌++◌, none, if◌then◌else◌, not, nat_eq, list_eq}
use nzbre_x.Nntp.{Line}
use nzbre_x.Rapid.Fields.{ℤ, pos}
use nzbre_x.NegCache.{NegCache}
use nzbre_x.Proxy.{Event, replied, Upstream, Session}
use nzbre_x.Proxy.Commands.{is_positive, no_line}
use nzbre_x.Proxy.Articles.{
  Request, Asking, Asked, go_on, found, ask_provider, ask_each, relay_article, or_no_provider,
  is_valid_message_id, article_number, asking_number, asking_id, handle_article,
}
use nzbre_x.Proxy.Order.{free, Leads, Leads-next, HaveCodes}
use nzbre_x.Proxy.Handled.{Leads-replied, Leads-nothing}
use nzbre_x.Proxy.Replies.{AnswersOnce, AnswersOnce-if, Leads-then_reply}
use nzbre_x.Proxy.Asked.{AskedWell, ask_provider-AskedWell}

AskedWell-next :
    (events : List Event) (rest : Asked × List Event)
    → Leads free events free 0
    → AskedWell free rest
    → AskedWell free (rest.0, events ++ rest.1)
AskedWell-next events (found a, more) h p = Leads-next events more h p
AskedWell-next events (go_on a, more) h p = Leads-next events more h p

-- The loop behind what one provider came to.
asked_next :
    (asked : Asked) (events : List Event) (next : Asking → Asked × List Event)
    → AskedWell free (asked, events)
    → ((a : Asking) → AskedWell free (next a))
    → AskedWell free (elim asked as (λ _. Asked × List Event) [
      | found a' ↦ (found a', events)
      | go_on a' ↦ (let rest = next a' in (rest.0, events ++ rest.1))
    ])
asked_next (found a) events next p q = p
asked_next (go_on a) events next p q = AskedWell-next events (next a) p (q a)

ask_each-AskedWell :
    (r : Request) (us : List Upstream) (a : Asking)
    → HaveCodes us
    → AskedWell free (ask_each r us a)
unfolding ask_each
ask_each-AskedWell r [] a h = Leads-nothing free
ask_each-AskedWell r (u ∷ us) a h =
    asked_next (ask_provider r u a).0 (ask_provider r u a).1 (ask_each r us)
      (ask_provider-AskedWell r u a h.0) (λ a'. ask_each-AskedWell r us a' h.1)

relayed_once :
    (asked : Asked) (events : List Event) (x y : Asking → Session × NegCache)
    → AskedWell free (asked, events)
    → AnswersOnce
        (elim asked as (λ _. (Session × NegCache) × List Event) [
          | found a ↦ (x a, events)
          | go_on a ↦ (y a, events ++ replied (or_no_provider a.response) ∷ [])
        ]).1
relayed_once (found a) events x y p = p
relayed_once (go_on a) events x y p = Leads-then_reply events (or_no_provider a.response) p

relay_article-AnswersOnce :
    (r : Request) (num : ℤ) (us : List Upstream) (s : Session) (c : NegCache)
    → HaveCodes us
    → AnswersOnce (relay_article r num us s c).1
unfolding relay_article
relay_article-AnswersOnce r num us s c h =
    let a : Asking = record { response = none; checked = []; cache = c } in
    relayed_once (ask_each r us a).0 (ask_each r us a).1 _ _ (ask_each-AskedWell r us a h)

with_article_of :
    (s : Session) (c : NegCache) (y : (Session × NegCache) × List Event)
    → AnswersOnce y.1
    → AnswersOnce
        (if no_line s.group
          then ((s, c), replied 412 ∷ [])
          else if not (is_positive s.msg_num)
          then ((s, c), replied 420 ∷ [])
          else y).1
with_article_of s c y h =
    let no_article : (Session × NegCache) × List Event = ((s, c), replied 420 ∷ []) in
    AnswersOnce-if (no_line s.group) ((s, c), replied 412 ∷ [])
      (if not (is_positive s.msg_num) then no_article else y) (Leads-replied 412)
      (AnswersOnce-if (not (is_positive s.msg_num)) no_article y (Leads-replied 420) h)

pub handle_article-AnswersOnce :
    (r : Request) (us : List Upstream) (args : List Line) (s : Session) (c : NegCache)
    → HaveCodes us
    → AnswersOnce (handle_article r us args s c).1
unfolding handle_article
handle_article-AnswersOnce r us [] s c h =
    let by_number = relay_article (asking_number r s s.msg_num) s.msg_num us s c in
    with_article_of s c by_number
      (relay_article-AnswersOnce (asking_number r s s.msg_num) s.msg_num us s c h)
handle_article-AnswersOnce r us (id ∷ args) s c h =
    let num = article_number id in
    let by_id = relay_article (asking_id r id) (pos 0) us s c in
    let by_number = relay_article (asking_number r s num) num us s c in
    let no_group : (Session × NegCache) × List Event = ((s, c), replied 412 ∷ []) in
    let bad : (Session × NegCache) × List Event = ((s, c), replied 501 ∷ []) in
    let in_group = if no_line s.group then no_group else by_number in
    AnswersOnce-if (is_valid_message_id id) by_id (if not (is_positive num) then bad else in_group)
      (relay_article-AnswersOnce (asking_id r id) (pos 0) us s c h)
      (AnswersOnce-if (not (is_positive num)) bad in_group (Leads-replied 501) (
        AnswersOnce-if (no_line s.group) no_group by_number (Leads-replied 412)
          (relay_article-AnswersOnce (asking_number r s num) num us s c h)))
