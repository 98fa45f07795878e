-- ===== src/Nntp/Capabilities.antt =====
-- NetConn.go: checkCapabilities, and what its answer says of the provider.
use nzbre_x.Prelude.{
  ◌+◌, Bool, true, false, List, [], ◌∷◌, Option, none, some, ◌≡◌, refl, if◌then◌else◌, ◌&&◌, ◌||◌,
  not, ltb, map, arith, Bool-cases, inl, inr,
}
use nzbre_x.Nntp.{Line, codes}
use nzbre_x.Nntp.Commands.{
  Answer, Capas, Uploader, is_capability, same_line, read_capability, read_capabilities,
  check_capabilities, read_code_line, to_lower,
}
use nzbre_x.Nntp.Replies.{has_code}

-- The server lists a capability, in whatever case.
unfoldable pub lists : Line → List Line → Bool
lists name [] = false
lists name (line ∷ lines) = is_capability name line || lists name lines

-- The four capabilities that count a provider among those that can be uploaded to.
abbrev pub takes_uploads : List Line → Bool
takes_uploads lines =
    lists (codes "ihave") lines
    || lists (codes "post") lines
    || lists (codes "takethis") lines
    || lists (codes "streaming") lines

same_line-both :
    (line a b : Line) → same_line line a ≡ true → same_line line b ≡ true → same_line a b ≡ true
unfolding same_line
same_line-both [] [] [] h k = refl
same_line-both [] [] (d ∷ b) h k = absurd (cc k)
same_line-both [] (c ∷ a) b h k = absurd (cc h)
same_line-both (e ∷ line) [] b h k = absurd (cc h)
same_line-both (e ∷ line) (c ∷ a) [] h k = absurd (cc k)
same_line-both (e ∷ line) (c ∷ a) (d ∷ b) h k =
    let hs : same_line line a ≡ true = ground (arith, h) in
    let ks : same_line line b ≡ true = ground (arith, k) in
    ground (arith, h, k, same_line-both line a b hs ks)

-- A line names one capability only.
one_capability :
    (a b line : Line)
    → same_line a b ≡ false
    → (is_capability a line && is_capability b line) ≡ false
unfolding is_capability same_line
one_capability a b line h = elim (Bool-cases (is_capability a line)) [
  | inl p ↦ elim (Bool-cases (is_capability b line)) [
    | inl q ↦ absurd (cc (same_line-both (map to_lower line) a b p q, h))
    | inr q ↦ rw (p, q) refl
  ]
  | inr p ↦ rw p refl
]

read_capability-flags :
    (line : Line) (c : Capas)
    → ((read_capability line c).check ≡ (c.check || is_capability (codes "check") line))
      × ((read_capability line c).ihave ≡ (c.ihave || is_capability (codes "ihave") line))
      × ((read_capability line c).post ≡ (c.post || is_capability (codes "post") line))
      × ((read_capability line c).stream ≡ (
          c.stream
          || (is_capability (codes "takethis") line || is_capability (codes "streaming") line)))
      × (ltb 0 (read_capability line c).post_providers ≡ (
          ltb 0 c.post_providers
          || (is_capability (codes "ihave") line
              || is_capability (codes "post") line
              || is_capability (codes "takethis") line
              || is_capability (codes "streaming") line)))
unfolding read_capability
read_capability-flags line c =
    let u = one_capability (codes "check") (codes "ihave") line refl in
    let v = one_capability (codes "check") (codes "post") line refl in
    let w = one_capability (codes "check") (codes "takethis") line refl in
    let x = one_capability (codes "check") (codes "streaming") line refl in
    let y = one_capability (codes "ihave") (codes "post") line refl in
    let z = one_capability (codes "ihave") (codes "takethis") line refl in
    let t = one_capability (codes "ihave") (codes "streaming") line refl in
    let r = one_capability (codes "post") (codes "takethis") line refl in
    let s = one_capability (codes "post") (codes "streaming") line refl in
    (
      ground arith,
      ground (arith, u),
      ground (arith, v, y),
      ground (arith, w, x, z, t, r, s),
      ground (arith, u, v, w, x),
    )

read_capabilities-flags :
    (lines : List Line) (c : Capas)
    → ((read_capabilities lines c).check ≡ (c.check || lists (codes "check") lines))
      × ((read_capabilities lines c).ihave ≡ (c.ihave || lists (codes "ihave") lines))
      × ((read_capabilities lines c).post ≡ (c.post || lists (codes "post") lines))
      × ((read_capabilities lines c).stream
          ≡ (c.stream || (lists (codes "takethis") lines || lists (codes "streaming") lines)))
      × (ltb 0 (read_capabilities lines c).post_providers
          ≡ (ltb 0 c.post_providers || takes_uploads lines))
unfolding read_capabilities lists
read_capabilities-flags [] c =
    (ground arith, ground arith, ground arith, ground arith, ground arith)
read_capabilities-flags (line ∷ lines) c =
    let now = read_capability-flags line c in
    let later = read_capabilities-flags lines (read_capability line c) in
    (
      ground (arith, now.0, later.0),
      ground (arith, now.1, later.1),
      ground (arith, now.2, later.2),
      ground (arith, now.3, later.3),
      ground (arith, now.4, later.4),
    )

-- After an answer 101 and a list of capabilities, the provider has exactly the flags that the list
-- names in whatever case and order; it is closed to uploads exactly if none of IHAVE, POST, TAKETHIS and
-- STREAMING is among them, and counts as one more provider to post to exactly if one is.
pub check_capabilities_effect :
    (answer : Option Answer) (lines : List Line) (p : Uploader)
    → has_code 101 answer ≡ true
    → check_capabilities false true answer (some lines) true p ≡ (
      false,
      record {
        check = lists (codes "check") lines;
        ihave = lists (codes "ihave") lines;
        post = lists (codes "post") lines;
        stream = lists (codes "takethis") lines || lists (codes "streaming") lines;
        no_upload = not (takes_uploads lines);
        post_providers = if takes_uploads lines then p.post_providers + 1 else p.post_providers;
      },
    )
unfolding check_capabilities read_code_line
check_capabilities_effect none lines p h = absurd (cc h)
check_capabilities_effect (some a) lines p h =
    let flags =
      read_capabilities-flags lines (record {
        check = false;
        ihave = false;
        post = false;
        stream = false;
        post_providers = 0;
      }) in
    let i = lists (codes "ihave") lines in
    let o = lists (codes "post") lines in
    let t = lists (codes "takethis") lines in
    let s = lists (codes "streaming") lines in
    let none_of : (not i && not o && not (t || s)) ≡ not (i || o || t || s) = ground arith in
    rw (h, flags.0, flags.1, flags.2, flags.3, flags.4) (cc none_of)
