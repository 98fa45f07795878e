-- ===== src/Cache/Restored.antt =====
-- Cache.go: what the reader restores of an article that the writer stored.
use mathlib.Core.List.{append-nil, append_assoc}
use nzbre_x.Prelude.{
  ℕ, ◌<◌, Bool, true, false, List, [], ◌∷◌, ◌++◌, ◌≡◌, ◌≢◌, refl, ap, ◌∙◌, inl, inr, arith, none,
  some, ◌==◌, length, length-append, drop, nat_eq, list_eq, =?_refl, All, Bool-cases,
}
use nzbre_x.Prelude.Map.{get, delete, get-put}
use nzbre_x.Nntp.{Line, lf}
use nzbre_x.Cache.{
  Disk, CachedItem, no_article, written, content, tmp_of, bytes_at, write_over, store_tmp,
  rename_tmp, cache_writer, drop_last, split_lf, read_cache,
}

abbrev pub NoLf : Line → Type 0
NoLf line = All (λ c. (c == lf) ≡ false) line

-- The lines of a file, without the last byte.
abbrev pub lines_of : List ℕ → List Line
lines_of [] = []
lines_of (c ∷ bytes) = split_lf (drop_last (c ∷ bytes))

split_lf-some :
    (bytes : List ℕ) → (line : Line) × (lines : List Line) × (split_lf bytes ≡ line ∷ lines)
unfolding split_lf
split_lf-some [] = ([], [], refl)
split_lf-some (c ∷ bytes) =
    let (line, lines, e) = split_lf-some bytes in
    elim (Bool-cases (c == lf)) [
      | inl t ↦ ([], line ∷ lines, rw (e, t, split_lf) refl)
      | inr t ↦ (c ∷ line, lines, rw (e, t, split_lf) refl)
    ]

split_lf-append :
    (line : Line) (bytes : List ℕ)
    → NoLf line
    → split_lf (line ++ (lf ∷ bytes)) ≡ line ∷ split_lf bytes
unfolding split_lf
split_lf-append [] bytes h = let (line, lines, e) = split_lf-some bytes in rw (e, split_lf) refl
split_lf-append (c ∷ line) bytes h = rw (split_lf-append line bytes h.1, h.0) refl

drop_last-append :
    (xs : List ℕ) (y : ℕ) (ys : List ℕ) → drop_last (xs ++ (y ∷ ys)) ≡ xs ++ drop_last (y ∷ ys)
unfolding drop_last
drop_last-append [] y ys = refl
drop_last-append (x ∷ []) y ys = refl
drop_last-append (x ∷ z ∷ xs) y ys = ap (λ l. x ∷ l) (drop_last-append (z ∷ xs) y ys)

split_lf-line : (line : Line) → NoLf line → split_lf line ≡ line ∷ []
unfolding split_lf
split_lf-line [] h = refl
split_lf-line (c ∷ line) h = rw (split_lf-line line h.1, h.0) refl

lines_of-nonempty :
    (line : Line) (bytes : List ℕ)
    → lines_of (line ++ (lf ∷ bytes)) ≡ split_lf (drop_last (line ++ (lf ∷ bytes)))
lines_of-nonempty [] bytes = refl
lines_of-nonempty (c ∷ line) bytes = refl

lines_of-line :
    (line : Line) (bytes : List ℕ)
    → NoLf line
    → lines_of (line ++ (lf ∷ bytes)) ≡ line ∷ lines_of bytes
unfolding drop_last
lines_of-line line [] h =
    lines_of-nonempty line []
    ∙ ap split_lf (drop_last-append line lf [] ∙ append-nil line)
    ∙ split_lf-line line h
lines_of-line line (b ∷ bytes) h =
    lines_of-nonempty line (b ∷ bytes)
    ∙ ap split_lf (drop_last-append line lf (b ∷ bytes))
    ∙ split_lf-append line (drop_last (b ∷ bytes)) h

lines_of-content :
    (lines : List Line) (tail : List ℕ)
    → All NoLf lines
    → lines_of (content lines ++ tail) ≡ lines ++ lines_of tail
unfolding content
lines_of-content [] tail h = refl
lines_of-content (line ∷ lines) tail h =
    ap lines_of (append_assoc line (lf ∷ content lines) tail)
    ∙ lines_of-line line (content lines ++ tail) h.0
    ∙ ap (λ l. line ∷ l) (lines_of-content lines tail h.1)

stored_bytes :
    (filename : Line) (bytes : List ℕ) (disk : Disk)
    → get filename (rename_tmp filename (store_tmp filename bytes disk))
      ≡ some (write_over bytes (bytes_at (tmp_of filename) disk))
unfolding rename_tmp
stored_bytes filename bytes disk =
    let tmp = tmp_of filename in
    let stored = get-put tmp tmp (write_over bytes (bytes_at tmp disk)) disk in
    let new = store_tmp filename bytes disk in
    let there = get-put filename filename (bytes_at tmp new) (delete tmp new) in
    let same : bytes_at tmp new ≡ write_over bytes (bytes_at tmp disk) =
      ground (arith, stored, =?_refl tmp) in
    ground (arith, there, =?_refl filename, same)

content-ne_nil : (lines : List Line) → lines ≢ [] → 0 < length (content lines)
unfolding content
content-ne_nil [] h = absurd (h refl)
content-ne_nil (line ∷ lines) h = omega (arith, length-append line (lf ∷ content lines))

article-ne_nil : (lines : List Line) → lines ≢ [] → (length lines == 0) ≡ false
article-ne_nil [] h = absurd (h refl)
article-ne_nil (line ∷ lines) h = ground arith

read_cache-some :
    (bytes : List ℕ) (item : CachedItem)
    → 0 < length bytes
    → item.article ≡ []
    → let read = (read_cache (some bytes) item).0 in
      (read.article ≡ lines_of bytes) × (read.flag_cache ≡ true) × (read.flagin_dl ≡ false)
unfolding read_cache
read_cache-some [] item h e = absurd (omega arith)
read_cache-some (c ∷ bytes) item h e =
    let none' : no_article item ≡ true = rw e refl in ground (arith, none')

-- An article of lines without an LF that CacheWriter stored under a name that was not on the disk is restored by a later
-- ReadCache of an item without an article: its lines, and behind them those of what an earlier
-- temporary file of that name had beyond the length of the article, since it is not truncated. With no
-- such rest it is the article. The item is in the cache then and no longer in download.
pub read-cache_writer :
    (free : Bool) (filename : Line) (item later : CachedItem) (disk : Disk)
    → item.article ≢ []
    → All NoLf item.article
    → get filename disk ≡ none
    → later.article ≡ []
    → let disk' = (cache_writer free filename written item disk).0.0 in
      let read = (read_cache (get filename disk') later).0 in
      let rest = drop (length (content item.article)) (bytes_at (tmp_of filename) disk) in
      (read.article ≡ item.article ++ lines_of rest)
      × (read.flag_cache ≡ true)
      × (read.flagin_dl ≡ false)
unfolding cache_writer
read-cache_writer free filename item later disk ne h new empty =
    let bytes = content item.article in
    let old = bytes_at (tmp_of filename) disk in
    let not_empty : no_article item ≡ false = article-ne_nil item.article ne in
    let file : get filename (cache_writer free filename written item disk).0.0
        ≡ some (write_over bytes old) =
      rw (not_empty, new, cache_writer) (stored_bytes filename bytes disk) in
    let long : 0 < length (write_over bytes old) =
      unfold write_over in
      omega
        (arith, content-ne_nil item.article ne, length-append bytes (drop (length bytes) old)) in
    let (lines, flag, dl) = read_cache-some (write_over bytes old) later long empty in
    rw file (
      lines ∙ (unfold write_over in lines_of-content item.article (drop (length bytes) old) h),
      flag,
      dl,
    )
