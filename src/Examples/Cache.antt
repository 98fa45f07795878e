-- ===== src/Examples/Cache.antt =====
-- Cache.go at concrete inputs.
use nzbre_x.Prelude.{
  ◌≡◌, refl, true, false, [], ◌∷◌, ◌++◌, length, drop, same_list, nat_eq, list_eq,
}
use nzbre_x.Prelude.Map.{get}
use nzbre_x.Nntp.{codes}
use nzbre_x.Cache.{
  Disk, CachedItem, tmp_of, bytes_at, written, content, drop_last, split_lf, cache_writer,
  read_cache,
}
use nzbre_x.Cache.Restored.{lines_of, read-cache_writer}

abbrev empty : CachedItem
empty = record { article = []; size = 0; flag_cache = false; flagin_dl = true; flagin_dlmem = true }

abbrev downloaded : CachedItem
downloaded = record empty { article = codes "Path: x" ∷ [] ∷ codes "hi" ∷ [] }

-- An earlier write left a longer temporary file.
abbrev disk : Disk
disk = (tmp_of (codes "id.art"), content (codes "0123456789" ∷ codes "abcdef" ∷ [])) ∷ []

read-cache_writer_example :
    let disk' = (cache_writer true (codes "id.art") written downloaded disk).0.0 in
    let read = (read_cache (get (codes "id.art") disk') empty).0 in
    let rest =
      drop (length (content downloaded.article)) (bytes_at (tmp_of (codes "id.art")) disk) in
    (read.article ≡ downloaded.article ++ lines_of rest)
    × (read.flag_cache ≡ true)
    × (read.flagin_dl ≡ false)
unfolding get same_list
read-cache_writer_example =
    read-cache_writer true (codes "id.art") downloaded empty disk (λ e. cc e)
      ((refl, (refl, (refl, (refl, (refl, (refl, (refl, tt))))))), (tt, ((refl, (refl, tt)), tt)))
      refl refl

-- What the rest amounts to here.
rest_test :
    lines_of (
      drop
        (length (content downloaded.article))
        (content (codes "0123456789" ∷ codes "abcdef" ∷ [])))
    ≡ codes "bcdef" ∷ []
unfolding content split_lf drop_last
rest_test = refl
