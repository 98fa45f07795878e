-- ===== src/Cache.antt =====
-- Cache.go: the article cache's files. The disk is a map from a path to the bytes of the file; what the file system
-- does with a call is an argument. The writer's and the reader's goroutines make one call at a time for an item.
pub mod Restored
use nzbre_x.Prelude.{
  ℕ, zero, suc, ◌+◌, Bool, true, false, List, [], ◌∷◌, ◌++◌, Option, none, some, if◌then◌else◌,
  ◌==◌, ◌||◌, not, ltb, length, drop, take, nat_eq, list_eq,
}
use nzbre_x.Prelude.Map.{Map, get, put, delete}
use nzbre_x.Nntp.{Line, codes, lf}

abbrev pub Disk : Type 0
Disk = Map Line (List ℕ)

-- The fields of a segmentChanItem that the cache reads and changes.
pub record CachedItem : Type 0 where
  pub article : List Line
  pub size : ℕ
  pub flag_cache : Bool
  pub flagin_dl : Bool
  pub flagin_dlmem : Bool

abbrev pub no_article : CachedItem → Bool
no_article item = length item.article == 0

-- How far CacheWriter comes behind its tests: what failed, and for a write or flush how many bytes are on the disk.
pub data Written : Type 0 where
  mkdir_failed open_failed rename_failed written : Written
  write_failed : ℕ → Written

-- The article as it is written, an LF behind each line.
unfoldable pub content : List Line → List ℕ
content [] = []
content (line ∷ lines) = line ++ (lf ∷ content lines)

abbrev pub tmp_of : Line → Line
tmp_of filename = filename ++ codes ".tmp"

abbrev pub bytes_at : Line → Disk → List ℕ
bytes_at path disk = elim (get path disk) [ none ↦ [] | some bytes ↦ bytes ]

-- The file is opened with O_CREATE and O_WRONLY: what it held behind the bytes that are written stays.
unfoldable pub write_over : List ℕ → List ℕ → List ℕ
write_over bytes old = bytes ++ drop (length bytes) old

abbrev pub store_tmp : Line → List ℕ → Disk → Disk
store_tmp filename bytes disk =
    put (tmp_of filename) (write_over bytes (bytes_at (tmp_of filename) disk)) disk

-- os.Rename of the temporary file.
unfoldable pub rename_tmp : Line → Disk → Disk
rename_tmp filename disk =
    put filename (bytes_at (tmp_of filename) disk) (delete (tmp_of filename) disk)

-- CacheWriter behind the tests for the directory and the file; `free` is that there are no post providers, or
-- uploads come later.
unfoldable pub write_article : Bool → Line → Written → CachedItem → Disk → (Disk × CachedItem) × ℕ
unfolding content write_over rename_tmp
write_article free filename mkdir_failed item disk = ((disk, item), 0)
write_article free filename open_failed item disk = ((disk, item), 0)
write_article free filename (write_failed kept) item disk =
    ((store_tmp filename (take kept (content item.article)) disk, item), 0)
write_article free filename rename_failed item disk =
    ((store_tmp filename (content item.article) disk, item), 0)
write_article free filename written item disk = (
  (
    rename_tmp filename (store_tmp filename (content item.article) disk),
    record item {
      flag_cache = true;
      flagin_dl = false;
      article = if free then [] else item.article;
    },
  ),
  length (content item.article),
)

abbrev pub is_mkdir_failed : Written → Bool
is_mkdir_failed mkdir_failed = true
is_mkdir_failed _ = false

unfoldable pub cache_writer : Bool → Line → Written → CachedItem → Disk → (Disk × CachedItem) × ℕ
unfolding write_article
cache_writer free filename outcome item disk =
    if no_article item || is_mkdir_failed outcome
    then ((disk, item), 0)
    else elim (get filename disk) [
      | some _ ↦ ((disk, record item { flag_cache = true }), 0)
      | none ↦ write_article free filename outcome item disk
    ]

unfoldable pub drop_last : List ℕ → List ℕ
drop_last [] = []
drop_last (c ∷ []) = []
drop_last (c ∷ d ∷ bytes) = c ∷ drop_last (d ∷ bytes)

-- strings.Split(text, "\n").
unfoldable pub split_lf : List ℕ → List Line
split_lf [] = [] ∷ []
split_lf (c ∷ bytes) = elim (split_lf bytes) [
  | [] ↦ []
  | line ∷ lines ↦ if c == lf then [] ∷ line ∷ lines else (c ∷ line) ∷ lines
]

-- CacheReader; `none` is a file that cannot be read.
unfoldable pub cache_reader : Option (List ℕ) → CachedItem → CachedItem × ℕ
unfolding drop_last split_lf
cache_reader none item = (item, 0)
cache_reader (some bytes) item =
    if ltb 0 (length bytes)
    then (
      record item { article = split_lf (drop_last bytes); flag_cache = true; flagin_dl = false },
      length bytes,
    )
    else (item, 0)

-- ReadCache, with the reader's answer.
unfoldable pub read_cache : Option (List ℕ) → CachedItem → CachedItem × ℕ
unfolding cache_reader
read_cache file item =
    let (item', n) = cache_reader file item in
    if not (no_article item)
    then (item, item.size)
    else if ltb 0 n
    then (
      record item' {
        flag_cache = true;
        size = if item'.size == 0 then n else item'.size;
        flagin_dl = false;
        flagin_dlmem = false;
      },
      n,
    )
    else (item', n)
