-- ===== src/Persistence/Budget.antt =====
-- `list_kv_files`, `enforce_kv_cache_budget` and `cleanup_stale_tmp_files`. The directory is a list of
-- entries; `unlinks p` says whether the removal of `p` succeeds. Times are seconds since the epoch.
pub mod Limit
pub mod Order
pub mod Stale
use reflex_llm.Base.{
  ℕ, ◌≤◌, All, ◌+◌, ◌-◌, ◌*◌, ◌≡◌, Bool, true, false, ◌&&◌, List, [], ◌∷◌, ltb, leb, ◌==◌,
  if◌then◌else◌,
}
use reflex_llm.Persistence.Files.{FilePath, path_discrete}

-- What the directory iterator and `stat` tell of one entry.
pub record DirEntry : Type 0 where
  pub path : FilePath
  pub extension : List ℕ
  pub is_regular : Bool
  pub has_stat : Bool
  pub mtime : ℕ
  pub size : ℕ

pub record CacheEntry : Type 0 where
  pub path : FilePath
  pub mtime : ℕ
  pub size_bytes : ℕ

unfoldable pub same_path : FilePath → FilePath → Bool
unfolding path_discrete
same_path p q = elim (path_discrete p q) [ yes e ↦ true | no e ↦ false ]

unfoldable pub list_kv_files : List DirEntry → (suffix : List ℕ) → List CacheEntry
list_kv_files [] suffix = []
list_kv_files (d ∷ ds) suffix =
    let rest = list_kv_files ds suffix in
    if d.is_regular && (same_path d.extension suffix && d.has_stat)
    then record { path = d.path; mtime = d.mtime; size_bytes = d.size } ∷ rest
    else rest

abbrev pub total_size : List CacheEntry → ℕ
total_size [] = 0
total_size (e ∷ es) = e.size_bytes + total_size es

-- Oldest first.
abbrev pub IsSorted : List CacheEntry → Type 0
IsSorted [] = Unit {0}
IsSorted (e ∷ es) = All (λ (f : CacheEntry). e.mtime ≤ f.mtime) es × IsSorted es

abbrev pub sum_of : (CacheEntry → ℕ) → List CacheEntry → ℕ
sum_of measure [] = 0
sum_of measure (e ∷ es) = measure e + sum_of measure es

-- What is relied on of `std::sort` by mtime: the times are in order (those that are equal in any), and
-- no measure of the entries can tell that they were moved.
pub record SortsByMtime (sort : List CacheEntry → List CacheEntry) : Type 0 where
  pub in_order : (es : List CacheEntry) → IsSorted (sort es)
  pub same_sums :
      (measure : CacheEntry → ℕ) (es : List CacheEntry)
      → sum_of measure (sort es) ≡ sum_of measure es

-- The entries unlinked, those left on disk, both oldest first, and the running total.
pub record Evicted : Type 0 where
  pub gone : List CacheEntry
  pub left : List CacheEntry
  pub total : ℕ

-- The loop of `enforce_kv_cache_budget`.
pub evict_loop :
    (max_bytes : ℕ) (keep_path : FilePath)
    → (FilePath → Bool)
    → (total : ℕ) → List CacheEntry
    → Evicted
evict_loop max_bytes keep unlinks total [] = record { gone = []; left = []; total = total }
evict_loop max_bytes keep unlinks total (e ∷ es) =
    let skipped = evict_loop max_bytes keep unlinks total es in
    let removed = evict_loop max_bytes keep unlinks (total - e.size_bytes) es in
    if leb total max_bytes
    then record { gone = []; left = e ∷ es; total = total }
    else (if same_path e.path keep
        then record skipped { left = e ∷ skipped.left }
        else (if unlinks e.path
            then record removed { gone = e ∷ removed.gone }
            else record skipped { left = e ∷ skipped.left }))

abbrev pub bin_suffix : List ℕ
bin_suffix = 46 ∷ 98 ∷ 105 ∷ 110 ∷ []

abbrev pub tmp_suffix : List ℕ
tmp_suffix = 46 ∷ 116 ∷ 109 ∷ 112 ∷ []

-- A budget below 0 does what 0 does. `sort` is `std::sort` by mtime.
pub enforce_kv_cache_budget :
    (sort : List CacheEntry → List CacheEntry)
    → (max_bytes : ℕ) (keep_path : FilePath) → (FilePath → Bool)
    → (dir : List DirEntry) → Evicted
enforce_kv_cache_budget sort max_bytes keep unlinks dir =
    let entries = list_kv_files dir bin_suffix in
    let total = total_size entries in
    let loop = evict_loop max_bytes keep unlinks total (sort entries) in
    let unchanged : Evicted = record { gone = []; left = entries; total = total } in
    if max_bytes == 0 then unchanged else (if leb total max_bytes then unchanged else loop)

-- The files unlinked and those left. `now - mtime < max_age` over signed times is
-- `now < mtime + max_age`.
pub clean_loop :
    (now max_age_seconds : ℕ)
    → (FilePath → Bool)
    → List CacheEntry
    → List CacheEntry × List CacheEntry
clean_loop now max_age unlinks [] = ([], [])
clean_loop now max_age unlinks (e ∷ es) =
    let rest = clean_loop now max_age unlinks es in
    if ltb now (e.mtime + max_age)
    then (rest.0, e ∷ rest.1)
    else (if unlinks e.path then (e ∷ rest.0, rest.1) else (rest.0, e ∷ rest.1))

pub cleanup_stale_tmp_files :
    (now max_age_seconds : ℕ)
    → (FilePath → Bool)
    → (dir : List DirEntry) → List CacheEntry × List CacheEntry
cleanup_stale_tmp_files now max_age unlinks dir =
    let entries = list_kv_files dir tmp_suffix in
    if max_age == 0 then ([], entries) else clean_loop now max_age unlinks entries
