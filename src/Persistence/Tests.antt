-- ===== src/Persistence/Tests.antt =====
-- Tests of the KV cache files, and their theorems at a file of two tokens and three body bytes.
use reflex_llm.Base.{
  ℕ, ◌+◌, ◌≤◌, ◌≡◌, ltb, if◌then◌else◌, All-mono, ◌≢◌, refl, List, [], ◌∷◌, ◌++◌, take, some, none,
  Bool, true, arith, All,
}
use reflex_llm.Persistence.Bytes.{encode_tokens, le}
use reflex_llm.Persistence.Header.{Header, Fits, encode, kvcache_magic, kvcache_version}
use reflex_llm.Persistence.Files.{FilePath, Files}
use reflex_llm.Persistence.Save.{
  SaveCalls, token_bytes, save_kv_to_file, write_and_rename, write_all,
}
use reflex_llm.Persistence.Save.Atomic.{Outcome, save-atomic}
use reflex_llm.Persistence.Load.{LoadCalls, peek_kv_header, load_kv_from_file}
use reflex_llm.Persistence.Load.RoundTrip.{AllWork, Describes, load-save}
use reflex_llm.Persistence.Load.Refusals.{load-cut}
use reflex_llm.Persistence.Budget.{
  CacheEntry, IsSorted, sum_of, SortsByMtime, DirEntry, list_kv_files, bin_suffix,
  tmp_suffix as stale_suffix, enforce_kv_cache_budget,
}
use reflex_llm.Persistence.Budget.Limit.{Enforced, enforce-Enforced}
use reflex_llm.Persistence.Budget.Order.{NewerOrStuck, enforce-oldest_first}
use reflex_llm.Persistence.Fingerprint.{FingerprintCalls, zero_bytes, compute_model_fingerprint}
use reflex_llm.Persistence.Fingerprint.Detects.{compute_model_fingerprint_detects}

abbrev zeros_8 : List ℕ
zeros_8 = 0 ∷ 0 ∷ 0 ∷ 0 ∷ 0 ∷ 0 ∷ 0 ∷ 0 ∷ []

abbrev zeros_32 : List ℕ
zeros_32 = zeros_8 ++ (zeros_8 ++ (zeros_8 ++ zeros_8))

abbrev hdr : Header
hdr = record {
  magic = kvcache_magic;
  version = kvcache_version;
  n_layers = 1;
  n_kv_heads = 1;
  head_dim = 1;
  kv_type_bytes = 1;
  max_context = 8;
  used_tokens = 2;
  body_bytes = 3;
  model_hash = zeros_32;
  reserved = zeros_32 ++ (zeros_8 ++ (zeros_8 ++ zeros_8));
}

fits : Fits hdr
fits = record {
  magic_32 = omega arith;
  version_32 = omega arith;
  n_layers_32 = omega arith;
  n_kv_heads_32 = omega arith;
  head_dim_32 = omega arith;
  kv_type_bytes_32 = omega arith;
  max_context_32 = omega arith;
  used_tokens_32 = omega arith;
  body_bytes_64 = omega arith;
  model_hash_32 = refl;
  reserved_56 = refl;
}

abbrev tokens : List ℕ
tokens = 5 ∷ 300 ∷ []

abbrev body : List ℕ
body = 7 ∷ 8 ∷ 9 ∷ []

describes : Describes hdr tokens body
describes = record {
  fits = fits;
  magic_right = refl;
  version_right = refl;
  used_right = refl;
  body_right = refl;
  size_small = omega arith;
  tokens_32 = (omega arith, (omega arith, tt));
}

-- Every call works; each read and write moves one byte.
abbrev saves : SaveCalls
saves = record {
  opens = true;
  header_write = 128;
  token_writes = λ k. 1;
  body_writes = λ k. 1;
  syncs = true;
  renames = true;
  unlinks = true;
}

abbrev reads : LoadCalls
reads = record {
  opens = true;
  header_read = 128;
  stats = true;
  token_reads = λ k. 1;
  seeks = true;
  body_reads = λ k. 1;
}

reads-AllWork : AllWork reads
reads-AllWork = record {
  opened = refl;
  header_whole = omega arith;
  statted = refl;
  tokens_come = λ i. omega arith;
  body_comes = λ i. omega arith;
}

abbrev disk : Files
disk p = none

abbrev path : FilePath
path = 97 ∷ []

-- A disk with this file everywhere.
abbrev holds : List ℕ → Files
holds content p = some content

save-atomic_example :
    Outcome disk path
      (encode hdr ++ (token_bytes (some tokens) 2 ++ take 3 body))
      (save_kv_to_file saves path hdr (some tokens) 2 body 3 disk)
save-atomic_example = save-atomic saves path hdr (some tokens) 2 body 3 disk fits

saves_well : (save_kv_to_file saves path hdr (some tokens) 2 body 3 disk).0 ≡ true
unfolding save_kv_to_file write_and_rename write_all encode_tokens le
saves_well = refl

load-save_example :
    let r = save_kv_to_file saves path hdr (some tokens) 2 body 3 disk in
    (peek_kv_header reads path r.1 ≡ some hdr)
    × (load_kv_from_file reads path true 3 r.1 ≡ some (hdr, tokens, body))
load-save_example =
    load-save reads reads-AllWork hdr tokens body describes saves path disk 3 (omega arith)
      saves_well

abbrev cut : Files
cut = holds (take 137 (encode hdr ++ (encode_tokens tokens ++ body)))

load-cut_example :
    (peek_kv_header reads path cut ≡ none) × (load_kv_from_file reads path true 9 cut ≡ none)
load-cut_example = load-cut reads hdr tokens body describes 137 9 path cut (omega arith) refl

-- Two tokens and a body that wraps.
abbrev forged : Header
forged = record hdr { body_bytes = 18446744073709551608 }

forged-Fits : Fits forged
forged-Fits = record {
  magic_32 = omega arith;
  version_32 = omega arith;
  n_layers_32 = omega arith;
  n_kv_heads_32 = omega arith;
  head_dim_32 = omega arith;
  kv_type_bytes_32 = omega arith;
  max_context_32 = omega arith;
  used_tokens_32 = omega arith;
  body_bytes_64 = omega arith;
  model_hash_32 = refl;
  reserved_56 = refl;
}

abbrev entry : ℕ → ℕ → List ℕ → DirEntry
entry n t suffix = record {
  path = n ∷ [];
  extension = suffix;
  is_regular = true;
  has_stat = true;
  mtime = t;
  size = 10;
}

abbrev cache_dir : List DirEntry
cache_dir =
    entry 1 30 bin_suffix
    ∷ entry 2 10 bin_suffix
    ∷ entry 3 20 bin_suffix
    ∷ entry 4 5 stale_suffix
    ∷ []

abbrev unlinkable : FilePath → Bool
unlinkable p = true

-- Insertion by mtime.
abbrev insert : CacheEntry → List CacheEntry → List CacheEntry
insert e [] = e ∷ []
insert e (f ∷ fs) = if ltb f.mtime e.mtime then f ∷ insert e fs else e ∷ f ∷ fs

abbrev sorted : List CacheEntry → List CacheEntry
sorted [] = []
sorted (e ∷ es) = insert e (sorted es)

insert-All :
    (P : CacheEntry → Type 0) (e : CacheEntry) (fs : List CacheEntry)
    → P e
    → All P fs
    → All P (insert e fs)
insert-All P e [] p h = (p, tt)
insert-All P e (f ∷ fs) p h = ground (arith, insert-All P e fs p h.1)

insert-IsSorted : (e : CacheEntry) (fs : List CacheEntry) → IsSorted fs → IsSorted (insert e fs)
insert-IsSorted e [] s = (tt, tt)
insert-IsSorted e (f ∷ fs) s = ground (
  arith,
  insert-IsSorted e fs s.1,
  insert-All (λ (g : CacheEntry). f.mtime ≤ g.mtime) e fs,
  All-mono (λ (g : CacheEntry). f.mtime ≤ g.mtime) (λ g. e.mtime ≤ g.mtime) fs,
)

sorted-IsSorted : (es : List CacheEntry) → IsSorted (sorted es)
sorted-IsSorted [] = tt
sorted-IsSorted (e ∷ es) = insert-IsSorted e (sorted es) (sorted-IsSorted es)

sum_of-insert :
    (measure : CacheEntry → ℕ) (e : CacheEntry) (fs : List CacheEntry)
    → sum_of measure (insert e fs) ≡ measure e + sum_of measure fs
sum_of-insert measure e [] = refl
sum_of-insert measure e (f ∷ fs) = ground (arith, sum_of-insert measure e fs)

sum_of-sorted :
    (measure : CacheEntry → ℕ) (es : List CacheEntry)
    → sum_of measure (sorted es) ≡ sum_of measure es
sum_of-sorted measure [] = refl
sum_of-sorted measure (e ∷ es) =
    omega (arith, sum_of-insert measure e (sorted es), sum_of-sorted measure es)

sorted-SortsByMtime : SortsByMtime sorted
sorted-SortsByMtime = record { in_order = sorted-IsSorted; same_sums = sum_of-sorted }

enforce-Enforced_example :
    Enforced 25
      (2 ∷ [])
      unlinkable
      (list_kv_files cache_dir bin_suffix)
      (enforce_kv_cache_budget sorted 25 (2 ∷ []) unlinkable cache_dir)
enforce-Enforced_example =
    enforce-Enforced 25 (2 ∷ []) unlinkable sorted cache_dir sorted-SortsByMtime

enforce-oldest_first_example :
    let r = enforce_kv_cache_budget sorted 25 (2 ∷ []) unlinkable cache_dir in
    All (λ g. All (NewerOrStuck 25 (2 ∷ []) unlinkable g) r.left) r.gone
enforce-oldest_first_example =
    enforce-oldest_first 25 (2 ∷ []) unlinkable sorted cache_dir sorted-SortsByMtime

-- A model file of 256 bytes that ends in this one.
abbrev model : ℕ → List ℕ
model x = zero_bytes 255 ++ (x ∷ [])

abbrev fingerprint_calls : FingerprintCalls
fingerprint_calls = record { opens = true; stats = true; head_read = 256 }

computes : (x : ℕ) → (compute_model_fingerprint fingerprint_calls (model x)).0 ≡ true
unfolding compute_model_fingerprint
computes x = refl

compute_model_fingerprint_detects_example :
    (compute_model_fingerprint fingerprint_calls (model 1)).1
    ≢ (compute_model_fingerprint fingerprint_calls (model 2)).1
compute_model_fingerprint_detects_example =
    compute_model_fingerprint_detects fingerprint_calls fingerprint_calls (model 1) (model 2)
      (zero_bytes 255) [] 1 2 refl refl refl (λ e. absurd (omega arith)) (omega arith) (omega arith)
      tt (computes 1) (computes 2)
