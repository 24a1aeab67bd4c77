-- ===== src/Persistence/Budget/Order.antt =====
-- The order in which eviction goes.
use reflex_llm.Base.{
  ℕ, ◌-◌, ◌≤◌, ◌⊎◌, inl, inr, Bool, List, [], ◌∷◌, All, All-mono, leb, if_elim, ◌==◌,
}
use reflex_llm.Persistence.Files.{FilePath}
use reflex_llm.Persistence.Budget.{
  CacheEntry, DirEntry, list_kv_files, bin_suffix, same_path, IsSorted, SortsByMtime, Evicted,
  evict_loop, enforce_kv_cache_budget, total_size,
}
use reflex_llm.Persistence.Budget.Limit.{Stuck, same_path_iff}

module _ (max_bytes : ℕ) (keep : FilePath) (unlinks : FilePath → Bool) where
  -- `f` is no older than the removed `g`, or could not be removed.
  abbrev pub NewerOrStuck : CacheEntry → CacheEntry → Type 0
  NewerOrStuck g f = (g.mtime ≤ f.mtime) ⊎ Stuck max_bytes keep unlinks f

  -- A split of a list: what holds of all entries holds of both parts, and the parts are in order.
  record Split (es : List CacheEntry) (r : Evicted) : Type 0 where
    newer :
        (n : ℕ)
        → All (λ (f : CacheEntry). n ≤ f.mtime) es
        → All (λ (f : CacheEntry). n ≤ f.mtime) r.gone
          × All (λ (f : CacheEntry). n ≤ f.mtime) r.left
    ordered : All (λ g. All (NewerOrStuck g) r.left) r.gone

  -- An entry skipped goes to the front of those left.
  skip :
      (e : CacheEntry) (es : List CacheEntry) (r : Evicted)
      → Stuck max_bytes keep unlinks e
      → Split es r
      → Split (e ∷ es) (record r { left = e ∷ r.left })
  skip e es r stuck s = record {
    newer = λ n h. ((s.newer n h.1).0, (h.0, (s.newer n h.1).1));
    ordered =
        All-mono (λ g. All (NewerOrStuck g) r.left) (λ g. All (NewerOrStuck g) (e ∷ r.left)) r.gone
          (λ g all. (inr stuck, all)) s.ordered;
  }

  -- An entry removed is older than those that follow.
  remove :
      (e : CacheEntry) (es : List CacheEntry) (r : Evicted)
      → All (λ (f : CacheEntry). e.mtime ≤ f.mtime) es
      → Split es r
      → Split (e ∷ es) (record r { gone = e ∷ r.gone })
  remove e es r oldest s = record {
    newer = λ n h. ((h.0, (s.newer n h.1).0), (s.newer n h.1).1);
    ordered = (
      All-mono (λ (f : CacheEntry). e.mtime ≤ f.mtime) (NewerOrStuck e) r.left (λ f le. inl le)
          (s.newer e.mtime oldest).1,
      s.ordered,
    );
  }

  evict_loop-Split :
      (es : List CacheEntry) (total : ℕ)
      → IsSorted es
      → Split es (evict_loop max_bytes keep unlinks total es)
  unfolding evict_loop
  evict_loop-Split [] total sorted = record { newer = λ n h. (tt, tt); ordered = tt }
  evict_loop-Split (e ∷ es) total sorted =
      let skipped = evict_loop-Split es total sorted.1 in
      let removed = evict_loop-Split es (total - e.size_bytes) sorted.1 in
      if_elim (Split (e ∷ es)) (leb total max_bytes)
        (λ le. record { newer = λ n h. (tt, h); ordered = tt })
        (λ over.
          if_elim (Split (e ∷ es)) (same_path e.path keep)
            (λ same. skip e es _ (inl ((same_path_iff e.path keep).0 same)) skipped)
            (λ other.
              if_elim (Split (e ∷ es)) (unlinks e.path) (λ works. remove e es _ sorted.0 removed)
                (λ fails. skip e es _ (inr fails) skipped)))

  -- The sort leaves the times of the loop's input in order.
  record Ordered (r : Evicted) : Type 0 where
    order : All (λ g. All (NewerOrStuck g) r.left) r.gone

  -- Eviction goes oldest first: whatever is left is no older than any file removed, unless it is the
  -- file to keep or its removal failed. `std::sort` puts the times in order.
  pub enforce-oldest_first :
      (sort : List CacheEntry → List CacheEntry) (dir : List DirEntry)
      → SortsByMtime sort
      → let r = enforce_kv_cache_budget sort max_bytes keep unlinks dir in
        All (λ g. All (NewerOrStuck g) r.left) r.gone
  unfolding enforce_kv_cache_budget
  enforce-oldest_first sort dir sorts =
      let es = list_kv_files dir bin_suffix in
      (if_elim Ordered (max_bytes == 0) (λ z. record { order = tt })
        (λ z.
          if_elim Ordered (leb (total_size es) max_bytes) (λ le. record { order = tt })
            (λ over. record {
              order = (evict_loop-Split (sort es) (total_size es) (sorts.in_order es)).ordered;
            }))).order
