-- ===== src/Persistence/Budget/Stale.antt =====
-- The stale temporary files.
use reflex_llm.Base.{
  ℕ, ◌+◌, ◌≤◌, ◌<◌, ◌≡◌, ◌⊎◌, inl, inr, Bool, true, false, List, [], ◌∷◌, All, arith, ltb, if_elim,
  ◌==◌, ltb→lt, le_of_not-ltb,
}
use reflex_llm.Persistence.Files.{FilePath}
use reflex_llm.Persistence.Budget.{
  CacheEntry, total_size, clean_loop, cleanup_stale_tmp_files, DirEntry, list_kv_files, tmp_suffix,
}

module _ (now max_age : ℕ) (unlinks : FilePath → Bool) where
  -- What is removed is old and could be unlinked; what stays is young or could not be.
  pub record Cleaned (es : List CacheEntry) (r : List CacheEntry × List CacheEntry) : Type 0 where
    pub removed : All (λ (e : CacheEntry). (e.mtime + max_age ≤ now) × (unlinks e.path ≡ true)) r.0
    pub stays : All (λ (e : CacheEntry). (now < e.mtime + max_age) ⊎ (unlinks e.path ≡ false)) r.1
    pub sizes : total_size r.0 + total_size r.1 ≡ total_size es

  clean_loop-Cleaned : (es : List CacheEntry) → Cleaned es (clean_loop now max_age unlinks es)
  unfolding clean_loop
  clean_loop-Cleaned [] = record { removed = tt; stays = tt; sizes = omega arith }
  clean_loop-Cleaned (e ∷ es) =
      let rest = clean_loop-Cleaned es in
      if_elim (Cleaned (e ∷ es)) (ltb now (e.mtime + max_age))
        (λ young. record {
          removed = rest.removed;
          stays = (inl (ltb→lt now _ young), rest.stays);
          sizes = omega (arith, rest.sizes);
        })
        (λ old.
          if_elim (Cleaned (e ∷ es)) (unlinks e.path)
            (λ works. record {
              removed = ((le_of_not-ltb now _ old, works), rest.removed);
              stays = rest.stays;
              sizes = omega (arith, rest.sizes);
            })
            (λ fails. record {
              removed = rest.removed;
              stays = (inr fails, rest.stays);
              sizes = omega (arith, rest.sizes);
            }))

  -- With an age limit above 0, the temporary files removed are those at least that old that unlink,
  -- and every other one is left.
  pub cleanup-Cleaned :
      (dir : List DirEntry)
      → 0 < max_age
      → Cleaned (list_kv_files dir tmp_suffix) (cleanup_stale_tmp_files now max_age unlinks dir)
  unfolding cleanup_stale_tmp_files
  cleanup-Cleaned dir h =
      if_elim (Cleaned (list_kv_files dir tmp_suffix)) (max_age == 0) (λ z. absurd (ground arith))
        (λ n. clean_loop-Cleaned (list_kv_files dir tmp_suffix))

  clean_loop-All :
      (P : CacheEntry → Type 0) (es : List CacheEntry)
      → All P es
      → All P (clean_loop now max_age unlinks es).0
  unfolding clean_loop
  clean_loop-All P [] h = tt
  clean_loop-All P (e ∷ es) h = ground (clean_loop-All P es h.1, h.0, arith)

  -- What is removed is among the temporary files listed.
  pub cleanup-All :
      (P : CacheEntry → Type 0) (dir : List DirEntry)
      → All P (list_kv_files dir tmp_suffix)
      → All P (cleanup_stale_tmp_files now max_age unlinks dir).0
  unfolding cleanup_stale_tmp_files
  cleanup-All P dir h = ground (clean_loop-All P (list_kv_files dir tmp_suffix) h, arith)
