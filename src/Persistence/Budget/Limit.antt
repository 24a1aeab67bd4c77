-- ===== src/Persistence/Budget/Limit.antt =====
-- What eviction removes and what it leaves.
use reflex_llm.Base.{
  ℕ, ◌+◌, ◌-◌, ◌≤◌, ◌<◌, ◌≡◌, ◌≢◌, ap, sym, ◌∙◌, ◌⊎◌, inl, inr, refl, Bool, true, false, List, [],
  ◌∷◌, All, arith, leb, if_elim, leb→le, ◌==◌,
}
use reflex_llm.Persistence.Files.{FilePath, path_discrete}
use reflex_llm.Persistence.Budget.{
  CacheEntry, DirEntry, list_kv_files, bin_suffix, same_path, total_size, sum_of, SortsByMtime,
  Evicted, evict_loop, enforce_kv_cache_budget,
}

pub same_path_iff :
    (p q : FilePath) → (same_path p q ≡ true → p ≡ q) × (p ≡ q → same_path p q ≡ true)
unfolding same_path
same_path_iff p q =
    elim (path_discrete p q)
      as (λ d.
        (elim d [ yes e ↦ true | no e ↦ false ] ≡ true → p ≡ q)
        × (p ≡ q → elim d [ yes e ↦ true | no e ↦ false ] ≡ true)) [
          | yes e ↦ (λ h. e, λ h. refl)
          | no n ↦ (λ h. absurd (cc), λ h. absurd (n h))
        ]

clash : (b : Bool) → b ≡ true → b ≡ false → ⊥
clash b h k = absurd (cc)

-- Each removed entry was needed: what is left in the end, with this entry and those removed after it,
-- is above the budget.
abbrev pub Needed : (max_bytes total : ℕ) → List CacheEntry → Type 0
Needed max_bytes total [] = Unit
Needed max_bytes total (e ∷ es) =
    (max_bytes < total + total_size (e ∷ es)) × Needed max_bytes total es

total_size-sum_of : (es : List CacheEntry) → total_size es ≡ sum_of (λ e. e.size_bytes) es
total_size-sum_of [] = refl
total_size-sum_of (e ∷ es) = ap (λ n. e.size_bytes + n) (total_size-sum_of es)

total-sort :
    (sort : List CacheEntry → List CacheEntry) (es : List CacheEntry)
    → SortsByMtime sort
    → total_size (sort es) ≡ total_size es
total-sort sort es sorts =
    total_size-sum_of (sort es)
    ∙ sorts.same_sums (λ e. e.size_bytes) es
    ∙ sym (total_size-sum_of es)

module _ (max_bytes : ℕ) (keep : FilePath) (unlinks : FilePath → Bool) where
  -- An entry that the loop may not remove: the file just saved, or one whose removal fails.
  abbrev pub Stuck : CacheEntry → Type 0
  Stuck e = (e.path ≡ keep) ⊎ (unlinks e.path ≡ false)

  -- What the loop has removed and left of `es`, when it has skipped `before` bytes already.
  record Outcome (before : ℕ) (es : List CacheEntry) (r : Evicted) : Type 0 where
    total_right : r.total ≡ before + total_size r.left
    sizes : total_size r.gone + total_size r.left ≡ total_size es
    kept : All (λ (e : CacheEntry). e.path ≢ keep) r.gone
    within : (r.total ≤ max_bytes) ⊎ All Stuck r.left
    needed : Needed max_bytes r.total r.gone

  skip :
      (before : ℕ) (e : CacheEntry) (es : List CacheEntry) (r : Evicted)
      → Stuck e
      → Outcome (before + e.size_bytes) es r
      → Outcome before (e ∷ es) (record r { left = e ∷ r.left })
  skip before e es r stuck o = record {
    total_right = omega (arith, o.total_right);
    sizes = omega (arith, o.sizes);
    kept = o.kept;
    within = elim o.within [ inl le ↦ inl le | inr all ↦ inr (stuck, all) ];
    needed = o.needed;
  }

  remove :
      (before : ℕ) (e : CacheEntry) (es : List CacheEntry) (r : Evicted)
      → e.path ≢ keep
      → max_bytes < before + total_size (e ∷ es)
      → Outcome before es r
      → Outcome before (e ∷ es) (record r { gone = e ∷ r.gone })
  remove before e es r free above o = record {
    total_right = o.total_right;
    sizes = omega (arith, o.sizes);
    kept = (free, o.kept);
    within = o.within;
    needed = (omega (arith, above, o.total_right, o.sizes), o.needed);
  }

  evict_loop-Outcome :
      (es : List CacheEntry) (before total : ℕ)
      → total ≡ before + total_size es
      → Outcome before es (evict_loop max_bytes keep unlinks total es)
  unfolding evict_loop
  evict_loop-Outcome [] before total h = record {
    total_right = h;
    sizes = refl;
    kept = tt;
    within = inr tt;
    needed = tt;
  }
  evict_loop-Outcome (e ∷ es) before total h =
      let skipped = evict_loop-Outcome es (before + e.size_bytes) total (omega arith) in
      let removed = evict_loop-Outcome es before (total - e.size_bytes) (omega arith) in
      if_elim (Outcome before (e ∷ es)) (leb total max_bytes)
        (λ le. record {
          total_right = h;
          sizes = omega arith;
          kept = tt;
          within = inl (leb→le total max_bytes le);
          needed = tt;
        })
        (λ over.
          if_elim (Outcome before (e ∷ es)) (same_path e.path keep)
            (λ same. skip before e es _ (inl ((same_path_iff e.path keep).0 same)) skipped)
            (λ other.
              if_elim (Outcome before (e ∷ es)) (unlinks e.path)
                (λ works.
                  remove before e es _
                    (λ same.
                      absurd
                        (clash (same_path e.path keep) ((same_path_iff e.path keep).1 same) other))
                    (let least : max_bytes < total = ground arith in omega (arith, least, h))
                    removed)
                (λ fails. skip before e es _ (inr fails) skipped)))

  -- Whatever order the entries have, the file to keep is not among those removed.
  evict_loop_kept :
      (es : List CacheEntry) (total : ℕ)
      → All (λ (e : CacheEntry). e.path ≢ keep) (evict_loop max_bytes keep unlinks total es).gone
  unfolding evict_loop
  evict_loop_kept [] total = tt
  evict_loop_kept (e ∷ es) total =
      let skipped = evict_loop_kept es total in
      let removed = evict_loop_kept es (total - e.size_bytes) in
      if_elim Keeps (leb total max_bytes) (λ _. tt)
        (λ _.
          if_elim Keeps (same_path e.path keep) (λ _. skipped)
            (λ other.
              if_elim Keeps (unlinks e.path)
                (λ _. (
                  λ same.
                      absurd
                        (clash (same_path e.path keep) ((same_path_iff e.path keep).1 same) other),
                  removed,
                ))
                (λ _. skipped)))
    where
      Keeps : Evicted → Type 0
      Keeps r = All (λ (e : CacheEntry). e.path ≢ keep) r.gone

  pub enforce_keeps :
      (sort : List CacheEntry → List CacheEntry) (dir : List DirEntry)
      → All
          (λ (e : CacheEntry). e.path ≢ keep)
          (enforce_kv_cache_budget sort max_bytes keep unlinks dir).gone
  unfolding enforce_kv_cache_budget
  enforce_keeps sort dir =
      let es = list_kv_files dir bin_suffix in
      if_elim Kept (max_bytes == 0) (λ _. tt)
        (λ _.
          if_elim Kept (leb (total_size es) max_bytes) (λ _. tt)
            (λ _. evict_loop_kept (sort es) (total_size es)))
    where
      Kept : Evicted → Type 0
      Kept r = All (λ (e : CacheEntry). e.path ≢ keep) r.gone

  -- What enforcing the budget has done.
  pub record Enforced (es : List CacheEntry) (r : Evicted) : Type 0 where
    pub total_right : r.total ≡ total_size r.left
    pub sizes : total_size r.gone + total_size r.left ≡ total_size es
    pub kept : All (λ (e : CacheEntry). e.path ≢ keep) r.gone
    pub within : max_bytes ≢ 0 → (total_size r.left ≤ max_bytes) ⊎ All Stuck r.left
    pub needed : Needed max_bytes r.total r.gone
    pub idle : (max_bytes ≡ 0) ⊎ (total_size es ≤ max_bytes) → r.gone ≡ []

  -- The sizes of the files removed and left add up to that of all, and the total reported is the size
  -- of those left. The file to keep is never removed. Under a budget above 0, what is left is within
  -- it, or is nothing but the file to keep and files that cannot be unlinked. Each file removed was
  -- needed: it, those removed after it and what is left are above the budget together. Nothing is
  -- removed under a budget of 0, or where all the files are within it. `std::sort` moves the entries.
  pub enforce-Enforced :
      (sort : List CacheEntry → List CacheEntry) (dir : List DirEntry)
      → SortsByMtime sort
      → Enforced
          (list_kv_files dir bin_suffix)
          (enforce_kv_cache_budget sort max_bytes keep unlinks dir)
  unfolding enforce_kv_cache_budget
  enforce-Enforced sort dir sorts =
      let es = list_kv_files dir bin_suffix in
      let o =
        evict_loop-Outcome (sort es) 0 (total_size es) (omega (arith, total-sort sort es sorts)) in
      if_elim (Enforced es) (max_bytes == 0) (λ z. untouched es (inl (ground arith)))
        (λ n.
          if_elim (Enforced es) (leb (total_size es) max_bytes)
            (λ le. untouched es (inr (leb→le _ _ le)))
            (λ over. record {
              total_right = omega (arith, o.total_right);
              sizes = omega (arith, o.sizes, total-sort sort es sorts);
              kept = o.kept;
              within = λ h. elim o.within [
                | inl le ↦ inl (omega (arith, o.total_right))
                | inr all ↦ inr all
              ];
              needed = o.needed;
              idle = λ h. absurd (ground arith);
            }))
    where
      untouched :
          (es : List CacheEntry)
          → (max_bytes ≡ 0) ⊎ (total_size es ≤ max_bytes)
          → Enforced es (record { gone = []; left = es; total = total_size es })
      untouched es h = record {
        total_right = refl;
        sizes = omega arith;
        kept = tt;
        within = λ nz. elim h [ inl z ↦ absurd (nz z) | inr le ↦ inl le ];
        needed = tt;
        idle = λ k. refl;
      }
