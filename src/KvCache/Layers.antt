-- ===== src/KvCache/Layers.antt =====
-- A loop over the layers of a memory that is cut into slabs of equal size, one to a layer.
use reflex_llm.Base.{
  ℕ, zero, suc, ◌+◌, ◌*◌, ◌≤◌, ◌<◌, ◌≡◌, refl, ap, ◌⊎◌, inl, Bool, true, false, arith, ℕ_discrete,
}
use reflex_llm.KvCache.Memory.{Mem}

-- `for (l = ...; rounds left; l++) { if (!layer(l)) return false; } return true;`
unfoldable pub for_layers : ℕ → ℕ → (ℕ → Mem → Bool × Mem) → Mem → Bool × Mem
for_layers zero l layer m = (true, m)
for_layers (suc n) l layer m = elim (layer l m).0 [
  | true ↦ for_layers n (l + 1) layer (layer l m).1
  | false ↦ layer l m
]

pub for_layers_succeeds :
    (layer : ℕ → Mem → Bool × Mem)
    → ((l : ℕ) (m : Mem) → (layer l m).0 ≡ true)
    → (n l : ℕ) (m : Mem) → (for_layers n l layer m).0 ≡ true
unfolding for_layers
for_layers_succeeds layer all zero l m = refl
for_layers_succeeds layer all (suc n) l m =
    ground (arith, all l m, for_layers_succeeds layer all n (l + 1) (layer l m).1)

pub slab_next : (S l k : ℕ) → l < k → l * S + S ≤ k * S
slab_next S l k h = grind arith

-- A layer writes in its own slab only, and there it writes `content`.
module _ (S : ℕ) (layer : ℕ → Mem → Bool × Mem) (content : ℕ → ℕ → ℕ → ℕ)
    (frame : (l a : ℕ) (m : Mem) → (a < l * S) ⊎ (l * S + S ≤ a) → (layer l m).1 a ≡ m a)
    (hit : (l x : ℕ) (m : Mem)
      → x < S
      → (layer l m).0 ≡ true
      → (layer l m).1 (l * S + x) ≡ content l x (m (l * S + x))) where
  for_layers_below : (n l a : ℕ) (m : Mem) → a < l * S → (for_layers n l layer m).1 a ≡ m a
  unfolding for_layers
  for_layers_below zero l a m h = refl
  for_layers_below (suc n) l a m h = ground (
    arith,
    slab_next S l (l + 1),
    for_layers_below n (l + 1) a (layer l m).1,
    frame l a m (inl h),
  )

  pub for_layers_hit :
      (n l k x : ℕ) (m : Mem)
      → l ≤ k
      → k < l + n
      → x < S
      → (for_layers n l layer m).0 ≡ true
      → (for_layers n l layer m).1 (k * S + x) ≡ content k x (m (k * S + x))
  unfolding for_layers
  for_layers_hit zero l k x m lo hi h e = absurd (omega arith)
  for_layers_hit (suc n) l k x m lo hi h e = elim (ℕ_discrete l k) [
    | yes same ↦ ground (
      arith,
      for_layers_below n (l + 1) (k * S + x) (layer l m).1,
      hit l x m h,
      slab_next S l (l + 1),
      ap (λ (t : ℕ). t * S) same,
    )
    | no other ↦
        ground (
          arith,
          for_layers_hit n (l + 1) k x (layer l m).1,
          frame l (k * S + x) m,
          slab_next S l k,
        )
  ]
