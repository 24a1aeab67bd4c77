-- ===== src/Engine/Materialize/Fits.antt =====
-- The layers that are copied to the device are the first ones, and fit the budget.
use reflex_llm.Base.{
  ℕ, zero, suc, ◌+◌, ◌-◌, ◌*◌, ◌≤◌, ◌<◌, ◌≡◌, ◌⊎◌, Bool, true, false, Option, none, some, length,
}
use reflex_llm.KvCache.{Mem}
use reflex_llm.Gguf.Weights.{LayerWeights}
use reflex_llm.Engine.Materialize.{Dims, Device, Answers, Progress, layer_quant_weight_bytes}
use reflex_llm.Engine.Materialize.Copied.{CopyDone}

-- The bytes of n layers from layer l on.
abbrev pub bytes_from : Dims → (ℕ → LayerWeights) → (l n : ℕ) → ℕ
bytes_from d layers l zero = 0
bytes_from d layers l (suc n) =
    layer_quant_weight_bytes (layers l) d + bytes_from d layers (suc l) n

module _ (answers : ℕ → Answers) (host : Mem) (d : Dims) where
  -- A layer that was copied: at some time its seven weights went to an arena of its own.
  abbrev pub Copied : (k : ℕ) (lw lw' : LayerWeights) → Type 0
  Copied k lw lw' = (dev : Device) × (dev' : Device) × CopyDone (answers k) host d lw lw' dev dev'

  -- From progress p at layer l, with free_mb left, to the end, m layers later.
  pub record Fits (l n free_mb : ℕ) (p end : Progress) : Type 0 where
    pub m : ℕ
    pub counted : end.copied_layers ≡ p.copied_layers + m
    pub bounded : m ≤ n
    pub total_is : end.total ≡ p.total + bytes_from d p.layers l m
    pub in_budget : end.total ≤ p.total + (free_mb - 128) * 1048576
    pub copied : (k : ℕ) → l ≤ k → k < l + m → Copied k (p.layers k) (end.layers k)
    pub before_kept : (k : ℕ) → k < l → end.layers k ≡ p.layers k
    pub rest_kept : (k : ℕ) → l + m ≤ k → end.layers k ≡ p.layers k
    pub one_arena_each : length end.device.owned ≡ length p.device.owned + m

  -- How the materialization ends: with -1, where all layers have to be on the device and are not; or
  -- with the bytes of the first layers, within the budget less 128 MB, and with all layers where they
  -- have to be on the device.
  abbrev pub Ends :
      (mapped : Bool) (n_layers free_mb : ℕ) (p : Progress) → Option ℕ × Progress → Type 0
  Ends mapped n_layers free_mb p (none, end) = (mapped ≡ false) × (end.copied_layers < n_layers)
  Ends mapped n_layers free_mb p (some total, end) =
      (total ≤ (free_mb - 128) * 1048576)
      × (total ≡ bytes_from d p.layers 0 end.copied_layers)
      × ((mapped ≡ true) ⊎ (end.copied_layers ≡ n_layers))
      × Fits 0 n_layers free_mb p end
