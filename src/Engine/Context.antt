-- ===== src/Engine/Context.antt =====
-- How `Engine::load` (src/engine/decode.cu) chooses the length of the context, from the memory budget
-- (include/jllm_memory.h), and what it asks of the KV cache pool.
mod Tests
use reflex_llm.Base.{
  ℕ, zero, suc, ◌+◌, ◌-◌, ◌*◌, ◌/◌, ◌%◌, ◌^◌, ◌≤◌, ◌<◌, ◌≡◌, refl, ap, sym, ◌∙◌, subst, ◌⊎◌, inl,
  inr, Bool, true, false, Option, none, some, List, [], ◌∷◌, ltb, leb, ◌==◌, if◌then◌else◌, if_elim,
  codes, same_bytes, arith, Bool-cases, then_true, else_false,
}
use reflex_llm.Base.Int.{ℤ, pos, negsuc, pos_part, neg_part, ltb_ℤ, leb_ℤ, sub_ℤ, min_ℤ, ◌≤ℤ◌}
use reflex_llm.KvCache.{Config, entry_bytes}
use reflex_llm.Gguf.Config.{int_of}
use native.Mathlib.Nat.{div-mul-le_self, mul-le-mul_right}

pub record MemoryBudget : Type 0 where
  pub total_mb : ℤ
  pub os_mb : ℤ
  pub cma_mb : ℤ
  pub cuda_ctx_mb : ℤ
  pub model_mb : ℤ
  pub scratch_mb : ℤ
  pub safety_mb : ℤ

unfoldable pub max_kv_mb : MemoryBudget → ℤ
max_kv_mb b =
    sub_ℤ
      (sub_ℤ (sub_ℤ (sub_ℤ (sub_ℤ (sub_ℤ b.total_mb b.os_mb) b.cma_mb) b.cuda_ctx_mb) b.model_mb)
        b.scratch_mb)
      b.safety_mb

abbrev pub negated : ℕ → ℤ
negated zero = pos 0
negated (suc n) = negsuc n

-- `static_cast<int>`
abbrev pub to_int : ℤ → ℤ
to_int (pos n) = int_of (n % 2 ^ 32)
to_int (negsuc n) = int_of ((2 ^ 32 - suc n % 2 ^ 32) % 2 ^ 32)

-- The division rounds towards zero.
abbrev pub div_ℤ : ℤ → ℕ → ℤ
div_ℤ (pos n) d = pos (n / d)
div_ℤ (negsuc n) d = negated (suc n / d)

abbrev pub mul_ℤ : ℤ → ℕ → ℤ
mul_ℤ (pos n) k = pos (n * k)
mul_ℤ (negsuc n) k = negated (suc n * k)

abbrev pub bytes_per_token : (n_layers n_kv_heads head_dim kv_bytes : ℕ) → ℕ
bytes_per_token n_layers n_kv_heads head_dim kv_bytes =
    2 * n_layers * n_kv_heads * head_dim * kv_bytes

unfoldable pub max_context : MemoryBudget → (n_layers n_kv_heads head_dim kv_bytes : ℕ) → ℤ
unfolding max_kv_mb int_of
max_context b n_layers n_kv_heads head_dim kv_bytes =
    let per_token = bytes_per_token n_layers n_kv_heads head_dim kv_bytes in
    if per_token == 0 then pos 0 else to_int (div_ℤ (mul_ℤ (max_kv_mb b) 1048576) per_token)

-- The context that was asked for, or the default one, within what the memory and the model allow.
unfoldable pub context : (context_limit max_seq_len : ℤ) (head_dim : ℕ) (auto_ctx : ℤ) → ℤ
context context_limit max_seq_len head_dim auto_ctx =
    let cap : ℤ = if leb 128 head_dim then pos 4096 else pos 8192 in
    if ltb_ℤ (pos 0) context_limit
    then min_ℤ (min_ℤ context_limit max_seq_len) auto_ctx
    else min_ℤ (min_ℤ auto_ctx max_seq_len) cap

-- `setting` is JLLM_KV_OVERFLOW.
unfoldable pub kv_overflow_context : (atoi : List ℕ → ℤ) (setting : Option (List ℕ)) (ctx : ℕ) → ℕ
unfolding same_bytes
kv_overflow_context atoi none ctx = 0
kv_overflow_context atoi (some v) ctx =
    if same_bytes v (codes "0")
    then 0
    else (if same_bytes v (codes "1") then ctx / 4 else pos_part (atoi v))

module _ (b : MemoryBudget) (n_layers n_kv_heads head_dim : ℕ) where
  unfoldable pub load_context : (kv_int8 : Bool) (context_limit max_seq_len : ℤ) → ℤ
  unfolding max_context context
  load_context kv_int8 context_limit max_seq_len =
      let kv_bytes = if kv_int8 then 1 else 2 in
      context context_limit max_seq_len head_dim
        (max_context b n_layers n_kv_heads head_dim kv_bytes)

  -- The configuration of the pool, for a context that is not negative.
  unfoldable pub kv_cfg : (kv_int8 : Bool) (ctx overflow : ℕ) → Config
  kv_cfg kv_int8 ctx overflow = record {
    n_layers = n_layers;
    n_kv_heads = n_kv_heads;
    head_dim = head_dim;
    max_context = ctx;
    overflow_context = overflow;
    kv_type_bytes = if kv_int8 then 1 else 2;
  }

  same_size : (l k h y c : ℕ) → l * c * (2 * k * h * y) ≡ c * (2 * l * k * h * y)
  same_size l k h y c = grind arith

  min-AtMost : (a c : ℤ) → (min_ℤ a c ≤ℤ a) × (min_ℤ a c ≤ℤ c)
  min-AtMost a c =
      if_elim (λ z. (z ≤ℤ a) × (z ≤ℤ c)) (ltb_ℤ c a) (λ less. (ground (arith, less), omega arith))
        (λ not_less. (omega arith, ground (arith, not_less)))

  -- The least of three.
  context-least :
      (limit seq auto : ℤ) (c : ℕ)
      → context limit seq head_dim auto ≡ pos c
      → (pos c ≤ℤ auto)
        × (pos c ≤ℤ seq)
        × ((pos c ≤ℤ limit) ⊎ ((limit ≤ℤ pos 0) × (pos c ≤ℤ pos 8192)))
  unfolding context
  context-least limit seq auto c e =
      subst (λ z. (z ≤ℤ auto) × (z ≤ℤ seq) × ((z ≤ℤ limit) ⊎ ((limit ≤ℤ pos 0) × (z ≤ℤ pos 8192))))
        e
        (if_elim
          (λ z. (z ≤ℤ auto) × (z ≤ℤ seq) × ((z ≤ℤ limit) ⊎ ((limit ≤ℤ pos 0) × (z ≤ℤ pos 8192))))
          (ltb_ℤ (pos 0) limit)
          (λ asked.
            let inner = min-AtMost limit seq in
            let outer = min-AtMost (min_ℤ limit seq) auto in
            let least = min_ℤ (min_ℤ limit seq) auto in
            (
              outer.1,
              le_trans least (min_ℤ limit seq) seq outer.0 inner.1,
              inl (le_trans least (min_ℤ limit seq) limit outer.0 inner.0),
            ))
          (λ default.
            let inner = min-AtMost auto seq in
            let cap : ℤ = if leb 128 head_dim then pos 4096 else pos 8192 in
            let outer = min-AtMost (min_ℤ auto seq) cap in
            let least = min_ℤ (min_ℤ auto seq) cap in
            let low : cap ≤ℤ pos 8192 =
              if_elim (λ z. z ≤ℤ pos 8192) (leb 128 head_dim) (λ _. omega arith)
                (λ _. omega arith) in
            (
              le_trans least (min_ℤ auto seq) auto outer.0 inner.0,
              le_trans least (min_ℤ auto seq) seq outer.0 inner.1,
              inr (ground (arith, default), le_trans least cap (pos 8192) outer.1 low),
            )))
    where
      le_trans : (x y z : ℤ) → x ≤ℤ y → y ≤ℤ z → x ≤ℤ z
      le_trans x y z p q = omega (arith, p, q)

  max_context-Fits :
      (y m : ℕ)
      → max_kv_mb b ≡ pos m
      → m * 1048576 / bytes_per_token n_layers n_kv_heads head_dim y < 2 ^ 31
      → (q : ℕ) × (max_context b n_layers n_kv_heads head_dim y ≡ pos q)
        × (q * bytes_per_token n_layers n_kv_heads head_dim y ≤ m * 1048576)
  unfolding max_context int_of
  max_context-Fits y m e small =
      elim (Bool-cases (bytes_per_token n_layers n_kv_heads head_dim y == 0)) [
        | inl nothing ↦ (0, then_true _ _ _ nothing, omega arith)
        | inr some_bytes ↦
            let q = m * 1048576 / bytes_per_token n_layers n_kv_heads head_dim y in
            let same : q % 2 ^ 32 ≡ q = omega (arith, small) in
            (
              q,
              else_false _ _ _ some_bytes
                  ∙ ap
                      (λ (z : ℤ).
                        to_int (
                          div_ℤ (mul_ℤ z 1048576) (bytes_per_token n_layers n_kv_heads head_dim y)))
                      e
                  ∙ ap int_of same
                  ∙ then_true (ltb q (2 ^ 31)) (pos q) (negsuc (2 ^ 32 - 1 - q))
                      (ground (arith, small)),
              div-mul-le_self (m * 1048576) (bytes_per_token n_layers n_kv_heads head_dim y),
            )
      ]

  -- Where the memory budget leaves m MB for the cache, and the tokens that fit are an int: the context
  -- chosen, where it is not negative, is no longer than the model allows or was asked for (8192 where
  -- nothing was), and the fast pool of the cache for it fits those m MB.
  pub load_context-Fits :
      (kv_int8 : Bool) (limit seq : ℤ) (m c overflow : ℕ)
      → max_kv_mb b ≡ pos m
      → m * 1048576 / bytes_per_token n_layers n_kv_heads head_dim (if kv_int8 then 1 else 2)
        < 2 ^ 31
      → load_context kv_int8 limit seq ≡ pos c
      → (n_layers * c * entry_bytes (kv_cfg kv_int8 c overflow) ≤ m * 1048576)
        × (pos c ≤ℤ seq)
        × ((pos c ≤ℤ limit) ⊎ ((limit ≤ℤ pos 0) × (pos c ≤ℤ pos 8192)))
  unfolding load_context kv_cfg entry_bytes
  load_context-Fits kv_int8 limit seq m c overflow e small chosen =
      let y : ℕ = if kv_int8 then 1 else 2 in
      let (q, most, fits) = max_context-Fits y m e small in
      let auto = max_context b n_layers n_kv_heads head_dim y in
      let (below, model, asked) = context-least limit seq auto c chosen in
      let least : c ≤ q = omega (subst (λ z. pos c ≤ℤ z) most below, arith) in
      let scaled : c * bytes_per_token n_layers n_kv_heads head_dim y
          ≤ q * bytes_per_token n_layers n_kv_heads head_dim y =
        mul-le-mul_right (bytes_per_token n_layers n_kv_heads head_dim y) least in
      (omega (arith, same_size n_layers n_kv_heads head_dim y c, scaled, fits), model, asked)
