-- ===== src/Sampler/Draw.antt =====
-- The sampler. Logits are a list; `g_rng` is the number drawn from the distribution up to a total.
use reflex_llm.Base.{
  ℕ, zero, suc, not, ◌&&◌, ◌||◌, List, [], ◌∷◌, map, length, take, ltb, leb, ◌==◌, if◌then◌else◌,
  Option, none, some,
}
use reflex_llm.Base.Int.{ℤ, pos, negsuc}
use reflex_llm.Sampler.Floats.{Floats}
use reflex_llm.Sampler.Algorithms.{TokenProb, Algorithms}

-- The fields of `GenParams` that the sampler reads.
pub record SampleParams (F : Type 0) : Type 0 where
  pub temperature : F
  pub top_k : ℤ
  pub top_p : F
  pub repeat_penalty : F

module _ (fl : Floats) where
  open fl use {F, finite, lt, le, eq, add, sub, mul, div, exp, infinity_below, one}

  abbrev pub zero_f : F
  zero_f = fl.zero

  unfoldable pub greedy_loop : (i best : ℕ) (best_val : F) → List F → ℕ
  greedy_loop i best best_val [] = best
  greedy_loop i best best_val (x ∷ xs) =
      let higher = finite x && lt best_val x in
      greedy_loop (suc i) (if higher then i else best) (if higher then x else best_val) xs

  unfoldable pub sample_greedy : List F → ℕ
  unfolding greedy_loop
  sample_greedy logits = greedy_loop 0 0 infinity_below logits

  unfoldable pub apply_temperature : (temperature : F) → List F → List F
  apply_temperature temperature logits =
      let inv_t = div one temperature in
      if le temperature zero_f || eq temperature one then logits else map (λ x. mul x inv_t) logits

  -- One token that was seen before; `none` for one outside the vocabulary, where the source writes out
  -- of bounds.
  unfoldable pub penalise : (penalty : F) (tok : ℕ) → List F → Option (List F)
  penalise penalty tok [] = none
  penalise penalty zero (x ∷ xs) =
      some ((if lt zero_f x then div x penalty else mul x penalty) ∷ xs)
  penalise penalty (suc tok) (x ∷ xs) = elim (penalise penalty tok xs) [
    | none ↦ none
    | some ys ↦ some (x ∷ ys)
  ]

  unfoldable pub penalise_all : (penalty : F) → List ℕ → List F → Option (List F)
  unfolding penalise
  penalise_all penalty [] logits = some logits
  penalise_all penalty (t ∷ ts) logits = elim (penalise penalty t logits) [
    | none ↦ none
    | some ys ↦ penalise_all penalty ts ys
  ]

  unfoldable pub apply_repeat_penalty : (recent : List ℕ) (penalty : F) → List F → Option (List F)
  unfolding penalise_all
  apply_repeat_penalty recent penalty logits =
      if le penalty one then some logits else penalise_all penalty recent logits

  -- The number of candidates kept: up to the first at which the sum exceeds p.
  unfoldable pub top_p_loop : (p cumsum : F) → List (TokenProb F) → ℕ
  top_p_loop p cumsum [] = 0
  top_p_loop p cumsum (c ∷ cs) =
      let sum = add cumsum c.prob in
      let rest = top_p_loop p sum cs in if lt p sum then 1 else suc rest

  unfoldable pub top_p_filter : (p : F) → List (TokenProb F) → List (TokenProb F)
  unfolding top_p_loop
  top_p_filter p cs = take (top_p_loop p zero_f cs) cs

  unfoldable pub total_prob : F → List (TokenProb F) → F
  total_prob sum [] = sum
  total_prob sum (c ∷ cs) = total_prob (add sum c.prob) cs

  -- The candidates are not empty; the last one is taken where rounding leaves the draw above the sum.
  unfoldable pub draw_loop : (r cumsum : F) (c : TokenProb F) → List (TokenProb F) → ℕ
  draw_loop r cumsum c [] = c.id
  draw_loop r cumsum c (d ∷ ds) =
      let sum = add cumsum c.prob in
      let rest = draw_loop r sum d ds in if le r sum then c.id else rest

  module _ (rng : F → F) where
    unfoldable pub sample_from : TokenProb F → List (TokenProb F) → ℕ
    unfolding draw_loop total_prob
    sample_from c cs = draw_loop (rng (total_prob zero_f (c ∷ cs))) zero_f c cs

    -- The draw among the candidates that the filter leaves; with none, what is read is undefined.
    unfoldable pub draw : List (TokenProb F) → Option ℕ
    unfolding sample_from
    draw [] = none
    draw (c ∷ cs) = some (sample_from c cs)

    module _ (al : Algorithms fl) where
      open al use {push, replace, sort, partial_sort}

      -- One logit of the scan.
      unfoldable pub keep :
          (k : ℕ) (inv_t : F) (i : ℕ) (x : F) → List (TokenProb F) → List (TokenProb F)
      keep k inv_t i x [] =
          let v : TokenProb F = record { id = i; prob = mul x inv_t } in
          if not (finite x) then [] else push [] v
      keep k inv_t i x (f ∷ r) =
          let v : TokenProb F = record { id = i; prob = mul x inv_t } in
          if not (finite x)
          then f ∷ r
          else (if ltb (length (f ∷ r)) k
              then push (f ∷ r) v
              else (if lt f.prob v.prob then replace (f ∷ r) v else f ∷ r))

      unfoldable pub scan :
          (k : ℕ) (inv_t : F) (i : ℕ) → List (TokenProb F) → List F → List (TokenProb F)
      unfolding keep
      scan k inv_t i h [] = h
      scan k inv_t i h (x ∷ xs) = scan k inv_t (suc i) (keep k inv_t i x h) xs

      abbrev pub inverse : F → F
      inverse temperature = if eq temperature one then one else div one temperature

      -- The candidates of `sample_top_k_fast` before their softmax.
      unfoldable pub kept : (k : ℕ) (temperature : F) → List F → List (TokenProb F)
      unfolding scan
      kept k temperature logits = scan k (inverse temperature) 0 [] logits

      unfoldable pub exp_all : (max_val : F) → List (TokenProb F) → List (TokenProb F)
      exp_all max_val cs =
          map {A = TokenProb F} (λ c. record c { prob = exp (sub c.prob max_val) }) cs

      unfoldable pub scale_all : (inv_sum : F) → List (TokenProb F) → List (TokenProb F)
      scale_all inv_sum cs = map {A = TokenProb F} (λ c. record c { prob = mul c.prob inv_sum }) cs

      -- The sorted candidates; their softmax; the filter and the draw.
      unfoldable pub draw_sorted : (top_p : F) (logits : List F) → List (TokenProb F) → Option ℕ
      unfolding exp_all scale_all total_prob draw top_p_filter sample_greedy
      draw_sorted top_p logits [] = some (sample_greedy logits)
      draw_sorted top_p logits (c ∷ cs) =
          let weighed = exp_all c.prob (c ∷ cs) in
          let sum = total_prob zero_f weighed in
          let drawn = draw (top_p_filter top_p (scale_all (div one sum) weighed)) in
          if not (finite sum) || le sum zero_f then some (sample_greedy logits) else drawn

      -- `none` is -1: there is no top-k to take.
      unfoldable pub sample_top_k_fast : SampleParams F → List F → Option (Option ℕ)
      unfolding kept draw_sorted
      sample_top_k_fast p logits = elim p.top_k [
        | negsuc n ↦ none
        | pos k ↦
            if (k == 0) || leb (length logits) k
            then none
            else some (draw_sorted p.top_p logits (sort (kept k p.temperature logits)))
      ]
