-- ===== src/Sampler/Token.antt =====
-- `sample_token` (src/engine/sample.cpp), with the full-vocabulary path behind the fast one.
use reflex_llm.Base.{
  ℕ, suc, Bool, true, false, not, ◌||◌, List, [], ◌∷◌, map, length, take, leb, ◌==◌, if◌then◌else◌,
  Option, none, some,
}
use reflex_llm.Base.Int.{ℤ, pos, negsuc}
use reflex_llm.Sampler.Floats.{Floats}
use reflex_llm.Sampler.Algorithms.{TokenProb, Algorithms}
use reflex_llm.Sampler.Draw.{
  SampleParams, sample_greedy, apply_temperature, apply_repeat_penalty, top_p_filter, draw,
  sample_top_k_fast,
}

module _ (fl : Floats) where
  open fl use {F, finite, lt, le, add, sub, mul, div, exp, infinity_below, one}

  -- A logit that is not finite becomes -INFINITY.
  unfoldable pub mask : List F → List F
  mask [] = []
  mask (x ∷ xs) = (if not (finite x) then infinity_below else x) ∷ mask xs

  -- `std::max_element`, of a range that is not empty.
  unfoldable pub max_element : F → List F → F
  max_element best [] = best
  max_element best (x ∷ xs) = max_element (if lt best x then x else best) xs

  unfoldable pub sum_all : F → List F → F
  sum_all sum [] = sum
  sum_all sum (x ∷ xs) = sum_all (add sum x) xs

  unfoldable pub candidates_from : (i : ℕ) (inv_sum : F) → List F → List (TokenProb F)
  candidates_from i inv_sum [] = []
  candidates_from i inv_sum (x ∷ xs) =
      (record { id = i; prob = mul x inv_sum }) ∷ candidates_from (suc i) inv_sum xs

  module _ (rng : F → F) (al : Algorithms fl) where
    open al use {partial_sort}

    -- The candidates stay as they are, and unsorted, where there is no k to keep.
    unfoldable pub top_k_filter : (k : ℤ) → List (TokenProb F) → List (TokenProb F)
    top_k_filter (negsuc k) cs = cs
    top_k_filter (pos k) cs =
        if (k == 0) || leb (length cs) k then cs else take k (partial_sort k cs)

    -- From the softmax on. With no logits the maximum would be read out of bounds.
    unfoldable pub softmax_draw : SampleParams F → List F → Option ℕ
    unfolding max_element sum_all candidates_from top_k_filter top_p_filter draw sample_greedy
    softmax_draw p [] = none
    softmax_draw p (x ∷ xs) =
        let max_val = max_element x xs in
        let weighed = map {A = F} (λ l. exp (sub l max_val)) (x ∷ xs) in
        let sum = sum_all fl.zero weighed in
        let candidates = candidates_from 0 (div one sum) weighed in
        let drawn = draw fl rng (top_p_filter fl p.top_p (top_k_filter p.top_k candidates)) in
        if not (finite max_val)
        then some 0
        else (if not (finite sum) || le sum fl.zero then some (sample_greedy fl weighed) else drawn)

    -- The fast path, where it is enabled and there is a k; or the rest.
    unfoldable pub fast_or : (fast : Bool) → SampleParams F → List F → Option ℕ → Option ℕ
    unfolding sample_top_k_fast
    fast_or false p logits rest = rest
    fast_or true p logits rest = elim (sample_top_k_fast fl rng al p logits) [
      | none ↦ rest
      | some token ↦ token
    ]

    -- The rest after the first try: masking, greed, the penalty if it is still due, and both paths.
    -- `none` where the penalty is out of bounds.
    unfoldable pub sample_slow :
        (fast penalty_applied : Bool) → SampleParams F → (recent : List ℕ) → List F → Option ℕ
    unfolding mask fast_or softmax_draw apply_temperature apply_repeat_penalty sample_greedy
    sample_slow fast penalty_applied p recent logits =
        let masked = mask logits in
        let penalised =
          if penalty_applied
          then some masked
          else apply_repeat_penalty fl recent p.repeat_penalty masked in
        let drawn : Option ℕ = elim penalised [
          | none ↦ none
          | some xs ↦ fast_or fast p xs (softmax_draw p (apply_temperature fl p.temperature xs))
        ] in
        if le p.temperature fl.zero then some (sample_greedy fl masked) else drawn

    unfoldable pub sample_token :
        (debug fast : Bool) → SampleParams F → (recent : List ℕ) → List F → Option ℕ
    unfolding sample_slow
    sample_token debug fast p recent logits =
        let drawn : Option ℕ = elim (apply_repeat_penalty fl recent p.repeat_penalty logits) [
          | none ↦ none
          | some xs ↦ fast_or fast p xs (sample_slow fast true p recent xs)
        ] in
        if not debug
        then (if le p.temperature fl.zero then some (sample_greedy fl logits) else drawn)
        else sample_slow fast false p recent logits
