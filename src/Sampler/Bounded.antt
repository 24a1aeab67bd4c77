-- ===== src/Sampler/Bounded.antt =====
-- `sample_token` gives a token of the vocabulary.
use reflex_llm.Base.{
  ℕ, zero, suc, ◌+◌, ◌≤◌, ◌<◌, ◌≡◌, refl, ap, ◌∙◌, subst, Bool, true, false, ◌||◌, List, [], ◌∷◌,
  All, map, length, take, Option, none, some, leb, ◌==◌, if◌then◌else◌, if_elim, arith,
}
use reflex_llm.Base.Int.{ℤ, pos, negsuc}
use reflex_llm.Sampler.Floats.{Floats}
use reflex_llm.Sampler.Algorithms.{TokenProb, Algorithms}
use reflex_llm.Sampler.Draw.{
  SampleParams, sample_greedy, apply_temperature, penalise, penalise_all, apply_repeat_penalty,
  top_p_filter, draw, scan, kept, inverse, draw_sorted, sample_top_k_fast,
}
use reflex_llm.Sampler.Token.{
  mask, max_element, sum_all, candidates_from, top_k_filter, softmax_draw, fast_or, sample_slow,
  sample_token,
}
use reflex_llm.Sampler.Range.{
  Drawn, if-Drawn, Below, Below-In, In-Below, take-Below, sample_greedy_bound, draw-Drawn,
  scan-Below, draw_sorted-Drawn,
}

module _ (fl : Floats) where
  open fl use {F, finite, lt, le}

  length-map : (f : F → F) (xs : List F) → length (map f xs) ≡ length xs
  length-map f [] = refl
  length-map f (x ∷ xs) = ap suc (length-map f xs)

  -- Logits were given, as many as n.
  Sized : ℕ → Option (List F) → Type 0
  Sized n o = (ys : List F) × (o ≡ some ys) × (length ys ≡ n)

  penalise-Sized :
      (p : F) (tok : ℕ) (xs : List F) → tok < length xs → Sized (length xs) (penalise fl p tok xs)
  unfolding penalise Sized
  penalise-Sized p tok [] h = absurd (omega arith)
  penalise-Sized p zero (x ∷ xs) h = (_, refl, refl)
  penalise-Sized p (suc tok) (x ∷ xs) h =
      let (ys, e, l) = penalise-Sized p tok xs (omega arith) in rw e (x ∷ ys, refl, ap suc l)

  penalise_all-Sized :
      (n : ℕ) (p : F) (ts : List ℕ) (xs : List F)
      → length xs ≡ n
      → All (λ t. t < n) ts
      → Sized n (penalise_all fl p ts xs)
  unfolding penalise_all Sized
  penalise_all-Sized n p [] xs l h = (xs, refl, l)
  penalise_all-Sized n p (t ∷ ts) xs l h =
      let (ys, e, m) = penalise-Sized p t xs (omega (arith, h.0)) in
      rw (e, penalise_all) (penalise_all-Sized n p ts ys (m ∙ l) h.1)

  repeat_penalty-Sized :
      (n : ℕ) (ts : List ℕ) (p : F) (xs : List F)
      → length xs ≡ n
      → All (λ t. t < n) ts
      → Sized n (apply_repeat_penalty fl ts p xs)
  unfolding apply_repeat_penalty Sized
  repeat_penalty-Sized n ts p xs l h =
      if_elim (Sized n) (le p fl.one) (λ _. (xs, refl, l)) (λ _. penalise_all-Sized n p ts xs l h)

  length-temperature : (t : F) (xs : List F) → length (apply_temperature fl t xs) ≡ length xs
  unfolding apply_temperature
  length-temperature t xs =
      if_elim (λ (ys : List F). length ys ≡ length xs) (le t fl.zero || fl.eq t fl.one) (λ _. refl)
        (λ _. length-map _ xs)

  length-mask : (xs : List F) → length (mask fl xs) ≡ length xs
  unfolding mask
  length-mask [] = refl
  length-mask (x ∷ xs) = ap suc (length-mask xs)

  candidates-Below :
      (n i : ℕ) (s : F) (xs : List F) → i + length xs ≤ n → Below fl n (candidates_from fl i s xs)
  unfolding candidates_from
  candidates-Below n i s [] h = tt
  candidates-Below n i s (x ∷ xs) h = (omega arith, candidates-Below n (suc i) s xs (omega arith))

  length-candidates : (i : ℕ) (s : F) (xs : List F) → length (candidates_from fl i s xs) ≡ length xs
  unfolding candidates_from
  length-candidates i s [] = refl
  length-candidates i s (x ∷ xs) = ap suc (length-candidates (suc i) s xs)

  module _ (rng : F → F) (al : Algorithms fl) where
    open al use {sort, partial_sort}

    -- A filter and a draw, for candidates that are not empty.
    some-Drawn :
        (n : ℕ) (p : F) (cs : List (TokenProb F))
        → 0 < length cs
        → Below fl n cs
        → Drawn n (draw fl rng (top_p_filter fl p cs))
    some-Drawn n p [] l b = absurd (omega arith)
    some-Drawn n p (c ∷ cs) l b = draw-Drawn fl rng n p c cs b

    take-first : (k : ℕ) (cs : List (TokenProb F)) → 0 < k → 0 < length cs → 0 < length (take k cs)
    take-first zero cs k l = absurd (omega arith)
    take-first (suc k) [] p l = absurd (omega arith)
    take-first (suc k) (c ∷ cs) p l = omega arith

    top_k_filter-Drawn :
        (n : ℕ) (k : ℤ) (p : F) (cs : List (TokenProb F))
        → 0 < length cs
        → Below fl n cs
        → Drawn n (draw fl rng (top_p_filter fl p (top_k_filter fl rng al k cs)))
    unfolding top_k_filter
    top_k_filter-Drawn n (negsuc k) p cs l b = some-Drawn n p cs l b
    top_k_filter-Drawn n (pos k) p cs l b =
        if_elim (λ ds. Drawn n (draw fl rng (top_p_filter fl p ds))) ((k == 0) || leb (length cs) k)
          (λ _. some-Drawn n p cs l b)
          (λ few.
            some-Drawn n p (take k (partial_sort k cs))
              (take-first k (partial_sort k cs) (ground arith)
                (omega (arith, al.length-partial_sort k cs)))
              (take-Below fl n k (partial_sort k cs) (
                Below-In fl n (partial_sort k cs)
                  (λ x i. In-Below fl n cs b x ((al.In-partial_sort k cs x).0 i)))))

    softmax-Drawn :
        (p : SampleParams F) (logits : List F)
        → 0 < length logits
        → Drawn (length logits) (softmax_draw fl rng al p logits)
    unfolding softmax_draw
    softmax-Drawn p [] h = absurd (omega arith)
    softmax-Drawn p (x ∷ xs) h =
        let f : F → F = λ l. fl.exp (fl.sub l (max_element fl x xs)) in
        let weighed = map f (x ∷ xs) in
        let cs = candidates_from fl 0 (fl.div fl.one (sum_all fl fl.zero weighed)) weighed in
        let l = length-map f (x ∷ xs) in
        let greedy : sample_greedy fl weighed < length (x ∷ xs) =
          omega (arith, l, sample_greedy_bound fl weighed (omega (arith, l))) in
        if-Drawn (length (x ∷ xs)) _ (some 0) _ (0, refl, omega arith)
          (if-Drawn (length (x ∷ xs)) _ _ _ (sample_greedy fl weighed, refl, greedy)
            (top_k_filter-Drawn (length (x ∷ xs)) p.top_k p.top_p cs
              (omega (
                arith,
                l,
                length-candidates 0 (fl.div fl.one (sum_all fl fl.zero weighed)) weighed,
              ))
              (candidates-Below (length (x ∷ xs)) 0 _ weighed (omega (arith, l)))))

    fast-Drawn :
        (p : SampleParams F) (logits : List F) (k : ℕ)
        → 0 < length logits
        → Drawn
            (length logits)
            (draw_sorted fl rng al p.top_p logits (sort (kept fl rng al k p.temperature logits)))
    unfolding kept
    fast-Drawn p logits k h =
        let cs = scan fl rng al k (inverse fl rng al p.temperature) 0 [] logits in
        let b =
          scan-Below fl rng al (length logits) k (inverse fl rng al p.temperature) 0 [] logits
            (omega arith) (tt) in
        draw_sorted-Drawn fl rng al p.top_p logits (sort cs) h (
          Below-In fl (length logits) (sort cs)
            (λ x i. In-Below fl (length logits) cs b x ((al.In-sort cs x).0 i)))

    -- What the fast path gives in front of a rest that draws.
    Tries : (n : ℕ) (rest : Option ℕ) → Option (Option ℕ) → Type 0
    Tries n rest o = Drawn n (elim o [ none ↦ rest | some token ↦ token ])

    fast_or-Drawn :
        (fast : Bool) (p : SampleParams F) (logits : List F) (rest : Option ℕ)
        → 0 < length logits
        → Drawn (length logits) rest
        → Drawn (length logits) (fast_or fl rng al fast p logits rest)
    unfolding fast_or sample_top_k_fast Tries
    fast_or-Drawn false p logits rest h d = d
    fast_or-Drawn true p logits rest h d = by_k p.top_k
      where
        by_k :
            (k : ℤ)
            → Tries (length logits) rest (elim k [
              | negsuc n ↦ none
              | pos m ↦
                  if (m == 0) || leb (length logits) m
                  then none
                  else some (
                      draw_sorted fl rng al p.top_p logits
                        (sort (kept fl rng al m p.temperature logits)))
            ])
        by_k (negsuc n) = d
        by_k (pos m) =
            if_elim (Tries (length logits) rest) ((m == 0) || leb (length logits) m) (λ _. d)
              (λ _. fast-Drawn p logits m h)

    -- A draw from logits that are as many as n.
    of_length :
        (n : ℕ) (logits : List F) (o : Option ℕ)
        → length logits ≡ n
        → Drawn (length logits) o
        → Drawn n o
    of_length n logits o e d = subst (λ (k : ℕ). Drawn k o) e d

    given : (n : ℕ) (xs : List F) → length xs ≡ n → Sized n (some xs)
    unfolding Sized
    given n xs l = (xs, refl, l)

    -- A draw from logits that were given.
    sized-Drawn :
        (n : ℕ) (f : List F → Option ℕ) (o : Option (List F))
        → Sized n o
        → ((xs : List F) → length xs ≡ n → Drawn n (f xs))
        → Drawn n (elim o [ none ↦ none | some xs ↦ f xs ])
    unfolding Sized
    sized-Drawn n f o (xs, e, l) h = rw e (h xs l)

    sample_slow-Drawn :
        (fast applied : Bool) (p : SampleParams F) (recent : List ℕ) (logits : List F)
        → 0 < length logits
        → (applied ≡ false → All (λ t. t < length logits) recent)
        → Drawn (length logits) (sample_slow fl rng al fast applied p recent logits)
    unfolding sample_slow
    sample_slow-Drawn fast applied p recent logits h below =
        let n = length logits in
        let masked = mask fl logits in
        let m = length-mask logits in
        let greedy = sample_greedy_bound fl masked (omega (arith, m)) in
        let due : Sized n (
            if applied
            then some masked
            else apply_repeat_penalty fl recent p.repeat_penalty masked) =
          if_elim (Sized n) applied (λ _. given n masked m)
            (λ still. repeat_penalty-Sized n recent p.repeat_penalty masked m (below still)) in
        if-Drawn n _ _ _ (sample_greedy fl masked, refl, omega (arith, m, greedy))
          (sized-Drawn n _ _ due (λ xs l.
            let warm = apply_temperature fl p.temperature xs in
            let w = length-temperature p.temperature xs in
            of_length n xs _ l (
              fast_or-Drawn fast p xs (softmax_draw fl rng al p warm) (omega (arith, l))
                (of_length (length xs) warm _ w (softmax-Drawn p warm (omega (arith, w, l)))))))

    -- For a vocabulary that is not empty, and recent tokens of the vocabulary, every call gives a token
    -- of the vocabulary: whatever the logits, the parameters, the draw, and the ways of <algorithm>.
    pub sample_token-Drawn :
        (debug fast : Bool) (p : SampleParams F) (recent : List ℕ) (logits : List F)
        → 0 < length logits
        → All (λ t. t < length logits) recent
        → Drawn (length logits) (sample_token fl rng al debug fast p recent logits)
    unfolding sample_token
    sample_token-Drawn debug fast p recent logits h below =
        let n = length logits in
        if-Drawn n _ _ _
          (if-Drawn n _ _ _ (sample_greedy fl logits, refl, sample_greedy_bound fl logits h)
            (sized-Drawn n _ _ (repeat_penalty-Sized n recent p.repeat_penalty logits refl below)
              (λ xs l. of_length n xs _ l (
                fast_or-Drawn fast p xs _ (omega (arith, l)) (
                  sample_slow-Drawn fast true p recent xs (omega (arith, l))
                    (λ e. absurd (cc e)))))))
          (sample_slow-Drawn fast false p recent logits h (λ _. below))
