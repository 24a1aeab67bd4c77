-- ===== src/Sampler/Range.antt =====
-- The token sampled is one of the vocabulary's, on every path.
use reflex_llm.Base.{
  All-In, In-All, In, ℕ, zero, suc, ◌+◌, ◌≤◌, ◌<◌, ◌≡◌, refl, ap, sym, subst, inl, inr, Bool, true,
  false, not, List, [], ◌∷◌, All, length, take, length-append, Option, some, ltb, if◌then◌else◌,
  if_elim, Bool-cases, arith,
}
use reflex_llm.Sampler.Floats.{Floats}
use reflex_llm.Sampler.Algorithms.{TokenProb, Algorithms}
use reflex_llm.Sampler.Draw.{
  sample_greedy, top_p_loop, top_p_filter, draw_loop, sample_from, draw, keep, scan, exp_all,
  scale_all, draw_sorted,
}
use reflex_llm.Sampler.Greedy.{sample_greedy_lem}

-- A token below n is drawn.
abbrev pub Drawn : (n : ℕ) → Option ℕ → Type 0
Drawn n o = (t : ℕ) × (o ≡ some t) × (t < n)

pub if-Drawn :
    (n : ℕ) (b : Bool) (x y : Option ℕ) → Drawn n x → Drawn n y → Drawn n (if b then x else y)
if-Drawn n true x y p q = p
if-Drawn n false x y p q = q

module _ (fl : Floats) where
  open fl use {F, finite, lt, le}

  -- Every candidate's token is below n.
  abbrev pub Below : ℕ → List (TokenProb F) → Type 0
  Below n = All (λ c. c.id < n)

  pub Below-In :
      (n : ℕ) (cs : List (TokenProb F)) → ((x : TokenProb F) → In x cs → x.id < n) → Below n cs
  Below-In n cs h = All-In (λ (c : TokenProb F). c.id < n) cs h

  pub In-Below :
      (n : ℕ) (cs : List (TokenProb F)) → Below n cs → (x : TokenProb F) → In x cs → x.id < n
  In-Below n cs h x i = In-All (λ (c : TokenProb F). c.id < n) cs h x i

  pub sample_greedy_bound : (xs : List F) → 0 < length xs → sample_greedy fl xs < length xs
  sample_greedy_bound xs h = elim (sample_greedy_lem fl xs) [
    | inl (before, v, after, split, e, fin, low, high) ↦
        omega (arith, e, ap length split, length-append before (v ∷ after))
    | inr (e, nothing) ↦ omega (arith, e)
  ]

  draw_loop-Below :
      (n : ℕ) (r sum : F) (c : TokenProb F) (cs : List (TokenProb F))
      → Below n (c ∷ cs)
      → draw_loop fl r sum c cs < n
  unfolding draw_loop
  draw_loop-Below n r sum c [] h = h.0
  draw_loop-Below n r sum c (d ∷ ds) h =
      if_elim (λ (t : ℕ). t < n) (le r (fl.add sum c.prob)) (λ _. h.0)
        (λ _. draw_loop-Below n r (fl.add sum c.prob) d ds h.1)

  pub take-Below : (n k : ℕ) (cs : List (TokenProb F)) → Below n cs → Below n (take k cs)
  take-Below n zero cs h = tt
  take-Below n (suc k) [] h = tt
  take-Below n (suc k) (c ∷ cs) h = (h.0, take-Below n k cs h.1)

  -- The filter leaves a candidate at least.
  top_p_filter-first :
      (p : F) (c : TokenProb F) (cs : List (TokenProb F))
      → (k : ℕ) × (top_p_filter fl p (c ∷ cs) ≡ c ∷ take k cs)
  unfolding top_p_filter top_p_loop
  top_p_filter-first p c cs = elim (Bool-cases (lt p (fl.add fl.zero c.prob))) [
    | inl over ↦ (0, rw over refl)
    | inr under ↦ (top_p_loop fl p (fl.add fl.zero c.prob) cs, rw under refl)
  ]

  module _ (rng : F → F) where
    pub draw-Drawn :
        (n : ℕ) (p : F) (c : TokenProb F) (cs : List (TokenProb F))
        → Below n (c ∷ cs)
        → Drawn n (draw fl rng (top_p_filter fl p (c ∷ cs)))
    unfolding draw sample_from
    draw-Drawn n p c cs h =
        let (k, e) = top_p_filter-first p c cs in
        subst (λ ds. Drawn n (draw fl rng ds)) (sym e)
          (
            sample_from fl rng c (take k cs),
            refl,
            draw_loop-Below n _ fl.zero c (take k cs) (h.0, take-Below n k cs h.1),
          )

    module _ (al : Algorithms fl) where
      open al use {push, replace, sort, partial_sort}

      push-Below :
          (n : ℕ) (h : List (TokenProb F)) (c : TokenProb F)
          → Below n h
          → c.id < n
          → Below n (push h c)
      push-Below n h c b l =
          Below-In n (push h c) (λ x i. In-Below n (c ∷ h) (l, b) x ((al.In-push h c x).0 i))

      replace-Below :
          (n : ℕ) (f : TokenProb F) (r : List (TokenProb F)) (c : TokenProb F)
          → Below n (f ∷ r)
          → c.id < n
          → Below n (replace (f ∷ r) c)
      replace-Below n f r c b l =
          Below-In n (replace (f ∷ r) c)
            (λ x i. In-Below n (c ∷ r) (l, b.1) x ((al.In-replace f r c x).0 i))

      keep-Below :
          (n k : ℕ) (inv_t : F) (i : ℕ) (x : F) (h : List (TokenProb F))
          → i < n
          → Below n h
          → Below n (keep fl rng al k inv_t i x h)
      unfolding keep
      keep-Below n k inv_t i x [] l b =
          if_elim (Below n) (not (finite x)) (λ _. tt) (λ _. push-Below n [] _ tt l)
      keep-Below n k inv_t i x (f ∷ r) l b =
          if_elim (Below n) (not (finite x)) (λ _. b)
            (λ _.
              if_elim (Below n) (ltb (length (f ∷ r)) k) (λ _. push-Below n (f ∷ r) _ b l)
                (λ _.
                  if_elim (Below n) (lt f.prob (fl.mul x inv_t)) (λ _. replace-Below n f r _ b l)
                    (λ _. b)))

      pub scan-Below :
          (n k : ℕ) (inv_t : F) (i : ℕ) (h : List (TokenProb F)) (xs : List F)
          → i + length xs ≤ n
          → Below n h
          → Below n (scan fl rng al k inv_t i h xs)
      unfolding scan
      scan-Below n k inv_t i h [] l b = b
      scan-Below n k inv_t i h (x ∷ xs) l b =
          scan-Below n k inv_t (suc i) (keep fl rng al k inv_t i x h) xs (omega arith)
            (keep-Below n k inv_t i x h (omega arith) b)

      exp_all-Below :
          (n : ℕ) (m : F) (cs : List (TokenProb F)) → Below n cs → Below n (exp_all fl rng al m cs)
      unfolding exp_all
      exp_all-Below n m [] b = tt
      exp_all-Below n m (c ∷ cs) b = (b.0, exp_all-Below n m cs b.1)

      scale_all-Below :
          (n : ℕ) (s : F) (cs : List (TokenProb F))
          → Below n cs
          → Below n (scale_all fl rng al s cs)
      unfolding scale_all
      scale_all-Below n s [] b = tt
      scale_all-Below n s (c ∷ cs) b = (b.0, scale_all-Below n s cs b.1)

      pub draw_sorted-Drawn :
          (p : F) (logits : List F) (cs : List (TokenProb F))
          → 0 < length logits
          → Below (length logits) cs
          → Drawn (length logits) (draw_sorted fl rng al p logits cs)
      unfolding draw_sorted exp_all scale_all
      draw_sorted-Drawn p logits [] some_logit b =
          (sample_greedy fl logits, refl, sample_greedy_bound logits some_logit)
      draw_sorted-Drawn p logits (c ∷ cs) some_logit b =
          if-Drawn (length logits) _ _ _
            (sample_greedy fl logits, refl, sample_greedy_bound logits some_logit)
            (draw-Drawn (length logits) p _ _ (
              scale_all-Below (length logits) _ (exp_all fl rng al c.prob (c ∷ cs))
                (exp_all-Below (length logits) c.prob (c ∷ cs) b)))
