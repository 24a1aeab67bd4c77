-- ===== src/Sampler/Greedy.antt =====
-- Greedy sampling finds the first of the highest finite logits.
use reflex_llm.Base.{
  ℕ, suc, ◌+◌, ◌≡◌, refl, ap, ◌∙◌, ◌⊎◌, inl, inr, Bool, true, false, ◌&&◌, List, [], ◌∷◌, ◌++◌, All,
  length, Bool-cases, arith,
}
use reflex_llm.Sampler.Floats.{Floats}
use reflex_llm.Sampler.Draw.{greedy_loop, sample_greedy}

module _ (fl : Floats) where
  open fl use {
    F, finite, number, lt, infinity_below, lt_irrefl, lt_trans, not-lt_trans, finite-number,
    below-finite,
  }

  -- No finite value of a list is above a value.
  abbrev pub NoneAbove : F → List F → Type 0
  NoneAbove v [] = Unit
  NoneAbove v (x ∷ xs) = ((finite x ≡ false) ⊎ (lt v x ≡ false)) × NoneAbove v xs

  -- Every finite value of a list is below a value.
  abbrev pub AllBelow : F → List F → Type 0
  AllBelow v [] = Unit
  AllBelow v (x ∷ xs) = ((finite x ≡ false) ⊎ (lt x v ≡ true)) × AllBelow v xs

  -- The loop ends at a split of the list, or where it began.
  abbrev Best : (i best : ℕ) (best_val : F) → List F → ℕ → Type 0
  Best i best best_val xs r =
      ((r ≡ best) × NoneAbove best_val xs)
      ⊎ ((before : List F) × (v : F) × (after : List F) × (xs ≡ before ++ v ∷ after)
          × (r ≡ i + length before)
          × (finite v ≡ true)
          × (lt best_val v ≡ true)
          × AllBelow v before
          × NoneAbove v after)

  pass_false : (x v : F) → (finite x && lt v x) ≡ false → (finite x ≡ false) ⊎ (lt v x ≡ false)
  pass_false x v h = elim (Bool-cases (finite x)) [
    | inl fin ↦ inr (rw fin at h)
    | inr inf ↦ inl inf
  ]

  and_true : (a b : Bool) → (a && b) ≡ true → (a ≡ true) × (b ≡ true)
  and_true true b h = (refl, h)
  and_true false b h = absurd (cc)

  -- What was not above the best is below what is.
  below_next :
      (x u v : F)
      → (finite x ≡ false) ⊎ (lt u x ≡ false)
      → lt u v ≡ true
      → (finite x ≡ false) ⊎ (lt x v ≡ true)
  below_next x u v (inl inf) h = inl inf
  below_next x u v (inr low) h = elim (Bool-cases (finite x)) [
    | inr inf ↦ inl inf
    | inl fin ↦ elim (Bool-cases (lt x v)) [
      | inl less ↦ inr less
      | inr not_less ↦ absurd (cc (h, not-lt_trans u x v (finite-number x fin) low not_less))
    ]
  ]

  greedy_loop-Best :
      (i best : ℕ) (best_val : F) (xs : List F)
      → Best i best best_val xs (greedy_loop fl i best best_val xs)
  unfolding greedy_loop
  greedy_loop-Best i best u [] = inl (refl, tt)
  greedy_loop-Best i best u (x ∷ xs) = elim (Bool-cases (finite x && lt u x)) [
    | inl higher ↦
        let (fin, less) = and_true (finite x) (lt u x) higher in
        rw higher (found fin less (greedy_loop-Best (suc i) i x xs))
    | inr pass ↦ rw pass (passed (pass_false x u pass) (greedy_loop-Best (suc i) best u xs))
  ]
    where
      found :
          {r : ℕ}
          → finite x ≡ true
          → lt u x ≡ true
          → Best (suc i) i x xs r
          → Best i best u (x ∷ xs) r
      found fin less (inl (e, clear)) =
          inr ([], x, xs, refl, e ∙ (omega arith), fin, less, tt, clear)
      found fin less (inr (before, v, after, split, e, fv, above, below, clear)) = inr (
        x ∷ before,
        v,
        after,
        ap (◌∷◌ x) split,
        e ∙ (omega arith),
        fv,
        lt_trans u x v less above,
        (inr above, below),
        clear,
      )

      passed :
          {r : ℕ}
          → (finite x ≡ false) ⊎ (lt u x ≡ false)
          → Best (suc i) best u xs r
          → Best i best u (x ∷ xs) r
      passed low (inl (e, clear)) = inl (e, (low, clear))
      passed low (inr (before, v, after, split, e, fv, above, below, clear)) = inr (
        x ∷ before,
        v,
        after,
        ap (◌∷◌ x) split,
        e ∙ (omega arith),
        fv,
        above,
        (below_next x u v low above, below),
        clear,
      )

  none_finite : (xs : List F) → NoneAbove infinity_below xs → All (λ x. finite x ≡ false) xs
  none_finite [] h = tt
  none_finite (x ∷ xs) h = (here h.0, none_finite xs h.1)
    where
      here : (finite x ≡ false) ⊎ (lt infinity_below x ≡ false) → finite x ≡ false
      here (inl inf) = inf
      here (inr low) = elim (Bool-cases (finite x)) [
        | inl fin ↦ absurd (cc (below-finite x fin, low))
        | inr inf ↦ inf
      ]

  -- Greedy sampling gives the place of a finite logit that every finite logit before it is below, and
  -- no finite logit behind it is above; or 0 where no logit is finite.
  pub sample_greedy_lem :
      (logits : List F)
      → ((before : List F) × (v : F) × (after : List F) × (logits ≡ before ++ v ∷ after)
          × (sample_greedy fl logits ≡ length before)
          × (finite v ≡ true)
          × AllBelow v before
          × NoneAbove v after)
        ⊎ ((sample_greedy fl logits ≡ 0) × All (λ x. finite x ≡ false) logits)
  unfolding sample_greedy
  sample_greedy_lem logits = conclude (greedy_loop-Best 0 0 infinity_below logits)
    where
      conclude :
          {r : ℕ}
          → Best 0 0 infinity_below logits r
          → ((before : List F) × (v : F) × (after : List F) × (logits ≡ before ++ v ∷ after)
              × (r ≡ length before)
              × (finite v ≡ true)
              × AllBelow v before
              × NoneAbove v after)
            ⊎ ((r ≡ 0) × All (λ x. finite x ≡ false) logits)
      conclude (inl (e, clear)) = inr (e, none_finite logits clear)
      conclude (inr (before, v, after, split, e, fin, above, below, clear)) =
          inl (before, v, after, split, e ∙ (omega arith), fin, below, clear)
