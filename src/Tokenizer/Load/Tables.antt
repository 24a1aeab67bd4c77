-- ===== src/Tokenizer/Load/Tables.antt =====
-- The tables that the loader builds: ids stand for the strings that they are of, and the special tokens
-- are tried from the longest one on.
use reflex_llm.Base.{
  ℕ, suc, ◌+◌, ◌≡◌, refl, ap, subst, inl, inr, true, none, some, List, [], ◌∷◌, get_elem?, In,
  same_bytes, same_bytes_refl, eq_of_same_bytes, Bool-cases, Option-cases, arith,
}
use reflex_llm.Tokenizer.Load.{last_index}

pub last_index-own :
    (i : ℕ) (toks : List (List ℕ)) (s : List ℕ) (id : ℕ)
    → last_index i toks s ≡ some id
    → (j : ℕ) × (id ≡ i + j) × (get_elem? toks j ≡ some s)
unfolding last_index
last_index-own i [] s id e = absurd (cc)
last_index-own i (tok ∷ toks) s id e = elim (Option-cases (last_index (suc i) toks s)) [
  | inr (j, found) ↦
      let same : j ≡ id = ground (arith, found, e) in
      let (k, at, own) = last_index-own (suc i) toks s j found in
      (suc k, omega (arith, same, at), own)
  | inl nothing ↦ elim (Bool-cases (same_bytes tok s)) [
    | inl here ↦
        let same : i ≡ id = ground (arith, nothing, here, e) in
        (0, omega (arith, same), ap some (eq_of_same_bytes tok s here))
    | inr other ↦ absurd (ground (arith, nothing, other, e))
  ]
]

pub last_index-found :
    (i : ℕ) (toks : List (List ℕ)) (s : List ℕ)
    → In s toks
    → (id : ℕ) × (last_index i toks s ≡ some id)
unfolding last_index
last_index-found i [] s h = absurd h
last_index-found i (tok ∷ toks) s h = elim (Option-cases (last_index (suc i) toks s)) [
  | inr (j, found) ↦ (j, rw found refl)
  | inl nothing ↦ (i, here nothing h (last_index-found (suc i) toks s))
]
  where
    here :
        last_index (suc i) toks s ≡ none
        → In s (tok ∷ toks)
        → (In s toks → (id : ℕ) × (last_index (suc i) toks s ≡ some id))
        → last_index i (tok ∷ toks) s ≡ some i
    here nothing (inl e) later =
        let same : same_bytes tok s ≡ true =
          subst (λ (k : List ℕ). same_bytes k s ≡ true) e (same_bytes_refl s) in
        rw (nothing, same) refl
    here nothing (inr k) later = absurd (cc (nothing, (later k).1))
