-- ===== src/Tokenizer/Merge.antt =====
-- The merging of symbols in `Tokenizer::encode`, by rank.
use reflex_llm.Base.{
  ℕ, zero, suc, ◌+◌, ◌≤◌, ◌<◌, ◌≡◌, refl, ap, ◌∙◌, ◌⊎◌, inl, inr, Option, none, some, List, [], ◌∷◌,
  ◌++◌, length, append_assoc, arith, ltb, if◌then◌else◌, if_elim, le_of_not-ltb, option_elim,
}
use reflex_llm.Tokenizer.Symbols.{concat}

-- Keys to ranks. The separator is a newline.
abbrev pub Ranks : Type 0
Ranks = List ℕ → Option ℕ

abbrev pub bpe_key : List ℕ → List ℕ → List ℕ
bpe_key a b = a ++ (10 ∷ b)

abbrev pub int_max : ℕ
int_max = 2147483647

-- The rank of a pair, `INT_MAX` for none.
unfoldable pub rank_of : Ranks → List ℕ → List ℕ → ℕ
rank_of ranks a b = elim (ranks (bpe_key a b)) [ none ↦ int_max | some r ↦ r ]

-- The scan from symbol `i` on, with the best rank so far and its place.
unfoldable pub best_pair :
    Ranks → (i best_rank : ℕ) (best_idx : Option ℕ) → List (List ℕ) → Option ℕ
unfolding rank_of
best_pair ranks i best_rank best_idx [] = best_idx
best_pair ranks i best_rank best_idx (s ∷ []) = best_idx
best_pair ranks i best_rank best_idx (s ∷ t ∷ rest) =
    let better = best_pair ranks (i + 1) (rank_of ranks s t) (some i) (t ∷ rest) in
    let same = best_pair ranks (i + 1) best_rank best_idx (t ∷ rest) in
    if ltb (rank_of ranks s t) best_rank then better else same

-- `symbols[i] += symbols[i + 1]`, and the latter is erased.
unfoldable pub merge_at : (i : ℕ) → List (List ℕ) → List (List ℕ)
merge_at i [] = []
merge_at i (s ∷ []) = s ∷ []
merge_at zero (s ∷ t ∷ rest) = (s ++ t) ∷ rest
merge_at (suc i) (s ∷ t ∷ rest) = s ∷ merge_at i (t ∷ rest)

-- The loop; each round has one symbol fewer.
unfoldable pub merge_all : Ranks → (fuel : ℕ) → List (List ℕ) → List (List ℕ)
unfolding best_pair merge_at
merge_all ranks zero symbols = symbols
merge_all ranks (suc fuel) symbols = elim (best_pair ranks 0 int_max none symbols) [
  | none ↦ symbols
  | some i ↦ merge_all ranks fuel (merge_at i symbols)
]

concat-merge_at : (i : ℕ) (symbols : List (List ℕ)) → concat (merge_at i symbols) ≡ concat symbols
unfolding merge_at
concat-merge_at i [] = refl
concat-merge_at i (s ∷ []) = refl
concat-merge_at zero (s ∷ t ∷ rest) = append_assoc s t (concat rest)
concat-merge_at (suc i) (s ∷ t ∷ rest) = ap (◌++◌ s) (concat-merge_at i (t ∷ rest))

-- Merging keeps the text.
pub concat-merge_all :
    (ranks : Ranks) (fuel : ℕ) (symbols : List (List ℕ))
    → concat (merge_all ranks fuel symbols) ≡ concat symbols
unfolding merge_all
concat-merge_all ranks zero symbols = refl
concat-merge_all ranks (suc fuel) symbols =
    option_elim (λ (ss : List (List ℕ)). concat ss ≡ concat symbols)
      (best_pair ranks 0 int_max none symbols) (λ e. refl)
      (λ i e. concat-merge_all ranks fuel (merge_at i symbols) ∙ concat-merge_at i symbols)

-- No two neighbours have a rank below `bound`.
abbrev pub NoneBelow : Ranks → ℕ → List (List ℕ) → Type 0
NoneBelow ranks bound [] = Unit
NoneBelow ranks bound (s ∷ []) = Unit
NoneBelow ranks bound (s ∷ t ∷ rest) =
    (bound ≤ rank_of ranks s t) × NoneBelow ranks bound (t ∷ rest)

some_injective : (a b : ℕ) → some a ≡ some b → a ≡ b
some_injective a b e = ground arith

-- What the scan answers.
record Scanned (ranks : Ranks) (i bound : ℕ) (start : Option ℕ) (symbols : List (List ℕ))
    (r : Option ℕ) : Type 0 where
  unchanged : r ≡ none → (start ≡ none) × NoneBelow ranks bound symbols
  place : (k : ℕ) → r ≡ some k → (start ≡ some k) ⊎ ((i ≤ k) × (suc k < i + length symbols))

best_pair-Scanned :
    (ranks : Ranks) (symbols : List (List ℕ)) (i bound : ℕ) (start : Option ℕ)
    → Scanned ranks i bound start symbols (best_pair ranks i bound start symbols)
unfolding best_pair
best_pair-Scanned ranks [] i bound start = record { unchanged = λ e. (e, tt); place = λ k e. inl e }
best_pair-Scanned ranks (s ∷ []) i bound start = record {
  unchanged = λ e. (e, tt);
  place = λ k e. inl e;
}
best_pair-Scanned ranks (s ∷ t ∷ rest) i bound start =
    if_elim (Scanned ranks i bound start (s ∷ t ∷ rest)) (ltb (rank_of ranks s t) bound)
      (λ lt.
        let b = best_pair-Scanned ranks (t ∷ rest) (i + 1) (rank_of ranks s t) (some i) in
        record {
          unchanged = λ e. absurd (cc ((b.unchanged e).0));
          place = λ k e. inr (elim (b.place k e) [
            | inl here ↦ let same : i ≡ k = some_injective i k here in (omega arith, omega arith)
            | inr (lo, hi) ↦ (omega arith, omega arith)
          ]);
        })
      (λ ge.
        let b = best_pair-Scanned ranks (t ∷ rest) (i + 1) bound start in
        record {
          unchanged = λ e. ((b.unchanged e).0, (le_of_not-ltb _ bound ge, (b.unchanged e).1));
          place = λ k e. elim (b.place k e) [
            | inl here ↦ inl here
            | inr (lo, hi) ↦ inr (omega arith, omega arith)
          ];
        })

length-merge_at :
    (k : ℕ) (symbols : List (List ℕ))
    → suc k < length symbols
    → suc (length (merge_at k symbols)) ≡ length symbols
unfolding merge_at
length-merge_at k [] h = absurd (omega arith)
length-merge_at k (s ∷ []) h = absurd (omega arith)
length-merge_at zero (s ∷ t ∷ rest) h = refl
length-merge_at (suc k) (s ∷ t ∷ rest) h = ap suc (length-merge_at k (t ∷ rest) (omega arith))

record Done (ranks : Ranks) (symbols : List (List ℕ)) : Type 0 where
  none_left : NoneBelow ranks int_max symbols

merge_all-Done :
    (ranks : Ranks) (fuel : ℕ) (symbols : List (List ℕ))
    → length symbols ≤ fuel
    → Done ranks (merge_all ranks fuel symbols)
unfolding merge_all
merge_all-Done ranks zero [] h = record { none_left = tt }
merge_all-Done ranks zero (s ∷ ss) h = absurd (omega arith)
merge_all-Done ranks (suc fuel) symbols h =
    let b = best_pair-Scanned ranks symbols 0 int_max none in
    option_elim (Done ranks) (best_pair ranks 0 int_max none symbols)
      (λ e. record { none_left = (b.unchanged e).1 })
      (λ k e. elim (b.place k e) [
        | inl never ↦ absurd (cc)
        | inr (lo, hi) ↦
            merge_all-Done ranks fuel (merge_at k symbols)
              (omega (arith, length-merge_at k symbols (omega arith)))
      ])

-- With one round for each symbol, the merging ends: it keeps the text, and no two neighbours that are
-- left have a rank.
pub merge_all_complete :
    (ranks : Ranks) (fuel : ℕ) (symbols : List (List ℕ))
    → length symbols ≤ fuel
    → (concat (merge_all ranks fuel symbols) ≡ concat symbols)
      × NoneBelow ranks int_max (merge_all ranks fuel symbols)
merge_all_complete ranks fuel symbols h =
    (concat-merge_all ranks fuel symbols, (merge_all-Done ranks fuel symbols h).none_left)
