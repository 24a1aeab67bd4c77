-- ===== src/Tokenizer/Load/Specials.antt =====
-- The special tokens are tried from the longest one on, so that `encode` takes the longest.
use reflex_llm.Base.{
  ℕ, suc, ◌+◌, ◌≤◌, ◌≡◌, ◌↔◌, refl, ap, sym, ◌∙◌, subst, ◌⊎◌, inl, inr, true, false, Option, none,
  some, List, [], ◌∷◌, length, get_elem?, All, All-mono, In, All-In, In-All, starts_with,
  Bool-cases, arith,
}
use reflex_llm.Tokenizer.Encode.{special_at}
use reflex_llm.Tokenizer.Load.{is_special, specials_from}

abbrev pub Special : Type 0
Special = List ℕ × ℕ

In-specials :
    (i : ℕ) (toks : List (List ℕ)) (sp : Special)
    → In sp (specials_from i toks)
    → (j : ℕ) × (sp.1 ≡ i + j) × (get_elem? toks j ≡ some sp.0) × (is_special sp.0 ≡ true)
unfolding specials_from
In-specials i [] sp h = absurd h
In-specials i (tok ∷ toks) sp h = elim (Bool-cases (is_special tok)) [
  | inl special ↦ here special (rw special at h) (In-specials (suc i) toks sp)
  | inr plain ↦ later (In-specials (suc i) toks sp (rw plain at h))
]
  where
    later :
        (j : ℕ) × (sp.1 ≡ suc i + j) × (get_elem? toks j ≡ some sp.0) × (is_special sp.0 ≡ true)
        → (j : ℕ) × (sp.1 ≡ i + j)
          × (get_elem? (tok ∷ toks) j ≡ some sp.0)
          × (is_special sp.0 ≡ true)
    later (j, at, own, s) = (suc j, omega (arith, at), own, s)

    here :
        is_special tok ≡ true
        → (sp ≡ (tok, i)) ⊎ In sp (specials_from (suc i) toks)
        → (In sp (specials_from (suc i) toks)
            → (j : ℕ) × (sp.1 ≡ suc i + j)
              × (get_elem? toks j ≡ some sp.0)
              × (is_special sp.0 ≡ true))
        → (j : ℕ) × (sp.1 ≡ i + j)
          × (get_elem? (tok ∷ toks) j ≡ some sp.0)
          × (is_special sp.0 ≡ true)
    here special (inl e) rest = (
      0,
      ap (λ (x : Special). x.1) e ∙ (omega arith),
      ap some (sym (ap (λ (x : Special). x.0) e)),
      ap (λ (x : Special). is_special x.0) e ∙ special,
    )
    here special (inr k) rest = later (rest k)

specials-In :
    (i : ℕ) (toks : List (List ℕ)) (tok : List ℕ)
    → In tok toks
    → is_special tok ≡ true
    → (id : ℕ) × In (tok, id) (specials_from i toks)
unfolding specials_from
specials-In i [] tok h s = absurd h
specials-In i (first ∷ toks) tok (inl e) s =
    let special : is_special first ≡ true = ap is_special (sym e) ∙ s in
    (i, rw special (inl (ap (λ (k : List ℕ). (k, i)) e)))
specials-In i (first ∷ toks) tok (inr k) s =
    let (id, found) = specials-In (suc i) toks tok k s in
    (
      id,
      elim (Bool-cases (is_special first)) [
        | inl special ↦ rw special (inr found)
        | inr plain ↦ rw plain found
      ],
    )

-- What std::sort by size does.
abbrev pub Descending : List Special → Type 0
Descending [] = Unit
Descending (a ∷ r) = All (λ b. length b.0 ≤ length a.0) r × Descending r

pub record SortsBySize (sort : List Special → List Special) : Type 0 where
  pub descending : (l : List Special) → Descending (sort l)
  pub In-sort : (l : List Special) (x : Special) → In x (sort l) ↔ In x l

-- A text begins with none of the tokens; or with this one and with no longer one.
abbrev Longest : List Special → (text : List ℕ) → Option (ℕ × ℕ) → Type 0
Longest sps text none = All (λ sp. starts_with sp.0 text ≡ false) sps
Longest sps text (some (id, n)) =
    (tok : List ℕ) × In (tok, id) sps
    × (starts_with tok text ≡ true)
    × (n ≡ length tok)
    × All (λ sp. (starts_with sp.0 text ≡ false) ⊎ (length sp.0 ≤ n)) sps

special_at-Longest :
    (sps : List Special) (text : List ℕ) → Descending sps → Longest sps text (special_at sps text)
unfolding special_at
special_at-Longest [] text d = tt
special_at-Longest (sp ∷ sps) text d = elim (Bool-cases (starts_with sp.0 text)) [
  | inl begins ↦
      rw begins
        (sp.0, inl refl, begins, refl, (inr (omega arith), All-mono _ _ sps (λ b l. inr l) d.0))
  | inr other ↦ rw other (passed other (special_at sps text) (special_at-Longest sps text d.1))
]
  where
    passed :
        starts_with sp.0 text ≡ false
        → (o : Option (ℕ × ℕ)) → Longest sps text o
        → Longest (sp ∷ sps) text o
    passed other none h = (other, h)
    passed other (some (id, n)) (tok, i, begins, l, rest) =
        (tok, inr i, begins, l, (inl other, rest))

-- A text begins with no special token of a vocabulary; or with the one of that id, which has n bytes,
-- and with no longer one.
abbrev pub LongestSpecial : List (List ℕ) → (text : List ℕ) → Option (ℕ × ℕ) → Type 0
LongestSpecial vocab text none =
    All (λ v. (is_special v ≡ false) ⊎ (starts_with v text ≡ false)) vocab
LongestSpecial vocab text (some (id, n)) =
    (tok : List ℕ) × (get_elem? vocab id ≡ some tok)
    × (is_special tok ≡ true)
    × (starts_with tok text ≡ true)
    × (n ≡ length tok)
    × All (λ v. (is_special v ≡ false) ⊎ ((starts_with v text ≡ false) ⊎ (length v ≤ n))) vocab

-- Where the sorting is one by size, the longest first, `encode` finds at each place of a text the longest
-- special token of the vocabulary that stands there, and none exactly where none does.
pub special_at-LongestSpecial :
    (sort : List Special → List Special) (vocab : List (List ℕ)) (text : List ℕ)
    → SortsBySize sort
    → LongestSpecial vocab text (special_at (sort (specials_from 0 vocab)) text)
special_at-LongestSpecial sort vocab text s =
    conclude (special_at (sort (specials_from 0 vocab)) text) (
      special_at-Longest (sort (specials_from 0 vocab)) text (s.descending (specials_from 0 vocab)))
  where
    sps : List Special
    sps = sort (specials_from 0 vocab)

    -- What holds of all the special tokens holds of every one in the vocabulary.
    each :
        (P : List ℕ → Type 0)
        → All (λ sp. P sp.0) sps
        → All (λ v. (is_special v ≡ false) ⊎ P v) vocab
    each P h = All-In _ vocab (λ v i. elim (Bool-cases (is_special v)) [
      | inr plain ↦ inl plain
      | inl special ↦
          let (id, k) = specials-In 0 vocab v i special in
          inr (
            In-All (λ (sp : Special). P sp.0) sps h (v, id)
              ((s.In-sort (specials_from 0 vocab) (v, id)).1 k))
    ])

    conclude : (o : Option (ℕ × ℕ)) → Longest sps text o → LongestSpecial vocab text o
    conclude none h = each (λ v. starts_with v text ≡ false) h
    conclude (some (id, n)) (tok, i, begins, l, rest) =
        let (j, at, own, special) =
          In-specials 0 vocab (tok, id) ((s.In-sort (specials_from 0 vocab) (tok, id)).0 i) in
        let same : j ≡ id = omega (arith, at) in
        (
          tok,
          subst (λ (k : ℕ). get_elem? vocab k ≡ some tok) same own,
          special,
          begins,
          l,
          each (λ v. (starts_with v text ≡ false) ⊎ (length v ≤ n)) rest,
        )
