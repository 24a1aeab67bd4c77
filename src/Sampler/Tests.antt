-- ===== src/Sampler/Tests.antt =====
-- Tests of the sampler, and its theorems at a vocabulary of natural numbers with heaps as sorted lists.
use reflex_llm.Base.{
  In, ℕ, suc, ◌+◌, ◌-◌, ◌*◌, ◌/◌, ◌≡◌, ◌↔◌, refl, ap, ◌∙◌, ◌⊎◌, inl, inr, Bool, true, false, List,
  [], ◌∷◌, ◌++◌, All, length, min, ltb, leb, ◌==◌, if◌then◌else◌, if_elim, arith, some, none,
}
use reflex_llm.Base.Int.{pos}
use reflex_llm.Sampler.Floats.{Floats}
use reflex_llm.Sampler.Algorithms.{TokenProb, Algorithms}
use reflex_llm.Sampler.Draw.{SampleParams, sample_greedy, kept}
use reflex_llm.Sampler.Token.{sample_token}
use reflex_llm.Sampler.Greedy.{NoneAbove, AllBelow, sample_greedy_lem}
use reflex_llm.Sampler.Range.{Drawn}
use reflex_llm.Sampler.Bounded.{sample_token-Drawn}
use reflex_llm.Sampler.TopK.{candidates, kept-top}

ltb_irrefl : (a : ℕ) → ltb a a ≡ false
ltb_irrefl a = ground arith

ltb_trans : (a b c : ℕ) → ltb a b ≡ true → ltb b c ≡ true → ltb a c ≡ true
ltb_trans a b c p q = ground arith

not-ltb_trans :
    (a b c : ℕ) → Path Bool true true → ltb a b ≡ false → ltb b c ≡ false → ltb a c ≡ false
not-ltb_trans a b c _ p q = ground arith

-- Natural numbers as floats, where 0 stands for -INFINITY.
abbrev naturals : Floats
naturals = record {
  F = ℕ;
  number = λ _. true;
  finite = λ a. ltb 0 a;
  lt = ltb;
  le = leb;
  eq = λ a b. a == b;
  add = λ a b. a + b;
  sub = λ a b. a - b;
  mul = λ a b. a * b;
  div = λ a b. a / b;
  exp = λ a. suc a;
  zero = 0;
  one = 1;
  infinity_below = 0;
  lt_irrefl = ltb_irrefl;
  lt_trans = ltb_trans;
  not-lt_trans = not-ltb_trans;
  finite-number = λ a _. refl;
  below-finite = λ a h. h;
}

abbrev Candidate : Type 0
Candidate = TokenProb ℕ

-- Insertion in front of the first value that `before` puts behind.
abbrev insert : (before : ℕ → ℕ → Bool) → Candidate → List Candidate → List Candidate
insert before c [] = c ∷ []
insert before c (f ∷ r) = if before c.prob f.prob then c ∷ f ∷ r else f ∷ insert before c r

abbrev sorted : List Candidate → List Candidate
sorted [] = []
sorted (c ∷ cs) = insert (λ a b. ltb b a) c (sorted cs)

abbrev Sorted : List Candidate → Type 0
Sorted [] = Unit
Sorted (f ∷ r) = ((x : Candidate) → In x r → ltb x.prob f.prob ≡ false) × Sorted r

In-insert :
    (b : ℕ → ℕ → Bool) (c : Candidate) (h : List Candidate) (x : Candidate)
    → In x (insert b c h) ↔ ((x ≡ c) ⊎ In x h)
In-insert b c [] x = (λ i. i, λ i. i)
In-insert b c (f ∷ r) x =
    let rest = In-insert b c r x in
    if_elim (λ l. In x l ↔ ((x ≡ c) ⊎ In x (f ∷ r))) (b c.prob f.prob) (λ _. (λ i. i, λ i. i))
      (λ _. (there rest, back rest))
  where
    Rest : Type 0
    Rest = In x (insert b c r) ↔ ((x ≡ c) ⊎ In x r)

    there : Rest → (x ≡ f) ⊎ In x (insert b c r) → (x ≡ c) ⊎ ((x ≡ f) ⊎ In x r)
    there rest (inl e) = inr (inl e)
    there rest (inr i) = elim (rest.0 i) [ inl e ↦ inl e | inr j ↦ inr (inr j) ]

    back : Rest → (x ≡ c) ⊎ ((x ≡ f) ⊎ In x r) → (x ≡ f) ⊎ In x (insert b c r)
    back rest (inl e) = inr (rest.1 (inl e))
    back rest (inr (inl e)) = inl e
    back rest (inr (inr i)) = inr (rest.1 (inr i))

length-insert :
    (b : ℕ → ℕ → Bool) (c : Candidate) (h : List Candidate) → length (insert b c h) ≡ suc (length h)
length-insert b c [] = refl
length-insert b c (f ∷ r) =
    if_elim (λ (l : List Candidate). length l ≡ suc (length (f ∷ r))) (b c.prob f.prob) (λ _. refl)
      (λ _. ap suc (length-insert b c r))

-- Nothing of a list is below a value.
abbrev Over : ℕ → List Candidate → Type 0
Over v h = (x : Candidate) → In x h → ltb x.prob v ≡ false

Over-insert :
    (b : ℕ → ℕ → Bool) (v : ℕ) (c : Candidate) (h : List Candidate)
    → ltb c.prob v ≡ false
    → Over v h
    → Over v (insert b c h)
Over-insert b v c h low over x i = elim ((In-insert b c h x).0 i) [
  | inl e ↦ ap (λ (y : Candidate). ltb y.prob v) e ∙ low
  | inr j ↦ over x j
]

Sorted-insert : (c : Candidate) (h : List Candidate) → Sorted h → Sorted (insert ltb c h)
Sorted-insert c [] s = (λ x i. absurd i, tt)
Sorted-insert c (f ∷ r) s =
    let rest = Sorted-insert c r s.1 in
    if_elim Sorted (ltb c.prob f.prob) (λ less. (under less, s))
      (λ not_less. (Over-insert ltb f.prob c r not_less s.0, rest))
  where
    under : ltb c.prob f.prob ≡ true → Over c.prob (f ∷ r)
    under less x (inl e) = ap (λ (y : Candidate). ltb y.prob c.prob) e ∙ (ground arith)
    under less x (inr i) = not-ltb_trans x.prob f.prob c.prob refl (s.0 x i) (ground arith)

In-sorted : (h : List Candidate) (x : Candidate) → In x (sorted h) ↔ In x h
In-sorted [] x = (λ i. i, λ i. i)
In-sorted (c ∷ cs) x =
    let rest = In-sorted cs x in
    let here = In-insert (λ a b. ltb b a) c (sorted cs) x in
    (
      λ i. elim (here.0 i) [ inl e ↦ inl e | inr j ↦ inr (rest.0 j) ],
      λ i. here.1 (elim i [ inl e ↦ inl e | inr j ↦ inr (rest.1 j) ]),
    )

length-sorted : (h : List Candidate) → length (sorted h) ≡ length h
length-sorted [] = refl
length-sorted (c ∷ cs) = length-insert (λ a b. ltb b a) c (sorted cs) ∙ ap suc (length-sorted cs)

abbrev pop : List Candidate → List Candidate
pop [] = []
pop (f ∷ r) = r

front-least :
    (f : Candidate) (r : List Candidate) (x : Candidate)
    → Sorted (f ∷ r)
    → In x (f ∷ r)
    → ltb x.prob f.prob ≡ false
front-least f r x s (inl e) = ap (λ (y : Candidate). ltb y.prob f.prob) e ∙ ltb_irrefl f.prob
front-least f r x s (inr i) = s.0 x i

abbrev sorted_lists : Algorithms naturals
sorted_lists = record {
  push = λ h c. insert ltb c h;
  replace = λ h c. insert ltb c (pop h);
  sort = sorted;
  partial_sort = λ _. sorted;
  IsHeap = Sorted;
  IsHeap-nil = tt;
  IsHeap-push = λ h c s _. Sorted-insert c h s;
  IsHeap-replace = λ f r c s _. Sorted-insert c r s.1;
  front-least = front-least;
  In-push = λ h c x. In-insert ltb c h x;
  In-replace = λ f r c x. In-insert ltb c r x;
  length-push = λ h c. length-insert ltb c h;
  length-replace = λ f r c. length-insert ltb c r;
  In-sort = In-sorted;
  length-sort = length-sorted;
  In-partial_sort = λ _. In-sorted;
  length-partial_sort = λ _. length-sorted;
}

abbrev half : ℕ → ℕ
half total = total / 2

abbrev logits : List ℕ
logits = 3 ∷ 0 ∷ 9 ∷ 5 ∷ 9 ∷ 4 ∷ []

abbrev params : SampleParams ℕ
params = record { temperature = 1; top_k = pos 3; top_p = 8; repeat_penalty = 2 }

-- The first of the two 9s.
greedy_first : sample_greedy naturals logits ≡ 2
unfolding sample_greedy
greedy_first = refl

-- The heap replaces the 3 by the 9, and then the 3 that is its least again.
kept_three :
    kept naturals half sorted_lists 3 1 logits
    ≡ (record { id = 3; prob = 5 })
      ∷ (record { id = 2; prob = 9 })
      ∷ (record { id = 4; prob = 9 })
      ∷ []
unfolding kept
kept_three = refl

-- The second 9 has the weight of its rank, and the draw falls on it.
drawn : sample_token naturals half sorted_lists false true params (2 ∷ []) logits ≡ some 4
unfolding sample_token
drawn = refl

-- A recent token outside the vocabulary is a write out of bounds.
outside : sample_token naturals half sorted_lists false true params (6 ∷ []) logits ≡ none
unfolding sample_token
outside = refl

sample_greedy_lem_example :
    ((before : List ℕ) × (v : ℕ) × (after : List ℕ) × (logits ≡ before ++ v ∷ after)
      × (sample_greedy naturals logits ≡ length before)
      × (ltb 0 v ≡ true)
      × AllBelow naturals v before
      × NoneAbove naturals v after)
    ⊎ ((sample_greedy naturals logits ≡ 0) × All (λ x. ltb 0 x ≡ false) logits)
sample_greedy_lem_example = sample_greedy_lem naturals logits

sample_token-Drawn_example :
    Drawn 6 (sample_token naturals half sorted_lists false true params (2 ∷ []) logits)
sample_token-Drawn_example =
    sample_token-Drawn naturals half sorted_lists false true params (2 ∷ []) logits (omega arith)
      (omega arith, tt)

kept-top_example :
    let cs = candidates naturals half sorted_lists 1 0 [] logits in
    let h = kept naturals half sorted_lists 3 1 logits in
    (length h ≡ min 3 (length cs))
    × All (λ c. In c cs) h
    × All (λ c. In c h ⊎ ((length h ≡ 3) × All (λ d. ltb d.prob c.prob ≡ false) h)) cs
kept-top_example =
    kept-top naturals half sorted_lists 3 1 logits (omega arith)
      (inr refl, (inr refl, (inr refl, (inr refl, (inr refl, (inr refl, tt))))))
