-- ===== src/Sampler/Algorithms.antt =====
-- What the sampler uses of <algorithm>: a heap whose front has the least value, and sorting.
use reflex_llm.Base.{ℕ, suc, ◌≡◌, ◌↔◌, ◌⊎◌, true, false, List, [], ◌∷◌, In, length}
use reflex_llm.Sampler.Floats.{Floats}

pub record TokenProb (F : Type 0) : Type 0 where
  pub id : ℕ
  pub prob : F

-- `push` is push_back and push_heap; `replace` is pop_heap, a write to the back, and push_heap;
-- `partial_sort` puts the first so many in order. How equal values are arranged is left open.
pub record Algorithms (fl : Floats) : Type 1 where
  pub push : List (TokenProb fl.F) → TokenProb fl.F → List (TokenProb fl.F)
  pub replace : List (TokenProb fl.F) → TokenProb fl.F → List (TokenProb fl.F)
  pub sort : List (TokenProb fl.F) → List (TokenProb fl.F)
  pub partial_sort : ℕ → List (TokenProb fl.F) → List (TokenProb fl.F)
  pub IsHeap : List (TokenProb fl.F) → Type 0
  pub IsHeap-nil : IsHeap []
  pub IsHeap-push :
      (h : List (TokenProb fl.F)) (c : TokenProb fl.F)
      → IsHeap h
      → fl.number c.prob ≡ true
      → IsHeap (push h c)
  pub IsHeap-replace :
      (f : TokenProb fl.F) (r : List (TokenProb fl.F)) (c : TokenProb fl.F)
      → IsHeap (f ∷ r)
      → fl.number c.prob ≡ true
      → IsHeap (replace (f ∷ r) c)
  pub front-least :
      (f : TokenProb fl.F) (r : List (TokenProb fl.F)) (x : TokenProb fl.F)
      → IsHeap (f ∷ r)
      → In x (f ∷ r)
      → fl.lt x.prob f.prob ≡ false
  pub In-push :
      (h : List (TokenProb fl.F)) (c x : TokenProb fl.F) → In x (push h c) ↔ ((x ≡ c) ⊎ In x h)
  pub In-replace :
      (f : TokenProb fl.F) (r : List (TokenProb fl.F)) (c x : TokenProb fl.F)
      → In x (replace (f ∷ r) c) ↔ ((x ≡ c) ⊎ In x r)
  pub length-push :
      (h : List (TokenProb fl.F)) (c : TokenProb fl.F) → length (push h c) ≡ suc (length h)
  pub length-replace :
      (f : TokenProb fl.F) (r : List (TokenProb fl.F)) (c : TokenProb fl.F)
      → length (replace (f ∷ r) c) ≡ suc (length r)
  pub In-sort : (h : List (TokenProb fl.F)) (x : TokenProb fl.F) → In x (sort h) ↔ In x h
  pub length-sort : (h : List (TokenProb fl.F)) → length (sort h) ≡ length h
  pub In-partial_sort :
      (n : ℕ) (h : List (TokenProb fl.F)) (x : TokenProb fl.F) → In x (partial_sort n h) ↔ In x h
  pub length-partial_sort :
      (n : ℕ) (h : List (TokenProb fl.F)) → length (partial_sort n h) ≡ length h
