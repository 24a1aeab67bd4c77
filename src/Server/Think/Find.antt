-- ===== src/Server/Think/Find.antt =====
-- Where a tag is found, and where it is not, when more text comes.
use reflex_llm.Base.{
  ℕ, zero, suc, ◌+◌, ◌≤◌, ◌≡◌, refl, ap, sym, ◌∙◌, subst, ◌⊎◌, inl, inr, true, false, ◌&&◌, Option,
  none, some, List, [], ◌∷◌, ◌++◌, length, take, drop, append_assoc, starts_with, arith, ltb, ◌==◌,
  Bool-cases, Option-cases, length-append,
}
use reflex_llm.Server.Think.{find}

pub starts_with-split :
    (s text : List ℕ) → starts_with s text ≡ true → text ≡ s ++ drop (length s) text
unfolding starts_with
starts_with-split [] text e = refl
starts_with-split (a ∷ s) [] e = absurd (cc)
starts_with-split (a ∷ s) (b ∷ text) e = elim (Bool-cases (a == b)) [
  | inl same ↦
      let head : b ≡ a = ground arith in
      ap (λ (x : ℕ). x ∷ text) head
      ∙ ap (◌∷◌ a) (starts_with-split s text (rw (same, starts_with) at e))
  | inr other ↦ absurd (cc (rw (other, starts_with) at e))
]

some_injective : (m n : ℕ) → some m ≡ some n → m ≡ n
some_injective m n e = ground arith

pub find-split :
    (s buf : List ℕ) (n : ℕ)
    → find s buf ≡ some n
    → buf ≡ take n buf ++ (s ++ drop (length s) (drop n buf))
unfolding find
find-split s [] n e = elim (Bool-cases (starts_with s [])) [
  | inl here ↦
      subst (λ (k : ℕ). [] ≡ take k [] ++ (s ++ drop (length s) (drop k [])))
        (some_injective 0 n (rw (here, find) at e)) (starts_with-split s [] here)
  | inr other ↦ absurd (cc (rw (other, find) at e))
]
find-split s (c ∷ cs) n e = elim (Bool-cases (starts_with s (c ∷ cs))) [
  | inl here ↦
      subst (λ (k : ℕ). c ∷ cs ≡ take k (c ∷ cs) ++ (s ++ drop (length s) (drop k (c ∷ cs))))
        (some_injective 0 n (rw (here, find) at e)) (starts_with-split s (c ∷ cs) here)
  | inr other ↦ elim (Option-cases (find s cs)) [
    | inl never ↦ absurd (cc (rw (other, never, find) at e))
    | inr (m, found) ↦
        subst (λ (k : ℕ). c ∷ cs ≡ take k (c ∷ cs) ++ (s ++ drop (length s) (drop k (c ∷ cs))))
          (some_injective (suc m) n (rw (other, found, find) at e))
          (ap (◌∷◌ c) (find-split s cs m found))
  ]
]

-- A prefix stays one when more text comes.
starts_with-more :
    (s text more : List ℕ) → starts_with s text ≡ true → starts_with s (text ++ more) ≡ true
unfolding starts_with
starts_with-more [] text more h = refl
starts_with-more (c ∷ s) [] more h = absurd (cc h)
starts_with-more (c ∷ s) (b ∷ text) more h = ground (arith, starts_with-more s text more)

starts_with_self : (s : List ℕ) → starts_with s s ≡ true
unfolding starts_with
starts_with_self [] = refl
starts_with_self (c ∷ s) = ground (arith, starts_with_self s)

-- What does not start with `s`, and is not a shorter start of `s` either, never will start with it.
pub never_starts :
    (s text more : List ℕ)
    → (ltb (length text) (length s) && starts_with text s) ≡ false
    → starts_with s text ≡ false
    → starts_with s (text ++ more) ≡ false
unfolding starts_with
never_starts [] text more h k = absurd (cc k)
never_starts (c ∷ s) [] more h k = absurd (ground (arith, h))
never_starts (c ∷ s) (b ∷ text) more h k = ground (arith, never_starts s text more)

abbrev pub later : ℕ → Option ℕ → Option ℕ
later n none = none
later n (some m) = some (n + m)

later_next :
    (n : ℕ) (o : Option ℕ)
    → elim (later n o) as (λ _. Option ℕ) [ none ↦ none | some k ↦ some (suc k) ] ≡ later (suc n) o
later_next n none = refl
later_next n (some m) = ap some (omega arith)

pub later_zero : (o : Option ℕ) → o ≡ later 0 o
later_zero none = refl
later_zero (some m) = ap some (omega arith)

-- A text in which `s` does not occur, and which ends in `old`, that is too short for `s` by one byte at
-- most: with more text, `s` is found first where it is found first behind the text in front of `old`.
pub find_past :
    (s r old more : List ℕ)
    → (r ≡ []) ⊎ (length s ≤ suc (length old))
    → find s (r ++ old) ≡ none
    → find s (r ++ (old ++ more)) ≡ later (length r) (find s (old ++ more))
unfolding find
find_past s [] old more l h = later_zero (find s (old ++ more))
find_past s (c ∷ r) old more (inl e) h = absurd (cc e)
find_past s (c ∷ r) old more (inr l) h = elim (Bool-cases (starts_with s (c ∷ (r ++ old)))) [
  | inl here ↦ absurd (cc (rw (here, find) at h))
  | inr other ↦ elim (Option-cases (find s (r ++ old))) [
    | inl first ↦
        let room : ltb (length (c ∷ (r ++ old))) (length s) ≡ false =
          ground (arith, length-append r old, l) in
        let quiet : starts_with s (c ∷ (r ++ (old ++ more))) ≡ false =
          ap (λ x. starts_with s (c ∷ x)) (sym (append_assoc r old more))
          ∙ never_starts s (c ∷ (r ++ old)) more (rw room refl) other in
        rw (quiet, find_past s r old more (inr l) first, find)
          (later_next (length r) (find s (old ++ more)))
    | inr (m, found) ↦ absurd (cc (rw (other, found, find) at h))
  ]
]

find_self : (s : List ℕ) → find s s ≡ some 0
unfolding find
find_self [] = rw (starts_with_self []) refl
find_self (c ∷ s) = rw (starts_with_self (c ∷ s)) refl

-- `s` is found first at n also when nothing follows it.
pub find-take :
    (s text : List ℕ) (n : ℕ) → find s text ≡ some n → find s (take n text ++ s) ≡ some n
unfolding find
find-take s [] n h = elim (Bool-cases (starts_with s [])) [
  | inl here ↦
      subst (λ (k : ℕ). find s (take k [] ++ s) ≡ some k)
        (some_injective 0 n (rw (here, find) at h)) (find_self s)
  | inr other ↦ absurd (cc (rw (other, find) at h))
]
find-take s (c ∷ cs) n h = elim (Bool-cases (starts_with s (c ∷ cs))) [
  | inl here ↦
      subst (λ (k : ℕ). find s (take k (c ∷ cs) ++ s) ≡ some k)
        (some_injective 0 n (rw (here, find) at h)) (find_self s)
  | inr other ↦ elim (Option-cases (find s cs)) [
    | inl never ↦ absurd (cc (rw (other, never, find) at h))
    | inr (m, found) ↦
        let back : (c ∷ (take m cs ++ s)) ++ drop (length s) (drop m cs) ≡ c ∷ cs = ap (◌∷◌ c) (
          append_assoc (take m cs) s (drop (length s) (drop m cs))
          ∙ sym (find-split s cs m found)) in
        subst (λ (k : ℕ). find s (take k (c ∷ cs) ++ s) ≡ some k)
          (some_injective (suc m) n (rw (other, found, find) at h))
          (elim (Bool-cases (starts_with s (c ∷ (take m cs ++ s)))) [
            | inl here ↦ absurd (
                cc (
                  starts_with-more s (c ∷ (take m cs ++ s)) (drop (length s) (drop m cs)) here,
                  ap (starts_with s) back,
                  other,
                ))
            | inr quiet ↦ rw (quiet, find-take s cs m found, find) refl
          ])
  ]
]

length-take_found : (s text : List ℕ) (n : ℕ) → find s text ≡ some n → length (take n text) ≡ n
unfolding find
length-take_found s [] n h = elim (Bool-cases (starts_with s [])) [
  | inl here ↦
      subst (λ (k : ℕ). length (take {A = ℕ} k []) ≡ k) (some_injective 0 n (rw (here, find) at h))
        refl
  | inr other ↦ absurd (cc (rw (other, find) at h))
]
length-take_found s (c ∷ cs) n h = elim (Bool-cases (starts_with s (c ∷ cs))) [
  | inl here ↦
      subst (λ (k : ℕ). length (take k (c ∷ cs)) ≡ k) (some_injective 0 n (rw (here, find) at h))
        refl
  | inr other ↦ elim (Option-cases (find s cs)) [
    | inl never ↦ absurd (cc (rw (other, never, find) at h))
    | inr (m, found) ↦
        subst (λ (k : ℕ). length (take k (c ∷ cs)) ≡ k)
          (some_injective (suc m) n (rw (other, found, find) at h))
          (ap suc (length-take_found s cs m found))
  ]
]

take_past : (r b : List ℕ) (n k : ℕ) → k ≡ length r + n → take k (r ++ b) ≡ r ++ take n b
take_past [] b n k e = ap (λ (i : ℕ). take i b) (omega arith)
take_past (x ∷ r) b n zero e = absurd (omega arith)
take_past (x ∷ r) b n (suc k) e = ap (◌∷◌ x) (take_past r b n k (omega arith))

-- `s` is found in `b` at n, and in `r ++ b` not before: what is in front of it there does not hold it,
-- even with the start of `s` itself behind.
pub find-front :
    (s r b : List ℕ) (n : ℕ)
    → find s b ≡ some n
    → find s (r ++ b) ≡ later (length r) (find s b)
    → find s ((r ++ take n b) ++ s) ≡ some (length (r ++ take n b))
find-front s r b n found clear =
    let whole : find s (r ++ b) ≡ some (length r + n) = clear ∙ ap (later (length r)) found in
    let size : length r + n ≡ length (r ++ take n b) =
      sym (
        length-append r (take n b)
        ∙ ap (λ (i : ℕ). length r + i) (length-take_found s b n found)) in
    ap (λ x. find s (x ++ s)) (sym (take_past r b n (length r + n) refl))
    ∙ find-take s (r ++ b) (length r + n) whole
    ∙ ap some size
