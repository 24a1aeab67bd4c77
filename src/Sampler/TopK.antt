-- ===== src/Sampler/TopK.antt =====
-- The fast path keeps the k candidates with the highest values.
use reflex_llm.Base.{
  In, All-In, ℕ, suc, ◌<◌, ◌≡◌, refl, ap, sym, ◌∙◌, ◌⊎◌, inl, inr, true, false, not, List, [], ◌∷◌,
  All, length, min, ltb, ltb→lt, le_of_not-ltb, if◌then◌else◌, if_elim, Bool-cases, arith,
}
use reflex_llm.Sampler.Floats.{Floats}
use reflex_llm.Sampler.Algorithms.{TokenProb, Algorithms}
use reflex_llm.Sampler.Draw.{keep, scan, kept, inverse}

module _ (fl : Floats) (rng : fl.F → fl.F) (al : Algorithms fl) where
  open fl use {F, number, finite, lt, mul, lt_irrefl, lt_trans, not-lt_trans}
  open al use {push, replace, IsHeap}

  -- All candidates: a token for each finite logit, with its value, the last one first.
  abbrev pub candidates : (inv_t : F) (i : ℕ) → List (TokenProb F) → List F → List (TokenProb F)
  candidates inv_t i seen [] = seen
  candidates inv_t i seen (x ∷ xs) =
      candidates inv_t (suc i)
        (if not (finite x) then seen else (record { id = i; prob = mul x inv_t }) ∷ seen) xs

  -- No candidate of a list is below another one.
  abbrev pub NoneBelow : F → List (TokenProb F) → Type 0
  NoneBelow v h = (d : TokenProb F) → In d h → lt d.prob v ≡ false

  record Top (k : ℕ) (seen h : List (TokenProb F)) : Type 0 where
    heap : IsHeap h
    numbers : (x : TokenProb F) → In x h → number x.prob ≡ true
    sound : (x : TokenProb F) → In x h → In x seen
    complete : (x : TokenProb F) → In x seen → In x h ⊎ ((length h ≡ k) × NoneBelow x.prob h)
    count : length h ≡ min k (length seen)

  module _ (k : ℕ) (seen : List (TokenProb F)) (c : TokenProb F) (num : number c.prob ≡ true) where
    push-Top : (h : List (TokenProb F)) → length h < k → Top k seen h → Top k (c ∷ seen) (push h c)
    push-Top h room t = record {
      heap = al.IsHeap-push h c t.heap num;
      numbers = λ x i. numbers x ((al.In-push h c x).0 i);
      sound = λ x i. sound x ((al.In-push h c x).0 i);
      complete = complete;
      count = omega (arith, al.length-push h c, t.count);
    }
      where
        numbers : (x : TokenProb F) → (x ≡ c) ⊎ In x h → number x.prob ≡ true
        numbers x (inl e) = ap (λ (y : TokenProb F). number y.prob) e ∙ num
        numbers x (inr i) = t.numbers x i

        sound : (x : TokenProb F) → (x ≡ c) ⊎ In x h → In x (c ∷ seen)
        sound x (inl e) = inl e
        sound x (inr i) = inr (t.sound x i)

        old : (x : TokenProb F) → In x h ⊎ ((length h ≡ k) × NoneBelow x.prob h) → In x (push h c)
        old x (inl i) = (al.In-push h c x).1 (inr i)
        old x (inr full) = absurd (omega (arith, full.0))

        complete :
            (x : TokenProb F)
            → In x (c ∷ seen)
            → In x (push h c) ⊎ ((length (push h c) ≡ k) × NoneBelow x.prob (push h c))
        complete x (inl e) = inl ((al.In-push h c x).1 (inl e))
        complete x (inr i) = inl (old x (t.complete x i))

    module _ (f : TokenProb F) (r : List (TokenProb F)) (t : Top k seen (f ∷ r))
        (full : length (f ∷ r) ≡ k) where
      low : (d : TokenProb F) → In d (f ∷ r) → lt d.prob f.prob ≡ false
      low d i = al.front-least f r d t.heap i

      pass-Top : lt f.prob c.prob ≡ false → Top k (c ∷ seen) (f ∷ r)
      pass-Top under = record {
        heap = t.heap;
        numbers = t.numbers;
        sound = λ x i. inr (t.sound x i);
        complete = complete;
        count = omega (arith, t.count);
      }
        where
          complete :
              (x : TokenProb F)
              → In x (c ∷ seen)
              → In x (f ∷ r) ⊎ ((length (f ∷ r) ≡ k) × NoneBelow x.prob (f ∷ r))
          complete x (inl e) = inr (
            full,
            λ d i.
                ap (λ (y : TokenProb F). lt d.prob y.prob) e
                ∙ not-lt_trans d.prob f.prob c.prob (t.numbers f (inl refl)) (low d i) under,
          )
          complete x (inr i) = t.complete x i

      above : (u v w : F) → lt u v ≡ true → lt v w ≡ true → lt u w ≡ false → ⊥
      above u v w p q low = cc (lt_trans u v w p q, low)

      replace-Top : lt f.prob c.prob ≡ true → Top k (c ∷ seen) (replace (f ∷ r) c)
      replace-Top over = record {
        heap = al.IsHeap-replace f r c t.heap num;
        numbers = λ x i. numbers x ((al.In-replace f r c x).0 i);
        sound = λ x i. sound x ((al.In-replace f r c x).0 i);
        complete = complete;
        count = omega (arith, al.length-replace f r c, t.count);
      }
        where
          still_full : length (replace (f ∷ r) c) ≡ k
          still_full = omega (arith, al.length-replace f r c)

          numbers : (x : TokenProb F) → (x ≡ c) ⊎ In x r → number x.prob ≡ true
          numbers x (inl e) = ap (λ (y : TokenProb F). number y.prob) e ∙ num
          numbers x (inr i) = t.numbers x (inr i)

          sound : (x : TokenProb F) → (x ≡ c) ⊎ In x r → In x (c ∷ seen)
          sound x (inl e) = inl e
          sound x (inr i) = inr (t.sound x (inr i))

          -- The front that goes is below no candidate that stays.
          front_out : (d : TokenProb F) → (d ≡ c) ⊎ In d r → lt d.prob f.prob ≡ false
          front_out d (inl e) = elim (Bool-cases (lt d.prob f.prob)) [
            | inr no_more ↦ no_more
            | inl less ↦ absurd (
                above f.prob c.prob f.prob over
                  (sym (ap (λ (y : TokenProb F). lt y.prob f.prob) e) ∙ less) (lt_irrefl f.prob))
          ]
          front_out d (inr i) = low d (inr i)

          out :
              (x : TokenProb F)
              → NoneBelow x.prob (f ∷ r)
              → (d : TokenProb F) → (d ≡ c) ⊎ In d r
              → lt d.prob x.prob ≡ false
          out x none_below d (inr i) = none_below d (inr i)
          out x none_below d (inl e) = elim (Bool-cases (lt d.prob x.prob)) [
            | inr no_more ↦ no_more
            | inl less ↦ absurd (
                above f.prob c.prob x.prob over
                  (sym (ap (λ (y : TokenProb F). lt y.prob x.prob) e) ∙ less)
                  (none_below f (inl refl)))
          ]

          settled :
              (x : TokenProb F)
              → In x (f ∷ r) ⊎ ((length (f ∷ r) ≡ k) × NoneBelow x.prob (f ∷ r))
              → In x (replace (f ∷ r) c)
                ⊎ ((length (replace (f ∷ r) c) ≡ k) × NoneBelow x.prob (replace (f ∷ r) c))
          settled x (inl (inl e)) = inr (
            still_full,
            λ d i.
                ap (λ (y : TokenProb F). lt d.prob y.prob) e
                ∙ front_out d ((al.In-replace f r c d).0 i),
          )
          settled x (inl (inr i)) = inl ((al.In-replace f r c x).1 (inr i))
          settled x (inr (l, none_below)) =
              inr (still_full, λ d i. out x none_below d ((al.In-replace f r c d).0 i))

          complete :
              (x : TokenProb F)
              → In x (c ∷ seen)
              → In x (replace (f ∷ r) c)
                ⊎ ((length (replace (f ∷ r) c) ≡ k) × NoneBelow x.prob (replace (f ∷ r) c))
          complete x (inl e) = inl ((al.In-replace f r c x).1 (inl e))
          complete x (inr i) = settled x (t.complete x i)

  module _ (k : ℕ) (inv_t : F) (some_k : 0 < k) where
    next : ℕ → F → List (TokenProb F) → List (TokenProb F)
    next i x seen = if not (finite x) then seen else (record { id = i; prob = mul x inv_t }) ∷ seen

    as_number :
        (x : F)
        → (finite x ≡ false) ⊎ (number (mul x inv_t) ≡ true)
        → finite x ≡ true
        → number (mul x inv_t) ≡ true
    as_number x (inl inf) fin = absurd (cc (inf, fin))
    as_number x (inr num) fin = num

    keep-Top :
        (i : ℕ) (x : F) (seen h : List (TokenProb F))
        → (finite x ≡ false) ⊎ (number (mul x inv_t) ≡ true)
        → Top k seen h
        → Top k (next i x seen) (keep fl rng al k inv_t i x h)
    unfolding keep next
    keep-Top i x seen [] n t = elim (Bool-cases (finite x)) [
      | inr inf ↦ rw inf t
      | inl fin ↦ rw fin (push-Top k seen _ (as_number x n fin) [] some_k t)
    ]
    keep-Top i x seen (f ∷ r) n t = elim (Bool-cases (finite x)) [
      | inr inf ↦ rw inf t
      | inl fin ↦
          let c : TokenProb F = record { id = i; prob = mul x inv_t } in
          let num = as_number x n fin in
          rw fin (
            if_elim (Top k (c ∷ seen)) (ltb (length (f ∷ r)) k)
              (λ room. push-Top k seen c num (f ∷ r) (ltb→lt (length (f ∷ r)) k room) t)
              (λ no_room.
                let full : length (f ∷ r) ≡ k =
                  omega (arith, t.count, le_of_not-ltb (length (f ∷ r)) k no_room) in
                if_elim (Top k (c ∷ seen)) (lt f.prob c.prob) (replace-Top k seen c num f r t full)
                  (pass-Top k seen c num f r t full)))
    ]

    scan-Top :
        (i : ℕ) (seen h : List (TokenProb F)) (xs : List F)
        → All (λ x. (finite x ≡ false) ⊎ (number (mul x inv_t) ≡ true)) xs
        → Top k seen h
        → Top k (candidates inv_t i seen xs) (scan fl rng al k inv_t i h xs)
    unfolding scan next
    scan-Top i seen h [] n t = t
    scan-Top i seen h (x ∷ xs) n t =
        scan-Top (suc i) (next i x seen) (keep fl rng al k inv_t i x h) xs n.1
          (keep-Top i x seen h n.0 t)

    empty-Top : Top k [] []
    empty-Top = record {
      heap = al.IsHeap-nil;
      numbers = λ x i. absurd i;
      sound = λ x i. absurd i;
      complete = λ x i. absurd i;
      count = omega arith;
    }

  -- Of the candidates of a vocabulary (a token for each finite logit, with the logit times the inverse
  -- of the temperature), whose values are numbers, the fast path keeps k, or all if they are fewer; and
  -- none that it leaves out is above one that it keeps. It keeps candidates only.
  pub kept-top :
      (k : ℕ) (temperature : F) (logits : List F)
      → 0 < k
      → let inv_t = inverse fl rng al temperature in
        let cs = candidates inv_t 0 [] logits in
        let h = kept fl rng al k temperature logits in
        All (λ x. (finite x ≡ false) ⊎ (number (mul x inv_t) ≡ true)) logits
        → (length h ≡ min k (length cs))
          × All (λ c. In c cs) h
          × All (λ c. In c h ⊎ ((length h ≡ k) × All (λ d. lt d.prob c.prob ≡ false) h)) cs
  unfolding kept
  kept-top k temperature logits p n =
      let inv_t = inverse fl rng al temperature in
      let h = scan fl rng al k inv_t 0 [] logits in
      let t = scan-Top k inv_t p 0 [] [] logits n (empty-Top k inv_t p) in
      (
        t.count,
        All-In _ h t.sound,
        All-In _ (candidates inv_t 0 [] logits) (λ c i. listed c h (t.complete c i)),
      )
    where
      listed :
          (c : TokenProb F) (h : List (TokenProb F))
          → In c h ⊎ ((length h ≡ k) × NoneBelow c.prob h)
          → In c h ⊎ ((length h ≡ k) × All (λ d. lt d.prob c.prob ≡ false) h)
      listed c h (inl i) = inl i
      listed c h (inr (l, b)) = inr (l, All-In _ h b)
