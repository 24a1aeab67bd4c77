-- ===== src/Engine/Materialize/Arena.antt =====
-- The arena of a layer: its pieces do not overlap, so that a copy leaves the earlier ones as they are.
use reflex_llm.Base.{
  ℕ, suc, ◌+◌, ◌≤◌, ◌<◌, ◌≡◌, refl, ap, sym, ◌∙◌, subst, ◌⊎◌, inl, inr, Bool, true, false, Option,
  none, some, List, [], ◌∷◌, map, Bool-cases, if_elim, if◌then◌else◌, then_true, arith, ◌==◌,
}
use reflex_llm.KvCache.{Mem, memcpy, memcpy_hit, memcpy_miss}
use reflex_llm.Engine.Materialize.{Spec, Piece, align_up_size, lay_out, copy_pieces}

-- Pieces in the order of their weights, each from a multiple of 256 on.
abbrev pub Laid : ℕ → List Spec → List Piece → ℕ → Type 0
Laid n [] [] m = n ≡ m
Laid n [] (p ∷ ps) m = ⊥
Laid n (s ∷ ss) [] m = ⊥
Laid n (s ∷ ss) (p ∷ ps) m =
    (s.src ≡ some p.src)
    × (p.size ≡ s.bytes)
    × (p.offset ≡ n)
    × Laid (n + align_up_size s.bytes 256) ss ps m

module _ (s : Spec) (n : ℕ) (ss : List Spec) where
  step : Option (List Piece × ℕ) → Option ℕ → Bool → Option (List Piece × ℕ)
  step rest src empty = if empty then none else elim src [
    | none ↦ none
    | some a ↦ elim rest [
      | none ↦ none
      | some (ps, all) ↦ some ((record { src = a; offset = n; size = s.bytes }) ∷ ps, all)
    ]
  ]

  step-Laid :
      (rest : Option (List Piece × ℕ)) (src : Option ℕ) (empty : Bool) (ps : List Piece) (m : ℕ)
      → s.src ≡ src
      → ((qs : List Piece) → rest ≡ some (qs, m) → Laid (n + align_up_size s.bytes 256) ss qs m)
      → step rest src empty ≡ some (ps, m)
      → Laid n (s ∷ ss) ps m
  unfolding step
  step-Laid rest src true ps m same later e = absurd (cc)
  step-Laid rest none false ps m same later e = absurd (cc)
  step-Laid none (some a) false ps m same later e = absurd (cc)
  step-Laid (some (qs, k)) (some a) false ps m same later e =
      let all : k ≡ m = cc in
      let pieces : (record { src = a; offset = n; size = s.bytes }) ∷ qs ≡ ps = cc in
      subst (λ (rs : List Piece). Laid n (s ∷ ss) rs m) pieces
        (same, refl, refl, later qs (ap (λ (j : ℕ). some (qs, j)) all))

pub lay_out-Laid :
    (n : ℕ) (ss : List Spec) (ps : List Piece) (m : ℕ)
    → lay_out n ss ≡ some (ps, m)
    → Laid n ss ps m
unfolding lay_out step
lay_out-Laid n [] ps m e =
    let none_left : [] ≡ ps = cc in
    let end : n ≡ m = cc in subst (λ (rs : List Piece). Laid n [] rs m) none_left end
lay_out-Laid n (s ∷ ss) ps m e =
    step-Laid s n ss (lay_out (n + align_up_size s.bytes 256) ss) s.src (s.bytes == 0) ps m refl
      (λ qs f. lay_out-Laid (n + align_up_size s.bytes 256) ss qs m f) e

aligned : (b : ℕ) → b ≤ align_up_size b 256
unfolding align_up_size
aligned b = omega arith

Laid-order : (n : ℕ) (ss : List Spec) (ps : List Piece) (m : ℕ) → Laid n ss ps m → n ≤ m
Laid-order n [] [] m h = omega (arith, h)
Laid-order n [] (p ∷ ps) m h = absurd h
Laid-order n (s ∷ ss) [] m h = absurd h
Laid-order n (s ∷ ss) (p ∷ ps) m h =
    omega (arith, Laid-order (n + align_up_size s.bytes 256) ss ps m h.3)

module _ (ok : ℕ → Bool) (host : Mem) (arena : ℕ) where
  -- Nothing is written in front of the arena's next place or behind its end.
  pub copy_pieces-outside :
      (i n : ℕ) (ss : List Spec) (ps : List Piece) (m : ℕ) (device : Mem) (x : ℕ)
      → Laid n ss ps m
      → (x < arena + n) ⊎ (arena + m ≤ x)
      → (copy_pieces ok i host arena ps device).1 x ≡ device x
  unfolding copy_pieces
  copy_pieces-outside i n [] [] m device x h out = refl
  copy_pieces-outside i n [] (p ∷ ps) m device x h out = absurd h
  copy_pieces-outside i n (s ∷ ss) [] m device x h out = absurd h
  copy_pieces-outside i n (s ∷ ss) (p ∷ ps) m device x h out =
      let order = Laid-order (n + align_up_size s.bytes 256) ss ps m h.3 in
      let room = aligned s.bytes in
      let next = memcpy device (arena + p.offset) host p.src p.size in
      if_elim (λ (r : Bool × Mem). r.1 x ≡ device x) (ok i)
        (λ _.
          copy_pieces-outside (suc i) (n + align_up_size s.bytes 256) ss ps m next x h.3
            (later room out)
          ∙ memcpy_miss device (arena + p.offset) host p.src p.size x (away room order out))
        (λ _. refl)
    where
      later :
          s.bytes ≤ align_up_size s.bytes 256
          → (x < arena + n) ⊎ (arena + m ≤ x)
          → (x < arena + (n + align_up_size s.bytes 256)) ⊎ (arena + m ≤ x)
      later room (inl l) = inl (omega arith)
      later room (inr l) = inr l

      away :
          s.bytes ≤ align_up_size s.bytes 256
          → n + align_up_size s.bytes 256 ≤ m
          → (x < arena + n) ⊎ (arena + m ≤ x)
          → (x < arena + p.offset) ⊎ (arena + p.offset + p.size ≤ x)
      away room order (inl l) = inl (omega (arith, h.2))
      away room order (inr l) = inr (omega (arith, h.1, h.2))

-- Each weight is at its pointer, in the device's memory, as it was in the host's.
abbrev pub Held : (host device : Mem) → List Spec → List ℕ → Type 0
Held host device [] [] = Unit
Held host device [] (b ∷ bs) = ⊥
Held host device (s ∷ ss) [] = ⊥
Held host device (s ∷ ss) (b ∷ bs) =
    ((a : ℕ) × (s.src ≡ some a) × ((x : ℕ) → x < s.bytes → device (b + x) ≡ host (a + x)))
    × Held host device ss bs

module _ (ok : ℕ → Bool) (host : Mem) (arena : ℕ) where
  pub copy_pieces-Held :
      (i n : ℕ) (ss : List Spec) (ps : List Piece) (m : ℕ) (device : Mem)
      → Laid n ss ps m
      → (copy_pieces ok i host arena ps device).0 ≡ true
      → Held host
          (copy_pieces ok i host arena ps device).1
          ss
          (map {A = Piece} (λ p. arena + p.offset) ps)
  unfolding copy_pieces
  copy_pieces-Held i n [] [] m device h e = tt
  copy_pieces-Held i n [] (p ∷ ps) m device h e = absurd h
  copy_pieces-Held i n (s ∷ ss) [] m device h e = absurd h
  copy_pieces-Held i n (s ∷ ss) (p ∷ ps) m device h e =
      let next = memcpy device (arena + p.offset) host p.src p.size in
      let n' = n + align_up_size s.bytes 256 in
      let room = aligned s.bytes in
      let rest = copy_pieces ok (suc i) host arena ps next in
      elim (Bool-cases (ok i)) [
        | inr fails ↦ absurd (cc (e, fails))
        | inl holds ↦
            let same : (if ok i then rest else (false, device)) ≡ rest =
              then_true (ok i) rest (false, device) holds in
            let done : rest.0 ≡ true = sym (ap (λ (r : Bool × Mem). r.0) same) ∙ e in
            subst
              (λ (r : Bool × Mem).
                Held host r.1 (s ∷ ss) (map {A = Piece} (λ q. arena + q.offset) (p ∷ ps)))
              (sym same)
              (
                (
                  p.src,
                  h.0,
                  λ x l.
                      copy_pieces-outside ok host arena (suc i) n' ss ps m next
                        (arena + p.offset + x) h.3 (inl (omega (arith, h.2)))
                      ∙ memcpy_hit device (arena + p.offset) host p.src p.size x
                          (omega (arith, h.1)),
                ),
                copy_pieces-Held (suc i) n' ss ps m next h.3 done,
              )
      ]
