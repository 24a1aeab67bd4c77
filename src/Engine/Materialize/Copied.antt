-- ===== src/Engine/Materialize/Copied.antt =====
-- What a copy of a layer's weights leaves on the device.
use reflex_llm.Base.{
  ℕ, suc, ◌+◌, ◌≤◌, ◌<◌, ◌≡◌, refl, ap, sym, subst, ◌⊎◌, inl, inr, Bool, true, false, Option, none,
  some, List, [], ◌∷◌, ◌++◌, map, length, Bool-cases, if◌then◌else◌, then_true, else_false, arith,
}
use reflex_llm.KvCache.{Mem}
use reflex_llm.Gguf.Weights.{LayerWeights}
use reflex_llm.Engine.Materialize.{
  Dims, Spec, specs, Piece, lay_out, copy_pieces, set_pointers, Device, Answers,
  copy_layer_quant_weights_to_device,
}
use reflex_llm.Engine.Materialize.Arena.{
  Laid, lay_out-Laid, copy_pieces-outside, Held, copy_pieces-Held,
}

-- The seven pointers.
abbrev pub pointers : LayerWeights → List (Option ℕ)
pointers lw = lw.wq ∷ lw.wk ∷ lw.wv ∷ lw.wo ∷ lw.w_gate ∷ lw.w_up ∷ lw.w_down ∷ []

pointers-set_pointers :
    (bs : List ℕ) (lw : LayerWeights) → length bs ≡ 7 → pointers (set_pointers bs lw) ≡ map some bs
unfolding set_pointers
pointers-set_pointers (a ∷ b ∷ c ∷ d ∷ e ∷ f ∷ g ∷ []) lw l = refl
pointers-set_pointers [] lw l = absurd (omega arith)
pointers-set_pointers (a ∷ []) lw l = absurd (omega arith)
pointers-set_pointers (a ∷ b ∷ []) lw l = absurd (omega arith)
pointers-set_pointers (a ∷ b ∷ c ∷ []) lw l = absurd (omega arith)
pointers-set_pointers (a ∷ b ∷ c ∷ d ∷ []) lw l = absurd (omega arith)
pointers-set_pointers (a ∷ b ∷ c ∷ d ∷ e ∷ []) lw l = absurd (omega arith)
pointers-set_pointers (a ∷ b ∷ c ∷ d ∷ e ∷ f ∷ []) lw l = absurd (omega arith)
pointers-set_pointers (a ∷ b ∷ c ∷ d ∷ e ∷ f ∷ g ∷ h ∷ r) lw l = absurd (omega arith)

Held-length :
    (host device : Mem) (ss : List Spec) (bs : List ℕ)
    → Held host device ss bs
    → length bs ≡ length ss
Held-length host device [] [] h = refl
Held-length host device [] (b ∷ bs) h = absurd h
Held-length host device (s ∷ ss) [] h = absurd h
Held-length host device (s ∷ ss) (b ∷ bs) h = ap suc (Held-length host device ss bs h.1)

-- A copy that was done.
pub record CopyDone (answers : Answers) (host : Mem) (d : Dims) (lw lw' : LayerWeights)
    (dev dev' : Device) : Type 0 where
  pub arena : ℕ
  pub arena_bytes : ℕ
  pub places : List ℕ
  pub allocated : answers.malloc arena_bytes ≡ some arena
  pub now_at : pointers lw' ≡ map some places
  pub held : Held host dev'.memory (specs lw d) places
  pub outside : (x : ℕ) → (x < arena) ⊎ (arena + arena_bytes ≤ x) → dev'.memory x ≡ dev.memory x
  pub owns : dev'.owned ≡ dev.owned ++ (arena ∷ [])
  pub lives : dev'.live ≡ arena ∷ dev.live

abbrev pub Outcome :
    Answers → (host : Mem) → Dims → LayerWeights → Device → Bool × (LayerWeights × Device) → Type 0
Outcome answers host d lw dev (true, (lw', dev')) = CopyDone answers host d lw lw' dev dev'
Outcome answers host d lw dev (false, (lw', dev')) =
    (lw' ≡ lw) × (dev'.owned ≡ dev.owned) × (dev'.live ≡ dev.live)

module _ (answers : Answers) (host : Mem) (d : Dims) (lw : LayerWeights) (dev : Device) where
  -- What follows the copies, the allocation and the layout.
  copied : (arena : ℕ) (ps : List Piece) → Bool × Mem → Bool × (LayerWeights × Device)
  copied arena ps done =
      if done.0
      then (
        true,
        (
          set_pointers (map {A = Piece} (λ p. arena + p.offset) ps) lw,
          (record { memory = done.1; owned = dev.owned ++ (arena ∷ []); live = arena ∷ dev.live }),
        ),
      )
      else (false, (lw, record dev { memory = done.1 }))

  allocated : (ps : List Piece) → Option ℕ → Bool × (LayerWeights × Device)
  allocated ps none = (false, (lw, dev))
  allocated ps (some arena) =
      copied arena ps (copy_pieces answers.copied 0 host arena ps dev.memory)

  laid_out : Option (List Piece × ℕ) → Bool × (LayerWeights × Device)
  laid_out none = (false, (lw, dev))
  laid_out (some (ps, arena_bytes)) = allocated ps (answers.malloc arena_bytes)

  copied-Outcome :
      (arena arena_bytes : ℕ) (ps : List Piece)
      → Laid 0 (specs lw d) ps arena_bytes
      → answers.malloc arena_bytes ≡ some arena
      → Outcome answers host d lw dev
          (copied arena ps (copy_pieces answers.copied 0 host arena ps dev.memory))
  unfolding copied specs
  copied-Outcome arena arena_bytes ps l m =
      let done = copy_pieces answers.copied 0 host arena ps dev.memory in
      let places = map {A = Piece} (λ p. arena + p.offset) ps in
      elim (Bool-cases done.0) [
        | inr fails ↦
            subst (Outcome answers host d lw dev) (sym (else_false done.0 _ _ fails))
              (refl, refl, refl)
        | inl holds ↦
            let held : Held host done.1 (specs lw d) places =
              copy_pieces-Held answers.copied host arena 0 0 (specs lw d) ps arena_bytes dev.memory
                l holds in
            subst (Outcome answers host d lw dev) (sym (then_true done.0 _ _ holds)) (record {
              arena = arena;
              arena_bytes = arena_bytes;
              places = places;
              allocated = m;
              now_at =
                  pointers-set_pointers places lw
                    (Held-length host done.1 (specs lw d) places held);
              held = held;
              outside = λ x out.
                  copy_pieces-outside answers.copied host arena 0 0 (specs lw d) ps arena_bytes
                    dev.memory x l (from_start x out);
              owns = refl;
              lives = refl;
            })
      ]
    where
      from_start :
          (x : ℕ)
          → (x < arena) ⊎ (arena + arena_bytes ≤ x)
          → (x < arena + 0) ⊎ (arena + arena_bytes ≤ x)
      from_start x (inl a) = inl (omega arith)
      from_start x (inr a) = inr a

  allocated-Outcome :
      (ps : List Piece) (arena_bytes : ℕ) (o : Option ℕ)
      → Laid 0 (specs lw d) ps arena_bytes
      → answers.malloc arena_bytes ≡ o
      → Outcome answers host d lw dev (allocated ps o)
  unfolding allocated
  allocated-Outcome ps arena_bytes none l m = (refl, refl, refl)
  allocated-Outcome ps arena_bytes (some arena) l m = copied-Outcome arena arena_bytes ps l m

  laid_out-Outcome :
      (o : Option (List Piece × ℕ))
      → lay_out 0 (specs lw d) ≡ o
      → Outcome answers host d lw dev (laid_out o)
  unfolding laid_out
  laid_out-Outcome none e = (refl, refl, refl)
  laid_out-Outcome (some (ps, arena_bytes)) e =
      allocated-Outcome ps arena_bytes (answers.malloc arena_bytes)
        (lay_out-Laid 0 (specs lw d) ps arena_bytes e) refl

  -- The copy of one layer is done, or it answers false, and then the weights are as they were and what is
  -- owned and allocated too. Done, the seven pointers are to device memory, in one new allocation that is
  -- owned, and each weight is there as it was in the host's; outside that allocation nothing is written.
  pub copy_layer-Outcome :
      Outcome answers host d lw dev (copy_layer_quant_weights_to_device answers host d lw dev)
  unfolding copy_layer_quant_weights_to_device copied allocated laid_out
  copy_layer-Outcome = laid_out-Outcome (lay_out 0 (specs lw d)) refl
