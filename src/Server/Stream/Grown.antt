-- ===== src/Server/Stream/Grown.antt =====
-- What emitting segments adds to a stream whose client stays: a delta for each, up to one that cannot be
-- written as JSON.
use reflex_llm.Base.{
  ℕ, ◌≡◌, refl, ap, sym, ◌∙◌, inl, inr, ◌⊎◌, Bool, true, false, List, [], ◌∷◌, ◌++◌, map,
  map-append, append-nil, append_assoc, arith, Bool-cases,
}
use reflex_llm.Server.Think.{ThinkSplit}
use reflex_llm.Server.Stream.{
  Segment, delta, text_of, Stream, write, emit_segment, emit_all, emitted,
}
use reflex_llm.Server.Stream.Deltas.{
  reasoning_in, answer_in, reasoning_in-append, answer_in-append, reasoning_in-deltas,
  answer_in-deltas, collect,
}

module _ (accepts : ℕ → Bool) (stays : (n : ℕ) → accepts n ≡ true) (dumps : List ℕ → Bool) where
  -- A stream that goes on, to a client that is there.
  pub record Open (s : Stream) : Type 0 where
    pub alive : s.client_alive ≡ true
    pub fine : s.errored ≡ false

  -- From `s` to `r` only these deltas were written.
  pub record Grown (s : Stream) (xs : List Segment) (r : Stream) : Type 0 where
    pub tried : r.tried ≡ s.tried ++ map delta xs
    pub alive : r.client_alive ≡ true
    pub same : r.stopped ≡ s.stopped

  -- A segment that cannot be written threw.
  pub record Thrown (s r : Stream) : Type 0 where
    pub xs : List Segment
    pub grown : Grown s xs r
    pub erred : r.errored ≡ true
    pub culprit : Segment
    pub refused : dumps (text_of culprit) ≡ false

  -- From `s` to `r` all of these were written.
  pub record Written (s : Stream) (xs : List Segment) (r : Stream) : Type 0 where
    pub grown : Grown s xs r
    pub fine : r.errored ≡ false

  pub Grown-nil : (s : Stream) → s.client_alive ≡ true → Grown s [] s
  Grown-nil s alive = record { tried = sym (append-nil s.tried); alive = alive; same = refl }

  pub Grown-append :
      (s r q : Stream) (xs ys : List Segment) → Grown s xs r → Grown r ys q → Grown s (xs ++ ys) q
  Grown-append s r q xs ys a b = record {
    tried =
        b.tried
        ∙ ap (λ z. z ++ map delta ys) a.tried
        ∙ append_assoc s.tried (map delta xs) (map delta ys)
        ∙ ap (λ z. s.tried ++ z) (sym (map-append delta xs ys));
    alive = b.alive;
    same = b.same ∙ a.same;
  }

  pub Thrown-after : (s r q : Stream) (xs : List Segment) → Grown s xs r → Thrown r q → Thrown s q
  Thrown-after s r q xs a t = record {
    xs = xs ++ t.xs;
    grown = Grown-append s r q xs t.xs a t.grown;
    erred = t.erred;
    culprit = t.culprit;
    refused = t.refused;
  }

  pub emit_all_erred :
      (xs : List Segment) (s : Stream) → s.errored ≡ true → emit_all accepts dumps xs s ≡ s
  unfolding emit_all emit_segment
  emit_all_erred [] s e = refl
  emit_all_erred (x ∷ xs) s e =
      let here : emit_segment accepts dumps x s ≡ s = ground (arith, e) in
      ap (emit_all accepts dumps xs) here ∙ emit_all_erred xs s e

  pub emit_segment_sent :
      (x : Segment) (s : Stream)
      → Open s
      → dumps (text_of x) ≡ true
      → emit_segment accepts dumps x s ≡ write accepts dumps (delta x) s
  unfolding emit_segment
  emit_segment_sent x s o d =
      let alive = o.alive in let fine = o.fine in ground (arith, stays s.count, alive, fine, d)

  pub emit_segment_refused :
      (x : Segment) (s : Stream)
      → Open s
      → dumps (text_of x) ≡ false
      → emit_segment accepts dumps x s ≡ record s { errored = true }
  unfolding emit_segment
  emit_segment_refused x s o d =
      let alive = o.alive in let fine = o.fine in ground (arith, alive, fine, d)

  -- Every segment is one more chunk, up to one that cannot be written.
  pub emit_all-cases :
      (xs : List Segment) (s : Stream)
      → Open s
      → Written s xs (emit_all accepts dumps xs s) ⊎ Thrown s (emit_all accepts dumps xs s)
  unfolding emit_all write
  emit_all-cases [] s o = inl (record { grown = Grown-nil s o.alive; fine = o.fine })
  emit_all-cases (x ∷ xs) s o = elim (Bool-cases (dumps (text_of x))) [
    | inl sent ↦ rw (emit_segment_sent x s o sent) (
        next (
          emit_all-cases xs (write accepts dumps (delta x) s)
            (record { alive = o.alive; fine = o.fine })))
    | inr refused ↦ inr (
        rw
          (emit_segment_refused x s o refused, emit_all_erred xs (record s { errored = true }) refl)
          (record {
            xs = [];
            grown = record { tried = sym (append-nil s.tried); alive = o.alive; same = refl };
            erred = refl;
            culprit = x;
            refused = refused;
          }))
  ]
    where
      one : Grown s (x ∷ []) (write accepts dumps (delta x) s)
      one = record { tried = refl; alive = o.alive; same = refl }

      next :
          {r : Stream}
          → Written (write accepts dumps (delta x) s) xs r
            ⊎ Thrown (write accepts dumps (delta x) s) r
          → Written s (x ∷ xs) r ⊎ Thrown s r
      next {r} (inl w) = inl (record {
        grown = Grown-append s (write accepts dumps (delta x) s) r (x ∷ []) xs one w.grown;
        fine = w.fine;
      })
      next {r} (inr t) = inr (Thrown-after s (write accepts dumps (delta x) s) r (x ∷ []) one t)

  -- Emitting what a splitter collected adds it to what the stream has carried.
  pub collect-emitted :
      (u t : ThinkSplit) (s r : Stream)
      → Grown s (emitted u) r
      → collect t r ≡ record t {
        reasoning = reasoning_in s.tried ++ u.reasoning;
        answer = answer_in s.tried ++ u.answer;
      }
  unfolding collect
  collect-emitted u t s r g =
      let reasoned =
        ap reasoning_in g.tried
        ∙ reasoning_in-append s.tried (map delta (emitted u))
        ∙ ap (λ z. reasoning_in s.tried ++ z) (reasoning_in-deltas u) in
      let answered =
        ap answer_in g.tried
        ∙ answer_in-append s.tried (map delta (emitted u))
        ∙ ap (λ z. answer_in s.tried ++ z) (answer_in-deltas u) in
      λ i. record t { reasoning = reasoned i; answer = answered i }
