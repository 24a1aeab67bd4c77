-- ===== src/Engine/Generate/Eos.antt =====
-- A turn ends with its first EOS token.
use reflex_llm.Base.{
  ℕ, suc, zero, ◌+◌, ◌-◌, ◌≡◌, refl, sym, ap, ◌∙◌, subst, Bool, false, not, List, [], ◌∷◌, ◌++◌,
  All, All-append, length, if_elim, leb, ◌==◌,
}
use reflex_llm.Engine.Generate.{
  Cells, Turn, World, decode_step, next_token, track, decode_and_deliver, round, decode_loop,
  after_prefill, decode, decode-elim, deliver_first, done, or_bos, generate,
}
use reflex_llm.Engine.Generate.Tracks.{prompt_of, generate-done}

-- All but the last.
abbrev pub but_last {ℓ} : {A : Type ℓ} → List A → List A
but_last [] = []
but_last (x ∷ []) = []
but_last (x ∷ y ∷ xs) = x ∷ but_last (y ∷ xs)

but_last-append : (xs : List (ℕ × Bool)) (x : ℕ × Bool) → but_last (xs ++ (x ∷ [])) ≡ xs
but_last-append [] x = refl
but_last-append (y ∷ []) x = refl
but_last-append (y ∷ z ∷ xs) x = ap (◌∷◌ y) (but_last-append (z ∷ xs) x)

abbrev NoEos : List (ℕ × Bool) → Type 0
NoEos = All (λ (d : ℕ × Bool). d.1 ≡ false)

but_last-NoEos : (xs : List (ℕ × Bool)) → NoEos xs → NoEos (but_last xs)
but_last-NoEos [] h = tt
but_last-NoEos (x ∷ []) h = tt
but_last-NoEos (x ∷ y ∷ xs) h = (h.0, but_last-NoEos (y ∷ xs) h.1)

-- Each token is delivered with the right flag, and no token but the last is EOS.
pub record EndsAtEos (eos : ℕ) (t : Turn) : Type 0 where
  pub flags : All (λ (d : ℕ × Bool). d.1 ≡ (d.0 == eos)) t.delivered
  pub only_last : All (λ (d : ℕ × Bool). d.1 ≡ false) (but_last t.delivered)

-- Before a round: no token is EOS.
record Open (eos : ℕ) (t : Turn) : Type 0 where
  flags : All (λ (d : ℕ × Bool). d.1 ≡ (d.0 == eos)) t.delivered
  none_yet : NoEos t.delivered

ended : (eos : ℕ) (t : Turn) → Open eos t → EndsAtEos eos t
ended eos t o = record { flags = o.flags; only_last = but_last-NoEos t.delivered o.none_yet }

record SameDelivered (t u : Turn) : Type 0 where
  same : u.delivered ≡ t.delivered

track_delivered : (t : Turn) → (track t).delivered ≡ t.delivered
unfolding track
track_delivered t =
    (if_elim (SameDelivered t) (length t.kv_tokens == t.pos) (λ e. record { same = refl })
      (λ e. record { same = refl })).same

module _ (w : World) (i : ℕ) (t : Turn) (o : Open w.eos_id t) where
  abbrev new : ℕ × Bool
  new = (next_token w i, next_token w i == w.eos_id)

  round_delivered : (round w i t).delivered ≡ t.delivered ++ (new ∷ [])
  unfolding round decode_and_deliver decode_step
  round_delivered = ap (λ (ds : List (ℕ × Bool)). ds ++ (new ∷ [])) (track_delivered t)

  round_flags : All (λ (d : ℕ × Bool). d.1 ≡ (d.0 == w.eos_id)) (round w i t).delivered
  round_flags = subst (All (λ (d : ℕ × Bool). d.1 ≡ (d.0 == w.eos_id))) (sym round_delivered) (
      All-append (λ (d : ℕ × Bool). d.1 ≡ (d.0 == w.eos_id)) t.delivered (new ∷ []) o.flags
        (refl, tt))

  round-EndsAtEos : EndsAtEos w.eos_id (round w i t)
  round-EndsAtEos = record {
    flags = round_flags;
    only_last =
        subst NoEos (sym (ap but_last round_delivered ∙ but_last-append t.delivered new))
          o.none_yet;
  }

  round-Open : (next_token w i == w.eos_id) ≡ false → Open w.eos_id (round w i t)
  round-Open e = record {
    flags = round_flags;
    none_yet =
        subst NoEos (sym round_delivered)
          (All-append (λ (d : ℕ × Bool). d.1 ≡ false) t.delivered (new ∷ []) o.none_yet (e, tt));
  }

decode_loop-EndsAtEos :
    (w : World) (rounds i : ℕ) (t : Turn)
    → Open w.eos_id t
    → EndsAtEos w.eos_id (decode_loop w rounds i t)
unfolding decode_loop
decode_loop-EndsAtEos w zero i t o = ended w.eos_id t o
decode_loop-EndsAtEos w (suc rounds) i t o =
    let P = EndsAtEos w.eos_id in
    if_elim P (w.stopped i) (λ s. ended w.eos_id t o)
      λ s.
        if_elim P (leb w.kv_token_limit t.pos) (λ l. ended w.eos_id t o)
          λ l.
            if_elim P (not (w.can_extend t.pos))
              (λ m. record { flags = o.flags; only_last = but_last-NoEos t.delivered o.none_yet })
              λ m.
                if_elim P (next_token w i == w.eos_id) (λ e. round-EndsAtEos w i t o)
                  λ e. decode_loop-EndsAtEos w rounds (i + 1) (round w i t) (round-Open w i t o e)

decode-EndsAtEos :
    (w : World) (cells : Cells) (start t max_tokens : ℕ) (ts : List ℕ)
    → EndsAtEos w.eos_id (decode w max_tokens start (after_prefill cells start t ts))
unfolding after_prefill deliver_first
decode-EndsAtEos w cells start t max_tokens ts =
    decode-elim (EndsAtEos w.eos_id) w max_tokens start (after_prefill cells start t ts)
      (decode_loop-EndsAtEos w max_tokens 0 _ (record { flags = tt; none_yet = tt }))
      (λ token e. record { flags = (refl, tt); only_last = tt })
      (λ token e k.
        decode_loop-EndsAtEos w (max_tokens - 1) 1
          (deliver_first w token (after_prefill cells start t ts))
          (record { flags = (refl, tt); none_yet = (k, tt) }))

-- A turn that ends has delivered every token with the flag that says whether it is EOS, and none but
-- the last is: nothing is delivered after the end of the text.
pub generate-EndsAtEos :
    (w : World) (max_tokens size : ℕ) (encoded : List ℕ) (hydrate : List ℕ → ℕ × Cells)
    (turn : Turn)
    → generate w max_tokens size encoded hydrate ≡ done turn
    → EndsAtEos w.eos_id turn
generate-EndsAtEos w max_tokens size encoded hydrate turn e =
    subst (EndsAtEos w.eos_id) (generate-done w max_tokens size encoded hydrate turn e).1 (
      decode-EndsAtEos w (hydrate (prompt_of w encoded)).1 (hydrate (prompt_of w encoded)).0
        (or_bos w.bos_id encoded).0 max_tokens (or_bos w.bos_id encoded).1)
