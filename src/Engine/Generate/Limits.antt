-- ===== src/Engine/Generate/Limits.antt =====
-- How far a turn goes: its counts, its positions and what it delivers.
use reflex_llm.Base.{
  ℕ, suc, zero, append-nil, append_assoc, sym, false, ◌+◌, ◌-◌, ◌≤◌, ◌<◌, ◌≡◌, ◌⊎◌, inl, inr, refl,
  ap, ◌∙◌, subst, Bool, not, List, [], ◌∷◌, ◌++◌, length, length-append, length-drop, max, arith,
  leb, ◌==◌, if_elim,
}
use reflex_llm.Engine.Generate.{
  Cells, Turn, World, push_recent, decode_step, next_token, track, decode_and_deliver, round,
  decode_loop, after_prefill, decode, decode-elim, deliver_first, done, or_bos, generate,
}
use reflex_llm.Engine.Generate.Tracks.{prompt_of, generate-done}

-- The tokens delivered.
abbrev pub texts : List (ℕ × Bool) → List ℕ
texts [] = []
texts (d ∷ ds) = d.0 ∷ texts ds

texts-append : (xs ys : List (ℕ × Bool)) → texts (xs ++ ys) ≡ texts xs ++ texts ys
texts-append [] ys = refl
texts-append (x ∷ xs) ys = ap (λ (ts : List ℕ). x.0 ∷ ts) (texts-append xs ys)

length-texts : (xs : List (ℕ × Bool)) → length (texts xs) ≡ length xs
length-texts [] = refl
length-texts (x ∷ xs) = ap suc (length-texts xs)

-- A turn of a prompt under a limit and `max_tokens`.
pub record Within (limit : ℕ) (prompt : List ℕ) (max_tokens : ℕ) (t : Turn) : Type 0 where
  -- One token is delivered for each completion token counted.
  pub delivered_all : length t.delivered ≡ t.completion_tokens
  -- The tokens of the cache are the prompt's and all delivered but the last.
  pub committed :
      ((t.delivered ≡ []) × (t.kv_tokens ≡ prompt))
      ⊎ ((last : ℕ) × (t.kv_tokens ++ (last ∷ []) ≡ prompt ++ texts t.delivered))
  pub in_context : length t.kv_tokens ≤ limit
  pub completions : t.completion_tokens ≤ max 1 max_tokens
  pub recent_64 : length t.recent_tokens ≤ 64

-- The state of the loop before round `i`: the token to write is the last one delivered, or the prompt's.
record Running (limit : ℕ) (prompt : List ℕ) (max_tokens i : ℕ) (t : Turn) : Type 0 where
  within : Within limit prompt max_tokens t
  count : t.completion_tokens ≡ i
  place : suc t.pos ≡ length prompt + i
  pending :
      ((t.delivered ≡ []) × (t.kv_tokens ≡ prompt))
      ⊎ (t.kv_tokens ++ (t.last_token ∷ []) ≡ prompt ++ texts t.delivered)

length-push_recent :
    (recent : List ℕ) (x : ℕ) → length recent ≤ 64 → length (push_recent recent x) ≤ 64
unfolding push_recent
length-push_recent recent x h =
    ground (arith, length-append recent (x ∷ []), length-drop 1 (recent ++ (x ∷ [])))

-- What `track` leaves.
record SameBut (t u : Turn) : Type 0 where
  same_pos : u.pos ≡ t.pos
  same_last : u.last_token ≡ t.last_token
  same_delivered : u.delivered ≡ t.delivered
  same_recent : u.recent_tokens ≡ t.recent_tokens
  same_count : u.completion_tokens ≡ t.completion_tokens

track-SameBut : (t : Turn) → SameBut t (track t)
unfolding track
track-SameBut t =
    if_elim (SameBut t) (length t.kv_tokens == t.pos)
      (λ e. record {
        same_pos = refl;
        same_last = refl;
        same_delivered = refl;
        same_recent = refl;
        same_count = refl;
      })
      (λ e. record {
        same_pos = refl;
        same_last = refl;
        same_delivered = refl;
        same_recent = refl;
        same_count = refl;
      })

module _ (w : World) (prompt : List ℕ) (max_tokens i : ℕ) (t : Turn)
    (some_prompt : 0 < length prompt) (r : Running w.kv_token_limit prompt max_tokens i t) where
  -- After `track` the tokens of the cache are the prompt's and all delivered.
  track-committed : (track t).kv_tokens ≡ prompt ++ texts t.delivered
  unfolding track
  track-committed =
      if_elim (λ (u : Turn). u.kv_tokens ≡ prompt ++ texts t.delivered)
        (length t.kv_tokens == t.pos) (λ e. pushed (ground (arith, e)) r.pending)
        (λ e. kept (λ z. ground (arith, e, z)) r.pending)
    where
      pushed :
          length t.kv_tokens ≡ t.pos
          → ((t.delivered ≡ []) × (t.kv_tokens ≡ prompt))
            ⊎ (t.kv_tokens ++ (t.last_token ∷ []) ≡ prompt ++ texts t.delivered)
          → t.kv_tokens ++ (t.last_token ∷ []) ≡ prompt ++ texts t.delivered
      pushed e (inr same) = same
      pushed e (inl (none_yet, same)) = absurd (
          omega (
            arith,
            e,
            ap length none_yet,
            ap length same,
            r.within.delivered_all,
            r.count,
            r.place,
          ))

      kept :
          (length t.kv_tokens ≡ t.pos → ⊥)
          → ((t.delivered ≡ []) × (t.kv_tokens ≡ prompt))
            ⊎ (t.kv_tokens ++ (t.last_token ∷ []) ≡ prompt ++ texts t.delivered)
          → t.kv_tokens ≡ prompt ++ texts t.delivered
      kept e (inl (none_yet, same)) =
          same
          ∙ sym (ap (λ (ds : List (ℕ × Bool)). prompt ++ texts ds) none_yet ∙ append-nil prompt)
      kept e (inr same) = absurd (
          e (
            omega (
              arith,
              ap length same,
              length-append t.kv_tokens (t.last_token ∷ []),
              length-append prompt (texts t.delivered),
              length-texts t.delivered,
              r.within.delivered_all,
              r.count,
              r.place,
            )))

  new : ℕ × Bool
  new = (next_token w i, next_token w i == w.eos_id)

  round-committed :
      (track t).kv_tokens ++ (next_token w i ∷ [])
      ≡ prompt ++ texts ((track t).delivered ++ (new ∷ []))
  unfolding new
  round-committed =
      let o = track-SameBut t in
      ap (λ (ts : List ℕ). ts ++ (next_token w i ∷ [])) track-committed
      ∙ append_assoc prompt (texts t.delivered) (next_token w i ∷ [])
      ∙ ap (λ (ts : List ℕ). prompt ++ ts)
          (sym (texts-append t.delivered (new ∷ []))
            ∙ ap (λ (ds : List (ℕ × Bool)). texts (ds ++ (new ∷ []))) (sym o.same_delivered))

  round-Within :
      i < max_tokens
      → t.pos < w.kv_token_limit
      → Within w.kv_token_limit prompt max_tokens (round w i t)
  unfolding round decode_and_deliver decode_step new
  round-Within k m =
      let o = track-SameBut t in
      record {
        delivered_all = omega (
          arith,
          length-append (track t).delivered (new ∷ []),
          ap length o.same_delivered,
          o.same_count,
          r.within.delivered_all,
        );
        committed = inr (next_token w i, round-committed);
        in_context = omega (
          arith,
          ap length track-committed,
          length-append prompt (texts t.delivered),
          length-texts t.delivered,
          r.within.delivered_all,
          r.count,
          r.place,
        );
        completions = omega (arith, o.same_count, r.count);
        recent_64 =
            if_elim (λ (ts : List ℕ). length ts ≤ 64) (w.logits i)
              (λ e.
                length-push_recent (track t).recent_tokens (w.token i)
                  (rw o.same_recent r.within.recent_64))
              (λ e. rw o.same_recent r.within.recent_64);
      }

  -- A token that is not EOS was sampled, and is the one to write next.
  last_is_next : (next_token w i == w.eos_id) ≡ false → next_token w i ≡ (round w i t).last_token
  unfolding round decode_and_deliver decode_step
  last_is_next e = ground (arith, e)

  round-Running :
      i < max_tokens
      → t.pos < w.kv_token_limit
      → (next_token w i == w.eos_id) ≡ false
      → Running w.kv_token_limit prompt max_tokens (i + 1) (round w i t)
  unfolding round decode_and_deliver new
  round-Running k m e =
      let o = track-SameBut t in
      record {
        within = round-Within k m;
        count = omega (arith, o.same_count, r.count);
        place = omega (arith, o.same_pos, r.place);
        pending = inr (
            ap (λ (x : ℕ). (track t).kv_tokens ++ (x ∷ [])) (sym (last_is_next e))
            ∙ round-committed);
      }

decode_loop-Within :
    (w : World) (prompt : List ℕ) (max_tokens rounds i : ℕ) (t : Turn)
    → 0 < length prompt
    → i + rounds ≤ max 1 max_tokens
    → (rounds ≡ 0) ⊎ (i + rounds ≤ max_tokens)
    → Running w.kv_token_limit prompt max_tokens i t
    → Within w.kv_token_limit prompt max_tokens (decode_loop w rounds i t)
unfolding decode_loop
decode_loop-Within w prompt max_tokens zero i t h le fit r = r.within
decode_loop-Within w prompt max_tokens (suc rounds) i t h le fit r =
    let P = Within w.kv_token_limit prompt max_tokens in
    if_elim P (w.stopped i) (λ s. r.within)
      λ s.
        if_elim P (leb w.kv_token_limit t.pos) (λ l. r.within)
          λ l.
            if_elim P (not (w.can_extend t.pos)) (λ o. oom t r.within)
              λ o.
                if_elim P (next_token w i == w.eos_id)
                  (λ e. round-Within w prompt max_tokens i t h r (room fit) (ground arith))
                  λ e.
                    decode_loop-Within w prompt max_tokens rounds (i + 1) (round w i t) h
                      (omega arith)
                      (elim fit [ inl z ↦ absurd (omega arith) | inr ok ↦ inr (omega arith) ])
                      (round-Running w prompt max_tokens i t h r (room fit) (ground arith) e)
  where
    room : (suc rounds ≡ 0) ⊎ (i + suc rounds ≤ max_tokens) → i < max_tokens
    room (inl z) = absurd (omega arith)
    room (inr ok) = omega arith

    oom :
        (t : Turn)
        → Within w.kv_token_limit prompt max_tokens t
        → Within w.kv_token_limit prompt max_tokens (record t { oom_stops = t.oom_stops + 1 })
    oom t b = record {
      delivered_all = b.delivered_all;
      committed = b.committed;
      in_context = b.in_context;
      completions = b.completions;
      recent_64 = b.recent_64;
    }

decode-Within :
    (w : World) (cells : Cells) (start t max_tokens : ℕ) (ts : List ℕ)
    → length (t ∷ ts) < w.kv_token_limit
    → Within w.kv_token_limit
        (t ∷ ts)
        max_tokens
        (decode w max_tokens start (after_prefill cells start t ts))
unfolding after_prefill deliver_first
decode-Within w cells start t max_tokens ts lt =
    decode-elim (Within w.kv_token_limit (t ∷ ts) max_tokens) w max_tokens start
      (after_prefill cells start t ts)
      (decode_loop-Within w (t ∷ ts) max_tokens max_tokens 0 _ (omega arith) (omega arith)
        (inr (omega arith))
        (record { within = begun; count = refl; place = omega arith; pending = inl (refl, refl) }))
      (λ token e. first token)
      (λ token e k.
        decode_loop-Within w (t ∷ ts) max_tokens (max_tokens - 1) 1 _ (omega arith) (omega arith)
          (left max_tokens)
          (record { within = first token; count = refl; place = omega arith; pending = inr refl }))
  where
    left : (n : ℕ) → (n - 1 ≡ 0) ⊎ (1 + (n - 1) ≤ n)
    left n = ground arith

    begun :
        Within w.kv_token_limit
          (t ∷ ts)
          max_tokens
          (record (after_prefill cells start t ts) { pos = length (t ∷ ts) - 1 })
    begun = record {
      delivered_all = refl;
      committed = inl (refl, refl);
      in_context = omega arith;
      completions = omega arith;
      recent_64 = omega arith;
    }

    first :
        (token : ℕ)
        → Within w.kv_token_limit
            (t ∷ ts)
            max_tokens
            (deliver_first w token (after_prefill cells start t ts))
    first token = record {
      delivered_all = refl;
      committed = inr (token, refl);
      in_context = omega arith;
      completions = omega arith;
      recent_64 = length-push_recent [] token (omega arith);
    }

-- A turn that ends has delivered one token for each that it counts, at most max_tokens of them, or
-- one where max_tokens is 0. The tokens kept for the cache are the prompt and the delivered tokens but
-- the last, within the context limit; and the window of recent tokens has at most 64.
pub generate-Within :
    (w : World) (max_tokens size : ℕ) (encoded : List ℕ) (hydrate : List ℕ → ℕ × Cells)
    (turn : Turn)
    → generate w max_tokens size encoded hydrate ≡ done turn
    → Within w.kv_token_limit (prompt_of w encoded) max_tokens turn
generate-Within w max_tokens size encoded hydrate turn e =
    let (lt, same) = generate-done w max_tokens size encoded hydrate turn e in
    subst (Within w.kv_token_limit (prompt_of w encoded) max_tokens) same (
      decode-Within w (hydrate (prompt_of w encoded)).1 (hydrate (prompt_of w encoded)).0
        (or_bos w.bos_id encoded).0 max_tokens (or_bos w.bos_id encoded).1 lt)
