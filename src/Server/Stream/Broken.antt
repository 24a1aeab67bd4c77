-- ===== src/Server/Stream/Broken.antt =====
-- A client that goes away: nothing is written after a failed delta, and the engine is told to stop.
use reflex_llm.Base.{
  ℕ, zero, suc, ◌+◌, ◌≤◌, ◌<◌, ◌≡◌, refl, ap, sym, ◌∙◌, inl, inr, ◌⊎◌, Bool, true, false, not, ◌||◌,
  List, [], ◌∷◌, ◌++◌, length, length-append, get_elem?, Option, some, Bool-cases, if_elim, arith,
  c_str, ltb, ltb→lt, le_of_not-ltb,
}
use reflex_llm.Server.Think.{ThinkSplit, feed, flush, fresh}
use reflex_llm.Server.Stream.{
  Segment, Chunk, role, delta, error, finish, end, text_of, Stream, opened, write, emit_segment,
  emit_all, emitted, emptied, token_cb, token_cbs, try_generate, report, close,
  stream_chat_completion,
}

abbrev pub is_delta : Option Chunk → Bool
is_delta (some (delta x)) = true
is_delta other = false

at_end : (xs : List Chunk) (c : Chunk) → get_elem? (xs ++ c ∷ []) (length xs) ≡ some c
at_end [] c = refl
at_end (x ∷ xs) c = at_end xs c

-- One more chunk that is not a delta leaves a place without a delta so.
quiet_more :
    (xs : List Chunk) (c : Chunk) (k : ℕ)
    → is_delta (some c) ≡ false
    → is_delta (get_elem? xs k) ≡ false
    → is_delta (get_elem? (xs ++ c ∷ []) k) ≡ false
quiet_more [] c zero q h = q
quiet_more [] c (suc k) q h = refl
quiet_more (x ∷ xs) c zero q h = h
quiet_more (x ∷ xs) c (suc k) q h = quiet_more xs c k q h

quiet_beyond : (xs : List Chunk) (k : ℕ) → length xs ≤ k → is_delta (get_elem? xs k) ≡ false
quiet_beyond [] k h = refl
quiet_beyond (x ∷ xs) zero h = absurd (omega arith)
quiet_beyond (x ∷ xs) (suc k) h = quiet_beyond xs k (omega arith)

module _ (accepts : ℕ → Bool) (dumps : List ℕ → Bool) where
  -- Every write so far has succeeded.
  record Live (s : Stream) : Type 0 where
    alive : s.client_alive ≡ true
    going : s.stopped ≡ false
    counted : s.count ≡ length s.tried
    sent : (n : ℕ) → n < s.count → accepts n ≡ true

  -- The last write is the first that failed, and is a delta.
  record Lost (s : Stream) : Type 0 where
    dead : s.client_alive ≡ false
    told : s.stopped ≡ true
    counted : s.count ≡ length s.tried
    last : ℕ
    is_last : s.count ≡ suc last
    a_delta : is_delta (get_elem? s.tried last) ≡ true
    failed : accepts last ≡ false
    sent : (n : ℕ) → n < last → accepts n ≡ true

  abbrev Honest : Stream → Type 0
  Honest s = Live s ⊎ Lost s

  more :
      (c : ℕ)
      → ((n : ℕ) → n < c → accepts n ≡ true)
      → accepts c ≡ true
      → (n : ℕ) → n < suc c
      → accepts n ≡ true
  more c h e n l = elim (Bool-cases (ltb n c)) [
    | inl below ↦ h n (ground arith)
    | inr at ↦ let m : n ≡ c = ground arith in ap accepts m ∙ e
  ]

  emit_segment-Honest :
      (x : Segment) (s : Stream) → Honest s → Honest (emit_segment accepts dumps x s)
  unfolding emit_segment write
  emit_segment-Honest x s (inl h) =
      let one_more = length-append s.tried (delta x ∷ []) in
      if_elim Honest (not s.client_alive || s.errored) (λ _. inl h)
        (λ _.
          if_elim Honest (not (dumps (text_of x)))
            (λ _.
              inl (record { alive = h.alive; going = h.going; counted = h.counted; sent = h.sent }))
            (λ _.
              if_elim Honest (accepts s.count)
                (λ sent. inl (record {
                  alive = h.alive;
                  going = h.going;
                  counted = omega (arith, h.counted, one_more);
                  sent = more s.count h.sent sent;
                }))
                (λ failed. inr (record {
                  dead = refl;
                  told = refl;
                  counted = omega (arith, h.counted, one_more);
                  last = s.count;
                  is_last = refl;
                  a_delta =
                      ap (λ k. is_delta (get_elem? (s.tried ++ delta x ∷ []) k)) h.counted
                      ∙ ap is_delta (at_end s.tried (delta x));
                  failed = failed;
                  sent = h.sent;
                }))))
  emit_segment-Honest x s (inr h) =
      if_elim Honest (not s.client_alive || s.errored) (λ _. inr h)
        (λ alive. let dead = h.dead in absurd (ground (arith, dead)))

  emit_all-Honest :
      (xs : List Segment) (s : Stream) → Honest s → Honest (emit_all accepts dumps xs s)
  unfolding emit_all
  emit_all-Honest [] s h = h
  emit_all-Honest (x ∷ xs) s h =
      emit_all-Honest xs (emit_segment accepts dumps x s) (emit_segment-Honest x s h)

  beyond : (k c : ℕ) → accepts k ≡ false → ((n : ℕ) → n < c → accepts n ≡ true) → c ≤ k
  beyond k c f h = elim (Bool-cases (ltb k c)) [
    | inl below ↦ absurd (cc (h k (ltb→lt k c below), f))
    | inr at ↦ le_of_not-ltb k c at
  ]

  -- How the stream ends where the first write to fail is the k-th: the engine is told to stop exactly
  -- where that write is of a delta, which then is the last; and else at most one more is made.
  pub record Ended (k : ℕ) (s : Stream) : Type 0 where
    pub told_for_delta : s.stopped ≡ is_delta (get_elem? s.tried k)
    pub counted : s.count ≡ length s.tried
    pub last_if_told : s.stopped ≡ true → s.count ≡ suc k
    pub at_most : s.count ≤ k + 2

  module _ (k : ℕ) (f : accepts k ≡ false) (h : (n : ℕ) → n < k → accepts n ≡ true) where
    Lost-Ended : (s : Stream) → Lost s → Ended k s
    Lost-Ended s lost =
        let a = beyond k lost.last f lost.sent in
        let b = beyond lost.last k lost.failed h in
        let same : lost.last ≡ k = omega arith in
        record {
          told_for_delta =
              lost.told ∙ sym lost.a_delta ∙ ap (λ (n : ℕ). is_delta (get_elem? s.tried n)) same;
          counted = lost.counted;
          last_if_told = λ _. lost.is_last ∙ ap suc same;
          at_most = omega (arith, lost.is_last);
        }

    -- Two more writes that are not of deltas.
    Live-Ended :
        (a b : Chunk) (s : Stream)
        → Live s
        → is_delta (some a) ≡ false
        → is_delta (some b) ≡ false
        → Ended k (write accepts dumps b (write accepts dumps a s))
    unfolding write
    Live-Ended a b s live qa qb =
        let c = beyond k s.count f live.sent in
        let start = quiet_beyond s.tried k (omega (arith, live.counted)) in
        let quiet = quiet_more (s.tried ++ a ∷ []) b k qb (quiet_more s.tried a k qa start) in
        record {
          told_for_delta = live.going ∙ sym quiet;
          counted = omega (
            arith,
            live.counted,
            length-append s.tried (a ∷ []),
            length-append (s.tried ++ a ∷ []) (b ∷ []),
          );
          last_if_told = λ e. absurd (cc (e, live.going));
          at_most = omega arith;
        }

    role-Ended : accepts 0 ≡ false → Ended k (write accepts dumps role opened)
    unfolding write
    role-Ended first =
        let z = beyond 0 k first h in
        record {
          told_for_delta = sym (quiet_more [] role k refl refl);
          counted = refl;
          last_if_told = λ e. absurd (cc e);
          at_most = omega arith;
        }

    module _ (decode : ℕ → List ℕ) where
      token_cb-Honest :
          (d : ℕ × Bool) (p : ThinkSplit × Stream)
          → Honest p.1
          → Honest (token_cb accepts dumps decode d p).1
      unfolding token_cb
      token_cb-Honest (id, eos) (t, s) h =
          if_elim (λ (q : ThinkSplit × Stream). Honest q.1) (not s.client_alive || s.errored)
            (λ _. h)
            (λ _.
              if_elim (λ (q : ThinkSplit × Stream). Honest q.1) eos (λ _. h)
                (λ _. emit_all-Honest (emitted (feed (c_str (decode id)) (emptied t))) s h))

      token_cbs-Honest :
          (ds : List (ℕ × Bool)) (p : ThinkSplit × Stream)
          → Honest p.1
          → Honest (token_cbs accepts dumps decode ds p).1
      unfolding token_cbs
      token_cbs-Honest [] p h = h
      token_cbs-Honest (d ∷ ds) p h =
          token_cbs-Honest ds (token_cb accepts dumps decode d p) (token_cb-Honest d p h)

      erred-Honest : (s : Stream) → Honest s → Honest (record s { errored = true })
      erred-Honest s (inl h) =
          inl (record { alive = h.alive; going = h.going; counted = h.counted; sent = h.sent })
      erred-Honest s (inr h) = inr (record {
        dead = h.dead;
        told = h.told;
        counted = h.counted;
        last = h.last;
        is_last = h.is_last;
        a_delta = h.a_delta;
        failed = h.failed;
        sent = h.sent;
      })

      try_generate-Honest :
          (threw : Bool) (delivered : List (ℕ × Bool)) (s : Stream)
          → Honest s
          → Honest (try_generate accepts dumps decode threw delivered s)
      unfolding try_generate
      try_generate-Honest threw delivered s start =
          let p = token_cbs accepts dumps decode delivered (fresh, s) in
          let there = token_cbs-Honest delivered (fresh, s) start in
          if_elim Honest (threw || p.1.errored) (λ _. erred-Honest p.1 there)
            (λ _. emit_all-Honest (emitted (flush (emptied p.0))) p.1 there)

      close_lost :
          (s : Stream)
          → s.client_alive ≡ false
          → close accepts dumps decode (report accepts dumps decode s) ≡ s
      unfolding close report
      close_lost s dead = ground (arith, dead)

      close_erred :
          (s : Stream)
          → s.client_alive ≡ true
          → s.errored ≡ true
          → close accepts dumps decode (report accepts dumps decode s)
            ≡ write accepts dumps end (write accepts dumps error s)
      unfolding close report write
      close_erred s alive erred = rw (erred, alive) refl

      close_fine :
          (s : Stream)
          → s.client_alive ≡ true
          → s.errored ≡ false
          → close accepts dumps decode (report accepts dumps decode s)
            ≡ write accepts dumps end (write accepts dumps finish s)
      unfolding close report write
      close_fine s alive fine = rw (fine, alive) refl

      close-Ended :
          (s : Stream)
          → Honest s
          → Ended k (close accepts dumps decode (report accepts dumps decode s))
      close-Ended s (inr lost) = rw (close_lost s lost.dead) (Lost-Ended s lost)
      close-Ended s (inl live) = elim (Bool-cases s.errored) [
        | inl erred ↦ rw (close_erred s live.alive erred) (Live-Ended error end s live refl refl)
        | inr fine ↦ rw (close_fine s live.alive fine) (Live-Ended finish end s live refl refl)
      ]

      first-Live : accepts 0 ≡ true → Live (write accepts dumps role opened)
      unfolding write
      first-Live first = record {
        alive = refl;
        going = refl;
        counted = refl;
        sent = λ n l. let z : n ≡ 0 = omega arith in ap accepts z ∙ first;
      }

      -- Where the first write to fail is the k-th, the engine is told to stop exactly if that write is
      -- of a delta, and then it is the last; if it is not, at most one more is made. This is so
      -- whether generation returns or throws, and whichever texts can be written as JSON.
      pub stream-Ended :
          (threw : Bool) (delivered : List (ℕ × Bool))
          → Ended k (stream_chat_completion accepts dumps decode threw delivered)
      unfolding stream_chat_completion
      stream-Ended threw delivered =
          let s = write accepts dumps role opened in
          if_elim (Ended k) (accepts 0)
            (λ first.
              close-Ended (try_generate accepts dumps decode threw delivered s)
                (try_generate-Honest threw delivered s (inl (first-Live first))))
            role-Ended
