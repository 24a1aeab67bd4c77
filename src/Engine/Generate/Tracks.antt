-- ===== src/Engine/Generate/Tracks.antt =====
-- The tokens kept for the save are those that the cache holds.
use reflex_llm.Base.{
  ℕ, suc, zero, ◌+◌, ◌-◌, ◌*◌, ◌≤◌, ◌<◌, ◌≡◌, ◌≢◌, ◌⊎◌, inl, inr, refl, sym, ap, ◌∙◌, Bool, true,
  false, not, some, List, [], ◌∷◌, ◌++◌, length, length-append, length-drop, drop, get_elem?, max,
  arith, ltb, leb, ◌==◌, if_elim, subst, then_true, else_false, if◌then◌else◌, ℕ_discrete, dec_lt,
}
use reflex_llm.Engine.Generate.{
  Cells, write_kv, Turn, World, decode_step, next_token, track, decode_and_deliver, round,
  decode_loop, prefill, last_of, after_prefill, decode, decode-elim, deliver_first, GenerateError,
  Generated, throws, prompt_too_large, prompt_too_long, done, or_bos, generate,
}

-- Every position that `kv_tokens` has is in the cache with its token; the next position to write is
-- the one after them, or the last of them with the token that it has already.
pub record Tracked (t : Turn) : Type 0 where
  pub held : (a : ℕ) → a < length t.kv_tokens → t.cells a ≡ get_elem? t.kv_tokens a
  pub next :
      (length t.kv_tokens ≡ t.pos)
      ⊎ ((length t.kv_tokens ≡ suc t.pos) × (get_elem? t.kv_tokens t.pos ≡ some t.last_token))

get_elem?-append :
    (xs : List ℕ) (x a : ℕ) → a < length xs → get_elem? (xs ++ (x ∷ [])) a ≡ get_elem? xs a
get_elem?-append [] x a h = absurd (omega arith)
get_elem?-append (y ∷ ys) x zero h = refl
get_elem?-append (y ∷ ys) x (suc a) h = get_elem?-append ys x a (omega arith)

get_elem?-last : (xs : List ℕ) (x : ℕ) → get_elem? (xs ++ (x ∷ [])) (length xs) ≡ some x
get_elem?-last [] x = refl
get_elem?-last (y ∷ ys) x = get_elem?-last ys x

-- The position to write is the last of `kv_tokens`, with the token to write.
record Ready (t : Turn) : Type 0 where
  held : (a : ℕ) → a < length t.kv_tokens → (a ≡ t.pos) ⊎ (t.cells a ≡ get_elem? t.kv_tokens a)
  count : length t.kv_tokens ≡ suc t.pos
  token : get_elem? t.kv_tokens t.pos ≡ some t.last_token

track-Ready : (t : Turn) → Tracked t → Ready (track t)
unfolding track
track-Ready t h =
    if_elim Ready (length t.kv_tokens == t.pos)
      (λ e. record {
        held = λ a k. elim (ℕ_discrete a t.pos) [
          | yes same ↦ inl same
          | no other ↦
              let lt : a < length t.kv_tokens =
                omega (arith, length-append t.kv_tokens (t.last_token ∷ []), eq_of t e) in
              inr (h.held a lt ∙ sym (get_elem?-append t.kv_tokens t.last_token a lt))
        ];
        count = omega (arith, length-append t.kv_tokens (t.last_token ∷ []), eq_of t e);
        token =
            ap (λ (n : ℕ). get_elem? (t.kv_tokens ++ (t.last_token ∷ [])) n) (sym (eq_of t e))
            ∙ get_elem?-last t.kv_tokens t.last_token;
      })
      (λ e. elim h.next [
        | inl same ↦ absurd (ground arith)
        | inr (count, token) ↦ record {
          held = λ a k. inr (h.held a k);
          count = count;
          token = token;
        }
      ])
  where
    eq_of : (t : Turn) → (length t.kv_tokens == t.pos) ≡ true → length t.kv_tokens ≡ t.pos
    eq_of t e = ground arith

deliver-Tracked : (w : World) (i : ℕ) (t : Turn) → Ready t → Tracked (decode_and_deliver w i t)
unfolding decode_and_deliver decode_step write_kv
deliver-Tracked w i t r = record {
  held = λ a k. elim (ℕ_discrete a t.pos) [
    | yes same ↦ rw same (then_true (t.pos == t.pos) _ _ (ground arith) ∙ sym r.token)
    | no other ↦
        else_false (a == t.pos) _ _ (ground arith)
        ∙ elim (r.held a k) [ inl same ↦ absurd (other same) | inr e ↦ e ]
  ];
  next = inl (omega (arith, r.count));
}

round-Tracked : (w : World) (i : ℕ) (t : Turn) → Tracked t → Tracked (round w i t)
unfolding round
round-Tracked w i t h = deliver-Tracked w i (track t) (track-Ready t h)

decode_loop-Tracked :
    (w : World) (rounds i : ℕ) (t : Turn) → Tracked t → Tracked (decode_loop w rounds i t)
unfolding decode_loop
decode_loop-Tracked w zero i t h = h
decode_loop-Tracked w (suc rounds) i t h =
    let next = round-Tracked w i t h in
    if_elim Tracked (w.stopped i) (λ s. h)
      λ s.
        if_elim Tracked (leb w.kv_token_limit t.pos) (λ l. h)
          λ l.
            if_elim Tracked (not (w.can_extend t.pos))
              (λ o. record { held = h.held; next = h.next })
              λ o.
                if_elim Tracked (next_token w i == w.eos_id) (λ e. next)
                  λ e. decode_loop-Tracked w rounds (i + 1) (round w i t) next

write_hit : (cells : Cells) (at t a : ℕ) → a ≡ at → write_kv cells at t a ≡ some t
unfolding write_kv
write_hit cells at t a e = then_true (a == at) _ _ (ground arith)

write_miss : (cells : Cells) (at t a : ℕ) → a ≢ at → write_kv cells at t a ≡ cells a
unfolding write_kv
write_miss cells at t a e = else_false (a == at) _ _ (ground arith)

apart : (a b : ℕ) → b ≤ a → a ≢ b → b < a
apart a b h e = ground arith

-- The prefill leaves what is below it, and writes its tokens in order.
prefill_lem :
    (cells : Cells) (at : ℕ) (ts : List ℕ) (a : ℕ)
    → ((a < at) → prefill cells at ts a ≡ cells a)
      × ((at ≤ a) → a < at + length ts → prefill cells at ts a ≡ get_elem? ts (a - at))
unfolding prefill
prefill_lem cells at [] a = (λ h. refl, λ h k. absurd (omega arith))
prefill_lem cells at (t ∷ ts) a = (
  λ h.
      (prefill_lem (write_kv cells at t) (at + 1) ts a).0 (omega arith)
      ∙ write_miss cells at t a (λ e. absurd (omega arith)),
  λ h k. elim (ℕ_discrete a at) [
    | yes same ↦
        let first : 0 ≡ a - at = omega (arith, same) in
        (prefill_lem (write_kv cells at t) (at + 1) ts a).0 (omega (arith, same))
        ∙ (write_hit cells at t a same ∙ ap (get_elem? (t ∷ ts)) first)
    | no other ↦
        let next : suc (a - (at + 1)) ≡ a - at = omega (arith, apart a at h other) in
        (prefill_lem (write_kv cells at t) (at + 1) ts a).1 (omega (arith, apart a at h other))
          (omega arith)
        ∙ ap (get_elem? (t ∷ ts)) next
  ],
)

get_elem?-drop : (xs : List ℕ) (n a : ℕ) → n ≤ a → get_elem? (drop n xs) (a - n) ≡ get_elem? xs a
get_elem?-drop xs zero a h = ap (get_elem? xs) (omega arith)
get_elem?-drop [] (suc n) a h = refl
get_elem?-drop (x ∷ xs) (suc n) zero h = absurd (omega arith)
get_elem?-drop (x ∷ xs) (suc n) (suc a) h =
    ap (get_elem? (drop n xs)) (omega arith) ∙ get_elem?-drop xs n a (omega arith)

get_elem?-last_of : (ts : List ℕ) (t : ℕ) → get_elem? (t ∷ ts) (length ts) ≡ some (last_of t ts)
get_elem?-last_of [] t = refl
get_elem?-last_of (u ∷ us) t = get_elem?-last_of us u

after_prefill-held :
    (cells : Cells) (n t : ℕ) (ts : List ℕ)
    → n ≤ length (t ∷ ts)
    → ((a : ℕ) → a < n → cells a ≡ get_elem? (t ∷ ts) a)
    → (a : ℕ) → a < length (t ∷ ts)
    → (after_prefill cells n t ts).cells a ≡ get_elem? (t ∷ ts) a
unfolding after_prefill
after_prefill-held cells n t ts le before a h = elim (dec_lt a n) [
  | yes lt ↦ (prefill_lem cells n (drop n (t ∷ ts)) a).0 lt ∙ before a lt
  | no ge ↦
      (prefill_lem cells n (drop n (t ∷ ts)) a).1 (omega arith)
        (omega (arith, length-drop n (t ∷ ts)))
      ∙ get_elem?-drop (t ∷ ts) n a (omega arith)
]

module _ (w : World) (cells : Cells) (n t : ℕ) (ts : List ℕ) (le : n ≤ length (t ∷ ts))
    (before : (a : ℕ) → a < n → cells a ≡ get_elem? (t ∷ ts) a) where
  abbrev start : Turn
  start = after_prefill cells n t ts

  again-Tracked : Tracked (record start { pos = start.pos - 1 })
  unfolding after_prefill
  again-Tracked =
      let last : suc (length ts) - 1 ≡ length ts = omega arith in
      record {
        held = after_prefill-held cells n t ts le before;
        next = inr (omega arith, ap (get_elem? (t ∷ ts)) last ∙ get_elem?-last_of ts t);
      }

  first-Tracked : (token : ℕ) → Tracked (deliver_first w token start)
  unfolding deliver_first after_prefill
  first-Tracked token = record { held = after_prefill-held cells n t ts le before; next = inl refl }

  decode-Tracked : (max_tokens : ℕ) → Tracked (decode w max_tokens n start)
  decode-Tracked max_tokens =
      decode-elim Tracked w max_tokens n start (decode_loop-Tracked w max_tokens 0 _ again-Tracked)
        (λ token e. first-Tracked token)
        (λ token e k. decode_loop-Tracked w (max_tokens - 1) 1 _ (first-Tracked token))

-- What a generation that does not throw has done.
done_of :
    (a b : Bool) (x y : GenerateError) (t turn : Turn)
    → (if a then throws x else (if b then throws y else done t)) ≡ done turn
    → (a ≡ false) × (b ≡ false) × (t ≡ turn)
done_of true b x y t turn e = absurd (cc)
done_of false true x y t turn e = absurd (cc)
done_of false false x y t turn e = (refl, refl, ap (λ (g : Generated). turn_of t g) e)
  where
    turn_of : Turn → Generated → Turn
    turn_of u (throws x) = u
    turn_of u (done v) = v

-- The tokens of a prompt, the BOS token for none.
abbrev pub prompt_of : World → List ℕ → List ℕ
prompt_of w encoded = (or_bos w.bos_id encoded).0 ∷ (or_bos w.bos_id encoded).1

pub generate-done :
    (w : World) (max_tokens size : ℕ) (encoded : List ℕ) (hydrate : List ℕ → ℕ × Cells)
    (turn : Turn)
    → generate w max_tokens size encoded hydrate ≡ done turn
    → (length (prompt_of w encoded) < w.kv_token_limit)
      × (decode w max_tokens (hydrate (prompt_of w encoded)).0 (
            after_prefill
              (hydrate (prompt_of w encoded)).1
              (hydrate (prompt_of w encoded)).0
              (or_bos w.bos_id encoded).0
              (or_bos w.bos_id encoded).1)
          ≡ turn)
unfolding generate
generate-done w max_tokens size encoded hydrate turn e =
    let (a, b, same) =
      done_of (ltb (max 4096 (w.kv_token_limit * 8)) size)
        (leb w.kv_token_limit (length (prompt_of w encoded))) prompt_too_large prompt_too_long _
        turn e in
    (ground (arith, b), same)

-- When hydration has put the prompt's own tokens below the start of the prefill, a turn that ends has
-- in `kv_tokens`, the tokens that are saved, at each place the token whose key and value the cache
-- holds at that position. This is so whatever stops the turn, and for the fallback too.
pub generate-kv_tokens :
    (w : World) (max_tokens size : ℕ) (encoded : List ℕ) (hydrate : List ℕ → ℕ × Cells)
    (turn : Turn)
    → generate w max_tokens size encoded hydrate ≡ done turn
    → (hydrate (prompt_of w encoded)).0 ≤ length (prompt_of w encoded)
    → ((a : ℕ)
        → a < (hydrate (prompt_of w encoded)).0
        → (hydrate (prompt_of w encoded)).1 a ≡ get_elem? (prompt_of w encoded) a)
    → (a : ℕ) → a < length turn.kv_tokens
    → turn.cells a ≡ get_elem? turn.kv_tokens a
generate-kv_tokens w max_tokens size encoded hydrate turn e le before =
    let h = hydrate (prompt_of w encoded) in
    (subst Tracked (generate-done w max_tokens size encoded hydrate turn e).1 (
      decode-Tracked w h.1 h.0 (or_bos w.bos_id encoded).0 (or_bos w.bos_id encoded).1 le before
        max_tokens)).held
