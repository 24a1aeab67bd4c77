-- ===== src/Engine/Generate.antt =====
-- `Engine::generate`, from the prompt to the last token. The transformer pass is CUDA code: of it the
-- model keeps which token's key and value each position of the cache holds. What is sampled, when
-- `stop` is called and what `check_memory_and_thermal` answers are arguments.
pub mod Tracks
pub mod Limits
pub mod Eos
use reflex_llm.Base.{
  ℕ, suc, zero, ◌+◌, ◌-◌, ◌*◌, ◌≡◌, Bool, true, false, not, ◌&&◌, ◌||◌, Option, none, some, List,
  [], ◌∷◌, ◌++◌, length, drop, max, ltb, leb, ◌==◌, if_elim, option_elim, if◌then◌else◌,
}

-- Positions of the cache, with the token whose key and value they hold.
abbrev pub Cells : Type 0
Cells = ℕ → Option ℕ

unfoldable pub write_kv : Cells → (at token : ℕ) → Cells
write_kv cells at token a = if a == at then some token else cells a

-- The engine, the statistics and what the callback was given.
pub record Turn : Type 0 where
  pub pos : ℕ
  pub last_token : ℕ
  pub recent_tokens : List ℕ
  pub kv_tokens : List ℕ
  pub cells : Cells
  pub delivered : List (ℕ × Bool)
  pub completion_tokens : ℕ
  pub oom_stops : ℕ

-- What the rest of the program answers. `first` is the token that is sampled from the prefill, or
-- none where that fails; `token i` is what `decode_step` samples in round `i`, where its logits arrive.
pub record World : Type 0 where
  pub kv_token_limit : ℕ
  pub bos_id : ℕ
  pub eos_id : ℕ
  pub first : Option ℕ
  pub logits : ℕ → Bool
  pub token : ℕ → ℕ
  pub stopped : ℕ → Bool
  pub can_extend : ℕ → Bool

-- `push_back`, and the oldest goes when there are more than 64.
unfoldable pub push_recent : List ℕ → ℕ → List ℕ
push_recent recent token =
    let pushed = recent ++ (token ∷ []) in if ltb 64 (length pushed) then drop 1 pushed else pushed

-- `decode_step(pos)`: the key and value of `last_token` go to `pos`, and a token is sampled. Where the
-- logits do not arrive, none is, and the answer is EOS.
unfoldable pub decode_step : (logits : Bool) (token : ℕ) → Turn → Turn
decode_step logits token t = record t {
  cells = write_kv t.cells t.pos t.last_token;
  last_token = if logits then token else t.last_token;
  recent_tokens = if logits then push_recent t.recent_tokens token else t.recent_tokens;
}

abbrev pub next_token : World → ℕ → ℕ
next_token w i = if w.logits i then w.token i else w.eos_id

-- What is about to be written extends `kv_tokens`, if it is past them.
unfoldable pub track : Turn → Turn
track t =
    if length t.kv_tokens == t.pos
    then record t { kv_tokens = t.kv_tokens ++ (t.last_token ∷ []) }
    else t

unfoldable pub decode_and_deliver : World → (i : ℕ) → Turn → Turn
unfolding decode_step
decode_and_deliver w i t = record (decode_step (w.logits i) (w.token i) t) {
  pos = t.pos + 1;
  delivered = t.delivered ++ ((next_token w i, next_token w i == w.eos_id) ∷ []);
  completion_tokens = t.completion_tokens + 1;
}

-- The body of a round, after its guards.
unfoldable pub round : World → (i : ℕ) → Turn → Turn
unfolding track decode_and_deliver
round w i t = decode_and_deliver w i (track t)

-- The decode loop, with the rounds that `max_tokens` leaves.
unfoldable pub decode_loop : World → (rounds i : ℕ) → Turn → Turn
unfolding round
decode_loop w zero i t = t
decode_loop w (suc rounds) i t =
    let next = round w i t in
    let rest = decode_loop w rounds (i + 1) next in
    if w.stopped i
    then t
    else (if leb w.kv_token_limit t.pos
        then t
        else (if not (w.can_extend t.pos)
            then record t { oom_stops = t.oom_stops + 1 }
            else (if next_token w i == w.eos_id then next else rest)))

-- The prefill writes the tokens from `at` on, in both of its orders of layers and tokens.
unfoldable pub prefill : Cells → (at : ℕ) → List ℕ → Cells
unfolding write_kv
prefill cells at [] = cells
prefill cells at (t ∷ ts) = prefill (write_kv cells at t) (at + 1) ts

abbrev pub last_of : ℕ → List ℕ → ℕ
last_of t [] = t
last_of t (u ∷ us) = last_of u us

-- After the prefill of a prompt `t ∷ ts`, whose first `prefill_start` tokens were in the cache.
unfoldable pub after_prefill : Cells → (prefill_start t : ℕ) → List ℕ → Turn
unfolding prefill
after_prefill cells prefill_start t ts = record {
  pos = length (t ∷ ts);
  last_token = last_of t ts;
  recent_tokens = [];
  kv_tokens = t ∷ ts;
  cells = prefill cells prefill_start (drop prefill_start (t ∷ ts));
  delivered = [];
  completion_tokens = 0;
  oom_stops = 0;
}

-- Path A: a token sampled from the prefill is delivered; the next position is one past the prompt.
unfoldable pub deliver_first : World → (token : ℕ) → Turn → Turn
unfolding push_recent
deliver_first w token t = record t {
  delivered = (token, token == w.eos_id) ∷ [];
  last_token = token;
  recent_tokens = push_recent t.recent_tokens token;
  completion_tokens = 1;
}

-- The first token is sampled from the prefill if there was one and it works; else the loop starts at
-- the last position of the prompt again.
unfoldable pub decode : World → (max_tokens prefill_start : ℕ) → Turn → Turn
unfolding decode_loop deliver_first
decode w max_tokens prefill_start t =
    let fallback = decode_loop w max_tokens 0 (record t { pos = t.pos - 1 }) in
    if ltb prefill_start (length t.kv_tokens)
    then elim w.first [
      | none ↦ fallback
      | some token ↦
          let rest = decode_loop w (max_tokens - 1) 1 (deliver_first w token t) in
          if token == w.eos_id then deliver_first w token t else rest
    ]
    else fallback

-- A split on the ways of `decode`.
pub decode-elim {κ} :
    (P : Turn → Type κ) (w : World) (max_tokens prefill_start : ℕ) (t : Turn)
    → P (decode_loop w max_tokens 0 (record t { pos = t.pos - 1 }))
    → ((token : ℕ) → w.first ≡ some token → P (deliver_first w token t))
    → ((token : ℕ)
        → w.first ≡ some token
        → (token == w.eos_id) ≡ false
        → P (decode_loop w (max_tokens - 1) 1 (deliver_first w token t)))
    → P (decode w max_tokens prefill_start t)
unfolding decode
decode-elim P w max_tokens prefill_start t fallback first rest =
    if_elim P (ltb prefill_start (length t.kv_tokens))
      (λ h.
        option_elim P w.first (λ e. fallback)
          λ token e. if_elim P (token == w.eos_id) (λ k. first token e) (λ k. rest token e k))
      (λ h. fallback)

-- The `std::length_error`s.
pub data GenerateError : Type 0 where
  prompt_too_large : GenerateError
  prompt_too_long : GenerateError

pub data Generated : Type 0 where
  throws : GenerateError → Generated
  done : Turn → Generated

abbrev pub or_bos : ℕ → List ℕ → ℕ × List ℕ
or_bos bos [] = (bos, [])
or_bos bos (t ∷ ts) = (t, ts)

-- `hydrate` is `try_hydrate_kv`: the start of the prefill and the cells. `encoded` is the prompt's
-- tokens.
unfoldable pub generate :
    World → (max_tokens prompt_size : ℕ) → (encoded : List ℕ) → (List ℕ → ℕ × Cells) → Generated
unfolding decode after_prefill
generate w max_tokens prompt_size encoded hydrate =
    let prompt = or_bos w.bos_id encoded in
    let tokens = prompt.0 ∷ prompt.1 in
    let hydrated = hydrate tokens in
    let turn =
      decode w max_tokens hydrated.0 (after_prefill hydrated.1 hydrated.0 prompt.0 prompt.1) in
    if ltb (max 4096 (w.kv_token_limit * 8)) prompt_size
    then throws prompt_too_large
    else (if leb w.kv_token_limit (length tokens) then throws prompt_too_long else done turn)
