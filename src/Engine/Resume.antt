-- ===== src/Engine/Resume.antt =====
-- A turn that begins from the cache that an earlier turn has saved.
use reflex_llm.Base.{
  same_bytes, same_bytes_refl, ℕ, suc, zero, ◌+◌, ◌*◌, ◌^◌, ◌≤◌, ◌<◌, ◌≡◌, refl, sym, ap, ◌∙◌,
  subst, Bool, true, false, not, ◌||◌, some, List, ◌∷◌, ◌++◌, take, All, length, arith, ltb, ◌==◌,
  Bool-cases, if_elim, inl, inr, else_false, then_true, if◌then◌else◌, take_all, not_of_eq,
  not-ne_of_eq,
}
use reflex_llm.KvCache.{
  Mem, zeros, Config, KvCachePool, entry_bytes, packed_used_bytes, scatter_from_host,
}
use reflex_llm.KvCache.Layout.{half, slot}
use reflex_llm.KvCache.Slabs.{slot_offset, offset-lt}
use reflex_llm.KvCache.Layers.{slab_next}
use reflex_llm.KvCache.Gather.{gather_lem}
use reflex_llm.KvCache.Scatter.{byte, Scattered, scatter_lem, scatter_succeeds}
use reflex_llm.KvCache.Compact.{compact, compact_lem}
use reflex_llm.Persistence.Files.{FilePath, Files}
use reflex_llm.Persistence.Bytes.{encode_tokens}
use reflex_llm.Persistence.Header.{Header, Fits, header_bytes, encode}
use reflex_llm.Persistence.Save.{save_kv_to_file}
use reflex_llm.Persistence.Save.Atomic.{save-atomic}
use reflex_llm.Persistence.Load.RoundTrip.{AllWork, Describes, load-whole, peek-whole}
use reflex_llm.ConversationId.{validate_conversation_id, path_for_conv_id}
use reflex_llm.Engine.Hydrate.{
  common_prefix, mem_of, has_shape, HydrateCalls, is_empty, scatter_matched, hydrate_loaded,
  hydrate_file, try_hydrate_kv,
}
use reflex_llm.Engine.SaveTurn.{turn_header, TurnCalls, tidy, save_packed, save_turn}
use reflex_llm.Engine.Saved.{
  common_prefix_bounds, length-bytes_of, get_or-bytes_of_start, NotListed, tidy_keeps, staging,
  Saved, save_turn-Saved,
}

-- A turn of a conversation on one pool, and a later turn on another pool of the same shape, in which
-- no system or CUDA call of the later turn fails.
pub record CanResume (t : TurnCalls) (c : HydrateCalls) (dir fingerprint : List ℕ)
    (p q : KvCachePool) (ts id : List ℕ) (fast old : Mem) : Type 0 where
  pub first_pool : p.gpu_pool ≡ some fast
  pub second_pool : q.gpu_pool ≡ some old
  pub same_shape : q.cfg ≡ p.cfg
  pub header_fits : Fits (turn_header p.cfg fingerprint (length ts))
  pub size_small : header_bytes + 4 * length ts + packed_used_bytes p.cfg (length ts) < 2 ^ 64
  pub tokens_32 : All (λ (x : ℕ). x < 2 ^ 32) ts
  pub peek_works : AllWork c.peek
  pub load_works : AllWork c.load
  pub cuda_works : c.cuda ≡ (λ l k. true)
  pub not_listed : NotListed t (path_for_conv_id dir id)

-- A slot's bytes are inside the packed buffer.
place-lt :
    (k : Config) (n l a j : ℕ) (v : Bool)
    → l < k.n_layers
    → a < n
    → j < half k
    → slot k n l v a + j < packed_used_bytes k n
unfolding packed_used_bytes
place-lt k n l a j v h m b = ground (
  arith,
  slot_offset k n l v a j,
  offset-lt k n v a j m b,
  slab_next (n * entry_bytes k) l k.n_layers h,
)

module _ (t : TurnCalls) (c : HydrateCalls) (dir fingerprint : List ℕ) (p q : KvCachePool)
    (ts id : List ℕ) (fast old : Mem) (r : CanResume t c dir fingerprint p q ts id fast old)
    (fs : Files) (s : Saved t dir fingerprint false p ts id fs) where
  abbrev body : List ℕ
  body = staging t dir fingerprint false p ts id fs

  abbrev hdr : Header
  hdr = turn_header p.cfg fingerprint (length ts)

  abbrev after : Files
  after = (save_turn t dir fingerprint false p ts id fs).1

  abbrev path : FilePath
  path = path_for_conv_id dir id

  body-length : length body ≡ packed_used_bytes p.cfg (length ts)
  body-length = length-bytes_of _ 0 _

  describes : Describes hdr ts body
  unfolding turn_header
  describes = record {
    fits = r.header_fits;
    magic_right = refl;
    version_right = refl;
    used_right = refl;
    body_right = sym body-length;
    size_small = rw body-length r.size_small;
    tokens_32 = r.tokens_32;
  }

  abbrev saving : Bool × Files
  saving =
      save_kv_to_file t.save path hdr (some ts) (length ts) body
        (packed_used_bytes p.cfg (length ts)) fs

  content_exact : saving.0 ≡ true → saving.1 path ≡ some (encode hdr ++ (encode_tokens ts ++ body))
  content_exact e =
      ((save-atomic t.save path hdr (some ts) (length ts) body _ fs r.header_fits).saved e).0
      ∙ ap
          (λ (xs : List ℕ).
            some
              (encode hdr ++ (encode_tokens xs ++ take (packed_used_bytes p.cfg (length ts)) body)))
          (take_all (length ts) ts (omega arith))
      ∙ ap (λ (b : List ℕ). some (encode hdr ++ (encode_tokens ts ++ b)))
          (take_all (packed_used_bytes p.cfg (length ts)) body (omega (arith, body-length)))

  refused :
      (b : Bool) (x y : Files)
      → b ≡ false
      → (if◌then◌else◌ {A = Bool × Files} b (true, y) (false, x)).0 ≡ true
      → ⊥
  refused b x y f e = ground (arith)

  -- The file that the saved turn has left.
  packed_right :
      (save_packed t path fingerprint p.cfg ts body fs).0 ≡ true
      → (save_packed t path fingerprint p.cfg ts body fs).1 path
        ≡ some (encode hdr ++ (encode_tokens ts ++ body))
  unfolding save_packed
  packed_right e = elim (Bool-cases saving.0) [
    | inl went ↦
        ap (λ (w : Bool × Files). w.1 path)
          (then_true saving.0 (true, tidy t path saving.1) (false, saving.1) went)
        ∙ (tidy_keeps t path saving.1 r.not_listed ∙ content_exact went)
    | inr failed ↦ absurd (refused saving.0 saving.1 (tidy t path saving.1) failed e)
  ]

  file_right :
      (save_turn t dir fingerprint false p ts id fs).0 ≡ true
      → after path ≡ some (encode hdr ++ (encode_tokens ts ++ body))
  file_right e =
      ap (λ (w : Bool × Files). w.1 path) (sym s.written)
      ∙ packed_right (ap (λ (w : Bool × Files). w.0) s.written ∙ e)

  shape_right : has_shape q.cfg hdr ≡ true
  unfolding has_shape turn_header
  shape_right = rw r.same_shape (ground arith)

  room_right : (length ts == 0) || ltb q.cfg.max_context (length ts) ≡ false
  room_right = rw r.same_shape (ground (arith, s.fits, s.some_tokens))

  from_file :
      (prompt : List ℕ)
      → after path ≡ some (encode hdr ++ (encode_tokens ts ++ body))
      → hydrate_file c path fingerprint after hdr prompt q
        ≡ scatter_matched c (length ts) (common_prefix ts prompt) body q
  unfolding hydrate_file hydrate_loaded turn_header
  from_file prompt here =
      else_false (not (same_bytes fingerprint fingerprint)) _ _
        (not_of_eq _ (same_bytes_refl fingerprint))
      ∙ (else_false (not (has_shape q.cfg hdr)) _ _ (not_of_eq _ shape_right)
          ∙ (else_false ((length ts == 0) || ltb q.cfg.max_context (length ts)) _ _ room_right
              ∙ rw
                  (load-whole c.load r.load_works hdr ts body describes path after hdr.body_bytes
                    here (omega (arith, body-length)))
                  (else_false (not (length ts == length ts)) _ _
                    (not-ne_of_eq (length ts) _ refl))))

  hydrated :
      (x : ℕ) (prompt : List ℕ)
      → after path ≡ some (encode hdr ++ (encode_tokens ts ++ body))
      → try_hydrate_kv c dir fingerprint after (x ∷ prompt) id q
        ≡ scatter_matched c (length ts) (common_prefix ts (x ∷ prompt)) body q
  unfolding try_hydrate_kv
  hydrated x prompt here =
      else_false (is_empty id || not (validate_conversation_id id)) _ _ s.id_given
      ∙ rw (peek-whole c.peek r.peek_works hdr ts body describes path after here)
          (from_file (x ∷ prompt) here)

  -- The bytes saved are the first pool's.
  source :
      (l a j : ℕ) (v : Bool)
      → l < p.cfg.n_layers
      → a < length ts
      → j < half p.cfg
      → mem_of body (slot p.cfg (length ts) l v a + j)
        ≡ fast (slot p.cfg p.cfg.max_context l v a + j)
  unfolding mem_of
  source l a j v h k m =
      get_or-bytes_of_start _ _ _ (place-lt p.cfg (length ts) l a j v h k m)
      ∙ (gather_lem t.cuda p zeros (length ts) l a j v fast r.first_pool s.gathers h k m).2

  -- The pool `q` after the scatter of `n` positions has the first pool's bytes there.
  record Restored (n : ℕ) (out : ℕ × KvCachePool) : Type 0 where
    count : out.0 ≡ n
    bytes :
        (l a j : ℕ) (v : Bool)
        → l < q.cfg.n_layers
        → a < out.0
        → j < half q.cfg
        → byte out.1.gpu_pool (slot q.cfg q.cfg.max_context l v a + j)
          ≡ fast (slot q.cfg q.cfg.max_context l v a + j)

  restored : (n : ℕ) → n ≤ length ts → Restored n (scatter_matched c (length ts) n body q)
  unfolding scatter_matched
  restored zero le = record { count = refl; bytes = λ l a j v h k m. absurd (omega arith) }
  restored (suc n) le = then_restored (suc n == 0) (ground arith)
    where
      buffer : Mem
      buffer = compact q.cfg (length ts) (suc n) (mem_of body)

      put : Bool × KvCachePool
      put = scatter_from_host c.cuda buffer (suc n) true q

      worked : put.0 ≡ true
      worked = rw r.cuda_works (
          scatter_succeeds q (suc n) old r.second_pool (omega arith)
            (rw r.same_shape (omega (arith, s.fits))) buffer true)

      after_put : Scattered buffer (suc n) true q put.1
      after_put = scatter_lem c.cuda q buffer (suc n) true old r.second_pool worked

      source_q :
          (l a j : ℕ) (v : Bool)
          → l < q.cfg.n_layers
          → a < length ts
          → j < half q.cfg
          → mem_of body (slot q.cfg (length ts) l v a + j)
            ≡ fast (slot q.cfg q.cfg.max_context l v a + j)
      source_q =
          subst
            (λ (k : Config).
              (l a j : ℕ) (v : Bool)
              → l < k.n_layers
              → a < length ts
              → j < half k
              → mem_of body (slot k (length ts) l v a + j) ≡ fast (slot k k.max_context l v a + j))
            (sym r.same_shape) source

      good : Restored (suc n) (suc n, put.1)
      good = record {
        count = refl;
        bytes = λ l a j v h k m.
            after_put.written l a j v h k m
            ∙ (compact_lem q.cfg (length ts) (suc n) (mem_of body) (omega arith) le l a j v h k m
                ∙ source_q l a j v h (omega arith) m);
      }

      then_restored :
          (b : Bool)
          → b ≡ false
          → Restored
              (suc n)
              (if b then (0, q) else (if not put.0 then (0, put.1) else (suc n, put.1)))
      then_restored true e = absurd (cc)
      then_restored false e =
          if_elim (Restored (suc n)) (not put.0) (λ f. absurd (ground (arith, worked))) (λ f. good)

-- Where a turn of a conversation was saved, a later turn on a pool of the same shape, none of whose
-- calls fail, counts the longest common prefix of the tokens saved and the prompt, and then holds for
-- every position counted the keys and values that the first pool had.
pub hydrate-save_turn :
    (t : TurnCalls) (c : HydrateCalls) (dir fingerprint : List ℕ) (p q : KvCachePool)
    (ts id : List ℕ) (fast old : Mem) (fs : Files) (x : ℕ) (prompt : List ℕ)
    → CanResume t c dir fingerprint p q ts id fast old
    → (save_turn t dir fingerprint false p ts id fs).0 ≡ true
    → let out =
        try_hydrate_kv c dir fingerprint
          (save_turn t dir fingerprint false p ts id fs).1
          (x ∷ prompt)
          id
          q in
      (out.0 ≡ common_prefix ts (x ∷ prompt))
      × ((l a j : ℕ) (v : Bool)
          → l < q.cfg.n_layers
          → a < out.0
          → j < half q.cfg
          → byte out.1.gpu_pool (slot q.cfg q.cfg.max_context l v a + j)
            ≡ fast (slot q.cfg q.cfg.max_context l v a + j))
hydrate-save_turn t c dir fingerprint p q ts id fast old fs x prompt r e =
    let s = save_turn-Saved t dir fingerprint false p ts id fs e in
    let same =
      hydrated t c dir fingerprint p q ts id fast old r fs s x prompt
        (file_right t c dir fingerprint p q ts id fast old r fs s e) in
    let whole =
      subst (Restored t c dir fingerprint p q ts id fast old r fs s (common_prefix ts (x ∷ prompt)))
        (sym same)
        (restored t c dir fingerprint p q ts id fast old r fs s _
          (common_prefix_bounds ts (x ∷ prompt)).0) in
    (whole.count, whole.bytes)
