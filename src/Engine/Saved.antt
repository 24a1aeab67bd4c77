-- ===== src/Engine/Saved.antt =====
-- What a turn that was saved has passed, and that tidying up keeps its file.
use reflex_llm.Base.{
  drop, ℕ, suc, zero, ◌+◌, ◌≤◌, ◌<◌, ◌≡◌, ◌≢◌, refl, sym, ap, ◌∙◌, Bool, true, false, not, ◌||◌,
  none, List, [], ◌∷◌, take, All, length, get_or, arith, ltb, ◌==◌, Bool-cases, inl, inr,
  le_of_not-ltb, if◌then◌else◌,
}
use reflex_llm.KvCache.{Mem, zeros, KvCachePool, packed_used_bytes, gather_used_to_host}
use reflex_llm.Persistence.Files.{FilePath, Files, update, update_ne}
use reflex_llm.Persistence.Budget.{CacheEntry, list_kv_files, tmp_suffix}
use reflex_llm.Persistence.Budget.Limit.{enforce_keeps}
use reflex_llm.Persistence.Budget.Stale.{cleanup-All}
use reflex_llm.ConversationId.{validate_conversation_id, path_for_conv_id}
use reflex_llm.Engine.Hydrate.{common_prefix, is_empty}
use reflex_llm.Engine.SaveTurn.{bytes_of, TurnCalls, remove_files, tidy, save_packed, save_turn}

-- The prefix is common, and no longer one is.
common_prefix-take :
    (cs ps : List ℕ) → take (common_prefix cs ps) cs ≡ take (common_prefix cs ps) ps
unfolding common_prefix
common_prefix-take [] [] = refl
common_prefix-take [] (p ∷ ps) = refl
common_prefix-take (c ∷ cs) [] = refl
common_prefix-take (c ∷ cs) (p ∷ ps) = elim (Bool-cases (c == p)) [
  | inl same ↦
      rw (same, common_prefix)
        (ap (λ (x : ℕ). x ∷ take (common_prefix cs ps) cs) (ground arith)
          ∙ ap (◌∷◌ p) (common_prefix-take cs ps))
  | inr other ↦ rw (other, common_prefix) refl
]

pub common_prefix_bounds :
    (cs ps : List ℕ) → (common_prefix cs ps ≤ length cs) × (common_prefix cs ps ≤ length ps)
unfolding common_prefix
common_prefix_bounds [] ps = (omega arith, omega arith)
common_prefix_bounds (c ∷ cs) [] = (omega arith, omega arith)
common_prefix_bounds (c ∷ cs) (p ∷ ps) = ground (arith, common_prefix_bounds cs ps)

head_or : ℕ → List ℕ → ℕ
head_or d [] = d
head_or d (x ∷ xs) = x

common_prefix-least :
    (n : ℕ) (cs ps : List ℕ)
    → n ≤ length cs
    → n ≤ length ps
    → take n cs ≡ take n ps
    → n ≤ common_prefix cs ps
unfolding common_prefix head_or
common_prefix-least zero cs ps h k e = omega arith
common_prefix-least (suc n) [] ps h k e = absurd (omega arith)
common_prefix-least (suc n) (c ∷ cs) [] h k e = absurd (omega arith)
common_prefix-least (suc n) (c ∷ cs) (p ∷ ps) h k e =
    let same : c ≡ p = ap (head_or 0) e in
    ground (arith, same, common_prefix-least n cs ps (omega arith) (omega arith) (ap (drop 1) e))

-- The count is the longest common prefix: so many tokens of both lists agree, neither list is
-- shorter, and any other prefix that both have is no longer.
pub common_prefix-longest :
    (cs ps : List ℕ) (n : ℕ)
    → n ≤ length cs
    → n ≤ length ps
    → take n cs ≡ take n ps
    → (take (common_prefix cs ps) cs ≡ take (common_prefix cs ps) ps)
      × (common_prefix cs ps ≤ length cs)
      × (common_prefix cs ps ≤ length ps)
      × (n ≤ common_prefix cs ps)
common_prefix-longest cs ps n h k e = (
  common_prefix-take cs ps,
  (common_prefix_bounds cs ps).0,
  (common_prefix_bounds cs ps).1,
  common_prefix-least n cs ps h k e,
)

pub length-bytes_of : (m : Mem) (a n : ℕ) → length (bytes_of m a n) ≡ n
unfolding bytes_of
length-bytes_of m a zero = refl
length-bytes_of m a (suc n) = ap suc (length-bytes_of m (a + 1) n)

get_or-bytes_of : (m : Mem) (a n i : ℕ) → i < n → get_or (bytes_of m a n) i 0 ≡ m (a + i)
unfolding bytes_of
get_or-bytes_of m a zero i h = absurd (omega arith)
get_or-bytes_of m a (suc n) zero h = ap m (omega arith)
get_or-bytes_of m a (suc n) (suc i) h =
    get_or-bytes_of m (a + 1) n i (omega arith) ∙ ap m (omega arith)

pub get_or-bytes_of_start : (m : Mem) (n i : ℕ) → i < n → get_or (bytes_of m 0 n) i 0 ≡ m i
get_or-bytes_of_start m n i h = get_or-bytes_of m 0 n i h ∙ ap m (omega arith)

remove_files_keeps :
    (path : FilePath) (es : List CacheEntry) (fs : Files)
    → All (λ (e : CacheEntry). e.path ≢ path) es
    → remove_files es fs path ≡ fs path
unfolding remove_files
remove_files_keeps path [] fs h = refl
remove_files_keeps path (e ∷ es) fs h =
    remove_files_keeps path es (update fs e.path none) h.1
    ∙ update_ne fs e.path path none (λ same. h.0 (sym same))

-- No temporary file that the directory lists is the file itself.
abbrev pub NotListed : TurnCalls → FilePath → Type 0
NotListed t path =
    All (λ (e : CacheEntry). e.path ≢ path) (list_kv_files t.first_listing tmp_suffix)

pub tidy_keeps :
    (t : TurnCalls) (path : FilePath) (fs : Files)
    → NotListed t path
    → tidy t path fs path ≡ fs path
unfolding tidy
tidy_keeps t path fs h =
    remove_files_keeps path _ _ (enforce_keeps t.max_bytes path t.unlinks t.sort t.second_listing)
    ∙ remove_files_keeps path _ fs (
        cleanup-All t.now t.stale_s t.unlinks (λ (e : CacheEntry). e.path ≢ path) t.first_listing h)

pub guard_true :
    {A : Type 0} (b : Bool) (fs : A) (x : Bool × A)
    → (if b then (false, fs) else x).0 ≡ true
    → (b ≡ false) × ((if b then (false, fs) else x) ≡ x) × (x.0 ≡ true)
guard_true true fs x e = absurd (cc)
guard_true false fs x e = (refl, refl, e)

then_done :
    {A : Type 0} (b : Bool) (fs : A) (x : Bool × A)
    → (if b then x else (false, fs)).0 ≡ true
    → (b ≡ true) × ((if b then x else (false, fs)) ≡ x) × (x.0 ≡ true)
then_done true fs x e = (refl, refl, e)
then_done false fs x e = absurd (cc)

module _ (t : TurnCalls) (dir fingerprint : List ℕ) (int8 : Bool) (p : KvCachePool) (ts id : List ℕ)
    (fs : Files) where
  abbrev pub packed : ℕ
  packed = packed_used_bytes p.cfg (length ts)

  abbrev pub gathered : Bool × Mem
  gathered = gather_used_to_host t.cuda p zeros (length ts)

  abbrev pub staging : List ℕ
  staging = bytes_of gathered.1 0 packed

  -- What a turn that was saved has passed, and how its file was written.
  pub record Saved : Type 0 where
    pub id_given : is_empty id || not (validate_conversation_id id) ≡ false
    pub fits : length ts ≤ p.cfg.max_context
    pub some_tokens : 4 ≤ length ts
    pub gathers : gathered.0 ≡ true
    pub written :
        save_packed t (path_for_conv_id dir id) fingerprint p.cfg ts staging fs
        ≡ save_turn t dir fingerprint int8 p ts id fs

  pub save_turn-Saved : (save_turn t dir fingerprint int8 p ts id fs).0 ≡ true → Saved
  unfolding save_turn
  save_turn-Saved e =
      let (b₁, e₁, t₁) = guard_true (is_empty id || not (validate_conversation_id id)) fs _ e in
      let (b₂, e₂, t₂) = guard_true (ltb (length ts) 4) fs _ t₁ in
      let (b₃, e₃, t₃) = guard_true (ltb p.cfg.max_context (length ts)) fs _ t₂ in
      let (b₄, e₄, t₄) = guard_true int8 fs _ t₃ in
      let (b₅, e₅, t₅) = guard_true (not t.ensures_dir) fs _ t₄ in
      let (b₆, e₆, t₆) = then_done gathered.0 fs _ t₅ in
      record {
        id_given = b₁;
        fits = le_of_not-ltb _ _ b₃;
        some_tokens = le_of_not-ltb _ _ b₂;
        gathers = b₆;
        written = sym (e₁ ∙ (e₂ ∙ (e₃ ∙ (e₄ ∙ (e₅ ∙ e₆)))));
      }
