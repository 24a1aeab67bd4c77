-- ===== src/ConversationId/Confined.antt =====
-- A valid conversation id names one file, directly in the cache's directory.
use reflex_llm.Base.{
  ℕ, ◌≤◌, ◌≡◌, ◌≢◌, inl, inr, refl, true, List, [], ◌∷◌, ◌++◌, All, arith, length, ltb, ◌==◌,
  if◌then◌else◌, Bool-cases, le_of_not-ltb,
}
use reflex_llm.ConversationId.{
  is_id_char, all_id_chars, validate_conversation_id, slash, bin, back, path_for_conv_id,
}

-- The bytes that a path treats specially, and NUL.
abbrev pub Plain : ℕ → Type 0
Plain c = (c ≢ slash) × (c ≢ 46) × (c ≢ 0)

is_id_char-Plain : (c : ℕ) → is_id_char c ≡ true → Plain c
unfolding is_id_char
is_id_char-Plain c h =
    (λ e. absurd (cc (rw e at h)), λ e. absurd (cc (rw e at h)), λ e. absurd (cc (rw e at h)))

all_id_chars-Plain : (id : List ℕ) → all_id_chars id ≡ true → All Plain id
unfolding all_id_chars
all_id_chars-Plain [] h = tt
all_id_chars-Plain (c ∷ id) h = elim (Bool-cases (is_id_char c)) [
  | inl good ↦ (is_id_char-Plain c good, all_id_chars-Plain id (rw (good, all_id_chars) at h))
  | inr bad ↦ absurd (cc (rw (bad, all_id_chars) at h))
]

-- A valid id has at most 64 bytes, all plain.
pub validate-Plain :
    (id : List ℕ) → validate_conversation_id id ≡ true → (length id ≤ 64) × All Plain id
unfolding validate_conversation_id
validate-Plain [] h = (omega arith, tt)
validate-Plain (c ∷ id) h = elim (Bool-cases (ltb 64 (length (c ∷ id)))) [
  | inl long ↦ absurd (cc (rw (long, validate_conversation_id) at h))
  | inr short ↦ (
    le_of_not-ltb 64 _ short,
    all_id_chars-Plain (c ∷ id) (rw (short, validate_conversation_id) at h),
  )
]

-- The last component of a path: what follows its last slash.
abbrev pub base_name_from : (best : List ℕ) → List ℕ → List ℕ
base_name_from best [] = best
base_name_from best (c ∷ cs) = base_name_from (if c == slash then cs else best) cs

abbrev pub base_name : List ℕ → List ℕ
base_name path = base_name_from path path

no_slash : (best ys : List ℕ) → All (λ c. c ≢ slash) ys → base_name_from best ys ≡ best
no_slash best [] h = refl
no_slash best (c ∷ ys) h = ground (no_slash best ys h.1, h.0, arith)

after_slash :
    (xs ys best : List ℕ) → All (λ c. c ≢ slash) ys → base_name_from best (xs ++ (slash ∷ ys)) ≡ ys
after_slash [] ys best h = no_slash ys ys h
after_slash (x ∷ xs) ys best h =
    after_slash xs ys (if x == slash then xs ++ (slash ∷ ys) else best) h

after_back :
    (dir : List ℕ) (c : ℕ) (ys best : List ℕ)
    → back c dir ≡ slash
    → All (λ c. c ≢ slash) ys
    → base_name_from best ((c ∷ dir) ++ ys) ≡ ys
after_back [] c ys best e h = rw e (no_slash ys ys h)
after_back (d ∷ ds) c ys best e h =
    after_back ds d ys (if c == slash then (d ∷ ds) ++ ys else best) e h

name-Plain : (id : List ℕ) → All Plain id → All (λ c. c ≢ slash) (id ++ bin)
name-Plain [] h = (ground arith, (ground arith, (ground arith, (ground arith, tt))))
name-Plain (c ∷ id) h = (h.0.0, name-Plain id h.1)

-- In a directory whose name is not empty, a valid id that is not empty names a file whose last path
-- component is the id and ".bin": the path does not leave the directory.
pub path-base_name :
    (c : ℕ) (dir : List ℕ) (i : ℕ) (id : List ℕ)
    → validate_conversation_id (i ∷ id) ≡ true
    → base_name (path_for_conv_id (c ∷ dir) (i ∷ id)) ≡ (i ∷ id) ++ bin
unfolding path_for_conv_id
path-base_name c dir i id h =
    let plain = name-Plain (i ∷ id) (validate-Plain (i ∷ id) h).1 in
    elim (Bool-cases (back c dir == slash)) [
      | inl ends ↦ rw (ends, path_for_conv_id) (after_back dir c _ _ (ground arith) plain)
      | inr other ↦ rw (other, path_for_conv_id) (after_slash (c ∷ dir) _ _ plain)
    ]
