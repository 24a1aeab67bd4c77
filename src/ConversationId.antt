-- ===== src/ConversationId.antt =====
-- `validate_conversation_id` in `src/engine/decode.cu`, and the file a conversation is kept in,
-- `path_for_conv_id` in `src/persistence/kv_cache_file.cpp`. Strings are lists of bytes.
pub mod Confined
mod Tests
use reflex_llm.Base.{
  ℕ, Bool, true, false, not, ◌&&◌, ◌||◌, List, [], ◌∷◌, ◌++◌, length, ltb, leb, ◌==◌, if◌then◌else◌,
}

-- 97 is 'a', 65 is 'A', 48 is '0', 95 is '_', 45 is '-'
unfoldable pub is_id_char : (c : ℕ) → Bool
is_id_char c =
    (leb 97 c && leb c 122)
    || ((leb 65 c && leb c 90) || ((leb 48 c && leb c 57) || ((c == 95) || (c == 45))))

unfoldable pub all_id_chars : List ℕ → Bool
all_id_chars [] = true
all_id_chars (c ∷ id) = let rest = all_id_chars id in if not (is_id_char c) then false else rest

unfoldable pub validate_conversation_id : (id : List ℕ) → Bool
validate_conversation_id [] = true
validate_conversation_id (c ∷ id) =
    if ltb 64 (length (c ∷ id)) then false else all_id_chars (c ∷ id)

abbrev pub slash : ℕ
slash = 47

-- ".bin"
abbrev pub bin : List ℕ
bin = 46 ∷ 98 ∷ 105 ∷ 110 ∷ []

-- `dir.back()`, for a directory of at least one byte
abbrev pub back : (first : ℕ) → List ℕ → ℕ
back c [] = c
back c (d ∷ ds) = back d ds

pub path_for_conv_id : (dir conv_id : List ℕ) → List ℕ
path_for_conv_id [] conv_id = []
path_for_conv_id (c ∷ dir) [] = []
path_for_conv_id (c ∷ dir) (i ∷ id) =
    if back c dir == slash
    then (c ∷ dir) ++ ((i ∷ id) ++ bin)
    else (c ∷ dir) ++ (slash ∷ ((i ∷ id) ++ bin))
