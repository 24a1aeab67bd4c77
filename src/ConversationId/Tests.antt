-- ===== src/ConversationId/Tests.antt =====
-- Tests of conversation ids, and their theorems at a directory and two ids.
use reflex_llm.Base.{◌≡◌, refl, [], ◌∷◌, true, false}
use reflex_llm.ConversationId.{
  is_id_char, all_id_chars, validate_conversation_id, bin, path_for_conv_id,
}

-- "../x" is refused.
dots_refused : validate_conversation_id (46 ∷ 46 ∷ 47 ∷ 120 ∷ []) ≡ false
unfolding validate_conversation_id all_id_chars is_id_char
dots_refused = refl

-- "a" in "/d" is "/d/a.bin".
path_of_a : path_for_conv_id (47 ∷ 100 ∷ []) (97 ∷ []) ≡ 47 ∷ 100 ∷ 47 ∷ 97 ∷ bin
unfolding path_for_conv_id
path_of_a = refl

valid_a : validate_conversation_id (97 ∷ []) ≡ true
unfolding validate_conversation_id all_id_chars is_id_char
valid_a = refl
