-- ===== src/Server/Tests.antt =====
-- Tests of the splitting, and its theorems at a thought in several chunks.
use reflex_llm.Base.{ℕ, ◌≡◌, refl, List, [], ◌∷◌, ◌++◌, true, false, ◌==◌, if◌then◌else◌}
use reflex_llm.Server.Think.{
  open_tag, close_tag, content, find, eat_separator, feed_content, feed_thinking, feed_init, feed,
  flush, fresh, feed_all,
}
use reflex_llm.Server.Think.Lossless.{Split, joined}
use reflex_llm.Server.Completion.{build_completion, texts, build_completion-Split}
use reflex_llm.Base.{starts_with, Bool, ltb, ◌⊎◌, none, some, codes, c_str, arith}
use reflex_llm.ConversationId.{path_for_conv_id, bin}
use reflex_llm.ConversationId.Confined.{base_name}
use reflex_llm.Server.Completion.{format_qwen_chat}
use reflex_llm.Server.Stream.{reasoning, role, delta, error, end, stream_chat_completion}
use reflex_llm.Server.Stream.Whole.{Whole}
use reflex_llm.Server.Stream.Broken.{Ended, stream-Ended}
use reflex_llm.Server.Chat.{Body, Engine, returns, value, params_of, handle_chat}
use reflex_llm.Server.Chat.Asked.{handle_chat-base_name}

-- "<thi", "nk>ab</think>", "\n\nok"
abbrev chunks : List (List ℕ)
chunks =
    (60 ∷ 116 ∷ 104 ∷ 105 ∷ [])
    ∷ ((110 ∷ 107 ∷ 62 ∷ 97 ∷ 98 ∷ []) ++ close_tag)
    ∷ (10 ∷ 10 ∷ 111 ∷ 107 ∷ [])
    ∷ []

-- The separator stays in the answer when it comes in a later chunk than the tag.
separator_later : flush (feed_all chunks fresh) ≡ record {
  mode = content;
  buf = [];
  reasoning = 97 ∷ 98 ∷ [];
  answer = 10 ∷ 10 ∷ 111 ∷ 107 ∷ [];
}
unfolding flush feed_all feed feed_init feed_thinking feed_content find eat_separator starts_with
separator_later = refl

-- It is dropped when the same text comes at once.
separator_at_once :
    flush (feed_all (joined chunks ∷ []) fresh)
    ≡ record { mode = content; buf = []; reasoning = 97 ∷ 98 ∷ []; answer = 111 ∷ 107 ∷ [] }
unfolding flush feed_all feed feed_init feed_thinking feed_content find eat_separator starts_with
separator_at_once = refl

-- Token 7 is "<think>", any other is "x".
abbrev decode : ℕ → List ℕ
decode n = if n == 7 then open_tag else 120 ∷ []

build_completion-Split_example :
    let t = build_completion decode ((7, false) ∷ (3, false) ∷ (2, true) ∷ []) in
    Split (joined (texts decode ((7, false) ∷ (3, false) ∷ (2, true) ∷ []))) t.reasoning t.answer
build_completion-Split_example =
    build_completion-Split decode ((7, false) ∷ (3, false) ∷ (2, true) ∷ [])

-- "<think>x", then EOS.
abbrev tokens : List (ℕ × Bool)
tokens = (7, false) ∷ (3, false) ∷ (2, true) ∷ []

-- What is not above 127 is UTF-8.
abbrev ascii : List ℕ → Bool
ascii [] = true
ascii (c ∷ cs) = if ltb c 128 then ascii cs else false

-- Half a character in front of the end is an error, though the engine returns.
half_character :
    (stream_chat_completion (λ _. true) ascii (λ _. 226 ∷ []) false ((3, false) ∷ [])).tried
    ≡ role ∷ error ∷ end ∷ []
unfolding stream_chat_completion feed flush starts_with find c_str
half_character = refl

-- Only the role gets through.
abbrev first_only : ℕ → Bool
first_only n = n == 0

stream-Ended_example :
    Ended first_only ascii 1 (stream_chat_completion first_only ascii decode false tokens)
stream-Ended_example =
    stream-Ended first_only ascii 1 refl (λ n l. ground arith) decode false tokens

streamed_lost : stream_chat_completion first_only ascii decode false tokens ≡ record {
  tried = role ∷ delta (reasoning (120 ∷ [])) ∷ [];
  count = 2;
  client_alive = false;
  stopped = true;
  errored = false;
}
unfolding stream_chat_completion feed flush starts_with find c_str
streamed_lost = refl

-- A request with a conversation "a".
abbrev request : Body
request = record {
  messages = some ((codes "user", codes "hi") ∷ []);
  max_tokens = none;
  temperature = none;
  top_k = none;
  top_p = none;
  kv_int8 = none;
  conversation_id = some (97 ∷ []);
  think = none;
  stream = none;
}

abbrev engine : Engine
engine prompt params = (tokens, returns)

request_asks :
    (handle_chat engine (λ _. true) ascii decode true (some request)).1
    ≡ some (format_qwen_chat ((codes "user", codes "hi") ∷ []) false, params_of true request)
unfolding handle_chat
request_asks = refl

handle_chat-base_name_example :
    let params = params_of true request in
    ((m : List ℕ × List ℕ) × (ms : List (List ℕ × List ℕ)) × (request.messages ≡ some (m ∷ ms))
      × (format_qwen_chat ((codes "user", codes "hi") ∷ []) false
          ≡ format_qwen_chat (m ∷ ms) (value request.think false)))
    × (params.kv_int8 ≡ value request.kv_int8 true)
    × ((params.conversation_id ≡ [])
        ⊎ (base_name (path_for_conv_id (47 ∷ []) params.conversation_id)
            ≡ params.conversation_id ++ bin))
handle_chat-base_name_example =
    handle_chat-base_name engine (λ _. true) ascii decode true request
      (format_qwen_chat ((codes "user", codes "hi") ∷ []) false) (params_of true request) 47 []
      request_asks
