-- ===== src/Server/Chat.antt =====
-- The handler of POST /v1/chat/completions, up to the text of its JSON. The JSON library's part is an
-- argument: the fields of the body that is parsed, of their types, with `none` for a field that is not
-- there. A float is the word of its bits.
pub mod Asked
use reflex_llm.Base.{
  ℕ, ◌≡◌, ◌≢◌, refl, ap, sym, ◌∙◌, ◌⊎◌, inl, inr, Bool, true, false, not, List, [], ◌∷◌, ◌++◌,
  Option, none, some, if◌then◌else◌, Bool-cases, arith, ◌&&◌, ◌||◌, leb, length,
}
use reflex_llm.ConversationId.{validate_conversation_id, path_for_conv_id, bin}
use reflex_llm.ConversationId.Confined.{base_name, path-base_name}
use reflex_llm.Server.Think.{ThinkSplit}
use reflex_llm.Server.Completion.{format_qwen_chat, build_completion}
use reflex_llm.Server.Stream.{Stream, stream_chat_completion}

-- `messages` is `none` where it is not an array, and empty where it is missing.
pub record Body : Type 0 where
  pub messages : Option (List (List ℕ × List ℕ))
  pub max_tokens : Option ℕ
  pub temperature : Option ℕ
  pub top_k : Option ℕ
  pub top_p : Option ℕ
  pub kv_int8 : Option Bool
  pub conversation_id : Option (List ℕ)
  pub think : Option Bool
  pub stream : Option Bool

pub record GenParams : Type 0 where
  pub max_tokens : ℕ
  pub temperature : ℕ
  pub top_k : ℕ
  pub top_p : ℕ
  pub kv_int8 : Bool
  pub conversation_id : List ℕ

-- How `generate` ends.
pub data Outcome : Type 0 where
  returns : Outcome
  length_error : Outcome
  exception : Outcome
  unknown : Outcome

pub data Reply : Type 0 where
  send_error : (code : ℕ) → Reply
  completion : ThinkSplit → Reply
  streamed : Stream → Reply

-- `body.value(name, default)`
abbrev pub value {ℓ} : {A : Type ℓ} → Option A → A → A
value none d = d
value (some a) d = a

-- An id that is not valid is dropped.
unfoldable pub conversation_of : List ℕ → List ℕ
conversation_of [] = []
conversation_of (c ∷ id) = if validate_conversation_id (c ∷ id) then c ∷ id else []

-- 0.7f is 0x3F333333 and 0.9f is 0x3F666666.
unfoldable pub params_of : (default_kv_int8 : Bool) → Body → GenParams
unfolding conversation_of
params_of default_kv_int8 b = record {
  max_tokens = value b.max_tokens 256;
  temperature = value b.temperature 0x3F333333;
  top_k = value b.top_k 40;
  top_p = value b.top_p 0x3F666666;
  kv_int8 = value b.kv_int8 default_kv_int8;
  conversation_id = conversation_of (value b.conversation_id []);
}

-- Any failure but that of a length is the server's.
abbrev pub failure_code : Outcome → ℕ
failure_code length_error = 400
failure_code other = 500

abbrev pub threw : Outcome → Bool
threw returns = false
threw other = true

-- What the engine does with a prompt: the tokens it delivers, and how it ends.
abbrev pub Engine : Type 0
Engine = List ℕ → GenParams → List (ℕ × Bool) × Outcome

module _ (engine : Engine) (accepts : ℕ → Bool) (dumps : List ℕ → Bool) (decode : ℕ → List ℕ)
    (default_kv_int8 : Bool) where
  -- Whether the JSON library can write the message: the reasoning is in it only where there is some.
  unfoldable pub dumps_message : ThinkSplit → Bool
  dumps_message t = dumps t.answer && (leb (length t.reasoning) 0 || dumps t.reasoning)

  -- A message that cannot be written throws, which is answered like any other exception.
  unfoldable pub complete : List (ℕ × Bool) × Outcome → Reply
  unfolding dumps_message
  complete (delivered, returns) =
      let t = build_completion decode delivered in
      if dumps_message t then completion t else send_error 500
  complete (delivered, other) = send_error (failure_code other)

  -- The reply to a request whose messages are in order, and what the engine was asked.
  unfoldable pub answer_chat : List (List ℕ × List ℕ) → Body → Reply × Option (List ℕ × GenParams)
  unfolding complete params_of
  answer_chat messages b =
      let params = params_of default_kv_int8 b in
      let prompt = format_qwen_chat messages (value b.think false) in
      let result = engine prompt params in
      let reply =
        if value b.stream false
        then streamed (stream_chat_completion accepts dumps decode (threw result.1) result.0)
        else complete result in
      (reply, some (prompt, params))

  -- A non-empty array is required.
  unfoldable pub handle_messages :
      Option (List (List ℕ × List ℕ)) → Body → Reply × Option (List ℕ × GenParams)
  unfolding answer_chat
  handle_messages none b = (send_error 400, none)
  handle_messages (some []) b = (send_error 400, none)
  handle_messages (some (m ∷ ms)) b = answer_chat (m ∷ ms) b

  -- `none` is a body that does not parse.
  unfoldable pub handle_chat : Option Body → Reply × Option (List ℕ × GenParams)
  unfolding handle_messages
  handle_chat none = (send_error 400, none)
  handle_chat (some b) = handle_messages b.messages b
