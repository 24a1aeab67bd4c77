-- ===== src/Server/Chat/Asked.antt =====
-- What a request can make the engine do.
use reflex_llm.Base.{
  ℕ, ◌≡◌, refl, ap, sym, ◌∙◌, subst, inl, inr, ◌⊎◌, Bool, true, false, List, [], ◌∷◌, ◌++◌, Option,
  none, some, Bool-cases,
}
use reflex_llm.ConversationId.{validate_conversation_id, path_for_conv_id, bin}
use reflex_llm.ConversationId.Confined.{base_name, path-base_name}
use reflex_llm.Server.Completion.{format_qwen_chat}
use reflex_llm.Server.Chat.{
  Body, GenParams, value, conversation_of, params_of, Engine, answer_chat, handle_messages,
  handle_chat,
}

conversation_of-valid :
    (given : List ℕ) (i : ℕ) (id : List ℕ)
    → conversation_of given ≡ i ∷ id
    → validate_conversation_id (i ∷ id) ≡ true
unfolding conversation_of
conversation_of-valid [] i id e = absurd (cc)
conversation_of-valid (c ∷ given) i id e =
    elim (Bool-cases (validate_conversation_id (c ∷ given))) [
      | inl valid ↦
          let same : c ∷ given ≡ i ∷ id = rw (valid, conversation_of) at e in
          subst (λ (x : List ℕ). validate_conversation_id x ≡ true) same valid
      | inr bad ↦ absurd (cc (rw (bad, conversation_of) at e))
    ]

module _ (engine : Engine) (accepts : ℕ → Bool) (dumps : List ℕ → Bool) (decode : ℕ → List ℕ)
    (default_kv_int8 : Bool) where
  -- The engine is asked only about messages, with the parameters and the prompt of the body.
  abbrev Asks : Body → Option (List ℕ × GenParams) → Type 0
  Asks b none = Unit
  Asks b (some (prompt, params)) =
      (params_of default_kv_int8 b ≡ params)
      × (format_qwen_chat (value b.messages []) (value b.think false) ≡ prompt)
      × ((m : List ℕ × List ℕ) × (ms : List (List ℕ × List ℕ)) × (b.messages ≡ some (m ∷ ms)))

  answer-Asks :
      (m : List ℕ × List ℕ) (ms : List (List ℕ × List ℕ)) (b : Body)
      → b.messages ≡ some (m ∷ ms)
      → Asks b (answer_chat engine accepts dumps decode default_kv_int8 (m ∷ ms) b).1
  unfolding answer_chat
  answer-Asks m ms b e =
      (refl, ap (λ o. format_qwen_chat (value o []) (value b.think false)) e, (m, ms, e))

  handle_messages-Asks :
      (o : Option (List (List ℕ × List ℕ))) (b : Body)
      → b.messages ≡ o
      → Asks b (handle_messages engine accepts dumps decode default_kv_int8 o b).1
  unfolding handle_messages
  handle_messages-Asks none b e = tt
  handle_messages-Asks (some []) b e = tt
  handle_messages-Asks (some (m ∷ ms)) b e = answer-Asks m ms b e

  handle_chat-Asks :
      (b : Body) → Asks b (handle_chat engine accepts dumps decode default_kv_int8 (some b)).1
  unfolding handle_chat
  handle_chat-Asks b = handle_messages-Asks b.messages b refl

  -- Whenever the engine is asked, it is for messages that are not empty, in the chat format; with the
  -- KV format of the load unless the body gives one; and, if with a conversation, one whose file lies
  -- in the cache's directory (of a name that is not empty) under the id's own name.
  pub handle_chat-base_name :
      (b : Body) (prompt : List ℕ) (params : GenParams) (c : ℕ) (dir : List ℕ)
      → (handle_chat engine accepts dumps decode default_kv_int8 (some b)).1 ≡ some (prompt, params)
      → ((m : List ℕ × List ℕ) × (ms : List (List ℕ × List ℕ)) × (b.messages ≡ some (m ∷ ms))
          × (prompt ≡ format_qwen_chat (m ∷ ms) (value b.think false)))
        × (params.kv_int8 ≡ value b.kv_int8 default_kv_int8)
        × ((params.conversation_id ≡ [])
            ⊎ (base_name (path_for_conv_id (c ∷ dir) params.conversation_id)
                ≡ params.conversation_id ++ bin))
  unfolding params_of
  handle_chat-base_name b prompt params c dir e =
      let (same, format, (m, ms, given)) = subst (Asks b) e (handle_chat-Asks b) in
      (
        (
          m,
          ms,
          given,
          sym format ∙ ap (λ o. format_qwen_chat (value o []) (value b.think false)) given,
        ),
        ap (λ p. p.kv_int8) (sym same),
        confined params.conversation_id (value b.conversation_id [])
            (ap (λ p. p.conversation_id) same),
      )
    where
      confined :
          (id given : List ℕ)
          → conversation_of given ≡ id
          → (id ≡ []) ⊎ (base_name (path_for_conv_id (c ∷ dir) id) ≡ id ++ bin)
      confined [] given h = inl refl
      confined (i ∷ id) given h =
          inr (path-base_name c dir i id (conversation_of-valid given i id h))
