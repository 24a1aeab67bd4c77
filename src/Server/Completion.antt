-- ===== src/Server/Completion.antt =====
-- `format_qwen_chat`, and what `build_completion` makes of the tokens that the engine delivers.
use reflex_llm.Base.{
  ℕ, ◌≡◌, refl, sym, ◌∙◌, subst, Bool, true, false, not, List, [], ◌∷◌, ◌++◌, if◌then◌else◌, c_str,
}
use reflex_llm.Server.Think.{ThinkSplit, feed, flush, fresh, feed_all}
use reflex_llm.Server.Think.Lossless.{Split, joined, feed_all-Split}

-- <|im_start|>
abbrev pub im_start : List ℕ
im_start = 60 ∷ 124 ∷ 105 ∷ 109 ∷ 95 ∷ 115 ∷ 116 ∷ 97 ∷ 114 ∷ 116 ∷ 124 ∷ 62 ∷ []

-- <|im_end|>
abbrev pub im_end : List ℕ
im_end = 60 ∷ 124 ∷ 105 ∷ 109 ∷ 95 ∷ 101 ∷ 110 ∷ 100 ∷ 124 ∷ 62 ∷ []

-- assistant
abbrev pub assistant : List ℕ
assistant = 97 ∷ 115 ∷ 115 ∷ 105 ∷ 115 ∷ 116 ∷ 97 ∷ 110 ∷ 116 ∷ []

-- An empty thought: <think>, two newlines, </think>, two newlines.
abbrev pub no_thought : List ℕ
no_thought =
    60 ∷ 116 ∷ 104 ∷ 105 ∷ 110 ∷ 107 ∷ 62 ∷ 10 ∷ 10 ∷ 60 ∷ 47 ∷ 116 ∷ 104 ∷ 105 ∷ 110 ∷ 107 ∷ 62
    ∷ 10 ∷ 10 ∷ []

pub format_messages : List (List ℕ × List ℕ) → List ℕ
format_messages [] = []
format_messages (m ∷ ms) =
    im_start ++ (m.0 ++ ((10 ∷ []) ++ (m.1 ++ (im_end ++ ((10 ∷ []) ++ format_messages ms)))))

-- Messages are pairs of a role and a content, the JSON defaults filled in.
pub format_qwen_chat : List (List ℕ × List ℕ) → (think : Bool) → List ℕ
unfolding format_messages
format_qwen_chat messages think =
    format_messages messages
    ++ (im_start ++ (assistant ++ ((10 ∷ []) ++ (if not think then no_thought else []))))

-- The callback of `build_completion` over the tokens delivered, with their EOS flags. It gets a C
-- string, which ends at the first NUL.
unfoldable pub absorb_all : (decode : ℕ → List ℕ) → List (ℕ × Bool) → ThinkSplit → ThinkSplit
unfolding c_str
absorb_all decode [] t = t
absorb_all decode (d ∷ ds) t =
    let skipped = absorb_all decode ds t in
    let fed = absorb_all decode ds (feed (c_str (decode d.0)) t) in if d.1 then skipped else fed

-- The reasoning and the content of the answer.
unfoldable pub build_completion : (decode : ℕ → List ℕ) → List (ℕ × Bool) → ThinkSplit
unfolding absorb_all
build_completion decode delivered = flush (absorb_all decode delivered fresh)

-- The texts of the tokens that are not EOS.
abbrev pub texts : (decode : ℕ → List ℕ) → List (ℕ × Bool) → List (List ℕ)
texts decode [] = []
texts decode (d ∷ ds) = if d.1 then texts decode ds else c_str (decode d.0) ∷ texts decode ds

ended : (t : ThinkSplit) → t ≡ feed_all [] t
unfolding feed_all
ended t = refl

next :
    (c : List ℕ) (cs : List (List ℕ)) (t : ThinkSplit)
    → feed_all cs (feed c t) ≡ feed_all (c ∷ cs) t
unfolding feed_all
next c cs t = refl

absorb_all-feed_all :
    (decode : ℕ → List ℕ) (ds : List (ℕ × Bool)) (t : ThinkSplit)
    → absorb_all decode ds t ≡ feed_all (texts decode ds) t
unfolding absorb_all
absorb_all-feed_all decode [] t = ended t
absorb_all-feed_all decode ((id, true) ∷ ds) t = absorb_all-feed_all decode ds t
absorb_all-feed_all decode ((id, false) ∷ ds) t =
    absorb_all-feed_all decode ds (feed (c_str (decode id)) t)
    ∙ next (c_str (decode id)) (texts decode ds) t

-- Whatever tokens are delivered, what their texts (without EOS) spell is split into the reasoning and
-- the content of the completion, however it is cut into tokens: a text that does not start with <think>
-- is the content; in one that does, the reasoning goes up to the first </think>, and the content is
-- behind it and some newlines and spaces; or there is none, and all behind <think> is the reasoning,
-- with no content.
pub build_completion-Split :
    (decode : ℕ → List ℕ) (delivered : List (ℕ × Bool))
    → let t = build_completion decode delivered in
      Split (joined (texts decode delivered)) t.reasoning t.answer
unfolding build_completion
build_completion-Split decode delivered =
    subst
      (λ (t : ThinkSplit).
        Split (joined (texts decode delivered)) (flush t).reasoning (flush t).answer)
      (sym (absorb_all-feed_all decode delivered fresh)) (feed_all-Split (texts decode delivered))
