-- ===== src/Server/Think/Lossless.antt =====
-- Splitting: which text is the reasoning and which is the answer, however it came in.
use reflex_llm.Base.{
  ℕ, suc, ◌+◌, ◌-◌, ◌≤◌, ◌<◌, ◌≡◌, refl, ap, sym, ◌∙◌, subst, ◌⊎◌, inl, inr, true, false, ◌&&◌,
  ◌||◌, none, some, length-append, length-drop, List, [], ◌∷◌, ◌++◌, length, take, drop, append-nil,
  append_assoc, take-append-drop, starts_with, arith, All, ltb, ◌==◌, if_elim, drop-drop,
  option_elim,
}
use reflex_llm.Server.Think.{
  open_tag, close_tag, Mode, init, thinking, content, ThinkSplit, find, eat_separator, feed_content,
  feed_thinking, feed_init, feed, flush, fresh, feed_all,
}
use reflex_llm.Server.Think.Find.{
  starts_with-split, find-split, never_starts, later, later_zero, find_past, find-front,
}

-- Newlines and spaces only.
abbrev pub AreSeparators : List ℕ → Type 0
AreSeparators = All (λ (c : ℕ). (c ≡ 10) ⊎ (c ≡ 32))

record Eaten (cs rest : List ℕ) : Type 0 where
  eaten : List ℕ
  separators : AreSeparators eaten
  whole : cs ≡ eaten ++ rest

eat_separator-Eaten : (cs : List ℕ) → Eaten cs (eat_separator cs)
unfolding eat_separator
eat_separator-Eaten [] = record { eaten = []; separators = tt; whole = refl }
eat_separator-Eaten (c ∷ cs) =
    let rest = eat_separator-Eaten cs in
    if_elim (Eaten (c ∷ cs)) ((c == 10) || (c == 32))
      (λ e. record {
        eaten = c ∷ rest.eaten;
        separators = (ground arith, rest.separators);
        whole = ap (◌∷◌ c) rest.whole;
      })
      (λ e. record { eaten = []; separators = tt; whole = refl })

-- A text that has come to an answer: only an answer, where the text does not start with <think>, and
-- will not when more comes; or thoughts, up to the first </think>, and an answer, with a separator
-- between them that was dropped.
pub data Answered (text reasoning answer : List ℕ) : Type 0 where
  plain :
      reasoning ≡ []
      → text ≡ answer
      → ((more : List ℕ) → starts_with open_tag (text ++ more) ≡ false)
      → Answered text reasoning answer
  both :
      (ws : List ℕ)
      → AreSeparators ws
      → text ≡ open_tag ++ (reasoning ++ (close_tag ++ (ws ++ answer)))
      → find close_tag (reasoning ++ close_tag) ≡ some (length reasoning)
      → Answered text reasoning answer

-- A text and what it is split into at its end: it has come to an answer; or it is too short for a
-- tag, and is an answer; or its thoughts, in which there is no </think>, did not end.
pub data Split (text reasoning answer : List ℕ) : Type 0 where
  answered : Answered text reasoning answer → Split text reasoning answer
  short : reasoning ≡ [] → text ≡ answer → length text < 7 → Split text reasoning answer
  unfinished :
      answer ≡ []
      → text ≡ open_tag ++ reasoning
      → find close_tag reasoning ≡ none
      → Split text reasoning answer

-- What a state holds of the text so far.
record Holds (text : List ℕ) (t : ThinkSplit) : Type 0 where
  at_init :
      t.mode ≡ init → (t.reasoning ≡ []) × (t.answer ≡ []) × (text ≡ t.buf) × (length t.buf < 7)
  at_thinking :
      t.mode ≡ thinking
      → (t.answer ≡ [])
        × (text ≡ open_tag ++ (t.reasoning ++ t.buf))
        × (find close_tag (t.reasoning ++ t.buf) ≡ none)
        × ((t.reasoning ≡ []) ⊎ (7 ≤ length t.buf))
  at_content : t.mode ≡ content → (t.buf ≡ []) × Answered text t.reasoning t.answer

mode_elim :
    {A : Type 0} (P : A → Type 0) (m : Mode) {x y z : A}
    → (m ≡ init → P x)
    → (m ≡ thinking → P y)
    → (m ≡ content → P z)
    → P (elim m [ init ↦ x | thinking ↦ y | content ↦ z ])
mode_elim P init p q r = p refl
mode_elim P thinking p q r = q refl
mode_elim P content p q r = r refl

feed_content-Holds :
    (text : List ℕ) (t : ThinkSplit)
    → Answered text t.reasoning (t.answer ++ t.buf)
    → Holds text (feed_content t)
unfolding feed_content
feed_content-Holds text t s = record {
  at_init = λ e. absurd (cc);
  at_thinking = λ e. absurd (cc);
  at_content = λ e. (refl, s);
}

feed_thinking-Holds :
    (text : List ℕ) (t : ThinkSplit)
    → t.answer ≡ []
    → text ≡ open_tag ++ (t.reasoning ++ t.buf)
    → find close_tag (t.reasoning ++ t.buf) ≡ later (length t.reasoning) (find close_tag t.buf)
    → (t.reasoning ≡ []) ⊎ (7 ≤ length t.buf)
    → Holds text (feed_thinking t)
unfolding feed_thinking
feed_thinking-Holds text t a e clear room =
    option_elim (Holds text) (find close_tag t.buf)
      (λ none_found.
        if_elim (Holds text) (ltb 8 (length t.buf))
          (λ long. record {
            at_init = λ e. absurd (cc);
            at_thinking =
                λ m. (a, cut, ap (find close_tag) same ∙ none_yet none_found, inr (kept long));
            at_content = λ e. absurd (cc);
          })
          (λ short. record {
            at_init = λ e. absurd (cc);
            at_thinking = λ m. (a, e, none_yet none_found, room);
            at_content = λ e. absurd (cc);
          }))
      (λ n found. feed_content-Holds text (closing n) (closed n found))
  where
    closing : ℕ → ThinkSplit
    closing n = record t {
      buf = eat_separator (drop (n + 8) t.buf);
      reasoning = t.reasoning ++ take n t.buf;
    }

    same :
        (t.reasoning ++ take (length t.buf - 7) t.buf) ++ drop (length t.buf - 7) t.buf
        ≡ t.reasoning ++ t.buf
    same =
        append_assoc t.reasoning _ _
        ∙ ap (◌++◌ t.reasoning) (take-append-drop (length t.buf - 7) t.buf)

    cut :
        text
        ≡ open_tag
          ++ ((t.reasoning ++ take (length t.buf - 7) t.buf) ++ drop (length t.buf - 7) t.buf)
    cut = e ∙ ap (λ (x : List ℕ). open_tag ++ x) (sym same)

    none_yet : find close_tag t.buf ≡ none → find close_tag (t.reasoning ++ t.buf) ≡ none
    none_yet absent = clear ∙ ap (later (length t.reasoning)) absent

    kept : ltb 8 (length t.buf) ≡ true → 7 ≤ length (drop (length t.buf - 7) t.buf)
    kept long = ground (arith, length-drop (length t.buf - 7) t.buf)

    closed :
        (n : ℕ)
        → find close_tag t.buf ≡ some n
        → Answered text
            (t.reasoning ++ take n t.buf)
            (t.answer ++ eat_separator (drop (n + 8) t.buf))
    closed n found =
        let ate = eat_separator-Eaten (drop (n + 8) t.buf) in
        let tail : drop 8 (drop n t.buf) ≡ ate.eaten ++ eat_separator (drop (n + 8) t.buf) =
          drop-drop n 8 (n + 8) t.buf refl ∙ ate.whole in
        subst
          (λ (x : List ℕ).
            Answered text (t.reasoning ++ take n t.buf) (x ++ eat_separator (drop (n + 8) t.buf)))
          (sym a)
          (both ate.eaten ate.separators
            (e
              ∙ ap (λ (x : List ℕ). open_tag ++ x)
                  (ap (◌++◌ t.reasoning) (
                      find-split close_tag t.buf n found
                      ∙ ap (λ (x : List ℕ). take n t.buf ++ (close_tag ++ x)) tail)
                    ∙ sym (append_assoc t.reasoning (take n t.buf) _)))
            (find-front close_tag t.reasoning t.buf n found clear))

feed_init-Holds :
    (text : List ℕ) (t : ThinkSplit)
    → t.mode ≡ init
    → t.reasoning ≡ []
    → t.answer ≡ []
    → text ≡ t.buf
    → Holds text (feed_init t)
unfolding feed_init
feed_init-Holds text t m r a e =
    if_elim (Holds text) (ltb (length t.buf) 7 && starts_with t.buf open_tag)
      (λ waits. record {
        at_init = λ k. (r, a, e, ground arith);
        at_thinking = λ k. absurd (cc);
        at_content = λ k. absurd (cc);
      })
      (λ goes.
        if_elim (Holds text) (starts_with open_tag t.buf)
          (λ opened.
            feed_thinking-Holds text (record t { buf = drop 7 t.buf }) a
              (e
                ∙ (starts_with-split open_tag t.buf opened
                    ∙ ap (λ (x : List ℕ). open_tag ++ (x ++ drop 7 t.buf)) (sym r)))
              (at_start (drop 7 t.buf)) (inl r))
          (λ plain_text. feed_content-Holds text t (
            plain r (e ∙ ap (λ (x : List ℕ). x ++ t.buf) (sym a)) (λ more.
              ap (λ x. starts_with open_tag (x ++ more)) e
              ∙ never_starts open_tag t.buf more goes plain_text))))
  where
    at_start :
        (b : List ℕ)
        → find close_tag (t.reasoning ++ b) ≡ later (length t.reasoning) (find close_tag b)
    at_start b = rw r (later_zero (find close_tag b))

append_more :
    (text chunk r ws a : List ℕ)
    → text ≡ open_tag ++ (r ++ (close_tag ++ (ws ++ a)))
    → text ++ chunk ≡ open_tag ++ (r ++ (close_tag ++ (ws ++ (a ++ chunk))))
append_more text chunk r ws a e =
    ap (λ (x : List ℕ). x ++ chunk) e
    ∙ ap (λ (x : List ℕ). open_tag ++ x)
        (append_assoc r (close_tag ++ (ws ++ a)) chunk
          ∙ ap (λ (x : List ℕ). r ++ (close_tag ++ x)) (append_assoc ws a chunk))

more-Answered :
    (text chunk r a : List ℕ) → Answered text r a → Answered (text ++ chunk) r (a ++ chunk)
more-Answered text chunk r a (plain e f n) =
    plain e (ap (λ (x : List ℕ). x ++ chunk) f)
      (λ more. ap (starts_with open_tag) (append_assoc text chunk more) ∙ n (chunk ++ more))
more-Answered text chunk r a (both ws s f n) = both ws s (append_more text chunk r ws a f) n

feed-Holds :
    (text chunk : List ℕ) (t : ThinkSplit) → Holds text t → Holds (text ++ chunk) (feed chunk t)
unfolding feed
feed-Holds text chunk t h =
    mode_elim (Holds (text ++ chunk)) t.mode
      (λ m.
        let (r, a, e, few) = h.at_init m in
        feed_init-Holds (text ++ chunk) (record t { buf = t.buf ++ chunk }) m r a
          (ap (λ (x : List ℕ). x ++ chunk) e))
      (λ m.
        let (a, e, absent, room) = h.at_thinking m in
        feed_thinking-Holds (text ++ chunk) (record t { buf = t.buf ++ chunk }) a
          (ap (λ (x : List ℕ). x ++ chunk) e
            ∙ ap (λ (x : List ℕ). open_tag ++ x) (append_assoc t.reasoning t.buf chunk))
          (find_past close_tag t.reasoning t.buf chunk (fits room) absent) (wider room))
      (λ m.
        let (e, s) = h.at_content m in
        feed_content-Holds (text ++ chunk) (record t { buf = t.buf ++ chunk })
          (subst (λ (x : List ℕ). Answered (text ++ chunk) t.reasoning (t.answer ++ (x ++ chunk)))
            (sym e) (more-Answered text chunk t.reasoning t.answer s)))
  where
    fits : (t.reasoning ≡ []) ⊎ (7 ≤ length t.buf) → (t.reasoning ≡ []) ⊎ (8 ≤ suc (length t.buf))
    fits (inl none_yet) = inl none_yet
    fits (inr l) = inr (omega arith)

    wider :
        (t.reasoning ≡ []) ⊎ (7 ≤ length t.buf) → (t.reasoning ≡ []) ⊎ (7 ≤ length (t.buf ++ chunk))
    wider (inl none_yet) = inl none_yet
    wider (inr l) = inr (omega (arith, l, length-append t.buf chunk))

abbrev pub joined : List (List ℕ) → List ℕ
joined [] = []
joined (c ∷ cs) = c ++ joined cs

feed_all-Holds :
    (chunks : List (List ℕ)) (text : List ℕ) (t : ThinkSplit)
    → Holds text t
    → Holds (text ++ joined chunks) (feed_all chunks t)
unfolding feed_all
feed_all-Holds [] text t h = subst (λ (x : List ℕ). Holds x t) (sym (append-nil text)) h
feed_all-Holds (c ∷ cs) text t h =
    subst (λ (x : List ℕ). Holds x (feed_all cs (feed c t))) (append_assoc text c (joined cs))
      (feed_all-Holds cs (text ++ c) (feed c t) (feed-Holds text c t h))

-- The split of a text by a state.
record SplitBy (text : List ℕ) (t : ThinkSplit) : Type 0 where
  split : Split text t.reasoning t.answer

flush-SplitBy : (text : List ℕ) (t : ThinkSplit) → Holds text t → SplitBy text (flush t)
unfolding flush
flush-SplitBy text t h =
    mode_elim (SplitBy text) t.mode
      (λ m.
        let (r, a, e, few) = h.at_init m in
        record {
          split =
              short r (e ∙ ap (λ (x : List ℕ). x ++ t.buf) (sym a))
                (subst (λ (x : List ℕ). length x < 7) (sym e) few);
        })
      (λ m. let (a, e, absent, room) = h.at_thinking m in record { split = unfinished a e absent })
      (λ m.
        let (e, s) = h.at_content m in
        record {
          split = answered (
              subst (Answered text t.reasoning)
                (sym (append-nil t.answer) ∙ ap (◌++◌ t.answer) (sym e)) s);
        })

-- However a text is cut into chunks, feeding them and flushing splits it the same way, but for the
-- newlines and spaces behind </think>: a text that does not start with <think> is the answer; in one
-- that does, the reasoning goes up to the first </think>, and the answer is behind it and some newlines
-- and spaces; or there is none, and all behind <think> is the reasoning, with no answer.
pub feed_all-Split :
    (chunks : List (List ℕ))
    → let t = flush (feed_all chunks fresh) in Split (joined chunks) t.reasoning t.answer
feed_all-Split chunks =
    (flush-SplitBy (joined chunks) _ (
      feed_all-Holds chunks [] fresh (record {
        at_init = λ m. (refl, refl, refl, omega arith);
        at_thinking = λ m. absurd (cc);
        at_content = λ m. absurd (cc);
      }))).split
