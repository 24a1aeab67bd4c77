-- ===== src/Server/Stream/Deltas.antt =====
-- What the deltas of a stream spell, and what a splitter that starts anew adds to what was collected.
use reflex_llm.Base.{
  ℕ, ◌≡◌, refl, ap, sym, ◌∙◌, inl, inr, List, [], ◌∷◌, ◌++◌, map, length, drop, append-nil,
  append_assoc, Bool-cases, Option-cases, ltb, arith,
}
use reflex_llm.Server.Think.{
  ThinkSplit, feed, feed_content, feed_thinking, feed_init, flush, find, close_tag,
}
use reflex_llm.Server.Stream.{
  reasoning, answer, Chunk, role, delta, error, finish, end, Stream, segment_of, emitted,
}

-- The text of the deltas of one kind.
abbrev pub reasoning_in : List Chunk → List ℕ
reasoning_in [] = []
reasoning_in (delta (reasoning t) ∷ cs) = t ++ reasoning_in cs
reasoning_in (c ∷ cs) = reasoning_in cs

abbrev pub answer_in : List Chunk → List ℕ
answer_in [] = []
answer_in (delta (answer t) ∷ cs) = t ++ answer_in cs
answer_in (c ∷ cs) = answer_in cs

-- What a splitter collects on top of what was collected before.
abbrev pub onto : (r a : List ℕ) → ThinkSplit → ThinkSplit
onto r a u = record u { reasoning = r ++ u.reasoning; answer = a ++ u.answer }

feed_content-onto :
    (r a : List ℕ) (t : ThinkSplit) → feed_content (onto r a t) ≡ onto r a (feed_content t)
unfolding feed_content
feed_content-onto r a t = simp append_assoc

feed_thinking-onto :
    (r a : List ℕ) (t : ThinkSplit) → feed_thinking (onto r a t) ≡ onto r a (feed_thinking t)
unfolding feed_thinking feed_content
feed_thinking-onto r a t = elim (Option-cases (find close_tag t.buf)) [
  | inl absent ↦ elim (Bool-cases (ltb 8 (length t.buf))) [
    | inl long ↦ rw (absent, feed_thinking, long) (simp append_assoc)
    | inr short ↦ rw (absent, feed_thinking, short) refl
  ]
  | inr (n, at) ↦ rw (at, feed_thinking) (simp append_assoc)
]

feed_init-onto : (r a : List ℕ) (t : ThinkSplit) → feed_init (onto r a t) ≡ onto r a (feed_init t)
unfolding feed_init
feed_init-onto r a t =
    ground
      (arith, feed_thinking-onto r a (record t { buf = drop 7 t.buf }), feed_content-onto r a t)

pub feed-onto : (c r a : List ℕ) (t : ThinkSplit) → feed c (onto r a t) ≡ onto r a (feed c t)
unfolding feed
feed-onto c r a t =
    let u : ThinkSplit = record t { buf = t.buf ++ c } in
    ground (arith, feed_init-onto r a u, feed_thinking-onto r a u, feed_content-onto r a u)

pub flush-onto : (r a : List ℕ) (t : ThinkSplit) → flush (onto r a t) ≡ onto r a (flush t)
unfolding flush
flush-onto r a t = ground (arith, append_assoc r t.reasoning t.buf, append_assoc a t.answer t.buf)

pub reasoning_in-append :
    (xs ys : List Chunk) → reasoning_in (xs ++ ys) ≡ reasoning_in xs ++ reasoning_in ys
reasoning_in-append [] ys = refl
reasoning_in-append (role ∷ xs) ys = reasoning_in-append xs ys
reasoning_in-append (delta (reasoning t) ∷ xs) ys =
    ap (λ z. t ++ z) (reasoning_in-append xs ys)
    ∙ sym (append_assoc t (reasoning_in xs) (reasoning_in ys))
reasoning_in-append (delta (answer t) ∷ xs) ys = reasoning_in-append xs ys
reasoning_in-append (error ∷ xs) ys = reasoning_in-append xs ys
reasoning_in-append (finish ∷ xs) ys = reasoning_in-append xs ys
reasoning_in-append (end ∷ xs) ys = reasoning_in-append xs ys

pub answer_in-append : (xs ys : List Chunk) → answer_in (xs ++ ys) ≡ answer_in xs ++ answer_in ys
answer_in-append [] ys = refl
answer_in-append (role ∷ xs) ys = answer_in-append xs ys
answer_in-append (delta (reasoning t) ∷ xs) ys = answer_in-append xs ys
answer_in-append (delta (answer t) ∷ xs) ys =
    ap (λ z. t ++ z) (answer_in-append xs ys) ∙ sym (append_assoc t (answer_in xs) (answer_in ys))
answer_in-append (error ∷ xs) ys = answer_in-append xs ys
answer_in-append (finish ∷ xs) ys = answer_in-append xs ys
answer_in-append (end ∷ xs) ys = answer_in-append xs ys

abbrev pub deltas : ThinkSplit → List Chunk
deltas u = map delta (emitted u)

-- The deltas of a splitter carry what it has collected.
pub reasoning_in-deltas : (u : ThinkSplit) → reasoning_in (deltas u) ≡ u.reasoning
reasoning_in-deltas u = kinds u.reasoning u.answer
  where
    kinds :
        (r a : List ℕ)
        → reasoning_in (map delta (segment_of reasoning r ++ segment_of answer a)) ≡ r
    kinds [] [] = refl
    kinds [] (y ∷ ys) = refl
    kinds (x ∷ xs) [] = append-nil (x ∷ xs)
    kinds (x ∷ xs) (y ∷ ys) = append-nil (x ∷ xs)

pub answer_in-deltas : (u : ThinkSplit) → answer_in (deltas u) ≡ u.answer
answer_in-deltas u = kinds u.reasoning u.answer
  where
    kinds :
        (r a : List ℕ) → answer_in (map delta (segment_of reasoning r ++ segment_of answer a)) ≡ a
    kinds [] [] = refl
    kinds [] (y ∷ ys) = append-nil (y ∷ ys)
    kinds (x ∷ xs) [] = refl
    kinds (x ∷ xs) (y ∷ ys) = append-nil (y ∷ ys)

-- A splitter with what a stream has carried so far.
unfoldable pub collect : ThinkSplit → Stream → ThinkSplit
collect t s = record t { reasoning = reasoning_in s.tried; answer = answer_in s.tried }
