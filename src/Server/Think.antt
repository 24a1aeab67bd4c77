-- ===== src/Server/Think.antt =====
-- `ThinkSplit`. The segments that it emits are added up by kind, as `absorb` in `build_completion`
-- does with them.
pub mod Find
pub mod Lossless
use reflex_llm.Base.{
  ℕ, zero, suc, ◌+◌, ◌-◌, ◌≤◌, ◌<◌, ◌≡◌, refl, ap, sym, ◌∙◌, subst, ◌⊎◌, inl, inr, Bool, true,
  false, not, ◌&&◌, ◌||◌, Option, none, some, List, [], ◌∷◌, ◌++◌, length, take, drop, append-nil,
  append_assoc, take-append-drop, starts_with, arith, All, ltb, leb, ◌==◌, if◌then◌else◌, if_elim,
  option_elim,
}

-- <think>
abbrev pub open_tag : List ℕ
open_tag = 60 ∷ 116 ∷ 104 ∷ 105 ∷ 110 ∷ 107 ∷ 62 ∷ []

-- </think>
abbrev pub close_tag : List ℕ
close_tag = 60 ∷ 47 ∷ 116 ∷ 104 ∷ 105 ∷ 110 ∷ 107 ∷ 62 ∷ []

pub data Mode : Type 0 where
  init : Mode
  thinking : Mode
  content : Mode

pub record ThinkSplit : Type 0 where
  pub mode : Mode
  pub buf : List ℕ
  pub reasoning : List ℕ
  pub answer : List ℕ

-- `buf.find(s)`
unfoldable pub find : (s buf : List ℕ) → Option ℕ
find s [] = if starts_with s [] then some 0 else none
find s (c ∷ cs) =
    let later : Option ℕ = elim (find s cs) [ none ↦ none | some n ↦ some (suc n) ] in
    if starts_with s (c ∷ cs) then some 0 else later

-- The newlines and spaces in front are dropped.
unfoldable pub eat_separator : List ℕ → List ℕ
eat_separator [] = []
eat_separator (c ∷ cs) =
    let rest = eat_separator cs in if (c == 10) || (c == 32) then rest else c ∷ cs

-- The rounds of the loop in `feed`, by mode: each leads to a later mode or returns.
unfoldable pub feed_content : ThinkSplit → ThinkSplit
feed_content t = record t { mode = content; buf = []; answer = t.answer ++ t.buf }

unfoldable pub feed_thinking : ThinkSplit → ThinkSplit
unfolding feed_content
feed_thinking t =
    let safe = length t.buf - 7 in
    let kept : ThinkSplit =
      if ltb 8 (length t.buf)
      then record t {
        mode = thinking;
        buf = drop safe t.buf;
        reasoning = t.reasoning ++ take safe t.buf;
      }
      else record t { mode = thinking } in
    elim (find close_tag t.buf) [
      | none ↦ kept
      | some n ↦ feed_content (record t {
        buf = eat_separator (drop (n + 8) t.buf);
        reasoning = t.reasoning ++ take n t.buf;
      })
    ]

unfoldable pub feed_init : ThinkSplit → ThinkSplit
unfolding feed_thinking
feed_init t =
    if ltb (length t.buf) 7 && starts_with t.buf open_tag
    then t
    else (if starts_with open_tag t.buf
        then feed_thinking (record t { buf = drop 7 t.buf })
        else feed_content t)

unfoldable pub feed : (chunk : List ℕ) → ThinkSplit → ThinkSplit
unfolding feed_init
feed chunk t =
    let u : ThinkSplit = record t { buf = t.buf ++ chunk } in
    elim t.mode [ init ↦ feed_init u | thinking ↦ feed_thinking u | content ↦ feed_content u ]

unfoldable pub flush : ThinkSplit → ThinkSplit
flush t = elim t.mode [
  | init ↦ record t { buf = []; answer = t.answer ++ t.buf }
  | thinking ↦ record t { buf = []; reasoning = t.reasoning ++ t.buf }
  | content ↦ record t { buf = []; answer = t.answer ++ t.buf }
]

abbrev pub fresh : ThinkSplit
fresh = record { mode = init; buf = []; reasoning = []; answer = [] }

unfoldable pub feed_all : List (List ℕ) → ThinkSplit → ThinkSplit
unfolding feed
feed_all [] t = t
feed_all (c ∷ cs) t = feed_all cs (feed c t)
