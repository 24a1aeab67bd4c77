-- ===== src/Server/Stream/Whole.antt =====
-- A client that stays gets, in deltas, the reasoning and the content of the answer that is not streamed;
-- or, where a text cannot be written as JSON, an error behind the deltas so far.
use reflex_llm.Base.{ℕ, ◌≡◌, ◌⊎◌, Bool, true, false, List, [], ◌∷◌, ◌++◌, map}
use reflex_llm.Server.Think.{ThinkSplit}
use reflex_llm.Server.Completion.{build_completion}
use reflex_llm.Server.Stream.{
  Segment, role, delta, error, finish, end, text_of, Stream, opened, write,
}
use reflex_llm.Server.Stream.Deltas.{reasoning_in, answer_in, collect}
use reflex_llm.Server.Stream.Grown.{Grown, Written}

module _ (accepts : ℕ → Bool) (stays : (n : ℕ) → accepts n ≡ true) (dumps : List ℕ → Bool) where
  module _ (decode : ℕ → List ℕ) where
    -- The tokens have been streamed: `t` is the splitter that has collected them all.
    record Carried (t : ThinkSplit) (s : Stream) (p : ThinkSplit × Stream) : Type 0 where
      xs : List Segment
      written : Written accepts stays dumps s xs p.1
      collected : t ≡ collect p.0 p.1

    -- How the stream of these tokens ends, for a client that stays: whole, or with an error, because
    -- the JSON library could not write a segment.
    pub record Whole (delivered : List (ℕ × Bool)) (s : Stream) : Type 0 where
      pub xs : List Segment
      pub chunks : s.tried ≡ role ∷ (map delta xs ++ finish ∷ end ∷ [])
      pub reasoning_right : reasoning_in s.tried ≡ (build_completion decode delivered).reasoning
      pub answer_right : answer_in s.tried ≡ (build_completion decode delivered).answer
      pub not_stopped : s.stopped ≡ false

    pub record Cut (s : Stream) : Type 0 where
      pub xs : List Segment
      pub chunks : s.tried ≡ role ∷ (map delta xs ++ error ∷ end ∷ [])
      pub culprit : Segment
      pub refused : dumps (text_of culprit) ≡ false
      pub not_stopped : s.stopped ≡ false

    start : Stream
    start = write accepts dumps role opened

    -- How the stream ends, by what the tokens and the flush did.
    Ends : List (ℕ × Bool) → Stream → Type 0
    Ends delivered s = Whole delivered s ⊎ Cut s
