-- ===== src/Server/Stream.antt =====
-- `stream_chat_completion`: the chunks that are written for a streamed answer. A chunk is the JSON that
-- it carries. Which calls of `sink.write` succeed is an argument, by their number; and so is which
-- texts the JSON library can write (`dumps`): it throws for a text that is not UTF-8.
pub mod Deltas
pub mod Grown
pub mod Whole
pub mod Broken
use reflex_llm.Base.{
  ℕ, zero, suc, ◌+◌, Bool, true, false, not, List, [], ◌∷◌, ◌++◌, ◌&&◌, ◌||◌, if◌then◌else◌, c_str,
}
use reflex_llm.Server.Think.{ThinkSplit, feed, flush, fresh}

pub data Segment : Type 0 where
  reasoning : List ℕ → Segment
  answer : List ℕ → Segment

pub data Chunk : Type 0 where
  role : Chunk
  delta : Segment → Chunk
  error : Chunk
  finish : Chunk
  end : Chunk

abbrev pub text_of : Segment → List ℕ
text_of (reasoning t) = t
text_of (answer t) = t

-- What was handed to `sink.write` (whether it succeeded or not), `client_alive`, whether `engine.stop`
-- was called, and whether an exception is on its way or was caught.
pub record Stream : Type 0 where
  pub tried : List Chunk
  pub count : ℕ
  pub client_alive : Bool
  pub stopped : Bool
  pub errored : Bool

abbrev pub opened : Stream
opened = record { tried = []; count = 0; client_alive = true; stopped = false; errored = false }

module _ (accepts : ℕ → Bool) (dumps : List ℕ → Bool) where
  -- `sink.write`
  unfoldable pub write : Chunk → Stream → Stream
  write c s = record s { tried = s.tried ++ (c ∷ []); count = suc s.count }

  -- An exception of `dump` goes through `feed`, `token_cb` and `generate`, so that nothing is emitted
  -- after it.
  unfoldable pub emit_segment : Segment → Stream → Stream
  unfolding write
  emit_segment seg s =
      let sent = write (delta seg) s in
      let lost : Stream = record sent { client_alive = false; stopped = true } in
      if not s.client_alive || s.errored
      then s
      else (if not (dumps (text_of seg))
          then record s { errored = true }
          else (if accepts s.count then sent else lost))

  unfoldable pub emit_all : List Segment → Stream → Stream
  unfolding emit_segment
  emit_all [] s = s
  emit_all (x ∷ xs) s = emit_all xs (emit_segment x s)

-- What `feed` and `flush` emit: the splitter is run on its own, with nothing collected so far. It emits
-- no empty segment, and reasoning before content.
abbrev pub segment_of : (List ℕ → Segment) → List ℕ → List Segment
segment_of kind [] = []
segment_of kind (c ∷ cs) = kind (c ∷ cs) ∷ []

abbrev pub emitted : ThinkSplit → List Segment
emitted t = segment_of reasoning t.reasoning ++ segment_of answer t.answer

abbrev pub emptied : ThinkSplit → ThinkSplit
emptied t = record t { reasoning = []; answer = [] }

module _ (accepts : ℕ → Bool) (dumps : List ℕ → Bool) (decode : ℕ → List ℕ) where
  -- `token_cb`; it is not called any more once it has thrown.
  unfoldable pub token_cb : ℕ × Bool → ThinkSplit × Stream → ThinkSplit × Stream
  unfolding emit_all
  token_cb (id, eos) (t, s) =
      let u = feed (c_str (decode id)) (emptied t) in
      let fed : ThinkSplit × Stream = (emptied u, emit_all accepts dumps (emitted u) s) in
      if not s.client_alive || s.errored then (t, s) else (if eos then (t, s) else fed)

  unfoldable pub token_cbs : List (ℕ × Bool) → ThinkSplit × Stream → ThinkSplit × Stream
  unfolding token_cb
  token_cbs [] p = p
  token_cbs (d ∷ ds) p = token_cbs ds (token_cb d p)

  -- The try block: `generate` delivers tokens, and then returns or throws; where it returns, the
  -- splitter is flushed, which may throw as well.
  unfoldable pub try_generate : (threw : Bool) → List (ℕ × Bool) → Stream → Stream
  unfolding token_cbs
  try_generate threw delivered s =
      let p = token_cbs delivered (fresh, s) in
      if threw || p.1.errored
      then record p.1 { errored = true }
      else emit_all accepts dumps (emitted (flush (emptied p.0))) p.1

  -- The catch block.
  unfoldable pub report : Stream → Stream
  unfolding write
  report s = if s.errored && s.client_alive then write accepts dumps error s else s

  -- The end of the stream, for a client that has not been lost.
  unfoldable pub close : Stream → Stream
  unfolding write
  close s =
      let finished = if s.errored then s else write accepts dumps finish s in
      if s.client_alive then write accepts dumps end finished else s

  -- The content provider.
  unfoldable pub stream_chat_completion : (threw : Bool) → List (ℕ × Bool) → Stream
  unfolding close report try_generate
  stream_chat_completion threw delivered =
      let s = write accepts dumps role opened in
      if accepts 0 then close (report (try_generate threw delivered s)) else s
