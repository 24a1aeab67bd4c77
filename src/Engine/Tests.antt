-- ===== src/Engine/Tests.antt =====
-- Tests of the engine's turns, and their theorems at a pool of two layers and four positions.
use reflex_llm.Base.{
  take, ℕ, ◌≡◌, ◌≤◌, ◌<◌, ◌+◌, refl, List, [], ◌∷◌, some, none, Bool, true, false, arith, get_elem?,
  if◌then◌else◌, ◌==◌,
}
use reflex_llm.Base.Int.{pos}
use reflex_llm.KvCache.{
  Mem, zeros, Config, KvCachePool, entry_bytes, packed_used_bytes, gather_layer,
  gather_used_to_host, for_layers,
}
use reflex_llm.KvCache.Layout.{half, slot}
use reflex_llm.KvCache.Scatter.{byte}
use reflex_llm.Persistence.Bytes.{le, encode_tokens}
use reflex_llm.Persistence.Header.{Fits}
use reflex_llm.Persistence.Files.{Files}
use reflex_llm.Persistence.Save.{SaveCalls, write_all, write_and_rename, save_kv_to_file}
use reflex_llm.Persistence.Load.{LoadCalls}
use reflex_llm.Persistence.Load.RoundTrip.{AllWork}
use reflex_llm.Persistence.Budget.{list_kv_files}
use reflex_llm.ConversationId.{is_id_char, all_id_chars, validate_conversation_id}
use reflex_llm.Engine.Hydrate.{HydrateCalls, common_prefix, try_hydrate_kv}
use reflex_llm.Engine.SaveTurn.{
  TurnCalls, bytes_of, turn_header, save_packed, save_turn, zero_bytes,
}
use reflex_llm.Engine.Saved.{common_prefix-longest}
use reflex_llm.Engine.Resume.{CanResume, hydrate-save_turn}
use reflex_llm.Engine.Generate.{
  Cells, Turn, World, generate, done, decode, decode_loop, round, track, decode_and_deliver,
  decode_step, deliver_first, after_prefill, prefill, write_kv, push_recent,
}
use reflex_llm.Engine.Generate.Tracks.{generate-kv_tokens}
use reflex_llm.Engine.Generate.Eos.{EndsAtEos, generate-EndsAtEos}
use reflex_llm.Engine.Generate.Limits.{Within, generate-Within}

abbrev shape : Config
shape = record {
  n_layers = 2;
  n_kv_heads = 1;
  head_dim = 2;
  max_context = 4;
  overflow_context = 0;
  kv_type_bytes = 1;
}

abbrev counting : Mem
counting a = a

abbrev first_pool : KvCachePool
first_pool = record {
  cfg = shape;
  gpu_pool = some counting;
  cpu_pool = none;
  kv_scales = false;
  used_tokens = 4;
  gpu_tokens = pos 4;
}

abbrev second_pool : KvCachePool
second_pool = record first_pool { gpu_pool = some zeros }

abbrev saves : SaveCalls
saves = record {
  opens = true;
  header_write = 128;
  token_writes = λ k. 64;
  body_writes = λ k. 64;
  syncs = true;
  renames = true;
  unlinks = true;
}

abbrev turn_calls : TurnCalls
turn_calls = record {
  cuda = λ l k. true;
  ensures_dir = true;
  save = saves;
  now = 100;
  stale_s = 60;
  max_bytes = 1000000;
  unlinks = λ p. true;
  sort = λ es. es;
  first_listing = [];
  second_listing = [];
}

abbrev reads : LoadCalls
reads = record {
  opens = true;
  header_read = 128;
  stats = true;
  token_reads = λ k. 1;
  seeks = true;
  body_reads = λ k. 1;
}

reads-AllWork : AllWork reads
reads-AllWork = record {
  opened = refl;
  header_whole = omega arith;
  statted = refl;
  tokens_come = λ i. omega arith;
  body_comes = λ i. omega arith;
}

abbrev hydrate_calls : HydrateCalls
hydrate_calls = record { peek = reads; load = reads; cuda = λ l k. true }

abbrev dir : List ℕ
dir = 47 ∷ 100 ∷ []

abbrev id : List ℕ
id = 97 ∷ []

abbrev kv_tokens : List ℕ
kv_tokens = 5 ∷ 6 ∷ 7 ∷ 8 ∷ []

abbrev disk : Files
disk p = none

fits : Fits (turn_header shape (zero_bytes 32) 4)
unfolding turn_header packed_used_bytes entry_bytes
fits = record {
  magic_32 = omega arith;
  version_32 = omega arith;
  n_layers_32 = omega arith;
  n_kv_heads_32 = omega arith;
  head_dim_32 = omega arith;
  kv_type_bytes_32 = omega arith;
  max_context_32 = omega arith;
  used_tokens_32 = omega arith;
  body_bytes_64 = omega arith;
  model_hash_32 = refl;
  reserved_56 = refl;
}

can_resume :
    CanResume turn_calls hydrate_calls dir
      (zero_bytes 32)
      first_pool
      second_pool
      kv_tokens
      id
      counting
      zeros
unfolding list_kv_files packed_used_bytes entry_bytes
can_resume = record {
  first_pool = refl;
  second_pool = refl;
  same_shape = refl;
  header_fits = fits;
  size_small = omega arith;
  tokens_32 = (omega arith, (omega arith, (omega arith, (omega arith, tt))));
  peek_works = reads-AllWork;
  load_works = reads-AllWork;
  cuda_works = refl;
  not_listed = tt;
}

turn_saved : (save_turn turn_calls dir (zero_bytes 32) false first_pool kv_tokens id disk).0 ≡ true
unfolding save_turn save_packed save_kv_to_file write_and_rename write_all encode_tokens le bytes_of
    turn_header packed_used_bytes entry_bytes gather_used_to_host gather_layer for_layers
    validate_conversation_id all_id_chars is_id_char
turn_saved = refl

-- A prompt that shares two tokens with the turn saved.
hydrate-save_turn_example :
    let out =
      try_hydrate_kv hydrate_calls dir
        (zero_bytes 32)
        (save_turn turn_calls dir (zero_bytes 32) false first_pool kv_tokens id disk).1
        (5 ∷ 6 ∷ 9 ∷ [])
        id
        second_pool in
    (out.0 ≡ common_prefix kv_tokens (5 ∷ 6 ∷ 9 ∷ []))
    × ((l a j : ℕ) (v : Bool)
        → l < 2
        → a < out.0
        → j < half shape
        → byte out.1.gpu_pool (slot shape 4 l v a + j) ≡ counting (slot shape 4 l v a + j))
hydrate-save_turn_example =
    hydrate-save_turn turn_calls hydrate_calls dir (zero_bytes 32) first_pool second_pool kv_tokens
      id counting zeros disk 5 (6 ∷ 9 ∷ []) can_resume turn_saved

abbrev world : World
world = record {
  kv_token_limit = 16;
  bos_id = 1;
  eos_id = 2;
  first = some 40;
  logits = λ i. true;
  token = λ i. if i == 2 then 2 else 41;
  stopped = λ i. false;
  can_extend = λ p. true;
}

abbrev cold : List ℕ → ℕ × Cells
cold tokens = (0, λ a. none)

-- A prompt of two tokens, three tokens delivered, the last of them EOS: four are in the cache.
abbrev ended : Turn
ended = record {
  pos = 4;
  last_token = 2;
  recent_tokens = 40 ∷ 41 ∷ 2 ∷ [];
  kv_tokens = 7 ∷ 8 ∷ 40 ∷ 41 ∷ [];
  cells = write_kv (write_kv (write_kv (write_kv (λ a. none) 0 7) 1 8) 2 40) 3 41;
  delivered = (40, false) ∷ (41, false) ∷ (2, true) ∷ [];
  completion_tokens = 3;
  oom_stops = 0;
}

ends : generate world 10 2 (7 ∷ 8 ∷ []) cold ≡ done ended
unfolding generate decode decode_loop round track decode_and_deliver decode_step deliver_first
    after_prefill prefill push_recent
ends = refl

-- Where `max_tokens` is 0, the token sampled from the prefill is delivered all the same.
none_wanted :
    generate world 0 2 (7 ∷ 8 ∷ []) cold
    ≡ done (record {
      pos = 2;
      last_token = 40;
      recent_tokens = 40 ∷ [];
      kv_tokens = 7 ∷ 8 ∷ [];
      cells = write_kv (write_kv (λ a. none) 0 7) 1 8;
      delivered = (40, false) ∷ [];
      completion_tokens = 1;
      oom_stops = 0;
    })
unfolding generate decode decode_loop deliver_first after_prefill prefill push_recent
none_wanted = refl

generate-kv_tokens_example : ended.cells 3 ≡ get_elem? (7 ∷ 8 ∷ 40 ∷ 41 ∷ []) 3
generate-kv_tokens_example =
    generate-kv_tokens world 10 2 (7 ∷ 8 ∷ []) cold ended ends (omega arith)
      (λ a h. absurd (omega arith)) 3 (omega arith)

generate-Within_example : Within 16 (7 ∷ 8 ∷ []) 10 ended
generate-Within_example = generate-Within world 10 2 (7 ∷ 8 ∷ []) cold ended ends

generate-EndsAtEos_example : EndsAtEos 2 ended
generate-EndsAtEos_example = generate-EndsAtEos world 10 2 (7 ∷ 8 ∷ []) cold ended ends

common_prefix-longest_example :
    (take (common_prefix kv_tokens (5 ∷ 6 ∷ 9 ∷ [])) kv_tokens
      ≡ take (common_prefix kv_tokens (5 ∷ 6 ∷ 9 ∷ [])) (5 ∷ 6 ∷ 9 ∷ []))
    × (common_prefix kv_tokens (5 ∷ 6 ∷ 9 ∷ []) ≤ 4)
    × (common_prefix kv_tokens (5 ∷ 6 ∷ 9 ∷ []) ≤ 3)
    × (1 ≤ common_prefix kv_tokens (5 ∷ 6 ∷ 9 ∷ []))
common_prefix-longest_example =
    common_prefix-longest kv_tokens (5 ∷ 6 ∷ 9 ∷ []) 1 (omega arith) (omega arith) refl
