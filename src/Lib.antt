-- ===== src/Lib.antt =====
-- The parts of reflex-llm that decide what it answers and keep its state right: the loading of a model
-- and its tokenizer, the memory pools of the engine, a turn of a conversation and the files that its KV
-- cache is kept in between turns, the sampler, and the server's handlers.
--
-- Base holds what the modules share: numbers, Boolean tests, lists and signed integers.
--
-- Scratch is `ScratchPool` (include/jllm_memory.h, src/memory/pool.cpp), the bump allocator that the
-- decode step takes its buffers from. Addresses are numbers; what `cudaMalloc` answers is an argument.
--
-- KvCache is `KVCachePool` (include/jllm_memory.h, src/memory/kv_cache.cpp). A memory is a function
-- from addresses to bytes. The children are about the address arithmetic (Layout, Scales), packing
-- and unpacking (Gather, Scatter, RoundTrip) and eviction (Evict). What each CUDA call answers is an
-- argument.
--
-- Persistence is src/persistence/kv_cache_file.{h,cpp}: Header and Bytes are the format, Files the
-- directory, Save and Load the operations, Fingerprint the hash of a model file, Budget the eviction
-- of old files, where `std::sort` is an argument. System calls answer from an argument. The loops over
-- `read` and `write` run on fuel, the number of bytes wanted, which is enough since a call that moves
-- no byte ends them (write_all_succeeds, read_all_succeeds).
--
-- ConversationId is `validate_conversation_id` (src/engine/decode.cu) and `path_for_conv_id`.
--
-- Engine is src/engine/decode.cu: Hydrate is `Engine::try_hydrate_kv` (with KvCache.Compact),
-- Generate is `Engine::generate` up to the end of its loop, SaveTurn is the save at its end. The
-- transformer pass is represented by the token whose key and value each cache position holds. The
-- decode loop runs on the rounds that `max_tokens` leaves, as the code's loop does.
--
-- Engine.Materialize is the copying of the layers' weights to the device in src/engine/decode.cu:
-- Arena and Copied are about the copy of one layer, Fits about the loop over the layers and the
-- memory budget. Engine.Context is how `Engine::load` chooses the length of the context from the
-- memory budget (include/jllm_memory.h).
--
-- Tokenizer is src/engine/tokenizer.cpp: Symbols splits text into UTF-8 symbols, Bytes is the
-- alphabet of bytes, Pieces the pre-tokens, Merge the merging by rank, Encode the two directions,
-- and Coded and RoundTrip prove that they undo each other. Load is `load_from_gguf`, which reads
-- the tables with Gguf.Reader (Readers, Entries, Document) and builds those that it derives
-- (Tables, Specials); Decodes puts it together with RoundTrip. The loops over a text run on a round
-- for each of its bytes, which is enough since each round takes a byte (piece_len-positive).
--
-- Server is src/server/http_server.cpp: Think is `ThinkSplit` (Find and Lossless), Completion the
-- chat prompt and what `build_completion` makes of the tokens delivered, Stream the chunks of
-- `stream_chat_completion` (Grown and Whole for a client that stays, Broken for one that goes
-- away), and Chat the handler of a request, which hands the engine a prompt and its parameters.
-- What the engine delivers is an argument there, and so is which texts the JSON library writes and
-- for which it throws.
--
-- Gguf is src/engine/model.cpp: Reader is `fread` and `fseek` on the bytes of a file, TensorTable
-- `parse_tensor_infos`, with the format itself in Document, Config `load_gguf_config` (Standard for
-- the entries of a usual file), Weights `load_and_map_weights`, and Region the host memory that the
-- device sees. A read that finds too few bytes leaves a variable undefined, which is a value of its
-- own (`fault`, `none`). Counts in a file bound the loops over it.
--
-- Sampler is src/engine/sample.cpp: Draw the filters, greedy sampling and the fast top-k path,
-- Token `sample_token` itself. Floats is what it uses of `float`, with the laws of the order, and
-- Algorithms the heap and the sorting of <algorithm>; the number that the generator draws is a
-- function of the total, so that the statements are about every draw. A read of an empty range, and
-- a repeat penalty for a token outside the vocabulary, are `none`. Engine takes the tokens sampled
-- as an argument, and the passes whose logits fail.
--
-- Guards is `check_memory_and_thermal` with the OOM guard (src/memory/budget.cpp) and the thermal
-- back-off (src/jetson/thermal.cpp).
--
-- Sizes that the code keeps in int or int64_t are natural numbers without a bound, except where the
-- code computes in size_t on bytes that it has read (the expected size of a file, which wraps).
--
-- Not modelled: the CUDA kernels and the transformer pass, Engine::load around its parts, the
-- command line, and the reads of sysfs.
pub mod Base
pub mod ConversationId
pub mod Engine
pub mod Gguf
pub mod Guards
pub mod KvCache
pub mod Persistence
pub mod Sampler
pub mod Scratch
pub mod Server
pub mod Tokenizer
