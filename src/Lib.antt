-- ===== src/Lib.antt =====
-- A verification library for Cognitora Inference, a server for large language models.
--
-- The program. A gateway (rust/services/cgn-router) admits a request into the slot pool of its
-- model, picks a node of its registry by how much of the prompt the node already holds, which it
-- reads from a prefix index (rust/libraries/cgn-core), checks the deadline and sends the request
-- there; a node that gives no first token is left for another. A watcher keeps the registry and
-- the index in step with the heartbeats of the nodes' agents (rust/services/cgn-agent). A ledger
-- charges the tokens to the caller's key. On a node the native engine (rust/services/cgn-infer)
-- runs the requests in one batch: a scheduler admits them into a pool of key-value blocks,
-- prefills prompts in chunks, decodes all running sequences one token at a time, preempts the
-- youngest when blocks run out, and streams text to the clients. Blocks of computed keys and
-- values are kept in a store of two tiers, RAM over SSD (rust/services/cgn-kvcached over
-- rust/libraries/cgn-kv). An operator (rust/services/cgn-operator) sizes the pools of replicas by
-- the length of their queues.
--
-- What models what:
--   Infer/Scheduler, Infer/Scheduler/Steps  rust/services/cgn-infer/src/scheduler/mod.rs: the state
--     of `Scheduler` as a record and each method as a function on it. A method that works on
--     `running[idx]` takes the index and the sequence that stands there. The trait object, the
--     sampler, the tokenizer and the channels are the fields of the record `Runtime`; what was sent
--     is the list `out`.
--   Infer/Scheduler/View  a specification of the scheduler: a step relation on the ids that wait,
--     run and are closed, and the block pool. Tokens and Refinement show that the code implements
--     it, Run what follows for every history, Limits what happens at the edges.
--   Infer/Pool, Infer/Prefix  rust/services/cgn-infer/src/kv/mod.rs: `KvPool` and `PrefixCache`.
--   Infer/Llama  model/llama.rs of rust/services/cgn-infer: the ranges of layers, the cache of a
--     sequence and the forward pass of a stage. The record `Candle` holds the tensors.
--   Infer/Pipeline, Infer/Coordinator  pipeline/mod.rs of the same service: the codec of activations,
--     a worker as a state with one answer per message, and the coordinator, which holds the states of
--     its workers; a `Contact` says how each call of a worker ends. Infer/Batched is `BatchedLlama` of
--     runtime/mod.rs, the model on one machine.
--   Infer/Text  `held_back_len` and the string searches of scheduler/mod.rs, on UTF-8 bytes.
--   Router/Admission  rust/services/cgn-router/src/admission.rs: the slots of one model and role.
--     Each hold of the lock is one function.
--   Router/Deadline  rust/services/cgn-router/src/deadline.rs.
--   Router/PrefixIndex  rust/libraries/cgn-core/src/prefix.rs.
--   Router/PrefixHash  rust/libraries/cgn-core/src/hash.rs.
--   Router/Prompt  routing/prompt.rs of the router: the text and the approximate tokens of a request.
--   Router/Registry  rust/services/cgn-router/src/cluster/registry.rs.
--   Router/CacheState, Router/Watcher  cluster/cache_state.rs and cluster/watcher.rs of the router: each
--     event of the store is one step on the registry, the prefix index and the cache tracker.
--   Router/Gossip  cluster/gossip.rs: one tick of the feed that stands in for the watcher.
--   Router/Respond, Router/Stream  gateway/generate.rs and gateway/sse.rs: the tally, buffered answers,
--     tool calls, and the chunks and frames of a stream. A client is the function `delivers`.
--   Agent/EngineStream  rust/services/cgn-agent/src/engine/openai_http.rs: from the bytes of an engine's
--     answer to tokens.
--   Agent/KvCacheState  rust/services/cgn-agent/src/kv_cache_state.rs: the epoch in a heartbeat.
--   Agent/Supervisor  rust/services/cgn-agent/src/supervisor.rs: the group of engine processes; what was
--     spawned, killed and waited for is the list `log`.
--   Agent/EngineConfig, Agent/EngineSpawn  the engines' sections of rust/libraries/cgn-core/src/config.rs,
--     and engine/spawn.rs of the agent: the arguments of each engine in EngineSpawn/Engines, of cgn-infer
--     and the workers of a pipeline in Workers, of the LMCache server in Lmcache, and the transfer
--     configuration of vLLM in Connector. Topology says what clap does with such arguments.
--   Infer/Cli  rust/services/cgn-infer/src/main.rs: the options and the role; `LayerRange::parse`.
--   Router/Selector  rust/services/cgn-router/src/routing/selector.rs: `pick_excluding`, `pick_pair`
--     and session affinity. The record `Policy` holds the configuration and the scores.
--   Router/Disagg, Router/Dispatch  disagg.rs and gateway/generate.rs of the router: `open` with its
--     attempts. The record `World` is what one attempt meets: the registry and the answers of agents
--     and peers.
--   Router/Authz  rust/libraries/cgn-auth/src/lib.rs (`Principal`) and gateway/authz.rs of the router.
--   Router/ApiKeys  api_key.rs and middleware.rs of the same library: the file of keys and who calls.
--   Router/Cascade  rust/services/cgn-router/src/cascade.rs.
--   Agent/KvConfirmed  `publish_kv_confirmed` of rust/services/cgn-agent/src/health.rs.
--   Kv/Transport  rust/services/cgn-kvcached/src/transport.rs: frames, the handler of a connection, pull
--     and push, over the store of Kv/Store.
--   Router/Usage  rust/services/cgn-router/src/usage.rs.
--   Router/ClientIp  rust/libraries/cgn-ratelimit/src/lib.rs: the client address and networks.
--   Operator/Planner  rust/services/cgn-operator/src/planner.rs.
--   Kv/Ram, Kv/Store  rust/libraries/cgn-kv/src/tier.rs and rust/services/cgn-kvcached/src/tiers.rs,
--     with the files of rust/libraries/cgn-kv/src/ssd.rs.
--   Prelude  lists, association lists for the hash maps, tests. Tests  runs and instances.
--
-- Numbers. Counts, ids and sizes are natural numbers and do not wrap, but for the atomic byte
-- counters of the store, the sums of the ledger (modulo 2^64), the sums of the deadline check and
-- the queue lengths of the planner and the positions in a chunk of activations (modulo 2^32). A
-- subtraction is the saturating one; where the source subtracts without saturation the invariants
-- show that it does not go below zero.
--
-- Loops and fuel. The attempts of `open` are the list of the worlds they meet, three of them.
-- `ensure_room` takes a sequence out of `running` in every round that finds no room and gets the
-- length of `running` plus one. The loop of `release` takes a tenant off the line or a waiter out
-- of a queue in every round and gets their number plus one. The loop of `evict_pass` ends when a
-- batch frees no byte and gets the bytes in use plus one. Cutting tokens into windows gets the
-- number of tokens, taking frames off a buffer its length, taking `data:` off a line its length:
-- each round takes at least one element off. All other loops are recursions on lists.
--
-- Parameters. Floating-point numbers are types with the operations that the source uses. The codec
-- of frames reads what it writes. Tensors are a type with the operations of the candle crate that
-- the source calls, each of which may fail; the theorem on its stages assumes that a sum has the
-- positions of its second summand. No theorem says that a pipeline answers what the whole model
-- answers: activations in 16 bits are rounded. BLAKE3 and SHA-256 are functions; the theorem on
-- the prefix cache of cgn-infer assumes that the bytes which two chains of blocks hash do not
-- collide, that on the router's overlaps that no BLAKE3 digests do, and that on the file of keys
-- that SHA-256 has 32 bytes. The JSON parser and UTF-8 are functions. Text of numbers, trimming,
-- the values of serde_json and the reading of files are the record `Std` of the agent, numbers and
-- socket addresses in text the record `Words` of cgn-infer, trimming and reading an address the
-- record `Parser` of the rate limiter, the parser of options `Clap`: it gives the text of an
-- option's value where each option of the command stands once and no value begins with a dash, and
-- splits a value at its commas. The file system answers each operation on each path with success
-- or failure. The clock is an argument. Map iteration order is the order of an association list.
--
-- Not modelled: the model's arithmetic and sampling, the batched decode, HTTP and gRPC, the JSON
-- text of requests and chunks, the floating-point scores of nodes (a parameter of the selector),
-- the etcd and gossip clients, the loading, the defaults and the validation of the configuration,
-- the checks of OIDC tokens, the operator's controllers, the rest of the agent and the command
-- line; the interleaving of calls on the concurrent maps; metrics and logs.
pub mod Prelude
pub mod Infer
pub mod Router
pub mod Kv
pub mod Operator
pub mod Agent
pub mod Tests
