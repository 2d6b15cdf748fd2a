-- ===== src/Lib.antt =====
-- A verification library for the runtime of this repository, which prepares and runs WebAssembly
-- components and isolated WASIX workers, keeps compiled components in memory and on disk, seals the
-- state of a worker in authenticated checkpoints, and identifies language environments by their
-- content.
--
-- The parts that are modelled, and how they interact. A worker is started for one environment, which
-- an environment manifest describes; its guest writes to bounded output sinks; a snapshot of it is a
-- journal, which the checkpoint codec seals together with the workload identity (environment, module,
-- command, instance, generation) and which another worker opens again. A component is prepared from
-- the best tier that has it: compiled in memory (warm), its native code in memory (warmish) or on disk
-- (cold), or its source, which is compiled and published to the tiers; its exports decide its profile.
--
--   Base        names, byte lists, Boolean tests, ASCII tests and big-endian numbers for all parts.
--   Failure     src/error.rs: the error type, and `Result`, to which the model adds `panic` (an index
--               out of range) and `stuck` (the fuel of a loop is used up), which no caller may see.
--   Slices      slices of byte buffers, which panic out of range, and `usize::try_from`.
--   Checkpoint  src/checkpoint.rs. Journal: `scan_journal`, its loop on fuel. Binding:
--               `WasixCheckpointBinding` and the tests on texts. Metadata: `CheckpointMetadata` and
--               the crates that the codec calls. Codec: limits and the fixed header. Seal: the checks
--               and the encoding before a write. Writing: `seal`, `seal_capture`, `seal_into` and
--               `seal_capture_into` over any writer. Verify: `verify`, `open` and the value that they
--               return. Reading: `open_reader` over a reader that delivers its bytes in pieces, with
--               interruptions and errors. RoundTrip and Accepted put these together.
--   Output      src/wasix_output.rs: the sink `BoundedWasixOutput`, whose clones share one state, so
--               that concurrent calls are a sequence of steps on it.
--   Environment src/environment.rs: `EnvironmentManifest`, its validators and its content identity.
--   Worker      src/wasix_worker.rs: `WasixWorkerMetadata::validate` and `WasixWorkerIsolation::validate`,
--               the requirements on a worker before it is given any input. Messages: the
--               acknowledgements, the completions and the capture request, and their tests. Frames:
--               `read_bounded_worker_frame` and `read_frame`. Requesting: `capture_wasix_checkpoint` up
--               to the encoded request. Capture: `perform_checkpoint_capture` behind the
--               acknowledgement.
--   Profiles    src/types.rs: the worlds, their versions and the tiers of a package.
--   Tokens      src/types.rs: `PauseToken`, its calls at an instant, and a round of `wait`. Totals: the
--               calls against a stopwatch.
--   Config      src/config.rs: limits, their defaults, the disk configuration, `RuntimeConfig::validate`.
--   Files       the calls of `std::fs` on a map of file names, each of which may fail.
--   DiskCache   src/cache.rs: `DiskCache::prepare`, `load`, `publish` and `contains`, with the tag, the
--               names of the files and `atomic_publish`.
--   Http        src/http.rs: `OutboundHttpGrant`, `HttpHooks::grant_for`, `send_request`. Addresses:
--               `is_public_ip`. Limiting: `LimitBody`.
--   Runtime     src/runtime.rs. Memory: `MemoryCache`. Detect: `detect_profile`. Compile: the blocking
--               tasks that compile and deserialize. Inner: the state that the tasks share, and the
--               calls on it. Prepare: `RuntimeInner::prepare`, its parts in the order of the code.
--               Invocation: the epoch callback of `invoke`, `map_execution_error` and `RunningCommand`;
--               Steps: the relation of their steps. Input and Running: `Runtime::load_bytes`,
--               `Program::run_controlled` and the task of `Program::start`.
--   Tests       stand-ins for the crates and the theorems at concrete inputs.
--
-- Conventions. A byte is a natural number; that a buffer holds bytes is a hypothesis where it matters.
-- Strings are lists of their UTF-8 bytes. A `usize` has 64 bits, as on the supported targets, and
-- checked additions are written out. A formatted message is the list of its pieces. `usize::try_from`
-- and the conversions to `u32` and `u64` keep their failing branches. The loop of `scan_journal` has
-- one more step of fuel than the journal has bytes, and a round takes at least the eight bytes of a
-- record header, so the fuel is enough. The loops that evict from the memory cache have one more step
-- than the tier has entries, and a round removes an entry.
--
-- State is passed on explicitly (Failure.Stateful). A hash map is an association list with distinct
-- keys (Base.Maps); no code that is modelled depends on its order but the choice among entries that
-- were used at the same time. A file operation takes the next outcome of a list of faults; a failing
-- write leaves any front of its bytes; a rename replaces a file as a whole or not at all. The calls of
-- one preparation are made without another task in between: the lock of the digest keeps out another
-- preparation of it, and other digests are steps before or after.
--
-- Code that is not in the repository is a parameter: SHA-256, HMAC, hex, the JSON encoder and parser,
-- the allocator, and the constants of the build (Checkpoint.Metadata.External, Environment.Crates,
-- DiskCache.Crates), and Wasmtime (Runtime.Detect.Engine).
-- What is assumed of it is the record IsDocumented, or a named hypothesis: digests and tags have 32
-- bytes, `hex::encode` writes two lowercase digits for a byte, and a derived JSON parser reads what the
-- derived encoder wrote. The comparison of tags is an equality: its constant time is not modelled.
--
-- An invocation is one state on which the guest, the epoch callback, the waiting task and the holders
-- of the handle make steps. A call on the handle, which reads the state and then calls the token, is
-- one step, and so is the epoch callback up to its call of `mark_resident`. That function takes no
-- lock: its test and its store are two steps, with the steps of others in between, and so is the first
-- round of `wait` behind them. A round of `wait` with its eviction is one step. Instants are
-- nanoseconds and never go back. The flag `notified` says whether a waiting task has been woken since
-- it last made its future; of the branches of a `select!` that are ready, any may be taken.
--
-- The start of an instance is a parameter of a run. An outgoing HTTP request is what the code reads
-- of it. The resolver, the text of a header value and the handler that sends are the parameter
-- Http.Network; what is handed to the handler is a value.
--
-- What a worker writes is the bytes in a pipe and how the pipe ends; what waiting for the worker gives
-- is a value. The JSON encoder of the request, and the allocator, the JSON parser and the digest at
-- the end of a capture are parameters (Worker.Requesting, Worker.Capture.Crates).
--
-- Not modelled: the rest of the worker protocol, with its timeouts, the pinning of the executable, the
-- handshake and the restore (src/wasix_worker.rs), the HTTP service but its outgoing requests
-- (src/http.rs), background promotion, linkers, stores and the epoch thread (src/runtime.rs), memory
-- measurement (src/measurement.rs), and Debug formatting and plain accessors everywhere.
pub mod Base
pub mod Checkpoint
pub mod Config
pub mod DiskCache
pub mod Environment
pub mod Failure
pub mod Files
pub mod Http
pub mod Output
pub mod Profiles
pub mod Runtime
pub mod Slices
pub mod Tests
pub mod Tokens
pub mod Worker
