-- ===== src/Lib.antt =====
-- A model of proc-mw, a library of middleware chains for services. A chain is a list of nodes around
-- a core that the caller gives: the nodes' enter hooks run in order and may stop a request, then the
-- core runs, then the exit hooks run in reverse order.
--
-- Common, Int, Cell: shared names and lemmas; the integers over the native naturals with the bounds
--   and the wrap-around of i32; a piece of shared state behind an Arc.
-- Effect: the effects of the code, a function of a request and of the shared state into a result, a
--   new request and a new shared state. A result is a value, an error, or a panic, and a panic keeps
--   what was written before it, since it unwinds and may be caught. Onion and Retry are what the
--   execution of a chain and a retry loop promise, stated without the code's loops.
-- Dispatch: src/dispatch.rs. `chain_exec_ctx` keeps its name; `Node::enter` and `Node::exit` are
--   `enter` and `exit`, and the two loops are `enter_all` and `exit_all`.
-- Chain: src/chain.rs, with `set_node` for `Chain::set`. Chain/Parallel is `exec_parallel`, whose threads
--   run hook by hook, interleaved in the order of a schedule.
-- Opaque: src/opaque.rs, over a request type that stands for the memory behind the pointer.
-- Metrics, RateLimit: src/metrics.rs, src/rate_limit.rs, and their twins in src/opaque_gov.rs.
-- Breaker: src/circuit_breaker.rs.
-- Sandbox: src/sandbox.rs and src/bin/mw_exec.rs, the two ends of the byte protocol (`run_bytes`,
--   `spawn_bytes` and `restart` of the host, `byte_loop` of the child); Sandbox/Text is the protocol of
--   lines.
-- Generic: src/generic.rs. Precompiled: the function that the macro of src/precompiled.rs writes.
-- Config: src/config.rs, with a numbered supply of cells for the nodes with state, and with the parser
--   of numerals of the standard library as a parameter.
-- Domains: the handlers of labs/scales/large_multi/domains, as one function of two numbers.
-- Async: futures, for src/async_opaque.rs (Async/Erased), src/async_mw.rs (Async/Typed) and
--   src/async_generic.rs (Async/Generic). A future is what one poll of it does; what it keeps from one
--   poll to the next is of a type `P`. Async/Race is `Timer` and `select`, which polls the chain first.
--   `idle` is what the rest of the program does to the shared state while a task waits to be woken.
-- Runtime: src/runtime.rs, with `load` and `load_opaque` for the two `load`s, and Runtime/Registry for
--   `PluginRegistry`. A library is what its symbols are, by name and type.
-- Hash, Compile: src/compile.rs. The statics of the file are the state, and the file system and cargo
--   are the record `Platform`; Compile/Cleanup is `cache_cleanup`, and Compile/Target is
--   `plugin_target_cleanup`.
--   Compile/Diagnostics reads what cargo writes; Strings is what it and Migrate need of Rust's texts.
-- Migrate: src/migrate.rs, and labs/d8_migrate/src/main.rs in Migrate/Tool, with the functions of syn and
--   quote as parameters. `migrate_ast` is `migrate_file` from the syntax tree that is parsed to the one that is
--   written; its fuel is the depth of the blocks and of the items, of which at least as much as a file has
--   is enough for `StripTiming` and `StripDoc`.
-- Pipeline: the first part of src/lib.rs.
-- Schedule: threads whose steps are interleaved in the order of a schedule, for Chain/Parallel,
--   Opaque/Parallel and Async/Erased/Parallel, which are `exec_parallel` of src/chain.rs, src/opaque.rs and
--   src/async_opaque.rs, and for Services.
-- Services: labs/scales/medium/src/bin, the calls of s05_load_shed.rs (Services/LoadShed) and of
--   s02_concurrency_limit.rs (Services/Limiter), with tower's `Service` as the record `Service`; and those
--   of s03_retry_policy.rs and s04_circuit_fallback.rs (Services/Retry), where what an awaited call of
--   the inner service comes to is a function; Services/Plain is the service of s01, s06 and s08, and the
--   bridge of s07.
--
-- The parts interact as in the code: a chain of Dispatch or of Opaque contains the governance nodes
-- of Metrics and RateLimit as nodes with state, and the breaker of Breaker calls a chain.
--
-- The code of others is a parameter: the core, host middleware and plugins are functions, which may
-- read and write all of the shared state `W`; the clock and whether overflow checks are compiled in
-- are the record `Host`. A plugin returns normally, since a panic in it ends the process. A node with
-- state owns a `Cell` of `W`; a lock is a section that runs at once, with a flag for poisoning.
--
-- Loops are structural recursion on the nodes or on the attempts that are left. The loop of a
-- sandbox's child has fuel, the number of bytes that it can read, which is enough since an
-- iteration reads four bytes or more. A pipe is a list of bytes; the child runs while the host
-- waits for it, and the process, the pipes' capacity and their I/O errors other than the end of a
-- file are left out. Numbers: `i32` with its bounds in `Dispatch`, `usize` of 64 bits in `Metrics`,
-- `u32` for the failures in `Breaker`; the codes of `Opaque` are compared only. Times are
-- nanoseconds as natural numbers, and the end of the range of `Instant` is left out.
--
-- An execution of an asynchronous chain has fuel, the number of the polls; one poll and `k` more for
-- each node are enough where each node's future is ready after one poll and `k` more, and with a timeout
-- of `dur` nanoseconds, `dur` + 1 polls are. Without enough fuel there is no result. A plugin's
-- fingerprint and the keys of the cache are words of 64 bits; `bit_xor` is that of the native numbers.
--
-- A text is a list of code points; what the cache hashes, and what cargo writes, are bytes.
--
-- Not modelled: the files and the output of labs/d8_migrate, and what the handlers that it rewrites do
-- when they run; the inner services and the main functions of labs/scales/medium; and the programs of
-- examples, tests and the other labs. The accesses of Metrics to its counters are in one order, of which
-- the `Relaxed` accesses of the code promise less.
pub mod Common
pub mod Int
pub mod Effect
pub mod Onion
pub mod Dispatch
pub mod Retry
pub mod Chain
pub mod Opaque
pub mod Cell
pub mod Metrics
pub mod RateLimit
pub mod Breaker
pub mod Sandbox
pub mod Generic
pub mod Precompiled
pub mod Domains
pub mod Config
pub mod Async
pub mod Hash
pub mod Runtime
pub mod Compile
pub mod Strings
pub mod Schedule
pub mod Migrate
pub mod Services
pub mod Pipeline
