-- ===== src/Lib.antt =====
-- mcfreeze: immutable key-value snapshots, built once and served read-only.
--
-- A snapshot is a directory of partitions. A key is hashed to a 64-bit fingerprint; its low bits
-- choose the partition, and within the partition a V5 snapshot keeps records sorted by
-- fingerprint in fixed-size blocks, with a fence (the high half of a block's first fingerprint)
-- for each. Values may be compressed as bare zstd frames and large ones lie in a heap file behind
-- stubs. A reader checks a sketch, searches the fences, reads the candidate blocks and scans them
-- for the key's second, verification fingerprint.
--
-- The files, by the parts of rust/crates/mcfreeze-format/src that they model:
--   Error      error.rs: the error enum (Error) and results. `panic` is a Rust panic, `stuck` a loop
--              that ran out of fuel, which no Rust value is.
--   Layout     meta.rs: Layout::new and Layout::partition_of.
--   Data       data.rs pread, and the fingerprints of a key (v4/index.rs, v5/mod.rs).
--   V5.Block   v5/block.rs: records, BlockAssembler (push_inline, push_stub, cut, finish), verify,
--              Records::next and find. Children: Encoding (the bytes of a record), Scan (what the
--              scanner reads of them), Seal (sealed blocks), Pack, Assemble, Push and Refine (a run
--              of the assembler against a packing of entries into groups).
--   V5.Fence   v5/fence.rs: fence_of and candidate_blocks.
--   V5.Compress v5/compress.rs: Compressor, Decompressor with its pool of contexts, decode and
--              frame_content_size. Children: Frame (frame headers of RFC 8878), RoundTrip.
--   V5.Sketch  v5/sketch.rs: Sketch::parse, contains, verify_sketch and build.
--   V5.Meta    v5/meta.rs: Meta::layout and its checks.
--   V5.Reader  v5/reader.rs: SnapshotReader::open and get. Children: Files, Locate, Held, Get, and
--              Assembled, which ties lookups to what the assembler wrote.
--   V5.Examples tests and concrete instances.
--   V5.Builder v5/builder.rs: the files of a snapshot while it is built. Children with definitions:
--              Arrival (the appender, parse_frames, scatter_to_buckets), Sizes
--              (auto_tune_block_size, bucket_count), Partition (build_partition), Config
--              (V5Builder::new), Planning (ensure_plan, plan_compression) and Phases (plan, build,
--              finalize). Children with proofs: Bounds (sizes), Frames, Appended, Tiles (logs),
--              Radix, Order (the radix pass), Emitted, Built, Written, Partitioned, Dedup, Whole (a
--              partition's build), Entries, Opened, Filtered, Served, Found (its files, opened and
--              read), Restart (interrupted builds), Plans and Pinned (plans), Resumed (a whole
--              build).
--   V4.Index   v4/index.rs: buckets and Robin Hood insertion. Children: Slots, Displace (the invariant
--              and a round), Insert (whole insertions).
--   V4.Reader  v4/index.rs probe_group_scalar and v4/reader.rs: lookups by groups of buckets.
--              Children: Group (a group and its tries), Found (whole lookups).
--   V4.Writer  data.rs AlignedWriter, and v4/index.rs build and write_unified_index. Child RoundTrip.
--   V4.Spill   v4/spill.rs: the records of a partition before its index. Child Returns.
--   V4.Examples tests and concrete instances.
--   Snapshot   snapshot.rs: a snapshot of either format.
-- and of rust/crates/mcfreeze-server/src:
--   Server     registry.rs, lookup.rs: datasets, the catalog, the registry and the lookups of a
--              connection. Child Current: reloads, accepts and lookups as steps.
--   Server.Protocol protocol/meta.rs and protocol/commands.rs: replies and dispatch. Children with
--              definitions: Parser (parse_command) and Connection (listener.rs handle_connection and
--              drain). Children with proofs: Stable (the promises of streaming parsers), Steady,
--              Commands (the parser keeps them), Drained, Printed (lookup lines), Streaming (the
--              replies to a stream, as a relation), Served, Ended and Chunks
--              (connections, and how their bytes are cut).
--   Server.Examples concrete runs. Children: Streams, Steady and Lawful (streaming parsers by clauses
--              that keep the promises), Sessions (connections).
-- and of rust/crates/mcfreeze-loader/src:
--   Loader     error.rs. Children with definitions: Scatter (scatter.rs, and the loop over a source in
--              lib.rs), Phases (lib.rs check_scatter_done, and a whole scatter), Limit (source.rs
--              limit_sources). Children with proofs: Ranges, Routed, Refused (values that are too
--              large), Logged (from a source to the arrival logs), Rescan (what a later process makes
--              of a scatter), Loaded (from a source to a lookup), Capped (the row limit).
--   Loader.Examples concrete loads. Child Lookups: a load and a lookup.
-- Base holds what all of them share: tests on numbers, lists, bits, little-endian words, texts.
--
-- State that the code mutates in place is passed on explicitly: the assembler's buffer, fences and
-- poison flag, and the decompressor's pool. A method that fails returns the state that it leaves.
--
-- Parameters, for code that is not in the repository: xxh64 (any function), the xorf filter (any
-- function of descriptor, fingerprints and key), and zstd (V5.Compress.Zstd, with IsLossless as
-- what a writer's and a reader's context promise each other). Files are byte strings: a read past
-- the end is an unexpected end of file, other operating-system errors do not occur on open files.
--
-- Fuel: the scan of a block (find_loop) has one round more than the block has bytes, and each
-- record takes 16 bytes at least.
-- An insertion (insert_loop) has 256 rounds for each bucket and 256 more: each round adds one to the
-- sum of all probe lengths, which stay below 256. A V4 lookup (group_loop) has a round per bucket
-- and looks at eight in each. decimal_from has the 20 digits of a 64-bit number.
-- V4.Writer.build takes the number of tries from its caller: the code tries without bound.
-- The loops over an arrival log have one round more than the log has bytes, and each round takes the
-- 20 bytes of a header. Powers of two are searched by 64 doublings, the bits of a word by 64 steps.
--
-- The loop over flags, that over the commands of a batch and that over the reads of a connection have
-- one round more than there are bytes of input, bytes still to come and reads.
--
-- Connections: what a client sends is the list of what the reads return; its end, or a read without
-- bytes, stands for the end of the stream, an error or the idle timeout. The parsers of nom are a
-- parameter (Parser.Nom) with their documented behaviour as laws (Stable.IsStreaming). Writes to the
-- client succeed.
--
-- Builds: a partition's directory is a record of its files. A marker is read back as what was
-- written, its JSON text and failures to write are left out, and counters are natural numbers. The
-- builds of partitions, which run in threads on directories of their own, are modelled in turn. What
-- a failed build leaves of its outputs is left out: the next build begins with their removal. The
-- sort of frames (sort_unstable_by_key), the construction of a filter and the training of a
-- dictionary are parameters.
--
-- Loads: a channel is the list of what was sent to it, so that a channel that is full, which delays a
-- producer, is left out; a writer is given all that its channel holds when it is closed. The budget of
-- rows is a 64-bit word in two's complement.
-- Not modelled: JSON texts (serde), memory maps and huge-page advice, threads, the process wiring
-- of server and command line, and the Go control plane.
pub mod Base
pub mod Data
pub mod Error
pub mod Layout
pub mod Loader
pub mod Server
pub mod Snapshot
pub mod V4
pub mod V5
