-- ===== src/Lib.antt =====
-- A verification library for folio, a replicated append-only ledger.
--
-- Storage nodes (crates/folio-node) keep entries in a write-ahead log, a two-tier cache and entry
-- segments, found through an index over a key-value store; clients (crates/folio-ledger) append by
-- quorum; crates/folio-core holds what they share.
--
-- Base: shared names, lists over native numbers, machine integers. Bytes: to_be_bytes and
-- to_le_bytes with their inverses and the order of byte strings.
-- Protocol, Error: crates/folio-core/src/protocol.rs and error.rs. Stateful: calls that change a
-- state and may fail.
-- Segment: crates/folio-node/src/storage/segment.rs (push, decode_record, padded_aligned), with the
-- batch of entry_segment.rs in Segment/Batch.
-- Partition: the Fjall key-value store and bincode, as parameters. Index: FjallIndex, and Registry:
-- SegmentRegistry, of crates/folio-node/src/storage/fjall.rs.
-- EntryMap, EntryCache: EntrySegmentCache of crates/folio-node/src/storage/entry_cache.rs.
-- OrderedMap, Metadata: the trait MetadataStore and InMemoryMetadataStore of
-- crates/folio-core/src/metadata.rs. The client and recovery take the trait as a parameter.
-- Client: crates/folio-ledger/src (lac_tracker.rs; Fragments: fragment.rs; Handle: ledger.rs;
-- Service: client.rs and speculative.rs without a hedge delay).
-- Node: crates/folio-node/src/storage/node.rs (InProcess with index.rs, Lsmc).
-- Reader: TieredReader and BlockCache of crates/folio-node/src/storage/tiered_reader.rs and
-- block_cache.rs. Recovery: crates/folio-node/src/recovery/mod.rs.
-- Examples: concrete inputs.
--
-- Byte strings are lists of numbers below 256; a u64 is a number below 2 ^ 64. No definition uses
-- fuel: the two attempts of an append and the copy loop are finite by their own counts. CRC-32,
-- HMAC-SHA256, Fjall and bincode are third-party code and parameters; what remote nodes answer, the
-- outcome of a journal write and of a forced sync, and the clock are arguments. Texts that error
-- values carry for the log are dropped. A call may panic, which is a result of its own. Not
-- modelled: the journal thread, the flush loop, crash recovery, the offloader, the
-- etcd store, hedged reads, transport and metrics.
pub mod OrderedMap
pub mod Metadata
pub mod Registry
pub mod Client
pub mod Stateful
pub mod Reader
pub mod Node
pub mod Recovery
pub mod Base
pub mod Bytes
pub mod Protocol
pub mod Error
pub mod Segment
pub mod Partition
pub mod Index
pub mod EntryMap
pub mod EntryCache
pub mod Examples
