-- ===== src/Lib.antt =====
-- rustic_core: a library for encrypted, deduplicated backups. A repository is a set of files: packs
-- with blobs, index files that say where a blob is, snapshots that name trees, and a config file.
-- This library models the parts of crates/core/src that decide what is kept and what is removed, and
-- the formats that these decisions rest on. A function of the source is a definition of the same
-- name; where the name is taken, a comment gives the source's name.
--
--   Blob       blob.rs: types of blobs, locations, the coalescing of reads.
--   Config     repofile/configfile.rs, commands/config.rs: the config file, the options that change
--              it (Config.Options), and the writing of it to the backends (Config.Apply).
--   Packer     blob/packer.rs: the targeted size of packs (Packer.Sizer), and the packers that put
--              blobs into packs and send them on (Packer.Basic) to the file writer, which
--              writes them and gives them to the indexer (Packer.Writer).
--   PackFile   repofile/packfile.rs, repofile/indexfile.rs: the header of a pack and its binary
--              layout, the reading of it from a file (PackFile.FromFile), the packs of an index.
--   Chunker    chunker.rs, chunker/rabin.rs, chunker/fixed_size.rs: the cutting of files into chunks.
--   Node       backend/node.rs, backend/node/modification.rs: nodes, the escaping of their names
--              (Node.Escape), their link targets, and what is kept of their metadata (Node.Meta).
--   Tree       blob/tree.rs: `TreeStreamerOnce`, the walk over all trees. Its threads load trees in
--              any order, so `next` takes the place of the tree in the queue that is ready.
--   Snapshot   repofile/snapshotfile.rs, repofile/snapshotfile/grouping.rs: snapshots and groups.
--   Index      index/binarysorted.rs, index.rs: the index in memory and its lookups; index/indexer.rs:
--              the indexer that writes index files (Index.Indexer).
--   Forget     commands/forget.rs: the keep options. Forget.Run has `matches` and `apply`.
--   Prune      commands/prune.rs: the plan of a prune and its execution. Prune.Used is `from_pack`
--              with the counters of used blobs, Prune.New, Plan, Decide, Repack and Check are the
--              steps of `PrunePlan`, which Prune.Whole puts together. Prune.Run is the loop
--              over the packs, and Prune.Execute `prune_repository`: what it writes and deletes.
--   Base       what they share: tests, lists, errors, machine words, maps, sorting.
--
-- Forget decides which snapshots stay. Prune counts the blobs that the snapshots use, decides on
-- every pack with the sizes of Packer, and hands the packs to the indexer. Its packs are those of
-- PackFile, its reads are coalesced by Blob. Packer fills packs with blobs, writes them and gives
-- them to the indexer, and Index is made of the files that the indexer wrote. Tree walks over trees
-- that are lists of nodes; what it finds is what a prune has to keep.
--
-- State that is changed in place is passed on: a plan's maps, statistics and packs, the counters of
-- the keep options, a repository's configs. The arithmetic is that of a release build, with its
-- wrap-around written out; ids are 256-bit numbers; a string is a list of codes; `usize` has 64
-- bits. A map is an association list, a set a list. The only fuel is that of `from_entries`, one
-- step more than the bytes of the header, each entry taking at least one; and that of the
-- hexadecimal digits, 16 for 64 bits; and those of the loops over a name, one for each byte or
-- character; and that of the loop of the chunker, `rounds`, one for each byte and each call of the
-- reader. A file is read with one call more than it has bytes at most.
--
-- Parameters are the rolling hash, the hash of a file, the encryption, the writing of packs and of
-- index files, the times of jiff, the integer square root, the levels of zstd, the reads of a
-- backend, the loading of a tree, the decryption, what a prune reads from the repository, what its
-- repackers do, the clock of its indexer, and what its backend refuses. An
-- unstable sort is a stable insertion sort. A candidate's numbers in the plan always name a pack;
-- where they would not, the source panics and `set_at` does nothing. A division by zero in
-- `decide_repack` is `none`. Of an error its kind is kept. A failing `apply` has changed its config
-- in part; its callers drop it.
--
-- Not modelled: the summary of a snapshot, the search for used blobs, the copying of blobs into new
-- packs, progress bars and logs, and the components that read and write files.
pub mod Base
pub mod Blob
pub mod Config
pub mod Packer
pub mod PackFile
pub mod Snapshot
pub mod Index
pub mod Forget
pub mod Prune
pub mod Chunker
pub mod Node
pub mod Tree
