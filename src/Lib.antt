-- ===== src/Lib.antt =====
-- tiny-lsm-tree, a key-value store on a log-structured merge tree with a Redis front end. The tree is
-- course material: many bodies of the engine, of blocks, sorted tables and the log are still to be
-- written, and are modelled as the constants that they return.
--
-- A write goes from MemTable::put to the active SkipList. Past a limit the active list is frozen and a
-- new one made, and flush_last takes the oldest frozen list away to be built into a file. A lookup
-- asks the active list, then the frozen ones, the newest first. MemTable::begin puts the items of all
-- lists into a HeapIterator, which gives each key once; a Level_Iterator merges that iterator with
-- those of the tables on disk. LSM numbers the calls and hands them to the engine. The server turns a
-- request into a handler, which checks the number of arguments and calls a command of RedisWrapper,
-- which stands on LSM. FileObj is what the sorted tables and the log would write through.
--
-- Modules and the code they are about:
--   Common       lists, byte strings, tests on numbers, `int`, results of functions that throw
--   SkipList     src/skiplist/skipList.cpp, include/skiplist/skiplist.h: Node (nodes, random_level),
--                Find (the search, get, flush), Write (put, remove, clear), Iterator (iterators and
--                ranges); Chain is well-formedness, Search, View, Get, Overwrite, Splice, Insert,
--                Levels, Size, Joined and Put lead to the laws of get and put, Laws has the others;
--                Unlink, Erase and Bottom lead to Remove; Tower and Towered are about the order on
--                the higher levels, which PutTowers, PutStands, RemoveTowers, RemoveStands,
--                RemoveValid and RemoveLaws keep; Histories is about sequences of calls; Prefix, Seek, LastMatch and
--                Range are about the ranges
--   MemTable     src/memtable/memtable.cpp, include/memtable/memtable.h: Table (writes, freezing,
--                flush_last), Read (get, get_batch); Lookup, Laws, Batch and Flush have the proofs;
--                Interleaving is about readers beside writers
--   Heap         src/iterator/iterator.cpp, include/iterator/iterator.h and the iterators that
--                src/memtable/memtable.cpp makes: Item, Merge, Source; Order, Drain, Loop, Tables and
--                View lead from the queue to the lookups, as Prefix and Predicate do for the ranges;
--                Once is about the keys that a loop reads; Compare is about the comparisons
--   Level        src/lsm/level_iterator.cpp: Base (the interface BaseIterator), Iterator (the state
--                and the methods), Engine (the constructor); Lists has the vocabulary, Least, Skip,
--                Loop and Reads lead to what a loop reads, Heap makes a HeapIterator one of those
--                that are merged
--   Lsm          src/lsm/engine.cpp: Engine (LSMEngine), Front (LSM), Redis (clear and flushall of
--                src/redis_wrapper/redis_wrapper.cpp and their handlers); src/lsm/transation.cpp:
--                Transaction; src/lsm/two_merge_iterator.cpp: TwoMerge; Calls is about sequences of
--                calls
--   Block        src/block: Data (Block), Iterator, Meta (BlockMeta, BlockCache); Layout is about the
--                layout that include/block/block.h draws
--   Sst          src/sst: Table (SST, SSTBuilder), Iterator, Concact; src/utils/bloom_filter.cpp:
--                Bloom; Laws
--   Wal          src/wal: Record, Log; Equality
--   Config       src/config/config.cpp: Values (defaults, getters), File (reading and writing); Laws
--   Redis        src/redis_wrapper/redis_wrapper.cpp: Reply (arguments, std::stoi, std::to_string),
--                Commands
--   Server       server/src/handler.cpp, server/include/handler.h: Ops, Handlers; Safe, Bounds,
--                Spelling, Names; server/src/server.cpp: Session; Framing
--   Files        src/utils/std_file.cpp, src/utils/files.cpp: Stream, Object; Slices, Laws;
--                src/utils/mmap_file.cpp: Mapped, MappedLaws
--
-- State. Nodes of a skip list stand in a store under addresses, so that several pointers to one node
-- see its changes; a null pointer is `none`. Random draws are a stream `coin`, and every law holds
-- for any stream. `size_t` sums are taken modulo 2^64. A priority queue is the list of its items in
-- the order in which they are popped, which their comparison fixes where newer tables have no
-- smaller transactions; for others the standard leaves the order open. A stream of the standard
-- library is its bytes, whether it is open, and its fail bit; a mapped file its bytes and the state
-- of its mapping; whether the system opens, cuts, maps or removes a file, and what it holds, are
-- parameters. So are the TOML library (what a text parses to), std::hash, `double`, and the limit of
-- the size of a table in the memory table. A Level_Iterator is over any type that fills the interface.
--
-- Fuel. The search and the loops over a skip list have the number of nodes allocated as fuel, which
-- is above the length of any chain of a well-formed list; the loops over a queue have its length,
-- and each round pops an item; those of a Level_Iterator have the pairs that are left in its
-- iterators, and each round takes one away; std::to_string has more fuel than a number has digits.
-- The laws of the operations are about these fuels, so they would fail if the fuel did not suffice.
-- The loop of flush_all has any fuel, and gives no state where it is spent; while the methods of
-- LSMEngine that write are still to be written, one round is enough.
--
-- Not modelled: the locks (each method is one step, but for `get` in Interleaving, which takes two);
-- logging; the removal of a table's file; BlockCache::hit_rate; sockets, which a third-party library
-- serves; handleRequest, whose body is to be written; the Python bindings.

pub mod Common
pub mod SkipList
pub mod MemTable
pub mod Heap
pub mod Level
pub mod Lsm
pub mod Block
pub mod Sst
pub mod Wal
pub mod Config
pub mod Redis
pub mod Files
pub mod Server
