-- ===== src/Lib.antt =====
-- MicroMeowDB, a small database system in C: its indexes, its transaction manager, its memory engine,
-- its LSM tree, its memory pool and cache, its users and privileges, and its limits on resources. This
-- library models them as pure functions on records and lists and proves what they promise to their
-- callers, and where they do not keep it.
--
-- The parts and their files:
--
--   Prelude         names and lemmas that all parts share: Boolean tests on the native numbers, byte
--                   strings, arrays as lists, the binary digits of words.
--   HashIndex       src/index/hash_index.c: chains of nodes per bucket. Chain and Laws treat one call,
--                   History sequences of calls, against a map from keys to values.
--   BloomFilter     src/index/bloom_filter.c: the three hash functions, the bit array and its counter.
--                   Bits and Laws treat the array, Membership the keys.
--   BitmapIndex     src/index/bitmap_index.c: bitmaps of 64-bit blocks (Words, Bits, Algebra) and the
--                   index from values to bitmaps of row numbers (Index, Insertion, History, Wrap).
--   BPlusTree       src/index/b_plus_tree.c: nodes in memory. Search treats the binary search, Arrays the
--                   loops over slots, Entries and Leaf a tree of one leaf as a sorted list, Insertion and
--                   History insertions while it has room, Nodes, Splitting and Full the split that follows.
--   LsmTree         src/index/lsm_tree.c: entries as bytes in tables and files. Entries relates the bytes
--                   to lists, Tables the search to the lists, Insertion and deletion into a table with
--                   room, Flushing and Rotation the file that a full table becomes, Truncation a long file.
--   Transaction     src/transaction/transaction.c: transactions, locks, timeouts and deadlocks. A lock is
--                   in two lists through one next field, so the lists stand on a heap of locks: Locks
--                   and Aliasing treat those lists, Lifecycle, Changes, Timeout, Deadlock and Calls
--                   the states of the transactions, Maintenance the checks without effect.
--   MemoryEngine    src/storage/memory_engine.c: tables of rows in hash tables by row number. Rows treats
--                   the rows of one table, Selection the copies that are returned, Rollback the end of
--                   a transaction and the optimisation.
--   MemoryPool      src/memory/memory_pool.c: blocks from a region that grows. Growth treats the
--                   allocation, Region the lists of free blocks, which no code fills.
--   MemoryCache     src/memory/memory_cache.c: the list of items, the search of a victim and the loop of
--                   evictions. Eviction treats one eviction, Loop and Capacity the addition and update of
--                   an item, Moving what the growth of the region does to the cache.
--   Authentication  src/security/authentication.c: users, salts and hashes, login attempts. Lists treats
--                   the lists, Invariant and Calls any calls, Lockout failed logins, Passwords what
--                   password is accepted. The digests of OpenSSL are a parameter, the record Digests.
--   Authorization   src/security/authorization.c: roles and privileges as 16-bit words. Bits and Checks
--                   treat the check of a privilege, Scopes what the walks do to scopes and deleted users.
--   Metadata        src/metadata/metadata.c: the catalogue. Tables and Renaming have the operations on
--                   tables, columns and indexes, Objects, Fates and Ownership what stands under a key and
--                   whose the data are, Creation, Change and Deletion one call, History any calls, against
--                   what each call makes of a key, Faults the operations that leave something broken.
--   ResourceManager src/resource/resource.c: limits and usage. Limits treats an update after its check.
--
-- The cache takes its memory from the pool, and the privileges ask for the state of a user: their
-- modules use MemoryPool and Authentication. The other parts do not call each other in the repository.
-- Each is a module of its own, with its laws in child modules and its concrete runs in Examples. A
-- function of the source has a definition of the same name, and a loop or a step of it a definition that
-- says what it does.
--
-- What C does beyond functions is written out. The answer of an allocator is an argument, often
-- named granted. What C leaves undefined, an access past an array, a read of freed memory or a
-- loop that does not end, and a realloc of a buffer to no bytes, which may free it, is none,
-- outside of any none that stands for a NULL that is returned; for transactions it is fault.
-- Unsigned numbers wrap at their width, 32 or 64 bits. Handles are never NULL, keys and rows may
-- be. Names of enumerators that no header declares are parameters. Loops over lists are
-- structural; a walk over the locks of a transaction is on fuel, since the list can be cyclic; so
-- are the walk over the bytes of a table, with fuel for every offset, the walks in a B+ tree, with
-- fuel for every node, the binary search, the loop of evictions, for which fuel above the number
-- of items is enough, and the doubling of a capacity in a batch insertion, of which nothing is
-- stated. An index of values is taken to have fewer than 2 ^ 31 items, so that its capacity does
-- not wrap.
--
-- Not modelled: the functions that only give memory back, the listing of the values of a bitmap index,
-- deletions, range queries and counts of the B+ tree, the files of the catalogue, the stubs for
-- persistence and checkpoints, what only prints the state of a part, and the other parts of the
-- repository: the R-tree, the row and column engines with their manager, and the parts that mostly read
-- and write files, sockets and consoles.
pub mod Prelude
pub mod HashIndex
pub mod BloomFilter
pub mod BitmapIndex
pub mod Transaction
pub mod MemoryEngine
pub mod MemoryPool
pub mod MemoryCache
pub mod Authentication
pub mod Authorization
pub mod LsmTree
pub mod ResourceManager
pub mod Metadata
pub mod BPlusTree
