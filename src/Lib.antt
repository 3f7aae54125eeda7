-- ===== src/Lib.antt =====
-- Verification of a PostgreSQL 7 derived backend in C: its memory contexts, allocation sets, disk
-- pages, virtual file descriptors, buffer replacement, list nodes, doubly linked lists, string
-- buffers, shared memory queues, fixed stacks, hash functions and dynamic hash tables.
--
-- How the parts work together. Memory contexts form the tree that src/backend/utils/mmgr/mctx.c
-- keeps; what is asked of one ends in its allocation set, where src/backend/utils/mmgr/aset.c hands
-- out chunks. src/include/rdbms/utils/palloc.h defines PALLOC_IS_MALLOC, so that palloc, repalloc
-- and pfree of the files that include it are the C library's malloc, realloc and free. Tuples are
-- stored in disk pages, which src/backend/storage/page/bufpage.c lays out; buffers and access
-- methods call it. A page is read into a buffer of the pool, which
-- src/backend/storage/buffer/freelist.c picks, from a file that src/backend/storage/file/fd.c keeps
-- open or opens again. Lists (src/backend/nodes/list.c) carry parse trees, plans and sets of
-- relations; their nodes come from that palloc. Processes that wait for a lock stand in the queues
-- of src/backend/storage/ipc/shmqueue.c, in shared memory. src/backend/utils/misc/fstack.c chains
-- structures into stacks. src/backend/utils/hash/dynahash.c has the hash tables, which lookups of
-- buffers and locks go through, and src/backend/utils/hash/hashfn.c hashes their keys.
-- src/backend/lib has doubly linked lists (dllist.c) and text in a buffer that grows
-- (stringinfo.c). The parts are modelled one by one; the interfaces between them are the arguments
-- that a model takes: the methods of the contexts for their tree, malloc and realloc for allocation
-- sets, qsort for pages, equal for lists, the operating system for files, palloc and vsnprintf for
-- string buffers, the hash function and the allocator for hash tables. Queues in shared memory, the
-- free list of the buffer pool, the files in order of use and doubly linked lists, ended by NULL,
-- are rings of linked cells, with the same lemmas.
--
-- Which file models what:
--   Base           Boolean tests, lists with native indices, powers of two, MAX_ALIGN of
--                  src/include/rdbms/c.h (also for MAXALIGN, the name that bufpage.c and dynahash.c
--                  use and nothing defines), and masks of bits, as shared helpers.
--   AllocSet       aset.c. The set's lists of blocks and free chunks stand for its chains;
--                  alloc_set_alloc is put together from its parts (a block of its own for a large
--                  chunk, first fit on a free list, the rest of the active block, a new block).
--                  AllocSet/Index, Carve, Alloc, Create and Stats hold the proofs about these;
--                  AllocSet/Release has free, realloc, reset, delete and the statistics.
--   MemoryContext  mctx.c with src/include/rdbms/nodes/memnodes.h and src/include/rdbms/utils/memutils.h: the
--                  links of the tree by the addresses of contexts, and the calls of methods. Tree reads
--                  a tree off the links and is about reset, Delete and Create are about these.
--   Page           bufpage.c with bufpage.h, itemid.h and off.h of src/include/rdbms/storage: the
--                  header, page_init, page_add_item, page_get_free_space. Page/Slots and Page/Add
--                  are about page_add_item; Page/Removal has deletion, compaction and the temporary
--                  page.
--   Rings          cells linked in a ring: insertion at the end and removal.
--   FileCache      fd.c, with the replies of the operating system as an argument: the state, the ring
--                  in order of use, and the access to a file. FileCache/Open opens files, Ops has the
--                  operations on one, Stdio the files of stdio and the end of a transaction. Valid
--                  says when the ring lists the open files; Lru, Descriptors, Placed, Access, Close,
--                  Slots, Opened, Sync and Allocated hold the proofs, Sample a state, Runs tests.
--   BufferPool     freelist.c and the linking of descriptors in
--                  src/backend/storage/buffer/buf_init.c. Valid has what a pool keeps, Pins is about
--                  pins, unpins and requests, Init about the start.
--   PgList         list.c with src/include/rdbms/nodes/pg_list.h, on a store of nodes. PgList/Chains
--                  says what it means for a list to stand in the store; Read, Change, Cut and Copy
--                  are about the functions that read a list, link two, take nodes out, make nodes;
--                  PgList/Sets has the functions on lists as sets.
--   Dllist         src/backend/lib/dllist.c: Near reads a list off the links, Laws is about the operations.
--   StringInfo     src/backend/lib/stringinfo.c: Valid has what a buffer holds and its growth, Append
--                  the append functions.
--   ShmemQueue     shmqueue.c with src/include/rdbms/storage/shmem.h: the links of a ring, by
--                  offsets. Laws has insertion and the walk, Delete deletion.
--   FixedStack     fstack.c with src/include/rdbms/utils/fstack.h.
--   Hash           hashfn.c.
--   DynaHash       dynahash.c with src/include/rdbms/utils/hsearch.h: the words of segments and elements, the
--                  search, the insertion, the removal, the scan and the growth. Keys has the elements of
--                  a chain as a list, Chains the walk along a chain, its changes and its split, Home the
--                  bucket of a key and the masks, Valid the invariant; Search, Remove, Enter and
--                  Insert are about hash_search, Split, Grow and Expand about expand_table,
--                  Sequence about hash_seq. Create makes tables, Create/Sizes is about their sizes.
--   Each has a module Examples with concrete runs.
--
-- Conventions. A C function has the name it has in the source; its loops and long branches have
-- names of their own. Addresses are numbers that do not wrap around, 0 is NULL. Sizes, uint16
-- fields, bit fields and the integers of the hash functions wrap around where the source lets them
-- reach the limit of their type. A failed assertion, elog(ERROR) and a read through NULL are values
-- of the result.
--
-- Fuel. The loop that cuts up a block runs at most 9 rounds, which the model is given and the
-- theorem on it shows to be enough; the loop that retries malloc halves its size, so that 64 rounds
-- are enough for a 64-bit size. The loops over a list or a stack take fuel as an argument, and each
-- theorem says how much is enough: a round for each node, and one for the end. The loop of tag_hash
-- gets as many rounds as the key has bytes. The loops of fd.c that close files to get a descriptor
-- get a round for each open file and one for the end; the loop that closes the files of stdio a
-- round for each. The walk along a collision chain and its split get a round for each element, the
-- walk one more for the end; a call of hash_seq gets a round for each bucket and one more; my_log2
-- and the loop that doubles the size of a directory as many rounds as the number they are to reach.
-- The doubling in stringinfo.c takes at most 31 rounds from a buffer that is not empty; how often
-- append_string_info tries again depends on the text, and its theorem says how much fuel is enough.
-- The loops over the contexts of a tree get two rounds for each context and one for the end of each
-- list. All others are structural.
--
-- Not modelled. The printing of statistics and error messages; memory_context_stats and the
-- characters of names; the bytes of user data in an allocation set, but for the copy in realloc; the
-- make_integer, make_float and make_string of list.c; the debugging output of shmqueue.c; the bytes
-- that files hold, pg_fdatasync and sysconf; the tags and blocks of buffers and their locks;
-- hash_destroy, hash_stats and the statistics of hash tables. Of the rest of the backend, the buffer
-- manager, the lock manager, the storage manager, the caches, tuples, the function manager and node
-- equality are not modelled; generated files and command line programs are left out.
pub mod AllocSet
pub mod Base
pub mod BufferPool
pub mod Dllist
pub mod DynaHash
pub mod FileCache
pub mod FixedStack
pub mod Hash
pub mod MemoryContext
pub mod Page
pub mod PgList
pub mod StringInfo
pub mod Rings
pub mod ShmemQueue
