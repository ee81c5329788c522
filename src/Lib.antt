-- ===== src/Lib.antt =====
-- syslib: the data structures and memory managers of a C systems library.
--
-- src/dlist.c is the base: the hash table, the timers, the caches and the pools all keep intrusive
-- nodes in its lists. Dlist models it over a store of prev and next fields by address. An
-- operation takes the store and returns a result and the next store, or nothing where the code
-- would follow a null pointer. Dlist.Chain says what a list in the store stands for, the sequence
-- of its nodes; Dlist.Insert, Dlist.Fresh, Dlist.Remove, Dlist.Pop, Dlist.Query and Dlist.Check
-- say what the operations do to it. The check for loops runs on fuel; its theorems give the number
-- of rounds that is enough.
--
-- src/rbtree.c: RbTree has the tree over a store of the fields of its nodes by address, in the
-- same style. The code writes most steps twice, mirrored; the model has them once, with a side as
-- argument. RbTree.Shape says what a tree in the store stands for and what the rest of a tree
-- around a subtree is, RbTree.Turn and RbTree.Focus what rotations, colours and moves do to both,
-- RbTree.Fix what the repair after an insertion makes of a tree as a value, RbTree.Round and
-- RbTree.Repair that the code does that to the store, and RbTree.Path, RbTree.Place, RbTree.Link,
-- RbTree.Insert and RbTree.Grow put the insertion together. RbTree.Search and RbTree.Traverse have
-- the search and the walks. The search, the insertion with its repair, and the walks run on fuel
-- above the number of nodes, which their theorems show to be enough; of the fuel of the repair
-- after a removal nothing is shown.
--
-- src/ringbuf.c: RingBuf has the ring with the bytes of its memory. Its abstract view is the queue
-- of the stored bytes (RingBuf.Inv). The `long` arithmetic is that of natural numbers, since
-- offsets and lengths are not negative and their sums stay below 2^63. The calls of src/mmspace.c
-- in rbuf_create are two Boolean arguments, for whether they succeed.
--
-- src/hash.c: Hash has the table, whose buckets are lists of Dlist. The strings at the nodes are a
-- function `key_of`, as the code only reads them. The search runs on fuel, one round for each
-- node.
--
-- src/timer.c: Timer has the wheel, its lists being lists of Dlist: Timer.Slots says which list a
-- timer goes into, Timer.Add what adding one does. The cascades and the ticks are not modelled.
--
-- src/utask.c: Utask has the states of a task. The switches between the stacks are assembly, and
-- what the zone and the allocations return are arguments.
--
-- src/bin_tree.c: BinTree has the tree over a store of the fields of its nodes.
--
-- src/stkpool.c: StkPool has the pool of stack frames: a node for each frame, in a list of Dlist
-- where it is free. StkPool.Frames is the invariant, StkPool.Alloc and StkPool.Release the two
-- calls, StkPool.Init, StkPool.Create and StkPool.Ready the creation, StkPool.Contract the
-- contract, StkPool.Clients the histories of clients. The size of a page and the refusals of
-- mprotect are parameters; the fuel of the count is the end of the area and two.
--
-- src/mmspace.c: MmCache has the object caches: slabs with a word of allocation bits
-- (MmCache.Bits, MmCache.Counts, MmCache.Objects), in three lists of Dlist by how full they are
-- (MmCache.Slabs); MmCache.Alloc and MmCache.Free are the two calls, MmCache.Grow, MmCache.Sizes
-- and MmCache.Recall how slabs come and go. The page that the page area returns is an argument.
--
-- src/mmpool.c: MmPool has the buddy pool, its blocks, nodes and lists, MmPool.Merge how two
-- blocks become one, MmPool.Calls the calls. MmPool.Blocks, MmPool.Buddies and MmPool.Index say
-- what a block, a pair of buddies and a list are, MmPool.Keeps what the operations leave alone,
-- MmPool.Rounds what the merges come to, MmPool.Fill how far the loops of the creation run,
-- MmPool.Layout and MmPool.Places where its sections lie, MmPool.Creation and MmPool.Reload what
-- is found by its address. A result of the state monad is nothing where the code would follow a
-- null pointer or shift too far; a loop whose fuel has run out returns `none` inside of it, so
-- that the two are told apart. The fuel of the merges is one more than the number of times that
-- the size of the block must be doubled to reach the largest size; for the creation it is above
-- the end of the chunk. The label and the two ends of an area are kept by address, so that there
-- can be several pools; the other fields are those of one pool.
--
-- src/shmem.c: Shmem has the blocks of shared memory, Shmem.Blocks what is known of a block that
-- has been made. The calls of the operating system are parameters.
--
-- src/ipc.c: Ipc has the channels: a key of ShmKey, a block of Shmem and a ring of RingBuf in it;
-- Ipc.Peers has what a peer can do. The memory of a ring is the part of the segment from the begin
-- of the area on; a copy that leaves it gives `none`.
--
-- src/graph.c: Graph has the table of nodes, which is a tree of RbTree, and their lists. Keys are
-- not negative. The functions that pass a null `hot` to the search are left out, they are
-- undefined.
--
-- src/mmops.c and inc/mmops.h: ShmKey has the keys of shared memory segments.
--
-- src/misc.c: Misc has the bit scans, the powers of two and the alignment of sizes and pointers,
-- on words of 64 bits. A value that C or the processor leaves undefined is `none`. The copy loop
-- and the time stamp counter of the file are left out, they depend on the processor.
--
-- Not modelled: the assembly of the context switches, the socket and epoll calls of src/net.c, the
-- empty src/radix.c and the test programs under test/; of src/timer.c the ticks; of src/mmspace.c
-- the areas; of src/mmpool.c the statistics, `_try_spare_block` and `_merge_free_blocks`, which
-- nothing calls; and src/pgpool.c.
pub mod Prelude
pub mod Misc
pub mod Dlist
pub mod RingBuf
pub mod ShmKey
pub mod Hash
pub mod RbTree
pub mod BinTree
pub mod Timer
pub mod Utask
pub mod Graph
pub mod StkPool
pub mod MmCache
pub mod Shmem
pub mod Ipc
pub mod MmPool
