-- ===== src/Lib.antt =====
-- A verification library of the ricerca kernel: its system calls, its capability tables (universes), the
-- cookies that guard them, remote calls, shared memory and notifications, the scheduler of a core, the
-- locks, the reference counts and the containers that they stand on.
--
-- The parts and their files; paths are those of the repository.
-- - Common: tests on numbers, lists by native index, copying into buffers (Bytes), and how a call ends
--   (Outcome).
-- - Locking/Mutex: src/kernel/thread/locking/mutex.c. `lock` and `unlock` are thread_mutex_lock and
--   thread_mutex_unlock, each one atomic step, since both run under the mutex's spinlock. System has
--   the tasks as a step relation, Fifo the order of the grants.
-- - Locking/RwLock: src/kernel/thread/locking/rwlock.c: `read`, `write` and `unlock`, the local queue
--   of readers being the list of tasks that `wake` returns.
-- - Locking/Spinlock: src/kernel/thread/locking/spinlock.c. Each atomic access is a step: `fetches` and
--   `enters` are thread_spinlock_grab, `loads` and `stores` thread_spinlock_ungrab. Queue has the line of
--   the cores with a ticket. The calls of the other parts run as atomic steps under their spinlocks.
-- - Memory/Refcount: src/kernel/mem/rc.h. Counts wrap at 2^64; a disposal callback is recorded in
--   `disposed` where the source calls it and is not run. The build without DEBUG is modelled, so an
--   ASSERT does nothing.
-- - Memory/SizeOrder: mem_heap_get_size_order and the success of mem_heap_realloc, of
--   src/kernel/mem/heap/heap.c. The loop takes max_order rounds of fuel, which its counter never
--   exceeds.
-- - Memory/Dynarray: src/kernel/lib/dynarray.h: the elements in use and the capacity. Whether an
--   allocation succeeds is an argument of each operation (`alloc`, `mem`).
-- - Memory/Phys: src/kernel/mem/phys. Slab is slab.c, its free lists as lists of blocks by order; Cover
--   counts which addresses a slab has to give. Nodes is phys.c, with the ranges as objects at
--   addresses and the table of the allocated objects; a walk over a node's ranges has fuel, as their
--   links may be spoilt. Walk, Ledger, Enter, Release and System are the callers that allocate and
--   free. A slab returns an Option where the source returns PHYS_NULL, so a region at address 0 is
--   outside the model, and so is a block in the higher half, which the source asserts against.
-- - Memory/Heap: src/kernel/mem/heap/heap.c over Memory/Phys: the free objects and the unused slabs of
--   each node as lists of addresses, and the headers' owners. Carve has the loops that cut chunks and
--   slabs, with as many rounds as there are pieces; Node is an allocation at one node.
-- - Memory/Paging: src/kernel/mem/virt/paging.c over Memory/Phys. A table is the words at its
--   physical address; or_flags is | with a mask of the four flags. Tree has what the processor
--   finds and how often a table is used, Change and Install what one write does, Grow the loop of
--   mem_paging_map_at, Backed and Regen the tables and pages as blocks of the allocator, Missing an
--   unmapping without upper tables, System runs of the calls of one mapper. The spinlock of the
--   root is around `map_locked` and `unmap_at`. mem_paging_unmap_at does not test the upper
--   entries, so without the upper tables it goes on in physical page 0. The walks are recursive on
--   the level, 4 or 5.
-- - Numa: the neighbour lists of src/kernel/sys/numa/numa.c, by the distances of
--   src/kernel/sys/acpi/numa.c.
-- - Targets: src/kernel/lib/target.c: `compute_plan` is target_compute_plan, from the fields that earlier
--   calls have left, on fuel; Work bounds the rounds by the targets and their dependencies.
-- - Containers/PairingHeap: src/kernel/lib/pairing_heap.h. A hook with its `child` and `next` pointers
--   is a value of Hook; the comparator is a parameter with the laws IsStrict.
-- - Status: src/kernel/user/status.h.
-- - Cookie: src/kernel/user/cookie.c. An operation takes the entry cookie and returns the new one,
--   its mutex included; it is `suspended` where the mutex is taken.
-- - Universe: src/kernel/user/universe.c and object.h. Defs has the data and the calls that run
--   under the mutex; Single and Pair the calls on one and on two universes (Operands says whether
--   the two pointers are the same); Life creating, destroying and forking. The free list of cells,
--   an intrusive list in the source, is the list of their indices; ids of universes by address are
--   the argument `ids`. Table has the abstract view, `lookup`, and the invariant; Frame what
--   locking and checking come to; Refusal has the reasons why a table takes no reference; Spec,
--   Errors, Across and Life the theorems.
-- - Containers/Links: src/kernel/lib/list.h, the links being functions of the node's address. Order and
--   Without are about sequences of addresses, Refines and Commands about the operations. The other
--   parts have such a list as the list of its nodes.
-- - Containers/Intmap: src/kernel/lib/intmap.h, a bucket being the list of its nodes. Tally counts how
--   often an address is listed.
-- - Containers/Queue: src/kernel/lib/queue.h over the memory of its nodes. Mutex and RwLock have the
--   sequence that Fifo shows a queue to be.
-- - Shm: src/kernel/user/shm.c and mem/usercopy.h. Defs has the objects and the calls by reference,
--   ById the calls by number and the keys. A spinlock guards short critical sections only, so it does
--   not appear; a copy that would leave an object ends in `fault`. write_at and read_at are the part
--   that a call by reference and one by number share.
-- - Notifications: src/kernel/user/notifications.c. Each call is a step under the mailbox's spinlock;
--   receiving is two where the caller sleeps: recieve_notification, and handle with the channel that
--   the waker has left.
-- - Text: memcmp of src/kernel/lib/string.c, and fmt_putui and fmt_puti of src/kernel/lib/fmt.c. The
--   loop over the digits runs at most once for each byte of the buffer. Format has vsnprintf: `written`
--   is what the buffer holds, and an argument of another type than its specifier asks for, which
--   C leaves undefined, ends it in `none`. Sizes are below 2^31, where they turn into an int.
-- - Symmap: symmap_find_by_addr of src/kernel/lib/symmap.c. The search takes 65 rounds of fuel: each round
--   halves a distance that is below 2^63.
-- - Tls: src/kernel/user/tls.c over Intmap, the values by the address of their node.
-- - Notifications/Boxes: all mailboxes and raisers by address, and user_send_notification and
--   user_recieve_notification on them, for the parts that create raisers.
-- - Rpc: src/kernel/user/rpc.c. Defs has the objects by address, creating and shutting down; Calls
--   the four calls. A queue of containers is the list of their addresses. A call is as many steps
--   as it has sections under a spinlock. user_rpc_initiate is `prepare` under the caller's lock,
--   `enqueue_request` under the callee's and, where the callee is gone, `give_back` under the
--   caller's; user_rpc_return is `take_reply` under the callee's lock and `enqueue_reply_container`
--   under the caller's; accepting and getting a result are one each. System has the interleavings
--   of the sections on one caller and one callee, Containers what one section does to the places
--   that a container can be in, RoundTrip, Shutdown and Faults the runs.
-- - Tasking: src/kernel/thread/tasking/localsched.c and balancer.c. Defs has the state of one core
--   (Localsched) and its handlers; a handler that finds no task ends where the core halts, and
--   idle_round is what a halted core does when it is woken. The time stamp counter is an argument where
--   it is read. Queue has the heap while tasks outside of it change, Places where a task is, Handlers and
--   System the theorems, Wakeup IPIs and time slices, Balancer the choice of a core.
-- - Entry: src/kernel/user/entry.c, one function for each user_sys_ call, named without the prefix
--   user_, in a monad over the state of all objects (System). Env has the calling task, its core and
--   what each allocation of the call returns, in order. with_ref and with_second are the borrowing and
--   the type check that the calls start with. A reference that is dropped last records its object in
--   `disposed`; the destructor is not run. Calls has the 28 calls that look up a handle first,
--   Refusals what they refuse, Access what is read and written by handles.
--
-- How the parts interact: Universe calls Cookie for the pin of a reference, Refcount to borrow and
-- drop, Dynarray to grow its cells, and Mutex for its lock; Cookie calls Dynarray, Refcount and Mutex;
-- Dynarray calls SizeOrder; the heap takes its chunks and large blocks and Paging its tables from
-- Phys, which asks the nodes of a neighbour list in order; Shm finds objects by Intmap and asks
-- Cookie for rights; Shm and Notifications call Refcount; Rpc creates raisers, sends through them and keeps accepted requests in
-- an Intmap; Entry calls all of these; Tasking keeps its queue in a PairingHeap.
--
-- A read behind an array ends a call in `fault`: C promises nothing from there on.
-- Mutexes are taken and given back where the source does so; what other tasks do while a caller sleeps
-- is the subject of Locking/Mutex only. `size_t` is a number below 2^64, with the wrap written out
-- where the source adds; the number of cells is not bounded.
--
-- Not modelled: register frames and the switch to the scheduler's stack, processor bring-up,
-- ACPI, interrupt controllers and output, which are hardware access, as are the saved interrupt flag of a
-- spinlock and the switch to a page table; creating and disposing of page tables; the requests
-- of TLB flushes, whose generation update is not written yet; the loading of the symbol map.
pub mod Common
pub mod Locking
pub mod Memory
pub mod Containers
pub mod Status
pub mod Cookie
pub mod Universe
pub mod Shm
pub mod Notifications
pub mod Text
pub mod Symmap
pub mod Tls
pub mod Tasking
pub mod Rpc
pub mod Entry
pub mod Targets
pub mod Numa
