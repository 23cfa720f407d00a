-- ===== src/Lib.antt =====
-- The concurrent queues of this repository, and proofs about their operations.
--
-- The program is seven queue classes, header files under include/, with the interface
-- `enqueue(T*)` and `bool dequeue(T*&)`.
--
-- How code is modelled. Base has the shared names. Fifo is the specification: an atomic queue,
-- whose calls take effect at one moment between call and return; Fifo/Kept and Fifo/Refused follow
-- an item through its runs. Machine is the frame for a class: its fields and nodes (`Mem`), the
-- places in its code where a thread may stand with the locals that are live there (`Pc`), and one
-- access to shared memory (`move`); any number of threads call the object and their accesses
-- interleave in any order (`Step`, `Reach`). Memory is sequentially consistent: the weaker orders
-- that some classes ask for are not modelled. `new` returns any address that holds no node; a weak
-- compare-exchange may fail for no reason; a mutex is taken only when it is free. An access
-- through a pointer that leads to no node is the outcome `fault`. Machine/Simulation states
-- linearizability as one obligation for each access, and its children derive the histories from
-- them. Machine/Alone is a thread that moves while the others pause, Machine/Measure shows by a
-- measure on places that it returns, Machine/Locks ties the holder of a mutex to its place,
-- Machine/Invariant is the induction for invariants of memory and places, Machine/Relies for those
-- that tie places to the memory, and Machine/Schedule runs threads in a given order.
--
-- Chain is the linked list of all nodes ever linked, by position, which two classes share. Ms is
-- include/ms_queue.hpp and Valois is include/valois_queue.hpp: `move` has one clause for each
-- access in `enqueue` and `dequeue` (and `retire`), and the children of the module prove what a
-- thread knows at each place. Live is the same for lists whose nodes are deleted: the nodes in
-- front of the head are gone. TwoLock is include/two_lock_queue.hpp and Mutex is
-- include/mutex_queue.hpp, whose accesses under the one mutex are one step.
--
-- Destroy is the loop of the destructors of these two and of `delete_chain` of ValoisQueue, on
-- fuel that is proved to be enough, and the lists that it deletes.
--
-- Word is arithmetic on `uint64_t` and words with a flag in the top bit, written out modulo 2 ^
-- 64. Crq is the class `CRQ` of include/lcr_queue.hpp, a ring of cells that can be closed, with
-- the ring's size and threshold of the source; Prq is the class `PRQ` of include/lpr_queue.hpp,
-- with the address of each thread's token as a parameter. RingList is the list of rings, the code
-- that `LCRQueue` (Lcr) and `LPRQueue` (Lpr) share, over any ring class; Lcr and Lpr are its two
-- instances. Work is include/work.hpp, with the time that the clock shows as a parameter.
-- Correctness is src/correctness.cc: the tests with one thread are programs that call a queue,
-- with any addresses for the items, and Correctness/Consumers is what the test with producers and
-- consumers checks, with the library's `sort` as a parameter. Benchmark is the choice of samples
-- in src/benchmark.cc, and Benchmark/Workers the loop of its worker threads, with the times of the
-- clock as a parameter.
--
-- Not modelled: the destructors of the other classes (of ValoisQueue, `delete_retired`);
-- include/plj_queue.hpp; the padding of fields; the pinning of threads, the barrier, the summary,
-- the command line and the output of src/benchmark.cc; the loops of the threads of
-- src/correctness.cc; src/calibrate.cc.
pub mod Base
pub mod Fifo
pub mod Machine
pub mod Chain
pub mod Ms
pub mod Valois
pub mod Live
pub mod TwoLock
pub mod Mutex
pub mod Destroy
pub mod Word
pub mod Correctness
pub mod Crq
pub mod Prq
pub mod RingList
pub mod Lcr
pub mod Lpr
pub mod Work
pub mod Benchmark
