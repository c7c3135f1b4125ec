-- ===== src/Lib.antt =====
-- Verification of the programs of a course on multicore programming.
--
-- Parts, files here, and code, by its path from the root of the repository:
--
-- Project 2, transactions over a database with a lock table and deadlock detection (project2/):
--   Project2/Database   project2/src/database.cpp: Record and Database; an exception is none.
--   Project2/RwLock     project2/src/locktable.cpp: RWLock, a queue of requests; an iterator is the number of
--                       its node.
--   Project2/LockTable  project2/src/locktable.cpp: LockTable. `request` is rwlock up to its waiting loop and
--                       `poll` one test of the loop. The recursion of detectCycle is on fuel, of
--                       which one more than there are workers is enough.
--   Project2/Worker     project2/src/worker.cpp: the undo records of a transaction, and rollback.
--   Project2/System     project2/src/worker.cpp, project2/src/globalstate.cpp, project2/src/main.cpp: workTransaction and doWork
--                       of all workers, as steps that interleave in any order. A step is what one
--                       worker does in a critical section of the global mutex, or between two of
--                       them on records that it has locked.
--   Project2/Validator  project2/src/validator.cpp: the check of the files that the workers have written.
--   The workers call the lock table, the database and their undo records; the validator reads their
--   files only. Values are 64-bit patterns that wrap around. The numbers of records, workers and
--   transactions are not bounded, so the wrap-around of the 32-bit order number is not modelled, nor
--   are the start of the threads, the output under VERBOSE, and the random numbers, which are
--   arguments of a step.
--
-- Project 3, an atomic snapshot (project3/):
--   Project3/Scan       project3/src/snapshot.cpp: Snapshot::scan over what its collects find. The loop is on
--                       fuel, one more than there are registers.
--   Project3/Updates    project3/src/snapshot.cpp: the registers over time, collect and update.
--   Project3/Workers    project3/src/worker.cpp, project3/src/main.cpp: the threads from their creation to their end.
--   Stamps are not bounded. An update is its store, with any snapshot, so nothing is said here of the
--   snapshot that a scan borrows but where it was stored.
--
-- Project 1, an external sort (project1/):
--   Project1/Bufio      project1/src/bufio.cpp. Files are byte sequences, and the system calls do as much as
--                       they are asked for. A copy over the end of the buffer is none.
--   Project1/Partition  project1/src/main.cpp: the lengths of runs, reads and buffers.
--   Project1/Reads      project1/src/main.cpp: the parallel reads of phase1_sorting, which find all bytes
--                       that they ask for, in any order.
--   Project1/Records    project1/src/main.cpp: get_next_record, on runs of whole records.
--
-- Exercises:
--   Lab03               lab03/prime_mt.cpp: IsPrime, on fuel n for a number n, and the threads that
--                       share a range of numbers from 0 on, below the largest int.
--   Lab04/CondStep1     lab04/prime_cond_step1.cpp: the same threads, alive for all ranges and woken
--                       by a condition variable; a wait ends by a broadcast, or by itself.
--   Lab10               lab10/prac_taslock.cpp and lab10/prac_ttaslock.cpp: spin locks, a step for
--                       each shared access, in a sequentially consistent memory.
--   Lab11/CoarseList    lab11/coarse_grained.cpp: a sorted list under one mutex, with its workload.
--                       An int is counted from INT_MIN on.
--   Lab11/Nodes         the ways along the pointers of the next programs; Lab11/Chain: the nodes in order.
--   Lab11/History       what it is for calls on a shared set to be like calls one after the other.
--   Lab11/FineGrained   lab11/fine_grained.cpp: the list with a mutex in each node. `linked` and `chain`
--                       say which nodes are in the list, and in which order, also between the two
--                       writes of list_add; free makes an address one that malloc may give again.
--   Lab11/Optimistic    lab11/optimistic.cpp: the list that is searched without a lock and then
--                       checked, a step for each access of shared memory or of a mutex. A node is
--                       `linked` from the write that links it on, also after it is taken out; the
--                       numbers of the calls and their history are kept beside the state.
--   Lab11/LockFree      lab11/lockfree.cpp: the list whose pointers bear marks, a step for each shared
--                       access. A node is `linked` from the CAS that links it on. malloc gives the
--                       address of no block in use, an argument of the step.
--   Lab12/GiantLock     lab12/queue_giantlock.cpp: a bounded queue under one mutex.
--   Lab12/Tickets       lab12/queue_bounded.cpp: a ring of buckets with tickets, a step for each shared
--                       access.
--
-- Base holds what the parts share. Each part has its tests in a module of its own.
--
-- Not modelled: the other exercises, among them the template of the lists, the queue
-- of Lab 13, the radix sort and the merge of Project 1, input and output, and the libraries.
pub mod Base
pub mod Lab03
pub mod Lab04
pub mod Lab10
pub mod Lab11
pub mod Lab12
pub mod Project1
pub mod Project2
pub mod Project3
