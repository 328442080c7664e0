-- ===== src/Lib.antt =====
-- Models of parts of the Contrail common library, with the theorems that make them correct.
--
-- The bit set (base/bitset.h, base/bitset.cc). A set of positions is a vector of 64 bit blocks whose
-- last block is not 0. Word64 has the static helpers on one block, with the C library's ffs as its
-- documented result; BitSet has the class and its point operations; BitSet/Search has find_first,
-- find_next, find_last and the searches for clear positions; BitSet/Pair has the operators and
-- functions on two sets; BitSet/Strings the string forms. Names are those of the code, with set_all
-- and reset_all for Set and Reset, and none_set and any_set for none and any. A block is a number;
-- complements and masks wrap at 2^64. The loop of num_bits_set runs on 64 rounds of fuel: each round
-- clears one digit 1 of the block. The loops of the string forms have a round for each position up to
-- the last.
--
-- The task scheduler (base/task.h, base/task.cc). Task has the records of tasks, entries, groups and
-- of the scheduler, with pointers as numbers or EntryRef into a store; a failed assert is none.
-- Task/Run has the wait queues, the deferral queues, the policy checks and the start of tasks;
-- Task/Scheduler has Enqueue, OnTaskExit, Stop, Start and the walks over deferred entries;
-- Task/Control has SetPolicy, Cancel and the enabling of groups and entries; Task/Reachable has all of
-- these as the steps of one machine. What runs is told by the run counts of groups and entries, as in
-- the policy checks. A call of TBB's is the flag has_impl. Each operation is a step, one after the
-- other: most run under the scheduler's mutex, while DisableTaskGroup, EnableTaskGroup,
-- DisableTaskEntry and EnableTaskEntry take none, so that their callers must not let them overlap with
-- others. Sequence numbers do not wrap, and run counts stop at 0. A walk over a deferral queue
-- has the length of the queue and one or two rounds more as fuel, since a round takes an entry out and
-- puts back at most the one that owns the queue; its state so far stands where the fuel ends.
--
-- Work queues (base/queue_task.h, base/watermark.h, base/watermark.cc). WaterMark has the marks whose
-- crossing is reported; WorkQueue has the queue, with its count wrapping at 2^64, and the calls that
-- an operation makes of callbacks and of the scheduler as a list; WorkQueue/Runner has
-- QueueTaskRunner. The queue's callback is an argument, which gives its answer and the entries that it
-- enqueues. The loop of a run has the bound on iterations as fuel, since it ends when its count
-- reaches that bound; a bound of 0, which the code never reaches, gives no result here.
--
-- Tables over the bit set. LabelBlock has the label blocks and their manager (base/label_block.h,
-- base/label_block.cc), IndexAllocator the allocator of indices (base/index_allocator.h,
-- base/index_allocator.cc), IndexMap the map with an index (base/index_map.h). A pointer to a block or
-- to a value is a number; the loop of AllocateLabel has the two rounds that the code gives it.
--
-- The Sandesh state machine of the collector (sandesh/library/cpp/sandesh_state_machine.h and .cc).
-- SandeshStateMachine has the states, the events with their reactions, the event queue and the calls
-- that enqueue; SandeshStateMachine/Receive has OnSandeshMessage, DoDropSandeshMessage of
-- sandesh/library/cpp/sandesh.cc, and the byte count of the queue. The connection's virtual methods
-- and the message reader are arguments of the definitions that use them.
--
-- The state machine of a Sandesh client (sandesh/library/cpp/sandesh_client_sm.cc, sandesh_client_sm.h
-- and sandesh_client_sm_priv.h). SandeshClientSm has the state, the timers, the collectors and the
-- states' constructors and destructors; SandeshClientSm/Events has the reactions, DequeueEvent and the
-- calls that enqueue. The manager's virtual methods are arguments; a null pointer that is followed is
-- none. SandeshStateMachine and SandeshClientSm have the same shape and share no code, as in the
-- source.
--
-- Messages over TCP (io/tcp_session.h, io/tcp_session.cc, io/tcp_message_write.h,
-- io/tcp_message_write.cc). TcpMessageReader has the class of that name: OnRead with BufferConcat,
-- PullUp, QueueByteLength and AllocBufferSize. A subclass's virtual functions and the callback are the
-- record Protocol, and what they promise is IsFraming. The loop over a buffer has the bytes left as
-- fuel, since a message has at least one byte, and the loop that doubles a size the length asked for;
-- the reader's size is a number that does not wrap, and double_int is the same loop on an int.
-- TcpSession has the session's writing side, with TcpMessageWriter; TcpSession/Wire puts the session
-- together with its strand and its socket, whose events come in any order, at one clock time; a
-- close is one step, and a write that fails puts no byte on the wire.
--
-- Timers (base/timer.h, base/timer.cc). Timer has the timer with its waits and its tasks: a wait is
-- known by its sequence number, and a task goes through the parts of TimerTask::Run one after the
-- other, with any steps between them. What the scheduler's Cancel does to a task is told by the part
-- that the task is in. DeleteTimer is one step, though it takes the mutex twice.
--
-- Managed objects (base/lifetime.h, base/lifetime.cc). Lifetime has LifetimeActor and LifetimeManager
-- as one state: the actors by their numbers, and the queue of the events of their deletion, whose task
-- is process. A subclass's answers are arguments and its hooks are calls.
--
-- Common holds the shared tests, list and bit lemmas; the modules named Tests hold examples.
--
-- The tables call the bit set's operations, and a work queue calls the water marks, and the scheduler
-- for its runner, whose cancellation answers with the scheduler's code. In the program the state
-- machine's work queue runs as a task of the scheduler, whose exclusion of tasks makes its events come
-- one at a time.
--
-- Not modelled: statistics output, latency logs, threads, monitoring and TBB itself; the setters and
-- the busy time of a work queue; the reading tasks, options and names of a session; what the hooks of a
-- managed object do; the other parts of the repository, which are I/O, wrappers of
-- external libraries, generated code, or forks of Thrift.
pub mod Common
pub mod Word64
pub mod BitSet
pub mod LabelBlock
pub mod IndexAllocator
pub mod IndexMap
pub mod WaterMark
pub mod WorkQueue
pub mod Task
pub mod TcpMessageReader
pub mod TcpSession
pub mod Timer
pub mod Lifetime
pub mod SandeshStateMachine
pub mod SandeshClientSm
