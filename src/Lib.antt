-- ===== src/Lib.antt =====
-- µT-Kernel 3.0 for the ESP32C3: the scheduler, the timer queue, waits, semaphores, event flags,
-- mailboxes, message buffers, mutexes, pools of memory blocks, task synchronization, cyclic and
-- alarm handlers and the clock.
--
-- The program is a real-time kernel. Its core, kernel/tkernel, keeps a table of task control
-- blocks, a ready queue, a timer queue, and for each kind of synchronization object a table of
-- control blocks with a wait queue. A system call runs between BEGIN_CRITICAL_SECTION and
-- END_CRITICAL_SECTION with interrupts disabled on the only core, so it is one step on the
-- kernel's state; a dispatch happens between such steps. The files:
--
-- Types, Kernel: the control blocks (kernel/knlinc/kernel.h, kernel/tkernel/task.h, winfo.h,
--   semaphore.h, eventflag.h, mailbox.h, messagebuf.h, mutex.h, mempfix.h, timer.h) and the
--   kernel's variables as one record. A pointer to a control block is its ID. All rings of TCBs
--   (include/sys/queue.h) are one store, `Queues`, from list heads to lists: QueInsert appends,
--   and QueRemove takes a TCB out of whatever ring it is in. `wercd`, `p_flgptn`, `ppk_msg`,
--   `rmbf` and `p_blf` stand for the cells that pointers of a TCB point to.
-- Bits: the bit operations on unsigned words, bit by bit.
-- ReadyQueue: kernel/tkernel/ready_queue.h, with NUM_TSKPRI 32 (one bitmap word).
--   ReadyQueue/Invariant has its invariant, ReadyQueue/Order the order of service.
-- Task: the choice of the task to run, kernel/tkernel/task.c (make_ready is knl_make_ready, and
--   so on). Task/Schedule has the invariant of knl_schedtsk.
-- Timer: kernel/tkernel/timer.c. Times are 32-bit words that wrap around, TIMER_PERIOD is 1. The
--   callbacks are a parameter of the handler. Timer/Order has the order by the sort key.
-- Wait: kernel/tkernel/wait.c and wait.h. Wait/Frame and Wait/Block say what a release and a
--   wait change, Wait/Insertion and Wait/Delete are about the queues.
-- Semaphore, EventFlag, Mailbox: kernel/tkernel/semaphore.c, eventflag.c and mailbox.c (sig_sem
--   is tk_sig_sem, and so on; knl_ and tk_ are left off). A loop over a wait queue is a recursion
--   on the list of its tasks from where the loop's `queue` stands. A `goto error_exit` is the
--   branch that returns the code. A call that may block gives a `Reply`: the code it returns, or
--   that its task now waits.
-- MessageRing: the ring of bytes of kernel/tkernel/messagebuf.c, with headers, rounded sizes and
--   both going round. MessageRing/Contents says which messages it holds, MessageRing/Memory is
--   about headers and rounding, MessageRing/Write and MessageRing/Read about knl_msg_to_mbf and
--   knl_mbf_to_msg.
-- MessageBuffer: the calls of messagebuf.c (snd_mbf is tk_snd_mbf, and so on). A message is a
--   size and the memory from its first byte on. MessageBuffer/Manage has creation, deletion and
--   inspection, MessageBuffer/Fifo what a buffer promises, the others how the calls keep it.
-- Mutex: kernel/tkernel/mutex.c. knl_change_task_priority is an argument there, since its hook
--   calls back; Mutex/Owner has the record of what mutexes rely on of it (`IsChange`). The chain
--   `mtxlist` of a task is a list. Mutex/Calls, Mutex/Handover and Mutex/Priority are about the
--   calls.
-- FixedPool: kernel/tkernel/mempfix.c. Addresses are numbers, the chain of free blocks runs
--   through a memory of links; the lock of a pool is the object lock of its number.
--   FixedPool/Blocks is about the blocks, FixedPool/Calls about the calls.
-- TaskSync, TaskManage: kernel/tkernel/task_sync.c and parts of task_manage.c.
--   TaskManage/Lifecycle has the calls that create, end and delete a task, without its stack, and
--   tk_chg_pri.
-- ObjectLock: kernel/tkernel/klock.c; a round of the retry loop of knl_LockOBJ is one step, and
--   the task in execution an argument. ObjectLock/Handover says who gets a lock.
-- Hooks: the parts of wait.c and task.c that call the hooks of a wait specification, which is a
--   name here (`WSpec`) with its hooks chosen by clauses. Hooks/Release is about semaphores,
--   Hooks/Chain about the calls of knl_change_task_priority inside one another, Hooks/Laws about
--   what it leaves alone.
-- Cyclic, Alarm, SystemTime: kernel/tkernel/time_calls.c and time_calls.h. The call of a user's
--   handler is an argument; the time of an event block is a field of its handler's control block.
--   Cyclic/Phase says when a cyclic handler runs. Callbacks: the timer's handler with the
--   callbacks of waits and handlers; Callbacks/Due, Callbacks/Timely and Callbacks/Ticks are about
--   a tick. Hooks/Frame has what the hooks are made of.
-- Shim: components/freertos_shim, the adapter of another kernel's calls to this one's. Shim/Ring
--   has the ring buffer of a queue, Shim/Queues and Shim/Receiving the calls on handles
--   (OneSlot and Runs there are about length 1), Shim/Semaphores and Shim/Locks what stands behind
--   them, Shim/EventGroups and Shim/SoftTimers shim_evtgrp.c and shim_timer.c. A round of a loop
--   that may wait in the kernel is one step; a task that comes back from its wait goes on with
--   the next round.
-- Memory: kernel/tkernel/memory.c and memory.h, the kernel's allocator (imalloc is knl_Imalloc, and
--   so on). AreaQue is a list of the areas by address, FreeQue a list of sizes with their areas.
--   Memory/Search, Memory/BestFit, Memory/FreeQue and Memory/Insertion are about FreeQue,
--   Memory/Areas, Memory/Division, Memory/Merging, Memory/Pairs, Memory/Coalescing and
--   Memory/Neighbours about AreaQue, Memory/Alloc, Memory/Freeing and Memory/Runs about the calls.
-- Startup, Debug: the initialization of the tables, and the td_lst and td_que calls.
-- Tests: concrete states and the theorems at them.
--
-- Bounds: IDs and priorities are natural numbers; a negative ID is refused as 0 is. The numbers
-- of objects are those of config/config.h (64 tasks, 128 semaphores, 32 event flags, 8
-- mailboxes, 32 message buffers, 64 mutexes, 8 pools of blocks, 16 cyclic and 32 alarm
-- handlers). The loops of knl_mbf_wakeup and of knl_wait_delete have the length of the queue as
-- fuel: each round releases one task. The loop of the timer handler has its fuel as a parameter,
-- as callbacks may insert events: a round takes a due event out, and none comes in. The calls of
-- knl_change_task_priority inside one another have one more than the number of tasks as fuel, as
-- a chain of holders has no task twice. `maxsem - semcnt` in tk_sig_sem is a subtraction on
-- natural numbers, for counts within their limits; a W of a message buffer is the 32-bit word
-- that holds it, and its comparisons are those of numbers, for sizes below 2 ^ 31. What knl_Imalloc
-- returns is an argument of the calls that create objects; addresses do not wrap around.
--
-- Not modelled: the dispatcher, interrupt entry and the register context (assembler and
-- kernel/sysdepend); stacks and start codes; execution times; object names (USE_OBJECT_NAME is
-- 0); the bytes that the allocator's blocks hold, and its sizes above 2147483640, which round up to a
-- negative number; variable-size memory pools, rendezvous, device management; the device drivers, the
-- network parts, and of the shim its tasks, its ports and its stubs.
pub mod Prelude
pub mod Bits
pub mod Types
pub mod ReadyQueue
pub mod Kernel
pub mod Timer
pub mod Task
pub mod Wait
pub mod Semaphore
pub mod EventFlag
pub mod Mailbox
pub mod MessageRing
pub mod MessageBuffer
pub mod Mutex
pub mod FixedPool
pub mod TaskSync
pub mod ObjectLock
pub mod Hooks
pub mod TaskManage
pub mod Startup
pub mod Debug
mod Tests
pub mod Cyclic
pub mod Alarm
pub mod SystemTime
pub mod Callbacks
pub mod Shim
pub mod Memory
