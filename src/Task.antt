-- ===== src/Task.antt =====
-- kernel/tkernel/task.c and task.h: the states of a task and the choice of the task to run.
pub mod Schedule
use esp32c3_mtk.Prelude.{
  ℕ, zero, suc, ◌+◌, ◌≤◌, ◌<◌, ◌≡◌, Bool, true, false, List, [], ◌∷◌, Option, none, some, ◌==◌,
  if◌then◌else◌,
}
use esp32c3_mtk.Types.{Tcb, TaskState, ready, dormant, ok, same_task}
use esp32c3_mtk.ReadyQueue
use esp32c3_mtk.ReadyQueue.{RdyQue}
use esp32c3_mtk.Kernel.{Kernel, set_tcb, update}

-- `knl_make_dormant`, where no call is pending any more, so that the cell of `wercd` holds nothing of
-- use; but for the stack, which `knl_setup_context` prepares, and the execution
-- times.
unfoldable pub make_dormant : Kernel → ℕ → Kernel
make_dormant k t =
    let c = k.tcb t in
    set_tcb k t (record c {
      state = dormant;
      priority = c.ipriority;
      bpriority = c.ipriority;
      wupcnt = 0;
      suscnt = 0;
      klockwait = false;
      klocked = false;
      wercd = ok;
      mtxlist = [];
    })

-- `knl_reschedule`
unfoldable pub reschedule : Kernel → Kernel
unfolding ReadyQueue.top
reschedule k = record k { schedtsk = ReadyQueue.top k.rq }

-- `knl_make_ready`
unfoldable pub make_ready : Kernel → ℕ → Kernel
unfolding ReadyQueue.insert
make_ready k t =
    let c = record (k.tcb t) { state = ready } in
    let (rq, higher) = ReadyQueue.insert k.rq t c in
    record k { tcb = update k.tcb t c; rq = rq; schedtsk = if higher then some t else k.schedtsk }

-- `knl_make_non_ready`
unfoldable pub make_non_ready : Kernel → ℕ → Kernel
unfolding ReadyQueue.delete ReadyQueue.top
make_non_ready k t =
    let (rq, c) = ReadyQueue.delete k.rq t (k.tcb t) in
    record k {
      tcb = update k.tcb t c;
      rq = rq;
      schedtsk = if same_task k.schedtsk t then ReadyQueue.top rq else k.schedtsk;
    }

-- The branch of `knl_change_task_priority` for a READY task.
unfoldable pub change_ready_priority : Kernel → ℕ → ℕ → Kernel
unfolding ReadyQueue.delete ReadyQueue.insert reschedule
change_ready_priority k t priority =
    let (rq, c) = ReadyQueue.delete k.rq t (k.tcb t) in
    let c' = record c { priority = priority } in
    reschedule (record k { tcb = update k.tcb t c'; rq = (ReadyQueue.insert rq t c').0 })

-- `knl_rotate_ready_queue`
unfoldable pub rotate_ready_queue : Kernel → ℕ → Kernel
unfolding ReadyQueue.rotate reschedule
rotate_ready_queue k priority = reschedule (record k { rq = ReadyQueue.rotate k.rq priority })

-- `knl_rotate_ready_queue_run`
unfoldable pub rotate_ready_queue_run : Kernel → Kernel
unfolding rotate_ready_queue
rotate_ready_queue_run k = elim k.schedtsk [
  | none ↦ k
  | some t ↦ rotate_ready_queue k k.rq.top_priority
]
