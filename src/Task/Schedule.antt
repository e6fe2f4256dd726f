-- ===== src/Task/Schedule.antt =====
-- kernel/tkernel/task.c: the task to run and the first of the ready queue.
use esp32c3_mtk.Prelude.{
  ℕ, ◌<◌, ◌≡◌, refl, sym, ◌∙◌, true, false, List, [], ◌∷◌, ◌++◌, none, some, ltb, if◌then◌else◌,
  contains, arith, List-cases, Bool-cases, inl, inr,
}
use esp32c3_mtk.Types.{Tcb, rdy, ready, same_task}
use esp32c3_mtk.Kernel.{Kernel}
use esp32c3_mtk.ReadyQueue.{RdyQue, top, insert, delete, rotate}
use esp32c3_mtk.ReadyQueue.Invariant.{
  IsReadyQueue, IsLinked, insert-IsReadyQueue, delete-IsReadyQueue, rotate-IsReadyQueue,
}
use esp32c3_mtk.Task.{
  make_ready, make_non_ready, change_ready_priority, rotate_ready_queue, rotate_ready_queue_run,
  reschedule,
}

-- The scheduler's state while no task holds a kernel lock: the ready queue is right, and
-- `knl_schedtsk` is its first task.
pub record IsScheduled (k : Kernel) : Type 0 where
  pub queue : IsReadyQueue k.rq
  pub unlocked : k.rq.klocktsk ≡ none
  pub first : k.schedtsk ≡ top k.rq

-- The first task after an insertion: the new one if it is better than all, else as before.
top-insert :
    (rq : RdyQue) (t : ℕ) (tcb : Tcb)
    → IsReadyQueue rq
    → rq.klocktsk ≡ none
    → tcb.klocked ≡ false
    → tcb.priority < 32
    → top (insert rq t tcb).0 ≡ (if (insert rq t tcb).1 then some t else top rq)
unfolding top insert
top-insert rq t tcb v u l h = elim (Bool-cases (ltb tcb.priority rq.top_priority)) [
  | inl higher ↦ ground (arith, v.above tcb.priority, List-cases (rq.que (rdy tcb.priority)))
  | inr lower ↦ ground (arith, v.at_top, List-cases (rq.que (rdy rq.top_priority)))
]

-- `knl_make_ready` keeps the scheduler's state right (the ready queue is right, no task holds a
-- kernel lock, and `knl_schedtsk` is the first task of the ready queue), for a task with a
-- priority below 32 whose lock flag is not set.
pub make_ready-IsScheduled :
    (k : Kernel) (t : ℕ)
    → IsScheduled k
    → (k.tcb t).priority < 32
    → (k.tcb t).klocked ≡ false
    → IsScheduled (make_ready k t)
unfolding make_ready
make_ready-IsScheduled k t v h l =
    let c = record (k.tcb t) { state = ready } in
    record {
      queue = insert-IsReadyQueue k.rq t c v.queue h;
      unlocked = unfold insert in ground (arith, v.unlocked);
      first = ground (arith, v.first, top-insert k.rq t c v.queue v.unlocked l h);
    }

-- Another task than the first leaves.
top-delete :
    (rq : RdyQue) (t : ℕ) (tcb : Tcb)
    → IsReadyQueue rq
    → rq.klocktsk ≡ none
    → tcb.priority < 32
    → same_task (top rq) t ≡ false
    → top (delete rq t tcb).0 ≡ top rq
unfolding top delete
top-delete rq t tcb v u h n =
    ground (arith, v.at_top, v.top_le, List-cases (rq.que (rdy rq.top_priority)))

-- `knl_make_non_ready` keeps the scheduler's state right, for a task that is in the list of its
-- priority, or waits for a lock object and is in no ready list.
pub make_non_ready-IsScheduled :
    (k : Kernel) (t : ℕ)
    → IsScheduled k
    → IsLinked k.rq t (k.tcb t)
    → ((k.tcb t).klockwait ≡ false → contains t (k.rq.que (rdy (k.tcb t).priority)) ≡ true)
    → IsScheduled (make_non_ready k t)
unfolding make_non_ready
make_non_ready-IsScheduled k t v l r = record {
  queue = delete-IsReadyQueue k.rq t (k.tcb t) v.queue l r;
  unlocked = unfold delete in ground (arith, v.unlocked);
  first = elim (Bool-cases (same_task k.schedtsk t)) [
    | inl e ↦ rw e refl
    | inr e ↦ rw e (
        v.first
        ∙ sym (top-delete k.rq t (k.tcb t) v.queue v.unlocked l.in_range (rw (← v.first) e)))
  ];
}

-- The branch of `knl_change_task_priority` for a READY task keeps the scheduler's state right, for
-- a task that is in the list of its priority, or waits for a lock object and is in no ready list,
-- whose lock flag is not set, and a new priority below 32.
pub change_ready_priority-IsScheduled :
    (k : Kernel) (t priority : ℕ)
    → IsScheduled k
    → IsLinked k.rq t (k.tcb t)
    → ((k.tcb t).klockwait ≡ false → contains t (k.rq.que (rdy (k.tcb t).priority)) ≡ true)
    → (k.tcb t).klocked ≡ false
    → priority < 32
    → IsScheduled (change_ready_priority k t priority)
unfolding change_ready_priority reschedule
change_ready_priority-IsScheduled k t priority v l r u h = record {
  queue =
      insert-IsReadyQueue (delete k.rq t (k.tcb t)).0 t
        (record (delete k.rq t (k.tcb t)).1 { priority = priority })
        (delete-IsReadyQueue k.rq t (k.tcb t) v.queue l r) h;
  unlocked = unfold insert delete in ground (arith, v.unlocked);
  first = refl;
}

-- `knl_rotate_ready_queue` keeps `knl_schedtsk` right.
pub rotate_ready_queue-IsScheduled :
    (k : Kernel) (priority : ℕ) → IsScheduled k → IsScheduled (rotate_ready_queue k priority)
unfolding rotate_ready_queue reschedule
rotate_ready_queue-IsScheduled k priority v = record {
  queue = rotate-IsReadyQueue k.rq priority v.queue;
  unlocked = unfold rotate in v.unlocked;
  first = refl;
}

-- When the scheduler's state is right and the list of the best priority holds `t`, `u` and then
-- `ts`, `knl_rotate_ready_queue_run` makes it `u`, `ts` and then `t`, and `u` is the task to run.
pub rotate_ready_queue_run-next :
    (k : Kernel) (t u : ℕ) (ts : List ℕ)
    → IsScheduled k
    → k.rq.top_priority < 32
    → k.rq.que (rdy k.rq.top_priority) ≡ t ∷ u ∷ ts
    → ((rotate_ready_queue_run k).schedtsk ≡ some u)
      × ((rotate_ready_queue_run k).rq.que (rdy k.rq.top_priority) ≡ u ∷ ts ++ t ∷ [])
unfolding rotate_ready_queue_run rotate_ready_queue reschedule rotate top
rotate_ready_queue_run-next k t u ts v h e =
    (ground (arith, v.first, v.unlocked), ground (arith, v.first, v.unlocked))
