-- ===== src/ObjectLock.antt =====
-- kernel/tkernel/klock.c: the locks that tasks take on objects of the kernel.
pub mod Handover
use esp32c3_mtk.Prelude.{
  ℕ, Bool, true, false, not, List, [], ◌∷◌, Option, none, some, if◌then◌else◌,
}
use esp32c3_mtk.Types.{Tcb, lock, set_que, que_insert}
use esp32c3_mtk.ReadyQueue
use esp32c3_mtk.Kernel.{Kernel, update, que_of}

-- The branch of `knl_LockOBJ` that takes the lock.
unfoldable pub taken : Kernel → ℕ → ℕ → Kernel
taken k l t = record k {
  tcb = update k.tcb t (record (k.tcb t) { klocked = true });
  rq = record k.rq { que = set_que k.rq.que (lock l) []; klocktsk = some t };
  lock_taken = update k.lock_taken l true;
}

-- The branch of `knl_LockOBJ` that waits for it.
unfoldable pub queued : Kernel → ℕ → ℕ → Kernel
unfolding ReadyQueue.delete ReadyQueue.top
queued k l t =
    let (rq, c) = ReadyQueue.delete k.rq t (k.tcb t) in
    let rq' = record rq { que = que_insert rq.que t (lock l) } in
    record k {
      tcb = update k.tcb t (record c { klockwait = true });
      rq = rq';
      schedtsk = ReadyQueue.top rq';
    }

-- One round of `knl_LockOBJ` for the task `t` in execution: the Boolean is `klocked`, whether the
-- call returns. Otherwise it tries again once the task runs again.
unfoldable pub lock_obj : Kernel → ℕ → ℕ → Kernel × Bool
lock_obj k l t =
    if (k.tcb t).klocked
    then (k, true)
    else if not (k.lock_taken l)
    then (taken k l t, true)
    else (queued k l t, false)

-- `knl_UnlockOBJ` for the task `t` in execution, by the lock's queue.
abbrev handed_over : Kernel → ℕ → List ℕ → Kernel
handed_over k l [] = record k {
  lock_taken = update k.lock_taken l false;
  schedtsk = ReadyQueue.top k.rq;
}
handed_over k l (u ∷ us) =
    let c = record (k.tcb u) { klockwait = false; klocked = true } in
    let rq = ReadyQueue.insert_top (record k.rq { que = set_que k.rq.que (lock l) us }) u c in
    record k { tcb = update k.tcb u c; rq = rq; schedtsk = ReadyQueue.top rq }

unfoldable pub unlock_obj : Kernel → ℕ → ℕ → Kernel
unfolding ReadyQueue.insert_top ReadyQueue.top
unlock_obj k l t =
    let k' = record k {
      tcb = update k.tcb t (record (k.tcb t) { klocked = false });
      rq = record k.rq { klocktsk = none };
    } in
    handed_over k' l (que_of k' (lock l))
