-- ===== src/Hooks/Laws.antt =====
-- What `knl_change_task_priority` (kernel/tkernel/task.c) leaves alone, by the hooks that it calls.
use esp32c3_mtk.Prelude.{ℕ, suc, refl, arith}
use esp32c3_mtk.Types.{Head}
use esp32c3_mtk.Kernel.{Kernel, max_tskid}
use esp32c3_mtk.Task.{change_ready_priority}
use esp32c3_mtk.Wait.{gcb_change_priority}
use esp32c3_mtk.Semaphore.{grant}
use esp32c3_mtk.MessageBuffer.{store_from, set_mbfcb}
use esp32c3_mtk.Mutex.Owner.{
  SameLocks, SameLocks-refl, SameLocks-trans, wait_release_ok-SameLocks, IsChange,
}
use esp32c3_mtk.Hooks.{change_once, change_by, change_task_priority}
use esp32c3_mtk.Hooks.Frame.{IsFrame, change_by_framed}

gcb_change_priority-SameLocks :
    (k : Kernel) (h : Head) (t : ℕ) → SameLocks k (gcb_change_priority k h t)
unfolding gcb_change_priority
gcb_change_priority-SameLocks k h t = record { mtxcb = refl; mtxlist = λ u. refl }

change_ready_priority-SameLocks : (k : Kernel) (t p : ℕ) → SameLocks k (change_ready_priority k t p)
unfolding change_ready_priority
change_ready_priority-SameLocks k t p = record { mtxcb = ground arith; mtxlist = λ u. ground arith }

grant-SameLocks : (k : Kernel) (i t : ℕ) → SameLocks k (grant k i t)
unfolding grant
grant-SameLocks k i t =
    let released = wait_release_ok-SameLocks k t in
    record { mtxcb = released.mtxcb; mtxlist = released.mtxlist }

store_from-SameLocks : (k : Kernel) (i t : ℕ) → SameLocks k (store_from k i t)
unfolding store_from
store_from-SameLocks k i t =
    let released = wait_release_ok-SameLocks (set_mbfcb k i _) t in
    record { mtxcb = released.mtxcb; mtxlist = released.mtxlist }

SameLocks-IsFrame : IsFrame SameLocks
SameLocks-IsFrame = record {
  same = SameLocks-refl;
  next = SameLocks-trans;
  gcb = gcb_change_priority-SameLocks;
  ready = change_ready_priority-SameLocks;
  grants = grant-SameLocks;
  stores = store_from-SameLocks;
  relists = λ k h. record { mtxcb = refl; mtxlist = λ u. ground arith };
  rates = λ k t p. record { mtxcb = refl; mtxlist = λ u. ground arith };
}

-- x
pub change_task_priority-IsChange : IsChange change_task_priority
unfolding change_task_priority
change_task_priority-IsChange = record {
  locks = λ k t p. change_by_framed SameLocks SameLocks-IsFrame (suc max_tskid) k t p;
  ready = λ k t p r. unfold change_by change_once in rw r refl;
}
