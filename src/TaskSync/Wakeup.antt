-- ===== src/TaskSync/Wakeup.antt =====
-- Wakeup requests (kernel/tkernel/task_sync.c): what one does to a task that sleeps, and to one that does not.
use esp32c3_mtk.Prelude.{ℕ, ◌≡◌, true, false, not, ◌&&◌, ◌==◌, arith}
use esp32c3_mtk.Types.{ℤ, ok, in_wait, is_slp}
use esp32c3_mtk.Kernel.{Kernel, ret, in_indp, in_range, max_tskid}
use esp32c3_mtk.Wait.{wait_release_ok}
use esp32c3_mtk.Wait.Frame.{after_wait, tcb-release_self}
use esp32c3_mtk.TaskSync.{wup_tsk, slp_tsk_by}

-- A wakeup that `tk_wup_tsk` accepts for a task that is not waiting makes that task's next
-- `tk_slp_tsk` return E_OK at once, whatever its timeout, and leaves the task as it was before the
-- wakeup.
pub slp_tsk_by-wup_tsk :
    (k : Kernel) (t : ℕ) (tmout : ℤ)
    → in_wait (k.tcb t).state ≡ false
    → (wup_tsk k t).1 ≡ ok
    → ((slp_tsk_by (wup_tsk k t).0 t tmout).1 ≡ ret ok)
      × ((slp_tsk_by (wup_tsk k t).0 t tmout).0.tcb t ≡ k.tcb t)
unfolding wup_tsk slp_tsk_by
slp_tsk_by-wup_tsk k t tmout w e = (ground arith, ground arith)

-- `tk_wup_tsk` with a valid ID of a task that sleeps ends the sleep: it returns E_OK, the task has
-- E_OK, and is READY, or SUSPENDED if it was suspended while it slept; the count of wakeups stays
-- as it was.
pub wup_tsk-wakes :
    (k : Kernel) (t : ℕ)
    → (not (in_indp k) && t == 0) ≡ false
    → in_range t max_tskid ≡ true
    → in_wait (k.tcb t).state ≡ true
    → is_slp (k.tcb t).wspec ≡ true
    → ((wup_tsk k t).1 ≡ ok)
      × ((wup_tsk k t).0.tcb t
          ≡ record (k.tcb t) { wercd = ok; state = after_wait (k.tcb t).state })
unfolding wup_tsk wait_release_ok
wup_tsk-wakes k t z r w s = (ground arith, ground (arith, tcb-release_self k t ok))
