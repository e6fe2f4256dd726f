-- ===== src/Hooks.antt =====
-- The parts of kernel/tkernel/wait.c and task.c that call the hooks of a wait specification: the
-- hooks are those of the files of kernel/tkernel for objects that tasks wait for. A new priority of a
-- task that waits for a mutex may change the priority of the holder, and so on along the chain of
-- holders: `fuel` bounds the calls of `knl_change_task_priority` inside one another.
pub mod Release
pub mod Chain
pub mod Laws
pub mod Frame
use esp32c3_mtk.Prelude.{ℕ, zero, suc, if◌then◌else◌}
use esp32c3_mtk.Types.{
  Er, WSpec, wspec_sem_tfifo, wspec_sem_tpri, wspec_flg_tpri, wspec_mbx_tpri, wspec_smbf_tfifo,
  wspec_smbf_tpri, wspec_mpf_tpri, wspec_mtx_tpri, wspec_mtx_inherit, que_remove, in_wait, is_ready,
}
use esp32c3_mtk.Kernel.{Kernel, set_tcb, set_queues, max_tskid}
use esp32c3_mtk.Task.{change_ready_priority}
use esp32c3_mtk.Wait.{wait_release, set_wercd, make_non_wait}
use esp32c3_mtk.Semaphore.{sem_chg_pri, sem_rel_wai}
use esp32c3_mtk.EventFlag.{flg_chg_pri}
use esp32c3_mtk.Mailbox.{mbx_chg_pri}
use esp32c3_mtk.MessageBuffer.{mbf_chg_pri, mbf_rel_wai}
use esp32c3_mtk.Mutex.{mtx_chg_pri, mtx_rel_wai}
use esp32c3_mtk.FixedPool.{mpf_chg_pri}

-- `(*tcb->wspec->chg_pri_hook)(tcb, oldpri)`, where there is one.
abbrev pub chg_pri_hook : (Kernel → ℕ → ℕ → Kernel) → Kernel → ℕ → ℕ → WSpec → Kernel
chg_pri_hook change k t oldpri wspec_sem_tpri = sem_chg_pri k t
chg_pri_hook change k t oldpri wspec_flg_tpri = flg_chg_pri k t
chg_pri_hook change k t oldpri wspec_mbx_tpri = mbx_chg_pri k t
chg_pri_hook change k t oldpri wspec_smbf_tpri = mbf_chg_pri k t
chg_pri_hook change k t oldpri wspec_mpf_tpri = mpf_chg_pri k t
chg_pri_hook change k t oldpri wspec_mtx_tpri = mtx_chg_pri change k t oldpri
chg_pri_hook change k t oldpri wspec_mtx_inherit = mtx_chg_pri change k t oldpri
chg_pri_hook change k t oldpri _ = k

-- One call of `knl_change_task_priority`, in which `change` makes the calls inside it.
unfoldable pub change_once : (Kernel → ℕ → ℕ → Kernel) → Kernel → ℕ → ℕ → Kernel
unfolding change_ready_priority sem_chg_pri flg_chg_pri mbx_chg_pri mbf_chg_pri mpf_chg_pri
    mtx_chg_pri
change_once change k t priority =
    let k' = set_tcb k t (record (k.tcb t) { priority = priority }) in
    if is_ready (k.tcb t).state
    then change_ready_priority k t priority
    else if in_wait (k.tcb t).state
    then chg_pri_hook change k' t (k.tcb t).priority (k.tcb t).wspec
    else k'

unfoldable pub change_by : ℕ → Kernel → ℕ → ℕ → Kernel
unfolding change_once
change_by zero k t priority = k
change_by (suc fuel) k t priority =
    change_once (λ k' t' priority'. change_by fuel k' t' priority') k t priority

-- `knl_change_task_priority`: a chain of holders that does not come back to a task is no longer than
-- there are tasks.
unfoldable pub change_task_priority : Kernel → ℕ → ℕ → Kernel
unfolding change_by
change_task_priority k t priority = change_by (suc max_tskid) k t priority

-- `(*tcb->wspec->rel_wai_hook)(tcb)`, where there is one.
abbrev pub rel_wai_hook : Kernel → ℕ → WSpec → Kernel
rel_wai_hook k t wspec_sem_tfifo = sem_rel_wai k t
rel_wai_hook k t wspec_sem_tpri = sem_rel_wai k t
rel_wai_hook k t wspec_smbf_tfifo = mbf_rel_wai k t
rel_wai_hook k t wspec_smbf_tpri = mbf_rel_wai k t
rel_wai_hook k t wspec_mtx_inherit = mtx_rel_wai change_task_priority k t
rel_wai_hook k t _ = k

-- `knl_wait_release_ng`
unfoldable pub wait_release_ng : Kernel → ℕ → Er → Kernel
unfolding wait_release set_wercd sem_rel_wai mbf_rel_wai mtx_rel_wai
wait_release_ng k t er =
    let k' = wait_release k t in set_wercd (rel_wai_hook k' t (k'.tcb t).wspec) t er

-- `knl_wait_release_tmout`, which the timer calls for the event of a wait.
unfoldable pub wait_release_tmout : Kernel → ℕ → Kernel
unfolding make_non_wait sem_rel_wai mbf_rel_wai mtx_rel_wai
wait_release_tmout k t =
    let k' = make_non_wait (set_queues k (que_remove k.rq.que t)) t in
    rel_wai_hook k' t (k'.tcb t).wspec
