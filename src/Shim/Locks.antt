-- ===== src/Shim/Locks.antt =====
-- The mutexes of components/freertos_shim/shim_queue.c: a mutex of the kernel, with a holder and a
-- depth for recursion.
pub mod Giving
use esp32c3_mtk.Prelude.{ℕ, ◌+◌, ◌-◌, Bool, true, false, not, ltb, ◌==◌, if◌then◌else◌}
use esp32c3_mtk.Types.{Er, ok}
use esp32c3_mtk.Kernel.{Kernel}
use esp32c3_mtk.TaskManage.{get_tid}
use esp32c3_mtk.Mutex.{ta_inherit, loc_mtx, unl_mtx}
use esp32c3_mtk.Mutex.Manage.{cre_mtx}
use esp32c3_mtk.Hooks.{change_task_priority}
use esp32c3_mtk.Shim.{
  Rmutex, rmutex, Shim, set_object, set_kernel, id_of, is_ok, shim_tmo, Answer, answer, waits,
  again, granted,
}

-- The creation of a mutex: the new structure, and whether the kernel gave a mutex.
unfoldable pub rmutex_init : Kernel → Kernel × Rmutex × Bool
unfolding cre_mtx
rmutex_init k =
    let made = cre_mtx k (record { exinf = 0; mtxatr = ta_inherit; ceilpri = 0 }) in
    let id = id_of made.1 in (made.0, record { mtx_id = id; owner_task = 0; depth = 0 }, ltb 0 id)

abbrev set_rmutex : Shim → ℕ → Rmutex → Shim
set_rmutex s q p = set_object s q (rmutex p)

-- A mutex of the kernel that was waited for is the task's.
abbrev pub owned : Shim → ℕ → Rmutex → ℕ → Answer → Shim
owned s q p t (answer true) = set_rmutex s q (record p { owner_task = t; depth = 1 })
owned s q p t _ = s

-- `xQueueSemaphoreTake` of a recursive mutex, up to its wait; a task that comes back from the wait
-- with E_OK goes on with `owned`.
unfoldable pub take_rmutex : Shim → ℕ → Rmutex → ℕ → Shim × Answer
unfolding get_tid loc_mtx shim_tmo
take_rmutex s q p ticks =
    let cur = get_tid s.kernel in
    let w = loc_mtx change_task_priority s.kernel p.mtx_id (shim_tmo ticks) in
    let out = granted w.1 in
    if p.owner_task == cur
    then (set_rmutex s q (record p { depth = p.depth + 1 }), answer true)
    else (owned (set_kernel s w.0) q p cur out, out)

-- `xQueueGiveMutexRecursive` of a recursive mutex.
unfoldable pub give_rmutex : Shim → ℕ → Rmutex → Shim × Bool
unfolding unl_mtx
give_rmutex s q p =
    let free = set_rmutex s q (record p { depth = 0; owner_task = 0 }) in
    if not (ltb 0 p.depth)
    then (s, false)
    else if p.depth == 1
    then (set_kernel free (unl_mtx change_task_priority s.kernel p.mtx_id).0, true)
    else (set_rmutex s q (record p { depth = p.depth - 1 }), true)

-- `xQueueSemaphoreTake` and `xQueueGenericSend` of a mutex without recursion, which no call of
-- shim_queue.c creates.
unfoldable pub take_mutex : Shim → ℕ → ℕ → Shim × Answer
unfolding loc_mtx shim_tmo
take_mutex s mtx_id ticks =
    let w = loc_mtx change_task_priority s.kernel mtx_id (shim_tmo ticks) in
    (set_kernel s w.0, granted w.1)

unfoldable pub give_mutex : Shim → ℕ → Shim × Bool
unfolding unl_mtx
give_mutex s mtx_id =
    let u = unl_mtx change_task_priority s.kernel mtx_id in (set_kernel s u.0, is_ok u.1)
