-- ===== src/Shim/Semaphores.antt =====
-- The binary and counting semaphores of components/freertos_shim/shim_queue.c: a count, and a
-- semaphore of the kernel on which tasks wait for it to change. Counts are below 2^31.
pub mod Wakeup
use esp32c3_mtk.Prelude.{
  ℕ, ◌+◌, ◌-◌, Bool, true, false, Option, none, some, ltb, leb, ◌==◌, if◌then◌else◌,
}
use esp32c3_mtk.Types.{ℤ, pos, negsuc, Er, ok}
use esp32c3_mtk.Kernel.{Kernel, Reply, ret, pend, is_pol}
use esp32c3_mtk.Semaphore.{cre_sem, sig_sem, wai_sem}
use esp32c3_mtk.Shim.{
  Sem, Object, Shim, set_object, set_kernel, id_of, int_of, shim_tmo, Answer, answer, waits, again,
  after_wait,
}

-- `sem_init`: the new structure, and whether the kernel gave a semaphore.
unfoldable pub sem_init : Kernel → ℕ → ℕ → Kernel × Sem × Bool
unfolding cre_sem
sem_init k max_cnt init_cnt =
    let made =
      cre_sem k (record { exinf = 0; sematr = 0; isemcnt = pos 0; maxsem = int_of max_cnt }) in
    let id = id_of made.1 in
    (made.0, record { cnt = init_cnt; max_cnt = max_cnt; sem_id = id }, ltb 0 id)

-- The functions take the handle, the structure that it points to, and how that structure is tagged.
-- `sem_give`
unfoldable pub sem_give : Shim → ℕ → (Sem → Object) → Sem → Shim × Bool
unfolding sig_sem
sem_give s q tag p = if leb p.max_cnt p.cnt then (s, false) else (
  set_kernel (set_object s q (tag (record p { cnt = p.cnt + 1 })))
      (sig_sem s.kernel p.sem_id (pos 1)).0,
  true,
)

-- The part of a take that runs with interrupts off.
abbrev pub take_one : Shim → ℕ → (Sem → Object) → Sem → Shim
take_one s q tag p = set_object s q (tag (record p { cnt = p.cnt - 1 }))

-- The take of `xQueueReceiveFromISR`.
unfoldable pub take_from_isr : Shim → ℕ → (Sem → Object) → Sem → Shim × Bool
take_from_isr s q tag p = if ltb 0 p.cnt then (take_one s q tag p, true) else (s, false)

-- A round of the slow path of `xQueueSemaphoreTake`: the wait, and what a task does that comes back
-- from it with E_OK.
unfoldable pub wait_round : Shim → Sem → ℤ → Shim × Answer
unfolding wai_sem
wait_round s p tmo =
    let w = wai_sem s.kernel p.sem_id (pos 1) tmo in (set_kernel s w.0, after_wait w.1)

unfoldable pub woken_round : Shim → ℕ → (Sem → Object) → Sem → Shim × Answer
woken_round s q tag p = if ltb 0 p.cnt then (take_one s q tag p, answer true) else (s, again)

-- `xQueueSemaphoreTake` of a semaphore, up to its first wait.
unfoldable pub sem_take : Shim → ℕ → (Sem → Object) → Sem → ℕ → Shim × Answer
unfolding wai_sem wait_round shim_tmo
sem_take s q tag p ticks =
    let s' = take_one s q tag p in
    let tmo = shim_tmo ticks in
    if ltb 0 p.cnt
    then (set_kernel s' (wai_sem s'.kernel p.sem_id (pos 1) (pos 0)).0, answer true)
    else if is_pol tmo
    then (s, answer false)
    else wait_round s p tmo
