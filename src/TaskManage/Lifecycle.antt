-- ===== src/TaskManage/Lifecycle.antt =====
-- The creation, termination and deletion of tasks, and the change of a priority by a call
-- (kernel/tkernel/task_manage.c). What `knl_Imalloc` returns is an argument of the call that creates a
-- task; `knl_Ifree`, the stack's contents and `knl_cleanup_context` are left out. CHK_SELF is 0 in
-- config/config.h, so CHECK_NONSELF checks nothing.
use esp32c3_mtk.Prelude.{
  ℕ, ◌+◌, ◌-◌, ◌*◌, ◌/◌, not, ◌&&◌, ◌||◌, List, [], ◌∷◌, Option, none, some, leb, ◌==◌,
  if◌then◌else◌,
}
use esp32c3_mtk.Bits.{any_bit, and_not}
use esp32c3_mtk.Types.{
  ℤ, pos, Er, ok, value, e_rsatr, e_par, e_id, e_iluse, e_limit, e_noexs, e_obj, e_nomem, TaskState,
  nonexist, ready, wait, waitsus, task_alive, free_tcb, que_insert, que_remove,
}
use esp32c3_mtk.Kernel.{
  Kernel, set_tcb, que_of, set_queues, in_indp, in_range, max_tskid, leb_ℤ, magnitude,
}
use esp32c3_mtk.ReadyQueue.{num_tskpri}
use esp32c3_mtk.Task.{make_non_ready, make_dormant}
use esp32c3_mtk.Wait.{set_state, wait_cancel}
use esp32c3_mtk.Mutex.{signal_all_mutex}
use esp32c3_mtk.Mutex.Manage.{chg_pri_mutex}
use esp32c3_mtk.Hooks.{rel_wai_hook, change_task_priority}
use esp32c3_mtk.TaskManage.{is_dormant, is_nonexist}
use esp32c3_mtk.TaskSync.{not_found, tcb_self}

-- The fields of `T_CTSK` that the model keeps, with the size of the stack.
pub record TCtsk : Type 0 where
  pub exinf : ℕ
  pub tskatr : ℕ
  pub itskpri : ℕ
  pub stksz : ℤ

-- The critical section of `tk_cre_tsk`, by the queue of free control blocks; but for the stack.
unfoldable pub create_from : Kernel → TCtsk → List ℕ → Kernel × Er
unfolding make_dormant
create_from k p [] = (k, e_limit)
create_from k p (t ∷ ts) =
    let k1 = set_queues k (que_remove k.rq.que t) in
    let c = record (k1.tcb t) { exinf = p.exinf; ipriority = p.itskpri - 1 } in
    (make_dormant (set_tcb k1 t c) t, value t)

-- `tk_cre_tsk`. `imalloc` is what `knl_Imalloc` returns for the size of a stack: an address or nothing.
unfoldable pub cre_tsk : (ℕ → Option ℕ) → Kernel → TCtsk → Kernel × Er
unfolding and_not create_from
cre_tsk imalloc k p =
    let free = que_of k free_tcb in
    let sstksz = (magnitude p.stksz + 256 + 7) / 8 * 8 in
    if not (and_not p.tskatr 0x321 == 0)
    then (k, e_rsatr)
    else if not (leb_ℤ (pos 0) p.stksz)
    then (k, e_par)
    else if not (in_range p.itskpri num_tskpri)
    then (k, e_par)
    else if any_bit p.tskatr 0x20
    then (if not (leb 256 (magnitude p.stksz)) then (k, e_par) else create_from k p free)
    else (elim (imalloc sstksz) [ none ↦ (k, e_nomem) | some stack ↦ create_from k p free ])

-- `knl_ter_tsk`
abbrev stopped_by : Kernel → ℕ → TaskState → Kernel
stopped_by k t ready = make_non_ready k t
stopped_by k t wait = let k' = wait_cancel k t in rel_wai_hook k' t (k'.tcb t).wspec
stopped_by k t waitsus = let k' = wait_cancel k t in rel_wai_hook k' t (k'.tcb t).wspec
stopped_by k t _ = k

unfoldable pub terminate : Kernel → ℕ → Kernel
unfolding make_non_ready wait_cancel signal_all_mutex
terminate k t = signal_all_mutex change_task_priority (stopped_by k t (k.tcb t).state) t

-- `tk_ter_tsk`
unfoldable pub ter_tsk : Kernel → ℕ → Kernel × Er
unfolding terminate make_dormant
ter_tsk k t =
    if not (in_indp k) && t == 0
    then (k, e_obj)
    else if not (in_range t max_tskid)
    then (k, e_id)
    else if not (task_alive (k.tcb t).state)
    then (k, not_found (k.tcb t).state)
    else if (k.tcb t).klocked
    then (k, e_obj)
    else (make_dormant (terminate k t) t, ok)

-- `tk_ext_tsk` of the task `t` in execution, up to the dispatch that it forces.
unfoldable pub ext_tsk : Kernel → ℕ → Kernel
unfolding terminate make_dormant
ext_tsk k t = make_dormant (terminate k t) t

-- `knl_del_tsk`
unfoldable pub delete_task : Kernel → ℕ → Kernel
unfolding set_state
delete_task k t = set_state (set_queues k (que_insert k.rq.que t free_tcb)) t nonexist

-- `tk_exd_tsk` of the task `t` in execution, up to the dispatch that it forces.
unfoldable pub exd_tsk : Kernel → ℕ → Kernel
unfolding terminate delete_task
exd_tsk k t = delete_task (terminate k t) t

-- `tk_del_tsk`
unfoldable pub del_tsk : Kernel → ℕ → Kernel × Er
unfolding delete_task
del_tsk k t =
    if not (in_indp k) && t == 0
    then (k, e_obj)
    else if not (in_range t max_tskid)
    then (k, e_id)
    else if is_dormant (k.tcb t).state
    then (delete_task k t, ok)
    else (k, not_found (k.tcb t).state)

-- The change of `tk_chg_pri`, by what `knl_chg_pri_mutex` says; TPRI_INI is 0.
abbrev changed_by : Kernel → ℕ → ℕ → Option ℕ → Kernel × Er
changed_by k t priority none = (k, e_iluse)
changed_by k t priority (some limited) =
    (change_task_priority (set_tcb k t (record (k.tcb t) { bpriority = priority })) t limited, ok)

unfoldable pub chg_pri_by : Kernel → ℕ → ℕ → Kernel × Er
unfolding chg_pri_mutex change_task_priority
chg_pri_by k t tskpri =
    let priority = if tskpri == 0 then (k.tcb t).ipriority else tskpri - 1 in
    if is_nonexist (k.tcb t).state
    then (k, e_noexs)
    else changed_by k t priority (chg_pri_mutex k t priority)

-- `tk_chg_pri`
unfoldable pub chg_pri : Kernel → ℕ → ℕ → Kernel × Er
unfolding chg_pri_by
chg_pri k tskid tskpri =
    if not ((not (in_indp k) && tskid == 0) || in_range tskid max_tskid)
    then (k, e_id)
    else if not (leb tskpri num_tskpri)
    then (k, e_par)
    else (elim (tcb_self k tskid) [ none ↦ (k, e_id) | some t ↦ chg_pri_by k t tskpri ])
