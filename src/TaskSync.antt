-- ===== src/TaskSync.antt =====
-- kernel/tkernel/task_sync.c: suspension, sleep and wakeup. CHK_SELF is 0 in config/config.h, so
-- CHECK_NONSELF checks nothing.
pub mod States
pub mod Wakeup
use esp32c3_mtk.Prelude.{
  ℕ, zero, suc, ◌+◌, ◌-◌, ◌≤◌, ◌<◌, ◌≡◌, Bool, true, false, not, ◌&&◌, ◌||◌, Option, none, some,
  ltb, leb, ◌==◌, if◌then◌else◌,
}
use esp32c3_mtk.Types.{
  ℤ, Er, ok, value, e_par, e_id, e_ctx, e_noexs, e_obj, e_qovr, e_tmout, Tcb, TaskState, nonexist,
  ready, wait, suspend, waitsus, dormant, in_wait, is_ready, task_alive, WSpec, wspec_slp,
  wspec_dly, is_slp, que_remove, same_task,
}
use esp32c3_mtk.Kernel.{
  Kernel, set_tcb, set_queues, Reply, ret, pend, in_indp, in_ddsp, in_range, max_tskid, is_tmout,
  is_pol, int_max,
}
use esp32c3_mtk.Task.{make_ready, make_non_ready}
use esp32c3_mtk.Wait.{set_state, wait_release_ok, make_wait, make_wait_reltim}

-- `TSK_SELF` is 0: CHECK_TSKID refuses it with E_OBJ in a task, CHECK_TSKID_SELF allows it there.

-- A state that no task can be found in by its ID.
abbrev pub not_found : TaskState → Er
not_found nonexist = e_noexs
not_found _ = e_obj

-- The move of `tk_sus_tsk`.
abbrev suspended_by : Kernel → ℕ → TaskState → Kernel
suspended_by k t ready = set_state (make_non_ready k t) t suspend
suspended_by k t wait = set_state k t waitsus
suspended_by k t _ = k

abbrev pub set_suscnt : Kernel → ℕ → ℕ → Kernel
set_suscnt k t n = set_tcb k t (record (k.tcb t) { suscnt = n })

-- `tk_sus_tsk`
unfoldable pub sus_tsk : Kernel → ℕ → Kernel × Er
sus_tsk k t =
    if not (in_indp k) && t == 0
    then (k, e_obj)
    else if not (in_range t max_tskid)
    then (k, e_id)
    else if not (task_alive (k.tcb t).state)
    then (k, not_found (k.tcb t).state)
    else if same_task k.ctxtsk t && leb 2 k.dispatch_disabled
    then (k, e_ctx)
    else if (k.tcb t).suscnt == int_max
    then (k, e_qovr)
    else (suspended_by (set_suscnt k t ((k.tcb t).suscnt + 1)) t (k.tcb t).state, ok)

-- The switch of `tk_rsm_tsk`, with the count that is left; `tk_frsm_tsk` leaves none.
abbrev resumed_by : Kernel → ℕ → ℕ → TaskState → Kernel × Er
resumed_by k t left nonexist = (k, e_noexs)
resumed_by k t left dormant = (k, e_obj)
resumed_by k t left ready = (k, e_obj)
resumed_by k t left wait = (k, e_obj)
resumed_by k t left suspend =
    let k' = set_suscnt k t left in (if left == 0 then make_ready k' t else k', ok)
resumed_by k t left waitsus =
    let k' = set_suscnt k t left in (if left == 0 then set_state k' t wait else k', ok)

-- `tk_rsm_tsk`
unfoldable pub rsm_tsk : Kernel → ℕ → Kernel × Er
rsm_tsk k t =
    if not (in_indp k) && t == 0
    then (k, e_obj)
    else if not (in_range t max_tskid)
    then (k, e_id)
    else resumed_by k t ((k.tcb t).suscnt - 1) (k.tcb t).state

-- `tk_frsm_tsk`
unfoldable pub frsm_tsk : Kernel → ℕ → Kernel × Er
frsm_tsk k t =
    if not (in_indp k) && t == 0
    then (k, e_obj)
    else if not (in_range t max_tskid)
    then (k, e_id)
    else resumed_by k t 0 (k.tcb t).state

abbrev pub set_wupcnt : Kernel → ℕ → ℕ → Kernel
set_wupcnt k t n = set_tcb k t (record (k.tcb t) { wupcnt = n })

-- The task that goes to sleep or delays itself: its `wspec` and `wid`, and E_TMOUT or E_OK as the
-- code that it will find if nothing else sets one.
abbrev pub dozing : Kernel → ℕ → WSpec → Er → Kernel
dozing k t w er = set_tcb k t (record (k.tcb t) { wspec = w; wid = 0; wercd = er })

-- `tk_slp_tsk`, once the task in execution is known to be `t`. The QueInit at the end puts the
-- task's links, which are in no ring then, in order.
unfoldable pub slp_tsk_by : Kernel → ℕ → ℤ → Kernel × Reply
slp_tsk_by k t tmout =
    if ltb 0 (k.tcb t).wupcnt
    then (set_wupcnt k t ((k.tcb t).wupcnt - 1), ret ok)
    else if is_pol tmout
    then (k, ret e_tmout)
    else (make_wait (dozing k t wspec_slp e_tmout) t tmout, pend)

-- `tk_slp_tsk`
unfoldable pub slp_tsk : Kernel → ℤ → Kernel × Reply
slp_tsk k tmout =
    if not (is_tmout tmout)
    then (k, ret e_par)
    else if in_ddsp k
    then (k, ret e_ctx)
    else (elim k.ctxtsk [ none ↦ (k, ret e_ctx) | some t ↦ slp_tsk_by k t tmout ])

-- `tk_wup_tsk`
unfoldable pub wup_tsk : Kernel → ℕ → Kernel × Er
wup_tsk k t =
    if not (in_indp k) && t == 0
    then (k, e_obj)
    else if not (in_range t max_tskid)
    then (k, e_id)
    else if not (task_alive (k.tcb t).state)
    then (k, not_found (k.tcb t).state)
    else if in_wait (k.tcb t).state && is_slp (k.tcb t).wspec
    then (wait_release_ok k t, ok)
    else if (k.tcb t).wupcnt == int_max
    then (k, e_qovr)
    else (set_wupcnt k t ((k.tcb t).wupcnt + 1), ok)

-- The switch of `tk_can_wup`.
abbrev cancelled_by : Kernel → ℕ → TaskState → Kernel × Er
cancelled_by k t nonexist = (k, e_noexs)
cancelled_by k t dormant = (k, e_obj)
cancelled_by k t _ = (set_wupcnt k t 0, value (k.tcb t).wupcnt)

-- `get_tcb_self`
abbrev pub tcb_self : Kernel → ℕ → Option ℕ
tcb_self k tskid = if tskid == 0 then k.ctxtsk else some tskid

-- `tk_can_wup`
unfoldable pub can_wup : Kernel → ℕ → Kernel × Er
can_wup k tskid =
    if not ((not (in_indp k) && tskid == 0) || in_range tskid max_tskid)
    then (k, e_id)
    else (elim (tcb_self k tskid) [ none ↦ (k, e_id) | some t ↦ cancelled_by k t (k.tcb t).state ])

-- `tk_dly_tsk`, once the task in execution is known to be `t`. Nobody sets the code of a delay
-- that runs out: it stays E_OK.
unfoldable pub dly_tsk_by : Kernel → ℕ → ℕ → Kernel × Reply
dly_tsk_by k t dlytim =
    if dlytim == 0 then (k, ret ok) else (make_wait_reltim (dozing k t wspec_dly ok) t dlytim, pend)

-- `tk_dly_tsk`; `CHECK_RELTIM` refuses what would be negative as a TMO.
unfoldable pub dly_tsk : Kernel → ℕ → Kernel × Reply
dly_tsk k dlytim =
    if leb 0x80000000 dlytim
    then (k, ret e_par)
    else if in_ddsp k
    then (k, ret e_ctx)
    else (elim k.ctxtsk [ none ↦ (k, ret e_ctx) | some t ↦ dly_tsk_by k t dlytim ])
