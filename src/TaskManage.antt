-- ===== src/TaskManage.antt =====
-- kernel/tkernel/task_manage.c: the calls that start, release and inspect tasks, and rotate the
-- ready queue.
pub mod Lifecycle
use esp32c3_mtk.Prelude.{
  ℕ, ◌+◌, ◌-◌, Bool, true, false, not, ◌&&◌, ◌||◌, Option, none, some, ◌==◌, if◌then◌else◌,
}
use esp32c3_mtk.Types.{
  Er, ok, e_id, e_noexs, e_obj, e_par, e_rlwai, TaskState, nonexist, ready, wait, suspend, waitsus,
  dormant, in_wait, is_ready, WSpec, no_wspec, wspec_slp, wspec_dly, wspec_sem_tfifo,
  wspec_sem_tpri, wspec_flg_tfifo, wspec_flg_tpri, wspec_mbx_tfifo, wspec_mbx_tpri,
  wspec_smbf_tfifo, wspec_smbf_tpri, wspec_rmbf, wspec_mpf_tfifo, wspec_mpf_tpri, wspec_mtx_tfifo,
  wspec_mtx_tpri, wspec_mtx_inherit, same_task,
}
use esp32c3_mtk.Kernel.{Kernel, in_indp, in_range, max_tskid}
use esp32c3_mtk.ReadyQueue.{num_tskpri}
use esp32c3_mtk.Task.{make_ready, rotate_ready_queue, rotate_ready_queue_run}
use esp32c3_mtk.Hooks.{wait_release_ng}
use esp32c3_mtk.TaskSync.{not_found, tcb_self}

abbrev is_dormant : TaskState → Bool
is_dormant dormant = true
is_dormant _ = false

-- `tk_sta_tsk`, but for the start code that `knl_setup_stacd` puts into the task's context.
unfoldable pub sta_tsk : Kernel → ℕ → Kernel × Er
unfolding make_ready
sta_tsk k t =
    if not (in_indp k) && t == 0
    then (k, e_obj)
    else if not (in_range t max_tskid)
    then (k, e_id)
    else if is_dormant (k.tcb t).state
    then (make_ready k t, ok)
    else (k, not_found (k.tcb t).state)

-- `tk_rel_wai`
unfoldable pub rel_wai : Kernel → ℕ → Kernel × Er
rel_wai k t =
    if not (in_indp k) && t == 0
    then (k, e_obj)
    else if not (in_range t max_tskid)
    then (k, e_id)
    else if in_wait (k.tcb t).state
    then (wait_release_ng k t e_rlwai, ok)
    else (k, not_found (k.tcb t).state)

-- `tk_rot_rdq`, for an external priority; TPRI_RUN is 0.
unfoldable pub rot_rdq : Kernel → ℕ → Kernel × Er
unfolding rotate_ready_queue rotate_ready_queue_run
rot_rdq k tskpri =
    if not (tskpri == 0) && not (in_range tskpri num_tskpri)
    then (k, e_par)
    else if not (tskpri == 0)
    then (rotate_ready_queue k (tskpri - 1), ok)
    else if in_indp k
    then (rotate_ready_queue_run k, ok)
    else (elim k.ctxtsk [ none ↦ (k, ok) | some t ↦ (rotate_ready_queue k (k.tcb t).priority, ok) ])

-- `tk_get_tid`
unfoldable pub get_tid : Kernel → ℕ
get_tid k = elim k.ctxtsk [ none ↦ 0 | some t ↦ t ]

-- `TTS_RDY` to `TTS_DMT`: `state << 1`.
abbrev tskstat_of : TaskState → ℕ
tskstat_of nonexist = 0
tskstat_of ready = 0x2
tskstat_of wait = 0x4
tskstat_of suspend = 0x8
tskstat_of waitsus = 0xc
tskstat_of dormant = 0x10

-- The `tskwait` of a wait specification.
abbrev tskwait_of : WSpec → ℕ
tskwait_of no_wspec = 0
tskwait_of wspec_slp = 0x1
tskwait_of wspec_dly = 0x2
tskwait_of wspec_sem_tfifo = 0x4
tskwait_of wspec_sem_tpri = 0x4
tskwait_of wspec_flg_tfifo = 0x8
tskwait_of wspec_flg_tpri = 0x8
tskwait_of wspec_mbx_tfifo = 0x40
tskwait_of wspec_mbx_tpri = 0x40
tskwait_of wspec_smbf_tfifo = 0x100
tskwait_of wspec_smbf_tpri = 0x100
tskwait_of wspec_rmbf = 0x200
tskwait_of wspec_mpf_tfifo = 0x2000
tskwait_of wspec_mpf_tpri = 0x2000
tskwait_of wspec_mtx_tfifo = 0x80
tskwait_of wspec_mtx_tpri = 0x80
tskwait_of wspec_mtx_inherit = 0x80

-- `T_RTSK`
pub record TRtsk : Type 0 where
  pub exinf : ℕ
  pub tskpri : ℕ
  pub tskbpri : ℕ
  pub tskstat : ℕ
  pub tskwait : ℕ
  pub wid : ℕ
  pub wupcnt : ℕ
  pub suscnt : ℕ

abbrev referred : Kernel → ℕ → TRtsk
referred k t =
    let c = k.tcb t in
    record {
      exinf = c.exinf;
      tskpri = c.priority + 1;
      tskbpri = c.bpriority + 1;
      tskstat = if is_ready c.state && same_task k.ctxtsk t then 0x1 else tskstat_of c.state;
      tskwait = if in_wait c.state then tskwait_of c.wspec else 0;
      wid = if in_wait c.state then c.wid else 0;
      wupcnt = c.wupcnt;
      suscnt = c.suscnt;
    }

abbrev is_nonexist : TaskState → Bool
is_nonexist nonexist = true
is_nonexist _ = false

-- `tk_ref_tsk`
unfoldable pub ref_tsk : Kernel → ℕ → Er × Option TRtsk
ref_tsk k tskid =
    if not ((not (in_indp k) && tskid == 0) || in_range tskid max_tskid)
    then (e_id, none)
    else (elim (tcb_self k tskid) [
      | none ↦ (e_id, none)
      | some t ↦ if is_nonexist (k.tcb t).state then (e_noexs, none) else (ok, some (referred k t))
    ])
