-- ===== src/Shim/SoftTimers.antt =====
-- components/freertos_shim/shim_timer.c: software timers on the cyclic and alarm handlers of the
-- kernel. Names of timers are left out. The addresses of `cyc_handler` and `alm_handler`, and how the
-- kernel calls handlers, are arguments.
pub mod Periods
use esp32c3_mtk.Prelude.{ℕ, Bool, true, false, not, ◌&&◌, ltb, ◌==◌, if◌then◌else◌}
use esp32c3_mtk.Types.{Er}
use esp32c3_mtk.Kernel.{Kernel}
use esp32c3_mtk.Cyclic.{cre_cyc, del_cyc, sta_cyc, stp_cyc}
use esp32c3_mtk.Alarm.{cre_alm, del_alm, sta_alm, stp_alm}
use esp32c3_mtk.Shim.{
  SoftTimer, Object, no_object, timer, Shim, set_object, set_kernel, id_of, is_ok,
}

abbrev pub set_timer : Shim → ℕ → SoftTimer → Shim
set_timer s th t = set_object s th (timer t)

-- `period > 0 ? period : 1`
abbrev period_of : ℕ → ℕ
period_of period = if ltb 0 period then period else 1

-- `xTimerCreate`. `address` is what heap_caps_calloc returns, 0 for NULL.
abbrev finish_create : Shim → ℕ → Kernel → SoftTimer → ℕ → Shim × ℕ
finish_create s address k t id =
    if ltb 0 id then (set_timer (set_kernel s k) address t, address) else (set_kernel s k, 0)

module _ (user : ℕ → ℕ → Kernel → Kernel) where
  unfoldable pub timer_create : ℕ → ℕ → ℕ → Shim → ℕ → Bool → ℕ → ℕ → Shim × ℕ
  unfolding cre_cyc cre_alm
  timer_create cyc_handler alm_handler address s period auto_reload timer_id callback =
      let period_ms = period_of period in
      let cyc = cre_cyc user s.kernel (record {
        exinf = address;
        cycatr = 1;
        cychdr = cyc_handler;
        cyctim = period_ms;
        cycphs = period_ms;
      }) in
      let alm = cre_alm s.kernel (record { exinf = address; almatr = 1; almhdr = alm_handler }) in
      let t : SoftTimer = record {
        alm_id = if auto_reload then 0 else id_of alm.1;
        cyc_id = if auto_reload then id_of cyc.1 else 0;
        period_ms = period_ms;
        auto_reload = auto_reload;
        active = false;
        timer_id = timer_id;
        callback = callback;
      } in
      if address == 0
      then (s, 0)
      else if auto_reload
      then finish_create s address cyc.0 t (id_of cyc.1)
      else finish_create s address alm.0 t (id_of alm.1)

  -- `xTimerStart` of the timer `t` that the handle `th` leads to.
  unfoldable pub timer_start : Shim → ℕ → SoftTimer → Shim × Bool
  unfolding sta_cyc sta_alm
  timer_start s th t =
      let started = set_timer s th (record t { active = true }) in
      let cyc = sta_cyc s.kernel t.cyc_id in
      let alm = sta_alm user s.kernel t.alm_id t.period_ms in
      if t.auto_reload
      then (set_kernel started cyc.0, is_ok cyc.1)
      else (set_kernel started alm.0, is_ok alm.1)

  -- `xTimerStop`
  unfoldable pub timer_stop : Shim → ℕ → SoftTimer → Shim × Bool
  unfolding stp_cyc stp_alm
  timer_stop s th t =
      let halted = set_timer s th (record t { active = false }) in
      let cyc = stp_cyc s.kernel t.cyc_id in
      let alm = stp_alm s.kernel t.alm_id in
      if t.auto_reload
      then (set_kernel halted cyc.0, is_ok cyc.1)
      else (set_kernel halted alm.0, is_ok alm.1)

  -- `xTimerReset`
  unfoldable pub timer_reset : Shim → ℕ → SoftTimer → Shim × Bool
  unfolding timer_start timer_stop
  timer_reset s th t = timer_start (timer_stop s th t).0 th (record t { active = false })

  -- `xTimerChangePeriod`
  unfoldable pub timer_change_period : Shim → ℕ → SoftTimer → ℕ → Shim × Bool
  unfolding timer_start timer_stop
  timer_change_period s th t new_period =
      let t' = record t { active = false; period_ms = period_of new_period } in
      let halted = set_timer (timer_stop s th t).0 th t' in
      if t.active then timer_start halted th t' else (halted, true)

  -- `xTimerDelete`, but for the memory.
  unfoldable pub x_timer_delete : Shim → ℕ → SoftTimer → Shim
  unfolding timer_stop del_cyc del_alm
  x_timer_delete s th t =
      let halted = (timer_stop s th t).0 in
      let k = halted.kernel in
      set_object
        (if t.auto_reload && ltb 0 t.cyc_id
          then set_kernel halted (del_cyc k t.cyc_id).0
          else if not t.auto_reload && ltb 0 t.alm_id
          then set_kernel halted (del_alm k t.alm_id).0
          else halted)
        th no_object

  -- `alm_handler` and `cyc_handler`, for the timer `t` that their second parameter leads to: the
  -- callback of an active timer gets the timer's handle.
  unfoldable pub handler : Kernel → ℕ → SoftTimer → Kernel
  handler k th t = if not (t.callback == 0) && t.active then user t.callback th k else k
