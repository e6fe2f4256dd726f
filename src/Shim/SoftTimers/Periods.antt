-- ===== src/Shim/SoftTimers/Periods.antt =====
-- The periods of the software timers of components/freertos_shim/shim_timer.c.
use esp32c3_mtk.Prelude.{ℕ, ◌+◌, ◌%◌, ◌≡◌, true, arith}
use esp32c3_mtk.Kernel.{Kernel}
use esp32c3_mtk.Timer.{lltoul, timer_period, abstim_mod}
use esp32c3_mtk.Cyclic.{sta_cyc, stp_cyc, start_from, stopped, cyc_timer_insert, phase_time}
use esp32c3_mtk.Shim.{SoftTimer, Shim}
use esp32c3_mtk.Shim.SoftTimers.{timer_change_period}

cyctim-stopped : (k : Kernel) (i j : ℕ) → ((stopped k i).cyccb j).cyctim ≡ (k.cyccb j).cyctim
unfolding stopped
cyctim-stopped k i j = ground arith

cyctim-cyc_timer_insert :
    (k : Kernel) (i tm j : ℕ) → ((cyc_timer_insert k i tm).cyccb j).cyctim ≡ (k.cyccb j).cyctim
unfolding cyc_timer_insert
cyctim-cyc_timer_insert k i tm j = ground arith

cyctim-start_from : (k : Kernel) (i j : ℕ) → ((start_from k i).cyccb j).cyctim ≡ (k.cyccb j).cyctim
unfolding start_from
cyctim-start_from k i j =
    let c = k.cyccb i in
    let cur = lltoul k.current_time in
    ground (
      arith,
      cyctim-stopped k i j,
      cyctim-cyc_timer_insert (stopped k i) i ((cur + c.cyctim + timer_period) % abstim_mod) j,
      cyctim-cyc_timer_insert k i (phase_time cur c) j,
    )

cyctim-sta_cyc : (k : Kernel) (i j : ℕ) → ((sta_cyc k i).0.cyccb j).cyctim ≡ (k.cyccb j).cyctim
unfolding sta_cyc
cyctim-sta_cyc k i j = ground (arith, cyctim-start_from k i j)

cyctim-stp_cyc : (k : Kernel) (i j : ℕ) → ((stp_cyc k i).0.cyccb j).cyctim ≡ (k.cyccb j).cyctim
unfolding stp_cyc
cyctim-stp_cyc k i j = ground (arith, cyctim-stopped k i j)

-- `xTimerChangePeriod` of an auto-reload timer leaves the period of every cyclic handler of the
-- kernel as it was, that of the timer included, whatever the new period.
pub timer_change_period-cyctim :
    (user : ℕ → ℕ → Kernel → Kernel) (s : Shim) (th : ℕ) (t : SoftTimer) (new_period j : ℕ)
    → t.auto_reload ≡ true
    → let out = timer_change_period user s th t new_period in
      (out.0.kernel.cyccb j).cyctim ≡ (s.kernel.cyccb j).cyctim
unfolding timer_change_period
timer_change_period-cyctim user s th t new_period j reload =
    let k = (stp_cyc s.kernel t.cyc_id).0 in
    ground (arith, reload, cyctim-stp_cyc s.kernel t.cyc_id j, cyctim-sta_cyc k t.cyc_id j)
