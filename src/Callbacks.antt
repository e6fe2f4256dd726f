-- ===== src/Callbacks.antt =====
-- The callbacks of the timer's events: `knl_timer_handler` of kernel/tkernel/timer.c with the waits of
-- kernel/tkernel/wait.c and the handlers of kernel/tkernel/time_calls.c. The calls of the users'
-- handlers are arguments.
pub mod Due
pub mod Timely
pub mod Ticks
use esp32c3_mtk.Prelude.{ℕ}
use esp32c3_mtk.Types.{Event, wtmeb, cyctmeb, almtmeb}
use esp32c3_mtk.Kernel.{Kernel}
use esp32c3_mtk.Timer.{timer_handler}
use esp32c3_mtk.Hooks.{wait_release_tmout}
use esp32c3_mtk.Cyclic.{call_cychdr}
use esp32c3_mtk.Alarm.{call_almhdr}

-- `(*event->callback)(event->arg)`
abbrev pub call_back : (ℕ → ℕ → Kernel → Kernel) → Event → Kernel → Kernel
call_back user (wtmeb t) k = wait_release_tmout k t
call_back user (cyctmeb i) k = call_cychdr user k i
call_back user (almtmeb i) k = call_almhdr user k i

-- A tick, with the callbacks that the kernel registers.
unfoldable pub tick : (ℕ → ℕ → Kernel → Kernel) → ℕ → Kernel → Kernel
unfolding timer_handler wait_release_tmout call_cychdr call_almhdr
tick user fuel k = timer_handler fuel (call_back user) k
