-- ===== src/Tests/Times.antt =====
-- The times of the clock and of cyclic handlers in concrete states, and the theorems at them.
use esp32c3_mtk.Prelude.{◌+◌, ◌*◌, ◌/◌, ◌%◌, ◌^◌, ◌≤◌, ◌≡◌, refl, arith, ℕ, true, [], ◌∷◌}
use esp32c3_mtk.Types.{Cyccb, cyctmeb, wtmeb}
use esp32c3_mtk.Kernel.{Kernel}
use esp32c3_mtk.Callbacks.{tick}
use esp32c3_mtk.Callbacks.Due.{due, all_events}
use esp32c3_mtk.Callbacks.Timely.{IsTimely, is_sane}
use esp32c3_mtk.Callbacks.Ticks.{IsFinished, tick-IsFinished}
use esp32c3_mtk.Timer.{lltoul, abstim_mod, sub_abstim}
use esp32c3_mtk.Cyclic.{cyc_next_time}
use esp32c3_mtk.Cyclic.Phase.{cyc_next_time-next}
use esp32c3_mtk.SystemTime.{Systim, set_tim, get_tim, after, get_tim-set_tim}
use esp32c3_mtk.Tests.{running}

-- A handler with a period of 100 whose last time is 16 before the clock wraps around.
abbrev late : Cyccb
late = record { exinf = 0; cycatr = 4; cychdr = 4096; cycstat = 1; cyctim = 100; time = 0xfffffff0 }

-- At tick 250 two periods have passed, and the next time is 284.
late_next : cyc_next_time 250 late ≡ 284
unfolding cyc_next_time
late_next = refl

cyc_next_time-next_example :
    (1 ≤ sub_abstim (cyc_next_time 250 late) 250)
    × (sub_abstim (cyc_next_time 250 late) 250 ≤ 100)
    × (cyc_next_time 250 late
        ≡ ((sub_abstim 250 late.time / 100 + 1) * 100 + late.time) % abstim_mod)
cyc_next_time-next_example =
    cyc_next_time-next 250 late (omega arith) (omega arith) (omega arith) (omega arith)
      (omega arith)

-- One millisecond before the lower half of the time wraps around.
abbrev last_of_low : Systim
last_of_low = record { hi = 3; lo = 0xffffffff }

get_tim-set_tim_example :
    get_tim (after (set_tim running last_of_low).0 2)
    ≡ record { hi = 3 + (0xffffffff + 2) / 2 ^ 32; lo = (0xffffffff + 2) % 2 ^ 32 }
get_tim-set_tim_example =
    get_tim-set_tim running last_of_low 2 (omega arith) (omega arith) (omega arith) (omega arith)

-- The event of the cyclic handler 1 is due at the tick at which the clock wraps around, and its
-- handler notes that it runs.
abbrev cycling : Kernel
cycling = record running {
  current_time = 0xffffffff;
  cyccb = λ i. record { exinf = 0; cycatr = 4; cychdr = 4096; cycstat = 1; cyctim = 100; time = 0 };
  timer_queue = record { event = cyctmeb 1; time = 0 } ∷ record { event = wtmeb 3; time = 9 } ∷ [];
}

abbrev noting : ℕ → ℕ → Kernel → Kernel
noting hdr exinf k = record k { taskindp = 1 }

noting-IsTimely : (hdr exinf : ℕ) (k : Kernel) → IsTimely k (noting hdr exinf k)
noting-IsTimely hdr exinf k = record {
  clock = refl;
  fewer = omega arith;
  order = λ v. v;
  sanity = λ h. h;
}

cycling-is_sane : is_sane cycling ≡ true
unfolding all_events
cycling-is_sane = refl

one_due : due (lltoul 0x100000000) cycling.timer_queue ≤ 1
unfolding due
one_due = omega arith

tick-IsFinished_example : IsFinished 0 0x100000000 (tick noting 1 cycling)
tick-IsFinished_example =
    tick-IsFinished noting 1 cycling noting-IsTimely cycling-is_sane
      (omega arith, (omega arith, tt)) (omega arith, (tt, tt)) one_due
