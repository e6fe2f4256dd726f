-- ===== src/Timer.antt =====
-- kernel/tkernel/timer.c and timer.h: the timer queue. Times are 32-bit counts of milliseconds
-- (`ABSTIM`) that wrap around, and TIMER_PERIOD is 1.
pub mod Order
use esp32c3_mtk.Prelude.{
  ℕ, zero, suc, ◌+◌, ◌-◌, ◌%◌, ◌^◌, ◌≤◌, ◌<◌, ◌≡◌, Bool, true, false, List, [], ◌∷◌, ltb, leb, ◌==◌,
  if◌then◌else◌,
}
use esp32c3_mtk.Types.{ℤ, pos, negsuc, Event, Tmeb, same_event}
use esp32c3_mtk.Kernel.{Kernel}

abbrev pub timer_period : ℕ
timer_period = 1

abbrev pub abstim_diff_min : ℕ
abstim_diff_min = 0x7fffffff

abbrev pub abstim_mod : ℕ
abstim_mod = 2 ^ 32

-- `(ABSTIM)(a - b)`
abbrev pub sub_abstim : ℕ → ℕ → ℕ
sub_abstim a b = (a + abstim_mod - b) % abstim_mod

-- `lltoul(knl_current_time)`
abbrev pub lltoul : ℕ → ℕ
lltoul t = t % abstim_mod

-- `knl_abstim_reached`
abbrev pub abstim_reached : ℕ → ℕ → Bool
abstim_reached curtim evttim = leb (sub_abstim curtim evttim) abstim_diff_min

-- The sort key of `knl_enqueue_tmeb`: `time - ofs`.
abbrev pub key : ℕ → ℕ → ℕ
key cur time = sub_abstim time (sub_abstim cur abstim_diff_min)

-- The loop of `knl_enqueue_tmeb`: before the first event that is later.
unfoldable pub enqueue_from : ℕ → Tmeb → List Tmeb → List Tmeb
enqueue_from cur e [] = e ∷ []
enqueue_from cur e (q ∷ qs) =
    let further = q ∷ enqueue_from cur e qs in
    if ltb (key cur e.time) (key cur q.time) then e ∷ q ∷ qs else further

-- `knl_enqueue_tmeb`
unfoldable pub enqueue_tmeb : Kernel → Tmeb → Kernel
unfolding enqueue_from
enqueue_tmeb k e = record k { timer_queue = enqueue_from (lltoul k.current_time) e k.timer_queue }

-- `knl_timer_insert`: TMO_FEVR is in no queue.
unfoldable pub timer_insert : Kernel → Event → ℤ → Kernel
unfolding enqueue_tmeb
timer_insert k ev (negsuc n) = k
timer_insert k ev (pos tmout) =
    enqueue_tmeb k
      (record { event = ev; time = (lltoul k.current_time + tmout + timer_period) % abstim_mod })

-- `knl_timer_insert_reltim`
unfoldable pub timer_insert_reltim : Kernel → Event → ℕ → Kernel
unfolding enqueue_tmeb
timer_insert_reltim k ev tmout =
    enqueue_tmeb k
      (record { event = ev; time = (lltoul k.current_time + tmout + timer_period) % abstim_mod })

-- `knl_timer_insert_abs`
unfoldable pub timer_insert_abs : Kernel → Event → ℕ → Kernel
unfolding enqueue_tmeb
timer_insert_abs k ev time = enqueue_tmeb k (record { event = ev; time = time })

unfoldable pub delete_event : Event → List Tmeb → List Tmeb
delete_event ev [] = []
delete_event ev (e ∷ es) =
    let rest = delete_event ev es in if same_event ev e.event then rest else e ∷ rest

-- `knl_timer_delete`; an event that is in no queue leaves all as it is.
unfoldable pub timer_delete : Kernel → Event → Kernel
unfolding delete_event
timer_delete k ev = record k { timer_queue = delete_event ev k.timer_queue }

-- The loop of `knl_timer_handler` over the events, with the call of `event->callback` as a
-- parameter: at most `fuel` rounds.
abbrev pub next_event :
    (Kernel → Kernel) → (Event → Kernel → Kernel) → ℕ → Kernel → List Tmeb → Kernel
next_event again callback cur k [] = k
next_event again callback cur k (e ∷ es) =
    let later = again (callback e.event (record k { timer_queue = es })) in
    if abstim_reached cur e.time then later else k

unfoldable pub run_events : ℕ → (Event → Kernel → Kernel) → ℕ → Kernel → Kernel
run_events zero callback cur k = k
run_events (suc fuel) callback cur k =
    next_event (run_events fuel callback cur) callback cur k k.timer_queue

-- `knl_timer_handler` between the clearing of the interrupt and its end: the clock goes on by
-- TIMER_PERIOD, and the events that it has reached run. (The execution times of
-- td_inf_tsk are not modelled.)
unfoldable pub timer_handler : ℕ → (Event → Kernel → Kernel) → Kernel → Kernel
unfolding run_events
timer_handler fuel callback k =
    let now = (k.current_time + timer_period) % 2 ^ 64 in
    run_events fuel callback (lltoul now) (record k { current_time = now })
