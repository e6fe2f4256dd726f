-- ===== src/Tests/Adapters.antt =====
-- The adapter of components/freertos_shim in concrete states, and the theorems at them.
use esp32c3_mtk.Prelude.{
  ℕ, ◌+◌, ◌≡◌, ◌≢◌, none, refl, true, false, [], ◌∷◌, some, length, ltb, ◌==◌, if◌then◌else◌, arith,
}
use esp32c3_mtk.Types.{ok, Queues, same, sem}
use esp32c3_mtk.Kernel.{Kernel, is_tmout}
use esp32c3_mtk.Wait.Frame.{after_wait}
use esp32c3_mtk.EventFlag.{eventflag_cond}
use esp32c3_mtk.Semaphore.First.{IsWaitedFor}
use esp32c3_mtk.Shim.{
  set_kernel, Queue, Sem, Rmutex, SoftTimer, no_object, queue, sem_bin, rmutex, Shim, shim_tmo,
  set_object, answer,
}
use esp32c3_mtk.Shim.Ring.{push, pop}
use esp32c3_mtk.Shim.Ring.Slots.{Stored}
use esp32c3_mtk.Shim.Ring.Fifo.{Holds, push-Holds, pop-oldest}
use esp32c3_mtk.Shim.Queues.{generic_send_from_isr, queue_push}
use esp32c3_mtk.Shim.Queues.{generic_send}
use esp32c3_mtk.Shim.Receiving.{queue_receive, receive_from_isr, queue_messages_waiting}
use esp32c3_mtk.Shim.Receiving.Runs.{Used, sent, created, one_slot_keeps_nothing}
use esp32c3_mtk.Shim.Queues.Delivery.{queue_push-wakes}
use esp32c3_mtk.Shim.Semaphores.{sem_give, woken_round}
use esp32c3_mtk.Shim.Semaphores.Wakeup.{sem_give-wakes}
use esp32c3_mtk.Shim.Locks.{give_rmutex}
use esp32c3_mtk.Shim.Locks.Giving.{give_rmutex-by_other}
use esp32c3_mtk.Shim.EventGroups.{event_group_wait_bits}
use esp32c3_mtk.Shim.EventGroups.Clearing.{event_group_wait_bits-clears_all}
use esp32c3_mtk.Shim.SoftTimers.{timer_change_period}
use esp32c3_mtk.Shim.SoftTimers.Periods.{timer_change_period-cyctim}
use esp32c3_mtk.Tests.{running, waiters}

-- Items of two bytes.
abbrev item_of : ℕ → ℕ → ℕ
item_of n j = n + j

-- Three slots, with one item in the last.
abbrev ring : Queue
ring = record {
  item_sz = 2;
  cap = 3;
  head = 2;
  tail = 0;
  storage = λ j. j + 3;
  nonempty = 3;
  nonfull = 4;
}

ring-Holds : Holds ring (item_of 7 ∷ [])
unfolding Stored
ring-Holds = record {
  few = omega arith;
  cap_in = omega arith;
  fits = omega arith;
  head_in = omega arith;
  tail_at = refl;
  stored = (λ j h. omega arith, tt);
}

push-Holds_example :
    if ltb (length (item_of 7 ∷ []) + 1) 3
    then ((push ring (item_of 9) false).1 ≡ true)
      × Holds (push ring (item_of 9) false).0 (item_of 7 ∷ item_of 9 ∷ [])
    else (push ring (item_of 9) false ≡ (ring, false))
push-Holds_example = push-Holds ring (item_of 7 ∷ []) (item_of 9) ring-Holds

pop-oldest_example :
    ((pop ring (some (item_of 0))).1 ≡ true)
    × ((pop ring (some (item_of 0))).2 ≡ some (λ j. if ltb j 2 then item_of 7 j else item_of 0 j))
    × Holds (pop ring (some (item_of 0))).0 []
pop-oldest_example = pop-oldest ring (item_of 7) (item_of 0) [] ring-Holds

-- Task 3 waits for one of semaphore 3, whose count is 0; semaphores 5 and 6 are free.
abbrev one_waits : Queues
one_waits h = if same h (sem 3) then 3 ∷ [] else waiters h

abbrev kernel : Kernel
kernel = record running {
  rq = record running.rq { que = one_waits };
  semcb = λ i. record { semid = i; exinf = 0; sematr = 0; semcnt = 0; maxsem = 9 };
  free_semcb = 5 ∷ 6 ∷ [];
}

abbrev shim : Shim
shim = record {
  kernel = kernel;
  objects = λ q. if q == 4096 then queue ring else no_object;
  mie_off = false;
}

task_3-IsWaitedFor : IsWaitedFor kernel 3 3 []
task_3-IsWaitedFor = record {
  id_in = refl;
  in_use = refl;
  none_left = refl;
  some_allowed = omega arith;
  first = refl;
  asks_one = refl;
}

queue_push-wakes_example :
    let sent = queue_push shim 4096 ring (item_of 9) false in
    (sent.1 ≡ true)
    × (sent.0.kernel.tcb 3
        ≡ record (kernel.tcb 3) { wercd = ok; state = after_wait (kernel.tcb 3).state })
    × ((p' : Queue) × (sent.0.objects 4096 ≡ queue p') × Holds p' (item_of 7 ∷ item_of 9 ∷ []))
queue_push-wakes_example =
    queue_push-wakes shim 4096 ring (item_of 7 ∷ []) (item_of 9) 3 [] ring-Holds (omega arith)
      task_3-IsWaitedFor

-- A queue of length 1.
abbrev single : Queue
single = record ring { cap = 1; head = 0; tail = 0 }

abbrev single_shim : Shim
single_shim = record shim { objects = λ q. if q == 4096 then queue single else no_object }

single-Holds : Holds single []
unfolding Stored
single-Holds = record {
  few = omega arith;
  cap_in = omega arith;
  fits = omega arith;
  head_in = omega arith;
  tail_at = refl;
  stored = tt;
}

abbrev after_overwriting : Shim
after_overwriting = (generic_send single_shim 4096 (item_of 9) 5 2).0

single-Used : Used 4096 single_shim after_overwriting
single-Used = sent single_shim single_shim (item_of 9) 5 2 (created single_shim)

one_slot_keeps_nothing_example :
    (queue_messages_waiting after_overwriting 4096 ≡ 0)
    × ((generic_send after_overwriting 4096 (item_of 7) 5 1).1 ≢ answer true)
    × (generic_send_from_isr after_overwriting 4096 (item_of 7) 1 ≡ (after_overwriting, false))
    × ((queue_receive after_overwriting 4096 none 5).1 ≢ answer true)
    × (receive_from_isr after_overwriting 4096 none ≡ (after_overwriting, false, none))
    × ((generic_send after_overwriting 4096 (item_of 7) 5 2).1 ≡ answer true)
one_slot_keeps_nothing_example =
    one_slot_keeps_nothing single_shim after_overwriting 4096 single (item_of 7) none 5 1
      (λ e. omega arith) refl refl single-Holds single-Used (λ e. omega arith)

abbrev signal : Sem
signal = record { cnt = 0; max_cnt = 1; sem_id = 3 }

sem_give-wakes_example :
    let given = sem_give shim 512 sem_bin signal in
    let p' : Sem = record { cnt = 1; max_cnt = 1; sem_id = 3 } in
    (given.1 ≡ true)
    × (given.0.objects 512 ≡ sem_bin p')
    × (given.0.kernel.tcb 3
        ≡ record (kernel.tcb 3) { wercd = ok; state = after_wait (kernel.tcb 3).state })
    × (woken_round given.0 512 sem_bin p' ≡ (set_object given.0 512 (sem_bin signal), answer true))
sem_give-wakes_example =
    sem_give-wakes shim 512 sem_bin signal 3 [] (omega arith) task_3-IsWaitedFor

-- Task 2 holds mutex 1, once; task 1 runs.
abbrev held_by_2 : Kernel
held_by_2 = record kernel {
  mtxcb = λ i. record { mtxid = i; exinf = 0; mtxatr = 0; ceilpri = 0; mtxtsk = some 2 };
}

abbrev lock_of_2 : Rmutex
lock_of_2 = record { mtx_id = 1; owner_task = 2; depth = 1 }

abbrev shim_of_2 : Shim
shim_of_2 = record shim { kernel = held_by_2 }

-- Task 2 runs later.
abbrev holder_runs : Kernel
holder_runs = record held_by_2 { ctxtsk = some 2 }

give_rmutex-by_other_example :
    let p' : Rmutex = record { mtx_id = 1; owner_task = 0; depth = 0 } in
    let s' = set_object shim_of_2 512 (rmutex p') in
    let later = set_kernel s' holder_runs in
    (give_rmutex shim_of_2 512 lock_of_2 ≡ (s', true))
    × (give_rmutex later 512 p' ≡ (later, false))
    × ((later.kernel.mtxcb 1).mtxtsk ≡ some 2)
give_rmutex-by_other_example =
    give_rmutex-by_other shim_of_2 512 1 2 lock_of_2 holder_runs refl refl (λ e. omega arith) refl
      refl

bit_2_is_set : eventflag_cond 4 4 0 ≡ true
unfolding eventflag_cond
bit_2_is_set = refl

abbrev no_wait : ℕ
no_wait = 0

no_wait_is_timeout : is_tmout (shim_tmo no_wait) ≡ true
unfolding shim_tmo
no_wait_is_timeout = refl

event_group_wait_bits-clears_all_example :
    let out = event_group_wait_bits shim 1 4 true true no_wait in
    (out.1 ≡ some 4) × ((out.0.kernel.flgcb 1).flgptn ≡ 0)
event_group_wait_bits-clears_all_example =
    event_group_wait_bits-clears_all shim 1 1 4 true no_wait refl refl refl refl refl refl
      no_wait_is_timeout (omega arith) bit_2_is_set

abbrev ticking : SoftTimer
ticking = record {
  alm_id = 0;
  cyc_id = 1;
  period_ms = 100;
  auto_reload = true;
  active = true;
  timer_id = 0;
  callback = 16384;
}

-- The kernel calls no handler here.
abbrev no_call : ℕ → ℕ → Kernel → Kernel
no_call hdr exinf k = k

timer_change_period-cyctim_example :
    ((timer_change_period no_call shim 256 ticking 5).0.kernel.cyccb 1).cyctim
    ≡ (kernel.cyccb 1).cyctim
timer_change_period-cyctim_example = timer_change_period-cyctim no_call shim 256 ticking 5 1 refl
