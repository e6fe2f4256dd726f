-- ===== src/Tests.antt =====
-- Concrete states of the kernel, and the theorems at them.
mod Buffers
mod Locks
mod Times
mod Adapters
mod Allocator
use esp32c3_mtk.Prelude.{
  ◌^◌, ℕ, ◌+◌, ◌%◌, ◌≡◌, refl, true, false, [], ◌∷◌, ◌++◌, none, some, ◌==◌, if◌then◌else◌, without,
  contains, arith,
}
use esp32c3_mtk.Types.{
  lock, same, pos, negsuc, ok, Tcb, TaskState, ready, wait, waitsus, dormant, wspec_slp,
  wspec_sem_tpri, e_rlwai, Msg, Message, rdy, sem, flg, mbx, Queues, Event, wtmeb, Tmeb,
}
use esp32c3_mtk.ReadyQueue
use esp32c3_mtk.ReadyQueue.{RdyQue, head?}
use esp32c3_mtk.ReadyQueue.Invariant.{
  IsReadyQueue, IsLinked, initialize-IsReadyQueue, insert-IsReadyQueue, delete-IsReadyQueue,
}
use esp32c3_mtk.ReadyQueue.Order.{
  ready_from, ready_order, top-eq-head?, ready_order-insert, ready_order-delete,
}
use esp32c3_mtk.Kernel.{Kernel, que_of, ret}
use esp32c3_mtk.Task.{make_ready, make_non_ready, change_ready_priority, rotate_ready_queue_run}
use esp32c3_mtk.Task.Schedule.{
  IsScheduled, make_ready-IsScheduled, make_non_ready-IsScheduled,
  change_ready_priority-IsScheduled, rotate_ready_queue_run-next,
}
use esp32c3_mtk.Timer.{lltoul, abstim_mod, enqueue_from, timer_handler}
use esp32c3_mtk.Timer.Order.{IsByTime, enqueue_from-IsByTime, tick-IsByTime}
use esp32c3_mtk.Wait.{insert_tpri, wait_delete}
use esp32c3_mtk.Wait.Delete.{deleted_from, que-wait_delete, tcb-wait_delete}
use esp32c3_mtk.Wait.Insertion.{IsByPriority, insert_tpri-IsByPriority}
use esp32c3_mtk.Semaphore.{sig_sem, wai_sem, set_semcnt, request_of}
use esp32c3_mtk.Semaphore.Serve.{serve}
use esp32c3_mtk.Semaphore.Grant.{grant_all}
use esp32c3_mtk.Semaphore.Signal.{IsSem, sig_sem-IsSem, sig_sem-eq-grant_all}
use esp32c3_mtk.Semaphore.Acquire.{wai_sem-IsSem}
use esp32c3_mtk.EventFlag.{eventflag_cond, set_flg, clr_flg, wai_flg}
use esp32c3_mtk.EventFlag.Set.{IsFlg, set_flg-IsFlg, clr_flg-IsFlg}
use esp32c3_mtk.EventFlag.Await.{wai_flg-IsFlg}
use esp32c3_mtk.Mailbox.{insert_mpri, snd_mbx, rcv_mbx}
use esp32c3_mtk.Mailbox.Order.{IsByMsgpri, insert_mpri-IsByMsgpri}
use esp32c3_mtk.Mailbox.Delivery.{IsMbx, snd_mbx-IsMbx, rcv_mbx-IsMbx, snd_mbx-delivers}
use esp32c3_mtk.TaskSync.{sus_tsk, rsm_tsk, frsm_tsk, wup_tsk, slp_tsk_by}
use esp32c3_mtk.TaskSync.States.{
  IsCounted, sus_tsk-IsCounted, rsm_tsk-IsCounted, frsm_tsk-IsCounted,
}
use esp32c3_mtk.TaskSync.Wakeup.{slp_tsk_by-wup_tsk, wup_tsk-wakes}
use esp32c3_mtk.ObjectLock.{lock_obj, unlock_obj}
use esp32c3_mtk.ObjectLock.Handover.{
  lock_obj-IsReadyQueue, lock_obj-waits, unlock_obj-hands_over, unlock_obj-IsReadyQueue,
}
use esp32c3_mtk.Hooks.{wait_release_ng, wait_release_tmout, change_task_priority}
use esp32c3_mtk.Hooks.Release.{
  wait_release_tmout-IsSem, wait_release_ng-IsSem, change_task_priority-IsSem,
}
use esp32c3_mtk.Debug.{list_queue, list_queue-take}

abbrev no_message : Message
no_message = record { size = 1; byte = λ j. 0 }

-- A task of priority `p` in a state, which asks for `cnt` of a semaphore and for the bits `waiptn`.
abbrev task : ℕ → TaskState → ℕ → ℕ → Tcb
task p s cnt waiptn = record {
  exinf = 0;
  ipriority = p;
  bpriority = p;
  priority = p;
  state = s;
  klockwait = false;
  klocked = false;
  wspec = wspec_slp;
  wid = 0;
  wupcnt = 0;
  suscnt = 0;
  wercd = ok;
  mtxlist = [];
  winfo = record {
    cnt = cnt;
    waiptn = waiptn;
    wfmode = 0;
    p_flgptn = 0;
    ppk_msg = none;
    smbf = no_message;
    rmbf = no_message;
    p_blf = 0;
  };
}

-- Task 1 runs; 2 and 3 wait, for 2 of semaphore 1, for 1 of it, for the bits 1 and 2 of event flag 1
-- and for a message of mailbox 1; the others are DORMANT.
abbrev tasks : ℕ → Tcb
tasks t =
    if t == 1
    then task 5 ready 0 0
    else if t == 2
    then task 6 wait 2 1
    else if t == 3
    then task 7 waitsus 1 2
    else task 8 dormant 0 0

abbrev waiters : Queues
waiters (rdy p) = if p == 5 then 1 ∷ [] else []
waiters (sem i) = 2 ∷ 3 ∷ []
waiters (flg i) = 2 ∷ 3 ∷ []
waiters (mbx i) = 2 ∷ 3 ∷ []
waiters _ = []

abbrev event_at : ℕ → Tmeb
event_at time = record { event = wtmeb 2; time = time }

abbrev message : ℕ → Msg
message p = record { address = 4096; msgpri = pos p }

abbrev running : Kernel
running = record {
  ctxtsk = some 1;
  schedtsk = some 1;
  dispatch_disabled = 0;
  taskindp = 0;
  dispatch_masked = false;
  rq = record { top_priority = 5; que = waiters; bitmap = 32; klocktsk = none };
  tcb = tasks;
  current_time = 0xfffffffe;
  timer_queue = event_at 0xffffffff ∷ event_at 0 ∷ [];
  semcb = λ i. record { semid = i; exinf = 0; sematr = 0; semcnt = 1; maxsem = 9 };
  free_semcb = [];
  flgcb = λ i. record { flgid = i; exinf = 0; flgatr = 0x8; flgptn = 4 };
  free_flgcb = [];
  mbxcb = λ i. record { mbxid = i; exinf = 0; mbxatr = 0; messages = [] };
  free_mbxcb = [];
  mbfcb = λ i. record {
    mbfid = i;
    exinf = 0;
    mbfatr = 0;
    bufsz = 16;
    maxmsz = 8;
    frbufsz = 16;
    head = 0;
    tail = 0;
    buffer = λ j. 0;
  };
  free_mbfcb = [];
  mtxcb = λ i. record { mtxid = i; exinf = 0; mtxatr = 0; ceilpri = 0; mtxtsk = none };
  free_mtxcb = [];
  mpfcb = λ i. record {
    mpfid = i;
    exinf = 0;
    mpfatr = 0;
    mpfcnt = 4;
    blfsz = 8;
    mpfsz = 32;
    frbcnt = 4;
    mempool = 4096;
    unused = 4096;
    freelist = 0;
    link = λ j. 0;
  };
  free_mpfcb = [];
  cyccb = λ i. record { exinf = 0; cycatr = 0; cychdr = 0; cycstat = 0; cyctim = 1; time = 0 };
  free_cyccb = [];
  almcb = λ i. record { exinf = 0; almatr = 0; almhdr = 0; almstat = 0; time = 0 };
  free_almcb = [];
  real_time_ofs = 0;
  lock_taken = λ l. false;
}

running-IsSem : IsSem running 1
running-IsSem = record {
  bounded = omega arith;
  distinct = refl;
  asks = (omega arith, (omega arith, tt));
  starved = omega arith;
}

sig_sem-IsSem_example : IsSem (sig_sem running 1 (pos 1)).0 1
sig_sem-IsSem_example = sig_sem-IsSem running 1 (pos 1) running-IsSem

sig_sem-eq-grant_all_example :
    sig_sem running 1 (pos 1)
    ≡ (grant_all (set_semcnt running 1 2) 1 (serve false (request_of running) 2 (2 ∷ 3 ∷ [])), ok)
sig_sem-eq-grant_all_example =
    sig_sem-eq-grant_all running 1 (pos 1) running-IsSem refl (λ e. omega arith) refl (omega arith)

absent_1 : (t : ℕ) → some 1 ≡ some t → contains t (2 ∷ 3 ∷ []) ≡ false
absent_1 t e = ground arith

wai_sem-IsSem_example : IsSem (wai_sem running 1 (pos 1) (pos 5)).0 1
wai_sem-IsSem_example = wai_sem-IsSem running 1 (pos 1) (pos 5) running-IsSem absent_1

running-IsFlg : IsFlg running 1
running-IsFlg = record {
  distinct = refl;
  waits = (omega arith, (omega arith, tt));
  unmet = unfold eventflag_cond in (refl, (refl, tt));
}

set_flg-IsFlg_example : IsFlg (set_flg running 1 1).0 1
set_flg-IsFlg_example = set_flg-IsFlg running 1 1 running-IsFlg

wai_flg-IsFlg_example : IsFlg (wai_flg running 1 8 0 (pos 5)).0 1
wai_flg-IsFlg_example = wai_flg-IsFlg running 1 8 0 (pos 5) running-IsFlg absent_1

running-IsMbx : IsMbx running 1
running-IsMbx = record { distinct = refl; apart = refl }

snd_mbx-IsMbx_example : IsMbx (snd_mbx running 1 (message 1)).0 1
snd_mbx-IsMbx_example = snd_mbx-IsMbx running 1 (message 1) running-IsMbx

-- The ready queue with tasks 1 and 4 of priority 5.
abbrev no_ready : RdyQue
no_ready = record { top_priority = 0; que = λ h. []; bitmap = 0; klocktsk = none }

abbrev ready_1 : RdyQue
ready_1 = (ReadyQueue.insert (ReadyQueue.initialize no_ready) 1 (task 5 ready 0 0)).0

abbrev ready_2 : RdyQue
ready_2 = (ReadyQueue.insert ready_1 4 (task 5 ready 0 0)).0

insert-IsReadyQueue_example : IsReadyQueue ready_1
insert-IsReadyQueue_example =
    insert-IsReadyQueue (ReadyQueue.initialize no_ready) 1 (task 5 ready 0 0)
      (initialize-IsReadyQueue no_ready (λ p h. refl)) (omega arith)

ready_1-IsReadyQueue : IsReadyQueue ready_1
ready_1-IsReadyQueue =
    insert-IsReadyQueue (ReadyQueue.initialize no_ready) 1 (task 5 ready 0 0)
      (initialize-IsReadyQueue no_ready (λ p h. refl)) (omega arith)

ready_2-IsReadyQueue : IsReadyQueue ready_2
ready_2-IsReadyQueue =
    insert-IsReadyQueue ready_1 4 (task 5 ready 0 0) ready_1-IsReadyQueue (omega arith)

one_IsLinked : IsLinked ready_2 1 (task 5 ready 0 0)
unfolding ReadyQueue.insert ReadyQueue.initialize
one_IsLinked = record {
  only = λ p n. ground arith;
  locked_out = λ w. absurd (ground arith);
  in_range = omega arith;
}

in_ready_2 : contains 1 (ready_2.que (rdy 5)) ≡ true
unfolding ReadyQueue.insert ReadyQueue.initialize
in_ready_2 = refl

delete-IsReadyQueue_example : IsReadyQueue (ReadyQueue.delete ready_2 1 (task 5 ready 0 0)).0
delete-IsReadyQueue_example =
    delete-IsReadyQueue ready_2 1 (task 5 ready 0 0) ready_2-IsReadyQueue one_IsLinked
      (λ w. in_ready_2)

unlocked_2 : ready_2.klocktsk ≡ none
unfolding ReadyQueue.insert ReadyQueue.initialize
unlocked_2 = refl

top-eq-head?_example : ReadyQueue.top ready_2 ≡ head? (ready_order ready_2.que)
top-eq-head?_example = top-eq-head? ready_2 ready_2-IsReadyQueue unlocked_2

-- The kernel with that ready queue.
abbrev scheduled : Kernel
scheduled = record running { rq = ready_2 }

top_2 : some 1 ≡ ReadyQueue.top ready_2
unfolding ReadyQueue.insert ReadyQueue.initialize ReadyQueue.top
top_2 = refl

scheduled-IsScheduled : IsScheduled scheduled
scheduled-IsScheduled = record {
  queue = ready_2-IsReadyQueue;
  unlocked = unlocked_2;
  first = top_2;
}

make_ready-IsScheduled_example : IsScheduled (make_ready scheduled 7)
make_ready-IsScheduled_example =
    make_ready-IsScheduled scheduled 7 scheduled-IsScheduled (omega arith) refl

-- Task 3 has been suspended twice while it waits.
abbrev suspended : Kernel
suspended = record running {
  tcb = λ t. if t == 3 then record (task 7 waitsus 1 2) { suscnt = 2 } else tasks t;
}

suspended-IsCounted : IsCounted (suspended.tcb 3)
suspended-IsCounted = record { suspended = refl; bounded = omega arith }

accepted : (wup_tsk running 1).1 ≡ ok
unfolding wup_tsk
accepted = refl

-- Tasks 2 and 3 wait for semaphore 1, by priority; its count is 1, so that task 3 could be served if
-- it were the first.
abbrev waiting : Kernel
waiting = record running {
  tcb = λ t.
      if t == 2
      then record (task 6 wait 2 0) { wspec = wspec_sem_tpri; wid = 1 }
      else if t == 3
      then record (task 7 wait 1 0) { wspec = wspec_sem_tpri; wid = 1 }
      else tasks t;
}

waiting-IsSem : IsSem waiting 1
waiting-IsSem = record {
  bounded = omega arith;
  distinct = refl;
  asks = (omega arith, (omega arith, tt));
  starved = omega arith;
}

-- Task 1 holds the object lock 1, for which task 4 waits.
abbrev handing : Kernel
handing = record scheduled {
  rq = record ready_1 {
    que = λ h. if same (lock 1) h then 4 ∷ [] else ready_1.que h;
    klocktsk = some 1;
  };
  tcb = λ t.
      if t == 1
      then record (task 5 ready 0 0) { klocked = true }
      else if t == 4
      then record (task 5 ready 0 0) { klockwait = true }
      else task 8 dormant 0 0;
  lock_taken = λ l. l == 1;
}

unlock_obj-hands_over_example :
    ((unlock_obj handing 1 1).schedtsk ≡ some 4)
    × ((lock_obj (unlock_obj handing 1 1) 1 4).1 ≡ true)
    × (((unlock_obj handing 1 1).tcb 1).klocked ≡ false)
    × (que_of (unlock_obj handing 1 1) (lock 1) ≡ [])
    × ((unlock_obj handing 1 1).lock_taken ≡ (λ l. l == 1))
unlock_obj-hands_over_example = unlock_obj-hands_over handing 1 1 4 [] refl (λ e. omega arith)

handing-IsReadyQueue : IsReadyQueue handing.rq
handing-IsReadyQueue = record {
  bits = ready_1-IsReadyQueue.bits;
  few = ready_1-IsReadyQueue.few;
  above = ready_1-IsReadyQueue.above;
  at_top = ready_1-IsReadyQueue.at_top;
  top_le = ready_1-IsReadyQueue.top_le;
}

-- Task 1 asks for a lock that is taken.
abbrev contending : Kernel
contending = record scheduled {
  tcb = λ t. if t == 1 then task 5 ready 0 0 else task 8 dormant 0 0;
  lock_taken = λ l. l == 1;
}
