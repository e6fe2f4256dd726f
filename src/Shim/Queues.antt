-- ===== src/Shim/Queues.antt =====
-- The calls of components/freertos_shim/shim_queue.c on queues, and those that go by what a handle
-- points to. A queue has two semaphores of the kernel, on which receivers and senders wait for the
-- ring to change; a round of a loop that waits is one step.
pub mod Creation
pub mod Delivery
use esp32c3_mtk.Prelude.{
  ℕ, ◌+◌, ◌-◌, ◌%◌, Bool, true, false, not, ◌&&◌, ◌||◌, Option, none, some, ltb, ◌==◌,
  if◌then◌else◌,
}
use esp32c3_mtk.Types.{ℤ, pos, negsuc}
use esp32c3_mtk.Kernel.{Kernel}
use esp32c3_mtk.Semaphore.{cre_sem, del_sem, sig_sem, wai_sem}
use esp32c3_mtk.Mutex.Manage.{del_mtx}
use esp32c3_mtk.Hooks.{change_task_priority}
use esp32c3_mtk.Shim.{
  Queue, Sem, Rmutex, Object, no_object, queue, sem_bin, sem_cnt, mutex, rmutex, evtgrp, Shim,
  set_object, set_kernel, id_of, int_of, shim_tmo, shim_in_ddsp, Answer, answer, waits, again,
  after_wait,
}
use esp32c3_mtk.Shim.Ring.{push, pop, peek, messages_waiting, spaces_available, reset}
use esp32c3_mtk.Shim.Semaphores.{sem_init, sem_give, take_from_isr, sem_take}
use esp32c3_mtk.Shim.Locks.{rmutex_init, take_rmutex, give_rmutex, take_mutex, give_mutex}

-- `queue_init`: the new structure, and whether there was memory and the kernel gave both
-- semaphores. `storage` is what rbuf_alloc returns: memory or nothing.
abbrev pub deleted_if : Kernel → ℕ → Kernel
deleted_if k id = if ltb 0 id then (del_sem k id).0 else k

abbrev pub init_in : Kernel → ℕ → ℕ → (ℕ → ℕ) → Kernel × Queue × Bool
init_in k len item_sz storage =
    let cn = cre_sem k (record { exinf = 0; sematr = 0; isemcnt = pos 0; maxsem = int_of len }) in
    let cf =
      cre_sem cn.0 (record { exinf = 0; sematr = 0; isemcnt = int_of len; maxsem = int_of len }) in
    let nonempty = id_of cn.1 in
    let nonfull = id_of cf.1 in
    let made = ltb 0 nonempty && ltb 0 nonfull in
    (
      if made then cf.0 else deleted_if (deleted_if cf.0 nonempty) nonfull,
      record {
        item_sz = item_sz;
        cap = len;
        head = 0;
        tail = 0;
        storage = storage;
        nonempty = nonempty;
        nonfull = nonfull;
      },
      made,
    )

unfoldable pub queue_init : Option (ℕ → ℕ) → Kernel → ℕ → ℕ → Option (Kernel × Queue × Bool)
unfolding cre_sem del_sem
queue_init none k len item_sz = none
queue_init (some storage) k len item_sz = some (init_in k len item_sz storage)

-- The handle of a structure at an address, if it was made; NULL is 0.
abbrev pub installed : Shim → ℕ → Kernel → Object → Bool → Shim × ℕ
installed s address k o made =
    if made then (set_object (set_kernel s k) address o, address) else (set_kernel s k, 0)

-- The cases of `xQueueGenericCreate`, with memory at `address` for the structure.
abbrev pub create_queue : Shim → ℕ → Option (Kernel × Queue × Bool) → Shim × ℕ
create_queue s address none = (s, 0)
create_queue s address (some (k, p, made)) = installed s address k (queue p) made

abbrev create_sem : Shim → ℕ → (Sem → Object) → ℕ → ℕ → Shim × ℕ
create_sem s address tag max_cnt init_cnt =
    let i = sem_init s.kernel max_cnt init_cnt in installed s address i.0 (tag i.1) i.2

-- `xQueueGenericCreate`. `address` is what heap_caps_malloc returns for the structure, 0 for NULL,
-- and `storage` what it returns for the items.
unfoldable pub generic_create : ℕ → Option (ℕ → ℕ) → Shim → ℕ → ℕ → ℕ → Shim × ℕ
unfolding queue_init sem_init rmutex_init
generic_create address storage s len item_sz type =
    let lock = rmutex_init s.kernel in
    if not (ltb type 5) || address == 0
    then (s, 0)
    else if type == 0 && not (item_sz == 0)
    then create_queue s address (queue_init storage s.kernel len item_sz)
    else if type == 0 || type == 3
    then create_sem s address sem_bin 1 0
    else if type == 2
    then create_sem s address sem_cnt len item_sz
    else installed s address lock.0 (rmutex lock.1) lock.2

-- `vQueueDelete`, but for the memory.
abbrev deleted : Kernel → Object → Kernel
deleted k (queue p) = deleted_if (deleted_if k p.nonempty) p.nonfull
deleted k (sem_bin p) = (del_sem k p.sem_id).0
deleted k (sem_cnt p) = (del_sem k p.sem_id).0
deleted k (mutex id) = (del_mtx change_task_priority k id).0
deleted k (rmutex p) = (del_mtx change_task_priority k p.mtx_id).0
deleted k _ = k

unfoldable pub queue_delete : Shim → ℕ → Shim
unfolding del_sem del_mtx
queue_delete s q =
    if q == 0 then s else set_object (set_kernel s (deleted s.kernel (s.objects q))) q no_object

-- `queue_push`
unfoldable pub queue_push : Shim → ℕ → Queue → (ℕ → ℕ) → Bool → Shim × Bool
unfolding push sig_sem
queue_push s q p item overwrite =
    let r = push p item overwrite in
    if r.1
    then (set_kernel (set_object s q (queue r.0)) (sig_sem s.kernel p.nonempty (pos 1)).0, true)
    else (s, false)

-- `queue_pop`
unfoldable pub queue_pop : Shim → ℕ → Queue → Option (ℕ → ℕ) → Shim × Bool × Option (ℕ → ℕ)
unfolding pop sig_sem
queue_pop s q p buf =
    let r = pop p buf in
    if r.1
    then (set_kernel (set_object s q (queue r.0)) (sig_sem s.kernel p.nonfull (pos 1)).0, true, r.2)
    else (s, false, buf)

-- A round of the loop of `xQueueGenericSend`, and of that of `xQueueReceive`.
unfoldable pub send_round : Shim → ℕ → Queue → (ℕ → ℕ) → ℤ → Shim × Answer
unfolding queue_push wai_sem
send_round s q p item tmo =
    let r = queue_push s q p item false in
    let w = wai_sem s.kernel p.nonfull (pos 1) tmo in
    if r.1 then (r.0, answer true) else (set_kernel s w.0, after_wait w.1)

unfoldable pub receive_round :
    Shim → ℕ → Queue → Option (ℕ → ℕ) → ℤ → Shim × Answer × Option (ℕ → ℕ)
unfolding queue_pop wai_sem
receive_round s q p buf tmo =
    let r = queue_pop s q p buf in
    let w = wai_sem s.kernel p.nonempty (pos 1) tmo in
    if r.1 then (r.0, answer true, r.2) else (set_kernel s w.0, after_wait w.1, buf)

-- The value of a call that does not wait.
abbrev pub at_once : Shim × Bool → Shim × Answer
at_once r = (r.0, answer r.1)

-- `queueOVERWRITE`
abbrev pub overwriting : ℕ → Bool
overwriting copy_pos = copy_pos == 2

-- `xQueueGenericSend`, by what the handle leads to.
abbrev pub send_by_tag : Shim → ℕ → (ℕ → ℕ) → ℕ → ℕ → Object → Shim × Answer
send_by_tag s q item ticks copy_pos (queue p) =
    if overwriting copy_pos || shim_in_ddsp s || ticks == 0
    then at_once (queue_push s q p item (overwriting copy_pos))
    else send_round s q p item (shim_tmo ticks)
send_by_tag s q item ticks copy_pos (sem_bin p) = at_once (sem_give s q sem_bin p)
send_by_tag s q item ticks copy_pos (sem_cnt p) = at_once (sem_give s q sem_cnt p)
send_by_tag s q item ticks copy_pos (mutex id) = at_once (give_mutex s id)
send_by_tag s q item ticks copy_pos (rmutex p) = at_once (give_rmutex s q p)
send_by_tag s q item ticks copy_pos _ = (s, answer false)

unfoldable pub generic_send : Shim → ℕ → (ℕ → ℕ) → ℕ → ℕ → Shim × Answer
unfolding shim_tmo shim_in_ddsp queue_push send_round sem_give give_mutex give_rmutex
generic_send s q item ticks copy_pos =
    if q == 0 then (s, answer false) else send_by_tag s q item ticks copy_pos (s.objects q)

-- `xQueueGenericSendFromISR`
abbrev pub send_from_isr_to : Shim → ℕ → (ℕ → ℕ) → ℕ → Object → Shim × Bool
send_from_isr_to s q item copy_pos (queue p) = queue_push s q p item (overwriting copy_pos)
send_from_isr_to s q item copy_pos (sem_bin p) = sem_give s q sem_bin p
send_from_isr_to s q item copy_pos (sem_cnt p) = sem_give s q sem_cnt p
send_from_isr_to s q item copy_pos _ = (s, false)

unfoldable pub generic_send_from_isr : Shim → ℕ → (ℕ → ℕ) → ℕ → Shim × Bool
unfolding queue_push sem_give
generic_send_from_isr s q item copy_pos =
    if q == 0 then (s, false) else send_from_isr_to s q item copy_pos (s.objects q)
