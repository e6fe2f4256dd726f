-- ===== src/Shim/Receiving.antt =====
-- The calls of components/freertos_shim/shim_queue.c that receive, take or look, by what a handle
-- leads to.
pub mod OneSlot
pub mod Runs
use esp32c3_mtk.Prelude.{ℕ, Bool, true, false, ◌||◌, Option, some, ◌==◌, if◌then◌else◌}
use esp32c3_mtk.Types.{ℤ, pos}
use esp32c3_mtk.Semaphore.{sig_sem, wai_sem}
use esp32c3_mtk.Shim.{
  Queue, Object, queue, sem_bin, sem_cnt, mutex, rmutex, Shim, set_object, set_kernel, shim_tmo,
  shim_in_ddsp, Answer, answer, after_wait,
}
use esp32c3_mtk.Shim.Ring.{peek, messages_waiting, spaces_available, reset}
use esp32c3_mtk.Shim.Semaphores.{take_from_isr, sem_take}
use esp32c3_mtk.Shim.Locks.{take_rmutex, give_rmutex, take_mutex}
use esp32c3_mtk.Shim.Queues.{queue_pop, receive_round, at_once, generic_send, generic_send_from_isr}

-- `SHIM_TAG_QUEUE` and the other tags, which a caller may pass where a handle is meant.
abbrev is_tag : ℕ → Bool
is_tag q =
    q == 0x51554555
    || q == 0x53454D42
    || q == 0x53454D43
    || q == 0x4D555458
    || q == 0x524D5458
    || q == 0x54494D52
    || q == 0x45564752

-- The receiving of a queue, in `xQueueReceive`, and with a buffer of its own in
-- `xQueueSemaphoreTake`.
abbrev pub receive_queue : Shim → ℕ → Queue → Option (ℕ → ℕ) → ℕ → Shim × Answer × Option (ℕ → ℕ)
receive_queue s q p buf ticks =
    let r = queue_pop s q p buf in
    if shim_in_ddsp s || ticks == 0
    then (r.0, answer r.1, r.2)
    else receive_round s q p buf (shim_tmo ticks)

-- `xQueueSemaphoreTake`
abbrev take_of : Shim → ℕ → ℕ → Object → Shim × Answer
take_of s q ticks (sem_bin p) = sem_take s q sem_bin p ticks
take_of s q ticks (sem_cnt p) = sem_take s q sem_cnt p ticks
take_of s q ticks (mutex id) = take_mutex s id ticks
take_of s q ticks (rmutex p) = take_rmutex s q p ticks
take_of s q ticks (queue p) = let r = receive_queue s q p (some (λ j. 0)) ticks in (r.0, r.1)
take_of s q ticks _ = (s, answer false)

unfoldable pub semaphore_take : Shim → ℕ → ℕ → Shim × Answer
unfolding shim_in_ddsp shim_tmo queue_pop receive_round sem_take take_rmutex take_mutex
semaphore_take s q ticks =
    if q == 0
    then (s, answer false)
    else if is_tag q
    then (s, answer false)
    else take_of s q ticks (s.objects q)

-- `xQueueReceive`
abbrev receive_of : Shim → ℕ → Option (ℕ → ℕ) → ℕ → Object → Shim × Answer × Option (ℕ → ℕ)
receive_of s q buf ticks (queue p) = receive_queue s q p buf ticks
receive_of s q buf ticks _ = let r = semaphore_take s q ticks in (r.0, r.1, buf)

unfoldable pub queue_receive : Shim → ℕ → Option (ℕ → ℕ) → ℕ → Shim × Answer × Option (ℕ → ℕ)
unfolding semaphore_take shim_in_ddsp shim_tmo queue_pop receive_round
queue_receive s q buf ticks =
    if q == 0 then (s, answer false, buf) else receive_of s q buf ticks (s.objects q)

-- `xQueueReceiveFromISR`
abbrev receive_from_isr_of : Shim → ℕ → Option (ℕ → ℕ) → Object → Shim × Bool × Option (ℕ → ℕ)
receive_from_isr_of s q buf (queue p) = queue_pop s q p buf
receive_from_isr_of s q buf (sem_bin p) = let r = take_from_isr s q sem_bin p in (r.0, r.1, buf)
receive_from_isr_of s q buf (sem_cnt p) = let r = take_from_isr s q sem_cnt p in (r.0, r.1, buf)
receive_from_isr_of s q buf _ = (s, false, buf)

unfoldable pub receive_from_isr : Shim → ℕ → Option (ℕ → ℕ) → Shim × Bool × Option (ℕ → ℕ)
unfolding queue_pop take_from_isr
receive_from_isr s q buf =
    if q == 0 then (s, false, buf) else receive_from_isr_of s q buf (s.objects q)

-- `xQueueGiveFromISR`
unfoldable pub give_from_isr : Shim → ℕ → Shim × Bool
unfolding generic_send_from_isr
give_from_isr s q = generic_send_from_isr s q (λ j. 0) 0

-- `xQueueGiveMutexRecursive`
abbrev give_of : Shim → ℕ → Object → Shim × Answer
give_of s q (rmutex p) = at_once (give_rmutex s q p)
give_of s q _ = generic_send s q (λ j. 0) 0 0

unfoldable pub give_mutex_recursive : Shim → ℕ → Shim × Answer
unfolding give_rmutex generic_send
give_mutex_recursive s q = if q == 0 then (s, answer false) else give_of s q (s.objects q)

-- A round of the loop of `xQueuePeek`; the call that does not wait reads without a signal.
unfoldable pub peek_round : Shim → Queue → Option (ℕ → ℕ) → ℤ → Shim × Answer × Option (ℕ → ℕ)
unfolding peek sig_sem wai_sem
peek_round s p buf tmo =
    let r = peek p buf in
    let w = wai_sem s.kernel p.nonempty (pos 1) tmo in
    if r.0
    then (set_kernel s (sig_sem s.kernel p.nonempty (pos 1)).0, answer true, r.1)
    else (set_kernel s w.0, after_wait w.1, buf)

abbrev peek_of : Shim → Option (ℕ → ℕ) → ℕ → Object → Shim × Answer × Option (ℕ → ℕ)
peek_of s buf ticks (queue p) =
    let r = peek p buf in
    if shim_in_ddsp s || ticks == 0
    then (s, answer r.0, r.1)
    else peek_round s p buf (shim_tmo ticks)
peek_of s buf ticks _ = (s, answer false, buf)

-- `xQueuePeek`
unfoldable pub queue_peek : Shim → ℕ → Option (ℕ → ℕ) → ℕ → Shim × Answer × Option (ℕ → ℕ)
unfolding peek peek_round shim_in_ddsp shim_tmo
queue_peek s q buf ticks =
    if q == 0 then (s, answer false, buf) else peek_of s buf ticks (s.objects q)

-- `xQueuePeekFromISR`
abbrev peek_from_isr_of : Option (ℕ → ℕ) → Object → Bool × Option (ℕ → ℕ)
peek_from_isr_of buf (queue p) = peek p buf
peek_from_isr_of buf _ = (false, buf)

unfoldable pub peek_from_isr : Shim → ℕ → Option (ℕ → ℕ) → Bool × Option (ℕ → ℕ)
unfolding peek
peek_from_isr s q buf = if q == 0 then (false, buf) else peek_from_isr_of buf (s.objects q)

-- `uxQueueMessagesWaiting` and `uxQueueSpacesAvailable`
abbrev waiting_of : Object → ℕ
waiting_of (queue p) = messages_waiting p
waiting_of (sem_bin p) = p.cnt
waiting_of (sem_cnt p) = p.cnt
waiting_of _ = 0

unfoldable pub queue_messages_waiting : Shim → ℕ → ℕ
unfolding messages_waiting
queue_messages_waiting s q = if q == 0 then 0 else waiting_of (s.objects q)

abbrev spaces_of : Object → ℕ
spaces_of (queue p) = spaces_available p
spaces_of _ = 1

unfoldable pub queue_spaces_available : Shim → ℕ → ℕ
unfolding spaces_available
queue_spaces_available s q = if q == 0 then 0 else spaces_of (s.objects q)

-- `xQueueReset`
abbrev reset_of : Shim → ℕ → Object → Shim
reset_of s q (queue p) = set_object s q (queue (reset p))
reset_of s q _ = s

unfoldable pub queue_reset : Shim → ℕ → Shim
unfolding reset
queue_reset s q = if q == 0 then s else reset_of s q (s.objects q)

-- `xQueueIsQueueEmptyFromISR`
abbrev empty_of : Object → Bool
empty_of (queue p) = p.head == p.tail
empty_of (sem_bin p) = p.cnt == 0
empty_of (sem_cnt p) = p.cnt == 0
empty_of _ = true

unfoldable pub is_queue_empty_from_isr : Shim → ℕ → Bool
is_queue_empty_from_isr s q = if q == 0 then true else empty_of (s.objects q)
