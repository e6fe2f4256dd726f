-- ===== src/Shim/Receiving/Runs.antt =====
-- Runs of calls on a queue of components/freertos_shim/shim_queue.c of length 1.
use esp32c3_mtk.Prelude.{
  ℕ, ◌≡◌, ◌≢◌, ap, ◌∙◌, Bool, true, false, [], Option, ◌==◌, arith, subst, sym,
}
use esp32c3_mtk.Types.{ℤ}
use esp32c3_mtk.Shim.{Queue, Object, queue, Shim, Answer, answer}
use esp32c3_mtk.Shim.Ring.{messages_waiting}
use esp32c3_mtk.Shim.Ring.Fifo.{Holds}
use esp32c3_mtk.Shim.Queues.Delivery.{queue_push_done}
use esp32c3_mtk.Shim.Ring.Length.{push_one_slot}
use esp32c3_mtk.Shim.Queues.{
  send_round, receive_round, send_by_tag, generic_send, generic_send_from_isr,
}
use esp32c3_mtk.Shim.Receiving.{
  queue_receive, receive_from_isr, queue_reset, queue_messages_waiting, waiting_of,
}
use esp32c3_mtk.Shim.Receiving.OneSlot.{
  IsOneSlot, send_round_waits, receive_round_waits, IsOneSlot-queue, generic_send-IsOneSlot,
  generic_send_from_isr-IsOneSlot, generic_send_refused, generic_send_from_isr_refused,
  queue_receive_empty, receive_from_isr_empty, queue_reset-IsOneSlot,
}

-- The states after calls on the queue `q`: sends and receives, the rounds in which a send or a
-- receive that has waited goes on, a reset, and whatever leaves the structure of the queue alone.
pub data Used (q : ℕ) : Shim → Shim → Type 0 where
  created : (s : Shim) → Used q s s
  sent :
      (s0 s : Shim) (item : ℕ → ℕ) (ticks copy_pos : ℕ)
      → Used q s0 s
      → Used q s0 (generic_send s q item ticks copy_pos).0
  sent_from_isr :
      (s0 s : Shim) (item : ℕ → ℕ) (copy_pos : ℕ)
      → Used q s0 s
      → Used q s0 (generic_send_from_isr s q item copy_pos).0
  sent_on :
      (s0 s : Shim) (p : Queue) (item : ℕ → ℕ) (tmo : ℤ)
      → s.objects q ≡ queue p
      → Used q s0 s
      → Used q s0 (send_round s q p item tmo).0
  received :
      (s0 s : Shim) (buf : Option (ℕ → ℕ)) (ticks : ℕ)
      → Used q s0 s
      → Used q s0 (queue_receive s q buf ticks).0
  received_from_isr :
      (s0 s : Shim) (buf : Option (ℕ → ℕ)) → Used q s0 s → Used q s0 (receive_from_isr s q buf).0
  received_on :
      (s0 s : Shim) (p : Queue) (buf : Option (ℕ → ℕ)) (tmo : ℤ)
      → s.objects q ≡ queue p
      → Used q s0 s
      → Used q s0 (receive_round s q p buf tmo).0
  cleared : (s0 s : Shim) → Used q s0 s → Used q s0 (queue_reset s q)
  elsewhere : (s0 s s' : Shim) → s'.objects q ≡ s.objects q → Used q s0 s → Used q s0 s'

Used-IsOneSlot :
    (q : ℕ) (s0 s : Shim) → Used q s0 s → IsOneSlot (s0.objects q) → IsOneSlot (s.objects q)
Used-IsOneSlot q s0 s (created s1) h = h
Used-IsOneSlot q s0 s (sent s1 s2 item ticks copy_pos u) h =
    generic_send-IsOneSlot s2 q item ticks copy_pos (Used-IsOneSlot q s1 s2 u h)
Used-IsOneSlot q s0 s (sent_from_isr s1 s2 item copy_pos u) h =
    generic_send_from_isr-IsOneSlot s2 q item copy_pos (Used-IsOneSlot q s1 s2 u h)
Used-IsOneSlot q s0 s (sent_on s1 s2 p item tmo at u) h =
    let ih = Used-IsOneSlot q s1 s2 u h in
    subst (λ (r : Shim × Answer). IsOneSlot (r.0.objects q))
      (sym (send_round_waits s2 q p item tmo (subst IsOneSlot at ih))) ih
Used-IsOneSlot q s0 s (received s1 s2 buf ticks u) h =
    let ih = Used-IsOneSlot q s1 s2 u h in
    subst (λ (f : ℕ → Object). IsOneSlot (f q)) (sym (queue_receive_empty s2 q buf ticks ih).0) ih
Used-IsOneSlot q s0 s (received_from_isr s1 s2 buf u) h =
    let ih = Used-IsOneSlot q s1 s2 u h in
    subst (λ (r : Shim × Bool × Option (ℕ → ℕ)). IsOneSlot (r.0.objects q))
      (sym (receive_from_isr_empty s2 q buf ih)) ih
Used-IsOneSlot q s0 s (received_on s1 s2 p buf tmo at u) h =
    let ih = Used-IsOneSlot q s1 s2 u h in
    subst (λ (r : Shim × Answer × Option (ℕ → ℕ)). IsOneSlot (r.0.objects q))
      (sym (receive_round_waits s2 q p buf tmo (subst IsOneSlot at ih))) ih
Used-IsOneSlot q s0 s (cleared s1 s2 u) h = queue_reset-IsOneSlot s2 q (Used-IsOneSlot q s1 s2 u h)
Used-IsOneSlot q s0 s (elsewhere s1 s2 s3 same u) h =
    subst IsOneSlot (sym same) (Used-IsOneSlot q s1 s2 u h)

-- A send that overwrites is accepted, and drops the item.
generic_send_overwrites :
    (s : Shim) (q : ℕ) (item : ℕ → ℕ) (ticks : ℕ)
    → q ≢ 0
    → IsOneSlot (s.objects q)
    → (generic_send s q item ticks 2).1 ≡ answer true
unfolding generic_send IsOneSlot
generic_send_overwrites s q item ticks na h =
    let (p, at, one) = IsOneSlot-queue (s.objects q) h in
    let a : q == 0 ≡ false = ground (arith, na) in
    let pushed = queue_push_done s q p item true (push_one_slot p item one.0 one.1).1 in
    let sent : generic_send s q item ticks 2 ≡ send_by_tag s q item ticks 2 (s.objects q) =
      ground (arith, a) in
    ap (λ (r : Shim × Answer). r.1) (sent ∙ ap (send_by_tag s q item ticks 2) at)
    ∙ ap (λ (r : Shim × Bool). answer r.1) pushed

messages_waiting_none :
    (s : Shim) (q : ℕ) → IsOneSlot (s.objects q) → queue_messages_waiting s q ≡ 0
unfolding queue_messages_waiting messages_waiting IsOneSlot
messages_waiting_none s q h =
    let (p, at, one) = IsOneSlot-queue (s.objects q) h in
    let none_there : waiting_of (queue p) ≡ 0 = ground (arith, one.1, one.2) in
    let here = ap waiting_of at ∙ none_there in ground (arith, here)

-- A queue of length 1, empty at first, holds no item after any sequence of `xQueueGenericSend`,
-- `xQueueGenericSendFromISR`, `xQueueReceive`, `xQueueReceiveFromISR` and `xQueueReset` on it, of
-- rounds in which a send or a receive that has waited goes on, and of whatever leaves its
-- structure alone: it counts no items, a send or a send from an interrupt that does not overwrite
-- does not return true, a receive does not return true, one from an interrupt returns false, and a
-- send with queueOVERWRITE returns true.
pub one_slot_keeps_nothing :
    (s0 s : Shim) (q : ℕ) (p : Queue) (item : ℕ → ℕ) (buf : Option (ℕ → ℕ)) (ticks copy_pos : ℕ)
    → q ≢ 0
    → s0.objects q ≡ queue p
    → p.cap ≡ 1
    → Holds p []
    → Used q s0 s
    → copy_pos ≢ 2
    → (queue_messages_waiting s q ≡ 0)
      × ((generic_send s q item ticks copy_pos).1 ≢ answer true)
      × (generic_send_from_isr s q item copy_pos ≡ (s, false))
      × ((queue_receive s q buf ticks).1 ≢ answer true)
      × (receive_from_isr s q buf ≡ (s, false, buf))
      × ((generic_send s q item ticks 2).1 ≡ answer true)
unfolding IsOneSlot
one_slot_keeps_nothing s0 s q p item buf ticks copy_pos na at c v u n =
    let first : IsOneSlot (queue p) =
      (c, omega (arith, v.head_in), ground (arith, v.tail_at, v.head_in)) in
    let one = Used-IsOneSlot q s0 s u (subst IsOneSlot (sym at) first) in
    (
      messages_waiting_none s q one,
      generic_send_refused s q item ticks copy_pos one n,
      generic_send_from_isr_refused s q item copy_pos one n,
      (queue_receive_empty s q buf ticks one).1,
      receive_from_isr_empty s q buf one,
      generic_send_overwrites s q item ticks na one,
    )
