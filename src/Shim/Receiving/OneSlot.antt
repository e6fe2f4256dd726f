-- ===== src/Shim/Receiving/OneSlot.antt =====
-- A queue of length 1 of components/freertos_shim/shim_queue.c, whose ring keeps one slot free.
use esp32c3_mtk.Prelude.{
  ℕ, ◌+◌, ◌%◌, ◌^◌, ◌≡◌, ◌≢◌, refl, ap, ◌∙◌, Bool, true, false, ◌||◌, Option, ◌==◌, if_cases, arith,
  subst, sym,
}
use esp32c3_mtk.Types.{ℤ, pos, ok}
use esp32c3_mtk.Kernel.{Reply, ret, pend, retry}
use esp32c3_mtk.Semaphore.{sig_sem, wai_sem}
use esp32c3_mtk.Shim.{
  Queue, Object, no_object, queue, sem_bin, sem_cnt, mutex, rmutex, evtgrp, timer, Shim, set_object,
  set_kernel, shim_tmo, shim_in_ddsp, Answer, answer, after_wait,
}
use esp32c3_mtk.Shim.Ring.{push, pop, reset}
use esp32c3_mtk.Shim.Ring.Length.{push_one_slot, mod_one}
use esp32c3_mtk.Shim.Queues.{
  queue_push, queue_pop, send_round, receive_round, overwriting, send_by_tag, send_from_isr_to,
  at_once, generic_send, generic_send_from_isr,
}
use esp32c3_mtk.Shim.Receiving.{
  queue_receive, receive_of, receive_queue, receive_from_isr, receive_from_isr_of, queue_reset,
  reset_of,
}

-- An empty queue of one slot.
unfoldable pub IsOneSlot : Object → Type 0
IsOneSlot (queue p) = (p.cap ≡ 1) × (p.head ≡ 0) × (p.tail ≡ 0)
IsOneSlot _ = ⊥

push-IsOneSlot :
    (p : Queue) (item : ℕ → ℕ) (overwrite : Bool)
    → IsOneSlot (queue p)
    → IsOneSlot (queue (push p item overwrite).0)
unfolding IsOneSlot push
push-IsOneSlot p item overwrite h =
    let zero_mod = λ (n : ℕ). ap (λ c. n % c) h.0 ∙ mod_one n in
    let a = zero_mod ((p.tail + 1) % 2 ^ 32) in
    let b = zero_mod ((p.head + 1) % 2 ^ 32) in
    (ground (arith, h.0), ground (arith, h.1, a, b), ground (arith, h.2, a, b))

update_at : (s : Shim) (q : ℕ) (o : Object) → o ≡ (set_object s q o).objects q
update_at s q o = ground arith

queue_push-IsOneSlot :
    (s : Shim) (q : ℕ) (p : Queue) (item : ℕ → ℕ) (overwrite : Bool)
    → s.objects q ≡ queue p
    → IsOneSlot (queue p)
    → IsOneSlot ((queue_push s q p item overwrite).0.objects q)
unfolding queue_push
queue_push-IsOneSlot s q p item overwrite at h =
    let r = push p item overwrite in
    let kept = push-IsOneSlot p item overwrite h in
    if_cases (λ (o : Shim × Bool). IsOneSlot (o.0.objects q)) r.1
      (set_kernel (set_object s q (queue r.0)) (sig_sem s.kernel p.nonempty (pos 1)).0, true)
      (s, false) (λ e. subst IsOneSlot (update_at s q (queue r.0)) kept)
      (λ e. subst IsOneSlot (sym at) h)

queue_pop_empty :
    (s : Shim) (q : ℕ) (p : Queue) (buf : Option (ℕ → ℕ))
    → IsOneSlot (queue p)
    → queue_pop s q p buf ≡ (s, false, buf)
unfolding IsOneSlot queue_pop pop
queue_pop_empty s q p buf h = ground (arith, h.1, h.2)

queue_push_full :
    (s : Shim) (q : ℕ) (p : Queue) (item : ℕ → ℕ)
    → IsOneSlot (queue p)
    → queue_push s q p item false ≡ (s, false)
unfolding IsOneSlot queue_push
queue_push_full s q p item h = let full = (push_one_slot p item h.0 h.1).0 in ground (arith, full)

-- What a wait in the kernel answers is never an item.
after_wait_no_item : (r : Reply) → after_wait r ≢ answer true
after_wait_no_item (ret ok) e = cc
after_wait_no_item (ret x) e = ground (arith, e)
after_wait_no_item pend e = cc
after_wait_no_item retry e = cc

-- A round of the loop of a send or of a receive changes the kernel only.
pub send_round_waits :
    (s : Shim) (q : ℕ) (p : Queue) (item : ℕ → ℕ) (tmo : ℤ)
    → IsOneSlot (queue p)
    → let w = wai_sem s.kernel p.nonfull (pos 1) tmo in
      send_round s q p item tmo ≡ (set_kernel s w.0, after_wait w.1)
unfolding send_round
send_round_waits s q p item tmo h =
    let full = ap (λ (o : Shim × Bool). o.1) (queue_push_full s q p item h) in ground (arith, full)

pub receive_round_waits :
    (s : Shim) (q : ℕ) (p : Queue) (buf : Option (ℕ → ℕ)) (tmo : ℤ)
    → IsOneSlot (queue p)
    → let w = wai_sem s.kernel p.nonempty (pos 1) tmo in
      receive_round s q p buf tmo ≡ (set_kernel s w.0, after_wait w.1, buf)
unfolding receive_round
receive_round_waits s q p buf tmo h =
    let empty = ap (λ (o : Shim × Bool × Option (ℕ → ℕ)). o.1) (queue_pop_empty s q p buf h) in
    ground (arith, empty)

pub IsOneSlot-queue : (o : Object) → IsOneSlot o → (p : Queue) × (o ≡ queue p) × IsOneSlot (queue p)
unfolding IsOneSlot
IsOneSlot-queue (queue p) h = (p, refl, h)
IsOneSlot-queue no_object h = absurd h
IsOneSlot-queue (sem_bin p) h = absurd h
IsOneSlot-queue (sem_cnt p) h = absurd h
IsOneSlot-queue (mutex p) h = absurd h
IsOneSlot-queue (rmutex p) h = absurd h
IsOneSlot-queue (evtgrp p) h = absurd h
IsOneSlot-queue (timer p) h = absurd h

-- The calls on the queue while it is empty.
send_of_queue-IsOneSlot :
    (s : Shim) (q : ℕ) (item : ℕ → ℕ) (ticks copy_pos : ℕ) (p : Queue)
    → s.objects q ≡ queue p
    → IsOneSlot (queue p)
    → IsOneSlot ((send_by_tag s q item ticks copy_pos (queue p)).0.objects q)
send_of_queue-IsOneSlot s q item ticks copy_pos p at h =
    if_cases (λ (r : Shim × Answer). IsOneSlot (r.0.objects q))
      (overwriting copy_pos || shim_in_ddsp s || ticks == 0)
      (at_once (queue_push s q p item (overwriting copy_pos)))
      (send_round s q p item (shim_tmo ticks))
      (λ e. queue_push-IsOneSlot s q p item (overwriting copy_pos) at h)
      (λ e.
        subst (λ (r : Shim × Answer). IsOneSlot (r.0.objects q))
          (sym (send_round_waits s q p item (shim_tmo ticks) h)) (subst IsOneSlot (sym at) h))

pub generic_send-IsOneSlot :
    (s : Shim) (q : ℕ) (item : ℕ → ℕ) (ticks copy_pos : ℕ)
    → IsOneSlot (s.objects q)
    → IsOneSlot ((generic_send s q item ticks copy_pos).0.objects q)
unfolding generic_send
generic_send-IsOneSlot s q item ticks copy_pos h =
    let (p, at, one) = IsOneSlot-queue (s.objects q) h in
    if_cases (λ (r : Shim × Answer). IsOneSlot (r.0.objects q)) (q == 0) (s, answer false)
      (send_by_tag s q item ticks copy_pos (s.objects q)) (λ e. h)
      (λ e.
        subst (λ o. IsOneSlot ((send_by_tag s q item ticks copy_pos o).0.objects q)) (sym at)
          (send_of_queue-IsOneSlot s q item ticks copy_pos p at one))

pub generic_send_from_isr-IsOneSlot :
    (s : Shim) (q : ℕ) (item : ℕ → ℕ) (copy_pos : ℕ)
    → IsOneSlot (s.objects q)
    → IsOneSlot ((generic_send_from_isr s q item copy_pos).0.objects q)
unfolding generic_send_from_isr
generic_send_from_isr-IsOneSlot s q item copy_pos h =
    let (p, at, one) = IsOneSlot-queue (s.objects q) h in
    if_cases (λ (r : Shim × Bool). IsOneSlot (r.0.objects q)) (q == 0) (s, false)
      (send_from_isr_to s q item copy_pos (s.objects q)) (λ e. h)
      (λ e.
        subst (λ o. IsOneSlot ((send_from_isr_to s q item copy_pos o).0.objects q)) (sym at)
          (queue_push-IsOneSlot s q p item (overwriting copy_pos) at one))

-- A send that does not overwrite is not accepted.
push_refused :
    (s : Shim) (q : ℕ) (item : ℕ → ℕ) (copy_pos : ℕ) (p : Queue)
    → IsOneSlot (queue p)
    → copy_pos ≢ 2
    → queue_push s q p item (overwriting copy_pos) ≡ (s, false)
push_refused s q item copy_pos p h n =
    let plain : overwriting copy_pos ≡ false = ground (arith, n) in
    ap (λ b. queue_push s q p item b) plain ∙ queue_push_full s q p item h

send_of_queue_refused :
    (s : Shim) (q : ℕ) (item : ℕ → ℕ) (ticks copy_pos : ℕ) (p : Queue)
    → IsOneSlot (queue p)
    → copy_pos ≢ 2
    → (send_by_tag s q item ticks copy_pos (queue p)).1 ≢ answer true
send_of_queue_refused s q item ticks copy_pos p h n =
    if_cases (λ (r : Shim × Answer). r.1 ≢ answer true)
      (overwriting copy_pos || shim_in_ddsp s || ticks == 0)
      (at_once (queue_push s q p item (overwriting copy_pos)))
      (send_round s q p item (shim_tmo ticks))
      (λ e.
        subst (λ (r : Shim × Bool). answer r.1 ≢ answer true)
          (sym (push_refused s q item copy_pos p h n)) (λ f. cc))
      (λ e.
        subst (λ (r : Shim × Answer). r.1 ≢ answer true)
          (sym (send_round_waits s q p item (shim_tmo ticks) h))
          (after_wait_no_item (wai_sem s.kernel p.nonfull (pos 1) (shim_tmo ticks)).1))

pub generic_send_refused :
    (s : Shim) (q : ℕ) (item : ℕ → ℕ) (ticks copy_pos : ℕ)
    → IsOneSlot (s.objects q)
    → copy_pos ≢ 2
    → (generic_send s q item ticks copy_pos).1 ≢ answer true
unfolding generic_send
generic_send_refused s q item ticks copy_pos h n =
    let (p, at, one) = IsOneSlot-queue (s.objects q) h in
    if_cases (λ (r : Shim × Answer). r.1 ≢ answer true) (q == 0) (s, answer false)
      (send_by_tag s q item ticks copy_pos (s.objects q)) (λ e f. cc)
      (λ e.
        subst (λ o. (send_by_tag s q item ticks copy_pos o).1 ≢ answer true) (sym at)
          (send_of_queue_refused s q item ticks copy_pos p one n))

pub generic_send_from_isr_refused :
    (s : Shim) (q : ℕ) (item : ℕ → ℕ) (copy_pos : ℕ)
    → IsOneSlot (s.objects q)
    → copy_pos ≢ 2
    → generic_send_from_isr s q item copy_pos ≡ (s, false)
unfolding generic_send_from_isr
generic_send_from_isr_refused s q item copy_pos h n =
    let (p, at, one) = IsOneSlot-queue (s.objects q) h in
    if_cases (λ (r : Shim × Bool). r ≡ (s, false)) (q == 0) (s, false)
      (send_from_isr_to s q item copy_pos (s.objects q)) (λ e. refl)
      (λ e. ap (send_from_isr_to s q item copy_pos) at ∙ push_refused s q item copy_pos p one n)

-- A receive finds nothing, and changes no object.
abbrev pub FindsNothing : Shim → Shim × Answer × Option (ℕ → ℕ) → Type 0
FindsNothing s r = (r.0.objects ≡ s.objects) × (r.1 ≢ answer true)

receive_queue_empty :
    (s : Shim) (q : ℕ) (p : Queue) (buf : Option (ℕ → ℕ)) (ticks : ℕ)
    → IsOneSlot (queue p)
    → FindsNothing s (receive_queue s q p buf ticks)
receive_queue_empty s q p buf ticks h =
    let r = queue_pop s q p buf in
    if_cases (FindsNothing s) (shim_in_ddsp s || ticks == 0) (r.0, answer r.1, r.2)
      (receive_round s q p buf (shim_tmo ticks))
      (λ e.
        subst (λ (o : Shim × Bool × Option (ℕ → ℕ)). FindsNothing s (o.0, answer o.1, o.2))
          (sym (queue_pop_empty s q p buf h)) (refl, (λ f. cc)))
      (λ e.
        subst (FindsNothing s) (sym (receive_round_waits s q p buf (shim_tmo ticks) h))
          (refl, after_wait_no_item (wai_sem s.kernel p.nonempty (pos 1) (shim_tmo ticks)).1))

pub queue_receive_empty :
    (s : Shim) (q : ℕ) (buf : Option (ℕ → ℕ)) (ticks : ℕ)
    → IsOneSlot (s.objects q)
    → ((queue_receive s q buf ticks).0.objects ≡ s.objects)
      × ((queue_receive s q buf ticks).1 ≢ answer true)
unfolding queue_receive
queue_receive_empty s q buf ticks h =
    let (p, at, one) = IsOneSlot-queue (s.objects q) h in
    if_cases (FindsNothing s) (q == 0) (s, answer false, buf)
      (receive_of s q buf ticks (s.objects q)) (λ e. (refl, (λ f. cc)))
      (λ e.
        subst (λ o. FindsNothing s (receive_of s q buf ticks o)) (sym at)
          (receive_queue_empty s q p buf ticks one))

pub receive_from_isr_empty :
    (s : Shim) (q : ℕ) (buf : Option (ℕ → ℕ))
    → IsOneSlot (s.objects q)
    → receive_from_isr s q buf ≡ (s, false, buf)
unfolding receive_from_isr
receive_from_isr_empty s q buf h =
    let (p, at, one) = IsOneSlot-queue (s.objects q) h in
    if_cases (λ (r : Shim × Bool × Option (ℕ → ℕ)). r ≡ (s, false, buf)) (q == 0) (s, false, buf)
      (receive_from_isr_of s q buf (s.objects q)) (λ e. refl)
      (λ e. ap (receive_from_isr_of s q buf) at ∙ queue_pop_empty s q p buf one)

pub queue_reset-IsOneSlot :
    (s : Shim) (q : ℕ) → IsOneSlot (s.objects q) → IsOneSlot ((queue_reset s q).objects q)
unfolding queue_reset reset IsOneSlot
queue_reset-IsOneSlot s q h =
    let (p, at, one) = IsOneSlot-queue (s.objects q) h in
    if_cases (λ (r : Shim). IsOneSlot (r.objects q)) (q == 0) s (reset_of s q (s.objects q))
      (λ e. h)
      (λ e.
        subst (λ o. IsOneSlot ((reset_of s q o).objects q)) (sym at)
          (subst IsOneSlot (update_at s q (queue (reset p))) (one.0, refl, refl)))
