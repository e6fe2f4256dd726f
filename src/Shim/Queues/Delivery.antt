-- ===== src/Shim/Queues/Delivery.antt =====
-- An item that is sent to a queue of components/freertos_shim/shim_queue.c reaches a task that waits
-- for one.
use esp32c3_mtk.Prelude.{
  ℕ, ◌+◌, ◌<◌, ◌≡◌, ap, subst, ◌∙◌, Bool, true, false, List, [], ◌∷◌, ◌++◌, length, Option, some,
  ltb, if◌then◌else◌, arith,
}
use esp32c3_mtk.Types.{ℤ, pos, ok}
use esp32c3_mtk.Wait.Frame.{after_wait}
use esp32c3_mtk.Semaphore.{sig_sem}
use esp32c3_mtk.Semaphore.First.{IsWaitedFor, sig_sem-ends_wait}
use esp32c3_mtk.Shim.{Queue, queue, Shim, set_object, set_kernel, answer}
use esp32c3_mtk.Shim.Ring.{push, pop}
use esp32c3_mtk.Shim.Ring.Fifo.{Holds, push-Holds, pop-oldest}
use esp32c3_mtk.Shim.Queues.{queue_push, receive_round}

pub queue_push_done :
    (s : Shim) (q : ℕ) (p : Queue) (item : ℕ → ℕ) (overwrite : Bool)
    → (push p item overwrite).1 ≡ true
    → queue_push s q p item overwrite ≡ (
      set_kernel
          (set_object s q (queue (push p item overwrite).0))
          (sig_sem s.kernel p.nonempty (pos 1)).0,
      true,
    )
unfolding queue_push
queue_push_done s q p item overwrite e = ground (arith, e)

pub queue_push_refused :
    (s : Shim) (q : ℕ) (p : Queue) (item : ℕ → ℕ) (overwrite : Bool)
    → (push p item overwrite).1 ≡ false
    → queue_push s q p item overwrite ≡ (s, false)
unfolding queue_push
queue_push_refused s q p item overwrite e = ground (arith, e)

receive_round_done :
    (s : Shim) (q : ℕ) (p : Queue) (buf : Option (ℕ → ℕ)) (tmo : ℤ)
    → (pop p buf).1 ≡ true
    → ((receive_round s q p buf tmo).0.objects q ≡ queue (pop p buf).0)
      × ((receive_round s q p buf tmo).1 ≡ answer true)
      × ((receive_round s q p buf tmo).2 ≡ (pop p buf).2)
unfolding receive_round
receive_round_done s q p buf tmo e = ground (arith, e)

pushed-Holds :
    (p : Queue) (xs : List (ℕ → ℕ)) (item : ℕ → ℕ)
    → Holds p xs
    → length xs + 1 < p.cap
    → ((push p item false).1 ≡ true) × Holds (push p item false).0 (xs ++ item ∷ [])
pushed-Holds p xs item v more =
    let room : ltb (length xs + 1) p.cap ≡ true = ground arith in
    subst
      (λ b.
        if b
        then ((push p item false).1 ≡ true) × Holds (push p item false).0 (xs ++ item ∷ [])
        else (push p item false ≡ (p, false)))
      room (push-Holds p xs item v)

-- An item that is pushed to a queue with more than one free slot, while a task waits first for the
-- semaphore `nonempty` of the queue, whose count is 0, is behind the other items of the ring, and
-- the wait of that task has ended with E_OK.
pub queue_push-wakes :
    (s : Shim) (q : ℕ) (p : Queue) (xs : List (ℕ → ℕ)) (item : ℕ → ℕ) (t : ℕ) (ts : List ℕ)
    → Holds p xs
    → length xs + 1 < p.cap
    → IsWaitedFor s.kernel p.nonempty t ts
    → let sent = queue_push s q p item false in
      (sent.1 ≡ true)
      × (sent.0.kernel.tcb t
          ≡ record (s.kernel.tcb t) { wercd = ok; state = after_wait (s.kernel.tcb t).state })
      × ((p' : Queue) × (sent.0.objects q ≡ queue p') × Holds p' (xs ++ item ∷ []))
queue_push-wakes s q p xs item t ts v more w =
    let pushed = pushed-Holds p xs item v more in
    let done = queue_push_done s q p item false pushed.0 in
    (
      ap (λ (o : Shim × Bool). o.1) done,
      ap (λ (o : Shim × Bool). o.0.kernel.tcb t) done
          ∙ sig_sem-ends_wait s.kernel p.nonempty t ts w,
      (
        (push p item false).0,
        ap (λ (o : Shim × Bool). o.0.objects q) done ∙ ground arith,
        pushed.1,
      ),
    )

-- x
pub receive_round-oldest :
    (s : Shim) (q : ℕ) (p : Queue) (x buf : ℕ → ℕ) (xs : List (ℕ → ℕ)) (tmo : ℤ)
    → Holds p (x ∷ xs)
    → let got = receive_round s q p (some buf) tmo in
      (got.1 ≡ answer true)
      × (got.2 ≡ some (λ j. if ltb j p.item_sz then x j else buf j))
      × ((p' : Queue) × (got.0.objects q ≡ queue p') × Holds p' xs)
receive_round-oldest s q p x buf xs tmo v =
    let popped = pop-oldest p x buf xs v in
    let done = receive_round_done s q p (some buf) tmo popped.0 in
    (done.1, done.2 ∙ popped.1, ((pop p (some buf)).0, done.0, popped.2))
