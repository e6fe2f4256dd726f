-- ===== src/Shim/Semaphores/Wakeup.antt =====
-- What a give does for the first task that waits for a semaphore of
-- components/freertos_shim/shim_queue.c.
use esp32c3_mtk.Prelude.{ℕ, ◌+◌, ◌<◌, ◌≡◌, ap, ◌∙◌, Bool, true, List, arith}
use esp32c3_mtk.Types.{pos, ok}
use esp32c3_mtk.Wait.Frame.{after_wait}
use esp32c3_mtk.Semaphore.{sig_sem}
use esp32c3_mtk.Semaphore.First.{IsWaitedFor, sig_sem-ends_wait}
use esp32c3_mtk.Shim.{Sem, Object, Shim, set_object, set_kernel, answer}
use esp32c3_mtk.Shim.Semaphores.{sem_give, woken_round}

sem_give_more :
    (s : Shim) (q : ℕ) (tag : Sem → Object) (p : Sem)
    → p.cnt < p.max_cnt
    → sem_give s q tag p ≡ (
      set_kernel
          (set_object s q (tag (record p { cnt = p.cnt + 1 })))
          (sig_sem s.kernel p.sem_id (pos 1)).0,
      true,
    )
unfolding sem_give
sem_give_more s q tag p more = ground arith

woken_more :
    (s : Shim) (q : ℕ) (tag : Sem → Object) (p : Sem)
    → woken_round s q tag (record p { cnt = p.cnt + 1 }) ≡ (set_object s q (tag p), answer true)
unfolding woken_round
woken_more s q tag p = ground arith

-- A give of a semaphore of the adapter below its maximum, while a task waits first for the
-- semaphore of the kernel behind it, whose count is 0, returns true, raises the count and ends the
-- wait of that task with E_OK; that task's next round, if it is the next to run, takes the count
-- back and returns true.
pub sem_give-wakes :
    (s : Shim) (q : ℕ) (tag : Sem → Object) (p : Sem) (t : ℕ) (ts : List ℕ)
    → p.cnt < p.max_cnt
    → IsWaitedFor s.kernel p.sem_id t ts
    → let given = sem_give s q tag p in
      let p' = record p { cnt = p.cnt + 1 } in
      (given.1 ≡ true)
      × (given.0.objects q ≡ tag p')
      × (given.0.kernel.tcb t
          ≡ record (s.kernel.tcb t) { wercd = ok; state = after_wait (s.kernel.tcb t).state })
      × (woken_round given.0 q tag p' ≡ (set_object given.0 q (tag p), answer true))
sem_give-wakes s q tag p t ts more v =
    let out = sem_give_more s q tag p more in
    let k' = (sig_sem s.kernel p.sem_id (pos 1)).0 in
    let given = set_kernel (set_object s q (tag (record p { cnt = p.cnt + 1 }))) k' in
    (
      ap (λ (o : Shim × Bool). o.1) out,
      ap (λ (o : Shim × Bool). o.0.objects q) out ∙ ground arith,
      ap (λ (o : Shim × Bool). o.0.kernel.tcb t) out ∙ sig_sem-ends_wait s.kernel p.sem_id t ts v,
      woken_more (sem_give s q tag p).0 q tag p,
    )
