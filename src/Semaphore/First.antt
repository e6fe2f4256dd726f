-- ===== src/Semaphore/First.antt =====
-- What one more for a semaphore of kernel/tkernel/semaphore.c does when its first task waits for one.
use esp32c3_mtk.Prelude.{ℕ, ◌-◌, ◌≤◌, ◌≡◌, ap, ap₂, ◌∙◌, true, false, List, ◌∷◌, ◌==◌, arith}
use esp32c3_mtk.Types.{pos, ok, sem}
use esp32c3_mtk.Kernel.{Kernel, que_of, in_range, max_semid}
use esp32c3_mtk.Wait.{wait_release_ok}
use esp32c3_mtk.Wait.Frame.{after_wait, tcb-release_self}
use esp32c3_mtk.Semaphore.{sig_sem, signal_from, grant, set_semcnt, request_of}
use esp32c3_mtk.Semaphore.Grant.{tcb-grant, semcnt-grant}

-- A semaphore with a count of 0 for which `t` waits first, for one.
pub record IsWaitedFor (k : Kernel) (i t : ℕ) (ts : List ℕ) : Type 0 where
  pub id_in : in_range i max_semid ≡ true
  pub in_use : (k.semcb i).semid == 0 ≡ false
  pub none_left : (k.semcb i).semcnt ≡ 0
  pub some_allowed : 1 ≤ (k.semcb i).maxsem
  pub first : que_of k (sem i) ≡ t ∷ ts
  pub asks_one : request_of k t ≡ 1

signal_first :
    (k : Kernel) (i t : ℕ) (ts : List ℕ)
    → (k.semcb i).semcnt ≡ 1
    → request_of k t ≡ 1
    → signal_from k i (t ∷ ts) ≡ grant k i t
unfolding signal_from
signal_first k i t ts c r =
    let left : ((grant k i t).semcb i).semcnt ≡ 0 = semcnt-grant k i t ∙ ap₂ ◌-◌ c r in
    ground (arith, c, r, left)

sig_sem_first :
    (k : Kernel) (i t : ℕ) (ts : List ℕ)
    → IsWaitedFor k i t ts
    → (sig_sem k i (pos 1)).0 ≡ grant (set_semcnt k i 1) i t
unfolding sig_sem
sig_sem_first k i t ts v =
    let step : (sig_sem k i (pos 1)).0 ≡ signal_from (set_semcnt k i 1) i (t ∷ ts) =
      ground (arith, v.id_in, v.in_use, v.first) in
    step ∙ signal_first (set_semcnt k i 1) i t ts (ground arith) v.asks_one

-- `tk_sig_sem` of one ends the wait of the first task with E_OK.
pub sig_sem-ends_wait :
    (k : Kernel) (i t : ℕ) (ts : List ℕ)
    → IsWaitedFor k i t ts
    → (sig_sem k i (pos 1)).0.tcb t
      ≡ record (k.tcb t) { wercd = ok; state = after_wait (k.tcb t).state }
unfolding wait_release_ok
sig_sem-ends_wait k i t ts v =
    ap (λ (k' : Kernel). k'.tcb t) (sig_sem_first k i t ts v)
    ∙ tcb-grant (set_semcnt k i 1) i t t
    ∙ tcb-release_self (set_semcnt k i 1) t ok
