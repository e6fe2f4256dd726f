-- ===== src/Shim/Locks/Giving.antt =====
-- Who may give a recursive mutex of components/freertos_shim/shim_queue.c.
use esp32c3_mtk.Prelude.{ℕ, ◌+◌, ◌≤◌, ◌≡◌, ◌≢◌, false, ap, ◌∙◌, true, false, some, arith}
use esp32c3_mtk.Types.{same_task}
use esp32c3_mtk.Kernel.{Kernel}
use esp32c3_mtk.TaskManage.{get_tid}
use esp32c3_mtk.Mutex.{unl_mtx}
use esp32c3_mtk.Hooks.{change_task_priority}
use esp32c3_mtk.Shim.{Rmutex, rmutex, Shim, set_object, set_kernel, answer}
use esp32c3_mtk.Shim.Locks.{take_rmutex, give_rmutex}

unl_mtx_not_holder :
    (k : Kernel) (i t : ℕ)
    → k.ctxtsk ≡ some t
    → same_task (k.mtxcb i).mtxtsk t ≡ false
    → (unl_mtx change_task_priority k i).0 ≡ k
unfolding unl_mtx
unl_mtx_not_holder k i t run other = ground (arith, run, other)

-- When the task in execution gives a recursive mutex of depth 1 whose mutex of the kernel another
-- task holds, `xQueueGiveMutexRecursive` returns true and resets holder and depth. In every state
-- of the kernel with the same mutex control blocks, whichever task runs, the holder included, a
-- further give returns false and changes nothing, and the mutex of the kernel still has its
-- holder.
pub give_rmutex-by_other :
    (s : Shim) (q t h : ℕ) (p : Rmutex) (k' : Kernel)
    → s.kernel.ctxtsk ≡ some t
    → (s.kernel.mtxcb p.mtx_id).mtxtsk ≡ some h
    → h ≢ t
    → p.depth ≡ 1
    → k'.mtxcb ≡ s.kernel.mtxcb
    → let p' = record p { depth = 0; owner_task = 0 } in
      let s' = set_object s q (rmutex p') in
      let later = set_kernel s' k' in
      (give_rmutex s q p ≡ (s', true))
      × (give_rmutex later q p' ≡ (later, false))
      × ((later.kernel.mtxcb p.mtx_id).mtxtsk ≡ some h)
unfolding give_rmutex
give_rmutex-by_other s q t h p k' run holds differ d same =
    let other : same_task (s.kernel.mtxcb p.mtx_id).mtxtsk t ≡ false =
      ground (arith, holds, differ) in
    (
      ground (arith, d, unl_mtx_not_holder s.kernel p.mtx_id t run other),
      ground arith,
      ap (λ f. (f p.mtx_id).mtxtsk) same ∙ holds,
    )

-- x
pub give_rmutex-take_rmutex :
    (s : Shim) (q ticks : ℕ) (p : Rmutex)
    → p.owner_task ≡ get_tid s.kernel
    → 1 ≤ p.depth
    → let p' = record p { depth = p.depth + 1 } in
      (take_rmutex s q p ticks ≡ (set_object s q (rmutex p'), answer true))
      × (give_rmutex (take_rmutex s q p ticks).0 q p'
          ≡ (set_object (set_object s q (rmutex p')) q (rmutex p), true))
unfolding take_rmutex give_rmutex
give_rmutex-take_rmutex s q ticks p own d = (ground arith, ground arith)
