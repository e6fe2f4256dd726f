-- ===== src/Tests/Locks.antt =====
-- Mutexes and pools of blocks in concrete states, and the theorems at them.
use esp32c3_mtk.Prelude.{
  ℕ, ◌≡◌, ◌≢◌, refl, true, false, List, [], ◌∷◌, ◌==◌, if◌then◌else◌, ◌⊎◌, none, some, contains,
  without, arith,
}
use esp32c3_mtk.Types.{ok, pos, Tcb, ready, wait, wspec_mtx_inherit, Mpfcb, Queues, same, mtx, mpf}
use esp32c3_mtk.Kernel.{Kernel, que_of, ret}
use esp32c3_mtk.Mutex.{release_mutex, set_mtxlist, loc_mtx, unl_mtx}
use esp32c3_mtk.Mutex.Owner.{IsOwned}
use esp32c3_mtk.Mutex.Calls.{unl_mtx-IsOwned, loc_mtx-excludes}
use esp32c3_mtk.Mutex.Handover.{unl_mtx-hands_over}
use esp32c3_mtk.Mutex.Priority.{best, release_mutex-eq-best}
use esp32c3_mtk.Hooks.{change_once, change_task_priority}
use esp32c3_mtk.Hooks.Chain.{next_holder, Ends, change_task_priority-eq-change_once}
use esp32c3_mtk.Hooks.Laws.{change_task_priority-IsChange}
use esp32c3_mtk.FixedPool.{get_locked, rel_locked, is_no_block}
use esp32c3_mtk.FixedPool.Blocks.{IsSharedOut, IsBlock}
use esp32c3_mtk.FixedPool.Calls.{get_locked-IsSharedOut, rel_locked-IsSharedOut}
use esp32c3_mtk.Tests.{task, running, waiters}

-- Task 1 holds mutex 1 with TA_INHERIT, and task 2 waits for it.
abbrev lock_tasks : ℕ → Tcb
lock_tasks t =
    if t == 1
    then record (task 5 ready 0 0) { mtxlist = 1 ∷ [] }
    else record (task 6 wait 0 0) { wid = 1; wspec = wspec_mtx_inherit }

abbrev lock_queues : Queues
lock_queues h = if same h (mtx 1) then 2 ∷ [] else waiters h

abbrev locked : Kernel
locked = record running {
  tcb = lock_tasks;
  rq = record running.rq { que = lock_queues };
  mtxcb = λ i. record {
    mtxid = i;
    exinf = 0;
    mtxatr = 2;
    ceilpri = 0;
    mtxtsk = if i == 1 then some 1 else none;
  };
}

locked-IsOwned : IsOwned locked
locked-IsOwned = record { owner = λ i t. ground arith; distinct = λ t. ground arith }

unl_mtx-IsOwned_example : IsOwned (unl_mtx change_task_priority locked 1).0
unl_mtx-IsOwned_example =
    unl_mtx-IsOwned change_task_priority change_task_priority-IsChange locked 1 locked-IsOwned

loc_mtx-excludes_example :
    ((loc_mtx change_task_priority locked 1 (pos 5)).0.mtxcb ≡ locked.mtxcb)
    × ((loc_mtx change_task_priority locked 1 (pos 5)).1 ≢ ret ok)
loc_mtx-excludes_example =
    loc_mtx-excludes change_task_priority change_task_priority-IsChange locked 1 1 (pos 5) refl

unl_mtx-hands_over_example :
    ((unl_mtx change_task_priority locked 1).1 ≡ ok)
    × (((unl_mtx change_task_priority locked 1).0.mtxcb 1).mtxtsk ≡ some 2)
unl_mtx-hands_over_example =
    unl_mtx-hands_over change_task_priority change_task_priority-IsChange locked 1 1 2 [] refl refl
      refl refl refl refl refl refl

release_mutex-eq-best_example : release_mutex change_task_priority locked 1 none ≡ (
    if best locked 5 (1 ∷ []) == 5
    then set_mtxlist locked 1 (1 ∷ [])
    else change_task_priority (set_mtxlist locked 1 (1 ∷ [])) 1 (best locked 5 (1 ∷ [])))
release_mutex-eq-best_example = release_mutex-eq-best change_task_priority locked 1 none

-- The chain of holders from task 2 is task 1.
locked-Ends : Ends locked 1 2
unfolding Ends next_holder
locked-Ends = λ h e. ground (arith, e)

change_task_priority-eq-change_once_example :
    change_task_priority locked 2 3 ≡ change_once change_task_priority locked 2 3
change_task_priority-eq-change_once_example =
    change_task_priority-eq-change_once 1 locked 2 3 locked-Ends (omega arith)

-- Of a pool of four blocks of 8 bytes, the first is held.
abbrev shared : Mpfcb
shared = record {
  mpfid = 1;
  exinf = 0;
  mpfatr = 0;
  mpfcnt = 4;
  blfsz = 8;
  mpfsz = 32;
  frbcnt = 3;
  mempool = 4096;
  unused = 4104;
  freelist = 0;
  link = λ j. 0;
}

abbrev pooling : Kernel
pooling = record running { mpfcb = λ i. shared }

one_held : (b : ℕ) → contains b (4096 ∷ []) ≡ true → IsBlock shared 1 b
one_held b m = (0, omega arith, ground (arith, m))

shared-IsSharedOut : IsSharedOut shared (4096 ∷ [])
shared-IsSharedOut = record {
  carved = 1;
  free = [];
  pool = record {
    not_null = omega arith;
    size = omega arith;
    within = omega arith;
    unused_at = refl;
    chain = refl;
    count = refl;
    balance = refl;
    free_distinct = refl;
    held_distinct = refl;
    apart = λ b m. absurd (ground (arith, m));
    free_blocks = λ b m. absurd (ground (arith, m));
    held_blocks = one_held;
  };
}

get_locked-IsSharedOut_example :
    let out = get_locked pooling 1 1 (pos 0) in
    let blf = (out.0.tcb 1).winfo.p_blf in
    (out.1 ≡ ret ok)
    × (contains blf (4096 ∷ []) ≡ false)
    × IsSharedOut (out.0.mpfcb 1) (blf ∷ 4096 ∷ [])
get_locked-IsSharedOut_example =
    get_locked-IsSharedOut pooling 1 1 (pos 0) (4096 ∷ []) shared-IsSharedOut refl refl

no_check_fails : is_no_block shared 4096 ≡ false
unfolding is_no_block
no_check_fails = refl

rel_locked-IsSharedOut_example :
    let out = rel_locked pooling 1 1 4096 in
    (out.1 ≡ ret ok)
    × (((que_of pooling (mpf 1) ≡ []) × IsSharedOut (out.0.mpfcb 1) (without 4096 (4096 ∷ [])))
        ⊎ ((u : ℕ) × (us : List ℕ) × (que_of pooling (mpf 1) ≡ u ∷ us)
            × ((out.0.tcb u).winfo.p_blf ≡ 4096)
            × IsSharedOut (out.0.mpfcb 1) (4096 ∷ [])))
rel_locked-IsSharedOut_example =
    rel_locked-IsSharedOut pooling 1 1 4096 (4096 ∷ []) shared-IsSharedOut refl no_check_fails refl
