-- ===== src/Wait.antt =====
-- kernel/tkernel/wait.c and wait.h: how tasks come to wait for an object and cease to, in the parts
-- that call no hook of a wait specification. (Those that do are in Hooks.)
pub mod Frame
pub mod Insertion
pub mod Block
pub mod Delete
use esp32c3_mtk.Prelude.{
  ℕ, zero, suc, ◌+◌, ◌≤◌, ◌<◌, ◌≡◌, Bool, true, false, List, [], ◌∷◌, ◌++◌, Option, none, some, ltb,
  ◌==◌, if◌then◌else◌, length, is_empty,
}
use esp32c3_mtk.Bits.{any_bit}
use esp32c3_mtk.Types.{
  ℤ, Er, ok, e_dlt, e_tmout, Tcb, TaskState, ready, wait, suspend, waitsus, Head, set_que,
  que_insert, que_remove, wtmeb,
}
use esp32c3_mtk.Kernel.{Kernel, set_tcb, que_of, set_queues, is_pol, Reply, ret, pend}
use esp32c3_mtk.Timer.{timer_delete, timer_insert, timer_insert_reltim}
use esp32c3_mtk.Task.{make_ready, make_non_ready}

abbrev pub ta_tpri : ℕ
ta_tpri = 0x1

unfoldable pub set_state : Kernel → ℕ → TaskState → Kernel
set_state k t s = set_tcb k t (record (k.tcb t) { state = s })

-- `*tcb->wercd = ercd`
unfoldable pub set_wercd : Kernel → ℕ → Er → Kernel
set_wercd k t er = set_tcb k t (record (k.tcb t) { wercd = er })

-- `knl_make_non_wait`
abbrev non_wait_by : Kernel → ℕ → TaskState → Kernel
non_wait_by k t wait = make_ready k t
non_wait_by k t _ = set_state k t suspend

unfoldable pub make_non_wait : Kernel → ℕ → Kernel
unfolding make_ready set_state
make_non_wait k t = non_wait_by k t (k.tcb t).state

-- `knl_wait_cancel`
unfoldable pub wait_cancel : Kernel → ℕ → Kernel
unfolding timer_delete
wait_cancel k t = let k' = timer_delete k (wtmeb t) in set_queues k' (que_remove k'.rq.que t)

-- `knl_wait_release`
unfoldable pub wait_release : Kernel → ℕ → Kernel
unfolding wait_cancel make_non_wait
wait_release k t = make_non_wait (wait_cancel k t) t

-- `knl_wait_release_ok` and `knl_wait_release_ok_ercd`
unfoldable pub wait_release_ok_ercd : Kernel → ℕ → Er → Kernel
unfolding wait_release set_wercd
wait_release_ok_ercd k t er = set_wercd (wait_release k t) t er

unfoldable pub wait_release_ok : Kernel → ℕ → Kernel
unfolding wait_release_ok_ercd
wait_release_ok k t = wait_release_ok_ercd k t ok

-- The switch of `knl_make_wait` and `knl_make_wait_reltim`, for the task in execution.
abbrev waiting_by : Kernel → ℕ → TaskState → Kernel
waiting_by k t ready = set_state (make_non_ready k t) t wait
waiting_by k t suspend = set_state k t waitsus
waiting_by k t _ = k

unfoldable pub make_waiting : Kernel → ℕ → Kernel
unfolding set_state make_non_ready
make_waiting k t = waiting_by k t (k.tcb t).state

-- `knl_make_wait`
unfoldable pub make_wait : Kernel → ℕ → ℤ → Kernel
make_wait k t tmout = timer_insert (make_waiting k t) (wtmeb t) tmout

-- `knl_make_wait_reltim`
unfoldable pub make_wait_reltim : Kernel → ℕ → ℕ → Kernel
make_wait_reltim k t tmout = timer_insert_reltim (make_waiting k t) (wtmeb t) tmout

-- The loop of `knl_wait_delete`, at most `fuel` rounds.
abbrev delete_first : (Kernel → Kernel) → Kernel → List ℕ → Kernel
delete_first again k [] = k
delete_first again k (t ∷ ts) = let next = again (wait_release_ok_ercd k t e_dlt) in next

pub wait_delete_from : ℕ → Kernel → Head → Kernel
wait_delete_from zero k h = k
wait_delete_from (suc fuel) k h = delete_first (λ k'. wait_delete_from fuel k' h) k (que_of k h)

-- `knl_wait_delete`
unfoldable pub wait_delete : Kernel → Head → Kernel
unfolding wait_delete_from wait_release_ok_ercd
wait_delete k h = wait_delete_from (length (que_of k h)) k h

-- `knl_wait_tskid`
abbrev pub first_or_zero : List ℕ → ℕ
first_or_zero [] = 0
first_or_zero (t ∷ ts) = t

unfoldable pub wait_tskid : Kernel → Head → ℕ
wait_tskid k h = first_or_zero (que_of k h)

-- `knl_queue_insert_tpri`: before the first task of a worse priority.
unfoldable pub insert_tpri : (ℕ → ℕ) → ℕ → List ℕ → List ℕ
insert_tpri pri t [] = t ∷ []
insert_tpri pri t (q ∷ qs) =
    let further = q ∷ insert_tpri pri t qs in if ltb (pri t) (pri q) then t ∷ q ∷ qs else further

abbrev pub priority_of : Kernel → ℕ → ℕ
priority_of k t = (k.tcb t).priority

unfoldable pub queue_insert_tpri : Kernel → ℕ → Head → Kernel
unfolding insert_tpri
queue_insert_tpri k t h =
    set_queues k (set_que k.rq.que h (insert_tpri (priority_of k) t (que_of k h)))

-- `knl_gcb_make_wait`, for the task `t` in execution, the object `id` with the wait queue `h`.
unfoldable pub gcb_make_wait : Kernel → ℕ → Head → ℕ → ℕ → ℤ → Kernel × Reply
gcb_make_wait k t h id atr tmout =
    if is_pol tmout
    then (set_wercd k t e_tmout, ret e_tmout)
    else (let k1 = set_wercd k t e_tmout in
        let k2 = set_tcb k1 t (record (k1.tcb t) { wid = id }) in
        let k3 = make_wait k2 t tmout in
        (
          if any_bit atr ta_tpri
              then queue_insert_tpri k3 t h
              else set_queues k3 (que_insert k3.rq.que t h),
          pend,
        ))

-- `knl_gcb_change_priority`
unfoldable pub gcb_change_priority : Kernel → Head → ℕ → Kernel
unfolding queue_insert_tpri
gcb_change_priority k h t = queue_insert_tpri (set_queues k (que_remove k.rq.que t)) t h

-- `knl_gcb_top_of_wait_queue`
abbrev top_by : Kernel → ℕ → ℕ → List ℕ → ℕ
top_by k atr t [] = t
top_by k atr t (q ∷ qs) =
    if any_bit atr ta_tpri then (if ltb (priority_of k t) (priority_of k q) then t else q) else q

unfoldable pub gcb_top_of_wait_queue : Kernel → Head → ℕ → ℕ → ℕ
gcb_top_of_wait_queue k h atr t = top_by k atr t (que_of k h)
