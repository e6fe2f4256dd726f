-- ===== src/ReadyQueue.antt =====
-- kernel/tkernel/ready_queue.h: the ready queue of a kernel with 32 priorities (NUM_TSKPRI), where
-- the bitmap is one `UINT`. Each operation takes the fields of the TCB that it reads.
pub mod Invariant
pub mod Order
use esp32c3_mtk.Prelude.{
  ℕ, zero, suc, ◌+◌, ◌-◌, ◌≤◌, ◌<◌, ◌≡◌, refl, Bool, true, false, not, List, [], ◌∷◌, ◌++◌, Option,
  none, some, ltb, ◌==◌, if◌then◌else◌, without, is_empty,
}
use esp32c3_mtk.Bits.{test_bit, set_bit, clear_bit}
use esp32c3_mtk.Types.{
  Tcb, Head, rdy, Queues, set_que, que_insert, que_insert_top, que_remove, same_task,
}

abbrev pub num_tskpri : ℕ
num_tskpri = 32

-- `RDYQUE`. `tskque[p]` is `que (rdy p)`; `que` holds the other rings of TCBs too, since QueRemove
-- takes a TCB out of whichever ring it is in.
pub record RdyQue : Type 0 where
  pub top_priority : ℕ
  pub que : Queues
  pub bitmap : ℕ
  pub klocktsk : Option ℕ

-- `knl_ready_queue_calc_top_priority`, with the rounds left, `NUM_TSKPRI - pos`.
pub calc_top_from : ℕ → ℕ → ℕ → ℕ
calc_top_from zero bitmap pos = num_tskpri
calc_top_from (suc rounds) bitmap pos =
    let next = calc_top_from rounds bitmap (pos + 1) in if test_bit bitmap pos then pos else next

unfoldable pub calc_top_priority : ℕ → ℕ → ℕ
unfolding calc_top_from test_bit
calc_top_priority bitmap pos = calc_top_from (num_tskpri - pos) bitmap pos

-- `knl_ready_queue_initialize`
abbrev clear_ready : Queues → Queues
clear_ready q (rdy p) = if ltb p num_tskpri then [] else q (rdy p)
clear_ready q h = q h

unfoldable pub initialize : RdyQue → RdyQue
initialize rq = record {
  top_priority = num_tskpri;
  que = clear_ready rq.que;
  bitmap = 0;
  klocktsk = none;
}

abbrev pub head? : List ℕ → Option ℕ
head? [] = none
head? (t ∷ ts) = some t

-- `knl_ready_queue_top`. At `top_priority == NUM_TSKPRI` the source reads `null`, behind the array.
abbrev top_of : RdyQue → Option ℕ → Option ℕ
top_of rq (some t) = some t
top_of rq none =
    if rq.top_priority == num_tskpri then none else head? (rq.que (rdy rq.top_priority))

unfoldable pub top : RdyQue → Option ℕ
top rq = top_of rq rq.klocktsk

-- `knl_ready_queue_insert`: the Boolean is what it returns, whether `top_priority` changed.
unfoldable pub insert : RdyQue → ℕ → Tcb → RdyQue × Bool
unfolding set_bit
insert rq t tcb =
    let higher = ltb tcb.priority rq.top_priority in
    (
      record {
        top_priority = if higher then tcb.priority else rq.top_priority;
        que = que_insert rq.que t (rdy tcb.priority);
        bitmap = set_bit rq.bitmap tcb.priority;
        klocktsk = if tcb.klocked then some t else rq.klocktsk;
      },
      higher,
    )

-- `knl_ready_queue_insert_top`
unfoldable pub insert_top : RdyQue → ℕ → Tcb → RdyQue
unfolding set_bit
insert_top rq t tcb = record {
  top_priority = if ltb tcb.priority rq.top_priority then tcb.priority else rq.top_priority;
  que = que_insert_top rq.que t (rdy tcb.priority);
  bitmap = set_bit rq.bitmap tcb.priority;
  klocktsk = if tcb.klocked then some t else rq.klocktsk;
}

-- The end of `knl_ready_queue_delete`: the bit and the top of a queue that became empty.
unfoldable pub emptied : RdyQue → ℕ → RdyQue
unfolding clear_bit calc_top_priority
emptied rq priority =
    let bitmap = clear_bit rq.bitmap priority in
    record rq {
      bitmap = bitmap;
      top_priority =
          if priority == rq.top_priority
          then calc_top_priority bitmap priority
          else rq.top_priority;
    }

-- The start of `knl_ready_queue_delete`: the lock holder is forgotten, the TCB unlinked.
unfoldable pub unlinked : RdyQue → ℕ → RdyQue
unlinked rq t = record rq {
  klocktsk = if same_task rq.klocktsk t then none else rq.klocktsk;
  que = que_remove rq.que t;
}

-- `knl_ready_queue_delete`: with the TCB, whose `klockwait` it may reset.
unfoldable pub delete : RdyQue → ℕ → Tcb → RdyQue × Tcb
unfolding unlinked emptied
delete rq t tcb =
    let rq' = unlinked rq t in
    if tcb.klockwait
    then (rq', record tcb { klockwait = false })
    else (if is_empty (rq'.que (rdy tcb.priority)) then emptied rq' tcb.priority else rq', tcb)

-- `knl_ready_queue_rotate`
abbrev rotated : List ℕ → List ℕ
rotated [] = []
rotated (t ∷ ts) = ts ++ t ∷ []

unfoldable pub rotate : RdyQue → ℕ → RdyQue
rotate rq priority = record rq {
  que = set_que rq.que (rdy priority) (rotated (rq.que (rdy priority)));
}

-- `knl_ready_queue_move_last`: with the new task at the head of the queue.
unfoldable pub move_last : RdyQue → ℕ → Tcb → RdyQue × Option ℕ
move_last rq t tcb =
    let que = que_insert (que_remove rq.que t) t (rdy tcb.priority) in
    (record rq { que = que }, head? (que (rdy tcb.priority)))
