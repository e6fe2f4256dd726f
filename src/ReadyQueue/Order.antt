-- ===== src/ReadyQueue/Order.antt =====
-- kernel/tkernel/ready_queue.h: the ready queue as one list: the READY tasks by priority, and in the order of their arrival
-- within a priority. That is the order in which the scheduler serves them.
use esp32c3_mtk.Prelude.{
  ℕ, zero, suc, ◌+◌, ◌-◌, ◌≤◌, ◌<◌, ◌≡◌, refl, ap, ◌∙◌, true, false, List, [], ◌∷◌, ◌++◌, none, ltb,
  without, is_empty, arith, append_assoc, append-nil, Bool-cases, inl, inr,
}
use esp32c3_mtk.Types.{Tcb, rdy, Queues, set_que, que_insert, que_remove}
use esp32c3_mtk.ReadyQueue.{RdyQue, head?, top, top_of, insert, delete}
use esp32c3_mtk.ReadyQueue.Invariant.{IsReadyQueue}

-- The lists of the priorities from `pos` on, `rounds` many.
pub ready_from : Queues → ℕ → ℕ → List ℕ
ready_from q zero pos = []
ready_from q (suc rounds) pos = q (rdy pos) ++ ready_from q rounds (pos + 1)

unfoldable pub ready_order : Queues → List ℕ
ready_order q = ready_from q 32 0

head?-append : (xs ys : List ℕ) → is_empty xs ≡ false → head? (xs ++ ys) ≡ head? xs
head?-append [] ys h = cc
head?-append (x ∷ xs) ys h = refl

head?-append_nil : (xs ys : List ℕ) → is_empty xs ≡ true → head? (xs ++ ys) ≡ head? ys
head?-append_nil [] ys h = refl
head?-append_nil (x ∷ xs) ys h = cc

head?-ready_from :
    (rq : RdyQue) (rounds pos : ℕ)
    → IsReadyQueue rq
    → rounds + pos ≡ 32
    → pos ≤ rq.top_priority
    → top_of rq none ≡ head? (ready_from rq.que rounds pos)
unfolding ready_from
head?-ready_from rq zero pos v e h = ground (arith, v.top_le)
head?-ready_from rq (suc rounds) pos v e h = elim (Bool-cases (ltb pos rq.top_priority)) [
  | inl below ↦ ground (
    arith,
    v.above pos,
    head?-append_nil (rq.que (rdy pos)) (ready_from rq.que rounds (pos + 1)),
    head?-ready_from rq rounds (pos + 1) v,
  )
  | inr here ↦
      ground (arith, v.at_top, head?-append (rq.que (rdy pos)) (ready_from rq.que rounds (pos + 1)))
]

-- For a ready queue that is right and no holder of a kernel lock, `knl_ready_queue_top` is the
-- first READY task in the order of service: of the best priority that has any, and there the one
-- that came first; none if no task is READY.
pub top-eq-head? :
    (rq : RdyQue) → IsReadyQueue rq → rq.klocktsk ≡ none → top rq ≡ head? (ready_order rq.que)
unfolding top ready_order
top-eq-head? rq v e = ground (arith, head?-ready_from rq 32 0 v)

-- A list of another priority does not matter.
ready_from-set_que :
    (q : Queues) (p : ℕ) (l : List ℕ) (n pos : ℕ)
    → p < pos
    → ready_from (set_que q (rdy p) l) n pos ≡ ready_from q n pos
unfolding ready_from
ready_from-set_que q p l zero pos h = refl
ready_from-set_que q p l (suc n) pos h = ground (arith, ready_from-set_que q p l n (pos + 1))

ready_from-insert :
    (q : Queues) (t p m k n pos : ℕ)
    → m ≡ k + suc n
    → p ≡ pos + k
    → ready_from (que_insert q t (rdy p)) m pos
      ≡ ready_from q (suc k) pos ++ t ∷ ready_from q n (pos + suc k)
unfolding ready_from
ready_from-insert q t p zero k n pos e h = absurd (omega arith)
ready_from-insert q t p (suc m) zero n pos e h =
    let mn : m ≡ n = omega arith in
    let pp : p ≡ pos = omega arith in
    ground (
      arith,
      ready_from-set_que q p (q (rdy p) ++ t ∷ []) n (pos + 1),
      append_assoc (q (rdy p)) (t ∷ []) (ready_from q n (pos + 1)),
      append-nil (q (rdy p)),
    )
ready_from-insert q t p (suc m) (suc k) n pos e h =
    let ih = ready_from-insert q t p m k n (pos + 1) (omega arith) (omega arith) in
    ground (
      arith,
      ih,
      append_assoc (q (rdy pos)) (ready_from q (suc k) (pos + 1))
          (t ∷ ready_from q n (pos + 1 + suc k)),
    )

-- `knl_ready_queue_insert` puts a task with a priority below 32 behind all tasks of its own or a
-- better priority and before all others.
pub ready_order-insert :
    (rq : RdyQue) (t : ℕ) (tcb : Tcb)
    → tcb.priority < 32
    → ready_order (insert rq t tcb).0.que
      ≡ ready_from rq.que (suc tcb.priority) 0
        ++ t ∷ ready_from rq.que (31 - tcb.priority) (suc tcb.priority)
unfolding ready_order insert
ready_order-insert rq t tcb h =
    ready_from-insert rq.que t tcb.priority 32 tcb.priority (31 - tcb.priority) 0 (omega arith)
      (omega arith)
    ∙ ap
        (λ z. ready_from rq.que (suc tcb.priority) 0 ++ t ∷ ready_from rq.que (31 - tcb.priority) z)
        (omega arith)

without-append : (t : ℕ) (xs ys : List ℕ) → without t (xs ++ ys) ≡ without t xs ++ without t ys
without-append t [] ys = refl
without-append t (x ∷ xs) ys = ground (arith, without-append t xs ys)

ready_from-remove :
    (q : Queues) (t n pos : ℕ) → ready_from (que_remove q t) n pos ≡ without t (ready_from q n pos)
unfolding ready_from
ready_from-remove q t zero pos = refl
ready_from-remove q t (suc n) pos = ground (
  arith,
  ready_from-remove q t n (pos + 1),
  without-append t (q (rdy pos)) (ready_from q n (pos + 1)),
)

-- `knl_ready_queue_delete` takes the task out of the order of service and keeps the order of the
-- others.
pub ready_order-delete :
    (rq : RdyQue) (t : ℕ) (tcb : Tcb)
    → ready_order (delete rq t tcb).0.que ≡ without t (ready_order rq.que)
unfolding ready_order delete
ready_order-delete rq t tcb = ground (arith, ready_from-remove rq.que t 32 0)
