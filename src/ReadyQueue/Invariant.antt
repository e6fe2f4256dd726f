-- ===== src/ReadyQueue/Invariant.antt =====
-- The ready queue's bitmap and `top_priority` beside its lists (kernel/tkernel/ready_queue.h).
use esp32c3_mtk.Prelude.{
  ℕ, zero, suc, ◌+◌, ◌-◌, ◌≤◌, ◌<◌, ◌≡◌, ◌≢◌, refl, true, false, not, List, [], ◌∷◌, ◌==◌, without,
  is_empty, contains, arith, is_empty-snoc, List-cases, without_absent, Bool-cases, inl, inr,
}
use esp32c3_mtk.Bits.{test_bit, test_bit-set_bit, test_bit-clear_bit, zero-test_bit}
use esp32c3_mtk.Types.{Tcb, rdy}
use esp32c3_mtk.ReadyQueue.{
  RdyQue, calc_top_from, calc_top_priority, initialize, insert, insert_top, emptied, unlinked,
  delete, rotate, rotated,
}

pub record IsReadyQueue (rq : RdyQue) : Type 0 where
  pub bits : (p : ℕ) → test_bit rq.bitmap p ≡ not (is_empty (rq.que (rdy p)))
  pub few : (p : ℕ) → 32 ≤ p → is_empty (rq.que (rdy p)) ≡ true
  pub above : (p : ℕ) → p < rq.top_priority → is_empty (rq.que (rdy p)) ≡ true
  pub at_top : rq.top_priority < 32 → is_empty (rq.que (rdy rq.top_priority)) ≡ false
  pub top_le : rq.top_priority ≤ 32

-- A TCB that is linked, if at all, into the ready list of its own priority.
-- While it waits for a lock object it is in none of them.
pub record IsLinked (rq : RdyQue) (t : ℕ) (tcb : Tcb) : Type 0 where
  pub only : (p : ℕ) → p ≢ tcb.priority → contains t (rq.que (rdy p)) ≡ false
  pub locked_out : tcb.klockwait ≡ true → contains t (rq.que (rdy tcb.priority)) ≡ false
  pub in_range : tcb.priority < 32

-- `knl_ready_queue_insert` keeps the ready queue right, for a task with a priority below 32.
pub insert-IsReadyQueue :
    (rq : RdyQue) (t : ℕ) (tcb : Tcb)
    → IsReadyQueue rq
    → tcb.priority < 32
    → IsReadyQueue (insert rq t tcb).0
unfolding insert
insert-IsReadyQueue rq t tcb v h = record {
  bits = λ p. ground (
    arith,
    v.bits p,
    test_bit-set_bit rq.bitmap tcb.priority p,
    is_empty-snoc (rq.que (rdy tcb.priority)) t,
  );
  few = λ p q. ground (arith, v.few p);
  above = λ p q. ground (arith, v.above p);
  at_top = λ q. ground (arith, v.at_top, is_empty-snoc (rq.que (rdy tcb.priority)) t);
  top_le = ground (arith, v.top_le);
}

pub insert_top-IsReadyQueue :
    (rq : RdyQue) (t : ℕ) (tcb : Tcb)
    → IsReadyQueue rq
    → tcb.priority < 32
    → IsReadyQueue (insert_top rq t tcb)
unfolding insert_top
insert_top-IsReadyQueue rq t tcb v h = record {
  bits = λ p. ground (arith, v.bits p, test_bit-set_bit rq.bitmap tcb.priority p);
  few = λ p q. ground (arith, v.few p);
  above = λ p q. ground (arith, v.above p);
  at_top = λ q. ground (arith, v.at_top);
  top_le = ground (arith, v.top_le);
}

-- What the search of the bitmap from `pos` on finds.
record IsFirst (bitmap pos r : ℕ) : Type 0 where
  found : r < 32 → test_bit bitmap r ≡ true
  first : (p : ℕ) → pos ≤ p → p < r → test_bit bitmap p ≡ false
  first_le : r ≤ 32

calc_top_from-IsFirst :
    (rounds bitmap pos : ℕ)
    → rounds + pos ≡ 32
    → IsFirst bitmap pos (calc_top_from rounds bitmap pos)
unfolding calc_top_from
calc_top_from-IsFirst zero bitmap pos h = record {
  found = λ q. absurd (omega arith);
  first = λ p q r. absurd (omega arith);
  first_le = omega arith;
}
calc_top_from-IsFirst (suc rounds) bitmap pos h =
    let ih : IsFirst bitmap (pos + 1) (calc_top_from rounds bitmap (pos + 1)) =
      calc_top_from-IsFirst rounds bitmap (pos + 1) (omega arith) in
    elim (Bool-cases (test_bit bitmap pos)) [
      | inl here ↦ rw here (record {
        found = λ q. here;
        first = λ p q r. absurd (omega arith);
        first_le = omega arith;
      })
      | inr further ↦ rw further (record {
        found = ih.found;
        first = λ p q r. ground (arith, ih.first p);
        first_le = ih.first_le;
      })
    ]

calc_top_priority-IsFirst :
    (bitmap pos : ℕ) → pos < 32 → IsFirst bitmap pos (calc_top_priority bitmap pos)
unfolding calc_top_priority
calc_top_priority-IsFirst bitmap pos h = calc_top_from-IsFirst (32 - pos) bitmap pos (omega arith)

-- The queue between the unlinking and the update of bitmap and top: right but for `priority`.
record IsUnsettled (rq : RdyQue) (priority : ℕ) : Type 0 where
  bits : (p : ℕ) → p ≢ priority → test_bit rq.bitmap p ≡ not (is_empty (rq.que (rdy p)))
  few : (p : ℕ) → 32 ≤ p → is_empty (rq.que (rdy p)) ≡ true
  above : (p : ℕ) → p < rq.top_priority → is_empty (rq.que (rdy p)) ≡ true
  at_top :
      rq.top_priority < 32
      → rq.top_priority ≢ priority
      → is_empty (rq.que (rdy rq.top_priority)) ≡ false
  top_le : rq.top_priority ≤ 32
  was_set : test_bit rq.bitmap priority ≡ true
  in_range : priority < 32

settled-IsReadyQueue :
    (rq : RdyQue) (priority : ℕ)
    → IsUnsettled rq priority
    → is_empty (rq.que (rdy priority)) ≡ false
    → IsReadyQueue rq
settled-IsReadyQueue rq priority u e = record {
  bits = λ p. elim (Bool-cases (p == priority)) [
    | inl same ↦ ground (arith, u.was_set)
    | inr other ↦ ground (arith, u.bits p)
  ];
  few = u.few;
  above = u.above;
  at_top = λ q. ground (arith, u.at_top);
  top_le = u.top_le;
}

emptied-bits :
    (rq : RdyQue) (priority : ℕ)
    → IsUnsettled rq priority
    → is_empty (rq.que (rdy priority)) ≡ true
    → (p : ℕ) → test_bit (emptied rq priority).bitmap p ≡ not (is_empty (rq.que (rdy p)))
unfolding emptied
emptied-bits rq priority u e p = ground (arith, u.bits p, test_bit-clear_bit rq.bitmap priority p)

emptied-IsReadyQueue :
    (rq : RdyQue) (priority : ℕ)
    → IsUnsettled rq priority
    → is_empty (rq.que (rdy priority)) ≡ true
    → IsReadyQueue (emptied rq priority)
unfolding emptied
emptied-IsReadyQueue rq priority u e =
    let bitmap' = (emptied rq priority).bitmap in
    let s : IsFirst bitmap' priority (calc_top_priority bitmap' priority) =
      calc_top_priority-IsFirst bitmap' priority u.in_range in
    let bit = emptied-bits rq priority u e in
    record {
      bits = bit;
      few = u.few;
      above = λ p q. ground (arith, u.above p, s.first p, bit p);
      at_top = λ q. ground (arith, u.at_top, s.found, bit (calc_top_priority bitmap' priority));
      top_le = ground (arith, u.top_le, s.first_le);
    }

-- Unlinking a TCB that is in no ready list leaves the lists as they are.
unlinked_absent :
    (rq : RdyQue) (t : ℕ)
    → IsReadyQueue rq
    → ((p : ℕ) → contains t (rq.que (rdy p)) ≡ false)
    → IsReadyQueue (unlinked rq t)
unfolding unlinked
unlinked_absent rq t v n = record {
  bits = λ p. ground (arith, v.bits p, without_absent t (rq.que (rdy p)), n p);
  few = λ p q. ground (arith, v.few p, without_absent t (rq.que (rdy p)), n p);
  above = λ p q. ground (arith, v.above p, without_absent t (rq.que (rdy p)), n p);
  at_top = λ q.
      ground (arith, v.at_top, without_absent t (rq.que (rdy rq.top_priority)), n rq.top_priority);
  top_le = v.top_le;
}

is_empty-without : (t : ℕ) (xs : List ℕ) → is_empty xs ≡ true → is_empty (without t xs) ≡ true
is_empty-without t [] h = refl
is_empty-without t (x ∷ xs) h = cc

unlinked-IsUnsettled :
    (rq : RdyQue) (t : ℕ) (tcb : Tcb)
    → IsReadyQueue rq
    → IsLinked rq t tcb
    → contains t (rq.que (rdy tcb.priority)) ≡ true
    → IsUnsettled (unlinked rq t) tcb.priority
unfolding unlinked
unlinked-IsUnsettled rq t tcb v k m = record {
  bits = λ p q. ground (arith, v.bits p, without_absent t (rq.que (rdy p)), k.only p);
  few = λ p q. ground (arith, v.few p, is_empty-without t (rq.que (rdy p)));
  above = λ p q. ground (arith, v.above p, is_empty-without t (rq.que (rdy p)));
  at_top = λ q r.
      ground
        (arith, v.at_top, without_absent t (rq.que (rdy rq.top_priority)), k.only rq.top_priority);
  top_le = v.top_le;
  was_set = ground (arith, v.bits tcb.priority, List-cases (rq.que (rdy tcb.priority)));
  in_range = k.in_range;
}

-- `knl_ready_queue_delete` keeps the ready queue right (the bitmap has exactly the bits of the
-- lists that are not empty, and `top_priority` is the best priority of a list that is not empty,
-- or 32), for a task that is in the list of its priority, or waits for a lock object and is in no
-- ready list.
pub delete-IsReadyQueue :
    (rq : RdyQue) (t : ℕ) (tcb : Tcb)
    → IsReadyQueue rq
    → IsLinked rq t tcb
    → (tcb.klockwait ≡ false → contains t (rq.que (rdy tcb.priority)) ≡ true)
    → IsReadyQueue (delete rq t tcb).0
unfolding delete
delete-IsReadyQueue rq t tcb v k m = elim (Bool-cases tcb.klockwait) [
  | inl w ↦ rw w (
      unlinked_absent rq t v (λ p. elim (Bool-cases (p == tcb.priority)) [
        | inl e ↦ ground (arith, k.locked_out w)
        | inr e ↦ ground (arith, k.only p)
      ]))
  | inr w ↦
      let u = unlinked-IsUnsettled rq t tcb v k (m w) in
      elim (Bool-cases (is_empty ((unlinked rq t).que (rdy tcb.priority)))) [
        | inl e ↦ rw (w, e) (emptied-IsReadyQueue (unlinked rq t) tcb.priority u e)
        | inr e ↦ rw (w, e) (settled-IsReadyQueue (unlinked rq t) tcb.priority u e)
      ]
]

is_empty-rotated : (xs : List ℕ) → is_empty (rotated xs) ≡ is_empty xs
is_empty-rotated [] = refl
is_empty-rotated (x ∷ xs) = is_empty-snoc xs x

pub rotate-IsReadyQueue :
    (rq : RdyQue) (priority : ℕ) → IsReadyQueue rq → IsReadyQueue (rotate rq priority)
unfolding rotate
rotate-IsReadyQueue rq priority v = record {
  bits = λ p. ground (arith, v.bits p, is_empty-rotated (rq.que (rdy priority)));
  few = λ p q. ground (arith, v.few p, is_empty-rotated (rq.que (rdy priority)));
  above = λ p q. ground (arith, v.above p, is_empty-rotated (rq.que (rdy priority)));
  at_top = λ q. ground (arith, v.at_top, is_empty-rotated (rq.que (rdy priority)));
  top_le = v.top_le;
}

pub initialize-IsReadyQueue :
    (rq : RdyQue)
    → ((p : ℕ) → 32 ≤ p → is_empty (rq.que (rdy p)) ≡ true)
    → IsReadyQueue (initialize rq)
unfolding initialize
initialize-IsReadyQueue rq f = record {
  bits = λ p. ground (arith, f p, zero-test_bit p);
  few = λ p q. ground (arith, f p);
  above = λ p q. ground arith;
  at_top = λ q. ground arith;
  top_le = omega arith;
}
