-- ===== src/ObjectLock/Handover.antt =====
-- Who holds an object lock, and who gets it next (kernel/tkernel/klock.c).
use esp32c3_mtk.Prelude.{
  ℕ, ◌<◌, ◌≡◌, ◌≢◌, refl, sym, subst, true, false, List, [], ◌∷◌, ◌++◌, none, some, contains,
  without, arith, ◌⊎◌, inl, inr,
}
use esp32c3_mtk.Types.{rdy, lock}
use esp32c3_mtk.ReadyQueue
use esp32c3_mtk.ReadyQueue.{RdyQue}
use esp32c3_mtk.ReadyQueue.Invariant.{
  IsReadyQueue, IsLinked, insert_top-IsReadyQueue, delete-IsReadyQueue,
}
use esp32c3_mtk.Kernel.{Kernel, que_of, update}
use esp32c3_mtk.ObjectLock.{handed_over, taken, queued, lock_obj, unlock_obj}

-- Only the ready lists, the bitmap and the top matter.
same_ready-IsReadyQueue :
    (rq rq' : RdyQue)
    → IsReadyQueue rq
    → rq'.bitmap ≡ rq.bitmap
    → rq'.top_priority ≡ rq.top_priority
    → ((p : ℕ) → rq'.que (rdy p) ≡ rq.que (rdy p))
    → IsReadyQueue rq'
same_ready-IsReadyQueue rq rq' v b t q = record {
  bits = λ p. rw (b, q p) (v.bits p);
  few = λ p h. rw (q p) (v.few p h);
  above = λ p h. rw (q p) (v.above p (subst (λ n. p < n) t h));
  at_top = λ h. rw (t, q rq.top_priority) (v.at_top (subst (λ n. n < 32) t h));
  top_le = rw t v.top_le;
}

taken-IsReadyQueue : (k : Kernel) (l t : ℕ) → IsReadyQueue k.rq → IsReadyQueue (taken k l t).rq
unfolding taken
taken-IsReadyQueue k l t v = same_ready-IsReadyQueue k.rq _ v refl refl (λ p. refl)

queued-IsReadyQueue :
    (k : Kernel) (l t : ℕ)
    → IsReadyQueue (ReadyQueue.delete k.rq t (k.tcb t)).0
    → IsReadyQueue (queued k l t).rq
unfolding queued
queued-IsReadyQueue k l t v = same_ready-IsReadyQueue _ _ v refl refl (λ p. refl)

lock_obj_outcome :
    (k : Kernel) (l t : ℕ)
    → ((lock_obj k l t).0 ≡ k)
      ⊎ ((lock_obj k l t).0 ≡ taken k l t)
      ⊎ ((lock_obj k l t).0 ≡ queued k l t)
unfolding lock_obj
lock_obj_outcome k l t = ground arith

-- A round of `knl_LockOBJ` keeps the ready queue right, for a task that is in the list of its
-- priority, or waits for a lock object and is in no ready list.
pub lock_obj-IsReadyQueue :
    (k : Kernel) (l t : ℕ)
    → IsReadyQueue k.rq
    → IsLinked k.rq t (k.tcb t)
    → ((k.tcb t).klockwait ≡ false → contains t (k.rq.que (rdy (k.tcb t).priority)) ≡ true)
    → IsReadyQueue (lock_obj k l t).0.rq
lock_obj-IsReadyQueue k l t v d r = elim (lock_obj_outcome k l t) [
  | inl e ↦ subst (λ k'. IsReadyQueue k'.rq) (sym e) v
  | inr (inl e) ↦ subst (λ k'. IsReadyQueue k'.rq) (sym e) (taken-IsReadyQueue k l t v)
  | inr (inr e) ↦
      subst (λ k'. IsReadyQueue k'.rq) (sym e)
        (queued-IsReadyQueue k l t (delete-IsReadyQueue k.rq t (k.tcb t) v d r))
]

-- A task with no lock that calls `knl_LockOBJ` for a lock that is taken does not get it in this
-- round: it goes last into the lock's queue and is taken out of every ready list.
pub lock_obj-waits :
    (k : Kernel) (l t : ℕ)
    → (k.tcb t).klocked ≡ false
    → k.lock_taken l ≡ true
    → ((lock_obj k l t).1 ≡ false)
      × (que_of (lock_obj k l t).0 (lock l) ≡ without t (que_of k (lock l)) ++ t ∷ [])
      × ((p : ℕ) → que_of (lock_obj k l t).0 (rdy p) ≡ without t (que_of k (rdy p)))
unfolding lock_obj queued ReadyQueue.delete ReadyQueue.unlinked ReadyQueue.emptied
lock_obj-waits k l t a b = (ground arith, ground arith, λ p. ground arith)

-- When tasks wait for an object lock, `knl_UnlockOBJ` by another task hands it to the first of
-- them: that task is the one to run and its next round of `knl_LockOBJ` returns, the lock flag of
-- the task that unlocks is reset, the others stay in the queue, and no lock is freed or newly
-- taken.
pub unlock_obj-hands_over :
    (k : Kernel) (l t u : ℕ) (us : List ℕ)
    → que_of k (lock l) ≡ u ∷ us
    → t ≢ u
    → ((unlock_obj k l t).schedtsk ≡ some u)
      × ((lock_obj (unlock_obj k l t) l u).1 ≡ true)
      × (((unlock_obj k l t).tcb t).klocked ≡ false)
      × (que_of (unlock_obj k l t) (lock l) ≡ us)
      × ((unlock_obj k l t).lock_taken ≡ k.lock_taken)
unfolding unlock_obj lock_obj ReadyQueue.insert_top ReadyQueue.top
unlock_obj-hands_over k l t u us e n =
    (ground arith, ground arith, ground arith, ground arith, ground arith)

abbrev unlocked : Kernel → ℕ → Kernel
unlocked k t = record k {
  tcb = update k.tcb t (record (k.tcb t) { klocked = false });
  rq = record k.rq { klocktsk = none };
}

handed_over-IsReadyQueue :
    (k : Kernel) (l : ℕ) (q : List ℕ)
    → IsReadyQueue k.rq
    → ((u : ℕ) → (k.tcb u).priority < 32)
    → IsReadyQueue (handed_over k l q).rq
handed_over-IsReadyQueue k l [] v h = v
handed_over-IsReadyQueue k l (u ∷ us) v h =
    insert_top-IsReadyQueue _ u (record (k.tcb u) { klockwait = false; klocked = true })
      (same_ready-IsReadyQueue k.rq _ v refl refl (λ p. refl)) (h u)

-- `knl_UnlockOBJ` keeps the ready queue right, when all tasks have priorities below 32.
pub unlock_obj-IsReadyQueue :
    (k : Kernel) (l t : ℕ)
    → IsReadyQueue k.rq
    → ((u : ℕ) → (k.tcb u).priority < 32)
    → IsReadyQueue (unlock_obj k l t).rq
unfolding unlock_obj
unlock_obj-IsReadyQueue k l t v h =
    handed_over-IsReadyQueue (unlocked k t) l (que_of k (lock l))
      (same_ready-IsReadyQueue k.rq _ v refl refl (λ p. refl)) (λ u. ground (arith, h u))
