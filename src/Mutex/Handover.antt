-- ===== src/Mutex/Handover.antt =====
-- `tk_unl_mtx` of kernel/tkernel/mutex.c: the mutex goes to the first task that waits for it.
use esp32c3_mtk.Prelude.{
  ℕ, ◌≡◌, refl, sym, ◌∙◌, ap, subst, true, false, ◌&&◌, List, ◌∷◌, some, ltb, ◌==◌, contains,
  without, arith, if_cases, without_absent,
}
use esp32c3_mtk.Types.{ok, mtx, same_task, is_ready}
use esp32c3_mtk.Kernel.{Kernel, que_of, in_range, max_mtxid, in_indp}
use esp32c3_mtk.Task.{change_ready_priority}
use esp32c3_mtk.Wait.{wait_release_ok, priority_of}
use esp32c3_mtk.Wait.Frame.{same-rdy}
use esp32c3_mtk.Mutex.{
  ta_ceiling, kind_of, set_mtxlist, get_lock, release_mutex, newpri_from, hand_over, hand_to,
  unl_mtx_by, unl_mtx,
}
use esp32c3_mtk.Mutex.Owner.{IsChange}

change_ready_priority-que :
    (k : Kernel) (t p i : ℕ)
    → contains t (que_of k (mtx i)) ≡ false
    → que_of (change_ready_priority k t p) (mtx i) ≡ que_of k (mtx i)
unfolding change_ready_priority
change_ready_priority-que k t p i c = ground (
  arith,
  without_absent t (que_of k (mtx i)),
  same-rdy p (mtx i),
  same-rdy (priority_of k t) (mtx i),
)

module _ (change : Kernel → ℕ → ℕ → Kernel) (law : IsChange change) where
  release_mutex-que :
      (k : Kernel) (t i : ℕ)
      → is_ready (k.tcb t).state ≡ true
      → contains t (que_of k (mtx i)) ≡ false
      → que_of (release_mutex change k t (some i)) (mtx i) ≡ que_of k (mtx i)
  unfolding release_mutex
  release_mutex-que k t i r c =
      let ms = without i (k.tcb t).mtxlist in
      let k' = set_mtxlist k t ms in
      let q = newpri_from k (k.tcb t).bpriority (k.tcb t).bpriority ms in
      if_cases (λ (x : Kernel). que_of x (mtx i) ≡ que_of k (mtx i)) (q == (k.tcb t).priority) k'
        (change k' t q) (λ e. refl)
        (λ e.
          ap (λ x. que_of x (mtx i)) (law.ready k' t q (ground (arith, r)))
          ∙ change_ready_priority-que k' t q i c)

  hand_to-mtxtsk :
      (k : Kernel) (i u : ℕ) (us : List ℕ) → ((hand_to change k i (u ∷ us)).mtxcb i).mtxtsk ≡ some u
  hand_to-mtxtsk k i u us =
      let k' = get_lock (wait_release_ok k u) i u in
      let p = (k'.mtxcb i).ceilpri in
      let given : (k'.mtxcb i).mtxtsk ≡ some u = unfold get_lock in ground arith in
      if_cases (λ (x : Kernel). (x.mtxcb i).mtxtsk ≡ some u)
        (kind_of k i == ta_ceiling && ltb p (k'.tcb u).priority) (change k' u p) k'
        (λ e. ap (λ c. (c i).mtxtsk) ((law.locks k' u p).mtxcb) ∙ given) (λ e. given)

  unl_mtx_by-hands_over :
      (k : Kernel) (t i u : ℕ) (us : List ℕ)
      → ((k.mtxcb i).mtxid == 0) ≡ false
      → (k.mtxcb i).mtxtsk ≡ some t
      → is_ready (k.tcb t).state ≡ true
      → contains t (que_of k (mtx i)) ≡ false
      → que_of k (mtx i) ≡ u ∷ us
      → ((unl_mtx_by change k t i).1 ≡ ok) × (((unl_mtx_by change k t i).0.mtxcb i).mtxtsk ≡ some u)
  unfolding unl_mtx_by hand_over
  unl_mtx_by-hands_over k t i u us z h r c e =
      let k1 = release_mutex change k t (some i) in
      let own : same_task (k.mtxcb i).mtxtsk t ≡ true = ground (arith, h) in
      let q : que_of k1 (mtx i) ≡ u ∷ us = release_mutex-que k t i r c ∙ e in
      let to : hand_to change k1 i (que_of k1 (mtx i)) ≡ hand_to change k1 i (u ∷ us) =
        ap (hand_to change k1 i) q in
      rw (z, own) (refl, ap (λ x. (x.mtxcb i).mtxtsk) to ∙ hand_to-mtxtsk k1 i u us)

  -- `tk_unl_mtx` by the holder of a mutex, who is READY and in no queue for it, returns E_OK, and
  -- the first task of the mutex's queue becomes its holder, with any change of priorities that
  -- gives no mutex away and only moves a READY task in the ready queue.
  pub unl_mtx-hands_over :
      (k : Kernel) (t i u : ℕ) (us : List ℕ)
      → in_range i max_mtxid ≡ true
      → in_indp k ≡ false
      → k.ctxtsk ≡ some t
      → ((k.mtxcb i).mtxid == 0) ≡ false
      → (k.mtxcb i).mtxtsk ≡ some t
      → is_ready (k.tcb t).state ≡ true
      → contains t (que_of k (mtx i)) ≡ false
      → que_of k (mtx i) ≡ u ∷ us
      → ((unl_mtx change k i).1 ≡ ok) × (((unl_mtx change k i).0.mtxcb i).mtxtsk ≡ some u)
  unl_mtx-hands_over k t i u us g n s z h r c e =
      let by : unl_mtx change k i ≡ unl_mtx_by change k t i = unfold unl_mtx in ground arith in
      subst (λ out. (out.1 ≡ ok) × ((out.0.mtxcb i).mtxtsk ≡ some u)) (sym by)
        (unl_mtx_by-hands_over k t i u us z h r c e)
