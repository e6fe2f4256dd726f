-- ===== src/Mutex/Calls.antt =====
-- The calls of kernel/tkernel/mutex.c that lock and unlock a mutex.
use esp32c3_mtk.Prelude.{
  ℕ, ◌≡◌, ◌≢◌, refl, sym, ◌∙◌, ap, subst, Bool, true, ◌&&◌, List, [], ◌∷◌, Option, none, some, ltb,
  ◌==◌, if◌then◌else◌, without, arith, Bool-cases, Option-cases, if_cases, inl, inr, ◌⊎◌,
}
use esp32c3_mtk.Types.{
  ℤ, Er, ok, e_tmout, e_id, e_par, e_ctx, e_noexs, e_iluse, mtx, same_task, que_insert,
}
use esp32c3_mtk.Kernel.{Kernel, que_of, set_tcb, set_queues, Reply, ret, pend, is_pol}
use esp32c3_mtk.Wait.{wait_release_ok, make_wait, queue_insert_tpri, priority_of}
use esp32c3_mtk.Wait.Block.{mtxcb-make_wait, mtxlist-make_wait}
use esp32c3_mtk.Mutex.{
  ta_inherit, ta_ceiling, kind_of, set_mtxlist, get_lock, release_mutex, newpri_from, hand_over,
  hand_to, lock_free, lock_wait, lock_by, loc_mtx_by, loc_mtx, unl_mtx_by, unl_mtx, wspec_of,
}
use esp32c3_mtk.Mutex.Owner.{
  wait_release_ok-SameLocks, SameLocks, SameLocks-refl, SameLocks-trans, IsChange, IsOwned,
  IsOwnedBut, same-IsOwned, same-IsOwnedBut, free-IsOwnedBut, get_lock-IsOwned, nobody-IsOwned,
  dropped-IsOwnedBut,
}

same_task→some : (o : Option ℕ) (t : ℕ) → same_task o t ≡ true → o ≡ some t
same_task→some none t h = absurd (ground arith)
same_task→some (some u) t h = ap some (ground arith)

module _ (change : Kernel → ℕ → ℕ → Kernel) (law : IsChange change) where
  changed-IsOwned :
      (b : Bool) (k : Kernel) (t p : ℕ) → IsOwned k → IsOwned (if b then change k t p else k)
  changed-IsOwned b k t p v =
      if_cases IsOwned b (change k t p) k (λ e. same-IsOwned k (change k t p) (law.locks k t p) v)
        (λ e. v)

  -- `knl_release_mutex` of a mutex by its holder.
  release_mutex-IsOwnedBut :
      (k : Kernel) (t i : ℕ)
      → IsOwned k
      → (k.mtxcb i).mtxtsk ≡ some t
      → IsOwnedBut (release_mutex change k t (some i)) i
  unfolding release_mutex
  release_mutex-IsOwnedBut k t i v e =
      let k' = set_mtxlist k t (without i (k.tcb t).mtxlist) in
      let q = newpri_from k (k.tcb t).bpriority (k.tcb t).bpriority (without i (k.tcb t).mtxlist) in
      let dropped = dropped-IsOwnedBut k i t v e in
      if_cases (λ x. IsOwnedBut x i) (q == (k.tcb t).priority) k' (change k' t q) (λ b. dropped)
        (λ b. same-IsOwnedBut k' (change k' t q) i (law.locks k' t q) dropped)

  hand_over-IsOwned : (k : Kernel) (i : ℕ) → IsOwnedBut k i → IsOwned (hand_over change k i)
  unfolding hand_over
  hand_over-IsOwned k i v = by (que_of k (mtx i))
    where
      by : (q : List ℕ) → IsOwned (hand_to change k i q)
      by [] = nobody-IsOwned k i v
      by (u ∷ us) =
          let k1 = wait_release_ok k u in
          let k2 = get_lock k1 i u in
          changed-IsOwned
            (kind_of k i == ta_ceiling && ltb (k2.mtxcb i).ceilpri (k2.tcb u).priority) k2 u
            (k2.mtxcb i).ceilpri
            (get_lock-IsOwned k1 i u (same-IsOwnedBut k k1 i (wait_release_ok-SameLocks k u) v))

  unl_mtx_by-IsOwned : (k : Kernel) (t i : ℕ) → IsOwned k → IsOwned (unl_mtx_by change k t i).0
  unfolding unl_mtx_by
  unl_mtx_by-IsOwned k t i v = elim (Bool-cases ((k.mtxcb i).mtxid == 0)) [
    | inl z ↦ rw z v
    | inr z ↦ elim (Bool-cases (same_task (k.mtxcb i).mtxtsk t)) [
      | inr n ↦ rw (z, n) v
      | inl h ↦
          let e : (k.mtxcb i).mtxtsk ≡ some t = same_task→some (k.mtxcb i).mtxtsk t h in
          rw (z, h)
            (hand_over-IsOwned (release_mutex change k t (some i)) i
              (release_mutex-IsOwnedBut k t i v e))
    ]
  ]

  unl_mtx_outcome :
      (k : Kernel) (i : ℕ)
      → ((unl_mtx change k i).0 ≡ k)
        ⊎ ((t : ℕ) × ((unl_mtx change k i).0 ≡ (unl_mtx_by change k t i).0))
  unfolding unl_mtx
  unl_mtx_outcome k i = elim (Option-cases k.ctxtsk) [
    | inl e ↦ inl (ground arith)
    | inr (t, e) ↦
        let paths : ((unl_mtx change k i).0 ≡ k)
            ⊎ ((unl_mtx change k i).0 ≡ (unl_mtx_by change k t i).0) =
          ground arith in
        elim paths [ inl same ↦ inl same | inr by ↦ inr (t, by) ]
  ]

  -- `tk_unl_mtx` keeps holders and chains in step on every path, with any change of priorities
  -- that gives no mutex away and only moves a READY task in the ready queue: a task has a mutex in
  -- its chain exactly when it is the mutex's holder, and has it there once.
  pub unl_mtx-IsOwned : (k : Kernel) (i : ℕ) → IsOwned k → IsOwned (unl_mtx change k i).0
  unl_mtx-IsOwned k i v = elim (unl_mtx_outcome k i) [
    | inl e ↦ subst IsOwned (sym e) v
    | inr (t, e) ↦ subst IsOwned (sym e) (unl_mtx_by-IsOwned k t i v)
  ]

  lock_free-IsOwned :
      (k : Kernel) (t i : ℕ)
      → IsOwned k
      → (k.mtxcb i).mtxtsk ≡ none
      → IsOwned (lock_free change k t i)
  unfolding lock_free
  lock_free-IsOwned k t i v e =
      changed-IsOwned (kind_of k i == ta_ceiling && ltb (k.mtxcb i).ceilpri (priority_of k t))
        (get_lock k i t) t (k.mtxcb i).ceilpri (get_lock-IsOwned k i t (free-IsOwnedBut k i v e))

  -- The task that waits may first change the priority of the holder.
  abbrev raised : Kernel → ℕ → ℕ → ℕ → Kernel
  raised k t h i =
      if kind_of k i == ta_inherit && ltb (priority_of k t) (priority_of k h)
      then change k h (priority_of k t)
      else k

  abbrev marked : Kernel → ℕ → ℕ → ℕ → Kernel
  marked k t h i = set_tcb (raised k t h i) t (record ((raised k t h i).tcb t) {
    wspec = wspec_of change (kind_of k i);
    wercd = e_tmout;
    wid = i;
  })

  raised-SameLocks : (k : Kernel) (t h i : ℕ) → SameLocks k (raised k t h i)
  raised-SameLocks k t h i =
      if_cases (SameLocks k) (kind_of k i == ta_inherit && ltb (priority_of k t) (priority_of k h))
        (change k h (priority_of k t)) k (λ e. law.locks k h (priority_of k t))
        (λ e. SameLocks-refl k)

  marked-SameLocks : (k : Kernel) (t h i : ℕ) → SameLocks k (marked k t h i)
  marked-SameLocks k t h i =
      SameLocks-trans k (raised k t h i) (marked k t h i) (raised-SameLocks k t h i)
        (record { mtxcb = refl; mtxlist = λ u. ground arith })

  make_wait-SameLocks : (k : Kernel) (t : ℕ) (tmout : ℤ) → SameLocks k (make_wait k t tmout)
  make_wait-SameLocks k t tmout = record {
    mtxcb = mtxcb-make_wait k t tmout;
    mtxlist = mtxlist-make_wait k t tmout;
  }

  lock_wait-SameLocks :
      (k : Kernel) (t h i : ℕ) (tmout : ℤ) → SameLocks k (lock_wait change k t h i tmout)
  unfolding lock_wait
  lock_wait-SameLocks k t h i tmout =
      let k2 = marked k t h i in
      let k3 = make_wait k2 t tmout in
      let waited =
        SameLocks-trans k k2 k3 (marked-SameLocks k t h i) (make_wait-SameLocks k2 t tmout) in
      if_cases (SameLocks k) (kind_of k i == 0) (set_queues k3 (que_insert k3.rq.que t (mtx i)))
        (queue_insert_tpri k3 t (mtx i))
        (λ e. record { mtxcb = waited.mtxcb; mtxlist = waited.mtxlist })
        (λ e. unfold queue_insert_tpri in record { mtxcb = waited.mtxcb; mtxlist = waited.mtxlist })

  lock_by-IsOwned :
      (k : Kernel) (t i : ℕ) (tmout : ℤ) (o : Option ℕ)
      → IsOwned k
      → (k.mtxcb i).mtxtsk ≡ o
      → IsOwned (lock_by change k t i tmout o).0
  lock_by-IsOwned k t i tmout none v e = lock_free-IsOwned k t i v e
  lock_by-IsOwned k t i tmout (some h) v e =
      if_cases (λ (out : Kernel × Reply). IsOwned out.0) (is_pol tmout) (k, ret e_tmout)
        (lock_wait change k t h i tmout, pend) (λ p. v)
        (λ p. same-IsOwned k (lock_wait change k t h i tmout) (lock_wait-SameLocks k t h i tmout) v)

  loc_mtx_by_outcome :
      (k : Kernel) (t i : ℕ) (tmout : ℤ)
      → ((er : Er) × (er ≢ ok) × (loc_mtx_by change k t i tmout ≡ (k, ret er)))
        ⊎ (loc_mtx_by change k t i tmout ≡ lock_by change k t i tmout (k.mtxcb i).mtxtsk)
  unfolding loc_mtx_by
  loc_mtx_by_outcome k t i tmout =
      let paths : (loc_mtx_by change k t i tmout ≡ (k, ret e_noexs))
          ⊎ (loc_mtx_by change k t i tmout ≡ (k, ret e_iluse))
          ⊎ (loc_mtx_by change k t i tmout ≡ lock_by change k t i tmout (k.mtxcb i).mtxtsk) =
        ground arith in
      elim paths [
        | inl e ↦ inl (e_noexs, (λ n. ground (arith, n)), e)
        | inr (inl e) ↦ inl (e_iluse, (λ n. ground (arith, n)), e)
        | inr (inr e) ↦ inr e
      ]

  loc_mtx_outcome :
      (k : Kernel) (i : ℕ) (tmout : ℤ)
      → ((er : Er) × (er ≢ ok) × (loc_mtx change k i tmout ≡ (k, ret er)))
        ⊎ ((t : ℕ) × (loc_mtx change k i tmout ≡ lock_by change k t i tmout (k.mtxcb i).mtxtsk))
  unfolding loc_mtx
  loc_mtx_outcome k i tmout =
      let paths : (loc_mtx change k i tmout ≡ (k, ret e_id))
          ⊎ (loc_mtx change k i tmout ≡ (k, ret e_par))
          ⊎ (loc_mtx change k i tmout ≡ (k, ret e_ctx))
          ⊎ ((t : ℕ) × (loc_mtx change k i tmout ≡ loc_mtx_by change k t i tmout)) =
        elim (Option-cases k.ctxtsk) [ inl e ↦ ground arith | inr (t, e) ↦ through t e ] in
      elim paths [
        | inl e ↦ inl (e_id, (λ n. ground (arith, n)), e)
        | inr (inl e) ↦ inl (e_par, (λ n. ground (arith, n)), e)
        | inr (inr (inl e)) ↦ inl (e_ctx, (λ n. ground (arith, n)), e)
        | inr (inr (inr (t, by))) ↦ elim (loc_mtx_by_outcome k t i tmout) [
          | inl (er, n, same) ↦ inl (er, n, by ∙ same)
          | inr on ↦ inr (t, by ∙ on)
        ]
      ]
    where
      through :
          (t : ℕ)
          → k.ctxtsk ≡ some t
          → (loc_mtx change k i tmout ≡ (k, ret e_id))
            ⊎ (loc_mtx change k i tmout ≡ (k, ret e_par))
            ⊎ (loc_mtx change k i tmout ≡ (k, ret e_ctx))
            ⊎ ((t : ℕ) × (loc_mtx change k i tmout ≡ loc_mtx_by change k t i tmout))
      through t e =
          let paths : (loc_mtx change k i tmout ≡ (k, ret e_id))
              ⊎ (loc_mtx change k i tmout ≡ (k, ret e_par))
              ⊎ (loc_mtx change k i tmout ≡ (k, ret e_ctx))
              ⊎ (loc_mtx change k i tmout ≡ loc_mtx_by change k t i tmout) =
            ground arith in
          elim paths [
            | inl a ↦ inl a
            | inr (inl a) ↦ inr (inl a)
            | inr (inr (inl a)) ↦ inr (inr (inl a))
            | inr (inr (inr a)) ↦ inr (inr (inr (t, a)))
          ]

  -- `tk_loc_mtx` keeps holders and chains in step on every path, with any change of priorities
  -- that gives no mutex away and only moves a READY task in the ready queue.
  pub loc_mtx-IsOwned :
      (k : Kernel) (i : ℕ) (tmout : ℤ) → IsOwned k → IsOwned (loc_mtx change k i tmout).0
  loc_mtx-IsOwned k i tmout v = elim (loc_mtx_outcome k i tmout) [
    | inl (er, n, e) ↦ subst (λ out. IsOwned out.0) (sym e) v
    | inr (t, e) ↦
        subst (λ out. IsOwned out.0) (sym e) (lock_by-IsOwned k t i tmout (k.mtxcb i).mtxtsk v refl)
  ]

  lock_by-keeps :
      (k : Kernel) (t h i : ℕ) (tmout : ℤ)
      → ((lock_by change k t i tmout (some h)).0.mtxcb ≡ k.mtxcb)
        × ((lock_by change k t i tmout (some h)).1 ≢ ret ok)
  lock_by-keeps k t h i tmout =
      if_cases (λ (out : Kernel × Reply). (out.0.mtxcb ≡ k.mtxcb) × (out.1 ≢ ret ok)) (is_pol tmout)
        (k, ret e_tmout) (lock_wait change k t h i tmout, pend)
        (λ p. (refl, λ e. ground (arith, e)))
        (λ p. ((lock_wait-SameLocks k t h i tmout).mtxcb, λ e. ground (arith, e)))

  -- `tk_loc_mtx` of a mutex that a task holds does not return E_OK in its critical section, be it
  -- an error or a wait, and changes no mutex, with any change of priorities that gives no mutex
  -- away and only moves a READY task in the ready queue.
  pub loc_mtx-excludes :
      (k : Kernel) (i h : ℕ) (tmout : ℤ)
      → (k.mtxcb i).mtxtsk ≡ some h
      → ((loc_mtx change k i tmout).0.mtxcb ≡ k.mtxcb) × ((loc_mtx change k i tmout).1 ≢ ret ok)
  loc_mtx-excludes k i h tmout e = elim (loc_mtx_outcome k i tmout) [
    | inl (er, n, by) ↦
        subst (λ out. (out.0.mtxcb ≡ k.mtxcb) × (out.1 ≢ ret ok)) (sym by)
          (refl, λ same. ground (arith, same, n))
    | inr (t, by) ↦
        subst (λ out. (out.0.mtxcb ≡ k.mtxcb) × (out.1 ≢ ret ok))
          (sym (by ∙ ap (lock_by change k t i tmout) e)) (lock_by-keeps k t h i tmout)
  ]
