-- ===== src/Hooks/Release.antt =====
-- A task's wait for a semaphore that ends without its count, or changes its place (kernel/tkernel/wait.c, task.c), by a
-- timeout, by `tk_rel_wai` or with a new priority.
use esp32c3_mtk.Prelude.{
  ℕ, ◌≡◌, refl, sym, ◌∙◌, subst, fun_ext, ◌<◌, All, Bool, true, false, ◌⊎◌, inl, inr, without,
  contains, arith,
}
use esp32c3_mtk.Types.{
  Er, WSpec, no_wspec, wspec_slp, wspec_dly, wspec_flg_tfifo, wspec_flg_tpri, wspec_mbx_tfifo,
  wspec_mbx_tpri, wspec_sem_tfifo, wspec_sem_tpri, wspec_smbf_tfifo, wspec_smbf_tpri, wspec_rmbf,
  wspec_mpf_tfifo, wspec_mpf_tpri, wspec_mtx_tfifo, wspec_mtx_tpri, wspec_mtx_inherit, sem,
  que_remove, in_wait,
}
use esp32c3_mtk.Kernel.{Kernel, que_of, set_tcb, set_queues}
use esp32c3_mtk.Wait.{wait_release, make_non_wait, set_wercd, priority_of}
use esp32c3_mtk.Wait.Frame.{same-rdy}
use esp32c3_mtk.Semaphore.{ta_cnt, sem_rel_wai, sem_chg_pri, request_of}
use esp32c3_mtk.Bits.{any_bit}
use esp32c3_mtk.Semaphore.Serve.{Starved}
use esp32c3_mtk.Semaphore.Signal.{IsSem}
use esp32c3_mtk.Semaphore.Release.{left-IsStirred, sem_rel_wai-IsSem, sem_chg_pri-IsSem}
use esp32c3_mtk.Hooks.{wait_release_ng, wait_release_tmout, change_task_priority}

-- The wait specifications of semaphores.
abbrev pub is_sem : WSpec → Bool
is_sem wspec_sem_tfifo = true
is_sem wspec_sem_tpri = true
is_sem _ = false

is_sem-cases : (w : WSpec) → is_sem w ≡ true → (w ≡ wspec_sem_tfifo) ⊎ (w ≡ wspec_sem_tpri)
is_sem-cases wspec_sem_tfifo h = inl refl
is_sem-cases wspec_sem_tpri h = inr refl
is_sem-cases no_wspec h = absurd (ground arith)
is_sem-cases wspec_slp h = absurd (ground arith)
is_sem-cases wspec_dly h = absurd (ground arith)
is_sem-cases wspec_flg_tfifo h = absurd (ground arith)
is_sem-cases wspec_flg_tpri h = absurd (ground arith)
is_sem-cases wspec_mbx_tfifo h = absurd (ground arith)
is_sem-cases wspec_mbx_tpri h = absurd (ground arith)
is_sem-cases wspec_smbf_tfifo h = absurd (ground arith)
is_sem-cases wspec_smbf_tpri h = absurd (ground arith)
is_sem-cases wspec_rmbf h = absurd (ground arith)
is_sem-cases wspec_mpf_tfifo h = absurd (ground arith)
is_sem-cases wspec_mpf_tpri h = absurd (ground arith)
is_sem-cases wspec_mtx_tfifo h = absurd (ground arith)
is_sem-cases wspec_mtx_tpri h = absurd (ground arith)
is_sem-cases wspec_mtx_inherit h = absurd (ground arith)

-- A change that a semaphore does not see.
same_requests-IsSem :
    (k k' : Kernel) (i : ℕ)
    → IsSem k i
    → k'.semcb ≡ k.semcb
    → que_of k' (sem i) ≡ que_of k (sem i)
    → ((u : ℕ) → request_of k' u ≡ request_of k u)
    → IsSem k' i
same_requests-IsSem k k' i v c q r =
    let req : request_of k' ≡ request_of k = fun_ext r in
    record {
      bounded = rw c v.bounded;
      distinct = rw q v.distinct;
      asks = subst (λ f. All (λ u. 0 < f u) (que_of k' (sem i))) (sym req) (rw q v.asks);
      starved =
          subst
            (λ f.
              Starved (any_bit (k'.semcb i).sematr ta_cnt) f (k'.semcb i).semcnt
                (que_of k' (sem i)))
            (sym req) (rw (c, q) v.starved);
    }

set_wercd-IsSem : (k : Kernel) (t i : ℕ) (er : Er) → IsSem k i → IsSem (set_wercd k t er) i
unfolding set_wercd
set_wercd-IsSem k t i er v = same_requests-IsSem k _ i v refl refl (λ u. ground arith)

module _ (k : Kernel) (t i : ℕ) (v : IsSem k i) (w : (k.tcb t).wid ≡ i)
    (s : is_sem (k.tcb t).wspec ≡ true) where
  -- The task is taken out of the queue and made READY or SUSPENDED.
  abbrev gone : Kernel
  gone = make_non_wait (set_queues k (que_remove k.rq.que t)) t

  que-gone : que_of gone (sem i) ≡ without t (que_of k (sem i))
  unfolding make_non_wait
  que-gone = ground (arith, same-rdy (priority_of k t) (sem i))

  semcb-gone : gone.semcb ≡ k.semcb
  unfolding make_non_wait
  semcb-gone = ground arith

  request_of-gone : (u : ℕ) → request_of gone u ≡ request_of k u
  unfolding make_non_wait
  request_of-gone u = ground arith

  wid-gone : (gone.tcb t).wid ≡ i
  unfolding make_non_wait
  wid-gone = ground arith

  wspec-gone : (gone.tcb t).wspec ≡ (k.tcb t).wspec
  unfolding make_non_wait
  wspec-gone = ground arith

  wait_release_tmout_served : wait_release_tmout k t ≡ sem_rel_wai gone t
  unfolding wait_release_tmout
  wait_release_tmout_served = elim (is_sem-cases (k.tcb t).wspec s) [
    | inl e ↦ rw (wspec-gone ∙ e) refl
    | inr e ↦ rw (wspec-gone ∙ e) refl
  ]

  -- A timeout of a task that waits for a semaphore (`knl_wait_release_tmout`) keeps the semaphore
  -- well formed: the tasks behind it that can be served now are served, and nobody waits who could
  -- be served.
  pub wait_release_tmout-IsSem : IsSem (wait_release_tmout k t) i
  wait_release_tmout-IsSem =
      subst (λ k'. IsSem k' i) (sym wait_release_tmout_served)
        (sem_rel_wai-IsSem gone t i wid-gone
          (left-IsStirred k gone t i v semcb-gone request_of-gone que-gone))

  -- The same by `knl_wait_release`, which also takes the timer event away.
  abbrev released : Kernel
  released = wait_release k t

  que-released : que_of released (sem i) ≡ without t (que_of k (sem i))
  unfolding wait_release
  que-released = ground (arith, same-rdy (priority_of k t) (sem i))

  semcb-released : released.semcb ≡ k.semcb
  unfolding wait_release
  semcb-released = ground arith

  request_of-released : (u : ℕ) → request_of released u ≡ request_of k u
  unfolding wait_release
  request_of-released u = ground arith

  wid-released : (released.tcb t).wid ≡ i
  unfolding wait_release
  wid-released = ground arith

  wspec-released : (released.tcb t).wspec ≡ (k.tcb t).wspec
  unfolding wait_release
  wspec-released = ground arith

  wait_release_ng_served :
      (er : Er) → wait_release_ng k t er ≡ set_wercd (sem_rel_wai released t) t er
  unfolding wait_release_ng
  wait_release_ng_served er = elim (is_sem-cases (k.tcb t).wspec s) [
    | inl e ↦ rw (wspec-released ∙ e) refl
    | inr e ↦ rw (wspec-released ∙ e) refl
  ]

  -- `knl_wait_release_ng`, which `tk_rel_wai` calls, keeps the semaphore that the task waits for
  -- well formed, whatever the error code.
  pub wait_release_ng-IsSem : (er : Er) → IsSem (wait_release_ng k t er) i
  wait_release_ng-IsSem er =
      subst (λ k'. IsSem k' i) (sym (wait_release_ng_served er))
        (set_wercd-IsSem (sem_rel_wai released t) t i er (
          sem_rel_wai-IsSem released t i wid-released
            (left-IsStirred k released t i v semcb-released request_of-released que-released)))

-- `knl_change_task_priority` of a task that waits for a semaphore.
module _ (k : Kernel) (t i p : ℕ) where
  abbrev changed : Kernel
  changed = set_tcb k t (record (k.tcb t) { priority = p })

  changed-IsSem : IsSem k i → IsSem changed i
  changed-IsSem v = same_requests-IsSem k changed i v refl refl (λ u. ground arith)

  change_task_priority_tpri :
      (k.tcb t).wspec ≡ wspec_sem_tpri
      → in_wait (k.tcb t).state ≡ true
      → change_task_priority k t p ≡ sem_chg_pri changed t
  unfolding change_task_priority
  change_task_priority_tpri e w = ground arith

  change_task_priority_tfifo :
      (k.tcb t).wspec ≡ wspec_sem_tfifo
      → in_wait (k.tcb t).state ≡ true
      → change_task_priority k t p ≡ changed
  unfolding change_task_priority
  change_task_priority_tfifo e w = ground arith

  -- `knl_change_task_priority` of a task in the queue of a semaphore, which waits for it by its
  -- specification, keeps that semaphore well formed, whatever the new priority.
  pub change_task_priority-IsSem :
      IsSem k i
      → (k.tcb t).wid ≡ i
      → is_sem (k.tcb t).wspec ≡ true
      → in_wait (k.tcb t).state ≡ true
      → contains t (que_of k (sem i)) ≡ true
      → IsSem (change_task_priority k t p) i
  change_task_priority-IsSem v w s q c = elim (is_sem-cases (k.tcb t).wspec s) [
    | inl e ↦ subst (λ k'. IsSem k' i) (sym (change_task_priority_tfifo e q)) (changed-IsSem v)
    | inr e ↦
        subst (λ k'. IsSem k' i) (sym (change_task_priority_tpri e q))
          (sem_chg_pri-IsSem changed t i (ground arith) c (changed-IsSem v))
  ]
