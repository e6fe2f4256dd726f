-- ===== src/Hooks/Frame.antt =====
-- What the hooks of waits and `knl_change_task_priority` (kernel/tkernel/task.c) leave alone: a relation
-- between states that holds for the few steps they are made of holds for them.
use esp32c3_mtk.Prelude.{
  ℕ, zero, suc, not, List, [], ◌∷◌, Option, none, some, ltb, ◌==◌, if◌then◌else◌, if_cases, length,
}
use esp32c3_mtk.Types.{
  Head, sem, flg, mbx, smbf, mpf, mtx, WSpec, no_wspec, wspec_slp, wspec_dly, wspec_sem_tfifo,
  wspec_sem_tpri, wspec_flg_tfifo, wspec_flg_tpri, wspec_mbx_tfifo, wspec_mbx_tpri,
  wspec_smbf_tfifo, wspec_smbf_tpri, wspec_rmbf, wspec_mpf_tfifo, wspec_mpf_tpri, wspec_mtx_tfifo,
  wspec_mtx_tpri, wspec_mtx_inherit, in_wait, is_ready,
}
use esp32c3_mtk.Bits.{any_bit}
use esp32c3_mtk.Kernel.{Kernel, set_tcb, que_of}
use esp32c3_mtk.Task.{change_ready_priority}
use esp32c3_mtk.Wait.{gcb_change_priority, priority_of}
use esp32c3_mtk.Semaphore.{grant, serve_first, sem_rel_wai, sem_chg_pri, request_of, ta_cnt}
use esp32c3_mtk.EventFlag.{flg_chg_pri}
use esp32c3_mtk.Mailbox.{mbx_chg_pri}
use esp32c3_mtk.FixedPool.{mpf_chg_pri}
use esp32c3_mtk.MessageRing.{mbf_free}
use esp32c3_mtk.MessageBuffer.{
  message_of, store_from, wakeup_first, wakeup_from, mbf_wakeup, mbf_rel_wai, mbf_chg_pri,
}
use esp32c3_mtk.Mutex.{
  ta_inherit, kind_of, set_mtxlist, newpri_from, release_mutex, holder_follows, mtx_chg_pri,
  mtx_rel_wai,
}
use esp32c3_mtk.Hooks.{chg_pri_hook, change_once, change_by}

-- A relation that the steps of the hooks keep.
pub record IsFrame (R : Kernel → Kernel → Type 0) : Type 0 where
  pub same : (k : Kernel) → R k k
  pub next : (k k' k'' : Kernel) → R k k' → R k' k'' → R k k''
  pub gcb : (k : Kernel) (h : Head) (t : ℕ) → R k (gcb_change_priority k h t)
  pub ready : (k : Kernel) (t p : ℕ) → R k (change_ready_priority k t p)
  pub grants : (k : Kernel) (i t : ℕ) → R k (grant k i t)
  pub stores : (k : Kernel) (i t : ℕ) → R k (store_from k i t)
  pub relists : (k : Kernel) (h : ℕ) → R k (set_mtxlist k h (k.tcb h).mtxlist)
  pub rates : (k : Kernel) (t p : ℕ) → R k (set_tcb k t (record (k.tcb t) { priority = p }))

module _ (R : Kernel → Kernel → Type 0) (f : IsFrame R) where
  serve_first_framed : (k : Kernel) (i : ℕ) (ts : List ℕ) → R k (serve_first k i ts)
  unfolding serve_first
  serve_first_framed k i [] = f.same k
  serve_first_framed k i (t ∷ ts) =
      if_cases (R k) (ltb (k.semcb i).semcnt (request_of k t)) k (serve_first (grant k i t) i ts)
        (λ e. f.same k)
        (λ e.
          f.next k (grant k i t) (serve_first (grant k i t) i ts) (f.grants k i t)
            (serve_first_framed (grant k i t) i ts))

  pub sem_rel_wai_framed : (k : Kernel) (t : ℕ) → R k (sem_rel_wai k t)
  unfolding sem_rel_wai
  sem_rel_wai_framed k t =
      let i = (k.tcb t).wid in
      if_cases (R k) (any_bit (k.semcb i).sematr ta_cnt) k (serve_first k i (que_of k (sem i)))
        (λ e. f.same k) (λ e. serve_first_framed k i (que_of k (sem i)))

  wakeup_first_framed :
      (again : Kernel → Kernel) (k : Kernel) (i : ℕ) (q : List ℕ)
      → ((k' : Kernel) → R k' (again k'))
      → R k (wakeup_first again k i q)
  wakeup_first_framed again k i [] s = f.same k
  wakeup_first_framed again k i (t ∷ ts) s =
      let k1 = store_from k i t in
      if_cases (R k) (not (mbf_free (k.mbfcb i) (message_of k t).size)) k (again k1) (λ e. f.same k)
        (λ e. f.next k k1 (again k1) (f.stores k i t) (s k1))

  wakeup_from_framed : (fuel : ℕ) (k : Kernel) (i : ℕ) → R k (wakeup_from fuel k i)
  unfolding wakeup_from
  wakeup_from_framed zero k i = f.same k
  wakeup_from_framed (suc fuel) k i =
      wakeup_first_framed (λ k'. wakeup_from fuel k' i) k i (que_of k (smbf i))
        (λ k'. wakeup_from_framed fuel k' i)

  pub mbf_rel_wai_framed : (k : Kernel) (t : ℕ) → R k (mbf_rel_wai k t)
  unfolding mbf_rel_wai mbf_wakeup
  mbf_rel_wai_framed k t =
      wakeup_from_framed (length (que_of k (smbf (k.tcb t).wid))) k (k.tcb t).wid

  -- A hook that reorders a queue and then does the rest.
  reordered_framed : (k k' : Kernel) (h : Head) (t : ℕ) → R (gcb_change_priority k h t) k' → R k k'
  reordered_framed k k' h t s = f.next k (gcb_change_priority k h t) k' (f.gcb k h t) s

  module _ (change : Kernel → ℕ → ℕ → Kernel)
      (law : (k : Kernel) (t p : ℕ) → R k (change k t p)) where
    reset_framed : (k : Kernel) (h : ℕ) → R k (release_mutex change k h none)
    unfolding release_mutex
    reset_framed k h =
        let k1 = set_mtxlist k h (k.tcb h).mtxlist in
        let q = newpri_from k (k.tcb h).bpriority (k.tcb h).bpriority (k.tcb h).mtxlist in
        let same = f.relists k h in
        if_cases (R k) (q == (k.tcb h).priority) k1 (change k1 h q) (λ e. same)
          (λ e. f.next k k1 (change k1 h q) same (law k1 h q))

    holder_follows_framed :
        (k : Kernel) (t old : ℕ) (o : Option ℕ) → R k (holder_follows change k t old o)
    holder_follows_framed k t old none = f.same k
    holder_follows_framed k t old (some h) =
        let p = priority_of k t in
        let reset = release_mutex change k h none in
        if_cases (R k) (ltb p (priority_of k h)) (change k h p)
          (if priority_of k h == old then reset else k) (λ e. law k h p)
          (λ e.
            if_cases (R k) (priority_of k h == old) reset k (λ d. reset_framed k h) (λ d. f.same k))

    mtx_chg_pri_framed : (k : Kernel) (t old : ℕ) → R k (mtx_chg_pri change k t old)
    unfolding mtx_chg_pri
    mtx_chg_pri_framed k t old =
        let i = (k.tcb t).wid in
        let k1 = gcb_change_priority k (mtx i) t in
        let moved = f.gcb k (mtx i) t in
        let follows = holder_follows change k1 t old (k1.mtxcb i).mtxtsk in
        if_cases (R k) (kind_of k i == ta_inherit) follows k1
          (λ e. f.next k k1 follows moved (holder_follows_framed k1 t old (k1.mtxcb i).mtxtsk))
          (λ e. moved)

    hook_framed : (k : Kernel) (t old : ℕ) (w : WSpec) → R k (chg_pri_hook change k t old w)
    hook_framed k t old no_wspec = f.same k
    hook_framed k t old wspec_slp = f.same k
    hook_framed k t old wspec_dly = f.same k
    hook_framed k t old wspec_sem_tfifo = f.same k
    hook_framed k t old wspec_sem_tpri =
        unfold sem_chg_pri in reordered_framed k _ (sem (k.tcb t).wid) t (sem_rel_wai_framed _ t)
    hook_framed k t old wspec_flg_tfifo = f.same k
    hook_framed k t old wspec_flg_tpri = unfold flg_chg_pri in f.gcb k (flg (k.tcb t).wid) t
    hook_framed k t old wspec_mbx_tfifo = f.same k
    hook_framed k t old wspec_mbx_tpri = unfold mbx_chg_pri in f.gcb k (mbx (k.tcb t).wid) t
    hook_framed k t old wspec_smbf_tfifo = f.same k
    hook_framed k t old wspec_smbf_tpri =
        unfold mbf_chg_pri in reordered_framed k _ (smbf (k.tcb t).wid) t (mbf_rel_wai_framed _ t)
    hook_framed k t old wspec_rmbf = f.same k
    hook_framed k t old wspec_mpf_tfifo = f.same k
    hook_framed k t old wspec_mpf_tpri = unfold mpf_chg_pri in f.gcb k (mpf (k.tcb t).wid) t
    hook_framed k t old wspec_mtx_tfifo = f.same k
    hook_framed k t old wspec_mtx_tpri = mtx_chg_pri_framed k t old
    hook_framed k t old wspec_mtx_inherit = mtx_chg_pri_framed k t old

    change_once_framed : (k : Kernel) (t p : ℕ) → R k (change_once change k t p)
    unfolding change_once
    change_once_framed k t p =
        let k1 = set_tcb k t (record (k.tcb t) { priority = p }) in
        let same = f.rates k t p in
        let hooked = chg_pri_hook change k1 t (k.tcb t).priority (k.tcb t).wspec in
        if_cases (R k) (is_ready (k.tcb t).state) (change_ready_priority k t p)
          (if in_wait (k.tcb t).state then hooked else k1) (λ e. f.ready k t p)
          (λ e.
            if_cases (R k) (in_wait (k.tcb t).state) hooked k1
              (λ d. f.next k k1 hooked same (hook_framed k1 t (k.tcb t).priority (k.tcb t).wspec))
              (λ d. same))

  pub change_by_framed : (fuel : ℕ) (k : Kernel) (t p : ℕ) → R k (change_by fuel k t p)
  unfolding change_by
  change_by_framed zero k t p = f.same k
  change_by_framed (suc fuel) k t p =
      change_once_framed (λ k' t' p'. change_by fuel k' t' p') (change_by_framed fuel) k t p

  -- `mtx_rel_wai`
  pub mtx_rel_wai_framed :
      (change : Kernel → ℕ → ℕ → Kernel) (law : (k : Kernel) (t p : ℕ) → R k (change k t p))
      (k : Kernel) (t : ℕ)
      → R k (mtx_rel_wai change k t)
  unfolding mtx_rel_wai
  mtx_rel_wai_framed change law k t =
      elim (k.mtxcb (k.tcb t).wid).mtxtsk
        as (λ o. R k (elim o [
          | none ↦ k
          | some h ↦ if priority_of k h == priority_of k t then release_mutex change k h none else k
        ])) [
          | none ↦ f.same k
          | some h ↦
              if_cases (R k) (priority_of k h == priority_of k t) (release_mutex change k h none) k
                (λ e. reset_framed change law k h) (λ e. f.same k)
        ]
