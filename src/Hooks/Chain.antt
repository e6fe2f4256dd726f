-- ===== src/Hooks/Chain.antt =====
-- The calls of `knl_change_task_priority` (kernel/tkernel/task.c) inside one another, by way of
-- `mtx_chg_pri` (kernel/tkernel/mutex.c): they go along a chain of holders of mutexes.
use esp32c3_mtk.Prelude.{
  ℕ, zero, suc, ◌<◌, ◌≡◌, refl, sym, ◌∙◌, ap, Bool, true, false, ◌&&◌, Option, none, some, ◌==◌,
  if◌then◌else◌, arith, Bool-cases, Option-cases, inl, inr,
}
use esp32c3_mtk.Types.{
  WSpec, no_wspec, wspec_slp, wspec_dly, wspec_sem_tfifo, wspec_sem_tpri, wspec_flg_tfifo,
  wspec_flg_tpri, wspec_mbx_tfifo, wspec_mbx_tpri, wspec_smbf_tfifo, wspec_smbf_tpri, wspec_rmbf,
  wspec_mpf_tfifo, wspec_mpf_tpri, wspec_mtx_tfifo, wspec_mtx_tpri, wspec_mtx_inherit, in_wait,
  is_ready, mtx,
}
use esp32c3_mtk.Kernel.{Kernel, set_tcb, max_tskid}
use esp32c3_mtk.Wait.{priority_of, gcb_change_priority}
use esp32c3_mtk.Mutex.{
  ta_inherit, kind_of, release_mutex, mtx_chg_pri, holder_follows, newpri_from, set_mtxlist,
}
use esp32c3_mtk.Hooks.{chg_pri_hook, change_once, change_by, change_task_priority}

-- The wait specifications whose hook is `mtx_chg_pri`.
abbrev pub follows : WSpec → Bool
follows wspec_mtx_tpri = true
follows wspec_mtx_inherit = true
follows _ = false

-- The holder whose priority may follow that of a task.
unfoldable pub next_holder : Kernel → ℕ → Option ℕ
next_holder k t =
    if in_wait (k.tcb t).state && follows (k.tcb t).wspec && kind_of k (k.tcb t).wid == ta_inherit
    then (k.mtxcb (k.tcb t).wid).mtxtsk
    else none

-- The chain of holders from a task on ends after at most `n` of them.
unfoldable pub Ends : Kernel → ℕ → ℕ → Type 0
unfolding next_holder
Ends k zero t = next_holder k t ≡ none
Ends k (suc n) t = (h : ℕ) → next_holder k t ≡ some h → Ends k n h

Ends-same :
    (k k' : Kernel) (n t : ℕ)
    → ((u : ℕ) → next_holder k' u ≡ next_holder k u)
    → Ends k n t
    → Ends k' n t
unfolding Ends
Ends-same k k' zero t e c = e t ∙ c
Ends-same k k' (suc n) t e c = λ h s. Ends-same k k' n h e (c h (sym (e t) ∙ s))

-- What the two calls inside do the same, the call does the same.
module _ (change change' : Kernel → ℕ → ℕ → Kernel) where
  abbrev Same : Kernel → ℕ → Type 0
  Same k h =
      (k' : Kernel) (q : ℕ)
      → ((u : ℕ) → next_holder k' u ≡ next_holder k u)
      → change k' h q ≡ change' k' h q

  release_mutex-Same :
      (k : Kernel) (h : ℕ)
      → Same k h
      → release_mutex change k h none ≡ release_mutex change' k h none
  unfolding release_mutex
  release_mutex-Same k h s =
      let k' = set_mtxlist k h (k.tcb h).mtxlist in
      let q = newpri_from k (k.tcb h).bpriority (k.tcb h).bpriority (k.tcb h).mtxlist in
      let e = s k' q (λ u. unfold next_holder in ground arith) in
      ap (λ x. if q == (k.tcb h).priority then k' else x) e

  holder_follows-Same :
      (k : Kernel) (t old h : ℕ)
      → Same k h
      → holder_follows change k t old (some h) ≡ holder_follows change' k t old (some h)
  holder_follows-Same k t old h s =
      rw (s k (priority_of k t) (λ u. refl), release_mutex-Same k h s) refl

  next_holder-gcb_change_priority :
      (k : Kernel) (t i u : ℕ) → next_holder (gcb_change_priority k (mtx i) t) u ≡ next_holder k u
  unfolding next_holder gcb_change_priority
  next_holder-gcb_change_priority k t i u = ground arith

  -- The two sides of `mtx_chg_pri` for a mutex with TA_INHERIT and its holder.
  mtx_chg_pri-holder :
      (f : Kernel → ℕ → ℕ → Kernel) (k : Kernel) (t old : ℕ) (o : Option ℕ)
      → (kind_of k (k.tcb t).wid == ta_inherit) ≡ true
      → (k.mtxcb (k.tcb t).wid).mtxtsk ≡ o
      → mtx_chg_pri f k t old
        ≡ holder_follows f (gcb_change_priority k (mtx (k.tcb t).wid) t) t old o
  unfolding mtx_chg_pri
  mtx_chg_pri-holder f k t old o b e = rw b (
      ap (holder_follows f (gcb_change_priority k (mtx (k.tcb t).wid) t) t old)
        (unfold gcb_change_priority in e))

  mtx_chg_pri-other :
      (f : Kernel → ℕ → ℕ → Kernel) (k : Kernel) (t old : ℕ)
      → (kind_of k (k.tcb t).wid == ta_inherit) ≡ false
      → mtx_chg_pri f k t old ≡ gcb_change_priority k (mtx (k.tcb t).wid) t
  unfolding mtx_chg_pri
  mtx_chg_pri-other f k t old b = rw b refl

  mtx_chg_pri-Same :
      (k : Kernel) (t old : ℕ)
      → ((h : ℕ)
          → (kind_of k (k.tcb t).wid == ta_inherit) ≡ true
          → (k.mtxcb (k.tcb t).wid).mtxtsk ≡ some h
          → Same k h)
      → mtx_chg_pri change k t old ≡ mtx_chg_pri change' k t old
  mtx_chg_pri-Same k t old s =
      let k1 = gcb_change_priority k (mtx (k.tcb t).wid) t in
      elim (Bool-cases (kind_of k (k.tcb t).wid == ta_inherit)) [
        | inr b ↦ mtx_chg_pri-other change k t old b ∙ sym (mtx_chg_pri-other change' k t old b)
        | inl b ↦ elim (Option-cases (k.mtxcb (k.tcb t).wid).mtxtsk) [
          | inl e ↦
              mtx_chg_pri-holder change k t old none b e
              ∙ sym (mtx_chg_pri-holder change' k t old none b e)
          | inr (h, e) ↦
              mtx_chg_pri-holder change k t old (some h) b e
              ∙ holder_follows-Same k1 t old h (λ k' q n.
                s h b e k' q (λ u. n u ∙ next_holder-gcb_change_priority k t (k.tcb t).wid u))
              ∙ sym (mtx_chg_pri-holder change' k t old (some h) b e)
        ]
      ]

  hook-Same :
      (k : Kernel) (t old : ℕ) (w : WSpec)
      → (follows w ≡ true → mtx_chg_pri change k t old ≡ mtx_chg_pri change' k t old)
      → chg_pri_hook change k t old w ≡ chg_pri_hook change' k t old w
  hook-Same k t old no_wspec s = refl
  hook-Same k t old wspec_slp s = refl
  hook-Same k t old wspec_dly s = refl
  hook-Same k t old wspec_sem_tfifo s = refl
  hook-Same k t old wspec_sem_tpri s = refl
  hook-Same k t old wspec_flg_tfifo s = refl
  hook-Same k t old wspec_flg_tpri s = refl
  hook-Same k t old wspec_mbx_tfifo s = refl
  hook-Same k t old wspec_mbx_tpri s = refl
  hook-Same k t old wspec_smbf_tfifo s = refl
  hook-Same k t old wspec_smbf_tpri s = refl
  hook-Same k t old wspec_rmbf s = refl
  hook-Same k t old wspec_mpf_tfifo s = refl
  hook-Same k t old wspec_mpf_tpri s = refl
  hook-Same k t old wspec_mtx_tfifo s = refl
  hook-Same k t old wspec_mtx_tpri s = s refl
  hook-Same k t old wspec_mtx_inherit s = s refl

  change_once-Same :
      (k : Kernel) (t p : ℕ)
      → ((h : ℕ) → next_holder k t ≡ some h → Same k h)
      → change_once change k t p ≡ change_once change' k t p
  unfolding change_once
  change_once-Same k t p s =
      let k1 = set_tcb k t (record (k.tcb t) { priority = p }) in
      let same_next : (u : ℕ) → next_holder k1 u ≡ next_holder k u =
        λ u. unfold next_holder in ground arith in
      let hooks : in_wait (k.tcb t).state ≡ true
          → chg_pri_hook change k1 t (k.tcb t).priority (k.tcb t).wspec
            ≡ chg_pri_hook change' k1 t (k.tcb t).priority (k.tcb t).wspec =
        λ w. hook-Same k1 t (k.tcb t).priority (k.tcb t).wspec (λ f.
          mtx_chg_pri-Same k1 t (k.tcb t).priority
            (λ h b e k' q n. s h (next_of w f h b e) k' q (λ u. n u ∙ same_next u))) in
      elim (Bool-cases (is_ready (k.tcb t).state)) [
        | inl r ↦ rw r refl
        | inr r ↦ elim (Bool-cases (in_wait (k.tcb t).state)) [
          | inl w ↦ rw (r, w) (hooks w)
          | inr w ↦ rw (r, w) refl
        ]
      ]
    where
      next_of :
          in_wait (k.tcb t).state ≡ true
          → follows (k.tcb t).wspec ≡ true
          → (h : ℕ)
          → (kind_of
                (set_tcb k t (record (k.tcb t) { priority = p }))
                ((set_tcb k t (record (k.tcb t) { priority = p })).tcb t).wid
              == ta_inherit)
            ≡ true
          → ((set_tcb k t (record (k.tcb t) { priority = p })).mtxcb
              ((set_tcb k t (record (k.tcb t) { priority = p })).tcb t).wid).mtxtsk
            ≡ some h
          → next_holder k t ≡ some h
      next_of w f h b e = unfold next_holder in ground arith

-- More fuel than the chain is long changes nothing.
change_by-enough :
    (n f g : ℕ) (k : Kernel) (t p : ℕ)
    → Ends k n t
    → n < f
    → n < g
    → change_by f k t p ≡ change_by g k t p
unfolding change_by Ends
change_by-enough n zero g k t p c l m = absurd (omega arith)
change_by-enough n (suc f) zero k t p c l m = absurd (omega arith)
change_by-enough zero (suc f) (suc g) k t p c l m =
    change_once-Same (λ k' t' p'. change_by f k' t' p') (λ k' t' p'. change_by g k' t' p') k t p
      (λ h s. absurd (ground (arith, c, s)))
change_by-enough (suc n) (suc f) (suc g) k t p c l m =
    change_once-Same (λ k' t' p'. change_by f k' t' p') (λ k' t' p'. change_by g k' t' p') k t p
      (λ h s k' q e.
        change_by-enough n f g k' h q (Ends-same k k' n h e (c h s)) (omega arith) (omega arith))

-- When the chain of holders of mutexes with TA_INHERIT, from a task on that waits for one, ends
-- after fewer holders than there are tasks, the fuel of `knl_change_task_priority` is enough: it
-- is one call whose calls inside, by way of `mtx_chg_pri`, are `knl_change_task_priority` again,
-- as in the source.
pub change_task_priority-eq-change_once :
    (n : ℕ) (k : Kernel) (t p : ℕ)
    → Ends k n t
    → n < max_tskid
    → change_task_priority k t p ≡ change_once change_task_priority k t p
unfolding change_task_priority change_by Ends
change_task_priority-eq-change_once zero k t p c l =
    change_once-Same (λ k' t' p'. change_by max_tskid k' t' p') change_task_priority k t p
      (λ h s. absurd (ground (arith, c, s)))
change_task_priority-eq-change_once (suc n) k t p c l =
    change_once-Same (λ k' t' p'. change_by max_tskid k' t' p') change_task_priority k t p
      (λ h s k' q e.
        change_by-enough n max_tskid (suc max_tskid) k' h q (Ends-same k k' n h e (c h s))
          (omega arith) (omega arith))
