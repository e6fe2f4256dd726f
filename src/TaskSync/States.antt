-- ===== src/TaskSync/States.antt =====
-- The states of a task under suspension (kernel/tkernel/task_sync.c).
use esp32c3_mtk.Prelude.{
  ℕ, ◌+◌, ◌-◌, ◌≤◌, ◌≡◌, ◌≢◌, refl, sym, subst, Bool, true, false, ltb, arith, ◌⊎◌, inl, inr,
}
use esp32c3_mtk.Types.{Tcb, TaskState, nonexist, ready, wait, suspend, waitsus, dormant, task_alive}
use esp32c3_mtk.Kernel.{Kernel, int_max}
use esp32c3_mtk.ReadyQueue
use esp32c3_mtk.Task.{make_ready, make_non_ready}
use esp32c3_mtk.Wait.{set_state}
use esp32c3_mtk.TaskSync.{sus_tsk, rsm_tsk, frsm_tsk, suspended_by, set_suscnt, resumed_by}

-- Whether a state is a suspended one.
abbrev pub in_suspend : TaskState → Bool
in_suspend suspend = true
in_suspend waitsus = true
in_suspend _ = false

-- The count of a task's suspensions: positive while it is suspended, 0 else, and no more than an INT
-- holds.
pub record IsCounted (c : Tcb) : Type 0 where
  pub suspended : in_suspend c.state ≡ ltb 0 c.suscnt
  pub bounded : c.suscnt ≤ int_max

-- The move of `tk_sus_tsk`, from each state.
suspended_by-IsCounted :
    (k : Kernel) (t u : ℕ) (s : TaskState)
    → (k.tcb t).state ≡ s
    → task_alive s ≡ true
    → IsCounted (k.tcb u)
    → (k.tcb t).suscnt ≢ int_max
    → IsCounted ((suspended_by (set_suscnt k t ((k.tcb t).suscnt + 1)) t s).tcb u)
unfolding set_state make_non_ready ReadyQueue.delete
suspended_by-IsCounted k t u nonexist e a v n = absurd (ground arith)
suspended_by-IsCounted k t u dormant e a v n = absurd (ground arith)
suspended_by-IsCounted k t u ready e a v n = record {
  suspended = ground (arith, v.suspended, v.bounded);
  bounded = ground (arith, v.suspended, v.bounded);
}
suspended_by-IsCounted k t u wait e a v n = record {
  suspended = ground (arith, v.suspended, v.bounded);
  bounded = ground (arith, v.suspended, v.bounded);
}
suspended_by-IsCounted k t u suspend e a v n = record {
  suspended = ground (arith, v.suspended, v.bounded);
  bounded = ground (arith, v.suspended, v.bounded);
}
suspended_by-IsCounted k t u waitsus e a v n = record {
  suspended = ground (arith, v.suspended, v.bounded);
  bounded = ground (arith, v.suspended, v.bounded);
}

sus_tsk_outcome :
    (k : Kernel) (t : ℕ)
    → ((sus_tsk k t).0 ≡ k)
      ⊎ ((task_alive (k.tcb t).state ≡ true)
          × ((k.tcb t).suscnt ≢ int_max)
          × ((sus_tsk k t).0
              ≡ suspended_by (set_suscnt k t ((k.tcb t).suscnt + 1)) t (k.tcb t).state))
unfolding sus_tsk
sus_tsk_outcome k t = ground arith

-- The switch of `tk_rsm_tsk` and `tk_frsm_tsk`, from each state, for a count that is no more than
-- before.
resumed_by-IsCounted :
    (k : Kernel) (t u left : ℕ) (s : TaskState)
    → (k.tcb t).state ≡ s
    → left ≤ (k.tcb t).suscnt
    → IsCounted (k.tcb u)
    → IsCounted ((resumed_by k t left s).0.tcb u)
unfolding set_state make_ready
resumed_by-IsCounted k t u left nonexist e a v = v
resumed_by-IsCounted k t u left dormant e a v = v
resumed_by-IsCounted k t u left ready e a v = v
resumed_by-IsCounted k t u left wait e a v = v
resumed_by-IsCounted k t u left suspend e a v = record {
  suspended = ground (arith, v.suspended, v.bounded);
  bounded = ground (arith, v.suspended, v.bounded);
}
resumed_by-IsCounted k t u left waitsus e a v = record {
  suspended = ground (arith, v.suspended, v.bounded);
  bounded = ground (arith, v.suspended, v.bounded);
}

rsm_tsk_outcome :
    (k : Kernel) (t : ℕ)
    → ((rsm_tsk k t).0 ≡ k)
      ⊎ ((rsm_tsk k t).0 ≡ (resumed_by k t ((k.tcb t).suscnt - 1) (k.tcb t).state).0)
unfolding rsm_tsk
rsm_tsk_outcome k t = ground arith

frsm_tsk_outcome :
    (k : Kernel) (t : ℕ)
    → ((frsm_tsk k t).0 ≡ k) ⊎ ((frsm_tsk k t).0 ≡ (resumed_by k t 0 (k.tcb t).state).0)
unfolding frsm_tsk
frsm_tsk_outcome k t = ground arith

module _ (k : Kernel) (t u : ℕ) (v : IsCounted (k.tcb u)) where
  -- `tk_sus_tsk` keeps the suspension count of every task right on every path: positive exactly
  -- while the task is in a suspended state, and no more than an INT holds.
  pub sus_tsk-IsCounted : IsCounted ((sus_tsk k t).0.tcb u)
  sus_tsk-IsCounted = elim (sus_tsk_outcome k t) [
    | inl e ↦ subst (λ k'. IsCounted (k'.tcb u)) (sym e) v
    | inr (a, n, e) ↦
        subst (λ k'. IsCounted (k'.tcb u)) (sym e)
          (suspended_by-IsCounted k t u (k.tcb t).state refl a v n)
  ]

  -- `tk_rsm_tsk` keeps the suspension count of every task right on every path.
  pub rsm_tsk-IsCounted : IsCounted ((rsm_tsk k t).0.tcb u)
  rsm_tsk-IsCounted = elim (rsm_tsk_outcome k t) [
    | inl e ↦ subst (λ k'. IsCounted (k'.tcb u)) (sym e) v
    | inr e ↦
        subst (λ k'. IsCounted (k'.tcb u)) (sym e)
          (resumed_by-IsCounted k t u _ (k.tcb t).state refl (omega arith) v)
  ]

  -- `tk_frsm_tsk` keeps the suspension count of every task right on every path.
  pub frsm_tsk-IsCounted : IsCounted ((frsm_tsk k t).0.tcb u)
  frsm_tsk-IsCounted = elim (frsm_tsk_outcome k t) [
    | inl e ↦ subst (λ k'. IsCounted (k'.tcb u)) (sym e) v
    | inr e ↦
        subst (λ k'. IsCounted (k'.tcb u)) (sym e)
          (resumed_by-IsCounted k t u 0 (k.tcb t).state refl (omega arith) v)
  ]
