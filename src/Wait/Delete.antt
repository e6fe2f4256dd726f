-- ===== src/Wait/Delete.antt =====
-- `knl_wait_delete` in kernel/tkernel/wait.c: the waits for an object that is deleted.
use esp32c3_mtk.Prelude.{
  ℕ, suc, ◌≡◌, refl, ap, subst, ◌∙◌, true, false, List, [], ◌∷◌, without, contains, length,
  all_distinct, without_head, arith, Bool-cases, ◌==◌, if◌then◌else◌, inl, inr,
}
use esp32c3_mtk.Types.{e_dlt, Tcb, Head}
use esp32c3_mtk.Kernel.{Kernel, que_of}
use esp32c3_mtk.Wait.{delete_first, wait_release_ok_ercd, wait_delete_from, wait_delete}
use esp32c3_mtk.Wait.Frame.{is_wait_head, after_wait, que-release, tcb-release_ne, tcb-release_self}

-- One round on a queue that is not empty.
wait_delete_from-cons :
    (fuel : ℕ) (k : Kernel) (h : Head) (t : ℕ) (ts : List ℕ)
    → que_of k h ≡ t ∷ ts
    → wait_delete_from (suc fuel) k h ≡ wait_delete_from fuel (wait_release_ok_ercd k t e_dlt) h
unfolding wait_delete_from
wait_delete_from-cons fuel k h t ts e =
    ap (λ q. delete_first (λ k'. wait_delete_from fuel k' h) k q) e

que-next :
    (k : Kernel) (h : Head) (t : ℕ) (ts : List ℕ)
    → is_wait_head h ≡ true
    → all_distinct (t ∷ ts) ≡ true
    → que_of k h ≡ t ∷ ts
    → que_of (wait_release_ok_ercd k t e_dlt) h ≡ ts
que-next k h t ts w d e = que-release k t e_dlt h w ∙ ap (without t) e ∙ without_head t ts d

que-wait_delete_from :
    (ts : List ℕ) (k : Kernel) (h : Head)
    → is_wait_head h ≡ true
    → all_distinct ts ≡ true
    → que_of k h ≡ ts
    → que_of (wait_delete_from (length ts) k h) h ≡ []
que-wait_delete_from [] k h w d e = unfold wait_delete_from in e
que-wait_delete_from (t ∷ ts) k h w d e = rw (wait_delete_from-cons (length ts) k h t ts e) (
    que-wait_delete_from ts (wait_release_ok_ercd k t e_dlt) h w (ground arith)
      (que-next k h t ts w d e))

-- What a waiting task is after the deletion of what it waits for.
abbrev pub deleted_from : Tcb → Tcb
deleted_from c = record c { wercd = e_dlt; state = after_wait c.state }

tcb-wait_delete_from_other :
    (ts : List ℕ) (k : Kernel) (h : Head) (u : ℕ)
    → is_wait_head h ≡ true
    → all_distinct ts ≡ true
    → que_of k h ≡ ts
    → contains u ts ≡ false
    → (wait_delete_from (length ts) k h).tcb u ≡ k.tcb u
tcb-wait_delete_from_other [] k h u w d e n = unfold wait_delete_from in refl
tcb-wait_delete_from_other (t ∷ ts) k h u w d e n =
    rw (wait_delete_from-cons (length ts) k h t ts e) (
      tcb-wait_delete_from_other ts (wait_release_ok_ercd k t e_dlt) h u w (ground arith)
        (que-next k h t ts w d e) (ground arith)
      ∙ tcb-release_ne k t e_dlt u (ground arith))

tcb-wait_delete_from_waiting :
    (ts : List ℕ) (k : Kernel) (h : Head) (u : ℕ)
    → is_wait_head h ≡ true
    → all_distinct ts ≡ true
    → que_of k h ≡ ts
    → contains u ts ≡ true
    → (wait_delete_from (length ts) k h).tcb u ≡ deleted_from (k.tcb u)
tcb-wait_delete_from_waiting [] k h u w d e n = absurd (ground arith)
tcb-wait_delete_from_waiting (t ∷ ts) k h u w d e n =
    let next = wait_release_ok_ercd k t e_dlt in
    let q : que_of next h ≡ ts = que-next k h t ts w d e in
    rw (wait_delete_from-cons (length ts) k h t ts e) (elim (Bool-cases (t == u)) [
      | inl s ↦
          let same : t ≡ u = ground arith in
          subst (λ x. (wait_delete_from (length ts) next h).tcb x ≡ deleted_from (k.tcb x)) same
            (tcb-wait_delete_from_other ts next h t w (ground arith) q (ground arith)
              ∙ tcb-release_self k t e_dlt)
      | inr s ↦
          tcb-wait_delete_from_waiting ts next h u w (ground arith) q (ground arith)
          ∙ ap deleted_from (tcb-release_ne k t e_dlt u (ground arith))
    ])

-- On a wait queue in which no task is twice, the loop of `knl_wait_delete` empties the queue in as
-- many rounds as there are tasks in it.
pub que-wait_delete :
    (k : Kernel) (h : Head)
    → is_wait_head h ≡ true
    → all_distinct (que_of k h) ≡ true
    → que_of (wait_delete k h) h ≡ []
unfolding wait_delete
que-wait_delete k h w d = que-wait_delete_from (que_of k h) k h w d refl

-- On a wait queue in which no task is twice, `knl_wait_delete` gives E_DLT to exactly the tasks
-- that were in it and ends their waits (a task that was also suspended stays suspended); it
-- touches no other task.
pub tcb-wait_delete :
    (k : Kernel) (h : Head) (u : ℕ)
    → is_wait_head h ≡ true
    → all_distinct (que_of k h) ≡ true
    → (wait_delete k h).tcb u
      ≡ (if contains u (que_of k h) then deleted_from (k.tcb u) else k.tcb u)
unfolding wait_delete
tcb-wait_delete k h u w d = elim (Bool-cases (contains u (que_of k h))) [
  | inl e ↦ rw e (tcb-wait_delete_from_waiting (que_of k h) k h u w d refl e)
  | inr e ↦ rw e (tcb-wait_delete_from_other (que_of k h) k h u w d refl e)
]
