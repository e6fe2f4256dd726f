-- ===== src/Semaphore/Release.antt =====
-- `sem_chg_pri` and `sem_rel_wai` in kernel/tkernel/semaphore.c: the hooks that a task's departure
-- from the wait queue, or its move there, calls.
use esp32c3_mtk.Prelude.{
  ℕ, ◌≤◌, ◌<◌, ◌≡◌, refl, sym, ◌∙◌, ap, subst, true, false, List, [], ◌∷◌, ltb, ◌==◌, all_distinct,
  contains, without, without_head, All, All-mono, arith, Bool-cases, inl, inr,
  contains-without_self, all_distinct-without,
}
use esp32c3_mtk.Bits.{any_bit}
use esp32c3_mtk.Types.{sem}
use esp32c3_mtk.Kernel.{Kernel, que_of}
use esp32c3_mtk.Wait.{insert_tpri, priority_of, gcb_change_priority}
use esp32c3_mtk.Wait.Insertion.{all_distinct-insert_tpri, All-insert_tpri}
use esp32c3_mtk.Semaphore.{ta_cnt, request_of, grant, serve_first, sem_rel_wai, sem_chg_pri}
use esp32c3_mtk.Semaphore.Serve.{Starved}
use esp32c3_mtk.Semaphore.Grant.{
  request_of-grant, semcnt-grant, sematr-grant, maxsem-grant, que-grant,
}
use esp32c3_mtk.Semaphore.Signal.{IsSem}

-- A semaphore whose queue may have another first task than before: well formed, but that its first
-- task may be served where the queue is served in its order.
pub record IsStirred (k : Kernel) (i : ℕ) : Type 0 where
  pub bounded : (k.semcb i).semcnt ≤ (k.semcb i).maxsem
  pub distinct : all_distinct (que_of k (sem i)) ≡ true
  pub asks : All (λ t. 0 < request_of k t) (que_of k (sem i))
  pub starved_all :
      any_bit (k.semcb i).sematr ta_cnt ≡ true
      → All (λ t. (k.semcb i).semcnt < request_of k t) (que_of k (sem i))

serve_first-IsSem :
    (ts : List ℕ) (k : Kernel) (i : ℕ)
    → que_of k (sem i) ≡ ts
    → (k.semcb i).semcnt ≤ (k.semcb i).maxsem
    → any_bit (k.semcb i).sematr ta_cnt ≡ false
    → all_distinct ts ≡ true
    → All (λ t. 0 < request_of k t) ts
    → IsSem (serve_first k i ts) i
unfolding serve_first
serve_first-IsSem [] k i e b a d s = record {
  bounded = b;
  distinct = rw e refl;
  asks = rw e tt;
  starved = rw (e, a) tt;
}
serve_first-IsSem (t ∷ ts) k i e b a d s =
    elim (Bool-cases (ltb (k.semcb i).semcnt (request_of k t))) [
      | inl short ↦
          let lt : (k.semcb i).semcnt < request_of k t = ground arith in
          rw short
            (record { bounded = b; distinct = rw e d; asks = rw e s; starved = rw (e, a) lt })
      | inr enough ↦
          let next = grant k i t in
          let q : que_of next (sem i) ≡ ts =
            que-grant k i t (sem i) refl ∙ ap (without t) e ∙ without_head t ts d in
          rw enough (
            serve_first-IsSem ts next i q (omega (arith, semcnt-grant k i t, maxsem-grant k i t))
              (rw (sematr-grant k i t) a) (ground arith)
              (All-mono (λ u. 0 < request_of k u) (λ u. 0 < request_of next u) ts
                (λ u h. omega (arith, request_of-grant k i t u)) s.1))
    ]

-- `sem_rel_wai` makes the semaphore of the task well formed again.
pub sem_rel_wai-IsSem :
    (k : Kernel) (t i : ℕ) → (k.tcb t).wid ≡ i → IsStirred k i → IsSem (sem_rel_wai k t) i
unfolding sem_rel_wai
sem_rel_wai-IsSem k t i w v = elim (Bool-cases (any_bit (k.semcb i).sematr ta_cnt)) [
  | inl all ↦
      rw (w, all)
        (record {
          bounded = v.bounded;
          distinct = v.distinct;
          asks = v.asks;
          starved = rw all (v.starved_all all);
        })
  | inr first ↦
      rw (w, first)
        (serve_first-IsSem (que_of k (sem i)) k i refl v.bounded first v.distinct v.asks)
]

-- What holds of all tasks of a list holds of those that are left.
pub All-without_of : (P : ℕ → Type 0) (t : ℕ) (ts : List ℕ) → All P ts → All P (without t ts)
All-without_of P t [] h = tt
All-without_of P t (q ∷ qs) h = elim (Bool-cases (q == t)) [
  | inl e ↦ rw e (All-without_of P t qs h.1)
  | inr e ↦ rw e (h.0, All-without_of P t qs h.1)
]

-- A task leaves the queue, and nothing else of the semaphore changes.
pub left-IsStirred :
    (k k' : Kernel) (t i : ℕ)
    → IsSem k i
    → k'.semcb ≡ k.semcb
    → ((u : ℕ) → request_of k' u ≡ request_of k u)
    → que_of k' (sem i) ≡ without t (que_of k (sem i))
    → IsStirred k' i
left-IsStirred k k' t i v c r q = record {
  bounded = rw c v.bounded;
  distinct = rw q (all_distinct-without t (que_of k (sem i)) v.distinct);
  asks = rw q (
      All-mono (λ u. 0 < request_of k u) (λ u. 0 < request_of k' u) _ (λ u h. omega (arith, r u))
        (All-without_of _ t (que_of k (sem i)) v.asks));
  starved_all = λ all.
      let was : any_bit (k.semcb i).sematr ta_cnt ≡ true =
        subst (λ f. any_bit (f i).sematr ta_cnt ≡ true) c all in
      let same : (k'.semcb i).semcnt ≡ (k.semcb i).semcnt = ap (λ f. (f i).semcnt) c in
      rw q (
        All-mono (λ u. (k.semcb i).semcnt < request_of k u)
          (λ u. (k'.semcb i).semcnt < request_of k' u) _ (λ u h. omega (arith, r u, same))
          (All-without_of _ t (que_of k (sem i)) (
            subst (λ b. Starved b (request_of k) (k.semcb i).semcnt (que_of k (sem i))) was
              v.starved)));
}

All-contains : (P : ℕ → Type 0) (t : ℕ) (ts : List ℕ) → All P ts → contains t ts ≡ true → P t
All-contains P t [] h c = absurd (ground arith)
All-contains P t (q ∷ qs) h c = elim (Bool-cases (q == t)) [
  | inl e ↦ let same : q ≡ t = ground arith in subst P same h.0
  | inr e ↦ All-contains P t qs h.1 (ground arith)
]

-- `knl_gcb_change_priority` only moves the task in its queue.
module _ (k : Kernel) (t i : ℕ) where
  abbrev moved : Kernel
  moved = gcb_change_priority k (sem i) t

  semcb-moved : moved.semcb ≡ k.semcb
  unfolding gcb_change_priority
  semcb-moved = refl

  tcb-moved : moved.tcb ≡ k.tcb
  unfolding gcb_change_priority
  tcb-moved = refl

  que-moved : que_of moved (sem i) ≡ insert_tpri (priority_of k) t (without t (que_of k (sem i)))
  unfolding gcb_change_priority
  que-moved = ground arith

  All-moved :
      (P : ℕ → Type 0)
      → contains t (que_of k (sem i)) ≡ true
      → All P (que_of k (sem i))
      → All P (que_of moved (sem i))
  All-moved P c h =
      rw que-moved
        (All-insert_tpri (priority_of k) t P _ (All-contains P t _ h c) (All-without_of P t _ h))

  moved-IsStirred : contains t (que_of k (sem i)) ≡ true → IsSem k i → IsStirred moved i
  moved-IsStirred c v = record {
    bounded = rw semcb-moved v.bounded;
    distinct = rw que-moved (
        all_distinct-insert_tpri (priority_of k) t _
          (all_distinct-without t (que_of k (sem i)) v.distinct)
          (contains-without_self t (que_of k (sem i))));
    asks =
        subst (λ f. All (λ u. 0 < (f u).winfo.cnt) (que_of moved (sem i))) (sym tcb-moved)
          (All-moved (λ u. 0 < request_of k u) c v.asks);
    starved_all = λ all.
        let was : any_bit (k.semcb i).sematr ta_cnt ≡ true =
          subst (λ f. any_bit (f i).sematr ta_cnt ≡ true) semcb-moved all in
        let s : All (λ u. (k.semcb i).semcnt < request_of k u) (que_of k (sem i)) =
          subst (λ b. Starved b (request_of k) (k.semcb i).semcnt (que_of k (sem i))) was
            v.starved in
        subst (λ f. All (λ u. (moved.semcb i).semcnt < (f u).winfo.cnt) (que_of moved (sem i)))
          (sym tcb-moved)
          (subst (λ f. All (λ u. (f i).semcnt < request_of k u) (que_of moved (sem i)))
            (sym semcb-moved) (All-moved (λ u. (k.semcb i).semcnt < request_of k u) c s));
  }

sem_chg_pri-moved :
    (k : Kernel) (t i : ℕ) → (k.tcb t).wid ≡ i → sem_chg_pri k t ≡ sem_rel_wai (moved k t i) t
unfolding sem_chg_pri
sem_chg_pri-moved k t i w = ap (λ j. sem_rel_wai (gcb_change_priority k (sem j) t) t) w

pub sem_chg_pri-IsSem :
    (k : Kernel) (t i : ℕ)
    → (k.tcb t).wid ≡ i
    → contains t (que_of k (sem i)) ≡ true
    → IsSem k i
    → IsSem (sem_chg_pri k t) i
sem_chg_pri-IsSem k t i w c v =
    subst (λ k'. IsSem k' i) (sym (sem_chg_pri-moved k t i w))
      (sem_rel_wai-IsSem (moved k t i) t i (ap (λ f. (f t).wid) (tcb-moved k t i) ∙ w)
        (moved-IsStirred k t i c v))
