-- ===== src/Semaphore/Acquire.antt =====
-- `tk_wai_sem` in kernel/tkernel/semaphore.c: a task takes its count or joins the queue.
use esp32c3_mtk.Prelude.{
  ℕ, ◌-◌, ◌<◌, ◌≡◌, ◌≢◌, refl, sym, ap, fun_ext, subst, true, false, ◌||◌, List, [], ◌∷◌, ◌++◌,
  none, some, ◌==◌, if◌then◌else◌, is_empty, contains, all_distinct, All, All-other, All-append,
  arith, Bool-cases, Option-cases, ◌⊎◌, inl, inr, all_distinct-snoc, List-cases,
}
use esp32c3_mtk.Bits.{any_bit}
use esp32c3_mtk.Types.{ℤ, pos, negsuc, sem}
use esp32c3_mtk.Kernel.{Kernel, que_of, is_pol, magnitude}
use esp32c3_mtk.Wait.{insert_tpri, ta_tpri, priority_of, gcb_make_wait, gcb_top_of_wait_queue}
use esp32c3_mtk.Wait.Insertion.{all_distinct-insert_tpri, All-insert_tpri}
use esp32c3_mtk.Wait.Block.{semcb-block, winfo-block, que-poll, que-block}
use esp32c3_mtk.Semaphore.{ta_cnt, set_semcnt, request_of, asking, wai_sem_by, wai_sem}
use esp32c3_mtk.Semaphore.Serve.{Starved}
use esp32c3_mtk.Semaphore.Starving.{
  is_first, Starved-mono, Starved-other, Starved-insert_tpri, Starved-snoc,
}
use esp32c3_mtk.Semaphore.Signal.{IsSem}

module _ (k : Kernel) (t i cnt : ℕ) (absent : contains t (que_of k (sem i)) ≡ false) where
  -- The task that asks is not in the queue, so it changes nobody's request there.
  request_of-asking_ne : (u : ℕ) → t ≢ u → request_of (asking k t i cnt) u ≡ request_of k u
  unfolding asking
  request_of-asking_ne u ne = ground arith

  request_of-asking_self : request_of (asking k t i cnt) t ≡ cnt
  unfolding asking
  request_of-asking_self = ground arith

  asking-IsSem : IsSem k i → IsSem (asking k t i cnt) i
  unfolding asking
  asking-IsSem v = record {
    bounded = v.bounded;
    distinct = v.distinct;
    asks =
        All-other (λ u. 0 < request_of k u) (λ u. 0 < request_of (asking k t i cnt) u) t
          (que_of k (sem i)) absent (λ u ne p. omega (arith, request_of-asking_ne u ne)) v.asks;
    starved =
        Starved-other (any_bit (k.semcb i).sematr ta_cnt) (request_of k)
          (request_of (asking k t i cnt)) (k.semcb i).semcnt t (que_of k (sem i)) absent
          request_of-asking_ne v.starved;
  }

top_asking :
    (k : Kernel) (t i cnt atr : ℕ)
    → gcb_top_of_wait_queue (asking k t i cnt) (sem i) atr t ≡ gcb_top_of_wait_queue k (sem i) atr t
unfolding gcb_top_of_wait_queue asking
top_asking k t i cnt atr = ground (arith, List-cases (que_of k (sem i)))

module _ (k : Kernel) (t i : ℕ) (tmout : ℤ) (v : IsSem k i) (ask : 0 < request_of k t)
    (absent : contains t (que_of k (sem i)) ≡ false)
    (refused : (any_bit (k.semcb i).sematr ta_cnt
          || gcb_top_of_wait_queue k (sem i) (k.semcb i).sematr t == t)
        ≡ true
      → (k.semcb i).semcnt < request_of k t) where
  abbrev blocked : Kernel
  blocked = (gcb_make_wait k t (sem i) i (k.semcb i).sematr tmout).0

  blocked-request : request_of blocked ≡ request_of k
  blocked-request =
      fun_ext λ u. ap (λ w. w.cnt) (winfo-block k t (sem i) i (k.semcb i).sematr tmout u)

  -- The queue with the task in its place.
  abbrev joined : List ℕ
  joined =
      if any_bit (k.semcb i).sematr ta_tpri
      then insert_tpri (priority_of k) t (que_of k (sem i))
      else que_of k (sem i) ++ t ∷ []

  joined-distinct : all_distinct joined ≡ true
  joined-distinct = ground (
    arith,
    all_distinct-insert_tpri (priority_of k) t (que_of k (sem i)) v.distinct absent,
    all_distinct-snoc t (que_of k (sem i)) v.distinct absent,
  )

  joined-asks : All (λ u. 0 < request_of k u) joined
  joined-asks = elim (Bool-cases (any_bit (k.semcb i).sematr ta_tpri)) [
    | inl b ↦ rw b (All-insert_tpri (priority_of k) t (λ u. 0 < request_of k u) _ ask v.asks)
    | inr b ↦ rw b (All-append (λ u. 0 < request_of k u) _ (t ∷ []) v.asks (ask, tt))
  ]

  top_of_first :
      any_bit (k.semcb i).sematr ta_tpri ≡ true
      → is_first (priority_of k) t (que_of k (sem i)) ≡ true
      → (gcb_top_of_wait_queue k (sem i) (k.semcb i).sematr t == t) ≡ true
  unfolding gcb_top_of_wait_queue
  top_of_first b f = ground (arith, List-cases (que_of k (sem i)))

  top_of_empty :
      is_empty (que_of k (sem i)) ≡ true
      → (gcb_top_of_wait_queue k (sem i) (k.semcb i).sematr t == t) ≡ true
  unfolding gcb_top_of_wait_queue
  top_of_empty f = ground (arith, List-cases (que_of k (sem i)))

  joined-Starved :
      Starved (any_bit (k.semcb i).sematr ta_cnt) (request_of k) (k.semcb i).semcnt joined
  joined-Starved = elim (Bool-cases (any_bit (k.semcb i).sematr ta_tpri)) [
    | inl b ↦ rw b (
        Starved-insert_tpri _ (request_of k) (priority_of k) _ t _
          (λ e. refused (ground (arith, top_of_first b))) v.starved)
    | inr b ↦ rw b (
        Starved-snoc _ (request_of k) _ t _ (λ e. refused (ground (arith, top_of_empty))) v.starved)
  ]

  blocked-IsSem : IsSem blocked i
  blocked-IsSem = elim (Bool-cases (is_pol tmout)) [
    | inl p ↦
        let q : que_of blocked (sem i) ≡ que_of k (sem i) =
          ap (λ f. f (sem i)) (que-poll k t (sem i) i (k.semcb i).sematr tmout p) in
        moved (que_of k (sem i)) q v.distinct v.asks v.starved
    | inr p ↦
        moved joined (que-block k t (sem i) i (k.semcb i).sematr tmout refl p absent)
          joined-distinct joined-asks joined-Starved
  ]
    where
      moved :
          (ts : List ℕ)
          → que_of blocked (sem i) ≡ ts
          → all_distinct ts ≡ true
          → All (λ u. 0 < request_of k u) ts
          → Starved (any_bit (k.semcb i).sematr ta_cnt) (request_of k) (k.semcb i).semcnt ts
          → IsSem blocked i
      moved ts e d a s = record {
        bounded = rw (semcb-block k t (sem i) i (k.semcb i).sematr tmout) v.bounded;
        distinct = rw e d;
        asks =
            subst (λ f. All (λ u. 0 < f u) (que_of blocked (sem i))) (sym blocked-request) (rw e a);
        starved =
            subst
              (λ f.
                Starved (any_bit (blocked.semcb i).sematr ta_cnt) f (blocked.semcb i).semcnt
                  (que_of blocked (sem i)))
              (sym blocked-request) (rw (e, semcb-block k t (sem i) i (k.semcb i).sematr tmout) s);
      }

-- The task takes its count: what is left serves even less.
taken-IsSem :
    (k : Kernel) (i cnt : ℕ) → IsSem k i → IsSem (set_semcnt k i ((k.semcb i).semcnt - cnt)) i
taken-IsSem k i cnt v = record {
  bounded = ground (arith, v.bounded);
  distinct = v.distinct;
  asks = v.asks;
  starved =
      subst (λ c. Starved (any_bit c.sematr ta_cnt) (request_of k) c.semcnt (que_of k (sem i)))
        (sym semcb-taken)
        (Starved-mono _ (request_of k) _ _ (que_of k (sem i)) (omega arith) v.starved);
}
  where
    semcb-taken :
        (set_semcnt k i ((k.semcb i).semcnt - cnt)).semcb i
        ≡ record (k.semcb i) { semcnt = (k.semcb i).semcnt - cnt }
    semcb-taken = ground arith

-- What `tk_wai_sem` does on its paths.
wai_sem_by_outcome :
    (k : Kernel) (t i cnt : ℕ) (tmout : ℤ)
    → ((wai_sem_by k t i cnt tmout).0 ≡ k)
      ⊎ ((wai_sem_by k t i cnt tmout).0 ≡ set_semcnt k i ((k.semcb i).semcnt - cnt))
      ⊎ (((any_bit (k.semcb i).sematr ta_cnt
                || gcb_top_of_wait_queue k (sem i) (k.semcb i).sematr t == t)
              ≡ true
            → (k.semcb i).semcnt < cnt)
          × ((wai_sem_by k t i cnt tmout).0
              ≡ (gcb_make_wait (asking k t i cnt) t (sem i) i (k.semcb i).sematr tmout).0))
unfolding wai_sem_by
wai_sem_by_outcome k t i cnt tmout = ground arith

wai_sem_by-IsSem :
    (k : Kernel) (t i cnt : ℕ) (tmout : ℤ)
    → IsSem k i
    → 0 < cnt
    → contains t (que_of k (sem i)) ≡ false
    → IsSem (wai_sem_by k t i cnt tmout).0 i
wai_sem_by-IsSem k t i cnt tmout v c absent = elim (wai_sem_by_outcome k t i cnt tmout) [
  | inl e ↦ rw e v
  | inr (inl e) ↦ rw e (taken-IsSem k i cnt v)
  | inr (inr (refused, e)) ↦ rw e (
      unfold asking in
      blocked-IsSem (asking k t i cnt) t i tmout (asking-IsSem k t i cnt absent v)
        (rw (request_of-asking_self k t i cnt absent) c) absent
        (λ b.
          rw (request_of-asking_self k t i cnt absent)
            (refused (rw (← top_asking k t i cnt (k.semcb i).sematr) b))))
]

wai_sem_idle :
    (k : Kernel) (i : ℕ) (cnt tmout : ℤ) → k.ctxtsk ≡ none → (wai_sem k i cnt tmout).0 ≡ k
unfolding wai_sem
wai_sem_idle k i cnt tmout e = ground arith

wai_sem_outcome :
    (k : Kernel) (i t : ℕ) (cnt tmout : ℤ)
    → k.ctxtsk ≡ some t
    → ((wai_sem k i cnt tmout).0 ≡ k)
      ⊎ ((0 < magnitude cnt)
          × ((wai_sem k i cnt tmout).0 ≡ (wai_sem_by k t i (magnitude cnt) tmout).0))
unfolding wai_sem
wai_sem_outcome k i t (pos n) tmout e = ground arith
wai_sem_outcome k i t (negsuc n) tmout e = ground arith

-- `tk_wai_sem` keeps a semaphore well formed on every path, when the task in execution, if any, is
-- not in its queue.
pub wai_sem-IsSem :
    (k : Kernel) (i : ℕ) (cnt tmout : ℤ)
    → IsSem k i
    → ((t : ℕ) → k.ctxtsk ≡ some t → contains t (que_of k (sem i)) ≡ false)
    → IsSem (wai_sem k i cnt tmout).0 i
wai_sem-IsSem k i cnt tmout v absent = elim (Option-cases k.ctxtsk) [
  | inl e ↦ subst (λ k'. IsSem k' i) (sym (wai_sem_idle k i cnt tmout e)) v
  | inr (t, e) ↦ elim (wai_sem_outcome k i t cnt tmout e) [
    | inl same ↦ subst (λ k'. IsSem k' i) (sym same) v
    | inr (c, by) ↦
        subst (λ k'. IsSem k' i) (sym by)
          (wai_sem_by-IsSem k t i (magnitude cnt) tmout v c (absent t e))
  ]
]
