-- ===== src/Semaphore/Signal.antt =====
-- `tk_sig_sem` in kernel/tkernel/semaphore.c, and the well-formed semaphores.
use esp32c3_mtk.Prelude.{
  ℕ, ◌+◌, ◌≤◌, ◌<◌, ◌≡◌, ◌≢◌, refl, sym, ◌∙◌, Bool, true, List, [], ◌∷◌, without, all_distinct, All,
  arith, ◌⊎◌, inl, inr, fun_ext, subst, all_distinct-without,
}
use esp32c3_mtk.Bits.{any_bit}
use esp32c3_mtk.Types.{ℤ, ok, sem}
use esp32c3_mtk.Kernel.{Kernel, que_of, in_range, max_semid, is_positive, magnitude}
use esp32c3_mtk.Semaphore.{ta_cnt, set_semcnt, request_of, signal_from, sig_sem}
use esp32c3_mtk.Semaphore.Serve.{
  serve, unserved, Starved, without_all, total-serve-le, without_all-serve, Starved-unserved,
  All-unserved_asks,
}
use esp32c3_mtk.Semaphore.Grant.{
  grant_all, signal_from-eq-grant_all, que-grant_all, request_of-grant_all, sematr-grant_all,
  maxsem-grant_all, semcnt-grant_all,
}

-- A semaphore in use: its count is within its limit, everyone who waits asks for something, and
-- nobody waits who could be served.
pub record IsSem (k : Kernel) (i : ℕ) : Type 0 where
  pub bounded : (k.semcb i).semcnt ≤ (k.semcb i).maxsem
  pub distinct : all_distinct (que_of k (sem i)) ≡ true
  pub asks : All (λ t. 0 < request_of k t) (que_of k (sem i))
  pub starved :
      Starved
        (any_bit (k.semcb i).sematr ta_cnt)
        (request_of k)
        (k.semcb i).semcnt
        (que_of k (sem i))

all_distinct-without_all :
    (gs ts : List ℕ) → all_distinct ts ≡ true → all_distinct (without_all gs ts) ≡ true
all_distinct-without_all [] ts h = h
all_distinct-without_all (g ∷ gs) ts h =
    all_distinct-without_all gs (without g ts) (all_distinct-without g ts h)

-- All that `serve` names are released: what that leaves of the semaphore.
module _ (k : Kernel) (i : ℕ) (all : Bool) (bounded : (k.semcb i).semcnt ≤ (k.semcb i).maxsem)
    (distinct : all_distinct (que_of k (sem i)) ≡ true)
    (asks : All (λ t. 0 < request_of k t) (que_of k (sem i)))
    (atr : any_bit (k.semcb i).sematr ta_cnt ≡ all) where
  served : List ℕ
  served = serve all (request_of k) (k.semcb i).semcnt (que_of k (sem i))

  que-served :
      que_of (grant_all k i served) (sem i)
      ≡ unserved all (request_of k) (k.semcb i).semcnt (que_of k (sem i))
  unfolding served
  que-served =
      que-grant_all i served k (sem i) refl
      ∙ without_all-serve all (request_of k) (k.semcb i).semcnt (que_of k (sem i)) distinct

  served-IsSem : IsSem (grant_all k i served) i
  unfolding served
  served-IsSem =
      let cnt = semcnt-grant_all i served k (request_of k) (λ u. refl) in
      let req : request_of (grant_all k i served) ≡ request_of k =
        fun_ext (request_of-grant_all i served k) in
      let le = total-serve-le all (request_of k) (k.semcb i).semcnt (que_of k (sem i)) in
      record {
        bounded = omega (arith, cnt, maxsem-grant_all i served k);
        distinct =
            rw (que-grant_all i served k (sem i) refl)
              (all_distinct-without_all served (que_of k (sem i)) distinct);
        asks =
            subst (λ f. All (λ t. 0 < f t) (que_of (grant_all k i served) (sem i))) (sym req)
              (rw que-served (All-unserved_asks (λ t. 0 < request_of k t) all _ _ _ asks));
        starved =
            subst
              (λ f.
                Starved (any_bit ((grant_all k i served).semcb i).sematr ta_cnt) f
                  ((grant_all k i served).semcb i).semcnt (que_of (grant_all k i served) (sem i)))
              (sym req)
              (rw (que-served, sematr-grant_all i served k, atr, cnt)
                (Starved-unserved all (request_of k) (k.semcb i).semcnt _ (que_of k (sem i))
                  (omega (arith, le))));
      }

-- What the loop leaves, for a count `n` that the semaphore's limit allows.
signal_from-IsSem :
    (k : Kernel) (i : ℕ)
    → (k.semcb i).semcnt ≤ (k.semcb i).maxsem
    → all_distinct (que_of k (sem i)) ≡ true
    → All (λ t. 0 < request_of k t) (que_of k (sem i))
    → IsSem (signal_from k i (que_of k (sem i))) i
signal_from-IsSem k i bounded distinct asks =
    rw
      (signal_from-eq-grant_all k i (que_of k (sem i)) _ (request_of k) (k.semcb i).semcnt refl
        (λ u. refl) refl asks)
      (unfold served in served-IsSem k i _ bounded distinct asks refl)

-- A call changes nothing, or raises the count within the limit and then serves.
sig_sem_outcome :
    (k : Kernel) (i : ℕ) (cnt : ℤ)
    → (k.semcb i).semcnt ≤ (k.semcb i).maxsem
    → ((sig_sem k i cnt).0 ≡ k)
      ⊎ (((k.semcb i).semcnt + magnitude cnt ≤ (k.semcb i).maxsem)
          × ((sig_sem k i cnt).0
              ≡ signal_from
                  (set_semcnt k i ((k.semcb i).semcnt + magnitude cnt))
                  i
                  (que_of k (sem i))))
unfolding sig_sem
sig_sem_outcome k i cnt h = ground arith

-- `tk_sig_sem` keeps a semaphore well formed on every path: the count is within its limit, no task
-- is twice in the queue, every waiting task asks for something, and nobody waits who could be
-- served (with TA_CNT anyone in the queue, else its first task).
pub sig_sem-IsSem : (k : Kernel) (i : ℕ) (cnt : ℤ) → IsSem k i → IsSem (sig_sem k i cnt).0 i
sig_sem-IsSem k i cnt v = elim (sig_sem_outcome k i cnt v.bounded) [
  | inl e ↦ rw e v
  | inr (within, e) ↦
      let raised = set_semcnt k i ((k.semcb i).semcnt + magnitude cnt) in
      rw e (signal_from-IsSem raised i (ground arith) v.distinct v.asks)
]

-- For a well formed semaphore in use and a positive count that its limit allows, `tk_sig_sem`
-- returns E_OK and releases exactly the tasks that the specification `serve` names for the raised
-- count, in the queue's order, each with its count taken off.
pub sig_sem-eq-grant_all :
    (k : Kernel) (i : ℕ) (cnt : ℤ)
    → IsSem k i
    → in_range i max_semid ≡ true
    → (k.semcb i).semid ≢ 0
    → is_positive cnt ≡ true
    → (k.semcb i).semcnt + magnitude cnt ≤ (k.semcb i).maxsem
    → sig_sem k i cnt ≡ (
      grant_all (set_semcnt k i ((k.semcb i).semcnt + magnitude cnt)) i (
          serve
            (any_bit (k.semcb i).sematr ta_cnt)
            (request_of k)
            ((k.semcb i).semcnt + magnitude cnt)
            (que_of k (sem i))),
      ok,
    )
unfolding sig_sem
sig_sem-eq-grant_all k i cnt v r e p fits = ground (
  arith,
  signal_from-eq-grant_all (set_semcnt k i ((k.semcb i).semcnt + magnitude cnt)) i
      (que_of k (sem i)) (any_bit (k.semcb i).sematr ta_cnt) (request_of k)
      ((k.semcb i).semcnt + magnitude cnt) (ground arith) (λ u. refl) (ground arith) v.asks,
)
