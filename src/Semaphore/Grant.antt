-- ===== src/Semaphore/Grant.antt =====
-- The loop of `tk_sig_sem` in kernel/tkernel/semaphore.c beside the tasks of `serve`.
use esp32c3_mtk.Prelude.{
  ℕ, ◌-◌, ◌<◌, ◌≡◌, ◌≢◌, refl, sym, ◌∙◌, ap, ap₂, Bool, true, false, List, [], ◌∷◌, ltb, ◌==◌,
  if◌then◌else◌, contains, without, all_distinct, All, arith, Bool-cases, inl, inr, subst,
}
use esp32c3_mtk.Bits.{any_bit}
use esp32c3_mtk.Types.{ok, Head}
use esp32c3_mtk.Kernel.{Kernel, que_of}
use esp32c3_mtk.Wait.Frame.{
  is_wait_head, semcb-release, que-release, winfo-release, tcb-release_ne, tcb-release_self,
  after_wait,
}
use esp32c3_mtk.Wait.{wait_release_ok}
use esp32c3_mtk.Semaphore.{ta_cnt, request_of, grant, signal_from}
use esp32c3_mtk.Semaphore.Serve.{serve, total, without_all, serve-zero}

-- The tasks of a list are released one after the other.
unfoldable pub grant_all : Kernel → ℕ → List ℕ → Kernel
grant_all k i [] = k
grant_all k i (t ∷ ts) = grant_all (grant k i t) i ts

module _ (k : Kernel) (i t : ℕ) where
  pub request_of-grant : (u : ℕ) → request_of (grant k i t) u ≡ request_of k u
  unfolding grant
  request_of-grant u = ground (arith, winfo-release k t ok u)

  pub semcnt-grant : ((grant k i t).semcb i).semcnt ≡ (k.semcb i).semcnt - request_of k t
  unfolding grant
  semcnt-grant = ground (arith, semcb-release k t ok, winfo-release k t ok t)

  pub sematr-grant : ((grant k i t).semcb i).sematr ≡ (k.semcb i).sematr
  unfolding grant
  sematr-grant = ground (arith, semcb-release k t ok)

  pub maxsem-grant : ((grant k i t).semcb i).maxsem ≡ (k.semcb i).maxsem
  unfolding grant
  maxsem-grant = ground (arith, semcb-release k t ok)

  semcb-grant_ne : (j : ℕ) → i ≢ j → (grant k i t).semcb j ≡ k.semcb j
  unfolding grant
  semcb-grant_ne j n = ground (arith, semcb-release k t ok)

  pub que-grant :
      (h : Head) → is_wait_head h ≡ true → que_of (grant k i t) h ≡ without t (que_of k h)
  unfolding grant
  que-grant h w = ground (arith, que-release k t ok h w)

grant_all-if :
    (k : Kernel) (i : ℕ) (ts : List ℕ) (b : Bool)
    → grant_all k i (if b then ts else []) ≡ (if b then grant_all k i ts else k)
unfolding grant_all
grant_all-if k i ts true = refl
grant_all-if k i ts false = refl

signal_from-cons :
    (k : Kernel) (i t : ℕ) (ts : List ℕ)
    → signal_from k i (t ∷ ts) ≡ (
        if ltb (k.semcb i).semcnt (request_of k t)
        then (if any_bit (k.semcb i).sematr ta_cnt then signal_from k i ts else k)
        else if ((grant k i t).semcb i).semcnt == 0
        then grant k i t
        else signal_from (grant k i t) i ts)
unfolding signal_from
signal_from-cons k i t ts = refl

module _ (k : Kernel) (i t : ℕ) (ts : List ℕ) (all : Bool) (req : ℕ → ℕ) (n : ℕ) where
  signal_step :
      any_bit (k.semcb i).sematr ta_cnt ≡ all
      → request_of k t ≡ req t
      → (k.semcb i).semcnt ≡ n
      → ((grant k i t).semcb i).semcnt ≡ n - req t
      → signal_from k i ts ≡ grant_all k i (serve all req n ts)
      → signal_from (grant k i t) i ts ≡ grant_all (grant k i t) i (serve all req (n - req t) ts)
      → serve all req 0 ts ≡ []
      → signal_from k i (t ∷ ts) ≡ grant_all k i (serve all req n (t ∷ ts))
  unfolding grant_all serve
  signal_step ha hr hn hg passed served z =
      rw (signal_from-cons k i t ts, ha, hr, hn, hg, passed, served)
        (elim (Bool-cases (ltb n (req t))) [
          | inl short ↦ rw short (sym (grant_all-if k i (serve all req n ts) all))
          | inr enough ↦ elim (Bool-cases (n - req t == 0)) [
            | inl spent ↦ let e : n - req t ≡ 0 = ground arith in rw (enough, spent) (rw (e, z))
            | inr more ↦ rw (enough, more)
          ]
        ])

-- The loop of `tk_sig_sem` releases the tasks of `serve`, for any count `n` and requests `req` that
-- the state holds.
pub signal_from-eq-grant_all :
    (k : Kernel) (i : ℕ) (ts : List ℕ) (all : Bool) (req : ℕ → ℕ) (n : ℕ)
    → any_bit (k.semcb i).sematr ta_cnt ≡ all
    → ((u : ℕ) → request_of k u ≡ req u)
    → (k.semcb i).semcnt ≡ n
    → All (λ t. 0 < req t) ts
    → signal_from k i ts ≡ grant_all k i (serve all req n ts)
signal_from-eq-grant_all k i [] all req n ha hr hn h = unfold signal_from grant_all serve in refl
signal_from-eq-grant_all k i (t ∷ ts) all req n ha hr hn h =
    signal_step k i t ts all req n ha (hr t) hn (semcnt-grant k i t ∙ ap₂ ◌-◌ hn (hr t))
      (signal_from-eq-grant_all k i ts all req n ha hr hn h.1)
      (signal_from-eq-grant_all (grant k i t) i ts all req (n - req t)
        (ap (λ a. any_bit a ta_cnt) (sematr-grant k i t) ∙ ha)
        (λ u. request_of-grant k i t u ∙ hr u) (semcnt-grant k i t ∙ ap₂ ◌-◌ hn (hr t)) h.1)
      (serve-zero all req ts h.1)

module _ (i : ℕ) where
  pub que-grant_all :
      (ts : List ℕ) (k : Kernel) (h : Head)
      → is_wait_head h ≡ true
      → que_of (grant_all k i ts) h ≡ without_all ts (que_of k h)
  unfolding grant_all
  que-grant_all [] k h w = refl
  que-grant_all (t ∷ ts) k h w =
      que-grant_all ts (grant k i t) h w ∙ ap (without_all ts) (que-grant k i t h w)

  pub request_of-grant_all :
      (ts : List ℕ) (k : Kernel) (u : ℕ) → request_of (grant_all k i ts) u ≡ request_of k u
  unfolding grant_all
  request_of-grant_all [] k u = refl
  request_of-grant_all (t ∷ ts) k u =
      request_of-grant_all ts (grant k i t) u ∙ request_of-grant k i t u

  pub sematr-grant_all :
      (ts : List ℕ) (k : Kernel) → ((grant_all k i ts).semcb i).sematr ≡ (k.semcb i).sematr
  unfolding grant_all
  sematr-grant_all [] k = refl
  sematr-grant_all (t ∷ ts) k = sematr-grant_all ts (grant k i t) ∙ sematr-grant k i t

  pub maxsem-grant_all :
      (ts : List ℕ) (k : Kernel) → ((grant_all k i ts).semcb i).maxsem ≡ (k.semcb i).maxsem
  unfolding grant_all
  maxsem-grant_all [] k = refl
  maxsem-grant_all (t ∷ ts) k = maxsem-grant_all ts (grant k i t) ∙ maxsem-grant k i t

  -- The count goes down by what was asked for.
  pub semcnt-grant_all :
      (ts : List ℕ) (k : Kernel) (req : ℕ → ℕ)
      → ((u : ℕ) → request_of k u ≡ req u)
      → ((grant_all k i ts).semcb i).semcnt ≡ (k.semcb i).semcnt - total req ts
  unfolding grant_all
  semcnt-grant_all [] k req hr = omega arith
  semcnt-grant_all (t ∷ ts) k req hr =
      let ih = semcnt-grant_all ts (grant k i t) req (λ u. request_of-grant k i t u ∙ hr u) in
      omega (arith, ih, semcnt-grant k i t, hr t)

-- A task that is served has E_OK as its code and waits no longer.
pub tcb-grant : (k : Kernel) (i t u : ℕ) → (grant k i t).tcb u ≡ (wait_release_ok k t).tcb u
unfolding grant
tcb-grant k i t u = refl

module _ (i : ℕ) where
  -- Who is not served is not touched.
  pub tcb-grant_all_other :
      (ts : List ℕ) (k : Kernel) (u : ℕ)
      → contains u ts ≡ false
      → (grant_all k i ts).tcb u ≡ k.tcb u
  unfolding grant_all wait_release_ok
  tcb-grant_all_other [] k u h = refl
  tcb-grant_all_other (t ∷ ts) k u h =
      tcb-grant_all_other ts (grant k i t) u (ground arith)
      ∙ tcb-grant k i t u
      ∙ tcb-release_ne k t ok u (ground arith)

  pub tcb-grant_all_served :
      (ts : List ℕ) (k : Kernel) (u : ℕ)
      → all_distinct ts ≡ true
      → contains u ts ≡ true
      → (grant_all k i ts).tcb u
        ≡ record (k.tcb u) { wercd = ok; state = after_wait (k.tcb u).state }
  unfolding grant_all wait_release_ok
  tcb-grant_all_served [] k u d h = cc
  tcb-grant_all_served (t ∷ ts) k u d h = elim (Bool-cases (t == u)) [
    | inl e ↦
        let tu : t ≡ u = ground arith in
        tcb-grant_all_other ts (grant k i t) u (ground arith)
        ∙ tcb-grant k i t u
        ∙ subst
            (λ x.
              (wait_release_ok k t).tcb x
              ≡ record (k.tcb x) { wercd = ok; state = after_wait (k.tcb x).state })
            tu (tcb-release_self k t ok)
    | inr n ↦
        let ne : t ≢ u = ground arith in
        let same : (grant k i t).tcb u ≡ k.tcb u = tcb-grant k i t u ∙ tcb-release_ne k t ok u ne in
        tcb-grant_all_served ts (grant k i t) u (ground arith) (ground arith) ∙ rw same
  ]
