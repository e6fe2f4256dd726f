-- ===== src/Semaphore.antt =====
-- kernel/tkernel/semaphore.c: the semaphores.
pub mod Serve
pub mod Grant
pub mod Signal
pub mod Starving
pub mod Acquire
pub mod Release
pub mod First
use esp32c3_mtk.Prelude.{
  ℕ, zero, suc, ◌+◌, ◌-◌, ◌≤◌, ◌<◌, ◌≡◌, Bool, true, false, not, ◌&&◌, ◌||◌, List, [], ◌∷◌, ◌++◌,
  Option, none, some, ltb, leb, ◌==◌, if◌then◌else◌, length,
}
use esp32c3_mtk.Bits.{any_bit, and_not}
use esp32c3_mtk.Types.{
  ℤ, pos, negsuc, Er, ok, value, e_rsatr, e_par, e_id, e_ctx, e_limit, e_noexs, e_qovr, Tcb, WSpec,
  wspec_sem_tfifo, wspec_sem_tpri, Head, sem, set_que, Semcb, WInfo,
}
use esp32c3_mtk.Kernel.{
  Kernel, update, set_tcb, que_of, set_queues, Reply, ret, pend, in_ddsp, in_range, max_semid,
  is_tmout, is_positive, magnitude, leb_ℤ,
}
use esp32c3_mtk.Wait.{
  ta_tpri, wait_release_ok, wait_delete, wait_tskid, gcb_make_wait, gcb_change_priority,
  gcb_top_of_wait_queue, set_wercd,
}

abbrev pub ta_cnt : ℕ
ta_cnt = 0x2

abbrev pub set_semcb : Kernel → ℕ → Semcb → Kernel
set_semcb k i c = record k { semcb = update k.semcb i c }

abbrev pub set_semcnt : Kernel → ℕ → ℕ → Kernel
set_semcnt k i n = set_semcb k i (record (k.semcb i) { semcnt = n })

-- `tcb->winfo.sem.cnt`
abbrev pub request_of : Kernel → ℕ → ℕ
request_of k t = (k.tcb t).winfo.cnt

-- `knl_semaphore_initialize`: NUM_SEMID is 128. The blocks go onto the free queue in their order.
unfoldable pub count_from : ℕ → ℕ → List ℕ
count_from zero i = []
count_from (suc n) i = i ∷ count_from n (i + 1)

unfoldable pub semaphore_initialize : Kernel → Kernel
unfolding count_from
semaphore_initialize k = record k {
  semcb = λ i. if in_range i max_semid then record (k.semcb i) { semid = 0 } else k.semcb i;
  free_semcb = count_from max_semid 1;
}

-- `T_CSEM`
pub record TCsem : Type 0 where
  pub exinf : ℕ
  pub sematr : ℕ
  pub isemcnt : ℤ
  pub maxsem : ℤ

-- `tk_cre_sem`; USE_OBJECT_NAME is 0.
abbrev create_in : Kernel → TCsem → List ℕ → Kernel × Er
create_in k p [] = (k, e_limit)
create_in k p (i ∷ free) = (
  record (set_queues k (set_que k.rq.que (sem i) [])) {
    free_semcb = free;
    semcb = update k.semcb i (record {
      semid = i;
      exinf = p.exinf;
      sematr = p.sematr;
      semcnt = magnitude p.isemcnt;
      maxsem = magnitude p.maxsem;
    });
  },
  value i,
)

unfoldable pub cre_sem : Kernel → TCsem → Kernel × Er
unfolding and_not
cre_sem k p =
    if not (and_not p.sematr 0x3 == 0)
    then (k, e_rsatr)
    else if not (leb_ℤ (pos 0) p.isemcnt)
    then (k, e_par)
    else if not (is_positive p.maxsem)
    then (k, e_par)
    else if not (leb_ℤ p.isemcnt p.maxsem)
    then (k, e_par)
    else create_in k p k.free_semcb

-- `tk_del_sem`
unfoldable pub del_sem : Kernel → ℕ → Kernel × Er
unfolding wait_delete
del_sem k i =
    if not (in_range i max_semid)
    then (k, e_id)
    else if (k.semcb i).semid == 0
    then (k, e_noexs)
    else (let k1 = wait_delete k (sem i) in
        (
          record (set_semcb k1 i (record (k1.semcb i) { semid = 0 })) {
            free_semcb = k1.free_semcb ++ i ∷ [];
          },
          ok,
        ))

-- The release of one task: its request is taken from the count.
unfoldable pub grant : Kernel → ℕ → ℕ → Kernel
unfolding wait_release_ok
grant k i t =
    let k' = wait_release_ok k t in set_semcnt k' i ((k'.semcb i).semcnt - request_of k' t)

-- The loop of `tk_sig_sem`, over the tasks from `queue` on.
pub signal_from : Kernel → ℕ → List ℕ → Kernel
signal_from k i [] = k
signal_from k i (t ∷ ts) =
    let skipped = signal_from k i ts in
    let k' = grant k i t in
    let granted = signal_from k' i ts in
    if ltb (k.semcb i).semcnt (request_of k t)
    then (if any_bit (k.semcb i).sematr ta_cnt then skipped else k)
    else if (k'.semcb i).semcnt == 0
    then k'
    else granted

-- `tk_sig_sem`
unfoldable pub sig_sem : Kernel → ℕ → ℤ → Kernel × Er
unfolding signal_from grant
sig_sem k i cnt =
    if not (in_range i max_semid)
    then (k, e_id)
    else if not (is_positive cnt)
    then (k, e_par)
    else if (k.semcb i).semid == 0
    then (k, e_noexs)
    else if ltb ((k.semcb i).maxsem - (k.semcb i).semcnt) (magnitude cnt)
    then (k, e_qovr)
    else (
      signal_from (set_semcnt k i ((k.semcb i).semcnt + magnitude cnt)) i (que_of k (sem i)),
      ok,
    )

-- The loop of `sem_chg_pri`, over the tasks from `queue` on.
unfoldable pub serve_first : Kernel → ℕ → List ℕ → Kernel
serve_first k i [] = k
serve_first k i (t ∷ ts) =
    let granted = serve_first (grant k i t) i ts in
    if ltb (k.semcb i).semcnt (request_of k t) then k else granted

-- `sem_chg_pri` with `oldpri >= 0` or not; `sem_rel_wai` is the latter.
unfoldable pub sem_rel_wai : Kernel → ℕ → Kernel
unfolding serve_first grant
sem_rel_wai k t =
    let i = (k.tcb t).wid in
    if any_bit (k.semcb i).sematr ta_cnt then k else serve_first k i (que_of k (sem i))

unfoldable pub sem_chg_pri : Kernel → ℕ → Kernel
unfolding sem_rel_wai gcb_change_priority
sem_chg_pri k t = sem_rel_wai (gcb_change_priority k (sem (k.tcb t).wid) t) t

-- The branch "Ready for wait" of `tk_wai_sem`, up to `knl_gcb_make_wait`.
unfoldable pub asking : Kernel → ℕ → ℕ → ℕ → Kernel
asking k t i cnt = set_tcb k t (record (k.tcb t) {
  wspec = if any_bit (k.semcb i).sematr ta_tpri then wspec_sem_tpri else wspec_sem_tfifo;
  winfo = record (k.tcb t).winfo { cnt = cnt };
})

-- `tk_wai_sem`, once the task in execution is known to be `t`.
unfoldable pub wai_sem_by : Kernel → ℕ → ℕ → ℕ → ℤ → Kernel × Reply
wai_sem_by k t i cnt tmout =
    let c = k.semcb i in
    if c.semid == 0
    then (k, ret e_noexs)
    else if ltb c.maxsem cnt
    then (k, ret e_par)
    else if (any_bit c.sematr ta_cnt || gcb_top_of_wait_queue k (sem i) c.sematr t == t)
        && leb cnt c.semcnt
    then (set_semcnt k i (c.semcnt - cnt), ret ok)
    else gcb_make_wait (asking k t i cnt) t (sem i) i c.sematr tmout

-- `tk_wai_sem`. CHECK_DISPATCH lets no call through without a task in execution.
unfoldable pub wai_sem : Kernel → ℕ → ℤ → ℤ → Kernel × Reply
unfolding wai_sem_by
wai_sem k i cnt tmout =
    if not (in_range i max_semid)
    then (k, ret e_id)
    else if not (is_positive cnt)
    then (k, ret e_par)
    else if not (is_tmout tmout)
    then (k, ret e_par)
    else if in_ddsp k
    then (k, ret e_ctx)
    else (elim k.ctxtsk [ none ↦ (k, ret e_ctx) | some t ↦ wai_sem_by k t i (magnitude cnt) tmout ])

-- `T_RSEM`
pub record TRsem : Type 0 where
  pub exinf : ℕ
  pub wtsk : ℕ
  pub semcnt : ℕ

-- `tk_ref_sem`; `td_ref_sem` has the same body.
unfoldable pub ref_sem : Kernel → ℕ → Er × Option TRsem
unfolding wait_tskid
ref_sem k i =
    if not (in_range i max_semid)
    then (e_id, none)
    else if (k.semcb i).semid == 0
    then (e_noexs, none)
    else (
      ok,
      some (record {
        exinf = (k.semcb i).exinf;
        wtsk = wait_tskid k (sem i);
        semcnt = (k.semcb i).semcnt;
      }),
    )
