-- ===== src/Mutex/Manage.antt =====
-- The creation, deletion and inspection of mutexes, and the limits that mutexes set to
-- a change of priority (kernel/tkernel/mutex.c).
use esp32c3_mtk.Prelude.{
  ℕ, ◌-◌, Bool, true, false, not, ◌&&◌, List, [], ◌∷◌, ◌++◌, Option, none, some, ltb, ◌==◌,
  if◌then◌else◌, bit_and,
}
use esp32c3_mtk.Bits.{and_not}
use esp32c3_mtk.Types.{
  Er, ok, value, e_rsatr, e_par, e_id, e_limit, e_noexs, WSpec, wspec_mtx_tfifo, wspec_mtx_tpri,
  wspec_mtx_inherit, mtx, set_que, in_wait,
}
use esp32c3_mtk.Kernel.{Kernel, update, set_queues, in_range, max_mtxid}
use esp32c3_mtk.ReadyQueue.{num_tskpri}
use esp32c3_mtk.Wait.{wait_delete, wait_tskid}
use esp32c3_mtk.Semaphore.{count_from}
use esp32c3_mtk.Mutex.{ta_ceiling, kind_of, set_mtxcb, pri_after, release_mutex}

-- `knl_mutex_initialize`: NUM_MTXID is 64.
unfoldable pub mutex_initialize : Kernel → Kernel
unfolding count_from
mutex_initialize k = record k {
  mtxcb = λ i. if in_range i max_mtxid then record (k.mtxcb i) { mtxid = 0 } else k.mtxcb i;
  free_mtxcb = count_from max_mtxid 1;
}

-- `T_CMTX`
pub record TCmtx : Type 0 where
  pub exinf : ℕ
  pub mtxatr : ℕ
  pub ceilpri : ℕ

-- `tk_cre_mtx`; USE_OBJECT_NAME is 0.
abbrev create_in : Kernel → TCmtx → ℕ → List ℕ → Kernel × Er
create_in k p ceilpri [] = (k, e_limit)
create_in k p ceilpri (i ∷ free) = (
  record (set_queues k (set_que k.rq.que (mtx i) [])) {
    free_mtxcb = free;
    mtxcb = update k.mtxcb i (record {
      mtxid = i;
      exinf = p.exinf;
      mtxatr = p.mtxatr;
      ceilpri = ceilpri;
      mtxtsk = none;
    });
  },
  value i,
)

unfoldable pub cre_mtx : Kernel → TCmtx → Kernel × Er
unfolding and_not
cre_mtx k p =
    if not (and_not p.mtxatr ta_ceiling == 0)
    then (k, e_rsatr)
    else if not (bit_and p.mtxatr ta_ceiling == ta_ceiling)
    then create_in k p 0 k.free_mtxcb
    else if not (in_range p.ceilpri num_tskpri)
    then (k, e_par)
    else create_in k p (p.ceilpri - 1) k.free_mtxcb

-- The release of a mutex that is deleted, by its holder.
abbrev released_by : (Kernel → ℕ → ℕ → Kernel) → Kernel → ℕ → Option ℕ → Kernel
released_by change k i none = k
released_by change k i (some h) = release_mutex change k h (some i)

-- `tk_del_mtx`
unfoldable pub del_mtx : (Kernel → ℕ → ℕ → Kernel) → Kernel → ℕ → Kernel × Er
unfolding wait_delete release_mutex
del_mtx change k i =
    if not (in_range i max_mtxid)
    then (k, e_id)
    else if (k.mtxcb i).mtxid == 0
    then (k, e_noexs)
    else (let k1 = wait_delete (released_by change k i (k.mtxcb i).mtxtsk) (mtx i) in
        (
          record (set_mtxcb k1 i (record (k1.mtxcb i) { mtxid = 0 })) {
            free_mtxcb = k1.free_mtxcb ++ i ∷ [];
          },
          ok,
        ))

-- `tcb->wspec->tskwait & TTW_MTX`
abbrev pub is_mtx : WSpec → Bool
is_mtx wspec_mtx_tfifo = true
is_mtx wspec_mtx_tpri = true
is_mtx wspec_mtx_inherit = true
is_mtx _ = false

-- The loop of `knl_chg_pri_mutex`: `hi_pri` and `low_pri` after it.
unfoldable pub limits_from : Kernel → ℕ → ℕ → ℕ → List ℕ → ℕ × ℕ
unfolding pri_after
limits_from k hi low pri [] = (hi, low)
limits_from k hi low pri (i ∷ is) =
    let pri' = pri_after k i pri in
    let low' = if kind_of k i == ta_ceiling && ltb low pri' then pri' else low in
    limits_from k (if ltb pri' hi then pri' else hi) low' pri' is

-- `knl_chg_pri_mutex`: the priority, or nothing for E_ILUSE.
unfoldable pub chg_pri_mutex : Kernel → ℕ → ℕ → Option ℕ
unfolding limits_from
chg_pri_mutex k t priority =
    let i = (k.tcb t).wid in
    let low =
      if in_wait (k.tcb t).state && is_mtx (k.tcb t).wspec && kind_of k i == ta_ceiling
      then (k.mtxcb i).ceilpri
      else 0 in
    let limits = limits_from k priority low priority (k.tcb t).mtxlist in
    if ltb priority limits.1 then none else some limits.0

-- `T_RMTX`
pub record TRmtx : Type 0 where
  pub exinf : ℕ
  pub htsk : ℕ
  pub wtsk : ℕ

-- `tk_ref_mtx`; `td_ref_mtx` has the same body.
unfoldable pub ref_mtx : Kernel → ℕ → Er × Option TRmtx
unfolding wait_tskid
ref_mtx k i =
    if not (in_range i max_mtxid)
    then (e_id, none)
    else if (k.mtxcb i).mtxid == 0
    then (e_noexs, none)
    else (
      ok,
      some (record {
        exinf = (k.mtxcb i).exinf;
        htsk = elim (k.mtxcb i).mtxtsk [ none ↦ 0 | some t ↦ t ];
        wtsk = wait_tskid k (mtx i);
      }),
    )
