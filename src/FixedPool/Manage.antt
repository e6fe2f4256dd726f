-- ===== src/FixedPool/Manage.antt =====
-- The creation, deletion and inspection of the pools of kernel/tkernel/mempfix.c. What `knl_Imalloc`
-- returns is an argument of the call that creates a pool, and `knl_Ifree` is left out: the allocator
-- of kernel/tkernel/memory.c is not modelled.
use esp32c3_mtk.Prelude.{
  ℕ, ◌*◌, ◌%◌, ◌^◌, false, not, List, [], ◌∷◌, ◌++◌, Option, none, some, ◌==◌, if◌then◌else◌,
}
use esp32c3_mtk.Bits.{any_bit, and_not}
use esp32c3_mtk.Types.{
  ℤ, Er, ok, value, e_rsatr, e_par, e_id, e_ctx, e_limit, e_noexs, e_nomem, mpf, set_que, Mpfcb,
}
use esp32c3_mtk.Kernel.{
  Kernel, set_queues, Reply, ret, retry, in_ddsp, in_range, max_mpfid, is_positive, magnitude,
}
use esp32c3_mtk.Wait.{wait_delete, wait_tskid}
use esp32c3_mtk.Semaphore.{count_from}
use esp32c3_mtk.MessageRing.{roundsz}
use esp32c3_mtk.ObjectLock.{lock_obj, unlock_obj}
use esp32c3_mtk.FixedPool.{set_mpfcb}

-- `knl_fix_memorypool_initialize`: NUM_MPFID is 8.
unfoldable pub fix_memorypool_initialize : Kernel → Kernel
unfolding count_from
fix_memorypool_initialize k = record k {
  mpfcb = λ i. if in_range i max_mpfid then record (k.mpfcb i) { mpfid = 0 } else k.mpfcb i;
  lock_taken = λ i. if in_range i max_mpfid then false else k.lock_taken i;
  free_mpfcb = count_from max_mpfid 1;
}

-- `T_CMPF`
pub record TCmpf : Type 0 where
  pub exinf : ℕ
  pub mpfatr : ℕ
  pub mpfcnt : ℤ
  pub blfsz : ℤ
  pub bufptr : ℕ

-- `MINSZ`: a FREEL is one pointer of 4 bytes, as a message header is.
unfoldable pub minsz : ℕ → ℕ
unfolding roundsz
minsz sz = roundsz sz

-- The control block that `tk_cre_mpf` fills in; `mpfsz` is a W.
unfoldable pub new_pool : ℕ → TCmpf → ℕ → ℕ → Mpfcb → Mpfcb
new_pool i p blfsz mempool c = record c {
  mpfid = i;
  exinf = p.exinf;
  mpfatr = p.mpfatr;
  mpfcnt = magnitude p.mpfcnt;
  frbcnt = magnitude p.mpfcnt;
  blfsz = blfsz;
  mpfsz = blfsz * magnitude p.mpfcnt % 2 ^ 32;
  unused = mempool;
  mempool = mempool;
  freelist = 0;
}

-- `tk_cre_mpf` from the free queue on, for the task `t` in execution. The lock of a free block is not
-- taken.
abbrev create_in : Kernel → ℕ → TCmpf → ℕ → ℕ → List ℕ → Kernel × Reply
create_in k t p blfsz mempool [] = (k, ret e_limit)
create_in k t p blfsz mempool (i ∷ free) =
    let k1 = record k { free_mpfcb = free } in
    let r = lock_obj k1 i t in
    let k2 = set_queues r.0 (set_que r.0.rq.que (mpf i) []) in
    let k3 = set_mpfcb k2 i (new_pool i p blfsz mempool (k2.mpfcb i)) in
    if r.1 then (unlock_obj k3 i t, ret (value i)) else (r.0, retry)

-- `tk_cre_mpf`; USE_OBJECT_NAME is 0. `imalloc` is what `knl_Imalloc` returns for a size: an address or
-- nothing.
unfoldable pub cre_mpf_by : (ℕ → Option ℕ) → Kernel → ℕ → TCmpf → Kernel × Reply
unfolding minsz new_pool lock_obj unlock_obj
cre_mpf_by imalloc k t p =
    let blfsz = minsz (magnitude p.blfsz) in
    if any_bit p.mpfatr 0x20
    then (if not (blfsz == magnitude p.blfsz)
        then (k, ret e_par)
        else create_in k t p blfsz p.bufptr k.free_mpfcb)
    else (elim (imalloc (blfsz * magnitude p.mpfcnt % 2 ^ 32)) [
      | none ↦ (k, ret e_nomem)
      | some mempool ↦ create_in k t p blfsz mempool k.free_mpfcb
    ])

unfoldable pub cre_mpf : (ℕ → Option ℕ) → Kernel → TCmpf → Kernel × Reply
unfolding and_not cre_mpf_by
cre_mpf imalloc k p =
    if not (and_not p.mpfatr 0x321 == 0)
    then (k, ret e_rsatr)
    else if not (is_positive p.mpfcnt)
    then (k, ret e_par)
    else if not (is_positive p.blfsz)
    then (k, ret e_par)
    else if in_ddsp k
    then (k, ret e_ctx)
    else (elim k.ctxtsk [ none ↦ (k, ret e_ctx) | some t ↦ cre_mpf_by imalloc k t p ])

-- `tk_del_mpf` once the task `t` in execution has the lock.
unfoldable pub del_locked : Kernel → ℕ → ℕ → Kernel × Reply
unfolding wait_delete unlock_obj
del_locked k t i =
    if (k.mpfcb i).mpfid == 0
    then (unlock_obj k i t, ret e_noexs)
    else (let k1 = wait_delete k (mpf i) in
        let k2 = record (set_mpfcb k1 i (record (k1.mpfcb i) { mpfid = 0 })) {
          free_mpfcb = k1.free_mpfcb ++ i ∷ [];
        } in
        (unlock_obj k2 i t, ret ok))

unfoldable pub del_mpf_by : Kernel → ℕ → ℕ → Kernel × Reply
unfolding del_locked lock_obj
del_mpf_by k t i =
    let r = lock_obj k i t in
    let locked = del_locked r.0 t i in if r.1 then locked else (r.0, retry)

-- `tk_del_mpf`
unfoldable pub del_mpf : Kernel → ℕ → Kernel × Reply
unfolding del_mpf_by
del_mpf k i =
    if not (in_range i max_mpfid)
    then (k, ret e_id)
    else if in_ddsp k
    then (k, ret e_ctx)
    else (elim k.ctxtsk [ none ↦ (k, ret e_ctx) | some t ↦ del_mpf_by k t i ])

-- `T_RMPF`
pub record TRmpf : Type 0 where
  pub exinf : ℕ
  pub wtsk : ℕ
  pub frbcnt : ℕ

-- `td_ref_mpf`
unfoldable pub td_ref_mpf : Kernel → ℕ → Er × Option TRmpf
unfolding wait_tskid
td_ref_mpf k i =
    if not (in_range i max_mpfid)
    then (e_id, none)
    else if (k.mpfcb i).mpfid == 0
    then (e_noexs, none)
    else if k.lock_taken i
    then (e_ctx, none)
    else (
      ok,
      some (record {
        exinf = (k.mpfcb i).exinf;
        wtsk = wait_tskid k (mpf i);
        frbcnt = (k.mpfcb i).frbcnt;
      }),
    )
