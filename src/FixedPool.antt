-- ===== src/FixedPool.antt =====
-- kernel/tkernel/mempfix.c and mempfix.h: the pools of memory blocks of one size. Each call takes the
-- lock of the pool, which has the pool's number. An address is a number.
pub mod Manage
pub mod Blocks
pub mod Calls
use esp32c3_mtk.Prelude.{
  ℕ, ◌+◌, ◌-◌, ◌%◌, ◌≡◌, Bool, true, false, not, ◌||◌, List, [], ◌∷◌, none, some, ltb, leb, ◌==◌,
  if◌then◌else◌,
}
use esp32c3_mtk.Bits.{any_bit}
use esp32c3_mtk.Types.{
  ℤ, Er, ok, e_par, e_id, e_ctx, e_noexs, Tcb, WSpec, wspec_mpf_tfifo, wspec_mpf_tpri, Head, mpf,
  Mpfcb, WInfo,
}
use esp32c3_mtk.Kernel.{
  Kernel, update, set_tcb, que_of, Reply, ret, pend, retry, in_ddsp, in_range, max_mpfid, is_tmout,
}
use esp32c3_mtk.Wait.{ta_tpri, wait_release_ok, gcb_make_wait, gcb_change_priority}
use esp32c3_mtk.ObjectLock.{lock_obj, unlock_obj}

abbrev pub set_mpfcb : Kernel → ℕ → Mpfcb → Kernel
set_mpfcb k i c = record k { mpfcb = update k.mpfcb i c }

-- `*p_blf = blf`, for the cell that the task's call gives.
abbrev pub set_p_blf : Kernel → ℕ → ℕ → Kernel
set_p_blf k t blf =
    set_tcb k t (record (k.tcb t) { winfo = record (k.tcb t).winfo { p_blf = blf } })

-- `knl_mpf_chg_pri`
unfoldable pub mpf_chg_pri : Kernel → ℕ → Kernel
unfolding gcb_change_priority
mpf_chg_pri k t = gcb_change_priority k (mpf (k.tcb t).wid) t

-- "Get memory block" of `tk_get_mpf`: the pool without the block, and the block.
unfoldable pub take_block : Mpfcb → Mpfcb × ℕ
take_block c =
    if not (c.freelist == 0)
    then (record c { freelist = c.link c.freelist; frbcnt = c.frbcnt - 1 }, c.freelist)
    else (record c { unused = c.unused + c.blfsz; frbcnt = c.frbcnt - 1 }, c.unused)

-- "Free memory block" of `tk_rel_mpf`.
unfoldable pub put_block : Mpfcb → ℕ → Mpfcb
put_block c blf = record c {
  link = update c.link blf c.freelist;
  freelist = blf;
  frbcnt = c.frbcnt + 1;
}

-- The branch `wait_mpf` of `tk_get_mpf`, up to `knl_gcb_make_wait`.
unfoldable pub asking : Kernel → ℕ → ℕ → Kernel
asking k t i = set_tcb k t (record (k.tcb t) {
  wspec = if any_bit (k.mpfcb i).mpfatr ta_tpri then wspec_mpf_tpri else wspec_mpf_tfifo;
})

-- `tk_get_mpf` once the task `t` in execution has the lock.
unfoldable pub get_locked : Kernel → ℕ → ℕ → ℤ → Kernel × Reply
unfolding take_block asking gcb_make_wait unlock_obj
get_locked k t i tmout =
    if (k.mpfcb i).mpfid == 0
    then (unlock_obj k i t, ret e_noexs)
    else if (k.mpfcb i).frbcnt == 0
    then (let r = gcb_make_wait (asking k t i) t (mpf i) i (k.mpfcb i).mpfatr tmout in
        (unlock_obj r.0 i t, r.1))
    else (let r = take_block (k.mpfcb i) in
        (unlock_obj (set_p_blf (set_mpfcb k i r.0) t r.1) i t, ret ok))

-- `tk_get_mpf`
unfoldable pub get_mpf_by : Kernel → ℕ → ℕ → ℤ → Kernel × Reply
unfolding get_locked lock_obj
get_mpf_by k t i tmout =
    let r = lock_obj k i t in
    let locked = get_locked r.0 t i tmout in if r.1 then locked else (r.0, retry)

unfoldable pub get_mpf : Kernel → ℕ → ℤ → Kernel × Reply
unfolding get_mpf_by
get_mpf k i tmout =
    if not (in_range i max_mpfid)
    then (k, ret e_id)
    else if not (is_tmout tmout)
    then (k, ret e_par)
    else if in_ddsp k
    then (k, ret e_ctx)
    else (elim k.ctxtsk [ none ↦ (k, ret e_ctx) | some t ↦ get_mpf_by k t i tmout ])

-- `blf < mpfcb->mempool || blf >= knl_mempool_end(mpfcb) || ((VB*)blf - (VB*)mpfcb->mempool) % mpfcb->blfsz != 0`
unfoldable pub is_no_block : Mpfcb → ℕ → Bool
is_no_block c blf =
    ltb blf c.mempool || leb (c.mempool + c.mpfsz) blf || not ((blf - c.mempool) % c.blfsz == 0)

-- The end of `tk_rel_mpf`, by the wait queue.
abbrev pub give_block : Kernel → ℕ → ℕ → List ℕ → Kernel
give_block k i blf [] = set_mpfcb k i (put_block (k.mpfcb i) blf)
give_block k i blf (u ∷ us) = wait_release_ok (set_p_blf k u blf) u

-- `tk_rel_mpf` once the task `t` in execution has the lock.
unfoldable pub rel_locked : Kernel → ℕ → ℕ → ℕ → Kernel × Reply
unfolding put_block wait_release_ok unlock_obj is_no_block
rel_locked k t i blf =
    if (k.mpfcb i).mpfid == 0
    then (unlock_obj k i t, ret e_noexs)
    else if is_no_block (k.mpfcb i) blf
    then (unlock_obj k i t, ret e_par)
    else (unlock_obj (give_block k i blf (que_of k (mpf i))) i t, ret ok)

unfoldable pub rel_mpf_by : Kernel → ℕ → ℕ → ℕ → Kernel × Reply
unfolding rel_locked lock_obj
rel_mpf_by k t i blf =
    let r = lock_obj k i t in
    let locked = rel_locked r.0 t i blf in if r.1 then locked else (r.0, retry)

-- `tk_rel_mpf`
unfoldable pub rel_mpf : Kernel → ℕ → ℕ → Kernel × Reply
unfolding rel_mpf_by
rel_mpf k i blf =
    if not (in_range i max_mpfid)
    then (k, ret e_id)
    else if in_ddsp k
    then (k, ret e_ctx)
    else (elim k.ctxtsk [ none ↦ (k, ret e_ctx) | some t ↦ rel_mpf_by k t i blf ])
