-- ===== src/EventFlag.antt =====
-- kernel/tkernel/eventflag.c and eventflag.h: the event flags.
pub mod Pattern
pub mod Set
pub mod Await
use esp32c3_mtk.Prelude.{
  ℕ, zero, suc, ◌+◌, ◌-◌, ◌≤◌, ◌<◌, ◌≡◌, bit_and, bit_or, Bool, true, false, not, ◌&&◌, ◌||◌, List,
  [], ◌∷◌, ◌++◌, Option, none, some, ◌==◌, if◌then◌else◌, is_empty,
}
use esp32c3_mtk.Bits.{any_bit, and_not}
use esp32c3_mtk.Types.{
  ℤ, Er, ok, value, e_rsatr, e_par, e_id, e_ctx, e_limit, e_noexs, e_obj, Tcb, WSpec,
  wspec_flg_tfifo, wspec_flg_tpri, Head, flg, set_que, Flgcb, WInfo,
}
use esp32c3_mtk.Kernel.{
  Kernel, update, set_tcb, que_of, set_queues, Reply, ret, pend, in_ddsp, in_range, max_flgid,
  is_tmout,
}
use esp32c3_mtk.Wait.{
  ta_tpri, wait_release_ok, wait_delete, wait_tskid, gcb_make_wait, gcb_change_priority,
}

abbrev pub ta_wmul : ℕ
ta_wmul = 0x8

abbrev pub twf_orw : ℕ
twf_orw = 0x1

abbrev pub twf_clr : ℕ
twf_clr = 0x10

abbrev pub twf_bitclr : ℕ
twf_bitclr = 0x20

abbrev pub set_flgcb : Kernel → ℕ → Flgcb → Kernel
set_flgcb k i c = record k { flgcb = update k.flgcb i c }

abbrev pub set_flgptn : Kernel → ℕ → ℕ → Kernel
set_flgptn k i p = set_flgcb k i (record (k.flgcb i) { flgptn = p })

abbrev pub waiptn_of : Kernel → ℕ → ℕ
waiptn_of k t = (k.tcb t).winfo.waiptn

abbrev pub wfmode_of : Kernel → ℕ → ℕ
wfmode_of k t = (k.tcb t).winfo.wfmode

-- `knl_eventflag_cond`, on the flag's pattern.
unfoldable pub eventflag_cond : ℕ → ℕ → ℕ → Bool
eventflag_cond flgptn waiptn wfmode =
    if any_bit wfmode twf_orw then any_bit flgptn waiptn else bit_and flgptn waiptn == waiptn

-- `T_CFLG`
pub record TCflg : Type 0 where
  pub exinf : ℕ
  pub flgatr : ℕ
  pub iflgptn : ℕ

-- `tk_cre_flg`
abbrev create_in : Kernel → TCflg → List ℕ → Kernel × Er
create_in k p [] = (k, e_limit)
create_in k p (i ∷ free) = (
  record (set_queues k (set_que k.rq.que (flg i) [])) {
    free_flgcb = free;
    flgcb =
        update k.flgcb i
          (record { flgid = i; exinf = p.exinf; flgatr = p.flgatr; flgptn = p.iflgptn });
  },
  value i,
)

unfoldable pub cre_flg : Kernel → TCflg → Kernel × Er
unfolding and_not
cre_flg k p = if not (and_not p.flgatr 0x9 == 0) then (k, e_rsatr) else create_in k p k.free_flgcb

-- `tk_del_flg`
unfoldable pub del_flg : Kernel → ℕ → Kernel × Er
unfolding wait_delete
del_flg k i =
    if not (in_range i max_flgid)
    then (k, e_id)
    else if (k.flgcb i).flgid == 0
    then (k, e_noexs)
    else (let k1 = wait_delete k (flg i) in
        (
          record (set_flgcb k1 i (record (k1.flgcb i) { flgid = 0 })) {
            free_flgcb = k1.free_flgcb ++ i ∷ [];
          },
          ok,
        ))

-- `*tcb->winfo.flg.p_flgptn = flgcb->flgptn`
unfoldable pub report : Kernel → ℕ → ℕ → Kernel
report k t p = set_tcb k t (record (k.tcb t) { winfo = record (k.tcb t).winfo { p_flgptn = p } })

-- The pattern once a wait with `waiptn` and `wfmode` is met, in `tk_set_flg` and `tk_wai_flg`.
unfoldable pub cleared : ℕ → ℕ → ℕ → ℕ
unfolding and_not
cleared flgptn waiptn wfmode =
    if any_bit wfmode twf_clr
    then 0
    else if any_bit wfmode twf_bitclr
    then and_not flgptn waiptn
    else flgptn

-- Whether the loop of `tk_set_flg` ends with this task.
abbrev pub ends_loop : ℕ → ℕ → ℕ → Bool
ends_loop flgptn waiptn wfmode =
    (any_bit wfmode twf_bitclr && and_not flgptn waiptn == 0) || any_bit wfmode twf_clr

-- One task of `tk_set_flg` whose condition is met.
unfoldable pub meet : Kernel → ℕ → ℕ → Kernel
meet k i t =
    let k' = wait_release_ok (report k t (k.flgcb i).flgptn) t in
    set_flgptn k' i (cleared (k.flgcb i).flgptn (waiptn_of k t) (wfmode_of k t))

-- The loop of `tk_set_flg`, over the tasks from `queue` on.
pub set_from : Kernel → ℕ → List ℕ → Kernel
set_from k i [] = k
set_from k i (t ∷ ts) =
    let skipped = set_from k i ts in
    let k' = meet k i t in
    let met = set_from k' i ts in
    if eventflag_cond (k.flgcb i).flgptn (waiptn_of k t) (wfmode_of k t)
    then (if ends_loop (k.flgcb i).flgptn (waiptn_of k t) (wfmode_of k t) then k' else met)
    else skipped

-- `tk_set_flg`
unfoldable pub set_flg : Kernel → ℕ → ℕ → Kernel × Er
unfolding set_from
set_flg k i setptn =
    if not (in_range i max_flgid)
    then (k, e_id)
    else if (k.flgcb i).flgid == 0
    then (k, e_noexs)
    else (set_from (set_flgptn k i (bit_or (k.flgcb i).flgptn setptn)) i (que_of k (flg i)), ok)

-- `tk_clr_flg`
unfoldable pub clr_flg : Kernel → ℕ → ℕ → Kernel × Er
clr_flg k i clrptn =
    if not (in_range i max_flgid)
    then (k, e_id)
    else if (k.flgcb i).flgid == 0
    then (k, e_noexs)
    else (set_flgptn k i (bit_and (k.flgcb i).flgptn clrptn), ok)

-- `flg_chg_pri`
unfoldable pub flg_chg_pri : Kernel → ℕ → Kernel
unfolding gcb_change_priority
flg_chg_pri k t = gcb_change_priority k (flg (k.tcb t).wid) t

-- The branch "Ready for wait" of `tk_wai_flg`, up to `knl_gcb_make_wait`.
unfoldable pub asking : Kernel → ℕ → ℕ → ℕ → ℕ → Kernel
asking k t i waiptn wfmode = set_tcb k t (record (k.tcb t) {
  wspec = if any_bit (k.flgcb i).flgatr ta_tpri then wspec_flg_tpri else wspec_flg_tfifo;
  winfo = record (k.tcb t).winfo { waiptn = waiptn; wfmode = wfmode };
})

-- `tk_wai_flg`, once the task in execution is known to be `t`.
unfoldable pub wai_flg_by : Kernel → ℕ → ℕ → ℕ → ℕ → ℤ → Kernel × Reply
wai_flg_by k t i waiptn wfmode tmout =
    let c = k.flgcb i in
    if c.flgid == 0
    then (k, ret e_noexs)
    else if not (any_bit c.flgatr ta_wmul) && not (is_empty (que_of k (flg i)))
    then (k, ret e_obj)
    else if eventflag_cond c.flgptn waiptn wfmode
    then (set_flgptn (report k t c.flgptn) i (cleared c.flgptn waiptn wfmode), ret ok)
    else gcb_make_wait (asking k t i waiptn wfmode) t (flg i) i c.flgatr tmout

-- `tk_wai_flg`. CHECK_DISPATCH lets no call through without a task in execution.
unfoldable pub wai_flg : Kernel → ℕ → ℕ → ℕ → ℤ → Kernel × Reply
wai_flg k i waiptn wfmode tmout =
    if not (in_range i max_flgid)
    then (k, ret e_id)
    else if waiptn == 0
    then (k, ret e_par)
    else if not (and_not wfmode 0x31 == 0)
    then (k, ret e_par)
    else if not (is_tmout tmout)
    then (k, ret e_par)
    else if in_ddsp k
    then (k, ret e_ctx)
    else (elim k.ctxtsk [ none ↦ (k, ret e_ctx) | some t ↦ wai_flg_by k t i waiptn wfmode tmout ])

-- `T_RFLG`
pub record TRflg : Type 0 where
  pub exinf : ℕ
  pub wtsk : ℕ
  pub flgptn : ℕ

-- `tk_ref_flg`
unfoldable pub ref_flg : Kernel → ℕ → Er × Option TRflg
unfolding wait_tskid
ref_flg k i =
    if not (in_range i max_flgid)
    then (e_id, none)
    else if (k.flgcb i).flgid == 0
    then (e_noexs, none)
    else (
      ok,
      some (record {
        exinf = (k.flgcb i).exinf;
        wtsk = wait_tskid k (flg i);
        flgptn = (k.flgcb i).flgptn;
      }),
    )
