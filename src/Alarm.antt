-- ===== src/Alarm.antt =====
-- The alarm handlers of kernel/tkernel/time_calls.c and time_calls.h. The call of a user's handler,
-- `CallUserHandlerP1`, is an argument: it takes the address and the argument of the handler.
use esp32c3_mtk.Prelude.{
  ℕ, ◌+◌, ◌-◌, ◌%◌, Bool, not, List, [], ◌∷◌, ◌++◌, Option, none, some, ltb, leb, ◌==◌,
  if◌then◌else◌,
}
use esp32c3_mtk.Bits.{any_bit, and_not, set_bit, clear_bit}
use esp32c3_mtk.Types.{Er, ok, value, e_rsatr, e_par, e_id, e_limit, e_noexs, almtmeb, Almcb}
use esp32c3_mtk.Kernel.{Kernel, update, in_range, max_almid}
use esp32c3_mtk.Timer.{
  abstim_mod, sub_abstim, lltoul, abstim_reached, timer_period, timer_insert_abs, timer_delete,
}
use esp32c3_mtk.Semaphore.{count_from}

abbrev pub set_almcb : Kernel → ℕ → Almcb → Kernel
set_almcb k i c = record k { almcb = update k.almcb i c }

-- `knl_alarmhandler_initialize`: NUM_ALMID is 32.
unfoldable pub alarmhandler_initialize : Kernel → Kernel
unfolding count_from
alarmhandler_initialize k = record k {
  almcb = λ i. if in_range i max_almid then record (k.almcb i) { almhdr = 0 } else k.almcb i;
  free_almcb = count_from max_almid 1;
}

-- `almstat |= TALM_STA` and `almstat &= ~TALM_STA`; TALM_STA is 1.
unfoldable pub alm_started : Kernel → ℕ → Kernel
unfolding set_bit
alm_started k i = set_almcb k i (record (k.almcb i) { almstat = set_bit (k.almcb i).almstat 0 })

unfoldable pub alm_stopped : Kernel → ℕ → Kernel
unfolding clear_bit
alm_stopped k i = set_almcb k i (record (k.almcb i) { almstat = clear_bit (k.almcb i).almstat 0 })

-- `knl_alm_timer_insert`
unfoldable pub alm_timer_insert : Kernel → ℕ → ℕ → Kernel
unfolding timer_insert_abs
alm_timer_insert k i reltim =
    let tm = (lltoul k.current_time + reltim + timer_period) % abstim_mod in
    timer_insert_abs (set_almcb k i (record (k.almcb i) { time = tm })) (almtmeb i) tm

-- `knl_call_almhdr`
unfoldable pub call_almhdr : (ℕ → ℕ → Kernel → Kernel) → Kernel → ℕ → Kernel
unfolding alm_stopped
call_almhdr user k i = user (k.almcb i).almhdr (k.almcb i).exinf (alm_stopped k i)

-- `knl_immediate_call_almhdr`
unfoldable pub immediate_call_almhdr : (ℕ → ℕ → Kernel → Kernel) → Kernel → ℕ → Kernel
unfolding alm_stopped
immediate_call_almhdr user k i =
    let k1 = alm_stopped k i in
    let k2 = record k1 { taskindp = k1.taskindp + 1 } in
    let k3 = user (k.almcb i).almhdr (k.almcb i).exinf k2 in
    record k3 { taskindp = k3.taskindp - 1 }

-- `T_CALM`
pub record TCalm : Type 0 where
  pub exinf : ℕ
  pub almatr : ℕ
  pub almhdr : ℕ

-- `tk_cre_alm` from the free queue on.
unfoldable pub create_in : Kernel → TCalm → List ℕ → Kernel × Er
create_in k p [] = (k, e_limit)
create_in k p (i ∷ is) =
    let c = record (k.almcb i) {
      exinf = p.exinf;
      almatr = p.almatr;
      almhdr = p.almhdr;
      almstat = 0;
    } in
    (set_almcb (record k { free_almcb = is }) i c, value i)

-- `tk_cre_alm`: the valid attribute is TA_HLNG.
unfoldable pub cre_alm : Kernel → TCalm → Kernel × Er
unfolding and_not create_in
cre_alm k p =
    if not (and_not p.almatr 0x1 == 0)
    then (k, e_rsatr)
    else if p.almhdr == 0
    then (k, e_par)
    else create_in k p k.free_almcb

abbrev pub is_started : Almcb → Bool
is_started c = any_bit c.almstat 1

-- The removal of the event of a handler that is started.
unfoldable pub cancelled : Kernel → ℕ → Kernel
unfolding timer_delete
cancelled k i = if is_started (k.almcb i) then timer_delete k (almtmeb i) else k

-- `tk_del_alm`
unfoldable pub del_alm : Kernel → ℕ → Kernel × Er
unfolding cancelled
del_alm k i =
    if not (in_range i max_almid)
    then (k, e_id)
    else if (k.almcb i).almhdr == 0
    then (k, e_noexs)
    else (let k1 = record (cancelled k i) { free_almcb = k.free_almcb ++ i ∷ [] } in
        (set_almcb k1 i (record (k1.almcb i) { almhdr = 0 }), ok))

-- `tk_sta_alm`
unfoldable pub sta_alm : (ℕ → ℕ → Kernel → Kernel) → Kernel → ℕ → ℕ → Kernel × Er
unfolding cancelled alm_timer_insert alm_started immediate_call_almhdr
sta_alm user k i almtim =
    if not (in_range i max_almid)
    then (k, e_id)
    else if leb 0x80000000 almtim
    then (k, e_par)
    else if (k.almcb i).almhdr == 0
    then (k, e_noexs)
    else (let k1 = cancelled k i in
        if ltb 0 almtim
        then (alm_started (alm_timer_insert k1 i almtim) i, ok)
        else (immediate_call_almhdr user k1 i, ok))

-- `tk_stp_alm`
unfoldable pub stp_alm : Kernel → ℕ → Kernel × Er
unfolding timer_delete alm_stopped
stp_alm k i =
    if not (in_range i max_almid)
    then (k, e_id)
    else if (k.almcb i).almhdr == 0
    then (k, e_noexs)
    else if is_started (k.almcb i)
    then (alm_stopped (timer_delete k (almtmeb i)) i, ok)
    else (k, ok)

-- `T_RALM`
pub record TRalm : Type 0 where
  pub exinf : ℕ
  pub lfttim : ℕ
  pub almstat : ℕ

-- What `tk_ref_alm` reports of a handler at a tick.
unfoldable pub left_of : ℕ → Almcb → TRalm
left_of cur c =
    let now = (cur + timer_period) % abstim_mod in
    record {
      exinf = c.exinf;
      lfttim =
          if not (is_started c)
          then 0
          else if abstim_reached now c.time
          then 0
          else sub_abstim c.time now;
      almstat = c.almstat;
    }

-- `tk_ref_alm`
unfoldable pub ref_alm : Kernel → ℕ → Option TRalm × Er
unfolding left_of
ref_alm k i =
    if not (in_range i max_almid)
    then (none, e_id)
    else if (k.almcb i).almhdr == 0
    then (none, e_noexs)
    else (some (left_of (lltoul k.current_time) (k.almcb i)), ok)
