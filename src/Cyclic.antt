-- ===== src/Cyclic.antt =====
-- The cyclic handlers of kernel/tkernel/time_calls.c and time_calls.h. The call of a user's handler,
-- `CallUserHandlerP1`, is an argument: it takes the address and the argument of the handler.
use esp32c3_mtk.Prelude.{
  ℕ, ◌+◌, ◌-◌, ◌*◌, ◌/◌, ◌%◌, ◌^◌, Bool, not, ◌&&◌, List, [], ◌∷◌, ◌++◌, Option, none, some, ltb,
  leb, ◌==◌, if◌then◌else◌,
}
use esp32c3_mtk.Bits.{any_bit, and_not, set_bit, clear_bit}
use esp32c3_mtk.Types.{Er, ok, value, e_rsatr, e_par, e_id, e_limit, e_noexs, cyctmeb, Cyccb}
use esp32c3_mtk.Kernel.{Kernel, update, in_range, max_cycid}
use esp32c3_mtk.Timer.{
  abstim_mod, sub_abstim, lltoul, abstim_reached, timer_period, timer_insert_abs, timer_delete,
}
use esp32c3_mtk.Semaphore.{count_from}
pub mod Phase

abbrev pub set_cyccb : Kernel → ℕ → Cyccb → Kernel
set_cyccb k i c = record k { cyccb = update k.cyccb i c }

-- `knl_cyclichandler_initialize`: NUM_CYCID is 16.
unfoldable pub cyclichandler_initialize : Kernel → Kernel
unfolding count_from
cyclichandler_initialize k = record k {
  cyccb = λ i. if in_range i max_cycid then record (k.cyccb i) { cychdr = 0 } else k.cyccb i;
  free_cyccb = count_from max_cycid 1;
}

-- `knl_cyc_next_time`, for a 32-bit tick; times wrap around.
unfoldable pub cyc_next_time : ℕ → Cyccb → ℕ
cyc_next_time cur c =
    let tm = (c.time + c.cyctim) % abstim_mod in
    if abstim_reached cur tm
    then ((sub_abstim cur c.time / c.cyctim + 1) * c.cyctim + c.time) % abstim_mod
    else tm

-- `knl_cyc_timer_insert`
unfoldable pub cyc_timer_insert : Kernel → ℕ → ℕ → Kernel
unfolding timer_insert_abs
cyc_timer_insert k i tm =
    timer_insert_abs (set_cyccb k i (record (k.cyccb i) { time = tm })) (cyctmeb i) tm

-- The common start of both calls of a handler: its next time.
unfoldable pub set_next_time : Kernel → ℕ → Kernel
unfolding cyc_timer_insert cyc_next_time
set_next_time k i = cyc_timer_insert k i (cyc_next_time (lltoul k.current_time) (k.cyccb i))

-- `knl_call_cychdr`
unfoldable pub call_cychdr : (ℕ → ℕ → Kernel → Kernel) → Kernel → ℕ → Kernel
unfolding set_next_time
call_cychdr user k i = user (k.cyccb i).cychdr (k.cyccb i).exinf (set_next_time k i)

-- `knl_immediate_call_cychdr`
unfoldable pub immediate_call_cychdr : (ℕ → ℕ → Kernel → Kernel) → Kernel → ℕ → Kernel
unfolding set_next_time
immediate_call_cychdr user k i =
    let k1 = set_next_time k i in
    let k2 = record k1 { taskindp = k1.taskindp + 1 } in
    let k3 = user (k.cyccb i).cychdr (k.cyccb i).exinf k2 in
    record k3 { taskindp = k3.taskindp - 1 }

-- `T_CCYC`
pub record TCcyc : Type 0 where
  pub exinf : ℕ
  pub cycatr : ℕ
  pub cychdr : ℕ
  pub cyctim : ℕ
  pub cycphs : ℕ

-- `tk_cre_cyc` from the free queue on; TCYC_STA is 1.
unfoldable pub create_in : (ℕ → ℕ → Kernel → Kernel) → Kernel → TCcyc → List ℕ → Kernel × Er
unfolding immediate_call_cychdr cyc_timer_insert
create_in user k p [] = (k, e_limit)
create_in user k p (i ∷ is) =
    let tm = (lltoul k.current_time + p.cycphs + timer_period) % abstim_mod in
    let start = any_bit p.cycatr 0x2 in
    let c : Cyccb = record {
      exinf = p.exinf;
      cycatr = p.cycatr;
      cychdr = p.cychdr;
      cycstat = if start then 1 else 0;
      cyctim = p.cyctim;
      time = if start && not (p.cycphs == 0) then (k.cyccb i).time else tm;
    } in
    let k1 = set_cyccb (record k { free_cyccb = is }) i c in
    if not start
    then (k1, value i)
    else if p.cycphs == 0
    then (immediate_call_cychdr user k1 i, value i)
    else (cyc_timer_insert k1 i tm, value i)

-- `tk_cre_cyc`: the valid attributes are TA_HLNG, TA_STA and TA_PHS.
unfoldable pub cre_cyc : (ℕ → ℕ → Kernel → Kernel) → Kernel → TCcyc → Kernel × Er
unfolding and_not create_in
cre_cyc user k p =
    if not (and_not p.cycatr 0x7 == 0)
    then (k, e_rsatr)
    else if p.cychdr == 0
    then (k, e_par)
    else if not (ltb 0 p.cyctim)
    then (k, e_par)
    else if not (leb p.cyctim 0x7fffffff)
    then (k, e_par)
    else create_in user k p k.free_cyccb

abbrev is_started : Cyccb → Bool
is_started c = any_bit c.cycstat 1

-- The removal of the event of a handler that is started.
unfoldable pub stopped : Kernel → ℕ → Kernel
unfolding timer_delete
stopped k i = if is_started (k.cyccb i) then timer_delete k (cyctmeb i) else k

-- `tk_del_cyc`
unfoldable pub del_cyc : Kernel → ℕ → Kernel × Er
unfolding stopped
del_cyc k i =
    if not (in_range i max_cycid)
    then (k, e_id)
    else if (k.cyccb i).cychdr == 0
    then (k, e_noexs)
    else (let k1 = record (stopped k i) { free_cyccb = k.free_cyccb ++ i ∷ [] } in
        (set_cyccb k1 i (record (k1.cyccb i) { cychdr = 0 }), ok))

-- The time of the next call of a handler that is not started and goes on in its phase.
unfoldable pub phase_time : ℕ → Cyccb → ℕ
unfolding cyc_next_time
phase_time cur c = if abstim_reached cur c.time then cyc_next_time cur c else c.time

-- The start by `tk_sta_cyc` of a handler, with TA_PHS in its phase and else from now on.
unfoldable pub start_from : Kernel → ℕ → Kernel
unfolding stopped phase_time cyc_timer_insert
start_from k i =
    let c = k.cyccb i in
    let cur = lltoul k.current_time in
    if not (any_bit c.cycatr 0x4)
    then cyc_timer_insert (stopped k i) i ((cur + c.cyctim + timer_period) % abstim_mod)
    else if is_started c
    then k
    else cyc_timer_insert k i (phase_time cur c)

-- `tk_sta_cyc`
unfoldable pub sta_cyc : Kernel → ℕ → Kernel × Er
unfolding start_from set_bit
sta_cyc k i =
    if not (in_range i max_cycid)
    then (k, e_id)
    else if (k.cyccb i).cychdr == 0
    then (k, e_noexs)
    else (let k1 = start_from k i in
        let c = k1.cyccb i in (set_cyccb k1 i (record c { cycstat = set_bit c.cycstat 0 }), ok))

-- `tk_stp_cyc`
unfoldable pub stp_cyc : Kernel → ℕ → Kernel × Er
unfolding stopped clear_bit
stp_cyc k i =
    if not (in_range i max_cycid)
    then (k, e_id)
    else if (k.cyccb i).cychdr == 0
    then (k, e_noexs)
    else (let k1 = stopped k i in
        let c = k1.cyccb i in (set_cyccb k1 i (record c { cycstat = clear_bit c.cycstat 0 }), ok))

-- `T_RCYC`
pub record TRcyc : Type 0 where
  pub exinf : ℕ
  pub lfttim : ℕ
  pub cycstat : ℕ

-- What `tk_ref_cyc` reports of a handler at a tick.
unfoldable pub left_of : ℕ → Cyccb → TRcyc
unfolding phase_time
left_of cur c =
    let now = (cur + timer_period) % abstim_mod in
    let tm = if is_started c then c.time else phase_time cur c in
    record {
      exinf = c.exinf;
      lfttim = if abstim_reached now tm then 0 else sub_abstim tm now;
      cycstat = c.cycstat;
    }

-- `tk_ref_cyc`
unfoldable pub ref_cyc : Kernel → ℕ → Option TRcyc × Er
unfolding left_of
ref_cyc k i =
    if not (in_range i max_cycid)
    then (none, e_id)
    else if (k.cyccb i).cychdr == 0
    then (none, e_noexs)
    else (some (left_of (lltoul k.current_time) (k.cyccb i)), ok)
