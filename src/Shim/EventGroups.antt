-- ===== src/Shim/EventGroups.antt =====
-- components/freertos_shim/shim_evtgrp.c: event groups on the event flags of the kernel.
pub mod Clearing
use esp32c3_mtk.Prelude.{
  ℕ, ◌+◌, ◌-◌, ◌^◌, Bool, true, false, not, ◌&&◌, Option, none, some, ltb, ◌==◌, if◌then◌else◌,
}
use esp32c3_mtk.Types.{Er, ok}
use esp32c3_mtk.Kernel.{Kernel, Reply, ret, pend, retry}
use esp32c3_mtk.EventFlag.{
  ta_wmul, twf_orw, TRflg, cre_flg, del_flg, set_flg, clr_flg, wai_flg, ref_flg,
}
use esp32c3_mtk.Shim.{
  Object, no_object, evtgrp, Shim, set_object, set_kernel, id_of, is_ok, shim_tmo,
}

-- `~bits`, of a UINT.
abbrev pub complement : ℕ → ℕ
complement bits = 2 ^ 32 - 1 - bits

-- `xEventGroupCreate`: the handle, 0 for NULL. `address` is what heap_caps_malloc returns.
unfoldable pub event_group_create : Shim → ℕ → Shim × ℕ
unfolding cre_flg
event_group_create s address =
    let made = cre_flg s.kernel (record { exinf = 0; flgatr = ta_wmul; iflgptn = 0 }) in
    let id = id_of made.1 in
    if address == 0
    then (s, 0)
    else if not (ltb 0 id)
    then (set_kernel s made.0, 0)
    else (set_object (set_kernel s made.0) address (evtgrp id), address)

-- The functions take the ID of the event flag that the handle leads to.
-- `vEventGroupDelete`
unfoldable pub event_group_delete : Shim → ℕ → ℕ → Shim
unfolding del_flg
event_group_delete s eg flg_id = set_object (set_kernel s (del_flg s.kernel flg_id).0) eg no_object

-- The pattern that `tk_ref_flg` reads; what it leaves in `rflg` where it fails is a parameter.
abbrev pub pattern_or : ℕ → Option TRflg → ℕ
pattern_or unset none = unset
pattern_or unset (some r) = r.flgptn

-- `xEventGroupSetBits`
unfoldable pub event_group_set_bits : ℕ → Shim → ℕ → ℕ → Shim × ℕ
unfolding set_flg ref_flg
event_group_set_bits unset s flg_id bits =
    let k = (set_flg s.kernel flg_id bits).0 in
    (set_kernel s k, pattern_or unset (ref_flg k flg_id).1)

-- `xEventGroupSetBitsFromISR`
unfoldable pub event_group_set_bits_from_isr : Shim → ℕ → ℕ → Shim × Bool
unfolding set_flg
event_group_set_bits_from_isr s flg_id bits =
    let r = set_flg s.kernel flg_id bits in (set_kernel s r.0, is_ok r.1)

-- `xEventGroupClearBits`
unfoldable pub event_group_clear_bits : ℕ → Shim → ℕ → ℕ → Shim × ℕ
unfolding clr_flg ref_flg
event_group_clear_bits unset s flg_id bits = (
  set_kernel s (clr_flg s.kernel flg_id (complement bits)).0,
  pattern_or unset (ref_flg s.kernel flg_id).1,
)

-- The end of `xEventGroupWaitBits`, with the code and the pattern that `tk_wai_flg` gave.
unfoldable pub wait_bits_end : Shim → ℕ → Bool → Er → ℕ → Shim × ℕ
unfolding clr_flg
wait_bits_end s flg_id clr_on_exit er result =
    if is_ok er && clr_on_exit
    then (set_kernel s (clr_flg s.kernel flg_id (complement result)).0, result)
    else (s, result)

-- The pattern that a call of `tk_wai_flg` which returned E_OK left for the task in execution; the
-- variable is 0 before.
abbrev pub result_of : Kernel → Er → ℕ
result_of k ok = elim k.ctxtsk [ none ↦ 0 | some t ↦ (k.tcb t).winfo.p_flgptn ]
result_of k _ = 0

-- `xEventGroupWaitBits`: nothing, if its task waits; a task that comes back from the wait goes on with
-- `wait_bits_end`.
abbrev pub after_wai_flg : Shim → ℕ → Bool → Reply → Shim × Option ℕ
after_wai_flg s flg_id clr_on_exit (ret er) =
    let out = wait_bits_end s flg_id clr_on_exit er (result_of s.kernel er) in (out.0, some out.1)
after_wai_flg s flg_id clr_on_exit _ = (s, none)

unfoldable pub event_group_wait_bits : Shim → ℕ → ℕ → Bool → Bool → ℕ → Shim × Option ℕ
unfolding wai_flg shim_tmo wait_bits_end
event_group_wait_bits s flg_id bits clr_on_exit wait_all ticks =
    let mode = if wait_all then 0 else twf_orw in
    let w = wai_flg s.kernel flg_id bits mode (shim_tmo ticks) in
    after_wai_flg (set_kernel s w.0) flg_id clr_on_exit w.1

-- `xEventGroupGetBits`
unfoldable pub event_group_get_bits : Shim → ℕ → ℕ
unfolding ref_flg
event_group_get_bits s flg_id = pattern_or 0 (ref_flg s.kernel flg_id).1

-- `xEventGroupSync`
unfoldable pub event_group_sync : ℕ → Shim → ℕ → ℕ → ℕ → ℕ → Shim × Option ℕ
unfolding event_group_set_bits event_group_wait_bits
event_group_sync unset s flg_id bits wait ticks =
    event_group_wait_bits (event_group_set_bits unset s flg_id bits).0 flg_id wait true true ticks
