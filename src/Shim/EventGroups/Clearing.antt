-- ===== src/Shim/EventGroups/Clearing.antt =====
-- Which bits a wait of components/freertos_shim/shim_evtgrp.c clears.
use esp32c3_mtk.Prelude.{
  ℕ, zero, suc, ◌-◌, ◌/◌, ◌^◌, ◌<◌, ◌≡◌, bit_and, Bool, true, false, Option, some, ◌==◌,
  if◌then◌else◌, arith, refl, ap, ◌∙◌,
}
use native.Mathlib.Nat.{pow-suc}
use esp32c3_mtk.Bits.{any_bit, and_not, bit_and_step, zero-bit_and}
use esp32c3_mtk.Types.{Er, ok}
use esp32c3_mtk.Kernel.{Kernel, Reply, ret, in_range, max_flgid, in_ddsp, is_tmout}
use esp32c3_mtk.EventFlag.{
  ta_wmul, twf_orw, eventflag_cond, clr_flg, wai_flg, wai_flg_by, set_flgptn, report, cleared,
}
use esp32c3_mtk.Shim.{Shim, shim_tmo, set_kernel}
use esp32c3_mtk.Shim.EventGroups.{
  complement, after_wai_flg, result_of, event_group_wait_bits, wait_bits_end,
}

bit_and-rest : (n w : ℕ) → w < 2 ^ n → bit_and w (2 ^ n - 1 - w) ≡ 0
bit_and-rest zero w h = let none_set : w ≡ 0 = omega arith in rw none_set (zero-bit_and (0 - 0))
bit_and-rest (suc n) w h =
    let m = 2 ^ suc n - 1 - w in
    let half : m / 2 ≡ 2 ^ n - 1 - w / 2 = omega (arith, pow-suc 2 n) in
    let ih : bit_and (w / 2) (m / 2) ≡ 0 =
      rw half (bit_and-rest n (w / 2) (omega (arith, pow-suc 2 n))) in
    omega (arith, bit_and_step w m, ih, pow-suc 2 n)

-- A pattern has no bit in common with its complement.
bit_and-complement : (w : ℕ) → w < 2 ^ 32 → bit_and w (complement w) ≡ 0
bit_and-complement w h = bit_and-rest 32 w h

-- A wait that need not wait, for all or any of the bits.
wai_flg_met :
    (k : Kernel) (i t bits : ℕ) (wait_all : Bool) (ticks : ℕ)
    → in_range i max_flgid ≡ true
    → (k.flgcb i).flgid == 0 ≡ false
    → any_bit (k.flgcb i).flgatr ta_wmul ≡ true
    → in_ddsp k ≡ false
    → k.ctxtsk ≡ some t
    → bits == 0 ≡ false
    → is_tmout (shim_tmo ticks) ≡ true
    → let mode = if wait_all then 0 else twf_orw in
      eventflag_cond (k.flgcb i).flgptn bits mode ≡ true
      → wai_flg k i bits mode (shim_tmo ticks)
        ≡ (set_flgptn (report k t (k.flgcb i).flgptn) i (k.flgcb i).flgptn, ret ok)
unfolding wai_flg wai_flg_by cleared and_not
wai_flg_met k i t bits true ticks hi hu hm hd run hb ht c =
    ground (arith, hi, hu, hm, hd, run, hb, ht, c)
wai_flg_met k i t bits false ticks hi hu hm hd run hb ht c =
    ground (arith, hi, hu, hm, hd, run, hb, ht, c)

clr_flg_in_use :
    (k : Kernel) (i clrptn : ℕ)
    → in_range i max_flgid ≡ true
    → (k.flgcb i).flgid == 0 ≡ false
    → clr_flg k i clrptn ≡ (set_flgptn k i (bit_and (k.flgcb i).flgptn clrptn), ok)
unfolding clr_flg
clr_flg_in_use k i clrptn hi hu = ground (arith, hi, hu)

-- The end of a wait that got the pattern `ptn` of an event flag which still has it.
wait_bits_end-clears :
    (s : Shim) (i ptn : ℕ)
    → in_range i max_flgid ≡ true
    → (s.kernel.flgcb i).flgid == 0 ≡ false
    → (s.kernel.flgcb i).flgptn ≡ ptn
    → ptn < 2 ^ 32
    → let out = wait_bits_end s i true ok ptn in (out.1 ≡ ptn) × ((out.0.kernel.flgcb i).flgptn ≡ 0)
unfolding wait_bits_end
wait_bits_end-clears s i ptn hi hu hc hp = (
  refl,
  ap (λ (r : Kernel × Er). (r.0.flgcb i).flgptn) (clr_flg_in_use s.kernel i (complement ptn) hi hu)
      ∙ ground (arith, hc, bit_and-complement ptn hp),
)

unchanged_id :
    (k : Kernel) (i t p : ℕ)
    → (k.flgcb i).flgid == 0 ≡ false
    → ((set_flgptn (report k t p) i p).flgcb i).flgid == 0 ≡ false
unfolding report
unchanged_id k i t p h = ground (arith, h)

unchanged_pattern : (k : Kernel) (i t p : ℕ) → ((set_flgptn (report k t p) i p).flgcb i).flgptn ≡ p
unfolding report
unchanged_pattern k i t p = ground arith

reported :
    (k : Kernel) (i t p : ℕ) → k.ctxtsk ≡ some t → result_of (set_flgptn (report k t p) i p) ok ≡ p
unfolding report
reported k i t p run = ground (arith, run)

-- `xEventGroupWaitBits` with `clr_on_exit`, for bits that are set, by a task that may wait, on an
-- event flag with TA_WMUL, returns the whole pattern and leaves no bit of it set, whichever bits
-- were waited for.
pub event_group_wait_bits-clears_all :
    (s : Shim) (i t bits : ℕ) (wait_all : Bool) (ticks : ℕ)
    → in_range i max_flgid ≡ true
    → (s.kernel.flgcb i).flgid == 0 ≡ false
    → any_bit (s.kernel.flgcb i).flgatr ta_wmul ≡ true
    → in_ddsp s.kernel ≡ false
    → s.kernel.ctxtsk ≡ some t
    → bits == 0 ≡ false
    → is_tmout (shim_tmo ticks) ≡ true
    → (s.kernel.flgcb i).flgptn < 2 ^ 32
    → eventflag_cond (s.kernel.flgcb i).flgptn bits (if wait_all then 0 else twf_orw) ≡ true
    → let out = event_group_wait_bits s i bits true wait_all ticks in
      (out.1 ≡ some (s.kernel.flgcb i).flgptn) × ((out.0.kernel.flgcb i).flgptn ≡ 0)
unfolding event_group_wait_bits
event_group_wait_bits-clears_all s i t bits wait_all ticks hi hu hm hd run hb ht hp c =
    let ptn = (s.kernel.flgcb i).flgptn in
    let k1 = set_flgptn (report s.kernel t ptn) i ptn in
    let w = wai_flg_met s.kernel i t bits wait_all ticks hi hu hm hd run hb ht c in
    let got : result_of k1 ok ≡ ptn = reported s.kernel i t ptn run in
    let ends : event_group_wait_bits s i bits true wait_all ticks
        ≡ after_wai_flg (set_kernel s k1) i true (ret ok) =
      ap (λ (r : Kernel × Reply). after_wai_flg (set_kernel s r.0) i true r.1) w in
    let fin =
      wait_bits_end-clears (set_kernel s k1) i ptn hi (unchanged_id s.kernel i t ptn hu)
        (unchanged_pattern s.kernel i t ptn) hp in
    (
      ap (λ (r : Shim × Option ℕ). r.1) ends
          ∙ ap (λ p. some (wait_bits_end (set_kernel s k1) i true ok p).1) got
          ∙ ap some fin.0,
      ap (λ (r : Shim × Option ℕ). (r.0.kernel.flgcb i).flgptn) ends
          ∙ ap (λ p. ((wait_bits_end (set_kernel s k1) i true ok p).0.kernel.flgcb i).flgptn) got
          ∙ fin.1,
    )
