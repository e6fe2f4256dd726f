-- ===== src/SystemTime.antt =====
-- The system clock of kernel/tkernel/time_calls.c. An LSYSTIM is the 64-bit word that holds it, and
-- the upper half of a SYSTIM the 32-bit word of its W.
use esp32c3_mtk.Prelude.{
  ℕ, ◌+◌, ◌-◌, ◌*◌, ◌/◌, ◌%◌, ◌^◌, ◌<◌, ◌≡◌, leb, if◌then◌else◌, arith, ap, ap₂, ◌∙◌,
}
use esp32c3_mtk.Types.{Er, ok, e_par}
use esp32c3_mtk.Kernel.{Kernel}

-- `SYSTIM`
pub record Systim : Type 0 where
  pub hi : ℕ
  pub lo : ℕ

abbrev pub lsystim_mod : ℕ
lsystim_mod = 2 ^ 64

-- `knl_toLSYSTIM` and `knl_toSYSTIM`
unfoldable pub to_lsystim : Systim → ℕ
to_lsystim t = (t.hi * 2 ^ 32 + t.lo) % lsystim_mod

unfoldable pub to_systim : ℕ → Systim
to_systim l = record { hi = l / 2 ^ 32; lo = l % 2 ^ 32 }

-- `ll_add` and `ll_sub`
abbrev pub ll_add : ℕ → ℕ → ℕ
ll_add a b = (a + b) % lsystim_mod

abbrev pub ll_sub : ℕ → ℕ → ℕ
ll_sub a b = (a + lsystim_mod - b) % lsystim_mod

abbrev pub diff_tron_utc : ℕ
diff_tron_utc = 473385600000

-- `tk_set_utc`
unfoldable pub set_utc : Kernel → Systim → Kernel × Er
unfolding to_lsystim
set_utc k tim =
    if leb (2 ^ 31) tim.hi
    then (k, e_par)
    else (record k { real_time_ofs = ll_sub (to_lsystim tim) k.current_time }, ok)

-- `tk_get_utc`
unfoldable pub get_utc : Kernel → Systim
unfolding to_systim
get_utc k = to_systim (ll_add k.current_time k.real_time_ofs)

-- `tk_set_tim`
unfoldable pub set_tim : Kernel → Systim → Kernel × Er
unfolding to_lsystim
set_tim k tim =
    let utc_time = ll_add (to_lsystim tim) diff_tron_utc in
    if leb (2 ^ 31) tim.hi
    then (k, e_par)
    else (record k { real_time_ofs = ll_sub utc_time k.current_time }, ok)

-- `tk_get_tim`
unfoldable pub get_tim : Kernel → Systim
unfolding to_systim
get_tim k =
    let utc_time = ll_add k.current_time k.real_time_ofs in
    to_systim (ll_sub utc_time diff_tron_utc)

-- `tk_get_otm`
unfoldable pub get_otm : Kernel → Systim
unfolding to_systim
get_otm k = to_systim k.current_time

-- The state once `d` milliseconds have gone by.
abbrev pub after : Kernel → ℕ → Kernel
after k d = record k { current_time = ll_add k.current_time d }

-- The clock, once the 64-bit arithmetic on the offset cancels.
offset_cancels :
    (x now d : ℕ)
    → now < 2 ^ 64
    → x + d < 2 ^ 63
    → ll_sub (ll_add (ll_add now d) (ll_sub (ll_add x diff_tron_utc) now)) diff_tron_utc ≡ x + d
offset_cancels x now d hn h = omega arith

halves :
    (tim : Systim) (d : ℕ)
    → tim.lo < 2 ^ 32
    → to_systim (tim.hi * 2 ^ 32 + tim.lo + d)
      ≡ record { hi = tim.hi + (tim.lo + d) / 2 ^ 32; lo = (tim.lo + d) % 2 ^ 32 }
unfolding to_systim
halves tim d hl =
    let systim : ℕ → ℕ → Systim = λ h l. record { hi = h; lo = l } in
    ap₂ systim (omega arith) (omega arith)

lsystim_fits :
    (tim : Systim) → tim.hi < 2 ^ 31 → tim.lo < 2 ^ 32 → to_lsystim tim ≡ tim.hi * 2 ^ 32 + tim.lo
unfolding to_lsystim
lsystim_fits tim hh hl = omega arith

accepted :
    (k : Kernel) (tim : Systim)
    → tim.hi < 2 ^ 31
    → set_tim k tim ≡ (
      record k { real_time_ofs = ll_sub (ll_add (to_lsystim tim) diff_tron_utc) k.current_time },
      ok,
    )
unfolding set_tim to_lsystim
accepted k tim hh = ground arith

-- `tk_get_tim`, `d` milliseconds after `tk_set_tim` of a time, gives that time plus `d`, with the
-- carry from the lower into the upper half, as long as the sum is below 2 ^ 63 and the upper half
-- of the time is not negative; the difference between the two epochs and the wrap-around of the
-- 64-bit offset cancel.
pub get_tim-set_tim :
    (k : Kernel) (tim : Systim) (d : ℕ)
    → k.current_time < 2 ^ 64
    → tim.hi < 2 ^ 31
    → tim.lo < 2 ^ 32
    → tim.hi * 2 ^ 32 + tim.lo + d < 2 ^ 63
    → get_tim (after (set_tim k tim).0 d)
      ≡ record { hi = tim.hi + (tim.lo + d) / 2 ^ 32; lo = (tim.lo + d) % 2 ^ 32 }
unfolding get_tim
get_tim-set_tim k tim d hk hh hl h =
    let fits = lsystim_fits tim hh hl in
    let now = k.current_time in
    ap (λ (r : Kernel × Er). get_tim (after r.0 d)) (accepted k tim hh)
    ∙ ap
        (λ x.
          to_systim
            (ll_sub (ll_add (ll_add now d) (ll_sub (ll_add x diff_tron_utc) now)) diff_tron_utc))
        fits
    ∙ ap (λ x. to_systim x) (offset_cancels (tim.hi * 2 ^ 32 + tim.lo) now d hk h)
    ∙ halves tim d hl
