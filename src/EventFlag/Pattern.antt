-- ===== src/EventFlag/Pattern.antt =====
-- The patterns and conditions of kernel/tkernel/eventflag.c: what clearing bits does to them.
use esp32c3_mtk.Prelude.{ℕ, zero, suc, ◌/◌, ◌≤◌, ◌<◌, ◌≡◌, bit_and, true, false, arith}
use esp32c3_mtk.Bits.{and_not, bit_and_step, and_not_step, bit_and-le_right, zero-bit_and}
use esp32c3_mtk.EventFlag.{eventflag_cond, cleared, ends_loop}

-- Each part of a pattern that a mask picks out is less than that of another pattern.
abbrev pub IsSubpattern : ℕ → ℕ → Type 0
IsSubpattern p q = (w : ℕ) → bit_and p w ≤ bit_and q w

bit_and-sub_fuel : (n p c w : ℕ) → p ≤ n → bit_and (bit_and p c) w ≤ bit_and p w
bit_and-sub_fuel n zero c w h = let e : bit_and 0 c ≡ 0 = zero-bit_and c in rw e (omega arith)
bit_and-sub_fuel zero (suc p) c w h = absurd (omega arith)
bit_and-sub_fuel (suc n) (suc p) c w h =
    let ih = bit_and-sub_fuel n (suc p / 2) (c / 2) (w / 2) (omega arith) in
    let s = bit_and_step (suc p) c in
    let half : bit_and (suc p) c / 2 ≡ bit_and (suc p / 2) (c / 2) = omega (arith, s) in
    let ih' : bit_and (bit_and (suc p) c / 2) (w / 2) ≤ bit_and (suc p / 2) (w / 2) = rw half ih in
    omega (arith, s, ih', bit_and_step (bit_and (suc p) c) w, bit_and_step (suc p) w)

pub bit_and-IsSubpattern : (p c : ℕ) → IsSubpattern (bit_and p c) p
bit_and-IsSubpattern p c w = bit_and-sub_fuel p p c w (omega arith)

and_not-sub_fuel : (n p m w : ℕ) → p ≤ n → bit_and (and_not p m) w ≤ bit_and p w
and_not-sub_fuel n zero m w h =
    let e : and_not 0 m ≡ 0 = unfold and_not in omega arith in rw e (omega arith)
and_not-sub_fuel zero (suc p) m w h = absurd (omega arith)
and_not-sub_fuel (suc n) (suc p) m w h =
    let ih = and_not-sub_fuel n (suc p / 2) (m / 2) (w / 2) (omega arith) in
    let s = and_not_step (suc p) m in
    let half : and_not (suc p) m / 2 ≡ and_not (suc p / 2) (m / 2) = omega (arith, s) in
    let ih' : bit_and (and_not (suc p) m / 2) (w / 2) ≤ bit_and (suc p / 2) (w / 2) = rw half ih in
    omega (arith, s, ih', bit_and_step (and_not (suc p) m) w, bit_and_step (suc p) w)

pub cleared-IsSubpattern : (p w m : ℕ) → IsSubpattern (cleared p w m) p
unfolding cleared
cleared-IsSubpattern p w m v = ground (arith, and_not-sub_fuel p p w v, zero-bit_and v)

-- A condition that holds of a part of a pattern holds of the pattern.
pub eventflag_cond_mono :
    (p q w m : ℕ) → IsSubpattern p q → eventflag_cond p w m ≡ true → eventflag_cond q w m ≡ true
unfolding eventflag_cond
eventflag_cond_mono p q w m s h =
    let le : bit_and p w ≤ bit_and q w = s w in
    let within : bit_and q w ≤ w = bit_and-le_right q q w (omega arith) in ground arith

pub eventflag_cond-zero : (w m : ℕ) → 0 < w → eventflag_cond 0 w m ≡ false
unfolding eventflag_cond
eventflag_cond-zero w m h = ground (arith, zero-bit_and w)

-- The loop of `tk_set_flg` only ends early when no bit is left.
pub ends_loop-cleared : (p w m : ℕ) → ends_loop p w m ≡ true → cleared p w m ≡ 0
unfolding cleared
ends_loop-cleared p w m h = ground arith
