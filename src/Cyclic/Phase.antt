-- ===== src/Cyclic/Phase.antt =====
-- The times at which a cyclic handler of kernel/tkernel/time_calls.c runs.
use native.Mathlib.Nat.{div-eq_of_lt}
use esp32c3_mtk.Prelude.{
  ℕ, ◌+◌, ◌*◌, ◌/◌, ◌%◌, ◌^◌, ◌≤◌, ◌<◌, ◌≡◌, arith, Bool-cases, inl, inr, refl, sym, subst, false,
}
use esp32c3_mtk.Types.{Cyccb}
use esp32c3_mtk.Timer.{abstim_mod, abstim_reached, sub_abstim}
use esp32c3_mtk.Cyclic.{cyc_next_time}

-- A time that is `x` behind `t`, for a tick that is `e` behind `t`.
ahead :
    (cur t x p : ℕ)
    → cur < 2 ^ 32
    → t < 2 ^ 32
    → p < 2 ^ 31
    → sub_abstim cur t < 2 ^ 31
    → sub_abstim cur t < x
    → x ≤ sub_abstim cur t + p
    → let d = sub_abstim ((x + t) % abstim_mod) cur in (1 ≤ d) × (d ≤ p)
ahead cur t x p hc ht hp he h1 h2 = (omega arith, omega arith)

-- The first multiple of a period behind `e`.
next_multiple : (e p : ℕ) → 1 ≤ p → (e < (e / p + 1) * p) × ((e / p + 1) * p ≤ e + p)
next_multiple e p h = (omega arith, omega arith)

no_full_period : (e p : ℕ) → e < p → e / p ≡ 0
no_full_period e p h = div-eq_of_lt h

-- A period that has not passed at a tick, by the test of the code.
not_reached :
    (cur t p : ℕ)
    → cur < 2 ^ 32
    → t < 2 ^ 32
    → p < 2 ^ 31
    → sub_abstim cur t < 2 ^ 31
    → abstim_reached cur ((t + p) % abstim_mod) ≡ false
    → sub_abstim cur t < p
not_reached cur t p hc ht hp he r = ground (arith, r)

-- The time that the code computes, in either branch.
cyc_next_time-multiple :
    (cur : ℕ) (c : Cyccb)
    → cur < 2 ^ 32
    → c.time < 2 ^ 32
    → c.cyctim < 2 ^ 31
    → sub_abstim cur c.time < 2 ^ 31
    → cyc_next_time cur c
      ≡ ((sub_abstim cur c.time / c.cyctim + 1) * c.cyctim + c.time) % abstim_mod
unfolding cyc_next_time
cyc_next_time-multiple cur c hc ht hp he =
    elim (Bool-cases (abstim_reached cur ((c.time + c.cyctim) % abstim_mod))) [
      | inl r ↦ rw r refl
      | inr r ↦
          let q =
            no_full_period (sub_abstim cur c.time) c.cyctim
              (not_reached cur c.time c.cyctim hc ht hp he r) in
          rw (r, q) (omega arith)
    ]

-- `knl_cyc_next_time` gives a time that is at least 1 and at most one period after the tick, and
-- that is the last time plus one period more than have passed in full, also where the 32-bit times
-- wrap around; the tick is fewer than 2 ^ 31 milliseconds after the last time, and the period is
-- between 1 and 2 ^ 31 - 1.
pub cyc_next_time-next :
    (cur : ℕ) (c : Cyccb)
    → cur < 2 ^ 32
    → c.time < 2 ^ 32
    → 1 ≤ c.cyctim
    → c.cyctim < 2 ^ 31
    → sub_abstim cur c.time < 2 ^ 31
    → let tm = cyc_next_time cur c in
      (1 ≤ sub_abstim tm cur)
      × (sub_abstim tm cur ≤ c.cyctim)
      × (tm ≡ ((sub_abstim cur c.time / c.cyctim + 1) * c.cyctim + c.time) % abstim_mod)
cyc_next_time-next cur c hc ht h1 hp he =
    let e = sub_abstim cur c.time in
    let n = e / c.cyctim + 1 in
    let r = cyc_next_time-multiple cur c hc ht hp he in
    let m = next_multiple e c.cyctim h1 in
    let d = ahead cur c.time (n * c.cyctim) c.cyctim hc ht hp he m.0 m.1 in
    (
      subst (λ tm. 1 ≤ sub_abstim tm cur) (sym r) d.0,
      subst (λ tm. sub_abstim tm cur ≤ c.cyctim) (sym r) d.1,
      r,
    )
