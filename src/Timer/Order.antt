-- ===== src/Timer/Order.antt =====
-- The order of the timer queue (kernel/tkernel/timer.c) under a clock of 32 bits that wraps around.
use esp32c3_mtk.Prelude.{
  ℕ, ◌+◌, ◌-◌, ◌%◌, ◌≤◌, ◌<◌, ◌≡◌, List, [], ◌∷◌, ltb, leb, arith, Bool-cases, inl, inr,
}
use esp32c3_mtk.Types.{Tmeb}
use esp32c3_mtk.Timer.{abstim_mod, abstim_diff_min, abstim_reached, key, enqueue_from}

-- The first event of a list is not before the time with the key `n`.
abbrev pub IsAfter : ℕ → ℕ → List Tmeb → Type 0
IsAfter cur n [] = Unit
IsAfter cur n (e ∷ es) = n ≤ key cur e.time

-- The events stand by their times, as seen from the time `cur`.
abbrev pub IsByTime : ℕ → List Tmeb → Type 0
IsByTime cur [] = Unit
IsByTime cur (e ∷ es) = IsAfter cur (key cur e.time) es × IsByTime cur es

enqueue_from-IsAfter :
    (cur n : ℕ) (e : Tmeb) (es : List Tmeb)
    → n ≤ key cur e.time
    → IsAfter cur n es
    → IsAfter cur n (enqueue_from cur e es)
unfolding enqueue_from
enqueue_from-IsAfter cur n e [] h g = h
enqueue_from-IsAfter cur n e (q ∷ qs) h g =
    elim (Bool-cases (ltb (key cur e.time) (key cur q.time))) [ inl b ↦ rw b h | inr b ↦ rw b g ]

-- `knl_enqueue_tmeb` keeps a timer queue that stands by time in that order.
pub enqueue_from-IsByTime :
    (cur : ℕ) (e : Tmeb) (es : List Tmeb) → IsByTime cur es → IsByTime cur (enqueue_from cur e es)
unfolding enqueue_from
enqueue_from-IsByTime cur e [] v = (tt, tt)
enqueue_from-IsByTime cur e (q ∷ qs) v = elim (Bool-cases (ltb (key cur e.time) (key cur q.time))) [
  | inl b ↦ let le : key cur e.time ≤ key cur q.time = ground arith in rw b (le, v)
  | inr b ↦
      let le : key cur q.time ≤ key cur e.time = ground arith in
      rw b
        (enqueue_from-IsAfter cur (key cur q.time) e qs le v.0, enqueue_from-IsByTime cur e qs v.1)
]

-- The handler's test agrees with the sort key.
pub reached_key :
    (cur time : ℕ)
    → cur < abstim_mod
    → time < abstim_mod
    → abstim_reached cur time ≡ leb (key cur time) abstim_diff_min
reached_key cur time h g = ground arith

-- Times are 32-bit words.
abbrev pub AreWords : List Tmeb → Type 0
AreWords [] = Unit
AreWords (e ∷ es) = (e.time < abstim_mod) × AreWords es

-- No event is overdue by more than a queue's reach, ABSTIM_DIFF_MIN.
abbrev pub AreAhead : ℕ → List Tmeb → Type 0
AreAhead cur [] = Unit
AreAhead cur (e ∷ es) = (0 < key cur e.time) × AreAhead cur es

tick_key :
    (cur time : ℕ)
    → cur < abstim_mod
    → time < abstim_mod
    → 0 < key cur time
    → key ((cur + 1) % abstim_mod) time ≡ key cur time - 1
tick_key cur time h g p = omega arith

tick-IsAfter :
    (cur time : ℕ) (es : List Tmeb)
    → cur < abstim_mod
    → time < abstim_mod
    → 0 < key cur time
    → AreWords es
    → AreAhead cur es
    → IsAfter cur (key cur time) es
    → IsAfter ((cur + 1) % abstim_mod) (key ((cur + 1) % abstim_mod) time) es
tick-IsAfter cur time [] h g p w a v = tt
tick-IsAfter cur time (e ∷ es) h g p w a v =
    let now = tick_key cur time h g p in
    let next = tick_key cur e.time h w.0 a.0 in rw (now, next) (omega arith)

-- A timer queue of 32-bit times that stands by time, with no event overdue by ABSTIM_DIFF_MIN or
-- more, also does so after the clock has gone on by one, as the keys of `knl_enqueue_tmeb` are
-- then, also where the clock wraps around.
pub tick-IsByTime :
    (cur : ℕ) (es : List Tmeb)
    → cur < abstim_mod
    → AreWords es
    → AreAhead cur es
    → IsByTime cur es
    → IsByTime ((cur + 1) % abstim_mod) es
tick-IsByTime cur [] h w a v = tt
tick-IsByTime cur (e ∷ es) h w a v =
    (tick-IsAfter cur e.time es h w.0 a.0 w.1 a.1 v.0, tick-IsByTime cur es h w.1 a.1 v.1)
