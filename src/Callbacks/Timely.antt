-- ===== src/Callbacks/Timely.antt =====
-- What the callbacks of kernel/tkernel/timer.c do to the clock and to the timer queue.
use esp32c3_mtk.Prelude.{
  ℕ, ◌+◌, ◌*◌, ◌/◌, ◌%◌, ◌^◌, ◌≤◌, ◌<◌, ◌≡◌, refl, ap, ◌∙◌, Bool, true, false, ◌&&◌, List, [], ◌∷◌,
  ltb, ◌==◌, arith, Bool-cases, inl, inr, subst, if_cases,
}
use esp32c3_mtk.Types.{Event, wtmeb, cyctmeb, almtmeb, Tmeb, Cyccb}
use esp32c3_mtk.Kernel.{Kernel, update}
use esp32c3_mtk.Timer.{
  abstim_mod, sub_abstim, lltoul, abstim_reached, enqueue_tmeb, timer_insert_abs,
}
use esp32c3_mtk.Timer.Order.{IsByTime, enqueue_from-IsByTime}
use esp32c3_mtk.Cyclic.{cyc_next_time, cyc_timer_insert, set_next_time, call_cychdr}
use esp32c3_mtk.Alarm.{alm_stopped, call_almhdr}
use esp32c3_mtk.Hooks.{wait_release_tmout}
use esp32c3_mtk.Callbacks.{call_back}
use esp32c3_mtk.Callbacks.Due.{
  due, due-enqueue_from, all_events, all_events-enqueue_from, IsQuiet, wait_release_tmout-IsQuiet,
}

-- A cyclic handler with a period, and 32-bit times.
abbrev pub sane : Cyccb → Bool
sane c = ltb 0 c.cyctim && ltb c.cyctim (2 ^ 31) && ltb c.time (2 ^ 32)

abbrev pub sane_for : (ℕ → Cyccb) → Event → Bool
sane_for cyccb (cyctmeb i) = sane (cyccb i)
sane_for cyccb _ = true

abbrev pub sane_event : (ℕ → Cyccb) → Tmeb → Bool
sane_event cyccb e = ltb e.time (2 ^ 32) && sane_for cyccb e.event

-- The events of the cyclic handlers in the timer queue are of such.
abbrev pub is_sane : Kernel → Bool
is_sane k = all_events (sane_event k.cyccb) k.timer_queue

-- What a callback may do: it leaves the clock alone and brings no event that is due.
pub record IsTimely (k k' : Kernel) : Type 0 where
  pub clock : k'.current_time ≡ k.current_time
  pub fewer : due (lltoul k.current_time) k'.timer_queue ≤ due (lltoul k.current_time) k.timer_queue
  pub order :
      IsByTime (lltoul k.current_time) k.timer_queue
      → IsByTime (lltoul k.current_time) k'.timer_queue
  pub sanity : is_sane k ≡ true → is_sane k' ≡ true

IsTimely-next : (k k' k'' : Kernel) → IsTimely k k' → IsTimely k' k'' → IsTimely k k''
IsTimely-next k k' k'' a b = record {
  clock = b.clock ∙ a.clock;
  fewer =
      let f =
        subst (λ n. due (lltoul n) k''.timer_queue ≤ due (lltoul n) k'.timer_queue) a.clock
          b.fewer in
      omega (arith, a.fewer, f);
  order = λ v.
      let on =
        subst (λ n. IsByTime (lltoul n) k'.timer_queue → IsByTime (lltoul n) k''.timer_queue)
          a.clock b.order in
      on (a.order v);
  sanity = λ h. b.sanity (a.sanity h);
}

quiet-IsTimely : (k k' : Kernel) → IsQuiet k k' → IsTimely k k'
quiet-IsTimely k k' q = record {
  clock = q.clock;
  fewer = q.fewer (lltoul k.current_time);
  order = q.sorted (lltoul k.current_time);
  sanity = λ h.
      ap (λ f. all_events (sane_event f) k'.timer_queue) q.cyclics ∙ q.kept (sane_event k.cyccb) h;
}

ahead_by :
    (cur t x p : ℕ)
    → cur < 2 ^ 32
    → t < 2 ^ 32
    → p < 2 ^ 31
    → sub_abstim cur t < x
    → x ≤ sub_abstim cur t + p
    → abstim_reached cur ((x + t) % abstim_mod) ≡ false
ahead_by cur t x p hc ht hp h1 h2 = ground (arith, hc, ht, hp, h1, h2)

next_multiple : (e p : ℕ) → 1 ≤ p → (e < (e / p + 1) * p) × ((e / p + 1) * p ≤ e + p)
next_multiple e p h = (omega arith, omega arith)

-- The next time of a cyclic handler is not due.
cyc_next_time-later :
    (cur : ℕ) (c : Cyccb)
    → cur < 2 ^ 32
    → sane c ≡ true
    → abstim_reached cur (cyc_next_time cur c) ≡ false
unfolding cyc_next_time
cyc_next_time-later cur c hc h =
    let facts : ((1 ≤ c.cyctim) × (c.cyctim < 2 ^ 31)) × (c.time < 2 ^ 32) =
      ((ground (arith, h), ground (arith, h)), ground (arith, h)) in
    let m = next_multiple (sub_abstim cur c.time) c.cyctim facts.0.0 in
    let x = (sub_abstim cur c.time / c.cyctim + 1) * c.cyctim in
    let far = ahead_by cur c.time x c.cyctim hc facts.1 facts.0.1 m.0 m.1 in
    elim (Bool-cases (abstim_reached cur ((c.time + c.cyctim) % abstim_mod))) [
      | inl r ↦ rw r far
      | inr r ↦ rw r r
    ]

cyc_next_time-word : (cur : ℕ) (c : Cyccb) → cyc_next_time cur c < 2 ^ 32
unfolding cyc_next_time
cyc_next_time-word cur c = ground arith

all_events_map :
    (p p' : Tmeb → Bool) (es : List Tmeb)
    → ((e : Tmeb) → p e ≡ true → p' e ≡ true)
    → all_events p es ≡ true
    → all_events p' es ≡ true
unfolding all_events
all_events_map p p' [] f h = refl
all_events_map p p' (e ∷ es) f h =
    let first = f e in ground (arith, h, first, all_events_map p p' es f)

-- The handlers after the next time of one of them is set.
sane_for-update :
    (cyccb : ℕ → Cyccb) (i tm : ℕ) (ev : Event)
    → sane (cyccb i) ≡ true
    → tm < 2 ^ 32
    → sane_for cyccb ev ≡ true
    → sane_for (update cyccb i (record (cyccb i) { time = tm })) ev ≡ true
sane_for-update cyccb i tm (cyctmeb j) g lt h =
    if_cases (λ c. sane c ≡ true) (i == j) (record (cyccb i) { time = tm }) (cyccb j)
      (λ e. ground (arith, g, lt)) (λ e. h)
sane_for-update cyccb i tm (wtmeb j) g lt h = refl
sane_for-update cyccb i tm (almtmeb j) g lt h = refl

pub sane_event_parts :
    (cyccb : ℕ → Cyccb) (e : Tmeb)
    → sane_event cyccb e ≡ true
    → (e.time < 2 ^ 32) × (sane_for cyccb e.event ≡ true)
sane_event_parts cyccb e h = (ground (arith, h), ground (arith, h))

sane_event_of :
    (cyccb : ℕ → Cyccb) (e : Tmeb)
    → e.time < 2 ^ 32
    → sane_for cyccb e.event ≡ true
    → sane_event cyccb e ≡ true
sane_event_of cyccb e a b = ground (arith, a, b)

pub due_cons :
    (cur : ℕ) (e : Tmeb) (es : List Tmeb)
    → abstim_reached cur e.time ≡ false
    → due cur (e ∷ es) ≡ due cur es
unfolding due
due_cons cur e es h = ground (arith, h)

set_next_time-IsTimely :
    (k : Kernel) (i : ℕ) → sane (k.cyccb i) ≡ true → IsTimely k (set_next_time k i)
unfolding set_next_time cyc_timer_insert timer_insert_abs enqueue_tmeb
set_next_time-IsTimely k i g =
    let cur = lltoul k.current_time in
    let tm = cyc_next_time cur (k.cyccb i) in
    let late = cyc_next_time-later cur (k.cyccb i) (omega arith) g in
    let word = cyc_next_time-word cur (k.cyccb i) in
    let cyccb' = update k.cyccb i (record (k.cyccb i) { time = tm }) in
    let e : Tmeb = record { event = cyctmeb i; time = tm } in
    record {
      clock = refl;
      fewer =
          ground
            (arith, due-enqueue_from cur cur e k.timer_queue, due_cons cur e k.timer_queue late);
      order = enqueue_from-IsByTime cur e k.timer_queue;
      sanity = λ h.
          all_events-enqueue_from (sane_event cyccb') cur e k.timer_queue
            (sane_event_of cyccb' e word (sane_for-update k.cyccb i tm (cyctmeb i) g word g))
            (all_events_map (sane_event k.cyccb) (sane_event cyccb') k.timer_queue
              (λ x s.
                let parts = sane_event_parts k.cyccb x s in
                sane_event_of cyccb' x parts.0
                  (sane_for-update k.cyccb i tm x.event g word parts.1))
              h);
    }

module _ (user : ℕ → ℕ → Kernel → Kernel)
    (timely : (hdr exinf : ℕ) (k : Kernel) → IsTimely k (user hdr exinf k)) where
  pub call_back-IsTimely :
      (ev : Event) (k : Kernel) → sane_for k.cyccb ev ≡ true → IsTimely k (call_back user ev k)
  unfolding call_cychdr call_almhdr alm_stopped
  call_back-IsTimely (wtmeb t) k h =
      quiet-IsTimely k (wait_release_tmout k t) (wait_release_tmout-IsQuiet k t)
  call_back-IsTimely (cyctmeb i) k h =
      let k1 = set_next_time k i in
      IsTimely-next k k1 (user (k.cyccb i).cychdr (k.cyccb i).exinf k1)
        (set_next_time-IsTimely k i h) (timely (k.cyccb i).cychdr (k.cyccb i).exinf k1)
  call_back-IsTimely (almtmeb i) k h =
      let r = timely (k.almcb i).almhdr (k.almcb i).exinf (alm_stopped k i) in
      record { clock = r.clock; fewer = r.fewer; order = r.order; sanity = r.sanity }
