-- ===== src/Callbacks/Ticks.antt =====
-- A tick of kernel/tkernel/timer.c with the callbacks that the kernel registers runs every due event.
use esp32c3_mtk.Prelude.{
  ℕ, zero, suc, ◌+◌, ◌%◌, ◌^◌, ◌≤◌, ◌<◌, ◌≡◌, refl, sym, ap, ◌∙◌, true, false, List, [], ◌∷◌, leb,
  arith, subst, if_cases,
}
use esp32c3_mtk.Types.{Tmeb, Cyccb}
use esp32c3_mtk.Kernel.{Kernel}
use esp32c3_mtk.Timer.{
  abstim_mod, abstim_diff_min, key, lltoul, abstim_reached, next_event, run_events, timer_handler,
}
use esp32c3_mtk.Timer.Order.{IsAfter, IsByTime, AreWords, AreAhead, reached_key, tick-IsByTime}
use esp32c3_mtk.Callbacks.{call_back, tick}
use esp32c3_mtk.Callbacks.Due.{due, all_events}
use esp32c3_mtk.Callbacks.Timely.{
  sane_event, sane_event_parts, due_cons, is_sane, IsTimely, call_back-IsTimely,
}

-- What a tick leaves: no event is due.
pub record IsFinished (cur now : ℕ) (k : Kernel) : Type 0 where
  pub clock : k.current_time ≡ now
  pub none_due : due cur k.timer_queue ≡ 0
  pub order : IsByTime cur k.timer_queue
  pub sanity : is_sane k ≡ true

is_sane-AreWords :
    (cyccb : ℕ → Cyccb) (es : List Tmeb) → all_events (sane_event cyccb) es ≡ true → AreWords es
unfolding all_events
is_sane-AreWords cyccb [] h = tt
is_sane-AreWords cyccb (e ∷ es) h =
    let first : sane_event cyccb e ≡ true = ground (arith, h) in
    ((sane_event_parts cyccb e first).0, is_sane-AreWords cyccb es (ground (arith, h)))

-- Behind an event that is not due, none is.
none_due_behind :
    (cur n : ℕ) (es : List Tmeb)
    → cur < 2 ^ 32
    → abstim_diff_min < n
    → IsAfter cur n es
    → IsByTime cur es
    → AreWords es
    → due cur es ≡ 0
unfolding due
none_due_behind cur n [] hc hn a v w = refl
none_due_behind cur n (e ∷ es) hc hn a v w =
    let ih = none_due_behind cur (key cur e.time) es hc (omega arith) v.0 v.1 w.1 in
    let reached = reached_key cur e.time hc w.0 in
    let no : leb (key cur e.time) abstim_diff_min ≡ false = ground arith in
    let late : abstim_reached cur e.time ≡ false = reached ∙ no in ground (arith, late, ih)

-- A state whose first event is not due.
finished :
    (cur : ℕ) (k : Kernel) (x : Tmeb) (q : List Tmeb)
    → k.timer_queue ≡ x ∷ q
    → lltoul k.current_time ≡ cur
    → is_sane k ≡ true
    → IsByTime cur (x ∷ q)
    → abstim_reached cur x.time ≡ false
    → IsFinished cur k.current_time k
unfolding due
finished cur k x q e n h v late =
    let cur_in : cur < 2 ^ 32 = ground (arith, n) in
    let all = subst (λ es. all_events (sane_event k.cyccb) es ≡ true) e h in
    let words = is_sane-AreWords k.cyccb (x ∷ q) all in
    let reached = reached_key cur x.time cur_in words.0 in
    let far : abstim_diff_min < key cur x.time = ground (arith, reached, late) in
    record {
      clock = refl;
      none_due =
          ap (due cur) e
          ∙ due_cons cur x q late
          ∙ none_due_behind cur (key cur x.time) q cur_in far v.0 v.1 words.1;
      order = subst (IsByTime cur) (sym e) v;
      sanity = h;
    }

emptied :
    (cur : ℕ) (k : Kernel) → k.timer_queue ≡ [] → is_sane k ≡ true → IsFinished cur k.current_time k
unfolding due
emptied cur k e h = record {
  clock = refl;
  none_due = ap (due cur) e;
  order = subst (IsByTime cur) (sym e) tt;
  sanity = h;
}

module _ (user : ℕ → ℕ → Kernel → Kernel)
    (timely : (hdr exinf : ℕ) (k : Kernel) → IsTimely k (user hdr exinf k)) where
  -- A round takes a due event out, and brings none.
  run_events-finishes :
      (fuel cur : ℕ) (q : List Tmeb) (k : Kernel)
      → k.timer_queue ≡ q
      → lltoul k.current_time ≡ cur
      → is_sane k ≡ true
      → IsByTime cur q
      → due cur q ≤ fuel
      → IsFinished cur k.current_time (run_events fuel (call_back user) cur k)
  unfolding run_events due all_events
  run_events-finishes zero cur [] k e n h v f = emptied cur k e h
  run_events-finishes zero cur (x ∷ q) k e n h v f = finished cur k x q e n h v (ground (arith, f))
  run_events-finishes (suc fuel) cur [] k e n h v f =
      subst (IsFinished cur k.current_time)
        (sym (ap (next_event (run_events fuel (call_back user) cur) (call_back user) cur k) e))
        (emptied cur k e h)
  run_events-finishes (suc fuel) cur (x ∷ q) k e n h v f =
      let k1 = record k { timer_queue = q } in
      let all = subst (λ es. all_events (sane_event k.cyccb) es ≡ true) e h in
      let first : sane_event k.cyccb x ≡ true = ground (arith, all) in
      let others : all_events (sane_event k.cyccb) q ≡ true = ground (arith, all) in
      let step = call_back-IsTimely user timely x.event k1 (sane_event_parts k.cyccb x first).1 in
      let next = call_back user x.event k1 in
      subst (IsFinished cur k.current_time)
        (sym (ap (next_event (run_events fuel (call_back user) cur) (call_back user) cur k) e))
        (if_cases (IsFinished cur k.current_time) (abstim_reached cur x.time)
          (run_events fuel (call_back user) cur next) k
          (λ b.
            let less : due cur q ≤ fuel = ground (arith, f, b) in
            let fewer = subst (λ c. due c next.timer_queue ≤ due c q) n step.fewer in
            let order = subst (λ c. IsByTime c q → IsByTime c next.timer_queue) n step.order v.1 in
            let r =
              run_events-finishes fuel cur next.timer_queue next refl (ap lltoul step.clock ∙ n)
                (step.sanity others) order (omega (arith, less, fewer)) in
            record {
              clock = r.clock ∙ step.clock;
              none_due = r.none_due;
              order = r.order;
              sanity = r.sanity;
            })
          (λ b. finished cur k x q e n h v b))

-- A tick with the callbacks that the kernel registers (the end of a wait at its timeout, a cyclic
-- handler, which is put back into the timer queue, and an alarm handler) ends with no due event in
-- the timer queue, with as much fuel as there are due events: the clock has gone on by one, the
-- queue stands by time and its cyclic handlers are still sane. Before, the queue stands by time,
-- no event is overdue by ABSTIM_DIFF_MIN or more, times are 32-bit words, and the cyclic handlers
-- in the queue have periods between 1 and 2 ^ 31 - 1; the users' handlers leave the clock alone,
-- bring no due event, and keep the order and the cyclic handlers so.
pub tick-IsFinished :
    (user : ℕ → ℕ → Kernel → Kernel) (fuel : ℕ) (k : Kernel)
    → ((hdr exinf : ℕ) (k' : Kernel) → IsTimely k' (user hdr exinf k'))
    → is_sane k ≡ true
    → AreAhead (lltoul k.current_time) k.timer_queue
    → IsByTime (lltoul k.current_time) k.timer_queue
    → let now = (k.current_time + 1) % 2 ^ 64 in
      due (lltoul now) k.timer_queue ≤ fuel → IsFinished (lltoul now) now (tick user fuel k)
unfolding tick timer_handler
tick-IsFinished user fuel k timely h a v f =
    let now = (k.current_time + 1) % 2 ^ 64 in
    let cur = lltoul k.current_time in
    let on : lltoul now ≡ (cur + 1) % abstim_mod = omega arith in
    let words = is_sane-AreWords k.cyccb k.timer_queue h in
    let order =
      subst (λ c. IsByTime c k.timer_queue) (sym on)
        (tick-IsByTime cur k.timer_queue (omega arith) words a v) in
    run_events-finishes user timely fuel (lltoul now) k.timer_queue
      (record k { current_time = now }) refl refl h order f
