-- ===== src/Callbacks/Due.antt =====
-- The events of kernel/tkernel/timer.c whose time a tick has reached, and what the callbacks of waits
-- and of cyclic and alarm handlers do to them.
use esp32c3_mtk.Prelude.{
  ℕ, suc, ◌+◌, ◌≤◌, ◌≡◌, refl, sym, ap, ◌∙◌, Bool, true, List, [], ◌∷◌, ◌&&◌, if◌then◌else◌, arith,
  subst, if_cases,
}
use esp32c3_mtk.Types.{
  Event, wtmeb, Tmeb, same_event, WSpec, no_wspec, wspec_slp, wspec_dly, wspec_sem_tfifo,
  wspec_sem_tpri, wspec_flg_tfifo, wspec_flg_tpri, wspec_mbx_tfifo, wspec_mbx_tpri,
  wspec_smbf_tfifo, wspec_smbf_tpri, wspec_rmbf, wspec_mpf_tfifo, wspec_mpf_tpri, wspec_mtx_tfifo,
  wspec_mtx_tpri, wspec_mtx_inherit, que_remove,
}
use esp32c3_mtk.Kernel.{Kernel, set_queues, max_tskid}
use esp32c3_mtk.Timer.{abstim_reached, key, enqueue_from, delete_event, timer_delete}
use esp32c3_mtk.Timer.Order.{IsAfter, IsByTime}
use esp32c3_mtk.Task.{change_ready_priority, make_ready}
use esp32c3_mtk.Wait.{gcb_change_priority, wait_release_ok, make_non_wait}
use esp32c3_mtk.Semaphore.{grant}
use esp32c3_mtk.MessageBuffer.{store_from}
use esp32c3_mtk.Hooks.{wait_release_tmout, rel_wai_hook, change_task_priority}
use esp32c3_mtk.Hooks.Frame.{
  IsFrame, change_by_framed, sem_rel_wai_framed, mbf_rel_wai_framed, mtx_rel_wai_framed,
}

-- The number of events whose time has come.
unfoldable pub due : ℕ → List Tmeb → ℕ
due cur [] = 0
due cur (e ∷ es) = let rest = due cur es in if abstim_reached cur e.time then rest + 1 else rest

pub due-delete_event :
    (cur : ℕ) (ev : Event) (es : List Tmeb) → due cur (delete_event ev es) ≤ due cur es
unfolding due delete_event
due-delete_event cur ev [] = omega arith
due-delete_event cur ev (e ∷ es) = ground (arith, due-delete_event cur ev es)

pub due-enqueue_from :
    (cur now : ℕ) (e : Tmeb) (es : List Tmeb) → due cur (enqueue_from now e es) ≡ due cur (e ∷ es)
unfolding due enqueue_from
due-enqueue_from cur now e [] = refl
due-enqueue_from cur now e (q ∷ qs) = ground (arith, due-enqueue_from cur now e qs)

-- All events of a queue pass a test.
unfoldable pub all_events : (Tmeb → Bool) → List Tmeb → Bool
all_events p [] = true
all_events p (e ∷ es) = p e && all_events p es

all_events-delete_event :
    (p : Tmeb → Bool) (ev : Event) (es : List Tmeb)
    → all_events p es ≡ true
    → all_events p (delete_event ev es) ≡ true
unfolding all_events delete_event
all_events-delete_event p ev [] h = refl
all_events-delete_event p ev (e ∷ es) h = ground (arith, h, all_events-delete_event p ev es)

pub all_events-enqueue_from :
    (p : Tmeb → Bool) (now : ℕ) (e : Tmeb) (es : List Tmeb)
    → p e ≡ true
    → all_events p es ≡ true
    → all_events p (enqueue_from now e es) ≡ true
unfolding all_events enqueue_from
all_events-enqueue_from p now e [] g h = ground (arith, g)
all_events-enqueue_from p now e (q ∷ qs) g h =
    ground (arith, g, h, all_events-enqueue_from p now e qs g)

IsAfter-weaken : (cur m n : ℕ) (es : List Tmeb) → m ≤ n → IsAfter cur n es → IsAfter cur m es
IsAfter-weaken cur m n [] le a = tt
IsAfter-weaken cur m n (e ∷ es) le a = omega arith

delete_event-IsAfter :
    (cur n : ℕ) (ev : Event) (es : List Tmeb)
    → IsAfter cur n es
    → IsByTime cur es
    → IsAfter cur n (delete_event ev es)
unfolding delete_event
delete_event-IsAfter cur n ev [] a v = tt
delete_event-IsAfter cur n ev (e ∷ es) a v =
    if_cases (IsAfter cur n) (same_event ev e.event) (delete_event ev es) (e ∷ delete_event ev es)
      (λ b. delete_event-IsAfter cur n ev es (IsAfter-weaken cur n (key cur e.time) es a v.0) v.1)
      (λ b. a)

delete_event-IsByTime :
    (cur : ℕ) (ev : Event) (es : List Tmeb) → IsByTime cur es → IsByTime cur (delete_event ev es)
unfolding delete_event
delete_event-IsByTime cur ev [] v = tt
delete_event-IsByTime cur ev (e ∷ es) v =
    if_cases (IsByTime cur) (same_event ev e.event) (delete_event ev es) (e ∷ delete_event ev es)
      (λ b. delete_event-IsByTime cur ev es v.1)
      (λ b. (
        delete_event-IsAfter cur (key cur e.time) ev es v.0 v.1,
        delete_event-IsByTime cur ev es v.1,
      ))

-- A step that leaves the clock and the cyclic handlers alone and brings no event.
pub record IsQuiet (k k' : Kernel) : Type 0 where
  pub clock : k'.current_time ≡ k.current_time
  pub cyclics : k'.cyccb ≡ k.cyccb
  pub fewer : (cur : ℕ) → due cur k'.timer_queue ≤ due cur k.timer_queue
  pub kept :
      (p : Tmeb → Bool) → all_events p k.timer_queue ≡ true → all_events p k'.timer_queue ≡ true
  pub sorted : (cur : ℕ) → IsByTime cur k.timer_queue → IsByTime cur k'.timer_queue

IsQuiet-next : (k k' k'' : Kernel) → IsQuiet k k' → IsQuiet k' k'' → IsQuiet k k''
IsQuiet-next k k' k'' a b = record {
  clock = b.clock ∙ a.clock;
  cyclics = b.cyclics ∙ a.cyclics;
  fewer = λ cur. omega (arith, a.fewer cur, b.fewer cur);
  kept = λ p h. b.kept p (a.kept p h);
  sorted = λ cur v. b.sorted cur (a.sorted cur v);
}

-- A step that does not touch the timer.
untimed-IsQuiet :
    (k k' : Kernel)
    → k'.current_time ≡ k.current_time
    → k'.cyccb ≡ k.cyccb
    → k'.timer_queue ≡ k.timer_queue
    → IsQuiet k k'
untimed-IsQuiet k k' a b c = record {
  clock = a;
  cyclics = b;
  fewer = λ cur. ground (arith, ap (due cur) c);
  kept = λ p h. ap (all_events p) c ∙ h;
  sorted = λ cur v. subst (IsByTime cur) (sym c) v;
}

make_non_wait-IsQuiet : (k : Kernel) (t : ℕ) → IsQuiet k (make_non_wait k t)
unfolding make_non_wait make_ready
make_non_wait-IsQuiet k t = untimed-IsQuiet k _ (ground arith) (ground arith) (ground arith)

released_timer :
    (k : Kernel) (t : ℕ)
    → ((wait_release_ok k t).current_time ≡ k.current_time)
      × ((wait_release_ok k t).cyccb ≡ k.cyccb)
      × ((wait_release_ok k t).timer_queue ≡ delete_event (wtmeb t) k.timer_queue)
unfolding wait_release_ok make_ready timer_delete
released_timer k t = (ground arith, ground arith, ground arith)

wait_release_ok-IsQuiet : (k : Kernel) (t : ℕ) → IsQuiet k (wait_release_ok k t)
wait_release_ok-IsQuiet k t =
    let r = released_timer k t in
    record {
      clock = r.0;
      cyclics = r.1;
      fewer = λ cur. ground (arith, ap (due cur) r.2, due-delete_event cur (wtmeb t) k.timer_queue);
      kept = λ p h. ap (all_events p) r.2 ∙ all_events-delete_event p (wtmeb t) k.timer_queue h;
      sorted = λ cur v.
          subst (IsByTime cur) (sym r.2) (delete_event-IsByTime cur (wtmeb t) k.timer_queue v);
    }

grant-IsQuiet : (k : Kernel) (i t : ℕ) → IsQuiet k (grant k i t)
unfolding grant
grant-IsQuiet k i t =
    let r = wait_release_ok-IsQuiet k t in
    record {
      clock = r.clock;
      cyclics = r.cyclics;
      fewer = r.fewer;
      kept = r.kept;
      sorted = r.sorted;
    }

store_from-IsQuiet : (k : Kernel) (i t : ℕ) → IsQuiet k (store_from k i t)
unfolding store_from
store_from-IsQuiet k i t =
    let r = wait_release_ok-IsQuiet (record k { mbfcb = _ }) t in
    record {
      clock = r.clock;
      cyclics = r.cyclics;
      fewer = r.fewer;
      kept = r.kept;
      sorted = r.sorted;
    }

IsQuiet-IsFrame : IsFrame IsQuiet
unfolding gcb_change_priority change_ready_priority
IsQuiet-IsFrame = record {
  same = λ k. untimed-IsQuiet k k refl refl refl;
  next = IsQuiet-next;
  gcb = λ k h t. untimed-IsQuiet k _ refl refl refl;
  ready = λ k t p. untimed-IsQuiet k _ (ground arith) (ground arith) (ground arith);
  grants = grant-IsQuiet;
  stores = store_from-IsQuiet;
  relists = λ k h. untimed-IsQuiet k _ refl refl refl;
  rates = λ k t p. untimed-IsQuiet k _ refl refl refl;
}

change_task_priority-IsQuiet : (k : Kernel) (t p : ℕ) → IsQuiet k (change_task_priority k t p)
unfolding change_task_priority
change_task_priority-IsQuiet = change_by_framed IsQuiet IsQuiet-IsFrame (suc max_tskid)

rel_wai_hook-IsQuiet : (k : Kernel) (t : ℕ) (w : WSpec) → IsQuiet k (rel_wai_hook k t w)
rel_wai_hook-IsQuiet k t no_wspec = IsQuiet-IsFrame.same k
rel_wai_hook-IsQuiet k t wspec_slp = IsQuiet-IsFrame.same k
rel_wai_hook-IsQuiet k t wspec_dly = IsQuiet-IsFrame.same k
rel_wai_hook-IsQuiet k t wspec_sem_tfifo = sem_rel_wai_framed IsQuiet IsQuiet-IsFrame k t
rel_wai_hook-IsQuiet k t wspec_sem_tpri = sem_rel_wai_framed IsQuiet IsQuiet-IsFrame k t
rel_wai_hook-IsQuiet k t wspec_flg_tfifo = IsQuiet-IsFrame.same k
rel_wai_hook-IsQuiet k t wspec_flg_tpri = IsQuiet-IsFrame.same k
rel_wai_hook-IsQuiet k t wspec_mbx_tfifo = IsQuiet-IsFrame.same k
rel_wai_hook-IsQuiet k t wspec_mbx_tpri = IsQuiet-IsFrame.same k
rel_wai_hook-IsQuiet k t wspec_smbf_tfifo = mbf_rel_wai_framed IsQuiet IsQuiet-IsFrame k t
rel_wai_hook-IsQuiet k t wspec_smbf_tpri = mbf_rel_wai_framed IsQuiet IsQuiet-IsFrame k t
rel_wai_hook-IsQuiet k t wspec_rmbf = IsQuiet-IsFrame.same k
rel_wai_hook-IsQuiet k t wspec_mpf_tfifo = IsQuiet-IsFrame.same k
rel_wai_hook-IsQuiet k t wspec_mpf_tpri = IsQuiet-IsFrame.same k
rel_wai_hook-IsQuiet k t wspec_mtx_tfifo = IsQuiet-IsFrame.same k
rel_wai_hook-IsQuiet k t wspec_mtx_tpri = IsQuiet-IsFrame.same k
rel_wai_hook-IsQuiet k t wspec_mtx_inherit =
    mtx_rel_wai_framed IsQuiet IsQuiet-IsFrame change_task_priority change_task_priority-IsQuiet k t

-- The end of a wait at its timeout brings no due event.
pub wait_release_tmout-IsQuiet : (k : Kernel) (t : ℕ) → IsQuiet k (wait_release_tmout k t)
unfolding wait_release_tmout
wait_release_tmout-IsQuiet k t =
    let k1 = make_non_wait (set_queues k (que_remove k.rq.que t)) t in
    IsQuiet-next k k1 (rel_wai_hook k1 t (k1.tcb t).wspec)
      (IsQuiet-next k (set_queues k (que_remove k.rq.que t)) k1 (untimed-IsQuiet k _ refl refl refl)
        (make_non_wait-IsQuiet (set_queues k (que_remove k.rq.que t)) t))
      (rel_wai_hook-IsQuiet k1 t (k1.tcb t).wspec)
