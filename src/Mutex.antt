-- ===== src/Mutex.antt =====
-- kernel/tkernel/mutex.c: the mutexes. Mutexes change the priorities of tasks, and a change of priority
-- calls back the mutex that the task waits for: the definitions here take `knl_change_task_priority` as
-- their argument `change`, which Hooks gives them.
pub mod Manage
pub mod Owner
pub mod Calls
pub mod Handover
pub mod Priority
use esp32c3_mtk.Prelude.{
  ℕ, ◌-◌, ◌≡◌, Bool, true, false, not, ◌&&◌, List, [], ◌∷◌, ◌++◌, Option, none, some, ltb, ◌==◌,
  if◌then◌else◌, without, bit_and,
}
use esp32c3_mtk.Types.{
  ℤ, Er, ok, e_par, e_id, e_ctx, e_iluse, e_noexs, e_tmout, Tcb, WSpec, wspec_mtx_tfifo,
  wspec_mtx_tpri, wspec_mtx_inherit, Head, mtx, que_insert, Mtxcb, in_wait, same_task,
}
use esp32c3_mtk.Kernel.{
  Kernel, update, set_tcb, que_of, set_queues, Reply, ret, pend, in_indp, in_ddsp, in_range,
  max_mtxid, is_tmout, is_pol,
}
use esp32c3_mtk.Wait.{
  wait_release_ok, make_wait, queue_insert_tpri, gcb_change_priority, priority_of,
}

abbrev pub ta_inherit : ℕ
ta_inherit = 0x2

abbrev pub ta_ceiling : ℕ
ta_ceiling = 0x3

-- `mtxcb->mtxatr & TA_CEILING`
abbrev pub kind_of : Kernel → ℕ → ℕ
kind_of k i = bit_and (k.mtxcb i).mtxatr ta_ceiling

abbrev pub set_mtxcb : Kernel → ℕ → Mtxcb → Kernel
set_mtxcb k i c = record k { mtxcb = update k.mtxcb i c }

abbrev pub set_mtxtsk : Kernel → ℕ → Option ℕ → Kernel
set_mtxtsk k i o = set_mtxcb k i (record (k.mtxcb i) { mtxtsk = o })

abbrev pub set_mtxlist : Kernel → ℕ → List ℕ → Kernel
set_mtxlist k t ms = set_tcb k t (record (k.tcb t) { mtxlist = ms })

-- `mtxcb->mtxtsk = tcb; mtxcb->mtxlist = tcb->mtxlist; tcb->mtxlist = mtxcb;`
unfoldable pub get_lock : Kernel → ℕ → ℕ → Kernel
get_lock k i t = set_mtxlist (set_mtxtsk k i (some t)) t (i ∷ (k.tcb t).mtxlist)

-- `mtx_head_pri(mtxcb)` where `mtx_waited(mtxcb)`, else the `pri` before.
abbrev head_pri : Kernel → ℕ → List ℕ → ℕ
head_pri k pri [] = pri
head_pri k pri (u ∷ us) = priority_of k u

-- The switch of `knl_release_mutex` and `knl_chg_pri_mutex`: `pri` after it.
unfoldable pub pri_after : Kernel → ℕ → ℕ → ℕ
pri_after k i pri =
    if kind_of k i == ta_ceiling
    then (k.mtxcb i).ceilpri
    else if kind_of k i == ta_inherit
    then head_pri k pri (que_of k (mtx i))
    else pri

-- The loop of `knl_release_mutex` over the mutexes that the task keeps.
unfoldable pub newpri_from : Kernel → ℕ → ℕ → List ℕ → ℕ
unfolding pri_after
newpri_from k newpri pri [] = newpri
newpri_from k newpri pri (i ∷ is) =
    let pri' = pri_after k i pri in newpri_from k (if ltb pri' newpri then pri' else newpri) pri' is

-- The chain without the mutex that is released, if any.
abbrev pub kept : Option ℕ → List ℕ → List ℕ
kept none ms = ms
kept (some i) ms = without i ms

module _ (change : Kernel → ℕ → ℕ → Kernel) where
  -- `knl_release_mutex`; `reset_priority(tcb)` releases none.
  unfoldable pub release_mutex : Kernel → ℕ → Option ℕ → Kernel
  unfolding newpri_from
  release_mutex k t rel =
      let ms = kept rel (k.tcb t).mtxlist in
      let k' = set_mtxlist k t ms in
      let newpri = newpri_from k (k.tcb t).bpriority (k.tcb t).bpriority ms in
      if newpri == (k.tcb t).priority then k' else change k' t newpri

  -- The mutex goes to the first of its queue, or to nobody: the end of `tk_unl_mtx`, and one round of
  -- `knl_signal_all_mutex`.
  abbrev pub hand_to : Kernel → ℕ → List ℕ → Kernel
  hand_to k i [] = set_mtxtsk k i none
  hand_to k i (u ∷ us) =
      let k' = get_lock (wait_release_ok k u) i u in
      if kind_of k i == ta_ceiling && ltb (k'.mtxcb i).ceilpri (k'.tcb u).priority
      then change k' u (k'.mtxcb i).ceilpri
      else k'

  unfoldable pub hand_over : Kernel → ℕ → Kernel
  unfolding get_lock wait_release_ok
  hand_over k i = hand_to k i (que_of k (mtx i))

  -- The loop of `knl_signal_all_mutex`.
  unfoldable pub signal_from : Kernel → List ℕ → Kernel
  unfolding hand_over
  signal_from k [] = k
  signal_from k (i ∷ is) = signal_from (hand_over k i) is

  -- `knl_signal_all_mutex`
  unfoldable pub signal_all_mutex : Kernel → ℕ → Kernel
  unfolding signal_from
  signal_all_mutex k t = signal_from k (k.tcb t).mtxlist

  -- `mtx_chg_pri`. A mutex that a task waits for has a holder; the source does not check it.
  abbrev pub holder_follows : Kernel → ℕ → ℕ → Option ℕ → Kernel
  holder_follows k t oldpri none = k
  holder_follows k t oldpri (some h) =
      let reset = release_mutex k h none in
      if ltb (priority_of k t) (priority_of k h)
      then change k h (priority_of k t)
      else if priority_of k h == oldpri
      then reset
      else k

  unfoldable pub mtx_chg_pri : Kernel → ℕ → ℕ → Kernel
  unfolding gcb_change_priority release_mutex
  mtx_chg_pri k t oldpri =
      let i = (k.tcb t).wid in
      let k' = gcb_change_priority k (mtx i) t in
      if kind_of k i == ta_inherit then holder_follows k' t oldpri (k'.mtxcb i).mtxtsk else k'

  -- `mtx_rel_wai`
  unfoldable pub mtx_rel_wai : Kernel → ℕ → Kernel
  unfolding release_mutex
  mtx_rel_wai k t = elim (k.mtxcb (k.tcb t).wid).mtxtsk [
    | none ↦ k
    | some h ↦ if priority_of k h == priority_of k t then release_mutex k h none else k
  ]

  -- The branch "Get lock" of `tk_loc_mtx`.
  unfoldable pub lock_free : Kernel → ℕ → ℕ → Kernel
  unfolding get_lock
  lock_free k t i =
      let k' = get_lock k i t in
      if kind_of k i == ta_ceiling && ltb (k.mtxcb i).ceilpri (priority_of k t)
      then change k' t (k.mtxcb i).ceilpri
      else k'

  -- "Ready for wait" of `tk_loc_mtx`.
  abbrev pub wspec_of : ℕ → WSpec
  wspec_of kind =
      if kind == 0
      then wspec_mtx_tfifo
      else if kind == ta_inherit
      then wspec_mtx_inherit
      else wspec_mtx_tpri

  unfoldable pub lock_wait : Kernel → ℕ → ℕ → ℕ → ℤ → Kernel
  lock_wait k t h i tmout =
      let k1 =
        if kind_of k i == ta_inherit && ltb (priority_of k t) (priority_of k h)
        then change k h (priority_of k t)
        else k in
      let k2 =
        set_tcb k1 t
          (record (k1.tcb t) { wspec = wspec_of (kind_of k i); wercd = e_tmout; wid = i }) in
      let k3 = make_wait k2 t tmout in
      if kind_of k i == 0
      then set_queues k3 (que_insert k3.rq.que t (mtx i))
      else queue_insert_tpri k3 t (mtx i)

  -- `tk_loc_mtx`, by the holder.
  abbrev pub lock_by : Kernel → ℕ → ℕ → ℤ → Option ℕ → Kernel × Reply
  lock_by k t i tmout none = (lock_free k t i, ret ok)
  lock_by k t i tmout (some h) =
      if is_pol tmout then (k, ret e_tmout) else (lock_wait k t h i tmout, pend)

  unfoldable pub loc_mtx_by : Kernel → ℕ → ℕ → ℤ → Kernel × Reply
  unfolding lock_free lock_wait
  loc_mtx_by k t i tmout =
      if (k.mtxcb i).mtxid == 0
      then (k, ret e_noexs)
      else if same_task (k.mtxcb i).mtxtsk t
      then (k, ret e_iluse)
      else if kind_of k i == ta_ceiling && ltb (k.tcb t).bpriority (k.mtxcb i).ceilpri
      then (k, ret e_iluse)
      else lock_by k t i tmout (k.mtxcb i).mtxtsk

  -- `tk_loc_mtx`
  unfoldable pub loc_mtx : Kernel → ℕ → ℤ → Kernel × Reply
  unfolding loc_mtx_by
  loc_mtx k i tmout =
      if not (in_range i max_mtxid)
      then (k, ret e_id)
      else if not (is_tmout tmout)
      then (k, ret e_par)
      else if in_ddsp k
      then (k, ret e_ctx)
      else (elim k.ctxtsk [ none ↦ (k, ret e_ctx) | some t ↦ loc_mtx_by k t i tmout ])

  -- `tk_unl_mtx`
  unfoldable pub unl_mtx_by : Kernel → ℕ → ℕ → Kernel × Er
  unfolding release_mutex hand_over
  unl_mtx_by k t i =
      if (k.mtxcb i).mtxid == 0
      then (k, e_noexs)
      else if not (same_task (k.mtxcb i).mtxtsk t)
      then (k, e_iluse)
      else (hand_over (release_mutex k t (some i)) i, ok)

  unfoldable pub unl_mtx : Kernel → ℕ → Kernel × Er
  unfolding unl_mtx_by
  unl_mtx k i =
      if not (in_range i max_mtxid)
      then (k, e_id)
      else if in_indp k
      then (k, e_ctx)
      else (elim k.ctxtsk [ none ↦ (k, e_ctx) | some t ↦ unl_mtx_by k t i ])
