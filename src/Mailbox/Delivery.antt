-- ===== src/Mailbox/Delivery.antt =====
-- The delivery of messages by kernel/tkernel/mailbox.c: the messages of a mailbox and the tasks that
-- wait for one.
use esp32c3_mtk.Prelude.{
  ℕ, ◌≡◌, refl, sym, ap, subst, Bool, true, false, not, ◌&&◌, ◌||◌, List, [], ◌∷◌, ◌++◌, some, ◌==◌,
  if◌then◌else◌, is_empty, contains, without, all_distinct, List-cases, Option-cases, Bool-cases,
  arith, ◌⊎◌, inl, inr, all_distinct-without, all_distinct-snoc,
}
use esp32c3_mtk.Bits.{any_bit}
use esp32c3_mtk.Types.{ℤ, ok, Msg, mbx}
use esp32c3_mtk.Kernel.{Kernel, que_of, in_range, max_mbxid, is_positive, is_pol}
use esp32c3_mtk.Wait.{priority_of, wait_release_ok, gcb_make_wait}
use esp32c3_mtk.Wait.Frame.{mbxcb-release, que-release, tcb-release_self, after_wait}
use esp32c3_mtk.Wait.Block.{mbxcb-block, que-poll, que-block}
use esp32c3_mtk.Wait.Insertion.{all_distinct-insert_tpri}
use esp32c3_mtk.Mailbox.{
  ta_mpri, hand_over, snd_mbx, rcv_mbx, rcv_mbx_by, asking, insert_mpri, set_messages,
}

-- A mailbox: no task is twice in its queue, and messages and waiting tasks exclude each other.
pub record IsMbx (k : Kernel) (i : ℕ) : Type 0 where
  pub distinct : all_distinct (que_of k (mbx i)) ≡ true
  pub apart : (is_empty (k.mbxcb i).messages || is_empty (que_of k (mbx i))) ≡ true

-- A released task leaves the queue, and no message comes or goes.
release-IsMbx :
    (k : Kernel) (i t : ℕ) (m : Msg)
    → IsMbx k i
    → is_empty (k.mbxcb i).messages ≡ true
    → IsMbx (wait_release_ok (hand_over k t m) t) i
unfolding hand_over wait_release_ok
release-IsMbx k i t m v e = record {
  distinct =
      rw (que-release (hand_over k t m) t ok (mbx i) refl)
        (all_distinct-without t (que_of k (mbx i)) v.distinct);
  apart = ground (arith, mbxcb-release (hand_over k t m) t ok);
}

-- Whether the checks of `tk_snd_mbx` let a message through.
abbrev is_sent : Kernel → ℕ → Msg → Bool
is_sent k i m =
    in_range i max_mbxid
    && not ((k.mbxcb i).mbxid == 0)
    && (not (any_bit (k.mbxcb i).mbxatr ta_mpri) || is_positive m.msgpri)

snd_mbx_outcome :
    (k : Kernel) (i : ℕ) (m : Msg)
    → ((snd_mbx k i m).0 ≡ k)
      ⊎ ((t : ℕ) × (is_empty (que_of k (mbx i)) ≡ false)
          × ((snd_mbx k i m).0 ≡ wait_release_ok (hand_over k t m) t))
      ⊎ ((ms : List Msg) × (is_empty (que_of k (mbx i)) ≡ true)
          × ((snd_mbx k i m).0 ≡ set_messages k i ms))
unfolding snd_mbx
snd_mbx_outcome k i m = elim (List-cases (que_of k (mbx i))) [
  | inl e ↦
      let ms =
        if any_bit (k.mbxcb i).mbxatr ta_mpri
        then insert_mpri m (k.mbxcb i).messages
        else (k.mbxcb i).messages ++ m ∷ [] in
      elim (Bool-cases (is_sent k i m)) [
        | inl s ↦ inr (inr (ms, ground arith, ground arith))
        | inr s ↦ inl (ground arith)
      ]
  | inr (t, ts, e) ↦ elim (Bool-cases (is_sent k i m)) [
    | inl s ↦ inr (inl (t, ground arith, ground arith))
    | inr s ↦ inl (ground arith)
  ]
]

-- `tk_snd_mbx` keeps a mailbox well formed on every path: no task is twice in its queue, and it
-- never holds messages while tasks wait for one.
pub snd_mbx-IsMbx : (k : Kernel) (i : ℕ) (m : Msg) → IsMbx k i → IsMbx (snd_mbx k i m).0 i
snd_mbx-IsMbx k i m v = elim (snd_mbx_outcome k i m) [
  | inl e ↦ rw e v
  | inr (inl (t, some_wait, e)) ↦ rw e (release-IsMbx k i t m v (ground (arith, v.apart)))
  | inr (inr (ms, none_wait, e)) ↦ rw e (record { distinct = v.distinct; apart = ground arith })
]

-- The queue of a task that waits for a message: it was empty of messages, and stays so.
module _ (k : Kernel) (t i : ℕ) (tmout : ℤ) (v : IsMbx k i)
    (absent : contains t (que_of k (mbx i)) ≡ false)
    (no_message : is_empty (k.mbxcb i).messages ≡ true) where
  abbrev blocked : Kernel
  blocked = (gcb_make_wait k t (mbx i) i (k.mbxcb i).mbxatr tmout).0

  blocked_by :
      (ts : List ℕ) → que_of blocked (mbx i) ≡ ts → all_distinct ts ≡ true → IsMbx blocked i
  blocked_by ts e d = record {
    distinct = rw e d;
    apart = ground (arith, mbxcb-block k t (mbx i) i (k.mbxcb i).mbxatr tmout);
  }

  blocked-IsMbx : IsMbx blocked i
  blocked-IsMbx = elim (Bool-cases (is_pol tmout)) [
    | inl p ↦
        blocked_by (que_of k (mbx i))
          (ap (λ f. f (mbx i)) (que-poll k t (mbx i) i (k.mbxcb i).mbxatr tmout p)) v.distinct
    | inr p ↦ blocked_by _ (que-block k t (mbx i) i (k.mbxcb i).mbxatr tmout refl p absent) (
        ground (
          arith,
          all_distinct-insert_tpri (priority_of k) t (que_of k (mbx i)) v.distinct absent,
          all_distinct-snoc t (que_of k (mbx i)) v.distinct absent,
        ))
  ]

rcv_mbx_by_outcome :
    (k : Kernel) (t i : ℕ) (tmout : ℤ)
    → ((rcv_mbx_by k t i tmout).0 ≡ k)
      ⊎ ((m : Msg) × (ms : List Msg) × ((k.mbxcb i).messages ≡ m ∷ ms)
          × ((rcv_mbx_by k t i tmout).0 ≡ set_messages (hand_over k t m) i ms))
      ⊎ ((is_empty (k.mbxcb i).messages ≡ true)
          × ((rcv_mbx_by k t i tmout).0
              ≡ (gcb_make_wait (asking k t i) t (mbx i) i (k.mbxcb i).mbxatr tmout).0))
unfolding rcv_mbx_by
rcv_mbx_by_outcome k t i tmout = elim (Bool-cases ((k.mbxcb i).mbxid == 0)) [
  | inl z ↦ inl (ground arith)
  | inr z ↦ elim (List-cases (k.mbxcb i).messages) [
    | inl e ↦ inr (inr (ground arith, ground arith))
    | inr (m, ms, e) ↦ inr (inl (m, ms, e, ground arith))
  ]
]

taken-IsMbx :
    (k : Kernel) (t i : ℕ) (m : Msg) (ms : List Msg)
    → IsMbx k i
    → (k.mbxcb i).messages ≡ m ∷ ms
    → IsMbx (set_messages (hand_over k t m) i ms) i
unfolding hand_over
taken-IsMbx k t i m ms v e = record { distinct = v.distinct; apart = ground (arith, v.apart) }

asking-IsMbx : (k : Kernel) (t i : ℕ) → IsMbx k i → IsMbx (asking k t i) i
unfolding asking
asking-IsMbx k t i v = record { distinct = v.distinct; apart = v.apart }

rcv_mbx_by-IsMbx :
    (k : Kernel) (t i : ℕ) (tmout : ℤ)
    → IsMbx k i
    → contains t (que_of k (mbx i)) ≡ false
    → IsMbx (rcv_mbx_by k t i tmout).0 i
rcv_mbx_by-IsMbx k t i tmout v absent = elim (rcv_mbx_by_outcome k t i tmout) [
  | inl e ↦ subst (λ k'. IsMbx k' i) (sym e) v
  | inr (inl (m, ms, has, e)) ↦ subst (λ k'. IsMbx k' i) (sym e) (taken-IsMbx k t i m ms v has)
  | inr (inr (no_message, e)) ↦
      subst (λ k'. IsMbx k' i) (sym e)
        (unfold asking in
          blocked-IsMbx (asking k t i) t i tmout (asking-IsMbx k t i v) absent no_message)
]

rcv_mbx_outcome :
    (k : Kernel) (i : ℕ) (tmout : ℤ)
    → ((rcv_mbx k i tmout).0 ≡ k)
      ⊎ ((t : ℕ) × (k.ctxtsk ≡ some t) × ((rcv_mbx k i tmout).0 ≡ (rcv_mbx_by k t i tmout).0))
unfolding rcv_mbx
rcv_mbx_outcome k i tmout = elim (Option-cases k.ctxtsk) [
  | inl e ↦ inl (ground arith)
  | inr (t, e) ↦
      let paths : ((rcv_mbx k i tmout).0 ≡ k)
          ⊎ ((rcv_mbx k i tmout).0 ≡ (rcv_mbx_by k t i tmout).0) =
        ground arith in
      elim paths [ inl same ↦ inl same | inr by ↦ inr (t, e, by) ]
]

-- `tk_rcv_mbx` keeps a mailbox well formed on every path, when the task in execution, if any, is
-- not in its queue.
pub rcv_mbx-IsMbx :
    (k : Kernel) (i : ℕ) (tmout : ℤ)
    → IsMbx k i
    → ((t : ℕ) → k.ctxtsk ≡ some t → contains t (que_of k (mbx i)) ≡ false)
    → IsMbx (rcv_mbx k i tmout).0 i
rcv_mbx-IsMbx k i tmout v absent = elim (rcv_mbx_outcome k i tmout) [
  | inl e ↦ subst (λ k'. IsMbx k' i) (sym e) v
  | inr (t, c, e) ↦ subst (λ k'. IsMbx k' i) (sym e) (rcv_mbx_by-IsMbx k t i tmout v (absent t c))
]

-- A message that the checks of `tk_snd_mbx` let through while tasks wait goes to the first of
-- them: that task has the message and E_OK, is READY, or SUSPENDED if it was suspended while it
-- waited, and leaves the queue; no mailbox changes.
pub snd_mbx-delivers :
    (k : Kernel) (i t : ℕ) (ts : List ℕ) (m : Msg)
    → is_sent k i m ≡ true
    → que_of k (mbx i) ≡ t ∷ ts
    → (((snd_mbx k i m).0.tcb t) ≡ record (k.tcb t) {
      wercd = ok;
      state = after_wait (k.tcb t).state;
      winfo = record (k.tcb t).winfo { ppk_msg = some m };
    })
      × (que_of (snd_mbx k i m).0 (mbx i) ≡ without t (t ∷ ts))
      × ((snd_mbx k i m).0.mbxcb ≡ k.mbxcb)
unfolding snd_mbx hand_over wait_release_ok
snd_mbx-delivers k i t ts m s e = (
  ground (arith, tcb-release_self (hand_over k t m) t ok),
  ground (arith, que-release (hand_over k t m) t ok (mbx i) refl),
  ground (arith, mbxcb-release (hand_over k t m) t ok),
)
