-- ===== src/MessageBuffer/Receive.antt =====
-- `tk_rcv_mbf` of kernel/tkernel/messagebuf.c: a receiver gets the first message of the queue that the
-- ring and the waiting senders make up.
use esp32c3_mtk.Prelude.{
  ℕ, ◌<◌, ◌^◌, ◌≡◌, refl, sym, ◌∙◌, ap, subst, true, false, List, [], ◌∷◌, ◌++◌, is_empty, contains,
  without, all_distinct, All, arith, if◌then◌else◌, ltb, ◌==◌, without_head, List-cases, Bool-cases,
  Option-cases, inl, inr, ◌⊎◌, is_empty→nil, all_distinct-snoc, some,
}
use esp32c3_mtk.Types.{ℤ, Message, smbf, rmbf, ok, value, e_tmout, wspec_rmbf, same}
use esp32c3_mtk.Kernel.{
  Kernel, que_of, set_tcb, ret, Reply, in_range, max_mbfid, is_tmout, in_ddsp, is_pol,
}
use esp32c3_mtk.Wait.{wait_release_ok}
use esp32c3_mtk.Wait.Frame.{que-release, mbfcb-release, winfo-release}
use esp32c3_mtk.Wait.Block.{mbfcb-make_wait, que-make_wait, same_refl}
use esp32c3_mtk.MessageRing.{mbf_to_msg, memcpy}
use esp32c3_mtk.MessageRing.Read.{
  mbf_empty-IsRing, mbf_empty-nil, mbf_to_msg-IsRing, size-mbf_to_msg, byte-mbf_to_msg,
}
use esp32c3_mtk.MessageBuffer.{
  message_of, hand_over, receive_from, take_message, wait_to_receive, rcv_mbf_by, rcv_mbf,
  mbf_wakeup,
}
use esp32c3_mtk.MessageBuffer.Fifo.{
  messages_of, stream, IsStirred, IsMbf, messages_of-same, sizes-same,
}
use esp32c3_mtk.MessageBuffer.Wakeup.{mbf_wakeup-IsWoken}

-- The task `t` has got `message`, and the queue goes on with `rest`.
pub record IsReceived (k : Kernel) (t i : ℕ) (ms : List Message) (out : Kernel × Reply)
    : Type 0 where
  pub message : Message
  pub rest : List Message
  pub first : stream k i ms ≡ message ∷ rest
  pub reply : out.1 ≡ ret (value message.size)
  pub byte :
      (j : ℕ)
      → (out.0.tcb t).winfo.rmbf.byte j
        ≡ (if ltb j message.size then message.byte j else (k.tcb t).winfo.rmbf.byte j)
  pub messages : List Message
  pub mbf : IsMbf out.0 i messages
  pub left : stream out.0 i messages ≡ rest

module _ (k : Kernel) (t i : ℕ) (m : Message) (ms : List Message) (v : IsMbf k i (m ∷ ms)) where
  message_of-take_message : (u : ℕ) → message_of (take_message k t i) u ≡ message_of k u
  unfolding take_message
  message_of-take_message u = ground arith

  mbfcb-take_message :
      (take_message k t i).mbfcb i ≡ (mbf_to_msg (k.mbfcb i) (k.tcb t).winfo.rmbf.byte).0
  unfolding take_message
  mbfcb-take_message = ground arith

  rmbf-take_message :
      ((take_message k t i).tcb t).winfo.rmbf ≡ (mbf_to_msg (k.mbfcb i) (k.tcb t).winfo.rmbf.byte).1
  unfolding take_message
  rmbf-take_message = ground arith

  senders-take_message : que_of (take_message k t i) (smbf i) ≡ que_of k (smbf i)
  unfolding take_message
  senders-take_message = refl

  take_message-IsStirred : IsStirred (take_message k t i) i ms
  unfolding take_message
  take_message-IsStirred = record {
    ring =
        rw mbfcb-take_message
          (mbf_to_msg-IsRing (k.mbfcb i) m ms v.stirred.ring (k.tcb t).winfo.rmbf.byte);
    senders = v.stirred.senders;
    receivers = v.stirred.receivers;
    sizes =
        sizes-same k (take_message k t i) (que_of k (smbf i)) message_of-take_message
          v.stirred.sizes;
    apart = ground (arith, v.stirred.apart);
  }

  taken-IsReceived : IsReceived k t i (m ∷ ms) (
    mbf_wakeup (take_message k t i) i,
    ret (value (mbf_to_msg (k.mbfcb i) (k.tcb t).winfo.rmbf.byte).1.size),
  )
  taken-IsReceived =
      let w = mbf_wakeup-IsWoken (take_message k t i) i ms take_message-IsStirred in
      record {
        message = m;
        rest = ms ++ messages_of k (que_of k (smbf i));
        first = refl;
        reply =
            ap (λ n. ret (value n))
              (size-mbf_to_msg (k.mbfcb i) m ms v.stirred.ring (k.tcb t).winfo.rmbf.byte);
        byte = λ j.
            ap (λ i. i.rmbf.byte j) (w.winfo t)
            ∙ ap (λ r. r.byte j) rmbf-take_message
            ∙ byte-mbf_to_msg (k.mbfcb i) m ms v.stirred.ring (k.tcb t).winfo.rmbf.byte j;
        messages = w.messages;
        mbf = w.mbf;
        left =
            w.same
            ∙ ap (λ xs. ms ++ xs)
                (rw senders-take_message (
                  messages_of-same k (take_message k t i) (que_of k (smbf i))
                    message_of-take_message));
      }

pub message_of-hand_over :
    (k : Kernel) (t : ℕ) (m : Message) (x : ℕ) → message_of (hand_over k t m) x ≡ message_of k x
unfolding hand_over
message_of-hand_over k t m x = ground arith

pub byte-hand_over :
    (k : Kernel) (t : ℕ) (m : Message) (j : ℕ)
    → ((hand_over k t m).tcb t).winfo.rmbf.byte j
      ≡ (if ltb j m.size then m.byte j else (k.tcb t).winfo.rmbf.byte j)
unfolding hand_over memcpy
byte-hand_over k t m j = ground arith

module _ (k : Kernel) (t i u : ℕ) (us : List ℕ) (v : IsMbf k i [])
    (e : que_of k (smbf i) ≡ u ∷ us) where
  abbrev handed : Kernel
  handed = wait_release_ok (hand_over k t (message_of k u)) u

  message_of-handed : (x : ℕ) → message_of handed x ≡ message_of k x
  unfolding hand_over wait_release_ok
  message_of-handed x =
      ap (λ w. w.smbf) (winfo-release (hand_over k t (message_of k u)) u ok x)
      ∙ message_of-hand_over k t (message_of k u) x

  senders-handed : que_of handed (smbf i) ≡ us
  unfolding hand_over wait_release_ok
  senders-handed =
      que-release (hand_over k t (message_of k u)) u ok (smbf i) refl
      ∙ ap (without u) e
      ∙ without_head u us (subst (λ q. all_distinct q ≡ true) e v.stirred.senders)

  winfo-handed : (handed.tcb t).winfo ≡ ((hand_over k t (message_of k u)).tcb t).winfo
  unfolding wait_release_ok
  winfo-handed = winfo-release (hand_over k t (message_of k u)) u ok t

  mbfcb-handed : handed.mbfcb ≡ k.mbfcb
  unfolding hand_over wait_release_ok
  mbfcb-handed = mbfcb-release (hand_over k t (message_of k u)) u ok

  receivers-handed : que_of handed (rmbf i) ≡ []
  unfolding hand_over wait_release_ok
  receivers-handed =
      que-release (hand_over k t (message_of k u)) u ok (rmbf i) refl
      ∙ ap (without u) (is_empty→nil (que_of k (rmbf i)) (ground (arith, v.stirred.apart)))

  handed-IsStirred : IsStirred handed i []
  handed-IsStirred =
      let sizes = subst (All (λ x. (message_of k x).size < 2 ^ 31)) e v.stirred.sizes in
      record {
        ring = rw (ap (λ c. c i) mbfcb-handed) v.stirred.ring;
        senders =
            rw senders-handed
              (ground (arith, subst (λ q. all_distinct q ≡ true) e v.stirred.senders));
        receivers = rw receivers-handed refl;
        sizes = rw senders-handed (sizes-same k handed us message_of-handed sizes.1);
        apart = rw receivers-handed refl;
      }

  handed-IsReceived : IsReceived k t i [] (mbf_wakeup handed i, ret (value (message_of k u).size))
  handed-IsReceived =
      let w = mbf_wakeup-IsWoken handed i [] handed-IsStirred in
      record {
        message = message_of k u;
        rest = messages_of k us;
        first = ap (messages_of k) e;
        reply = refl;
        byte = λ j.
            ap (λ i. i.rmbf.byte j) (w.winfo t ∙ winfo-handed)
            ∙ byte-hand_over k t (message_of k u) j;
        messages = w.messages;
        mbf = w.mbf;
        left = w.same ∙ rw senders-handed (messages_of-same k handed us message_of-handed);
      }

module _ (k : Kernel) (t i : ℕ) (tmout : ℤ) where
  rcv_mbf_by-ring :
      (m : Message) (ms : List Message)
      → IsMbf k i (m ∷ ms)
      → ((k.mbfcb i).mbfid == 0) ≡ false
      → rcv_mbf_by k t i tmout ≡ (
        mbf_wakeup (take_message k t i) i,
        ret (value (mbf_to_msg (k.mbfcb i) (k.tcb t).winfo.rmbf.byte).1.size),
      )
  unfolding rcv_mbf_by
  rcv_mbf_by-ring m ms v z = rw (z, mbf_empty-IsRing (k.mbfcb i) m ms v.stirred.ring) refl

  rcv_mbf_by-sender :
      (u : ℕ) (us : List ℕ)
      → IsMbf k i []
      → ((k.mbfcb i).mbfid == 0) ≡ false
      → que_of k (smbf i) ≡ u ∷ us
      → rcv_mbf_by k t i tmout ≡ (
        mbf_wakeup (wait_release_ok (hand_over k t (message_of k u)) u) i,
        ret (value (message_of k u).size),
      )
  unfolding rcv_mbf_by
  rcv_mbf_by-sender u us v z e =
      rw (z, mbf_empty-nil (k.mbfcb i) v.stirred.ring) (ap (receive_from k t i tmout) e)

  rcv_mbf_by-none :
      IsMbf k i []
      → ((k.mbfcb i).mbfid == 0) ≡ false
      → que_of k (smbf i) ≡ []
      → rcv_mbf_by k t i tmout ≡ wait_to_receive k t i tmout
  unfolding rcv_mbf_by
  rcv_mbf_by-none v z e =
      rw (z, mbf_empty-nil (k.mbfcb i) v.stirred.ring) (ap (receive_from k t i tmout) e)

  rcv_mbf_by-IsReceived :
      (ms : List Message)
      → IsMbf k i ms
      → ((k.mbfcb i).mbfid == 0) ≡ false
      → is_empty (stream k i ms) ≡ false
      → IsReceived k t i ms (rcv_mbf_by k t i tmout)
  rcv_mbf_by-IsReceived (m ∷ ms) v z s =
      subst (IsReceived k t i (m ∷ ms)) (sym (rcv_mbf_by-ring m ms v z))
        (taken-IsReceived k t i m ms v)
  rcv_mbf_by-IsReceived [] v z s = elim (List-cases (que_of k (smbf i))) [
    | inl e ↦ absurd (ground (arith, ap (λ q. is_empty (messages_of k q)) e, s))
    | inr (u, us, e) ↦
        subst (IsReceived k t i []) (sym (rcv_mbf_by-sender u us v z e))
          (handed-IsReceived k t i u us v e)
  ]

  rcv_mbf_through :
      in_range i max_mbfid ≡ true
      → is_tmout tmout ≡ true
      → in_ddsp k ≡ false
      → k.ctxtsk ≡ some t
      → rcv_mbf k i tmout ≡ rcv_mbf_by k t i tmout
  unfolding rcv_mbf
  rcv_mbf_through r o d c = ground arith

  -- The messages in the ring of a message buffer, and behind them those of the tasks that wait to
  -- send, are one queue: when it is not empty and the buffer is well formed and in use,
  -- `tk_rcv_mbf` of a task that may wait gets the first message of the queue (its size is what is
  -- returned, its bytes are in the receiver's memory, and no other byte of that memory changes),
  -- the queue goes on with the rest, and the buffer is well formed, whatever senders are released.
  pub rcv_mbf-IsReceived :
      (ms : List Message)
      → IsMbf k i ms
      → is_empty (stream k i ms) ≡ false
      → in_range i max_mbfid ≡ true
      → is_tmout tmout ≡ true
      → in_ddsp k ≡ false
      → k.ctxtsk ≡ some t
      → ((k.mbfcb i).mbfid == 0) ≡ false
      → IsReceived k t i ms (rcv_mbf k i tmout)
  rcv_mbf-IsReceived ms v s r o d c z =
      subst (IsReceived k t i ms) (sym (rcv_mbf_through r o d c)) (rcv_mbf_by-IsReceived ms v z s)

  -- A receiver that waits finds neither messages nor senders.
  abbrev asked : Kernel
  asked = set_tcb k t (record (k.tcb t) { wspec = wspec_rmbf; wid = i; wercd = e_tmout })

  wait_to_receive-queue :
      is_pol tmout ≡ false
      → contains t (que_of k (rmbf i)) ≡ false
      → que_of (wait_to_receive k t i tmout).0 (rmbf i) ≡ que_of k (rmbf i) ++ t ∷ []
  unfolding wait_to_receive
  wait_to_receive-queue p c =
      rw (p, same_refl (rmbf i))
        (ap (λ q. q ++ t ∷ []) (que-make_wait asked t tmout (rmbf i) refl c))

  wait_to_receive-senders :
      is_pol tmout ≡ false
      → contains t (que_of k (smbf i)) ≡ false
      → que_of (wait_to_receive k t i tmout).0 (smbf i) ≡ que_of k (smbf i)
  unfolding wait_to_receive
  wait_to_receive-senders p c = rw p (que-make_wait asked t tmout (smbf i) refl c)

  wait_to_receive-mbfcb : (wait_to_receive k t i tmout).0.mbfcb ≡ k.mbfcb
  unfolding wait_to_receive
  wait_to_receive-mbfcb = ground (arith, mbfcb-make_wait asked t tmout)

  wait_to_receive-IsMbf :
      IsMbf k i []
      → que_of k (smbf i) ≡ []
      → contains t (que_of k (rmbf i)) ≡ false
      → IsMbf (wait_to_receive k t i tmout).0 i []
  wait_to_receive-IsMbf v e c = elim (Bool-cases (is_pol tmout)) [
    | inl p ↦
        let same : (wait_to_receive k t i tmout).0 ≡ k = unfold wait_to_receive in rw p refl in
        subst (λ k'. IsMbf k' i []) (sym same) v
    | inr p ↦
        let none = wait_to_receive-senders p (rw e refl) ∙ e in
        record {
          stirred = record {
            ring = rw (ap (λ f. f i) wait_to_receive-mbfcb) v.stirred.ring;
            senders = rw none refl;
            receivers =
                rw (wait_to_receive-queue p c)
                  (all_distinct-snoc t (que_of k (rmbf i)) v.stirred.receivers c);
            sizes = rw none tt;
            apart = rw none (ground arith);
          };
          held = rw none refl;
        }
  ]

no_senders : (k : Kernel) (ts : List ℕ) → messages_of k ts ≡ [] → ts ≡ []
no_senders k [] e = refl
no_senders k (t ∷ ts) e = absurd (ground (arith, ap is_empty e))

nothing_to_get :
    (k : Kernel) (t i : ℕ) (tmout : ℤ) (ms : List Message)
    → IsMbf k i ms
    → contains t (que_of k (rmbf i)) ≡ false
    → ((k.mbfcb i).mbfid == 0) ≡ false
    → stream k i ms ≡ []
    → (held : List Message) × IsMbf (rcv_mbf_by k t i tmout).0 i held
nothing_to_get k t i tmout (m ∷ ms) v c z s = absurd (ground (arith, ap is_empty s))
nothing_to_get k t i tmout [] v c z s =
    let none = no_senders k (que_of k (smbf i)) s in
    (
      [],
      subst (λ out. IsMbf out.0 i []) (sym (rcv_mbf_by-none k t i tmout v z none))
          (wait_to_receive-IsMbf k t i tmout v none c),
    )

rcv_mbf_by-IsMbf :
    (k : Kernel) (t i : ℕ) (tmout : ℤ) (ms : List Message)
    → IsMbf k i ms
    → contains t (que_of k (rmbf i)) ≡ false
    → (held : List Message) × IsMbf (rcv_mbf_by k t i tmout).0 i held
rcv_mbf_by-IsMbf k t i tmout ms v c = elim (Bool-cases ((k.mbfcb i).mbfid == 0)) [
  | inl z ↦
      let same : (rcv_mbf_by k t i tmout).0 ≡ k = unfold rcv_mbf_by in rw z refl in
      (ms, subst (λ k'. IsMbf k' i ms) (sym same) v)
  | inr z ↦ elim (List-cases (stream k i ms)) [
    | inr (m, rest, s) ↦
        let got = rcv_mbf_by-IsReceived k t i tmout ms v z (ap is_empty s) in
        (got.messages, got.mbf)
    | inl s ↦ nothing_to_get k t i tmout ms v c z s
  ]
]

rcv_mbf_outcome :
    (k : Kernel) (i : ℕ) (tmout : ℤ)
    → ((rcv_mbf k i tmout).0 ≡ k)
      ⊎ ((t : ℕ) × (k.ctxtsk ≡ some t) × ((rcv_mbf k i tmout).0 ≡ (rcv_mbf_by k t i tmout).0))
unfolding rcv_mbf
rcv_mbf_outcome k i tmout = elim (Option-cases k.ctxtsk) [
  | inl e ↦ inl (ground arith)
  | inr (t, e) ↦
      let paths : ((rcv_mbf k i tmout).0 ≡ k)
          ⊎ ((rcv_mbf k i tmout).0 ≡ (rcv_mbf_by k t i tmout).0) =
        ground arith in
      elim paths [ inl same ↦ inl same | inr by ↦ inr (t, e, by) ]
]

-- `tk_rcv_mbf` keeps a message buffer well formed on every path, when the task in execution, if
-- any, is not in its receive queue.
pub rcv_mbf-IsMbf :
    (k : Kernel) (i : ℕ) (tmout : ℤ) (ms : List Message)
    → IsMbf k i ms
    → ((t : ℕ) → k.ctxtsk ≡ some t → contains t (que_of k (rmbf i)) ≡ false)
    → (held : List Message) × IsMbf (rcv_mbf k i tmout).0 i held
rcv_mbf-IsMbf k i tmout ms v absent = elim (rcv_mbf_outcome k i tmout) [
  | inl e ↦ (ms, subst (λ k'. IsMbf k' i ms) (sym e) v)
  | inr (t, c, e) ↦
      let (held, w) = rcv_mbf_by-IsMbf k t i tmout ms v (absent t c) in
      (held, subst (λ k'. IsMbf k' i held) (sym e) w)
]
