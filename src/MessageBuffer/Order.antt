-- ===== src/MessageBuffer/Order.antt =====
-- The order of messages in kernel/tkernel/messagebuf.c: `tk_snd_mbf` puts a message behind all others, or hands
-- it to the first receiver.
use esp32c3_mtk.Prelude.{
  ℕ, ◌<◌, ◌^◌, ◌≡◌, ◌≢◌, refl, sym, ◌∙◌, ap, ap₂, subst, true, false, ◌&&◌, List, [], ◌∷◌, ◌++◌,
  contains, without, arith, if◌then◌else◌, ltb, Bool-cases, inl, inr, some, append_assoc,
  append-nil,
}
use esp32c3_mtk.Bits.{any_bit}
use esp32c3_mtk.Types.{ℤ, Message, smbf, rmbf, ok}
use esp32c3_mtk.Kernel.{Kernel, que_of, ret, Reply, in_ddsp, is_pol, magnitude}
use esp32c3_mtk.Wait.{ta_tpri, wait_release_ok}
use esp32c3_mtk.Wait.Frame.{que-release, mbfcb-release, tcb-release_self, after_wait}
use esp32c3_mtk.MessageRing.{mbf_free, msg_to_mbf}
use esp32c3_mtk.MessageBuffer.{
  message_of, hand_over, set_mbfcb, is_next, send_to, wait_to_send, snd_mbf,
}
use esp32c3_mtk.MessageBuffer.Fifo.{messages_of, stream, IsMbf, messages_of-snoc}
use esp32c3_mtk.MessageBuffer.Block.{
  waiting, blocked-IsMbf, senders-blocked, joined, message_of-blocked_self, message_of-blocked_ne,
}
use esp32c3_mtk.MessageBuffer.Receive.{byte-hand_over}
use esp32c3_mtk.MessageBuffer.Send.{
  stored-IsMbf, message, snd_mbf_through, fifo_next, is_sent, is_next-top,
}

messages_of-other :
    (k k' : Kernel) (t : ℕ) (q : List ℕ)
    → contains t q ≡ false
    → ((u : ℕ) → t ≢ u → message_of k' u ≡ message_of k u)
    → messages_of k' q ≡ messages_of k q
messages_of-other k k' t [] c e = refl
messages_of-other k k' t (u ∷ us) c e =
    ap₂ ◌∷◌ (e u (ground (arith, c))) (messages_of-other k k' t us (ground (arith, c)) e)

-- The buffer is well formed, and its stream is the old one with `m` behind it.
pub record IsAppended (k k' : Kernel) (i : ℕ) (ms : List Message) (m : Message) : Type 0 where
  pub messages : List Message
  pub mbf : IsMbf k' i messages
  pub behind : stream k' i messages ≡ stream k i ms ++ m ∷ []

module _ (k : Kernel) (t i : ℕ) (tmout : ℤ) (ms : List Message) (m : Message) (v : IsMbf k i ms)
    (w : m.size < 2 ^ 31) (c : k.ctxtsk ≡ some t) (d : in_ddsp k ≡ false)
    (fifo : any_bit (k.mbfcb i).mbfatr ta_tpri ≡ false)
    (absent : contains t (que_of k (smbf i)) ≡ false) (p : is_pol tmout ≡ false)
    (e : que_of k (rmbf i) ≡ []) where
  stored-IsAppended :
      mbf_free (k.mbfcb i) m.size ≡ true
      → is_next k i ≡ true
      → IsAppended k (set_mbfcb k i (msg_to_mbf (k.mbfcb i) m)) i ms m
  stored-IsAppended f n =
      let none = fifo_next k t i c d fifo absent n in
      let now : stream (set_mbfcb k i (msg_to_mbf (k.mbfcb i) m)) i (ms ++ m ∷ []) ≡ ms ++ m ∷ [] =
        ap (λ q. (ms ++ m ∷ []) ++ messages_of k q) none ∙ append-nil (ms ++ m ∷ []) in
      let before : stream k i ms ≡ ms = ap (λ q. ms ++ messages_of k q) none ∙ append-nil ms in
      record {
        messages = ms ++ m ∷ [];
        mbf = stored-IsMbf k i ms m v w f e;
        behind = now ∙ ap (λ xs. xs ++ m ∷ []) (sym before);
      }

  joined_last : joined k t i tmout ms m v w absent p e ≡ que_of k (smbf i) ++ t ∷ []
  joined_last = rw fifo refl

  waiting-IsAppended :
      (is_next k i && mbf_free (k.mbfcb i) m.size) ≡ false
      → IsAppended k (waiting k t i tmout m) i ms m
  waiting-IsAppended r =
      let q = que_of k (smbf i) in
      let k' = waiting k t i tmout m in
      let now : que_of k' (smbf i) ≡ q ++ t ∷ [] =
        senders-blocked k t i tmout ms m v w absent p e ∙ joined_last in
      let own = message_of-blocked_self k t i tmout ms m v w absent p e in
      let others =
        messages_of-other k k' t q absent (message_of-blocked_ne k t i tmout ms m v w absent p e) in
      record {
        messages = ms;
        mbf =
            blocked-IsMbf k t i tmout ms m v w absent p e
              (λ top. ground (arith, r, top, is_next-top k t i c));
        behind =
            ap (λ q. ms ++ messages_of k' q) now
            ∙ ap (λ xs. ms ++ xs) (messages_of-snoc k' q t ∙ ap₂ (λ xs x. xs ++ x ∷ []) others own)
            ∙ sym (append_assoc ms (messages_of k q) (m ∷ []));
      }

  send_to-IsAppended : IsAppended k (send_to k i m tmout []).0 i ms m
  unfolding wait_to_send
  send_to-IsAppended = elim (Bool-cases (is_next k i && mbf_free (k.mbfcb i) m.size)) [
    | inl y ↦
        let by : (send_to k i m tmout []).0 ≡ set_mbfcb k i (msg_to_mbf (k.mbfcb i) m) =
          rw y refl in
        subst (λ k'. IsAppended k k' i ms m) (sym by)
          (stored-IsAppended (ground arith) (ground arith))
    | inr n ↦
        let by : (send_to k i m tmout []).0 ≡ waiting k t i tmout m = ground arith in
        subst (λ k'. IsAppended k k' i ms m) (sym by) (waiting-IsAppended n)
  ]

-- A message that the checks of `tk_snd_mbf` let through, of a task that is not in the send queue,
-- with a timeout that is not polling, goes behind all messages of the ring and of the waiting
-- senders, in a well formed buffer without TA_TPRI that nobody waits to receive from: stored in
-- the ring, or kept by the task that waits.
pub snd_mbf-IsAppended :
    (k : Kernel) (t i : ℕ) (msg : ℕ → ℕ) (msgsz tmout : ℤ) (ms : List Message)
    → IsMbf k i ms
    → magnitude msgsz < 2 ^ 31
    → k.ctxtsk ≡ some t
    → is_sent k i msgsz tmout ≡ true
    → any_bit (k.mbfcb i).mbfatr ta_tpri ≡ false
    → contains t (que_of k (smbf i)) ≡ false
    → is_pol tmout ≡ false
    → que_of k (rmbf i) ≡ []
    → IsAppended k (snd_mbf k i msg msgsz tmout).0 i ms (message msg msgsz)
snd_mbf-IsAppended k t i msg msgsz tmout ms v w c s fifo absent p e =
    let by = snd_mbf_through k i msg msgsz tmout s ∙ ap (send_to k i (message msg msgsz) tmout) e in
    subst (λ out. IsAppended k out.0 i ms (message msg msgsz)) (sym by)
      (send_to-IsAppended k t i tmout ms (message msg msgsz) v w c (ground (arith, s)) fifo absent p
        e)

-- The task `t` has got the message with E_OK and waits no longer.
pub record IsDelivered (k : Kernel) (t : ℕ) (m : Message) (out : Kernel × Reply) : Type 0 where
  pub reply : out.1 ≡ ret ok
  pub wercd : (out.0.tcb t).wercd ≡ ok
  pub state : (out.0.tcb t).state ≡ after_wait (k.tcb t).state
  pub size : (out.0.tcb t).winfo.rmbf.size ≡ m.size
  pub byte :
      (j : ℕ)
      → (out.0.tcb t).winfo.rmbf.byte j
        ≡ (if ltb j m.size then m.byte j else (k.tcb t).winfo.rmbf.byte j)
  pub buffers : out.0.mbfcb ≡ k.mbfcb

hand_over-IsDelivered :
    (k : Kernel) (t : ℕ) (m : Message)
    → IsDelivered k t m (wait_release_ok (hand_over k t m) t, ret ok)
unfolding wait_release_ok
hand_over-IsDelivered k t m =
    let self = tcb-release_self (hand_over k t m) t ok in
    record {
      reply = refl;
      wercd = ap (λ c. c.wercd) self;
      state = ap (λ c. c.state) self ∙ ap after_wait state_same;
      size = ap (λ c. c.winfo.rmbf.size) self ∙ size_same;
      byte = λ j. ap (λ c. c.winfo.rmbf.byte j) self ∙ byte-hand_over k t m j;
      buffers = mbfcb-release (hand_over k t m) t ok ∙ buffers_same;
    }
  where
    state_same : ((hand_over k t m).tcb t).state ≡ (k.tcb t).state
    state_same = unfold hand_over in ground arith

    size_same : ((hand_over k t m).tcb t).winfo.rmbf.size ≡ m.size
    size_same = unfold hand_over in ground arith

    buffers_same : (hand_over k t m).mbfcb ≡ k.mbfcb
    buffers_same = unfold hand_over in refl

receivers-hand_over :
    (k : Kernel) (t i : ℕ) (m : Message)
    → que_of (wait_release_ok (hand_over k t m) t) (rmbf i) ≡ without t (que_of k (rmbf i))
unfolding wait_release_ok hand_over
receivers-hand_over k t i m = que-release (hand_over k t m) t ok (rmbf i) refl

-- A message that the checks of `tk_snd_mbf` let through while tasks wait to receive goes to the
-- first of them: the call returns E_OK, that task has E_OK, the size and the bytes, with no other
-- byte of its memory changed, and waits no longer; it leaves the receive queue, and no buffer
-- changes.
pub snd_mbf-IsDelivered :
    (k : Kernel) (i t : ℕ) (ts : List ℕ) (msg : ℕ → ℕ) (msgsz tmout : ℤ)
    → is_sent k i msgsz tmout ≡ true
    → que_of k (rmbf i) ≡ t ∷ ts
    → IsDelivered k t (message msg msgsz) (snd_mbf k i msg msgsz tmout)
      × (que_of (snd_mbf k i msg msgsz tmout).0 (rmbf i) ≡ without t (t ∷ ts))
snd_mbf-IsDelivered k i t ts msg msgsz tmout s e =
    let m = message msg msgsz in
    let by = snd_mbf_through k i msg msgsz tmout s ∙ ap (send_to k i m tmout) e in
    (
      subst (IsDelivered k t m) (sym by) (hand_over-IsDelivered k t m),
      ap (λ out. que_of out.0 (rmbf i)) by ∙ receivers-hand_over k t i m ∙ ap (without t) e,
    )
