-- ===== src/MessageBuffer/Wakeup.antt =====
-- `knl_mbf_wakeup` of kernel/tkernel/messagebuf.c: the waiting tasks whose messages have room.
use esp32c3_mtk.Prelude.{
  ℕ, zero, suc, ◌≤◌, ◌<◌, ◌^◌, ◌≡◌, refl, sym, ◌∙◌, ap, subst, true, not, List, [], ◌∷◌, ◌++◌,
  without, all_distinct, All, arith, length, without_head, append_assoc, List-cases, inl, inr,
  is_empty→nil, if_cases,
}
use esp32c3_mtk.Types.{Message, smbf, rmbf, ok}
use esp32c3_mtk.Kernel.{Kernel, que_of}
use esp32c3_mtk.Wait.Frame.{que-release, mbfcb-release, winfo-release}
use esp32c3_mtk.MessageRing.{mbf_free, msg_to_mbf}
use esp32c3_mtk.MessageRing.Write.{msg_to_mbf-IsRing}
use esp32c3_mtk.MessageBuffer.{
  message_of, set_mbfcb, store_from, wakeup_from, wakeup_first, mbf_wakeup,
}
use esp32c3_mtk.MessageBuffer.Fifo.{
  messages_of, stream, is_held, IsStirred, IsMbf, messages_of-same, sizes-same,
}

module _ (k : Kernel) (i t : ℕ) where
  abbrev with_message : Kernel
  with_message = set_mbfcb k i (msg_to_mbf (k.mbfcb i) (message_of k t))

  mbfcb-store_from : (store_from k i t).mbfcb i ≡ msg_to_mbf (k.mbfcb i) (message_of k t)
  unfolding store_from
  mbfcb-store_from = ground (arith, mbfcb-release with_message t ok)

  winfo-store_from : (u : ℕ) → ((store_from k i t).tcb u).winfo ≡ (k.tcb u).winfo
  unfolding store_from
  winfo-store_from u = winfo-release with_message t ok u

  senders-store_from : que_of (store_from k i t) (smbf i) ≡ without t (que_of k (smbf i))
  unfolding store_from
  senders-store_from = que-release with_message t ok (smbf i) refl

  receivers-store_from : que_of (store_from k i t) (rmbf i) ≡ without t (que_of k (rmbf i))
  unfolding store_from
  receivers-store_from = que-release with_message t ok (rmbf i) refl

-- One round: the message of the first waiting task goes behind those in the ring.
module _ (k : Kernel) (i t : ℕ) (ts : List ℕ) (ms : List Message) (v : IsStirred k i ms)
    (e : que_of k (smbf i) ≡ t ∷ ts) (f : mbf_free (k.mbfcb i) (message_of k t).size ≡ true) where
  rest_of_senders : que_of (store_from k i t) (smbf i) ≡ ts
  rest_of_senders =
      senders-store_from k i t
      ∙ ap (without t) e
      ∙ without_head t ts (subst (λ q. all_distinct q ≡ true) e v.senders)

  distinct_rest : all_distinct ts ≡ true
  distinct_rest = ground (arith, subst (λ q. all_distinct q ≡ true) e v.senders)

  no_receivers : que_of k (rmbf i) ≡ []
  no_receivers = is_empty→nil (que_of k (rmbf i)) (ground (arith, v.apart))

  store_from-IsStirred : IsStirred (store_from k i t) i (ms ++ message_of k t ∷ [])
  store_from-IsStirred =
      let sizes = subst (All (λ u. (message_of k u).size < 2 ^ 31)) e v.sizes in
      record {
        ring =
            rw (mbfcb-store_from k i t)
              (msg_to_mbf-IsRing (k.mbfcb i) ms (message_of k t) v.ring sizes.0 f);
        senders = rw rest_of_senders distinct_rest;
        receivers = rw (receivers-store_from k i t, no_receivers) refl;
        sizes = rw rest_of_senders (
            sizes-same k (store_from k i t) ts (λ u. ap (λ w. w.smbf) (winfo-store_from k i t u))
              sizes.1);
        apart = rw (receivers-store_from k i t, no_receivers) refl;
      }

  stream-store_from : stream (store_from k i t) i (ms ++ message_of k t ∷ []) ≡ stream k i ms
  stream-store_from =
      rw (rest_of_senders, e)
        (append_assoc ms (message_of k t ∷ []) (messages_of (store_from k i t) ts)
          ∙ ap (λ xs. ms ++ message_of k t ∷ xs)
              (messages_of-same k (store_from k i t) ts
                (λ u. ap (λ w. w.smbf) (winfo-store_from k i t u))))

-- What the wakeup does: it changes nobody's place in the stream, and leaves nobody waiting who is
-- first and has room.
pub record IsWoken (k k' : Kernel) (i : ℕ) (ms : List Message) : Type 0 where
  pub messages : List Message
  pub mbf : IsMbf k' i messages
  pub same : stream k' i messages ≡ stream k i ms
  pub winfo : (u : ℕ) → (k'.tcb u).winfo ≡ (k.tcb u).winfo

stays-IsWoken :
    (k : Kernel) (i : ℕ) (ms : List Message)
    → IsStirred k i ms
    → is_held k i (que_of k (smbf i)) ≡ true
    → IsWoken k k i ms
stays-IsWoken k i ms v h = record {
  messages = ms;
  mbf = record { stirred = v; held = h };
  same = refl;
  winfo = λ u. refl;
}

-- One round before the others.
after-IsWoken :
    (k k' : Kernel) (i t : ℕ) (ts : List ℕ) (ms : List Message)
    → IsStirred k i ms
    → que_of k (smbf i) ≡ t ∷ ts
    → mbf_free (k.mbfcb i) (message_of k t).size ≡ true
    → IsWoken (store_from k i t) k' i (ms ++ message_of k t ∷ [])
    → IsWoken k k' i ms
after-IsWoken k k' i t ts ms v e f w = record {
  messages = w.messages;
  mbf = w.mbf;
  same = w.same ∙ stream-store_from k i t ts ms v e f;
  winfo = λ u. w.winfo u ∙ winfo-store_from k i t u;
}

wakeup_from-IsWoken :
    (fuel : ℕ) (k : Kernel) (i : ℕ) (ms : List Message)
    → IsStirred k i ms
    → length (que_of k (smbf i)) ≤ fuel
    → IsWoken k (wakeup_from fuel k i) i ms
unfolding wakeup_from
wakeup_from-IsWoken zero k i ms v h = elim (List-cases (que_of k (smbf i))) [
  | inl e ↦ stays-IsWoken k i ms v (ap (is_held k i) e)
  | inr (t, ts, e) ↦ absurd (omega (arith, ap length e))
]
wakeup_from-IsWoken (suc fuel) k i ms v h =
    let again : Kernel → Kernel = λ k'. wakeup_from fuel k' i in
    let by : List ℕ → Kernel = λ q. wakeup_first again k i q in
    elim (List-cases (que_of k (smbf i))) [
      | inl e ↦
          subst (λ k'. IsWoken k k' i ms) (sym (ap by e))
            (stays-IsWoken k i ms v (ap (is_held k i) e))
      | inr (t, ts, e) ↦
          subst (λ k'. IsWoken k k' i ms) (sym (ap by e))
            (if_cases (λ k'. IsWoken k k' i ms) (not (mbf_free (k.mbfcb i) (message_of k t).size)) k
              (again (store_from k i t))
              (λ full. stays-IsWoken k i ms v (ap (is_held k i) e ∙ full))
              (λ room.
                let f : mbf_free (k.mbfcb i) (message_of k t).size ≡ true = ground (arith, room) in
                after-IsWoken k (again (store_from k i t)) i t ts ms v e f (
                  wakeup_from-IsWoken fuel (store_from k i t) i (ms ++ message_of k t ∷ [])
                    (store_from-IsStirred k i t ts ms v e f)
                    (omega
                      (arith, h, ap length e, ap length (rest_of_senders k i t ts ms v e f))))))
    ]

-- `knl_mbf_wakeup`, with as many rounds as tasks wait to send, leaves nobody waiting to send who
-- is first and has room, keeps the buffer well formed, and keeps the order of all messages in the
-- ring and of waiting senders; it changes what no task waits with.
pub mbf_wakeup-IsWoken :
    (k : Kernel) (i : ℕ) (ms : List Message) → IsStirred k i ms → IsWoken k (mbf_wakeup k i) i ms
unfolding mbf_wakeup
mbf_wakeup-IsWoken k i ms v =
    wakeup_from-IsWoken (length (que_of k (smbf i))) k i ms v (omega arith)
