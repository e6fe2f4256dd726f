-- ===== src/MessageBuffer/Send.antt =====
-- `tk_snd_mbf` of kernel/tkernel/messagebuf.c: a message goes to the first receiver, or behind those
-- that the ring and the waiting senders hold.
use esp32c3_mtk.Prelude.{
  ℕ, ◌≤◌, ◌<◌, ◌^◌, ◌≡◌, refl, sym, ◌∙◌, ap, subst, Bool, true, false, not, ◌&&◌, List, [], ◌∷◌,
  ◌++◌, is_empty, contains, without, arith, ◌==◌, List-cases, Bool-cases, Option-cases, inl, inr,
  ◌⊎◌, is_empty→nil, all_distinct-without, some, leb,
}
use esp32c3_mtk.Bits.{any_bit}
use esp32c3_mtk.Types.{ℤ, Message, smbf, rmbf, ok}
use esp32c3_mtk.Kernel.{
  Kernel, que_of, in_range, max_mbfid, is_tmout, in_ddsp, is_pol, is_positive, magnitude,
}
use esp32c3_mtk.Wait.{ta_tpri, wait_release_ok, gcb_top_of_wait_queue}
use esp32c3_mtk.Wait.Frame.{que-release, mbfcb-release}
use esp32c3_mtk.MessageRing.{mbf_free, msg_to_mbf}
use esp32c3_mtk.MessageRing.Contents.{IsRing}
use esp32c3_mtk.MessageRing.Write.{msg_to_mbf-IsRing, frbufsz-msg_to_mbf}
use esp32c3_mtk.MessageBuffer.{
  message_of, hand_over, set_mbfcb, is_next, send_to, wait_to_send, snd_mbf,
}
use esp32c3_mtk.MessageBuffer.Fifo.{is_held, IsMbf}
use esp32c3_mtk.MessageBuffer.Block.{waiting, blocked-IsMbf}

-- A message that is stored leaves less room.
held-less :
    (k k' : Kernel) (i : ℕ) (ts : List ℕ)
    → (k'.mbfcb i).frbufsz ≤ (k.mbfcb i).frbufsz
    → ((u : ℕ) → message_of k' u ≡ message_of k u)
    → is_held k i ts ≡ true
    → is_held k' i ts ≡ true
unfolding mbf_free
held-less k k' i [] l e h = refl
held-less k k' i (t ∷ ts) l e h = ground (arith, ap (λ m. m.size) (e t), h, l)

frbufsz-stored :
    (k : Kernel) (i : ℕ) (ms : List Message) (m : Message)
    → IsRing (k.mbfcb i) ms
    → m.size < 2 ^ 31
    → mbf_free (k.mbfcb i) m.size ≡ true
    → ((set_mbfcb k i (msg_to_mbf (k.mbfcb i) m)).mbfcb i).frbufsz ≤ (k.mbfcb i).frbufsz
frbufsz-stored k i ms m v w f = ground (arith, frbufsz-msg_to_mbf (k.mbfcb i) ms m v w f)

pub stored-IsMbf :
    (k : Kernel) (i : ℕ) (ms : List Message) (m : Message)
    → IsMbf k i ms
    → m.size < 2 ^ 31
    → mbf_free (k.mbfcb i) m.size ≡ true
    → que_of k (rmbf i) ≡ []
    → IsMbf (set_mbfcb k i (msg_to_mbf (k.mbfcb i) m)) i (ms ++ m ∷ [])
stored-IsMbf k i ms m v w f e = record {
  stirred = record {
    ring = ground (arith, msg_to_mbf-IsRing (k.mbfcb i) ms m v.stirred.ring w f);
    senders = v.stirred.senders;
    receivers = v.stirred.receivers;
    sizes = v.stirred.sizes;
    apart = rw e refl;
  };
  held =
      held-less k (set_mbfcb k i (msg_to_mbf (k.mbfcb i) m)) i (que_of k (smbf i))
        (frbufsz-stored k i ms m v.stirred.ring w f) (λ u. refl) v.held;
}

-- A message that goes to a receiver leaves the buffer as it is: it held none.
delivered-IsMbf :
    (k : Kernel) (i t : ℕ) (ts : List ℕ) (ms : List Message) (m : Message)
    → IsMbf k i ms
    → que_of k (rmbf i) ≡ t ∷ ts
    → IsMbf (wait_release_ok (hand_over k t m) t) i ms
delivered-IsMbf k i t ts ms m v e =
    let k' = hand_over k t m in
    let none : que_of k (smbf i) ≡ [] =
      is_empty→nil (que_of k (smbf i)) (ground (arith, v.stirred.apart, ap is_empty e)) in
    let senders : que_of (wait_release_ok k' t) (smbf i) ≡ [] =
      unfold wait_release_ok hand_over in que-release k' t ok (smbf i) refl ∙ ap (without t) none in
    let receivers : que_of (wait_release_ok k' t) (rmbf i) ≡ without t (que_of k (rmbf i)) =
      unfold wait_release_ok hand_over in que-release k' t ok (rmbf i) refl in
    let same_cb : (wait_release_ok k' t).mbfcb ≡ k.mbfcb =
      unfold wait_release_ok hand_over in mbfcb-release k' t ok in
    record {
      stirred = record {
        ring = rw same_cb v.stirred.ring;
        senders = rw senders refl;
        receivers = rw receivers (all_distinct-without t (que_of k (rmbf i)) v.stirred.receivers);
        sizes = rw senders tt;
        apart = rw senders (ground (arith, v.stirred.apart, ap is_empty e));
      };
      held = rw senders refl;
    }

-- What `tk_snd_mbf` does on its paths.
abbrev pub message : (ℕ → ℕ) → ℤ → Message
message msg msgsz = record { size = magnitude msgsz; byte = msg }

send_to_outcome :
    (k : Kernel) (i : ℕ) (m : Message) (tmout : ℤ)
    → ((send_to k i m tmout []).0 ≡ k)
      ⊎ ((mbf_free (k.mbfcb i) m.size ≡ true)
          × (is_next k i ≡ true)
          × ((send_to k i m tmout []).0 ≡ set_mbfcb k i (msg_to_mbf (k.mbfcb i) m)))
      ⊎ ((t : ℕ) × (k.ctxtsk ≡ some t)
          × (is_pol tmout ≡ false)
          × ((is_next k i && mbf_free (k.mbfcb i) m.size) ≡ false)
          × ((send_to k i m tmout []).0 ≡ waiting k t i tmout m))
unfolding wait_to_send
send_to_outcome k i m tmout = elim (Bool-cases (is_next k i && mbf_free (k.mbfcb i) m.size)) [
  | inl y ↦ inr (inl (ground arith, ground arith, rw y refl))
  | inr n ↦ elim (Bool-cases (is_pol tmout)) [
    | inl p ↦ inl (rw (n, p) refl)
    | inr p ↦ elim (Option-cases k.ctxtsk) [
      | inl c ↦ inl (ground arith)
      | inr (t, c) ↦ inr (inr (t, c, p, n, ground arith))
    ]
  ]
]

snd_mbf_outcome :
    (k : Kernel) (i : ℕ) (msg : ℕ → ℕ) (msgsz tmout : ℤ)
    → ((snd_mbf k i msg msgsz tmout).0 ≡ k)
      ⊎ ((snd_mbf k i msg msgsz tmout) ≡ send_to k i (message msg msgsz) tmout (que_of k (rmbf i)))
unfolding snd_mbf
snd_mbf_outcome k i msg msgsz tmout = ground arith

-- The top of the queue is the task itself, outside of handlers.
pub is_next-top :
    (k : Kernel) (t i : ℕ)
    → k.ctxtsk ≡ some t
    → is_next k i ≡ false
    → (gcb_top_of_wait_queue k (smbf i) (k.mbfcb i).mbfatr t == t) ≡ false
unfolding is_next
is_next-top k t i c n = ground arith

send_to-IsMbf :
    (k : Kernel) (i : ℕ) (ms : List Message) (m : Message) (tmout : ℤ)
    → IsMbf k i ms
    → m.size < 2 ^ 31
    → ((t : ℕ) → k.ctxtsk ≡ some t → contains t (que_of k (smbf i)) ≡ false)
    → que_of k (rmbf i) ≡ []
    → (held : List Message) × IsMbf (send_to k i m tmout []).0 i held
send_to-IsMbf k i ms m tmout v w absent e = elim (send_to_outcome k i m tmout) [
  | inl same_state ↦ (ms, subst (λ k'. IsMbf k' i ms) (sym same_state) v)
  | inr (inl (f, n, by)) ↦ (
    ms ++ m ∷ [],
    subst (λ k'. IsMbf k' i (ms ++ m ∷ [])) (sym by) (stored-IsMbf k i ms m v w f e),
  )
  | inr (inr (t, c, p, r, by)) ↦ (
    ms,
    subst (λ k'. IsMbf k' i ms) (sym by)
        (blocked-IsMbf k t i tmout ms m v w (absent t c) p e
          (λ top. ground (arith, r, top, is_next-top k t i c))),
  )
]

-- `tk_snd_mbf` with a size that is an INT keeps a message buffer well formed on every path, when
-- the task in execution, if any, is not in its send queue: the ring holds whole messages, no task
-- is twice in a queue, nobody waits to receive while there is a message, and nobody waits to send
-- who is first and has room.
pub snd_mbf-IsMbf :
    (k : Kernel) (i : ℕ) (msg : ℕ → ℕ) (msgsz tmout : ℤ) (ms : List Message)
    → IsMbf k i ms
    → magnitude msgsz < 2 ^ 31
    → ((t : ℕ) → k.ctxtsk ≡ some t → contains t (que_of k (smbf i)) ≡ false)
    → (held : List Message) × IsMbf (snd_mbf k i msg msgsz tmout).0 i held
snd_mbf-IsMbf k i msg msgsz tmout ms v w absent = elim (snd_mbf_outcome k i msg msgsz tmout) [
  | inl e ↦ (ms, subst (λ k'. IsMbf k' i ms) (sym e) v)
  | inr by ↦ elim (List-cases (que_of k (rmbf i))) [
    | inl e ↦
        let (held, h) = send_to-IsMbf k i ms (message msg msgsz) tmout v w absent e in
        (
          held,
          subst (λ out. IsMbf out.0 i held)
              (sym (by ∙ ap (send_to k i (message msg msgsz) tmout) e)) h,
        )
    | inr (t, ts, e) ↦ (
      ms,
      subst (λ out. IsMbf out.0 i ms) (sym (by ∙ ap (send_to k i (message msg msgsz) tmout) e))
          (delivered-IsMbf k i t ts ms (message msg msgsz) v e),
    )
  ]
]

-- The checks of `tk_snd_mbf` let a message of a task through.
abbrev pub is_sent : Kernel → ℕ → ℤ → ℤ → Bool
is_sent k i msgsz tmout =
    in_range i max_mbfid
    && is_positive msgsz
    && is_tmout tmout
    && not (in_ddsp k)
    && not ((k.mbfcb i).mbfid == 0)
    && leb (magnitude msgsz) (k.mbfcb i).maxmsz

pub snd_mbf_through :
    (k : Kernel) (i : ℕ) (msg : ℕ → ℕ) (msgsz tmout : ℤ)
    → is_sent k i msgsz tmout ≡ true
    → snd_mbf k i msg msgsz tmout ≡ send_to k i (message msg msgsz) tmout (que_of k (rmbf i))
unfolding snd_mbf
snd_mbf_through k i msg msgsz tmout s = ground arith

-- Without priorities a task is next only when nobody waits.
pub fifo_next :
    (k : Kernel) (t i : ℕ)
    → k.ctxtsk ≡ some t
    → in_ddsp k ≡ false
    → any_bit (k.mbfcb i).mbfatr ta_tpri ≡ false
    → contains t (que_of k (smbf i)) ≡ false
    → is_next k i ≡ true
    → que_of k (smbf i) ≡ []
unfolding is_next gcb_top_of_wait_queue
fifo_next k t i c d a absent n = elim (List-cases (que_of k (smbf i))) [
  | inl e ↦ e
  | inr (u, us, e) ↦ absurd (ground (arith, e))
]
