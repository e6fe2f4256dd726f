-- ===== src/MessageBuffer/Block.antt =====
-- "Ready for send wait" of `tk_snd_mbf` (kernel/tkernel/messagebuf.c).
use esp32c3_mtk.Prelude.{
  ℕ, ◌<◌, ◌^◌, ◌≡◌, ◌≢◌, refl, sym, ◌∙◌, ap, subst, true, false, List, [], ◌∷◌, ◌++◌, is_empty,
  contains, all_distinct, All, All-other, All-append, arith, if◌then◌else◌, ltb, ◌==◌, List-cases,
  Bool-cases, inl, inr, all_distinct-snoc, fun_ext,
}
use esp32c3_mtk.Bits.{any_bit}
use esp32c3_mtk.Types.{ℤ, Message, smbf, rmbf}
use esp32c3_mtk.Kernel.{Kernel, que_of, is_pol}
use esp32c3_mtk.Wait.{ta_tpri, priority_of, insert_tpri, gcb_make_wait, gcb_top_of_wait_queue}
use esp32c3_mtk.Wait.Block.{mbfcb-block, winfo-block, que-block, que-block_ne}
use esp32c3_mtk.Wait.Insertion.{all_distinct-insert_tpri, All-insert_tpri}
use esp32c3_mtk.Semaphore.Starving.{is_first}
use esp32c3_mtk.MessageRing.{mbf_free}
use esp32c3_mtk.MessageBuffer.{message_of, sending}
use esp32c3_mtk.MessageBuffer.Fifo.{is_held, IsMbf}

-- The state once the task in execution waits to send.
abbrev pub waiting : Kernel → ℕ → ℕ → ℤ → Message → Kernel
waiting k t i tmout m = (gcb_make_wait (sending k t i m) t (smbf i) i (k.mbfcb i).mbfatr tmout).0

-- The task in execution starts to wait.
module _ (k : Kernel) (t i : ℕ) (tmout : ℤ) (ms : List Message) (m : Message) (v : IsMbf k i ms)
    (w : m.size < 2 ^ 31) (absent : contains t (que_of k (smbf i)) ≡ false)
    (p : is_pol tmout ≡ false) (e : que_of k (rmbf i) ≡ []) where
  abbrev blocked : Kernel
  blocked = waiting k t i tmout m

  pub message_of-blocked_self : message_of blocked t ≡ m
  message_of-blocked_self =
      ap (λ w. w.smbf) (winfo-block (sending k t i m) t (smbf i) i (k.mbfcb i).mbfatr tmout t)
      ∙ here
    where
      here : message_of (sending k t i m) t ≡ m
      here = unfold sending in ground arith

  pub message_of-blocked_ne : (u : ℕ) → t ≢ u → message_of blocked u ≡ message_of k u
  message_of-blocked_ne u n =
      ap (λ w. w.smbf) (winfo-block (sending k t i m) t (smbf i) i (k.mbfcb i).mbfatr tmout u)
      ∙ there
    where
      there : message_of (sending k t i m) u ≡ message_of k u
      there = unfold sending in ground arith

  mbfcb-blocked : blocked.mbfcb ≡ k.mbfcb
  unfolding sending
  mbfcb-blocked = mbfcb-block (sending k t i m) t (smbf i) i (k.mbfcb i).mbfatr tmout

  receivers-blocked : que_of blocked (rmbf i) ≡ []
  unfolding sending
  receivers-blocked =
      que-block_ne (sending k t i m) t (smbf i) i (k.mbfcb i).mbfatr tmout (rmbf i) refl refl
        (ground (arith, ap (contains t) e))
      ∙ e

  abbrev pub joined : List ℕ
  joined =
      if any_bit (k.mbfcb i).mbfatr ta_tpri
      then insert_tpri (priority_of k) t (que_of k (smbf i))
      else que_of k (smbf i) ++ t ∷ []

  priority_of-sending : priority_of (sending k t i m) ≡ priority_of k
  unfolding sending
  priority_of-sending = fun_ext λ u. ground arith

  pub senders-blocked : que_of blocked (smbf i) ≡ joined
  unfolding sending
  senders-blocked =
      que-block (sending k t i m) t (smbf i) i (k.mbfcb i).mbfatr tmout refl p absent
      ∙ ap
          (λ f.
            if any_bit (k.mbfcb i).mbfatr ta_tpri
            then insert_tpri f t (que_of k (smbf i))
            else que_of k (smbf i) ++ t ∷ [])
          priority_of-sending

  joined-distinct : all_distinct joined ≡ true
  joined-distinct = ground (
    arith,
    all_distinct-insert_tpri (priority_of k) t (que_of k (smbf i)) v.stirred.senders absent,
    all_distinct-snoc t (que_of k (smbf i)) v.stirred.senders absent,
  )

  joined-sizes : All (λ u. (message_of blocked u).size < 2 ^ 31) joined
  joined-sizes =
      let P : ℕ → Type 0 = λ u. (message_of blocked u).size < 2 ^ 31 in
      let own : P t = omega (arith, w, ap (λ x. x.size) message_of-blocked_self) in
      let others : All P (que_of k (smbf i)) =
        All-other (λ u. (message_of k u).size < 2 ^ 31) P t (que_of k (smbf i)) absent
          (λ u n h. omega (arith, h, ap (λ x. x.size) (message_of-blocked_ne u n)))
          v.stirred.sizes in
      elim (Bool-cases (any_bit (k.mbfcb i).mbfatr ta_tpri)) [
        | inl b ↦ rw b (All-insert_tpri (priority_of k) t P (que_of k (smbf i)) own others)
        | inr b ↦ rw b (All-append P (que_of k (smbf i)) (t ∷ []) others (own, tt))
      ]

  -- The first of the queue has no room: it was first before, or it is the task itself.
  held_self :
      mbf_free (k.mbfcb i) m.size ≡ false → (ts : List ℕ) → is_held blocked i (t ∷ ts) ≡ true
  held_self f ts = ground (arith, f, ap (λ c. c i) mbfcb-blocked, message_of-blocked_self)

  held_other :
      (u : ℕ) (us ts : List ℕ)
      → t ≢ u
      → is_held k i (u ∷ us) ≡ true
      → is_held blocked i (u ∷ ts) ≡ true
  held_other u us ts n h = ground (arith, h, ap (λ c. c i) mbfcb-blocked, message_of-blocked_ne u n)

  held-insert_tpri :
      (q : List ℕ)
      → contains t q ≡ false
      → is_held k i q ≡ true
      → (is_first (priority_of k) t q ≡ true → mbf_free (k.mbfcb i) m.size ≡ false)
      → is_held blocked i (insert_tpri (priority_of k) t q) ≡ true
  unfolding insert_tpri
  held-insert_tpri [] c h r = held_self (r refl) []
  held-insert_tpri (u ∷ us) c h r = elim (Bool-cases (ltb (priority_of k t) (priority_of k u))) [
    | inl before ↦ rw before (held_self (r before) (u ∷ us))
    | inr after ↦
        rw after (held_other u us (insert_tpri (priority_of k) t us) (ground (arith, c)) h)
  ]

  held-snoc :
      (q : List ℕ)
      → contains t q ≡ false
      → is_held k i q ≡ true
      → (is_empty q ≡ true → mbf_free (k.mbfcb i) m.size ≡ false)
      → is_held blocked i (q ++ t ∷ []) ≡ true
  held-snoc [] c h r = held_self (r refl) []
  held-snoc (u ∷ us) c h r = held_other u us (us ++ t ∷ []) (ground (arith, c)) h

  top_of_first :
      any_bit (k.mbfcb i).mbfatr ta_tpri ≡ true
      → is_first (priority_of k) t (que_of k (smbf i)) ≡ true
      → (gcb_top_of_wait_queue k (smbf i) (k.mbfcb i).mbfatr t == t) ≡ true
  unfolding gcb_top_of_wait_queue
  top_of_first b f = ground (arith, List-cases (que_of k (smbf i)))

  top_of_empty :
      is_empty (que_of k (smbf i)) ≡ true
      → (gcb_top_of_wait_queue k (smbf i) (k.mbfcb i).mbfatr t == t) ≡ true
  unfolding gcb_top_of_wait_queue
  top_of_empty f = ground (arith, List-cases (que_of k (smbf i)))

  module _
      (refused : (gcb_top_of_wait_queue k (smbf i) (k.mbfcb i).mbfatr t == t) ≡ true
        → mbf_free (k.mbfcb i) m.size ≡ false) where
    joined-held : is_held blocked i joined ≡ true
    joined-held = elim (Bool-cases (any_bit (k.mbfcb i).mbfatr ta_tpri)) [
      | inl b ↦
          rw b
            (held-insert_tpri (que_of k (smbf i)) absent v.held (λ f. refused (top_of_first b f)))
      | inr b ↦ rw b (held-snoc (que_of k (smbf i)) absent v.held (λ f. refused (top_of_empty f)))
    ]

    pub blocked-IsMbf : IsMbf blocked i ms
    blocked-IsMbf = record {
      stirred = record {
        ring = rw (ap (λ c. c i) mbfcb-blocked) v.stirred.ring;
        senders = rw senders-blocked joined-distinct;
        receivers = rw receivers-blocked refl;
        sizes =
            subst (All (λ u. (message_of blocked u).size < 2 ^ 31)) (sym senders-blocked)
              joined-sizes;
        apart = rw receivers-blocked refl;
      };
      held = subst (λ q. is_held blocked i q ≡ true) (sym senders-blocked) joined-held;
    }
