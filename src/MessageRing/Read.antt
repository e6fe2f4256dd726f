-- ===== src/MessageRing/Read.antt =====
-- `knl_mbf_to_msg` of kernel/tkernel/messagebuf.c: the oldest message is taken out of the ring.
use esp32c3_mtk.Prelude.{
  ℕ, ◌+◌, ◌-◌, ◌≤◌, ◌<◌, ◌≡◌, sym, ◌∙◌, ap, true, false, List, [], ◌∷◌, ltb, if◌then◌else◌, arith,
  if_cases,
}
use esp32c3_mtk.Types.{Message, Mbfcb}
use esp32c3_mtk.MessageRing.{headersz, mbf_empty, memcpy, load_header, round_at, mbf_to_msg}
use esp32c3_mtk.MessageRing.Memory.{padded, roundsz-padded}
use esp32c3_mtk.MessageRing.Contents.{
  wrapped, total, HasBytes, Stored, IsRing, wrapped_aligned, wrapped-add, wrapped_lt,
}

-- `knl_mbf_empty` finds out whether the ring holds a message.
pub mbf_empty-IsRing :
    (b : Mbfcb) (m : Message) (ms : List Message) → IsRing b (m ∷ ms) → mbf_empty b ≡ false
unfolding mbf_empty
mbf_empty-IsRing b m ms v = ground (arith, v.used)

pub mbf_empty-nil : (b : Mbfcb) → IsRing b [] → mbf_empty b ≡ true
unfolding mbf_empty
mbf_empty-nil b v = ground (arith, v.used)

-- The memory of the receiver: `s` bytes of the ring come into it from position `h` on.
unfoldable received : ℕ → ℕ → (ℕ → ℕ) → (ℕ → ℕ) → ℕ → ℕ → ℕ
received n h buffer msg s =
    if ltb (n - h) s
    then memcpy (memcpy msg 0 buffer h (n - h)) (n - h) buffer 0 (s - (n - h))
    else memcpy msg 0 buffer h s

received_beyond : (n h s j : ℕ) (buffer msg : ℕ → ℕ) → s ≤ j → received n h buffer msg s j ≡ msg j
unfolding received memcpy
received_beyond n h s j buffer msg l = ground arith

mbf_to_msg-received :
    (b : Mbfcb) (msg : ℕ → ℕ)
    → (mbf_to_msg b msg).1.byte
      ≡ received b.bufsz
          (round_at b.bufsz (b.head + headersz))
          b.buffer
          msg
          (load_header b.buffer b.head)
unfolding mbf_to_msg received
mbf_to_msg-received b msg = ground arith

module _ (b : Mbfcb) (m : Message) (ms : List Message) (v : IsRing b (m ∷ ms)) (msg : ℕ → ℕ) where
  header : load_header b.buffer b.head ≡ m.size
  unfolding Stored
  header = v.stored.0

  has_bytes : HasBytes b.buffer b.bufsz (b.head + 4) m
  unfolding Stored
  has_bytes = v.stored.1

  rest : Stored b.buffer b.bufsz (wrapped b.bufsz (b.head + 4 + padded m.size)) ms
  unfolding Stored
  rest = v.stored.2

  head_lt : b.head < b.bufsz
  head_lt = omega (arith, v.used, v.head_in)

  fits : 4 + padded m.size + total ms ≤ b.bufsz
  fits = omega (arith, v.used)

  pub size-mbf_to_msg : (mbf_to_msg b msg).1.size ≡ m.size
  unfolding mbf_to_msg
  size-mbf_to_msg = ground (arith, header)

  byte_within : (j : ℕ) → j < m.size → (mbf_to_msg b msg).1.byte j ≡ m.byte j
  unfolding mbf_to_msg memcpy
  byte_within j l = ground (arith, header, has_bytes j l, v.aligned, v.head_aligned, head_lt, fits)

  byte_beyond : (j : ℕ) → m.size ≤ j → (mbf_to_msg b msg).1.byte j ≡ msg j
  byte_beyond j l =
      ap (λ f. f j) (mbf_to_msg-received b msg)
      ∙ received_beyond b.bufsz (round_at b.bufsz (b.head + headersz)) (load_header b.buffer b.head)
          j b.buffer msg (omega (arith, header))

  pub byte-mbf_to_msg :
      (j : ℕ) → (mbf_to_msg b msg).1.byte j ≡ (if ltb j m.size then m.byte j else msg j)
  byte-mbf_to_msg j =
      if_cases (λ x. (mbf_to_msg b msg).1.byte j ≡ x) (ltb j m.size) (m.byte j) (msg j)
        (λ l. byte_within j (ground (arith, l))) (λ l. byte_beyond j (ground (arith, l)))

  frbufsz-mbf_to_msg : (mbf_to_msg b msg).0.frbufsz ≡ b.frbufsz + (4 + padded m.size)
  unfolding mbf_to_msg
  frbufsz-mbf_to_msg = ground (arith, header, roundsz-padded m.size, v.used, v.small, fits)

  head-mbf_to_msg : (mbf_to_msg b msg).0.head ≡ wrapped b.bufsz (b.head + (4 + padded m.size))
  unfolding mbf_to_msg
  head-mbf_to_msg = ground (
    arith,
    header,
    roundsz-padded m.size,
    roundsz-padded (m.size - (b.bufsz - (b.head + 4))),
    v.small,
    v.aligned,
    v.head_aligned,
    head_lt,
    fits,
  )

  mbf_to_msg-same :
      ((mbf_to_msg b msg).0.bufsz ≡ b.bufsz)
      × ((mbf_to_msg b msg).0.tail ≡ b.tail)
      × ((mbf_to_msg b msg).0.buffer ≡ b.buffer)
  unfolding mbf_to_msg
  mbf_to_msg-same = ground arith

  pub mbf_to_msg-IsRing : IsRing (mbf_to_msg b msg).0 ms
  mbf_to_msg-IsRing =
      let (size, tail, buffer) = mbf_to_msg-same in
      let step = 4 + padded m.size in
      let at : b.head + 4 + padded m.size ≡ b.head + step = omega arith in
      let next = head-mbf_to_msg in
      let fit = fits in
      let lt = wrapped_lt b.bufsz b.head step head_lt (omega (arith, fit)) in
      let behind = wrapped-add b.bufsz b.head step (total ms) head_lt (omega (arith, fit)) in
      record {
        aligned = rw size v.aligned;
        small = rw size v.small;
        head_in = omega (arith, size, next, lt);
        head_aligned =
            rw next (wrapped_aligned b.bufsz b.head step v.aligned v.head_aligned (omega arith));
        used = omega (arith, size, frbufsz-mbf_to_msg, v.used);
        tail_at = rw (tail, size, next) (v.tail_at ∙ sym behind);
        stored = rw (buffer, size, next) (rw (← at) rest);
      }

  -- When the ring of a message buffer holds a message and others behind it, `knl_mbf_to_msg`
  -- returns the size of that message, writes its bytes and no others into the memory of the
  -- receiver, and makes the ring hold the others.
  pub mbf_to_msg_oldest :
      ((mbf_to_msg b msg).1.size ≡ m.size)
      × ((j : ℕ) → (mbf_to_msg b msg).1.byte j ≡ (if ltb j m.size then m.byte j else msg j))
      × IsRing (mbf_to_msg b msg).0 ms
  mbf_to_msg_oldest = (size-mbf_to_msg, byte-mbf_to_msg, mbf_to_msg-IsRing)
