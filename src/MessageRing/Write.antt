-- ===== src/MessageRing/Write.antt =====
-- `knl_msg_to_mbf` of kernel/tkernel/messagebuf.c: a message is put behind those that the ring holds.
use esp32c3_mtk.Prelude.{
  ℕ, ◌+◌, ◌-◌, ◌%◌, ◌^◌, ◌≤◌, ◌<◌, ◌≡◌, ◌∙◌, ap, subst, true, List, [], ◌∷◌, ◌++◌, ltb,
  if◌then◌else◌, arith, ◌⊎◌,
}
use esp32c3_mtk.Types.{Message, Mbfcb}
use esp32c3_mtk.MessageRing.{
  headersz, roundsz, mbf_free, memcpy, store_header, load_header, round_at, msg_to_mbf,
}
use esp32c3_mtk.MessageRing.Memory.{padded, roundsz-padded, load_header-store_header}
use esp32c3_mtk.MessageRing.Contents.{
  wrapped, total, HasBytes, Agree, Stored, Stored-Agree, Stored-snoc, IsRing, wrapped_aligned,
  wrapped-add, total_aligned, total-append,
}

-- The copy of `sz` bytes to position `t` of a ring of `n` bytes, in two parts where it goes round.
unfoldable pub copied : ℕ → ℕ → (ℕ → ℕ) → ℕ → (ℕ → ℕ) → ℕ → ℕ
copied n t byte sz buffer =
    if ltb (n - t) sz
    then memcpy (memcpy buffer t byte 0 (n - t)) 0 byte (n - t) (sz - (n - t))
    else memcpy buffer t byte 0 sz

module _ (n t : ℕ) (byte : ℕ → ℕ) (sz : ℕ) (buffer : ℕ → ℕ) (h : t < n) (s : sz ≤ n) where
  copied_inside : (j : ℕ) → j < sz → copied n t byte sz buffer (wrapped n (t + j)) ≡ byte j
  unfolding copied memcpy
  copied_inside j l = ground arith

  copied_outside :
      (j : ℕ)
      → sz ≤ j
      → j < n
      → copied n t byte sz buffer (wrapped n (t + j)) ≡ buffer (wrapped n (t + j))
  unfolding copied memcpy
  copied_outside j l g = ground arith

-- The memory once the header and the message are stored at `t`.
abbrev put : ℕ → ℕ → Message → (ℕ → ℕ) → ℕ → ℕ
put n t m buffer = copied n (wrapped n (t + 4)) m.byte m.size (store_header buffer t m.size)

module _ (n t : ℕ) (m : Message) (buffer : ℕ → ℕ) (h : t < n) (four : n % 4 ≡ 0) (at4 : t % 4 ≡ 0)
    (s : 4 + m.size ≤ n) (w : m.size < 2 ^ 31) where
  put_header : (q : ℕ) → t ≤ q → q < t + 4 → put n t m buffer q ≡ store_header buffer t m.size q
  put_header q g l =
      let here : wrapped n (wrapped n (t + 4) + (n - 4 + (q - t))) ≡ q = ground arith in
      subst (λ q. put n t m buffer q ≡ store_header buffer t m.size q) here
        (copied_outside n (wrapped n (t + 4)) m.byte m.size (store_header buffer t m.size)
          (ground arith) (omega arith) (n - 4 + (q - t)) (omega arith) (omega arith))

  put-load_header : load_header (put n t m buffer) t ≡ m.size
  unfolding load_header
  put-load_header = same_bytes ∙ load_header-store_header buffer t m.size (omega arith)
    where
      same_bytes : load_header (put n t m buffer) t ≡ load_header (store_header buffer t m.size) t
      same_bytes = omega (
        arith,
        put_header t (omega arith) (omega arith),
        put_header (t + 1) (omega arith) (omega arith),
        put_header (t + 2) (omega arith) (omega arith),
        put_header (t + 3) (omega arith) (omega arith),
      )

  put-HasBytes : HasBytes (put n t m buffer) n (t + 4) m
  put-HasBytes j l =
      let at : wrapped n (wrapped n (t + 4) + j) ≡ wrapped n (t + 4 + j) = ground arith in
      subst (λ q. put n t m buffer q ≡ m.byte j) at
        (copied_inside n (wrapped n (t + 4)) m.byte m.size (store_header buffer t m.size)
          (ground arith) (omega arith) j l)

  store_header_ne : (q : ℕ) → (q < t) ⊎ (t + 4 ≤ q) → store_header buffer t m.size q ≡ buffer q
  unfolding store_header
  store_header_ne q g = ground arith

  put-Agree :
      (p u : ℕ)
      → p < n
      → t ≡ wrapped n (p + u)
      → u + 4 + m.size ≤ n
      → Agree buffer (put n t m buffer) n p u
  put-Agree p u g e b j l =
      let at : wrapped n (wrapped n (t + 4) + (n - 4 - u + j)) ≡ wrapped n (p + j) = ground arith in
      subst (λ q. put n t m buffer q ≡ store_header buffer t m.size q) at
        (copied_outside n (wrapped n (t + 4)) m.byte m.size (store_header buffer t m.size)
          (ground arith) (omega arith) (n - 4 - u + j) (omega arith) (omega arith))
      ∙ store_header_ne (wrapped n (p + j)) (ground arith)

store_header_beyond :
    (buffer : ℕ → ℕ) (t v q : ℕ) → t + 4 ≤ q → store_header buffer t v q ≡ buffer q
unfolding store_header
store_header_beyond buffer t v q g = ground arith

copied_beyond :
    (n t : ℕ) (byte : ℕ → ℕ) (sz : ℕ) (buffer : ℕ → ℕ) (q : ℕ)
    → t < n
    → sz ≤ n
    → n ≤ q
    → copied n t byte sz buffer q ≡ buffer q
unfolding copied memcpy
copied_beyond n t byte sz buffer q h s g = ground arith

-- The fields that `knl_msg_to_mbf` sets.
msg_to_mbf-buffer :
    (b : Mbfcb) (m : Message)
    → b.tail < b.bufsz
    → b.bufsz % 4 ≡ 0
    → b.tail % 4 ≡ 0
    → (msg_to_mbf b m).buffer ≡ put b.bufsz b.tail m b.buffer
unfolding msg_to_mbf copied
msg_to_mbf-buffer b m h f a =
    let start : round_at b.bufsz (b.tail + headersz) ≡ wrapped b.bufsz (b.tail + 4) =
      ground arith in
    ground arith

msg_to_mbf-tail :
    (b : Mbfcb) (m : Message)
    → b.tail < b.bufsz
    → b.bufsz % 4 ≡ 0
    → b.tail % 4 ≡ 0
    → m.size < 2 ^ 31
    → 4 + m.size ≤ b.bufsz
    → (msg_to_mbf b m).tail ≡ wrapped b.bufsz (b.tail + (4 + padded m.size))
unfolding msg_to_mbf
msg_to_mbf-tail b m h f a w s =
    ground (arith, roundsz-padded m.size w, roundsz-padded (m.size - (b.bufsz - (b.tail + 4))))

msg_to_mbf-frbufsz :
    (b : Mbfcb) (m : Message)
    → m.size < 2 ^ 31
    → b.frbufsz < 2 ^ 31
    → 4 + padded m.size ≤ b.frbufsz
    → (msg_to_mbf b m).frbufsz ≡ b.frbufsz - (4 + padded m.size)
unfolding msg_to_mbf
msg_to_mbf-frbufsz b m w f s = ground (arith, roundsz-padded m.size w)

-- A message for which there is room leaves room for its rounding too.
pub free_rounds_up :
    (b : Mbfcb) (ms : List Message) (m : Message)
    → IsRing b ms
    → m.size < 2 ^ 31
    → mbf_free b m.size ≡ true
    → 4 + padded m.size ≤ b.frbufsz
unfolding mbf_free
free_rounds_up b ms m v w f =
    let room : 4 + m.size ≤ b.frbufsz = ground (arith, v.used, v.small) in
    omega (arith, v.used, v.aligned, total_aligned ms)

-- What `knl_msg_to_mbf` does not touch.
msg_to_mbf-same :
    (b : Mbfcb) (m : Message)
    → ((msg_to_mbf b m).bufsz ≡ b.bufsz) × ((msg_to_mbf b m).head ≡ b.head)
unfolding msg_to_mbf
msg_to_mbf-same b m = ground arith

module _ (b : Mbfcb) (ms : List Message) (m : Message) (v : IsRing b ms) (w : m.size < 2 ^ 31)
    (f : mbf_free b m.size ≡ true) where
  room : 4 + padded m.size ≤ b.frbufsz
  room = free_rounds_up b ms m v w f

  tail_in : b.tail < b.bufsz
  tail_in = ground (arith, room, v.used, v.head_in, v.tail_at)

  tail_aligned : b.tail % 4 ≡ 0
  tail_aligned =
      rw v.tail_at
        (wrapped_aligned b.bufsz b.head (total ms) v.aligned v.head_aligned (total_aligned ms))

  stored_behind : Stored (put b.bufsz b.tail m b.buffer) b.bufsz b.head (ms ++ m ∷ [])
  stored_behind =
      let head_lt : b.head < b.bufsz = omega (arith, v.head_in, tail_in) in
      let fits : total ms + 4 + m.size ≤ b.bufsz = omega (arith, room, v.used) in
      let fits_alone : 4 + m.size ≤ b.bufsz = omega (arith, fits) in
      let old =
        Stored-Agree b.buffer (put b.bufsz b.tail m b.buffer) b.bufsz v.aligned ms b.head (total ms)
          head_lt v.head_aligned (omega arith) (omega (arith, fits))
          (put-Agree b.bufsz b.tail m b.buffer tail_in v.aligned tail_aligned fits_alone w b.head
            (total ms) head_lt v.tail_at fits)
          v.stored in
      Stored-snoc (put b.bufsz b.tail m b.buffer) b.bufsz ms m b.head head_lt (omega (arith, fits))
        old
        (subst (λ p. load_header (put b.bufsz b.tail m b.buffer) p ≡ m.size) v.tail_at
          (put-load_header b.bufsz b.tail m b.buffer tail_in v.aligned tail_aligned fits_alone w))
        (subst (λ p. HasBytes (put b.bufsz b.tail m b.buffer) b.bufsz (p + 4) m) v.tail_at
          (put-HasBytes b.bufsz b.tail m b.buffer tail_in v.aligned tail_aligned fits_alone w))

  tail_behind : (msg_to_mbf b m).tail ≡ wrapped b.bufsz (b.head + total (ms ++ m ∷ []))
  tail_behind =
      let head_lt : b.head < b.bufsz = omega (arith, v.head_in, tail_in) in
      let sums : total ms + (4 + padded m.size) ≡ total (ms ++ m ∷ []) =
        omega (arith, total-append ms (m ∷ [])) in
      msg_to_mbf-tail b m tail_in v.aligned tail_aligned w (omega (arith, room, v.used))
      ∙ ap (λ p. wrapped b.bufsz (p + (4 + padded m.size))) v.tail_at
      ∙ wrapped-add b.bufsz b.head (total ms) (4 + padded m.size) head_lt
          (omega (arith, room, v.used))
      ∙ ap (λ s. wrapped b.bufsz (b.head + s)) sums

  pub frbufsz-msg_to_mbf : (msg_to_mbf b m).frbufsz ≡ b.frbufsz - (4 + padded m.size)
  frbufsz-msg_to_mbf = msg_to_mbf-frbufsz b m w (omega (arith, v.used, v.small)) room

  -- When the ring of a message buffer holds messages, and `knl_mbf_free` finds room for one more,
  -- whose size is an INT, `knl_msg_to_mbf` makes it hold these messages and behind them the new
  -- one, also where its bytes go round at the end of the buffer.
  pub msg_to_mbf-IsRing : IsRing (msg_to_mbf b m) (ms ++ m ∷ [])
  msg_to_mbf-IsRing =
      let same = msg_to_mbf-same b m in
      let one = total-append ms (m ∷ []) in
      record {
        aligned = rw same.0 v.aligned;
        small = rw same.0 v.small;
        head_in = rw (same.0, same.1) v.head_in;
        head_aligned = rw same.1 v.head_aligned;
        used = omega (
          arith,
          same.0,
          one,
          room,
          v.used,
          v.small,
          msg_to_mbf-frbufsz b m w (omega (arith, v.used, v.small)) room,
        );
        tail_at = rw (same.0, same.1) tail_behind;
        stored =
            rw (same.0, same.1, msg_to_mbf-buffer b m tail_in v.aligned tail_aligned) stored_behind;
      }

  -- Where `knl_mbf_free` finds room for a message, whose size is an INT, by its size before
  -- rounding, the ring also has room for the size that `ROUNDSZ` makes of it, so the subtraction
  -- from `frbufsz` does not wrap around, and `knl_msg_to_mbf` writes no byte behind the end of the
  -- buffer.
  pub msg_to_mbf_within :
      (4 + roundsz m.size ≤ b.frbufsz)
      × ((q : ℕ) → b.bufsz ≤ q → (msg_to_mbf b m).buffer q ≡ b.buffer q)
  msg_to_mbf_within = (omega (arith, room, roundsz-padded m.size w), outside)
    where
      outside : (q : ℕ) → b.bufsz ≤ q → (msg_to_mbf b m).buffer q ≡ b.buffer q
      outside q g =
          let fits : 4 + m.size ≤ b.bufsz = omega (arith, room, v.used) in
          let next : wrapped b.bufsz (b.tail + 4) < b.bufsz = ground (arith, tail_in) in
          let end : b.tail + 4 ≤ b.bufsz = omega (arith, tail_in, tail_aligned, v.aligned) in
          ap (λ f. f q) (msg_to_mbf-buffer b m tail_in v.aligned tail_aligned)
          ∙ copied_beyond b.bufsz (wrapped b.bufsz (b.tail + 4)) m.byte m.size
              (store_header b.buffer b.tail m.size) q next (omega (arith, fits)) g
          ∙ store_header_beyond b.buffer b.tail m.size q (omega (arith, end, g))
