-- ===== src/MessageRing.antt =====
-- The ring of bytes of a message buffer (kernel/tkernel/messagebuf.c and messagebuf.h): each message
-- stands behind a header with its size, and both may go round at the end of the buffer. A W is the
-- word that holds it; the sizes and positions of a buffer are below 2^31, where its comparisons are
-- those of numbers.
pub mod Memory
pub mod Contents
pub mod Write
pub mod Read
use esp32c3_mtk.Prelude.{ℕ, ◌+◌, ◌-◌, ◌*◌, ◌/◌, ◌%◌, ◌^◌, Bool, ◌&&◌, ltb, leb, ◌==◌, if◌then◌else◌}
use esp32c3_mtk.Bits.{and_not}
use esp32c3_mtk.Types.{Message, Mbfcb}

-- `HEADERSZ`, the size of an INT.
abbrev pub headersz : ℕ
headersz = 4

-- `ROUNDSZ`
unfoldable pub roundsz : ℕ → ℕ
unfolding and_not
roundsz sz = and_not ((sz + 3) % 2 ^ 32) 3

abbrev pub add_w : ℕ → ℕ → ℕ
add_w a b = (a + b) % 2 ^ 32

abbrev pub sub_w : ℕ → ℕ → ℕ
sub_w a b = (a + 2 ^ 32 - b % 2 ^ 32) % 2 ^ 32

-- `knl_mbf_free`
unfoldable pub mbf_free : Mbfcb → ℕ → Bool
mbf_free b msgsz = leb (add_w headersz msgsz) b.frbufsz

-- `knl_mbf_empty`
unfoldable pub mbf_empty : Mbfcb → Bool
mbf_empty b = b.frbufsz == b.bufsz

-- `knl_memcpy(&dst[d], &src[s], n)`
unfoldable pub memcpy : (ℕ → ℕ) → ℕ → (ℕ → ℕ) → ℕ → ℕ → ℕ → ℕ
memcpy dst d src s n = λ j. if leb d j && ltb j (d + n) then src (s + (j - d)) else dst j

-- `*(HEADER*)&buffer[p] = v`, the lowest byte first.
unfoldable pub store_header : (ℕ → ℕ) → ℕ → ℕ → ℕ → ℕ
store_header buffer p v = λ j.
    if j == p
    then v % 256
    else if j == p + 1
    then v / 256 % 256
    else if j == p + 2
    then v / 65536 % 256
    else if j == p + 3
    then v / 16777216 % 256
    else buffer j

-- `*(HEADER*)&buffer[p]`
unfoldable pub load_header : (ℕ → ℕ) → ℕ → ℕ
load_header buffer p =
    buffer p + buffer (p + 1) * 256 + buffer (p + 2) * 65536 + buffer (p + 3) * 16777216

-- `if ( tail >= mbfcb->bufsz ) tail = 0;`
abbrev pub round_at : ℕ → ℕ → ℕ
round_at bufsz p = if leb bufsz p then 0 else p

-- `knl_msg_to_mbf`
unfoldable pub msg_to_mbf : Mbfcb → Message → Mbfcb
unfolding roundsz memcpy store_header
msg_to_mbf b m =
    let frbufsz = sub_w b.frbufsz (headersz + roundsz m.size) in
    let buffer = store_header b.buffer b.tail m.size in
    let tail = round_at b.bufsz (b.tail + headersz) in
    let remsz = b.bufsz - tail in
    if ltb remsz m.size
    then (record b {
      frbufsz = frbufsz;
      buffer = memcpy (memcpy buffer tail m.byte 0 remsz) 0 m.byte remsz (m.size - remsz);
      tail = round_at b.bufsz (0 + roundsz (m.size - remsz));
    })
    else (record b {
      frbufsz = frbufsz;
      buffer = memcpy buffer tail m.byte 0 m.size;
      tail = round_at b.bufsz (tail + roundsz m.size);
    })

-- `knl_mbf_to_msg`, which writes the message into the memory `msg`: the buffer, that memory with the
-- size that is returned.
unfoldable pub mbf_to_msg : Mbfcb → (ℕ → ℕ) → Mbfcb × Message
unfolding roundsz memcpy load_header
mbf_to_msg b msg =
    let msgsz = load_header b.buffer b.head in
    let frbufsz = add_w b.frbufsz (headersz + roundsz msgsz) in
    let head = round_at b.bufsz (b.head + headersz) in
    let remsz = b.bufsz - head in
    if ltb remsz msgsz
    then (
      record b { frbufsz = frbufsz; head = round_at b.bufsz (0 + roundsz (msgsz - remsz)) },
      record {
        size = msgsz;
        byte = memcpy (memcpy msg 0 b.buffer head remsz) remsz b.buffer 0 (msgsz - remsz);
      },
    )
    else (
      record b { frbufsz = frbufsz; head = round_at b.bufsz (head + roundsz msgsz) },
      record { size = msgsz; byte = memcpy msg 0 b.buffer head msgsz },
    )
