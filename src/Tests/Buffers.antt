-- ===== src/Tests/Buffers.antt =====
-- A message buffer in concrete states, and the theorems at them.
use esp32c3_mtk.Prelude.{
  ℕ, ◌+◌, ◌≡◌, refl, true, false, List, [], ◌∷◌, if◌then◌else◌, ltb, some, contains, arith,
}
use esp32c3_mtk.Types.{pos, negsuc, Message, Mbfcb, Queues, same, smbf, rmbf}
use esp32c3_mtk.Kernel.{Kernel}
use esp32c3_mtk.MessageRing.{msg_to_mbf, mbf_to_msg, mbf_free}
use esp32c3_mtk.MessageRing.Contents.{IsRing, Stored}
use esp32c3_mtk.MessageRing.Write.{msg_to_mbf-IsRing}
use esp32c3_mtk.MessageRing.Read.{mbf_to_msg_oldest}
use esp32c3_mtk.MessageBuffer.{mbf_wakeup, snd_mbf, rcv_mbf}
use esp32c3_mtk.MessageBuffer.Fifo.{IsStirred, IsMbf}
use esp32c3_mtk.MessageBuffer.Wakeup.{IsWoken, mbf_wakeup-IsWoken}
use esp32c3_mtk.MessageBuffer.Receive.{IsReceived, rcv_mbf-IsReceived, rcv_mbf-IsMbf}
use esp32c3_mtk.MessageBuffer.Send.{snd_mbf-IsMbf}
use esp32c3_mtk.MessageBuffer.Order.{IsAppended, snd_mbf-IsAppended}
use esp32c3_mtk.Tests.{running, waiters}

-- A ring of 16 bytes, whose next message goes round.
abbrev empty_ring : Mbfcb
empty_ring = record {
  mbfid = 1;
  exinf = 0;
  mbfatr = 0;
  bufsz = 16;
  maxmsz = 12;
  frbufsz = 16;
  head = 8;
  tail = 8;
  buffer = λ j. 0;
}

abbrev five : Message
five = record { size = 5; byte = λ j. j + 65 }

abbrev three : Message
three = record { size = 3; byte = λ j. j + 97 }

empty_ring-IsRing : IsRing empty_ring []
unfolding Stored
empty_ring-IsRing = record {
  aligned = refl;
  small = omega arith;
  head_in = omega arith;
  head_aligned = refl;
  used = refl;
  tail_at = refl;
  stored = tt;
}

abbrev one_ring : Mbfcb
one_ring = msg_to_mbf empty_ring five

fits_empty : mbf_free empty_ring 5 ≡ true
unfolding mbf_free
fits_empty = refl

msg_to_mbf-IsRing_example : IsRing one_ring (five ∷ [])
msg_to_mbf-IsRing_example =
    msg_to_mbf-IsRing empty_ring [] five empty_ring-IsRing (omega arith) fits_empty

one_ring-IsRing : IsRing one_ring (five ∷ [])
one_ring-IsRing = msg_to_mbf-IsRing empty_ring [] five empty_ring-IsRing (omega arith) fits_empty

mbf_to_msg_oldest_example :
    ((mbf_to_msg one_ring (λ j. 0)).1.size ≡ 5)
    × ((j : ℕ) → (mbf_to_msg one_ring (λ j. 0)).1.byte j ≡ (if ltb j 5 then j + 65 else 0))
    × IsRing (mbf_to_msg one_ring (λ j. 0)).0 []
mbf_to_msg_oldest_example = mbf_to_msg_oldest one_ring five [] one_ring-IsRing (λ j. 0)

-- Task 2 waits to send a byte to message buffer 1.
abbrev sender : Queues
sender h = if same h (smbf 1) then 2 ∷ [] else waiters h

-- There is room for it.
abbrev roomy : Kernel
roomy = record running { mbfcb = λ i. empty_ring; rq = record running.rq { que = sender } }

roomy-IsStirred : IsStirred roomy 1 []
roomy-IsStirred = record {
  ring = empty_ring-IsRing;
  senders = refl;
  receivers = refl;
  sizes = (omega arith, tt);
  apart = refl;
}

mbf_wakeup-IsWoken_example : IsWoken roomy (mbf_wakeup roomy 1) 1 []
mbf_wakeup-IsWoken_example = mbf_wakeup-IsWoken roomy 1 [] roomy-IsStirred

-- There is none: the ring holds a message.
abbrev buffered : Kernel
buffered = record running { mbfcb = λ i. one_ring; rq = record running.rq { que = sender } }

buffered-IsMbf : IsMbf buffered 1 (five ∷ [])
unfolding mbf_free msg_to_mbf
buffered-IsMbf = record {
  stirred = record {
    ring = one_ring-IsRing;
    senders = refl;
    receivers = refl;
    sizes = (omega arith, tt);
    apart = refl;
  };
  held = refl;
}

rcv_mbf-IsReceived_example : IsReceived buffered 1 1 (five ∷ []) (rcv_mbf buffered 1 (pos 0))
unfolding msg_to_mbf
rcv_mbf-IsReceived_example =
    rcv_mbf-IsReceived buffered 1 1 (pos 0) (five ∷ []) buffered-IsMbf refl refl refl refl refl refl

rcv_mbf-IsMbf_example : (held : List Message) × IsMbf (rcv_mbf buffered 1 (pos 5)).0 1 held
rcv_mbf-IsMbf_example = rcv_mbf-IsMbf buffered 1 (pos 5) (five ∷ []) buffered-IsMbf (λ t e. refl)

absent_1 : (t : ℕ) → some 1 ≡ some t → contains t (2 ∷ []) ≡ false
absent_1 t e = ground arith

snd_mbf-IsMbf_example :
    (held : List Message) × IsMbf (snd_mbf buffered 1 three.byte (pos 3) (negsuc 0)).0 1 held
snd_mbf-IsMbf_example =
    snd_mbf-IsMbf buffered 1 three.byte (pos 3) (negsuc 0) (five ∷ []) buffered-IsMbf (omega arith)
      absent_1

snd_mbf-IsAppended_example :
    IsAppended buffered (snd_mbf buffered 1 three.byte (pos 3) (negsuc 0)).0 1 (five ∷ []) three
unfolding msg_to_mbf
snd_mbf-IsAppended_example =
    snd_mbf-IsAppended buffered 1 1 three.byte (pos 3) (negsuc 0) (five ∷ []) buffered-IsMbf
      (omega arith) refl refl refl refl refl refl

-- Tasks 2 and 3 wait to receive.
abbrev receivers : Queues
receivers h = if same h (rmbf 1) then 2 ∷ 3 ∷ [] else waiters h

abbrev receiving : Kernel
receiving = record running { mbfcb = λ i. empty_ring; rq = record running.rq { que = receivers } }
