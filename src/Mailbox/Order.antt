-- ===== src/Mailbox/Order.antt =====
-- The order of a mailbox's messages by priority (`knl_queue_insert_mpri` in kernel/tkernel/mailbox.h).
use esp32c3_mtk.Prelude.{◌≡◌, refl, sym, true, false, List, [], ◌∷◌, Bool-cases, inl, inr, arith}
use esp32c3_mtk.Types.{ℤ, pos, negsuc, Msg}
use esp32c3_mtk.Kernel.{leb_ℤ}
use esp32c3_mtk.Mailbox.{insert_mpri}

-- No message of a chain has a better priority than the one before it.
abbrev IsBelow : Msg → List Msg → Type 0
IsBelow m [] = Unit
IsBelow m (q ∷ qs) = leb_ℤ m.msgpri q.msgpri ≡ true

abbrev pub IsByMsgpri : List Msg → Type 0
IsByMsgpri [] = Unit
IsByMsgpri (m ∷ ms) = IsBelow m ms × IsByMsgpri ms

leb_ℤ_total : (a b : ℤ) → leb_ℤ a b ≡ false → leb_ℤ b a ≡ true
leb_ℤ_total (pos a) (pos b) h = ground arith
leb_ℤ_total (pos a) (negsuc b) h = refl
leb_ℤ_total (negsuc a) (pos b) h = sym h
leb_ℤ_total (negsuc a) (negsuc b) h = ground arith

insert_mpri-IsBelow :
    (p m : Msg) (ms : List Msg)
    → leb_ℤ p.msgpri m.msgpri ≡ true
    → IsBelow p ms
    → IsBelow p (insert_mpri m ms)
unfolding insert_mpri
insert_mpri-IsBelow p m [] h g = h
insert_mpri-IsBelow p m (q ∷ qs) h g = elim (Bool-cases (leb_ℤ q.msgpri m.msgpri)) [
  | inl b ↦ rw b g
  | inr b ↦ rw b h
]

-- `knl_queue_insert_mpri` keeps a chain of messages in the order of their priorities.
pub insert_mpri-IsByMsgpri :
    (m : Msg) (ms : List Msg) → IsByMsgpri ms → IsByMsgpri (insert_mpri m ms)
unfolding insert_mpri
insert_mpri-IsByMsgpri m [] v = (tt, tt)
insert_mpri-IsByMsgpri m (q ∷ qs) v = elim (Bool-cases (leb_ℤ q.msgpri m.msgpri)) [
  | inl b ↦ rw b (insert_mpri-IsBelow q m qs b v.0, insert_mpri-IsByMsgpri m qs v.1)
  | inr b ↦ rw b (leb_ℤ_total q.msgpri m.msgpri b, v)
]
