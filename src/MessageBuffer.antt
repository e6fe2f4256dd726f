-- ===== src/MessageBuffer.antt =====
-- kernel/tkernel/messagebuf.c: sending to message buffers and receiving from them. The ring of bytes
-- is in MessageRing.
pub mod Manage
pub mod Fifo
pub mod Wakeup
pub mod Block
pub mod Send
pub mod Order
pub mod Receive
use esp32c3_mtk.Prelude.{
  ℕ, zero, suc, ◌+◌, ◌≤◌, ◌<◌, ◌^◌, ◌≡◌, Bool, true, false, not, ◌&&◌, ◌||◌, List, [], ◌∷◌, ◌++◌,
  Option, none, some, ltb, ◌==◌, if◌then◌else◌, length, is_empty,
}
use esp32c3_mtk.Bits.{any_bit, and_not}
use esp32c3_mtk.Types.{
  ℤ, pos, Er, ok, value, e_rsatr, e_par, e_id, e_ctx, e_limit, e_noexs, e_tmout, e_nomem, Message,
  Tcb, WSpec, wspec_smbf_tfifo, wspec_smbf_tpri, wspec_rmbf, Head, smbf, rmbf, set_que, que_insert,
  Mbfcb, WInfo,
}
use esp32c3_mtk.Kernel.{
  Kernel, update, set_tcb, que_of, set_queues, Reply, ret, pend, in_indp, in_ddsp, in_range,
  max_mbfid, is_tmout, is_pol, is_positive, magnitude, leb_ℤ,
}
use esp32c3_mtk.Wait.{
  ta_tpri, wait_release_ok, wait_delete, wait_tskid, set_wercd, make_wait, gcb_make_wait,
  gcb_change_priority, gcb_top_of_wait_queue,
}
use esp32c3_mtk.MessageRing.{
  roundsz, mbf_free, mbf_empty, memcpy, load_header, msg_to_mbf, mbf_to_msg,
}

abbrev pub set_mbfcb : Kernel → ℕ → Mbfcb → Kernel
set_mbfcb k i c = record k { mbfcb = update k.mbfcb i c }

-- `tcb->winfo.smbf`
abbrev pub message_of : Kernel → ℕ → Message
message_of k t = (k.tcb t).winfo.smbf

-- One round of the loop of `knl_mbf_wakeup`: the message of the waiting task `t` is stored, and the
-- task is released.
unfoldable pub store_from : Kernel → ℕ → ℕ → Kernel
unfolding msg_to_mbf wait_release_ok
store_from k i t = wait_release_ok (set_mbfcb k i (msg_to_mbf (k.mbfcb i) (message_of k t))) t

abbrev pub wakeup_first : (Kernel → Kernel) → Kernel → ℕ → List ℕ → Kernel
wakeup_first again k i [] = k
wakeup_first again k i (t ∷ ts) =
    let next = again (store_from k i t) in
    if not (mbf_free (k.mbfcb i) (message_of k t).size) then k else next

-- The loop of `knl_mbf_wakeup`, at most `fuel` rounds.
unfoldable pub wakeup_from : ℕ → Kernel → ℕ → Kernel
unfolding store_from
wakeup_from zero k i = k
wakeup_from (suc fuel) k i = wakeup_first (λ k'. wakeup_from fuel k' i) k i (que_of k (smbf i))

-- `knl_mbf_wakeup`
unfoldable pub mbf_wakeup : Kernel → ℕ → Kernel
unfolding wakeup_from
mbf_wakeup k i = wakeup_from (length (que_of k (smbf i))) k i

-- `knl_mbf_rel_wai`, and `knl_mbf_chg_pri` with `oldpri >= 0`.
unfoldable pub mbf_rel_wai : Kernel → ℕ → Kernel
unfolding mbf_wakeup
mbf_rel_wai k t = mbf_wakeup k (k.tcb t).wid

unfoldable pub mbf_chg_pri : Kernel → ℕ → Kernel
unfolding mbf_rel_wai gcb_change_priority
mbf_chg_pri k t = mbf_rel_wai (gcb_change_priority k (smbf (k.tcb t).wid) t) t

-- `knl_memcpy(tcb->winfo.rmbf.msg, msg, msgsz); *tcb->winfo.rmbf.p_msgsz = msgsz;`, and the same for
-- the memory and the size that a receiving call gives.
unfoldable pub hand_over : Kernel → ℕ → Message → Kernel
unfolding memcpy
hand_over k t m = set_tcb k t (record (k.tcb t) {
  winfo = record (k.tcb t).winfo {
    rmbf = record { size = m.size; byte = memcpy (k.tcb t).winfo.rmbf.byte 0 m.byte 0 m.size };
  };
})

-- "Ready for send wait" of `tk_snd_mbf`, up to `knl_gcb_make_wait`.
unfoldable pub sending : Kernel → ℕ → ℕ → Message → Kernel
sending k t i m = set_tcb k t (record (k.tcb t) {
  wspec = if any_bit (k.mbfcb i).mbfatr ta_tpri then wspec_smbf_tpri else wspec_smbf_tfifo;
  winfo = record (k.tcb t).winfo { smbf = m };
})

-- `in_indp() || knl_gcb_top_of_wait_queue((GCB*)mbfcb, knl_ctxtsk) == knl_ctxtsk`
unfoldable pub is_next : Kernel → ℕ → Bool
unfolding gcb_top_of_wait_queue
is_next k i = in_indp k || (elim k.ctxtsk [
  | none ↦ false
  | some t ↦ gcb_top_of_wait_queue k (smbf i) (k.mbfcb i).mbfatr t == t
])

-- The last branch of `tk_snd_mbf`. CHECK_DISPATCH_POL lets no other than a polling call through
-- without a task in execution.
unfoldable pub wait_to_send : Kernel → ℕ → Message → ℤ → Kernel × Reply
wait_to_send k i m tmout = if is_pol tmout then (k, ret e_tmout) else (elim k.ctxtsk [
  | none ↦ (k, ret e_ctx)
  | some t ↦ gcb_make_wait (sending k t i m) t (smbf i) i (k.mbfcb i).mbfatr tmout
])

-- The branches of `tk_snd_mbf`, by the queue of receivers.
abbrev send_to : Kernel → ℕ → Message → ℤ → List ℕ → Kernel × Reply
send_to k i m tmout (t ∷ ts) = (wait_release_ok (hand_over k t m) t, ret ok)
send_to k i m tmout [] =
    if is_next k i && mbf_free (k.mbfcb i) m.size
    then (set_mbfcb k i (msg_to_mbf (k.mbfcb i) m), ret ok)
    else wait_to_send k i m tmout

-- `tk_snd_mbf`, for the memory `msg`.
unfoldable pub snd_mbf : Kernel → ℕ → (ℕ → ℕ) → ℤ → ℤ → Kernel × Reply
unfolding wait_to_send
snd_mbf k i msg msgsz tmout =
    if not (in_range i max_mbfid)
    then (k, ret e_id)
    else if not (is_positive msgsz)
    then (k, ret e_par)
    else if not (is_tmout tmout)
    then (k, ret e_par)
    else if not (is_pol tmout) && in_ddsp k
    then (k, ret e_ctx)
    else if (k.mbfcb i).mbfid == 0
    then (k, ret e_noexs)
    else if ltb (k.mbfcb i).maxmsz (magnitude msgsz)
    then (k, ret e_par)
    else send_to k i (record { size = magnitude msgsz; byte = msg }) tmout (que_of k (rmbf i))

-- "Ready for receive wait" of `tk_rcv_mbf`, for the task `t` in execution.
unfoldable pub wait_to_receive : Kernel → ℕ → ℕ → ℤ → Kernel × Reply
unfolding set_wercd
wait_to_receive k t i tmout =
    if is_pol tmout
    then (k, ret e_tmout)
    else (let k1 =
          set_tcb k t (record (k.tcb t) { wspec = wspec_rmbf; wid = i; wercd = e_tmout }) in
        let k2 = make_wait k1 t tmout in (set_queues k2 (que_insert k2.rq.que t (rmbf i)), pend))

-- The branches of `tk_rcv_mbf` for the task `t` in execution, whose memory for the message is that of
-- its `rmbf`; by the queue of senders.
abbrev receive_from : Kernel → ℕ → ℕ → ℤ → List ℕ → Kernel × Reply
receive_from k t i tmout (u ∷ us) =
    let m = message_of k u in
    (mbf_wakeup (wait_release_ok (hand_over k t m) u) i, ret (value m.size))
receive_from k t i tmout [] = wait_to_receive k t i tmout

-- `knl_mbf_to_msg` into the memory of the task.
unfoldable pub take_message : Kernel → ℕ → ℕ → Kernel
unfolding mbf_to_msg
take_message k t i =
    let r = mbf_to_msg (k.mbfcb i) (k.tcb t).winfo.rmbf.byte in
    set_tcb (set_mbfcb k i r.0) t
      (record (k.tcb t) { winfo = record (k.tcb t).winfo { rmbf = r.1 } })

unfoldable pub rcv_mbf_by : Kernel → ℕ → ℕ → ℤ → Kernel × Reply
unfolding take_message wait_to_receive mbf_wakeup
rcv_mbf_by k t i tmout =
    if (k.mbfcb i).mbfid == 0
    then (k, ret e_noexs)
    else if not (mbf_empty (k.mbfcb i))
    then (
      mbf_wakeup (take_message k t i) i,
      ret (value (mbf_to_msg (k.mbfcb i) (k.tcb t).winfo.rmbf.byte).1.size),
    )
    else receive_from k t i tmout (que_of k (smbf i))

-- `tk_rcv_mbf`
unfoldable pub rcv_mbf : Kernel → ℕ → ℤ → Kernel × Reply
unfolding rcv_mbf_by
rcv_mbf k i tmout =
    if not (in_range i max_mbfid)
    then (k, ret e_id)
    else if not (is_tmout tmout)
    then (k, ret e_par)
    else if in_ddsp k
    then (k, ret e_ctx)
    else (elim k.ctxtsk [ none ↦ (k, ret e_ctx) | some t ↦ rcv_mbf_by k t i tmout ])
