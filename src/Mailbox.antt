-- ===== src/Mailbox.antt =====
-- kernel/tkernel/mailbox.c and mailbox.h: the mailboxes. The chain of message packets from
-- `mq_head` on is a list; a packet is in at most one chain.
pub mod Delivery
pub mod Order
use esp32c3_mtk.Prelude.{
  ℕ, zero, suc, ◌≤◌, ◌<◌, ◌≡◌, Bool, true, false, not, ◌&&◌, List, [], ◌∷◌, ◌++◌, Option, none,
  some, ◌==◌, if◌then◌else◌,
}
use esp32c3_mtk.Bits.{any_bit, and_not}
use esp32c3_mtk.Types.{
  ℤ, Er, ok, value, e_rsatr, e_par, e_id, e_ctx, e_limit, e_noexs, Msg, Tcb, WSpec, wspec_mbx_tfifo,
  wspec_mbx_tpri, Head, mbx, set_que, Mbxcb, WInfo,
}
use esp32c3_mtk.Kernel.{
  Kernel, update, set_tcb, que_of, set_queues, Reply, ret, pend, in_ddsp, in_range, max_mbxid,
  is_tmout, is_positive, leb_ℤ,
}
use esp32c3_mtk.Wait.{
  ta_tpri, wait_release_ok, wait_delete, wait_tskid, gcb_make_wait, gcb_change_priority,
}

abbrev pub ta_mpri : ℕ
ta_mpri = 0x2

abbrev pub set_mbxcb : Kernel → ℕ → Mbxcb → Kernel
set_mbxcb k i c = record k { mbxcb = update k.mbxcb i c }

abbrev pub set_messages : Kernel → ℕ → List Msg → Kernel
set_messages k i ms = set_mbxcb k i (record (k.mbxcb i) { messages = ms })

-- `knl_queue_insert_mpri`: before the first message of a worse priority.
unfoldable pub insert_mpri : Msg → List Msg → List Msg
insert_mpri m [] = m ∷ []
insert_mpri m (q ∷ qs) =
    let further = q ∷ insert_mpri m qs in if leb_ℤ q.msgpri m.msgpri then further else m ∷ q ∷ qs

-- `T_CMBX`
pub record TCmbx : Type 0 where
  pub exinf : ℕ
  pub mbxatr : ℕ

-- `tk_cre_mbx`
abbrev create_in : Kernel → TCmbx → List ℕ → Kernel × Er
create_in k p [] = (k, e_limit)
create_in k p (i ∷ free) = (
  record (set_queues k (set_que k.rq.que (mbx i) [])) {
    free_mbxcb = free;
    mbxcb =
        update k.mbxcb i (record { mbxid = i; exinf = p.exinf; mbxatr = p.mbxatr; messages = [] });
  },
  value i,
)

unfoldable pub cre_mbx : Kernel → TCmbx → Kernel × Er
unfolding and_not
cre_mbx k p = if not (and_not p.mbxatr 0x3 == 0) then (k, e_rsatr) else create_in k p k.free_mbxcb

-- `tk_del_mbx`
unfoldable pub del_mbx : Kernel → ℕ → Kernel × Er
unfolding wait_delete
del_mbx k i =
    if not (in_range i max_mbxid)
    then (k, e_id)
    else if (k.mbxcb i).mbxid == 0
    then (k, e_noexs)
    else (let k1 = wait_delete k (mbx i) in
        (
          record (set_mbxcb k1 i (record (k1.mbxcb i) { mbxid = 0 })) {
            free_mbxcb = k1.free_mbxcb ++ i ∷ [];
          },
          ok,
        ))

-- `*tcb->winfo.mbx.ppk_msg = pk_msg`
unfoldable pub hand_over : Kernel → ℕ → Msg → Kernel
hand_over k t m =
    set_tcb k t (record (k.tcb t) { winfo = record (k.tcb t).winfo { ppk_msg = some m } })

-- The end of `tk_snd_mbx`, by the wait queue.
abbrev send_to : Kernel → ℕ → Msg → List ℕ → Kernel
send_to k i m (t ∷ ts) = wait_release_ok (hand_over k t m) t
send_to k i m [] = set_messages k i (
    if any_bit (k.mbxcb i).mbxatr ta_mpri
    then insert_mpri m (k.mbxcb i).messages
    else (k.mbxcb i).messages ++ m ∷ [])

-- `tk_snd_mbx`
unfoldable pub snd_mbx : Kernel → ℕ → Msg → Kernel × Er
snd_mbx k i m =
    if not (in_range i max_mbxid)
    then (k, e_id)
    else if (k.mbxcb i).mbxid == 0
    then (k, e_noexs)
    else if any_bit (k.mbxcb i).mbxatr ta_mpri && not (is_positive m.msgpri)
    then (k, e_par)
    else (send_to k i m (que_of k (mbx i)), ok)

-- `mbx_chg_pri`
unfoldable pub mbx_chg_pri : Kernel → ℕ → Kernel
unfolding gcb_change_priority
mbx_chg_pri k t = gcb_change_priority k (mbx (k.tcb t).wid) t

-- The branch "Ready for receive wait" of `tk_rcv_mbx`, up to `knl_gcb_make_wait`.
unfoldable pub asking : Kernel → ℕ → ℕ → Kernel
asking k t i = set_tcb k t (record (k.tcb t) {
  wspec = if any_bit (k.mbxcb i).mbxatr ta_tpri then wspec_mbx_tpri else wspec_mbx_tfifo;
})

-- The end of `tk_rcv_mbx` for the task `t` in execution, by the messages.
abbrev receive_from : Kernel → ℕ → ℕ → ℤ → List Msg → Kernel × Reply
receive_from k t i tmout (m ∷ ms) = (set_messages (hand_over k t m) i ms, ret ok)
receive_from k t i tmout [] = gcb_make_wait (asking k t i) t (mbx i) i (k.mbxcb i).mbxatr tmout

unfoldable pub rcv_mbx_by : Kernel → ℕ → ℕ → ℤ → Kernel × Reply
rcv_mbx_by k t i tmout =
    if (k.mbxcb i).mbxid == 0
    then (k, ret e_noexs)
    else receive_from k t i tmout (k.mbxcb i).messages

-- `tk_rcv_mbx`
unfoldable pub rcv_mbx : Kernel → ℕ → ℤ → Kernel × Reply
rcv_mbx k i tmout =
    if not (in_range i max_mbxid)
    then (k, ret e_id)
    else if not (is_tmout tmout)
    then (k, ret e_par)
    else if in_ddsp k
    then (k, ret e_ctx)
    else (elim k.ctxtsk [ none ↦ (k, ret e_ctx) | some t ↦ rcv_mbx_by k t i tmout ])

-- `T_RMBX`
pub record TRmbx : Type 0 where
  pub exinf : ℕ
  pub wtsk : ℕ
  pub pk_msg : Option Msg

abbrev head_msg : List Msg → Option Msg
head_msg [] = none
head_msg (m ∷ ms) = some m

-- `tk_ref_mbx`
unfoldable pub ref_mbx : Kernel → ℕ → Er × Option TRmbx
unfolding wait_tskid
ref_mbx k i =
    if not (in_range i max_mbxid)
    then (e_id, none)
    else if (k.mbxcb i).mbxid == 0
    then (e_noexs, none)
    else (
      ok,
      some (record {
        exinf = (k.mbxcb i).exinf;
        wtsk = wait_tskid k (mbx i);
        pk_msg = head_msg (k.mbxcb i).messages;
      }),
    )
