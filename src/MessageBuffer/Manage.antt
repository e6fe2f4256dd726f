-- ===== src/MessageBuffer/Manage.antt =====
-- The creation, deletion and inspection of message buffers (kernel/tkernel/messagebuf.c). What
-- `knl_Imalloc` returns is an argument of the call that creates a buffer, and `knl_Ifree` is left out:
-- the allocator of kernel/tkernel/memory.c is not modelled.
use esp32c3_mtk.Prelude.{
  ℕ, ◌^◌, Bool, not, ◌&&◌, List, [], ◌∷◌, ◌++◌, Option, none, some, ltb, ◌==◌, if◌then◌else◌,
}
use esp32c3_mtk.Bits.{any_bit, and_not}
use esp32c3_mtk.Types.{
  ℤ, pos, Er, ok, value, e_rsatr, e_par, e_id, e_limit, e_noexs, e_nomem, smbf, rmbf, set_que,
}
use esp32c3_mtk.Kernel.{
  Kernel, update, que_of, set_queues, in_range, max_mbfid, is_positive, magnitude, leb_ℤ,
}
use esp32c3_mtk.Wait.{wait_delete, wait_tskid}
use esp32c3_mtk.MessageRing.{roundsz, mbf_empty, load_header}
use esp32c3_mtk.MessageBuffer.{set_mbfcb, message_of}
use esp32c3_mtk.Semaphore.{count_from}

abbrev pub ta_userbuf : ℕ
ta_userbuf = 0x20

-- `knl_messagebuffer_initialize`: NUM_MBFID is 32.
unfoldable pub messagebuffer_initialize : Kernel → Kernel
unfolding count_from
messagebuffer_initialize k = record k {
  mbfcb = λ i. if in_range i max_mbfid then record (k.mbfcb i) { mbfid = 0 } else k.mbfcb i;
  free_mbfcb = count_from max_mbfid 1;
}

-- `T_CMBF`; `bufptr` is the memory of the user's buffer.
pub record TCmbf : Type 0 where
  pub exinf : ℕ
  pub mbfatr : ℕ
  pub bufsz : ℤ
  pub maxmsz : ℤ
  pub bufptr : ℕ → ℕ

-- The critical section of `tk_cre_mbf`; USE_OBJECT_NAME is 0.
abbrev create_in : Kernel → TCmbf → ℕ → (ℕ → ℕ) → List ℕ → Kernel × Er
create_in k p bufsz msgbuf [] = (k, e_limit)
create_in k p bufsz msgbuf (i ∷ free) = (
  record (set_queues k (set_que (set_que k.rq.que (smbf i) []) (rmbf i) [])) {
    free_mbfcb = free;
    mbfcb = update k.mbfcb i (record {
      mbfid = i;
      exinf = p.exinf;
      mbfatr = p.mbfatr;
      bufsz = bufsz;
      maxmsz = magnitude p.maxmsz;
      frbufsz = bufsz;
      head = 0;
      tail = 0;
      buffer = msgbuf;
    });
  },
  value i,
)

-- `bufsz > 0` of a W
abbrev is_positive_w : ℕ → Bool
is_positive_w w = ltb 0 w && ltb w (2 ^ 31)

-- `tk_cre_mbf`. `imalloc` is what `knl_Imalloc` returns for the size: the memory of a block, or
-- nothing. A buffer of no bytes has none: its memory is never read.
unfoldable pub cre_mbf : (ℕ → Option (ℕ → ℕ)) → Kernel → TCmbf → Kernel × Er
unfolding and_not roundsz
cre_mbf imalloc k p =
    let bufsz = roundsz (magnitude p.bufsz) in
    if not (and_not p.mbfatr 0x21 == 0)
    then (k, e_rsatr)
    else if not (leb_ℤ (pos 0) p.bufsz)
    then (k, e_par)
    else if not (is_positive p.maxmsz)
    then (k, e_par)
    else if not (is_positive_w bufsz)
    then create_in k p bufsz (λ j. 0) k.free_mbfcb
    else if any_bit p.mbfatr ta_userbuf
    then (if not (bufsz == magnitude p.bufsz)
        then (k, e_par)
        else create_in k p bufsz p.bufptr k.free_mbfcb)
    else (elim (imalloc bufsz) [
      | none ↦ (k, e_nomem)
      | some msgbuf ↦ create_in k p bufsz msgbuf k.free_mbfcb
    ])

-- `tk_del_mbf`
unfoldable pub del_mbf : Kernel → ℕ → Kernel × Er
unfolding wait_delete
del_mbf k i =
    if not (in_range i max_mbfid)
    then (k, e_id)
    else if (k.mbfcb i).mbfid == 0
    then (k, e_noexs)
    else (let k1 = wait_delete (wait_delete k (rmbf i)) (smbf i) in
        (
          record (set_mbfcb k1 i (record (k1.mbfcb i) { mbfid = 0 })) {
            free_mbfcb = k1.free_mbfcb ++ i ∷ [];
          },
          ok,
        ))

-- `T_RMBF`
pub record TRmbf : Type 0 where
  pub exinf : ℕ
  pub wtsk : ℕ
  pub stsk : ℕ
  pub msgsz : ℕ
  pub frbufsz : ℕ
  pub maxmsz : ℕ

-- The size that a receiver would get next.
abbrev next_size : Kernel → ℕ → List ℕ → ℕ
next_size k i [] = 0
next_size k i (t ∷ ts) = (message_of k t).size

-- `tk_ref_mbf`; `td_ref_mbf` has the same body.
unfoldable pub ref_mbf : Kernel → ℕ → Er × Option TRmbf
unfolding wait_tskid load_header
ref_mbf k i =
    let c = k.mbfcb i in
    if not (in_range i max_mbfid) then (e_id, none) else if c.mbfid == 0 then (e_noexs, none) else (
      ok,
      some (record {
        exinf = c.exinf;
        wtsk = wait_tskid k (rmbf i);
        stsk = wait_tskid k (smbf i);
        msgsz =
            if not (mbf_empty c)
            then load_header c.buffer c.head
            else next_size k i (que_of k (smbf i));
        frbufsz = c.frbufsz;
        maxmsz = c.maxmsz;
      }),
    )
