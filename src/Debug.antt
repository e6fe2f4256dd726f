-- ===== src/Debug.antt =====
-- The debugger support calls that list objects and queues: td_lst_ and td_que calls of
-- kernel/tkernel/semaphore.c, eventflag.c, mailbox.c, messagebuf.c, mutex.c, mempfix.c, task_manage.c
-- and task.c.
use esp32c3_mtk.Prelude.{
  ℕ, zero, suc, ◌+◌, ◌-◌, ◌≤◌, ◌≡◌, Bool, true, false, not, List, [], ◌∷◌, ltb, ◌==◌, if◌then◌else◌,
  length, arith,
}
use esp32c3_mtk.Types.{
  ℤ, pos, negsuc, Er, value, e_id, e_noexs, e_par, TaskState, nonexist, rdy, sem, flg, mbx, smbf,
  rmbf, mtx, mpf,
}
use esp32c3_mtk.Kernel.{
  Kernel, que_of, in_range, max_tskid, max_semid, max_flgid, max_mbxid, max_mbfid, max_mtxid,
  max_mpfid, max_cycid, max_almid,
}
use esp32c3_mtk.ReadyQueue.{num_tskpri}

-- `n < nent`, where the caller's size may be negative.
abbrev fits : ℕ → ℤ → Bool
fits n (pos m) = ltb n m
fits n (negsuc m) = false

-- `if ( n++ < nent ) *list++ = id;` once more: the IDs written from here on, and the last count.
abbrev listed : ℕ → ℤ → ℕ → List ℕ × ℕ → List ℕ × ℕ
listed n nent id rest = (if fits n nent then id ∷ rest.0 else rest.0, rest.1)

-- The loop over a queue.
unfoldable pub list_queue : ℕ → ℤ → List ℕ → List ℕ × ℕ
list_queue n nent [] = ([], n)
list_queue n nent (t ∷ ts) = listed n nent t (list_queue (n + 1) nent ts)

-- The loop over a table, from the block with the ID `i` on; `used` is the test of a block's entry.
unfoldable pub list_table : (ℕ → Bool) → ℕ → ℕ → ℕ → ℤ → List ℕ × ℕ
list_table used zero i n nent = ([], n)
list_table used (suc rounds) i n nent =
    let skipped = list_table used rounds (i + 1) n nent in
    let entered = listed n nent i (list_table used rounds (i + 1) (n + 1) nent) in
    if used i then entered else skipped

abbrev pub exists : TaskState → Bool
exists nonexist = false
exists _ = true

-- `td_lst_sem` and the like: what is written to `list`, and what is
-- returned.
unfoldable pub td_lst_sem : Kernel → ℤ → List ℕ × ℕ
unfolding list_table
td_lst_sem k nent = list_table (λ i. not ((k.semcb i).semid == 0)) max_semid 1 0 nent

unfoldable pub td_lst_flg : Kernel → ℤ → List ℕ × ℕ
unfolding list_table
td_lst_flg k nent = list_table (λ i. not ((k.flgcb i).flgid == 0)) max_flgid 1 0 nent

unfoldable pub td_lst_mbx : Kernel → ℤ → List ℕ × ℕ
unfolding list_table
td_lst_mbx k nent = list_table (λ i. not ((k.mbxcb i).mbxid == 0)) max_mbxid 1 0 nent

unfoldable pub td_lst_mbf : Kernel → ℤ → List ℕ × ℕ
unfolding list_table
td_lst_mbf k nent = list_table (λ i. not ((k.mbfcb i).mbfid == 0)) max_mbfid 1 0 nent

unfoldable pub td_lst_mtx : Kernel → ℤ → List ℕ × ℕ
unfolding list_table
td_lst_mtx k nent = list_table (λ i. not ((k.mtxcb i).mtxid == 0)) max_mtxid 1 0 nent

unfoldable pub td_lst_mpf : Kernel → ℤ → List ℕ × ℕ
unfolding list_table
td_lst_mpf k nent = list_table (λ i. not ((k.mpfcb i).mpfid == 0)) max_mpfid 1 0 nent

unfoldable pub td_lst_cyc : Kernel → ℤ → List ℕ × ℕ
unfolding list_table
td_lst_cyc k nent = list_table (λ i. not ((k.cyccb i).cychdr == 0)) max_cycid 1 0 nent

unfoldable pub td_lst_alm : Kernel → ℤ → List ℕ × ℕ
unfolding list_table
td_lst_alm k nent = list_table (λ i. not ((k.almcb i).almhdr == 0)) max_almid 1 0 nent

unfoldable pub td_lst_tsk : Kernel → ℤ → List ℕ × ℕ
unfolding list_table
td_lst_tsk k nent = list_table (λ t. exists (k.tcb t).state) max_tskid 1 0 nent

abbrev queue_reply : List ℕ × ℕ → List ℕ × Er
queue_reply r = (r.0, value r.1)

-- `td_sem_que` and the like
unfoldable pub td_sem_que : Kernel → ℕ → ℤ → List ℕ × Er
unfolding list_queue
td_sem_que k i nent =
    if not (in_range i max_semid)
    then ([], e_id)
    else if (k.semcb i).semid == 0
    then ([], e_noexs)
    else queue_reply (list_queue 0 nent (que_of k (sem i)))

unfoldable pub td_flg_que : Kernel → ℕ → ℤ → List ℕ × Er
unfolding list_queue
td_flg_que k i nent =
    if not (in_range i max_flgid)
    then ([], e_id)
    else if (k.flgcb i).flgid == 0
    then ([], e_noexs)
    else queue_reply (list_queue 0 nent (que_of k (flg i)))

unfoldable pub td_mbx_que : Kernel → ℕ → ℤ → List ℕ × Er
unfolding list_queue
td_mbx_que k i nent =
    if not (in_range i max_mbxid)
    then ([], e_id)
    else if (k.mbxcb i).mbxid == 0
    then ([], e_noexs)
    else queue_reply (list_queue 0 nent (que_of k (mbx i)))

unfoldable pub td_smbf_que : Kernel → ℕ → ℤ → List ℕ × Er
unfolding list_queue
td_smbf_que k i nent =
    if not (in_range i max_mbfid)
    then ([], e_id)
    else if (k.mbfcb i).mbfid == 0
    then ([], e_noexs)
    else queue_reply (list_queue 0 nent (que_of k (smbf i)))

unfoldable pub td_rmbf_que : Kernel → ℕ → ℤ → List ℕ × Er
unfolding list_queue
td_rmbf_que k i nent =
    if not (in_range i max_mbfid)
    then ([], e_id)
    else if (k.mbfcb i).mbfid == 0
    then ([], e_noexs)
    else queue_reply (list_queue 0 nent (que_of k (rmbf i)))

unfoldable pub td_mtx_que : Kernel → ℕ → ℤ → List ℕ × Er
unfolding list_queue
td_mtx_que k i nent =
    if not (in_range i max_mtxid)
    then ([], e_id)
    else if (k.mtxcb i).mtxid == 0
    then ([], e_noexs)
    else queue_reply (list_queue 0 nent (que_of k (mtx i)))

unfoldable pub td_mpf_que : Kernel → ℕ → ℤ → List ℕ × Er
unfolding list_queue
td_mpf_que k i nent =
    if not (in_range i max_mpfid)
    then ([], e_id)
    else if (k.mpfcb i).mpfid == 0
    then ([], e_noexs)
    else queue_reply (list_queue 0 nent (que_of k (mpf i)))

-- `td_rdy_que`, for an external priority: `CHECK_PRI` asks for 1 to 32.
unfoldable pub td_rdy_que : Kernel → ℕ → ℤ → List ℕ × Er
unfolding list_queue
td_rdy_que k pri nent =
    if not (in_range pri num_tskpri)
    then ([], e_par)
    else queue_reply (list_queue 0 nent (que_of k (rdy (pri - 1))))

-- The first `n` entries, or all.
abbrev pub take : ℕ → List ℕ → List ℕ
take zero xs = []
take (suc n) [] = []
take (suc n) (x ∷ xs) = x ∷ take n xs

list_queue-take_full :
    (n m : ℕ) (ts : List ℕ) → m ≤ n → list_queue n (pos m) ts ≡ ([], n + length ts)
unfolding list_queue
list_queue-take_full n m [] h = ground arith
list_queue-take_full n m (t ∷ ts) h = ground (arith, list_queue-take_full (n + 1) m ts)

list_queue-take_room :
    (n r : ℕ) (ts : List ℕ) → list_queue n (pos (n + r)) ts ≡ (take r ts, n + length ts)
unfolding list_queue
list_queue-take_room n zero [] = ground arith
list_queue-take_room n (suc r) [] = ground arith
list_queue-take_room n zero (t ∷ ts) = ground (arith, list_queue-take_full (n + 1) n ts)
list_queue-take_room n (suc r) (t ∷ ts) = ground (arith, list_queue-take_room (n + 1) r ts)

-- The calls that list a wait queue write its first `nent` tasks in their order, or all, and count
-- all of them.
pub list_queue-take :
    (nent : ℕ) (ts : List ℕ) → list_queue 0 (pos nent) ts ≡ (take nent ts, length ts)
list_queue-take nent ts = ground (arith, list_queue-take_room 0 nent ts)
