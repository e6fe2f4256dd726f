-- ===== src/Types.antt =====
-- The data that the kernel's parts share: error codes, task states, wait specifications and the
-- task control block (include/tk/errno.h, kernel/tkernel/task.h, kernel/tkernel/winfo.h,
-- kernel/knlinc/kernel.h), and the rings of control blocks (include/sys/queue.h) seen as lists.
-- A pointer to a control block is the block's ID; the IDs start at 1.
use esp32c3_mtk.Prelude.{
  ℕ, Bool, true, false, List, [], ◌∷◌, ◌++◌, Option, none, some, ◌==◌, if◌then◌else◌, without,
}

-- A C `INT` or `TMO`: `negsuc n` is -(n + 1).
pub data ℤ : Type 0 where
  pos : ℕ → ℤ
  negsuc : ℕ → ℤ

-- What a system call returns: E_OK, an object's ID or a count (`value n`), or an error code.
pub data Er : Type 0 where
  ok : Er
  value : ℕ → Er
  e_sys e_rsatr e_par e_id e_ctx e_iluse e_limit e_obj e_noexs e_qovr e_rlwai e_tmout e_dlt : Er
  e_nomem : Er

-- `TSTAT`
pub data TaskState : Type 0 where
  nonexist ready wait suspend waitsus dormant : TaskState

-- `(state & TS_WAIT) != 0`
abbrev pub in_wait : TaskState → Bool
in_wait wait = true
in_wait waitsus = true
in_wait _ = false

abbrev pub is_ready : TaskState → Bool
is_ready ready = true
is_ready _ = false

-- `knl_task_alive`
abbrev pub task_alive : TaskState → Bool
task_alive nonexist = false
task_alive dormant = false
task_alive _ = true

-- The wait specifications that the modelled parts define. Each `WSPEC` of the source holds two
-- function pointers; here it is a name, and the hooks are the functions of its component.
pub data WSpec : Type 0 where
  no_wspec wspec_slp wspec_dly wspec_sem_tfifo wspec_sem_tpri : WSpec
  wspec_flg_tfifo wspec_flg_tpri wspec_mbx_tfifo wspec_mbx_tpri : WSpec
  wspec_smbf_tfifo wspec_smbf_tpri wspec_rmbf wspec_mpf_tfifo wspec_mpf_tpri : WSpec
  wspec_mtx_tfifo wspec_mtx_tpri wspec_mtx_inherit : WSpec

abbrev pub is_slp : WSpec → Bool
is_slp wspec_slp = true
is_slp _ = false

-- A message packet: its address, and the priority in its header, which mailboxes with TA_MPRI read.
pub record Msg : Type 0 where
  pub address : ℕ
  pub msgpri : ℤ

-- A message of a message buffer: its size, and the memory from its first byte on.
pub record Message : Type 0 where
  pub size : ℕ
  pub byte : ℕ → ℕ

-- `WINFO`: the members of the union side by side. `p_flgptn`, `ppk_msg` and `p_blf` stand for the
-- cells that the source's pointers of these names point to. `smbf` is what `msg` and `msgsz` of
-- WINFO_SMBF give, and `rmbf` the memory and the size that WINFO_RMBF points to.
pub record WInfo : Type 0 where
  pub cnt : ℕ
  pub waiptn : ℕ
  pub wfmode : ℕ
  pub p_flgptn : ℕ
  pub ppk_msg : Option Msg
  pub smbf : Message
  pub rmbf : Message
  pub p_blf : ℕ

-- The fields of `TCB` that the modelled parts use. `wercd` stands for the cell that the source's
-- pointer points to: the code that the task's pending system call returns. `mtxlist` is the chain of
-- mutexes that the task holds, the last one taken first.
pub record Tcb : Type 0 where
  pub exinf : ℕ
  pub ipriority : ℕ
  pub bpriority : ℕ
  pub priority : ℕ
  pub state : TaskState
  pub klockwait : Bool
  pub klocked : Bool
  pub wspec : WSpec
  pub wid : ℕ
  pub wupcnt : ℕ
  pub suscnt : ℕ
  pub wercd : Er
  pub mtxlist : List ℕ
  pub winfo : WInfo

-- The list heads into which a TCB is linked by its `tskque`.
pub data Head : Type 0 where
  rdy sem flg mbx lock smbf rmbf mtx mpf : ℕ → Head
  free_tcb : Head

abbrev pub same : Head → Head → Bool
same (rdy a) (rdy b) = a == b
same (sem a) (sem b) = a == b
same (flg a) (flg b) = a == b
same (mbx a) (mbx b) = a == b
same (lock a) (lock b) = a == b
same (smbf a) (smbf b) = a == b
same (rmbf a) (rmbf b) = a == b
same (mtx a) (mtx b) = a == b
same (mpf a) (mpf b) = a == b
same free_tcb free_tcb = true
same _ _ = false

-- The rings of TCBs, each as the list of its entries from the head's `next` on.
abbrev pub Queues : Type 0
Queues = Head → List ℕ

abbrev pub set_que : Queues → Head → List ℕ → Queues
set_que q h l = λ j. if same h j then l else q j

-- `QueInsert(entry, head)`: directly before the head, so last.
abbrev pub que_insert : Queues → ℕ → Head → Queues
que_insert q t h = set_que q h (q h ++ t ∷ [])

-- `QueInsert(entry, head.next)`: first.
abbrev pub que_insert_top : Queues → ℕ → Head → Queues
que_insert_top q t h = set_que q h (t ∷ q h)

-- `QueRemove(entry)`: out of whatever ring the entry is in.
abbrev pub que_remove : Queues → ℕ → Queues
que_remove q t = λ h. without t (q h)

-- `QueInit(entry)`: the entry's links lead to itself. The rings it was in before are as they were,
-- so the source only does this to an entry that is in none.
abbrev pub same_task : Option ℕ → ℕ → Bool
same_task none t = false
same_task (some u) t = u == t

-- The timer event blocks (kernel/tkernel/timer.h): that of a task's wait, of a cyclic handler and
-- of an alarm handler. `callback` and `arg` follow from which block it is.
pub data Event : Type 0 where
  wtmeb cyctmeb almtmeb : ℕ → Event

abbrev pub same_event : Event → Event → Bool
same_event (wtmeb a) (wtmeb b) = a == b
same_event (cyctmeb a) (cyctmeb b) = a == b
same_event (almtmeb a) (almtmeb b) = a == b
same_event _ _ = false

-- `TMEB`, linked into the timer queue.
pub record Tmeb : Type 0 where
  pub event : Event
  pub time : ℕ

-- `CYCCB`, with the time of its event block. A handler that is NULL, 0 here, marks a block that is
-- not in use.
pub record Cyccb : Type 0 where
  pub exinf : ℕ
  pub cycatr : ℕ
  pub cychdr : ℕ
  pub cycstat : ℕ
  pub cyctim : ℕ
  pub time : ℕ

-- `ALMCB`, likewise.
pub record Almcb : Type 0 where
  pub exinf : ℕ
  pub almatr : ℕ
  pub almhdr : ℕ
  pub almstat : ℕ
  pub time : ℕ

-- `SEMCB`, `FLGCB` and `MBXCB`; an ID of 0 marks a block that is not in use. The wait queues are
-- the lists `sem i`, `flg i` and `mbx i` of `Queues`.
pub record Semcb : Type 0 where
  pub semid : ℕ
  pub exinf : ℕ
  pub sematr : ℕ
  pub semcnt : ℕ
  pub maxsem : ℕ

pub record Flgcb : Type 0 where
  pub flgid : ℕ
  pub exinf : ℕ
  pub flgatr : ℕ
  pub flgptn : ℕ

pub record Mbxcb : Type 0 where
  pub mbxid : ℕ
  pub exinf : ℕ
  pub mbxatr : ℕ
  pub messages : List Msg

-- `MBFCB`: the wait queues are the lists `smbf i` and `rmbf i`. A W is the word that holds it, and
-- `buffer` the memory from the start of the buffer on, byte by byte.
pub record Mbfcb : Type 0 where
  pub mbfid : ℕ
  pub exinf : ℕ
  pub mbfatr : ℕ
  pub bufsz : ℕ
  pub maxmsz : ℕ
  pub frbufsz : ℕ
  pub head : ℕ
  pub tail : ℕ
  pub buffer : ℕ → ℕ

-- `MTXCB`: the wait queue is the list `mtx i`. The chain of `mtxlist` is in the TCB of the holder.
pub record Mtxcb : Type 0 where
  pub mtxid : ℕ
  pub exinf : ℕ
  pub mtxatr : ℕ
  pub ceilpri : ℕ
  pub mtxtsk : Option ℕ

-- `MPFCB`: the wait queue is the list `mpf i`. A pointer is an address, with 0 for NULL; `link` is
-- the memory that holds the `next` of each FREEL.
pub record Mpfcb : Type 0 where
  pub mpfid : ℕ
  pub exinf : ℕ
  pub mpfatr : ℕ
  pub mpfcnt : ℕ
  pub blfsz : ℕ
  pub mpfsz : ℕ
  pub frbcnt : ℕ
  pub mempool : ℕ
  pub unused : ℕ
  pub freelist : ℕ
  pub link : ℕ → ℕ
