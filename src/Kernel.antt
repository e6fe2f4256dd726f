-- ===== src/Kernel.antt =====
-- The kernel's variables (kernel/tkernel/task.c, timer.c, semaphore.c, eventflag.c, mailbox.c and
-- kernel/sysdepend/cpu/core/riscv_esp/cpu_status.h) as one state. Each critical section runs with
-- interrupts disabled on the only core, so a system call is one step on this state; the dispatch
-- that END_CRITICAL_SECTION requests happens between the steps.
use esp32c3_mtk.Prelude.{
  ℕ, Bool, true, false, not, ◌&&◌, ◌||◌, List, Option, none, some, leb, ltb, ◌==◌, if◌then◌else◌,
}
use esp32c3_mtk.Types.{
  ℤ, pos, negsuc, Er, Tcb, Head, Queues, Tmeb, Semcb, Flgcb, Mbxcb, Mbfcb, Mtxcb, Mpfcb, Cyccb,
  Almcb,
}
use esp32c3_mtk.ReadyQueue.{RdyQue}

pub record Kernel : Type 0 where
  pub ctxtsk : Option ℕ
  pub schedtsk : Option ℕ
  pub dispatch_disabled : ℕ
  pub taskindp : ℕ
  -- `knl_is_dispatch_masked()`: interrupts are off, or the threshold is above INTLEVEL_EI.
  pub dispatch_masked : Bool
  pub rq : RdyQue
  pub tcb : ℕ → Tcb
  pub current_time : ℕ
  pub timer_queue : List Tmeb
  pub semcb : ℕ → Semcb
  pub free_semcb : List ℕ
  pub flgcb : ℕ → Flgcb
  pub free_flgcb : List ℕ
  pub mbxcb : ℕ → Mbxcb
  pub free_mbxcb : List ℕ
  pub mbfcb : ℕ → Mbfcb
  pub free_mbfcb : List ℕ
  pub mtxcb : ℕ → Mtxcb
  pub free_mtxcb : List ℕ
  pub mpfcb : ℕ → Mpfcb
  pub free_mpfcb : List ℕ
  pub cyccb : ℕ → Cyccb
  pub free_cyccb : List ℕ
  pub almcb : ℕ → Almcb
  pub free_almcb : List ℕ
  pub real_time_ofs : ℕ
  -- Whether an object lock is taken: `wtskq.next != NULL`.
  pub lock_taken : ℕ → Bool

abbrev pub update {ℓ} : {A : Type ℓ} → (ℕ → A) → ℕ → A → ℕ → A
update f i v = λ j. if i == j then v else f j

abbrev pub set_tcb : Kernel → ℕ → Tcb → Kernel
set_tcb k t c = record k { tcb = update k.tcb t c }

-- The wait queue, or another ring of TCBs, at a head.
abbrev pub que_of : Kernel → Head → List ℕ
que_of k h = k.rq.que h

abbrev pub set_queues : Kernel → Queues → Kernel
set_queues k q = record k { rq = record k.rq { que = q } }

-- What a call has done when its critical section ends: it returns a code, or its task waits, and
-- the call returns the `wercd` of the task once that runs again. A call that does not get an object's
-- lock tries again then.
pub data Reply : Type 0 where
  ret : Er → Reply
  pend retry : Reply

-- `in_indp()` and `in_ddsp()`
abbrev pub in_indp : Kernel → Bool
in_indp k = ltb 0 k.taskindp || (elim k.ctxtsk [ none ↦ true | some t ↦ false ])

abbrev pub in_ddsp : Kernel → Bool
in_ddsp k = not (k.dispatch_disabled == 0) || in_indp k || k.dispatch_masked

-- `CHK_TSKID`, `CHK_SEMID` and the like, with the numbers of config/config.h.
abbrev pub in_range : ℕ → ℕ → Bool
in_range id last = leb 1 id && leb id last

abbrev pub max_cycid : ℕ
max_cycid = 16

abbrev pub max_almid : ℕ
max_almid = 32

abbrev pub max_tskid : ℕ
max_tskid = 64

abbrev pub max_semid : ℕ
max_semid = 128

abbrev pub max_flgid : ℕ
max_flgid = 32

abbrev pub max_mbxid : ℕ
max_mbxid = 8

abbrev pub max_mbfid : ℕ
max_mbfid = 32

abbrev pub max_mtxid : ℕ
max_mtxid = 64

abbrev pub max_mpfid : ℕ
max_mpfid = 8

-- `tmout >= TMO_FEVR`
abbrev pub is_tmout : ℤ → Bool
is_tmout (pos n) = true
is_tmout (negsuc n) = n == 0

-- `tmout == TMO_POL`
abbrev pub is_pol : ℤ → Bool
is_pol (pos n) = n == 0
is_pol (negsuc n) = false

-- `cnt > 0`, and the number that a positive `INT` is.
abbrev pub is_positive : ℤ → Bool
is_positive (pos n) = ltb 0 n
is_positive (negsuc n) = false

abbrev pub magnitude : ℤ → ℕ
magnitude (pos n) = n
magnitude (negsuc n) = 0

abbrev pub leb_ℤ : ℤ → ℤ → Bool
leb_ℤ (pos a) (pos b) = leb a b
leb_ℤ (pos a) (negsuc b) = false
leb_ℤ (negsuc a) (pos b) = true
leb_ℤ (negsuc a) (negsuc b) = leb b a

-- `INT_MAX` of a 32-bit INT.
abbrev pub int_max : ℕ
int_max = 2147483647
