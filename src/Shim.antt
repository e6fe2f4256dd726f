-- ===== src/Shim.antt =====
-- The adapter of components/freertos_shim: the calls of another kernel's interface, on those of this
-- one. Handles are addresses, with 0 for NULL; what they point to is a store of objects, whose
-- constructors are the tags of shim_internal.h. What heap_caps_malloc returns is an argument of the
-- calls that create objects; heap_caps_free and messages on the console are left out.
pub mod Ring
pub mod Queues
pub mod Semaphores
pub mod Locks
pub mod EventGroups
pub mod Receiving
pub mod SoftTimers
use esp32c3_mtk.Prelude.{
  ℕ, ◌+◌, ◌-◌, ◌*◌, ◌%◌, ◌^◌, Bool, true, false, not, ◌&&◌, ◌||◌, Option, none, some, ltb, leb,
  ◌==◌, if◌then◌else◌,
}
use esp32c3_mtk.Types.{ℤ, pos, negsuc, Er, ok, value}
use esp32c3_mtk.Kernel.{Kernel, update, Reply, ret, pend, retry}

-- `CFG_WIFI_PRI_BASE`
abbrev pub wifi_pri_base : ℕ
wifi_pri_base = 25

-- `shim_prio_to_tk`; a priority is below 2^31, and the difference, where it is negative, becomes 1
-- as 0 does.
unfoldable pub prio_to_tk : ℕ → ℕ
prio_to_tk fr =
    let p = wifi_pri_base - fr in let q = if ltb p 1 then 1 else p in if ltb 32 q then 32 else q

-- The `INT` or `TMO` that a 32-bit word stands for.
abbrev pub int_of : ℕ → ℤ
int_of w = if ltb w (2 ^ 31) then pos w else negsuc (2 ^ 32 - 1 - w)

-- `shim_tmo`: a tick count is a 32-bit word, and a TMO the integer that it stands for.
unfoldable pub shim_tmo : ℕ → ℤ
shim_tmo ticks =
    if ticks == 0xffffffff then negsuc 0 else if ticks == 0 then pos 0 else int_of ticks

-- `shim_queue_t`. `storage` is the memory from `data` on, byte by byte.
pub record Queue : Type 0 where
  pub item_sz : ℕ
  pub cap : ℕ
  pub head : ℕ
  pub tail : ℕ
  pub storage : ℕ → ℕ
  pub nonempty : ℕ
  pub nonfull : ℕ

-- `shim_sem_t`, of either tag.
pub record Sem : Type 0 where
  pub cnt : ℕ
  pub max_cnt : ℕ
  pub sem_id : ℕ

-- `shim_rmutex_t`; the mutexes without recursion have the same structure here.
pub record Rmutex : Type 0 where
  pub mtx_id : ℕ
  pub owner_task : ℕ
  pub depth : ℕ

-- `shim_timer_t`, without its name.
pub record SoftTimer : Type 0 where
  pub alm_id : ℕ
  pub cyc_id : ℕ
  pub period_ms : ℕ
  pub auto_reload : Bool
  pub active : Bool
  pub timer_id : ℕ
  pub callback : ℕ

-- What a handle points to, by its tag.
pub data Object : Type 0 where
  no_object : Object
  queue : Queue → Object
  sem_bin sem_cnt : Sem → Object
  mutex : ℕ → Object
  rmutex : Rmutex → Object
  evtgrp : ℕ → Object
  timer : SoftTimer → Object

-- The kernel, the objects, and whether interrupts are off in mstatus.
pub record Shim : Type 0 where
  pub kernel : Kernel
  pub objects : ℕ → Object
  pub mie_off : Bool

abbrev pub set_object : Shim → ℕ → Object → Shim
set_object s q o = record s { objects = update s.objects q o }

abbrev pub is_null : ℕ → Bool
is_null q = q == 0

abbrev pub set_kernel : Shim → Kernel → Shim
set_kernel s k = record s { kernel = k }

-- `shim_in_ddsp`
unfoldable pub shim_in_ddsp : Shim → Bool
shim_in_ddsp s =
    s.mie_off
    || not (s.kernel.taskindp == 0)
    || not (s.kernel.dispatch_disabled == 0)
    || (elim s.kernel.ctxtsk [ none ↦ true | some t ↦ false ])

-- The ID that a call returned, and 0 for its error codes.
abbrev pub id_of : Er → ℕ
id_of (value n) = n
id_of _ = 0

-- `er == E_OK`
abbrev pub is_ok : Er → Bool
is_ok ok = true
is_ok _ = false

-- What a call has done when its kernel call ends: it returns, its task waits in the kernel, or it
-- goes round its loop again.
pub data Answer : Type 0 where
  answer : Bool → Answer
  waits again : Answer

-- What a wait in the kernel makes of a round of a loop: with E_OK the loop goes on.
abbrev pub after_wait : Reply → Answer
after_wait (ret ok) = again
after_wait (ret _) = answer false
after_wait pend = waits
after_wait retry = again

-- `er == E_OK`, of a call that may wait.
abbrev pub granted : Reply → Answer
granted (ret ok) = answer true
granted (ret _) = answer false
granted pend = waits
granted retry = again
