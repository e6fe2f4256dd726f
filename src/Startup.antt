-- ===== src/Startup.antt =====
-- The initialization of the kernel's tables (kernel/tkernel/task.c, eventflag.c, mailbox.c, beside
-- semaphore.c in Semaphore): all control blocks go onto their free queue in their order.
use esp32c3_mtk.Prelude.{none, if◌then◌else◌}
use esp32c3_mtk.Types.{nonexist, free_tcb, set_que}
use esp32c3_mtk.ReadyQueue
use esp32c3_mtk.Kernel.{Kernel, in_range, max_tskid, max_flgid, max_mbxid}
use esp32c3_mtk.Semaphore.{count_from}

-- `knl_eventflag_initialize`: NUM_FLGID is 32.
unfoldable pub eventflag_initialize : Kernel → Kernel
unfolding count_from
eventflag_initialize k = record k {
  flgcb = λ i. if in_range i max_flgid then record (k.flgcb i) { flgid = 0 } else k.flgcb i;
  free_flgcb = count_from max_flgid 1;
}

-- `knl_mailbox_initialize`: NUM_MBXID is 8.
unfoldable pub mailbox_initialize : Kernel → Kernel
unfolding count_from
mailbox_initialize k = record k {
  mbxcb = λ i. if in_range i max_mbxid then record (k.mbxcb i) { mbxid = 0 } else k.mbxcb i;
  free_mbxcb = count_from max_mbxid 1;
}

-- `knl_task_initialize`: NUM_TSKID is 64.
unfoldable pub task_initialize : Kernel → Kernel
unfolding count_from ReadyQueue.initialize
task_initialize k =
    let rq = ReadyQueue.initialize k.rq in
    record k {
      ctxtsk = none;
      schedtsk = none;
      dispatch_disabled = 0;
      rq = record rq { que = set_que rq.que free_tcb (count_from max_tskid 1) };
      tcb = λ t. if in_range t max_tskid then record (k.tcb t) { state = nonexist } else k.tcb t;
    }
