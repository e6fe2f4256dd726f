-- ===== src/Wait/Frame.antt =====
-- What the release of a waiting task changes, and what it leaves alone.
use esp32c3_mtk.Prelude.{ℕ, ◌≡◌, ◌≢◌, refl, Bool, true, false, without, arith}
use esp32c3_mtk.Types.{
  Er, TaskState, ready, wait, suspend, Head, rdy, sem, flg, mbx, lock, smbf, rmbf, mtx, mpf,
  free_tcb, same,
}
use esp32c3_mtk.Kernel.{Kernel, que_of}
use esp32c3_mtk.Wait.{wait_release_ok_ercd, priority_of}

-- The rings that are no ready list.
abbrev pub is_wait_head : Head → Bool
is_wait_head (rdy p) = false
is_wait_head _ = true

-- The state of a task that waited, once it waits no longer.
abbrev pub after_wait : TaskState → TaskState
after_wait wait = ready
after_wait _ = suspend

pub same-rdy : (p : ℕ) (h : Head) → is_wait_head h ≡ true → same (rdy p) h ≡ false
same-rdy p (rdy q) w = cc
same-rdy p (sem q) w = refl
same-rdy p (flg q) w = refl
same-rdy p (mbx q) w = refl
same-rdy p (lock q) w = refl
same-rdy p (smbf q) w = refl
same-rdy p (rmbf q) w = refl
same-rdy p (mtx q) w = refl
same-rdy p (mpf q) w = refl
same-rdy p free_tcb w = refl

module _ (k : Kernel) (t : ℕ) (er : Er) where
  pub semcb-release : (wait_release_ok_ercd k t er).semcb ≡ k.semcb
  unfolding wait_release_ok_ercd
  semcb-release = ground arith

  pub flgcb-release : (wait_release_ok_ercd k t er).flgcb ≡ k.flgcb
  unfolding wait_release_ok_ercd
  flgcb-release = ground arith

  pub mbxcb-release : (wait_release_ok_ercd k t er).mbxcb ≡ k.mbxcb
  unfolding wait_release_ok_ercd
  mbxcb-release = ground arith

  pub mbfcb-release : (wait_release_ok_ercd k t er).mbfcb ≡ k.mbfcb
  unfolding wait_release_ok_ercd
  mbfcb-release = ground arith

  pub mtxcb-release : (wait_release_ok_ercd k t er).mtxcb ≡ k.mtxcb
  unfolding wait_release_ok_ercd
  mtxcb-release = ground arith

  pub mpfcb-release : (wait_release_ok_ercd k t er).mpfcb ≡ k.mpfcb
  unfolding wait_release_ok_ercd
  mpfcb-release = ground arith

  -- The task leaves the wait queue, and the other tasks stay in it.
  pub que-release :
      (h : Head)
      → is_wait_head h ≡ true
      → que_of (wait_release_ok_ercd k t er) h ≡ without t (que_of k h)
  unfolding wait_release_ok_ercd
  que-release h w = ground (arith, same-rdy (priority_of k t) h)

  pub winfo-release : (u : ℕ) → ((wait_release_ok_ercd k t er).tcb u).winfo ≡ (k.tcb u).winfo
  unfolding wait_release_ok_ercd
  winfo-release u = ground arith

  pub mtxlist-release : (u : ℕ) → ((wait_release_ok_ercd k t er).tcb u).mtxlist ≡ (k.tcb u).mtxlist
  unfolding wait_release_ok_ercd
  mtxlist-release u = ground arith

  pub priority-release :
      (u : ℕ) → ((wait_release_ok_ercd k t er).tcb u).priority ≡ (k.tcb u).priority
  unfolding wait_release_ok_ercd
  priority-release u = ground arith

  -- The other tasks are not touched.
  pub tcb-release_ne : (u : ℕ) → t ≢ u → (wait_release_ok_ercd k t er).tcb u ≡ k.tcb u
  unfolding wait_release_ok_ercd
  tcb-release_ne u n = ground arith

  -- The task itself has its code, and waits no longer: it is READY, or SUSPENDED if it was
  -- suspended while it waited.
  pub tcb-release_self :
      (wait_release_ok_ercd k t er).tcb t
      ≡ record (k.tcb t) { wercd = er; state = after_wait (k.tcb t).state }
  unfolding wait_release_ok_ercd
  tcb-release_self = ground arith
