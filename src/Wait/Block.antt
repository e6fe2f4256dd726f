-- ===== src/Wait/Block.antt =====
-- What the task in execution changes when it starts to wait for an object.
use esp32c3_mtk.Prelude.{
  ℕ, ◌≡◌, refl, true, false, [], ◌∷◌, ◌++◌, if◌then◌else◌, contains, arith, without_absent, ap,
  fun_ext, Bool-cases, inl, inr,
}
use esp32c3_mtk.Bits.{any_bit}
use esp32c3_mtk.Types.{
  ℤ, pos, negsuc, e_tmout, Head, same, rdy, sem, flg, mbx, lock, smbf, rmbf, mtx, mpf, free_tcb,
}
use esp32c3_mtk.Kernel.{Kernel, set_tcb, que_of, is_pol}
use esp32c3_mtk.Timer.{timer_insert}
use esp32c3_mtk.Wait.{
  gcb_make_wait, make_wait, make_waiting, insert_tpri, ta_tpri, priority_of, set_wercd,
  queue_insert_tpri,
}
use esp32c3_mtk.Wait.Frame.{is_wait_head, same-rdy}

module _ (k : Kernel) (t : ℕ) where
  semcb-make_wait : (tmout : ℤ) → (make_wait k t tmout).semcb ≡ k.semcb
  unfolding make_wait make_waiting timer_insert
  semcb-make_wait (pos n) = ground arith
  semcb-make_wait (negsuc n) = ground arith

  flgcb-make_wait : (tmout : ℤ) → (make_wait k t tmout).flgcb ≡ k.flgcb
  unfolding make_wait make_waiting timer_insert
  flgcb-make_wait (pos n) = ground arith
  flgcb-make_wait (negsuc n) = ground arith

  mbxcb-make_wait : (tmout : ℤ) → (make_wait k t tmout).mbxcb ≡ k.mbxcb
  unfolding make_wait make_waiting timer_insert
  mbxcb-make_wait (pos n) = ground arith
  mbxcb-make_wait (negsuc n) = ground arith

  pub mbfcb-make_wait : (tmout : ℤ) → (make_wait k t tmout).mbfcb ≡ k.mbfcb
  unfolding make_wait make_waiting timer_insert
  mbfcb-make_wait (pos n) = ground arith
  mbfcb-make_wait (negsuc n) = ground arith

  pub mpfcb-make_wait : (tmout : ℤ) → (make_wait k t tmout).mpfcb ≡ k.mpfcb
  unfolding make_wait make_waiting timer_insert
  mpfcb-make_wait (pos n) = ground arith
  mpfcb-make_wait (negsuc n) = ground arith

  pub mtxcb-make_wait : (tmout : ℤ) → (make_wait k t tmout).mtxcb ≡ k.mtxcb
  unfolding make_wait make_waiting timer_insert
  mtxcb-make_wait (pos n) = ground arith
  mtxcb-make_wait (negsuc n) = ground arith

  pub mtxlist-make_wait :
      (tmout : ℤ) (u : ℕ) → ((make_wait k t tmout).tcb u).mtxlist ≡ (k.tcb u).mtxlist
  unfolding make_wait make_waiting timer_insert
  mtxlist-make_wait (pos n) u = ground arith
  mtxlist-make_wait (negsuc n) u = ground arith

  pub winfo-make_wait : (tmout : ℤ) (u : ℕ) → ((make_wait k t tmout).tcb u).winfo ≡ (k.tcb u).winfo
  unfolding make_wait make_waiting timer_insert
  winfo-make_wait (pos n) u = ground arith
  winfo-make_wait (negsuc n) u = ground arith

  priority-make_wait : (tmout : ℤ) (u : ℕ) → priority_of (make_wait k t tmout) u ≡ priority_of k u
  unfolding make_wait make_waiting timer_insert
  priority-make_wait (pos n) u = ground arith
  priority-make_wait (negsuc n) u = ground arith

  -- A ring that the task is not in stays as it is.
  pub que-make_wait :
      (tmout : ℤ) (h : Head)
      → is_wait_head h ≡ true
      → contains t (que_of k h) ≡ false
      → que_of (make_wait k t tmout) h ≡ que_of k h
  unfolding make_wait make_waiting timer_insert
  que-make_wait (pos n) h w c =
      ground (arith, without_absent t (que_of k h), same-rdy (priority_of k t) h)
  que-make_wait (negsuc n) h w c =
      ground (arith, without_absent t (que_of k h), same-rdy (priority_of k t) h)

pub same_refl : (h : Head) → same h h ≡ true
same_refl (rdy a) = ground arith
same_refl (sem a) = ground arith
same_refl (flg a) = ground arith
same_refl (mbx a) = ground arith
same_refl (lock a) = ground arith
same_refl (smbf a) = ground arith
same_refl (rmbf a) = ground arith
same_refl (mtx a) = ground arith
same_refl (mpf a) = ground arith
same_refl free_tcb = refl

module _ (k : Kernel) (t : ℕ) (h : Head) (id atr : ℕ) (tmout : ℤ) where
  -- The state in which `knl_make_wait` is called.
  marked : Kernel
  unfolding set_wercd
  marked = let k1 = set_wercd k t e_tmout in set_tcb k1 t (record (k1.tcb t) { wid = id })

  pub semcb-block : (gcb_make_wait k t h id atr tmout).0.semcb ≡ k.semcb
  unfolding gcb_make_wait queue_insert_tpri set_wercd marked
  semcb-block = ground (arith, semcb-make_wait marked t tmout)

  pub flgcb-block : (gcb_make_wait k t h id atr tmout).0.flgcb ≡ k.flgcb
  unfolding gcb_make_wait queue_insert_tpri set_wercd marked
  flgcb-block = ground (arith, flgcb-make_wait marked t tmout)

  pub mbxcb-block : (gcb_make_wait k t h id atr tmout).0.mbxcb ≡ k.mbxcb
  unfolding gcb_make_wait queue_insert_tpri set_wercd marked
  mbxcb-block = ground (arith, mbxcb-make_wait marked t tmout)

  pub mbfcb-block : (gcb_make_wait k t h id atr tmout).0.mbfcb ≡ k.mbfcb
  unfolding gcb_make_wait queue_insert_tpri set_wercd marked
  mbfcb-block = ground (arith, mbfcb-make_wait marked t tmout)

  pub mpfcb-block : (gcb_make_wait k t h id atr tmout).0.mpfcb ≡ k.mpfcb
  unfolding gcb_make_wait queue_insert_tpri set_wercd marked
  mpfcb-block = ground (arith, mpfcb-make_wait marked t tmout)

  pub winfo-block : (u : ℕ) → ((gcb_make_wait k t h id atr tmout).0.tcb u).winfo ≡ (k.tcb u).winfo
  unfolding gcb_make_wait queue_insert_tpri set_wercd marked
  winfo-block u = ground (arith, winfo-make_wait marked t tmout u)

  pub priority-block :
      (u : ℕ) → priority_of (gcb_make_wait k t h id atr tmout).0 u ≡ priority_of k u
  unfolding gcb_make_wait queue_insert_tpri set_wercd marked
  priority-block u = ground (arith, priority-make_wait marked t tmout u)

  -- A polling call joins no queue.
  pub que-poll : is_pol tmout ≡ true → que_of (gcb_make_wait k t h id atr tmout).0 ≡ que_of k
  unfolding gcb_make_wait set_wercd
  que-poll p = rw p

  priorities-marked : priority_of (make_wait marked t tmout) ≡ priority_of k
  unfolding marked set_wercd
  priorities-marked = fun_ext λ u. ground (arith, priority-make_wait marked t tmout u)

  -- Any other call joins the object's queue, at its place.
  pub que-block :
      is_wait_head h ≡ true
      → is_pol tmout ≡ false
      → contains t (que_of k h) ≡ false
      → que_of (gcb_make_wait k t h id atr tmout).0 h ≡ (
          if any_bit atr ta_tpri
          then insert_tpri (priority_of k) t (que_of k h)
          else que_of k h ++ t ∷ [])
  unfolding gcb_make_wait queue_insert_tpri set_wercd marked
  que-block w p c = elim (Bool-cases (any_bit atr ta_tpri)) [
    | inl b ↦
        rw (p, b, same_refl h)
          (rw (que-make_wait marked t tmout h w c)
            (ap (λ f. insert_tpri f t (que_of k h)) priorities-marked))
    | inr b ↦ rw (p, b, same_refl h) (ap (λ q. q ++ t ∷ []) (que-make_wait marked t tmout h w c))
  ]

  -- It joins no other queue.
  pub que-block_ne :
      (other : Head)
      → is_wait_head other ≡ true
      → same h other ≡ false
      → contains t (que_of k other) ≡ false
      → que_of (gcb_make_wait k t h id atr tmout).0 other ≡ que_of k other
  unfolding gcb_make_wait queue_insert_tpri set_wercd marked
  que-block_ne other w n c = elim (Bool-cases (is_pol tmout)) [
    | inl p ↦ rw p refl
    | inr p ↦ elim (Bool-cases (any_bit atr ta_tpri)) [
      | inl b ↦ rw (p, b, n) (que-make_wait marked t tmout other w c)
      | inr b ↦ rw (p, b, n) (que-make_wait marked t tmout other w c)
    ]
  ]
