-- ===== src/FixedPool/Calls.antt =====
-- `tk_get_mpf` and `tk_rel_mpf` of kernel/tkernel/mempfix.c, once the task has the pool's lock: who has
-- which block.
use esp32c3_mtk.Prelude.{
  ℕ, ◌≡◌, refl, sym, ◌∙◌, ap, subst, true, false, List, [], ◌∷◌, ◌==◌, contains, without, arith,
  List-cases, inl, inr, ◌⊎◌,
}
use esp32c3_mtk.Types.{ℤ, ok, mpf}
use esp32c3_mtk.Kernel.{Kernel, que_of, ret}
use esp32c3_mtk.Wait.{wait_release_ok}
use esp32c3_mtk.Wait.Frame.{mpfcb-release, winfo-release}
use esp32c3_mtk.ObjectLock.{unlock_obj}
use esp32c3_mtk.FixedPool.{
  set_mpfcb, set_p_blf, take_block, put_block, get_locked, is_no_block, give_block, rel_locked,
}
use esp32c3_mtk.FixedPool.Blocks.{IsSharedOut, take_block-IsSharedOut, put_block-IsSharedOut}

-- `knl_UnlockOBJ` changes no pool and no cell of a task.
mpfcb-unlock_obj : (k : Kernel) (l t : ℕ) → (unlock_obj k l t).mpfcb ≡ k.mpfcb
unfolding unlock_obj
mpfcb-unlock_obj k l t = ground (arith, List-cases (que_of k _))

p_blf-unlock_obj :
    (k : Kernel) (l t u : ℕ) → ((unlock_obj k l t).tcb u).winfo.p_blf ≡ (k.tcb u).winfo.p_blf
unfolding unlock_obj
p_blf-unlock_obj k l t u = ground (arith, List-cases (que_of k _))

module _ (k : Kernel) (t i : ℕ) where
  abbrev got : Kernel
  got = set_p_blf (set_mpfcb k i (take_block (k.mpfcb i)).0) t (take_block (k.mpfcb i)).1

  get_locked-block :
      (tmout : ℤ)
      → ((k.mpfcb i).mpfid == 0) ≡ false
      → ((k.mpfcb i).frbcnt == 0) ≡ false
      → get_locked k t i tmout ≡ (unlock_obj got i t, ret ok)
  unfolding get_locked
  get_locked-block tmout z f = rw (z, f) refl

  mpfcb-got : (unlock_obj got i t).mpfcb i ≡ (take_block (k.mpfcb i)).0
  mpfcb-got = ap (λ c. c i) (mpfcb-unlock_obj got i t) ∙ ground arith

  p_blf-got : ((unlock_obj got i t).tcb t).winfo.p_blf ≡ (take_block (k.mpfcb i)).1
  p_blf-got = p_blf-unlock_obj got i t t ∙ ground arith

  -- `tk_get_mpf`, in the state in which its task has the pool's lock, hands out a block that
  -- nobody holds, when the pool is in use and has a free block: the reply is E_OK, and the pool is
  -- shared out to the old holders' blocks and this one.
  pub get_locked-IsSharedOut :
      (tmout : ℤ) (held : List ℕ)
      → IsSharedOut (k.mpfcb i) held
      → ((k.mpfcb i).mpfid == 0) ≡ false
      → ((k.mpfcb i).frbcnt == 0) ≡ false
      → let out = get_locked k t i tmout in
        let blf = (out.0.tcb t).winfo.p_blf in
        (out.1 ≡ ret ok) × (contains blf held ≡ false) × IsSharedOut (out.0.mpfcb i) (blf ∷ held)
  get_locked-IsSharedOut tmout held v z f =
      let taken = take_block-IsSharedOut (k.mpfcb i) held v f in
      subst
        (λ out.
          (out.1 ≡ ret ok)
          × (contains (out.0.tcb t).winfo.p_blf held ≡ false)
          × IsSharedOut (out.0.mpfcb i) ((out.0.tcb t).winfo.p_blf ∷ held))
        (sym (get_locked-block tmout z f))
        (refl, rw p_blf-got taken.0, rw (p_blf-got, mpfcb-got) taken.1)

  rel_locked-given :
      (blf : ℕ)
      → ((k.mpfcb i).mpfid == 0) ≡ false
      → is_no_block (k.mpfcb i) blf ≡ false
      → rel_locked k t i blf ≡ (unlock_obj (give_block k i blf (que_of k (mpf i))) i t, ret ok)
  unfolding rel_locked
  rel_locked-given blf z b = rw (z, b) refl

  -- `tk_rel_mpf` of a held block that its check finds good, in the state in which its task has the
  -- pool's lock, replies E_OK; when nobody waits the block is free again and the pool is shared
  -- out to the other held blocks, otherwise the first that waits gets this block, and the same
  -- blocks are held.
  pub rel_locked-IsSharedOut :
      (blf : ℕ) (held : List ℕ)
      → IsSharedOut (k.mpfcb i) held
      → ((k.mpfcb i).mpfid == 0) ≡ false
      → is_no_block (k.mpfcb i) blf ≡ false
      → contains blf held ≡ true
      → let out = rel_locked k t i blf in
        (out.1 ≡ ret ok)
        × (((que_of k (mpf i) ≡ []) × IsSharedOut (out.0.mpfcb i) (without blf held))
            ⊎ ((u : ℕ) × (us : List ℕ) × (que_of k (mpf i) ≡ u ∷ us)
                × ((out.0.tcb u).winfo.p_blf ≡ blf)
                × IsSharedOut (out.0.mpfcb i) held))
  rel_locked-IsSharedOut blf held v z b m = elim (List-cases (que_of k (mpf i))) [
    | inl e ↦
        let by =
          rel_locked-given blf z b ∙ ap (λ q. (unlock_obj (give_block k i blf q) i t, ret ok)) e in
        let back : (rel_locked k t i blf).0.mpfcb i ≡ put_block (k.mpfcb i) blf =
          ap (λ out. out.0.mpfcb i) by
          ∙ ap (λ c. c i) (mpfcb-unlock_obj (give_block k i blf []) i t)
          ∙ ground arith in
        (ap (λ out. out.1) by, inl (e, rw back (put_block-IsSharedOut (k.mpfcb i) blf held v m)))
    | inr (u, us, e) ↦
        let by =
          rel_locked-given blf z b ∙ ap (λ q. (unlock_obj (give_block k i blf q) i t, ret ok)) e in
        let k1 = set_p_blf k u blf in
        let k2 = wait_release_ok k1 u in
        let pools : (rel_locked k t i blf).0.mpfcb ≡ k.mpfcb =
          ap (λ out. out.0.mpfcb) by
          ∙ mpfcb-unlock_obj k2 i t
          ∙ (unfold wait_release_ok in mpfcb-release k1 u ok) in
        let kept_winfo : (k2.tcb u).winfo ≡ (k1.tcb u).winfo =
          unfold wait_release_ok in winfo-release k1 u ok u in
        let cell : ((rel_locked k t i blf).0.tcb u).winfo.p_blf ≡ blf =
          ap (λ out. (out.0.tcb u).winfo.p_blf) by
          ∙ p_blf-unlock_obj k2 i t u
          ∙ ap (λ w. w.p_blf) kept_winfo
          ∙ ground arith in
        (ap (λ out. out.1) by, inr (u, us, e, cell, rw (ap (λ c. c i) pools) v))
  ]
