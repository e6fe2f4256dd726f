-- ===== src/EventFlag/Await.antt =====
-- `tk_wai_flg` in kernel/tkernel/eventflag.c: a task finds its condition met or joins the queue.
use esp32c3_mtk.Prelude.{
  ℕ, ◌<◌, ◌≡◌, refl, sym, ◌∙◌, ap, subst, true, false, List, [], ◌∷◌, ◌++◌, none, some,
  if◌then◌else◌, contains, all_distinct, All, All-append, All-mono, All-other, Option-cases,
  Bool-cases, arith, ◌⊎◌, inl, inr, all_distinct-snoc,
}
use esp32c3_mtk.Bits.{any_bit}
use esp32c3_mtk.Types.{ℤ, flg}
use esp32c3_mtk.Kernel.{Kernel, que_of, is_pol}
use esp32c3_mtk.Wait.{ta_tpri, insert_tpri, priority_of, gcb_make_wait}
use esp32c3_mtk.Wait.Block.{flgcb-block, winfo-block, que-poll, que-block}
use esp32c3_mtk.Wait.Insertion.{all_distinct-insert_tpri, All-insert_tpri}
use esp32c3_mtk.EventFlag.{
  waiptn_of, eventflag_cond, cleared, report, set_flgptn, asking, wai_flg_by, wai_flg,
}
use esp32c3_mtk.EventFlag.Pattern.{cleared-IsSubpattern}
use esp32c3_mtk.EventFlag.Set.{IsFlg, flgptn_of, met, subpattern-IsFlg}

report-IsFlg : (k : Kernel) (i t p : ℕ) → IsFlg k i → IsFlg (report k t p) i
unfolding report
report-IsFlg k i t p v = record {
  distinct = v.distinct;
  waits =
      All-mono (λ u. 0 < waiptn_of k u) (λ u. 0 < waiptn_of (report k t p) u) (que_of k (flg i))
        (λ u h. ground arith) v.waits;
  unmet =
      All-mono (λ u. met k i u ≡ false) (λ u. met (report k t p) i u ≡ false) (que_of k (flg i))
        (λ u h. ground arith) v.unmet;
}

-- A task that is in no queue gives its condition.
asking-IsFlg :
    (k : Kernel) (t i w m : ℕ)
    → contains t (que_of k (flg i)) ≡ false
    → IsFlg k i
    → IsFlg (asking k t i w m) i
unfolding asking
asking-IsFlg k t i w m absent v = record {
  distinct = v.distinct;
  waits =
      All-other (λ u. 0 < waiptn_of k u) (λ u. 0 < waiptn_of (asking k t i w m) u) t
        (que_of k (flg i)) absent (λ u ne h. ground arith) v.waits;
  unmet =
      All-other (λ u. met k i u ≡ false) (λ u. met (asking k t i w m) i u ≡ false) t
        (que_of k (flg i)) absent (λ u ne h. ground arith) v.unmet;
}

module _ (k : Kernel) (t i : ℕ) (tmout : ℤ) (v : IsFlg k i) (asks : 0 < waiptn_of k t)
    (unmet : met k i t ≡ false) (absent : contains t (que_of k (flg i)) ≡ false) where
  abbrev blocked : Kernel
  blocked = (gcb_make_wait k t (flg i) i (k.flgcb i).flgatr tmout).0

  -- The queue with the task in its place.
  abbrev joined : List ℕ
  joined =
      if any_bit (k.flgcb i).flgatr ta_tpri
      then insert_tpri (priority_of k) t (que_of k (flg i))
      else que_of k (flg i) ++ t ∷ []

  joined-distinct : all_distinct joined ≡ true
  joined-distinct = ground (
    arith,
    all_distinct-insert_tpri (priority_of k) t (que_of k (flg i)) v.distinct absent,
    all_distinct-snoc t (que_of k (flg i)) v.distinct absent,
  )

  All-joined : (P : ℕ → Type 0) → P t → All P (que_of k (flg i)) → All P joined
  All-joined P h g = elim (Bool-cases (any_bit (k.flgcb i).flgatr ta_tpri)) [
    | inl b ↦ rw b (All-insert_tpri (priority_of k) t P _ h g)
    | inr b ↦ rw b (All-append P _ (t ∷ []) g (h, tt))
  ]

  blocked-met : (u : ℕ) → met blocked i u ≡ met k i u
  blocked-met u = ground (
    arith,
    flgcb-block k t (flg i) i (k.flgcb i).flgatr tmout,
    winfo-block k t (flg i) i (k.flgcb i).flgatr tmout u,
  )

  blocked_by :
      (ts : List ℕ)
      → que_of blocked (flg i) ≡ ts
      → all_distinct ts ≡ true
      → All (λ u. 0 < waiptn_of k u) ts
      → All (λ u. met k i u ≡ false) ts
      → IsFlg blocked i
  blocked_by ts e d a s = record {
    distinct = rw e d;
    waits = rw e (
        All-mono _ (λ u. 0 < waiptn_of blocked u) ts
          (λ u h.
            let e : waiptn_of blocked u ≡ waiptn_of k u =
              ap (λ c. c.waiptn) (winfo-block k t (flg i) i (k.flgcb i).flgatr tmout u) in
            omega arith)
          a);
    unmet = rw e (All-mono _ (λ u. met blocked i u ≡ false) ts (λ u h. blocked-met u ∙ h) s);
  }

  blocked-IsFlg : IsFlg blocked i
  blocked-IsFlg = elim (Bool-cases (is_pol tmout)) [
    | inl p ↦
        blocked_by (que_of k (flg i))
          (ap (λ f. f (flg i)) (que-poll k t (flg i) i (k.flgcb i).flgatr tmout p)) v.distinct
          v.waits v.unmet
    | inr p ↦
        blocked_by joined (que-block k t (flg i) i (k.flgcb i).flgatr tmout refl p absent)
          joined-distinct (All-joined (λ u. 0 < waiptn_of k u) asks v.waits)
          (All-joined (λ u. met k i u ≡ false) unmet v.unmet)
  ]

wai_flg_by_outcome :
    (k : Kernel) (t i w m : ℕ) (tmout : ℤ)
    → ((wai_flg_by k t i w m tmout).0 ≡ k)
      ⊎ ((wai_flg_by k t i w m tmout).0
          ≡ set_flgptn (report k t (flgptn_of k i)) i (cleared (flgptn_of k i) w m))
      ⊎ ((eventflag_cond (flgptn_of k i) w m ≡ false)
          × ((wai_flg_by k t i w m tmout).0
              ≡ (gcb_make_wait (asking k t i w m) t (flg i) i (k.flgcb i).flgatr tmout).0))
unfolding wai_flg_by
wai_flg_by_outcome k t i w m tmout = ground arith

asking_self :
    (k : Kernel) (t i w m : ℕ) → met (asking k t i w m) i t ≡ eventflag_cond (flgptn_of k i) w m
unfolding asking
asking_self k t i w m = ground arith

waiptn-asking_self : (k : Kernel) (t i w m : ℕ) → waiptn_of (asking k t i w m) t ≡ w
unfolding asking
waiptn-asking_self k t i w m = ground arith

wai_flg_by-IsFlg :
    (k : Kernel) (t i w m : ℕ) (tmout : ℤ)
    → IsFlg k i
    → 0 < w
    → contains t (que_of k (flg i)) ≡ false
    → IsFlg (wai_flg_by k t i w m tmout).0 i
wai_flg_by-IsFlg k t i w m tmout v pw absent = elim (wai_flg_by_outcome k t i w m tmout) [
  | inl e ↦ subst (λ k'. IsFlg k' i) (sym e) v
  | inr (inl e) ↦
      subst (λ k'. IsFlg k' i) (sym e)
        (subpattern-IsFlg (report k t (flgptn_of k i)) i _
          (unfold report in cleared-IsSubpattern (flgptn_of k i) w m)
          (report-IsFlg k i t (flgptn_of k i) v))
  | inr (inr (n, e)) ↦
      subst (λ k'. IsFlg k' i) (sym e)
        (unfold asking in
          blocked-IsFlg (asking k t i w m) t i tmout (asking-IsFlg k t i w m absent v)
            (rw (waiptn-asking_self k t i w m) pw) (asking_self k t i w m ∙ n) absent)
]

wai_flg_outcome :
    (k : Kernel) (i t w m : ℕ) (tmout : ℤ)
    → k.ctxtsk ≡ some t
    → ((wai_flg k i w m tmout).0 ≡ k)
      ⊎ ((0 < w) × ((wai_flg k i w m tmout).0 ≡ (wai_flg_by k t i w m tmout).0))
unfolding wai_flg
wai_flg_outcome k i t w m tmout e = ground arith

wai_flg_idle :
    (k : Kernel) (i w m : ℕ) (tmout : ℤ) → k.ctxtsk ≡ none → (wai_flg k i w m tmout).0 ≡ k
unfolding wai_flg
wai_flg_idle k i w m tmout e = ground arith

-- `tk_wai_flg` keeps an event flag well formed on every path, when the task in execution, if any,
-- is not in its queue.
pub wai_flg-IsFlg :
    (k : Kernel) (i waiptn wfmode : ℕ) (tmout : ℤ)
    → IsFlg k i
    → ((t : ℕ) → k.ctxtsk ≡ some t → contains t (que_of k (flg i)) ≡ false)
    → IsFlg (wai_flg k i waiptn wfmode tmout).0 i
wai_flg-IsFlg k i w m tmout v absent = elim (Option-cases k.ctxtsk) [
  | inl e ↦ subst (λ k'. IsFlg k' i) (sym (wai_flg_idle k i w m tmout e)) v
  | inr (t, e) ↦ elim (wai_flg_outcome k i t w m tmout e) [
    | inl same ↦ subst (λ k'. IsFlg k' i) (sym same) v
    | inr (pw, by) ↦
        subst (λ k'. IsFlg k' i) (sym by) (wai_flg_by-IsFlg k t i w m tmout v pw (absent t e))
  ]
]
