-- ===== src/EventFlag/Set.antt =====
-- `tk_set_flg` and `tk_clr_flg` in kernel/tkernel/eventflag.c, and the well-formed event flags.
use esp32c3_mtk.Prelude.{
  ℕ, ◌<◌, ◌≡◌, ◌≢◌, refl, sym, ◌∙◌, subst, bit_and, bit_or, Bool, true, false, List, [], ◌∷◌, ◌==◌,
  contains, without, all_distinct, All, All-mono, Bool-cases, arith, ◌⊎◌, inl, inr,
  all_distinct-without,
}
use esp32c3_mtk.Types.{ok, flg}
use esp32c3_mtk.Kernel.{Kernel, que_of}
use esp32c3_mtk.Wait.{wait_release_ok}
use esp32c3_mtk.Wait.Frame.{que-release, winfo-release}
use esp32c3_mtk.EventFlag.{
  waiptn_of, wfmode_of, eventflag_cond, cleared, ends_loop, report, meet, set_from, set_flg,
  clr_flg, set_flgptn,
}
use esp32c3_mtk.EventFlag.Pattern.{
  IsSubpattern, bit_and-IsSubpattern, cleared-IsSubpattern, eventflag_cond_mono,
  eventflag_cond-zero, ends_loop-cleared,
}

abbrev pub flgptn_of : Kernel → ℕ → ℕ
flgptn_of k i = (k.flgcb i).flgptn

-- Whether the condition that a task has given holds.
abbrev pub met : Kernel → ℕ → ℕ → Bool
met k i t = eventflag_cond (flgptn_of k i) (waiptn_of k t) (wfmode_of k t)

-- An event flag: no task is twice in its queue, everyone who waits there waits for some bit, and
-- nobody waits whose condition holds.
pub record IsFlg (k : Kernel) (i : ℕ) : Type 0 where
  pub distinct : all_distinct (que_of k (flg i)) ≡ true
  pub waits : All (λ t. 0 < waiptn_of k t) (que_of k (flg i))
  pub unmet : All (λ t. met k i t ≡ false) (que_of k (flg i))

-- What is left without `t` is no `t`.
All-without :
    (P : ℕ → Type 0) (t : ℕ) (ts : List ℕ) → All P ts → All (λ u. P u × (t ≢ u)) (without t ts)
All-without P t [] h = tt
All-without P t (q ∷ qs) h =
    let ih = All-without P t qs h.1 in
    elim (Bool-cases (q == t)) [
      | inl e ↦ rw e ih
      | inr e ↦ rw e ((h.0, (λ same. ground arith)), ih)
    ]

-- One task is met.
module _ (k : Kernel) (i t : ℕ) where
  flgptn-meet : flgptn_of (meet k i t) i ≡ cleared (flgptn_of k i) (waiptn_of k t) (wfmode_of k t)
  unfolding meet
  flgptn-meet = ground arith

  que-meet : que_of (meet k i t) (flg i) ≡ without t (que_of k (flg i))
  unfolding meet report wait_release_ok
  que-meet = ground (arith, que-release (report k t (k.flgcb i).flgptn) t ok (flg i) refl)

  waiptn-meet : (u : ℕ) → waiptn_of (meet k i t) u ≡ waiptn_of k u
  unfolding meet report wait_release_ok
  waiptn-meet u = ground (arith, winfo-release (report k t (k.flgcb i).flgptn) t ok u)

  wfmode-meet : (u : ℕ) → wfmode_of (meet k i t) u ≡ wfmode_of k u
  unfolding meet report wait_release_ok
  wfmode-meet u = ground (arith, winfo-release (report k t (k.flgcb i).flgptn) t ok u)

  -- The pattern is part of what it was, so nobody is met by it who was not.
  met-meet : (u : ℕ) → met (meet k i t) i u ≡ true → met k i u ≡ true
  met-meet u h =
      eventflag_cond_mono (cleared (flgptn_of k i) (waiptn_of k t) (wfmode_of k t)) (flgptn_of k i)
        (waiptn_of k u) (wfmode_of k u)
        (cleared-IsSubpattern (flgptn_of k i) (waiptn_of k t) (wfmode_of k t))
        (rw (← flgptn-meet, ← waiptn-meet u, ← wfmode-meet u) h)

-- The flag while the loop runs, with the tasks `ts` still ahead of it.
record IsBetween (k : Kernel) (i : ℕ) (ts : List ℕ) : Type 0 where
  distinct : all_distinct (que_of k (flg i)) ≡ true
  waits : All (λ t. 0 < waiptn_of k t) (que_of k (flg i))
  ahead : All (λ t. met k i t ≡ true → contains t ts ≡ true) (que_of k (flg i))

meet-IsBetween :
    (k : Kernel) (i t : ℕ) (ts : List ℕ) → IsBetween k i (t ∷ ts) → IsBetween (meet k i t) i ts
meet-IsBetween k i t ts v = record {
  distinct = rw (que-meet k i t) (all_distinct-without t (que_of k (flg i)) v.distinct);
  waits = rw (que-meet k i t) (
      All-mono _ (λ u. 0 < waiptn_of (meet k i t) u) _
        (λ u h. omega (arith, h.0, waiptn-meet k i t u))
        (All-without (λ u. 0 < waiptn_of k u) t (que_of k (flg i)) v.waits));
  ahead = rw (que-meet k i t) (
      All-mono _ (λ u. met (meet k i t) i u ≡ true → contains u ts ≡ true) _
        (λ u h m.
          let there : contains u (t ∷ ts) ≡ true = h.0 (met-meet k i t u m) in
          let other : t ≢ u = h.1 in ground arith)
        (All-without (λ u. met k i u ≡ true → contains u (t ∷ ts) ≡ true) t (que_of k (flg i))
          v.ahead));
}

skip-IsBetween :
    (k : Kernel) (i t : ℕ) (ts : List ℕ)
    → met k i t ≡ false
    → IsBetween k i (t ∷ ts)
    → IsBetween k i ts
skip-IsBetween k i t ts n v = record {
  distinct = v.distinct;
  waits = v.waits;
  ahead =
      All-mono (λ u. met k i u ≡ true → contains u (t ∷ ts) ≡ true)
        (λ u. met k i u ≡ true → contains u ts ≡ true) (que_of k (flg i))
        (λ u h m.
          let there : contains u (t ∷ ts) ≡ true = h m in
          elim (Bool-cases (t == u)) [
            | inl e ↦
                let same : t ≡ u = ground arith in
                let neither : met k i u ≡ false = subst (λ x. met k i x ≡ false) same n in
                ground arith
            | inr e ↦ ground arith
          ])
        v.ahead;
}

-- With no bit left, nobody is met.
cleared-IsFlg :
    (k : Kernel) (i : ℕ) (ts : List ℕ) → IsBetween k i ts → flgptn_of k i ≡ 0 → IsFlg k i
cleared-IsFlg k i ts v z = record {
  distinct = v.distinct;
  waits = v.waits;
  unmet =
      All-mono (λ u. 0 < waiptn_of k u) (λ u. met k i u ≡ false) (que_of k (flg i))
        (λ u h. rw z (eventflag_cond-zero (waiptn_of k u) (wfmode_of k u) h)) v.waits;
}

set_from-IsFlg : (k : Kernel) (i : ℕ) (ts : List ℕ) → IsBetween k i ts → IsFlg (set_from k i ts) i
unfolding set_from
set_from-IsFlg k i [] v = record {
  distinct = v.distinct;
  waits = v.waits;
  unmet =
      All-mono (λ u. met k i u ≡ true → contains u [] ≡ true) (λ u. met k i u ≡ false)
        (que_of k (flg i)) (λ u h. ground arith) v.ahead;
}
set_from-IsFlg k i (t ∷ ts) v =
    let next : IsBetween (meet k i t) i ts = meet-IsBetween k i t ts v in
    elim (Bool-cases (met k i t)) [
      | inl m ↦ elim (Bool-cases (ends_loop (flgptn_of k i) (waiptn_of k t) (wfmode_of k t))) [
        | inl e ↦
            rw (m, e)
              (cleared-IsFlg (meet k i t) i ts next
                (flgptn-meet k i t ∙ ends_loop-cleared _ (waiptn_of k t) _ e))
        | inr e ↦ rw (m, e) (set_from-IsFlg (meet k i t) i ts next)
      ]
      | inr n ↦ rw n (set_from-IsFlg k i ts (skip-IsBetween k i t ts n v))
    ]

All-within :
    (ts us : List ℕ)
    → ((u : ℕ) → contains u ts ≡ true → contains u us ≡ true)
    → All (λ u. contains u us ≡ true) ts
All-within [] us f = tt
All-within (t ∷ ts) us f = (f t (ground arith), All-within ts us (λ u h. f u (ground arith)))

-- Any pattern may be put in before the loop runs over the whole queue.
set_from_queue-IsFlg :
    (k : Kernel) (i p : ℕ) → IsFlg k i → IsFlg (set_from (set_flgptn k i p) i (que_of k (flg i))) i
set_from_queue-IsFlg k i p v = set_from-IsFlg (set_flgptn k i p) i (que_of k (flg i)) (record {
  distinct = v.distinct;
  waits = v.waits;
  ahead =
      All-mono (λ u. contains u (que_of k (flg i)) ≡ true)
        (λ u. met (set_flgptn k i p) i u ≡ true → contains u (que_of k (flg i)) ≡ true)
        (que_of k (flg i)) (λ u h m. h) (All-within _ _ (λ u h. h));
})

set_flg_outcome :
    (k : Kernel) (i setptn : ℕ)
    → ((set_flg k i setptn).0 ≡ k)
      ⊎ ((set_flg k i setptn).0
          ≡ set_from (set_flgptn k i (bit_or (k.flgcb i).flgptn setptn)) i (que_of k (flg i)))
unfolding set_flg
set_flg_outcome k i setptn = ground arith

-- `tk_set_flg` keeps an event flag well formed on every path: no task is twice in the queue, every
-- waiting task waits for some bit, and nobody is left waiting whose condition holds, whatever the
-- released tasks clear.
pub set_flg-IsFlg : (k : Kernel) (i setptn : ℕ) → IsFlg k i → IsFlg (set_flg k i setptn).0 i
set_flg-IsFlg k i setptn v = elim (set_flg_outcome k i setptn) [
  | inl e ↦ subst (λ k'. IsFlg k' i) (sym e) v
  | inr e ↦ subst (λ k'. IsFlg k' i) (sym e) (set_from_queue-IsFlg k i _ v)
]

-- Fewer bits meet nobody.
pub subpattern-IsFlg :
    (k : Kernel) (i p : ℕ) → IsSubpattern p (flgptn_of k i) → IsFlg k i → IsFlg (set_flgptn k i p) i
subpattern-IsFlg k i p s v = record {
  distinct = v.distinct;
  waits = v.waits;
  unmet =
      All-mono (λ u. met k i u ≡ false) (λ u. met (set_flgptn k i p) i u ≡ false) (que_of k (flg i))
        (λ u h.
          let put : flgptn_of (set_flgptn k i p) i ≡ p = ground arith in
          rw put (elim (Bool-cases (eventflag_cond p (waiptn_of k u) (wfmode_of k u))) [
            | inl m ↦
                let was : met k i u ≡ true = eventflag_cond_mono p (flgptn_of k i) _ _ s m in
                ground arith
            | inr n ↦ n
          ]))
        v.unmet;
}

clr_flg_outcome :
    (k : Kernel) (i clrptn : ℕ)
    → ((clr_flg k i clrptn).0 ≡ k)
      ⊎ ((clr_flg k i clrptn).0 ≡ set_flgptn k i (bit_and (k.flgcb i).flgptn clrptn))
unfolding clr_flg
clr_flg_outcome k i clrptn = ground arith

-- `tk_clr_flg` keeps an event flag well formed on every path.
pub clr_flg-IsFlg : (k : Kernel) (i clrptn : ℕ) → IsFlg k i → IsFlg (clr_flg k i clrptn).0 i
clr_flg-IsFlg k i clrptn v = elim (clr_flg_outcome k i clrptn) [
  | inl e ↦ subst (λ k'. IsFlg k' i) (sym e) v
  | inr e ↦
      subst (λ k'. IsFlg k' i) (sym e)
        (subpattern-IsFlg k i _ (bit_and-IsSubpattern (flgptn_of k i) clrptn) v)
]
