-- ===== src/Wait/Insertion.antt =====
-- `knl_queue_insert_tpri`: the place of a task in a queue by priority.
use esp32c3_mtk.Prelude.{
  ℕ, suc, ◌≤◌, ◌≡◌, refl, ap, true, false, ◌||◌, List, [], ◌∷◌, ◌++◌, ltb, ◌==◌, contains,
  all_distinct, All, arith, Bool-cases, inl, inr,
}
use esp32c3_mtk.Wait.{insert_tpri}

-- Better priorities (smaller numbers) come first.
abbrev pub IsByPriority : (ℕ → ℕ) → List ℕ → Type 0
IsByPriority pri [] = Unit
IsByPriority pri (q ∷ qs) = All (λ u. pri q ≤ pri u) qs × IsByPriority pri qs

module _ (pri : ℕ → ℕ) (t : ℕ) where
  pub contains-insert_tpri :
      (u : ℕ) (qs : List ℕ) → contains u (insert_tpri pri t qs) ≡ (t == u || contains u qs)
  unfolding insert_tpri
  contains-insert_tpri u [] = refl
  contains-insert_tpri u (q ∷ qs) = ground (arith, contains-insert_tpri u qs)

  pub all_distinct-insert_tpri :
      (qs : List ℕ)
      → all_distinct qs ≡ true
      → contains t qs ≡ false
      → all_distinct (insert_tpri pri t qs) ≡ true
  unfolding insert_tpri
  all_distinct-insert_tpri [] d n = refl
  all_distinct-insert_tpri (q ∷ qs) d n =
      ground (arith, all_distinct-insert_tpri qs, contains-insert_tpri q qs)

  pub All-insert_tpri :
      (P : ℕ → Type 0) (qs : List ℕ) → P t → All P qs → All P (insert_tpri pri t qs)
  unfolding insert_tpri
  All-insert_tpri P [] p h = (p, tt)
  All-insert_tpri P (q ∷ qs) p h = elim (Bool-cases (ltb (pri t) (pri q))) [
    | inl before ↦ rw before (p, h)
    | inr after ↦ rw after (h.0, All-insert_tpri P qs p h.1)
  ]

  All-le_trans : (a b : ℕ) (qs : List ℕ) → a ≤ b → All (λ u. b ≤ pri u) qs → All (λ u. a ≤ pri u) qs
  All-le_trans a b [] h v = tt
  All-le_trans a b (q ∷ qs) h v = (omega arith, All-le_trans a b qs h v.1)

  -- `knl_queue_insert_tpri` keeps a wait queue in the order of the tasks' priorities.
  pub insert_tpri-IsByPriority :
      (qs : List ℕ) → IsByPriority pri qs → IsByPriority pri (insert_tpri pri t qs)
  unfolding insert_tpri
  insert_tpri-IsByPriority [] v = (tt, tt)
  insert_tpri-IsByPriority (q ∷ qs) v = elim (Bool-cases (ltb (pri t) (pri q))) [
    | inl before ↦
        let le : pri t ≤ pri q = ground arith in
        rw before ((le, All-le_trans (pri t) (pri q) qs le v.0), v)
    | inr after ↦
        let le : pri q ≤ pri t = ground arith in
        rw after (All-insert_tpri (λ u. pri q ≤ pri u) qs le v.0, insert_tpri-IsByPriority qs v.1)
  ]

  -- The task goes behind all of its own or a better priority: first come, first served within a
  -- priority.
  pub insert_tpri_place :
      (qs : List ℕ)
      → IsByPriority pri qs
      → (before : List ℕ) × (after : List ℕ) × (insert_tpri pri t qs ≡ before ++ t ∷ after)
        × (qs ≡ before ++ after)
        × All (λ u. pri u ≤ pri t) before
        × All (λ u. suc (pri t) ≤ pri u) after
  unfolding insert_tpri
  insert_tpri_place [] v = ([], [], refl, refl, tt, tt)
  insert_tpri_place (q ∷ qs) v = elim (Bool-cases (ltb (pri t) (pri q))) [
    | inl first ↦
        let lt : suc (pri t) ≤ pri q = ground arith in
        ([], q ∷ qs, rw first, refl, tt, (lt, All-le_trans (suc (pri t)) (pri q) qs lt v.0))
    | inr later ↦
        let (before, after, e, f, p, r) = insert_tpri_place qs v.1 in
        (
          q ∷ before,
          after,
          rw later (ap (λ xs. q ∷ xs) e),
          ap (λ xs. q ∷ xs) f,
          (ground arith, p),
          r,
        )
  ]
