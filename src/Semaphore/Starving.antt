-- ===== src/Semaphore/Starving.antt =====
-- What a smaller count and a longer queue do to the tasks that wait for a semaphore
-- (kernel/tkernel/semaphore.c, `tk_wai_sem`).
use esp32c3_mtk.Prelude.{
  ℕ, ◌≤◌, ◌<◌, ◌≡◌, ◌≢◌, refl, Bool, true, false, ◌||◌, List, [], ◌∷◌, ◌++◌, ltb, is_empty,
  contains, All-append, All-mono, All-other, Bool-cases, inl, inr, arith,
}
use esp32c3_mtk.Wait.{insert_tpri}
use esp32c3_mtk.Wait.Insertion.{All-insert_tpri}
use esp32c3_mtk.Semaphore.Serve.{Starved}

-- Whether a task comes first in a queue by priority.
abbrev pub is_first : (ℕ → ℕ) → ℕ → List ℕ → Bool
is_first pri t [] = true
is_first pri t (q ∷ qs) = ltb (pri t) (pri q)

pub Starved-mono :
    (all : Bool) (req : ℕ → ℕ) (m n : ℕ) (ts : List ℕ)
    → m ≤ n
    → Starved all req n ts
    → Starved all req m ts
Starved-mono true req m n ts h s =
    All-mono (λ u. n < req u) (λ u. m < req u) ts (λ u p. omega arith) s
Starved-mono false req m n [] h s = tt
Starved-mono false req m n (t ∷ ts) h s = omega arith

pub Starved-other :
    (all : Bool) (req req' : ℕ → ℕ) (n t : ℕ) (ts : List ℕ)
    → contains t ts ≡ false
    → ((u : ℕ) → t ≢ u → req' u ≡ req u)
    → Starved all req n ts
    → Starved all req' n ts
Starved-other true req req' n t ts c e s =
    All-other (λ u. n < req u) (λ u. n < req' u) t ts c (λ u ne p. omega (arith, e u ne)) s
Starved-other false req req' n t [] c e s = tt
Starved-other false req req' n t (q ∷ qs) c e s = omega (arith, e q (ground arith))

pub Starved-insert_tpri :
    (all : Bool) (req pri : ℕ → ℕ) (n t : ℕ) (ts : List ℕ)
    → ((all || is_first pri t ts) ≡ true → n < req t)
    → Starved all req n ts
    → Starved all req n (insert_tpri pri t ts)
Starved-insert_tpri true req pri n t ts h s = All-insert_tpri pri t (λ u. n < req u) ts (h refl) s
Starved-insert_tpri false req pri n t [] h s = unfold insert_tpri in h refl
Starved-insert_tpri false req pri n t (q ∷ qs) h s =
    unfold insert_tpri in
    elim (Bool-cases (ltb (pri t) (pri q))) [ inl e ↦ rw e (h e) | inr e ↦ rw e s ]

pub Starved-snoc :
    (all : Bool) (req : ℕ → ℕ) (n t : ℕ) (ts : List ℕ)
    → ((all || is_empty ts) ≡ true → n < req t)
    → Starved all req n ts
    → Starved all req n (ts ++ t ∷ [])
Starved-snoc true req n t ts h s = All-append (λ u. n < req u) ts (t ∷ []) s (h refl, tt)
Starved-snoc false req n t [] h s = h refl
Starved-snoc false req n t (q ∷ qs) h s = s
