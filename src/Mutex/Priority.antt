-- ===== src/Mutex/Priority.antt =====
-- The priority that `knl_release_mutex` of kernel/tkernel/mutex.c gives a task, beside what the mutexes
-- of the task ask for.
use esp32c3_mtk.Prelude.{
  ℕ, ◌≤◌, ◌≡◌, refl, ◌&&◌, Bool-cases, inl, inr, List, [], ◌∷◌, Option, none, some, ltb, ◌==◌,
  if◌then◌else◌, arith, List-cases, ap, ap₂, ◌∙◌,
}
use esp32c3_mtk.Types.{mtx}
use esp32c3_mtk.Kernel.{Kernel, que_of}
use esp32c3_mtk.Wait.{priority_of}
use esp32c3_mtk.Types.{in_wait}
use esp32c3_mtk.Mutex.Manage.{is_mtx, limits_from, chg_pri_mutex}
use esp32c3_mtk.Mutex.{
  ta_ceiling, ta_inherit, kind_of, pri_after, newpri_from, kept, set_mtxlist, release_mutex,
}

-- The priority of the first of a queue, if any.
abbrev first_priority : Kernel → List ℕ → Option ℕ
first_priority k [] = none
first_priority k (u ∷ us) = some (priority_of k u)

-- What a mutex asks of its holder: its ceiling, or the priority of the first that waits for it.
unfoldable pub asked : Kernel → ℕ → Option ℕ
asked k i =
    if kind_of k i == ta_ceiling
    then some (k.mtxcb i).ceilpri
    else if kind_of k i == ta_inherit
    then first_priority k (que_of k (mtx i))
    else none

abbrev pub better : ℕ → Option ℕ → ℕ
better n none = n
better n (some p) = if ltb p n then p else n

-- The best of a priority and what mutexes ask for.
abbrev pub best : Kernel → ℕ → List ℕ → ℕ
best k n [] = n
best k n (i ∷ is) = best k (better n (asked k i)) is

-- One round: `pri` may stand for an earlier mutex, which is no better than the priority so far.
round-better :
    (k : Kernel) (i n pri : ℕ)
    → n ≤ pri
    → let pri' = pri_after k i pri in
      let n' = if ltb pri' n then pri' else n in (n' ≡ better n (asked k i)) × (n' ≤ pri')
unfolding pri_after asked
round-better k i n pri h = ground (arith, List-cases (que_of k (mtx i)))

newpri_from-eq-best :
    (k : Kernel) (n pri : ℕ) (is : List ℕ) → n ≤ pri → newpri_from k n pri is ≡ best k n is
unfolding newpri_from
newpri_from-eq-best k n pri [] h = refl
newpri_from-eq-best k n pri (i ∷ is) h =
    let r = round-better k i n pri h in
    newpri_from-eq-best k (if ltb (pri_after k i pri) n then pri_after k i pri else n)
      (pri_after k i pri) is r.1
    ∙ ap (λ x. best k x is) r.0

-- `knl_release_mutex` gives the task the best of its base priority and of what the mutexes that it
-- keeps ask for (a ceiling, or with TA_INHERIT the priority of the first that waits), and changes
-- the priority only if it is another; the priority that its loop carries from one mutex to the
-- next makes no difference.
pub release_mutex-eq-best :
    (change : Kernel → ℕ → ℕ → Kernel) (k : Kernel) (t : ℕ) (rel : Option ℕ)
    → release_mutex change k t rel ≡ (
        let ms = kept rel (k.tcb t).mtxlist in
        let p = best k (k.tcb t).bpriority ms in
        if p == (k.tcb t).priority then set_mtxlist k t ms else change (set_mtxlist k t ms) t p)
unfolding release_mutex
release_mutex-eq-best change k t rel =
    let ms = kept rel (k.tcb t).mtxlist in
    ap
      (λ p. if p == (k.tcb t).priority then set_mtxlist k t ms else change (set_mtxlist k t ms) t p)
      (newpri_from-eq-best k (k.tcb t).bpriority (k.tcb t).bpriority ms (omega arith))

-- The worst of a priority and the ceilings of mutexes.
abbrev pub worst_ceiling : Kernel → ℕ → List ℕ → ℕ
worst_ceiling k n [] = n
worst_ceiling k n (i ∷ is) =
    let ceiling = (k.mtxcb i).ceilpri in
    worst_ceiling k (if kind_of k i == ta_ceiling && ltb n ceiling then ceiling else n) is

round-ceiling :
    (k : Kernel) (i low pri : ℕ)
    → (if kind_of k i == ta_ceiling && ltb low (pri_after k i pri) then pri_after k i pri else low)
      ≡ (if kind_of k i == ta_ceiling && ltb low (k.mtxcb i).ceilpri
          then (k.mtxcb i).ceilpri
          else low)
unfolding pri_after
round-ceiling k i low pri = elim (Bool-cases (kind_of k i == ta_ceiling)) [
  | inl e ↦ rw e refl
  | inr e ↦ rw e refl
]

limits_from-eq-best :
    (k : Kernel) (hi low pri : ℕ) (is : List ℕ)
    → hi ≤ pri
    → limits_from k hi low pri is ≡ (best k hi is, worst_ceiling k low is)
unfolding limits_from
limits_from-eq-best k hi low pri [] h = refl
limits_from-eq-best k hi low pri (i ∷ is) h =
    let r = round-better k i hi pri h in
    limits_from-eq-best k (if ltb (pri_after k i pri) hi then pri_after k i pri else hi)
      (if kind_of k i == ta_ceiling && ltb low (pri_after k i pri) then pri_after k i pri else low)
      (pri_after k i pri) is r.1
    ∙ ap₂ (λ x y. (best k x is, worst_ceiling k y is)) r.0 (round-ceiling k i low pri)

-- The ceiling of the mutex that a task waits for, if it waits for one that has a ceiling; else 0.
abbrev pub awaited_ceiling : Kernel → ℕ → ℕ
awaited_ceiling k t =
    let i = (k.tcb t).wid in
    if in_wait (k.tcb t).state && is_mtx (k.tcb t).wspec && kind_of k i == ta_ceiling
    then (k.mtxcb i).ceilpri
    else 0

-- `knl_chg_pri_mutex` refuses a priority that is better than the worst ceiling of the mutexes that
-- the task holds and of the one that it waits for (E_ILUSE), and otherwise gives the best of the
-- priority and of what the mutexes that it holds ask for.
pub chg_pri_mutex-eq-best :
    (k : Kernel) (t p : ℕ)
    → chg_pri_mutex k t p ≡ (
        let ms = (k.tcb t).mtxlist in
        if ltb p (worst_ceiling k (awaited_ceiling k t) ms) then none else some (best k p ms))
unfolding chg_pri_mutex
chg_pri_mutex-eq-best k t p =
    ap (λ (l : ℕ × ℕ). if ltb p l.1 then none else some l.0)
      (limits_from-eq-best k p (awaited_ceiling k t) p (k.tcb t).mtxlist (omega arith))
