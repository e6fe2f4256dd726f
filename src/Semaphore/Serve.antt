-- ===== src/Semaphore/Serve.antt =====
-- What a semaphore promises, apart from the kernel's state: which of the waiting tasks a count
-- serves, and what is left of both. With TA_CNT a task whose request is too large is passed over;
-- without it, it holds up all behind it.
use esp32c3_mtk.Prelude.{
  ℕ, ◌+◌, ◌-◌, ◌≤◌, ◌<◌, ◌≡◌, refl, Bool, true, false, List, [], ◌∷◌, ltb, if◌then◌else◌, contains,
  without, all_distinct, All, arith, without_absent, Bool-cases, inl, inr,
}

module _ (all : Bool) (req : ℕ → ℕ) where
  -- The tasks that are served, in their order.
  unfoldable pub serve : ℕ → List ℕ → List ℕ
  serve n [] = []
  serve n (t ∷ ts) =
      let passed = serve n ts in
      let served = serve (n - req t) ts in
      if ltb n (req t) then (if all then passed else []) else t ∷ served

  -- The tasks that go on waiting.
  unfoldable pub unserved : ℕ → List ℕ → List ℕ
  unserved n [] = []
  unserved n (t ∷ ts) =
      let passed = unserved n ts in
      let served = unserved (n - req t) ts in
      if ltb n (req t) then (if all then t ∷ passed else t ∷ ts) else served

-- No waiting task could be served: with TA_CNT none of them, otherwise not the first.
abbrev pub Starved : Bool → (ℕ → ℕ) → ℕ → List ℕ → Type 0
Starved true req n ts = All (λ u. n < req u) ts
Starved false req n [] = Unit
Starved false req n (t ∷ ts) = n < req t

abbrev pub total : (ℕ → ℕ) → List ℕ → ℕ
total req [] = 0
total req (t ∷ ts) = req t + total req ts

abbrev pub without_all : List ℕ → List ℕ → List ℕ
without_all [] xs = xs
without_all (t ∷ ts) xs = without_all ts (without t xs)

pub total-serve-le :
    (all : Bool) (req : ℕ → ℕ) (n : ℕ) (ts : List ℕ) → total req (serve all req n ts) ≤ n
unfolding serve
total-serve-le all req n [] = omega arith
total-serve-le all req n (t ∷ ts) =
    ground (arith, total-serve-le all req n ts, total-serve-le all req (n - req t) ts)

-- A count of zero serves nobody who asks for anything.
pub serve-zero :
    (all : Bool) (req : ℕ → ℕ) (ts : List ℕ) → All (λ t. 0 < req t) ts → serve all req 0 ts ≡ []
unfolding serve
serve-zero all req [] h = refl
serve-zero all req (t ∷ ts) h = ground (arith, serve-zero all req ts h.1)

pub contains-serve :
    (all : Bool) (req : ℕ → ℕ) (n : ℕ) (ts : List ℕ) (u : ℕ)
    → contains u ts ≡ false
    → contains u (serve all req n ts) ≡ false
unfolding serve
contains-serve all req n [] u h = refl
contains-serve all req n (t ∷ ts) u h =
    ground (arith, contains-serve all req n ts u, contains-serve all req (n - req t) ts u)

without_all-cons :
    (gs : List ℕ) (t : ℕ) (ts : List ℕ)
    → contains t gs ≡ false
    → without_all gs (t ∷ ts) ≡ t ∷ without_all gs ts
without_all-cons [] t ts h = refl
without_all-cons (g ∷ gs) t ts h = ground (arith, without_all-cons gs t (without g ts))

-- Who is not served goes on waiting, in the same order.
pub without_all-serve :
    (all : Bool) (req : ℕ → ℕ) (n : ℕ) (ts : List ℕ)
    → all_distinct ts ≡ true
    → without_all (serve all req n ts) ts ≡ unserved all req n ts
unfolding serve unserved
without_all-serve all req n [] d = refl
without_all-serve all req n (t ∷ ts) d = ground (
  arith,
  without_all-serve all req n ts,
  without_all-serve all req (n - req t) ts,
  without_all-cons (serve all req n ts) t ts,
  contains-serve all req n ts t,
  without_absent t ts,
)

All-unserved :
    (req : ℕ → ℕ) (n m : ℕ) (ts : List ℕ)
    → m + total req (serve true req n ts) ≡ n
    → All (λ u. m < req u) (unserved true req n ts)
unfolding serve unserved
All-unserved req n m [] h = tt
All-unserved req n m (t ∷ ts) h = elim (Bool-cases (ltb n (req t))) [
  | inl short ↦ rw short (ground arith, All-unserved req n m ts (ground arith))
  | inr enough ↦ rw enough (All-unserved req (n - req t) m ts (ground arith))
]

first-unserved :
    (req : ℕ → ℕ) (n m : ℕ) (ts : List ℕ)
    → m + total req (serve false req n ts) ≡ n
    → Starved false req m (unserved false req n ts)
unfolding serve unserved
first-unserved req n m [] h = tt
first-unserved req n m (t ∷ ts) h = elim (Bool-cases (ltb n (req t))) [
  | inl short ↦ rw short (ground arith)
  | inr enough ↦ rw enough (first-unserved req (n - req t) m ts (ground arith))
]

-- Afterwards the rest `m` of the count could serve none of them.
pub Starved-unserved :
    (all : Bool) (req : ℕ → ℕ) (n m : ℕ) (ts : List ℕ)
    → m + total req (serve all req n ts) ≡ n
    → Starved all req m (unserved all req n ts)
Starved-unserved true req n m ts h = All-unserved req n m ts h
Starved-unserved false req n m ts h = first-unserved req n m ts h

pub All-unserved_asks :
    (P : ℕ → Type 0) (all : Bool) (req : ℕ → ℕ) (n : ℕ) (ts : List ℕ)
    → All P ts
    → All P (unserved all req n ts)
unfolding unserved
All-unserved_asks P all req n [] h = tt
All-unserved_asks P all req n (t ∷ ts) h = elim (Bool-cases (ltb n (req t))) [
  | inl short ↦
      rw short (elim all as (λ b. All P (if b then t ∷ unserved all req n ts else t ∷ ts)) [
        | true ↦ (h.0, All-unserved_asks P all req n ts h.1)
        | false ↦ h
      ])
  | inr enough ↦ rw enough (All-unserved_asks P all req (n - req t) ts h.1)
]
