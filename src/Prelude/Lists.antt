-- ===== src/Prelude/Lists.antt =====
-- Lists of task numbers: membership as a Boolean test, and removal.
use Prim.Native.Nat.{ℕ, suc, ◌+◌}
use mathlib.Core.Path.{◌≡◌, refl}
use mathlib.Core.Logic.{◌≢◌, ◌⊎◌, inl, inr}
use mathlib.Core.Bool.{Bool, true, false, ◌&&◌, ◌||◌, not}
use mathlib.Core.List.{List, [], ◌∷◌, ◌++◌}
use native.Mathlib.Omega.{arith}
use esp32c3_mtk.Prelude.Tests.{◌==◌, if◌then◌else◌}

abbrev pub is_empty {ℓ} : {A : Type ℓ} → List A → Bool
is_empty [] = true
is_empty (x ∷ xs) = false

module _ {ℓ} {A : Type ℓ} where
  abbrev pub length : List A → ℕ
  length [] = 0
  length (x ∷ xs) = suc (length xs)

  pub length-append : (xs ys : List A) → length (xs ++ ys) ≡ length xs + length ys
  length-append [] ys = omega arith
  length-append (x ∷ xs) ys = omega (arith, length-append xs ys)

  pub is_empty-snoc : (xs : List A) (x : A) → is_empty (xs ++ x ∷ []) ≡ false
  is_empty-snoc [] x = refl
  is_empty-snoc (y ∷ xs) x = refl

  pub is_empty→nil : (xs : List A) → is_empty xs ≡ true → xs ≡ []
  is_empty→nil [] h = refl
  is_empty→nil (x ∷ xs) h = cc

  pub List-cases : (xs : List A) → (xs ≡ []) ⊎ ((x : A) × (ys : List A) × (xs ≡ x ∷ ys))
  List-cases [] = inl refl
  List-cases (x ∷ xs) = inr (x, xs, refl)

abbrev pub contains : ℕ → List ℕ → Bool
contains t [] = false
contains t (x ∷ xs) = x == t || contains t xs

-- `t` is taken out.
abbrev pub without : ℕ → List ℕ → List ℕ
without t [] = []
without t (x ∷ xs) = let rest = without t xs in if x == t then rest else x ∷ rest

abbrev pub all_distinct : List ℕ → Bool
all_distinct [] = true
all_distinct (x ∷ xs) = not (contains x xs) && all_distinct xs

abbrev pub All : (ℕ → Type 0) → List ℕ → Type 0
All P [] = Unit
All P (t ∷ ts) = P t × All P ts

pub All-append : (P : ℕ → Type 0) (xs ys : List ℕ) → All P xs → All P ys → All P (xs ++ ys)
All-append P [] ys h g = g
All-append P (x ∷ xs) ys h g = (h.0, All-append P xs ys h.1 g)

pub without_absent : (t : ℕ) (xs : List ℕ) → contains t xs ≡ false → without t xs ≡ xs
without_absent t [] h = refl
without_absent t (x ∷ xs) h = ground (arith, without_absent t xs)

pub contains-without_self : (t : ℕ) (xs : List ℕ) → contains t (without t xs) ≡ false
contains-without_self t [] = refl
contains-without_self t (x ∷ xs) = ground (arith, contains-without_self t xs)

pub contains-without_ne :
    (u t : ℕ) (xs : List ℕ) → u ≢ t → contains u (without t xs) ≡ contains u xs
contains-without_ne u t [] h = refl
contains-without_ne u t (x ∷ xs) h = ground (arith, contains-without_ne u t xs h)

pub contains-append :
    (t : ℕ) (xs ys : List ℕ) → contains t (xs ++ ys) ≡ (contains t xs || contains t ys)
contains-append t [] ys = refl
contains-append t (x ∷ xs) ys = ground (arith, contains-append t xs ys)

pub without_head : (x : ℕ) (xs : List ℕ) → all_distinct (x ∷ xs) ≡ true → without x (x ∷ xs) ≡ xs
without_head x xs h = ground (arith, without_absent x xs)

pub all_distinct-without :
    (t : ℕ) (xs : List ℕ) → all_distinct xs ≡ true → all_distinct (without t xs) ≡ true
all_distinct-without t [] h = refl
all_distinct-without t (x ∷ xs) h =
    ground (arith, all_distinct-without t xs, contains-without_ne x t xs)

pub all_distinct-snoc :
    (t : ℕ) (xs : List ℕ)
    → all_distinct xs ≡ true
    → contains t xs ≡ false
    → all_distinct (xs ++ t ∷ []) ≡ true
all_distinct-snoc t [] h n = refl
all_distinct-snoc t (x ∷ xs) h n =
    ground (arith, all_distinct-snoc t xs, contains-append x xs (t ∷ []))

pub All-mono : (P Q : ℕ → Type 0) (ts : List ℕ) → ((u : ℕ) → P u → Q u) → All P ts → All Q ts
All-mono P Q [] f h = tt
All-mono P Q (t ∷ ts) f h = (f t h.0, All-mono P Q ts f h.1)

-- Of a list that `t` is not in, what holds of it may change at `t`.
pub All-other :
    (P Q : ℕ → Type 0) (t : ℕ) (ts : List ℕ)
    → contains t ts ≡ false
    → ((u : ℕ) → t ≢ u → P u → Q u)
    → All P ts
    → All Q ts
All-other P Q t [] c f h = tt
All-other P Q t (q ∷ qs) c f h = (f q (ground arith) h.0, All-other P Q t qs (ground arith) f h.1)
