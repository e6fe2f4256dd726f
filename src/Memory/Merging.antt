-- ===== src/Memory/Merging.antt =====
-- The merging of free areas by `knl_Ifree` of kernel/tkernel/memory.c, on AreaQue.
use esp32c3_mtk.Prelude.{
  ℕ, ◌≤◌, ◌<◌, ◌≡◌, ◌≢◌, refl, Bool, true, false, not, ◌&&◌, List, [], ◌∷◌, none, some, ◌==◌,
  if◌then◌else◌, arith, ◌∙◌, sym, ap, Bool-cases, if_cases, inl, inr, subst,
}
use esp32c3_mtk.Memory.{Area, area_size, next_at, remove_area_que}
use esp32c3_mtk.Memory.Areas.{
  starts-before, free_size_absent, held_size_absent, free_size, held_size, IsTiled,
}

abbrev pub first_free_at : ℕ → List Area → Bool
first_free_at y [] = false
first_free_at y (Y ∷ ys) = Y.at == y && not Y.used

-- Free areas at `x` and `y` that are neighbours.
unfoldable pub adjacent : ℕ → ℕ → List Area → Bool
adjacent x y [] = false
adjacent x y (X ∷ xs) =
    let further = adjacent x y xs in if X.at == x then not X.used && first_free_at y xs else further

pub adjacent-after :
    (limit x y : ℕ) (areas : List Area)
    → IsTiled limit areas
    → adjacent x y areas ≡ true
    → next_at limit areas ≤ x
unfolding adjacent IsTiled
adjacent-after limit x y [] t h = cc
adjacent-after limit x y (X ∷ xs) t h = elim (Bool-cases (X.at == x)) [
  | inl same ↦ ground (arith, same)
  | inr other ↦
      let below = adjacent-after limit x y xs t.1 (ground (arith, h, other)) in
      omega (arith, below, t.0)
]

pub adjacent-lt :
    (limit x y : ℕ) (areas : List Area) → IsTiled limit areas → adjacent x y areas ≡ true → x < y
unfolding adjacent IsTiled
adjacent-lt limit x y [] t h = cc
adjacent-lt limit x y (X ∷ []) t h = ground (arith, h)
adjacent-lt limit x y (X ∷ Y ∷ ys) t h = elim (Bool-cases (X.at == x)) [
  | inl same ↦ ground (arith, same, h, t.0)
  | inr other ↦ adjacent-lt limit x y (Y ∷ ys) t.1 (ground (arith, h, other))
]

-- The two are not the first of a list whose front is not `x`.
pub adjacent_further :
    (limit x y : ℕ) (X : Area) (xs : List Area)
    → IsTiled limit (X ∷ xs)
    → adjacent x y (X ∷ xs) ≡ true
    → (X.at == x) ≡ false
    → (adjacent x y xs ≡ true) × ((X.at == y) ≡ false)
unfolding adjacent IsTiled
adjacent_further limit x y X xs t h other =
    let r : adjacent x y xs ≡ true = ground (arith, h, other) in
    let lt = adjacent-lt limit x y xs t.1 r in
    let below = adjacent-after limit x y xs t.1 r in (r, ground (arith, lt, below, t.0))

pub next_at-merge :
    (limit x y : ℕ) (areas : List Area)
    → IsTiled limit areas
    → adjacent x y areas ≡ true
    → next_at limit (remove_area_que y areas) ≡ next_at limit areas
unfolding remove_area_que
next_at-merge limit x y [] t h = refl
next_at-merge limit x y (X ∷ xs) t h =
    let lt = adjacent-lt limit x y (X ∷ xs) t h in
    let below = adjacent-after limit x y (X ∷ xs) t h in ground (arith, lt, below)

here_if : {b : Bool} (c t : Bool) → t ≡ true → (if t then b else c) ≡ true → b ≡ true
here_if c true e h = h
here_if c false e h = cc

removes :
    (y : ℕ) (X Y : Area) (ys : List Area)
    → (Y.at == y) ≡ true
    → (X.at == y) ≡ false
    → remove_area_que y (X ∷ Y ∷ ys) ≡ X ∷ ys
unfolding remove_area_que
removes y X Y ys place differs = ground (arith, place, differs)

-- Where the two stand first.
pub adjacent_here :
    (limit x y : ℕ) (X Y : Area) (ys : List Area)
    → IsTiled limit (X ∷ Y ∷ ys)
    → adjacent x y (X ∷ Y ∷ ys) ≡ true
    → (X.at == x) ≡ true
    → ((X.used ≡ false) × (Y.used ≡ false))
      × ((Y.at ≡ y) × (remove_area_que y (X ∷ Y ∷ ys) ≡ X ∷ ys))
unfolding adjacent remove_area_que IsTiled
adjacent_here limit x y X Y ys t h same =
    let facts : (not X.used && (Y.at == y && not Y.used)) ≡ true =
      here_if (adjacent x y (Y ∷ ys)) (X.at == x) same h in
    let place : (Y.at == y) ≡ true = ground (arith, facts) in
    let differs : (X.at == y) ≡ false = ground (arith, place, t.0) in
    (
      (ground (arith, facts), ground (arith, facts)),
      (ground (arith, place), removes y X Y ys place differs),
    )

free_size_cons :
    (limit y : ℕ) (X : Area) (xs : List Area) (a : ℕ)
    → (X.at == y) ≡ false
    → free_size limit (remove_area_que y (X ∷ xs)) a ≡ free_size limit (X ∷ remove_area_que y xs) a
unfolding remove_area_que
free_size_cons limit y X xs a other = ground (arith, other)

-- The area at `y` is gone, and that at `x` reaches to what came behind it.
pub free_size-merge :
    (limit x y : ℕ) (areas : List Area) (a : ℕ)
    → IsTiled limit areas
    → adjacent x y areas ≡ true
    → x ≢ a
    → free_size limit (remove_area_que y areas) a
      ≡ (if y == a then none else free_size limit areas a)
unfolding free_size adjacent remove_area_que IsTiled
free_size-merge limit x y [] a t h ne = cc
free_size-merge limit x y (X ∷ []) a t h ne = ground (arith, h)
free_size-merge limit x y (X ∷ Y ∷ ys) a t h ne = elim (Bool-cases (X.at == x)) [
  | inl same ↦
      let here = adjacent_here limit x y X Y ys t h same in
      let before : y < next_at limit ys = omega (arith, here.1.0, t.1.0) in
      let gone = free_size_absent limit ys y (starts-before limit ys y t.1.1 before) in
      ap (λ zs. free_size limit zs a) here.1.1 ∙ ground (arith, same, ne, here.1.0, here.0.1, gone)
  | inr other ↦
      let further = adjacent_further limit x y X (Y ∷ ys) t h other in
      let rest = free_size-merge limit x y (Y ∷ ys) a t.1 further.0 ne in
      let next = next_at-merge limit x y (Y ∷ ys) t.1 further.0 in
      free_size_cons limit y X (Y ∷ ys) a further.1 ∙ ground (arith, rest, next, further.1)
]

pub free_size-merged :
    (limit x y : ℕ) (areas : List Area)
    → IsTiled limit areas
    → adjacent x y areas ≡ true
    → free_size limit (remove_area_que y areas) x
      ≡ some (area_size limit (remove_area_que y areas) x)
unfolding free_size area_size adjacent remove_area_que IsTiled
free_size-merged limit x y [] t h = cc
free_size-merged limit x y (X ∷ []) t h = ground (arith, h)
free_size-merged limit x y (X ∷ Y ∷ ys) t h = elim (Bool-cases (X.at == x)) [
  | inl same ↦
      let here = adjacent_here limit x y X Y ys t h same in
      subst (λ zs. free_size limit zs x ≡ some (area_size limit zs x)) (sym here.1.1)
        (ground (arith, same, here.0.0))
  | inr other ↦
      let further = adjacent_further limit x y X (Y ∷ ys) t h other in
      let rest = free_size-merged limit x y (Y ∷ ys) t.1 further.0 in
      let kept : remove_area_que y (X ∷ Y ∷ ys) ≡ X ∷ remove_area_que y (Y ∷ ys) =
        ground (arith, further.1) in
      subst (λ zs. free_size limit zs x ≡ some (area_size limit zs x)) (sym kept)
        (ground (arith, other, rest))
]

pub held_size-merge :
    (limit x y : ℕ) (areas : List Area) (a : ℕ)
    → IsTiled limit areas
    → adjacent x y areas ≡ true
    → held_size limit (remove_area_que y areas) a ≡ held_size limit areas a
unfolding held_size adjacent remove_area_que IsTiled
held_size-merge limit x y [] a t h = cc
held_size-merge limit x y (X ∷ []) a t h = ground (arith, h)
held_size-merge limit x y (X ∷ Y ∷ ys) a t h = elim (Bool-cases (X.at == x)) [
  | inl same ↦
      let here = adjacent_here limit x y X Y ys t h same in
      let before : y < next_at limit ys = omega (arith, here.1.0, t.1.0) in
      let gone = held_size_absent limit ys y (starts-before limit ys y t.1.1 before) in
      ap (λ zs. held_size limit zs a) here.1.1
      ∙ ground (arith, same, here.0.0, here.1.0, here.0.1, gone)
  | inr other ↦
      let further = adjacent_further limit x y X (Y ∷ ys) t h other in
      let rest = held_size-merge limit x y (Y ∷ ys) a t.1 further.0 in
      let next = next_at-merge limit x y (Y ∷ ys) t.1 further.0 in
      let kept : remove_area_que y (X ∷ Y ∷ ys) ≡ X ∷ remove_area_que y (Y ∷ ys) =
        ground (arith, further.1) in
      ap (λ zs. held_size limit zs a) kept ∙ ground (arith, rest, next)
]

pub IsTiled-merge :
    (limit x y : ℕ) (areas : List Area)
    → IsTiled limit areas
    → adjacent x y areas ≡ true
    → IsTiled limit (remove_area_que y areas)
unfolding adjacent remove_area_que IsTiled
IsTiled-merge limit x y [] t h = tt
IsTiled-merge limit x y (X ∷ []) t h =
    if_cases (IsTiled limit) (X.at == y) [] (X ∷ []) (λ e. tt) (λ e. t)
IsTiled-merge limit x y (X ∷ Y ∷ ys) t h = elim (Bool-cases (X.at == x)) [
  | inl same ↦
      let here = adjacent_here limit x y X Y ys t h same in
      subst (IsTiled limit) (sym here.1.1) (omega (arith, t.0, t.1.0), t.1.1)
  | inr other ↦
      let further = adjacent_further limit x y X (Y ∷ ys) t h other in
      let next = next_at-merge limit x y (Y ∷ ys) t.1 further.0 in
      let kept : remove_area_que y (X ∷ Y ∷ ys) ≡ X ∷ remove_area_que y (Y ∷ ys) =
        ground (arith, further.1) in
      subst (IsTiled limit) (sym kept)
        (omega (arith, t.0, next), IsTiled-merge limit x y (Y ∷ ys) t.1 further.0)
]
