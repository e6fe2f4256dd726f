-- ===== src/Memory/Coalescing.antt =====
-- No two free areas are neighbours once `knl_Ifree` of kernel/tkernel/memory.c has merged.
use esp32c3_mtk.Prelude.{
  ℕ, ◌<◌, ◌≡◌, refl, Bool, true, false, not, ◌&&◌, ◌||◌, List, [], ◌∷◌, ◌==◌, if◌then◌else◌, arith,
  sym, Bool-cases, inl, inr, subst,
}
use esp32c3_mtk.Memory.{Area, next_at, remove_area_que}
use esp32c3_mtk.Memory.Areas.{IsTiled, IsMerged, first_used}
use esp32c3_mtk.Memory.Merging.{
  adjacent, adjacent-after, adjacent-lt, adjacent_further, adjacent_here,
}
use esp32c3_mtk.Memory.Pairs.{merged_but, merged_but_parts, first_used_or}

abbrev pub first_free : List Area → Bool
first_free [] = false
first_free (x ∷ xs) = not x.used

abbrev pub first_begins : ℕ → List Area → Bool
first_begins q [] = false
first_begins q (x ∷ xs) = x.at == q

-- Whether the area behind `q` is free, and the one in front of it.
unfoldable pub after_free : ℕ → List Area → Bool
after_free q [] = false
after_free q (x ∷ xs) =
    let further = after_free q xs in if x.at == q then first_free xs else further

unfoldable pub before_free : ℕ → List Area → Bool
before_free q [] = false
before_free q (x ∷ xs) = (not x.used && first_begins q xs) || before_free q xs

after_free_below :
    (limit q : ℕ) (xs : List Area)
    → IsTiled limit xs
    → q < next_at limit xs
    → after_free q xs ≡ false
unfolding after_free IsTiled
after_free_below limit q [] t lt = refl
after_free_below limit q (x ∷ xs) t lt =
    ground (arith, lt, after_free_below limit q xs t.1 (omega (arith, lt, t.0)))

settled :
    (q : ℕ) (x : Area) (xs : List Area)
    → (x.used || (x.at == q || first_used_or q xs)) ≡ true
    → after_free q (x ∷ xs) ≡ false
    → before_free q (x ∷ xs) ≡ false
    → x.used ≡ false
    → first_used xs ≡ true
unfolding after_free before_free
settled q x [] m a b u = refl
settled q x (y ∷ ys) m a b u = ground (arith, m, a, b, u)

after_free_further :
    (limit q : ℕ) (x : Area) (xs : List Area)
    → IsTiled limit (x ∷ xs)
    → after_free q (x ∷ xs) ≡ false
    → after_free q xs ≡ false
unfolding after_free IsTiled
after_free_further limit q x xs t a =
    let below = after_free_below limit q xs t.1 in ground (arith, a, below, t.0)

pub IsMerged-merged_but :
    (limit q : ℕ) (areas : List Area)
    → IsTiled limit areas
    → merged_but q areas ≡ true
    → after_free q areas ≡ false
    → before_free q areas ≡ false
    → IsMerged areas
unfolding before_free IsMerged IsTiled
IsMerged-merged_but limit q [] t m a b = tt
IsMerged-merged_but limit q (x ∷ xs) t m a b =
    let parts = merged_but_parts q x xs m in
    (
      settled q x xs parts.0 a b,
      IsMerged-merged_but limit q xs t.1 parts.1 (after_free_further limit q x xs t a)
          (ground (arith, b)),
    )

first_not_free :
    (limit x : ℕ) (ys : List Area)
    → x < next_at limit ys
    → first_used_or x ys ≡ true
    → first_free ys ≡ false
first_not_free limit x [] lt h = refl
first_not_free limit x (z ∷ zs) lt h = ground (arith, lt, h)

after_used :
    (x : ℕ) (Y : Area) (ys : List Area)
    → Y.used ≡ false
    → (Y.at == x) ≡ false
    → (Y.used || (Y.at == x || first_used_or x ys)) ≡ true
    → first_used_or x ys ≡ true
after_used x Y ys u d h = ground (arith, u, d, h)

pub first_begins_below :
    (limit x : ℕ) (ys : List Area) → x < next_at limit ys → first_begins x ys ≡ false
first_begins_below limit x [] lt = refl
first_begins_below limit x (z ∷ zs) lt = ground (arith, lt)

pub before_free_below :
    (limit x : ℕ) (ys : List Area)
    → IsTiled limit ys
    → x < next_at limit ys
    → before_free x ys ≡ false
unfolding before_free IsTiled
before_free_below limit x [] t lt = refl
before_free_below limit x (z ∷ zs) t lt =
    let lt2 : x < next_at limit zs = omega (arith, lt, t.0) in
    ground (arith, first_begins_below limit x zs lt2, before_free_below limit x zs t.1 lt2)

-- The area in front of the first of the two is in use.
front_used :
    (x y : ℕ) (X Y : Area) (ys : List Area)
    → adjacent x y (Y ∷ ys) ≡ true
    → (X.at == y) ≡ false
    → (Y.at == y) ≡ false
    → (X.used || (X.at == y || first_used_or y (Y ∷ ys))) ≡ true
    → (not X.used && Y.at == x) ≡ false
unfolding adjacent
front_used x y X Y ys h d d2 m = ground (arith, h, d, d2, m)

front_then :
    (x y : ℕ) (X Y : Area) (ys : List Area)
    → (Y.at == y) ≡ false
    → (not X.used && Y.at == x) ≡ false
    → before_free x (remove_area_que y (Y ∷ ys)) ≡ false
    → before_free x (X ∷ remove_area_que y (Y ∷ ys)) ≡ false
unfolding before_free remove_area_que
front_then x y X Y ys d h r = ground (arith, d, h, r)

pub after_free-merged :
    (limit x y : ℕ) (areas : List Area)
    → IsTiled limit areas
    → adjacent x y areas ≡ true
    → merged_but x areas ≡ true
    → after_free x (remove_area_que y areas) ≡ false
unfolding after_free merged_but adjacent remove_area_que IsTiled
after_free-merged limit x y [] t h m = cc
after_free-merged limit x y (X ∷ []) t h m = ground (arith, h)
after_free-merged limit x y (X ∷ Y ∷ ys) t h m = elim (Bool-cases (X.at == x)) [
  | inl same ↦
      let here = adjacent_here limit x y X Y ys t h same in
      let parts = merged_but_parts x Y ys (merged_but_parts x X (Y ∷ ys) m).1 in
      let apart : (Y.at == x) ≡ false = ground (arith, same, t.0) in
      subst (λ zs. after_free x zs ≡ false) (sym here.1.1)
        (ground (
          arith,
          same,
          first_not_free limit x ys (ground (arith, same, t.0, t.1.0))
              (after_used x Y ys here.0.1 apart parts.0),
        ))
  | inr other ↦
      let further = adjacent_further limit x y X (Y ∷ ys) t h other in
      let kept : remove_area_que y (X ∷ Y ∷ ys) ≡ X ∷ remove_area_que y (Y ∷ ys) =
        ground (arith, further.1) in
      let rest =
        after_free-merged limit x y (Y ∷ ys) t.1 further.0 (merged_but_parts x X (Y ∷ ys) m).1 in
      subst (λ zs. after_free x zs ≡ false) (sym kept) (ground (arith, other, rest))
]

pub after_free-merge :
    (limit x y : ℕ) (areas : List Area)
    → IsTiled limit areas
    → adjacent x y areas ≡ true
    → after_free y areas ≡ false
    → after_free x (remove_area_que y areas) ≡ false
unfolding after_free adjacent remove_area_que IsTiled
after_free-merge limit x y [] t h m = cc
after_free-merge limit x y (X ∷ []) t h m = ground (arith, h)
after_free-merge limit x y (X ∷ Y ∷ ys) t h m = elim (Bool-cases (X.at == x)) [
  | inl same ↦
      let here = adjacent_here limit x y X Y ys t h same in
      let differs : (X.at == y) ≡ false = ground (arith, t.0, here.1.0) in
      let last : first_free ys ≡ false = ground (arith, m, differs, here.1.0) in
      subst (λ zs. after_free x zs ≡ false) (sym here.1.1) (ground (arith, same, last))
  | inr other ↦
      let further = adjacent_further limit x y X (Y ∷ ys) t h other in
      let kept : remove_area_que y (X ∷ Y ∷ ys) ≡ X ∷ remove_area_que y (Y ∷ ys) =
        ground (arith, further.1) in
      let m' : after_free y (Y ∷ ys) ≡ false = ground (arith, m, further.1) in
      let rest = after_free-merge limit x y (Y ∷ ys) t.1 further.0 m' in
      subst (λ zs. after_free x zs ≡ false) (sym kept) (ground (arith, other, rest))
]

pub before_free-merge :
    (limit x y : ℕ) (areas : List Area)
    → IsTiled limit areas
    → adjacent x y areas ≡ true
    → merged_but y areas ≡ true
    → before_free x (remove_area_que y areas) ≡ false
unfolding before_free merged_but adjacent remove_area_que IsTiled
before_free-merge limit x y [] t h m = cc
before_free-merge limit x y (X ∷ []) t h m = ground (arith, h)
before_free-merge limit x y (X ∷ Y ∷ ys) t h m = elim (Bool-cases (X.at == x)) [
  | inl same ↦
      let here = adjacent_here limit x y X Y ys t h same in
      let lt : x < next_at limit ys = ground (arith, same, t.0, t.1.0) in
      subst (λ zs. before_free x zs ≡ false) (sym here.1.1)
        (ground (arith, before_free_below limit x ys t.1.1 lt, first_begins_below limit x ys lt))
  | inr other ↦
      let further = adjacent_further limit x y X (Y ∷ ys) t h other in
      let kept : remove_area_que y (X ∷ Y ∷ ys) ≡ X ∷ remove_area_que y (Y ∷ ys) =
        ground (arith, further.1) in
      let parts = merged_but_parts y X (Y ∷ ys) m in
      let rest = before_free-merge limit x y (Y ∷ ys) t.1 further.0 parts.1 in
      let lt = adjacent-lt limit x y (Y ∷ ys) t.1 further.0 in
      let below = adjacent-after limit x y (Y ∷ ys) t.1 further.0 in
      let differs : (Y.at == y) ≡ false = ground (arith, lt, below) in
      let front = front_used x y X Y ys further.0 further.1 differs parts.0 in
      subst (λ zs. before_free x zs ≡ false) (sym kept) (front_then x y X Y ys differs front rest)
]
