-- ===== src/Memory/Pairs.antt =====
-- Neighbouring free areas in AreaQue of kernel/tkernel/memory.c, but for one area.
use esp32c3_mtk.Prelude.{
  ℕ, ◌<◌, ◌≡◌, refl, Bool, true, false, ◌&&◌, ◌||◌, List, [], ◌∷◌, ◌==◌, arith, sym, Bool-cases,
  inl, inr, subst,
}
use esp32c3_mtk.Memory.{Area, next_at, remove_area_que}
use esp32c3_mtk.Memory.Areas.{IsTiled}
use esp32c3_mtk.Memory.Merging.{
  adjacent, adjacent-after, adjacent-lt, adjacent_further, adjacent_here,
}

abbrev pub first_used_or : ℕ → List Area → Bool
first_used_or q [] = true
first_used_or q (x ∷ xs) = x.used || x.at == q

-- Of two free neighbours one is `q`.
unfoldable pub merged_but : ℕ → List Area → Bool
merged_but q [] = true
merged_but q (x ∷ xs) = (x.used || (x.at == q || first_used_or q xs)) && merged_but q xs

merged_but_below :
    (limit q p : ℕ) (xs : List Area)
    → IsTiled limit xs
    → q < next_at limit xs
    → p < next_at limit xs
    → merged_but q xs ≡ merged_but p xs
unfolding merged_but IsTiled
merged_but_below limit q p [] t a b = refl
merged_but_below limit q p (x ∷ []) t a b = ground (arith, a, b)
merged_but_below limit q p (x ∷ y ∷ ys) t a b = ground (
  arith,
  a,
  b,
  t.0,
  merged_but_below limit q p (y ∷ ys) t.1 (omega (arith, a, t.0)) (omega (arith, b, t.0)),
)

one_of-above : (p q x y : ℕ) → (q == x || q == y) ≡ true → p < x → x < y → (p == q) ≡ false
one_of-above p q x y i a b = ground (arith, i, a, b)

one_of-below : (n q x y : ℕ) → (q == x || q == y) ≡ true → x < n → y < n → q < n
one_of-below n q x y i a b = ground (arith, i, a, b)

first_used_or-merge :
    (q x y : ℕ) (Y : Area) (ys : List Area)
    → (q == x || q == y) ≡ true
    → (Y.at == y) ≡ false
    → first_used_or q (Y ∷ ys) ≡ true
    → first_used_or x (remove_area_que y (Y ∷ ys)) ≡ true
unfolding remove_area_que
first_used_or-merge q x y Y ys i d h = ground (arith, i, d, h)

and_parts : (a b : Bool) → (a && b) ≡ true → (a ≡ true) × (b ≡ true)
and_parts true b h = (refl, h)
and_parts false b h = cc

or_drop : (a b c : Bool) → b ≡ false → (a || (b || c)) ≡ true → (a || c) ≡ true
or_drop true b c e h = refl
or_drop false true c e h = cc
or_drop false false c e h = h

pub merged_but_parts :
    (q : ℕ) (X : Area) (xs : List Area)
    → merged_but q (X ∷ xs) ≡ true
    → ((X.used || (X.at == q || first_used_or q xs)) ≡ true) × (merged_but q xs ≡ true)
unfolding merged_but
merged_but_parts q X xs m =
    and_parts (X.used || (X.at == q || first_used_or q xs)) (merged_but q xs) m

or_map : (a : Bool) {b c : Bool} → (b ≡ true → c ≡ true) → (a || b) ≡ true → (a || c) ≡ true
or_map true f h = refl
or_map false f h = f h

pub merged_but-merge :
    (limit q x y : ℕ) (areas : List Area)
    → IsTiled limit areas
    → adjacent x y areas ≡ true
    → (q == x || q == y) ≡ true
    → merged_but q areas ≡ true
    → merged_but x (remove_area_que y areas) ≡ true
unfolding adjacent remove_area_que merged_but IsTiled
merged_but-merge limit q x y [] t h i m = cc
merged_but-merge limit q x y (X ∷ []) t h i m = ground (arith, h)
merged_but-merge limit q x y (X ∷ Y ∷ ys) t h i m = elim (Bool-cases (X.at == x)) [
  | inl same ↦
      let here = adjacent_here limit x y X Y ys t h same in
      let lt : x < next_at limit ys = ground (arith, same, t.0, t.1.0) in
      let lt2 = one_of-below (next_at limit ys) q x y i lt (omega (arith, here.1.0, t.1.0)) in
      let rest = (merged_but_parts q Y ys (merged_but_parts q X (Y ∷ ys) m).1).1 in
      subst (λ zs. merged_but x zs ≡ true) (sym here.1.1)
        (ground (arith, same, merged_but_below limit q x ys t.1.1 lt2 lt, rest))
  | inr other ↦
      let further = adjacent_further limit x y X (Y ∷ ys) t h other in
      let below = adjacent-after limit x y (Y ∷ ys) t.1 further.0 in
      let lt = adjacent-lt limit x y (Y ∷ ys) t.1 further.0 in
      let parts = merged_but_parts q X (Y ∷ ys) m in
      let far = one_of-above X.at q x y i (omega (arith, below, t.0)) lt in
      let front = or_drop X.used (X.at == q) (first_used_or q (Y ∷ ys)) far parts.0 in
      let kept : remove_area_que y (X ∷ Y ∷ ys) ≡ X ∷ remove_area_que y (Y ∷ ys) =
        ground (arith, further.1) in
      let differs : (Y.at == y) ≡ false = ground (arith, below, lt) in
      let first = or_map X.used (first_used_or-merge q x y Y ys i differs) front in
      subst (λ zs. merged_but x zs ≡ true) (sym kept)
        (ground (arith, first, merged_but-merge limit q x y (Y ∷ ys) t.1 further.0 i parts.1))
]
