-- ===== src/Memory/Neighbours.antt =====
-- The neighbours that `knl_Ifree` of kernel/tkernel/memory.c looks at, and the clearing of AREA_USE.
use esp32c3_mtk.Prelude.{
  ℕ, ◌+◌, ◌-◌, ◌≤◌, ◌<◌, ◌≡◌, refl, Bool, true, false, ◌||◌, List, [], ◌∷◌, Option, none, some,
  ◌==◌, if◌then◌else◌, arith, ◌∙◌, sym, ap, Bool-cases, inl, inr, subst,
}
use esp32c3_mtk.Memory.{Area, area_size, next_at, set_flag, after_area, before_area}
use esp32c3_mtk.Memory.Areas.{free_size, held_size, IsTiled, IsMerged, first_used, next_at-set_flag}
use esp32c3_mtk.Memory.Merging.{adjacent, adjacent-after}
use esp32c3_mtk.Memory.Pairs.{merged_but, first_used_or}
use esp32c3_mtk.Memory.Coalescing.{after_free, before_free, before_free_below, first_begins_below}

-- No area, or one in use.
abbrev pub not_free : Option Area → Bool
not_free none = true
not_free (some x) = x.used

pub after_free-after_area :
    (q : ℕ) (areas : List Area) → not_free (after_area q areas) ≡ true → after_free q areas ≡ false
unfolding after_free after_area
after_free-after_area q [] h = refl
after_free-after_area q (x ∷ []) h = ground (arith, h)
after_free-after_area q (x ∷ y ∷ ys) h = ground (arith, h, after_free-after_area q (y ∷ ys))

pub adjacent-after_area :
    (limit q s : ℕ) (areas : List Area) (y : Area)
    → free_size limit areas q ≡ some s
    → after_area q areas ≡ some y
    → y.used ≡ false
    → adjacent q y.at areas ≡ true
unfolding free_size adjacent after_area
adjacent-after_area limit q s [] y f h u = cc
adjacent-after_area limit q s (X ∷ []) y f h u = ground (arith, f, h)
adjacent-after_area limit q s (X ∷ Y ∷ ys) y f h u = elim (Bool-cases (X.at == q)) [
  | inl same ↦
      let is : Y ≡ y = ground (arith, same, h) in
      subst (λ (z : Area). adjacent q z.at (X ∷ Y ∷ ys) ≡ true) is
        (ground (arith, same, f, u, ap (λ (z : Area). z.used) is))
  | inr other ↦
      let f' : free_size limit (Y ∷ ys) q ≡ some s = ground (arith, other, f) in
      let h' : after_area q (Y ∷ ys) ≡ some y = ground (arith, other, h) in
      ground (arith, other, adjacent-after_area limit q s (Y ∷ ys) y f' h' u)
]

before_free-before_area :
    (limit q : ℕ) (X : Area) (xs : List Area)
    → IsTiled limit (X ∷ xs)
    → not_free (before_area (some X) q xs) ≡ true
    → before_free q (X ∷ xs) ≡ false
unfolding before_free before_area IsTiled
before_free-before_area limit q X [] t h = ground arith
before_free-before_area limit q X (Y ∷ ys) t h = elim (Bool-cases (Y.at == q)) [
  | inl same ↦
      let lt : q < next_at limit ys = ground (arith, same, t.1.0) in
      ground
        (arith, same, h, first_begins_below limit q ys lt, before_free_below limit q ys t.1.1 lt)
  | inr other ↦
      let h' : not_free (before_area (some Y) q ys) ≡ true = ground (arith, other, h) in
      ground (arith, other, before_free-before_area limit q Y ys t.1 h')
]

adjacent-before_area :
    (limit q s : ℕ) (X : Area) (xs : List Area) (w : Area)
    → IsTiled limit (X ∷ xs)
    → free_size limit xs q ≡ some s
    → before_area (some X) q xs ≡ some w
    → w.used ≡ false
    → adjacent w.at q (X ∷ xs) ≡ true
unfolding free_size adjacent before_area IsTiled
adjacent-before_area limit q s X [] w t f h u = cc
adjacent-before_area limit q s X (Y ∷ ys) w t f h u = elim (Bool-cases (Y.at == q)) [
  | inl same ↦
      let is : X ≡ w = ground (arith, same, h) in
      let unused : X.used ≡ false = ap (λ (z : Area). z.used) is ∙ u in
      let free : Y.used ≡ false = ground (arith, same, f) in
      subst (λ (z : Area). adjacent z.at q (X ∷ Y ∷ ys) ≡ true) is
        (ground (arith, same, unused, free))
  | inr other ↦
      let f' : free_size limit ys q ≡ some s = ground (arith, other, f) in
      let h' : before_area (some Y) q ys ≡ some w = ground (arith, other, h) in
      let further = adjacent-before_area limit q s Y ys w t.1 f' h' u in
      let below = adjacent-after limit w.at q (Y ∷ ys) t.1 further in
      ground (arith, further, below, t.0)
]

pub before_free-first :
    (limit q : ℕ) (areas : List Area)
    → IsTiled limit areas
    → not_free (before_area none q areas) ≡ true
    → before_free q areas ≡ false
unfolding before_free before_area IsTiled
before_free-first limit q [] t h = refl
before_free-first limit q (x ∷ xs) t h = elim (Bool-cases (x.at == q)) [
  | inl same ↦
      let lt : q < next_at limit xs = ground (arith, same, t.0) in
      ground (arith, first_begins_below limit q xs lt, before_free_below limit q xs t.1 lt)
  | inr other ↦ before_free-before_area limit q x xs t (ground (arith, other, h))
]

pub adjacent-first :
    (limit q s : ℕ) (areas : List Area) (w : Area)
    → IsTiled limit areas
    → free_size limit areas q ≡ some s
    → before_area none q areas ≡ some w
    → w.used ≡ false
    → adjacent w.at q areas ≡ true
unfolding free_size before_area
adjacent-first limit q s [] w t f h u = cc
adjacent-first limit q s (x ∷ xs) w t f h u = elim (Bool-cases (x.at == q)) [
  | inl same ↦ let no : none ≡ some w = ground (arith, same, h) in cc
  | inr other ↦
      adjacent-before_area limit q s x xs w t (ground (arith, other, f)) (ground (arith, other, h))
        u
]

-- An area in use that is cleared.
pub free_size-cleared :
    (limit q s : ℕ) (areas : List Area) (a : ℕ)
    → held_size limit areas q ≡ some s
    → free_size limit (set_flag false q areas) a
      ≡ (if q == a then some s else free_size limit areas a)
unfolding free_size held_size set_flag
free_size-cleared limit q s [] a h = cc
free_size-cleared limit q s (x ∷ xs) a h = elim (Bool-cases (x.at == q)) [
  | inl same ↦ ground (arith, same, h)
  | inr other ↦
      let found : held_size limit xs q ≡ some s = ground (arith, other, h) in
      ground
        (arith, other, free_size-cleared limit q s xs a found, next_at-set_flag limit q false xs)
]

pub held_size-cleared :
    (limit q : ℕ) (areas : List Area) (a : ℕ)
    → held_size limit (set_flag false q areas) a
      ≡ (if q == a then none else held_size limit areas a)
unfolding held_size set_flag
held_size-cleared limit q [] a = ground arith
held_size-cleared limit q (x ∷ xs) a =
    ground (arith, held_size-cleared limit q xs a, next_at-set_flag limit q false xs)

pub free_size-held :
    (limit q s : ℕ) (areas : List Area)
    → held_size limit areas q ≡ some s
    → free_size limit areas q ≡ none
unfolding free_size held_size
free_size-held limit q s [] h = refl
free_size-held limit q s (x ∷ xs) h = ground (arith, h, free_size-held limit q s xs)

pub area_size-free :
    (limit q s : ℕ) (areas : List Area)
    → IsTiled limit areas
    → free_size limit areas q ≡ some s
    → (area_size limit areas q ≡ s) × (16 ≤ s)
unfolding free_size area_size IsTiled
area_size-free limit q s [] t h = cc
area_size-free limit q s (x ∷ xs) t h = elim (Bool-cases (x.at == q)) [
  | inl same ↦
      let size : s ≡ next_at limit xs - (q + 8) = ground (arith, same, h) in
      (ground (arith, same, size), ground (arith, same, size, t.0))
  | inr other ↦
      let found : free_size limit xs q ≡ some s = ground (arith, other, h) in
      let r = area_size-free limit q s xs t.1 found in (ground (arith, other, r.0), r.1)
]

-- A free area has no flag to clear.
pub set_flag_clear :
    (limit q s : ℕ) (areas : List Area)
    → free_size limit areas q ≡ some s
    → set_flag false q areas ≡ areas
unfolding free_size set_flag
set_flag_clear limit q s [] h = refl
set_flag_clear limit q s (x ∷ xs) h = elim (Bool-cases (x.at == q)) [
  | inl same ↦
      let unused : x.used ≡ false = ground (arith, same, h) in
      let clears : set_flag false q (x ∷ xs) ≡ record x { used = false } ∷ xs =
        ground (arith, same) in
      clears ∙ ap (λ u. record x { used = u } ∷ xs) (sym unused)
  | inr other ↦
      let found : free_size limit xs q ≡ some s = ground (arith, other, h) in
      ground (arith, other, set_flag_clear limit q s xs found)
]

merged_but-IsMerged : (q : ℕ) (areas : List Area) → IsMerged areas → merged_but q areas ≡ true
unfolding merged_but IsMerged
merged_but-IsMerged q [] m = refl
merged_but-IsMerged q (x ∷ []) m = ground arith
merged_but-IsMerged q (x ∷ y ∷ ys) m =
    let front = m.0 in ground (arith, front, merged_but-IsMerged q (y ∷ ys) m.1)

front_cleared :
    (q : ℕ) (x : Area) (xs : List Area)
    → (x.used ≡ false → first_used xs ≡ true)
    → (x.used || (x.at == q || first_used_or q (set_flag false q xs))) ≡ true
unfolding set_flag
front_cleared q x [] m = ground arith
front_cleared q x (y ∷ ys) m = ground (arith, m)

pub merged_but-cleared :
    (q : ℕ) (areas : List Area) → IsMerged areas → merged_but q (set_flag false q areas) ≡ true
unfolding merged_but set_flag IsMerged
merged_but-cleared q [] m = refl
merged_but-cleared q (x ∷ xs) m = elim (Bool-cases (x.at == q)) [
  | inl same ↦ ground (arith, same, merged_but-IsMerged q xs m.1)
  | inr other ↦
      let front = front_cleared q x xs m.0 in
      ground (arith, other, front, merged_but-cleared q xs m.1)
]
