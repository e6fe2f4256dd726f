-- ===== src/Memory/Areas.antt =====
-- AreaQue of kernel/tkernel/memory.c as a map from areas to their sizes.
use esp32c3_mtk.Prelude.{
  ℕ, ◌+◌, ◌-◌, ◌≤◌, ◌<◌, ◌≡◌, refl, Bool, true, false, ◌||◌, List, [], ◌∷◌, Option, none, some,
  ◌==◌, if◌then◌else◌, arith, Bool-cases, if_cases, inl, inr,
}
use esp32c3_mtk.Memory.{Area, next_at, set_flag}

-- The size of the area at `a`, if it is free.
unfoldable pub free_size : ℕ → List Area → ℕ → Option ℕ
free_size limit [] a = none
free_size limit (x ∷ xs) a =
    let further = free_size limit xs a in
    if x.at == a then (if x.used then none else some (next_at limit xs - (a + 8))) else further

-- The size of the area at `a`, if it is in use.
unfoldable pub held_size : ℕ → List Area → ℕ → Option ℕ
held_size limit [] a = none
held_size limit (x ∷ xs) a =
    let further = held_size limit xs a in
    if x.at == a then (if x.used then some (next_at limit xs - (a + 8)) else none) else further

-- Each area has its header and the least size before the next one.
unfoldable pub IsTiled : ℕ → List Area → Type 0
IsTiled limit [] = Unit {0}
IsTiled limit (x ∷ xs) = (x.at + 24 ≤ next_at limit xs) × IsTiled limit xs

-- Behind a free area comes one that is in use.
abbrev pub first_used : List Area → Bool
first_used [] = true
first_used (x ∷ xs) = x.used

unfoldable pub IsMerged : List Area → Type 0
IsMerged [] = Unit {0}
IsMerged (x ∷ xs) = (x.used ≡ false → first_used xs ≡ true) × IsMerged xs

-- A free area is at the first address of the list or behind it.
pub free_size-after :
    (limit : ℕ) (xs : List Area) (a s : ℕ)
    → IsTiled limit xs
    → free_size limit xs a ≡ some s
    → next_at limit xs ≤ a
unfolding free_size IsTiled
free_size-after limit [] a s t e = cc
free_size-after limit (x ∷ xs) a s t e = elim (Bool-cases (x.at == a)) [
  | inl same ↦ ground (arith, same)
  | inr other ↦
      let below = free_size-after limit xs a s t.1 (ground (arith, e, other)) in
      omega (arith, below, t.0)
]

-- Whether an area begins at `a`.
unfoldable pub starts : List Area → ℕ → Bool
starts [] a = false
starts (x ∷ xs) a = x.at == a || starts xs a

pub starts-before :
    (limit : ℕ) (xs : List Area) (a : ℕ)
    → IsTiled limit xs
    → a < next_at limit xs
    → starts xs a ≡ false
unfolding starts IsTiled
starts-before limit [] a t lt = refl
starts-before limit (x ∷ xs) a t lt =
    let before : a < next_at limit xs = omega (arith, lt, t.0) in
    ground (arith, lt, starts-before limit xs a t.1 before)

pub free_size_absent :
    (limit : ℕ) (xs : List Area) (a : ℕ) → starts xs a ≡ false → free_size limit xs a ≡ none
unfolding starts free_size
free_size_absent limit [] a h = refl
free_size_absent limit (x ∷ xs) a h = ground (arith, h, free_size_absent limit xs a)

pub held_size_absent :
    (limit : ℕ) (xs : List Area) (a : ℕ) → starts xs a ≡ false → held_size limit xs a ≡ none
unfolding starts held_size
held_size_absent limit [] a h = refl
held_size_absent limit (x ∷ xs) a h = ground (arith, h, held_size_absent limit xs a)

pub next_at-set_flag :
    (limit aq : ℕ) (v : Bool) (areas : List Area)
    → next_at limit (set_flag v aq areas) ≡ next_at limit areas
unfolding set_flag
next_at-set_flag limit aq v [] = refl
next_at-set_flag limit aq v (x ∷ xs) = ground arith

-- A free area as a whole in use.
pub free_size-set_flag :
    (limit aq : ℕ) (areas : List Area) (a : ℕ)
    → free_size limit (set_flag true aq areas) a
      ≡ (if aq == a then none else free_size limit areas a)
unfolding free_size set_flag
free_size-set_flag limit aq [] a = ground arith
free_size-set_flag limit aq (x ∷ xs) a =
    ground (arith, free_size-set_flag limit aq xs a, next_at-set_flag limit aq true xs)

pub held_size-set_flag :
    (limit aq s : ℕ) (areas : List Area) (a : ℕ)
    → free_size limit areas aq ≡ some s
    → held_size limit (set_flag true aq areas) a
      ≡ (if aq == a then some s else held_size limit areas a)
unfolding free_size held_size set_flag
held_size-set_flag limit aq s [] a h = cc
held_size-set_flag limit aq s (x ∷ xs) a h = elim (Bool-cases (x.at == aq)) [
  | inl same ↦ ground (arith, same, h)
  | inr other ↦
      let found : free_size limit xs aq ≡ some s = ground (arith, other, h) in
      ground
        (arith, other, held_size-set_flag limit aq s xs a found, next_at-set_flag limit aq true xs)
]

pub IsTiled-set_flag :
    (limit aq : ℕ) (v : Bool) (areas : List Area)
    → IsTiled limit areas
    → IsTiled limit (set_flag v aq areas)
unfolding set_flag IsTiled
IsTiled-set_flag limit aq v [] t = tt
IsTiled-set_flag limit aq v (x ∷ xs) t =
    if_cases (IsTiled limit) (x.at == aq) (record x { used = v } ∷ xs) (x ∷ set_flag v aq xs)
      (λ same. t)
      (λ other. (rw (next_at-set_flag limit aq v xs) t.0, IsTiled-set_flag limit aq v xs t.1))

first_used-set_flag :
    (aq : ℕ) (areas : List Area)
    → first_used areas ≡ true
    → first_used (set_flag true aq areas) ≡ true
unfolding set_flag
first_used-set_flag aq [] h = refl
first_used-set_flag aq (x ∷ xs) h = ground (arith, h)

pub IsMerged-set_flag :
    (aq : ℕ) (areas : List Area) → IsMerged areas → IsMerged (set_flag true aq areas)
unfolding set_flag IsMerged
IsMerged-set_flag aq [] m = tt
IsMerged-set_flag aq (x ∷ xs) m =
    if_cases IsMerged (x.at == aq) (record x { used = true } ∷ xs) (x ∷ set_flag true aq xs)
      (λ same. ((λ u. cc), m.1))
      (λ other. ((λ u. first_used-set_flag aq xs (m.0 u)), IsMerged-set_flag aq xs m.1))
