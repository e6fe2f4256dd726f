-- ===== src/Memory/Division.antt =====
-- The division of a free area by `knl_Imalloc` of kernel/tkernel/memory.c, on AreaQue.
use esp32c3_mtk.Prelude.{
  ℕ, ◌+◌, ◌-◌, ◌≤◌, ◌<◌, ◌≡◌, refl, true, false, List, [], ◌∷◌, none, some, ◌==◌, if◌then◌else◌,
  arith, Bool-cases, if_cases, inl, inr,
}
use esp32c3_mtk.Memory.{Area, next_at, area_size, set_flag, insert_area_que}
use esp32c3_mtk.Memory.Areas.{
  free_size, held_size, IsTiled, IsMerged, first_used, starts, starts-before, free_size_absent,
  held_size_absent, free_size-after,
}

-- The area at `aq` in use up to `e`, and a free one from there on.
unfoldable pub split_at : ℕ → ℕ → List Area → List Area
split_at aq e [] = []
split_at aq e (x ∷ xs) =
    let further = split_at aq e xs in
    if x.at == aq
    then record { at = x.at; used = true } ∷ record { at = e; used = false } ∷ xs
    else x ∷ further

-- What `knl_Imalloc` does to AreaQue when it divides an area.
pub split_at-eq :
    (limit : ℕ) (areas : List Area) (aq e s : ℕ)
    → IsTiled limit areas
    → free_size limit areas aq ≡ some s
    → aq < e
    → set_flag true aq (set_flag false e (insert_area_que aq e areas)) ≡ split_at aq e areas
unfolding set_flag insert_area_que split_at free_size IsTiled
split_at-eq limit [] aq e s t h lt = cc
split_at-eq limit (x ∷ xs) aq e s t h lt = elim (Bool-cases (x.at == aq)) [
  | inl same ↦ ground (arith, same, lt)
  | inr other ↦
      let found : free_size limit xs aq ≡ some s = ground (arith, other, h) in
      let below = free_size-after limit xs aq s t.1 found in
      let near : x.at < e = omega (arith, below, lt, t.0) in
      ground (arith, other, near, split_at-eq limit xs aq e s t.1 found lt)
]

-- The division of a free area leaves the rest as it is.
pub free_size-split :
    (limit : ℕ) (areas : List Area) (aq e s a : ℕ)
    → IsTiled limit areas
    → free_size limit areas aq ≡ some s
    → aq < e
    → e < aq + 8 + s
    → free_size limit (split_at aq e areas) a
      ≡ (if e == a then some (aq + s - e) else if aq == a then none else free_size limit areas a)
unfolding free_size split_at IsTiled
free_size-split limit [] aq e s a t h lt lt2 = cc
free_size-split limit (x ∷ xs) aq e s a t h lt lt2 = elim (Bool-cases (x.at == aq)) [
  | inl same ↦
      let size : s ≡ next_at limit xs - (aq + 8) = ground (arith, same, h) in
      let unused : x.used ≡ false = ground (arith, same, h) in
      ground (arith, same, size, unused, lt, lt2, t.0)
  | inr other ↦
      let found : free_size limit xs aq ≡ some s = ground (arith, other, h) in
      let below = free_size-after limit xs aq s t.1 found in
      let near : x.at < aq = omega (arith, below, t.0) in
      ground (arith, other, near, lt, free_size-split limit xs aq e s a t.1 found lt lt2)
]

pub held_size-split :
    (limit : ℕ) (areas : List Area) (aq e s a : ℕ)
    → IsTiled limit areas
    → free_size limit areas aq ≡ some s
    → aq < e
    → e < aq + 8 + s
    → held_size limit (split_at aq e areas) a
      ≡ (if aq == a then some (e - (aq + 8)) else if e == a then none else held_size limit areas a)
unfolding free_size held_size split_at IsTiled
held_size-split limit [] aq e s a t h lt lt2 = cc
held_size-split limit (x ∷ xs) aq e s a t h lt lt2 = elim (Bool-cases (x.at == aq)) [
  | inl same ↦
      let unused : x.used ≡ false = ground (arith, same, h) in ground (arith, same, unused, lt)
  | inr other ↦
      let found : free_size limit xs aq ≡ some s = ground (arith, other, h) in
      let below = free_size-after limit xs aq s t.1 found in
      let near : x.at < aq = omega (arith, below, t.0) in
      ground (arith, other, near, lt, held_size-split limit xs aq e s a t.1 found lt lt2)
]

pub next_at-split :
    (limit aq e : ℕ) (areas : List Area) → next_at limit (split_at aq e areas) ≡ next_at limit areas
unfolding split_at
next_at-split limit aq e [] = refl
next_at-split limit aq e (x ∷ xs) = ground arith

pub IsTiled-split :
    (limit : ℕ) (areas : List Area) (aq e s : ℕ)
    → IsTiled limit areas
    → free_size limit areas aq ≡ some s
    → aq + 24 ≤ e
    → e + 16 ≤ aq + s
    → IsTiled limit (split_at aq e areas)
unfolding free_size split_at IsTiled
IsTiled-split limit [] aq e s t h lt lt2 = tt
IsTiled-split limit (x ∷ xs) aq e s t h lt lt2 =
    let further = x ∷ split_at aq e xs in
    let divided : List Area =
      record { at = x.at; used = true } ∷ record { at = e; used = false } ∷ xs in
    if_cases (IsTiled limit) (x.at == aq) divided further
      (λ same.
        let size : s ≡ next_at limit xs - (aq + 8) = ground (arith, same, h) in
        (ground (arith, same, lt), (omega (arith, size, lt2, t.0), t.1)))
      (λ other.
        let found : free_size limit xs aq ≡ some s = ground (arith, other, h) in
        (rw (next_at-split limit aq e xs) t.0, IsTiled-split limit xs aq e s t.1 found lt lt2))

first_used-split :
    (aq e : ℕ) (areas : List Area)
    → first_used areas ≡ true
    → first_used (split_at aq e areas) ≡ true
unfolding split_at
first_used-split aq e [] h = refl
first_used-split aq e (x ∷ xs) h = ground (arith, h)

pub IsMerged-split :
    (limit aq e s : ℕ) (areas : List Area)
    → free_size limit areas aq ≡ some s
    → IsMerged areas
    → IsMerged (split_at aq e areas)
unfolding split_at free_size IsMerged
IsMerged-split limit aq e s [] h m = tt
IsMerged-split limit aq e s (x ∷ xs) h m =
    let further = x ∷ split_at aq e xs in
    let divided : List Area =
      record { at = x.at; used = true } ∷ record { at = e; used = false } ∷ xs in
    if_cases IsMerged (x.at == aq) divided further
      (λ same.
        let unused : x.used ≡ false = ground (arith, same, h) in
        ((λ u. cc), ((λ u. m.0 unused), m.1)))
      (λ other.
        let found : free_size limit xs aq ≡ some s = ground (arith, other, h) in
        ((λ u. first_used-split aq e xs (m.0 u)), IsMerged-split limit aq e s xs found m.1))

-- The size of the area behind the division.
pub area_size-insert_area_que :
    (limit : ℕ) (areas : List Area) (aq e s : ℕ)
    → IsTiled limit areas
    → free_size limit areas aq ≡ some s
    → aq < e
    → area_size limit (insert_area_que aq e areas) e ≡ aq + s - e
unfolding free_size area_size insert_area_que IsTiled
area_size-insert_area_que limit [] aq e s t h lt = cc
area_size-insert_area_que limit (x ∷ xs) aq e s t h lt = elim (Bool-cases (x.at == aq)) [
  | inl same ↦
      let size : s ≡ next_at limit xs - (aq + 8) = ground (arith, same, h) in
      ground (arith, same, size, lt, t.0)
  | inr other ↦
      let found : free_size limit xs aq ≡ some s = ground (arith, other, h) in
      let below = free_size-after limit xs aq s t.1 found in
      let near : x.at < aq = omega (arith, below, t.0) in
      ground (arith, other, near, lt, area_size-insert_area_que limit xs aq e s t.1 found lt)
]

starts_inside :
    (limit : ℕ) (areas : List Area) (aq e s : ℕ)
    → IsTiled limit areas
    → free_size limit areas aq ≡ some s
    → aq < e
    → e < aq + 8 + s
    → starts areas e ≡ false
unfolding free_size starts IsTiled
starts_inside limit [] aq e s t h lt lt2 = cc
starts_inside limit (x ∷ xs) aq e s t h lt lt2 = elim (Bool-cases (x.at == aq)) [
  | inl same ↦
      let size : s ≡ next_at limit xs - (aq + 8) = ground (arith, same, h) in
      let before : e < next_at limit xs = ground (arith, same, size, lt2, t.0) in
      ground (arith, same, lt, starts-before limit xs e t.1 before)
  | inr other ↦
      let found : free_size limit xs aq ≡ some s = ground (arith, other, h) in
      let below = free_size-after limit xs aq s t.1 found in
      let near : x.at < aq = omega (arith, below, t.0) in
      ground (arith, other, near, lt, starts_inside limit xs aq e s t.1 found lt lt2)
]

-- No area begins within a free one.
pub inside_free :
    (limit : ℕ) (areas : List Area) (aq e s : ℕ)
    → IsTiled limit areas
    → free_size limit areas aq ≡ some s
    → aq < e
    → e < aq + 8 + s
    → (free_size limit areas e ≡ none) × (held_size limit areas e ≡ none)
inside_free limit areas aq e s t h lt lt2 =
    let nowhere = starts_inside limit areas aq e s t h lt lt2 in
    (free_size_absent limit areas e nowhere, held_size_absent limit areas e nowhere)
