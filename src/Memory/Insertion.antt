-- ===== src/Memory/Insertion.antt =====
-- The registration of `knl_appendFreeArea` in kernel/tkernel/memory.c as an insertion by size.
use esp32c3_mtk.Prelude.{
  ℕ, ◌<◌, ◌≡◌, ◌≢◌, refl, true, false, List, [], ◌∷◌, Option, none, some, ltb, leb, ◌==◌,
  if◌then◌else◌, arith, ◌∙◌, sym, ap, Bool-cases, if_cases, inl, inr, subst, contains,
}
use esp32c3_mtk.Memory.{Bucket, from_smaller, registered, behind_first}
use esp32c3_mtk.Memory.Search.{IsAscending}
use esp32c3_mtk.Memory.FreeQue.{listed, NoneEmpty, IsOnce}
use esp32c3_mtk.Memory.BestFit.{from_smaller-size}

-- The insertion by size, in one recursion.
unfoldable pub inserted : ℕ → ℕ → List Bucket → List Bucket
inserted size aq [] = record { size = size; areas = aq ∷ [] } ∷ []
inserted size aq (b ∷ bs) =
    let further = inserted size aq bs in
    if ltb size b.size
    then record { size = size; areas = aq ∷ [] } ∷ b ∷ bs
    else if b.size == size
    then record b { areas = behind_first aq b.areas } ∷ bs
    else b ∷ further

-- A place behind the first bucket.
registered-further :
    (o : Option Bucket) (size aq : ℕ) (b : Bucket) (bs : List Bucket)
    → ((c : Bucket) → o ≡ some c → b.size < c.size)
    → b.size < size
    → registered o size aq (b ∷ bs) ≡ b ∷ registered o size aq bs
registered-further none size aq b bs above lt = refl
registered-further (some c) size aq b bs above lt =
    let below = above c refl in ground (arith, below, lt)

-- The place that the search finds is that of the insertion.
pub registered-inserted :
    (size aq n : ℕ) (bs : List Bucket)
    → IsAscending n bs
    → registered (from_smaller size bs) size aq bs ≡ inserted size aq bs
unfolding from_smaller inserted IsAscending
registered-inserted size aq n [] h = refl
registered-inserted size aq n (b ∷ bs) h = elim (Bool-cases (leb size b.size)) [
  | inl le ↦
      let found : from_smaller size (b ∷ bs) ≡ some b = ground (arith, le) in
      ap (λ o. registered o size aq (b ∷ bs)) found ∙ ground (arith, le)
  | inr gt ↦
      let found : from_smaller size (b ∷ bs) ≡ from_smaller size bs = ground (arith, gt) in
      let above : (c : Bucket) → from_smaller size bs ≡ some c → b.size < c.size =
        λ c e. (from_smaller-size size b.size bs c h.1 e).1 in
      let lt : b.size < size = ground (arith, gt) in
      ap (λ o. registered o size aq (b ∷ bs)) found
      ∙ registered-further (from_smaller size bs) size aq b bs above lt
      ∙ ap (λ r. b ∷ r) (registered-inserted size aq b.size bs h.1)
      ∙ ground (arith, lt)
]

contains-behind_first :
    (aq a : ℕ) (xs : List ℕ)
    → contains a (behind_first aq xs) ≡ (if aq == a then true else contains a xs)
contains-behind_first aq a [] = ground arith
contains-behind_first aq a (x ∷ xs) = ground arith

pub listed-inserted :
    (size aq : ℕ) (bs : List Bucket) (a : ℕ)
    → listed bs aq ≡ none
    → listed (inserted size aq bs) a ≡ (if aq == a then some size else listed bs a)
unfolding listed inserted
listed-inserted size aq [] a h = ground arith
listed-inserted size aq (b ∷ bs) a h =
    let r = listed-inserted size aq bs a in ground (arith, r, h, contains-behind_first aq a b.areas)

pub IsAscending-inserted :
    (size aq n : ℕ) (bs : List Bucket)
    → n < size
    → IsAscending n bs
    → IsAscending n (inserted size aq bs)
unfolding IsAscending inserted
IsAscending-inserted size aq n [] lt h = (lt, tt)
IsAscending-inserted size aq n (b ∷ bs) lt h =
    let new : List Bucket = record { size = size; areas = aq ∷ [] } ∷ b ∷ bs in
    let same : List Bucket = record b { areas = behind_first aq b.areas } ∷ bs in
    let further = b ∷ inserted size aq bs in
    if_cases (IsAscending n) (ltb size b.size) new (if b.size == size then same else further)
      (λ less. (lt, (ground (arith, less), h.1)))
      (λ more.
        if_cases (IsAscending n) (b.size == size) same further (λ e. h)
          (λ e. (h.0, IsAscending-inserted size aq b.size bs (ground (arith, more, e)) h.1)))

behind_first-full : (aq : ℕ) (xs : List ℕ) → behind_first aq xs ≢ []
behind_first-full aq [] e = cc
behind_first-full aq (x ∷ xs) e = cc

pub NoneEmpty-inserted :
    (size aq : ℕ) (bs : List Bucket) → NoneEmpty bs → NoneEmpty (inserted size aq bs)
unfolding NoneEmpty inserted
NoneEmpty-inserted size aq [] h = ((λ e. cc), tt)
NoneEmpty-inserted size aq (b ∷ bs) h =
    let new : List Bucket = record { size = size; areas = aq ∷ [] } ∷ b ∷ bs in
    let same : List Bucket = record b { areas = behind_first aq b.areas } ∷ bs in
    let further = b ∷ inserted size aq bs in
    if_cases NoneEmpty (ltb size b.size) new (if b.size == size then same else further)
      (λ less. ((λ e. cc), h))
      (λ more.
        if_cases NoneEmpty (b.size == size) same further (λ e. (behind_first-full aq b.areas, h.1))
          (λ e. (h.0, NoneEmpty-inserted size aq bs h.1)))

pub IsOnce-inserted :
    (size aq : ℕ) (bs : List Bucket)
    → listed bs aq ≡ none
    → IsOnce bs
    → IsOnce (inserted size aq bs)
unfolding IsOnce inserted listed
IsOnce-inserted size aq [] h o = ((λ a e. refl), tt)
IsOnce-inserted size aq (b ∷ bs) h o =
    let new : List Bucket = record { size = size; areas = aq ∷ [] } ∷ b ∷ bs in
    let same : List Bucket = record b { areas = behind_first aq b.areas } ∷ bs in
    let further = b ∷ inserted size aq bs in
    let absent : contains aq b.areas ≡ false = ground (arith, h) in
    let absent' : listed bs aq ≡ none = ground (arith, h) in
    if_cases IsOnce (ltb size b.size) new (if b.size == size then same else further)
      (λ less. (
        (λ a e.
            let at : a ≡ aq = ground (arith, e) in
            subst (λ (x : ℕ). listed (b ∷ bs) x ≡ none) (sym at) h),
        o,
      ))
      (λ more.
        if_cases IsOnce (b.size == size) same further
          (λ eq. (
            (λ a e.
                let outside = o.0 a in
                ground (arith, contains-behind_first aq a b.areas, e, absent', outside)),
            o.1,
          ))
          (λ other. (
            (λ a e.
                let outside = o.0 a e in
                ground (arith, listed-inserted size aq bs a absent', outside, e, absent)),
            IsOnce-inserted size aq bs absent' o.1,
          )))
