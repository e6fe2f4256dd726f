-- ===== src/Memory/BestFit.antt =====
-- The search in FreeQue of kernel/tkernel/memory.c, seen as a map from free areas to their sizes.
use esp32c3_mtk.Prelude.{
  ℕ, ◌≤◌, ◌<◌, ◌≡◌, ◌≢◌, true, List, [], ◌∷◌, none, some, leb, arith, ◌∙◌, ap, Bool-cases, inl, inr,
  subst, contains,
}
use esp32c3_mtk.Memory.{Bucket, from_smaller}
use esp32c3_mtk.Memory.Search.{IsAscending}
use esp32c3_mtk.Memory.FreeQue.{listed, NoneEmpty, IsOnce}

pub from_smaller-size :
    (size n : ℕ) (bs : List Bucket) (c : Bucket)
    → IsAscending n bs
    → from_smaller size bs ≡ some c
    → (size ≤ c.size) × (n < c.size)
unfolding from_smaller IsAscending
from_smaller-size size n [] c h e = cc
from_smaller-size size n (b ∷ bs) c h e = elim (Bool-cases (leb size b.size)) [
  | inl le ↦
      let same : b ≡ c = ground (arith, e, le) in
      subst (λ d. (size ≤ d.size) × (n < d.size)) same (ground (arith, le), h.0)
  | inr gt ↦
      let r = from_smaller-size size b.size bs c h.1 (ground (arith, e, gt)) in
      (r.0, omega (arith, h.0, r.1))
]

-- What the search finds, and that it is the least that fits.
pub from_smaller-none :
    (size : ℕ) (bs : List Bucket) (a t : ℕ)
    → from_smaller size bs ≡ none
    → listed bs a ≡ some t
    → t < size
unfolding from_smaller listed
from_smaller-none size [] a t h e = cc
from_smaller-none size (b ∷ bs) a t h e = ground (arith, h, e, from_smaller-none size bs a t)

pub listed-above :
    (n : ℕ) (bs : List Bucket) (a t : ℕ) → IsAscending n bs → listed bs a ≡ some t → n < t
unfolding listed IsAscending
listed-above n [] a t h e = cc
listed-above n (b ∷ bs) a t h e =
    let above = listed-above b.size bs a t h.1 in ground (arith, e, above, h.0)

pub from_smaller-least :
    (size n : ℕ) (bs : List Bucket) (c : Bucket) (a t : ℕ)
    → IsAscending n bs
    → from_smaller size bs ≡ some c
    → listed bs a ≡ some t
    → size ≤ t
    → c.size ≤ t
unfolding from_smaller listed IsAscending
from_smaller-least size n [] c a t h f e le = cc
from_smaller-least size n (b ∷ bs) c a t h f e le = elim (Bool-cases (leb size b.size)) [
  | inl fits ↦
      let same : b ≡ c = ground (arith, f, fits) in
      let above = listed-above b.size bs a t h.1 in
      subst (λ d. d.size ≤ t) same (ground (arith, e, above))
  | inr small ↦
      let e2 : listed bs a ≡ some t = ground (arith, e, small, le) in
      from_smaller-least size b.size bs c a t h.1 (ground (arith, f, small)) e2 le
]

pub from_smaller-listed :
    (size aq : ℕ) (bs : List Bucket) (c : Bucket)
    → IsOnce bs
    → from_smaller size bs ≡ some c
    → contains aq c.areas ≡ true
    → listed bs aq ≡ some c.size
unfolding from_smaller listed IsOnce
from_smaller-listed size aq [] c o f e = cc
from_smaller-listed size aq (b ∷ bs) c o f e = elim (Bool-cases (leb size b.size)) [
  | inl fits ↦
      let same : b ≡ c = ground (arith, f, fits) in
      let within : contains aq b.areas ≡ true = ap (λ d. contains aq d.areas) same ∙ e in
      subst (λ d. listed (b ∷ bs) aq ≡ some d.size) same (ground (arith, within))
  | inr small ↦
      let found : from_smaller size bs ≡ some c = ground (arith, f, small) in
      let r = from_smaller-listed size aq bs c o.1 found e in
      let apart = o.0 aq in ground (arith, r, apart)
]

pub from_smaller-full :
    (size : ℕ) (bs : List Bucket) (c : Bucket)
    → NoneEmpty bs
    → from_smaller size bs ≡ some c
    → c.areas ≢ []
unfolding from_smaller NoneEmpty
from_smaller-full size [] c n f e = cc
from_smaller-full size (b ∷ bs) c n f e = elim (Bool-cases (leb size b.size)) [
  | inl fits ↦ let same : b ≡ c = ground (arith, f, fits) in n.0 (ap (λ d. d.areas) same ∙ e)
  | inr small ↦ from_smaller-full size bs c n.1 (ground (arith, f, small)) e
]
