-- ===== src/Memory/Search.antt =====
-- `knl_searchFreeArea` of kernel/tkernel/memory.c finds the best fit from either end.
use esp32c3_mtk.Prelude.{
  ℕ, ◌<◌, ◌≡◌, refl, List, [], ◌∷◌, Option, none, some, leb, if◌then◌else◌, arith, ◌∙◌, Bool-cases,
  inl, inr,
}
use esp32c3_mtk.Memory.{Bucket, from_smaller, from_larger, reversed, search_free_area}

-- The sizes stand from small to large, all above `n`.
unfoldable pub IsAscending : ℕ → List Bucket → Type 0
IsAscending n [] = Unit {0}
IsAscending n (b ∷ bs) = (n < b.size) × IsAscending b.size bs

abbrev or_else : Option Bucket → Option Bucket → Option Bucket
or_else next none = next
or_else next (some b) = some b

or_else-none : (o : Option Bucket) → or_else none o ≡ o
or_else-none none = refl
or_else-none (some b) = refl

-- The search from larger size through sizes that ascend from that of `b`, before those of `acc`.
from_larger-reversed :
    (blksz fsz : ℕ) (next : Option Bucket) (b : Bucket) (bs acc : List Bucket)
    → IsAscending b.size bs
    → from_larger blksz fsz next (reversed (b ∷ bs) acc) ≡ (
        if leb b.size blksz
        then or_else next (from_smaller blksz (b ∷ bs))
        else from_larger blksz b.size (some b) acc)
unfolding from_larger from_smaller IsAscending
from_larger-reversed blksz fsz next b [] acc h = ground arith
from_larger-reversed blksz fsz next b (c ∷ bs) acc h =
    ground (arith, from_larger-reversed blksz fsz next c bs (b ∷ acc) h.1, h.0)

larger-eq-smaller :
    (blksz : ℕ) (bs : List Bucket)
    → IsAscending 0 bs
    → from_larger blksz 0 none (reversed bs []) ≡ from_smaller blksz bs
unfolding from_larger from_smaller IsAscending
larger-eq-smaller blksz [] h = ground arith
larger-eq-smaller blksz (b ∷ bs) h =
    let r = from_larger-reversed blksz 0 none b bs [] h.1 in
    let none_first = or_else-none (from_smaller blksz (b ∷ bs)) in
    elim (Bool-cases (leb b.size blksz)) [
      | inl le ↦ r ∙ rw le none_first
      | inr gt ↦ r ∙ ground (arith, gt)
    ]

-- When the sizes in FreeQue ascend, `knl_searchFreeArea` finds the same entry from either end: the
-- first whose size is at least the one asked for, if there is one, whatever a quarter of the
-- memory is.
pub search_free_area-eq-from_smaller :
    (memsz blksz : ℕ) (bs : List Bucket)
    → IsAscending 0 bs
    → search_free_area memsz bs blksz ≡ from_smaller blksz bs
unfolding search_free_area
search_free_area-eq-from_smaller memsz blksz bs h = ground (arith, larger-eq-smaller blksz bs h)
