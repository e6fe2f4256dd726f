-- ===== src/Memory.antt =====
-- kernel/tkernel/memory.c: the areas of a memory and its free areas. AreaQue is the list of the areas
-- in the order of their addresses, without the two ends that are marked as in use; an area's size is
-- what lies between it and the next one, or the end. FreeQue is the list of the different sizes of free
-- areas, each with the areas of that size, the one that is linked by size first. Addresses and sizes
-- are numbers.
pub mod Search
pub mod FreeQue
pub mod BestFit
pub mod Insertion
pub mod Areas
pub mod Division
pub mod Alloc
pub mod Merging
pub mod Pairs
pub mod Coalescing
pub mod Neighbours
pub mod Freeing
pub mod Runs
use esp32c3_mtk.Prelude.{
  zero, suc, ℕ, ◌+◌, ◌-◌, ◌*◌, ◌/◌, ◌%◌, ◌^◌, Bool, true, false, not, ◌&&◌, List, [], ◌∷◌, ◌++◌,
  Option, none, some, ltb, leb, ◌==◌, if◌then◌else◌, without,
}
use esp32c3_mtk.Types.{ℤ, pos, negsuc}
use esp32c3_mtk.Kernel.{is_positive, magnitude}

-- `sizeof(QUEUE)`, which is ROUNDSZ too, and `MIN_FRAGMENT`.
abbrev pub queue_size : ℕ
queue_size = 8

abbrev pub min_fragment : ℕ
min_fragment = 16

-- The header of an area, with its flag AREA_USE.
pub record Area : Type 0 where
  pub at : ℕ
  pub used : Bool

-- The free areas of one size.
pub record Bucket : Type 0 where
  pub size : ℕ
  pub areas : List ℕ

-- `IMACB`; `limit` is the address of the last header, which is in use.
pub record Imacb : Type 0 where
  pub memsz : ℕ
  pub areaque : List Area
  pub limit : ℕ
  pub freeque : List Bucket

-- `aq->next`
abbrev pub next_at : ℕ → List Area → ℕ
next_at limit [] = limit
next_at limit (x ∷ xs) = x.at

-- `AreaSize(aq)`
unfoldable pub area_size : ℕ → List Area → ℕ → ℕ
area_size limit [] aq = 0
area_size limit (x ∷ xs) aq =
    let further = area_size limit xs aq in
    if x.at == aq then next_at limit xs - (aq + queue_size) else further

-- The search of `knl_searchFreeArea` from smaller size.
unfoldable pub from_smaller : ℕ → List Bucket → Option Bucket
from_smaller blksz [] = none
from_smaller blksz (b ∷ bs) =
    let further = from_smaller blksz bs in if leb blksz b.size then some b else further

-- The search of `knl_searchFreeArea` from larger size, through the sizes from the largest on: `fsz`
-- is the size before, and `next` its entry.
unfoldable pub from_larger : ℕ → ℕ → Option Bucket → List Bucket → Option Bucket
from_larger blksz fsz next [] = if leb blksz fsz then next else none
from_larger blksz fsz next (b ∷ bs) =
    let further = from_larger blksz b.size (some b) bs in
    if leb b.size blksz then (if ltb b.size blksz then next else some b) else further

abbrev pub reversed : List Bucket → List Bucket → List Bucket
reversed [] acc = acc
reversed (b ∷ bs) acc = reversed bs (b ∷ acc)

-- `knl_searchFreeArea`; nothing stands for `&imacb->freeque`.
unfoldable pub search_free_area : ℕ → List Bucket → ℕ → Option Bucket
unfolding from_smaller from_larger
search_free_area memsz freeque blksz =
    if ltb (memsz / 4) blksz
    then from_larger blksz 0 none (reversed freeque [])
    else from_smaller blksz freeque

-- A new entry before that of the size `next`, or last.
abbrev pub insert_before : Option Bucket → Bucket → List Bucket → List Bucket
insert_before none new bs = bs ++ new ∷ []
insert_before (some next) new [] = new ∷ []
insert_before (some next) new (b ∷ bs) =
    let further = insert_before (some next) new bs in
    if b.size == next.size then new ∷ b ∷ bs else b ∷ further

-- A second area of a size goes behind the first.
abbrev pub behind_first : ℕ → List ℕ → List ℕ
behind_first aq [] = aq ∷ []
behind_first aq (a ∷ rest) = a ∷ aq ∷ rest

abbrev pub insert_same : ℕ → ℕ → List Bucket → List Bucket
insert_same size aq [] = []
insert_same size aq (b ∷ bs) =
    let further = insert_same size aq bs in
    if b.size == size then record b { areas = behind_first aq b.areas } ∷ bs else b ∷ further

-- The registration of `knl_appendFreeArea`, at the place that the search has found.
abbrev registered : Option Bucket → ℕ → ℕ → List Bucket → List Bucket
registered none size aq bs = insert_before none (record { size = size; areas = aq ∷ [] }) bs
registered (some b) size aq bs =
    if b.size == size
    then insert_same size aq bs
    else insert_before (some b) (record { size = size; areas = aq ∷ [] }) bs

-- `setAreaFlag(aq, AREA_USE)` and `clrAreaFlag(aq, AREA_USE)`
unfoldable pub set_flag : Bool → ℕ → List Area → List Area
set_flag used aq [] = []
set_flag used aq (x ∷ xs) =
    let further = set_flag used aq xs in
    if x.at == aq then record x { used = used } ∷ xs else x ∷ further

-- `knl_appendFreeArea`
unfoldable pub append_free_area : Imacb → ℕ → Imacb
unfolding area_size search_free_area set_flag
append_free_area m aq =
    let size = area_size m.limit m.areaque aq in
    let fq = search_free_area m.memsz m.freeque size in
    record m { areaque = set_flag false aq m.areaque; freeque = registered fq size aq m.freeque }

-- `knl_removeFreeQue` of the area `aq`: the next area of its size takes its place, if there is one.
abbrev pub kept_bucket : Bucket → List ℕ → List Bucket → List Bucket
kept_bucket b [] bs = bs
kept_bucket b (a ∷ rest) bs = record b { areas = a ∷ rest } ∷ bs

unfoldable pub remove_free_que : ℕ → List Bucket → List Bucket
remove_free_que aq [] = []
remove_free_que aq (b ∷ bs) = kept_bucket b (without aq b.areas) (remove_free_que aq bs)

-- `knl_insertAreaQue`: `ent` after `que`, with its flag reset.
unfoldable pub insert_area_que : ℕ → ℕ → List Area → List Area
insert_area_que que ent [] = []
insert_area_que que ent (x ∷ xs) =
    let further = insert_area_que que ent xs in
    if x.at == que then x ∷ record { at = ent; used = false } ∷ xs else x ∷ further

-- `knl_removeAreaQue`
unfoldable pub remove_area_que : ℕ → List Area → List Area
remove_area_que aq [] = []
remove_area_que aq (x ∷ xs) =
    let further = remove_area_que aq xs in if x.at == aq then xs else x ∷ further

-- `ROUND(sz)`
unfoldable pub round_size : ℕ → ℕ
round_size sz = (sz + (queue_size - 1)) % 2 ^ 32 / queue_size * queue_size

-- The size that `knl_Imalloc` looks for. Above 2147483640 the source has a negative number here.
abbrev pub wanted : ℕ → ℕ
wanted size = if ltb size min_fragment then min_fragment else round_size size

-- The taking of a free area by `knl_Imalloc`, and its division into two.
abbrev pub divided : Imacb → ℕ → ℕ → ℕ → Imacb
divided m aq fsz size =
    let aq2 = aq + queue_size + size in
    let m1 = record m { freeque = remove_free_que aq m.freeque } in
    let m2 =
      if leb (min_fragment + queue_size) (fsz - size)
      then append_free_area (record m1 { areaque = insert_area_que aq aq2 m.areaque }) aq2
      else m1 in
    record m2 { areaque = set_flag true aq m2.areaque }

abbrev pub taken_head : Imacb → ℕ → ℕ → List ℕ → Imacb × Option ℕ
taken_head m size fsz [] = (m, none)
taken_head m size fsz (aq ∷ rest) = (divided m aq fsz size, some (aq + queue_size))

abbrev pub taken_from : Imacb → ℕ → Option Bucket → Imacb × Option ℕ
taken_from m size none = (m, none)
taken_from m size (some b) = taken_head m size b.size b.areas

-- `knl_Imalloc`: the address, or nothing for NULL.
unfoldable pub imalloc : Imacb → ℤ → Imacb × Option ℕ
unfolding search_free_area remove_free_que insert_area_que append_free_area set_flag round_size
imalloc m size =
    let sz = wanted (magnitude size) in
    if not (is_positive size)
    then (m, none)
    else taken_from m sz (search_free_area m.memsz m.freeque sz)

-- `aq->next` and `aq->prev`, if they are areas of the list; both ends are in use.
abbrev pub first_of : List Area → Option Area
first_of [] = none
first_of (x ∷ xs) = some x

unfoldable pub after_area : ℕ → List Area → Option Area
after_area aq [] = none
after_area aq (x ∷ xs) =
    let further = after_area aq xs in if x.at == aq then first_of xs else further

unfoldable pub before_area : Option Area → ℕ → List Area → Option Area
before_area last aq [] = none
before_area last aq (x ∷ xs) =
    let further = before_area (some x) aq xs in if x.at == aq then last else further

-- The merging with the free area behind, and with the one in front.
abbrev merged_after : Imacb → Option Area → Imacb
merged_after m none = m
merged_after m (some x) = if x.used then m else (record m {
  freeque = remove_free_que x.at m.freeque;
  areaque = remove_area_que x.at m.areaque;
})

abbrev merged_before : Imacb → ℕ → Option Area → Imacb × ℕ
merged_before m aq none = (m, aq)
merged_before m aq (some x) = if x.used then (m, aq) else (
  record m { freeque = remove_free_que x.at m.freeque; areaque = remove_area_que aq m.areaque },
  x.at,
)

-- `knl_Ifree`
unfoldable pub ifree : Imacb → ℕ → Imacb
unfolding set_flag after_area before_area remove_free_que remove_area_que append_free_area
ifree m ptr =
    let aq = ptr - queue_size in
    let m1 = record m { areaque = set_flag false aq m.areaque } in
    let m2 = merged_after m1 (after_area aq m1.areaque) in
    let front = merged_before m2 aq (before_area none aq m2.areaque) in
    append_free_area front.0 front.1

-- `knl_init_Imalloc`, from `knl_lowmem_top` and `knl_lowmem_limit`; `sizeof(IMACB)` is 20. The first
-- area is registered as free when both ends are in use.
unfoldable pub init_imalloc : ℕ → ℕ → Imacb
unfolding append_free_area
init_imalloc lowmem_top lowmem_limit =
    let imacb = (lowmem_top + 3) / 4 * 4 in
    let top = (imacb + 20 + 7) / 8 * 8 in
    let memsz = lowmem_limit - top - queue_size * 2 in
    append_free_area
      (record {
        memsz = memsz;
        areaque = record { at = top; used = false } ∷ [];
        limit = top + memsz + queue_size;
        freeque = [];
      })
      top

-- `knl_Irealloc`, but for the copying of the bytes; nothing stands for a pointer that is NULL.
abbrev reallocated : Option ℕ → Imacb × Option ℕ → Imacb × Option ℕ
reallocated none r = r
reallocated (some ptr) r = (ifree r.0 ptr, r.1)

abbrev moved : Option ℕ → Imacb × Option ℕ → Imacb × Option ℕ
moved ptr (m, none) = (m, none)
moved ptr (m, some newptr) = reallocated ptr (m, some newptr)

unfoldable pub irealloc : Imacb → Option ℕ → ℤ → Imacb × Option ℕ
unfolding imalloc ifree
irealloc m ptr (pos zero) = reallocated ptr (m, none)
irealloc m ptr (pos (suc n)) = moved ptr (imalloc m (pos (suc n)))
irealloc m ptr (negsuc n) = moved ptr (imalloc m (negsuc n))
