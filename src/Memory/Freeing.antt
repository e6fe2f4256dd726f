-- ===== src/Memory/Freeing.antt =====
-- `knl_Ifree` of kernel/tkernel/memory.c on a memory whose queues agree.
use esp32c3_mtk.Prelude.{
  ℕ, ◌-◌, ◌≡◌, ◌≢◌, refl, true, false, ◌&&◌, ◌||◌, Option, none, some, ◌==◌, if◌then◌else◌, arith,
  ◌∙◌, sym, ap, ap₂, Bool-cases, if_cases, inl, inr, subst,
}
use esp32c3_mtk.Memory.{
  Area, Imacb, area_size, next_at, set_flag, remove_area_que, remove_free_que, after_area,
  before_area, merged_after, merged_before, append_free_area, ifree,
}
use esp32c3_mtk.Memory.Search.{IsAscending}
use esp32c3_mtk.Memory.FreeQue.{
  listed, NoneEmpty, IsOnce, listed-remove_free_que, IsAscending-remove_free_que,
  NoneEmpty-remove_free_que, IsOnce-remove_free_que,
}
use esp32c3_mtk.Memory.Insertion.{
  inserted, listed-inserted, IsAscending-inserted, NoneEmpty-inserted, IsOnce-inserted,
}
use esp32c3_mtk.Memory.Areas.{free_size, held_size, IsTiled, IsTiled-set_flag, next_at-set_flag}
use esp32c3_mtk.Memory.Merging.{
  adjacent, free_size-merge, free_size-merged, held_size-merge, IsTiled-merge, next_at-merge,
}
use esp32c3_mtk.Memory.Pairs.{merged_but, merged_but-merge}
use esp32c3_mtk.Memory.Coalescing.{
  after_free, before_free, IsMerged-merged_but, after_free-merged, after_free-merge,
  before_free-merge,
}
use esp32c3_mtk.Memory.Neighbours.{
  not_free, after_free-after_area, adjacent-after_area, before_free-first, adjacent-first,
  free_size-cleared, free_size-held, held_size-cleared, area_size-free, set_flag_clear,
  merged_but-cleared,
}
use esp32c3_mtk.Memory.Alloc.{IsMemory, append_free_area-inserted}

-- A memory whose free area at `q` is not in FreeQue yet and may stand beside free ones; it is what
-- `m0` was but for the area at `t`, which is in use no longer.
pub record IsMemoryBut (m0 : Imacb) (t : ℕ) (m : Imacb) (q : ℕ) : Type 0 where
  pub tiled : IsTiled m.limit m.areaque
  pub but : merged_but q m.areaque ≡ true
  pub ascending : IsAscending 0 m.freeque
  pub full : NoneEmpty m.freeque
  pub once : IsOnce m.freeque
  pub agrees :
      (a : ℕ) → listed m.freeque a ≡ (if q == a then none else free_size m.limit m.areaque a)
  pub size : ℕ
  pub own : free_size m.limit m.areaque q ≡ some size
  pub held :
      (a : ℕ)
      → held_size m.limit m.areaque a ≡ (if t == a then none else held_size m0.limit m0.areaque a)
  pub begins : next_at m.limit m.areaque ≡ next_at m0.limit m0.areaque

cleared-IsMemoryBut :
    (m : Imacb) (q s : ℕ)
    → IsMemory m
    → held_size m.limit m.areaque q ≡ some s
    → IsMemoryBut m q (record m { areaque = set_flag false q m.areaque }) q
cleared-IsMemoryBut m q s p h = record {
  tiled = IsTiled-set_flag m.limit q false m.areaque p.tiled;
  but = merged_but-cleared q m.areaque p.merged;
  ascending = p.ascending;
  full = p.full;
  once = p.once;
  agrees = λ a. ground (
    arith,
    p.agrees a,
    free_size-held m.limit q s m.areaque h,
    free_size-cleared m.limit q s m.areaque a h,
  );
  size = s;
  own = free_size-cleared m.limit q s m.areaque q h ∙ ground arith;
  held = held_size-cleared m.limit q m.areaque;
  begins = next_at-set_flag m.limit q false m.areaque;
}

merged-agrees :
    (m : Imacb) (x y z q a : ℕ)
    → IsTiled m.limit m.areaque
    → adjacent x y m.areaque ≡ true
    → ((q == x && z == y) || (q == y && z == x)) ≡ true
    → listed m.freeque a ≡ (if q == a then none else free_size m.limit m.areaque a)
    → listed (remove_free_que z m.freeque) a
      ≡ (if x == a then none else free_size m.limit (remove_area_que y m.areaque) a)
merged-agrees m x y z q a t h i g = elim (Bool-cases (x == a)) [
  | inl same ↦ ground (arith, listed-remove_free_que z m.freeque a, same, i, g)
  | inr other ↦
      let ne : x ≢ a = ground (arith, other) in
      ground (
        arith,
        listed-remove_free_que z m.freeque a,
        other,
        i,
        g,
        free_size-merge m.limit x y m.areaque a t h ne,
      )
]

-- The free areas at `x` and `y` become one; of the two, `q` is not in FreeQue and `z` is taken out.
merge-IsMemoryBut :
    (m0 : Imacb) (t : ℕ) (m : Imacb) (q x y z : ℕ)
    → IsMemoryBut m0 t m q
    → adjacent x y m.areaque ≡ true
    → ((q == x && z == y) || (q == y && z == x)) ≡ true
    → IsMemoryBut m0 t
        (record m { freeque = remove_free_que z m.freeque; areaque = remove_area_que y m.areaque })
        x
merge-IsMemoryBut m0 t m q x y z p h i =
    let either : (q == x || q == y) ≡ true = ground (arith, i) in
    record {
      tiled = IsTiled-merge m.limit x y m.areaque p.tiled h;
      but = merged_but-merge m.limit q x y m.areaque p.tiled h either p.but;
      ascending = IsAscending-remove_free_que z 0 m.freeque p.ascending;
      full = NoneEmpty-remove_free_que z m.freeque p.full;
      once = IsOnce-remove_free_que z m.freeque p.once;
      agrees = λ a. merged-agrees m x y z q a p.tiled h i (p.agrees a);
      size = area_size m.limit (remove_area_que y m.areaque) x;
      own = free_size-merged m.limit x y m.areaque p.tiled h;
      held = λ a. held_size-merge m.limit x y m.areaque a p.tiled h ∙ p.held a;
      begins = next_at-merge m.limit x y m.areaque p.tiled h ∙ p.begins;
    }

-- What `knl_Ifree` of the area at `t` leaves.
pub record IsFreed (m : Imacb) (t : ℕ) (m' : Imacb) : Type 0 where
  pub memory : IsMemory m'
  pub held :
      (a : ℕ)
      → held_size m'.limit m'.areaque a ≡ (if t == a then none else held_size m.limit m.areaque a)
  pub begins : next_at m'.limit m'.areaque ≡ next_at m.limit m.areaque

pub appended-IsFreed :
    (m0 : Imacb) (t : ℕ) (m : Imacb) (q : ℕ)
    → IsMemoryBut m0 t m q
    → after_free q m.areaque ≡ false
    → before_free q m.areaque ≡ false
    → IsFreed m0 t (append_free_area m q)
unfolding append_free_area
appended-IsFreed m0 t m q p a b =
    let size = area_size m.limit m.areaque q in
    let own = area_size-free m.limit q p.size m.areaque p.tiled p.own in
    let clear = set_flag_clear m.limit q p.size m.areaque p.own in
    let frees = append_free_area-inserted m q p.ascending in
    let absent : listed m.freeque q ≡ none = p.agrees q ∙ ground arith in
    let new = record m { freeque = inserted size q m.freeque } in
    let is : append_free_area m q ≡ new =
      ap₂ (λ f r. record m { freeque = f; areaque = r }) frees clear in
    subst (IsFreed m0 t) (sym is) (record {
      memory = record {
        tiled = p.tiled;
        merged = IsMerged-merged_but m.limit q m.areaque p.tiled p.but a b;
        ascending =
            IsAscending-inserted size q 0 m.freeque (omega (arith, own.0, own.1)) p.ascending;
        full = NoneEmpty-inserted size q m.freeque p.full;
        once = IsOnce-inserted size q m.freeque absent p.once;
        agrees = λ c.
            ground (arith, listed-inserted size q m.freeque c absent, p.agrees c, own.0, p.own);
      };
      held = p.held;
      begins = p.begins;
    })

-- The merging with the area behind.
merged_after-IsMemoryBut :
    (m0 : Imacb) (t : ℕ) (m : Imacb) (q : ℕ) (o : Option Area)
    → IsMemoryBut m0 t m q
    → after_area q m.areaque ≡ o
    → IsMemoryBut m0 t (merged_after m o) q × (after_free q (merged_after m o).areaque ≡ false)
merged_after-IsMemoryBut m0 t m q none p e = (p, after_free-after_area q m.areaque (ap not_free e))
merged_after-IsMemoryBut m0 t m q (some x) p e =
    let merged = record m {
      freeque = remove_free_que x.at m.freeque;
      areaque = remove_area_que x.at m.areaque;
    } in
    if_cases (λ n. IsMemoryBut m0 t n q × (after_free q n.areaque ≡ false)) x.used m merged
      (λ u. (p, after_free-after_area q m.areaque (ap not_free e ∙ u)))
      (λ f.
        let near = adjacent-after_area m.limit q p.size m.areaque x p.own e f in
        (
          merge-IsMemoryBut m0 t m q q x.at x.at p near (ground arith),
          after_free-merged m.limit q x.at m.areaque p.tiled near p.but,
        ))

-- The merging with the area in front.
merged_before-IsMemoryBut :
    (m0 : Imacb) (t : ℕ) (m : Imacb) (q : ℕ) (o : Option Area)
    → IsMemoryBut m0 t m q
    → after_free q m.areaque ≡ false
    → before_area none q m.areaque ≡ o
    → IsFreed m0 t (append_free_area (merged_before m q o).0 (merged_before m q o).1)
merged_before-IsMemoryBut m0 t m q none p a e =
    appended-IsFreed m0 t m q p a (before_free-first m.limit q m.areaque p.tiled (ap not_free e))
merged_before-IsMemoryBut m0 t m q (some x) p a e =
    let merged = record m {
      freeque = remove_free_que x.at m.freeque;
      areaque = remove_area_que q m.areaque;
    } in
    if_cases (λ (n : Imacb × ℕ). IsFreed m0 t (append_free_area n.0 n.1)) x.used (m, q)
      (merged, x.at)
      (λ u.
        appended-IsFreed m0 t m q p a
          (before_free-first m.limit q m.areaque p.tiled (ap not_free e ∙ u)))
      (λ f.
        let near = adjacent-first m.limit q p.size m.areaque x p.tiled p.own e f in
        appended-IsFreed m0 t merged x.at
          (merge-IsMemoryBut m0 t m q x.at q x.at p near (ground arith))
          (after_free-merge m.limit x.at q m.areaque p.tiled near a)
          (before_free-merge m.limit x.at q m.areaque p.tiled near p.but))

-- `knl_Ifree` of an area in use, in a memory whose queues agree, leaves that area in use no longer
-- and every other one in use as it was, lets the areas begin where they did, and makes the queues
-- agree again: the areas follow on one another without gaps, no two free ones are neighbours, and
-- FreeQue lists the free ones by size.
pub ifree-IsFreed :
    (m : Imacb) (ptr s : ℕ)
    → IsMemory m
    → held_size m.limit m.areaque (ptr - 8) ≡ some s
    → IsFreed m (ptr - 8) (ifree m ptr)
unfolding ifree
ifree-IsFreed m ptr s p h =
    let q = ptr - 8 in
    let m1 = record m { areaque = set_flag false q m.areaque } in
    let after =
      merged_after-IsMemoryBut m q m1 q (after_area q m1.areaque) (cleared-IsMemoryBut m q s p h)
        refl in
    let m2 = merged_after m1 (after_area q m1.areaque) in
    merged_before-IsMemoryBut m q m2 q (before_area none q m2.areaque) after.0 after.1 refl
