-- ===== src/Memory/Runs.antt =====
-- Runs of the calls of kernel/tkernel/memory.c from its initial setting on.
use esp32c3_mtk.Prelude.{
  ℕ, zero, suc, ◌+◌, ◌-◌, ◌*◌, ◌/◌, ◌≤◌, ◌≡◌, refl, false, [], ◌∷◌, Option, none, some, ◌==◌,
  if◌then◌else◌, arith, ◌∙◌, sym, Bool-cases, inl, inr, subst,
}
use esp32c3_mtk.Types.{ℤ, pos, negsuc}
use esp32c3_mtk.Kernel.{is_positive, magnitude}
use esp32c3_mtk.Memory.{
  Imacb, imalloc, ifree, irealloc, reallocated, moved, init_imalloc, append_free_area, wanted,
}
use esp32c3_mtk.Memory.FreeQue.{listed, NoneEmpty, IsOnce}
use esp32c3_mtk.Memory.Search.{IsAscending}
use esp32c3_mtk.Memory.Pairs.{merged_but}
use esp32c3_mtk.Memory.Coalescing.{after_free, before_free}
use esp32c3_mtk.Memory.Areas.{free_size, held_size, IsTiled}
use esp32c3_mtk.Memory.Alloc.{IsMemory, IsTaken, imalloc-best_fit}
use esp32c3_mtk.Memory.Freeing.{IsMemoryBut, appended-IsFreed, ifree-IsFreed}

-- A pointer is NULL or that of an area in use.
unfoldable pub IsHeld : Imacb → Option ℕ → Type 0
IsHeld m none = Unit {0}
IsHeld m (some ptr) = (s : ℕ) × (held_size m.limit m.areaque (ptr - 8) ≡ some s)

-- The memories that the calls lead to: `knl_Ifree` gets what is in use.
pub data Reached : Imacb → Type 0 where
  starts : (top limit : ℕ) → top + 64 ≤ limit → Reached (init_imalloc top limit)
  allocates :
      (m : Imacb) (size : ℤ) → magnitude size ≤ 2147483640 → Reached m → Reached (imalloc m size).0
  frees :
      (m : Imacb) (ptr s : ℕ)
      → held_size m.limit m.areaque (ptr - 8) ≡ some s
      → Reached m
      → Reached (ifree m ptr)
  reallocates :
      (m : Imacb) (ptr : Option ℕ) (size : ℤ)
      → IsHeld m ptr
      → magnitude size ≤ 2147483640
      → Reached m
      → Reached (irealloc m ptr size).0

-- A memory of one free area that is not in FreeQue yet.
abbrev one_area : ℕ → ℕ → Imacb
one_area top memsz = record {
  memsz = memsz;
  areaque = record { at = top; used = false } ∷ [];
  limit = top + memsz + 8;
  freeque = [];
}

one_area-IsMemoryBut :
    (top memsz : ℕ) → 16 ≤ memsz → IsMemoryBut (one_area top memsz) top (one_area top memsz) top
unfolding IsTiled merged_but IsAscending NoneEmpty IsOnce listed free_size held_size
one_area-IsMemoryBut top memsz h = record {
  tiled = (omega (arith, h), tt);
  but = ground arith;
  ascending = tt;
  full = tt;
  once = tt;
  agrees = λ a. ground arith;
  size = top + memsz + 8 - (top + 8);
  own = ground arith;
  held = λ a. ground arith;
  begins = refl;
}

one_area-IsMemory :
    (top memsz : ℕ) → 16 ≤ memsz → IsMemory (append_free_area (one_area top memsz) top)
unfolding after_free before_free
one_area-IsMemory top memsz h =
    (appended-IsFreed (one_area top memsz) top (one_area top memsz) top
      (one_area-IsMemoryBut top memsz h) (ground arith) (ground arith)).memory

init_imalloc-IsMemory : (top limit : ℕ) → top + 64 ≤ limit → IsMemory (init_imalloc top limit)
unfolding init_imalloc
init_imalloc-IsMemory lowtop limit h =
    let top = ((lowtop + 3) / 4 * 4 + 20 + 7) / 8 * 8 in
    one_area-IsMemory top (limit - top - 16) (omega (arith, h))

imalloc_not_positive :
    (m : Imacb) (size : ℤ) → is_positive size ≡ false → imalloc m size ≡ (m, none)
unfolding imalloc
imalloc_not_positive m size e = ground (arith, e)

imalloc-IsMemory :
    (m : Imacb) (size : ℤ) → IsMemory m → magnitude size ≤ 2147483640 → IsMemory (imalloc m size).0
imalloc-IsMemory m size p le = elim (Bool-cases (is_positive size)) [
  | inl positive ↦ elim (imalloc-best_fit m size p positive le) [
    | inl refused ↦ subst (λ (r : Imacb × Option ℕ). IsMemory r.0) (sym refused.0) p
    | inr taken ↦ taken.memory
  ]
  | inr not_positive ↦
      subst (λ (r : Imacb × Option ℕ). IsMemory r.0)
        (sym (imalloc_not_positive m size not_positive)) p
]

-- `knl_Ifree` of what is in use, before or after `knl_Imalloc`.
reallocated-IsMemory :
    (ptr : Option ℕ) (r : Imacb × Option ℕ)
    → IsMemory r.0
    → IsHeld r.0 ptr
    → IsMemory (reallocated ptr r).0
unfolding IsHeld
reallocated-IsMemory none r p h = p
reallocated-IsMemory (some ptr) r p (s, h) = (ifree-IsFreed r.0 ptr s p h).memory

IsTaken-IsHeld :
    (m : Imacb) (n : ℕ) (r : Imacb × Option ℕ) (ptr : Option ℕ)
    → IsTaken m n r
    → IsHeld m ptr
    → IsHeld r.0 ptr
unfolding IsHeld
IsTaken-IsHeld m n r none t h = tt
IsTaken-IsHeld m n r (some ptr) t (s, h) =
    ((if t.aq == ptr - 8 then t.got else s), t.held (ptr - 8) ∙ ground (arith, h))

moved_from-IsMemory :
    (ptr : Option ℕ) (m : Imacb) (o : Option ℕ)
    → IsMemory m
    → IsHeld m ptr
    → IsMemory (moved ptr (m, o)).0
moved_from-IsMemory ptr m none p h = p
moved_from-IsMemory ptr m (some new) p h = reallocated-IsMemory ptr (m, some new) p h

moved-IsMemory :
    (m : Imacb) (size : ℤ) (ptr : Option ℕ)
    → IsMemory m
    → IsHeld m ptr
    → magnitude size ≤ 2147483640
    → IsMemory (moved ptr (imalloc m size)).0
moved-IsMemory m size ptr p h le = elim (Bool-cases (is_positive size)) [
  | inl positive ↦ elim (imalloc-best_fit m size p positive le) [
    | inl refused ↦ subst (λ r. IsMemory (moved ptr r).0) (sym refused.0) p
    | inr taken ↦
        moved_from-IsMemory ptr (imalloc m size).0 (imalloc m size).1 taken.memory
          (IsTaken-IsHeld m (wanted (magnitude size)) (imalloc m size) ptr taken h)
  ]
  | inr not_positive ↦
      subst (λ r. IsMemory (moved ptr r).0) (sym (imalloc_not_positive m size not_positive)) p
]

irealloc-IsMemory :
    (m : Imacb) (ptr : Option ℕ) (size : ℤ)
    → IsMemory m
    → IsHeld m ptr
    → magnitude size ≤ 2147483640
    → IsMemory (irealloc m ptr size).0
unfolding irealloc
irealloc-IsMemory m ptr (pos zero) p h le = reallocated-IsMemory ptr (m, none) p h
irealloc-IsMemory m ptr (pos (suc n)) p h le = moved-IsMemory m (pos (suc n)) ptr p h le
irealloc-IsMemory m ptr (negsuc n) p h le = moved-IsMemory m (negsuc n) ptr p h le

-- After the initial setting of `knl_init_Imalloc` on 64 bytes or more, the queues agree, and they
-- do so after any sequence of `knl_Imalloc`, `knl_Ifree` and `knl_Irealloc` of sizes up to
-- 2147483640 that give back only what is in use.
pub Reached-IsMemory : (m : Imacb) → Reached m → IsMemory m
Reached-IsMemory m (starts top limit h) = init_imalloc-IsMemory top limit h
Reached-IsMemory m (allocates m0 size le r) = imalloc-IsMemory m0 size (Reached-IsMemory m0 r) le
Reached-IsMemory m (frees m0 ptr s h r) = (ifree-IsFreed m0 ptr s (Reached-IsMemory m0 r) h).memory
Reached-IsMemory m (reallocates m0 ptr size h le r) =
    irealloc-IsMemory m0 ptr size (Reached-IsMemory m0 r) h le
