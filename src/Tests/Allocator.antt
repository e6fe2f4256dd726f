-- ===== src/Tests/Allocator.antt =====
-- The allocator of kernel/tkernel/memory.c in concrete states, and the theorems at them.
use esp32c3_mtk.Prelude.{ℕ, ◌≡◌, ◌<◌, ◌⊎◌, refl, true, false, [], ◌∷◌, List, some, none, arith}
use esp32c3_mtk.Types.{pos}
use esp32c3_mtk.Memory.{
  Bucket, Imacb, search_free_area, from_smaller, imalloc, ifree, init_imalloc, wanted,
}
use esp32c3_mtk.Memory.Search.{IsAscending, search_free_area-eq-from_smaller}
use esp32c3_mtk.Memory.FreeQue.{listed, NoneEmpty, IsOnce}
use esp32c3_mtk.Memory.Areas.{free_size, held_size, IsTiled, IsMerged}
use esp32c3_mtk.Memory.Alloc.{IsMemory, IsTaken, imalloc-best_fit}
use esp32c3_mtk.Memory.Freeing.{IsFreed, ifree-IsFreed}
use esp32c3_mtk.Memory.Runs.{Reached, starts, allocates, frees, Reached-IsMemory}

abbrev buckets : List Bucket
buckets = record { size = 40; areas = 1032 ∷ [] } ∷ record { size = 72; areas = 1120 ∷ [] } ∷ []

-- Two areas in use, of 24 and 32 bytes, with a free one behind each.
abbrev memory : Imacb
memory = record {
  memsz = 192;
  areaque =
      record { at = 1000; used = true }
      ∷ record { at = 1032; used = false }
      ∷ record { at = 1080; used = true }
      ∷ record { at = 1120; used = false }
      ∷ [];
  limit = 1200;
  freeque = buckets;
}

buckets-IsAscending : IsAscending 0 buckets
unfolding IsAscending
buckets-IsAscending = (omega arith, (omega arith, tt))

memory-IsMemory : IsMemory memory
unfolding IsAscending IsTiled IsMerged NoneEmpty IsOnce listed free_size
memory-IsMemory = record {
  tiled = (omega arith, (omega arith, (omega arith, (omega arith, tt))));
  merged = ((λ e. cc), ((λ e. refl), ((λ e. cc), ((λ e. refl), tt))));
  ascending = (omega arith, (omega arith, tt));
  full = ((λ e. cc), ((λ e. cc), tt));
  once = ((λ a e. ground (arith, e)), ((λ a e. refl), tt));
  agrees = λ a. ground arith;
}

held_1080 : held_size 1200 memory.areaque 1080 ≡ some 32
unfolding held_size
held_1080 = refl

search_free_area-eq-from_smaller_example : search_free_area 192 buckets 50 ≡ from_smaller 50 buckets
search_free_area-eq-from_smaller_example =
    search_free_area-eq-from_smaller 192 50 buckets buckets-IsAscending

imalloc-best_fit_example :
    ((imalloc memory (pos 33) ≡ (memory, none))
      × ((a t : ℕ) → free_size memory.limit memory.areaque a ≡ some t → t < wanted 33))
    ⊎ IsTaken memory (wanted 33) (imalloc memory (pos 33))
imalloc-best_fit_example = imalloc-best_fit memory (pos 33) memory-IsMemory refl (omega arith)

ifree-IsFreed_example : IsFreed memory 1080 (ifree memory 1088)
ifree-IsFreed_example = ifree-IsFreed memory 1088 32 memory-IsMemory held_1080

abbrev fresh : Imacb
fresh = init_imalloc 0 1000

held_24 : held_size (imalloc fresh (pos 33)).0.limit (imalloc fresh (pos 33)).0.areaque 24 ≡ some 40
unfolding init_imalloc imalloc held_size
held_24 = refl

fresh-Reached : Reached (imalloc fresh (pos 33)).0
fresh-Reached = allocates fresh (pos 33) (omega arith) (starts 0 1000 (omega arith))

Reached-IsMemory_example : IsMemory (ifree (imalloc fresh (pos 33)).0 32)
Reached-IsMemory_example =
    Reached-IsMemory (ifree (imalloc fresh (pos 33)).0 32)
      (frees (imalloc fresh (pos 33)).0 32 40 held_24 fresh-Reached)
