-- ===== src/Memory/Alloc.antt =====
-- `knl_Imalloc` of kernel/tkernel/memory.c on a pool whose queues agree.
use esp32c3_mtk.Prelude.{
  ◌⊎◌, contains, ℕ, ◌+◌, ◌-◌, ◌%◌, ◌≤◌, ◌<◌, ◌≡◌, refl, true, List, [], ◌∷◌, Option, none, some,
  leb, ◌==◌, if◌then◌else◌, arith, ◌∙◌, sym, ap, ap₂, Bool-cases, inl, inr, subst,
}
use native.Mathlib.Nat.{mod-eq_of_lt}
use esp32c3_mtk.Types.{ℤ}
use esp32c3_mtk.Kernel.{is_positive, magnitude}
use esp32c3_mtk.Memory.{
  Bucket, Imacb, next_at, area_size, registered, set_flag, append_free_area, remove_free_que,
  insert_area_que, divided, taken_from, taken_head, imalloc, wanted, from_smaller, round_size,
}
use esp32c3_mtk.Memory.Search.{IsAscending, search_free_area-eq-from_smaller}
use esp32c3_mtk.Memory.FreeQue.{
  listed, NoneEmpty, IsOnce, listed-remove_free_que, IsAscending-remove_free_que,
  NoneEmpty-remove_free_que, IsOnce-remove_free_que,
}
use esp32c3_mtk.Memory.Insertion.{
  inserted, registered-inserted, listed-inserted, IsAscending-inserted, NoneEmpty-inserted,
  IsOnce-inserted,
}
use esp32c3_mtk.Memory.BestFit.{
  from_smaller-none, from_smaller-least, from_smaller-listed, from_smaller-full, from_smaller-size,
}
use esp32c3_mtk.Memory.Division.{
  next_at-split, split_at, split_at-eq, free_size-split, held_size-split, IsTiled-split,
  IsMerged-split, area_size-insert_area_que, inside_free,
}
use esp32c3_mtk.Memory.Areas.{
  next_at-set_flag, free_size, held_size, IsTiled, IsMerged, free_size-set_flag, held_size-set_flag,
  IsTiled-set_flag, IsMerged-set_flag,
}

-- The areas follow on one another, no two free ones are neighbours, and FreeQue lists the free areas
-- by their sizes, from small to large.
pub record IsMemory (m : Imacb) : Type 0 where
  pub tiled : IsTiled m.limit m.areaque
  pub merged : IsMerged m.areaque
  pub ascending : IsAscending 0 m.freeque
  pub full : NoneEmpty m.freeque
  pub once : IsOnce m.freeque
  pub agrees : (a : ℕ) → listed m.freeque a ≡ free_size m.limit m.areaque a

-- `knl_appendFreeArea` inserts by size.
pub append_free_area-inserted :
    (m : Imacb) (aq : ℕ)
    → IsAscending 0 m.freeque
    → (append_free_area m aq).freeque ≡ inserted (area_size m.limit m.areaque aq) aq m.freeque
unfolding append_free_area
append_free_area-inserted m aq h =
    let size = area_size m.limit m.areaque aq in
    ap (λ o. registered o size aq m.freeque)
      (search_free_area-eq-from_smaller m.memsz size m.freeque h)
    ∙ registered-inserted size aq 0 m.freeque h

-- The pool after the taking of a free area as a whole.
unfoldable pub whole : Imacb → ℕ → Imacb
whole m aq = record m {
  freeque = remove_free_que aq m.freeque;
  areaque = set_flag true aq m.areaque;
}

-- The pool after the taking of a part of it.
unfoldable pub part : Imacb → ℕ → ℕ → ℕ → Imacb
part m aq e rest = record m {
  freeque = inserted rest e (remove_free_que aq m.freeque);
  areaque = split_at aq e m.areaque;
}

whole-IsMemory : (m : Imacb) (aq : ℕ) → IsMemory m → IsMemory (whole m aq)
unfolding whole
whole-IsMemory m aq p = record {
  tiled = IsTiled-set_flag m.limit aq true m.areaque p.tiled;
  merged = IsMerged-set_flag aq m.areaque p.merged;
  ascending = IsAscending-remove_free_que aq 0 m.freeque p.ascending;
  full = NoneEmpty-remove_free_que aq m.freeque p.full;
  once = IsOnce-remove_free_que aq m.freeque p.once;
  agrees = λ a. ground (
    arith,
    listed-remove_free_que aq m.freeque a,
    free_size-set_flag m.limit aq m.areaque a,
    p.agrees a,
  );
}

part-IsMemory :
    (m : Imacb) (aq e s : ℕ)
    → IsMemory m
    → free_size m.limit m.areaque aq ≡ some s
    → aq + 24 ≤ e
    → e + 16 ≤ aq + s
    → IsMemory (part m aq e (aq + s - e))
unfolding part
part-IsMemory m aq e s p h lt lt2 =
    let after : aq < e = omega (arith, lt) in
    let inside : e < aq + 8 + s = omega (arith, lt2) in
    let fresh : listed (remove_free_que aq m.freeque) e ≡ none = ground (
      arith,
      listed-remove_free_que aq m.freeque e,
      p.agrees e,
      (inside_free m.limit m.areaque aq e s p.tiled h after inside).0,
    ) in
    let ascending = IsAscending-remove_free_que aq 0 m.freeque p.ascending in
    record {
      tiled = IsTiled-split m.limit m.areaque aq e s p.tiled h lt lt2;
      merged = IsMerged-split m.limit aq e s m.areaque h p.merged;
      ascending =
          IsAscending-inserted (aq + s - e) e 0 (remove_free_que aq m.freeque) (omega (arith, lt2))
            ascending;
      full =
          NoneEmpty-inserted (aq + s - e) e (remove_free_que aq m.freeque)
            (NoneEmpty-remove_free_que aq m.freeque p.full);
      once =
          IsOnce-inserted (aq + s - e) e (remove_free_que aq m.freeque) fresh
            (IsOnce-remove_free_que aq m.freeque p.once);
      agrees = λ a. ground (
        arith,
        listed-inserted (aq + s - e) e (remove_free_que aq m.freeque) a fresh,
        listed-remove_free_que aq m.freeque a,
        free_size-split m.limit m.areaque aq e s a p.tiled h after inside,
        p.agrees a,
      );
    }

-- Without a division, and with one.
divided-whole : (m : Imacb) (aq s size : ℕ) → s - size < 24 → divided m aq s size ≡ whole m aq
unfolding whole
divided-whole m aq s size lt =
    let m1 = record m { freeque = remove_free_que aq m.freeque } in
    let e = aq + 8 + size in
    let m2 = append_free_area (record m1 { areaque = insert_area_que aq e m.areaque }) e in
    let undivided : (if leb 24 (s - size) then m2 else m1) ≡ m1 = ground (arith, lt) in
    ap (λ (n : Imacb). record n { areaque = set_flag true aq n.areaque }) undivided

divided-part :
    (m : Imacb) (aq s size : ℕ)
    → IsMemory m
    → free_size m.limit m.areaque aq ≡ some s
    → 24 ≤ s - size
    → divided m aq s size ≡ part m aq (aq + 8 + size) (aq + s - (aq + 8 + size))
unfolding part append_free_area
divided-part m aq s size p h le =
    let e = aq + 8 + size in
    let m1 = record m { freeque = remove_free_que aq m.freeque } in
    let cut = record m1 { areaque = insert_area_que aq e m.areaque } in
    let divides : (if leb 24 (s - size) then append_free_area cut e else m1)
        ≡ append_free_area cut e =
      ground (arith, le) in
    let ascending = IsAscending-remove_free_que aq 0 m.freeque p.ascending in
    let rest = area_size-insert_area_que m.limit m.areaque aq e s p.tiled h (omega arith) in
    let frees =
      append_free_area-inserted cut e ascending
      ∙ ap (λ d. inserted d e (remove_free_que aq m.freeque)) rest in
    let splits = split_at-eq m.limit m.areaque aq e s p.tiled h (omega arith) in
    ap (λ (n : Imacb). record n { areaque = set_flag true aq n.areaque }) divides
    ∙ ap₂ (λ f q. record m { freeque = f; areaque = q }) frees splits

-- What `knl_Imalloc` has done when it returns an area, for a request of `n` bytes.
pub record IsTaken (m : Imacb) (n : ℕ) (r : Imacb × Option ℕ) : Type 0 where
  pub aq : ℕ
  pub size : ℕ
  pub got : ℕ
  pub address : r.1 ≡ some (aq + 8)
  pub was_free : free_size m.limit m.areaque aq ≡ some size
  pub least : (a t : ℕ) → free_size m.limit m.areaque a ≡ some t → n ≤ t → size ≤ t
  pub enough : n ≤ got
  pub held :
      (a : ℕ)
      → held_size r.0.limit r.0.areaque a
        ≡ (if aq == a then some got else held_size m.limit m.areaque a)
  pub begins : next_at r.0.limit r.0.areaque ≡ next_at m.limit m.areaque
  pub memory : IsMemory r.0

divided-IsTaken :
    (m : Imacb) (aq s size : ℕ)
    → IsMemory m
    → free_size m.limit m.areaque aq ≡ some s
    → 16 ≤ size
    → size ≤ s
    → ((a t : ℕ) → free_size m.limit m.areaque a ≡ some t → size ≤ t → s ≤ t)
    → IsTaken m size (divided m aq s size, some (aq + 8))
unfolding whole part
divided-IsTaken m aq s size p h wide fits least = elim (Bool-cases (leb 24 (s - size))) [
  | inl two ↦
      let e = aq + 8 + size in
      let n = part m aq e (aq + s - e) in
      let after : aq < e = omega arith in
      let inside : e < aq + 8 + s = ground (arith, two) in
      subst (λ m'. IsTaken m size (m', some (aq + 8)))
        (sym (divided-part m aq s size p h (ground (arith, two))))
        (record {
          aq = aq;
          size = s;
          got = e - (aq + 8);
          address = refl;
          was_free = h;
          least = least;
          enough = omega arith;
          held = λ a. ground (
            arith,
            held_size-split m.limit m.areaque aq e s a p.tiled h after inside,
            (inside_free m.limit m.areaque aq e s p.tiled h after inside).1,
          );
          begins = next_at-split m.limit aq e m.areaque;
          memory = part-IsMemory m aq e s p h (omega (arith, wide)) (ground (arith, two));
        })
  | inr one ↦
      subst (λ m'. IsTaken m size (m', some (aq + 8)))
        (sym (divided-whole m aq s size (ground (arith, one))))
        (record {
          aq = aq;
          size = s;
          got = s;
          address = refl;
          was_free = h;
          least = least;
          enough = fits;
          held = λ a. held_size-set_flag m.limit aq s m.areaque a h;
          begins = next_at-set_flag m.limit aq true m.areaque;
          memory = whole-IsMemory m aq p;
        })
]

wanted-enough : (n : ℕ) → n ≤ 2147483640 → (n ≤ wanted n) × (16 ≤ wanted n)
unfolding round_size
wanted-enough n le =
    let small : (n + 7) % 4294967296 ≡ n + 7 = mod-eq_of_lt (omega arith) in
    (ground (arith, small), ground (arith, small))

taken_head-IsTaken :
    (m : Imacb) (size : ℕ) (b : Bucket) (xs : List ℕ)
    → IsMemory m
    → 16 ≤ size
    → from_smaller size m.freeque ≡ some b
    → b.areas ≡ xs
    → IsTaken m size (taken_head m size b.size xs)
taken_head-IsTaken m size b [] p wide e q = absurd (from_smaller-full size m.freeque b p.full e q)
taken_head-IsTaken m size b (aq ∷ rest) p wide e q =
    let within : contains aq b.areas ≡ true = ap (contains aq) q ∙ ground arith in
    let found = sym (p.agrees aq) ∙ from_smaller-listed size aq m.freeque b p.once e within in
    let fits = (from_smaller-size size 0 m.freeque b p.ascending e).0 in
    divided-IsTaken m aq b.size size p found wide fits
      (λ a t f le. from_smaller-least size 0 m.freeque b a t p.ascending e (p.agrees a ∙ f) le)

taken_from-outcome :
    (m : Imacb) (size : ℕ) (o : Option Bucket)
    → IsMemory m
    → 16 ≤ size
    → from_smaller size m.freeque ≡ o
    → ((taken_from m size o ≡ (m, none))
        × ((a t : ℕ) → free_size m.limit m.areaque a ≡ some t → t < size))
      ⊎ IsTaken m size (taken_from m size o)
taken_from-outcome m size none p wide e =
    inl (refl, (λ a t f. from_smaller-none size m.freeque a t e (p.agrees a ∙ f)))
taken_from-outcome m size (some b) p wide e =
    inr (taken_head-IsTaken m size b b.areas p wide e refl)

-- In a memory whose queues agree, `knl_Imalloc` of a positive size up to 2147483640 returns
-- nothing and changes nothing only if every free area is smaller than the rounded size. Otherwise
-- it returns the address behind the header of an area that was free, the smallest one that is
-- large enough; that area is in use then with at least the rounded size, all areas in use before
-- are as they were, the areas begin where they did, and the queues agree again.
pub imalloc-best_fit :
    (m : Imacb) (size : ℤ)
    → IsMemory m
    → is_positive size ≡ true
    → magnitude size ≤ 2147483640
    → ((imalloc m size ≡ (m, none))
        × ((a t : ℕ) → free_size m.limit m.areaque a ≡ some t → t < wanted (magnitude size)))
      ⊎ IsTaken m (wanted (magnitude size)) (imalloc m size)
unfolding imalloc
imalloc-best_fit m size p positive le =
    let n = wanted (magnitude size) in
    let searched = search_free_area-eq-from_smaller m.memsz n m.freeque p.ascending in
    let does : imalloc m size ≡ taken_from m n (from_smaller n m.freeque) =
      ground (arith, positive) ∙ ap (taken_from m n) searched in
    subst
      (λ r.
        ((r ≡ (m, none)) × ((a t : ℕ) → free_size m.limit m.areaque a ≡ some t → t < n))
        ⊎ IsTaken m n r)
      (sym does)
      (taken_from-outcome m n (from_smaller n m.freeque) p (wanted-enough (magnitude size) le).1
        refl)
