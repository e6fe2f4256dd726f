-- ===== src/Shim/Ring/Slots.antt =====
-- The slots of the ring buffer in components/freertos_shim/shim_queue.c: which items it holds, and
-- that they do not overlap.
use esp32c3_mtk.Prelude.{
  ℕ, suc, ◌+◌, ◌-◌, ◌*◌, ◌%◌, ◌^◌, ◌≤◌, ◌<◌, ◌≡◌, ◌≢◌, List, [], ◌∷◌, ◌++◌, length, arith, ap,
  subst, ◌⊎◌, inl, inr,
}
use esp32c3_mtk.MessageRing.{memcpy}
use native.Mathlib.Decide.{dec_lt}
use native.Mathlib.Nat.{mod-eq_of_lt, mod_self}
use esp32c3_mtk.MessageRing.Contents.{wrapped, wrapped_lt}
use esp32c3_mtk.Shim.Ring.{next_index}

pub next_index-wrapped : (n p : ℕ) → p < n → n < 2 ^ 32 → next_index n p ≡ wrapped n (p + 1)
next_index-wrapped n p h l =
    let small : (p + 1) % 2 ^ 32 ≡ p + 1 = omega arith in
    rw small (elim (dec_lt (p + 1) n) [
      | yes lt ↦ rw (mod-eq_of_lt lt) (ground arith)
      | no ge ↦ let last : p + 1 ≡ n = omega arith in rw last (rw (mod_self n) (ground arith))
    ])

-- The `s` bytes of an item in its slot.
abbrev pub HasItem : (ℕ → ℕ) → ℕ → ℕ → (ℕ → ℕ) → Type 0
HasItem storage s p x = (j : ℕ) → j < s → storage (p * s + j) ≡ x j

-- The items in the slots from `p` on.
unfoldable pub Stored : (ℕ → ℕ) → ℕ → ℕ → ℕ → List (ℕ → ℕ) → Type 0
Stored storage n s p [] = Unit {0}
Stored storage n s p (x ∷ xs) = HasItem storage s p x × Stored storage n s (wrapped n (p + 1)) xs

below : (p t s j : ℕ) → p < t → j < s → p * s + j < t * s
below p t s j h l = grind arith

behind : (p t s j : ℕ) → t < p → t * s + s ≤ p * s + j
behind p t s j h = grind arith

-- The bytes of two slots lie apart.
apart : (p t s j : ℕ) → p ≢ t → j < s → (p * s + j < t * s) ⊎ (t * s + s ≤ p * s + j)
apart p t s j ne l = elim (dec_lt p t) [
  | yes lt ↦ inl (below p t s j lt l)
  | no ge ↦ inr (behind p t s j (omega (arith, ne)))
]

pub memcpy-other_slot :
    (storage x y : ℕ → ℕ) (s p t : ℕ)
    → p ≢ t
    → HasItem storage s p x
    → HasItem (memcpy storage (t * s) y 0 s) s p x
unfolding memcpy
memcpy-other_slot storage x y s p t ne h j l = ground (arith, apart p t s j ne l, h j l)

pub memcpy-slot : (storage y : ℕ → ℕ) (s t : ℕ) → HasItem (memcpy storage (t * s) y 0 s) s t y
unfolding memcpy
memcpy-slot storage y s t j l =
    let back : 0 + (t * s + j - t * s) ≡ j = omega arith in ground (arith, ap y back)

-- A write to a slot that is `d` behind leaves the items before it.
pub Stored-memcpy :
    (storage y : ℕ → ℕ) (n s p d : ℕ) (xs : List (ℕ → ℕ))
    → p < n
    → d < n
    → length xs ≤ d
    → Stored storage n s p xs
    → Stored (memcpy storage (wrapped n (p + d) * s) y 0 s) n s p xs
unfolding Stored
Stored-memcpy storage y n s p d [] hp hd hl h = tt
Stored-memcpy storage y n s p d (x ∷ xs) hp hd hl h =
    let p' = wrapped n (p + 1) in
    let target : wrapped n (p' + (d - 1)) ≡ wrapped n (p + d) = ground arith in
    let other : p ≢ wrapped n (p + d) = ground arith in
    (
      memcpy-other_slot storage x y s p (wrapped n (p + d)) other h.0,
      subst (λ t. Stored (memcpy storage (t * s) y 0 s) n s p' xs) target
          (Stored-memcpy storage y n s p' (d - 1) xs (wrapped_lt n p 1 hp (omega arith))
            (omega arith) (omega arith) h.1),
    )

pub Stored-append :
    (storage y : ℕ → ℕ) (n s p : ℕ) (xs : List (ℕ → ℕ))
    → p < n
    → length xs < n
    → Stored storage n s p xs
    → HasItem storage s (wrapped n (p + length xs)) y
    → Stored storage n s p (xs ++ y ∷ [])
unfolding Stored
Stored-append storage y n s p [] hp hl h a =
    let here : wrapped n (p + 0) ≡ p = ground arith in
    (subst (λ t. HasItem storage s t y) here a, tt)
Stored-append storage y n s p (x ∷ xs) hp hl h a =
    let p' = wrapped n (p + 1) in
    let there : wrapped n (p + suc (length xs)) ≡ wrapped n (p' + length xs) = ground arith in
    (
      h.0,
      Stored-append storage y n s p' xs (wrapped_lt n p 1 hp (omega arith)) (omega arith) h.1
          (subst (λ t. HasItem storage s t y) there a),
    )
