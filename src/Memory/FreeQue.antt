-- ===== src/Memory/FreeQue.antt =====
-- FreeQue of kernel/tkernel/memory.c as a map from free areas to their sizes.
use esp32c3_mtk.Prelude.{
  ℕ, ◌≤◌, ◌<◌, ◌≡◌, ◌≢◌, refl, true, false, List, [], ◌∷◌, Option, none, some, ◌==◌, if◌then◌else◌,
  arith, contains, without,
}
use esp32c3_mtk.Memory.{Bucket, remove_free_que, kept_bucket}
use esp32c3_mtk.Memory.Search.{IsAscending}

-- The size under which an area stands in FreeQue.
unfoldable pub listed : List Bucket → ℕ → Option ℕ
listed [] a = none
listed (b ∷ bs) a = let further = listed bs a in if contains a b.areas then some b.size else further

-- Each size has an area.
unfoldable pub NoneEmpty : List Bucket → Type 0
NoneEmpty [] = Unit {0}
NoneEmpty (b ∷ bs) = (b.areas ≢ []) × NoneEmpty bs

pub contains-without :
    (a t : ℕ) (xs : List ℕ) → contains a (without t xs) ≡ (if t == a then false else contains a xs)
contains-without a t [] = ground arith
contains-without a t (x ∷ xs) = ground (arith, contains-without a t xs)

listed-kept_bucket :
    (b : Bucket) (as' : List ℕ) (bs : List Bucket) (a : ℕ)
    → listed (kept_bucket b as' bs) a ≡ (if contains a as' then some b.size else listed bs a)
unfolding listed
listed-kept_bucket b [] bs a = refl
listed-kept_bucket b (x ∷ xs) bs a = refl

pub listed-remove_free_que :
    (aq : ℕ) (bs : List Bucket) (a : ℕ)
    → listed (remove_free_que aq bs) a ≡ (if aq == a then none else listed bs a)
unfolding listed remove_free_que
listed-remove_free_que aq [] a = ground arith
listed-remove_free_que aq (b ∷ bs) a = ground (
  arith,
  listed-kept_bucket b (without aq b.areas) (remove_free_que aq bs) a,
  contains-without a aq b.areas,
  listed-remove_free_que aq bs a,
)

IsAscending-below : (m n : ℕ) (bs : List Bucket) → m ≤ n → IsAscending n bs → IsAscending m bs
unfolding IsAscending
IsAscending-below m n [] h a = tt
IsAscending-below m n (b ∷ bs) h a = (omega arith, a.1)

IsAscending-kept_bucket :
    (n : ℕ) (b : Bucket) (as' : List ℕ) (bs : List Bucket)
    → n < b.size
    → IsAscending b.size bs
    → IsAscending n (kept_bucket b as' bs)
unfolding IsAscending
IsAscending-kept_bucket n b [] bs h a = IsAscending-below n b.size bs (omega arith) a
IsAscending-kept_bucket n b (x ∷ xs) bs h a = (h, a)

pub IsAscending-remove_free_que :
    (aq n : ℕ) (bs : List Bucket) → IsAscending n bs → IsAscending n (remove_free_que aq bs)
unfolding IsAscending remove_free_que
IsAscending-remove_free_que aq n [] h = tt
IsAscending-remove_free_que aq n (b ∷ bs) h =
    IsAscending-kept_bucket n b (without aq b.areas) (remove_free_que aq bs) h.0
      (IsAscending-remove_free_que aq b.size bs h.1)

NoneEmpty-kept_bucket :
    (b : Bucket) (as' : List ℕ) (bs : List Bucket) → NoneEmpty bs → NoneEmpty (kept_bucket b as' bs)
unfolding NoneEmpty
NoneEmpty-kept_bucket b [] bs h = h
NoneEmpty-kept_bucket b (x ∷ xs) bs h = (λ e. cc, h)

pub NoneEmpty-remove_free_que :
    (aq : ℕ) (bs : List Bucket) → NoneEmpty bs → NoneEmpty (remove_free_que aq bs)
unfolding NoneEmpty remove_free_que
NoneEmpty-remove_free_que aq [] h = tt
NoneEmpty-remove_free_que aq (b ∷ bs) h =
    NoneEmpty-kept_bucket b (without aq b.areas) (remove_free_que aq bs)
      (NoneEmpty-remove_free_que aq bs h.1)

-- No area stands under two sizes.
unfoldable pub IsOnce : List Bucket → Type 0
IsOnce [] = Unit {0}
IsOnce (b ∷ bs) = ((a : ℕ) → contains a b.areas ≡ true → listed bs a ≡ none) × IsOnce bs

IsOnce-kept_bucket :
    (b : Bucket) (as' : List ℕ) (bs : List Bucket)
    → ((a : ℕ) → contains a as' ≡ true → listed bs a ≡ none)
    → IsOnce bs
    → IsOnce (kept_bucket b as' bs)
unfolding IsOnce
IsOnce-kept_bucket b [] bs h o = o
IsOnce-kept_bucket b (x ∷ xs) bs h o = (h, o)

pub IsOnce-remove_free_que :
    (aq : ℕ) (bs : List Bucket) → IsOnce bs → IsOnce (remove_free_que aq bs)
unfolding IsOnce remove_free_que
IsOnce-remove_free_que aq [] o = tt
IsOnce-remove_free_que aq (b ∷ bs) o =
    IsOnce-kept_bucket b (without aq b.areas) (remove_free_que aq bs)
      (λ a e.
        let within : contains a b.areas ≡ true = ground (arith, contains-without a aq b.areas, e) in
        ground (arith, listed-remove_free_que aq bs a, o.0 a within))
      (IsOnce-remove_free_que aq bs o.1)
