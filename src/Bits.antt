-- ===== src/Bits.antt =====
-- The bit operations of C on unsigned words: `w & (1U << p)`, `w |= (1U << p)`, `w &= ~(1U << p)`,
-- `w & m` and `w & ~m`, with their laws bit by bit, from the digit recursion that the native
-- operations stand for.
use Prim.Native.Nat.{min, max, digits, bit_and-bitwise, bit_or-bitwise}
use native.Mathlib.Nat.{pow-suc}
use esp32c3_mtk.Prelude.{
  ℕ, zero, suc, ◌+◌, ◌-◌, ◌*◌, ◌/◌, ◌%◌, ◌^◌, ◌≤◌, ◌<◌, bit_and, bit_or, ◌≡◌, refl, Bool, false,
  not, ◌&&◌, ◌||◌, arith, ◌==◌, ◌∙◌,
}

-- `(w & (1U << p)) != 0`
unfoldable pub test_bit : ℕ → ℕ → Bool
test_bit w p = not (bit_and w (2 ^ p) == 0)

-- `(w & m) != 0`
abbrev pub any_bit : ℕ → ℕ → Bool
any_bit w m = not (bit_and w m == 0)

-- `w | (1U << p)`
unfoldable pub set_bit : ℕ → ℕ → ℕ
set_bit w p = bit_or w (2 ^ p)

-- `w & ~m`: what is left of `w` once its bits that `m` has too are taken away.
unfoldable pub and_not : ℕ → ℕ → ℕ
and_not w m = w - bit_and w m

-- `w & ~(1U << p)`
unfoldable pub clear_bit : ℕ → ℕ → ℕ
unfolding and_not
clear_bit w p = and_not w (2 ^ p)

-- The digit recursion that both native operations stand for, with what it does once the first word
-- has run out and with its operation on two digits: rounds to spare change nothing.
module _ (rest : ℕ → ℕ) (op : ℕ → ℕ → ℕ) where
  digits_one_more :
      (left w v : ℕ) → w ≤ left → digits rest op (suc left) w v ≡ digits rest op left w v
  digits_one_more zero zero v h = refl
  digits_one_more (suc left) zero v h = refl
  digits_one_more zero (suc w) v h = absurd (omega arith)
  digits_one_more (suc left) (suc w) v h =
      let half = suc w / 2 in omega (arith, digits_one_more left half (v / 2) (omega arith))

  digits_spare :
      (extra left all w v : ℕ)
      → extra + left ≡ all
      → w ≤ left
      → digits rest op all w v ≡ digits rest op left w v
  digits_spare zero left all w v e h = let same : all ≡ left = omega arith in rw same refl
  digits_spare (suc extra) left all w v e h =
      let more = suc (extra + left) in
      let same : all ≡ more = omega arith in
      rw same (
        digits_one_more (extra + left) w v (omega arith)
        ∙ digits_spare extra left (extra + left) w v refl h)

pub zero-bit_and : (m : ℕ) → bit_and 0 m ≡ 0
zero-bit_and = bit_and-bitwise 0

zero-bit_or : (m : ℕ) → bit_or 0 m ≡ m
zero-bit_or = bit_or-bitwise 0

pub bit_and_step : (w m : ℕ) → bit_and w m ≡ bit_and (w / 2) (m / 2) * 2 + min (w % 2) (m % 2)
bit_and_step zero m = omega (arith, zero-bit_and (m / 2), zero-bit_and m)
bit_and_step (suc w) m =
    let half = suc w / 2 in
    let spare =
      digits_spare (λ v. zero) min (w - half) half w half (m / 2) (omega arith) (omega arith) in
    omega (arith, bit_and-bitwise half (m / 2), bit_and-bitwise (suc w) m, spare)

pub bit_or_step : (w m : ℕ) → bit_or w m ≡ bit_or (w / 2) (m / 2) * 2 + max (w % 2) (m % 2)
bit_or_step zero m = omega (arith, zero-bit_or (m / 2), zero-bit_or m)
bit_or_step (suc w) m =
    let half = suc w / 2 in
    let spare =
      digits_spare (λ v. v) max (w - half) half w half (m / 2) (omega arith) (omega arith) in
    omega (arith, bit_or-bitwise half (m / 2), bit_or-bitwise (suc w) m, spare)

pub bit_and-le : (n w m : ℕ) → w ≤ n → bit_and w m ≤ w
bit_and-le n zero m h = omega (arith, zero-bit_and m)
bit_and-le zero (suc w) m h = absurd (omega arith)
bit_and-le (suc n) (suc w) m h =
    omega (arith, bit_and_step (suc w) m, bit_and-le n (suc w / 2) (m / 2) (omega arith))

pub bit_and-le_right : (n w m : ℕ) → w ≤ n → bit_and w m ≤ m
bit_and-le_right n zero m h = omega (arith, zero-bit_and m)
bit_and-le_right zero (suc w) m h = absurd (omega arith)
bit_and-le_right (suc n) (suc w) m h =
    omega (arith, bit_and_step (suc w) m, bit_and-le_right n (suc w / 2) (m / 2) (omega arith))

bit_and-zero : (w : ℕ) → bit_and w 0 ≡ 0
bit_and-zero w = omega (arith, bit_and-le_right w w 0 (omega arith))

test_bit-zero : (w : ℕ) → test_bit w 0 ≡ (w % 2 == 1)
unfolding test_bit
test_bit-zero w = ground (arith, bit_and_step w 1, bit_and-zero (w / 2))

test_bit-suc : (w p : ℕ) → test_bit w (suc p) ≡ test_bit (w / 2) p
unfolding test_bit
test_bit-suc w p = ground (arith, bit_and_step w (2 ^ suc p), halved, even)
  where
    halved : 2 ^ suc p / 2 ≡ 2 ^ p
    halved = omega (arith, pow-suc 2 p)

    even : 2 ^ suc p % 2 ≡ 0
    even = omega (arith, pow-suc 2 p)

-- A word's bit at `suc p` is the bit at `p` of the word without its lowest digit.
abbrev digit_sum : ℕ → ℕ → ℕ
digit_sum h d = h * 2 + d

test_bit_low : (h d : ℕ) → d < 2 → test_bit (h * 2 + d) 0 ≡ (d == 1)
test_bit_low h d s = ground (arith, test_bit-zero (h * 2 + d), low)
  where
    low : (h * 2 + d) % 2 ≡ d
    low = omega arith

test_bit_high : (h d p : ℕ) → d < 2 → test_bit (h * 2 + d) (suc p) ≡ test_bit h p
test_bit_high h d p s = ground (arith, test_bit-suc (h * 2 + d) p, high)
  where
    high : (h * 2 + d) / 2 ≡ h
    high = omega arith

pub and_not_step :
    (a b : ℕ) → and_not a b ≡ and_not (a / 2) (b / 2) * 2 + (a % 2 - min (a % 2) (b % 2))
unfolding and_not
and_not_step a b = omega (arith, bit_and_step a b, bit_and-le (a / 2) (a / 2) (b / 2))

pub test_bit-bit_and : (a b q : ℕ) → test_bit (bit_and a b) q ≡ (test_bit a q && test_bit b q)
test_bit-bit_and a b zero = ground (
  arith,
  bit_and_step a b,
  test_bit_low (bit_and (a / 2) (b / 2)) (min (a % 2) (b % 2)),
  test_bit-zero a,
  test_bit-zero b,
)
test_bit-bit_and a b (suc q) = ground (
  arith,
  bit_and_step a b,
  test_bit_high (bit_and (a / 2) (b / 2)) (min (a % 2) (b % 2)) q,
  test_bit-suc a q,
  test_bit-suc b q,
  test_bit-bit_and (a / 2) (b / 2) q,
)

pub test_bit-bit_or : (a b q : ℕ) → test_bit (bit_or a b) q ≡ (test_bit a q || test_bit b q)
test_bit-bit_or a b zero = ground (
  arith,
  bit_or_step a b,
  test_bit_low (bit_or (a / 2) (b / 2)) (max (a % 2) (b % 2)),
  test_bit-zero a,
  test_bit-zero b,
)
test_bit-bit_or a b (suc q) = ground (
  arith,
  bit_or_step a b,
  test_bit_high (bit_or (a / 2) (b / 2)) (max (a % 2) (b % 2)) q,
  test_bit-suc a q,
  test_bit-suc b q,
  test_bit-bit_or (a / 2) (b / 2) q,
)

pub test_bit-and_not : (a b q : ℕ) → test_bit (and_not a b) q ≡ (test_bit a q && not (test_bit b q))
test_bit-and_not a b zero = ground (
  arith,
  and_not_step a b,
  test_bit_low (and_not (a / 2) (b / 2)) (a % 2 - min (a % 2) (b % 2)),
  test_bit-zero a,
  test_bit-zero b,
)
test_bit-and_not a b (suc q) = ground (
  arith,
  and_not_step a b,
  test_bit_high (and_not (a / 2) (b / 2)) (a % 2 - min (a % 2) (b % 2)) q,
  test_bit-suc a q,
  test_bit-suc b q,
  test_bit-and_not (a / 2) (b / 2) q,
)

pub zero-test_bit : (q : ℕ) → test_bit 0 q ≡ false
unfolding test_bit
zero-test_bit q = ground (arith, zero-bit_and (2 ^ q))

pub test_bit-pow : (p q : ℕ) → test_bit (2 ^ p) q ≡ (p == q)
test_bit-pow zero zero = ground (arith, test_bit-zero 1)
test_bit-pow zero (suc q) = ground (arith, test_bit-suc 1 q, zero-test_bit q)
test_bit-pow (suc p) zero =
    let e : 2 ^ suc p ≡ 2 ^ p * 2 + 0 = omega (arith, pow-suc 2 p) in
    rw e (ground (arith, test_bit_low (2 ^ p) 0))
test_bit-pow (suc p) (suc q) =
    let e : 2 ^ suc p ≡ 2 ^ p * 2 + 0 = omega (arith, pow-suc 2 p) in
    rw e (ground (arith, test_bit_high (2 ^ p) 0 q, test_bit-pow p q))

pub test_bit-set_bit : (w p q : ℕ) → test_bit (set_bit w p) q ≡ (test_bit w q || (p == q))
unfolding set_bit
test_bit-set_bit w p q = ground (arith, test_bit-bit_or w (2 ^ p) q, test_bit-pow p q)

pub test_bit-clear_bit : (w p q : ℕ) → test_bit (clear_bit w p) q ≡ (test_bit w q && not (p == q))
unfolding clear_bit
test_bit-clear_bit w p q =
    unfold and_not in ground (arith, test_bit-and_not w (2 ^ p) q, test_bit-pow p q)
