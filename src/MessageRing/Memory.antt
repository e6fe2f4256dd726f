-- ===== src/MessageRing/Memory.antt =====
-- The header and the rounding of sizes in kernel/tkernel/messagebuf.h.
use esp32c3_mtk.Prelude.{ℕ, ◌+◌, ◌*◌, ◌/◌, ◌%◌, ◌^◌, ◌<◌, ◌≡◌, arith}
use esp32c3_mtk.Bits.{and_not, and_not_step, bit_and-le_right}
use esp32c3_mtk.MessageRing.{roundsz, load_header, store_header}

-- The next multiple of 4.
abbrev pub padded : ℕ → ℕ
padded s = (s + 3) / 4 * 4

and_not-zero : (w : ℕ) → and_not w 0 ≡ w
unfolding and_not
and_not-zero w = omega (arith, bit_and-le_right w w 0 (omega arith))

and_not-three : (w : ℕ) → and_not w 3 ≡ w / 4 * 4
and_not-three w = omega (arith, and_not_step w 3, and_not_step (w / 2) 1, and_not-zero (w / 2 / 2))

-- `ROUNDSZ` rounds up to a multiple of 4, when the sum does not wrap around.
pub roundsz-padded : (s : ℕ) → s < 2 ^ 31 → roundsz s ≡ padded s
unfolding roundsz
roundsz-padded s h = omega (arith, and_not-three ((s + 3) % 2 ^ 32))

pub load_header-store_header :
    (buffer : ℕ → ℕ) (p v : ℕ) → v < 2 ^ 32 → load_header (store_header buffer p v) p ≡ v
unfolding load_header store_header
load_header-store_header buffer p v h = ground arith
