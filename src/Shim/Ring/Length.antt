-- ===== src/Shim/Ring/Length.antt =====
-- The number of items in the ring buffer of components/freertos_shim/shim_queue.c.
use esp32c3_mtk.Prelude.{ℕ, ◌+◌, ◌%◌, ◌^◌, ◌≡◌, true, false, List, length, arith, ap, ◌∙◌}
use esp32c3_mtk.Shim.{Queue}
use esp32c3_mtk.Shim.Ring.{push, messages_waiting, spaces_available}
use esp32c3_mtk.Shim.Ring.Fifo.{Holds}

-- x
pub messages_waiting-eq-length :
    (q : Queue) (xs : List (ℕ → ℕ))
    → Holds q xs
    → (messages_waiting q ≡ length xs) × (spaces_available q + length xs + 1 ≡ q.cap)
unfolding messages_waiting spaces_available
messages_waiting-eq-length q xs v = (ground (arith, v.tail_at), ground (arith, v.tail_at))

pub mod_one : (n : ℕ) → n % 1 ≡ 0
mod_one n = omega arith

-- x
pub push_one_slot :
    (q : Queue) (item : ℕ → ℕ)
    → q.cap ≡ 1
    → q.head ≡ 0
    → (push q item false ≡ (q, false))
      × ((push q item true).1 ≡ true)
      × (messages_waiting (push q item true).0 ≡ 0)
unfolding push messages_waiting
push_one_slot q item h z =
    let zero_mod = λ (n : ℕ). ap (λ c. n % c) h ∙ mod_one n in
    ground (arith, zero_mod ((q.tail + 1) % 2 ^ 32), zero_mod ((q.head + 1) % 2 ^ 32), z)
