-- ===== src/Shim/Ring.antt =====
-- The ring buffer of components/freertos_shim/shim_queue.c: the parts of its functions that run with
-- interrupts off. Indices are 32-bit words.
pub mod Slots
pub mod Fifo
pub mod Length
use esp32c3_mtk.Prelude.{
  ℕ, ◌+◌, ◌-◌, ◌*◌, ◌%◌, ◌^◌, Bool, true, false, not, ◌&&◌, Option, none, some, leb, ltb, ◌==◌,
  if◌then◌else◌,
}
use esp32c3_mtk.MessageRing.{memcpy}
use esp32c3_mtk.Shim.{Queue}

abbrev pub word : ℕ
word = 2 ^ 32

-- `(i + 1) % cap`
abbrev pub next_index : ℕ → ℕ → ℕ
next_index cap i = (i + 1) % word % cap

-- `i * item_sz`
abbrev pub offset : Queue → ℕ → ℕ
offset q i = i * q.item_sz % word

-- The part of `queue_push` that runs with interrupts off.
unfoldable pub push : Queue → (ℕ → ℕ) → Bool → Queue × Bool
unfolding memcpy
push q item overwrite =
    let next = next_index q.cap q.tail in
    let full = next == q.head in
    if full && not overwrite then (q, false) else (
      record q {
        head = if full then next_index q.cap q.head else q.head;
        tail = next;
        storage = memcpy q.storage (offset q q.tail) item 0 q.item_sz;
      },
      true,
    )

-- `memcpy(buf, p->data + p->head * p->item_sz, p->item_sz)`, unless `buf` is NULL.
abbrev pub copy_out : Queue → Option (ℕ → ℕ) → Option (ℕ → ℕ)
copy_out q none = none
copy_out q (some buf) = some (memcpy buf 0 q.storage (offset q q.head) q.item_sz)

-- The part of `queue_pop` that runs with interrupts off.
unfoldable pub pop : Queue → Option (ℕ → ℕ) → Queue × Bool × Option (ℕ → ℕ)
unfolding memcpy
pop q buf =
    if q.head == q.tail
    then (q, false, buf)
    else (record q { head = next_index q.cap q.head }, true, copy_out q buf)

-- The reading part of `xQueuePeek`, and of `xQueuePeekFromISR`.
unfoldable pub peek : Queue → Option (ℕ → ℕ) → Bool × Option (ℕ → ℕ)
unfolding memcpy
peek q buf = if q.head == q.tail then (false, buf) else (true, copy_out q buf)

-- `uxQueueMessagesWaiting`, of a queue.
unfoldable pub messages_waiting : Queue → ℕ
messages_waiting q =
    if leb q.head q.tail then q.tail - q.head else (q.cap + word - q.head + q.tail) % word

-- `uxQueueSpacesAvailable`, of a queue.
unfoldable pub spaces_available : Queue → ℕ
unfolding messages_waiting
spaces_available q = let used = messages_waiting q in if ltb used q.cap then q.cap - used - 1 else 0

-- `xQueueReset`, of a queue.
unfoldable pub reset : Queue → Queue
reset q = record q { head = 0; tail = 0 }
