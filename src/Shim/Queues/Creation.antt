-- ===== src/Shim/Queues/Creation.antt =====
-- Queues that `xQueueGenericCreate` of components/freertos_shim/shim_queue.c has made.
use esp32c3_mtk.Prelude.{
  ℕ, ◌*◌, ◌^◌, ◌≤◌, ◌<◌, ◌≡◌, ◌≢◌, refl, sym, ap, ◌∙◌, Bool, true, false, [], some, ◌==◌, arith,
}
use esp32c3_mtk.Kernel.{Kernel}
use esp32c3_mtk.Shim.{Queue, Object, queue, Shim}
use esp32c3_mtk.Shim.Ring.Fifo.{Holds}
use esp32c3_mtk.Shim.Ring.Slots.{Stored}
use esp32c3_mtk.Shim.Queues.{init_in, installed, create_queue, queue_init, generic_create}

-- An empty ring of `len` slots.
empty_ring-Holds :
    (p : Queue)
    → p.head ≡ 0
    → p.tail ≡ 0
    → 1 ≤ p.cap
    → p.cap < 2 ^ 32
    → p.cap * p.item_sz < 2 ^ 32
    → Holds p []
unfolding Stored
empty_ring-Holds p h t c1 c2 f = record {
  few = omega arith;
  cap_in = c2;
  fits = f;
  head_in = omega arith;
  tail_at = ground (arith, h, t);
  stored = tt;
}

installed_made :
    (s : Shim) (address : ℕ) (k : Kernel) (o : Object) (made : Bool)
    → address ≢ 0
    → (installed s address k o made).1 ≡ address
    → (installed s address k o made).0.objects address ≡ o
installed_made s address k o true na e = ground arith
installed_made s address k o false na e = absurd (na (sym e))

generic_create-queue :
    (s : Shim) (address len item_sz : ℕ) (storage : ℕ → ℕ)
    → address ≢ 0
    → item_sz ≢ 0
    → generic_create address (some storage) s len item_sz 0
      ≡ create_queue s address (some (init_in s.kernel len item_sz storage))
unfolding generic_create queue_init
generic_create-queue s address len item_sz storage na ni =
    let a : address == 0 ≡ false = ground (arith, na) in
    let i : item_sz == 0 ≡ false = ground (arith, ni) in rw (a, i) refl

-- x
pub generic_create-Holds :
    (s : Shim) (address len item_sz : ℕ) (storage : ℕ → ℕ)
    → address ≢ 0
    → item_sz ≢ 0
    → 1 ≤ len
    → len < 2 ^ 32
    → len * item_sz < 2 ^ 32
    → let made = generic_create address (some storage) s len item_sz 0 in
      made.1 ≡ address
      → (p : Queue) × (made.0.objects address ≡ queue p)
        × (p.cap ≡ len)
        × (p.item_sz ≡ item_sz)
        × Holds p []
generic_create-Holds s address len item_sz storage na ni pos_len small fits made =
    let r = init_in s.kernel len item_sz storage in
    let same = generic_create-queue s address len item_sz storage na ni in
    (
      r.1,
      ap (λ (o : Shim × ℕ). o.0.objects address) same
          ∙ installed_made s address r.0 (queue r.1) r.2 na
              (ap (λ (o : Shim × ℕ). o.1) (sym same) ∙ made),
      refl,
      refl,
      empty_ring-Holds r.1 refl refl pos_len small fits,
    )
