-- ===== src/Shim/Ring/Fifo.antt =====
-- The ring buffer of components/freertos_shim/shim_queue.c is a first-in first-out queue of items,
-- one fewer than its slots.
use esp32c3_mtk.Prelude.{
  ℕ, ◌+◌, ◌*◌, ◌%◌, ◌^◌, ◌≤◌, ◌<◌, ◌≡◌, Bool, true, false, List, [], ◌∷◌, ◌++◌, Option, some, ltb,
  length, if◌then◌else◌, arith, ap, sym, subst, ◌∙◌, fun_ext, Bool-cases, inl, inr, length-append,
  ◌==◌,
}
use esp32c3_mtk.Shim.{Queue}
use esp32c3_mtk.MessageRing.Contents.{wrapped, wrapped_lt}
use esp32c3_mtk.MessageRing.{memcpy}
use esp32c3_mtk.Shim.Ring.{word, next_index, offset, push, pop, copy_out}
use esp32c3_mtk.Shim.Ring.Slots.{
  next_index-wrapped, Stored, memcpy-slot, Stored-memcpy, Stored-append,
}

-- A queue holds `xs`, the oldest first.
pub record Holds (q : Queue) (xs : List (ℕ → ℕ)) : Type 0 where
  pub few : length xs < q.cap
  pub cap_in : q.cap < 2 ^ 32
  pub fits : q.cap * q.item_sz < 2 ^ 32
  pub head_in : q.head < q.cap
  pub tail_at : q.tail ≡ wrapped q.cap (q.head + length xs)
  pub stored : Stored q.storage q.cap q.item_sz q.head xs

slot_fits : (n s p : ℕ) → p < n → n * s < 2 ^ 32 → p * s % word ≡ p * s
slot_fits n s p h l = let lt : p * s ≤ n * s = grind arith in omega arith

-- Whether the ring is full, as the code tests it.
pub full-length :
    (q : Queue) (xs : List (ℕ → ℕ))
    → Holds q xs
    → (next_index q.cap q.tail ≡ wrapped q.cap (q.head + (length xs + 1)))
full-length q xs v =
    next_index-wrapped q.cap q.tail (ground (arith, v.tail_at)) v.cap_in ∙ ground (arith, v.tail_at)

-- The item goes into the slot at `tail`.
abbrev placed : Queue → (ℕ → ℕ) → Queue
placed q item = record q {
  tail = next_index q.cap q.tail;
  storage = memcpy q.storage (offset q q.tail) item 0 q.item_sz;
}

placed-Holds :
    (q : Queue) (xs : List (ℕ → ℕ)) (item : ℕ → ℕ)
    → Holds q xs
    → length xs + 1 < q.cap
    → Holds (placed q item) (xs ++ item ∷ [])
placed-Holds q xs item v more =
    let t = wrapped q.cap (q.head + length xs) in
    let at : offset q q.tail ≡ t * q.item_sz =
      ap (λ p. offset q p) v.tail_at
      ∙ slot_fits q.cap q.item_sz t (wrapped_lt q.cap q.head (length xs) v.head_in (omega arith))
          v.fits in
    let longer = length-append xs (item ∷ []) in
    record {
      few = omega (arith, longer);
      cap_in = v.cap_in;
      fits = v.fits;
      head_in = v.head_in;
      tail_at =
          full-length q xs v ∙ ap (λ n. wrapped q.cap (q.head + n)) (sym (omega (arith, longer)));
      stored =
          subst
            (λ p.
              Stored (memcpy q.storage p item 0 q.item_sz) q.cap q.item_sz q.head (xs ++ item ∷ []))
            (sym at)
            (Stored-append (memcpy q.storage (t * q.item_sz) item 0 q.item_sz) item q.cap q.item_sz
              q.head xs v.head_in v.few
              (Stored-memcpy q.storage item q.cap q.item_sz q.head (length xs) xs v.head_in v.few
                (omega arith) v.stored)
              (memcpy-slot q.storage item q.item_sz t));
    }

-- The oldest item goes.
abbrev dropped : Queue → Queue
dropped q = record q { head = next_index q.cap q.head }

dropped-Holds :
    (q : Queue) (x : ℕ → ℕ) (xs : List (ℕ → ℕ)) → Holds q (x ∷ xs) → Holds (dropped q) xs
unfolding Stored
dropped-Holds q x xs v =
    let h : next_index q.cap q.head ≡ wrapped q.cap (q.head + 1) =
      next_index-wrapped q.cap q.head v.head_in v.cap_in in
    record {
      few = omega arith;
      cap_in = v.cap_in;
      fits = v.fits;
      head_in = subst (λ p. p < q.cap) (sym h) (wrapped_lt q.cap q.head 1 v.head_in (omega arith));
      tail_at =
          subst (λ p. q.tail ≡ wrapped q.cap (p + length xs)) (sym h) (ground (arith, v.tail_at));
      stored = subst (λ p. Stored q.storage q.cap q.item_sz p xs) (sym h) v.stored.1;
    }

abbrev is_full : Queue → Bool
is_full q = next_index q.cap q.tail == q.head

push_room :
    (q : Queue) (item : ℕ → ℕ) → is_full q ≡ false → push q item false ≡ (placed q item, true)
unfolding push
push_room q item e = ground (arith, e)

push_full : (q : Queue) (item : ℕ → ℕ) → is_full q ≡ true → push q item false ≡ (q, false)
unfolding push
push_full q item e = ground (arith, e)

push_over :
    (q : Queue) (item : ℕ → ℕ)
    → is_full q ≡ true
    → push q item true ≡ (placed (dropped q) item, true)
unfolding push
push_over q item e = ground (arith, e)

-- The ring buffer of a queue that holds items, fewer than its slots, takes one more behind them as
-- long as more than one slot is free: `queue_push` without overwriting returns true and the ring
-- holds the items and then the new one, also where the indices go round. With one free slot it is
-- full: the push returns false and changes nothing.
pub push-Holds :
    (q : Queue) (xs : List (ℕ → ℕ)) (item : ℕ → ℕ)
    → Holds q xs
    → if ltb (length xs + 1) q.cap
      then ((push q item false).1 ≡ true) × Holds (push q item false).0 (xs ++ item ∷ [])
      else (push q item false ≡ (q, false))
push-Holds q xs item v =
    let tail_next = full-length q xs v in
    elim (Bool-cases (ltb (length xs + 1) q.cap)) [
      | inl e ↦
          let r = push_room q item (ground (arith, tail_next)) in
          rw e (
            ap (λ (o : Queue × Bool). o.1) r,
            subst (λ (o : Queue × Bool). Holds o.0 (xs ++ item ∷ [])) (sym r)
                (placed-Holds q xs item v (ground arith)),
          )
      | inr e ↦ rw e (push_full q item (ground (arith, tail_next)))
    ]

-- x
pub push-overwrites :
    (q : Queue) (x item : ℕ → ℕ) (xs : List (ℕ → ℕ))
    → Holds q (x ∷ xs)
    → length xs + 2 ≡ q.cap
    → ((push q item true).1 ≡ true) × Holds (push q item true).0 (xs ++ item ∷ [])
push-overwrites q x item xs v full =
    let r = push_over q item (ground (arith, full-length q (x ∷ xs) v)) in
    (
      ap (λ (o : Queue × Bool). o.1) r,
      subst (λ (o : Queue × Bool). Holds o.0 (xs ++ item ∷ [])) (sym r)
          (placed-Holds (dropped q) xs item (dropped-Holds q x xs v) (omega arith)),
    )

pop_some :
    (q : Queue) (buf : Option (ℕ → ℕ))
    → q.head == q.tail ≡ false
    → pop q buf ≡ (dropped q, true, copy_out q buf)
unfolding pop
pop_some q buf e = ground (arith, e)

-- When the ring buffer of a queue holds an item and others behind it, `queue_pop` copies the bytes
-- of the first item into the buffer of its caller, changes no other byte of that buffer, and
-- leaves the others in the ring.
pub pop-oldest :
    (q : Queue) (x buf : ℕ → ℕ) (xs : List (ℕ → ℕ))
    → Holds q (x ∷ xs)
    → let out = pop q (some buf) in
      (out.1 ≡ true) × (out.2 ≡ some (λ j. if ltb j q.item_sz then x j else buf j)) × Holds out.0 xs
unfolding Stored memcpy
pop-oldest q x buf xs v =
    let r = pop_some q (some buf) (ground (arith, v.tail_at)) in
    let at = slot_fits q.cap q.item_sz q.head v.head_in v.fits in
    let copied : copy_out q (some buf) ≡ some (λ j. if ltb j q.item_sz then x j else buf j) =
      ap some (fun_ext (λ j. ground (arith, at, v.stored.0 j))) in
    (
      ap (λ (o : Queue × Bool × Option (ℕ → ℕ)). o.1) r,
      ap (λ (o : Queue × Bool × Option (ℕ → ℕ)). o.2) r ∙ copied,
      subst (λ (o : Queue × Bool × Option (ℕ → ℕ)). Holds o.0 xs) (sym r) (dropped-Holds q x xs v),
    )

-- x
pub pop_empty : (q : Queue) (buf : Option (ℕ → ℕ)) → Holds q [] → pop q buf ≡ (q, false, buf)
unfolding pop
pop_empty q buf v = ground (arith, v.tail_at)
