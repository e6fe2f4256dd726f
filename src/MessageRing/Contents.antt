-- ===== src/MessageRing/Contents.antt =====
-- The messages that the ring of a message buffer holds (kernel/tkernel/messagebuf.c).
use esp32c3_mtk.Prelude.{
  ℕ, ◌+◌, ◌-◌, ◌%◌, ◌^◌, ◌≤◌, ◌<◌, ◌≡◌, refl, ◌∙◌, subst, sym, List, [], ◌∷◌, ◌++◌, ltb,
  if◌then◌else◌, arith,
}
use esp32c3_mtk.Types.{Message, Mbfcb}
use esp32c3_mtk.MessageRing.{load_header}
use esp32c3_mtk.MessageRing.Memory.{padded}

-- The place of a position that has gone round at most once.
abbrev pub wrapped : ℕ → ℕ → ℕ
wrapped n p = if ltb p n then p else p - n

-- The bytes that messages take, with their headers.
abbrev pub total : List Message → ℕ
total [] = 0
total (m ∷ ms) = 4 + padded m.size + total ms

-- The bytes of a message stand in the ring of `n` bytes from position `p` on.
abbrev pub HasBytes : (ℕ → ℕ) → ℕ → ℕ → Message → Type 0
HasBytes buffer n p m = (j : ℕ) → j < m.size → buffer (wrapped n (p + j)) ≡ m.byte j

-- Messages stand in the ring one behind the other, each behind its size.
unfoldable pub Stored : (ℕ → ℕ) → ℕ → ℕ → List Message → Type 0
Stored buffer n p [] = Unit
Stored buffer n p (m ∷ ms) =
    (load_header buffer p ≡ m.size)
    × HasBytes buffer n (p + 4) m
    × Stored buffer n (wrapped n (p + 4 + padded m.size)) ms

-- The control block holds exactly these messages, the oldest first. A position in a buffer of no
-- bytes is 0.
pub record IsRing (b : Mbfcb) (ms : List Message) : Type 0 where
  pub aligned : b.bufsz % 4 ≡ 0
  pub small : b.bufsz < 2 ^ 31
  pub head_in : b.head ≤ b.bufsz - 1
  pub head_aligned : b.head % 4 ≡ 0
  pub used : b.frbufsz + total ms ≡ b.bufsz
  pub tail_at : b.tail ≡ wrapped b.bufsz (b.head + total ms)
  pub stored : Stored b.buffer b.bufsz b.head ms

pub total_aligned : (ms : List Message) → total ms % 4 ≡ 0
total_aligned [] = refl
total_aligned (m ∷ ms) = omega (arith, total_aligned ms)

pub total-append : (xs ys : List Message) → total (xs ++ ys) ≡ total xs + total ys
total-append [] ys = omega arith
total-append (m ∷ xs) ys = omega (arith, total-append xs ys)

-- Two memories agree on `l` bytes of the ring from position `p` on.
abbrev pub Agree : (ℕ → ℕ) → (ℕ → ℕ) → ℕ → ℕ → ℕ → Type 0
Agree buffer buffer' n p l =
    (j : ℕ) → j < l → buffer' (wrapped n (p + j)) ≡ buffer (wrapped n (p + j))

-- Steps round the ring add up.
pub wrapped-add :
    (n p s j : ℕ) → p < n → s + j ≤ n → wrapped n (wrapped n (p + s) + j) ≡ wrapped n (p + (s + j))
wrapped-add n p s j h l = ground arith

pub wrapped_lt : (n p s : ℕ) → p < n → s ≤ n → wrapped n (p + s) < n
wrapped_lt n p s h l = ground arith

pub wrapped_aligned : (n p s : ℕ) → n % 4 ≡ 0 → p % 4 ≡ 0 → s % 4 ≡ 0 → wrapped n (p + s) % 4 ≡ 0
wrapped_aligned n p s a b c = ground arith

module _ (buffer buffer' : ℕ → ℕ) (n : ℕ) (four : n % 4 ≡ 0) where
  Agree-shift :
      (p s l : ℕ)
      → p < n
      → s + l ≤ n
      → Agree buffer buffer' n p (s + l)
      → Agree buffer buffer' n (wrapped n (p + s)) l
  Agree-shift p s l h b a j lt = rw (wrapped-add n p s j h (omega arith)) (a (s + j) (omega arith))

  Agree-byte :
      (p l q : ℕ) → Agree buffer buffer' n p l → p ≤ q → q < p + l → q < n → buffer' q ≡ buffer q
  Agree-byte p l q a g h b =
      let at : p + (q - p) ≡ q = omega arith in
      let inside : wrapped n q ≡ q = ground arith in
      subst (λ x. buffer' x ≡ buffer x) inside
        (subst (λ x. buffer' (wrapped n x) ≡ buffer (wrapped n x)) at (a (q - p) (omega arith)))

  load_header-Agree :
      (p l : ℕ)
      → p + 4 ≤ n
      → 4 ≤ l
      → Agree buffer buffer' n p l
      → load_header buffer' p ≡ load_header buffer p
  unfolding load_header
  load_header-Agree p l h f a = omega (
    arith,
    Agree-byte p l p a (omega arith) (omega arith) (omega arith),
    Agree-byte p l (p + 1) a (omega arith) (omega arith) (omega arith),
    Agree-byte p l (p + 2) a (omega arith) (omega arith) (omega arith),
    Agree-byte p l (p + 3) a (omega arith) (omega arith) (omega arith),
  )

  HasBytes-Agree :
      (p l : ℕ) (m : Message)
      → p < n
      → 4 + m.size ≤ l
      → Agree buffer buffer' n p l
      → HasBytes buffer n (p + 4) m
      → HasBytes buffer' n (p + 4) m
  HasBytes-Agree p l m h b a s j lt =
      let at : p + 4 + j ≡ p + (4 + j) = omega arith in
      subst (λ x. buffer' (wrapped n x) ≡ m.byte j) (sym at)
        (a (4 + j) (omega arith) ∙ subst (λ x. buffer (wrapped n x) ≡ m.byte j) at (s j lt))

  -- What the ring holds depends on no other bytes.
  pub Stored-Agree :
      (ms : List Message) (p l : ℕ)
      → p < n
      → p % 4 ≡ 0
      → total ms ≤ l
      → l ≤ n
      → Agree buffer buffer' n p l
      → Stored buffer n p ms
      → Stored buffer' n p ms
  unfolding Stored
  Stored-Agree [] p l h d t b a s = tt
  Stored-Agree (m ∷ ms) p l h d t b a s =
      let step = 4 + padded m.size in
      let at : p + 4 + padded m.size ≡ p + step = omega arith in
      (
        load_header-Agree p l (omega arith) (omega arith) a ∙ s.0,
        HasBytes-Agree p l m h (omega arith) a s.1,
        rw at (
            Stored-Agree ms (wrapped n (p + step)) (total ms) (wrapped_lt n p step h (omega arith))
              (wrapped_aligned n p step four d (omega arith)) (omega arith) (omega arith)
              (Agree-shift p step (total ms) h (omega arith) (λ j lt. a j (omega arith)))
              (rw (← at) s.2)),
      )

-- A message behind the others.
pub Stored-snoc :
    (buffer : ℕ → ℕ) (n : ℕ) (ms : List Message) (m : Message) (p : ℕ)
    → p < n
    → total ms < n
    → Stored buffer n p ms
    → load_header buffer (wrapped n (p + total ms)) ≡ m.size
    → HasBytes buffer n (wrapped n (p + total ms) + 4) m
    → Stored buffer n p (ms ++ m ∷ [])
unfolding Stored
Stored-snoc buffer n [] m p h t s l b =
    let at : wrapped n (p + 0) ≡ p = ground arith in (rw (← at) l, rw (← at) b, tt)
Stored-snoc buffer n (x ∷ ms) m p h t s l b =
    let step = 4 + padded x.size in
    let at : p + 4 + padded x.size ≡ p + step = omega arith in
    let on = wrapped-add n p step (total ms) h (omega arith) in
    (
      s.0,
      s.1,
      rw at (
          Stored-snoc buffer n ms m (wrapped n (p + step)) (wrapped_lt n p step h (omega arith))
            (omega arith) (rw (← at) s.2) (rw on l) (rw on b)),
    )
