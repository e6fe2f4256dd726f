-- ===== src/FixedPool/Blocks.antt =====
-- The blocks of a pool of kernel/tkernel/mempfix.c: those in the chain of free blocks, those that tasks
-- hold, and those that were never handed out.
use esp32c3_mtk.Prelude.{
  ℕ, zero, suc, ◌+◌, ◌≤◌, ◌<◌, ◌≡◌, refl, sym, ap, subst, true, false, List, [], ◌∷◌, ◌==◌,
  contains, without, all_distinct, length, arith, Bool-cases, inl, inr, contains-without_self,
  contains-without_ne, all_distinct-without, without_absent,
}
use esp32c3_mtk.Types.{Mpfcb}
use esp32c3_mtk.Kernel.{update}
use esp32c3_mtk.FixedPool.{take_block, put_block}

-- The address of the n-th block.
abbrev pub block_at : ℕ → ℕ → ℕ → ℕ
block_at mempool blfsz zero = mempool
block_at mempool blfsz (suc n) = block_at mempool blfsz n + blfsz

-- The free blocks, from the head of their chain on.
abbrev pub IsChain : (ℕ → ℕ) → ℕ → List ℕ → Type 0
IsChain link head [] = head ≡ 0
IsChain link head (b ∷ bs) = (head ≡ b) × IsChain link (link b) bs

-- One of the first `n` blocks of the pool.
abbrev pub IsBlock : Mpfcb → ℕ → ℕ → Type 0
IsBlock c n b = (j : ℕ) × (j < n) × (b ≡ block_at c.mempool c.blfsz j)

-- A pool of which `carved` blocks were handed out at some time: `free` are the free ones of them, and
-- `held` the others.
pub record IsPool (c : Mpfcb) (carved : ℕ) (free held : List ℕ) : Type 0 where
  pub not_null : 0 < c.mempool
  pub size : 0 < c.blfsz
  pub within : carved ≤ c.mpfcnt
  pub unused_at : c.unused ≡ block_at c.mempool c.blfsz carved
  pub chain : IsChain c.link c.freelist free
  pub count : c.frbcnt + carved ≡ length free + c.mpfcnt
  pub balance : c.frbcnt + length held ≡ c.mpfcnt
  pub free_distinct : all_distinct free ≡ true
  pub held_distinct : all_distinct held ≡ true
  pub apart : (b : ℕ) → contains b free ≡ true → contains b held ≡ false
  pub free_blocks : (b : ℕ) → contains b free ≡ true → IsBlock c carved b
  pub held_blocks : (b : ℕ) → contains b held ≡ true → IsBlock c carved b

-- The state of a pool, of whose blocks tasks hold `held`.
pub record IsSharedOut (c : Mpfcb) (held : List ℕ) : Type 0 where
  pub carved : ℕ
  pub free : List ℕ
  pub pool : IsPool c carved free held

block_at-le : (m s n : ℕ) → m ≤ block_at m s n
block_at-le m s zero = omega arith
block_at-le m s (suc n) = omega (arith, block_at-le m s n)

block_at-lt : (m s j n : ℕ) → 0 < s → j < n → block_at m s j < block_at m s n
block_at-lt m s j zero p l = absurd (omega arith)
block_at-lt m s j (suc n) p l = elim (Bool-cases (j == n)) [
  | inl e ↦ let same : j ≡ n = ground (arith, e) in rw same (omega (arith, p))
  | inr ne ↦ omega (arith, block_at-lt m s j n p (ground (arith, ne, l)), p)
]

-- A link outside of the chain may change.
IsChain-update :
    (link : ℕ → ℕ) (b v head : ℕ) (bs : List ℕ)
    → contains b bs ≡ false
    → IsChain link head bs
    → IsChain (update link b v) head bs
IsChain-update link b v head [] c h = h
IsChain-update link b v head (x ∷ xs) c h =
    let other : update link b v x ≡ link x = ground (arith, c) in
    (h.0, rw other (IsChain-update link b v (link x) xs (ground (arith, c)) h.1))

IsBlock-more : (c : Mpfcb) (n b : ℕ) → IsBlock c n b → IsBlock c (suc n) b
IsBlock-more c n b (j, l, e) = (j, omega (arith, l), e)

-- The next block that was never handed out is none of those that were.
fresh :
    (c : Mpfcb) (n : ℕ) (held : List ℕ)
    → 0 < c.blfsz
    → ((b : ℕ) → contains b held ≡ true → IsBlock c n b)
    → contains (block_at c.mempool c.blfsz n) held ≡ false
fresh c n held p h = elim (Bool-cases (contains (block_at c.mempool c.blfsz n) held)) [
  | inl e ↦
      let (j, l, at) = h (block_at c.mempool c.blfsz n) e in
      absurd (omega (arith, block_at-lt c.mempool c.blfsz j n p l, at))
  | inr e ↦ e
]

module _ (c : Mpfcb) (n : ℕ) (held : List ℕ) where
  take_free :
      (b : ℕ) (bs : List ℕ)
      → IsPool c n (b ∷ bs) held
      → (c.frbcnt == 0) ≡ false
      → ((take_block c).1 ≡ b) × IsPool (take_block c).0 n bs (b ∷ held)
  unfolding take_block
  take_free b bs v z =
      let (j, l, at) = v.free_blocks b (ground arith) in
      let above = block_at-le c.mempool c.blfsz j in
      let some_free : (c.freelist == 0) ≡ false =
        ground (arith, v.chain.0, at, above, v.not_null) in
      let first = v.free_distinct in
      rw some_free (
        v.chain.0,
        record {
          not_null = v.not_null;
          size = v.size;
          within = v.within;
          unused_at = v.unused_at;
          chain = rw v.chain.0 v.chain.1;
          count = ground (arith, v.count, z);
          balance = ground (arith, v.balance, z);
          free_distinct = ground (arith, first);
          held_distinct = ground (arith, v.held_distinct, v.apart b);
          apart = λ x m. ground (arith, v.apart x, m, first);
          free_blocks = λ x m. v.free_blocks x (ground (arith, m));
          held_blocks = λ x m. elim (Bool-cases (b == x)) [
            | inl e ↦ v.free_blocks x (ground (arith, e))
            | inr ne ↦ v.held_blocks x (ground (arith, ne, m))
          ];
        },
      )

  take_fresh :
      IsPool c n [] held
      → (c.frbcnt == 0) ≡ false
      → ((take_block c).1 ≡ block_at c.mempool c.blfsz n)
        × IsPool (take_block c).0 (suc n) [] (block_at c.mempool c.blfsz n ∷ held)
  unfolding take_block
  take_fresh v z =
      let next = block_at c.mempool c.blfsz n in
      let none_free : (c.freelist == 0) ≡ true = ground (arith, v.chain) in
      let new = fresh c n held v.size v.held_blocks in
      rw none_free (
        v.unused_at,
        record {
          not_null = v.not_null;
          size = v.size;
          within = ground (arith, v.count, z);
          unused_at = ap (λ u. u + c.blfsz) v.unused_at;
          chain = v.chain;
          count = ground (arith, v.count, z);
          balance = ground (arith, v.balance, z);
          free_distinct = refl;
          held_distinct = ground (arith, v.held_distinct, new);
          apart = λ x m. absurd (ground (arith, m));
          free_blocks = λ x m. absurd (ground (arith, m));
          held_blocks = λ x m. elim (Bool-cases (next == x)) [
            | inl e ↦ (n, omega arith, ground (arith, e))
            | inr ne ↦ IsBlock-more c n x (v.held_blocks x (ground (arith, ne, m)))
          ];
        },
      )

-- x
pub take_block-IsSharedOut :
    (c : Mpfcb) (held : List ℕ)
    → IsSharedOut c held
    → (c.frbcnt == 0) ≡ false
    → (contains (take_block c).1 held ≡ false)
      × IsSharedOut (take_block c).0 ((take_block c).1 ∷ held)
take_block-IsSharedOut c held v z = by v.free v.pool
  where
    by :
        (free : List ℕ)
        → IsPool c v.carved free held
        → (contains (take_block c).1 held ≡ false)
          × IsSharedOut (take_block c).0 ((take_block c).1 ∷ held)
    by [] p =
        let (e, q) = take_fresh c v.carved held p z in
        (
          rw e (fresh c v.carved held p.size p.held_blocks),
          rw e (record { carved = suc v.carved; free = []; pool = q }),
        )
    by (b ∷ bs) p =
        let (e, q) = take_free c v.carved held b bs p z in
        (rw e (p.apart b (ground arith)), rw e (record { carved = v.carved; free = bs; pool = q }))

length-without :
    (b : ℕ) (xs : List ℕ)
    → all_distinct xs ≡ true
    → contains b xs ≡ true
    → length (without b xs) + 1 ≡ length xs
length-without b [] d c = absurd (ground (arith, c))
length-without b (x ∷ xs) d c = elim (Bool-cases (x == b)) [
  | inl e ↦
      let gone : contains b xs ≡ false = ground (arith, d, e) in
      rw e (omega (arith, ap length (without_absent b xs gone)))
  | inr n ↦ rw n (omega (arith, length-without b xs (ground (arith, d)) (ground (arith, c, n))))
]

-- x
pub put_block-IsSharedOut :
    (c : Mpfcb) (b : ℕ) (held : List ℕ)
    → IsSharedOut c held
    → contains b held ≡ true
    → IsSharedOut (put_block c b) (without b held)
unfolding put_block
put_block-IsSharedOut c b held v m =
    let p = v.pool in
    let not_free : contains b v.free ≡ false = ground (arith, p.apart b, m) in
    let here : update c.link b c.freelist b ≡ c.freelist = ground arith in
    let shorter = length-without b held p.held_distinct m in
    record {
      carved = v.carved;
      free = b ∷ v.free;
      pool = record {
        not_null = p.not_null;
        size = p.size;
        within = p.within;
        unused_at = p.unused_at;
        chain = (
          refl,
          subst (λ h. IsChain (update c.link b c.freelist) h v.free) (sym here)
              (IsChain-update c.link b c.freelist c.freelist v.free not_free p.chain),
        );
        count = omega (arith, p.count);
        balance = omega (arith, p.balance, shorter);
        free_distinct = ground (arith, p.free_distinct, not_free);
        held_distinct = all_distinct-without b held p.held_distinct;
        apart = λ x f.
            ground
              (arith, p.apart x, f, contains-without_self b held, contains-without_ne x b held);
        free_blocks = λ x f. elim (Bool-cases (b == x)) [
          | inl e ↦ p.held_blocks x (ground (arith, e, m))
          | inr ne ↦ p.free_blocks x (ground (arith, ne, f))
        ];
        held_blocks = λ x f.
            p.held_blocks x
              (ground (arith, f, contains-without_self b held, contains-without_ne x b held));
      };
    }
