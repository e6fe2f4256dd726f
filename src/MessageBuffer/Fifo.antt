-- ===== src/MessageBuffer/Fifo.antt =====
-- What a message buffer of kernel/tkernel/messagebuf.c promises: the messages that it holds, and
-- behind them those of the tasks that wait to send, are one queue.
use esp32c3_mtk.Prelude.{
  ℕ, ◌<◌, ◌^◌, ◌≡◌, refl, sym, ap, ap₂, subst, Bool, true, not, ◌&&◌, ◌||◌, List, [], ◌∷◌, ◌++◌,
  is_empty, all_distinct, All, All-mono,
}
use esp32c3_mtk.Types.{Message, smbf, rmbf}
use esp32c3_mtk.Kernel.{Kernel, que_of}
use esp32c3_mtk.MessageRing.{mbf_free}
use esp32c3_mtk.MessageRing.Contents.{IsRing}
use esp32c3_mtk.MessageBuffer.{message_of}

-- The messages of waiting tasks, in their order.
abbrev pub messages_of : Kernel → List ℕ → List Message
messages_of k [] = []
messages_of k (t ∷ ts) = message_of k t ∷ messages_of k ts

-- The queue that receivers see: `ms` are the messages in the ring.
abbrev pub stream : Kernel → ℕ → List Message → List Message
stream k i ms = ms ++ messages_of k (que_of k (smbf i))

-- There is no room for the message of the first waiting task.
abbrev pub is_held : Kernel → ℕ → List ℕ → Bool
is_held k i [] = true
is_held k i (t ∷ ts) = not (mbf_free (k.mbfcb i) (message_of k t).size)

-- A message buffer that holds `ms` in its ring, but for the tasks that might send now.
pub record IsStirred (k : Kernel) (i : ℕ) (ms : List Message) : Type 0 where
  pub ring : IsRing (k.mbfcb i) ms
  pub senders : all_distinct (que_of k (smbf i)) ≡ true
  pub receivers : all_distinct (que_of k (rmbf i)) ≡ true
  pub sizes : All (λ u. (message_of k u).size < 2 ^ 31) (que_of k (smbf i))
  pub apart : (is_empty (que_of k (rmbf i)) || (is_empty (que_of k (smbf i)) && is_empty ms)) ≡ true

-- A well formed message buffer that holds `ms` in its ring: no task is twice in a queue, nobody waits
-- to receive while there is a message, and nobody waits to send who is first and has room.
pub record IsMbf (k : Kernel) (i : ℕ) (ms : List Message) : Type 0 where
  pub stirred : IsStirred k i ms
  pub held : is_held k i (que_of k (smbf i)) ≡ true

pub messages_of-same :
    (k k' : Kernel) (ts : List ℕ)
    → ((u : ℕ) → message_of k' u ≡ message_of k u)
    → messages_of k' ts ≡ messages_of k ts
messages_of-same k k' [] e = refl
messages_of-same k k' (t ∷ ts) e = ap₂ ◌∷◌ (e t) (messages_of-same k k' ts e)

pub messages_of-snoc :
    (k : Kernel) (ts : List ℕ) (t : ℕ)
    → messages_of k (ts ++ t ∷ []) ≡ messages_of k ts ++ message_of k t ∷ []
messages_of-snoc k [] t = refl
messages_of-snoc k (u ∷ ts) t = ap (λ xs. message_of k u ∷ xs) (messages_of-snoc k ts t)

pub sizes-same :
    (k k' : Kernel) (ts : List ℕ)
    → ((u : ℕ) → message_of k' u ≡ message_of k u)
    → All (λ u. (message_of k u).size < 2 ^ 31) ts
    → All (λ u. (message_of k' u).size < 2 ^ 31) ts
sizes-same k k' ts e s =
    All-mono (λ u. (message_of k u).size < 2 ^ 31) (λ u. (message_of k' u).size < 2 ^ 31) ts
      (λ u h. subst (λ m. m.size < 2 ^ 31) (sym (e u)) h) s
