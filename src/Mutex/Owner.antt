-- ===== src/Mutex/Owner.antt =====
-- Who holds which mutex (kernel/tkernel/mutex.c): the holder in a mutex and the chain in a task agree.
use esp32c3_mtk.Prelude.{
  ℕ, ◌≡◌, ◌≢◌, refl, ◌∙◌, ap, true, false, none, some, contains, without, all_distinct, arith,
  contains-without_self, contains-without_ne, all_distinct-without,
}
use esp32c3_mtk.Types.{ok, same_task, is_ready}
use esp32c3_mtk.Kernel.{Kernel}
use esp32c3_mtk.Task.{change_ready_priority}
use esp32c3_mtk.Wait.{wait_release_ok}
use esp32c3_mtk.Wait.Frame.{mtxcb-release, mtxlist-release}
use esp32c3_mtk.Mutex.{set_mtxtsk, set_mtxlist, get_lock}

-- No mutex comes or goes.
pub record SameLocks (k k' : Kernel) : Type 0 where
  pub mtxcb : k'.mtxcb ≡ k.mtxcb
  pub mtxlist : (u : ℕ) → (k'.tcb u).mtxlist ≡ (k.tcb u).mtxlist

pub SameLocks-refl : (k : Kernel) → SameLocks k k
SameLocks-refl k = record { mtxcb = refl; mtxlist = λ u. refl }

pub SameLocks-trans : (k k' k'' : Kernel) → SameLocks k k' → SameLocks k' k'' → SameLocks k k''
SameLocks-trans k k' k'' a b = record {
  mtxcb = b.mtxcb ∙ a.mtxcb;
  mtxlist = λ u. b.mtxlist u ∙ a.mtxlist u;
}

pub wait_release_ok-SameLocks : (k : Kernel) (u : ℕ) → SameLocks k (wait_release_ok k u)
unfolding wait_release_ok
wait_release_ok-SameLocks k u = record {
  mtxcb = mtxcb-release k u ok;
  mtxlist = mtxlist-release k u ok;
}

-- What mutexes rely on of `knl_change_task_priority`: it gives no mutex away, and does no more for a
-- READY task than move it in the ready queue.
pub record IsChange (change : Kernel → ℕ → ℕ → Kernel) : Type 0 where
  pub locks : (k : Kernel) (t p : ℕ) → SameLocks k (change k t p)
  pub ready :
      (k : Kernel) (t p : ℕ)
      → is_ready (k.tcb t).state ≡ true
      → change k t p ≡ change_ready_priority k t p

-- A task has a mutex in its chain exactly when it is the mutex's holder, and has it once.
pub record IsOwned (k : Kernel) : Type 0 where
  pub owner : (i t : ℕ) → contains i (k.tcb t).mtxlist ≡ same_task (k.mtxcb i).mtxtsk t
  pub distinct : (t : ℕ) → all_distinct (k.tcb t).mtxlist ≡ true

-- The same but for a mutex that nobody has in his chain.
pub record IsOwnedBut (k : Kernel) (i : ℕ) : Type 0 where
  pub owner : (j t : ℕ) → i ≢ j → contains j (k.tcb t).mtxlist ≡ same_task (k.mtxcb j).mtxtsk t
  pub nobody : (t : ℕ) → contains i (k.tcb t).mtxlist ≡ false
  pub distinct : (t : ℕ) → all_distinct (k.tcb t).mtxlist ≡ true

pub same-IsOwned : (k k' : Kernel) → SameLocks k k' → IsOwned k → IsOwned k'
same-IsOwned k k' s v = record {
  owner = λ i t. rw (s.mtxlist t, s.mtxcb) (v.owner i t);
  distinct = λ t. rw (s.mtxlist t) (v.distinct t);
}

pub same-IsOwnedBut : (k k' : Kernel) (i : ℕ) → SameLocks k k' → IsOwnedBut k i → IsOwnedBut k' i
same-IsOwnedBut k k' i s v = record {
  owner = λ j t n. rw (s.mtxlist t, s.mtxcb) (v.owner j t n);
  nobody = λ t. rw (s.mtxlist t) (v.nobody t);
  distinct = λ t. rw (s.mtxlist t) (v.distinct t);
}

pub free-IsOwnedBut : (k : Kernel) (i : ℕ) → IsOwned k → (k.mtxcb i).mtxtsk ≡ none → IsOwnedBut k i
free-IsOwnedBut k i v e = record {
  owner = λ j t n. v.owner j t;
  nobody = λ t. v.owner i t ∙ ap (λ o. same_task o t) e;
  distinct = v.distinct;
}

pub get_lock-IsOwned : (k : Kernel) (i t : ℕ) → IsOwnedBut k i → IsOwned (get_lock k i t)
unfolding get_lock
get_lock-IsOwned k i t v = record {
  owner = λ j u. ground (arith, v.owner j u, v.nobody u, v.owner j t, v.nobody t);
  distinct = λ u. ground (arith, v.distinct u, v.nobody t, v.distinct t);
}

pub nobody-IsOwned : (k : Kernel) (i : ℕ) → IsOwnedBut k i → IsOwned (set_mtxtsk k i none)
nobody-IsOwned k i v = record {
  owner = λ j u. ground (arith, v.owner j u, v.nobody u);
  distinct = v.distinct;
}

pub dropped-IsOwnedBut :
    (k : Kernel) (i t : ℕ)
    → IsOwned k
    → (k.mtxcb i).mtxtsk ≡ some t
    → IsOwnedBut (set_mtxlist k t (without i (k.tcb t).mtxlist)) i
dropped-IsOwnedBut k i t v e = record {
  owner =
      λ j u n. ground (arith, v.owner j u, contains-without_ne j i (k.tcb t).mtxlist, v.owner j t);
  nobody = λ u. ground (arith, v.owner i u, contains-without_self i (k.tcb t).mtxlist, e);
  distinct =
      λ u. ground (arith, v.distinct u, all_distinct-without i (k.tcb t).mtxlist (v.distinct t));
}
