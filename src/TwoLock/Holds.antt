-- ===== src/TwoLock/Holds.antt =====
-- Which places of two_lock_queue.hpp hold which mutex.
use concurrent_queue_evaluat.Base.{
  if_both, ℕ, ◌≡◌, refl, Bool, true, false, Option, none, some, Ptr, null, ◌==◌,
}
use concurrent_queue_evaluat.Fifo.{Op, enqueue, dequeue, Answer}
use concurrent_queue_evaluat.Machine.{Env, Outcome, fault}
use concurrent_queue_evaluat.Machine.Locks.{keeps, takes, gives, Changes}
use concurrent_queue_evaluat.TwoLock.{
  Node, Mem, Pc, begin, deref, acquire, move, machine, a1, a2, a3, a4, a5, b1, b2, b3, b4, b5, b6,
  b7, b9,
}

unfoldable pub holds_tail : Pc → Bool
holds_tail (a3 n) = true
holds_tail (a4 n) = true
holds_tail a5 = true
holds_tail _ = false

unfoldable pub holds_head : Pc → Bool
holds_head b2 = true
holds_head (b3 d) = true
holds_head (b4 d h) = true
holds_head (b5 d h v) = true
holds_head (b6 d v) = true
holds_head b9 = true
holds_head _ = false

pub holds_tail-begin : (o : Op) → holds_tail (begin o) ≡ false
unfolding holds_tail begin
holds_tail-begin (enqueue x) = refl
holds_tail-begin dequeue = refl

pub holds_head-begin : (o : Op) → holds_head (begin o) ≡ false
unfolding holds_head begin
holds_head-begin (enqueue x) = refl
holds_head-begin dequeue = refl

module _ (lock : Mem → Option ℕ) (holds : Pc → Bool) (i : ℕ) (m : Mem) where
  abbrev Moves : Bool → Outcome Mem Pc Answer → Type 0
  Moves b o = Changes machine lock holds i m b o

  Changes-acquire :
      (l : Option ℕ) (o : Outcome Mem Pc Answer)
      → (l ≡ none → Moves false o)
      → Moves false (acquire l o)
  unfolding acquire
  Changes-acquire none o f = f refl
  Changes-acquire (some j) o f = tt

  Changes-deref :
      (b : Bool) (p : Ptr) (k : Node → Outcome Mem Pc Answer)
      → ((d : Node) → Moves b (k d))
      → Moves b (deref m p k)
  unfolding deref
  Changes-deref b p k f =
      elim (m.nodes p) as (λ r. Moves b (elim r [ none ↦ fault | some d ↦ k d ])) [
        | none ↦ tt
        | some d ↦ f d
      ]

pub Changes-tail :
    (i : ℕ) (e : Env) (m : Mem) (c : Pc)
    → Changes machine (λ m. m.tail_lock) holds_tail i m (holds_tail c) (move i e m c)
unfolding move holds_tail
Changes-tail i e m (a1 x) = keeps refl refl
Changes-tail i e m (a2 n) =
    Changes-acquire (λ m. m.tail_lock) holds_tail i m m.tail_lock _ λ free. takes free refl refl
Changes-tail i e m (a3 n) =
    Changes-deref (λ m. m.tail_lock) holds_tail i m true m.tail _ λ d. keeps refl refl
Changes-tail i e m (a4 n) = keeps refl refl
Changes-tail i e m a5 = gives refl refl refl
Changes-tail i e m b1 =
    Changes-acquire (λ m. m.tail_lock) holds_tail i m m.head_lock _ λ free. keeps refl refl
Changes-tail i e m b2 = keeps refl refl
Changes-tail i e m (b3 d) =
    Changes-deref (λ m. m.tail_lock) holds_tail i m false d _
      λ n.
        if_both (Moves (λ m. m.tail_lock) holds_tail i m false) (n.next_node == null)
          (keeps refl refl) (keeps refl refl)
Changes-tail i e m (b4 d h) =
    Changes-deref (λ m. m.tail_lock) holds_tail i m false h _ λ n. keeps refl refl
Changes-tail i e m (b5 d h v) = keeps refl refl
Changes-tail i e m (b6 d v) = keeps refl refl
Changes-tail i e m (b7 d v) =
    Changes-deref (λ m. m.tail_lock) holds_tail i m false d _ λ n. keeps refl refl
Changes-tail i e m b9 = keeps refl refl

pub Changes-head :
    (i : ℕ) (e : Env) (m : Mem) (c : Pc)
    → Changes machine (λ m. m.head_lock) holds_head i m (holds_head c) (move i e m c)
unfolding move holds_head
Changes-head i e m (a1 x) = keeps refl refl
Changes-head i e m (a2 n) =
    Changes-acquire (λ m. m.head_lock) holds_head i m m.tail_lock _ λ free. keeps refl refl
Changes-head i e m (a3 n) =
    Changes-deref (λ m. m.head_lock) holds_head i m false m.tail _ λ d. keeps refl refl
Changes-head i e m (a4 n) = keeps refl refl
Changes-head i e m a5 = keeps refl refl
Changes-head i e m b1 =
    Changes-acquire (λ m. m.head_lock) holds_head i m m.head_lock _ λ free. takes free refl refl
Changes-head i e m b2 = keeps refl refl
Changes-head i e m (b3 d) =
    Changes-deref (λ m. m.head_lock) holds_head i m true d _
      λ n.
        if_both (Moves (λ m. m.head_lock) holds_head i m true) (n.next_node == null)
          (keeps refl refl) (keeps refl refl)
Changes-head i e m (b4 d h) =
    Changes-deref (λ m. m.head_lock) holds_head i m true h _ λ n. keeps refl refl
Changes-head i e m (b5 d h v) = keeps refl refl
Changes-head i e m (b6 d v) = gives refl refl refl
Changes-head i e m (b7 d v) =
    Changes-deref (λ m. m.head_lock) holds_head i m false d _ λ n. keeps refl refl
Changes-head i e m b9 = gives refl refl refl
