-- ===== src/Mutex/Holds.antt =====
-- Which places of mutex_queue.hpp hold the mutex.
use concurrent_queue_evaluat.Base.{
  if_both, ℕ, ◌≡◌, refl, Bool, true, false, Option, some, none, Ptr, null, ◌==◌,
}
use concurrent_queue_evaluat.Fifo.{Op, enqueue, dequeue, Answer}
use concurrent_queue_evaluat.Machine.{Env, Outcome, fault}
use concurrent_queue_evaluat.Machine.Locks.{keeps, takes, gives, Changes}
use concurrent_queue_evaluat.Mutex.{
  Node, Mem, Pc, begin, deref, acquire, move, machine, a1, a2, a3, a4, b1, b2, b3, b4, b9,
}

-- The places under the mutex.
unfoldable pub holds : Pc → Bool
holds (a3 n) = true
holds a4 = true
holds b2 = true
holds (b3 t) = true
holds b9 = true
holds _ = false

module _ (i : ℕ) (m : Mem) where
  abbrev Moves : Bool → Outcome Mem Pc Answer → Type 0
  Moves b o = Changes machine (λ m. m.mutex) holds i m b o

  Changes-acquire :
      (l : Option ℕ) (o : Outcome Mem Pc Answer)
      → (l ≡ none → Moves false o)
      → Moves false (acquire l o)
  unfolding acquire
  Changes-acquire none o f = f refl
  Changes-acquire (some j) o f = tt

  Changes-deref :
      (b : Bool) (p : Ptr) (k : Node → Outcome Mem Pc Answer)
      → ((d : Node) → Moves b (k d))
      → Moves b (deref m p k)
  unfolding deref
  Changes-deref b p k f =
      elim (m.nodes p) as (λ r. Moves b (elim r [ none ↦ fault | some d ↦ k d ])) [
        | none ↦ tt
        | some d ↦ f d
      ]

  pub Changes-move : (e : Env) (c : Pc) → Moves (holds c) (move i e m c)
  unfolding move holds
  Changes-move e (a1 x) = keeps refl refl
  Changes-move e (a2 n) = Changes-acquire m.mutex _ λ free. takes free refl refl
  Changes-move e (a3 n) =
      if_both (Moves true) (m.head == null) (keeps refl refl)
        (Changes-deref true m.tail _ λ d. keeps refl refl)
  Changes-move e a4 = gives refl refl refl
  Changes-move e b1 = Changes-acquire m.mutex _ λ free. takes free refl refl
  Changes-move e b2 =
      if_both (Moves true) (m.head == null) (keeps refl refl)
        (Changes-deref true m.head _ λ d. keeps refl refl)
  Changes-move e (b3 t) = gives refl refl refl
  Changes-move e (b4 t) = Changes-deref false t _ λ d. keeps refl refl
  Changes-move e b9 = gives refl refl refl

pub holds-begin : (o : Op) → holds (begin o) ≡ false
unfolding holds begin
holds-begin (enqueue x) = refl
holds-begin dequeue = refl
