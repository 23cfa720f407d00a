-- ===== src/Mutex/Progress.antt =====
-- Calls of mutex_queue.hpp that return.
use concurrent_queue_evaluat.Base.{
  if_both, ℕ, Option-cases, ◌<◌, ◌≡◌, ◌≢◌, refl, ◌⊎◌, inl, inr, true, Option, some, none, Ptr, null,
  ◌==◌, arith,
}
use concurrent_queue_evaluat.Machine.{Env, Outcome, System, Reach, fault}
use concurrent_queue_evaluat.Machine.Simulation.Linearized
use concurrent_queue_evaluat.Machine.Alone.{Within}
use concurrent_queue_evaluat.Machine.Measure.{Falls, Within-left}
use concurrent_queue_evaluat.Machine.Locks
use concurrent_queue_evaluat.Fifo.{Answer}
use concurrent_queue_evaluat.Mutex.{
  Node, Mem, Pc, deref, acquire, move, machine, create, a1, a2, a3, a4, b1, b2, b3, b4, b9,
}
use concurrent_queue_evaluat.Mutex.Knowledge.{view}
use concurrent_queue_evaluat.Mutex.Linearizable.{New, New-of, moves, linearization}
use concurrent_queue_evaluat.Mutex.Holds.{holds, holds-begin, Changes-move}

-- The accesses that follow.
abbrev left : Pc → ℕ
left (a1 x) = 3
left (a2 n) = 2
left (a3 n) = 1
left a4 = 0
left b1 = 3
left b2 = 2
left (b3 t) = 1
left (b4 t) = 0
left b9 = 0

-- In front of `lock` the mutex is free.
abbrev Free : Mem → Pc → Type 0
Free m (a1 x) = m.mutex ≡ none
Free m (a2 n) = m.mutex ≡ none
Free m b1 = m.mutex ≡ none
Free m _ = Unit

module _ (i : ℕ) (e : Env) where
  abbrev Ready : Mem → Pc → Type 0
  Ready m c = New e m c × Free m c

  abbrev Lower : ℕ → Outcome Mem Pc Answer → Type 0
  Lower n o = Falls machine view i e left Ready n o

  Lower-deref :
      (n : ℕ) (m : Mem) (p : Ptr) (k : Node → Outcome Mem Pc Answer)
      → ((d : Node) → Lower n (k d))
      → Lower n (deref m p k)
  unfolding deref
  Lower-deref n m p k f =
      elim (m.nodes p) as (λ r. Lower n (elim r [ none ↦ fault | some d ↦ k d ])) [
        | none ↦ tt
        | some d ↦ f d
      ]

  Lower-acquire :
      (n : ℕ) (l : Option ℕ) (o : Outcome Mem Pc Answer)
      → l ≡ none
      → Lower n o
      → Lower n (acquire l o)
  unfolding acquire
  Lower-acquire n none o e h = h
  Lower-acquire n (some j) o e h = absurd (cc)

  Lower-move : (m : Mem) (c : Pc) → Ready m c → Lower (left c) (move i e m c)
  unfolding move
  Lower-move m (a1 x) (_, free) = (omega arith, (tt, free))
  Lower-move m (a2 n) (_, free) = Lower-acquire 2 m.mutex _ free (omega arith, (tt, tt))
  Lower-move m (a3 n) r =
      if_both (Lower 1) (m.head == null) (omega arith, (tt, tt))
        (Lower-deref 1 m m.tail _ λ d. (omega arith, (tt, tt)))
  Lower-move m a4 r = tt
  Lower-move m b1 (_, free) = Lower-acquire 3 m.mutex _ free (omega arith, (tt, tt))
  Lower-move m b2 r =
      if_both (Lower 2) (m.head == null) (omega arith, (tt, tt))
        (Lower-deref 2 m m.head _ λ d. (omega arith, (tt, tt)))
  Lower-move m (b3 t) r = (omega arith, (tt, tt))
  Lower-move m (b4 t) r = Lower-deref 0 m t _ λ d. tt
  Lower-move m b9 r = tt

  -- A call that need not wait returns.
  returns :
      {s : System machine} {c : Pc} (n : ℕ)
      → Reach machine create s
      → s.thread i ≡ some c
      → left c < n
      → Ready s.mem c
      → Within machine i e n s.mem c
  returns {s} {c} n r at_c lt ready =
      let (g, p, v, h) = Linearized.knowledge machine view linearization i r at_c in
      Within-left machine view i e left Ready (λ g m c p v h w. moves g m i e c p v h w.0)
        Lower-move n g s.mem c p lt v h ready

left-bound : (c : Pc) → left c < 4
left-bound (a1 x) = omega arith
left-bound (a2 n) = omega arith
left-bound (a3 n) = omega arith
left-bound a4 = omega arith
left-bound b1 = omega arith
left-bound b2 = omega arith
left-bound (b3 t) = omega arith
left-bound (b4 t) = omega arith
left-bound b9 = omega arith

Free-of : (m : Mem) (c : Pc) → m.mutex ≡ none → Free m c
Free-of m (a1 x) free = free
Free-of m (a2 n) free = free
Free-of m b1 free = free
Free-of m _ free = tt

-- The holder of the mutex does not wait and is past `new`.
under_lock : (e : Env) (m : Mem) (c : Pc) → holds c ≡ true → (left c < 3) × (New e m c × Free m c)
unfolding holds
under_lock e m (a3 n) h = (omega arith, (tt, tt))
under_lock e m a4 h = (omega arith, (tt, tt))
under_lock e m b2 h = (omega arith, (tt, tt))
under_lock e m (b3 t) h = (omega arith, (tt, tt))
under_lock e m b9 h = (omega arith, (tt, tt))
under_lock e m _ h = absurd (cc)

-- In every reachable state of a MutexQueue, a thread in a call returns after at most 4 accesses if it
-- moves alone, or else a thread in a call holds the mutex, and that one returns after at most 3
-- accesses if it moves alone: the queue never deadlocks.
pub mutex_progresses :
    {s : System machine} {c : Pc} (i : ℕ) (e : Env)
    → Reach machine create s
    → s.thread i ≡ some c
    → e.fresh ≢ null
    → s.mem.nodes e.fresh ≡ none
    → Within machine i e 4 s.mem c
      ⊎ ((j : ℕ) × (c' : Pc) × (s.mem.mutex ≡ some j)
          × (s.thread j ≡ some c')
          × Within machine j e 3 s.mem c')
mutex_progresses {s} {c} i e r at_c nn un = elim (Option-cases s.mem.mutex) [
  | inl free ↦
      inl (returns i e 4 r at_c (left-bound c) (New-of e s.mem c nn un, Free-of s.mem c free))
  | inr (j, taken) ↦
      let (c', at_j, under) =
        Locks.holder_at machine (λ m. m.mutex) holds holds-begin (λ k e m c. Changes-move k m e c)
          refl j r taken in
      let (lt, ready) = under_lock e s.mem c' under in
      inr (j, c', taken, at_j, returns j e 3 r at_j lt ready)
]
