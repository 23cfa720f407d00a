-- ===== src/TwoLock/Progress.antt =====
-- Calls of two_lock_queue.hpp that return.
use concurrent_queue_evaluat.Base.{
  if_both, ℕ, ◌<◌, ◌≡◌, ◌≢◌, refl, ◌⊎◌, inl, inr, true, Option, some, none, Ptr, null, ◌==◌,
  Option-cases, arith,
}
use concurrent_queue_evaluat.Fifo.{Answer}
use concurrent_queue_evaluat.Machine.{Env, Outcome, System, Reach, fault}
use concurrent_queue_evaluat.Machine.Simulation.Linearized
use concurrent_queue_evaluat.Machine.Alone.{Within}
use concurrent_queue_evaluat.Machine.Measure.{Falls, Within-left}
use concurrent_queue_evaluat.Machine.Locks
use concurrent_queue_evaluat.TwoLock.{
  Node, Mem, Pc, deref, acquire, move, machine, create, a1, a2, a3, a4, a5, b1, b2, b3, b4, b5, b6,
  b7, b9,
}
use concurrent_queue_evaluat.TwoLock.Knowledge.{view}
use concurrent_queue_evaluat.TwoLock.Linearizable.{New, New-of, moves, linearization}
use concurrent_queue_evaluat.TwoLock.Holds.{
  holds_tail, holds_head, holds_tail-begin, holds_head-begin, Changes-tail, Changes-head,
}

-- The accesses that follow.
abbrev left : Pc → ℕ
left (a1 x) = 4
left (a2 n) = 3
left (a3 n) = 2
left (a4 n) = 1
left a5 = 0
left b1 = 6
left b2 = 5
left (b3 d) = 4
left (b4 d h) = 3
left (b5 d h v) = 2
left (b6 d v) = 1
left (b7 d v) = 0
left b9 = 0

-- In front of a `lock` its mutex is free.
abbrev Free : Mem → Pc → Type 0
Free m (a1 x) = m.tail_lock ≡ none
Free m (a2 n) = m.tail_lock ≡ none
Free m b1 = m.head_lock ≡ none
Free m _ = Unit

module _ (i : ℕ) (e : Env) where
  abbrev Ready : Mem → Pc → Type 0
  Ready m c = New e m c × Free m c

  abbrev Lower : ℕ → Outcome Mem Pc Answer → Type 0
  Lower n o = Falls machine view i e left Ready n o

  Lower-deref :
      (n : ℕ) (m : Mem) (p : Ptr) (k : Node → Outcome Mem Pc Answer)
      → ((d : Node) → Lower n (k d))
      → Lower n (deref m p k)
  unfolding deref
  Lower-deref n m p k f =
      elim (m.nodes p) as (λ r. Lower n (elim r [ none ↦ fault | some d ↦ k d ])) [
        | none ↦ tt
        | some d ↦ f d
      ]

  Lower-acquire :
      (n : ℕ) (l : Option ℕ) (o : Outcome Mem Pc Answer)
      → l ≡ none
      → Lower n o
      → Lower n (acquire l o)
  unfolding acquire
  Lower-acquire n none o e h = h
  Lower-acquire n (some j) o e h = absurd (cc)

  Lower-move : (m : Mem) (c : Pc) → Ready m c → Lower (left c) (move i e m c)
  unfolding move
  Lower-move m (a1 x) (_, free) = (omega arith, (tt, free))
  Lower-move m (a2 n) (_, free) = Lower-acquire 3 m.tail_lock _ free (omega arith, (tt, tt))
  Lower-move m (a3 n) r = Lower-deref 2 m m.tail _ λ d. (omega arith, (tt, tt))
  Lower-move m (a4 n) r = (omega arith, (tt, tt))
  Lower-move m a5 r = tt
  Lower-move m b1 (_, free) = Lower-acquire 6 m.head_lock _ free (omega arith, (tt, tt))
  Lower-move m b2 r = (omega arith, (tt, tt))
  Lower-move m (b3 d) r =
      Lower-deref 4 m d _
        λ n. if_both (Lower 4) (n.next_node == null) (omega arith, (tt, tt)) (omega arith, (tt, tt))
  Lower-move m (b4 d h) r = Lower-deref 3 m h _ λ n. (omega arith, (tt, tt))
  Lower-move m (b5 d h v) r = (omega arith, (tt, tt))
  Lower-move m (b6 d v) r = (omega arith, (tt, tt))
  Lower-move m (b7 d v) r = Lower-deref 0 m d _ λ n. tt
  Lower-move m b9 r = tt

  -- A call that need not wait returns.
  returns :
      {dummy : Ptr} {s : System machine} {c : Pc} (n : ℕ)
      → dummy ≢ null
      → Reach machine (create dummy) s
      → s.thread i ≡ some c
      → left c < n
      → Ready s.mem c
      → Within machine i e n s.mem c
  returns {dummy} {s} {c} n nn r at_c lt ready =
      let (g, p, v, h) = Linearized.knowledge machine view (linearization dummy nn) i r at_c in
      Within-left machine view i e left Ready (λ g m c p v h w. moves g m i e c p v h w.0)
        Lower-move n g s.mem c p lt v h ready

-- The holder of a mutex does not wait and is past `new`.
under_tail :
    (e : Env) (m : Mem) (c : Pc) → holds_tail c ≡ true → (left c < 6) × (New e m c × Free m c)
unfolding holds_tail
under_tail e m (a3 n) h = (omega arith, (tt, tt))
under_tail e m (a4 n) h = (omega arith, (tt, tt))
under_tail e m a5 h = (omega arith, (tt, tt))
under_tail e m _ h = absurd (cc)

under_head :
    (e : Env) (m : Mem) (c : Pc) → holds_head c ≡ true → (left c < 6) × (New e m c × Free m c)
unfolding holds_head
under_head e m b2 h = (omega arith, (tt, tt))
under_head e m (b3 d) h = (omega arith, (tt, tt))
under_head e m (b4 d k) h = (omega arith, (tt, tt))
under_head e m (b5 d k v) h = (omega arith, (tt, tt))
under_head e m (b6 d v) h = (omega arith, (tt, tt))
under_head e m b9 h = (omega arith, (tt, tt))
under_head e m _ h = absurd (cc)

-- The mutex that thread `j` holds.
pub data HasLock (m : Mem) (j : ℕ) : Type 0 where
  of_tail : m.tail_lock ≡ some j → HasLock m j
  of_head : m.head_lock ≡ some j → HasLock m j

left-bound : (c : Pc) → left c < 7
left-bound (a1 x) = omega arith
left-bound (a2 n) = omega arith
left-bound (a3 n) = omega arith
left-bound (a4 n) = omega arith
left-bound a5 = omega arith
left-bound b1 = omega arith
left-bound b2 = omega arith
left-bound (b3 d) = omega arith
left-bound (b4 d h) = omega arith
left-bound (b5 d h v) = omega arith
left-bound (b6 d v) = omega arith
left-bound (b7 d v) = omega arith
left-bound b9 = omega arith

-- A call waits for no mutex, or for one that a thread holds.
Free-cases : (m : Mem) (c : Pc) → Free m c ⊎ ((j : ℕ) × HasLock m j)
Free-cases m (a1 x) = elim (Option-cases m.tail_lock) [
  | inl free ↦ inl free
  | inr (j, e) ↦ inr (j, of_tail e)
]
Free-cases m (a2 n) = elim (Option-cases m.tail_lock) [
  | inl free ↦ inl free
  | inr (j, e) ↦ inr (j, of_tail e)
]
Free-cases m b1 = elim (Option-cases m.head_lock) [
  | inl free ↦ inl free
  | inr (j, e) ↦ inr (j, of_head e)
]
Free-cases m _ = inl tt

holder_returns :
    {dummy : Ptr} {s : System machine} (j : ℕ) (e : Env)
    → dummy ≢ null
    → Reach machine (create dummy) s
    → HasLock s.mem j
    → (c : Pc) × (s.thread j ≡ some c) × Within machine j e 6 s.mem c
holder_returns {dummy} {s} j e nn r (of_tail l) =
    let (c, at_j, under) =
      Locks.holder_at machine (λ m. m.tail_lock) holds_tail holds_tail-begin Changes-tail refl j r
        l in
    let (lt, ready) = under_tail e s.mem c under in (c, at_j, returns j e 6 nn r at_j lt ready)
holder_returns {dummy} {s} j e nn r (of_head l) =
    let (c, at_j, under) =
      Locks.holder_at machine (λ m. m.head_lock) holds_head holds_head-begin Changes-head refl j r
        l in
    let (lt, ready) = under_head e s.mem c under in (c, at_j, returns j e 6 nn r at_j lt ready)

-- In every reachable state of a TwoLockQueue, a thread in a call returns after at most 7 accesses if
-- it moves alone, or else a thread in a call holds one of the mutexes, and that one returns after at
-- most 6 accesses if it moves alone: the queue never deadlocks.
pub two_lock_progresses :
    (dummy : Ptr) {s : System machine} {c : Pc} (i : ℕ) (e : Env)
    → dummy ≢ null
    → Reach machine (create dummy) s
    → s.thread i ≡ some c
    → e.fresh ≢ null
    → s.mem.nodes e.fresh ≡ none
    → Within machine i e 7 s.mem c
      ⊎ ((j : ℕ) × (c' : Pc) × HasLock s.mem j
          × (s.thread j ≡ some c')
          × Within machine j e 6 s.mem c')
two_lock_progresses dummy {s} {c} i e nn r at_c fresh un = elim (Free-cases s.mem c) [
  | inl free ↦ inl (returns i e 7 nn r at_c (left-bound c) (New-of e s.mem c fresh un, free))
  | inr (j, l) ↦ let (c', at_j, ends) = holder_returns j e nn r l in inr (j, c', l, at_j, ends)
]
