-- ===== src/Fifo.antt =====
-- What every queue class under include/ offers to its clients, as an atomic object: `enqueue(T*)`
-- appends an item, `dequeue(T*&)` removes the oldest one or reports that the queue is empty.
-- Several threads call it; a call takes effect at one moment between its start and its return.
pub mod Kept
pub mod Refused
use concurrent_queue_evaluat.Base.{
  ℕ, ◌≡◌, Bool, true, false, Option, none, some, List, [], ◌∷◌, ◌++◌, update,
}

-- A `T*`: the queues never look behind it.
abbrev pub Item : Type 0
Item = ℕ

pub data Op : Type 0 where
  enqueue : Item → Op
  dequeue : Op

-- `enqueue` returns nothing; `dequeue` returns true with an item, or false.
pub data Answer : Type 0 where
  enqueued : Answer
  dequeued : Option Item → Answer

-- The calls and returns of the threads, the latest first.
pub data Event (C R : Type 0) : Type 0 where
  call : (thread : ℕ) → C → Event C R
  return : (thread : ℕ) → R → Event C R

-- Where a thread stands in its call: not called, not yet in effect, in effect. A call of `dequeue`
-- may also have met the empty queue, and may then return false.
pub data Phase : Type 0 where
  idle : Phase
  adding : Item → Phase
  added : Phase
  removing : (met_empty : Bool) → Phase
  removed : Item → Phase

abbrev pub called : Op → Phase
called (enqueue x) = adding x
called dequeue = removing false

-- The moment at which a call takes effect.
pub data Commit : List Item → Phase → List Item → Phase → Type 0 where
  put : {q : List Item} {x : Item} → Commit q (adding x) (q ++ x ∷ []) added
  take : {q : List Item} {x : Item} {b : Bool} → Commit (x ∷ q) (removing b) q (removed x)
  meet_empty : {b : Bool} → Commit [] (removing b) [] (removing true)

-- What a call may return.
pub data Answers : Phase → Answer → Type 0 where
  enqueue_ends : Answers added enqueued
  dequeue_ends : {x : Item} → Answers (removed x) (dequeued (some x))
  dequeue_fails : Answers (removing true) (dequeued none)

pub record Atomic : Type 0 where
  pub items : List Item
  pub phase : ℕ → Phase
  pub history : List (Event Op Answer)

abbrev pub empty : Atomic
empty = record { items = []; phase = λ _. idle; history = [] }

pub data AtomicStep (a : Atomic) : Atomic → Type 0 where
  call :
      (i : ℕ) (o : Op)
      → a.phase i ≡ idle
      → AtomicStep a
          (record a { phase = update a.phase i (called o); history = Event.call i o ∷ a.history })
  commit :
      (i : ℕ) {q : List Item} {p : Phase}
      → Commit a.items (a.phase i) q p
      → AtomicStep a (record a { items = q; phase = update a.phase i p })
  return :
      (i : ℕ) {r : Answer}
      → Answers (a.phase i) r
      → AtomicStep a
          (record a { phase = update a.phase i idle; history = Event.return i r ∷ a.history })

pub data AtomicReach : Atomic → Type 0 where
  start : AtomicReach empty
  later : {a b : Atomic} → AtomicReach a → AtomicStep a b → AtomicReach b

-- The commits, at a queue and a phase that are known by equations.
pub put_of :
    {q q' : List Item} {p : Phase} {x : Item}
    → p ≡ adding x
    → q' ≡ q ++ x ∷ []
    → Commit q p q' added
put_of e f = rw (e, f) put

pub take_of :
    {q q' : List Item} {p : Phase} {x : Item} {b : Bool}
    → p ≡ removing b
    → q ≡ x ∷ q'
    → Commit q p q' (removed x)
take_of e f = rw (e, f) take

pub meet_empty_of :
    {q : List Item} {p : Phase} {b : Bool} → p ≡ removing b → q ≡ [] → Commit q p q (removing true)
meet_empty_of e f = rw (e, f) meet_empty

pub dequeue_fails_of :
    {p : Phase} {b : Bool} → p ≡ removing b → b ≡ true → Answers p (dequeued none)
dequeue_fails_of e f = rw (e, f) dequeue_fails
