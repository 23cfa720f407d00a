-- ===== src/Benchmark/Workers.antt =====
-- src/benchmark.cc: the workers of `execute_test`, with a queue whose calls take effect at one moment.
-- The busy work between the calls touches nothing that is shared, and is left out.
pub mod Waiting
pub mod Writes
pub mod Items
pub mod Stamps
mod Tests
use concurrent_queue_evaluat.Base.{
  ℕ, zero, suc, ◌+◌, ◌*◌, Bool, true, false, Option, none, some, List, [], ◌∷◌, ◌++◌, ltb,
  if◌then◌else◌, update,
}

-- The time points have no value before they are written.
pub record TestItem : Type 0 where
  pub enqueue_start : Option ℕ
  pub enqueue_done : Option ℕ
  pub dequeue_start : Option ℕ
  pub dequeue_done : Option ℕ
  pub should_sample : Bool

-- The places in a worker's round `i`.
pub data Place : Type 0 where
  starts : (i : ℕ) → Place  -- `my_item->enqueue_start = …`
  adds : (i : ℕ) → Place  -- `q.enqueue(my_item)`
  stamps : (i : ℕ) → Place  -- `my_item->enqueue_done = …`
  tries : (i : ℕ) → Place  -- `t0 = …`
  asks : (i t0 : ℕ) → Place  -- `q.dequeue(got)`
  took : (i got t0 : ℕ) → Place  -- `got->dequeue_start = t0`
  ends : (i got : ℕ) → Place  -- `got->dequeue_done = …`
  finished : Place

-- The items by their index, the queue, and the workers.
pub record State : Type 0 where
  pub items : ℕ → TestItem
  pub queue : List ℕ
  pub worker : ℕ → Place

-- `i < ops_per_thread`
unfoldable pub round : (ops_per_thread i : ℕ) → Place
round ops_per_thread i = if ltb i ops_per_thread then starts i else finished

-- `if (item->should_sample) …`
abbrev pub if_sampled : (TestItem → TestItem) → TestItem → TestItem
if_sampled f d = if d.should_sample then f d else d

abbrev pub write : (ℕ → TestItem) → ℕ → (TestItem → TestItem) → ℕ → TestItem
write items x f = update items x (if_sampled f (items x))

-- `q.dequeue(got)`, again where it returns false
unfoldable pub receive : (t i t0 : ℕ) → List ℕ → State → State
receive t i t0 [] s = record s { worker = update s.worker t (tries i) }
receive t i t0 (got ∷ queue) s = record s {
  queue = queue;
  worker = update s.worker t (took i got t0);
}

-- A worker's step at a place; `base + i` is the index of its item.
unfoldable pub act : (ops_per_thread t now : ℕ) → Place → State → State
act ops_per_thread t now (starts i) s =
    let base = t * ops_per_thread in
    record s {
      items = write s.items (base + i) λ d. record d { enqueue_start = some now };
      worker = update s.worker t (adds i);
    }
act ops_per_thread t now (adds i) s =
    let base = t * ops_per_thread in
    record s { queue = s.queue ++ (base + i) ∷ []; worker = update s.worker t (stamps i) }
act ops_per_thread t now (stamps i) s =
    let base = t * ops_per_thread in
    record s {
      items = write s.items (base + i) λ d. record d { enqueue_done = some now };
      worker = update s.worker t (tries i);
    }
act ops_per_thread t now (tries i) s = record s { worker = update s.worker t (asks i now) }
act ops_per_thread t now (asks i t0) s = receive t i t0 s.queue s
act ops_per_thread t now (took i got t0) s = record s {
  items = write s.items got λ d. record d { dequeue_start = some t0 };
  worker = update s.worker t (ends i got);
}
act ops_per_thread t now (ends i got) s = record s {
  items = write s.items got λ d. record d { dequeue_done = some now };
  worker = update s.worker t (round ops_per_thread (i + 1));
}
act ops_per_thread t now finished s = s

-- The workers at their start; `marks` are the items' `should_sample`.
abbrev pub initial : (ops_per_thread n_threads : ℕ) → (ℕ → Bool) → State
initial ops_per_thread n_threads marks = record {
  items = λ x. record {
    enqueue_start = none;
    enqueue_done = none;
    dequeue_start = none;
    dequeue_done = none;
    should_sample = marks x;
  };
  queue = [];
  worker = λ t. if ltb t n_threads then round ops_per_thread 0 else finished;
}

-- Any order of the workers' steps.
pub data Reached (ops_per_thread n_threads : ℕ) (marks : ℕ → Bool) : State → Type 0 where
  start : Reached ops_per_thread n_threads marks (initial ops_per_thread n_threads marks)
  step :
      {s : State} (t now : ℕ)
      → Reached ops_per_thread n_threads marks s
      → Reached ops_per_thread n_threads marks (act ops_per_thread t now (s.worker t) s)
