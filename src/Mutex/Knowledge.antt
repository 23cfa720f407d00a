-- ===== src/Mutex/Knowledge.antt =====
-- What a thread knows at each place of the code of mutex_queue.hpp, and that other threads keep it
-- true.
use concurrent_queue_evaluat.Base.{
  ℕ, ◌+◌, ◌≤◌, ◌≡◌, ◌≢◌, refl, ◌∙◌, ◌⊎◌, true, false, Option, none, some, List, Ptr, null, ◌==◌,
  if◌then◌else◌, arith,
}
use concurrent_queue_evaluat.Fifo.{
  Item, Op, Answer, enqueue, dequeue, Phase, called, adding, added, removing, removed,
}
use concurrent_queue_evaluat.Machine.{Outcome}
use concurrent_queue_evaluat.Machine.Simulation.{View, Good, waits}
use concurrent_queue_evaluat.Chain.{Removing}
use concurrent_queue_evaluat.Chain.Contents.{between}
use concurrent_queue_evaluat.Live.{Live, IsLive, Keeps, Adds}
use concurrent_queue_evaluat.Live.Changes.{Keeps-refl, Adds-kept}
use concurrent_queue_evaluat.Mutex.{
  Node, Mem, Pc, begin, deref, acquire, machine, a1, a2, a3, a4, b1, b2, b3, b4, b9,
}

abbrev pub look_node : Option Node → Option (Item × Ptr)
look_node none = none
look_node (some d) = some (d.item, d.next_node)

abbrev pub look : Mem → Ptr → Option (Item × Ptr)
look m p = look_node (m.nodes p)

abbrev pub items : Live → List Item
items g = between g.val g.head g.len

pub record Inv (g : Live) (m : Mem) : Type 0 where
  pub live : IsLive (look m) g
  pub order : g.head ≤ g.len
  pub head_here : m.head ≡ (if g.head == g.len then null else g.at g.head)
  pub tail_here : (k : ℕ) → k + 1 ≡ g.len → g.head ≤ k → g.at k ≡ m.tail

pub record Rely (i : ℕ) (g : Live) (m : Mem) (g' : Live) (m' : Mem) : Type 0 where
  pub keeps : Keeps i (look m) g (look m') g'
  pub locked : (j : ℕ) → j ≢ i → m.mutex ≡ some j → m'.mutex ≡ some j

-- A call of `dequeue` that has taken the node `tmp`, which no other thread can reach.
pub record Took (look : Ptr → Option (Item × Ptr)) (g : Live) (i : ℕ) (tmp : Ptr) (p : Phase)
    : Type 0 where
  pub value : Item
  pub after : Ptr
  pub phase : p ≡ removed value
  pub owned : g.owner tmp ≡ some i
  pub filled : look tmp ≡ some (value, after)

abbrev pub Local : Live → Mem → ℕ → Pc → Phase → Type 0
Local g m i (a1 x) p = p ≡ adding x
Local g m i (a2 n) p = Adds (look m) g i n p
Local g m i (a3 n) p = Adds (look m) g i n p × (m.mutex ≡ some i)
Local g m i a4 p = (p ≡ added) × (m.mutex ≡ some i)
Local g m i b1 p = Removing p
Local g m i b2 p = Removing p × (m.mutex ≡ some i)
Local g m i (b3 tmp) p = Took (look m) g i tmp p × (m.mutex ≡ some i)
Local g m i (b4 tmp) p = Took (look m) g i tmp p
Local g m i b9 p = (p ≡ removing true) × (m.mutex ≡ some i)

abbrev pub view : View machine
view = record { Ghost = Live; items = items; Inv = Inv; Local = Local; Rely = Rely }

Took-kept :
    {i j : ℕ} {look look' : Ptr → Option (Item × Ptr)} {g g' : Live} {n : Ptr} {p : Phase}
    → Keeps i look g look' g'
    → j ≢ i
    → Took look g j n p
    → Took look' g' j n p
Took-kept {j} {n} r ne a =
    let (owned, same) = r.kept j n ne a.owned in
    record {
      value = a.value;
      after = a.after;
      phase = a.phase;
      owned = owned;
      filled = same ∙ a.filled;
    }

module _ {g g' : Live} (m m' : Mem) {i j : ℕ} where
  pub stable : (c : Pc) (p : Phase) → j ≢ i → Rely i g m g' m' → Local g m j c p → Local g' m' j c p
  stable (a1 x) p ne r h = h
  stable (a2 n) p ne r h = Adds-kept r.keeps ne h
  stable (a3 n) p ne r (a, l) = (Adds-kept r.keeps ne a, r.locked j ne l)
  stable a4 p ne r (e, l) = (e, r.locked j ne l)
  stable b1 p ne r h = h
  stable b2 p ne r (a, l) = (a, r.locked j ne l)
  stable (b3 t) p ne r (a, l) = (Took-kept r.keeps ne a, r.locked j ne l)
  stable (b4 t) p ne r a = Took-kept r.keeps ne a
  stable b9 p ne r (e, l) = (e, r.locked j ne l)

pub begins : (g : Live) (m : Mem) (i : ℕ) (o : Op) → Inv g m → Local g m i (begin o) (called o)
unfolding begin
begins g m i (enqueue x) v = refl
begins g m i dequeue v = record { met_empty = false; phase = refl }

pub Rely-refl : (i : ℕ) (g : Live) (m : Mem) → Rely i g m g m
Rely-refl i g m = record { keeps = Keeps-refl i (look m) g; locked = λ j ne l. l }

pub deref-stored :
    (m : Mem) {p : Ptr} {d : Node} (k : Node → Outcome Mem Pc Answer)
    → m.nodes p ≡ some d
    → deref m p k ≡ k d
unfolding deref
deref-stored m k e = rw (e, deref)

pub node_of_look :
    (o : Option Node) (v : Item) (q : Ptr)
    → look_node o ≡ some (v, q)
    → (d : Node) × (o ≡ some d) × (d.item ≡ v) × (d.next_node ≡ q)
node_of_look none v q h = absurd (cc)
node_of_look (some d) v q h = (d, refl, ground arith, ground arith)

-- `lock()`: the mutex is free, or the thread waits.
pub Good-acquire :
    (g : Live) (m : Mem) (i : ℕ) (p : Phase) (lock : Option ℕ) (o : Outcome Mem Pc Answer)
    → (lock ≡ none → Good machine view g m i p o)
    → Good machine view g m i p (acquire lock o)
unfolding acquire
Good-acquire g m i p none o h = h refl
Good-acquire g m i p (some holder) o h = waits

-- The mutex changes hands, and nothing else changes.
pub relocked :
    {g : Live} {m : Mem} {i : ℕ} (to : Option ℕ)
    → Inv g m
    → (m.mutex ≡ none) ⊎ (m.mutex ≡ some i)
    → Inv g (record m { mutex = to }) × Rely i g m g (record m { mutex = to })
relocked {g} {m} {i} to v h = (
  record { live = v.live; order = v.order; head_here = v.head_here; tail_here = v.tail_here },
  record { keeps = Keeps-refl i (look m) g; locked = λ j ne l. absurd (ground arith) },
)
