-- ===== src/TwoLock/Knowledge.antt =====
-- What a thread knows at each place of the code of two_lock_queue.hpp, and that other threads keep
-- it true.
use concurrent_queue_evaluat.Base.{
  ℕ, ◌+◌, ◌≤◌, ◌<◌, ◌≡◌, ◌≢◌, refl, ◌∙◌, sym, Bool, true, false, Option, none, some, List, Ptr,
  null, ◌==◌, if◌then◌else◌, arith,
}
use concurrent_queue_evaluat.Fifo.{
  Item, Op, Answer, enqueue, dequeue, Phase, called, adding, added, removing, removed,
}
use concurrent_queue_evaluat.Machine.{Outcome, next}
use concurrent_queue_evaluat.Machine.Simulation.{View, Good, goes, waits, silent}
use concurrent_queue_evaluat.Chain.{Removing}
use concurrent_queue_evaluat.Chain.Contents.{between}
use concurrent_queue_evaluat.Live.{Live, IsLive, Keeps, Adds}
use concurrent_queue_evaluat.Live.Changes.{Keeps-refl, Adds-kept}
use concurrent_queue_evaluat.TwoLock.{
  Node, Mem, Pc, begin, deref, acquire, machine, a1, a2, a3, a4, a5, b1, b2, b3, b4, b5, b6, b7, b9,
}

abbrev pub look_node : Option Node → Option (Item × Ptr)
look_node none = none
look_node (some d) = some (d.item, d.next_node)

abbrev pub look : Mem → Ptr → Option (Item × Ptr)
look m p = look_node (m.nodes p)

-- The list, and whether `tail_` names its last node.
pub record Ghost : Type 0 where
  pub list : Live
  pub settled : Bool

abbrev pub items : Ghost → List Item
items g = between g.list.val (g.list.head + 1) g.list.len

pub record Inv (g : Ghost) (m : Mem) : Type 0 where
  pub live : IsLive (look m) g.list
  pub dummy : g.list.head < g.list.len
  pub head_here : g.list.at g.list.head ≡ m.head
  pub tail_here : (k : ℕ) → k + 1 ≡ g.list.len → g.settled ≡ true → g.list.at k ≡ m.tail
  pub tail_free : m.tail_lock ≡ none → g.settled ≡ true

-- The holder of a lock knows that its end of the list stays as it is.
pub record Rely (i : ℕ) (g : Ghost) (m : Mem) (g' : Ghost) (m' : Mem) : Type 0 where
  pub keeps : Keeps i (look m) g.list (look m') g'.list
  pub tail_locked :
      (j : ℕ)
      → j ≢ i
      → m.tail_lock ≡ some j
      → (m'.tail_lock ≡ some j) × (g'.settled ≡ g.settled) × (g'.list.len ≡ g.list.len)
  pub head_locked :
      (j : ℕ)
      → j ≢ i
      → m.head_lock ≡ some j
      → (m'.head_lock ≡ some j) × (g'.list.head ≡ g.list.head)

-- The holder of the lock of the head, between the two reads and the write.
pub record AtHead (g : Ghost) (m : Mem) (i : ℕ) (dummy new_head : Ptr) : Type 0 where
  pub lock : m.head_lock ≡ some i
  pub more : g.list.head + 1 < g.list.len
  pub first : g.list.at g.list.head ≡ dummy
  pub second : g.list.at (g.list.head + 1) ≡ new_head

abbrev pub Local : Ghost → Mem → ℕ → Pc → Phase → Type 0
Local g m i (a1 x) p = p ≡ adding x
Local g m i (a2 n) p = Adds (look m) g.list i n p
Local g m i (a3 n) p = Adds (look m) g.list i n p × (m.tail_lock ≡ some i) × (g.settled ≡ true)
Local g m i (a4 n) p =
    (k : ℕ) × (p ≡ added) × (m.tail_lock ≡ some i) × (k + 1 ≡ g.list.len) × (g.list.at k ≡ n)
Local g m i a5 p = (p ≡ added) × (m.tail_lock ≡ some i) × (g.settled ≡ true)
Local g m i b1 p = Removing p
Local g m i b2 p = Removing p × (m.head_lock ≡ some i)
Local g m i (b3 dummy) p =
    Removing p
    × (m.head_lock ≡ some i)
    × (g.list.head < g.list.len)
    × (g.list.at g.list.head ≡ dummy)
Local g m i (b4 dummy h) p = Removing p × AtHead g m i dummy h
Local g m i (b5 dummy h v) p =
    Removing p × AtHead g m i dummy h × (g.list.val (g.list.head + 1) ≡ v)
Local g m i (b6 dummy v) p =
    (p ≡ removed v) × (m.head_lock ≡ some i) × (g.list.owner dummy ≡ some i)
Local g m i (b7 dummy v) p = (p ≡ removed v) × (g.list.owner dummy ≡ some i)
Local g m i b9 p = (p ≡ removing true) × (m.head_lock ≡ some i)

abbrev pub view : View machine
view = record { Ghost = Ghost; items = items; Inv = Inv; Local = Local; Rely = Rely }

AtHead-kept :
    {g g' : Ghost} {m m' : Mem} {i j : ℕ} {d h : Ptr}
    → j ≢ i
    → Rely i g m g' m'
    → AtHead g m j d h
    → AtHead g' m' j d h
AtHead-kept {g} {j} ne r a =
    let (lock, same) = r.head_locked j ne a.lock in
    record {
      lock = lock;
      more = omega (arith, r.keeps.len, a.more);
      first = ground (arith, r.keeps.at g.list.head, a.more, a.first);
      second = ground (arith, r.keeps.at (g.list.head + 1), a.more, a.second);
    }

module _ {g g' : Ghost} (m m' : Mem) {i j : ℕ} where
  pub stable : (c : Pc) (p : Phase) → j ≢ i → Rely i g m g' m' → Local g m j c p → Local g' m' j c p
  stable (a1 x) p ne r h = h
  stable (a2 n) p ne r h = Adds-kept r.keeps ne h
  stable (a3 n) p ne r (a, l, s) =
      let (l', s', _) = r.tail_locked j ne l in (Adds-kept r.keeps ne a, l', s' ∙ s)
  stable (a4 n) p ne r (k, e, l, q, a) =
      let (l', _, q') = r.tail_locked j ne l in
      (k, e, l', q ∙ sym q', r.keeps.at k (omega arith) ∙ a)
  stable a5 p ne r (e, l, s) = let (l', s', _) = r.tail_locked j ne l in (e, l', s' ∙ s)
  stable b1 p ne r h = h
  stable b2 p ne r (a, l) = (a, (r.head_locked j ne l).0)
  stable (b3 d) p ne r (a, l, lt, e) =
      let (l', q) = r.head_locked j ne l in
      (a, l', omega (arith, r.keeps.len), ground (arith, r.keeps.at g.list.head))
  stable (b4 d h) p ne r (a, w) = (a, AtHead-kept ne r w)
  stable (b5 d h v) p ne r (a, w, e) =
      let (_, q) = r.head_locked j ne w.lock in
      (a, AtHead-kept ne r w, ground (arith, r.keeps.val (g.list.head + 1), w.more))
  stable (b6 d v) p ne r (e, l, o) = (e, (r.head_locked j ne l).0, (r.keeps.kept j d ne o).0)
  stable (b7 d v) p ne r (e, o) = (e, (r.keeps.kept j d ne o).0)
  stable b9 p ne r (e, l) = (e, (r.head_locked j ne l).0)

pub begins : (g : Ghost) (m : Mem) (i : ℕ) (o : Op) → Inv g m → Local g m i (begin o) (called o)
unfolding begin
begins g m i (enqueue x) v = refl
begins g m i dequeue v = record { met_empty = false; phase = refl }

pub Rely-refl : (i : ℕ) (g : Ghost) (m : Mem) → Rely i g m g m
Rely-refl i g m = record {
  keeps = Keeps-refl i (look m) g.list;
  tail_locked = λ j ne l. (l, refl, refl);
  head_locked = λ j ne l. (l, refl);
}

-- An access that changes no memory.
pub reads :
    (g : Ghost) (m : Mem) (i : ℕ) (c : Pc) (p : Phase)
    → Inv g m
    → Local g m i c p
    → Good machine view g m i p (next m c)
reads g m i c p v k = goes g p v (Rely-refl i g m) k (silent refl refl)

pub deref-stored :
    (m : Mem) {p : Ptr} {d : Node} (k : Node → Outcome Mem Pc Answer)
    → m.nodes p ≡ some d
    → deref m p k ≡ k d
unfolding deref
deref-stored m k e = rw (e, deref)

-- The node at a position of the list, as the memory holds it.
pub node_at :
    (m : Mem) (g : Live) (k : ℕ)
    → IsLive (look m) g
    → g.head ≤ k
    → k < g.len
    → (d : Node) × (m.nodes (g.at k) ≡ some d)
      × (d.item ≡ g.val k)
      × (d.next_node ≡ (if (k + 1) == g.len then null else g.at (k + 1)))
node_at m g k c lo h = of_look (m.nodes (g.at k)) (g.val k) _ (c.cell k lo h)
  where
    of_look :
        (o : Option Node) (v : Item) (q : Ptr)
        → look_node o ≡ some (v, q)
        → (d : Node) × (o ≡ some d) × (d.item ≡ v) × (d.next_node ≡ q)
    of_look none v q h = absurd (cc)
    of_look (some d) v q h = (d, refl, ground arith, ground arith)

-- `lock()`: the mutex is free, or the thread waits.
pub Good-acquire :
    (g : Ghost) (m : Mem) (i : ℕ) (p : Phase) (lock : Option ℕ) (o : Outcome Mem Pc Answer)
    → (lock ≡ none → Good machine view g m i p o)
    → Good machine view g m i p (acquire lock o)
unfolding acquire
Good-acquire g m i p none o h = h refl
Good-acquire g m i p (some holder) o h = waits
