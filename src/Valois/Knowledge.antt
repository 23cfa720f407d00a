-- ===== src/Valois/Knowledge.antt =====
-- What a thread knows at each place of the code of valois_queue.hpp, and that other threads keep it true.
use concurrent_queue_evaluat.Base.{
  ℕ, ◌+◌, ◌≤◌, ◌<◌, ◌≡◌, ◌≢◌, refl, false, ◌∙◌, Option, none, some, Ptr, null, arith,
}
use concurrent_queue_evaluat.Fifo.{
  Item, Op, Answer, enqueue, dequeue, Phase, called, adding, added, removed,
}
use concurrent_queue_evaluat.Machine.{Outcome}
use concurrent_queue_evaluat.Machine.Simulation.{View}
use concurrent_queue_evaluat.Chain.{
  Chain, IsChain, Respects, Known, Successor, Adding, Removing, WasTail, WasHead, Window, Emptiness,
  contents,
}
use concurrent_queue_evaluat.Chain.Changes.{
  Known-grows, Successor-grows, WasTail-grows, WasHead-grows, Window-grows, Adding-kept, next_at,
  look-known, next_at-Successor, next_at-null,
}
use concurrent_queue_evaluat.Valois.{
  Node, Mem, Pc, begin, deref, machine, e1, e5, e6, e7, e9, e13, e17, d2, d3, d4, d5, d10, d12, d13,
  r1, r2, r3,
}

abbrev pub look_node : Option Node → Option (Item × Ptr)
look_node none = none
look_node (some d) = some (d.value, d.next_node)

abbrev pub look : Mem → Ptr → Option (Item × Ptr)
look m p = look_node (m.nodes p)

pub record Inv (g : Chain) (m : Mem) : Type 0 where
  pub chain : IsChain (look m) g
  pub head_here : Known g m.head g.head
  pub tail_here : Known g m.tail g.tail

abbrev pub Local : Chain → Mem → ℕ → Pc → Phase → Type 0
Local g m i (e1 x) p = p ≡ adding x
Local g m i (e5 n) p = Adding (look m) g i n p
Local g m i (e6 n last) p = (k : ℕ) × Adding (look m) g i n p × WasTail g last k
Local g m i (e7 n last after) p =
    (k : ℕ) × Adding (look m) g i n p × WasTail g last k × Successor g after k
Local g m i (e9 n last after) p =
    (k : ℕ) × Adding (look m) g i n p × WasTail g last k × (after ≡ null)
Local g m i (e13 n last after) p =
    (k : ℕ) × Adding (look m) g i n p × WasTail g last k × Known g after (k + 1)
Local g m i (e17 n last) p = (k : ℕ) × (p ≡ added) × WasTail g last k × Known g n (k + 1)
Local g m i d2 p = Removing p
Local g m i (d3 first) p = (k : ℕ) × Removing p × WasHead g first k
Local g m i (d4 first last) p = (k j : ℕ) × Removing p × Window g first last k j
Local g m i (d5 first last after) p =
    (k j : ℕ) × (r : Removing p) × Window g first last k j
    × Successor g after k
    × Emptiness g after k r.met_empty
    × (k < j → Known g after (k + 1))
Local g m i (d10 last after) p = (j : ℕ) × Removing p × WasTail g last j × Known g after (j + 1)
Local g m i (d12 first after) p =
    (k : ℕ) × Removing p × WasHead g first k × Known g after (k + 1) × (k + 1 ≤ g.tail)
Local g m i (d13 first after v) p =
    (k : ℕ) × Removing p
    × WasHead g first k
    × Known g after (k + 1)
    × (k + 1 ≤ g.tail)
    × (g.val (k + 1) ≡ v)
Local g m i (r1 first v) p = (k : ℕ) × (p ≡ removed v) × Known g first k
Local g m i (r2 first old v) p = (k : ℕ) × (p ≡ removed v) × Known g first k
Local g m i (r3 first old v) p = (k : ℕ) × (p ≡ removed v) × Known g first k

abbrev pub view : View machine
view = record {
  Ghost = Chain;
  items = contents;
  Inv = Inv;
  Local = Local;
  Rely = λ i g m g' m'. Respects i (look m) g (look m') g';
}

module _ {g g' : Chain} (m m' : Mem) {i j : ℕ} where
  pub stable :
      (c : Pc) (p : Phase)
      → j ≢ i
      → Respects i (look m) g (look m') g'
      → Local g m j c p
      → Local g' m' j c p
  stable (e1 x) p ne r h = h
  stable (e5 n) p ne r h = Adding-kept r ne h
  stable (e6 n last) p ne r (k, a, t) = (k, Adding-kept r ne a, WasTail-grows r.grows t)
  stable (e7 n last after) p ne r (k, a, t, s) =
      (k, Adding-kept r ne a, WasTail-grows r.grows t, Successor-grows r.grows _ k s)
  stable (e9 n last after) p ne r (k, a, t, e) = (k, Adding-kept r ne a, WasTail-grows r.grows t, e)
  stable (e13 n last after) p ne r (k, a, t, s) =
      (k, Adding-kept r ne a, WasTail-grows r.grows t, Known-grows r.grows s)
  stable (e17 n last) p ne r (k, e, t, s) = (k, e, WasTail-grows r.grows t, Known-grows r.grows s)
  stable d2 p ne r h = h
  stable (d3 first) p ne r (k, a, h) = (k, a, WasHead-grows r.grows h)
  stable (d4 first last) p ne r (k, l, a, w) = (k, l, a, Window-grows r.grows w)
  stable (d5 first last after) p ne r (k, l, a, w, s, e, b) = (
    k,
    l,
    a,
    Window-grows r.grows w,
    Successor-grows r.grows _ k s,
    λ z q. e z (omega (arith, r.grows.head, w.was_head.before)),
    λ lt. Known-grows r.grows (b lt),
  )
  stable (d10 last after) p ne r (k, a, t, s) =
      (k, a, WasTail-grows r.grows t, Known-grows r.grows s)
  stable (d12 first after) p ne r (k, a, h, s, o) =
      (k, a, WasHead-grows r.grows h, Known-grows r.grows s, omega (arith, r.grows.tail))
  stable (d13 first after v) p ne r (k, a, h, s, o, e) = (
    k,
    a,
    WasHead-grows r.grows h,
    Known-grows r.grows s,
    omega (arith, r.grows.tail),
    r.grows.val (k + 1) s.linked ∙ e,
  )
  stable (r1 first v) p ne r (k, e, h) = (k, e, Known-grows r.grows h)
  stable (r2 first old v) p ne r (k, e, h) = (k, e, Known-grows r.grows h)
  stable (r3 first old v) p ne r (k, e, h) = (k, e, Known-grows r.grows h)

pub begins : (g : Chain) (m : Mem) (i : ℕ) (o : Op) → Inv g m → Local g m i (begin o) (called o)
unfolding begin
begins g m i (enqueue x) v = refl
begins g m i dequeue v = record { met_empty = false; phase = refl }

-- The node at position `k`, as the memory holds it.
pub record NodeAt (g : Chain) (m : Mem) (p : Ptr) (k : ℕ) : Type 0 where
  pub node : Node
  pub stored : m.nodes p ≡ some node
  pub value : node.value ≡ g.val k
  pub successor : Successor g node.next_node k
  pub last : node.next_node ≡ null → k + 1 ≡ g.len

node_of_look :
    (o : Option Node) (v : Item) (q : Ptr)
    → look_node o ≡ some (v, q)
    → (d : Node) × (o ≡ some d) × (d.value ≡ v) × (d.next_node ≡ q)
node_of_look none v q h = absurd (cc)
node_of_look (some d) v q h = (d, refl, ground arith, ground arith)

pub Known-node :
    {g : Chain} (m : Mem) {p : Ptr} {k : ℕ} → IsChain (look m) g → Known g p k → NodeAt g m p k
Known-node {g} m {p} {k} c h =
    let (d, e, ev, eq) = node_of_look (m.nodes p) (g.val k) (next_at g k) (look-known c h) in
    record {
      node = d;
      stored = e;
      value = ev;
      successor = next_at-Successor c h eq;
      last = next_at-null c h eq;
    }

pub deref-stored :
    (m : Mem) {p : Ptr} {d : Node} (k : Node → Outcome Mem Pc Answer)
    → m.nodes p ≡ some d
    → deref m p k ≡ k d
unfolding deref
deref-stored m k e = rw (e, deref)
