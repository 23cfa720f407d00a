-- ===== src/Chain.antt =====
-- The linked list behind the queues of ms_queue.hpp and valois_queue.hpp, as a proof sees it: all
-- nodes that were ever linked, by their position. Both classes keep a removed node until the queue
-- is destroyed, so a position keeps its node, and an address never names two nodes.
pub mod Contents
pub mod Changes
use concurrent_queue_evaluat.Base.{
  ℕ, zero, suc, ◌+◌, ◌-◌, ◌≤◌, ◌<◌, ◌≡◌, ◌≢◌, Bool, true, Option, none, some, List, [], ◌∷◌, Ptr,
  null, ◌==◌, if◌then◌else◌, update,
}
use concurrent_queue_evaluat.Fifo.{Item, Phase, adding, removing}

-- The value and the successor in the node at an address.
abbrev pub Look : Type 0
Look = Ptr → Option (Item × Ptr)

pub record Chain : Type 0 where
  pub at : ℕ → Ptr
  pub val : ℕ → Item
  pub len : ℕ
  pub head : ℕ  -- the position of the dummy node
  pub tail : ℕ  -- the position of the node that the tail pointer names
  pub owner : Ptr → Option ℕ  -- the thread that has allocated a node and not linked it

pub record IsChain (look : Look) (g : Chain) : Type 0 where
  pub cell :
      (k : ℕ)
      → k < g.len
      → look (g.at k) ≡ some (g.val k, if (k + 1) == g.len then null else g.at (k + 1))
  pub distinct : (j k : ℕ) → j < g.len → k < g.len → g.at j ≡ g.at k → j ≡ k
  pub nonnull : (k : ℕ) → k < g.len → g.at k ≢ null
  pub shared : (k : ℕ) → k < g.len → g.owner (g.at k) ≡ none
  pub private : (p : Ptr) (i : ℕ) → g.owner p ≡ some i → (p ≢ null) × (look p ≢ none)
  pub order : (g.head ≤ g.tail) × (g.tail < g.len) × (g.len ≤ g.tail + 2)

-- Positions only move forward, and a position keeps its node and value.
pub record Grows (g g' : Chain) : Type 0 where
  pub len : g.len ≤ g'.len
  pub head : g.head ≤ g'.head
  pub tail : g.tail ≤ g'.tail
  pub at : (k : ℕ) → k < g.len → g'.at k ≡ g.at k
  pub val : (k : ℕ) → k < g.len → g'.val k ≡ g.val k

-- What an access of thread `i` leaves alone.
pub record Respects (i : ℕ) (look : Look) (g : Chain) (look' : Look) (g' : Chain) : Type 0 where
  pub grows : Grows g g'
  pub kept :
      (j : ℕ) (p : Ptr) → j ≢ i → g.owner p ≡ some j → (g'.owner p ≡ some j) × (look' p ≡ look p)

-- A node that thread `i` has allocated and filled, and not linked.
pub record Own (look : Look) (g : Chain) (i : ℕ) (n : Ptr) (x : Item) : Type 0 where
  pub owned : g.owner n ≡ some i
  pub filled : look n ≡ some (x, null)

-- The node at position `k`.
pub record Known (g : Chain) (p : Ptr) (k : ℕ) : Type 0 where
  pub linked : k < g.len
  pub here : g.at k ≡ p

-- What a thread that has read the successor of position `k` knows: it is final if it is not null.
abbrev pub Successor : Chain → Ptr → ℕ → Type 0
Successor g p k = p ≢ null → Known g p (k + 1)

-- A call of `enqueue` that has its node and is not in effect.
pub record Adding (look : Look) (g : Chain) (i : ℕ) (n : Ptr) (p : Phase) : Type 0 where
  pub item : Item
  pub phase : p ≡ adding item
  pub own : Own look g i n item

-- A call of `dequeue` that is not in effect.
pub record Removing (p : Phase) : Type 0 where
  pub met_empty : Bool
  pub phase : p ≡ removing met_empty

-- A node that the tail pointer names, or has named; the same for the head pointer.
pub record WasTail (g : Chain) (p : Ptr) (k : ℕ) : Type 0 where
  pub known : Known g p k
  pub before : k ≤ g.tail

pub record WasHead (g : Chain) (p : Ptr) (k : ℕ) : Type 0 where
  pub known : Known g p k
  pub before : k ≤ g.head

-- The first pointer is at `k`, and the last one was read after it.
pub record Window (g : Chain) (first last : Ptr) (k j : ℕ) : Type 0 where
  pub was_head : WasHead g first k
  pub was_tail : WasTail g last j
  pub ordered : k ≤ j

-- A null successor of the dummy shows an empty queue.
abbrev pub Emptiness : Chain → Ptr → ℕ → Bool → Type 0
Emptiness g after k b = after ≡ null → k ≡ g.head → b ≡ true

unfoldable pub slice : (ℕ → Item) → ℕ → ℕ → List Item
slice f s zero = []
slice f s (suc n) = f s ∷ slice f (s + 1) n

-- The items in the queue: those behind the dummy.
unfoldable pub contents : Chain → List Item
contents g = slice g.val (g.head + 1) (g.len - (g.head + 1))
