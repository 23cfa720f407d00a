-- ===== src/Live.antt =====
-- The linked list behind the queues of mutex_queue.hpp and two_lock_queue.hpp, as a proof sees it:
-- the nodes from the head on, by the position at which they were linked. These classes delete a
-- removed node, so an address may come back at a later position.
pub mod Changes
use concurrent_queue_evaluat.Base.{
  ℕ, ◌+◌, ◌≤◌, ◌<◌, ◌≡◌, ◌≢◌, Option, none, some, Ptr, null, ◌==◌, if◌then◌else◌,
}
use concurrent_queue_evaluat.Fifo.{Item, Phase, adding}
use concurrent_queue_evaluat.Chain.{Look}

pub record Live : Type 0 where
  pub at : ℕ → Ptr
  pub val : ℕ → Item
  pub len : ℕ
  pub head : ℕ  -- the position of the first node
  pub owner : Ptr → Option ℕ  -- the thread that alone can reach a node

pub record IsLive (look : Look) (g : Live) : Type 0 where
  pub cell :
      (k : ℕ)
      → g.head ≤ k
      → k < g.len
      → look (g.at k) ≡ some (g.val k, if (k + 1) == g.len then null else g.at (k + 1))
  pub distinct :
      (j k : ℕ) → g.head ≤ j → j < g.len → g.head ≤ k → k < g.len → g.at j ≡ g.at k → j ≡ k
  pub nonnull : (k : ℕ) → g.head ≤ k → k < g.len → g.at k ≢ null
  pub shared : (k : ℕ) → g.head ≤ k → k < g.len → g.owner (g.at k) ≡ none
  pub private : (p : Ptr) (i : ℕ) → g.owner p ≡ some i → (p ≢ null) × (look p ≢ none)

-- What an access of thread `i` leaves alone.
pub record Keeps (i : ℕ) (look : Look) (g : Live) (look' : Look) (g' : Live) : Type 0 where
  pub kept :
      (j : ℕ) (p : Ptr) → j ≢ i → g.owner p ≡ some j → (g'.owner p ≡ some j) × (look' p ≡ look p)
  pub len : g.len ≤ g'.len
  pub at : (k : ℕ) → k < g.len → g'.at k ≡ g.at k
  pub val : (k : ℕ) → k < g.len → g'.val k ≡ g.val k

-- A call of `enqueue` of thread `i` that has its node and is not in effect.
pub record Adds (look : Look) (g : Live) (i : ℕ) (n : Ptr) (p : Phase) : Type 0 where
  pub item : Item
  pub phase : p ≡ adding item
  pub owned : g.owner n ≡ some i
  pub filled : look n ≡ some (item, null)
