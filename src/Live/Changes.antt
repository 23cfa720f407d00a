-- ===== src/Live/Changes.antt =====
-- The changes of the list: a new node, a node linked at the end, the first node dropped or deleted.
use concurrent_queue_evaluat.Base.{
  ℕ, ◌+◌, ◌≤◌, ◌<◌, ◌≡◌, ◌≢◌, refl, ◌∙◌, some, none, Ptr, null, update, arith, ℕ_discrete,
}
use concurrent_queue_evaluat.Fifo.{Item, Phase}
use concurrent_queue_evaluat.Chain.{Look}
use concurrent_queue_evaluat.Live.{Live, IsLive, Keeps, Adds}

pub Keeps-refl : (i : ℕ) (look : Look) (g : Live) → Keeps i look g look g
Keeps-refl i look g = record {
  kept = λ j p n o. (o, refl);
  len = omega arith;
  at = λ k h. refl;
  val = λ k h. refl;
}

abbrev pub alloc : Live → ℕ → Ptr → Live
alloc g i n = record g { owner = update g.owner n (some i) }

-- The node at `n`, with the item `x`, behind the last one.
abbrev pub link : Live → Ptr → Item → Live
link g n x = record g {
  at = update g.at g.len n;
  val = update g.val g.len x;
  len = g.len + 1;
  owner = update g.owner n none;
}

-- The first node leaves the list, and thread `i` alone can reach it.
abbrev pub drop : Live → ℕ → Live
drop g i = record g { head = g.head + 1; owner = update g.owner (g.at g.head) (some i) }

abbrev pub free : Live → Ptr → Live
free g n = record g { owner = update g.owner n none }

module _ {look : Look} {g : Live} (c : IsLive look g) where
  open c use {cell, distinct, nonnull, shared, private}

  module _ (i : ℕ) (n : Ptr) (x : Item) (nn : n ≢ null) (unused : look n ≡ none) {look' : Look}
      (e : (p : Ptr) → look' p ≡ update look n (some (x, null)) p) where
    at-ne-fresh : (k : ℕ) → g.head ≤ k → k < g.len → n ≢ g.at k
    at-ne-fresh k lo h = ground (arith, cell k)

    pub alloc-IsLive : IsLive look' (alloc g i n)
    alloc-IsLive = record {
      cell = λ k lo h. ground (arith, cell k, e (g.at k));
      distinct = distinct;
      nonnull = nonnull;
      shared = λ k lo h. ground (arith, at-ne-fresh k, shared k);
      private = λ p j o. ground (arith, private p j, e p);
    }

    pub alloc-Keeps : Keeps i look g look' (alloc g i n)
    alloc-Keeps = record {
      kept = λ j p ne o. ground (arith, private p j, e p);
      len = omega arith;
      at = λ k h. refl;
      val = λ k h. refl;
    }

  -- A node of thread `i` is linked; `k` is the position of the last node, which is written.
  module _ (i : ℕ) (n : Ptr) (x : Item) (owned : g.owner n ≡ some i)
      (filled : look n ≡ some (x, null)) where
    at-ne-own : (j : ℕ) → g.head ≤ j → j < g.len → n ≢ g.at j
    at-ne-own j lo h = ground (arith, shared j)

    link-distinct :
        (a b : ℕ)
        → g.head ≤ a
        → a < g.len + 1
        → g.head ≤ b
        → b < g.len + 1
        → update g.at g.len n a ≡ update g.at g.len n b
        → a ≡ b
    link-distinct a b la ha lb hb q = ground (arith, distinct a b, at-ne-own a, at-ne-own b)

    module _ (k : ℕ) (lo : g.head ≤ k) (last : k + 1 ≡ g.len) {look' : Look}
        (e : (p : Ptr) → look' p ≡ update look (g.at k) (some (g.val k, n)) p) where
      pub link-IsLive : IsLive look' (link g n x)
      link-IsLive = record {
        cell = λ j lj h. elim (ℕ_discrete j g.len) [
          | yes q ↦ ground (arith, e n, at-ne-own k)
          | no q ↦ ground (arith, e (g.at j), distinct j k, cell j)
        ];
        distinct = link-distinct;
        nonnull = λ j lj h. ground (arith, nonnull j, private n i);
        shared = λ j lj h. ground (arith, shared j, at-ne-own j);
        private = λ p j o. ground (arith, private p j, e p);
      }

      pub link-Keeps : Keeps i look g look' (link g n x)
      link-Keeps = record {
        kept = λ j p ne o. ground (arith, shared k, e p);
        len = omega arith;
        at = λ j h. ground arith;
        val = λ j h. ground arith;
      }

    -- The same where the list is empty and no node is written.
    module _ (nothing : g.head ≡ g.len) where
      pub first-IsLive : IsLive look (link g n x)
      first-IsLive = record {
        cell = λ j lj h. ground arith;
        distinct = link-distinct;
        nonnull = λ j lj h. ground (arith, private n i);
        shared = λ j lj h. ground arith;
        private = λ p j o. ground (arith, private p j);
      }

      pub first-Keeps : Keeps i look g look (link g n x)
      first-Keeps = record {
        kept = λ j p ne o. ground arith;
        len = omega arith;
        at = λ j h. ground arith;
        val = λ j h. ground arith;
      }

  module _ (i : ℕ) (some_node : g.head < g.len) where
    pub drop-IsLive : IsLive look (drop g i)
    drop-IsLive = record {
      cell = λ k lo h. cell k (omega arith) h;
      distinct = λ j k lj hj lk hk q. distinct j k (omega arith) hj (omega arith) hk q;
      nonnull = λ k lo h. nonnull k (omega arith) h;
      shared = λ k lo h. ground (arith, shared k, distinct k g.head);
      private = λ p j o. ground (arith, private p j, nonnull g.head, cell g.head);
    }

    pub drop-Keeps : Keeps i look g look (drop g i)
    drop-Keeps = record {
      kept = λ j p ne o. ground (arith, shared g.head);
      len = omega arith;
      at = λ k h. refl;
      val = λ k h. refl;
    }

  -- Thread `i` deletes a node that it alone can reach.
  module _ (i : ℕ) (n : Ptr) (owned : g.owner n ≡ some i) {look' : Look}
      (e : (p : Ptr) → look' p ≡ update look n none p) where
    pub free-IsLive : IsLive look' (free g n)
    free-IsLive = record {
      cell = λ k lo h. ground (arith, cell k, shared k, e (g.at k));
      distinct = distinct;
      nonnull = nonnull;
      shared = λ k lo h. ground (arith, shared k);
      private = λ p j o. ground (arith, private p j, e p);
    }

    pub free-Keeps : Keeps i look g look' (free g n)
    free-Keeps = record {
      kept = λ j p ne o. ground (arith, e p);
      len = omega arith;
      at = λ k h. refl;
      val = λ k h. refl;
    }

pub Adds-kept :
    {i j : ℕ} {look look' : Look} {g g' : Live} {n : Ptr} {p : Phase}
    → Keeps i look g look' g'
    → j ≢ i
    → Adds look g j n p
    → Adds look' g' j n p
Adds-kept {j} {n} r ne a =
    let (owned, same) = r.kept j n ne a.owned in
    record { item = a.item; phase = a.phase; owned = owned; filled = same ∙ a.filled }
