-- ===== src/Chain/Changes.antt =====
-- The changes of the linked list, each kept from spoiling what the proofs know.
use concurrent_queue_evaluat.Base.{
  ℕ, ◌+◌, ◌≤◌, ◌<◌, ◌≡◌, ◌≢◌, refl, sym, ◌∙◌, some, none, Ptr, null, ◌==◌, if◌then◌else◌, update,
  false, arith, ℕ_discrete,
}
use concurrent_queue_evaluat.Fifo.{Item, Phase}
use concurrent_queue_evaluat.Chain.{
  Look, Chain, IsChain, Grows, Respects, Own, Known, Successor, Adding, WasTail, WasHead, Window,
}
use concurrent_queue_evaluat.Chain.Contents.{pop, link}

pub Grows-refl : (g : Chain) → Grows g g
Grows-refl g = record {
  len = omega arith;
  head = omega arith;
  tail = omega arith;
  at = λ k h. refl;
  val = λ k h. refl;
}

pub Respects-refl : (i : ℕ) (look : Look) (g : Chain) → Respects i look g look g
Respects-refl i look g = record { grows = Grows-refl g; kept = λ j p n o. (o, refl) }

module _ {look : Look} {g : Chain} (c : IsChain look g) where
  open c use {cell, distinct, nonnull, shared, private, order}

  -- The tail pointer moves to the node behind it.
  abbrev pub swing : Chain
  swing = record g { tail = g.tail + 1 }

  pub swing-IsChain : g.tail + 1 < g.len → IsChain look swing
  swing-IsChain h = record {
    cell = cell;
    distinct = distinct;
    nonnull = nonnull;
    shared = shared;
    private = private;
    order = omega arith;
  }

  pub swing-Respects : (i : ℕ) → Respects i look g look swing
  swing-Respects i = record {
    grows = record {
      len = omega arith;
      head = omega arith;
      tail = omega arith;
      at = λ k h. refl;
      val = λ k h. refl;
    };
    kept = λ j p n o. (o, refl);
  }

  -- The dummy is dropped; the next node is the dummy now.
  pub pop-IsChain : g.head < g.tail → IsChain look (pop g)
  pop-IsChain h = record {
    cell = cell;
    distinct = distinct;
    nonnull = nonnull;
    shared = shared;
    private = private;
    order = omega arith;
  }

  pub pop-Respects : (i : ℕ) → Respects i look g look (pop g)
  pop-Respects i = record {
    grows = record {
      len = omega arith;
      head = omega arith;
      tail = omega arith;
      at = λ k h. refl;
      val = λ k h. refl;
    };
    kept = λ j p n o. (o, refl);
  }

  -- A new node of thread `i`.
  module _ (i : ℕ) (n : Ptr) (x : Item) (nn : n ≢ null) (unused : look n ≡ none) {look' : Look}
      (e : (p : Ptr) → look' p ≡ update look n (some (x, null)) p) where
    abbrev pub alloc : Chain
    alloc = record g { owner = update g.owner n (some i) }

    at-ne-fresh : (k : ℕ) → k < g.len → n ≢ g.at k
    at-ne-fresh k h = ground (arith, cell k)

    pub alloc-IsChain : IsChain look' alloc
    alloc-IsChain = record {
      cell = λ k h. ground (arith, cell k, e (g.at k));
      distinct = distinct;
      nonnull = nonnull;
      shared = λ k h. ground (arith, at-ne-fresh k, shared k);
      private = λ p j o. ground (arith, private p j, e p);
      order = order;
    }

    pub alloc-Respects : Respects i look g look' alloc
    alloc-Respects = record {
      grows = record {
        len = omega arith;
        head = omega arith;
        tail = omega arith;
        at = λ k h. refl;
        val = λ k h. refl;
      };
      kept = λ j p ne o. ground (arith, private p j, e p);
    }

    pub alloc-Own : Own look' alloc i n x
    alloc-Own = record { owned = ground arith; filled = ground (arith, e n) }

  -- The node of thread `i` is linked behind the last one, at position `k`.
  module _ (i : ℕ) (n : Ptr) (x : Item) (own : Own look g i n x) (k : ℕ) (last : k + 1 ≡ g.len)
      {look' : Look} (e : (p : Ptr) → look' p ≡ update look (g.at k) (some (g.val k, n)) p) where
    open own use {owned, filled}

    at-ne-own : (j : ℕ) → j < g.len → n ≢ g.at j
    at-ne-own j h = ground (arith, shared j)

    pub link-IsChain : g.len ≤ g.tail + 1 → IsChain look' (link g n x)
    link-IsChain caught_up = record {
      cell = λ j h. elim (ℕ_discrete j g.len) [
        | yes q ↦ ground (arith, e n, at-ne-own k)
        | no q ↦ ground (arith, e (g.at j), distinct j k, cell j)
      ];
      distinct = λ a b ha hb q. ground (arith, distinct a b, at-ne-own a, at-ne-own b);
      nonnull = λ j h. ground (arith, nonnull j, private n i);
      shared = λ j h. ground (arith, shared j, at-ne-own j);
      private = λ p j o. ground (arith, private p j, e p);
      order = omega arith;
    }

    pub link-Respects : Respects i look g look' (link g n x)
    link-Respects = record {
      grows = record {
        len = omega arith;
        head = omega arith;
        tail = omega arith;
        at = λ j h. ground arith;
        val = λ j h. ground arith;
      };
      kept = λ j p ne o. ground (arith, shared k, e p);
    }

-- What a thread knows survives the growth of the chain.
module _ {g g' : Chain} (w : Grows g g') where
  pub Known-grows : {p : Ptr} {k : ℕ} → Known g p k → Known g' p k
  Known-grows {k} h = record { linked = omega (arith, w.len); here = w.at k h.linked ∙ h.here }

  pub Successor-grows : (p : Ptr) (k : ℕ) → Successor g p k → Successor g' p k
  Successor-grows p k s nn = Known-grows (s nn)

  pub WasTail-grows : {p : Ptr} {k : ℕ} → WasTail g p k → WasTail g' p k
  WasTail-grows h = record { known = Known-grows h.known; before = omega (arith, w.tail, h.before) }

  pub WasHead-grows : {p : Ptr} {k : ℕ} → WasHead g p k → WasHead g' p k
  WasHead-grows h = record { known = Known-grows h.known; before = omega (arith, w.head, h.before) }

  pub Window-grows :
      {first last : Ptr} {k j : ℕ} → Window g first last k j → Window g' first last k j
  Window-grows x = record {
    was_head = WasHead-grows x.was_head;
    was_tail = WasTail-grows x.was_tail;
    ordered = x.ordered;
  }

pub Own-kept :
    {i j : ℕ} {look look' : Look} {g g' : Chain} {n : Ptr} {x : Item}
    → Respects i look g look' g'
    → j ≢ i
    → Own look g j n x
    → Own look' g' j n x
Own-kept {j} {n} r ne o =
    let (owned, same) = r.kept j n ne o.owned in record { owned = owned; filled = same ∙ o.filled }

pub Adding-kept :
    {i j : ℕ} {look look' : Look} {g g' : Chain} {n : Ptr} {p : Phase}
    → Respects i look g look' g'
    → j ≢ i
    → Adding look g j n p
    → Adding look' g' j n p
Adding-kept r ne a = record { item = a.item; phase = a.phase; own = Own-kept r ne a.own }

abbrev pub next_at : Chain → ℕ → Ptr
next_at g k = if (k + 1) == g.len then null else g.at (k + 1)

-- The node at a known position: its value, and its successor, which is final if it is not null.
module _ {look : Look} {g : Chain} (c : IsChain look g) {p : Ptr} {k : ℕ} (h : Known g p k) where
  pub look-known : look p ≡ some (g.val k, next_at g k)
  look-known = rw (← h.here) (c.cell k h.linked)

  pub next_at-Successor : {q : Ptr} → q ≡ next_at g k → Successor g q k
  next_at-Successor e nn = record {
    linked = ground (arith, h.linked);
    here = ground (arith, h.linked);
  }

  pub next_at-null : {q : Ptr} → q ≡ next_at g k → q ≡ null → k + 1 ≡ g.len
  next_at-null e z = ground (arith, h.linked, c.nonnull (k + 1))

-- An address has one position.
pub Known-unique :
    {look : Look} {g : Chain} {p q : Ptr} {j k : ℕ}
    → IsChain look g
    → Known g p j
    → Known g q k
    → p ≡ q
    → j ≡ k
Known-unique {j} {k} c h h' e = c.distinct j k h.linked h'.linked (h.here ∙ e ∙ sym h'.here)

-- Different pointers have different positions, and the last one is not before the first.
pub later_tail : {g : Chain} {a b : Ptr} {k j : ℕ} → Window g a b k j → (a == b) ≡ false → k < j
later_tail {k} {j} w apart = elim (ℕ_discrete k j) [
  | yes q ↦ absurd (ground (arith, w.was_head.known.here, w.was_tail.known.here))
  | no n ↦ omega (arith, w.ordered)
]
