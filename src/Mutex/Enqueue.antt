-- ===== src/Mutex/Enqueue.antt =====
-- `enqueue` of mutex_queue.hpp takes effect under the mutex.
use concurrent_queue_evaluat.Base.{
  ℕ, ◌+◌, ◌-◌, ◌≤◌, ◌≡◌, ◌≢◌, refl, sym, ap, ◌∙◌, inl, inr, Bool-cases, some, none, Ptr, null, ◌==◌,
  update, arith,
}
use concurrent_queue_evaluat.Fifo.{Item, Phase, added, put_of, enqueue_ends}
use concurrent_queue_evaluat.Machine.{Env, next}
use concurrent_queue_evaluat.Machine.Simulation.{Good, goes, ends, silent, visible}
use concurrent_queue_evaluat.Chain.Contents.{between_link}
use concurrent_queue_evaluat.Live.{Live, Adds}
use concurrent_queue_evaluat.Live.Changes.{
  alloc, alloc-IsLive, alloc-Keeps, link, link-IsLive, link-Keeps, first-IsLive, first-Keeps,
}
use concurrent_queue_evaluat.Mutex.{Node, Mem, store, move, machine, a1, a2, a3, a4}
use concurrent_queue_evaluat.Mutex.Knowledge.{
  look, Inv, Local, view, deref-stored, node_of_look, Good-acquire, relocked,
}

module _ (g : Live) (m : Mem) (i : ℕ) (e : Env) (p : Phase) (v : Inv g m) where
  pub Good-a1 :
      (x : Item)
      → Local g m i (a1 x) p
      → e.fresh ≢ null
      → m.nodes e.fresh ≡ none
      → Good machine view g m i p (move i e m (a1 x))
  unfolding move
  Good-a1 x h nn unused =
      let look_fresh : look m e.fresh ≡ none = ground arith in
      let m' = store m e.fresh (record { item = x; next_node = null }) in
      let written : (q : Ptr) → look m' q ≡ update (look m) e.fresh (some (x, null)) q =
        λ q. ground arith in
      goes (alloc g i e.fresh) p
        (record {
          live = alloc-IsLive v.live i e.fresh x nn look_fresh written;
          order = v.order;
          head_here = v.head_here;
          tail_here = v.tail_here;
        })
        (record {
          keeps = alloc-Keeps v.live i e.fresh x nn look_fresh written;
          locked = λ j ne l. l;
        })
        (record { item = x; phase = h; owned = ground arith; filled = ground arith })
        (silent refl refl)

  pub Good-a2 : (n : Ptr) → Local g m i (a2 n) p → Good machine view g m i p (move i e m (a2 n))
  unfolding move
  Good-a2 n h = Good-acquire g m i p m.mutex _ λ unlocked.
      let (inv, rely) = relocked {i = i} (some i) v (inl unlocked) in
      goes g p inv rely (h, refl) (silent refl refl)

  -- The list is empty: both ends name the new node.
  Good-first :
      (n : Ptr)
      → Adds (look m) g i n p
      → m.mutex ≡ some i
      → g.head ≡ g.len
      → Good machine view g m i p (next (record m { head = n; tail = n }) a4)
  Good-first n a lock empty =
      goes {c' = a4} (link g n a.item) added
        (record {
          live = first-IsLive v.live i n a.item a.owned a.filled empty;
          order = omega arith;
          head_here = ground arith;
          tail_here = λ k h lo. ground arith;
        })
        (record {
          keeps = first-Keeps v.live i n a.item a.owned a.filled empty;
          locked = λ j ne l. l;
        })
        (refl, lock) (visible (put_of a.phase (between_link g.val g.head g.len a.item v.order)))

  -- The new node is linked behind the last one, at position `k`.
  Good-linked :
      (n : Ptr) (k : ℕ) (d : Node)
      → Adds (look m) g i n p
      → m.mutex ≡ some i
      → g.head ≤ k
      → k + 1 ≡ g.len
      → d.item ≡ g.val k
      → Good machine view g m i p (
          next
            (record m {
              nodes = update m.nodes m.tail (some (record d { next_node = n }));
              tail = n;
            })
            a4)
  Good-linked n k d a lock lo last value =
      let m' = record m {
        nodes = update m.nodes m.tail (some (record d { next_node = n }));
        tail = n;
      } in
      let here = v.tail_here k last lo in
      let written : (q : Ptr) → look m' q ≡ update (look m) (g.at k) (some (g.val k, n)) q =
        λ q. ground arith in
      goes {c' = a4} (link g n a.item) added
        (record {
          live = link-IsLive v.live i n a.item a.owned a.filled k lo last written;
          order = omega (arith, v.order);
          head_here = ground (arith, v.head_here);
          tail_here = λ j h lj. ground arith;
        })
        (record {
          keeps = link-Keeps v.live i n a.item a.owned a.filled k lo last written;
          locked = λ j ne l. l;
        })
        (refl, lock) (visible (put_of a.phase (between_link g.val g.head g.len a.item v.order)))

  pub Good-a3 : (n : Ptr) → Local g m i (a3 n) p → Good machine view g m i p (move i e m (a3 n))
  unfolding move
  Good-a3 n (a, lock) = elim (Bool-cases (m.head == null)) [
    | inl z ↦ rw z (Good-first n a lock (ground (arith, v.order, v.live.nonnull g.head)))
    | inr nz ↦
        let k = g.len - 1 in
        let some_node : g.head ≢ g.len = ground (arith, v.head_here) in
        let lo : g.head ≤ k = omega (arith, v.order) in
        let last : k + 1 ≡ g.len = omega (arith, v.order) in
        let (d, stored, value, _) =
          node_of_look (m.nodes (g.at k)) (g.val k) _ (v.live.cell k lo (omega arith)) in
        rw (nz, deref-stored m _ (ap m.nodes (sym (v.tail_here k last lo)) ∙ stored))
          (Good-linked n k d a lock lo last value)
  ]

  pub Good-a4 : Local g m i a4 p → Good machine view g m i p (move i e m a4)
  unfolding move
  Good-a4 (q, lock) =
      let (inv, rely) = relocked none v (inr lock) in
      ends g added inv rely enqueue_ends (silent refl (sym q))
