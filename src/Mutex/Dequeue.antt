-- ===== src/Mutex/Dequeue.antt =====
-- `dequeue` of mutex_queue.hpp takes effect under the mutex; the removed node is deleted when no
-- other thread can reach it.
use concurrent_queue_evaluat.Base.{
  ℕ, ◌+◌, ◌≤◌, ◌<◌, ◌≡◌, ◌≢◌, refl, sym, ap, ◌∙◌, true, inl, inr, Bool-cases, some, none, Ptr, null,
  ◌==◌, if◌then◌else◌, update, arith,
}
use concurrent_queue_evaluat.Fifo.{
  Phase, removing, removed, take_of, meet_empty_of, dequeue_ends, dequeue_fails,
}
use concurrent_queue_evaluat.Machine.{Env, next}
use concurrent_queue_evaluat.Machine.Simulation.{Good, goes, ends, silent, visible}
use concurrent_queue_evaluat.Chain.{Removing}
use concurrent_queue_evaluat.Chain.Contents.{between_pop, between_empty}
use concurrent_queue_evaluat.Live.{Live}
use concurrent_queue_evaluat.Live.Changes.{
  drop, drop-IsLive, drop-Keeps, free, free-IsLive, free-Keeps,
}
use concurrent_queue_evaluat.Mutex.{Node, Mem, move, machine, b1, b2, b3, b4, b9}
use concurrent_queue_evaluat.Mutex.Knowledge.{
  look, Inv, Rely-refl, Local, view, deref-stored, node_of_look, Good-acquire, relocked,
}

module _ (g : Live) (m : Mem) (i : ℕ) (e : Env) (p : Phase) (v : Inv g m) where
  pub Good-b1 : Local g m i b1 p → Good machine view g m i p (move i e m b1)
  unfolding move
  Good-b1 r = Good-acquire g m i p m.mutex _ λ unlocked.
      let (inv, rely) = relocked {i = i} (some i) v (inl unlocked) in
      goes g p inv rely (r, refl) (silent refl refl)

  -- The first node is taken off the list.
  Good-taken :
      (d : Node)
      → Removing p
      → m.mutex ≡ some i
      → g.head < g.len
      → g.at g.head ≡ m.head
      → m.nodes (g.at g.head) ≡ some d
      → d.item ≡ g.val g.head
      → d.next_node ≡ (if (g.head + 1) == g.len then null else g.at (g.head + 1))
      → Good machine view g m i p (
          next
            (record m { head = d.next_node; tail = if d.next_node == null then null else m.tail })
            (b3 m.head))
  Good-taken d r lock lt here stored value succ =
      goes {c' = b3 m.head} (drop g i) (removed (g.val g.head))
        (record {
          live = drop-IsLive v.live i lt;
          order = omega arith;
          head_here = succ;
          tail_here = λ k h lo. ground (arith, v.tail_here k, v.live.nonnull (g.head + 1));
        })
        (record { keeps = drop-Keeps v.live i lt; locked = λ j ne l. l })
        (
          record {
            value = g.val g.head;
            after = d.next_node;
            phase = refl;
            owned = ground arith;
            filled = ground arith;
          },
          lock,
        )
        (visible (take_of r.phase (between_pop g.val g.head g.len lt)))

  pub Good-b2 : Local g m i b2 p → Good machine view g m i p (move i e m b2)
  unfolding move
  Good-b2 (r, lock) = elim (Bool-cases (m.head == null)) [
    | inl z ↦
        let empty : g.len ≤ g.head = ground (arith, v.head_here, v.order, v.live.nonnull g.head) in
        rw z (
          goes {c' = b9} g (removing true) v (Rely-refl i g m) (refl, lock)
            (visible (meet_empty_of r.phase (between_empty g.val g.head g.len empty))))
    | inr nz ↦
        let some_node : g.head ≢ g.len = ground (arith, v.head_here) in
        let lt : g.head < g.len = omega (arith, v.order) in
        let here : g.at g.head ≡ m.head = ground (arith, v.head_here) in
        let (d, stored, value, succ) =
          node_of_look (m.nodes (g.at g.head)) (g.val g.head) _
            (v.live.cell g.head (omega arith) lt) in
        rw (nz, deref-stored m _ (ap m.nodes (sym here) ∙ stored))
          (Good-taken d r lock lt here stored value succ)
  ]

  pub Good-b3 :
      (tmp : Ptr) → Local g m i (b3 tmp) p → Good machine view g m i p (move i e m (b3 tmp))
  unfolding move
  Good-b3 tmp (t, lock) =
      let (inv, rely) = relocked none v (inr lock) in goes g p inv rely t (silent refl refl)

  pub Good-b4 :
      (tmp : Ptr) → Local g m i (b4 tmp) p → Good machine view g m i p (move i e m (b4 tmp))
  unfolding move
  Good-b4 tmp t =
      let (d, stored, value, _) = node_of_look (m.nodes tmp) t.value t.after t.filled in
      let m' = record m { nodes = update m.nodes tmp none } in
      let gone : (a : Ptr) → look m' a ≡ update (look m) tmp none a = λ a. ground arith in
      rw (deref-stored m _ stored) (
        ends (free g tmp) (removed d.item)
          (record {
            live = free-IsLive v.live i tmp t.owned gone;
            order = v.order;
            head_here = v.head_here;
            tail_here = v.tail_here;
          })
          (record { keeps = free-Keeps v.live i tmp t.owned gone; locked = λ j ne l. l })
          dequeue_ends (silent refl (ap removed value ∙ sym t.phase)))

  pub Good-b9 : Local g m i b9 p → Good machine view g m i p (move i e m b9)
  unfolding move
  Good-b9 (q, lock) =
      let (inv, rely) = relocked none v (inr lock) in
      ends g (removing true) inv rely dequeue_fails (silent refl (sym q))
