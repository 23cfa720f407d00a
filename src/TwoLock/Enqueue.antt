-- ===== src/TwoLock/Enqueue.antt =====
-- `enqueue` of two_lock_queue.hpp takes effect where the new node is linked behind the last one.
use concurrent_queue_evaluat.Base.{
  ℕ, ◌+◌, ◌-◌, ◌≤◌, ◌≡◌, ◌≢◌, refl, sym, ap, ◌∙◌, true, false, some, none, Ptr, null, update, arith,
}
use concurrent_queue_evaluat.Fifo.{Item, Phase, added, put_of, enqueue_ends}
use concurrent_queue_evaluat.Machine.{Env, next}
use concurrent_queue_evaluat.Machine.Simulation.{Good, goes, ends, silent, visible}
use concurrent_queue_evaluat.Chain.Contents.{between_link}
use concurrent_queue_evaluat.Live.{Adds}
use concurrent_queue_evaluat.Live.Changes.{
  Keeps-refl, alloc, alloc-IsLive, alloc-Keeps, link, link-IsLive, link-Keeps,
}
use concurrent_queue_evaluat.TwoLock.{Node, Mem, store, move, machine, a1, a2, a3, a4, a5}
use concurrent_queue_evaluat.TwoLock.Knowledge.{
  look, Ghost, Inv, Local, view, deref-stored, node_at, Good-acquire,
}

module _ (g : Ghost) (m : Mem) (i : ℕ) (e : Env) (p : Phase) (v : Inv g m) where
  pub Good-a1 :
      (x : Item)
      → Local g m i (a1 x) p
      → e.fresh ≢ null
      → m.nodes e.fresh ≡ none
      → Good machine view g m i p (move i e m (a1 x))
  unfolding move
  Good-a1 x h nn unused =
      let look_fresh : look m e.fresh ≡ none = ground arith in
      let m' = store m e.fresh (record { item = x; next_node = null }) in
      let written : (q : Ptr) → look m' q ≡ update (look m) e.fresh (some (x, null)) q =
        λ q. ground arith in
      goes (record g { list = alloc g.list i e.fresh }) p
        (record {
          live = alloc-IsLive v.live i e.fresh x nn look_fresh written;
          dummy = v.dummy;
          head_here = v.head_here;
          tail_here = v.tail_here;
          tail_free = v.tail_free;
        })
        (record {
          keeps = alloc-Keeps v.live i e.fresh x nn look_fresh written;
          tail_locked = λ j ne l. (l, refl, refl);
          head_locked = λ j ne l. (l, refl);
        })
        (record { item = x; phase = h; owned = ground arith; filled = ground arith })
        (silent refl refl)

  pub Good-a2 : (n : Ptr) → Local g m i (a2 n) p → Good machine view g m i p (move i e m (a2 n))
  unfolding move
  Good-a2 n h = Good-acquire g m i p m.tail_lock _ λ unlocked.
      goes g p
        (record {
          live = v.live;
          dummy = v.dummy;
          head_here = v.head_here;
          tail_here = v.tail_here;
          tail_free = λ q. v.tail_free unlocked;
        })
        (record {
          keeps = Keeps-refl i (look m) g.list;
          tail_locked = λ j ne l. absurd (cc);
          head_locked = λ j ne l. (l, refl);
        })
        (h, refl, v.tail_free unlocked) (silent refl refl)

  -- The holder of the lock of the tail links its node at position `k + 1`.
  Good-linked :
      (n : Ptr) (k : ℕ) (d : Node)
      → Adds (look m) g.list i n p
      → m.tail_lock ≡ some i
      → k + 1 ≡ g.list.len
      → g.list.at k ≡ m.tail
      → d.item ≡ g.list.val k
      → Good machine view g m i p (next (store m m.tail (record d { next_node = n })) (a4 n))
  Good-linked n k d a lock last here value =
      let m' = store m m.tail (record d { next_node = n }) in
      let written : (q : Ptr)
          → look m' q ≡ update (look m) (g.list.at k) (some (g.list.val k, n)) q =
        λ q. ground arith in
      let lo : g.list.head ≤ k = omega (arith, v.dummy) in
      goes {c' = a4 n} (record { list = link g.list n a.item; settled = false }) added
        (record {
          live = link-IsLive v.live i n a.item a.owned a.filled k lo last written;
          dummy = omega (arith, v.dummy);
          head_here = ground (arith, v.dummy, v.head_here);
          tail_here = λ j h s. absurd (cc);
          tail_free = λ h. absurd (cc);
        })
        (record {
          keeps = link-Keeps v.live i n a.item a.owned a.filled k lo last written;
          tail_locked = λ j ne l. absurd (ground arith);
          head_locked = λ j ne l. (l, refl);
        })
        (g.list.len, refl, lock, refl, ground arith)
        (visible (
          put_of a.phase
            (between_link g.list.val (g.list.head + 1) g.list.len a.item (omega (arith, v.dummy)))))

  pub Good-a3 : (n : Ptr) → Local g m i (a3 n) p → Good machine view g m i p (move i e m (a3 n))
  unfolding move
  Good-a3 n (a, lock, settled) =
      let k = g.list.len - 1 in
      let last : k + 1 ≡ g.list.len = omega (arith, v.dummy) in
      let here = v.tail_here k last settled in
      let (d, stored, value, _) =
        node_at m g.list k v.live (omega (arith, v.dummy)) (omega arith) in
      rw (deref-stored m _ (ap m.nodes (sym here) ∙ stored))
        (Good-linked n k d a lock last here value)

  pub Good-a4 : (n : Ptr) → Local g m i (a4 n) p → Good machine view g m i p (move i e m (a4 n))
  unfolding move
  Good-a4 n (k, q, lock, last, here) =
      goes (record g { settled = true }) p
        (record {
          live = v.live;
          dummy = v.dummy;
          head_here = v.head_here;
          tail_here = λ j h s. ap g.list.at (omega arith) ∙ here;
          tail_free = λ h. refl;
        })
        (record {
          keeps = Keeps-refl i (look m) g.list;
          tail_locked = λ j ne l. absurd (ground arith);
          head_locked = λ j ne l. (l, refl);
        })
        (q, lock, refl) (silent refl refl)

  pub Good-a5 : Local g m i a5 p → Good machine view g m i p (move i e m a5)
  unfolding move
  Good-a5 (q, lock, settled) =
      ends g added
        (record {
          live = v.live;
          dummy = v.dummy;
          head_here = v.head_here;
          tail_here = v.tail_here;
          tail_free = λ h. settled;
        })
        (record {
          keeps = Keeps-refl i (look m) g.list;
          tail_locked = λ j ne l. absurd (ground arith);
          head_locked = λ j ne l. (l, refl);
        })
        enqueue_ends (silent refl (sym q))
