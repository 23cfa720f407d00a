-- ===== src/TwoLock/Dequeue.antt =====
-- `dequeue` of two_lock_queue.hpp takes effect where the head moves, or where it reads that the dummy
-- has no successor. The dummy is deleted when no other thread can reach it.
use concurrent_queue_evaluat.Base.{
  ℕ, ◌+◌, ◌≡◌, ◌≢◌, refl, sym, ap, ◌∙◌, true, Bool-cases, inl, inr, Option, some, none, ◌∷◌, Ptr,
  null, ◌==◌, update, arith,
}
use concurrent_queue_evaluat.Fifo.{
  Item, Phase, removing, removed, take_of, meet_empty_of, dequeue_ends, dequeue_fails,
}
use concurrent_queue_evaluat.Machine.{Env}
use concurrent_queue_evaluat.Machine.Simulation.{Good, goes, ends, silent, visible}
use concurrent_queue_evaluat.Chain.Contents.{between, between_pop, between_empty}
use concurrent_queue_evaluat.Live.Changes.{
  Keeps-refl, drop, drop-IsLive, drop-Keeps, free, free-IsLive, free-Keeps,
}
use concurrent_queue_evaluat.TwoLock.{Node, Mem, move, machine, b1, b2, b3, b4, b5, b6, b7, b9}
use concurrent_queue_evaluat.TwoLock.Knowledge.{
  look, look_node, Ghost, Inv, Rely, Rely-refl, Local, view, reads, deref-stored, node_at,
  Good-acquire,
}

node_of_look : (o : Option Node) → look_node o ≢ none → (d : Node) × (o ≡ some d)
node_of_look none h = absurd (h refl)
node_of_look (some d) h = (d, refl)

module _ (g : Ghost) (m : Mem) (i : ℕ) (e : Env) (p : Phase) (v : Inv g m) where
  pub Good-b1 : Local g m i b1 p → Good machine view g m i p (move i e m b1)
  unfolding move
  Good-b1 r = Good-acquire g m i p m.head_lock _ λ unlocked.
      goes g p
        (record {
          live = v.live;
          dummy = v.dummy;
          head_here = v.head_here;
          tail_here = v.tail_here;
          tail_free = v.tail_free;
        })
        (record {
          keeps = Keeps-refl i (look m) g.list;
          tail_locked = λ j ne l. (l, refl, refl);
          head_locked = λ j ne l. absurd (cc);
        })
        (r, refl) (silent refl refl)

  pub Good-b2 : Local g m i b2 p → Good machine view g m i p (move i e m b2)
  unfolding move
  Good-b2 (r, lock) = reads g m i _ p v (r, lock, v.dummy, v.head_here)

  pub Good-b3 :
      (dummy : Ptr) → Local g m i (b3 dummy) p → Good machine view g m i p (move i e m (b3 dummy))
  unfolding move
  Good-b3 dummy (r, lock, lt, here) =
      let (d, stored, _, succ) = node_at m g.list g.list.head v.live (omega arith) lt in
      rw (deref-stored m _ (ap m.nodes (sym here) ∙ stored))
        (elim (Bool-cases (d.next_node == null)) [
          | inl z ↦
              let end : g.list.len ≡ g.list.head + 1 =
                ground (arith, v.live.nonnull (g.list.head + 1)) in
              rw z (
                goes {c' = b9} g (removing true) v (Rely-refl i g m) (refl, lock)
                  (visible (
                    meet_empty_of r.phase
                      (between_empty g.list.val (g.list.head + 1) g.list.len (omega arith)))))
          | inr nz ↦ rw nz (
              reads g m i _ p v (
                r,
                record { lock = lock; more = ground arith; first = here; second = ground arith },
              ))
        ])

  pub Good-b4 :
      (dummy h : Ptr)
      → Local g m i (b4 dummy h) p
      → Good machine view g m i p (move i e m (b4 dummy h))
  unfolding move
  Good-b4 dummy h (r, w) =
      let (d, stored, value, _) = node_at m g.list (g.list.head + 1) v.live (omega arith) w.more in
      rw (deref-stored m _ (ap m.nodes (sym w.second) ∙ stored))
        (reads g m i _ p v (r, w, sym value))

  pub Good-b5 :
      (dummy h : Ptr) (x : Item)
      → Local g m i (b5 dummy h x) p
      → Good machine view g m i p (move i e m (b5 dummy h x))
  unfolding move
  Good-b5 dummy h x (r, w, value) =
      goes {c' = b6 dummy x} (record g { list = drop g.list i }) (removed x)
        (record {
          live = drop-IsLive v.live i v.dummy;
          dummy = w.more;
          head_here = w.second;
          tail_here = v.tail_here;
          tail_free = v.tail_free;
        })
        (record {
          keeps = drop-Keeps v.live i v.dummy;
          tail_locked = λ j ne l. (l, refl, refl);
          head_locked = λ j ne l. absurd (ground (arith, w.lock));
        })
        (refl, w.lock, ground (arith, w.first))
        (visible (
          take_of r.phase (
            between_pop g.list.val (g.list.head + 1) g.list.len w.more
            ∙ ap (λ z. z ∷ between g.list.val (g.list.head + 1 + 1) g.list.len) value)))

  -- The lock of the head is given back.
  released :
      (p' : Phase)
      → m.head_lock ≡ some i
      → Inv g (record m { head_lock = none }) × Rely i g m g (record m { head_lock = none })
  released p' lock = (
    record {
      live = v.live;
      dummy = v.dummy;
      head_here = v.head_here;
      tail_here = v.tail_here;
      tail_free = v.tail_free;
    },
    record {
      keeps = Keeps-refl i (look m) g.list;
      tail_locked = λ j ne l. (l, refl, refl);
      head_locked = λ j ne l. absurd (ground arith);
    },
  )

  pub Good-b6 :
      (dummy : Ptr) (x : Item)
      → Local g m i (b6 dummy x) p
      → Good machine view g m i p (move i e m (b6 dummy x))
  unfolding move
  Good-b6 dummy x (q, lock, own) =
      let (inv, rely) = released p lock in goes g p inv rely (q, own) (silent refl refl)

  pub Good-b7 :
      (dummy : Ptr) (x : Item)
      → Local g m i (b7 dummy x) p
      → Good machine view g m i p (move i e m (b7 dummy x))
  unfolding move
  Good-b7 dummy x (q, own) =
      let (d, stored) = node_of_look (m.nodes dummy) ((v.live.private dummy i own).1) in
      let m' = record m { nodes = update m.nodes dummy none } in
      let gone : (a : Ptr) → look m' a ≡ update (look m) dummy none a = λ a. ground arith in
      rw (deref-stored m _ stored) (
        ends (record g { list = free g.list dummy }) (removed x)
          (record {
            live = free-IsLive v.live i dummy own gone;
            dummy = v.dummy;
            head_here = v.head_here;
            tail_here = v.tail_here;
            tail_free = v.tail_free;
          })
          (record {
            keeps = free-Keeps v.live i dummy own gone;
            tail_locked = λ j ne l. (l, refl, refl);
            head_locked = λ j ne l. (l, refl);
          })
          dequeue_ends (silent refl (sym q)))

  pub Good-b9 : Local g m i b9 p → Good machine view g m i p (move i e m b9)
  unfolding move
  Good-b9 (q, lock) =
      let (inv, rely) = released p lock in
      ends g (removing true) inv rely dequeue_fails (silent refl (sym q))
