-- ===== src/Ms/Enqueue.antt =====
-- `enqueue` of ms_queue.hpp takes effect at E9, where the new node is linked behind the last one.
use concurrent_queue_evaluat.Base.{
  ℕ, ◌+◌, ◌≡◌, ◌≢◌, refl, ap, Bool-cases, inl, inr, some, none, Ptr, null, update, ◌==◌, arith, ◌∙◌,
  sym,
}
use concurrent_queue_evaluat.Fifo.{Item, Phase, added, put_of, enqueue_ends}
use concurrent_queue_evaluat.Machine.{next, Env}
use concurrent_queue_evaluat.Machine.Simulation.{Good, goes, ends, silent, visible}
use concurrent_queue_evaluat.Chain.{Chain, Adding, WasTail, contents}
use concurrent_queue_evaluat.Chain.Contents.{link, contents-link}
use concurrent_queue_evaluat.Chain.Changes.{
  alloc, alloc-IsChain, alloc-Respects, alloc-Own, link-IsChain, link-Respects, Known-grows,
  WasTail-grows,
}
use concurrent_queue_evaluat.Ms.{
  Pointer, same, bump, pointer, Mem, store, move, machine, e1, e5, e6, e7, e9, e13, e17,
}
use concurrent_queue_evaluat.Ms.Knowledge.{look, Inv, Local, view, NodeAt, Known-node, deref-stored}
use concurrent_queue_evaluat.Ms.Swing.{same-ptr, reads, swung}

module _ (g : Chain) (m : Mem) (i : ℕ) (e : Env) (p : Phase) (v : Inv g m) where
  pub Good-e1 :
      (x : Item)
      → Local g m i (e1 x) p
      → e.fresh ≢ null
      → m.nodes e.fresh ≡ none
      → Good machine view g m i p (move i e m (e1 x))
  unfolding move contents
  Good-e1 x h nn unused =
      let look_fresh : look m e.fresh ≡ none = ground arith in
      let written : (q : Ptr)
          → look (store m e.fresh (record { value = x; next_node = pointer null 0 })) q
            ≡ update (look m) e.fresh (some (x, null)) q =
        λ q. ground arith in
      goes (alloc v.chain i e.fresh x nn look_fresh written) p
        (record {
          chain = alloc-IsChain v.chain i e.fresh x nn look_fresh written;
          head_here = record { linked = v.head_here.linked; here = v.head_here.here };
          tail_here = record { linked = v.tail_here.linked; here = v.tail_here.here };
        })
        (alloc-Respects v.chain i e.fresh x nn look_fresh written)
        (record { item = x; phase = h; own = alloc-Own v.chain i e.fresh x nn look_fresh written })
        (silent refl refl)

  pub Good-e5 : (n : Ptr) → Local g m i (e5 n) p → Good machine view g m i p (move i e m (e5 n))
  unfolding move
  Good-e5 n h = reads g m i _ p v (g.tail, h, record { known = v.tail_here; before = omega arith })

  pub Good-e6 :
      (n : Ptr) (last : Pointer)
      → Local g m i (e6 n last) p
      → Good machine view g m i p (move i e m (e6 n last))
  unfolding move
  Good-e6 n last (k, a, t) =
      let d = Known-node m v.chain t.known in
      rw (deref-stored m _ d.stored) (reads g m i _ p v (k, a, t, d.successor))

  pub Good-e7 :
      (n : Ptr) (last after : Pointer)
      → Local g m i (e7 n last after) p
      → Good machine view g m i p (move i e m (e7 n last after))
  unfolding move
  Good-e7 n last after (k, a, t, s) = elim (Bool-cases (same last m.tail)) [
    | inr changed ↦ rw changed (reads g m i _ p v a)
    | inl kept ↦ rw kept (elim (Bool-cases (after.ptr == null)) [
      | inl z ↦ rw z (reads g m i _ p v (k, a, t, ground arith))
      | inr nz ↦ rw nz (reads g m i _ p v (k, a, t, s (ground arith)))
    ])
  ]

  Good-link :
      (n : Ptr) (last : Pointer) (c k : ℕ)
      → Adding (look m) g i n p
      → WasTail g last.ptr k
      → (d : NodeAt g m last.ptr k) → k + 1 ≡ g.len
      → Good machine view g m i p
          (next (store m last.ptr (record d.node { next_node = pointer n c })) (e17 n last))
  Good-link n last c k a t d end =
      let written : (q : Ptr)
          → look (store m last.ptr (record d.node { next_node = pointer n c })) q
            ≡ update (look m) (g.at k) (some (g.val k, n)) q =
        λ q. ground (arith, t.known.here, d.value) in
      let r = link-Respects v.chain i n a.item a.own k end written in
      goes (link g n a.item) added
        (record {
          chain = link-IsChain v.chain i n a.item a.own k end written (omega (arith, t.before));
          head_here = Known-grows r.grows v.head_here;
          tail_here = Known-grows r.grows v.tail_here;
        })
        r (k, refl, WasTail-grows r.grows t, record { linked = omega arith; here = ground arith })
        (visible (put_of a.phase (contents-link g n a.item (omega (arith, v.chain.order)))))

  pub Good-e9 :
      (n : Ptr) (last after : Pointer)
      → Local g m i (e9 n last after) p
      → Good machine view g m i p (move i e m (e9 n last after))
  unfolding move
  Good-e9 n last after (k, a, t, z) =
      let d = Known-node m v.chain t.known in
      rw (deref-stored m _ d.stored) (elim (Bool-cases (same d.node.next_node after)) [
        | inr changed ↦ rw changed (reads g m i _ p v a)
        | inl kept ↦
            rw kept (Good-link n last (bump after.count) k a t d (d.last (same-ptr _ _ kept ∙ z)))
      ])

  pub Good-e13 :
      (n : Ptr) (last after : Pointer)
      → Local g m i (e13 n last after) p
      → Good machine view g m i p (move i e m (e13 n last after))
  unfolding move
  Good-e13 n last after (k, a, t, s) =
      let w = swung i last after.ptr v t s in
      goes w.after p w.inv w.respects
        (record {
          item = a.item;
          phase = a.phase;
          own = record {
            owned = ap (λ o. o n) w.same_owner ∙ a.own.owned;
            filled = ap (λ l. l n) w.same_look ∙ a.own.filled;
          };
        })
        (silent w.items refl)

  pub Good-e17 :
      (n : Ptr) (last : Pointer)
      → Local g m i (e17 n last) p
      → Good machine view g m i p (move i e m (e17 n last))
  unfolding move
  Good-e17 n last (k, q, t, s) =
      let w = swung i last n v t s in
      ends w.after added w.inv w.respects enqueue_ends (silent w.items (sym q))
