-- ===== src/Ms/Dequeue.antt =====
-- `dequeue` of ms_queue.hpp takes effect at D13, where the head moves; a call that returns false has
-- met the empty queue at D4, where it read the null successor of the dummy.
use concurrent_queue_evaluat.Base.{
  ℕ, ◌+◌, ◌≡◌, refl, ap, sym, subst, ◌∙◌, true, Bool-cases, inl, inr, null, ◌==◌, ==_eq, ◌∷◌, arith,
  ℕ_discrete,
}
use concurrent_queue_evaluat.Fifo.{
  Item, Phase, removing, removed, take_of, meet_empty_of, dequeue_ends, dequeue_fails_of,
}
use concurrent_queue_evaluat.Machine.{Env}
use concurrent_queue_evaluat.Machine.Simulation.{Good, goes, ends, silent, visible}
use concurrent_queue_evaluat.Chain.{Chain, Known, contents}
use concurrent_queue_evaluat.Chain.Contents.{pop, contents-pop, contents_empty}
use concurrent_queue_evaluat.Chain.Changes.{
  Respects-refl, pop-IsChain, pop-Respects, Known-unique, later_tail,
}
use concurrent_queue_evaluat.Ms.{Pointer, same, Mem, move, machine, d2, d3, d4, d5, d10, d12, d13}
use concurrent_queue_evaluat.Ms.Knowledge.{look, Inv, Local, view, Known-node, deref-stored}
use concurrent_queue_evaluat.Ms.Swing.{same-ptr, reads, swung}

module _ (g : Chain) (m : Mem) (i : ℕ) (e : Env) (p : Phase) (v : Inv g m) where
  pub Good-d2 : Local g m i d2 p → Good machine view g m i p (move i e m d2)
  unfolding move
  Good-d2 r = reads g m i _ p v (g.head, r, record { known = v.head_here; before = omega arith })

  pub Good-d3 :
      (first : Pointer)
      → Local g m i (d3 first) p
      → Good machine view g m i p (move i e m (d3 first))
  unfolding move
  Good-d3 first (k, r, h) = reads g m i _ p v (
    k,
    g.tail,
    r,
    record {
      was_head = h;
      was_tail = record { known = v.tail_here; before = omega arith };
      ordered = omega (arith, h.before, v.chain.order);
    },
  )

  pub Good-d4 :
      (first last : Pointer)
      → Local g m i (d4 first last) p
      → Good machine view g m i p (move i e m (d4 first last))
  unfolding move
  Good-d4 first last (k, j, r, w) =
      let d = Known-node m v.chain w.was_head.known in
      rw (deref-stored m _ d.stored) (elim (ℕ_discrete (k + 1) g.len) [
        | no more ↦ reads g m i _ p v (
          k,
          j,
          r,
          w,
          d.successor,
          (λ z q. absurd (more (d.last z))),
          λ lt. d.successor (λ z. more (d.last z)),
        )
        | yes end ↦
            let now : k ≡ g.head = omega (arith, w.was_head.before, v.chain.order) in
            goes {c' = d5 first last d.node.next_node} g (removing true) v
              (Respects-refl i (look m) g)
              (
                k,
                j,
                record { met_empty = true; phase = refl },
                w,
                d.successor,
                (λ z q. refl),
                λ lt. absurd (omega (arith, w.was_tail.known.linked)),
              )
              (visible (meet_empty_of r.phase (contents_empty g (omega arith))))
      ])

  pub Good-d5 :
      (first last after : Pointer)
      → Local g m i (d5 first last after) p
      → Good machine view g m i p (move i e m (d5 first last after))
  unfolding move
  Good-d5 first last after (k, j, r, w, s, empty, behind) = elim (Bool-cases (same first m.head)) [
    | inr changed ↦ rw changed (reads g m i _ p v r)
    | inl kept ↦
        let now : k ≡ g.head =
          Known-unique v.chain w.was_head.known v.head_here (same-ptr _ _ kept) in
        rw kept (elim (Bool-cases (first.ptr == last.ptr)) [
          | inr apart ↦
              let lt = later_tail w apart in
              rw apart (
                reads g m i _ p v
                  (k, r, w.was_head, behind lt, omega (arith, lt, w.was_tail.before)))
          | inl joined ↦
              let here =
                Known-unique v.chain w.was_head.known w.was_tail.known (==_eq _ _ joined) in
              rw joined (elim (Bool-cases (after.ptr == null)) [
                | inl z ↦ rw z (
                    ends g p v (Respects-refl i (look m) g)
                      (dequeue_fails_of r.phase (empty (==_eq _ _ z) now)) (silent refl refl))
                | inr nz ↦ rw nz (
                    reads g m i _ p v (
                      j,
                      r,
                      w.was_tail,
                      subst (λ z. Known g after.ptr (z + 1)) here (s (ground arith)),
                    ))
              ])
        ])
  ]

  pub Good-d12 :
      (first after : Pointer)
      → Local g m i (d12 first after) p
      → Good machine view g m i p (move i e m (d12 first after))
  unfolding move
  Good-d12 first after (k, r, h, s, o) =
      let d = Known-node m v.chain s in
      rw (deref-stored m _ d.stored) (reads g m i _ p v (k, r, h, s, o, sym d.value))

  pub Good-d10 :
      (last after : Pointer)
      → Local g m i (d10 last after) p
      → Good machine view g m i p (move i e m (d10 last after))
  unfolding move
  Good-d10 last after (j, r, t, s) =
      let w = swung i last after.ptr v t s in
      goes w.after p w.inv w.respects r (silent w.items refl)

  pub Good-d13 :
      (first after : Pointer) (x : Item)
      → Local g m i (d13 first after x) p
      → Good machine view g m i p (move i e m (d13 first after x))
  unfolding move
  Good-d13 first after x (k, r, h, s, o, val) = elim (Bool-cases (same m.head first)) [
    | inr changed ↦ rw changed (reads g m i _ p v r)
    | inl kept ↦
        let now : g.head ≡ k = Known-unique v.chain v.head_here h.known (same-ptr _ _ kept) in
        rw kept (
          ends (pop g) (removed x)
            (record {
              chain = pop-IsChain v.chain (omega arith);
              head_here = record {
                linked = omega (arith, s.linked);
                here = ap (λ z. g.at (z + 1)) now ∙ s.here;
              };
              tail_here = record { linked = v.tail_here.linked; here = v.tail_here.here };
            })
            (pop-Respects v.chain i) dequeue_ends
            (visible (
              take_of r.phase (
                contents-pop g (omega (arith, s.linked))
                ∙ ap (λ z. z ∷ contents (pop g)) (ap (λ z. g.val (z + 1)) now ∙ val)))))
  ]
