-- ===== src/Valois/Alone/Dequeue.antt =====
-- `dequeue` of valois_queue.hpp in a thread that moves while the others pause.
use concurrent_queue_evaluat.Base.{
  ℕ, ◌+◌, ◌≡◌, ◌≢◌, refl, ap, sym, subst, ◌∙◌, true, false, Bool-cases, inl, inr, some, none, Ptr,
  null, ◌==◌, ==_self, ==_ne, ==_eq, arith, ℕ_discrete,
}
use concurrent_queue_evaluat.Machine.{Env, next}
use concurrent_queue_evaluat.Machine.Alone.{Within, returns, goes, Within-le}
use concurrent_queue_evaluat.Chain.{Chain, Known, WasTail, WasHead, Window, Successor}
use concurrent_queue_evaluat.Chain.Changes.{Known-unique}
use concurrent_queue_evaluat.Fifo.{Item, dequeued}
use concurrent_queue_evaluat.Valois.{
  Node, Mem, Pc, move, machine, d2, d3, d4, d5, d10, d12, d13, r1,
}
use concurrent_queue_evaluat.Valois.Knowledge.{Inv, NodeAt, Known-node, deref-stored}
use concurrent_queue_evaluat.Valois.Alone.Retire.{Ends-r1}
use concurrent_queue_evaluat.Valois.Swing.{swing_tail-hit, swung}

module _ (i : ℕ) (e : Env) (calm : e.spurious ≡ false) where
  abbrev Ends : ℕ → Mem → Pc → Type 0
  Ends n m c = Within machine i e n m c

  -- D13 when the head is the one read.
  Ends-d13_hit :
      (m : Mem) (after : Ptr) (x : Item) (d : Node)
      → m.nodes m.head ≡ some d
      → Ends 4 m (d13 m.head after x)
  unfolding move
  Ends-d13_hit m after x d stored =
      goes {m' = record m { head = after }} {c' = r1 m.head x} (rw (==_self m.head) refl)
        (Ends-r1 i e calm _ m.head x d stored)

  move-d4 :
      (m : Mem) (first last : Ptr) (d : Node)
      → m.nodes first ≡ some d
      → move i e m (d4 first last) ≡ next m (d5 first last d.next_node)
  unfolding move
  move-d4 m first last d stored = deref-stored m _ stored

  move-d12 :
      (m : Mem) (first after : Ptr) (d : Node)
      → m.nodes after ≡ some d
      → move i e m (d12 first after) ≡ next m (d13 first after d.value)
  unfolding move
  move-d12 m first after d stored = deref-stored m _ stored

  -- From D2, when the tail pointer is past the dummy.
  Ends-d2_apart :
      (m : Mem) (d b : Node)
      → m.nodes m.head ≡ some d
      → m.nodes d.next_node ≡ some b
      → d.next_node ≢ null
      → m.head ≢ m.tail
      → Ends 9 m d2
  unfolding move
  Ends-d2_apart m d b first second more apart = goes refl (
      goes refl (
        goes (move-d4 m m.head m.tail d first) (
          goes {c' = d12 m.head d.next_node}
            (rw (==_self m.head, ==_ne _ _ more, ==_ne _ _ apart) refl)
            (goes (move-d12 m m.head d.next_node b second)
              (Ends-d13_hit m d.next_node b.value d first)))))

  -- From D2, when the tail pointer names the dummy.
  module _ {g : Chain} (m : Mem) (v : Inv g m) (d : NodeAt g m m.head g.head) where
    Ends-d2_joined : m.head ≡ m.tail → Ends 14 m d2
    unfolding move
    Ends-d2_joined joined =
        let test : (m.head == m.tail) ≡ true = ground arith in
        elim (ℕ_discrete d.node.next_node null) [
          | yes z ↦ Within-le machine i e 14 (omega arith) (
              goes refl (
                goes refl (
                  goes (move-d4 m m.head m.tail d.node d.stored)
                    (returns {n = 0} {m' = m} {r = dequeued none} (rw (==_self m.head, z) refl)))))
          | no more ↦
              let after = d.successor more in
              let b = Known-node m v.chain after in
              let apart : m.head ≢ d.node.next_node =
                λ q. absurd (omega (arith, Known-unique v.chain v.head_here after q)) in
              goes refl (
                goes refl (
                  goes (move-d4 m m.head m.tail d.node d.stored) (
                    goes {c' = d10 m.tail d.node.next_node}
                      (rw (==_self m.head, ==_ne _ _ more, test) refl)
                      (goes (ap (λ z. next z d2) (swing_tail-hit m d.node.next_node))
                        (Ends-d2_apart _ d.node b.node d.stored b.stored more apart)))))
        ]

  module _ {g : Chain} (m : Mem) (v : Inv g m) where
    pub Ends-d2 : Ends 14 m d2
    Ends-d2 =
        let d = Known-node m v.chain v.head_here in
        elim (ℕ_discrete m.head m.tail) [
          | yes joined ↦ Ends-d2_joined m v d joined
          | no apart ↦
              let more : d.node.next_node ≢ null = λ z.
                let last : g.head ≡ g.tail = omega (arith, d.last z, v.chain.order) in
                apart (sym v.head_here.here ∙ ap g.at last ∙ v.tail_here.here) in
              let after = d.successor more in
              let b = Known-node m v.chain after in
              Within-le machine i e 14 (omega arith)
                (Ends-d2_apart m d.node b.node d.stored b.stored more apart)
        ]

    -- The rest of `dequeue`, from each place.
    pub Ends-d13 :
        (first after : Ptr) (x : Item) (k : ℕ) → Known g first k → Ends 15 m (d13 first after x)
    unfolding move
    Ends-d13 first after x k h =
        let d = Known-node m v.chain h in
        elim (Bool-cases (m.head == first)) [
          | inl kept ↦ Within-le machine i e 15 (omega arith) (
              goes {m' = record m { head = after }} {c' = r1 first x} (rw kept refl)
                (Ends-r1 i e calm _ first x d.node d.stored))
          | inr changed ↦ goes {c' = d2} (rw changed refl) Ends-d2
        ]

    pub Ends-d12 :
        (first after : Ptr) (j k : ℕ)
        → Known g first j
        → Known g after k
        → Ends 16 m (d12 first after)
    Ends-d12 first after j k h s =
        let d = Known-node m v.chain s in
        goes (move-d12 m first after d.node d.stored) (Ends-d13 first after d.node.value j h)

  pub Ends-d10 :
      {g : Chain} (m : Mem)
      → Inv g m
      → (last after : Ptr) (k : ℕ) → WasTail g last k
      → Known g after (k + 1)
      → Ends 15 m (d10 last after)
  unfolding move
  Ends-d10 m v last after k t s = let w = swung i last after v t s in goes refl (Ends-d2 _ w.inv)

  module _ {g : Chain} (m : Mem) (v : Inv g m) where
    pub Ends-d5 :
        (first last after : Ptr) (k j : ℕ)
        → Window g first last k j
        → Successor g after k
        → Ends 17 m (d5 first last after)
    unfolding move
    Ends-d5 first last after k j w s = elim (Bool-cases (first == m.head)) [
      | inr changed ↦
          Within-le machine i e 17 (omega arith) (goes {c' = d2} (rw changed refl) (Ends-d2 m v))
      | inl kept ↦ elim (Bool-cases (after == null)) [
        | inl z ↦ returns {m' = m} {r = dequeued none} (rw (kept, z) refl)
        | inr nz ↦ elim (Bool-cases (first == last)) [
          | inr apart ↦
              goes {c' = d12 first after} (rw (kept, nz, apart) refl)
                (Ends-d12 m v first after k (k + 1) w.was_head.known (s (ground arith)))
          | inl joined ↦
              let here =
                Known-unique v.chain w.was_head.known w.was_tail.known (==_eq _ _ joined) in
              let after_last = subst (λ z. Known g after (z + 1)) here (s (ground arith)) in
              Within-le machine i e 17 (omega arith) (
                goes {c' = d10 last after} (rw (kept, nz, joined) refl)
                  (Ends-d10 m v last after j w.was_tail after_last))
        ]
      ]
    ]

    pub Ends-d4 : (first last : Ptr) (k j : ℕ) → Window g first last k j → Ends 18 m (d4 first last)
    Ends-d4 first last k j w =
        let d = Known-node m v.chain w.was_head.known in
        goes (move-d4 m first last d.node d.stored)
          (Ends-d5 first last d.node.next_node k j w d.successor)

    pub Ends-d3 : (first : Ptr) (k : ℕ) → WasHead g first k → Ends 19 m (d3 first)
    unfolding move
    Ends-d3 first k h = goes refl (
        Ends-d4 first m.tail k g.tail (record {
          was_head = h;
          was_tail = record { known = v.tail_here; before = omega arith };
          ordered = omega (arith, h.before, v.chain.order);
        }))
