-- ===== src/Ms/Alone/Dequeue.antt =====
-- `dequeue` of ms_queue.hpp in a thread that moves while the others pause.
use concurrent_queue_evaluat.Base.{
  ℕ, ◌+◌, ◌<◌, ◌≡◌, ◌≢◌, refl, ap, sym, subst, ◌∙◌, true, Bool-cases, inl, inr, some, none, null,
  ◌==◌, ==_ne, ==_eq, arith, ℕ_discrete,
}
use concurrent_queue_evaluat.Machine.{Env, next}
use concurrent_queue_evaluat.Machine.Alone.{Within, returns, goes, Within-le}
use concurrent_queue_evaluat.Chain.{Chain, Known, WasTail, WasHead, Window, Successor}
use concurrent_queue_evaluat.Chain.Changes.{Known-unique, later_tail}
use concurrent_queue_evaluat.Fifo.{Item, dequeued}
use concurrent_queue_evaluat.Ms.{
  Pointer, pointer, Node, Mem, Pc, same, bump, move, machine, d2, d3, d4, d5, d10, d12, d13,
}
use concurrent_queue_evaluat.Ms.Knowledge.{Inv, NodeAt, Known-node, deref-stored}
use concurrent_queue_evaluat.Ms.Swing.{same_self, swing_tail-hit, swung}

module _ (i : ℕ) (e : Env) where
  abbrev Ends : ℕ → Mem → Pc → Type 0
  Ends n m c = Within machine i e n m c

  -- D13 when the head is the one read.
  Ends-d13_hit : (m : Mem) (after : Pointer) (x : Item) → Ends 1 m (d13 m.head after x)
  unfolding move
  Ends-d13_hit m after x =
      returns {m' = record m { head = pointer after.ptr (bump m.head.count) }}
        {r = dequeued (some x)} (rw (same_self m.head) refl)

  move-d4 :
      (m : Mem) (first last : Pointer) (d : Node)
      → m.nodes first.ptr ≡ some d
      → move i e m (d4 first last) ≡ next m (d5 first last d.next_node)
  unfolding move
  move-d4 m first last d stored = deref-stored m _ stored

  move-d12 :
      (m : Mem) (first after : Pointer) (d : Node)
      → m.nodes after.ptr ≡ some d
      → move i e m (d12 first after) ≡ next m (d13 first after d.value)
  unfolding move
  move-d12 m first after d stored = deref-stored m _ stored

  -- From D2, when the tail pointer is past the dummy.
  Ends-d2_apart :
      (m : Mem) (d b : Node)
      → m.nodes m.head.ptr ≡ some d
      → m.nodes d.next_node.ptr ≡ some b
      → m.head.ptr ≢ m.tail.ptr
      → Ends 6 m d2
  unfolding move
  Ends-d2_apart m d b first second apart = goes refl (
      goes refl (
        goes (move-d4 m m.head m.tail d first) (
          goes {c' = d12 m.head d.next_node} (rw (same_self m.head, ==_ne _ _ apart) refl)
            (goes (move-d12 m m.head d.next_node b second) (Ends-d13_hit m d.next_node b.value)))))

  -- From D2, when the tail pointer names the dummy.
  module _ {g : Chain} (m : Mem) (v : Inv g m) (d : NodeAt g m m.head.ptr g.head) where
    Ends-d2_joined : m.head.ptr ≡ m.tail.ptr → Ends 11 m d2
    unfolding move
    Ends-d2_joined joined =
        let test : (m.head.ptr == m.tail.ptr) ≡ true = ground arith in
        elim (ℕ_discrete d.node.next_node.ptr null) [
          | yes z ↦ Within-le machine i e 11 (omega arith) (
              goes refl (
                goes refl (
                  goes (move-d4 m m.head m.tail d.node d.stored) (
                    returns {n = 0} {m' = m} {r = dequeued none}
                      (rw (same_self m.head, test, z) refl)))))
          | no more ↦
              let after = d.successor more in
              let b = Known-node m v.chain after in
              let apart : m.head.ptr ≢ d.node.next_node.ptr =
                λ q. absurd (omega (arith, Known-unique v.chain v.head_here after q)) in
              goes refl (
                goes refl (
                  goes (move-d4 m m.head m.tail d.node d.stored) (
                    goes {c' = d10 m.tail d.node.next_node}
                      (rw (same_self m.head, test, ==_ne _ _ more) refl)
                      (goes (ap (λ z. next z d2) (swing_tail-hit m d.node.next_node.ptr))
                        (Ends-d2_apart _ d.node b.node d.stored b.stored apart)))))
        ]

  module _ {g : Chain} (m : Mem) (v : Inv g m) where
    pub Ends-d2 : Ends 11 m d2
    Ends-d2 =
        let d = Known-node m v.chain v.head_here in
        elim (ℕ_discrete m.head.ptr m.tail.ptr) [
          | yes joined ↦ Ends-d2_joined m v d joined
          | no apart ↦
              let more : d.node.next_node.ptr ≢ null = λ z.
                let last : g.head ≡ g.tail = omega (arith, d.last z, v.chain.order) in
                apart (sym v.head_here.here ∙ ap g.at last ∙ v.tail_here.here) in
              let after = d.successor more in
              let b = Known-node m v.chain after in
              Within-le machine i e 11 (omega arith)
                (Ends-d2_apart m d.node b.node d.stored b.stored apart)
        ]

    -- The rest of `dequeue`, from each place.
    pub Ends-d13 : (first after : Pointer) (x : Item) → Ends 12 m (d13 first after x)
    unfolding move
    Ends-d13 first after x = elim (Bool-cases (same m.head first)) [
      | inl kept ↦
          returns {m' = record m { head = pointer after.ptr (bump first.count) }}
            {r = dequeued (some x)} (rw kept refl)
      | inr changed ↦ goes {c' = d2} (rw changed refl) Ends-d2
    ]

    pub Ends-d12 :
        (first after : Pointer) (k : ℕ) → Known g after.ptr k → Ends 13 m (d12 first after)
    Ends-d12 first after k s =
        let d = Known-node m v.chain s in
        goes (move-d12 m first after d.node d.stored) (Ends-d13 first after d.node.value)

  pub Ends-d10 :
      {g : Chain} (m : Mem)
      → Inv g m
      → (last after : Pointer) (k : ℕ) → WasTail g last.ptr k
      → Known g after.ptr (k + 1)
      → Ends 12 m (d10 last after)
  unfolding move
  Ends-d10 m v last after k t s =
      let w = swung i last after.ptr v t s in goes refl (Ends-d2 _ w.inv)

  module _ {g : Chain} (m : Mem) (v : Inv g m) where
    pub Ends-d5 :
        (first last after : Pointer) (k j : ℕ)
        → Window g first.ptr last.ptr k j
        → Successor g after.ptr k
        → (k < j → Known g after.ptr (k + 1))
        → Ends 14 m (d5 first last after)
    unfolding move
    Ends-d5 first last after k j w s behind = elim (Bool-cases (same first m.head)) [
      | inr changed ↦
          Within-le machine i e 14 (omega arith) (goes {c' = d2} (rw changed refl) (Ends-d2 m v))
      | inl kept ↦ elim (Bool-cases (first.ptr == last.ptr)) [
        | inr apart ↦
            goes {c' = d12 first after} (rw (kept, apart) refl)
              (Ends-d12 m v first after (k + 1) (behind (later_tail w apart)))
        | inl joined ↦ elim (Bool-cases (after.ptr == null)) [
          | inl z ↦ returns {m' = m} {r = dequeued none} (rw (kept, joined, z) refl)
          | inr nz ↦
              let here =
                Known-unique v.chain w.was_head.known w.was_tail.known (==_eq _ _ joined) in
              let after_last = subst (λ z. Known g after.ptr (z + 1)) here (s (ground arith)) in
              Within-le machine i e 14 (omega arith) (
                goes {c' = d10 last after} (rw (kept, joined, nz) refl)
                  (Ends-d10 m v last after j w.was_tail after_last))
        ]
      ]
    ]

    pub Ends-d4 :
        (first last : Pointer) (k j : ℕ)
        → Window g first.ptr last.ptr k j
        → Ends 15 m (d4 first last)
    Ends-d4 first last k j w =
        let d = Known-node m v.chain w.was_head.known in
        goes (move-d4 m first last d.node d.stored) (
          Ends-d5 first last d.node.next_node k j w d.successor
            (λ lt. d.successor (λ z. absurd (omega (arith, d.last z, w.was_tail.known.linked)))))

    pub Ends-d3 : (first : Pointer) (k : ℕ) → WasHead g first.ptr k → Ends 16 m (d3 first)
    unfolding move
    Ends-d3 first k h = goes refl (
        Ends-d4 first m.tail k g.tail (record {
          was_head = h;
          was_tail = record { known = v.tail_here; before = omega arith };
          ordered = omega (arith, h.before, v.chain.order);
        }))
