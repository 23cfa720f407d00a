-- ===== src/Valois/Alone/Enqueue.antt =====
-- `enqueue` of valois_queue.hpp in a thread that moves while the others pause.
use concurrent_queue_evaluat.Base.{
  ℕ, ◌+◌, ◌≡◌, ◌≢◌, refl, ap, ◌∙◌, true, Bool-cases, inl, inr, some, none, Ptr, null, ◌==◌, ==_self,
  ==_ne, arith, ℕ_discrete, if◌then◌else◌,
}
use concurrent_queue_evaluat.Fifo.{Item, adding}
use concurrent_queue_evaluat.Machine.{Env, next}
use concurrent_queue_evaluat.Machine.Simulation.{Good-next}
use concurrent_queue_evaluat.Machine.Alone.{Within, returns, goes, Within-le}
use concurrent_queue_evaluat.Chain.{Chain, Known, WasTail, Successor}
use concurrent_queue_evaluat.Valois.{
  Node, Mem, Pc, store, move, machine, e1, e5, e6, e7, e9, e13, e17,
}
use concurrent_queue_evaluat.Valois.Knowledge.{Inv, view, Known-node, deref-stored}
use concurrent_queue_evaluat.Valois.Swing.{swing_tail-hit, swung}
use concurrent_queue_evaluat.Valois.Enqueue.{Good-e1}

module _ (i : ℕ) (e : Env) where
  abbrev pub Ends : ℕ → Mem → Pc → Type 0
  Ends n m c = Within machine i e n m c

  pub Ends-e17 : (m : Mem) (n : Ptr) (last : Ptr) → Ends 1 m (e17 n last)
  unfolding move
  Ends-e17 m n last = returns refl

  move-e6 :
      (m : Mem) (n : Ptr) (last : Ptr) (d : Node)
      → m.nodes last ≡ some d
      → move i e m (e6 n last) ≡ next m (e7 n last d.next_node)
  unfolding move
  move-e6 m n last d stored = deref-stored m _ stored

  move-e7 :
      (m : Mem) (n : Ptr) (after : Ptr)
      → move i e m (e7 n m.tail after)
        ≡ (if after == null then next m (e9 n m.tail after) else next m (e13 n m.tail after))
  unfolding move
  move-e7 m n after = rw (==_self m.tail) refl

  -- E9 when the successor is the one read.
  Ends-e9_same :
      (m : Mem) (n : Ptr) (last after : Ptr) (d : Node)
      → m.nodes last ≡ some d
      → (d.next_node == after) ≡ true
      → Ends 2 m (e9 n last after)
  unfolding move
  Ends-e9_same m n last after d stored h =
      goes {m' = store m last (record d { next_node = n })} {c' = e17 n last}
        (deref-stored m _ stored ∙ rw h refl) (Ends-e17 _ n last)

  -- From E5, when the tail pointer names the last node.
  Ends-e5_last :
      (m : Mem) (n : Ptr) (d : Node)
      → m.nodes m.tail ≡ some d
      → d.next_node ≡ null
      → Ends 5 m (e5 n)
  unfolding move
  Ends-e5_last m n d stored end = goes refl (
      goes (move-e6 m n m.tail d stored) (
        goes (move-e7 m n d.next_node ∙ rw (ap (λ z. z == null) end) refl)
          (Ends-e9_same m n m.tail d.next_node d stored (==_self d.next_node))))

  module _ {g : Chain} (m : Mem) (v : Inv g m) where
    pub Ends-e5 : (n : Ptr) → Ends 9 m (e5 n)
    unfolding move
    Ends-e5 n =
        let d = Known-node m v.chain v.tail_here in
        elim (ℕ_discrete d.node.next_node null) [
          | yes end ↦ Within-le machine i e 9 (omega arith) (Ends-e5_last m n d.node d.stored end)
          | no more ↦
              let after = d.successor more in
              let b = Known-node m v.chain after in
              let end : b.node.next_node ≡ null = elim (ℕ_discrete b.node.next_node null) [
                | yes z ↦ z
                | no nz ↦ absurd (omega (arith, (b.successor nz).linked, v.chain.order))
              ] in
              goes refl (
                goes (move-e6 m n m.tail d.node d.stored) (
                  goes {c' = e13 n m.tail d.node.next_node}
                    (move-e7 m n d.node.next_node ∙ rw (==_ne _ _ more) refl)
                    (goes (ap (λ z. next z (e5 n)) (swing_tail-hit m d.node.next_node))
                      (Ends-e5_last _ n b.node b.stored end))))
        ]

    -- The rest of `enqueue`, from each place.
    pub Ends-e9 :
        (n : Ptr) (last after : Ptr) (k : ℕ) → WasTail g last k → Ends 10 m (e9 n last after)
    unfolding move
    Ends-e9 n last after k t =
        let d = Known-node m v.chain t.known in
        elim (Bool-cases (d.node.next_node == after)) [
          | inl kept ↦
              Within-le machine i e 10 (omega arith)
                (Ends-e9_same m n last after d.node d.stored kept)
          | inr changed ↦ goes {c' = e5 n} (deref-stored m _ d.stored ∙ rw changed refl) (Ends-e5 n)
        ]

  pub Ends-e13 :
      {g : Chain} (m : Mem)
      → Inv g m
      → (n : Ptr) (last after : Ptr) (k : ℕ) → WasTail g last k
      → Known g after (k + 1)
      → Ends 10 m (e13 n last after)
  unfolding move
  Ends-e13 m v n last after k t s =
      let w = swung i last after v t s in goes refl (Ends-e5 _ w.inv n)

  module _ {g : Chain} (m : Mem) (v : Inv g m) where
    pub Ends-e7 :
        (n : Ptr) (last after : Ptr) (k : ℕ)
        → WasTail g last k
        → Successor g after k
        → Ends 11 m (e7 n last after)
    unfolding move
    Ends-e7 n last after k t s = elim (Bool-cases (last == m.tail)) [
      | inr changed ↦
          Within-le machine i e 11 (omega arith)
            (goes {c' = e5 n} (rw changed refl) (Ends-e5 m v n))
      | inl kept ↦ elim (Bool-cases (after == null)) [
        | inl z ↦ goes {c' = e9 n last after} (rw (kept, z) refl) (Ends-e9 m v n last after k t)
        | inr nz ↦
            goes {c' = e13 n last after} (rw (kept, nz) refl)
              (Ends-e13 m v n last after k t (s (ground arith)))
      ]
    ]

    pub Ends-e6 : (n : Ptr) (last : Ptr) (k : ℕ) → WasTail g last k → Ends 12 m (e6 n last)
    Ends-e6 n last k t =
        let d = Known-node m v.chain t.known in
        goes (move-e6 m n last d.node d.stored) (Ends-e7 n last d.node.next_node k t d.successor)

    pub Ends-e1 : (x : Item) → e.fresh ≢ null → m.nodes e.fresh ≡ none → Ends 10 m (e1 x)
    unfolding move
    Ends-e1 x nn unused =
        let (g', v') = Good-next machine view (Good-e1 g m i e (adding x) v x refl nn unused) in
        goes refl (Ends-e5 _ v' e.fresh)
