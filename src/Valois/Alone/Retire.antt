-- ===== src/Valois/Alone/Retire.antt =====
-- `retire` of valois_queue.hpp in a thread that moves while the others pause.
use concurrent_queue_evaluat.Base.{
  ℕ, ◌≡◌, refl, Bool-cases, inl, inr, some, false, Ptr, ◌==◌, ==_self, update_self,
}
use concurrent_queue_evaluat.Fifo.{Item, dequeued}
use concurrent_queue_evaluat.Machine.{Env, next}
use concurrent_queue_evaluat.Machine.Alone.{Within, returns, goes}
use concurrent_queue_evaluat.Valois.{Node, Mem, Pc, store, move, machine, r1, r2, r3}
use concurrent_queue_evaluat.Valois.Knowledge.{deref-stored}

module _ (i : ℕ) (e : Env) (calm : e.spurious ≡ false) where
  abbrev Ends : ℕ → Mem → Pc → Type 0
  Ends n m c = Within machine i e n m c

  Ends-r3_hit : (m : Mem) (first : Ptr) (x : Item) → Ends 1 m (r3 first m.retired x)
  unfolding move
  Ends-r3_hit m first x =
      returns {m' = record m { retired = first }} {r = dequeued (some x)}
        (rw (calm, ==_self m.retired) refl)

  move-r2 :
      (m : Mem) (first old : Ptr) (x : Item) (d : Node)
      → m.nodes first ≡ some d
      → move i e m (r2 first old x)
        ≡ next (store m first (record d { retired_next = old })) (r3 first old x)
  unfolding move
  move-r2 m first old x d stored = deref-stored m _ stored

  Ends-r2_hit :
      (m : Mem) (first : Ptr) (x : Item) (d : Node)
      → m.nodes first ≡ some d
      → Ends 2 m (r2 first m.retired x)
  Ends-r2_hit m first x d stored =
      goes (move-r2 m first m.retired x d stored) (Ends-r3_hit _ first x)

  pub Ends-r1 :
      (m : Mem) (first : Ptr) (x : Item) (d : Node) → m.nodes first ≡ some d → Ends 3 m (r1 first x)
  unfolding move
  Ends-r1 m first x d stored = goes refl (Ends-r2_hit m first x d stored)

  pub Ends-r3 :
      (m : Mem) (first old : Ptr) (x : Item) (d : Node)
      → m.nodes first ≡ some d
      → Ends 3 m (r3 first old x)
  unfolding move
  Ends-r3 m first old x d stored = elim (Bool-cases (m.retired == old)) [
    | inl won ↦
        returns {m' = record m { retired = first }} {r = dequeued (some x)} (rw (calm, won) refl)
    | inr lost ↦
        goes {c' = r2 first m.retired x} (rw (calm, lost) refl) (Ends-r2_hit m first x d stored)
  ]

  pub Ends-r2 :
      (m : Mem) (first old : Ptr) (x : Item) (d : Node)
      → m.nodes first ≡ some d
      → Ends 4 m (r2 first old x)
  Ends-r2 m first old x d stored =
      goes (move-r2 m first old x d stored)
        (Ends-r3 _ first old x (record d { retired_next = old }) (update_self m.nodes first _))
