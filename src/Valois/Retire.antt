-- ===== src/Valois/Retire.antt =====
-- `retire` of valois_queue.hpp: it runs after `dequeue` has taken effect, and changes no item and no
-- successor.
use concurrent_queue_evaluat.Base.{ℕ, ◌≡◌, refl, fun_ext, ◌==◌, Bool-cases, inl, inr, Ptr, arith}
use concurrent_queue_evaluat.Fifo.{Item, Phase, dequeue_ends}
use concurrent_queue_evaluat.Machine.{Env}
use concurrent_queue_evaluat.Machine.Simulation.{Good, goes, ends, silent}
use concurrent_queue_evaluat.Chain.{Chain}
use concurrent_queue_evaluat.Chain.Changes.{Respects-refl}
use concurrent_queue_evaluat.Valois.{Mem, store, move, machine, r1, r2, r3}
use concurrent_queue_evaluat.Valois.Knowledge.{look, Inv, Local, view, Known-node, deref-stored}
use concurrent_queue_evaluat.Valois.Swing.{reads}

module _ (g : Chain) (m : Mem) (i : ℕ) (e : Env) (p : Phase) (v : Inv g m) where
  pub Good-r1 :
      (first : Ptr) (x : Item)
      → Local g m i (r1 first x) p
      → Good machine view g m i p (move i e m (r1 first x))
  unfolding move
  Good-r1 first x h = reads g m i _ p v h

  pub Good-r2 :
      (first old : Ptr) (x : Item)
      → Local g m i (r2 first old x) p
      → Good machine view g m i p (move i e m (r2 first old x))
  unfolding move
  Good-r2 first old x (k, q, h) =
      let d = Known-node m v.chain h in
      let m' = store m first (record d.node { retired_next = old }) in
      let same_look : look m' ≡ look m = fun_ext λ a. ground (arith, d.stored) in
      rw (deref-stored m _ d.stored) (
        goes g p
          (record {
            chain = rw same_look v.chain;
            head_here = v.head_here;
            tail_here = v.tail_here;
          })
          (rw same_look (Respects-refl i (look m) g)) (k, q, h) (silent refl refl))

  pub Good-r3 :
      (first old : Ptr) (x : Item)
      → Local g m i (r3 first old x) p
      → Good machine view g m i p (move i e m (r3 first old x))
  unfolding move
  Good-r3 first old x (k, q, h) = elim (Bool-cases e.spurious) [
    | inl s ↦ rw s (reads g m i _ p v (k, q, h))
    | inr s ↦ rw s (elim (Bool-cases (m.retired == old)) [
      | inr lost ↦ rw lost (reads g m i _ p v (k, q, h))
      | inl won ↦ rw won (
          ends g p (record { chain = v.chain; head_here = v.head_here; tail_here = v.tail_here })
            (Respects-refl i (look m) g) (rw q dequeue_ends) (silent refl refl))
    ])
  ]
