-- ===== src/Ms/Swing.antt =====
-- Moves of ms_queue.hpp that both operations make: one that only reads, and the help to the tail.
use concurrent_queue_evaluat.Base.{
  ℕ, ◌+◌, ◌≡◌, refl, true, ==_self, Bool-cases, inl, inr, ap, ◌∙◌, Ptr, arith,
}
use concurrent_queue_evaluat.Fifo.{Phase}
use concurrent_queue_evaluat.Machine.{next}
use concurrent_queue_evaluat.Machine.Simulation.{Good, goes, silent}
use concurrent_queue_evaluat.Chain.{Chain, Respects, Known, WasTail, contents}
use concurrent_queue_evaluat.Chain.Changes.{
  Respects-refl, swing, swing-IsChain, swing-Respects, Known-unique,
}
use concurrent_queue_evaluat.Ms.{Pointer, pointer, bump, same, Mem, Pc, swing_tail, machine}
use concurrent_queue_evaluat.Ms.Knowledge.{look, Inv, Local, view}

pub same-ptr : (a b : Pointer) → same a b ≡ true → a.ptr ≡ b.ptr
unfolding same
same-ptr a b h = ground arith

pub same_self : (a : Pointer) → same a a ≡ true
unfolding same
same_self a = rw (==_self a.ptr, ==_self a.count) refl

pub swing_tail-hit :
    (m : Mem) (to : Ptr)
    → swing_tail m m.tail to ≡ record m { tail = pointer to (bump m.tail.count) }
unfolding swing_tail
swing_tail-hit m to = rw (same_self m.tail) refl

-- An access that changes no memory.
pub reads :
    (g : Chain) (m : Mem) (i : ℕ) (c : Pc) (p : Phase)
    → Inv g m
    → Local g m i c p
    → Good machine view g m i p (next m c)
reads g m i c p v k = goes g p v (Respects-refl i (look m) g) k (silent refl refl)

-- The memory `m'` after an attempt to move the tail.
pub record Swung (g : Chain) (m : Mem) (i : ℕ) (m' : Mem) : Type 0 where
  pub after : Chain
  pub inv : Inv after m'
  pub respects : Respects i (look m) g (look m') after
  pub items : contents after ≡ contents g
  pub same_owner : after.owner ≡ g.owner
  pub same_look : look m' ≡ look m

pub swung :
    {g : Chain} {m : Mem} (i : ℕ) (last : Pointer) (to : Ptr) {k : ℕ}
    → Inv g m
    → WasTail g last.ptr k
    → Known g to (k + 1)
    → Swung g m i (swing_tail m last to)
unfolding swing_tail contents
swung {g} {m} i last to {k} v t s = elim (Bool-cases (same m.tail last)) [
  | inl hit ↦
      let here : g.tail ≡ k = Known-unique v.chain v.tail_here t.known (same-ptr _ _ hit) in
      rw hit (record {
        after = swing v.chain;
        inv = record {
          chain = swing-IsChain v.chain (omega (arith, s.linked));
          head_here = record { linked = v.head_here.linked; here = v.head_here.here };
          tail_here = record {
            linked = omega (arith, s.linked);
            here = ap g.at (omega arith) ∙ s.here;
          };
        };
        respects = swing-Respects v.chain i;
        items = refl;
        same_owner = refl;
        same_look = refl;
      })
  | inr miss ↦ rw miss (record {
    after = g;
    inv = v;
    respects = Respects-refl i (look m) g;
    items = refl;
    same_owner = refl;
    same_look = refl;
  })
]
