-- ===== src/RingList/Linked.antt =====
-- The rings of a list, and its pointers, in every reachable state.
use concurrent_queue_evaluat.Base.{
  ℕ, ◌≡◌, ◌≢◌, ◌∙◌, refl, ap, sym, Bool, none, some, Ptr, null, update_self, at_or_else, update_ne,
}
use concurrent_queue_evaluat.Fifo.{Op, enqueue, dequeue}
use concurrent_queue_evaluat.Machine.{Env, System, Reach, initial, start, fault}
use concurrent_queue_evaluat.Machine.Relies
use concurrent_queue_evaluat.Machine.Relies.{Moved, Good, Proof}
use concurrent_queue_evaluat.RingList.{
  RingClass, Entry, Mem, Pc, begin, move, machine, create, e1, e2, e3, e4, e5, e6, e7, e8, e9, e10,
  d1, d2, d3, d4, d5,
}
use concurrent_queue_evaluat.RingList.Knowledge.{
  RingLaws, Ghost, Public, Inv, Local, view, Local-stable,
}
use concurrent_queue_evaluat.RingList.Moves.{Rely-refl, next_of, state_of}
use concurrent_queue_evaluat.RingList.Enqueue.{
  Good-e1, Good-e2, Good-e3, Good-e4, Good-e5, Good-e6, Good-e7, Good-e8, Good-e9, Good-e10,
}
use concurrent_queue_evaluat.RingList.Dequeue.{Good-d1, Good-d2, Good-d3, Good-d4, Good-d5}

module _ (ring : RingClass) (again : Bool) (laws : RingLaws ring) where
  begins :
      (g : Ghost ring) (m : Mem ring) (i : ℕ) (o : Op)
      → Inv ring g m
      → Local ring g m i none
      → Moved (machine ring again) (view ring again) g m i m (some (begin ring o))
  unfolding begin
  begins g m i (enqueue x) v h = record {
    ghost = g;
    inv = v;
    rely = Rely-refl ring i g m;
    local = record { place = tt; here = h.here };
  }
  begins g m i dequeue v h = record {
    ghost = g;
    inv = v;
    rely = Rely-refl ring i g m;
    local = record { place = tt; here = h.here };
  }

  moves :
      (g : Ghost ring) (m : Mem ring) (i : ℕ) (e : Env) (c : Pc ring)
      → Inv ring g m
      → Local ring g m i (some c)
      → e.fresh ≢ null
      → m.rings e.fresh ≡ none
      → Good (machine ring again) (view ring again) g m i (move ring again i e m c)
  moves g m i e (e1 x) v h nn un = Good-e1 ring again laws v i e nn x h
  moves g m i e (e2 x q) v h nn un = Good-e2 ring again laws v i e nn x q h
  moves g m i e (e3 x q) v h nn un = Good-e3 ring again laws v i e nn x q h
  moves g m i e (e4 x q r) v h nn un = Good-e4 ring again laws v i e nn x q r h
  moves g m i e (e5 x q c) v h nn un = Good-e5 ring again laws v i e nn x q c h
  moves g m i e (e6 x q) v h nn un = Good-e6 ring again laws v i e nn x q h un
  moves g m i e (e7 x q r c) v h nn un = Good-e7 ring again laws v i e nn x q r c h
  moves g m i e (e8 x q r) v h nn un = Good-e8 ring again laws v i e nn x q r h
  moves g m i e (e9 q r) v h nn un = Good-e9 ring again laws v i e nn q r h
  moves g m i e (e10 x r) v h nn un = Good-e10 ring again laws v i e nn x r h
  moves g m i e d1 v h nn un = Good-d1 ring again laws v i e nn h
  moves g m i e (d2 q c) v h nn un = Good-d2 ring again laws v i e nn q c h
  moves g m i e (d3 q) v h nn un = Good-d3 ring again laws v i e nn q h
  moves g m i e (d4 q r c) v h nn un = Good-d4 ring again laws v i e nn q r c h
  moves g m i e (d5 q r) v h nn un = Good-d5 ring again laws v i e nn q r h

  abbrev ghost₀ : Ghost ring
  ghost₀ = record { owner = λ _. none; sys = λ _. initial ring.machine ring.create }

  abbrev entry₀ : Entry ring
  entry₀ = record { state = ring.create; next_ring = null }

  module _ (first : Ptr) where
    first-Public : Public ring ghost₀ (create ring first) first
    first-Public = record {
      entry = entry₀;
      stored = update_self (λ _. none) first (some entry₀);
      free = refl;
    }

    create-Inv : Inv ring ghost₀ (create ring first)
    unfolding next_of state_of
    create-Inv = record {
      head = first-Public;
      tail = first-Public;
      linked =
          at_or_else first
            (λ r e nn. absurd (
              nn (sym (ap (next_of ring) (sym (update_self (λ _. none) first (some entry₀)) ∙ e)))))
            λ a n r e.
              let both = sym (update_ne (λ _. none) first a (some entry₀) n) ∙ e in absurd (cc);
      unused = λ p e. refl;
      deserted = λ p e j. refl;
      private = λ p k e. absurd (cc);
      reach = λ p r e. start;
      state =
          at_or_else first
            (λ r e.
              ap (state_of ring ring.create)
                (sym (update_self (λ _. none) first (some entry₀)) ∙ e))
            λ a n r e.
              let both = sym (update_ne (λ _. none) first a (some entry₀) n) ∙ e in absurd (cc);
    }

    proof : Proof (machine ring again) (view ring again) (create ring first)
    proof = record {
      ghost₀ = ghost₀;
      inv₀ = create-Inv;
      idle₀ = λ i. record { place = tt; here = λ p. refl };
      begins = begins;
      stable = λ c n r h. Local-stable ring n r c h;
      moves = moves;
    }

    -- Every ring is in a state that its class reaches.
    pub ring-Reach :
        {s : System (machine ring again)} {p : Ptr} {r : Entry ring}
        → Reach (machine ring again) (create ring first) s
        → s.mem.rings p ≡ some r
        → (u : System ring.machine) × Reach ring.machine ring.create u × (u.mem ≡ r.state)
    ring-Reach {p} {r} reached e =
        let k = Relies.Known-Reach (machine ring again) (view ring again) proof reached in
        (k.ghost.sys p, k.inv.reach p r e, k.inv.state p r e)

    pub move-ne-fault :
        {s : System (machine ring again)} {c : Pc ring} (i : ℕ) (e : Env)
        → Reach (machine ring again) (create ring first) s
        → s.thread i ≡ some c
        → e.fresh ≢ null
        → s.mem.rings e.fresh ≡ none
        → move ring again i e s.mem c ≢ fault
    move-ne-fault i e reached at_c nn un =
        Relies.move-ne-fault (machine ring again) (view ring again) proof (λ f. f) i e reached at_c
          nn un
