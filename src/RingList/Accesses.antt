-- ===== src/RingList/Accesses.antt =====
-- The kinds of access that both operations of a list of rings make.
use concurrent_queue_evaluat.Base.{
  ℕ, ◌≡◌, ◌≢◌, ◌∙◌, refl, sym, Bool, true, false, Option, none, some, Ptr, null, ◌==◌,
  if◌then◌else◌, ==_self, ==_ne,
}
use concurrent_queue_evaluat.Fifo.{Op, Answer}
use concurrent_queue_evaluat.Machine.{Env, Outcome}
use concurrent_queue_evaluat.Machine.Relies.{Moved, Good}
use concurrent_queue_evaluat.RingList.{RingClass, Entry, Mem, Pc, deref, machine}
use concurrent_queue_evaluat.RingList.Knowledge.{
  RingLaws, Ghost, Public, Own, Inv, Place, inside_at, view,
}
use concurrent_queue_evaluat.RingList.Moves.{Rely-refl}
use concurrent_queue_evaluat.RingList.Calls.{enters, Arrives}
use concurrent_queue_evaluat.RingList.Changes.{Inv-pointed, Rely-pointed}

module _ (ring : RingClass) where
  pub deref-stored :
      (m : Mem ring) (p : Ptr) {r : Entry ring}
      (k : Entry ring → Outcome (Mem ring) (Pc ring) Answer)
      → m.rings p ≡ some r
      → deref ring m p k ≡ k r
  unfolding deref
  deref-stored m p k e = rw (e, deref)

  pub Public-mine :
      {g : Ghost ring} {m : Mem ring} {p : Ptr} (i : ℕ)
      → Public ring g m p
      → (j : ℕ) → g.owner p ≡ some j
      → j ≡ i
  Public-mine i h j o = let both = sym h.free ∙ o in absurd (cc)

  pub Own-mine :
      {g : Ghost ring} {m : Mem ring} {p : Ptr} (i : ℕ)
      → Own ring g m i p
      → (j : ℕ) → g.owner p ≡ some j
      → j ≡ i
  Own-mine i h j o = let both = sym h.mine ∙ o in cc

  module _ (again : Bool) (laws : RingLaws ring) {g : Ghost ring} {m : Mem ring} (v : Inv ring g m)
      (i : ℕ) (e : Env) (nn : e.fresh ≢ null) where
    abbrev pub Ok : Outcome (Mem ring) (Pc ring) Answer → Type 0
    Ok o = Good (machine ring again) (view ring again) g m i o

    abbrev pub To : Mem ring → Option (Pc ring) → Type 0
    To m' c = Moved (machine ring again) (view ring again) g m i m' c

    abbrev pub Out : Type 0
    Out = (a : Ptr) → (g.sys a).thread i ≡ none

    -- An access that changes no memory, outside the calls of the rings.
    pub reads :
        (c : Option (Pc ring))
        → ((a : Ptr) → (g.sys a).thread i ≡ inside_at ring a c)
        → Place ring g m i c
        → To m c
    reads c here place = record {
      ghost = g;
      inv = v;
      rely = Rely-refl ring i g m;
      local = record { place = place; here = here };
    }

    -- A thread enters a call of a linked ring.
    pub enters_ring :
        (crq : Ptr) (o : Op) (c c' : Option (Pc ring))
        → Out
        → ((a : Ptr) → inside_at ring a c ≡ none)
        → ((a : Ptr)
            → inside_at ring a c' ≡ (if crq == a then some (ring.machine.begin o) else none))
        → (h : Public ring g m crq)
        → Arrives ring again laws v i crq h.entry h.stored (Public-mine i h) m c'
        → To m c'
    enters_ring crq o c c' out gone at h place =
        enters ring again laws v i crq h.entry h.stored (Public-mine i h) o c c'
          (λ a. out a ∙ sym (gone a)) gone (at crq ∙ rw (==_self crq) refl)
          (λ a n. at a ∙ rw (==_ne crq a n) refl) place

    -- One of the pointers is moved to a linked ring, or is not.
    pub points_tail :
        (b : Bool) (to : Ptr) (c' : Option (Pc ring))
        → Out
        → ((a : Ptr) → inside_at ring a c' ≡ none)
        → Public ring g m to
        → ((m' : Mem ring) → Place ring g m' i c')
        → To (if b then record m { tail = to } else m) c'
    points_tail true to c' out gone h place = record {
      ghost = g;
      inv = Inv-pointed ring v i m.head to v.head h;
      rely = Rely-pointed ring v i m.head to;
      local = record { place = place _; here = λ a. out a ∙ sym (gone a) };
    }
    points_tail false to c' out gone h place = reads c' (λ a. out a ∙ sym (gone a)) (place m)

    pub points_head :
        (b : Bool) (to : Ptr) (c' : Option (Pc ring))
        → Out
        → ((a : Ptr) → inside_at ring a c' ≡ none)
        → Public ring g m to
        → ((m' : Mem ring) → Place ring g m' i c')
        → To (if b then record m { head = to } else m) c'
    points_head true to c' out gone h place = record {
      ghost = g;
      inv = Inv-pointed ring v i to m.tail h v.tail;
      rely = Rely-pointed ring v i to m.tail;
      local = record { place = place _; here = λ a. out a ∙ sym (gone a) };
    }
    points_head false to c' out gone h place = reads c' (λ a. out a ∙ sym (gone a)) (place m)
