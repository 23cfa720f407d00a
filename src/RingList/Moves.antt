-- ===== src/RingList/Moves.antt =====
-- What the accesses of a list of rings do to it: to one ring, to the two pointers, and to the list.
use concurrent_queue_evaluat.Base.{
  ℕ, ◌≡◌, ◌≢◌, ◌∙◌, refl, ap, sym, subst, Bool, Option, none, some, Ptr, null, update, update_self,
  update_ne, at_or_else, ℕ_discrete,
}
use concurrent_queue_evaluat.Machine.{System, Reach}
use concurrent_queue_evaluat.Machine.Relies.{Moved}
use concurrent_queue_evaluat.RingList.{RingClass, Entry, Mem, Pc, machine}
use concurrent_queue_evaluat.RingList.Knowledge.{
  Ghost, Public, Own, Inv, Rely, Place, inside_at, view,
}

module _ (ring : RingClass) where
  pub Rely-refl : (i : ℕ) (g : Ghost ring) (m : Mem ring) → Rely ring i g m g m
  Rely-refl i g m = record {
    public = λ p h. h;
    followed = λ p h. h;
    own = λ j p n h. h;
    others = λ p j n. refl;
  }

  unfoldable pub next_of : Option (Entry ring) → Ptr
  next_of none = null
  next_of (some r) = r.next_ring

  unfoldable pub state_of : ring.machine.Mem → Option (Entry ring) → ring.machine.Mem
  state_of m none = m
  state_of m (some r) = r.state

  -- Thread `i` moves in the ring at `p`, and leaves it in the state of `u`.
  module _ {g : Ghost ring} {m : Mem ring} (v : Inv ring g m) (i : ℕ) (p : Ptr) (r : Entry ring)
      (was : m.rings p ≡ some r) (mine : (j : ℕ) → g.owner p ≡ some j → j ≡ i)
      (u : System ring.machine) (reach : Reach ring.machine ring.create u)
      (others : (j : ℕ) → i ≢ j → u.thread j ≡ (g.sys p).thread j) (m' : Mem ring)
      (at_p : m'.rings p ≡ some (record r { state = u.mem }))
      (elsewhere : (a : Ptr) → p ≢ a → m'.rings a ≡ m.rings a) (same_head : m'.head ≡ m.head)
      (same_tail : m'.tail ≡ m.tail) where
    abbrev pub moved : Ghost ring
    moved = record g { sys = update g.sys p u }

    -- The entry at an address, before and after.
    pub record Same (a : Ptr) (b : Entry ring) : Type 0 where
      pub entry : Entry ring
      pub stored : m'.rings a ≡ some entry
      pub after : entry.next_ring ≡ b.next_ring

    forth : (a : Ptr) (b : Entry ring) → m.rings a ≡ some b → Same a b
    unfolding next_of
    forth a b e = elim (ℕ_discrete p a) [
      | yes z ↦ record {
        entry = record r { state = u.mem };
        stored = sym (ap m'.rings z) ∙ at_p;
        after = ap next_of (sym was ∙ ap m.rings z ∙ e);
      }
      | no n ↦ record { entry = b; stored = elsewhere a n ∙ e; after = refl }
    ]

    back :
        (a : Ptr) (b : Entry ring)
        → m'.rings a ≡ some b
        → (c : Entry ring) × (m.rings a ≡ some c) × (c.next_ring ≡ b.next_ring)
    unfolding next_of
    back a b e = elim (ℕ_discrete p a) [
      | yes z ↦ (r, ap m.rings (sym z) ∙ was, ap next_of (sym at_p ∙ ap m'.rings z ∙ e))
      | no n ↦ (b, sym (elsewhere a n) ∙ e, refl)
    ]

    absent : (a : Ptr) → m'.rings a ≡ none → m.rings a ≡ none
    absent a e = elim (ℕ_discrete p a) [
      | yes z ↦ let gone = sym at_p ∙ ap m'.rings z ∙ e in absurd (cc)
      | no n ↦ sym (elsewhere a n) ∙ e
    ]

    pub Public-moved : (a : Ptr) → Public ring g m a → Public ring moved m' a
    Public-moved a h =
        let s = forth a h.entry h.stored in
        record { entry = s.entry; stored = s.stored; free = h.free }

    pub Own-moved : (j : ℕ) (a : Ptr) → Own ring g m j a → Own ring moved m' j a
    Own-moved j a h =
        let s = forth a h.entry h.stored in
        record { entry = s.entry; stored = s.stored; mine = h.mine }

    pub ring_moved : Inv ring moved m' × Rely ring i g m moved m'
    unfolding state_of
    ring_moved = (
      record {
        head = subst (Public ring moved m') (sym same_head) (Public-moved m.head v.head);
        tail = subst (Public ring moved m') (sym same_tail) (Public-moved m.tail v.tail);
        linked = λ a b e nn.
            let (c, ec, same) = back a b e in
            subst (Public ring moved m') same
              (Public-moved c.next_ring (v.linked a c ec (λ z. nn (sym same ∙ z))));
        unused = λ a e. v.unused a (absent a e);
        deserted =
            at_or_else p (λ e. absurd (cc))
              λ a n e j.
                ap (λ z. z.thread j) (update_ne g.sys p a u n) ∙ v.deserted a (absent a e) j;
        private =
            at_or_else p
              (λ k o j n.
                ap (λ z. z.thread j) (update_self g.sys p u)
                ∙ others j (subst (λ z. z ≢ j) (mine k o) n)
                ∙ v.private p k o j n)
              λ a ne k o j n. ap (λ z. z.thread j) (update_ne g.sys p a u ne) ∙ v.private a k o j n;
        reach =
            at_or_else p
              (λ b e. subst (Reach ring.machine ring.create) (sym (update_self g.sys p u)) reach)
              λ a n b e.
                subst (Reach ring.machine ring.create) (sym (update_ne g.sys p a u n))
                  (v.reach a b (sym (elsewhere a n) ∙ e));
        state =
            at_or_else p
              (λ b e. ap (λ z. z.mem) (update_self g.sys p u) ∙ ap (state_of u.mem) (sym at_p ∙ e))
              λ a n b e.
                ap (λ z. z.mem) (update_ne g.sys p a u n) ∙ v.state a b (sym (elsewhere a n) ∙ e);
      },
      record {
        public = Public-moved;
        followed = λ a h.
            let s = forth a h.entry h.stored in
            record {
              entry = s.entry;
              stored = s.stored;
              free = h.free;
              more = λ z. h.more (sym s.after ∙ z);
            };
        own = λ j a n h. Own-moved j a h;
        others =
            at_or_else p (λ j n. ap (λ z. z.thread j) (update_self g.sys p u) ∙ others j n)
              λ a n j ne. ap (λ z. z.thread j) (update_ne g.sys p a u n);
      },
    )

    -- Thread `i` then stands at `c'`.
    pub lands :
        (again : Bool) (c c' : Option (Pc ring))
        → ((a : Ptr) → (g.sys a).thread i ≡ inside_at ring a c)
        → u.thread i ≡ inside_at ring p c'
        → ((a : Ptr) → p ≢ a → inside_at ring a c ≡ inside_at ring a c')
        → Place ring moved m' i c'
        → Moved (machine ring again) (view ring again) g m i m' c'
    lands again c c' here at_ring off place = record {
      ghost = moved;
      inv = ring_moved.0;
      rely = ring_moved.1;
      local = record {
        place = place;
        here =
            at_or_else p (ap (λ z. z.thread i) (update_self g.sys p u) ∙ at_ring)
              λ a n. ap (λ z. z.thread i) (update_ne g.sys p a u n) ∙ here a ∙ off a n;
      };
    }
