-- ===== src/RingList/Changes.antt =====
-- What the accesses of a list of rings outside its rings do: the two pointers, a new ring, a ring that
-- is linked, and one that is deleted.
use concurrent_queue_evaluat.Base.{
  ℕ, [], ◌∷◌, ◌≡◌, ◌≢◌, ◌∙◌, refl, ap, sym, subst, none, some, Ptr, null, update, update_self,
  update_ne, at_or_else,
}
use concurrent_queue_evaluat.Fifo.{Op, Event}
use concurrent_queue_evaluat.Machine.{System, Reach, start, later, call}
use concurrent_queue_evaluat.RingList.{RingClass, Entry, Mem}
use concurrent_queue_evaluat.RingList.Moves.{next_of, state_of}
use concurrent_queue_evaluat.RingList.Knowledge.{Ghost, Public, Own, Inv, Rely}

module _ (ring : RingClass) {g : Ghost ring} {m : Mem ring} (v : Inv ring g m) (i : ℕ) where
  -- The list with other pointers.
  abbrev pub pointed : Ptr → Ptr → Mem ring
  pointed h t = record m { head = h; tail = t }

  Public-pointed : (h t a : Ptr) → Public ring g m a → Public ring g (pointed h t) a
  Public-pointed h t a k = record { entry = k.entry; stored = k.stored; free = k.free }

  pub Inv-pointed : (h t : Ptr) → Public ring g m h → Public ring g m t → Inv ring g (pointed h t)
  Inv-pointed h t kh kt = record {
    head = Public-pointed h t h kh;
    tail = Public-pointed h t t kt;
    linked = λ p r e n. Public-pointed h t r.next_ring (v.linked p r e n);
    unused = v.unused;
    deserted = v.deserted;
    private = v.private;
    reach = v.reach;
    state = v.state;
  }

  pub Rely-pointed : (h t : Ptr) → Rely ring i g m g (pointed h t)
  Rely-pointed h t = record {
    public = Public-pointed h t;
    followed = λ p k. record { entry = k.entry; stored = k.stored; free = k.free; more = k.more };
    own = λ j p n k. record { entry = k.entry; stored = k.stored; mine = k.mine };
    others = λ p j n. refl;
  }

  -- A new ring at `p`, in which thread `i` has called `o`.
  module _ (p : Ptr) (o : Op) (un : m.rings p ≡ none) where
    abbrev new_ring : Entry ring
    new_ring = record { state = ring.create; next_ring = null }

    abbrev pub allocated : Mem ring
    allocated = record m { rings = update m.rings p (some new_ring) }

    abbrev first_call : System ring.machine
    first_call = record {
      mem = ring.create;
      thread = update (λ _. none) i (some (ring.machine.begin o));
      history = Event.call i o ∷ [];
    }

    abbrev pub owning : Ghost ring
    owning = record { owner = update g.owner p (some i); sys = update g.sys p first_call }

    old_ne : (a : Ptr) (b : Entry ring) → m.rings a ≡ some b → p ≢ a
    old_ne a b e z = let both = sym un ∙ ap m.rings z ∙ e in absurd (cc)

    Public-allocated : (a : Ptr) → Public ring g m a → Public ring owning allocated a
    Public-allocated a h =
        let n = old_ne a h.entry h.stored in
        record {
          entry = h.entry;
          stored = update_ne m.rings p a _ n ∙ h.stored;
          free = update_ne g.owner p a _ n ∙ h.free;
        }

    pub Own-allocated : Own ring owning allocated i p
    Own-allocated = record {
      entry = new_ring;
      stored = update_self m.rings p _;
      mine = update_self g.owner p _;
    }

    pub Inv-allocated : Inv ring owning allocated
    unfolding next_of state_of
    Inv-allocated = record {
      head = Public-allocated m.head v.head;
      tail = Public-allocated m.tail v.tail;
      linked =
          at_or_else p
            (λ b e nn. absurd (nn (sym (ap (next_of ring) (sym (update_self m.rings p _) ∙ e)))))
            λ a n b e nn.
              Public-allocated b.next_ring (v.linked a b (sym (update_ne m.rings p a _ n) ∙ e) nn);
      unused =
          at_or_else p
            (λ e. let both = sym (update_self m.rings p (some new_ring)) ∙ e in absurd (cc))
            λ a n e. update_ne g.owner p a _ n ∙ v.unused a (sym (update_ne m.rings p a _ n) ∙ e);
      deserted =
          at_or_else p
            (λ e. let both = sym (update_self m.rings p (some new_ring)) ∙ e in absurd (cc))
            λ a n e j.
              ap (λ z. z.thread j) (update_ne g.sys p a first_call n)
              ∙ v.deserted a (sym (update_ne m.rings p a _ n) ∙ e) j;
      private =
          at_or_else p
            (λ k e j n.
              let both = sym (update_self g.owner p (some i)) ∙ e in
              let same : i ≡ k = cc in
              ap (λ z. z.thread j) (update_self g.sys p first_call)
              ∙ update_ne (λ _. none) i j _ (subst (λ z. z ≢ j) (sym same) n))
            λ a ne k e j n.
              ap (λ z. z.thread j) (update_ne g.sys p a first_call ne)
              ∙ v.private a k (sym (update_ne g.owner p a _ ne) ∙ e) j n;
      reach =
          at_or_else p
            (λ b e.
              subst (Reach ring.machine ring.create) (sym (update_self g.sys p first_call))
                (later start (call i o refl)))
            λ a n b e.
              subst (Reach ring.machine ring.create) (sym (update_ne g.sys p a first_call n))
                (v.reach a b (sym (update_ne m.rings p a _ n) ∙ e));
      state =
          at_or_else p
            (λ b e.
              ap (λ z. z.mem) (update_self g.sys p first_call)
              ∙ ap (state_of ring ring.create) (sym (update_self m.rings p _) ∙ e))
            λ a n b e.
              ap (λ z. z.mem) (update_ne g.sys p a first_call n)
              ∙ v.state a b (sym (update_ne m.rings p a _ n) ∙ e);
    }

    pub Rely-allocated : Rely ring i g m owning allocated
    Rely-allocated = record {
      public = Public-allocated;
      followed = λ a h.
          let n = old_ne a h.entry h.stored in
          record {
            entry = h.entry;
            stored = update_ne m.rings p a _ n ∙ h.stored;
            free = update_ne g.owner p a _ n ∙ h.free;
            more = h.more;
          };
      own = λ j a _ h.
          let n = old_ne a h.entry h.stored in
          record {
            entry = h.entry;
            stored = update_ne m.rings p a _ n ∙ h.stored;
            mine = update_ne g.owner p a _ n ∙ h.mine;
          };
      others =
          at_or_else p
            (λ j n.
              ap (λ z. z.thread j) (update_self g.sys p first_call)
              ∙ update_ne (λ _. none) i j _ n
              ∙ sym (v.deserted p un j))
            λ a n j _. ap (λ z. z.thread j) (update_ne g.sys p a first_call n);
    }
