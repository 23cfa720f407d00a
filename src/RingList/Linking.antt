-- ===== src/RingList/Linking.antt =====
-- A ring that its thread links behind the last one, or deletes.
use concurrent_queue_evaluat.Base.{
  ℕ, ◌≡◌, ◌≢◌, ◌∙◌, refl, ap, sym, subst, none, some, Ptr, null, update, update_self, update_ne,
  at_or_else, ℕ_discrete,
}
use concurrent_queue_evaluat.RingList.{RingClass, Entry, Mem}
use concurrent_queue_evaluat.RingList.Moves.{next_of, state_of}
use concurrent_queue_evaluat.RingList.Knowledge.{Ghost, Public, Own, Inv, Rely}

module _ (ring : RingClass) {g : Ghost ring} {m : Mem ring} (v : Inv ring g m) (i : ℕ) (p : Ptr)
    (own : Own ring g m i p) where
  -- The ring at `p` has no owner any more.
  abbrev pub released : Ghost ring
  released = record g { owner = update g.owner p none }

  released-none : (a : Ptr) → g.owner a ≡ none → released.owner a ≡ none
  released-none =
      at_or_else p (λ e. update_self g.owner p none) λ a n e. update_ne g.owner p a none n ∙ e

  released-some : (a : Ptr) (k : ℕ) → released.owner a ≡ some k → (p ≢ a) × (g.owner a ≡ some k)
  released-some =
      at_or_else p (λ k e. let both = sym (update_self g.owner p none) ∙ e in absurd (cc))
        λ a n k e. (n, sym (update_ne g.owner p a none n) ∙ e)

  not_mine : (a : Ptr) (j : ℕ) → i ≢ j → g.owner a ≡ some j → p ≢ a
  not_mine a j n e z = let both = sym own.mine ∙ ap g.owner z ∙ e in n cc

  not_public : (a : Ptr) → g.owner a ≡ none → p ≢ a
  not_public a e z = let both = sym own.mine ∙ ap g.owner z ∙ e in absurd (cc)

  -- It is the successor of the ring at `q`, which has had none.
  module _ (q : Ptr) (r : Entry ring) (was : m.rings q ≡ some r) (free : g.owner q ≡ none)
      (last : r.next_ring ≡ null) where
    abbrev pub with_next : Mem ring
    with_next = record m { rings = update m.rings q (some (record r { next_ring = p })) }

    pub Public-linked : (a : Ptr) → Public ring g m a → Public ring released with_next a
    Public-linked =
        at_or_else q
          (λ h. record {
            entry = record r { next_ring = p };
            stored = update_self m.rings q _;
            free = released-none q free;
          })
          λ a n h. record {
            entry = h.entry;
            stored = update_ne m.rings q a _ n ∙ h.stored;
            free = released-none a h.free;
          }

    pub new-Public : Public ring released with_next p
    new-Public = record {
      entry = own.entry;
      stored = update_ne m.rings q p _ (λ z. not_public q free (sym z)) ∙ own.stored;
      free = update_self g.owner p none;
    }

    pub Inv-linked : Inv ring released with_next
    unfolding next_of state_of
    Inv-linked = record {
      head = Public-linked m.head v.head;
      tail = Public-linked m.tail v.tail;
      linked =
          at_or_else q
            (λ b e nn.
              subst (Public ring released with_next)
                (ap (next_of ring) (sym (update_self m.rings q _) ∙ e)) new-Public)
            λ a n b e nn.
              Public-linked b.next_ring (v.linked a b (sym (update_ne m.rings q a _ n) ∙ e) nn);
      unused =
          at_or_else q
            (λ e.
              let both = sym (update_self m.rings q (some (record r { next_ring = p }))) ∙ e in
              absurd (cc))
            λ a n e. released-none a (v.unused a (sym (update_ne m.rings q a _ n) ∙ e));
      deserted =
          at_or_else q
            (λ e.
              let both = sym (update_self m.rings q (some (record r { next_ring = p }))) ∙ e in
              absurd (cc))
            λ a n e. v.deserted a (sym (update_ne m.rings q a _ n) ∙ e);
      private = λ a k e. v.private a k (released-some a k e).1;
      reach =
          at_or_else q (λ b e. v.reach q r was)
            λ a n b e. v.reach a b (sym (update_ne m.rings q a _ n) ∙ e);
      state =
          at_or_else q
            (λ b e.
              v.state q r was ∙ ap (state_of ring r.state) (sym (update_self m.rings q _) ∙ e))
            λ a n b e. v.state a b (sym (update_ne m.rings q a _ n) ∙ e);
    }

    pub Rely-linked : Rely ring i g m released with_next
    unfolding next_of
    Rely-linked = record {
      public = Public-linked;
      followed =
          at_or_else q (λ h. absurd (h.more (ap (next_of ring) (sym h.stored ∙ was) ∙ last)))
            λ a n h. record {
              entry = h.entry;
              stored = update_ne m.rings q a _ n ∙ h.stored;
              free = released-none a h.free;
              more = h.more;
            };
      own = λ j a n h.
          let away : q ≢ a = λ z. let both = sym free ∙ ap g.owner z ∙ h.mine in absurd (cc) in
          record {
            entry = h.entry;
            stored = update_ne m.rings q a _ away ∙ h.stored;
            mine = update_ne g.owner p a none (not_mine a j n h.mine) ∙ h.mine;
          };
      others = λ a j n. refl;
    }

  -- It is deleted, when its thread has left it.
  module _ (left : (g.sys p).thread i ≡ none) where
    abbrev pub without : Mem ring
    without = record m { rings = update m.rings p none }

    Public-deleted : (a : Ptr) → Public ring g m a → Public ring released without a
    Public-deleted a h = record {
      entry = h.entry;
      stored = update_ne m.rings p a none (not_public a h.free) ∙ h.stored;
      free = released-none a h.free;
    }

    still : (a : Ptr) (b : Entry ring) → without.rings a ≡ some b → m.rings a ≡ some b
    still =
        at_or_else p (λ b e. let both = sym (update_self m.rings p none) ∙ e in absurd (cc))
          λ a n b e. sym (update_ne m.rings p a none n) ∙ e

    pub Inv-deleted : Inv ring released without
    Inv-deleted = record {
      head = Public-deleted m.head v.head;
      tail = Public-deleted m.tail v.tail;
      linked = λ a b e nn. Public-deleted b.next_ring (v.linked a b (still a b e) nn);
      unused =
          at_or_else p (λ e. update_self g.owner p none)
            λ a n e. released-none a (v.unused a (sym (update_ne m.rings p a none n) ∙ e));
      deserted =
          at_or_else p
            (λ e j. elim (ℕ_discrete i j) [
              | yes z ↦ subst (λ k. (g.sys p).thread k ≡ none) z left
              | no n ↦ v.private p i own.mine j n
            ])
            λ a n e. v.deserted a (sym (update_ne m.rings p a none n) ∙ e);
      private = λ a k e. v.private a k (released-some a k e).1;
      reach = λ a b e. v.reach a b (still a b e);
      state = λ a b e. v.state a b (still a b e);
    }

    pub Rely-deleted : Rely ring i g m released without
    Rely-deleted = record {
      public = Public-deleted;
      followed = λ a h. record {
        entry = h.entry;
        stored = update_ne m.rings p a none (not_public a h.free) ∙ h.stored;
        free = released-none a h.free;
        more = h.more;
      };
      own = λ j a n h. record {
        entry = h.entry;
        stored = update_ne m.rings p a none (not_mine a j n h.mine) ∙ h.stored;
        mine = update_ne g.owner p a none (not_mine a j n h.mine) ∙ h.mine;
      };
      others = λ a j n. refl;
    }
