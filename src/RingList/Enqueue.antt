-- ===== src/RingList/Enqueue.antt =====
-- `enqueue` of a list of rings, access by access.
use concurrent_queue_evaluat.Base.{
  ℕ, ◌≡◌, ◌≢◌, ◌∙◌, refl, ap, Bool, Bool-cases, inl, inr, none, some, Ptr, null, ◌==◌, arith,
  update_self, update_ne, at_or_else, ==_self, ==_ne, ==_eq,
}
use concurrent_queue_evaluat.Fifo.{Item, enqueue}
use concurrent_queue_evaluat.Machine.{Env}
use concurrent_queue_evaluat.RingList.{
  RingClass, Mem, move, e1, e2, e3, e4, e5, e6, e7, e8, e9, e10,
}
use concurrent_queue_evaluat.RingList.Knowledge.{RingLaws, Ghost, Inv, Local}
use concurrent_queue_evaluat.RingList.Calls.{Good-inside}
use concurrent_queue_evaluat.RingList.Changes.{owning, Inv-allocated, Rely-allocated, Own-allocated}
use concurrent_queue_evaluat.RingList.Linking.{
  released, Inv-linked, Rely-linked, new-Public, Inv-deleted, Rely-deleted,
}
use concurrent_queue_evaluat.RingList.Accesses.{
  deref-stored, Public-mine, Own-mine, Ok, reads, enters_ring, points_tail,
}

module _ (ring : RingClass) (again : Bool) (laws : RingLaws ring) {g : Ghost ring} {m : Mem ring}
    (v : Inv ring g m) (i : ℕ) (e : Env) (nn : e.fresh ≢ null) where
  pub Good-e1 :
      (x : Item)
      → Local ring g m i (some (e1 x))
      → Ok ring again laws v i e nn (move ring again i e m (e1 x))
  unfolding move
  Good-e1 x h = reads ring again laws v i e nn (some (e2 x m.tail)) h.here v.tail

  pub Good-e2 :
      (x : Item) (crq : Ptr)
      → Local ring g m i (some (e2 x crq))
      → Ok ring again laws v i e nn (move ring again i e m (e2 x crq))
  unfolding move
  Good-e2 x crq h =
      rw (deref-stored ring m crq _ h.place.stored)
        (elim (Bool-cases (h.place.entry.next_ring == null)) [
          | inl z ↦ rw z (
              enters_ring ring again laws v i e nn crq (enqueue x) (some (e2 x crq))
                (some (e5 x crq _)) h.here (λ a. refl) (λ a. refl) h.place
                (λ g' keep own. keep crq h.place))
          | inr nz ↦ rw nz (
              reads ring again laws v i e nn (some (e3 x crq)) h.here (record {
                entry = h.place.entry;
                stored = h.place.stored;
                free = h.place.free;
                more = ground arith;
              }))
        ])

  pub Good-e3 :
      (x : Item) (crq : Ptr)
      → Local ring g m i (some (e3 x crq))
      → Ok ring again laws v i e nn (move ring again i e m (e3 x crq))
  unfolding move
  Good-e3 x crq h = rw (deref-stored ring m crq _ h.place.stored) (
      reads ring again laws v i e nn (some (e4 x crq h.place.entry.next_ring)) h.here
        (v.linked crq h.place.entry h.place.stored h.place.more))

  pub Good-e4 :
      (x : Item) (crq after : Ptr)
      → Local ring g m i (some (e4 x crq after))
      → Ok ring again laws v i e nn (move ring again i e m (e4 x crq after))
  unfolding move
  Good-e4 x crq after h =
      points_tail ring again laws v i e nn (m.tail == crq) after (some (e1 x)) h.here (λ a. refl)
        h.place (λ m'. tt)

  pub Good-e5 :
      (x : Item) (crq : Ptr) (at : ring.machine.Pc)
      → Local ring g m i (some (e5 x crq at))
      → Ok ring again laws v i e nn (move ring again i e m (e5 x crq at))
  unfolding move
  Good-e5 x crq at h = rw (deref-stored ring m crq _ h.place.stored) (
      Good-inside ring again laws v i crq h.place.entry h.place.stored (Public-mine ring i h.place)
        e nn at (some (e5 x crq at)) h.here (rw (==_self crq) refl) (λ a n. rw (==_ne crq a n) refl)
        (λ c. e5 x crq c) _ (λ c. rw (==_self crq) refl) (λ c a n. rw (==_ne crq a n) refl)
        (λ m' c g' keep own. keep crq h.place)
        λ m' reply land. elim (Bool-cases (ring.is_closed reply)) [
          | inl z ↦ rw z (land (some (e6 x crq)) (λ a. refl) (λ g' keep own. keep crq h.place))
          | inr nz ↦ rw nz (land none (λ a. refl) (λ g' keep own. tt))
        ])

  pub Good-e6 :
      (x : Item) (crq : Ptr)
      → Local ring g m i (some (e6 x crq))
      → m.rings e.fresh ≡ none
      → Ok ring again laws v i e nn (move ring again i e m (e6 x crq))
  unfolding move
  Good-e6 x crq h un =
      let o = enqueue x in
      let rely = Rely-allocated ring v i e.fresh o un in
      record {
        ghost = owning ring v i e.fresh o un;
        inv = Inv-allocated ring v i e.fresh o un;
        rely = rely;
        local = record {
          place = (rely.public crq h.place, Own-allocated ring v i e.fresh o un);
          here =
              at_or_else e.fresh
                (ap (λ z. z.thread i) (update_self g.sys e.fresh _)
                  ∙ update_self (λ _. none) i (some (ring.machine.begin o))
                  ∙ rw (==_self e.fresh) refl)
                λ a n.
                  ap (λ z. z.thread i) (update_ne g.sys e.fresh a _ n)
                  ∙ h.here a
                  ∙ rw (==_ne e.fresh a n) refl;
        };
      }

  pub Good-e7 :
      (x : Item) (crq new : Ptr) (at : ring.machine.Pc)
      → Local ring g m i (some (e7 x crq new at))
      → Ok ring again laws v i e nn (move ring again i e m (e7 x crq new at))
  unfolding move
  Good-e7 x crq new at h =
      let (linked, own) = h.place in
      rw (deref-stored ring m new _ own.stored) (
        Good-inside ring again laws v i new own.entry own.stored (Own-mine ring i own) e nn at
          (some (e7 x crq new at)) h.here (rw (==_self new) refl) (λ a n. rw (==_ne new a n) refl)
          (λ c. e7 x crq new c) _ (λ c. rw (==_self new) refl) (λ c a n. rw (==_ne new a n) refl)
          (λ m' c g' keep mine. (keep crq linked, mine new own))
          λ m' reply land.
            land (some (e8 x crq new)) (λ a. refl)
              (λ g' keep mine. (keep crq linked, mine new own)))

  pub Good-e8 :
      (x : Item) (crq new : Ptr)
      → Local ring g m i (some (e8 x crq new))
      → Ok ring again laws v i e nn (move ring again i e m (e8 x crq new))
  unfolding move
  Good-e8 x crq new h =
      let (linked, own) = h.place in
      let r = linked.entry in
      rw (deref-stored ring m crq _ linked.stored) (elim (Bool-cases (r.next_ring == null)) [
        | inr nz ↦ rw nz (reads ring again laws v i e nn (some (e10 x new)) h.here own)
        | inl z ↦ rw z (record {
          ghost = released ring v i new own;
          inv = Inv-linked ring v i new own crq r linked.stored linked.free (==_eq _ _ z);
          rely = Rely-linked ring v i new own crq r linked.stored linked.free (==_eq _ _ z);
          local = record {
            place = new-Public ring v i new own crq r linked.stored linked.free (==_eq _ _ z);
            here = h.here;
          };
        })
      ])

  pub Good-e9 :
      (crq new : Ptr)
      → Local ring g m i (some (e9 crq new))
      → Ok ring again laws v i e nn (move ring again i e m (e9 crq new))
  unfolding move
  Good-e9 crq new h =
      points_tail ring again laws v i e nn (m.tail == crq) new none h.here (λ a. refl) h.place
        (λ m'. tt)

  pub Good-e10 :
      (x : Item) (new : Ptr)
      → Local ring g m i (some (e10 x new))
      → Ok ring again laws v i e nn (move ring again i e m (e10 x new))
  unfolding move
  Good-e10 x new h =
      let own = h.place in
      rw (deref-stored ring m new _ own.stored) (record {
        ghost = released ring v i new own;
        inv = Inv-deleted ring v i new own (h.here new);
        rely = Rely-deleted ring v i new own (h.here new);
        local = record { place = tt; here = h.here };
      })
