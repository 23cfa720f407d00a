-- ===== src/RingList/Dequeue.antt =====
-- `dequeue` of a list of rings, access by access.
use concurrent_queue_evaluat.Base.{
  ℕ, ◌≡◌, ◌≢◌, refl, Bool, Bool-cases, inl, inr, Option, none, some, Ptr, null, ◌==◌, arith,
  ==_self, ==_ne,
}
use concurrent_queue_evaluat.Fifo.{Item, dequeue}
use concurrent_queue_evaluat.Machine.{Env}
use concurrent_queue_evaluat.RingList.{RingClass, Mem, Pc, found, move, d1, d2, d3, d4, d5}
use concurrent_queue_evaluat.RingList.Knowledge.{RingLaws, Ghost, Public, Inv, Local, inside_at}
use concurrent_queue_evaluat.RingList.Calls.{Good-inside, Arrives}
use concurrent_queue_evaluat.RingList.Accesses.{
  deref-stored, Public-mine, Ok, To, reads, enters_ring, points_head,
}

module _ (ring : RingClass) (again : Bool) (laws : RingLaws ring) {g : Ghost ring} {m : Mem ring}
    (v : Inv ring g m) (i : ℕ) (e : Env) (nn : e.fresh ≢ null) where
  pub Good-d1 : Local ring g m i (some d1) → Ok ring again laws v i e nn (move ring again i e m d1)
  unfolding move
  Good-d1 h =
      enters_ring ring again laws v i e nn m.head dequeue (some d1) (some (d2 m.head _)) h.here
        (λ a. refl) (λ a. refl) v.head (λ g' keep own. keep m.head v.head)

  -- The value that a ring returns: an item, or EMPTY, after which the call goes on at `empty`.
  found_lands :
      {crq : Ptr} (k : Public ring g m crq) (m' : Mem ring) (value : Item) (empty : Pc ring)
      → ((a : Ptr) → inside_at ring a (some empty) ≡ none)
      → ((c' : Option (Pc ring))
          → ((a : Ptr) → inside_at ring a c' ≡ none)
          → Arrives ring again laws v i crq k.entry k.stored (Public-mine ring i k) m' c'
          → To ring again laws v i e nn m' c')
      → Arrives ring again laws v i crq k.entry k.stored (Public-mine ring i k) m' (some empty)
      → Arrives ring again laws v i crq k.entry k.stored (Public-mine ring i k) m' none
      → Ok ring again laws v i e nn (found ring value empty m')
  unfolding found
  found_lands k m' value empty gone land p q = elim (Bool-cases (value == 0)) [
    | inl z ↦ rw z (land (some empty) gone p)
    | inr nz ↦ rw nz (land none (λ a. refl) q)
  ]

  pub Good-d2 :
      (crq : Ptr) (at : ring.machine.Pc)
      → Local ring g m i (some (d2 crq at))
      → Ok ring again laws v i e nn (move ring again i e m (d2 crq at))
  unfolding move
  Good-d2 crq at h = rw (deref-stored ring m crq _ h.place.stored) (
      Good-inside ring again laws v i crq h.place.entry h.place.stored (Public-mine ring i h.place)
        e nn at (some (d2 crq at)) h.here (rw (==_self crq) refl) (λ a n. rw (==_ne crq a n) refl)
        (λ c. d2 crq c) _ (λ c. rw (==_self crq) refl) (λ c a n. rw (==_ne crq a n) refl)
        (λ m' c g' keep own. keep crq h.place)
        λ m' reply land.
          found_lands h.place m' (ring.value reply) (d3 crq) (λ a. refl) land
            (λ g' keep own. keep crq h.place) (λ g' keep own. tt))

  pub Good-d3 :
      (crq : Ptr)
      → Local ring g m i (some (d3 crq))
      → Ok ring again laws v i e nn (move ring again i e m (d3 crq))
  unfolding move
  Good-d3 crq h =
      let r = h.place.entry in
      rw (deref-stored ring m crq _ h.place.stored) (elim (Bool-cases (r.next_ring == null)) [
        | inl z ↦ rw z (reads ring again laws v i e nn none h.here tt)
        | inr nz ↦
            let after = v.linked crq r h.place.stored (ground arith) in
            rw nz (elim (Bool-cases again) [
              | inl once_more ↦ rw once_more (
                  enters_ring ring again laws v i e nn crq dequeue (some (d3 crq))
                    (some (d4 crq r.next_ring _)) h.here (λ a. refl) (λ a. refl) h.place
                    (λ g' keep own. (keep crq h.place, keep r.next_ring after)))
              | inr not ↦
                  rw not (reads ring again laws v i e nn (some (d5 crq r.next_ring)) h.here after)
            ])
      ])

  pub Good-d4 :
      (crq after : Ptr) (at : ring.machine.Pc)
      → Local ring g m i (some (d4 crq after at))
      → Ok ring again laws v i e nn (move ring again i e m (d4 crq after at))
  unfolding move
  Good-d4 crq after at h =
      let (linked, next_one) = h.place in
      rw (deref-stored ring m crq _ linked.stored) (
        Good-inside ring again laws v i crq linked.entry linked.stored (Public-mine ring i linked) e
          nn at (some (d4 crq after at)) h.here (rw (==_self crq) refl)
          (λ a n. rw (==_ne crq a n) refl) (λ c. d4 crq after c) _ (λ c. rw (==_self crq) refl)
          (λ c a n. rw (==_ne crq a n) refl)
          (λ m' c g' keep own. (keep crq linked, keep after next_one))
          λ m' reply land.
            found_lands linked m' (ring.value reply) (d5 crq after) (λ a. refl) land
              (λ g' keep own. keep after next_one) (λ g' keep own. tt))

  pub Good-d5 :
      (crq after : Ptr)
      → Local ring g m i (some (d5 crq after))
      → Ok ring again laws v i e nn (move ring again i e m (d5 crq after))
  unfolding move
  Good-d5 crq after h =
      points_head ring again laws v i e nn (m.head == crq) after (some d1) h.here (λ a. refl)
        h.place (λ m'. tt)
