-- ===== src/RingList/Calls.antt =====
-- A thread that calls an operation of a ring, and moves inside it.
use concurrent_queue_evaluat.Base.{
  ℕ, ◌∷◌, ◌≡◌, ◌≢◌, ◌∙◌, refl, ap, sym, Bool, Option, none, some, Ptr, null, update, update_self,
  update_ne,
}
use concurrent_queue_evaluat.Fifo.{Op, Answer, Event}
use concurrent_queue_evaluat.Machine.{
  Env, Outcome, next, done, blocked, fault, System, Step, later, call, access, return,
}
use concurrent_queue_evaluat.Machine.Relies.{Moved, Good}
use concurrent_queue_evaluat.RingList.{RingClass, Entry, Mem, Pc, machine, inside, set_state}
use concurrent_queue_evaluat.RingList.Knowledge.{
  RingLaws, MovesOn, Ghost, Public, Own, Inv, Place, inside_at, view,
}
use concurrent_queue_evaluat.RingList.Moves.{lands, Public-moved, Own-moved}

module _ (ring : RingClass) (again : Bool) (laws : RingLaws ring) {g : Ghost ring} {m : Mem ring}
    (v : Inv ring g m) (i : ℕ) (p : Ptr) (r : Entry ring) (was : m.rings p ≡ some r)
    (mine : (j : ℕ) → g.owner p ≡ some j → j ≡ i) where
  -- What a place must say once the ring at `p` has moved.
  abbrev pub Arrives : Mem ring → Option (Pc ring) → Type 0
  Arrives m' c =
      (g' : Ghost ring)
      → ((a : Ptr) → Public ring g m a → Public ring g' m' a)
      → ((a : Ptr) → Own ring g m i a → Own ring g' m' i a)
      → Place ring g' m' i c

  abbrev pub Lands : Mem ring → Option (Pc ring) → Type 0
  Lands m' c = Moved (machine ring again) (view ring again) g m i m' c

  -- A thread outside the calls of all rings calls one of the ring at `p`.
  pub enters :
      (o : Op) (c c' : Option (Pc ring))
      → ((a : Ptr) → (g.sys a).thread i ≡ inside_at ring a c)
      → ((a : Ptr) → inside_at ring a c ≡ none)
      → inside_at ring p c' ≡ some (ring.machine.begin o)
      → ((a : Ptr) → p ≢ a → inside_at ring a c' ≡ none)
      → Arrives m c'
      → Lands m c'
  enters o c c' here out at_p off place =
      let idle : (g.sys p).thread i ≡ none = here p ∙ out p in
      let u : System ring.machine = record {
        mem = (g.sys p).mem;
        thread = update (g.sys p).thread i (some (ring.machine.begin o));
        history = Event.call i o ∷ (g.sys p).history;
      } in
      let reach = later (v.reach p r was) (call i o idle) in
      let others : (j : ℕ) → i ≢ j → u.thread j ≡ (g.sys p).thread j =
        λ j n. update_ne (g.sys p).thread i j _ n in
      let stays : m.rings p ≡ some (record r { state = u.mem }) =
        was ∙ ap (λ z. some (record r { state = z })) (sym (v.state p r was)) in
      lands ring v i p r was mine u reach others m stays (λ a n. refl) refl refl again c c' here
        (update_self (g.sys p).thread i _ ∙ sym at_p) (λ a n. out a ∙ sym (off a n))
        (place _ (Public-moved ring v i p r was mine u reach others m stays (λ a n. refl) refl refl)
          (Own-moved ring v i p r was mine u reach others m stays (λ a n. refl) refl refl i))

  -- A thread inside a call of the ring at `p` makes an access there.
  module _ (e : Env) (nn : e.fresh ≢ null) (at : ring.machine.Pc) (c : Option (Pc ring))
      (here : (a : Ptr) → (g.sys a).thread i ≡ inside_at ring a c)
      (at_p : inside_at ring p c ≡ some at)
      (off : (a : Ptr) → p ≢ a → inside_at ring a c ≡ none) where
    stands : (g.sys p).thread i ≡ some at
    stands = here p ∙ at_p

    same_move :
        (o : Outcome ring.machine.Mem ring.machine.Pc ring.Reply)
        → ring.machine.move i e r.state at ≡ o
        → ring.machine.move i e (g.sys p).mem at ≡ o
    same_move o eq = ap (λ z. ring.machine.move i e z at) (v.state p r was) ∙ eq

    -- The ring is left in the state of `u`, a step further.
    steps :
        (u : System ring.machine)
        → Step ring.machine (g.sys p) u
        → ((j : ℕ) → i ≢ j → u.thread j ≡ (g.sys p).thread j)
        → (c' : Option (Pc ring)) → u.thread i ≡ inside_at ring p c'
        → ((a : Ptr) → p ≢ a → inside_at ring a c' ≡ none)
        → Arrives (set_state ring m p r u.mem) c'
        → Lands (set_state ring m p r u.mem) c'
    steps u st others c' ends gone place =
        let reach = later (v.reach p r was) st in
        let m' = set_state ring m p r u.mem in
        let at_ring : m'.rings p ≡ some (record r { state = u.mem }) = update_self m.rings p _ in
        let elsewhere : (a : Ptr) → p ≢ a → m'.rings a ≡ m.rings a =
          λ a n. update_ne m.rings p a _ n in
        lands ring v i p r was mine u reach others m' at_ring elsewhere refl refl again c c' here
          ends (λ a n. off a n ∙ sym (gone a n))
          (place _
            (Public-moved ring v i p r was mine u reach others m' at_ring elsewhere refl refl)
            (Own-moved ring v i p r was mine u reach others m' at_ring elsewhere refl refl i))

    pub Good-inside :
        (goes : ring.machine.Pc → Pc ring)
        (ends : Mem ring → ring.Reply → Outcome (Mem ring) (Pc ring) Answer)
        → ((c' : ring.machine.Pc) → inside_at ring p (some (goes c')) ≡ some c')
        → ((c' : ring.machine.Pc) (a : Ptr) → p ≢ a → inside_at ring a (some (goes c')) ≡ none)
        → ((m' : Mem ring) (c' : ring.machine.Pc) → Arrives m' (some (goes c')))
        → ((m' : Mem ring) (reply : ring.Reply)
            → ((c' : Option (Pc ring))
                → ((a : Ptr) → inside_at ring a c' ≡ none)
                → Arrives m' c'
                → Lands m' c')
            → Good (machine ring again) (view ring again) g m i (ends m' reply))
        → Good
            (machine ring again)
            (view ring again)
            g
            m
            i
            (inside ring m p r goes ends (ring.machine.move i e r.state at))
    unfolding inside
    Good-inside goes ends inner outer place finish =
        go (ring.machine.move i e r.state at) refl (laws.moves_on i e r.state at)
      where
        go :
            (o : Outcome ring.machine.Mem ring.machine.Pc ring.Reply)
            → ring.machine.move i e r.state at ≡ o
            → MovesOn o
            → Good (machine ring again) (view ring again) g m i (inside ring m p r goes ends o)
        go (next st c1) eq on =
            steps _ (access i e stands nn (laws.unused _ _) (same_move _ eq))
              (λ j n. update_ne (g.sys p).thread i j _ n) (some (goes c1))
              (update_self (g.sys p).thread i _ ∙ sym (inner c1)) (outer c1) (place _ c1)
        go (done st reply) eq on = finish _ reply λ c' none_in arrives.
            steps _ (return i e stands nn (laws.unused _ _) (same_move _ eq))
              (λ j n. update_ne (g.sys p).thread i j _ n) c'
              (update_self (g.sys p).thread i _ ∙ sym (none_in p)) (λ a n. none_in a) arrives
        go blocked eq on = absurd on
        go fault eq on = absurd on
