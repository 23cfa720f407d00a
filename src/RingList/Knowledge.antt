-- ===== src/RingList/Knowledge.antt =====
-- What a thread knows at each place of the code of a list of rings: which rings are linked, which it
-- alone can reach, and where it stands inside the calls of each ring.
use concurrent_queue_evaluat.Base.{
  ℕ, ◌≡◌, ◌≢◌, ◌∙◌, Bool, Option, none, some, Ptr, null, ◌==◌, if◌then◌else◌,
}
use concurrent_queue_evaluat.Machine.{Outcome, next, done, blocked, fault, Env, System, Reach}
use concurrent_queue_evaluat.Machine.Relies.{View}
use concurrent_queue_evaluat.RingList.{
  RingClass, Entry, Mem, Pc, machine, e1, e2, e3, e4, e5, e6, e7, e8, e9, e10, d1, d2, d3, d4, d5,
}

abbrev pub MovesOn : {M P R : Type 0} → Outcome M P R → Type 0
MovesOn (next m c) = Unit
MovesOn (done m r) = Unit
MovesOn blocked = ⊥
MovesOn fault = ⊥

-- What the proofs use of a ring class: its constructor alone allocates, and no access waits or
-- follows a bad pointer.
pub record RingLaws (ring : RingClass) : Type 0 where
  pub unused : (m : ring.machine.Mem) (p : Ptr) → ring.machine.Unused m p
  pub moves_on :
      (i : ℕ) (e : Env) (m : ring.machine.Mem) (c : ring.machine.Pc)
      → MovesOn (ring.machine.move i e m c)

module _ (ring : RingClass) where
  -- The thread that alone can reach a ring, and each ring as a run of its own machine.
  pub record Ghost : Type 0 where
    pub owner : Ptr → Option ℕ
    pub sys : Ptr → System ring.machine

  -- A ring of the list, one with a successor, and one that only thread `i` can reach.
  pub record Public (g : Ghost) (m : Mem ring) (p : Ptr) : Type 0 where
    pub entry : Entry ring
    pub stored : m.rings p ≡ some entry
    pub free : g.owner p ≡ none

  pub record Followed (g : Ghost) (m : Mem ring) (p : Ptr) : Type 0 where
    pub entry : Entry ring
    pub stored : m.rings p ≡ some entry
    pub free : g.owner p ≡ none
    pub more : entry.next_ring ≢ null

  pub record Own (g : Ghost) (m : Mem ring) (i : ℕ) (p : Ptr) : Type 0 where
    pub entry : Entry ring
    pub stored : m.rings p ≡ some entry
    pub mine : g.owner p ≡ some i

  pub record Inv (g : Ghost) (m : Mem ring) : Type 0 where
    pub head : Public g m m.head
    pub tail : Public g m m.tail
    pub linked :
        (p : Ptr) (r : Entry ring)
        → m.rings p ≡ some r
        → r.next_ring ≢ null
        → Public g m r.next_ring
    pub unused : (p : Ptr) → m.rings p ≡ none → g.owner p ≡ none
    pub deserted : (p : Ptr) → m.rings p ≡ none → (j : ℕ) → (g.sys p).thread j ≡ none
    pub private :
        (p : Ptr) (i : ℕ) → g.owner p ≡ some i → (j : ℕ) → i ≢ j → (g.sys p).thread j ≡ none
    pub reach :
        (p : Ptr) (r : Entry ring) → m.rings p ≡ some r → Reach ring.machine ring.create (g.sys p)
    pub state : (p : Ptr) (r : Entry ring) → m.rings p ≡ some r → (g.sys p).mem ≡ r.state

  -- The place of a thread inside the calls of the ring at `p`.
  abbrev pub inside_at : Ptr → Option (Pc ring) → Option ring.machine.Pc
  inside_at p (some (e5 x crq c)) = if crq == p then some c else none
  inside_at p (some (e7 x crq new c)) = if new == p then some c else none
  inside_at p (some (d2 crq c)) = if crq == p then some c else none
  inside_at p (some (d4 crq after c)) = if crq == p then some c else none
  inside_at p _ = none

  abbrev pub Place : Ghost → Mem ring → ℕ → Option (Pc ring) → Type 0
  Place g m i (some (e2 x crq)) = Public g m crq
  Place g m i (some (e3 x crq)) = Followed g m crq
  Place g m i (some (e4 x crq after)) = Public g m after
  Place g m i (some (e5 x crq c)) = Public g m crq
  Place g m i (some (e6 x crq)) = Public g m crq
  Place g m i (some (e7 x crq new c)) = Public g m crq × Own g m i new
  Place g m i (some (e8 x crq new)) = Public g m crq × Own g m i new
  Place g m i (some (e9 crq new)) = Public g m new
  Place g m i (some (e10 x new)) = Own g m i new
  Place g m i (some (d2 crq c)) = Public g m crq
  Place g m i (some (d3 crq)) = Public g m crq
  Place g m i (some (d4 crq after c)) = Public g m crq × Public g m after
  Place g m i (some (d5 crq after)) = Public g m after
  Place g m i _ = Unit

  pub record Local (g : Ghost) (m : Mem ring) (i : ℕ) (c : Option (Pc ring)) : Type 0 where
    pub place : Place g m i c
    pub here : (p : Ptr) → (g.sys p).thread i ≡ inside_at p c

  pub record Rely (i : ℕ) (g : Ghost) (m : Mem ring) (g' : Ghost) (m' : Mem ring) : Type 0 where
    pub public : (p : Ptr) → Public g m p → Public g' m' p
    pub followed : (p : Ptr) → Followed g m p → Followed g' m' p
    pub own : (j : ℕ) (p : Ptr) → i ≢ j → Own g m j p → Own g' m' j p
    pub others : (p : Ptr) (j : ℕ) → i ≢ j → (g'.sys p).thread j ≡ (g.sys p).thread j

  abbrev pub view : (again : Bool) → View (machine ring again)
  view again = record { Ghost = Ghost; Inv = Inv; Local = Local; Rely = Rely; Fault = ⊥ }

  module _ {g g' : Ghost} {m m' : Mem ring} {i j : ℕ} (ne : i ≢ j) (r : Rely i g m g' m') where
    Place-stable : (c : Option (Pc ring)) → Place g m j c → Place g' m' j c
    Place-stable none h = tt
    Place-stable (some (e1 x)) h = tt
    Place-stable (some (e2 x crq)) h = r.public crq h
    Place-stable (some (e3 x crq)) h = r.followed crq h
    Place-stable (some (e4 x crq after)) h = r.public after h
    Place-stable (some (e5 x crq c)) h = r.public crq h
    Place-stable (some (e6 x crq)) h = r.public crq h
    Place-stable (some (e7 x crq new c)) (h, o) = (r.public crq h, r.own j new ne o)
    Place-stable (some (e8 x crq new)) (h, o) = (r.public crq h, r.own j new ne o)
    Place-stable (some (e9 crq new)) h = r.public new h
    Place-stable (some (e10 x new)) o = r.own j new ne o
    Place-stable (some d1) h = tt
    Place-stable (some (d2 crq c)) h = r.public crq h
    Place-stable (some (d3 crq)) h = r.public crq h
    Place-stable (some (d4 crq after c)) (h, k) = (r.public crq h, r.public after k)
    Place-stable (some (d5 crq after)) h = r.public after h

    pub Local-stable : (c : Option (Pc ring)) → Local g m j c → Local g' m' j c
    Local-stable c h = record {
      place = Place-stable c h.place;
      here = λ p. r.others p j ne ∙ h.here p;
    }
