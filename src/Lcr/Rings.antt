-- ===== src/Lcr/Rings.antt =====
-- The rings of `LCRQueue` and the pointers to them.
use concurrent_queue_evaluat.Base.{ℕ, ◌≡◌, ◌≢◌, false, false, some, none, Ptr, null, arith}
use concurrent_queue_evaluat.Machine.{Env, System, Reach, fault}
use concurrent_queue_evaluat.Crq
use concurrent_queue_evaluat.Crq.{Mem, Pc, move}
use concurrent_queue_evaluat.RingList
use concurrent_queue_evaluat.RingList.{Entry}
use concurrent_queue_evaluat.RingList.Knowledge.{MovesOn, RingLaws}
use concurrent_queue_evaluat.RingList.Linked
use concurrent_queue_evaluat.Lcr.{ring, machine, create}

MovesOn-move : (i : ℕ) (e : Env) (m : Mem) (c : Pc) → MovesOn (move i e m c)
unfolding move
MovesOn-move i e m _ = ground arith

laws : RingLaws ring
laws = record { unused = λ m p. tt; moves_on = MovesOn-move }

-- In every reachable state of an LCRQueue, each ring is in a state that a CRQ reaches on its own:
-- whatever holds in all reachable states of a CRQ holds of every ring of the list.
pub lcr_ring-Reach :
    (first : Ptr) {s : System machine} {p : Ptr} {r : Entry ring}
    → Reach machine (create first) s
    → s.mem.rings p ≡ some r
    → (u : System Crq.machine) × Reach Crq.machine Crq.create u × (u.mem ≡ r.state)
lcr_ring-Reach first reached e = Linked.ring-Reach ring false laws first reached e

-- In every reachable state of an LCRQueue, no access of a thread follows a null pointer or a pointer
-- to an address that holds no ring, and no ring is deleted twice.
pub lcr_move-ne-fault :
    (first : Ptr) {s : System machine} {c : RingList.Pc ring} (i : ℕ) (e : Env)
    → Reach machine (create first) s
    → s.thread i ≡ some c
    → e.fresh ≢ null
    → s.mem.rings e.fresh ≡ none
    → RingList.move ring false i e s.mem c ≢ fault
lcr_move-ne-fault first i e reached at_c nn un =
    Linked.move-ne-fault ring false laws first i e reached at_c nn un
