-- ===== src/Lpr/Rings.antt =====
-- The rings of `LPRQueue` and the pointers to them.
use concurrent_queue_evaluat.Base.{ℕ, ◌≡◌, ◌≢◌, true, some, none, Ptr, null, arith}
use concurrent_queue_evaluat.Machine.{Env, System, Reach, fault}
use concurrent_queue_evaluat.Prq
use concurrent_queue_evaluat.Prq.{Mem, Pc, move, dispatch}
use concurrent_queue_evaluat.RingList
use concurrent_queue_evaluat.RingList.{Entry}
use concurrent_queue_evaluat.RingList.Knowledge.{MovesOn, RingLaws}
use concurrent_queue_evaluat.RingList.Linked
use concurrent_queue_evaluat.Lpr.{ring, machine, create}

MovesOn-move :
    (address : ℕ → Ptr) (i : ℕ) (e : Env) (m : Mem) (c : Pc) → MovesOn (move address i e m c)
unfolding move dispatch
MovesOn-move address i e m _ = ground arith

laws : (address : ℕ → Ptr) → RingLaws (ring address)
laws address = record { unused = λ m p. tt; moves_on = MovesOn-move address }

-- In every reachable state of an LPRQueue, each ring is in a state that a PRQ reaches on its own:
-- whatever holds in all reachable states of a PRQ holds of every ring of the list.
pub lpr_ring-Reach :
    (address : ℕ → Ptr) (first : Ptr) {s : System (machine address)} {p : Ptr}
    {r : Entry (ring address)}
    → Reach (machine address) (create address first) s
    → s.mem.rings p ≡ some r
    → (u : System (Prq.machine address)) × Reach (Prq.machine address) Prq.create u
      × (u.mem ≡ r.state)
lpr_ring-Reach address first reached e =
    Linked.ring-Reach (ring address) true (laws address) first reached e

-- In every reachable state of an LPRQueue, no access of a thread follows a null pointer or a pointer
-- to an address that holds no ring, and no ring is deleted twice.
pub lpr_move-ne-fault :
    (address : ℕ → Ptr) (first : Ptr) {s : System (machine address)}
    {c : RingList.Pc (ring address)} (i : ℕ) (e : Env)
    → Reach (machine address) (create address first) s
    → s.thread i ≡ some c
    → e.fresh ≢ null
    → s.mem.rings e.fresh ≡ none
    → RingList.move (ring address) true i e s.mem c ≢ fault
lpr_move-ne-fault address first i e reached at_c nn un =
    Linked.move-ne-fault (ring address) true (laws address) first i e reached at_c nn un
