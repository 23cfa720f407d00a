-- ===== src/Crq/Conserved.antt =====
-- The items of a ring, counted in its cells and in the returns of its calls.
use concurrent_queue_evaluat.Base.{
  ℕ, zero, suc, ◌+◌, ◌%◌, ◌<◌, ◌≤◌, ◌≡◌, ◌≢◌, refl, subst, Bool, true, false, List, [], ◌∷◌, ◌==◌,
  if◌then◌else◌, update, arith, dec_lt,
}
use concurrent_queue_evaluat.Fifo.{Item, Op, Event}
use concurrent_queue_evaluat.Machine.{
  Outcome, next, done, blocked, fault, Env, System, call, access, return, Reach, start, later,
}
use concurrent_queue_evaluat.Word.{add64}
use concurrent_queue_evaluat.Crq.{
  ring_size, Cell, cell, decode_node_safe, decode_node_idx, encode_node_safe_idx, same_cell,
  set_cell, recode, Mem, Reply, ok, closed, returned, Pc, move, machine, create, p5, q4, q5, q6,
}

abbrev one_if : Bool → ℕ
one_if b = if b then 1 else 0

-- How often `x` stands in the first `n` cells.
pub held : Item → ℕ → (ℕ → Cell) → ℕ
held x zero a = 0
held x (suc n) a = held x n a + one_if ((a n).val == x)

held-update_above :
    (x : Item) (n : ℕ) (a : ℕ → Cell) (i : ℕ) (c : Cell)
    → n ≤ i
    → held x n (update a i c) ≡ held x n a
unfolding held
held-update_above x zero a i c h = refl
held-update_above x (suc n) a i c h = ground (arith, held-update_above x n a i c)

held-update :
    (x : Item) (n : ℕ) (a : ℕ → Cell) (i : ℕ) (c : Cell)
    → i < n
    → held x n (update a i c) + one_if ((a i).val == x) ≡ held x n a + one_if (c.val == x)
unfolding held
held-update x zero a i c h = absurd (omega arith)
held-update x (suc n) a i c h = elim (dec_lt i n) [
  | yes below ↦ ground (arith, held-update x n a i c below)
  | no last ↦ ground (arith, held-update_above x n a i c)
]

-- What a reply takes from the ring, and what it puts in.
pub puts : Item → Reply → ℕ
puts x (ok y) = one_if (y == x)
puts x (closed y) = 0
puts x (returned y) = 0

pub takes : Item → Reply → ℕ
takes x (ok y) = 0
takes x (closed y) = 0
takes x (returned y) = one_if (y == x)

-- The same over the returns of a history.
pub put_in : Item → List (Event Op Reply) → ℕ
put_in x [] = 0
put_in x (Event.call i o ∷ es) = put_in x es
put_in x (Event.return i r ∷ es) = put_in x es + puts x r

pub taken_out : Item → List (Event Op Reply) → ℕ
taken_out x [] = 0
taken_out x (Event.call i o ∷ es) = taken_out x es
taken_out x (Event.return i r ∷ es) = taken_out x es + takes x r

abbrev pub in_ring : Item → Mem → ℕ
in_ring x m = held x ring_size m.array

-- An outcome accounts for the item `x`: the ring holds it as often as before, but for what a reply
-- puts in and takes.
abbrev Flow : Item → Mem → Outcome Mem Pc Reply → Type 0
Flow x m (next m' c) = in_ring x m' ≡ in_ring x m
Flow x m (done m' r) = in_ring x m' + takes x r ≡ in_ring x m + puts x r
Flow x m blocked = Unit
Flow x m fault = Unit

-- A write to a cell of the ring.
set_cell_lem :
    (x : Item) (m : Mem) (t : ℕ) (c : Cell)
    → in_ring x (set_cell m (t % ring_size) c) + one_if ((m.array (t % ring_size)).val == x)
      ≡ in_ring x m + one_if (c.val == x)
set_cell_lem x m t c = held-update x ring_size m.array (t % ring_size) c (omega arith)

same_cell-val : (a b : Cell) → same_cell a b ≡ true → a.val ≡ b.val
unfolding same_cell
same_cell-val a b h = ground arith

module _ (x : Item) (nz : x ≢ 0) (self : ℕ) (e : Env) (m : Mem) where
  -- A successful `CAS2` of `to` for `from` in cell `t % R`.
  swapped :
      (t : ℕ) (from to : Cell)
      → same_cell (m.array (t % ring_size)) from ≡ true
      → in_ring x (set_cell m (t % ring_size) to) + one_if (from.val == x)
        ≡ in_ring x m + one_if (to.val == x)
  swapped t from to h =
      subst
        (λ v.
          in_ring x (set_cell m (t % ring_size) to) + one_if (v == x)
          ≡ in_ring x m + one_if (to.val == x))
        (same_cell-val _ _ h) (set_cell_lem x m t to)

  Flow-move : (c : Pc) → Flow x m (move self e m c)
  unfolding move puts takes
  Flow-move (p5 arg it t enc) =
      ground (arith, swapped t (cell (recode enc) 0) (cell (encode_node_safe_idx true t) arg))
  Flow-move (q4 h v enc) =
      let safe = decode_node_safe enc in
      ground (
        arith,
        swapped h (cell (encode_node_safe_idx safe h) v)
            (cell (encode_node_safe_idx safe (add64 h ring_size)) 0),
      )
  Flow-move (q5 h v enc) = ground (
    arith,
    swapped h (cell (recode enc) v) (cell (encode_node_safe_idx false (decode_node_idx enc)) v),
  )
  Flow-move (q6 h enc) = ground (
    arith,
    swapped h (cell (recode enc) 0)
        (cell (encode_node_safe_idx (decode_node_safe enc) (add64 h ring_size)) 0),
  )
  Flow-move _ = ground arith

held-empty : (x : Item) (n : ℕ) (w : ℕ → ℕ) → x ≢ 0 → held x n (λ i. cell (w i) 0) ≡ 0
unfolding held
held-empty x zero w nz = refl
held-empty x (suc n) w nz = ground (arith, held-empty x n w nz)

-- In every reachable state of a CRQ and for every item but EMPTY, the calls of `enqueue` with that
-- item that have returned OK are as many as the calls of `dequeue` that have returned it and the
-- cells that hold it together.
pub crq_conserves :
    (x : Item) {s : System machine}
    → x ≢ 0
    → Reach machine create s
    → put_in x s.history ≡ taken_out x s.history + held x ring_size s.mem.array
unfolding put_in taken_out
crq_conserves x nz start = omega (arith, held-empty x ring_size (encode_node_safe_idx true) nz)
crq_conserves x nz (later r (call i o h)) = crq_conserves x nz r
crq_conserves x nz (later {s} r (access i e {c} h fresh un eq)) =
    let same = subst (Flow x s.mem) eq (Flow-move x nz i e s.mem c) in
    omega (arith, same, crq_conserves x nz r)
crq_conserves x nz (later {s} r (return i e {c} h fresh un eq)) =
    let flow = subst (Flow x s.mem) eq (Flow-move x nz i e s.mem c) in
    omega (arith, flow, crq_conserves x nz r)
