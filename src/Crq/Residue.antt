-- ===== src/Crq/Residue.antt =====
-- The residues of the indices in the cells of a ring.
use concurrent_queue_evaluat.Base.{ℕ, ◌%◌, ◌^◌, ◌<◌, ◌≡◌, subst, Bool, true, false, arith}
use concurrent_queue_evaluat.Machine.{
  Outcome, next, done, blocked, fault, Env, System, call, access, return, Reach, start, later,
}
use concurrent_queue_evaluat.Word.{add64, number-join}
use concurrent_queue_evaluat.Crq.{
  ring_size, Cell, decode_node_safe, decode_node_idx, encode_node_safe_idx, same_cell, recode, Mem,
  Reply, Pc, move, machine, create, p5, q4, q5, q6,
}

decode-encode : (s : Bool) (n : ℕ) → decode_node_idx (encode_node_safe_idx s n) ≡ n % 2 ^ 63
unfolding decode_node_idx encode_node_safe_idx
decode-encode s n = number-join s n

decode-encode_residue :
    (s : Bool) (n : ℕ) → decode_node_idx (encode_node_safe_idx s n) % ring_size ≡ n % ring_size
decode-encode_residue s n = omega (arith, decode-encode s n)

add64_residue : (h : ℕ) → add64 h ring_size % ring_size ≡ h % ring_size
unfolding add64
add64_residue h = omega arith

recode-idx : (enc : ℕ) → decode_node_idx (recode enc) % ring_size ≡ decode_node_idx enc % ring_size
unfolding recode
recode-idx enc = decode-encode_residue (decode_node_safe enc) (decode_node_idx enc)

same_cell-word : (a b : Cell) → same_cell a b ≡ true → a.safe_and_idx ≡ b.safe_and_idx
unfolding same_cell
same_cell-word a b h = ground arith

abbrev residue : ℕ → Mem → ℕ
residue i m = decode_node_idx (m.array i).safe_and_idx % ring_size

abbrev Stays : ℕ → Outcome Mem Pc Reply → Type 0
Stays i (next m c) = residue i m ≡ i
Stays i (done m r) = residue i m ≡ i
Stays i blocked = Unit
Stays i fault = Unit

module _ (i : ℕ) (self : ℕ) (e : Env) (m : Mem) (here : residue i m ≡ i) where
  Stays-move : (c : Pc) → Stays i (move self e m c)
  unfolding move
  Stays-move (p5 arg it t enc) = ground (arith, decode-encode_residue true t)
  Stays-move (q4 h v enc) =
      ground
        (arith, add64_residue h, decode-encode_residue (decode_node_safe enc) (add64 h ring_size))
  Stays-move (q5 h v enc) = ground (
    arith,
    decode-encode_residue false (decode_node_idx enc),
    recode-idx enc,
    same_cell-word (m.array i) (record { safe_and_idx = recode enc; val = v }),
  )
  Stays-move (q6 h enc) =
      ground
        (arith, add64_residue h, decode-encode_residue (decode_node_safe enc) (add64 h ring_size))
  Stays-move _ = ground arith

-- In every reachable state of a CRQ, the index of cell `i` is `i` modulo the size of the ring.
pub crq_residue :
    (i : ℕ) {s : System machine}
    → i < ring_size
    → Reach machine create s
    → decode_node_idx (s.mem.array i).safe_and_idx % ring_size ≡ i
crq_residue i lt start = omega (arith, decode-encode_residue true i)
crq_residue i lt (later r (call j o h)) = crq_residue i lt r
crq_residue i lt (later {s} r (access j e {c} h fresh un eq)) =
    subst (Stays i) eq (Stays-move i j e s.mem (crq_residue i lt r) c)
crq_residue i lt (later {s} r (return j e {c} h fresh un eq)) =
    subst (Stays i) eq (Stays-move i j e s.mem (crq_residue i lt r) c)
