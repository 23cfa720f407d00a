-- ===== src/Crq.antt =====
-- `class CRQ` of include/lcr_queue.hpp: a closable ring of cells. Each access to memory that threads
-- share is one step; `CAS2` compares and sets both words of a cell at once.
pub mod Conserved
pub mod Residue
pub mod Closed
mod Tests
use concurrent_queue_evaluat.Base.{
  ℕ, ◌+◌, ◌%◌, ◌^◌, Bool, true, false, ◌&&◌, ◌||◌, Ptr, ◌==◌, leb, ltb, if◌then◌else◌, update,
}
use concurrent_queue_evaluat.Fifo.{Item, Op, enqueue, dequeue}
use concurrent_queue_evaluat.Machine.{Outcome, next, done, Env, Machine}
use concurrent_queue_evaluat.Word.{add64, sub64, flag, number, join}

abbrev pub ring_size : ℕ  -- R
ring_size = 2 ^ 10

abbrev pub starving_threshold : ℕ
starving_threshold = ring_size

-- `struct Node`
pub record Cell : Type 0 where
  pub safe_and_idx : ℕ
  pub val : Item

unfoldable pub decode_node_safe : ℕ → Bool
decode_node_safe w = flag w

unfoldable pub decode_node_idx : ℕ → ℕ
decode_node_idx w = number w

unfoldable pub encode_node_safe_idx : Bool → ℕ → ℕ
encode_node_safe_idx safe idx = join safe idx

unfoldable pub decode_tail_closed : ℕ → Bool
decode_tail_closed w = flag w

unfoldable pub decode_tail_t : ℕ → ℕ
decode_tail_t w = number w

-- The fields that `enqueue` and `dequeue` use: `_head`, `_tail` and `_array`.
pub record Mem : Type 0 where
  pub head : ℕ
  pub tail : ℕ
  pub array : ℕ → Cell

abbrev pub cell : ℕ → Item → Cell
cell w v = record { safe_and_idx = w; val = v }

-- The comparison of `CAS2`, and its write.
unfoldable pub same_cell : Cell → Cell → Bool
same_cell a b = a.safe_and_idx == b.safe_and_idx && a.val == b.val

abbrev pub set_cell : Mem → ℕ → Cell → Mem
set_cell m i c = record m { array = update m.array i c }

-- `fetch_or(CLOSED_BIT)`
unfoldable pub close : ℕ → ℕ
close w = join true (number w)

-- What the calls return, with the argument of the call: OK or CLOSED, and the value or EMPTY.
pub data Reply : Type 0 where
  ok : Item → Reply
  closed : Item → Reply
  returned : Item → Reply

-- The places in `enqueue` (p), `dequeue` (q) and `fixState` (f), each at an access, with the locals
-- that are live there; `enc` is the word that `safe` and `idx` are decoded from.
pub data Pc : Type 0 where
  p1 : (arg : Item) (iteration : ℕ) → Pc  -- `_tail.fetch_add(1)`
  p2 : (arg : Item) (iteration t : ℕ) → Pc  -- load of `node->val`
  p3 : (arg : Item) (iteration t : ℕ) (val : Item) → Pc  -- load of `node->safe_and_idx`
  p4 : (arg : Item) (iteration t enc : ℕ) → Pc  -- `_head <= t`
  p5 : (arg : Item) (iteration t enc : ℕ) → Pc  -- `CAS2`
  p6 : (arg : Item) (iteration t : ℕ) → Pc  -- `h = _head`
  p7 : (arg : Item) → Pc  -- `_tail.fetch_or(CLOSED_BIT)`
  q1 : Pc  -- `_head.fetch_add(1)`
  q2 : (h : ℕ) → Pc  -- load of `node->val`
  q3 : (h : ℕ) (val : Item) → Pc  -- load of `node->safe_and_idx`
  q4 : (h : ℕ) (val : Item) (enc : ℕ) → Pc  -- `CAS2` that takes the value
  q5 : (h : ℕ) (val : Item) (enc : ℕ) → Pc  -- `CAS2` that makes the cell unsafe
  q6 : (h enc : ℕ) → Pc  -- `CAS2` that passes an empty cell on
  q7 : (h : ℕ) → Pc  -- `decode_tail_t(_tail)`
  f1 : Pc  -- `_head.fetch_add(0)`
  f2 : (h : ℕ) → Pc  -- `_tail.fetch_add(0)`
  f3 : (h t : ℕ) → Pc  -- `_tail != t`
  f4 : (h t : ℕ) → Pc  -- `_tail.compare_exchange_strong(t, h)`

unfoldable pub begin : Op → Pc
begin (enqueue x) = p1 x 0
begin dequeue = q1

-- `encode_node_safe_idx(safe, idx)` of the decoded word
unfoldable pub recode : ℕ → ℕ
recode enc = encode_node_safe_idx (decode_node_safe enc) (decode_node_idx enc)

-- `t - h >= R || iteration++ > STARVING_THRESHOLD`
unfoldable pub gives_up : ℕ → ℕ → ℕ → Bool
gives_up t h iteration = leb ring_size (sub64 t h) || ltb starving_threshold iteration

unfoldable pub move : ℕ → Env → Mem → Pc → Outcome Mem Pc Reply
move self e m (p1 arg it) =
    if decode_tail_closed m.tail
    then done (record m { tail = add64 m.tail 1 }) (closed arg)
    else next (record m { tail = add64 m.tail 1 }) (p2 arg it (decode_tail_t m.tail))
move self e m (p2 arg it t) = next m (p3 arg it t (m.array (t % ring_size)).val)
move self e m (p3 arg it t val) =
    let enc = (m.array (t % ring_size)).safe_and_idx in
    if val == 0 && leb (decode_node_idx enc) t
    then (if decode_node_safe enc then next m (p5 arg it t enc) else next m (p4 arg it t enc))
    else next m (p6 arg it t)
move self e m (p4 arg it t enc) =
    if leb m.head t then next m (p5 arg it t enc) else next m (p6 arg it t)
move self e m (p5 arg it t enc) =
    if same_cell (m.array (t % ring_size)) (cell (recode enc) 0)
    then done (set_cell m (t % ring_size) (cell (encode_node_safe_idx true t) arg)) (ok arg)
    else next m (p6 arg it t)
move self e m (p6 arg it t) =
    if gives_up t m.head it then next m (p7 arg) else next m (p1 arg (it + 1))
move self e m (p7 arg) = done (record m { tail = close m.tail }) (closed arg)
move self e m q1 = next (record m { head = add64 m.head 1 }) (q2 m.head)
move self e m (q2 h) = next m (q3 h (m.array (h % ring_size)).val)
move self e m (q3 h val) =
    let enc = (m.array (h % ring_size)).safe_and_idx in
    if ltb h (decode_node_idx enc)
    then next m (q7 h)
    else (if val == 0
        then next m (q6 h enc)
        else (if decode_node_idx enc == h then next m (q4 h val enc) else next m (q5 h val enc)))
move self e m (q4 h val enc) =
    if same_cell (m.array (h % ring_size))
      (cell (encode_node_safe_idx (decode_node_safe enc) h) val)
    then done
        (set_cell m (h % ring_size)
          (cell (encode_node_safe_idx (decode_node_safe enc) (add64 h ring_size)) 0))
        (returned val)
    else next m (q2 h)
move self e m (q5 h val enc) =
    if same_cell (m.array (h % ring_size)) (cell (recode enc) val)
    then next
        (set_cell m (h % ring_size) (cell (encode_node_safe_idx false (decode_node_idx enc)) val))
        (q7 h)
    else next m (q2 h)
move self e m (q6 h enc) =
    if same_cell (m.array (h % ring_size)) (cell (recode enc) 0)
    then next
        (set_cell m (h % ring_size)
          (cell (encode_node_safe_idx (decode_node_safe enc) (add64 h ring_size)) 0))
        (q7 h)
    else next m (q2 h)
move self e m (q7 h) = if leb (decode_tail_t m.tail) (add64 h 1) then next m f1 else next m q1
move self e m f1 = next m (f2 m.head)
move self e m (f2 h) = next m (f3 h m.tail)
move self e m (f3 h t) =
    if m.tail == t then (if leb h t then done m (returned 0) else next m (f4 h t)) else next m f1
move self e m (f4 h t) =
    if m.tail == t then done (record m { tail = h }) (returned 0) else next m f1

abbrev pub machine : Machine Op Reply
machine = record { Mem = Mem; Pc = Pc; begin = begin; Unused = λ m p. Unit {0}; move = move }

-- The constructor.
abbrev pub create : Mem
create = record { head = 0; tail = 0; array = λ i. cell (encode_node_safe_idx true i) 0 }
