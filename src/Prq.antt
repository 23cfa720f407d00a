-- ===== src/Prq.antt =====
-- `class PRQ` of include/lpr_queue.hpp: a closable ring of cells whose two words are read and changed
-- one at a time. Each access to memory that threads share is one step.
pub mod Fits
pub mod Closed
pub mod Epochs
mod Tests
use concurrent_queue_evaluat.Base.{
  ℕ, ◌+◌, ◌/◌, ◌%◌, ◌^◌, Bool, true, false, ◌&&◌, ◌||◌, Ptr, ◌==◌, leb, ltb, if◌then◌else◌, update,
}
use concurrent_queue_evaluat.Fifo.{Item, Op, enqueue, dequeue}
use concurrent_queue_evaluat.Machine.{Outcome, next, done, Env, Machine}
use concurrent_queue_evaluat.Word.{add64, sub64, flag, number, join}

abbrev pub ring_size : ℕ  -- R
ring_size = 2 ^ 10

abbrev pub starving_threshold : ℕ
starving_threshold = ring_size

pub record Cell : Type 0 where
  pub safe_and_epoch : ℕ
  pub value : Item

unfoldable pub decode_cell_safe : ℕ → Bool
decode_cell_safe w = flag w

unfoldable pub decode_cell_epoch : ℕ → ℕ
decode_cell_epoch w = number w

unfoldable pub encode_cell_safe_epoch : Bool → ℕ → ℕ
encode_cell_safe_epoch safe epoch = join safe epoch

unfoldable pub decode_tail_closed : ℕ → Bool
decode_tail_closed w = flag w

unfoldable pub decode_tail_t : ℕ → ℕ
decode_tail_t w = number w

unfoldable pub is_token : ℕ → Bool
is_token value = (value % 2) == 1

-- `reinterpret_cast<uint64_t>(&token) | IS_TOKEN_BIT`, where `address` is where each thread has its
-- `thread_local char`
unfoldable pub thread_token : (address : ℕ → Ptr) → ℕ → ℕ
thread_token address self = if is_token (address self) then address self else address self + 1

-- The fields that `enqueue` and `dequeue` use: `_head`, `_tail` and `_a`.
pub record Mem : Type 0 where
  pub head : ℕ
  pub tail : ℕ
  pub cells : ℕ → Cell

abbrev pub set_word : Mem → ℕ → ℕ → Mem
set_word m i w = record m { cells = update m.cells i (record (m.cells i) { safe_and_epoch = w }) }

abbrev pub set_value : Mem → ℕ → Item → Mem
set_value m i v = record m { cells = update m.cells i (record (m.cells i) { value = v }) }

-- `value == NULL_VALUE || is_token(value)`
unfoldable pub is_free : Item → Bool
is_free value = value == 0 || is_token value

-- `fetch_or(CLOSED_BIT)`
unfoldable pub close : ℕ → ℕ
close w = join true (number w)

-- What the calls return, with the argument of the call: OK or CLOSED, and the value or EMPTY.
pub data Reply : Type 0 where
  ok : Item → Reply
  closed : Item → Reply
  returned : Item → Reply

-- The places in `enqueue` (p) and `dequeue` (q), each at an access, with the locals that are live
-- there; `enc` is the local `safe_and_epoch`.
pub data Pc : Type 0 where
  p1 : (item : Item) (iteration : ℕ) → Pc  -- `_tail.fetch_add(1)`
  p2 : (item : Item) (iteration t : ℕ) → Pc  -- load of `safe_and_epoch`
  p3 : (item : Item) (iteration t enc : ℕ) → Pc  -- load of `value`
  p4 : (item : Item) (iteration t enc : ℕ) (value : Item) → Pc  -- `_head <= t`
  p5 : (item : Item) (iteration t enc : ℕ) (value : Item) → Pc  -- the token into `value`
  p6 : (item : Item) (iteration t enc : ℕ) → Pc  -- the cycle into `safe_and_epoch`
  p7 : (item : Item) (iteration t : ℕ) → Pc  -- the token out of `value`
  p8 : (item : Item) (iteration t : ℕ) → Pc  -- the item into `value`
  p9 : (item : Item) (iteration t : ℕ) → Pc  -- `checkOverflow`
  p10 : (item : Item) → Pc  -- `_tail.fetch_or(CLOSED_BIT)`
  q1 : Pc  -- `_head.fetch_add(1)`
  q2 : (h : ℕ) → Pc  -- load of `safe_and_epoch`
  q3 : (h enc : ℕ) → Pc  -- load of `value`
  q4 : (h enc : ℕ) (value : Item) → Pc  -- `safe_and_epoch` again, and the tests
  q5 : (h : ℕ) (value : Item) → Pc  -- `value = NULL_VALUE`
  q6 : (h enc : ℕ) (value : Item) → Pc  -- another thread's token out of `value`
  q7 : (h enc : ℕ) → Pc  -- the cycle into `safe_and_epoch`
  q8 : (h enc : ℕ) → Pc  -- the cell made unsafe
  q9 : (h : ℕ) → Pc  -- `decode_tail_t(_tail)`

unfoldable pub begin : Op → Pc
begin (enqueue x) = p1 x 0
begin dequeue = q1

-- `t - _head >= R || iteration++ > STARVING_THRESHOLD`
unfoldable pub gives_up : ℕ → ℕ → ℕ → Bool
gives_up t h iteration = leb ring_size (sub64 t h) || ltb starving_threshold iteration

-- What `dequeue` does when `safe_and_epoch` has not changed.
unfoldable pub dispatch : Mem → (h enc : ℕ) → Item → Outcome Mem Pc Reply
dispatch m h enc value =
    let epoch = decode_cell_epoch enc in
    let cycle = h / ring_size in
    if is_free value
    then (if leb epoch cycle
        then (if is_token value then next m (q6 h enc value) else next m (q7 h enc))
        else next m (q9 h))
    else (if epoch == cycle
        then next m (q5 h value)
        else (if ltb epoch cycle then next m (q8 h enc) else next m (q9 h)))

unfoldable pub move : (address : ℕ → Ptr) → ℕ → Env → Mem → Pc → Outcome Mem Pc Reply
move address self e m (p1 x it) =
    if decode_tail_closed m.tail
    then done (record m { tail = add64 m.tail 1 }) (closed x)
    else next (record m { tail = add64 m.tail 1 }) (p2 x it (decode_tail_t m.tail))
move address self e m (p2 x it t) = next m (p3 x it t (m.cells (t % ring_size)).safe_and_epoch)
move address self e m (p3 x it t enc) =
    let value = (m.cells (t % ring_size)).value in
    if is_free value && ltb (decode_cell_epoch enc) (t / ring_size)
    then (if decode_cell_safe enc
        then next m (p5 x it t enc value)
        else next m (p4 x it t enc value))
    else next m (p9 x it t)
move address self e m (p4 x it t enc value) =
    if leb m.head t then next m (p5 x it t enc value) else next m (p9 x it t)
move address self e m (p5 x it t enc value) =
    if (m.cells (t % ring_size)).value == value
    then next (set_value m (t % ring_size) (thread_token address self)) (p6 x it t enc)
    else next m (p9 x it t)
move address self e m (p6 x it t enc) =
    if (m.cells (t % ring_size)).safe_and_epoch == enc
    then next (set_word m (t % ring_size) (encode_cell_safe_epoch true (t / ring_size))) (p8 x it t)
    else next m (p7 x it t)
move address self e m (p7 x it t) =
    if (m.cells (t % ring_size)).value == thread_token address self
    then next (set_value m (t % ring_size) 0) (p9 x it t)
    else next m (p9 x it t)
move address self e m (p8 x it t) =
    if (m.cells (t % ring_size)).value == thread_token address self
    then done (set_value m (t % ring_size) x) (ok x)
    else next m (p9 x it t)
move address self e m (p9 x it t) =
    if gives_up t m.head it then next m (p10 x) else next m (p1 x (it + 1))
move address self e m (p10 x) = done (record m { tail = close m.tail }) (closed x)
move address self e m q1 = next (record m { head = add64 m.head 1 }) (q2 m.head)
move address self e m (q2 h) = next m (q3 h (m.cells (h % ring_size)).safe_and_epoch)
move address self e m (q3 h enc) = next m (q4 h enc (m.cells (h % ring_size)).value)
move address self e m (q4 h enc value) =
    if (m.cells (h % ring_size)).safe_and_epoch == enc
    then dispatch m h enc value
    else next m (q2 h)
move address self e m (q5 h value) = done (set_value m (h % ring_size) 0) (returned value)
move address self e m (q6 h enc value) =
    if (m.cells (h % ring_size)).value == value
    then next (set_value m (h % ring_size) 0) (q7 h enc)
    else next m (q2 h)
move address self e m (q7 h enc) =
    if (m.cells (h % ring_size)).safe_and_epoch == enc
    then next
        (set_word m (h % ring_size) (encode_cell_safe_epoch (decode_cell_safe enc) (h / ring_size)))
        (q9 h)
    else next m (q2 h)
move address self e m (q8 h enc) =
    if (m.cells (h % ring_size)).safe_and_epoch == enc
    then next (set_word m (h % ring_size) (encode_cell_safe_epoch false (decode_cell_epoch enc)))
        (q9 h)
    else next m (q2 h)
move address self e m (q9 h) =
    if leb (decode_tail_t m.tail) (add64 h 1) then done m (returned 0) else next m q1

abbrev pub machine : (ℕ → Ptr) → Machine Op Reply
machine address = record {
  Mem = Mem;
  Pc = Pc;
  begin = begin;
  Unused = λ m p. Unit {0};
  move = move address;
}

-- The constructor.
abbrev pub create : Mem
create = record {
  head = ring_size;
  tail = ring_size;
  cells = λ i. record { safe_and_epoch = encode_cell_safe_epoch true 0; value = 0 };
}
