-- ===== src/Correctness.antt =====
-- src/correctness.cc: the tests, as programs that call a queue, and the check of what the consumers
-- took.
pub mod Single
pub mod Passes
pub mod Consumers
mod Tests
use concurrent_queue_evaluat.Base.{
  ℕ, zero, suc, ◌+◌, Bool, true, false, Option, none, some, ◌==◌, if◌then◌else◌, update,
}
use concurrent_queue_evaluat.Fifo.{Item}

-- A program of one thread: its next call of the queue, or how it ended. A failed `assert` ends it.
pub data Program : Type 0 where
  enqueue : Item → Program → Program
  dequeue : (Option Item → Program) → Program
  passed : Program
  failed : Program

-- The `int`s behind the items.
abbrev pub Ints : Type 0
Ints = Item → ℕ

abbrev pub check : Bool → Program → Program
check b rest = if b then rest else failed

-- `q.dequeue(item) == true && *item == v`
abbrev pub gives : Ints → Option Item → ℕ → Bool
gives ints none v = false
gives ints (some item) v = ints item == v

-- `q.dequeue(item) == false`
abbrev pub is_empty : Option Item → Bool
is_empty none = true
is_empty (some item) = false

abbrev pub test_dequeue_empty_returns_false : Program
test_dequeue_empty_returns_false = dequeue λ r. check (is_empty r) passed

-- `a` is the address of the variable of that name; so below.
abbrev pub test_single_enqueue_dequeue : (a : Item) → Ints → Program
test_single_enqueue_dequeue a ints =
    let ints = update ints a 10 in
    enqueue a (dequeue λ r. check (gives ints r (ints a)) (dequeue λ r. check (is_empty r) passed))

-- The vector's element `i` has the address `items + i`; `count` elements are left.
pub push_items : (items count i : ℕ) → Ints → Ints
push_items items zero i ints = ints
push_items items (suc count) i ints = push_items items count (i + 1) (update ints (items + i) i)

pub enqueue_items : (items count i : ℕ) → Program → Program
enqueue_items items zero i rest = rest
enqueue_items items (suc count) i rest =
    enqueue (items + i) (enqueue_items items count (i + 1) rest)

pub expect_items : Ints → (count i : ℕ) → Program
expect_items ints zero i = passed
expect_items ints (suc count) i =
    let rest = expect_items ints count (i + 1) in dequeue λ r. check (gives ints r i) rest

abbrev pub test_queue_is_fifo : (n items : ℕ) → Ints → Program
test_queue_is_fifo n items ints =
    let ints = push_items items n 0 ints in enqueue_items items n 0 (expect_items ints n 0)

abbrev pub test_enqueue_after_empty : (a b c : Item) → Ints → Program
test_enqueue_after_empty a b c ints =
    let ints = update (update (update ints a 1) b 2) c 3 in
    enqueue a (
      enqueue b (
        dequeue λ r. check (gives ints r (ints a)) (
          dequeue λ r. check (gives ints r (ints b)) (
            dequeue λ r. check (is_empty r) (
              enqueue c (
                dequeue
                  λ r. check (gives ints r (ints c)) (dequeue λ r. check (is_empty r) passed)))))))
