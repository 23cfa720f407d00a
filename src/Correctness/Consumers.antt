-- ===== src/Correctness/Consumers.antt =====
-- src/correctness.cc: what `test_n_producers_n_consumers` checks of the items that the consumers took.
pub mod Order
pub mod Counts
pub mod Verified
use concurrent_queue_evaluat.Base.{
  ℕ, zero, suc, ◌+◌, ◌*◌, ◌/◌, Bool, true, false, ◌&&◌, Option, none, some, List, [], ◌∷◌, ◌++◌,
  ltb, ◌==◌, if◌then◌else◌, update,
}

-- Every assertion held, one failed, or a vector was used out of its range.
pub data Verdict : Type 0 where
  passed : Verdict
  failed : Verdict
  undefined : Verdict

abbrev pub items_per_producer : ℕ
items_per_producer = 100000

-- `items`: `count` values from `i` on.
unfoldable pub generate_items : (count i : ℕ) → List ℕ
generate_items zero i = []
generate_items (suc count) i = i ∷ generate_items count (i + 1)

-- `lastSeen`, with none for -1, below every value.
abbrev pub LastSeen : Type 0
LastSeen = ℕ → Option ℕ

abbrev pub newer : Option ℕ → ℕ → Bool
newer none val = true
newer (some last) val = ltb last val

-- The loop over what one consumer took.
unfoldable pub verify_order : (per n_producers : ℕ) → LastSeen → List ℕ → Verdict
verify_order per n_producers last_seen [] = passed
verify_order per n_producers last_seen (val ∷ v) =
    let producer_id = val / per in
    let rest = verify_order per n_producers (update last_seen producer_id (some val)) v in
    if ltb producer_id n_producers
    then (if newer (last_seen producer_id) val then rest else failed)
    else undefined

abbrev pub and_then : Verdict → Verdict → Verdict
and_then passed rest = rest
and_then failed rest = failed
and_then undefined rest = undefined

unfoldable pub verify_orders : (per n_producers : ℕ) → List (List ℕ) → Verdict
verify_orders per n_producers [] = passed
verify_orders per n_producers (v ∷ consumed) =
    let rest = verify_orders per n_producers consumed in
    and_then (verify_order per n_producers (λ _. none) v) rest

-- `allConsumedItems`
unfoldable pub flatten : List (List ℕ) → List ℕ
flatten [] = []
flatten (v ∷ consumed) = v ++ flatten consumed

-- `==` of two vectors
unfoldable pub equal : List ℕ → List ℕ → Bool
equal [] [] = true
equal [] (y ∷ ys) = false
equal (x ∷ xs) [] = false
equal (x ∷ xs) (y ∷ ys) = x == y && equal xs ys

-- From the join of the consumers on; `sort` is the library's.
abbrev pub verify : (sort : List ℕ → List ℕ) (per n_producers : ℕ) → List (List ℕ) → Verdict
verify sort per n_producers consumed = and_then (verify_orders per n_producers consumed) (
    if equal (sort (flatten consumed)) (generate_items (n_producers * per) 0)
    then passed
    else failed)
