-- ===== src/Destroy/Positions.antt =====
-- A list whose nodes are known by their positions.
use concurrent_queue_evaluat.Base.{
  ℕ, zero, suc, ◌+◌, ◌-◌, ◌≤◌, ◌<◌, ◌≡◌, ◌≢◌, refl, ◌∙◌, sym, ap, subst, false, Option, some, List,
  [], ◌∷◌, Ptr, null, ◌==◌, ==_self, ==_ne, if◌then◌else◌, arith,
}
use concurrent_queue_evaluat.Fifo.Kept.{has}
use concurrent_queue_evaluat.Destroy.Chains.{Chain, nil, cons, Clears, Chain-Clears}

module _ {Node : Type 0} (next_node : Node → Ptr) (nodes : Ptr → Option Node) (at : ℕ → Ptr)
    (head len : ℕ) where
  place : ℕ → Ptr
  place k = if k == len then null else at k

  positions : ℕ → ℕ → List Ptr
  positions zero j = []
  positions (suc r) j = at j ∷ positions r (j + 1)

  has-positions :
      (a : Ptr) (r j : ℕ) → ((k : ℕ) → j ≤ k → k < j + r → at k ≢ a) → has a (positions r j) ≡ false
  unfolding has positions
  has-positions a zero j h = refl
  has-positions a (suc r) j h =
      let ne : (at j == a) ≡ false = ==_ne (at j) a (h j (omega arith) (omega arith)) in
      let rest = has-positions a r (j + 1) λ k lo lt. h k (omega arith) (omega arith) in
      ground (arith, ne, rest)

  module _
      (cell : (k : ℕ)
        → head ≤ k
        → k < len
        → (d : Node) × (nodes (at k) ≡ some d)
          × (next_node d ≡ (if (k + 1) == len then null else at (k + 1))))
      (nonnull : (k : ℕ) → head ≤ k → k < len → at k ≢ null)
      (distinct : (j k : ℕ) → head ≤ j → j < len → head ≤ k → k < len → at j ≡ at k → j ≡ k) where
    Chain-positions :
        (r j : ℕ) (p : Ptr)
        → head ≤ j
        → j + r ≡ len
        → p ≡ (if j == len then null else at j)
        → Chain next_node nodes p (positions r j)
    unfolding positions
    Chain-positions zero j p lo e h =
        nil
          (h ∙ ap (λ b. if b then null else at j) (ap (λ z. z == len) (omega arith) ∙ ==_self len))
    Chain-positions (suc r) j p lo e h =
        let here : p ≡ at j =
          h ∙ ap (λ b. if b then null else at j) (==_ne j len λ z. omega arith) in
        let (d, stored, succ) = cell j lo (omega arith) in
        subst (λ q. Chain next_node nodes q (at j ∷ positions r (j + 1))) (sym here)
          (cons (nonnull j lo (omega arith)) stored
            (has-positions (at j) r (j + 1) λ k le lt z.
              let same = distinct k j (omega arith) (omega arith) lo (omega arith) z in omega arith)
            (Chain-positions r (j + 1) (next_node d) (omega arith) (omega arith) succ))

    pub positions-Clears :
        (p : Ptr)
        → head ≤ len
        → p ≡ (if head == len then null else at head)
        → Clears next_node nodes p
    positions-Clears p le h =
        Chain-Clears next_node (Chain-positions (len - head) head p (omega arith) (omega arith) h)
