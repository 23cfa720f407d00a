-- ===== src/Destroy/Chains.antt =====
-- A list without a cycle is deleted, and nothing else.
use concurrent_queue_evaluat.Base.{
  ℕ, suc, ◌≡◌, ◌≢◌, refl, ◌∙◌, ap, subst, inl, inr, Bool-cases, true, false, Option, none, some,
  List, [], ◌∷◌, Ptr, null, ==_self, ==_ne, update, update_self, update_ne, if◌then◌else◌, arith,
  ℕ_discrete,
}
use concurrent_queue_evaluat.Fifo.Kept.{has}
use concurrent_queue_evaluat.Destroy.{cleared, delete_nodes, Linked, here, further}

module _ {Node : Type 0} (next_node : Node → Ptr) where
  -- The addresses of a list, each once.
  pub data Chain (nodes : Ptr → Option Node) : Ptr → List Ptr → Type 0 where
    nil : {p : Ptr} → p ≡ null → Chain nodes p []
    cons :
        {p : Ptr} {ps : List Ptr} {d : Node}
        → p ≢ null
        → nodes p ≡ some d
        → has p ps ≡ false
        → Chain nodes (next_node d) ps
        → Chain nodes p (p ∷ ps)

  abbrev Nodes : Type 0
  Nodes = Ptr → Option Node

  Chain-update :
      {nodes : Nodes} {p : Ptr} {ps : List Ptr} (a : Ptr)
      → has a ps ≡ false
      → Chain nodes p ps
      → Chain (update nodes a none) p ps
  unfolding has
  Chain-update a h (nil e) = nil e
  Chain-update {nodes} {p} a h (cons {ps} nn e f c) =
      let ne : a ≢ p = λ z. absurd (ground (arith, h, z, ==_self p)) in
      cons nn (update_ne nodes a p none ne ∙ e) f (Chain-update a (ground (arith, h)) c)

  -- The nodes of the list are gone, the others are as they were.
  Without : List Ptr → Nodes → Nodes → Type 0
  Without ps nodes nodes' = (q : Ptr) → nodes' q ≡ (if has q ps then none else nodes q)

  Deletes : ℕ → Nodes → Ptr → List Ptr → Type 0
  Deletes k nodes p ps =
      (nodes' : Nodes) × (delete_nodes next_node k nodes p ≡ cleared nodes')
      × Without ps nodes nodes'

  delete_nodes-next :
      (k : ℕ) (nodes : Nodes) {p : Ptr} {d : Node}
      → p ≢ null
      → nodes p ≡ some d
      → delete_nodes next_node (suc k) nodes p
        ≡ delete_nodes next_node k (update nodes p none) (next_node d)
  unfolding delete_nodes
  delete_nodes-next k nodes {p} nn e = rw (==_ne p null nn, e, delete_nodes) refl

  delete_nodes-Chain :
      (ps : List Ptr) {nodes : Nodes} {p : Ptr} → Chain nodes p ps → (k : ℕ) × Deletes k nodes p ps
  unfolding delete_nodes has Without Deletes
  delete_nodes-Chain [] {nodes} {p} (nil e) = (1, (nodes, rw e refl, λ q. refl))
  delete_nodes-Chain (_ ∷ ps) {nodes} {p} (cons {d} nn e f c) =
      let (k, (nodes', eq, gone)) = delete_nodes-Chain ps (Chain-update p f c) in
      (
        suc k,
        (
          nodes',
          delete_nodes-next k nodes nn e ∙ eq,
          λ q. elim (ℕ_discrete p q) [
            | yes z ↦ gone q ∙ ground (arith, f, z, update_self nodes p none, ==_self p)
            | no ne ↦ gone q ∙ ground (arith, ==_ne p q ne, update_ne nodes p q none ne)
          ],
        ),
      )

  has-Linked :
      {nodes : Nodes} {p : Ptr} {ps : List Ptr} (q : Ptr)
      → Chain nodes p ps
      → has q ps ≡ true
      → Linked next_node nodes p q
  unfolding has
  has-Linked q (nil e) h = absurd (cc)
  has-Linked {nodes} {p} q (cons nn e f c) h = elim (ℕ_discrete p q) [
    | yes z ↦ subst (Linked next_node nodes p) z (here nn)
    | no ne ↦ further nn e (has-Linked q c (ground (arith, h, ==_ne p q ne)))
  ]

  Linked-has :
      {nodes : Nodes} {p q : Ptr} {ps : List Ptr}
      → Chain nodes p ps
      → Linked next_node nodes p q
      → has q ps ≡ true
  unfolding has
  Linked-has (nil e) (here nn) = absurd (nn e)
  Linked-has (nil e) (further nn g l) = absurd (nn e)
  Linked-has {p} (cons nn e f c) (here _) = ground (arith, ==_self p)
  Linked-has {nodes} (cons {d} nn e f c) (further {q} {d = d'} _ g l) =
      let same : d' ≡ d = cc in
      let rest = Linked-has c (subst (λ o. Linked next_node nodes (next_node o) q) same l) in
      ground (arith, rest)

  -- What the loop does to a list: it ends, and the nodes that one comes to from `p` are gone, while the
  -- others are as they were.
  abbrev pub Clears : Nodes → Ptr → Type 0
  Clears nodes p =
      (k : ℕ) × (nodes' : Nodes) × (delete_nodes next_node k nodes p ≡ cleared nodes')
      × ((q : Ptr) → Linked next_node nodes p q → nodes' q ≡ none)
      × ((q : Ptr) → ¬ Linked next_node nodes p q → nodes' q ≡ nodes q)

  pub Chain-Clears : {nodes : Nodes} {p : Ptr} {ps : List Ptr} → Chain nodes p ps → Clears nodes p
  unfolding Deletes Without
  Chain-Clears {nodes} {p} {ps} c =
      let (k, (nodes', eq, gone)) = delete_nodes-Chain ps c in
      (
        k,
        nodes',
        eq,
        (λ q l. gone q ∙ ap (λ b. if b then none else nodes q) (Linked-has c l)),
        λ q n. elim (Bool-cases (has q ps)) [
          | inl h ↦ absurd (n (has-Linked q c h))
          | inr h ↦ gone q ∙ ap (λ b. if b then none else nodes q) h
        ],
      )
