-- ===== src/Chain/Contents.antt =====
-- The items of a chain, as the queue's operations change them.
use concurrent_queue_evaluat.Base.{
  ℕ, zero, suc, ◌+◌, ◌-◌, ◌≤◌, ◌<◌, ◌≡◌, refl, ap, [], ◌∷◌, List, ◌++◌, update, update_self, arith,
  none,
}
use concurrent_queue_evaluat.Fifo.{Item}
use concurrent_queue_evaluat.Chain.{Chain, slice, contents}

slice-update :
    (f : ℕ → Item) (s n k : ℕ) (x : Item) → s + n ≤ k → slice (update f k x) s n ≡ slice f s n
unfolding slice
slice-update f s zero k x h = refl
slice-update f s (suc n) k x h = ground (arith, slice-update f (s + 1) n k x)

slice-snoc : (f : ℕ → Item) (s n : ℕ) → slice f s (n + 1) ≡ slice f s n ++ f (s + n) ∷ []
unfolding slice
slice-snoc f s zero = ground arith
slice-snoc f s (suc n) =
    let e : suc n + 1 ≡ suc (n + 1) = omega arith in
    let e' : s + suc n ≡ s + 1 + n = omega arith in
    rw (e, e') (ap (λ z. f s ∷ z) (slice-snoc f (s + 1) n))

pub contents_empty : (g : Chain) → g.len ≡ g.head + 1 → contents g ≡ []
unfolding contents slice
contents_empty g h = let e : g.len - (g.head + 1) ≡ 0 = omega arith in rw e

abbrev pub pop : Chain → Chain
pop g = record g { head = g.head + 1 }

pub contents-pop :
    (g : Chain) → g.head + 1 < g.len → contents g ≡ g.val (g.head + 1) ∷ contents (pop g)
unfolding contents slice
contents-pop g h =
    let e : g.len - (g.head + 1) ≡ suc (g.len - (g.head + 1 + 1)) = omega arith in rw e

-- The node at `n`, with the item `x`, behind the last one.
abbrev pub link : Chain → ℕ → Item → Chain
link g n x = record g {
  at = update g.at g.len n;
  val = update g.val g.len x;
  len = g.len + 1;
  owner = update g.owner n none;
}

pub contents-link :
    (g : Chain) (n : ℕ) (x : Item) → g.head < g.len → contents (link g n x) ≡ contents g ++ x ∷ []
unfolding contents
contents-link g n x h =
    let e : g.len + 1 - (g.head + 1) ≡ g.len - (g.head + 1) + 1 = omega arith in
    let e' : g.head + 1 + (g.len - (g.head + 1)) ≡ g.len = omega arith in
    rw (
      e,
      slice-snoc (update g.val g.len x) (g.head + 1) (g.len - (g.head + 1)),
      slice-update g.val (g.head + 1) (g.len - (g.head + 1)) g.len x (omega arith),
      e',
      update_self g.val g.len x,
    )

-- The items from position `s` up to `e`.
unfoldable pub between : (ℕ → Item) → ℕ → ℕ → List Item
between f s e = slice f s (e - s)

pub between_empty : (f : ℕ → Item) (s e : ℕ) → e ≤ s → between f s e ≡ []
unfolding between slice
between_empty f s e h = let z : e - s ≡ 0 = omega arith in rw z

pub between_pop : (f : ℕ → Item) (s e : ℕ) → s < e → between f s e ≡ f s ∷ between f (s + 1) e
unfolding between slice
between_pop f s e h = let z : e - s ≡ suc (e - (s + 1)) = omega arith in rw z

pub between_link :
    (f : ℕ → Item) (s e : ℕ) (x : Item)
    → s ≤ e
    → between (update f e x) s (e + 1) ≡ between f s e ++ x ∷ []
unfolding between
between_link f s e x h =
    let z : e + 1 - s ≡ e - s + 1 = omega arith in
    let z' : s + (e - s) ≡ e = omega arith in
    rw (
      z,
      slice-snoc (update f e x) s (e - s),
      slice-update f s (e - s) e x (omega arith),
      z',
      update_self f e x,
    )
