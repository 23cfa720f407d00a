-- ===== src/Fifo/Kept.antt =====
-- The items of the atomic queue: what its calls have added and removed.
use concurrent_queue_evaluat.Base.{
  ℕ, ◌≡◌, ◌≢◌, refl, ap, subst, ◌∙◌, inl, inr, Bool, true, false, ◌||◌, Option, none, some, List,
  [], ◌∷◌, ◌++◌, ◌==◌, if◌then◌else◌, update, update_self, update_ne, arith, ℕ_discrete, Bool-cases,
  at_or_else, ==_eq, ==_self, ==_ne,
}
use concurrent_queue_evaluat.Fifo.{
  Item, Op, enqueue, dequeue, Answer, dequeued, Event, Phase, idle, adding, added, removing,
  removed, called, Commit, put, take, meet_empty, Answers, enqueue_ends, dequeue_ends,
  dequeue_fails, Atomic, AtomicStep, AtomicReach,
}

abbrev pub History : Type 0
History = List (Event Op Answer)

-- The latest call of a thread, and whether it has not returned.
unfoldable pub last_call : ℕ → History → Option Op
last_call i [] = none
last_call i (Event.call j o ∷ es) = if j == i then some o else last_call i es
last_call i (Event.return j r ∷ es) = last_call i es

unfoldable pub pending : ℕ → History → Bool
pending i [] = false
pending i (Event.call j o ∷ es) = if j == i then true else pending i es
pending i (Event.return j r ∷ es) = if j == i then false else pending i es

abbrev pub gives : Item → Answer → Bool
gives x (dequeued (some y)) = y == x
gives x _ = false

-- Whether a call of `dequeue` has returned the item.
unfoldable pub taken : Item → History → Bool
taken x [] = false
taken x (Event.call j o ∷ es) = taken x es
taken x (Event.return j r ∷ es) = gives x r || taken x es

unfoldable pub has : Item → List Item → Bool
has x [] = false
has x (y ∷ ys) = y == x || has x ys

pub has-append : (x y : Item) (ys : List Item) → has x (ys ++ y ∷ []) ≡ has x ys || y == x
unfolding has
has-append x y [] = ground arith
has-append x y (z ∷ ys) = ground (arith, has-append x y ys)

-- The item is in the queue, or a call has removed it.
pub data Kept (q : List Item) (ph : ℕ → Phase) (h : History) (x : Item) : Type 0 where
  inside : has x q ≡ true → Kept q ph h x
  leaving : (j : ℕ) → ph j ≡ removed x → Kept q ph h x
  gone : taken x h ≡ true → Kept q ph h x

-- What a thread has called, by its phase.
abbrev pub Asked : Phase → Option Op → Type 0
Asked (adding x) o = o ≡ some (enqueue x)
Asked (removing b) o = o ≡ some dequeue
Asked (removed x) o = o ≡ some dequeue
Asked _ o = Unit

abbrev pub InEffect : Phase → Type 0
InEffect idle = Unit
InEffect added = Unit
InEffect _ = ⊥

pub record Keeps (a : Atomic) : Type 0 where
  pub kept :
      (i : ℕ) (x : Item)
      → last_call i a.history ≡ some (enqueue x)
      → InEffect (a.phase i)
      → Kept a.items a.phase a.history x
  pub asked : (i : ℕ) → Asked (a.phase i) (last_call i a.history)
  pub returned : (i : ℕ) → pending i a.history ≡ false → a.phase i ≡ idle

Commit-ne : {q q' : List Item} {p p' : Phase} → Commit q p q' p' → (x : Item) → p ≢ removed x
Commit-ne put x e = absurd (cc)
Commit-ne take x e = absurd (cc)
Commit-ne meet_empty x e = absurd (cc)

module _ (h : History) (x : Item) where
  -- A commit of thread `i` keeps an item.
  Kept-Commit :
      {q q' : List Item} {p p' : Phase} (ph : ℕ → Phase) (i : ℕ)
      → p ≡ ph i
      → Commit q p q' p'
      → Kept q ph h x
      → Kept q' (update ph i p') h x
  unfolding has
  Kept-Commit ph i e c (gone t) = gone t
  Kept-Commit ph i e c (leaving j r) =
      leaving j (update_ne ph i j _ (λ q. Commit-ne c x (e ∙ ap ph q ∙ r)) ∙ r)
  Kept-Commit ph i e (put {x = y}) (inside t) = inside (has-append x y _ ∙ rw t refl)
  Kept-Commit ph i e (take {x = y}) (inside t) = elim (Bool-cases (y == x)) [
    | inl here ↦ leaving i (update_self ph i _ ∙ ap removed (==_eq y x here))
    | inr not ↦ inside (ground (arith, not))
  ]
  Kept-Commit ph i e meet_empty (inside t) = inside t

  -- A call or a return of thread `i`, which has removed no item or returns it.
  Kept-event :
      {q : List Item} (ph : ℕ → Phase) (i : ℕ) (p : Phase) (ev : Event Op Answer)
      → (taken x h ≡ true → taken x (ev ∷ h) ≡ true)
      → (ph i ≡ removed x → taken x (ev ∷ h) ≡ true)
      → Kept q ph h x
      → Kept q (update ph i p) (ev ∷ h) x
  Kept-event ph i p ev f g (inside t) = inside t
  Kept-event ph i p ev f g (gone t) = gone (f t)
  Kept-event ph i p ev f g (leaving j r) = elim (ℕ_discrete i j) [
    | yes e ↦ gone (g (ap ph e ∙ r))
    | no n ↦ leaving j (update_ne ph i j p n ∙ r)
  ]

Asked-Commit :
    {q q' : List Item} {p p' : Phase} (o : Option Op) → Commit q p q' p' → Asked p o → Asked p' o
Asked-Commit o put h = tt
Asked-Commit o take h = h
Asked-Commit o meet_empty h = h

-- A call that takes effect as a call of `enqueue` has put its item into the queue.
Kept-effect :
    {q q' : List Item} {p p' : Phase} (ph : ℕ → Phase) (h : History) (x : Item) (o : Option Op)
    → Commit q p q' p'
    → Asked p o
    → o ≡ some (enqueue x)
    → InEffect p'
    → Kept q' ph h x
unfolding has
Kept-effect ph h x o (put {q} {x = y}) a e f =
    inside (has-append x y q ∙ ground (arith, ==_self x, ==_self y))
Kept-effect ph h x o take a e f = absurd f
Kept-effect ph h x o meet_empty a e f = absurd f

pub called-InEffect : (o : Op) → ¬ InEffect (called o)
called-InEffect (enqueue x) f = f
called-InEffect dequeue f = f

Asked-called : (o : Op) → Asked (called o) (some o)
Asked-called (enqueue x) = refl
Asked-called dequeue = refl

Commit-ne_idle : {q q' : List Item} {p p' : Phase} → Commit q p q' p' → p ≢ idle
Commit-ne_idle put e = absurd (cc)
Commit-ne_idle take e = absurd (cc)
Commit-ne_idle meet_empty e = absurd (cc)

Answers-effect :
    {p : Phase} {r : Answer} {o : Option Op} {x : Item}
    → Answers p r
    → Asked p o
    → o ≡ some (enqueue x)
    → InEffect p
Answers-effect enqueue_ends a e = tt
Answers-effect dequeue_ends a e = absurd (cc)
Answers-effect dequeue_fails a e = absurd (cc)

Answers-gives : {p : Phase} {r : Answer} {x : Item} → Answers p r → p ≡ removed x → gives x r ≡ true
Answers-gives enqueue_ends e = absurd (cc)
Answers-gives {x} (dequeue_ends {x = y}) e = ground arith
Answers-gives dequeue_fails e = absurd (cc)

Keeps-Step : {a b : Atomic} → Keeps a → AtomicStep a b → Keeps b
unfolding last_call pending taken
Keeps-Step {a} k (AtomicStep.call i o ready) = record {
  kept =
      at_or_else i
        (λ x e f. absurd (called-InEffect o (subst InEffect (update_self a.phase i (called o)) f)))
        λ j n x e f.
          Kept-event a.history x a.phase i (called o) (Event.call i o) (λ t. t) (λ z. absurd (cc))
            (k.kept j x
              (subst (λ b. (if b then some o else last_call j a.history) ≡ some (enqueue x))
                (==_ne i j n) e)
              (subst InEffect (update_ne a.phase i j (called o) n) f));
  asked = at_or_else i (rw (==_self i) (Asked-called o)) λ j n. rw (==_ne i j n) (k.asked j);
  returned =
      at_or_else i (λ e. absurd (ground (arith, ==_self i)))
        λ j n e. update_ne a.phase i j (called o) n ∙ k.returned j (ground (arith, ==_ne i j n));
}
Keeps-Step {a} k (AtomicStep.commit i {q} {p} c) = record {
  kept =
      at_or_else i
        (λ x e f.
          Kept-effect (update a.phase i p) a.history x _ c (k.asked i) e
            (subst InEffect (update_self a.phase i p) f))
        λ j n x e f.
          Kept-Commit a.history x a.phase i refl c
            (k.kept j x e (subst InEffect (update_ne a.phase i j p n) f));
  asked =
      at_or_else i (rw (==_self i) (Asked-Commit _ c (k.asked i)))
        λ j n. rw (==_ne i j n) (k.asked j);
  returned =
      at_or_else i (λ e. absurd (Commit-ne_idle c (k.returned i e)))
        λ j n e. update_ne a.phase i j p n ∙ k.returned j e;
}
Keeps-Step {a} k (AtomicStep.return i {r} w) = record {
  kept =
      at_or_else i (λ x e f. returned_keeps x (k.kept i x e (Answers-effect w (k.asked i) e)))
        λ j n x e f.
          returned_keeps x (k.kept j x e (subst InEffect (update_ne a.phase i j idle n) f));
  asked = at_or_else i (rw (==_self i) tt) λ j n. rw (==_ne i j n) (k.asked j);
  returned =
      at_or_else i (λ e. update_self a.phase i idle)
        λ j n e. update_ne a.phase i j idle n ∙ k.returned j (ground (arith, ==_ne i j n));
}
  where
    returned_keeps :
        (x : Item)
        → Kept a.items a.phase a.history x
        → Kept a.items (update a.phase i idle) (Event.return i r ∷ a.history) x
    returned_keeps x =
        Kept-event a.history x a.phase i idle (Event.return i r) (λ t. ground (arith, t))
          (λ z. ground (arith, Answers-gives w z))

pub Keeps-Reach : {a : Atomic} → AtomicReach a → Keeps a
unfolding last_call
Keeps-Reach AtomicReach.start = record {
  kept = λ i x e f. absurd (cc);
  asked = λ i. tt;
  returned = λ i e. refl;
}
Keeps-Reach (AtomicReach.later r st) = Keeps-Step (Keeps-Reach r) st
