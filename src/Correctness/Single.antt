-- ===== src/Correctness/Single.antt =====
-- One thread that calls a linearizable queue sees a list, first in, first out.
use concurrent_queue_evaluat.Base.{
  ℕ, ◌≡◌, ◌≢◌, refl, ◌∙◌, sym, ap, subst, Bool, true, false, Option, none, some, List, [], ◌∷◌,
  ◌++◌, update, update_self, update_ne, ℕ_discrete,
}
use concurrent_queue_evaluat.Fifo.{
  Item, Op, Answer, Event, Phase, idle, adding, added, removing, removed, called, enqueued,
  dequeued, Commit, put, take, meet_empty, Answers, enqueue_ends, dequeue_ends, dequeue_fails,
  Atomic, AtomicStep, AtomicReach, start, later,
}
use concurrent_queue_evaluat.Correctness.{Program, enqueue, dequeue, passed, failed}

abbrev History : Type 0
History = List (Event Op Answer)

-- The calls that a program has made from thread 0, with their answers, and what is left of it.
pub data Ran (t : Program) : List (Event Op Answer) → Program → Type 0 where
  begins : Ran t [] t
  enqueues :
      {h : List (Event Op Answer)} {x : Item} {u : Program}
      → Ran t h (enqueue x u)
      → Ran t (Event.return 0 enqueued ∷ Event.call 0 (Op.enqueue x) ∷ h) u
  dequeues :
      {h : List (Event Op Answer)} {k : Option Item → Program} (r : Option Item)
      → Ran t h (dequeue k)
      → Ran t (Event.return 0 (dequeued r) ∷ Event.call 0 Op.dequeue ∷ h) (k r)

-- The program on a list.
unfoldable pub passes : List Item → Program → Bool
passes q (enqueue x t) = passes (q ++ x ∷ []) t
passes [] (dequeue k) = passes [] (k none)
passes (x ∷ q) (dequeue k) = passes q (k (some x))
passes q passed = true
passes q failed = false

passes-failed : (q : List Item) → passes q failed ≡ false
unfolding passes
passes-failed [] = refl
passes-failed (x ∷ q) = refl

-- The list after whole calls of thread 0.
data Leaves : History → List Item → Type 0 where
  nothing : Leaves [] []
  one_more :
      {h : History} {q : List Item} {x : Item}
      → Leaves h q
      → Leaves (Event.return 0 enqueued ∷ Event.call 0 (Op.enqueue x) ∷ h) (q ++ x ∷ [])
  one_less :
      {h : History} {q : List Item} {x : Item}
      → Leaves h (x ∷ q)
      → Leaves (Event.return 0 (dequeued (some x)) ∷ Event.call 0 Op.dequeue ∷ h) q
  empty_still :
      {h : History}
      → Leaves h []
      → Leaves (Event.return 0 (dequeued none) ∷ Event.call 0 Op.dequeue ∷ h) []

-- The atomic queue's state by the phase of thread 0.
data Alone : History → List Item → Phase → Type 0 where
  outside : {h : History} {q : List Item} → Leaves h q → Alone h q idle
  to_add :
      {h : History} {q : List Item} {x : Item}
      → Leaves h q
      → Alone (Event.call 0 (Op.enqueue x) ∷ h) q (adding x)
  has_added :
      {h : History} {q q' : List Item} {x : Item}
      → q' ≡ q ++ x ∷ []
      → Leaves h q
      → Alone (Event.call 0 (Op.enqueue x) ∷ h) q' added
  to_remove :
      {h : History} {q : List Item}
      → Leaves h q
      → Alone (Event.call 0 Op.dequeue ∷ h) q (removing false)
  met_nothing : {h : History} → Leaves h [] → Alone (Event.call 0 Op.dequeue ∷ h) [] (removing true)
  has_removed :
      {h : History} {q : List Item} {x : Item}
      → Leaves h (x ∷ q)
      → Alone (Event.call 0 Op.dequeue ∷ h) q (removed x)

Alone-Commit :
    {h : History} {q q' : List Item} {p p' : Phase} → Alone h q p → Commit q p q' p' → Alone h q' p'
Alone-Commit (outside l) c = elim c [ ]
Alone-Commit (has_added e l) c = elim c [ ]
Alone-Commit (has_removed l) c = elim c [ ]
Alone-Commit (to_add l) put = has_added refl l
Alone-Commit (to_remove l) take = has_removed l
Alone-Commit (to_remove l) meet_empty = met_nothing l
Alone-Commit (met_nothing l) meet_empty = met_nothing l

Alone-call :
    {h : History} {q : List Item} {p : Phase} (o : Op)
    → Alone h q p
    → p ≡ idle
    → Alone (Event.call 0 o ∷ h) q (called o)
Alone-call (Op.enqueue x) (outside l) e = to_add l
Alone-call Op.dequeue (outside l) e = to_remove l
Alone-call o (to_add l) e = absurd (cc)
Alone-call o (has_added q l) e = absurd (cc)
Alone-call o (to_remove l) e = absurd (cc)
Alone-call o (met_nothing l) e = absurd (cc)
Alone-call o (has_removed l) e = absurd (cc)

Alone-return :
    {h : History} {q : List Item} {p : Phase} {r : Answer}
    → Alone h q p
    → Answers p r
    → Leaves (Event.return 0 r ∷ h) q
Alone-return (outside l) a = elim a [ ]
Alone-return (to_add l) a = elim a [ ]
Alone-return (to_remove l) a = elim a [ ]
Alone-return (has_added e l) enqueue_ends = subst (Leaves _) (sym e) (one_more l)
Alone-return (has_removed l) dequeue_ends = one_less l
Alone-return (met_nothing l) dequeue_fails = empty_still l

thread_of : Event Op Answer → ℕ
thread_of (Event.call i o) = i
thread_of (Event.return i r) = i

-- A history of thread 0 only.
abbrev Own : History → Type 0
Own [] = Unit
Own (Event.call i o ∷ h) = (i ≡ 0) × Own h
Own (Event.return i r ∷ h) = (i ≡ 0) × Own h

record State (h : History) (q : List Item) (phase : ℕ → Phase) : Type 0 where
  others : (j : ℕ) → j ≢ 0 → phase j ≡ idle
  main : Alone h q (phase 0)

State-update :
    {h h' : History} {q q' : List Item} {phase : ℕ → Phase} {i : ℕ} (p : Phase)
    → i ≡ 0
    → State h q phase
    → Alone h' q' p
    → State h' q' (update phase i p)
State-update {h'} {q'} {phase} {i} p z s m = record {
  others = λ j n. update_ne phase i j p (λ e. n (sym e ∙ z)) ∙ s.others j n;
  main = subst (Alone h' q') (sym (ap (update phase i p) (sym z) ∙ update_self phase i p)) m;
}

Commit-idle : {q q' : List Item} {p p' : Phase} → p ≡ idle → ¬ Commit q p q' p'
Commit-idle e put = absurd (cc)
Commit-idle e take = absurd (cc)
Commit-idle e meet_empty = absurd (cc)

State-Reach : {a : Atomic} → AtomicReach a → Own a.history → State a.history a.items a.phase
State-Reach start o = record { others = λ j n. refl; main = outside nothing }
State-Reach (later {a} r (AtomicStep.call i op ready)) (z, o) =
    let s = State-Reach r o in
    let before : a.phase 0 ≡ idle = ap a.phase (sym z) ∙ ready in
    State-update (called op) z s (
      subst (λ k. Alone (Event.call k op ∷ a.history) a.items (called op)) (sym z)
        (Alone-call op s.main before))
State-Reach (later {a} r (AtomicStep.commit i {q} {p} c)) o =
    let s = State-Reach r o in
    elim (ℕ_discrete i 0) [
      | yes z ↦
          State-update p z s (Alone-Commit s.main (subst (λ k. Commit a.items (a.phase k) q p) z c))
      | no n ↦ absurd (Commit-idle (s.others i n) c)
    ]
State-Reach (later {a} r (AtomicStep.return i {r = x} ok)) (z, o) =
    let s = State-Reach r o in
    State-update idle z s (
      outside (
        subst (λ k. Leaves (Event.return k x ∷ a.history) a.items) (sym z)
          (Alone-return s.main (subst (λ k. Answers (a.phase k) x) z ok))))

Ran-Own : {t u : Program} {h : History} → Ran t h u → Own h
Ran-Own begins = tt
Ran-Own (enqueues r) = (refl, (refl, Ran-Own r))
Ran-Own (dequeues a r) = (refl, (refl, Ran-Own r))

-- What is left of a program passes on the list that its calls leave, if the program passes.
Ran-passes :
    {t u : Program} {h : History} {q : List Item}
    → Ran t h u
    → Leaves h q
    → passes q u ≡ passes [] t
unfolding passes
Ran-passes begins nothing = refl
Ran-passes (enqueues r) (one_more l) = Ran-passes r l
Ran-passes (dequeues a r) (one_less l) = Ran-passes r l
Ran-passes (dequeues a r) (empty_still l) = Ran-passes r l

-- A thread whose program has come between two calls is outside.
Alone-Ran :
    {t u : Program} {h : History} {q : List Item} {p : Phase} → Ran t h u → Alone h q p → Leaves h q
Alone-Ran r (outside l) = l
Alone-Ran r (to_add l) = elim r [ ]
Alone-Ran r (has_added e l) = elim r [ ]
Alone-Ran r (to_remove l) = elim r [ ]
Alone-Ran r (met_nothing l) = elim r [ ]
Alone-Ran r (has_removed l) = elim r [ ]

-- A program that passes on a list does not fail on the atomic queue.
pub atomic-passes :
    {t u : Program} {a : Atomic}
    → passes [] t ≡ true
    → AtomicReach a
    → Ran t a.history u
    → u ≢ failed
unfolding passes
atomic-passes {t} {u} {a} ok r run e =
    let s = State-Reach r (Ran-Own run) in
    let l = Alone-Ran run s.main in
    let fails : passes a.items u ≡ false = ap (passes a.items) e ∙ passes-failed a.items in
    absurd (cc (ok, fails, Ran-passes run l))
