-- ===== src/Machine/Locks.antt =====
-- A mutex of a class: which places in the code hold it.
use concurrent_queue_evaluat.Base.{
  ℕ, ◌≡◌, ◌≢◌, ◌∙◌, refl, sym, Bool, true, false, Option, none, some,
}
use concurrent_queue_evaluat.Machine.{
  Outcome, next, done, blocked, fault, Env, Machine, System, Reach,
}
use concurrent_queue_evaluat.Machine.Relies
use concurrent_queue_evaluat.Machine.Relies.{View, Good, Moved, Proof}

-- What an access of thread `i` does to a mutex, and whether its place before and after holds it.
pub data Change (i : ℕ) (l : Option ℕ) (b : Bool) (l' : Option ℕ) (b' : Bool) : Type 0 where
  keeps : l' ≡ l → b' ≡ b → Change i l b l' b'
  takes : l ≡ none → l' ≡ some i → b' ≡ true → Change i l b l' b'
  gives : b ≡ true → l' ≡ none → b' ≡ false → Change i l b l' b'

module _ {C R : Type 0} (q : Machine C R) (lock : q.Mem → Option ℕ) (holds : q.Pc → Bool) where
  abbrev pub at_place : Option q.Pc → Bool
  at_place none = false
  at_place (some c) = holds c

  abbrev pub Changes : ℕ → q.Mem → Bool → Outcome q.Mem q.Pc R → Type 0
  Changes i m b (next m' c) = Change i (lock m) b (lock m') (holds c)
  Changes i m b (done m' r) = Change i (lock m) b (lock m') false
  Changes i m b blocked = Unit
  Changes i m b fault = Unit

  record Local (m : q.Mem) (i : ℕ) (c : Option q.Pc) : Type 0 where
    mine : at_place c ≡ true → lock m ≡ some i
    here : lock m ≡ some i → at_place c ≡ true

  record Rely (i : ℕ) (m m' : q.Mem) : Type 0 where
    kept : (j : ℕ) → i ≢ j → lock m ≡ some j → lock m' ≡ some j
    was : (j : ℕ) → i ≢ j → lock m' ≡ some j → lock m ≡ some j

  abbrev view : View q
  view = record {
    Ghost = Unit {0};
    Inv = λ g m. Unit;
    Local = λ g m i c. Local m i c;
    Rely = λ i g m g' m'. Rely i m m';
    Fault = Unit;
  }

  moved :
      {i : ℕ} {m m' : q.Mem} {c : Option q.Pc} (c' : Option q.Pc)
      → Local m i c
      → Change i (lock m) (at_place c) (lock m') (at_place c')
      → Moved q view tt m i m' c'
  moved c' h (keeps l b) = record {
    ghost = tt;
    inv = tt;
    rely = record { kept = λ j n e. l ∙ e; was = λ j n e. sym l ∙ e };
    local = record { mine = λ e. l ∙ h.mine (sym b ∙ e); here = λ e. b ∙ h.here (sym l ∙ e) };
  }
  moved c' h (takes free l b) = record {
    ghost = tt;
    inv = tt;
    rely = record { kept = λ j n e. absurd (cc); was = λ j n e. absurd (n cc) };
    local = record { mine = λ e. l; here = λ e. b };
  }
  moved c' h (gives b l b') =
      let before = h.mine b in
      record {
        ghost = tt;
        inv = tt;
        rely = record { kept = λ j n e. absurd (n cc); was = λ j n e. absurd (cc) };
        local = record { mine = λ e. absurd (cc); here = λ e. absurd (cc) };
      }

  module _ (outside : (o : C) → holds (q.begin o) ≡ false)
      (moves : (i : ℕ) (e : Env) (m : q.Mem) (c : q.Pc) → Changes i m (holds c) (q.move i e m c))
      {m₀ : q.Mem} (free : lock m₀ ≡ none) where
    good :
        (i : ℕ) (m : q.Mem) (c : q.Pc)
        → Local m i (some c)
        → (o : Outcome q.Mem q.Pc R) → Changes i m (holds c) o
        → Good q view tt m i o
    good i m c h (next m' c') k = moved (some c') h k
    good i m c h (done m' r) k = moved none h k
    good i m c h blocked k = tt
    good i m c h fault k = tt

    proof : Proof q view m₀
    proof = record {
      ghost₀ = tt;
      inv₀ = tt;
      idle₀ = λ i. record { mine = λ e. absurd (cc); here = λ e. absurd (cc) };
      begins = λ g m i o v h. record {
        ghost = tt;
        inv = tt;
        rely = record { kept = λ j n e. e; was = λ j n e. e };
        local = record {
          mine = λ e. let before = outside o in absurd (cc);
          here = λ e. let before = h.here e in absurd (cc);
        };
      };
      stable = λ {m} {m'} {j = j} c n r h. record {
        mine = λ e. r.kept j n (h.mine e);
        here = λ e. h.here (r.was j n e);
      };
      moves = λ g m i e c v h nn un. good i m c h (q.move i e m c) (moves i e m c);
    }

    holder : (o : Option q.Pc) → at_place o ≡ true → (c : q.Pc) × (o ≡ some c) × (holds c ≡ true)
    holder none e = absurd (cc)
    holder (some c) e = (c, refl, e)

    -- The thread that a mutex names is at a place that holds it.
    pub holder_at :
        {s : System q} (j : ℕ)
        → Reach q m₀ s
        → lock s.mem ≡ some j
        → (c : q.Pc) × (s.thread j ≡ some c) × (holds c ≡ true)
    holder_at {s} j r e =
        let k = Relies.Known-Reach q view proof r in holder (s.thread j) ((k.local j).here e)
