-- ===== src/Correctness/Consumers/Order.antt =====
-- The loop over what one consumer took passes where the values of each producer increase.
use concurrent_queue_evaluat.Base.{
  ℕ, ◌/◌, ◌<◌, ◌≡◌, ◌≢◌, refl, ◌∙◌, sym, ap, ◌⊎◌, inl, inr, Bool-cases, true, Option, none, some,
  List, [], ◌∷◌, ltb, update, update_self, update_ne, ℕ_discrete, arith,
}
use concurrent_queue_evaluat.Correctness.Consumers.{passed, LastSeen, newer, verify_order}

abbrev pub All : {A : Type 0} → (A → Type 0) → List A → Type 0
All P [] = Unit
All P (x ∷ xs) = P x × All P xs

pub All-map : {P Q : ℕ → Type 0} (xs : List ℕ) → ((x : ℕ) → P x → Q x) → All P xs → All Q xs
All-map [] f a = tt
All-map (x ∷ xs) f (p, a) = (f x p, All-map xs f a)

pub All-both :
    {P Q R : ℕ → Type 0} (xs : List ℕ)
    → ((x : ℕ) → P x → Q x → R x)
    → All P xs
    → All Q xs
    → All R xs
All-both [] f a b = tt
All-both (x ∷ xs) f (p, a) (q, b) = (f x p q, All-both xs f a b)

-- Later values of the same producer are greater.
abbrev pub Increasing : (per : ℕ) → List ℕ → Type 0
Increasing per [] = Unit
Increasing per (v ∷ vs) = All (λ w. (w / per ≢ v / per) ⊎ (v < w)) vs × Increasing per vs

module _ (per n : ℕ) where
  abbrev Above : LastSeen → List ℕ → Type 0
  Above seen vs = All (λ w. newer (seen (w / per)) w ≡ true) vs

  newer_trans : (o : Option ℕ) (v w : ℕ) → newer o v ≡ true → v < w → newer o w ≡ true
  newer_trans none v w a h = refl
  newer_trans (some l) v w a h = ground (arith, a)

  ltb_lt : (v w : ℕ) → ltb v w ≡ true → v < w
  ltb_lt v w h = ground (arith, h)

  -- After `v`, a value is newer than all of its producer seen before and, where `v` is of the same
  -- producer, than `v`.
  after :
      (seen : LastSeen) (v w : ℕ)
      → newer (seen (v / per)) v ≡ true
      → newer (update seen (v / per) (some v) (w / per)) w ≡ true
      → (newer (seen (w / per)) w ≡ true) × ((w / per ≢ v / per) ⊎ (v < w))
  after seen v w hv hw = elim (ℕ_discrete (w / per) (v / per)) [
    | yes e ↦
        let lt : v < w = ltb_lt v w (
          ap (λ o. newer o w)
            (sym (ap (update seen (v / per) (some v)) e ∙ update_self seen (v / per) (some v)))
          ∙ hw) in
        (ap (λ p. newer (seen p) w) e ∙ newer_trans (seen (v / per)) v w hv lt, inr lt)
    | no ne ↦ (
      ap (λ o. newer o w) (sym (update_ne seen (v / per) (w / per) (some v) λ e. ne (sym e))) ∙ hw,
      inl ne,
    )
  ]

  before :
      (seen : LastSeen) (v w : ℕ)
      → newer (seen (w / per)) w ≡ true
      → (w / per ≢ v / per) ⊎ (v < w)
      → newer (update seen (v / per) (some v) (w / per)) w ≡ true
  before seen v w h (inl ne) =
      ap (λ o. newer o w) (update_ne seen (v / per) (w / per) (some v) λ e. ne (sym e)) ∙ h
  before seen v w h (inr lt) = elim (ℕ_discrete (w / per) (v / per)) [
    | yes e ↦
        ap (λ o. newer o w)
          (ap (update seen (v / per) (some v)) e ∙ update_self seen (v / per) (some v))
        ∙ ground arith
    | no ne ↦ ap (λ o. newer o w) (update_ne seen (v / per) (w / per) (some v) λ e. ne (sym e)) ∙ h
  ]

  pub verify_order-holds :
      (seen : LastSeen) (vs : List ℕ)
      → verify_order per n seen vs ≡ passed
      → Above seen vs × Increasing per vs
  unfolding verify_order
  verify_order-holds seen [] h = (tt, tt)
  verify_order-holds seen (v ∷ vs) h =
      let rest = verify_order-holds (update seen (v / per) (some v)) vs in
      elim (Bool-cases (ltb (v / per) n)) [
        | inr out ↦ absurd (cc)
        | inl lt ↦ elim (Bool-cases (newer (seen (v / per)) v)) [
          | inr old ↦ absurd (cc)
          | inl new ↦
              let (a, i) = rest (rw (lt, new) at h) in
              let both = All-map vs (λ w hw. after seen v w new hw) a in
              ((new, All-map vs (λ w b. b.0) both), (All-map vs (λ w b. b.1) both, i))
        ]
      ]

  pub verify_order-passes :
      (seen : LastSeen) (vs : List ℕ)
      → All (λ v. v / per < n) vs
      → Above seen vs
      → Increasing per vs
      → verify_order per n seen vs ≡ passed
  unfolding verify_order
  verify_order-passes seen [] r a i = refl
  verify_order-passes seen (v ∷ vs) (lt, r) (new, a) (later, i) =
      let in_range : ltb (v / per) n ≡ true = ground arith in
      rw (in_range, new)
        (verify_order-passes (update seen (v / per) (some v)) vs r
          (All-both vs (λ w h l. before seen v w h l) a later) i)
