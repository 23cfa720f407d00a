-- ===== src/Benchmark/Workers/Tests.antt =====
-- Two workers of src/benchmark.cc with one round each, the second the first to dequeue.
use concurrent_queue_evaluat.Base.{
  ℕ, ◌+◌, ◌*◌, ◌<◌, ◌≡◌, ◌≢◌, refl, subst, true, none, List, [], ◌∷◌, ℕ_discrete, arith,
}
use concurrent_queue_evaluat.Benchmark.Workers.{
  finished, State, round, act, receive, initial, Reached, start, step,
}
use concurrent_queue_evaluat.Benchmark.Workers.Waiting.{queue-ne-nil}
use concurrent_queue_evaluat.Benchmark.Workers.Stamps.{sampled_written}

record Run : Type 0 where
  last : State
  reach : Reached 1 2 (λ x. true) last

-- The workers that step, the latest first; each step reads the clock at the number of the steps.
runs : (clock : ℕ) → List ℕ → Run
runs clock [] = record { last = initial 1 2 (λ x. true); reach = start }
runs clock (t ∷ ts) =
    let before = runs (clock + 1) ts in record { last = _; reach = step t clock before.reach }

halfway : Run
unfolding runs
halfway = runs 0 (0 ∷ 0 ∷ 1 ∷ 0 ∷ 1 ∷ 0 ∷ 1 ∷ [])

done : Run
unfolding runs
done = runs 0 (1 ∷ 1 ∷ 1 ∷ 0 ∷ 0 ∷ 0 ∷ 0 ∷ 1 ∷ 0 ∷ 1 ∷ 0 ∷ 1 ∷ 0 ∷ 1 ∷ [])

queue-ne-nil_example : halfway.last.queue ≢ []
unfolding halfway act round receive
queue-ne-nil_example = queue-ne-nil 0 0 0 halfway.reach refl

done_finished : (t : ℕ) → t < 2 → done.last.worker t ≡ finished
unfolding done act round receive
done_finished t lt = elim (ℕ_discrete 0 t) [
  | yes e ↦ subst (λ t. done.last.worker t ≡ finished) e refl
  | no ne ↦ elim (ℕ_discrete 1 t) [
    | yes e ↦ subst (λ t. done.last.worker t ≡ finished) e refl
    | no ne' ↦ absurd (omega arith)
  ]
]

sampled_written_example :
    ((done.last.items (0 * 1 + 0)).enqueue_start ≢ none)
    × ((done.last.items (0 * 1 + 0)).enqueue_done ≢ none)
    × ((done.last.items (0 * 1 + 0)).dequeue_start ≢ none)
    × ((done.last.items (0 * 1 + 0)).dequeue_done ≢ none)
unfolding done act round receive
sampled_written_example =
    sampled_written 0 0 done.reach done_finished (omega arith) (omega arith) refl
