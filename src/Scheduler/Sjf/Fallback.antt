-- ===== src/Scheduler/Sjf/Fallback.antt =====
-- python/scheduler/sjf_scheduler.py: what happens once the fallback scheduler is in use.
use ai_infrastructure_platfo.Prelude.{
  ℕ, ◌≡◌, ◌≤◌, refl, ap, inl, inr, String, true, false, Option, none, some, List, [], ◌∷◌, arith,
  nat_eq, Bool-cases, Option-cases, length,
}
use ai_infrastructure_platfo.Floats.{Floats, truthy}
use ai_infrastructure_platfo.Dict
use ai_infrastructure_platfo.Heapq.{Heapq}
use ai_infrastructure_platfo.Queue.{PriorityQueue, item_lt, item_of, update_priority, reinsert}
use ai_infrastructure_platfo.Queue
use ai_infrastructure_platfo.Queue.Ledger.{length-heappush}
use ai_infrastructure_platfo.Scheduler.Sjf.State.{
  SjfScheduler, is_some, start, stop, submit, predict_step, route, acquire, complete, cancel,
  on_reload, active_fallback,
}
use ai_infrastructure_platfo.Scheduler.Sjf.Loop.{
  Call, starts, stops, submits, acquires, completes, cancels, reloads, ages, lower_priority, age,
  age_all, aging_round, step, run,
}
use ai_infrastructure_platfo.Predictor.Result.{PredictionResult}

-- The fallback scheduler exists and is in use.
abbrev InFallback : {F : Type 0} → SjfScheduler F → Type 0
InFallback s = (s.use_fallback ≡ true) × (is_some s.fcfs_fallback ≡ true)

-- From `s` to `s'` the fallback stays in use, and nothing leaves the priority queue.
pub record Stuck {F : Type 0} (s s' : SjfScheduler F) : Type 0 where
  pub in_use : s'.use_fallback ≡ true
  pub kept : is_some s'.fcfs_fallback ≡ true
  pub held : length s.queue.heap ≤ length s'.queue.heap
  pub dequeued : s'.queue.total_dequeued ≡ s.queue.total_dequeued

Stuck-trans : {F : Type 0} (r s t : SjfScheduler F) → Stuck r s → Stuck s t → Stuck r t
Stuck-trans r s t a b = record {
  in_use = b.in_use;
  kept = b.kept;
  held = omega arith;
  dequeued = omega arith;
}

Stuck-refl : {F : Type 0} (s : SjfScheduler F) → InFallback s → Stuck s s
Stuck-refl s f = ground arith

cancel-Stuck : {F : Type 0} (s : SjfScheduler F) (k : ℕ) → InFallback s → Stuck s (cancel s k).0
unfolding cancel Queue.cancel
cancel-Stuck s k f = ground arith

module _ {F : Type 0} ⦃fl : Floats F⦄ ⦃hq : Heapq (item_lt {F = F} {P = ℕ})⦄ where
  update_priority-held :
      (q : PriorityQueue F ℕ) (k : ℕ) (p : F)
      → (length q.heap ≤ length (update_priority q k p).0.heap)
        × ((update_priority q k p).0.total_dequeued ≡ q.total_dequeued)
  unfolding update_priority reinsert
  update_priority-held q k p = elim (Option-cases (Dict.get q.pending k)) [
    | inl e ↦ rw (e, update_priority) (omega arith, refl)
    | inr (item, e) ↦
        rw (e, update_priority)
          (omega (arith, length-heappush q.heap (item_of p item.enqueue_time k item.payload)), refl)
  ]

  lower_priority-Stuck :
      (s : SjfScheduler F) (k ref : ℕ) (p : F) → InFallback s → Stuck s (lower_priority s k ref p)
  unfolding lower_priority
  lower_priority-Stuck s k ref p f = ground (arith, update_priority-held s.queue k p)

  age-Stuck : (now : F) (s : SjfScheduler F) (e : ℕ × ℕ) → InFallback s → Stuck s (age now s e)
  unfolding age
  age-Stuck now s (k, ref) f =
      elim (Bool-cases (fl.lt s.timeout (fl.sub now (s.objects ref).enqueue_time))) [
        | inl e ↦ rw (e, age) (cancel-Stuck s k f)
        | inr e ↦ rw (e, age) (lower_priority-Stuck s k ref _ f)
      ]

  age_all-Stuck :
      (now : F) (s : SjfScheduler F) (es : List (ℕ × ℕ)) → InFallback s → Stuck s (age_all now s es)
  unfolding age_all
  age_all-Stuck now s [] f = Stuck-refl s f
  age_all-Stuck now s (e ∷ es) f =
      let once = age-Stuck now s e f in
      Stuck-trans s (age now s e) _ once
        (age_all-Stuck now (age now s e) es (once.in_use, once.kept))

  module _ (predict : String → Option (PredictionResult F)) where
    submit-Stuck :
        (t0 t1 now : F) (s : SjfScheduler F) (ref : ℕ)
        → InFallback s
        → Stuck s (submit predict t0 t1 now s ref)
    unfolding submit predict_step route active_fallback
    submit-Stuck t0 t1 now s ref f = ground arith

    step-Stuck : (s : SjfScheduler F) (c : Call F) → InFallback s → Stuck s (step predict s c)
    unfolding step start stop acquire active_fallback complete on_reload aging_round
    step-Stuck s starts f = ground arith
    step-Stuck s stops f = ground arith
    step-Stuck s (submits t0 t1 now ref) f = submit-Stuck t0 t1 now s ref f
    step-Stuck s (acquires now timeout rounds arrived expired) f = ground arith
    step-Stuck s (completes request_id success) f = ground arith
    step-Stuck s (cancels request_id) f = cancel-Stuck s request_id f
    step-Stuck s (reloads none none) f = ground arith
    step-Stuck s (reloads none (some b)) f = ground arith
    step-Stuck s (reloads (some a) none) f = ground arith
    step-Stuck s (reloads (some a) (some b)) f = ground arith
    step-Stuck s (ages now) f = age_all-Stuck now s s.pending f

    run-Stuck :
        (s : SjfScheduler F) (cs : List (Call F)) → InFallback s → Stuck s (run predict s cs)
    unfolding run
    run-Stuck s [] f = Stuck-refl s f
    run-Stuck s (c ∷ cs) f =
        let once = step-Stuck s c f in
        Stuck-trans s (step predict s c) _ once
          (run-Stuck (step predict s c) cs (once.in_use, once.kept))

    -- A request without a prediction for which the predictor raises puts the fallback scheduler in
    -- use, if there is one. From then on, over any history of calls, it stays in use, no item of
    -- the priority queue is given out and none leaves it.
    pub submit_strands :
        (t0 t1 now : F) (s : SjfScheduler F) (ref : ℕ) (cs : List (Call F))
        → truthy (s.objects ref).predicted_tokens ≡ false
        → predict (s.objects ref).prompt ≡ none
        → is_some s.fcfs_fallback ≡ true
        → Stuck (submit predict t0 t1 now s ref) (run predict (submit predict t0 t1 now s ref) cs)
          × (length s.queue.heap
              ≤ length (run predict (submit predict t0 t1 now s ref) cs).queue.heap)
    unfolding submit predict_step route active_fallback
    submit_strands t0 t1 now s ref cs u e f =
        let s' = submit predict t0 t1 now s ref in
        let in_use : InFallback s' = (ground arith, ground arith) in
        let same : s'.queue.heap ≡ s.queue.heap = ground arith in
        let later = run-Stuck s' cs in_use in (later, omega (arith, later.held, ap length same))
