-- ===== src/Benchmark/Simulation/Counts.antt =====
-- python/benchmark/fcfs.py: what the simulation measures.
use ai_infrastructure_platfo.Prelude.{
  ℕ, zero, suc, ◌+◌, ◌≡◌, ◌≤◌, refl, true, some, List, [], ◌∷◌, ◌++◌, length, length-append, ltb,
  ltb→lt, arith, nat_eq, Bool-cases, Option-cases, inl, inr,
}
use ai_infrastructure_platfo.Floats.{Floats}
use ai_infrastructure_platfo.Scheduler.Base.{ScheduledRequest, scheduled, count_complete}
use ai_infrastructure_platfo.Scheduler.Fcfs.{FcfsScheduler, Acquired, got, take_front}
use ai_infrastructure_platfo.Scheduler.Fcfs
use ai_infrastructure_platfo.Benchmark.Simulation.{
  Service, Simulation, Event, begins, ends, init, pick, begin, finish, step, run,
}

-- The scheduler's queue is empty and no worker is blocked, the counters agree with the metrics and
-- the running workers, and there are no more of those than the semaphore allows.
pub record Balanced {F : Type 0} (concurrency : ℕ) (s : Simulation F) : Type 0 where
  pub empty : s.scheduler.queue ≡ []
  pub free : s.blocked ≡ 0
  pub completed : s.scheduler.base.total_completed ≡ length s.metrics
  pub in_service : s.scheduler.base.total_scheduled ≡ length s.metrics + length s.running
  pub limit : length s.running ≤ concurrency

length-pick :
    {F : Type 0} (ws : List (Service F)) (place : ℕ) (w : Service F) (rest : List (Service F))
    → pick ws place ≡ some (w, rest)
    → length ws ≡ suc (length rest)
unfolding pick
length-pick [] place w rest e = cc
length-pick (v ∷ ws) zero w rest e = ground arith
length-pick (v ∷ ws) (suc place) w rest e = elim (Option-cases (pick ws place)) [
  | inl f ↦ cc (rw (f, pick) at e)
  | inr ((x, xs), f) ↦ ground (arith, length-pick ws place x xs f)
]

module _ {F : Type 0} ⦃fl : Floats F⦄ (concurrency : ℕ) where
  -- Whoever submits to an empty queue acquires its own request and leaves the queue empty.
  begin-own :
      (s : Simulation F) (k : ℕ) (req : ScheduledRequest F) (wait_ms : F)
      → s.scheduler.queue ≡ []
      → ltb (length s.running + s.blocked) concurrency ≡ true
      → begin concurrency s k req wait_ms ≡ record s {
        scheduler = record (Fcfs.submit s.scheduler k req) { queue = [] };
        running = s.running ++ record { acquired = req; wait_ms = wait_ms } ∷ [];
      }
  unfolding begin Fcfs.submit Fcfs.acquire take_front
  begin-own s k req wait_ms e h = rw (h, e, begin) refl

  begin-Balanced :
      (s : Simulation F) (k : ℕ) (req : ScheduledRequest F) (wait_ms : F)
      → Balanced concurrency s
      → Balanced concurrency (begin concurrency s k req wait_ms)
  unfolding begin Fcfs.submit scheduled
  begin-Balanced s k req wait_ms b =
      elim (Bool-cases (ltb (length s.running + s.blocked) concurrency)) [
        | inr h ↦ rw (h, begin) b
        | inl h ↦
            let w : Service F = record { acquired = req; wait_ms = wait_ms } in
            let longer = length-append s.running (w ∷ []) in
            let room = ltb→lt (length s.running + s.blocked) concurrency h in
            rw (begin-own s k req wait_ms b.empty h) (record {
              empty = refl;
              free = b.free;
              completed = b.completed;
              in_service = omega (arith, b.in_service, longer);
              limit = omega (arith, room, longer);
            })
      ]

  finish-Balanced :
      (s : Simulation F) (svc_ms : F) (w : Service F) (rest : List (Service F))
      → length s.running ≡ suc (length rest)
      → Balanced concurrency s
      → Balanced concurrency (finish concurrency s svc_ms (w, rest))
  unfolding finish Fcfs.complete count_complete
  finish-Balanced s svc_ms w rest e b = record {
    empty = b.empty;
    free = b.free;
    completed = omega (arith, b.completed, length-append s.metrics (_ ∷ []));
    in_service = omega (arith, b.in_service, e, length-append s.metrics (_ ∷ []));
    limit = omega (arith, b.limit, e);
  }

  step-Balanced :
      (s : Simulation F) (e : Event F)
      → Balanced concurrency s
      → Balanced concurrency (step concurrency s e)
  unfolding step
  step-Balanced s (begins i request_id max_tokens created_at t_enqueue acquired_at) b =
      begin-Balanced s request_id _ _ b
  step-Balanced s (ends place svc_ms) b = elim (Option-cases (pick s.running place)) [
    | inl f ↦ rw (f, step) b
    | inr ((w, rest), f) ↦
        rw (f, step) (finish-Balanced s svc_ms w rest (length-pick s.running place w rest f) b)
  ]

  run-Balanced :
      (s : Simulation F) (events : List (Event F))
      → Balanced concurrency s
      → Balanced concurrency (run concurrency s events)
  unfolding run
  run-Balanced s [] b = b
  run-Balanced s (e ∷ events) b = run-Balanced (step concurrency s e) events (step-Balanced s e b)

  -- However the workers of the simulation interleave, the scheduler's queue is empty after every
  -- event: no request ever waits behind another. No worker is blocked, at most `concurrency` are
  -- running, and what was scheduled is what was measured and what is running.
  pub run-init-Balanced :
      (events : List (Event F)) → Balanced concurrency (run concurrency init events)
  unfolding init Fcfs.init
  run-init-Balanced events = run-Balanced init events (record {
    empty = refl;
    free = refl;
    completed = refl;
    in_service = refl;
    limit = omega arith;
  })
