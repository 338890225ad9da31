-- ===== src/Benchmark/Shared/Counted.antt =====
-- python/benchmark/sjf.py: what the simulation measures, over any scheduler.
use ai_infrastructure_platfo.Prelude.{
  ℕ, zero, suc, ◌+◌, ◌≡◌, ◌≤◌, refl, ap, ◌∙◌, true, Option, none, some, List, [], ◌∷◌, length,
  length-append, ltb, ltb→lt, arith, Bool-cases, Option-cases, inl, inr,
}
use ai_infrastructure_platfo.Floats.{Floats}
use ai_infrastructure_platfo.Scheduler.Base.{BaseScheduler, count_complete}
use ai_infrastructure_platfo.Scheduler.Oracle.Interface.{Scheduling}
use ai_infrastructure_platfo.Benchmark.Shared.{
  Start, Service, Simulation, Event, begins, wakes, ends, take_at, init, settled, begin, finish,
  step, run,
}

pub length-take_at :
    {A : Type 0} (xs : List A) (place : ℕ) (x : A) (rest : List A)
    → take_at xs place ≡ some (x, rest)
    → length xs ≡ suc (length rest)
unfolding take_at
length-take_at [] place x rest e = cc
length-take_at (y ∷ xs) zero x rest e = ground arith
length-take_at (y ∷ xs) (suc place) x rest e = elim (Option-cases (take_at xs place)) [
  | inl f ↦ cc (rw (f, take_at) at e)
  | inr ((z, zs), f) ↦ ground (arith, length-take_at xs place z zs f)
]

module _ {F S : Type 0} ⦃fl : Floats F⦄ (ops : Scheduling F S) (id_of max_tokens_of : ℕ → ℕ)
    (concurrency : ℕ) where
  -- Every request that was scheduled was measured or has its worker, which is in service or waits; no
  -- more workers are on their way than the semaphore allows; what was completed was measured.
  pub record Counted (s : Simulation F S) : Type 0 where
    pub completed : (ops.base s.scheduler).total_completed ≡ length s.metrics
    pub on_their_way :
        (ops.base s.scheduler).total_scheduled
        ≡ length s.metrics + (length s.running + length s.blocked)
    pub limit : length s.running + length s.blocked ≤ concurrency

  -- After a worker took its place, of `more` that were not counted as on their way before.
  settled-Counted :
      (s : Simulation F S) (start : Start F) (acquired_at : F) (p : Option ℕ × S)
      → (ops.base p.1).total_completed ≡ length s.metrics
      → (ops.base p.1).total_scheduled
        ≡ length s.metrics + (length s.running + length s.blocked) + 1
      → length s.running + length s.blocked + 1 ≤ concurrency
      → Counted (settled ops id_of max_tokens_of concurrency s start acquired_at p)
  unfolding settled
  settled-Counted s start acquired_at (none, t) c o l = record {
    completed = c;
    on_their_way = omega (arith, o, length-append s.blocked (start ∷ []));
    limit = omega (arith, l, length-append s.blocked (start ∷ []));
  }
  settled-Counted s start acquired_at (some ref, t) c o l = record {
    completed = c;
    on_their_way = omega (arith, o, length-append s.running (_ ∷ []));
    limit = omega (arith, l, length-append s.running (_ ∷ []));
  }

  begin-Counted :
      (s : Simulation F S) (ref : ℕ) (start : Start F) (acquired_at : F)
      → Counted s
      → Counted (begin ops id_of max_tokens_of concurrency s ref start acquired_at)
  unfolding begin
  begin-Counted s ref start acquired_at c =
      elim (Bool-cases (ltb (length s.running + length s.blocked) concurrency)) [
        | inr h ↦ rw (h, begin) c
        | inl h ↦
            let room = ltb→lt (length s.running + length s.blocked) concurrency h in
            let t = ops.submit s.scheduler ref in
            let (same, more) = ops.submit_counts s.scheduler ref in
            let (done, total) = ops.acquire_counts t in
            rw (h, begin)
              (settled-Counted s start acquired_at (ops.acquire t) (done.0 ∙ same.0 ∙ c.completed)
                (omega (arith, total, more, c.on_their_way)) (omega (arith, room)))
      ]

  wakes-Counted :
      (s : Simulation F S) (start : Start F) (others : List (Start F)) (acquired_at : F)
      → length s.blocked ≡ suc (length others)
      → Counted s
      → Counted (
          settled ops id_of max_tokens_of concurrency
            (record s { blocked = others })
            start
            acquired_at
            (ops.acquire s.scheduler))
  wakes-Counted s start others acquired_at e c =
      let (done, total) = ops.acquire_counts s.scheduler in
      settled-Counted (record s { blocked = others }) start acquired_at (ops.acquire s.scheduler)
        (done.0 ∙ c.completed) (omega (arith, total, c.on_their_way, e)) (omega (arith, c.limit, e))

  complete_moves :
      (b : BaseScheduler F)
      → ((count_complete b true).total_completed ≡ b.total_completed + 1)
        × ((count_complete b true).total_scheduled ≡ b.total_scheduled)
  unfolding count_complete
  complete_moves b = (refl, refl)

  finish-Counted :
      (s : Simulation F S) (svc_ms : F) (w : Service F) (others : List (Service F))
      → length s.running ≡ suc (length others)
      → Counted s
      → Counted (finish ops id_of max_tokens_of concurrency s svc_ms w others)
  unfolding finish
  finish-Counted s svc_ms w others e c =
      let counted = ops.complete_counts s.scheduler (id_of w.acquired) true in
      let (one, same) = complete_moves (ops.base s.scheduler) in
      record {
        completed = omega (
          arith,
          ap (λ (b : BaseScheduler F). b.total_completed) counted,
          one,
          c.completed,
          length-append s.metrics (_ ∷ []),
        );
        on_their_way = omega (
          arith,
          ap (λ (b : BaseScheduler F). b.total_scheduled) counted,
          same,
          c.on_their_way,
          e,
          length-append s.metrics (_ ∷ []),
        );
        limit = omega (arith, c.limit, e);
      }

  step-Counted :
      (s : Simulation F S) (e : Event F)
      → Counted s
      → Counted (step ops id_of max_tokens_of concurrency s e)
  unfolding step
  step-Counted s (begins ref start acquired_at) c = begin-Counted s ref start acquired_at c
  step-Counted s (wakes place acquired_at) c = elim (Option-cases (take_at s.blocked place)) [
    | inl f ↦ rw (f, step) c
    | inr ((start, others), f) ↦
        rw (f, step)
          (wakes-Counted s start others acquired_at (length-take_at s.blocked place start others f)
            c)
  ]
  step-Counted s (ends place svc_ms) c = elim (Option-cases (take_at s.running place)) [
    | inl f ↦ rw (f, step) c
    | inr ((w, others), f) ↦
        rw (f, step)
          (finish-Counted s svc_ms w others (length-take_at s.running place w others f) c)
  ]

  -- Over any scheduler that has counted nothing yet, however the workers interleave: every request
  -- that was scheduled was measured or has a worker on its way, at most as many workers are on their
  -- way as the semaphore allows, and what the scheduler counts as completed is what was measured.
  pub run-Counted :
      (scheduler : S) (events : List (Event F))
      → (ops.base scheduler).total_completed ≡ 0
      → (ops.base scheduler).total_scheduled ≡ 0
      → Counted (
          run ops id_of max_tokens_of concurrency
            (init ops id_of max_tokens_of concurrency scheduler)
            events)
  unfolding init run
  run-Counted scheduler events c t =
      go (record { scheduler = scheduler; blocked = []; running = []; metrics = [] }) events
        (record { completed = c; on_their_way = omega (arith, t); limit = omega arith })
    where
      go :
          (s : Simulation F S) (events : List (Event F))
          → Counted s
          → Counted (run ops id_of max_tokens_of concurrency s events)
      go s [] c = c
      go s (e ∷ events) c =
          go (step ops id_of max_tokens_of concurrency s e) events (step-Counted s e c)
