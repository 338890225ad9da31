-- ===== src/Gateway/Dispatch/Conservation.antt =====
-- python/scheduler/gateway.py with python/scheduler/fcfs_scheduler.py: where the requests are.
use mathlib.Core.Path.{subst}
use ai_infrastructure_platfo.Prelude.{
  ℕ, zero, suc, ◌+◌, ◌≡◌, refl, sym, ap, Bool, true, false, some, List, [], ◌∷◌, arith, length,
  length-append, if◌then◌else◌, Option-cases, inl, inr,
}
use ai_infrastructure_platfo.Floats.{Floats}
use ai_infrastructure_platfo.Scheduler.Base.{scheduled, count_complete}
use ai_infrastructure_platfo.Scheduler.Fcfs.{FcfsScheduler}
use ai_infrastructure_platfo.Scheduler.Fcfs
use ai_infrastructure_platfo.Scheduler.Oracle.Interface.{
  Scheduling, fcfs_scheduling, fcfs_acquire, fcfs_acquired,
}
use ai_infrastructure_platfo.Gateway.State.{Gateway, Backend, forward_request}
use ai_infrastructure_platfo.Gateway.Forward.{forward_request-counts, succeeded}
use ai_infrastructure_platfo.Gateway.Dispatch.{
  System, Event, chats, streams, gives_up, dispatches, answers, take_at, taken_up, round, dispatch,
  step, run,
}
use ai_infrastructure_platfo.Gateway.Dispatch.Agreement.{
  Moved, submit_chat-Moved, submit_chat_stream-Moved, timed_out-Moved,
}

length-take_at :
    (xs : List ℕ) (place x : ℕ) (rest : List ℕ)
    → take_at xs place ≡ some (x, rest)
    → length xs ≡ suc (length rest)
unfolding take_at
length-take_at [] place x rest e = cc
length-take_at (y ∷ xs) zero x rest e = ground arith
length-take_at (y ∷ xs) (suc place) x rest e = elim (Option-cases (take_at xs place)) [
  | inl f ↦ cc (rw (f, take_at) at e)
  | inr ((z, zs), f) ↦ ground (arith, length-take_at xs place z zs f)
]

one_counted : (b : Bool) → (if b then 1 else 0) + (if b then 0 else 1) ≡ 1
one_counted true = omega arith
one_counted false = omega arith

module _ {F : Type 0} ⦃fl : Floats F⦄ (id_of : ℕ → ℕ) where
  abbrev pub fcfs_ops : Scheduling F (FcfsScheduler F ℕ)
  fcfs_ops = fcfs_scheduling id_of

  -- What was scheduled waits in the queue, is with the server, or came to a success or an error.
  pub record Conserves (sys : System (FcfsScheduler F ℕ)) (s : FcfsScheduler F ℕ) : Type 0 where
    pub there : sys.gateway.scheduler ≡ some s
    pub kept :
        s.base.total_scheduled
        ≡ length s.queue
          + (length sys.in_flight
              + (sys.gateway.metrics.requests_success + sys.gateway.metrics.requests_error))

  abbrev pub Conserved : System (FcfsScheduler F ℕ) → Type 0
  Conserved sys = (s : FcfsScheduler F ℕ) × Conserves sys s

  -- A step of a client, after which the queue is longer by as much as was scheduled.
  Moved-Conserves :
      (sys : System (FcfsScheduler F ℕ)) (g : Gateway (FcfsScheduler F ℕ)) (s t : FcfsScheduler F ℕ)
      (lost more : ℕ)
      → Conserves sys s
      → Moved fcfs_ops id_of sys.gateway g t lost
      → t.base.total_scheduled ≡ s.base.total_scheduled + more
      → length t.queue ≡ length s.queue + more
      → Conserves (record sys { gateway = g }) t
  Moved-Conserves sys g s t lost more c m d q = record {
    there = m.0;
    kept = omega (arith, c.kept, m.1, m.2);
  }

  submit_grows :
      (s : FcfsScheduler F ℕ) (k ref : ℕ)
      → (length (Fcfs.submit s k ref).queue ≡ length s.queue + 1)
        × ((Fcfs.submit s k ref).base.total_scheduled ≡ s.base.total_scheduled + 1)
  unfolding Fcfs.submit scheduled
  submit_grows s k ref = (omega (arith, length-append s.queue (ref ∷ [])), refl)

  cancel_keeps :
      (s : FcfsScheduler F ℕ) (k : ℕ)
      → (length (Fcfs.cancel s k).0.queue ≡ length s.queue + 0)
        × ((Fcfs.cancel s k).0.base.total_scheduled ≡ s.base.total_scheduled + 0)
  unfolding Fcfs.cancel
  cancel_keeps s k = ground arith

  taken_up-Conserves :
      (sys : System (FcfsScheduler F ℕ)) (s : FcfsScheduler F ℕ)
      → Conserves sys s
      → Conserved (taken_up fcfs_ops id_of sys (fcfs_acquire s))
  unfolding taken_up
  taken_up-Conserves sys s c = elim (fcfs_acquired s) [
    | inl (_, e) ↦ (s, rw e (record { there = refl; kept = c.kept }))
    | inr (ref, rest, q, e) ↦ (
      record s { queue = rest },
      rw e (record {
        there = refl;
        kept = omega (arith, c.kept, ap length q, length-append sys.in_flight (ref ∷ []));
      }),
    )
  ]

  round-Conserved :
      (sys : System (FcfsScheduler F ℕ)) (s : FcfsScheduler F ℕ)
      → Conserves sys s
      → (running : Bool) → Conserved (round fcfs_ops id_of sys (some s) running)
  unfolding round fcfs_scheduling
  round-Conserved sys s c false = (s, c)
  round-Conserved sys s c true = taken_up-Conserves sys s c

  complete_keeps :
      (s : FcfsScheduler F ℕ) (k : ℕ) (b : Bool)
      → ((Fcfs.complete s k b).queue ≡ s.queue)
        × ((Fcfs.complete s k b).base.total_scheduled ≡ s.base.total_scheduled)
  unfolding Fcfs.complete count_complete
  complete_keeps s k true = (refl, refl)
  complete_keeps s k false = (refl, refl)

  answered-Conserves :
      (sys : System (FcfsScheduler F ℕ)) (s : FcfsScheduler F ℕ) (ref : ℕ) (others : List ℕ)
      (b : Backend)
      → Conserves sys s
      → length sys.in_flight ≡ suc (length others)
      → Conserves
          (record {
            gateway = forward_request fcfs_ops sys.gateway (id_of ref) b;
            in_flight = others;
          })
          (Fcfs.complete s (id_of ref) (succeeded b))
  unfolding fcfs_scheduling
  answered-Conserves sys s ref others b c e =
      let (there, _, successes, errors) =
        forward_request-counts fcfs_ops sys.gateway s (id_of ref) b c.there in
      let (queue, counts) = complete_keeps s (id_of ref) (succeeded b) in
      record {
        there = there;
        kept = omega (
          arith,
          c.kept,
          one_counted (succeeded b),
          successes,
          errors,
          ap length queue,
          counts,
          e,
        );
      }

  step-Conserved :
      (sys : System (FcfsScheduler F ℕ)) (e : Event)
      → Conserved sys
      → Conserved (step fcfs_ops id_of sys e)
  unfolding step dispatch fcfs_scheduling
  step-Conserved sys (chats ref) (s, c) =
      let (queue, counts) = submit_grows s (id_of ref) ref in
      (
        Fcfs.submit s (id_of ref) ref,
        Moved-Conserves sys _ s _ 0 1 c
            (submit_chat-Moved fcfs_ops id_of sys.gateway (id_of ref) ref s c.there) counts queue,
      )
  step-Conserved sys (streams ref) (s, c) =
      let (queue, counts) = submit_grows s (id_of ref) ref in
      (
        Fcfs.submit s (id_of ref) ref,
        Moved-Conserves sys _ s _ 0 1 c
            (submit_chat_stream-Moved fcfs_ops id_of sys.gateway (id_of ref) ref s c.there) counts
            queue,
      )
  step-Conserved sys (gives_up k) (s, c) =
      let (queue, counts) = cancel_keeps s k in
      (
        (Fcfs.cancel s k).0,
        Moved-Conserves sys _ s _ 1 0 c (timed_out-Moved fcfs_ops id_of sys.gateway k s c.there)
            counts queue,
      )
  step-Conserved sys dispatches (s, c) =
      subst (λ o. Conserved (round fcfs_ops id_of sys o sys.gateway.running)) (sym c.there)
        (round-Conserved sys s c sys.gateway.running)
  step-Conserved sys (answers place backend) (s, c) =
      elim (Option-cases (take_at sys.in_flight place)) [
        | inl e ↦ (s, rw (e, step) c)
        | inr ((ref, others), e) ↦ (
          Fcfs.complete s (id_of ref) (succeeded backend),
          rw (e, step)
              (answered-Conserves sys s ref others backend c
                (length-take_at sys.in_flight place ref others e)),
        )
      ]

  -- Over a first-come-first-served scheduler, whatever clients send and give up, workers dispatch and
  -- the server answers, in any order: every request that was scheduled waits in the queue, is with the
  -- server, or was counted once, as a success or as an error.
  pub run-Conserved :
      (sys : System (FcfsScheduler F ℕ)) (events : List Event)
      → Conserved sys
      → Conserved (run fcfs_ops id_of sys events)
  unfolding run
  run-Conserved sys [] c = c
  run-Conserved sys (e ∷ events) c =
      run-Conserved (step fcfs_ops id_of sys e) events (step-Conserved sys e c)
