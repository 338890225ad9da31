-- ===== src/Gateway/Dispatch/Agreement.antt =====
-- python/scheduler/gateway.py: the counters of the metrics beside those of the scheduler.
use mathlib.Core.Path.{subst}
use ai_infrastructure_platfo.Prelude.{
  ℕ, ◌+◌, ◌≡◌, refl, sym, ap, ◌∙◌, Bool, true, false, Option, none, some, List, [], ◌∷◌, arith,
  if◌then◌else◌, Option-cases, inl, inr,
}
use ai_infrastructure_platfo.Scheduler.Base.{BaseScheduler, count_complete}
use ai_infrastructure_platfo.Scheduler.Oracle.Interface.{Scheduling, SameDone}
use ai_infrastructure_platfo.Gateway.State.{
  Gateway, Backend, replied, refused, streamed, broken, forward, count, settle, put_all, set_future,
  abandon, set_depth, submit_chat, submit_chat_stream, timed_out, forward_request,
}
use ai_infrastructure_platfo.Gateway.Forward.{forward_request-counts, succeeded}
use ai_infrastructure_platfo.Gateway.Dispatch.{
  System, Event, chats, streams, gives_up, dispatches, answers, take_at, taken_up, round, dispatch,
  step, run,
}

module _ {F S : Type 0} (ops : Scheduling F S) (id_of : ℕ → ℕ) where
  -- The gateway has the scheduler `s`, and its metrics count what the scheduler counts; every request
  -- that timed out is counted as dropped.
  pub record Agrees (g : Gateway S) (s : S) : Type 0 where
    pub there : g.scheduler ≡ some s
    pub successes : g.metrics.requests_success ≡ (ops.base s).total_completed
    pub errors : g.metrics.requests_error ≡ (ops.base s).total_errors
    pub drops : g.metrics.dropped ≡ g.metrics.timeouts

  -- With some scheduler.
  abbrev pub Agreeing : Gateway S → Type 0
  Agreeing g = (s : S) × Agrees g s

  -- The scheduler is `s` and the counters are what they were, but for a time out.
  abbrev pub Moved : Gateway S → Gateway S → S → ℕ → Type 0
  Moved g h s lost =
      (h.scheduler ≡ some s)
      × (h.metrics.requests_success ≡ g.metrics.requests_success)
      × (h.metrics.requests_error ≡ g.metrics.requests_error)
      × (h.metrics.timeouts ≡ g.metrics.timeouts + lost)
      × (h.metrics.dropped ≡ g.metrics.dropped + lost)

  Moved-Agrees :
      (g h : Gateway S) (s t : S) (lost : ℕ)
      → Agrees g s
      → Moved g h t lost
      → SameDone (ops.base t) (ops.base s)
      → Agrees h t
  Moved-Agrees g h s t lost a m d = ground arith

  pub submit_chat-Moved :
      (g : Gateway S) (k ref : ℕ) (s : S)
      → g.scheduler ≡ some s
      → Moved g (submit_chat ops g k ref) (ops.submit s ref) 0
  unfolding submit_chat set_depth set_future
  submit_chat-Moved g k ref s e = ground arith

  pub submit_chat_stream-Moved :
      (g : Gateway S) (k ref : ℕ) (s : S)
      → g.scheduler ≡ some s
      → Moved g (submit_chat_stream ops g k ref) (ops.submit s ref) 0
  unfolding submit_chat_stream
  submit_chat_stream-Moved g k ref s e = ground arith

  pub timed_out-Moved :
      (g : Gateway S) (k : ℕ) (s : S)
      → g.scheduler ≡ some s
      → Moved g (timed_out ops g k) (ops.cancel s k).0 1
  unfolding timed_out abandon set_future
  timed_out-Moved g k s e = ground arith

  forward_request_losses :
      (g : Gateway S) (k : ℕ) (b : Backend)
      → ((forward_request ops g k b).metrics.timeouts ≡ g.metrics.timeouts)
        × ((forward_request ops g k b).metrics.dropped ≡ g.metrics.dropped)
  unfolding forward_request forward count settle put_all set_depth set_future
  forward_request_losses g k (replied status_code json text) = ground arith
  forward_request_losses g k (refused message) = ground arith
  forward_request_losses g k (streamed chunks) = ground arith
  forward_request_losses g k (broken chunks message) = ground arith

  count_complete_moves :
      (b : BaseScheduler F) (success : Bool)
      → ((count_complete b success).total_completed
          ≡ b.total_completed + (if success then 1 else 0))
        × ((count_complete b success).total_errors ≡ b.total_errors + (if success then 0 else 1))
  unfolding count_complete
  count_complete_moves b true = (refl, omega arith)
  count_complete_moves b false = (omega arith, refl)

  forward_request-Agrees :
      (g : Gateway S) (k : ℕ) (b : Backend) (s : S)
      → Agrees g s
      → Agrees (forward_request ops g k b) (ops.complete s k (succeeded b))
  forward_request-Agrees g k b s a =
      let (there, counted, successes, errors) = forward_request-counts ops g s k b a.there in
      let losses = forward_request_losses g k b in
      let moved = count_complete_moves (ops.base s) (succeeded b) in
      record {
        there = there;
        successes =
            successes
            ∙ ap (λ n. n + (if succeeded b then 1 else 0)) a.successes
            ∙ sym moved.0
            ∙ sym (ap (λ (c : BaseScheduler F). c.total_completed) counted);
        errors =
            errors
            ∙ ap (λ n. n + (if succeeded b then 0 else 1)) a.errors
            ∙ sym moved.1
            ∙ sym (ap (λ (c : BaseScheduler F). c.total_errors) counted);
        drops = losses.1 ∙ a.drops ∙ sym losses.0;
      }

  taken_up-Agrees :
      (sys : System S) (p : Option ℕ × S) (s : S)
      → Agrees sys.gateway s
      → SameDone (ops.base p.1) (ops.base s)
      → Agrees (taken_up ops id_of sys p).gateway p.1
  unfolding taken_up
  taken_up-Agrees sys (none, t) s a d = ground arith
  taken_up-Agrees sys (some ref, t) s a d = ground arith

  round-Agreeing :
      (sys : System S) (s : S)
      → Agrees sys.gateway s
      → (running : Bool) → Agreeing (round ops id_of sys (some s) running).gateway
  unfolding round
  round-Agreeing sys s a false = (s, a)
  round-Agreeing sys s a true =
      ((ops.acquire s).1, taken_up-Agrees sys (ops.acquire s) s a (ops.acquire_counts s).0)

  step-Agreeing :
      (sys : System S) (e : Event) → Agreeing sys.gateway → Agreeing (step ops id_of sys e).gateway
  unfolding step dispatch
  step-Agreeing sys (chats ref) (s, a) = (
    ops.submit s ref,
    Moved-Agrees sys.gateway _ s _ 0 a (submit_chat-Moved sys.gateway (id_of ref) ref s a.there)
        (ops.submit_counts s ref).0,
  )
  step-Agreeing sys (streams ref) (s, a) = (
    ops.submit s ref,
    Moved-Agrees sys.gateway _ s _ 0 a
        (submit_chat_stream-Moved sys.gateway (id_of ref) ref s a.there)
        (ops.submit_counts s ref).0,
  )
  step-Agreeing sys (gives_up k) (s, a) = (
    (ops.cancel s k).0,
    Moved-Agrees sys.gateway _ s _ 1 a (timed_out-Moved sys.gateway k s a.there)
        (ops.cancel_counts s k).0,
  )
  step-Agreeing sys dispatches (s, a) =
      subst (λ o. Agreeing (round ops id_of sys o sys.gateway.running).gateway) (sym a.there)
        (round-Agreeing sys s a sys.gateway.running)
  step-Agreeing sys (answers place backend) (s, a) =
      elim (Option-cases (take_at sys.in_flight place)) [
        | inl e ↦ (s, rw (e, step) a)
        | inr ((ref, others), e) ↦ (
          ops.complete s (id_of ref) (succeeded backend),
          rw (e, step) (forward_request-Agrees sys.gateway (id_of ref) backend s a),
        )
      ]

  -- Whatever clients send and give up, workers dispatch and the server answers, in any order: the
  -- gateway keeps its scheduler, its metrics count the successes and errors that the scheduler counts,
  -- and every request that timed out is counted as dropped.
  pub run-Agreeing :
      (sys : System S) (events : List Event)
      → Agreeing sys.gateway
      → Agreeing (run ops id_of sys events).gateway
  unfolding run
  run-Agreeing sys [] a = a
  run-Agreeing sys (e ∷ events) a =
      run-Agreeing (step ops id_of sys e) events (step-Agreeing sys e a)
