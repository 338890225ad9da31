-- ===== src/Scheduler/Oracle/Perfect.antt =====
-- python/scheduler/sjf_scheduler.py: the oracle beside a shortest-job-first scheduler whose predictor
-- knows the true lengths.
use ai_infrastructure_platfo.Prelude.{
  ℕ, ◌≡◌, ap, String, false, Option, none, some, List, [], arith, nat_eq, ==_iff,
}
use ai_infrastructure_platfo.Floats.{Floats, truthy}
use ai_infrastructure_platfo.Heapq.{Heapq}
use ai_infrastructure_platfo.Queue.{item_lt}
use ai_infrastructure_platfo.Queue.Runs.{Round, dequeue}
use ai_infrastructure_platfo.Scheduler.Base.{scheduled}
use ai_infrastructure_platfo.Scheduler.Sjf.{
  SjfScheduler, store, active_fallback, predict_step, route, of_outcome,
}
use ai_infrastructure_platfo.Scheduler.Sjf
use ai_infrastructure_platfo.Scheduler.Oracle.{OracleScheduler, submit, acquire}
use ai_infrastructure_platfo.Predictor.Result.{PredictionResult}

module _ {F : Type 0} ⦃fl : Floats F⦄ ⦃hq : Heapq (item_lt {F = F} {P = ℕ})⦄ where
  -- With no fallback in use, an unpredicted request and a prediction that is its true length, the
  -- scheduler that predicts treats the request as the oracle does: from equal queues come equal
  -- queues, the request gets the same priority, and the next `acquire` gives both the same.
  pub submit-acquire :
      (predict : String → Option (PredictionResult F)) (t0 t1 now later : F) (timeout : Option F)
      (rounds : List (Round F ℕ)) (s : SjfScheduler F) (o : OracleScheduler F) (ref : ℕ)
      (pred : PredictionResult F)
      → s.queue ≡ o.queue
      → s.objects ref ≡ o.objects ref
      → truthy (s.objects ref).predicted_tokens ≡ false
      → predict (s.objects ref).prompt ≡ some pred
      → pred.predicted_tokens ≡ fl.lit (s.objects ref).max_tokens 0
      → active_fallback s ≡ none
      → ((Sjf.submit predict t0 t1 now s ref).queue ≡ (submit now o ref).queue)
        × (((Sjf.submit predict t0 t1 now s ref).objects ref).priority
            ≡ ((submit now o ref).objects ref).priority)
        × ((Sjf.acquire later timeout rounds [] false (Sjf.submit predict t0 t1 now s ref)).0
            ≡ (acquire later timeout rounds (submit now o ref)).0)
  unfolding Sjf.submit predict_step route active_fallback store scheduled submit acquire Sjf.acquire
  submit-acquire predict t0 t1 now later timeout rounds s o ref pred q same u e exact f =
      let queues : (Sjf.submit predict t0 t1 now s ref).queue ≡ (submit now o ref).queue =
        ground arith in
      let direct : active_fallback (Sjf.submit predict t0 t1 now s ref) ≡ none = ground arith in
      (
        queues,
        ground (arith, ==_iff ref ref),
        rw (direct, Sjf.acquire) (ap (λ r. of_outcome (dequeue later timeout r rounds).0) queues),
      )
