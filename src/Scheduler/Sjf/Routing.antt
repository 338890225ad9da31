-- ===== src/Scheduler/Sjf/Routing.antt =====
-- python/scheduler/sjf_scheduler.py: where a request goes, and which one comes out.
use ai_infrastructure_platfo.Prelude.{
  ℕ, ◌+◌, ◌≡◌, String, Bool, true, false, ◌&&◌, Option, none, some, List, ◌∷◌, arith, nat_eq,
  ==_iff,
}
use ai_infrastructure_platfo.Prelude.Counts.{NoneOf}
use ai_infrastructure_platfo.Floats.{Floats, FloatOrder, truthy}
use ai_infrastructure_platfo.Dict
use ai_infrastructure_platfo.Heapq.{Heapq, IsHeap}
use ai_infrastructure_platfo.Queue.{PrioritizedItem, item_lt, next_item}
use ai_infrastructure_platfo.Queue
use ai_infrastructure_platfo.Queue.Runs.{Round, dequeue, dequeue_from}
use ai_infrastructure_platfo.Queue.Order.{is_live, Distinct, next_item-Least}
use ai_infrastructure_platfo.Scheduler.Base.{scheduled}
use ai_infrastructure_platfo.Scheduler.Fcfs.{FcfsScheduler, got}
use ai_infrastructure_platfo.Scheduler.Fcfs
use ai_infrastructure_platfo.Scheduler.Sjf.State.{
  SjfScheduler, store, active_fallback, predict_step, route, submit, acquire,
}
use ai_infrastructure_platfo.Predictor.Result.{PredictionResult}

module _ {F : Type 0} ⦃fl : Floats F⦄ ⦃hq : Heapq (item_lt {F = F} {P = ℕ})⦄
    (predict : String → Option (PredictionResult F)) (t0 t1 now : F) (s : SjfScheduler F)
    (ref : ℕ) where
  -- Without a fallback in use and with a prediction made, the request is queued by its predicted
  -- length, becomes pending under its id, and is counted; the prediction is written to the object.
  pub submit_predicted :
      (pred : PredictionResult F)
      → truthy (s.objects ref).predicted_tokens ≡ false
      → predict (s.objects ref).prompt ≡ some pred
      → active_fallback s ≡ none
      → ((submit predict t0 t1 now s ref).queue
          ≡ Queue.enqueue now s.queue (s.objects ref).request_id pred.predicted_tokens ref)
        × ((submit predict t0 t1 now s ref).pending
            ≡ Dict.put s.pending (s.objects ref).request_id ref)
        × (((submit predict t0 t1 now s ref).objects ref).priority ≡ pred.predicted_tokens)
        × ((submit predict t0 t1 now s ref).base.total_scheduled ≡ s.base.total_scheduled + 1)
  unfolding submit predict_step route active_fallback store scheduled
  submit_predicted pred u e f = ground (arith, ==_iff ref ref)

  -- Where the predictor raises and there is a fallback scheduler, the request goes to its queue with
  -- `max_tokens` for the prediction, and the priority queue stays as it was.
  pub submit_raised :
      (fallback : FcfsScheduler F ℕ)
      → truthy (s.objects ref).predicted_tokens ≡ false
      → predict (s.objects ref).prompt ≡ none
      → s.fcfs_fallback ≡ some fallback
      → ((submit predict t0 t1 now s ref).fcfs_fallback
          ≡ some (Fcfs.submit fallback (s.objects ref).request_id ref))
        × ((submit predict t0 t1 now s ref).queue ≡ s.queue)
        × (((submit predict t0 t1 now s ref).objects ref).predicted_tokens
            ≡ fl.lit (s.objects ref).max_tokens 0)
        × ((submit predict t0 t1 now s ref).use_fallback ≡ true)
  unfolding submit predict_step route active_fallback store scheduled
  submit_raised fallback u e f = ground (arith, ==_iff ref ref)

module _ {F : Type 0} ⦃fl : Floats F⦄ ⦃hq : Heapq (item_lt {F = F} {P = ℕ})⦄
    (fo : FloatOrder fl) where
  -- Shortest job first: with no fallback in use, a heap with distinct ids and an item found at once,
  -- `acquire` gives out the request of an item that was not cancelled and that no other item that
  -- was not cancelled comes before.
  pub acquire_shortest :
      (now : F) (timeout : Option F) (r : Round F ℕ) (rs : List (Round F ℕ)) (arrived : List ℕ)
      (expired : Bool) (s : SjfScheduler F) (item : PrioritizedItem F ℕ)
      → active_fallback s ≡ none
      → IsHeap item_lt s.queue.heap
      → Distinct s.queue.heap
      → (next_item r.popped_at s.queue).0 ≡ some item
      → ((acquire now timeout (r ∷ rs) arrived expired s).0 ≡ got item.payload)
        × NoneOf (λ y. item_lt y item && is_live s.queue.cancelled y) s.queue.heap
        × (Dict.contains s.queue.cancelled item.request_id ≡ false)
  unfolding acquire dequeue dequeue_from
  acquire_shortest now timeout r rs arrived expired s item f h d e =
      let least = next_item-Least fo r.popped_at s.queue item h d e in
      (rw (f, e, acquire, dequeue_from), least.0, least.1)
