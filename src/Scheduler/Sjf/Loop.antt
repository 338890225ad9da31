-- ===== src/Scheduler/Sjf/Loop.antt =====
-- python/scheduler/sjf_scheduler.py: the rounds of `_aging_loop`, and histories of calls.
use ai_infrastructure_platfo.Prelude.{ℕ, String, Bool, Option, List, [], ◌∷◌, nat_eq, if◌then◌else◌}
use ai_infrastructure_platfo.Floats.{Floats}
use ai_infrastructure_platfo.Heapq.{Heapq}
use ai_infrastructure_platfo.Queue.{item_lt, update_priority}
use ai_infrastructure_platfo.Queue.Runs.{Round}
use ai_infrastructure_platfo.Scheduler.Aging.{AgingConfig, boost}
use ai_infrastructure_platfo.Scheduler.Sjf.State.{
  SjfScheduler, store, start, stop, submit, acquire, complete, cancel, on_reload,
}
use ai_infrastructure_platfo.Predictor.Result.{PredictionResult}

-- A call of a method with the arguments and times that it reads, or a round of the aging loop.
pub data Call (F : Type 0) : Type 0 where
  starts stops : Call F
  submits : (t0 t1 now : F) (ref : ℕ) → Call F
  acquires :
      (now : F) (timeout : Option F) (rounds : List (Round F ℕ)) (arrived : List ℕ) (expired : Bool)
      → Call F
  completes : (request_id : ℕ) (success : Bool) → Call F
  cancels : (request_id : ℕ) → Call F
  reloads : (aging : Option (AgingConfig F)) (fallback : Option Bool) → Call F
  ages : (now : F) → Call F

module _ {F : Type 0} ⦃fl : Floats F⦄ ⦃hq : Heapq (item_lt {F = F} {P = ℕ})⦄ where
  -- The lines under `new_priority = ...`.
  unfoldable pub lower_priority : SjfScheduler F → ℕ → ℕ → F → SjfScheduler F
  unfolding store update_priority
  lower_priority s req_id ref new_priority =
      if fl.lt new_priority (fl.sub (s.objects ref).priority (fl.lit 1 2))
      then record s {
        queue = (update_priority s.queue req_id new_priority).0;
        objects = store s.objects ref (record (s.objects ref) { priority = new_priority });
      }
      else s

  -- The body of the `for` loop.
  unfoldable pub age : F → SjfScheduler F → ℕ × ℕ → SjfScheduler F
  unfolding cancel boost lower_priority
  age now s (req_id, ref) =
      if fl.lt s.timeout (fl.sub now (s.objects ref).enqueue_time)
      then (cancel s req_id).0
      else lower_priority s req_id ref
          (boost s.aging (fl.sub now (s.objects ref).enqueue_time) (s.objects ref).priority)

  unfoldable pub age_all : F → SjfScheduler F → List (ℕ × ℕ) → SjfScheduler F
  unfolding age
  age_all now s [] = s
  age_all now s (entry ∷ entries) = age_all now (age now s entry) entries

  -- One round of `_aging_loop`, over a copy of the pending table.
  unfoldable pub aging_round : F → SjfScheduler F → SjfScheduler F
  unfolding age_all
  aging_round now s = age_all now s s.pending

  module _ (predict : String → Option (PredictionResult F)) where
    unfoldable pub step : SjfScheduler F → Call F → SjfScheduler F
    unfolding start stop
    step s starts = start s
    step s stops = stop s
    step s (submits t0 t1 now ref) = submit predict t0 t1 now s ref
    step s (acquires now timeout rounds arrived expired) =
        (acquire now timeout rounds arrived expired s).1
    step s (completes request_id success) = complete s request_id success
    step s (cancels request_id) = (cancel s request_id).0
    step s (reloads aging fallback) = on_reload s aging fallback
    step s (ages now) = aging_round now s

    unfoldable pub run : SjfScheduler F → List (Call F) → SjfScheduler F
    unfolding step
    run s [] = s
    run s (c ∷ cs) = run (step s c) cs
