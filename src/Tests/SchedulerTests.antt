-- ===== src/Tests/SchedulerTests.antt =====
-- python/scheduler: runs of the schedulers.
use ai_infrastructure_platfo.Prelude.{ℕ, ◌≡◌, refl, true, false, some, List, [], ◌∷◌, nat_eq}
use ai_infrastructure_platfo.Prelude.Int.{ℤ, pos}
use ai_infrastructure_platfo.Floats.Laws.{Le}
use ai_infrastructure_platfo.Floats.Fixed.{fixed, fixed-FloatOrder, fixed-FloatArith}
use ai_infrastructure_platfo.Dict
use ai_infrastructure_platfo.Scheduler.Fcfs.{FcfsScheduler, Acquired, got}
use ai_infrastructure_platfo.Scheduler.Fcfs
use ai_infrastructure_platfo.Scheduler.Fcfs.Order.{
  submit_all, acquire_all, acquire_all-submit_all, acquire-cancel,
}
use ai_infrastructure_platfo.Scheduler.Aging.{AgingConfig, default_config, create_aging, boost}
use ai_infrastructure_platfo.Scheduler.Aging.Bounds.{boost_bounds, boost_mono}
use ai_infrastructure_platfo.Scheduler.Aging
use ai_infrastructure_platfo.Tests.Setup.{float, test_heap}

abbrev pub no_requests : FcfsScheduler ℤ ℕ
no_requests = record {
  base = record {
    name = "fcfs";
    total_scheduled = 0;
    total_completed = 0;
    total_errors = 0;
    feature_latencies = [];
    predict_latencies = [];
    schedule_latencies = [];
  };
  queue = [];
  pending = [];
  total_cancelled = 0;
}

abbrev arrivals : List (ℕ × ℕ)
arrivals = (1, 11) ∷ (2, 12) ∷ []

acquire_all-submit_all_example :
    acquire_all 2 (submit_all no_requests arrivals) ≡ got 11 ∷ got 12 ∷ []
acquire_all-submit_all_example = acquire_all-submit_all no_requests arrivals refl

abbrev two_waiting : FcfsScheduler ℤ ℕ
two_waiting = record no_requests { queue = 11 ∷ 12 ∷ []; pending = arrivals }

two_waiting-pending : Dict.has two_waiting.pending 1 ≡ true
unfolding Dict.has Dict.get
two_waiting-pending = refl

acquire-cancel_example :
    ((Fcfs.cancel two_waiting 1).1 ≡ true)
    × (Dict.has (Fcfs.cancel two_waiting 1).0.pending 1 ≡ false)
    × ((Fcfs.acquire (Fcfs.cancel two_waiting 1).0 (some (float 1)) [] true).0
        ≡ (Fcfs.acquire two_waiting (some (float 1)) [] true).0)
acquire-cancel_example = acquire-cancel two_waiting 1 (some (float 1)) [] true two_waiting-pending

-- `AgingConfig()`
abbrev pub aging : AgingConfig ℤ
aging = record {
  policy = Aging.linear;
  factor = pos 1;
  max_boost = float 500;
  base_priority = float 0;
}

boost_bounds_example :
    Le (fixed.sub (float 90) (float 500)) (boost (create_aging aging) (float 7) (float 90))
    × Le (boost (create_aging aging) (float 7) (float 90)) (float 90)
boost_bounds_example =
    boost_bounds fixed-FloatOrder fixed-FloatArith aging refl (float 90) (float 7) refl refl

boost_mono_example :
    Le
      (boost (create_aging aging) (float 9) (float 90))
      (boost (create_aging aging) (float 7) (float 90))
boost_mono_example =
    boost_mono fixed-FloatOrder fixed-FloatArith aging refl (float 90) (float 7) (float 9) refl
