-- ===== src/Scheduler/Oracle/Interface.antt =====
-- python/scheduler/base_scheduler.py: what the gateway uses of a scheduler, and the three classes
-- that give it.
use ai_infrastructure_platfo.Prelude.{
  List-cases, ℕ, ◌+◌, ◌≡◌, ◌⊎◌, inl, inr, refl, String, Bool, true, Option, some, none, List, [],
  ◌∷◌, arith,
}
use ai_infrastructure_platfo.Floats.{Floats}
use ai_infrastructure_platfo.Heapq.{Heapq}
use ai_infrastructure_platfo.Queue.{item_lt}
use ai_infrastructure_platfo.Scheduler.Base.{
  BaseScheduler, record_timing, scheduled, count_complete,
}
use ai_infrastructure_platfo.Scheduler.Fcfs.{
  FcfsScheduler, Acquired, got, timed_out, waiting, take_front,
}
use ai_infrastructure_platfo.Scheduler.Fcfs
use ai_infrastructure_platfo.Queue.Runs.{Round}
use ai_infrastructure_platfo.Scheduler.Sjf.{SjfScheduler, predict_step, route}
use ai_infrastructure_platfo.Scheduler.Sjf
use ai_infrastructure_platfo.Scheduler.Oracle.{OracleScheduler}
use ai_infrastructure_platfo.Scheduler.Oracle
use ai_infrastructure_platfo.Predictor.Result.{PredictionResult}

-- The counters that `complete` moves, and the one that `submit` moves, are as they were.
abbrev pub SameDone : {F : Type 0} → BaseScheduler F → BaseScheduler F → Type 0
SameDone b c = (b.total_completed ≡ c.total_completed) × (b.total_errors ≡ c.total_errors)

abbrev pub SameCounts : {F : Type 0} → BaseScheduler F → BaseScheduler F → Type 0
SameCounts b c = SameDone b c × (b.total_scheduled ≡ c.total_scheduled)

-- What `acquire` gave, if it did not time out.
abbrev taken : {S : Type 0} → Acquired ℕ × S → Option ℕ × S
taken (got ref, s) = (some ref, s)
taken (timed_out, s) = (none, s)
taken (waiting, s) = (none, s)

-- `S` is the scheduler's state, and requests are references.
pub record Scheduling (F S : Type 0) : Type 0 where
  pub submit : S → ℕ → S
  -- `acquire(timeout=1.0)`: `none` is the `TimeoutError`.
  pub acquire : S → Option ℕ × S
  pub complete : S → ℕ → Bool → S
  pub cancel : S → ℕ → S × Bool
  pub queue_depth : S → ℕ
  pub base : S → BaseScheduler F
  -- `complete` counts one completion, or one error, in the scheduler's own counters.
  pub complete_counts :
      (s : S) (request_id : ℕ) (success : Bool)
      → base (complete s request_id success) ≡ count_complete (base s) success
  -- `submit` counts one request as scheduled, and nothing else moves the counters.
  pub submit_counts :
      (s : S) (ref : ℕ)
      → SameDone (base (submit s ref)) (base s)
        × ((base (submit s ref)).total_scheduled ≡ (base s).total_scheduled + 1)
  pub acquire_counts : (s : S) → SameCounts (base (acquire s).1) (base s)
  pub cancel_counts : (s : S) (request_id : ℕ) → SameCounts (base (cancel s request_id).0) (base s)

module _ {F : Type 0} where
  pub fcfs_counts :
      (s : FcfsScheduler F ℕ) (request_id : ℕ) (success : Bool)
      → (Fcfs.complete s request_id success).base ≡ count_complete s.base success
  unfolding Fcfs.complete
  fcfs_counts s request_id success = refl

  sjf_counts :
      (s : SjfScheduler F) (request_id : ℕ) (success : Bool)
      → (Sjf.complete s request_id success).base ≡ count_complete s.base success
  unfolding Sjf.complete
  sjf_counts s request_id success = refl

  pub oracle_counts :
      (s : OracleScheduler F) (request_id : ℕ) (success : Bool)
      → (Oracle.complete s request_id success).base ≡ count_complete s.base success
  unfolding Oracle.complete
  oracle_counts s request_id success = refl

  pub fcfs_cancel : (s : FcfsScheduler F ℕ) (k : ℕ) → SameCounts (Fcfs.cancel s k).0.base s.base
  unfolding Fcfs.cancel
  fcfs_cancel s k = ground arith

  sjf_cancel : (s : SjfScheduler F) (k : ℕ) → SameCounts (Sjf.cancel s k).0.base s.base
  unfolding Sjf.cancel
  sjf_cancel s k = ((refl, refl), refl)

  pub oracle_cancel : (s : OracleScheduler F) (k : ℕ) → SameCounts (Oracle.cancel s k).0.base s.base
  unfolding Oracle.cancel
  oracle_cancel s k = ((refl, refl), refl)

  pub fcfs_submit :
      (s : FcfsScheduler F ℕ) (k ref : ℕ)
      → SameDone (Fcfs.submit s k ref).base s.base
        × ((Fcfs.submit s k ref).base.total_scheduled ≡ s.base.total_scheduled + 1)
  unfolding Fcfs.submit scheduled
  fcfs_submit s k ref = ((refl, refl), refl)

module _ {F : Type 0} ⦃fl : Floats F⦄ where
  -- The call waits for a second at an empty queue; what others submit meanwhile are later steps.
  abbrev pub fcfs_acquire : FcfsScheduler F ℕ → Option ℕ × FcfsScheduler F ℕ
  fcfs_acquire s = taken (Fcfs.acquire s (some (fl.lit 1 0)) [] true)

  pub fcfs_acquired :
      (s : FcfsScheduler F ℕ)
      → ((s.queue ≡ []) × (fcfs_acquire s ≡ (none, s)))
        ⊎ ((ref : ℕ) × (rest : List ℕ) × (s.queue ≡ ref ∷ rest)
            × (fcfs_acquire s ≡ (some ref, record s { queue = rest })))
  unfolding Fcfs.acquire take_front
  fcfs_acquired s = elim (List-cases s.queue) [
    | inl e ↦ inl (e, ground arith)
    | inr (ref, rest, e) ↦ inr (ref, rest, e, rw (e, Fcfs.acquire) refl)
  ]

  pub fcfs_acquire_counts : (s : FcfsScheduler F ℕ) → SameCounts (fcfs_acquire s).1.base s.base
  fcfs_acquire_counts s = elim (fcfs_acquired s) [
    | inl (_, e) ↦ rw e ((refl, refl), refl)
    | inr (ref, rest, _, e) ↦ rw e ((refl, refl), refl)
  ]

  -- The request ids are those of the objects that the references stand for.
  unfoldable pub fcfs_scheduling : (ℕ → ℕ) → Scheduling F (FcfsScheduler F ℕ)
  fcfs_scheduling id_of = record {
    submit = λ s ref. Fcfs.submit s (id_of ref) ref;
    acquire = fcfs_acquire;
    complete = Fcfs.complete;
    cancel = Fcfs.cancel;
    queue_depth = Fcfs.queue_depth;
    base = λ s. s.base;
    complete_counts = fcfs_counts;
    submit_counts = λ s ref. fcfs_submit s (id_of ref) ref;
    acquire_counts = fcfs_acquire_counts;
    cancel_counts = fcfs_cancel;
  }

module _ {F : Type 0} ⦃fl : Floats F⦄ ⦃hq : Heapq (item_lt {F = F} {P = ℕ})⦄ where
  -- With the predictor, the times of the next calls, and what `acquire` meets where it waits.
  module _ (predict : String → Option (PredictionResult F)) (t0 t1 now : F)
      (rounds : List (Round F ℕ)) where
    abbrev sjf_acquire : SjfScheduler F → Option ℕ × SjfScheduler F
    sjf_acquire s = taken (Sjf.acquire now (some (fl.lit 1 0)) rounds [] true s)

    sjf_submit :
        (s : SjfScheduler F) (ref : ℕ)
        → SameDone (Sjf.submit predict t0 t1 now s ref).base s.base
          × ((Sjf.submit predict t0 t1 now s ref).base.total_scheduled ≡ s.base.total_scheduled + 1)
    unfolding Sjf.submit predict_step route scheduled record_timing
    sjf_submit s ref = ground arith

    sjf_acquire_counts : (s : SjfScheduler F) → SameCounts (sjf_acquire s).1.base s.base
    unfolding Sjf.acquire
    sjf_acquire_counts s = ground arith

    unfoldable sjf_scheduling : Scheduling F (SjfScheduler F)
    sjf_scheduling = record {
      submit = Sjf.submit predict t0 t1 now;
      acquire = sjf_acquire;
      complete = Sjf.complete;
      cancel = Sjf.cancel;
      queue_depth = Sjf.queue_depth;
      base = λ s. s.base;
      complete_counts = sjf_counts;
      submit_counts = sjf_submit;
      acquire_counts = sjf_acquire_counts;
      cancel_counts = sjf_cancel;
    }

  module _ (now : F) (rounds : List (Round F ℕ)) where
    abbrev oracle_acquire : OracleScheduler F → Option ℕ × OracleScheduler F
    oracle_acquire s = taken (Oracle.acquire now (some (fl.lit 1 0)) rounds s)

    pub oracle_submit :
        (s : OracleScheduler F) (ref : ℕ)
        → SameDone (Oracle.submit now s ref).base s.base
          × ((Oracle.submit now s ref).base.total_scheduled ≡ s.base.total_scheduled + 1)
    unfolding Oracle.submit scheduled
    oracle_submit s ref = ((refl, refl), refl)

    pub oracle_acquire_counts :
        (s : OracleScheduler F) → SameCounts (oracle_acquire s).1.base s.base
    unfolding Oracle.acquire
    oracle_acquire_counts s = ground arith

    unfoldable pub oracle_scheduling : Scheduling F (OracleScheduler F)
    oracle_scheduling = record {
      submit = Oracle.submit now;
      acquire = oracle_acquire;
      complete = Oracle.complete;
      cancel = Oracle.cancel;
      queue_depth = Oracle.queue_depth;
      base = λ s. s.base;
      complete_counts = oracle_counts;
      submit_counts = oracle_submit;
      acquire_counts = oracle_acquire_counts;
      cancel_counts = oracle_cancel;
    }
