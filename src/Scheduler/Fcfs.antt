-- ===== src/Scheduler/Fcfs.antt =====
-- python/scheduler/fcfs_scheduler.py: the first-come-first-served scheduler. `R` is a reference to a
-- request. `asyncio.Queue` is a first-in-first-out list of what was put and not yet taken.
pub mod Order
use ai_infrastructure_platfo.Prelude.{
  ℕ, ◌+◌, ◌&&◌, Bool, true, false, Option, none, some, List, [], ◌∷◌, ◌++◌, length, nat_eq,
  if◌then◌else◌,
}
use ai_infrastructure_platfo.Floats.{Floats, truthy}
use ai_infrastructure_platfo.Dict
use ai_infrastructure_platfo.Scheduler.Base.{BaseScheduler, scheduled, count_complete}
use ai_infrastructure_platfo.Scheduler.Base

pub record FcfsScheduler (F R : Type 0) : Type 0 where
  pub base : BaseScheduler F
  pub queue : List R
  pub pending : List (ℕ × R)
  -- 0 until `cancel` creates the attribute
  pub total_cancelled : ℕ

-- What `acquire` comes to: a request, a timeout, or a wait that goes on.
pub data Acquired (R : Type 0) : Type 0 where
  got : R → Acquired R
  timed_out : Acquired R
  waiting : Acquired R

module _ {F R : Type 0} where
  unfoldable pub init : FcfsScheduler F R
  unfolding Base.init
  init = record { base = Base.init "fcfs"; queue = []; pending = []; total_cancelled = 0 }

  unfoldable pub submit : FcfsScheduler F R → ℕ → R → FcfsScheduler F R
  unfolding scheduled
  submit s request_id request = record s {
    pending = Dict.put s.pending request_id request;
    queue = s.queue ++ request ∷ [];
    base = scheduled s.base;
  }

  -- `self._queue.get()` of a queue that has an item
  unfoldable pub take_front : FcfsScheduler F R → List R → Option (R × FcfsScheduler F R)
  take_front s [] = none
  take_front s (r ∷ rest) = some (r, record s { queue = rest })

  -- `arrived` is put by others while the call waits at an empty queue; `expired` says whether its
  -- timeout, if it has one, passes before anything arrives.
  unfoldable pub acquire :
      ⦃fl : Floats F⦄
      → FcfsScheduler F R
      → Option F
      → List R
      → Bool
      → Acquired R × FcfsScheduler F R
  unfolding take_front
  acquire s timeout arrived expired = elim (take_front s s.queue) [
    | some (r, s') ↦ (got r, s')
    | none ↦ elim (take_front s arrived) [
      | some (r, s') ↦ (got r, s')
      | none ↦ elim timeout [
        | none ↦ (waiting, s)
        | some t ↦ (if truthy t && expired then timed_out else waiting, s)
      ]
    ]
  ]

  unfoldable pub complete : FcfsScheduler F R → ℕ → Bool → FcfsScheduler F R
  unfolding count_complete
  complete s request_id success = record s {
    pending = Dict.remove s.pending request_id;
    base = count_complete s.base success;
  }

  unfoldable pub cancel : FcfsScheduler F R → ℕ → FcfsScheduler F R × Bool
  cancel s request_id =
      if Dict.has s.pending request_id
      then (
        record s {
          pending = Dict.remove s.pending request_id;
          total_cancelled = s.total_cancelled + 1;
        },
        true,
      )
      else (s, false)

  unfoldable pub queue_depth : FcfsScheduler F R → ℕ
  queue_depth s = length s.queue
