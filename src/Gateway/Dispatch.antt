-- ===== src/Gateway/Dispatch.antt =====
-- python/scheduler/gateway.py: the dispatch loop of the workers, the tasks that it starts, and the
-- clients, as one system that steps; and the routes that report on the gateway.
pub mod Agreement
pub mod Conservation
pub mod Served
use mathlib.Core.Option
use ai_infrastructure_platfo.Prelude.{
  ℕ, zero, suc, String, Bool, true, false, ◌&&◌, ltb, Option, none, some, List, [], ◌∷◌, ◌++◌,
  if◌then◌else◌,
}
use ai_infrastructure_platfo.Floats.{Floats}
use ai_infrastructure_platfo.Scheduler.Base.{SchedulerStats, value}
use ai_infrastructure_platfo.Scheduler.Base
use ai_infrastructure_platfo.Scheduler.Oracle.Interface.{Scheduling}
use ai_infrastructure_platfo.Gateway.State.{
  Gateway, Backend, submit_chat, submit_chat_stream, timed_out, forward_request,
}

-- The gateway with the tasks of `_forward_request` that wait for the server, by request.
pub record System (S : Type 0) : Type 0 where
  pub gateway : Gateway S
  pub in_flight : List ℕ

-- A client's plain or streaming request, a client's time out, a round of a worker's loop, and the
-- server's answer to the task at a place.
pub data Event : Type 0 where
  chats : (ref : ℕ) → Event
  streams : (ref : ℕ) → Event
  gives_up : (request_id : ℕ) → Event
  dispatches : Event
  answers : (place : ℕ) (backend : Backend) → Event

-- What the route `ready` reports.
pub record Readiness : Type 0 where
  pub status : String
  pub scheduler : String
  pub queue_depth : ℕ
  pub vllm_backend : String

-- The element at a place, with the others.
unfoldable pub take_at : List ℕ → ℕ → Option (ℕ × List ℕ)
take_at [] place = none
take_at (x ∷ xs) zero = some (x, xs)
take_at (x ∷ xs) (suc place) = elim (take_at xs place) [
  | none ↦ none
  | some (y, ys) ↦ some (y, x ∷ ys)
]

-- `id_of` gives the request's id.
module _ {F S : Type 0} (ops : Scheduling F S) (id_of : ℕ → ℕ) where
  -- What the loop does with what `acquire` gave.
  unfoldable pub taken_up : System S → Option ℕ × S → System S
  taken_up sys (none, s) = record sys { gateway = record sys.gateway { scheduler = some s } }
  taken_up sys (some ref, s) = record sys {
    gateway = record sys.gateway { scheduler = some s };
    in_flight = sys.in_flight ++ ref ∷ [];
  }

  -- A round of `_dispatch_loop`, with the scheduler and the flag; after `shutdown` there is none.
  unfoldable pub round : System S → Option S → Bool → System S
  unfolding taken_up
  round sys none running = sys
  round sys (some s) false = sys
  round sys (some s) true = taken_up sys (ops.acquire s)

  unfoldable pub dispatch : System S → System S
  unfolding round
  dispatch sys = round sys sys.gateway.scheduler sys.gateway.running

  unfoldable pub step : System S → Event → System S
  unfolding dispatch submit_chat submit_chat_stream timed_out forward_request take_at
  step sys (chats ref) = record sys { gateway = submit_chat ops sys.gateway (id_of ref) ref }
  step sys (streams ref) = record sys {
    gateway = submit_chat_stream ops sys.gateway (id_of ref) ref;
  }
  step sys (gives_up request_id) = record sys { gateway = timed_out ops sys.gateway request_id }
  step sys dispatches = dispatch sys
  step sys (answers place backend) = elim (take_at sys.in_flight place) [
    | none ↦ sys
    | some (ref, others) ↦ record {
      gateway = forward_request ops sys.gateway (id_of ref) backend;
      in_flight = others;
    }
  ]

  unfoldable pub run : System S → List Event → System S
  unfolding step
  run sys [] = sys
  run sys (e ∷ events) = run (step sys e) events

  -- `SchedulerGateway.stats`: the scheduler's statistics, none without a scheduler, and its depth.
  unfoldable pub stats : ⦃fl : Floats F⦄ → Gateway S → Option (SchedulerStats F) × ℕ
  unfolding Base.stats
  stats g = elim g.scheduler [
    | none ↦ (none, 0)
    | some s ↦ (some (Base.stats (ops.base s) (ops.queue_depth s)), ops.queue_depth s)
  ]

  -- The route `ready`. The server's answer to `/health` is its status, or `none` where the call
  -- raises.
  unfoldable pub ready : Gateway S → Option ℕ → Readiness
  unfolding stats value
  ready g health =
      let backend_ok =
        g.client && elim health [ none ↦ false | some status_code ↦ ltb status_code 500 ] in
      record {
        status =
            if g.running && elim g.scheduler [ none ↦ false | some s ↦ true ]
            then "ready"
            else "starting";
        scheduler = value g.scheduler_type;
        queue_depth = elim g.scheduler [ none ↦ 0 | some s ↦ ops.queue_depth s ];
        vllm_backend = if backend_ok then "ok" else "unavailable";
      }
