-- ===== src/Tests/GatewayTests.antt =====
-- python/scheduler/gateway.py: one request at a gateway with the first-come-first-served scheduler.
use ai_infrastructure_platfo.Prelude.{
  List, ◌++◌, length, replicate, ℕ, ◌+◌, ◌≡◌, refl, true, false, some, [], ◌∷◌, nat_eq,
}
use ai_infrastructure_platfo.Prelude.Int.{ℤ}
use ai_infrastructure_platfo.Dict
use ai_infrastructure_platfo.Scheduler.Base
use ai_infrastructure_platfo.Scheduler.Base.{scheduled, count_complete}
use ai_infrastructure_platfo.Scheduler.Fcfs.{FcfsScheduler}
use ai_infrastructure_platfo.Scheduler.Fcfs
use ai_infrastructure_platfo.Scheduler.Oracle.Interface.{Scheduling, fcfs_scheduling}
use ai_infrastructure_platfo.Floats.Fixed.{fixed}
use ai_infrastructure_platfo.Gateway.{
  Gateway, Backend, replied, streamed, broken, unresolved, abandoned, submit_chat, timed_out,
  forward_request, respond, http_exception, init, startup, set_depth, set_future,
}
use ai_infrastructure_platfo.Gateway.Clients.{awaited, timeout_response, stream_read, stream_broken}
use ai_infrastructure_platfo.Gateway.Dispatch.{
  System, Event, chats, streams, gives_up, dispatches, answers, run,
}
use ai_infrastructure_platfo.Gateway.Dispatch.Agreement.{Agreeing, run-Agreeing}
use ai_infrastructure_platfo.Gateway.Dispatch.Conservation.{Conserved, run-Conserved}
use ai_infrastructure_platfo.Gateway.Dispatch.Served.{chat_served}

abbrev ops : Scheduling ℤ (FcfsScheduler ℤ ℕ)
ops = fcfs_scheduling (λ ref. ref)

-- A started gateway at which the request 7 waits.
abbrev waiting_gateway : Gateway (FcfsScheduler ℤ ℕ)
waiting_gateway = submit_chat ops (startup (init Base.fcfs "SmolLM3-3B" 4 false) Fcfs.init) 7 7

abbrev one_request : FcfsScheduler ℤ ℕ
one_request = Fcfs.submit Fcfs.init 7 7

waiting_gateway-future : Dict.get waiting_gateway.futures 7 ≡ some unresolved
unfolding submit_chat set_depth set_future startup init fcfs_scheduling Dict.put Dict.get
waiting_gateway-future = refl

waiting_gateway-scheduler : waiting_gateway.scheduler ≡ some one_request
unfolding submit_chat set_depth set_future startup init fcfs_scheduling
waiting_gateway-scheduler = refl

abbrev overloaded : Backend
overloaded = replied 503 [] "overloaded"

-- The request 5 is with the server and the request 7 in the queue.
abbrev busy : System (FcfsScheduler ℤ ℕ)
busy = record { gateway = waiting_gateway; in_flight = 5 ∷ [] }

waiting_gateway-running : waiting_gateway.running ≡ true
unfolding submit_chat set_depth set_future startup init fcfs_scheduling
waiting_gateway-running = refl

chat_served_example :
    respond (
      awaited (
        Dict.get
          (run ops
            (λ ref. ref)
            busy
            (chats 9
              ∷ (replicate (length (one_request.queue ++ 9 ∷ [])) dispatches
                  ++ answers (length (busy.in_flight ++ one_request.queue)) overloaded
                    ∷ []))).gateway.futures
          9))
    ≡ http_exception 502 "overloaded"
chat_served_example =
    chat_served (λ ref. ref) busy one_request 9 overloaded waiting_gateway-running
      waiting_gateway-scheduler refl

-- A stream, two rounds of a worker, a client that gives up, and the two answers.
abbrev events : List Event
events =
    streams 8
    ∷ dispatches
    ∷ gives_up 7
    ∷ dispatches
    ∷ answers 1 (streamed ("data: a" ∷ []))
    ∷ answers 0 overloaded
    ∷ []

waiting-Agreeing : Agreeing ops (λ ref. ref) waiting_gateway
unfolding submit_chat set_depth set_future startup init fcfs_scheduling Fcfs.submit Fcfs.init
waiting-Agreeing =
    (one_request, record { there = refl; successes = refl; errors = refl; drops = refl })

run-Agreeing_example : Agreeing ops (λ ref. ref) (run ops (λ ref. ref) busy events).gateway
run-Agreeing_example = run-Agreeing ops (λ ref. ref) busy events waiting-Agreeing

abbrev fresh : System (FcfsScheduler ℤ ℕ)
fresh = record { gateway = waiting_gateway; in_flight = [] }

fresh-Conserved : Conserved (λ ref. ref) fresh
unfolding submit_chat set_depth set_future startup init fcfs_scheduling Fcfs.submit Fcfs.init
    scheduled
fresh-Conserved = (one_request, record { there = refl; kept = refl })

run-Conserved_example : Conserved (λ ref. ref) (run ops (λ ref. ref) fresh events)
run-Conserved_example = run-Conserved (λ ref. ref) fresh events fresh-Conserved

timeout_response_example :
    ((timed_out ops waiting_gateway 7).scheduler ≡ some (ops.cancel one_request 7).0)
    × ((timed_out ops waiting_gateway 7).metrics.timeouts ≡ waiting_gateway.metrics.timeouts + 1)
    × ((timed_out ops waiting_gateway 7).metrics.dropped ≡ waiting_gateway.metrics.dropped + 1)
    × (Dict.get (forward_request ops (timed_out ops waiting_gateway 7) 7 overloaded).futures 7
        ≡ some abandoned)
    × (respond (awaited (Dict.get (timed_out ops waiting_gateway 7).futures 7))
        ≡ http_exception 504 "Request timed out")
timeout_response_example =
    timeout_response ops waiting_gateway one_request 7 overloaded waiting_gateway-future
      waiting_gateway-scheduler refl

stream_broken_example :
    stream_read ops waiting_gateway 9 9 (broken ("data: a" ∷ []) "reset")
    ≡ some ("data: a" ∷ [], false)
stream_broken_example = stream_broken ops waiting_gateway 9 9 ("data: a" ∷ []) "reset"
