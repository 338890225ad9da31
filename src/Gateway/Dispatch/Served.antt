-- ===== src/Gateway/Dispatch/Served.antt =====
-- python/scheduler/gateway.py with python/scheduler/fcfs_scheduler.py: from a client's request to its
-- response.
use mathlib.Core.List.{append_assoc, append-nil}
use ai_infrastructure_platfo.Prelude.{
  ℕ, ◌≡◌, refl, sym, ap, ◌∙◌, true, some, List, [], ◌∷◌, ◌++◌, arith, length, replicate, nat_eq,
}
use ai_infrastructure_platfo.Dict
use ai_infrastructure_platfo.Floats.{Floats}
use ai_infrastructure_platfo.Scheduler.Fcfs.{FcfsScheduler}
use ai_infrastructure_platfo.Scheduler.Fcfs
use ai_infrastructure_platfo.Scheduler.Oracle.Interface.{Scheduling, fcfs_scheduling}
use ai_infrastructure_platfo.Gateway.State.{
  Gateway, Backend, set_depth, set_future, submit_chat, forward_request, respond,
}
use ai_infrastructure_platfo.Gateway.Forward.{is_plain}
use ai_infrastructure_platfo.Gateway.Clients.{
  awaited, expected, submit_chat-future, waiting_response,
}
use ai_infrastructure_platfo.Gateway.Dispatch.{
  System, Event, chats, dispatches, answers, take_at, taken_up, round, dispatch, step, run,
}
use ai_infrastructure_platfo.Gateway.Dispatch.Agreement.{submit_chat-Moved}
use ai_infrastructure_platfo.Gateway.Dispatch.Conservation.{fcfs_ops}

take_at_end : (xs : List ℕ) (x : ℕ) → take_at (xs ++ x ∷ []) (length xs) ≡ some (x, xs)
unfolding take_at
take_at_end [] x = refl
take_at_end (y ∷ xs) x = rw (take_at_end xs x, take_at) refl

module _ {F : Type 0} ⦃fl : Floats F⦄ (id_of : ℕ → ℕ) where
  abbrev ops : Scheduling F (FcfsScheduler F ℕ)
  ops = fcfs_ops id_of

  run-append :
      (sys : System (FcfsScheduler F ℕ)) (es later : List Event)
      → run ops id_of sys (es ++ later) ≡ run ops id_of (run ops id_of sys es) later
  unfolding run
  run-append sys [] later = refl
  run-append sys (e ∷ es) later = run-append (step ops id_of sys e) es later

  -- The gateway `g` over the scheduler `s`, with what is queued and what is in flight.
  abbrev system :
      Gateway (FcfsScheduler F ℕ) → FcfsScheduler F ℕ → List ℕ → List ℕ → System (FcfsScheduler F ℕ)
  system g s queue in_flight = record {
    gateway = record g { scheduler = some (record s { queue = queue }) };
    in_flight = in_flight;
  }

  dispatch_one :
      (g : Gateway (FcfsScheduler F ℕ)) (s : FcfsScheduler F ℕ) (x : ℕ) (queue in_flight : List ℕ)
      → g.running ≡ true
      → step ops id_of (system g s (x ∷ queue) in_flight) dispatches
        ≡ system g s queue (in_flight ++ x ∷ [])
  unfolding step dispatch round taken_up fcfs_scheduling Fcfs.acquire Fcfs.take_front
  dispatch_one g s x queue in_flight r =
      ap
        (round ops id_of (system g s (x ∷ queue) in_flight) (some (record s { queue = x ∷ queue })))
        r

  dispatch_all :
      (g : Gateway (FcfsScheduler F ℕ)) (s : FcfsScheduler F ℕ) (queue in_flight : List ℕ)
      → g.running ≡ true
      → run ops id_of (system g s queue in_flight) (replicate (length queue) dispatches)
        ≡ system g s [] (in_flight ++ queue)
  unfolding run
  dispatch_all g s [] in_flight r = ap (system g s []) (sym (append-nil in_flight))
  dispatch_all g s (x ∷ queue) in_flight r =
      ap (λ sys. run ops id_of sys (replicate (length queue) dispatches))
        (dispatch_one g s x queue in_flight r)
      ∙ dispatch_all g s queue (in_flight ++ x ∷ []) r
      ∙ ap (system g s []) (append_assoc in_flight (x ∷ []) queue)

  submitted :
      (sys : System (FcfsScheduler F ℕ)) (s : FcfsScheduler F ℕ) (ref : ℕ)
      → sys.gateway.scheduler ≡ some s
      → step ops id_of sys (chats ref)
        ≡ system
            (submit_chat ops sys.gateway (id_of ref) ref)
            (Fcfs.submit s (id_of ref) ref)
            (s.queue ++ ref ∷ [])
            sys.in_flight
  unfolding step Fcfs.submit fcfs_scheduling
  submitted sys s ref e =
      let g = submit_chat ops sys.gateway (id_of ref) ref in
      let there : g.scheduler ≡ some (Fcfs.submit s (id_of ref) ref) =
        (submit_chat-Moved ops id_of sys.gateway (id_of ref) ref s e).0 in
      ap (λ o. record { gateway = record g { scheduler = o }; in_flight = sys.in_flight }) there

  still_running :
      (g : Gateway (FcfsScheduler F ℕ)) (k ref : ℕ) → (submit_chat ops g k ref).running ≡ g.running
  unfolding submit_chat set_depth set_future
  still_running g k ref = ground arith

  answered :
      (g : Gateway (FcfsScheduler F ℕ)) (s : FcfsScheduler F ℕ) (before : List ℕ) (ref : ℕ)
      (b : Backend)
      → step ops id_of (system g s [] (before ++ ref ∷ [])) (answers (length before) b) ≡ record {
        gateway = forward_request ops (system g s [] before).gateway (id_of ref) b;
        in_flight = before;
      }
  unfolding step
  answered g s before ref b = rw (take_at_end before ref, step) refl

  -- A plain request at a running gateway, after as many rounds of the workers as there are requests
  -- in the queue and one more, is with the server, and the answer that then comes to it is its
  -- client's response: the server's JSON after the status 200 without an "error" entry, and the status
  -- 502 with the server's text or the exception's message otherwise.
  pub chat_served :
      (sys : System (FcfsScheduler F ℕ)) (s : FcfsScheduler F ℕ) (ref : ℕ) (b : Backend)
      → sys.gateway.running ≡ true
      → sys.gateway.scheduler ≡ some s
      → is_plain b ≡ true
      → respond (
          awaited (
            Dict.get
              (run ops id_of sys (
                chats ref
                ∷ (replicate (length (s.queue ++ ref ∷ [])) dispatches
                    ++ answers (length (sys.in_flight ++ s.queue)) b ∷ []))).gateway.futures
              (id_of ref)))
        ≡ expected b
  unfolding run
  chat_served sys s ref b r e p =
      let g = submit_chat ops sys.gateway (id_of ref) ref in
      let t = Fcfs.submit s (id_of ref) ref in
      let queue = s.queue ++ ref ∷ [] in
      let before = sys.in_flight ++ s.queue in
      let reply : Event = answers (length before) b in
      let rounds = replicate (length queue) dispatches in
      let start = submitted sys s ref e in
      let moved =
        dispatch_all g t queue sys.in_flight (still_running sys.gateway (id_of ref) ref ∙ r) in
      let queued = ap (system g t []) (sym (append_assoc sys.in_flight s.queue (ref ∷ []))) in
      let whole =
        ap (λ q. run ops id_of q (rounds ++ reply ∷ [])) start
        ∙ run-append (system g t queue sys.in_flight) rounds (reply ∷ [])
        ∙ ap (λ q. step ops id_of q reply) (moved ∙ queued)
        ∙ answered g t before ref b in
      ap
        (λ (q : System (FcfsScheduler F ℕ)).
          respond (awaited (Dict.get q.gateway.futures (id_of ref))))
        whole
      ∙ waiting_response ops (system g t [] before).gateway (id_of ref) b
          (submit_chat-future ops sys.gateway (id_of ref) ref) p
